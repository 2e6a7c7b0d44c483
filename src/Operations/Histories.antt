-- ===== src/Operations/Histories.antt =====
-- The life of all requests together: calls of create and of mutate and deliveries of expire_request, in any
-- order.
use openlocal_api.Prelude.{
  ℕ, ◌≡◌, refl, subst, inl, inr, false, List, [], ◌∷◌, String, str_eq, replace_first, arith,
  Bool-cases, Option-cases,
}
use openlocal_api.Api.{ok}
use openlocal_api.Tx.Runs.{atomically-runs}
use openlocal_api.Operations.States.{valid_module}
use openlocal_api.Operations.Tables.{
  Appointment, Preorder, Requests, get_appointment, get_preorder, is_appointment, next_version,
  ensure_subscription, lock_subscription, update_appointment, update_preorder, add_history,
}
use openlocal_api.Operations.Expire.{
  not_due, expire_appointment, expire_preorder, expire_body, expire,
}
use openlocal_api.Operations.Booking.{Env, is_booked}
use openlocal_api.Operations.Overlaps.{NoOverlap, NoOverlap-replace_first, unbooked-Apart}
use openlocal_api.Operations.Changes.{Target, Change}
use openlocal_api.Operations.Mutate.{mutate}
use openlocal_api.Operations.Arrivals.{Booking}
use openlocal_api.Operations.Create.{create}
use openlocal_api.Operations.Newcomers.{create-NoOverlap}
use openlocal_api.Operations.DoubleBooking.{mutate-NoOverlap}

-- One transaction on the requests, with the time at which it runs.
pub data Event : Type 0 where
  created : Env → Booking → Event
  mutated : Env → Target → Change → Event
  expired : (now business id : ℕ) → (module_name : String) → Event

unfoldable pub happen : Event → Requests → Requests
happen (created env call) t = (create env call t).1
happen (mutated env target change) t = (mutate env target change t).1
happen (expired now business id module_name) t = (expire now business id module_name t).1

unfoldable pub happen_all : List Event → Requests → Requests
happen_all [] t = t
happen_all (e ∷ es) t = happen_all es (happen e t)

expired_free : is_booked "expired" ≡ false
unfolding is_booked
expired_free = refl

expire_appointment-NoOverlap :
    (now b i : ℕ) (m : String) (a : Appointment) (t t' : Requests) (u : Unit {0})
    → NoOverlap t.appointments
    → expire_appointment now b i m a t ≡ ok (u, t')
    → NoOverlap t'.appointments
unfolding expire_appointment update_appointment add_history
expire_appointment-NoOverlap now b i m a t t' u apart e =
    elim (Bool-cases (not_due now a.status a.expires_at)) [
      | inl early ↦
          let same : t ≡ t' = ground (arith, early, e) in
          subst (λ (x : Requests). NoOverlap x.appointments) same apart
      | inr due ↦
          let new = next_version (record a { status = "expired" }) in
          let rows : t'.appointments ≡ replace_first (is_appointment b i) new t.appointments =
            ground (arith, due, e) in
          rw rows (
            NoOverlap-replace_first (is_appointment b i) new t.appointments apart
              (unbooked-Apart new t.appointments expired_free))
    ]

expire_preorder_rows :
    (now b i : ℕ) (m : String) (p : Preorder) (t t' : Requests) (u : Unit {0})
    → expire_preorder now b i m p t ≡ ok (u, t')
    → t'.appointments ≡ t.appointments
unfolding expire_preorder update_preorder add_history
expire_preorder_rows now b i m p t t' u e = ground (arith, e)

expire_body-NoOverlap :
    (now b i : ℕ) (m : String) (t t' : Requests) (u : Unit {0})
    → NoOverlap t.appointments
    → expire_body now b i m t ≡ ok (u, t')
    → NoOverlap t'.appointments
unfolding expire_body
expire_body-NoOverlap now b i m t t' u apart e = elim (Option-cases (lock_subscription b t)) [
  | inl missing ↦ absurd (ground (arith, missing, e))
  | inr (s, locked) ↦ elim (Bool-cases (str_eq m "appointments")) [
    | inl on_appointments ↦ elim (Option-cases (get_appointment b i t.appointments)) [
      | inl no_row ↦ absurd (ground (arith, locked, on_appointments, no_row, e))
      | inr (a, row) ↦
          expire_appointment-NoOverlap now b i m a t t' u apart
            (ground (arith, locked, on_appointments, row, e))
    ]
    | inr on_preorders ↦ elim (Option-cases (get_preorder b i t.preorders)) [
      | inl no_row ↦ absurd (ground (arith, locked, on_preorders, no_row, e))
      | inr (p, row) ↦
          rw
            (expire_preorder_rows now b i m p t t' u (ground (arith, locked, on_preorders, row, e)))
            apart
    ]
  ]
]

ensured_rows :
    (now b : ℕ) (t : Requests) → (ensure_subscription now b t).appointments ≡ t.appointments
unfolding ensure_subscription
ensured_rows now b t = ground arith

expire-NoOverlap :
    (now b i : ℕ) (m : String) (t : Requests)
    → NoOverlap t.appointments
    → NoOverlap (expire now b i m t).1.appointments
unfolding expire
expire-NoOverlap now b i m t apart = elim (Bool-cases (valid_module m)) [
  | inr unknown ↦ rw unknown apart
  | inl valid ↦
      let start : NoOverlap (ensure_subscription now b t).appointments =
        rw (ensured_rows now b t) apart in
      rw valid (
        atomically-runs (λ (x : Requests). NoOverlap x.appointments) (expire_body now b i m)
          (ensure_subscription now b t) start
          (λ u t' ran.
            expire_body-NoOverlap now b i m (ensure_subscription now b t) t' u start ran))
]

-- No double booking, ever: from tables in which no two appointments of a business that hold the same
-- resource overlap, each taken with the buffer after it, no history of calls of create and of mutate and
-- of expirations, in any order, at any times, by any callers, accepted or not, leads to tables in which
-- two do.
pub happen_all-NoOverlap :
    (es : List Event) (t : Requests)
    → NoOverlap t.appointments
    → NoOverlap (happen_all es t).appointments
unfolding happen_all happen
happen_all-NoOverlap [] t apart = apart
happen_all-NoOverlap (created env call ∷ es) t apart =
    happen_all-NoOverlap es (create env call t).1 (create-NoOverlap env call t apart)
happen_all-NoOverlap (mutated env target change ∷ es) t apart =
    happen_all-NoOverlap es (mutate env target change t).1
      (mutate-NoOverlap env target change t apart)
happen_all-NoOverlap (expired now b i m ∷ es) t apart =
    happen_all-NoOverlap es (expire now b i m t).1 (expire-NoOverlap now b i m t apart)
