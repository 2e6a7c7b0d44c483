-- ===== src/Operations/Newcomers.antt =====
-- What a new request of create of internal/operations/create.go means for those that are there already.
use openlocal_api.Prelude.{
  ℕ, ◌≡◌, refl, ap, ◌∙◌, inl, inr, false, some, [], ◌∷◌, ◌++◌, String, str_eq, ◌==◌, any, find,
  find-append, arith, Bool-cases, Option-cases,
}
use openlocal_api.Api.{ok}
use openlocal_api.Operations.Rows.{Business, View}
use openlocal_api.Operations.Tables.{
  Appointment, Preorder, Requests, get_appointment, get_preorder, is_appointment, is_preorder,
  ensure_subscription,
}
use openlocal_api.Operations.Customer.{CustomerInput}
use openlocal_api.Operations.Intake.{Settings}
use openlocal_api.Operations.Booking.{Env, is_booked}
use openlocal_api.Operations.Overlaps.{NoOverlap, NoOverlap-append_last, unbooked-Apart}
use openlocal_api.Operations.Changes.{save_replay}
use openlocal_api.Operations.Arrivals.{Order, visit, basket, module_of, Booking}
use openlocal_api.Operations.Create.{Written, new_appointment, new_preorder, create_order, create}
use openlocal_api.Operations.Created.{create_visit-VisitRan, create_basket-BasketRan}
use openlocal_api.Operations.Creations.{Opened, create_runs}
use openlocal_api.Operations.Machine.{State, state_of, ensured-State}

-- The state that a request starts in.
abbrev pub requested : State
requested = record { status = "requested"; version = 1 }

-- A request was added to the end of one table, in the first state, under an id that the table did not hold.
pub data Added (b id : ℕ) (t t' : Requests) : String → Type 0 where
  visit_added :
      (a : Appointment)
      → (a.business_id ≡ b) × (a.id ≡ id) × (a.status ≡ "requested") × (a.version ≡ 1)
      → any (λ (x : Appointment). x.id == id) t.appointments ≡ false
      → t'.appointments ≡ t.appointments ++ (a ∷ [])
      → t'.preorders ≡ t.preorders
      → Added b id t t' "appointments"
  basket_added :
      (p : Preorder)
      → (p.business_id ≡ b) × (p.id ≡ id) × (p.status ≡ "requested") × (p.version ≡ 1)
      → any (λ (x : Preorder). x.id == id) t.preorders ≡ false
      → t'.preorders ≡ t.preorders ++ (p ∷ [])
      → t'.appointments ≡ t.appointments
      → Added b id t t' "preorders"

create_order-Added :
    (env : Env) (cfg : Settings) (call : Booking) (b : Business) (input : CustomerInput)
    (customer_id : ℕ) (order : Order) (w : Written) (t t' : Requests)
    → create_order env cfg call b input customer_id order t ≡ ok (w, t')
    → Added b.id call.id t t' (module_of order)
unfolding create_order
create_order-Added env cfg call b input customer_id (visit service resource start) w t t' e =
    let ran =
      create_visit-VisitRan env cfg call b input customer_id w t t' service resource start e in
    visit_added (new_appointment call b input customer_id ran.svc resource start w.ends w.expiry)
      (refl, refl, refl, refl) ran.unused ran.appointments ran.preorders
create_order-Added env cfg call b input customer_id (basket window items) w t t' e =
    let ran = create_basket-BasketRan env cfg call b input customer_id w t t' window items e in
    basket_added (new_preorder call b input customer_id ran.row w.expiry ran.total)
      (refl, refl, refl, refl) ran.unused ran.preorders ran.appointments

-- The tables of the requests, before and after.
Added-like :
    (b id : ℕ) (m : String) (s s' t t' : Requests)
    → s.appointments ≡ t.appointments
    → s.preorders ≡ t.preorders
    → t'.appointments ≡ s'.appointments
    → t'.preorders ≡ s'.preorders
    → Added b id s s' m
    → Added b id t t' m
Added-like b id m s s' t t' a p a' p' (visit_added row start unused rows others) =
    visit_added row start (rw a at unused) (a' ∙ rw a at rows) (p' ∙ others ∙ p)
Added-like b id m s s' t t' a p a' p' (basket_added row start unused rows others) =
    basket_added row start (rw p at unused) (p' ∙ rw p at rows) (a' ∙ others ∙ a)

module _ (env : Env) (call : Booking) (b : Business) (input : CustomerInput) (answer : View)
    (t t' : Requests) (opened : Opened env call b input answer t t') where
  pub opened-Added : Added b.id call.id t t' (module_of call.order)
  unfolding save_replay
  opened-Added =
      let ran = opened.ran in
      Added-like b.id call.id (module_of call.order) ran.known ran.written t t' ran.appointments
        ran.preorders
        (ap (λ (x : Requests). x.appointments) opened.saved ∙ ran.followed.appointments)
        (ap (λ (x : Requests). x.preorders) opened.saved ∙ ran.followed.preorders)
        (create_order-Added env ran.cfg call b input ran.customer_id call.order ran.w ran.known
          ran.written ran.order)

requested_free : (s : String) → s ≡ "requested" → is_booked s ≡ false
unfolding is_booked
requested_free s e = rw e refl

Added-NoOverlap :
    (b id : ℕ) (m : String) (t t' : Requests)
    → Added b id t t' m
    → NoOverlap t.appointments
    → NoOverlap t'.appointments
Added-NoOverlap b id m t t' (visit_added row start unused rows others) apart = rw rows (
    NoOverlap-append_last row t.appointments apart
      (unbooked-Apart row t.appointments (requested_free row.status start.2)))
Added-NoOverlap b id m t t' (basket_added row start unused rows others) apart = rw others apart

-- A request that is there stays as it is.
Added-State :
    (b id : ℕ) (n m : String) (t t' : Requests) (b' i : ℕ) (s : State)
    → Added b id t t' n
    → state_of m b' i t ≡ some s
    → state_of m b' i t' ≡ some s
unfolding state_of get_appointment get_preorder
Added-State b id n m t t' b' i s (visit_added row start unused rows others) there =
    elim (Bool-cases (str_eq m "appointments")) [
      | inr preorders ↦ rw (preorders, others) (rw preorders at there)
      | inl here ↦ elim (Option-cases (find (is_appointment b' i) t.appointments)) [
        | inl missing ↦ absurd (ground (arith, here, missing, there))
        | inr (old, found) ↦
            rw (here, rows, find-append (is_appointment b' i) t.appointments (row ∷ []) old found)
              (rw (here, found) at there)
      ]
    ]
Added-State b id n m t t' b' i s (basket_added row start unused rows others) there =
    elim (Bool-cases (str_eq m "appointments")) [
      | inl appointments ↦ rw (appointments, others) (rw appointments at there)
      | inr here ↦ elim (Option-cases (find (is_preorder b' i) t.preorders)) [
        | inl missing ↦ absurd (ground (arith, here, missing, there))
        | inr (old, found) ↦
            rw (here, rows, find-append (is_preorder b' i) t.preorders (row ∷ []) old found)
              (rw (here, found) at there)
      ]
    ]

ensured_appointments :
    (now b : ℕ) (t : Requests) → (ensure_subscription now b t).appointments ≡ t.appointments
unfolding ensure_subscription
ensured_appointments now b t = ground arith

pub create-NoOverlap :
    (env : Env) (call : Booking) (t : Requests)
    → NoOverlap t.appointments
    → NoOverlap (create env call t).1.appointments
create-NoOverlap env call t apart =
    let start : (now business : ℕ) → NoOverlap (ensure_subscription now business t).appointments =
      λ now business. rw (ensured_appointments now business t) apart in
    create_runs (λ (x : Requests). NoOverlap x.appointments) env call t apart start
      (λ b input answer t' found cleaned opened.
        Added-NoOverlap b.id call.id (module_of call.order) (ensure_subscription env.now b.id t) t'
          (opened-Added env call b input answer (ensure_subscription env.now b.id t) t' opened)
          (start env.now b.id))

pub create-State :
    (env : Env) (call : Booking) (t : Requests) (m : String) (b i : ℕ) (s : State)
    → state_of m b i t ≡ some s
    → state_of m b i (create env call t).1 ≡ some s
create-State env call t m b i s there =
    let start : (now business : ℕ) → state_of m b i (ensure_subscription now business t) ≡ some s =
      λ now business. ensured-State now business t m b i ∙ there in
    create_runs (λ (x : Requests). state_of m b i x ≡ some s) env call t there start
      (λ c input answer t' found cleaned opened.
        Added-State c.id call.id (module_of call.order) m (ensure_subscription env.now c.id t) t' b
          i s (opened-Added env call c input answer (ensure_subscription env.now c.id t) t' opened)
          (start env.now c.id))
