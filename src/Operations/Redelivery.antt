-- ===== src/Operations/Redelivery.antt =====
-- A second delivery of an expire_request job: Expire of internal/operations/mutate.go on its own result.
use openlocal_api.Prelude.{
  ℕ, suc, ◌≡◌, refl, ap, ◌∙◌, Bool, true, false, some, String, str_eq, ◌==◌, any, arith,
  find_of_any, find_holds, find-replace_first, any-append_last, Bool-cases, Option-cases, inl, inr,
}
use openlocal_api.Api.{Result, ok, err}
use openlocal_api.Tx.{atomically}
use openlocal_api.Tx.Ensures.{Ensures, atomically_at}
use openlocal_api.Entitlements.Access.{Subscription}
use openlocal_api.Operations.States.{valid_module}
use openlocal_api.Operations.Tables.{
  Appointment, Preorder, Requests, free_subscription, ensure_subscription, lock_subscription,
  get_appointment, get_preorder, is_appointment, is_preorder, update_appointment, update_preorder,
  add_history,
}
use openlocal_api.Operations.Expire.{
  not_due, expire_appointment, expire_preorder, expire_body, expire,
}

-- The transaction finds nothing to do.
Done : ℕ → ℕ → ℕ → String → Requests → Type 0
Done now b i m t = expire_body now b i m t ≡ ok (tt, t)

module _ (now b i : ℕ) (m : String) (t : Requests) (s : Subscription)
    (locked : lock_subscription b t ≡ some s) where
  appointment-Done :
      (a : Appointment)
      → str_eq m "appointments" ≡ true
      → get_appointment b i t.appointments ≡ some a
      → Ensures (λ u t'. Done now b i m t') (expire_appointment now b i m a t)
  unfolding Done expire_body expire_appointment update_appointment add_history get_appointment
      lock_subscription not_due
  appointment-Done a on_appointments row =
      let new : Appointment = record a { status = "expired"; version = suc a.version } in
      let key = find_holds (is_appointment b i) t.appointments a row in
      ground (
        arith,
        locked,
        on_appointments,
        row,
        find-replace_first (is_appointment b i) new t.appointments a row key,
      )

  preorder-Done :
      (p : Preorder)
      → str_eq m "appointments" ≡ false
      → get_preorder b i t.preorders ≡ some p
      → Ensures (λ u t'. Done now b i m t') (expire_preorder now b i m p t)
  unfolding Done expire_body expire_preorder update_preorder add_history get_preorder
      lock_subscription not_due
  preorder-Done p on_preorders row =
      let new : Preorder = record p { status = "expired"; version = suc p.version } in
      let key = find_holds (is_preorder b i) t.preorders p row in
      ground (
        arith,
        locked,
        on_preorders,
        row,
        find-replace_first (is_preorder b i) new t.preorders p row key,
      )

  body-Done : Ensures (λ u t'. Done now b i m t') (expire_body now b i m t)
  unfolding expire_body
  body-Done = elim (Bool-cases (str_eq m "appointments")) [
    | inl on_appointments ↦ elim (Option-cases (get_appointment b i t.appointments)) [
      | inl no_row ↦ rw (locked, on_appointments, no_row) tt
      | inr (a, row) ↦ rw (locked, on_appointments, row) (appointment-Done a on_appointments row)
    ]
    | inr on_preorders ↦ elim (Option-cases (get_preorder b i t.preorders)) [
      | inl no_row ↦ rw (locked, on_preorders, no_row) tt
      | inr (p, row) ↦ rw (locked, on_preorders, row) (preorder-Done p on_preorders row)
    ]
  ]

body_keeps_subscriptions :
    (now b i : ℕ) (m : String) (t : Requests)
    → Ensures (λ u t'. t'.subscriptions ≡ t.subscriptions) (expire_body now b i m t)
unfolding expire_body expire_appointment expire_preorder update_appointment update_preorder
    add_history
body_keeps_subscriptions now b i m t = ground arith

on_business : ℕ → Subscription → Bool
on_business b s = s.business_id == b

ensured :
    (now b : ℕ) (t : Requests)
    → any (on_business b) (ensure_subscription now b t).subscriptions ≡ true
unfolding ensure_subscription on_business
ensured now b t = elim (Bool-cases (any (on_business b) t.subscriptions)) [
  | inl there ↦ ground (arith, there)
  | inr missing ↦ ground (
    arith,
    missing,
    any-append_last (on_business b) t.subscriptions (free_subscription now b) (ground arith),
  )
]

ensure_again :
    (now b : ℕ) (t : Requests)
    → any (on_business b) t.subscriptions ≡ true
    → ensure_subscription now b t ≡ t
unfolding ensure_subscription on_business
ensure_again now b t h = ground (arith, h)

body_is_Done :
    (now b i : ℕ) (m : String) (t : Requests)
    → any (on_business b) t.subscriptions ≡ true
    → Ensures (λ u t'. Done now b i m t') (expire_body now b i m t)
unfolding on_business
body_is_Done now b i m t h = elim (Option-cases (lock_subscription b t)) [
  | inl missing ↦ absurd (
      find_of_any (λ s. s.business_id == b) t.subscriptions h (unfold lock_subscription in missing))
  | inr (s, locked) ↦ body-Done now b i m t s locked
]

again :
    (now b i : ℕ) (m : String) (t : Requests)
    → any (on_business b) t.subscriptions ≡ true
    → atomically
        (expire_body now b i m)
        (ensure_subscription now b (atomically (expire_body now b i m) t).1)
      ≡ atomically (expire_body now b i m) t
again now b i m t h =
    ran (expire_body now b i m t) refl (body_is_Done now b i m t h)
      (body_keeps_subscriptions now b i m t)
  where
    ran :
        (r : Result (Unit {0} × Requests))
        → expire_body now b i m t ≡ r
        → Ensures (λ u t'. Done now b i m t') r
        → Ensures (λ u t'. t'.subscriptions ≡ t.subscriptions) r
        → (let first : Result (Unit {0}) × Requests = elim r [
          | ok (u, t') ↦ (ok u, t')
          | err e ↦ (err e, t)
        ] in
            atomically (expire_body now b i m) (ensure_subscription now b first.1) ≡ first)
    ran (err e) ran_so done same =
        ap (atomically (expire_body now b i m)) (ensure_again now b t h)
        ∙ atomically_at (expire_body now b i m) t ran_so
    ran (ok (u, t')) ran_so done same =
        let there : any (on_business b) t'.subscriptions ≡ true = rw same h in
        let again_ok : expire_body now b i m t' ≡ ok (tt, t') = unfold Done in done in
        ap (atomically (expire_body now b i m)) (ensure_again now b t' there)
        ∙ atomically_at (expire_body now b i m) t' again_ok

-- Expire is idempotent: a second delivery of the job at the same time finds nothing to do, and gives the
-- same result.
pub expire_idempotent :
    (now b i : ℕ) (m : String) (t : Requests)
    → expire now b i m (expire now b i m t).1 ≡ expire now b i m t
unfolding expire
expire_idempotent now b i m t = elim (Bool-cases (valid_module m)) [
  | inl valid ↦ rw valid (again now b i m (ensure_subscription now b t) (ensured now b t))
  | inr unknown ↦ rw unknown refl
]
