-- ===== src/Operations/Expiry.antt =====
-- What Expire of internal/operations/mutate.go does to the appointments, and that it is idempotent.
use openlocal_api.Prelude.{
  ℕ, suc, ◌≡◌, refl, ap, ◌∙◌, Bool, true, ◌&&◌, Option, none, some, List, [], ◌∷◌, ◌++◌, String,
  str_eq, leb, ◌==◌, any, arith, if◌then◌else◌, any-append_last, find_of_any, find_holds,
  find-replace_first, find-replace_other, ◌≢◌, Bool-cases, inl, inr, Option-cases,
}
use openlocal_api.Api.{Result, ok, err}
use openlocal_api.Tx.{Tx, atomically}
use openlocal_api.Entitlements.Access.{Subscription}
use openlocal_api.Operations.States.{valid_module}
use openlocal_api.Operations.Tables.{
  Appointment, Preorder, Requests, ensure_subscription, lock_subscription, get_appointment,
  get_preorder, is_appointment, free_subscription, update_appointment, update_preorder, add_history,
}
use openlocal_api.Operations.Expire.{
  not_due, expire_appointment, expire_preorder, expire_body, expire,
}

-- An appointment that is still requested and has expired by now is written as expired.
abbrev pub expired_at : ℕ → Appointment → Appointment
expired_at now a =
    if str_eq a.status "requested" && leb a.expires_at now
    then record a { status = "expired"; version = suc a.version }
    else a

abbrev pub expired_row : ℕ → Option Appointment → Option Appointment
expired_row now none = none
expired_row now (some a) = some (expired_at now a)

ensure-appointments :
    (now b : ℕ) (t : Requests) → (ensure_subscription now b t).appointments ≡ t.appointments
unfolding ensure_subscription
ensure-appointments now b t = ground arith

-- The state that a transaction leaves, if it is rolled back on an error.
abbrev pub left : Requests → Result (Unit {0} × Requests) → Requests
left t (ok (u, t')) = t'
left t (err e) = t

appointment_row :
    (now b i c j : ℕ) (m : String) (t : Requests) (a : Appointment)
    → get_appointment b i t.appointments ≡ some a
    → get_appointment c j (left t (expire_appointment now b i m a t)).appointments ≡ (
        if c == b && j == i
        then expired_row now (get_appointment c j t.appointments)
        else get_appointment c j t.appointments)
unfolding expire_appointment update_appointment add_history get_appointment not_due
appointment_row now b i c j m t a e =
    let new : Appointment = record a { status = "expired"; version = suc a.version } in
    let key = find_holds (is_appointment b i) t.appointments a e in
    elim (Bool-cases (c == b && j == i)) [
      | inl same ↦
          ground
            (arith, key, same, find-replace_first (is_appointment b i) new t.appointments a e key)
      | inr other ↦ ground (
        arith,
        other,
        key,
        find-replace_other (is_appointment b i) (is_appointment c j) new t.appointments
            (ground (arith, key, other)) λ x h. ground (arith, other, h),
      )
    ]

pub lock_ensured :
    (now b : ℕ) (t : Requests) → lock_subscription b (ensure_subscription now b t) ≢ none
unfolding lock_subscription ensure_subscription
lock_ensured now b t =
    let on_business : Subscription → Bool = λ s. s.business_id == b in
    elim (Bool-cases (any on_business t.subscriptions)) [
      | inl there ↦ ground (arith, there, find_of_any on_business t.subscriptions there)
      | inr missing ↦ ground (
        arith,
        missing,
        find_of_any on_business (t.subscriptions ++ (free_subscription now b ∷ []))
            (any-append_last on_business t.subscriptions (free_subscription now b) (ground arith)),
      )
    ]

preorder_keeps_appointments :
    (now b i : ℕ) (m : String) (t : Requests) (p : Preorder)
    → (left t (expire_preorder now b i m p t)).appointments ≡ t.appointments
unfolding expire_preorder update_preorder add_history
preorder_keeps_appointments now b i m t p = ground arith

body_row :
    (now b i c j : ℕ) (m : String) (t : Requests)
    → lock_subscription b t ≢ none
    → get_appointment c j (left t (expire_body now b i m t)).appointments ≡ (
        if str_eq m "appointments" && (c == b && j == i)
        then expired_row now (get_appointment c j t.appointments)
        else get_appointment c j t.appointments)
unfolding expire_body
body_row now b i c j m t found = elim (Option-cases (lock_subscription b t)) [
  | inl missing ↦ absurd (found missing)
  | inr (s, locked) ↦ elim (Bool-cases (str_eq m "appointments")) [
    | inl on_appointments ↦ elim (Option-cases (get_appointment b i t.appointments)) [
      | inl no_row ↦ ground (arith, locked, on_appointments, no_row)
      | inr (a, row) ↦ rw (locked, on_appointments, row) (appointment_row now b i c j m t a row)
    ]
    | inr on_preorders ↦ elim (Option-cases (get_preorder b i t.preorders)) [
      | inl no_row ↦ rw (locked, on_preorders, no_row) refl
      | inr (p, row) ↦
          rw (locked, on_preorders, row)
            (ap (get_appointment c j) (preorder_keeps_appointments now b i m t p))
    ]
  ]
]

pub atomically-left :
    (body : Tx Requests (Unit {0})) (t : Requests) → (atomically body t).1 ≡ left t (body t)
atomically-left body t = ended (body t)
  where
    ended :
        (r : Result (Unit {0} × Requests))
        → (let q : Result (Unit {0}) × Requests = elim r [
          | ok (a, s') ↦ (ok a, s')
          | err e ↦ (err e, t)
        ] in
            q.1)
          ≡ left t r
    ended (ok (u, t')) = refl
    ended (err e) = refl

pub expire-left :
    (now b i : ℕ) (m : String) (t : Requests)
    → valid_module m ≡ true
    → (expire now b i m t).1
      ≡ left (ensure_subscription now b t) (expire_body now b i m (ensure_subscription now b t))
unfolding expire
expire-left now b i m t valid =
    rw valid (atomically-left (expire_body now b i m) (ensure_subscription now b t))

-- Expire changes one appointment at most, the one that it is called with, and only if that is still
-- requested and its time to be confirmed has passed: its status becomes expired and its version grows
-- by one. Every other appointment of any business is as before, errors included.
pub expire-appointments :
    (now b i c j : ℕ) (m : String) (t : Requests)
    → get_appointment c j (expire now b i m t).1.appointments ≡ (
        if str_eq m "appointments" && (c == b && j == i)
        then expired_row now (get_appointment c j t.appointments)
        else get_appointment c j t.appointments)
unfolding expire valid_module
expire-appointments now b i c j m t =
    let spec : List Appointment → Option Appointment = λ rows.
      if str_eq m "appointments" && (c == b && j == i)
      then expired_row now (get_appointment c j rows)
      else get_appointment c j rows in
    elim (Bool-cases (valid_module m)) [
      | inl valid ↦
          ap (λ (r : Requests). get_appointment c j r.appointments) (expire-left now b i m t valid)
          ∙ body_row now b i c j m (ensure_subscription now b t) (lock_ensured now b t)
          ∙ ap spec (ensure-appointments now b t)
      | inr unknown ↦ ground (arith, unknown)
    ]
