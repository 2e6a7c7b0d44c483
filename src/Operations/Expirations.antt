-- ===== src/Operations/Expirations.antt =====
-- What Expire of internal/operations/mutate.go does to the state of any request: it stays, or it expires.
use openlocal_api.Prelude.{
  ℕ, suc, ◌≡◌, ◌⊎◌, refl, sym, ap, ◌∙◌, subst, inl, inr, false, ◌&&◌, Option, none, some, List,
  String, str_eq, eq_iff, ◌==◌, leb, replace_first, arith, Bool-cases, Option-cases,
}
use openlocal_api.Api.{ok}
use openlocal_api.Tx.Runs.{atomically-runs}
use openlocal_api.Operations.States.{valid_module}
use openlocal_api.Operations.Tables.{
  Appointment, Preorder, Requests, get_appointment, get_preorder, is_preorder,
  next_preorder_version, ensure_subscription, lock_subscription, update_appointment,
  update_preorder, add_history,
}
use openlocal_api.Operations.Expire.{
  not_due, expire_appointment, expire_preorder, expire_body, expire,
}
use openlocal_api.Operations.Expiry.{expired_row, expire-appointments}
use openlocal_api.Operations.Machine.{
  State, of_appointment, of_preorder, state_of, replaced_preorder, preorder_key,
}

-- The request was asked for, nobody confirmed it, and it expires.
pub record Expires (s s' : State) : Type 0 where
  pub requested : s.status ≡ "requested"
  pub expired_now : s'.status ≡ "expired"
  pub counted : s'.version ≡ suc s.version

-- The request is as it was, or has expired.
unfoldable pub ByExpiry : Option State → Option State → Type 0
ByExpiry x y = (y ≡ x) ⊎ ((s : State) × (s' : State) × (x ≡ some s) × (y ≡ some s') × Expires s s')

expired_row-ByExpiry :
    (now : ℕ) (x : Option Appointment)
    → ByExpiry (of_appointment x) (of_appointment (expired_row now x))
unfolding ByExpiry
expired_row-ByExpiry now none = inl refl
expired_row-ByExpiry now (some a) =
    elim (Bool-cases (str_eq a.status "requested" && leb a.expires_at now)) [
      | inr early ↦ inl (rw early refl)
      | inl due ↦ inr (
        record { status = a.status; version = a.version },
        record { status = "expired"; version = suc a.version },
        refl,
        rw due refl,
        record {
          requested = (eq_iff a.status "requested").0 (ground (arith, due));
          expired_now = refl;
          counted = refl;
        },
      )
    ]

appointment-ByExpiry :
    (now b i b' i' : ℕ) (n : String) (t : Requests)
    → ByExpiry
        (of_appointment (get_appointment b' i' t.appointments))
        (of_appointment (get_appointment b' i' (expire now b i n t).1.appointments))
unfolding ByExpiry
appointment-ByExpiry now b i b' i' n t =
    let after = expire-appointments now b i b' i' n t in
    elim (Bool-cases (str_eq n "appointments" && (b' == b && i' == i))) [
      | inr other ↦ inl (ap of_appointment (after ∙ rw other refl))
      | inl this ↦
          subst
            (λ y.
              ByExpiry (of_appointment (get_appointment b' i' t.appointments)) (of_appointment y))
            (sym (after ∙ rw this refl))
            (expired_row-ByExpiry now (get_appointment b' i' t.appointments))
    ]

-- The row that expires, seen under any key.
expired_preorder-ByExpiry :
    (b i b' i' : ℕ) (p : Preorder) (rows : List Preorder)
    → get_preorder b i rows ≡ some p
    → p.status ≡ "requested"
    → ByExpiry (of_preorder (get_preorder b' i' rows)) (
        of_preorder (
          get_preorder b' i' (
            replace_first
              (is_preorder b i)
              (next_preorder_version (record p { status = "expired" }))
              rows)))
unfolding ByExpiry
expired_preorder-ByExpiry b i b' i' p rows found asked =
    let new = next_preorder_version (record p { status = "expired" }) in
    let (business, id) = preorder_key b i rows p found in
    let after = replaced_preorder b i b' i' new p rows found business id in
    elim (Bool-cases (b == b' && i == i')) [
      | inr other ↦ inl (ap of_preorder (after ∙ rw other refl))
      | inl this ↦
          let same_b : b ≡ b' = ground (arith, this) in
          let same_i : i ≡ i' = ground (arith, this) in
          let before : get_preorder b' i' rows ≡ some p = rw (← same_b, ← same_i) found in
          inr (
            record { status = p.status; version = p.version },
            record { status = "expired"; version = suc p.version },
            ap of_preorder before,
            ap of_preorder {y = some new} (after ∙ rw this refl),
            record { requested = asked; expired_now = refl; counted = refl },
          )
    ]

due_asked :
    (now : ℕ) (status : String) (expires_at : ℕ)
    → not_due now status expires_at ≡ false
    → status ≡ "requested"
unfolding not_due
due_asked now status expires_at due = (eq_iff status "requested").0 (ground (arith, due))

module _ (now b i b' i' : ℕ) (n : String) (t t' : Requests) (u : Unit {0}) where
  expire_preorder-ByExpiry :
      (p : Preorder)
      → get_preorder b i t.preorders ≡ some p
      → expire_preorder now b i n p t ≡ ok (u, t')
      → ByExpiry
          (of_preorder (get_preorder b' i' t.preorders))
          (of_preorder (get_preorder b' i' t'.preorders))
  unfolding expire_preorder update_preorder add_history
  expire_preorder-ByExpiry p found e = elim (Bool-cases (not_due now p.status p.expires_at)) [
    | inl early ↦
        let same : t ≡ t' = ground (arith, early, e) in
        unfold ByExpiry in
        inl (ap (λ (x : Requests). of_preorder (get_preorder b' i' x.preorders)) (sym same))
    | inr due ↦
        let asked : p.status ≡ "requested" = due_asked now p.status p.expires_at due in
        let rows : t'.preorders
            ≡ replace_first (is_preorder b i)
                (next_preorder_version (record p { status = "expired" })) t.preorders =
          ground (arith, due, e) in
        rw rows (expired_preorder-ByExpiry b i b' i' p t.preorders found asked)
  ]

  expire_appointment_preorders :
      (a : Appointment) → expire_appointment now b i n a t ≡ ok (u, t') → t'.preorders ≡ t.preorders
  unfolding expire_appointment update_appointment add_history
  expire_appointment_preorders a e = ground (arith, e)

  expire_body-ByExpiry :
      expire_body now b i n t ≡ ok (u, t')
      → ByExpiry
          (of_preorder (get_preorder b' i' t.preorders))
          (of_preorder (get_preorder b' i' t'.preorders))
  unfolding expire_body
  expire_body-ByExpiry e = elim (Option-cases (lock_subscription b t)) [
    | inl missing ↦ absurd (ground (arith, missing, e))
    | inr (s, locked) ↦ elim (Bool-cases (str_eq n "appointments")) [
      | inl on_appointments ↦ elim (Option-cases (get_appointment b i t.appointments)) [
        | inl no_row ↦ absurd (ground (arith, locked, on_appointments, no_row, e))
        | inr (a, row) ↦
            unfold ByExpiry in
            inl (
              ap (λ rows. of_preorder (get_preorder b' i' rows))
                (expire_appointment_preorders a (ground (arith, locked, on_appointments, row, e))))
      ]
      | inr on_preorders ↦ elim (Option-cases (get_preorder b i t.preorders)) [
        | inl no_row ↦ absurd (ground (arith, locked, on_preorders, no_row, e))
        | inr (p, row) ↦
            expire_preorder-ByExpiry p row (ground (arith, locked, on_preorders, row, e))
      ]
    ]
  ]

preorder-ByExpiry :
    (now b i b' i' : ℕ) (n : String) (t : Requests)
    → ByExpiry
        (of_preorder (get_preorder b' i' t.preorders))
        (of_preorder (get_preorder b' i' (expire now b i n t).1.preorders))
unfolding ByExpiry expire
preorder-ByExpiry now b i b' i' n t = elim (Bool-cases (valid_module n)) [
  | inr unknown ↦ inl (rw unknown refl)
  | inl valid ↦
      let rows : (ensure_subscription now b t).preorders ≡ t.preorders =
        unfold ensure_subscription in ground arith in
      rw valid (
        atomically-runs
          (λ (x : Requests).
            ByExpiry (of_preorder (get_preorder b' i' t.preorders))
              (of_preorder (get_preorder b' i' x.preorders)))
          (expire_body now b i n) (ensure_subscription now b t) (inl (rw rows refl))
          (λ u t' ran.
            subst
              (λ (r : List Preorder).
                ByExpiry (of_preorder (get_preorder b' i' r))
                  (of_preorder (get_preorder b' i' t'.preorders)))
              rows (expire_body-ByExpiry now b i b' i' n (ensure_subscription now b t) t' u ran)))
]

pub expire-ByExpiry :
    (now b i b' i' : ℕ) (n m : String) (t : Requests)
    → ByExpiry (state_of m b' i' t) (state_of m b' i' (expire now b i n t).1)
unfolding state_of
expire-ByExpiry now b i b' i' n m t = elim (Bool-cases (str_eq m "appointments")) [
  | inl here ↦ rw here (appointment-ByExpiry now b i b' i' n t)
  | inr there ↦ rw there (preorder-ByExpiry now b i b' i' n t)
]
