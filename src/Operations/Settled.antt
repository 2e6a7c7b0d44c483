-- ===== src/Operations/Settled.antt =====
-- What the handlers show as expired, Expire of internal/operations/mutate.go writes as expired.
use openlocal_api.Prelude.{
  ℕ, suc, ◌≡◌, ◌≢◌, refl, sym, ap, ◌∙◌, subst, inl, inr, true, false, not, ◌&&◌, Option, none, some,
  [], ◌∷◌, ◌++◌, String, str_eq, leb, ltb, find, find-replace_first, replace_first, arith,
  Bool-cases, Option-cases,
}
use openlocal_api.Api.{ok}
use openlocal_api.Tx.Runs.{ok_atomically}
use openlocal_api.Operations.States.{valid_module, shown_status}
use openlocal_api.Operations.Rows.{View}
use openlocal_api.Operations.Tables.{
  Appointment, Preorder, Requests, get_appointment, get_preorder, is_preorder,
  next_preorder_version, ensure_subscription, lock_subscription, update_preorder, add_history,
  history_row,
}
use openlocal_api.Operations.Expire.{not_due, expire_preorder, expire_body, expire}
use openlocal_api.Operations.Expiry.{expired_row, expire-appointments, lock_ensured}
use openlocal_api.Operations.Changes.{view_of}
use openlocal_api.Operations.Machine.{State, of_appointment, of_preorder, state_of, preorder_key}

-- The status that is stored where the one that is shown is expired.
shown_expired :
    (now : ℕ) (status : String) (at : ℕ)
    → shown_status now status at ≡ "expired"
    → (not_due now status at ≡ true → status ≡ "expired")
unfolding shown_status not_due
shown_expired now status at shown early =
    elim (Bool-cases (str_eq status "requested" && not (ltb now at))) [
      | inl due ↦ absurd (ground (arith, due, early))
      | inr other ↦ ground (arith, other, shown)
    ]

-- A preorder that is due is written as expired.
expire_due_preorder :
    (now b i : ℕ) (m : String) (p : Preorder) (t : Requests)
    → str_eq m "appointments" ≡ false
    → lock_subscription b t ≢ none
    → get_preorder b i t.preorders ≡ some p
    → not_due now p.status p.expires_at ≡ false
    → (u : Requests) × (expire_body now b i m t ≡ ok (tt, u))
      × (u.preorders
          ≡ replace_first
              (is_preorder b i)
              (next_preorder_version (record p { status = "expired" }))
              t.preorders)
unfolding expire_body expire_preorder update_preorder add_history
expire_due_preorder now b i m p t there subscribed found due =
    elim (Option-cases (lock_subscription b t)) [
      | inl missing ↦ absurd (subscribed missing)
      | inr (s, locked) ↦ (
        record t {
          preorders =
              replace_first (is_preorder b i)
                (next_preorder_version (record p { status = "expired" })) t.preorders;
          history = t.history ++ (history_row b i m "requested" "expired" "system" ∷ []);
        },
        ground (arith, locked, there, found, due),
        refl,
      )
    ]

-- One that is not is left.
expire_early_preorder :
    (now b i : ℕ) (m : String) (p : Preorder) (t : Requests)
    → str_eq m "appointments" ≡ false
    → lock_subscription b t ≢ none
    → get_preorder b i t.preorders ≡ some p
    → not_due now p.status p.expires_at ≡ true
    → expire_body now b i m t ≡ ok (tt, t)
unfolding expire_body expire_preorder
expire_early_preorder now b i m p t there subscribed found early =
    elim (Option-cases (lock_subscription b t)) [
      | inl missing ↦ absurd (subscribed missing)
      | inr (s, locked) ↦ ground (arith, locked, there, found, early)
    ]

-- The state is that of an expired request.
Settled : Option State → Type 0
Settled x = (n : ℕ) × (x ≡ some (record { status = "expired"; version = n }))

Settled-at :
    (s : String) (n : ℕ) → s ≡ "expired" → Settled (some (record { status = s; version = n }))
unfolding Settled
Settled-at s n e = (n, rw e refl)

Settled-row :
    (now : ℕ) (a : Appointment)
    → shown_status now a.status a.expires_at ≡ "expired"
    → Settled (of_appointment (expired_row now (some a)))
unfolding not_due
Settled-row now a shown = elim (Bool-cases (str_eq a.status "requested" && leb a.expires_at now)) [
  | inl due ↦ rw due (Settled-at "expired" (suc a.version) refl)
  | inr other ↦ rw other (
      Settled-at a.status a.version
        (shown_expired now a.status a.expires_at shown (ground (arith, other))))
]

module _ (now b i : ℕ) (m : String) (t : Requests) where
  Settled-appointment :
      (a : Appointment)
      → str_eq m "appointments" ≡ true
      → get_appointment b i t.appointments ≡ some a
      → shown_status now a.status a.expires_at ≡ "expired"
      → Settled (of_appointment (get_appointment b i (expire now b i m t).1.appointments))
  Settled-appointment a here found shown =
      let after : get_appointment b i (expire now b i m t).1.appointments
          ≡ expired_row now (some a) =
        expire-appointments now b i b i m t ∙ ground (arith, here, found) in
      subst (λ x. Settled (of_appointment x)) (sym after) (Settled-row now a shown)

  Settled-preorder :
      (p : Preorder)
      → valid_module m ≡ true
      → str_eq m "appointments" ≡ false
      → get_preorder b i t.preorders ≡ some p
      → shown_status now p.status p.expires_at ≡ "expired"
      → Settled (of_preorder (get_preorder b i (expire now b i m t).1.preorders))
  unfolding expire
  Settled-preorder p valid there found shown =
      let start = ensure_subscription now b t in
      let rows : start.preorders ≡ t.preorders = unfold ensure_subscription in ground arith in
      let still : get_preorder b i start.preorders ≡ some p = ap (get_preorder b i) rows ∙ found in
      elim (Bool-cases (not_due now p.status p.expires_at)) [
        | inl early ↦
            let ran =
              ok_atomically (expire_body now b i m) start tt start (
                expire_early_preorder now b i m p start there (lock_ensured now b t) still early) in
            rw (valid, ran, still)
              (Settled-at p.status p.version (shown_expired now p.status p.expires_at shown early))
        | inr due ↦
            let (u, body, changed) =
              expire_due_preorder now b i m p start there (lock_ensured now b t) still due in
            let ran = ok_atomically (expire_body now b i m) start tt u body in
            let new = next_preorder_version (record p { status = "expired" }) in
            let (business, id) = preorder_key b i start.preorders p still in
            let after : get_preorder b i u.preorders ≡ some new =
              unfold get_preorder in
              (ap (find (is_preorder b i)) changed
                ∙ find-replace_first (is_preorder b i) new start.preorders p
                    (unfold get_preorder in still) (ground (arith, business, id))) in
            rw (valid, ran, after) (Settled-at "expired" (suc p.version) refl)
      ]

-- Every request that is not confirmed in time ends: one that the handlers show as expired at the time at
-- which the job of its expiry runs is stored as expired after that.
pub expire_settles :
    (now b i : ℕ) (m : String) (t : Requests) (v : View)
    → valid_module m ≡ true
    → view_of now b i m t ≡ some v
    → v.status ≡ "expired"
    → (n : ℕ) × (state_of m b i (expire now b i m t).1
        ≡ some (record { status = "expired"; version = n }))
unfolding view_of state_of Settled
expire_settles now b i m t v valid shown expired = elim (Bool-cases (str_eq m "appointments")) [
  | inl here ↦ elim (Option-cases (get_appointment b i t.appointments)) [
    | inl missing ↦ absurd (ground (arith, here, missing, shown))
    | inr (a, found) ↦
        let same : shown_status now a.status a.expires_at ≡ v.status =
          ground (arith, here, found, shown) in
        rw here (Settled-appointment now b i m t a here found (same ∙ expired))
  ]
  | inr there ↦ elim (Option-cases (get_preorder b i t.preorders)) [
    | inl missing ↦ absurd (ground (arith, there, missing, shown))
    | inr (p, found) ↦
        let same : shown_status now p.status p.expires_at ≡ v.status =
          ground (arith, there, found, shown) in
        rw there (Settled-preorder now b i m t p valid there found (same ∙ expired))
  ]
]
