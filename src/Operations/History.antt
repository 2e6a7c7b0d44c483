-- ===== src/Operations/History.antt =====
-- What Expire of internal/operations/mutate.go writes to request_history.
use openlocal_api.Prelude.{
  ℕ, ◌≡◌, ◌≢◌, refl, ap, ◌∙◌, Bool, true, false, ◌&&◌, Option, none, some, List, [], ◌∷◌, ◌++◌,
  String, str_eq, leb, ◌==◌, any, arith, if◌then◌else◌, Bool-cases, Option-cases, inl, inr,
}
use openlocal_api.Operations.States.{valid_module}
use openlocal_api.Operations.Tables.{
  Appointment, Preorder, HistoryRow, Requests, ensure_subscription, lock_subscription,
  get_appointment, get_preorder, update_appointment, update_preorder, history_row, add_history,
}
use openlocal_api.Operations.Expire.{
  not_due, expire_appointment, expire_preorder, expire_body, expire,
}
use openlocal_api.Operations.Expiry.{left, expire-left, lock_ensured}

abbrev due_appointment : ℕ → Option Appointment → Bool
due_appointment now none = false
due_appointment now (some a) = str_eq a.status "requested" && leb a.expires_at now

abbrev due_preorder : ℕ → Option Preorder → Bool
due_preorder now none = false
due_preorder now (some p) = str_eq p.status "requested" && leb p.expires_at now

-- The record is there, still requested, and its time to be confirmed has passed.
abbrev pub due_record : ℕ → ℕ → ℕ → String → Requests → Bool
due_record now b i m t =
    if str_eq m "appointments"
    then due_appointment now (get_appointment b i t.appointments)
    else str_eq m "preorders" && due_preorder now (get_preorder b i t.preorders)

-- The history with one entry more, or as it is.
pub with_entry : Bool → ℕ → ℕ → String → List HistoryRow → List HistoryRow
with_entry due b i m rows =
    if due then rows ++ (history_row b i m "requested" "expired" "system" ∷ []) else rows

module _ (now b i : ℕ) (m : String) (t : Requests) where
  appointment_entry :
      (a : Appointment)
      → get_appointment b i t.appointments ≡ some a
      → (left t (expire_appointment now b i m a t)).history
        ≡ with_entry (due_appointment now (some a)) b i m t.history
  unfolding with_entry expire_appointment update_appointment add_history not_due
  appointment_entry a row = ground (arith, row)

  preorder_entry :
      (p : Preorder)
      → get_preorder b i t.preorders ≡ some p
      → (left t (expire_preorder now b i m p t)).history
        ≡ with_entry (due_preorder now (some p)) b i m t.history
  unfolding with_entry expire_preorder update_preorder add_history not_due
  preorder_entry p row = ground (arith, row)

  no_entry : t.history ≡ with_entry false b i m t.history
  unfolding with_entry
  no_entry = refl

  body_entry :
      lock_subscription b t ≢ none
      → valid_module m ≡ true
      → (left t (expire_body now b i m t)).history
        ≡ with_entry (due_record now b i m t) b i m t.history
  unfolding expire_body valid_module
  body_entry found valid = elim (Option-cases (lock_subscription b t)) [
    | inl missing ↦ absurd (found missing)
    | inr (s, locked) ↦ elim (Bool-cases (str_eq m "appointments")) [
      | inl on_appointments ↦ elim (Option-cases (get_appointment b i t.appointments)) [
        | inl no_row ↦ rw (locked, on_appointments, no_row) no_entry
        | inr (a, row) ↦ rw (locked, on_appointments, row) (appointment_entry a row)
      ]
      | inr on_other ↦
          let on_preorders : str_eq m "preorders" ≡ true = ground (arith, on_other, valid) in
          elim (Option-cases (get_preorder b i t.preorders)) [
            | inl no_row ↦ rw (locked, on_other, on_preorders, no_row) no_entry
            | inr (p, row) ↦ rw (locked, on_other, on_preorders, row) (preorder_entry p row)
          ]
    ]
  ]

with_entry_ensured :
    (now b i : ℕ) (m : String) (t : Requests)
    → with_entry
        (due_record now b i m (ensure_subscription now b t))
        b
        i
        m
        (ensure_subscription now b t).history
      ≡ with_entry (due_record now b i m t) b i m t.history
unfolding ensure_subscription
with_entry_ensured now b i m t = elim (Bool-cases (any (λ s. s.business_id == b) t.subscriptions)) [
  | inl there ↦ rw there refl
  | inr missing ↦ rw missing refl
]

-- Expire writes one entry to the history, from requested to expired by the system, if the record is
-- there, is still requested and its time to be confirmed has passed; otherwise it writes none. This
-- holds of both modules and on every branch, errors included.
pub expire-history :
    (now b i : ℕ) (m : String) (t : Requests)
    → (expire now b i m t).1.history ≡ with_entry (due_record now b i m t) b i m t.history
unfolding expire valid_module with_entry
expire-history now b i m t = elim (Bool-cases (valid_module m)) [
  | inl valid ↦
      ap (λ (r : Requests). r.history) (expire-left now b i m t valid)
      ∙ body_entry now b i m (ensure_subscription now b t) (lock_ensured now b t) valid
      ∙ with_entry_ensured now b i m t
  | inr unknown ↦ ground (arith, unknown)
]
