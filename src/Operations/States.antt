-- ===== src/Operations/States.antt =====
-- The states of a request: Next of internal/appointments/state.go and internal/preorders/state.go, and
-- what internal/operations makes of them (core.go, records.go, mutate.go).
use openlocal_api.Prelude.{
  ℕ, ◌+◌, ◌*◌, Bool, true, false, not, ◌&&◌, ◌||◌, List, [], ◌∷◌, String, str_eq, ltb, contains,
  if◌then◌else◌,
}
use openlocal_api.Scheduling.Calendar.{minute}

-- appointments.Next
unfoldable pub next_of_appointment : String → List String
next_of_appointment status =
    if str_eq status "requested"
    then "confirmed" ∷ "rejected" ∷ "cancelled" ∷ []
    else if str_eq status "confirmed"
    then "completed" ∷ "cancelled" ∷ "no_show" ∷ []
    else []

-- preorders.Next
unfoldable pub next_of_preorder : String → List String
next_of_preorder status =
    if str_eq status "requested"
    then "confirmed" ∷ "rejected" ∷ "cancelled" ∷ []
    else if str_eq status "confirmed"
    then "preparing" ∷ "ready" ∷ "collected" ∷ "cancelled" ∷ "uncollected" ∷ []
    else if str_eq status "preparing"
    then "ready" ∷ "collected" ∷ "cancelled" ∷ "uncollected" ∷ []
    else if str_eq status "ready"
    then "collected" ∷ "cancelled" ∷ "uncollected" ∷ []
    else []

-- next
unfoldable pub next : String → String → List String
next module_name status =
    if str_eq module_name "appointments"
    then next_of_appointment status
    else next_of_preorder status

-- len(next(…)) == 0
abbrev pub no_next : List String → Bool
no_next [] = true
no_next (s ∷ ss) = false

-- validModule
unfoldable pub valid_module : String → Bool
valid_module m = str_eq m "appointments" || str_eq m "preorders"

-- The status that record shows: a request past its expiry is expired before the sweep writes it.
unfoldable pub shown_status : ℕ → String → ℕ → String
shown_status now status expires_at =
    if str_eq status "requested" && not (ltb now expires_at) then "expired" else status

-- customerTransitions
unfoldable pub customer_transitions : ℕ → String → String → ℕ → ℕ → List String
customer_transitions now module_name status cancel_before_minutes starts_at =
    if contains (next module_name status) "cancelled"
      && ltb (now + cancel_before_minutes * minute) starts_at
    then "cancelled" ∷ []
    else []

-- pendingExpiration
unfoldable pub pending_expiration : ℕ → ℕ → ℕ → ℕ
pending_expiration now start minutes =
    if ltb start (now + minutes * minute) then start else now + minutes * minute
