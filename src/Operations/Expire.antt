-- ===== src/Operations/Expire.antt =====
-- Expire of internal/operations/mutate.go, with begin of internal/operations/core.go.
use openlocal_api.Prelude.{ℕ, Bool, not, ◌||◌, String, str_eq, ltb, if◌then◌else◌}
use openlocal_api.Api.{Error, fail, Result, err}
use openlocal_api.Tx.{Tx, pure, gets, one, ◌>>=◌, ◌>>◌, atomically}
use openlocal_api.Operations.States.{valid_module}
use openlocal_api.Operations.Tables.{
  Appointment, Preorder, Requests, ensure_subscription, lock_subscription, get_appointment,
  get_preorder, update_appointment, update_preorder, add_history,
}

-- bad
abbrev pub bad : String → Error
bad message = fail 400 "invalid_request" message

-- `Status != "requested" || time.Now().Before(ExpiresAt)`: nothing is to be done.
unfoldable pub not_due : ℕ → String → ℕ → Bool
not_due now status expires_at = not (str_eq status "requested") || ltb now expires_at

expire_history : ℕ → ℕ → String → Tx Requests (Unit {0})
expire_history business id module_name =
    add_history business id module_name "requested" "expired" "system"

unfoldable pub expire_appointment : ℕ → ℕ → ℕ → String → Appointment → Tx Requests (Unit {0})
unfolding expire_history
expire_appointment now business id module_name a =
    if not_due now a.status a.expires_at then pure tt else do
      update_appointment business id (record a { status = "expired" })
      expire_history business id module_name

unfoldable pub expire_preorder : ℕ → ℕ → ℕ → String → Preorder → Tx Requests (Unit {0})
unfolding expire_history
expire_preorder now business id module_name p =
    if not_due now p.status p.expires_at then pure tt else do
      update_preorder business id (record p { status = "expired" })
      expire_history business id module_name

-- The transaction of Expire. Its early `return nil` has written nothing, so its rollback is a commit.
unfoldable pub expire_body : ℕ → ℕ → ℕ → String → Tx Requests (Unit {0})
expire_body now business id module_name = do
  found ← gets (lock_subscription business)
  one found
  if str_eq module_name "appointments"
      then (do
        row ← gets (λ t. get_appointment business id t.appointments)
        a ← one row
        expire_appointment now business id module_name a)
      else do
        row ← gets (λ t. get_preorder business id t.preorders)
        p ← one row
        expire_preorder now business id module_name p

-- Expire: EnsureSubscription runs before the transaction and stays.
unfoldable pub expire : ℕ → ℕ → ℕ → String → Requests → Result (Unit {0}) × Requests
expire now business id module_name t =
    if valid_module module_name
    then atomically (expire_body now business id module_name) (ensure_subscription now business t)
    else (err (bad "unknown module"), t)
