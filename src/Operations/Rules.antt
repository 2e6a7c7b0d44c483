-- ===== src/Operations/Rules.antt =====
-- validateSettings of internal/operations/configuration.go: the settings that a business may save.
use openlocal_api.Prelude.{
  ℕ, Bool, true, false, not, ◌&&◌, ◌||◌, Option, none, some, List, [], ◌∷◌, String, str_eq, ◌==◌,
  ltb, contains_id, if◌then◌else◌,
}
use openlocal_api.Api.{fail, Result, ok, err, ◌>>◌}
use openlocal_api.Text.Runes.{Text, text_eq}
use openlocal_api.Scheduling.Clock.{Hour, clock, validate}
use openlocal_api.Operations.Expire.{bad}
use openlocal_api.Operations.Intake.{VariantRule, Settings, no_hours}
use openlocal_api.Operations.Booking.{Amount, error_text}
use openlocal_api.Operations.Changes.{positive_quantity}

-- Settings as they are decoded from a body over those that are stored. Go's numbers are signed: a number
-- below zero is 0 in `settings`, and `below_zero` says that there is one.
pub record Draft : Type 0 where
  pub settings : Settings
  pub below_zero : Bool

-- A call to scheduling.Validate, with its error as a bad request.
unfoldable pub valid_schedule : List Hour → List Text → Result (Unit {0})
valid_schedule hours dates = elim (validate hours dates) [
  | ok u ↦ ok u
  | err e ↦ err (bad (error_text e))
]

unfoldable pub out_of_bounds : Draft → Bool
out_of_bounds d =
    let s = d.settings in
    d.below_zero
    || (ltb 10080 s.lead_minutes
        || (ltb s.horizon_days 1
            || (ltb 90 s.horizon_days
                || (ltb s.slot_minutes 5
                    || (ltb 240 s.slot_minutes
                        || (ltb 10080 s.cancel_before_minutes
                            || (ltb s.pending_ttl_minutes 5
                                || (ltb 10080 s.pending_ttl_minutes
                                    || ltb 1000 s.max_orders_per_slot))))))))

unfoldable pub check_bounds : Draft → Result (Unit {0})
check_bounds d = if out_of_bounds d then err (bad "invalid scheduling bounds") else ok tt

abbrev pub has_cutoff : Settings → Bool
has_cutoff s = not (text_eq s.daily_cutoff [])

abbrev pub has_order_limit : Settings → Bool
has_order_limit s = not (s.max_orders_per_slot == 0)

-- The settings of the tier Business.
unfoldable pub check_tier : Settings → String → Result (Unit {0})
check_tier s tier =
    if not (str_eq tier "business") && (has_cutoff s || has_order_limit s)
    then err (fail 403 "module_unavailable" "advanced settings require Business")
    else ok tt

unfoldable pub check_cutoff : Settings → Result (Unit {0})
check_cutoff s =
    if has_cutoff s
    then elim (clock s.daily_cutoff) [ none ↦ err (bad "time must be HH:MM") | some m ↦ ok tt ]
    else ok tt

abbrev pub no_rules : List VariantRule → Bool
no_rules [] = true
no_rules (r ∷ rs) = false

unfoldable pub check_module : Settings → String → Result (Unit {0})
check_module s module_name =
    if str_eq module_name "appointments"
      && (not (no_rules s.variant_rules) || (has_order_limit s || has_cutoff s))
    then err (bad "preorder settings do not apply to appointments")
    else ok tt

unfoldable pub count_rules : List VariantRule → ℕ
count_rules [] = 0
count_rules (r ∷ rs) = Prim.Native.Nat.suc (count_rules rs)

-- The three amounts of a rule, all positive quantities, and their order.
unfoldable pub is_range : Result ℕ → Result ℕ → Result ℕ → Bool
is_range (ok least) (ok most) (ok step) = not (ltb most least || ltb most step)
is_range least most step = false

-- The loop over the rules, with the variants that it has seen.
unfoldable pub check_rules : (Text → Option Amount) → List ℕ → List VariantRule → Result (Unit {0})
check_rules amount_of seen [] = ok tt
check_rules amount_of seen (r ∷ rs) =
    if r.variant_id == 0 || contains_id seen r.variant_id
    then err (bad "invalid or duplicate variant")
    else if not (
        is_range (positive_quantity amount_of r.min_quantity)
          (positive_quantity amount_of r.max_quantity) (positive_quantity amount_of r.step))
    then err (bad "invalid variant quantity rules")
    else check_rules amount_of (r.variant_id ∷ seen) rs

unfoldable pub check_rule_count : List VariantRule → Result (Unit {0})
check_rule_count rules =
    if ltb 500 (count_rules rules) then err (bad "at most 500 preorder variants") else ok tt

-- validateSettings
unfoldable pub validate_settings :
    (Text → Option Amount) → Draft → (tier module_name : String) → Result (Unit {0})
validate_settings amount_of d tier module_name = do
  valid_schedule d.settings.hours d.settings.closed_dates
  check_bounds d
  check_tier d.settings tier
  check_cutoff d.settings
  check_module d.settings module_name
  check_rule_count d.settings.variant_rules
  check_rules amount_of [] d.settings.variant_rules
  if d.settings.enabled && no_hours d.settings.hours
      then err (bad "configure hours before enabling requests")
      else ok tt
