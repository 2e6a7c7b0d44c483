-- ===== src/Operations/Intake.antt =====
-- Which requests a module takes in: settings, requirePaid, requireIntake and publicUnavailable of
-- internal/operations/core.go, with the settings and their defaults of types.go.
use openlocal_api.Prelude.{
  ℕ, Bool, true, false, not, ◌||◌, Option, none, some, List, [], ◌∷◌, String, str_eq, leb,
  if◌then◌else◌,
}
use openlocal_api.Api.{Error, fail, plain, Result, ok, err, ◌>>=◌, ◌>>◌}
use openlocal_api.Text.Runes.{Text}
use openlocal_api.Scheduling.Clock.{Hour}
use openlocal_api.Entitlements.Access.{
  Subscription, ModuleRow, UsageEvent, limits, module_usage, owns, get_module,
}

pub record VariantRule : Type 0 where
  pub variant_id : ℕ
  pub min_quantity : Text
  pub max_quantity : Text
  pub step : Text

pub record Settings : Type 0 where
  pub enabled : Bool
  pub hours : List Hour
  pub closed_dates : List Text
  pub lead_minutes : ℕ
  pub horizon_days : ℕ
  pub slot_minutes : ℕ
  pub cancel_before_minutes : ℕ
  pub pending_ttl_minutes : ℕ
  pub daily_cutoff : Text
  pub max_orders_per_slot : ℕ
  pub variant_rules : List VariantRule

abbrev pub defaults : Settings
defaults = record {
  enabled = false;
  hours = [];
  closed_dates = [];
  lead_minutes = 60;
  horizon_days = 30;
  slot_minutes = 30;
  cancel_before_minutes = 60;
  pending_ttl_minutes = 1440;
  daily_cutoff = [];
  max_orders_per_slot = 0;
  variant_rules = [];
}

-- requirePaid
unfoldable pub require_paid : ℕ → Subscription → String → Result (Unit {0})
require_paid now s module_name =
    if not (owns s now module_name)
    then err (fail 403 "module_unavailable" "module is not subscribed")
    else ok tt

-- publicUnavailable, of an error that is there
unfoldable pub public_unavailable : Error → Error
public_unavailable (fail status code message) =
    if str_eq code "quota_exceeded" || str_eq code "module_unavailable"
    then fail 403 "module_unavailable" "requests are currently unavailable; contact the business"
    else fail status code message
public_unavailable e = e

unfoldable pub no_hours : List Hour → Bool
no_hours [] = true
no_hours (h ∷ hs) = false

-- `unmarshal` is json.Unmarshal: the settings that a text writes over others.
module _ (unmarshal : Settings → Text → Option Settings) where
  -- settings: the defaults where the module has no row
  unfoldable pub settings_of : Option ModuleRow → Result Settings
  settings_of none = ok defaults
  settings_of (some row) = elim (unmarshal defaults row.settings) [
    | none ↦ err (plain "invalid settings")
    | some s ↦ ok (record s { enabled = row.enabled })
  ]

  -- The tests of requireIntake, on the settings.
  unfoldable pub intake_open : Subscription → String → List UsageEvent → Settings → Result Settings
  intake_open s module_name events cfg =
      if not cfg.enabled || no_hours cfg.hours
      then err (fail 403 "module_unavailable" "requests are currently unavailable")
      else if leb (limits s.tier).0 (module_usage s.business_id module_name s.period_start events)
      then err (fail 409 "quota_exceeded" "requests are currently unavailable")
      else ok cfg

  -- requireIntake
  unfoldable pub require_intake :
      ℕ → Subscription → String → List ModuleRow → List UsageEvent → Result Settings
  require_intake now s module_name rows events =
      settings_of (get_module s.business_id module_name rows) >>= λ cfg.
      require_paid now s module_name >> intake_open s module_name events cfg
