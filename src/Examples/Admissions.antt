-- ===== src/Examples/Admissions.antt =====
-- A module that takes a request in, and one whose quota is used up.
use openlocal_api.Prelude.{◌≡◌, refl, true, false, Option, none, some, List, [], ◌∷◌, String}
use openlocal_api.Text.Runes.{Text, text}
use openlocal_api.Scheduling.Clock.{Hour}
use openlocal_api.Entitlements.Access.{
  Subscription, ModuleRow, get_access, get_module, consume, owns, paid, limits, module_usage,
}
use openlocal_api.Entitlements.Quota.{IsOk}
use openlocal_api.Operations.Intake.{
  Settings, defaults, require_paid, no_hours, settings_of, intake_open, require_intake,
}
use openlocal_api.Operations.Admission.{require_intake_admits}

abbrev bakery : String → Subscription
bakery tier = record {
  business_id = 1;
  tier = tier;
  status = "active";
  modules = "preorders" ∷ [];
  stripe_customer_id = none;
  stripe_subscription_id = none;
  period_start = 1000;
  period_end = 5000;
  grace_until = none;
  cancel_at_period_end = false;
  scheduled_change = none;
}

abbrev mornings : List Hour
mornings =
    record { day_of_week = 6; opens_at = text "07:00"; closes_at = text "12:00"; is_closed = false }
    ∷ []

-- Every text sets the opening hours.
abbrev read_hours : Settings → Text → Option Settings
read_hours base written = some (record base { hours = mornings })

abbrev rows : List ModuleRow
rows = record { business_id = 1; module_name = "preorders"; enabled = true; settings = [] } ∷ []

abbrev open_settings : Settings
open_settings = record defaults { enabled = true; hours = mornings }

require_intake_admits_example :
    (open_settings.enabled ≡ true)
    × (no_hours open_settings.hours ≡ false)
    × ((get_access
          (bakery "essential")
          "owner"
          2000
          "preorders"
          (get_module 1 "preorders" rows)
          []).can_accept_new
        ≡ true)
    × IsOk (consume 2000 (bakery "essential") "preorders" 7 [])
unfolding require_intake settings_of require_paid intake_open no_hours get_module owns paid limits
    module_usage
require_intake_admits_example =
    require_intake_admits read_hours 2000 (bakery "essential") "owner" "preorders" 7 rows []
      open_settings refl
