-- ===== src/Examples/Setup.antt =====
-- A business saves its settings, and a resource.
use openlocal_api.Prelude.{ℕ, ◌<◌, ◌≡◌, ◌≢◌, refl, true, false, Option, none, some, [], ◌∷◌}
use openlocal_api.Api.{plain, ok, err}
use openlocal_api.Text.Runes.{Text, text, text_eq, byte_length, is_space, is_digit}
use openlocal_api.Entitlements.Access.{limits, owns, paid}
use openlocal_api.Operations.Rows.{AppointmentResource}
use openlocal_api.Operations.Tables.{Requests, ensure_subscription, lock_subscription}
use openlocal_api.Operations.Intake.{VariantRule, defaults, require_paid}
use openlocal_api.Operations.Booking.{Amount, no_ids}
use openlocal_api.Operations.Basket.{check_range, rule_amount, rule_for}
use openlocal_api.Operations.Rules.{
  Draft, validate_settings, valid_schedule, check_bounds, out_of_bounds, check_tier, check_cutoff,
  check_module, check_rule_count, count_rules, check_rules, is_range,
}
use openlocal_api.Operations.Steps.{validated_steps}
use openlocal_api.Operations.Configuration.{
  SaveResource, count_active, save_resource, save_resource_body, resource_base, invalid_resource,
  knows_services, save_appointment_resource,
}
use openlocal_api.Operations.Seats.{Wrote, save_resource_within}
use openlocal_api.Operations.Mutate.{reads}
use openlocal_api.Text.Fields.{trim_space, trim_left, trim_right}
use openlocal_api.Operations.Checks.{get_service}
use openlocal_api.Examples.Requests.{subscription, tables}
use openlocal_api.Examples.Arrivals.{env}
use openlocal_api.Scheduling.Clock.{validate, check_dates, check_hours}
use openlocal_api.Operations.Changes.{positive_quantity}

-- Every text is one.
abbrev one_each : Text → Option Amount
one_each written = some (record { is_negative = false; scale = 0; thousandths = 1000 })

abbrev rule : VariantRule
rule = record { variant_id = 8; min_quantity = text "1"; max_quantity = text "1"; step = text "1" }

abbrev draft : Draft
draft = record { settings = record defaults { variant_rules = rule ∷ [] }; below_zero = false }

validated_steps_example :
    ((quantity : ℕ) → check_range one_each rule quantity ≢ err (plain "decimal division by 0"))
    × (check_range one_each rule (rule_amount one_each rule.min_quantity) ≡ ok tt)
unfolding validate_settings valid_schedule validate check_bounds out_of_bounds check_tier
    check_cutoff text_eq check_module check_rule_count count_rules check_rules is_range
    positive_quantity byte_length rule_for
validated_steps_example = validated_steps one_each draft "business" "preorders" 8 rule refl refl

abbrev add_chair : SaveResource
add_chair = record {
  business = 1;
  patched = none;
  fresh = 6;
  merge = λ base. ok (record base { name = text "Silla" });
}

abbrev chair : AppointmentResource
chair = record {
  id = 6;
  business_id = 1;
  name = text "Silla";
  active = true;
  service_ids = [];
  hours = [];
  closed_dates = [];
}

abbrev after : Requests
after = (save_resource env add_chair tables).1

accepted : save_resource env add_chair tables ≡ (ok chair, after)
unfolding save_resource save_resource_body resource_base invalid_resource knows_services
    count_active save_appointment_resource lock_subscription ensure_subscription require_paid owns
    paid limits reads byte_length is_space is_digit trim_space trim_left trim_right valid_schedule
    validate check_dates check_hours no_ids get_service
accepted = refl

save_resource_within_example :
    (chair.business_id ≡ add_chair.business)
    × (chair.id ≡ add_chair.fresh)
    × (chair.active ≡ true → count_active 1 6 after.resources < (limits "essential").1)
    × (count_active 1 6 after.resources ≡ count_active 1 6 tables.resources)
    × Wrote chair (ensure_subscription 5 1 tables) after
unfolding lock_subscription ensure_subscription
save_resource_within_example =
    save_resource_within env add_chair tables after chair subscription accepted refl
