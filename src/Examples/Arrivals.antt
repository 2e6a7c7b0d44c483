-- ===== src/Examples/Arrivals.antt =====
-- A customer asks a salon for an appointment, and the items of a preorder are priced.
use openlocal_api.Prelude.{
  ◌+◌, ◌*◌, ◌≤◌, ◌≡◌, ◌⊎◌, refl, true, false, Option, none, some, List, [], ◌∷◌, All, if◌then◌else◌,
}
use openlocal_api.Api.{fail, plain, ok, err}
use openlocal_api.Text.Runes.{
  Text, text, byte_length, is_space, is_lower, is_upper, is_digit, lower_rune, upper_rune, text_eq,
  has_prefix, contains_text,
}
use openlocal_api.Scheduling.Calendar.{
  add_days, local_minute, minute, weekday, day_of_civil, format_date, is_leap, parse_date,
}
use openlocal_api.Operations.Rows.{Business, View, VariantRow}
use openlocal_api.Operations.Tables.{
  Requests, ensure_subscription, lock_subscription, get_appointment, add_history,
}
use openlocal_api.Operations.Intake.{
  VariantRule, require_paid, no_hours, settings_of, intake_open, require_intake,
}
use openlocal_api.Operations.Customer.{
  CustomerInput, customer, is_dropped, strip, with_plus, normal_phone, all_digits, matches_phone,
  cleaned, is_refused,
}
use openlocal_api.Operations.Booking.{
  Env, Amount, is_booked, overlaps_row, appointment_overlaps, no_ids, is_skipped, hours_of,
  keep_free, slots_of_resource, resource_slots, appointment_slots, find_start, check_appointment,
}
use openlocal_api.Operations.Changes.{
  public, find_business, view_of, record_of, get_request_replay, replay, save_request_replay,
  save_replay, positive_quantity, money,
}
use openlocal_api.Operations.Arrivals.{
  visit, Booking, business_for, pending_requests, find_public, is_pending, pending_appointments,
  pending_limit, intake_for, create_scope,
}
use openlocal_api.Operations.Basket.{
  ItemInput, Line, catalog, price_items, order_total, sum_lines, price_all, catalog_item, find_item,
  rule_for, price_item, check_range, rule_amount,
}
use openlocal_api.Operations.Create.{
  create, upsert_module_customer, create_appointment, create_visit, create_order, create_access,
  follow_creation, admit_request, pass_challenge, make_request, creation_saved, make_body,
}
use openlocal_api.Operations.Refusals.{create_hides}
use openlocal_api.Operations.Openings.{create_bounded}
use openlocal_api.Operations.Prices.{Fair, Distinct, price_items-Fair}
use openlocal_api.Operations.Checks.{get_service}
use openlocal_api.Operations.Mutate.{reads, writes, delay_until, enqueue_expiration}
use openlocal_api.Operations.States.{valid_module, shown_status, pending_expiration}
use openlocal_api.Entitlements.Access.{
  paid, limits, module_usage, has_event, consume_module_usage, owns, intake, get_access, get_module,
  get, consume,
}
use openlocal_api.Validator.{
  clean, clean_optional, parse_uuid, string_length, parse_decimal, decimal_range, enum,
  idempotency_key,
}
use openlocal_api.Text.Fields.{trim_left, trim_right, trim_space, fields_from, fields, join}
use openlocal_api.Scheduling.Clock.{
  clock, mem_day, is_interval, bad_hour, check_hours, check_dates, validate,
}
use openlocal_api.Scheduling.Slots.{
  place, wall, probe_ok, probes_ok, fits, fits_clocks, hour_offers, any_hour, offered, slot_at,
  scan, day_slots, out_of_range, slots_of, slots,
}
use openlocal_api.Examples.Agenda.{zone, open_hour}
use openlocal_api.Examples.Requests.{tables, subscription}

-- Every text of settings opens the weekday 6, in slots of a minute.
abbrev pub env : Env
env = record {
  now = 5;
  zone_of = λ name. some zone;
  unmarshal = λ base written.
      some (record base { hours = open_hour 6 ∷ []; slot_minutes = 1; lead_minutes = 0 });
  amount_of = λ written. none;
  show_uuid = λ id. "id";
  add_thirty_days = λ t. t + 30 * (1440 * minute);
}

abbrev salon : Business
salon = record { id = 1; slug = text "salon"; status = "active"; timezone = text "UTC" }

abbrev opened : Requests
opened = record tables {
  appointments = [];
  businesses = salon ∷ [];
  modules =
      record { business_id = 1; module_name = "appointments"; enabled = true; settings = text "{}" }
      ∷ [];
  services =
      record {
        id = 5;
        business_id = 1;
        name = "Corte";
        duration_minutes = 1;
        buffer_minutes = 0;
        is_public = true;
        active = true;
      }
      ∷ [];
  resources =
      record {
        id = 6;
        business_id = 1;
        name = text "Silla";
        active = true;
        service_ids = [];
        hours = [];
        closed_dates = [];
      }
      ∷ [];
}

abbrev ana : CustomerInput
ana = record {
  customer_name = text "Ana";
  customer_phone = text "+525512345678";
  notes = [];
  challenge_token = [];
  locale = [];
}

abbrev call : Booking
call = record {
  business = 0;
  slug = text "salon";
  audience = public;
  actor = "customer";
  customer = ana;
  order = visit 5 6 (12 * minute);
  key = text "key-0001";
  digest = 3;
  challenge = ok tt;
  id = 40;
  customer_id = 7;
  item_id = λ n. n;
  token_hash = 11;
}

abbrev after : Requests
after = (create env call opened).1

abbrev answer : View
answer = record {
  id = 40;
  module_name = "appointments";
  status = "requested";
  version = 1;
  customer_id = 7;
  notes = [];
  starts_at = 12 * minute;
  ends_at = 13 * minute;
  expires_at = 12 * minute;
  timezone = text "UTC";
}

accepted : create env call opened ≡ (ok answer, after)
unfolding add_days local_minute upsert_module_customer create_appointment create_visit create_order
    create_access follow_creation admit_request pass_challenge make_request creation_saved make_body
    create find_public business_for is_pending pending_appointments pending_requests pending_limit
    intake_for create_scope is_dropped strip with_plus normal_phone all_digits matches_phone cleaned
    is_refused customer is_booked overlaps_row appointment_overlaps no_ids is_skipped hours_of
    keep_free slots_of_resource resource_slots appointment_slots find_start check_appointment
    find_business view_of record_of get_request_replay replay save_request_replay save_replay
    get_service reads writes delay_until enqueue_expiration ensure_subscription lock_subscription
    get_appointment add_history valid_module shown_status pending_expiration require_paid no_hours
    settings_of intake_open require_intake paid limits module_usage has_event consume_module_usage
    owns intake get_access get_module get consume clean clean_optional parse_uuid string_length
    parse_decimal decimal_range enum idempotency_key trim_left trim_right trim_space fields_from
    fields join byte_length is_space is_lower is_upper is_digit lower_rune upper_rune text_eq
    has_prefix contains_text weekday day_of_civil format_date is_leap parse_date clock mem_day
    is_interval bad_hour check_hours check_dates validate place wall probe_ok probes_ok fits
    fits_clocks hour_offers any_hour offered slot_at scan day_slots out_of_range slots_of slots
accepted = refl

create_bounded_example :
    (b : Business) × (input : CustomerInput) × (business_for call opened ≡ ok b)
    × (customer ana ≡ ok input)
    × ((after ≡ ensure_subscription 5 b.id opened)
        ⊎ ((pending_requests 5 b.id "appointments" input.customer_phone after ≤ 3)
            × (pending_requests 5 b.id "appointments" [] after ≤ 500)))
create_bounded_example = create_bounded env call opened after answer accepted

-- The module is not set up, so it is off.
abbrev paused : Requests
paused = record opened { modules = [] }

create_hides_example :
    (create env call paused ≡ (
      err (
          fail 403 "module_unavailable" "requests are currently unavailable; contact the business"),
      ensure_subscription 5 1 paused,
    ))
    ⊎ (create env call paused ≡ (err (plain "invalid settings"), ensure_subscription 5 1 paused))
unfolding find_public business_for strip with_plus normal_phone all_digits matches_phone cleaned
    is_refused customer get_request_replay replay ensure_subscription lock_subscription no_hours
    settings_of intake_open require_intake require_paid get_module owns paid clean clean_optional
    string_length idempotency_key trim_left trim_right trim_space fields_from fields join
    byte_length is_space is_lower is_upper is_digit text_eq create_scope is_dropped limits
    module_usage has_prefix
create_hides_example =
    create_hides env call salon ana subscription paused
      (fail 403 "module_unavailable" "requests are currently unavailable") refl refl refl refl refl
      refl refl

-- Every text but one is one.
abbrev amounts : Text → Option Amount
amounts written =
    if text_eq written (text "2.50")
    then some (record { is_negative = false; scale = 2; thousandths = 2500 })
    else some (record { is_negative = false; scale = 0; thousandths = 1000 })

abbrev rules : List VariantRule
rules =
    record { variant_id = 8; min_quantity = text "1"; max_quantity = text "2.50"; step = text "1" }
    ∷ []

abbrev bread : List VariantRow
bread = record { id = 8; business_id = 1; price = 250; currency = "MXN"; available = true } ∷ []

abbrev one_loaf : List ItemInput
one_loaf = record { variant_id = 8; quantity = text "1"; unit_price = text "2.50" } ∷ []

abbrev lines : List Line
lines = record { variant_id = 8; quantity = 1000; unit_price = 250; total = 250 } ∷ []

price_items-Fair_example :
    All (Fair amounts (catalog rules 1 bread)) lines
    × Distinct lines
    × (250 ≡ sum_lines lines)
    × (250 ≤ 9999999999 * 100)
unfolding price_items price_all catalog_item find_item catalog rule_for price_item positive_quantity
    byte_length text_eq check_range rule_amount money order_total sum_lines
price_items-Fair_example = price_items-Fair amounts rules 1 bread one_loaf lines 250 refl refl
