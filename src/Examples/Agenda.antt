-- ===== src/Examples/Agenda.antt =====
-- A salon's Thursday, and schedules and names that are checked.
use mathlib.Core.List.{Memᴰ, cons-ne-nil}
use openlocal_api.Prelude.{
  ℕ, sym, ◌∙◌, ◌+◌, ◌*◌, ◌/◌, ◌%◌, ◌≤◌, ◌<◌, ◌≡◌, refl, false, Option, some, List, [], ◌∷◌, arith,
}
use openlocal_api.Api.{ok}
use openlocal_api.Text.Runes.{
  Text, text, byte_length, contains_text, is_space, is_lower, lower_rune, is_digit, text_eq,
}
use openlocal_api.Scheduling.Calendar.{
  Zone, minute, local_minute, add_days, day_before, weekday, format_date, parse_date, day_of_civil,
  is_leap,
}
use openlocal_api.Scheduling.Clock.{Hour, validate, clock}
use openlocal_api.Scheduling.Slots.{
  Slot, Query, slot_at, slots, slots_of, out_of_range, offered, scan, day_slots, any_hour,
  hour_offers, fits_clocks, fits, place, probes_ok, probe_ok, wall,
}
use openlocal_api.Scheduling.Offering.{OfferedBy, offered-OfferedBy}
use openlocal_api.Scheduling.Offers.{day_slots_sound, day_slots_complete}
use openlocal_api.Scheduling.Range.{Ordered, InRange, query_of, slots_sound}
use openlocal_api.Scheduling.Validity.{IsSchedule, validate-IsSchedule}
use openlocal_api.Text.Fields.{fields, trim_right, trim_left, trim_space}
use openlocal_api.Validator.{clean}
use openlocal_api.Validator.Clean.{clean_idempotent}
use openlocal_api.Validator.Keys.{slug, validate_slug, slug-validate_slug}

-- A day of three minutes from each midnight, in a zone that is UTC.
abbrev pub zone : Zone
zone = record {
  local_day = λ t. t / (3 * minute);
  local_time = λ t. t % (3 * minute);
  date = λ day time. day * (3 * minute) + time;
}

abbrev pub open_hour : ℕ → Hour
open_hour day = record {
  day_of_week = day;
  opens_at = text "00:00";
  closes_at = text "00:02";
  is_closed = false;
}

-- One minute of service on the day 4, whose weekday is 6, and which begins at the minute 12.
abbrev query : Query
query = record {
  zone = zone;
  day = 12 * minute;
  hours = open_hour 6 ∷ [];
  closed = [];
  step = 1;
  duration = 1;
  buffer = 0;
  now = 0;
  lead = 0;
}

found : List Slot
found = day_slots query

day_slots_sound_example :
    (12 * minute ≤ 12 * minute)
    × (12 * minute < zone.date 5 0)
    × (13 * minute ≡ 12 * minute + 1 * minute)
    × OfferedBy query 4 3 (12 * minute)
unfolding day_slots scan offered any_hour hour_offers fits_clocks clock fits place weekday
    contains_text probes_ok probe_ok wall format_date slot_at add_days day_before local_minute
day_slots_sound_example = day_slots_sound query (slot_at query (12 * minute)) (Memᴰ.head refl)

short_clock : (t : ℕ) → local_minute zone t < 1440
unfolding local_minute
short_clock t = omega arith

ordered : Ordered zone
ordered x y less = omega (arith, less)

day_slots_complete_example : Memᴰ (slot_at query (12 * minute + 1 * minute)) (day_slots query)
unfolding offered any_hour hour_offers fits_clocks clock fits place weekday contains_text probes_ok
    probe_ok wall format_date day_before local_minute
day_slots_complete_example =
    day_slots_complete query 4 1 short_clock refl (refl, refl) (refl, refl) (omega arith)
      (offered-OfferedBy query (13 * minute) refl)

validate-IsSchedule_example : IsSchedule (open_hour 6 ∷ open_hour 2 ∷ []) (text "2026-02-28" ∷ [])
unfolding validate clock parse_date
validate-IsSchedule_example =
    validate-IsSchedule (open_hour 6 ∷ open_hour 2 ∷ []) (text "2026-02-28" ∷ []) refl

abbrev salon : Text
salon = text "  La Flor 24 "

clean_idempotent_example :
    (fields (clean salon) ≡ fields salon) × (clean (clean salon) ≡ clean salon)
clean_idempotent_example = clean_idempotent salon

salon-slug : slug salon ≡ text "la-flor-24"
unfolding slug trim_right trim_left trim_space is_space is_lower lower_rune is_digit
salon-slug = refl

slug-validate_slug_example : validate_slug (slug salon) ≡ ok tt
unfolding byte_length
slug-validate_slug_example =
    slug-validate_slug salon (λ e. cons-ne-nil _ _ (sym salon-slug ∙ e))
      (rw salon-slug (omega arith))

abbrev zone_named : Text → Option Zone
zone_named name = some zone

abbrev agenda : Query
agenda = query_of zone 4 (open_hour 6 ∷ []) [] 1 1 0 0 0

slots_sound_example :
    InRange zone 4 (text "0000-03-05") [] 1 1 0 9
    × (zone.date 4 0 ≤ 12 * minute)
    × (12 * minute < zone.date 5 0)
    × (13 * minute ≡ 12 * minute + 1 * minute)
    × OfferedBy agenda 4 3 (12 * minute)
unfolding slots parse_date slots_of out_of_range contains_text day_slots scan offered any_hour
    hour_offers fits_clocks clock fits place weekday probes_ok probe_ok wall day_of_civil
    format_date is_leap slot_at is_digit text_eq add_days day_before local_minute
slots_sound_example =
    slots_sound zone_named (text "0000-03-05") (text "UTC") (open_hour 6 ∷ []) [] 1 1 0 0 0 9
      (slot_at agenda (12 * minute) ∷ slot_at agenda (13 * minute) ∷ [])
      (slot_at agenda (12 * minute)) zone 4 refl refl ordered (refl, refl) (refl, refl) (refl, refl)
      refl (Memᴰ.head refl)
