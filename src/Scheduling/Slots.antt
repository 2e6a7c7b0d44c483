-- ===== src/Scheduling/Slots.antt =====
-- Slots of internal/scheduling/schedule.go. `zone_of` is time.LoadLocation.
use openlocal_api.Prelude.{
  ℕ, zero, suc, ◌+◌, ◌-◌, ◌*◌, ◌/◌, ◌%◌, Bool, true, false, ◌&&◌, ◌||◌, not, List, [], ◌∷◌, Option,
  none, some, ◌==◌, leb, ltb, if◌then◌else◌,
}
use openlocal_api.Api.{plain, Result, ok, err}
use openlocal_api.Text.Runes.{Text, text_eq, contains_text}
use openlocal_api.Scheduling.Calendar.{
  Zone, minute, local_minute, add_days, day_before, weekday, format_date, parse_date,
}
use openlocal_api.Scheduling.Clock.{Hour, clock}

pub record Slot : Type 0 where
  pub starts_at : ℕ
  pub ends_at : ℕ

-- How an opening places a start: `weekday`, `offset` (`none` is a negative one), `endMinute` and
-- `openingDay`.
pub record Placement : Type 0 where
  pub week_day : ℕ
  pub offset : Option ℕ
  pub end_minute : ℕ
  pub opening_day : ℕ

abbrev pub offset_from : ℕ → ℕ → Option ℕ
offset_from m a = if ltb m a then none else some (m - a)

unfoldable pub place : Zone → ℕ → ℕ → ℕ → ℕ → Placement
place z day start a b =
    if ltb b a
    then (if ltb (local_minute z start) b
        then record {
          week_day = (weekday (z.local_day start) + 6) % 7;
          offset = some (local_minute z start + 1440 - a);
          end_minute = b + 1440;
          opening_day = day_before z day;
        }
        else record {
          week_day = weekday (z.local_day start);
          offset = offset_from (local_minute z start) a;
          end_minute = b + 1440;
          opening_day = day;
        })
    else record {
      week_day = weekday (z.local_day start);
      offset = offset_from (local_minute z start) a;
      end_minute = b;
      opening_day = day;
    }

-- The parameters of Slots that its loops read; `day` is the instant that the date was read as.
pub record Query : Type 0 where
  pub zone : Zone
  pub day : ℕ
  pub hours : List Hour
  pub closed : List Text
  pub step : ℕ
  pub duration : ℕ
  pub buffer : ℕ
  pub now : ℕ
  pub lead : ℕ

-- The local wall clock of a probe, counted on past midnight of the opening's day, which is an instant.
unfoldable pub wall : Query → ℕ → ℕ → ℕ
wall q opening_day probe =
    local_minute q.zone probe
    + (if text_eq (format_date (q.zone.local_day probe))
          (format_date (q.zone.local_day opening_day))
        then 0
        else 1440)

-- The body of the probe loop: the instant lies in the opening, on a day that is not closed.
unfoldable pub probe_ok : Query → ℕ → ℕ → ℕ → ℕ → Bool
probe_ok q a end_minute opening_day probe =
    leb a (wall q opening_day probe)
    && (ltb (wall q opening_day probe) end_minute
        && not (contains_text q.closed (format_date (q.zone.local_day probe))))

-- The probe loop makes `duration + buffer` rounds of a minute.
unfoldable pub probes_ok : Query → ℕ → ℕ → ℕ → ℕ → ℕ → Bool
probes_ok q a end_minute opening_day zero probe = true
probes_ok q a end_minute opening_day (suc rounds) probe =
    probe_ok q a end_minute opening_day probe
    && probes_ok q a end_minute opening_day rounds (probe + minute)

-- `offset >= 0 && offset % step == 0`
abbrev pub on_grid : Option ℕ → ℕ → Bool
on_grid none step = false
on_grid (some offset) step = offset % step == 0

unfoldable pub fits : Query → ℕ → Hour → ℕ → ℕ → Bool
fits q start h a b =
    let p = place q.zone q.day start a b in
    p.week_day == h.day_of_week
    && (on_grid p.offset q.step
        && (not (contains_text q.closed (format_date (q.zone.local_day p.opening_day)))
            && probes_ok q a p.end_minute p.opening_day (q.duration + q.buffer) start))

unfoldable pub fits_clocks : Query → ℕ → Hour → Option ℕ → Option ℕ → Bool
fits_clocks q start h (some a) (some b) = fits q start h a b
fits_clocks q start h _ _ = false

-- The body of the loop over the hours.
unfoldable pub hour_offers : Query → ℕ → Hour → Bool
hour_offers q start h =
    not h.is_closed && fits_clocks q start h (clock h.opens_at) (clock h.closes_at)

unfoldable pub any_hour : Query → ℕ → List Hour → Bool
any_hour q start [] = false
any_hour q start (h ∷ hs) = hour_offers q start h || any_hour q start hs

-- The body of the loop over the instants.
unfoldable pub offered : Query → ℕ → Bool
offered q start = not (ltb start (q.now + q.lead * minute)) && any_hour q start q.hours

unfoldable pub slot_at : Query → ℕ → Slot
slot_at q start = record { starts_at = start; ends_at = start + q.duration * minute }

-- `for start := day; start.Before(stop); start = start.Add(time.Minute)`
unfoldable pub scan : Query → ℕ → ℕ → ℕ → List Slot
scan q zero start stop = []
scan q (suc fuel) start stop =
    let rest = scan q fuel (start + minute) stop in
    if ltb start stop then (if offered q start then slot_at q start ∷ rest else rest) else []

-- The rounds that the loop makes at most.
abbrev pub rounds : ℕ → ℕ → ℕ
rounds start stop = (stop - start) / minute + 2

unfoldable pub day_slots : Query → List Slot
day_slots q = scan q (rounds q.day (add_days q.zone q.day 1)) q.day (add_days q.zone q.day 1)

-- A day before today or past the horizon, or a closed date.
unfoldable pub out_of_range : Query → Text → ℕ → Bool
out_of_range q date horizon =
    let today = q.zone.date (q.zone.local_day q.now) 0 in
    ltb q.day today
    || (not (ltb q.day (add_days q.zone today (horizon + 1))) || contains_text q.closed date)

unfoldable pub slots_of : Query → Text → ℕ → Result (List Slot)
slots_of q date horizon =
    if out_of_range q date horizon
    then ok []
    else if ltb q.step 1 || ltb q.duration 1
    then err (plain "invalid slot duration")
    else ok (day_slots q)

-- Slots
unfoldable pub slots :
    (Text → Option Zone)
    → (date zone : Text) → List Hour
    → List Text
    → (step duration buffer now lead horizon : ℕ) → Result (List Slot)
slots zone_of date zone hours closed step duration buffer now lead horizon = elim (zone_of zone) [
  | none ↦ err (plain "unknown time zone")
  | some z ↦ elim (parse_date date) [
    | none ↦ err (plain "cannot parse date")
    | some day ↦
        slots_of
          (record {
            zone = z;
            day = z.date day 0;
            hours = hours;
            closed = closed;
            step = step;
            duration = duration;
            buffer = buffer;
            now = now;
            lead = lead;
          })
          date horizon
  ]
]
