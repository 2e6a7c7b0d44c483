-- ===== src/Scheduling/Range.antt =====
-- Slots of internal/scheduling/schedule.go as a whole: which dates have slots at all.
use mathlib.Core.List.{Memᴰ}
use openlocal_api.Prelude.{
  ℕ, ◌+◌, ◌-◌, ◌*◌, ap, ◌∙◌, refl, ltb, ltb→lt, Bool-cases, ◌≤◌, ◌<◌, ◌≡◌, sym, subst, false, List,
  [], ◌∷◌, Option, some, arith, inl, inr,
}
use openlocal_api.Api.{ok}
use openlocal_api.Text.Runes.{Text, contains_text}
use openlocal_api.Scheduling.Calendar.{Zone, minute, add_days, parse_date}
use openlocal_api.Scheduling.Clock.{Hour}
use openlocal_api.Scheduling.Slots.{Slot, Query, out_of_range, slots_of, slots, day_slots}
use openlocal_api.Scheduling.Offering.{OfferedBy, eve}
use openlocal_api.Scheduling.Offers.{day_slots_sound, HasMidnight, asked_date, eve_date, stop_date}

-- The date is open, not before today, and at most the horizon after it.
pub record InRange (zone : Zone) (day : ℕ) (date : Text) (closed : List Text)
    (step duration now horizon : ℕ) : Type 0 where
  pub open_date : contains_text closed date ≡ false
  pub not_past : zone.local_day now ≤ day
  pub within : day ≤ zone.local_day now + horizon
  pub has_step : 1 ≤ step
  pub has_duration : 1 ≤ duration

-- The dates begin in their order.
abbrev pub Ordered : Zone → Type 0
Ordered z = (x y : ℕ) → x < y → z.date x 0 < z.date y 0

not_before : (z : Zone) (x y : ℕ) → Ordered z → ltb (z.date x 0) (z.date y 0) ≡ false → y ≤ x
not_before z x y ordered late = elim (Bool-cases (ltb x y)) [
  | inl less ↦
      let earlier : z.date x 0 < z.date y 0 = ordered x y (ltb→lt x y less) in
      absurd (ground (arith, late, earlier))
  | inr other ↦ ground (arith, other)
]

before_date : (z : Zone) (x y : ℕ) → Ordered z → z.date x 0 < z.date y 0 → x < y
before_date z x y ordered earlier = elim (Bool-cases (ltb x y)) [
  | inl less ↦ ltb→lt x y less
  | inr other ↦ elim (Bool-cases (ltb y x)) [
    | inl more ↦
        let later : z.date y 0 < z.date x 0 = ordered y x (ltb→lt y x more) in
        absurd (omega (arith, later, earlier))
    | inr also ↦
        let same : x ≡ y = ground (arith, other, also) in
        absurd (omega (arith, ap (λ d. z.date d 0) same, earlier))
  ]
]

horizon_end :
    (z : Zone) (today n : ℕ)
    → HasMidnight z today
    → add_days z (z.date today 0) n ≡ z.date (today + n) 0
unfolding add_days
horizon_end z today n midnight =
    ap (λ d. z.date (d + n) (z.local_time (z.date today 0))) midnight.0
    ∙ ap (λ clock. z.date (today + n) clock) midnight.1

-- The query that Slots makes out of its parameters.
abbrev pub query_of : Zone → ℕ → List Hour → List Text → (step duration buffer now lead : ℕ) → Query
query_of zone day hours closed step duration buffer now lead = record {
  zone = zone;
  day = zone.date day 0;
  hours = hours;
  closed = closed;
  step = step;
  duration = duration;
  buffer = buffer;
  now = now;
  lead = lead;
}

module _ (zone : Zone) (day : ℕ) (hours : List Hour) (closed : List Text)
    (step duration buffer now lead : ℕ) where
  slots_of-InRange :
      (date : Text) (horizon : ℕ) (found : List Slot) (s : Slot)
      → Ordered zone
      → HasMidnight zone (zone.local_day now)
      → slots_of (query_of zone day hours closed step duration buffer now lead) date horizon
        ≡ ok found
      → Memᴰ s found
      → InRange zone day date closed step duration now horizon
        × (day_slots (query_of zone day hours closed step duration buffer now lead) ≡ found)
  unfolding slots_of out_of_range
  slots_of-InRange date horizon [] s ordered midnight e m = elim m [ ]
  slots_of-InRange date horizon (x ∷ found) s ordered midnight e m =
      let today = zone.local_day now in
      let late : ltb (zone.date day 0) (zone.date today 0) ≡ false = ground (arith, e) in
      let soon : zone.date day 0 < add_days zone (zone.date today 0) (horizon + 1) =
        ground (arith, e) in
      let soon_dates : zone.date day 0 < zone.date (today + (horizon + 1)) 0 =
        subst (λ stop. zone.date day 0 < stop) (horizon_end zone today (horizon + 1) midnight)
          soon in
      let inside : day < today + (horizon + 1) =
        before_date zone day (today + (horizon + 1)) ordered soon_dates in
      (
        record {
          open_date = ground arith;
          not_past = not_before zone day today ordered late;
          within = omega (arith, inside);
          has_step = ground arith;
          has_duration = ground arith;
        },
        ground arith,
      )

-- A slot that Slots returns. Let the dates of the zone begin in their order, and let today, the date asked
-- and the date before it have a midnight: then the date is not closed, not before today and at most the
-- horizon after it; the slot starts between its midnight and the next date, lasts the service's duration,
-- and is offered by an opening of the date, or by one of the date before that ends on the next morning.
pub slots_sound :
    (zone_of : Text → Option Zone) (date name : Text) (hours : List Hour) (closed : List Text)
    (step duration buffer now lead horizon : ℕ) (found : List Slot) (s : Slot) (zone : Zone)
    (day : ℕ)
    → zone_of name ≡ some zone
    → parse_date date ≡ some day
    → Ordered zone
    → HasMidnight zone (zone.local_day now)
    → HasMidnight zone day
    → HasMidnight zone (day - 1)
    → slots zone_of date name hours closed step duration buffer now lead horizon ≡ ok found
    → Memᴰ s found
    → InRange zone day date closed step duration now horizon
      × (zone.date day 0 ≤ s.starts_at)
      × (s.starts_at < zone.date (day + 1) 0)
      × (s.ends_at ≡ s.starts_at + duration * minute)
      × OfferedBy
          (query_of zone day hours closed step duration buffer now lead)
          day
          (day - 1)
          s.starts_at
unfolding slots
slots_sound zone_of date name hours closed step duration buffer now lead horizon found s zone day
      known reads ordered today this last e m =
    let q = query_of zone day hours closed step duration buffer now lead in
    let run : slots_of q date horizon ≡ ok found = ground (arith, known, reads, e) in
    let (in_range, all_of_day) =
      slots_of-InRange zone day hours closed step duration buffer now lead date horizon found s
        ordered today run m in
    let (after, before, ends, o) =
      day_slots_sound q s (subst (λ ss. Memᴰ s ss) (sym all_of_day) m) in
    (
      in_range,
      after,
      subst (λ stop. s.starts_at < stop) (stop_date q day refl this last) before,
      ends,
      subst (λ eve. OfferedBy q day eve s.starts_at) (eve_date q day refl this last)
          (subst (λ on. OfferedBy q on (eve q) s.starts_at) (asked_date q day refl this last) o),
    )
