-- ===== src/Scheduling/Clock.antt =====
-- Clock and Validate of internal/scheduling/schedule.go.
use openlocal_api.Prelude.{
  ℕ, ◌+◌, ◌-◌, ◌*◌, ◌<◌, ◌≡◌, Bool, true, false, ◌&&◌, ◌||◌, List, [], ◌∷◌, length, Option, none,
  some, ◌==◌, ltb, if◌then◌else◌, arith,
}
use openlocal_api.Api.{Error, plain, Result, ok, err, ◌>>◌}
use openlocal_api.Text.Runes.{Text, is_digit}
use openlocal_api.Scheduling.Calendar.{parse_date}

-- DayOfWeek is an int of the request: a negative one is out of range as one above 6 is.
pub record Hour : Type 0 where
  pub day_of_week : ℕ
  pub opens_at : Text
  pub closes_at : Text
  pub is_closed : Bool

minutes_of : ℕ → ℕ → Option ℕ
minutes_of h m = if ltb h 24 && ltb m 60 then some (h * 60 + m) else none

-- Clock: time.Parse("15:04", s) reads one or two digits of the hour and two of the minute.
unfoldable pub clock : Text → Option ℕ
unfolding minutes_of is_digit
clock (a ∷ b ∷ c ∷ d ∷ []) =
    if is_digit a && (b == b':' && (is_digit c && is_digit d))
    then minutes_of (a - 48) ((c - 48) * 10 + (d - 48))
    else none
clock (a ∷ b ∷ c ∷ d ∷ e ∷ []) =
    if is_digit a && (is_digit b && (c == b':' && (is_digit d && is_digit e)))
    then minutes_of ((a - 48) * 10 + (b - 48)) ((d - 48) * 10 + (e - 48))
    else none
clock _ = none

-- A time of day is less than a day.
pub clock-lt : (s : Text) {m : ℕ} → clock s ≡ some m → m < 1440
unfolding clock
clock-lt (a ∷ b ∷ c ∷ d ∷ []) h = ground arith
clock-lt (a ∷ b ∷ c ∷ d ∷ e ∷ []) h = ground arith
clock-lt s h = ground arith

unfoldable pub mem_day : ℕ → List ℕ → Bool
mem_day d [] = false
mem_day d (x ∷ xs) = x == d || mem_day d xs

unfoldable pub is_interval : Option ℕ → Option ℕ → Bool
is_interval (some a) (some b) = if a == b then false else true
is_interval _ _ = false

unfoldable pub bad_hour : List ℕ → Hour → Option Error
unfolding mem_day is_interval
bad_hour seen h =
    if ltb 6 h.day_of_week || mem_day h.day_of_week seen
    then some (plain "invalid or duplicate weekday")
    else if h.is_closed || is_interval (clock h.opens_at) (clock h.closes_at)
    then none
    else some (plain "invalid opening interval")

-- The loop over the hours, with the weekdays seen.
unfoldable pub check_hours : List ℕ → List Hour → Result (Unit {0})
unfolding bad_hour
check_hours seen [] = ok tt
check_hours seen (h ∷ hs) = elim (bad_hour seen h) [
  | none ↦ check_hours (h.day_of_week ∷ seen) hs
  | some e ↦ err e
]

unfoldable pub check_dates : List Text → Result (Unit {0})
check_dates [] = ok tt
check_dates (d ∷ ds) = elim (parse_date d) [
  | none ↦ err (plain "invalid closure date")
  | some day ↦ check_dates ds
]

-- Validate
unfoldable pub validate : List Hour → List Text → Result (Unit {0})
unfolding check_hours check_dates
validate hours dates =
    if ltb 7 (length hours) || ltb 366 (length dates)
    then err (plain "schedule is too large")
    else do check_hours [] hours; check_dates dates
