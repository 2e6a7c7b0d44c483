-- ===== src/Scheduling/Calendar.antt =====
-- Go's `time` package, as far as the schedules use it: dates as the number of days since 0000-03-01,
-- their texts, and zones. The zone database is a parameter (time.LoadLocation).
use openlocal_api.Prelude.{
  ℕ, ◌+◌, ◌-◌, ◌*◌, ◌/◌, ◌%◌, Bool, true, false, ◌&&◌, ◌||◌, not, [], ◌∷◌, ◌++◌, Option, none, some,
  ◌==◌, leb, ltb, if◌then◌else◌,
}
use openlocal_api.Text.Runes.{Text, is_digit}

-- Instants are nanoseconds.
abbrev pub minute : ℕ
minute = 60000000000

-- A time.Location: the local date at an instant and what its clock shows, in nanoseconds, and the instant
-- that time.Date makes of a date and a clock; where the clock skips them, it is another one.
pub record Zone : Type 0 where
  pub local_day : ℕ → ℕ
  pub local_time : ℕ → ℕ
  pub date : (day time : ℕ) → ℕ

-- Hour() * 60 + Minute()
unfoldable pub local_minute : Zone → ℕ → ℕ
local_minute z t = z.local_time t / minute

-- AddDate(0, 0, n): the date n days later, at the same clock
unfoldable pub add_days : Zone → ℕ → ℕ → ℕ
add_days z t n = z.date (z.local_day t + n) (z.local_time t)

-- AddDate(0, 0, -1)
unfoldable pub day_before : Zone → ℕ → ℕ
day_before z t = z.date (z.local_day t - 1) (z.local_time t)

-- (Weekday() + 6) % 7: Monday is 0
unfoldable pub weekday : ℕ → ℕ
weekday day = (day + 2) % 7

unfoldable pub day_of_civil : ℕ → ℕ → ℕ → ℕ
day_of_civil year month day =
    let y = if leb month 2 then year - 1 else year in
    let shifted = if ltb 2 month then month - 3 else month + 9 in
    let yoe = y % 400 in
    let doy = (153 * shifted + 2) / 5 + day - 1 in
    y / 400 * 146097 + (yoe * 365 + yoe / 4 - yoe / 100 + doy)

digit : ℕ → ℕ
digit n = n + 48

two_digits : ℕ → Text
unfolding digit
two_digits n = digit (n / 10 % 10) ∷ digit (n % 10) ∷ []

-- Format("2006-01-02"), up to the year 9999
unfoldable pub format_date : ℕ → Text
unfolding two_digits
format_date z =
    let doe = z % 146097 in
    let yoe = (doe - doe / 1460 + doe / 36524 - doe / 146096) / 365 in
    let doy = doe - (365 * yoe + yoe / 4 - yoe / 100) in
    let mp = (5 * doy + 2) / 153 in
    let day = doy - (153 * mp + 2) / 5 + 1 in
    let month = if ltb mp 10 then mp + 3 else mp - 9 in
    let year = yoe + z / 146097 * 400 + (if leb month 2 then 1 else 0) in
    two_digits (year / 100)
    ++ (two_digits (year % 100) ++ (b'-' ∷ (two_digits month ++ (b'-' ∷ two_digits day))))

unfoldable pub is_leap : ℕ → Bool
is_leap y = y % 4 == 0 && (not (y % 100 == 0) || y % 400 == 0)

days_in_month : ℕ → ℕ → ℕ
unfolding is_leap
days_in_month y m =
    if m == 2
    then (if is_leap y then 29 else 28)
    else if m == 4 || m == 6 || m == 9 || m == 11
    then 30
    else 31

number_of : Text → ℕ → Option ℕ
unfolding is_digit
number_of [] acc = some acc
number_of (c ∷ cs) acc = elim (is_digit c) [
  | true ↦ number_of cs (acc * 10 + (c - 48))
  | false ↦ none
]

civil_date : Option ℕ → Option ℕ → Option ℕ → Option ℕ
unfolding days_in_month day_of_civil
civil_date (some y) (some m) (some d) =
    if leb 1 m && (leb m 12 && (leb 1 d && leb d (days_in_month y m)))
    then some (day_of_civil y m d)
    else none
civil_date _ _ _ = none

-- time.Parse("2006-01-02", s)
unfoldable pub parse_date : Text → Option ℕ
unfolding number_of civil_date
parse_date (a ∷ b ∷ c ∷ d ∷ dash ∷ e ∷ f ∷ dash' ∷ g ∷ h ∷ []) =
    if dash == b'-' && dash' == b'-'
    then civil_date (number_of (a ∷ b ∷ c ∷ d ∷ []) 0) (number_of (e ∷ f ∷ []) 0)
        (number_of (g ∷ h ∷ []) 0)
    else none
parse_date _ = none
