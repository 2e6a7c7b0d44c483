-- ===== src/Scheduling/Validity.antt =====
-- What Validate of internal/scheduling/schedule.go lets through.
use openlocal_api.Prelude.{
  ℕ, ◌≤◌, ◌≡◌, ◌≢◌, true, false, List, [], ◌∷◌, length, Option, none, some, arith, All,
  Option-cases, inl, inr,
}
use openlocal_api.Api.{ok}
use openlocal_api.Text.Runes.{Text}
use openlocal_api.Scheduling.Calendar.{parse_date}
use openlocal_api.Scheduling.Clock.{
  Hour, clock, mem_day, is_interval, bad_hour, check_hours, check_dates, validate,
}

-- Two times of day that differ.
abbrev pub IsInterval : Option ℕ → Option ℕ → Type 0
IsInterval (some a) (some b) = a ≢ b
IsInterval _ _ = ⊥

abbrev pub IsOpening : Hour → Type 0
IsOpening h =
    (h.day_of_week ≤ 6) × (h.is_closed ≡ false → IsInterval (clock h.opens_at) (clock h.closes_at))

abbrev pub OtherDay : ℕ → Hour → Type 0
OtherDay d h = d ≢ h.day_of_week

-- No weekday twice.
abbrev pub DistinctDays : List Hour → Type 0
DistinctDays [] = Unit
DistinctDays (h ∷ hs) = All (OtherDay h.day_of_week) hs × DistinctDays hs

abbrev IsDate : Option ℕ → Type 0
IsDate none = ⊥
IsDate (some day) = Unit

pub record IsSchedule (hours : List Hour) (dates : List Text) : Type 0 where
  pub few_hours : length hours ≤ 7
  pub few_dates : length dates ≤ 366
  pub openings : All IsOpening hours
  pub distinct : DistinctDays hours
  pub all_dates : All (λ d. IsDate (parse_date d)) dates

is_interval_sound : (a b : Option ℕ) → is_interval a b ≡ true → IsInterval a b
unfolding is_interval
is_interval_sound none b h = ground arith
is_interval_sound (some a) none h = ground arith
is_interval_sound (some a) (some b) h = ground arith

bad_hour-IsOpening : (seen : List ℕ) (h : Hour) → bad_hour seen h ≡ none → IsOpening h
unfolding bad_hour
bad_hour-IsOpening seen h e = (ground arith, λ open_hour. is_interval_sound _ _ (ground arith))

bad_hour_new :
    (seen : List ℕ) (h : Hour) → bad_hour seen h ≡ none → mem_day h.day_of_week seen ≡ false
unfolding bad_hour
bad_hour_new seen h e = ground arith

mem_day_later : (d x : ℕ) (seen : List ℕ) → mem_day d (x ∷ seen) ≡ false → mem_day d seen ≡ false
unfolding mem_day
mem_day_later d x seen h = ground arith

mem_day_other : (d x : ℕ) (seen : List ℕ) → mem_day d (x ∷ seen) ≡ false → x ≢ d
unfolding mem_day
mem_day_other d x seen h = ground arith

-- What a run of the loop says of the hours that are left.
record Checked (seen : List ℕ) (hs : List Hour) : Type 0 where
  openings : All IsOpening hs
  distinct : DistinctDays hs
  new : All (λ h. mem_day h.day_of_week seen ≡ false) hs

later_others :
    (x : ℕ) (seen : List ℕ) (hs : List Hour)
    → All (λ h. mem_day h.day_of_week (x ∷ seen) ≡ false) hs
    → All (OtherDay x) hs × All (λ h. mem_day h.day_of_week seen ≡ false) hs
later_others x seen [] a = (tt, tt)
later_others x seen (h ∷ hs) a =
    let rest = later_others x seen hs a.1 in
    (
      (mem_day_other h.day_of_week x seen a.0, rest.0),
      (mem_day_later h.day_of_week x seen a.0, rest.1),
    )

check_hours-Checked :
    (seen : List ℕ) (hs : List Hour) → check_hours seen hs ≡ ok tt → Checked seen hs
unfolding check_hours
check_hours-Checked seen [] e = record { openings = tt; distinct = tt; new = tt }
check_hours-Checked seen (h ∷ hs) e = elim (Option-cases (bad_hour seen h)) [
  | inl good ↦
      (let rest = check_hours-Checked (h.day_of_week ∷ seen) hs (rw (good, check_hours) at e) in
        let after = later_others h.day_of_week seen hs rest.new in
        record {
          openings = (bad_hour-IsOpening seen h good, rest.openings);
          distinct = (after.0, rest.distinct);
          new = (bad_hour_new seen h good, after.1);
        })
  | inr (x, bad) ↦ absurd (ground (arith, bad))
]

check_dates-IsDate : (ds : List Text) → check_dates ds ≡ ok tt → All (λ d. IsDate (parse_date d)) ds
unfolding check_dates
check_dates-IsDate [] e = tt
check_dates-IsDate (d ∷ ds) e = ground (arith, check_dates-IsDate ds)

-- A schedule that is let through has at most one opening for each weekday, each open one between two
-- different times of day, closure dates that are dates, and no more than 7 and 366 of them.
pub validate-IsSchedule :
    (hours : List Hour) (dates : List Text) → validate hours dates ≡ ok tt → IsSchedule hours dates
unfolding validate
validate-IsSchedule hours dates e =
    let hours_ok : check_hours [] hours ≡ ok tt = ground arith in
    let dates_ok : check_dates dates ≡ ok tt = ground arith in
    let checked = check_hours-Checked [] hours hours_ok in
    record {
      few_hours = ground arith;
      few_dates = ground arith;
      openings = checked.openings;
      distinct = checked.distinct;
      all_dates = check_dates-IsDate dates dates_ok;
    }
