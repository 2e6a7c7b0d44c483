-- ===== src/Scheduling/Placing.antt =====
-- Which opening a start belongs to, and where the minutes of an appointment have to lie, said without the
-- placement and the wall clock of Slots of internal/scheduling/schedule.go.
use native.Mathlib.Nat.{mul-mod_left, mod-add-div'}
use openlocal_api.Prelude.{
  ℕ, ◌+◌, ◌-◌, ◌*◌, ◌/◌, ◌%◌, ◌≤◌, ◌<◌, ◌≡◌, ◌⊎◌, refl, inl, inr, true, false, ◌&&◌, [], ◌∷◌,
  Option, none, some, ltb, if◌then◌else◌, arith, Bool-cases, sym, ap, ◌∙◌, subst,
}
use openlocal_api.Text.Runes.{Text, text_eq, text_eq→eq}
use openlocal_api.Scheduling.Calendar.{local_minute, day_before, weekday, format_date}
use openlocal_api.Scheduling.Slots.{Placement, offset_from, place, Query, wall, on_grid}

-- The start belongs to the opening of a weekday that begins on the date `on`, or, when the opening ends on
-- the next morning and the start is before its end, on the date `before`; and it is a whole number of
-- steps after the opening.
abbrev pub Belongs : (q : Query) (weekday_of opens closes on before date start : ℕ) → Type 0
Belongs q d opens closes on before date start =
    ((date ≡ on)
      × (closes < opens → closes ≤ local_minute q.zone start)
      × (weekday (q.zone.local_day start) ≡ d)
      × ((j : ℕ) × (opens + j * q.step ≡ local_minute q.zone start)))
    ⊎ ((date ≡ before)
        × (closes < opens)
        × (local_minute q.zone start < closes)
        × (d < 7)
        × (weekday (q.zone.local_day start) ≡ (d + 1) % 7)
        × ((j : ℕ) × (opens + j * q.step ≡ local_minute q.zone start + 1440)))

-- An instant lies in the opening that begins on the date: on the date itself after it opens and, unless it
-- ends on the next morning, before it closes; or on another date, before the end of that morning.
abbrev pub Within : Query → (opens closes date t : ℕ) → Type 0
Within q opens closes date t =
    ((format_date (q.zone.local_day t) ≡ format_date date)
      × (opens ≤ local_minute q.zone t)
      × ((closes < opens) ⊎ (local_minute q.zone t < closes)))
    ⊎ ((¬ (format_date (q.zone.local_day t) ≡ format_date date))
        × (closes < opens)
        × (local_minute q.zone t < closes))

text_eq_refl : (s : Text) → text_eq s s ≡ true
unfolding text_eq
text_eq_refl [] = refl
text_eq_refl (c ∷ cs) = ground (arith, text_eq_refl cs)

different : (s t : Text) → text_eq s t ≡ false → ¬ (s ≡ t)
different s t apart same =
    absurd (ground (arith, apart, subst (λ u. text_eq s u ≡ true) same (text_eq_refl s)))

unequal : (s t : Text) → ¬ (s ≡ t) → text_eq s t ≡ false
unequal s t apart = elim (Bool-cases (text_eq s t)) [
  | inl same ↦ absurd (apart (text_eq→eq s t same))
  | inr other ↦ other
]

-- `endMinute`
abbrev pub end_of : ℕ → ℕ → ℕ
end_of a b = if ltb b a then b + 1440 else b

module _ (q : Query) (a b opening t : ℕ) where
  pub wall-Within :
      b < 1440
      → a ≤ wall q opening t
      → wall q opening t < end_of a b
      → Within q a b (q.zone.local_day opening) t
  unfolding wall
  wall-Within short from until =
      let here = format_date (q.zone.local_day t) in
      let there = format_date (q.zone.local_day opening) in
      elim (Bool-cases (text_eq here there)) [
        | inl same ↦ elim (Bool-cases (ltb b a)) [
          | inl overnight ↦
              inl
                (text_eq→eq here there same, ground (arith, same), inl (ground (arith, overnight)))
          | inr within_day ↦ inl (
            text_eq→eq here there same,
            ground (arith, same),
            inr (ground (arith, same, within_day)),
          )
        ]
        | inr other ↦
            inr (
              different here there other,
              ground (arith, other, short),
              ground (arith, other, short),
            )
      ]

  pub Within-wall :
      b < 1440
      → a < 1440
      → local_minute q.zone t < 1440
      → Within q a b (q.zone.local_day opening) t
      → (a ≤ wall q opening t) × (wall q opening t < end_of a b)
  unfolding wall
  Within-wall short early clock (inl (same, from, inl overnight)) =
      rw (same, text_eq_refl (format_date (q.zone.local_day opening))) (ground arith, ground arith)
  Within-wall short early clock (inl (same, from, inr until)) =
      rw (same, text_eq_refl (format_date (q.zone.local_day opening))) (ground arith, ground arith)
  Within-wall short early clock (inr (other, overnight, until)) =
      rw (unequal (format_date (q.zone.local_day t)) (format_date (q.zone.local_day opening)) other)
        (ground arith, ground arith)

grid-steps :
    (offset : Option ℕ) (step : ℕ)
    → on_grid offset step ≡ true
    → (j : ℕ) × (offset ≡ some (j * step))
grid-steps none step h = absurd (ground (arith, h))
grid-steps (some o) step h =
    let none_left : o % step ≡ 0 = ground (arith, h) in
    let whole : o ≡ o / step * step = omega (arith, mod-add-div' o step, none_left) in
    (o / step, ap some whole)

steps-grid : (j step : ℕ) → on_grid (some (j * step)) step ≡ true
steps-grid j step = rw (mul-mod_left j step) refl

same_offset : (m n : ℕ) → some m ≡ some n → m ≡ n
same_offset m n e = cc

weekday-lt : (day : ℕ) → weekday day < 7
unfolding weekday
weekday-lt day = omega arith

-- The placement in its two cases.
module _ (q : Query) (start a b : ℕ) where
  evening : Placement
  evening = record {
    week_day = (weekday (q.zone.local_day start) + 6) % 7;
    offset = some (local_minute q.zone start + 1440 - a);
    end_minute = end_of a b;
    opening_day = day_before q.zone q.day;
  }

  daytime : Placement
  daytime = record {
    week_day = weekday (q.zone.local_day start);
    offset = offset_from (local_minute q.zone start) a;
    end_minute = end_of a b;
    opening_day = q.day;
  }

  place-evening : b < a → local_minute q.zone start < b → place q.zone q.day start a b ≡ evening
  unfolding place evening
  place-evening overnight early = ground arith

  place-daytime : (b < a → b ≤ local_minute q.zone start) → place q.zone q.day start a b ≡ daytime
  unfolding place daytime
  place-daytime late = ground arith

  evening-Belongs :
      (d : ℕ)
      → a < 1440
      → b < a
      → local_minute q.zone start < b
      → evening.week_day ≡ d
      → on_grid evening.offset q.step ≡ true
      → Belongs q d a b
          (q.zone.local_day q.day)
          (q.zone.local_day (day_before q.zone q.day))
          (q.zone.local_day evening.opening_day)
          start
  unfolding evening
  evening-Belongs d short overnight early same grid =
      let (j, steps) = grid-steps evening.offset q.step grid in
      let offset : local_minute q.zone start + 1440 - a ≡ j * q.step = same_offset _ _ steps in
      let shown = weekday-lt (q.zone.local_day start) in
      inr (
        refl,
        overnight,
        early,
        omega (arith, same),
        omega (arith, same, shown),
        (j, omega (arith, offset)),
      )

  daytime-Belongs :
      (d : ℕ)
      → (b < a → b ≤ local_minute q.zone start)
      → daytime.week_day ≡ d
      → on_grid daytime.offset q.step ≡ true
      → Belongs q d a b
          (q.zone.local_day q.day)
          (q.zone.local_day (day_before q.zone q.day))
          (q.zone.local_day daytime.opening_day)
          start
  unfolding daytime
  daytime-Belongs d late same grid = elim (Bool-cases (ltb (local_minute q.zone start) a)) [
    | inl too_early ↦ absurd (ground (arith, too_early, grid))
    | inr after ↦
        let on_steps : on_grid (some (local_minute q.zone start - a)) q.step ≡ true =
          rw after at grid in
        let (j, steps) = grid-steps _ q.step on_steps in
        let offset : local_minute q.zone start - a ≡ j * q.step = same_offset _ _ steps in
        let begun : a ≤ local_minute q.zone start = ground (arith, after) in
        inl (refl, late, same, (j, omega (arith, offset, begun)))
  ]

  -- The parts of a placement that the hour is compared with.
  abbrev pub IsPlaced : Placement → (d date : ℕ) → Type 0
  IsPlaced p d date =
      (p.week_day ≡ d)
      × (on_grid p.offset q.step ≡ true)
      × (p.end_minute ≡ end_of a b)
      × (q.zone.local_day p.opening_day ≡ date)

  -- Where Slots places a start, it belongs to the opening.
  pub place-Belongs :
      (p : Placement) (d : ℕ)
      → a < 1440
      → place q.zone q.day start a b ≡ p
      → p.week_day ≡ d
      → on_grid p.offset q.step ≡ true
      → (p.end_minute ≡ end_of a b)
        × Belongs q d a b
            (q.zone.local_day q.day)
            (q.zone.local_day (day_before q.zone q.day))
            (q.zone.local_day p.opening_day)
            start
  unfolding evening daytime
  place-Belongs p d short placed =
      elim (Bool-cases (ltb b a && ltb (local_minute q.zone start) b)) [
        | inl early ↦
            let overnight : b < a = ground (arith, early) in
            let before_end : local_minute q.zone start < b = ground (arith, early) in
            subst
              (λ (p : Placement).
                p.week_day ≡ d
                → on_grid p.offset q.step ≡ true
                → (p.end_minute ≡ end_of a b)
                  × Belongs q d a b (q.zone.local_day q.day)
                      (q.zone.local_day (day_before q.zone q.day)) (q.zone.local_day p.opening_day)
                      start)
              (sym (place-evening overnight before_end) ∙ placed)
              (λ same grid. (refl, evening-Belongs d short overnight before_end same grid))
        | inr by_day ↦
            let late : b < a → b ≤ local_minute q.zone start =
              λ overnight. ground (arith, by_day, overnight) in
            subst
              (λ (p : Placement).
                p.week_day ≡ d
                → on_grid p.offset q.step ≡ true
                → (p.end_minute ≡ end_of a b)
                  × Belongs q d a b (q.zone.local_day q.day)
                      (q.zone.local_day (day_before q.zone q.day)) (q.zone.local_day p.opening_day)
                      start)
              (sym (place-daytime late) ∙ placed)
              (λ same grid. (refl, daytime-Belongs d late same grid))
      ]

  -- And where it belongs to an opening, Slots places it there.
  pub Belongs-place :
      (d date : ℕ)
      → Belongs q d a b
          (q.zone.local_day q.day)
          (q.zone.local_day (day_before q.zone q.day))
          date
          start
      → IsPlaced (place q.zone q.day start a b) d date
  unfolding evening daytime
  Belongs-place d date (inl (same, late, day, (j, steps))) =
      let begun : ltb (local_minute q.zone start) a ≡ false = ground (arith, steps) in
      let offset : local_minute q.zone start - a ≡ j * q.step = omega (arith, steps) in
      subst (λ p. IsPlaced p d date) (sym (place-daytime late))
        (day, rw (begun, offset) (steps-grid j q.step), refl, sym same)
  Belongs-place d date (inr (same, overnight, early, week, day, (j, steps))) =
      let offset : local_minute q.zone start + 1440 - a ≡ j * q.step = omega (arith, steps) in
      let shown : (weekday (q.zone.local_day start) + 6) % 7 ≡ d = omega (arith, week, day) in
      subst (λ p. IsPlaced p d date) (sym (place-evening overnight early))
        (shown, rw offset (steps-grid j q.step), refl, sym same)
