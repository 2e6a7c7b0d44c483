-- ===== src/Scheduling/Offering.antt =====
-- When Slots of internal/scheduling/schedule.go offers an instant: by an opening, and by any that does.
use mathlib.Core.List.{Memᴰ}
use native.Mathlib.Nat.{add-zero}
use openlocal_api.Prelude.{
  ℕ, zero, suc, ◌+◌, ◌-◌, ◌*◌, ◌≤◌, ◌<◌, ◌≡◌, refl, inl, inr, Bool, true, false, ◌&&◌, not, List,
  [], ◌∷◌, Option, none, some, ◌==◌, arith, Bool-cases, sym, ◌↔◌, subst, ==_iff,
}
use openlocal_api.Text.Runes.{contains_text}
use openlocal_api.Scheduling.Calendar.{minute, local_minute, day_before, format_date}
use openlocal_api.Scheduling.Clock.{Hour, clock, clock-lt}
use openlocal_api.Scheduling.Placing.{
  Belongs, Within, wall-Within, Within-wall, end_of, place-Belongs, Belongs-place,
}
use openlocal_api.Scheduling.Slots.{
  place, Query, wall, probe_ok, probes_ok, on_grid, fits, fits_clocks, hour_offers, any_hour,
  offered,
}

and_left : (a b : Bool) → (a && b) ≡ true → a ≡ true
and_left a b h = ground arith

and_right : (a b : Bool) → (a && b) ≡ true → b ≡ true
and_right a b h = ground arith

and_both : (a b : Bool) → a ≡ true → b ≡ true → (a && b) ≡ true
and_both a b h k = ground arith

not-true : (a : Bool) → not a ≡ true → a ≡ false
not-true a h = ground arith

-- An opening that offers the instant, on the date asked or overnight from the date before. The opening and
-- each of the appointment's minutes, the buffer included, lie on dates that are not closed.
pub record OfferedBy (q : Query) (on before start : ℕ) : Type 0 where
  pub hour : Hour
  pub listed : Memᴰ hour q.hours
  pub not_closed : hour.is_closed ≡ false
  pub opens : ℕ
  pub closes : ℕ
  pub opens_at : clock hour.opens_at ≡ some opens
  pub closes_at : clock hour.closes_at ≡ some closes
  pub after_lead : q.now + q.lead * minute ≤ start
  pub date : ℕ
  pub belongs : Belongs q hour.day_of_week opens closes on before date start
  pub open_day : contains_text q.closed (format_date date) ≡ false
  pub occupies :
      (k : ℕ)
      → k < q.duration + q.buffer
      → Within q opens closes date (start + k * minute)
        × (contains_text q.closed (format_date (q.zone.local_day (start + k * minute))) ≡ false)

probes_ok_at :
    (q : Query) (a e day n start : ℕ)
    → probes_ok q a e day n start ≡ true
    → (k : ℕ) → k < n
    → probe_ok q a e day (start + k * minute) ≡ true
unfolding probes_ok
probes_ok_at q a e day zero start h k lt = absurd (omega arith)
probes_ok_at q a e day (suc n) start h zero lt = rw add-zero (and_left _ _ h)
probes_ok_at q a e day (suc n) start h (suc k) lt =
    subst (λ t. probe_ok q a e day t ≡ true) (omega arith)
      (probes_ok_at q a e day n (start + minute) (and_right _ _ h) k (omega arith))

probes_ok_of :
    (q : Query) (a e day n start : ℕ)
    → ((k : ℕ) → k < n → probe_ok q a e day (start + k * minute) ≡ true)
    → probes_ok q a e day n start ≡ true
unfolding probes_ok
probes_ok_of q a e day zero start h = refl
probes_ok_of q a e day (suc n) start h =
    and_both _ _ (subst (λ t. probe_ok q a e day t ≡ true) (omega arith) (h 0 (omega arith))) (
      probes_ok_of q a e day n (start + minute)
        λ k lt. subst (λ t. probe_ok q a e day t ≡ true) (omega arith) (h (suc k) (omega arith)))

probe_ok_lem :
    (q : Query) (a e day t : ℕ)
    → (probe_ok q a e day t ≡ true) ↔ (
        (a ≤ wall q day t)
        × (wall q day t < e)
        × (contains_text q.closed (format_date (q.zone.local_day t)) ≡ false))
unfolding probe_ok
probe_ok_lem q a e day t = (λ h. ground arith, λ h. ground arith)

-- The date asked, as Slots reads it off the instant, and the date that is read off the instant which
-- time.Date makes of the date before at the same clock.
abbrev pub asked : Query → ℕ
asked q = q.zone.local_day q.day

abbrev pub eve : Query → ℕ
eve q = q.zone.local_day (q.zone.date (q.zone.local_day q.day - 1) (q.zone.local_time q.day))

module _ (q : Query) (start : ℕ) where
  fits-OfferedBy :
      (h : Hour) (a b : ℕ)
      → Memᴰ h q.hours
      → h.is_closed ≡ false
      → q.now + q.lead * minute ≤ start
      → clock h.opens_at ≡ some a
      → clock h.closes_at ≡ some b
      → fits q start h a b ≡ true
      → OfferedBy q (asked q) (eve q) start
  unfolding fits day_before
  fits-OfferedBy h a b m open_hour late ex ey f =
      let p = place q.zone q.day start a b in
      let rest = and_right (p.week_day == h.day_of_week) _ f in
      let rest' = and_right (on_grid p.offset q.step) _ rest in
      let closed = contains_text q.closed (format_date (q.zone.local_day p.opening_day)) in
      let probes = and_right (not closed) _ rest' in
      let (ends, belongs) =
        place-Belongs q start a b p h.day_of_week (clock-lt h.opens_at ex) refl
          ((==_iff p.week_day h.day_of_week).0 (and_left _ _ f))
          (and_left (on_grid p.offset q.step) _ rest) in
      record {
        hour = h;
        listed = m;
        not_closed = open_hour;
        opens = a;
        closes = b;
        opens_at = ex;
        closes_at = ey;
        after_lead = late;
        date = q.zone.local_day p.opening_day;
        belongs = belongs;
        open_day = not-true _ (and_left (not closed) _ rest');
        occupies = λ k lt.
            let (from, until, open_probe) =
              (probe_ok_lem q a p.end_minute p.opening_day (start + k * minute)).0 (
                probes_ok_at q a p.end_minute p.opening_day (q.duration + q.buffer) start probes k
                  lt) in
            (
              wall-Within q a b p.opening_day (start + k * minute) (clock-lt h.closes_at ey) from
                  (subst (λ e. wall q p.opening_day (start + k * minute) < e) ends until),
              open_probe,
            );
      }

  -- What one hour offers.
  hour_offers-OfferedBy :
      (h : Hour)
      → Memᴰ h q.hours
      → q.now + q.lead * minute ≤ start
      → hour_offers q start h ≡ true
      → OfferedBy q (asked q) (eve q) start
  unfolding hour_offers fits_clocks
  hour_offers-OfferedBy h m late e =
      with_clocks (clock h.opens_at) (clock h.closes_at) refl refl (and_right (not h.is_closed) _ e)
    where
      with_clocks :
          (x y : Option ℕ)
          → clock h.opens_at ≡ x
          → clock h.closes_at ≡ y
          → fits_clocks q start h x y ≡ true
          → OfferedBy q (asked q) (eve q) start
      with_clocks none y ex ey f = absurd (ground arith)
      with_clocks (some a) none ex ey f = absurd (ground arith)
      with_clocks (some a) (some b) ex ey f =
          fits-OfferedBy h a b m (not-true h.is_closed (and_left (not h.is_closed) _ e)) late ex ey
            f

  any_hour-OfferedBy :
      (hs : List Hour)
      → ((h : Hour) → Memᴰ h hs → Memᴰ h q.hours)
      → q.now + q.lead * minute ≤ start
      → any_hour q start hs ≡ true
      → OfferedBy q (asked q) (eve q) start
  unfolding any_hour
  any_hour-OfferedBy [] inside late e = absurd (ground arith)
  any_hour-OfferedBy (h ∷ hs) inside late e = elim (Bool-cases (hour_offers q start h)) [
    | inl yes_h ↦ hour_offers-OfferedBy h (inside h (Memᴰ.head refl)) late yes_h
    | inr no_h ↦ any_hour-OfferedBy hs (λ g m. inside g (Memᴰ.tail m)) late (ground (arith, no_h))
  ]

  -- An instant that is offered is offered by an opening.
  pub offered-OfferedBy : offered q start ≡ true → OfferedBy q (asked q) (eve q) start
  unfolding offered
  offered-OfferedBy e = any_hour-OfferedBy q.hours (λ g m. m) (ground arith) (ground arith)

module _ (q : Query) (start : ℕ) (short_clock : (t : ℕ) → local_minute q.zone t < 1440) where
  open_opening :
      (date day : ℕ)
      → day ≡ date
      → contains_text q.closed (format_date date) ≡ false
      → not (contains_text q.closed (format_date day)) ≡ true
  open_opening date day same open_date = rw same (ground (arith, open_date))

  probe_of :
      (o : OfferedBy q (asked q) (eve q) start) (e opening : ℕ)
      → e ≡ end_of o.opens o.closes
      → q.zone.local_day opening ≡ o.date
      → (k : ℕ) → k < q.duration + q.buffer
      → probe_ok q o.opens e opening (start + k * minute) ≡ true
  probe_of o e opening ends same k lt =
      let (within, open_probe) = o.occupies k lt in
      let (from, until) =
        Within-wall q o.opens o.closes opening (start + k * minute)
          (clock-lt o.hour.closes_at o.closes_at) (clock-lt o.hour.opens_at o.opens_at)
          (short_clock (start + k * minute))
          (subst (λ d. Within q o.opens o.closes d (start + k * minute)) (sym same) within) in
      (probe_ok_lem q o.opens e opening (start + k * minute)).1
        (from, subst (λ x. wall q opening (start + k * minute) < x) (sym ends) until, open_probe)

  hour_offers_of : (o : OfferedBy q (asked q) (eve q) start) → hour_offers q start o.hour ≡ true
  unfolding hour_offers fits_clocks fits day_before
  hour_offers_of o =
      let p = place q.zone q.day start o.opens o.closes in
      let (week, grid, ends, opening) =
        Belongs-place q start o.opens o.closes o.hour.day_of_week o.date o.belongs in
      rw (o.opens_at, o.closes_at, fits_clocks)
        (and_both (not o.hour.is_closed) _ (ground (arith, o.not_closed)) (
          and_both _ _ ((==_iff p.week_day o.hour.day_of_week).1 week) (
            and_both _ _ grid (
              and_both _ _ (open_opening o.date (q.zone.local_day p.opening_day) opening o.open_day)
                (probes_ok_of q o.opens p.end_minute p.opening_day (q.duration + q.buffer) start
                  λ k lt. probe_of o p.end_minute p.opening_day ends opening k lt)))))

  any_hour_of :
      (h : Hour) (hs : List Hour)
      → Memᴰ h hs
      → hour_offers q start h ≡ true
      → any_hour q start hs ≡ true
  unfolding any_hour
  any_hour_of h [] m o = elim m [ ]
  any_hour_of h (x ∷ hs) (Memᴰ.head e) o =
      ground (arith, subst (λ y. hour_offers q start y ≡ true) e o)
  any_hour_of h (x ∷ hs) (Memᴰ.tail m) o = ground (arith, any_hour_of h hs m o)

  -- And an opening that offers the instant is found.
  pub OfferedBy-offered : OfferedBy q (asked q) (eve q) start → offered q start ≡ true
  unfolding offered
  OfferedBy-offered o =
      ground (arith, o.after_lead, any_hour_of o.hour q.hours o.listed (hour_offers_of o))
