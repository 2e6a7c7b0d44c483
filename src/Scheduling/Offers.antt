-- ===== src/Scheduling/Offers.antt =====
-- What the slots of a date are: which instants are offered, in which order, and that no round is missed.
use mathlib.Core.List.{Memᴰ}
use openlocal_api.Prelude.{
  ℕ, zero, suc, ◌+◌, ◌-◌, ◌*◌, ◌∙◌, ◌≤◌, ◌<◌, ◌≡◌, refl, Bool, true, false, List, [], ◌∷◌, ltb,
  if◌then◌else◌, arith, ltb→lt, lt→ltb, sym, ap, subst,
}
use openlocal_api.Scheduling.Calendar.{Zone, minute, local_minute, add_days}
use openlocal_api.Scheduling.Slots.{Slot, Query, offered, slot_at, scan, rounds, day_slots}
use openlocal_api.Scheduling.Offering.{OfferedBy, asked, eve, offered-OfferedBy, OfferedBy-offered}

-- The loop over the instants of the day.
module _ (q : Query) where
  -- A slot that the loop adds, from `start` on.
  abbrev pub Added : ℕ → ℕ → Slot → Type 0
  Added start stop s =
      (s.starts_at < stop)
      × (start ≤ s.starts_at)
      × (s.ends_at ≡ s.starts_at + q.duration * minute)
      × (offered q s.starts_at ≡ true)

  Added-earlier : (start stop : ℕ) (s : Slot) → Added (start + minute) stop s → Added start stop s
  Added-earlier start stop s (a, b, c, d) = (a, omega arith, c, d)

  round_sound :
      (start stop : ℕ) (a b : Bool) (rest : List Slot) (s : Slot)
      → ltb start stop ≡ a
      → offered q start ≡ b
      → (Memᴰ s rest → Added (start + minute) stop s)
      → Memᴰ s (if a then (if b then slot_at q start ∷ rest else rest) else [])
      → Added start stop s
  unfolding slot_at
  round_sound start stop false b rest s ea eb ih m = elim m [ ]
  round_sound start stop true false rest s ea eb ih m = Added-earlier start stop s (ih m)
  round_sound start stop true true rest s ea eb ih (Memᴰ.head e) =
      subst (λ x. Added start stop x) (sym e) (ltb→lt start stop ea, omega arith, refl, eb)
  round_sound start stop true true rest s ea eb ih (Memᴰ.tail m) = Added-earlier start stop s (ih m)

  scan_sound :
      (fuel start stop : ℕ) (s : Slot) → Memᴰ s (scan q fuel start stop) → Added start stop s
  unfolding scan
  scan_sound zero start stop s m = elim m [ ]
  scan_sound (suc fuel) start stop s m =
      round_sound start stop (ltb start stop) (offered q start) (scan q fuel (start + minute) stop)
        s refl refl (scan_sound fuel (start + minute) stop s) m

  keeps :
      (a b : Bool) (x s : Slot) (rest : List Slot)
      → a ≡ true
      → Memᴰ s rest
      → Memᴰ s (if a then (if b then x ∷ rest else rest) else [])
  keeps false b x s rest e m = absurd (ground arith)
  keeps true false x s rest e m = m
  keeps true true x s rest e m = Memᴰ.tail m

  next_round : (start k : ℕ) → start + minute + k * minute ≡ start + suc k * minute
  next_round start k = omega arith

  scan_complete :
      (fuel start stop k : ℕ)
      → k < fuel
      → start + k * minute < stop
      → offered q (start + k * minute) ≡ true
      → Memᴰ (slot_at q (start + k * minute)) (scan q fuel start stop)
  unfolding scan
  scan_complete zero start stop k lt before o = absurd (omega arith)
  scan_complete (suc fuel) start stop zero lt before o =
      let same : start + 0 * minute ≡ start = omega arith in
      let yes : offered q start ≡ true = subst (λ t. offered q t ≡ true) same o in
      rw (lt→ltb start stop (omega arith), yes) (Memᴰ.head (ap (slot_at q) same))
  scan_complete (suc fuel) start stop (suc k) lt before o =
      keeps (ltb start stop) (offered q start) (slot_at q start) _ _
        (lt→ltb start stop (omega arith))
        (subst (λ t. Memᴰ (slot_at q t) (scan q fuel (start + minute) stop)) (next_round start k)
          (scan_complete fuel (start + minute) stop k (omega arith)
            (subst (λ t. t < stop) (sym (next_round start k)) before)
            (subst (λ t. offered q t ≡ true) (sym (next_round start k)) o)))

  -- Every slot of a day lies between the instant that the date was read as and the one a date later, lasts
  -- the service's duration, and is offered by an opening: it starts after the lead time, a whole number of
  -- steps after the opening, which is one of the date, or one of the date before that ends on the next
  -- morning and has not ended yet; and every minute of the appointment and its buffer lies between opening
  -- and closing on a day that is not closed.
  pub day_slots_sound :
      (s : Slot)
      → Memᴰ s (day_slots q)
      → (q.day ≤ s.starts_at)
        × (s.starts_at < q.zone.date (q.zone.local_day q.day + 1) (q.zone.local_time q.day))
        × (s.ends_at ≡ s.starts_at + q.duration * minute)
        × OfferedBy q (asked q) (eve q) s.starts_at
  unfolding day_slots add_days
  day_slots_sound s m =
      let stop = q.zone.date (q.zone.local_day q.day + 1) (q.zone.local_time q.day) in
      let (before, after, ends, o) = scan_sound (rounds q.day stop) q.day stop s m in
      (after, before, ends, offered-OfferedBy q s.starts_at o)

  found_in_day :
      ((t : ℕ) → local_minute q.zone t < 1440)
      → (k : ℕ)
      → q.day + k * minute < q.zone.date (q.zone.local_day q.day + 1) (q.zone.local_time q.day)
      → OfferedBy q (asked q) (eve q) (q.day + k * minute)
      → Memᴰ (slot_at q (q.day + k * minute)) (day_slots q)
  unfolding day_slots add_days
  found_in_day short_clock k before o =
      let stop = q.zone.date (q.zone.local_day q.day + 1) (q.zone.local_time q.day) in
      scan_complete (rounds q.day stop) q.day stop k (omega arith) before
        (OfferedBy-offered q (q.day + k * minute) short_clock o)

-- The clock shows midnight, on the date itself, at the instant that time.Date makes of its midnight.
abbrev pub HasMidnight : Zone → ℕ → Type 0
HasMidnight z d = (z.local_day (z.date d 0) ≡ d) × (z.local_time (z.date d 0) ≡ 0)

-- On a date that has a midnight, as the date before it has, the dates that Slots reads off are these two.
module _ (q : Query) (d : ℕ) (read : q.day ≡ q.zone.date d 0) (this : HasMidnight q.zone d)
    (last : HasMidnight q.zone (d - 1)) where
  pub asked_date : asked q ≡ d
  asked_date = ap q.zone.local_day read ∙ this.0

  asked_clock : q.zone.local_time q.day ≡ 0
  asked_clock = ap q.zone.local_time read ∙ this.1

  pub eve_date : eve q ≡ d - 1
  eve_date =
      ap (λ x. q.zone.local_day (q.zone.date (x - 1) (q.zone.local_time q.day))) asked_date
      ∙ ap (λ x. q.zone.local_day (q.zone.date (d - 1) x)) asked_clock
      ∙ last.0

  pub stop_date :
      q.zone.date (q.zone.local_day q.day + 1) (q.zone.local_time q.day) ≡ q.zone.date (d + 1) 0
  stop_date = rw (asked_date, asked_clock) refl

-- No offer is missed, however long the day is. Let the clock count less than a day, and let the date have a
-- midnight, as the date before it: an instant a whole number of minutes after the date's midnight and
-- before the next date is a slot of the day if an opening offers it, which is one of the date or one of the
-- date before that ends on the next morning.
pub day_slots_complete :
    (q : Query) (d k : ℕ)
    → ((t : ℕ) → local_minute q.zone t < 1440)
    → q.day ≡ q.zone.date d 0
    → HasMidnight q.zone d
    → HasMidnight q.zone (d - 1)
    → q.day + k * minute < q.zone.date (d + 1) 0
    → OfferedBy q d (d - 1) (q.day + k * minute)
    → Memᴰ (slot_at q (q.day + k * minute)) (day_slots q)
day_slots_complete q d k short_clock read this last before o =
    found_in_day q short_clock k
      (subst (λ stop. q.day + k * minute < stop) (sym (stop_date q d read this last)) before)
      (subst (λ on. OfferedBy q on (eve q) (q.day + k * minute))
        (sym (asked_date q d read this last))
        (subst (λ e. OfferedBy q d e (q.day + k * minute)) (sym (eve_date q d read this last)) o))
