-- ===== src/Operations/Overlaps.antt =====
-- Appointments of a resource that do not overlap, and what checkAppointment of
-- internal/operations/create.go finds out.
use openlocal_api.Prelude.{
  ℕ, ◌+◌, ◌*◌, ◌≤◌, ◌≡◌, ◌≢◌, ◌⊎◌, refl, sym, subst, ◌∙◌, inl, inr, Bool, true, false, not, ◌&&◌,
  ◌||◌, some, List, [], ◌∷◌, ◌++◌, ◌==◌, find, replace_first, All, All-zip, All-append, All-find,
  All-replace_first, Bool-cases, Option-cases, arith,
}
use openlocal_api.Api.{ok, Result-cases}
use openlocal_api.Text.Runes.{Text}
use openlocal_api.Scheduling.Calendar.{minute, format_date}
use openlocal_api.Scheduling.Slots.{Slot}
use openlocal_api.Operations.Rows.{Service, AppointmentResource}
use openlocal_api.Operations.Tables.{Appointment, Requests}
use openlocal_api.Operations.Intake.{Settings}
use openlocal_api.Operations.Booking.{
  Env, is_booked, overlaps_row, appointment_overlaps, AvailableSlot, is_skipped, keep_free,
  slots_of_resource, resource_slots, appointment_slots, find_start, check_appointment,
}

-- When the resource is free again.
abbrev pub free_from : Appointment → ℕ
free_from a = a.ends_at + a.buffer_minutes * minute

-- Two appointments that both hold the resource do so one after the other.
unfoldable pub Apart : Appointment → Appointment → Type 0
Apart a b =
    a.business_id ≡ b.business_id
    → a.resource_id ≡ b.resource_id
    → a.id ≢ b.id
    → is_booked a.status ≡ true
    → is_booked b.status ≡ true
    → (free_from a ≤ b.starts_at) ⊎ (free_from b ≤ a.starts_at)

-- No two appointments overlap.
unfoldable pub NoOverlap : List Appointment → Type 0
NoOverlap rows = All (λ a. All (Apart a) rows) rows

Apart-symm : (a b : Appointment) → Apart a b → Apart b a
unfolding Apart
Apart-symm a b h same res ne hb ha = elim (h (sym same) (sym res) (λ e. ne (sym e)) ha hb) [
  | inl before ↦ inr before
  | inr after ↦ inl after
]

pub Apart-self : (a b : Appointment) → a.id ≡ b.id → Apart a b
unfolding Apart
Apart-self a b e same res ne ha hb = absurd (ne e)

pub Apart-unbooked : (a b : Appointment) → is_booked a.status ≡ false → Apart a b
unfolding Apart
Apart-unbooked a b free same res ne ha hb = absurd (ground (arith, free, ha))

-- A row that the check leaves free is apart from the appointment.
pub Apart-of_free :
    (new a : Appointment)
    → overlaps_row new.business_id new.resource_id new.id new.starts_at (free_from new) a ≡ false
    → Apart new a
unfolding overlaps_row Apart
Apart-of_free new a free same res ne hn ha = ground (arith, free, same, res, ne, ha)

-- A row at the same place and time is apart from what the other is apart from.
pub Apart-like :
    (old new a : Appointment)
    → new.business_id ≡ old.business_id
    → new.resource_id ≡ old.resource_id
    → new.id ≡ old.id
    → new.starts_at ≡ old.starts_at
    → free_from new ≡ free_from old
    → (is_booked new.status ≡ true → is_booked old.status ≡ true)
    → Apart old a
    → Apart new a
unfolding Apart
Apart-like old new a business resource id starts free booked apart same res ne hn ha =
    rw (starts, free)
      (apart (sym business ∙ same) (sym resource ∙ res) (λ e. ne (id ∙ e)) (booked hn) ha)

pub NoOverlap-find :
    (p : Appointment → Bool) (rows : List Appointment) (a : Appointment)
    → NoOverlap rows
    → find p rows ≡ some a
    → All (Apart a) rows
unfolding NoOverlap
NoOverlap-find p rows a h e = All-find (λ x. All (Apart x) rows) p rows a h e

pub NoOverlap-replace_first :
    (p : Appointment → Bool) (new : Appointment) (rows : List Appointment)
    → NoOverlap rows
    → All (Apart new) rows
    → NoOverlap (replace_first p new rows)
unfolding NoOverlap
NoOverlap-replace_first p new rows h apart =
    let others : All (λ a. All (Apart a) (replace_first p new rows)) rows =
      All-zip (λ a. All (Apart a) rows) (Apart new) (λ a. All (Apart a) (replace_first p new rows))
        rows (λ a all_a n. All-replace_first (Apart a) p new rows all_a (Apart-symm new a n)) h
        apart in
    All-replace_first (λ a. All (Apart a) (replace_first p new rows)) p new rows others
      (All-replace_first (Apart new) p new rows apart (Apart-self new new refl))

-- A row that does not hold the resource is apart from all.
pub unbooked-Apart :
    (new : Appointment) (rows : List Appointment)
    → is_booked new.status ≡ false
    → All (Apart new) rows
unbooked-Apart new [] free = tt
unbooked-Apart new (a ∷ rows) free = (Apart-unbooked new a free, unbooked-Apart new rows free)

-- A row at the end that is apart from all.
pub NoOverlap-append_last :
    (new : Appointment) (rows : List Appointment)
    → NoOverlap rows
    → All (Apart new) rows
    → NoOverlap (rows ++ (new ∷ []))
unfolding NoOverlap
NoOverlap-append_last new rows h apart =
    All-append (λ a. All (Apart a) (rows ++ (new ∷ []))) rows (new ∷ [])
      (All-zip (λ a. All (Apart a) rows) (Apart new) (λ a. All (Apart a) (rows ++ (new ∷ []))) rows
        (λ a all_a n. All-append (Apart a) rows (new ∷ []) all_a (Apart-symm new a n, tt)) h apart)
      (All-append (Apart new) rows (new ∷ []) apart (Apart-self new new refl, tt), tt)

-- The slot is free for an appointment with the buffer.
Free : ℕ → ℕ → (buffer : ℕ) → List Appointment → AvailableSlot → Type 0
Free business exclude buffer rows s =
    appointment_overlaps business s.resource_id exclude s.slot.starts_at
      (s.slot.ends_at + buffer * minute) rows
    ≡ false

keep_free-Free :
    (business resource exclude buffer : ℕ) (rows : List Appointment) (ss : List Slot)
    → All (Free business exclude buffer rows) (keep_free business resource exclude buffer rows ss)
unfolding keep_free Free
keep_free-Free business resource exclude buffer rows [] = tt
keep_free-Free business resource exclude buffer rows (s ∷ ss) =
    elim (Bool-cases (
      appointment_overlaps business resource exclude s.starts_at (s.ends_at + buffer * minute)
        rows)) [
          | inl taken ↦ rw taken (keep_free-Free business resource exclude buffer rows ss)
          | inr free ↦ rw free (free, keep_free-Free business resource exclude buffer rows ss)
        ]

same_ok : {A : Type 0} (a b : A) → ok a ≡ ok b → a ≡ b
same_ok a b e = cc

resource_slots-Free :
    (env : Env) (business : ℕ) (cfg : Settings) (service : Service) (zone date : Text)
    (resource exclude : ℕ) (rows : List Appointment) (rs : List AppointmentResource)
    (found : List AvailableSlot)
    → resource_slots env business cfg service zone date resource exclude rows rs ≡ ok found
    → All (Free business exclude service.buffer_minutes rows) found
unfolding resource_slots
resource_slots-Free env business cfg service zone date resource exclude rows [] found e =
    subst (All (Free business exclude service.buffer_minutes rows)) (same_ok [] found e) tt
resource_slots-Free env business cfg service zone date resource exclude rows (r ∷ rs) found e =
    elim (Bool-cases (not (r.business_id == business) || is_skipped resource service.id r)) [
      | inl skipped ↦
          resource_slots-Free env business cfg service zone date resource exclude rows rs found
            (ground (arith, skipped, e))
      | inr serves ↦ elim (Result-cases (slots_of_resource env cfg service zone date r)) [
        | inr (why, failed) ↦ absurd (ground (arith, serves, failed, e))
        | inl (day_slots, ran) ↦
            elim (Result-cases
              (resource_slots env business cfg service zone date resource exclude rows rs)) [
                | inr (why, failed) ↦ absurd (ground (arith, serves, ran, failed, e))
                | inl (others, later) ↦
                    subst (All (Free business exclude service.buffer_minutes rows))
                      (same_ok
                        (keep_free business r.id exclude service.buffer_minutes rows day_slots
                          ++ others)
                        found (ground (arith, serves, ran, later, e)))
                      (All-append (Free business exclude service.buffer_minutes rows)
                        (keep_free business r.id exclude service.buffer_minutes rows day_slots)
                        others
                        (keep_free-Free business r.id exclude service.buffer_minutes rows day_slots)
                        (resource_slots-Free env business cfg service zone date resource exclude
                          rows rs others later))
              ]
      ]
    ]

find_start-Free :
    (business exclude buffer : ℕ) (rows : List Appointment) (start resource : ℕ)
    (ss : List AvailableSlot) (ends : ℕ)
    → All (Free business exclude buffer rows) ss
    → find_start start resource ss ≡ ok ends
    → appointment_overlaps business resource exclude start (ends + buffer * minute) rows ≡ false
unfolding find_start Free
find_start-Free business exclude buffer rows start resource [] ends h e = cc
find_start-Free business exclude buffer rows start resource (s ∷ ss) ends h e =
    elim (Bool-cases (s.slot.starts_at == start && s.resource_id == resource)) [
      | inl here ↦
          let same : s.slot.ends_at ≡ ends = ground (arith, here, e) in
          let at_start : s.slot.starts_at ≡ start = ground (arith, here) in
          let of_resource : s.resource_id ≡ resource = ground (arith, here) in
          rw (← same, ← at_start, ← of_resource) h.0
      | inr later ↦
          find_start-Free business exclude buffer rows start resource ss ends h.1 (rw later at e)
    ]

-- What checkAppointment accepts overlaps no appointment that holds the resource, but the one that is
-- excluded.
pub check_appointment_free :
    (env : Env) (business : ℕ) (cfg : Settings) (service : Service) (zone : Text)
    (resource exclude start : ℕ) (t : Requests) (ends : ℕ)
    → check_appointment env business cfg service zone resource exclude start t ≡ ok ends
    → appointment_overlaps business resource exclude start
        (ends + service.buffer_minutes * minute)
        t.appointments
      ≡ false
unfolding check_appointment
check_appointment_free env business cfg service zone resource exclude start t ends e =
    elim (Option-cases (env.zone_of zone)) [
      | inl unknown ↦ absurd (ground (arith, unknown, e))
      | inr (z, known) ↦
          elim (Result-cases (
            appointment_slots env business cfg service zone (format_date (z.local_day start))
              resource exclude t)) [
                | inr (why, failed) ↦ absurd (ground (arith, known, failed, e))
                | inl (found, ran) ↦
                    find_start-Free business exclude service.buffer_minutes t.appointments start
                      resource found ends
                      (resource_slots-Free env business cfg service zone
                        (format_date (z.local_day start)) resource exclude t.appointments
                        t.resources found (unfold appointment_slots in ran))
                      (ground (arith, known, ran, e))
              ]
    ]
