-- ===== src/Operations/DoubleBooking.antt =====
-- mutate of internal/operations/mutate.go never lets two appointments of a resource overlap.
use openlocal_api.Prelude.{
  ℕ, ◌+◌, ◌*◌, ◌≡◌, ◌⊎◌, refl, sym, ap, ◌∙◌, subst, inl, inr, Bool, true, false, ◌||◌, some, String,
  str_eq, find_holds, contains, All, All-map, any-All, arith, Bool-cases, Option-cases,
}
use openlocal_api.Api.{ok, Result-cases}
use openlocal_api.Text.Runes.{Text}
use openlocal_api.Tx.Runs.{atomically-runs}
use openlocal_api.Scheduling.Calendar.{minute}
use openlocal_api.Entitlements.Access.{Subscription}
use openlocal_api.Operations.States.{next_of_appointment, next}
use openlocal_api.Operations.Lifecycle.{All-contains}
use openlocal_api.Operations.Rows.{View}
use openlocal_api.Operations.Tables.{
  Appointment, Requests, get_appointment, is_appointment, next_version, ensure_subscription,
}
use openlocal_api.Operations.Intake.{Settings, require_paid}
use openlocal_api.Operations.Booking.{Env, is_booked, overlaps_row, appointment_overlaps}
use openlocal_api.Operations.Overlaps.{
  Apart, NoOverlap, free_from, Apart-of_free, NoOverlap-replace_first, NoOverlap-find, Apart-like,
  check_appointment_free,
}
use openlocal_api.Operations.Changes.{
  Target, Change, transition, editing, as_sent, save_replay, status_of,
}
use openlocal_api.Operations.Checks.{
  get_service, moves_appointment, move_appointment, checked_end, new_end, Read,
}
use openlocal_api.Operations.Mutate.{
  written_appointment, confirms, write_request, mutate_body, mutate,
}
use openlocal_api.Operations.Mutated.{
  AppointmentRan, mutate_appointment-AppointmentRan, mutate_preorder-PreorderRan,
}
use openlocal_api.Operations.Machine.{appointment_key}
use openlocal_api.Operations.Readings.{ReadRan, read_appointment, read_change-ReadRan}
use openlocal_api.Operations.Changed.{ChangeRan, Replayed, mutate_body_runs}

-- A status that holds the resource comes from one that does, or by the confirmation.
Holds : String → String → Type 0
Holds old new = is_booked new ≡ true → (confirms old new ≡ true) ⊎ (is_booked old ≡ true)

next-Holds : (s : String) → All (Holds s) (next_of_appointment s)
unfolding next_of_appointment Holds is_booked
next-Holds s = ground arith

step-Holds : (s t : String) → contains (next_of_appointment s) t ≡ true → Holds s t
step-Holds s t h = All-contains (Holds s) (next_of_appointment s) t (next-Holds s) h

not_moved :
    (change : Change) (a : Appointment)
    → moves_appointment change ≡ false
    → move_appointment change a ≡ a
not_moved (transition status version) a h = refl
not_moved (editing e) a h = elim (Option-cases e.starts_at) [
  | inr (at, set) ↦ absurd (ground (arith, set, h))
  | inl unset ↦ elim (Option-cases e.resource_id) [
    | inr (r, set) ↦ absurd (ground (arith, unset, set, h))
    | inl same ↦ rw (unset, same) refl
  ]
]

-- The end that was checked is free of every appointment that holds the resource.
checked_end_free :
    (env : Env) (sub : Subscription) (cfg : Settings) (target : Target) (a : Appointment)
    (t : Requests) (ends : ℕ)
    → checked_end env sub cfg target a t ≡ ok ends
    → appointment_overlaps target.business a.resource_id target.id a.starts_at
        (ends + a.buffer_minutes * minute)
        t.appointments
      ≡ false
unfolding checked_end
checked_end_free env sub cfg target a t ends e =
    elim (Result-cases (require_paid env.now sub target.module_name)) [
      | inr (why, failed) ↦ absurd (ground (arith, failed, e))
      | inl (u, pays) ↦ elim (Option-cases (get_service target.business a.service_id t.services)) [
        | inl missing ↦ absurd (ground (arith, pays, missing, e))
        | inr (svc, found) ↦
            check_appointment_free env target.business cfg
              (record svc {
                duration_minutes = a.duration_minutes;
                buffer_minutes = a.buffer_minutes;
              })
              a.timezone a.resource_id target.id a.starts_at t ends (ground (arith, pays, found, e))
      ]
    ]

-- The row that is written, by its key, its time and its status.
module _ (env : Env) (sub : Subscription) (cfg : Settings) (target : Target) (t : Requests)
    (rows_apart : NoOverlap t.appointments) (new : Appointment)
    (business : new.business_id ≡ target.business) (id : new.id ≡ target.id) where
  -- A row whose slot was checked is apart from all.
  checked-Apart :
      appointment_overlaps target.business new.resource_id target.id new.starts_at
          (free_from new)
          t.appointments
        ≡ false
      → All (Apart new) t.appointments
  unfolding appointment_overlaps
  checked-Apart free =
      let each : All
          (λ a.
            overlaps_row new.business_id new.resource_id new.id new.starts_at (free_from new) a
            ≡ false)
          t.appointments =
        any-All (overlaps_row new.business_id new.resource_id new.id new.starts_at (free_from new))
          t.appointments (rw (business, id) free) in
      All-map _ (Apart new) t.appointments (Apart-of_free new) each

  -- A row that stays where it was is apart from all, if it held the resource already.
  kept-Apart :
      (old : Appointment)
      → get_appointment target.business target.id t.appointments ≡ some old
      → new.resource_id ≡ old.resource_id
      → new.starts_at ≡ old.starts_at
      → free_from new ≡ free_from old
      → (is_booked new.status ≡ true → is_booked old.status ≡ true)
      → All (Apart new) t.appointments
  unfolding get_appointment
  kept-Apart old found resource starts free booked =
      let key = find_holds (is_appointment target.business target.id) t.appointments old found in
      All-map (Apart old) (Apart new) t.appointments
        (λ a apart.
          Apart-like old new a (ground (arith, key, business)) resource (ground (arith, key, id))
            starts free booked apart)
        (NoOverlap-find (is_appointment target.business target.id) t.appointments old rows_apart
          found)

-- The change of a status that mutate makes: allowed by Next, or none.
Allowed : String → String → Type 0
Allowed old new = (contains (next_of_appointment old) new ≡ true) ⊎ (new ≡ old)

Allowed-Holds : (old new : String) → Allowed old new → Holds old new
unfolding Allowed Holds
Allowed-Holds old new (inl step) = unfold Holds in step-Holds old new step
Allowed-Holds old new (inr same) = λ h. inr (rw same at h)

moves_key :
    (change : Change) (a : Appointment)
    → ((move_appointment change a).business_id ≡ a.business_id)
      × ((move_appointment change a).id ≡ a.id)
moves_key (transition status version) a = (refl, refl)
moves_key (editing e) a = (refl, refl)

module _ (env : Env) (sub : Subscription) (cfg : Settings) (target : Target) (change : Change)
    (status : String) (notes : Text) (confirm : Bool) (t t' : Requests)
    (ran : AppointmentRan env sub cfg target change status notes confirm t t')
    (apart : NoOverlap t.appointments) where
  -- The row that is written.
  new_row : Appointment
  new_row = next_version (
      written_appointment env.now cfg status notes confirm (moves_appointment change)
        (record (move_appointment change ran.old) { ends_at = ran.ends }))

  new_row-Apart :
      (is_booked status ≡ true → (confirm ≡ true) ⊎ (is_booked ran.old.status ≡ true))
      → All (Apart new_row) t.appointments
  unfolding new_row written_appointment new_end
  new_row-Apart holds =
      let (business, id) =
        appointment_key target.business target.id t.appointments ran.old ran.found in
      let (same_business, same_id) = moves_key change ran.old in
      elim (Bool-cases (confirm || moves_appointment change)) [
        | inl checked ↦
            checked-Apart env sub cfg target t apart new_row (same_business ∙ business)
              (same_id ∙ id)
              (checked_end_free env sub cfg target (move_appointment change ran.old) t ran.ends
                (ground (arith, checked, ran.ends_at)))
        | inr unchecked ↦
            let stays = not_moved change ran.old (ground (arith, unchecked)) in
            let kept_end : (move_appointment change ran.old).ends_at ≡ ran.ends =
              ground (arith, unchecked, ran.ends_at) in
            let same_end : ran.ends ≡ ran.old.ends_at =
              sym kept_end ∙ ap (λ (a : Appointment). a.ends_at) stays in
            kept-Apart env sub cfg target t apart new_row (same_business ∙ business) (same_id ∙ id)
              ran.old ran.found (ap (λ (a : Appointment). a.resource_id) stays)
              (ap (λ (a : Appointment). a.starts_at) stays) (rw (same_end, stays) refl)
              (λ booked. elim (holds booked) [
                | inl by_confirmation ↦ absurd (ground (arith, unchecked, by_confirmation))
                | inr before ↦ before
              ])
      ]

  -- The branch for appointments keeps them apart.
  AppointmentRan-NoOverlap :
      (is_booked status ≡ true → (confirm ≡ true) ⊎ (is_booked ran.old.status ≡ true))
      → NoOverlap t'.appointments
  unfolding new_row
  AppointmentRan-NoOverlap holds = rw ran.appointments (
      NoOverlap-replace_first (is_appointment target.business target.id) new_row t.appointments
        apart (new_row-Apart holds))

-- The new status of an appointment holds the resource only if the old did, or by the confirmation.
read-Holds :
    (env : Env) (target : Target) (change : Change) (t : Requests) (read : Read) (old : Appointment)
    → str_eq target.module_name "appointments" ≡ true
    → ReadRan env target change t read
    → get_appointment target.business target.id t.appointments ≡ some old
    → is_booked (status_of change read.view.status) ≡ true
    → (confirms read.view.status (status_of change read.view.status) ≡ true)
      ⊎ (is_booked old.status ≡ true)
unfolding Holds Allowed next
read-Holds env target change t read old on_appointments ran found booked =
    let (same, version) = read_appointment env target change t read ran old on_appointments found in
    let allowed : Allowed read.view.status (status_of change read.view.status) =
      rw on_appointments at ran.allowed in
    elim (Allowed-Holds read.view.status (status_of change read.view.status) allowed booked) [
      | inl by_confirmation ↦ inl by_confirmation
      | inr before ↦ inr (rw same at before)
    ]

-- What write_request does keeps the appointments apart.
module _ (env : Env) (sub : Subscription) (target : Target) (change : Change) (answer : View)
    (t t' : Requests) (ran : ChangeRan env sub target change answer t t') where
  ChangeRan-NoOverlap : NoOverlap t.appointments → NoOverlap t'.appointments
  unfolding write_request
  ChangeRan-NoOverlap apart =
      let status = status_of change ran.read.view.status in
      let confirm = confirms ran.read.view.status status in
      let before : NoOverlap ran.taken.appointments = rw ran.unit_taken.appointments apart in
      rw ran.appointments (elim (Bool-cases (str_eq target.module_name "appointments")) [
        | inl on_appointments ↦
            let branch =
              mutate_appointment-AppointmentRan env sub ran.read.settings target change status
                ran.read.notes confirm ran.taken ran.written tt
                (ground (arith, on_appointments, ran.request)) in
            AppointmentRan-NoOverlap env sub ran.read.settings target change status ran.read.notes
              confirm ran.taken ran.written branch before
              (read-Holds env target change t ran.read branch.old on_appointments
                (read_change-ReadRan env target change t ran.read ran.reading)
                (subst (λ rows. get_appointment target.business target.id rows ≡ some branch.old)
                  ran.unit_taken.appointments branch.found))
        | inr on_preorders ↦
            let branch =
              mutate_preorder-PreorderRan env sub ran.read.settings target change status
                ran.read.notes confirm ran.taken ran.written tt
                (ground (arith, on_preorders, ran.request)) in
            rw branch.appointments before
      ])

mutate_body-NoOverlap :
    (env : Env) (target : Target) (change : Change) (t t' : Requests) (answer : View)
    → mutate_body env target change t ≡ ok (answer, t')
    → NoOverlap t.appointments
    → NoOverlap t'.appointments
unfolding Replayed save_replay
mutate_body-NoOverlap env target change t t' answer e apart =
    elim (mutate_body_runs env target change answer t t' e) [
      | inl replayed ↦ rw replayed.1 apart
      | inr fresh ↦
          rw fresh.saved
            (ChangeRan-NoOverlap env fresh.sub target change answer t fresh.changed fresh.ran apart)
    ]

-- No double booking: if no two appointments of a business that hold the same resource overlap, each
-- taken with the buffer after it, then none do after a call of mutate, whoever calls, whatever the call
-- asks for, and whether it is accepted or not.
pub mutate-NoOverlap :
    (env : Env) (target : Target) (change : Change) (t : Requests)
    → NoOverlap t.appointments
    → NoOverlap (mutate env target change t).1.appointments
unfolding mutate ensure_subscription
mutate-NoOverlap env target change t apart =
    atomically-runs (λ (x : Requests). NoOverlap x.appointments)
      (mutate_body env target (as_sent target.audience change))
      (ensure_subscription env.now target.business t) (ground (arith, apart))
      (λ answer t' ran.
        mutate_body-NoOverlap env target (as_sent target.audience change)
          (ensure_subscription env.now target.business t) t' answer ran (ground (arith, apart)))
