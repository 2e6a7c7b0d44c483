-- ===== src/Operations/Landed.antt =====
-- The row that mutate of internal/operations/mutate.go leaves, and what its answer shows.
use openlocal_api.Prelude.{
  refl, ℕ, suc, ◌≡◌, ap, ◌∙◌, subst, inl, inr, Bool, true, false, ◌&&◌, ◌||◌, some, String, str_eq,
  ◌==◌, replace_first, arith, Bool-cases, Option-cases,
}
use openlocal_api.Api.{ok}
use openlocal_api.Text.Runes.{Text}
use openlocal_api.Entitlements.Access.{Subscription}
use openlocal_api.Operations.Rows.{View}
use openlocal_api.Operations.Tables.{
  Requests, is_appointment, is_preorder, get_appointment, get_preorder, next_version,
  next_preorder_version,
}
use openlocal_api.Operations.Intake.{Settings}
use openlocal_api.Operations.Booking.{Env}
use openlocal_api.Operations.Changes.{Target, Change, status_of, view_of, record_of, find_business}
use openlocal_api.Operations.Checks.{
  moves_appointment, move_appointment, moves_preorder, move_preorder,
}
use openlocal_api.Operations.Mutate.{written_appointment, written_preorder, write_request, confirms}
use openlocal_api.Operations.Mutated.{
  AppointmentRan, PreorderRan, mutate_appointment-AppointmentRan, mutate_preorder-PreorderRan,
}
use openlocal_api.Operations.Changed.{ChangeRan}
use openlocal_api.Operations.Readings.{read_change-ReadRan, read_appointment, read_preorder}
use openlocal_api.Operations.Machine.{
  State, of_appointment, of_preorder, state_of, replaced_appointment, replaced_preorder,
  appointment_key, preorder_key,
}
use openlocal_api.Operations.Refinement.{moves_appointment_key, moves_preorder_key, new_window_key}

same_key : (b i : ℕ) → (b == b && i == i) ≡ true
same_key b i = ground arith

-- The answer of record shows the row.
pub record_of-view_of :
    (now business id : ℕ) (m : String) (t : Requests) (answer : View)
    → record_of now business id m t ≡ ok answer
    → view_of now business id m t ≡ some answer
unfolding record_of
record_of-view_of now business id m t answer e = elim (Option-cases (view_of now business id m t)) [
  | inl missing ↦ absurd (ground (arith, missing, e))
  | inr (v, shown) ↦ elim (Option-cases (find_business business t.businesses)) [
    | inl nowhere ↦ absurd (ground (arith, shown, nowhere, e))
    | inr (b, there) ↦
        let same : v ≡ answer = ground (arith, shown, there, e) in shown ∙ ap some same
  ]
]

module _ (env : Env) (sub : Subscription) (cfg : Settings) (target : Target) (change : Change)
    (status : String) (notes : Text) (confirm : Bool) (t t' : Requests) where
  AppointmentRan-State :
      (ran : AppointmentRan env sub cfg target change status notes confirm t t')
      → of_appointment (get_appointment target.business target.id t'.appointments)
        ≡ some (record { status = status; version = suc ran.old.version })
  unfolding written_appointment
  AppointmentRan-State ran =
      let (business, id) =
        appointment_key target.business target.id t.appointments ran.old ran.found in
      let (same_business, same_id, same_version) = moves_appointment_key change ran.old in
      let new = next_version (
        written_appointment env.now cfg status notes confirm (moves_appointment change)
          (record (move_appointment change ran.old) { ends_at = ran.ends })) in
      let at : get_appointment target.business target.id
            (replace_first (is_appointment target.business target.id) new t.appointments)
          ≡ some new =
        replaced_appointment target.business target.id target.business target.id new ran.old
          t.appointments ran.found (same_business ∙ business) (same_id ∙ id)
        ∙ rw (same_key target.business target.id) refl in
      rw ran.appointments (
        ap of_appointment at
        ∙ ap (λ n. some (record { status = status; version = suc n })) same_version)

  PreorderRan-State :
      (ran : PreorderRan env sub cfg target change status notes confirm t t')
      → of_preorder (get_preorder target.business target.id t'.preorders)
        ≡ some (record { status = status; version = suc ran.old.version })
  unfolding written_preorder
  PreorderRan-State ran =
      let (business, id) = preorder_key target.business target.id t.preorders ran.old ran.found in
      let (same_business, same_id, same_version) = moves_preorder_key change ran.old in
      let (w_business, w_id, w_version) =
        new_window_key env sub cfg target (confirm || moves_preorder change)
          (move_preorder change ran.old) ran.new t ran.window in
      let new = next_preorder_version (
        written_preorder env.now cfg status notes confirm (moves_preorder change)
          (record ran.new { final_total = ran.total })) in
      let at : get_preorder target.business target.id
            (replace_first (is_preorder target.business target.id) new t.preorders)
          ≡ some new =
        replaced_preorder target.business target.id target.business target.id new ran.old
          t.preorders ran.found (w_business ∙ same_business ∙ business) (w_id ∙ same_id ∙ id)
        ∙ rw (same_key target.business target.id) refl in
      rw ran.preorders (
        ap of_preorder at
        ∙ ap (λ n. some (record { status = status; version = suc n })) (w_version ∙ same_version))

module _ (env : Env) (sub : Subscription) (target : Target) (change : Change) (answer : View)
    (t t' : Requests) (ran : ChangeRan env sub target change answer t t') where
  landed : State
  landed = record {
    status = status_of change ran.read.view.status;
    version = suc ran.read.view.version;
  }

  appointment_landed :
      str_eq target.module_name "appointments" ≡ true
      → AppointmentRan env sub ran.read.settings target change
          (status_of change ran.read.view.status)
          ran.read.notes
          (confirms ran.read.view.status (status_of change ran.read.view.status))
          ran.taken
          ran.written
      → of_appointment (get_appointment target.business target.id t'.appointments) ≡ some landed
  unfolding landed
  appointment_landed here branch =
      let reading = read_change-ReadRan env target change t ran.read ran.reading in
      let found : get_appointment target.business target.id t.appointments ≡ some branch.old =
        subst (λ rows. get_appointment target.business target.id rows ≡ some branch.old)
          ran.unit_taken.appointments branch.found in
      let (status, version) =
        read_appointment env target change t ran.read reading branch.old here found in
      rw (ran.appointments, version)
        (AppointmentRan-State env sub ran.read.settings target change
          (status_of change ran.read.view.status) ran.read.notes
          (confirms ran.read.view.status (status_of change ran.read.view.status)) ran.taken
          ran.written branch)

  preorder_landed :
      str_eq target.module_name "appointments" ≡ false
      → PreorderRan env sub ran.read.settings target change
          (status_of change ran.read.view.status)
          ran.read.notes
          (confirms ran.read.view.status (status_of change ran.read.view.status))
          ran.taken
          ran.written
      → of_preorder (get_preorder target.business target.id t'.preorders) ≡ some landed
  unfolding landed
  preorder_landed there branch =
      let reading = read_change-ReadRan env target change t ran.read ran.reading in
      let found : get_preorder target.business target.id t.preorders ≡ some branch.old =
        subst (λ rows. get_preorder target.business target.id rows ≡ some branch.old)
          ran.unit_taken.preorders branch.found in
      let (status, version) =
        read_preorder env target change t ran.read reading branch.old there found in
      rw (ran.preorders, version)
        (PreorderRan-State env sub ran.read.settings target change
          (status_of change ran.read.view.status) ran.read.notes
          (confirms ran.read.view.status (status_of change ran.read.view.status)) ran.taken
          ran.written branch)

  -- The row has the status of the change and the next version.
  pub ChangeRan-State :
      state_of target.module_name target.business target.id t'
      ≡ some (record {
        status = status_of change ran.read.view.status;
        version = suc ran.read.view.version;
      })
  unfolding state_of write_request landed
  ChangeRan-State = elim (Bool-cases (str_eq target.module_name "appointments")) [
    | inl here ↦ rw here (
        appointment_landed here (
          mutate_appointment-AppointmentRan env sub ran.read.settings target change
            (status_of change ran.read.view.status) ran.read.notes
            (confirms ran.read.view.status (status_of change ran.read.view.status)) ran.taken
            ran.written tt (ground (arith, here, ran.request))))
    | inr there ↦ rw there (
        preorder_landed there (
          mutate_preorder-PreorderRan env sub ran.read.settings target change
            (status_of change ran.read.view.status) ran.read.notes
            (confirms ran.read.view.status (status_of change ran.read.view.status)) ran.taken
            ran.written tt (ground (arith, there, ran.request))))
  ]
