-- ===== src/Operations/Refinement.antt =====
-- mutate and Expire of internal/operations/mutate.go make the moves of the machine of a request.
use openlocal_api.Prelude.{
  ℕ, suc, ◌≡◌, refl, sym, ap, ◌∙◌, subst, inl, inr, Bool, true, false, ◌&&◌, ◌||◌, Option, some,
  List, String, str_eq, ◌==◌, replace_first, arith, Bool-cases,
}
use openlocal_api.Api.{ok, Result-cases}
use openlocal_api.Text.Runes.{Text}
use openlocal_api.Tx.Runs.{atomically-runs}
use openlocal_api.Entitlements.Access.{Subscription}
use openlocal_api.Operations.Rows.{View}
use openlocal_api.Operations.Tables.{
  Appointment, Preorder, Requests, get_appointment, get_preorder, is_appointment, is_preorder,
  next_version, next_preorder_version, ensure_subscription,
}
use openlocal_api.Operations.Intake.{Settings, require_paid}
use openlocal_api.Operations.Booking.{Env, check_pickup}
use openlocal_api.Operations.Changes.{
  Target, Change, transition, editing, as_sent, status_of, save_replay,
}
use openlocal_api.Operations.Checks.{
  moves_appointment, move_appointment, moves_preorder, move_preorder, new_window,
}
use openlocal_api.Operations.Mutate.{
  written_appointment, written_preorder, confirms, write_request, mutate_body, mutate,
}
use openlocal_api.Operations.Mutated.{
  AppointmentRan, PreorderRan, mutate_appointment-AppointmentRan, mutate_preorder-PreorderRan,
}
use openlocal_api.Operations.Changed.{ChangeRan, Replayed, mutate_body_runs}
use openlocal_api.Operations.Readings.{read_change-ReadRan, read_appointment, read_preorder}
use openlocal_api.Operations.Machine.{
  State, Follows, Refines, stored-Follows, Follows-same_table, of_appointment, of_preorder,
  state_of, ensured-State, replaced_appointment, replaced_preorder, appointment_key, preorder_key,
}

pub moves_appointment_key :
    (change : Change) (a : Appointment)
    → ((move_appointment change a).business_id ≡ a.business_id)
      × ((move_appointment change a).id ≡ a.id)
      × ((move_appointment change a).version ≡ a.version)
moves_appointment_key (transition status version) a = (refl, refl, refl)
moves_appointment_key (editing e) a = (refl, refl, refl)

pub moves_preorder_key :
    (change : Change) (p : Preorder)
    → ((move_preorder change p).business_id ≡ p.business_id)
      × ((move_preorder change p).id ≡ p.id)
      × ((move_preorder change p).version ≡ p.version)
moves_preorder_key (transition status version) p = (refl, refl, refl)
moves_preorder_key (editing e) p = (refl, refl, refl)

pub new_window_key :
    (env : Env) (sub : Subscription) (cfg : Settings) (target : Target) (checked : Bool)
    (p q : Preorder) (t : Requests)
    → new_window env sub cfg target checked p t ≡ ok q
    → (q.business_id ≡ p.business_id) × (q.id ≡ p.id) × (q.version ≡ p.version)
unfolding new_window
new_window_key env sub cfg target false p q t e =
    (ground (arith, e), ground (arith, e), ground (arith, e))
new_window_key env sub cfg target true p q t e =
    elim (Result-cases (require_paid env.now sub target.module_name)) [
      | inr (why, failed) ↦ absurd (ground (arith, failed, e))
      | inl (u, pays) ↦
          elim (Result-cases
            (check_pickup env target.business cfg p.timezone p.pickup_window_id target.id t)) [
              | inr (why, failed) ↦ absurd (ground (arith, pays, failed, e))
              | inl (w, found) ↦
                  let made : record p { starts_at = w.starts_at; ends_at = w.ends_at } ≡ q =
                    ground (arith, pays, found, e) in
                  (
                    sym (ap (λ (x : Preorder). x.business_id) made),
                    sym (ap (λ (x : Preorder). x.id) made),
                    sym (ap (λ (x : Preorder). x.version) made),
                  )
            ]
    ]

-- An UPDATE of one request is a move of it, and no other request is changed.
module _ (m : String) (b i b' i' : ℕ) where
  appointment-Refines :
      (old new : Appointment) (rows : List Appointment)
      → get_appointment b i rows ≡ some old
      → new.business_id ≡ b
      → new.id ≡ i
      → new.version ≡ suc old.version
      → Follows m old.status new.status
      → Refines m
          (of_appointment (get_appointment b' i' rows))
          (of_appointment (get_appointment b' i' (replace_first (is_appointment b i) new rows)))
  appointment-Refines old new rows found business id counted follows =
      let after = replaced_appointment b i b' i' new old rows found business id in
      elim (Bool-cases (b == b' && i == i')) [
        | inl here ↦
            let same_b : b ≡ b' = ground (arith, here) in
            let same_i : i ≡ i' = ground (arith, here) in
            let before : get_appointment b' i' rows ≡ some old = rw (← same_b, ← same_i) found in
            let changed : get_appointment b' i' (replace_first (is_appointment b i) new rows)
                ≡ some new =
              after ∙ rw here refl in
            inr (
              record { status = old.status; version = old.version },
              record { status = new.status; version = new.version },
              ap of_appointment before,
              ap of_appointment changed,
              record { counted = counted; follows = follows },
            )
        | inr elsewhere ↦ inl (ap of_appointment (after ∙ rw elsewhere refl))
      ]

  preorder-Refines :
      (old new : Preorder) (rows : List Preorder)
      → get_preorder b i rows ≡ some old
      → new.business_id ≡ b
      → new.id ≡ i
      → new.version ≡ suc old.version
      → Follows m old.status new.status
      → Refines m
          (of_preorder (get_preorder b' i' rows))
          (of_preorder (get_preorder b' i' (replace_first (is_preorder b i) new rows)))
  preorder-Refines old new rows found business id counted follows =
      let after = replaced_preorder b i b' i' new old rows found business id in
      elim (Bool-cases (b == b' && i == i')) [
        | inl here ↦
            let same_b : b ≡ b' = ground (arith, here) in
            let same_i : i ≡ i' = ground (arith, here) in
            let before : get_preorder b' i' rows ≡ some old = rw (← same_b, ← same_i) found in
            let changed : get_preorder b' i' (replace_first (is_preorder b i) new rows) ≡ some new =
              after ∙ rw here refl in
            inr (
              record { status = old.status; version = old.version },
              record { status = new.status; version = new.version },
              ap of_preorder before,
              ap of_preorder changed,
              record { counted = counted; follows = follows },
            )
        | inr elsewhere ↦ inl (ap of_preorder (after ∙ rw elsewhere refl))
      ]

module _ (env : Env) (sub : Subscription) (cfg : Settings) (target : Target) (change : Change)
    (status : String) (notes : Text) (confirm : Bool) (t t' : Requests) (m : String) (b i : ℕ) where
  AppointmentRan-Refines :
      (ran : AppointmentRan env sub cfg target change status notes confirm t t')
      → Follows m ran.old.status status
      → Refines m
          (of_appointment (get_appointment b i t.appointments))
          (of_appointment (get_appointment b i t'.appointments))
  unfolding written_appointment
  AppointmentRan-Refines ran follows =
      let (business, id) =
        appointment_key target.business target.id t.appointments ran.old ran.found in
      let (same_business, same_id, same_version) = moves_appointment_key change ran.old in
      rw ran.appointments (
        appointment-Refines m target.business target.id b i ran.old
          (next_version (
            written_appointment env.now cfg status notes confirm (moves_appointment change)
              (record (move_appointment change ran.old) { ends_at = ran.ends })))
          t.appointments ran.found (same_business ∙ business) (same_id ∙ id) (ap suc same_version)
          follows)

  PreorderRan-Refines :
      (ran : PreorderRan env sub cfg target change status notes confirm t t')
      → Follows m ran.old.status status
      → Refines m
          (of_preorder (get_preorder b i t.preorders))
          (of_preorder (get_preorder b i t'.preorders))
  unfolding written_preorder
  PreorderRan-Refines ran follows =
      let (business, id) = preorder_key target.business target.id t.preorders ran.old ran.found in
      let (same_business, same_id, same_version) = moves_preorder_key change ran.old in
      let (w_business, w_id, w_version) =
        new_window_key env sub cfg target (confirm || moves_preorder change)
          (move_preorder change ran.old) ran.new t ran.window in
      rw ran.preorders (
        preorder-Refines m target.business target.id b i ran.old
          (next_preorder_version (
            written_preorder env.now cfg status notes confirm (moves_preorder change)
              (record ran.new { final_total = ran.total })))
          t.preorders ran.found (w_business ∙ same_business ∙ business) (w_id ∙ same_id ∙ id)
          (ap suc (w_version ∙ same_version)) follows)

module _ (env : Env) (sub : Subscription) (target : Target) (change : Change) (answer : View)
    (t t' : Requests) (ran : ChangeRan env sub target change answer t t') (m : String)
    (b i : ℕ) where
  changed_status : String
  changed_status = status_of change ran.read.view.status

  confirmed : Bool
  unfolding changed_status
  confirmed = confirms ran.read.view.status changed_status

  appointments_Refines :
      str_eq target.module_name "appointments" ≡ true
      → AppointmentRan env sub ran.read.settings target change changed_status ran.read.notes
          confirmed ran.taken ran.written
      → Refines m (state_of m b i t) (state_of m b i t')
  unfolding state_of changed_status
  appointments_Refines on_appointments branch = elim (Bool-cases (str_eq m "appointments")) [
    | inl here ↦
        let reading = read_change-ReadRan env target change t ran.read ran.reading in
        let found : get_appointment target.business target.id t.appointments ≡ some branch.old =
          subst (λ rows. get_appointment target.business target.id rows ≡ some branch.old)
            ran.unit_taken.appointments branch.found in
        let (stored, version) =
          read_appointment env target change t ran.read reading branch.old on_appointments found in
        let follows =
          Follows-same_table target.module_name m branch.old.status changed_status
            (on_appointments ∙ sym here)
            (stored-Follows target.module_name ran.read.view.status branch.old.status changed_status
              stored reading.open_status reading.allowed) in
        rw (here, ran.appointments)
          (subst
            (λ (rows : List Appointment).
              Refines m (of_appointment (get_appointment b i rows))
                (of_appointment (get_appointment b i ran.written.appointments)))
            ran.unit_taken.appointments
            (AppointmentRan-Refines env sub ran.read.settings target change changed_status
              ran.read.notes confirmed ran.taken ran.written m b i branch follows))
    | inr elsewhere ↦
        inl (rw (elsewhere, ran.preorders, branch.preorders, ran.unit_taken.preorders) refl)
  ]

  preorders_Refines :
      str_eq target.module_name "appointments" ≡ false
      → PreorderRan env sub ran.read.settings target change changed_status ran.read.notes confirmed
          ran.taken ran.written
      → Refines m (state_of m b i t) (state_of m b i t')
  unfolding state_of changed_status
  preorders_Refines on_preorders branch = elim (Bool-cases (str_eq m "appointments")) [
    | inl elsewhere ↦
        inl
          (rw (elsewhere, ran.appointments, branch.appointments, ran.unit_taken.appointments) refl)
    | inr here ↦
        let reading = read_change-ReadRan env target change t ran.read ran.reading in
        let found : get_preorder target.business target.id t.preorders ≡ some branch.old =
          subst (λ rows. get_preorder target.business target.id rows ≡ some branch.old)
            ran.unit_taken.preorders branch.found in
        let (stored, version) =
          read_preorder env target change t ran.read reading branch.old on_preorders found in
        let follows =
          Follows-same_table target.module_name m branch.old.status changed_status
            (on_preorders ∙ sym here)
            (stored-Follows target.module_name ran.read.view.status branch.old.status changed_status
              stored reading.open_status reading.allowed) in
        rw (here, ran.preorders)
          (subst
            (λ (rows : List Preorder).
              Refines m (of_preorder (get_preorder b i rows))
                (of_preorder (get_preorder b i ran.written.preorders)))
            ran.unit_taken.preorders
            (PreorderRan-Refines env sub ran.read.settings target change changed_status
              ran.read.notes confirmed ran.taken ran.written m b i branch follows))
  ]

  ChangeRan-Refines : Refines m (state_of m b i t) (state_of m b i t')
  unfolding write_request changed_status confirmed
  ChangeRan-Refines = elim (Bool-cases (str_eq target.module_name "appointments")) [
    | inl on_appointments ↦ appointments_Refines on_appointments (
        mutate_appointment-AppointmentRan env sub ran.read.settings target change changed_status
          ran.read.notes confirmed ran.taken ran.written tt
          (ground (arith, on_appointments, ran.request)))
    | inr on_preorders ↦ preorders_Refines on_preorders (
        mutate_preorder-PreorderRan env sub ran.read.settings target change changed_status
          ran.read.notes confirmed ran.taken ran.written tt
          (ground (arith, on_preorders, ran.request)))
  ]

mutate_body-Refines :
    (env : Env) (target : Target) (change : Change) (t t' : Requests) (answer : View) (m : String)
    (b i : ℕ)
    → mutate_body env target change t ≡ ok (answer, t')
    → Refines m (state_of m b i t) (state_of m b i t')
unfolding Replayed
mutate_body-Refines env target change t t' answer m b i e =
    elim (mutate_body_runs env target change answer t t' e) [
      | inl replayed ↦ inl (ap (state_of m b i) replayed.1)
      | inr fresh ↦ rw fresh.saved (
          unfold save_replay state_of in
          ChangeRan-Refines env fresh.sub target change answer t fresh.changed fresh.ran m b i)
    ]

-- Refinement: whoever calls mutate, and whether the call is accepted or not, each request of each
-- business is either as it was before or has made one move of its machine, by which its version grows
-- by one and its status stays or follows Next.
pub mutate-Refines :
    (env : Env) (target : Target) (change : Change) (t : Requests) (m : String) (b i : ℕ)
    → Refines m (state_of m b i t) (state_of m b i (mutate env target change t).1)
unfolding mutate
mutate-Refines env target change t m b i =
    let same = ensured-State env.now target.business t m b i in
    atomically-runs (λ (x : Requests). Refines m (state_of m b i t) (state_of m b i x))
      (mutate_body env target (as_sent target.audience change))
      (ensure_subscription env.now target.business t) (inl same)
      (λ answer t' ran.
        subst (λ (s : Option State). Refines m s (state_of m b i t')) same
          (mutate_body-Refines env target (as_sent target.audience change)
            (ensure_subscription env.now target.business t) t' answer m b i ran))
