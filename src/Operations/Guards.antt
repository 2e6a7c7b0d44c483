-- ===== src/Operations/Guards.antt =====
-- What mutate of internal/operations/mutate.go asks before it writes, and what it then notes beside the
-- request itself: its history and the quota.
use openlocal_api.Prelude.{
  ℕ, ◌+◌, ◌*◌, ◌≡◌, ◌≢◌, ◌⊎◌, refl, sym, ap, ◌∙◌, inl, inr, true, false, some, String, str_eq, ltb,
  contains, arith, Bool-cases, Option-cases,
}
use openlocal_api.Api.{ok}
use openlocal_api.Tx.Runs.{atomically-runs}
use openlocal_api.Entitlements.Access.{Subscription, get_module}
use openlocal_api.Scheduling.Calendar.{minute}
use openlocal_api.Operations.Rows.{View}
use openlocal_api.Operations.Tables.{Requests, get_appointment, get_preorder, ensure_subscription}
use openlocal_api.Operations.States.{next}
use openlocal_api.Operations.Intake.{Settings, settings_of}
use openlocal_api.Operations.Booking.{Env}
use openlocal_api.Operations.Changes.{
  Target, Change, customer_facing, as_sent, version_of, status_of, view_of, too_late,
}
use openlocal_api.Operations.Checks.{Read, read_change}
use openlocal_api.Operations.Mutate.{confirms, write_request, mutate_body, mutate}
use openlocal_api.Operations.Mutated.{
  Beside, mutate_appointment-AppointmentRan, mutate_preorder-PreorderRan,
}
use openlocal_api.Operations.Readings.{
  ReadRan, read_change-ReadRan, read_appointment, read_preorder,
}
use openlocal_api.Operations.Changed.{ChangeRan, Replayed, mutate_body_runs}
use openlocal_api.Operations.Machine.{State, state_of, ensured-State}

-- The request that was read is the one that is stored.
pub read-State :
    (env : Env) (target : Target) (change : Change) (t : Requests) (read : Read)
    → ReadRan env target change t read
    → state_of target.module_name target.business target.id t
      ≡ some (record { status = read.view.status; version = read.view.version })
unfolding state_of view_of
read-State env target change t read ran =
    elim (Bool-cases (str_eq target.module_name "appointments")) [
      | inl here ↦ elim (Option-cases (get_appointment target.business target.id t.appointments)) [
        | inl missing ↦ absurd (ground (arith, here, missing, ran.shown))
        | inr (a, found) ↦
            let (status, version) = read_appointment env target change t read ran a here found in
            rw (here, found, status, version) refl
      ]
      | inr there ↦ elim (Option-cases (get_preorder target.business target.id t.preorders)) [
        | inl missing ↦ absurd (ground (arith, there, missing, ran.shown))
        | inr (p, found) ↦
            let (status, version) = read_preorder env target change t read ran p there found in
            rw (there, found, status, version) refl
      ]
    ]

-- The write of the request leaves the rest alone.
module _ (env : Env) (sub : Subscription) (target : Target) (change : Change) (answer : View)
    (t t' : Requests) (ran : ChangeRan env sub target change answer t t') where
  pub written-Beside : Beside ran.taken ran.written
  unfolding write_request
  written-Beside =
      let status = status_of change ran.read.view.status in
      let confirm = confirms ran.read.view.status status in
      elim (Bool-cases (str_eq target.module_name "appointments")) [
        | inl here ↦
            (mutate_appointment-AppointmentRan env sub ran.read.settings target change status
              ran.read.notes confirm ran.taken ran.written tt
              (ground (arith, here, ran.request))).beside
        | inr there ↦
            (mutate_preorder-PreorderRan env sub ran.read.settings target change status
              ran.read.notes confirm ran.taken ran.written tt
              (ground (arith, there, ran.request))).beside
      ]

-- A call that finds nothing to replay and cannot read its request with its guards passed leaves the tables.
unread_changes_nothing :
    (env : Env) (target : Target) (change : Change) (t : Requests)
    → ((read : Read) → read_change env target change t ≡ ok read → ⊥)
    → (answer : View) (t' : Requests) → mutate_body env target change t ≡ ok (answer, t')
    → t' ≡ t
unfolding Replayed
unread_changes_nothing env target change t unread answer t' e =
    elim (mutate_body_runs env target change answer t t' e) [
      | inl replayed ↦ replayed.1
      | inr fresh ↦ absurd (unread fresh.ran.read fresh.ran.reading)
    ]

-- Optimistic locking: where the version that the caller has seen is not the one of the stored request,
-- mutate changes nothing, whoever calls and whatever is asked for. (Before the transaction begin makes
-- sure that the business has a row for its subscription.)
pub mutate_stale :
    (env : Env) (target : Target) (change : Change) (t : Requests) (s : State)
    → state_of target.module_name target.business target.id t ≡ some s
    → version_of (as_sent target.audience change) ≢ s.version
    → (mutate env target change t).1 ≡ ensure_subscription env.now target.business t
unfolding mutate
mutate_stale env target change t s there other =
    let asked = as_sent target.audience change in
    let start = ensure_subscription env.now target.business t in
    let unread : (read : Read) → read_change env target asked start ≡ ok read → ⊥ = λ read reading.
      let ran = read_change-ReadRan env target asked start read reading in
      let stored =
        sym (read-State env target asked start read ran)
        ∙ ensured-State env.now target.business t target.module_name target.business target.id
        ∙ there in
      let same : read.view.version ≡ s.version = ground (arith, stored) in
      other (ran.version ∙ same) in
    atomically-runs (λ (x : Requests). x ≡ start) (mutate_body env target asked) start refl
      (unread_changes_nothing env target asked start unread)

module _ (now business : ℕ) (t : Requests) where
  ensured_view :
      (at b i : ℕ) (m : String)
      → view_of at b i m (ensure_subscription now business t) ≡ view_of at b i m t
  unfolding view_of ensure_subscription
  ensured_view at b i m = ground arith

  ensured_modules : (ensure_subscription now business t).modules ≡ t.modules
  unfolding ensure_subscription
  ensured_modules = ground arith

-- What a customer's call that is let through was early enough for.
in_time :
    (now : ℕ) (cfg : Settings) (v : View) (m : String)
    → too_late now cfg v m ≡ false
    → (contains (next m v.status) "cancelled" ≡ true)
      × (ltb (now + cfg.cancel_before_minutes * minute) v.starts_at ≡ true)
unfolding too_late
in_time now cfg v m early = (ground (arith, early), ground (arith, early))

some_same : {A : Type 0} (a b : A) → some a ≡ some b → a ≡ b
some_same a b e = cc

ok_same : {A : Type 0} (a b : A) → ok a ≡ ok b → a ≡ b
ok_same a b e = cc

-- The cutoff of the customers: from cancel_before_minutes before its start, or where its status cannot be
-- cancelled, a call by the holder of the link or by the account of the customer changes nothing, neither
-- a cancellation nor an edit.
pub mutate_late :
    (env : Env) (target : Target) (change : Change) (t : Requests) (cfg : Settings) (v : View)
    → customer_facing target.audience ≡ true
    → settings_of env.unmarshal (get_module target.business target.module_name t.modules) ≡ ok cfg
    → view_of env.now target.business target.id target.module_name t ≡ some v
    → (contains (next target.module_name v.status) "cancelled" ≡ false)
      ⊎ (ltb (env.now + cfg.cancel_before_minutes * minute) v.starts_at ≡ false)
    → (mutate env target change t).1 ≡ ensure_subscription env.now target.business t
unfolding mutate
mutate_late env target change t cfg v customer set shown late =
    let asked = as_sent target.audience change in
    let start = ensure_subscription env.now target.business t in
    let unread : (read : Read) → read_change env target asked start ≡ ok read → ⊥ = λ read reading.
      let ran = read_change-ReadRan env target asked start read reading in
      let same_view : read.view ≡ v = some_same read.view v (
        sym ran.shown
        ∙ ensured_view env.now target.business t env.now target.business target.id
            target.module_name
        ∙ shown) in
      let same_settings : read.settings ≡ cfg = ok_same read.settings cfg (
        sym ran.settings_read
        ∙ ap
            (λ rows. settings_of env.unmarshal (get_module target.business target.module_name rows))
            (ensured_modules env.now target.business t)
        ∙ set) in
      let (open_still, early) =
        in_time env.now cfg v target.module_name
          (rw (same_view, same_settings) at ran.in_time customer) in
      elim late [
        | inl closed ↦ absurd (ground (arith, open_still, closed))
        | inr over ↦ absurd (ground (arith, early, over))
      ] in
    atomically-runs (λ (x : Requests). x ≡ start) (mutate_body env target asked) start refl
      (unread_changes_nothing env target asked start unread)
