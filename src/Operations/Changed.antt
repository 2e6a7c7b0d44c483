-- ===== src/Operations/Changed.antt =====
-- The whole transaction of mutate of internal/operations/mutate.go, where it ends without an error.
use openlocal_api.Prelude.{
  ◌≡◌, ◌⊎◌, sym, inl, inr, Bool, true, false, none, some, List, [], ◌∷◌, ◌++◌, String, str_eq,
  if◌then◌else◌, arith, Option-cases,
}
use openlocal_api.Api.{ok, Result-cases}
use openlocal_api.Entitlements.Access.{Subscription, consume}
use openlocal_api.Operations.Rows.{View}
use openlocal_api.Operations.Tables.{
  Requests, HistoryRow, lock_subscription, history_row, add_history,
}
use openlocal_api.Operations.Booking.{Env}
use openlocal_api.Operations.Changes.{
  Target, Change, is_editing, record_of, scope_of, replay, save_replay, status_of,
}
use openlocal_api.Operations.Checks.{Read, read_change}
use openlocal_api.Operations.Mutate.{
  reads, writes, consume_unit, confirms, take_unit, write_request, write_history, change_request,
  answer_saved, mutate_body,
}

-- The tables after a confirmation has taken its unit of the quota.
pub record UnitTaken (env : Env) (sub : Subscription) (target : Target) (confirm : Bool)
    (t t' : Requests) : Type 0 where
  pub usage :
      (if confirm then consume env.now sub target.module_name target.id t.usage else ok t.usage)
      ≡ ok t'.usage
  pub appointments : t'.appointments ≡ t.appointments
  pub preorders : t'.preorders ≡ t.preorders
  pub history : t'.history ≡ t.history
  pub subscriptions : t'.subscriptions ≡ t.subscriptions

take_unit-UnitTaken :
    (env : Env) (sub : Subscription) (target : Target) (confirm : Bool) (t t' : Requests)
    (u : Unit {0})
    → take_unit env sub target confirm t ≡ ok (u, t')
    → UnitTaken env sub target confirm t t'
unfolding take_unit consume_unit
take_unit-UnitTaken env sub target false t t' u e = record {
  usage = ground (arith, e);
  appointments = ground (arith, e);
  preorders = ground (arith, e);
  history = ground (arith, e);
  subscriptions = ground (arith, e);
}
take_unit-UnitTaken env sub target true t t' u e =
    elim (Result-cases (consume env.now sub target.module_name target.id t.usage)) [
      | inr (why, failed) ↦ absurd (ground (arith, failed, e))
      | inl (usage, taken) ↦ record {
        usage = ground (arith, taken, e);
        appointments = ground (arith, taken, e);
        preorders = ground (arith, taken, e);
        history = ground (arith, taken, e);
        subscriptions = ground (arith, taken, e);
      }
    ]

-- The history of a request that went from one status to another.
pub history_after : Target → (old new : String) → List HistoryRow → List HistoryRow
history_after target old new rows =
    if str_eq new old
    then rows
    else rows
      ++ (history_row target.business target.id target.module_name old new target.actor ∷ [])

-- A change with the tables between its steps.
pub record ChangeRan (env : Env) (sub : Subscription) (target : Target) (change : Change)
    (answer : View) (t t' : Requests) : Type 0 where
  pub read : Read
  pub taken : Requests
  pub written : Requests
  pub reading : read_change env target change t ≡ ok read
  pub unit_taken :
      UnitTaken env sub target
        (confirms read.view.status (status_of change read.view.status))
        t
        taken
  pub request : write_request env sub target change read taken ≡ ok (tt, written)
  pub history :
      t'.history
      ≡ history_after target read.view.status (status_of change read.view.status) written.history
  pub appointments : t'.appointments ≡ written.appointments
  pub preorders : t'.preorders ≡ written.preorders
  pub usage : t'.usage ≡ written.usage
  pub subscriptions : t'.subscriptions ≡ written.subscriptions
  pub answered : record_of env.now target.business target.id target.module_name t' ≡ ok answer

write_history-after :
    (target : Target) (old new : String) (t t' : Requests) (u : Unit {0})
    → write_history target old new t ≡ ok (u, t')
    → (t'.history ≡ history_after target old new t.history)
      × (t'.appointments ≡ t.appointments)
      × (t'.preorders ≡ t.preorders)
      × (t'.usage ≡ t.usage)
      × (t'.subscriptions ≡ t.subscriptions)
unfolding write_history add_history history_after
write_history-after target old new t t' u e =
    (ground (arith, e), ground (arith, e), ground (arith, e), ground (arith, e), ground (arith, e))

module _ (env : Env) (sub : Subscription) (target : Target) (change : Change) (answer : View)
    (t t' : Requests) where
  pub change_request-ChangeRan :
      change_request env sub target change t ≡ ok (answer, t')
      → ChangeRan env sub target change answer t t'
  unfolding change_request reads
  change_request-ChangeRan e = elim (Result-cases (read_change env target change t)) [
    | inr (why, failed) ↦ absurd (ground (arith, failed, e))
    | inl (read, reading) ↦
        let old = read.view.status in
        let new = status_of change old in
        elim (Result-cases (take_unit env sub target (confirms old new) t)) [
          | inr (why, failed) ↦ absurd (ground (arith, reading, failed, e))
          | inl ((u, taken), took) ↦
              elim (Result-cases (write_request env sub target change read taken)) [
                | inr (why, failed) ↦ absurd (ground (arith, reading, took, failed, e))
                | inl ((v, written), wrote) ↦
                    elim (Result-cases (write_history target old new written)) [
                      | inr (why, failed) ↦ absurd (ground (arith, reading, took, wrote, failed, e))
                      | inl ((w, last), noted) ↦
                          let same : last ≡ t' = ground (arith, reading, took, wrote, noted, e) in
                          let (h, a, p, us, ss) =
                            write_history-after target old new written t' w (rw same at noted) in
                          record {
                            read = read;
                            taken = taken;
                            written = written;
                            reading = reading;
                            unit_taken =
                                take_unit-UnitTaken env sub target (confirms old new) t taken u
                                  took;
                            request = wrote;
                            history = h;
                            appointments = a;
                            preorders = p;
                            usage = us;
                            subscriptions = ss;
                            answered = ground (arith, reading, took, wrote, noted, e);
                          }
                    ]
              ]
        ]
  ]

-- A call that made the change, with the tables before the answer is saved.
pub record Fresh (env : Env) (target : Target) (change : Change) (answer : View) (t t' : Requests)
    : Type 0 where
  pub sub : Subscription
  pub changed : Requests
  pub locked : lock_subscription target.business t ≡ some sub
  pub unused :
      replay env.now target (scope_of env.show_uuid target (is_editing change)) t.replays ≡ ok none
  pub ran : ChangeRan env sub target change answer t changed
  pub saved :
      t'
      ≡ save_replay 200 env.now target
          (scope_of env.show_uuid target (is_editing change))
          answer
          changed

-- A call that was answered before.
unfoldable pub Replayed : Env → Target → Change → View → Requests → Requests → Type 0
Replayed env target change answer t t' =
    (replay env.now target (scope_of env.show_uuid target (is_editing change)) t.replays
      ≡ ok (some answer))
    × (t' ≡ t)

module _ (env : Env) (target : Target) (change : Change) (answer : View) (t t' : Requests) where
  pub mutate_body_runs :
      mutate_body env target change t ≡ ok (answer, t')
      → Replayed env target change answer t t' ⊎ Fresh env target change answer t t'
  unfolding mutate_body reads answer_saved writes Replayed
  mutate_body_runs e = elim (Option-cases (lock_subscription target.business t)) [
    | inl missing ↦ absurd (ground (arith, missing, e))
    | inr (sub, locked) ↦
        let scope = scope_of env.show_uuid target (is_editing change) in
        elim (Result-cases (replay env.now target scope t.replays)) [
          | inr (why, failed) ↦ absurd (ground (arith, locked, failed, e))
          | inl (none, unused) ↦ elim (Result-cases (change_request env sub target change t)) [
            | inr (why, failed) ↦ absurd (ground (arith, locked, unused, failed, e))
            | inl ((a, changed), ran) ↦
                let same : a ≡ answer = ground (arith, locked, unused, ran, e) in
                inr (record {
                  sub = sub;
                  changed = changed;
                  locked = locked;
                  unused = unused;
                  ran =
                      change_request-ChangeRan env sub target change answer t changed
                        (rw same at ran);
                  saved = ground (arith, locked, unused, ran, same, e);
                })
          ]
          | inl (some a, used) ↦
              let same : a ≡ answer = ground (arith, locked, used, e) in
              let kept : t ≡ t' = ground (arith, locked, used, e) in inl (rw same at used, sym kept)
        ]
  ]
