-- ===== src/Operations/Journal.antt =====
-- What mutate of internal/operations/mutate.go notes of a change beside the request: a row of its history,
-- and a unit of the quota.
use openlocal_api.Prelude.{suc, ◌≡◌, ◌⊎◌, sym, ap, ◌∙◌, inl, inr, some, if◌then◌else◌, arith}
use openlocal_api.Api.{ok}
use openlocal_api.Entitlements.Access.{Subscription, consume}
use openlocal_api.Operations.Rows.{View}
use openlocal_api.Operations.Tables.{Requests, ensure_subscription, lock_subscription}
use openlocal_api.Tx.Runs.{atomically_ok}
use openlocal_api.Operations.Booking.{Env}
use openlocal_api.Operations.Changes.{
  Target, Change, as_sent, version_of, status_of, save_replay, view_of,
}
use openlocal_api.Operations.Landed.{ChangeRan-State, record_of-view_of}
use openlocal_api.Operations.Mutate.{confirms, mutate_body, mutate}
use openlocal_api.Operations.Readings.{read_change-ReadRan}
use openlocal_api.Operations.Changed.{history_after, ChangeRan, Replayed, mutate_body_runs}
use openlocal_api.Operations.Machine.{State, state_of, ensured-State}
use openlocal_api.Operations.Guards.{read-State, written-Beside}

-- An accepted change, from the request as it was stored: the version that the caller has seen was that of
-- the request; its history gets the step from the old status to the new, by the caller, if they differ,
-- and nothing else; a unit of the quota is taken for a confirmation, by Consume, and for nothing else;
-- its row has the status of the change and the next version, and the answer shows it.
pub record Journaled (env : Env) (target : Target) (change : Change) (answer : View)
    (t t' : Requests) : Type 0 where
  pub before : State
  pub sub : Subscription
  pub stored : state_of target.module_name target.business target.id t ≡ some before
  pub seen : version_of change ≡ before.version
  pub subscribed :
      lock_subscription target.business (ensure_subscription env.now target.business t) ≡ some sub
  pub history :
      t'.history ≡ history_after target before.status (status_of change before.status) t.history
  pub usage :
      (if confirms before.status (status_of change before.status)
        then consume env.now sub target.module_name target.id t.usage
        else ok t.usage)
      ≡ ok t'.usage
  pub landed :
      state_of target.module_name target.business target.id t'
      ≡ some (record { status = status_of change before.status; version = suc before.version })
  pub answered : view_of env.now target.business target.id target.module_name t' ≡ some answer

module _ (now business : _) (t : Requests) where
  ensured_history : (ensure_subscription now business t).history ≡ t.history
  unfolding ensure_subscription
  ensured_history = ground arith

  ensured_usage : (ensure_subscription now business t).usage ≡ t.usage
  unfolding ensure_subscription
  ensured_usage = ground arith

module _ (env : Env) (sub : Subscription) (target : Target) (change : Change) (answer : View)
    (t t' : Requests) (ran : ChangeRan env sub target change answer t t') where
  changed_history :
      t'.history
      ≡ history_after target ran.read.view.status (status_of change ran.read.view.status) t.history
  changed_history =
      ran.history
      ∙ ap (history_after target ran.read.view.status (status_of change ran.read.view.status))
          ((written-Beside env sub target change answer t t' ran).history ∙ ran.unit_taken.history)

  changed_usage :
      (if confirms ran.read.view.status (status_of change ran.read.view.status)
        then consume env.now sub target.module_name target.id t.usage
        else ok t.usage)
      ≡ ok t'.usage
  changed_usage =
      ran.unit_taken.usage
      ∙ ap ok (sym (ran.usage ∙ (written-Beside env sub target change answer t t' ran).usage))

-- What an accepted call has done: either its key has a saved answer, which it gave again, and it wrote
-- nothing but the subscription that begin makes sure of; or the version it was sent was that of the stored
-- request, whose row now has the status of the change and the next version and is what the answer shows,
-- the history got the step if the status changed, and a unit of the quota was taken if it confirms.
pub mutate-Journaled :
    (env : Env) (target : Target) (change : Change) (t t' : Requests) (answer : View)
    → mutate env target change t ≡ (ok answer, t')
    → Replayed env target
        (as_sent target.audience change)
        answer
        (ensure_subscription env.now target.business t)
        t'
      ⊎ Journaled env target (as_sent target.audience change) answer t t'
unfolding mutate
mutate-Journaled env target change t t' answer e =
    let asked = as_sent target.audience change in
    let start = ensure_subscription env.now target.business t in
    elim (mutate_body_runs env target asked answer start t'
      (atomically_ok (mutate_body env target asked) start answer t' e)) [
        | inl replayed ↦ inl replayed
        | inr fresh ↦
            let ran = fresh.ran in
            let reading = read_change-ReadRan env target asked start ran.read ran.reading in
            inr (record {
              before = record { status = ran.read.view.status; version = ran.read.view.version };
              sub = fresh.sub;
              stored =
                  sym (
                    ensured-State env.now target.business t target.module_name target.business
                      target.id)
                  ∙ read-State env target asked start ran.read reading;
              seen = reading.version;
              subscribed = fresh.locked;
              landed = rw fresh.saved (
                  unfold save_replay state_of in
                  ChangeRan-State env fresh.sub target asked answer start fresh.changed ran);
              answered = rw fresh.saved (
                  unfold save_replay view_of in
                  record_of-view_of env.now target.business target.id target.module_name
                    fresh.changed answer ran.answered);
              history =
                  unfold save_replay in
                  ap (λ (x : Requests). x.history) fresh.saved
                  ∙ changed_history env fresh.sub target asked answer start fresh.changed ran
                  ∙ ap
                      (history_after target ran.read.view.status
                        (status_of asked ran.read.view.status))
                      (ensured_history env.now target.business t);
              usage =
                  unfold save_replay in
                  rw (← ensured_usage env.now target.business t) (
                    changed_usage env fresh.sub target asked answer start fresh.changed ran
                    ∙ ap ok (sym (ap (λ (x : Requests). x.usage) fresh.saved)));
            })
      ]
