-- ===== src/Jobs.antt =====
-- internal/jobs/worker.go: Process. `parse` is json.Unmarshal of a payload; the queue's statements are
-- the verdicts that the worker gives, in order.
pub mod Verdicts
use openlocal_api.Prelude.{
  ℕ, ◌*◌, ◌^◌, min, Option, none, some, List, [], ◌∷◌, String, str_eq, leb, if◌then◌else◌,
}
use openlocal_api.Api.{Error, plain, Result, ok, err}
use openlocal_api.Text.Runes.{Text}
use openlocal_api.Operations.Tables.{Requests}
use openlocal_api.Operations.Expire.{expire}

pub record Payload : Type 0 where
  pub kind : String
  pub business_id : ℕ
  pub record_id : ℕ
  pub module_name : String
  pub customer_id : String

-- message
pub record Message : Type 0 where
  pub id : ℕ
  pub read_count : ℕ
  pub payload : Text

-- AckJob, FailJob and RetryJob
pub data Verdict : Type 0 where
  acked : (id : ℕ) → Verdict
  failed : (id : ℕ) → (payload : Text) → Verdict
  retried : (id : ℕ) → (seconds : ℕ) → Verdict

unfoldable pub retry_delay : ℕ → ℕ
retry_delay read_count = min 3600 (5 * 2 ^ min read_count 10)

unfoldable pub verdict : Message → Result (Unit {0}) → Verdict
unfolding retry_delay
verdict m (ok u) = acked m.id
verdict m (err e) =
    if leb 8 m.read_count then failed m.id m.payload else retried m.id (retry_delay m.read_count)

-- A job on the tables, with its result.
abbrev pub Job : Type 0
Job = Requests → Result (Unit {0}) × Requests

module _ (now : ℕ) (parse : Text → Option Payload) (reconcile : Option (String → Job)) where
  unfoldable pub run_payload : Payload → Job
  run_payload p t =
      if str_eq p.kind "expire_request"
      then expire now p.business_id p.record_id p.module_name t
      else if str_eq p.kind "reconcile_subscription"
      then elim reconcile [
        | none ↦ (err (plain "billing reconciler unavailable"), t)
        | some f ↦ f p.customer_id t
      ]
      else (err (plain "unknown job type"), t)

  unfoldable pub run_job : Text → Job
  unfolding run_payload
  run_job payload t = elim (parse payload) [
    | none ↦ (err (plain "cannot decode payload"), t)
    | some p ↦ run_payload p t
  ]

  -- The loop of Process over the messages that were read.
  unfoldable pub process : List Message → Requests → List Verdict × Requests
  process [] t = ([], t)
  process (m ∷ messages) t =
      let ran = run_job m.payload t in
      let rest = process messages ran.1 in (verdict m ran.0 ∷ rest.0, rest.1)
