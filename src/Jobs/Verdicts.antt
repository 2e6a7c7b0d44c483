-- ===== src/Jobs/Verdicts.antt =====
-- What becomes of each message that internal/jobs/worker.go reads.
use openlocal_api.Prelude.{
  ℕ, ◌*◌, ◌^◌, ◌≤◌, ◌<◌, ◌≡◌, refl, Option, List, [], ◌∷◌, String, arith, zero, suc, Bool-cases,
  inl, inr, leb, leb→le,
}
use openlocal_api.Api.{Result, ok, err}
use openlocal_api.Text.Runes.{Text}
use openlocal_api.Operations.Tables.{Requests}
use openlocal_api.Jobs.{
  Payload, Message, Verdict, acked, failed, retried, retry_delay, verdict, Job, run_job, process,
}

-- How a job's result and its count of reads decide what becomes of its message.
pub Fits : Message → Result (Unit {0}) → Verdict → Type 0
Fits m (ok u) (acked i) = i ≡ m.id
Fits m (err e) (failed i payload) = (i ≡ m.id) × (payload ≡ m.payload) × (8 ≤ m.read_count)
Fits m (err e) (retried i seconds) =
    (i ≡ m.id) × (m.read_count < 8) × (seconds ≡ 5 * 2 ^ m.read_count) × (seconds ≤ 640)
Fits m _ _ = ⊥

-- The messages of a batch, one after the other, each on the tables that the one before left.
pub data Batch (job : Text → Job) : List Message → Requests → List Verdict → Requests → Type 0 where
  empty : {t : Requests} → Batch job [] t [] t
  handled :
      {m : Message} {ms : List Message} {t t' : Requests} {v : Verdict} {vs : List Verdict}
      → Fits m (job m.payload t).0 v
      → Batch job ms (job m.payload t).1 vs t'
      → Batch job (m ∷ ms) t (v ∷ vs) t'

retry_delay-exact : (n : ℕ) → n < 8 → (retry_delay n ≡ 5 * 2 ^ n) × (retry_delay n ≤ 640)
unfolding retry_delay
retry_delay-exact zero lt = (refl, omega arith)
retry_delay-exact (suc zero) lt = (refl, omega arith)
retry_delay-exact (suc (suc zero)) lt = (refl, omega arith)
retry_delay-exact (suc (suc (suc zero))) lt = (refl, omega arith)
retry_delay-exact (suc (suc (suc (suc zero)))) lt = (refl, omega arith)
retry_delay-exact (suc (suc (suc (suc (suc zero))))) lt = (refl, omega arith)
retry_delay-exact (suc (suc (suc (suc (suc (suc zero)))))) lt = (refl, omega arith)
retry_delay-exact (suc (suc (suc (suc (suc (suc (suc zero))))))) lt = (refl, omega arith)
retry_delay-exact (suc (suc (suc (suc (suc (suc (suc (suc n)))))))) lt = absurd (omega arith)

verdict-Fits : (m : Message) (r : Result (Unit {0})) → Fits m r (verdict m r)
unfolding Fits verdict
verdict-Fits m (ok u) = refl
verdict-Fits m (err e) = elim (Bool-cases (leb 8 m.read_count)) [
  | inl often ↦ rw often (refl, refl, leb→le 8 m.read_count often)
  | inr seldom ↦
      let few : m.read_count < 8 = ground (arith, seldom) in
      let (exact, small) = retry_delay-exact m.read_count few in rw seldom (refl, few, exact, small)
]

-- Every message that is read gets exactly one verdict, in the order of the batch: it is acknowledged if
-- its job succeeded, kept as failed if it did not and has been read eight times or more, and otherwise
-- tried again after 5 seconds doubled with each read, which is at most 640.
pub process-Batch :
    (now : ℕ) (parse : Text → Option Payload) (reconcile : Option (String → Job))
    (ms : List Message) (t : Requests)
    → Batch
        (run_job now parse reconcile)
        ms
        t
        (process now parse reconcile ms t).0
        (process now parse reconcile ms t).1
unfolding process
process-Batch now parse reconcile [] t = empty
process-Batch now parse reconcile (m ∷ ms) t =
    handled (verdict-Fits m _) (process-Batch now parse reconcile ms _)
