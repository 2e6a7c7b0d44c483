-- ===== src/Operations/Openings.antt =====
-- What create of internal/operations/create.go promises of a request that it accepts, and pendingLimit.
use openlocal_api.Prelude.{
  ℕ, suc, ◌+◌, ◌*◌, ◌≤◌, ◌<◌, ◌≡◌, ◌⊎◌, ap, ◌∙◌, inl, inr, some, List, [], ◌∷◌, ◌++◌, String, ltb,
  arith, Bool-cases,
}
use openlocal_api.Api.{ok, Result-cases}
use openlocal_api.Text.Runes.{Text}
use openlocal_api.Tx.{atomically}
use openlocal_api.Tx.Runs.{atomically_ok}
use openlocal_api.Scheduling.Calendar.{minute}
use openlocal_api.Operations.States.{pending_expiration}
use openlocal_api.Operations.Rows.{Business, View, ExpireJob}
use openlocal_api.Operations.Tables.{
  Appointment, Preorder, Requests, history_row, ensure_subscription,
}
use openlocal_api.Operations.Intake.{Settings}
use openlocal_api.Operations.Customer.{CustomerInput, customer}
use openlocal_api.Operations.Booking.{Env}
use openlocal_api.Operations.Changes.{save_replay, view_of}
use openlocal_api.Operations.Landed.{record_of-view_of}
use openlocal_api.Operations.Mutate.{delay_until, enqueue_expiration}
use openlocal_api.Operations.Arrivals.{
  Order, visit, basket, module_of, Booking, business_for, pending_appointments, pending_preorders,
  pending_requests, pending_limit,
}
use openlocal_api.Operations.Create.{Written, create_order, make_body, create}
use openlocal_api.Operations.Created.{create_visit-VisitRan, create_basket-BasketRan}
use openlocal_api.Operations.Creations.{Repeated, Opened, make_body_runs}
use openlocal_api.Operations.Newcomers.{Added, visit_added, basket_added, opened-Added}

-- What was written with the request: its history starts, and a job is queued that will expire it.
record Noted (env : Env) (cfg : Settings) (call : Booking) (w : Written) (t t' : Requests)
    : Type 0 where
  pub history : t'.history ≡ t.history
  pub jobs : t'.jobs ≡ t.jobs
  pub in_time : w.expiry ≤ env.now + cfg.pending_ttl_minutes * minute

expiration_bounded :
    (now start minutes : ℕ) → pending_expiration now start minutes ≤ now + minutes * minute
unfolding pending_expiration
expiration_bounded now start minutes = elim (Bool-cases (ltb start (now + minutes * minute))) [
  | inl sooner ↦ rw sooner (ground (arith, sooner))
  | inr later ↦ rw later (omega arith)
]

create_order-Noted :
    (env : Env) (cfg : Settings) (call : Booking) (b : Business) (input : CustomerInput)
    (customer_id : ℕ) (order : Order) (w : Written) (t t' : Requests)
    → create_order env cfg call b input customer_id order t ≡ ok (w, t')
    → Noted env cfg call w t t'
unfolding create_order
create_order-Noted env cfg call b input customer_id (visit service resource start) w t t' e =
    let ran =
      create_visit-VisitRan env cfg call b input customer_id w t t' service resource start e in
    record {
      history = ran.history;
      jobs = ran.jobs;
      in_time = rw ran.expiry (expiration_bounded env.now start cfg.pending_ttl_minutes);
    }
create_order-Noted env cfg call b input customer_id (basket window items) w t t' e =
    let ran = create_basket-BasketRan env cfg call b input customer_id w t t' window items e in
    record {
      history = ran.history;
      jobs = ran.jobs;
      in_time =
          rw ran.expiry (expiration_bounded env.now ran.row.starts_at cfg.pending_ttl_minutes);
    }

-- The job that will expire the request.
abbrev pub expiry_job : Env → Booking → Business → ℕ → ExpireJob
expiry_job env call b expiry = record {
  business_id = b.id;
  record_id = call.id;
  module_name = module_of call.order;
  delay_seconds = delay_until env.now expiry;
}

-- An accepted request, for the business that was found and the customer in the normal form: one row of
-- its table, at the end, in the first state and under a new id; the first row of its history; and the job
-- of its expiry, at most pending_ttl_minutes away. The customer had fewer than three requests that were
-- waiting, and the business fewer than five hundred. The answer shows the row.
pub record Opening (env : Env) (call : Booking) (b : Business) (input : CustomerInput)
    (answer : View) (t t' : Requests) : Type 0 where
  pub cfg : Settings
  pub expiry : ℕ
  pub added : Added b.id call.id t t' (module_of call.order)
  pub history :
      t'.history
      ≡ t.history
        ++ (history_row b.id call.id (module_of call.order) "" "requested" call.actor ∷ [])
  pub jobs : t'.jobs ≡ t.jobs ++ (expiry_job env call b expiry ∷ [])
  pub in_time : expiry ≤ env.now + cfg.pending_ttl_minutes * minute
  pub few : pending_requests env.now b.id (module_of call.order) input.customer_phone t < 3
  pub few_in_all : pending_requests env.now b.id (module_of call.order) [] t < 500
  pub answered : view_of env.now b.id call.id (module_of call.order) t' ≡ some answer

limit_passed :
    (now business : ℕ) (m : String) (phone : Text) (t : Requests) (u : Unit {0})
    → pending_limit now business m phone t ≡ ok u
    → (pending_requests now business m phone t < 3) × (pending_requests now business m [] t < 500)
unfolding pending_limit
limit_passed now business m phone t u e = (ground (arith, e), ground (arith, e))

module _ (env : Env) (call : Booking) (b : Business) (input : CustomerInput) (answer : View)
    (t t' : Requests) (opened : Opened env call b input answer t t') where
  opened-Opening : Opening env call b input answer t t'
  unfolding save_replay enqueue_expiration view_of
  opened-Opening =
      let ran = opened.ran in
      let noted =
        create_order-Noted env ran.cfg call b input ran.customer_id call.order ran.w ran.known
          ran.written ran.order in
      let (few, few_in_all) =
        limit_passed env.now b.id (module_of call.order) input.customer_phone t tt ran.limited in
      record {
        cfg = ran.cfg;
        expiry = ran.w.expiry;
        added = opened-Added env call b input answer t t' opened;
        history =
            ap (λ (x : Requests). x.history) opened.saved
            ∙ ran.followed.history
            ∙ ap
                (λ rows.
                  rows
                  ++ (history_row b.id call.id (module_of call.order) "" "requested" call.actor
                      ∷ []))
                (noted.history ∙ ran.history);
        jobs =
            ap (λ (x : Requests). x.jobs) opened.saved
            ∙ ran.followed.jobs
            ∙ ap (λ rows. rows ++ (expiry_job env call b ran.w.expiry ∷ []))
                (noted.jobs ∙ ran.jobs);
        in_time = noted.in_time;
        few = few;
        few_in_all = few_in_all;
        answered = rw opened.saved (
            record_of-view_of env.now b.id call.id (module_of call.order) opened.changed answer
              ran.answered);
      }

pub create-Opening :
    (env : Env) (call : Booking) (t t' : Requests) (answer : View)
    → create env call t ≡ (ok answer, t')
    → (b : Business) × (input : CustomerInput) × (business_for call t ≡ ok b)
      × (customer call.customer ≡ ok input)
      × (Repeated env call b answer (ensure_subscription env.now b.id t) t'
          ⊎ Opening env call b input answer (ensure_subscription env.now b.id t) t')
unfolding create
create-Opening env call t t' answer e = elim (Result-cases (business_for call t)) [
  | inr (why, failed) ↦ absurd (ground (arith, failed, e))
  | inl (b, found) ↦ elim (Result-cases (customer call.customer)) [
    | inr (why, failed) ↦ absurd (ground (arith, found, failed, e))
    | inl (input, cleaned) ↦
        let start = ensure_subscription env.now b.id t in
        let body : atomically (make_body env call b input) start ≡ (ok answer, t') =
          ground (arith, found, cleaned, e) in
        (
          b,
          input,
          found,
          cleaned,
          elim (make_body_runs env call b input answer start t'
              (atomically_ok (make_body env call b input) start answer t' body)) [
                | inl again ↦ inl again
                | inr opened ↦ inr (opened-Opening env call b input answer start t' opened)
              ],
        )
  ]
]

-- One row more is at most one request more.
pending_appointments_append :
    (now business : ℕ) (phone : Text) (rows : List Appointment) (a : Appointment)
    → pending_appointments now business phone (rows ++ (a ∷ []))
      ≤ suc (pending_appointments now business phone rows)
unfolding pending_appointments
pending_appointments_append now business phone [] a = ground arith
pending_appointments_append now business phone (x ∷ rows) a =
    ground (arith, pending_appointments_append now business phone rows a)

pending_preorders_append :
    (now business : ℕ) (phone : Text) (rows : List Preorder) (p : Preorder)
    → pending_preorders now business phone (rows ++ (p ∷ []))
      ≤ suc (pending_preorders now business phone rows)
unfolding pending_preorders
pending_preorders_append now business phone [] p = ground arith
pending_preorders_append now business phone (x ∷ rows) p =
    ground (arith, pending_preorders_append now business phone rows p)

Added-pending :
    (b id : ℕ) (m : String) (now business : ℕ) (phone : Text) (t t' : Requests)
    → Added b id t t' m
    → pending_requests now business m phone t' ≤ suc (pending_requests now business m phone t)
unfolding pending_requests
Added-pending b id m now business phone t t' (visit_added row start unused rows others) =
    rw rows (pending_appointments_append now business phone t.appointments row)
Added-pending b id m now business phone t t' (basket_added row start unused rows others) =
    rw rows (pending_preorders_append now business phone t.preorders row)

Opening-bounded :
    (env : Env) (call : Booking) (b : Business) (input : CustomerInput) (answer : View)
    (t t' : Requests)
    → Opening env call b input answer t t'
    → (pending_requests env.now b.id (module_of call.order) input.customer_phone t' ≤ 3)
      × (pending_requests env.now b.id (module_of call.order) [] t' ≤ 500)
Opening-bounded env call b input answer t t' opening =
    let m = module_of call.order in
    (
      omega (
        arith,
        opening.few,
        Added-pending b.id call.id m env.now b.id input.customer_phone t t' opening.added,
      ),
      omega (
        arith,
        opening.few_in_all,
        Added-pending b.id call.id m env.now b.id [] t t' opening.added,
      ),
    )

-- The limits that pendingLimit is there for: after an accepted call of create that is no replay, the
-- customer, known by the phone in its normal form, has at most three requests of the module that wait for
-- a confirmation at the business, and the business at most five hundred.
pub create_bounded :
    (env : Env) (call : Booking) (t t' : Requests) (answer : View)
    → create env call t ≡ (ok answer, t')
    → (b : Business) × (input : CustomerInput) × (business_for call t ≡ ok b)
      × (customer call.customer ≡ ok input)
      × ((t' ≡ ensure_subscription env.now b.id t)
          ⊎ ((pending_requests env.now b.id (module_of call.order) input.customer_phone t' ≤ 3)
              × (pending_requests env.now b.id (module_of call.order) [] t' ≤ 500)))
create_bounded env call t t' answer e =
    let (b, input, found, cleaned, ran) = create-Opening env call t t' answer e in
    (
      b,
      input,
      found,
      cleaned,
      elim ran [
        | inl again ↦ inl again.kept
        | inr opening ↦ inr (
            Opening-bounded env call b input answer (ensure_subscription env.now b.id t) t' opening)
      ],
    )
