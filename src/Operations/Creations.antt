-- ===== src/Operations/Creations.antt =====
-- The whole of create of internal/operations/create.go, where it ends without an error.
use openlocal_api.Prelude.{
  ℕ, ◌≡◌, ◌⊎◌, sym, subst, inl, inr, none, some, [], ◌∷◌, ◌++◌, ◌==◌, any, find, arith, Bool-cases,
  Option-cases,
}
use openlocal_api.Api.{Result, ok, Result-cases}
use openlocal_api.Tx.{atomically}
use openlocal_api.Tx.Runs.{atomically-runs}
use openlocal_api.Entitlements.Access.{Subscription}
use openlocal_api.Operations.Rows.{Business, View, ModuleCustomer}
use openlocal_api.Operations.Tables.{
  Requests, history_row, ensure_subscription, lock_subscription, add_history,
}
use openlocal_api.Operations.Intake.{Settings}
use openlocal_api.Operations.Customer.{CustomerInput, customer}
use openlocal_api.Operations.Booking.{Env}
use openlocal_api.Operations.Changes.{customer_facing, record_of, replay, save_replay}
use openlocal_api.Operations.Mutate.{reads, writes, enqueue_expiration}
use openlocal_api.Operations.Arrivals.{
  Booking, module_of, business_for, pending_limit, intake_for, create_scope,
}
use openlocal_api.Operations.Create.{
  has_phone, upsert_module_customer, Written, create_order, create_access, has_link,
  follow_creation, pass_challenge, admit_request, make_request, replay_target, creation_saved,
  make_body, create,
}

upsert_keeps :
    (id business : ℕ) (name phone : _) (t t' : Requests) (c : ModuleCustomer)
    → upsert_module_customer id business name phone t ≡ ok (c, t')
    → (t'.appointments ≡ t.appointments)
      × (t'.preorders ≡ t.preorders)
      × (t'.history ≡ t.history)
      × (t'.jobs ≡ t.jobs)
unfolding upsert_module_customer
upsert_keeps id business name phone t t' c e =
    elim (Option-cases (find (has_phone business phone) t.customers)) [
      | inl new ↦ (
        ground (arith, new, e),
        ground (arith, new, e),
        ground (arith, new, e),
        ground (arith, new, e),
      )
      | inr (old, found) ↦ (
        ground (arith, found, e),
        ground (arith, found, e),
        ground (arith, found, e),
        ground (arith, found, e),
      )
    ]

-- What is written after the request itself.
pub record Followed (env : Env) (call : Booking) (b : Business) (w : Written) (t t' : Requests)
    : Type 0 where
  pub appointments : t'.appointments ≡ t.appointments
  pub preorders : t'.preorders ≡ t.preorders
  pub history :
      t'.history
      ≡ t.history
        ++ (history_row b.id call.id (module_of call.order) "" "requested" call.actor ∷ [])
  pub jobs :
      t'.jobs ≡ (enqueue_expiration env.now b.id call.id (module_of call.order) w.expiry t).jobs

follow_creation-Followed :
    (env : Env) (call : Booking) (b : Business) (w : Written) (t t' : Requests) (u : Unit {0})
    → follow_creation env call b w t ≡ ok (u, t')
    → Followed env call b w t t'
unfolding follow_creation add_history writes create_access enqueue_expiration
follow_creation-Followed env call b w t t' u e = elim (Bool-cases (has_link call.audience)) [
  | inl linked ↦ elim (Bool-cases (any (λ a. a.public_id == call.id) t.access)) [
    | inl used ↦ absurd (ground (arith, linked, used, e))
    | inr unused ↦ record {
      appointments = ground (arith, linked, unused, e);
      preorders = ground (arith, linked, unused, e);
      history = ground (arith, linked, unused, e);
      jobs = ground (arith, linked, unused, e);
    }
  ]
  | inr unlinked ↦ record {
    appointments = ground (arith, unlinked, e);
    preorders = ground (arith, unlinked, e);
    history = ground (arith, unlinked, e);
    jobs = ground (arith, unlinked, e);
  }
]

-- A creation, with the tables between its steps.
pub record CreationRan (env : Env) (sub : Subscription) (call : Booking) (b : Business)
    (input : CustomerInput) (answer : View) (t t' : Requests) : Type 0 where
  pub cfg : Settings
  pub customer_id : ℕ
  pub w : Written
  pub known : Requests
  pub written : Requests
  pub taken_in :
      intake_for env (customer_facing call.audience) sub (module_of call.order) t ≡ ok cfg
  pub limited : pending_limit env.now b.id (module_of call.order) input.customer_phone t ≡ ok tt
  pub appointments : known.appointments ≡ t.appointments
  pub preorders : known.preorders ≡ t.preorders
  pub history : known.history ≡ t.history
  pub jobs : known.jobs ≡ t.jobs
  pub order : create_order env cfg call b input customer_id call.order known ≡ ok (w, written)
  pub followed : Followed env call b w written t'
  pub answered : record_of env.now b.id call.id (module_of call.order) t' ≡ ok answer

pass_challenge_keeps :
    (call : Booking) (t t' : Requests) (u : Unit {0}) → pass_challenge call t ≡ ok (u, t') → t' ≡ t
unfolding pass_challenge
pass_challenge_keeps call t t' u e = elim (Bool-cases (customer_facing call.audience)) [
  | inr trusted ↦ ground (arith, trusted, e)
  | inl asked ↦ elim (Result-cases call.challenge) [
    | inr (why, failed) ↦ absurd (ground (arith, asked, failed, e))
    | inl (v, passed) ↦ ground (arith, asked, passed, e)
  ]
]

module _ (env : Env) (sub : Subscription) (call : Booking) (b : Business) (input : CustomerInput)
    (answer : View) (t t' : Requests) where
  admit_request-CreationRan :
      admit_request env sub call b input t ≡ ok (answer, t')
      → CreationRan env sub call b input answer t t'
  unfolding admit_request reads
  admit_request-CreationRan e =
      let m = module_of call.order in
      elim (Result-cases (intake_for env (customer_facing call.audience) sub m t)) [
        | inr (why, failed) ↦ absurd (ground (arith, failed, e))
        | inl (cfg, taken_in) ↦
            elim (Result-cases (pending_limit env.now b.id m input.customer_phone t)) [
              | inr (why, failed) ↦ absurd (ground (arith, taken_in, failed, e))
              | inl (v, limited) ↦
                  elim (Result-cases (
                    upsert_module_customer call.customer_id b.id input.customer_name
                      input.customer_phone t)) [
                        | inr (why, failed) ↦ absurd (ground (arith, taken_in, limited, failed, e))
                        | inl ((c, known), kept) ↦
                            elim (Result-cases
                              (create_order env cfg call b input c.id call.order known)) [
                                | inr (why, failed) ↦
                                    absurd (ground (arith, taken_in, limited, kept, failed, e))
                                | inl ((w, written), order) ↦
                                    elim (Result-cases (follow_creation env call b w written)) [
                                      | inr (why, failed) ↦ absurd (
                                          ground (arith, taken_in, limited, kept, order, failed, e))
                                      | inl ((x, last), after) ↦
                                          let same : last ≡ t' =
                                            ground
                                              (arith, taken_in, limited, kept, order, after, e) in
                                          let (rows, preorders, history, jobs) =
                                            upsert_keeps call.customer_id b.id input.customer_name
                                              input.customer_phone t known c kept in
                                          record {
                                            cfg = cfg;
                                            customer_id = c.id;
                                            w = w;
                                            known = known;
                                            written = written;
                                            taken_in = taken_in;
                                            limited = limited;
                                            appointments = rows;
                                            preorders = preorders;
                                            history = history;
                                            jobs = jobs;
                                            order = order;
                                            followed =
                                                follow_creation-Followed env call b w written t' x
                                                  (rw same at after);
                                            answered =
                                                ground
                                                  (arith, taken_in, limited, kept, order, after, e);
                                          }
                                    ]
                              ]
                      ]
            ]
      ]

  make_request-CreationRan :
      make_request env sub call b input t ≡ ok (answer, t')
      → CreationRan env sub call b input answer t t'
  unfolding make_request
  make_request-CreationRan e = elim (Result-cases (pass_challenge call t)) [
    | inr (why, failed) ↦ absurd (ground (arith, failed, e))
    | inl ((u, s), passed) ↦
        let start : s ≡ t = pass_challenge_keeps call t s u passed in
        let passed_t : pass_challenge call t ≡ ok (u, t) = rw start at passed in
        admit_request-CreationRan (ground (arith, passed_t, e))
  ]

-- A call whose key has a saved answer.
pub record Repeated (env : Env) (call : Booking) (b : Business) (answer : View) (t t' : Requests)
    : Type 0 where
  pub used :
      replay env.now
        (replay_target call b)
        (create_scope env.show_uuid call.audience (module_of call.order))
        t.replays
      ≡ ok (some answer)
  pub kept : t' ≡ t

-- A call that made the request, with the tables before the answer is saved.
pub record Opened (env : Env) (call : Booking) (b : Business) (input : CustomerInput)
    (answer : View) (t t' : Requests) : Type 0 where
  pub sub : Subscription
  pub changed : Requests
  pub locked : lock_subscription b.id t ≡ some sub
  pub unused :
      replay env.now
        (replay_target call b)
        (create_scope env.show_uuid call.audience (module_of call.order))
        t.replays
      ≡ ok none
  pub ran : CreationRan env sub call b input answer t changed
  pub saved :
      t'
      ≡ save_replay 201 env.now
          (replay_target call b)
          (create_scope env.show_uuid call.audience (module_of call.order))
          answer
          changed

module _ (env : Env) (call : Booking) (b : Business) (input : CustomerInput) (answer : View)
    (t t' : Requests) where
  pub make_body_runs :
      make_body env call b input t ≡ ok (answer, t')
      → Repeated env call b answer t t' ⊎ Opened env call b input answer t t'
  unfolding make_body reads creation_saved writes
  make_body_runs e = elim (Option-cases (lock_subscription b.id t)) [
    | inl missing ↦ absurd (ground (arith, missing, e))
    | inr (sub, locked) ↦
        let scope = create_scope env.show_uuid call.audience (module_of call.order) in
        elim (Result-cases (replay env.now (replay_target call b) scope t.replays)) [
          | inr (why, failed) ↦ absurd (ground (arith, locked, failed, e))
          | inl (none, unused) ↦ elim (Result-cases (make_request env sub call b input t)) [
            | inr (why, failed) ↦ absurd (ground (arith, locked, unused, failed, e))
            | inl ((a, changed), ran) ↦
                let same : a ≡ answer = ground (arith, locked, unused, ran, e) in
                inr (record {
                  sub = sub;
                  changed = changed;
                  locked = locked;
                  unused = unused;
                  ran =
                      make_request-CreationRan env sub call b input answer t changed
                        (rw same at ran);
                  saved = ground (arith, locked, unused, ran, same, e);
                })
          ]
          | inl (some a, used) ↦
              let same : a ≡ answer = ground (arith, locked, used, e) in
              inl (record { used = rw same at used; kept = ground (arith, locked, used, e) })
        ]
  ]

-- What a call of create leaves: the tables as they were, or with the subscription that begin makes sure
-- of, or with a new request.
pub create_runs {ℓ} :
    (P : Requests → Type ℓ) (env : Env) (call : Booking) (t : Requests)
    → P t
    → ((now business : ℕ) → P (ensure_subscription now business t))
    → ((b : Business) (input : CustomerInput) (answer : View) (t' : Requests)
        → business_for call t ≡ ok b
        → customer call.customer ≡ ok input
        → Opened env call b input answer (ensure_subscription env.now b.id t) t'
        → P t')
    → P (create env call t).1
unfolding create
create_runs P env call t as_was ensured opened = elim (Result-cases (business_for call t)) [
  | inr (why, failed) ↦
      let same : (create env call t).1 ≡ t = ground (arith, failed) in subst P (sym same) as_was
  | inl (b, found) ↦ elim (Result-cases (customer call.customer)) [
    | inr (why, failed) ↦
        let same : (create env call t).1 ≡ t = ground (arith, found, failed) in
        subst P (sym same) as_was
    | inl (input, cleaned) ↦
        let same : create env call t
            ≡ atomically (make_body env call b input) (ensure_subscription env.now b.id t) =
          ground (arith, found, cleaned) in
        subst (λ (r : Result View × Requests). P r.1) (sym same)
          (atomically-runs P (make_body env call b input) (ensure_subscription env.now b.id t)
            (ensured env.now b.id)
            (λ answer t' ran.
              elim (make_body_runs env call b input answer (ensure_subscription env.now b.id t) t'
                ran) [
                  | inl again ↦ rw again.kept (ensured env.now b.id)
                  | inr made ↦ opened b input answer t' found cleaned made
                ]))
  ]
]
