-- ===== src/Operations/Create.antt =====
-- create of internal/operations/create.go: a customer asks for an appointment or a preorder, in one
-- transaction, with pendingLimit, UpsertModuleCustomer, createAccess and the two INSERTs. The caller's
-- access, the decoded body, the answer of the challenge and the generated identifiers are arguments.
use openlocal_api.Prelude.{
  ℕ, suc, Bool, true, false, ◌&&◌, ◌||◌, none, some, List, [], ◌∷◌, ◌++◌, ◌==◌, ltb, any, find,
  replace_first, if◌then◌else◌,
}
use openlocal_api.Api.{Error, Result, ok, err}
use openlocal_api.Text.Runes.{Text, text_eq}
use openlocal_api.Tx.{Tx, pure, lift, gets, one, guard, ◌>>=◌, ◌>>◌, atomically}
use openlocal_api.Entitlements.Access.{Subscription}
use openlocal_api.Operations.States.{pending_expiration}
use openlocal_api.Operations.Rows.{
  Business, Service, View, ModuleCustomer, PickupWindow, PreorderItem,
}
use openlocal_api.Operations.Tables.{
  Appointment, Preorder, Requests, ensure_subscription, lock_subscription, add_history,
}
use openlocal_api.Operations.Expire.{bad}
use openlocal_api.Operations.Intake.{Settings}
use openlocal_api.Operations.Customer.{CustomerInput, customer}
use openlocal_api.Operations.Booking.{Env, check_appointment, check_pickup}
use openlocal_api.Operations.Changes.{
  Audience, member, public, personal, customer_facing, Target, record_of, replay, save_replay,
}
use openlocal_api.Operations.Checks.{get_service}
use openlocal_api.Operations.Mutate.{reads, writes, enqueue_expiration}
use openlocal_api.Operations.Basket.{
  ItemInput, Line, price_items, order_total, no_inputs, count_inputs,
}
use openlocal_api.Operations.Arrivals.{
  Order, visit, basket, module_of, Booking, business_for, pending_limit, is_unavailable,
  service_or_error, intake_for, create_scope,
}

abbrev pub has_phone : ℕ → Text → ModuleCustomer → Bool
has_phone business phone c = c.business_id == business && text_eq c.phone phone

-- UpsertModuleCustomer
unfoldable pub upsert_module_customer : ℕ → ℕ → (name phone : Text) → Tx Requests ModuleCustomer
upsert_module_customer id business name phone t =
    elim (find (has_phone business phone) t.customers) [
      | some old ↦
          (let new : ModuleCustomer = record old { name = name } in
            ok (
              new,
              record t { customers = replace_first (has_phone business phone) new t.customers },
            ))
      | none ↦
          (let new : ModuleCustomer = record {
            id = id;
            business_id = business;
            phone = phone;
            name = name;
          } in
            ok (new, record t { customers = t.customers ++ (new ∷ []) }))
    ]

-- CreateAppointment: the id is the primary key, the status and the version have their defaults
unfoldable pub create_appointment : Appointment → Tx Requests (Unit {0})
create_appointment a t =
    if any (λ x. x.id == a.id) t.appointments
    then err Error.unique_violation
    else ok (tt, record t { appointments = t.appointments ++ (a ∷ []) })

-- CreatePreorder
unfoldable pub create_preorder : Preorder → Tx Requests (Unit {0})
create_preorder p t =
    if any (λ x. x.id == p.id) t.preorders
    then err Error.unique_violation
    else ok (tt, record t { preorders = t.preorders ++ (p ∷ []) })

unfoldable pub item_rows : (ℕ → ℕ) → ℕ → ℕ → ℕ → List Line → List PreorderItem
item_rows item_id business preorder n [] = []
item_rows item_id business preorder n (l ∷ ls) =
    record {
      id = item_id n;
      business_id = business;
      preorder_id = preorder;
      variant_id = l.variant_id;
      quantity = l.quantity;
      unit_price = l.unit_price;
      total = l.total;
      final_quantity = none;
    }
    ∷ item_rows item_id business preorder (suc n) ls

-- The row of a new appointment.
abbrev pub new_appointment :
    Booking
    → Business
    → CustomerInput
    → (customer_id : ℕ) → Service
    → (resource start finish expiry : ℕ) → Appointment
new_appointment call b input customer_id svc resource start finish expiry = record {
  id = call.id;
  business_id = b.id;
  customer_id = customer_id;
  service_id = svc.id;
  resource_id = resource;
  customer_name = input.customer_name;
  customer_phone = input.customer_phone;
  notes = input.notes;
  service_name = svc.name;
  duration_minutes = svc.duration_minutes;
  buffer_minutes = svc.buffer_minutes;
  starts_at = start;
  ends_at = finish;
  timezone = b.timezone;
  status = "requested";
  version = 1;
  expires_at = expiry;
  confirmed_at = none;
}

abbrev pub new_preorder :
    Booking
    → Business
    → CustomerInput
    → (customer_id : ℕ) → PickupWindow
    → (expiry total : ℕ) → Preorder
new_preorder call b input customer_id w expiry total = record {
  id = call.id;
  business_id = b.id;
  customer_id = customer_id;
  pickup_window_id = w.id;
  customer_name = input.customer_name;
  customer_phone = input.customer_phone;
  notes = input.notes;
  starts_at = w.starts_at;
  ends_at = w.ends_at;
  timezone = b.timezone;
  status = "requested";
  version = 1;
  expires_at = expiry;
  confirmed_at = none;
  estimated_total = total;
  final_total = none;
}

-- A request that was written: when it ends and when it expires.
pub record Written : Type 0 where
  pub ends : ℕ
  pub expiry : ℕ

-- The branch of create for appointments.
unfoldable pub create_visit :
    Env
    → Settings
    → Booking
    → Business
    → CustomerInput
    → (customer_id service resource start : ℕ) → Tx Requests Written
create_visit env cfg call b input customer_id service resource start = do
  svc ← reads (λ t. service_or_error (get_service b.id service t.services))
  guard (is_unavailable (customer_facing call.audience) svc) (bad "service is unavailable")
  finish ← reads (check_appointment env b.id cfg svc b.timezone resource 0 start)
  let expiry = pending_expiration env.now start cfg.pending_ttl_minutes
  create_appointment (new_appointment call b input customer_id svc resource start finish expiry)
  pure (record { ends = finish; expiry = expiry })

-- The branch for preorders.
unfoldable pub create_basket :
    Env
    → Settings
    → Booking
    → Business
    → CustomerInput
    → (customer_id window : ℕ) → List ItemInput
    → Tx Requests Written
create_basket env cfg call b input customer_id window items = do
  guard (no_inputs items || ltb 50 (count_inputs items)) (bad "between 1 and 50 items required")
  w ← reads (check_pickup env b.id cfg b.timezone window 0)
  priced ← reads (λ t. price_items env.amount_of cfg.variant_rules b.id t.variants items)
  total ← lift (order_total priced)
  let expiry = pending_expiration env.now w.starts_at cfg.pending_ttl_minutes
  create_preorder (new_preorder call b input customer_id w expiry total)
  writes (λ t. record t { items = t.items ++ item_rows call.item_id b.id call.id 0 priced })
  pure (record { ends = w.ends_at; expiry = expiry })

-- The request itself.
unfoldable pub create_order :
    Env
    → Settings
    → Booking
    → Business
    → CustomerInput
    → (customer_id : ℕ) → Order
    → Tx Requests Written
create_order env cfg call b input customer_id (visit service resource start) =
    create_visit env cfg call b input customer_id service resource start
create_order env cfg call b input customer_id (basket window items) =
    create_basket env cfg call b input customer_id window items

-- createAccess: the link by which the customer can reach the request, for thirty days after its end; the
-- request's id is the primary key
unfoldable pub create_access : Env → Booking → Business → ℕ → Tx Requests (Unit {0})
create_access env call b ends t =
    if any (λ a. a.public_id == call.id) t.access
    then err Error.unique_violation
    else ok (
      tt,
      record t {
        access =
            t.access
            ++ (record {
              public_id = call.id;
              business_id = b.id;
              module_name = module_of call.order;
              token_hash = call.token_hash;
              expires_at = env.add_thirty_days ends;
            }
                ∷ []);
      },
    )

-- An account reaches its requests without a link.
abbrev pub has_link : Audience → Bool
has_link member = true
has_link public = true
has_link (personal user) = false

-- What is written after the request: its history, its link and the job of its expiry.
unfoldable pub follow_creation : Env → Booking → Business → Written → Tx Requests (Unit {0})
follow_creation env call b w = do
  add_history b.id call.id (module_of call.order) "" "requested" call.actor
  if has_link call.audience then create_access env call b w.ends else pure tt
  writes (enqueue_expiration env.now b.id call.id (module_of call.order) w.expiry)

-- The transaction after the challenge.
unfoldable pub admit_request :
    Env → Subscription → Booking → Business → CustomerInput → Tx Requests View
admit_request env sub call b input = do
  cfg ← reads (intake_for env (customer_facing call.audience) sub (module_of call.order))
  reads (pending_limit env.now b.id (module_of call.order) input.customer_phone)
  c ← upsert_module_customer call.customer_id b.id input.customer_name input.customer_phone
  w ← create_order env cfg call b input c.id call.order
  follow_creation env call b w
  reads (record_of env.now b.id call.id (module_of call.order))

-- A customer is asked for the answer of a challenge.
unfoldable pub pass_challenge : Booking → Tx Requests (Unit {0})
pass_challenge call = if customer_facing call.audience then lift call.challenge else pure tt

-- The transaction after the replay.
unfoldable pub make_request :
    Env → Subscription → Booking → Business → CustomerInput → Tx Requests View
make_request env sub call b input = do pass_challenge call; admit_request env sub call b input

-- What replay and saveReplay read of a call.
abbrev pub replay_target : Booking → Business → Target
replay_target call b = record {
  business = b.id;
  id = call.id;
  module_name = module_of call.order;
  actor = call.actor;
  audience = call.audience;
  key = call.key;
  digest = call.digest;
}

unfoldable pub creation_saved : Env → Booking → Business → View → Tx Requests View
creation_saved env call b answer = do
  writes (
      save_replay 201 env.now (replay_target call b)
        (create_scope env.show_uuid call.audience (module_of call.order)) answer)
  pure answer

unfoldable pub make_body : Env → Booking → Business → CustomerInput → Tx Requests View
make_body env call b input = do
  found ← gets (lock_subscription b.id)
  sub ← one found
  let scope = create_scope env.show_uuid call.audience (module_of call.order)
  saved ← reads (λ t. replay env.now (replay_target call b) scope t.replays)
  elim saved [
    | some answer ↦ pure answer
    | none ↦ (do answer ← make_request env sub call b input; creation_saved env call b answer)
  ]

-- create: the business and the customer are checked before the transaction.
unfoldable pub create : Env → Booking → Requests → Result View × Requests
create env call t = elim (business_for call t) [
  | err e ↦ (err e, t)
  | ok b ↦ elim (customer call.customer) [
    | err e ↦ (err e, t)
    | ok input ↦ atomically (make_body env call b input) (ensure_subscription env.now b.id t)
  ]
]
