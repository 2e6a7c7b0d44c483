-- ===== src/Operations/Mutate.antt =====
-- mutate of internal/operations/mutate.go: a transition or an edit of a request, in one transaction.
-- The caller's access and the decoded body are arguments (Target and Change).
use openlocal_api.Prelude.{
  ℕ, ◌+◌, ◌-◌, ◌/◌, Bool, ◌&&◌, ◌||◌, Option, none, some, List, [], ◌∷◌, ◌++◌, String, str_eq, ◌==◌,
  any, contains_id, if◌then◌else◌,
}
use openlocal_api.Api.{Result, ok, err}
use openlocal_api.Text.Runes.{Text}
use openlocal_api.Tx.{Tx, pure, lift, gets, one, guard, ◌>>=◌, ◌>>◌, atomically}
use openlocal_api.Entitlements.Access.{Subscription, consume}
use openlocal_api.Operations.States.{pending_expiration}
use openlocal_api.Operations.Rows.{View, RequestAccess, PreorderItem}
use openlocal_api.Operations.Tables.{
  Appointment, Preorder, Requests, ensure_subscription, lock_subscription, get_appointment,
  get_preorder, update_appointment, update_preorder, add_history,
}
use openlocal_api.Operations.Expire.{bad}
use openlocal_api.Operations.Intake.{Settings}
use openlocal_api.Operations.Booking.{Env}
use openlocal_api.Operations.Checks.{
  moves_appointment, names_preorder, move_appointment, new_end, moves_preorder, names_appointment,
  move_preorder, new_window, final_total_of, Read, read_change,
}
use openlocal_api.Operations.Changes.{
  Target, EditItem, Change, transition, editing, as_sent, is_editing, record_of, scope_of, replay,
  save_replay, positive_quantity, status_of,
}

-- A function of the tables that can fail, in a transaction.
unfoldable pub reads : {A : Type 0} → (Requests → Result A) → Tx Requests A
reads f t = lift (f t) t

-- A change of the tables.
unfoldable pub writes : (Requests → Requests) → Tx Requests (Unit {0})
writes f t = ok (tt, f t)

-- Consume, where the request is confirmed
unfoldable pub consume_unit : Env → Subscription → String → ℕ → Tx Requests (Unit {0})
consume_unit env sub module_name id t = elim (consume env.now sub module_name id t.usage) [
  | err e ↦ err e
  | ok usage ↦ ok (tt, record t { usage = usage })
]

-- The seconds until the time, 0 where they would be negative
unfoldable pub delay_until : ℕ → ℕ → ℕ
delay_until now at = (at - now) / 1000000000 + 1 - (now - at) / 1000000000

-- enqueueExpiration
unfoldable pub enqueue_expiration : ℕ → ℕ → ℕ → String → ℕ → Requests → Requests
enqueue_expiration now business id module_name at t = record t {
  jobs =
      t.jobs
      ++ (record {
        business_id = business;
        record_id = id;
        module_name = module_name;
        delay_seconds = delay_until now at;
      }
          ∷ []);
}

-- ExtendRequestAccess
unfoldable pub extend_request_access : ℕ → ℕ → List RequestAccess → List RequestAccess
extend_request_access id at [] = []
extend_request_access id at (a ∷ rest) =
    (if a.public_id == id then record a { expires_at = at } else a)
    ∷ extend_request_access id at rest

-- The expiry and the access of a request that was moved.
unfoldable pub follow_move : Env → ℕ → ℕ → String → (expires ends : ℕ) → Requests → Requests
follow_move env business id module_name expires ends t =
    let queued = enqueue_expiration env.now business id module_name expires t in
    record queued { access = extend_request_access id (env.add_thirty_days ends) queued.access }

-- The row that is written.
unfoldable pub written_appointment :
    ℕ
    → Settings
    → (status : String) → (notes : Text) → (confirm moved : Bool) → Appointment
    → Appointment
written_appointment now cfg status notes confirm moved a = record a {
  notes = notes;
  status = status;
  confirmed_at = if confirm then some now else a.confirmed_at;
  expires_at =
      if moved && str_eq status "requested"
      then pending_expiration now a.starts_at cfg.pending_ttl_minutes
      else a.expires_at;
}

unfoldable pub save_appointment : Env → Target → Bool → Appointment → Tx Requests (Unit {0})
save_appointment env target moved row = do
  update_appointment target.business target.id row
  if moved
      then writes
          (follow_move env target.business target.id target.module_name row.expires_at row.ends_at)
      else pure tt

unfoldable pub edit_appointment :
    Env
    → Subscription
    → Settings
    → Target
    → Change
    → (status : String) → (notes : Text) → (confirm : Bool) → Appointment
    → Tx Requests (Unit {0})
edit_appointment env sub cfg target change status notes confirm old = do
  let a = move_appointment change old
  let moved = moves_appointment change
  ends ← reads (new_end env sub cfg target (confirm || moved) a)
  save_appointment env target moved
      (written_appointment env.now cfg status notes confirm moved (record a { ends_at = ends }))

-- The branch of mutate for appointments.
unfoldable pub mutate_appointment :
    Env
    → Subscription
    → Settings
    → Target
    → Change
    → (status : String) → (notes : Text) → (confirm : Bool) → Tx Requests (Unit {0})
mutate_appointment env sub cfg target change status notes confirm = do
  guard (names_preorder change) (bad "preorder fields are not valid for appointments")
  found ← gets (λ t. get_appointment target.business target.id t.appointments)
  old ← one found
  edit_appointment env sub cfg target change status notes confirm old

abbrev pub items_of : Change → List EditItem
items_of (transition status version) = []
items_of (editing e) = e.items

abbrev pub total_of : Change → Option Text
total_of (transition status version) = none
total_of (editing e) = e.final_total

abbrev pub is_item : ℕ → ℕ → ℕ → PreorderItem → Bool
is_item business preorder id i =
    i.business_id == business && (i.preorder_id == preorder && i.id == id)

unfoldable pub set_quantity : ℕ → ℕ → ℕ → ℕ → List PreorderItem → List PreorderItem
set_quantity business preorder id quantity [] = []
set_quantity business preorder id quantity (i ∷ is) =
    (if is_item business preorder id i then record i { final_quantity = some quantity } else i)
    ∷ set_quantity business preorder id quantity is

-- UpdatePreorderItem, and the test that it changed a row
unfoldable pub update_preorder_item : ℕ → ℕ → ℕ → ℕ → Tx Requests (Unit {0})
update_preorder_item business preorder id quantity t =
    if any (is_item business preorder id) t.items
    then ok (tt, record t { items = set_quantity business preorder id quantity t.items })
    else err (bad "item does not belong to preorder")

-- The loop over the items of an edit, with those that it has seen.
unfoldable pub edit_items : Env → Target → List ℕ → List EditItem → Tx Requests (Unit {0})
edit_items env target seen [] = pure tt
edit_items env target seen (i ∷ is) = do
  guard (contains_id seen i.id) (bad "duplicate item")
  quantity ← lift (positive_quantity env.amount_of i.final_quantity)
  update_preorder_item target.business target.id i.id quantity
  edit_items env target (i.id ∷ seen) is

unfoldable pub written_preorder :
    ℕ → Settings → (status : String) → (notes : Text) → (confirm moved : Bool) → Preorder → Preorder
written_preorder now cfg status notes confirm moved p = record p {
  notes = notes;
  status = status;
  confirmed_at = if confirm then some now else p.confirmed_at;
  expires_at =
      if moved && str_eq status "requested"
      then pending_expiration now p.starts_at cfg.pending_ttl_minutes
      else p.expires_at;
}

unfoldable pub save_preorder : Env → Target → Bool → Preorder → Tx Requests (Unit {0})
save_preorder env target moved row = do
  update_preorder target.business target.id row
  if moved
      then writes
          (follow_move env target.business target.id target.module_name row.expires_at row.ends_at)
      else pure tt

unfoldable pub edit_preorder :
    Env
    → Subscription
    → Settings
    → Target
    → Change
    → (status : String) → (notes : Text) → (confirm : Bool) → Preorder
    → Tx Requests (Unit {0})
edit_preorder env sub cfg target change status notes confirm old = do
  let moved = moves_preorder change
  p ← reads (new_window env sub cfg target (confirm || moved) (move_preorder change old))
  edit_items env target [] (items_of change)
  total ← lift (final_total_of env (total_of change) p.final_total)
  save_preorder env target moved
      (written_preorder env.now cfg status notes confirm moved (record p { final_total = total }))

-- The branch of mutate for preorders.
unfoldable pub mutate_preorder :
    Env
    → Subscription
    → Settings
    → Target
    → Change
    → (status : String) → (notes : Text) → (confirm : Bool) → Tx Requests (Unit {0})
mutate_preorder env sub cfg target change status notes confirm = do
  guard (names_appointment change) (bad "appointment fields are not valid for preorders")
  found ← gets (λ t. get_preorder target.business target.id t.preorders)
  old ← one found
  edit_preorder env sub cfg target change status notes confirm old

abbrev pub confirms : String → String → Bool
confirms old new = str_eq old "requested" && str_eq new "confirmed"

-- Consume, where a request is confirmed
unfoldable pub take_unit : Env → Subscription → Target → Bool → Tx Requests (Unit {0})
take_unit env sub target confirm =
    if confirm then consume_unit env sub target.module_name target.id else pure tt

unfoldable pub write_request : Env → Subscription → Target → Change → Read → Tx Requests (Unit {0})
write_request env sub target change read =
    let status = status_of change read.view.status in
    let confirm = confirms read.view.status status in
    if str_eq target.module_name "appointments"
    then mutate_appointment env sub read.settings target change status read.notes confirm
    else mutate_preorder env sub read.settings target change status read.notes confirm

unfoldable pub write_history : Target → (old new : String) → Tx Requests (Unit {0})
write_history target old new =
    if str_eq new old
    then pure tt
    else add_history target.business target.id target.module_name old new target.actor

-- The transaction after the replay: the answer is the request as it is then.
unfoldable pub change_request : Env → Subscription → Target → Change → Tx Requests View
change_request env sub target change = do
  read ← reads (read_change env target change)
  let status = status_of change read.view.status
  take_unit env sub target (confirms read.view.status status)
  write_request env sub target change read
  write_history target read.view.status status
  reads (record_of env.now target.business target.id target.module_name)

-- The answer, saved under the key.
unfoldable pub answer_saved : Env → Target → String → View → Tx Requests View
answer_saved env target scope answer = do
  writes (save_replay 200 env.now target scope answer)
  pure answer

unfoldable pub mutate_body : Env → Target → Change → Tx Requests View
mutate_body env target change = do
  found ← gets (lock_subscription target.business)
  sub ← one found
  let scope = scope_of env.show_uuid target (is_editing change)
  saved ← reads (λ t. replay env.now target scope t.replays)
  elim saved [
    | some answer ↦ pure answer
    | none ↦ (do
      answer ← change_request env sub target change
      answer_saved env target scope answer)
  ]

-- mutate: EnsureSubscription runs before the transaction and stays.
unfoldable pub mutate : Env → Target → Change → Requests → Result View × Requests
mutate env target change t =
    atomically (mutate_body env target (as_sent target.audience change))
      (ensure_subscription env.now target.business t)
