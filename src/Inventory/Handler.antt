-- ===== src/Inventory/Handler.antt =====
-- internal/inventory/handler.go: the three handlers that change stock. A request comes decoded
-- (DecodeStrict); `parse` is uuid.Parse, and the answer is what the JSON response is made of.
use openlocal_api.Prelude.{
  ℕ, Bool, true, false, not, Option, none, some, List, [], ◌∷◌, ◌==◌, String, if◌then◌else◌,
}
use openlocal_api.Api.{Error, fiber, no_rows, unique_violation, Result, ok, err}
use openlocal_api.Tx.{Tx, pure, throw, lift, gets, one, guard, ◌>>=◌, ◌>>◌, atomically}
use openlocal_api.Auth.{Session, require_business_role}
use openlocal_api.Decimal.{DecimalApi}
use openlocal_api.Text.Runes.{Text, text}
use openlocal_api.Validator.{parse_uuid, idempotency_key}
use openlocal_api.Inventory.Rows.{
  StockMovementRequest, CreateParams, StockMovement, UpdateParams, StockLevel, InventoryLocation,
  Db, same_text,
}
use openlocal_api.Inventory.Service.{
  signed_quantity, movement_delta, same_movement, same_movement_edit, movement_params,
}
use openlocal_api.Inventory.Queries.{
  Key, movement_key, get_variant_for_business, get_default_inventory_location,
  create_inventory_location, get_inventory_location_for_business, create_stock_movement,
  get_stock_movement_by_idempotency_key, get_stock_movement_for_update, get_stock_level,
  update_stock_movement, delete_stock_movement, audit, apply_stock_delta,
  apply_nonnegative_stock_delta,
}

abbrev pub staff_roles : List String
staff_roles = "owner" ∷ "manager" ∷ "staff" ∷ []

-- A text that is given and not empty.
abbrev pub given : Option Text → Option Text
given none = none
given (some []) = none
given (some (c ∷ cs)) = some (c ∷ cs)

module _ {D : Type 0} where
  unfoldable pub default_location : ℕ → Option InventoryLocation → Tx (Db D) ℕ
  default_location business (some l) = pure l.id
  default_location business none = do
    l ← create_inventory_location business (text "Default") true
    pure l.id

  -- ResolveLocation
  unfoldable pub resolve_location : (Text → Option ℕ) → ℕ → Option Text → Tx (Db D) ℕ
  unfolding default_location
  resolve_location parse business requested = elim (given requested) [
    | some value ↦ lift (parse_uuid parse value "location_id")
    | none ↦ do
      found ← gets (get_default_inventory_location business)
      default_location business found
  ]

  -- The location of an edit: the current one, or another of the same business.
  unfoldable pub edit_location : (Text → Option ℕ) → ℕ → ℕ → Option Text → Tx (Db D) ℕ
  edit_location parse business current requested = elim (given requested) [
    | none ↦ pure current
    | some value ↦ do
      id ← lift (parse_uuid parse value "location_id")
      found ← gets (get_inventory_location_for_business id business)
      one found
      pure id
  ]

module _ (dec : DecimalApi) where
  open dec use {Decimal, neg, is_zero, is_positive}

  -- MovementCreatedResponse, and whether `Idempotent-Replayed` is set
  pub record Answer : Type 0 where
    pub movement : StockMovement Decimal
    pub level : StockLevel Decimal
    pub replayed : Bool

  unfoldable pub negative_stock : Error
  negative_stock = fiber 409 "stock level cannot be negative"

  -- What follows an ApplyNonnegativeStockDelta that changed no row.
  unfoldable pub no_row_changed : Key → Decimal → Tx (Db Decimal) (StockLevel Decimal)
  unfolding negative_stock
  no_row_changed k delta =
      if is_positive delta
      then (do
        found ← gets (get_stock_level k)
        elim found [ some l ↦ throw negative_stock | none ↦ apply_stock_delta dec k delta ])
      else throw negative_stock

  abbrev pub on_no_rows :
      Result (StockLevel Decimal × Db Decimal)
      → Result (StockLevel Decimal × Db Decimal)
      → Result (StockLevel Decimal × Db Decimal)
  on_no_rows (ok r) other = ok r
  on_no_rows (err no_rows) other = other
  on_no_rows (err e) other = err e

  -- applyNonnegativeStockDelta
  unfoldable pub apply_nonnegative : Key → Decimal → Tx (Db Decimal) (StockLevel Decimal)
  unfolding no_row_changed
  apply_nonnegative k delta db =
      if is_zero delta
      then (do found ← gets (get_stock_level k); one found) db
      else on_no_rows (apply_nonnegative_stock_delta dec k delta db) (no_row_changed k delta db)

  -- applyMovementEditDelta
  unfoldable pub apply_movement_edit_delta :
      StockMovement Decimal → UpdateParams Decimal → Tx (Db Decimal) (StockLevel Decimal)
  apply_movement_edit_delta current p =
      if current.location_id == p.location_id
      then apply_nonnegative (movement_key current)
          (movement_delta dec current p.movement_type p.quantity)
      else do
        apply_nonnegative (movement_key current)
            (neg (signed_quantity dec current.movement_type current.quantity))
        apply_nonnegative (current.business_id, current.variant_id, p.location_id)
            (signed_quantity dec p.movement_type p.quantity)

  -- replayStockMovement
  unfoldable pub replay_stock_movement : CreateParams Decimal → Tx (Db Decimal) Answer
  replay_stock_movement p = do
    found ← gets (get_stock_movement_by_idempotency_key p.business_id p.idempotency_key)
    movement ← one found
    guard (not (same_movement dec movement p))
        (fiber 409 "Idempotency-Key was already used for a different stock movement")
    l ← gets (get_stock_level (movement_key movement))
    level ← one l
    pure (record { movement = movement; level = level; replayed = true })

  abbrev pub on_unique_violation :
      Result (StockMovement Decimal × Db Decimal) → Result (StockMovement Decimal × Db Decimal)
  on_unique_violation (err unique_violation) =
      err (fiber 409 "Idempotency-Key was already used for a different stock movement")
  on_unique_violation r = r

  -- UpdateStockMovement, with isUniqueViolation told apart
  unfoldable pub write_edit : UpdateParams Decimal → Tx (Db Decimal) (StockMovement Decimal)
  write_edit p db = on_unique_violation (update_stock_movement p db)

  -- What the tests on the edit's own idempotency key decide: a replay, or the change.
  unfoldable pub finish_edit :
      ℕ → StockMovement Decimal → UpdateParams Decimal → Tx (Db Decimal) Answer
  finish_edit user current p =
      if same_text current.idempotency_key p.idempotency_key
      then (do
        guard (not (same_movement_edit dec current p))
            (fiber 409 "Idempotency-Key was already used for different movement data")
        l ← gets (get_stock_level (movement_key current))
        level ← one l
        pure (record { movement = current; level = level; replayed = true }))
      else do
        level ← apply_movement_edit_delta current p
        movement ← write_edit p
        audit p.business_id user "inventory.movement.update" "stock_movement" movement.id
        pure (record { movement = movement; level = level; replayed = false })

module _ (dec : DecimalApi) (parse : Text → Option ℕ) where
  open dec use {Decimal, neg}

  abbrev pub in_location : CreateParams Decimal → ℕ → CreateParams Decimal
  in_location p location = record p { location_id = location }

  -- What the transaction of createStockMovement ends in: a movement, or the location of a request whose
  -- idempotency key is in use.
  pub data Created : Type 0 where
    made : Answer dec → Created
    replay_at : ℕ → Created

  -- What follows CreateStockMovement, with the row that it returned or with none.
  unfoldable pub after_insert :
      CreateParams Decimal → ℕ → ℕ → Option (StockMovement Decimal) → Tx (Db Decimal) Created
  after_insert p user location none = pure (replay_at location)
  after_insert p user location (some movement) = do
    level ←
        apply_stock_delta dec (p.business_id, p.variant_id, location)
          (signed_quantity dec p.movement_type p.quantity)
    audit p.business_id user "inventory.movement.create" "stock_movement" movement.id
    pure (made (record { movement = movement; level = level; replayed = false }))

  unfoldable pub create_body : CreateParams Decimal → ℕ → Option Text → Tx (Db Decimal) Created
  create_body p user requested = do
    location ← resolve_location parse p.business_id requested
    created ← create_stock_movement (in_location p location)
    after_insert p user location created

  -- The replay reads after the rollback, from the state before.
  abbrev pub settle :
      CreateParams Decimal
      → Db Decimal
      → Result (Created × Db Decimal)
      → Result (Answer dec × Db Decimal)
  settle p db (err e) = err e
  settle p db (ok (made answer, db')) = ok (answer, db')
  settle p db (ok (replay_at location, db')) = replay_stock_movement dec (in_location p location) db

  unfoldable pub create_or_replay :
      CreateParams Decimal → ℕ → Option Text → Tx (Db Decimal) (Answer dec)
  create_or_replay p user requested db = settle p db (create_body p user requested db)

  unfoldable pub create_request :
      Session → Text → StockMovementRequest → Tx (Db Decimal) (Answer dec)
  create_request s header req = do
    key ← lift (idempotency_key header)
    business ← lift (parse_uuid parse req.business_id "business_id")
    a ← lift (require_business_role s business staff_roles)
    p ← lift (movement_params dec parse req a.user_id key)
    get_variant_for_business p.variant_id p.business_id
    create_or_replay p a.user_id req.location_id

  unfoldable pub edit_params : ℕ → ℕ → ℕ → CreateParams Decimal → UpdateParams Decimal
  edit_params id business location p = record {
    id = id;
    business_id = business;
    location_id = location;
    movement_type = p.movement_type;
    quantity = p.quantity;
    unit_cost = p.unit_cost;
    reference_type = p.reference_type;
    reference_id = p.reference_id;
    notes = p.notes;
    idempotency_key = p.idempotency_key;
  }

  unfoldable pub update_request :
      Session → Text → Text → StockMovementRequest → Tx (Db Decimal) (Answer dec)
  unfolding edit_params
  update_request s id_param header req = do
    id ← lift (parse_uuid parse id_param "movement id")
    key ← lift (idempotency_key header)
    business ← lift (parse_uuid parse req.business_id "business_id")
    a ← lift (require_business_role s business staff_roles)
    found ← gets (get_stock_movement_for_update id business)
    current ← one found
    p ← lift (movement_params dec parse req a.user_id key)
    guard (not (p.business_id == current.business_id)) (fiber 404 "not found")
    guard (not (p.variant_id == current.variant_id))
        (fiber 400 "variant_id cannot be changed; delete and recreate the movement instead")
    location ← edit_location parse business current.location_id req.location_id
    finish_edit dec a.user_id current (edit_params id business location p)

  unfoldable pub delete_request : Session → Text → Text → Tx (Db Decimal) (Unit {0})
  delete_request s id_param business_query = do
    id ← lift (parse_uuid parse id_param "movement id")
    business ← lift (parse_uuid parse business_query "business_id")
    a ← lift (require_business_role s business staff_roles)
    found ← gets (get_stock_movement_for_update id business)
    movement ← one found
    apply_nonnegative dec (movement_key movement)
        (neg (signed_quantity dec movement.movement_type movement.quantity))
    delete_stock_movement id business
    audit business a.user_id "inventory.movement.delete" "stock_movement" movement.id
    pure tt

  -- createStockMovement, updateStockMovement, deleteStockMovement
  unfoldable pub create_stock_movement_handler :
      Session → Text → StockMovementRequest → Db Decimal → Result (Answer dec) × Db Decimal
  unfolding create_request
  create_stock_movement_handler s header req = atomically (create_request s header req)

  unfoldable pub update_stock_movement_handler :
      Session → Text → Text → StockMovementRequest → Db Decimal → Result (Answer dec) × Db Decimal
  unfolding update_request
  update_stock_movement_handler s id header req = atomically (update_request s id header req)

  unfoldable pub delete_stock_movement_handler :
      Session → Text → Text → Db Decimal → Result (Unit {0}) × Db Decimal
  unfolding delete_request
  delete_stock_movement_handler s id business = atomically (delete_request s id business)
