-- ===== src/Inventory/Queries.antt =====
-- The statements of internal/platform/postgres/db/inventory.sql.go, as their SQL text says, with the
-- keys of the tables: a row's id, and (business_id, variant_id, location_id) of a level, occur once,
-- so a statement on a key reads or writes the first row that has it.
use openlocal_api.Prelude.{
  ℕ, suc, Bool, false, not, ◌&&◌, ◌||◌, Option, none, some, List, [], ◌∷◌, ◌==◌, any, find,
  if◌then◌else◌, String,
}
use openlocal_api.Api.{Error, ok, err}
use openlocal_api.Tx.{Tx}
use openlocal_api.Decimal.{DecimalApi}
use openlocal_api.Text.Runes.{Text, text_eq}
use openlocal_api.Inventory.Rows.{
  CreateParams, StockMovement, UpdateParams, StockLevel, InventoryLocation, Db,
}

abbrev pub Key : Type 0
Key = ℕ × ℕ × ℕ

abbrev pub key_eq : Key → Key → Bool
key_eq (a, b, c) (x, y, z) = a == x && (b == y && c == z)

-- `idempotency_key = $n`: never true of NULL
abbrev pub same_key : Option Text → Option Text → Bool
same_key (some s) (some t) = text_eq s t
same_key _ _ = false

module _ {D : Type 0} where
  abbrev pub level_key : StockLevel D → Key
  level_key l = (l.business_id, l.variant_id, l.location_id)

  abbrev pub movement_key : StockMovement D → Key
  movement_key m = (m.business_id, m.variant_id, m.location_id)

  unfoldable pub find_level : Key → List (StockLevel D) → Option (StockLevel D)
  find_level k [] = none
  find_level k (l ∷ ls) = if key_eq (level_key l) k then some l else find_level k ls

  -- The row with an id and a business.
  abbrev pub is_row : ℕ → ℕ → StockMovement D → Bool
  is_row id business m = m.id == id && m.business_id == business

  unfoldable pub find_movement : ℕ → ℕ → List (StockMovement D) → Option (StockMovement D)
  find_movement id business [] = none
  find_movement id business (m ∷ ms) =
      if is_row id business m then some m else find_movement id business ms

  unfoldable pub remove_movement : ℕ → ℕ → List (StockMovement D) → List (StockMovement D)
  remove_movement id business [] = []
  remove_movement id business (m ∷ ms) =
      if is_row id business m then ms else m ∷ remove_movement id business ms

  unfoldable pub replace_movement :
      ℕ → ℕ → StockMovement D → List (StockMovement D) → List (StockMovement D)
  replace_movement id business n [] = []
  replace_movement id business n (m ∷ ms) =
      if is_row id business m then n ∷ ms else m ∷ replace_movement id business n ms

  -- Whether another row of the business has the idempotency key.
  unfoldable pub key_taken : ℕ → ℕ → Option Text → List (StockMovement D) → Bool
  key_taken id business key [] = false
  key_taken id business key (m ∷ ms) =
      (not (m.id == id) && (m.business_id == business && same_key m.idempotency_key key))
      || key_taken id business key ms

  unfoldable pub find_by_key : ℕ → Option Text → List (StockMovement D) → Option (StockMovement D)
  find_by_key business key [] = none
  find_by_key business key (m ∷ ms) =
      if m.business_id == business && same_key m.idempotency_key key
      then some m
      else find_by_key business key ms

  -- REFERENCES inventory_locations (id)
  abbrev pub location_exists : ℕ → Db D → Bool
  location_exists id db = any (λ l. l.id == id) db.locations

  -- GetVariantForBusiness, as far as the handlers look: whether there is a row
  unfoldable pub get_variant_for_business : ℕ → ℕ → Tx (Db D) (Unit {0})
  get_variant_for_business id business db =
      if any (λ v. v.0 == id && v.1 == business) db.variants then ok (tt, db) else err Error.no_rows

  unfoldable pub get_default_inventory_location : ℕ → Db D → Option InventoryLocation
  get_default_inventory_location business db =
      find (λ l. l.business_id == business && l.is_default) db.locations

  -- A name occurs once in a business, and a business has one default location.
  unfoldable pub create_inventory_location :
      ℕ → (name : Text) → (is_default : Bool) → Tx (Db D) InventoryLocation
  create_inventory_location business name is_default db =
      let location : InventoryLocation = record {
        id = db.next_id;
        business_id = business;
        name = name;
        is_default = is_default;
      } in
      if any (λ l. l.business_id == business && text_eq l.name name) db.locations
        || (is_default && any (λ l. l.business_id == business && l.is_default) db.locations)
      then err Error.unique_violation
      else ok
          (location, record db { locations = location ∷ db.locations; next_id = suc db.next_id })

  unfoldable pub get_inventory_location_for_business : ℕ → ℕ → Db D → Option InventoryLocation
  get_inventory_location_for_business id business db =
      find (λ l. l.id == id && l.business_id == business) db.locations

  abbrev pub row_of : ℕ → CreateParams D → StockMovement D
  row_of id p = record {
    id = id;
    business_id = p.business_id;
    variant_id = p.variant_id;
    location_id = p.location_id;
    movement_type = p.movement_type;
    quantity = p.quantity;
    unit_cost = p.unit_cost;
    reference_type = p.reference_type;
    reference_id = p.reference_id;
    notes = p.notes;
    created_by = p.created_by;
    idempotency_key = p.idempotency_key;
  }

  unfoldable pub has_key : ℕ → Option Text → List (StockMovement D) → Bool
  has_key business key [] = false
  has_key business key (m ∷ ms) =
      (m.business_id == business && same_key m.idempotency_key key) || has_key business key ms

  -- CreateStockMovement: `none` where ON CONFLICT DO NOTHING returns no row
  unfoldable pub create_stock_movement : CreateParams D → Tx (Db D) (Option (StockMovement D))
  unfolding has_key
  create_stock_movement p db =
      if has_key p.business_id p.idempotency_key db.movements
      then ok (none, db)
      else if location_exists p.location_id db
      then ok (
        some (row_of db.next_id p),
        record db { movements = row_of db.next_id p ∷ db.movements; next_id = suc db.next_id },
      )
      else err Error.foreign_key_violation

  unfoldable pub get_stock_movement_by_idempotency_key :
      ℕ → Option Text → Db D → Option (StockMovement D)
  unfolding find_by_key
  get_stock_movement_by_idempotency_key business key db = find_by_key business key db.movements

  unfoldable pub get_stock_movement_for_update : ℕ → ℕ → Db D → Option (StockMovement D)
  unfolding find_movement
  get_stock_movement_for_update id business db = find_movement id business db.movements

  unfoldable pub get_stock_level : Key → Db D → Option (StockLevel D)
  unfolding find_level
  get_stock_level k db = find_level k db.levels

  abbrev pub updated : StockMovement D → UpdateParams D → StockMovement D
  updated m p = record m {
    location_id = p.location_id;
    movement_type = p.movement_type;
    quantity = p.quantity;
    unit_cost = p.unit_cost;
    reference_type = p.reference_type;
    reference_id = p.reference_id;
    notes = p.notes;
    idempotency_key = p.idempotency_key;
  }

  -- UpdateStockMovement
  unfoldable pub update_stock_movement : UpdateParams D → Tx (Db D) (StockMovement D)
  unfolding find_movement replace_movement key_taken
  update_stock_movement p db = elim (find_movement p.id p.business_id db.movements) [
    | none ↦ err Error.no_rows
    | some m ↦
        if key_taken p.id p.business_id p.idempotency_key db.movements
        then err Error.unique_violation
        else if location_exists p.location_id db
        then ok (
          updated m p,
          record db { movements = replace_movement p.id p.business_id (updated m p) db.movements },
        )
        else err Error.foreign_key_violation
  ]

  -- DeleteStockMovement
  unfoldable pub delete_stock_movement : ℕ → ℕ → Tx (Db D) (StockMovement D)
  unfolding find_movement remove_movement
  delete_stock_movement id business db = elim (find_movement id business db.movements) [
    | none ↦ err Error.no_rows
    | some m ↦ ok (m, record db { movements = remove_movement id business db.movements })
  ]

  -- api.Audit
  unfoldable pub audit : ℕ → ℕ → String → String → ℕ → Tx (Db D) (Unit {0})
  audit business user action entity_type entity db = ok (
    tt,
    record db {
      audit =
          record {
            business_id = business;
            actor_user_id = user;
            action = action;
            entity_type = entity_type;
            entity_id = entity;
          }
          ∷ db.audit;
    },
  )

module _ (dec : DecimalApi) where
  open dec use {Decimal, zero, add, less_than}

  unfoldable pub new_level : Key → Decimal → StockLevel Decimal
  new_level (business, variant, location) quantity = record {
    business_id = business;
    variant_id = variant;
    location_id = location;
    quantity_on_hand = quantity;
    quantity_reserved = zero;
  }

  abbrev pub raised : StockLevel Decimal → Decimal → StockLevel Decimal
  raised l delta = record l { quantity_on_hand = add l.quantity_on_hand delta }

  unfoldable pub upsert_level :
      Key → Decimal → List (StockLevel Decimal) → List (StockLevel Decimal)
  unfolding new_level
  upsert_level k delta [] = new_level k delta ∷ []
  upsert_level k delta (l ∷ ls) =
      if key_eq (level_key l) k then raised l delta ∷ ls else l ∷ upsert_level k delta ls

  -- ApplyStockDelta
  unfoldable pub apply_stock_delta : Key → Decimal → Tx (Db Decimal) (StockLevel Decimal)
  unfolding find_level upsert_level
  apply_stock_delta k delta db =
      let ls = upsert_level k delta db.levels in
      elim (find_level k ls) [
        | none ↦ err Error.no_rows
        | some l ↦ ok (l, record db { levels = ls })
      ]

  -- ApplyNonnegativeStockDelta
  unfoldable pub apply_nonnegative_stock_delta :
      Key → Decimal → Tx (Db Decimal) (StockLevel Decimal)
  unfolding find_level upsert_level
  apply_nonnegative_stock_delta k delta db = elim (find_level k db.levels) [
    | none ↦ err Error.no_rows
    | some l ↦
        if less_than (add l.quantity_on_hand delta) zero
        then err Error.no_rows
        else ok (raised l delta, record db { levels = upsert_level k delta db.levels })
  ]
