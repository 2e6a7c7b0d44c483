-- ===== src/Inventory/Rows.antt =====
-- The rows and parameters of internal/platform/postgres/db/inventory.sql.go and the request of
-- internal/inventory/dto.go, over the type of decimals. What `now()` writes in a row is left out.
use openlocal_api.Prelude.{ℕ, Option, none, some, List, Bool, true, false, ◌==◌, String}
use openlocal_api.Text.Runes.{Text, text_eq}

pub record StockMovementRequest : Type 0 where
  pub business_id : Text
  pub variant_id : Text
  pub location_id : Option Text
  pub movement_type : Text
  pub quantity : Text
  pub unit_cost : Option Text
  pub reference_type : Option Text
  pub reference_id : Option Text
  pub notes : Text

-- CreateStockMovementParams
pub record CreateParams (D : Type 0) : Type 0 where
  pub business_id : ℕ
  pub variant_id : ℕ
  pub location_id : ℕ
  pub movement_type : Text
  pub quantity : D
  pub unit_cost : Option D
  pub reference_type : Option Text
  pub reference_id : Option Text
  pub notes : Text
  pub created_by : Option ℕ
  pub idempotency_key : Option Text

pub record StockMovement (D : Type 0) : Type 0 where
  pub id : ℕ
  pub business_id : ℕ
  pub variant_id : ℕ
  pub location_id : ℕ
  pub movement_type : Text
  pub quantity : D
  pub unit_cost : Option D
  pub reference_type : Option Text
  pub reference_id : Option Text
  pub notes : Text
  pub created_by : Option ℕ
  pub idempotency_key : Option Text

-- UpdateStockMovementParams
pub record UpdateParams (D : Type 0) : Type 0 where
  pub id : ℕ
  pub business_id : ℕ
  pub location_id : ℕ
  pub movement_type : Text
  pub quantity : D
  pub unit_cost : Option D
  pub reference_type : Option Text
  pub reference_id : Option Text
  pub notes : Text
  pub idempotency_key : Option Text

pub record StockLevel (D : Type 0) : Type 0 where
  pub business_id : ℕ
  pub variant_id : ℕ
  pub location_id : ℕ
  pub quantity_on_hand : D
  pub quantity_reserved : D

pub record InventoryLocation : Type 0 where
  pub id : ℕ
  pub business_id : ℕ
  pub name : Text
  pub is_default : Bool

pub record AuditLog : Type 0 where
  pub business_id : ℕ
  pub actor_user_id : ℕ
  pub action : String
  pub entity_type : String
  pub entity_id : ℕ

-- The tables that the inventory handlers touch. `next_id` is what gen_random_uuid() gives next, and
-- `variants` the pairs (id, business_id) of product_variants.
pub record Db (D : Type 0) : Type 0 where
  pub movements : List (StockMovement D)
  pub levels : List (StockLevel D)
  pub locations : List InventoryLocation
  pub variants : List (ℕ × ℕ)
  pub audit : List AuditLog
  pub next_id : ℕ

-- `==` of two sql.NullString
abbrev pub same_text : Option Text → Option Text → Bool
same_text none none = true
same_text (some s) (some t) = text_eq s t
same_text _ _ = false

-- `==` of two uuid.NullUUID
abbrev pub same_id : Option ℕ → Option ℕ → Bool
same_id none none = true
same_id (some a) (some b) = a == b
same_id _ _ = false
