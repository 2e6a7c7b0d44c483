-- ===== src/Operations/Rows.antt =====
-- Rows of internal/platform/postgres/db/models.go that internal/operations reads and writes beside the
-- requests themselves. A jsonb column is the value that it holds, a numeric(12,3) its thousandths.
use openlocal_api.Prelude.{ℕ, Bool, Option, List, String}
use openlocal_api.Text.Runes.{Text}
use openlocal_api.Scheduling.Clock.{Hour}

-- The columns of db.Business that internal/operations reads
pub record Business : Type 0 where
  pub id : ℕ
  pub slug : Text
  pub status : String
  pub timezone : Text

-- db.Service, without its texts and its price
pub record Service : Type 0 where
  pub id : ℕ
  pub business_id : ℕ
  pub name : String
  pub duration_minutes : ℕ
  pub buffer_minutes : ℕ
  pub is_public : Bool
  pub active : Bool

-- db.AppointmentResource
pub record AppointmentResource : Type 0 where
  pub id : ℕ
  pub business_id : ℕ
  pub name : Text
  pub active : Bool
  pub service_ids : List ℕ
  pub hours : List Hour
  pub closed_dates : List Text

-- db.PreorderPickupWindow
pub record PickupWindow : Type 0 where
  pub id : ℕ
  pub business_id : ℕ
  pub starts_at : ℕ
  pub ends_at : ℕ

-- db.PreorderItem, without its texts; the quantities in thousandths, the prices in hundredths
pub record PreorderItem : Type 0 where
  pub id : ℕ
  pub business_id : ℕ
  pub preorder_id : ℕ
  pub variant_id : ℕ
  pub quantity : ℕ
  pub unit_price : ℕ
  pub total : ℕ
  pub final_quantity : Option ℕ

-- db.ModuleCustomer
pub record ModuleCustomer : Type 0 where
  pub id : ℕ
  pub business_id : ℕ
  pub phone : Text
  pub name : Text

-- db.PreorderVariantsRow, a row of product_variants with its product, without its texts; the price in
-- hundredths, and whether both are active and public
pub record VariantRow : Type 0 where
  pub id : ℕ
  pub business_id : ℕ
  pub price : ℕ
  pub currency : String
  pub available : Bool

-- db.RequestAccess; the hash of a token is a number
pub record RequestAccess : Type 0 where
  pub public_id : ℕ
  pub business_id : ℕ
  pub module_name : String
  pub token_hash : ℕ
  pub expires_at : ℕ

-- A request as the handlers answer it: the fields of Record that a row of its own table gives.
pub record View : Type 0 where
  pub id : ℕ
  pub module_name : String
  pub status : String
  pub version : ℕ
  pub customer_id : ℕ
  pub notes : Text
  pub starts_at : ℕ
  pub ends_at : ℕ
  pub expires_at : ℕ
  pub timezone : Text

-- A row of request_idempotency, with the answer that its ciphertext holds
pub record ReplayRow : Type 0 where
  pub business_id : ℕ
  pub scope : String
  pub key : Text
  pub digest : ℕ
  pub response : View
  pub status_code : ℕ
  pub expires_at : ℕ

-- A queued `expire_request`
pub record ExpireJob : Type 0 where
  pub business_id : ℕ
  pub record_id : ℕ
  pub module_name : String
  pub delay_seconds : ℕ
