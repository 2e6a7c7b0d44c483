-- ===== src/Inventory/Calls.antt =====
-- The routes of internal/inventory/handler.go that change stock, and a history of calls of them.
use openlocal_api.Prelude.{List, [], ◌∷◌, ℕ, Option}
use openlocal_api.Auth.{Session}
use openlocal_api.Decimal.{DecimalApi}
use openlocal_api.Text.Runes.{Text}
use openlocal_api.Inventory.Rows.{StockMovementRequest, Db}
use openlocal_api.Inventory.Handler.{
  create_stock_movement_handler, update_stock_movement_handler, delete_stock_movement_handler,
}

-- A call with what the route reads: path parameter, Idempotency-Key header, query and body.
pub data Call : Type 0 where
  post_movement : (header : Text) → StockMovementRequest → Call
  patch_movement : (id : Text) → (header : Text) → StockMovementRequest → Call
  delete_movement : (id : Text) → (business : Text) → Call

module _ (dec : DecimalApi) (parse : Text → Option ℕ) where
  open dec use {Decimal}

  -- RegisterPrivateRoutes
  unfoldable pub serve : Session → Call → Db Decimal → Db Decimal
  serve s (post_movement header req) db =
      (create_stock_movement_handler dec parse s header req db).1
  serve s (patch_movement id header req) db =
      (update_stock_movement_handler dec parse s id header req db).1
  serve s (delete_movement id business) db =
      (delete_stock_movement_handler dec parse s id business db).1

  unfoldable pub serve_all : List (Session × Call) → Db Decimal → Db Decimal
  unfolding serve
  serve_all [] db = db
  serve_all ((s, c) ∷ calls) db = serve_all calls (serve s c db)
