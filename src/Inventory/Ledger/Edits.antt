-- ===== src/Inventory/Ledger/Edits.antt =====
-- Inserting, replacing and removing a movement, each with the deltas that the handlers apply.
use openlocal_api.Prelude.{ℕ, ◌≡◌, false, some, List, ◌∷◌, ◌==◌, arith}
use openlocal_api.Decimal.{DecimalApi, nil-plus, plus_cancel, plus_exchange}
use openlocal_api.Inventory.Rows.{StockMovement, UpdateParams, Db}
use openlocal_api.Inventory.Service.{signed_quantity, movement_delta}
use openlocal_api.Inventory.Queries.{
  Key, movement_key, find_movement, remove_movement, replace_movement, updated,
}
use openlocal_api.Inventory.Ledger.Sums.{
  on_hand, signed, ledger, IsBalanced, ledger_find, ledger-replace,
}
use openlocal_api.Inventory.Ledger.Deltas.{Moved}

module _ (dec : DecimalApi) where
  open dec use {Decimal, Number, value, nil, plus, opposite, plus_comm, value-sub, value-neg, neg}

  abbrev pub Movement : Type 0
  Movement = StockMovement Decimal

  pub insert-IsBalanced :
      (m : Movement) (db moved : Db Decimal) (ms : List Movement)
      → ((k : Key) → on_hand dec k db.levels ≡ ledger dec k ms)
      → Moved dec (movement_key m) (signed dec m) db moved
      → ((k : Key) → on_hand dec k moved.levels ≡ ledger dec k (m ∷ ms))
  unfolding ledger
  insert-IsBalanced m db moved ms b v k = ground (
    arith,
    v.level_moved k,
    b k,
    plus_comm (ledger dec k ms) (signed dec m),
    nil-plus dec (ledger dec k ms),
  )

  pub remove-IsBalanced :
      (id business : ℕ) (m : Movement) (db moved : Db Decimal)
      → IsBalanced dec db
      → find_movement id business db.movements ≡ some m
      → Moved dec
          (movement_key m)
          (value (neg (signed_quantity dec m.movement_type m.quantity)))
          db
          moved
      → ((k : Key)
          → on_hand dec k moved.levels ≡ ledger dec k (remove_movement id business db.movements))
  remove-IsBalanced id business m db moved b f v k =
      let rest = ledger dec k (remove_movement id business db.movements) in
      ground (
        arith,
        v.level_moved k,
        b k,
        ledger_find dec k id business m db.movements f,
        value-neg (signed_quantity dec m.movement_type m.quantity),
        plus_cancel dec (signed dec m) rest,
        nil-plus dec rest,
      )

  -- An edit in place.
  pub edit_here-IsBalanced :
      (p : UpdateParams Decimal) (m : Movement) (db moved : Db Decimal)
      → IsBalanced dec db
      → find_movement p.id p.business_id db.movements ≡ some m
      → m.location_id ≡ p.location_id
      → Moved dec
          (movement_key m)
          (value (movement_delta dec m p.movement_type p.quantity))
          db
          moved
      → ((k : Key)
          → on_hand dec k moved.levels
            ≡ ledger dec k (replace_movement p.id p.business_id (updated m p) db.movements))
  unfolding movement_delta
  edit_here-IsBalanced p m db moved b f same v k =
      let rest = ledger dec k (remove_movement p.id p.business_id db.movements) in
      ground (
        arith,
        v.level_moved k,
        b k,
        ledger_find dec k p.id p.business_id m db.movements f,
        ledger-replace dec k p.id p.business_id m (updated m p) db.movements f,
        value-sub (signed_quantity dec p.movement_type p.quantity)
            (signed_quantity dec m.movement_type m.quantity),
        plus_exchange dec (signed dec m) (signed dec (updated m p)) rest,
        nil-plus dec rest,
      )

  -- An edit that moves to another location.
  pub edit_elsewhere-IsBalanced :
      (p : UpdateParams Decimal) (m : Movement) (db left moved : Db Decimal)
      → IsBalanced dec db
      → find_movement p.id p.business_id db.movements ≡ some m
      → (m.location_id == p.location_id) ≡ false
      → Moved dec
          (movement_key m)
          (value (neg (signed_quantity dec m.movement_type m.quantity)))
          db
          left
      → Moved dec (movement_key (updated m p)) (signed dec (updated m p)) left moved
      → ((k : Key)
          → on_hand dec k moved.levels
            ≡ ledger dec k (replace_movement p.id p.business_id (updated m p) db.movements))
  edit_elsewhere-IsBalanced p m db left moved b f other v w k =
      let rest = ledger dec k (remove_movement p.id p.business_id db.movements) in
      ground (
        arith,
        v.level_moved k,
        w.level_moved k,
        b k,
        ledger_find dec k p.id p.business_id m db.movements f,
        ledger-replace dec k p.id p.business_id m (updated m p) db.movements f,
        value-neg (signed_quantity dec m.movement_type m.quantity),
        plus_cancel dec (signed dec m) rest,
        plus_comm rest (signed dec (updated m p)),
        nil-plus dec rest,
      )
