-- ===== src/Inventory/Ledger/Deltas.antt =====
-- What the stock deltas of inventory/handler.go do to the levels, whichever way they end.
use openlocal_api.Prelude.{◌≡◌, refl, Bool, true, false, Option, none, some, if◌then◌else◌, arith}
use openlocal_api.Api.{Result, ok, err, no_rows}
use openlocal_api.Tx.{Tx, throw, one, gets, ◌>>=◌}
use openlocal_api.Tx.Ensures.{Ensures, Ensures-if, Ensures-elim}
use openlocal_api.Decimal.{DecimalApi}
use openlocal_api.Inventory.Rows.{StockLevel, Db}
use openlocal_api.Inventory.Queries.{
  Key, key_eq, find_level, get_stock_level, upsert_level, apply_stock_delta,
  apply_nonnegative_stock_delta,
}
use openlocal_api.Inventory.Handler.{apply_nonnegative, on_no_rows, no_row_changed, negative_stock}
use openlocal_api.Inventory.Ledger.Sums.{on_hand, on_hand-upsert_level}

module _ (dec : DecimalApi) where
  open dec use {
    Decimal, Number, value, nil, plus, plus-nil, zero, add, less_than, is_zero, is_positive,
    value-is_zero,
  }

  -- The movements stay, and the level of one key moves by `x`.
  pub record Moved (k : Key) (x : Number) (db : Db Decimal) (db' : Db Decimal) : Type 0 where
    pub movements_kept : db'.movements ≡ db.movements
    pub level_moved :
        (j : Key)
        → on_hand dec j db'.levels
          ≡ (if key_eq k j then plus (on_hand dec j db.levels) x else on_hand dec j db.levels)

  Moved-upsert_level :
      (k : Key) (d : Decimal) (db : Db Decimal)
      → Moved k (value d) db (record db { levels = upsert_level dec k d db.levels })
  Moved-upsert_level k d db = record {
    movements_kept = refl;
    level_moved = λ j. on_hand-upsert_level dec j k d db.levels;
  }

  pub apply_stock_delta-Moved :
      (k : Key) (d : Decimal) (db : Db Decimal)
      → Ensures (λ l db'. Moved k (value d) db db') (apply_stock_delta dec k d db)
  unfolding apply_stock_delta
  apply_stock_delta-Moved k d db =
      Ensures-elim (λ l db'. Moved k (value d) db db')
        (find_level k (upsert_level dec k d db.levels)) no_rows _ (λ l e. Moved-upsert_level k d db)

  apply_nonnegative_stock_delta-Moved :
      (k : Key) (d : Decimal) (db : Db Decimal)
      → Ensures (λ l db'. Moved k (value d) db db') (apply_nonnegative_stock_delta dec k d db)
  unfolding apply_nonnegative_stock_delta
  apply_nonnegative_stock_delta-Moved k d db =
      Ensures-elim (λ l db'. Moved k (value d) db db') (find_level k db.levels) no_rows _
        λ l e.
          Ensures-if (λ l db'. Moved k (value d) db db') (less_than (add l.quantity_on_hand d) zero)
            _ _ (λ negative. tt) (λ enough. Moved-upsert_level k d db)

  no_row_changed-Moved :
      (k : Key) (d : Decimal) (db : Db Decimal)
      → Ensures (λ l db'. Moved k (value d) db db') (no_row_changed dec k d db)
  unfolding no_row_changed
  no_row_changed-Moved k d db = at_sign (is_positive d)
    where
      at_row :
          (o : Option (StockLevel Decimal))
          → Ensures
              (λ l db'. Moved k (value d) db db')
              (let m : Tx (Db Decimal) (StockLevel Decimal) = elim o [
                | some l ↦ throw (negative_stock dec)
                | none ↦ apply_stock_delta dec k d
              ] in
                m db)
      at_row none = apply_stock_delta-Moved k d db
      at_row (some l) = tt

      at_sign :
          (b : Bool)
          → Ensures
              (λ l db'. Moved k (value d) db db')
              ((if b
                  then (do
                    found ← gets (get_stock_level k)
                    elim found [
                      | some l ↦ throw (negative_stock dec)
                      | none ↦ apply_stock_delta dec k d
                    ])
                  else throw (negative_stock dec))
                db)
      at_sign true = at_row (get_stock_level k db)
      at_sign false = tt

  on_no_rows-Moved :
      (k : Key) (x : Number) (db : Db Decimal) (r other : Result (StockLevel Decimal × Db Decimal))
      → Ensures (λ l db'. Moved k x db db') r
      → Ensures (λ l db'. Moved k x db db') other
      → Ensures (λ l db'. Moved k x db db') (on_no_rows dec r other)
  on_no_rows-Moved k x db (ok r) other h g = h
  on_no_rows-Moved k x db (err no_rows) other h g = g
  on_no_rows-Moved k x db (err e) other h g = tt

  Moved-zero :
      (k : Key) (d : Decimal) (db : Db Decimal) → is_zero d ≡ true → Moved k (value d) db db
  Moved-zero k d db z = record {
    movements_kept = refl;
    level_moved = λ j. ground (arith, value-is_zero d z, plus-nil (on_hand dec j db.levels));
  }

  -- A delta that is applied moves the level of its key by its value and nothing else.
  pub apply_nonnegative-Moved :
      (k : Key) (d : Decimal) (db : Db Decimal)
      → Ensures (λ l db'. Moved k (value d) db db') (apply_nonnegative dec k d db)
  unfolding apply_nonnegative
  apply_nonnegative-Moved k d db =
      Ensures-if (λ l db'. Moved k (value d) db db') (is_zero d) _ _
        (λ z. at_level (get_stock_level k db) (Moved-zero k d db z))
        λ nonzero.
          on_no_rows-Moved k (value d) db _ _ (apply_nonnegative_stock_delta-Moved k d db)
            (no_row_changed-Moved k d db)
    where
      at_level :
          (o : Option (StockLevel Decimal))
          → Moved k (value d) db db
          → Ensures (λ l db'. Moved k (value d) db db') (one o db)
      at_level none m = tt
      at_level (some l) m = m
