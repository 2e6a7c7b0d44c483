-- ===== src/Inventory/Stocked.antt =====
-- applyNonnegativeStockDelta of internal/inventory/handler.go: what edits and deletions leave on hand.
use openlocal_api.Prelude.{
  ◌≡◌, refl, true, false, none, some, List, [], ◌∷◌, arith, Option-cases, inl, inr,
}
use openlocal_api.Api.{Result, ok, err, no_rows}
use openlocal_api.Tx.Ensures.{Ensures, Ensures-if, Ensures-elim, Ensures-choose, Ensures-weaken}
use openlocal_api.Decimal.{DecimalApi}
use openlocal_api.Inventory.Rows.{StockLevel, Db}
use openlocal_api.Inventory.Queries.{
  Key, find_level, get_stock_level, raised, new_level, upsert_level, apply_stock_delta,
  apply_nonnegative_stock_delta,
}
use openlocal_api.Inventory.Handler.{apply_nonnegative, no_row_changed, on_no_rows}
use openlocal_api.Inventory.Ledger.Sums.{key_eq_refl}

module _ (dec : DecimalApi) where
  open dec use {Decimal, zero, add, less_than, is_zero, is_positive, positive_not_less}

  abbrev pub IsStocked : StockLevel Decimal → Type 0
  IsStocked l = less_than l.quantity_on_hand zero ≡ false

  -- The level of the key is the one returned, and it is not negative.
  abbrev pub Left : Key → StockLevel Decimal → Db Decimal → Type 0
  Left k l db = (find_level k db.levels ≡ some l) × IsStocked l

  find-upsert_there :
      (k : Key) (d : Decimal) (ls : List (StockLevel Decimal)) (l : StockLevel Decimal)
      → find_level k ls ≡ some l
      → find_level k (upsert_level dec k d ls) ≡ some (raised dec l d)
  unfolding find_level upsert_level
  find-upsert_there k d [] l h = cc
  find-upsert_there k d (x ∷ ls) l h = ground (arith, find-upsert_there k d ls l)

  find-upsert_missing :
      (k : Key) (d : Decimal) (ls : List (StockLevel Decimal))
      → find_level k ls ≡ none
      → find_level k (upsert_level dec k d ls) ≡ some (new_level dec k d)
  unfolding find_level upsert_level new_level
  find-upsert_missing k d [] h = rw (key_eq_refl k) refl
  find-upsert_missing k d (x ∷ ls) h = ground (arith, find-upsert_missing k d ls)

  delta_there :
      (k : Key) (d : Decimal) (db : Db Decimal)
      → Ensures (Left k) (apply_nonnegative_stock_delta dec k d db)
  unfolding apply_nonnegative_stock_delta
  delta_there k d db = Ensures-elim (Left k) (find_level k db.levels) no_rows _ λ l row.
      Ensures-if (Left k) (less_than (add l.quantity_on_hand d) zero) _ _ (λ below. tt)
        λ enough. (find-upsert_there k d db.levels l row, enough)

  delta_new :
      (k : Key) (d : Decimal) (db : Db Decimal) → Ensures (Left k) (no_row_changed dec k d db)
  unfolding no_row_changed get_stock_level apply_stock_delta new_level
  delta_new k d db =
      Ensures-choose (Left k) (is_positive d) _ _ db
        (λ positive. elim (Option-cases (find_level k db.levels)) [
          | inl missing ↦ ground (
            arith,
            missing,
            find-upsert_missing k d db.levels missing,
            positive_not_less d positive,
          )
          | inr (l, row) ↦ ground (arith, row)
        ])
        λ negative. tt

  -- applyNonnegativeStockDelta, where it succeeds, leaves the level that it returns; with a delta that
  -- is zero nothing is changed, and with any other the level is not negative.
  pub apply_nonnegative_keeps :
      (k : Key) (d : Decimal) (db : Db Decimal)
      → Ensures
          (λ l db'.
            (find_level k db'.levels ≡ some l)
            × (is_zero d ≡ true → db' ≡ db)
            × (is_zero d ≡ false → less_than l.quantity_on_hand zero ≡ false))
          (apply_nonnegative dec k d db)
  unfolding apply_nonnegative get_stock_level
  apply_nonnegative_keeps k d db =
      Ensures-if Q (is_zero d) _ _
        (λ nothing. elim (Option-cases (find_level k db.levels)) [
          | inl missing ↦ ground (arith, missing)
          | inr (l, row) ↦ ground (arith, row, nothing)
        ])
        λ something.
          Ensures-weaken Q (Left k) _
            (either (apply_nonnegative_stock_delta dec k d db) (delta_there k d db))
            λ l db' (row, stocked).
              (row, (λ nothing. absurd (ground (arith, nothing, something))), (λ e. stocked))
    where
      Q : StockLevel Decimal → Db Decimal → Type 0
      Q l db' =
          (find_level k db'.levels ≡ some l)
          × (is_zero d ≡ true → db' ≡ db)
          × (is_zero d ≡ false → less_than l.quantity_on_hand zero ≡ false)

      either :
          (r : Result (StockLevel Decimal × Db Decimal))
          → Ensures (Left k) r
          → Ensures (Left k) (on_no_rows dec r (no_row_changed dec k d db))
      either (ok (l, db')) h = h
      either (err no_rows) h = delta_new k d db
      either (err e) h = tt
