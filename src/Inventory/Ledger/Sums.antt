-- ===== src/Inventory/Ledger/Sums.antt =====
-- Sums over the movements of a key, and what one statement does to a level and to a sum.
use openlocal_api.Prelude.{
  ℕ, ◌≡◌, refl, ap, ◌∙◌, Bool, true, false, Option, none, some, List, [], ◌∷◌, if◌then◌else◌, arith,
}
use mathlib.Core.Option.{some-injective}
use openlocal_api.Decimal.{DecimalApi, nil-plus, plus_left_comm}
use openlocal_api.Inventory.Rows.{StockMovement, StockLevel, Db}
use openlocal_api.Inventory.Service.{signed_quantity}
use openlocal_api.Inventory.Queries.{
  Key, key_eq, movement_key, find_level, is_row, find_movement, remove_movement, replace_movement,
  upsert_level,
}

pub key_eq→eq : (j k : Key) → key_eq j k ≡ true → j ≡ k
key_eq→eq (a, b, c) (x, y, z) h = ground arith

pub key_eq_refl : (k : Key) → key_eq k k ≡ true
key_eq_refl (a, b, c) = ground arith

module _ (dec : DecimalApi) where
  open dec use {Decimal, Number, value, nil, plus, value-add}

  -- What a level says is on hand; nothing where there is no row.
  abbrev pub quantity_of : Option (StockLevel Decimal) → Number
  quantity_of none = nil
  quantity_of (some l) = value l.quantity_on_hand

  abbrev pub on_hand : Key → List (StockLevel Decimal) → Number
  on_hand k ls = quantity_of (find_level k ls)

  abbrev pub signed : StockMovement Decimal → Number
  signed m = value (signed_quantity dec m.movement_type m.quantity)

  -- What a movement adds to the level of a key.
  abbrev pub share : Key → StockMovement Decimal → Number
  share k m = if key_eq (movement_key m) k then signed m else nil

  -- The sum of the signed quantities of a key's movements.
  unfoldable pub ledger : Key → List (StockMovement Decimal) → Number
  ledger k [] = nil
  ledger k (m ∷ ms) = plus (share k m) (ledger k ms)

  abbrev pub IsBalanced : Db Decimal → Type 0
  IsBalanced db = (k : Key) → on_hand k db.levels ≡ ledger k db.movements

  pub ledger_find :
      (k : Key) (id business : ℕ) (m : StockMovement Decimal) (ms : List (StockMovement Decimal))
      → find_movement id business ms ≡ some m
      → ledger k ms ≡ plus (share k m) (ledger k (remove_movement id business ms))
  unfolding ledger find_movement remove_movement
  ledger_find k id business m [] h = cc
  ledger_find k id business m (x ∷ ms) h =
      at_row (is_row id business x) h (ledger_find k id business m ms)
    where
      at_row :
          (b : Bool)
          → (if b then some x else find_movement id business ms) ≡ some m
          → (find_movement id business ms ≡ some m
              → ledger k ms ≡ plus (share k m) (ledger k (remove_movement id business ms)))
          → plus (share k x) (ledger k ms)
            ≡ plus (share k m) (ledger k (if b then ms else x ∷ remove_movement id business ms))
      at_row true h ih = ap (λ y. plus (share k y) (ledger k ms)) (some-injective x m h)
      at_row false h ih =
          ap (plus (share k x)) (ih h) ∙ plus_left_comm dec (share k x) (share k m) _

  pub ledger-replace :
      (k : Key) (id business : ℕ) (m n : StockMovement Decimal) (ms : List (StockMovement Decimal))
      → find_movement id business ms ≡ some m
      → ledger k (replace_movement id business n ms)
        ≡ plus (share k n) (ledger k (remove_movement id business ms))
  unfolding ledger find_movement remove_movement replace_movement
  ledger-replace k id business m n [] h = cc
  ledger-replace k id business m n (x ∷ ms) h =
      at_row (is_row id business x) h (ledger-replace k id business m n ms)
    where
      at_row :
          (b : Bool)
          → (if b then some x else find_movement id business ms) ≡ some m
          → (find_movement id business ms ≡ some m
              → ledger k (replace_movement id business n ms)
                ≡ plus (share k n) (ledger k (remove_movement id business ms)))
          → ledger k (if b then n ∷ ms else x ∷ replace_movement id business n ms)
            ≡ plus (share k n) (ledger k (if b then ms else x ∷ remove_movement id business ms))
      at_row true h ih = refl
      at_row false h ih =
          ap (plus (share k x)) (ih h) ∙ plus_left_comm dec (share k x) (share k n) _

  pub on_hand-upsert_level :
      (j k : Key) (d : Decimal) (ls : List (StockLevel Decimal))
      → on_hand j (upsert_level dec k d ls)
        ≡ (if key_eq k j then plus (on_hand j ls) (value d) else on_hand j ls)
  unfolding find_level upsert_level
  on_hand-upsert_level j k d [] = ground (arith, nil-plus dec (value d))
  on_hand-upsert_level j k d (l ∷ ls) =
      ground (arith, value-add l.quantity_on_hand d, on_hand-upsert_level j k d ls)
