-- ===== src/Inventory/Ledger/Requests.antt =====
-- Every request to the three handlers of inventory/handler.go keeps the ledger balanced.
use openlocal_api.Prelude.{
  ℕ, ◌≡◌, refl, sym, ap, subst, ◌∙◌, Bool, true, false, not, Option, none, some, List, ◌∷◌, ◌==◌,
  if◌then◌else◌, arith, ==_iff,
}
use openlocal_api.Api.{Result, ok, err, unique_violation}
use openlocal_api.Tx.{◌>>◌}
use openlocal_api.Tx.Ensures.{
  Ensures, Ensures-bind, Ensures-one, Ensures-guard, Ensures-choose, Ensures-weaken,
}
use openlocal_api.Decimal.{DecimalApi}
use openlocal_api.Text.Runes.{Text}
use openlocal_api.Inventory.Rows.{
  CreateParams, StockMovement, UpdateParams, StockLevel, Db, same_text,
}
use openlocal_api.Inventory.Service.{signed_quantity, movement_delta, same_movement_edit}
use openlocal_api.Inventory.Queries.{
  Key, movement_key, find_movement, replace_movement, row_of, updated, create_stock_movement,
  create_inventory_location, get_stock_level, update_stock_movement, apply_stock_delta, audit,
}
use openlocal_api.Inventory.Handler.{
  Answer, resolve_location, in_location, Created, made, replay_at, create_body, after_insert,
  replay_stock_movement, apply_nonnegative, apply_movement_edit_delta, on_unique_violation,
  write_edit, finish_edit,
}
use openlocal_api.Inventory.Ledger.Sums.{on_hand, signed, ledger, IsBalanced}
use openlocal_api.Inventory.Ledger.Deltas.{Moved, apply_stock_delta-Moved, apply_nonnegative-Moved}
use openlocal_api.Inventory.Ledger.Edits.{
  insert-IsBalanced, edit_here-IsBalanced, edit_elsewhere-IsBalanced,
}

-- The stock tables stay.
pub record SameStock {D : Type 0} (db : Db D) (db' : Db D) : Type 0 where
  pub movements_same : db'.movements ≡ db.movements
  pub levels_same : db'.levels ≡ db.levels

abbrev same : {D : Type 0} (db : Db D) → SameStock db db
same db = record { movements_same = refl; levels_same = refl }

module _ {D : Type 0} (parse : Text → Option ℕ) where
  resolve_location-SameStock :
      (business : ℕ) (requested : Option Text) (db : Db D)
      → Ensures (λ id db'. SameStock db db') (resolve_location parse business requested db)
  unfolding resolve_location create_inventory_location
  resolve_location-SameStock business requested db = ground arith

-- What CreateStockMovement leaves, with the row that it returns or with none.
abbrev Inserted : {D : Type 0} → CreateParams D → Db D → Option (StockMovement D) → Db D → Type 0
Inserted p db none db' = SameStock db db'
Inserted p db (some m) db' =
    (m ≡ row_of db.next_id p) × (db'.movements ≡ m ∷ db.movements) × (db'.levels ≡ db.levels)

module _ {D : Type 0} where
  create_stock_movement-Inserted :
      (p : CreateParams D) (db : Db D)
      → Ensures (λ o db'. Inserted p db o db') (create_stock_movement p db)
  unfolding create_stock_movement
  create_stock_movement-Inserted p db = ground arith

  -- What UpdateStockMovement leaves.
  update_stock_movement-replaces :
      (p : UpdateParams D) (m : StockMovement D) (db : Db D)
      → find_movement p.id p.business_id db.movements ≡ some m
      → Ensures
          (λ n db'.
            (db'.movements ≡ replace_movement p.id p.business_id (updated m p) db.movements)
            × (db'.levels ≡ db.levels))
          (update_stock_movement p db)
  unfolding update_stock_movement
  update_stock_movement-replaces p m db f = ground arith

-- Balance in terms of tables that have been named.
abbrev pub Balanced :
    (dec : DecimalApi) → Db dec.Decimal → List (StockMovement dec.Decimal) → Type 0
Balanced dec db ms = (k : Key) → on_hand dec k db.levels ≡ ledger dec k ms

pub Balanced-movements :
    (dec : DecimalApi) (db : Db dec.Decimal) (ms : List (StockMovement dec.Decimal))
    → db.movements ≡ ms
    → Balanced dec db ms
    → IsBalanced dec db
Balanced-movements dec db ms e b k = b k ∙ ap (ledger dec k) (sym e)

pub Balanced-same :
    (dec : DecimalApi) (db db' : Db dec.Decimal)
    → db'.levels ≡ db.levels
    → IsBalanced dec db
    → Balanced dec db' db.movements
Balanced-same dec db db' e b k = ap (on_hand dec k) e ∙ b k

module _ (dec : DecimalApi) (parse : Text → Option ℕ) where
  open dec use {Decimal, value}

  unfoldable pub MadeBalanced : Created dec parse → Db Decimal → Type 0
  MadeBalanced (made answer) db = IsBalanced dec db
  MadeBalanced (replay_at location) db = Unit

  pub create_body-MadeBalanced :
      (p : CreateParams Decimal) (user : ℕ) (requested : Option Text) (db : Db Decimal)
      → IsBalanced dec db
      → Ensures MadeBalanced (create_body dec parse p user requested db)
  unfolding create_body after_insert MadeBalanced audit
  create_body-MadeBalanced p user requested db b =
      Ensures-bind MadeBalanced (λ id db1. SameStock db db1)
        (resolve_location parse p.business_id requested) _ db
        (resolve_location-SameStock parse p.business_id requested db)
        λ location db1 s1.
          Ensures-bind MadeBalanced (λ o db2. Inserted (in_location dec parse p location) db1 o db2)
            (create_stock_movement (in_location dec parse p location)) _ db1
            (create_stock_movement-Inserted (in_location dec parse p location) db1)
            λ o db2 ins. on_created location db1 s1 o db2 ins
    where
      on_created :
          (location : ℕ) (db1 : Db Decimal)
          → SameStock db db1
          → (o : Option (StockMovement Decimal)) (db2 : Db Decimal)
          → Inserted (in_location dec parse p location) db1 o db2
          → Ensures MadeBalanced (after_insert dec parse p user location o db2)
      on_created location db1 s1 none db2 ins = tt
      on_created location db1 s1 (some m) db2 (e, ms, ls) =
          Ensures-bind MadeBalanced
            (λ l db3.
              Moved dec (p.business_id, p.variant_id, location)
                (value (signed_quantity dec p.movement_type p.quantity)) db2 db3)
            (apply_stock_delta dec (p.business_id, p.variant_id, location)
              (signed_quantity dec p.movement_type p.quantity))
            _ db2 (apply_stock_delta-Moved dec _ _ db2)
            λ l db3 v.
              Balanced-movements dec db3 (m ∷ db.movements)
                (v.movements_kept ∙ ms ∙ ap (◌∷◌ m) s1.movements_same)
                (insert-IsBalanced dec m db2 db3 db.movements
                  (Balanced-same dec db db2 (ls ∙ s1.levels_same) b)
                  (subst (λ x. Moved dec (movement_key x) (signed dec x) db2 db3) (sym e) v))

module _ (dec : DecimalApi) where
  open dec use {Decimal, value, neg}

  -- A replay reads.
  pub replay_stock_movement_reads :
      (p : CreateParams Decimal) (db : Db Decimal)
      → Ensures (λ answer db'. db' ≡ db) (replay_stock_movement dec p db)
  unfolding replay_stock_movement
  replay_stock_movement_reads p db = ground arith

  on_unique_violation_keeps :
      (Q : StockMovement Decimal → Db Decimal → Type 0)
      (r : Result (StockMovement Decimal × Db Decimal))
      → Ensures Q r
      → Ensures Q (on_unique_violation dec r)
  on_unique_violation_keeps Q (ok r) h = h
  on_unique_violation_keeps Q (err unique_violation) h = tt
  on_unique_violation_keeps Q (err e) h = tt

  -- The deltas of an edit make room for the row that it writes.
  apply_movement_edit_delta-Balanced :
      (m : StockMovement Decimal) (p : UpdateParams Decimal) (db : Db Decimal)
      → IsBalanced dec db
      → find_movement p.id p.business_id db.movements ≡ some m
      → Ensures
          (λ l db'.
            (db'.movements ≡ db.movements)
            × Balanced dec db' (replace_movement p.id p.business_id (updated m p) db.movements))
          (apply_movement_edit_delta dec m p db)
  unfolding apply_movement_edit_delta
  apply_movement_edit_delta-Balanced m p db b f = at_location (m.location_id == p.location_id) refl
    where
      Room : StockLevel Decimal → Db Decimal → Type 0
      Room l db' =
          (db'.movements ≡ db.movements)
          × Balanced dec db' (replace_movement p.id p.business_id (updated m p) db.movements)

      at_location :
          (here : Bool)
          → (m.location_id == p.location_id) ≡ here
          → Ensures Room (
              (if here
                  then apply_nonnegative dec
                      (movement_key m)
                      (movement_delta dec m p.movement_type p.quantity)
                  else (do
                    apply_nonnegative dec
                        (movement_key m)
                        (neg (signed_quantity dec m.movement_type m.quantity))
                    apply_nonnegative dec
                        (m.business_id, m.variant_id, p.location_id)
                        (signed_quantity dec p.movement_type p.quantity)))
                db)
      at_location true e = Ensures-weaken Room _ _ (apply_nonnegative-Moved dec _ _ db) λ l db' v.
          (v.movements_kept, edit_here-IsBalanced dec p m db db' b f ((==_iff _ _).0 e) v)
      at_location false e =
          Ensures-bind Room
            (λ l left.
              Moved dec (movement_key m)
                (value (neg (signed_quantity dec m.movement_type m.quantity))) db left)
            (apply_nonnegative dec (movement_key m)
              (neg (signed_quantity dec m.movement_type m.quantity)))
            _ db (apply_nonnegative-Moved dec _ _ db)
            λ l left v. Ensures-weaken Room _ _ (apply_nonnegative-Moved dec _ _ left) λ l' db' w. (
              w.movements_kept ∙ v.movements_kept,
              edit_elsewhere-IsBalanced dec p m db left db' b f e v w,
            )

  write_edit-replaces :
      (p : UpdateParams Decimal) (m : StockMovement Decimal) (db : Db Decimal)
      → find_movement p.id p.business_id db.movements ≡ some m
      → Ensures
          (λ n db'.
            (db'.movements ≡ replace_movement p.id p.business_id (updated m p) db.movements)
            × (db'.levels ≡ db.levels))
          (write_edit dec p db)
  unfolding write_edit
  write_edit-replaces p m db f =
      on_unique_violation_keeps _ (update_stock_movement p db)
        (update_stock_movement-replaces p m db f)

  pub finish_edit-IsBalanced :
      (user : ℕ) (m : StockMovement Decimal) (p : UpdateParams Decimal) (db : Db Decimal)
      → IsBalanced dec db
      → find_movement p.id p.business_id db.movements ≡ some m
      → Ensures (λ answer db'. IsBalanced dec db') (finish_edit dec user m p db)
  unfolding finish_edit audit
  finish_edit-IsBalanced user m p db b f =
      Ensures-choose Balance (same_text m.idempotency_key p.idempotency_key) _ _ db
        (λ again.
          Ensures-guard Balance (not (same_movement_edit dec m p)) _ _ db
            λ e. Ensures-one Balance (get_stock_level (movement_key m) db) _ db λ level found. b)
        λ new.
          Ensures-bind Balance _ (apply_movement_edit_delta dec m p) _ db
            (apply_movement_edit_delta-Balanced m p db b f)
            λ level db1 room.
              Ensures-bind Balance
                (λ n db2.
                  (db2.movements ≡ replace_movement p.id p.business_id (updated m p) db1.movements)
                  × (db2.levels ≡ db1.levels))
                (write_edit dec p) _ db1
                (write_edit-replaces p m db1 (ap (find_movement p.id p.business_id) room.0 ∙ f))
                λ n db2 w.
                  Balanced-movements dec db2 _
                    (w.0 ∙ ap (replace_movement p.id p.business_id (updated m p)) room.0)
                    (λ k. ap (on_hand dec k) w.1 ∙ room.1 k)
    where
      Balance : Answer dec → Db Decimal → Type 0
      Balance answer db' = IsBalanced dec db'
