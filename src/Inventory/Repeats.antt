-- ===== src/Inventory/Repeats.antt =====
-- A request to createStockMovement of internal/inventory/handler.go that is sent again.
use openlocal_api.Prelude.{ℕ, ◌≡◌, sym, subst, ◌∙◌, true, Option, none, some, arith}
use openlocal_api.Api.{Result, ok, err}
use openlocal_api.Tx.Ensures.{Ensures, Ensures-bind, Ensures-weaken}
use openlocal_api.Decimal.{DecimalApi}
use openlocal_api.Text.Runes.{Text, text_eq_refl}
use openlocal_api.Inventory.Rows.{CreateParams, StockMovement, Db}
use openlocal_api.Inventory.Service.{signed_quantity}
use openlocal_api.Inventory.Queries.{
  find_by_key, get_stock_movement_by_idempotency_key, create_stock_movement, apply_stock_delta,
  audit,
}
use openlocal_api.Inventory.Ledger.Deltas.{apply_stock_delta-Moved}
use openlocal_api.Inventory.Replay.{
  IsReplay, has_key_find, replay_stock_movement-IsReplay, resolve_location_keeps, replayed_create,
}
use openlocal_api.Inventory.Handler.{
  Answer, Created, made, replay_at, in_location, create_body, after_insert, settle,
  create_or_replay, resolve_location,
}

module _ (dec : DecimalApi) (parse : Text → Option ℕ) where
  open dec use {Decimal}

  -- The movement that a key leads to.
  Stored : CreateParams Decimal → StockMovement Decimal → Db Decimal → Type 0
  Stored p m db = get_stock_movement_by_idempotency_key p.business_id p.idempotency_key db ≡ some m

  MadeStored : CreateParams Decimal → Created dec parse → Db Decimal → Type 0
  MadeStored p (made answer) db = Stored p answer.movement db
  MadeStored p (replay_at location) db = Unit

  -- What CreateStockMovement returns is stored under its key.
  NewStored : CreateParams Decimal → Option (StockMovement Decimal) → Db Decimal → Type 0
  NewStored p none db = Unit
  NewStored p (some m) db = Stored p m db

  create_stock_movement-NewStored :
      (p : CreateParams Decimal) (location : ℕ) (key : Text) (db : Db Decimal)
      → p.idempotency_key ≡ some key
      → Ensures
          (λ o db'. NewStored p o db')
          (create_stock_movement (in_location dec parse p location) db)
  unfolding create_stock_movement NewStored Stored get_stock_movement_by_idempotency_key find_by_key
  create_stock_movement-NewStored p location key db keyed = ground (arith, keyed, text_eq_refl key)

  after_insert-MadeStored :
      (p : CreateParams Decimal) (user location : ℕ) (o : Option (StockMovement Decimal))
      (db : Db Decimal)
      → NewStored p o db
      → Ensures (MadeStored p) (after_insert dec parse p user location o db)
  unfolding after_insert MadeStored NewStored Stored audit get_stock_movement_by_idempotency_key
  after_insert-MadeStored p user location none db h = tt
  after_insert-MadeStored p user location (some m) db h =
      Ensures-bind (MadeStored p) (λ l db1. db1.movements ≡ db.movements)
        (apply_stock_delta dec (p.business_id, p.variant_id, location)
          (signed_quantity dec p.movement_type p.quantity))
        _ db
        (Ensures-weaken (λ l db1. db1.movements ≡ db.movements) _ _
          (apply_stock_delta-Moved dec _ _ db) λ l db1 v. v.movements_kept)
        λ l db1 same. rw same h

  create_body-MadeStored :
      (p : CreateParams Decimal) (user : ℕ) (requested : Option Text) (key : Text) (db : Db Decimal)
      → p.idempotency_key ≡ some key
      → Ensures (MadeStored p) (create_body dec parse p user requested db)
  unfolding create_body
  create_body-MadeStored p user requested key db keyed =
      Ensures-bind (MadeStored p) (λ id db1. Unit {0})
        (resolve_location parse p.business_id requested) _ db
        (Ensures-weaken (λ id db1. Unit {0}) _ _
          (resolve_location_keeps dec parse p.business_id requested db) λ id db1 same. tt)
        λ location db1 u.
          Ensures-bind (MadeStored p) (NewStored p)
            (create_stock_movement (in_location dec parse p location)) _ db1
            (create_stock_movement-NewStored p location key db1 keyed)
            λ o db2 h. after_insert-MadeStored p user location o db2 h

  create_or_replay-Stored :
      (p : CreateParams Decimal) (user : ℕ) (requested : Option Text) (key : Text) (db : Db Decimal)
      → p.idempotency_key ≡ some key
      → Ensures
          (λ answer db'. Stored p answer.movement db')
          (create_or_replay dec parse p user requested db)
  unfolding create_or_replay
  create_or_replay-Stored p user requested key db keyed =
      settled (create_body dec parse p user requested db)
        (create_body-MadeStored p user requested key db keyed)
    where
      Q : Answer dec → Db Decimal → Type 0
      Q answer db' = Stored p answer.movement db'

      settled :
          (r : Result (Created dec parse × Db Decimal))
          → Ensures (MadeStored p) r
          → Ensures Q (settle dec parse p db r)
      settled (err e) h = tt
      settled (ok (made answer, db')) h = unfold MadeStored in h
      settled (ok (replay_at location, db')) h =
          Ensures-weaken Q _ _ (replay_stock_movement-IsReplay dec parse p location db)
            λ answer db' (same, replay).
              subst (Stored p answer.movement) (sym same) (unfold Stored in replay.stored)

  -- A POST that is repeated after an answer, with the same business and key, never changes the tables
  -- again, whatever its content: if it is answered, the answer is the same movement, as a replay.
  pub repeated_create :
      (p q : CreateParams Decimal) (user user' : ℕ) (requested requested' : Option Text)
      (key : Text) (db db1 : Db Decimal) (answer : Answer dec)
      → p.idempotency_key ≡ some key
      → q.idempotency_key ≡ p.idempotency_key
      → q.business_id ≡ p.business_id
      → create_or_replay dec parse p user requested db ≡ ok (answer, db1)
      → Ensures
          (λ again db2. (db2 ≡ db1) × (again.replayed ≡ true) × (again.movement ≡ answer.movement))
          (create_or_replay dec parse q user' requested' db1)
  unfolding Stored get_stock_movement_by_idempotency_key
  repeated_create p q user user' requested requested' key db db1 answer keyed its_key its_business
        first =
      let stored : Stored p answer.movement db1 =
        subst (Ensures (λ a db'. Stored p a.movement db')) first
          (create_or_replay-Stored p user requested key db keyed) in
      let stored' : Stored q answer.movement db1 = rw (its_key, its_business) stored in
      Ensures-weaken Q
        (λ again db2. (db2 ≡ db1) × ((location : ℕ) × IsReplay dec parse q location db1 again)) _
        (replayed_create dec parse q user' requested' db1
          (has_key_find q.business_id q.idempotency_key db1.movements answer.movement stored'))
        λ again db2 (same, (location, replay)).
          let e : some again.movement ≡ some answer.movement = sym replay.stored ∙ stored' in
          (same, replay.replayed, cc e)
    where
      Q : Answer dec → Db Decimal → Type 0
      Q again db2 = (db2 ≡ db1) × (again.replayed ≡ true) × (again.movement ≡ answer.movement)
