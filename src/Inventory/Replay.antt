-- ===== src/Inventory/Replay.antt =====
-- Repeated requests of internal/inventory/handler.go: createStockMovement with an Idempotency-Key that is
-- in use, and replayStockMovement.
use openlocal_api.Prelude.{
  ℕ, ◌≡◌, refl, sym, subst, true, not, Option, none, some, List, [], ◌∷◌, arith,
}
use openlocal_api.Api.{Result, ok, err}
use openlocal_api.Tx.Ensures.{Ensures, Ensures-bind, Ensures-one, Ensures-guard, Ensures-weaken}
use openlocal_api.Decimal.{DecimalApi}
use openlocal_api.Text.Runes.{Text}
use openlocal_api.Inventory.Rows.{CreateParams, StockMovement, Db}
use openlocal_api.Inventory.Service.{same_movement}
use openlocal_api.Inventory.Queries.{
  has_key, find_by_key, movement_key, get_stock_movement_by_idempotency_key, get_stock_level,
  create_stock_movement, create_inventory_location,
}
use openlocal_api.Inventory.Handler.{
  Answer, Created, made, replay_at, in_location, create_body, after_insert, settle,
  create_or_replay, replay_stock_movement, resolve_location,
}

pub has_key_find :
    {D : Type 0} (business : ℕ) (key : Option Text) (ms : List (StockMovement D))
    (m : StockMovement D)
    → find_by_key business key ms ≡ some m
    → has_key business key ms ≡ true
unfolding find_by_key has_key
has_key_find business key [] m h = cc
has_key_find business key (x ∷ ms) m h = ground (arith, has_key_find business key ms m)

module _ (dec : DecimalApi) (parse : Text → Option ℕ) where
  open dec use {Decimal}

  -- A replay answers a movement of the same business with the same key, and with the same content.
  pub record IsReplay (p : CreateParams Decimal) (location : ℕ) (db : Db Decimal)
      (answer : Answer dec) : Type 0 where
    pub replayed : answer.replayed ≡ true
    pub stored :
        get_stock_movement_by_idempotency_key p.business_id p.idempotency_key db
        ≡ some answer.movement
    pub same_content : same_movement dec answer.movement (in_location dec parse p location) ≡ true

  pub replay_stock_movement-IsReplay :
      (p : CreateParams Decimal) (location : ℕ) (db : Db Decimal)
      → Ensures
          (λ answer db'. (db' ≡ db) × IsReplay p location db answer)
          (replay_stock_movement dec (in_location dec parse p location) db)
  unfolding replay_stock_movement
  replay_stock_movement-IsReplay p location db =
      Ensures-one Q (get_stock_movement_by_idempotency_key p.business_id p.idempotency_key db) _ db
        λ movement found.
          Ensures-guard Q (not (same_movement dec movement (in_location dec parse p location))) _ _
            db
            λ same. Ensures-one Q (get_stock_level (movement_key movement) db) _ db λ level held. (
              refl,
              record { replayed = refl; stored = found; same_content = ground (arith, same) },
            )
    where
      Q : Answer dec → Db Decimal → Type 0
      Q answer db' = (db' ≡ db) × IsReplay p location db answer

  pub resolve_location_keeps :
      (business : ℕ) (requested : Option Text) (db : Db Decimal)
      → Ensures
          (λ id db'. db'.movements ≡ db.movements)
          (resolve_location parse business requested db)
  unfolding resolve_location create_inventory_location
  resolve_location_keeps business requested db = ground arith

  create_stock_movement_used :
      (p : CreateParams Decimal) (db : Db Decimal)
      → has_key p.business_id p.idempotency_key db.movements ≡ true
      → Ensures (λ o db'. o ≡ none) (create_stock_movement p db)
  unfolding create_stock_movement
  create_stock_movement_used p db used = ground (arith, used)

  -- A request whose key is in use makes no movement.
  IsReplayAt : Created dec parse → Type 0
  IsReplayAt (made answer) = ⊥
  IsReplayAt (replay_at location) = Unit

  create_body-IsReplayAt :
      (p : CreateParams Decimal) (user : ℕ) (requested : Option Text) (db : Db Decimal)
      → has_key p.business_id p.idempotency_key db.movements ≡ true
      → Ensures (λ c db'. IsReplayAt c) (create_body dec parse p user requested db)
  unfolding create_body after_insert IsReplayAt
  create_body-IsReplayAt p user requested db used =
      Ensures-bind Q (λ id db1. db1.movements ≡ db.movements)
        (resolve_location parse p.business_id requested) _ db
        (resolve_location_keeps p.business_id requested db)
        λ location db1 same.
          let still : has_key p.business_id p.idempotency_key db1.movements ≡ true = rw same used in
          Ensures-bind Q (λ o db2. o ≡ none)
            (create_stock_movement (in_location dec parse p location)) _ db1
            (create_stock_movement_used (in_location dec parse p location) db1 still)
            λ o db2 e.
              subst (λ x. Ensures Q (after_insert dec parse p user location x db2)) (sym e) tt
    where
      Q : Created dec parse → Db Decimal → Type 0
      Q c db' = IsReplayAt c

  -- A POST whose key is in use never changes the tables, and if it is answered, the answer is the
  -- movement that has the key, marked as a replay.
  pub replayed_create :
      (p : CreateParams Decimal) (user : ℕ) (requested : Option Text) (db : Db Decimal)
      → has_key p.business_id p.idempotency_key db.movements ≡ true
      → Ensures
          (λ answer db'. (db' ≡ db) × ((location : ℕ) × IsReplay p location db answer))
          (create_or_replay dec parse p user requested db)
  unfolding create_or_replay
  replayed_create p user requested db used =
      settled (create_body dec parse p user requested db)
        (create_body-IsReplayAt p user requested db used)
    where
      Q : Answer dec → Db Decimal → Type 0
      Q answer db' = (db' ≡ db) × ((location : ℕ) × IsReplay p location db answer)

      settled :
          (r : Result (Created dec parse × Db Decimal))
          → Ensures (λ c db'. IsReplayAt c) r
          → Ensures Q (settle dec parse p db r)
      settled (err e) h = tt
      settled (ok (made answer, db')) h = absurd (unfold IsReplayAt in h)
      settled (ok (replay_at location, db')) h =
          Ensures-weaken Q _ _ (replay_stock_movement-IsReplay p location db)
            λ answer db' (same, replay). (same, (location, replay))
