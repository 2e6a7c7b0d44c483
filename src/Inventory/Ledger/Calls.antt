-- ===== src/Inventory/Ledger/Calls.antt =====
-- The handlers of inventory/handler.go keep the ledger balanced, over any history of calls.
use openlocal_api.Prelude.{ℕ, ◌≡◌, sym, subst, ap, arith, ◌∙◌, Option, List, [], ◌∷◌, ◌==◌, not}
use openlocal_api.Api.{Result, ok, err}
use openlocal_api.Tx.Ensures.{
  Ensures, Ensures-bind, Ensures-lift, Ensures-one, Ensures-guard, Ensures-weaken, atomically_keeps,
}
use openlocal_api.Auth.{Session, require_business_role}
use openlocal_api.Decimal.{DecimalApi}
use openlocal_api.Text.Runes.{Text}
use openlocal_api.Validator.{parse_uuid, idempotency_key}
use openlocal_api.Inventory.Rows.{StockMovementRequest, CreateParams, Db}
use openlocal_api.Inventory.Service.{signed_quantity, movement_params}
use openlocal_api.Inventory.Queries.{
  movement_key, remove_movement, delete_stock_movement, audit, get_variant_for_business,
  get_stock_movement_for_update,
}
use openlocal_api.Inventory.Handler.{
  Answer, Created, made, replay_at, create_body, create_or_replay, finish_edit, staff_roles,
  edit_location, in_location, settle, edit_params, apply_nonnegative, create_request,
  update_request, delete_request, create_stock_movement_handler, update_stock_movement_handler,
  delete_stock_movement_handler,
}
use openlocal_api.Inventory.Calls.{
  Call, post_movement, patch_movement, delete_movement, serve, serve_all,
}
use openlocal_api.Inventory.Ledger.Sums.{on_hand, IsBalanced}
use openlocal_api.Inventory.Ledger.Deltas.{Moved, apply_nonnegative-Moved}
use openlocal_api.Inventory.Ledger.Edits.{remove-IsBalanced}
use openlocal_api.Inventory.Ledger.Requests.{
  Balanced-movements, MadeBalanced, create_body-MadeBalanced, replay_stock_movement_reads,
  finish_edit-IsBalanced,
}

module _ (dec : DecimalApi) (parse : Text → Option ℕ) where
  open dec use {Decimal, value, neg}

  abbrev Balance : {A : Type 0} → A → Db Decimal → Type 0
  Balance a db = IsBalanced dec db

  create_or_replay-Balance :
      (p : CreateParams Decimal) (user : ℕ) (requested : Option Text) (db : Db Decimal)
      → IsBalanced dec db
      → Ensures Balance (create_or_replay dec parse p user requested db)
  unfolding create_or_replay
  create_or_replay-Balance p user requested db b =
      settled (create_body dec parse p user requested db)
        (create_body-MadeBalanced dec parse p user requested db b)
    where
      settled :
          (r : Result (Created dec parse × Db Decimal))
          → Ensures (MadeBalanced dec parse) r
          → Ensures (Balance {A = Answer dec}) (settle dec parse p db r)
      settled (err e) h = tt
      settled (ok (made answer, db')) h = unfold MadeBalanced in h
      settled (ok (replay_at location, db')) h =
          Ensures-weaken Balance _ _
            (replay_stock_movement_reads dec (in_location dec parse p location) db)
            λ answer db' e. subst (IsBalanced dec) (sym e) b

  create-Balance :
      (s : Session) (header : Text) (req : StockMovementRequest) (db : Db Decimal)
      → IsBalanced dec db
      → Ensures (Balance {A = Answer dec}) (create_request dec parse s header req db)
  unfolding create_request get_variant_for_business
  create-Balance s header req db b = Ensures-lift Q (idempotency_key header) _ db λ key e0.
      Ensures-lift Q (parse_uuid parse req.business_id "business_id") _ db λ business e1.
        Ensures-lift Q (require_business_role s business staff_roles) _ db λ a e2.
          Ensures-lift Q (movement_params dec parse req a.user_id key) _ db λ p e3.
            Ensures-bind Q (λ u db'. db' ≡ db) (get_variant_for_business p.variant_id p.business_id)
              _ db (ground arith)
              λ u db1 e.
                subst (λ x. Ensures Q (create_or_replay dec parse p a.user_id req.location_id x))
                  (sym e) (create_or_replay-Balance p a.user_id req.location_id db b)
    where
      Q : Answer dec → Db Decimal → Type 0
      Q answer db' = IsBalanced dec db'

  edit_location_reads :
      (business current : ℕ) (requested : Option Text) (db : Db Decimal)
      → Ensures (λ id db'. db' ≡ db) (edit_location parse business current requested db)
  unfolding edit_location
  edit_location_reads business current requested db = ground arith

  update-Balance :
      (s : Session) (id_param header : Text) (req : StockMovementRequest) (db : Db Decimal)
      → IsBalanced dec db
      → Ensures (Balance {A = Answer dec}) (update_request dec parse s id_param header req db)
  unfolding update_request get_stock_movement_for_update
  update-Balance s id_param header req db b =
      Ensures-lift Q (parse_uuid parse id_param "movement id") _ db λ id e.
        Ensures-lift Q (idempotency_key header) _ db λ key e0.
          Ensures-lift Q (parse_uuid parse req.business_id "business_id") _ db λ business e1.
            Ensures-lift Q (require_business_role s business staff_roles) _ db λ a e2.
              Ensures-one Q (get_stock_movement_for_update id business db) _ db λ current found.
                Ensures-lift Q (movement_params dec parse req a.user_id key) _ db λ p e3.
                  Ensures-guard Q (not (p.business_id == current.business_id)) _ _ db λ e4.
                    Ensures-guard Q (not (p.variant_id == current.variant_id)) _ _ db λ e5.
                      Ensures-bind Q (λ location db'. db' ≡ db)
                        (edit_location parse business current.location_id req.location_id) _ db
                        (edit_location_reads business current.location_id req.location_id db)
                        λ location db1 e6.
                          subst
                            (λ x. Ensures Q (
                              finish_edit dec a.user_id current
                                (edit_params dec parse id business location p) x))
                            (sym e6)
                            (finish_edit-IsBalanced dec a.user_id current
                              (edit_params dec parse id business location p) db b found)
    where
      Q : Answer dec → Db Decimal → Type 0
      Q answer db' = IsBalanced dec db'

  delete_stock_movement-removes :
      (id business : ℕ) (db : Db Decimal)
      → Ensures
          (λ m db'.
            (db'.movements ≡ remove_movement id business db.movements) × (db'.levels ≡ db.levels))
          (delete_stock_movement id business db)
  unfolding delete_stock_movement
  delete_stock_movement-removes id business db = ground arith

  delete-Balance :
      (s : Session) (id_param business_query : Text) (db : Db Decimal)
      → IsBalanced dec db
      → Ensures (Balance {A = Unit {0}}) (delete_request dec parse s id_param business_query db)
  unfolding delete_request audit get_stock_movement_for_update
  delete-Balance s id_param business_query db b =
      Ensures-lift Q (parse_uuid parse id_param "movement id") _ db λ id e.
        Ensures-lift Q (parse_uuid parse business_query "business_id") _ db λ business e1.
          Ensures-lift Q (require_business_role s business staff_roles) _ db λ a e2.
            Ensures-one Q (get_stock_movement_for_update id business db) _ db λ movement found.
              Ensures-bind Q
                (λ l db'.
                  Moved dec (movement_key movement)
                    (value (neg (signed_quantity dec movement.movement_type movement.quantity))) db
                    db')
                (apply_nonnegative dec (movement_key movement)
                  (neg (signed_quantity dec movement.movement_type movement.quantity)))
                _ db (apply_nonnegative-Moved dec _ _ db)
                λ l db1 v.
                  Ensures-bind Q
                    (λ m db2.
                      (db2.movements ≡ remove_movement id business db1.movements)
                      × (db2.levels ≡ db1.levels))
                    (delete_stock_movement id business) _ db1
                    (delete_stock_movement-removes id business db1)
                    λ m db2 w.
                      Balanced-movements dec db2 _
                        (w.0 ∙ ap (remove_movement id business) v.movements_kept)
                        λ k.
                          ap (on_hand dec k) w.1
                          ∙ remove-IsBalanced dec id business movement db db1 b found v k
    where
      Q : Unit {0} → Db Decimal → Type 0
      Q answer db' = IsBalanced dec db'

  serve-IsBalanced :
      (s : Session) (c : Call) (db : Db Decimal)
      → IsBalanced dec db
      → IsBalanced dec (serve dec parse s c db)
  unfolding serve create_stock_movement_handler update_stock_movement_handler
      delete_stock_movement_handler
  serve-IsBalanced s (post_movement header req) db b =
      atomically_keeps (IsBalanced dec) (create_request dec parse s header req) db b
        (create-Balance s header req db b)
  serve-IsBalanced s (patch_movement id header req) db b =
      atomically_keeps (IsBalanced dec) (update_request dec parse s id header req) db b
        (update-Balance s id header req db b)
  serve-IsBalanced s (delete_movement id business) db b =
      atomically_keeps (IsBalanced dec) (delete_request dec parse s id business) db b
        (delete-Balance s id business db b)

  -- After any history of calls, accepted or not, by any callers, the quantity on hand of every
  -- business, variant and location is the sum of the signed quantities of its movements, if it was so
  -- before the history.
  pub serve_all-IsBalanced :
      (calls : List (Session × Call)) (db : Db Decimal)
      → IsBalanced dec db
      → IsBalanced dec (serve_all dec parse calls db)
  unfolding serve_all
  serve_all-IsBalanced [] db b = b
  serve_all-IsBalanced ((s, c) ∷ calls) db b =
      serve_all-IsBalanced calls (serve dec parse s c db) (serve-IsBalanced s c db b)
