-- ===== src/Inventory/Tenancy.antt =====
-- Whose locations the requests of internal/inventory may name: edits (updateStockMovement in handler.go)
-- and new movements (ResolveLocation in service.go).
use openlocal_api.Prelude.{
  ℕ, ◌≡◌, ◌≢◌, ◌⊎◌, inl, inr, refl, Bool, true, false, ◌&&◌, Option, none, some, List, [], ◌∷◌,
  ◌==◌, any, find, arith, Option-cases,
}
use openlocal_api.Api.{Result, ok, err}
use openlocal_api.Tx.{◌>>=◌}
use openlocal_api.Tx.Ensures.{Ensures}
use openlocal_api.Text.Runes.{Text}
use openlocal_api.Text.Fields.{trim_space}
use openlocal_api.Validator.{parse_uuid}
use openlocal_api.Inventory.Rows.{CreateParams, StockMovement, InventoryLocation, Db}
use openlocal_api.Inventory.Queries.{
  location_exists, get_inventory_location_for_business, create_stock_movement, has_key,
}
use openlocal_api.Inventory.Handler.{given, edit_location, resolve_location}

-- The business has a location of that id.
abbrev pub OwnsLocation : {D : Type 0} → ℕ → ℕ → Db D → Type 0
OwnsLocation business id db = any (λ l. l.id == id && l.business_id == business) db.locations ≡ true

any_of_find :
    (p : InventoryLocation → Bool) (xs : List InventoryLocation) (l : InventoryLocation)
    → find p xs ≡ some l
    → any p xs ≡ true
any_of_find p [] l h = cc
any_of_find p (x ∷ xs) l h = ground (arith, any_of_find p xs l)

module _ {D : Type 0} (parse : Text → Option ℕ) where
  -- An edit leaves a movement where it is, or takes it to a location of the same business; it never
  -- changes the tables in finding out which.
  pub edit_location-OwnsLocation :
      (business current : ℕ) (requested : Option Text) (db : Db D)
      → Ensures
          (λ id db'. (db' ≡ db) × ((id ≡ current) ⊎ OwnsLocation business id db'))
          (edit_location parse business current requested db)
  unfolding edit_location get_inventory_location_for_business parse_uuid
  edit_location-OwnsLocation business current requested db = elim (Option-cases (given requested)) [
    | inl none_given ↦ ground (arith, none_given)
    | inr (value, named) ↦ elim (Option-cases (parse (trim_space value))) [
      | inl unread ↦ ground (arith, named, unread)
      | inr (id, reads) ↦
          elim (Option-cases (find (λ l. l.id == id && l.business_id == business) db.locations)) [
            | inl missing ↦ ground (arith, named, reads, missing)
            | inr (l, found) ↦ ground (
              arith,
              named,
              reads,
              found,
              any_of_find (λ l. l.id == id && l.business_id == business) db.locations l found,
            )
          ]
    ]
  ]

  -- The movement that CreateStockMovement returns is at the location.
  pub MadeAt : ℕ → Result (Option (StockMovement D) × Db D) → Type 0
  MadeAt id (ok (some m, db')) = m.location_id ≡ id
  MadeAt id (ok (none, db')) = ⊥
  MadeAt id (err e) = ⊥

  -- A new movement is written to the location that the request names even where the business has no
  -- such location: any location that exists will do, whichever business it belongs to.
  pub create_takes_foreign_location :
      (p : CreateParams D) (value : Text) (id : ℕ) (db : Db D)
      → parse (trim_space value) ≡ some id
      → value ≢ []
      → location_exists id db ≡ true
      → any (λ l. l.id == id && l.business_id == p.business_id) db.locations ≡ false
      → has_key p.business_id p.idempotency_key db.movements ≡ false
      → MadeAt id (
          (resolve_location parse p.business_id (some value) >>= λ location.
          create_stock_movement (record p { location_id = location }))
            db)
  unfolding MadeAt resolve_location parse_uuid create_stock_movement
  create_takes_foreign_location p [] id db reads named exists foreign new = absurd (named refl)
  create_takes_foreign_location p (c ∷ cs) id db reads named exists foreign new = ground arith
