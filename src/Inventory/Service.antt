-- ===== src/Inventory/Service.antt =====
-- internal/inventory/service.go
use openlocal_api.Prelude.{
  ℕ, Bool, true, false, ◌&&◌, Option, none, some, List, [], ◌∷◌, ◌==◌, if◌then◌else◌,
}
use openlocal_api.Api.{fiber, Result, ok, err, ◌>>=◌, ◌>>◌, require}
use openlocal_api.Decimal.{DecimalApi}
use openlocal_api.Text.Runes.{Text, text, text_eq, has_prefix, contains_text, to_upper}
use openlocal_api.Text.Fields.{trim_space}
use openlocal_api.Validator.{
  clean, clean_optional, parse_uuid, parse_decimal, decimal_range, string_length,
}
use openlocal_api.Inventory.Rows.{
  StockMovementRequest, CreateParams, StockMovement, UpdateParams, same_text, same_id,
}

abbrev pub movement_types : List Text
movement_types =
    text "IN_PURCHASE"
    ∷ text "IN_PRODUCTION"
    ∷ text "OUT_SALE"
    ∷ text "OUT_ADJUSTMENT"
    ∷ text "IN_ADJUSTMENT"
    ∷ text "OUT_LOSS"
    ∷ []

-- ValidMovementType
unfoldable pub valid_movement_type : Text → Bool
unfolding contains_text
valid_movement_type value = contains_text movement_types value

-- api.NullString
unfoldable pub null_string : Option Text → Option Text
null_string none = none
null_string (some []) = none
null_string (some (c ∷ cs)) = some (c ∷ cs)

-- The checks of an optional field that was given.
check_optional : Option Text → ℕ → Result (Unit {0})
check_optional none max_length = ok tt
check_optional (some value) max_length = string_length value "reference" 1 max_length

module _ (dec : DecimalApi) where
  open dec use {Decimal, new_from_string, zero, sub, neg, equal}

  -- SignedQuantity
  unfoldable pub signed_quantity : Text → Decimal → Decimal
  signed_quantity movement_type quantity =
      if has_prefix movement_type (text "OUT_") then neg quantity else quantity

  -- MovementDelta
  unfoldable pub movement_delta : StockMovement Decimal → Text → Decimal → Decimal
  unfolding signed_quantity
  movement_delta old new_type new_quantity =
      sub (signed_quantity new_type new_quantity) (signed_quantity old.movement_type old.quantity)

  -- sameNullDecimal
  unfoldable pub same_null_decimal : Option Decimal → Option Decimal → Bool
  same_null_decimal none none = true
  same_null_decimal (some a) (some b) = equal a b
  same_null_decimal _ _ = false

  -- SameMovement
  unfoldable pub same_movement : StockMovement Decimal → CreateParams Decimal → Bool
  unfolding same_null_decimal text_eq
  same_movement m p =
      m.business_id == p.business_id
      && m.variant_id == p.variant_id
      && m.location_id == p.location_id
      && text_eq m.movement_type p.movement_type
      && equal m.quantity p.quantity
      && same_null_decimal m.unit_cost p.unit_cost
      && same_text m.reference_type p.reference_type
      && same_text m.reference_id p.reference_id
      && text_eq m.notes p.notes
      && same_id m.created_by p.created_by

  -- SameMovementEdit
  unfoldable pub same_movement_edit : StockMovement Decimal → UpdateParams Decimal → Bool
  unfolding same_null_decimal text_eq
  same_movement_edit m p =
      m.business_id == p.business_id
      && m.location_id == p.location_id
      && text_eq m.movement_type p.movement_type
      && equal m.quantity p.quantity
      && same_null_decimal m.unit_cost p.unit_cost
      && same_text m.reference_type p.reference_type
      && same_text m.reference_id p.reference_id
      && text_eq m.notes p.notes

  -- api.NullDecimal, with the error that MovementParams makes of its own
  unit_cost_of : Option Text → Result (Option Decimal)
  unit_cost_of none = ok none
  unit_cost_of (some value) = elim (trim_space value) [
    | [] ↦ ok none
    | c ∷ cs ↦ elim (parse_decimal dec value "value") [
      | ok d ↦ ok (some d)
      | err e ↦ err (fiber 400 "unit_cost must be a decimal")
    ]
  ]

  -- `low` and `high` are the decimals of the source's literals.
  unit_cost_range : Option Decimal → Decimal → Result (Unit {0})
  unit_cost_range none high = ok tt
  unit_cost_range (some d) high = decimal_range dec d "unit_cost" zero high 2

  -- decimal.RequireFromString at a literal
  literal : Text → Decimal
  literal t = elim (new_from_string t) [ none ↦ zero | some d ↦ d ]

  -- MovementParams. LocationID is set later by the handlers.
  unfoldable pub movement_params :
      (Text → Option ℕ) → StockMovementRequest → ℕ → Text → Result (CreateParams Decimal)
  unfolding check_optional unit_cost_of unit_cost_range literal
  movement_params parse req user_id key = do
    business ← parse_uuid parse req.business_id "business_id"
    variant ← parse_uuid parse req.variant_id "variant_id"
    quantity ← parse_decimal dec req.quantity "quantity"
    decimal_range dec quantity "quantity" (literal (text "0.001")) (literal (text "999999999.999"))
        3
    cost ← unit_cost_of req.unit_cost
    unit_cost_range cost (literal (text "9999999999.99"))
    let kind = to_upper (clean req.movement_type)
    require (valid_movement_type kind) (fiber 400 "movement_type is invalid")
    check_optional (clean_optional req.reference_type) 80
    check_optional (clean_optional req.reference_id) 160
    string_length (clean req.notes) "notes" 0 2000
    ok (record {
      business_id = business;
      variant_id = variant;
      location_id = 0;
      movement_type = kind;
      quantity = quantity;
      unit_cost = cost;
      reference_type = null_string (clean_optional req.reference_type);
      reference_id = null_string (clean_optional req.reference_id);
      notes = clean req.notes;
      created_by = some user_id;
      idempotency_key = null_string (some key);
    })
