-- ===== src/Examples/Stock.antt =====
-- A history of stock movements, and requests on a stock with two businesses.
use openlocal_api.Prelude.{
  ℕ, ◌+◌, ◌-◌, ◌*◌, ◌≡◌, ◌⊎◌, refl, true, false, Option, none, some, List, [], ◌∷◌, map, str_eq,
  if◌then◌else◌,
}
use openlocal_api.Api.{role_allowed}
use openlocal_api.Tx.{◌>>=◌}
use openlocal_api.Tx.Ensures.{Ensures}
use openlocal_api.Auth.{
  AuthContext, Session, current_user, member_check, IsAllowed, HoldsRole, require_business_role,
  require_business_role_sound,
}
use openlocal_api.Text.Runes.{Text, text, is_digit, is_space, has_prefix}
use openlocal_api.Text.Fields.{trim_space}
use openlocal_api.Inventory.Rows.{StockMovementRequest, CreateParams, StockLevel, Db}
use openlocal_api.Inventory.Queries.{
  find_level, has_key, create_stock_movement, get_default_inventory_location, apply_stock_delta,
  audit,
}
use openlocal_api.Inventory.Stocked.{apply_nonnegative_keeps}
use openlocal_api.Inventory.Repeats.{repeated_create}
use openlocal_api.Inventory.Handler.{
  Answer, create_or_replay, apply_nonnegative, edit_location, resolve_location, create_body,
  after_insert,
}
use openlocal_api.Inventory.Calls.{Call, post_movement, patch_movement, delete_movement, serve_all}
use openlocal_api.Inventory.Ledger.Sums.{IsBalanced, ledger}
use openlocal_api.Inventory.Ledger.Calls.{serve_all-IsBalanced}
use openlocal_api.Inventory.Tenancy.{
  OwnsLocation, edit_location-OwnsLocation, MadeAt, create_takes_foreign_location,
}
use openlocal_api.Examples.Numbers.{Thousandths, thousandths}
use openlocal_api.Inventory.Service.{signed_quantity}

read_number : Text → ℕ → Option ℕ
read_number [] acc = some acc
read_number (c ∷ cs) acc =
    let rest = read_number cs (acc * 10 + (c - 48)) in if is_digit c then rest else none

-- Identifiers written as numbers.
abbrev read_id : Text → Option ℕ
unfolding read_number is_digit
read_id [] = none
read_id (c ∷ cs) = read_number (c ∷ cs) 0

abbrev member : AuthContext
member = record {
  clerk_user_id = "user_1";
  clerk_org_id = "org_1";
  org_role = "org:member";
  role = "staff";
  user_id = 7;
}

abbrev session : Session
session = record {
  context = some member;
  user_of = λ clerk. 7;
  member_role = λ business user org. some "staff";
}

abbrev request : Text → Text → Option Text → StockMovementRequest
request kind quantity location = record {
  business_id = text "1";
  variant_id = text "2";
  location_id = location;
  movement_type = kind;
  quantity = quantity;
  unit_cost = none;
  reference_type = none;
  reference_id = none;
  notes = [];
}

-- The first business owns location 5, the second location 6.
abbrev stock : Db Thousandths
stock = record {
  movements = [];
  levels = [];
  locations =
      record { id = 5; business_id = 1; name = text "Default"; is_default = true }
      ∷ record { id = 6; business_id = 9; name = text "Default"; is_default = true }
      ∷ [];
  variants = (2, 1) ∷ [];
  audit = [];
  next_id = 100;
}

abbrev calls : List (Session × Call)
calls =
    (session, post_movement (text "key-0001") (request (text "in_purchase") (text "7.5") none))
    ∷ (session, post_movement (text "key-0001") (request (text "in_purchase") (text "7.5") none))
    ∷ (session, post_movement (text "key-0002") (request (text "out_sale") (text "2") none))
    ∷ (
      session,
      patch_movement (text "100") (text "key-0003") (request (text "in_purchase") (text "9") none),
    )
    ∷ (session, delete_movement (text "101") (text "1"))
    ∷ []

quantities : Db Thousandths → List Thousandths
quantities db = map (λ (l : StockLevel Thousandths). l.quantity_on_hand) db.levels

serve_all-IsBalanced_example : IsBalanced thousandths (serve_all thousandths read_id calls stock)
unfolding ledger find_level
serve_all-IsBalanced_example = serve_all-IsBalanced thousandths read_id calls stock (λ k. refl)

left_over : List Thousandths
left_over = quantities (serve_all thousandths read_id calls stock)

require_business_role_sound_example :
    (member.user_id ≡ session.user_of member.clerk_user_id)
    × IsAllowed member.role ("owner" ∷ "staff" ∷ [])
    × (str_eq member.clerk_org_id "" ≡ false)
    × HoldsRole (session.member_role 1 member.user_id member.clerk_org_id) ("owner" ∷ "staff" ∷ [])
unfolding require_business_role current_user role_allowed member_check
require_business_role_sound_example =
    require_business_role_sound session 1 ("owner" ∷ "staff" ∷ []) {a = member} refl

edit_location-OwnsLocation_example :
    Ensures
      (λ id db'. (db' ≡ stock) × ((id ≡ 4) ⊎ OwnsLocation 1 id db'))
      (edit_location read_id 1 4 (some (text "5")) stock)
edit_location-OwnsLocation_example = edit_location-OwnsLocation read_id 1 4 (some (text "5")) stock

abbrev new_movement : CreateParams Thousandths
new_movement = record {
  business_id = 1;
  variant_id = 2;
  location_id = 0;
  movement_type = text "IN_PURCHASE";
  quantity = (1000, 0);
  unit_cost = none;
  reference_type = none;
  reference_id = none;
  notes = [];
  created_by = some 7;
  idempotency_key = some (text "key-0009");
}

create_takes_foreign_location_example : MadeAt read_id 6 (
    (resolve_location read_id 1 (some (text "6")) >>= λ location.
    create_stock_movement (record new_movement { location_id = location }))
      stock)
unfolding has_key trim_space read_id read_number is_digit is_space
create_takes_foreign_location_example =
    create_takes_foreign_location read_id new_movement (text "6") 6 stock refl (λ e. cc) refl refl
      refl

abbrev first_answer : Answer thousandths
first_answer = record {
  movement = record {
    id = 100;
    business_id = 1;
    variant_id = 2;
    location_id = 5;
    movement_type = text "IN_PURCHASE";
    quantity = (1000, 0);
    unit_cost = none;
    reference_type = none;
    reference_id = none;
    notes = [];
    created_by = some 7;
    idempotency_key = some (text "key-0009");
  };
  level = record {
    business_id = 1;
    variant_id = 2;
    location_id = 5;
    quantity_on_hand = (1000, 0);
    quantity_reserved = (0, 0);
  };
  replayed = false;
}

abbrev stock_after : Db Thousandths
stock_after = record stock {
  movements = first_answer.movement ∷ [];
  levels = first_answer.level ∷ [];
  audit =
      record {
        business_id = 1;
        actor_user_id = 7;
        action = "inventory.movement.create";
        entity_type = "stock_movement";
        entity_id = 100;
      }
      ∷ [];
  next_id = 101;
}

repeated_create_example :
    Ensures
      (λ again db2.
        (db2 ≡ stock_after) × (again.replayed ≡ true) × (again.movement ≡ first_answer.movement))
      (create_or_replay thousandths read_id new_movement 7 none stock_after)
unfolding create_or_replay create_body resolve_location get_default_inventory_location
    create_stock_movement after_insert apply_stock_delta audit signed_quantity has_prefix
repeated_create_example =
    repeated_create thousandths read_id new_movement new_movement 7 7 none none (text "key-0009")
      stock stock_after first_answer refl refl refl refl

apply_nonnegative_keeps_example :
    Ensures
      (λ l db'.
        (find_level (1, 2, 5) db'.levels ≡ some l)
        × (thousandths.is_zero (0, 400) ≡ true → db' ≡ stock_after)
        × (thousandths.is_zero (0, 400) ≡ false
            → thousandths.less_than l.quantity_on_hand (0, 0) ≡ false))
      (apply_nonnegative thousandths (1, 2, 5) (0, 400) stock_after)
apply_nonnegative_keeps_example = apply_nonnegative_keeps thousandths (1, 2, 5) (0, 400) stock_after
