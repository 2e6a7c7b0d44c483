-- ===== src/Examples/Plans.antt =====
-- A Stripe subscription to the essential tier with a second module.
use openlocal_api.Prelude.{◌≡◌, refl, true, List, [], ◌∷◌, length, String, All, any}
use openlocal_api.Text.Runes.{text, text_eq}
use openlocal_api.Billing.Plan.{
  Item, StripeSubscription, Prices, interpret, read_items, invalid_item, read_price, bool_int,
  with_base, base_of, modules_of, sort,
}
use openlocal_api.Billing.Composition.{IsSold, IsTier, IsModules, sells, interpret_sound}

abbrev prices : Prices
prices = record { essential = "price_e"; business = "price_b"; second_module = "price_m" }

abbrev sold : String → Item
sold price = record { quantity = 1; currency = "mxn"; active = true; price_id = price }

abbrev both_modules : StripeSubscription
both_modules = record {
  items = sold "price_e" ∷ sold "price_m" ∷ [];
  base_module = text "preorders";
  modules = [];
}

abbrev modules : List String
modules = "appointments" ∷ "preorders" ∷ []

interpret_sound_example :
    All IsSold both_modules.items
    × IsTier "essential"
    × (any (sells prices "essential") both_modules.items ≡ true)
    × IsModules modules
    × (length modules ≡ length both_modules.items)
unfolding interpret read_items invalid_item read_price bool_int with_base text_eq base_of modules_of
    sort
interpret_sound_example = interpret_sound prices both_modules "essential" modules refl
