-- ===== src/Billing/Plan.antt =====
-- interpret of internal/billing/change.go, with tierRank and boolInt, and the fields of a Stripe
-- subscription that it reads. The prices are those of the configuration.
use openlocal_api.Prelude.{
  ℕ, ◌+◌, Bool, true, false, not, ◌||◌, List, [], ◌∷◌, length, String, str_eq, ◌==◌, if◌then◌else◌,
}
use Prim.Native.String.{compare}
use Prim.Native.Nat.{Ordering}
use openlocal_api.Api.{fail, Result, ok, err, ◌>>=◌, ◌>>◌, require}
use openlocal_api.Text.Runes.{Text, text, text_eq}

-- item
pub record Item : Type 0 where
  pub quantity : ℕ
  pub currency : String
  pub active : Bool
  pub price_id : String

-- Metadata["base_module"] and Metadata["modules"]; a missing key reads as the empty text.
pub record StripeSubscription : Type 0 where
  pub items : List Item
  pub base_module : Text
  pub modules : Text

-- config.Config
pub record Prices : Type 0 where
  pub essential : String
  pub business : String
  pub second_module : String

-- tierRank
unfoldable pub tier_rank : String → ℕ
tier_rank tier = if str_eq tier "business" then 2 else if str_eq tier "essential" then 1 else 0

-- boolInt
unfoldable pub bool_int : Bool → ℕ
bool_int v = if v then 1 else 0

unfoldable pub invalid_item : Item → Bool
invalid_item it = not (it.quantity == 1) || (not (str_eq it.currency "mxn") || not it.active)

-- The switch on an item's price: what it adds to the tier and the add-on that were seen.
unfoldable pub read_price : Prices → Item → String × Bool → Result (String × Bool)
read_price prices it (tier, addon) =
    if str_eq it.price_id prices.essential
    then ok ("essential", addon)
    else if str_eq it.price_id prices.business
    then ok ("business", addon)
    else if str_eq it.price_id prices.second_module
    then ok (tier, true)
    else err (fail 409 "billing_unavailable" "unknown subscription price")

-- The loop over the items.
unfoldable pub read_items : Prices → List Item → String × Bool → Result (String × Bool)
read_items prices [] seen = ok seen
read_items prices (it ∷ items) seen =
    if invalid_item it
    then err (fail 409 "billing_unavailable" "invalid subscription item")
    else do now ← read_price prices it seen; read_items prices items now

-- strings.Split(s, ",")[0]
unfoldable pub first_part : Text → Text
first_part [] = []
first_part (c ∷ cs) = if c == b',' then [] else c ∷ first_part cs

unfoldable pub base_of : StripeSubscription → Text
base_of s = if text_eq s.base_module [] then first_part s.modules else s.base_module

insert : String → List String → List String
insert s [] = s ∷ []
insert s (t ∷ rest) = elim (compare s t) [ Ordering.gt ↦ t ∷ insert s rest | _ ↦ s ∷ t ∷ rest ]

-- slices.Sort
unfoldable pub sort : List String → List String
unfolding insert
sort [] = []
sort (s ∷ rest) = insert s (sort rest)

unfoldable pub modules_of : String → Bool → List String
modules_of base addon = sort (
    if addon
    then base ∷ (if str_eq base "appointments" then "preorders" else "appointments") ∷ []
    else base ∷ [])

unfoldable pub with_base : String → Bool → Text → Result (String × List String)
with_base tier addon base =
    if text_eq base (text "appointments")
    then ok (tier, modules_of "appointments" addon)
    else if text_eq base (text "preorders")
    then ok (tier, modules_of "preorders" addon)
    else err (fail 409 "billing_unavailable" "subscription module metadata missing")

-- interpret
unfoldable pub interpret : Prices → StripeSubscription → Result (String × List String)
interpret prices s = do
  read ← read_items prices s.items ("", false)
  require (not (str_eq read.0 "" || not (length s.items == 1 + bool_int read.1)))
      (fail 409 "billing_unavailable" "invalid subscription composition")
  with_base read.0 read.1 (base_of s)
