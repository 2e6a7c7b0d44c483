-- ===== src/Billing/Composition.antt =====
-- Which subscriptions interpret of internal/billing/change.go takes, and what it makes of them.
use openlocal_api.Prelude.{
  ◌+◌, ◌≡◌, ◌⊎◌, inl, inr, Bool, true, false, not, ◌||◌, List, [], ◌∷◌, length, String, str_eq,
  ◌==◌, All, any, arith, if◌then◌else◌, refl, sym, subst, ◌∙◌, Bool-cases,
}
use openlocal_api.Api.{Error, fail, Result, ok, require, >>=-eq-ok, ◌>>◌}
use openlocal_api.Text.Runes.{Text}
use openlocal_api.Billing.Plan.{
  Item, StripeSubscription, Prices, bool_int, invalid_item, read_price, read_items, base_of, sort,
  modules_of, with_base, interpret,
}

-- An item that is paid for once, in pesos, at a price that is still offered.
abbrev pub IsSold : Item → Type 0
IsSold it = (it.quantity ≡ 1) × (str_eq it.currency "mxn" ≡ true) × (it.active ≡ true)

-- One of the two tiers.
abbrev pub IsTier : String → Type 0
IsTier tier = (tier ≡ "essential") ⊎ (tier ≡ "business")

-- The modules, in order, without repetition.
abbrev pub IsModules : List String → Type 0
IsModules ms =
    (ms ≡ "appointments" ∷ []) ⊎ (ms ≡ "preorders" ∷ []) ⊎ (ms ≡ "appointments" ∷ "preorders" ∷ [])

-- Whether the price of an item stands for the tier.
abbrev pub sells : Prices → String → Item → Bool
sells prices tier it =
    str_eq it.price_id (if str_eq tier "essential" then prices.essential else prices.business)

-- The tier that the loop ends with: the one it began with, or one that an item sells.
abbrev TierRead : Prices → List Item → String → String → Type 0
TierRead prices items before after =
    (after ≡ before) ⊎ (IsTier after × (any (sells prices after) items ≡ true))

read_price-TierRead :
    (prices : Prices) (it : Item) (seen read : String × Bool)
    → read_price prices it seen ≡ ok read
    → (read.0 ≡ seen.0) ⊎ (IsTier read.0 × (sells prices read.0 it ≡ true))
unfolding read_price
read_price-TierRead prices it (tier, addon) read h =
    elim (Bool-cases (str_eq it.price_id prices.essential)) [
      | inl essential ↦
          let sold : "essential" ≡ read.0 = ground (arith, essential) in
          inr (subst (λ t. IsTier t × (sells prices t it ≡ true)) sold (inl refl, essential))
      | inr other ↦ elim (Bool-cases (str_eq it.price_id prices.business)) [
        | inl business ↦
            let sold : "business" ≡ read.0 = ground (arith, other, business) in
            inr (subst (λ t. IsTier t × (sells prices t it ≡ true)) sold (inr refl, business))
        | inr neither ↦ inl (ground (arith, other, neither))
      ]
    ]

TierRead-later :
    (prices : Prices) (it : Item) (items : List Item) (before middle after : String)
    → (middle ≡ before) ⊎ (IsTier middle × (sells prices middle it ≡ true))
    → TierRead prices items middle after
    → TierRead prices (it ∷ items) before after
TierRead-later prices it items before middle after (inl e) (inl f) = inl (f ∙ e)
TierRead-later prices it items before middle after (inr (t, s)) (inl f) =
    inr (subst IsTier (sym f) t, ground (arith, subst (λ x. sells prices x it ≡ true) (sym f) s))
TierRead-later prices it items before middle after m (inr (t, s)) = inr (t, ground (arith, s))

read_items-TierRead :
    (prices : Prices) (items : List Item) (seen read : String × Bool)
    → read_items prices items seen ≡ ok read
    → All IsSold items × TierRead prices items seen.0 read.0
unfolding read_items invalid_item
read_items-TierRead prices [] seen read h = (tt, inl (ground arith))
read_items-TierRead prices (it ∷ items) seen read h = elim (Bool-cases (invalid_item it)) [
  | inl invalid ↦ absurd (ground (arith, invalid))
  | inr sold ↦
      let (now, one_item, rest) =
        >>=-eq-ok (read_price prices it seen) (read_items prices items)
          (rw (sold, read_items) at h) in
      let (all_sold, tier) = read_items-TierRead prices items now read rest in
      (
        (ground (arith, sold), all_sold),
        TierRead-later prices it items seen.0 now.0 read.0
            (read_price-TierRead prices it seen now one_item) tier,
      )
]

modules_of-IsModules :
    (base : String) (addon : Bool)
    → (base ≡ "appointments") ⊎ (base ≡ "preorders")
    → IsModules (modules_of base addon) × (length (modules_of base addon) ≡ 1 + bool_int addon)
unfolding modules_of sort bool_int
modules_of-IsModules base true (inl e) = rw e (inr (inr refl), refl)
modules_of-IsModules base true (inr e) = rw e (inr (inr refl), refl)
modules_of-IsModules base false (inl e) = rw e (inl refl, refl)
modules_of-IsModules base false (inr e) = rw e (inr (inl refl), refl)

with_base-IsModules :
    (tier : String) (addon : Bool) (base : Text) (plan : String × List String)
    → with_base tier addon base ≡ ok plan
    → (plan.0 ≡ tier) × IsModules plan.1 × (length plan.1 ≡ 1 + bool_int addon)
unfolding with_base
with_base-IsModules tier addon base plan h = ground (
  arith,
  modules_of-IsModules "appointments" addon (inl refl),
  modules_of-IsModules "preorders" addon (inr refl),
)

require_passed :
    (b : Bool) (e : Error) (r : Result (String × List String)) {plan : String × List String}
    → (require b e >> r) ≡ ok plan
    → (b ≡ true) × (r ≡ ok plan)
require_passed true e r h = (refl, h)
require_passed false e r h = cc

IsTier-taken :
    (prices : Prices) (items : List Item) (tier : String)
    → TierRead prices items "" tier
    → str_eq tier "" ≡ false
    → IsTier tier × (any (sells prices tier) items ≡ true)
IsTier-taken prices items tier (inl e) h =
    absurd (ground (arith, subst (λ t. str_eq t "" ≡ false) e h))
IsTier-taken prices items tier (inr t) h = t

-- A subscription is taken only if each of its items is one unit, in pesos, at an active price, one of
-- them sells the tier that is read from it, and it has as many items as modules. The modules come in
-- order, without repetition.
pub interpret_sound :
    (prices : Prices) (s : StripeSubscription) (tier : String) (modules : List String)
    → interpret prices s ≡ ok (tier, modules)
    → All IsSold s.items
      × IsTier tier
      × (any (sells prices tier) s.items ≡ true)
      × IsModules modules
      × (length modules ≡ length s.items)
unfolding interpret
interpret_sound prices s tier modules h =
    let (read, items_read, rest) = >>=-eq-ok (read_items prices s.items ("", false)) _ h in
    let (all_sold, found) = read_items-TierRead prices s.items ("", false) read items_read in
    let (composed, based) =
      require_passed (not (str_eq read.0 "" || not (length s.items == 1 + bool_int read.1)))
        (fail 409 "billing_unavailable" "invalid subscription composition") _ rest in
    let (same_tier, ordered, sized) =
      with_base-IsModules read.0 read.1 (base_of s) (tier, modules) based in
    let taken = IsTier-taken prices s.items read.0 found (ground (arith, composed)) in
    let (is_tier, sold) =
      subst (λ t. IsTier t × (any (sells prices t) s.items ≡ true)) (sym same_tier) taken in
    let as_many : length s.items ≡ 1 + bool_int read.1 = ground (arith, composed) in
    (all_sold, is_tier, sold, ordered, sized ∙ sym as_many)
