-- ===== src/Operations/Basket.antt =====
-- The items of a preorder: catalog of internal/operations/configuration.go with PreorderVariants, and the
-- loop of create of create.go that prices them. Quantities are in thousandths, prices in hundredths; the
-- variant rules of the settings are ones that validateSettings has let through.
use openlocal_api.Prelude.{
  ℕ, suc, ◌+◌, ◌-◌, ◌*◌, ◌/◌, ◌%◌, Bool, true, false, not, ◌&&◌, ◌||◌, Option, none, some, List, [],
  ◌∷◌, str_eq, ◌==◌, ltb, contains_id, if◌then◌else◌,
}
use openlocal_api.Api.{plain, Result, ok, err, ◌>>=◌}
use openlocal_api.Text.Runes.{Text}
use openlocal_api.Operations.Rows.{VariantRow}
use openlocal_api.Operations.Expire.{bad}
use openlocal_api.Operations.Intake.{VariantRule}
use openlocal_api.Operations.Booking.{Amount, conflict}
use openlocal_api.Operations.Changes.{positive_quantity, money}

-- An item of PreorderInput
pub record ItemInput : Type 0 where
  pub variant_id : ℕ
  pub quantity : Text
  pub unit_price : Text

-- CreatePreorderItemParams, without the texts
pub record Line : Type 0 where
  pub variant_id : ℕ
  pub quantity : ℕ
  pub unit_price : ℕ
  pub total : ℕ

-- CatalogItem, without its texts: the rule and the price of a variant
pub record CatalogItem : Type 0 where
  pub variant_id : ℕ
  pub unit_price : ℕ
  pub rule : VariantRule

-- The rule of a variant: the last that names it.
unfoldable pub rule_for : ℕ → List VariantRule → Option VariantRule
rule_for id [] = none
rule_for id (r ∷ rs) =
    let rest = rule_for id rs in
    elim rest [ some later ↦ some later | none ↦ if r.variant_id == id then some r else none ]

-- catalog
unfoldable pub catalog : List VariantRule → ℕ → List VariantRow → List CatalogItem
catalog rules business [] = []
catalog rules business (v ∷ vs) =
    let rest = catalog rules business vs in
    if not (v.business_id == business && v.available) || not (str_eq v.currency "MXN")
    then rest
    else elim (rule_for v.id rules) [
      | none ↦ rest
      | some r ↦ record { variant_id = v.id; unit_price = v.price; rule = r } ∷ rest
    ]

-- slices.IndexFunc on the catalog
unfoldable pub find_item : ℕ → List CatalogItem → Option CatalogItem
find_item id [] = none
find_item id (c ∷ cs) = let rest = find_item id cs in if c.variant_id == id then some c else rest

-- decimal.NewFromString of a rule, zero where it fails
unfoldable pub rule_amount : (Text → Option Amount) → Text → ℕ
rule_amount amount_of raw = elim (amount_of raw) [ none ↦ 0 | some d ↦ d.thousandths ]

-- The quantity is outside of its range or between two steps. A step of zero makes Mod panic.
unfoldable pub check_range : (Text → Option Amount) → VariantRule → ℕ → Result (Unit {0})
check_range amount_of r quantity =
    let least = rule_amount amount_of r.min_quantity in
    let most = rule_amount amount_of r.max_quantity in
    let step = rule_amount amount_of r.step in
    if ltb quantity least || ltb most quantity
    then err (bad "quantity is outside allowed range or step")
    else if step == 0
    then err (plain "decimal division by 0")
    else if not ((quantity - least) % step == 0)
    then err (bad "quantity is outside allowed range or step")
    else ok tt

-- price.Mul(quantity).Round(2)
abbrev pub line_total : ℕ → ℕ → ℕ
line_total price quantity = (price * quantity + 500) / 1000

-- One item, priced: the customer has seen the price that holds.
unfoldable pub price_item : (Text → Option Amount) → CatalogItem → ItemInput → Result Line
price_item amount_of v i = positive_quantity amount_of i.quantity >>= λ quantity.
    check_range amount_of v.rule quantity >>= λ u. money amount_of i.unit_price >>= λ price.
    if not (price == v.unit_price)
    then err (conflict "price_changed")
    else ok (record {
      variant_id = i.variant_id;
      quantity = quantity;
      unit_price = price;
      total = line_total price quantity;
    })

unfoldable pub catalog_item : ℕ → List CatalogItem → Result CatalogItem
catalog_item id items = elim (find_item id items) [
  | none ↦ err (bad "item is unavailable")
  | some v ↦ ok v
]

-- The loop over the items, with the variants that it has seen.
unfoldable pub price_all :
    (Text → Option Amount) → List CatalogItem → List ℕ → List ItemInput → Result (List Line)
price_all amount_of items seen [] = ok []
price_all amount_of items seen (i ∷ is) =
    if contains_id seen i.variant_id
    then err (bad "duplicate item")
    else catalog_item i.variant_id items >>= λ v. price_item amount_of v i >>= λ line.
        price_all amount_of items (i.variant_id ∷ seen) is >>= λ rest. ok (line ∷ rest)

unfoldable pub price_items :
    (Text → Option Amount)
    → List VariantRule
    → ℕ
    → List VariantRow
    → List ItemInput
    → Result (List Line)
price_items amount_of rules business rows items =
    price_all amount_of (catalog rules business rows) [] items

unfoldable pub sum_lines : List Line → ℕ
sum_lines [] = 0
sum_lines (l ∷ ls) = l.total + sum_lines ls

-- The total, which has to fit its column.
unfoldable pub order_total : List Line → Result ℕ
order_total lines =
    if ltb (9999999999 * 100) (sum_lines lines)
    then err (bad "total is too large")
    else ok (sum_lines lines)

abbrev pub no_inputs : List ItemInput → Bool
no_inputs [] = true
no_inputs (i ∷ is) = false

abbrev pub count_inputs : List ItemInput → ℕ
count_inputs [] = 0
count_inputs (i ∷ is) = suc (count_inputs is)
