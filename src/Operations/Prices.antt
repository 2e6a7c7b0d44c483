-- ===== src/Operations/Prices.antt =====
-- What the loop over the items of create of internal/operations/create.go lets through.
use openlocal_api.Prelude.{
  ℕ, ◌-◌, ◌*◌, ◌%◌, ◌≤◌, ◌≡◌, ◌≢◌, sym, inl, inr, false, Option, some, List, [], ◌∷◌, ◌==◌,
  contains_id, All, All-map, arith, Bool-cases, Option-cases,
}
use openlocal_api.Api.{ok, Result-cases}
use openlocal_api.Text.Runes.{Text}
use openlocal_api.Operations.Rows.{VariantRow}
use openlocal_api.Operations.Intake.{VariantRule}
use openlocal_api.Operations.Booking.{Amount}
use openlocal_api.Operations.Changes.{positive_quantity, money}
use openlocal_api.Operations.Basket.{
  ItemInput, Line, CatalogItem, catalog, find_item, rule_amount, check_range, line_total,
  price_item, catalog_item, price_all, price_items, sum_lines, order_total,
}

-- No variant stands in two lines.
abbrev pub Distinct : List Line → Type 0
Distinct [] = Unit
Distinct (l ∷ ls) = All (λ k. k.variant_id ≢ l.variant_id) ls × Distinct ls

module _ (amount_of : Text → Option Amount) where
  -- A line is of a variant on offer, at its price, in a quantity of its rule, with the total rounded to
  -- hundredths.
  pub record Fair (items : List CatalogItem) (l : Line) : Type 0 where
    pub item : CatalogItem
    pub on_offer : find_item l.variant_id items ≡ some item
    pub priced : l.unit_price ≡ item.unit_price
    pub at_least : rule_amount amount_of item.rule.min_quantity ≤ l.quantity
    pub at_most : l.quantity ≤ rule_amount amount_of item.rule.max_quantity
    pub stepped :
        (l.quantity - rule_amount amount_of item.rule.min_quantity)
          % rule_amount amount_of item.rule.step
        ≡ 0
    pub rounded : l.total ≡ line_total l.unit_price l.quantity

  check_range_ok :
      (r : VariantRule) (quantity : ℕ) (u : Unit {0})
      → check_range amount_of r quantity ≡ ok u
      → (rule_amount amount_of r.min_quantity ≤ quantity)
        × (quantity ≤ rule_amount amount_of r.max_quantity)
        × ((quantity - rule_amount amount_of r.min_quantity) % rule_amount amount_of r.step ≡ 0)
  unfolding check_range
  check_range_ok r quantity u e = (ground (arith, e), ground (arith, e), ground (arith, e))

  price_item-Fair :
      (items : List CatalogItem) (v : CatalogItem) (i : ItemInput) (l : Line)
      → find_item i.variant_id items ≡ some v
      → price_item amount_of v i ≡ ok l
      → (l.variant_id ≡ i.variant_id) × Fair items l
  unfolding price_item
  price_item-Fair items v i l on_offer e =
      elim (Result-cases (positive_quantity amount_of i.quantity)) [
        | inr (why, failed) ↦ absurd (ground (arith, failed, e))
        | inl (quantity, counted) ↦ elim (Result-cases (check_range amount_of v.rule quantity)) [
          | inr (why, failed) ↦ absurd (ground (arith, counted, failed, e))
          | inl (u, in_range) ↦ elim (Result-cases (money amount_of i.unit_price)) [
            | inr (why, failed) ↦ absurd (ground (arith, counted, in_range, failed, e))
            | inl (price, seen) ↦ elim (Bool-cases (price == v.unit_price)) [
              | inr other ↦ absurd (ground (arith, counted, in_range, seen, other, e))
              | inl same ↦
                  let (least, most, step) = check_range_ok v.rule quantity u in_range in
                  let id : i.variant_id ≡ l.variant_id =
                    ground (arith, counted, in_range, seen, same, e) in
                  let q : quantity ≡ l.quantity =
                    ground (arith, counted, in_range, seen, same, e) in
                  let p : price ≡ l.unit_price = ground (arith, counted, in_range, seen, same, e) in
                  let total : line_total price quantity ≡ l.total =
                    ground (arith, counted, in_range, seen, same, e) in
                  (
                    sym id,
                    record {
                      item = v;
                      on_offer = rw (← id) on_offer;
                      priced = ground (arith, p, same);
                      at_least = rw (← q) least;
                      at_most = rw (← q) most;
                      stepped = rw (← q) step;
                      rounded = rw (← q, ← p) (sym total);
                    },
                  )
            ]
          ]
        ]
      ]

  -- The lines name none of the variants.
  abbrev Outside : List ℕ → List Line → Type 0
  Outside seen ls = All (λ k. contains_id seen k.variant_id ≡ false) ls

  price_all-Fair :
      (items : List CatalogItem) (seen : List ℕ) (is : List ItemInput) (ls : List Line)
      → price_all amount_of items seen is ≡ ok ls
      → All (Fair items) ls × Distinct ls × Outside seen ls
  unfolding price_all catalog_item
  price_all-Fair items seen [] [] e = (tt, tt, tt)
  price_all-Fair items seen [] (l ∷ ls) e = absurd (ground (arith, e))
  price_all-Fair items seen (i ∷ is) ls e = elim (Bool-cases (contains_id seen i.variant_id)) [
    | inl twice ↦ absurd (ground (arith, twice, e))
    | inr once ↦ elim (Option-cases (find_item i.variant_id items)) [
      | inl missing ↦ absurd (ground (arith, once, missing, e))
      | inr (v, on_offer) ↦ elim (Result-cases (price_item amount_of v i)) [
        | inr (why, failed) ↦ absurd (ground (arith, once, on_offer, failed, e))
        | inl (l, priced) ↦
            elim (Result-cases (price_all amount_of items (i.variant_id ∷ seen) is)) [
              | inr (why, failed) ↦ absurd (ground (arith, once, on_offer, priced, failed, e))
              | inl (rest, ran) ↦
                  let (fair, distinct, outside) =
                    price_all-Fair items (i.variant_id ∷ seen) is rest ran in
                  let (id, own) = price_item-Fair items v i l on_offer priced in
                  let made : l ∷ rest ≡ ls = ground (arith, once, on_offer, priced, ran, e) in
                  rw (← made) (
                    (own, fair),
                    (
                      (All-map _ (λ k. k.variant_id ≢ l.variant_id) rest
                          (λ k apart same. absurd (ground (arith, apart, same, id))) outside),
                      distinct,
                    ),
                    (
                      ground (arith, id, once),
                      All-map _ _ rest (λ k apart. ground (arith, apart)) outside,
                    ),
                  )
            ]
      ]
    ]
  ]

  -- A preorder is priced as the business offers it: each line is of another variant of the catalog, at the
  -- price that it has now, in a quantity between the bounds of its rule and on its steps, with its total
  -- rounded to hundredths; and the total of the order is the sum of the lines and fits its column.
  pub price_items-Fair :
      (rules : List VariantRule) (business : ℕ) (rows : List VariantRow) (is : List ItemInput)
      (ls : List Line) (total : ℕ)
      → price_items amount_of rules business rows is ≡ ok ls
      → order_total ls ≡ ok total
      → All (Fair (catalog rules business rows)) ls
        × Distinct ls
        × (total ≡ sum_lines ls)
        × (total ≤ 9999999999 * 100)
  unfolding price_items order_total
  price_items-Fair rules business rows is ls total e summed =
      let (fair, distinct, outside) = price_all-Fair (catalog rules business rows) [] is ls e in
      (fair, distinct, ground (arith, summed), ground (arith, summed))
