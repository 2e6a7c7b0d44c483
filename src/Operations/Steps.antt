-- ===== src/Operations/Steps.antt =====
-- The rules that validateSettings of internal/operations/configuration.go lets through are ones that create
-- of create.go can apply.
use openlocal_api.Prelude.{
  ℕ, ◌≤◌, ◌<◌, ◌≡◌, ◌≢◌, subst, inl, inr, true, false, ◌||◌, Option, some, List, [], ◌∷◌, String,
  ◌==◌, ltb, contains_id, All, arith, Bool-cases, Option-cases,
}
use openlocal_api.Api.{plain, ok, err, Result-cases}
use openlocal_api.Text.Runes.{Text}
use openlocal_api.Operations.Intake.{VariantRule}
use openlocal_api.Operations.Booking.{Amount}
use openlocal_api.Operations.Changes.{positive_quantity}
use openlocal_api.Operations.Basket.{rule_for, rule_amount, check_range}
use openlocal_api.Operations.Rules.{Draft, is_range, check_rules, validate_settings}

module _ (amount_of : Text → Option Amount) where
  positive_amount :
      (raw : Text) (n : ℕ)
      → positive_quantity amount_of raw ≡ ok n
      → (rule_amount amount_of raw ≡ n) × (0 < n)
  unfolding positive_quantity rule_amount
  positive_amount raw n e = elim (Option-cases (amount_of raw)) [
    | inl unread ↦ absurd (ground (arith, unread, e))
    | inr (d, read) ↦ (ground (arith, read, e), ground (arith, read, e))
  ]

  -- A rule that can be applied: its bounds are in order, its step is not zero and within them.
  pub record IsRule (r : VariantRule) : Type 0 where
    pub least : 0 < rule_amount amount_of r.min_quantity
    pub ordered : rule_amount amount_of r.min_quantity ≤ rule_amount amount_of r.max_quantity
    pub stepped : 0 < rule_amount amount_of r.step
    pub reachable : rule_amount amount_of r.step ≤ rule_amount amount_of r.max_quantity

  is_range-IsRule :
      (r : VariantRule)
      → is_range
          (positive_quantity amount_of r.min_quantity)
          (positive_quantity amount_of r.max_quantity)
          (positive_quantity amount_of r.step)
        ≡ true
      → IsRule r
  unfolding is_range
  is_range-IsRule r e = elim (Result-cases (positive_quantity amount_of r.min_quantity)) [
    | inr (why, failed) ↦ absurd (ground (arith, failed, e))
    | inl (least, a) ↦ elim (Result-cases (positive_quantity amount_of r.max_quantity)) [
      | inr (why, failed) ↦ absurd (ground (arith, a, failed, e))
      | inl (most, b) ↦ elim (Result-cases (positive_quantity amount_of r.step)) [
        | inr (why, failed) ↦ absurd (ground (arith, a, b, failed, e))
        | inl (step, c) ↦
            let (least_is, least_pos) = positive_amount r.min_quantity least a in
            let (most_is, most_pos) = positive_amount r.max_quantity most b in
            let (step_is, step_pos) = positive_amount r.step step c in
            let in_order : ltb most least || ltb most step ≡ false = ground (arith, a, b, c, e) in
            record {
              least = rw least_is least_pos;
              ordered = rw (least_is, most_is) (ground (arith, in_order));
              stepped = rw step_is step_pos;
              reachable = rw (step_is, most_is) (ground (arith, in_order));
            }
      ]
    ]
  ]

  check_rules-IsRule :
      (seen : List ℕ) (rules : List VariantRule) (u : Unit {0})
      → check_rules amount_of seen rules ≡ ok u
      → All IsRule rules
  unfolding check_rules
  check_rules-IsRule seen [] u e = tt
  check_rules-IsRule seen (r ∷ rs) u e =
      elim (Bool-cases (r.variant_id == 0 || contains_id seen r.variant_id)) [
        | inl twice ↦ absurd (ground (arith, twice, e))
        | inr once ↦
            elim (Bool-cases (
              is_range (positive_quantity amount_of r.min_quantity)
                (positive_quantity amount_of r.max_quantity)
                (positive_quantity amount_of r.step))) [
                  | inr wrong ↦ absurd (ground (arith, once, wrong, e))
                  | inl right ↦ (
                    is_range-IsRule r right,
                    check_rules-IsRule (r.variant_id ∷ seen) rs u (ground (arith, once, right, e)),
                  )
                ]
      ]

  rule_for-IsRule :
      (id : ℕ) (rules : List VariantRule) (r : VariantRule)
      → All IsRule rules
      → rule_for id rules ≡ some r
      → IsRule r
  unfolding rule_for
  rule_for-IsRule id [] r all found = absurd (ground (arith, found))
  rule_for-IsRule id (x ∷ xs) r all found = elim (Option-cases (rule_for id xs)) [
    | inr (y, later) ↦ rule_for-IsRule id xs r all.1 (ground (arith, later, found))
    | inl last ↦ let same : x ≡ r = ground (arith, last, found) in subst IsRule same all.0
  ]

  validate_settings_rules :
      (d : Draft) (tier m : String) (u : Unit {0})
      → validate_settings amount_of d tier m ≡ ok u
      → check_rules amount_of [] d.settings.variant_rules ≡ ok tt
  unfolding validate_settings
  validate_settings_rules d tier m u e = ground (arith, e)

  -- No panic: with settings that validateSettings has let through, the arithmetic of create on the rule of a
  -- variant never divides by zero, whatever quantity is asked for; and the smallest quantity of the rule is
  -- always accepted.
  pub validated_steps :
      (d : Draft) (tier m : String) (id : ℕ) (r : VariantRule)
      → validate_settings amount_of d tier m ≡ ok tt
      → rule_for id d.settings.variant_rules ≡ some r
      → ((quantity : ℕ) → check_range amount_of r quantity ≢ err (plain "decimal division by 0"))
        × (check_range amount_of r (rule_amount amount_of r.min_quantity) ≡ ok tt)
  unfolding check_range
  validated_steps d tier m id r e found =
      let rule =
        rule_for-IsRule id d.settings.variant_rules r
          (check_rules-IsRule [] d.settings.variant_rules tt
            (validate_settings_rules d tier m tt e))
          found in
      (
        (λ quantity h. absurd (ground (arith, rule.stepped, h))),
        ground (arith, rule.stepped, rule.ordered),
      )
