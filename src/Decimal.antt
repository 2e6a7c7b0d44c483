-- ===== src/Decimal.antt =====
-- github.com/shopspring/decimal, which is not part of the repository: the operations that the program
-- calls, and what their documentation says of the number that a decimal stands for. A decimal keeps
-- its exponent (1.50 and 1.5 differ there); sums and differences are exact.
use openlocal_api.Prelude.{false, ℕ, ◌≡◌, sym, ap, ◌∙◌, Bool, true, Option}
use openlocal_api.Text.Runes.{Text}

pub record DecimalApi : Type 1 where
  pub Decimal : Type 0
  -- the numbers that decimals stand for, as an abelian group
  pub Number : Type 0
  pub value : Decimal → Number
  pub nil : Number
  pub plus : Number → Number → Number
  pub opposite : Number → Number
  pub plus_comm : (a b : Number) → plus a b ≡ plus b a
  pub plus_assoc : (a b c : Number) → plus (plus a b) c ≡ plus a (plus b c)
  pub plus-nil : (a : Number) → plus a nil ≡ a
  pub plus-opposite : (a : Number) → plus a (opposite a) ≡ nil
  -- decimal.NewFromString
  pub new_from_string : Text → Option Decimal
  pub zero : Decimal
  pub add : Decimal → Decimal → Decimal
  pub sub : Decimal → Decimal → Decimal
  pub neg : Decimal → Decimal
  pub equal : Decimal → Decimal → Bool
  pub less_than : Decimal → Decimal → Bool
  pub is_zero : Decimal → Bool
  pub is_positive : Decimal → Bool
  -- `Exponent() < -n`: more than n digits after the point
  pub scale_above : ℕ → Decimal → Bool
  pub value-zero : value zero ≡ nil
  pub value-add : (a b : Decimal) → value (add a b) ≡ plus (value a) (value b)
  pub value-sub : (a b : Decimal) → value (sub a b) ≡ plus (value a) (opposite (value b))
  pub value-neg : (a : Decimal) → value (neg a) ≡ opposite (value a)
  pub value-is_zero : (a : Decimal) → is_zero a ≡ true → value a ≡ nil
  pub positive_not_less : (a : Decimal) → is_positive a ≡ true → less_than a zero ≡ false

-- The laws of the numbers that sums over rows use.
module _ (dec : DecimalApi) where
  open dec use {Number, nil, plus, opposite, plus_comm, plus_assoc, plus-nil, plus-opposite}

  pub nil-plus : (a : Number) → plus nil a ≡ a
  nil-plus a = plus_comm nil a ∙ plus-nil a

  pub plus_left_comm : (a b c : Number) → plus a (plus b c) ≡ plus b (plus a c)
  plus_left_comm a b c =
      sym (plus_assoc a b c) ∙ ap (λ (x : Number). plus x c) (plus_comm a b) ∙ plus_assoc b a c

  -- Taking a summand out again.
  pub plus_cancel : (a r : Number) → plus (plus a r) (opposite a) ≡ r
  plus_cancel a r =
      plus_assoc a r (opposite a)
      ∙ plus_left_comm a r (opposite a)
      ∙ ap (plus r) (plus-opposite a)
      ∙ plus-nil r

  -- Putting `b` where the summand `a` was.
  pub plus_exchange : (a b r : Number) → plus (plus a r) (plus b (opposite a)) ≡ plus b r
  plus_exchange a b r = plus_left_comm (plus a r) b (opposite a) ∙ ap (plus b) (plus_cancel a r)
