-- ===== src/Examples/Numbers.antt =====
-- Decimals in thousandths, as a concrete instance of github.com/shopspring/decimal.
use mathlib.Core.Int.{
  ℤ, pos, suc_ℤ, ◌+ℤ◌, neg_ℤ, +ℤ_assoc, +ℤ_comm, +ℤ_invr, neg_ℤ-+ℤ, neg_ℤ-neg_ℤ, suc_ℤ-+ℤ, +ℤ_idl,
}
use mathlib.Core.Nat.{zero as unary_zero}
use openlocal_api.Prelude.{
  false, true, ℕ, zero, suc, ◌+◌, ◌-◌, ◌*◌, ◌/◌, ◌%◌, ◌^◌, ◌&&◌, ◌≡◌, refl, sym, ap, ◌∙◌, Bool, not,
  Option, none, some, [], ◌∷◌, ◌==◌, ltb, if◌then◌else◌, arith, ==_iff,
}
use openlocal_api.Text.Runes.{Text, is_digit}
use openlocal_api.Decimal.{DecimalApi}

abbrev of_nat : ℕ → ℤ
of_nat zero = pos unary_zero
of_nat (suc n) = suc_ℤ (of_nat n)

of_nat-plus : (a b : ℕ) → of_nat (a + b) ≡ of_nat a +ℤ of_nat b
of_nat-plus zero b = let e : 0 + b ≡ b = omega arith in ap of_nat e ∙ sym (+ℤ_idl (of_nat b))
of_nat-plus (suc a) b =
    let e : suc a + b ≡ suc (a + b) = omega arith in
    ap of_nat e ∙ ap suc_ℤ (of_nat-plus a b) ∙ sym (suc_ℤ-+ℤ (of_nat a) (of_nat b))

-- What is added and what is taken away, in thousandths.
abbrev pub Thousandths : Type 0
Thousandths = ℕ × ℕ

abbrev value : Thousandths → ℤ
value (a, b) = of_nat a +ℤ neg_ℤ (of_nat b)

exchange : (a b c d : ℤ) → (a +ℤ b) +ℤ (c +ℤ d) ≡ (a +ℤ c) +ℤ (b +ℤ d)
exchange a b c d =
    +ℤ_assoc a b (c +ℤ d)
    ∙ ap (λ (x : ℤ). a +ℤ x)
        (sym (+ℤ_assoc b c d) ∙ ap (λ (x : ℤ). x +ℤ d) (+ℤ_comm b c) ∙ +ℤ_assoc c b d)
    ∙ sym (+ℤ_assoc a c (b +ℤ d))

pub value_sum :
    (a b c d : ℕ)
    → of_nat (a + c) +ℤ neg_ℤ (of_nat (b + d))
      ≡ (of_nat a +ℤ neg_ℤ (of_nat b)) +ℤ (of_nat c +ℤ neg_ℤ (of_nat d))
value_sum a b c d =
    ap (λ (x : ℤ). x +ℤ neg_ℤ (of_nat (b + d))) (of_nat-plus a c)
    ∙ ap (λ (x : ℤ). (of_nat a +ℤ of_nat c) +ℤ x)
        (ap neg_ℤ (of_nat-plus b d) ∙ neg_ℤ-+ℤ (of_nat b) (of_nat d))
    ∙ exchange (of_nat a) (of_nat c) (neg_ℤ (of_nat b)) (neg_ℤ (of_nat d))

pub value_opposite : (a b : ℕ) → of_nat b +ℤ neg_ℤ (of_nat a) ≡ neg_ℤ (of_nat a +ℤ neg_ℤ (of_nat b))
value_opposite a b =
    +ℤ_comm (of_nat b) (neg_ℤ (of_nat a))
    ∙ sym (
        neg_ℤ-+ℤ (of_nat a) (neg_ℤ (of_nat b))
        ∙ ap (λ (x : ℤ). neg_ℤ (of_nat a) +ℤ x) (neg_ℤ-neg_ℤ (of_nat b)))

pub value_balanced : (a b : ℕ) → a ≡ b → of_nat a +ℤ neg_ℤ (of_nat b) ≡ pos unary_zero
value_balanced a b e = ap (λ (n : ℕ). of_nat n +ℤ neg_ℤ (of_nat b)) e ∙ +ℤ_invr (of_nat b)

-- The digits after the point, three at most.
abbrev read_fraction : ℕ → Text → ℕ → Option Thousandths
read_fraction unit [] acc = some (acc, 0)
read_fraction unit (c ∷ cs) acc =
    let rest = read_fraction (unit / 10) cs (acc + unit * (c - 48)) in
    if is_digit c && not (unit == 0) then rest else none

abbrev read_digits : Text → ℕ → Option Thousandths
read_digits [] acc = some (acc * 1000, 0)
read_digits (c ∷ cs) acc =
    let rest = read_digits cs (acc * 10 + (c - 48)) in
    let fraction = read_fraction 100 cs (acc * 1000) in
    if c == b'.' then fraction else if is_digit c then rest else none

abbrev add : Thousandths → Thousandths → Thousandths
add (a, b) (c, d) = (a + c, b + d)

abbrev sub : Thousandths → Thousandths → Thousandths
sub (a, b) (c, d) = (a + d, b + c)

abbrev neg : Thousandths → Thousandths
neg (a, b) = (b, a)

abbrev equal : Thousandths → Thousandths → Bool
equal (a, b) (c, d) = a + d == c + b

abbrev less_than : Thousandths → Thousandths → Bool
less_than (a, b) (c, d) = ltb (a + d) (c + b)

pub not_below : (a b : ℕ) → ltb b a ≡ true → ltb (a + 0) (0 + b) ≡ false
not_below a b h = ground arith

abbrev pub thousandths : DecimalApi
thousandths = record {
  Decimal = Thousandths;
  Number = ℤ;
  value = value;
  nil = pos unary_zero;
  plus = ◌+ℤ◌;
  opposite = neg_ℤ;
  plus_comm = +ℤ_comm;
  plus_assoc = +ℤ_assoc;
  plus-nil = λ a. refl;
  plus-opposite = +ℤ_invr;
  new_from_string = λ t. read_digits t 0;
  zero = (0, 0);
  add = add;
  sub = sub;
  neg = neg;
  equal = equal;
  less_than = less_than;
  is_zero = λ (a, b). a == b;
  is_positive = λ (a, b). ltb b a;
  scale_above = λ n (a, b). not ((a + b) % 10 ^ (3 - n) == 0);
  value-zero = refl;
  value-add = λ (a, b) (c, d). value_sum a b c d;
  value-sub =
      λ (a, b) (c, d). value_sum a b d c ∙ ap (λ (x : ℤ). value (a, b) +ℤ x) (value_opposite c d);
  value-neg = λ (a, b). value_opposite a b;
  positive_not_less = λ (a, b) h. not_below a b h;
  value-is_zero = λ (a, b) h. value_balanced a b ((==_iff a b).0 h);
}
