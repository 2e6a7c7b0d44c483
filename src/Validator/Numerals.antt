-- ===== src/Validator/Numerals.antt =====
-- Numbers in query parameters: what QueryInt32 of internal/platform/validator/json.go does with a number
-- in decimal notation, and the pages that Page lets through.
use openlocal_api.Prelude.{
  ℕ, zero, suc, ◌+◌, ◌-◌, ◌*◌, ◌/◌, ◌%◌, ◌≤◌, ◌<◌, ◌≡◌, refl, sym, subst, ◌∙◌, true, false, ◌||◌,
  [], ◌∷◌, some, String, ltb, if◌then◌else◌, arith, Bool-cases, Option-cases, ◌⊎◌, inl, inr,
}
use openlocal_api.Api.{fiber, Result, ok, err, >>=-eq-ok}
use openlocal_api.Text.Runes.{Text, is_digit}
use openlocal_api.Text.Fields.{trim_space}
use openlocal_api.Validator.Paging.{
  ℤ, pos, negsuc, less, magnitude, signed, unsigned, parse_int, bounded_int, query_int32, page,
}

-- The decimal digits of a number, before a text.
unfoldable pub digits : (fuel n : ℕ) → Text → Text
digits zero n rest = rest
digits (suc fuel) n rest =
    if ltb n 10 then (48 + n) ∷ rest else digits fuel (n / 10) ((48 + n % 10) ∷ rest)

unfoldable pub print_int : ℤ → Text
print_int (pos n) = digits (suc n) n []
print_int (negsuc n) = b'-' ∷ digits (suc (suc n)) (suc n) []

digit_shown : (d : ℕ) → d < 10 → is_digit (48 + d) ≡ true
unfolding is_digit
digit_shown d h = ground arith

magnitude_step :
    (c acc : ℕ) (rest : Text)
    → is_digit c ≡ true
    → magnitude (c ∷ rest) acc ≡ magnitude rest (acc * 10 + (c - 48))
unfolding magnitude
magnitude_step c acc rest h = ground (arith, h)

magnitude_digit :
    (d acc : ℕ) (rest : Text)
    → d < 10
    → magnitude ((48 + d) ∷ rest) acc ≡ magnitude rest (acc * 10 + d)
magnitude_digit d acc rest h =
    let back : 48 + d - 48 ≡ d = omega arith in
    rw (magnitude_step (48 + d) acc rest (digit_shown d h), back) refl

digits_small : (fuel n : ℕ) (rest : Text) → n < 10 → digits (suc fuel) n rest ≡ (48 + n) ∷ rest
unfolding digits
digits_small fuel n rest h = ground arith

digits_large :
    (fuel n : ℕ) (rest : Text)
    → 10 ≤ n
    → digits (suc fuel) n rest ≡ digits fuel (n / 10) ((48 + n % 10) ∷ rest)
unfolding digits
digits_large fuel n rest h = ground arith

magnitude-digits :
    (fuel n : ℕ) (rest : Text) → n < fuel → magnitude (digits fuel n rest) 0 ≡ magnitude rest n
magnitude-digits zero n rest h = absurd (omega arith)
magnitude-digits (suc fuel) n rest h = elim (Bool-cases (ltb n 10)) [
  | inl small ↦
      let alone : 0 * 10 + n ≡ n = omega arith in
      rw
        (
          digits_small fuel n rest (ground (arith, small)),
          magnitude_digit n 0 rest (ground (arith, small)),
          alone,
        )
        refl
  | inr large ↦
      let shorter : n / 10 * 10 + n % 10 ≡ n = omega arith in
      rw
        (
          digits_large fuel n rest (ground (arith, large)),
          magnitude-digits fuel (n / 10) ((48 + n % 10) ∷ rest) (ground (arith, large)),
          magnitude_digit (n % 10) (n / 10) rest (omega arith),
          shorter,
        )
        refl
]

-- The digits start with a digit.
digits_start :
    (fuel n : ℕ) (rest : Text)
    → n < fuel
    → (c : ℕ) × (cs : Text) × (digits fuel n rest ≡ c ∷ cs) × (48 ≤ c)
unfolding digits
digits_start zero n rest h = absurd (omega arith)
digits_start (suc fuel) n rest h = elim (Bool-cases (ltb n 10)) [
  | inl small ↦ (48 + n, rest, ground (arith, small), omega arith)
  | inr large ↦
      let (c, cs, e, b) = digits_start fuel (n / 10) ((48 + n % 10) ∷ rest) (ground arith) in
      (c, cs, ground (arith, large, e), b)
]

-- An int32.
unfoldable pub Fits : ℤ → Type 0
Fits (pos n) = n < 2147483648
Fits (negsuc n) = n < 2147483648

unsigned-digits : (n : ℕ) → unsigned (digits (suc n) n []) ≡ some n
unfolding unsigned
unsigned-digits n =
    let (c, cs, start, b) = digits_start (suc n) n [] (omega arith) in
    let read : magnitude (c ∷ cs) 0 ≡ some n =
      rw (sym start, magnitude-digits (suc n) n [] (omega arith)) (unfold magnitude in refl) in
    rw start read

print_start : (n : ℤ) → (c : ℕ) × (cs : Text) × (print_int n ≡ c ∷ cs)
unfolding print_int
print_start (pos n) = let (c, cs, e, b) = digits_start (suc n) n [] (omega arith) in (c, cs, e)
print_start (negsuc n) = (b'-', digits (suc (suc n)) (suc n) [], refl)

parse_int-print_int : (n : ℤ) → Fits n → parse_int (print_int n) ≡ some n
unfolding parse_int print_int Fits signed
parse_int-print_int (pos n) h =
    let (c, cs, start, b) = digits_start (suc n) n [] (omega arith) in
    let read : unsigned (c ∷ cs) ≡ some n = rw (sym start) (unsigned-digits n) in
    rw start (ground (arith, read))
parse_int-print_int (negsuc n) h = rw (unsigned-digits (suc n)) (ground arith)

bounded_int_read :
    (t : Text) (key : String) (low high n : ℤ)
    → parse_int t ≡ some n
    → bounded_int t key low high ≡ (if less n low || less high n then err (fiber 400 key) else ok n)
unfolding bounded_int
bounded_int_read t key low high n read = ground (arith, read)

query_int32_filled :
    (query : String → Text) (key : String) (fallback low high : ℤ) (c : ℕ) (cs : Text)
    → trim_space (query key) ≡ c ∷ cs
    → query_int32 query key fallback low high ≡ bounded_int (c ∷ cs) key low high
unfolding query_int32
query_int32_filled query key fallback low high c cs filled = ground (arith, filled)

-- A parameter that holds a number in decimal notation, with any blanks around it, is that number where
-- the number is an int32 within the bounds, and an error of status 400 where it is one outside them.
pub query_int32-print_int :
    (query : String → Text) (key : String) (fallback low high n : ℤ)
    → trim_space (query key) ≡ print_int n
    → Fits n
    → query_int32 query key fallback low high
      ≡ (if less n low || less high n then err (fiber 400 key) else ok n)
query_int32-print_int query key fallback low high n printed h =
    let (c, cs, start) = print_start n in
    let parsed : parse_int (c ∷ cs) ≡ some n = rw (sym start) (parse_int-print_int n h) in
    query_int32_filled query key fallback low high c cs (printed ∙ start)
    ∙ bounded_int_read (c ∷ cs) key low high n parsed

-- A number that is within the bounds.
Within : (low high n : ℤ) → Type 0
Within low high n = (less n low ≡ false) × (less high n ≡ false)

bounded_int-Within :
    (t : Text) (key : String) (low high n : ℤ)
    → bounded_int t key low high ≡ ok n
    → Within low high n
unfolding bounded_int Within
bounded_int-Within t key low high n e = elim (Option-cases (parse_int t)) [
  | inl unread ↦ absurd (ground (arith, unread))
  | inr (m, read) ↦ ground (arith, read)
]

ok_same : (a b : ℤ) → ok a ≡ ok b → a ≡ b
ok_same a b e = cc

ok_same_pair : (a b c d : ℤ) → ◌≡◌ {A = Result (ℤ × ℤ)} (ok (a, b)) (ok (c, d)) → (a ≡ c) × (b ≡ d)
ok_same_pair a b c d e = let first : a ≡ c = cc in let second : b ≡ d = cc in (first, second)

Text-cases : (t : Text) → (t ≡ []) ⊎ ((c : ℕ) × (cs : Text) × (t ≡ c ∷ cs))
Text-cases [] = inl refl
Text-cases (c ∷ cs) = inr (c, cs, refl)

query_int32_blank :
    (query : String → Text) (key : String) (fallback low high : ℤ)
    → trim_space (query key) ≡ []
    → query_int32 query key fallback low high ≡ ok fallback
unfolding query_int32
query_int32_blank query key fallback low high blank = ground (arith, blank)

query_int32-Within :
    (query : String → Text) (key : String) (fallback low high n : ℤ)
    → Within low high fallback
    → query_int32 query key fallback low high ≡ ok n
    → Within low high n
query_int32-Within query key fallback low high n w e = elim (Text-cases (trim_space (query key))) [
  | inl blank ↦
      subst (Within low high)
        (ok_same fallback n (sym (query_int32_blank query key fallback low high blank) ∙ e)) w
  | inr (c, cs, filled) ↦
      bounded_int-Within (c ∷ cs) key low high n
        (sym (query_int32_filled query key fallback low high c cs filled) ∙ e)
]

-- A page that is let through has a limit from 1 to 100 and an offset from 0 to 2000000000.
pub page_bounded :
    (query : String → Text) (limit offset : ℤ)
    → page query ≡ ok (limit, offset)
    → (less limit (pos 1) ≡ false)
      × (less (pos 100) limit ≡ false)
      × (less offset (pos 0) ≡ false)
      × (less (pos 2000000000) offset ≡ false)
unfolding page Within less
page_bounded query limit offset e =
    let (l, e1, rest) = >>=-eq-ok _ _ e in
    let (o, e2, same) = >>=-eq-ok _ _ rest in
    let (same_limit, same_offset) = ok_same_pair l o limit offset same in
    let (a, b) =
      subst (Within (pos 1) (pos 100)) same_limit
        (query_int32-Within query "limit" (pos 25) (pos 1) (pos 100) l (refl, refl) e1) in
    let (c, d) =
      subst (Within (pos 0) (pos 2000000000)) same_offset
        (query_int32-Within query "offset" (pos 0) (pos 0) (pos 2000000000) o (refl, refl) e2) in
    (a, b, c, d)
