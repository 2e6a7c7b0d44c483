-- ===== src/Validator/Paging.antt =====
-- QueryInt32 and Page of internal/platform/validator/json.go, with strconv.ParseInt to the base 10.
use Prim.Native.String.{◌++◌ as append}
use openlocal_api.Prelude.{
  ℕ, zero, suc, ◌+◌, ◌-◌, ◌*◌, Bool, true, false, ◌||◌, ◌==◌, [], ◌∷◌, Option, none, some, String,
  ltb, if◌then◌else◌,
}
use openlocal_api.Api.{fiber, Result, ok, err, ◌>>=◌}
use openlocal_api.Text.Runes.{Text, is_digit}
use openlocal_api.Text.Fields.{trim_space}

-- A signed number: `negsuc n` is -(n + 1).
pub data ℤ : Type 0 where
  pos : ℕ → ℤ
  negsuc : ℕ → ℤ

unfoldable pub less : ℤ → ℤ → Bool
less (pos a) (pos b) = ltb a b
less (pos a) (negsuc b) = false
less (negsuc a) (pos b) = true
less (negsuc a) (negsuc b) = ltb b a

-- The digits of a number, and nothing else.
unfoldable pub magnitude : Text → ℕ → Option ℕ
magnitude [] acc = some acc
magnitude (c ∷ cs) acc = elim (is_digit c) [
  | true ↦ magnitude cs (acc * 10 + (c - 48))
  | false ↦ none
]

-- The magnitude with its sign, where int32 holds it: from -2147483648 to 2147483647.
unfoldable pub signed : Bool → Option ℕ → Option ℤ
signed minus none = none
signed false (some n) = if ltb n 2147483648 then some (pos n) else none
signed true (some zero) = some (pos 0)
signed true (some (suc n)) = if ltb n 2147483648 then some (negsuc n) else none

unfoldable pub unsigned : Text → Option ℕ
unsigned [] = none
unsigned (c ∷ cs) = magnitude (c ∷ cs) 0

-- strconv.ParseInt(value, 10, 32)
unfoldable pub parse_int : Text → Option ℤ
parse_int [] = none
parse_int (c ∷ cs) =
    if c == b'-'
    then signed true (unsigned cs)
    else if c == b'+'
    then signed false (unsigned cs)
    else signed false (unsigned (c ∷ cs))

-- The value of a parameter that is not blank.
unfoldable pub bounded_int : Text → String → ℤ → ℤ → Result ℤ
bounded_int value key low high = elim (parse_int value) [
  | none ↦ err (fiber 400 (append key " must be an integer"))
  | some n ↦ if less n low || less high n then err (fiber 400 key) else ok n
]

-- QueryInt32: `query` is c.Query, which answers the empty text for a parameter that is not there.
unfoldable pub query_int32 : (String → Text) → String → ℤ → ℤ → ℤ → Result ℤ
query_int32 query key fallback low high = elim (trim_space (query key)) [
  | [] ↦ ok fallback
  | c ∷ cs ↦ bounded_int (c ∷ cs) key low high
]

-- Page: the limit and the offset
unfoldable pub page : (String → Text) → Result (ℤ × ℤ)
page query = query_int32 query "limit" (pos 25) (pos 1) (pos 100) >>= λ limit.
    query_int32 query "offset" (pos 0) (pos 0) (pos 2000000000) >>= λ offset. ok (limit, offset)
