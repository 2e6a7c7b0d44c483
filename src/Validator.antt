-- ===== src/Validator.antt =====
-- internal/platform/validator/json.go: cleaning and checking the fields of a request. Where a message is
-- made by `fmt.Sprintf` from numbers, the model keeps the name of the field.
pub mod Keys
pub mod Clean
pub mod Paging
pub mod Numerals
use Prim.Native.String.{◌++◌ as append}
use openlocal_api.Prelude.{
  ℕ, suc, ◌+◌, ◌-◌, ◌≡◌, Bool, true, false, not, ◌&&◌, ◌||◌, List, [], ◌∷◌, ◌++◌, map, Option, none,
  some, String, ◌==◌, leb, ltb, length, if◌then◌else◌, arith,
}
use openlocal_api.Api.{Error, fiber, Result, ok, err}
use openlocal_api.Decimal.{DecimalApi}
use openlocal_api.Text.Runes.{
  Text, text, is_upper, is_lower, is_digit, to_lower, to_upper, text_eq, contains_text, byte_length,
}
use openlocal_api.Text.Fields.{trim_left, trim_right, trim_space, fields, join}

abbrev pub max_body_bytes : ℕ
max_body_bytes = 1048576

-- Clean: one space between words, none at the ends
unfoldable pub clean : Text → Text
clean value = join (32 ∷ []) (fields (trim_space value))

unfoldable pub clean_optional : Option Text → Option Text
clean_optional none = none
clean_optional (some value) = elim (clean value) [ [] ↦ none | c ∷ cs ↦ some (c ∷ cs) ]

-- uuid.Parse of github.com/google/uuid is a parameter; an identifier is its 128 bits.
unfoldable pub parse_uuid : (Text → Option ℕ) → Text → String → Result ℕ
parse_uuid parse value field = elim (parse (trim_space value)) [
  | none ↦ err (fiber 400 (append field " must be a valid uuid"))
  | some id ↦ ok id
]

-- The length of a text in runes lies in the range.
unfoldable pub string_length : Text → String → ℕ → ℕ → Result (Unit {0})
string_length value field min_length max_length =
    if ltb (length value) min_length || ltb max_length (length value)
    then err (fiber 400 field)
    else ok tt

module _ (dec : DecimalApi) where
  open dec use {Decimal, new_from_string, less_than, scale_above}

  unfoldable pub parse_decimal : Text → String → Result Decimal
  parse_decimal value field =
      if ltb 64 (byte_length (trim_space value))
      then err (fiber 400 field)
      else elim (new_from_string (trim_space value)) [
        | none ↦ err (fiber 400 (append field " must be a decimal"))
        | some d ↦ ok d
      ]

  unfoldable pub decimal_range : Decimal → String → Decimal → Decimal → ℕ → Result (Unit {0})
  decimal_range value field low high max_scale =
      if less_than value low || less_than high value
      then err (fiber 400 field)
      else if scale_above max_scale value
      then err (fiber 400 field)
      else ok tt

-- Enum
unfoldable pub enum : Text → String → Text → List Text → Result Text
enum value field fallback allowed =
    let lowered = to_lower (trim_space value) in
    let chosen : Text = elim lowered [ [] ↦ fallback | c ∷ cs ↦ c ∷ cs ] in
    if contains_text allowed chosen then ok chosen else err (fiber 400 (append field " is invalid"))

is_key_rune : ℕ → Bool
is_key_rune c =
    is_lower c || is_upper c || is_digit c || c == b'.' || c == b'_' || c == b':' || c == b'-'

all_key_runes : Text → Bool
all_key_runes [] = true
all_key_runes (c ∷ cs) = is_key_rune c && all_key_runes cs

-- IdempotencyKey: `^[A-Za-z0-9._:-]{8,128}$` after trimming
unfoldable pub idempotency_key : Text → Result Text
unfolding is_key_rune all_key_runes
idempotency_key value =
    let key = trim_space value in
    if leb 8 (length key) && (leb (length key) 128 && all_key_runes key)
    then ok key
    else err (fiber 400 "Idempotency-Key")
