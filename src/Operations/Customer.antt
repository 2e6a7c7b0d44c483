-- ===== src/Operations/Customer.antt =====
-- customer of internal/operations/core.go: what a customer types is brought to one form and checked.
use openlocal_api.Prelude.{
  ℕ, Bool, true, false, not, ◌&&◌, ◌||◌, ◌==◌, [], ◌∷◌, leb, ltb, length, if◌then◌else◌,
}
use openlocal_api.Api.{Result, ok, err}
use openlocal_api.Text.Runes.{Text, is_digit}
use openlocal_api.Text.Fields.{trim_space}
use openlocal_api.Validator.{clean}
use openlocal_api.Operations.Expire.{bad}

pub record CustomerInput : Type 0 where
  pub customer_name : Text
  pub customer_phone : Text
  pub notes : Text
  pub challenge_token : Text
  pub locale : Text

-- The runes that the Replacer drops.
unfoldable pub is_dropped : ℕ → Bool
is_dropped c = c == 32 || c == b'-' || c == b'(' || c == b')'

unfoldable pub strip : Text → Text
strip [] = []
strip (c ∷ cs) = elim (is_dropped c) [ true ↦ strip cs | false ↦ c ∷ strip cs ]

unfoldable pub with_plus : Text → Text
with_plus [] = b'+' ∷ []
with_plus (c ∷ cs) = if c == b'+' then c ∷ cs else b'+' ∷ c ∷ cs

unfoldable pub normal_phone : Text → Text
normal_phone phone = with_plus (strip (trim_space phone))

unfoldable pub all_digits : Text → Bool
all_digits [] = true
all_digits (c ∷ cs) = is_digit c && all_digits cs

-- phonePattern: `^\+[1-9][0-9]{7,14}$`
unfoldable pub matches_phone : Text → Bool
matches_phone (plus ∷ first ∷ rest) =
    plus == b'+'
    && (is_digit first
        && (not (first == b'0')
            && (leb 7 (length rest) && (leb (length rest) 14 && all_digits rest))))
matches_phone _ = false

unfoldable pub cleaned : CustomerInput → CustomerInput
cleaned input = record input {
  customer_name = clean input.customer_name;
  customer_phone = normal_phone input.customer_phone;
  notes = trim_space input.notes;
}

unfoldable pub is_refused : CustomerInput → Bool
is_refused input =
    ltb (length input.customer_name) 2
    || (ltb 120 (length input.customer_name)
        || (not (matches_phone input.customer_phone) || ltb 2000 (length input.notes)))

-- customer
unfoldable pub customer : CustomerInput → Result CustomerInput
customer input =
    if is_refused (cleaned input)
    then err (bad "name, international phone, or notes is invalid")
    else ok (cleaned input)
