-- ===== src/Operations/Contacts.antt =====
-- customer of internal/operations/core.go gives a normal form.
use openlocal_api.Prelude.{ℕ, ◌≡◌, refl, ap, true, false, ◌==◌, [], ◌∷◌, arith, All, subst}
use openlocal_api.Api.{ok}
use openlocal_api.Text.Runes.{Text, is_digit, is_space}
use openlocal_api.Text.Fields.{Unspaced}
use openlocal_api.Text.Trimmed.{trim_space_again, trim_space-Unspaced}
use openlocal_api.Validator.Clean.{clean_idempotent}
use openlocal_api.Operations.Customer.{
  CustomerInput, is_dropped, strip, with_plus, normal_phone, all_digits, matches_phone, cleaned,
  is_refused, customer,
}

-- Runes that neither trimming nor the Replacer touches.
Plain : Text → Type 0
Plain = All (λ c. (is_space c ≡ false) × (is_dropped c ≡ false))

Plain-Unspaced : (s : Text) → Plain s → Unspaced s
unfolding Plain
Plain-Unspaced [] h = tt
Plain-Unspaced (c ∷ cs) h = (h.0.0, Plain-Unspaced cs h.1)

strip-Plain : (s : Text) → Plain s → strip s ≡ s
unfolding Plain strip
strip-Plain [] h = refl
strip-Plain (c ∷ cs) h = rw (h.0.1, strip) (ap (λ (r : Text). c ∷ r) (strip-Plain cs h.1))

digit_plain : (c : ℕ) → is_digit c ≡ true → (is_space c ≡ false) × (is_dropped c ≡ false)
unfolding is_digit is_space is_dropped
digit_plain c h = ground (arith, h)

all_digits-Plain : (s : Text) → all_digits s ≡ true → Plain s
unfolding Plain all_digits
all_digits-Plain [] h = tt
all_digits-Plain (c ∷ cs) h =
    (digit_plain c (ground (arith, h)), all_digits-Plain cs (ground (arith, h)))

matches_phone_parts :
    (p f : ℕ) (r : Text)
    → matches_phone (p ∷ f ∷ r) ≡ true
    → ((p == b'+') ≡ true) × (is_digit f ≡ true) × (all_digits r ≡ true)
unfolding matches_phone
matches_phone_parts p f r h = (ground (arith, h), ground (arith, h), ground (arith, h))

plus_plain : (p : ℕ) → (p == b'+') ≡ true → (is_space p ≡ false) × (is_dropped p ≡ false)
unfolding is_space is_dropped
plus_plain p h = ground (arith, h)

matches_phone-Plain : (s : Text) → matches_phone s ≡ true → Plain s × (with_plus s ≡ s)
unfolding Plain with_plus
matches_phone-Plain [] h = absurd (unfold matches_phone in ground (arith, h))
matches_phone-Plain (p ∷ []) h = absurd (unfold matches_phone in ground (arith, h))
matches_phone-Plain (p ∷ f ∷ r) h =
    let (plus, first, rest) = matches_phone_parts p f r h in
    ((plus_plain p plus, (digit_plain f first, all_digits-Plain r rest)), ground (arith, plus))

matches_phone-normal_phone : (s : Text) → matches_phone s ≡ true → normal_phone s ≡ s
unfolding normal_phone
matches_phone-normal_phone s h =
    let (plain_text, plus) = matches_phone-Plain s h in
    rw (trim_space-Unspaced s (Plain-Unspaced s plain_text), strip-Plain s plain_text) plus

cleaned_again :
    (i : CustomerInput)
    → matches_phone (normal_phone i.customer_phone) ≡ true
    → cleaned (cleaned i) ≡ cleaned i
unfolding cleaned
cleaned_again i h =
    rw
      (
        (clean_idempotent i.customer_name).1,
        trim_space_again i.notes,
        matches_phone-normal_phone (normal_phone i.customer_phone) h,
      )
      refl

is_refused-matches_phone :
    (i : CustomerInput) → is_refused i ≡ false → matches_phone i.customer_phone ≡ true
unfolding is_refused
is_refused-matches_phone i h = ground (arith, h)

customer_ok :
    (i out : CustomerInput)
    → customer i ≡ ok out
    → (cleaned i ≡ out) × (is_refused (cleaned i) ≡ false)
unfolding customer
customer_ok i out e = (ground (arith, e), ground (arith, e))

customer-cleaned : (o : CustomerInput) → is_refused o ≡ false → cleaned o ≡ o → customer o ≡ ok o
unfolding customer
customer-cleaned o h same = rw (same, h) refl

-- The phone of a customer that is accepted has the pattern, and a customer in the form in which it was
-- accepted is accepted again and stays as it is.
pub customer_again :
    (input out : CustomerInput)
    → customer input ≡ ok out
    → (matches_phone out.customer_phone ≡ true) × (customer out ≡ ok out)
customer_again input out e =
    let (same, passes) = customer_ok input out e in
    let phone = is_refused-matches_phone (cleaned input) passes in
    subst (λ o. (matches_phone o.customer_phone ≡ true) × (customer o ≡ ok o)) same
      (
        phone,
        customer-cleaned (cleaned input) passes (cleaned_again input (unfold cleaned in phone)),
      )
