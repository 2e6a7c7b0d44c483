-- ===== src/Examples/Queries.antt =====
-- The page parameters of a list request, and the customer of a request.
use openlocal_api.Prelude.{◌≡◌, refl, ◌||◌, true, false, String, str_eq, if◌then◌else◌, [], arith}
use openlocal_api.Api.{ok, err, fiber}
use openlocal_api.Text.Runes.{Text, text, is_digit, is_space}
use openlocal_api.Text.Fields.{trim_space, trim_left, trim_right, fields, fields_from, join}
use openlocal_api.Validator.Paging.{
  pos, less, magnitude, signed, unsigned, parse_int, bounded_int, query_int32, page,
}
use openlocal_api.Validator.Numerals.{print_int, digits, Fits, query_int32-print_int, page_bounded}
use openlocal_api.Operations.Customer.{
  CustomerInput, customer, is_refused, cleaned, normal_phone, with_plus, strip, is_dropped,
  matches_phone, all_digits,
}
use openlocal_api.Operations.Contacts.{customer_again}
use openlocal_api.Validator.{clean}

-- The request has a limit of ` 40 ` and no offset.
abbrev asked : String → Text
asked key = if str_eq key "limit" then text " 40 " else []

query_int32-print_int_example : query_int32 asked "limit" (pos 25) (pos 1) (pos 100) ≡ (
    if less (pos 40) (pos 1) || less (pos 100) (pos 40)
    then err (fiber 400 "limit")
    else ok (pos 40))
unfolding print_int digits Fits is_space trim_space trim_left trim_right
query_int32-print_int_example =
    query_int32-print_int asked "limit" (pos 25) (pos 1) (pos 100) (pos 40) refl (omega arith)

page_bounded_example :
    (less (pos 40) (pos 1) ≡ false)
    × (less (pos 100) (pos 40) ≡ false)
    × (less (pos 0) (pos 0) ≡ false)
    × (less (pos 2000000000) (pos 0) ≡ false)
unfolding magnitude unsigned signed parse_int bounded_int query_int32 page is_digit is_space
    trim_space trim_left trim_right less
page_bounded_example = page_bounded asked (pos 40) (pos 0) refl

abbrev typed : CustomerInput
typed = record {
  customer_name = text " Ana  Ruiz";
  customer_phone = text "52 (55) 1234-5678 ";
  notes = text " door 2 ";
  challenge_token = [];
  locale = [];
}

abbrev kept : CustomerInput
kept = record typed {
  customer_name = text "Ana Ruiz";
  customer_phone = text "+525512345678";
  notes = text "door 2";
}

customer_again_example : (matches_phone kept.customer_phone ≡ true) × (customer kept ≡ ok kept)
unfolding customer is_refused cleaned normal_phone with_plus strip is_dropped matches_phone
    all_digits clean fields fields_from join is_space is_digit trim_space trim_left trim_right
customer_again_example = customer_again typed kept refl
