-- ===== src/Validator/Clean.antt =====
-- Clean is a normal form.
use openlocal_api.Prelude.{◌≡◌, sym, ap, ◌∙◌, ◌∷◌, []}
use openlocal_api.Text.Runes.{Text}
use openlocal_api.Text.Fields.{
  trim_space, fields, join, fields-trim_space, fields-IsWord, fields-join,
}
use openlocal_api.Validator.{clean}

-- The words of a cleaned text are the words of the text.
pub fields-clean : (s : Text) → fields (clean s) ≡ fields s
unfolding clean
fields-clean s =
    fields-join (fields (trim_space s)) (fields-IsWord (trim_space s)) ∙ fields-trim_space s

-- Cleaning a text keeps its words in order, and cleaning it again changes nothing.
pub clean_idempotent : (s : Text) → (fields (clean s) ≡ fields s) × (clean (clean s) ≡ clean s)
unfolding clean
clean_idempotent s = (
  fields-clean s,
  ap (join (32 ∷ [])) (fields-trim_space (clean s) ∙ fields-clean s ∙ sym (fields-trim_space s)),
)
