-- ===== src/Text/Runes.antt =====
-- Runes, texts and tests on them.
use Prim.Native.Char.{code}
use openlocal_api.Prelude.{
  ℕ, ◌+◌, ◌-◌, ◌≡◌, Bool, true, false, ◌&&◌, ◌||◌, List, [], ◌∷◌, map, String, ◌==◌, leb,
  if◌then◌else◌, arith,
}

abbrev pub Text : Type 0
Text = List ℕ

-- A literal of the source.
abbrev pub text : String → Text
text String.[] = []
text (String.◌∷◌ c s) = code c ∷ text s

-- `len` of a Go string: the bytes of its UTF-8.
unfoldable pub byte_length : Text → ℕ
byte_length [] = 0
byte_length (c ∷ cs) =
    (if leb c 127 then 1 else if leb c 2047 then 2 else if leb c 65535 then 3 else 4)
    + byte_length cs

-- unicode.IsSpace
unfoldable pub is_space : ℕ → Bool
is_space c =
    (leb 9 c && leb c 13)
    || c == 32
    || c == 133
    || c == 160
    || c == 5760
    || (leb 8192 c && leb c 8202)
    || c == 8232
    || c == 8233
    || c == 8239
    || c == 8287
    || c == 12288

unfoldable pub is_lower : ℕ → Bool
is_lower c = leb b'a' c && leb c b'z'

unfoldable pub is_upper : ℕ → Bool
is_upper c = leb b'A' c && leb c b'Z'

unfoldable pub is_digit : ℕ → Bool
is_digit c = leb b'0' c && leb c b'9'

-- unicode.ToLower, as far as a test on ASCII characters can tell: the Kelvin sign and the dotted
-- capital I are the two other runes that it takes to ASCII letters.
unfoldable pub lower_rune : ℕ → ℕ
unfolding is_upper
lower_rune c =
    if is_upper c then c + 32 else if c == 8490 then b'k' else if c == 304 then b'i' else c

-- unicode.ToUpper, likewise: the dotless i and the long s go to ASCII letters.
unfoldable pub upper_rune : ℕ → ℕ
unfolding is_lower
upper_rune c =
    if is_lower c then c - 32 else if c == 305 then b'I' else if c == 383 then b'S' else c

-- strings.ToLower, strings.ToUpper
abbrev pub to_lower : Text → Text
to_lower = map lower_rune

abbrev pub to_upper : Text → Text
to_upper = map upper_rune

unfoldable pub text_eq : Text → Text → Bool
text_eq [] [] = true
text_eq [] (d ∷ ds) = false
text_eq (c ∷ cs) [] = false
text_eq (c ∷ cs) (d ∷ ds) = c == d && text_eq cs ds

pub text_eq→eq : (s t : Text) → text_eq s t ≡ true → s ≡ t
unfolding text_eq
text_eq→eq [] [] h = ground arith
text_eq→eq [] (d ∷ ds) h = ground arith
text_eq→eq (c ∷ cs) [] h = ground arith
text_eq→eq (c ∷ cs) (d ∷ ds) h = ground (arith, text_eq→eq cs ds)

pub text_eq_refl : (s : Text) → text_eq s s ≡ true
unfolding text_eq
text_eq_refl [] = ground arith
text_eq_refl (c ∷ cs) = ground (arith, text_eq_refl cs)

-- strings.HasPrefix
unfoldable pub has_prefix : Text → Text → Bool
has_prefix s [] = true
has_prefix [] (d ∷ ds) = false
has_prefix (c ∷ cs) (d ∷ ds) = c == d && has_prefix cs ds

-- slices.Contains
unfoldable pub contains_text : List Text → Text → Bool
unfolding text_eq
contains_text [] t = false
contains_text (s ∷ ss) t = text_eq s t || contains_text ss t
