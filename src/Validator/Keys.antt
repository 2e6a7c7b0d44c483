-- ===== src/Validator/Keys.antt =====
-- Slug, PostalKey and ValidateSlug of internal/platform/validator/json.go.
use openlocal_api.Prelude.{
  ℕ, ◌≡◌, refl, ◌⊎◌, inl, inr, Bool, true, false, not, ◌&&◌, ◌||◌, [], ◌∷◌, ◌==◌, ltb, ◌≢◌, ◌≤◌,
  if◌then◌else◌, arith, Bool-cases,
}
use openlocal_api.Api.{plain, Result, ok, err}
use openlocal_api.Text.Runes.{Text, is_lower, is_digit, is_upper, to_lower, to_upper, byte_length}
use openlocal_api.Text.Fields.{trim_left, trim_right, trim_space, keep}
use openlocal_api.Validator.{clean}

-- a-z or 0-9
unfoldable pub is_slug_rune : ℕ → Bool
is_slug_rune c = is_lower c || is_digit c

unfoldable pub is_separator : ℕ → Bool
is_separator c = c == 32 || c == b'-' || c == b'_'

unfoldable pub is_dash : ℕ → Bool
is_dash c = c == b'-'

-- The loop of Slug: `last_dash`, and whether the builder holds something.
unfoldable pub slug_from : Bool → Bool → Text → Text
unfolding is_slug_rune is_separator
slug_from last_dash some_out [] = []
slug_from last_dash some_out (c ∷ cs) = elim (is_slug_rune c) [
  | true ↦ c ∷ slug_from false true cs
  | false ↦ elim (is_separator c && (not last_dash && some_out)) [
    | true ↦ b'-' ∷ slug_from true some_out cs
    | false ↦ slug_from last_dash some_out cs
  ]
]

-- Slug
unfoldable pub slug : Text → Text
unfolding slug_from is_dash
slug value =
    trim_right is_dash (trim_left is_dash (slug_from false false (to_lower (trim_space value))))

-- PostalKey
postal_from : Text → Text
unfolding is_digit is_upper
postal_from [] = []
postal_from (c ∷ cs) =
    let rest = postal_from cs in if is_upper c || is_digit c then c ∷ rest else rest

pub postal_key : Text → Text
unfolding postal_from
postal_key value = postal_from (to_upper (clean value))

-- slugPattern, `^[a-z0-9]+(?:-[a-z0-9]+)*$`: whether a rune of a segment must come next.
unfoldable pub matches_slug : Bool → Text → Bool
unfolding is_slug_rune
matches_slug open_segment [] = not open_segment
matches_slug open_segment (c ∷ cs) =
    (is_slug_rune c || (not open_segment && c == b'-')) && matches_slug (not (is_slug_rune c)) cs

-- ValidateSlug
unfoldable pub validate_slug : Text → Result (Unit {0})
unfolding matches_slug
validate_slug value =
    if not (matches_slug true value) || ltb 140 (byte_length value)
    then err (plain "slug must contain lowercase letters, numbers, and single dashes")
    else ok tt

-- What is emitted inside a segment ends in a match once a last dash is cut.
Tail : Bool → Text → Type 0
Tail false out = matches_slug false (trim_right is_dash out) ≡ true
Tail true out = (trim_right is_dash out ≡ []) ⊎ (matches_slug true (trim_right is_dash out) ≡ true)

dash_no_slug_rune : (c : ℕ) → is_slug_rune c ≡ true → is_dash c ≡ false
unfolding is_slug_rune is_lower is_digit is_dash
dash_no_slug_rune c h = ground arith

Tail-segment :
    (last : Bool) (c : ℕ) (out : Text)
    → is_slug_rune c ≡ true
    → Tail false out
    → Tail last (c ∷ out)
unfolding Tail trim_right matches_slug
Tail-segment false c out h t = rw (dash_no_slug_rune c h, keep, h) t
Tail-segment true c out h t = inr (rw (dash_no_slug_rune c h, keep, h) t)

Tail-dash : (out : Text) → Tail true out → Tail false (b'-' ∷ out)
unfolding Tail trim_right matches_slug is_dash is_slug_rune is_lower is_digit
Tail-dash out (inl e) = rw e refl
Tail-dash out (inr e) = dash_before (trim_right is_dash out) e
  where
    dash_before :
        (r : Text) → matches_slug true r ≡ true → matches_slug false (keep true b'-' r) ≡ true
    dash_before [] h = cc
    dash_before (d ∷ ds) h = h

Tail-separated :
    (b separator : Bool) (x y : Text)
    → Tail true x
    → Tail b y
    → Tail b (elim (separator && (not b && true)) [ true ↦ b'-' ∷ x | false ↦ y ])
Tail-separated true true x y t u = u
Tail-separated false true x y t u = Tail-dash x t
Tail-separated b false x y t u = u

slug_from-Tail : (last : Bool) (s : Text) → Tail last (slug_from last true s)
unfolding slug_from
slug_from-Tail false [] = unfold Tail trim_right matches_slug in refl
slug_from-Tail true [] = unfold Tail trim_right in inl refl
slug_from-Tail last (c ∷ cs) = elim (Bool-cases (is_slug_rune c)) [
  | inl e ↦ rw (e, slug_from) (Tail-segment last c _ e (slug_from-Tail false cs))
  | inr e ↦
      rw (e, slug_from)
        (Tail-separated last (is_separator c) _ _ (slug_from-Tail true cs) (slug_from-Tail last cs))
]

-- An output that is empty, or that begins with a segment and matches once a last dash is cut.
IsStart : Text → Type 0
IsStart out =
    (out ≡ [])
    ⊎ ((trim_left is_dash out ≡ out) × (matches_slug true (trim_right is_dash out) ≡ true))

IsStart-segment : (c : ℕ) (out : Text) → is_slug_rune c ≡ true → Tail false out → IsStart (c ∷ out)
unfolding IsStart trim_left trim_right matches_slug Tail
IsStart-segment c out h t =
    inr (rw (dash_no_slug_rune c h) refl, rw (dash_no_slug_rune c h, keep, h) t)

slug_from-IsStart : (s : Text) → IsStart (slug_from false false s)
unfolding slug_from
slug_from-IsStart [] = unfold IsStart in inl refl
slug_from-IsStart (c ∷ cs) = elim (Bool-cases (is_slug_rune c)) [
  | inl e ↦ rw (e, slug_from) (IsStart-segment c _ e (slug_from-Tail false cs))
  | inr e ↦ rw (e, slug_from) (skipped (is_separator c) (slug_from-IsStart cs))
]
  where
    skipped :
        (b : Bool)
        → IsStart (slug_from false false cs)
        → IsStart (elim (b && false) [
          | true ↦ b'-' ∷ slug_from true false cs
          | false ↦ slug_from false false cs
        ])
    skipped true h = h
    skipped false h = h

trimmed_start :
    (out : Text)
    → IsStart out
    → (trim_right is_dash (trim_left is_dash out) ≡ [])
      ⊎ (matches_slug true (trim_right is_dash (trim_left is_dash out)) ≡ true)
unfolding IsStart
trimmed_start out (inl e) = rw e (unfold trim_left trim_right in inl refl)
trimmed_start out (inr (same, m)) = rw same (inr m)

slug_cases : (s : Text) → (slug s ≡ []) ⊎ (matches_slug true (slug s) ≡ true)
unfolding slug
slug_cases s = trimmed_start _ (slug_from-IsStart (to_lower (trim_space s)))

-- A slug made by `slug` from any text is empty or passes `validate_slug`, unless it is longer than
-- 140 bytes.
pub slug-validate_slug :
    (s : Text) → slug s ≢ [] → byte_length (slug s) ≤ 140 → validate_slug (slug s) ≡ ok tt
unfolding validate_slug
slug-validate_slug s h k = ground (arith, slug_cases s)
