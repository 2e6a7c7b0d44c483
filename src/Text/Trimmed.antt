-- ===== src/Text/Trimmed.antt =====
-- TrimSpace leaves a text that is trimmed as it is.
use openlocal_api.Prelude.{ℕ, ◌≡◌, refl, ◌∙◌, Bool, false, [], ◌∷◌, ◌⊎◌, Bool-cases, inl, inr}
use openlocal_api.Text.Runes.{Text, is_space}
use openlocal_api.Text.Fields.{trim_left, trim_right, trim_space, keep, Unspaced}

trim_right_cons :
    (p : ℕ → Bool) (c : ℕ) (cs : Text) → trim_right p (c ∷ cs) ≡ keep (p c) c (trim_right p cs)
unfolding trim_right
trim_right_cons p c cs = refl

trim_right_nil : (p : ℕ → Bool) → trim_right p [] ≡ []
unfolding trim_right
trim_right_nil p = refl

keep_again :
    (p : ℕ → Bool) (c : ℕ) (r : Text)
    → trim_right p r ≡ r
    → trim_right p (keep (p c) c r) ≡ keep (p c) c r
keep_again p c [] e = elim (Bool-cases (p c)) [
  | inl cut ↦ rw cut (trim_right_nil p)
  | inr kept ↦ rw kept (trim_right_cons p c [] ∙ rw (kept, trim_right_nil p) refl)
]
keep_again p c (d ∷ r) e = elim (Bool-cases (p c)) [
  | inl cut ↦ rw cut (trim_right_cons p c (d ∷ r) ∙ rw (cut, e) refl)
  | inr kept ↦ rw kept (trim_right_cons p c (d ∷ r) ∙ rw (kept, e) refl)
]

trim_right_again : (p : ℕ → Bool) (s : Text) → trim_right p (trim_right p s) ≡ trim_right p s
trim_right_again p [] = rw (trim_right_nil p) (trim_right_nil p)
trim_right_again p (c ∷ cs) =
    rw (trim_right_cons p c cs) (keep_again p c (trim_right p cs) (trim_right_again p cs))

trim_left_start :
    (p : ℕ → Bool) (s : Text)
    → (trim_left p s ≡ []) ⊎ ((c : ℕ) × (cs : Text) × (trim_left p s ≡ c ∷ cs) × (p c ≡ false))
unfolding trim_left
trim_left_start p [] = inl refl
trim_left_start p (c ∷ cs) = elim (Bool-cases (p c)) [
  | inl cut ↦ rw cut (trim_left_start p cs)
  | inr kept ↦ inr (c, cs, rw kept refl, kept)
]

trim_left_kept : (p : ℕ → Bool) (c : ℕ) (cs : Text) → p c ≡ false → trim_left p (c ∷ cs) ≡ c ∷ cs
unfolding trim_left
trim_left_kept p c cs kept = rw kept refl

trim_left_trimmed :
    (p : ℕ → Bool) (s : Text)
    → trim_left p (trim_right p (trim_left p s)) ≡ trim_right p (trim_left p s)
trim_left_trimmed p s = elim (trim_left_start p s) [
  | inl blank ↦ rw (blank, trim_right_nil p) (unfold trim_left in refl)
  | inr (c, cs, start, kept) ↦
      rw (start, trim_right_cons p c cs, kept) (trim_left_kept p c (trim_right p cs) kept)
]

-- Trimming again changes nothing.
pub trim_space_again : (s : Text) → trim_space (trim_space s) ≡ trim_space s
unfolding trim_space
trim_space_again s =
    rw (trim_left_trimmed is_space s) (trim_right_again is_space (trim_left is_space s))

-- A text without spaces is trimmed.
trim_right-Unspaced : (s : Text) → Unspaced s → trim_right is_space s ≡ s
trim_right-Unspaced [] h = trim_right_nil is_space
trim_right-Unspaced (c ∷ cs) h =
    trim_right_cons is_space c cs ∙ rw (h.0, trim_right-Unspaced cs h.1) refl

pub trim_space-Unspaced : (s : Text) → Unspaced s → trim_space s ≡ s
unfolding trim_space trim_left
trim_space-Unspaced [] h = unfold trim_right in refl
trim_space-Unspaced (c ∷ cs) h = rw h.0 (trim_right-Unspaced (c ∷ cs) h)
