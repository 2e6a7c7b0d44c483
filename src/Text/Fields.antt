-- ===== src/Text/Fields.antt =====
-- strings.TrimSpace, strings.Fields and strings.Join, and what they make of one another.
use openlocal_api.Prelude.{
  ℕ, ◌≡◌, refl, sym, ap, ◌∙◌, inl, inr, Bool, true, false, List, [], ◌∷◌, ◌++◌, arith, Bool-cases,
  if◌then◌else◌, All,
}
use mathlib.Core.List.{append-nil, append_assoc}
use openlocal_api.Text.Runes.{Text, is_space}

unfoldable pub trim_left : (ℕ → Bool) → Text → Text
trim_left p [] = []
trim_left p (c ∷ cs) = if p c then trim_left p cs else c ∷ cs

-- `c ∷ rest`, unless that is one rune to cut.
abbrev pub keep : Bool → ℕ → Text → Text
keep true c [] = []
keep true c (d ∷ ds) = c ∷ d ∷ ds
keep false c ds = c ∷ ds

unfoldable pub trim_right : (ℕ → Bool) → Text → Text
trim_right p [] = []
trim_right p (c ∷ cs) = keep (p c) c (trim_right p cs)

-- strings.TrimSpace
unfoldable pub trim_space : Text → Text
unfolding trim_left trim_right
trim_space s = trim_right is_space (trim_left is_space s)

-- A word that has been read, before the words that follow.
abbrev pub flush : Text → List Text → List Text
flush [] ws = ws
flush (c ∷ w) ws = (c ∷ w) ∷ ws

unfoldable pub fields_from : Text → Text → List Text
fields_from w [] = flush w []
fields_from w (c ∷ cs) = elim (is_space c) [
  | true ↦ flush w (fields_from [] cs)
  | false ↦ fields_from (w ++ c ∷ []) cs
]

-- strings.Fields
unfoldable pub fields : Text → List Text
unfolding fields_from
fields s = fields_from [] s

-- strings.Join
unfoldable pub join : Text → List Text → Text
join sep [] = []
join sep (w ∷ []) = w
join sep (w ∷ v ∷ ws) = w ++ (sep ++ join sep (v ∷ ws))

fields_from-trim_left : (s : Text) → fields_from [] (trim_left is_space s) ≡ fields_from [] s
unfolding fields_from trim_left
fields_from-trim_left [] = refl
fields_from-trim_left (c ∷ cs) = elim (Bool-cases (is_space c)) [
  | inl e ↦ rw (e, fields_from) (fields_from-trim_left cs)
  | inr e ↦ rw e refl
]

fields_from-keep :
    (w : Text) (c : ℕ) (r : Text) → fields_from w (keep (is_space c) c r) ≡ fields_from w (c ∷ r)
unfolding fields_from
fields_from-keep [] c [] = ground arith
fields_from-keep (d ∷ w) c [] = ground arith
fields_from-keep w c (d ∷ r) = ground arith

fields_from-trim_right : (w s : Text) → fields_from w (trim_right is_space s) ≡ fields_from w s
unfolding trim_right fields_from
fields_from-trim_right w [] = refl
fields_from-trim_right w (c ∷ cs) =
    fields_from-keep w c (trim_right is_space cs) ∙ elim (Bool-cases (is_space c)) [
      | inl e ↦ rw (e, fields_from) (ap (flush w) (fields_from-trim_right [] cs))
      | inr e ↦ rw (e, fields_from) (fields_from-trim_right (w ++ c ∷ []) cs)
    ]

-- Trimming first does not change the words.
pub fields-trim_space : (s : Text) → fields (trim_space s) ≡ fields s
unfolding fields trim_space
fields-trim_space s = fields_from-trim_right [] (trim_left is_space s) ∙ fields_from-trim_left s

-- Runes that are no spaces.
abbrev pub Unspaced : Text → Type 0
Unspaced = All (λ c. is_space c ≡ false)

-- What separates into one word.
abbrev pub IsWord : Text → Type 0
IsWord [] = ⊥
IsWord (c ∷ w) = (is_space c ≡ false) × Unspaced w

Unspaced-snoc : (w : Text) (c : ℕ) → Unspaced w → is_space c ≡ false → Unspaced (w ++ c ∷ [])
Unspaced-snoc [] c h e = (e, tt)
Unspaced-snoc (d ∷ w) c h e = (h.0, Unspaced-snoc w c h.1 e)

flush-IsWord : (w : Text) (ws : List Text) → Unspaced w → All IsWord ws → All IsWord (flush w ws)
flush-IsWord [] ws h k = k
flush-IsWord (c ∷ w) ws h k = (h, k)

fields_from-IsWord : (w s : Text) → Unspaced w → All IsWord (fields_from w s)
unfolding fields_from
fields_from-IsWord w [] h = flush-IsWord w [] h tt
fields_from-IsWord w (c ∷ cs) h = elim (Bool-cases (is_space c)) [
  | inl e ↦ rw (e, fields_from) (flush-IsWord w _ h (fields_from-IsWord [] cs tt))
  | inr e ↦ rw (e, fields_from) (fields_from-IsWord (w ++ c ∷ []) cs (Unspaced-snoc w c h e))
]

-- Every field is a word.
pub fields-IsWord : (s : Text) → All IsWord (fields s)
unfolding fields
fields-IsWord s = fields_from-IsWord [] s tt

-- A word is read to its end.
fields_from-append : (v w s : Text) → Unspaced w → fields_from v (w ++ s) ≡ fields_from (v ++ w) s
unfolding fields_from
fields_from-append v [] s h = rw append-nil
fields_from-append v (c ∷ w) s h =
    rw (h.0, fields_from)
      (fields_from-append (v ++ c ∷ []) w s h.1
        ∙ ap (λ (x : Text). fields_from x s) (append_assoc v (c ∷ []) w))

space_ends : (u s : Text) → fields_from u (32 ∷ s) ≡ flush u (fields_from [] s)
unfolding fields_from is_space
space_ends u s = refl

-- Words joined by a space come apart again.
pub fields-join : (ws : List Text) → All IsWord ws → fields (join (32 ∷ []) ws) ≡ ws
unfolding fields join
fields-join [] h = unfold fields_from in refl
fields-join ([] ∷ ws) h = absurd h.0
fields-join ((c ∷ w) ∷ []) h =
    ap (fields_from []) (sym (append-nil (c ∷ w)))
    ∙ fields_from-append [] (c ∷ w) [] h.0
    ∙ unfold fields_from in refl
fields-join ((c ∷ w) ∷ v ∷ ws) h =
    fields_from-append [] (c ∷ w) (32 ∷ join (32 ∷ []) (v ∷ ws)) h.0
    ∙ space_ends (c ∷ w) (join (32 ∷ []) (v ∷ ws))
    ∙ ap (flush (c ∷ w)) (fields-join (v ∷ ws) h.1)
