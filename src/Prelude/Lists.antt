-- ===== src/Prelude/Lists.antt =====
-- Lists measured by native numbers, under the library's names, and predicates on their items.
use Prim.Native.Nat.{ℕ, suc, ◌+◌}
use Prim.Native.String.{String}
use mathlib.Core.Path.{◌≡◌, refl, subst}
use mathlib.Core.Logic.{◌≢◌, inl, inr}
use mathlib.Core.Bool.{Bool, true, false, ◌||◌}
use mathlib.Core.List.{List, [], ◌∷◌, ◌++◌}
use mathlib.Core.Option.{Option, none, some}
use native.Mathlib.Omega.{arith}
use text.Mathlib.Text.{◌==◌ as str_eq}
use openlocal_api.Prelude.Tests.{if◌then◌else◌, ◌==◌, Bool-cases}

module _ {ℓ} {A : Type ℓ} where
  abbrev pub length : List A → ℕ
  length [] = 0
  length (x ∷ xs) = suc (length xs)

  pub length-append : (xs ys : List A) → length (xs ++ ys) ≡ length xs + length ys
  length-append [] ys = omega arith
  length-append (x ∷ xs) ys = omega (arith, length-append xs ys)

  -- slices.ContainsFunc
  abbrev pub any : (A → Bool) → List A → Bool
  any p [] = false
  any p (x ∷ xs) = p x || any p xs

  abbrev pub find : (A → Bool) → List A → Option A
  find p [] = none
  find p (x ∷ xs) = if p x then some x else find p xs

module _ {ℓ} {A : Type ℓ} where
  -- An UPDATE on a key: the first item that has it.
  abbrev pub replace_first : (A → Bool) → A → List A → List A
  replace_first p new [] = []
  replace_first p new (x ∷ xs) = if p x then new ∷ xs else x ∷ replace_first p new xs

  pub find_holds : (p : A → Bool) (xs : List A) (a : A) → find p xs ≡ some a → p a ≡ true
  find_holds p [] a h = cc
  find_holds p (x ∷ xs) a h = ground (arith, find_holds p xs a)

  pub find-replace_first :
      (p : A → Bool) (new : A) (xs : List A) (a : A)
      → find p xs ≡ some a
      → p new ≡ true
      → find p (replace_first p new xs) ≡ some new
  find-replace_first p new [] a h k = cc
  find-replace_first p new (x ∷ xs) a h k = ground (arith, find-replace_first p new xs a)

  pub find-replace_other :
      (p q : A → Bool) (new : A) (xs : List A)
      → q new ≡ false
      → ((x : A) → p x ≡ true → q x ≡ false)
      → find q (replace_first p new xs) ≡ find q xs
  find-replace_other p q new [] k o = refl
  find-replace_other p q new (x ∷ xs) k o = ground (arith, find-replace_other p q new xs k o, o x)

  pub find-append :
      (p : A → Bool) (xs ys : List A) (a : A) → find p xs ≡ some a → find p (xs ++ ys) ≡ some a
  find-append p [] ys a h = absurd (ground (arith, h))
  find-append p (x ∷ xs) ys a h = elim (Bool-cases (p x)) [
    | inl here ↦ rw here (rw here at h)
    | inr further ↦ rw further (find-append p xs ys a (rw further at h))
  ]

  pub find-append_new :
      (p : A → Bool) (xs : List A) (a : A)
      → any p xs ≡ false
      → p a ≡ true
      → find p (xs ++ (a ∷ [])) ≡ some a
  find-append_new p [] a h k = ground (arith, k)
  find-append_new p (x ∷ xs) a h k = ground (arith, h, k, find-append_new p xs a)

  pub find_of_any : (p : A → Bool) (xs : List A) → any p xs ≡ true → find p xs ≢ none
  find_of_any p [] h = absurd (ground arith)
  find_of_any p (x ∷ xs) h = ground (arith, find_of_any p xs)

  pub any-append_last :
      (p : A → Bool) (xs : List A) (x : A) → p x ≡ true → any p (xs ++ (x ∷ [])) ≡ true
  any-append_last p [] x h = ground arith
  any-append_last p (y ∷ xs) x h = ground (arith, any-append_last p xs x h)

abbrev pub All {ℓ κ} : {A : Type ℓ} → (A → Type κ) → List A → Type κ
All P [] = Unit
All P (x ∷ xs) = P x × All P xs

-- slices.Contains on identifiers
abbrev pub contains_id : List ℕ → ℕ → Bool
contains_id [] n = false
contains_id (x ∷ xs) n = (x == n) || contains_id xs n

-- The statement is there of each item, with what is known of the item.
pub All-zip {ℓ κ μ} :
    {A : Type ℓ} (P : A → Type κ) (Q : A → Type κ) (R : A → Type μ) (xs : List A)
    → ((x : A) → P x → Q x → R x)
    → All P xs
    → All Q xs
    → All R xs
All-zip P Q R [] f p q = tt
All-zip P Q R (x ∷ xs) f p q = (f x p.0 q.0, All-zip P Q R xs f p.1 q.1)

pub All-map {ℓ κ μ} :
    {A : Type ℓ} (P : A → Type κ) (R : A → Type μ) (xs : List A)
    → ((x : A) → P x → R x)
    → All P xs
    → All R xs
All-map P R [] f p = tt
All-map P R (x ∷ xs) f p = (f x p.0, All-map P R xs f p.1)

pub All-append {ℓ κ} :
    {A : Type ℓ} (P : A → Type κ) (xs ys : List A) → All P xs → All P ys → All P (xs ++ ys)
All-append P [] ys p q = q
All-append P (x ∷ xs) ys p q = (p.0, All-append P xs ys p.1 q)

pub All-replace_first {ℓ κ} :
    {A : Type ℓ} (P : A → Type κ) (p : A → Bool) (new : A) (xs : List A)
    → All P xs
    → P new
    → All P (replace_first p new xs)
All-replace_first P p new [] h k = tt
All-replace_first P p new (x ∷ xs) h k =
    elim (p x) as (λ b. All P (if b then new ∷ xs else x ∷ replace_first p new xs)) [
      | true ↦ (k, h.1)
      | false ↦ (h.0, All-replace_first P p new xs h.1 k)
    ]

pub All-find {ℓ κ} :
    {A : Type ℓ} (P : A → Type κ) (p : A → Bool) (xs : List A) (a : A)
    → All P xs
    → find p xs ≡ some a
    → P a
All-find P p [] a h e = absurd (ground arith)
All-find P p (x ∷ xs) a h e = elim (Bool-cases (p x)) [
  | inl yes_x ↦ subst P (ground arith) h.0
  | inr no_x ↦ All-find P p xs a h.1 (ground arith)
]

-- What holds of no item holds of none.
pub any-All {ℓ} :
    {A : Type ℓ} (p : A → Bool) (xs : List A) → any p xs ≡ false → All (λ x. p x ≡ false) xs
any-All p [] h = tt
any-All p (x ∷ xs) h = (ground arith, any-All p xs (ground arith))

-- slices.Contains on strings
abbrev pub contains : List String → String → Bool
contains [] s = false
contains (x ∷ xs) s = str_eq x s || contains xs s
