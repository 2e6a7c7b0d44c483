-- ===== src/Tx/Ensures.antt =====
-- Rules for what holds of a transaction that ends without an error.
use openlocal_api.Prelude.{◌≡◌, refl, ap, ◌∙◌, Bool, true, false, Option, none, some, if◌then◌else◌}
use openlocal_api.Api.{Error, Result, ok, err}
use openlocal_api.Tx.{Tx, lift, one, guard, ◌>>=◌, ◌>>◌, atomically}

-- The postcondition holds of the value and the state, if there is no error.
abbrev pub Ensures {ℓ} : {A S : Type 0} → (A → S → Type ℓ) → Result (A × S) → Type ℓ
Ensures Q (ok (a, s)) = Q a s
Ensures Q (err e) = Unit

module _ {ℓ} {S A B : Type 0} (Q : B → S → Type ℓ) where
  pub Ensures-bind {κ} :
      (R : A → S → Type κ) (m : Tx S A) (f : A → Tx S B) (s : S)
      → Ensures R (m s)
      → ((a : A) (s' : S) → R a s' → Ensures Q (f a s'))
      → Ensures Q ((m >>= f) s)
  Ensures-bind R m f s h k = ran (m s) h
    where
      ran :
          (r : Result (A × S))
          → Ensures R r
          → Ensures Q (elim r [ ok (a, s') ↦ f a s' | err e ↦ err e ])
      ran (ok (a, s')) h = k a s' h
      ran (err e) h = tt

  pub Ensures-lift :
      (r : Result A) (f : A → Tx S B) (s : S)
      → ((a : A) → r ≡ ok a → Ensures Q (f a s))
      → Ensures Q ((lift r >>= f) s)
  Ensures-lift (ok a) f s k = k a refl
  Ensures-lift (err e) f s k = tt

  pub Ensures-one :
      (o : Option A) (f : A → Tx S B) (s : S)
      → ((a : A) → o ≡ some a → Ensures Q (f a s))
      → Ensures Q ((one o >>= f) s)
  Ensures-one none f s k = tt
  Ensures-one (some a) f s k = k a refl

module _ {ℓ} {S B : Type 0} (Q : B → S → Type ℓ) where
  pub Ensures-guard :
      (b : Bool) (e : Error) (k : Tx S B) (s : S)
      → (b ≡ false → Ensures Q (k s))
      → Ensures Q ((guard b e >> k) s)
  Ensures-guard true e k s h = tt
  Ensures-guard false e k s h = h refl

  pub Ensures-weaken {κ} :
      (R : B → S → Type κ) (r : Result (B × S))
      → Ensures R r
      → ((b : B) (s : S) → R b s → Q b s)
      → Ensures Q r
  Ensures-weaken R (ok (b, s)) h k = k b s h
  Ensures-weaken R (err e) h k = tt

-- A handler keeps what its transaction ensures and what held before.
pub atomically_keeps {ℓ} :
    {S A : Type 0} (P : S → Type ℓ) (m : Tx S A) (s : S)
    → P s
    → Ensures (λ a s'. P s') (m s)
    → P (atomically m s).1
atomically_keeps {S} {A} P m s p h = ended (m s) h
  where
    ended :
        (r : Result (A × S))
        → Ensures (λ a s'. P s') r
        → P (let q : Result A × S = elim r [ ok (a, s') ↦ (ok a, s') | err e ↦ (err e, s) ] in q).1
    ended (ok (a, s')) h = h
    ended (err e) h = p

module _ {ℓ} {S B : Type 0} (Q : B → S → Type ℓ) where
  pub Ensures-if :
      (b : Bool) (x y : Result (B × S))
      → (b ≡ true → Ensures Q x)
      → (b ≡ false → Ensures Q y)
      → Ensures Q (if b then x else y)
  Ensures-if true x y h k = h refl
  Ensures-if false x y h k = k refl

  pub Ensures-elim :
      {A : Type 0} (o : Option A) (e : Error) (f : A → Result (B × S))
      → ((a : A) → o ≡ some a → Ensures Q (f a))
      → Ensures Q (elim o [ none ↦ err e | some a ↦ f a ])
  Ensures-elim none e f h = tt
  Ensures-elim (some a) e f h = h a refl

  pub Ensures-choose :
      (b : Bool) (m n : Tx S B) (s : S)
      → (b ≡ true → Ensures Q (m s))
      → (b ≡ false → Ensures Q (n s))
      → Ensures Q ((if b then m else n) s)
  Ensures-choose true m n s h k = h refl
  Ensures-choose false m n s h k = k refl

-- The answer of a request and the state after it, from what its transaction ends in.
abbrev pub ended : {S A : Type 0} → S → Result (A × S) → Result A × S
ended s (ok (a, s')) = (ok a, s')
ended s (err e) = (err e, s)

pub atomically-ended : {S A : Type 0} (m : Tx S A) (s : S) → atomically m s ≡ ended s (m s)
atomically-ended {S} {A} m s = by_cases (m s)
  where
    by_cases :
        (r : Result (A × S))
        → (let q : Result A × S = elim r [ ok (a, s') ↦ (ok a, s') | err e ↦ (err e, s) ] in q)
          ≡ ended s r
    by_cases (ok (a, s')) = refl
    by_cases (err e) = refl

pub atomically_at :
    {S A : Type 0} (m : Tx S A) (s : S) {r : Result (A × S)} → m s ≡ r → atomically m s ≡ ended s r
atomically_at m s e = atomically-ended m s ∙ ap (ended s) e
