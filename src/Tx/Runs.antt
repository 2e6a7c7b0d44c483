-- ===== src/Tx/Runs.antt =====
-- Transactions that end, with or without an error.
use openlocal_api.Prelude.{◌≡◌, refl, ap, arith}
use openlocal_api.Api.{Result, ok, err}
use openlocal_api.Tx.{Tx, atomically}

-- A property of the tables holds after a request if it does where the transaction ends without an error.
pub atomically-runs {ℓ} :
    {S A : Type 0} (P : S → Type ℓ) (m : Tx S A) (s : S)
    → P s
    → ((a : A) (s' : S) → m s ≡ ok (a, s') → P s')
    → P (atomically m s).1
atomically-runs {S} {A} P m s p h = by_cases (m s) h
  where
    by_cases :
        (r : Result (A × S))
        → ((a : A) (s' : S) → r ≡ ok (a, s') → P s')
        → P (let q : Result A × S = elim r [ ok (a, s') ↦ (ok a, s') | err e ↦ (err e, s) ] in q).1
    by_cases (ok (a, s')) h = h a s' refl
    by_cases (err e) h = p

-- A transaction that ends well ends as its body does.
pub atomically_ok :
    {S A : Type 0} (m : Tx S A) (s : S) (a : A) (s' : S)
    → atomically m s ≡ (ok a, s')
    → m s ≡ ok (a, s')
atomically_ok {S} {A} m s a s' e = by_cases (m s) e
  where
    by_cases :
        (r : Result (A × S))
        → (let q : Result A × S = elim r [ ok (b, u) ↦ (ok b, u) | err x ↦ (err x, s) ] in q)
          ≡ (ok a, s')
        → r ≡ ok (a, s')
    by_cases (ok (b, u)) h = ground (arith, h)
    by_cases (err x) h = absurd (ground (arith, h))

pub ok_atomically :
    {S A : Type 0} (m : Tx S A) (s : S) (a : A) (s' : S)
    → m s ≡ ok (a, s')
    → atomically m s ≡ (ok a, s')
ok_atomically {S} {A} m s a s' e =
    ap {B = Result A × S} (λ r. elim r [ ok (b, u) ↦ (ok b, u) | err x ↦ (err x, s) ]) e
