-- ===== src/Tx.antt =====
-- The body of a database transaction, as the handlers write it: `Begin`, `defer Rollback`, the
-- statements, `Commit`.
pub mod Ensures
pub mod Runs
use openlocal_api.Prelude.{Bool, true, false, Option, none, some}
use openlocal_api.Api.{Error, Result, ok, err}

-- A body between `Begin` and `Commit`: an error forgets the state, since the deferred `Rollback`
-- undoes what was written.
abbrev pub Tx : Type 0 → Type 0 → Type 0
Tx S A = S → Result (A × S)

module _ {S : Type 0} where
  abbrev pub pure : {A : Type 0} → A → Tx S A
  pure a s = ok (a, s)

  abbrev pub throw : {A : Type 0} → Error → Tx S A
  throw e s = err e

  abbrev pub lift : {A : Type 0} → Result A → Tx S A
  lift r s = elim r [ ok a ↦ ok (a, s) | err e ↦ err e ]

  abbrev pub gets : {A : Type 0} → (S → A) → Tx S A
  gets f s = ok (f s, s)

  infixl 5 ◌>>=◌ ◌>>◌
  abbrev pub ◌>>=◌ : {A B : Type 0} → Tx S A → (A → Tx S B) → Tx S B
  ◌>>=◌ m f s = elim (m s) [ ok (a, s') ↦ f a s' | err e ↦ err e ]

  abbrev pub ◌>>◌ : {A B : Type 0} → Tx S A → Tx S B → Tx S B
  m >> k = m >>= λ _. k

  -- `if cond { return err }`
  abbrev pub guard : Bool → Error → Tx S (Unit {0})
  guard true e = throw e
  guard false e = pure tt

  -- A `:one` query: pgx.ErrNoRows where there is no row.
  abbrev pub one : {A : Type 0} → Option A → Tx S A
  one none s = err Error.no_rows
  one (some a) s = ok (a, s)

  -- `Begin`, the body, `Commit`, with `defer Rollback`: the state after a request and its answer.
  abbrev pub atomically : {A : Type 0} → Tx S A → S → Result A × S
  atomically m s = elim (m s) [ ok (a, s') ↦ (ok a, s') | err e ↦ (err e, s) ]
