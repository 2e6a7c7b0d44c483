-- ===== src/Api.antt =====
-- internal/api/api.go: the error values of the handlers, and their answer to a client.
use openlocal_api.Prelude.{
  ℕ, ◌≡◌, refl, ◌⊎◌, inl, inr, Bool, true, false, List, [], ◌∷◌, String, str_eq, if◌then◌else◌,
}

-- Go's `error`, by the kinds that the handlers build or test for.
pub data Error : Type 0 where
  -- fiber.NewError
  fiber : ℕ → String → Error
  -- api.Fail, the *DomainError
  fail : ℕ → String → String → Error
  -- pgx.ErrNoRows
  no_rows : Error
  -- a pgconn.PgError with code 23505
  unique_violation : Error
  -- a pgconn.PgError with code 23503
  foreign_key_violation : Error
  -- errors.New, fmt.Errorf
  plain : String → Error

pub data Result {ℓ} (A : Type ℓ) : Type ℓ where
  ok : A → Result A
  err : Error → Result A

pub record ErrorResponse : Type 0 where
  pub message : String
  pub code : String

-- The status and the body that a client gets for an error.
pub error_handler : Error → ℕ × ErrorResponse
error_handler (fail status code message) = (status, record { message = message; code = code })
error_handler (fiber status message) = (status, record { message = message; code = "" })
error_handler no_rows = (404, record { message = "not found"; code = "" })
error_handler _ = (500, record { message = "internal server error"; code = "" })

unfoldable pub role_allowed : String → List String → Bool
role_allowed role [] = false
role_allowed role (a ∷ rest) = if str_eq role a then true else role_allowed role rest

-- `if !cond { return err }`
abbrev pub require : Bool → Error → Result (Unit {0})
require passed e = elim passed [ true ↦ ok tt | false ↦ err e ]

-- The rest of a handler runs where there is no error: `if err != nil { return err }`.
module _ {ℓ κ} {A : Type ℓ} {B : Type κ} where
  infixl 5 ◌>>=◌ ◌>>◌
  abbrev pub ◌>>=◌ : Result A → (A → Result B) → Result B
  r >>= rest = elim r [ err e ↦ err e | ok value ↦ rest value ]

  abbrev pub ◌>>◌ : Result A → Result B → Result B
  r >> rest = r >>= λ value. rest

  pub >>=-eq-ok :
      (r : Result A) (rest : A → Result B) {answer : B}
      → (r >>= rest) ≡ ok answer
      → (value : A) × (r ≡ ok value) × (rest value ≡ ok answer)
  >>=-eq-ok (err e) rest ended = cc
  >>=-eq-ok (ok value) rest ended = (value, refl, ended)

pub Result-cases {ℓ} :
    {A : Type ℓ} (r : Result A) → ((a : A) × (r ≡ ok a)) ⊎ ((e : Error) × (r ≡ err e))
Result-cases (ok a) = inl (a, refl)
Result-cases (err e) = inr (e, refl)
