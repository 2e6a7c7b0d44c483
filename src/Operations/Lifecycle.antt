-- ===== src/Operations/Lifecycle.antt =====
-- The life of a request under Next: how long it can go on, and what is never entered.
use openlocal_api.Prelude.{
  ℕ, zero, suc, ◌+◌, ◌≤◌, ◌<◌, ◌≡◌, ◌≢◌, refl, subst, true, false, List, [], ◌∷◌, String, str_eq,
  eq_iff, All, arith, contains, if◌then◌else◌, Bool-cases, inl, inr,
}
use openlocal_api.Operations.States.{next_of_appointment, next_of_preorder, next}

-- The transitions that a request of the module goes through, one after the other.
pub data Steps (module_name : String) : String → String → ℕ → Type 0 where
  stay : {s : String} → Steps module_name s s 0
  step :
      {s u : String} (t : String) (n : ℕ)
      → contains (next module_name s) t ≡ true
      → Steps module_name t u n
      → Steps module_name s u (suc n)

-- How many transitions a status can still be followed by.
rank : String → ℕ
rank s =
    if str_eq s "requested"
    then 4
    else if str_eq s "confirmed"
    then 3
    else if str_eq s "preparing"
    then 2
    else if str_eq s "ready"
    then 1
    else 0

pub All-contains {ℓ} :
    (P : String → Type ℓ) (xs : List String) (s : String) → All P xs → contains xs s ≡ true → P s
All-contains P [] s a h = absurd (ground arith)
All-contains P (x ∷ xs) s a h = elim (Bool-cases (str_eq x s)) [
  | inl e ↦ subst P ((eq_iff x s).0 e) a.0
  | inr n ↦ All-contains P xs s a.1 (ground (arith, n))
]

-- A status that a transition from `s` leads to.
Entered : String → String → Type 0
Entered s t = (rank t < rank s) × (str_eq t "requested" ≡ false) × (str_eq t "expired" ≡ false)

next-Entered : (m s : String) → All (Entered s) (next m s)
unfolding next next_of_appointment next_of_preorder rank Entered
next-Entered m s = ground arith

step-Entered : (m s t : String) → contains (next m s) t ≡ true → Entered s t
step-Entered m s t h = All-contains (Entered s) (next m s) t (next-Entered m s) h

Steps_rank : (m s t : String) (n : ℕ) → Steps m s t n → rank t + n ≤ rank s
unfolding Entered
Steps_rank m s t n stay = omega arith
Steps_rank m s t n (step u k h rest) =
    omega (arith, Steps_rank m u t k rest, (step-Entered m s u h).0)

-- The status after some transitions.
Reached : String → ℕ → Type 0
Reached t n = n ≢ 0 → (str_eq t "requested" ≡ false) × (str_eq t "expired" ≡ false)

Steps-Reached : (m s t : String) (n : ℕ) → Steps m s t n → Reached t n
unfolding Reached Entered
Steps-Reached m s t n stay some_made = absurd (some_made refl)
Steps-Reached m s t n (step u zero h stay) some_made =
    let (lower, a, b) = step-Entered m s u h in (a, b)
Steps-Reached m s t n (step u (suc k) h rest) some_made =
    Steps-Reached m u t (suc k) rest λ e. absurd (omega arith)

rank_top : (s : String) → rank s ≤ 4
unfolding rank
rank_top s = ground arith

-- A request makes at most four transitions, whatever they are; none leads back to `requested`, and none
-- to `expired`, which only Expire writes.
pub Steps_bounded :
    (m s t : String) (n : ℕ)
    → Steps m s t n
    → (n ≤ 4) × (n ≢ 0 → (str_eq t "requested" ≡ false) × (str_eq t "expired" ≡ false))
Steps_bounded m s t n p =
    (omega (arith, Steps_rank m s t n p, rank_top s), unfold Reached in Steps-Reached m s t n p)
