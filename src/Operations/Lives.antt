-- ===== src/Operations/Lives.antt =====
-- The life of one request among all that happens to the tables: it goes through the states of its machine.
use openlocal_api.Prelude.{
  ℕ, ◌≤◌, ◌≡◌, refl, ap, ◌∙◌, subst, inl, inr, true, false, Option, some, List, [], ◌∷◌, String,
  str_eq, arith, Bool-cases,
}
use openlocal_api.Operations.States.{next, next_of_appointment, next_of_preorder, no_next}
use openlocal_api.Operations.Tables.{Requests}
use openlocal_api.Operations.Machine.{State, Move, state_of, no-Move}
use openlocal_api.Operations.Refinement.{mutate-Refines}
use openlocal_api.Operations.Newcomers.{create-State}
use openlocal_api.Operations.Histories.{Event, created, mutated, expired, happen, happen_all}
use openlocal_api.Operations.Expirations.{Expires, ByExpiry, expire-ByExpiry}

-- The states that a request goes through: moves of its machine, and the expiry of a request that was
-- not confirmed.
pub data Life (m : String) : State → State → Type 0 where
  stays : {s : State} → Life m s s
  moves : {s s'' : State} (s' : State) → Move m s s' → Life m s' s'' → Life m s s''
  expires : {s s'' : State} (s' : State) → Expires s s' → Life m s' s'' → Life m s s''

-- What became of a request that the tables hold.
abbrev LivesOn : String → State → Option State → Type 0
LivesOn m s x = (s' : State) × (x ≡ some s') × Life m s s'

happen-LivesOn :
    (e : Event) (t : Requests) (m : String) (b i : ℕ) (s : State)
    → state_of m b i t ≡ some s
    → (s' : State) × (state_of m b i (happen e t) ≡ some s')
      × ((s'' : State) → Life m s' s'' → Life m s s'')
unfolding happen ByExpiry
happen-LivesOn (created env call) t m b i s there =
    (s, create-State env call t m b i s there, λ s'' rest. rest)
happen-LivesOn (mutated env target change) t m b i s there =
    elim (mutate-Refines env target change t m b i) [
      | inl same ↦ (s, same ∙ there, λ s'' rest. rest)
      | inr (before, after, was, now_is, move) ↦
          let started : before ≡ s = cc (was, there) in
          (after, now_is, λ s'' rest. moves after (subst (λ x. Move m x after) started move) rest)
    ]
happen-LivesOn (expired now business id n) t m b i s there =
    elim (expire-ByExpiry now business id b i n m t) [
      | inl same ↦ (s, same ∙ there, λ s'' rest. rest)
      | inr (before, after, was, now_is, over) ↦
          let started : before ≡ s = cc (was, there) in
          (
            after,
            now_is,
            λ s'' rest. expires after (subst (λ x. Expires x after) started over) rest,
          )
    ]

-- Refinement of a whole history: whatever sequence of calls of create and of mutate and of expirations, by whomever and
-- accepted or not, happens to the tables, a request that they hold goes through a life of the abstract
-- machine: each change follows Next or is the expiry of a request that is still requested, each counts the
-- version up by one, and the request is never lost.
pub happen_all-Life :
    (es : List Event) (t : Requests) (m : String) (b i : ℕ) (s : State)
    → state_of m b i t ≡ some s
    → (s' : State) × (state_of m b i (happen_all es t) ≡ some s') × Life m s s'
unfolding happen_all
happen_all-Life [] t m b i s there = (s, there, stays)
happen_all-Life (e ∷ es) t m b i s there =
    let (s', now_is, extend) = happen-LivesOn e t m b i s there in
    let (s'', ends, rest) = happen_all-Life es (happen e t) m b i s' now_is in
    (s'', ends, extend s'' rest)

requested_goes_on : (m s : String) → s ≡ "requested" → no_next (next m s) ≡ true → ⊥
unfolding next next_of_appointment next_of_preorder
requested_goes_on m s asked final = elim (Bool-cases (str_eq m "appointments")) [
  | inl here ↦ let no : false ≡ true = rw (asked, here) at final in absurd (cc no)
  | inr there ↦ let no : false ≡ true = rw (asked, there) at final in absurd (cc no)
]

final_stays : (m : String) (s s' : State) → no_next (next m s.status) ≡ true → Life m s s' → s' ≡ s
final_stays m s s' final stays = refl
final_stays m s s' final (moves u move rest) = absurd (no-Move m s u final move)
final_stays m s s' final (expires u over rest) =
    absurd (requested_goes_on m s.status over.requested final)

-- A request that is rejected, cancelled, completed, not attended, collected, uncollected or expired stays
-- so: where Next leads nowhere from its status, no history of calls and expirations changes the status or
-- the version.
pub happen_all_final :
    (es : List Event) (t : Requests) (m : String) (b i : ℕ) (s : State)
    → state_of m b i t ≡ some s
    → no_next (next m s.status) ≡ true
    → state_of m b i (happen_all es t) ≡ some s
happen_all_final es t m b i s there final =
    let (s', ends, life) = happen_all-Life es t m b i s there in
    ends ∙ ap some (final_stays m s s' final life)

later_version : (m : String) (s s' : State) → Life m s s' → s.version ≤ s'.version
later_version m s s' stays = omega arith
later_version m s s' (moves u move rest) = omega (arith, move.counted, later_version m u s' rest)
later_version m s s' (expires u over rest) = omega (arith, over.counted, later_version m u s' rest)

same_version : (m : String) (s s' : State) → Life m s s' → s'.version ≡ s.version → s' ≡ s
same_version m s s' stays e = refl
same_version m s s' (moves u move rest) e =
    absurd (omega (arith, e, move.counted, later_version m u s' rest))
same_version m s s' (expires u over rest) e =
    absurd (omega (arith, e, over.counted, later_version m u s' rest))

-- The version tells the state: over any history of calls and expirations the version of a request never
-- goes back, and where it is the same, the status is the same.
pub happen_all_version :
    (es : List Event) (t : Requests) (m : String) (b i : ℕ) (s s' : State)
    → state_of m b i t ≡ some s
    → state_of m b i (happen_all es t) ≡ some s'
    → (s.version ≤ s'.version) × (s'.version ≡ s.version → s'.status ≡ s.status)
happen_all_version es t m b i s s' before after =
    let (end, ends, life) = happen_all-Life es t m b i s before in
    let same : end ≡ s' = cc (ends, after) in
    let lived : Life m s s' = subst (Life m s) same life in
    (later_version m s s' lived, λ e. ap (λ (x : State). x.status) (same_version m s s' lived e))
