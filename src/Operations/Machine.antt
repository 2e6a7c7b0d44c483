-- ===== src/Operations/Machine.antt =====
-- The state machine that a request promises to be, whatever tables hold it: a status that follows
-- Next, and a version that counts the changes.
use openlocal_api.Prelude.{
  ℕ, suc, ◌≡◌, ◌⊎◌, ◌∙◌, inl, inr, true, false, ◌&&◌, Option, none, some, List, [], ◌∷◌, String,
  str_eq, ◌==◌, find_holds, find-replace_first, find-replace_other, replace_first, contains,
  if◌then◌else◌, arith, Bool-cases,
}
use openlocal_api.Operations.States.{next, no_next}
use openlocal_api.Operations.Tables.{
  Appointment, Preorder, Requests, ensure_subscription, get_appointment, get_preorder,
  is_appointment, is_preorder,
}

pub record State : Type 0 where
  pub status : String
  pub version : ℕ

-- A status that the change leads to: by a transition of Next, or the same in a request that is open.
pub Follows : String → String → String → Type 0
Follows m old new =
    (contains (next m old) new ≡ true) ⊎ ((new ≡ old) × (no_next (next m old) ≡ false))

-- One change of a request.
pub record Move (m : String) (s s' : State) : Type 0 where
  pub counted : s'.version ≡ suc s.version
  pub follows : Follows m s.status s'.status

-- The request is as it was, or made one move.
abbrev pub Refines : String → Option State → Option State → Type 0
Refines m x y = (y ≡ x) ⊎ ((s : State) × (s' : State) × (x ≡ some s) × (y ≡ some s') × Move m s s')

-- What was shown is what was stored.
pub stored-Follows :
    (m shown old new : String)
    → shown ≡ old
    → no_next (next m shown) ≡ false
    → (contains (next m shown) new ≡ true) ⊎ (new ≡ shown)
    → Follows m old new
unfolding Follows
stored-Follows m shown old new same unfinished (inl step) = inl (rw same at step)
stored-Follows m shown old new same unfinished (inr kept) = inr (kept ∙ same, rw same at unfinished)

-- Modules whose requests stand in one table have one Next.
pub Follows-same_table :
    (m n old new : String)
    → str_eq m "appointments" ≡ str_eq n "appointments"
    → Follows m old new
    → Follows n old new
unfolding Follows next
Follows-same_table m n old new same (inl step) = inl (rw same at step)
Follows-same_table m n old new same (inr (kept, unfinished)) = inr (kept, rw same at unfinished)

nothing_next : (ss : List String) (x : String) → no_next ss ≡ true → contains ss x ≡ true → ⊥
nothing_next [] x e h = ground (arith, h)
nothing_next (y ∷ ys) x e h = ground (arith, e)

-- A request whose status has no next makes no move.
pub no-Move : (m : String) (s s' : State) → no_next (next m s.status) ≡ true → Move m s s' → ⊥
unfolding Follows
no-Move m s s' final move = elim move.follows [
  | inl step ↦ nothing_next (next m s.status) s'.status final step
  | inr (kept, unfinished) ↦ absurd (ground (arith, final, unfinished))
]

abbrev pub of_appointment : Option Appointment → Option State
of_appointment none = none
of_appointment (some a) = some (record { status = a.status; version = a.version })

abbrev pub of_preorder : Option Preorder → Option State
of_preorder none = none
of_preorder (some p) = some (record { status = p.status; version = p.version })

-- The state of a request, read from the table of its module.
unfoldable pub state_of : String → ℕ → ℕ → Requests → Option State
state_of m b i t =
    if str_eq m "appointments"
    then of_appointment (get_appointment b i t.appointments)
    else of_preorder (get_preorder b i t.preorders)

-- Another request is not touched by an UPDATE on a key.
pub replaced_appointment :
    (b i b' i' : ℕ) (new old : Appointment) (rows : List Appointment)
    → get_appointment b i rows ≡ some old
    → new.business_id ≡ b
    → new.id ≡ i
    → get_appointment b' i' (replace_first (is_appointment b i) new rows)
      ≡ (if b == b' && i == i' then some new else get_appointment b' i' rows)
unfolding get_appointment
replaced_appointment b i b' i' new old rows found business id =
    elim (Bool-cases (b == b' && i == i')) [
      | inl here ↦
          let same_b : b ≡ b' = ground (arith, here) in
          let same_i : i ≡ i' = ground (arith, here) in
          rw (here, ← same_b, ← same_i)
            (find-replace_first (is_appointment b i) new rows old found
              (ground (arith, business, id)))
      | inr elsewhere ↦ rw elsewhere (
          find-replace_other (is_appointment b i) (is_appointment b' i') new rows
            (ground (arith, business, id, elsewhere)) (λ x at. ground (arith, at, elsewhere)))
    ]

pub replaced_preorder :
    (b i b' i' : ℕ) (new old : Preorder) (rows : List Preorder)
    → get_preorder b i rows ≡ some old
    → new.business_id ≡ b
    → new.id ≡ i
    → get_preorder b' i' (replace_first (is_preorder b i) new rows)
      ≡ (if b == b' && i == i' then some new else get_preorder b' i' rows)
unfolding get_preorder
replaced_preorder b i b' i' new old rows found business id =
    elim (Bool-cases (b == b' && i == i')) [
      | inl here ↦
          let same_b : b ≡ b' = ground (arith, here) in
          let same_i : i ≡ i' = ground (arith, here) in
          rw (here, ← same_b, ← same_i)
            (find-replace_first (is_preorder b i) new rows old found (ground (arith, business, id)))
      | inr elsewhere ↦ rw elsewhere (
          find-replace_other (is_preorder b i) (is_preorder b' i') new rows
            (ground (arith, business, id, elsewhere)) (λ x at. ground (arith, at, elsewhere)))
    ]

-- A row that is found has the key.
pub appointment_key :
    (b i : ℕ) (rows : List Appointment) (a : Appointment)
    → get_appointment b i rows ≡ some a
    → (a.business_id ≡ b) × (a.id ≡ i)
unfolding get_appointment
appointment_key b i rows a found =
    let key = find_holds (is_appointment b i) rows a found in
    (ground (arith, key), ground (arith, key))

pub preorder_key :
    (b i : ℕ) (rows : List Preorder) (a : Preorder)
    → get_preorder b i rows ≡ some a
    → (a.business_id ≡ b) × (a.id ≡ i)
unfolding get_preorder
preorder_key b i rows a found =
    let key = find_holds (is_preorder b i) rows a found in
    (ground (arith, key), ground (arith, key))

-- EnsureSubscription touches no request.
pub ensured-State :
    (now business : ℕ) (t : Requests) (m : String) (b i : ℕ)
    → state_of m b i (ensure_subscription now business t) ≡ state_of m b i t
unfolding state_of ensure_subscription
ensured-State now business t m b i = ground arith
