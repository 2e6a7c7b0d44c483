-- ===== src/Operations/Again.antt =====
-- A call of mutate of internal/operations/mutate.go that is sent again with its idempotency key: replay and
-- saveReplay of core.go.
use openlocal_api.Prelude.{
  ℕ, ◌+◌, ◌<◌, ◌≡◌, refl, sym, ap, ◌∙◌, inl, inr, Bool, true, false, ◌&&◌, none, some, List, [],
  ◌∷◌, ◌++◌, String, eq_iff, ◌==◌, ltb, any, find, replace_first, arith, Bool-cases,
}
use openlocal_api.Api.{ok, Result-cases}
use openlocal_api.Text.Runes.{Text, text_eq_refl}
use openlocal_api.Text.Fields.{trim_space}
use openlocal_api.Validator.{idempotency_key}
use openlocal_api.Entitlements.Access.{Subscription}
use openlocal_api.Operations.Rows.{View, ReplayRow}
use openlocal_api.Operations.Tables.{Requests, ensure_subscription, lock_subscription}
use openlocal_api.Tx.Runs.{atomically_ok, ok_atomically}
use openlocal_api.Operations.Booking.{Env}
use openlocal_api.Operations.Changes.{
  Target, Change, as_sent, is_editing, scope_of, has_key, get_request_replay, replay, day,
  save_request_replay, save_replay,
}
use openlocal_api.Operations.Mutate.{reads, mutate_body, mutate}
use openlocal_api.Operations.Changed.{Fresh, Replayed, mutate_body_runs}
use openlocal_api.Operations.Guards.{written-Beside}

-- A row put into a table under a key is found by a test that asks for the key and more.
module _ {A : Type 0} (p q : A → Bool) (new : A) (implies : (x : A) → p x ≡ true → q x ≡ true)
    (found : p new ≡ true) where
  find_appended : (xs : List A) → any q xs ≡ false → find p (xs ++ (new ∷ [])) ≡ some new
  find_appended [] missing = ground (arith, found)
  find_appended (y ∷ ys) missing =
      let other : p y ≡ false = ground (arith, missing, implies y) in
      rw other (find_appended ys (ground (arith, missing)))

  find_replaced : (xs : List A) → any q xs ≡ true → find p (replace_first q new xs) ≡ some new
  find_replaced [] there = absurd (ground (arith, there))
  find_replaced (x ∷ xs) there = elim (Bool-cases (q x)) [
    | inl here ↦ rw here (ground (arith, found))
    | inr further ↦
        let other : p x ≡ false = ground (arith, implies x, further) in
        rw (further, other) (find_replaced xs (ground (arith, further, there)))
  ]

some-any : {A : Type 0} (p : A → Bool) (xs : List A) (x : A) → find p xs ≡ some x → any p xs ≡ true
some-any p [] x h = absurd (ground (arith, h))
some-any p (y ∷ ys) x h = ground (arith, h, some-any p ys x)

own_key : (r : ReplayRow) → has_key r.business_id r.scope r.key r ≡ true
own_key r = ground (arith, text_eq_refl r.key, (eq_iff r.scope r.scope).1 refl)

-- What was saved is found until it expires.
saved_is_found :
    (now : ℕ) (r : ReplayRow) (rows : List ReplayRow)
    → now < r.expires_at
    → get_request_replay now r.business_id r.scope r.key (save_request_replay r rows) ≡ some r
unfolding get_request_replay save_request_replay
saved_is_found now r rows live =
    let key : ReplayRow → Bool = has_key r.business_id r.scope r.key in
    let test : ReplayRow → Bool = λ x. key x && ltb now x.expires_at in
    let found : test r ≡ true = ground (arith, own_key r, live) in
    elim (Bool-cases (any key rows)) [
      | inl there ↦ rw there (find_replaced test key r (λ x h. ground (arith, h)) found rows there)
      | inr missing ↦
          rw missing (find_appended test key r (λ x h. ground (arith, h)) found rows missing)
    ]

trimmed_key :
    (key trimmed : Text) → idempotency_key key ≡ ok trimmed → trim_space key ≡ key → trimmed ≡ key
unfolding idempotency_key
trimmed_key key trimmed e same = ground (arith, e, same)

-- The answer that was saved is the answer of a replay, for a day.
replay_saved :
    (now later : ℕ) (target : Target) (scope : String) (answer : View) (t : Requests)
    → idempotency_key target.key ≡ ok target.key
    → later < now + day
    → replay later target scope (save_replay 200 now target scope answer t).replays
      ≡ ok (some answer)
unfolding replay save_replay
replay_saved now later target scope answer t valid live =
    let found =
      saved_is_found later
        (record {
          business_id = target.business;
          scope = scope;
          key = target.key;
          digest = target.digest;
          response = answer;
          status_code = 200;
          expires_at = now + day;
        })
        t.replays live in
    ground (arith, valid, found)

-- A key under which nothing was found is valid all the same.
unused_key :
    (now : ℕ) (target : Target) (scope : String) (rows : List ReplayRow)
    → replay now target scope rows ≡ ok none
    → trim_space target.key ≡ target.key
    → idempotency_key target.key ≡ ok target.key
unfolding replay
unused_key now target scope rows unused same = elim (Result-cases (idempotency_key target.key)) [
  | inr (why, failed) ↦ absurd (ground (arith, failed, unused))
  | inl (key, valid) ↦ valid ∙ ap ok (trimmed_key target.key key valid same)
]

-- The tables of subscriptions and of answers, after an accepted change.
module _ (env : Env) (target : Target) (change : Change) (answer : View) (t t' : Requests)
    (fresh : Fresh env target change answer t t') where
  fresh_subscriptions : t'.subscriptions ≡ t.subscriptions
  unfolding save_replay
  fresh_subscriptions =
      let ran = fresh.ran in
      ap (λ (x : Requests). x.subscriptions) fresh.saved
      ∙ ran.subscriptions
      ∙ (written-Beside env fresh.sub target change answer t fresh.changed ran).subscriptions
      ∙ ran.unit_taken.subscriptions

  fresh_locked : lock_subscription target.business t' ≡ some fresh.sub
  unfolding lock_subscription
  fresh_locked =
      ap (find (λ s. s.business_id == target.business)) fresh_subscriptions
      ∙ (unfold lock_subscription in fresh.locked)

  -- The business still has its subscription: begin adds none.
  fresh_ensured : (now : ℕ) → ensure_subscription now target.business t' ≡ t'
  unfolding ensure_subscription lock_subscription
  fresh_ensured now =
      rw (some-any (λ s. s.business_id == target.business) t'.subscriptions fresh.sub fresh_locked)
        refl

  fresh_replays :
      (later : ℕ)
      → trim_space target.key ≡ target.key
      → later < env.now + day
      → replay later target (scope_of env.show_uuid target (is_editing change)) t'.replays
        ≡ ok (some answer)
  fresh_replays later trimmed live =
      let scope = scope_of env.show_uuid target (is_editing change) in
      ap (λ (x : Requests). replay later target scope x.replays) fresh.saved
      ∙ replay_saved env.now later target scope answer fresh.changed
          (unused_key env.now target scope t.replays fresh.unused trimmed) live

replayed_body :
    (env : Env) (target : Target) (change : Change) (t : Requests) (sub : Subscription)
    (answer : View)
    → lock_subscription target.business t ≡ some sub
    → replay env.now target (scope_of env.show_uuid target (is_editing change)) t.replays
      ≡ ok (some answer)
    → mutate_body env target change t ≡ ok (answer, t)
unfolding mutate_body reads
replayed_body env target change t sub answer locked used = ground (arith, locked, used)

ensured_replays :
    (now business : ℕ) (t : Requests) → (ensure_subscription now business t).replays ≡ t.replays
unfolding ensure_subscription
ensured_replays now business t = ground arith

-- Idempotency: a call that was accepted, under a key that was not in use, can be sent again with the same
-- key and body within the day. Each repetition is given the answer of the first and changes nothing. (The
-- key has no white space around it, as it comes out of a header.)
pub mutate_again :
    (env : Env) (target : Target) (change : Change) (t t' : Requests) (answer : View) (later : ℕ)
    → mutate env target change t ≡ (ok answer, t')
    → replay env.now target
        (scope_of env.show_uuid target (is_editing (as_sent target.audience change)))
        t.replays
      ≡ ok none
    → trim_space target.key ≡ target.key
    → later < env.now + day
    → mutate (record env { now = later }) target change t' ≡ (ok answer, t')
unfolding mutate Replayed
mutate_again env target change t t' answer later e unused trimmed live =
    let asked = as_sent target.audience change in
    let start = ensure_subscription env.now target.business t in
    let scope = scope_of env.show_uuid target (is_editing asked) in
    elim (mutate_body_runs env target asked answer start t'
      (atomically_ok (mutate_body env target asked) start answer t' e)) [
        | inl replayed ↦
            let used : replay env.now target scope t.replays ≡ ok (some answer) =
              ap (replay env.now target scope) (sym (ensured_replays env.now target.business t))
              ∙ replayed.0 in
            absurd (ground (arith, unused, used))
        | inr fresh ↦ rw (fresh_ensured env target asked answer start t' fresh later) (
            ok_atomically (mutate_body (record env { now = later }) target asked) t' answer t' (
              replayed_body (record env { now = later }) target asked t' fresh.sub answer
                (fresh_locked env target asked answer start t' fresh)
                (fresh_replays env target asked answer start t' fresh later trimmed live)))
      ]
