-- ===== src/Examples/Changes.antt =====
-- A business with two appointments of one resource, and what happens to them.
use openlocal_api.Prelude.{
  ℕ, ◌+◌, ◌*◌, ◌≤◌, ◌≡◌, ◌⊎◌, refl, inl, inr, some, none, List, [], ◌∷◌, arith,
}
use openlocal_api.Text.Runes.{Text, text, is_space, is_lower, is_upper, is_digit, text_eq}
use openlocal_api.Scheduling.Calendar.{minute}
use openlocal_api.Operations.States.{
  valid_module, next, next_of_appointment, valid_module, shown_status,
}
use openlocal_api.Operations.Tables.{
  Appointment, Requests, get_appointment, lock_subscription, ensure_subscription,
  update_appointment, add_history,
}
use openlocal_api.Api.{ok}
use openlocal_api.Entitlements.Access.{get_module}
use openlocal_api.Operations.Rows.{View}
use openlocal_api.Operations.Intake.{defaults, settings_of}
use openlocal_api.Operations.Guards.{mutate_stale, mutate_late}
use openlocal_api.Operations.Changed.{Replayed}
use openlocal_api.Operations.Journal.{Journaled, mutate-Journaled}
use openlocal_api.Operations.Again.{mutate_again}
use openlocal_api.Operations.Checks.{new_end, test_change, read_change}
use openlocal_api.Validator.{idempotency_key}
use openlocal_api.Text.Fields.{trim_space}
use openlocal_api.Operations.Booking.{Env}
use openlocal_api.Operations.Overlaps.{Apart, Apart-self, NoOverlap}
use openlocal_api.Operations.Changes.{
  member, public, Target, transition, as_sent, view_of, view_of_appointment, find_business,
  record_of, scope_of, get_request_replay, replay, save_request_replay, save_replay, check_version,
  too_late, check_transition, notes_of,
}
use openlocal_api.Operations.Mutate.{
  mutate, reads, writes, written_appointment, save_appointment, edit_appointment,
  mutate_appointment, take_unit, write_request, write_history, change_request, answer_saved,
  mutate_body,
}
use openlocal_api.Operations.Machine.{State, state_of}
use openlocal_api.Operations.Histories.{
  Event, mutated, expired, happen_all, happen_all-NoOverlap, happen,
}
use openlocal_api.Operations.Expire.{expire}
use openlocal_api.Operations.Settled.{expire_settles}
use openlocal_api.Operations.Lives.{Life, happen_all-Life, happen_all_final, happen_all_version}
use openlocal_api.Examples.Agenda.{zone}
use openlocal_api.Examples.Requests.{waiting, tables}
use openlocal_api.Operations.Expire.{expire, expire_body, expire_appointment, not_due}

abbrev env : ℕ → Env
env now = record {
  now = now;
  zone_of = λ name. some zone;
  unmarshal = λ base written. some base;
  amount_of = λ written. none;
  show_uuid = λ id. "id";
  add_thirty_days = λ t. t + 30 * (1440 * minute);
}

-- Takes the resource of `waiting` after it.
abbrev later : Appointment
later = record waiting {
  id = 32;
  starts_at = 8500 + 5 * minute;
  ends_at = 8500 + 35 * minute;
  status = "confirmed";
}

abbrev two : Requests
two = record tables {
  appointments = waiting ∷ later ∷ [];
  businesses =
      record { id = 1; slug = text "salon"; status = "published"; timezone = text "UTC" } ∷ [];
}

abbrev by_member : ℕ → Text → Target
by_member id key = record {
  business = 1;
  id = id;
  module_name = "appointments";
  actor = "member";
  audience = member;
  key = key;
  digest = 9;
}

-- A member rejects the one, a customer tries to cancel the other too late, and the job of the first runs.
abbrev afternoon : List Event
afternoon =
    mutated (env 2000) (by_member 31 (text "key-0001")) (transition "rejected" 1)
    ∷ mutated (env 2500) (record (by_member 32 (text "key-0002")) { audience = public })
        (transition "cancelled" 1)
    ∷ expired 4000 1 31 "appointments"
    ∷ []

waiting-Apart : Apart waiting later
unfolding Apart
waiting-Apart same resource other first second = inl (omega arith)

later-Apart : Apart later waiting
unfolding Apart
later-Apart same resource other first second = inr (omega arith)

two-NoOverlap : NoOverlap two.appointments
unfolding NoOverlap
two-NoOverlap = (
  (Apart-self waiting waiting refl, (waiting-Apart, tt)),
  ((later-Apart, (Apart-self later later refl, tt)), tt),
)

happen_all-NoOverlap_example : NoOverlap (happen_all afternoon two).appointments
happen_all-NoOverlap_example = happen_all-NoOverlap afternoon two two-NoOverlap

abbrev asked : State
asked = record { status = "requested"; version = 1 }

two_31 : state_of "appointments" 1 31 two ≡ some asked
unfolding state_of get_appointment
two_31 = refl

happen_all-Life_example :
    (s' : State) × (state_of "appointments" 1 31 (happen_all afternoon two) ≡ some s')
    × Life "appointments" asked s'
happen_all-Life_example = happen_all-Life afternoon two "appointments" 1 31 asked two_31

-- The job alone.
abbrev overdue : List Event
overdue = expired 4000 1 31 "appointments" ∷ []

abbrev over : State
over = record { status = "expired"; version = 2 }

overdue_31 : state_of "appointments" 1 31 (happen_all overdue two) ≡ some over
unfolding state_of get_appointment happen_all happen expire valid_module expire_body
    lock_subscription ensure_subscription expire_appointment not_due update_appointment add_history
overdue_31 = refl

happen_all_version_example :
    (asked.version ≤ over.version) × (over.version ≡ asked.version → over.status ≡ asked.status)
happen_all_version_example =
    happen_all_version overdue two "appointments" 1 31 asked over two_31 overdue_31

-- The same tables, with the first appointment rejected before.
abbrev turned_down : Requests
turned_down = record two {
  appointments = record waiting { status = "rejected"; version = 2 } ∷ later ∷ [];
}

abbrev rejected : State
rejected = record { status = "rejected"; version = 2 }

happen_all_final_example :
    state_of "appointments" 1 31 (happen_all afternoon turned_down) ≡ some rejected
unfolding state_of get_appointment next next_of_appointment
happen_all_final_example =
    happen_all_final afternoon turned_down "appointments" 1 31 rejected refl refl

-- The customer has seen an old version.
mutate_stale_example :
    (mutate (env 2000) (by_member 31 (text "key-0003")) (transition "rejected" 7) two).1
    ≡ ensure_subscription 2000 1 two
unfolding as_sent
mutate_stale_example =
    mutate_stale (env 2000) (by_member 31 (text "key-0003")) (transition "rejected" 7) two asked
      two_31 (λ e. absurd (omega (arith, e)))

abbrev by_customer : Target
by_customer = record (by_member 31 (text "key-0004")) { audience = public }

-- An hour before the start is the latest, by the settings of a business that has set none.
mutate_late_example :
    (mutate (env 2000) by_customer (transition "cancelled" 1) two).1
    ≡ ensure_subscription 2000 1 two
unfolding settings_of get_module view_of get_appointment shown_status
mutate_late_example =
    mutate_late (env 2000) by_customer (transition "cancelled" 1) two defaults
      (view_of_appointment 2000 waiting) refl refl refl (inr refl)

abbrev reject : Target
reject = by_member 31 (text "key-0001")

-- What the rejection answers and leaves.
abbrev answer : View
answer = view_of_appointment 2000 (record waiting { status = "rejected"; version = 2 })

abbrev after : Requests
after = (mutate (env 2000) reject (transition "rejected" 1) two).1

accepted : mutate (env 2000) reject (transition "rejected" 1) two ≡ (ok answer, after)
unfolding reads writes written_appointment save_appointment edit_appointment mutate_appointment
    take_unit write_request write_history change_request answer_saved mutate_body mutate new_end
    test_change read_change as_sent find_business view_of record_of scope_of get_request_replay
    replay save_request_replay save_replay check_version too_late check_transition notes_of
    ensure_subscription lock_subscription get_appointment update_appointment add_history
    next_of_appointment next shown_status settings_of get_module idempotency_key trim_space is_space
    is_lower is_upper is_digit text_eq
accepted = refl

mutate-Journaled_example :
    Replayed
      (env 2000)
      reject
      (as_sent member (transition "rejected" 1))
      answer
      (ensure_subscription 2000 1 two)
      after
    ⊎ Journaled (env 2000) reject (as_sent member (transition "rejected" 1)) answer two after
mutate-Journaled_example =
    mutate-Journaled (env 2000) reject (transition "rejected" 1) two after answer accepted

mutate_again_example : mutate (env 9000) reject (transition "rejected" 1) after ≡ (ok answer, after)
unfolding replay idempotency_key trim_space is_space is_lower is_upper is_digit get_request_replay
mutate_again_example =
    mutate_again (env 2000) reject (transition "rejected" 1) two after answer 9000 accepted refl
      refl (omega arith)

expire_settles_example :
    (n : ℕ) × (state_of "appointments" 1 31 (expire 4000 1 31 "appointments" two).1
      ≡ some (record { status = "expired"; version = n }))
unfolding view_of get_appointment shown_status valid_module
expire_settles_example =
    expire_settles 4000 1 31 "appointments" two (view_of_appointment 4000 waiting) refl refl refl
