-- ===== src/Operations/Refusals.antt =====
-- What create of internal/operations/create.go answers to a customer whose request is not taken in, by
-- requireIntake and publicUnavailable of internal/operations/core.go.
use openlocal_api.Prelude.{◌≡◌, ap, ◌⊎◌, inl, inr, true, none, some, arith}
use openlocal_api.Api.{Error, fail, plain, Result, ok, err}
use openlocal_api.Tx.{Tx, atomically}
use openlocal_api.Entitlements.Access.{Subscription}
use openlocal_api.Operations.Rows.{Business}
use openlocal_api.Operations.Tables.{Requests, ensure_subscription, lock_subscription}
use openlocal_api.Operations.Intake.{public_unavailable, require_intake}
use openlocal_api.Operations.Admission.{require_intake_hides}
use openlocal_api.Operations.Customer.{CustomerInput, customer}
use openlocal_api.Operations.Booking.{Env}
use openlocal_api.Operations.Changes.{customer_facing, replay}
use openlocal_api.Operations.Mutate.{reads}
use openlocal_api.Operations.Arrivals.{Booking, module_of, business_for, intake_for, create_scope}
use openlocal_api.Operations.Create.{
  pass_challenge, admit_request, make_request, replay_target, make_body, create,
}

err_atomically :
    {S A : Type 0} (m : Tx S A) (s : S) (e : Error) → m s ≡ err e → atomically m s ≡ (err e, s)
err_atomically {S} {A} m s e failed =
    ap {B = Result A × S} (λ r. elim r [ ok (b, u) ↦ (ok b, u) | err x ↦ (err x, s) ]) failed

module _ (env : Env) (call : Booking) (b : Business) (input : CustomerInput) (sub : Subscription)
    (t : Requests) (e : Error) where
  admission_refused :
      customer_facing call.audience ≡ true
      → require_intake env.unmarshal env.now sub (module_of call.order) t.modules t.usage ≡ err e
      → admit_request env sub call b input t ≡ err (public_unavailable e)
  unfolding admit_request reads intake_for
  admission_refused asked refused = ground (arith, asked, refused)

  body_refused :
      customer_facing call.audience ≡ true
      → lock_subscription b.id t ≡ some sub
      → replay env.now
          (replay_target call b)
          (create_scope env.show_uuid call.audience (module_of call.order))
          t.replays
        ≡ ok none
      → call.challenge ≡ ok tt
      → require_intake env.unmarshal env.now sub (module_of call.order) t.modules t.usage ≡ err e
      → make_body env call b input t ≡ err (public_unavailable e)
  unfolding make_body reads make_request pass_challenge
  body_refused asked locked unused passed refused =
      ground (arith, asked, locked, unused, passed, admission_refused asked refused)

-- A customer, with an account or without, is not told why a module takes nothing in. Let the call pass the checks before: the
-- business is found with its subscription, the customer is valid, the key is new and the challenge passed.
-- Then create writes nothing but the subscription row that begin makes sure of, and answers the same for
-- every reason that requireIntake has: a subscription without the module or out of time, a module that is
-- off, no opening hours, a quota used up. Only settings that cannot be read have another answer.
pub create_hides :
    (env : Env) (call : Booking) (b : Business) (input : CustomerInput) (sub : Subscription)
    (t : Requests) (e : Error)
    → customer_facing call.audience ≡ true
    → business_for call t ≡ ok b
    → customer call.customer ≡ ok input
    → lock_subscription b.id (ensure_subscription env.now b.id t) ≡ some sub
    → replay env.now
        (replay_target call b)
        (create_scope env.show_uuid call.audience (module_of call.order))
        (ensure_subscription env.now b.id t).replays
      ≡ ok none
    → call.challenge ≡ ok tt
    → require_intake env.unmarshal env.now sub
        (module_of call.order)
        (ensure_subscription env.now b.id t).modules
        (ensure_subscription env.now b.id t).usage
      ≡ err e
    → (create env call t ≡ (
      err (
          fail 403 "module_unavailable" "requests are currently unavailable; contact the business"),
      ensure_subscription env.now b.id t,
    ))
      ⊎ (create env call t ≡ (err (plain "invalid settings"), ensure_subscription env.now b.id t))
unfolding create
create_hides env call b input sub t e asked found cleaned locked unused passed refused =
    let start = ensure_subscription env.now b.id t in
    let body =
      err_atomically (make_body env call b input) start (public_unavailable e)
        (body_refused env call b input sub start e asked locked unused passed refused) in
    let run : create env call t ≡ (err (public_unavailable e), start) =
      ground (arith, found, cleaned, body) in
    elim (require_intake_hides env.unmarshal env.now sub (module_of call.order) start.modules
      start.usage e refused) [
        | inl hidden ↦ inl (rw hidden at run)
        | inr unread ↦ inr (unfold public_unavailable in rw unread at run)
      ]
