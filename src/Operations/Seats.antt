-- ===== src/Operations/Seats.antt =====
-- The limit on the active resources of a business, in resources of internal/operations/configuration.go.
use openlocal_api.Prelude.{
  ℕ, ◌+◌, ◌<◌, ◌≡◌, refl, sym, ap, subst, ◌∙◌, inl, inr, Bool, true, false, find, find-append_new,
  find-replace_first, find-replace_other, find_of_any, Option-cases, not, ◌&&◌, some, List, [], ◌∷◌,
  ◌++◌, str_eq, ◌==◌, leb, any, replace_first, arith, Bool-cases,
}
use openlocal_api.Api.{ok, Result-cases}
use openlocal_api.Tx.Runs.{atomically_ok}
use openlocal_api.Entitlements.Access.{Subscription, limits}
use openlocal_api.Operations.Rows.{AppointmentResource}
use openlocal_api.Operations.Tables.{Requests, ensure_subscription, lock_subscription}
use openlocal_api.Operations.Intake.{require_paid}
use openlocal_api.Operations.Booking.{Env}
use openlocal_api.Operations.Mutate.{reads}
use openlocal_api.Operations.Rules.{valid_schedule}
use openlocal_api.Operations.Configuration.{
  SaveResource, is_resource, resource_base, resource_id_of, invalid_resource, has_schedule,
  knows_services, count_active, save_appointment_resource, saved_resource, save_resource_body,
  save_resource,
}

-- All active resources of a business; uuid.Nil is no id of a row.
count_append :
    (business beside : ℕ) (rows : List AppointmentResource) (r : AppointmentResource)
    → count_active business beside (rows ++ (r ∷ []))
      ≡ count_active business beside rows + count_active business beside (r ∷ [])
unfolding count_active
count_append business beside [] r = ground arith
count_append business beside (x ∷ rows) r = ground (arith, count_append business beside rows r)

-- A resource that is written under an id does not change how many others are active.
count_beside_replaced :
    (business id : ℕ) (rows : List AppointmentResource) (r : AppointmentResource)
    → r.id ≡ id
    → count_active business id (replace_first (is_resource business id) r rows)
      ≡ count_active business id rows
unfolding count_active
count_beside_replaced business id [] r same = refl
count_beside_replaced business id (x ∷ rows) r same =
    elim (Bool-cases (is_resource business id x)) [
      | inl here ↦ ground (arith, here, same)
      | inr further ↦ ground (arith, further, same, count_beside_replaced business id rows r same)
    ]

module _ (env : Env) (call : SaveResource) (t t' : Requests) (r : AppointmentResource) where
  body_within :
      (sub : Subscription) (base body : AppointmentResource) (u : Unit {0})
      → lock_subscription call.business t ≡ some sub
      → require_paid env.now sub "appointments" ≡ ok u
      → resource_base call t ≡ ok base
      → call.merge base ≡ ok body
      → save_resource_body env call t ≡ ok (r, t')
      → (r.active ≡ true
          → count_active call.business (resource_id_of call) t.resources < (limits sub.tier).1)
        × (save_appointment_resource r t ≡ ok (tt, t'))
        × (r.id ≡ resource_id_of call)
        × (r.business_id ≡ call.business)
  unfolding save_resource_body reads
  body_within sub base body u locked pays read merged e =
      let quota =
        body.active
        && leb (limits sub.tier).1 (count_active call.business (resource_id_of call) t.resources) in
      elim (Bool-cases (invalid_resource body)) [
        | inl wrong ↦ absurd (ground (arith, locked, pays, read, merged, wrong, e))
        | inr fits ↦ elim (Result-cases (valid_schedule body.hours body.closed_dates)) [
          | inr (why, failed) ↦ absurd (ground (arith, locked, pays, read, merged, fits, failed, e))
          | inl (v, planned) ↦
              elim (Bool-cases (not (str_eq sub.tier "business") && has_schedule body)) [
                | inl refused ↦
                    absurd (ground (arith, locked, pays, read, merged, fits, planned, refused, e))
                | inr allowed ↦
                    elim (Bool-cases (knows_services call.business t.services body.service_ids)) [
                      | inr unknown ↦ absurd (
                          ground
                            (arith, locked, pays, read, merged, fits, planned, allowed, unknown, e))
                      | inl known ↦ elim (Bool-cases quota) [
                        | inl full ↦ absurd (
                            ground (
                              arith, locked, pays, read, merged, fits, planned, allowed, known,
                              full, e,
                            ))
                        | inr room ↦
                            elim (Result-cases
                              (save_appointment_resource (saved_resource call body) t)) [
                                | inr (why, failed) ↦ absurd (
                                    ground (
                                      arith, locked, pays, read, merged, fits, planned, allowed,
                                      known, room, failed, e,
                                    ))
                                | inl ((w, last), saved) ↦
                                    let made : saved_resource call body ≡ r = ground (
                                      arith, locked, pays, read, merged, fits, planned, allowed,
                                      known, room, saved, e,
                                    ) in
                                    let same : last ≡ t' = ground (
                                      arith, locked, pays, read, merged, fits, planned, allowed,
                                      known, room, saved, e,
                                    ) in
                                    (
                                      (λ on. ground (
                                        arith,
                                        on,
                                        ap (λ (x : AppointmentResource). x.active) made,
                                        room,
                                      )),
                                      rw (made, same) at saved,
                                      sym (ap (λ (x : AppointmentResource). x.id) made),
                                      sym (ap (λ (x : AppointmentResource). x.business_id) made),
                                    )
                              ]
                      ]
                    ]
              ]
        ]
      ]

  saved_within :
      (sub : Subscription)
      → lock_subscription call.business t ≡ some sub
      → save_resource_body env call t ≡ ok (r, t')
      → (r.active ≡ true
          → count_active call.business (resource_id_of call) t.resources < (limits sub.tier).1)
        × (save_appointment_resource r t ≡ ok (tt, t'))
        × (r.id ≡ resource_id_of call)
        × (r.business_id ≡ call.business)
  unfolding save_resource_body reads
  saved_within sub locked e = elim (Result-cases (require_paid env.now sub "appointments")) [
    | inr (why, failed) ↦ absurd (ground (arith, locked, failed, e))
    | inl (u, pays) ↦ elim (Result-cases (resource_base call t)) [
      | inr (why, failed) ↦ absurd (ground (arith, locked, pays, failed, e))
      | inl (base, read) ↦ elim (Result-cases (call.merge base)) [
        | inr (why, failed) ↦ absurd (ground (arith, locked, pays, read, failed, e))
        | inl (body, merged) ↦ body_within sub base body u locked pays read merged e
      ]
    ]
  ]

-- The row is found under its key, and every other key has the row that it had.
pub record Wrote (r : AppointmentResource) (t t' : Requests) : Type 0 where
  pub stored : find (is_resource r.business_id r.id) t'.resources ≡ some r
  pub kept :
      (b i : ℕ)
      → (b == r.business_id && i == r.id) ≡ false
      → find (is_resource b i) t'.resources ≡ find (is_resource b i) t.resources
  pub others : t' ≡ record t { resources = t'.resources }

absent_key :
    (b i : ℕ) (rows : List AppointmentResource)
    → any (λ (x : AppointmentResource). x.id == i) rows ≡ false
    → any (is_resource b i) rows ≡ false
absent_key b i [] h = refl
absent_key b i (x ∷ rows) h = ground (arith, h, absent_key b i rows)

present_key :
    (p : AppointmentResource → Bool) (rows : List AppointmentResource)
    → any p rows ≡ true
    → (old : AppointmentResource) × (find p rows ≡ some old)
present_key p rows there = elim (Option-cases (find p rows)) [
  | inl missing ↦ absurd (find_of_any p rows there missing)
  | inr found ↦ found
]

find-append_other :
    (p : AppointmentResource → Bool) (rows : List AppointmentResource) (r : AppointmentResource)
    → p r ≡ false
    → find p (rows ++ (r ∷ [])) ≡ find p rows
find-append_other p [] r other = ground (arith, other)
find-append_other p (x ∷ rows) r other = ground (arith, other, find-append_other p rows r other)

save_appointment_resource-Wrote :
    (r : AppointmentResource) (t t' : Requests) (u : Unit {0})
    → save_appointment_resource r t ≡ ok (u, t')
    → Wrote r t t'
unfolding save_appointment_resource
save_appointment_resource-Wrote r t t' u e =
    elim (Bool-cases (any (λ (x : AppointmentResource). x.id == r.id) t.resources)) [
      | inr new ↦
          let made : record t { resources = t.resources ++ (r ∷ []) } ≡ t' =
            ground (arith, new, e) in
          subst (Wrote r t) made (record {
            stored =
                find-append_new (is_resource r.business_id r.id) t.resources r
                  (absent_key r.business_id r.id t.resources new) (ground arith);
            kept = λ b i other.
                find-append_other (is_resource b i) t.resources r (ground (arith, other));
            others = refl;
          })
      | inl there ↦ elim (Bool-cases (any (is_resource r.business_id r.id) t.resources)) [
        | inr foreign ↦ absurd (ground (arith, there, foreign, e))
        | inl own ↦
            let made : record t {
              resources = replace_first (is_resource r.business_id r.id) r t.resources;
            }
                ≡ t' =
              ground (arith, there, own, e) in
            let (old, found) = present_key (is_resource r.business_id r.id) t.resources own in
            subst (Wrote r t) made (record {
              stored =
                  find-replace_first (is_resource r.business_id r.id) r t.resources old found
                    (ground arith);
              kept = λ b i other.
                  find-replace_other (is_resource r.business_id r.id) (is_resource b i) r
                    t.resources (ground (arith, other)) (λ x at. ground (arith, at, other));
              others = refl;
            })
      ]
    ]

-- The write leaves the other resources alone.
saved_beside :
    (r : AppointmentResource) (t t' : Requests) (u : Unit {0})
    → save_appointment_resource r t ≡ ok (u, t')
    → count_active r.business_id r.id t'.resources ≡ count_active r.business_id r.id t.resources
unfolding save_appointment_resource count_active
saved_beside r t t' u e =
    elim (Bool-cases (any (λ (x : AppointmentResource). x.id == r.id) t.resources)) [
      | inr new ↦
          let rows : t'.resources ≡ t.resources ++ (r ∷ []) = ground (arith, new, e) in
          rw rows (count_append r.business_id r.id t.resources r ∙ ground arith)
      | inl there ↦ elim (Bool-cases (any (is_resource r.business_id r.id) t.resources)) [
        | inr foreign ↦ absurd (ground (arith, there, foreign, e))
        | inl own ↦
            let rows : t'.resources ≡ replace_first (is_resource r.business_id r.id) r t.resources =
              ground (arith, there, own, e) in
            rw rows (count_beside_replaced r.business_id r.id t.resources r refl)
      ]
    ]

ensured_resources :
    (now business : ℕ) (t : Requests) → (ensure_subscription now business t).resources ≡ t.resources
unfolding ensure_subscription
ensured_resources now business t = ground arith

-- The limit of the tier on resources: an accepted POST or PATCH writes the resource, under its id, for the
-- business itself; every other resource and every other table, but for the subscription that begin makes
-- sure of, stays as it was; and where the resource is active, fewer others of the business are active than
-- the tier allows, before and after, so with it the limit is kept.
pub save_resource_within :
    (env : Env) (call : SaveResource) (t t' : Requests) (r : AppointmentResource)
    (sub : Subscription)
    → save_resource env call t ≡ (ok r, t')
    → lock_subscription call.business (ensure_subscription env.now call.business t) ≡ some sub
    → (r.business_id ≡ call.business)
      × (r.id ≡ resource_id_of call)
      × (r.active ≡ true → count_active r.business_id r.id t'.resources < (limits sub.tier).1)
      × (count_active r.business_id r.id t'.resources ≡ count_active r.business_id r.id t.resources)
      × Wrote r (ensure_subscription env.now call.business t) t'
unfolding save_resource
save_resource_within env call t t' r sub e locked =
    let start = ensure_subscription env.now call.business t in
    let body = atomically_ok (save_resource_body env call) start r t' e in
    let (quota, saved, id, business) = saved_within env call start t' r sub locked body in
    let same : count_active r.business_id r.id t'.resources
        ≡ count_active r.business_id r.id t.resources =
      saved_beside r start t' tt saved
      ∙ ap (count_active r.business_id r.id) (ensured_resources env.now call.business t) in
    (
      business,
      id,
      (λ on. rw (saved_beside r start t' tt saved, business, id) (quota on)),
      same,
      save_appointment_resource-Wrote r start t' tt saved,
    )
