-- ===== src/Operations/Created.antt =====
-- What create of internal/operations/create.go has done to the tables, where it ends without an error.
use openlocal_api.Prelude.{
  ℕ, ◌≡◌, sym, ap, ◌∙◌, inl, inr, false, ◌||◌, List, [], ◌∷◌, ◌++◌, ◌==◌, any, ltb, arith,
  Bool-cases,
}
use openlocal_api.Api.{ok, Result-cases}
use openlocal_api.Operations.States.{pending_expiration}
use openlocal_api.Operations.Rows.{Business, Service, PickupWindow}
use openlocal_api.Operations.Tables.{Appointment, Preorder, Requests}
use openlocal_api.Operations.Intake.{Settings}
use openlocal_api.Operations.Customer.{CustomerInput}
use openlocal_api.Operations.Booking.{Env, check_appointment, check_pickup}
use openlocal_api.Operations.Changes.{customer_facing}
use openlocal_api.Operations.Checks.{get_service}
use openlocal_api.Operations.Mutate.{reads, writes}
use openlocal_api.Operations.Basket.{
  ItemInput, Line, price_items, order_total, no_inputs, count_inputs,
}
use openlocal_api.Operations.Arrivals.{Booking, is_unavailable, service_or_error}
use openlocal_api.Operations.Create.{
  create_appointment, create_preorder, item_rows, new_appointment, new_preorder, Written,
  create_visit, create_basket,
}

-- A new appointment: the slot was offered, and one row was added.
pub record VisitRan (env : Env) (cfg : Settings) (call : Booking) (b : Business)
    (input : CustomerInput) (customer_id service resource start : ℕ) (w : Written) (t t' : Requests)
    : Type 0 where
  pub svc : Service
  pub offered : check_appointment env b.id cfg svc b.timezone resource 0 start t ≡ ok w.ends
  pub expiry : w.expiry ≡ pending_expiration env.now start cfg.pending_ttl_minutes
  pub unused : any (λ (x : Appointment). x.id == call.id) t.appointments ≡ false
  pub appointments :
      t'.appointments
      ≡ t.appointments
        ++ (new_appointment call b input customer_id svc resource start w.ends w.expiry ∷ [])
  pub preorders : t'.preorders ≡ t.preorders
  pub history : t'.history ≡ t.history
  pub jobs : t'.jobs ≡ t.jobs

-- A new preorder: the window was offered, the items were priced, and one row was added.
pub record BasketRan (env : Env) (cfg : Settings) (call : Booking) (b : Business)
    (input : CustomerInput) (customer_id window : ℕ) (items : List ItemInput) (w : Written)
    (t t' : Requests) : Type 0 where
  pub row : PickupWindow
  pub lines : List Line
  pub total : ℕ
  pub offered : check_pickup env b.id cfg b.timezone window 0 t ≡ ok row
  pub priced : price_items env.amount_of cfg.variant_rules b.id t.variants items ≡ ok lines
  pub summed : order_total lines ≡ ok total
  pub expiry : w.expiry ≡ pending_expiration env.now row.starts_at cfg.pending_ttl_minutes
  pub unused : any (λ (x : Preorder). x.id == call.id) t.preorders ≡ false
  pub preorders :
      t'.preorders ≡ t.preorders ++ (new_preorder call b input customer_id row w.expiry total ∷ [])
  pub items_added : t'.items ≡ t.items ++ item_rows call.item_id b.id call.id 0 lines
  pub appointments : t'.appointments ≡ t.appointments
  pub history : t'.history ≡ t.history
  pub jobs : t'.jobs ≡ t.jobs

create_appointment_ok :
    (a : Appointment) (t t' : Requests) (u : Unit {0})
    → create_appointment a t ≡ ok (u, t')
    → (any (λ (x : Appointment). x.id == a.id) t.appointments ≡ false)
      × (t'.appointments ≡ t.appointments ++ (a ∷ []))
      × (t'.preorders ≡ t.preorders)
      × (t'.history ≡ t.history)
      × (t'.jobs ≡ t.jobs)
unfolding create_appointment
create_appointment_ok a t t' u e =
    elim (Bool-cases (any (λ (x : Appointment). x.id == a.id) t.appointments)) [
      | inl used ↦ absurd (ground (arith, used, e))
      | inr unused ↦ (
        unused,
        ground (arith, unused, e),
        ground (arith, unused, e),
        ground (arith, unused, e),
        ground (arith, unused, e),
      )
    ]

create_preorder_ok :
    (p : Preorder) (t t' : Requests) (u : Unit {0})
    → create_preorder p t ≡ ok (u, t')
    → (any (λ (x : Preorder). x.id == p.id) t.preorders ≡ false)
      × (t'.preorders ≡ t.preorders ++ (p ∷ []))
      × (t'.appointments ≡ t.appointments)
      × (t'.items ≡ t.items)
      × (t'.history ≡ t.history)
      × (t'.jobs ≡ t.jobs)
unfolding create_preorder
create_preorder_ok p t t' u e =
    elim (Bool-cases (any (λ (x : Preorder). x.id == p.id) t.preorders)) [
      | inl used ↦ absurd (ground (arith, used, e))
      | inr unused ↦ (
        unused,
        ground (arith, unused, e),
        ground (arith, unused, e),
        ground (arith, unused, e),
        ground (arith, unused, e),
        ground (arith, unused, e),
      )
    ]

module _ (env : Env) (cfg : Settings) (call : Booking) (b : Business) (input : CustomerInput)
    (customer_id : ℕ) (w : Written) (t t' : Requests) where
  pub create_visit-VisitRan :
      (service resource start : ℕ)
      → create_visit env cfg call b input customer_id service resource start t ≡ ok (w, t')
      → VisitRan env cfg call b input customer_id service resource start w t t'
  unfolding create_visit reads
  create_visit-VisitRan service resource start e =
      elim (Result-cases (service_or_error (get_service b.id service t.services))) [
        | inr (why, failed) ↦ absurd (ground (arith, failed, e))
        | inl (svc, found) ↦
            elim (Bool-cases (is_unavailable (customer_facing call.audience) svc)) [
              | inl closed ↦ absurd (ground (arith, found, closed, e))
              | inr available ↦
                  elim (Result-cases
                    (check_appointment env b.id cfg svc b.timezone resource 0 start t)) [
                      | inr (why, failed) ↦ absurd (ground (arith, found, available, failed, e))
                      | inl (finish, offered) ↦
                          let expiry = pending_expiration env.now start cfg.pending_ttl_minutes in
                          let row =
                            new_appointment call b input customer_id svc resource start finish
                              expiry in
                          elim (Result-cases (create_appointment row t)) [
                            | inr (why, failed) ↦
                                absurd (ground (arith, found, available, offered, failed, e))
                            | inl ((u, last), inserted) ↦
                                let ends : finish ≡ w.ends =
                                  ground (arith, found, available, offered, inserted, e) in
                                let expires : expiry ≡ w.expiry =
                                  ground (arith, found, available, offered, inserted, e) in
                                let same : last ≡ t' =
                                  ground (arith, found, available, offered, inserted, e) in
                                let (unused, rows, preorders, history, jobs) =
                                  create_appointment_ok row t t' u (rw same at inserted) in
                                record {
                                  svc = svc;
                                  offered = offered ∙ ap ok ends;
                                  expiry = sym expires;
                                  unused = unused;
                                  appointments = rw (← ends, ← expires) rows;
                                  preorders = preorders;
                                  history = history;
                                  jobs = jobs;
                                }
                          ]
                    ]
            ]
      ]

  pub create_basket-BasketRan :
      (window : ℕ) (items : List ItemInput)
      → create_basket env cfg call b input customer_id window items t ≡ ok (w, t')
      → BasketRan env cfg call b input customer_id window items w t t'
  unfolding create_basket reads writes
  create_basket-BasketRan window items e =
      elim (Bool-cases (no_inputs items || ltb 50 (count_inputs items))) [
        | inl refused ↦ absurd (ground (arith, refused, e))
        | inr counted ↦ elim (Result-cases (check_pickup env b.id cfg b.timezone window 0 t)) [
          | inr (why, failed) ↦ absurd (ground (arith, counted, failed, e))
          | inl (row, offered) ↦
              elim (Result-cases
                (price_items env.amount_of cfg.variant_rules b.id t.variants items)) [
                  | inr (why, failed) ↦ absurd (ground (arith, counted, offered, failed, e))
                  | inl (lines, priced) ↦ elim (Result-cases (order_total lines)) [
                    | inr (why, failed) ↦
                        absurd (ground (arith, counted, offered, priced, failed, e))
                    | inl (total, summed) ↦
                        let expiry =
                          pending_expiration env.now row.starts_at cfg.pending_ttl_minutes in
                        let new = new_preorder call b input customer_id row expiry total in
                        elim (Result-cases (create_preorder new t)) [
                          | inr (why, failed) ↦
                              absurd (ground (arith, counted, offered, priced, summed, failed, e))
                          | inl ((u, mid), inserted) ↦
                              let expires : expiry ≡ w.expiry =
                                ground (arith, counted, offered, priced, summed, inserted, e) in
                              let last : record mid {
                                items = mid.items ++ item_rows call.item_id b.id call.id 0 lines;
                              }
                                  ≡ t' =
                                ground (arith, counted, offered, priced, summed, inserted, e) in
                              let (unused, rows, appointments, old_items, history, jobs) =
                                create_preorder_ok new t mid u inserted in
                              record {
                                row = row;
                                lines = lines;
                                total = total;
                                offered = offered;
                                priced = priced;
                                summed = summed;
                                expiry = sym expires;
                                unused = unused;
                                preorders =
                                    rw (← expires)
                                      (sym (ap (λ (x : Requests). x.preorders) last) ∙ rows);
                                items_added =
                                    sym (ap (λ (x : Requests). x.items) last)
                                    ∙ ap (λ old. old ++ item_rows call.item_id b.id call.id 0 lines)
                                        old_items;
                                appointments =
                                    sym (ap (λ (x : Requests). x.appointments) last) ∙ appointments;
                                history = sym (ap (λ (x : Requests). x.history) last) ∙ history;
                                jobs = sym (ap (λ (x : Requests). x.jobs) last) ∙ jobs;
                              }
                        ]
                  ]
                ]
        ]
      ]
