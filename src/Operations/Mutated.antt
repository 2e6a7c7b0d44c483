-- ===== src/Operations/Mutated.antt =====
-- What a change that mutate of internal/operations/mutate.go lets through has done to the tables.
use openlocal_api.Prelude.{
  ℕ, ◌≡◌, refl, ◌∙◌, subst, inl, inr, Bool, ◌||◌, Option, some, List, [], ◌∷◌, String,
  replace_first, arith, Option-cases,
}
use openlocal_api.Api.{ok, Result-cases}
use openlocal_api.Text.Runes.{Text}
use openlocal_api.Entitlements.Access.{Subscription}
use openlocal_api.Operations.Tables.{
  Appointment, Preorder, Requests, get_appointment, get_preorder, is_appointment, is_preorder,
  update_appointment, update_preorder, next_version, next_preorder_version,
}
use openlocal_api.Operations.Intake.{Settings}
use openlocal_api.Operations.Booking.{Env}
use openlocal_api.Operations.Changes.{Target, EditItem, Change, positive_quantity}
use openlocal_api.Operations.Checks.{
  moves_appointment, move_appointment, new_end, moves_preorder, move_preorder, new_window,
  final_total_of,
}
use openlocal_api.Operations.Mutate.{
  reads, writes, enqueue_expiration, follow_move, written_appointment, save_appointment,
  edit_appointment, mutate_appointment, items_of, total_of, update_preorder_item, edit_items,
  written_preorder, save_preorder, edit_preorder, mutate_preorder,
}

-- The tables beside the requests themselves that a write to a request leaves alone.
pub record Beside (t t' : Requests) : Type 0 where
  pub history : t'.history ≡ t.history
  pub usage : t'.usage ≡ t.usage
  pub subscriptions : t'.subscriptions ≡ t.subscriptions
  pub businesses : t'.businesses ≡ t.businesses
  pub replays : t'.replays ≡ t.replays

module _ (env : Env) (target : Target) (moved : Bool) (t t' : Requests) (u : Unit {0}) where
  save_appointment-Beside :
      (row : Appointment)
      → save_appointment env target moved row t ≡ ok (u, t')
      → Beside t t'
        × (t'.preorders ≡ t.preorders)
        × (t'.appointments
            ≡ replace_first
                (is_appointment target.business target.id)
                (next_version row)
                t.appointments)
  unfolding save_appointment update_appointment writes follow_move enqueue_expiration
  save_appointment-Beside row e = (
    record {
      history = ground (arith, e);
      usage = ground (arith, e);
      subscriptions = ground (arith, e);
      businesses = ground (arith, e);
      replays = ground (arith, e);
    },
    ground (arith, e),
    ground (arith, e),
  )

  save_preorder-Beside :
      (row : Preorder)
      → save_preorder env target moved row t ≡ ok (u, t')
      → Beside t t'
        × (t'.appointments ≡ t.appointments)
        × (t'.preorders
            ≡ replace_first
                (is_preorder target.business target.id)
                (next_preorder_version row)
                t.preorders)
  unfolding save_preorder update_preorder writes follow_move enqueue_expiration
  save_preorder-Beside row e = (
    record {
      history = ground (arith, e);
      usage = ground (arith, e);
      subscriptions = ground (arith, e);
      businesses = ground (arith, e);
      replays = ground (arith, e);
    },
    ground (arith, e),
    ground (arith, e),
  )

Beside-trans : (a b c : Requests) → Beside a b → Beside b c → Beside a c
Beside-trans a b c x y = record {
  history = y.history ∙ x.history;
  usage = y.usage ∙ x.usage;
  subscriptions = y.subscriptions ∙ x.subscriptions;
  businesses = y.businesses ∙ x.businesses;
  replays = y.replays ∙ x.replays;
}

-- What the branch for appointments has done.
pub record AppointmentRan (env : Env) (sub : Subscription) (cfg : Settings) (target : Target)
    (change : Change) (status : String) (notes : Text) (confirm : Bool) (t t' : Requests)
    : Type 0 where
  pub old : Appointment
  pub ends : ℕ
  pub found : get_appointment target.business target.id t.appointments ≡ some old
  pub ends_at :
      new_end env sub cfg target
        (confirm || moves_appointment change)
        (move_appointment change old)
        t
      ≡ ok ends
  pub beside : Beside t t'
  pub preorders : t'.preorders ≡ t.preorders
  pub appointments :
      t'.appointments
      ≡ replace_first
          (is_appointment target.business target.id)
          (next_version (
            written_appointment env.now cfg status notes confirm
              (moves_appointment change)
              (record (move_appointment change old) { ends_at = ends })))
          t.appointments

module _ (env : Env) (sub : Subscription) (cfg : Settings) (target : Target) (change : Change)
    (status : String) (notes : Text) (confirm : Bool) (t t' : Requests) (u : Unit {0}) where
  edit_appointment-AppointmentRan :
      (old : Appointment)
      → get_appointment target.business target.id t.appointments ≡ some old
      → edit_appointment env sub cfg target change status notes confirm old t ≡ ok (u, t')
      → AppointmentRan env sub cfg target change status notes confirm t t'
  unfolding edit_appointment reads
  edit_appointment-AppointmentRan old found e =
      elim (Result-cases (
        new_end env sub cfg target (confirm || moves_appointment change)
          (move_appointment change old) t)) [
            | inr (why, failed) ↦ absurd (ground (arith, failed, e))
            | inl (ends, ran) ↦
                let (beside, same, rows) =
                  save_appointment-Beside env target (moves_appointment change) t t' u
                    (written_appointment env.now cfg status notes confirm (moves_appointment change)
                      (record (move_appointment change old) { ends_at = ends }))
                    (ground (arith, ran, e)) in
                record {
                  old = old;
                  ends = ends;
                  found = found;
                  ends_at = ran;
                  beside = beside;
                  preorders = same;
                  appointments = rows;
                }
          ]

  pub mutate_appointment-AppointmentRan :
      mutate_appointment env sub cfg target change status notes confirm t ≡ ok (u, t')
      → AppointmentRan env sub cfg target change status notes confirm t t'
  unfolding mutate_appointment
  mutate_appointment-AppointmentRan e =
      elim (Option-cases (get_appointment target.business target.id t.appointments)) [
        | inl missing ↦ absurd (ground (arith, missing, e))
        | inr (old, found) ↦ edit_appointment-AppointmentRan old found (ground (arith, found, e))
      ]

module _ (env : Env) (target : Target) where
  update_preorder_item-Beside :
      (id quantity : ℕ) (t t' : Requests) (u : Unit {0})
      → update_preorder_item target.business target.id id quantity t ≡ ok (u, t')
      → Beside t t' × (t'.appointments ≡ t.appointments) × (t'.preorders ≡ t.preorders)
  unfolding update_preorder_item
  update_preorder_item-Beside id quantity t t' u e = (
    record {
      history = ground (arith, e);
      usage = ground (arith, e);
      subscriptions = ground (arith, e);
      businesses = ground (arith, e);
      replays = ground (arith, e);
    },
    ground (arith, e),
    ground (arith, e),
  )

  edit_items-Beside :
      (seen : List ℕ) (items : List EditItem) (t t' : Requests) (u : Unit {0})
      → edit_items env target seen items t ≡ ok (u, t')
      → Beside t t' × (t'.appointments ≡ t.appointments) × (t'.preorders ≡ t.preorders)
  unfolding edit_items
  edit_items-Beside seen [] t t' u e =
      let same : t ≡ t' = ground (arith, e) in
      subst
        (λ (x : Requests).
          Beside t x × (x.appointments ≡ t.appointments) × (x.preorders ≡ t.preorders))
        same
        (
          record {
            history = refl;
            usage = refl;
            subscriptions = refl;
            businesses = refl;
            replays = refl;
          },
          refl,
          refl,
        )
  edit_items-Beside seen (i ∷ is) t t' u e =
      elim (Result-cases (positive_quantity env.amount_of i.final_quantity)) [
        | inr (why, failed) ↦ absurd (ground (arith, failed, e))
        | inl (quantity, parsed) ↦
            elim (Result-cases (update_preorder_item target.business target.id i.id quantity t)) [
              | inr (why, failed) ↦ absurd (ground (arith, parsed, failed, e))
              | inl ((v, mid), ran) ↦
                  let (x, xa, xp) = update_preorder_item-Beside i.id quantity t mid v ran in
                  let (y, ya, yp) =
                    edit_items-Beside (i.id ∷ seen) is mid t' u (ground (arith, parsed, ran, e)) in
                  (Beside-trans t mid t' x y, ya ∙ xa, yp ∙ xp)
            ]
      ]

-- What the branch for preorders has done.
pub record PreorderRan (env : Env) (sub : Subscription) (cfg : Settings) (target : Target)
    (change : Change) (status : String) (notes : Text) (confirm : Bool) (t t' : Requests)
    : Type 0 where
  pub old : Preorder
  pub new : Preorder
  pub total : Option ℕ
  pub found : get_preorder target.business target.id t.preorders ≡ some old
  pub window :
      new_window env sub cfg target (confirm || moves_preorder change) (move_preorder change old) t
      ≡ ok new
  pub beside : Beside t t'
  pub appointments : t'.appointments ≡ t.appointments
  pub preorders :
      t'.preorders
      ≡ replace_first
          (is_preorder target.business target.id)
          (next_preorder_version (
            written_preorder env.now cfg status notes confirm
              (moves_preorder change)
              (record new { final_total = total })))
          t.preorders

module _ (env : Env) (sub : Subscription) (cfg : Settings) (target : Target) (change : Change)
    (status : String) (notes : Text) (confirm : Bool) (t t' : Requests) (u : Unit {0}) where
  edit_preorder-PreorderRan :
      (old : Preorder)
      → get_preorder target.business target.id t.preorders ≡ some old
      → edit_preorder env sub cfg target change status notes confirm old t ≡ ok (u, t')
      → PreorderRan env sub cfg target change status notes confirm t t'
  unfolding edit_preorder reads
  edit_preorder-PreorderRan old found e =
      elim (Result-cases (
        new_window env sub cfg target (confirm || moves_preorder change) (move_preorder change old)
          t)) [
            | inr (why, failed) ↦ absurd (ground (arith, failed, e))
            | inl (p, ran) ↦ elim (Result-cases (edit_items env target [] (items_of change) t)) [
              | inr (why, failed) ↦ absurd (ground (arith, ran, failed, e))
              | inl ((v, mid), edited) ↦
                  elim (Result-cases (final_total_of env (total_of change) p.final_total)) [
                    | inr (why, failed) ↦ absurd (ground (arith, ran, edited, failed, e))
                    | inl (total, priced) ↦
                        let (x, xa, xp) =
                          edit_items-Beside env target [] (items_of change) t mid v edited in
                        let (y, ya, yp) =
                          save_preorder-Beside env target (moves_preorder change) mid t' u
                            (written_preorder env.now cfg status notes confirm
                              (moves_preorder change) (record p { final_total = total }))
                            (ground (arith, ran, edited, priced, e)) in
                        record {
                          old = old;
                          new = p;
                          total = total;
                          found = found;
                          window = ran;
                          beside = Beside-trans t mid t' x y;
                          appointments = ya ∙ xa;
                          preorders = rw (← xp) yp;
                        }
                  ]
            ]
          ]

  pub mutate_preorder-PreorderRan :
      mutate_preorder env sub cfg target change status notes confirm t ≡ ok (u, t')
      → PreorderRan env sub cfg target change status notes confirm t t'
  unfolding mutate_preorder
  mutate_preorder-PreorderRan e =
      elim (Option-cases (get_preorder target.business target.id t.preorders)) [
        | inl missing ↦ absurd (ground (arith, missing, e))
        | inr (old, found) ↦ edit_preorder-PreorderRan old found (ground (arith, found, e))
      ]
