-- ===== src/Operations/Checks.antt =====
-- What mutate of internal/operations/mutate.go reads and finds out of the tables: the request with its
-- settings, the end of an appointment, the window of a preorder, the final total.
use openlocal_api.Prelude.{
  ℕ, Bool, true, false, not, ◌&&◌, ◌||◌, Option, none, some, List, [], ◌∷◌, ◌==◌, find,
  if◌then◌else◌,
}
use openlocal_api.Api.{Error, Result, ok, err, ◌>>=◌, ◌>>◌}
use openlocal_api.Text.Runes.{Text}
use openlocal_api.Entitlements.Access.{Subscription, get_module}
use openlocal_api.Operations.Rows.{Business, View, Service}
use openlocal_api.Operations.Tables.{Appointment, Preorder, Requests}
use openlocal_api.Operations.Intake.{Settings, settings_of, require_paid}
use openlocal_api.Operations.Booking.{Env, check_appointment, check_pickup}
use openlocal_api.Operations.Changes.{
  Target, EditItem, Change, transition, editing, find_business, record_of, money, check_version,
  check_transition, notes_of,
}

-- GetService
unfoldable pub get_service : ℕ → ℕ → List Service → Option Service
get_service business id rows = find (λ s. s.business_id == business && s.id == id) rows

abbrev pub or_else : Option ℕ → ℕ → ℕ
or_else none n = n
or_else (some m) n = m

abbrev pub is_set : {A : Type 0} → Option A → Bool
is_set none = false
is_set (some a) = true

abbrev pub no_items : List EditItem → Bool
no_items [] = true
no_items (i ∷ is) = false

abbrev pub moves_appointment : Change → Bool
moves_appointment (transition status version) = false
moves_appointment (editing e) = is_set e.starts_at || is_set e.resource_id

abbrev pub names_preorder : Change → Bool
names_preorder (transition status version) = false
names_preorder (editing e) =
    is_set e.pickup_window_id || (not (no_items e.items) || is_set e.final_total)

abbrev pub move_appointment : Change → Appointment → Appointment
move_appointment (transition status version) a = a
move_appointment (editing e) a = record a {
  starts_at = or_else e.starts_at a.starts_at;
  resource_id = or_else e.resource_id a.resource_id;
}

abbrev pub moves_preorder : Change → Bool
moves_preorder (transition status version) = false
moves_preorder (editing e) = is_set e.pickup_window_id

abbrev pub names_appointment : Change → Bool
names_appointment (transition status version) = false
names_appointment (editing e) = is_set e.starts_at || is_set e.resource_id

abbrev pub move_preorder : Change → Preorder → Preorder
move_preorder (transition status version) p = p
move_preorder (editing e) p = record p {
  pickup_window_id = or_else e.pickup_window_id p.pickup_window_id;
}

-- The end of the appointment by checkAppointment, with the duration and the buffer that it was made
-- with.
unfoldable pub checked_end :
    Env → Subscription → Settings → Target → Appointment → Requests → Result ℕ
checked_end env sub cfg target a t =
    require_paid env.now sub target.module_name
    >> elim (get_service target.business a.service_id t.services) [
      | none ↦ err Error.no_rows
      | some svc ↦
          check_appointment env target.business cfg
            (record svc {
              duration_minutes = a.duration_minutes;
              buffer_minutes = a.buffer_minutes;
            })
            a.timezone a.resource_id target.id a.starts_at t
    ]

-- The end that is written: checked again where the appointment is confirmed or moved.
unfoldable pub new_end :
    Env → Subscription → Settings → Target → Bool → Appointment → Requests → Result ℕ
new_end env sub cfg target checked a t =
    if checked then checked_end env sub cfg target a t else ok a.ends_at

-- The preorder with its window by checkPickup, where it is confirmed or moved.
unfoldable pub new_window :
    Env → Subscription → Settings → Target → Bool → Preorder → Requests → Result Preorder
new_window env sub cfg target checked p t =
    if checked
    then (do
      require_paid env.now sub target.module_name
      w ← check_pickup env target.business cfg p.timezone p.pickup_window_id target.id t
      ok (record p { starts_at = w.starts_at; ends_at = w.ends_at }))
    else ok p

unfoldable pub final_total_of : Env → Option Text → Option ℕ → Result (Option ℕ)
final_total_of env none old = ok old
final_total_of env (some raw) old = elim (money env.amount_of raw) [
  | err e ↦ err e
  | ok total ↦ ok (some total)
]

-- What mutate reads before it writes.
pub record Read : Type 0 where
  pub view : View
  pub settings : Settings
  pub notes : Text

abbrev pub known_business : Option Business → Result (Unit {0})
known_business none = err Error.no_rows
known_business (some b) = ok tt

-- The settings, the tests on the transition, and the notes, of the request that was read.
unfoldable pub test_change : Env → Target → Change → View → Requests → Result Read
test_change env target change r t = do
  cfg ← settings_of env.unmarshal (get_module target.business target.module_name t.modules)
  known_business (find_business target.business t.businesses)
  check_transition env.now cfg target change r
  notes ← notes_of change r.notes
  ok (record { view = r; settings = cfg; notes = notes })

-- The request, and the tests on its version and status, before the others.
unfoldable pub read_change : Env → Target → Change → Requests → Result Read
read_change env target change t = do
  r ← record_of env.now target.business target.id target.module_name t
  check_version change r target.module_name
  test_change env target change r t
