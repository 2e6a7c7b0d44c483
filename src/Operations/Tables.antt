-- ===== src/Operations/Tables.antt =====
-- The tables of internal/platform/postgres/db that a request's life touches, and their statements. A
-- row's id occurs once in its table, so a statement on an id reads or writes the first row that has it.
use openlocal_api.Prelude.{
  ℕ, suc, Bool, ◌&&◌, Option, none, some, List, [], ◌∷◌, ◌++◌, String, str_eq, ◌==◌, any, find,
  replace_first, if◌then◌else◌,
}
use openlocal_api.Api.{Error, ok, err}
use openlocal_api.Tx.{Tx}
use openlocal_api.Text.Runes.{Text}
use openlocal_api.Entitlements.Access.{Subscription, ModuleRow, UsageEvent}
use openlocal_api.Operations.Rows.{
  Business, Service, AppointmentResource, PickupWindow, PreorderItem, RequestAccess, ReplayRow,
  ExpireJob, ModuleCustomer, VariantRow,
}

-- db.Appointment, without the price, the account that made it and the times of its creation and change
pub record Appointment : Type 0 where
  pub id : ℕ
  pub business_id : ℕ
  pub customer_id : ℕ
  pub service_id : ℕ
  pub resource_id : ℕ
  pub customer_name : Text
  pub customer_phone : Text
  pub notes : Text
  pub service_name : String
  pub duration_minutes : ℕ
  pub buffer_minutes : ℕ
  pub starts_at : ℕ
  pub ends_at : ℕ
  pub timezone : Text
  pub status : String
  pub version : ℕ
  pub expires_at : ℕ
  pub confirmed_at : Option ℕ

-- db.Preorder, with its totals in hundredths, without the account that made it and the times of its creation and change
pub record Preorder : Type 0 where
  pub id : ℕ
  pub business_id : ℕ
  pub customer_id : ℕ
  pub pickup_window_id : ℕ
  pub customer_name : Text
  pub customer_phone : Text
  pub notes : Text
  pub starts_at : ℕ
  pub ends_at : ℕ
  pub timezone : Text
  pub status : String
  pub version : ℕ
  pub expires_at : ℕ
  pub confirmed_at : Option ℕ
  pub estimated_total : ℕ
  pub final_total : Option ℕ

-- A row of request_history: `appointment` or `preorder` is set, never both.
pub record HistoryRow : Type 0 where
  pub business_id : ℕ
  pub appointment_id : Option ℕ
  pub preorder_id : Option ℕ
  pub from_status : String
  pub to_status : String
  pub actor : String

pub record Requests : Type 0 where
  pub subscriptions : List Subscription
  pub appointments : List Appointment
  pub preorders : List Preorder
  pub history : List HistoryRow
  pub businesses : List Business
  pub modules : List ModuleRow
  pub usage : List UsageEvent
  pub services : List Service
  pub resources : List AppointmentResource
  pub windows : List PickupWindow
  pub items : List PreorderItem
  pub access : List RequestAccess
  pub replays : List ReplayRow
  pub jobs : List ExpireJob
  pub customers : List ModuleCustomer
  pub variants : List VariantRow

-- What business_subscriptions holds for a business by default, at the time of the insertion.
abbrev pub free_subscription : ℕ → ℕ → Subscription
free_subscription now business = record {
  business_id = business;
  tier = "free";
  status = "inactive";
  modules = [];
  stripe_customer_id = none;
  stripe_subscription_id = none;
  period_start = now;
  period_end = now;
  grace_until = none;
  cancel_at_period_end = Bool.false;
  scheduled_change = none;
}

-- EnsureSubscription
unfoldable pub ensure_subscription : ℕ → ℕ → Requests → Requests
ensure_subscription now business t =
    if any (λ s. s.business_id == business) t.subscriptions
    then t
    else record t { subscriptions = t.subscriptions ++ (free_subscription now business ∷ []) }

-- LockSubscription
unfoldable pub lock_subscription : ℕ → Requests → Option Subscription
lock_subscription business t = find (λ s. s.business_id == business) t.subscriptions

abbrev pub is_appointment : ℕ → ℕ → Appointment → Bool
is_appointment business id a = a.business_id == business && a.id == id

abbrev pub is_preorder : ℕ → ℕ → Preorder → Bool
is_preorder business id p = p.business_id == business && p.id == id

-- GetAppointment
unfoldable pub get_appointment : ℕ → ℕ → List Appointment → Option Appointment
get_appointment business id rows = find (is_appointment business id) rows

-- GetPreorder
unfoldable pub get_preorder : ℕ → ℕ → List Preorder → Option Preorder
get_preorder business id rows = find (is_preorder business id) rows

-- UpdateAppointment: the row with the columns that it sets, and version + 1
abbrev pub next_version : Appointment → Appointment
next_version a = record a { version = suc a.version }

unfoldable pub update_appointment : ℕ → ℕ → Appointment → Tx Requests Appointment
update_appointment business id a t = elim (get_appointment business id t.appointments) [
  | none ↦ err Error.no_rows
  | some old ↦ ok (
    next_version a,
    record t {
      appointments = replace_first (is_appointment business id) (next_version a) t.appointments;
    },
  )
]

-- UpdatePreorder
abbrev pub next_preorder_version : Preorder → Preorder
next_preorder_version p = record p { version = suc p.version }

unfoldable pub update_preorder : ℕ → ℕ → Preorder → Tx Requests Preorder
update_preorder business id p t = elim (get_preorder business id t.preorders) [
  | none ↦ err Error.no_rows
  | some old ↦ ok (
    next_preorder_version p,
    record t {
      preorders = replace_first (is_preorder business id) (next_preorder_version p) t.preorders;
    },
  )
]

abbrev pub history_row : ℕ → ℕ → String → String → String → String → HistoryRow
history_row business id module_name from to actor =
    if str_eq module_name "appointments"
    then record {
      business_id = business;
      appointment_id = some id;
      preorder_id = none;
      from_status = from;
      to_status = to;
      actor = actor;
    }
    else record {
      business_id = business;
      appointment_id = none;
      preorder_id = some id;
      from_status = from;
      to_status = to;
      actor = actor;
    }

-- addHistory, with AddRequestHistory
unfoldable pub add_history : ℕ → ℕ → String → String → String → String → Tx Requests (Unit {0})
add_history business id module_name from to actor t = ok (
  tt,
  record t { history = t.history ++ (history_row business id module_name from to actor ∷ []) },
)
