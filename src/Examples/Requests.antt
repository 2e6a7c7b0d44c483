-- ===== src/Examples/Requests.antt =====
-- A business with one appointment that nobody confirmed in time, its subscription, and its jobs.
use openlocal_api.Prelude.{
  ℕ, ◌≤◌, ◌≡◌, ◌≢◌, ◌⊎◌, ◌↔◌, refl, true, false, ◌&&◌, Option, none, some, List, [], ◌∷◌, String,
  str_eq, ◌==◌, if◌then◌else◌,
}
use openlocal_api.Text.Runes.{Text, text}
use openlocal_api.Entitlements.Access.{
  Subscription, ModuleRow, UsageEvent, limits, module_usage, has_event, consume_module_usage,
  get_access, consume, is_enabled, owns, paid,
}
use openlocal_api.Entitlements.Quota.{IsOk, consume_keeps_quota, get_access_iff_consume}
use openlocal_api.Operations.States.{next, next_of_preorder}
use openlocal_api.Operations.Lifecycle.{Steps, stay, step, Steps_bounded}
use openlocal_api.Operations.Tables.{Appointment, Requests, get_appointment}
use openlocal_api.Operations.Expire.{expire}
use openlocal_api.Operations.Expiry.{expired_row, expire-appointments}
use openlocal_api.Operations.History.{due_record, with_entry, expire-history}
use openlocal_api.Operations.Redelivery.{expire_idempotent}
use openlocal_api.Jobs.{Payload, Message, run_job, process}
use openlocal_api.Jobs.Verdicts.{Batch, process-Batch}

abbrev pub subscription : Subscription
subscription = record {
  business_id = 1;
  tier = "essential";
  status = "active";
  modules = "appointments" ∷ [];
  stripe_customer_id = some "cus_1";
  stripe_subscription_id = some "sub_1";
  period_start = 1000;
  period_end = 9000;
  grace_until = none;
  cancel_at_period_end = false;
  scheduled_change = none;
}

abbrev confirmed_before : List UsageEvent
confirmed_before =
    record { business_id = 1; module_name = "appointments"; record_id = 30; period_start = 1000 }
    ∷ []

abbrev confirmed_after : List UsageEvent
confirmed_after =
    record { business_id = 1; module_name = "appointments"; record_id = 31; period_start = 1000 }
    ∷ confirmed_before

abbrev intake_row : Option ModuleRow
intake_row =
    some (record { business_id = 1; module_name = "appointments"; enabled = true; settings = [] })

consume_keeps_quota_example :
    (has_event 1 "appointments" 31 confirmed_after ≡ true)
    × (module_usage 1 "appointments" 1000 confirmed_after ≤ (limits "essential").0)
    × ((b : ℕ) (n : String) (p : ℕ)
        → (1 ≢ b) ⊎ (str_eq "appointments" n ≡ false) ⊎ (1000 ≢ p)
        → module_usage b n p confirmed_after ≡ module_usage b n p confirmed_before)
unfolding consume owns paid limits module_usage consume_module_usage has_event
consume_keeps_quota_example =
    consume_keeps_quota 2000 subscription "appointments" 31 confirmed_before confirmed_after refl

get_access_iff_consume_example :
    ((get_access subscription "owner" 2000 "appointments" intake_row
        confirmed_before).can_accept_new
      ≡ true)
    ↔ ((is_enabled intake_row ≡ true)
        × IsOk (consume 2000 subscription "appointments" 31 confirmed_before))
get_access_iff_consume_example =
    get_access_iff_consume 2000 subscription "owner" "appointments" 31 intake_row confirmed_before

abbrev pub waiting : Appointment
waiting = record {
  id = 31;
  business_id = 1;
  customer_id = 4;
  service_id = 5;
  resource_id = 6;
  customer_name = text "Ana";
  customer_phone = text "+525512345678";
  notes = [];
  service_name = "Corte";
  duration_minutes = 30;
  buffer_minutes = 5;
  starts_at = 8000;
  ends_at = 8500;
  timezone = text "America/Mexico_City";
  status = "requested";
  version = 1;
  expires_at = 3000;
  confirmed_at = none;
}

abbrev pub tables : Requests
tables = record {
  subscriptions = subscription ∷ [];
  appointments = waiting ∷ [];
  preorders = [];
  history = [];
  businesses = [];
  modules = [];
  usage = [];
  services = [];
  resources = [];
  windows = [];
  items = [];
  access = [];
  replays = [];
  jobs = [];
  customers = [];
  variants = [];
}

expire-appointments_example :
    get_appointment 1 31 (expire 4000 1 31 "appointments" tables).1.appointments ≡ (
      if str_eq "appointments" "appointments" && (1 == 1 && 31 == 31)
      then expired_row 4000 (get_appointment 1 31 tables.appointments)
      else get_appointment 1 31 tables.appointments)
expire-appointments_example = expire-appointments 4000 1 31 1 31 "appointments" tables

expire-history_example :
    (expire 4000 1 31 "appointments" tables).1.history
    ≡ with_entry (due_record 4000 1 31 "appointments" tables) 1 31 "appointments" tables.history
expire-history_example = expire-history 4000 1 31 "appointments" tables

expire_idempotent_example :
    expire 4000 1 31 "appointments" (expire 4000 1 31 "appointments" tables).1
    ≡ expire 4000 1 31 "appointments" tables
expire_idempotent_example = expire_idempotent 4000 1 31 "appointments" tables

abbrev to_ready : Steps "preorders" "requested" "ready" 2
unfolding next next_of_preorder
to_ready = step "confirmed" 1 refl (step "ready" 0 refl stay)

abbrev transitions : ℕ
transitions = 2

Steps_bounded_example :
    (transitions ≤ 4)
    × (transitions ≢ 0 → (str_eq "ready" "requested" ≡ false) × (str_eq "ready" "expired" ≡ false))
Steps_bounded_example = Steps_bounded "preorders" "requested" "ready" 2 to_ready

abbrev read_payload : Text → Option Payload
read_payload [] = none
read_payload (c ∷ cs) = some (record {
  kind = "expire_request";
  business_id = 1;
  record_id = 31;
  module_name = "appointments";
  customer_id = "";
})

abbrev messages : List Message
messages =
    record { id = 900; read_count = 1; payload = text "{}" }
    ∷ record { id = 901; read_count = 3; payload = [] }
    ∷ record { id = 902; read_count = 8; payload = [] }
    ∷ []

process-Batch_example :
    Batch
      (run_job 4000 read_payload none)
      messages
      tables
      (process 4000 read_payload none messages tables).0
      (process 4000 read_payload none messages tables).1
process-Batch_example = process-Batch 4000 read_payload none messages tables
