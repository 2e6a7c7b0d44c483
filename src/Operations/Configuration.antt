-- ===== src/Operations/Configuration.antt =====
-- configuration and resources of internal/operations/configuration.go, where they write: the settings of a
-- module and the resources that take appointments. The caller's access is an argument, and so is merge:
-- what the body makes of the value that is stored.
use openlocal_api.Prelude.{
  ℕ, suc, Bool, true, false, not, ◌&&◌, ◌||◌, Option, none, some, List, [], ◌∷◌, ◌++◌, String,
  str_eq, ◌==◌, leb, ltb, any, find, replace_first, if◌then◌else◌,
}
use openlocal_api.Api.{Error, fail, Result, ok, err}
use openlocal_api.Text.Runes.{Text, byte_length}
use openlocal_api.Text.Fields.{trim_space}
use openlocal_api.Tx.{Tx, pure, lift, gets, one, guard, ◌>>=◌, ◌>>◌, atomically}
use openlocal_api.Entitlements.Access.{ModuleRow, limits, get_module}
use openlocal_api.Operations.States.{valid_module}
use openlocal_api.Operations.Rows.{Service, AppointmentResource, VariantRow}
use openlocal_api.Operations.Tables.{Requests, ensure_subscription, lock_subscription}
use openlocal_api.Operations.Expire.{bad}
use openlocal_api.Operations.Intake.{VariantRule, Settings, settings_of, require_paid}
use openlocal_api.Operations.Booking.{Env, no_ids}
use openlocal_api.Operations.Mutate.{reads, writes}
use openlocal_api.Operations.Checks.{get_service}
use openlocal_api.Operations.Rules.{Draft, no_rules, valid_schedule, validate_settings}

-- A PUT of the settings of a module.
pub record Configure : Type 0 where
  pub business : ℕ
  pub role : String
  pub module_name : String
  pub merge : Settings → Result Draft
  -- jsonBytes
  pub marshal : Settings → Text

-- GetVariantForBusiness
unfoldable pub owns_variant : ℕ → List VariantRow → ℕ → Bool
owns_variant business rows id = any (λ v. v.id == id && v.business_id == business) rows

unfoldable pub owns_variants : ℕ → List VariantRow → List VariantRule → Bool
owns_variants business rows [] = true
owns_variants business rows (r ∷ rs) =
    let rest = owns_variants business rows rs in owns_variant business rows r.variant_id && rest

-- What has to be there before appointments are taken in.
unfoldable pub can_take_appointments : ℕ → Requests → Bool
can_take_appointments business t =
    any (λ (s : Service). s.business_id == business && (s.active && s.is_public)) t.services
    && any (λ (r : AppointmentResource). r.business_id == business && r.active) t.resources

abbrev pub is_module : ℕ → String → ModuleRow → Bool
is_module business module_name row =
    row.business_id == business && str_eq row.module_name module_name

-- UpsertModule
unfoldable pub upsert_module : ModuleRow → Requests → Requests
upsert_module row t = record t {
  modules =
      if any (is_module row.business_id row.module_name) t.modules
      then replace_first (is_module row.business_id row.module_name) row t.modules
      else t.modules ++ (row ∷ []);
}

unfoldable pub configure_body : Env → Configure → Tx Requests Settings
configure_body env call = do
  found ← gets (lock_subscription call.business)
  sub ← one found
  lift (require_paid env.now sub call.module_name)
  guard (str_eq call.role "staff")
      (fail 403 "module_unavailable" "configuration requires a manager")
  stored ←
      reads (λ t. settings_of env.unmarshal (get_module call.business call.module_name t.modules))
  draft ← lift (call.merge stored)
  lift (validate_settings env.amount_of draft sub.tier call.module_name)
  let s = draft.settings
  variants ← gets (λ t. t.variants)
  guard (not (owns_variants call.business variants s.variant_rules))
      (bad "variant does not belong to business")
  ready ← gets (can_take_appointments call.business)
  guard (s.enabled && (str_eq call.module_name "appointments" && not ready))
      (bad "configure a public service and active resource first")
  guard (s.enabled && (str_eq call.module_name "preorders" && no_rules s.variant_rules))
      (bad "enable at least one preorder variant")
  writes (
      upsert_module (record {
        business_id = call.business;
        module_name = call.module_name;
        enabled = s.enabled;
        settings = call.marshal s;
      }))
  pure s

-- configuration, by a PUT
unfoldable pub configure : Env → Configure → Requests → Result Settings × Requests
configure env call t =
    if valid_module call.module_name
    then atomically (configure_body env call) (ensure_subscription env.now call.business t)
    else (err (bad "invalid module"), t)

-- A POST or a PATCH of a resource, with the id that uuid.New gives.
pub record SaveResource : Type 0 where
  pub business : ℕ
  pub patched : Option ℕ
  pub fresh : ℕ
  pub merge : AppointmentResource → Result AppointmentResource

abbrev pub is_resource : ℕ → ℕ → AppointmentResource → Bool
is_resource business id r = r.business_id == business && r.id == id

-- The value that the body is merged into.
unfoldable pub resource_base : SaveResource → Requests → Result AppointmentResource
resource_base call t = elim call.patched [
  | none ↦ ok (record {
    id = call.fresh;
    business_id = call.business;
    name = [];
    active = true;
    service_ids = [];
    hours = [];
    closed_dates = [];
  })
  | some id ↦ elim (find (is_resource call.business id) t.resources) [
    | none ↦ err Error.no_rows
    | some r ↦ ok r
  ]
]

abbrev pub resource_id_of : SaveResource → ℕ
resource_id_of call = elim call.patched [ none ↦ call.fresh | some id ↦ id ]

abbrev pub empty_list : {A : Type 0} → List A → Bool
empty_list [] = true
empty_list (x ∷ xs) = false

abbrev pub count_ids : List ℕ → ℕ
count_ids [] = 0
count_ids (x ∷ xs) = suc (count_ids xs)

unfoldable pub invalid_resource : AppointmentResource → Bool
invalid_resource r =
    ltb (byte_length (trim_space r.name)) 2
    || (ltb 120 (byte_length r.name) || ltb 100 (count_ids r.service_ids))

abbrev pub has_schedule : AppointmentResource → Bool
has_schedule r =
    not (empty_list r.hours) || (not (empty_list r.closed_dates) || not (no_ids r.service_ids))

-- The loop over the services of a resource.
unfoldable pub knows_services : ℕ → List Service → List ℕ → Bool
knows_services business rows [] = true
knows_services business rows (id ∷ ids) =
    let rest = knows_services business rows ids in
    elim (get_service business id rows) [ none ↦ false | some s ↦ rest ]

-- The active resources of the business beside one.
unfoldable pub count_active : ℕ → ℕ → List AppointmentResource → ℕ
count_active business beside [] = 0
count_active business beside (r ∷ rs) =
    let rest = count_active business beside rs in
    if r.business_id == business && (r.active && not (r.id == beside)) then suc rest else rest

-- SaveAppointmentResource: the id is the primary key; a row of another business is not written
unfoldable pub save_appointment_resource : AppointmentResource → Tx Requests (Unit {0})
save_appointment_resource r t =
    if any (λ (x : AppointmentResource). x.id == r.id) t.resources
    then (if any (is_resource r.business_id r.id) t.resources
        then ok (
          tt,
          record t { resources = replace_first (is_resource r.business_id r.id) r t.resources },
        )
        else err Error.no_rows)
    else ok (tt, record t { resources = t.resources ++ (r ∷ []) })

-- The row that is written.
abbrev pub saved_resource : SaveResource → AppointmentResource → AppointmentResource
saved_resource call r = record r {
  id = resource_id_of call;
  business_id = call.business;
  name = trim_space r.name;
}

unfoldable pub save_resource_body : Env → SaveResource → Tx Requests AppointmentResource
save_resource_body env call = do
  found ← gets (lock_subscription call.business)
  sub ← one found
  lift (require_paid env.now sub "appointments")
  base ← reads (resource_base call)
  r ← lift (call.merge base)
  guard (invalid_resource r) (bad "invalid resource")
  lift (valid_schedule r.hours r.closed_dates)
  guard (not (str_eq sub.tier "business") && has_schedule r)
      (fail 403 "module_unavailable" "resource schedules and assignment require Business")
  services ← gets (λ t. t.services)
  guard (not (knows_services call.business services r.service_ids))
      (bad "service does not belong to business")
  others ← gets (λ t. count_active call.business (resource_id_of call) t.resources)
  guard (r.active && leb (limits sub.tier).1 others)
      (fail 409 "quota_exceeded" "resource limit reached")
  save_appointment_resource (saved_resource call r)
  pure (saved_resource call r)

-- resources, by a POST or a PATCH
unfoldable pub save_resource : Env → SaveResource → Requests → Result AppointmentResource × Requests
save_resource env call t =
    atomically (save_resource_body env call) (ensure_subscription env.now call.business t)
