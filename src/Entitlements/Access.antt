-- ===== src/Entitlements/Access.antt =====
-- internal/entitlements/service.go, with the rows that it reads from business_subscriptions,
-- business_modules and module_usage_events. Times are nanoseconds; `now` is time.Now().
use openlocal_api.Prelude.{
  ℕ, suc, Bool, true, false, not, ◌&&◌, ◌||◌, Option, none, some, List, [], ◌∷◌, String, str_eq,
  ◌==◌, leb, ltb, find, contains, if◌then◌else◌,
}
use openlocal_api.Api.{fail, Result, ok, err}
use openlocal_api.Text.Runes.{Text}

-- db.BusinessSubscription
pub record Subscription : Type 0 where
  pub business_id : ℕ
  pub tier : String
  pub status : String
  pub modules : List String
  pub stripe_customer_id : Option String
  pub stripe_subscription_id : Option String
  pub period_start : ℕ
  pub period_end : ℕ
  pub grace_until : Option ℕ
  pub cancel_at_period_end : Bool
  pub scheduled_change : Option Text

-- db.BusinessModule
pub record ModuleRow : Type 0 where
  pub business_id : ℕ
  pub module_name : String
  pub enabled : Bool
  pub settings : Text

-- A row of module_usage_events.
pub record UsageEvent : Type 0 where
  pub business_id : ℕ
  pub module_name : String
  pub record_id : ℕ
  pub period_start : ℕ

pub record Access : Type 0 where
  pub owned : Bool
  pub enabled : Bool
  pub can_accept_new : Bool
  pub can_manage_existing : Bool
  pub can_configure : Bool
  pub can_operate : Bool
  pub can_export : Bool
  pub reason : String
  pub usage : ℕ
  pub limit : ℕ
  pub max_resources : ℕ
  pub advanced : Bool

-- entitlements.Result
pub record Entitlement : Type 0 where
  pub tier : String
  pub role : String
  pub period_start : ℕ
  pub period_end : ℕ
  pub modules : List (String × Access)

-- A nullable timestamp that is set and later than now.
abbrev pub after_now : ℕ → Option ℕ → Bool
after_now now none = false
after_now now (some t) = ltb now t

-- Paid
unfoldable pub paid : Subscription → ℕ → Bool
paid s now =
    not (str_eq s.tier "free")
    && (((str_eq s.status "active" || str_eq s.status "pilot") && ltb now s.period_end)
        || (str_eq s.status "past_due" && after_now now s.grace_until))

-- Limits: the confirmations of a period, and the bookable resources
unfoldable pub limits : String → ℕ × ℕ
limits tier =
    if str_eq tier "business"
    then (1000, 5)
    else if str_eq tier "essential"
    then (50, 1)
    else (0, 0)

abbrev pub counted : ℕ → String → ℕ → UsageEvent → Bool
counted business module_name period e =
    e.business_id == business && (str_eq e.module_name module_name && e.period_start == period)

-- ModuleUsage
unfoldable pub module_usage : ℕ → String → ℕ → List UsageEvent → ℕ
module_usage business module_name period [] = 0
module_usage business module_name period (e ∷ es) =
    let rest = module_usage business module_name period es in
    if counted business module_name period e then suc rest else rest

-- Whether the primary key (business_id, module, record_id) is in use.
unfoldable pub has_event : ℕ → String → ℕ → List UsageEvent → Bool
has_event business module_name id [] = false
has_event business module_name id (e ∷ es) =
    (e.business_id == business && (str_eq e.module_name module_name && e.record_id == id))
    || has_event business module_name id es

-- ConsumeModuleUsage: ON CONFLICT DO NOTHING
unfoldable pub consume_module_usage : ℕ → String → ℕ → ℕ → List UsageEvent → List UsageEvent
consume_module_usage business module_name id period es =
    if has_event business module_name id es
    then es
    else record {
      business_id = business;
      module_name = module_name;
      record_id = id;
      period_start = period;
    }
      ∷ es

-- Whether the module can be used at all: Get's `owned`, and the first test of Consume.
unfoldable pub owns : Subscription → ℕ → String → Bool
owns s now module_name = paid s now && contains s.modules module_name

-- GetModule's row, or the zero value where there is none.
abbrev pub is_enabled : Option ModuleRow → Bool
is_enabled none = false
is_enabled (some m) = m.enabled

abbrev pub is_operator : Subscription → String → Bool
is_operator s role =
    str_eq role "owner"
    || (str_eq s.tier "business" && (str_eq role "manager" || str_eq role "staff"))

-- The switch of Get: why nothing new is accepted, and whether it is.
unfoldable pub intake : Bool → Bool → Bool → String × Bool
intake owned enabled full =
    if not owned
    then ("module_unavailable", false)
    else if not enabled
    then ("intake_paused", false)
    else if full
    then ("quota_exceeded", false)
    else ("", true)

-- The body of the loop of Get.
unfoldable pub get_access :
    Subscription → String → ℕ → String → Option ModuleRow → List UsageEvent → Access
get_access s role now module_name row events =
    let owned = owns s now module_name in
    let used = module_usage s.business_id module_name s.period_start events in
    let decided = intake owned (is_enabled row) (leb (limits s.tier).0 used) in
    record {
      owned = owned;
      enabled = is_enabled row;
      can_accept_new = decided.1;
      can_manage_existing = is_operator s role;
      can_configure =
          owned && (str_eq role "owner" || (str_eq s.tier "business" && str_eq role "manager"));
      can_operate = is_operator s role;
      can_export =
          owned && (str_eq s.tier "business" && (str_eq role "owner" || str_eq role "manager"));
      reason = decided.0;
      usage = used;
      limit = (limits s.tier).0;
      max_resources = (limits s.tier).1;
      advanced = str_eq s.tier "business";
    }

-- GetModule
unfoldable pub get_module : ℕ → String → List ModuleRow → Option ModuleRow
get_module business module_name rows =
    find (λ m. m.business_id == business && str_eq m.module_name module_name) rows

-- Get
unfoldable pub get : Subscription → String → ℕ → List ModuleRow → List UsageEvent → Entitlement
get s role now rows events =
    let access_to : String → String × Access =
      λ name. (name, get_access s role now name (get_module s.business_id name rows) events) in
    record {
      tier = s.tier;
      role = role;
      period_start = s.period_start;
      period_end = s.period_end;
      modules = access_to "appointments" ∷ access_to "preorders" ∷ [];
    }

-- Consume
unfoldable pub consume : ℕ → Subscription → String → ℕ → List UsageEvent → Result (List UsageEvent)
consume now s module_name id events =
    if not (owns s now module_name)
    then err (fail 403 "module_unavailable" "module is not subscribed")
    else if leb (limits s.tier).0 (module_usage s.business_id module_name s.period_start events)
    then err (fail 409 "quota_exceeded" "confirmation limit reached")
    else ok (consume_module_usage s.business_id module_name id s.period_start events)
