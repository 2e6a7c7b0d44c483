-- ===== src/Operations/Changes.antt =====
-- What mutate of internal/operations/mutate.go is given and what it tests before it writes, with record
-- of records.go, replay and saveReplay of core.go, and positiveQuantity and money of configuration.go.
use Prim.Native.String.{◌++◌ as append}
use openlocal_api.Prelude.{
  ℕ, ◌+◌, ◌*◌, ◌/◌, Bool, true, false, not, ◌&&◌, ◌||◌, Option, none, some, List, [], ◌∷◌, ◌++◌,
  String, str_eq, ◌==◌, ltb, any, find, replace_first, contains, length, if◌then◌else◌,
}
use openlocal_api.Api.{Error, fail, Result, ok, err, ◌>>=◌}
use openlocal_api.Text.Runes.{Text, text_eq, byte_length}
use openlocal_api.Text.Fields.{trim_space}
use openlocal_api.Validator.{idempotency_key}
use openlocal_api.Scheduling.Calendar.{minute}
use openlocal_api.Operations.States.{next, no_next, shown_status}
use openlocal_api.Operations.Rows.{Business, View, ReplayRow}
use openlocal_api.Operations.Tables.{Appointment, Preorder, Requests, get_appointment, get_preorder}
use openlocal_api.Operations.Expire.{bad}
use openlocal_api.Operations.Intake.{Settings}
use openlocal_api.Operations.Booking.{Amount, conflict}

-- Who changes a request: a member of the business, the holder of its link, or the account that made it.
pub data Audience : Type 0 where
  member : Audience
  public : Audience
  personal : (user : ℕ) → Audience

abbrev pub customer_facing : Audience → Bool
customer_facing member = false
customer_facing public = true
customer_facing (personal user) = true

-- What mutate makes of the caller's access, and the headers and body of the call.
pub record Target : Type 0 where
  pub business : ℕ
  pub id : ℕ
  pub module_name : String
  pub actor : String
  pub audience : Audience
  -- the Idempotency-Key header, and the digest of the body
  pub key : Text
  pub digest : ℕ

pub record EditItem : Type 0 where
  pub id : ℕ
  pub final_quantity : Text

-- EditInput
pub record Edit : Type 0 where
  pub version : ℕ
  pub starts_at : Option ℕ
  pub resource_id : Option ℕ
  pub pickup_window_id : Option ℕ
  pub notes : Option Text
  pub items : List EditItem
  pub final_total : Option Text

-- The body: a TransitionInput, `cancelled` where a customer sends one, or an EditInput by PATCH.
pub data Change : Type 0 where
  transition : (status : String) → (version : ℕ) → Change
  editing : Edit → Change

abbrev pub version_of : Change → ℕ
version_of (transition status version) = version
version_of (editing e) = e.version

abbrev pub is_editing : Change → Bool
is_editing (transition status version) = false
is_editing (editing e) = true

-- A customer's body holds the version alone.
unfoldable pub as_sent : Audience → Change → Change
as_sent member c = c
as_sent a (transition status version) = transition "cancelled" version
as_sent a (editing e) = editing e

-- ModuleBusiness
unfoldable pub find_business : ℕ → List Business → Option Business
find_business id rows = find (λ b. b.id == id) rows

abbrev pub view_of_appointment : ℕ → Appointment → View
view_of_appointment now a = record {
  id = a.id;
  module_name = "appointments";
  status = shown_status now a.status a.expires_at;
  version = a.version;
  customer_id = a.customer_id;
  notes = a.notes;
  starts_at = a.starts_at;
  ends_at = a.ends_at;
  expires_at = a.expires_at;
  timezone = a.timezone;
}

abbrev pub view_of_preorder : ℕ → Preorder → View
view_of_preorder now p = record {
  id = p.id;
  module_name = "preorders";
  status = shown_status now p.status p.expires_at;
  version = p.version;
  customer_id = p.customer_id;
  notes = p.notes;
  starts_at = p.starts_at;
  ends_at = p.ends_at;
  expires_at = p.expires_at;
  timezone = p.timezone;
}

-- The row of the module, as it is shown.
unfoldable pub view_of : ℕ → ℕ → ℕ → String → Requests → Option View
view_of now business id module_name t =
    if str_eq module_name "appointments"
    then elim (get_appointment business id t.appointments) [
      | none ↦ none
      | some a ↦ some (view_of_appointment now a)
    ]
    else elim (get_preorder business id t.preorders) [
      | none ↦ none
      | some p ↦ some (view_of_preorder now p)
    ]

-- record, without what it reads of other tables
unfoldable pub record_of : ℕ → ℕ → ℕ → String → Requests → Result View
record_of now business id module_name t = elim (view_of now business id module_name t) [
  | none ↦ err Error.no_rows
  | some v ↦ elim (find_business business t.businesses) [ none ↦ err Error.no_rows | some b ↦ ok v ]
]

-- The scope of an idempotency key: the audience, the request and the method.
unfoldable pub scope_of : (ℕ → String) → Target → Bool → String
scope_of show_uuid target edited =
    let method : String = if edited then "PATCH" else "POST" in
    let base =
      append "mutate:" (
        append target.module_name
          (append ":" (append (show_uuid target.id) (append ":" method)))) in
    elim target.audience [
      | member ↦ base
      | public ↦ append "public:" base
      | personal user ↦ append "personal:" (append (show_uuid user) (append ":" base))
    ]

abbrev pub has_key : ℕ → String → Text → ReplayRow → Bool
has_key business scope key r =
    r.business_id == business && (str_eq r.scope scope && text_eq r.key key)

-- GetRequestReplay
unfoldable pub get_request_replay : ℕ → ℕ → String → Text → List ReplayRow → Option ReplayRow
get_request_replay now business scope key rows =
    find (λ r. has_key business scope key r && ltb now r.expires_at) rows

-- replay: the answer that was saved under the key
unfoldable pub replay : ℕ → Target → String → List ReplayRow → Result (Option View)
replay now target scope rows = idempotency_key target.key >>= λ key.
    elim (get_request_replay now target.business scope key rows) [
      | none ↦ ok none
      | some r ↦
          if not (r.digest == target.digest)
          then err (fail 409 "version_conflict" "idempotency key was used with different input")
          else ok (some r.response)
    ]

abbrev pub day : ℕ
day = 1440 * minute

-- SaveRequestReplay: ON CONFLICT (business_id, scope, key) DO UPDATE
unfoldable pub save_request_replay : ReplayRow → List ReplayRow → List ReplayRow
save_request_replay r rows =
    if any (has_key r.business_id r.scope r.key) rows
    then replace_first (has_key r.business_id r.scope r.key) r rows
    else rows ++ (r ∷ [])

-- saveReplay
unfoldable pub save_replay : (code : ℕ) → ℕ → Target → String → View → Requests → Requests
save_replay code now target scope answer t = record t {
  replays =
      save_request_replay
        (record {
          business_id = target.business;
          scope = scope;
          key = target.key;
          digest = target.digest;
          response = answer;
          status_code = code;
          expires_at = now + day;
        })
        t.replays;
}

-- positiveQuantity, in thousandths
unfoldable pub positive_quantity : (Text → Option Amount) → Text → Result ℕ
positive_quantity amount_of raw =
    if ltb 32 (byte_length raw) then err (bad "invalid quantity") else elim (amount_of raw) [
      | none ↦ err (bad "quantity must be positive with at most three decimals")
      | some d ↦
          if d.is_negative
            || (d.thousandths == 0 || (ltb 3 d.scale || ltb (999999999 * 1000) d.thousandths))
          then err (bad "quantity must be positive with at most three decimals")
          else ok d.thousandths
    ]

-- money, in hundredths
unfoldable pub money : (Text → Option Amount) → Text → Result ℕ
money amount_of raw =
    if ltb 32 (byte_length raw) then err (bad "invalid amount") else elim (amount_of raw) [
      | none ↦ err (bad "amount must have at most two decimals")
      | some d ↦
          if d.is_negative || (ltb 2 d.scale || ltb (9999999999 * 1000) d.thousandths)
          then err (bad "amount must have at most two decimals")
          else ok (d.thousandths / 10)
    ]

-- The tests on the version and the status, in their order.
unfoldable pub check_version : Change → View → String → Result (Unit {0})
check_version change r module_name =
    if not (version_of change == r.version)
    then err (conflict "version_conflict")
    else if str_eq r.status "expired"
    then err (conflict "request_expired")
    else if no_next (next module_name r.status)
    then err (conflict "invalid_transition")
    else ok tt

-- A customer may only act where the request can be cancelled, before the cutoff of the settings.
unfoldable pub too_late : ℕ → Settings → View → String → Bool
too_late now cfg r module_name =
    not (contains (next module_name r.status) "cancelled")
    || not (ltb (now + cfg.cancel_before_minutes * minute) r.starts_at)

unfoldable pub check_transition : ℕ → Settings → Target → Change → View → Result (Unit {0})
check_transition now cfg target change r =
    if customer_facing target.audience && too_late now cfg r target.module_name
    then err (conflict "invalid_transition")
    else elim change [
      | transition status version ↦
          if contains (next target.module_name r.status) status
          then ok tt
          else err (conflict "invalid_transition")
      | editing e ↦ ok tt
    ]

-- The notes after the change
unfoldable pub notes_of : Change → Text → Result Text
notes_of (transition status version) old = ok old
notes_of (editing e) old = elim e.notes [
  | none ↦ ok old
  | some n ↦ if ltb 2000 (length n) then err (bad "notes too long") else ok (trim_space n)
]

abbrev pub status_of : Change → String → String
status_of (transition status version) old = status
status_of (editing e) old = old
