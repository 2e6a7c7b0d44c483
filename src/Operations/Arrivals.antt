-- ===== src/Operations/Arrivals.antt =====
-- What create of internal/operations/create.go is given and what it tests before it writes: the business,
-- the intake of the module, and pendingLimit.
use Prim.Native.String.{◌++◌ as append}
use openlocal_api.Prelude.{
  ℕ, suc, Bool, not, ◌&&◌, ◌||◌, Option, none, some, List, [], ◌∷◌, String, str_eq, ◌==◌, leb, ltb,
  any, find, if◌then◌else◌,
}
use openlocal_api.Api.{Error, fail, Result, ok, err, ◌>>=◌}
use openlocal_api.Text.Runes.{Text, text_eq}
use openlocal_api.Entitlements.Access.{Subscription}
use openlocal_api.Operations.Rows.{Business, Service}
use openlocal_api.Operations.Tables.{Appointment, Preorder, Requests}
use openlocal_api.Operations.Intake.{Settings, require_intake, public_unavailable}
use openlocal_api.Operations.Customer.{CustomerInput}
use openlocal_api.Operations.Booking.{Env, conflict}
use openlocal_api.Operations.Changes.{Audience, member, public, personal, find_business}
use openlocal_api.Operations.Basket.{ItemInput}

-- AppointmentInput and PreorderInput, without the customer
pub data Order : Type 0 where
  visit : (service resource start : ℕ) → Order
  basket : (window : ℕ) → (items : List ItemInput) → Order

abbrev pub module_of : Order → String
module_of (visit service resource start) = "appointments"
module_of (basket window items) = "preorders"

-- A call of create. The business is named by its id, or by its slug where the public calls.
pub record Booking : Type 0 where
  pub business : ℕ
  pub slug : Text
  pub audience : Audience
  pub actor : String
  pub customer : CustomerInput
  pub order : Order
  pub key : Text
  pub digest : ℕ
  -- what the challenge says of the customer's token
  pub challenge : Result (Unit {0})
  -- the identifiers of the request, of a new customer and of the items, and the hash of the link's token
  pub id : ℕ
  pub customer_id : ℕ
  pub item_id : ℕ → ℕ
  pub token_hash : ℕ

-- ModulePublicBusiness
unfoldable pub find_public : Text → List Business → Option Business
find_public slug rows = find (λ b. text_eq b.slug slug && str_eq b.status "active") rows

abbrev pub row_or_error : Option Business → Result Business
row_or_error none = err Error.no_rows
row_or_error (some b) = ok b

-- The business that create reads before the transaction.
unfoldable pub business_for : Booking → Requests → Result Business
business_for call t = elim call.audience [
  | member ↦ row_or_error (find_business call.business t.businesses)
  | personal user ↦ row_or_error (find_business call.business t.businesses) >>= λ b.
      if not (str_eq b.status "active")
      then err (fail 404 "not_found" "business not found")
      else ok b
  | public ↦ row_or_error (find_public call.slug t.businesses) >>= λ b.
      if any (λ s. s.business_id == b.id) t.subscriptions
      then ok b
      else err (fail 403 "module_unavailable" "requests unavailable")
]

-- The row counts for the phone, or for all phones where that is empty.
abbrev pub for_phone : Text → Text → Bool
for_phone phone written = text_eq phone [] || text_eq written phone

-- A request that waits for its confirmation.
unfoldable pub is_pending : ℕ → String → ℕ → Bool
is_pending now status expires_at = str_eq status "requested" && ltb now expires_at

-- PendingAppointmentsForPhone
unfoldable pub pending_appointments : (now business : ℕ) → Text → List Appointment → ℕ
pending_appointments now business phone [] = 0
pending_appointments now business phone (a ∷ rest) =
    let others = pending_appointments now business phone rest in
    if a.business_id == business
      && (is_pending now a.status a.expires_at && for_phone phone a.customer_phone)
    then suc others
    else others

-- PendingPreordersForPhone
unfoldable pub pending_preorders : (now business : ℕ) → Text → List Preorder → ℕ
pending_preorders now business phone [] = 0
pending_preorders now business phone (p ∷ rest) =
    let others = pending_preorders now business phone rest in
    if p.business_id == business
      && (is_pending now p.status p.expires_at && for_phone phone p.customer_phone)
    then suc others
    else others

unfoldable pub pending_requests : ℕ → ℕ → String → Text → Requests → ℕ
pending_requests now business module_name phone t =
    if str_eq module_name "appointments"
    then pending_appointments now business phone t.appointments
    else pending_preorders now business phone t.preorders

-- pendingLimit
unfoldable pub pending_limit : ℕ → ℕ → String → Text → Requests → Result (Unit {0})
pending_limit now business module_name phone t =
    if leb 3 (pending_requests now business module_name phone t)
      || leb 500 (pending_requests now business module_name [] t)
    then err (conflict "rate_limited")
    else ok tt

abbrev pub is_unavailable : Bool → Service → Bool
is_unavailable customer_asks svc = not svc.active || (customer_asks && not svc.is_public)

abbrev pub service_or_error : Option Service → Result Service
service_or_error none = err Error.no_rows
service_or_error (some s) = ok s

-- requireIntake; a customer is not told why nothing is taken in
unfoldable pub intake_for : Env → Bool → Subscription → String → Requests → Result Settings
intake_for env customer_asks sub module_name t =
    elim (require_intake env.unmarshal env.now sub module_name t.modules t.usage) [
      | ok cfg ↦ ok cfg
      | err e ↦ err (if customer_asks then public_unavailable e else e)
    ]

-- The scope of the idempotency key of a creation.
unfoldable pub create_scope : (ℕ → String) → Audience → String → String
create_scope show_uuid audience module_name =
    let base : String = append "create:" module_name in
    elim audience [
      | member ↦ base
      | public ↦ append "public:" base
      | personal user ↦ append "personal:" (append (show_uuid user) (append ":" base))
    ]
