-- ===== src/Operations/Booking.antt =====
-- The slots that can still be booked: appointmentSlots and pickupSlots of
-- internal/operations/configuration.go, checkAppointment and checkPickup of create.go, with the
-- statements AppointmentOverlaps and PickupWindowUsage. An identifier 0 is uuid.Nil.
use openlocal_api.Prelude.{
  ℕ, suc, ◌+◌, ◌*◌, Bool, true, false, not, ◌&&◌, ◌||◌, Option, none, some, List, [], ◌∷◌, ◌++◌,
  String, str_eq, ◌==◌, leb, ltb, any, find, contains_id, if◌then◌else◌,
}
use openlocal_api.Api.{Error, fail, fiber, plain, Result, ok, err, ◌>>=◌}
use openlocal_api.Text.Runes.{Text, text_eq}
use openlocal_api.Scheduling.Calendar.{Zone, local_minute, minute, format_date}
use openlocal_api.Scheduling.Clock.{Hour, clock}
use openlocal_api.Scheduling.Slots.{Slot, slots}
use openlocal_api.Operations.Rows.{Service, AppointmentResource, PickupWindow}
use openlocal_api.Operations.Tables.{Appointment, Preorder, Requests}
use openlocal_api.Operations.Expire.{bad}
use openlocal_api.Operations.Intake.{Settings}

-- conflict; its message is the code with spaces
abbrev pub conflict : String → Error
conflict code = fail 409 code code

-- err.Error()
abbrev pub error_text : Error → String
error_text (fiber status message) = message
error_text (fail status code message) = message
error_text (plain message) = message
error_text e = "database error"

-- The statuses at which an appointment occupies its resource.
unfoldable pub is_booked : String → Bool
is_booked status =
    str_eq status "confirmed" || (str_eq status "completed" || str_eq status "no_show")

-- The row occupies the resource at some instant from `start` to `finish`.
unfoldable pub overlaps_row : ℕ → ℕ → ℕ → (start finish : ℕ) → Appointment → Bool
overlaps_row business resource exclude start finish a =
    a.business_id == business
    && (a.resource_id == resource
        && (not (a.id == exclude)
            && (is_booked a.status
                && (ltb a.starts_at finish && ltb start (a.ends_at + a.buffer_minutes * minute)))))

-- AppointmentOverlaps
unfoldable pub appointment_overlaps : ℕ → ℕ → ℕ → (start finish : ℕ) → List Appointment → Bool
appointment_overlaps business resource exclude start finish rows =
    any (overlaps_row business resource exclude start finish) rows

-- availableSlot
pub record AvailableSlot : Type 0 where
  pub resource_id : ℕ
  pub slot : Slot

-- What the code reads of a decimal of github.com/shopspring/decimal
pub record Amount : Type 0 where
  pub is_negative : Bool
  -- the digits after the point, and the absolute value in thousandths
  pub scale : ℕ
  pub thousandths : ℕ

-- What internal/operations takes from outside: the time, the time zones (time.LoadLocation),
-- json.Unmarshal into the settings, decimal.NewFromString, the text of a uuid and Time.AddDate(0, 0, 30).
pub record Env : Type 0 where
  pub now : ℕ
  pub zone_of : Text → Option Zone
  pub unmarshal : Settings → Text → Option Settings
  pub amount_of : Text → Option Amount
  pub show_uuid : ℕ → String
  pub add_thirty_days : ℕ → ℕ

unfoldable pub no_ids : List ℕ → Bool
no_ids [] = true
no_ids (x ∷ xs) = false

-- The resource is inactive, not the one asked for, or does not give the service.
unfoldable pub is_skipped : ℕ → ℕ → AppointmentResource → Bool
is_skipped resource service r =
    not r.active
    || ((not (resource == 0) && not (r.id == resource))
        || (not (no_ids r.service_ids) && not (contains_id r.service_ids service)))

unfoldable pub hours_of : Settings → AppointmentResource → List Hour
hours_of cfg r = elim r.hours [ [] ↦ cfg.hours | h ∷ hs ↦ h ∷ hs ]

-- The slots at which the resource is free.
unfoldable pub keep_free :
    ℕ → ℕ → ℕ → (buffer : ℕ) → List Appointment → List Slot → List AvailableSlot
keep_free business resource exclude buffer rows [] = []
keep_free business resource exclude buffer rows (s ∷ ss) =
    let rest = keep_free business resource exclude buffer rows ss in
    if appointment_overlaps business resource exclude s.starts_at (s.ends_at + buffer * minute) rows
    then rest
    else record { resource_id = resource; slot = s } ∷ rest

unfoldable pub slots_of_resource :
    Env → Settings → Service → (zone date : Text) → AppointmentResource → Result (List Slot)
slots_of_resource env cfg service zone date r =
    elim (slots env.zone_of date zone (hours_of cfg r) (cfg.closed_dates ++ r.closed_dates)
      cfg.slot_minutes service.duration_minutes service.buffer_minutes env.now cfg.lead_minutes
      cfg.horizon_days) [ ok found ↦ ok found | err e ↦ err (bad (error_text e)) ]

-- The loop of appointmentSlots over the resources of the business.
unfoldable pub resource_slots :
    Env
    → ℕ
    → Settings
    → Service
    → (zone date : Text) → (resource exclude : ℕ) → List Appointment
    → List AppointmentResource
    → Result (List AvailableSlot)
resource_slots env business cfg service zone date resource exclude rows [] = ok []
resource_slots env business cfg service zone date resource exclude rows (r ∷ rs) =
    let rest = resource_slots env business cfg service zone date resource exclude rows rs in
    if not (r.business_id == business) || is_skipped resource service.id r
    then rest
    else slots_of_resource env cfg service zone date r >>= λ found. rest >>= λ others.
        ok (keep_free business r.id exclude service.buffer_minutes rows found ++ others)

-- appointmentSlots; ListAppointmentResources gives the rows of the business, by name
unfoldable pub appointment_slots :
    Env
    → ℕ
    → Settings
    → Service
    → (zone date : Text) → (resource exclude : ℕ) → Requests
    → Result (List AvailableSlot)
appointment_slots env business cfg service zone date resource exclude t =
    resource_slots env business cfg service zone date resource exclude t.appointments t.resources

unfoldable pub find_start : ℕ → ℕ → List AvailableSlot → Result ℕ
find_start start resource [] = err (conflict "slot_unavailable")
find_start start resource (s ∷ ss) =
    let rest = find_start start resource ss in
    if s.slot.starts_at == start && s.resource_id == resource then ok s.slot.ends_at else rest

-- checkAppointment
unfoldable pub check_appointment :
    Env
    → ℕ
    → Settings
    → Service
    → (zone : Text) → (resource exclude start : ℕ) → Requests
    → Result ℕ
check_appointment env business cfg service zone resource exclude start t = elim (env.zone_of zone) [
  | none ↦ err (plain "unknown time zone")
  | some z ↦
      appointment_slots env business cfg service zone (format_date (z.local_day start)) resource
        exclude t
      >>= λ found. find_start start resource found
]

-- The value of Clock, 0 where it fails
abbrev pub minutes_or_zero : Option ℕ → ℕ
minutes_or_zero none = 0
minutes_or_zero (some m) = m

-- The day's cutoff has passed: no windows are left for today.
unfoldable pub is_cut_off : Env → Zone → Text → Settings → Bool
is_cut_off env z date cfg =
    not (text_eq cfg.daily_cutoff [])
    && (text_eq date (format_date (z.local_day env.now))
        && leb (minutes_or_zero (clock cfg.daily_cutoff)) (local_minute z env.now))

-- pickupSlots
unfoldable pub pickup_slots : Env → (zone : Text) → Settings → (date : Text) → Result (List Slot)
pickup_slots env zone cfg date = elim (env.zone_of zone) [
  | none ↦ err (plain "unknown time zone")
  | some z ↦
      if is_cut_off env z date cfg
      then ok []
      else slots env.zone_of date zone cfg.hours cfg.closed_dates cfg.slot_minutes cfg.slot_minutes
          0 env.now cfg.lead_minutes cfg.horizon_days
]

-- A preorder of the window that has been confirmed and not been called off.
unfoldable pub takes_window : String → Bool
takes_window status =
    str_eq status "confirmed"
    || (str_eq status "preparing"
        || (str_eq status "ready" || (str_eq status "collected" || str_eq status "uncollected")))

unfoldable pub counts_for : ℕ → ℕ → ℕ → Preorder → Bool
counts_for business window exclude p =
    p.business_id == business
    && (p.pickup_window_id == window && (not (p.id == exclude) && takes_window p.status))

-- PickupWindowUsage
unfoldable pub pickup_window_usage : ℕ → ℕ → ℕ → List Preorder → ℕ
pickup_window_usage business window exclude [] = 0
pickup_window_usage business window exclude (p ∷ ps) =
    let rest = pickup_window_usage business window exclude ps in
    if counts_for business window exclude p then suc rest else rest

unfoldable pub has_slot : ℕ → ℕ → List Slot → Bool
has_slot start finish ss = any (λ s. s.starts_at == start && s.ends_at == finish) ss

-- GetPickupWindow
unfoldable pub get_pickup_window : ℕ → ℕ → List PickupWindow → Option PickupWindow
get_pickup_window business id ws = find (λ w. w.business_id == business && w.id == id) ws

-- checkPickup
unfoldable pub check_pickup :
    Env → ℕ → Settings → (zone : Text) → (id exclude : ℕ) → Requests → Result PickupWindow
check_pickup env business cfg zone id exclude t = elim (get_pickup_window business id t.windows) [
  | none ↦ err Error.no_rows
  | some w ↦ elim (env.zone_of zone) [
    | none ↦ err (plain "unknown time zone")
    | some z ↦ pickup_slots env zone cfg (format_date (z.local_day w.starts_at)) >>= λ found.
        if not (has_slot w.starts_at w.ends_at found)
        then err (conflict "slot_unavailable")
        else if ltb 0 cfg.max_orders_per_slot
            && leb cfg.max_orders_per_slot (pickup_window_usage business id exclude t.preorders)
        then err (conflict "pickup_window_full")
        else ok w
  ]
]
