-- ===== src/Operations/Admission.antt =====
-- requireIntake and publicUnavailable of internal/operations/core.go, against Get and Consume of
-- internal/entitlements/service.go.
use openlocal_api.Prelude.{
  ℕ, ◌≡◌, refl, sym, ap, ◌∙◌, leb, ◌⊎◌, inl, inr, true, false, not, ◌||◌, Option, none, some, List,
  String, arith, Option-cases, Bool-cases, subst,
}
use openlocal_api.Api.{Error, fail, plain, ok, err, Result-cases, >>=-eq-ok}
use openlocal_api.Text.Runes.{Text}
use openlocal_api.Entitlements.Access.{
  Subscription, ModuleRow, UsageEvent, is_enabled, owns, get_access, get_module, consume, limits,
  module_usage,
}
use openlocal_api.Entitlements.Quota.{IsOk, get_access_iff_consume}
use openlocal_api.Operations.Intake.{
  Settings, defaults, require_paid, public_unavailable, no_hours, settings_of, intake_open,
  require_intake,
}

ok_same : (a b : Settings) → ok a ≡ ok b → a ≡ b
ok_same a b e = cc

consume-IsOk :
    (now : ℕ) (s : Subscription) (m : String) (id : ℕ) (events : List UsageEvent)
    → owns s now m ≡ true
    → leb (limits s.tier).0 (module_usage s.business_id m s.period_start events) ≡ false
    → IsOk (consume now s m id events)
unfolding consume
consume-IsOk now s m id events owned room = ground (arith, owned, room)

module _ (unmarshal : Settings → Text → Option Settings) where
  settings_of_enabled :
      (row : Option ModuleRow) (cfg : Settings)
      → settings_of unmarshal row ≡ ok cfg
      → cfg.enabled ≡ is_enabled row
  unfolding settings_of
  settings_of_enabled none cfg e = ap (λ c. c.enabled) (sym (ok_same defaults cfg e))
  settings_of_enabled (some row) cfg e = elim (Option-cases (unmarshal defaults row.settings)) [
    | inl unread ↦ absurd (ground (arith, unread))
    | inr (read, found) ↦
        ap (λ c. c.enabled)
          (sym (ok_same (record read { enabled = row.enabled }) cfg (ground (arith, found))))
  ]

  intake_open_ok :
      (s : Subscription) (m : String) (events : List UsageEvent) (read cfg : Settings)
      → intake_open unmarshal s m events read ≡ ok cfg
      → (read ≡ cfg)
        × (read.enabled ≡ true)
        × (no_hours read.hours ≡ false)
        × (leb (limits s.tier).0 (module_usage s.business_id m s.period_start events) ≡ false)
  unfolding intake_open
  intake_open_ok s m events read cfg e =
      (ground (arith, e), ground (arith, e), ground (arith, e), ground (arith, e))

  require_paid-owns :
      (now : ℕ) (s : Subscription) (m : String) (u : Unit)
      → require_paid now s m ≡ ok u
      → owns s now m ≡ true
  unfolding require_paid
  require_paid-owns now s m u e = ground (arith, e)

  -- A module that takes a request in is enabled and has opening hours; the dashboard shows that it
  -- accepts new requests, and the subscription lets one more confirmation through.
  pub require_intake_admits :
      (now : ℕ) (s : Subscription) (role m : String) (id : ℕ) (rows : List ModuleRow)
      (events : List UsageEvent) (cfg : Settings)
      → require_intake unmarshal now s m rows events ≡ ok cfg
      → (cfg.enabled ≡ true)
        × (no_hours cfg.hours ≡ false)
        × ((get_access s role now m (get_module s.business_id m rows) events).can_accept_new ≡ true)
        × IsOk (consume now s m id events)
  unfolding require_intake
  require_intake_admits now s role m id rows events cfg e =
      let (read, found, rest) = >>=-eq-ok _ _ e in
      let (u, pays, open_for) = >>=-eq-ok _ _ rest in
      let (same, on, hours, room) = intake_open_ok s m events read cfg open_for in
      let owned = require_paid-owns now s m u pays in
      let enabled = sym (settings_of_enabled (get_module s.business_id m rows) read found) ∙ on in
      let confirms = consume-IsOk now s m id events owned room in
      (
        subst (λ c. c.enabled ≡ true) same on,
        subst (λ c. no_hours c.hours ≡ false) same hours,
        (get_access_iff_consume now s role m id (get_module s.business_id m rows) events).1
            (enabled, confirms),
        confirms,
      )

  -- The answer to a client whose request a module does not take in.
  Refused : Error → Type 0
  Refused e =
      (public_unavailable e
        ≡ fail 403 "module_unavailable" "requests are currently unavailable; contact the business")
      ⊎ (e ≡ plain "invalid settings")

  settings_of-Refused :
      (row : Option ModuleRow) (e : Error) → settings_of unmarshal row ≡ err e → Refused e
  unfolding settings_of Refused
  settings_of-Refused row e refused = inr (ground (arith, refused))

  require_paid-Refused :
      (now : ℕ) (s : Subscription) (m : String) (e : Error)
      → require_paid now s m ≡ err e
      → Refused e
  unfolding require_paid Refused public_unavailable
  require_paid-Refused now s m e refused =
      let why : fail 403 "module_unavailable" "module is not subscribed" ≡ e =
        ground (arith, refused) in
      subst Refused why (inl refl)

  intake_open-Refused :
      (s : Subscription) (m : String) (events : List UsageEvent) (cfg : Settings) (e : Error)
      → intake_open unmarshal s m events cfg ≡ err e
      → Refused e
  unfolding intake_open Refused public_unavailable
  intake_open-Refused s m events cfg e refused =
      elim (Bool-cases (not cfg.enabled || no_hours cfg.hours)) [
        | inl paused ↦
            let why : fail 403 "module_unavailable" "requests are currently unavailable" ≡ e =
              ground (arith, paused, refused) in
            subst Refused why (inl refl)
        | inr open_now ↦
            let why : fail 409 "quota_exceeded" "requests are currently unavailable" ≡ e =
              ground (arith, open_now, refused) in
            subst Refused why (inl refl)
      ]

  -- Where requireIntake refuses, publicUnavailable, which create applies for a public client, has one
  -- answer for all its reasons: a subscription without the module or out of time, a module that is off, no
  -- opening hours and a quota that is used up. Only settings that cannot be read give another error. The
  -- subscription is given: a business that has none is told apart before, by publicBusiness.
  pub require_intake_hides :
      (now : ℕ) (s : Subscription) (m : String) (rows : List ModuleRow) (events : List UsageEvent)
      (e : Error)
      → require_intake unmarshal now s m rows events ≡ err e
      → (public_unavailable e
          ≡ fail 403 "module_unavailable"
              "requests are currently unavailable; contact the business")
        ⊎ (e ≡ plain "invalid settings")
  unfolding require_intake Refused
  require_intake_hides now s m rows events e refused =
      elim (Result-cases (settings_of unmarshal (get_module s.business_id m rows))) [
        | inr (why, unread) ↦
            settings_of-Refused (get_module s.business_id m rows) e
              (ground (arith, unread, refused))
        | inl (cfg, read) ↦ elim (Result-cases (require_paid now s m)) [
          | inr (why, unpaid) ↦
              require_paid-Refused now s m e (ground (arith, read, unpaid, refused))
          | inl (u, pays) ↦
              intake_open-Refused s m events cfg e (ground (arith, read, pays, refused))
        ]
      ]
