-- ===== src/Entitlements/Quota.antt =====
-- The quota of internal/entitlements/service.go.
use openlocal_api.Prelude.{
  ℕ, ◌≤◌, ◌<◌, ◌≡◌, ◌≢◌, ◌↔◌, ◌⊎◌, true, false, Option, List, String, str_eq, arith, subst, refl,
  eq_iff,
}
use openlocal_api.Api.{Result, ok, err}
use openlocal_api.Entitlements.Access.{
  Subscription, ModuleRow, UsageEvent, limits, module_usage, has_event, consume_module_usage,
  is_enabled, intake, get_access, consume,
}

abbrev pub IsOk {ℓ} : {A : Type ℓ} → Result A → Type 0
IsOk (ok a) = Unit
IsOk (err e) = ⊥

abbrev Other : ℕ → String → ℕ → ℕ → String → ℕ → Type 0
Other b m p business module_name period =
    (business ≢ b) ⊎ (str_eq module_name m ≡ false) ⊎ (period ≢ p)

consume_module_usage-has_event :
    (b : ℕ) (m : String) (id p : ℕ) (es : List UsageEvent)
    → has_event b m id (consume_module_usage b m id p es) ≡ true
unfolding consume_module_usage has_event
consume_module_usage-has_event b m id p es = ground (arith, (eq_iff m m).1 refl)

consume_module_usage_adds :
    (b : ℕ) (m : String) (id p : ℕ) (es : List UsageEvent) {n : ℕ}
    → module_usage b m p es < n
    → module_usage b m p (consume_module_usage b m id p es) ≤ n
unfolding consume_module_usage module_usage
consume_module_usage_adds b m id p es lt = ground arith

consume_module_usage_others :
    (business : ℕ) (module_name : String) (id period : ℕ) (es : List UsageEvent) (b : ℕ)
    (m : String) (p : ℕ)
    → Other b m p business module_name period
    → module_usage b m p (consume_module_usage business module_name id period es)
      ≡ module_usage b m p es
unfolding consume_module_usage module_usage
consume_module_usage_others business module_name id period es b m p o = ground arith

-- A confirmation that is accepted is recorded, its period has then no more confirmations than the tier
-- allows, and the counts of other businesses, modules and periods stay as they were.
pub consume_keeps_quota :
    (now : ℕ) (s : Subscription) (m : String) (id : ℕ) (es es' : List UsageEvent)
    → consume now s m id es ≡ ok es'
    → (has_event s.business_id m id es' ≡ true)
      × (module_usage s.business_id m s.period_start es' ≤ (limits s.tier).0)
      × ((b : ℕ) (n : String) (p : ℕ)
          → Other b n p s.business_id m s.period_start
          → module_usage b n p es' ≡ module_usage b n p es)
unfolding consume
consume_keeps_quota now s m id es es' h =
    let written : consume_module_usage s.business_id m id s.period_start es ≡ es' = ground arith in
    let room : module_usage s.business_id m s.period_start es < (limits s.tier).0 = ground arith in
    subst
      (λ t.
        (has_event s.business_id m id t ≡ true)
        × (module_usage s.business_id m s.period_start t ≤ (limits s.tier).0)
        × ((b : ℕ) (n : String) (p : ℕ)
            → Other b n p s.business_id m s.period_start
            → module_usage b n p t ≡ module_usage b n p es))
      written
      (
        consume_module_usage-has_event s.business_id m id s.period_start es,
        consume_module_usage_adds s.business_id m id s.period_start es room,
        λ b n p o. consume_module_usage_others s.business_id m id s.period_start es b n p o,
      )

-- The access that the dashboard shows is what a confirmation meets: new requests are accepted exactly
-- when the module is enabled and the subscription would let one more confirmation through.
pub get_access_iff_consume :
    (now : ℕ) (s : Subscription) (role m : String) (id : ℕ) (row : Option ModuleRow)
    (es : List UsageEvent)
    → ((get_access s role now m row es).can_accept_new ≡ true)
      ↔ ((is_enabled row ≡ true) × IsOk (consume now s m id es))
unfolding get_access consume intake
get_access_iff_consume now s role m id row es = ground arith
