-- ===== src/Operations/Readings.antt =====
-- What mutate of internal/operations/mutate.go has found out when it starts to write.
use openlocal_api.Prelude.{
  ℕ, ◌≡◌, ◌⊎◌, refl, sym, ap, ◌∙◌, inl, inr, true, false, not, ◌&&◌, some, String, str_eq, ltb,
  contains, arith, Bool-cases, Option-cases,
}
use openlocal_api.Api.{ok, Result-cases}
use openlocal_api.Entitlements.Access.{get_module}
use openlocal_api.Operations.States.{next, no_next, shown_status}
use openlocal_api.Operations.Rows.{View}
use openlocal_api.Operations.Tables.{Appointment, Preorder, Requests, get_appointment, get_preorder}
use openlocal_api.Operations.Intake.{Settings, settings_of}
use openlocal_api.Operations.Booking.{Env}
use openlocal_api.Operations.Changes.{
  Target, Change, transition, editing, customer_facing, version_of, find_business, view_of,
  view_of_appointment, view_of_preorder, record_of, check_version, too_late, check_transition,
  notes_of, status_of,
}
use openlocal_api.Operations.Checks.{Read, known_business, test_change, read_change}

pub record ReadRan (env : Env) (target : Target) (change : Change) (t : Requests) (read : Read)
    : Type 0 where
  pub shown : view_of env.now target.business target.id target.module_name t ≡ some read.view
  pub version : version_of change ≡ read.view.version
  pub not_expired : str_eq read.view.status "expired" ≡ false
  pub open_status : no_next (next target.module_name read.view.status) ≡ false
  pub allowed :
      (contains (next target.module_name read.view.status) (status_of change read.view.status)
        ≡ true)
      ⊎ (status_of change read.view.status ≡ read.view.status)
  pub settings_read :
      settings_of env.unmarshal (get_module target.business target.module_name t.modules)
      ≡ ok read.settings
  pub in_time :
      customer_facing target.audience ≡ true
      → too_late env.now read.settings read.view target.module_name ≡ false

record_of_shown :
    (now b i : ℕ) (m : String) (t : Requests) (v : View)
    → record_of now b i m t ≡ ok v
    → view_of now b i m t ≡ some v
unfolding record_of
record_of_shown now b i m t v e = elim (Option-cases (view_of now b i m t)) [
  | inl missing ↦ absurd (ground (arith, missing, e))
  | inr (w, found) ↦ elim (Option-cases (find_business b t.businesses)) [
    | inl unknown ↦ absurd (ground (arith, found, unknown, e))
    | inr (business, known) ↦ ground (arith, found, known, e)
  ]
]

check_version_ok :
    (change : Change) (r : View) (m : String) (u : Unit {0})
    → check_version change r m ≡ ok u
    → (version_of change ≡ r.version)
      × (str_eq r.status "expired" ≡ false)
      × (no_next (next m r.status) ≡ false)
unfolding check_version
check_version_ok change r m u e = (ground (arith, e), ground (arith, e), ground (arith, e))

check_transition_ok :
    (now : ℕ) (cfg : Settings) (target : Target) (change : Change) (r : View) (u : Unit {0})
    → check_transition now cfg target change r ≡ ok u
    → ((contains (next target.module_name r.status) (status_of change r.status) ≡ true)
        ⊎ (status_of change r.status ≡ r.status))
      × (customer_facing target.audience ≡ true → too_late now cfg r target.module_name ≡ false)
unfolding check_transition
check_transition_ok now cfg target (transition status version) r u e =
    (inl (ground (arith, e)), λ customer. ground (arith, customer, e))
check_transition_ok now cfg target (editing x) r u e =
    (inr refl, λ customer. ground (arith, customer, e))

module _ (env : Env) (target : Target) (change : Change) (t : Requests) (read : Read) where
  test_change_ok :
      (r : View)
      → test_change env target change r t ≡ ok read
      → (read.view ≡ r)
        × (settings_of env.unmarshal (get_module target.business target.module_name t.modules)
            ≡ ok read.settings)
        × ((u : Unit {0}) × (check_transition env.now read.settings target change r ≡ ok u))
  unfolding test_change
  test_change_ok r e =
      elim (Result-cases
        (settings_of env.unmarshal (get_module target.business target.module_name t.modules))) [
          | inr (why, failed) ↦ absurd (ground (arith, failed, e))
          | inl (cfg, set) ↦
              elim (Result-cases (known_business (find_business target.business t.businesses))) [
                | inr (why, failed) ↦ absurd (ground (arith, set, failed, e))
                | inl (v, known) ↦
                    elim (Result-cases (check_transition env.now cfg target change r)) [
                      | inr (why, failed) ↦ absurd (ground (arith, set, known, failed, e))
                      | inl (w, allowed) ↦ elim (Result-cases (notes_of change r.notes)) [
                        | inr (why, failed) ↦
                            absurd (ground (arith, set, known, allowed, failed, e))
                        | inl (notes, noted) ↦
                            let made : record { view = r; settings = cfg; notes = notes } ≡ read =
                              ground (arith, set, known, allowed, noted, e) in
                            (
                              sym (ap (λ (x : Read). x.view) made),
                              set ∙ ap ok (ap (λ (x : Read). x.settings) made),
                              (w, rw (ap (λ (x : Read). x.settings) made) at allowed),
                            )
                      ]
                    ]
              ]
        ]

  pub read_change-ReadRan :
      read_change env target change t ≡ ok read → ReadRan env target change t read
  unfolding read_change
  read_change-ReadRan e =
      elim (Result-cases (record_of env.now target.business target.id target.module_name t)) [
        | inr (why, failed) ↦ absurd (ground (arith, failed, e))
        | inl (r, shown) ↦ elim (Result-cases (check_version change r target.module_name)) [
          | inr (why, failed) ↦ absurd (ground (arith, shown, failed, e))
          | inl (u, versions) ↦
              let (same, set, (w, allowed)) =
                test_change_ok r (ground (arith, shown, versions, e)) in
              let (version, live, unfinished) =
                check_version_ok change r target.module_name u versions in
              let (step, in_time) =
                check_transition_ok env.now read.settings target change r w allowed in
              record {
                shown =
                    record_of_shown env.now target.business target.id target.module_name t read.view
                      (rw same shown);
                version = rw same version;
                not_expired = rw same live;
                open_status = rw same unfinished;
                allowed = rw same step;
                settings_read = set;
                in_time = rw same in_time;
              }
        ]
      ]

-- A request that is not shown as expired is shown as it is stored.
shown_live :
    (now : ℕ) (s : String) (at : ℕ)
    → str_eq (shown_status now s at) "expired" ≡ false
    → shown_status now s at ≡ s
unfolding shown_status
shown_live now s at h = elim (Bool-cases (str_eq s "requested" && not (ltb now at))) [
  | inl due ↦
      let expired : shown_status now s at ≡ "expired" = ground (arith, due) in
      let no : true ≡ false = rw expired at h in absurd (cc no)
  | inr other ↦ ground (arith, other)
]

-- The row behind the view.
viewed_appointment :
    (now b i : ℕ) (m : String) (t : Requests) (v : View)
    → str_eq m "appointments" ≡ true
    → view_of now b i m t ≡ some v
    → (a : Appointment) × (get_appointment b i t.appointments ≡ some a)
      × (v.status ≡ shown_status now a.status a.expires_at)
      × (v.version ≡ a.version)
unfolding view_of
viewed_appointment now b i m t v on_appointments e =
    elim (Option-cases (get_appointment b i t.appointments)) [
      | inl missing ↦ absurd (ground (arith, on_appointments, missing, e))
      | inr (a, found) ↦
          let same : view_of_appointment now a ≡ v = ground (arith, on_appointments, found, e) in
          (
            a,
            found,
            sym (ap (λ (x : View). x.status) same),
            sym (ap (λ (x : View). x.version) same),
          )
    ]

viewed_preorder :
    (now b i : ℕ) (m : String) (t : Requests) (v : View)
    → str_eq m "appointments" ≡ false
    → view_of now b i m t ≡ some v
    → (p : Preorder) × (get_preorder b i t.preorders ≡ some p)
      × (v.status ≡ shown_status now p.status p.expires_at)
      × (v.version ≡ p.version)
unfolding view_of
viewed_preorder now b i m t v on_preorders e = elim (Option-cases (get_preorder b i t.preorders)) [
  | inl missing ↦ absurd (ground (arith, on_preorders, missing, e))
  | inr (p, found) ↦
      let same : view_of_preorder now p ≡ v = ground (arith, on_preorders, found, e) in
      (p, found, sym (ap (λ (x : View). x.status) same), sym (ap (λ (x : View). x.version) same))
]

same_some : {A : Type 0} (a b : A) → some a ≡ some b → a ≡ b
same_some a b e = cc

module _ (env : Env) (target : Target) (change : Change) (t : Requests) (read : Read)
    (ran : ReadRan env target change t read) where
  pub read_appointment :
      (a : Appointment)
      → str_eq target.module_name "appointments" ≡ true
      → get_appointment target.business target.id t.appointments ≡ some a
      → (read.view.status ≡ a.status) × (read.view.version ≡ a.version)
  read_appointment a on_appointments found =
      let (x, at, status, version) =
        viewed_appointment env.now target.business target.id target.module_name t read.view
          on_appointments ran.shown in
      let same : x ≡ a = same_some x a (sym at ∙ found) in
      let live = shown_live env.now x.status x.expires_at (rw status at ran.not_expired) in
      (
        status ∙ live ∙ ap (λ (y : Appointment). y.status) same,
        version ∙ ap (λ (y : Appointment). y.version) same,
      )

  pub read_preorder :
      (p : Preorder)
      → str_eq target.module_name "appointments" ≡ false
      → get_preorder target.business target.id t.preorders ≡ some p
      → (read.view.status ≡ p.status) × (read.view.version ≡ p.version)
  read_preorder p on_preorders found =
      let (x, at, status, version) =
        viewed_preorder env.now target.business target.id target.module_name t read.view
          on_preorders ran.shown in
      let same : x ≡ p = same_some x p (sym at ∙ found) in
      let live = shown_live env.now x.status x.expires_at (rw status at ran.not_expired) in
      (
        status ∙ live ∙ ap (λ (y : Preorder). y.status) same,
        version ∙ ap (λ (y : Preorder). y.version) same,
      )
