-- ===== src/Compliance/Transition.antt =====
-- When a device is quarantined, and which reports make it compliant.
use arx_mdm.Prelude.{
  ℕ, ◌≡◌, refl, subst, ◌↔◌, inl, inr, Bool, true, false, ◌&&◌, ◌||◌, not, Option, none, some, List,
  [], ◌∷◌, Text, text_eq, trim_space, to_lower, Bool-cases, arith,
}
use arx_mdm.Prelude.Result.{Result, ok, err}
use arx_mdm.Policy.Json.{Encoding}
use arx_mdm.Policy.Types.{AssignedPayload}
use arx_mdm.Commands.Store.{DeviceCommand, Store}
use arx_mdm.Commands.Rows.{RowError}
use arx_mdm.Compliance.Engine.{
  ComplianceStatus, compliant, non_compliant, evaluating, is_non_compliant, is_evaluating,
  AssetComplianceRow, EnforcementWire, Fleet, get_asset_compliance, update_rows,
  set_asset_compliance, set_asset_quarantine_enabled, has_critical, reports_success,
  reports_failure, classify, verdict, after_insert, enqueue_quarantine, enters_non_compliance,
  settle, evaluate_after_telemetry,
}

-- A change that keeps the ids is found where the row was.
get-update_rows :
    (k : ℕ) (change : AssetComplianceRow → AssetComplianceRow) (rs : List AssetComplianceRow)
    (r : AssetComplianceRow)
    → ((r : AssetComplianceRow) → (change r).asset ≡ r.asset)
    → get_asset_compliance k rs ≡ some r
    → get_asset_compliance k (update_rows k change rs) ≡ some (change r)
unfolding get_asset_compliance update_rows
get-update_rows k change [] r same h = cc h
get-update_rows k change (q ∷ rs) r same h =
    grind (arith, same q, get-update_rows k change rs r same)

-- The status that a device's row has.
abbrev pub HasStatus : Fleet → ℕ → ComplianceStatus → Type 0
HasStatus f asset status =
    (r : AssetComplianceRow) × (get_asset_compliance asset f.rows ≡ some r) × (r.status ≡ status)

set_asset_compliance-HasStatus :
    (f : Fleet) (asset : ℕ) (status : ComplianceStatus) (reason : Text) (r : AssetComplianceRow)
    → get_asset_compliance asset f.rows ≡ some r
    → HasStatus (set_asset_compliance asset status reason f) asset status
unfolding set_asset_compliance
set_asset_compliance-HasStatus f asset status reason r h =
    (_, get-update_rows asset _ f.rows r (λ q. refl) h, refl)

set_asset_quarantine_enabled-HasStatus :
    (f : Fleet) (asset : ℕ) (status : ComplianceStatus)
    → HasStatus f asset status
    → HasStatus (set_asset_quarantine_enabled asset true f) asset status
unfolding set_asset_quarantine_enabled
set_asset_quarantine_enabled-HasStatus f asset status (r, h, e) =
    (_, get-update_rows asset _ f.rows r (λ q. refl) h, e)

stays_non_compliant :
    (prev : AssetComplianceRow) (status : ComplianceStatus)
    → prev.status ≡ non_compliant
    → enters_non_compliance (some prev) status ≡ false
stays_non_compliant prev status e = rw e (cut (is_non_compliant status))
  where
    cut : (b : Bool) → (b && false) ≡ false
    cut true = refl
    cut false = refl

quiet :
    (prev : Option AssetComplianceRow) (status : ComplianceStatus)
    → is_non_compliant status ≡ false
    → enters_non_compliance prev status ≡ false
quiet none status e = e
quiet (some prev) status e = rw e

is_non_compliant_iff :
    (status : ComplianceStatus) → is_non_compliant status ≡ true → status ≡ non_compliant
is_non_compliant_iff compliant h = cc h
is_non_compliant_iff non_compliant h = refl
is_non_compliant_iff evaluating h = cc h

or_true : (b : Bool) → (b || true) ≡ true
or_true true = refl
or_true false = refl

classify_critical :
    (e : EnforcementWire)
    → (((classify true e).0 ≡ compliant) ↔ (reports_success (to_lower (trim_space e.state)) ≡ true))
      × (((classify true e).0 ≡ non_compliant) ↔ (
          (reports_success (to_lower (trim_space e.state)) ≡ false)
          × (reports_failure (to_lower (trim_space e.state)) ≡ true)))
unfolding classify
classify_critical e = elim (Bool-cases (reports_success (to_lower (trim_space e.state)))) [
  | inl s ↦ rw s ((λ h. refl, λ h. refl), (λ h. cc h, λ h. cc h.0))
  | inr s ↦ elim (Bool-cases (reports_failure (to_lower (trim_space e.state)))) [
    | inl f ↦
        rw (s, f, or_true e.critical_failed)
          ((λ h. cc h, λ h. cc h), (λ h. (refl, refl), λ h. refl))
    | inr f ↦ rw (s, f) ((λ h. cc h, λ h. cc h), (λ h. cc h, λ h. cc h.1))
  ]
]

module _ (E : Encoding) (readable : Text → Bool) (payload : Text)
    (dispatch : Text → DeviceCommand → Bool) where
  after_insert-HasStatus :
      (f : Fleet) (asset : ℕ) (cert : Text) (status : ComplianceStatus)
      (res : Result RowError DeviceCommand × Store)
      → HasStatus f asset status
      → HasStatus (after_insert E readable payload dispatch asset cert f res) asset status
  after_insert-HasStatus f asset cert status (err e, s) h = h
  after_insert-HasStatus f asset cert status (ok c, s) h = elim (Bool-cases (dispatch cert c)) [
    | inl e ↦ rw e (set_asset_quarantine_enabled-HasStatus (record f { store = s }) asset status h)
    | inr e ↦ rw e (set_asset_quarantine_enabled-HasStatus (record f { store = s }) asset status h)
  ]

  settle-HasStatus :
      (f : Fleet) (asset : ℕ) (cert : Text) (prev : Option AssetComplianceRow)
      (status : ComplianceStatus) (reason : Text) (r : AssetComplianceRow)
      → get_asset_compliance asset f.rows ≡ some r
      → HasStatus
          (settle E readable payload dispatch asset cert prev (some (status, reason)) f)
          asset
          status
  unfolding settle enqueue_quarantine
  settle-HasStatus f asset cert prev status reason r h =
      let written = set_asset_compliance-HasStatus f asset status reason r h in
      elim (Bool-cases
        (f.auto_quarantine && enters_non_compliance prev status && not (text_eq cert []))) [
          | inr e ↦ rw (settle, e) written
          | inl e ↦
              rw (settle, e)
                (after_insert-HasStatus (set_asset_compliance asset status reason f) asset cert
                  status _ written)
        ]

  settle-store :
      (f : Fleet) (asset : ℕ) (cert : Text) (prev : Option AssetComplianceRow)
      (status : ComplianceStatus) (reason : Text)
      → enters_non_compliance prev status ≡ false
      → (settle E readable payload dispatch asset cert prev (some (status, reason)) f).store
        ≡ f.store
  unfolding settle set_asset_compliance
  settle-store f asset cert prev status reason e = elim (Bool-cases f.auto_quarantine) [
    | inl a ↦ rw (settle, a, e)
    | inr a ↦ rw (settle, a)
  ]

  -- A device that is already non-compliant gets no further command: whatever is reported, the
  -- commands, the assets and the journal stay as they are.
  pub evaluate_after_telemetry-non_compliant :
      (f : Fleet) (asset : ℕ) (cert : Text) (assigned : Option (List AssignedPayload))
      (enf : Option EnforcementWire)
      → HasStatus f asset non_compliant
      → (evaluate_after_telemetry E readable payload dispatch f asset cert assigned enf).store
        ≡ f.store
  unfolding evaluate_after_telemetry settle
  evaluate_after_telemetry-non_compliant f asset cert assigned enf (r, h, e) =
      rw (evaluate_after_telemetry, h) (by_verdict (verdict (has_critical E assigned) (some r) enf))
    where
      by_verdict :
          (v : Option (ComplianceStatus × Text))
          → (settle E readable payload dispatch asset cert (some r) v f).store ≡ f.store
      by_verdict none = refl
      by_verdict (some (status, reason)) =
          settle-store f asset cert (some r) status reason (stays_non_compliant r status e)

  -- What is reported when nothing is reported quarantines nothing.
  silent :
      (f : Fleet) (asset : ℕ) (cert : Text) (assigned : Option (List AssignedPayload))
      → (evaluate_after_telemetry E readable payload dispatch f asset cert assigned none).store
        ≡ f.store
  unfolding evaluate_after_telemetry settle verdict
  silent f asset cert assigned = by_row (get_asset_compliance asset f.rows)
    where
      by_row :
          (prev : Option AssetComplianceRow)
          → (settle E readable payload dispatch asset cert prev
              (verdict (has_critical E assigned) prev none)
              f).store
            ≡ f.store
      by_row none = settle-store f asset cert none evaluating [] refl
      by_row (some r) = elim (Bool-cases (is_evaluating r.status)) [
        | inl e ↦ rw e (settle-store f asset cert (some r) evaluating [] refl)
        | inr e ↦ rw e
      ]

  mild :
      (f : Fleet) (asset : ℕ) (cert : Text) (assigned : Option (List AssignedPayload))
      (e : EnforcementWire)
      → is_non_compliant (classify (has_critical E assigned) e).0 ≡ false
      → (evaluate_after_telemetry E readable payload dispatch f asset cert assigned (some e)).store
        ≡ f.store
  unfolding evaluate_after_telemetry verdict
  mild f asset cert assigned e h =
      settle-store f asset cert (get_asset_compliance asset f.rows)
        (classify (has_critical E assigned) e).0 (classify (has_critical E assigned) e).1
        (quiet (get_asset_compliance asset f.rows) _ h)

  evaluate-HasStatus :
      (f : Fleet) (asset : ℕ) (cert : Text) (assigned : Option (List AssignedPayload))
      (e : EnforcementWire) (r : AssetComplianceRow)
      → get_asset_compliance asset f.rows ≡ some r
      → HasStatus
          (evaluate_after_telemetry E readable payload dispatch f asset cert assigned (some e))
          asset
          (classify (has_critical E assigned) e).0
  unfolding evaluate_after_telemetry verdict
  evaluate-HasStatus f asset cert assigned e r h =
      settle-HasStatus f asset cert (get_asset_compliance asset f.rows)
        (classify (has_critical E assigned) e).0 (classify (has_critical E assigned) e).1 r h

  -- Where the device has a row, the same telemetry a second time enqueues no command: the
  -- commands, the assets and the journal are as they were after the first time.
  pub evaluate_after_telemetry-twice :
      (f : Fleet) (asset : ℕ) (cert : Text) (assigned : Option (List AssignedPayload))
      (enf : Option EnforcementWire) (r : AssetComplianceRow)
      → get_asset_compliance asset f.rows ≡ some r
      → (evaluate_after_telemetry E readable payload dispatch
          (evaluate_after_telemetry E readable payload dispatch f asset cert assigned enf)
          asset
          cert
          assigned
          enf).store
        ≡ (evaluate_after_telemetry E readable payload dispatch f asset cert assigned enf).store
  evaluate_after_telemetry-twice f asset cert assigned none r h = silent _ asset cert assigned
  evaluate_after_telemetry-twice f asset cert assigned (some e) r h =
      let next =
        evaluate_after_telemetry E readable payload dispatch f asset cert assigned (some e) in
      elim (Bool-cases (is_non_compliant (classify (has_critical E assigned) e).0)) [
        | inr m ↦ mild next asset cert assigned e m
        | inl m ↦ evaluate_after_telemetry-non_compliant next asset cert assigned (some e) (
            subst (HasStatus next asset) (is_non_compliant_iff _ m)
              (evaluate-HasStatus f asset cert assigned e r h))
      ]

  -- Where the device has a row, its controls count as critical and its agent reports a state,
  -- the device is compliant afterwards exactly if the state is one of success, and non-compliant
  -- exactly if it is one of failure and none of success.
  pub evaluate_after_telemetry-critical :
      (f : Fleet) (asset : ℕ) (cert : Text) (assigned : Option (List AssignedPayload))
      (e : EnforcementWire) (r : AssetComplianceRow)
      → get_asset_compliance asset f.rows ≡ some r
      → has_critical E assigned ≡ true
      → (status : ComplianceStatus) × HasStatus
          (evaluate_after_telemetry E readable payload dispatch f asset cert assigned (some e))
          asset
          status
        × ((status ≡ compliant) ↔ (reports_success (to_lower (trim_space e.state)) ≡ true))
        × ((status ≡ non_compliant) ↔ (
            (reports_success (to_lower (trim_space e.state)) ≡ false)
            × (reports_failure (to_lower (trim_space e.state)) ≡ true)))
  evaluate_after_telemetry-critical f asset cert assigned e r h c =
      let k = classify_critical e in
      (
        (classify (has_critical E assigned) e).0,
        evaluate-HasStatus f asset cert assigned e r h,
        rw c k.0,
        rw c k.1,
      )
