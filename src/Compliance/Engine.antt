-- ===== src/Compliance/Engine.antt =====
-- internal/mdm/compliance: engine.go and merge.go, over the columns of `assets` that
-- internal/database/device_compliance.go reads and writes. The loggers are left out.
use arx_mdm.Prelude.{
  ℕ, Bool, true, false, ◌&&◌, ◌||◌, not, Option, none, some, List, [], ◌∷◌, map, Text, text_eq,
  bytes, any, take, ◌==◌, if◌then◌else◌, trim_space, to_lower,
}
use arx_mdm.Prelude.Result.{Result, ok, err}
use arx_mdm.Policy.Json.{Encoding}
use arx_mdm.Policy.Types.{AssignedPayload}
use arx_mdm.Policy.Merge.{merge_assigned_payloads}
use arx_mdm.Commands.Store.{DeviceCommand, Store}
use arx_mdm.Commands.Rows.{RowError, insert_device_command, mark_device_command_sent}
use arx_mdm.Compliance.Critical.{payload_carries_critical_security_controls}

-- ComplianceStatusCompliant and so on.
pub data ComplianceStatus : Type 0 where
  compliant non_compliant evaluating : ComplianceStatus

abbrev pub is_non_compliant : ComplianceStatus → Bool
is_non_compliant non_compliant = true
is_non_compliant _ = false

abbrev pub is_evaluating : ComplianceStatus → Bool
is_evaluating evaluating = true
is_evaluating _ = false

-- AssetComplianceRow, with the asset's id.
pub record AssetComplianceRow : Type 0 where
  pub asset : ℕ
  pub status : ComplianceStatus
  pub reason : Text
  pub quarantine_enabled : Bool

-- EnforcementWire
pub record EnforcementWire : Type 0 where
  pub state : Text
  pub detail : Text
  pub critical_failed : Bool

-- The tables, with `auto_quarantine_on_noncompliance` of the tenant, false where it cannot be read.
pub record Fleet : Type 0 where
  pub store : Store
  pub rows : List AssetComplianceRow
  pub auto_quarantine : Bool

-- GetAssetCompliance; the caller takes an error for a row with no status.
unfoldable pub get_asset_compliance : ℕ → List AssetComplianceRow → Option AssetComplianceRow
get_asset_compliance k [] = none
get_asset_compliance k (r ∷ rs) = if r.asset == k then some r else get_asset_compliance k rs

unfoldable pub update_rows :
    ℕ
    → (AssetComplianceRow → AssetComplianceRow)
    → List AssetComplianceRow
    → List AssetComplianceRow
update_rows k change [] = []
update_rows k change (r ∷ rs) = (if r.asset == k then change r else r) ∷ update_rows k change rs

-- SetAssetCompliance, with a status that is one of the three.
unfoldable pub set_asset_compliance : ℕ → ComplianceStatus → Text → Fleet → Fleet
unfolding update_rows
set_asset_compliance k status reason f = record f {
  rows =
      update_rows k (λ r. record r { status = status; reason = take 8192 (trim_space reason) })
        f.rows;
}

-- SetAssetQuarantineEnabled
unfoldable pub set_asset_quarantine_enabled : ℕ → Bool → Fleet → Fleet
unfolding update_rows
set_asset_quarantine_enabled k enabled f = record f {
  rows = update_rows k (λ r. record r { quarantine_enabled = enabled }) f.rows;
}

-- assignedInputs
unfoldable pub assigned_inputs : List AssignedPayload → List AssignedPayload
assigned_inputs = map λ r.
    if text_eq r.payload [] || text_eq r.payload (bytes "null")
    then record r { payload = bytes "{}" }
    else r

-- EffectiveMergedPayload and the test of it; `assigned` is ListAssignedProfilesForAsset, none for an
-- error.
module _ (E : Encoding) where
  unfoldable pub has_critical : Option (List AssignedPayload) → Bool
  unfolding assigned_inputs
  has_critical none = true
  has_critical (some rows) = elim (merge_assigned_payloads E (assigned_inputs rows)) [
    | err e ↦ true
    | ok r ↦ payload_carries_critical_security_controls r.effective_payload
  ]

abbrev pub one_of : Text → List Text → Bool
one_of t = any (text_eq t)

abbrev pub reports_success : Text → Bool
reports_success st = one_of st (bytes "ok" ∷ bytes "success" ∷ bytes "applied" ∷ [])

abbrev pub reports_failure : Text → Bool
reports_failure st = one_of st (bytes "error" ∷ bytes "failed" ∷ [])

abbrev pub or_default : Text → Text → Text
or_default reason default_reason = if text_eq reason [] then default_reason else reason

-- The switch on the reported state.
unfoldable pub classify : Bool → EnforcementWire → ComplianceStatus × Text
classify critical enf =
    let st = to_lower (trim_space enf.state) in
    if reports_success st
    then (compliant, [])
    else if reports_failure st
    then (if enf.critical_failed || critical
        then (
          non_compliant,
          or_default (trim_space enf.detail) (bytes "critical security policy enforcement failed"),
        )
        else (compliant, []))
    else (if critical then (evaluating, trim_space enf.detail) else (compliant, []))

-- The new status, or none for the early return that writes nothing.
unfoldable pub verdict :
    Bool → Option AssetComplianceRow → Option EnforcementWire → Option (ComplianceStatus × Text)
unfolding classify
verdict critical prev (some enf) = some (classify critical enf)
verdict critical none none = some (evaluating, [])
verdict critical (some prev) none =
    if is_evaluating prev.status then some (evaluating, []) else none

abbrev pub enters_non_compliance : Option AssetComplianceRow → ComplianceStatus → Bool
enters_non_compliance none status = is_non_compliant status
enters_non_compliance (some prev) status =
    is_non_compliant status && not (is_non_compliant prev.status)

-- The device's certificate, its profiles and the calls out: `readable` reads a quarantine payload,
-- `payload` is BuildQuarantinePayloadJSON(true), which the environment determines, and `dispatch` is
-- the hub's DispatchJSON.
module _ (E : Encoding) (readable : Text → Bool) (payload : Text)
    (dispatch : Text → DeviceCommand → Bool) where
  abbrev pub after_insert : ℕ → Text → Fleet → Result RowError DeviceCommand × Store → Fleet
  after_insert asset cert f (err e, s) = record f { store = s }
  after_insert asset cert f (ok c, s) =
      let queued = set_asset_quarantine_enabled asset true (record f { store = s }) in
      if dispatch cert c then record queued { store = mark_device_command_sent s c.id } else queued

  -- The automatic quarantine.
  unfoldable pub enqueue_quarantine : ℕ → Text → Fleet → Fleet
  unfolding set_asset_quarantine_enabled
  enqueue_quarantine asset cert f =
      after_insert asset cert f
        (insert_device_command readable f.store asset (bytes "quarantine") payload none)

  unfoldable pub settle :
      ℕ → Text → Option AssetComplianceRow → Option (ComplianceStatus × Text) → Fleet → Fleet
  unfolding set_asset_compliance enqueue_quarantine
  settle asset cert prev none f = f
  settle asset cert prev (some (status, reason)) f =
      let written = set_asset_compliance asset status reason f in
      if f.auto_quarantine && enters_non_compliance prev status && not (text_eq cert [])
      then enqueue_quarantine asset cert written
      else written

  -- EvaluateAfterTelemetry
  unfoldable pub evaluate_after_telemetry :
      Fleet → ℕ → Text → Option (List AssignedPayload) → Option EnforcementWire → Fleet
  unfolding get_asset_compliance verdict settle has_critical
  evaluate_after_telemetry f asset cert assigned enf =
      let prev = get_asset_compliance asset f.rows in
      settle asset cert prev (verdict (has_critical E assigned) prev enf) f

  -- QueueQuarantineCommand, for a payload that BuildQuarantinePayloadJSON(enabled) gives.
  unfoldable pub queue_quarantine_command :
      Store → ℕ → Text → Text → Result RowError (DeviceCommand × Bool) × Store
  queue_quarantine_command s device cert text =
      queued cert (insert_device_command readable s device (bytes "quarantine") text none)
    where
      queued :
          Text
          → Result RowError DeviceCommand × Store
          → Result RowError (DeviceCommand × Bool) × Store
      queued cert (err e, s) = (err e, s)
      queued cert (ok c, s) =
          if not (text_eq (trim_space cert) []) && dispatch cert c
          then (ok (c, true), mark_device_command_sent s c.id)
          else (ok (c, false), s)
