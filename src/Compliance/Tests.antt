-- ===== src/Compliance/Tests.antt =====
-- Two rounds of telemetry from a device that fails to apply a firewall.
use arx_mdm.Prelude.{
  ◌≡◌, ◌↔◌, refl, true, false, none, some, [], ◌∷◌, bytes, text_eq, to_lower, trim_space, length,
}
use arx_mdm.Policy.Json.{Encoding}
use arx_mdm.Commands.Rows.{check_command, insert_device_command, mark_device_command_sent}
use arx_mdm.Compliance.Engine.{
  ComplianceStatus, compliant, non_compliant, evaluating, EnforcementWire, Fleet,
  get_asset_compliance, evaluate_after_telemetry, reports_success, reports_failure,
  set_asset_compliance, set_asset_quarantine_enabled, has_critical, classify, verdict, settle,
  enqueue_quarantine,
}
use arx_mdm.Compliance.Transition.{
  HasStatus, evaluate_after_telemetry-twice, evaluate_after_telemetry-critical,
}

abbrev sample : Encoding
sample = record {
  Float = Unit {0};
  float_eqb = λ a b. true;
  float_ltb = λ a b. false;
  float_leb = λ a b. true;
  abs_sub = λ a b. tt;
  abs = λ a. tt;
  max = λ a b. a;
  one = tt;
  scale = λ a. tt;
  marshal = λ j. [];
  unmarshal = λ t. none;
  unmarshal_map = λ t. none;
}

abbrev fleet : Fleet
fleet = record {
  store = record {
    assets = record { id = 1; human_id = bytes "arx-c-1"; cert_serial = some (bytes "11") } ∷ [];
    commands = [];
    journal = [];
    now = 100;
    next_id = 1;
  };
  rows = record { asset = 1; status = evaluating; reason = []; quarantine_enabled = false } ∷ [];
  auto_quarantine = true;
}

abbrev failure : EnforcementWire
failure = record { state = bytes "Failed"; detail = bytes "firewall"; critical_failed = false }

-- A round in which the profiles cannot be read, so that controls are taken to be critical.
abbrev round : Fleet → Fleet
round f =
    evaluate_after_telemetry sample (λ p. true) (bytes "{}") (λ cert c. true) f 1 (bytes "11") none
      (some failure)

open_all : Unit {0}
unfolding evaluate_after_telemetry get_asset_compliance has_critical classify verdict settle
    enqueue_quarantine set_asset_compliance set_asset_quarantine_enabled check_command
    insert_device_command mark_device_command_sent text_eq to_lower trim_space
    arx_mdm.Commands.Rows.validate_device_command_type arx_mdm.Commands.Rows.takes_payload
open_all = tt

-- The first round quarantines the device with one command.
quarantined : HasStatus (round fleet) 1 non_compliant
unfolding open_all
quarantined = (_, refl, refl)

one_command : length (round fleet).store.commands ≡ 1
unfolding open_all
one_command = refl

evaluate_after_telemetry-twice_example : (round (round fleet)).store ≡ (round fleet).store
unfolding open_all
evaluate_after_telemetry-twice_example =
    evaluate_after_telemetry-twice sample (λ p. true) (bytes "{}") (λ cert c. true) fleet 1
      (bytes "11") none (some failure)
      (record { asset = 1; status = evaluating; reason = []; quarantine_enabled = false }) refl

evaluate_after_telemetry-critical_example :
    (status : ComplianceStatus) × HasStatus (round fleet) 1 status
    × ((status ≡ compliant) ↔ (reports_success (to_lower (trim_space failure.state)) ≡ true))
    × ((status ≡ non_compliant) ↔ (
        (reports_success (to_lower (trim_space failure.state)) ≡ false)
        × (reports_failure (to_lower (trim_space failure.state)) ≡ true)))
unfolding open_all
evaluate_after_telemetry-critical_example =
    evaluate_after_telemetry-critical sample (λ p. true) (bytes "{}") (λ cert c. true) fleet 1
      (bytes "11") none failure
      (record { asset = 1; status = evaluating; reason = []; quarantine_enabled = false }) refl refl
