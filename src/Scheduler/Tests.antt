-- ===== src/Scheduler/Tests.antt =====
-- Runs of automations by example.
use arx_mdm.Prelude.{
  ℕ, ◌≡◌, refl, Bool, true, Option, none, some, [], ◌∷◌, map, Text, text_eq, bytes, All,
  if◌then◌else◌, trim_space, trim_left, to_lower,
}
use arx_mdm.Scheduler.Dispatch.{
  dispatched, failed, AutomationRow, World, Value, string_value, sprint, resolve_target_human_ids,
  find_asset, find_package, set_status, operation_of, dispatch_shutdown, deploy, dispatch_deploy,
  dispatch_action, dispatch_all, dispatch_automation,
}
use arx_mdm.Scheduler.Settled.{IsSettled, IsEligible, dispatch_automation-IsSettled}

open_all : Unit {0}
unfolding text_eq trim_space trim_left to_lower sprint resolve_target_human_ids find_asset
    find_package set_status operation_of dispatch_shutdown deploy dispatch_deploy dispatch_action
    dispatch_all dispatch_automation
open_all = tt

abbrev world : World
world = record {
  assets =
      record {
        id = 1;
        human_id = bytes "D-1";
        os_type = bytes "linux";
        cert_serial = some (bytes "a1");
      }
      ∷ record { id = 2; human_id = bytes "D-2"; os_type = bytes "linux"; cert_serial = none }
      ∷ record {
        id = 3;
        human_id = bytes "D-3";
        os_type = bytes "linux";
        cert_serial = some (bytes "a3");
      }
      ∷ [];
  packages =
      record {
        id = 7;
        name = bytes "vim";
        version = bytes "9";
        type = bytes "apt";
        install_cmd = [];
      }
      ∷ [];
  deployments = [];
  next_id = 1;
  sent = [];
}

-- A payload with the package and an operation, and one with the package alone.
abbrev unmarshal : Text → Option (Text → Option Value)
unmarshal json = some λ key.
    if text_eq key (bytes "package_id")
    then some (string_value (bytes "7"))
    else if text_eq json (bytes "full")
    then some (string_value (bytes "Install"))
    else none

abbrev parse_uuid : Text → Option ℕ
parse_uuid t = if text_eq t (bytes "7") then some 7 else none

-- Only the first device is connected.
abbrev delivers : Text → Bool
delivers h = text_eq h (bytes "D-1")

abbrev nightly : Text → AutomationRow
nightly payload = record {
  id = 1;
  action_type = bytes "deploy_package";
  target_os = some (bytes "Linux");
  target_asset_id = none;
  payload_json = payload;
  is_active = true;
}

dispatch_automation-IsSettled_example :
    IsSettled (dispatch_automation unmarshal parse_uuid delivers world (nightly (bytes "full")))
    × All
        (λ m. IsEligible (nightly (bytes "full")) world.assets m.0)
        (dispatch_automation unmarshal parse_uuid delivers world (nightly (bytes "full"))).sent
dispatch_automation-IsSettled_example =
    dispatch_automation-IsSettled unmarshal parse_uuid delivers world (nightly (bytes "full")) tt
      refl

two_deployments :
    map
      (λ d. d.status)
      (dispatch_automation unmarshal parse_uuid delivers world (nightly (bytes "full"))).deployments
    ≡ dispatched ∷ failed ∷ []
unfolding open_all
two_deployments = refl

-- A payload without an operation deploys nothing.
missing_operation :
    dispatch_automation unmarshal parse_uuid delivers world (nightly (bytes "short")) ≡ world
unfolding open_all
missing_operation = refl
