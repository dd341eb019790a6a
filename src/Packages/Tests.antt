-- ===== src/Packages/Tests.antt =====
-- A package, its deployment to two devices, and their reports.
use arx_mdm.Prelude.{
  ℕ, ◌≡◌, refl, true, Option, none, some, List, [], ◌∷◌, map, arith, Text, text_eq, bytes,
  trim_space, to_lower,
}
use arx_mdm.Scheduler.Dispatch.{
  DeploymentStatus, dispatched, succeeded, Deployment, World, find_asset, find_package, set_status,
}
use arx_mdm.Packages.Catalog.{allowed_package_type, handle_patch_package, update_packages}
use arx_mdm.Packages.Deployments.{
  AgentPackageResult, update_outcome, apply_package_deployment_outcome,
}
use arx_mdm.Packages.Calls.{Call, create_package, create_deployment, report, step, run}
use arx_mdm.Packages.Runner.{
  Host, fields_from, argv_from_install_cmd, argv_install, argv_uninstall, run_deploy_package,
}
use arx_mdm.Packages.Sound.{IsSound}
use arx_mdm.Packages.Invariant.{run-IsSound}
use arx_mdm.Packages.Reports.{ChangesOnlyOwn, apply_package_deployment_outcome-others}
use arx_mdm.Packages.Allowlist.{RunsAllowed, run_deploy_package-RunsAllowed}

abbrev parse_uuid : Text → Option ℕ
parse_uuid [] = none
parse_uuid (c ∷ s) = some c

-- Device 1 and device 2, with a deployment each.
abbrev world : World
world = record {
  assets =
      record {
        id = 1;
        human_id = bytes "D-1";
        os_type = bytes "linux";
        cert_serial = some (bytes "a1");
      }
      ∷ record {
        id = 2;
        human_id = bytes "D-2";
        os_type = bytes "linux";
        cert_serial = some (bytes "a2");
      }
      ∷ [];
  packages =
      record {
        id = 65;
        name = bytes "vim";
        version = bytes "9";
        type = bytes "apt";
        install_cmd = [];
      }
      ∷ [];
  deployments =
      record { id = 66; asset_id = 1; package_id = 65; status = dispatched }
      ∷ record { id = 67; asset_id = 2; package_id = 65; status = dispatched }
      ∷ [];
  next_id = 70;
  sent = [];
}

open_all : Unit {0}
unfolding text_eq trim_space to_lower allowed_package_type step find_asset find_package set_status
    update_outcome update_packages handle_patch_package apply_package_deployment_outcome fields_from
    argv_from_install_cmd argv_install argv_uninstall run_deploy_package
open_all = tt

world-IsSound : IsSound world
unfolding open_all
world-IsSound = record {
  placed = ((refl, refl, omega arith), ((refl, refl, omega arith), tt));
  apart = ((omega arith, tt), (tt, tt));
  named = ((refl, refl), tt);
}

abbrev done : Text → AgentPackageResult
done id = record { type = bytes "package_result"; deployment_id = id; is_ok = true }

abbrev calls : List Call
calls =
    create_package (record {
      name = bytes " tool ";
      version = [];
      type = bytes "Custom";
      install_cmd = bytes "/opt/tool";
    })
    ∷ create_deployment (λ h. true)
        (record {
          asset_human_id = bytes "D-1";
          package_id = bytes "A";
          trigger_deploy = true;
          operation = [];
        })
    ∷ report (bytes "a1") (some (done (bytes "B")))
    ∷ []

run-IsSound_example : IsSound (run parse_uuid calls world)
run-IsSound_example = run-IsSound parse_uuid calls world world-IsSound

statuses : World → List DeploymentStatus
statuses w = map (λ d. d.status) w.deployments

-- Device 1 reports its own deployment, and then names that of device 2.
reported :
    statuses (run parse_uuid (report (bytes "a1") (some (done (bytes "B"))) ∷ []) world)
    ≡ succeeded ∷ dispatched ∷ []
unfolding open_all run statuses
reported = refl

foreign :
    statuses (run parse_uuid (report (bytes "a1") (some (done (bytes "C"))) ∷ []) world)
    ≡ dispatched ∷ dispatched ∷ []
unfolding open_all run statuses
foreign = refl

apply_package_deployment_outcome-others_example :
    ChangesOnlyOwn
      (trim_space (bytes "a1"))
      world
      (apply_package_deployment_outcome parse_uuid (bytes "a1") (some (done (bytes "B"))) world).1
apply_package_deployment_outcome-others_example =
    apply_package_deployment_outcome-others parse_uuid (bytes "a1") (some (done (bytes "B"))) world

-- A patch may turn a package into a custom one without a command, which a creation refuses.
patched_custom :
    (handle_patch_package
      (some 65)
      (record { name = none; version = none; type = some (bytes "custom"); install_cmd = none })
      world).0
    ≡ 200
unfolding open_all
patched_custom = refl

-- The record of the dispatch, where it comes after the report.
late_dispatch :
    map
      (λ (d : Deployment). d.status)
      (set_status 66 dispatched
        (apply_package_deployment_outcome parse_uuid
          (bytes "a1")
          (some (done (bytes "B")))
          world).1.deployments)
    ≡ dispatched ∷ dispatched ∷ []
unfolding open_all
late_dispatch = refl

abbrev laptop : Host
laptop = record {
  winget = none;
  choco = none;
  apt = some (bytes "/usr/bin/apt-get");
  dnf = none;
  is_abs = λ p. true;
  is_file = λ p. text_eq p (bytes "/opt/tool");
}

removed :
    run_deploy_package laptop (bytes "Uninstall") (bytes "apt") (bytes " vim ") [] []
    ≡ some (bytes "/usr/bin/apt-get" ∷ bytes "remove" ∷ bytes "-y" ∷ bytes "vim" ∷ [])
unfolding open_all
removed = refl

split_command :
    run_deploy_package laptop [] (bytes "custom") [] [] (bytes "/opt/tool  -q all ")
    ≡ some (bytes "/opt/tool" ∷ bytes "-q" ∷ bytes "all" ∷ [])
unfolding open_all
split_command = refl

run_deploy_package-RunsAllowed_example :
    RunsAllowed laptop
      (run_deploy_package laptop (bytes "install") (bytes "apt") (bytes "vim") [] [])
run_deploy_package-RunsAllowed_example =
    run_deploy_package-RunsAllowed laptop (bytes "install") (bytes "apt") (bytes "vim") [] []
