-- ===== src/Packages/Calls.antt =====
-- The calls of packages and deployments and the agents' reports, in any order.
use arx_mdm.Prelude.{ℕ, Bool, Option, List, [], ◌∷◌, Text}
use arx_mdm.Scheduler.Dispatch.{World}
use arx_mdm.Packages.Catalog.{
  CreatePackageRequest, PatchPackageRequest, handle_create_package, handle_patch_package,
  handle_delete_package,
}
use arx_mdm.Packages.Deployments.{
  CreateDeploymentRequest, AgentPackageResult, handle_create_deployment,
  apply_package_deployment_outcome,
}

-- A call with whether the hub delivers to a device, or a report with the certificate of its sender.
pub data Call : Type 0 where
  create_package : CreatePackageRequest → Call
  patch_package : Option ℕ → PatchPackageRequest → Call
  delete_package : Option ℕ → Call
  create_deployment : (Text → Bool) → CreateDeploymentRequest → Call
  report : Text → Option AgentPackageResult → Call

module _ (parse_uuid : Text → Option ℕ) where
  unfoldable pub step : Call → World → World
  unfolding handle_create_package handle_patch_package handle_delete_package
      handle_create_deployment apply_package_deployment_outcome
  step (create_package req) w = (handle_create_package req w).1
  step (patch_package k req) w = (handle_patch_package k req w).1
  step (delete_package k) w = (handle_delete_package k w).1
  step (create_deployment delivers req) w = (handle_create_deployment parse_uuid delivers req w).1
  step (report serial r) w = (apply_package_deployment_outcome parse_uuid serial r w).1

  unfoldable pub run : List Call → World → World
  unfolding step
  run [] w = w
  run (c ∷ cs) w = run cs (step c w)
