-- ===== src/Packages/Deployments.antt =====
-- handleCreateDeployment of internal/api/packages.go and the agent's report in
-- internal/ws/package_outcome.go. The column error_message is left out.
use arx_mdm.Prelude.{
  ℕ, suc, Bool, true, false, ◌&&◌, ◌||◌, not, Option, none, some, List, [], ◌∷◌, ◌++◌, Text,
  text_eq, bytes, any, ◌==◌, if◌then◌else◌, trim_space, to_lower,
}
use arx_mdm.Scheduler.Dispatch.{
  Asset, Package, DeploymentStatus, dispatched, succeeded, failed, Deployment, deploy_package,
  World, find_asset, find_package, set_status, new_deployment,
}

pub record CreateDeploymentRequest : Type 0 where
  pub asset_human_id : Text
  pub package_id : Text
  pub trigger_deploy : Bool
  pub operation : Text

-- The operation, `install` where none is given.
abbrev pub operation_or_install : Text → Text
operation_or_install raw =
    let op = to_lower (trim_space raw) in if text_eq op [] then bytes "install" else op

abbrev pub is_operation : Text → Bool
is_operation op = text_eq op (bytes "install") || text_eq op (bytes "uninstall")

-- The insertion, and with a trigger the dispatch and the status that follows; `delivers` is the hub's
-- DispatchJSONByHumanID, and false for all where there is no hub.
unfoldable pub insert_deployment :
    (Text → Bool) → CreateDeploymentRequest → Text → World → Asset → Package → World
unfolding set_status
insert_deployment delivers req h w asset pkg =
    let rows = w.deployments ++ new_deployment w asset pkg ∷ [] in
    if not req.trigger_deploy
    then record w { deployments = rows; next_id = suc w.next_id }
    else if delivers h
    then record w {
      deployments = set_status w.next_id dispatched rows;
      next_id = suc w.next_id;
      sent = w.sent ++ (h, deploy_package w.next_id (operation_or_install req.operation) pkg) ∷ [];
    }
    else record w { deployments = set_status w.next_id failed rows; next_id = suc w.next_id }

abbrev pub deploy_to :
    (Text → Bool)
    → CreateDeploymentRequest
    → Text
    → World
    → Option Asset
    → Option Package
    → ℕ × World
deploy_to delivers req h w (some asset) (some pkg) =
    (201, insert_deployment delivers req h w asset pkg)
deploy_to delivers req h w none pkg = (400, w)
deploy_to delivers req h w (some asset) none = (400, w)

abbrev pub deploy_id : (Text → Bool) → CreateDeploymentRequest → Text → World → Option ℕ → ℕ × World
deploy_id delivers req h w none = (400, w)
deploy_id delivers req h w (some k) =
    deploy_to delivers req h w (find_asset h w.assets) (find_package k w.packages)

pub record AgentPackageResult : Type 0 where
  pub type : Text
  pub deployment_id : Text
  pub is_ok : Bool

-- The asset of a deployment carries this certificate.
abbrev pub is_of_serial : Text → List Asset → Deployment → Bool
is_of_serial serial assets d =
    any
      (λ a. d.asset_id == a.id && (elim a.cert_serial [ none ↦ false | some c ↦ text_eq c serial ]))
      assets

-- UPDATE deployments … FROM assets
unfoldable pub update_outcome :
    ℕ → Text → DeploymentStatus → List Asset → List Deployment → List Deployment
update_outcome k serial status assets [] = []
update_outcome k serial status assets (d ∷ ds) =
    (if d.id == k && is_of_serial serial assets d then record d { status = status } else d)
    ∷ update_outcome k serial status assets ds

abbrev pub outcome_status : Bool → DeploymentStatus
outcome_status is_ok = if is_ok then succeeded else failed

abbrev pub apply_outcome : Text → Bool → Option ℕ → World → World
apply_outcome serial is_ok none w = w
apply_outcome serial is_ok (some k) w = if text_eq serial [] then w else record w {
  deployments = update_outcome k serial (outcome_status is_ok) w.assets w.deployments;
}

module _ (parse_uuid : Text → Option ℕ) where
  -- handleCreateDeployment
  unfoldable pub handle_create_deployment :
      (Text → Bool) → CreateDeploymentRequest → World → ℕ × World
  unfolding insert_deployment find_asset find_package
  handle_create_deployment delivers req w =
      let h = trim_space req.asset_human_id in
      if text_eq h [] || text_eq (trim_space req.package_id) []
      then (400, w)
      else if not (is_operation (operation_or_install req.operation))
      then (400, w)
      else deploy_id delivers req h w (parse_uuid (trim_space req.package_id))

  -- ApplyPackageDeploymentOutcome: whether the message was one of these. The report is none where it is
  -- no JSON.
  unfoldable pub apply_package_deployment_outcome :
      Text → Option AgentPackageResult → World → Bool × World
  unfolding update_outcome
  apply_package_deployment_outcome serial none w = (false, w)
  apply_package_deployment_outcome serial (some r) w =
      if not (text_eq (trim_space r.type) (bytes "package_result"))
      then (false, w)
      else if text_eq (trim_space r.deployment_id) []
      then (true, w)
      else (
        true,
        apply_outcome (trim_space serial) r.is_ok (parse_uuid (trim_space r.deployment_id)) w,
      )
