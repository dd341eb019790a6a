-- ===== src/Scheduler/Dispatch.antt =====
-- dispatchAutomation and what it calls. Audit records and logs are left out; statements of the database succeed.
use arx_mdm.Prelude.{
  ℕ, suc, Bool, false, ◌&&◌, ◌||◌, not, Option, none, some, List, [], ◌∷◌, ◌++◌, map, Text, text_eq,
  bytes, keep, ◌==◌, if◌then◌else◌, trim_space, to_lower,
}

pub record Asset : Type 0 where
  pub id : ℕ
  pub human_id : Text
  pub os_type : Text
  pub cert_serial : Option Text

pub record Package : Type 0 where
  pub id : ℕ
  pub name : Text
  pub version : Text
  pub type : Text
  pub install_cmd : Text

pub data DeploymentStatus : Type 0 where
  pending dispatched in_progress succeeded failed : DeploymentStatus

pub record Deployment : Type 0 where
  pub id : ℕ
  pub asset_id : ℕ
  pub package_id : ℕ
  pub status : DeploymentStatus

-- automationRow
pub record AutomationRow : Type 0 where
  pub id : ℕ
  pub action_type : Text
  pub target_os : Option Text
  pub target_asset_id : Option ℕ
  pub payload_json : Text
  pub is_active : Bool

-- What goes out over the hub.
pub data Downlink : Type 0 where
  shutdown : Downlink
  deploy_package : ℕ → Text → Package → Downlink

pub record World : Type 0 where
  pub assets : List Asset
  pub packages : List Package
  pub deployments : List Deployment
  pub next_id : ℕ
  pub sent : List (Text × Downlink)

-- A value of a JSON object: a string, or another one with the text that fmt.Sprint gives.
pub data Value : Type 0 where
  string_value : Text → Value
  other_value : Text → Value

-- fmt.Sprint of a value of a map; a missing one is nil.
unfoldable pub sprint : Option Value → Text
sprint none = bytes "<nil>"
sprint (some (string_value s)) = s
sprint (some (other_value t)) = t

abbrev pub string_of_value : Option Value → Text
string_of_value (some (string_value s)) = s
string_of_value _ = []

-- `cert_serial IS NOT NULL AND trim(cert_serial) <> ''`
abbrev pub has_cert_serial : Asset → Bool
has_cert_serial a = elim a.cert_serial [ none ↦ false | some c ↦ not (text_eq (trim_space c) []) ]

abbrev pub first_id : List Asset → List Text
first_id [] = []
first_id (a ∷ _) = trim_space a.human_id ∷ []

abbrev pub is_chosen : ℕ → Asset → Bool
is_chosen k a = a.id == k && has_cert_serial a

abbrev pub runs_os : Text → Asset → Bool
runs_os os a = text_eq a.os_type (trim_space (to_lower os)) && has_cert_serial a

abbrev pub nonblank_id : Text → Bool
nonblank_id h = not (text_eq h [])

abbrev pub human_id_of : Asset → Text
human_id_of a = trim_space a.human_id

-- resolveTargetHumanIDs, of the target's id and operating system; without either it is an error, none.
abbrev pub targets_of : List Asset → Option ℕ → Option Text → Option (List Text)
targets_of assets (some k) os = some (first_id (keep (is_chosen k) assets))
targets_of assets none (some os) =
    some (keep nonblank_id (map human_id_of (keep (runs_os os) assets)))
targets_of assets none none = none

unfoldable pub resolve_target_human_ids : List Asset → AutomationRow → Option (List Text)
resolve_target_human_ids assets row = targets_of assets row.target_asset_id row.target_os

unfoldable pub find_asset : Text → List Asset → Option Asset
find_asset h [] = none
find_asset h (a ∷ rest) = if text_eq a.human_id h then some a else find_asset h rest

unfoldable pub find_package : ℕ → List Package → Option Package
find_package k [] = none
find_package k (p ∷ ps) = if p.id == k then some p else find_package k ps

unfoldable pub set_status : ℕ → DeploymentStatus → List Deployment → List Deployment
set_status k status [] = []
set_status k status (d ∷ ds) =
    (if d.id == k then record d { status = status } else d) ∷ set_status k status ds

-- The operation of a deployment, none for one that is refused.
unfoldable pub operation_of : Option Value → Option Text
unfolding sprint
operation_of v =
    let op = to_lower (trim_space (sprint v)) in
    let chosen = if text_eq op [] then bytes "install" else op in
    if text_eq chosen (bytes "install") || text_eq chosen (bytes "uninstall")
    then some chosen
    else none

abbrev pub new_deployment : World → Asset → Package → Deployment
new_deployment w asset pkg = record {
  id = w.next_id;
  asset_id = asset.id;
  package_id = pkg.id;
  status = pending;
}

-- `unmarshal` is json.Unmarshal into a map, `parse_uuid` uuid.Parse, and `delivers` says whether
-- DispatchJSONByHumanID succeeds for a human id.
module _ (unmarshal : Text → Option (Text → Option Value)) (parse_uuid : Text → Option ℕ)
    (delivers : Text → Bool) where
  -- dispatchShutdown
  unfoldable pub dispatch_shutdown : World → Text → World
  dispatch_shutdown w h = if delivers h then record w { sent = w.sent ++ (h, shutdown) ∷ [] } else w

  -- The insertion, the dispatch and the update that follows it.
  unfoldable pub deploy : World → Text → Text → Asset → Package → World
  unfolding set_status
  deploy w h op asset pkg =
      let rows = w.deployments ++ new_deployment w asset pkg ∷ [] in
      if delivers h
      then record w {
        deployments = set_status w.next_id dispatched rows;
        next_id = suc w.next_id;
        sent = w.sent ++ (h, deploy_package w.next_id op pkg) ∷ [];
      }
      else record w { deployments = set_status w.next_id failed rows; next_id = suc w.next_id }

  abbrev pub payload_of : Text → Option (Text → Option Value)
  payload_of json = if text_eq json [] then some (λ _. none) else unmarshal json

  abbrev pub deploy_found : World → Text → Text → Option Asset → Option Package → World
  deploy_found w h op (some asset) (some pkg) = deploy w h op asset pkg
  deploy_found w h op _ _ = w

  abbrev pub deploy_payload : World → Text → Option ℕ → Option Text → World
  deploy_payload w h (some pkg_id) (some op) =
      deploy_found w h op (find_asset h w.assets) (find_package pkg_id w.packages)
  deploy_payload w h _ _ = w

  -- dispatchDeploy
  unfoldable pub dispatch_deploy : World → AutomationRow → Text → World
  unfolding find_asset find_package operation_of deploy
  dispatch_deploy w row h = elim (payload_of row.payload_json) [
    | none ↦ w
    | some payload ↦
        deploy_payload w h
          (parse_uuid (trim_space (string_of_value (payload (bytes "package_id")))))
          (operation_of (payload (bytes "operation")))
  ]

  -- One target.
  unfoldable pub dispatch_action : World → AutomationRow → Text → World
  unfolding dispatch_shutdown dispatch_deploy
  dispatch_action w row h =
      let action = trim_space (to_lower row.action_type) in
      if text_eq action (bytes "shutdown")
      then dispatch_shutdown w h
      else if text_eq action (bytes "deploy_package")
      then dispatch_deploy w row h
      else w

  unfoldable pub dispatch_all : World → AutomationRow → List Text → World
  unfolding dispatch_action
  dispatch_all w row [] = w
  dispatch_all w row (h ∷ hs) = dispatch_all (dispatch_action w row h) row hs

  -- dispatchAutomation, on the row that it reads.
  unfoldable pub dispatch_automation : World → AutomationRow → World
  unfolding resolve_target_human_ids dispatch_all
  dispatch_automation w row =
      if not row.is_active then w else elim (resolve_target_human_ids w.assets row) [
        | none ↦ w
        | some hs ↦ dispatch_all w row hs
      ]
