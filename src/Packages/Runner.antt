-- ===== src/Packages/Runner.antt =====
-- pkg/packagemanager/runner.go: the command line of an installation or a removal, and
-- runDeployPackage of internal/ws/agent_handlers.go up to its run.
use arx_mdm.Prelude.{
  Bool, not, Option, none, some, List, [], ◌∷◌, ◌++◌, Text, text_eq, bytes, has_prefix, drop,
  is_space, if◌then◌else◌, trim_space, to_lower,
}

-- strings.Fields
unfoldable pub fields_from : Text → Text → List Text
fields_from [] word = if text_eq word [] then [] else word ∷ []
fields_from (c ∷ s) word =
    let more = fields_from s (word ++ c ∷ []) in
    let next = fields_from s [] in
    if is_space c then (if text_eq word [] then next else word ∷ next) else more

-- The device: the tools that resolveWinget and the others find, filepath.IsAbs, and os.Stat for a
-- path that is there and no directory.
pub record Host : Type 0 where
  pub winget : Option Text
  pub choco : Option Text
  pub apt : Option Text
  pub dnf : Option Text
  pub is_abs : Text → Bool
  pub is_file : Text → Bool

abbrev pub Argv : Type 0
Argv = Option (List Text)

abbrev pub with_tool : Option Text → List Text → Argv
with_tool none args = none
with_tool (some tool) args = some (tool ∷ args)

module _ (d : Host) where
  abbrev pub checked : List Text → Argv
  checked [] = none
  checked (p ∷ args) =
      if not (d.is_abs p) then none else if d.is_file p then some (p ∷ args) else none

  -- argvFromInstallCmd
  unfoldable pub argv_from_install_cmd : Text → Argv
  unfolding fields_from
  argv_from_install_cmd cmd =
      if text_eq (trim_space cmd) [] then none else checked (fields_from (trim_space cmd) [])

  abbrev pub version_args : Text → List Text
  version_args version = if text_eq version [] then [] else bytes "--version" ∷ version ∷ []

  abbrev pub winget_install : Text → Text → Argv
  winget_install name version =
      if has_prefix name (bytes "wingetname:")
      then with_tool d.winget (
          bytes "install"
          ∷ bytes "--name"
          ∷ trim_space (drop 11 name)
          ∷ bytes "--accept-package-agreements"
          ∷ bytes "--accept-source-agreements"
          ∷ bytes "--silent"
          ∷ [])
      else with_tool d.winget (
          (bytes "install"
            ∷ bytes "--id"
            ∷ name
            ∷ bytes "--accept-package-agreements"
            ∷ bytes "--accept-source-agreements"
            ∷ bytes "--silent"
            ∷ [])
          ++ version_args version)

  abbrev pub winget_uninstall : Text → Argv
  winget_uninstall name =
      if has_prefix name (bytes "wingetname:")
      then with_tool d.winget (
          bytes "uninstall"
          ∷ bytes "--name"
          ∷ trim_space (drop 11 name)
          ∷ bytes "--silent"
          ∷ bytes "--accept-source-agreements"
          ∷ [])
      else with_tool d.winget (
          bytes "uninstall"
          ∷ bytes "--id"
          ∷ name
          ∷ bytes "--silent"
          ∷ bytes "--accept-source-agreements"
          ∷ [])

  -- argvInstall
  unfoldable pub argv_install : Text → Text → Text → Text → Argv
  unfolding argv_from_install_cmd
  argv_install raw_type raw_name raw_version cmd =
      let type = to_lower (trim_space raw_type) in
      let name = trim_space raw_name in
      if text_eq type (bytes "winget")
      then winget_install name (trim_space raw_version)
      else if text_eq type (bytes "choco")
      then with_tool d.choco (bytes "install" ∷ name ∷ bytes "-y" ∷ [])
      else if text_eq type (bytes "apt")
      then with_tool d.apt (bytes "install" ∷ bytes "-y" ∷ name ∷ [])
      else if text_eq type (bytes "dnf")
      then with_tool d.dnf (bytes "install" ∷ bytes "-y" ∷ name ∷ [])
      else if text_eq type (bytes "custom")
      then argv_from_install_cmd cmd
      else none

  -- argvUninstall
  unfoldable pub argv_uninstall : Text → Text → Text → Text → Argv
  unfolding argv_from_install_cmd
  argv_uninstall raw_type raw_name raw_version cmd =
      let type = to_lower (trim_space raw_type) in
      let name = trim_space raw_name in
      if text_eq type (bytes "winget")
      then winget_uninstall name
      else if text_eq type (bytes "choco")
      then with_tool d.choco (bytes "uninstall" ∷ name ∷ bytes "-y" ∷ [])
      else if text_eq type (bytes "apt")
      then with_tool d.apt (bytes "remove" ∷ bytes "-y" ∷ name ∷ [])
      else if text_eq type (bytes "dnf")
      then with_tool d.dnf (bytes "remove" ∷ bytes "-y" ∷ name ∷ [])
      else if text_eq type (bytes "custom")
      then argv_from_install_cmd cmd
      else none

  -- handleDeployPackage and runDeployPackage: what is run for a deployment's message.
  unfoldable pub run_deploy_package : Text → Text → Text → Text → Text → Argv
  unfolding argv_install argv_uninstall
  run_deploy_package operation type name version cmd =
      let lower = trim_space (to_lower operation) in
      let op = if text_eq lower [] then bytes "install" else lower in
      if text_eq op (bytes "install")
      then argv_install type name version cmd
      else if text_eq op (bytes "uninstall")
      then argv_uninstall type name version cmd
      else none
