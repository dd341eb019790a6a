-- ===== src/Packages/Allowlist.antt =====
-- What the agent may run for a deployment.
use arx_mdm.Prelude.{
  ◌≡◌, refl, inl, inr, ◌⊎◌, true, Option, none, some, List, [], ◌∷◌, Text, text_eq, bytes,
  has_prefix, Bool-cases, if◌then◌else◌, trim_space, to_lower,
}
use arx_mdm.Packages.Runner.{
  Host, Argv, with_tool, checked, argv_from_install_cmd, fields_from, winget_install,
  winget_uninstall, argv_install, argv_uninstall, run_deploy_package,
}

-- A tool that was found on the device, or an absolute path to a file.
abbrev pub IsAllowed : Host → Text → Type 0
IsAllowed d p =
    (d.winget ≡ some p)
    ⊎ (d.choco ≡ some p)
    ⊎ (d.apt ≡ some p)
    ⊎ (d.dnf ≡ some p)
    ⊎ ((d.is_abs p ≡ true) × (d.is_file p ≡ true))

-- Nothing is run, or the first word is allowed.
abbrev pub RunsAllowed : Host → Argv → Type 0
RunsAllowed d none = Unit
RunsAllowed d (some []) = ⊥
RunsAllowed d (some (p ∷ args)) = IsAllowed d p

with_tool-RunsAllowed :
    (d : Host) (tool : Option Text) (args : List Text)
    → ((p : Text) → tool ≡ some p → IsAllowed d p)
    → RunsAllowed d (with_tool tool args)
with_tool-RunsAllowed d none args f = tt
with_tool-RunsAllowed d (some p) args f = f p refl

checked-RunsAllowed : (d : Host) (args : List Text) → RunsAllowed d (checked d args)
checked-RunsAllowed d [] = tt
checked-RunsAllowed d (p ∷ args) = elim (Bool-cases (d.is_abs p)) [
  | inr e ↦ rw e tt
  | inl e ↦ elim (Bool-cases (d.is_file p)) [
    | inr f ↦ rw (e, f) tt
    | inl f ↦ rw (e, f) (inr (inr (inr (inr (e, f)))))
  ]
]

custom-RunsAllowed : (d : Host) (cmd : Text) → RunsAllowed d (argv_from_install_cmd d cmd)
unfolding argv_from_install_cmd
custom-RunsAllowed d cmd = elim (Bool-cases (text_eq (trim_space cmd) [])) [
  | inl e ↦ rw (argv_from_install_cmd, e) tt
  | inr e ↦ rw (argv_from_install_cmd, e) (checked-RunsAllowed d (fields_from (trim_space cmd) []))
]

-- The switch on the type, of install and uninstall alike.
abbrev by_type : Text → Argv → Argv → Argv → Argv → Argv → Argv
by_type type winget choco apt dnf custom =
    if text_eq type (bytes "winget")
    then winget
    else if text_eq type (bytes "choco")
    then choco
    else if text_eq type (bytes "apt")
    then apt
    else if text_eq type (bytes "dnf")
    then dnf
    else if text_eq type (bytes "custom")
    then custom
    else none

by_type-RunsAllowed :
    (d : Host) (type : Text) (winget choco apt dnf custom : Argv)
    → RunsAllowed d winget
    → RunsAllowed d choco
    → RunsAllowed d apt
    → RunsAllowed d dnf
    → RunsAllowed d custom
    → RunsAllowed d (by_type type winget choco apt dnf custom)
by_type-RunsAllowed d type winget choco apt dnf custom a b c e f =
    elim (Bool-cases (text_eq type (bytes "winget"))) [
      | inl u ↦ rw u a
      | inr u ↦ elim (Bool-cases (text_eq type (bytes "choco"))) [
        | inl v ↦ rw (u, v) b
        | inr v ↦ elim (Bool-cases (text_eq type (bytes "apt"))) [
          | inl x ↦ rw (u, v, x) c
          | inr x ↦ elim (Bool-cases (text_eq type (bytes "dnf"))) [
            | inl y ↦ rw (u, v, x, y) e
            | inr y ↦ elim (Bool-cases (text_eq type (bytes "custom"))) [
              | inl z ↦ rw (u, v, x, y, z) f
              | inr z ↦ rw (u, v, x, y, z) tt
            ]
          ]
        ]
      ]
    ]

winget_install-RunsAllowed :
    (d : Host) (name version : Text) → RunsAllowed d (winget_install d name version)
winget_install-RunsAllowed d name version =
    elim (Bool-cases (has_prefix name (bytes "wingetname:"))) [
      | inl e ↦ rw e (with_tool-RunsAllowed d d.winget _ (λ p e. inl e))
      | inr e ↦ rw e (with_tool-RunsAllowed d d.winget _ (λ p e. inl e))
    ]

winget_uninstall-RunsAllowed : (d : Host) (name : Text) → RunsAllowed d (winget_uninstall d name)
winget_uninstall-RunsAllowed d name = elim (Bool-cases (has_prefix name (bytes "wingetname:"))) [
  | inl e ↦ rw e (with_tool-RunsAllowed d d.winget _ (λ p e. inl e))
  | inr e ↦ rw e (with_tool-RunsAllowed d d.winget _ (λ p e. inl e))
]

argv_install-RunsAllowed :
    (d : Host) (type name version cmd : Text) → RunsAllowed d (argv_install d type name version cmd)
unfolding argv_install
argv_install-RunsAllowed d type name version cmd =
    by_type-RunsAllowed d (to_lower (trim_space type))
      (winget_install d (trim_space name) (trim_space version))
      (with_tool d.choco (bytes "install" ∷ trim_space name ∷ bytes "-y" ∷ []))
      (with_tool d.apt (bytes "install" ∷ bytes "-y" ∷ trim_space name ∷ []))
      (with_tool d.dnf (bytes "install" ∷ bytes "-y" ∷ trim_space name ∷ []))
      (argv_from_install_cmd d cmd)
      (winget_install-RunsAllowed d (trim_space name) (trim_space version))
      (with_tool-RunsAllowed d d.choco (bytes "install" ∷ trim_space name ∷ bytes "-y" ∷ [])
        (λ p e. inr (inl e)))
      (with_tool-RunsAllowed d d.apt (bytes "install" ∷ bytes "-y" ∷ trim_space name ∷ [])
        (λ p e. inr (inr (inl e))))
      (with_tool-RunsAllowed d d.dnf (bytes "install" ∷ bytes "-y" ∷ trim_space name ∷ [])
        (λ p e. inr (inr (inr (inl e)))))
      (custom-RunsAllowed d cmd)

argv_uninstall-RunsAllowed :
    (d : Host) (type name version cmd : Text)
    → RunsAllowed d (argv_uninstall d type name version cmd)
unfolding argv_uninstall
argv_uninstall-RunsAllowed d type name version cmd =
    by_type-RunsAllowed d (to_lower (trim_space type)) (winget_uninstall d (trim_space name))
      (with_tool d.choco (bytes "uninstall" ∷ trim_space name ∷ bytes "-y" ∷ []))
      (with_tool d.apt (bytes "remove" ∷ bytes "-y" ∷ trim_space name ∷ []))
      (with_tool d.dnf (bytes "remove" ∷ bytes "-y" ∷ trim_space name ∷ []))
      (argv_from_install_cmd d cmd) (winget_uninstall-RunsAllowed d (trim_space name))
      (with_tool-RunsAllowed d d.choco (bytes "uninstall" ∷ trim_space name ∷ bytes "-y" ∷ [])
        (λ p e. inr (inl e)))
      (with_tool-RunsAllowed d d.apt (bytes "remove" ∷ bytes "-y" ∷ trim_space name ∷ [])
        (λ p e. inr (inr (inl e))))
      (with_tool-RunsAllowed d d.dnf (bytes "remove" ∷ bytes "-y" ∷ trim_space name ∷ [])
        (λ p e. inr (inr (inr (inl e)))))
      (custom-RunsAllowed d cmd)

-- For a deployment's message, whatever it holds, the agent runs nothing, or a command whose first word
-- is the path of a package manager that was found on the device or is an absolute path to a file.
pub run_deploy_package-RunsAllowed :
    (d : Host) (operation type name version cmd : Text)
    → RunsAllowed d (run_deploy_package d operation type name version cmd)
unfolding run_deploy_package
run_deploy_package-RunsAllowed d operation type name version cmd =
    let lower = trim_space (to_lower operation) in
    let op = if text_eq lower [] then bytes "install" else lower in
    elim (Bool-cases (text_eq op (bytes "install"))) [
      | inl e ↦ rw (run_deploy_package, e) (argv_install-RunsAllowed d type name version cmd)
      | inr e ↦ elim (Bool-cases (text_eq op (bytes "uninstall"))) [
        | inl f ↦ rw (run_deploy_package, e, f) (argv_uninstall-RunsAllowed d type name version cmd)
        | inr f ↦ rw (run_deploy_package, e, f) tt
      ]
    ]

-- A custom package is removed by the command that installs it.
argv_uninstall-custom :
    (d : Host) (name version cmd : Text)
    → argv_uninstall d (bytes "custom") name version cmd
      ≡ argv_install d (bytes "custom") name version cmd
unfolding argv_install argv_uninstall text_eq to_lower trim_space
argv_uninstall-custom d name version cmd = refl
