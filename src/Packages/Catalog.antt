-- ===== src/Packages/Catalog.antt =====
-- internal/api/packages.go: the handlers that change a package, after the check of the role.
use arx_mdm.Prelude.{
  ℕ, suc, Bool, ◌&&◌, not, Option, none, some, List, [], ◌∷◌, ◌++◌, Text, text_eq, bytes, any, keep,
  ◌==◌, if◌then◌else◌, trim_space, to_lower, is_none,
}
use arx_mdm.Scheduler.Dispatch.{Package, World}

pub record CreatePackageRequest : Type 0 where
  pub name : Text
  pub version : Text
  pub type : Text
  pub install_cmd : Text

pub record PatchPackageRequest : Type 0 where
  pub name : Option Text
  pub version : Option Text
  pub type : Option Text
  pub install_cmd : Option Text

-- allowedPackageTypes, and the constraint packages_type_values.
unfoldable pub allowed_package_type : Text → Bool
allowed_package_type t =
    any (text_eq t)
      (bytes "winget" ∷ bytes "apt" ∷ bytes "dnf" ∷ bytes "choco" ∷ bytes "custom" ∷ [])

abbrev pub is_package : ℕ → Package → Bool
is_package k p = p.id == k

abbrev pub new_package : ℕ → CreatePackageRequest → Package
new_package k req = record {
  id = k;
  name = trim_space req.name;
  version = trim_space req.version;
  type = to_lower (trim_space req.type);
  install_cmd = trim_space req.install_cmd;
}

-- handleCreatePackage
unfoldable pub handle_create_package : CreatePackageRequest → World → ℕ × World
unfolding allowed_package_type
handle_create_package req w =
    let p = new_package w.next_id req in
    if text_eq p.name []
    then (400, w)
    else if not (allowed_package_type p.type)
    then (400, w)
    else if text_eq p.type (bytes "custom") && text_eq p.install_cmd []
    then (400, w)
    else (201, record w { packages = w.packages ++ p ∷ []; next_id = suc w.next_id })

abbrev pub or_old : Option Text → Text → Text
or_old none old = old
or_old (some s) old = s

abbrev pub trimmed : Option Text → Option Text
trimmed none = none
trimmed (some s) = some (trim_space s)

abbrev pub lowered : Option Text → Option Text
lowered none = none
lowered (some s) = some (to_lower (trim_space s))

abbrev pub is_given_blank : Option Text → Bool
is_given_blank o = elim o [ none ↦ Bool.false | some s ↦ text_eq s [] ]

abbrev pub is_bad_type : Option Text → Bool
is_bad_type o = elim o [ none ↦ Bool.false | some s ↦ not (allowed_package_type s) ]

-- The columns that the statement sets.
abbrev pub patched : PatchPackageRequest → Package → Package
patched req p = record p {
  name = or_old (trimmed req.name) p.name;
  version = or_old (trimmed req.version) p.version;
  type = or_old (lowered req.type) p.type;
  install_cmd = or_old (trimmed req.install_cmd) p.install_cmd;
}

unfoldable pub update_packages : ℕ → (Package → Package) → List Package → List Package
update_packages k change [] = []
update_packages k change (p ∷ ps) =
    (if p.id == k then change p else p) ∷ update_packages k change ps

-- handlePatchPackage
unfoldable pub handle_patch_package : Option ℕ → PatchPackageRequest → World → ℕ × World
unfolding allowed_package_type update_packages
handle_patch_package none req w = (400, w)
handle_patch_package (some k) req w =
    if is_none req.name && is_none req.version && is_none req.type && is_none req.install_cmd
    then (400, w)
    else if is_given_blank (trimmed req.name)
    then (400, w)
    else if is_bad_type (lowered req.type)
    then (400, w)
    else if not (any (is_package k) w.packages)
    then (404, w)
    else (200, record w { packages = update_packages k (patched req) w.packages })

-- handleDeletePackage, with the deployments that the cascade deletes.
unfoldable pub handle_delete_package : Option ℕ → World → ℕ × World
handle_delete_package none w = (400, w)
handle_delete_package (some k) w = if not (any (is_package k) w.packages) then (404, w) else (
  204,
  record w {
    packages = keep (λ p. not (is_package k p)) w.packages;
    deployments = keep (λ d. not (d.package_id == k)) w.deployments;
  },
)
