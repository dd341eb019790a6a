-- ===== src/Packages/Reports.antt =====
-- An agent's report and the other devices.
use arx_mdm.Prelude.{
  ℕ, ◌≡◌, refl, inl, inr, Bool, not, Option, none, some, List, [], ◌∷◌, Text, text_eq, bytes, keep,
  Bool-cases, ◌==◌, trim_space,
}
use arx_mdm.Scheduler.Dispatch.{Asset, DeploymentStatus, Deployment, World}
use arx_mdm.Packages.Deployments.{
  AgentPackageResult, is_of_serial, update_outcome, outcome_status, apply_outcome,
  apply_package_deployment_outcome,
}

abbrev pub of_others : Text → World → List Deployment
of_others serial w = keep (λ d. not (is_of_serial serial w.assets d)) w.deployments

update_outcome-others :
    (k : ℕ) (serial : Text) (status : DeploymentStatus) (assets : List Asset) (ds : List Deployment)
    → keep (λ d. not (is_of_serial serial assets d)) (update_outcome k serial status assets ds)
      ≡ keep (λ d. not (is_of_serial serial assets d)) ds
unfolding update_outcome
update_outcome-others k serial status assets [] = refl
update_outcome-others k serial status assets (d ∷ ds) =
    let rest = update_outcome-others k serial status assets ds in
    elim (Bool-cases (is_of_serial serial assets d)) [
      | inr e ↦ elim (Bool-cases (d.id == k)) [
        | inl f ↦ rw (update_outcome, e, f) (rw (e, rest) refl)
        | inr f ↦ rw (update_outcome, e, f) (rw (e, rest) refl)
      ]
      | inl e ↦ elim (Bool-cases (d.id == k)) [
        | inl f ↦ rw (update_outcome, e, f) (rw e rest)
        | inr f ↦ rw (update_outcome, e, f) (rw e rest)
      ]
    ]

abbrev pub ChangesOnlyOwn : Text → World → World → Type 0
ChangesOnlyOwn serial w w' =
    (of_others serial w' ≡ of_others serial w)
    × (w'.assets ≡ w.assets)
    × (w'.packages ≡ w.packages)
    × (w'.sent ≡ w.sent)
    × (w'.next_id ≡ w.next_id)

apply_outcome-others :
    (serial : Text) (is_ok : Bool) (k : Option ℕ) (w : World)
    → ChangesOnlyOwn serial w (apply_outcome serial is_ok k w)
apply_outcome-others serial is_ok none w = (refl, refl, refl, refl, refl)
apply_outcome-others serial is_ok (some k) w = elim (Bool-cases (text_eq serial [])) [
  | inl e ↦ rw e (refl, refl, refl, refl, refl)
  | inr e ↦ rw e (
    update_outcome-others k serial (outcome_status is_ok) w.assets w.deployments,
    refl,
    refl,
    refl,
    refl,
  )
]

-- A report, whatever it says and whatever ids it names, changes no deployment of a device without the
-- sender's certificate, and nothing but deployments.
pub apply_package_deployment_outcome-others :
    (parse_uuid : Text → Option ℕ) (serial : Text) (r : Option AgentPackageResult) (w : World)
    → ChangesOnlyOwn
        (trim_space serial)
        w
        (apply_package_deployment_outcome parse_uuid serial r w).1
unfolding apply_package_deployment_outcome
apply_package_deployment_outcome-others parse_uuid serial none w = (refl, refl, refl, refl, refl)
apply_package_deployment_outcome-others parse_uuid serial (some r) w =
    elim (Bool-cases (text_eq (trim_space r.type) (bytes "package_result"))) [
      | inr e ↦ rw (apply_package_deployment_outcome, e) (refl, refl, refl, refl, refl)
      | inl e ↦ elim (Bool-cases (text_eq (trim_space r.deployment_id) [])) [
        | inl f ↦ rw (apply_package_deployment_outcome, e, f) (refl, refl, refl, refl, refl)
        | inr f ↦
            rw (apply_package_deployment_outcome, e, f)
              (apply_outcome-others (trim_space serial) r.is_ok
                (parse_uuid (trim_space r.deployment_id)) w)
      ]
    ]
