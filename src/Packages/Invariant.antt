-- ===== src/Packages/Invariant.antt =====
-- What every call and report leaves true.
use arx_mdm.Prelude.{
  ℕ, suc, ◌≡◌, refl, inl, inr, Bool, true, ◌&&◌, ◌||◌, Option, none, some, List, [], ◌∷◌, ◌++◌,
  Text, text_eq, bytes, All, All-append, any, Bool-cases, ==_iff, arith, ◌==◌, trim_space,
}
use arx_mdm.Prelude.Sort.{Pairs}
use arx_mdm.Prelude.Rows.{All-map, append-Pairs}
use arx_mdm.Scheduler.Dispatch.{
  Asset, Package, DeploymentStatus, dispatched, failed, Deployment, World, find_asset, find_package,
  set_status, new_deployment,
}
use arx_mdm.Packages.Catalog.{is_package}
use arx_mdm.Packages.Calls.{
  Call, create_package, patch_package, delete_package, create_deployment, report, step, run,
}
use arx_mdm.Packages.Deployments.{
  CreateDeploymentRequest, AgentPackageResult, operation_or_install, is_operation,
  insert_deployment, deploy_to, deploy_id, is_of_serial, update_outcome, outcome_status,
  apply_outcome, handle_create_deployment, apply_package_deployment_outcome,
}
use arx_mdm.Packages.Sound.{
  has_id, IsPlaced, AreApart, IsSound, handle_create_package-IsSound, handle_patch_package-IsSound,
  handle_delete_package-IsSound,
}

-- A change of statuses keeps what does not read them.
set_status-All :
    (P : Deployment → Type 0) (k : ℕ) (status : DeploymentStatus) (ds : List Deployment)
    → ((d : Deployment) → P d → P (record d { status = status }))
    → All P ds
    → All P (set_status k status ds)
unfolding set_status
set_status-All P k status [] f h = tt
set_status-All P k status (d ∷ ds) f h = elim (Bool-cases (d.id == k)) [
  | inl e ↦ rw (set_status, e) (f d h.0, set_status-All P k status ds f h.1)
  | inr e ↦ rw (set_status, e) (h.0, set_status-All P k status ds f h.1)
]

set_status-Pairs :
    (k : ℕ) (status : DeploymentStatus) (ds : List Deployment)
    → Pairs AreApart ds
    → Pairs AreApart (set_status k status ds)
unfolding set_status
set_status-Pairs k status [] h = tt
set_status-Pairs k status (d ∷ ds) h =
    let rest = set_status-Pairs k status ds h.1 in
    elim (Bool-cases (d.id == k)) [
      | inl e ↦
          rw (set_status, e)
            (
              set_status-All (AreApart (record d { status = status })) k status ds (λ b o. o) h.0,
              rest,
            )
      | inr e ↦ rw (set_status, e) (set_status-All (AreApart d) k status ds (λ b o. o) h.0, rest)
    ]

update_outcome-All :
    (P : Deployment → Type 0) (k : ℕ) (serial : Text) (status : DeploymentStatus)
    (assets : List Asset) (ds : List Deployment)
    → ((d : Deployment) → P d → P (record d { status = status }))
    → All P ds
    → All P (update_outcome k serial status assets ds)
unfolding update_outcome
update_outcome-All P k serial status assets [] f h = tt
update_outcome-All P k serial status assets (d ∷ ds) f h =
    let rest = update_outcome-All P k serial status assets ds f h.1 in
    elim (Bool-cases (d.id == k && is_of_serial serial assets d)) [
      | inl e ↦ rw (update_outcome, e) (f d h.0, rest)
      | inr e ↦ rw (update_outcome, e) (h.0, rest)
    ]

update_outcome-Pairs :
    (k : ℕ) (serial : Text) (status : DeploymentStatus) (assets : List Asset) (ds : List Deployment)
    → Pairs AreApart ds
    → Pairs AreApart (update_outcome k serial status assets ds)
unfolding update_outcome
update_outcome-Pairs k serial status assets [] h = tt
update_outcome-Pairs k serial status assets (d ∷ ds) h =
    let rest = update_outcome-Pairs k serial status assets ds h.1 in
    let others = update_outcome-All (AreApart d) k serial status assets ds (λ b o. o) h.0 in
    elim (Bool-cases (d.id == k && is_of_serial serial assets d)) [
      | inl e ↦ rw (update_outcome, e) (others, rest)
      | inr e ↦ rw (update_outcome, e) (others, rest)
    ]

abbrev inserted : World → Asset → Package → World
inserted w a p = record w {
  deployments = w.deployments ++ new_deployment w a p ∷ [];
  next_id = suc w.next_id;
}

inserted-IsSound :
    (w : World) (a : Asset) (p : Package)
    → any (has_id a.id) w.assets ≡ true
    → any (is_package p.id) w.packages ≡ true
    → IsSound w
    → IsSound (inserted w a p)
inserted-IsSound w a p x y s = record {
  placed =
      All-append (IsPlaced (inserted w a p)) w.deployments _
        (All-map (IsPlaced w) _ w.deployments (λ d h. (h.0, h.1, omega (arith, h.2))) s.placed)
        ((x, y, omega arith), tt);
  apart =
      append-Pairs AreApart w.deployments (new_deployment w a p) s.apart
        (All-map (IsPlaced w) _ w.deployments (λ d h e. omega (arith, h.2, e)) s.placed);
  named = s.named;
}

-- The dispatch, with anything sent.
dispatched-IsSound :
    (w : World) (a : Asset) (p : Package) (status : DeploymentStatus)
    → IsSound (inserted w a p)
    → IsSound (record w {
      deployments = set_status w.next_id status (inserted w a p).deployments;
      next_id = suc w.next_id;
    })
dispatched-IsSound w a p status s = record {
  placed =
      set_status-All (IsPlaced (inserted w a p)) w.next_id status (inserted w a p).deployments
        (λ d h. h) s.placed;
  apart = set_status-Pairs w.next_id status (inserted w a p).deployments s.apart;
  named = s.named;
}

insert_deployment-IsSound :
    (delivers : Text → Bool) (req : CreateDeploymentRequest) (h : Text) (w : World) (a : Asset)
    (p : Package)
    → IsSound (inserted w a p)
    → IsSound (insert_deployment delivers req h w a p)
unfolding insert_deployment
insert_deployment-IsSound delivers req h w a p s = elim (Bool-cases req.trigger_deploy) [
  | inr e ↦ rw (insert_deployment, e) s
  | inl e ↦ elim (Bool-cases (delivers h)) [
    | inr f ↦ rw (insert_deployment, e, f) (dispatched-IsSound w a p failed s)
    | inl f ↦
        let d = dispatched-IsSound w a p dispatched s in
        rw (insert_deployment, e, f)
          (record { placed = d.placed; apart = d.apart; named = d.named })
  ]
]

find_asset-has_id :
    (h : Text) (assets : List Asset) (a : Asset)
    → find_asset h assets ≡ some a
    → any (has_id a.id) assets ≡ true
unfolding find_asset
find_asset-has_id h [] a e = cc
find_asset-has_id h (b ∷ rest) a e = ground (arith, find_asset-has_id h rest a, ==_iff b.id a.id)

find_package-is_package :
    (k : ℕ) (ps : List Package) (p : Package)
    → find_package k ps ≡ some p
    → any (is_package p.id) ps ≡ true
unfolding find_package
find_package-is_package k [] p e = cc
find_package-is_package k (q ∷ ps) p e =
    ground (arith, find_package-is_package k ps p, ==_iff q.id p.id)

deploy_to-IsSound :
    (delivers : Text → Bool) (req : CreateDeploymentRequest) (h : Text) (w : World)
    (a : Option Asset) (k : ℕ) (p : Option Package)
    → find_asset h w.assets ≡ a
    → find_package k w.packages ≡ p
    → IsSound w
    → IsSound (deploy_to delivers req h w a p).1
deploy_to-IsSound delivers req h w none k p x y s = s
deploy_to-IsSound delivers req h w (some a) k none x y s = s
deploy_to-IsSound delivers req h w (some a) k (some p) x y s =
    insert_deployment-IsSound delivers req h w a p (
      inserted-IsSound w a p (find_asset-has_id h w.assets a x)
        (find_package-is_package k w.packages p y) s)

deploy_id-IsSound :
    (delivers : Text → Bool) (req : CreateDeploymentRequest) (h : Text) (w : World) (k : Option ℕ)
    → IsSound w
    → IsSound (deploy_id delivers req h w k).1
deploy_id-IsSound delivers req h w none s = s
deploy_id-IsSound delivers req h w (some k) s =
    deploy_to-IsSound delivers req h w (find_asset h w.assets) k (find_package k w.packages) refl
      refl s

apply_outcome-IsSound :
    (serial : Text) (is_ok : Bool) (k : Option ℕ) (w : World)
    → IsSound w
    → IsSound (apply_outcome serial is_ok k w)
apply_outcome-IsSound serial is_ok none w s = s
apply_outcome-IsSound serial is_ok (some k) w s = elim (Bool-cases (text_eq serial [])) [
  | inl e ↦ rw e s
  | inr e ↦ rw e (record {
    placed =
        update_outcome-All (IsPlaced w) k serial (outcome_status is_ok) w.assets w.deployments
          (λ d h. h) s.placed;
    apart = update_outcome-Pairs k serial (outcome_status is_ok) w.assets w.deployments s.apart;
    named = s.named;
  })
]

module _ (parse_uuid : Text → Option ℕ) where
  handle_create_deployment-IsSound :
      (delivers : Text → Bool) (req : CreateDeploymentRequest) (w : World)
      → IsSound w
      → IsSound (handle_create_deployment parse_uuid delivers req w).1
  unfolding handle_create_deployment
  handle_create_deployment-IsSound delivers req w s =
      let h = trim_space req.asset_human_id in
      elim (Bool-cases (text_eq h [] || text_eq (trim_space req.package_id) [])) [
        | inl e ↦ rw (handle_create_deployment, e) s
        | inr e ↦ elim (Bool-cases (is_operation (operation_or_install req.operation))) [
          | inr f ↦ rw (handle_create_deployment, e, f) s
          | inl f ↦
              rw (handle_create_deployment, e, f)
                (deploy_id-IsSound delivers req h w (parse_uuid (trim_space req.package_id)) s)
        ]
      ]

  report-IsSound :
      (serial : Text) (r : Option AgentPackageResult) (w : World)
      → IsSound w
      → IsSound (apply_package_deployment_outcome parse_uuid serial r w).1
  unfolding apply_package_deployment_outcome
  report-IsSound serial none w s = s
  report-IsSound serial (some r) w s =
      elim (Bool-cases (text_eq (trim_space r.type) (bytes "package_result"))) [
        | inr e ↦ rw (apply_package_deployment_outcome, e) s
        | inl e ↦ elim (Bool-cases (text_eq (trim_space r.deployment_id) [])) [
          | inl f ↦ rw (apply_package_deployment_outcome, e, f) s
          | inr f ↦
              rw (apply_package_deployment_outcome, e, f)
                (apply_outcome-IsSound (trim_space serial) r.is_ok
                  (parse_uuid (trim_space r.deployment_id)) w s)
        ]
      ]

  step-IsSound : (c : Call) (w : World) → IsSound w → IsSound (step parse_uuid c w)
  unfolding step
  step-IsSound (create_package req) w s = handle_create_package-IsSound req w s
  step-IsSound (patch_package k req) w s = handle_patch_package-IsSound k req w s
  step-IsSound (delete_package k) w s = handle_delete_package-IsSound k w s
  step-IsSound (create_deployment delivers req) w s =
      handle_create_deployment-IsSound delivers req w s
  step-IsSound (report serial r) w s = report-IsSound serial r w s

  -- After any calls and reports, from sound tables: every deployment has its device and its package and
  -- an id of its own that was given out, and every package has a name and one of the five types.
  pub run-IsSound : (cs : List Call) (w : World) → IsSound w → IsSound (run parse_uuid cs w)
  unfolding run
  run-IsSound [] w s = s
  run-IsSound (c ∷ cs) w s = run-IsSound cs (step parse_uuid c w) (step-IsSound c w s)
