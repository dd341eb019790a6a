-- ===== src/Scheduler/Settled.antt =====
-- What a run of an automation leaves behind.
use arx_mdm.Prelude.{
  ℕ, suc, ◌<◌, ◌≡◌, ◌≢◌, refl, sym, subst, inl, inr, Bool, true, false, Option, none, some, List,
  [], ◌∷◌, ◌++◌, map, Text, text_eq, bytes, All, All-append, All-of_In, Any, In, Any-map,
  Any-witness, In-Any, text_eq→eq, some_inj, &&-eq-true_iff, keep, keep-In, ◌==◌, ==_iff,
  Bool-cases, Option-cases, arith, trim_space, to_lower,
}
use arx_mdm.Scheduler.Dispatch.{
  Asset, Package, DeploymentStatus, pending, Deployment, AutomationRow, World, Value,
  has_cert_serial, first_id, is_chosen, runs_os, nonblank_id, human_id_of, targets_of,
  resolve_target_human_ids, find_asset, find_package, set_status, operation_of, dispatch_shutdown,
  deploy, payload_of, deploy_found, deploy_payload, dispatch_deploy, dispatch_action, dispatch_all,
  dispatch_automation, string_of_value,
}

-- No deployment waits for its dispatch, and all have ids below the next one.
abbrev pub IsSettled : World → Type 0
IsSettled w = All (λ d. (d.status ≢ pending) × (d.id < w.next_id)) w.deployments

-- What an automation aims at, by its target's id and operating system.
abbrev pub IsTarget : Option ℕ → Option Text → Asset → Type 0
IsTarget (some k) os a = a.id ≡ k
IsTarget none (some os) a = a.os_type ≡ trim_space (to_lower os)
IsTarget none none a = ⊥

abbrev pub IsIdOf : Option ℕ → Option Text → List Asset → Text → Type 0
IsIdOf k os assets h =
    Any (λ a. (trim_space a.human_id ≡ h) × (has_cert_serial a ≡ true) × IsTarget k os a) assets

-- A human id of an asset with a certificate that the automation aims at.
abbrev pub IsEligible : AutomationRow → List Asset → Text → Type 0
IsEligible row assets h = IsIdOf row.target_asset_id row.target_os assets h

set_status-settles :
    (k : ℕ) (status : DeploymentStatus) (ds : List Deployment) (row : Deployment)
    → status ≢ pending
    → row.id ≡ k
    → All (λ d. (d.status ≢ pending) × (d.id < k)) ds
    → All (λ d. (d.status ≢ pending) × (d.id < suc k)) (set_status k status (ds ++ row ∷ []))
unfolding set_status
set_status-settles k status [] row s e h = rw ((==_iff row.id k).1 e) ((s, ground (arith, e)), tt)
set_status-settles k status (d ∷ ds) row s e h =
    rw (apart d h.0.1) ((h.0.0, omega (arith, h.0.1)), set_status-settles k status ds row s e h.1)
  where
    apart : (d : Deployment) → d.id < k → (d.id == k) ≡ false
    apart d lt = ground arith

-- Settled, with every message sent to a text of a kind.
abbrev IsDone : (Text → Type 0) → World → Type 0
IsDone E w = IsSettled w × All (λ m. E m.0) w.sent

module _ (unmarshal : Text → Option (Text → Option Value)) (parse_uuid : Text → Option ℕ)
    (delivers : Text → Bool) (E : Text → Type 0) where
  deploy-IsDone :
      (w : World) (h op : Text) (asset : Asset) (pkg : Package)
      → E h
      → IsDone E w
      → IsDone E (deploy unmarshal parse_uuid delivers w h op asset pkg)
  unfolding deploy
  deploy-IsDone w h op asset pkg e d = elim (Bool-cases (delivers h)) [
    | inl y ↦
        rw (deploy, y)
          (
            set_status-settles w.next_id _ w.deployments _ (λ x. cc) refl d.0,
            All-append (λ m. E m.0) w.sent _ d.1 (e, tt),
          )
    | inr y ↦
        rw (deploy, y) (set_status-settles w.next_id _ w.deployments _ (λ x. cc) refl d.0, d.1)
  ]

  deploy_found-IsDone :
      (w : World) (h op : Text) (a : Option Asset) (p : Option Package)
      → E h
      → IsDone E w
      → IsDone E (deploy_found unmarshal parse_uuid delivers w h op a p)
  deploy_found-IsDone w h op (some asset) (some pkg) e d = deploy-IsDone w h op asset pkg e d
  deploy_found-IsDone w h op none p e d = d
  deploy_found-IsDone w h op (some asset) none e d = d

  deploy_payload-IsDone :
      (w : World) (h : Text) (k : Option ℕ) (op : Option Text)
      → E h
      → IsDone E w
      → IsDone E (deploy_payload unmarshal parse_uuid delivers w h k op)
  deploy_payload-IsDone w h (some k) (some op) e d =
      deploy_found-IsDone w h op (find_asset h w.assets) (find_package k w.packages) e d
  deploy_payload-IsDone w h none op e d = d
  deploy_payload-IsDone w h (some k) none e d = d

  dispatch_deploy-IsDone :
      (w : World) (row : AutomationRow) (h : Text)
      → E h
      → IsDone E w
      → IsDone E (dispatch_deploy unmarshal parse_uuid delivers w row h)
  unfolding dispatch_deploy
  dispatch_deploy-IsDone w row h e d =
      elim (Option-cases (payload_of unmarshal parse_uuid delivers row.payload_json)) [
        | inl f ↦ rw (dispatch_deploy, f) d
        | inr (payload, f) ↦
            rw (dispatch_deploy, f)
              (deploy_payload-IsDone w h
                (parse_uuid (trim_space (string_of_value (payload (bytes "package_id")))))
                (operation_of (payload (bytes "operation"))) e d)
      ]

  dispatch_shutdown-IsDone :
      (w : World) (h : Text)
      → E h
      → IsDone E w
      → IsDone E (dispatch_shutdown unmarshal parse_uuid delivers w h)
  unfolding dispatch_shutdown
  dispatch_shutdown-IsDone w h e d = elim (Bool-cases (delivers h)) [
    | inl y ↦ rw (dispatch_shutdown, y) (d.0, All-append (λ m. E m.0) w.sent _ d.1 (e, tt))
    | inr y ↦ rw (dispatch_shutdown, y) d
  ]

  dispatch_action-IsDone :
      (w : World) (row : AutomationRow) (h : Text)
      → E h
      → IsDone E w
      → IsDone E (dispatch_action unmarshal parse_uuid delivers w row h)
  unfolding dispatch_action
  dispatch_action-IsDone w row h e d =
      elim (Bool-cases (text_eq (trim_space (to_lower row.action_type)) (bytes "shutdown"))) [
        | inl y ↦ rw (dispatch_action, y) (dispatch_shutdown-IsDone w h e d)
        | inr y ↦
            elim (Bool-cases
              (text_eq (trim_space (to_lower row.action_type)) (bytes "deploy_package"))) [
                | inl z ↦ rw (dispatch_action, y, z) (dispatch_deploy-IsDone w row h e d)
                | inr z ↦ rw (dispatch_action, y, z) d
              ]
      ]

  dispatch_all-IsDone :
      (w : World) (row : AutomationRow) (hs : List Text)
      → All E hs
      → IsDone E w
      → IsDone E (dispatch_all unmarshal parse_uuid delivers w row hs)
  unfolding dispatch_all
  dispatch_all-IsDone w row [] e d = d
  dispatch_all-IsDone w row (h ∷ hs) e d =
      dispatch_all-IsDone (dispatch_action unmarshal parse_uuid delivers w row h) row hs e.1
        (dispatch_action-IsDone w row h e.0 d)

first_id-All :
    (E : Text → Type 0) (chosen : List Asset)
    → ((a : Asset) → In a chosen → E (trim_space a.human_id))
    → All E (first_id chosen)
first_id-All E [] f = tt
first_id-All E (a ∷ rest) f = (f a (inl refl), tt)

kept_id :
    (assets : List Asset) (k : Option ℕ) (os : Option Text) (p : Asset → Bool)
    → ((a : Asset) → p a ≡ true → (has_cert_serial a ≡ true) × IsTarget k os a)
    → (a : Asset) → In a (keep p assets)
    → IsIdOf k os assets (trim_space a.human_id)
kept_id assets k os p f a m =
    let (present, passed) = (keep-In p a assets).0 m in
    In-Any
      (λ b.
        (trim_space b.human_id ≡ trim_space a.human_id)
        × (has_cert_serial b ≡ true)
        × IsTarget k os b)
      a assets present (let (c, t) = f a passed in (refl, c, t))

aimed_id : (k : ℕ) (a : Asset) → is_chosen k a ≡ true → (has_cert_serial a ≡ true) × (a.id ≡ k)
aimed_id k a e =
    let (x, y) = (&&-eq-true_iff (a.id == k) (has_cert_serial a)).0 e in (y, (==_iff a.id k).0 x)

aimed_os :
    (os : Text) (a : Asset)
    → runs_os os a ≡ true
    → (has_cert_serial a ≡ true) × (a.os_type ≡ trim_space (to_lower os))
aimed_os os a e =
    let (x, y) =
      (&&-eq-true_iff (text_eq a.os_type (trim_space (to_lower os))) (has_cert_serial a)).0 e in
    (y, text_eq→eq a.os_type (trim_space (to_lower os)) x)

targets_of-IsIdOf :
    (assets : List Asset) (k : Option ℕ) (os : Option Text) (hs : List Text)
    → targets_of assets k os ≡ some hs
    → All (IsIdOf k os assets) hs
targets_of-IsIdOf assets (some k) os hs h = subst (All (IsIdOf (some k) os assets)) (some_inj h) (
    first_id-All _ (keep (is_chosen k) assets)
      (kept_id assets (some k) os (is_chosen k) (λ a e. aimed_id k a e)))
targets_of-IsIdOf assets none (some os) hs h =
    subst (All (IsIdOf none (some os) assets)) (some_inj h) (
      All-of_In _ (keep nonblank_id (map human_id_of (keep (runs_os os) assets))) (λ t m.
        let (a, chosen, named) =
          Any-witness (λ b. human_id_of b ≡ t) (keep (runs_os os) assets)
            ((Any-map (λ x. x ≡ t) human_id_of (keep (runs_os os) assets)).0
              ((keep-In nonblank_id t (map human_id_of (keep (runs_os os) assets))).0 m).0) in
        subst (IsIdOf none (some os) assets) named
          (kept_id assets none (some os) (runs_os os) (λ b e. aimed_os os b e) a chosen)))
targets_of-IsIdOf assets none none hs h = cc

resolve_target_human_ids-IsEligible :
    (assets : List Asset) (row : AutomationRow) (hs : List Text)
    → resolve_target_human_ids assets row ≡ some hs
    → All (IsEligible row assets) hs
unfolding resolve_target_human_ids
resolve_target_human_ids-IsEligible assets row hs h =
    targets_of-IsIdOf assets row.target_asset_id row.target_os hs h

-- A run of an automation leaves no deployment waiting for its dispatch, where none was, and every message it
-- sends goes to a device with a certificate that the automation aims at.
pub dispatch_automation-IsSettled :
    (unmarshal : Text → Option (Text → Option Value)) (parse_uuid : Text → Option ℕ)
    (delivers : Text → Bool) (w : World) (row : AutomationRow)
    → IsSettled w
    → w.sent ≡ []
    → IsSettled (dispatch_automation unmarshal parse_uuid delivers w row)
      × All
          (λ m. IsEligible row w.assets m.0)
          (dispatch_automation unmarshal parse_uuid delivers w row).sent
unfolding dispatch_automation
dispatch_automation-IsSettled unmarshal parse_uuid delivers w row settled quiet =
    elim (Bool-cases row.is_active) [
      | inr e ↦ rw (dispatch_automation, e) start
      | inl e ↦ elim (Option-cases (resolve_target_human_ids w.assets row)) [
        | inl f ↦ rw (dispatch_automation, e, f) start
        | inr (hs, f) ↦
            rw (dispatch_automation, e, f)
              (dispatch_all-IsDone unmarshal parse_uuid delivers (IsEligible row w.assets) w row hs
                (resolve_target_human_ids-IsEligible w.assets row hs f) start)
      ]
    ]
  where
    start : IsDone (IsEligible row w.assets) w
    start = (settled, subst (All (λ m. IsEligible row w.assets m.0)) (sym quiet) tt)
