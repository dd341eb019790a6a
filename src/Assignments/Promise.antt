-- ===== src/Assignments/Promise.antt =====
-- The calls implement what the views promise.
use arx_mdm.Prelude.{
  ℕ, ◌≡◌, refl, inl, inr, ◌∙◌, Option, none, some, List, [], ◌∷◌, Text, any, Bool-cases, ◌==◌, ap,
}
use arx_mdm.Policy.Json.{Encoding}
use arx_mdm.Assignments.Tables.{Tables, is_group, is_profile, is_membership}
use arx_mdm.Assignments.Groups.{with_id, handle_delete_group, handle_remove_device}
use arx_mdm.Assignments.Profiles.{with_profile, handle_delete_profile, handle_remove_assignment}
use arx_mdm.Assignments.Calls.{
  Call, create_group, patch_group, remove_group, add_devices, remove_device, create_profile,
  patch_profile, remove_profile, assign_profile, remove_assignment, dashboard_policy, agent_policy,
  step, run,
}
use arx_mdm.Assignments.Consistent.{IsConsistent}
use arx_mdm.Assignments.GroupCalls.{
  KeepsCatalog, handle_create_group-keeps, handle_patch_group-keeps,
}
use arx_mdm.Assignments.ProfileCalls.{
  KeepsStates, handle_create_profile-keeps, handle_patch_profile-keeps,
  handle_dashboard_effective_policy-keeps, handle_agent_effective_policy-keeps,
}
use arx_mdm.Assignments.Invariant.{step-IsConsistent}
use arx_mdm.Assignments.Lookup.{find_assignment-set_states}
use arx_mdm.Assignments.View.{
  View, View-ext, view, without_group, without_member, without_profile, without_assignment, when_id,
  when_profile, spec,
}
use arx_mdm.Assignments.Deletions.{
  view-delete_membership, view-no_membership, view-delete_assignment, view-no_assignment,
  view-delete_profile, view-no_profile, view-delete_group, view-no_group,
}
use arx_mdm.Assignments.Refinement.{view-handle_add_devices, view-handle_assign_profile}

abbrev HasView : View → Tables → Type 0
HasView v t = view t ≡ v

catalog-HasView : (v : View) → KeepsCatalog (HasView v)
unfolding view
catalog-HasView v t gs ps n g p le h = h

states-HasView : (v : View) → KeepsStates (HasView v)
unfolding view
states-HasView v ids state t h =
    View-ext _ (view t) (λ g d. refl)
      (λ p target. find_assignment-set_states p target ids state t.assignments)
    ∙ h

with_id-view :
    (id : Option ℕ) (t : Tables) (handler : ℕ → ℕ × Tables) (change : ℕ → View)
    → ((k : ℕ) → view (handler k).1 ≡ change k)
    → view (with_id id t handler).1 ≡ when_id id (view t) change
with_id-view none t handler change h = refl
with_id-view (some k) t handler change h = elim (Bool-cases (k == 0)) [
  | inl e ↦ rw e refl
  | inr e ↦ rw e (h k)
]

with_profile-view :
    (id : Option ℕ) (t : Tables) (handler : ℕ → ℕ × Tables) (change : ℕ → View)
    → ((k : ℕ) → view (handler k).1 ≡ change k)
    → view (with_profile id t handler).1 ≡ when_profile id (view t) change
with_profile-view none t handler change h = refl
with_profile-view (some k) t handler change h = h k

view-handle_delete_group :
    (gid : Option ℕ) (t : Tables)
    → IsConsistent t
    → view (handle_delete_group gid t).1 ≡ when_id gid (view t) (λ g. without_group g (view t))
unfolding handle_delete_group
view-handle_delete_group gid t c =
    with_id-view gid t _ (λ g. without_group g (view t))
      λ g. elim (Bool-cases (any (is_group g) t.groups)) [
        | inl e ↦ rw e (view-delete_group g t)
        | inr e ↦ rw e (view-no_group g t c e)
      ]

view-handle_remove_device :
    (gid did : Option ℕ) (t : Tables)
    → view (handle_remove_device gid did t).1
      ≡ when_id gid (view t) (λ g. when_id did (view t) λ d. without_member g d (view t))
unfolding handle_remove_device
view-handle_remove_device gid did t =
    with_id-view gid t _ (λ g. when_id did (view t) λ d. without_member g d (view t))
      λ g.
        with_id-view did t _ (λ d. without_member g d (view t))
          λ d. elim (Bool-cases (any (is_membership g d) t.members)) [
            | inl e ↦ rw e (view-delete_membership g d t)
            | inr e ↦ rw e (view-no_membership g d t e)
          ]

view-handle_delete_profile :
    (pid : Option ℕ) (t : Tables)
    → IsConsistent t
    → view (handle_delete_profile pid t).1
      ≡ when_profile pid (view t) (λ p. without_profile p (view t))
unfolding handle_delete_profile
view-handle_delete_profile pid t c =
    with_profile-view pid t _ (λ p. without_profile p (view t))
      λ p. elim (Bool-cases (any (is_profile p) t.profiles)) [
        | inl e ↦ rw e (view-delete_profile p t)
        | inr e ↦ rw e (view-no_profile p t c e)
      ]

view-handle_remove_assignment :
    (id : Option ℕ) (t : Tables)
    → IsConsistent t
    → view (handle_remove_assignment id t).1
      ≡ when_id id (view t) (λ k. without_assignment k (view t))
unfolding handle_remove_assignment
view-handle_remove_assignment id t c =
    with_id-view id t _ (λ k. without_assignment k (view t))
      λ k. elim (Bool-cases (any (λ a. a.id == k) t.assignments)) [
        | inl e ↦ rw e (view-delete_assignment k t c)
        | inr e ↦ rw e (view-no_assignment k t e)
      ]

module _ (E : Encoding) (jsonb : Text → Option Text) (parse_uuid : Text → Option ℕ) where
  -- One call changes the view of consistent tables as the specification says.
  pub view-step :
      (c : Call) (t : Tables)
      → IsConsistent t
      → view (step E jsonb parse_uuid c t) ≡ spec parse_uuid c t (view t)
  unfolding step spec
  view-step (create_group req) t v =
      handle_create_group-keeps (HasView (view t)) (catalog-HasView (view t)) req t refl
  view-step (patch_group gid patch) t v =
      handle_patch_group-keeps (HasView (view t)) (catalog-HasView (view t)) gid patch t refl
  view-step (remove_group gid) t v = view-handle_delete_group gid t v
  view-step (add_devices gid ids) t v = view-handle_add_devices parse_uuid gid ids t v
  view-step (remove_device gid did) t v = view-handle_remove_device gid did t
  view-step (create_profile req) t v =
      handle_create_profile-keeps (HasView (view t)) (catalog-HasView (view t)) jsonb req t refl
  view-step (patch_profile pid patch) t v =
      handle_patch_profile-keeps (HasView (view t)) (catalog-HasView (view t)) jsonb pid patch t
        refl
  view-step (remove_profile pid) t v = view-handle_delete_profile pid t v
  view-step (assign_profile pid req) t v = view-handle_assign_profile parse_uuid pid req t v
  view-step (remove_assignment id) t v = view-handle_remove_assignment id t v
  view-step (dashboard_policy d) t v =
      handle_dashboard_effective_policy-keeps E (HasView (view t)) (states-HasView (view t)) t d
        refl
  view-step (agent_policy serial) t v =
      handle_agent_effective_policy-keeps E (HasView (view t)) (states-HasView (view t)) t serial
        refl

  -- The specifications of calls that follow one another, each on the tables before it.
  unfoldable pub run_spec : List Call → Tables → View → View
  unfolding spec step
  run_spec [] t v = v
  run_spec (c ∷ cs) t v = run_spec cs (step E jsonb parse_uuid c t) (spec parse_uuid c t v)

  -- Any calls on consistent tables change who is in which group, and which profile has which target
  -- under which id, as the specification on sets and maps says: a deletion takes away exactly what hangs
  -- on the deleted row, an assignment that is there keeps its id, and an addition of devices to a group
  -- that is there adds those that come before the first unknown one.
  pub view-run :
      (cs : List Call) (t : Tables)
      → IsConsistent t
      → view (run E jsonb parse_uuid cs t) ≡ run_spec cs t (view t)
  unfolding run run_spec
  view-run [] t c = refl
  view-run (call ∷ cs) t c =
      view-run cs (step E jsonb parse_uuid call t) (step-IsConsistent E jsonb parse_uuid call t c)
      ∙ ap (run_spec cs (step E jsonb parse_uuid call t)) (view-step call t c)
