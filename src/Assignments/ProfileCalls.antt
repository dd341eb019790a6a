-- ===== src/Assignments/ProfileCalls.antt =====
-- The calls of profiles and of effective policies keep the tables consistent.
use arx_mdm.Prelude.{
  ℕ, ◌+◌, ◌<◌, ◌≡◌, refl, inl, inr, ◌||◌, Option, none, some, List, [], ◌∷◌, Text, text_eq, All,
  any, Bool-cases, Option-cases, arith, ◌==◌, trim_space,
}
use arx_mdm.Prelude.Sort.{Pairs}
use arx_mdm.Prelude.Result.{Result-cases}
use arx_mdm.Policy.Json.{Encoding}
use arx_mdm.Policy.Types.{MergeResult}
use arx_mdm.Policy.Merge.{merge_assigned_payloads}
use arx_mdm.Assignments.Tables.{
  AssetRow, ConfigurationProfile, Target, ProfileAssignment, AssignmentState, Tables, is_profile,
  is_asset, find_assignment, insert_assignment,
}
use arx_mdm.Assignments.Groups.{is_bad_name}
use arx_mdm.Assignments.Profiles.{
  CreateProfileRequest, PatchProfileRequest, AssignProfileRequest, allowed_platform, with_profile,
  update_profiles, set_column, then_patch, patch_profile_name, patch_type, set_platform,
  patch_platform, target_of, assign_target, assign_read, stored, insert_profile,
  handle_create_profile, set_payload, patch_payload, handle_patch_profile, handle_delete_profile,
  handle_assign_profile, handle_remove_assignment,
}
use arx_mdm.Assignments.Effective.{
  set_states, mark_affected, reconcile_profile_assignment_states, list_assigned_profiles_for_asset,
  assigned_rows_to_merge_inputs, compute_merged_effective_policy, first_asset, has_serial, answer,
  effective_for, telemetry_platform_key, os_type_of, handle_dashboard_effective_policy,
  handle_agent_effective_policy,
}
use arx_mdm.Prelude.Rows.{any-append_true}
use arx_mdm.Assignments.Consistent.{
  IsConsistent, AreOtherAssignments, AssignmentExists, delete_assignment-IsConsistent,
  delete_profile-IsConsistent, insert_assignment-AfterInsert,
}
use arx_mdm.Assignments.GroupCalls.{with_id-keeps, KeepsCatalog}

update_profiles-any :
    (j k : ℕ) (change : ConfigurationProfile → ConfigurationProfile)
    (ps : List ConfigurationProfile)
    → ((p : ConfigurationProfile) → (change p).id ≡ p.id)
    → any (is_profile k) (update_profiles j change ps) ≡ any (is_profile k) ps
unfolding update_profiles
update_profiles-any j k change [] f = refl
update_profiles-any j k change (p ∷ ps) f = ground (arith, f p, update_profiles-any j k change ps f)

with_profile-keeps :
    (P : Tables → Type 0) (pid : Option ℕ) (t : Tables) (handler : ℕ → ℕ × Tables)
    → P t
    → ((k : ℕ) → P (handler k).1)
    → P (with_profile pid t handler).1
with_profile-keeps P none t handler c h = c
with_profile-keeps P (some k) t handler c h = h k

module _ (P : Tables → Type 0) (catalog : KeepsCatalog P) where
  set_column-keeps :
      (k : ℕ) (change : ConfigurationProfile → ConfigurationProfile) (t : Tables)
      → ((p : ConfigurationProfile) → (change p).id ≡ p.id)
      → P t
      → P (set_column k change t).1
  unfolding set_column
  set_column-keeps k change t f c = elim (Bool-cases (any (is_profile k) t.profiles)) [
    | inr e ↦ rw (set_column, e) c
    | inl e ↦
        rw (set_column, e)
          (catalog t t.groups _ t.next_id (λ j h. h)
            (λ j h. rw (update_profiles-any k j change t.profiles f) h) (omega arith) c)
  ]

  then_patch-keeps :
      (r : ℕ × Tables) (rest : Tables → ℕ × Tables)
      → ((t : Tables) → P t → P (rest t).1)
      → P r.1
      → P (then_patch r rest).1
  then_patch-keeps (status, t) rest h c = elim (Bool-cases (status == 200)) [
    | inl e ↦ rw e (h t c)
    | inr e ↦ rw e c
  ]

  patch_profile_name-keeps :
      (k : ℕ) (name : Option Text) (t : Tables) → P t → P (patch_profile_name k name t).1
  patch_profile_name-keeps k none t c = c
  patch_profile_name-keeps k (some name) t c = elim (Bool-cases (is_bad_name (trim_space name))) [
    | inl e ↦ rw e c
    | inr e ↦ rw e (set_column-keeps k _ t (λ p. refl) c)
  ]

  patch_type-keeps : (k : ℕ) (type : Option Text) (t : Tables) → P t → P (patch_type k type t).1
  patch_type-keeps k none t c = c
  patch_type-keeps k (some type) t c = elim (Bool-cases (text_eq (trim_space type) [])) [
    | inl e ↦ rw e c
    | inr e ↦ rw e (set_column-keeps k _ t (λ p. refl) c)
  ]

  set_platform-keeps :
      (k : ℕ) (platform : Option Text) (t : Tables) → P t → P (set_platform k platform t).1
  set_platform-keeps k none t c = c
  set_platform-keeps k (some platform) t c = set_column-keeps k _ t (λ p. refl) c

  patch_platform-keeps :
      (k : ℕ) (platform : Option Text) (t : Tables) → P t → P (patch_platform k platform t).1
  patch_platform-keeps k none t c = c
  patch_platform-keeps k (some platform) t c = set_platform-keeps k (allowed_platform platform) t c

module _ (P : Tables → Type 0) (catalog : KeepsCatalog P) (jsonb : Text → Option Text) where
  insert_profile-keeps :
      (req : CreateProfileRequest) (platform payload : Option Text) (t : Tables)
      → P t
      → P (insert_profile jsonb req platform payload t).1
  insert_profile-keeps req none payload t c = c
  insert_profile-keeps req (some platform) none t c = c
  insert_profile-keeps req (some platform) (some payload) t c =
      catalog t t.groups _ (t.next_id + 1) (λ k h. h)
        (λ k h. any-append_true (is_profile k) t.profiles _ h) (omega arith) c

  pub handle_create_profile-keeps :
      (req : CreateProfileRequest) (t : Tables) → P t → P (handle_create_profile jsonb req t).1
  unfolding handle_create_profile
  handle_create_profile-keeps req t c =
      elim (Bool-cases (is_bad_name (trim_space req.name) || text_eq (trim_space req.type) [])) [
        | inl e ↦ rw (handle_create_profile, e) c
        | inr e ↦
            rw (handle_create_profile, e)
              (insert_profile-keeps req (allowed_platform req.platform) (stored jsonb req.payload) t
                c)
      ]

  set_payload-keeps :
      (k : ℕ) (payload : Option Text) (t : Tables) → P t → P (set_payload jsonb k payload t).1
  set_payload-keeps k none t c = c
  set_payload-keeps k (some payload) t c = set_column-keeps P catalog k _ t (λ p. refl) c

  patch_payload-keeps :
      (k : ℕ) (payload : Text) (t : Tables) → P t → P (patch_payload jsonb k payload t).1
  patch_payload-keeps k payload t c = elim (Bool-cases (text_eq payload [])) [
    | inl e ↦ rw e c
    | inr e ↦ rw e (set_payload-keeps k (jsonb payload) t c)
  ]

  pub handle_patch_profile-keeps :
      (pid : Option ℕ) (patch : PatchProfileRequest) (t : Tables)
      → P t
      → P (handle_patch_profile jsonb pid patch t).1
  unfolding handle_patch_profile
  handle_patch_profile-keeps pid patch t c = with_profile-keeps P pid t _ c λ k.
      let named = patch_profile_name k patch.name t in
      let typed = then_patch named (patch_type k patch.type) in
      let placed = then_patch typed (patch_platform k patch.platform) in
      then_patch-keeps P catalog placed (patch_payload jsonb k patch.payload)
        (patch_payload-keeps k patch.payload)
        (then_patch-keeps P catalog typed (patch_platform k patch.platform)
          (patch_platform-keeps P catalog k patch.platform)
          (then_patch-keeps P catalog named (patch_type k patch.type)
            (patch_type-keeps P catalog k patch.type)
            (patch_profile_name-keeps P catalog k patch.name t c)))

pub handle_delete_profile-IsConsistent :
    (pid : Option ℕ) (t : Tables) → IsConsistent t → IsConsistent (handle_delete_profile pid t).1
unfolding handle_delete_profile
handle_delete_profile-IsConsistent pid t c = with_profile-keeps IsConsistent pid t _ c λ k.
    elim (Bool-cases (any (is_profile k) t.profiles)) [
      | inl e ↦ rw e (delete_profile-IsConsistent k t c)
      | inr e ↦ rw e c
    ]

assign_target-IsConsistent :
    (p : ℕ) (target : Target) (t : Tables)
    → IsConsistent t
    → IsConsistent (assign_target p target t).2
unfolding assign_target
assign_target-IsConsistent p target t c =
    let after = insert_assignment-AfterInsert p target t c in
    elim (Option-cases (insert_assignment p target t)) [
      | inl e ↦ rw (assign_target, e) c
      | inr ((some k, t'), e) ↦ rw (assign_target, e) (rw e at after)
      | inr ((none, t'), e) ↦ elim (Option-cases (find_assignment p target t'.assignments)) [
        | inl f ↦ rw (assign_target, e, f) (rw e at after)
        | inr (k, f) ↦ rw (assign_target, e, f) (rw e at after)
      ]
    ]

assign_read-IsConsistent :
    (p : ℕ) (read : Option (Option Target)) (t : Tables)
    → IsConsistent t
    → IsConsistent (assign_read p read t).2
assign_read-IsConsistent p none t c = c
assign_read-IsConsistent p (some none) t c = elim (Bool-cases (any (is_profile p) t.profiles)) [
  | inl e ↦ rw e c
  | inr e ↦ rw e c
]
assign_read-IsConsistent p (some (some target)) t c =
    elim (Bool-cases (any (is_profile p) t.profiles)) [
      | inl e ↦ rw e (assign_target-IsConsistent p target t c)
      | inr e ↦ rw e c
    ]

pub handle_assign_profile-IsConsistent :
    (parse_uuid : Text → Option ℕ) (pid : Option ℕ) (req : AssignProfileRequest) (t : Tables)
    → IsConsistent t
    → IsConsistent (handle_assign_profile parse_uuid pid req t).2
unfolding handle_assign_profile
handle_assign_profile-IsConsistent parse_uuid none req t c = c
handle_assign_profile-IsConsistent parse_uuid (some p) req t c =
    assign_read-IsConsistent p (target_of parse_uuid req) t c

pub handle_remove_assignment-IsConsistent :
    (id : Option ℕ) (t : Tables) → IsConsistent t → IsConsistent (handle_remove_assignment id t).1
unfolding handle_remove_assignment
handle_remove_assignment-IsConsistent id t c = with_id-keeps IsConsistent id t _ c λ k.
    elim (Bool-cases (any (λ a. a.id == k) t.assignments)) [
      | inl e ↦ rw e (delete_assignment-IsConsistent k t c)
      | inr e ↦ rw e c
    ]

-- A change of states keeps what does not read them.
set_states-All :
    (ids : List ℕ) (state : AssignmentState) (P : ProfileAssignment → Type 0)
    (rows : List ProfileAssignment)
    → ((a : ProfileAssignment) → P a → P (record a { assignment_state = state }))
    → All P rows
    → All P (set_states ids state rows)
unfolding set_states
set_states-All ids state P [] f h = tt
set_states-All ids state P (a ∷ rows) f h = elim (Bool-cases (any (λ k. a.id == k) ids)) [
  | inl e ↦ rw (set_states, e) (f a h.0, set_states-All ids state P rows f h.1)
  | inr e ↦ rw (set_states, e) (h.0, set_states-All ids state P rows f h.1)
]

set_states-Pairs :
    (ids : List ℕ) (state : AssignmentState) (rows : List ProfileAssignment)
    → Pairs AreOtherAssignments rows
    → Pairs AreOtherAssignments (set_states ids state rows)
unfolding set_states
set_states-Pairs ids state [] h = tt
set_states-Pairs ids state (a ∷ rows) h =
    let rest = set_states-Pairs ids state rows h.1 in
    elim (Bool-cases (any (λ k. a.id == k) ids)) [
      | inl e ↦
          rw (set_states, e)
            (
              set_states-All ids state (AreOtherAssignments (record a { assignment_state = state }))
                  rows (λ b o. o) h.0,
              rest,
            )
      | inr e ↦
          rw (set_states, e)
            (set_states-All ids state (AreOtherAssignments a) rows (λ b o. o) h.0, rest)
    ]

pub states-IsConsistent :
    (ids : List ℕ) (state : AssignmentState) (t : Tables)
    → IsConsistent t
    → IsConsistent (record t { assignments = set_states ids state t.assignments })
states-IsConsistent ids state t c = record {
  members_exist = c.members_exist;
  members_once = c.members_once;
  assigned_exist =
      set_states-All ids state (AssignmentExists t) t.assignments (λ a e. e) c.assigned_exist;
  assigned_once = set_states-Pairs ids state t.assignments c.assigned_once;
  assigned_below =
      set_states-All ids state (λ a. a.id < t.next_id) t.assignments (λ a e. e) c.assigned_below;
}

-- What holds whatever the states of assignments are.
abbrev pub KeepsStates : (Tables → Type 0) → Type 0
KeepsStates P =
    (ids : List ℕ) (state : AssignmentState) (t : Tables)
    → P t
    → P (record t { assignments = set_states ids state t.assignments })

module _ (E : Encoding) (P : Tables → Type 0) (states : KeepsStates P) where
  reconcile-keeps :
      (d : ℕ) (platform : Text) (conflicting : List ℕ) (t : Tables)
      → P t
      → P (reconcile_profile_assignment_states d platform conflicting t)
  unfolding reconcile_profile_assignment_states mark_affected
  reconcile-keeps d platform [] t c = states _ AssignmentState.ok t c
  reconcile-keeps d platform (k ∷ ks) t c =
      states _ AssignmentState.conflict _ (states _ AssignmentState.ok t c)

  compute-keeps :
      (t : Tables) (d : ℕ) (platform : Text)
      → P t
      → P (compute_merged_effective_policy E t d platform).1
  unfolding compute_merged_effective_policy
  compute-keeps t d platform c =
      elim (Option-cases (list_assigned_profiles_for_asset t d platform)) [
        | inl e ↦ rw (compute_merged_effective_policy, e) c
        | inr (rows, e) ↦
            elim (Result-cases (merge_assigned_payloads E (assigned_rows_to_merge_inputs rows))) [
              | inr (x, f) ↦ rw (compute_merged_effective_policy, e, f) c
              | inl (r, f) ↦
                  rw (compute_merged_effective_policy, e, f)
                    (reconcile-keeps d platform r.conflict_profiles t c)
            ]
      ]

  answer-keeps : (r : Option (MergeResult E.Float) × Tables) → P r.1 → P (answer E r).2
  answer-keeps (none, t) c = c
  answer-keeps (some r, t) c = c

  effective_for-keeps : (t : Tables) (a : Option AssetRow) → P t → P (effective_for E t a).2
  effective_for-keeps t none c = c
  effective_for-keeps t (some a) c =
      answer-keeps
        (compute_merged_effective_policy E t a.id (telemetry_platform_key (os_type_of a)))
        (compute-keeps t a.id (telemetry_platform_key (os_type_of a)) c)

  pub handle_dashboard_effective_policy-keeps :
      (t : Tables) (d : Option ℕ) → P t → P (handle_dashboard_effective_policy E t d).2
  unfolding handle_dashboard_effective_policy
  handle_dashboard_effective_policy-keeps t none c = c
  handle_dashboard_effective_policy-keeps t (some d) c = elim (Bool-cases (d == 0)) [
    | inl e ↦ rw (handle_dashboard_effective_policy, e) c
    | inr e ↦
        rw (handle_dashboard_effective_policy, e)
          (effective_for-keeps t (first_asset (is_asset d) t.assets) c)
  ]

  pub handle_agent_effective_policy-keeps :
      (t : Tables) (serial : Option Text) → P t → P (handle_agent_effective_policy E t serial).2
  unfolding handle_agent_effective_policy
  handle_agent_effective_policy-keeps t none c = c
  handle_agent_effective_policy-keeps t (some serial) c = elim (Bool-cases (text_eq serial [])) [
    | inl e ↦ rw (handle_agent_effective_policy, e) c
    | inr e ↦
        rw (handle_agent_effective_policy, e)
          (effective_for-keeps t (first_asset (has_serial serial) t.assets) c)
  ]
