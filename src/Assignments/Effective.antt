-- ===== src/Assignments/Effective.antt =====
-- What a device gets: internal/database/mdm_configuration.go, mdm_assignment_state.go and
-- internal/api/device_effective_policy.go.
use arx_mdm.Prelude.{
  ℕ, Bool, false, ◌&&◌, not, Option, none, some, List, [], ◌∷◌, ◌++◌, map, Text, text_eq, bytes,
  any, keep, ◌==◌, if◌then◌else◌, trim_space, to_lower, is_none,
}
use arx_mdm.Prelude.Sort.{sort_by, distinct}
use arx_mdm.Prelude.Result.{ok, err}
use arx_mdm.Policy.Json.{Encoding}
use arx_mdm.Policy.Types.{AssignedPayload, MergeResult}
use arx_mdm.Policy.Merge.{merge_assigned_payloads}
use arx_mdm.Assignments.Tables.{
  AssetRow, Membership, ConfigurationProfile, Target, device, principal_group, ProfileAssignment,
  AssignmentState, Tables, is_membership, is_asset,
}

-- LEFT JOIN principal_group_devices: the memberships that fit, or one row of nulls.
abbrev pub left_join : List Membership → List (Option Membership)
left_join [] = none ∷ []
left_join (m ∷ ms) = map some (m ∷ ms)

abbrev pub joins : ℕ → Target → Membership → Bool
joins d (device k) m = false
joins d (principal_group g) m = is_membership g d m

-- The WHERE clause of a joined row, without the platform.
abbrev pub reaches : ℕ → Target → Option Membership → Bool
reaches d (device k) m = k == d
reaches d (principal_group g) m = not (is_none m)

-- The joined rows of one assignment that pass.
unfoldable pub join_members : ℕ → List Membership → ProfileAssignment → List (Option Membership)
join_members d members a = keep (reaches d a.target) (left_join (keep (joins d a.target) members))

abbrev pub for_each : {A B : Type 0} → (A → List B) → List A → List B
for_each f [] = []
for_each f (x ∷ xs) = f x ++ for_each f xs

-- The joined rows of one profile, as the profile that each selects.
abbrev pub join_assignments : ℕ → Tables → ConfigurationProfile → List ConfigurationProfile
join_assignments d t cp =
    for_each (λ a. if a.profile_id == cp.id then map (λ m. cp) (join_members d t.members a) else [])
      t.assignments

abbrev pub has_platform : Text → ConfigurationProfile → Bool
has_platform p cp = text_eq (to_lower (trim_space cp.platform)) p

-- The columns that SELECT DISTINCT compares.
abbrev pub same_columns : ConfigurationProfile → ConfigurationProfile → Bool
same_columns a b =
    a.id == b.id
    && text_eq a.name b.name
    && text_eq a.type b.type
    && text_eq a.payload b.payload
    && text_eq a.platform b.platform

-- ListAssignedProfilesForAsset; none is the error for no platform. Names are ordered by their bytes.
unfoldable pub list_assigned_profiles_for_asset :
    Tables → ℕ → Text → Option (List ConfigurationProfile)
unfolding join_members
list_assigned_profiles_for_asset t d platform =
    let p = to_lower (trim_space platform) in
    if text_eq p []
    then none
    else some (
        sort_by (λ cp. cp.name)
          (distinct same_columns (
            for_each (λ cp. if has_platform p cp then join_assignments d t cp else []) t.profiles)))

-- The rows of the queries' `affected`, by their ids: the assignments of a profile that is chosen.
abbrev pub affected : ℕ → (ConfigurationProfile → Bool) → Tables → ProfileAssignment → List ℕ
affected d chosen t a =
    for_each
      (λ cp.
        if a.profile_id == cp.id && chosen cp
        then map (λ m. a.id) (join_members d t.members a)
        else [])
      t.profiles

-- UPDATE … FROM affected WHERE p.id = a.id
unfoldable pub set_states :
    List ℕ → AssignmentState → List ProfileAssignment → List ProfileAssignment
set_states ids state [] = []
set_states ids state (a ∷ rest) =
    (if any (λ k. a.id == k) ids then record a { assignment_state = state } else a)
    ∷ set_states ids state rest

-- One of the two statements of ReconcileProfileAssignmentStates.
unfoldable pub mark_affected : ℕ → (ConfigurationProfile → Bool) → AssignmentState → Tables → Tables
unfolding set_states join_members
mark_affected d chosen state t = record t {
  assignments = set_states (for_each (affected d chosen t) t.assignments) state t.assignments;
}

-- ReconcileProfileAssignmentStates, in one transaction.
unfoldable pub reconcile_profile_assignment_states : ℕ → Text → List ℕ → Tables → Tables
unfolding mark_affected
reconcile_profile_assignment_states d platform conflicting t =
    let p = to_lower (trim_space platform) in
    let reset = mark_affected d (has_platform p) AssignmentState.ok t in
    elim conflicting [
      | [] ↦ reset
      | k ∷ ks ↦
          mark_affected d (λ cp. has_platform p cp && any (λ c. cp.id == c) (k ∷ ks))
            AssignmentState.conflict reset
    ]

-- assignedRowsToMergeInputs; the column holds no null.
abbrev pub assigned_rows_to_merge_inputs : List ConfigurationProfile → List AssignedPayload
assigned_rows_to_merge_inputs =
    map λ r. record { source = record { id = r.id; name = r.name }; payload = r.payload }

-- telemetryPlatformKey, on `COALESCE(lower(trim(os_type)), 'unknown')`.
abbrev pub telemetry_platform_key : Text → Text
telemetry_platform_key os = to_lower (trim_space os)

abbrev pub os_type_of : AssetRow → Text
os_type_of a = elim a.os_type [ none ↦ bytes "unknown" | some os ↦ to_lower (trim_space os) ]

unfoldable pub first_asset : (AssetRow → Bool) → List AssetRow → Option AssetRow
first_asset p [] = none
first_asset p (a ∷ rest) = if p a then some a else first_asset p rest

abbrev pub has_serial : Text → AssetRow → Bool
has_serial serial a = elim a.cert_serial [ none ↦ false | some c ↦ text_eq c serial ]

-- The answer is the merge result; the revision, a hash of its JSON, is left out.
module _ (E : Encoding) where
  open E use {Float}

  -- computeMergedEffectivePolicy; none for each of its errors, which change nothing.
  unfoldable pub compute_merged_effective_policy :
      Tables → ℕ → Text → Option (MergeResult Float) × Tables
  unfolding list_assigned_profiles_for_asset reconcile_profile_assignment_states
  compute_merged_effective_policy t d platform =
      elim (list_assigned_profiles_for_asset t d platform) [
        | none ↦ (none, t)
        | some rows ↦ elim (merge_assigned_payloads E (assigned_rows_to_merge_inputs rows)) [
          | err e ↦ (none, t)
          | ok r ↦ (some r, reconcile_profile_assignment_states d platform r.conflict_profiles t)
        ]
      ]

  abbrev pub answer : Option (MergeResult Float) × Tables → ℕ × Option (MergeResult Float) × Tables
  answer (none, t) = (500, none, t)
  answer (some r, t) = (200, some r, t)

  abbrev pub effective_for : Tables → Option AssetRow → ℕ × Option (MergeResult Float) × Tables
  effective_for t none = (404, none, t)
  effective_for t (some a) =
      answer (compute_merged_effective_policy t a.id (telemetry_platform_key (os_type_of a)))

  -- handleDashboardEffectivePolicy, up to the JSON of its answer.
  unfoldable pub handle_dashboard_effective_policy :
      Tables → Option ℕ → ℕ × Option (MergeResult Float) × Tables
  unfolding compute_merged_effective_policy first_asset
  handle_dashboard_effective_policy t none = (400, none, t)
  handle_dashboard_effective_policy t (some d) =
      if d == 0 then (400, none, t) else effective_for t (first_asset (is_asset d) t.assets)

  -- handleAgentEffectivePolicy, for the serial of a verified client certificate.
  unfoldable pub handle_agent_effective_policy :
      Tables → Option Text → ℕ × Option (MergeResult Float) × Tables
  unfolding compute_merged_effective_policy first_asset
  handle_agent_effective_policy t none = (403, none, t)
  handle_agent_effective_policy t (some serial) =
      if text_eq serial []
      then (400, none, t)
      else effective_for t (first_asset (has_serial serial) t.assets)
