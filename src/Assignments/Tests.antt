-- ===== src/Assignments/Tests.antt =====
-- One group of two devices, with two profiles that disagree.
use arx_mdm.Prelude.{
  ℕ, ◌≡◌, ◌≢◌, ◌↔◌, refl, inl, true, false, Option, some, none, List, [], ◌∷◌, map, arith, Text,
  text_eq, text_leb, if◌then◌else◌, bytes, trim_space, to_lower, In,
}
use arx_mdm.Prelude.Sort.{sort_by, distinct, Pairs, IsSortedBy}
use arx_mdm.Prelude.Result.{ok}
use arx_mdm.Policy.Json.{Json, Fields, Encoding, null, bool, num, str, arr, obj, end, field}
use arx_mdm.Policy.Types.{MergeResult}
use arx_mdm.Policy.Merge.{merge_assigned_payloads}
use arx_mdm.Assignments.Tables.{
  ConfigurationProfile, device, principal_group, AssignmentState, Tables, find_assignment,
  insert_assignment, insert_membership, delete_group, delete_membership,
}
use arx_mdm.Assignments.Groups.{handle_add_devices, handle_delete_group, rune_count}
use arx_mdm.Assignments.Profiles.{target_of, assign_target, handle_assign_profile}
use arx_mdm.Assignments.Effective.{
  has_platform, join_members, list_assigned_profiles_for_asset, mark_affected, set_states,
  reconcile_profile_assignment_states, compute_merged_effective_policy, first_asset,
  assigned_rows_to_merge_inputs,
}
use arx_mdm.Assignments.Calls.{
  Call, add_devices, remove_device, remove_group, assign_profile, step, run,
}
use arx_mdm.Assignments.Consistent.{IsConsistent}
use arx_mdm.Assignments.Invariant.{run-IsConsistent}
use arx_mdm.Assignments.View.{view}
use arx_mdm.Assignments.Promise.{run_spec, view-run}
use arx_mdm.Assignments.Sources.{Gets}
use arx_mdm.Assignments.Listing.{list_assigned_profiles_for_asset-In}
use arx_mdm.Assignments.States.{settled, compute_merged_effective_policy-states}

-- Two documents: {"usb_blocked":true} and {"usb_blocked":false}.
abbrev sample_map : Text → Option (Fields (Unit {0}))
sample_map t =
    if text_eq t (bytes "A")
    then some (field (bytes "usb_blocked") (bool true) end)
    else if text_eq t (bytes "B")
    then some (field (bytes "usb_blocked") (bool false) end)
    else none

abbrev sample_marshal : Json (Unit {0}) → Text
sample_marshal (bool true) = bytes "true"
sample_marshal (bool false) = bytes "false"
sample_marshal _ = bytes "null"

abbrev sample : Encoding
sample = record {
  Float = Unit {0};
  float_eqb = λ a b. true;
  float_ltb = λ a b. false;
  float_leb = λ a b. true;
  abs_sub = λ a b. tt;
  abs = λ a. tt;
  max = λ a b. a;
  one = tt;
  scale = λ a. tt;
  marshal = sample_marshal;
  unmarshal = λ t. none;
  unmarshal_map = sample_map;
}

-- The ids are written as one byte.
abbrev sample_uuid : Text → Option ℕ
sample_uuid [] = none
sample_uuid (c ∷ s) = some c

abbrev strict : ConfigurationProfile
strict = record {
  id = 7;
  name = bytes "strict";
  platform = bytes "linux";
  type = bytes "usb";
  payload = bytes "A";
}

abbrev loose : ConfigurationProfile
loose = record {
  id = 8;
  name = bytes "loose";
  platform = bytes "linux";
  type = bytes "usb";
  payload = bytes "B";
}

-- Device 1 and device 2 are of group 5, which has the strict profile; device 1 has the loose one too.
abbrev tables : Tables
tables = record {
  assets =
      record { id = 1; os_type = some (bytes "linux"); cert_serial = some (bytes "11") }
      ∷ record { id = 2; os_type = some (bytes "linux"); cert_serial = some (bytes "12") }
      ∷ [];
  groups = record { id = 5; name = bytes "lab"; description = [] } ∷ [];
  members = record { group_id = 5; device_id = 1 } ∷ record { group_id = 5; device_id = 2 } ∷ [];
  profiles = strict ∷ loose ∷ [];
  assignments =
      record {
        id = 20;
        profile_id = 7;
        target = principal_group 5;
        assignment_state = AssignmentState.ok;
      }
      ∷ record { id = 21; profile_id = 8; target = device 1; assignment_state = AssignmentState.ok }
      ∷ [];
  next_id = 30;
}

tables-IsConsistent : IsConsistent tables
tables-IsConsistent = record {
  members_exist = ((refl, refl), ((refl, refl), tt));
  members_once = ((refl, tt), (tt, tt));
  assigned_exist = ((refl, refl), ((refl, refl), tt));
  assigned_once = (((refl, omega arith), tt), (tt, tt));
  assigned_below = omega arith;
}

open_all : Unit {0}
unfolding step text_eq text_leb trim_space to_lower sort_by distinct rune_count handle_add_devices
    handle_assign_profile handle_delete_group arx_mdm.Assignments.Groups.insert_memberships
    arx_mdm.Assignments.Groups.parse_ids target_of assign_target insert_membership insert_assignment
    find_assignment delete_group delete_membership compute_merged_effective_policy
    list_assigned_profiles_for_asset join_members reconcile_profile_assignment_states mark_affected
    set_states first_asset arx_mdm.Assignments.Effective.handle_dashboard_effective_policy
    merge_assigned_payloads arx_mdm.Policy.Decide.merge_contributions
    arx_mdm.Policy.Flatten.flatten_contributions arx_mdm.Policy.Flatten.path_leaf
    arx_mdm.Policy.Flatten.join_path arx_mdm.Policy.Unflatten.unflatten_leaves
    arx_mdm.Policy.Unflatten.set_at arx_mdm.Policy.Scalars.is_denial
    arx_mdm.Policy.Scalars.merge_bool_restrictive arx_mdm.Policy.Contributions.all_of
    arx_mdm.Policy.Json.lookup_field arx_mdm.Policy.Json.set_field
    arx_mdm.Policy.Json.normalize_json arx_mdm.Policy.Json.deep_equal arx_mdm.Policy.Merge.add_all
    mathlib.Core.List.flatten arx_mdm.Prelude.has_suffix arx_mdm.Prelude.contains
    arx_mdm.Prelude.split_on
open_all = tt

abbrev calls : List Call
calls =
    remove_device (some 5) (some 1)
    ∷ add_devices (some 5) ((1 ∷ []) ∷ (9 ∷ []) ∷ (2 ∷ []) ∷ [])
    ∷ assign_profile (some 8) (record {
      target_kind = bytes "Principal_Group";
      device_id = [];
      principal_group_id = 5 ∷ [];
    })
    ∷ remove_group (some 5)
    ∷ []

run-IsConsistent_example : IsConsistent (run sample some sample_uuid calls tables)
run-IsConsistent_example = run-IsConsistent sample some sample_uuid calls tables tables-IsConsistent

view-run_example :
    view (run sample some sample_uuid calls tables)
    ≡ run_spec sample some sample_uuid calls tables (view tables)
view-run_example = view-run sample some sample_uuid calls tables tables-IsConsistent

listed : list_assigned_profiles_for_asset tables 1 (bytes " Linux ") ≡ some (loose ∷ strict ∷ [])
unfolding open_all
listed = refl

list_assigned_profiles_for_asset-In_example :
    ((b : ConfigurationProfile)
      → In b (loose ∷ strict ∷ []) ↔ (
          In b tables.profiles
          × (has_platform (to_lower (trim_space (bytes " Linux "))) b ≡ true)
          × Gets (view tables) 1 b.id))
    × Pairs (λ a b. a ≢ b) (loose ∷ strict ∷ [])
    × IsSortedBy (λ (cp : ConfigurationProfile). cp.name) (loose ∷ strict ∷ [])
list_assigned_profiles_for_asset-In_example =
    list_assigned_profiles_for_asset-In tables 1 (bytes " Linux ") (loose ∷ strict ∷ []) listed

abbrev result_of : Option (MergeResult (Unit {0})) → MergeResult (Unit {0})
result_of (some r) = r
result_of none = record {
  effective_payload = end;
  flat_settings = [];
  conflicts = [];
  conflict_paths = [];
  conflict_profiles = [];
}

result : MergeResult (Unit {0})
result = result_of (compute_merged_effective_policy sample tables 1 (bytes "linux")).0

computed : (compute_merged_effective_policy sample tables 1 (bytes "linux")).0 ≡ some result
unfolding open_all result
computed = refl

states : Tables → List AssignmentState
states t = map (λ a. a.assignment_state) t.assignments

-- The two profiles disagree for device 1.
disagreeing :
    states (compute_merged_effective_policy sample tables 1 (bytes "linux")).1
    ≡ AssignmentState.conflict ∷ AssignmentState.conflict ∷ []
unfolding open_all states arx_mdm.Policy.Contributions.unique_bools
    arx_mdm.Policy.Contributions.conflict_participants
disagreeing = refl

-- When device 2 asks, the conflict of the group's assignment is gone, though device 1 still has it.
forgotten :
    states
      (compute_merged_effective_policy sample
        (compute_merged_effective_policy sample tables 1 (bytes "linux")).1
        2
        (bytes "linux")).1
    ≡ AssignmentState.ok ∷ AssignmentState.conflict ∷ []
unfolding open_all states arx_mdm.Policy.Contributions.unique_bools
    arx_mdm.Policy.Contributions.conflict_participants
forgotten = refl

compute_merged_effective_policy-states_example :
    ((rows : List ConfigurationProfile) × (list_assigned_profiles_for_asset tables 1 (bytes "linux")
        ≡ some rows)
      × (merge_assigned_payloads sample (assigned_rows_to_merge_inputs rows) ≡ ok result))
    × ((compute_merged_effective_policy sample tables 1 (bytes "linux")).1.assignments
        ≡ map
            (settled 1 (to_lower (trim_space (bytes "linux"))) result.conflict_profiles tables)
            tables.assignments)
compute_merged_effective_policy-states_example =
    compute_merged_effective_policy-states sample tables 1 (bytes "linux") result
      tables-IsConsistent computed
