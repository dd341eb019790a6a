-- ===== src/Assignments/Tables.antt =====
-- The tables of migration 000016: principal groups with their devices, configuration profiles, and the
-- assignment of a profile to a device or group.
use arx_mdm.Prelude.{
  ℕ, ◌+◌, Bool, true, false, ◌&&◌, not, Option, none, some, List, [], ◌∷◌, ◌++◌, Text, text_eq, any,
  keep, ◌==◌, if◌then◌else◌, to_lower,
}

pub record AssetRow : Type 0 where
  pub id : ℕ
  pub os_type : Option Text
  pub cert_serial : Option Text

pub record PrincipalGroup : Type 0 where
  pub id : ℕ
  pub name : Text
  pub description : Text

-- A row of principal_group_devices.
pub record Membership : Type 0 where
  pub group_id : ℕ
  pub device_id : ℕ

pub record ConfigurationProfile : Type 0 where
  pub id : ℕ
  pub name : Text
  pub platform : Text
  pub type : Text
  pub payload : Text

-- `target_kind` with the one column that is not null, profile_assignments_target_exclusive.
pub data Target : Type 0 where
  device : ℕ → Target
  principal_group : ℕ → Target

pub data AssignmentState : Type 0 where
  ok conflict : AssignmentState

pub record ProfileAssignment : Type 0 where
  pub id : ℕ
  pub profile_id : ℕ
  pub target : Target
  pub assignment_state : AssignmentState

pub record Tables : Type 0 where
  pub assets : List AssetRow
  pub groups : List PrincipalGroup
  pub members : List Membership
  pub profiles : List ConfigurationProfile
  pub assignments : List ProfileAssignment
  pub next_id : ℕ

abbrev pub target_eq : Target → Target → Bool
target_eq (device a) (device b) = a == b
target_eq (principal_group a) (principal_group b) = a == b
target_eq (device a) (principal_group b) = false
target_eq (principal_group a) (device b) = false

abbrev pub is_group : ℕ → PrincipalGroup → Bool
is_group k g = g.id == k

abbrev pub is_profile : ℕ → ConfigurationProfile → Bool
is_profile k p = p.id == k

abbrev pub is_asset : ℕ → AssetRow → Bool
is_asset k a = a.id == k

abbrev pub is_membership : ℕ → ℕ → Membership → Bool
is_membership g d m = m.group_id == g && m.device_id == d

-- The two unique indexes of profile_assignments.
abbrev pub is_assignment : ℕ → Target → ProfileAssignment → Bool
is_assignment p target a = a.profile_id == p && target_eq a.target target

-- What the foreign key of a target asks for.
abbrev pub target_exists : Target → List AssetRow → List PrincipalGroup → Bool
target_exists (device d) assets groups = any (is_asset d) assets
target_exists (principal_group g) assets groups = any (is_group g) groups

-- principal_groups_name_lower_idx; a name has no outer white space.
abbrev pub has_name : Text → PrincipalGroup → Bool
has_name name g = text_eq (to_lower g.name) (to_lower name)

unfoldable pub find_assignment : ℕ → Target → List ProfileAssignment → Option ℕ
find_assignment p target [] = none
find_assignment p target (a ∷ rest) =
    if is_assignment p target a then some a.id else find_assignment p target rest

-- DELETE FROM principal_groups, with what its cascades delete.
unfoldable pub delete_group : ℕ → Tables → Tables
delete_group g t = record t {
  groups = keep (λ x. not (is_group g x)) t.groups;
  members = keep (λ m. not (m.group_id == g)) t.members;
  assignments = keep (λ a. not (target_eq a.target (principal_group g))) t.assignments;
}

-- DELETE FROM configuration_profiles, with what its cascade deletes.
unfoldable pub delete_profile : ℕ → Tables → Tables
delete_profile p t = record t {
  profiles = keep (λ x. not (is_profile p x)) t.profiles;
  assignments = keep (λ a. not (a.profile_id == p)) t.assignments;
}

-- DELETE FROM principal_group_devices
unfoldable pub delete_membership : ℕ → ℕ → Tables → Tables
delete_membership g d t = record t { members = keep (λ m. not (is_membership g d m)) t.members }

-- DELETE FROM profile_assignments
unfoldable pub delete_assignment : ℕ → Tables → Tables
delete_assignment k t = record t { assignments = keep (λ a. not (a.id == k)) t.assignments }

-- INSERT INTO principal_group_devices … ON CONFLICT DO NOTHING: whether a row came in, and none for the
-- error of a foreign key.
unfoldable pub insert_membership : ℕ → ℕ → Tables → Option (Bool × Tables)
insert_membership g d t =
    if any (is_membership g d) t.members
    then some (false, t)
    else if any (is_group g) t.groups && any (is_asset d) t.assets
    then some
        (true, record t { members = t.members ++ record { group_id = g; device_id = d } ∷ [] })
    else none

abbrev pub new_assignment : ℕ → ℕ → Target → ProfileAssignment
new_assignment k p target = record {
  id = k;
  profile_id = p;
  target = target;
  assignment_state = AssignmentState.ok;
}

-- INSERT INTO profile_assignments … ON CONFLICT DO NOTHING RETURNING id, whose id is none for a
-- conflict; no pair for the error of a foreign key.
unfoldable pub insert_assignment : ℕ → Target → Tables → Option (Option ℕ × Tables)
insert_assignment p target t =
    if any (is_assignment p target) t.assignments
    then some (none, t)
    else if any (is_profile p) t.profiles && target_exists target t.assets t.groups
    then some (
      some t.next_id,
      record t {
        assignments = t.assignments ++ new_assignment t.next_id p target ∷ [];
        next_id = t.next_id + 1;
      },
    )
    else none
