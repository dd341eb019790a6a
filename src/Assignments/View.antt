-- ===== src/Assignments/View.antt =====
-- What the tables promise, as sets and a map: who is in which group, and which profile is assigned to
-- which target. The order and the layout of the rows are forgotten.
use arx_mdm.Prelude.{
  ℕ, ◌≡◌, Bool, ◌&&◌, ◌||◌, not, Option, none, some, List, [], ◌∷◌, Text, any, ◌==◌, if◌then◌else◌,
}
use mathlib.Core.Path.{fun_ext}
use arx_mdm.Assignments.Tables.{
  AssetRow, Target, principal_group, Tables, target_eq, is_group, is_profile, is_asset,
  is_membership, target_exists, find_assignment,
}
use arx_mdm.Assignments.Groups.{parse_ids}
use arx_mdm.Assignments.Profiles.{target_of}
use arx_mdm.Assignments.Calls.{
  Call, create_group, patch_group, remove_group, add_devices, remove_device, create_profile,
  patch_profile, remove_profile, assign_profile, remove_assignment, dashboard_policy, agent_policy,
}

pub record View : Type 0 where
  pub member : ℕ → ℕ → Bool
  pub assigned : ℕ → Target → Option ℕ

pub View-ext :
    (v w : View)
    → ((g d : ℕ) → v.member g d ≡ w.member g d)
    → ((p : ℕ) (target : Target) → v.assigned p target ≡ w.assigned p target)
    → v ≡ w
View-ext v w m a i = record {
  member = fun_ext (λ g. fun_ext (m g)) i;
  assigned = fun_ext (λ p. fun_ext (a p)) i;
}

unfoldable pub view : Tables → View
unfolding find_assignment
view t = record {
  member = λ g d. any (is_membership g d) t.members;
  assigned = λ p target. find_assignment p target t.assignments;
}

abbrev pub without_group : ℕ → View → View
without_group g v = record {
  member = λ g' d. not (g' == g) && v.member g' d;
  assigned = λ p target. if target_eq target (principal_group g) then none else v.assigned p target;
}

abbrev pub without_member : ℕ → ℕ → View → View
without_member g d v = record v { member = λ g' d'. not (g' == g && d' == d) && v.member g' d' }

abbrev pub without_profile : ℕ → View → View
without_profile p v = record v {
  assigned = λ p' target. if p' == p then none else v.assigned p' target;
}

abbrev pub unless_id : ℕ → Option ℕ → Option ℕ
unless_id k none = none
unless_id k (some j) = if j == k then none else some j

abbrev pub without_assignment : ℕ → View → View
without_assignment k v = record v { assigned = λ p target. unless_id k (v.assigned p target) }

abbrev pub with_members : ℕ → List ℕ → View → View
with_members g ds v = record v {
  member = λ g' d'. v.member g' d' || g' == g && any (λ d. d == d') ds;
}

abbrev pub or_new : ℕ → Option ℕ → Option ℕ
or_new k none = some k
or_new k (some j) = some j

abbrev pub with_assignment : ℕ → Target → ℕ → View → View
with_assignment p target k v = record v {
  assigned = λ p' target'.
      if p' == p && target_eq target' target
      then or_new k (v.assigned p target)
      else v.assigned p' target';
}

-- The devices up to the first that is not in the table.
abbrev pub existing_prefix : List AssetRow → List ℕ → List ℕ
existing_prefix assets [] = []
existing_prefix assets (d ∷ ds) =
    if any (is_asset d) assets then d ∷ existing_prefix assets ds else []

abbrev pub when_id : Option ℕ → View → (ℕ → View) → View
when_id none v change = v
when_id (some k) v change = if k == 0 then v else change k

abbrev pub when_profile : Option ℕ → View → (ℕ → View) → View
when_profile none v change = v
when_profile (some p) v change = change p

abbrev pub add_to_view : ℕ → Option (List ℕ) → Tables → View → View
add_to_view g none t v = v
add_to_view g (some ds) t v =
    if any (is_group g) t.groups then with_members g (existing_prefix t.assets ds) v else v

abbrev pub assign_to_view : ℕ → Option (Option Target) → Tables → View → View
assign_to_view p none t v = v
assign_to_view p (some none) t v = v
assign_to_view p (some (some target)) t v =
    if any (is_profile p) t.profiles && target_exists target t.assets t.groups
    then with_assignment p target t.next_id v
    else v

-- What a call does to a view, of the tables only the groups, profiles, assets and the next id.
unfoldable pub spec : (Text → Option ℕ) → Call → Tables → View → View
spec parse_uuid (create_group req) t v = v
spec parse_uuid (patch_group gid patch) t v = v
spec parse_uuid (remove_group gid) t v = when_id gid v λ g. without_group g v
spec parse_uuid (add_devices gid ids) t v =
    when_id gid v λ g. add_to_view g (parse_ids parse_uuid ids) t v
spec parse_uuid (remove_device gid did) t v =
    when_id gid v λ g. when_id did v λ d. without_member g d v
spec parse_uuid (create_profile req) t v = v
spec parse_uuid (patch_profile pid patch) t v = v
spec parse_uuid (remove_profile pid) t v = when_profile pid v λ p. without_profile p v
spec parse_uuid (assign_profile pid req) t v =
    when_profile pid v λ p. assign_to_view p (target_of parse_uuid req) t v
spec parse_uuid (remove_assignment id) t v = when_id id v λ k. without_assignment k v
spec parse_uuid (dashboard_policy d) t v = v
spec parse_uuid (agent_policy serial) t v = v
