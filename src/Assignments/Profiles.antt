-- ===== src/Assignments/Profiles.antt =====
-- internal/api/configuration_profiles.go: the handlers that change a profile or an assignment, after
-- RequireMinRole. `jsonb` is the text that the database gives back for a JSON value, none for a value
-- that it refuses, and `parse_uuid` is uuid.Parse.
use arx_mdm.Prelude.{
  ℕ, ◌+◌, ◌||◌, not, Option, none, some, List, [], ◌∷◌, ◌++◌, Text, text_eq, bytes, any, ◌==◌,
  if◌then◌else◌, trim_space, to_lower,
}
use arx_mdm.Assignments.Tables.{
  ConfigurationProfile, Target, device, principal_group, Tables, is_profile, find_assignment,
  delete_profile, delete_assignment, insert_assignment,
}
use arx_mdm.Assignments.Groups.{is_bad_name, rune_count, with_id}

pub record CreateProfileRequest : Type 0 where
  pub name : Text
  pub platform : Text
  pub type : Text
  pub payload : Text

-- An absent payload and an empty one are both [].
pub record PatchProfileRequest : Type 0 where
  pub name : Option Text
  pub type : Option Text
  pub platform : Option Text
  pub payload : Text

pub record AssignProfileRequest : Type 0 where
  pub target_kind : Text
  pub device_id : Text
  pub principal_group_id : Text

-- allowedPlatform
unfoldable pub allowed_platform : Text → Option Text
allowed_platform s =
    let p = to_lower (trim_space s) in
    if text_eq p (bytes "windows") || text_eq p (bytes "linux") || text_eq p (bytes "android")
    then some p
    else none

-- parseProfileUUID lets uuid.Nil pass.
abbrev pub with_profile : Option ℕ → Tables → (ℕ → ℕ × Tables) → ℕ × Tables
with_profile none t handler = (400, t)
with_profile (some p) t handler = handler p

unfoldable pub update_profiles :
    ℕ
    → (ConfigurationProfile → ConfigurationProfile)
    → List ConfigurationProfile
    → List ConfigurationProfile
update_profiles k change [] = []
update_profiles k change (p ∷ ps) =
    (if p.id == k then change p else p) ∷ update_profiles k change ps

-- One UPDATE of a profile's column.
unfoldable pub set_column : ℕ → (ConfigurationProfile → ConfigurationProfile) → Tables → ℕ × Tables
unfolding update_profiles
set_column k change t =
    if any (is_profile k) t.profiles
    then (200, record t { profiles = update_profiles k change t.profiles })
    else (404, t)

-- The next statement of the handler, where it has not answered yet.
abbrev pub then_patch : ℕ × Tables → (Tables → ℕ × Tables) → ℕ × Tables
then_patch (status, t) rest = if status == 200 then rest t else (status, t)

abbrev pub patch_profile_name : ℕ → Option Text → Tables → ℕ × Tables
patch_profile_name k none t = (200, t)
patch_profile_name k (some name) t =
    if is_bad_name (trim_space name)
    then (400, t)
    else set_column k (λ p. record p { name = trim_space name }) t

abbrev pub patch_type : ℕ → Option Text → Tables → ℕ × Tables
patch_type k none t = (200, t)
patch_type k (some type) t =
    if text_eq (trim_space type) []
    then (400, t)
    else set_column k (λ p. record p { type = trim_space type }) t

abbrev pub set_platform : ℕ → Option Text → Tables → ℕ × Tables
set_platform k none t = (400, t)
set_platform k (some platform) t = set_column k (λ p. record p { platform = platform }) t

abbrev pub patch_platform : ℕ → Option Text → Tables → ℕ × Tables
patch_platform k none t = (200, t)
patch_platform k (some platform) t = set_platform k (allowed_platform platform) t

-- The target of a request: none for a kind that is neither, and no id for one that is not to be read.
unfoldable pub target_of : (Text → Option ℕ) → AssignProfileRequest → Option (Option Target)
target_of parse_uuid req =
    let target = trim_space (to_lower req.target_kind) in
    let read : Text → (ℕ → Target) → Option Target = λ raw kind.
      elim (parse_uuid (trim_space raw)) [
        | none ↦ none
        | some k ↦ if k == 0 then none else some (kind k)
      ] in
    if text_eq target (bytes "device")
    then some (read req.device_id device)
    else if text_eq target (bytes "principal_group")
    then some (read req.principal_group_id principal_group)
    else none

-- The insertion, and after a conflict the query for the row that was there.
unfoldable pub assign_target : ℕ → Target → Tables → ℕ × Option ℕ × Tables
unfolding insert_assignment find_assignment
assign_target p target t = elim (insert_assignment p target t) [
  | none ↦ (500, none, t)
  | some (some k, t') ↦ (201, some k, t')
  | some (none, t') ↦ elim (find_assignment p target t'.assignments) [
    | none ↦ (409, none, t')
    | some k ↦ (201, some k, t')
  ]
]

abbrev pub assign_read : ℕ → Option (Option Target) → Tables → ℕ × Option ℕ × Tables
assign_read p none t = (400, none, t)
assign_read p (some target) t =
    if not (any (is_profile p) t.profiles)
    then (404, none, t)
    else elim target [ none ↦ (400, none, t) | some target ↦ assign_target p target t ]

module _ (jsonb : Text → Option Text) where
  abbrev pub stored : Text → Option Text
  stored payload = if text_eq payload [] then some (bytes "{}") else jsonb payload

  abbrev pub insert_profile : CreateProfileRequest → Option Text → Option Text → Tables → ℕ × Tables
  insert_profile req none payload t = (400, t)
  insert_profile req (some platform) none t = (500, t)
  insert_profile req (some platform) (some payload) t = (
    201,
    record t {
      profiles =
          t.profiles
          ++ record {
            id = t.next_id;
            name = trim_space req.name;
            platform = platform;
            type = trim_space req.type;
            payload = payload;
          }
            ∷ [];
      next_id = t.next_id + 1;
    },
  )

  -- handleCreateProfile
  unfoldable pub handle_create_profile : CreateProfileRequest → Tables → ℕ × Tables
  unfolding allowed_platform rune_count
  handle_create_profile req t =
      if is_bad_name (trim_space req.name) || text_eq (trim_space req.type) []
      then (400, t)
      else insert_profile req (allowed_platform req.platform) (stored req.payload) t

  abbrev pub set_payload : ℕ → Option Text → Tables → ℕ × Tables
  set_payload k none t = (404, t)
  set_payload k (some payload) t = set_column k (λ p. record p { payload = payload }) t

  abbrev pub patch_payload : ℕ → Text → Tables → ℕ × Tables
  patch_payload k payload t =
      if text_eq payload [] then (200, t) else set_payload k (jsonb payload) t

  -- handlePatchProfile: four updates, one after another.
  unfoldable pub handle_patch_profile : Option ℕ → PatchProfileRequest → Tables → ℕ × Tables
  unfolding set_column allowed_platform rune_count
  handle_patch_profile pid patch t = with_profile pid t λ k.
      then_patch
        (then_patch (then_patch (patch_profile_name k patch.name t) (patch_type k patch.type))
          (patch_platform k patch.platform))
        (patch_payload k patch.payload)

-- handleDeleteProfile
unfoldable pub handle_delete_profile : Option ℕ → Tables → ℕ × Tables
unfolding delete_profile
handle_delete_profile pid t =
    with_profile pid t
      λ k. if any (is_profile k) t.profiles then (200, delete_profile k t) else (404, t)

-- handleAssignProfile
unfoldable pub handle_assign_profile :
    (Text → Option ℕ) → Option ℕ → AssignProfileRequest → Tables → ℕ × Option ℕ × Tables
unfolding target_of assign_target
handle_assign_profile parse_uuid none req t = (400, none, t)
handle_assign_profile parse_uuid (some p) req t = assign_read p (target_of parse_uuid req) t

-- handleRemoveAssignment
unfoldable pub handle_remove_assignment : Option ℕ → Tables → ℕ × Tables
unfolding delete_assignment
handle_remove_assignment id t =
    with_id id t
      λ k. if any (λ a. a.id == k) t.assignments then (200, delete_assignment k t) else (404, t)
