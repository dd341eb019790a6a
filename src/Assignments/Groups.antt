-- ===== src/Assignments/Groups.antt =====
-- internal/api/principal_groups.go: the handlers that change a group, after RequireMinRole; `gid` is
-- the path's id as uuid.Parse reads it. A handler returns its status and the tables.
use arx_mdm.Prelude.{
  ℕ, suc, ◌+◌, Bool, ◌&&◌, ◌||◌, not, Option, none, some, List, [], ◌∷◌, ◌++◌, Text, text_eq, any,
  ◌==◌, ltb, leb, if◌then◌else◌, trim_space,
}
use arx_mdm.Assignments.Tables.{
  PrincipalGroup, Tables, is_group, is_membership, has_name, delete_group, delete_membership,
  insert_membership,
}

-- utf8.RuneCountInString of valid UTF-8: the bytes that continue no other.
unfoldable pub rune_count : Text → ℕ
rune_count [] = 0
rune_count (c ∷ s) = if leb 128 c && ltb c 192 then rune_count s else suc (rune_count s)

abbrev pub is_bad_name : Text → Bool
is_bad_name name = text_eq name [] || ltb 200 (rune_count name)

pub record CreatePrincipalGroup : Type 0 where
  pub name : Text
  pub description : Text

pub record PatchPrincipalGroup : Type 0 where
  pub name : Option Text
  pub description : Option Text

-- A missing id and uuid.Nil are refused.
abbrev pub with_id : Option ℕ → Tables → (ℕ → ℕ × Tables) → ℕ × Tables
with_id none t handler = (400, t)
with_id (some k) t handler = if k == 0 then (400, t) else handler k

-- The insertion, which the unique index on the names may refuse.
unfoldable pub insert_group : Text → Text → Tables → ℕ × Tables
insert_group name description t = if any (has_name name) t.groups then (500, t) else (
  201,
  record t {
    groups = t.groups ++ record { id = t.next_id; name = name; description = description } ∷ [];
    next_id = t.next_id + 1;
  },
)

-- handleCreate
unfoldable pub handle_create_group : CreatePrincipalGroup → Tables → ℕ × Tables
unfolding insert_group rune_count
handle_create_group req t =
    if is_bad_name (trim_space req.name)
    then (400, t)
    else insert_group (trim_space req.name) (trim_space req.description) t

unfoldable pub update_groups :
    ℕ → (PrincipalGroup → PrincipalGroup) → List PrincipalGroup → List PrincipalGroup
update_groups k change [] = []
update_groups k change (g ∷ gs) = (if g.id == k then change g else g) ∷ update_groups k change gs

abbrev pub has_other_name : ℕ → Text → PrincipalGroup → Bool
has_other_name k name g = not (g.id == k) && has_name name g

-- UPDATE … SET name: the unique index, then the rows that were there.
unfoldable pub rename_group : ℕ → Text → Tables → ℕ × Tables
unfolding update_groups
rename_group k name t =
    if not (any (is_group k) t.groups)
    then (404, t)
    else if any (has_other_name k name) t.groups
    then (500, t)
    else (200, record t { groups = update_groups k (λ g. record g { name = name }) t.groups })

unfoldable pub describe_group : ℕ → Text → Tables → ℕ × Tables
unfolding update_groups
describe_group k description t = if not (any (is_group k) t.groups) then (404, t) else (
  200,
  record t { groups = update_groups k (λ g. record g { description = description }) t.groups },
)

abbrev pub patch_name : ℕ → Option Text → Tables → ℕ × Tables
patch_name k none t = (200, t)
patch_name k (some name) t =
    if is_bad_name (trim_space name) then (400, t) else rename_group k (trim_space name) t

abbrev pub patch_description : ℕ → Option Text → ℕ × Tables → ℕ × Tables
patch_description k none (status, t) = (status, t)
patch_description k (some description) (status, t) =
    if status == 200 then describe_group k (trim_space description) t else (status, t)

-- handlePatch: the two updates, one after another.
unfoldable pub handle_patch_group : Option ℕ → PatchPrincipalGroup → Tables → ℕ × Tables
unfolding rename_group describe_group rune_count
handle_patch_group gid patch t =
    with_id gid t λ k. patch_description k patch.description (patch_name k patch.name t)

-- handleDelete
unfoldable pub handle_delete_group : Option ℕ → Tables → ℕ × Tables
unfolding delete_group
handle_delete_group gid t =
    with_id gid t λ k. if any (is_group k) t.groups then (200, delete_group k t) else (404, t)

-- The loop over the device ids, each statement on its own; an error keeps the earlier rows. With the
-- rows inserted.
unfoldable pub insert_memberships : ℕ → List ℕ → ℕ → Tables → ℕ × ℕ × Tables
unfolding insert_membership
insert_memberships g [] inserted t = (200, inserted, t)
insert_memberships g (d ∷ ds) inserted t = elim (insert_membership g d t) [
  | none ↦ (500, inserted, t)
  | some (fresh, t') ↦ insert_memberships g ds (if fresh then inserted + 1 else inserted) t'
]

-- The loop that parses the ids, before any statement.
unfoldable pub parse_ids : (Text → Option ℕ) → List Text → Option (List ℕ)
parse_ids parse_uuid [] = some []
parse_ids parse_uuid (raw ∷ raws) = elim (parse_uuid (trim_space raw)) [
  | none ↦ none
  | some d ↦ elim (parse_ids parse_uuid raws) [ none ↦ none | some ds ↦ some (d ∷ ds) ]
]

abbrev pub add_parsed : ℕ → Option (List ℕ) → Tables → ℕ × ℕ × Tables
add_parsed g none t = (400, 0, t)
add_parsed g (some ds) t =
    if any (is_group g) t.groups then insert_memberships g ds 0 t else (404, 0, t)

abbrev pub add_devices : (Text → Option ℕ) → ℕ → List Text → Tables → ℕ × ℕ × Tables
add_devices parse_uuid g [] t = (400, 0, t)
add_devices parse_uuid g (raw ∷ raws) t = add_parsed g (parse_ids parse_uuid (raw ∷ raws)) t

-- handleAddDevices
unfoldable pub handle_add_devices :
    (Text → Option ℕ) → Option ℕ → List Text → Tables → ℕ × ℕ × Tables
unfolding insert_memberships parse_ids
handle_add_devices parse_uuid none device_ids t = (400, 0, t)
handle_add_devices parse_uuid (some g) device_ids t =
    if g == 0 then (400, 0, t) else add_devices parse_uuid g device_ids t

-- handleRemoveDevice
unfoldable pub handle_remove_device : Option ℕ → Option ℕ → Tables → ℕ × Tables
unfolding delete_membership
handle_remove_device gid did t = with_id gid t λ g.
    with_id did t
      λ d. if any (is_membership g d) t.members then (200, delete_membership g d t) else (404, t)
