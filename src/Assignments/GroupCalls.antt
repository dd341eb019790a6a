-- ===== src/Assignments/GroupCalls.antt =====
-- The calls of groups keep the tables consistent.
use arx_mdm.Prelude.{
  ℕ, ◌+◌, ◌≤◌, ◌≡◌, refl, inl, inr, true, Option, none, some, List, [], ◌∷◌, Text, any, Bool-cases,
  Option-cases, arith, if◌then◌else◌, ◌==◌, trim_space,
}
use arx_mdm.Assignments.Tables.{
  PrincipalGroup, ConfigurationProfile, Tables, is_group, has_name, is_profile, is_membership,
  insert_membership,
}
use arx_mdm.Assignments.Groups.{
  CreatePrincipalGroup, PatchPrincipalGroup, is_bad_name, with_id, insert_group,
  handle_create_group, update_groups, has_other_name, rename_group, describe_group, patch_name,
  patch_description, handle_patch_group, handle_delete_group, insert_memberships, parse_ids,
  add_parsed, add_devices, handle_add_devices, handle_remove_device,
}
use arx_mdm.Prelude.Rows.{any-append_true}
use arx_mdm.Assignments.Consistent.{
  IsConsistent, delete_membership-IsConsistent, delete_group-IsConsistent,
  insert_membership-AfterInsert,
}

update_groups-any :
    (j k : ℕ) (change : PrincipalGroup → PrincipalGroup) (gs : List PrincipalGroup)
    → ((g : PrincipalGroup) → (change g).id ≡ g.id)
    → any (is_group k) (update_groups j change gs) ≡ any (is_group k) gs
unfolding update_groups
update_groups-any j k change [] f = refl
update_groups-any j k change (g ∷ gs) f = ground (arith, f g, update_groups-any j k change gs f)

pub with_id-keeps :
    (P : Tables → Type 0) (id : Option ℕ) (t : Tables) (handler : ℕ → ℕ × Tables)
    → P t
    → ((k : ℕ) → P (handler k).1)
    → P (with_id id t handler).1
with_id-keeps P none t handler c h = c
with_id-keeps P (some k) t handler c h = elim (Bool-cases (k == 0)) [
  | inl e ↦ rw e c
  | inr e ↦ rw e (h k)
]

-- What holds whatever groups and profiles come and change, so long as none goes.
abbrev pub KeepsCatalog : (Tables → Type 0) → Type 0
KeepsCatalog P =
    (t : Tables) (gs : List PrincipalGroup) (ps : List ConfigurationProfile) (n : ℕ)
    → ((k : ℕ) → any (is_group k) t.groups ≡ true → any (is_group k) gs ≡ true)
    → ((k : ℕ) → any (is_profile k) t.profiles ≡ true → any (is_profile k) ps ≡ true)
    → t.next_id ≤ n
    → P t
    → P (record t { groups = gs; profiles = ps; next_id = n })

module _ (P : Tables → Type 0) (catalog : KeepsCatalog P) where
  insert_group-keeps :
      (name description : Text) (t : Tables) → P t → P (insert_group name description t).1
  unfolding insert_group
  insert_group-keeps name description t c = elim (Bool-cases (any (has_name name) t.groups)) [
    | inl e ↦ rw (insert_group, e) c
    | inr e ↦
        rw (insert_group, e)
          (catalog t _ t.profiles (t.next_id + 1) (λ k h. any-append_true (is_group k) t.groups _ h)
            (λ k h. h) (omega arith) c)
  ]

  pub handle_create_group-keeps :
      (req : CreatePrincipalGroup) (t : Tables) → P t → P (handle_create_group req t).1
  unfolding handle_create_group
  handle_create_group-keeps req t c = elim (Bool-cases (is_bad_name (trim_space req.name))) [
    | inl e ↦ rw (handle_create_group, e) c
    | inr e ↦
        rw (handle_create_group, e)
          (insert_group-keeps (trim_space req.name) (trim_space req.description) t c)
  ]

  updated-keeps :
      (k : ℕ) (change : PrincipalGroup → PrincipalGroup) (t : Tables)
      → ((g : PrincipalGroup) → (change g).id ≡ g.id)
      → P t
      → P (record t { groups = update_groups k change t.groups })
  updated-keeps k change t f c =
      catalog t _ t.profiles t.next_id (λ j h. rw (update_groups-any k j change t.groups f) h)
        (λ j h. h) (omega arith) c

  rename_group-keeps : (k : ℕ) (name : Text) (t : Tables) → P t → P (rename_group k name t).1
  unfolding rename_group
  rename_group-keeps k name t c = elim (Bool-cases (any (is_group k) t.groups)) [
    | inr e ↦ rw (rename_group, e) c
    | inl e ↦ elim (Bool-cases (any (has_other_name k name) t.groups)) [
      | inl f ↦ rw (rename_group, e, f) c
      | inr f ↦
          rw (rename_group, e, f) (updated-keeps k (λ g. record g { name = name }) t (λ g. refl) c)
    ]
  ]

  describe_group-keeps : (k : ℕ) (s : Text) (t : Tables) → P t → P (describe_group k s t).1
  unfolding describe_group
  describe_group-keeps k s t c = elim (Bool-cases (any (is_group k) t.groups)) [
    | inr e ↦ rw (describe_group, e) c
    | inl e ↦
        rw (describe_group, e) (updated-keeps k (λ g. record g { description = s }) t (λ g. refl) c)
  ]

  patch_name-keeps : (k : ℕ) (name : Option Text) (t : Tables) → P t → P (patch_name k name t).1
  patch_name-keeps k none t c = c
  patch_name-keeps k (some name) t c = elim (Bool-cases (is_bad_name (trim_space name))) [
    | inl e ↦ rw e c
    | inr e ↦ rw e (rename_group-keeps k (trim_space name) t c)
  ]

  patch_description-keeps :
      (k : ℕ) (s : Option Text) (r : ℕ × Tables) → P r.1 → P (patch_description k s r).1
  patch_description-keeps k none (status, t) c = c
  patch_description-keeps k (some s) (status, t) c = elim (Bool-cases (status == 200)) [
    | inl e ↦ rw e (describe_group-keeps k (trim_space s) t c)
    | inr e ↦ rw e c
  ]

  pub handle_patch_group-keeps :
      (gid : Option ℕ) (patch : PatchPrincipalGroup) (t : Tables)
      → P t
      → P (handle_patch_group gid patch t).1
  unfolding handle_patch_group
  handle_patch_group-keeps gid patch t c = with_id-keeps P gid t _ c λ k.
      patch_description-keeps k patch.description (patch_name k patch.name t)
        (patch_name-keeps k patch.name t c)

pub handle_delete_group-IsConsistent :
    (gid : Option ℕ) (t : Tables) → IsConsistent t → IsConsistent (handle_delete_group gid t).1
unfolding handle_delete_group
handle_delete_group-IsConsistent gid t c = with_id-keeps IsConsistent gid t _ c λ k.
    elim (Bool-cases (any (is_group k) t.groups)) [
      | inl e ↦ rw e (delete_group-IsConsistent k t c)
      | inr e ↦ rw e c
    ]

insert_memberships-IsConsistent :
    (g : ℕ) (ds : List ℕ) (n : ℕ) (t : Tables)
    → IsConsistent t
    → IsConsistent (insert_memberships g ds n t).2
unfolding insert_memberships
insert_memberships-IsConsistent g [] n t c = c
insert_memberships-IsConsistent g (d ∷ ds) n t c = elim (Option-cases (insert_membership g d t)) [
  | inl e ↦ rw (insert_memberships, e) c
  | inr ((fresh, t'), e) ↦
      rw (insert_memberships, e)
        (insert_memberships-IsConsistent g ds (if fresh then n + 1 else n) t'
          (rw e at (insert_membership-AfterInsert g d t c)))
]

add_parsed-IsConsistent :
    (g : ℕ) (ds : Option (List ℕ)) (t : Tables)
    → IsConsistent t
    → IsConsistent (add_parsed g ds t).2
add_parsed-IsConsistent g none t c = c
add_parsed-IsConsistent g (some ds) t c = elim (Bool-cases (any (is_group g) t.groups)) [
  | inl e ↦ rw e (insert_memberships-IsConsistent g ds 0 t c)
  | inr e ↦ rw e c
]

add_devices-IsConsistent :
    (parse_uuid : Text → Option ℕ) (g : ℕ) (ids : List Text) (t : Tables)
    → IsConsistent t
    → IsConsistent (add_devices parse_uuid g ids t).2
add_devices-IsConsistent parse_uuid g [] t c = c
add_devices-IsConsistent parse_uuid g (raw ∷ raws) t c =
    add_parsed-IsConsistent g (parse_ids parse_uuid (raw ∷ raws)) t c

pub handle_add_devices-IsConsistent :
    (parse_uuid : Text → Option ℕ) (gid : Option ℕ) (ids : List Text) (t : Tables)
    → IsConsistent t
    → IsConsistent (handle_add_devices parse_uuid gid ids t).2
unfolding handle_add_devices
handle_add_devices-IsConsistent parse_uuid none ids t c = c
handle_add_devices-IsConsistent parse_uuid (some g) ids t c = elim (Bool-cases (g == 0)) [
  | inl e ↦ rw (handle_add_devices, e) c
  | inr e ↦ rw (handle_add_devices, e) (add_devices-IsConsistent parse_uuid g ids t c)
]

pub handle_remove_device-IsConsistent :
    (gid did : Option ℕ) (t : Tables)
    → IsConsistent t
    → IsConsistent (handle_remove_device gid did t).1
unfolding handle_remove_device
handle_remove_device-IsConsistent gid did t c = with_id-keeps IsConsistent gid t _ c λ g.
    with_id-keeps IsConsistent did t _ c λ d.
      elim (Bool-cases (any (is_membership g d) t.members)) [
        | inl e ↦ rw e (delete_membership-IsConsistent g d t c)
        | inr e ↦ rw e c
      ]
