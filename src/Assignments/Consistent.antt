-- ===== src/Assignments/Consistent.antt =====
-- Consistent tables: what the foreign keys and unique indexes of migration 000016 ask for.
use arx_mdm.Prelude.{
  ℕ, ◌+◌, ◌<◌, ◌≤◌, ◌≡◌, ◌≢◌, refl, inl, inr, true, false, ◌&&◌, not, Option, none, some, List, [],
  ◌∷◌, All, any, keep, Bool-cases, arith, ◌==◌, &&-eq-true_iff, All-append,
}
use arx_mdm.Prelude.Sort.{Pairs}
use arx_mdm.Assignments.Tables.{
  AssetRow, PrincipalGroup, Membership, ConfigurationProfile, Target, device, principal_group,
  ProfileAssignment, Tables, new_assignment, target_eq, is_group, is_profile, is_asset,
  is_membership, is_assignment, target_exists, delete_group, delete_profile, delete_membership,
  delete_assignment, insert_membership, insert_assignment,
}
use arx_mdm.Prelude.Rows.{keep-All, keep-Pairs, All-map, append-Pairs, any-false, any-keep}

abbrev pub MemberExists : Tables → Membership → Type 0
MemberExists t m =
    (any (is_group m.group_id) t.groups ≡ true) × (any (is_asset m.device_id) t.assets ≡ true)

abbrev pub AssignmentExists : Tables → ProfileAssignment → Type 0
AssignmentExists t a =
    (any (is_profile a.profile_id) t.profiles ≡ true)
    × (target_exists a.target t.assets t.groups ≡ true)

abbrev pub AreOtherMembers : Membership → Membership → Type 0
AreOtherMembers a b = is_membership a.group_id a.device_id b ≡ false

abbrev pub AreOtherAssignments : ProfileAssignment → ProfileAssignment → Type 0
AreOtherAssignments a b = (is_assignment a.profile_id a.target b ≡ false) × (a.id ≢ b.id)

pub record IsConsistent (t : Tables) : Type 0 where
  pub members_exist : All (MemberExists t) t.members
  pub members_once : Pairs AreOtherMembers t.members
  pub assigned_exist : All (AssignmentExists t) t.assignments
  pub assigned_once : Pairs AreOtherAssignments t.assignments
  pub assigned_below : All (λ a. a.id < t.next_id) t.assignments

target_exists_mono :
    (assets : List AssetRow) (gs gs' : List PrincipalGroup)
    → ((k : ℕ) → any (is_group k) gs ≡ true → any (is_group k) gs' ≡ true)
    → (target : Target) → target_exists target assets gs ≡ true
    → target_exists target assets gs' ≡ true
target_exists_mono assets gs gs' g (device d) h = h
target_exists_mono assets gs gs' g (principal_group k) h = g k h

-- Groups and profiles may come and change, so long as none goes.
pub catalog-IsConsistent :
    (t : Tables) (gs : List PrincipalGroup) (ps : List ConfigurationProfile) (n : ℕ)
    → ((k : ℕ) → any (is_group k) t.groups ≡ true → any (is_group k) gs ≡ true)
    → ((k : ℕ) → any (is_profile k) t.profiles ≡ true → any (is_profile k) ps ≡ true)
    → t.next_id ≤ n
    → IsConsistent t
    → IsConsistent (record t { groups = gs; profiles = ps; next_id = n })
catalog-IsConsistent t gs ps n g p le c = record {
  members_exist =
      All-map (MemberExists t) _ t.members (λ m e. (g m.group_id e.0, e.1)) c.members_exist;
  members_once = c.members_once;
  assigned_exist =
      All-map (AssignmentExists t) _ t.assignments
        (λ a e. (p a.profile_id e.0, target_exists_mono t.assets t.groups gs g a.target e.1))
        c.assigned_exist;
  assigned_once = c.assigned_once;
  assigned_below =
      All-map (λ a. a.id < t.next_id) _ t.assignments (λ a lt. omega (arith, le, lt))
        c.assigned_below;
}

-- Deleting rows of which none is pointed at.
pub delete_membership-IsConsistent :
    (g d : ℕ) (t : Tables) → IsConsistent t → IsConsistent (delete_membership g d t)
unfolding delete_membership
delete_membership-IsConsistent g d t c = record {
  members_exist =
      keep-All _ (MemberExists t) (MemberExists t) t.members (λ m q e. e) c.members_exist;
  members_once = keep-Pairs _ AreOtherMembers t.members c.members_once;
  assigned_exist = c.assigned_exist;
  assigned_once = c.assigned_once;
  assigned_below = c.assigned_below;
}

pub delete_assignment-IsConsistent :
    (k : ℕ) (t : Tables) → IsConsistent t → IsConsistent (delete_assignment k t)
unfolding delete_assignment
delete_assignment-IsConsistent k t c = record {
  members_exist = c.members_exist;
  members_once = c.members_once;
  assigned_exist =
      keep-All _ (AssignmentExists t) (AssignmentExists t) t.assignments (λ a q e. e)
        c.assigned_exist;
  assigned_once = keep-Pairs _ AreOtherAssignments t.assignments c.assigned_once;
  assigned_below =
      keep-All _ (λ a. a.id < t.next_id) (λ a. a.id < t.next_id) t.assignments (λ a q e. e)
        c.assigned_below;
}

-- A group other than the deleted one is still there.
kept_group :
    (g k : ℕ) (gs : List PrincipalGroup)
    → (k == g) ≡ false
    → any (is_group k) gs ≡ true
    → any (is_group k) (keep (λ x. not (is_group g x)) gs) ≡ true
kept_group g k gs ne h =
    rw (any-keep true (is_group k) (λ x. not (is_group g x)) gs (λ x e. ground arith)) h

kept_profile :
    (p k : ℕ) (ps : List ConfigurationProfile)
    → (k == p) ≡ false
    → any (is_profile k) ps ≡ true
    → any (is_profile k) (keep (λ x. not (is_profile p x)) ps) ≡ true
kept_profile p k ps ne h =
    rw (any-keep true (is_profile k) (λ x. not (is_profile p x)) ps (λ x e. ground arith)) h

pub delete_group-IsConsistent :
    (g : ℕ) (t : Tables) → IsConsistent t → IsConsistent (delete_group g t)
unfolding delete_group
delete_group-IsConsistent g t c = record {
  members_exist =
      keep-All _ (MemberExists t) _ t.members
        (λ m q e. (kept_group g m.group_id t.groups (ground arith) e.0, e.1)) c.members_exist;
  members_once = keep-Pairs _ AreOtherMembers t.members c.members_once;
  assigned_exist =
      keep-All _ (AssignmentExists t) _ t.assignments (λ a q e. (e.0, still a.target q e.1))
        c.assigned_exist;
  assigned_once = keep-Pairs _ AreOtherAssignments t.assignments c.assigned_once;
  assigned_below =
      keep-All _ (λ a. a.id < t.next_id) (λ a. a.id < t.next_id) t.assignments (λ a q e. e)
        c.assigned_below;
}
  where
    still :
        (target : Target)
        → not (target_eq target (principal_group g)) ≡ true
        → target_exists target t.assets t.groups ≡ true
        → target_exists target t.assets (delete_group g t).groups ≡ true
    still (device d) q e = e
    still (principal_group k) q e = kept_group g k t.groups (ground arith) e

pub delete_profile-IsConsistent :
    (p : ℕ) (t : Tables) → IsConsistent t → IsConsistent (delete_profile p t)
unfolding delete_profile
delete_profile-IsConsistent p t c = record {
  members_exist = c.members_exist;
  members_once = c.members_once;
  assigned_exist =
      keep-All _ (AssignmentExists t) _ t.assignments
        (λ a q e. (kept_profile p a.profile_id t.profiles (ground arith) e.0, e.1))
        c.assigned_exist;
  assigned_once = keep-Pairs _ AreOtherAssignments t.assignments c.assigned_once;
  assigned_below =
      keep-All _ (λ a. a.id < t.next_id) (λ a. a.id < t.next_id) t.assignments (λ a q e. e)
        c.assigned_below;
}

-- The tables after an insertion, where it is no error.
abbrev pub AfterInsert : {X : Type 0} → Option (X × Tables) → Type 0
AfterInsert none = Unit
AfterInsert (some (x, t)) = IsConsistent t

pub insert_membership-AfterInsert :
    (g d : ℕ) (t : Tables) → IsConsistent t → AfterInsert (insert_membership g d t)
unfolding insert_membership
insert_membership-AfterInsert g d t c = elim (Bool-cases (any (is_membership g d) t.members)) [
  | inl e ↦ rw (insert_membership, e) c
  | inr e ↦ elim (Bool-cases (any (is_group g) t.groups && any (is_asset d) t.assets)) [
    | inr f ↦ rw (insert_membership, e, f) tt
    | inl f ↦
        rw (insert_membership, e, f)
          (record {
            members_exist =
                All-append (MemberExists t) t.members _ c.members_exist
                  ((&&-eq-true_iff _ _).0 f, tt);
            members_once =
                append-Pairs AreOtherMembers t.members _ c.members_once
                  (All-map _ _ t.members (λ m o. ground arith) (any-false _ t.members e));
            assigned_exist = c.assigned_exist;
            assigned_once = c.assigned_once;
            assigned_below = c.assigned_below;
          })
  ]
]

pub target_eq_sym : (a b : Target) → target_eq a b ≡ target_eq b a
target_eq_sym (device a) (device b) = ground arith
target_eq_sym (principal_group a) (principal_group b) = ground arith
target_eq_sym (device a) (principal_group b) = refl
target_eq_sym (principal_group a) (device b) = refl

pub insert_assignment-AfterInsert :
    (p : ℕ) (target : Target) (t : Tables)
    → IsConsistent t
    → AfterInsert (insert_assignment p target t)
unfolding insert_assignment
insert_assignment-AfterInsert p target t c =
    elim (Bool-cases (any (is_assignment p target) t.assignments)) [
      | inl e ↦ rw (insert_assignment, e) c
      | inr e ↦
          elim (Bool-cases
            (any (is_profile p) t.profiles && target_exists target t.assets t.groups)) [
              | inr f ↦ rw (insert_assignment, e, f) tt
              | inl f ↦
                  rw (insert_assignment, e, f)
                    (record {
                      members_exist = c.members_exist;
                      members_once = c.members_once;
                      assigned_exist =
                          All-append (AssignmentExists t) t.assignments _ c.assigned_exist
                            ((&&-eq-true_iff _ _).0 f, tt);
                      assigned_once =
                          append-Pairs AreOtherAssignments t.assignments
                            (new_assignment t.next_id p target) c.assigned_once
                            (others t.assignments (any-false _ t.assignments e) c.assigned_below);
                      assigned_below =
                          All-append (λ a. a.id < t.next_id + 1) t.assignments _
                            (All-map (λ a. a.id < t.next_id) _ t.assignments
                              (λ a lt. omega (arith, lt)) c.assigned_below)
                            (omega arith, tt);
                    })
            ]
    ]
  where
    others :
        (rows : List ProfileAssignment)
        → All (λ a. is_assignment p target a ≡ false) rows
        → All (λ a. a.id < t.next_id) rows
        → All (λ a. AreOtherAssignments a (new_assignment t.next_id p target)) rows
    others [] h lt = tt
    others (a ∷ rows) h lt = (
      (ground (arith, h.0, target_eq_sym target a.target), λ e. omega (arith, e, lt.0)),
      others rows h.1 lt.1,
    )
