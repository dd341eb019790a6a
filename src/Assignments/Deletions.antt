-- ===== src/Assignments/Deletions.antt =====
-- Deletions as changes of a view.
use arx_mdm.Prelude.{
  ℕ, ◌≡◌, refl, inl, inr, ◌∙◌, true, false, ◌&&◌, not, none, List, [], ◌∷◌, All, any, Bool-cases,
  ==_iff, &&-eq-true_iff, arith, if◌then◌else◌, ◌==◌,
}
use arx_mdm.Assignments.Tables.{
  Membership, Target, principal_group, ProfileAssignment, Tables, target_eq, is_group, is_profile,
  is_membership, is_assignment, find_assignment, delete_group, delete_profile, delete_membership,
  delete_assignment,
}
use arx_mdm.Prelude.Rows.{any-keep}
use arx_mdm.Assignments.Consistent.{IsConsistent, MemberExists, AssignmentExists}
use arx_mdm.Assignments.Lookup.{
  target_eq_iff, find_assignment-keep, find_assignment-none, find_assignment-delete,
}
use arx_mdm.Assignments.View.{
  View-ext, view, without_group, without_member, without_profile, unless_id, without_assignment,
}

pub view-delete_membership :
    (g d : ℕ) (t : Tables) → view (delete_membership g d t) ≡ without_member g d (view t)
unfolding delete_membership view
view-delete_membership g d t =
    View-ext _ _
      (λ g' d'.
        any-keep (not (g' == g && d' == d)) (is_membership g' d') _ t.members (λ m e. ground arith))
      (λ p target. refl)

-- A membership that is not there is no loss.
pub view-no_membership :
    (g d : ℕ) (t : Tables)
    → any (is_membership g d) t.members ≡ false
    → view t ≡ without_member g d (view t)
unfolding view
view-no_membership g d t h = View-ext _ _ (λ g' d'. absent g' d') (λ p target. refl)
  where
    absent :
        (g' d' : ℕ)
        → any (is_membership g' d') t.members
          ≡ (not (g' == g && d' == d) && any (is_membership g' d') t.members)
    absent g' d' = elim (Bool-cases (g' == g && d' == d)) [
      | inr e ↦ rw e refl
      | inl e ↦
          let (a, b) = (&&-eq-true_iff _ _).0 e in
          rw ((==_iff g' g).0 a, (==_iff d' d).0 b, h) (ground arith)
    ]

pub view-delete_assignment :
    (k : ℕ) (t : Tables)
    → IsConsistent t
    → view (delete_assignment k t) ≡ without_assignment k (view t)
unfolding delete_assignment view
view-delete_assignment k t c =
    View-ext _ _ (λ g d. refl)
      (λ p target. find_assignment-delete k p target t.assignments c.assigned_once)

pub view-delete_profile :
    (p : ℕ) (t : Tables) → view (delete_profile p t) ≡ without_profile p (view t)
unfolding delete_profile view
view-delete_profile p t =
    View-ext _ _ (λ g d. refl)
      (λ p' target.
        find_assignment-keep (not (p' == p)) p' target _ t.assignments (λ a e. ground arith)
        ∙ ground arith)

key :
    (p : ℕ) (target : Target) (a : ProfileAssignment)
    → is_assignment p target a ≡ true
    → a.target ≡ target
key p target a e = (target_eq_iff a.target target).0 ((&&-eq-true_iff _ _).0 e).1

pub view-delete_group : (g : ℕ) (t : Tables) → view (delete_group g t) ≡ without_group g (view t)
unfolding delete_group view
view-delete_group g t =
    View-ext _ _
      (λ g' d. any-keep (not (g' == g)) (is_membership g' d) _ t.members (λ m e. ground arith))
      (λ p target.
        find_assignment-keep (not (target_eq target (principal_group g))) p target
          (λ a. not (target_eq a.target (principal_group g))) t.assignments
          (λ a e. rw (key p target a e) refl)
        ∙ ground arith)

-- A profile that is not there has no assignments.
no_assignments :
    (p : ℕ) (t : Tables) (target : Target) (rows : List ProfileAssignment)
    → any (is_profile p) t.profiles ≡ false
    → All (AssignmentExists t) rows
    → All (λ a. is_assignment p target a ≡ false) rows
no_assignments p t target [] h c = tt
no_assignments p t target (a ∷ rows) h c = (
  elim (Bool-cases (a.profile_id == p)) [
    | inr e ↦ rw e refl
    | inl e ↦ cc (h, rw ((==_iff a.profile_id p).0 e) at c.0.0)
  ],
  no_assignments p t target rows h c.1,
)

pub view-no_profile :
    (p : ℕ) (t : Tables)
    → IsConsistent t
    → any (is_profile p) t.profiles ≡ false
    → view t ≡ without_profile p (view t)
unfolding view
view-no_profile p t c h = View-ext _ _ (λ g d. refl) absent
  where
    absent :
        (p' : ℕ) (target : Target)
        → find_assignment p' target t.assignments
          ≡ (if p' == p then none else find_assignment p' target t.assignments)
    absent p' target = elim (Bool-cases (p' == p)) [
      | inr e ↦ rw e refl
      | inl e ↦
          rw (e, (==_iff p' p).0 e)
            (find_assignment-none p target t.assignments
              (no_assignments p t target t.assignments h c.assigned_exist))
    ]

no_members :
    (g : ℕ) (t : Tables) (g' d : ℕ) (rows : List Membership)
    → any (is_group g) t.groups ≡ false
    → All (MemberExists t) rows
    → any (is_membership g' d) rows ≡ (not (g' == g) && any (is_membership g' d) rows)
no_members g t g' d [] h c = ground arith
no_members g t g' d (m ∷ rows) h c = elim (Bool-cases (g' == g)) [
  | inr e ↦ rw e refl
  | inl e ↦ elim (Bool-cases (is_membership g' d m)) [
    | inr f ↦ rw f (no_members g t g' d rows h c.1)
    | inl f ↦
        let same = (==_iff m.group_id g').0 ((&&-eq-true_iff _ _).0 f).0 in
        cc (h, rw (same, (==_iff g' g).0 e) at c.0.0)
  ]
]

no_group_assignments :
    (g p : ℕ) (t : Tables) (target : Target) (rows : List ProfileAssignment)
    → any (is_group g) t.groups ≡ false
    → target_eq target (principal_group g) ≡ true
    → All (AssignmentExists t) rows
    → All (λ a. is_assignment p target a ≡ false) rows
no_group_assignments g p t target [] h e c = tt
no_group_assignments g p t target (a ∷ rows) h e c = (
  elim (Bool-cases (target_eq a.target target)) [
    | inr f ↦ rw f (ground arith)
    | inl f ↦
        let same = (target_eq_iff a.target target).0 f in
        let group = (target_eq_iff target (principal_group g)).0 e in
        cc (h, rw (same, group) at c.0.1)
  ],
  no_group_assignments g p t target rows h e c.1,
)

-- A group that is not there has no members and no assignments.
pub view-no_group :
    (g : ℕ) (t : Tables)
    → IsConsistent t
    → any (is_group g) t.groups ≡ false
    → view t ≡ without_group g (view t)
unfolding view
view-no_group g t c h =
    View-ext _ _ (λ g' d. no_members g t g' d t.members h c.members_exist) absent
  where
    absent :
        (p : ℕ) (target : Target)
        → find_assignment p target t.assignments ≡ (
            if target_eq target (principal_group g)
            then none
            else find_assignment p target t.assignments)
    absent p target = elim (Bool-cases (target_eq target (principal_group g))) [
      | inr e ↦ rw e refl
      | inl e ↦ rw e (
          find_assignment-none p target t.assignments
            (no_group_assignments g p t target t.assignments h e c.assigned_exist))
    ]

pub view-no_assignment :
    (k : ℕ) (t : Tables)
    → any (λ a. a.id == k) t.assignments ≡ false
    → view t ≡ without_assignment k (view t)
unfolding view
view-no_assignment k t h = View-ext _ _ (λ g d. refl) (λ p target. absent p target t.assignments h)
  where
    absent :
        (p : ℕ) (target : Target) (rows : List ProfileAssignment)
        → any (λ a. a.id == k) rows ≡ false
        → find_assignment p target rows ≡ unless_id k (find_assignment p target rows)
    absent p target [] h = refl
    absent p target (a ∷ rows) h = elim (Bool-cases (is_assignment p target a)) [
      | inr e ↦ rw e (absent p target rows (ground arith))
      | inl e ↦ let other : (a.id == k) ≡ false = ground arith in rw (e, other) refl
    ]
