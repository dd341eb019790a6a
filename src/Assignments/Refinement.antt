-- ===== src/Assignments/Refinement.antt =====
-- The calls on the tables do what the views of them promise.
use arx_mdm.Prelude.{
  ℕ, ◌+◌, ◌≡◌, refl, inl, inr, ◌∙◌, true, false, ◌&&◌, Option, none, some, List, [], ◌∷◌, ◌++◌,
  Text, All, any, Bool-cases, Option-cases, ==_iff, &&-eq-true_iff, arith, if◌then◌else◌, ◌==◌,
}
use arx_mdm.Assignments.Tables.{
  Membership, Target, ProfileAssignment, Tables, target_eq, is_group, is_profile, is_asset,
  is_membership, is_assignment, target_exists, new_assignment, find_assignment, insert_membership,
  insert_assignment,
}
use arx_mdm.Assignments.Groups.{
  insert_memberships, parse_ids, add_parsed, add_devices, handle_add_devices,
}
use arx_mdm.Assignments.Profiles.{
  AssignProfileRequest, target_of, assign_target, assign_read, handle_assign_profile,
}
use arx_mdm.Prelude.Rows.{any-append_one, any-false}
use arx_mdm.Assignments.Consistent.{
  IsConsistent, MemberExists, AssignmentExists, insert_membership-AfterInsert, target_eq_sym,
}
use arx_mdm.Assignments.Lookup.{
  target_eq_iff, find_assignment-none, find_assignment-some, find_assignment-append,
}
use arx_mdm.Assignments.View.{
  View, View-ext, view, with_members, or_new, with_assignment, existing_prefix, when_id,
  when_profile, add_to_view, assign_to_view,
}

with_members-nil : (g : ℕ) (v : View) → v ≡ with_members g [] v
with_members-nil g v = View-ext _ _ (λ g' d'. ground arith) (λ p target. refl)

member_exists :
    (g d : ℕ) (t : Tables)
    → IsConsistent t
    → any (is_membership g d) t.members ≡ true
    → any (is_asset d) t.assets ≡ true
member_exists g d t c h = found t.members c.members_exist h
  where
    found :
        (rows : List Membership)
        → All (MemberExists t) rows
        → any (is_membership g d) rows ≡ true
        → any (is_asset d) t.assets ≡ true
    found [] e h = cc
    found (m ∷ rows) e h = elim (Bool-cases (is_membership g d m)) [
      | inr f ↦ found rows e.1 (ground arith)
      | inl f ↦ let same = (==_iff m.device_id d).0 ((&&-eq-true_iff _ _).0 f).1 in rw same at e.0.1
    ]

-- A device that is a member already adds nothing.
with_members-old :
    (g d : ℕ) (ds : List ℕ) (v : View)
    → v.member g d ≡ true
    → with_members g ds v ≡ with_members g (d ∷ ds) v
with_members-old g d ds v h =
    View-ext _ _
      (λ g' d'. elim (Bool-cases (g' == g && d == d')) [
        | inr e ↦ ground arith
        | inl e ↦
            let (a, b) = (&&-eq-true_iff _ _).0 e in
            rw ((==_iff g' g).0 a, ← (==_iff d d').0 b, h) refl
      ])
      (λ p target. refl)

abbrev joined : ℕ → ℕ → Tables → Tables
joined g d t = record t { members = t.members ++ record { group_id = g; device_id = d } ∷ [] }

with_members-joined :
    (g d : ℕ) (ds : List ℕ) (t : Tables)
    → with_members g ds (view (joined g d t)) ≡ with_members g (d ∷ ds) (view t)
unfolding view
with_members-joined g d ds t =
    View-ext _ _
      (λ g' d'. ground (
        arith,
        any-append_one (is_membership g' d') t.members (record { group_id = g; device_id = d }),
      ))
      (λ p target. refl)

joined-IsConsistent :
    (g d : ℕ) (t : Tables)
    → IsConsistent t
    → any (is_membership g d) t.members ≡ false
    → any (is_group g) t.groups ≡ true
    → any (is_asset d) t.assets ≡ true
    → IsConsistent (joined g d t)
unfolding insert_membership
joined-IsConsistent g d t c e h f =
    rw (insert_membership, e, h, f) at (insert_membership-AfterInsert g d t c)

view-insert_memberships :
    (g : ℕ) (ds : List ℕ) (n : ℕ) (t : Tables)
    → IsConsistent t
    → any (is_group g) t.groups ≡ true
    → view (insert_memberships g ds n t).2 ≡ with_members g (existing_prefix t.assets ds) (view t)
unfolding insert_memberships
view-insert_memberships g [] n t c h = with_members-nil g (view t)
view-insert_memberships g (d ∷ ds) n t c h = elim (Bool-cases (any (is_membership g d) t.members)) [
  | inl e ↦
      rw (insert_memberships, insert_membership, e, member_exists g d t c e)
        (view-insert_memberships g ds n t c h
          ∙ with_members-old g d (existing_prefix t.assets ds) (view t) (unfold view in e))
  | inr e ↦ elim (Bool-cases (any (is_asset d) t.assets)) [
    | inr f ↦ rw (insert_memberships, insert_membership, e, h, f) (with_members-nil g (view t))
    | inl f ↦
        rw (insert_memberships, insert_membership, e, h, f)
          (view-insert_memberships g ds (n + 1) (joined g d t) (joined-IsConsistent g d t c e h f) h
            ∙ with_members-joined g d (existing_prefix t.assets ds) t)
  ]
]

view-add_parsed :
    (g : ℕ) (ds : Option (List ℕ)) (t : Tables)
    → IsConsistent t
    → view (add_parsed g ds t).2 ≡ add_to_view g ds t (view t)
view-add_parsed g none t c = refl
view-add_parsed g (some ds) t c = elim (Bool-cases (any (is_group g) t.groups)) [
  | inr e ↦ rw e refl
  | inl e ↦ rw e (view-insert_memberships g ds 0 t c e)
]

add_to_view-nil : (g : ℕ) (t : Tables) → view t ≡ add_to_view g (some []) t (view t)
add_to_view-nil g t = elim (Bool-cases (any (is_group g) t.groups)) [
  | inl e ↦ rw e (with_members-nil g (view t))
  | inr e ↦ rw e refl
]

view-add_devices :
    (parse_uuid : Text → Option ℕ) (g : ℕ) (ids : List Text) (t : Tables)
    → IsConsistent t
    → view (add_devices parse_uuid g ids t).2 ≡ add_to_view g (parse_ids parse_uuid ids) t (view t)
unfolding parse_ids
view-add_devices parse_uuid g [] t c = add_to_view-nil g t
view-add_devices parse_uuid g (raw ∷ raws) t c =
    view-add_parsed g (parse_ids parse_uuid (raw ∷ raws)) t c

pub view-handle_add_devices :
    (parse_uuid : Text → Option ℕ) (gid : Option ℕ) (ids : List Text) (t : Tables)
    → IsConsistent t
    → view (handle_add_devices parse_uuid gid ids t).2
      ≡ when_id gid (view t) (λ g. add_to_view g (parse_ids parse_uuid ids) t (view t))
unfolding handle_add_devices
view-handle_add_devices parse_uuid none ids t c = refl
view-handle_add_devices parse_uuid (some g) ids t c = elim (Bool-cases (g == 0)) [
  | inl e ↦ rw (handle_add_devices, e) refl
  | inr e ↦ rw (handle_add_devices, e) (view-add_devices parse_uuid g ids t c)
]

-- An assignment that is there has its profile and its target.
assignment_exists :
    (p : ℕ) (target : Target) (t : Tables) (rows : List ProfileAssignment)
    → All (AssignmentExists t) rows
    → any (is_assignment p target) rows ≡ true
    → (any (is_profile p) t.profiles ≡ true) × (target_exists target t.assets t.groups ≡ true)
assignment_exists p target t [] c h = cc
assignment_exists p target t (a ∷ rows) c h = elim (Bool-cases (is_assignment p target a)) [
  | inr e ↦ assignment_exists p target t rows c.1 (ground arith)
  | inl e ↦
      let (x, y) = (&&-eq-true_iff _ _).0 e in
      rw ((==_iff a.profile_id p).0 x, (target_eq_iff a.target target).0 y) at c.0
]

with_assignment-old :
    (p k j : ℕ) (target : Target) (v : View)
    → v.assigned p target ≡ some k
    → v ≡ with_assignment p target j v
with_assignment-old p k j target v h =
    View-ext _ _ (λ g d. refl)
      (λ p' target'. elim (Bool-cases (p' == p && target_eq target' target)) [
        | inr e ↦ rw e refl
        | inl e ↦
            let (a, b) = (&&-eq-true_iff _ _).0 e in
            rw (e, (==_iff p' p).0 a, (target_eq_iff target' target).0 b, h) refl
      ])

abbrev assigned_too : ℕ → Target → Tables → Tables
assigned_too p target t = record t {
  assignments = t.assignments ++ new_assignment t.next_id p target ∷ [];
  next_id = t.next_id + 1;
}

view-assigned_too :
    (p : ℕ) (target : Target) (t : Tables)
    → any (is_assignment p target) t.assignments ≡ false
    → view (assigned_too p target t) ≡ with_assignment p target t.next_id (view t)
unfolding view
view-assigned_too p target t h = View-ext _ _ (λ g d. refl) lookup
  where
    lookup :
        (p' : ℕ) (target' : Target)
        → find_assignment p' target' (t.assignments ++ new_assignment t.next_id p target ∷ []) ≡ (
            if p' == p && target_eq target' target
            then or_new t.next_id (find_assignment p target t.assignments)
            else find_assignment p' target' t.assignments)
    lookup p' target' =
        rw (find_assignment-append p' target' t.assignments (new_assignment t.next_id p target))
          (elim (Bool-cases (p' == p && target_eq target' target)) [
            | inl e ↦
                let (a, b) = (&&-eq-true_iff _ _).0 e in
                let same = (==_iff p' p).0 a in
                let here = (target_eq_iff target' target).0 b in
                let before =
                  find_assignment-none p target t.assignments
                    (any-false (is_assignment p target) t.assignments h) in
                rw (same, here, before, (target_eq_iff target target).1 refl) (ground arith)
            | inr e ↦ elim (Option-cases (find_assignment p' target' t.assignments)) [
              | inr (k, f) ↦ rw (e, f) refl
              | inl f ↦
                  let other : (p == p' && target_eq target target') ≡ false =
                    ground (arith, target_eq_sym target target') in
                  rw (e, f, other) refl
            ]
          ])

view-assign_target :
    (p : ℕ) (target : Target) (t : Tables)
    → IsConsistent t
    → any (is_profile p) t.profiles ≡ true
    → view (assign_target p target t).2 ≡ assign_to_view p (some (some target)) t (view t)
unfolding assign_target insert_assignment
view-assign_target p target t c h = elim (Bool-cases (any (is_assignment p target) t.assignments)) [
  | inl e ↦ elim (Option-cases (find_assignment p target t.assignments)) [
    | inl f ↦ absurd (find_assignment-some p target t.assignments e f)
    | inr (k, f) ↦
        let (x, y) = assignment_exists p target t t.assignments c.assigned_exist e in
        rw (assign_target, insert_assignment, e, f, h, y)
          (with_assignment-old p k t.next_id target (view t) (unfold view in f))
  ]
  | inr e ↦ elim (Bool-cases (target_exists target t.assets t.groups)) [
    | inl f ↦ rw (assign_target, insert_assignment, e, h, f) (view-assigned_too p target t e)
    | inr f ↦ rw (assign_target, insert_assignment, e, h, f) refl
  ]
]

view-assign_read :
    (p : ℕ) (read : Option (Option Target)) (t : Tables)
    → IsConsistent t
    → view (assign_read p read t).2 ≡ assign_to_view p read t (view t)
view-assign_read p none t c = refl
view-assign_read p (some none) t c = elim (Bool-cases (any (is_profile p) t.profiles)) [
  | inl e ↦ rw e refl
  | inr e ↦ rw e refl
]
view-assign_read p (some (some target)) t c = elim (Bool-cases (any (is_profile p) t.profiles)) [
  | inl e ↦ rw e (rw e at (view-assign_target p target t c e))
  | inr e ↦ rw e refl
]

pub view-handle_assign_profile :
    (parse_uuid : Text → Option ℕ) (pid : Option ℕ) (req : AssignProfileRequest) (t : Tables)
    → IsConsistent t
    → view (handle_assign_profile parse_uuid pid req t).2
      ≡ when_profile pid (view t) (λ p. assign_to_view p (target_of parse_uuid req) t (view t))
unfolding handle_assign_profile
view-handle_assign_profile parse_uuid none req t c = refl
view-handle_assign_profile parse_uuid (some p) req t c =
    view-assign_read p (target_of parse_uuid req) t c
