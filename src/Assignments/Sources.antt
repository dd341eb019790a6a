-- ===== src/Assignments/Sources.antt =====
-- The joins of the queries for a device, by what the view assigns to it.
use arx_mdm.Prelude.{
  ℕ, ◌≡◌, ◌≢◌, ◌↔◌, ◌⊎◌, refl, inl, inr, ◌∙◌, Bool, true, false, ◌&&◌, none, List, [], ◌∷◌, map,
  Text, Any, Any-append, Any-append_left, Any-append_right, In, In-Any, Any-witness, any, keep,
  Bool-cases, ==_iff, &&-eq-true_iff, arith, if◌then◌else◌, ◌==◌,
}
use arx_mdm.Assignments.Tables.{
  Membership, ConfigurationProfile, Target, device, principal_group, ProfileAssignment, Tables,
  target_eq, is_membership, is_assignment, find_assignment,
}
use arx_mdm.Assignments.Effective.{
  left_join, joins, reaches, join_members, for_each, join_assignments, has_platform,
}
use arx_mdm.Prelude.Rows.{any-false}
use arx_mdm.Assignments.Lookup.{target_eq_iff, find_assignment-none, find_assignment-some}
use arx_mdm.Assignments.View.{View, view}

-- Whether a target stands for a device.
abbrev pub is_target : ℕ → List Membership → Target → Bool
is_target d members (device k) = k == d
is_target d members (principal_group g) = any (is_membership g d) members

abbrev pub is_nonempty : {A : Type 0} → List A → Bool
is_nonempty [] = false
is_nonempty (x ∷ xs) = true

keep_nothing : (ms : List Membership) → keep {A = Membership} (λ m. false) ms ≡ []
keep_nothing [] = refl
keep_nothing (m ∷ ms) = keep_nothing ms

joined_rows :
    (g d : ℕ) (ms : List Membership)
    → is_nonempty (keep (reaches d (principal_group g)) (left_join ms)) ≡ is_nonempty ms
joined_rows g d [] = refl
joined_rows g d (m ∷ ms) = refl

is_nonempty-keep : {A : Type 0} (p : A → Bool) (xs : List A) → is_nonempty (keep p xs) ≡ any p xs
is_nonempty-keep p [] = refl
is_nonempty-keep p (x ∷ xs) = ground (arith, is_nonempty-keep p xs)

-- The left join has a row for an assignment where its target stands for the device.
pub is_nonempty-join_members :
    (d : ℕ) (members : List Membership) (a : ProfileAssignment)
    → is_nonempty (join_members d members a) ≡ is_target d members a.target
unfolding join_members
is_nonempty-join_members d members a = by_target a.target
  where
    by_target :
        (target : Target)
        → is_nonempty (keep (reaches d target) (left_join (keep (joins d target) members)))
          ≡ is_target d members target
    by_target (device k) = rw (keep_nothing members) (ground arith)
    by_target (principal_group g) =
        joined_rows g d (keep (is_membership g d) members)
        ∙ is_nonempty-keep (is_membership g d) members

pub for_each-In :
    {A B : Type 0} (f : A → List B) (b : B) (xs : List A)
    → In b (for_each f xs) ↔ Any (λ a. In b (f a)) xs
for_each-In f b [] = (λ h. h, λ h. h)
for_each-In f b (x ∷ xs) = ground (
  arith,
  Any-append (λ y. y ≡ b) (f x) (for_each f xs),
  Any-append_left (λ y. y ≡ b) (f x) (for_each f xs),
  Any-append_right (λ y. y ≡ b) (f x) (for_each f xs),
  for_each-In f b xs,
)

pub constant-In :
    {A B : Type 0} (c b : B) (xs : List A)
    → In b (map (λ x. c) xs) ↔ ((is_nonempty xs ≡ true) × (c ≡ b))
constant-In c b [] = (λ h. absurd h, λ h. cc)
constant-In c b (x ∷ xs) = ground (arith, constant-In c b xs)

-- A device gets a profile by itself or by a group.
abbrev pub Gets : View → ℕ → ℕ → Type 0
Gets v d p =
    (v.assigned p (device d) ≢ none)
    ⊎ ((g : ℕ) × (v.member g d ≡ true) × (v.assigned p (principal_group g) ≢ none))

abbrev pub reaches_by : ℕ → ℕ → List Membership → ProfileAssignment → Bool
reaches_by d p members a = a.profile_id == p && is_target d members a.target

Any-of_any :
    {A : Type 0} (p : A → Bool) (xs : List A) → Any (λ x. p x ≡ true) xs ↔ (any p xs ≡ true)
Any-of_any p [] = (λ h. absurd h, λ h. cc)
Any-of_any p (x ∷ xs) = ground (arith, Any-of_any p xs)

found :
    (p : ℕ) (target : Target) (rows : List ProfileAssignment)
    → (any (is_assignment p target) rows ≡ true) ↔ (find_assignment p target rows ≢ none)
found p target rows = (find_assignment-some p target rows, λ h. present h)
  where
    present : find_assignment p target rows ≢ none → any (is_assignment p target) rows ≡ true
    present h = elim (Bool-cases (any (is_assignment p target) rows)) [
      | inl e ↦ e
      | inr e ↦ absurd (h (find_assignment-none p target rows (any-false _ rows e)))
    ]

pub Gets-of_row :
    (d p : ℕ) (t : Tables) (a : ProfileAssignment)
    → In a t.assignments
    → reaches_by d p t.members a ≡ true
    → Gets (view t) d p
unfolding view
Gets-of_row d p t a m h = by_target a.target refl
  where
    stands : is_target d t.members a.target ≡ true
    stands = ((&&-eq-true_iff (a.profile_id == p) (is_target d t.members a.target)).0 h).1

    is_there :
        (target : Target) → a.target ≡ target → any (is_assignment p target) t.assignments ≡ true
    is_there target e = (Any-of_any (is_assignment p target) t.assignments).0 (
        In-Any (λ b. is_assignment p target b ≡ true) a t.assignments m
          ((&&-eq-true_iff _ _).1
            (((&&-eq-true_iff _ _).0 h).0, (target_eq_iff a.target target).1 e)))

    by_target : (target : Target) → a.target ≡ target → Gets (view t) d p
    by_target (device k) e =
        let same = (==_iff k d).0 (rw e at stands) in
        inl ((found p (device d) t.assignments).0 (rw same at (is_there (device k) e)))
    by_target (principal_group g) e = inr (
      g,
      rw e at stands,
      (found p (principal_group g) t.assignments).0 (is_there (principal_group g) e),
    )

row :
    (p : ℕ) (target : Target) (rows : List ProfileAssignment)
    → find_assignment p target rows ≢ none
    → (a : ProfileAssignment) × In a rows × (is_assignment p target a ≡ true)
row p target rows h =
    Any-witness (λ a. is_assignment p target a ≡ true) rows
      ((Any-of_any (is_assignment p target) rows).1 ((found p target rows).1 h))

reached :
    (d p : ℕ) (members : List Membership) (a : ProfileAssignment) (target : Target)
    → is_assignment p target a ≡ true
    → is_target d members target ≡ true
    → reaches_by d p members a ≡ true
reached d p members a target e s =
    let (x, y) = (&&-eq-true_iff (a.profile_id == p) (target_eq a.target target)).0 e in
    (&&-eq-true_iff _ _).1 (x, rw ((target_eq_iff a.target target).0 y) s)

pub row_of_Gets :
    (d p : ℕ) (t : Tables)
    → Gets (view t) d p
    → Any (λ a. reaches_by d p t.members a ≡ true) t.assignments
unfolding view
row_of_Gets d p t (inl h) =
    let (a, m, e) = row p (device d) t.assignments h in
    In-Any _ a t.assignments m (reached d p t.members a (device d) e ((==_iff d d).1 refl))
row_of_Gets d p t (inr (g, member, h)) =
    let (a, m, e) = row p (principal_group g) t.assignments h in
    In-Any _ a t.assignments m (reached d p t.members a (principal_group g) e member)

-- What the joins give for one profile, and for all that are chosen.
join_assignments-In :
    (d : ℕ) (t : Tables) (cp b : ConfigurationProfile) (a : ProfileAssignment)
    → In b (if a.profile_id == cp.id then map (λ m. cp) (join_members d t.members a) else [])
      ↔ ((reaches_by d cp.id t.members a ≡ true) × (cp ≡ b))
join_assignments-In d t cp b a =
    ground
      (arith, constant-In cp b (join_members d t.members a), is_nonempty-join_members d t.members a)

joined_profile-In :
    (d : ℕ) (t : Tables) (cp b : ConfigurationProfile)
    → In b (join_assignments d t cp) ↔ (Gets (view t) d cp.id × (cp ≡ b))
joined_profile-In d t cp b = (
  λ h.
      let (a, m, e) = Any-witness _ t.assignments ((for_each-In _ b t.assignments).0 h) in
      let (x, same) = (join_assignments-In d t cp b a).0 e in (Gets-of_row d cp.id t a m x, same),
  λ h.
      let (a, m, e) = Any-witness _ t.assignments (row_of_Gets d cp.id t h.0) in
      (for_each-In _ b t.assignments).1
        (In-Any _ a t.assignments m ((join_assignments-In d t cp b a).1 (e, h.1))),
)

pub chosen_profile-In :
    (d : ℕ) (t : Tables) (platform : Text) (cp b : ConfigurationProfile)
    → In b (if has_platform platform cp then join_assignments d t cp else [])
      ↔ ((has_platform platform cp ≡ true) × Gets (view t) d cp.id × (cp ≡ b))
chosen_profile-In d t platform cp b = elim (Bool-cases (has_platform platform cp)) [
  | inl e ↦ rw e (
    (λ h. let (x, y) = (joined_profile-In d t cp b).0 h in (refl, x, y)),
    λ h. (joined_profile-In d t cp b).1 (h.1, h.2),
  )
  | inr e ↦ rw e ((λ h. absurd h), λ h. cc)
]
