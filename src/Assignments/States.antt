-- ===== src/Assignments/States.antt =====
-- The states of assignments after the computation of a device's policy.
use arx_mdm.Prelude.{
  ℕ, ◌≡◌, ◌≢◌, refl, subst, ap, inl, inr, ◌∙◌, Bool, false, ◌&&◌, ◌||◌, some, List, [], ◌∷◌, ◌++◌,
  map, Text, All, All-In, In, any, Bool-cases, Option-cases, ==_iff, arith, if◌then◌else◌, ◌==◌,
  trim_space, to_lower, some_inj,
}
use arx_mdm.Prelude.Sort.{Pairs}
use arx_mdm.Prelude.Result.{Result-cases, ok}
use arx_mdm.Policy.Json.{Encoding}
use arx_mdm.Policy.Types.{MergeResult}
use arx_mdm.Policy.Merge.{merge_assigned_payloads}
use arx_mdm.Assignments.Tables.{
  Membership, ConfigurationProfile, ProfileAssignment, AssignmentState, Tables,
}
use arx_mdm.Assignments.Effective.{
  join_members, for_each, has_platform, affected, set_states, mark_affected,
  reconcile_profile_assignment_states, list_assigned_profiles_for_asset,
  assigned_rows_to_merge_inputs, compute_merged_effective_policy,
}
use arx_mdm.Prelude.Rows.{All-map}
use arx_mdm.Assignments.Consistent.{IsConsistent, AreOtherAssignments}
use arx_mdm.Assignments.ProfileCalls.{states-IsConsistent}
use arx_mdm.Assignments.Sources.{is_target, is_nonempty, is_nonempty-join_members}

-- An assignment of a chosen profile to a target that stands for the device.
abbrev pub in_scope :
    ℕ
    → (ConfigurationProfile → Bool)
    → List ConfigurationProfile
    → List Membership
    → ProfileAssignment
    → Bool
in_scope d chosen profiles members a =
    any (λ cp. a.profile_id == cp.id && chosen cp) profiles && is_target d members a.target

any-append :
    {B : Type 0} (p : B → Bool) (xs ys : List B) → any p (xs ++ ys) ≡ (any p xs || any p ys)
any-append p [] ys = refl
any-append p (x ∷ xs) ys = ground (arith, any-append p xs ys)

any-for_each :
    {A B : Type 0} (p : B → Bool) (f : A → List B) (xs : List A)
    → any p (for_each f xs) ≡ any (λ x. any p (f x)) xs
any-for_each p f [] = refl
any-for_each p f (x ∷ xs) = ground (arith, any-append p (f x) (for_each f xs), any-for_each p f xs)

any-constant :
    {A B : Type 0} (p : B → Bool) (b : B) (xs : List A)
    → any p (map (λ x. b) xs) ≡ (p b && is_nonempty xs)
any-constant p b [] = ground arith
any-constant p b (x ∷ xs) = ground (arith, any-constant p b xs)

-- The rows of `affected` for one assignment have its id, where it is in scope.
any-affected :
    (p : ℕ → Bool) (d : ℕ) (chosen : ConfigurationProfile → Bool) (t : Tables)
    (a : ProfileAssignment) (cps : List ConfigurationProfile)
    → any p (
        for_each
          (λ cp.
            if a.profile_id == cp.id && chosen cp
            then map (λ m. a.id) (join_members d t.members a)
            else [])
          cps)
      ≡ (p a.id && in_scope d chosen cps t.members a)
any-affected p d chosen t a [] = ground arith
any-affected p d chosen t a (cp ∷ cps) =
    any-append p
      (if a.profile_id == cp.id && chosen cp
        then map (λ m. a.id) (join_members d t.members a)
        else [])
      _
    ∙ ground (
      arith,
      any-affected p d chosen t a cps,
      any-constant p a.id (join_members d t.members a),
      is_nonempty-join_members d t.members a,
    )

-- Of other assignments no row has this id.
no_other :
    (k d : ℕ) (chosen : ConfigurationProfile → Bool) (t : Tables) (rows : List ProfileAssignment)
    → All (λ b. k ≢ b.id) rows
    → any (λ j. k == j) (for_each (affected d chosen t) rows) ≡ false
no_other k d chosen t [] h = refl
no_other k d chosen t (b ∷ rows) h =
    let (ne, others) = h in
    any-append (λ j. k == j) (affected d chosen t b) (for_each (affected d chosen t) rows)
    ∙ ground (
      arith,
      any-affected (λ j. k == j) d chosen t b t.profiles,
      no_other k d chosen t rows others,
      ==_iff k b.id,
      ne,
    )

any-ids :
    (d : ℕ) (chosen : ConfigurationProfile → Bool) (t : Tables) (a : ProfileAssignment)
    (rows : List ProfileAssignment)
    → Pairs AreOtherAssignments rows
    → In a rows
    → any (λ k. a.id == k) (for_each (affected d chosen t) rows)
      ≡ in_scope d chosen t.profiles t.members a
any-ids d chosen t a [] h m = absurd m
any-ids d chosen t a (b ∷ rows) h (inl e) =
    any-append (λ k. a.id == k) (affected d chosen t b) (for_each (affected d chosen t) rows)
    ∙ subst
        (λ (c : ProfileAssignment).
          (any (λ k. c.id == k) (affected d chosen t b)
            || any (λ k. c.id == k) (for_each (affected d chosen t) rows))
          ≡ in_scope d chosen t.profiles t.members c)
        e
        (rw
          (
            any-affected (λ k. b.id == k) d chosen t b t.profiles,
            no_other b.id d chosen t rows (All-map (AreOtherAssignments b) _ rows (λ c o. o.1) h.0),
            (==_iff b.id b.id).1 refl,
          )
          (ground arith))
any-ids d chosen t a (b ∷ rows) h (inr m) =
    let apart =
      All-In (λ c. b.id ≢ c.id) a rows (All-map (AreOtherAssignments b) _ rows (λ c o. o.1) h.0)
        m in
    any-append (λ k. a.id == k) (affected d chosen t b) (for_each (affected d chosen t) rows)
    ∙ ground (
      arith,
      any-affected (λ k. a.id == k) d chosen t b t.profiles,
      any-ids d chosen t a rows h.1 m,
      ==_iff a.id b.id,
      apart,
    )

abbrev marked :
    ℕ
    → (ConfigurationProfile → Bool)
    → AssignmentState
    → Tables
    → ProfileAssignment
    → ProfileAssignment
marked d chosen state t a =
    if in_scope d chosen t.profiles t.members a then record a { assignment_state = state } else a

set_states-map :
    (ids : List ℕ) (state : AssignmentState) (f : ProfileAssignment → Bool)
    (rows : List ProfileAssignment)
    → ((a : ProfileAssignment) → In a rows → any (λ k. a.id == k) ids ≡ f a)
    → set_states ids state rows
      ≡ map (λ a. if f a then record a { assignment_state = state } else a) rows
unfolding set_states
set_states-map ids state f [] h = refl
set_states-map ids state f (a ∷ rows) h =
    rw (set_states, h a (inl refl), set_states-map ids state f rows (λ b m. h b (inr m))) refl

mark_affected-map :
    (d : ℕ) (chosen : ConfigurationProfile → Bool) (state : AssignmentState) (t : Tables)
    → IsConsistent t
    → (mark_affected d chosen state t).assignments ≡ map (marked d chosen state t) t.assignments
unfolding mark_affected
mark_affected-map d chosen state t c =
    set_states-map (for_each (affected d chosen t) t.assignments) state _ t.assignments
      (λ a m. any-ids d chosen t a t.assignments c.assigned_once m)

-- What the computation makes of one assignment.
abbrev pub settled : ℕ → Text → List ℕ → Tables → ProfileAssignment → ProfileAssignment
settled d p conflicting t a =
    if in_scope d (has_platform p) t.profiles t.members a
    then record a {
      assignment_state =
          if any (λ c. a.profile_id == c) conflicting
          then AssignmentState.conflict
          else AssignmentState.ok;
    }
    else a

any-chosen :
    (k : ℕ) (p : Text) (cs : List ℕ) (cps : List ConfigurationProfile)
    → any (λ cp. k == cp.id && (has_platform p cp && any (λ c. cp.id == c) cs)) cps
      ≡ (any (λ cp. k == cp.id && has_platform p cp) cps && any (λ c. k == c) cs)
any-chosen k p cs [] = refl
any-chosen k p cs (cp ∷ cps) = elim (Bool-cases (k == cp.id)) [
  | inr e ↦ rw e (any-chosen k p cs cps)
  | inl e ↦ rw (e, ← (==_iff k cp.id).0 e, any-chosen k p cs cps) (ground arith)
]

map-map_congr :
    {A : Type 0} (f g h : A → A) (xs : List A)
    → ((x : A) → f (g x) ≡ h x)
    → map f (map g xs) ≡ map h xs
map-map_congr f g h [] e = refl
map-map_congr f g h (x ∷ xs) e = rw (e x, map-map_congr f g h xs e) refl

reset-IsConsistent :
    (d : ℕ) (p : Text) (t : Tables)
    → IsConsistent t
    → IsConsistent (mark_affected d (has_platform p) AssignmentState.ok t)
unfolding mark_affected
reset-IsConsistent d p t c = states-IsConsistent _ AssignmentState.ok t c

reset_profiles :
    (d : ℕ) (p : Text) (t : Tables)
    → (mark_affected d (has_platform p) AssignmentState.ok t).profiles ≡ t.profiles
unfolding mark_affected
reset_profiles d p t = refl

reset_members :
    (d : ℕ) (p : Text) (t : Tables)
    → (mark_affected d (has_platform p) AssignmentState.ok t).members ≡ t.members
unfolding mark_affected
reset_members d p t = refl

marked_twice :
    (d : ℕ) (p : Text) (cs : List ℕ) (t t' : Tables) (a : ProfileAssignment)
    → t'.profiles ≡ t.profiles
    → t'.members ≡ t.members
    → marked d
        (λ cp. has_platform p cp && any (λ c. cp.id == c) cs)
        AssignmentState.conflict
        t'
        (marked d (has_platform p) AssignmentState.ok t a)
      ≡ settled d p cs t a
marked_twice d p cs t t' a profiles members =
    rw (profiles, members)
      (elim (Bool-cases (in_scope d (has_platform p) t.profiles t.members a)) [
        | inl e ↦ rw (e, any-chosen a.profile_id p cs t.profiles) (ground arith)
        | inr e ↦ rw (e, any-chosen a.profile_id p cs t.profiles) (ground arith)
      ])

reconcile-map :
    (d : ℕ) (platform : Text) (conflicting : List ℕ) (t : Tables)
    → IsConsistent t
    → (reconcile_profile_assignment_states d platform conflicting t).assignments
      ≡ map (settled d (to_lower (trim_space platform)) conflicting t) t.assignments
unfolding reconcile_profile_assignment_states
reconcile-map d platform [] t c =
    mark_affected-map d (has_platform (to_lower (trim_space platform))) AssignmentState.ok t c
reconcile-map d platform (k ∷ ks) t c =
    let p = to_lower (trim_space platform) in
    let chosen =
      λ (cp : ConfigurationProfile). has_platform p cp && any (λ c. cp.id == c) (k ∷ ks) in
    let reset = mark_affected d (has_platform p) AssignmentState.ok t in
    mark_affected-map d chosen AssignmentState.conflict reset (reset-IsConsistent d p t c)
    ∙ ap (map (marked d chosen AssignmentState.conflict reset))
        (mark_affected-map d (has_platform p) AssignmentState.ok t c)
    ∙ map-map_congr _ _ (settled d p (k ∷ ks) t) t.assignments
        (λ a. marked_twice d p (k ∷ ks) t reset a (reset_profiles d p t) (reset_members d p t))

-- A device's policy, where it is computed, is the merge of the profiles that it is given. An assignment
-- of a profile for the platform to the device or to one of its groups is then in conflict where the
-- merge found its profile in a conflict and is ok otherwise, whatever it was before; all other
-- assignments are as they were. Tables that are consistent.
pub compute_merged_effective_policy-states :
    (E : Encoding) (t : Tables) (d : ℕ) (platform : Text) (r : MergeResult E.Float)
    → IsConsistent t
    → (compute_merged_effective_policy E t d platform).0 ≡ some r
    → ((rows : List ConfigurationProfile) × (list_assigned_profiles_for_asset t d platform
          ≡ some rows)
        × (merge_assigned_payloads E (assigned_rows_to_merge_inputs rows) ≡ ok r))
      × ((compute_merged_effective_policy E t d platform).1.assignments
          ≡ map (settled d (to_lower (trim_space platform)) r.conflict_profiles t) t.assignments)
unfolding compute_merged_effective_policy
compute_merged_effective_policy-states E t d platform r c h =
    elim (Option-cases (list_assigned_profiles_for_asset t d platform)) [
      | inl e ↦ cc (rw (compute_merged_effective_policy, e) at h)
      | inr (rows, e) ↦
          elim (Result-cases (merge_assigned_payloads E (assigned_rows_to_merge_inputs rows))) [
            | inr (x, f) ↦ cc (rw (compute_merged_effective_policy, e, f) at h)
            | inl (r', f) ↦
                let same : r' ≡ r = some_inj (rw (compute_merged_effective_policy, e, f) at h) in
                (
                  (rows, e, rw same at f),
                  rw (compute_merged_effective_policy, e, f)
                      (rw (← same) (reconcile-map d platform r'.conflict_profiles t c)),
                )
          ]
    ]
