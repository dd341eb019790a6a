-- ===== src/Assignments/Listing.antt =====
-- ListAssignedProfilesForAsset gives a device the profiles that the view assigns to it.
use arx_mdm.Prelude.{
  ℕ, ◌≡◌, ◌≢◌, ◌↔◌, refl, sym, subst, inl, inr, true, some, List, [], ◌∷◌, Text, text_eq,
  text_eq_iff, In, In-Any, Any-witness, All-of_In, Bool-cases, ==_iff, arith, if◌then◌else◌,
  trim_space, to_lower, some_inj,
}
use arx_mdm.Prelude.Sort.{
  sort_by, distinct, IsDistinct, distinct-In, distinct-IsDistinct, sort_by-In, IsSortedBy,
  sort_by-IsSortedBy, Pairs, sort_by-Pairs,
}
use arx_mdm.Assignments.Tables.{ConfigurationProfile, Tables}
use arx_mdm.Assignments.Effective.{
  for_each, join_assignments, has_platform, same_columns, list_assigned_profiles_for_asset,
}
use arx_mdm.Assignments.View.{view}
use arx_mdm.Assignments.Sources.{for_each-In, Gets, chosen_profile-In}

same_columns_iff : (a b : ConfigurationProfile) → (same_columns a b ≡ true) ↔ (a ≡ b)
same_columns_iff a b = ground (
  arith,
  ==_iff a.id b.id,
  text_eq_iff a.name b.name,
  text_eq_iff a.type b.type,
  text_eq_iff a.payload b.payload,
  text_eq_iff a.platform b.platform,
)

IsDistinct-Pairs : {A : Type 0} (xs : List A) → IsDistinct xs → Pairs (λ a b. a ≢ b) xs
IsDistinct-Pairs [] h = tt
IsDistinct-Pairs (x ∷ xs) h =
    (All-of_In _ xs (λ a m e. h.0 (subst (λ y. In y xs) (sym e) m)), IsDistinct-Pairs xs h.1)

abbrev selected : Tables → ℕ → Text → List ConfigurationProfile
selected t d p =
    for_each (λ cp. if has_platform p cp then join_assignments d t cp else []) t.profiles

selected-In :
    (t : Tables) (d : ℕ) (p : Text) (b : ConfigurationProfile)
    → In b (selected t d p) ↔ (In b t.profiles × (has_platform p b ≡ true) × Gets (view t) d b.id)
selected-In t d p b = (
  λ h.
      let (cp, m, e) = Any-witness _ t.profiles ((for_each-In _ b t.profiles).0 h) in
      let (x, y, same) = (chosen_profile-In d t p cp b).0 e in
      (
        subst (λ c. In c t.profiles) same m,
        subst (λ (c : ConfigurationProfile). has_platform p c ≡ true) same x,
        subst (λ (c : ConfigurationProfile). Gets (view t) d c.id) same y,
      ),
  λ h.
      (for_each-In _ b t.profiles).1
        (In-Any _ b t.profiles h.0 ((chosen_profile-In d t p b b).1 (h.1, h.2, refl))),
)

-- The result, where the platform is not blank.
listed :
    (t : Tables) (d : ℕ) (platform : Text) (rows : List ConfigurationProfile)
    → list_assigned_profiles_for_asset t d platform ≡ some rows
    → sort_by
        (λ cp. cp.name)
        (distinct same_columns (selected t d (to_lower (trim_space platform))))
      ≡ rows
unfolding list_assigned_profiles_for_asset
listed t d platform rows h = elim (Bool-cases (text_eq (to_lower (trim_space platform)) [])) [
  | inl e ↦ cc (rw (list_assigned_profiles_for_asset, e) at h)
  | inr e ↦ some_inj (rw (list_assigned_profiles_for_asset, e) at h)
]

-- The list of a device, for a platform that is not blank, holds exactly the profiles of that platform
-- that are assigned to the device or to one of its groups, each once and in the order of their names.
pub list_assigned_profiles_for_asset-In :
    (t : Tables) (d : ℕ) (platform : Text) (rows : List ConfigurationProfile)
    → list_assigned_profiles_for_asset t d platform ≡ some rows
    → ((b : ConfigurationProfile)
        → In b rows ↔ (
            In b t.profiles
            × (has_platform (to_lower (trim_space platform)) b ≡ true)
            × Gets (view t) d b.id))
      × Pairs (λ a b. a ≢ b) rows
      × IsSortedBy (λ cp. cp.name) rows
list_assigned_profiles_for_asset-In t d platform rows h =
    let all = selected t d (to_lower (trim_space platform)) in
    let once = distinct same_columns all in
    subst
      (λ rows.
        ((b : ConfigurationProfile)
          → In b rows ↔ (
              In b t.profiles
              × (has_platform (to_lower (trim_space platform)) b ≡ true)
              × Gets (view t) d b.id))
        × Pairs (λ a b. a ≢ b) rows
        × IsSortedBy (λ cp. cp.name) rows)
      (listed t d platform rows h)
      (
        (λ b.
            let (x, y) = sort_by-In (λ cp. cp.name) b once in
            let (x', y') = distinct-In same_columns same_columns_iff b all in
            let (x'', y'') = selected-In t d (to_lower (trim_space platform)) b in
            ((λ m. x'' (x' (x m))), λ m. y (y' (y'' m)))),
        sort_by-Pairs (λ cp. cp.name) (λ a b. a ≢ b) (λ a b n e. n (sym e)) once
            (IsDistinct-Pairs once (distinct-IsDistinct same_columns same_columns_iff all)),
        sort_by-IsSortedBy (λ cp. cp.name) once,
      )
