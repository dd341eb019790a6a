-- ===== src/Policy/Restrictive/Strings.antt =====
-- merge.go, mergeStringRestrictive: contributions that are all strings.
use arx_mdm.Prelude.{
  ◌≡◌, refl, sym, ap, inl, inr, ◌∙◌, true, false, not, List, [], ◌∷◌, map, some, arith, Text,
  text_eq, text_leb, text_leb_refl, All-In, All-of_In, ltb, all, length, text_eq_iff, ◌<◌, All, In,
  Bool-cases,
}
use arx_mdm.Prelude.Sort.{
  sort_by, sort_by-In, sort_by-IsSortedBy, IsSortedBy, distinct, distinct_from,
}
use arx_mdm.Policy.Json.{Encoding, str}
use arx_mdm.Policy.Types.{ProfileSource, PathContribution}
use arx_mdm.Policy.Scalars.{sort_strings, first_or, merge_string_restrictive}
use arx_mdm.Policy.Contributions.{unique_strings}
use arx_mdm.Policy.Decide.{merge_contributions, same_kind, decide_strings}
use arx_mdm.Policy.Restrictive.{value_of, str_part, all_of-str_part}

module _ (E : Encoding) where
  open E use {Float, float_ltb}

  same_kind-str_part :
      (p : ProfileSource × Text) (ps : List (ProfileSource × Text))
      → all (same_kind E (str_part p)) (map str_part ps) ≡ true
  same_kind-str_part p [] = refl
  same_kind-str_part p (q ∷ ps) = same_kind-str_part p ps

  distinct_from_others :
      (s : Text) (vs : List Text)
      → (all (text_eq s) vs ≡ true → distinct_from text_eq (s ∷ []) vs ≡ [])
        × (all (text_eq s) vs ≡ false → 0 < length (distinct_from text_eq (s ∷ []) vs))
  unfolding distinct_from
  distinct_from_others s [] = ground arith
  distinct_from_others s (v ∷ vs) =
      ground (arith, distinct_from_others s vs, text_eq_iff s v, text_eq_iff v s)

  unique_strings_conflict :
      (s : Text) (vs : List Text) → ltb 1 (unique_strings (s ∷ vs)) ≡ not (all (text_eq s) vs)
  unfolding unique_strings distinct distinct_from
  unique_strings_conflict s vs = ground (arith, distinct_from_others s vs)

  first_least :
      (d : Text) (ys : List Text)
      → In d ys
      → IsSortedBy (λ s. s) ys
      → In (first_or d ys) ys × All (λ v. text_leb (first_or d ys) v ≡ true) ys
  first_least d [] m h = absurd m
  first_least d (y ∷ ys) m h = (inl refl, (text_leb_refl y, h.0))

  least_string :
      (s : Text) (ss : List Text)
      → let m = merge_string_restrictive s ss in
        In m (s ∷ ss) × All (λ v. text_leb m v ≡ true) (s ∷ ss)
  unfolding merge_string_restrictive sort_strings
  least_string s ss =
      let same = sort_by-In (λ (x : Text). x) in
      let here = (same s (s ∷ ss)).1 (inl refl) in
      let (found, least) =
        first_least s (sort_by (λ x. x) (s ∷ ss)) here (sort_by-IsSortedBy (λ x. x) (s ∷ ss)) in
      (
        (same _ (s ∷ ss)).0 found,
        All-of_In _ (s ∷ ss) (λ a m. All-In _ a _ least ((same a (s ∷ ss)).1 m)),
      )

  all_equal_In : (s m : Text) (vs : List Text) → all (text_eq s) vs ≡ true → In m (s ∷ vs) → m ≡ s
  all_equal_In s m vs h (inl e) = sym e
  all_equal_In s m [] h (inr k) = absurd k
  all_equal_In s m (v ∷ vs) h (inr k) = ground (arith, text_eq_iff s v, all_equal_In s m vs, k)

  decide_strings-lem :
      (leaf_key s : Text) (ss : List Text) (parts : List (PathContribution Float))
      → let d = decide_strings E leaf_key parts (some (s ∷ ss)) in
        (d.effective ≡ str (merge_string_restrictive s ss))
        × (d.conflict ≡ ltb 1 (unique_strings (s ∷ ss)))
  decide_strings-lem leaf_key s ss parts = elim (Bool-cases (ltb 1 (unique_strings (s ∷ ss)))) [
    | inl e ↦ rw e (refl, refl)
    | inr e ↦
        let equal : all (text_eq s) ss ≡ true = ground (arith, unique_strings_conflict s ss) in
        let least = all_equal_In s (merge_string_restrictive s ss) ss equal (least_string s ss).0 in
        rw e (ap str (sym least), refl)
  ]

  -- Where all profiles give a string, the effective value is the least of them, and a conflict is
  -- reported exactly if one differs from the first.
  pub merge_contributions-str :
      (leaf_key : Text) (p q : ProfileSource × Text) (ps : List (ProfileSource × Text))
      → let vals = map value_of (p ∷ q ∷ ps) in
        let d = merge_contributions E leaf_key (map str_part (p ∷ q ∷ ps)) in
        (s : Text) × (d.effective ≡ str s)
        × In s vals
        × All (λ v. text_leb s v ≡ true) vals
        × (d.conflict ≡ not (all (text_eq (value_of p)) (map value_of (q ∷ ps))))
  unfolding merge_contributions
  merge_contributions-str leaf_key p q ps =
      let s = value_of p in
      let ss = map value_of (q ∷ ps) in
      let parts : List (PathContribution Float) = map str_part (p ∷ q ∷ ps) in
      let d = decide_strings-lem leaf_key s ss parts in
      (
        merge_string_restrictive s ss,
        rw (same_kind-str_part p (q ∷ ps)) (rw (all_of-str_part Float (p ∷ q ∷ ps)) d.0),
        (least_string s ss).0,
        (least_string s ss).1,
        rw (same_kind-str_part p (q ∷ ps))
            (rw (all_of-str_part Float (p ∷ q ∷ ps)) (d.1 ∙ unique_strings_conflict s ss)),
      )
