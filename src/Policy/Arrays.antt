-- ===== src/Policy/Arrays.antt =====
-- merge.go, mergeArrayRestrictive: arrays of strings are united, and the scan that stops early.
use arx_mdm.Prelude.{
  ◌≡◌, refl, subst, ap, ◌↔◌, ◌⊎◌, inl, inr, Bool, true, false, not, ◌||◌, List, [], ◌∷◌, ◌++◌, map,
  some, arith, Text, text_eq, text_eq_iff, if◌then◌else◌, any, all, Any, In, Bool-cases, Any-append,
  Any-append_left, Any-append_right,
}
use arx_mdm.Prelude.Sort.{sort_by-In}
use arx_mdm.Policy.Json.{
  Json, Items, Encoding, null, bool, num, str, arr, obj, cons, items, from_items, normalize_json,
  deep_equal,
}
use arx_mdm.Policy.Types.{ProfileSource, PathContribution}
use arx_mdm.Policy.Scalars.{sort_strings}
use arx_mdm.Policy.Decide.{merge_contributions, same_kind}
use arx_mdm.Policy.Contributions.{scan_elements, scan_arrays, merge_array_restrictive}

-- A contribution that is an array of strings.
abbrev pub strings_part : {F : Type 0} → ProfileSource × List Text → PathContribution F
strings_part (src, ss) = record { source = src; value = arr (from_items (map str ss)) }

abbrev pub strings_of : ProfileSource × List Text → List Text
strings_of (src, ss) = ss

any-In : (s : Text) (us : List Text) → any (text_eq s) us ≡ true → In s us
any-In s [] h = cc
any-In s (u ∷ us) h = ground (arith, text_eq_iff s u, any-In s us)

items-from_items : {F : Type 0} (vs : List (Json F)) → items (from_items vs) ≡ vs
items-from_items [] = refl
items-from_items (v ∷ vs) = ap (◌∷◌ v) (items-from_items vs)

-- `seen` and `union` after the strings of one array.
abbrev add_string : Text → List Text → List Text
add_string s us = if any (text_eq s) us then us else us ++ s ∷ []

add_strings : List Text → List Text → List Text
add_strings [] us = us
add_strings (s ∷ ss) us = add_strings ss (add_string s us)

add_string-In : (t s : Text) (us : List Text) → In t (add_string s us) ↔ ((s ≡ t) ⊎ In t us)
add_string-In t s us = elim (Bool-cases (any (text_eq s) us)) [
  | inl e ↦ rw e (
    (λ m. inr m),
    λ h. elim h [ inl same ↦ subst (λ x. In x us) same (any-In s us e) | inr m ↦ m ],
  )
  | inr e ↦ rw e (
    (λ m. elim (Any-append _ us (s ∷ []) m) [
      | inl old ↦ inr old
      | inr new ↦ elim new [ inl same ↦ inl same | inr no_more ↦ absurd no_more ]
    ]),
    λ h. elim h [
      | inl same ↦ Any-append_right _ us (s ∷ []) (inl same)
      | inr m ↦ Any-append_left _ us (s ∷ []) m
    ],
  )
]

add_strings-In : (t : Text) (ss us : List Text) → In t (add_strings ss us) ↔ (In t ss ⊎ In t us)
unfolding add_strings
add_strings-In t [] us = ground arith
add_strings-In t (s ∷ ss) us =
    ground (arith, add_strings-In t ss (add_string s us), add_string-In t s us)

module _ (F : Type 0) where
  scan_elements-strings :
      (ss us : List Text) → scan_elements {F = F} (map str ss) us ≡ (true, add_strings ss us)
  unfolding scan_elements add_strings
  scan_elements-strings [] us = refl
  scan_elements-strings (s ∷ ss) us = scan_elements-strings ss (add_string s us)

-- The union over all arrays.
add_all_strings : List (ProfileSource × List Text) → List Text → List Text
add_all_strings [] us = us
add_all_strings (p ∷ ps) us = add_all_strings ps (add_strings (strings_of p) us)

add_all_strings-In :
    (t : Text) (ps : List (ProfileSource × List Text)) (us : List Text)
    → In t (add_all_strings ps us) ↔ (Any (λ p. In t (strings_of p)) ps ⊎ In t us)
unfolding add_all_strings
add_all_strings-In t [] us = ground arith
add_all_strings-In t (p ∷ ps) us = ground (
  arith,
  add_all_strings-In t ps (add_strings (strings_of p) us),
  add_strings-In t (strings_of p) us,
)

sort_strings-In : (t : Text) (us : List Text) → In t (sort_strings us) ↔ In t us
unfolding sort_strings
sort_strings-In t us = sort_by-In (λ x. x) t us

union_In :
    (ps : List (ProfileSource × List Text)) (t : Text)
    → In t (sort_strings (add_all_strings ps [])) ↔ Any (λ r. In t (strings_of r)) ps
union_In ps t =
    ground (arith, sort_strings-In t (add_all_strings ps []), add_all_strings-In t ps [])

abbrev flagged : {A : Type 0} → Bool → A → A → A × Bool
flagged b x y = if b then (x, true) else (y, false)

first_if_flagged :
    {A : Type 0} (b : Bool) (x y : A) → (flagged b x y).1 ≡ true → (flagged b x y).0 ≡ x
first_if_flagged true x y h = refl
first_if_flagged false x y h = cc

or_assoc : (a b c : Bool) → (a || b || c) ≡ (a || (b || c))
or_assoc a b c = ground arith

module _ (E : Encoding) where
  open E use {Float}

  -- Whether the normal form of some array differs from that of the first.
  abbrev differs_from : Json Float → List (ProfileSource × List Text) → Bool
  differs_from first =
      any
        λ p. not (deep_equal E (normalize_json E (arr (from_items (map str (strings_of p))))) first)

  abbrev pub items_part : ProfileSource × Items Float → PathContribution Float
  items_part (src, a) = record { source = src; value = arr a }

  same_kind-items_part :
      (p : ProfileSource × Items Float) (ps : List (ProfileSource × Items Float))
      → all (same_kind E (items_part p)) (map items_part ps) ≡ true
  same_kind-items_part p [] = refl
  same_kind-items_part p (q ∷ ps) = same_kind-items_part p ps

  scan_arrays-strings :
      (first : Json Float) (ps : List (ProfileSource × List Text)) (us : List Text) (c : Bool)
      → scan_arrays E first (map strings_part ps) us c
        ≡ some (record {
          all_strings = true;
          union = add_all_strings ps us;
          conflict = c || differs_from first ps;
        })
  unfolding scan_arrays add_all_strings
  scan_arrays-strings first [] us c = ground arith
  scan_arrays-strings first (p ∷ ps) us c =
      let own =
        not (deep_equal E (normalize_json E (arr (from_items (map str (strings_of p))))) first) in
      rw (items-from_items (map str (strings_of p))) (
        rw (scan_elements-strings Float (strings_of p) us) (
          rw (scan_arrays-strings first ps (add_strings (strings_of p) us) (c || own))
            (rw (or_assoc c own (differs_from first ps)))))

  same_kind-strings_part :
      (p : ProfileSource × List Text) (ps : List (ProfileSource × List Text))
      → all (same_kind E (strings_part p)) (map strings_part ps) ≡ true
  same_kind-strings_part p [] = refl
  same_kind-strings_part p (q ∷ ps) = same_kind-strings_part p ps

  merge_array_restrictive-strings :
      (p : ProfileSource × List Text) (ps : List (ProfileSource × List Text))
      → let first = normalize_json E (arr (from_items (map str (strings_of p)))) in
        merge_array_restrictive E (strings_part p) (map strings_part ps) ≡ (
          if differs_from first (p ∷ ps)
          then (arr (from_items (map str (sort_strings (add_all_strings (p ∷ ps) [])))), true)
          else (first, false))
  unfolding merge_array_restrictive
  merge_array_restrictive-strings p ps =
      let first = normalize_json E (arr (from_items (map str (strings_of p)))) in
      rw (scan_arrays-strings first (p ∷ ps) [] false, merge_array_restrictive)
        (elim (Bool-cases (differs_from first (p ∷ ps))) [ inl e ↦ rw e | inr e ↦ rw e ])

  -- Where all profiles give an array of strings and a conflict is reported, the effective value is
  -- an array of strings that holds exactly the strings of all the profiles.
  pub merge_contributions-strings :
      (leaf_key : Text) (p q : ProfileSource × List Text) (ps : List (ProfileSource × List Text))
      → (merge_contributions E leaf_key (map strings_part (p ∷ q ∷ ps))).conflict ≡ true
      → (us : List Text) × ((merge_contributions E leaf_key
            (map strings_part (p ∷ q ∷ ps))).effective
          ≡ arr (from_items (map str us)))
        × ((t : Text) → In t us ↔ Any (λ r. In t (strings_of r)) (p ∷ q ∷ ps))
  unfolding merge_contributions
  merge_contributions-strings leaf_key p q ps h =
      let same = same_kind-strings_part p (q ∷ ps) in
      let merged = merge_array_restrictive-strings p (q ∷ ps) in
      (
        sort_strings (add_all_strings (p ∷ q ∷ ps) []),
        rw same (rw merged (first_if_flagged _ _ _ (rw merged at (rw same at h)))),
        union_In (p ∷ q ∷ ps),
      )

  abbrev pub is_string : Json Float → Bool
  is_string (str s) = true
  is_string _ = false

  scan_elements_stop :
      (x : Json Float) (more : List (Json Float)) (us : List Text)
      → is_string x ≡ false
      → scan_elements (x ∷ more) us ≡ (false, us)
  unfolding scan_elements
  scan_elements_stop (str s) more us h = cc
  scan_elements_stop null more us h = refl
  scan_elements_stop (bool b) more us h = refl
  scan_elements_stop (num f) more us h = refl
  scan_elements_stop (arr a) more us h = refl
  scan_elements_stop (obj o) more us h = refl

  stops_at_first :
      (src : ProfileSource) (x : Json Float) (more : Items Float)
      (parts : List (PathContribution Float))
      → is_string x ≡ false
      → deep_equal E (normalize_json E (arr (cons x more))) (normalize_json E (arr (cons x more)))
        ≡ true
      → merge_array_restrictive E (items_part (src, cons x more)) parts
        ≡ (normalize_json E (arr (cons x more)), false)
  unfolding merge_array_restrictive
  stops_at_first src x more parts h r =
      rw (r, scan_arrays, merge_array_restrictive)
        (rw (scan_elements_stop x (items more) [] h, merge_array_restrictive))

  -- Where the first array begins with another value than a string, and its normal form equals
  -- itself, the scan looks at no other profile: whatever arrays the others give, the first one
  -- becomes the effective value and no conflict is reported.
  pub first_array_wins :
      (leaf_key : Text) (src : ProfileSource) (x : Json Float) (more : Items Float)
      (q : ProfileSource × Items Float) (qs : List (ProfileSource × Items Float))
      → is_string x ≡ false
      → deep_equal E (normalize_json E (arr (cons x more))) (normalize_json E (arr (cons x more)))
        ≡ true
      → let d = merge_contributions E leaf_key (map items_part ((src, cons x more) ∷ q ∷ qs)) in
        (d.effective ≡ normalize_json E (arr (cons x more)))
        × (d.conflict ≡ false)
        × (d.profiles ≡ [])
  unfolding merge_contributions
  first_array_wins leaf_key src x more q qs h r =
      rw (same_kind-items_part (src, cons x more) (q ∷ qs))
        (rw (stops_at_first src x more (map items_part (q ∷ qs)) h r) (refl, refl, refl))
