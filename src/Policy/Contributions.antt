-- ===== src/Policy/Contributions.antt =====
-- merge.go: mergeContributions, which decides one path, with the merges of arrays and objects.
use arx_mdm.Prelude.{
  ℕ, ◌+◌, Bool, true, false, not, ◌&&◌, ◌||◌, List, [], ◌∷◌, ◌++◌, map, Option, none, some, Text,
  text_eq, if◌then◌else◌, ◌==◌, length, any, keep, trim_space, to_lower,
}
use arx_mdm.Prelude.Sort.{sort_by, distinct}
use arx_mdm.Policy.Json.{
  Json, Fields, Encoding, null, bool, num, str, arr, obj, end, field, items, from_items,
  lookup_field, set_field, normalize_json, deep_equal,
}
use arx_mdm.Policy.Types.{ConflictProfile, PathContribution}
use arx_mdm.Policy.Scalars.{sort_strings, restrictive_pick_scalars, pick_loop}

-- The results of `mergeContributions`.
pub record Decision (F : Type 0) : Type 0 where
  pub effective : Json F
  pub conflict : Bool
  pub profiles : List ConflictProfile
  pub norms : List (Json F)

abbrev pub same_profile : ConflictProfile → ConflictProfile → Bool
same_profile a b = a.id == b.id

abbrev pub profile_of : {F : Type 0} → PathContribution F → ConflictProfile
profile_of p = record { id = p.source.id; name = p.source.name }

abbrev pub by_name : List ConflictProfile → List ConflictProfile
by_name = sort_by (λ p. to_lower p.name)

abbrev pub present : ConflictProfile → Bool
present p = not (p.id == 0)

-- conflictParticipants: each profile once, at its first contribution, by name.
unfoldable pub conflict_participants :
    {F : Type 0} → List (PathContribution F) → List ConflictProfile
conflict_participants parts = by_name (distinct same_profile (keep present (map profile_of parts)))

abbrev pub also : {B : Type 0} → Option B → Option (List B) → Option (List B)
also (some y) (some ys) = some (y ∷ ys)
also _ _ = none

-- The loops `for _, p := range parts { x, ok := …; if !ok { … } }`.
unfoldable pub all_of : {A B : Type 0} → (A → Option B) → List A → Option (List B)
all_of f [] = some []
all_of f (x ∷ xs) = also (f x) (all_of f xs)

abbrev pub bool_of : {F : Type 0} → PathContribution F → Option Bool
bool_of p = elim p.value [ bool b ↦ some b | _ ↦ none ]

abbrev pub float_of : {F : Type 0} → PathContribution F → Option F
float_of p = elim p.value [ num f ↦ some f | _ ↦ none ]

abbrev pub string_of : {F : Type 0} → PathContribution F → Option Text
string_of p = elim p.value [ str s ↦ some s | _ ↦ none ]

abbrev pub map_of : {F : Type 0} → PathContribution F → Option (Fields F)
map_of p = elim p.value [ obj fs ↦ some fs | _ ↦ none ]

-- uniqueBools
unfoldable pub unique_bools : List Bool → ℕ
unique_bools vals = (if any (λ v. v) vals then 1 else 0) + (if any not vals then 1 else 0)

-- uniqueStrings
unfoldable pub unique_strings : List Text → ℕ
unique_strings vals = length (distinct text_eq vals)

-- The string elements of one array, added to the union until one is no string.
unfoldable pub scan_elements : {F : Type 0} → List (Json F) → List Text → Bool × List Text
scan_elements [] union = (true, union)
scan_elements (str s ∷ rest) union =
    scan_elements rest (if any (text_eq s) union then union else union ++ s ∷ [])
scan_elements (_ ∷ rest) union = (false, union)

-- The state of the loop in `mergeArrayRestrictive` when it is left.
pub record ArrayScan : Type 0 where
  pub all_strings : Bool
  pub union : List Text
  pub conflict : Bool

module _ (E : Encoding) where
  open E use {Float, float_leb, abs_sub, abs, max, one, scale, marshal}

  -- contributedNormalizedSlice
  abbrev pub normalized : List (PathContribution Float) → List (Json Float)
  normalized = map λ p. normalize_json E p.value

  -- restrictivePickMixed
  unfoldable pub restrictive_pick_mixed : Text → List (PathContribution Float) → Json Float
  restrictive_pick_mixed leaf_key [] = null
  restrictive_pick_mixed leaf_key (p ∷ parts) =
      pick_loop E leaf_key (normalize_json E p.value) (normalized parts)

  -- nearlyEqual
  unfoldable pub nearly_equal : Float → Float → Bool
  nearly_equal a b = float_leb (abs_sub a b) (scale (max one (max (abs a) (abs b))))

  -- uniqueFloats
  unfoldable pub unique_floats : List Float → ℕ
  unfolding nearly_equal
  unique_floats vals = length (distinct nearly_equal vals)

  -- uniqueMaps
  unfoldable pub unique_maps : List (Fields Float) → ℕ
  unique_maps vals = length (distinct (λ a b. text_eq (marshal (obj a)) (marshal (obj b))) vals)

  -- uniqueNormalizedValues
  unfoldable pub unique_normalized_values : List (Json Float) → ℕ
  unique_normalized_values vals = length (distinct (deep_equal E) vals)

  -- The loop of `mergeArrayRestrictive`: it stops behind the first array that holds another value
  -- than a string; `none` is a contribution that is no array.
  unfoldable pub scan_arrays :
      Json Float → List (PathContribution Float) → List Text → Bool → Option ArrayScan
  unfolding scan_elements
  scan_arrays first [] union conflict =
      some (record { all_strings = true; union = union; conflict = conflict })
  scan_arrays first (p ∷ parts) union conflict = elim p.value [
    | arr a ↦
        let differs = conflict || not (deep_equal E (normalize_json E (arr a)) first) in
        let scanned = scan_elements (items a) union in
        let rest = scan_arrays first parts scanned.1 differs in
        if scanned.0
        then rest
        else some (record { all_strings = false; union = scanned.1; conflict = differs })
    | _ ↦ none
  ]

  abbrev pub finish_arrays :
      PathContribution Float → List (PathContribution Float) → ArrayScan → Json Float × Bool
  finish_arrays p parts s =
      if s.all_strings && s.conflict
      then (arr (from_items (map str (sort_strings s.union))), true)
      else if not s.conflict
      then (normalize_json E p.value, false)
      else (pick_loop E [] (normalize_json E p.value) (normalized parts), true)

  -- mergeArrayRestrictive on a first contribution and the others.
  unfoldable pub merge_array_restrictive :
      PathContribution Float → List (PathContribution Float) → Json Float × Bool
  unfolding scan_arrays
  merge_array_restrictive p parts =
      elim (scan_arrays (normalize_json E p.value) (p ∷ parts) [] false) [
        | none ↦ (restrictive_pick_mixed [] (p ∷ parts), true)
        | some s ↦ finish_arrays p parts s
      ]

  abbrev pub merge_field : Text → Json Float → Fields Float → Option (Json Float) → Fields Float
  merge_field k v out none = set_field k v out
  merge_field k v out (some w) =
      set_field k (restrictive_pick_scalars E (to_lower (trim_space k)) w v) out

  -- mergeObjectMapsRestrictive: each key is decided by itself, so the order of the keys is free.
  unfoldable pub merge_fields : Fields Float → Fields Float → Fields Float
  merge_fields out end = out
  merge_fields out (field k v fs) = merge_fields (merge_field k v out (lookup_field k out)) fs

  unfoldable pub merge_object_maps_restrictive : Fields Float → List (Fields Float) → Fields Float
  unfolding merge_fields
  merge_object_maps_restrictive out [] = out
  merge_object_maps_restrictive out (o ∷ objs) =
      merge_object_maps_restrictive (merge_fields out o) objs
