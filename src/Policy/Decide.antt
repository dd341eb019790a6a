-- ===== src/Policy/Decide.antt =====
-- merge.go: mergeContributions, the decision about one path.
use arx_mdm.Prelude.{
  Bool, true, false, List, [], ◌∷◌, map, Option, none, some, Text, if◌then◌else◌, ltb, all,
}
use arx_mdm.Policy.Json.{Json, Fields, Encoding, null, bool, num, str, obj, end, normalize_json}
use arx_mdm.Policy.Types.{PathContribution}
use arx_mdm.Policy.Scalars.{
  Kind, unknown, boolean, number, string, array, object, contribution_kind, kind_eq,
  merge_bool_restrictive, merge_numeric_restrictive, sort_strings, merge_string_restrictive,
}
use arx_mdm.Policy.Contributions.{
  Decision, conflict_participants, all_of, bool_of, float_of, string_of, map_of, unique_bools,
  unique_floats, unique_strings, unique_maps, unique_normalized_values, normalized,
  restrictive_pick_mixed, merge_array_restrictive, merge_object_maps_restrictive,
}

module _ (E : Encoding) where
  open E use {Float}

  -- The answer where the kinds differ, or a value is not what its kind says.
  abbrev pub mixed : Text → List (PathContribution Float) → Decision Float
  mixed leaf_key parts = record {
    effective = restrictive_pick_mixed E leaf_key parts;
    conflict = true;
    profiles = conflict_participants parts;
    norms = normalized E parts;
  }

  -- `return effective, true, conflictParticipants(parts), norms`, or the same with no conflict.
  abbrev pub decide :
      Bool → List (PathContribution Float) → Json Float → List (Json Float) → Decision Float
  decide differ parts v norms = record {
    effective = v;
    conflict = differ;
    profiles = if differ then conflict_participants parts else [];
    norms = norms;
  }

  abbrev pub decide_bools :
      Text → List (PathContribution Float) → Option (List Bool) → Decision Float
  decide_bools leaf_key parts none = mixed leaf_key parts
  decide_bools leaf_key parts (some vals) =
      decide (ltb 1 (unique_bools vals)) parts (bool (merge_bool_restrictive leaf_key vals))
        (map bool vals)

  -- An empty list does not arise here, nor in the two below: each part gives one value.
  abbrev pub decide_floats :
      Text → List (PathContribution Float) → Option (List Float) → Decision Float
  decide_floats leaf_key parts (some (v ∷ vs)) =
      decide (ltb 1 (unique_floats E (v ∷ vs))) parts
        (num (merge_numeric_restrictive E leaf_key v vs)) (map num (v ∷ vs))
  decide_floats leaf_key parts _ = mixed leaf_key parts

  -- On a conflict the strings were sorted in place, and so are the reported values.
  abbrev pub decide_strings :
      Text → List (PathContribution Float) → Option (List Text) → Decision Float
  decide_strings leaf_key parts (some (s ∷ ss)) =
      if ltb 1 (unique_strings (s ∷ ss))
      then decide true parts (str (merge_string_restrictive s ss)) (map str (sort_strings (s ∷ ss)))
      else decide false parts (str s) (map str (s ∷ ss))
  decide_strings leaf_key parts _ = mixed leaf_key parts

  abbrev pub decide_maps :
      Text → List (PathContribution Float) → Option (List (Fields Float)) → Decision Float
  decide_maps leaf_key parts (some (o ∷ os)) =
      if ltb 1 (unique_maps E (o ∷ os))
      then decide true parts (obj (merge_object_maps_restrictive E end (o ∷ os)))
          (normalized E parts)
      else decide false parts (obj o) (normalized E parts)
  decide_maps leaf_key parts _ = mixed leaf_key parts

  -- The switch on `firstKind`.
  unfoldable pub merge_kind :
      Text → Kind → PathContribution Float → List (PathContribution Float) → Decision Float
  merge_kind leaf_key boolean p parts =
      decide_bools leaf_key (p ∷ parts) (all_of bool_of (p ∷ parts))
  merge_kind leaf_key number p parts =
      decide_floats leaf_key (p ∷ parts) (all_of float_of (p ∷ parts))
  merge_kind leaf_key string p parts =
      decide_strings leaf_key (p ∷ parts) (all_of string_of (p ∷ parts))
  merge_kind leaf_key array p parts =
      let (v, differ) = merge_array_restrictive E p parts in
      decide differ (p ∷ parts) v (normalized E (p ∷ parts))
  merge_kind leaf_key object p parts = decide_maps leaf_key (p ∷ parts) (all_of map_of (p ∷ parts))
  merge_kind leaf_key unknown p parts = record {
    effective = restrictive_pick_mixed E leaf_key (p ∷ parts);
    conflict = ltb 1 (unique_normalized_values E (normalized E (p ∷ parts)));
    profiles = conflict_participants (p ∷ parts);
    norms = normalized E (p ∷ parts);
  }

  abbrev pub same_kind : PathContribution Float → PathContribution Float → Bool
  same_kind p q = kind_eq (contribution_kind q.value) (contribution_kind p.value)

  unfoldable pub merge_contributions : Text → List (PathContribution Float) → Decision Float
  unfolding merge_kind
  merge_contributions leaf_key [] = record {
    effective = null;
    conflict = false;
    profiles = [];
    norms = [];
  }
  merge_contributions leaf_key (p ∷ []) =
      let v = normalize_json E p.value in
      record { effective = v; conflict = false; profiles = []; norms = v ∷ [] }
  merge_contributions leaf_key (p ∷ q ∷ rest) =
      if all (same_kind p) (q ∷ rest)
      then merge_kind leaf_key (contribution_kind p.value) p (q ∷ rest)
      else mixed leaf_key (p ∷ q ∷ rest)
