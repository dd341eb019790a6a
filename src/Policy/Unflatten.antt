-- ===== src/Policy/Unflatten.antt =====
-- merge.go: setAtDottedPath and unflattenLeaves. A leaf is a value here: that Go shares an empty map
-- between a leaf and the tree built over it is left out.
use arx_mdm.Prelude.{Option, some, List, [], ◌∷◌, Text, text_eq, if◌then◌else◌, split_on}
use arx_mdm.Prelude.Sort.{sort_by}
use arx_mdm.Policy.Json.{Json, Fields, obj, end, lookup_field, set_field}

module _ {F : Type 0} where
  -- `next, ok := cur[sg].(map[string]any)`, a new map if not.
  abbrev pub as_map : Option (Json F) → Fields F
  as_map (some (obj fs)) = fs
  as_map _ = end

  -- The loop of `setAtDottedPath` over the segments.
  unfoldable pub set_at : List Text → Json F → Fields F → Fields F
  unfolding set_field lookup_field
  set_at [] v cur = cur
  set_at (sg ∷ []) v cur = set_field sg v cur
  set_at (sg ∷ next ∷ rest) v cur =
      set_field sg (obj (set_at (next ∷ rest) v (as_map (lookup_field sg cur)))) cur

  unfoldable pub set_at_dotted_path : Fields F → Text → Json F → Fields F
  set_at_dotted_path root path v =
      if text_eq path [] then root else set_at (split_on b'.' path) v root

  unfoldable pub set_all : Fields F → List (Text × Json F) → Fields F
  unfolding set_at_dotted_path
  set_all root [] = root
  set_all root ((p, v) ∷ leaves) = set_all (set_at_dotted_path root p v) leaves

  unfoldable pub unflatten_leaves : List (Text × Json F) → Fields F
  unfolding set_all
  unflatten_leaves leaves = set_all end (sort_by (λ l. l.0) leaves)
