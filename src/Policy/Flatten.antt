-- ===== src/Policy/Flatten.antt =====
-- merge.go: flattenContributions, pathLeaf, and the way back, setAtDottedPath and unflattenLeaves.
use mathlib.Core.List.{flatten}
use arx_mdm.Prelude.{List, [], ◌∷◌, ◌++◌, map, Text, text_eq, if◌then◌else◌, trim_space, ◌==◌}
use arx_mdm.Prelude.Sort.{sort_by}
use arx_mdm.Policy.Json.{Json, Fields, obj, end, field}
use arx_mdm.Policy.Types.{ProfileSource, PathContribution}

-- `nextPrefix`
unfoldable pub join_path : Text → Text → Text
join_path prefix k = if text_eq prefix [] then k else prefix ++ b'.' ∷ k

abbrev pub in_key_order : {A : Type 0} → List (Text × List A) → List A
in_key_order parts = flatten (map (λ p. p.1) (sort_by (λ p. p.0) parts))

module _ {F : Type 0} where
  -- A contribution at the prefix, unless the prefix is empty.
  abbrev pub contribute : ProfileSource → Text → Json F → List (Text × PathContribution F)
  contribute src prefix v =
      if text_eq prefix [] then [] else (prefix, record { source = src; value = v }) ∷ []

  -- The appends to `acc` in the order in which the loop makes them: the appends of each child are
  -- taken first, and the children are put in the order of their keys.
  unfoldable mutual
    pub flatten_contributions : Text → ProfileSource → Json F → List (Text × PathContribution F)
    flatten_contributions prefix src (obj end) = contribute src prefix (obj end)
    flatten_contributions prefix src (obj (field k v fs)) =
        in_key_order (flatten_children prefix src (field k v fs))
    flatten_contributions prefix src v = contribute src prefix v

    pub flatten_children :
        Text → ProfileSource → Fields F → List (Text × List (Text × PathContribution F))
    flatten_children prefix src end = []
    flatten_children prefix src (field k v fs) =
        (k, flatten_contributions (join_path prefix k) src v) ∷ flatten_children prefix src fs

-- What follows the last dot.
last_segment : Text → Text → Text
last_segment seg [] = seg
last_segment seg (c ∷ s) = last_segment (if c == b'.' then [] else seg ++ c ∷ []) s

unfoldable pub path_leaf : Text → Text
unfolding last_segment
path_leaf path = last_segment [] (trim_space path)
