-- ===== src/Policy/Merge.antt =====
-- merge.go: MergeAssignedPayloads.
use arx_mdm.Prelude.{
  ℕ, Bool, ◌||◌, List, [], ◌∷◌, ◌++◌, map, none, some, Text, text_eq, if◌then◌else◌, ◌==◌, keep,
  bytes,
}
use arx_mdm.Prelude.Sort.{sort_by, distinct}
use arx_mdm.Prelude.Result.{Result, ok, err, ◌>>=◌}
use arx_mdm.Policy.Json.{Fields, Encoding, obj, end}
use arx_mdm.Policy.Types.{
  SettingConflict, EffectiveSetting, MergeResult, AssignedPayload, PathContribution,
}
use arx_mdm.Policy.Flatten.{flatten_contributions, path_leaf}
use arx_mdm.Policy.Unflatten.{unflatten_leaves}
use arx_mdm.Policy.Contributions.{same_profile, profile_of, by_name}
use arx_mdm.Policy.Decide.{merge_contributions}

-- The payload of this profile is no JSON object.
pub data MergeError : Type 0 where
  bad_payload : ℕ → MergeError

abbrev pub Contributors : Type 0 → Type 0
Contributors F = List (Text × List (PathContribution F))

module _ {F : Type 0} where
  -- `acc[path] = append(acc[path], c)`
  unfoldable pub add_contribution : Text → PathContribution F → Contributors F → Contributors F
  add_contribution path c [] = (path, c ∷ []) ∷ []
  add_contribution path c ((p, cs) ∷ acc) =
      if text_eq p path then (p, cs ++ c ∷ []) ∷ acc else (p, cs) ∷ add_contribution path c acc

  unfoldable pub add_all : List (Text × PathContribution F) → Contributors F → Contributors F
  unfolding add_contribution
  add_all [] acc = acc
  add_all ((path, c) ∷ rest) acc = add_all rest (add_contribution path c acc)

module _ (E : Encoding) where
  open E use {Float, unmarshal_map}

  -- An absent payload and `null` are the empty object.
  unfoldable pub decode_payload : AssignedPayload → Result MergeError (Fields Float)
  decode_payload input =
      if text_eq input.payload [] || text_eq input.payload (bytes "null")
      then ok end
      else elim (unmarshal_map input.payload) [
        | none ↦ err (bad_payload input.source.id)
        | some root ↦ ok root
      ]

  -- The loop over the inputs; a profile with no id is passed over.
  unfoldable pub collect :
      List AssignedPayload → Contributors Float → Result MergeError (Contributors Float)
  unfolding decode_payload
  collect [] acc = ok acc
  collect (input ∷ inputs) acc =
      let skipped = collect inputs acc in
      if input.source.id == 0 then skipped else (do
        root ← decode_payload input
        collect inputs (add_all (flatten_contributions [] input.source (obj root)) acc))

  -- What the loop over the sorted paths appends for one path.
  abbrev pub setting : Text × List (PathContribution Float) → EffectiveSetting Float
  setting (path, parts) =
      let d = merge_contributions E (path_leaf path) parts in
      record {
        path = path;
        value = d.effective;
        conflict = d.conflict;
        source_profiles = by_name (distinct same_profile (map profile_of parts));
      }

  abbrev pub setting_conflict : Text × List (PathContribution Float) → SettingConflict Float
  setting_conflict (path, parts) =
      let d = merge_contributions E (path_leaf path) parts in
      record {
        path = path;
        effective_value = d.effective;
        conflicting_profiles = d.profiles;
        contributed_normalized = d.norms;
      }

  abbrev pub in_conflict : Text × List (PathContribution Float) → Bool
  in_conflict (path, parts) = (merge_contributions E (path_leaf path) parts).conflict

  abbrev pub ids_of : List (SettingConflict Float) → List ℕ
  ids_of [] = []
  ids_of (c ∷ cs) = map (λ p. p.id) c.conflicting_profiles ++ ids_of cs

  -- The result from the contributors in the order of their paths.
  unfoldable pub summarize : Contributors Float → MergeResult Float
  summarize contributors =
      let settings = map setting contributors in
      let conflicts = map setting_conflict (keep in_conflict contributors) in
      record {
        effective_payload = unflatten_leaves (map (λ s. (s.path, s.value)) settings);
        flat_settings = sort_by (λ s. s.path) settings;
        conflicts = conflicts;
        conflict_paths = map (λ c. c.path) conflicts;
        conflict_profiles = distinct ◌==◌ (ids_of conflicts);
      }

  unfoldable pub merge_assigned_payloads :
      List AssignedPayload → Result MergeError (MergeResult Float)
  unfolding collect summarize
  merge_assigned_payloads inputs = do
    contributors ← collect inputs []
    ok (summarize (sort_by (λ c. c.0) contributors))
