-- ===== src/Policy/Tests.antt =====
-- Runs of the merge, and its theorems at concrete profiles.
use arx_mdm.Prelude.{
  ℕ, ◌+◌, ◌-◌, ◌≡◌, refl, ◌↔◌, inl, inr, true, false, List, [], ◌∷◌, map, Option, some, none, arith,
  Text, text_eq, text_leb, if◌then◌else◌, Any, In, ◌==◌, ltb, leb, bytes, split_on, to_lower,
  trim_space, has_suffix, contains,
}
use arx_mdm.Prelude.Result.{Result, ok, err}
use arx_mdm.Prelude.Sort.{sort_by, distinct}
use arx_mdm.Policy.Json.{
  Json, Fields, Encoding, IsOrdered, null, bool, num, str, arr, obj, end, field, from_items,
  lookup_field, set_field, normalize_json, deep_equal,
}
use arx_mdm.Policy.Types.{ProfileSource, AssignedPayload, MergeResult}
use arx_mdm.Policy.Flatten.{flatten_contributions, path_leaf, join_path}
use arx_mdm.Policy.Unflatten.{unflatten_leaves}
use arx_mdm.Policy.Scalars.{is_denial, is_minimum, pick_loop}
use arx_mdm.Policy.Decide.{merge_contributions}
use arx_mdm.Policy.Merge.{merge_assigned_payloads, MergeError, bad_payload}
use arx_mdm.Policy.Restrictive.{bool_part, num_part, str_part, merge_contributions-bool}
use arx_mdm.Policy.Restrictive.Numbers.{IsRestrictive, merge_contributions-num}
use arx_mdm.Policy.Restrictive.Strings.{merge_contributions-str}
use arx_mdm.Policy.Arrays.{strings_part, strings_of, merge_contributions-strings}
use arx_mdm.Policy.Paths.{get_at, get_at-unflatten_leaves}
use arx_mdm.Policy.Summary.{Contributes, merge_assigned_payloads-paths}
use arx_mdm.Policy.Failure.{IsBad, merge_assigned_payloads-err_iff}

-- Whole numbers for float64, and the literals of JSON; an unreadable text is no document.
abbrev sample_marshal : Json ℕ → Text
sample_marshal null = bytes "null"
sample_marshal (bool true) = bytes "true"
sample_marshal (bool false) = bytes "false"
sample_marshal (num n) = n ∷ []
sample_marshal (str s) = b'"' ∷ s
sample_marshal (arr a) = bytes "["
sample_marshal (obj o) = bytes "{"

abbrev sample_unmarshal : Text → Option (Json ℕ)
sample_unmarshal t =
    if text_eq t (bytes "null")
    then some null
    else if text_eq t (bytes "true")
    then some (bool true)
    else if text_eq t (bytes "false")
    then some (bool false)
    else none

-- Two documents: {"lock_disabled":true,"min_len":8} and {"lock_disabled":false,"min_len":12}.
abbrev sample_map : Text → Option (Fields ℕ)
sample_map t =
    if text_eq t (bytes "A")
    then some (field (bytes "lock_disabled") (bool true) (field (bytes "min_len") (num 8) end))
    else if text_eq t (bytes "B")
    then some (field (bytes "lock_disabled") (bool false) (field (bytes "min_len") (num 12) end))
    else none

abbrev sample : Encoding
sample = record {
  Float = ℕ;
  float_eqb = ◌==◌;
  float_ltb = ltb;
  float_leb = leb;
  abs_sub = λ a b. a - b + (b - a);
  abs = λ a. a;
  max = λ a b. if ltb a b then b else a;
  one = 1;
  scale = λ a. 0;
  marshal = sample_marshal;
  unmarshal = sample_unmarshal;
  unmarshal_map = sample_map;
}

sample-IsOrdered : IsOrdered sample
sample-IsOrdered = record {
  ltb_irrefl = λ a. ground arith;
  ltb_trans = λ a b c h k. ground arith;
  ltb_asymm = λ a b h. ground arith;
}

abbrev first : ProfileSource
first = record { id = 1; name = bytes "A" }

abbrev second : ProfileSource
second = record { id = 2; name = bytes "B" }

abbrev inputs : List AssignedPayload
inputs =
    record { source = first; payload = bytes "A" }
    ∷ record { source = second; payload = bytes "B" }
    ∷ []

run : Unit {0}
unfolding merge_assigned_payloads merge_contributions flatten_contributions path_leaf join_path
    unflatten_leaves sort_by distinct text_eq text_leb trim_space to_lower has_suffix contains
    split_on is_denial is_minimum lookup_field set_field normalize_json arx_mdm.Policy.Merge.add_all
    mathlib.Core.List.flatten arx_mdm.Policy.Unflatten.set_at arx_mdm.Policy.Contributions.all_of
    arx_mdm.Policy.Scalars.merge_bool_restrictive arx_mdm.Policy.Scalars.merge_numeric_restrictive
    deep_equal arx_mdm.Policy.Contributions.merge_array_restrictive
run = tt

abbrev result_of : Result MergeError (MergeResult ℕ) → MergeResult ℕ
result_of (ok r) = r
result_of (err x) = record {
  effective_payload = end;
  flat_settings = [];
  conflicts = [];
  conflict_paths = [];
  conflict_profiles = [];
}

abbrev payload_of : Result MergeError (MergeResult ℕ) → Fields ℕ
payload_of (ok r) = r.effective_payload
payload_of (err x) = end

-- The denial and the larger minimum win.
merged :
    payload_of (merge_assigned_payloads sample inputs)
    ≡ field (bytes "lock_disabled") (bool true) (field (bytes "min_len") (num 12) end)
unfolding run
merged = refl

merge_contributions-bool_example :
    (merge_contributions sample
      (bytes "usb_blocked")
      (map bool_part ((first, false) ∷ (second, true) ∷ []))).effective
    ≡ bool true
unfolding run
merge_contributions-bool_example =
    (merge_contributions-bool sample (bytes "usb_blocked") (first, false) (second, true) []).0

merge_contributions-num_example :
    (m : ℕ) × ((merge_contributions sample
        (bytes "min_len")
        (map num_part ((first, 8) ∷ (second, 12) ∷ []))).effective
      ≡ num m)
    × IsRestrictive sample (bytes "min_len") (8 ∷ 12 ∷ []) m
merge_contributions-num_example =
    merge_contributions-num sample sample-IsOrdered (bytes "min_len") (first, 8) (second, 12) []

merge_contributions-str_example :
    (merge_contributions sample
      (bytes "mode")
      (map str_part ((first, bytes "b") ∷ (second, bytes "a") ∷ []))).conflict
    ≡ true
unfolding text_eq
merge_contributions-str_example =
    (merge_contributions-str sample (bytes "mode") (first, bytes "b") (second, bytes "a") []).4

merge_contributions-strings_example :
    (us : List Text) × ((merge_contributions sample
        (bytes "apps")
        (map strings_part ((first, bytes "b" ∷ []) ∷ (second, bytes "a" ∷ []) ∷ []))).effective
      ≡ arr (from_items (map str us)))
    × ((t : Text)
        → In t us
          ↔ Any
              (λ r. In t (strings_of r))
              ((first, bytes "b" ∷ []) ∷ (second, bytes "a" ∷ []) ∷ []))
unfolding run
merge_contributions-strings_example =
    merge_contributions-strings sample (bytes "apps") (first, bytes "b" ∷ [])
      (second, bytes "a" ∷ []) [] refl

abbrev two_leaves : List (Text × Json ℕ)
two_leaves = (bytes "wifi.ssid", num 1) ∷ (bytes "wifi.key", num 2) ∷ []

get_at-unflatten_leaves_example :
    get_at (split_on b'.' (bytes "wifi.key")) (unflatten_leaves two_leaves) ≡ some (num 2)
unfolding run
get_at-unflatten_leaves_example =
    get_at-unflatten_leaves two_leaves (bytes "wifi.key", num 2) (refl, (refl, tt))
      ((inr (refl, inl refl), tt), (tt, tt)) (inr (inl refl))

merge_assigned_payloads-paths_example :
    Any
      (λ s. s.path ≡ bytes "min_len")
      (result_of (merge_assigned_payloads sample inputs)).flat_settings
    ↔ Any (Contributes sample (bytes "min_len")) inputs
unfolding run
merge_assigned_payloads-paths_example =
    (merge_assigned_payloads-paths sample inputs (result_of (merge_assigned_payloads sample inputs))
        refl).1
      (bytes "min_len")

unreadable : List AssignedPayload
unreadable = record { source = first; payload = bytes "C" } ∷ []

merge_assigned_payloads-err_iff_example :
    ((x : MergeError) × (merge_assigned_payloads sample unreadable ≡ err x))
    ↔ Any (IsBad sample) unreadable
merge_assigned_payloads-err_iff_example = merge_assigned_payloads-err_iff sample unreadable
