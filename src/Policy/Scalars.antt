-- ===== src/Policy/Scalars.antt =====
-- merge.go: the kinds of a contribution, and the restrictive choice among values of one kind.
use arx_mdm.Prelude.{
  Bool, true, false, ◌||◌, List, [], ◌∷◌, Text, text_leb, if◌then◌else◌, bytes, to_lower,
  has_suffix, contains,
}
use arx_mdm.Prelude.Sort.{sort_by}
use arx_mdm.Policy.Json.{Json, Encoding, null, bool, num, str, arr, obj}

pub data Kind : Type 0 where
  unknown boolean number string array object : Kind

-- contributionKind
abbrev pub contribution_kind : {F : Type 0} → Json F → Kind
contribution_kind null = unknown
contribution_kind (bool b) = boolean
contribution_kind (num f) = number
contribution_kind (str s) = string
contribution_kind (arr a) = array
contribution_kind (obj o) = object

-- `ka == kb`
abbrev pub kind_eq : Kind → Kind → Bool
kind_eq unknown unknown = true
kind_eq boolean boolean = true
kind_eq number number = true
kind_eq string string = true
kind_eq array array = true
kind_eq object object = true
kind_eq _ _ = false

-- The keys for which `true` is the restrictive value.
unfoldable pub is_denial : Text → Bool
is_denial leaf_key =
    let key = to_lower leaf_key in
    has_suffix key (bytes "_disabled")
    || has_suffix key (bytes "_blocked")
    || has_suffix key (bytes "_denied")

-- `for _, v := range vals { if v { out = true } }`
unfoldable pub any_loop : Bool → List Bool → Bool
any_loop out [] = out
any_loop out (v ∷ vs) = any_loop (if v then true else out) vs

-- `for _, v := range vals { if !v { out = false } }`
unfoldable pub all_loop : Bool → List Bool → Bool
all_loop out [] = out
all_loop out (v ∷ vs) = all_loop (if v then out else false) vs

-- mergeBoolRestrictive
unfoldable pub merge_bool_restrictive : Text → List Bool → Bool
unfolding any_loop all_loop
merge_bool_restrictive leaf_key vals =
    if is_denial leaf_key then any_loop false vals else all_loop true vals

-- The keys of which the largest number is the restrictive one.
unfoldable pub is_minimum : Text → Bool
is_minimum leaf_key = contains (to_lower leaf_key) (bytes "min_")

-- mergeStringRestrictive sorts its argument in place, which the caller sees. The least string is
-- returned; the default stands for the panic on an empty slice, which no caller passes.
unfoldable pub sort_strings : List Text → List Text
sort_strings = sort_by (λ s. s)

abbrev pub first_or : {A : Type 0} → A → List A → A
first_or d [] = d
first_or d (x ∷ xs) = x

unfoldable pub merge_string_restrictive : Text → List Text → Text
unfolding sort_strings
merge_string_restrictive s rest = first_or s (sort_strings (s ∷ rest))

module _ (E : Encoding) where
  open E use {Float, float_ltb, marshal}

  unfoldable pub max_loop : Float → List Float → Float
  max_loop m [] = m
  max_loop m (v ∷ vs) = max_loop (if float_ltb m v then v else m) vs

  unfoldable pub min_loop : Float → List Float → Float
  min_loop m [] = m
  min_loop m (v ∷ vs) = min_loop (if float_ltb v m then v else m) vs

  -- mergeNumericRestrictive on `vals[0]` and `vals[1:]`.
  unfoldable pub merge_numeric_restrictive : Text → Float → List Float → Float
  unfolding max_loop min_loop
  merge_numeric_restrictive leaf_key first rest =
      if is_minimum leaf_key then max_loop first rest else min_loop first rest

  -- `if string(ja) <= string(jb) { return a }; return b`
  abbrev pub pick_encoding : Json Float → Json Float → Json Float
  pick_encoding a b = if text_leb (marshal a) (marshal b) then a else b

  -- restrictivePickScalars
  unfoldable pub restrictive_pick_scalars : Text → Json Float → Json Float → Json Float
  unfolding merge_bool_restrictive merge_numeric_restrictive merge_string_restrictive
  restrictive_pick_scalars leaf_key (bool a) (bool b) =
      bool (merge_bool_restrictive leaf_key (a ∷ b ∷ []))
  restrictive_pick_scalars leaf_key (num a) (num b) =
      num (merge_numeric_restrictive leaf_key a (b ∷ []))
  restrictive_pick_scalars leaf_key (str a) (str b) = str (merge_string_restrictive a (b ∷ []))
  restrictive_pick_scalars leaf_key a b = pick_encoding a b

  unfoldable pub pick_loop : Text → Json Float → List (Json Float) → Json Float
  unfolding restrictive_pick_scalars
  pick_loop leaf_key out [] = out
  pick_loop leaf_key out (cand ∷ rest) =
      pick_loop leaf_key (restrictive_pick_scalars leaf_key out cand) rest
