-- ===== src/Policy/Restrictive.antt =====
-- merge.go, mergeContributions: contributions that are all of one scalar kind. Booleans here, numbers
-- and strings in the children.
pub mod Numbers
pub mod Strings
use mathlib.Core.List.{Perm}
use arx_mdm.Prelude.{
  ℕ, ◌≡◌, refl, sym, subst, ap, ◌↔◌, ◌⊎◌, inl, inr, ◌∙◌, Bool, true, false, not, ◌&&◌, ◌||◌, List,
  [], ◌∷◌, map, Option, some, none, arith, Text, text_eq, text_leb, text_leb_refl, All-In,
  All-of_In, if◌then◌else◌, ltb, any, all, length, text_eq_iff, ◌<◌, All, In, Bool-cases,
}
use arx_mdm.Prelude.Sort.{
  sort_by, sort_by-In, sort_by-IsSortedBy, IsSortedBy, distinct, distinct_from,
}
use arx_mdm.Policy.Json.{Json, Encoding, IsOrdered, bool, num, str}
use arx_mdm.Policy.Types.{ProfileSource, PathContribution}
use arx_mdm.Policy.Scalars.{
  Kind, boolean, is_denial, is_minimum, any_loop, all_loop, merge_bool_restrictive, max_loop,
  min_loop, merge_numeric_restrictive, sort_strings, first_or, merge_string_restrictive,
  contribution_kind,
}
use arx_mdm.Policy.Contributions.{
  all_of, bool_of, float_of, string_of, unique_bools, unique_strings,
}
use arx_mdm.Policy.Decide.{merge_contributions, merge_kind, same_kind, decide_strings}

any_loop-eq : (out : Bool) (vs : List Bool) → any_loop out vs ≡ (out || any (λ v. v) vs)
unfolding any_loop
any_loop-eq out [] = ground arith
any_loop-eq out (v ∷ vs) = ground (arith, any_loop-eq true vs, any_loop-eq out vs)

all_loop-eq : (out : Bool) (vs : List Bool) → all_loop out vs ≡ (out && all (λ v. v) vs)
unfolding all_loop
all_loop-eq out [] = ground arith
all_loop-eq out (v ∷ vs) = ground (arith, all_loop-eq false vs, all_loop-eq out vs)

-- The restrictive Boolean: for a denial, whether any profile denies, and else whether all allow.
abbrev pub restrictive_bool : Text → List Bool → Bool
restrictive_bool leaf_key vals = if is_denial leaf_key then any (λ v. v) vals else all (λ v. v) vals

pub merge_bool_restrictive-eq :
    (leaf_key : Text) (vals : List Bool)
    → merge_bool_restrictive leaf_key vals ≡ restrictive_bool leaf_key vals
unfolding merge_bool_restrictive
merge_bool_restrictive-eq leaf_key vals =
    ground (arith, any_loop-eq false vals, all_loop-eq true vals)

unique_bools_conflict :
    (vals : List Bool) → ltb 1 (unique_bools vals) ≡ (any (λ v. v) vals && any not vals)
unfolding unique_bools
unique_bools_conflict vals = ground arith

abbrev pub value_of : {A : Type 0} → ProfileSource × A → A
value_of (src, a) = a

-- A contribution of each scalar kind.
module _ {F : Type 0} where
  abbrev pub bool_part : ProfileSource × Bool → PathContribution F
  bool_part (src, b) = record { source = src; value = bool b }

  abbrev pub num_part : ProfileSource × F → PathContribution F
  num_part (src, f) = record { source = src; value = num f }

  abbrev pub str_part : ProfileSource × Text → PathContribution F
  str_part (src, s) = record { source = src; value = str s }

module _ (F : Type 0) where
  all_of-bool_part :
      (ps : List (ProfileSource × Bool))
      → all_of (bool_of {F = F}) (map bool_part ps) ≡ some (map value_of ps)
  unfolding all_of
  all_of-bool_part [] = refl
  all_of-bool_part (p ∷ ps) = rw (all_of-bool_part ps)

  all_of-num_part :
      (ps : List (ProfileSource × F)) → all_of float_of (map num_part ps) ≡ some (map value_of ps)
  unfolding all_of
  all_of-num_part [] = refl
  all_of-num_part (p ∷ ps) = rw (all_of-num_part ps)

  all_of-str_part :
      (ps : List (ProfileSource × Text))
      → all_of (string_of {F = F}) (map str_part ps) ≡ some (map value_of ps)
  unfolding all_of
  all_of-str_part [] = refl
  all_of-str_part (p ∷ ps) = rw (all_of-str_part ps)

module _ (E : Encoding) where
  open E use {Float, float_ltb}

  same_kind-bool_part :
      (p : ProfileSource × Bool) (ps : List (ProfileSource × Bool))
      → all (same_kind E (bool_part p)) (map bool_part ps) ≡ true
  same_kind-bool_part p [] = refl
  same_kind-bool_part p (q ∷ ps) = same_kind-bool_part p ps

  -- Where all profiles give a Boolean, the effective value is the restrictive one, and a conflict is
  -- reported exactly if both Booleans were given.
  pub merge_contributions-bool :
      (leaf_key : Text) (p q : ProfileSource × Bool) (ps : List (ProfileSource × Bool))
      → let vals = map value_of (p ∷ q ∷ ps) in
        let d = merge_contributions E leaf_key (map bool_part (p ∷ q ∷ ps)) in
        (d.effective ≡ bool (restrictive_bool leaf_key vals))
        × (d.conflict ≡ (any (λ v. v) vals && any not vals))
  unfolding merge_contributions
  merge_contributions-bool leaf_key p q ps = rw (same_kind-bool_part p (q ∷ ps)) (
      rw (all_of-bool_part Float (p ∷ q ∷ ps)) (
        ap bool (merge_bool_restrictive-eq leaf_key (map value_of (p ∷ q ∷ ps))),
        unique_bools_conflict (map value_of (p ∷ q ∷ ps)),
      ))
