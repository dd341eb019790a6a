-- ===== src/Policy/Restrictive/Numbers.antt =====
-- merge.go, mergeNumericRestrictive: contributions that are all numbers.
use arx_mdm.Prelude.{
  ◌≡◌, refl, sym, subst, inl, inr, Bool, true, false, List, [], ◌∷◌, map, Text, if◌then◌else◌, all,
  All, In, Bool-cases,
}
use arx_mdm.Policy.Json.{Encoding, IsOrdered, num}
use arx_mdm.Policy.Types.{ProfileSource}
use arx_mdm.Policy.Scalars.{is_minimum, max_loop, min_loop, merge_numeric_restrictive}
use arx_mdm.Policy.Decide.{merge_contributions, same_kind}
use arx_mdm.Policy.Restrictive.{value_of, num_part, all_of-num_part}

skip_second : {A : Type 0} {a : A} (m v : A) (vs : List A) → In a (m ∷ vs) → In a (m ∷ v ∷ vs)
skip_second m v vs (inl e) = inl e
skip_second m v vs (inr h) = inr (inr h)

module _ (E : Encoding) where
  open E use {Float, float_ltb}

  same_kind-num_part :
      (p : ProfileSource × Float) (ps : List (ProfileSource × Float))
      → all (same_kind E (num_part p)) (map num_part ps) ≡ true
  same_kind-num_part p [] = refl
  same_kind-num_part p (q ∷ ps) = same_kind-num_part p ps

  -- One of the numbers, and none of them is above it, or below it.
  abbrev pub IsLargest : List Float → Float → Type 0
  IsLargest vals m = In m vals × All (λ v. float_ltb m v ≡ false) vals

  abbrev pub IsSmallest : List Float → Float → Type 0
  IsSmallest vals m = In m vals × All (λ v. float_ltb v m ≡ false) vals

  abbrev pub IsRestrictive : Text → List Float → Float → Type 0
  IsRestrictive leaf_key vals m =
      if is_minimum leaf_key then IsLargest vals m else IsSmallest vals m

  module _ (order : IsOrdered E) where
    max_loop-IsLargest : (m : Float) (vs : List Float) → IsLargest (m ∷ vs) (max_loop E m vs)
    unfolding max_loop
    max_loop-IsLargest m [] = (inl refl, (order.ltb_irrefl m, tt))
    max_loop-IsLargest m (v ∷ vs) = elim (Bool-cases (float_ltb m v)) [
      | inl e ↦
          let (found, (above, rest)) = max_loop-IsLargest v vs in
          let step : max_loop E v vs ≡ max_loop E m (v ∷ vs) = rw e in
          subst (IsLargest (m ∷ v ∷ vs)) step
            (inr found, (order.ltb_trans m v _ (order.ltb_asymm m v e) above, (above, rest)))
      | inr e ↦
          let (found, (above, rest)) = max_loop-IsLargest m vs in
          let step : max_loop E m vs ≡ max_loop E m (v ∷ vs) = rw e in
          subst (IsLargest (m ∷ v ∷ vs)) step
            (skip_second m v vs found, (above, (order.ltb_trans v m _ e above, rest)))
    ]

    min_loop-IsSmallest : (m : Float) (vs : List Float) → IsSmallest (m ∷ vs) (min_loop E m vs)
    unfolding min_loop
    min_loop-IsSmallest m [] = (inl refl, (order.ltb_irrefl m, tt))
    min_loop-IsSmallest m (v ∷ vs) = elim (Bool-cases (float_ltb v m)) [
      | inl e ↦
          let (found, (below, rest)) = min_loop-IsSmallest v vs in
          let step : min_loop E v vs ≡ min_loop E m (v ∷ vs) = rw e in
          subst (IsSmallest (m ∷ v ∷ vs)) step
            (inr found, (order.ltb_trans _ v m below (order.ltb_asymm v m e), (below, rest)))
      | inr e ↦
          let (found, (below, rest)) = min_loop-IsSmallest m vs in
          let step : min_loop E m vs ≡ min_loop E m (v ∷ vs) = rw e in
          subst (IsSmallest (m ∷ v ∷ vs)) step
            (skip_second m v vs found, (below, (order.ltb_trans _ m v below e, rest)))
    ]

    merge_numeric_restrictive-eq :
        (leaf_key : Text) (v : Float) (vs : List Float)
        → merge_numeric_restrictive E leaf_key v vs
          ≡ (if is_minimum leaf_key then max_loop E v vs else min_loop E v vs)
    unfolding merge_numeric_restrictive
    merge_numeric_restrictive-eq leaf_key v vs = refl

    restrictive_loop :
        (b : Bool) (v : Float) (vs : List Float)
        → let m = if b then max_loop E v vs else min_loop E v vs in
          if b then IsLargest (v ∷ vs) m else IsSmallest (v ∷ vs) m
    restrictive_loop true v vs = max_loop-IsLargest v vs
    restrictive_loop false v vs = min_loop-IsSmallest v vs

    merge_numeric_restrictive-IsRestrictive :
        (leaf_key : Text) (v : Float) (vs : List Float)
        → IsRestrictive leaf_key (v ∷ vs) (merge_numeric_restrictive E leaf_key v vs)
    merge_numeric_restrictive-IsRestrictive leaf_key v vs =
        subst (IsRestrictive leaf_key (v ∷ vs)) (sym (merge_numeric_restrictive-eq leaf_key v vs))
          (restrictive_loop (is_minimum leaf_key) v vs)

    -- Where all profiles give a number, and the numbers compare as a strict order does, the
    -- effective value is one of them: the largest at a key with `min_` in it, and the smallest
    -- at any other.
    pub merge_contributions-num :
        (leaf_key : Text) (p q : ProfileSource × Float) (ps : List (ProfileSource × Float))
        → let vals = map value_of (p ∷ q ∷ ps) in
          let d = merge_contributions E leaf_key (map num_part (p ∷ q ∷ ps)) in
          (m : Float) × (d.effective ≡ num m) × IsRestrictive leaf_key vals m
    unfolding merge_contributions
    merge_contributions-num leaf_key p q ps = (
      merge_numeric_restrictive E leaf_key (value_of p) (map value_of (q ∷ ps)),
      rw (same_kind-num_part p (q ∷ ps)) (rw (all_of-num_part Float (p ∷ q ∷ ps)) refl),
      merge_numeric_restrictive-IsRestrictive leaf_key (value_of p) (map value_of (q ∷ ps)),
    )
