-- ===== src/Prelude/Trim.antt =====
-- strings.TrimSpace on texts that are trimmed already.
use Prim.Native.Nat.{◌≤◌}
use mathlib.Core.Path.{◌≡◌, refl, sym, ap, ◌∙◌}
use mathlib.Core.Logic.{inl, inr}
use mathlib.Core.List.{[], ◌∷◌, ◌++◌, reverse, reverse-append, reverse-reverse}
use native.Mathlib.Omega.{arith}
use arx_mdm.Prelude.Tests.{Bool-cases}
use arx_mdm.Prelude.Lists.{length}
use arx_mdm.Prelude.Strings.{Text, is_space, trim_left, trim_space}

length-trim_left : (s : Text) → length (trim_left s) ≤ length s
unfolding trim_left
length-trim_left [] = omega arith
length-trim_left (c ∷ s) = ground (arith, length-trim_left s)

trim_left_idem : (s : Text) → trim_left (trim_left s) ≡ trim_left s
unfolding trim_left
trim_left_idem [] = refl
trim_left_idem (c ∷ s) = elim (Bool-cases (is_space c)) [
  | inl e ↦ rw e (trim_left_idem s)
  | inr e ↦ rw e (rw e)
]

-- What is cut off stands in front.
trim_left-suffix : (s : Text) → (cut : Text) × (cut ++ trim_left s ≡ s)
unfolding trim_left
trim_left-suffix [] = ([], refl)
trim_left-suffix (c ∷ s) = elim (Bool-cases (is_space c)) [
  | inl e ↦ let (cut, same) = trim_left-suffix s in (c ∷ cut, rw e (ap (◌∷◌ c) same))
  | inr e ↦ ([], rw e)
]

trim_left-prefix : (p q : Text) → trim_left (p ++ q) ≡ p ++ q → trim_left p ≡ p
unfolding trim_left
trim_left-prefix [] q h = refl
trim_left-prefix (c ∷ p) q h = elim (Bool-cases (is_space c)) [
  | inl e ↦
      let shorter = length-trim_left (p ++ q) in
      let same = ap length (rw e at h) in elim (let absurd : ⊥ = omega arith in absurd) [ ]
  | inr e ↦ rw e
]

pub trim_space_idem : (s : Text) → trim_space (trim_space s) ≡ trim_space s
unfolding trim_space
trim_space_idem s = rw (kept, reverse-reverse b, trim_left_idem (reverse (trim_left s)))
  where
    b : Text
    b = trim_left (reverse (trim_left s))

    split : (cut : Text) × (reverse b ++ cut ≡ trim_left s)
    split =
        let (cut, same) = trim_left-suffix (reverse (trim_left s)) in
        (reverse cut, sym (reverse-append cut b) ∙ ap reverse same ∙ reverse-reverse (trim_left s))

    kept : trim_left (reverse b) ≡ reverse b
    kept = trim_left-prefix (reverse b) split.0 (rw split.1 (trim_left_idem s))
