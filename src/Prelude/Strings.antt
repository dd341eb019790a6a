-- ===== src/Prelude/Strings.antt =====
-- Go strings as lists of bytes, with the functions of package strings that the program calls.
-- Case and space are those of ASCII: other bytes pass through `to_lower` and `trim_space` unchanged.
use Prim.Native.Char.{code}
use Prim.Native.String.{String}
use Prim.Native.Nat.{ℕ, ◌+◌, ◌-◌}
use mathlib.Core.Path.{◌≡◌, refl, subst, ap}
use mathlib.Core.Logic.{◌↔◌, inl, inr}
use mathlib.Core.Bool.{Bool, true, false, ◌&&◌, ◌||◌}
use mathlib.Core.List.{List, [], ◌∷◌, ◌++◌, map, reverse}
use native.Mathlib.Omega.{arith}
use arx_mdm.Prelude.Tests.{if◌then◌else◌, leb, ltb, ◌==◌, ==_iff, Bool-cases}
use arx_mdm.Prelude.Lists.{take, length}

abbrev pub Text : Type 0
Text = List ℕ

-- The bytes of an ASCII literal.
abbrev pub bytes : String → Text
bytes String.[] = []
bytes (String.◌∷◌ c s) = code c ∷ bytes s

-- Equality of strings, `a == b`.
unfoldable pub text_eq : Text → Text → Bool
text_eq [] [] = true
text_eq (a ∷ us) (b ∷ vs) = a == b && text_eq us vs
text_eq _ _ = false

-- Go compares strings byte by byte, `a <= b`.
unfoldable pub text_leb : Text → Text → Bool
text_leb [] _ = true
text_leb (a ∷ us) [] = false
text_leb (a ∷ us) (b ∷ vs) = ltb a b || a == b && text_leb us vs

pub text_eq→eq : (a b : Text) → text_eq a b ≡ true → a ≡ b
unfolding text_eq
text_eq→eq [] [] h = refl
text_eq→eq [] (b ∷ vs) h = ground arith
text_eq→eq (a ∷ us) [] h = ground arith
text_eq→eq (a ∷ us) (b ∷ vs) h = ground (arith, text_eq→eq us vs)

pub text_eq_refl : (a : Text) → text_eq a a ≡ true
unfolding text_eq
text_eq_refl [] = refl
text_eq_refl (a ∷ us) = ground (arith, text_eq_refl us)

pub text_eq_iff : (a b : Text) → (text_eq a b ≡ true) ↔ (a ≡ b)
text_eq_iff a b = (text_eq→eq a b, λ e. subst (λ x. text_eq a x ≡ true) e (text_eq_refl a))

pub text_leb_refl : (a : Text) → text_leb a a ≡ true
unfolding text_leb
text_leb_refl [] = refl
text_leb_refl (a ∷ us) = ground (arith, text_leb_refl us)

pub text_leb_total : (a b : Text) → text_leb a b ≡ false → text_leb b a ≡ true
unfolding text_leb
text_leb_total [] b h = ground arith
text_leb_total (a ∷ us) [] h = refl
text_leb_total (a ∷ us) (b ∷ vs) h = ground (arith, text_leb_total us vs)

pub text_leb_trans :
    (a b c : Text) → text_leb a b ≡ true → text_leb b c ≡ true → text_leb a c ≡ true
unfolding text_leb
text_leb_trans [] b c h k = refl
text_leb_trans (a ∷ us) [] c h k = ground arith
text_leb_trans (a ∷ us) (b ∷ vs) [] h k = ground arith
text_leb_trans (a ∷ us) (b ∷ vs) (c ∷ ws) h k = ground (arith, text_leb_trans us vs ws)

pub text_leb_antisym : (a b : Text) → text_leb a b ≡ true → text_leb b a ≡ true → a ≡ b
unfolding text_leb
text_leb_antisym [] [] h k = refl
text_leb_antisym [] (b ∷ vs) h k = ground arith
text_leb_antisym (a ∷ us) [] h k = ground arith
text_leb_antisym (a ∷ us) (b ∷ vs) h k = ground (arith, text_leb_antisym us vs)

-- strings.HasPrefix
unfoldable pub has_prefix : Text → Text → Bool
has_prefix s [] = true
has_prefix [] (p ∷ ps) = false
has_prefix (c ∷ s) (p ∷ ps) = c == p && has_prefix s ps

-- strings.HasSuffix
unfoldable pub has_suffix : Text → Text → Bool
unfolding has_prefix
has_suffix s p = has_prefix (reverse s) (reverse p)

-- strings.TrimSuffix
unfoldable pub trim_suffix : Text → Text → Text
unfolding has_suffix
trim_suffix s p = if has_suffix s p then take (length s - length p) s else s

-- strings.Contains
unfoldable pub contains : Text → Text → Bool
unfolding has_prefix
contains [] p = has_prefix [] p
contains (c ∷ s) p = has_prefix (c ∷ s) p || contains s p

-- strings.ToLower
unfoldable pub to_lower : Text → Text
to_lower = map λ c. if leb b'A' c && leb c b'Z' then c + 32 else c

-- The white space of ASCII: tab, line feed, vertical tab, form feed, return, blank.
abbrev pub is_space : ℕ → Bool
is_space c = leb 9 c && leb c 13 || c == 32

unfoldable pub trim_left : Text → Text
trim_left [] = []
trim_left (c ∷ s) = if is_space c then trim_left s else c ∷ s

-- strings.TrimSpace
unfoldable pub trim_space : Text → Text
unfolding trim_left
trim_space s = reverse (trim_left (reverse (trim_left s)))

abbrev pub push_front : ℕ → List Text → List Text
push_front c [] = (c ∷ []) ∷ []
push_front c (s ∷ rest) = (c ∷ s) ∷ rest

-- strings.Split by one byte; never empty.
unfoldable pub split_on : ℕ → Text → List Text
split_on sep [] = [] ∷ []
split_on sep (c ∷ s) = if c == sep then [] ∷ split_on sep s else push_front c (split_on sep s)

pub text_leb-append : (a b : Text) → text_leb a (a ++ b) ≡ true
unfolding text_leb
text_leb-append [] b = refl
text_leb-append (c ∷ a) b = ground (arith, text_leb-append a b)

pub split_on_nonempty :
    (sep : ℕ) (s : Text) → (sg : Text) × (rest : List Text) × (split_on sep s ≡ sg ∷ rest)
unfolding split_on
split_on_nonempty sep [] = ([], [], refl)
split_on_nonempty sep (c ∷ s) = elim (Bool-cases (c == sep)) [
  | inl e ↦ ([], split_on sep s, rw e)
  | inr e ↦ let (sg, rest, same) = split_on_nonempty sep s in (c ∷ sg, rest, rw e (rw same))
]

-- What is split at a separator falls into the parts on both sides.
pub split_on-append :
    (sep : ℕ) (a b : Text) → split_on sep (a ++ sep ∷ b) ≡ split_on sep a ++ split_on sep b
unfolding split_on
split_on-append sep [] b = rw ((==_iff sep sep).1 refl)
split_on-append sep (c ∷ a) b = elim (Bool-cases (c == sep)) [
  | inl e ↦ rw e (ap (◌∷◌ []) (split_on-append sep a b))
  | inr e ↦
      let (sg, rest, same) = split_on_nonempty sep a in
      rw e (rw (split_on-append sep a b) (rw same))
]
