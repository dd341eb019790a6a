-- ===== src/Prelude/Sort.antt =====
-- sort.Strings and sort.Slice by a string key, and the loops that drop repeated values.
use mathlib.Core.Path.{◌≡◌, refl, sym, subst}
use mathlib.Core.Logic.{◌↔◌, ◌⊎◌, inl, inr}
use mathlib.Core.Bool.{Bool, true}
use mathlib.Core.List.{List, [], ◌∷◌, Perm}
use mathlib.Core.List.Perm
use native.Mathlib.Omega.{arith}
use arx_mdm.Prelude.Tests.{if◌then◌else◌, Bool-cases}
use Prim.Native.Nat.{suc}
use arx_mdm.Prelude.Lists.{any, Any, All, In, length}
use arx_mdm.Prelude.Strings.{Text, text_leb, text_leb_total, text_leb_trans}

module _ {A : Type 0} (key : A → Text) where
  pub insert_by : A → List A → List A
  insert_by x [] = x ∷ []
  insert_by x (y ∷ ys) = if text_leb (key x) (key y) then x ∷ y ∷ ys else y ∷ insert_by x ys

  -- A stable sort by the key.
  unfoldable pub sort_by : List A → List A
  unfolding insert_by
  sort_by [] = []
  sort_by (x ∷ xs) = insert_by x (sort_by xs)

  -- No key is above a later one.
  abbrev pub IsSortedBy : List A → Type 0
  IsSortedBy [] = Unit
  IsSortedBy (x ∷ xs) = All (λ y. text_leb (key x) (key y) ≡ true) xs × IsSortedBy xs

  insert_by-perm : (x : A) (xs : List A) → Perm (insert_by x xs) (x ∷ xs)
  unfolding insert_by
  insert_by-perm x [] = Perm.refl _
  insert_by-perm x (y ∷ ys) = elim (Bool-cases (text_leb (key x) (key y))) [
    | inl e ↦ rw e (Perm.refl _)
    | inr e ↦ rw e (Perm.trans (Perm.cons y (insert_by-perm x ys)) (Perm.swap x y ys))
  ]

  -- Sorting rearranges.
  pub sort_by-perm : (xs : List A) → Perm (sort_by xs) xs
  unfolding sort_by
  sort_by-perm [] = Perm.refl _
  sort_by-perm (x ∷ xs) = Perm.trans (insert_by-perm x (sort_by xs)) (Perm.cons x (sort_by-perm xs))

  insert_by-Any : (P : A → Type 0) (x : A) (xs : List A) → Any P (insert_by x xs) ↔ Any P (x ∷ xs)
  unfolding insert_by
  insert_by-Any P x [] = ground arith
  insert_by-Any P x (y ∷ ys) = ground (arith, insert_by-Any P x ys)

  pub sort_by-Any : (P : A → Type 0) (xs : List A) → Any P (sort_by xs) ↔ Any P xs
  unfolding sort_by
  sort_by-Any P [] = (λ h. h, λ h. h)
  sort_by-Any P (x ∷ xs) = ground (arith, insert_by-Any P x (sort_by xs), sort_by-Any P xs)

  pub sort_by-In : (a : A) (xs : List A) → In a (sort_by xs) ↔ In a xs
  sort_by-In a xs = sort_by-Any (λ x. x ≡ a) xs

  module _ (P : A → Type 0) where
    insert_by-All : (x : A) (xs : List A) → P x → All P xs → All P (insert_by x xs)
    unfolding insert_by
    insert_by-All x [] p h = (p, tt)
    insert_by-All x (y ∷ ys) p h = ground (arith, insert_by-All x ys p h.1)

  above_mono :
      (x y : A) (xs : List A)
      → text_leb (key x) (key y) ≡ true
      → All (λ z. text_leb (key y) (key z) ≡ true) xs
      → All (λ z. text_leb (key x) (key z) ≡ true) xs
  above_mono x y [] h k = tt
  above_mono x y (z ∷ zs) h k =
      (text_leb_trans (key x) (key y) (key z) h k.0, above_mono x y zs h k.1)

  insert_by-IsSortedBy : (x : A) (xs : List A) → IsSortedBy xs → IsSortedBy (insert_by x xs)
  unfolding insert_by
  insert_by-IsSortedBy x [] h = (tt, tt)
  insert_by-IsSortedBy x (y ∷ ys) h = elim (Bool-cases (text_leb (key x) (key y))) [
    | inl e ↦ rw e ((e, above_mono x y ys e h.0), h)
    | inr e ↦
        rw e (
          insert_by-All _ x ys (text_leb_total (key x) (key y) e) h.0,
          insert_by-IsSortedBy x ys h.1,
        )
  ]

  pub sort_by-IsSortedBy : (xs : List A) → IsSortedBy (sort_by xs)
  unfolding sort_by
  sort_by-IsSortedBy [] = tt
  sort_by-IsSortedBy (x ∷ xs) = insert_by-IsSortedBy x (sort_by xs) (sort_by-IsSortedBy xs)

  insert_by-length : (x : A) (xs : List A) → length (insert_by x xs) ≡ suc (length xs)
  unfolding insert_by
  insert_by-length x [] = refl
  insert_by-length x (y ∷ ys) = ground (arith, insert_by-length x ys)

  pub sort_by-length : (xs : List A) → length (sort_by xs) ≡ length xs
  unfolding sort_by
  sort_by-length [] = refl
  sort_by-length (x ∷ xs) = omega (arith, insert_by-length x (sort_by xs), sort_by-length xs)

-- The loop `if _, ok := seen[x]; ok { continue }; seen[x] = …; out = append(out, x)`.
module _ {A : Type 0} (eq : A → A → Bool) where
  unfoldable pub distinct_from : List A → List A → List A
  distinct_from seen [] = []
  distinct_from seen (x ∷ xs) =
      let rest = distinct_from (if any (eq x) seen then seen else x ∷ seen) xs in
      if any (eq x) seen then rest else x ∷ rest

  unfoldable pub distinct : List A → List A
  unfolding distinct_from
  distinct xs = distinct_from [] xs

abbrev pub IsDistinct : {A : Type 0} → List A → Type 0
IsDistinct [] = Unit
IsDistinct (x ∷ xs) = (¬ In x xs) × IsDistinct xs

module _ {A : Type 0} (eq : A → A → Bool) (eq_iff : (a b : A) → (eq a b ≡ true) ↔ (a ≡ b)) where
  any-In : (x : A) (xs : List A) → (any (eq x) xs ≡ true) ↔ In x xs
  any-In x [] = ground arith
  any-In x (y ∷ ys) = ground (arith, any-In x ys, eq_iff x y)

  distinct_from-In_sound :
      (a : A) (seen xs : List A) → In a (distinct_from eq seen xs) → In a xs × ¬ In a seen
  unfolding distinct_from
  distinct_from-In_sound a seen [] h = absurd h
  distinct_from-In_sound a seen (x ∷ xs) h = elim (Bool-cases (any (eq x) seen)) [
    | inl e ↦ let old = distinct_from-In_sound a seen xs (rw e at h) in (inr old.0, old.1)
    | inr e ↦ elim (head_or_tail (rw e at h)) [
      | inl same ↦ (inl same, λ m. cc (e, (any-In x seen).1 (subst (λ y. In y seen) (sym same) m)))
      | inr later ↦
          let old = distinct_from-In_sound a (x ∷ seen) xs later in (inr old.0, λ m. old.1 (inr m))
    ]
  ]
    where
      head_or_tail :
          In a (x ∷ distinct_from eq (x ∷ seen) xs)
          → (x ≡ a) ⊎ In a (distinct_from eq (x ∷ seen) xs)
      head_or_tail m = m

  distinct_from-In_complete :
      (a : A) (seen xs : List A) → In a xs → In a (distinct_from eq seen xs) ⊎ In a seen
  unfolding distinct_from
  distinct_from-In_complete a seen [] h = absurd h
  distinct_from-In_complete a seen (x ∷ xs) h = ground (
    arith,
    any-In x seen,
    distinct_from-In_complete a seen xs,
    distinct_from-In_complete a (x ∷ seen) xs,
  )

  -- The loop keeps exactly the values of its input.
  pub distinct-In : (a : A) (xs : List A) → In a (distinct eq xs) ↔ In a xs
  unfolding distinct
  distinct-In a xs = (
    (λ h. (distinct_from-In_sound a [] xs h).0),
    λ h. elim (distinct_from-In_complete a [] xs h) [ inl m ↦ m | inr m ↦ absurd m ],
  )

  distinct_from-IsDistinct : (seen xs : List A) → IsDistinct (distinct_from eq seen xs)
  unfolding distinct_from
  distinct_from-IsDistinct seen [] = tt
  distinct_from-IsDistinct seen (x ∷ xs) = elim (Bool-cases (any (eq x) seen)) [
    | inl e ↦ rw e (distinct_from-IsDistinct seen xs)
    | inr e ↦ rw e (
      (λ m. (distinct_from-In_sound x (x ∷ seen) xs m).1 (inl refl)),
      distinct_from-IsDistinct (x ∷ seen) xs,
    )
  ]

  -- No value is kept twice.
  pub distinct-IsDistinct : (xs : List A) → IsDistinct (distinct eq xs)
  unfolding distinct
  distinct-IsDistinct xs = distinct_from-IsDistinct [] xs

module _ {A : Type 0} (key : A → Text) where
  pub sort_by-All : (P : A → Type 0) (xs : List A) → All P xs → All P (sort_by key xs)
  unfolding sort_by
  sort_by-All P [] h = tt
  sort_by-All P (x ∷ xs) h = insert_by-All key P x (sort_by key xs) h.0 (sort_by-All P xs h.1)

  pub sort_by-two :
      (x y : A) → text_leb (key x) (key y) ≡ true → sort_by key (x ∷ y ∷ []) ≡ x ∷ y ∷ []
  unfolding sort_by insert_by
  sort_by-two x y h = rw h

-- Every two elements, the earlier one first, stand in a relation.
abbrev pub Pairs : {A : Type 0} → (A → A → Type 0) → List A → Type 0
Pairs R [] = Unit
Pairs R (x ∷ xs) = All (R x) xs × Pairs R xs

module _ {A : Type 0} (key : A → Text) (R : A → A → Type 0)
    (R_sym : (a b : A) → R a b → R b a) where
  insert_by-Pairs : (x : A) (xs : List A) → All (R x) xs → Pairs R xs → Pairs R (insert_by key x xs)
  unfolding insert_by
  insert_by-Pairs x [] h k = (tt, tt)
  insert_by-Pairs x (y ∷ ys) h k = elim (Bool-cases (text_leb (key x) (key y))) [
    | inl e ↦ rw e (h, k)
    | inr e ↦ rw e (insert_by-All key (R y) x ys (R_sym x y h.0) k.0, insert_by-Pairs x ys h.1 k.1)
  ]

  -- Sorting keeps a symmetric relation between all elements.
  pub sort_by-Pairs : (xs : List A) → Pairs R xs → Pairs R (sort_by key xs)
  unfolding sort_by
  sort_by-Pairs [] h = tt
  sort_by-Pairs (x ∷ xs) h =
      insert_by-Pairs x (sort_by key xs) (sort_by-All key (R x) xs h.0) (sort_by-Pairs xs h.1)
