-- ===== src/Prelude/Rows.antt =====
-- Lists of rows: what deletions, insertions and updates keep.
use arx_mdm.Prelude.{
  ◌≡◌, inl, inr, Bool, true, false, ◌&&◌, List, [], ◌∷◌, ◌++◌, All, any, keep, Bool-cases, arith,
  if◌then◌else◌,
}
use arx_mdm.Prelude.Sort.{Pairs}

module _ {A : Type 0} where
  pub keep-All :
      (q : A → Bool) (P Q : A → Type 0) (xs : List A)
      → ((x : A) → q x ≡ true → P x → Q x)
      → All P xs
      → All Q (keep q xs)
  keep-All q P Q [] f h = tt
  keep-All q P Q (x ∷ xs) f h = elim (Bool-cases (q x)) [
    | inl e ↦ rw e (f x e h.0, keep-All q P Q xs f h.1)
    | inr e ↦ rw e (keep-All q P Q xs f h.1)
  ]

  pub keep-Pairs :
      (q : A → Bool) (R : A → A → Type 0) (xs : List A) → Pairs R xs → Pairs R (keep q xs)
  keep-Pairs q R [] h = tt
  keep-Pairs q R (x ∷ xs) h = elim (Bool-cases (q x)) [
    | inl e ↦ rw e (keep-All q (R x) (R x) xs (λ y t p. p) h.0, keep-Pairs q R xs h.1)
    | inr e ↦ rw e (keep-Pairs q R xs h.1)
  ]

  pub All-map : (P Q : A → Type 0) (xs : List A) → ((x : A) → P x → Q x) → All P xs → All Q xs
  All-map P Q [] f h = tt
  All-map P Q (x ∷ xs) f h = (f x h.0, All-map P Q xs f h.1)

  pub append-Pairs :
      (R : A → A → Type 0) (xs : List A) (x : A)
      → Pairs R xs
      → All (λ b. R b x) xs
      → Pairs R (xs ++ x ∷ [])
  append-Pairs R [] x h k = (tt, tt)
  append-Pairs R (b ∷ bs) x h k = (append-All bs h.0 k.0, append-Pairs R bs x h.1 k.1)
    where
      append-All : (bs : List A) → All (R b) bs → R b x → All (R b) (bs ++ x ∷ [])
      append-All [] h r = (r, tt)
      append-All (c ∷ cs) h r = (h.0, append-All cs h.1 r)

  -- A test that fails on a list fails on each of its elements.
  pub any-false : (p : A → Bool) (xs : List A) → any p xs ≡ false → All (λ x. p x ≡ false) xs
  any-false p [] h = tt
  any-false p (x ∷ xs) h = ground (arith, any-false p xs)

  pub any-append_true : (p : A → Bool) (xs ys : List A) → any p xs ≡ true → any p (xs ++ ys) ≡ true
  any-append_true p [] ys h = cc
  any-append_true p (x ∷ xs) ys h = ground (arith, any-append_true p xs ys)

  -- A test over a deletion that decides on the test's elements as a whole.
  pub any-keep :
      (b : Bool) (p q : A → Bool) (xs : List A)
      → ((x : A) → p x ≡ true → q x ≡ b)
      → any p (keep q xs) ≡ (b && any p xs)
  any-keep b p q [] f = ground arith
  any-keep b p q (x ∷ xs) f = ground (arith, f x, any-keep b p q xs f)

  pub any-append_one :
      (p : A → Bool) (xs : List A) (x : A) → any p (xs ++ x ∷ []) ≡ (if any p xs then true else p x)
  any-append_one p [] x = ground arith
  any-append_one p (y ∷ ys) x = ground (arith, any-append_one p ys x)
