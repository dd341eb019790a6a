-- ===== src/Policy/Paths.antt =====
-- merge.go, unflattenLeaves: which leaves the effective payload holds under their paths.
use arx_mdm.Prelude.{
  ◌≡◌, refl, sym, subst, ◌∙◌, ◌⊎◌, inl, inr, false, List, [], ◌∷◌, ◌++◌, Option, none, some, arith,
  Text, text_eq, text_eq_iff, text_eq_refl, if◌then◌else◌, split_on, split_on_nonempty,
  split_on-append, text_leb-append, All, In, Bool-cases,
}
use arx_mdm.Prelude.Sort.{sort_by, sort_by-In, sort_by-Pairs, sort_by-All, sort_by-two, Pairs}
use arx_mdm.Policy.Json.{Json, Fields, obj, end, field, lookup_field, set_field}
use arx_mdm.Policy.Unflatten.{as_map, set_at, set_at_dotted_path, set_all, unflatten_leaves}

module _ {F : Type 0} where
  -- The value under a path of keys.
  pub get_at : List Text → Fields F → Option (Json F)
  get_at [] fs = none
  get_at (sg ∷ []) fs = lookup_field sg fs
  get_at (sg ∷ next ∷ rest) fs = get_at (next ∷ rest) (as_map (lookup_field sg fs))

  lookup_field-set_field :
      (j k : Text) (v : Json F) (fs : Fields F)
      → lookup_field j (set_field k v fs) ≡ (if text_eq k j then some v else lookup_field j fs)
  unfolding lookup_field set_field
  lookup_field-set_field j k v end = refl
  lookup_field-set_field j k v (field i w fs) =
      ground
        (arith, text_eq_iff k j, text_eq_iff i k, text_eq_iff i j, lookup_field-set_field j k v fs)

  lookup_field-set_field_self :
      (k : Text) (v : Json F) (fs : Fields F) → lookup_field k (set_field k v fs) ≡ some v
  lookup_field-set_field_self k v fs = rw (lookup_field-set_field k k v fs, text_eq_refl k)

-- Neither path is a beginning of the other.
abbrev pub Apart : List Text → List Text → Type 0
Apart [] q = ⊥
Apart (s ∷ p) [] = ⊥
Apart (s ∷ p) (t ∷ q) = (text_eq s t ≡ false) ⊎ ((s ≡ t) × Apart p q)

pub Apart-sym : (p q : List Text) → Apart p q → Apart q p
Apart-sym [] q h = absurd h
Apart-sym (s ∷ p) [] h = absurd h
Apart-sym (s ∷ p) (t ∷ q) (inl e) = inl (ground (arith, text_eq_iff s t, text_eq_iff t s))
Apart-sym (s ∷ p) (t ∷ q) (inr (e, h)) = inr (sym e, Apart-sym p q h)

module _ {F : Type 0} where
  get_at-set_at_self :
      (s : Text) (p : List Text) (v : Json F) (fs : Fields F)
      → get_at (s ∷ p) (set_at (s ∷ p) v fs) ≡ some v
  unfolding get_at set_at
  get_at-set_at_self s [] v fs = lookup_field-set_field_self s v fs
  get_at-set_at_self s (t ∷ p) v fs =
      rw (lookup_field-set_field_self s (obj (set_at (t ∷ p) v (as_map (lookup_field s fs)))) fs)
        (get_at-set_at_self t p v (as_map (lookup_field s fs)))

  lookup_field-set_at_ne :
      (s t : Text) (p : List Text) (v : Json F) (fs : Fields F)
      → text_eq s t ≡ false
      → lookup_field t (set_at (s ∷ p) v fs) ≡ lookup_field t fs
  unfolding set_at
  lookup_field-set_at_ne s t [] v fs e = rw (lookup_field-set_field t s v fs, e)
  lookup_field-set_at_ne s t (r ∷ p) v fs e = rw (lookup_field-set_field t s _ fs, e)

  below :
      (s r : Text) (p : List Text) (v : Json F) (fs : Fields F)
      → as_map (lookup_field s (set_at (s ∷ r ∷ p) v fs))
        ≡ set_at (r ∷ p) v (as_map (lookup_field s fs))
  unfolding set_at
  below s r p v fs =
      rw (lookup_field-set_field_self s (obj (set_at (r ∷ p) v (as_map (lookup_field s fs)))) fs)

  get_at-set_at-Apart :
      (p q : List Text) (v : Json F) (fs : Fields F)
      → Apart p q
      → get_at q (set_at p v fs) ≡ get_at q fs
  unfolding get_at
  get_at-set_at-Apart [] q v fs h = absurd h
  get_at-set_at-Apart (s ∷ p) [] v fs h = absurd h
  get_at-set_at-Apart (s ∷ p) (t ∷ []) v fs (inl e) = lookup_field-set_at_ne s t p v fs e
  get_at-set_at-Apart (s ∷ p) (t ∷ r ∷ q) v fs (inl e) = rw (lookup_field-set_at_ne s t p v fs e)
  get_at-set_at-Apart (s ∷ []) (t ∷ q) v fs (inr (e, h)) = absurd h
  get_at-set_at-Apart (s ∷ r ∷ p) (t ∷ []) v fs (inr (e, h)) = absurd h
  get_at-set_at-Apart (s ∷ r ∷ p) (t ∷ u ∷ q) v fs (inr (e, h)) =
      rw (sym e) (
        rw (below s r p v fs)
          (get_at-set_at-Apart (r ∷ p) (u ∷ q) v (as_map (lookup_field s fs)) h))

append_nonempty : (p q : Text) → text_eq (p ++ b'.' ∷ q) [] ≡ false
unfolding text_eq
append_nonempty [] q = refl
append_nonempty (c ∷ p) q = refl

-- A write below a path leaves an object there.
get_at-set_at_beyond :
    {F : Type 0} (s : Text) (p : List Text) (t : Text) (q : List Text) (w : Json F)
    (root : Fields F)
    → (fs : Fields F) × (get_at (s ∷ p) (set_at ((s ∷ p) ++ t ∷ q) w root) ≡ some (obj fs))
unfolding get_at set_at
get_at-set_at_beyond s [] t q w root = (_, lookup_field-set_field_self s _ root)
get_at-set_at_beyond s (r ∷ p) t q w root =
    rw (below s r (p ++ t ∷ q) w root)
      (get_at-set_at_beyond r p t q w (as_map (lookup_field s root)))

-- A leaf with its path; the paths that arise are not empty.
abbrev pub LeavesApart : {F : Type 0} → Text × Json F → Text × Json F → Type 0
LeavesApart (p, v) (q, w) = Apart (split_on b'.' p) (split_on b'.' q)

abbrev pub HasPath : {F : Type 0} → Text × Json F → Type 0
HasPath (p, v) = text_eq p [] ≡ false

module _ {F : Type 0} where
  get_at-set_at_dotted_path_self :
      (root : Fields F) (p : Text) (v : Json F)
      → text_eq p [] ≡ false
      → get_at (split_on b'.' p) (set_at_dotted_path root p v) ≡ some v
  unfolding set_at_dotted_path
  get_at-set_at_dotted_path_self root p v h =
      let (sg, rest, e) = split_on_nonempty b'.' p in
      rw h (rw e (get_at-set_at_self sg rest v root))

  get_at-set_at_dotted_path-Apart :
      (root : Fields F) (p q : Text) (v : Json F)
      → Apart (split_on b'.' p) (split_on b'.' q)
      → get_at (split_on b'.' q) (set_at_dotted_path root p v) ≡ get_at (split_on b'.' q) root
  unfolding set_at_dotted_path
  get_at-set_at_dotted_path-Apart root p q v h = elim (Bool-cases (text_eq p [])) [
    | inl e ↦ rw e
    | inr e ↦ rw e (get_at-set_at-Apart (split_on b'.' p) (split_on b'.' q) v root h)
  ]

  get_at-set_all_apart :
      (q : Text) (v : Json F) (root : Fields F) (leaves : List (Text × Json F))
      → All (LeavesApart (q, v)) leaves
      → get_at (split_on b'.' q) (set_all root leaves) ≡ get_at (split_on b'.' q) root
  unfolding set_all
  get_at-set_all_apart q v root [] h = refl
  get_at-set_all_apart q v root ((r, w) ∷ leaves) h =
      get_at-set_all_apart q v (set_at_dotted_path root r w) leaves h.1
      ∙ get_at-set_at_dotted_path-Apart root r q w (Apart-sym _ _ h.0)

  get_at-set_all :
      (l : Text × Json F) (root : Fields F) (leaves : List (Text × Json F))
      → All HasPath leaves
      → Pairs LeavesApart leaves
      → In l leaves
      → get_at (split_on b'.' l.0) (set_all root leaves) ≡ some l.1
  unfolding set_all
  get_at-set_all l root [] h k m = absurd m
  get_at-set_all l root ((p, v) ∷ leaves) h k (inl e) =
      subst
        (λ m. get_at (split_on b'.' m.0) (set_all (set_at_dotted_path root p v) leaves) ≡ some m.1)
        e
        (get_at-set_all_apart p v (set_at_dotted_path root p v) leaves k.0
          ∙ get_at-set_at_dotted_path_self root p v h.0)
  get_at-set_all l root ((p, v) ∷ leaves) h k (inr m) =
      get_at-set_all l (set_at_dotted_path root p v) leaves h.1 k.1 m

  -- Where every leaf has a path and none is a beginning of another's, the effective payload
  -- holds every leaf under its path.
  pub get_at-unflatten_leaves :
      (leaves : List (Text × Json F)) (l : Text × Json F)
      → All HasPath leaves
      → Pairs LeavesApart leaves
      → In l leaves
      → get_at (split_on b'.' l.0) (unflatten_leaves leaves) ≡ some l.1
  unfolding unflatten_leaves
  get_at-unflatten_leaves leaves l h k m =
      get_at-set_all l end (sort_by (λ x. x.0) leaves) (sort_by-All (λ x. x.0) HasPath leaves h)
        (sort_by-Pairs (λ x. x.0) LeavesApart (λ a b. Apart-sym _ _) leaves k)
        ((sort_by-In (λ x. x.0) l leaves).1 m)

  -- Of two leaves, where the path of the first is not empty and is a dotted beginning of the
  -- second's, the payload holds an object under the shorter path, so that the value of the first
  -- is lost.
  pub unflatten_leaves_shadowed :
      (p q : Text) (v w : Json F)
      → text_eq p [] ≡ false
      → (fs : Fields F) × (get_at
            (split_on b'.' p)
            (unflatten_leaves ((p, v) ∷ (p ++ b'.' ∷ q, w) ∷ []))
          ≡ some (obj fs))
  unfolding unflatten_leaves set_all set_at_dotted_path
  unflatten_leaves_shadowed p q v w h =
      let (s, ps, ep) = split_on_nonempty b'.' p in
      let (t, qs, eq) = split_on_nonempty b'.' q in
      let (fs, over) = get_at-set_at_beyond s ps t qs w (set_at (s ∷ ps) v end) in
      (
        fs,
        rw
            (sort_by-two (λ (x : Text × Json F). x.0) (p, v) (p ++ b'.' ∷ q, w)
              (text_leb-append p (b'.' ∷ q)))
            (rw (h, append_nonempty p q) (rw (split_on-append b'.' p q) (rw (ep, eq) over))),
      )
