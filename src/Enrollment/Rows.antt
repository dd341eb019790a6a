-- ===== src/Enrollment/Rows.antt =====
-- How a claim and a release change which tokens are taken.
use arx_mdm.Prelude.{
  ℕ, suc, ◌+◌, ◌≤◌, ◌≡◌, ◌≢◌, refl, sym, subst, ap, some_inj, ◌⊎◌, inl, inr, true, false, none,
  some, List, [], ◌∷◌, Text, All, ◌==◌, if◌then◌else◌, Bool-cases, arith,
}
use arx_mdm.Prelude.Sort.{Pairs}
use arx_mdm.Enrollment.Tokens.{
  Token, ClaimedEnrollmentToken, is_claimable, mark_used, first_claimable, is_held, mark_unused,
}

-- With `n` owners per id: a token has one at most, and one that has an owner is marked as used.
abbrev pub IsTaken : (ℕ → ℕ) → Token → Type 0
IsTaken n t = (n t.id ≤ 1) × ((n t.id ≡ 0) ⊎ (t.is_used ≡ true))

abbrev pub HasUniqueIds : List Token → Type 0
HasUniqueIds rows = Pairs (λ a b. a.id ≢ b.id) rows

pub first_claimable-id :
    (x now : ℕ) (hash : Text) (ts : List Token) (c : ClaimedEnrollmentToken)
    → All (λ t. x ≢ t.id) ts
    → first_claimable now hash ts ≡ some c
    → x ≢ c.id
unfolding first_claimable
first_claimable-id x now hash [] c h e = cc
first_claimable-id x now hash (t ∷ ts) c h e = elim (Bool-cases (is_claimable now hash t)) [
  | inl y ↦ subst (λ z. x ≢ z) (ap (λ o. o.id) (some_inj (rw (first_claimable, y) at e))) h.0
  | inr y ↦ first_claimable-id x now hash ts c h.1 (rw (first_claimable, y) at e)
]

module _ (now : ℕ) (hash : Text) where
  mark_used-All :
      (P Q : Token → Type 0) (ts : List Token)
      → ((t : Token) → P t → Q t)
      → ((t : Token) → P t → Q (record t { is_used = true; used_at = some now }))
      → All P ts
      → All Q (mark_used now hash ts)
  unfolding mark_used
  mark_used-All P Q [] f g h = tt
  mark_used-All P Q (t ∷ ts) f g h = elim (Bool-cases (is_claimable now hash t)) [
    | inl e ↦ rw e (g t h.0, mark_used-All P Q ts f g h.1)
    | inr e ↦ rw e (f t h.0, mark_used-All P Q ts f g h.1)
  ]

  pub mark_used-HasUniqueIds :
      (ts : List Token) → HasUniqueIds ts → HasUniqueIds (mark_used now hash ts)
  unfolding mark_used
  mark_used-HasUniqueIds [] h = tt
  mark_used-HasUniqueIds (t ∷ ts) h = elim (Bool-cases (is_claimable now hash t)) [
    | inl e ↦ rw e (mark_used-All _ _ ts (λ u d. d) (λ u d. d) h.0, mark_used-HasUniqueIds ts h.1)
    | inr e ↦ rw e (mark_used-All _ _ ts (λ u d. d) (λ u d. d) h.0, mark_used-HasUniqueIds ts h.1)
  ]

  -- A claim gives the token that it returns one more owner.
  module _ (n after : ℕ → ℕ) (c : ClaimedEnrollmentToken)
      (more : (x : ℕ) → after x ≡ n x + (if c.id == x then 1 else 0)) where
    not_mine : (x : ℕ) → c.id ≢ x → after x ≡ n x
    not_mine x d = ground (arith, more x)

    mine : (x : ℕ) → c.id ≡ x → after x ≡ suc (n x)
    mine x e = ground (arith, more x)

    others-IsTaken :
        (ts : List Token)
        → All (λ t. c.id ≢ t.id) ts
        → All (IsTaken n) ts
        → All (IsTaken after) (mark_used now hash ts)
    unfolding mark_used
    others-IsTaken [] d h = tt
    others-IsTaken (t ∷ ts) d h = elim (Bool-cases (is_claimable now hash t)) [
      | inl e ↦ rw (e, not_mine t.id d.0) ((h.0.0, inr refl), others-IsTaken ts d.1 h.1)
      | inr e ↦ rw (e, not_mine t.id d.0) (h.0, others-IsTaken ts d.1 h.1)
    ]

    fresh : (t : Token) → is_claimable now hash t ≡ true → IsTaken n t → n t.id ≡ 0
    fresh t e h = ground arith

    pub claim-IsTaken :
        (ts : List Token)
        → HasUniqueIds ts
        → All (IsTaken n) ts
        → first_claimable now hash ts ≡ some c
        → All (IsTaken after) (mark_used now hash ts)
    unfolding mark_used first_claimable
    claim-IsTaken [] u h e = tt
    claim-IsTaken (t ∷ ts) u h e = elim (Bool-cases (is_claimable now hash t)) [
      | inl y ↦
          let same = sym (ap (λ o. o.id) (some_inj (rw (first_claimable, y) at e))) in
          rw (y, mine t.id same, fresh t y h.0)
            (
              (omega arith, inr refl),
              others-IsTaken ts (subst (λ x. All (λ v. x ≢ v.id) ts) (sym same) u.0) h.1,
            )
      | inr y ↦
          let later = rw (first_claimable, y) at e in
          rw (y, not_mine t.id (λ d. first_claimable-id t.id now hash ts c u.0 later (sym d)))
            (h.0, claim-IsTaken ts u.1 h.1 later)
    ]

  pub mark_used-IsTaken :
      (n : ℕ → ℕ) (ts : List Token) → All (IsTaken n) ts → All (IsTaken n) (mark_used now hash ts)
  mark_used-IsTaken n ts h =
      mark_used-All (IsTaken n) (IsTaken n) ts (λ t p. p) (λ t p. (p.0, inr refl)) h

-- A release takes the owner of a token away.
mark_unused-All :
    (P Q : Token → Type 0) (k : ℕ) (ts : List Token)
    → ((t : Token) → t.id ≢ k → P t → Q t)
    → ((t : Token) → t.is_used ≡ false → P t → Q t)
    → ((t : Token) → t.id ≡ k → P t → Q (record t { is_used = false; used_at = none }))
    → All P ts
    → All Q (mark_unused k ts)
unfolding mark_unused
mark_unused-All P Q k [] f g i h = tt
mark_unused-All P Q k (t ∷ ts) f g i h = (first t h.0, mark_unused-All P Q k ts f g i h.1)
  where
    first :
        (t : Token)
        → P t
        → Q (if is_held k t then record t { is_used = false; used_at = none } else t)
    first t p = elim (Bool-cases (is_held k t)) [
      | inl e ↦ rw e (i t (ground arith) p)
      | inr e ↦ rw e (elim (Bool-cases (t.id == k)) [
        | inl same ↦ g t (ground arith) p
        | inr other ↦ f t (λ same. ground arith) p
      ])
    ]

pub mark_unused-HasUniqueIds :
    (k : ℕ) (ts : List Token) → HasUniqueIds ts → HasUniqueIds (mark_unused k ts)
unfolding mark_unused
mark_unused-HasUniqueIds k [] h = tt
mark_unused-HasUniqueIds k (t ∷ ts) h = elim (Bool-cases (is_held k t)) [
  | inl e ↦ rw e (
    mark_unused-All _ _ k ts (λ u _ d. d) (λ u _ d. d) (λ u _ d. d) h.0,
    mark_unused-HasUniqueIds k ts h.1,
  )
  | inr e ↦ rw e (
    mark_unused-All _ _ k ts (λ u _ d. d) (λ u _ d. d) (λ u _ d. d) h.0,
    mark_unused-HasUniqueIds k ts h.1,
  )
]

pub release-IsTaken :
    (n after : ℕ → ℕ) (k : ℕ)
    → ((x : ℕ) → n x ≡ after x + (if k == x then 1 else 0))
    → (ts : List Token) → All (IsTaken n) ts
    → All (IsTaken after) (mark_unused k ts)
release-IsTaken n after k less ts h =
    mark_unused-All (IsTaken n) (IsTaken after) k ts (λ t d p. ground (arith, less t.id))
      (λ t d p. ground (arith, less t.id)) (λ t d p. ground (arith, less t.id)) h
