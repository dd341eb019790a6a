-- ===== src/Policy/Summary.antt =====
-- merge.go, MergeAssignedPayloads: which paths the result has, and when it fails.
use arx_mdm.Prelude.{
  ◌≡◌, sym, subst, ◌∙◌, ◌↔◌, ◌⊎◌, inl, inr, false, List, [], ◌∷◌, map, arith, Text, text_eq_iff,
  Any, Any-map, Bool-cases, ◌==◌,
}
use arx_mdm.Prelude.Result.{Result, ok, >>=-eq-ok}
use arx_mdm.Prelude.Sort.{sort_by, sort_by-Any, sort_by-IsSortedBy, IsSortedBy}
use arx_mdm.Policy.Json.{Fields, Encoding, obj}
use arx_mdm.Policy.Types.{AssignedPayload, MergeResult, PathContribution}
use arx_mdm.Policy.Flatten.{flatten_contributions}
use arx_mdm.Policy.Merge.{
  Contributors, add_contribution, add_all, decode_payload, collect, setting, summarize,
  merge_assigned_payloads,
}

-- A path is among those of the contributors.
abbrev HasKey : {F : Type 0} → Text → Contributors F → Type 0
HasKey path = Any (λ c. c.0 ≡ path)

module _ {F : Type 0} where
  add_contribution-HasKey :
      (q p : Text) (c : PathContribution F) (acc : Contributors F)
      → HasKey q (add_contribution p c acc) ↔ ((p ≡ q) ⊎ HasKey q acc)
  unfolding add_contribution
  add_contribution-HasKey q p c [] = ground arith
  add_contribution-HasKey q p c ((r, cs) ∷ acc) =
      ground (arith, text_eq_iff r p, add_contribution-HasKey q p c acc)

  add_all-HasKey :
      (q : Text) (new : List (Text × PathContribution F)) (acc : Contributors F)
      → HasKey q (add_all new acc) ↔ (Any (λ c. c.0 ≡ q) new ⊎ HasKey q acc)
  unfolding add_all
  add_all-HasKey q [] acc = ground arith
  add_all-HasKey q ((p, c) ∷ new) acc =
      ground
        (arith, add_all-HasKey q new (add_contribution p c acc), add_contribution-HasKey q p c acc)

ok-injective : {X A : Type 0} {a b : A} → ◌≡◌ {A = Result X A} (ok a) (ok b) → a ≡ b
ok-injective h = cc

pass_over : {P Q R : Type 0} (C : Type 0) → P ↔ (Q ⊎ R) → ¬ C → P ↔ ((C ⊎ Q) ⊎ R)
pass_over C h no_c = ground arith

through : {P Q R : Type 0} → P ↔ Q → Q ↔ (R ⊎ ⊥) → P ↔ R
through h k = ground arith

after : {P Q R S : Type 0} → P ↔ Q → Q ↔ R → R ↔ S → P ↔ S
after h k l = ground arith

take_in : {P Q R N K C : Type 0} → P ↔ (Q ⊎ K) → K ↔ (N ⊎ R) → (N → C) → (C → N) → P ↔ ((C ⊎ Q) ⊎ R)
take_in h k f g = ground arith

module _ (E : Encoding) where
  open E use {Float}

  -- The profile has an id, its payload decodes, and flattening it gives a value at the path.
  abbrev pub Contributes : Text → AssignedPayload → Type 0
  Contributes path input =
      ((input.source.id == 0) ≡ false)
      × (root : Fields Float) × (decode_payload E input ≡ ok root)
      × Any (λ c. c.0 ≡ path) (flatten_contributions [] input.source (obj root))

  collect-HasKey :
      (q : Text) (inputs : List AssignedPayload) (acc out : Contributors Float)
      → collect E inputs acc ≡ ok out
      → HasKey q out ↔ (Any (Contributes q) inputs ⊎ HasKey q acc)
  unfolding collect
  collect-HasKey q [] acc out h = ground arith
  collect-HasKey q (input ∷ inputs) acc out h = elim (Bool-cases (input.source.id == 0)) [
    | inl e ↦ pass_over _ (collect-HasKey q inputs acc out (rw e at h)) (λ c. cc (e, c.0))
    | inr e ↦
        let (root, d, rest) = >>=-eq-ok (decode_payload E input) _ (rw e at h) in
        let new = flatten_contributions [] input.source (obj root) in
        take_in (collect-HasKey q inputs (add_all new acc) out rest) (add_all-HasKey q new acc)
          (λ m. (e, root, d, m))
          (λ c.
            let same : c.1 ≡ root = ok-injective (sym c.2 ∙ d) in
            subst (λ r. Any (λ x. x.0 ≡ q) (flatten_contributions [] input.source (obj r))) same
              c.3)
  ]

  summarize-paths :
      (cs : Contributors Float) (Q : Text → Type 0)
      → ((q : Text) → HasKey q cs ↔ Q q)
      → IsSortedBy (λ s. s.path) (summarize E cs).flat_settings
        × ((q : Text) → Any (λ s. s.path ≡ q) (summarize E cs).flat_settings ↔ Q q)
  unfolding summarize
  summarize-paths cs Q h = (
    sort_by-IsSortedBy (λ s. s.path) (map (setting E) cs),
    λ q.
        after (sort_by-Any (λ s. s.path) (λ s. s.path ≡ q) (map (setting E) cs))
          (Any-map (λ s. s.path ≡ q) (setting E) cs) (h q),
  )

  -- The settings of a merge that succeeds are those paths at which some profile with an id gives a
  -- value, and they are listed in the order of their paths.
  pub merge_assigned_payloads-paths :
      (inputs : List AssignedPayload) (r : MergeResult Float)
      → merge_assigned_payloads E inputs ≡ ok r
      → IsSortedBy (λ s. s.path) r.flat_settings
        × ((q : Text) → Any (λ s. s.path ≡ q) r.flat_settings ↔ Any (Contributes q) inputs)
  unfolding merge_assigned_payloads
  merge_assigned_payloads-paths inputs r h =
      let (cs, collected, e) = >>=-eq-ok (collect E inputs []) _ h in
      subst
        (λ (m : MergeResult Float).
          IsSortedBy (λ s. s.path) m.flat_settings
          × ((q : Text) → Any (λ s. s.path ≡ q) m.flat_settings ↔ Any (Contributes q) inputs))
        (ok-injective e)
        (summarize-paths (sort_by (λ c. c.0) cs) (λ q. Any (Contributes q) inputs)
          (λ q.
            through (sort_by-Any (λ c. c.0) (λ c. c.0 ≡ q) cs)
              (collect-HasKey q inputs [] cs collected)))
