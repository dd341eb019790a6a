-- ===== src/Enrollment/Failure.antt =====
-- What an enrolment that fails leaves of the tokens.
use arx_mdm.Prelude.{
  ℕ, suc, Bool, not, ◌&&◌, if◌then◌else◌, trim_space, ◌≡◌, ◌≢◌, refl, sym, subst, ap, inl, inr,
  true, false, none, some, List, [], ◌∷◌, Text, text_eq, text_eq→eq, All, ◌==◌, ==_iff, Bool-cases,
  Option-cases, arith, some_inj,
}
use arx_mdm.Prelude.Sort.{Pairs}
use arx_mdm.Prelude.Result.{err, ok, Result-cases, err_inj}
use arx_mdm.Enrollment.Csr.{Crypto}
use arx_mdm.Enrollment.Certificate.{Authority, Moment}
use arx_mdm.Enrollment.Tokens.{
  Token, ClaimedEnrollmentToken, is_claimable, count_held, first_claimable, mark_used, mark_unused,
  is_held, claim_by_presentation_hash, release_claim,
}
use arx_mdm.Enrollment.Service.{
  EnrollError, Ready, is_release_lost, build_enroll_api_response, enrollment_presentation_hash,
  check_request, sign_claim, settle_claim, process_enroll,
}
use arx_mdm.Enrollment.Rows.{first_claimable-id}

-- Distinct ids and hashes, and no time of use on a token that is not used.
abbrev pub IsWellKept : List Token → Type 0
IsWellKept rows =
    Pairs (λ a b. a.id ≢ b.id) rows
    × Pairs (λ a b. a.token_hash ≢ b.token_hash) rows
    × All (λ t. t.is_used ≡ false → t.used_at ≡ none) rows

pub unclaimed_same :
    (now : ℕ) (hash : Text) (ts : List Token)
    → first_claimable now hash ts ≡ none
    → mark_used now hash ts ≡ ts
unfolding first_claimable mark_used
unclaimed_same now hash [] h = refl
unclaimed_same now hash (t ∷ ts) h = elim (Bool-cases (is_claimable now hash t)) [
  | inl e ↦ cc (rw (first_claimable, e) at h)
  | inr e ↦ rw (e, unclaimed_same now hash ts (rw (first_claimable, e) at h))
]

other_hashes :
    (now : ℕ) (hash : Text) (ts : List Token)
    → All (λ t. hash ≢ t.token_hash) ts
    → mark_used now hash ts ≡ ts
unfolding mark_used
other_hashes now hash [] h = refl
other_hashes now hash (t ∷ ts) h = elim (Bool-cases (text_eq t.token_hash hash)) [
  | inl e ↦ elim (let absurd : ⊥ = h.0 (sym (text_eq→eq t.token_hash hash e)) in absurd) [ ]
  | inr e ↦ rw (e, other_hashes now hash ts h.1)
]

other_ids : (k : ℕ) (ts : List Token) → All (λ t. k ≢ t.id) ts → mark_unused k ts ≡ ts
unfolding mark_unused
other_ids k [] h = refl
other_ids k (t ∷ ts) h = elim (Bool-cases (is_held k t)) [
  | inl e ↦ elim (let absurd : ⊥ = ground arith in absurd) [ ]
  | inr e ↦ rw (e, other_ids k ts h.1)
]

restored :
    (now : ℕ) (t : Token)
    → t.is_used ≡ false
    → t.used_at ≡ none
    → (record t { is_used = false; used_at = none }) ≡ t
restored now t u v =
    subst (λ b. (record t { is_used = b; used_at = none }) ≡ t) u
      (subst (λ o. (record t { is_used = t.is_used; used_at = o }) ≡ t) v refl)

-- A release undoes the claim.
release_undoes :
    (now : ℕ) (hash : Text) (ts : List Token) (c : ClaimedEnrollmentToken)
    → IsWellKept ts
    → first_claimable now hash ts ≡ some c
    → mark_unused c.id (mark_used now hash ts) ≡ ts
unfolding first_claimable mark_used mark_unused
release_undoes now hash [] c w h = refl
release_undoes now hash (t ∷ ts) c (ids, hashes, clean) h =
    elim (Bool-cases (is_claimable now hash t)) [
      | inl e ↦
          let same : t.id ≡ c.id = ap (λ o. o.id) (some_inj (rw (first_claimable, e) at h)) in
          let hit : text_eq t.token_hash hash ≡ true = ground arith in
          let free : t.is_used ≡ false = ground arith in
          let rest : mark_used now hash ts ≡ ts = other_hashes now hash ts (
            subst (λ x. All (λ v. x ≢ v.token_hash) ts) (text_eq→eq t.token_hash hash hit)
              hashes.0) in
          let old : mark_unused c.id ts ≡ ts =
            other_ids c.id ts (subst (λ x. All (λ v. x ≢ v.id) ts) same ids.0) in
          rw (e, rest, old, (==_iff t.id c.id).1 same)
            (ap (λ u. u ∷ ts) (restored now t free (clean.0 free)))
      | inr e ↦
          let later = rw (first_claimable, e) at h in
          let apart : (t.id == c.id) ≡ false =
            ground (arith, first_claimable-id t.id now hash ts c ids.0 later) in
          rw (e, apart)
            (ap (λ us. t ∷ us) (release_undoes now hash ts c (ids.1, hashes.1, clean.1) later))
    ]

none_held :
    (k now : ℕ) (hash : Text) (ts : List Token)
    → All (λ t. k ≢ t.id) ts
    → count_held k (mark_used now hash ts) ≡ 0
unfolding mark_used count_held
none_held k now hash [] h = refl
none_held k now hash (t ∷ ts) h = elim (Bool-cases (is_claimable now hash t)) [
  | inl e ↦ rw (e, apart) (none_held k now hash ts h.1)
  | inr e ↦ rw (e, apart) (none_held k now hash ts h.1)
]
  where
    apart : (t.id == k) ≡ false
    apart = ground (arith, h.0)

-- A release after the claim updates one row.
release_counts :
    (now : ℕ) (hash : Text) (ts : List Token) (c : ClaimedEnrollmentToken)
    → Pairs (λ a b. a.id ≢ b.id) ts
    → first_claimable now hash ts ≡ some c
    → count_held c.id (mark_used now hash ts) ≡ 1
unfolding first_claimable mark_used count_held
release_counts now hash [] c ids h = cc
release_counts now hash (t ∷ ts) c ids h = elim (Bool-cases (is_claimable now hash t)) [
  | inl e ↦
      let same : t.id ≡ c.id = ap (λ o. o.id) (some_inj (rw (first_claimable, e) at h)) in
      rw (e, (==_iff t.id c.id).1 same)
        (ap suc (none_held c.id now hash ts (subst (λ x. All (λ v. x ≢ v.id) ts) same ids.0)))
  | inr e ↦
      let later = rw (first_claimable, e) at h in
      let apart : (t.id == c.id) ≡ false =
        ground (arith, first_claimable-id t.id now hash ts c ids.0 later) in
      rw (e, apart) (release_counts now hash ts c ids.1 later)
]

-- Whether an error says that the claim was not released.
abbrev pub keeps_claim : EnrollError → Bool
keeps_claim EnrollError.fields_required = false
keeps_claim EnrollError.csr_invalid = false
keeps_claim EnrollError.token_invalid = false
keeps_claim (EnrollError.sign_failed is_released) = not is_released
keeps_claim (EnrollError.build_failed is_released) = not is_released
keeps_claim (EnrollError.sign_empty is_released) = not is_released

-- Whether an error comes after the claim.
abbrev pub is_after_claim : EnrollError → Bool
is_after_claim EnrollError.fields_required = false
is_after_claim EnrollError.csr_invalid = false
is_after_claim EnrollError.token_invalid = false
is_after_claim (EnrollError.sign_failed _) = true
is_after_claim (EnrollError.build_failed _) = true
is_after_claim (EnrollError.sign_empty _) = true

check_request-is_after_claim :
    (k : Crypto) (secret csr_pem : Text) (x : EnrollError)
    → check_request k secret csr_pem ≡ err x
    → (keeps_claim x ≡ false) × (is_after_claim x ≡ false)
unfolding check_request
check_request-is_after_claim k secret csr_pem x h = grind arith

pub check_request-hash :
    (k : Crypto) (secret csr_pem : Text) (ready : Ready)
    → check_request k secret csr_pem ≡ ok ready
    → ready.hash ≡ enrollment_presentation_hash k (trim_space secret)
unfolding check_request
check_request-hash k secret csr_pem ready h = grind arith

sign_claim-keeps_claim :
    (k : Crypto) (a : Authority) (m : Moment) (ready : Ready) (c : ClaimedEnrollmentToken)
    (x : Bool → EnrollError) (b : Bool)
    → sign_claim k a m ready c ≡ err x
    → (keeps_claim (x b) ≡ not b) × (is_after_claim (x b) ≡ true)
unfolding sign_claim build_enroll_api_response
sign_claim-keeps_claim k a m ready c x b h = grind arith

module _ (k : Crypto) (a : Authority) (m : Moment) (secret csr_pem : Text) (rows : List Token) where
  -- What a refusal with an error says of the tokens after it.
  abbrev Tells : EnrollError → List Token → Type 0
  Tells e after =
      (keeps_claim e ≡ (is_release_lost m && is_after_claim e))
      × (after ≡ (
          if keeps_claim e
          then mark_used m.now (enrollment_presentation_hash k (trim_space secret)) rows
          else rows))

  untouched :
      (e : EnrollError) (after : List Token)
      → (keeps_claim e ≡ false) × (is_after_claim e ≡ false)
      → after ≡ rows
      → Tells e after
  untouched e after n same = rw n.0 (ground (arith, n.1), same)

  settle_claim-Tells :
      (ready : Ready) (c : ClaimedEnrollmentToken) (x : Bool → EnrollError)
      → IsWellKept rows
      → ready.hash ≡ enrollment_presentation_hash k (trim_space secret)
      → first_claimable m.now ready.hash rows ≡ some c
      → sign_claim k a m ready c ≡ err x
      → (e : EnrollError) → (settle_claim m c (err x) (mark_used m.now ready.hash rows)).0 ≡ err e
      → Tells e (settle_claim m c (err x) (mark_used m.now ready.hash rows)).1
  unfolding settle_claim release_claim
  settle_claim-Tells ready c x w same g s e h = elim (Bool-cases (is_release_lost m)) [
    | inl l ↦
        let is_e : x false ≡ e = err_inj (rw (settle_claim, l) at h) in
        let kept : (keeps_claim e ≡ true) × (is_after_claim e ≡ true) =
          subst (λ y. (keeps_claim y ≡ true) × (is_after_claim y ≡ true)) is_e
            (sign_claim-keeps_claim k a m ready c x false s) in
        rw (settle_claim, l, kept.0) (sym kept.1, ap (λ u. mark_used m.now u rows) same)
    | inr l ↦
        let is_e : x true ≡ e =
          err_inj (rw (settle_claim, l, release_counts m.now ready.hash rows c w.0 g) at h) in
        let given_back : keeps_claim e ≡ false =
          subst (λ y. keeps_claim y ≡ false) is_e
            (sign_claim-keeps_claim k a m ready c x true s).0 in
        rw (settle_claim, l, given_back) (refl, release_undoes m.now ready.hash rows c w g)
  ]

-- An enrolment that is answered with an error leaves the tokens as they were, unless the error says that the
-- release of the claim failed; the tokens are then as the claim left them, with the token marked as used. The
-- error says so if and only if it comes after the claim and the statement of the release fails. Ids and
-- hashes are distinct, and a token that is not used has no time of use.
pub process_enroll-err :
    (k : Crypto) (a : Authority) (m : Moment) (secret csr_pem : Text) (rows : List Token)
    (e : EnrollError)
    → IsWellKept rows
    → (process_enroll k a m secret csr_pem rows).0 ≡ err e
    → (keeps_claim e ≡ (is_release_lost m && is_after_claim e))
      × ((process_enroll k a m secret csr_pem rows).1 ≡ (
          if keeps_claim e
          then mark_used m.now (enrollment_presentation_hash k (trim_space secret)) rows
          else rows))
unfolding process_enroll claim_by_presentation_hash
process_enroll-err k a m secret csr_pem rows e w h =
    elim (Result-cases (check_request k secret csr_pem)) [
      | inr (x, f) ↦
          let is_e = err_inj (rw (process_enroll, f) at h) in
          rw (process_enroll, f)
            (untouched k a m secret csr_pem rows e rows
              (subst (λ y. (keeps_claim y ≡ false) × (is_after_claim y ≡ false)) is_e
                (check_request-is_after_claim k secret csr_pem x f))
              refl)
      | inl (ready, f) ↦ elim (Option-cases (first_claimable m.now ready.hash rows)) [
        | inl g ↦
            let is_e = err_inj (rw (process_enroll, f, g) at h) in
            rw (process_enroll, f, g)
              (untouched k a m secret csr_pem rows e _
                (subst (λ y. (keeps_claim y ≡ false) × (is_after_claim y ≡ false)) is_e
                  (refl, refl))
                (unclaimed_same m.now ready.hash rows g))
        | inr (c, g) ↦ elim (Result-cases (sign_claim k a m ready c)) [
          | inl (o, s) ↦ cc (rw (process_enroll, f, g, s) at h)
          | inr (x, s) ↦
              rw (process_enroll, f, g, s)
                (settle_claim-Tells k a m secret csr_pem rows ready c x w
                  (check_request-hash k secret csr_pem ready f) g s e
                  (rw (process_enroll, f, g, s) at h))
        ]
      ]
    ]
