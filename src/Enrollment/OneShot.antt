-- ===== src/Enrollment/OneShot.antt =====
-- However the requests interleave, a token enrols one device at most.
use arx_mdm.Prelude.{
  ℕ, ◌+◌, ◌≤◌, ◌≡◌, refl, sym, ap, inl, inr, Bool, Option, none, some, List, [], ◌∷◌, All, ◌==◌,
  if◌then◌else◌, Option-cases, Bool-cases, arith,
}
use arx_mdm.Prelude.Result.{Result, err, ok, Result-cases}
use arx_mdm.Enrollment.Csr.{Crypto}
use arx_mdm.Enrollment.Certificate.{Authority, Moment, issue_client_certificate}
use arx_mdm.Enrollment.Tokens.{
  Token, ClaimedEnrollmentToken, first_claimable, claim_by_presentation_hash, release_claim,
}
use arx_mdm.Enrollment.Service.{
  EnrollError, EnrollApiResponse, EnrollOutcome, Ready, build_enroll_api_response, sign_claim,
  is_release_lost, settle_claim, outcome_of, asset_of,
}
use arx_mdm.Enrollment.Interleaving.{
  Phase, waiting, holding, enrolled, refused, System, Move, claim, settle, request_at, put_request,
  claim_step, settle_step, step, run, owns, owners, owners-put_request,
}
use arx_mdm.Enrollment.Rows.{
  IsTaken, HasUniqueIds, mark_used-HasUniqueIds, claim-IsTaken, mark_used-IsTaken,
  mark_unused-HasUniqueIds, release-IsTaken,
}

abbrev IsConsistent : System → Type 0
IsConsistent s = HasUniqueIds s.rows × All (IsTaken (λ n. owners n s.requests)) s.rows

-- The same owners, and the rows as they were.
same_owners :
    (n after : ℕ → ℕ) (rows : List Token)
    → ((x : ℕ) → after x ≡ n x)
    → All (IsTaken n) rows
    → All (IsTaken after) rows
same_owners n after [] same h = tt
same_owners n after (t ∷ ts) same h = (rw (same t.id) h.0, same_owners n after ts same h.1)

-- Fewer owners, and the rows as they were.
fewer_owners :
    (n after : ℕ → ℕ) (rows : List Token)
    → ((x : ℕ) → after x ≤ n x)
    → All (IsTaken n) rows
    → All (IsTaken after) rows
fewer_owners n after [] less h = tt
fewer_owners n after (t ∷ ts) less h = (ground (arith, less t.id), fewer_owners n after ts less h.1)

outcome_of-id :
    (c : ClaimedEnrollmentToken) (r : Result (Bool → EnrollError) EnrollApiResponse)
    (o : EnrollOutcome)
    → outcome_of c r ≡ ok o
    → o.enrollment_token_id ≡ c.id
outcome_of-id c (err e) o h = cc
outcome_of-id c (ok response) o h =
    sym (ap (λ r. elim r [ err _ ↦ c.id | ok x ↦ x.enrollment_token_id ]) h)

module _ (k : Crypto) (a : Authority) where
  -- The outcome of a signing names the token that was claimed.
  sign_claim-id :
      (m : Moment) (ready : Ready) (c : ClaimedEnrollmentToken) (o : EnrollOutcome)
      → sign_claim k a m ready c ≡ ok o
      → o.enrollment_token_id ≡ c.id
  unfolding sign_claim build_enroll_api_response
  sign_claim-id m ready c o e =
      elim (Option-cases
        (issue_client_certificate k a m (asset_of c.asset_id) ready.hostname ready.csr)) [
          | inl f ↦ cc (rw (sign_claim, f) at e)
          | inr (signed, f) ↦ outcome_of-id c _ o (rw (sign_claim, f) at e)
        ]

  claim_step-IsConsistent :
      (i now : ℕ) (s : System) (o : Option Phase)
      → request_at i s.requests ≡ o
      → IsConsistent s
      → IsConsistent (claim_step k a i now s o)
  unfolding claim_by_presentation_hash
  claim_step-IsConsistent i now s none e h = h
  claim_step-IsConsistent i now s (some (holding _ _)) e h = h
  claim_step-IsConsistent i now s (some (enrolled _)) e h = h
  claim_step-IsConsistent i now s (some (refused _)) e h = h
  claim_step-IsConsistent i now s (some (waiting ready)) e h = (
    mark_used-HasUniqueIds now ready.hash s.rows h.0,
    elim (Option-cases (first_claimable now ready.hash s.rows)) [
      | inl f ↦ rw f (
          same_owners _ _ _ (λ n. unchanged n)
            (mark_used-IsTaken now ready.hash (λ n. owners n s.requests) s.rows h.1))
      | inr (c, f) ↦ rw f (
          claim-IsTaken now ready.hash (λ n. owners n s.requests) _ c (λ n. more c n) s.rows h.0 h.1
            f)
    ],
  )
    where
      unchanged :
          (n : ℕ)
          → owners n (put_request i (refused EnrollError.token_invalid) s.requests)
            ≡ owners n s.requests
      unchanged n =
          omega (arith, owners-put_request n i _ (refused EnrollError.token_invalid) s.requests e)

      more :
          (c : ClaimedEnrollmentToken) (n : ℕ)
          → owners n (put_request i (holding ready c) s.requests)
            ≡ owners n s.requests + (if c.id == n then 1 else 0)
      more c n = omega (arith, owners-put_request n i _ (holding ready c) s.requests e)

  settle_step-IsConsistent :
      (i : ℕ) (m : Moment) (s : System) (o : Option Phase)
      → request_at i s.requests ≡ o
      → IsConsistent s
      → IsConsistent (settle_step k a i m s o)
  unfolding settle_claim release_claim
  settle_step-IsConsistent i m s none e h = h
  settle_step-IsConsistent i m s (some (waiting _)) e h = h
  settle_step-IsConsistent i m s (some (enrolled _)) e h = h
  settle_step-IsConsistent i m s (some (refused _)) e h = h
  settle_step-IsConsistent i m s (some (holding ready c)) e h =
      elim (Result-cases (sign_claim k a m ready c)) [
        | inl (o, f) ↦ rw (settle_step, f) (h.0, same_owners _ _ s.rows (λ n. kept o f n) h.1)
        | inr (x, f) ↦ elim (Bool-cases (is_release_lost m)) [
          | inl g ↦
              rw (settle_step, f, g)
                (h.0, fewer_owners (λ n. owners n s.requests) _ s.rows (λ n. less_le _ n) h.1)
          | inr g ↦
              rw (settle_step, f, g)
                (
                  mark_unused-HasUniqueIds c.id s.rows h.0,
                  release-IsTaken (λ n. owners n s.requests) _ c.id (λ n. less _ n) s.rows h.1,
                )
        ]
      ]
    where
      same_owner :
          (o : EnrollOutcome)
          → sign_claim k a m ready c ≡ ok o
          → (n : ℕ) → owns n (enrolled o) ≡ owns n (holding ready c)
      same_owner o f n = rw (sign_claim-id m ready c o f)

      kept :
          (o : EnrollOutcome)
          → sign_claim k a m ready c ≡ ok o
          → (n : ℕ) → owners n (put_request i (enrolled o) s.requests) ≡ owners n s.requests
      kept o f n =
          omega (arith, owners-put_request n i _ (enrolled o) s.requests e, same_owner o f n)

      less :
          (x : EnrollError) (n : ℕ)
          → owners n s.requests
            ≡ owners n (put_request i (refused x) s.requests) + (if c.id == n then 1 else 0)
      less x n = omega (arith, owners-put_request n i _ (refused x) s.requests e)

      less_le :
          (x : EnrollError) (n : ℕ)
          → owners n (put_request i (refused x) s.requests) ≤ owners n s.requests
      less_le x n = omega (arith, less x n)

  step-IsConsistent : (s : System) (m : Move) → IsConsistent s → IsConsistent (step k a s m)
  unfolding step
  step-IsConsistent s (claim i now) h = claim_step-IsConsistent i now s _ refl h
  step-IsConsistent s (settle i m) h = settle_step-IsConsistent i m s _ refl h

  -- From tokens with distinct ids and requests that wait, every order of their steps leads to a state where
  -- a token belongs to one request at most, enrolled or still signing, and is marked as used if to one.
  pub run-IsTaken :
      (s : System) (ms : List Move)
      → HasUniqueIds s.rows
      → All (IsTaken (λ n. owners n s.requests)) s.rows
      → All (IsTaken (λ n. owners n (run k a s ms).requests)) (run k a s ms).rows
  unfolding run
  run-IsTaken s [] u h = h
  run-IsTaken s (m ∷ ms) u h =
      let next = step-IsConsistent s m (u, h) in run-IsTaken (step k a s m) ms next.0 next.1
