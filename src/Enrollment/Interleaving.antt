-- ===== src/Enrollment/Interleaving.antt =====
-- Requests for enrolment at the same time: each claims its token, signs, and settles its claim, with the
-- steps of the others in between.
use arx_mdm.Prelude.{
  ℕ, zero, suc, ◌+◌, ◌≡◌, Option, none, some, List, [], ◌∷◌, if◌then◌else◌, ◌==◌, arith, some_inj,
}
use arx_mdm.Prelude.Result.{Result, err, ok}
use arx_mdm.Enrollment.Csr.{Crypto}
use arx_mdm.Enrollment.Certificate.{Authority, Moment}
use arx_mdm.Enrollment.Tokens.{Token, ClaimedEnrollmentToken, claim_by_presentation_hash}
use arx_mdm.Enrollment.Service.{EnrollError, EnrollOutcome, Ready, sign_claim, settle_claim}

-- Where a request stands.
pub data Phase : Type 0 where
  waiting : Ready → Phase
  holding : Ready → ClaimedEnrollmentToken → Phase
  enrolled : EnrollOutcome → Phase
  refused : EnrollError → Phase

pub record System : Type 0 where
  pub rows : List Token
  pub requests : List Phase

-- The number of the request that moves, and when.
pub data Move : Type 0 where
  claim : ℕ → ℕ → Move
  settle : ℕ → Moment → Move

unfoldable pub request_at : ℕ → List Phase → Option Phase
request_at n [] = none
request_at zero (p ∷ ps) = some p
request_at (suc n) (p ∷ ps) = request_at n ps

unfoldable pub put_request : ℕ → Phase → List Phase → List Phase
put_request n q [] = []
put_request zero q (p ∷ ps) = q ∷ ps
put_request (suc n) q (p ∷ ps) = p ∷ put_request n q ps

abbrev pub after_claim : Ready → Option ClaimedEnrollmentToken → Phase
after_claim ready none = refused EnrollError.token_invalid
after_claim ready (some c) = holding ready c

abbrev pub after_settling : Result EnrollError EnrollOutcome → Phase
after_settling (err e) = refused e
after_settling (ok o) = enrolled o

-- The steps of ProcessEnroll that touch the rows, each one statement of the database.
module _ (k : Crypto) (a : Authority) where
  abbrev pub claim_step : ℕ → ℕ → System → Option Phase → System
  claim_step i now s (some (waiting ready)) =
      let (c, rows) = claim_by_presentation_hash now ready.hash s.rows in
      record { rows = rows; requests = put_request i (after_claim ready c) s.requests }
  claim_step i now s _ = s

  abbrev pub settle_step : ℕ → Moment → System → Option Phase → System
  settle_step i m s (some (holding ready c)) =
      let (answer, rows) = settle_claim m c (sign_claim k a m ready c) s.rows in
      record { rows = rows; requests = put_request i (after_settling answer) s.requests }
  settle_step i m s _ = s

  unfoldable pub step : System → Move → System
  unfolding request_at put_request claim_by_presentation_hash settle_claim sign_claim
  step s (claim i now) = claim_step i now s (request_at i s.requests)
  step s (settle i m) = settle_step i m s (request_at i s.requests)

  unfoldable pub run : System → List Move → System
  unfolding step
  run s [] = s
  run s (m ∷ ms) = run (step s m) ms

-- Whether a request has or had the token with an id, and did not give it back.
abbrev pub owns : ℕ → Phase → ℕ
owns n (holding ready c) = if c.id == n then 1 else 0
owns n (enrolled o) = if o.enrollment_token_id == n then 1 else 0
owns n _ = 0

abbrev pub owners : ℕ → List Phase → ℕ
owners n [] = 0
owners n (p ∷ ps) = owns n p + owners n ps

pub owners-put_request :
    (n i : ℕ) (old new : Phase) (ps : List Phase)
    → request_at i ps ≡ some old
    → owners n (put_request i new ps) + owns n old ≡ owners n ps + owns n new
unfolding request_at put_request
owners-put_request n i old new [] h = cc
owners-put_request n zero old new (p ∷ ps) h = rw (some_inj h) (omega arith)
owners-put_request n (suc i) old new (p ∷ ps) h = omega (arith, owners-put_request n i old new ps h)
