-- ===== src/Enrollment/Service.antt =====
-- internal/auth/enrollment_service.go, enrollment_response.go and tokenhash.go, and the answer of
-- internal/api/enroll.go on a body that decodes.
use arx_mdm.Prelude.{
  ℕ, Bool, false, ◌||◌, not, Option, none, some, List, [], Text, text_eq, if◌then◌else◌, trim_space,
}
use arx_mdm.Prelude.Result.{Result, err, ok}
use arx_mdm.Enrollment.Csr.{
  CertificateRequest, Crypto, parse_certificate_request_pem, hostname_from_csr, validate_csr_pem,
}
use arx_mdm.Enrollment.Certificate.{
  Authority, Moment, IssueClientCertificateResult, issue_client_certificate,
}
use arx_mdm.Enrollment.Tokens.{
  Token, ClaimedEnrollmentToken, claim_by_presentation_hash, release_claim,
}

-- The errors by what MapProcessEnrollHTTP asks of them; the flag says whether the claim was released.
pub data EnrollError : Type 0 where
  fields_required csr_invalid token_invalid : EnrollError
  sign_failed build_failed sign_empty : Bool → EnrollError

pub record EnrollApiResponse : Type 0 where
  pub client_cert : Text
  pub root_ca : Text

pub record EnrollOutcome : Type 0 where
  pub response : EnrollApiResponse
  pub enrollment_token_id : ℕ

-- BuildEnrollAPIResponse
unfoldable pub build_enroll_api_response :
    Option IssueClientCertificateResult → Result (Bool → EnrollError) EnrollApiResponse
build_enroll_api_response none = err sign_empty
build_enroll_api_response (some res) =
    if text_eq (trim_space res.client_chain_pem) [] || text_eq (trim_space res.root_ca_pem) []
    then err build_failed
    else ok (record { client_cert = res.client_chain_pem; root_ca = res.root_ca_pem })

-- What a request has in hand when it claims its token.
pub record Ready : Type 0 where
  pub hash : Text
  pub hostname : Text
  pub csr : CertificateRequest

-- EnrollmentPresentationHash
unfoldable pub enrollment_presentation_hash : Crypto → Text → Text
enrollment_presentation_hash k secret = k.sha256_hex secret

-- ProcessEnroll up to the claim.
unfoldable pub check_request : Crypto → Text → Text → Result EnrollError Ready
unfolding parse_certificate_request_pem hostname_from_csr validate_csr_pem
    enrollment_presentation_hash
check_request k presentation_secret csr_pem =
    let secret = trim_space presentation_secret in
    let csr = trim_space csr_pem in
    if text_eq secret [] || text_eq csr []
    then err fields_required
    else if not (validate_csr_pem k csr)
    then err csr_invalid
    else elim (parse_certificate_request_pem k csr) [
      | none ↦ err csr_invalid
      | some cr ↦
          if text_eq (hostname_from_csr cr) []
          then err csr_invalid
          else ok (record {
            hash = enrollment_presentation_hash k secret;
            hostname = hostname_from_csr cr;
            csr = cr;
          })
    ]

-- uuid.Nil where the token is for no asset.
abbrev pub asset_of : Option ℕ → ℕ
asset_of none = 0
asset_of (some n) = n

abbrev pub outcome_of :
    ClaimedEnrollmentToken
    → Result (Bool → EnrollError) EnrollApiResponse
    → Result (Bool → EnrollError) EnrollOutcome
outcome_of claimed (err e) = err e
outcome_of claimed (ok response) =
    ok (record { response = response; enrollment_token_id = claimed.id })

-- ProcessEnroll between the claim and the answer: the signing, which reads no row.
unfoldable pub sign_claim :
    Crypto
    → Authority
    → Moment
    → Ready
    → ClaimedEnrollmentToken
    → Result (Bool → EnrollError) EnrollOutcome
unfolding issue_client_certificate build_enroll_api_response
sign_claim k a m ready claimed =
    elim (issue_client_certificate k a m (asset_of claimed.asset_id) ready.hostname ready.csr) [
      | none ↦ err sign_failed
      | some signed ↦ outcome_of claimed (build_enroll_api_response (some signed))
    ]

-- Whether the statement of ReleaseClaim fails, which runs on the request's context.
abbrev pub is_release_lost : Moment → Bool
is_release_lost m = m.cancelled || m.lost_later

-- The end of ProcessEnroll: a failed signing releases the claim, where that statement succeeds.
unfoldable pub settle_claim :
    Moment
    → ClaimedEnrollmentToken
    → Result (Bool → EnrollError) EnrollOutcome
    → List Token
    → Result EnrollError EnrollOutcome × List Token
unfolding release_claim
settle_claim m claimed (ok outcome) rows = (ok outcome, rows)
settle_claim m claimed (err e) rows =
    if is_release_lost m
    then (err (e false), rows)
    else (err (e (release_claim claimed.id rows).0), (release_claim claimed.id rows).1)

-- ProcessEnroll, with nothing of another request in between.
unfoldable pub process_enroll :
    Crypto
    → Authority
    → Moment
    → Text
    → Text
    → List Token
    → Result EnrollError EnrollOutcome × List Token
unfolding check_request claim_by_presentation_hash sign_claim settle_claim
process_enroll k a m secret csr_pem rows = elim (check_request k secret csr_pem) [
  | err e ↦ (err e, rows)
  | ok ready ↦
      let (claim, marked) = claim_by_presentation_hash m.now ready.hash rows in
      elim claim [
        | none ↦ (err token_invalid, marked)
        | some claimed ↦ settle_claim m claimed (sign_claim k a m ready claimed) marked
      ]
]

-- MapProcessEnrollHTTP; the empty fields are refused with 400 by handlePublicEnroll before it calls.
unfoldable pub map_process_enroll_http : EnrollError → ℕ
map_process_enroll_http token_invalid = 401
map_process_enroll_http csr_invalid = 400
map_process_enroll_http fields_required = 502
map_process_enroll_http (sign_failed _) = 502
map_process_enroll_http (build_failed _) = 502
map_process_enroll_http (sign_empty _) = 502

-- handlePublicEnroll: the status of the answer.
unfoldable pub handle_public_enroll :
    Crypto → Authority → Moment → Text → Text → List Token → ℕ × List Token
unfolding process_enroll map_process_enroll_http
handle_public_enroll k a m secret csr_pem rows =
    if text_eq (trim_space secret) [] || text_eq (trim_space csr_pem) []
    then (400, rows)
    else let (answer, after) = process_enroll k a m secret csr_pem rows in
      (elim answer [ err e ↦ map_process_enroll_http e | ok _ ↦ 201 ], after)
