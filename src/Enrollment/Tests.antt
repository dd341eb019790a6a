-- ===== src/Enrollment/Tests.antt =====
-- Enrolment by example.
use arx_mdm.Prelude.{
  suc, ◌+◌, ◌<◌, ◌≡◌, ◌≢◌, ◌⊎◌, inl, ◌↔◌, refl, ap, subst, true, false, ◌&&◌, Option, none, some,
  List, [], ◌∷◌, Text, text_eq, bytes, All, In, Any, ◌==◌, if◌then◌else◌, arith, trim_space,
  trim_left, to_lower, length, some_inj,
}
use arx_mdm.Prelude.Sort.{distinct, distinct_from, IsDistinct}
use arx_mdm.Prelude.Result.{err}
use arx_mdm.Enrollment.Csr.{
  p256, ecdsa, rsa, sha256_rsa, CertificateRequest, Block, Template, Crypto, out_of_fuel,
  first_block, parse_certificate_request_pem, hostname_from_csr, validate_csr_pem, first_block-fuel,
}
use arx_mdm.Enrollment.Certificate.{
  Authority, Moment, host_is_dns, validate_csr_public_key, signature_algorithm_for_pub,
  unique_trimmed, unique_ips, random_serial, subject_names, subject_ips, leaf_template, prepare,
  issue_client_certificate,
}
use arx_mdm.Enrollment.Tokens.{
  Token, enrollment_token_unused_valid, mark_used, first_claimable, claim_by_presentation_hash,
  mark_unused, count_held, release_claim,
}
use arx_mdm.Enrollment.Service.{
  EnrollError, Ready, is_release_lost, build_enroll_api_response, enrollment_presentation_hash,
  check_request, sign_claim, settle_claim, process_enroll, map_process_enroll_http,
  handle_public_enroll,
}
use arx_mdm.Enrollment.Names.{nonblank, subject_names-In}
use arx_mdm.Enrollment.Failure.{keeps_claim, is_after_claim, process_enroll-err}
use arx_mdm.Enrollment.Interleaving.{
  System, Move, claim, settle, waiting, request_at, put_request, step, run, owners,
}
use arx_mdm.Enrollment.Rows.{IsTaken}
use arx_mdm.Enrollment.OneShot.{run-IsTaken}

-- A block per byte, where R stands for a request with the rest of the text.
abbrev decode : Text → Option (Block × Text)
decode [] = none
decode (c ∷ s) = some (
  record {
    type = if c == b'R' then bytes "CERTIFICATE REQUEST" else bytes "X509 CRL";
    content = s;
  },
  s,
)

-- A request for the name that it spells, with an RSA key if that begins with r.
abbrev parse : Text → Option CertificateRequest
parse [] = none
parse (c ∷ s) = some (record {
  common_name = c ∷ s;
  dns_names = [];
  ip_addresses = [];
  public_key = if c == b'r' then rsa 2048 else ecdsa p256;
})

-- An elliptic signer.
abbrev create : Template → Option Text
create t = elim t.signature_algorithm [ sha256_rsa ↦ none | _ ↦ some t.common_name ]

abbrev crypto : Crypto
crypto = record {
  pem_decode = decode;
  parse_certificate_request = parse;
  check_signature = λ _. true;
  parse_ip = λ _. none;
  next_year = λ n. n + 31536000;
  subject_key_id = λ _. some [];
  create_certificate = create;
  pem_encode = λ s. s;
  sha256_hex = λ s. b'#' ∷ s;
}

abbrev authority : Authority
authority = record { intermediate_pem = bytes "I"; root_pem = bytes "R" }

abbrev noon : Moment
noon = record { now = 1000; cancelled = false; random = some 7; lost_later = false }

abbrev token : Token
token = record {
  id = 1;
  token_hash = bytes "#s";
  asset_id = none;
  expires_at = 2000;
  is_used = false;
  used_at = none;
}

open_all : Unit {0}
unfolding text_eq trim_space trim_left to_lower distinct distinct_from first_block
    parse_certificate_request_pem hostname_from_csr validate_csr_pem host_is_dns
    validate_csr_public_key signature_algorithm_for_pub unique_trimmed unique_ips random_serial
    subject_names subject_ips leaf_template prepare issue_client_certificate
    enrollment_token_unused_valid mark_used first_claimable claim_by_presentation_hash mark_unused
    count_held release_claim build_enroll_api_response enrollment_presentation_hash check_request
    sign_claim settle_claim process_enroll map_process_enroll_http handle_public_enroll request_at
    put_request step run
open_all = tt

decode-shrinks : (s rest : Text) (b : Block) → decode s ≡ some (b, rest) → length rest < length s
decode-shrinks [] rest b h = cc
decode-shrinks (c ∷ s) rest b h =
    subst (λ r. length r < suc (length s)) (ap (λ p. p.1) (some_inj h)) (omega arith)

first_block-fuel_example : first_block 4 decode (bytes "--R") ≢ err out_of_fuel
first_block-fuel_example = first_block-fuel decode decode-shrinks 4 (bytes "--R") (omega arith)

create-elliptic :
    (t : Template) (der : Text) → create t ≡ some der → t.signature_algorithm ≢ sha256_rsa
create-elliptic t der h e = ground arith

abbrev rsa_request : CertificateRequest
rsa_request = record {
  common_name = bytes "r";
  dns_names = [];
  ip_addresses = [];
  public_key = rsa 2048;
}

subject_names-In_example :
    IsDistinct (subject_names crypto (bytes "h") (bytes " a" ∷ bytes "a " ∷ []))
    × ((x : Text)
        → In x (subject_names crypto (bytes "h") (bytes " a" ∷ bytes "a " ∷ [])) ↔ (
            ((host_is_dns crypto (bytes "h") ≡ true) × (bytes "h" ≡ x))
            ⊎ (Any (λ n. trim_space n ≡ x) (bytes " a" ∷ bytes "a " ∷ []) × (nonblank x ≡ true))))
unfolding open_all
subject_names-In_example = subject_names-In crypto (bytes "h") (bytes " a" ∷ bytes "a " ∷ []) refl

two_names :
    subject_names crypto (bytes "h") (bytes " a" ∷ bytes "a " ∷ []) ≡ bytes "h" ∷ bytes "a" ∷ []
unfolding open_all
two_names = refl

-- A good request, and one whose certificate cannot be signed.
enrolled_once :
    (handle_public_enroll crypto authority noon (bytes "s") (bytes "-Rh") (token ∷ [])).0 ≡ 201
unfolding open_all
enrolled_once = refl

-- The context of the request is done before the signing.
abbrev gone : Moment
gone = record { now = 1000; cancelled = true; random = some 7; lost_later = false }

process_enroll-err_example :
    (keeps_claim (EnrollError.sign_failed false)
      ≡ (is_release_lost gone && is_after_claim (EnrollError.sign_failed false)))
    × ((process_enroll crypto authority gone (bytes "s") (bytes "Rh") (token ∷ [])).1
        ≡ mark_used 1000 (bytes "#s") (token ∷ []))
unfolding open_all
process_enroll-err_example =
    process_enroll-err crypto authority gone (bytes "s") (bytes "Rh") (token ∷ [])
      (EnrollError.sign_failed false) ((tt, tt), (tt, tt), ((λ _. refl), tt)) refl

stays_used :
    (process_enroll crypto authority gone (bytes "s") (bytes "Rh") (token ∷ [])).1
    ≡ (record token { is_used = true; used_at = some 1000 }) ∷ []
unfolding open_all
stays_used = refl

given_back :
    process_enroll crypto authority noon (bytes "s") (bytes "Rr") (token ∷ [])
    ≡ (err (EnrollError.sign_failed true), token ∷ [])
unfolding open_all
given_back = refl

abbrev evening : Moment
evening = record { now = 1900; cancelled = false; random = some 8; lost_later = false }

abbrev ready : Ready
ready = record {
  hash = bytes "#s";
  hostname = bytes "h";
  csr = record {
    common_name = bytes "h";
    dns_names = [];
    ip_addresses = [];
    public_key = ecdsa p256;
  };
}

abbrev race : System
race = record { rows = token ∷ []; requests = waiting ready ∷ waiting ready ∷ [] }

abbrev moves : List Move
moves = claim 0 1000 ∷ claim 1 1001 ∷ settle 1 noon ∷ settle 0 noon ∷ []

run-IsTaken_example :
    All
      (IsTaken (λ n. owners n (run crypto authority race moves).requests))
      (run crypto authority race moves).rows
unfolding open_all
run-IsTaken_example = run-IsTaken crypto authority race moves (tt, tt) ((omega arith, inl refl), tt)

one_enrolled : owners 1 (run crypto authority race moves).requests ≡ 1
unfolding open_all
one_enrolled = refl
