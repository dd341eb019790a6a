-- ===== src/Enrollment/Certificate.antt =====
-- IssueClientCertificate of internal/pki/ca.go with its helpers. The authority's keys are in `create_certificate`.
use arx_mdm.Prelude.{
  ℕ, ◌-◌, Bool, true, false, not, Option, none, some, List, [], ◌∷◌, ◌++◌, map, Text, text_eq,
  if◌then◌else◌, trim_space, keep, is_none, ltb, ◌==◌,
}
use arx_mdm.Prelude.Sort.{distinct}
use arx_mdm.Enrollment.Csr.{
  p256, p384, p521, other_curve, PublicKey, ecdsa, rsa, other_key, CertificateRequest,
  SignatureAlgorithm, ecdsa_sha256, ecdsa_sha384, ecdsa_sha512, sha256_rsa, Template, Crypto,
}

-- hostIsDNS
unfoldable pub host_is_dns : Crypto → Text → Bool
host_is_dns k host = if text_eq host [] then false else is_none (k.parse_ip host)

-- validateCSRPublicKey, on keys that are not nil.
unfoldable pub validate_csr_public_key : PublicKey → Bool
validate_csr_public_key (ecdsa p256) = true
validate_csr_public_key (ecdsa p384) = true
validate_csr_public_key (ecdsa p521) = true
validate_csr_public_key (ecdsa other_curve) = false
validate_csr_public_key (rsa bits) = not (ltb bits 2048)
validate_csr_public_key other_key = false

-- signatureAlgorithmForPub
unfoldable pub signature_algorithm_for_pub : PublicKey → Option SignatureAlgorithm
signature_algorithm_for_pub (ecdsa p521) = some ecdsa_sha512
signature_algorithm_for_pub (ecdsa p384) = some ecdsa_sha384
signature_algorithm_for_pub (ecdsa _) = some ecdsa_sha256
signature_algorithm_for_pub (rsa _) = some sha256_rsa
signature_algorithm_for_pub other_key = none

-- uniqueStrings and uniqueIPs
unfoldable pub unique_trimmed : List Text → List Text
unique_trimmed texts = distinct text_eq (keep (λ s. not (text_eq s [])) (map trim_space texts))

unfoldable pub unique_ips : List Text → List Text
unique_ips = distinct text_eq

-- What a call reads besides its arguments: the clock, whether its context is done, a random number, none
-- where the source of randomness fails, and whether the context is done, or the database lost, only
-- after the signing.
pub record Moment : Type 0 where
  pub now : ℕ
  pub cancelled : Bool
  pub random : Option ℕ
  pub lost_later : Bool

-- randomSerial
unfoldable pub random_serial : Moment → Option ℕ
random_serial m = elim m.random [ none ↦ none | some n ↦ if n == 0 then none else some n ]

-- The names and addresses of the certificate.
unfoldable pub subject_names : Crypto → Text → List Text → List Text
unfolding host_is_dns unique_trimmed
subject_names k hostname names =
    let dns_names = unique_trimmed names in
    if host_is_dns k hostname then unique_trimmed (hostname ∷ dns_names) else dns_names

unfoldable pub subject_ips : Crypto → Text → List Text → List Text
unfolding unique_ips
subject_ips k hostname ips = elim (k.parse_ip hostname) [
  | none ↦ ips
  | some ip ↦ unique_ips (ip ∷ ips)
]

abbrev pub asset_uri : ℕ → Option ℕ
asset_uri asset_id = if asset_id == 0 then none else some asset_id

unfoldable pub leaf_template :
    Crypto → Moment → ℕ → Text → CertificateRequest → ℕ → SignatureAlgorithm → Text → Template
unfolding subject_names subject_ips
leaf_template k m asset_id hostname csr serial algorithm key_id = record {
  serial = serial;
  common_name = hostname;
  not_before = m.now - 120;
  not_after = k.next_year m.now;
  subject_key_id = key_id;
  signature_algorithm = algorithm;
  dns_names = subject_names k hostname csr.dns_names;
  ip_addresses = subject_ips k hostname csr.ip_addresses;
  public_key = csr.public_key;
  uri = asset_uri asset_id;
}

-- The checks and values before the template, in the order of the code.
unfoldable pub prepare : Crypto → Moment → ℕ → Text → CertificateRequest → Option Template
unfolding validate_csr_public_key signature_algorithm_for_pub random_serial leaf_template
prepare k m asset_id hostname csr =
    if text_eq hostname []
    then none
    else if not (k.check_signature csr)
    then none
    else if m.cancelled
    then none
    else if not (validate_csr_public_key csr.public_key)
    then none
    else elim (signature_algorithm_for_pub csr.public_key) [
      | none ↦ none
      | some algorithm ↦ elim (random_serial m) [
        | none ↦ none
        | some serial ↦ elim (k.subject_key_id csr.public_key) [
          | none ↦ none
          | some key_id ↦ some (leaf_template k m asset_id hostname csr serial algorithm key_id)
        ]
      ]
    ]

-- Authority, with the texts that it hands out.
pub record Authority : Type 0 where
  pub intermediate_pem : Text
  pub root_pem : Text

pub record IssueClientCertificateResult : Type 0 where
  pub client_chain_pem : Text
  pub root_ca_pem : Text

-- IssueClientCertificate; none for an error.
unfoldable pub issue_client_certificate :
    Crypto
    → Authority
    → Moment
    → ℕ
    → Text
    → CertificateRequest
    → Option IssueClientCertificateResult
unfolding prepare
issue_client_certificate k a m asset_id hostname csr =
    elim (prepare k m asset_id (trim_space hostname) csr) [
      | none ↦ none
      | some template ↦ elim (k.create_certificate template) [
        | none ↦ none
        | some der ↦ some (record {
          client_chain_pem = k.pem_encode der ++ a.intermediate_pem;
          root_ca_pem = a.root_pem;
        })
      ]
    ]
