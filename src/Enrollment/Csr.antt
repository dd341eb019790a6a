-- ===== src/Enrollment/Csr.antt =====
-- internal/auth/enrollment_csr.go; encoding/pem, crypto/x509, net and the random numbers are the record Crypto.
use arx_mdm.Prelude.{
  ℕ, zero, suc, ◌<◌, ◌≡◌, ◌≢◌, Bool, false, ◌||◌, Option, none, some, List, [], ◌∷◌, Text, text_eq,
  bytes, if◌then◌else◌, trim_space, length, Option-cases, inl, inr, arith, ◌==◌,
}
use arx_mdm.Prelude.Result.{Result, err, ok}

pub data Curve : Type 0 where
  p256 p384 p521 other_curve : Curve

-- An RSA key with the bits of its modulus.
pub data PublicKey : Type 0 where
  ecdsa : Curve → PublicKey
  rsa : ℕ → PublicKey
  other_key : PublicKey

-- x509.CertificateRequest; an address is the text of net.IP.String.
pub record CertificateRequest : Type 0 where
  pub common_name : Text
  pub dns_names : List Text
  pub ip_addresses : List Text
  pub public_key : PublicKey

pub record Block : Type 0 where
  pub type : Text
  pub content : Text

pub data SignatureAlgorithm : Type 0 where
  ecdsa_sha256 ecdsa_sha384 ecdsa_sha512 sha256_rsa : SignatureAlgorithm

-- The template of a leaf certificate; `uri` is the id of the asset in the URI's name.
pub record Template : Type 0 where
  pub serial : ℕ
  pub common_name : Text
  pub not_before : ℕ
  pub not_after : ℕ
  pub subject_key_id : Text
  pub signature_algorithm : SignatureAlgorithm
  pub dns_names : List Text
  pub ip_addresses : List Text
  pub public_key : PublicKey
  pub uri : Option ℕ

-- pem.Decode, x509.ParseCertificateRequest, CheckSignature, net.ParseIP with String, AddDate(1, 0, 0), the
-- hash of a marshalled key, x509.CreateCertificate with the intermediate's key, and pem.Encode; none for an error.
pub record Crypto : Type 0 where
  pub pem_decode : Text → Option (Block × Text)
  pub parse_certificate_request : Text → Option CertificateRequest
  pub check_signature : CertificateRequest → Bool
  pub parse_ip : Text → Option Text
  pub next_year : ℕ → ℕ
  pub subject_key_id : PublicKey → Option Text
  pub create_certificate : Template → Option Text
  pub pem_encode : Text → Text
  pub sha256_hex : Text → Text

pub data PemError : Type 0 where
  no_block unsupported_type out_of_fuel : PemError

abbrev pub is_request_type : Text → Bool
is_request_type t =
    text_eq t (bytes "CERTIFICATE REQUEST") || text_eq t (bytes "NEW CERTIFICATE REQUEST")

-- The loop of ParseCertificateRequestPEM.
unfoldable pub first_block : ℕ → (Text → Option (Block × Text)) → Text → Result PemError Block
first_block zero decode data_left = err out_of_fuel
first_block (suc n) decode data_left = elim (decode data_left) [
  | none ↦ err no_block
  | some (block, rest) ↦
      let later = first_block n decode rest in
      if is_request_type block.type
      then ok block
      else if length rest == 0
      then err unsupported_type
      else later
]

-- ParseCertificateRequestPEM
unfoldable pub parse_certificate_request_pem : Crypto → Text → Option CertificateRequest
unfolding first_block
parse_certificate_request_pem k pem = elim (first_block (suc (length pem)) k.pem_decode pem) [
  | err _ ↦ none
  | ok block ↦ k.parse_certificate_request block.content
]

-- HostnameFromCSR
unfoldable pub hostname_from_csr : CertificateRequest → Text
hostname_from_csr cr = elim cr.dns_names [
  | [] ↦ trim_space cr.common_name
  | name ∷ _ ↦ trim_space name
]

-- ValidateCSRPEM
unfoldable pub validate_csr_pem : Crypto → Text → Bool
unfolding parse_certificate_request_pem
validate_csr_pem k pem = elim (parse_certificate_request_pem k pem) [
  | none ↦ false
  | some cr ↦ k.check_signature cr
]

-- Where every decoded block leaves less of the input, the loop ends within as many rounds as the input has
-- bytes, and one more.
pub first_block-fuel :
    (decode : Text → Option (Block × Text))
    → ((s rest : Text) (b : Block) → decode s ≡ some (b, rest) → length rest < length s)
    → (n : ℕ) (s : Text) → length s < n
    → first_block n decode s ≢ err out_of_fuel
unfolding first_block
first_block-fuel decode shrinks zero s lt h = omega arith
first_block-fuel decode shrinks (suc n) s lt h = elim (Option-cases (decode s)) [
  | inl e ↦ elim (let absurd : ⊥ = cc (rw (first_block, e) at h) in absurd) [ ]
  | inr ((b, rest), e) ↦
      step b rest e (first_block-fuel decode shrinks n rest (omega (arith, shrinks s rest b e, lt)))
]
  where
    step :
        (b : Block) (rest : Text)
        → decode s ≡ some (b, rest)
        → first_block n decode rest ≢ err out_of_fuel
        → ⊥
    step b rest e later = ground (arith, rw (first_block, e) at h)
