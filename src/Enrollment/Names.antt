-- ===== src/Enrollment/Names.antt =====
-- The names in a certificate, and the keys that get none.
use arx_mdm.Prelude.{
  ℕ, ◌≤◌, ◌≡◌, ◌≢◌, refl, sym, subst, ◌∙◌, ◌↔◌, ◌⊎◌, inl, inr, Bool, true, not, none, some, List,
  [], ◌∷◌, map, Text, text_eq, text_eq_iff, Any, In, Any-map, Any-witness, In-Any, keep, keep-In,
  Bool-cases, Option-cases, arith, trim_space,
}
use arx_mdm.Prelude.Sort.{distinct-In, distinct-IsDistinct, IsDistinct}
use arx_mdm.Prelude.Trim.{trim_space_idem}
use arx_mdm.Enrollment.Csr.{rsa, CertificateRequest, sha256_rsa, Template, Crypto}
use arx_mdm.Enrollment.Certificate.{
  Authority, Moment, host_is_dns, validate_csr_public_key, signature_algorithm_for_pub,
  unique_trimmed, subject_names, leaf_template, prepare, issue_client_certificate,
}

abbrev pub nonblank : Text → Bool
nonblank s = not (text_eq s [])

unique_trimmed-In :
    (x : Text) (names : List Text)
    → In x (unique_trimmed names) ↔ (Any (λ n. trim_space n ≡ x) names × (nonblank x ≡ true))
unfolding unique_trimmed
unique_trimmed-In x names = ground (
  arith,
  distinct-In text_eq text_eq_iff x (keep nonblank (map trim_space names)),
  keep-In nonblank x (map trim_space names),
  Any-map (λ s. s ≡ x) trim_space names,
)

unique_trimmed-IsDistinct : (names : List Text) → IsDistinct (unique_trimmed names)
unfolding unique_trimmed
unique_trimmed-IsDistinct names =
    distinct-IsDistinct text_eq text_eq_iff (keep nonblank (map trim_space names))

-- Trimmed names stay as they are.
retrimmed :
    (x : Text) (names : List Text)
    → Any (λ n. trim_space n ≡ x) (unique_trimmed names)
    → Any (λ n. trim_space n ≡ x) names
retrimmed x names h =
    let (n, i, e) = Any-witness (λ n. trim_space n ≡ x) (unique_trimmed names) h in
    let (m, j, f) = Any-witness (λ m. trim_space m ≡ n) names ((unique_trimmed-In n names).0 i).0 in
    In-Any (λ m. trim_space m ≡ x) m names j (f ∙ sym (trimmed n m f) ∙ e)
  where
    trimmed : (n m : Text) → trim_space m ≡ n → trim_space n ≡ n
    trimmed n m f = subst (λ y. trim_space y ≡ y) f (trim_space_idem m)

trimmed_again :
    (x : Text) (names : List Text)
    → In x (unique_trimmed names)
    → Any (λ n. trim_space n ≡ x) (unique_trimmed names)
trimmed_again x names h =
    let (m, j, f) = Any-witness (λ m. trim_space m ≡ x) names ((unique_trimmed-In x names).0 h).0 in
    In-Any (λ n. trim_space n ≡ x) x (unique_trimmed names) h
      (subst (λ y. trim_space y ≡ y) f (trim_space_idem m))

-- For a host name without outer white space: the certificate's names are the host name, unless that is
-- an address, and the request's names without white space around them, each of them once.
pub subject_names-In :
    (k : Crypto) (hostname : Text) (names : List Text)
    → trim_space hostname ≡ hostname
    → IsDistinct (subject_names k hostname names)
      × ((x : Text)
          → In x (subject_names k hostname names) ↔ (
              ((host_is_dns k hostname ≡ true) × (hostname ≡ x))
              ⊎ (Any (λ n. trim_space n ≡ x) names × (nonblank x ≡ true))))
unfolding subject_names host_is_dns
subject_names-In k hostname names h = elim (Bool-cases (host_is_dns k hostname)) [
  | inl e ↦ rw e (
    unique_trimmed-IsDistinct (hostname ∷ unique_trimmed names),
    λ x. (
      (λ i.
          let (a, b) = split x i in
          elim a [ inl f ↦ inl (refl, sym h ∙ f) | inr f ↦ inr (retrimmed x names f, b) ]),
      (λ d. elim d [
        | inl (_, f) ↦
            (unique_trimmed-In x (hostname ∷ unique_trimmed names)).1
              (inl (h ∙ f), subst (λ y. nonblank y ≡ true) f (named e))
        | inr (f, b) ↦
            (unique_trimmed-In x (hostname ∷ unique_trimmed names)).1
              (inr (trimmed_again x names ((unique_trimmed-In x names).1 (f, b))), b)
      ]),
    ),
  )
  | inr e ↦ rw e (unique_trimmed-IsDistinct names, λ x. ground (arith, unique_trimmed-In x names))
]
  where
    split :
        (x : Text)
        → In x (unique_trimmed (hostname ∷ unique_trimmed names))
        → Any (λ n. trim_space n ≡ x) (hostname ∷ unique_trimmed names) × (nonblank x ≡ true)
    split x i = (unique_trimmed-In x (hostname ∷ unique_trimmed names)).0 i

    named : host_is_dns k hostname ≡ true → nonblank hostname ≡ true
    named e = ground (arith, host_is_dns)

prepare-rsa :
    (k : Crypto) (m : Moment) (asset_id : ℕ) (hostname : Text) (csr : CertificateRequest) (bits : ℕ)
    (t : Template)
    → csr.public_key ≡ rsa bits
    → prepare k m asset_id hostname csr ≡ some t
    → t.signature_algorithm ≡ sha256_rsa
unfolding prepare signature_algorithm_for_pub leaf_template
prepare-rsa k m asset_id hostname csr bits t e h = grind arith

-- Where the library refuses to sign with the algorithm of another kind of key than the signer's, which is an
-- elliptic one, a request with an RSA key of at least 2048 bits passes the check of its key and gets no certificate.
pub issue_client_certificate-rsa :
    (k : Crypto) (a : Authority) (m : Moment) (asset_id : ℕ) (hostname : Text)
    (csr : CertificateRequest) (bits : ℕ)
    → ((t : Template) (der : Text)
        → k.create_certificate t ≡ some der
        → t.signature_algorithm ≢ sha256_rsa)
    → csr.public_key ≡ rsa bits
    → 2048 ≤ bits
    → (validate_csr_public_key csr.public_key ≡ true)
      × (issue_client_certificate k a m asset_id hostname csr ≡ none)
unfolding validate_csr_public_key issue_client_certificate
issue_client_certificate-rsa k a m asset_id hostname csr bits elliptic e big = (
  rw e (ground arith),
  elim (Option-cases (prepare k m asset_id (trim_space hostname) csr)) [
    | inl f ↦ rw (issue_client_certificate, f) refl
    | inr (t, f) ↦ elim (Option-cases (k.create_certificate t)) [
      | inl g ↦ rw (issue_client_certificate, f, g) refl
      | inr (der, g) ↦
          elim (let absurd : ⊥ =
              elliptic t der g (prepare-rsa k m asset_id (trim_space hostname) csr bits t e f) in
            absurd) [ ]
    ]
  ],
)
