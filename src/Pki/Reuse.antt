-- ===== src/Pki/Reuse.antt =====
-- When certificates are kept.
use kubernetes_distributed_t.Common.{
  refl, sym, Bool, Option, nat_eq, option_eq, some, string_eq, true, ℕ, ◌+◌, ◌↔◌, ◌≡◌, ◌≤◌, arith,
  none, false, Bool-cases, inl, inr, ap, ◌∙◌,
}
use kubernetes_distributed_t.Pki.{
  Certificate, CertificateFacts, authority, decide, renew_before, required_dns_names,
  required_ip_addresses, reuse, subset, facts_of, server, ensure, ca_certificate, facts_with_key,
  PkiFiles, is_reuse, leaf_certificate, with_authority,
}

-- A certificate that is there is kept exactly if it ends no sooner than two weeks from now, was issued
-- by the present authority, and has the required names where names are checked.
pub decide_iff :
    (facts : CertificateFacts) (now : ℕ) (check_names : Bool)
    → (decide (some facts) now check_names ≡ reuse) ↔ (
        (now + renew_before ≤ facts.not_after)
        × (facts.issued_by_current_ca ≡ true)
        × (check_names ≡ true
            → (subset required_dns_names facts.dns_names ≡ true)
              × (subset required_ip_addresses facts.ip_addresses ≡ true)))
unfolding decide
decide_iff facts now check_names = ground arith

-- The authority's key file holds the key of its certificate.
abbrev pub KeysMatch : Option Certificate → Option ℕ → Type 0
KeysMatch (some certificate) (some key) = certificate.key ≡ key
KeysMatch _ _ = Unit {0}

module _ (verifies : (certificate ca : Certificate) → Bool)
    (signed : (certificate ca : Certificate)
      → certificate.signed_by ≡ ca.key
      → verifies certificate ca ≡ true) where
  new_kept :
      (new_key now : ℕ)
      → decide (some (facts_of verifies (ca_certificate new_key now) none)) now false ≡ reuse
  new_kept new_key now =
      (decide_iff (facts_of verifies (ca_certificate new_key now) none) now false).1
        (omega arith, refl, λ e. cc)

  authority_key :
      (new_key now : ℕ) (certificate : Option Certificate) (key : Option ℕ)
      → KeysMatch certificate key
      → (authority verifies new_key now certificate key).1.0.key
        ≡ (authority verifies new_key now certificate key).1.1
  authority_key new_key now none key m = refl
  authority_key new_key now (some certificate) none m = refl
  authority_key new_key now (some certificate) (some key) m = ground arith

  authority_again :
      (new_key now key : ℕ) (ca : Certificate)
      → decide (some (facts_of verifies ca none)) now false ≡ reuse
      → authority verifies new_key now (some ca) (some key) ≡ (reuse, (ca, key))
  authority_again new_key now key ca h = rw h

  leaf_kept :
      (new_key now : ℕ) (ca : Certificate) (ca_key : ℕ) (certificate : Option Certificate)
      (key : Option ℕ)
      → ca.key ≡ ca_key
      → let kept =
          server verifies new_key now ca_key
            (decide (facts_with_key verifies certificate key (some ca)) now true)
            certificate
            key in
        decide (facts_with_key verifies kept.0 kept.1 (some ca)) now true ≡ reuse
  leaf_kept new_key now ca ca_key certificate key e =
      elim (Bool-cases
        (is_reuse (decide (facts_with_key verifies certificate key (some ca)) now true))) [
          | inl kept ↦ rw kept (ground arith)
          | inr gone ↦ rw gone (
              (decide_iff (facts_of verifies (leaf_certificate new_key ca_key now) (some ca)) now
                  true).1
                (
                  omega arith,
                  signed (leaf_certificate new_key ca_key now) ca (sym e),
                  λ p. (refl, refl),
                ))
        ]

  -- What the first half hands on is worth keeping, with a key that signs for it.
  authority_kept :
      (new_key now : ℕ) (certificate : Option Certificate) (key : Option ℕ)
      → decide
          (some (facts_of verifies (authority verifies new_key now certificate key).1.0 none))
          now
          false
        ≡ reuse
  authority_kept new_key now none key = new_kept new_key now
  authority_kept new_key now (some certificate) none = new_kept new_key now
  authority_kept new_key now (some certificate) (some key) =
      elim (Bool-cases (is_reuse (decide (some (facts_of verifies certificate none)) now false))) [
        | inl kept ↦ rw kept (ground arith)
        | inr gone ↦ rw gone (new_kept new_key now)
      ]

  leaf_again :
      (new_key now : ℕ) (ca : Certificate) (ca_key : ℕ) (certificate : Option Certificate)
      (key : Option ℕ)
      → decide (facts_with_key verifies certificate key (some ca)) now true ≡ reuse
      → with_authority verifies new_key now certificate key (reuse, (ca, ca_key)) ≡ record {
        files = record {
          ca_cert = some ca;
          ca_key = some ca_key;
          tls_cert = certificate;
          tls_key = key;
        };
        ca_action = reuse;
        leaf_action = reuse;
      }
  leaf_again new_key now ca ca_key certificate key h = rw h

  -- A second call at once finds nothing to do: whatever the files were, if the authority's key file
  -- held its key, it keeps both certificates and leaves the files as they are.
  pub ensure_again :
      (ca_new_key leaf_new_key ca_other_key leaf_other_key now : ℕ) (files : PkiFiles)
      → KeysMatch files.ca_cert files.ca_key
      → ensure verifies ca_other_key leaf_other_key now
          (ensure verifies ca_new_key leaf_new_key now files).files
        ≡ record {
          files = (ensure verifies ca_new_key leaf_new_key now files).files;
          ca_action = reuse;
          leaf_action = reuse;
        }
  unfolding ensure
  ensure_again ca_new_key leaf_new_key ca_other_key leaf_other_key now files m =
      let after = (ensure verifies ca_new_key leaf_new_key now files).files in
      let first = authority verifies ca_new_key now files.ca_cert files.ca_key in
      let kept = authority_kept ca_new_key now files.ca_cert files.ca_key in
      let leaf =
        leaf_kept leaf_new_key now first.1.0 first.1.1 files.tls_cert files.tls_key
          (authority_key ca_new_key now files.ca_cert files.ca_key m) in
      ap (λ a. with_authority verifies leaf_other_key now after.tls_cert after.tls_key a)
        (authority_again ca_other_key now first.1.1 first.1.0 kept)
      ∙ leaf_again leaf_other_key now first.1.0 first.1.1 after.tls_cert after.tls_key leaf
