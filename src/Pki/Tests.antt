-- ===== src/Pki/Tests.antt =====
-- A workstation with an authority and a server certificate that ends too soon.
use kubernetes_distributed_t.Common.{
  Bool, arith, nat_eq, option_eq, refl, some, string_eq, true, ◌+◌, ◌==◌, ◌↔◌, ◌≡◌, ◌≤◌,
}
use kubernetes_distributed_t.Pki.{
  Certificate, CertificateFacts, PkiFiles, ca_certificate, days, decide, ensure, facts_of,
  leaf_certificate, renew, renew_before, required_dns_names, required_ip_addresses, reuse, subset,
}
use kubernetes_distributed_t.Pki.Reuse.{decide_iff, ensure_again}

abbrev by_key : (certificate ca : Certificate) → Bool
by_key certificate ca = certificate.signed_by == ca.key

abbrev ending : PkiFiles
ending = record {
  ca_cert = some (ca_certificate 7 0);
  ca_key = some 7;
  tls_cert = some (leaf_certificate 8 7 0);
  tls_key = some 8;
}

leaf_renewed : (ensure by_key 1 2 (days 80) ending).leaf_action ≡ renew
unfolding ensure decide
leaf_renewed = refl

abbrev leaf_facts : CertificateFacts
leaf_facts = facts_of by_key (leaf_certificate 8 7 0) (some (ca_certificate 7 0))

decide_iff_example : (decide (some leaf_facts) (days 70) true ≡ reuse) ↔ (
    (days 70 + renew_before ≤ days 90)
    × (true ≡ true)
    × (true ≡ true
        → (subset required_dns_names required_dns_names ≡ true)
          × (subset required_ip_addresses required_ip_addresses ≡ true)))
decide_iff_example = decide_iff leaf_facts (days 70) true

ensure_again_example :
    ensure by_key 3 4 (days 80) (ensure by_key 1 2 (days 80) ending).files ≡ record {
      files = (ensure by_key 1 2 (days 80) ending).files;
      ca_action = reuse;
      leaf_action = reuse;
    }
ensure_again_example =
    ensure_again by_key (λ certificate ca e. ground (arith)) 1 2 3 4 (days 80) ending refl
