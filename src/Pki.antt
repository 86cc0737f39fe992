-- ===== src/Pki.antt =====
-- The local certificate authority and the server certificate (automation/src/txplatform/pki.py).
-- Times are seconds. A key is its number, and keys are drawn by the caller; whether a certificate
-- verifies against another one is the cryptography library's, the parameter `verifies`.
pub mod Reuse
mod Tests
use kubernetes_distributed_t.Common.{
  Bool, List, Option, String, [], all, contains, false, if◌then◌else◌, ltb, nat_eq, none, not,
  option_eq, some, string_eq, true, ℕ, ◌&&◌, ◌*◌, ◌+◌, ◌||◌, ◌∷◌,
}

abbrev pub days : ℕ → ℕ
days n = n * 86_400

abbrev pub ca_validity : ℕ
ca_validity = days 365

abbrev pub leaf_validity : ℕ
leaf_validity = days 90

abbrev pub renew_before : ℕ
renew_before = days 14

abbrev pub required_dns_names : List String
required_dns_names = "localhost" ∷ []

abbrev pub required_ip_addresses : List String
required_ip_addresses = "127.0.0.1" ∷ []

pub data Action : Type 0 where
  reuse create renew : Action

abbrev pub is_reuse : Action → Bool
is_reuse reuse = true
is_reuse _ = false

pub record CertificateFacts : Type 0 where
  pub not_after : ℕ
  pub dns_names : List String
  pub ip_addresses : List String
  pub issued_by_current_ca : Bool

abbrev pub subset : List String → List String → Bool
subset xs ys = all (contains ys) xs

abbrev pub decide_from : CertificateFacts → (now : ℕ) → (check_names : Bool) → Action
decide_from facts now check_names =
    if ltb facts.not_after (now + renew_before)
    then renew
    else if not facts.issued_by_current_ca
    then renew
    else if check_names
        && (not (subset required_dns_names facts.dns_names)
            || not (subset required_ip_addresses facts.ip_addresses))
    then renew
    else reuse

unfoldable pub decide : Option CertificateFacts → (now : ℕ) → (check_names : Bool) → Action
decide none now check_names = create
decide (some facts) now check_names = decide_from facts now check_names

-- What is kept of a certificate: when it ends, its names, its key and the key that signed it.
pub record Certificate : Type 0 where
  pub not_after : ℕ
  pub dns_names : List String
  pub ip_addresses : List String
  pub key : ℕ
  pub signed_by : ℕ

pub record PkiFiles : Type 0 where
  pub ca_cert : Option Certificate
  pub ca_key : Option ℕ
  pub tls_cert : Option Certificate
  pub tls_key : Option ℕ

pub record PkiResult : Type 0 where
  pub files : PkiFiles
  pub ca_action : Action
  pub leaf_action : Action

-- The certificate that `_create_ca` writes.
abbrev pub ca_certificate : (key now : ℕ) → Certificate
ca_certificate key now = record {
  not_after = now + ca_validity;
  dns_names = [];
  ip_addresses = [];
  key = key;
  signed_by = key;
}

-- The certificate that `_create_leaf` writes.
abbrev pub leaf_certificate : (key ca_key now : ℕ) → Certificate
leaf_certificate key ca_key now = record {
  not_after = now + leaf_validity;
  dns_names = required_dns_names;
  ip_addresses = required_ip_addresses;
  key = key;
  signed_by = ca_key;
}

module _ (verifies : (certificate ca : Certificate) → Bool) where
  abbrev pub issued : Certificate → Option Certificate → Bool
  issued certificate none = true
  issued certificate (some ca) = verifies certificate ca

  -- `_facts`
  abbrev pub facts_of : Certificate → Option Certificate → CertificateFacts
  facts_of certificate ca = record {
    not_after = certificate.not_after;
    dns_names = certificate.dns_names;
    ip_addresses = certificate.ip_addresses;
    issued_by_current_ca = issued certificate ca;
  }

  -- The facts of a certificate whose key file is there too.
  abbrev pub facts_with_key :
      Option Certificate → Option ℕ → Option Certificate → Option CertificateFacts
  facts_with_key (some certificate) (some key) ca = some (facts_of certificate ca)
  facts_with_key _ _ ca = none

  -- The first half of `ensure`: the authority to use, and what was done for it.
  abbrev pub authority :
      (new_key now : ℕ) → Option Certificate → Option ℕ → Action × (Certificate × ℕ)
  authority new_key now (some certificate) (some key) =
      let action = decide (some (facts_of certificate none)) now false in
      (
        action,
        if is_reuse action then (certificate, key) else (ca_certificate new_key now, new_key),
      )
  authority new_key now _ _ = (create, (ca_certificate new_key now, new_key))

  -- The second half: the files of the server certificate.
  abbrev pub server :
      (new_key now ca_key : ℕ)
      → Action
      → Option Certificate
      → Option ℕ
      → Option Certificate × Option ℕ
  server new_key now ca_key action certificate key =
      if is_reuse action
      then (certificate, key)
      else (some (leaf_certificate new_key ca_key now), some new_key)

  -- The files and the result, with the authority to use.
  abbrev pub with_authority :
      (leaf_new_key now : ℕ)
      → (tls_cert : Option Certificate) → (tls_key : Option ℕ) → Action × (Certificate × ℕ)
      → PkiResult
  with_authority leaf_new_key now old_cert old_key (ca_action, (ca, ca_key)) =
      let leaf_action = decide (facts_with_key old_cert old_key (some ca)) now true in
      let (tls_cert, tls_key) = server leaf_new_key now ca_key leaf_action old_cert old_key in
      record {
        files = record {
          ca_cert = some ca;
          ca_key = some ca_key;
          tls_cert = tls_cert;
          tls_key = tls_key;
        };
        ca_action = ca_action;
        leaf_action = leaf_action;
      }

  unfoldable pub ensure : (ca_new_key leaf_new_key now : ℕ) → PkiFiles → PkiResult
  unfolding decide
  ensure ca_new_key leaf_new_key now files =
      with_authority leaf_new_key now files.tls_cert files.tls_key
        (authority ca_new_key now files.ca_cert files.ca_key)
