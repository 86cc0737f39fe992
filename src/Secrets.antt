-- ===== src/Secrets.antt =====
-- The Secrets of the platform (automation/src/txplatform/secrets.py), over a record of the calls
-- of the Kubernetes API. Values are texts, `entries` is a Secret's data; labels are left out.
pub mod Kept
mod Tests
use kubernetes_distributed_t.Common.{
  Bool, String, [], if◌then◌else◌, nat_eq, option_eq, some, string_eq, true, ◌&&◌, ◌==◌, ◌∷◌,
}
use kubernetes_distributed_t.Common.Dict.{Dict, lookup}
use kubernetes_distributed_t.Common.Exec.{Exec, Result, api_error, ok, pure, raised, ◌>>=◌, ◌>>◌}

pub record Secret : Type 0 where
  pub type : String
  pub entries : Dict String String

pub data Outcome : Type 0 where
  created updated unchanged : Outcome

-- A Secret's namespace and name.
abbrev pub Key : Type 0
Key = String × String

pub record CoreApi (S : Type 0) : Type 0 where
  pub read : Key → Exec S Secret
  pub create : Key → Secret → Exec S (Unit {0})
  pub replace : Key → Secret → Exec S (Unit {0})

-- `{key: factory() for key, factory in keys.items()}`; a factory draws from the state.
unfoldable pub generated : {S : Type 0} → Dict String (Exec S String) → Exec S (Dict String String)
generated [] = pure []
generated ((key, factory) ∷ rest) = do
  value ← factory
  others ← generated rest
  pure ((key, value) ∷ others)

-- Python's `==` on dictionaries, whose order does not count.
abbrev pub has_entries : (d entries : Dict String String) → Bool
has_entries d [] = true
has_entries d ((k, v) ∷ entries) = lookup k d == some v && has_entries d entries

abbrev pub same_data : (d d' : Dict String String) → Bool
same_data d d' = has_entries d d' && has_entries d' d

module _ {S : Type 0} (core : CoreApi S) where
  abbrev pub create_generated : Key → Dict String (Exec S String) → Exec S Outcome
  create_generated key factories = do
    values ← generated factories
    core.create key (record { type = "Opaque"; entries = values })
    pure created

  -- What follows the read of a Secret that may be missing.
  abbrev pub unless_missing :
      Result Secret × S
      → (found : Secret → Exec S Outcome) (missing : Exec S Outcome) → Result Outcome × S
  unless_missing (ok secret, s) found missing = found secret s
  unless_missing (raised (api_error status), s) found missing =
      if status == 404 then missing s else (raised (api_error status), s)
  unless_missing (raised e, s) found missing = (raised e, s)

  unfoldable pub ensure_generated_secret : Key → Dict String (Exec S String) → Exec S Outcome
  unfolding generated
  ensure_generated_secret key factories s =
      unless_missing (core.read key s) (λ secret. pure unchanged) (create_generated key factories)

  -- `b64` is the text of bytes in base 64.
  abbrev pub tls_data : (b64 : String → String) (cert_pem key_pem : String) → Dict String String
  tls_data b64 cert_pem key_pem = ("tls.crt", b64 cert_pem) ∷ ("tls.key", b64 key_pem) ∷ []

  abbrev pub create_tls : Key → Dict String String → Exec S Outcome
  create_tls key wanted =
      core.create key (record { type = "kubernetes.io/tls"; entries = wanted }) >> pure created

  abbrev pub update_tls : Key → Dict String String → Secret → Exec S Outcome
  update_tls key wanted existing =
      if same_data existing.entries wanted
      then pure unchanged
      else (core.replace key (record { type = "kubernetes.io/tls"; entries = wanted })
          >> pure updated)

  unfoldable pub apply_tls_secret :
      (b64 : String → String) → Key → (cert_pem key_pem : String) → Exec S Outcome
  apply_tls_secret b64 key cert_pem key_pem s =
      let wanted = tls_data b64 cert_pem key_pem in
      unless_missing (core.read key s) (update_tls key wanted) (create_tls key wanted)
