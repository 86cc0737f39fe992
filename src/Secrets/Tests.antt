-- ===== src/Secrets/Tests.antt =====
-- Secrets in memory, one of which is there.
use kubernetes_distributed_t.Secrets.Kept.{IsStore, IsThere, ensure_generated_secret-IsThere}
use kubernetes_distributed_t.Secrets.{CoreApi, Key, Secret, ensure_generated_secret}
use kubernetes_distributed_t.Common.{
  Bool, Option, String, [], arith, eq_iff, if◌then◌else◌, nat_eq, none, option_eq, refl, some,
  string_eq, ◌&&◌, ◌==◌, ◌∷◌, ◌≡◌, ◌≢◌,
}
use kubernetes_distributed_t.Common.Dict.{Dict}
use kubernetes_distributed_t.Common.Exec.{Exec, Result, api_error, ok, raised}

abbrev Stored : Type 0
Stored = Key → Option Secret

abbrev answer_of : Option Secret → Result Secret
answer_of none = raised (api_error 404)
answer_of (some secret) = ok secret

abbrev same_key : Key → Key → Bool
same_key a b = a.0 == b.0 && a.1 == b.1

abbrev put : Key → Secret → Stored → Stored
put key new s k = if same_key k key then some new else s k

abbrev in_memory : CoreApi Stored
in_memory = record {
  read = λ key s. (answer_of (s key), s);
  create = λ key new s. (ok tt, put key new s);
  replace = λ key new s. (ok tt, put key new s);
}

answer_missing : (o : Option Secret) → answer_of o ≡ raised (api_error 404) → o ≡ none
answer_missing none h = refl
answer_missing (some secret) h = absurd (cc)

put_other : (key : Key) (new : Secret) (k : Key) (s : Stored) → k ≢ key → put key new s k ≡ s k
put_other key new k s other = ground (arith, eq_iff k.0 key.0, eq_iff k.1 key.1)

in_memory-IsStore : IsStore in_memory (λ s k. s k)
in_memory-IsStore = record {
  read_keeps = λ key k s. refl;
  read_missing = λ key s h. answer_missing (s key) h;
  create_keeps = λ key new k s other. put_other key new k s other;
}

abbrev old_secret : Secret
old_secret = record { type = "Opaque"; entries = ("password", "abc") ∷ [] }

abbrev start : Stored
start k = if same_key k ("shop", "admin") then some old_secret else none

abbrev drawn : Dict String (Exec Stored String)
drawn = ("password", λ s. (ok "xyz", s)) ∷ []

ensure_generated_secret-IsThere_example :
    IsThere in_memory
      (λ s k. s k)
      in_memory-IsStore
      ("shop", "admin")
      old_secret
      (ensure_generated_secret in_memory ("shop", "admin") drawn start).1
ensure_generated_secret-IsThere_example =
    ensure_generated_secret-IsThere in_memory (λ s k. s k) in_memory-IsStore ("shop", "admin")
      old_secret ("shop", "admin") drawn start (record { at = λ s there. there }, tt) refl
