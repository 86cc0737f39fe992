-- ===== src/Secrets/Kept.antt =====
-- What becomes of a Secret that is there.
-- What the API promises of the Secrets in it, `secret`: reading changes none, and answers 404 only
-- where there is none; creating one leaves the others.
use kubernetes_distributed_t.Secrets.{
  CoreApi, Key, Secret, create_generated, generated, ensure_generated_secret, unless_missing,
  created, unchanged, Outcome,
}
use kubernetes_distributed_t.Common.{
  nat_beq_iff, if_holds, ◌==◌, none, some, All, All, Option, String, [], nat_eq, none, option_eq,
  refl, string_eq, ◌∷◌, ◌≡◌, ◌≢◌, ◌∙◌,
}
use kubernetes_distributed_t.Common.Dict.{Dict}
use kubernetes_distributed_t.Common.Exec.{
  Exec, api_error, raised, Keeps, Result, pure-Keeps, bind-Keeps, pure, ok,
}

pub record IsStore {S : Type 0} (core : CoreApi S) (secret : S → Key → Option Secret) : Type 0 where
  pub read_keeps : (key k : Key) (s : S) → secret (core.read key s).1 k ≡ secret s k
  pub read_missing :
      (key : Key) (s : S) → (core.read key s).0 ≡ raised (api_error 404) → secret s key ≡ none
  pub create_keeps :
      (key : Key) (new : Secret) (k : Key) (s : S)
      → k ≢ key
      → secret (core.create key new s).1 k ≡ secret s k

module _ {S : Type 0} (core : CoreApi S) (secret : S → Key → Option Secret)
    (store : IsStore core secret) (k : Key) (old : Secret) where
  -- A Secret of this name and content is there.
  abbrev pub IsThere : S → Type 0
  IsThere s = secret s k ≡ some old

  generated-Keeps :
      (factories : Dict String (Exec S String))
      → All (λ (entry : String × Exec S String). Keeps IsThere entry.1) factories
      → Keeps IsThere (generated factories)
  unfolding generated
  generated-Keeps [] h = pure-Keeps []
  generated-Keeps ((name, factory) ∷ factories) (here, there) = bind-Keeps factory _ here (λ value.
      bind-Keeps (generated factories) _ (generated-Keeps factories there)
        (λ others. pure-Keeps ((name, value) ∷ others)))

  create_generated-Keeps :
      (key : Key) (factories : Dict String (Exec S String))
      → All (λ (entry : String × Exec S String). Keeps IsThere entry.1) factories
      → k ≢ key
      → Keeps IsThere (create_generated core key factories)
  create_generated-Keeps key factories draws other =
      bind-Keeps (generated factories) _ (generated-Keeps factories draws) (λ values.
        bind-Keeps (core.create key (record { type = "Opaque"; entries = values })) _
          (record {
            at = λ s there.
                store.create_keeps key (record { type = "Opaque"; entries = values }) k s other
                ∙ there;
          })
          (λ _. pure-Keeps created))

  missing-IsThere :
      (key : Key) (factories : Dict String (Exec S String)) (q : Result Secret × S)
      → All (λ (entry : String × Exec S String). Keeps IsThere entry.1) factories
      → IsThere q.1
      → (q.0 ≡ raised (api_error 404) → k ≢ key)
      → IsThere
          (unless_missing core q (λ secret. pure unchanged) (create_generated core key factories)).1
  missing-IsThere key factories (ok found, s) draws there other = there
  missing-IsThere key factories (raised (api_error status), s) draws there other =
      if_holds (λ (x : Result Outcome × S). IsThere x.1) (status == 404)
        (create_generated core key factories s) (raised (api_error status), s)
        (λ missing.
          (create_generated-Keeps key factories draws
              (other (rw ((nat_beq_iff status 404).0 missing) refl))).at
            s there)
        (λ else_. there)
  missing-IsThere key factories (raised e, s) draws there other = there

  -- A Secret that is there stays as it is, its values included, whatever Secret is ensured, and
  -- whether that returns or raises, if drawing values leaves it alone.
  pub ensure_generated_secret-IsThere :
      (key : Key) (factories : Dict String (Exec S String)) (s : S)
      → All (λ (entry : String × Exec S String). Keeps IsThere entry.1) factories
      → IsThere s
      → IsThere (ensure_generated_secret core key factories s).1
  unfolding ensure_generated_secret
  ensure_generated_secret-IsThere key factories s draws there =
      missing-IsThere key factories (core.read key s) draws (store.read_keeps key k s ∙ there)
        (λ missing same.
          let gone : secret s k ≡ none = rw same (store.read_missing key s missing) in cc)
