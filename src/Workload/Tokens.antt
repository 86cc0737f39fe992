-- ===== src/Workload/Tokens.antt =====
-- What tampering does to a token.
use kubernetes_distributed_t.Workload.{dot, replaced, tamper, unsnoc}
use kubernetes_distributed_t.Common.{
  List, [], arith, contains, false, nat_eq, option_eq, refl, some, string_eq, ℕ, ◌++◌, ◌∷◌, ◌≡◌,
  ◌≢◌,
}
use kubernetes_distributed_t.Common.Exec.{ok}
use kubernetes_distributed_t.Common.Texts.{rpartition-append}

unsnoc-snoc : (body : List ℕ) (c : ℕ) → unsnoc (body ++ c ∷ []) ≡ some (body, c)
unfolding unsnoc
unsnoc-snoc [] c = refl
unsnoc-snoc (b ∷ []) c = refl
unsnoc-snoc (b ∷ d ∷ body) c = rw (unsnoc-snoc (d ∷ body) c) refl

replaced_other : (c : ℕ) → replaced c ≢ c
replaced_other c = ground arith

-- Tampering replaces the last character of a signature that is not empty by another one, and
-- leaves the rest of the token as it is; what follows the last dot is the signature.
pub tamper_lem :
    (head body : List ℕ) (c : ℕ)
    → contains (body ++ c ∷ []) dot ≡ false
    → (d : ℕ) × (d ≢ c)
      × (tamper (head ++ dot ∷ (body ++ c ∷ [])) ≡ ok (head ++ dot ∷ (body ++ d ∷ [])))
unfolding tamper
tamper_lem head body c h = (
  replaced c,
  replaced_other c,
  rw (rpartition-append dot head (body ++ c ∷ []) h, unsnoc-snoc body c) refl,
)
