-- ===== src/Contracts/Logic.antt =====
-- What a contract that finds nothing wrong shows.
use kubernetes_distributed_t.Contracts.{
  Context, Contract, Finding, State, ask, check, checked, extend, note, noted,
}
use kubernetes_distributed_t.Common.{
  All, List, String, [], append_nil_iff, arith, nat_eq, option_eq, string_eq, subst, ◌↔◌, ◌∷◌, ◌≡◌,
  map, Bool, map_nil_iff, true, false,
}
use kubernetes_distributed_t.Common.Dict.{Dict}
use kubernetes_distributed_t.Common.Exec.{
  Error, Exec, bind-eq-ok, ok, pure, raise, ◌>>=◌, for_each, ◌>>◌, when,
}

-- No name has a finding.
abbrev pub Clean : Dict String (List (String × Finding)) → Type 0
Clean problems = All (λ (entry : String × List (String × Finding)). entry.1 ≡ []) problems

extend-All :
    (name : String) (found : List (String × Finding))
    (problems : Dict String (List (String × Finding)))
    → Clean (extend name found problems) ↔ (Clean problems × (found ≡ []))
extend-All name found [] = ground arith
extend-All name found ((k, old) ∷ problems) =
    ground (arith, extend-All name found problems, append_nil_iff old found)

-- Adding findings leaves nothing wrong exactly if nothing was and nothing is added.
pub checked-Clean :
    (name : String) (found : List Finding) (subject : String) (c : Context)
    → Clean (checked name found subject c).problems ↔ (Clean c.problems × (found ≡ []))
unfolding checked
checked-Clean name found subject c =
    let parts = extend-All name (map (λ (p : Finding). (subject, p)) found) c.problems in
    let mapped = map_nil_iff (λ (p : Finding). (subject, p)) found in
    (λ h. ((parts.0 h).0, mapped.0 (parts.0 h).1), λ h. parts.1 (h.0, mapped.1 h.1))

-- If the statement returns and nothing is wrong after it, nothing was wrong before it, and its
-- result is as `P` says.
pub record Shows {S A : Type 0} (P : A → Type 0) (m : Contract S A) : Type 0 where
  pub at :
      (w : State S) (a : A)
      → (m w).0 ≡ ok a
      → Clean (m w).1.context.problems
      → Clean w.context.problems × P a

module _ {S A : Type 0} where
  pub pure-Shows : (a : A) (P : A → Type 0) → P a → Shows P (pure {S = State S} a)
  pure-Shows a P p = record { at = λ w x e clean. (clean, subst P (cc) p) }

  pub raise-Shows : (P : A → Type 0) (e : Error) → Shows P (raise {S = State S} e)
  raise-Shows P e = record { at = λ w x h clean. absurd (cc) }

  -- A call of the environment leaves the findings as they are, and shows what its results do.
  pub ask-Shows_with :
      {P : A → Type 0} (m : Exec S A) → ((s : S) (a : A) → (m s).0 ≡ ok a → P a) → Shows P (ask m)
  ask-Shows_with m h = record { at = λ w x e clean. (clean, h w.outside x e) }

  -- The same, of any result.
  pub ask-Shows : (m : Exec S A) → Shows (λ _. Unit {0}) (ask m)
  ask-Shows m = record { at = λ w x e clean. (clean, tt) }

pub check-Shows :
    {S : Type 0} (name : String) (found : List Finding) (subject : String)
    → Shows {S = S} (λ _. found ≡ []) (check name found subject)
check-Shows name found subject = record {
  at = λ w x e clean. (checked-Clean name found subject w.context).0 clean;
}

pub note-Shows :
    {S : Type 0} (name subject : String) → Shows {S = S} (λ _. Unit {0}) (note name subject)
unfolding noted
note-Shows name subject = record { at = λ w x e clean. (clean, tt) }

-- What follows may use what a result shows.
pub bind-Shows :
    {S A B : Type 0} {P : A → Type 0} {Q : B → Type 0} (m : Contract S A) (f : A → Contract S B)
    → Shows P m
    → ((a : A) → Shows (λ b. P a → Q b) (f a))
    → Shows Q (m >>= f)
bind-Shows m f hm hf = record {
  at = λ w y e clean.
      let (a, ran, went, left) = bind-eq-ok m f w e in
      let (between, q) =
        (hf a).at (m w).1 y went (subst (λ s. Clean s.context.problems) left clean) in
      let (before, p) = hm.at w a ran between in (before, q p);
}

-- Two statements in a row show what both do.
pub then-Shows :
    {S : Type 0} {P Q : Type 0} (m n : Contract S (Unit {0}))
    → Shows (λ _. P) m
    → Shows (λ _. Q) n
    → Shows (λ _. P × Q) (m >> n)
then-Shows {P = P} {Q = Q} m n hm hn =
    bind-Shows {P = λ _. P} {Q = λ _. P × Q} m (λ _. n) hm
      (λ a. record {
        at = λ w y e clean. let (before, q) = hn.at w y e clean in (before, λ p. (p, q));
      })

pub weaken-Shows :
    {S A : Type 0} {P Q : A → Type 0} (m : Contract S A)
    → ((a : A) → P a → Q a)
    → Shows P m
    → Shows Q m
weaken-Shows m f hm = record {
  at = λ w a e clean. let (before, p) = hm.at w a e clean in (before, f a p);
}

pub for_each-Shows :
    {S A : Type 0} {P : A → Type 0} (xs : List A) (body : A → Contract S (Unit {0}))
    → ((x : A) → Shows (λ _. P x) (body x))
    → Shows (λ _. All P xs) (for_each xs body)
unfolding for_each
for_each-Shows [] body h = pure-Shows tt _ tt
for_each-Shows {P = P} (x ∷ xs) body h =
    then-Shows {P = P x} {Q = All P xs} (body x) (for_each xs body) (h x) (for_each-Shows xs body h)

-- A statement that runs under a condition.
pub when-Shows :
    {S : Type 0} {P : Type 0} (test : Bool) (m : Contract S (Unit {0}))
    → Shows (λ _. P) m
    → Shows (λ _. test ≡ true → P) (when test m)
when-Shows true m h = weaken-Shows m (λ a p e. p) h
when-Shows false m h = pure-Shows tt _ (λ e. absurd (cc))
