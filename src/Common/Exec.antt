-- ===== src/Common/Exec.antt =====
-- Python statements that change a state and may raise: what was changed before a raise stays.
use mathlib.Core.Path.{◌≡◌, refl}
use mathlib.Core.List.{List, [], ◌∷◌}
use kubernetes_distributed_t.Common.Lists.{All}
use mathlib.Core.Bool.{Bool, true, false}
use kubernetes_distributed_t.Common.Tests.{if◌then◌else◌}
use Prim.Native.Nat.{ℕ}
use Prim.Native.String.{String}

-- The exceptions that the package raises or lets through. A message is its fixed part.
pub data Error : Type 0 where
  api_error : (status : ℕ) → Error
  http_error : Error
  runtime_error value_error type_error index_error key_error tool_error : (message : String) → Error
  timeout_error assertion_error lock_held_error keyboard_interrupt : Error

pub data Result {ℓ} (A : Type ℓ) : Type ℓ where
  ok : A → Result A
  raised : Error → Result A

abbrev pub Exec : Type 0 → Type 0 → Type 0
Exec S A = S → Result A × S

module _ {S A : Type 0} where
  abbrev pub pure : A → Exec S A
  pure a s = (ok a, s)

  abbrev pub raise : Error → Exec S A
  raise e s = (raised e, s)

  abbrev pub gets : (S → A) → Exec S A
  gets f s = (ok (f s), s)

  -- The result of a call that changes nothing.
  abbrev pub query : (S → Result A) → Exec S A
  query f s = (f s, s)

abbrev pub modify : {S : Type 0} → (S → S) → Exec S (Unit {0})
modify f s = (ok tt, f s)

module _ {S A B : Type 0} where
  abbrev pub and_then : Result A → (A → Exec S B) → Exec S B
  and_then (ok a) f s = f a s
  and_then (raised e) f s = (raised e, s)

  infixl 5 ◌>>=◌ ◌>>◌
  abbrev pub ◌>>=◌ : Exec S A → (A → Exec S B) → Exec S B
  ◌>>=◌ m f s = let (r, s') = m s in and_then r f s'

  abbrev pub ◌>>◌ : Exec S A → Exec S B → Exec S B
  m >> n = m >>= λ _. n

-- `if test: body`
abbrev pub when : {S : Type 0} → Bool → Exec S (Unit {0}) → Exec S (Unit {0})
when b m = if b then m else pure tt

module _ {S A : Type 0} where
  -- `for x in xs: body(x)`
  unfoldable pub for_each : List A → (A → Exec S (Unit {0})) → Exec S (Unit {0})
  for_each [] body = pure tt
  for_each (x ∷ xs) body = body x >> for_each xs body

  -- What `m` does to the state keeps `P`, whether it returns or raises.
  pub record Keeps (P : S → Type 0) (m : Exec S A) : Type 0 where
    pub at : (s : S) → P s → P (m s).1

module _ {S A B : Type 0} {P : S → Type 0} where
  pub and_then-Keeps :
      (r : Result A) (f : A → Exec S B) → ((a : A) → Keeps P (f a)) → Keeps P (and_then r f)
  and_then-Keeps (ok a) f h = record { at = (h a).at }
  and_then-Keeps (raised e) f h = record { at = λ s p. p }

  pub bind-Keeps :
      (first : Exec S A) (rest : A → Exec S B)
      → Keeps P first
      → ((a : A) → Keeps P (rest a))
      → Keeps P (first >>= rest)
  bind-Keeps m f hm hf = record {
    at = λ s p. let (r, s') = m s in (and_then-Keeps r f hf).at s' (hm.at s p);
  }

  and_then-Keeps_with :
      {Q : A → Type 0} (r : Result A) (f : A → Exec S B)
      → ((a : A) → r ≡ ok a → Q a)
      → ((a : A) → Q a → Keeps P (f a))
      → Keeps P (and_then r f)
  and_then-Keeps_with (ok a) f q h = record { at = (h a (q a refl)).at }
  and_then-Keeps_with (raised e) f q h = record { at = λ s p. p }

  -- The rest may use what a result of `m` shows.
  pub bind-Keeps_with :
      {Q : A → Type 0} (m : Exec S A) (f : A → Exec S B)
      → Keeps P m
      → ((s : S) (a : A) → (m s).0 ≡ ok a → Q a)
      → ((a : A) → Q a → Keeps P (f a))
      → Keeps P (m >>= f)
  bind-Keeps_with m f hm q hf = record {
    at = λ s p. let (r, s') = m s in (and_then-Keeps_with r f (q s) hf).at s' (hm.at s p);
  }

module _ {S A : Type 0} {P : S → Type 0} where
  pub if-Keeps : (b : Bool) (m n : Exec S A) → Keeps P m → Keeps P n → Keeps P (if b then m else n)
  if-Keeps true m n km kn = km
  if-Keeps false m n km kn = kn

  -- A body that keeps `P` at each element with `Q`.
  pub for_each-Keeps_with :
      {Q : A → Type 0} (xs : List A) (body : A → Exec S (Unit {0}))
      → All Q xs
      → ((a : A) → Q a → Keeps P (body a))
      → Keeps P (for_each xs body)
  unfolding for_each
  for_each-Keeps_with [] body q h = record { at = λ s p. p }
  for_each-Keeps_with (x ∷ xs) body q h =
      bind-Keeps (body x) (λ _. for_each xs body) (h x q.0) (λ _. for_each-Keeps_with xs body q.1 h)

  pub for_each-Keeps :
      (xs : List A) (body : A → Exec S (Unit {0}))
      → ((a : A) → Keeps P (body a))
      → Keeps P (for_each xs body)
  unfolding for_each
  for_each-Keeps [] body h = record { at = λ s p. p }
  for_each-Keeps (x ∷ xs) body h =
      bind-Keeps (body x) (λ _. for_each xs body) (h x) (λ _. for_each-Keeps xs body h)

  pub pure-Keeps : (a : A) → Keeps P (pure a)
  pure-Keeps a = record { at = λ s p. p }

  pub raise-Keeps : (e : Error) → Keeps P (raise {A = A} e)
  raise-Keeps e = record { at = λ s p. p }

  pub query-Keeps : (f : S → Result A) → Keeps P (query f)
  query-Keeps f = record { at = λ s p. p }

  pub gets-Keeps : (f : S → A) → Keeps P (gets f)
  gets-Keeps f = record { at = λ s p. p }

module _ {S A B : Type 0} where
  and_then-eq-ok :
      (r : Result A) (f : A → Exec S B) (s : S) {b : B}
      → (and_then r f s).0 ≡ ok b
      → (a : A) × (r ≡ ok a) × ((f a s).0 ≡ ok b) × ((and_then r f s).1 ≡ (f a s).1)
  and_then-eq-ok (ok a) f s h = (a, refl, h, refl)
  and_then-eq-ok (raised e) f s h = cc

  -- A successful chain: its first part succeeded, and the rest ran on the state that it left.
  pub bind-eq-ok :
      (m : Exec S A) (f : A → Exec S B) (s : S) {b : B}
      → ((m >>= f) s).0 ≡ ok b
      → (a : A) × ((m s).0 ≡ ok a) × ((f a (m s).1).0 ≡ ok b) × (((m >>= f) s).1 ≡ (f a (m s).1).1)
  bind-eq-ok m f s h = and_then-eq-ok (m s).0 f (m s).1 h

  and_then_ok :
      (r : Result A) (f : A → Exec S B) (s : S) {a : A} → r ≡ ok a → and_then r f s ≡ f a s
  and_then_ok r f s h = rw h refl

  -- A chain whose first part succeeds goes on with its result.
  pub bind_ok :
      (m : Exec S A) (f : A → Exec S B) (s : S) {a : A} → (m s).0 ≡ ok a → (m >>= f) s ≡ f a (m s).1
  bind_ok m f s h = and_then_ok (m s).0 f (m s).1 h
