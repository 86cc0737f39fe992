-- ===== src/Kube/Waiting.antt =====
-- The polling loop of `wait_for` ends, and what it answers.
use kubernetes_distributed_t.Common.{
  Bool-cases, Option, arith, inl, inr, ltb, ltb→lt, nat_eq, none, option_eq, refl, some, string_eq,
  suc, zero, ℕ, ◌+◌, ◌-◌, ◌<◌, ◌≡◌, ◌≢◌, ◌≤◌,
}
use kubernetes_distributed_t.Common.Exec.{Error, Exec, Result, api_error, ok, raised, timeout_error}
use kubernetes_distributed_t.Kube.{poll, settle, wait_for}

module _ {S T : Type 0} (clock : S → ℕ) (sleep : ℕ → S → S) (predicate : Exec S (Option T))
    (interval : ℕ) (forward : (s : S) → clock s ≤ clock (predicate s).1)
    (sleeps : (s : S) → clock s + interval ≤ clock (sleep interval s))
    (positive : 0 < interval) where
  poll-ne-none :
      (deadline fuel : ℕ) (s : S)
      → deadline - clock s < fuel
      → poll clock sleep predicate interval deadline fuel s ≢ none
  unfolding poll
  poll-ne-none deadline zero s h = elim h [ ]
  poll-ne-none deadline (suc fuel) s h = ground (
    arith,
    forward s,
    sleeps (predicate s).1,
    poll-ne-none deadline fuel (sleep interval (predicate s).1),
  )

  -- The loop always ends within its fuel: with a value, with an exception of the predicate other
  -- than an API error, or with TimeoutError.
  pub wait_for_ends :
      (timeout : ℕ) (s : S) → wait_for clock sleep predicate timeout interval s ≢ none
  unfolding wait_for
  wait_for_ends timeout s = poll-ne-none (clock s + timeout) (suc timeout) s (omega arith)

module _ {S T : Type 0} (clock : S → ℕ) (sleep : ℕ → S → S) (predicate : Exec S (Option T))
    (interval : ℕ) where
  -- What the loop may answer: a value that the predicate gave before the deadline, an exception
  -- of the predicate that is no API error, or a timeout when the deadline has passed.
  pub data Answer (deadline : ℕ) (r : Result T) (t : S) : Type 0 where
    found :
        (u : S) (v : T)
        → clock u < deadline
        → (predicate u).0 ≡ ok (some v)
        → r ≡ ok v
        → t ≡ (predicate u).1
        → Answer deadline r t
    failed :
        (u : S) (e : Error)
        → clock u < deadline
        → (predicate u).0 ≡ raised e
        → ((status : ℕ) → e ≢ api_error status)
        → r ≡ raised e
        → t ≡ (predicate u).1
        → Answer deadline r t
    timed_out : deadline ≤ clock t → r ≡ raised timeout_error → Answer deadline r t

  settle-Answer :
      (deadline : ℕ) (p : Result (Option T)) (u : S) (again : Option (Result T × S)) (r : Result T)
      (t : S)
      → clock u < deadline
      → (predicate u).0 ≡ p
      → (again ≡ some (r, t) → Answer deadline r t)
      → settle p (predicate u).1 again ≡ some (r, t)
      → Answer deadline r t
  settle-Answer d (ok (some v)) u again r t before e ih h =
      found u v before e (ground arith) (ground arith)
  settle-Answer d (ok none) u again r t before e ih h = ih h
  settle-Answer d (raised (api_error n)) u again r t before e ih h = ih h
  settle-Answer d (raised x) u again r t before e ih h =
      failed u x before e (λ n p. cc) (ground arith) (ground arith)

  poll-Answer :
      (deadline fuel : ℕ) (s : S) (r : Result T) (t : S)
      → poll clock sleep predicate interval deadline fuel s ≡ some (r, t)
      → Answer deadline r t
  unfolding poll
  poll-Answer deadline zero s r t h = cc
  poll-Answer deadline (suc fuel) s r t h = elim (Bool-cases (ltb (clock s) deadline)) [
    | inl before ↦
        settle-Answer deadline (predicate s).0 s _ r t (ltb→lt _ _ before) refl
          (poll-Answer deadline fuel (sleep interval (predicate s).1) r t) (rw before at h)
    | inr after ↦ timed_out (ground arith) (ground arith)
  ]

  -- A result of `wait_for` is a value that the predicate gave before the deadline, an exception
  -- other than an API error that it raised before the deadline, or TimeoutError at or after the
  -- deadline; API errors never get out.
  pub wait_for-Answer :
      (timeout : ℕ) (s : S) (r : Result T) (t : S)
      → wait_for clock sleep predicate timeout interval s ≡ some (r, t)
      → Answer (clock s + timeout) r t
  unfolding wait_for
  wait_for-Answer timeout s r t h = poll-Answer (clock s + timeout) (suc timeout) s r t h
