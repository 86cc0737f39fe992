-- ===== src/Jaeger/Waiting.antt =====
-- What the waiting for a trace ends with.
-- The clock of an environment: a request does not set it back, and a sleep takes its time.
use kubernetes_distributed_t.Jaeger.{
  Api, get_trace, is_wanted, poll, round, Answer, traces_of, wait_for_trace,
}
use kubernetes_distributed_t.Traces.{group_traces, first, Trace}
use kubernetes_distributed_t.Common.{
  subst, eq_iff, leb, ◌==◌, none, nat_eq, string_eq, option_eq, if_holds, ltb→ge, ltb, Bool, Option,
  String, arith, inr, nat_eq, option_eq, string_eq, suc, true, zero, ℕ, ◌+◌, ◌≡◌, ◌≤◌, ◌⊎◌, inl,
  ◌==◌, List, some, refl, ◌∷◌, [], if◌then◌else◌,
}
use kubernetes_distributed_t.Common.Exec.{
  http_error, bind-eq-ok, Result, ok, raised, Exec, and_then, Error,
}

pub record IsTimed {S : Type 0} (api : Api S) : Type 0 where
  pub get_goes_on : (trace_id : String) (s : S) → api.clock s ≤ api.clock (api.get trace_id s).1
  pub sleep_takes : (n : ℕ) (s : S) → api.clock s + n ≤ api.clock (api.sleep n s)

-- An exception, an answer that is wanted, or any where the deadline has passed.
abbrev pub Settled :
    {S : Type 0}
    → Api S
    → (until : Trace → Bool) (deadline : ℕ) → Result (Option Trace) × S
    → Type 0
Settled api until deadline q =
    ((e : Error) × (q.0 ≡ raised e))
    ⊎ ((found : Option Trace) × (q.0 ≡ ok found)
        × ((is_wanted api until found ≡ true) ⊎ (deadline ≤ api.clock q.1)))

module _ {S : Type 0} (api : Api S) (timed : IsTimed api) (until : Trace → Bool)
    (trace_id : String) where
  bind_on :
      (r : Result Answer) (f : Answer → Exec S (Option Trace)) (s : S) (start : ℕ)
      → start ≤ api.clock s
      → ((a : Answer) → (f a s).1 ≡ s)
      → start ≤ api.clock (and_then r f s).1
  bind_on (ok a) f s start h still = rw (still a) h
  bind_on (raised e) f s start h still = h

  get_trace_on : (s : S) → api.clock s ≤ api.clock (get_trace api trace_id s).1
  unfolding get_trace
  get_trace_on s =
      bind_on (api.get trace_id s).0
        (λ answer s'. (traces_of none (first (λ t. t.trace_id == trace_id)) answer, s'))
        (api.get trace_id s).1 (api.clock s) (timed.get_goes_on trace_id s) (λ a. refl)

  round-Settled :
      (deadline : ℕ) (answer : Result (Option Trace) × S)
      (again : Option Trace → S → Result (Option Trace) × S)
      → ((found : Option Trace) → Settled api until deadline (again found answer.1))
      → Settled api until deadline (round api until answer again)
  round-Settled deadline (raised e, s) again h = inl (e, refl)
  round-Settled deadline (ok found, s) again h =
      if_holds (Settled api until deadline) (is_wanted api until found) (ok found, s)
        (again found s) (λ wanted. inr (found, refl, inl wanted)) (λ other. h found)

  poll-Settled :
      (deadline fuel : ℕ) (latest : Option Trace) (s : S)
      → deadline ≤ api.clock s + fuel
      → Settled api until deadline (poll api until trace_id deadline fuel latest s)
  unfolding poll
  poll-Settled deadline zero latest s enough = inr (latest, refl, inr (omega (arith, enough)))
  poll-Settled deadline (suc fuel) latest s enough =
      let answer = get_trace api trace_id s in
      let again = λ (found : Option Trace).
        λ (s' : S). poll api until trace_id deadline fuel found (api.sleep 2 s') in
      if_holds (Settled api until deadline) (ltb (api.clock s) deadline)
        (round api until answer again) (ok latest, s)
        (λ early. round-Settled deadline answer again (λ found.
          poll-Settled deadline fuel found (api.sleep 2 answer.1)
            (omega (arith, enough, get_trace_on s, timed.sleep_takes 2 answer.1))))
        (λ late. inr (latest, refl, inr (ltb→ge _ _ late)))

  -- Waiting for a trace ends with an exception, with an answer that the caller wants, or at the
  -- deadline, if requests do not set the clock back and a sleep takes its time.
  pub wait_for_trace-Settled :
      (timeout : ℕ) (s : S)
      → Settled api until (api.clock s + timeout) (wait_for_trace api trace_id timeout until s)
  unfolding wait_for_trace
  wait_for_trace-Settled timeout s =
      poll-Settled (api.clock s + timeout) timeout none s (omega arith)

first-holds :
    {A : Type 0} (test : A → Bool) (xs : List A) (a : A) → first test xs ≡ some a → test a ≡ true
first-holds test [] a h = cc
first-holds test (x ∷ xs) a h =
    if_holds (λ found. found ≡ some a → test a ≡ true) (test x) (some x) (first test xs)
      (λ here e. let same : x ≡ a = cc in subst (λ y. test y ≡ true) same here)
      (λ other. first-holds test xs a) h

module _ {S : Type 0} (api : Api S) (until : Trace → Bool) (trace_id : String) (t : Trace) where
  traces_of-some :
      (f : List Trace → Option Trace) (answer : Answer)
      → traces_of none f answer ≡ ok (some t)
      → f (group_traces answer.spans) ≡ some t
  traces_of-some f answer h =
      let goal =
        λ (r : Result (Option Trace)). r ≡ ok (some t) → f (group_traces answer.spans) ≡ some t in
      if_holds goal (answer.status == 404) (ok none)
        (if leb 400 answer.status then raised http_error else ok (f (group_traces answer.spans)))
        (λ missing e. absurd (cc))
        (λ there.
          if_holds goal (leb 400 answer.status) (raised http_error)
            (ok (f (group_traces answer.spans))) (λ bad e. absurd (cc)) (λ good e. cc))
        h

  -- A trace that is found has the id asked for.
  pub get_trace-id : (s : S) → (get_trace api trace_id s).0 ≡ ok (some t) → t.trace_id ≡ trace_id
  unfolding get_trace
  get_trace-id s h =
      let (answer, sent, found, left) =
        bind-eq-ok (api.get trace_id)
          (λ answer s'. (traces_of none (first (λ t. t.trace_id == trace_id)) answer, s')) s h in
      (eq_iff t.trace_id trace_id).0 (
        first-holds (λ u. u.trace_id == trace_id) (group_traces answer.spans) t
          (traces_of-some (first (λ u. u.trace_id == trace_id)) answer found))

  round-id :
      (answer : Result (Option Trace) × S) (again : Option Trace → S → Result (Option Trace) × S)
      → (answer.0 ≡ ok (some t) → t.trace_id ≡ trace_id)
      → ((found : Option Trace)
          → answer.0 ≡ ok found
          → (again found answer.1).0 ≡ ok (some t)
          → t.trace_id ≡ trace_id)
      → (round api until answer again).0 ≡ ok (some t)
      → t.trace_id ≡ trace_id
  round-id (raised e, s) again now later h = absurd (cc)
  round-id (ok found, s) again now later h =
      if_holds (λ p. p.0 ≡ ok (some t) → t.trace_id ≡ trace_id) (is_wanted api until found)
        (ok found, s) (again found s) (λ wanted. now) (λ other. later found refl) h

  poll-id :
      (deadline fuel : ℕ) (latest : Option Trace) (s : S)
      → (latest ≡ some t → t.trace_id ≡ trace_id)
      → (poll api until trace_id deadline fuel latest s).0 ≡ ok (some t)
      → t.trace_id ≡ trace_id
  unfolding poll
  poll-id deadline zero latest s old h = old (cc)
  poll-id deadline (suc fuel) latest s old h =
      let answer = get_trace api trace_id s in
      let again = λ (found : Option Trace).
        λ (s' : S). poll api until trace_id deadline fuel found (api.sleep 2 s') in
      if_holds (λ p. p.0 ≡ ok (some t) → t.trace_id ≡ trace_id) (ltb (api.clock s) deadline)
        (round api until answer again) (ok latest, s)
        (λ early. round-id answer again (get_trace-id s) (λ found e.
          poll-id deadline fuel found (api.sleep 2 answer.1) (λ same. get_trace-id s (cc))))
        (λ late e. old (cc)) h

  pub wait_for_trace-id :
      (timeout : ℕ) (s : S)
      → (wait_for_trace api trace_id timeout until s).0 ≡ ok (some t)
      → t.trace_id ≡ trace_id
  unfolding wait_for_trace
  wait_for_trace-id timeout s = poll-id (api.clock s + timeout) timeout none s (λ e. absurd (cc))
