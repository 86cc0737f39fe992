-- ===== src/RunLock/Safety.antt =====
-- Who may take the lock, and what giving it back does.
use kubernetes_distributed_t.Common.{
  Bool-cases, Option, String, ap, arith, eq_iff, inl, inr, nat_beq_iff, nat_eq, none, option_eq,
  refl, some, string_eq, ℕ, ◌==◌, ◌∙◌, ◌≡◌, subst, sym, ltb→lt, ◌+◌, ◌*◌, ◌<◌,
}
use kubernetes_distributed_t.Common.Exec.{Result, api_error, ok, raised, bind-eq-ok, ◌>>=◌}
use mathlib.Core.Option.{get_or}
use kubernetes_distributed_t.RunLock.{
  first_time, duration_or_default, Lease, LeaseApi, acquire, body, create_or_take, created,
  is_expired, read_answer, read_lease, state_of, take_over, acquire_from,
}

-- What the code relies on of the coordination API: optimistic concurrency by resourceVersion.
pub record IsLeaseApi (api : LeaseApi) : Type 0 where
  pub stored : api.State → Option (Lease × api.Version)
  pub read_ok :
      (s : api.State) (x : Lease × api.Version) → (api.read s).0 ≡ ok x → stored s ≡ some x
  pub read_missing : (s : api.State) → (api.read s).0 ≡ raised (api_error 404) → stored s ≡ none
  pub create_ok :
      (l : Lease) (s : api.State)
      → (api.create l s).0 ≡ ok tt
      → (stored s ≡ none) × ((v : api.Version) × (stored (api.create l s).1 ≡ some (l, v)))
  -- A replacement succeeds only if the stored object still has the given version.
  pub replace_ok :
      (l : Lease) (v : api.Version) (s : api.State)
      → (api.replace l v s).0 ≡ ok tt
      → ((old : Lease) × (stored s ≡ some (old, v)))
        × ((w : api.Version) × (stored (api.replace l v s).1 ≡ some (l, w)))
  pub delete_ok : (s : api.State) → (api.delete s).0 ≡ ok tt → stored (api.delete s).1 ≡ none
  -- One version is one content of the object.
  pub same_version :
      (s t : api.State) (a b : Lease) (v : api.Version)
      → stored s ≡ some (a, v)
      → stored t ≡ some (b, v)
      → a ≡ b

module _ (api : LeaseApi) (k : IsLeaseApi api) where
  open api use {State, Version}
  open k use {stored}

  -- A lease of the process is stored, which was taken at the time `now`, for 90 seconds.
  pub record Holds (me purpose : String) (now : ℕ) (state : State) : Type 0 where
    pub own : Lease
    pub version : Version
    pub is_stored : stored state ≡ some (own, version)
    pub by_me : own.holder_identity ≡ some me
    pub for_purpose : own.purpose ≡ some purpose
    pub acquired : own.acquire_time ≡ some now
    pub renewed : own.renew_time ≡ some now
    pub lasts : own.lease_duration ≡ some 90

  -- The state after the lease was read at `u`; other processes have acted since.
  abbrev pub once_read : State → State
  once_read u = (read_lease api u).1

  -- The call that creates the lease where none was read at `s`.
  abbrev pub creation : (me purpose : String) (s : State) → Result (Unit {0}) × State
  creation me purpose s = api.create (body me purpose (api.now (once_read s))) (once_read s)

  -- The states at which `acquire`, begun at `s`, reads the lease: at once, and again if there was
  -- none but creating it answers 409, when other processes have acted.
  pub data ReadAt (me purpose : String) (s : State) : State → Type 0 where
    at_once : ReadAt me purpose s s
    again :
        stored s ≡ none
        → (creation me purpose s).0 ≡ raised (api_error 409)
        → ReadAt me purpose s (api.others (creation me purpose s).1)

  -- How `acquire`, begun at `s` and ended in `final`, came by the lock.
  pub data Taken (me purpose : String) (s final : State) : Type 0 where
    -- There was no lease when it was read, nor when it was created, and nothing was done after.
    created_new :
        stored s ≡ none
        → stored (once_read s) ≡ none
        → final ≡ (creation me purpose s).1
        → Holds me purpose (api.now (once_read s)) final
        → Taken me purpose s final
    -- The lease that was read last is the process's own, and nothing was done after the reading.
    held_already :
        (u : State) (lease : Lease) (v : Version)
        → ReadAt me purpose s u
        → stored u ≡ some (lease, v)
        → get_or lease.holder_identity "" ≡ me
        → final ≡ once_read u
        → Taken me purpose s final
    -- The lease that was read last still stood there when it was replaced, and had expired by then.
    took_expired :
        (u : State) (lease : Lease) (v : Version)
        → ReadAt me purpose s u
        → stored u ≡ some (lease, v)
        → stored (once_read u) ≡ some (lease, v)
        → first_time lease.renew_time lease.acquire_time (api.now u)
            + duration_or_default lease.lease_duration * 1_000_000
          < api.now (once_read u)
        → Holds me purpose (api.now (once_read u)) final
        → Taken me purpose s final

  body-Holds :
      (me purpose : String) (now : ℕ) (state : State) (v : Version)
      → stored state ≡ some (body me purpose now, v)
      → Holds me purpose now state
  body-Holds me purpose now state v h = record {
    own = body me purpose now;
    version = v;
    is_stored = h;
    by_me = refl;
    for_purpose = refl;
    acquired = refl;
    renewed = refl;
    lasts = refl;
  }

  read_answer_lem :
      (r : Result (Lease × Version)) (s : State) (o : Option (Lease × Version))
      → (api.read s).0 ≡ r
      → (read_answer api r (api.read s).1).0 ≡ ok o
      → stored s ≡ o
  read_answer_lem (ok x) s o e h = k.read_ok s x e ∙ ground arith
  read_answer_lem (raised (api_error n)) s o e h = elim (Bool-cases (n == 404)) [
    | inl same ↦
        k.read_missing s (e ∙ ap (λ m. raised (api_error m)) ((nat_beq_iff n 404).0 same))
        ∙ ground arith
    | inr differ ↦ absurd (ground arith)
  ]
  read_answer_lem (raised x) s o e h = cc

  read_lease_lem :
      (s : State) (o : Option (Lease × Version)) → (read_lease api s).0 ≡ ok o → stored s ≡ o
  unfolding read_lease
  read_lease_lem s o h = read_answer_lem (api.read s).0 s o refl h

  -- What `acquire` does after reading at `u`, where it found a lease.
  take_over-Taken :
      (me purpose : String) (s u : State) (o : Option (Lease × Version))
      → ReadAt me purpose s u
      → stored u ≡ o
      → (take_over api me purpose (api.now u) o (once_read u)).0 ≡ ok tt
      → Taken me purpose s (take_over api me purpose (api.now u) o (once_read u)).1
  unfolding take_over is_expired state_of
  take_over-Taken me purpose s u none at e h = cc
  take_over-Taken me purpose s u (some (lease, v)) at e h =
      let seen = api.now u in
      let t = once_read u in
      elim (Bool-cases ((state_of lease seen).holder == me)) [
        | inl mine ↦ rw mine (held_already u lease v at e ((eq_iff _ me).0 mine) refl)
        | inr other ↦ elim (Bool-cases (is_expired (state_of lease seen) (api.now t))) [
          | inl expired ↦
              let done : (api.replace (body me purpose (api.now t)) v t).0 ≡ ok tt =
                ground (arith, h, other, expired) in
              let ((old, still), (w, written)) =
                k.replace_ok (body me purpose (api.now t)) v t done in
              let unchanged = k.same_version u t lease old v e still in
              rw (other, expired)
                (took_expired u lease v at e (rw unchanged still) (ltb→lt _ _ expired)
                  (body-Holds me purpose (api.now t) _ w written))
          | inr fresh ↦ absurd (ground (arith, h, other, fresh))
        ]
      ]

  read_again-Taken :
      (me purpose : String) (s u : State)
      → ReadAt me purpose s u
      → ((read_lease api >>= take_over api me purpose (api.now u)) u).0 ≡ ok tt
      → Taken me purpose s ((read_lease api >>= take_over api me purpose (api.now u)) u).1
  read_again-Taken me purpose s u at h =
      let (o, found, took, ends) =
        bind-eq-ok (read_lease api) (take_over api me purpose (api.now u)) u h in
      subst (Taken me purpose s) (sym ends)
        (take_over-Taken me purpose s u o at (read_lease_lem u o found) took)

  created-Taken :
      (me purpose : String) (r : Result (Unit {0})) (s : State)
      → stored s ≡ none
      → (creation me purpose s).0 ≡ r
      → (created api me purpose r (creation me purpose s).1).0 ≡ ok tt
      → Taken me purpose s (created api me purpose r (creation me purpose s).1).1
  created-Taken me purpose (ok x) s missing e h =
      let (fresh, (v, written)) =
        k.create_ok (body me purpose (api.now (once_read s))) (once_read s) e in
      created_new missing fresh refl (body-Holds me purpose _ _ v written)
  created-Taken me purpose (raised (api_error n)) s missing e h = elim (Bool-cases (n == 409)) [
    | inl taken ↦
        let conflict = e ∙ ap (λ m. raised (api_error m)) ((nat_beq_iff n 409).0 taken) in
        rw taken (
          read_again-Taken me purpose s (api.others (creation me purpose s).1)
            (again missing conflict) (rw taken at h))
    | inr other ↦ absurd (ground (arith, h, other))
  ]
  created-Taken me purpose (raised x) s missing e h = cc

  acquire_from-Taken :
      (me purpose : String) (s : State) (o : Option (Lease × Version))
      → stored s ≡ o
      → (acquire_from api me purpose (api.now s) o (once_read s)).0 ≡ ok tt
      → Taken me purpose s (acquire_from api me purpose (api.now s) o (once_read s)).1
  unfolding create_or_take
  acquire_from-Taken me purpose s none e h =
      created-Taken me purpose (creation me purpose s).0 s e refl h
  acquire_from-Taken me purpose s (some found) e h =
      take_over-Taken me purpose s s (some found) at_once e h

  -- If `acquire` succeeds, whatever other processes do between its calls, then it read no lease and
  -- there was none either when it created its own; or the lease that it read last was the process's
  -- own, and it wrote nothing after; or the lease that it read last was still stored when it
  -- replaced it, and had expired by then. In the first and the last case its own lease is then
  -- stored. It reads at once, and again only if creating the lease answered 409.
  pub acquire-Taken :
      (me purpose : String) (s : State)
      → (acquire api me purpose s).0 ≡ ok tt
      → Taken me purpose s (acquire api me purpose s).1
  unfolding acquire
  acquire-Taken me purpose s h =
      let (o, found, took, ends) =
        bind-eq-ok (read_lease api) (acquire_from api me purpose (api.now s)) s h in
      subst (Taken me purpose s) (sym ends)
        (acquire_from-Taken me purpose s o (read_lease_lem s o found) took)
