-- ===== src/RunLock.antt =====
-- The experiment lock, a Kubernetes Lease (automation/src/txplatform/runlock.py). The coordination
-- API is the parameter `LeaseApi`; times are whole microseconds. Between two calls of one process
-- the other processes act: `others`. The renewing thread calls `renew` and drops what it raises.
pub mod Safety
mod Tests
use mathlib.Core.Option.{get_or}
use kubernetes_distributed_t.Common.{
  Bool, Option, String, false, if◌then◌else◌, ltb, nat_eq, none, not, option_eq, some, string_eq,
  true, ℕ, ◌!=◌, ◌&&◌, ◌*◌, ◌+◌, ◌==◌,
}
use kubernetes_distributed_t.Common.Exec.{
  Exec, api_error, assertion_error, lock_held_error, ok, pure, raise, raised, ◌>>=◌, ◌>>◌, Result,
}

abbrev pub lease_duration_seconds : ℕ
lease_duration_seconds = 90

abbrev pub microseconds : ℕ → ℕ
microseconds seconds = seconds * 1_000_000

-- The fields of the Lease object that the code reads and writes.
pub record Lease : Type 0 where
  pub holder_identity : Option String
  pub purpose : Option String
  pub acquire_time : Option ℕ
  pub renew_time : Option ℕ
  pub lease_duration : Option ℕ

pub record LeaseState : Type 0 where
  pub holder : String
  pub purpose : String
  pub renewed_at : ℕ
  pub duration_seconds : ℕ

-- `now - state.renewed_at > duration`
unfoldable pub is_expired : LeaseState → ℕ → Bool
is_expired state now = ltb (state.renewed_at + microseconds state.duration_seconds) now

-- `renew_time or acquire_time or _now()`; a time that is there counts as true.
abbrev pub first_time : Option ℕ → Option ℕ → ℕ → ℕ
first_time (some t) o now = t
first_time none (some t) now = t
first_time none none now = now

-- `lease_duration_seconds or LEASE_DURATION_SECONDS`
abbrev pub duration_or_default : Option ℕ → ℕ
duration_or_default none = lease_duration_seconds
duration_or_default (some n) = if n == 0 then lease_duration_seconds else n

-- The LeaseState that `_read` makes of an object.
unfoldable pub state_of : Lease → ℕ → LeaseState
state_of lease now = record {
  holder = get_or lease.holder_identity "";
  purpose = get_or lease.purpose "";
  renewed_at = first_time lease.renew_time lease.acquire_time now;
  duration_seconds = duration_or_default lease.lease_duration;
}

-- `_body`
abbrev pub body : (me purpose : String) (now : ℕ) → Lease
body me purpose now = record {
  holder_identity = some me;
  purpose = some purpose;
  acquire_time = some now;
  renew_time = some now;
  lease_duration = some lease_duration_seconds;
}

-- The calls of the coordination API on the one Lease object, and the clock.
pub record LeaseApi : Type 1 where
  pub State : Type 0
  -- The object's resourceVersion.
  pub Version : Type 0
  pub read : Exec State (Lease × Version)
  pub create : Lease → Exec State (Unit {0})
  pub replace : Lease → Version → Exec State (Unit {0})
  pub delete : Exec State (Unit {0})
  pub now : State → ℕ
  pub others : State → State

module _ (api : LeaseApi) where
  open api use {State, Version}

  abbrev pub read_answer : Result (Lease × Version) → Exec State (Option (Lease × Version))
  read_answer (ok lease) s = (ok (some lease), api.others s)
  read_answer (raised (api_error status)) s =
      if status == 404 then (ok none, api.others s) else (raised (api_error status), s)
  read_answer (raised e) s = (raised e, s)

  -- `_read`, where 404 is an absent object; then the other processes act.
  unfoldable pub read_lease : Exec State (Option (Lease × Version))
  read_lease s = read_answer (api.read s).0 (api.read s).1

  abbrev pub take_found : (me purpose : String) (seen : ℕ) → Lease × Version → Exec State (Unit {0})
  take_found me purpose seen found s =
      let state = state_of (found.0) seen in
      if state.holder == me
      then (ok tt, s)
      else if not (is_expired state (api.now s))
      then (raised lock_held_error, s)
      else api.replace (body me purpose (api.now s)) (found.1) s

  -- The end of `acquire`, with what was read at the time `seen`.
  unfoldable pub take_over :
      (me purpose : String) (seen : ℕ) → Option (Lease × Version) → Exec State (Unit {0})
  unfolding is_expired state_of
  take_over me purpose seen none = raise assertion_error
  take_over me purpose seen (some found) = take_found me purpose seen found

  -- Reading again after another process created the object first.
  abbrev pub created : (me purpose : String) → Result (Unit {0}) → Exec State (Unit {0})
  created me purpose (ok _) s = (ok tt, s)
  created me purpose (raised (api_error status)) s =
      let seen = api.now (api.others s) in
      let again = (read_lease >>= take_over me purpose seen) (api.others s) in
      if status == 409 then again else (raised (api_error status), s)
  created me purpose (raised e) s = (raised e, s)

  -- The branch of `acquire` where there is no object.
  unfoldable pub create_or_take : (me purpose : String) → Exec State (Unit {0})
  unfolding take_over read_lease
  create_or_take me purpose s =
      let (r, s') = api.create (body me purpose (api.now s)) s in created me purpose r s'

  abbrev pub acquire_from :
      (me purpose : String) (seen : ℕ) → Option (Lease × Version) → Exec State (Unit {0})
  acquire_from me purpose seen none = create_or_take me purpose
  acquire_from me purpose seen (some found) = take_over me purpose seen (some found)

  unfoldable pub acquire : (me purpose : String) → Exec State (Unit {0})
  unfolding create_or_take
  acquire me purpose s = (read_lease >>= acquire_from me purpose (api.now s)) s

  abbrev pub renew_from :
      (me : String) (seen : ℕ) → Option (Lease × Version) → Exec State (Unit {0})
  renew_from me seen none s = (ok tt, s)
  renew_from me seen (some (lease, version)) s =
      if (state_of lease seen).holder != me
      then (ok tt, s)
      else api.replace (record lease { renew_time = some (api.now s) }) version s

  unfoldable pub renew : String → Exec State (Unit {0})
  unfolding read_lease state_of
  renew me s = (read_lease >>= renew_from me (api.now s)) s

  abbrev pub release_from :
      (me : String) (force : Bool) (seen : ℕ) → Option (Lease × Version) → Exec State Bool
  release_from me force seen none s = (ok false, s)
  release_from me force seen (some (lease, version)) s =
      if not force && (state_of lease seen).holder != me
      then (ok false, s)
      else (api.delete >> pure true) s

  unfoldable pub release : (me : String) (force : Bool) → Exec State Bool
  unfolding read_lease state_of
  release me force s = (read_lease >>= release_from me force (api.now s)) s
