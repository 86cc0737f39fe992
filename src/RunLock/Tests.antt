-- ===== src/RunLock/Tests.antt =====
-- Taking over a lease that expired, with a store that counts its versions.
use kubernetes_distributed_t.Common.{
  Bool, Option, String, arith, if◌then◌else◌, nat_eq, none, option_eq, refl, some, string_eq, true,
  ℕ, ◌&&◌, ◌==◌, ◌↔◌, ◌≡◌, Bool-cases, inl, inr,
}
use kubernetes_distributed_t.Common.Exec.{Exec, Result, api_error, ok, raised}
use kubernetes_distributed_t.RunLock.{
  Lease, LeaseApi, acquire, create_or_take, is_expired, read_lease, state_of, take_over,
}
use kubernetes_distributed_t.RunLock.Safety.{IsLeaseApi, Taken, acquire-Taken}

-- The stored lease; its version is what it holds.
abbrev Store : Type 0
Store = Option Lease

abbrev found_lease : Store → Result (Lease × Lease)
found_lease none = raised (api_error 404)
found_lease (some l) = ok (l, l)

abbrev create_lease : Lease → Exec Store (Unit {0})
create_lease l none = (ok tt, some l)
create_lease l (some old) = (raised (api_error 409), some old)

abbrev lease_beq : Lease → Lease → Bool
lease_beq a b =
    a.holder_identity == b.holder_identity
    && (a.purpose == b.purpose
        && (a.acquire_time == b.acquire_time
            && (a.renew_time == b.renew_time && a.lease_duration == b.lease_duration)))

lease_beq_iff : (a b : Lease) → (lease_beq a b ≡ true) ↔ (a ≡ b)
lease_beq_iff a b = ground (
  arith,
  (option_eq {A = String}).beq_iff a.holder_identity b.holder_identity,
  (option_eq {A = String}).beq_iff a.purpose b.purpose,
  (option_eq {A = ℕ}).beq_iff a.acquire_time b.acquire_time,
  (option_eq {A = ℕ}).beq_iff a.renew_time b.renew_time,
  (option_eq {A = ℕ}).beq_iff a.lease_duration b.lease_duration,
)

-- Replaces the object if it is the one of the given version.
abbrev replace_lease : Lease → Lease → Exec Store (Unit {0})
replace_lease l v none = (raised (api_error 404), none)
replace_lease l v (some old) =
    if lease_beq old v then (ok tt, some l) else (raised (api_error 409), some old)

abbrev with_version : Store → Option (Lease × Lease)
with_version none = none
with_version (some l) = some (l, l)

abbrev lease_api : LeaseApi
lease_api = record {
  State = Store;
  Version = Lease;
  read = λ s. (found_lease s, s);
  create = create_lease;
  replace = replace_lease;
  delete = λ s. (ok tt, none);
  now = λ s. 500_000_000;
  others = λ s. s;
}

create_lease_lem :
    (l : Lease) (s : Store)
    → (create_lease l s).0 ≡ ok tt
    → (with_version s ≡ none) × ((v : Lease) × (with_version (create_lease l s).1 ≡ some (l, v)))
create_lease_lem l none h = (refl, (l, refl))
create_lease_lem l (some old) h = absurd (ground arith)

replace_lease_lem :
    (l v : Lease) (s : Store)
    → (replace_lease l v s).0 ≡ ok tt
    → ((old : Lease) × (with_version s ≡ some (old, v)))
      × ((w : Lease) × (with_version (replace_lease l v s).1 ≡ some (l, w)))
replace_lease_lem l v none h = absurd (ground arith)
replace_lease_lem l v (some old) h = elim (Bool-cases (lease_beq old v)) [
  | inl same ↦ ((old, ground (arith, lease_beq_iff old v)), (l, rw same))
  | inr other ↦ absurd (ground (arith, h, other))
]

lease_api-IsLeaseApi : IsLeaseApi lease_api
lease_api-IsLeaseApi = record {
  stored = with_version;
  read_ok = λ s x h. ground arith;
  read_missing = λ s h. ground arith;
  create_ok = λ l s h. create_lease_lem l s h;
  replace_ok = λ l v s h. replace_lease_lem l v s h;
  delete_ok = λ s h. refl;
  same_version = λ s t a b v p q. ground arith;
}

abbrev stale : Lease
stale = record {
  holder_identity = some "other/1";
  purpose = some "scenario";
  acquire_time = some 10_000_000;
  renew_time = some 20_000_000;
  lease_duration = some 90;
}

stale_taken : (acquire lease_api "host/7" "suite" (some stale)).0 ≡ ok tt
unfolding acquire create_or_take take_over read_lease is_expired state_of
stale_taken = refl

acquire-Taken_example :
    Taken lease_api lease_api-IsLeaseApi "host/7" "suite"
      (some stale)
      (acquire lease_api "host/7" "suite" (some stale)).1
acquire-Taken_example =
    acquire-Taken lease_api lease_api-IsLeaseApi "host/7" "suite" (some stale) stale_taken
