-- ===== src/Journal/Plan.antt =====
-- What the loop of `restore_plan` collects, and what the plan holds: each step of it, how often.
use kubernetes_distributed_t.Common.{
  ℕ, ◌≡◌, refl, Bool, false, ◌||◌, String, Option, none, some, List, [], ◌∷◌, map, arith,
  if◌then◌else◌, contains, count, any, Distinct, contains-append_new, append_new-Distinct, eq_iff,
  ◌==◌, option_eq, string_eq, nat_eq, count_of_Distinct, ◌++◌, ◌+◌, count-append,
}
use kubernetes_distributed_t.Common.Dict.{
  Dict, lookup, lookup-set_default, NodupKeys, set_default-NodupKeys,
}
use kubernetes_distributed_t.Journal.{
  Entry, rollout_restart, delete_pod, other, Changes, visit, collect, clear_step, scale_step,
  wait_step, step_eq, no_changes, RestoreStep, restore_plan,
}

-- A fault was journaled for the service.
abbrev pub is_fault_of : String → Entry → Bool
is_fault_of s (Entry.fault service _ _ _) = service == s
is_fault_of s _ = false

-- A change was journaled for the workload.
abbrev pub touches : String → Entry → Bool
touches w (Entry.fault service _ _ _) = service == w
touches w (Entry.scale workload _ _) = workload == w
touches w (rollout_restart workload) = workload == w
touches w (delete_pod workload _ _) = workload == w
touches w (other _ _) = false

-- The count that the first scale entry of the workload recorded.
abbrev pub first_original : String → List Entry → Option ℕ
first_original w [] = none
first_original w (Entry.scale workload original _ ∷ es) =
    if workload == w then some original else first_original w es
first_original w (_ ∷ es) = first_original w es

abbrev pub or_else : Option ℕ → Option ℕ → Option ℕ
or_else (some n) o = some n
or_else none o = o

pub record IsClean (c : Changes) : Type 0 where
  pub faults_once : Distinct c.fault_services
  pub keys_once : NodupKeys c.original_replicas
  pub touched_once : Distinct c.touched

visit-IsClean : (c : Changes) (e : Entry) → IsClean c → IsClean (visit c e)
unfolding visit
visit-IsClean c (Entry.fault s _ _ _) h = record {
  faults_once = append_new-Distinct s c.fault_services h.faults_once;
  keys_once = h.keys_once;
  touched_once = append_new-Distinct s c.touched h.touched_once;
}
visit-IsClean c (Entry.scale w n _) h = record {
  faults_once = h.faults_once;
  keys_once = set_default-NodupKeys w n c.original_replicas h.keys_once;
  touched_once = append_new-Distinct w c.touched h.touched_once;
}
visit-IsClean c (rollout_restart w) h = record {
  faults_once = h.faults_once;
  keys_once = h.keys_once;
  touched_once = append_new-Distinct w c.touched h.touched_once;
}
visit-IsClean c (delete_pod w _ _) h = record {
  faults_once = h.faults_once;
  keys_once = h.keys_once;
  touched_once = append_new-Distinct w c.touched h.touched_once;
}
visit-IsClean c (other _ _) h = h

pub collect-IsClean : (c : Changes) (es : List Entry) → IsClean c → IsClean (collect c es)
unfolding collect
collect-IsClean c [] h = h
collect-IsClean c (e ∷ es) h = collect-IsClean (visit c e) es (visit-IsClean c e h)

pub collect-faults :
    (c : Changes) (es : List Entry) (s : String)
    → contains (collect c es).fault_services s
      ≡ (contains c.fault_services s || any (is_fault_of s) es)
unfolding collect visit
collect-faults c [] s = ground arith
collect-faults c (Entry.fault t p o m ∷ es) s = ground (
  arith,
  collect-faults (visit c (Entry.fault t p o m)) es s,
  contains-append_new s t c.fault_services,
)
collect-faults c (e ∷ es) s = collect-faults (visit c e) es s

pub collect-touched :
    (c : Changes) (es : List Entry) (w : String)
    → contains (collect c es).touched w ≡ (contains c.touched w || any (touches w) es)
unfolding collect visit
collect-touched c [] w = ground arith
collect-touched c (Entry.fault t p o m ∷ es) w =
    ground (
      arith,
      collect-touched (visit c (Entry.fault t p o m)) es w,
      contains-append_new w t c.touched,
    )
collect-touched c (Entry.scale t n r ∷ es) w =
    ground
      (arith, collect-touched (visit c (Entry.scale t n r)) es w, contains-append_new w t c.touched)
collect-touched c (rollout_restart t ∷ es) w =
    ground
      (arith, collect-touched (visit c (rollout_restart t)) es w, contains-append_new w t c.touched)
collect-touched c (delete_pod t p u ∷ es) w =
    ground
      (arith, collect-touched (visit c (delete_pod t p u)) es w, contains-append_new w t c.touched)
collect-touched c (other k t ∷ es) w = collect-touched c es w

pub collect-original :
    (c : Changes) (es : List Entry) (w : String)
    → lookup w (collect c es).original_replicas
      ≡ or_else (lookup w c.original_replicas) (first_original w es)
unfolding collect visit
collect-original c [] w = ground arith
collect-original c (Entry.scale t n r ∷ es) w = ground (
  arith,
  collect-original (visit c (Entry.scale t n r)) es w,
  lookup-set_default t w n c.original_replicas,
  eq_iff t w,
)
collect-original c (e ∷ es) w = collect-original (visit c e) es w

-- How often a step stands in each part of the plan.
count-clear : (s : String) (l : List String) → count (clear_step s) (map clear_step l) ≡ count s l
count-clear s [] = refl
count-clear s (x ∷ l) = ground (arith, count-clear s l)

count-wait : (s : String) (l : List String) → count (wait_step s) (map wait_step l) ≡ count s l
count-wait s [] = refl
count-wait s (x ∷ l) = ground (arith, count-wait s l)

count-scale :
    (w : String) (n : ℕ) (d : Dict String ℕ)
    → NodupKeys d
    → count (scale_step (w, n)) (map scale_step d) ≡ (if lookup w d == some n then 1 else 0)
count-scale w n [] u = refl
count-scale w n ((v, m) ∷ d) (fresh, u) = ground (arith, count-scale w n d u, eq_iff v w)

count_clear_in_scale :
    (s : String) (d : Dict String ℕ) → count (clear_step s) (map scale_step d) ≡ 0
count_clear_in_scale s [] = refl
count_clear_in_scale s (x ∷ d) = count_clear_in_scale s d

count_clear_in_wait : (s : String) (l : List String) → count (clear_step s) (map wait_step l) ≡ 0
count_clear_in_wait s [] = refl
count_clear_in_wait s (x ∷ d) = count_clear_in_wait s d

count_scale_in_clear :
    (e : String × ℕ) (l : List String) → count (scale_step e) (map clear_step l) ≡ 0
count_scale_in_clear e [] = refl
count_scale_in_clear e (x ∷ d) = count_scale_in_clear e d

count_scale_in_wait :
    (e : String × ℕ) (l : List String) → count (scale_step e) (map wait_step l) ≡ 0
count_scale_in_wait e [] = refl
count_scale_in_wait e (x ∷ d) = count_scale_in_wait e d

count_wait_in_clear : (s : String) (l : List String) → count (wait_step s) (map clear_step l) ≡ 0
count_wait_in_clear s [] = refl
count_wait_in_clear s (x ∷ d) = count_wait_in_clear s d

count_wait_in_scale : (s : String) (d : Dict String ℕ) → count (wait_step s) (map scale_step d) ≡ 0
count_wait_in_scale s [] = refl
count_wait_in_scale s (x ∷ d) = count_wait_in_scale s d

pub nothing_yet : IsClean no_changes
nothing_yet = record { faults_once = tt; keys_once = tt; touched_once = tt }

count_parts :
    (s : RestoreStep) (xs ys zs : List RestoreStep)
    → count s (xs ++ (ys ++ zs)) ≡ count s xs + (count s ys + count s zs)
count_parts s xs ys zs = omega (arith, count-append s xs (ys ++ zs), count-append s ys zs)

-- The plan clears the faults of a service exactly once if a fault of it was journaled, and never
-- otherwise; it scales a workload exactly once if a scaling of it was journaled, to the count that
-- the first such entry recorded and to no other; and it waits exactly once for each workload with
-- a journaled change, and for no other.
pub restore_plan_exact :
    (es : List Entry) (w : String) (n : ℕ)
    → (count (clear_step w) (restore_plan es) ≡ (if any (is_fault_of w) es then 1 else 0))
      × (count (scale_step (w, n)) (restore_plan es)
          ≡ (if first_original w es == some n then 1 else 0))
      × (count (wait_step w) (restore_plan es) ≡ (if any (touches w) es then 1 else 0))
unfolding restore_plan
restore_plan_exact es w n =
    let c = collect no_changes es in
    let clean = collect-IsClean no_changes es nothing_yet in
    let split = λ (s : RestoreStep).
      count_parts s (map clear_step c.fault_services) (map scale_step c.original_replicas)
        (map wait_step c.touched) in
    (
      ground (
        arith,
        split (clear_step w),
        count-clear w c.fault_services,
        count_clear_in_scale w c.original_replicas,
        count_clear_in_wait w c.touched,
        count_of_Distinct w c.fault_services clean.faults_once,
        collect-faults no_changes es w,
      ),
      ground (
        arith,
        split (scale_step (w, n)),
        count_scale_in_clear (w, n) c.fault_services,
        count-scale w n c.original_replicas clean.keys_once,
        count_scale_in_wait (w, n) c.touched,
        collect-original no_changes es w,
      ),
      ground (
        arith,
        split (wait_step w),
        count_wait_in_clear w c.fault_services,
        count_wait_in_scale w c.original_replicas,
        count-wait w c.touched,
        count_of_Distinct w c.touched clean.touched_once,
        collect-touched no_changes es w,
      ),
    )
