-- ===== src/Journal/Replay.antt =====
-- Entries that repeat what the journal already says change nothing in the plan.
use kubernetes_distributed_t.Common.{
  string_eq, nat_eq, option_eq, All, Bool, In, List, String, [], append_new_old, arith, contains,
  contains-append_new, eq_iff, inl, inr, is_some, refl, true, ◌&&◌, ◌++◌, ◌∷◌, ◌≡◌,
}
use kubernetes_distributed_t.Common.Dict.{lookup, lookup-set_default, set_default_old}
use kubernetes_distributed_t.Journal.{
  Changes, Entry, collect, delete_pod, no_changes, other, restore_plan, rollout_restart, visit,
}

-- The collections already hold all that the entry would add.
abbrev known : Changes → Entry → Bool
known c (Entry.fault s _ _ _) = contains c.fault_services s && contains c.touched s
known c (Entry.scale w _ _) = is_some (lookup w c.original_replicas) && contains c.touched w
known c (rollout_restart w) = contains c.touched w
known c (delete_pod w _ _) = contains c.touched w
known c (other _ _) = true

visit_known : (c : Changes) (e : Entry) → known c e ≡ true → visit c e ≡ c
unfolding visit
visit_known c (Entry.fault s p o m) h =
    ground (arith, append_new_old s c.fault_services, append_new_old s c.touched)
visit_known c (Entry.scale w n r) h =
    ground (arith, append_new_old w c.touched, set_default_old w n c.original_replicas)
visit_known c (rollout_restart w) h = ground (arith, append_new_old w c.touched)
visit_known c (delete_pod w p u) h = ground (arith, append_new_old w c.touched)
visit_known c (other k w) h = refl

collect_known : (c : Changes) (fs : List Entry) → All (λ e. known c e ≡ true) fs → collect c fs ≡ c
unfolding collect
collect_known c [] h = refl
collect_known c (f ∷ fs) h = rw (visit_known c f h.0) (collect_known c fs h.1)

-- Once in, for good.
contains_later :
    (c : Changes) (f : Entry) (w : String)
    → (contains c.fault_services w ≡ true → contains (visit c f).fault_services w ≡ true)
      × (contains c.touched w ≡ true → contains (visit c f).touched w ≡ true)
      × (is_some (lookup w c.original_replicas) ≡ true
          → is_some (lookup w (visit c f).original_replicas) ≡ true)
unfolding visit
contains_later c (Entry.fault s p o m) w =
    ground (arith, contains-append_new w s c.fault_services, contains-append_new w s c.touched)
contains_later c (Entry.scale v n r) w =
    ground (arith, contains-append_new w v c.touched, lookup-set_default v w n c.original_replicas)
contains_later c (rollout_restart v) w = ground (arith, contains-append_new w v c.touched)
contains_later c (delete_pod v p u) w = ground (arith, contains-append_new w v c.touched)
contains_later c (other k v) w = ground arith

known_later : (c : Changes) (e f : Entry) → known c e ≡ true → known (visit c f) e ≡ true
known_later c (Entry.fault s p o m) f h = ground (arith, contains_later c f s)
known_later c (Entry.scale w n r) f h = ground (arith, contains_later c f w)
known_later c (rollout_restart w) f h = (contains_later c f w).1 h
known_later c (delete_pod w p u) f h = (contains_later c f w).1 h
known_later c (other k w) f h = refl

known-visit : (c : Changes) (e : Entry) → known (visit c e) e ≡ true
unfolding visit
known-visit c (Entry.fault s p o m) =
    ground (
      arith,
      contains-append_new s s c.fault_services,
      contains-append_new s s c.touched,
      eq_iff s s,
    )
known-visit c (Entry.scale w n r) = ground (
  arith,
  contains-append_new w w c.touched,
  lookup-set_default w w n c.original_replicas,
  eq_iff w w,
)
known-visit c (rollout_restart w) = ground (arith, contains-append_new w w c.touched, eq_iff w w)
known-visit c (delete_pod w p u) = ground (arith, contains-append_new w w c.touched, eq_iff w w)
known-visit c (other k w) = refl

known-collect :
    (c : Changes) (e : Entry) (es : List Entry) → known c e ≡ true → known (collect c es) e ≡ true
unfolding collect
known-collect c e [] h = h
known-collect c e (f ∷ es) h = known-collect (visit c f) e es (known_later c e f h)

known_of_In : (c : Changes) (e : Entry) (es : List Entry) → In e es → known (collect c es) e ≡ true
unfolding collect
known_of_In c e [] m = absurd m
known_of_In c e (f ∷ es) (inl p) = known-collect (visit c f) e es (rw p (known-visit c f))
known_of_In c e (f ∷ es) (inr m) = known_of_In (visit c f) e es m

All-known :
    (c : Changes) (es fs : List Entry)
    → All (λ f. In f es) fs
    → All (λ f. known (collect c es) f ≡ true) fs
All-known c es [] h = tt
All-known c es (f ∷ fs) h = (known_of_In c f es h.0, All-known c es fs h.1)

collect-append :
    (c : Changes) (es fs : List Entry) → collect c (es ++ fs) ≡ collect (collect c es) fs
unfolding collect
collect-append c [] fs = refl
collect-append c (e ∷ es) fs = collect-append (visit c e) es fs

-- Lines that repeat earlier lines of the journal, in any order and number, leave the plan as it is.
pub restore_plan_again :
    (es fs : List Entry) → All (λ f. In f es) fs → restore_plan (es ++ fs) ≡ restore_plan es
unfolding restore_plan
restore_plan_again es fs h =
    rw (collect-append no_changes es fs)
      (rw (collect_known (collect no_changes es) fs (All-known no_changes es fs h)))
