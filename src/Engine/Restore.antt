-- ===== src/Engine/Restore.antt =====
-- Restoring undoes every journaled change.
use kubernetes_distributed_t.Common.{
  Bool-cases, List, Option-cases, String, [], all, any, ap, arith, contains, eq_iff, inl, inr, map,
  nat_eq, none, option_eq, refl, some, string_eq, sym, true, ℕ, ◌++◌, ◌==◌, ◌∙◌, ◌∷◌, ◌≡◌, ◌≢◌, ◌⊎◌,
}
use kubernetes_distributed_t.Common.Exec.{
  Exec, Keeps, Result, and_then, api_error, bind-Keeps, bind-eq-ok, for_each, ok, pure, pure-Keeps,
  raised, ◌>>◌,
}
use kubernetes_distributed_t.Common.Dict.{Dict, NodupKeys, lookup}
use kubernetes_distributed_t.Journal.{
  clear_step, collect, no_changes, restore_plan, scale_step, wait_step,
}
use kubernetes_distributed_t.Control.{Cluster, World, Op}
use kubernetes_distributed_t.Journal.Plan.{
  first_original, is_fault_of, or_else, collect-original, collect-faults, collect-IsClean,
  nothing_yet,
}
use kubernetes_distributed_t.Control
use kubernetes_distributed_t.Control.Laws.{IsKubernetes}
use kubernetes_distributed_t.Control.Recovery.{IsJournaled}
use kubernetes_distributed_t.Control.Faults.{
  IsCalm, IsCalm-refl, clear_faults-IsCalm, wait_rollout_complete-IsCalm, clear_faults_clean,
}
use kubernetes_distributed_t.Engine.{restore_step, restore}

module _ {S : Type 0} where
  and_then_assoc :
      (r : Result (Unit {0})) (s : S) (f g h : Exec S (Unit {0}))
      → ((t : S) → f t ≡ (g >> h) t)
      → and_then r (λ _. f) s ≡ ((λ t. and_then r (λ _. g) t) >> h) s
  and_then_assoc (ok a) s f g h e = e s
  and_then_assoc (raised x) s f g h e = refl

  for_each-append :
      {A : Type 0} (xs ys : List A) (body : A → Exec S (Unit {0})) (s : S)
      → for_each (xs ++ ys) body s ≡ (for_each xs body >> for_each ys body) s
  unfolding for_each
  for_each-append [] ys body s = refl
  for_each-append (x ∷ xs) ys body s =
      and_then_assoc (body x s).0 (body x s).1 (for_each (xs ++ ys) body) (for_each xs body)
        (for_each ys body) (for_each-append xs ys body)

  -- If the loop succeeded, so did each half of it.
  for_each-append-ok :
      {A : Type 0} (xs ys : List A) (body : A → Exec S (Unit {0})) (s : S)
      → (for_each (xs ++ ys) body s).0 ≡ ok tt
      → ((for_each xs body s).0 ≡ ok tt)
        × ((for_each ys body (for_each xs body s).1).0 ≡ ok tt)
        × ((for_each (xs ++ ys) body s).1 ≡ (for_each ys body (for_each xs body s).1).1)
  for_each-append-ok xs ys body s h =
      let whole = for_each-append xs ys body s in
      let (a, first, second, state) =
        bind-eq-ok (for_each xs body) (λ _. for_each ys body) s (rw whole at h) in
      (first, second, ap (λ (r : Result (Unit {0}) × S). r.1) whole ∙ state)

module _ (c : Cluster) (k : IsKubernetes c) where
  open k use {scale_of, rules_of, owner}

  clear_step-IsCalm :
      (start : World c.State) (v : String)
      → Keeps (IsCalm c k start) (restore_step c (clear_step v))
  unfolding restore_step
  clear_step-IsCalm start v =
      bind-Keeps (Control.clear_faults c v) _ (clear_faults-IsCalm c k start v) (λ n. pure-Keeps tt)

  clear_steps-IsCalm :
      (start : World c.State) (l : List String)
      → Keeps (IsCalm c k start) (for_each (map clear_step l) (restore_step c))
  unfolding for_each
  clear_steps-IsCalm start [] = pure-Keeps tt
  clear_steps-IsCalm start (v ∷ l) =
      bind-Keeps (restore_step c (clear_step v)) _ (clear_step-IsCalm start v)
        (λ _. clear_steps-IsCalm start l)

  wait_steps-IsCalm :
      (start : World c.State) (l : List String)
      → Keeps (IsCalm c k start) (for_each (map wait_step l) (restore_step c))
  unfolding for_each restore_step
  wait_steps-IsCalm start [] = pure-Keeps tt
  wait_steps-IsCalm start (v ∷ l) =
      bind-Keeps (Control.wait_rollout_complete c v) _ (wait_rollout_complete-IsCalm c k start v)
        (λ _. wait_steps-IsCalm start l)

  clear_step-rules :
      (v : String) (w : World c.State) (p : String)
      → (restore_step c (clear_step v) w).0 ≡ ok tt
      → owner p ≡ v
      → rules_of (restore_step c (clear_step v) w).1.cluster p ≡ []
  unfolding restore_step
  clear_step-rules v w p h own =
      let (n, cleared, answer, state) = bind-eq-ok (Control.clear_faults c v) (λ _. pure tt) w h in
      ap (λ (u : World c.State). rules_of u.cluster p) state
      ∙ clear_faults_clean c k v w n p cleared own

  -- The first part of the plan: a pod of a cleared service ends without rules.
  clear_steps-rules :
      (l : List String) (w : World c.State) (p : String)
      → (for_each (map clear_step l) (restore_step c) w).0 ≡ ok tt
      → (contains l (owner p) ≡ true) ⊎ (rules_of w.cluster p ≡ [])
      → rules_of (for_each (map clear_step l) (restore_step c) w).1.cluster p ≡ []
  unfolding for_each
  clear_steps-rules [] w p h (inl there) = cc
  clear_steps-rules [] w p h (inr clean) = clean
  clear_steps-rules (v ∷ l) w p h given =
      let (a, first, rest, state) =
        bind-eq-ok (restore_step c (clear_step v))
          (λ _. for_each (map clear_step l) (restore_step c)) w h in
      let w' = (restore_step c (clear_step v) w).1 in
      let next : (contains l (owner p) ≡ true) ⊎ (rules_of w'.cluster p ≡ []) = elim given [
        | inr clean ↦ inr (((clear_step-IsCalm w v).at w (IsCalm-refl c k w)).clean p clean)
        | inl there ↦ elim (Bool-cases (v == owner p)) [
          | inl same ↦ inr (clear_step-rules v w p first (sym ((eq_iff v (owner p)).0 same)))
          | inr differ ↦ inl (ground arith)
        ]
      ] in
      ap (λ (u : World c.State). rules_of u.cluster p) state ∙ clear_steps-rules l w' p rest next

  unless_missing-ok :
      (r : Result (Unit {0}))
      → Control.unless_missing c r ≡ ok tt
      → (r ≡ ok tt) ⊎ (r ≡ raised (api_error 404))
  unless_missing-ok (ok tt) h = inl refl
  unless_missing-ok (raised (api_error n)) h = inr (ground arith)
  unless_missing-ok (raised e) h = cc

  -- One scaling step that succeeds on a workload that is there.
  scale_step_lem :
      (v : String) (n : ℕ) (w : World c.State)
      → (restore_step c (scale_step (v, n)) w).0 ≡ ok tt
      → scale_of w.cluster v ≢ none
      → scale_of (restore_step c (scale_step (v, n)) w).1.cluster v ≡ some n
  unfolding restore_step Control.restore_replicas
  scale_step_lem v n w h there =
      k.patch_ok v n w.cluster (elim (unless_missing-ok (c.patch_scale v n w.cluster).0 h) [
        | inl done ↦ done
        | inr missing ↦ absurd (there (k.patch_missing v n w.cluster missing))
      ])

  scale_step_frame :
      (v : String) (n : ℕ) (w : World c.State)
      → ((u : String)
          → v ≢ u
          → scale_of (restore_step c (scale_step (v, n)) w).1.cluster u ≡ scale_of w.cluster u)
        × ((p : String)
            → rules_of w.cluster p ≡ []
            → rules_of (restore_step c (scale_step (v, n)) w).1.cluster p ≡ [])
  unfolding restore_step Control.restore_replicas
  scale_step_frame v n w = (k.patch_other v n w.cluster, k.patch_rules v n w.cluster)

  -- The second part of the plan: every listed workload has its listed count, the others are as
  -- they were.
  scale_steps_lem :
      (d : Dict String ℕ) (w : World c.State)
      → (for_each (map scale_step d) (restore_step c) w).0 ≡ ok tt
      → NodupKeys d
      → ((v : String) (n : ℕ) → lookup v d ≡ some n → scale_of w.cluster v ≢ none)
      → (v : String)
      → scale_of (for_each (map scale_step d) (restore_step c) w).1.cluster v
        ≡ or_else (lookup v d) (scale_of w.cluster v)
  unfolding for_each
  scale_steps_lem [] w h u there v = refl
  scale_steps_lem ((x, n) ∷ d) w h (fresh, u) there v =
      let (a, first, rest, state) =
        bind-eq-ok (restore_step c (scale_step (x, n)))
          (λ _. for_each (map scale_step d) (restore_step c)) w h in
      let w' = (restore_step c (scale_step (x, n)) w).1 in
      let now : scale_of w'.cluster x ≡ some n =
        scale_step_lem x n w first (there x n (ground (arith, eq_iff x x))) in
      let frame = (scale_step_frame x n w).0 in
      let later : (y : String) (m : ℕ) → lookup y d ≡ some m → scale_of w'.cluster y ≢ none =
        λ y m found gone.
          there y m (ground (arith, eq_iff x y))
            (sym (frame y (λ same. cc (fresh, found, ap (λ z. lookup z d) same))) ∙ gone) in
      let ih = scale_steps_lem d w' rest u later v in
      ap (λ (s : World c.State). scale_of s.cluster v) state
      ∙ (ih ∙ elim (Bool-cases (x == v)) [
        | inl same ↦ rw same (
            ground (
              arith,
              ap (λ z. lookup z d) ((eq_iff x v).0 same),
              ap (λ z. scale_of w'.cluster z) ((eq_iff x v).0 same),
              fresh,
              now,
            ))
        | inr differ ↦
            rw differ (ap (or_else (lookup v d)) (frame v (λ e. ground (arith, eq_iff x v))))
      ])

  scale_steps-rules :
      (d : Dict String ℕ) (w : World c.State) (p : String)
      → rules_of w.cluster p ≡ []
      → rules_of (for_each (map scale_step d) (restore_step c) w).1.cluster p ≡ []
  unfolding for_each
  scale_steps-rules [] w p h = h
  scale_steps-rules ((x, n) ∷ d) w p h =
      and_then-rules (restore_step c (scale_step (x, n)) w).0
        (restore_step c (scale_step (x, n)) w).1 ((scale_step_frame x n w).1 p h)
        (scale_steps-rules d (restore_step c (scale_step (x, n)) w).1 p)
    where
      and_then-rules :
          (r : Result (Unit {0})) (t : World c.State)
          → rules_of t.cluster p ≡ []
          → (rules_of t.cluster p ≡ []
              → rules_of (for_each (map scale_step d) (restore_step c) t).1.cluster p ≡ [])
          → rules_of (and_then r (λ _. for_each (map scale_step d) (restore_step c)) t).1.cluster p
            ≡ []
      and_then-rules (ok a) t now rest = rest now
      and_then-rules (raised e) t now rest = now

  -- From a journaled state, a restore that succeeds gives every workload the replica count that
  -- it had at the start, and leaves no fault rule on any pod.
  pub restore_undoes :
      (start : c.State) (w : World c.State)
      → IsJournaled c k start w
      → (restore c w).0 ≡ ok tt
      → ((v : String) → scale_of (restore c w).1.cluster v ≡ scale_of start v)
        × ((p : String) → rules_of (restore c w).1.cluster p ≡ [])
  unfolding restore restore_plan
  restore_undoes start w j h =
      let found = collect no_changes w.journal in
      let clears = map clear_step found.fault_services in
      let scales = map scale_step found.original_replicas in
      let waits = map wait_step found.touched in
      let (cleared, rest, all) = for_each-append-ok clears (scales ++ waits) (restore_step c) w h in
      let w1 = (for_each clears (restore_step c) w).1 in
      let (scaled, waited, after) = for_each-append-ok scales waits (restore_step c) w1 rest in
      let w2 = (for_each scales (restore_step c) w1).1 in
      let calm1 = (clear_steps-IsCalm w found.fault_services).at w (IsCalm-refl c k w) in
      let calm3 = (wait_steps-IsCalm w2 found.touched).at w2 (IsCalm-refl c k w2) in
      let final = all ∙ after in
      let clean = collect-IsClean no_changes w.journal nothing_yet in
      let recorded : (v : String) → lookup v found.original_replicas ≡ first_original v w.journal =
        collect-original no_changes w.journal in
      let there : (v : String) (n : ℕ)
          → lookup v found.original_replicas ≡ some n
          → scale_of w1.cluster v ≢ none =
        λ v n e gone.
          let o = j.original v n (sym (recorded v) ∙ e) in
          ground (arith, j.same_workloads v, o, calm1.counts v, gone) in
      (
        λ v.
            ap (λ (s : World c.State). scale_of s.cluster v) final
            ∙ (calm3.counts v
                ∙ (scale_steps_lem found.original_replicas w1 scaled clean.keys_once there v
                    ∙ elim (Option-cases (first_original v w.journal)) [
                      | inl never ↦
                          ground (arith, recorded v, never, calm1.counts v, j.unscaled v never)
                      | inr (n, first) ↦ ground (arith, recorded v, first, j.original v n first)
                    ])),
        λ p.
            ap (λ (s : World c.State). rules_of s.cluster p) final
            ∙ calm3.clean p (
                scale_steps-rules found.original_replicas w1 p (
                  clear_steps-rules found.fault_services w p cleared
                    (elim (Bool-cases (any (is_fault_of (owner p)) w.journal)) [
                      | inl faulted ↦ inl (collect-faults no_changes w.journal (owner p) ∙ faulted)
                      | inr never ↦ inr (j.faultless p never)
                    ]))),
      )
