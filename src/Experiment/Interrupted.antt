-- ===== src/Experiment/Interrupted.antt =====
-- What restoring the interrupted runs undoes, and what it leaves on disk.
use kubernetes_distributed_t.Experiment.Restoring.{
  restore_each, restore_interrupted_runs, no_longer_running, save_interrupted, restore,
}
use kubernetes_distributed_t.Experiment.{Phases, Run, call, save_record}
use kubernetes_distributed_t.Records.Store.{unrestored_runs_lem, WellKept, ids}
use kubernetes_distributed_t.Records.{unrestored_runs, RunRecord, is_running}
use kubernetes_distributed_t.Common.{
  arith, refl, sym, subst, ◌==◌, ◌∙◌, false, some, [], List, String, contains, if_holds, nat_eq,
  option_eq, string_eq, true, ◌∷◌, ◌≡◌, ◌⊎◌, inl, inr, ap, Bool-cases, eq_iff,
}
use kubernetes_distributed_t.Common.Dict.{lookup-insert, Dict, insert, lookup}
use kubernetes_distributed_t.Common.Exec.{bind-eq-ok, ok, ◌>>=◌, pure}

-- Every run on disk is restored, or its id is among these.
abbrev OpenOnly : List String → Dict String RunRecord → Type 0
OpenOnly names store =
    (name : String) (r : RunRecord)
    → lookup name store ≡ some r
    → (r.restored ≡ true) ⊎ (contains names name ≡ true)

contains_later :
    (first name : String) (names : List String)
    → (first == name) ≡ false
    → contains (first ∷ names) name ≡ true
    → contains names name ≡ true
contains_later first name names fresh listed = ground (arith, listed, fresh)

-- What is relied on of the undoing of one run's changes: where it returns, they are undone, and it
-- leaves undone what was undone of the other runs.
pub record IsUndoing {S : Type 0} (p : Phases S) (Undone : String → S → Type 0) : Type 0 where
  pub undone : (id : String) (s : S) → (p.restore id s).0 ≡ ok tt → Undone id (p.restore id s).1
  pub kept : (id other : String) (s : S) → Undone other s → Undone other (p.restore id s).1

-- From `before` to `after`, the changes of every run on disk that was not restored were undone, and
-- every record on disk says that it is restored.
pub record Recovered {S : Type 0} (Undone : String → S → Type 0) (before after : Run S)
    : Type 0 where
  pub changes_undone :
      (name : String) (r : RunRecord)
      → lookup name before.saved ≡ some r
      → r.restored ≡ false
      → Undone name after.outside
  pub says_restored :
      (name : String) (r : RunRecord) → lookup name after.saved ≡ some r → r.restored ≡ true

module _ {S : Type 0} (p : Phases S) where
  -- What is saved of a record.
  abbrev restored_record : RunRecord → RunRecord
  restored_record r = no_longer_running p (record r { restored = true })

  restored_record-is_restored : (r : RunRecord) → (restored_record r).restored ≡ true
  restored_record-is_restored r =
      if_holds (λ (x : RunRecord). x.restored ≡ true) (is_running r.status) _ _ (λ _. refl)
        (λ _. refl)

  restored_record-run_id : (r : RunRecord) → (restored_record r).run_id ≡ r.run_id
  restored_record-run_id r =
      if_holds (λ (x : RunRecord). x.run_id ≡ r.run_id) (is_running r.status) _ _ (λ _. refl)
        (λ _. refl)

  insert-OpenOnly :
      (r : RunRecord) (names : List String) (store : Dict String RunRecord)
      → OpenOnly (r.run_id ∷ names) store
      → OpenOnly names (insert (restored_record r).run_id (restored_record r) store)
  insert-OpenOnly r names store h name found e =
      let new = restored_record r in
      let listed_before =
        λ (other : (new.run_id == name) ≡ false) (listed : contains (r.run_id ∷ names) name ≡ true).
          let fresh : (r.run_id == name) ≡ false =
            subst (λ k. (k == name) ≡ false) (restored_record-run_id r) other in
          contains_later r.run_id name names fresh listed in
      if_holds (λ o. o ≡ some found → (found.restored ≡ true) ⊎ (contains names name ≡ true))
        (new.run_id == name) (some new) (lookup name store)
        (λ same looked.
          let here : new ≡ found = cc in
          inl (subst (λ (x : RunRecord). x.restored ≡ true) here (restored_record-is_restored r)))
        (λ other looked. elim (h name found looked) [
          | inl done ↦ inl done
          | inr listed ↦ inr (listed_before other listed)
        ])
        (sym (lookup-insert new.run_id name new store) ∙ e)

  -- One round of the loop that succeeds: the undoing returned, and the record is saved.
  restore_lem :
      (r : RunRecord) (w : Run S)
      → ((restore p r >>= save_interrupted p) w).0 ≡ ok tt
      → ((p.restore r.run_id w.outside).0 ≡ ok tt)
        × (((restore p r >>= save_interrupted p) w).1
            ≡ save_record (restored_record r) (call (p.restore r.run_id) w).1)
  unfolding restore
  restore_lem r w h =
      let said = λ (u : Unit {0}). pure {S = Run S} (record r { restored = true }) in
      let (x, went, saved, ends) = bind-eq-ok (restore p r) (save_interrupted p) w h in
      let (u, ran, made, left) = bind-eq-ok (call (p.restore r.run_id)) said w went in
      let same : record r { restored = true } ≡ x = ground (arith, made) in
      (
        ran,
        ends
            ∙ subst
                (λ y.
                  save_record (no_longer_running p y) (restore p r w).1
                  ≡ save_record (restored_record r) (call (p.restore r.run_id) w).1)
                same (ap (save_record (restored_record r)) left),
      )

  restore_each-OpenOnly :
      (rs : List RunRecord) (w : Run S)
      → OpenOnly (ids rs) w.saved
      → (restore_each p rs w).0 ≡ ok tt
      → OpenOnly [] (restore_each p rs w).1.saved
  unfolding restore_each
  restore_each-OpenOnly [] w h e = h
  restore_each-OpenOnly (r ∷ rs) w h e =
      let round = restore p r >>= save_interrupted p in
      let (u, ran, went, left) = bind-eq-ok round (λ _. restore_each p rs) w e in
      let saved = (restore_lem r w ran).1 in
      let after = (round w).1 in
      let open_now : OpenOnly (ids rs) after.saved =
        subst (λ (x : Run S). OpenOnly (ids rs) x.saved) (sym saved)
          (insert-OpenOnly r (ids rs) w.saved h) in
      subst (λ (x : Run S). OpenOnly [] x.saved) (sym left)
        (restore_each-OpenOnly rs after open_now went)

  module _ (Undone : String → S → Type 0) (k : IsUndoing p Undone) where
    restore_each-Undone :
        (rs : List RunRecord) (w : Run S) (name : String)
        → (contains (ids rs) name ≡ true) ⊎ Undone name w.outside
        → (restore_each p rs w).0 ≡ ok tt
        → Undone name (restore_each p rs w).1.outside
    unfolding restore_each
    restore_each-Undone [] w name (inl h) e = absurd (cc)
    restore_each-Undone [] w name (inr h) e = h
    restore_each-Undone (r ∷ rs) w name h e =
        let round = restore p r >>= save_interrupted p in
        let (u, ran, went, left) = bind-eq-ok round (λ _. restore_each p rs) w e in
        let (did, saved) = restore_lem r w ran in
        let outside = ap (λ (x : Run S). x.outside) saved in
        let carry = λ (o : Undone name (p.restore r.run_id w.outside).1).
          subst (Undone name) (sym outside) o in
        let now : (contains (ids rs) name ≡ true) ⊎ Undone name (round w).1.outside = elim h [
          | inl listed ↦ elim (Bool-cases (r.run_id == name)) [
            | inl here ↦ inr (
                carry (
                  subst (λ n. Undone n (p.restore r.run_id w.outside).1)
                    ((eq_iff r.run_id name).0 here) (k.undone r.run_id w.outside did)))
            | inr later ↦ inl (contains_later r.run_id name (ids rs) later listed)
          ]
          | inr before ↦ inr (carry (k.kept r.run_id name w.outside before))
        ] in
        subst (λ (x : Run S). Undone name x.outside) (sym left)
          (restore_each-Undone rs (round w).1 name now went)

    -- If restoring the interrupted runs succeeds, the changes of every run on disk that was not
    -- restored are undone then, and every record on disk says that it is restored, if each record
    -- stood under its own id, if the undoing of a run's changes, where it returns, has undone them,
    -- and if it leaves undone what was undone of other runs.
    pub restore_interrupted_runs-Recovered :
        (w : Run S)
        → WellKept w.saved
        → (restore_interrupted_runs p w).0 ≡ ok tt
        → Recovered Undone w (restore_interrupted_runs p w).1
    unfolding restore_interrupted_runs
    restore_interrupted_runs-Recovered w kept returned = record {
      changes_undone = λ name r found open_run.
          elim (unrestored_runs_lem w.saved name r kept found) [
            | inl done ↦ absurd (cc)
            | inr listed ↦
                restore_each-Undone (unrestored_runs w.saved) w name (inl listed) returned
          ];
      says_restored = λ name r found.
          elim (restore_each-OpenOnly (unrestored_runs w.saved) w
            (λ n x e. unrestored_runs_lem w.saved n x kept e) returned name r found) [
              | inl done ↦ done
              | inr listed ↦ absurd (cc)
            ];
    }
