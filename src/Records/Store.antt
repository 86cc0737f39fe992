-- ===== src/Records/Store.antt =====
-- Which runs are found to be unrestored.
-- Every record stands under its run's id.
use kubernetes_distributed_t.Records.{
  RunRecord, sorted_names, unrestored_of, unrestored_runs, if_unrestored,
}
use kubernetes_distributed_t.Common.{
  sym, subst, refl, eq_iff, ◌==◌, Bool-cases, List, String, [], arith, contains, false, inl, inr,
  map, nat_eq, option_eq, some, string_eq, true, ◌∷◌, ◌≡◌, ◌⊎◌, Option, ◌++◌, ◌∙◌,
}
use kubernetes_distributed_t.Common.Dict.{Dict, keys, lookup}
use kubernetes_distributed_t.Common.Sort.{contains-sort_by, str_leb}

pub record WellKept (store : Dict String RunRecord) : Type 0 where
  pub own_id : (name : String) (r : RunRecord) → lookup name store ≡ some r → r.run_id ≡ name

abbrev pub ids : List RunRecord → List String
ids rs = map (λ r. r.run_id) rs

lookup-keys :
    (name : String) (store : Dict String RunRecord) (r : RunRecord)
    → lookup name store ≡ some r
    → contains (keys store) name ≡ true
lookup-keys name [] r h = absurd (cc)
lookup-keys name ((k, v) ∷ store) r h = ground (arith, lookup-keys name store r)

ids_right :
    (name : String) (xs ys : List RunRecord)
    → contains (ids ys) name ≡ true
    → contains (ids (xs ++ ys)) name ≡ true
ids_right name [] ys h = h
ids_right name (x ∷ xs) ys h = ground (arith, ids_right name xs ys h)

first_unrestored :
    (o : Option RunRecord) (rest : List RunRecord) (r : RunRecord) (name : String)
    → o ≡ some r
    → r.restored ≡ false
    → r.run_id ≡ name
    → contains (ids (if_unrestored o ++ rest)) name ≡ true
first_unrestored o rest r name found unrestored same =
    rw (found, unrestored, (eq_iff r.run_id name).1 same) refl

found_unrestored :
    (store : Dict String RunRecord) (name : String) (r : RunRecord)
    → lookup name store ≡ some r
    → r.restored ≡ false
    → r.run_id ≡ name
    → (names : List String) → contains names name ≡ true
    → contains (ids (unrestored_of store names)) name ≡ true
unfolding unrestored_of
found_unrestored store name r found open_run same [] h = cc
found_unrestored store name r found open_run same (other ∷ names) h =
    elim (Bool-cases (other == name)) [
      | inl here ↦
          first_unrestored (lookup other store) (unrestored_of store names) r name
            (subst (λ k. lookup k store ≡ some r) (sym ((eq_iff other name).0 here)) found) open_run
            same
      | inr later ↦
          ids_right name (if_unrestored (lookup other store)) (unrestored_of store names)
            (found_unrestored store name r found open_run same names (ground arith))
    ]

-- A run on disk is restored, or it is among the unrestored runs.
pub unrestored_runs_lem :
    (store : Dict String RunRecord) (name : String) (r : RunRecord)
    → WellKept store
    → lookup name store ≡ some r
    → (r.restored ≡ true) ⊎ (contains (ids (unrestored_runs store)) name ≡ true)
unfolding unrestored_runs
unrestored_runs_lem store name r kept found = elim (Bool-cases r.restored) [
  | inl done ↦ inl done
  | inr open_run ↦ inr (
      found_unrestored store name r found open_run (kept.own_id name r found) (sorted_names store)
        (contains-sort_by str_leb name (keys store) ∙ lookup-keys name store r found))
]
