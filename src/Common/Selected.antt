-- ===== src/Common/Selected.antt =====
-- What a Python comprehension `[f(x) for x in xs if p(x)]` selects, as a relation.
use mathlib.Core.Path.{◌≡◌, refl, subst}
use mathlib.Core.Logic.{◌↔◌, inl, inr}
use mathlib.Core.Bool.{Bool, true}
use mathlib.Core.List.{List, [], ◌∷◌, map}
use native.Mathlib.Omega.{arith}
use kubernetes_distributed_t.Common.Tests.{Bool-cases, Eq}
use kubernetes_distributed_t.Common.Lists.{filter}
use kubernetes_distributed_t.Common.{◌∙◌, ◌&&◌, ◌⊎◌, sym, contains}

module _ {A B : Type 0} where
  -- The values of the elements with `P`, in their order.
  pub data Selected (P : A → Type 0) (f : A → B) : List A → List B → Type 0 where
    nothing : Selected P f [] []
    taken :
        {x : A} {xs : List A} {ys : List B}
        → P x
        → Selected P f xs ys
        → Selected P f (x ∷ xs) (f x ∷ ys)
    skipped :
        {x : A} {xs : List A} {ys : List B} → ¬ P x → Selected P f xs ys → Selected P f (x ∷ xs) ys

  module _ {P : A → Type 0} (f : A → B) (p : A → Bool)
      (decides : (x : A) → (p x ≡ true) ↔ P x) where
    pub filter-Selected : (xs : List A) → Selected P f xs (map f (filter p xs))
    filter-Selected [] = nothing
    filter-Selected (x ∷ xs) = elim (Bool-cases (p x)) [
      | inl holds ↦ rw holds (taken ((decides x).0 holds) (filter-Selected xs))
      | inr fails ↦
          rw fails
            (skipped (λ h. absurd (ground (arith, (decides x).1 h, fails))) (filter-Selected xs))
    ]

    pub Selected-filter :
        {xs : List A} {ys : List B} → Selected P f xs ys → map f (filter p xs) ≡ ys
    Selected-filter nothing = refl
    Selected-filter (taken {x} h rest) = rw ((decides x).1 h) (rw (Selected-filter rest) refl)
    Selected-filter (skipped {x} h rest) = elim (Bool-cases (p x)) [
      | inl holds ↦ absurd (h ((decides x).0 holds))
      | inr fails ↦ rw fails (Selected-filter rest)
    ]

    pub Selected_iff : (xs : List A) (ys : List B) → (map f (filter p xs) ≡ ys) ↔ Selected P f xs ys
    Selected_iff xs ys =
        (λ e. subst (Selected P f xs) e (filter-Selected xs), λ s. Selected-filter s)

module _ {A : Type 0} where
  -- `[x for x in xs if p(x)]`
  abbrev pub Chosen : (A → Type 0) → List A → List A → Type 0
  Chosen P xs ys = Selected P (λ x. x) xs ys

  map_same : (xs : List A) → map (λ x. x) xs ≡ xs
  map_same [] = refl
  map_same (x ∷ xs) = rw (map_same xs) refl

  pub filter-Chosen_iff :
      {P : A → Type 0} (p : A → Bool)
      → ((x : A) → (p x ≡ true) ↔ P x)
      → (xs ys : List A) → (filter p xs ≡ ys) ↔ Chosen P xs ys
  filter-Chosen_iff p decides xs ys =
      let (to, from) = Selected_iff (λ x. x) p decides xs ys in
      (λ e. to (map_same (filter p xs) ∙ e), λ s. sym (map_same (filter p xs)) ∙ from s)

  pub filter-filter :
      (p q : A → Bool) (xs : List A) → filter p (filter q xs) ≡ filter (λ x. q x && p x) xs
  filter-filter p q [] = refl
  filter-filter p q (x ∷ xs) = ground (arith, filter-filter p q xs)

  -- Some element has `P`.
  abbrev pub Some : (A → Type 0) → List A → Type 0
  Some P [] = ⊥
  Some P (x ∷ xs) = P x ⊎ Some P xs

  pub contains-filter_iff :
      {K : Type 0} ⦃e : Eq K⦄ {P : A → Type 0} (key : A → K) (p : A → Bool)
      → ((x : A) → (p x ≡ true) ↔ P x)
      → (xs : List A) (k : K)
      → (contains (map key (filter p xs)) k ≡ true) ↔ Some (λ x. (key x ≡ k) × P x) xs
  contains-filter_iff key p decides [] k = (λ h. cc, λ h. absurd h)
  contains-filter_iff ⦃e = e⦄ key p decides (x ∷ xs) k =
      ground (arith, contains-filter_iff ⦃e = e⦄ key p decides xs k, decides x, e.beq_iff (key x) k)

  pub contains-map_iff :
      {K : Type 0} ⦃e : Eq K⦄ (key : A → K) (xs : List A) (k : K)
      → (contains (map key xs) k ≡ true) ↔ Some (λ x. key x ≡ k) xs
  contains-map_iff key [] k = (λ h. cc, λ h. absurd h)
  contains-map_iff ⦃e = e⦄ key (x ∷ xs) k =
      ground (arith, contains-map_iff ⦃e = e⦄ key xs k, e.beq_iff (key x) k)
