-- ===== src/Common/Sort.antt =====
-- Python's `sorted`, which is stable, and the order of texts.
use Prim.Native.Nat.{Ordering}
use Prim.Native.String.{compare}
use kubernetes_distributed_t.Common.Tests.{Eq, if◌then◌else◌, nat_eq, option_eq, string_eq}
use kubernetes_distributed_t.Common.Lists.{contains, count}
use Prim.Native.String.{String}
use mathlib.Core.Path.{◌≡◌, refl}
use mathlib.Core.Bool.{Bool, true, false}
use mathlib.Core.List.{List, [], ◌∷◌}
use native.Mathlib.Omega.{arith}

-- Texts compare by code points.
abbrev pub str_leb : String → String → Bool
str_leb s t = elim (compare s t) [ Ordering.gt ↦ false | _ ↦ true ]

module _ {ℓ} {A : Type ℓ} (le : A → A → Bool) where
  unfoldable pub insert_sorted : A → List A → List A
  insert_sorted x [] = x ∷ []
  insert_sorted x (y ∷ ys) = if le x y then x ∷ (y ∷ ys) else y ∷ insert_sorted x ys

  unfoldable pub sort_by : List A → List A
  unfolding insert_sorted
  sort_by [] = []
  sort_by (x ∷ xs) = insert_sorted x (sort_by xs)

  -- Each element stands above the next.
  abbrev pub IsSortedBy : List A → Type 0
  IsSortedBy [] = Unit
  IsSortedBy (x ∷ []) = Unit
  IsSortedBy (x ∷ y ∷ ys) = (le x y ≡ true) × IsSortedBy (y ∷ ys)

  module _ (total : (x y : A) → le x y ≡ false → le y x ≡ true) where
    insert_sorted-IsSortedBy :
        (x : A) (ys : List A) → IsSortedBy ys → IsSortedBy (insert_sorted x ys)
    unfolding insert_sorted
    insert_sorted-IsSortedBy x [] h = tt
    insert_sorted-IsSortedBy x (y ∷ []) h = ground (arith, total x y)
    insert_sorted-IsSortedBy x (y ∷ z ∷ zs) h =
        ground (arith, total x y, insert_sorted-IsSortedBy x (z ∷ zs) h.1)

    pub sort_by-IsSortedBy : (xs : List A) → IsSortedBy (sort_by xs)
    unfolding sort_by
    sort_by-IsSortedBy [] = tt
    sort_by-IsSortedBy (x ∷ xs) = insert_sorted-IsSortedBy x (sort_by xs) (sort_by-IsSortedBy xs)

module _ {ℓ} {A : Type ℓ} ⦃e : Eq A⦄ (le : A → A → Bool) where
  count-insert_sorted : (a x : A) (ys : List A) → count a (insert_sorted le x ys) ≡ count a (x ∷ ys)
  unfolding insert_sorted
  count-insert_sorted a x [] = refl
  count-insert_sorted a x (y ∷ ys) = ground (arith, count-insert_sorted a x ys)

  -- Sorting keeps each element as often as it was there.
  pub count-sort_by : (a : A) (xs : List A) → count a (sort_by le xs) ≡ count a xs
  unfolding sort_by
  count-sort_by a [] = refl
  count-sort_by a (x ∷ xs) =
      ground (arith, count-insert_sorted a x (sort_by le xs), count-sort_by a xs)

  contains-insert_sorted :
      (a x : A) (ys : List A) → contains (insert_sorted le x ys) a ≡ contains (x ∷ ys) a
  unfolding insert_sorted
  contains-insert_sorted a x [] = refl
  contains-insert_sorted a x (y ∷ ys) = ground (arith, contains-insert_sorted a x ys)

  pub contains-sort_by : (a : A) (xs : List A) → contains (sort_by le xs) a ≡ contains xs a
  unfolding sort_by
  contains-sort_by a [] = refl
  contains-sort_by a (x ∷ xs) =
      ground (arith, contains-insert_sorted a x (sort_by le xs), contains-sort_by a xs)

-- `sorted(texts)`
unfoldable pub sorted : List String → List String
unfolding sort_by
sorted = sort_by str_leb

pub contains-sorted : (a : String) (xs : List String) → contains (sorted xs) a ≡ contains xs a
unfolding sorted
contains-sorted a xs = contains-sort_by str_leb a xs
