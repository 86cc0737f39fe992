-- ===== src/Common/Lists.antt =====
-- Lists measured by native numbers, and Python's `any`, `all`, `in`, filters and membership.
use Prim.Native.Nat.{ℕ, zero, suc, ◌+◌, ◌<◌}
use mathlib.Core.Path.{◌≡◌, refl}
use mathlib.Core.Logic.{◌⊎◌, inl, inr, ◌↔◌}
use mathlib.Core.Bool.{Bool, true, false, ◌&&◌, ◌||◌}
use mathlib.Core.Option.{Option, none, some}
use mathlib.Core.List.{List, [], ◌∷◌, ◌++◌, map}
use native.Mathlib.Omega.{arith}
use kubernetes_distributed_t.Common.Tests.{Eq, Bool-cases, ◌==◌, if◌then◌else◌}

module _ {ℓ} {A : Type ℓ} where
  abbrev pub length : List A → ℕ
  length [] = 0
  length (x ∷ xs) = suc (length xs)

  -- Truthiness of a list.
  abbrev pub is_empty : List A → Bool
  is_empty [] = true
  is_empty (x ∷ xs) = false

  abbrev pub any : (A → Bool) → List A → Bool
  any p [] = false
  any p (x ∷ xs) = p x || any p xs

  abbrev pub all : (A → Bool) → List A → Bool
  all p [] = true
  all p (x ∷ xs) = p x && all p xs

  -- `[x for x in xs if p(x)]`
  abbrev pub filter : (A → Bool) → List A → List A
  filter p [] = []
  filter p (x ∷ xs) = let rest = filter p xs in if p x then x ∷ rest else rest

  -- `xs[:n]`
  abbrev pub take : ℕ → List A → List A
  take zero xs = []
  take (suc n) [] = []
  take (suc n) (x ∷ xs) = x ∷ take n xs

  -- `xs[-1]`, where there is one
  abbrev pub last : List A → Option A
  last [] = none
  last (x ∷ []) = some x
  last (x ∷ y ∷ ys) = last (y ∷ ys)

  abbrev pub All {κ} : (A → Type κ) → List A → Type κ
  All P [] = Unit
  All P (x ∷ xs) = P x × All P xs

  pub length-append : (xs ys : List A) → length (xs ++ ys) ≡ length xs + length ys
  length-append [] ys = omega arith
  length-append (x ∷ xs) ys = omega (arith, length-append xs ys)

  pub append_nil_iff : (xs ys : List A) → (xs ++ ys ≡ []) ↔ ((xs ≡ []) × (ys ≡ []))
  append_nil_iff [] ys = ground arith
  append_nil_iff (x ∷ xs) ys = ground arith

  pub All-append {κ} : (Q : A → Type κ) (us vs : List A) → All Q us → All Q vs → All Q (us ++ vs)
  All-append Q [] vs left right = right
  All-append Q (u ∷ us) vs left right = (left.0, All-append Q us vs left.1 right)

pub is_empty_iff : {A : Type 0} (xs : List A) → (is_empty xs ≡ true) ↔ (xs ≡ [])
is_empty_iff [] = ground arith
is_empty_iff (x ∷ xs) = ground arith

pub all_iff :
    {A : Type 0} (p : A → Bool) (xs : List A) → (all p xs ≡ true) ↔ All (λ x. p x ≡ true) xs
all_iff p [] = ground arith
all_iff p (x ∷ xs) = ground (arith, all_iff p xs)

pub map_nil_iff : {A B : Type 0} (f : A → B) (xs : List A) → (map f xs ≡ []) ↔ (xs ≡ [])
map_nil_iff f [] = ground arith
map_nil_iff f (x ∷ xs) = ground arith

module _ {ℓ} {A : Type ℓ} where
  pub append-All {κ} : (Q : A → Type κ) (us vs : List A) → All Q (us ++ vs) → All Q us × All Q vs
  append-All Q [] vs h = (tt, h)
  append-All Q (u ∷ us) vs (here, h) =
      let (left, right) = append-All Q us vs h in ((here, left), right)

module _ {A : Type 0} where
  -- Membership, with the position kept.
  abbrev pub In : A → List A → Type 0
  In a [] = ⊥
  In a (x ∷ xs) = (a ≡ x) ⊎ In a xs

  pub In-append_left : (a : A) (xs ys : List A) → In a xs → In a (xs ++ ys)
  In-append_left a [] ys m = absurd m
  In-append_left a (x ∷ xs) ys (inl e) = inl e
  In-append_left a (x ∷ xs) ys (inr m) = inr (In-append_left a xs ys m)

  pub In-append_right : (a : A) (xs ys : List A) → In a ys → In a (xs ++ ys)
  In-append_right a [] ys m = m
  In-append_right a (x ∷ xs) ys m = inr (In-append_right a xs ys m)

  pub In-append : (a : A) (xs ys : List A) → In a (xs ++ ys) → In a xs ⊎ In a ys
  In-append a [] ys m = inr m
  In-append a (x ∷ xs) ys (inl e) = inl (inl e)
  In-append a (x ∷ xs) ys (inr m) = elim (In-append a xs ys m) [
    | inl l ↦ inl (inr l)
    | inr r ↦ inr r
  ]

module _ {ℓ} {A : Type ℓ} ⦃e : Eq A⦄ where
  -- `a in xs`
  abbrev pub contains : List A → A → Bool
  contains [] a = false
  contains (x ∷ xs) a = x == a || contains xs a

  -- How often `a` stands in `xs`.
  abbrev pub count : A → List A → ℕ
  count a [] = 0
  count a (x ∷ xs) = let rest = count a xs in if x == a then suc rest else rest

module _ {A : Type 0} ⦃e : Eq A⦄ where
  pub contains_iff : (a : A) (xs : List A) → (contains xs a ≡ true) ↔ In a xs
  contains_iff a [] = (λ h. cc, λ h. absurd h)
  contains_iff a (x ∷ xs) = ground (arith, contains_iff a xs, e.beq_iff x a)

module _ {ℓ} {A : Type ℓ} ⦃e : Eq A⦄ where
  pub contains-append :
      (a : A) (xs ys : List A) → contains (xs ++ ys) a ≡ (contains xs a || contains ys a)
  contains-append a [] ys = refl
  contains-append a (x ∷ xs) ys = ground (arith, contains-append a xs ys)

  pub count-append : (a : A) (xs ys : List A) → count a (xs ++ ys) ≡ count a xs + count a ys
  count-append a [] ys = omega arith
  count-append a (x ∷ xs) ys = ground (arith, count-append a xs ys)

  pub count-contains : (a : A) (xs : List A) → (contains xs a ≡ true) ↔ (0 < count a xs)
  count-contains a [] = ground arith
  count-contains a (x ∷ xs) = ground (arith, count-contains a xs)

  -- Every element stands once.
  abbrev pub Distinct : List A → Type 0
  Distinct [] = Unit
  Distinct (x ∷ xs) = (contains xs x ≡ false) × Distinct xs

  pub count_of_Distinct :
      (a : A) (xs : List A) → Distinct xs → count a xs ≡ (if contains xs a then 1 else 0)
  count_of_Distinct a [] d = refl
  count_of_Distinct a (x ∷ xs) (fresh, d) = ground (arith, count_of_Distinct a xs d, e.beq_iff x a)

  -- `if x not in xs: xs.append(x)`
  abbrev pub append_new : A → List A → List A
  append_new x xs = if contains xs x then xs else xs ++ x ∷ []

  contains-snoc : (a x : A) (xs : List A) → contains (xs ++ x ∷ []) a ≡ (contains xs a || x == a)
  contains-snoc a x [] = ground arith
  contains-snoc a x (y ∷ xs) = ground (arith, contains-snoc a x xs)

  snoc-Distinct :
      (x : A) (xs : List A) → contains xs x ≡ false → Distinct xs → Distinct (xs ++ x ∷ [])
  snoc-Distinct x [] h d = (refl, tt)
  snoc-Distinct x (y ∷ xs) h (fresh, d) =
      ground (arith, contains-snoc y x xs, snoc-Distinct x xs, e.beq_iff x y, e.beq_iff y x)

  pub contains-append_new :
      (a x : A) (xs : List A) → contains (append_new x xs) a ≡ (contains xs a || x == a)
  contains-append_new a x xs = ground (arith, contains-snoc a x xs, e.beq_iff x a)

  pub append_new-Distinct : (x : A) (xs : List A) → Distinct xs → Distinct (append_new x xs)
  append_new-Distinct x xs d = elim (Bool-cases (contains xs x)) [
    | inl old ↦ rw old d
    | inr new ↦ rw new (snoc-Distinct x xs new d)
  ]

  pub append_new_old : (x : A) (xs : List A) → contains xs x ≡ true → append_new x xs ≡ xs
  append_new_old x xs h = rw h

module _ {ℓ} {A : Type ℓ} ⦃test : Eq A⦄ where
  abbrev pub list_beq : List A → List A → Bool
  list_beq [] [] = true
  list_beq (x ∷ xs) (y ∷ ys) = x == y && list_beq xs ys
  list_beq _ _ = false

  pub list_beq_iff : (xs ys : List A) → (list_beq xs ys ≡ true) ↔ (xs ≡ ys)
  list_beq_iff [] [] = ground arith
  list_beq_iff [] (y ∷ ys) = ground arith
  list_beq_iff (x ∷ xs) [] = ground arith
  list_beq_iff (x ∷ xs) (y ∷ ys) = ground (arith, list_beq_iff xs ys, test.beq_iff x y)

instance abbrev pub list_eq {ℓ} : {A : Type ℓ} ⦃test : Eq A⦄ → Eq (List A)
list_eq = record { beq = list_beq; beq_iff = list_beq_iff }

module _ {A : Type 0} {B : Type 0} ⦃e : Eq B⦄ where
  -- What a filter leaves was there before.
  pub contains-map-filter :
      (f : A → B) (p : A → Bool) (xs : List A) (b : B)
      → contains (map f (filter p xs)) b ≡ true
      → contains (map f xs) b ≡ true
  contains-map-filter f p [] b h = h
  contains-map-filter f p (x ∷ xs) b h = ground (arith, contains-map-filter f p xs b)
