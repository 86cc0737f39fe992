-- ===== src/Versions/Pins.antt =====
-- Splitting an accepted image, and putting it together again.
use mathlib.Core.List.{append_assoc}
use kubernetes_distributed_t.Versions.{name_problem, split_image, require_tag, last_part}
use kubernetes_distributed_t.Common.{
  List, [], arith, contains, false, nat_eq, none, option_eq, string_eq, subst, true, ℕ, ◌++◌, ◌∷◌,
  ◌≡◌, sym, Bool-cases, refl, inr, inl, some, ◌∙◌,
}
use kubernetes_distributed_t.Common.Texts.{
  rpartition-some, rpartition-append, rpartition-none, rpartition,
}

contains-slash :
    (c : ℕ) (xs ys : List ℕ) (sep : ℕ) → contains (xs ++ sep ∷ ys) c ≡ false → contains ys c ≡ false
contains-slash c [] ys sep h = ground arith
contains-slash c (x ∷ xs) ys sep h = contains-slash c xs ys sep (ground arith)

name_tagged :
    (name : List ℕ) → name_problem name ≡ none → contains name 64 ≡ false → contains name 58 ≡ true
name_tagged name h clear = ground arith

join_after :
    (before head tag : List ℕ) {name : List ℕ}
    → name ≡ head ++ 58 ∷ tag
    → before ++ name ≡ (before ++ head) ++ 58 ∷ tag
join_after before head tag same = rw same (sym (append_assoc before head (58 ∷ tag)))

split_join :
    (repository tag : List ℕ) {image : List ℕ}
    → image ≡ repository ++ 58 ∷ tag
    → contains tag 58 ≡ false
    → split_image image ≡ (repository, tag)
unfolding split_image
split_join repository tag same clear = rw (same, rpartition-append 58 repository tag clear) refl

-- The parts of an image: they make it up again, and the tag is no part of the registry's address.
abbrev pub Parted : List ℕ → List ℕ × List ℕ → Type 0
Parted image parts =
    (image ≡ parts.0 ++ 58 ∷ parts.1)
    × (contains parts.1 58 ≡ false)
    × (contains parts.1 47 ≡ false)

-- A name with a tag is split behind its last colon, whatever stands before it.
split_after :
    (before name : List ℕ)
    → contains name 58 ≡ true
    → contains name 47 ≡ false
    → Parted (before ++ name) (split_image (before ++ name))
split_after before name tagged clear =
    let (head, tag, same, no_colon) = rpartition-some 58 name tagged in
    let whole = join_after before head tag same in
    let no_slash =
      contains-slash 47 head tag 58 (subst (λ (n : List ℕ). contains n 47 ≡ false) same clear) in
    subst (Parted (before ++ name)) (sym (split_join (before ++ head) tag whole no_colon))
      (whole, no_colon, no_slash)

nested_after :
    (head name : List ℕ) {image : List ℕ}
    → image ≡ head ++ 47 ∷ name
    → contains name 47 ≡ false
    → contains image 64 ≡ false
    → name_problem (last_part image (rpartition 47 image)) ≡ none
    → Parted image (split_image image)
nested_after head name {image} same no_slash clear accepted =
    let found : rpartition 47 image ≡ some (head, name) =
      rw (same, rpartition-append 47 head name no_slash) refl in
    let fine = subst (λ o. name_problem (last_part image o) ≡ none) found accepted in
    let undigested =
      contains-slash 64 head name 47 (subst (λ (i : List ℕ). contains i 64 ≡ false) same clear) in
    let whole : image ≡ (head ++ 47 ∷ []) ++ name = same ∙ sym (append_assoc head (47 ∷ []) name) in
    subst (λ (i : List ℕ). Parted i (split_image i)) (sym whole)
      (split_after (head ++ 47 ∷ []) name (name_tagged name fine undigested) no_slash)

-- An accepted image that is not pinned by a digest is split into a repository and a tag that make
-- it up again; the tag has no colon and no slash, so it is not the port of a registry.
pub split_image_lem :
    (image : List ℕ)
    → require_tag image ≡ none
    → contains image 64 ≡ false
    → Parted image (split_image image)
unfolding require_tag
split_image_lem image accepted clear = elim (Bool-cases (contains image 47)) [
  | inr plain ↦
      let alone = rpartition-none 47 image plain in
      split_after [] image
        (name_tagged image (subst (λ o. name_problem (last_part image o) ≡ none) alone accepted)
          clear)
        plain
  | inl nested ↦
      let (head, name, same, no_slash) = rpartition-some 47 image nested in
      nested_after head name same no_slash clear accepted
]
