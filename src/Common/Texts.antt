-- ===== src/Common/Texts.antt =====
-- Texts as lists of code points: Python's `in` on texts, and matching without regard to case.
use mathlib.Core.Option.{Option, none, some}
use mathlib.Core.Logic.{inl, inr}
use kubernetes_distributed_t.Common.Lists.{contains}
use kubernetes_distributed_t.Common.Tests.{nat_eq}
use Prim.Native.String.{◌++◌ as str_append}
use text.Mathlib.Text.{◌==◌ as str_eq}
use Prim.Native.Char.{Char, code}
use Prim.Native.String.{String}
use Prim.Native.Nat.{ℕ, ◌+◌}
use mathlib.Core.Bool.{Bool, true, false, ◌&&◌, ◌||◌}
use mathlib.Core.List.{List, [], ◌∷◌}
use kubernetes_distributed_t.Common.Tests.{leb, nat_beq, if◌then◌else◌}
use kubernetes_distributed_t.Common.{◌≡◌, arith, ◌++◌, nat_beq_iff, Bool-cases, refl}

abbrev pub codes : String → List ℕ
codes String.[] = []
codes (String.◌∷◌ c s) = code c ∷ codes s

-- The letter that `(?i)` compares: besides the capitals, a long s, a Kelvin sign, and the capital i
-- with a dot and the small one without.
abbrev pub lower : ℕ → ℕ
lower c =
    if leb 65 c && leb c 90
    then c + 32
    else if nat_beq c 383
    then 115
    else if nat_beq c 8490
    then 107
    else if nat_beq c 304 || nat_beq c 305
    then 105
    else c

abbrev pub lower_all : List ℕ → List ℕ
lower_all [] = []
lower_all (c ∷ cs) = lower c ∷ lower_all cs

abbrev pub begins_with : (xs part : List ℕ) → Bool
begins_with xs [] = true
begins_with [] (p ∷ part) = false
begins_with (x ∷ xs) (p ∷ part) = nat_beq x p && begins_with xs part

unfoldable pub occurs : (part xs : List ℕ) → Bool
occurs part [] = begins_with [] part
occurs part (x ∷ xs) = begins_with (x ∷ xs) part || occurs part xs

-- `part in s`
unfoldable pub mentions : (s part : String) → Bool
unfolding occurs
mentions s part = occurs (codes part) (codes s)

-- The same, where a capital letter of `s` counts as the small one.
unfoldable pub mentions_any_case : (s part : String) → Bool
unfolding occurs
mentions_any_case s part = occurs (codes part) (lower_all (codes s))

-- `"".join(parts)`
abbrev pub concat : List String → String
concat [] = ""
concat (s ∷ parts) = str_append s (concat parts)

-- `separator.join(parts)`
abbrev pub join : (separator : String) → List String → String
join separator [] = ""
join separator (s ∷ []) = s
join separator (s ∷ t ∷ parts) = str_append s (str_append separator (join separator (t ∷ parts)))

-- `s.removesuffix(suffix)`, for a suffix that is not empty
abbrev pub remove_suffix : (s suffix : String) → String
remove_suffix String.[] suffix = ""
remove_suffix (String.◌∷◌ c s) suffix =
    let rest = remove_suffix s suffix in
    if str_eq (String.◌∷◌ c s) suffix then "" else String.◌∷◌ c rest

-- `s.endswith(suffix)`
abbrev pub ends_with : (s suffix : String) → Bool
ends_with String.[] suffix = str_eq String.[] suffix
ends_with (String.◌∷◌ c s) suffix = str_eq (String.◌∷◌ c s) suffix || ends_with s suffix

-- `s.rpartition(separator)` on code points, without the separator; nothing where it has none.
unfoldable pub rpartition : (separator : ℕ) → List ℕ → Option (List ℕ × List ℕ)
rpartition separator [] = none
rpartition separator (c ∷ cs) = elim (rpartition separator cs) [
  | some (head, rest) ↦ some (c ∷ head, rest)
  | none ↦ if nat_beq c separator then some ([], cs) else none
]

pub rpartition-none :
    (separator : ℕ) (cs : List ℕ) → contains cs separator ≡ false → rpartition separator cs ≡ none
unfolding rpartition
rpartition-none separator [] h = refl
rpartition-none separator (c ∷ cs) h = ground (arith, rpartition-none separator cs)

pub rpartition-append :
    (separator : ℕ) (head rest : List ℕ)
    → contains rest separator ≡ false
    → rpartition separator (head ++ separator ∷ rest) ≡ some (head, rest)
unfolding rpartition
rpartition-append separator [] rest h =
    rw (rpartition-none separator rest h, (nat_beq_iff separator separator).1 refl) refl
rpartition-append separator (c ∷ head) rest h = rw (rpartition-append separator head rest h) refl

-- A text with the separator is split at its last one.
pub rpartition-some :
    (separator : ℕ) (cs : List ℕ)
    → contains cs separator ≡ true
    → (head : List ℕ) × (rest : List ℕ) × (cs ≡ head ++ separator ∷ rest)
      × (contains rest separator ≡ false)
rpartition-some separator [] h = absurd (cc)
rpartition-some separator (c ∷ cs) h = elim (Bool-cases (contains cs separator)) [
  | inl later ↦
      let (head, rest, same, clear) = rpartition-some separator cs later in
      (c ∷ head, rest, cc, clear)
  | inr clear ↦
      let here : c ≡ separator = ground (arith, nat_beq_iff c separator) in ([], cs, cc, clear)
]

-- `s.split(separator)`, where the separator is one character
abbrev pub to_first : Char → List String → List String
to_first c [] = String.◌∷◌ c String.[] ∷ []
to_first c (s ∷ parts) = String.◌∷◌ c s ∷ parts

abbrev pub split : (separator : ℕ) → String → List String
split separator String.[] = String.[] ∷ []
split separator (String.◌∷◌ c s) =
    let parts = split separator s in
    if nat_beq (code c) separator then String.[] ∷ parts else to_first c parts
