-- ===== src/Versions.antt =====
-- The pins of images (automation/src/txplatform/versions.py): what the manifest accepts, and the
-- split of an image's name. A text is the list of its code points: `/` is 47, `:` is 58, `@` is
-- 64. YAML and the shape of the manifest are pydantic's.
pub mod Pins
mod Tests
use kubernetes_distributed_t.Common.{
  Bool, List, Option, [], contains, if◌then◌else◌, list_beq, nat_eq, none, not, option_eq, some,
  string_eq, ℕ, ◌&&◌, ◌||◌, ◌∷◌,
}
use kubernetes_distributed_t.Common.Texts.{codes, occurs, rpartition}

pub data BadPin : Type 0 where
  no_digest no_tag floating_tag : BadPin

-- KubernetesVersions.require_digest
unfoldable pub require_digest : List ℕ → Option BadPin
unfolding occurs
require_digest value = if occurs (codes "@sha256:") value then none else some no_digest

-- `value.rsplit("/", 1)[-1]`
abbrev pub last_part : List ℕ → Option (List ℕ × List ℕ) → List ℕ
last_part value none = value
last_part value (some (_, name)) = name

-- `name.endswith(":latest")`
abbrev pub is_suffix : (suffix name : List ℕ) → Bool
is_suffix suffix [] = list_beq [] suffix
is_suffix suffix (c ∷ cs) = list_beq (c ∷ cs) suffix || is_suffix suffix cs

abbrev pub name_problem : (name : List ℕ) → Option BadPin
name_problem name =
    if not (contains name 58) && not (contains name 64)
    then some no_tag
    else if is_suffix (codes ":latest") name
    then some floating_tag
    else none

-- ImageVersions.require_tag
unfoldable pub require_tag : List ℕ → Option BadPin
unfolding rpartition
require_tag value = name_problem (last_part value (rpartition 47 value))

-- `image.rpartition(":")`, without the separator
abbrev pub parts_at : List ℕ → Option (List ℕ × List ℕ) → List ℕ × List ℕ
parts_at image none = ([], image)
parts_at image (some parts) = parts

unfoldable pub split_image : List ℕ → List ℕ × List ℕ
unfolding rpartition
split_image image = parts_at image (rpartition 58 image)
