-- ===== src/Versions/Tests.antt =====
-- An image in a registry with a port.
use kubernetes_distributed_t.Versions.Pins.{Parted, split_image_lem}
use kubernetes_distributed_t.Versions.{require_tag, split_image}
use kubernetes_distributed_t.Common.{List, nat_eq, none, option_eq, refl, string_eq, ℕ, ◌≡◌}
use kubernetes_distributed_t.Common.Texts.{codes}

abbrev sample_image : List ℕ
sample_image = codes "localhost:5000/prom:v3"

image_accepted : require_tag sample_image ≡ none
unfolding require_tag
image_accepted = refl

split_image_lem_example : Parted sample_image (split_image sample_image)
split_image_lem_example = split_image_lem sample_image image_accepted refl
