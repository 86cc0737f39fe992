-- ===== src/Preflight.antt =====
-- Checks of the workstation (automation/src/txplatform/preflight.py): facts in, findings out. The
-- messages are left out; a bound on a float is the same bound on whole bytes.
pub mod Levels
mod Tests
use kubernetes_distributed_t.Common.{
  Bool, List, Option, String, [], false, if◌then◌else◌, leb, ltb, nat_eq, none, not, option_eq,
  some, string_eq, true, ℕ, ◌&&◌, ◌*◌, ◌+◌, ◌==◌, ◌^◌, ◌||◌, ◌∷◌,
}

abbrev pub gib : ℕ
gib = 1024 ^ 3

abbrev pub min_cpus : ℕ
min_cpus = 4

abbrev pub recommended_cpus : ℕ
recommended_cpus = 6

abbrev pub min_memory_gib : ℕ
min_memory_gib = 8

abbrev pub recommended_memory_gib : ℕ
recommended_memory_gib = 10

abbrev pub min_free_disk_gib : ℕ
min_free_disk_gib = 30

pub data Level : Type 0 where
  pass warn fail : Level

pub record Finding : Type 0 where
  pub level : Level
  pub check : String

abbrev pub finding : Level → String → Finding
finding level check = record { level = level; check = check }

abbrev pub cpu_level : ℕ → Level
cpu_level cpus =
    if ltb cpus min_cpus then fail else if ltb cpus recommended_cpus then warn else pass

-- `memory_bytes / GIB < bound * 0.95`
abbrev pub short_of : (memory_bytes bound : ℕ) → Bool
short_of memory_bytes bound = ltb (memory_bytes * 100) (bound * 95 * gib)

abbrev pub memory_level : ℕ → Level
memory_level memory_bytes =
    if short_of memory_bytes min_memory_gib
    then fail
    else if short_of memory_bytes recommended_memory_gib
    then warn
    else pass

unfoldable pub evaluate_docker_resources : (cpus memory_bytes : ℕ) → List Finding
evaluate_docker_resources cpus memory_bytes =
    finding (cpu_level cpus) "docker-cpus"
    ∷ finding (memory_level memory_bytes) "docker-memory"
    ∷ []

unfoldable pub evaluate_disk : ℕ → Finding
evaluate_disk free_bytes =
    if ltb free_bytes (min_free_disk_gib * gib) then finding warn "disk" else finding pass "disk"

unfoldable pub evaluate_kubectl_minor : (client_minor : Option ℕ) → (cluster_minor : ℕ) → Finding
evaluate_kubectl_minor none cluster_minor = finding fail "kubectl"
evaluate_kubectl_minor (some client_minor) cluster_minor =
    if leb client_minor (cluster_minor + 1) && leb cluster_minor (client_minor + 1)
    then finding pass "kubectl"
    else finding fail "kubectl"

-- `version >= required` on tuples of numbers
unfoldable pub tuple_leb : (required version : List ℕ) → Bool
tuple_leb [] version = true
tuple_leb (r ∷ required) [] = false
tuple_leb (r ∷ required) (v ∷ version) = ltb r v || (r == v && tuple_leb required version)

-- `required` is the split of the manifest's minimum.
unfoldable pub evaluate_python : (version required : List ℕ) → Finding
unfolding tuple_leb
evaluate_python version required =
    if tuple_leb required version then finding pass "python" else finding fail "python"

unfoldable pub evaluate_port : (name : String) → (in_use cluster_exists : Bool) → Finding
evaluate_port name in_use cluster_exists =
    if not in_use
    then finding pass name
    else if cluster_exists
    then finding pass name
    else finding fail name
