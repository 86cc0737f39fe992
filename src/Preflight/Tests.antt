-- ===== src/Preflight/Tests.antt =====
-- Docker with seven and with sixteen gibibytes.
use kubernetes_distributed_t.Common.{[], nat_eq, option_eq, refl, string_eq, ◌*◌, ◌∷◌, ◌≡◌}
use kubernetes_distributed_t.Preflight.{
  evaluate_docker_resources, fail, finding, gib, warn, Finding,
}
use kubernetes_distributed_t.Preflight.Levels.{HasLevel, evaluate_docker_resources-HasLevel}

small_docker :
    evaluate_docker_resources 5 (7 * gib)
    ≡ finding warn "docker-cpus" ∷ finding fail "docker-memory" ∷ []
unfolding evaluate_docker_resources
small_docker = refl

evaluate_docker_resources-HasLevel_example :
    (processors : Finding) × (memory : Finding) × (evaluate_docker_resources 5 (7 * gib)
      ≡ processors ∷ memory ∷ [])
    × (processors.check ≡ "docker-cpus")
    × HasLevel processors.level 5 4 6
    × (memory.check ≡ "docker-memory")
    × HasLevel memory.level (7 * gib * 100) (95 * 8_589_934_592) (95 * 10_737_418_240)
evaluate_docker_resources-HasLevel_example = evaluate_docker_resources-HasLevel 5 (7 * gib)
