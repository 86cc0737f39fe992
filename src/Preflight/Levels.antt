-- ===== src/Preflight/Levels.antt =====
-- The levels of findings.
use kubernetes_distributed_t.Common.{
  [], arith, nat_eq, option_eq, string_eq, ℕ, ◌∷◌, ◌≤◌, ◌≡◌, ◌*◌, ◌↔◌, ◌<◌, refl,
}
use kubernetes_distributed_t.Preflight.{
  Finding, Level, cpu_level, evaluate_docker_resources, fail, memory_level, pass, warn, finding,
}

-- Fails below one bound, warns from there to another one, and passes from there on.
pub record HasLevel (level : Level) (measured failing warning : ℕ) : Type 0 where
  pub fails : (level ≡ fail) ↔ (measured < failing)
  pub warns : (level ≡ warn) ↔ ((failing ≤ measured) × (measured < warning))
  pub passes : (level ≡ pass) ↔ ((failing ≤ measured) × (warning ≤ measured))

cpu_level-HasLevel : (cpus : ℕ) → HasLevel (cpu_level cpus) cpus 4 6
cpu_level-HasLevel cpus = record {
  fails = ground arith;
  warns = ground arith;
  passes = ground arith;
}

-- A hundred times the bytes, against 95 times the bytes of eight and ten gibibytes.
memory_level-HasLevel :
    (memory_bytes : ℕ)
    → HasLevel
        (memory_level memory_bytes)
        (memory_bytes * 100)
        (95 * 8_589_934_592)
        (95 * 10_737_418_240)
memory_level-HasLevel memory_bytes = record {
  fails = ground arith;
  warns = ground arith;
  passes = ground arith;
}

-- The check of Docker's resources has a finding on the processors, which fails below 4, warns from
-- there on and passes from 6 on, and one on the memory, which fails below 95 percent of 8 GiB, warns
-- from there on and passes from 95 percent of 10 GiB on.
pub evaluate_docker_resources-HasLevel :
    (cpus memory_bytes : ℕ)
    → (processors : Finding) × (memory : Finding) × (evaluate_docker_resources cpus memory_bytes
        ≡ processors ∷ memory ∷ [])
      × (processors.check ≡ "docker-cpus")
      × HasLevel processors.level cpus 4 6
      × (memory.check ≡ "docker-memory")
      × HasLevel memory.level (memory_bytes * 100) (95 * 8_589_934_592) (95 * 10_737_418_240)
unfolding evaluate_docker_resources
evaluate_docker_resources-HasLevel cpus memory_bytes = (
  finding (cpu_level cpus) "docker-cpus",
  finding (memory_level memory_bytes) "docker-memory",
  refl,
  refl,
  cpu_level-HasLevel cpus,
  refl,
  memory_level-HasLevel memory_bytes,
)
