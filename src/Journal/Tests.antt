-- ===== src/Journal/Tests.antt =====
-- The plan of a journal with a workload that was scaled twice.
use kubernetes_distributed_t.Common.{
  List, [], count, inl, inr, nat_eq, option_eq, refl, string_eq, ◌++◌, ◌∷◌, ◌≡◌,
}
use kubernetes_distributed_t.Journal.{
  Entry, clear_step, collect, restore_plan, scale_step, step_eq, visit, wait_step,
}
use kubernetes_distributed_t.Journal.Plan.{restore_plan_exact}
use kubernetes_distributed_t.Journal.Replay.{restore_plan_again}

abbrev lines : List Entry
lines =
    Entry.scale "payment-service" 2 1
    ∷ Entry.fault "fraud-service" "fraud-0" "fraud.evaluate" "latency"
    ∷ Entry.scale "payment-service" 1 0
    ∷ Entry.delete_pod "order-service" "order-0" "u1"
    ∷ []

restore_plan_example :
    restore_plan lines
    ≡ clear_step "fraud-service"
      ∷ scale_step ("payment-service", 2)
      ∷ wait_step "payment-service"
      ∷ wait_step "fraud-service"
      ∷ wait_step "order-service"
      ∷ []
unfolding restore_plan collect visit
restore_plan_example = refl

restore_plan_exact_example :
    (count (clear_step "payment-service") (restore_plan lines) ≡ 0)
    × (count (scale_step ("payment-service", 2)) (restore_plan lines) ≡ 1)
    × (count (wait_step "payment-service") (restore_plan lines) ≡ 1)
restore_plan_exact_example = restore_plan_exact lines "payment-service" 2

restore_plan_again_example :
    restore_plan
      (lines ++ Entry.scale "payment-service" 1 0 ∷ Entry.scale "payment-service" 2 1 ∷ [])
    ≡ restore_plan lines
restore_plan_again_example =
    restore_plan_again lines
      (Entry.scale "payment-service" 1 0 ∷ Entry.scale "payment-service" 2 1 ∷ [])
      (inr (inr (inl refl)), (inl refl, tt))
