-- ===== src/Kube/Tests.antt =====
-- Waiting for a predicate that holds from the third second on.
use kubernetes_distributed_t.Common.{
  Option, String, arith, if◌then◌else◌, ltb, nat_eq, none, option_eq, refl, some, string_eq, ℕ, ◌+◌,
  ◌≡◌, ◌≢◌,
}
use kubernetes_distributed_t.Common.Exec.{Exec, api_error, ok, raised}
use kubernetes_distributed_t.Kube.{poll, wait_for}
use kubernetes_distributed_t.Kube.Waiting.{Answer, wait_for-Answer, wait_for_ends}

abbrev now : ℕ → ℕ
now s = s

abbrev later : ℕ → ℕ → ℕ
later n s = n + s

abbrev after_three : Exec ℕ (Option String)
after_three s = if ltb s 3 then (raised (api_error 503), s) else (ok (some "ready"), s)

ready_in_time : wait_for now later after_three 10 2 0 ≡ some (ok "ready", 4)
unfolding wait_for poll
ready_in_time = refl

wait_for_ends_example : wait_for now later after_three 10 2 0 ≢ none
wait_for_ends_example =
    wait_for_ends now later after_three 2 (λ s. ground arith) (λ s. omega arith) (ground arith) 10 0

wait_for-Answer_example : Answer now later after_three 2 10 (ok "ready") 4
wait_for-Answer_example = wait_for-Answer now later after_three 2 10 0 (ok "ready") 4 ready_in_time
