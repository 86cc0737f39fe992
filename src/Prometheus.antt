-- ===== src/Prometheus.antt =====
-- The client of Prometheus (automation/src/txplatform/prometheus.py). HTTP is a parameter. A
-- sample's value is a natural number, since the program reads counters and sizes.
mod Tests
use Prim.Native.Nat.{max}
use kubernetes_distributed_t.Common.{
  List, String, [], if◌then◌else◌, leb, map, max, nat_eq, option_eq, string_eq, ℕ, ◌!=◌, ◌++◌, ◌+◌,
  ◌∷◌,
}
use kubernetes_distributed_t.Common.Dict.{Dict, keys}
use kubernetes_distributed_t.Common.Exec.{
  Exec, Result, http_error, ok, pure, raised, runtime_error, ◌>>=◌, ◌>>◌,
}
use kubernetes_distributed_t.Common.Texts.{concat, join, remove_suffix}

pub record Sample : Type 0 where
  pub labels : Dict String String
  pub value : ℕ

-- `key="value"`
abbrev pub matcher : String × String → String
matcher (key, value) = concat (key ∷ "=\"" ∷ value ∷ "\"" ∷ [])

unfoldable pub metric_selector : (name : String) → Dict String String → String
metric_selector name labels =
    let base = remove_suffix name "_total" in
    concat (
      "{"
      ∷ join "," (concat ("__name__=~\"" ∷ base ∷ "(_total)?\"" ∷ []) ∷ map matcher labels)
      ∷ "}"
      ∷ [])

-- An answer of the API: its HTTP status, and what its text says.
pub record Payload : Type 0 where
  pub http_status : ℕ
  pub status : String
  pub result : List Sample

unfoldable pub parse_vector : Payload → Result (List Sample)
parse_vector payload =
    if payload.status != "success"
    then raised (runtime_error "Prometheus query failed")
    else ok payload.result

-- `response.raise_for_status()`, before what uses the answer
abbrev pub raise_for_status : {A : Type 0} → (status : ℕ) → Result A → Result A
raise_for_status status answer = if leb 400 status then raised http_error else answer

abbrev pub sum : List Sample → ℕ
sum [] = 0
sum (sample ∷ samples) = sample.value + sum samples

-- `max(..., default=0.0)`
abbrev pub highest : List Sample → ℕ
highest [] = 0
highest (sample ∷ samples) = max sample.value (highest samples)

abbrev pub all_names : List Sample → List String
all_names [] = []
all_names (sample ∷ samples) = keys sample.labels ++ all_names samples

-- `GET /api/v1/query`
module _ {S : Type 0} (http_get : String → Exec S Payload) where
  unfoldable pub query : (expression : String) → Exec S (List Sample)
  unfolding parse_vector
  query expression = do
    response ← http_get expression
    λ s. (raise_for_status response.http_status (parse_vector response), s)

  unfoldable pub total : (expression : String) → Exec S ℕ
  unfolding query
  total expression = do samples ← query expression; pure (sum samples)

  -- `decimal` writes a number.
  unfoldable pub max_over : (decimal : ℕ → String) (selector : String) (seconds : ℕ) → Exec S ℕ
  unfolding query
  max_over decimal selector seconds = do
    samples ← query (concat ("max_over_time(" ∷ selector ∷ "[" ∷ decimal seconds ∷ "s])" ∷ []))
    pure (highest samples)

  -- The names of the labels, with their repetitions.
  unfoldable pub current_label_names : (selector : String) → Exec S (List String)
  unfolding query
  current_label_names selector = do samples ← query selector; pure (all_names samples)
