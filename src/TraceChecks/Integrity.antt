-- ===== src/TraceChecks/Integrity.antt =====
-- Whether a trace hangs together: `gateway_span_gaps` and `integrity`.
use kubernetes_distributed_t.Common.{
  All, Bool, List, Option, String, [], arith, contains, eq_iff, false, filter, if◌then◌else◌,
  is_empty, leb, length, map, nat_eq, none, not, option_eq, refl, some, string_eq, true, ℕ, ◌!=◌,
  ◌&&◌, ◌++◌, ◌==◌, ◌↔◌, ◌∷◌, ◌≡◌, ◌⊎◌, ◌≤◌, Bool-cases, inl, inr,
}
use kubernetes_distributed_t.Common.Dict.{lookup}
use kubernetes_distributed_t.Traces.{
  value_eq, Span, Trace, Value, boolean, by_service, integer, is_root, other_value, service,
  span_ids, text,
}
use kubernetes_distributed_t.TraceChecks.{
  Problem, edge_service, foreign_root, not_one_root, order_service, parent_missing, problem_if,
}
use kubernetes_distributed_t.Common.Selected.{Some, contains-map_iff, Chosen, filter-Chosen_iff}
use kubernetes_distributed_t.TraceChecks.Gaps.{
  explained_by, IsBalancer, IsKongRoot, HangsBelow, below_iff, balancers_iff, kong_roots_iff,
}

-- `int` is Python's, on a value that is no number yet.
module _ (int : Value → ℕ) where
  -- `int(value or 0)`
  abbrev pub code_of : Option Value → ℕ
  code_of none = 0
  code_of (some (integer n)) = n
  code_of (some (boolean b)) = if b then 1 else 0
  code_of (some (text s)) = if s == "" then 0 else int (text s)
  code_of (some (other_value s)) = int (other_value s)

  unfoldable pub failed_upstream : Span → Bool
  failed_upstream balancer =
      balancer.status == "ERROR"
      && leb 500 (code_of (lookup "http.response.status_code" balancer.attributes))

  abbrev pub gaps_below : Trace → (balancers kong_roots : List Span) → List Span
  gaps_below trace (balancer ∷ []) (kong_root ∷ []) =
      let found =
        filter (explained_by trace kong_root) (by_service trace order_service (some "SERVER")) in
      if failed_upstream balancer then found else []
  gaps_below trace _ _ = []

  unfoldable pub gateway_span_gaps : Trace → List Span
  unfolding failed_upstream by_service is_root
  gateway_span_gaps trace =
      gaps_below trace
        (filter (λ span. span.name == "kong.balancer")
          (by_service trace edge_service (some "CLIENT")))
        (filter is_root (by_service trace edge_service (some "SERVER")))

  -- A span with a parent id that no span has, and that no known gap explains.
  abbrev pub is_orphan : Trace → Span → Bool
  is_orphan trace span =
      span.parent_span_id != ""
      && (not (contains (span_ids trace.spans) span.parent_span_id)
          && not (contains (span_ids (gateway_span_gaps trace)) span.span_id))

  abbrev pub root_problems : List Span → List Problem
  root_problems [] = not_one_root 0 ∷ []
  root_problems (root ∷ []) =
      problem_if (service root != edge_service) (foreign_root (service root))
  root_problems (root ∷ other ∷ rest) = not_one_root (length (root ∷ other ∷ rest)) ∷ []

  unfoldable pub integrity : Trace → List Problem
  unfolding gateway_span_gaps service is_root
  integrity trace =
      let orphans = filter (is_orphan trace) trace.spans in
      problem_if (not (is_empty orphans)) (parent_missing (map (λ span. span.name) orphans))
      ++ root_problems (filter is_root trace.spans)

  -- A span that a gap of the gateway explains: the gateway has one client span of its balancer,
  -- which is marked as an error and has a status code of 500 or more, and one server span without a
  -- parent; and the span, or one with its id, is a server span of OrderService whose parent is not
  -- in the trace, which has the request id of that server span, and does not start before it.
  pub record Explained (trace : Trace) (span : Span) : Type 0 where
    pub balancer : Span
    pub kong_root : Span
    pub one_balancer : Chosen IsBalancer trace.spans (balancer ∷ [])
    pub one_root : Chosen IsKongRoot trace.spans (kong_root ∷ [])
    pub marked : balancer.status ≡ "ERROR"
    pub server_error : 500 ≤ code_of (lookup "http.response.status_code" balancer.attributes)
    pub below :
        Some
          (λ (other : Span). (other.span_id ≡ span.span_id) × HangsBelow trace kong_root other)
          trace.spans

  -- Why a span may stand where it stands: it is a root, its parent is in the trace, or a gap of the
  -- gateway explains it.
  abbrev pub Placed : Trace → Span → Type 0
  Placed trace span =
      (span.parent_span_id ≡ "")
      ⊎ (Some (λ (parent : Span). parent.span_id ≡ span.parent_span_id) trace.spans
          ⊎ Explained trace span)

  failed_upstream_iff :
      (balancer : Span)
      → (failed_upstream balancer ≡ true) ↔ (
          (balancer.status ≡ "ERROR")
          × (500 ≤ code_of (lookup "http.response.status_code" balancer.attributes)))
  unfolding failed_upstream
  failed_upstream_iff balancer = ground (arith, eq_iff balancer.status "ERROR")

  gaps_below_sound :
      (trace : Trace) (span : Span) (balancers kong_roots : List Span)
      → Chosen IsBalancer trace.spans balancers
      → Chosen IsKongRoot trace.spans kong_roots
      → contains (span_ids (gaps_below trace balancers kong_roots)) span.span_id ≡ true
      → Explained trace span
  gaps_below_sound trace span (balancer ∷ []) (kong_root ∷ []) b k h =
      elim (Bool-cases (failed_upstream balancer)) [
        | inl failed ↦
            let (marked, code) = (failed_upstream_iff balancer).0 failed in
            record {
              balancer = balancer;
              kong_root = kong_root;
              one_balancer = b;
              one_root = k;
              marked = marked;
              server_error = code;
              below = (below_iff trace kong_root span.span_id).0 (rw failed at h);
            }
        | inr fine ↦ absurd (ground (arith, h, fine))
      ]
  gaps_below_sound trace span [] kong_roots b k h = cc
  gaps_below_sound trace span (balancer ∷ []) [] b k h = cc
  gaps_below_sound trace span (balancer ∷ []) (x ∷ y ∷ more) b k h = cc
  gaps_below_sound trace span (balancer ∷ other ∷ more) kong_roots b k h = cc

  gaps_iff :
      (trace : Trace) (span : Span)
      → (contains (span_ids (gateway_span_gaps trace)) span.span_id ≡ true) ↔ Explained trace span
  unfolding gateway_span_gaps
  gaps_iff trace span =
      let balancers =
        filter (λ (s : Span). s.name == "kong.balancer")
          (by_service trace edge_service (some "CLIENT")) in
      let kong_roots = filter is_root (by_service trace edge_service (some "SERVER")) in
      (
        λ h.
            gaps_below_sound trace span balancers kong_roots
              ((balancers_iff trace balancers).0 refl) ((kong_roots_iff trace kong_roots).0 refl) h,
        λ x.
            rw
              (
                (balancers_iff trace (x.balancer ∷ [])).1 x.one_balancer,
                (kong_roots_iff trace (x.kong_root ∷ [])).1 x.one_root,
                (failed_upstream_iff x.balancer).1 (x.marked, x.server_error),
              )
              ((below_iff trace x.kong_root span.span_id).1 x.below),
      )

  orphan_iff : (trace : Trace) (span : Span) → (is_orphan trace span ≡ false) ↔ Placed trace span
  orphan_iff trace span =
      let ids = contains-map_iff (λ (s : Span). s.span_id) trace.spans span.parent_span_id in
      let gaps = gaps_iff trace span in
      let rooted = eq_iff span.parent_span_id "" in
      (
        λ h. elim (Bool-cases (span.parent_span_id == "")) [
          | inl root ↦ inl (rooted.0 root)
          | inr child ↦ elim (Bool-cases (contains (span_ids trace.spans) span.parent_span_id)) [
            | inl there ↦ inr (inl (ids.0 there))
            | inr missing ↦ inr (inr (gaps.0 (ground (arith, h, child, missing))))
          ]
        ],
        λ p. elim p [
          | inl root ↦ rw (rooted.1 root) refl
          | inr (inl there) ↦ ground (arith, ids.1 there)
          | inr (inr gap) ↦ ground (arith, gaps.1 gap)
        ],
      )

  orphans_iff :
      (trace : Trace) (spans : List Span)
      → (filter (is_orphan trace) spans ≡ []) ↔ All (Placed trace) spans
  orphans_iff trace [] = ground arith
  orphans_iff trace (span ∷ spans) = ground (arith, orphan_iff trace span, orphans_iff trace spans)

  roots_iff :
      (spans : List Span)
      → (root_problems spans ≡ [])
        ↔ ((root : Span) × (spans ≡ root ∷ []) × (service root ≡ edge_service))
  roots_iff [] = (λ h. cc, λ (root, e, h). cc)
  roots_iff (root ∷ []) = (
    λ h. (root, refl, ground (arith, eq_iff (service root) edge_service)),
    λ (r, e, h). ground (arith, eq_iff (service root) edge_service, e, h),
  )
  roots_iff (root ∷ other ∷ rest) = (λ h. cc, λ (r, e, h). cc)

  parts_iff :
      (orphans : List Span) (p : List String) (rest : List Problem)
      → (problem_if (not (is_empty orphans)) (parent_missing p) ++ rest ≡ [])
        ↔ ((orphans ≡ []) × (rest ≡ []))
  parts_iff [] p rest = ground arith
  parts_iff (x ∷ orphans) p rest = ground arith

  single_root_iff :
      (trace : Trace) (root : Span)
      → (filter is_root trace.spans ≡ root ∷ [])
        ↔ Chosen (λ (span : Span). span.parent_span_id ≡ "") trace.spans (root ∷ [])
  unfolding is_root
  single_root_iff trace root =
      filter-Chosen_iff is_root (λ span. eq_iff span.parent_span_id "") trace.spans (root ∷ [])

  -- The check of a trace's integrity passes exactly if every span has no parent id, has its parent
  -- in the trace or is explained by a gap of the gateway, and there is exactly one span without a
  -- parent id, which is the gateway's.
  pub integrity_iff :
      (trace : Trace)
      → (integrity trace ≡ []) ↔ (
          All (Placed trace) trace.spans
          × ((root : Span) × Chosen
                (λ (span : Span). span.parent_span_id ≡ "")
                trace.spans
                (root ∷ [])
              × (service root ≡ "kong-gateway")))
  unfolding integrity
  integrity_iff trace =
      let orphans = filter (is_orphan trace) trace.spans in
      let parts =
        parts_iff orphans (map (λ span. span.name) orphans)
          (root_problems (filter is_root trace.spans)) in
      let placed = orphans_iff trace trace.spans in
      let root = roots_iff (filter is_root trace.spans) in
      (
        λ h.
            let (r, e, kong) = root.0 (parts.0 h).1 in
            (placed.0 (parts.0 h).0, (r, (single_root_iff trace r).0 e, kong)),
        λ (p, (r, one, kong)).
            parts.1 (placed.1 p, root.1 (r, (single_root_iff trace r).1 one, kong)),
      )
