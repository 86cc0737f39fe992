-- ===== src/TraceChecks/Order.antt =====
-- The order of a transaction's stages.
use kubernetes_distributed_t.Common.{
  append_nil_iff, List, Option, [], arith, false, max, nat_eq, none, not, option_eq, some,
  string_eq, ℕ, ◌++◌, ◌<◌, ◌↔◌, ◌∷◌, ◌≡◌, ◌≤◌, refl, subst,
}
use kubernetes_distributed_t.Traces.{Span, Trace, overlaps}
use kubernetes_distributed_t.TraceChecks.{
  problem_if_iff, Problem, after_payment, compensation_stages, early, last_end, later_than,
  named_any, problem_if, shipping_early, single, stage_order, stages, order_problems, no_overlap,
  payment_early,
}
use kubernetes_distributed_t.TraceChecks.Compensating.{AllNamed, early-Compensated_iff}
use kubernetes_distributed_t.TraceChecks.Once.{Once, single_iff}

-- A span, where there is one, starts at `limit` or later.
abbrev NotBefore : Option Span → ℕ → Type 0
NotBefore none limit = Unit {0}
NotBefore (some span) limit = limit ≤ span.start_unix_nano

abbrev AfterPayment : (shipping payment : Option Span) → Type 0
AfterPayment shipping none = Unit {0}
AfterPayment shipping (some payment) = NotBefore shipping payment.end_unix_nano

-- Inventory and fraud appear once each and overlap. A payment that appears once starts when both
-- have ended, and a shipping that appears once starts when a payment that appears once has ended;
-- where payment or shipping appear more than once, their order is free. Every compensation starts
-- when every stage has ended.
pub record InOrder (trace : Trace) (inventory fraud : Span) : Type 0 where
  pub once_inventory : Once trace "inventory.reserve" inventory
  pub once_fraud : Once trace "fraud.evaluate" fraud
  pub together :
      (inventory.start_unix_nano < fraud.end_unix_nano)
      × (fraud.start_unix_nano < inventory.end_unix_nano)
  pub payment_after :
      (payment : Span)
      → Once trace "payment.authorize" payment
      → (inventory.end_unix_nano ≤ payment.start_unix_nano)
        × (fraud.end_unix_nano ≤ payment.start_unix_nano)
  pub shipping_after :
      (payment shipping : Span)
      → Once trace "payment.authorize" payment
      → Once trace "shipping.create" shipping
      → payment.end_unix_nano ≤ shipping.start_unix_nano
  pub compensation_after :
      AllNamed
        ("compensation.payment.void" ∷ "compensation.inventory.release" ∷ [])
        (λ late.
          AllNamed
            ("inventory.reserve" ∷ "fraud.evaluate" ∷ "payment.authorize" ∷ "shipping.create" ∷ [])
            (λ stage. stage.end_unix_nano ≤ late.start_unix_nano)
            trace.spans)
        trace.spans

span-NotBefore_iff :
    (o : Option Span) (limit : ℕ)
    → NotBefore o limit ↔ ((span : Span) → o ≡ some span → limit ≤ span.start_unix_nano)
span-NotBefore_iff none limit = (λ h span e. absurd (cc), λ h. tt)
span-NotBefore_iff (some span) limit = (
  λ h other e.
      let same : span ≡ other = ground arith in
      subst (λ (x : Span). limit ≤ x.start_unix_nano) same h,
  λ h. h span refl,
)

spans-AfterPayment_iff :
    (shipping payment : Option Span)
    → AfterPayment shipping payment
      ↔ ((p s : Span) → payment ≡ some p → shipping ≡ some s → p.end_unix_nano ≤ s.start_unix_nano)
spans-AfterPayment_iff shipping none = (λ h p s e e'. absurd (cc), λ h. tt)
spans-AfterPayment_iff shipping (some payment) =
    let later = span-NotBefore_iff shipping payment.end_unix_nano in
    (
      λ h p s e e'.
          let same : payment ≡ p = ground arith in
          subst (λ (x : Span). x.end_unix_nano ≤ s.start_unix_nano) same (later.0 h s e'),
      λ h. later.1 (λ s e. h payment s refl e),
    )

later_than_iff :
    (o : Option Span) (limit : ℕ) (p : Problem) → (later_than o limit p ≡ []) ↔ NotBefore o limit
later_than_iff none limit p = ground arith
later_than_iff (some span) limit p = ground arith

NotBefore-max_iff :
    (o : Option Span) (a b : ℕ) → NotBefore o (max a b) ↔ (NotBefore o a × NotBefore o b)
NotBefore-max_iff none a b = ground arith
NotBefore-max_iff (some span) a b = ground arith

after_payment_iff :
    (shipping payment : Option Span)
    → (after_payment shipping payment ≡ []) ↔ AfterPayment shipping payment
after_payment_iff shipping none = ground arith
after_payment_iff shipping (some payment) =
    later_than_iff shipping payment.end_unix_nano shipping_early

overlaps_iff :
    (a b : Span)
    → (not (overlaps a b) ≡ false)
      ↔ ((a.start_unix_nano < b.end_unix_nano) × (b.start_unix_nano < a.end_unix_nano))
unfolding overlaps
overlaps_iff a b = ground arith

pieces_iff :
    {A : Type 0} (xs ys zs ws : List A)
    → (xs ++ (ys ++ (zs ++ ws)) ≡ []) ↔ ((xs ≡ []) × (ys ≡ []) × (zs ≡ []) × (ws ≡ []))
pieces_iff xs ys zs ws = ground (
  arith,
  append_nil_iff xs (ys ++ (zs ++ ws)),
  append_nil_iff ys (zs ++ ws),
  append_nil_iff zs ws,
)

order_problems_sound :
    (trace : Trace) (o p : Option Span)
    → single trace "inventory.reserve" ≡ o
    → single trace "fraud.evaluate" ≡ p
    → order_problems trace o p ≡ []
    → (inventory : Span) × (fraud : Span) × InOrder trace inventory fraud
order_problems_sound trace none p e f h = cc
order_problems_sound trace (some i) none e f h = cc
order_problems_sound trace (some i) (some f) e e' h =
    let payment = single trace "payment.authorize" in
    let shipping = single trace "shipping.create" in
    let business = named_any trace stages in
    let late = named_any trace compensation_stages in
    let (overlap, paid, shipped, compensated) =
      (pieces_iff (problem_if (not (overlaps i f)) no_overlap)
          (later_than payment (max i.end_unix_nano f.end_unix_nano) payment_early)
          (after_payment shipping payment) (early (last_end business) late)).0
        h in
    (
      i,
      f,
      record {
        once_inventory = (single_iff trace "inventory.reserve" i).0 e;
        once_fraud = (single_iff trace "fraud.evaluate" f).0 e';
        together = (overlaps_iff i f).0 ((problem_if_iff _ no_overlap).0 overlap);
        payment_after = λ p once.
            let (by_inventory, by_fraud) =
              (NotBefore-max_iff payment i.end_unix_nano f.end_unix_nano).0
                ((later_than_iff payment _ payment_early).0 paid) in
            let there = (single_iff trace "payment.authorize" p).1 once in
            (
              (span-NotBefore_iff payment i.end_unix_nano).0 by_inventory p there,
              (span-NotBefore_iff payment f.end_unix_nano).0 by_fraud p there,
            );
        shipping_after = λ p s once once'.
            (spans-AfterPayment_iff shipping payment).0
              ((after_payment_iff shipping payment).0 shipped) p s
              ((single_iff trace "payment.authorize" p).1 once)
              ((single_iff trace "shipping.create" s).1 once');
        compensation_after = (early-Compensated_iff trace).0 compensated;
      },
    )

order_problems_complete :
    (trace : Trace) (i f : Span) → InOrder trace i f → order_problems trace (some i) (some f) ≡ []
order_problems_complete trace i f o =
    let payment = single trace "payment.authorize" in
    let shipping = single trace "shipping.create" in
    let business = named_any trace stages in
    let late = named_any trace compensation_stages in
    (pieces_iff (problem_if (not (overlaps i f)) no_overlap)
        (later_than payment (max i.end_unix_nano f.end_unix_nano) payment_early)
        (after_payment shipping payment) (early (last_end business) late)).1
      (
        (problem_if_iff _ no_overlap).1 ((overlaps_iff i f).1 o.together),
        (later_than_iff payment _ payment_early).1 (
            (NotBefore-max_iff payment i.end_unix_nano f.end_unix_nano).1 (
              (span-NotBefore_iff payment i.end_unix_nano).1
                  (λ p e. (o.payment_after p ((single_iff trace "payment.authorize" p).0 e)).0),
              (span-NotBefore_iff payment f.end_unix_nano).1
                  (λ p e. (o.payment_after p ((single_iff trace "payment.authorize" p).0 e)).1),
            )),
        (after_payment_iff shipping payment).1 (
            (spans-AfterPayment_iff shipping payment).1 (λ p s e e'.
              o.shipping_after p s ((single_iff trace "payment.authorize" p).0 e)
                ((single_iff trace "shipping.create" s).0 e'))),
        (early-Compensated_iff trace).1 o.compensation_after,
      )

-- The check of a trace's stages passes exactly if inventory and fraud appear once each and overlap,
-- payment, where it appears once, starts when both have ended, shipping, where both appear once,
-- starts when payment has ended, and every compensation starts when every stage has ended.
pub stage_order_iff :
    (trace : Trace)
    → (stage_order trace ≡ [])
      ↔ ((inventory : Span) × (fraud : Span) × InOrder trace inventory fraud)
unfolding stage_order
stage_order_iff trace = (
  order_problems_sound trace (single trace "inventory.reserve") (single trace "fraud.evaluate") refl
      refl,
  λ (i, f, o).
      rw
        (
          (single_iff trace "inventory.reserve" i).1 o.once_inventory,
          (single_iff trace "fraud.evaluate" f).1 o.once_fraud,
        )
        (order_problems_complete trace i f o),
)
