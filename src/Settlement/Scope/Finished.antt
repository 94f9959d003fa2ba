-- ===== src/Settlement/Scope/Finished.antt =====
-- The plan restricted to the candidates.
use n8n_libpetri.Prelude.{
  ◌≡◌, refl, ap, ◌&&◌, List, [], ◌∷◌, string_eq, nat_eq, pair_eq, ◌==◌, arith, inl, inr, Bool-cases,
}
use n8n_libpetri.Prelude.Sets.{has}
use n8n_libpetri.Settlement.Scope.{StepKey, StepPlan, scope_plan}

-- The restricted plan queues, and skips, exactly the candidates that the plan queues, and skips.
pub scope_plan_lem :
    (plan : StepPlan) (candidates : List StepKey) (k : StepKey)
    → (has (scope_plan plan candidates).to_queue k ≡ (has candidates k && has plan.to_queue k))
      × (has (scope_plan plan candidates).to_skip k ≡ (has candidates k && has plan.to_skip k))
unfolding scope_plan
scope_plan_lem plan [] k = (refl, refl)
scope_plan_lem plan (c ∷ cs) k = elim (Bool-cases (c == k)) [
  | inl same ↦
      let here : c ≡ k = (pair_eq.beq_iff c k).0 same in
      ground (
        arith,
        same,
        ap (has plan.to_queue) here,
        ap (has plan.to_skip) here,
        scope_plan_lem plan cs k,
      )
  | inr other ↦ ground (arith, other, scope_plan_lem plan cs k)
]
