-- ===== src/Compiler/Gadget/Balance/Routes.antt =====
-- The balance of the transitions of gadget/routing.ts.
use n8n_libpetri.Prelude.{
  ℕ, suc, ◌*◌, ◌≡◌, subst, Option, none, some, List, [], ◌∷◌, map, arith, length,
}
use n8n_libpetri.Prelude.Predicates.{All, All-append, OptionAll}
use n8n_libpetri.Prelude.Results.{ok, >>=-eq-ok, ok-injective}
use n8n_libpetri.Compiler.Names.Transitions.{route_of, sink_of}
use n8n_libpetri.Compiler.Gadget.Net.{
  Place, budget, done, In, one, place, and, outs, route, sink, Transition,
}
use n8n_libpetri.Compiler.Gadget.Shapes.{LocalOutput, SplitOutput, Routing, collapsed, split}
use n8n_libpetri.Compiler.Gadget.Outputs.{routing_of}
use n8n_libpetri.Compiler.Gadget.Declare.{map_result}
use n8n_libpetri.Compiler.Gadget.Runs.{
  plain_transition, build_route, build_done, build_route_and_done, build_sinks,
}
use n8n_libpetri.Compiler.Gadget.Weights
use n8n_libpetri.Compiler.Gadget.Weights.{
  Coefficients, weight, total_cost, Weighs, Sums, Agree, IsDrained, IsBalanced,
}
use n8n_libpetri.Compiler.Gadget.Parts.{IsLight}
use n8n_libpetri.Compiler.Gadget.Routed.{routing_of-Weighs, LightOutput, SplitWeighs, RoutingWeighs}
use n8n_libpetri.Compiler.Gadget.Balance.Places.{plain-Balanced}

module _ (c : Coefficients) where
  build_route-Balanced :
      (depth : ℕ) (o : SplitOutput) (t : Transition)
      → build_route depth o ≡ ok t
      → SplitWeighs c o
      → IsBalanced c t
  build_route-Balanced depth o t h w =
      let (delivery, made, built) = >>=-eq-ok (routing_of o.output) _ h in
      subst (IsBalanced c) (ok-injective built) (
        plain-Balanced c (route_of o.output.index) (route o.output.index) o.ok_place
          (and (outs (delivery ∷ place o.routed_place ∷ []))) (suc depth) w.1
          (Weights.and-Weighs c (delivery ∷ place o.routed_place ∷ []) (
            Weights.Sums-eq c _
              (Weights.Sums-cons c delivery _ (routing_of-Weighs c o.output delivery made w.0)
                (Weights.Sums-place c o.routed_place [] (Weights.Sums-nil c)))
              (omega (arith, w.2)))))

  routes-Balanced :
      (depth : ℕ) (os : List SplitOutput) (ts : List Transition)
      → map_result (build_route depth) os ≡ ok ts
      → All (SplitWeighs c) os
      → All (IsBalanced c) ts
  routes-Balanced depth [] ts h w = subst (All (IsBalanced c)) (ok-injective h) tt
  routes-Balanced depth (o ∷ os) ts h w =
      let (t, first, run') = >>=-eq-ok (build_route depth o) _ h in
      let (later, rest, built) = >>=-eq-ok (map_result (build_route depth) os) _ run' in
      subst (All (IsBalanced c)) (ok-injective built)
        (build_route-Balanced depth o t first w.0, routes-Balanced depth os later rest w.1)

  routed_cost :
      (os : List SplitOutput)
      → All (SplitWeighs c) os
      → All (IsDrained c) (map (λ (o : SplitOutput). one o.routed_place) os)
        × (total_cost c (map (λ (o : SplitOutput). one o.routed_place) os) ≡ length os * c.part)
  routed_cost [] w = (tt, omega arith)
  routed_cost (o ∷ os) w =
      let (drained, rest) = routed_cost os w.1 in ((tt, drained), omega (arith, rest, w.0.2))

  -- `X_done` gives the budget back.
  build_done-Balanced :
      (depth : ℕ) (is : List In)
      → All (IsDrained c) is
      → total_cost c is ≡ c.unit
      → IsBalanced c (build_done depth is)
  unfolding weight
  build_done-Balanced depth is d e = (
    d,
    Weights.AllWeigh-eq c _
        (Weights.and-Weighs c (place budget ∷ place done ∷ [])
          (Weights.Sums-place c budget _ (Weights.Sums-place c done [] (Weights.Sums-nil c))))
        (omega (arith, e)),
  )

  pub build_route_and_done-Balanced :
      (depth : ℕ) (r : Routing) (ts : List Transition)
      → build_route_and_done depth r ≡ ok ts
      → RoutingWeighs c r
      → All (IsBalanced c) ts
  unfolding build_route_and_done
  build_route_and_done-Balanced depth (collapsed r os) ts h w =
      subst (All (IsBalanced c)) (ok-injective h)
        (build_done-Balanced depth (one r ∷ []) (tt, tt) (omega (arith, w.0)), tt)
  build_route_and_done-Balanced depth (split os) ts h w =
      let (routes, made, built) = >>=-eq-ok (map_result (build_route depth) os) _ h in
      let (drained, cost) = routed_cost os w.0 in
      subst (All (IsBalanced c)) (ok-injective built) (
        All-append (IsBalanced c) routes _ (routes-Balanced depth os routes made w.0)
          (build_done-Balanced depth _ drained (omega (arith, cost, w.1)), tt))

  pub build_sinks-Balanced :
      (depth : ℕ) (os : List LocalOutput)
      → All (LightOutput c) os
      → All (IsBalanced c) (build_sinks depth os)
  build_sinks-Balanced depth [] w = tt
  build_sinks-Balanced depth (o ∷ os) w = by o.nil_place w.0.1 (build_sinks-Balanced depth os w.1)
    where
      by :
          (p : Option Place)
          → OptionAll (IsLight c) p
          → All (IsBalanced c) (build_sinks depth os)
          → All (IsBalanced c) (elim p [
            | none ↦ build_sinks depth os
            | some q ↦
                plain_transition (sink_of o.index) sink (one q ∷ []) none depth
                ∷ build_sinks depth os
          ])
      by none l later = later
      by (some q) l later = (((tt, tt), record { each = (omega (arith, l), tt) }), later)
