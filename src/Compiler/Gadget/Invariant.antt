-- ===== src/Compiler/Gadget/Invariant.antt =====
-- The invariant of the gadget that gadget.ts `buildV1NodeGadget` emits: `_budget`, the in-flight
-- markers, `X/idle` and the slots of a join keep their weight.
use n8n_libpetri.Prelude.{◌≡◌, refl, subst, Option, List, ◌++◌}
use n8n_libpetri.Prelude.Predicates.{All, All-append, OptionAll}
use n8n_libpetri.Prelude.Results.{ok, >>=-eq-ok, ok-injective}
use n8n_libpetri.Compiler.Gadget.Net.{Out, tool_in, agent_response, Transition}
use n8n_libpetri.Compiler.Gadget.Shapes.{
  InputSide, Routing, LocalAttempt, LocalRetry, LocalAgent, GadgetContext,
}
use n8n_libpetri.Compiler.Gadget.Declare.{declare_side, can_skip}
use n8n_libpetri.Compiler.Gadget.Outputs.{
  build_routing, success_branch, skip_empties, routing_outputs,
}
use n8n_libpetri.Compiler.Gadget.Failure.{
  declare_retry, declare_failure_chain, declare_agent, declare_references, chain_timeout,
  tool_in_ports, agent_response_ports,
}
use n8n_libpetri.Compiler.Gadget.Runs.{build_start, build_run, build_route_and_done}
use n8n_libpetri.Compiler.Gadget.Steps.{build_agent_round, build_retry_gadget, build_failure_steps}
use n8n_libpetri.Compiler.Gadget.Skips.{build_skips, build_clear, build_arms}
use n8n_libpetri.Compiler.Gadget.Build.{build_transitions, build_gadget}
use n8n_libpetri.Compiler.Gadget.Weights.{Coefficients, weight, Weighs, IsBalanced}
use n8n_libpetri.Compiler.Gadget.Parts.{SideWeighs, declare_form-Weighs}
use n8n_libpetri.Compiler.Gadget.Routed.{RoutingWeighs, success_branch-Weighs}
use n8n_libpetri.Compiler.Gadget.Outlets.{IsFair, build_routing-Weighs}
use n8n_libpetri.Compiler.Gadget.Balance.Places.{
  RetryWeighs, AttemptWeighs, AgentWeighs, declare_retry-Weighs, declare_failure_chain-Weighs,
  declare_agent-Weighs, numbered_ports-Light,
}
use n8n_libpetri.Compiler.Gadget.Balance.Starts.{build_start-Balanced}
use n8n_libpetri.Compiler.Gadget.Balance.Runs.{build_run-Balanced}
use n8n_libpetri.Compiler.Gadget.Balance.Routes.{
  build_route_and_done-Balanced, build_sinks-Balanced,
}
use n8n_libpetri.Compiler.Gadget.Balance.Skips.{
  routing_outputs-Light, skip_empties-Weigh, build_skips-Balanced, build_clear-Balanced,
}
use n8n_libpetri.Compiler.Gadget.Balance.Arms.{build_arms-Balanced}
use n8n_libpetri.Compiler.Gadget.Balance.Steps.{
  build_agent_round-Balanced, build_retry_gadget-Balanced, build_failure_steps-Balanced,
}

module _ (c : Coefficients) (ctx : GadgetContext) where
  -- The parts of a gadget weigh what they should.
  record PartsWeigh (side : InputSide) (r : Routing) (retry_side : Option LocalRetry)
      (attempts : List LocalAttempt) (agent : Option LocalAgent) (success : Out) : Type 0 where
    inputs_side : SideWeighs c side
    outputs_side : RoutingWeighs c r
    retries : OptionAll (RetryWeighs c) retry_side
    chain : All (AttemptWeighs c) attempts
    round : OptionAll (AgentWeighs c) agent
    outcome : Weighs c c.unit success

  build_transitions-Balanced :
      (side : InputSide) (r : Routing) (retry_side : Option LocalRetry)
      (attempts : List LocalAttempt) (agent : Option LocalAgent) (success : Out)
      (ts : List Transition)
      → build_transitions ctx side r retry_side attempts agent success ≡ ok ts
      → PartsWeigh side r retry_side attempts agent success
      → All (IsBalanced c) ts
  unfolding build_transitions weight
  build_transitions-Balanced side r retry_side attempts agent success ts h w =
      let all = All-append (IsBalanced c) in
      let (starts, e₁, h₁) =
        >>=-eq-ok (build_start ctx side (declare_references 0 ctx.references)) _ h in
      let (runs, e₂, h₂) =
        >>=-eq-ok (build_run ctx success retry_side attempts (chain_timeout ctx.failure) agent) _
          h₁ in
      let (routes, e₃, h₃) = >>=-eq-ok (build_route_and_done ctx.depth r) _ h₂ in
      let (rounds, e₄, h₄) =
        >>=-eq-ok (build_agent_round ctx.depth agent (tool_in_ports ctx)) _ h₃ in
      let (skips, e₅, h₅) =
        >>=-eq-ok (build_skips ctx.depth side (can_skip side) (skip_empties ctx r)) _ h₄ in
      let (arms, e₆, h₆) = >>=-eq-ok (build_arms ctx.depth side) _ h₅ in
      let (retries, e₇, h₇) = >>=-eq-ok (build_retry_gadget ctx success retry_side) _ h₆ in
      let (steps, e₈, built) = >>=-eq-ok (build_failure_steps ctx.depth success attempts) _ h₇ in
      let clears = build_clear ctx.depth side in
      let b₁ =
        all starts runs
          (build_start-Balanced c ctx side (declare_references 0 ctx.references) starts e₁
            w.inputs_side)
          (build_run-Balanced c ctx success retry_side attempts (chain_timeout ctx.failure) agent
            runs e₂ w.outcome w.retries w.chain w.round) in
      let b₂ =
        all (starts ++ runs) routes b₁
          (build_route_and_done-Balanced c ctx.depth r routes e₃ w.outputs_side) in
      let b₃ = all (starts ++ runs ++ routes) rounds b₂ (
        build_agent_round-Balanced c ctx.depth agent (tool_in_ports ctx) rounds e₄ w.round
          (numbered_ports-Light c tool_in (λ k. refl) 0 ctx.tools)) in
      let b₄ = all (starts ++ runs ++ routes ++ rounds) skips b₃ (
        build_skips-Balanced c ctx.depth side (can_skip side) (skip_empties ctx r) skips e₅
          w.inputs_side (skip_empties-Weigh c ctx r w.outputs_side)) in
      let b₅ =
        all (starts ++ runs ++ routes ++ rounds ++ skips) clears b₄
          (build_clear-Balanced c ctx.depth side w.inputs_side) in
      let b₆ =
        all (starts ++ runs ++ routes ++ rounds ++ skips ++ clears) arms b₅
          (build_arms-Balanced c ctx.depth side arms e₆ w.inputs_side) in
      let b₇ =
        all (starts ++ runs ++ routes ++ rounds ++ skips ++ clears ++ arms) retries b₆
          (build_retry_gadget-Balanced c ctx success retry_side retries e₇ w.outcome w.retries) in
      let b₈ =
        all (starts ++ runs ++ routes ++ rounds ++ skips ++ clears ++ arms ++ retries) steps b₇
          (build_failure_steps-Balanced c ctx.depth success attempts steps e₈ w.outcome w.chain) in
      subst (All (IsBalanced c)) (ok-injective built) (
        all _ _ b₈ (
          build_sinks-Balanced c ctx.depth (routing_outputs r)
            (routing_outputs-Light c r w.outputs_side)))

-- Each transition of a gadget that is built takes tokens of some total weight and writes, on every
-- branch of its output, tokens of the same total weight. A budget token, a token at a retry,
-- failed, timed-out, routed or request place weigh one unit, and a token at a running place weighs
-- one unit and that of `X/idle`; the free and the ready place of one join input weigh the same;
-- where the node routes per output the marker of each connected output weighs a share, and the
-- shares add up to one unit; every other place weighs nothing. An arc that takes all tokens of a
-- place takes them from one without weight.
pub build_gadget-Balanced :
    (c : Coefficients) (ctx : GadgetContext) (ts : List Transition)
    → IsFair c ctx
    → build_gadget ctx ≡ ok ts
    → All (IsBalanced c) ts
unfolding build_gadget declare_side weight
build_gadget-Balanced c ctx ts fair h =
    let (side, e₁, h₁) = >>=-eq-ok (declare_side ctx) _ h in
    let (r, e₂, h₂) = >>=-eq-ok (build_routing ctx (can_skip side)) _ h₁ in
    let (attempts, e₃, h₃) = >>=-eq-ok (declare_failure_chain ctx) _ h₂ in
    let (agent, e₄, h₄) =
      >>=-eq-ok (declare_agent ctx.tools ctx.max_rounds ctx.max_tool_calls) _ h₃ in
    let (success, e₅, h₅) = >>=-eq-ok (success_branch side r (agent_response_ports ctx)) _ h₄ in
    let routing = build_routing-Weighs c ctx (can_skip side) r e₂ fair in
    build_transitions-Balanced c ctx side r (declare_retry ctx.retry) attempts agent success ts h₅
      (record {
        inputs_side = declare_form-Weighs c ctx ctx.form side e₁;
        outputs_side = routing;
        retries = declare_retry-Weighs c ctx.retry;
        chain = declare_failure_chain-Weighs c ctx attempts e₃;
        round = declare_agent-Weighs c ctx.tools ctx.max_rounds ctx.max_tool_calls agent e₄;
        outcome =
            success_branch-Weighs c side r (agent_response_ports ctx) success e₅
              (numbered_ports-Light c agent_response (λ k. refl) 0 ctx.agents) routing;
      })
