-- ===== src/Compiler/Gadget/Build.antt =====
-- gadget.ts `buildV1NodeGadget`: the transitions of one node's gadget, in the order of emission.
use n8n_libpetri.Prelude.{Option, List, ◌++◌}
use n8n_libpetri.Prelude.Results.{Result, ok, ◌>>=◌}
use n8n_libpetri.Compiler.Gadget.Net.{Out, Transition}
use n8n_libpetri.Compiler.Gadget.Shapes.{
  GadgetError, InputSide, Routing, LocalAttempt, LocalRetry, LocalAgent, GadgetContext,
}
use n8n_libpetri.Compiler.Gadget.Declare.{declare_side, can_skip}
use n8n_libpetri.Compiler.Gadget.Outputs.{
  build_routing, success_branch, routing_outputs, skip_empties,
}
use n8n_libpetri.Compiler.Gadget.Failure.{
  declare_retry, declare_failure_chain, declare_agent, declare_references, chain_timeout,
  tool_in_ports, agent_response_ports,
}
use n8n_libpetri.Compiler.Gadget.Runs.{build_start, build_run, build_route_and_done, build_sinks}
use n8n_libpetri.Compiler.Gadget.Skips.{build_skips, build_clear, build_arms}
use n8n_libpetri.Compiler.Gadget.Steps.{build_agent_round, build_retry_gadget, build_failure_steps}

-- The transitions over the parts that the declarations give.
unfoldable pub build_transitions :
    GadgetContext
    → InputSide
    → Routing
    → Option LocalRetry
    → List LocalAttempt
    → Option LocalAgent
    → Out
    → Result GadgetError (List Transition)
build_transitions ctx side r retry_side attempts agent success = do
  starts ← build_start ctx side (declare_references 0 ctx.references)
  runs ← build_run ctx success retry_side attempts (chain_timeout ctx.failure) agent
  routes ← build_route_and_done ctx.depth r
  rounds_of ← build_agent_round ctx.depth agent (tool_in_ports ctx)
  skips ← build_skips ctx.depth side (can_skip side) (skip_empties ctx r)
  arms ← build_arms ctx.depth side
  retries ← build_retry_gadget ctx success retry_side
  steps ← build_failure_steps ctx.depth success attempts
  ok (
      starts
      ++ runs
      ++ routes
      ++ rounds_of
      ++ skips
      ++ build_clear ctx.depth side
      ++ arms
      ++ retries
      ++ steps
      ++ build_sinks ctx.depth (routing_outputs r))

unfoldable pub build_gadget : GadgetContext → Result GadgetError (List Transition)
build_gadget ctx = do
  side ← declare_side ctx
  r ← build_routing ctx (can_skip side)
  attempts ← declare_failure_chain ctx
  agent ← declare_agent ctx.tools ctx.max_rounds ctx.max_tool_calls
  success ← success_branch side r (agent_response_ports ctx)
  build_transitions ctx side r (declare_retry ctx.retry) attempts agent success
