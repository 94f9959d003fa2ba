-- ===== src/Compiler/Gadget/Failure.antt =====
-- gadget/failure-places.ts, agent-places.ts, ports.ts and cross-node-ports.ts: the places of the
-- failure side and of the agent round, and the ports that cross a node boundary.
use n8n_libpetri.Prelude.{
  ℕ, suc, Bool, Option, none, some, List, [], ◌∷◌, String, nat_eq, if◌then◌else◌,
}
use n8n_libpetri.Prelude.Results.{Result, ok, err, ◌>>=◌}
use n8n_libpetri.Compiler.Types.{
  ResolvedStep, FailureChain, RetryParams, ResolvedReference, ReferenceKind, read, seeded,
  unguarded,
}
use n8n_libpetri.Compiler.Types as Types
use n8n_libpetri.Compiler.Gadget.Net.{
  Place, budget, halt, pause, idle, running, done, waiting, stopped, retry, tries, routed_request,
  queue, calls, drained, outstanding, dispatched, rounds, response, running_failed, running_at,
  failed, timed_out, ref_done, ref_skipped, tool_in, agent_response,
}
use n8n_libpetri.Compiler.Gadget.Shapes.{
  GadgetError, no_next_attempt, no_agent_budget, AttemptAction, retry_to, route_to, stop, continue,
  LocalAttempt, LocalRetry, LocalAgent, SharedPorts, Markers, ReferencePorts, GadgetContext,
}

abbrev pub shared_ports : SharedPorts
shared_ports = record { budget_place = budget; halt_place = halt; pause_place = pause }

abbrev pub markers_of_node : Markers
markers_of_node = record {
  idle_place = idle;
  running_place = running;
  done_place = done;
  waiting_place = waiting;
  stopped_place = stopped;
}

-- `declareRetryPlaces`.
abbrev pub declare_retry : Option RetryParams → Option LocalRetry
declare_retry none = none
declare_retry (some r) = some (record {
  retry_place = retry;
  tries_place = tries;
  max_tries = r.max_tries;
  wait_between_tries = r.wait_between_tries;
})

abbrev step_attempt : ResolvedStep → ℕ
step_attempt (Types.ResolvedStep.retry k w n) = k
step_attempt (Types.ResolvedStep.route k o) = k
step_attempt (Types.ResolvedStep.stop k) = k
step_attempt (Types.ResolvedStep.continue k) = k

-- `attemptOf`: a retry escalates to the running place of the next attempt.
abbrev pub action_of : ResolvedStep → Option Place → Result GadgetError AttemptAction
action_of (Types.ResolvedStep.retry k w n) none = err no_next_attempt
action_of (Types.ResolvedStep.retry k w n) (some next) = ok (retry_to w next)
action_of (Types.ResolvedStep.route k o) next = ok (route_to o)
action_of (Types.ResolvedStep.stop k) next = ok stop
action_of (Types.ResolvedStep.continue k) next = ok continue

-- The first attempt runs on the running place of the node.
abbrev pub attempt_running : Bool → ResolvedStep → Place
attempt_running first s = if first then running else running_at (step_attempt s)

abbrev pub attempt_timed_out : Option ℕ → ResolvedStep → Option Place
attempt_timed_out none s = none
attempt_timed_out (some ms) s = some (timed_out (step_attempt s))

abbrev pub next_running : List LocalAttempt → Option Place
next_running [] = none
next_running (a ∷ as') = some a.running_place

-- `declareFailureChain`: the attempts, linked from the end.
abbrev pub declare_attempts :
    Option ℕ → Bool → List ResolvedStep → Result GadgetError (List LocalAttempt)
declare_attempts ms first [] = ok []
declare_attempts ms first (s ∷ ss) = do
  later ← declare_attempts ms Bool.false ss
  action ← action_of s (next_running later)
  ok (
      record {
        index = step_attempt s;
        running_place = attempt_running first s;
        failed_place = failed (step_attempt s);
        timed_out_place = attempt_timed_out ms s;
        action = action;
      }
      ∷ later)

abbrev pub chain_timeout : Option FailureChain → Option ℕ
chain_timeout none = none
chain_timeout (some c) = c.timeout_ms

abbrev pub chain_steps : Option FailureChain → List ResolvedStep
chain_steps none = []
chain_steps (some c) = c.steps

unfoldable pub declare_failure_chain : GadgetContext → Result GadgetError (List LocalAttempt)
declare_failure_chain ctx =
    declare_attempts (chain_timeout ctx.failure) Bool.true (chain_steps ctx.failure)

-- agent-places.ts: a node with tools is an agent.
abbrev pub agent_places : List String → Option ℕ → Option ℕ → Result GadgetError LocalAgent
agent_places names (some r) (some c) = ok (record {
  routed_request_place = routed_request;
  queue_place = queue;
  calls_place = calls;
  drained_place = drained;
  outstanding_place = outstanding;
  dispatched_place = dispatched;
  rounds_place = rounds;
  response_place = response;
  running_failed_place = running_failed;
  tools = names;
  max_rounds = r;
  max_tool_calls = c;
})
agent_places names _ _ = err no_agent_budget

abbrev pub declare_agent :
    List String → Option ℕ → Option ℕ → Result GadgetError (Option LocalAgent)
declare_agent [] rs cs = ok none
declare_agent (t ∷ ts) rs cs = do a ← agent_places (t ∷ ts) rs cs; ok (some a)

-- cross-node-ports.ts: the guarded references are numbered, the unguarded ones get no port.
abbrev pub declare_references : ℕ → List ResolvedReference → ReferencePorts
declare_references k [] = record { done_ports = []; skipped_ports = []; names = []; unguarded = [] }
declare_references k (r ∷ rs) = elim r.kind [
  | unguarded ↦
      let later = declare_references k rs in record later { unguarded = r.node ∷ later.unguarded }
  | _ ↦
      let later = declare_references (suc k) rs in
      record {
        done_ports = ref_done k ∷ later.done_ports;
        skipped_ports = (r.node, ref_skipped k) ∷ later.skipped_ports;
        names = r.node ∷ later.names;
        unguarded = later.unguarded;
      }
]

-- `declareToolPorts`: one numbered port for each name.
abbrev pub numbered_ports : (ℕ → Place) → ℕ → List String → List Place
numbered_ports port k [] = []
numbered_ports port k (n ∷ ns) = port k ∷ numbered_ports port (suc k) ns

abbrev pub tool_in_ports : GadgetContext → List Place
tool_in_ports ctx = numbered_ports tool_in 0 ctx.tools

abbrev pub agent_response_ports : GadgetContext → List Place
agent_response_ports ctx = numbered_ports agent_response 0 ctx.agents
