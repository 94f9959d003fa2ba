-- ===== src/Tests/Gadget.antt =====
-- The gadgets of small nodes: a join of two inputs with four connected outputs, a choose-branch
-- node with two required inputs, and an agent with a tool and a failure chain.
use n8n_libpetri.Prelude.{
  ℕ, ◌≡◌, refl, true, false, none, some, List, [], ◌∷◌, map, String, nat_eq, length,
}
use n8n_libpetri.Prelude.Predicates.{All}
use n8n_libpetri.Prelude.Results.{Result, ok, err}
use n8n_libpetri.Compiler.Types.{EdgeRef, tree, join, ResolvedStep}
use n8n_libpetri.Compiler.Names.Transitions.{skip_combination_of}
use n8n_libpetri.Compiler.Gadget.Net.{free, ready_data, ready_empty}
use n8n_libpetri.Compiler.Gadget.Shapes.{
  GadgetError, EdgeSlot, split, JoinInput, choose_branch_side, GadgetContext,
}
use n8n_libpetri.Compiler.Gadget.Declare.{declare_side, can_skip, input_indexes}
use n8n_libpetri.Compiler.Gadget.Outputs.{build_routing, success_branch}
use n8n_libpetri.Compiler.Gadget.Failure.{declare_failure_chain}
use n8n_libpetri.Compiler.Gadget.Runs.{build_run, build_route_and_done, outcome_for}
use n8n_libpetri.Compiler.Gadget.Skips.{build_skips, build_clear, build_arms}
use n8n_libpetri.Compiler.Gadget.Steps.{
  build_agent_round, build_retry_gadget, build_failure_steps, terminal_outcome,
}
use n8n_libpetri.Compiler.Gadget.Build.{build_transitions, build_gadget}
use n8n_libpetri.Compiler.Gadget.Weights.{Coefficients, IsBalanced}
use n8n_libpetri.Compiler.Gadget.Invariant.{build_gadget-Balanced}

abbrev edge : ℕ → String → ℕ → String → ℕ → EdgeRef
edge id from o to i = record {
  from = from;
  output_index = o;
  to = to;
  input_index = i;
  id = id;
  kind = tree;
}

abbrev slot : ℕ → EdgeSlot
slot n = record { id = n; has_empty = true }

-- A join of `a` and `b` that sends to four nodes.
abbrev join_context : GadgetContext
join_context = record {
  depth = 2;
  cyclic = false;
  reachable = true;
  reachable_nodes = "a" ∷ "b" ∷ "x" ∷ [];
  incoming = edge 0 "a" 0 "x" 0 ∷ edge 1 "b" 0 "x" 1 ∷ [];
  outgoing = edge 2 "x" 0 "c" 0 ∷ edge 3 "x" 1 "d" 0 ∷ edge 4 "x" 2 "e" 0 ∷ edge 5 "x" 3 "f" 0 ∷ [];
  form = join;
  skip_forwards = true;
  stop_workflow = true;
  required = [];
  dead_inputs = [];
  output_count = 4;
  edge_slots = slot 0 ∷ slot 1 ∷ slot 2 ∷ slot 3 ∷ slot 4 ∷ slot 5 ∷ [];
  synthetic_input = false;
  references = [];
  retry = none;
  failure = some (record {
    steps = ResolvedStep.retry 1 100 2 ∷ ResolvedStep.stop 2 ∷ [];
    timeout_ms = some 5000;
  });
  tools = "t" ∷ [];
  agents = [];
  max_rounds = some 3;
  max_tool_calls = some 5;
}

abbrev quarters : Coefficients
quarters = record { unit = 4; turn = 7; part = 1; slot = λ i. 10 }

-- What a build of the gadget gives, or nothing.
abbrev transitions_of : {A : Type 0} → Result GadgetError (List A) → List A
transitions_of (ok ts) = ts
transitions_of (err e) = []

join_gadget_builds : build_gadget join_context ≡ ok (transitions_of (build_gadget join_context))
unfolding build_gadget build_transitions declare_side can_skip input_indexes build_routing
    success_branch declare_failure_chain build_run build_route_and_done outcome_for build_skips
    build_clear build_arms build_agent_round build_retry_gadget build_failure_steps terminal_outcome
join_gadget_builds = refl

build_gadget-Balanced_example :
    All (IsBalanced quarters) (transitions_of (build_gadget join_context))
build_gadget-Balanced_example =
    build_gadget-Balanced quarters join_context (transitions_of (build_gadget join_context))
      (λ routes_per_output. refl) join_gadget_builds

join_gadget_size : length (transitions_of (build_gadget join_context)) ≡ 24
unfolding build_gadget build_transitions declare_side can_skip input_indexes build_routing
    success_branch declare_failure_chain build_run build_route_and_done outcome_for build_skips
    build_clear build_arms build_agent_round build_retry_gadget build_failure_steps terminal_outcome
join_gadget_size = refl

abbrev required_input : ℕ → JoinInput
required_input i = record {
  common = record {
    index = i;
    edges = [];
    wired = true;
    required = true;
    empty_capable = true;
    seed_empty = false;
    unreachable_edges = 0;
  };
  free_place = free i;
  slot = split (ready_data i) (some (ready_empty i));
}

abbrev two_inputs : List JoinInput
two_inputs = required_input 0 ∷ required_input 1 ∷ []

two_inputs-skips_names :
    map (λ t. t.name) (transitions_of (build_skips 1 (choose_branch_side two_inputs) true []))
    ≡ "skip_de" ∷ "skip_ed" ∷ "skip_ee" ∷ []
unfolding build_skips skip_combination_of
two_inputs-skips_names = refl
