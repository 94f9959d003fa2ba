-- ===== src/Tests/Compile.antt =====
-- The composed net of a trigger that sends to one node.
use mathlib.Core.List.{Memᴰ, Permᴰ}
use mathlib.Core.List.Permᴰ
use n8n_libpetri.Prelude.{
  ◌≡◌, ◌≤◌, ◌+◌, refl, true, false, none, List, [], ◌∷◌, length, keep, arith,
}
use n8n_libpetri.Prelude.Json.{nat}
use n8n_libpetri.Prelude.Results.{Result, ok, err}
use n8n_libpetri.Compiler.Types.{EdgeRef, tree, direct}
use n8n_libpetri.Compiler.Gadget.Net.{Transition}
use n8n_libpetri.Compiler.Gadget.Shapes
use n8n_libpetri.Compiler.Gadget.Net
use n8n_libpetri.Compiler.Gadget.Shapes.{GadgetContext}
use n8n_libpetri.Compiler.Gadget.Declare.{declare_side, can_skip, input_indexes}
use n8n_libpetri.Compiler.Gadget.Outputs.{build_routing, success_branch}
use n8n_libpetri.Compiler.Gadget.Failure.{declare_failure_chain}
use n8n_libpetri.Compiler.Gadget.Runs.{build_run, build_route_and_done, outcome_for}
use n8n_libpetri.Compiler.Gadget.Skips.{build_skips, build_clear, build_arms}
use n8n_libpetri.Compiler.Gadget.Steps.{
  build_agent_round, build_retry_gadget, build_failure_steps, terminal_outcome,
}
use n8n_libpetri.Compiler.Gadget.Build.{build_transitions, build_gadget}
use n8n_libpetri.Compiler.Compile.{NetPlace, shared_budget, owned, place_beq}
use n8n_libpetri.Compiler.Compile.EdgePlaces.{NetNode, host_edge_places}
use n8n_libpetri.Compiler.Compile.Compose.{NodeBuild, build_node, compose_net, flat}
use n8n_libpetri.Compiler.Compile.Marking.{
  Marking, seed_node, shared_marking_of, initial_marking_of,
}
use n8n_libpetri.Compiler.Compile.Game.{Firing, TokenGame, Run, here, next, tokens_of}
use n8n_libpetri.Compiler.Compile.Kept.{net_total}
use n8n_libpetri.Compiler.Compile.Built.{AllFair}
use n8n_libpetri.Compiler.Compile.Budget.{budget_weights, is_under_way, compose_net-Budget}
use n8n_libpetri.Compiler.Compile.Occupancy.{split_outcomes, compose_net-Concurrency}
use n8n_libpetri.Compiler.Compile.Turns.{is_turn_of, compose_net-Turns}

abbrev sends : EdgeRef
sends = record { from = "a"; output_index = 0; to = "b"; input_index = 0; id = 0; kind = tree }

abbrev facts_of : List EdgeRef → List EdgeRef → GadgetContext
facts_of incoming outgoing = record {
  depth = 2;
  cyclic = false;
  reachable = true;
  reachable_nodes = "a" ∷ "b" ∷ [];
  incoming = incoming;
  outgoing = outgoing;
  form = direct;
  skip_forwards = true;
  stop_workflow = true;
  required = [];
  dead_inputs = [];
  output_count = 1;
  edge_slots = [];
  synthetic_input = false;
  references = [];
  retry = none;
  failure = none;
  tools = [];
  agents = [];
  max_rounds = none;
  max_tool_calls = none;
}

abbrev trigger : NetNode
trigger = record {
  id = "1";
  name = "a";
  is_tool = false;
  is_referenced = false;
  facts = facts_of [] (sends ∷ []);
}

abbrev action : NetNode
action = record {
  id = "2";
  name = "b";
  is_tool = false;
  is_referenced = false;
  facts = facts_of (sends ∷ []) [];
}

abbrev two_nodes : List NetNode
two_nodes = trigger ∷ action ∷ []

-- What a result holds, or a default.
abbrev value {ℓ κ} : {E : Type ℓ} {A : Type κ} → A → Result E A → A
value d (ok a) = a
value d (err e) = d

abbrev builds : List NodeBuild
builds = value [] (compose_net two_nodes)

composes : compose_net two_nodes ≡ ok builds
unfolding compose_net host_edge_places build_node build_gadget build_transitions declare_side
    can_skip input_indexes build_routing success_branch declare_failure_chain build_run
    build_route_and_done outcome_for build_skips build_clear build_arms build_agent_round
    build_retry_gadget build_failure_steps terminal_outcome
composes = refl

abbrev shared : Marking
shared = value [] (shared_marking_of builds [] 2)

abbrev first : NodeBuild → List NodeBuild → NodeBuild
first d [] = d
first d (b ∷ bs) = b

-- A build that no list below falls back to.
abbrev no_build : NodeBuild
no_build = record {
  node = trigger;
  context = trigger.facts;
  side = Shapes.tool_side Net.in_tool;
  retry_side = none;
  agent = none;
  transitions = [];
  ports = [];
}

abbrev trigger_build : NodeBuild
trigger_build = first no_build builds

abbrev start : Marking
start = value [] (initial_marking_of shared trigger_build)

two_nodes-AllFair : AllFair (budget_weights 1 (λ id. 0)) two_nodes
two_nodes-AllFair = ((λ s. cc s), ((λ s. cc s), tt))

start_tokens :
    tokens_of start
    ≡ shared_budget
      ∷ shared_budget
      ∷ owned "1" Net.idle
      ∷ owned "2" Net.idle
      ∷ owned "1" Net.input
      ∷ []
unfolding compose_net host_edge_places build_node build_gadget build_transitions declare_side
    can_skip input_indexes build_routing success_branch declare_failure_chain build_run
    build_route_and_done outcome_for build_skips build_clear build_arms build_agent_round
    build_retry_gadget build_failure_steps terminal_outcome shared_marking_of seed_node
    initial_marking_of flat place_beq
start_tokens = refl

shares : shared_marking_of builds [] 2 ≡ ok shared
unfolding compose_net host_edge_places build_node build_gadget build_transitions declare_side
    can_skip input_indexes build_routing success_branch declare_failure_chain build_run
    build_route_and_done outcome_for build_skips build_clear build_arms build_agent_round
    build_retry_gadget build_failure_steps terminal_outcome shared_marking_of seed_node flat
    place_beq
shares = refl

starts : initial_marking_of shared trigger_build ≡ ok start
unfolding compose_net host_edge_places build_node build_gadget build_transitions declare_side
    can_skip input_indexes build_routing success_branch declare_failure_chain build_run
    build_route_and_done outcome_for build_skips build_clear build_arms build_agent_round
    build_retry_gadget build_failure_steps terminal_outcome shared_marking_of seed_node
    initial_marking_of flat place_beq
starts = refl

abbrev no_transition : Transition
no_transition = record {
  name = "";
  role = Net.sink;
  inputs = [];
  reads = [];
  inhibitors = [];
  outputs = none;
  priority = nat 0;
  delay = none;
}

abbrev head_of : List Transition → Transition
head_of [] = no_transition
head_of (t ∷ ts) = t

-- The trigger has started: its input, a budget token and its turn are at its running place.
abbrev started : List NetPlace
started = owned "1" Net.running ∷ shared_budget ∷ owned "2" Net.idle ∷ []

start_fires : Firing trigger_build (head_of trigger_build.transitions) (tokens_of start) started
unfolding compose_net host_edge_places build_node build_gadget build_transitions declare_side
    can_skip input_indexes build_routing success_branch declare_failure_chain build_run
    build_route_and_done outcome_for build_skips build_clear build_arms build_agent_round
    build_retry_gadget build_failure_steps terminal_outcome shared_marking_of seed_node
    initial_marking_of flat place_beq
start_fires = record {
  taken = Net.input ∷ Net.budget ∷ Net.idle ∷ [];
  written = Net.running ∷ [];
  others = shared_budget ∷ owned "2" Net.idle ∷ [];
  fits = (_, refl, (_, refl, (_, refl, refl)));
  branch = Memᴰ.head refl;
  takes =
      Permᴰ.trans
        (Permᴰ.middle (owned "1" Net.input)
          (shared_budget ∷ shared_budget ∷ owned "1" Net.idle ∷ owned "2" Net.idle ∷ []) [])
        (Permᴰ.cons refl (Permᴰ.cons refl (Permᴰ.swap refl refl)));
  leaves = Permᴰ.refl started;
}

abbrev plain_game : TokenGame
plain_game = record { Fires = Firing; fires_lem = λ b t before after f. f }

started-Run : Run plain_game builds (tokens_of start) started
unfolding compose_net host_edge_places build_node build_gadget build_transitions declare_side
    can_skip input_indexes build_routing success_branch declare_failure_chain build_run
    build_route_and_done outcome_for build_skips build_clear build_arms build_agent_round
    build_retry_gadget build_failure_steps terminal_outcome
started-Run =
    next trigger_build (head_of trigger_build.transitions) here (Memᴰ.head refl) (Memᴰ.head refl)
      start_fires

trigger-Mem : Memᴰ trigger_build builds
unfolding compose_net host_edge_places build_node build_gadget build_transitions declare_side
    can_skip input_indexes build_routing success_branch declare_failure_chain build_run
    build_route_and_done outcome_for build_skips build_clear build_arms build_agent_round
    build_retry_gadget build_failure_steps terminal_outcome
trigger-Mem = Memᴰ.head refl

compose_net-Budget_example : net_total (budget_weights 1 (λ id. 0)) started ≡ 2
compose_net-Budget_example =
    compose_net-Budget 1 (λ id. 0) plain_game two_nodes builds [] 2 trigger_build shared start
      started composes two_nodes-AllFair trigger-Mem shares starts started-Run

compose_net-Concurrency_example :
    length (keep is_under_way started) + split_outcomes started two_nodes ≤ 2
compose_net-Concurrency_example =
    compose_net-Concurrency plain_game two_nodes builds [] 2 trigger_build shared start started
      (refl, (refl, tt)) ((omega arith, tt), (tt, tt)) composes trigger-Mem shares starts
      started-Run

compose_net-Turns_example : length (keep (is_turn_of "1") started) ≤ 1
compose_net-Turns_example =
    compose_net-Turns "1" plain_game two_nodes builds [] 2 trigger_build shared start started
      composes trigger-Mem shares starts started-Run
