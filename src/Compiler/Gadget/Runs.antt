-- ===== src/Compiler/Gadget/Runs.antt =====
-- gadget/start.ts, run.ts and routing.ts: the transitions that start and run a node and deliver
-- its outcome.
use n8n_libpetri.Prelude.{true, ℕ, zero, suc, Option, none, some, List, [], ◌∷◌, ◌++◌, map, String}
use n8n_libpetri.Prelude.Json.{Num, nat, negative}
use n8n_libpetri.Prelude.Results.{Result, ok, ◌>>=◌}
use n8n_libpetri.Compiler.Names.Transitions.{start_unmet_of, attempt_run_of, route_of, sink_of}
use n8n_libpetri.Compiler.Gadget.Net.{
  Place, budget, halt, pause, idle, running, done, In, one, all_of, Out, place, forward, and, xor,
  timeout, more, TransitionInfo, start, run_failed, finish, sink, route, start_unmet, run,
  Transition, outs,
}
use n8n_libpetri.Compiler.Gadget.Shapes.{
  GadgetError, split, JoinInput, InputSide, direct_side, or_side, join_side, choose_branch_side,
  tool_side, LocalOutput, SplitOutput, Routing, collapsed, LocalAttempt, LocalRetry, LocalAgent,
  ReferencePorts, GadgetContext,
}
use n8n_libpetri.Compiler.Gadget.Declare.{map_result, ready_slot, free_refunds}
use n8n_libpetri.Compiler.Gadget.Outputs.{xor_of, routing_of, closing_branches}
use n8n_libpetri.Compiler.Gadget.Failure.{shared_ports, markers_of_node}

-- `depth - 1`.
abbrev pub below : ℕ → Num
below zero = negative 0
below (suc n) = nat n

abbrev pub single_ready : JoinInput → Result GadgetError Place
single_ready i = ready_slot i.slot true

-- start.ts `activationInputs`.
abbrev pub activation_inputs : InputSide → Result GadgetError (List In)
activation_inputs (tool_side p) = ok (one p ∷ [])
activation_inputs (direct_side p e) = ok (one p ∷ [])
activation_inputs (or_side i) = ok (one i.hasdata_place ∷ [])
activation_inputs (join_side h inputs) = do
  slots ← map_result single_ready inputs
  ok (map one slots ++ all_of h ∷ [])
activation_inputs (choose_branch_side inputs) = do
  slots ← map_result single_ready inputs
  ok (map one slots)

-- start.ts `startOutput`.
abbrev pub start_output : InputSide → Out
start_output (tool_side p) = place running
start_output (direct_side p e) = place running
start_output (or_side i) = and (outs (place running ∷ place i.ran_place ∷ []))
start_output (join_side h inputs) =
    and (more (place running) (outs (free_refunds (join_side h inputs))))
start_output (choose_branch_side inputs) =
    and (more (place running) (outs (free_refunds (choose_branch_side inputs))))

abbrev pub start_transition :
    InputSide → List In → TransitionInfo → String → List Place → Num → Transition
start_transition side activation role name reads priority = record {
  name = name;
  role = role;
  inputs = activation ++ one budget ∷ one idle ∷ [];
  inhibitors = halt ∷ pause ∷ [];
  reads = reads;
  outputs = some (start_output side);
  priority = priority;
  delay = none;
}

-- One twin for each guarded reference, one priority lower.
abbrev pub start_twins : ℕ → InputSide → List In → ℕ → List (String × Place) → List Transition
start_twins depth side activation k [] = []
start_twins depth side activation k ((node, p) ∷ ps) =
    start_transition side activation (start_unmet node) (start_unmet_of k) (p ∷ []) (below depth)
    ∷ start_twins depth side activation (suc k) ps

abbrev pub build_start :
    GadgetContext → InputSide → ReferencePorts → Result GadgetError (List Transition)
build_start ctx side refs = do
  activation ← activation_inputs side
  ok (
      start_transition side activation start "start" refs.done_ports (nat ctx.depth)
      ∷ start_twins ctx.depth side activation 0 refs.skipped_ports)

-- A transition without guards, delay or read arcs.
abbrev pub plain_transition : String → TransitionInfo → List In → Option Out → ℕ → Transition
plain_transition name role inputs outputs priority = record {
  name = name;
  role = role;
  inputs = inputs;
  inhibitors = [];
  reads = [];
  outputs = outputs;
  priority = nat priority;
  delay = none;
}

-- run.ts `outcomeFor`: the failure place of a policy comes before the retry place.
abbrev pub retry_branch : Option LocalRetry → Option Place → List Out
retry_branch r (some failure) = place failure ∷ []
retry_branch none none = []
retry_branch (some r) none = place r.retry_place ∷ []

abbrev pub request_branch : Option LocalAgent → List Out
request_branch none = []
request_branch (some a) = place a.routed_request_place ∷ []

unfoldable pub outcome_for :
    GadgetContext
    → Out
    → Option LocalRetry
    → Option LocalAgent
    → Option Place
    → Result GadgetError Out
outcome_for ctx success r agent failure = xor_of (
    success
    ∷ (retry_branch r failure
        ++ closing_branches shared_ports markers_of_node ctx.stop_workflow
        ++ request_branch agent))

-- The timeout child forwards the run payload to the place of the deadline.
abbrev pub with_deadline : Option ℕ → LocalAttempt → Out → Out
with_deadline none att normal = normal
with_deadline (some ms) att normal = elim att.timed_out_place [
  | none ↦ normal
  | some late ↦ xor (
      outs
        (normal ∷ timeout ms (and (outs (forward att.running_place late ∷ place idle ∷ []))) ∷ []))
]

abbrev pub build_attempt_run :
    GadgetContext
    → Out
    → Option LocalRetry
    → Option LocalAgent
    → Option ℕ
    → LocalAttempt
    → Result GadgetError Transition
build_attempt_run ctx success r agent ms att = do
  outcome ← outcome_for ctx success r agent (some att.failed_place)
  ok (
      plain_transition (attempt_run_of att.index) (run att.index) (one att.running_place ∷ [])
        (some (with_deadline ms att (and (outs (outcome ∷ place idle ∷ []))))) (suc ctx.depth))

abbrev pub build_plain_run :
    GadgetContext → Out → Option LocalRetry → Option LocalAgent → Result GadgetError Transition
build_plain_run ctx success r agent = do
  outcome ← outcome_for ctx success r agent none
  ok (
      plain_transition "run" (run 1) (one running ∷ [])
        (some (and (outs (outcome ∷ place idle ∷ [])))) (suc ctx.depth))

abbrev pub first_failed : List LocalAttempt → Option Place
first_failed [] = none
first_failed (a ∷ later) = some a.failed_place

-- `A_run_failed`: the outcome without the request branch.
abbrev pub build_run_failed :
    GadgetContext
    → Out
    → Option LocalRetry
    → List LocalAttempt
    → Option LocalAgent
    → Result GadgetError (List Transition)
build_run_failed ctx success r attempts none = ok []
build_run_failed ctx success r attempts (some a) = do
  outcome ← outcome_for ctx success r none (first_failed attempts)
  ok (
      plain_transition "run_failed" run_failed (one a.running_failed_place ∷ [])
        (some (and (outs (outcome ∷ place idle ∷ [])))) (suc ctx.depth)
      ∷ [])

abbrev pub build_attempt_runs :
    GadgetContext
    → Out
    → Option LocalRetry
    → Option LocalAgent
    → Option ℕ
    → List LocalAttempt
    → Result GadgetError (List Transition)
build_attempt_runs ctx success r agent ms [] = do
  t ← build_plain_run ctx success r agent
  ok (t ∷ [])
build_attempt_runs ctx success r agent ms (a ∷ later) =
    map_result (build_attempt_run ctx success r agent ms) (a ∷ later)

unfoldable pub build_run :
    GadgetContext
    → Out
    → Option LocalRetry
    → List LocalAttempt
    → Option ℕ
    → Option LocalAgent
    → Result GadgetError (List Transition)
build_run ctx success r attempts ms agent = do
  runs ← build_attempt_runs ctx success r agent ms attempts
  failed_runs ← build_run_failed ctx success r attempts agent
  ok (runs ++ failed_runs)

-- routing.ts: `X_route_o` of the split shape, then `X_done`.
abbrev pub build_route : ℕ → SplitOutput → Result GadgetError Transition
build_route depth o = do
  delivery ← routing_of o.output
  ok (
      plain_transition (route_of o.output.index) (route o.output.index) (one o.ok_place ∷ [])
        (some (and (outs (delivery ∷ place o.routed_place ∷ [])))) (suc depth))

abbrev pub build_done : ℕ → List In → Transition
build_done depth inputs =
    plain_transition "done" finish inputs (some (and (outs (place budget ∷ place done ∷ []))))
      (suc depth)

unfoldable pub build_route_and_done : ℕ → Routing → Result GadgetError (List Transition)
build_route_and_done depth (collapsed r os) = ok (build_done depth (one r ∷ []) ∷ [])
build_route_and_done depth (split os) = do
  routes ← map_result (build_route depth) os
  ok (routes ++ build_done depth (map (λ o. one o.routed_place) os) ∷ [])

-- `buildSinks`: one for each `nil` place.
abbrev pub build_sinks : ℕ → List LocalOutput → List Transition
build_sinks depth [] = []
build_sinks depth (o ∷ os) = elim o.nil_place [
  | none ↦ build_sinks depth os
  | some p ↦ plain_transition (sink_of o.index) sink (one p ∷ []) none depth ∷ build_sinks depth os
]
