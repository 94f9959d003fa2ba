-- ===== src/Compiler/Gadget/Steps.antt =====
-- gadget/agent-round.ts and failure-chain.ts: the transitions of the agent round, of the retry
-- gadget and of the `onFailure` chain.
use n8n_libpetri.Prelude.{ℕ, suc, ◌+◌, true, Option, none, some, List, [], ◌∷◌, ◌++◌, map}
use n8n_libpetri.Prelude.Json.{nat}
use n8n_libpetri.Prelude.Results.{Result, ok, ◌>>=◌}
use n8n_libpetri.Compiler.Names.Transitions.{deadline_of, attempt_step_of}
use n8n_libpetri.Compiler.Gadget.Net.{
  Place, budget, halt, pause, idle, running, stopped, one, Out, place, and, xor, done_request,
  dispatch, collect, resume, rounds_out, calls_out, retry_wait, exhausted, attempt, deadline,
  Transition, outs,
}
use n8n_libpetri.Compiler.Gadget.Shapes.{
  GadgetError, AttemptAction, retry_to, LocalAttempt, LocalRetry, LocalAgent, GadgetContext,
}
use n8n_libpetri.Compiler.Gadget.Outputs.{xor_of, closing_branches}
use n8n_libpetri.Compiler.Gadget.Failure.{shared_ports, markers_of_node}
use n8n_libpetri.Compiler.Gadget.Runs.{below, plain_transition}

-- `A_done_req`: the round opens with something to dispatch, or already drained.
abbrev pub done_request_transition : ℕ → LocalAgent → Transition
done_request_transition depth a =
    plain_transition "done_req" done_request (one a.routed_request_place ∷ [])
      (some (
        xor (
          outs (
            and (outs (place budget ∷ place a.queue_place ∷ place a.dispatched_place ∷ []))
            ∷ and (outs (place budget ∷ place a.drained_place ∷ place a.dispatched_place ∷ []))
            ∷ []))))
      (suc depth)

abbrev pub dispatch_transition : ℕ → LocalAgent → Out → Transition
dispatch_transition depth a target = record {
  name = "dispatch";
  role = dispatch;
  inputs = one a.queue_place ∷ one a.calls_place ∷ [];
  inhibitors = halt ∷ pause ∷ [];
  reads = [];
  outputs = some (
      and (
        outs (
          target
          ∷ place a.outstanding_place
          ∷ xor (outs (place a.queue_place ∷ place a.drained_place ∷ []))
          ∷ [])));
  priority = nat (suc depth);
  delay = none;
}

-- A genuine sink.
abbrev pub collect_transition : ℕ → LocalAgent → Transition
collect_transition depth a =
    plain_transition "collect" collect (one a.outstanding_place ∷ one a.response_place ∷ []) none
      (2 + depth)

abbrev pub resume_transition : ℕ → LocalAgent → Transition
resume_transition depth a = record {
  name = "resume";
  role = resume;
  inputs =
      one a.dispatched_place
      ∷ one a.drained_place
      ∷ one a.rounds_place
      ∷ one idle
      ∷ one budget
      ∷ [];
  inhibitors = a.outstanding_place ∷ halt ∷ pause ∷ [];
  reads = [];
  outputs = some (place running);
  priority = nat depth;
  delay = none;
}

abbrev pub calls_out_transition : ℕ → LocalAgent → Transition
calls_out_transition depth a = record {
  name = "calls_out";
  role = calls_out;
  inputs = one a.dispatched_place ∷ one a.queue_place ∷ one idle ∷ one budget ∷ [];
  inhibitors = a.calls_place ∷ a.outstanding_place ∷ halt ∷ pause ∷ [];
  reads = [];
  outputs = some (place a.running_failed_place);
  priority = below depth;
  delay = none;
}

abbrev pub rounds_out_transition : ℕ → LocalAgent → Transition
rounds_out_transition depth a = record {
  name = "rounds_out";
  role = rounds_out;
  inputs = one a.dispatched_place ∷ one a.drained_place ∷ [];
  inhibitors = a.outstanding_place ∷ a.rounds_place ∷ halt ∷ [];
  reads = [];
  outputs = some (and (outs (place stopped ∷ place pause ∷ [])));
  priority = below depth;
  delay = none;
}

unfoldable pub build_agent_round :
    ℕ → Option LocalAgent → List Place → Result GadgetError (List Transition)
build_agent_round depth none ports = ok []
build_agent_round depth (some a) ports = do
  target ← xor_of (map place ports)
  ok (
      done_request_transition depth a
      ∷ dispatch_transition depth a target
      ∷ collect_transition depth a
      ∷ resume_transition depth a
      ∷ calls_out_transition depth a
      ∷ rounds_out_transition depth a
      ∷ [])

-- `X_retry_wait` holds the budget across the wait; `X_exhausted` ends the retries.
abbrev pub retry_wait_transition : ℕ → LocalRetry → Transition
retry_wait_transition depth r = record {
  name = "retry_wait";
  role = retry_wait;
  inputs = one r.retry_place ∷ one r.tries_place ∷ one idle ∷ [];
  inhibitors = halt ∷ pause ∷ [];
  reads = [];
  outputs = some (place running);
  priority = nat depth;
  delay = some r.wait_between_tries;
}

abbrev pub exhausted_transition : ℕ → LocalRetry → Out → Transition
exhausted_transition depth r outcome = record {
  name = "exhausted";
  role = exhausted;
  inputs = one r.retry_place ∷ [];
  inhibitors = r.tries_place ∷ halt ∷ [];
  reads = [];
  outputs = some outcome;
  priority = nat (suc depth);
  delay = none;
}

unfoldable pub build_retry_gadget :
    GadgetContext → Out → Option LocalRetry → Result GadgetError (List Transition)
build_retry_gadget ctx success none = ok []
build_retry_gadget ctx success (some r) = do
  outcome ← xor_of (success ∷ closing_branches shared_ports markers_of_node ctx.stop_workflow)
  ok (retry_wait_transition ctx.depth r ∷ exhausted_transition ctx.depth r outcome ∷ [])

-- The deadline funnel of an attempt: a rename that `_pause` does not hold up.
abbrev pub deadline_transition : ℕ → LocalAttempt → Place → Transition
deadline_transition depth att late = record {
  name = deadline_of att.index;
  role = deadline att.index;
  inputs = one late ∷ [];
  inhibitors = halt ∷ [];
  reads = [];
  outputs = some (place att.failed_place);
  priority = nat (suc depth);
  delay = none;
}

abbrev pub build_deadline : ℕ → LocalAttempt → List Transition
build_deadline depth att = elim att.timed_out_place [
  | none ↦ []
  | some late ↦ deadline_transition depth att late ∷ []
]

abbrev pub retry_step : ℕ → LocalAttempt → ℕ → Place → Transition
retry_step depth att wait next = record {
  name = attempt_step_of att.index;
  role = attempt att.index;
  inputs = one att.failed_place ∷ one idle ∷ [];
  inhibitors = halt ∷ pause ∷ [];
  reads = [];
  outputs = some (place next);
  priority = nat depth;
  delay = some wait;
}

abbrev pub terminal_step : ℕ → LocalAttempt → Out → Transition
terminal_step depth att outcome = record {
  name = attempt_step_of att.index;
  role = attempt att.index;
  inputs = one att.failed_place ∷ [];
  inhibitors = halt ∷ [];
  reads = [];
  outputs = some outcome;
  priority = nat (suc depth);
  delay = none;
}

unfoldable pub terminal_outcome : Out → Result GadgetError Out
terminal_outcome success = xor_of (success ∷ closing_branches shared_ports markers_of_node true)

abbrev pub build_attempt_step :
    ℕ → Out → LocalAttempt → AttemptAction → Result GadgetError Transition
build_attempt_step depth success att (retry_to wait next) = ok (retry_step depth att wait next)
build_attempt_step depth success att _ = do
  outcome ← terminal_outcome success
  ok (terminal_step depth att outcome)

unfoldable pub build_failure_steps :
    ℕ → Out → List LocalAttempt → Result GadgetError (List Transition)
build_failure_steps depth success [] = ok []
build_failure_steps depth success (att ∷ later) = do
  step ← build_attempt_step depth success att att.action
  steps ← build_failure_steps depth success later
  ok (build_deadline depth att ++ step ∷ steps)
