-- ===== src/Compiler/FailureChain/Resolve.antt =====
-- compiler/failure-chain.ts: the steps of a chain, each resolved for its attempt.
use n8n_libpetri.Prelude.{
  ℕ, zero, suc, nat_eq, ◌==◌, Bool, true, false, Option, none, some, List, [], ◌∷◌, ◌++◌,
  if◌then◌else◌, length,
}
use n8n_libpetri.Prelude.Results.{Result, ok, err}
use n8n_libpetri.Compiler.Types.{
  NodeTypeShape, NodeDescription, ExecutionPolicy, FailureStep, retry, route, stop, continue,
  ResolvedStep, FailureChain,
}
use n8n_libpetri.Compiler.FailureChain.Targets.{
  ChainFault, deadline_without_chain, no_terminal, bad_deadline, RouteTargets, route_target_of,
  field_conflicts_of,
}

-- `step.waitMs ?? 0`.
abbrev pub wait_of : Option ℕ → ℕ
wait_of none = 0
wait_of (some ms) = ms

abbrev pub routed : ℕ → Option ℕ × List ChainFault → Option ResolvedStep × List ChainFault
routed i (none, problems) = (none, problems)
routed i (some n, problems) = (some (route (suc i) n), problems)

-- The step at index `i`, for attempt `i + 1`.
unfoldable pub resolve_step :
    RouteTargets → FailureStep → ℕ → List ChainFault → Option ResolvedStep × List ChainFault
resolve_step t (retry wait_ms) i problems =
    (some (retry (suc i) (wait_of wait_ms) (suc (suc i))), problems)
resolve_step t (route output) i problems = routed i (route_target_of t output i problems)
resolve_step t stop i problems = (some (stop (suc i)), problems)
resolve_step t continue i problems = (some (continue (suc i)), problems)

abbrev pub push_resolved : Option ResolvedStep → List ResolvedStep → List ResolvedStep
push_resolved none rest = rest
push_resolved (some r) rest = r ∷ rest

-- The loop over the declared steps.
unfoldable pub resolve_steps :
    RouteTargets → List FailureStep → ℕ → List ChainFault → List ResolvedStep × List ChainFault
resolve_steps t [] i problems = ([], problems)
resolve_steps t (s ∷ ss) i problems =
    let (r, problems') = resolve_step t s i problems in
    let (rest, problems'') = resolve_steps t ss (suc i) problems' in
    (push_resolved r rest, problems'')

abbrev pub last_of : List ResolvedStep → Option ResolvedStep
last_of [] = none
last_of (r ∷ []) = some r
last_of (r ∷ s ∷ rs) = last_of (s ∷ rs)

abbrev pub is_terminal_step : Option ResolvedStep → Bool
is_terminal_step none = false
is_terminal_step (some (retry a w n)) = false
is_terminal_step (some _) = true

abbrev pub ends_terminal : List ResolvedStep → ℕ → Bool
ends_terminal resolved declared =
    if length resolved == declared then is_terminal_step (last_of resolved) else true

abbrev pub check_terminal : Bool → List ChainFault → List ChainFault
check_terminal true problems = problems
check_terminal false problems = problems ++ (no_terminal ∷ [])

-- `positiveInt(policy.timeoutMs, …)`.
abbrev pub check_deadline : Option ℕ → List ChainFault → List ChainFault
check_deadline (some zero) problems = problems ++ (bad_deadline ∷ [])
check_deadline _ problems = problems

-- The diagnostic of an accepted chain.
pub record ChainRemark : Type 0 where
  pub attempts : ℕ
  pub deadline : Option ℕ
  pub last : ResolvedStep

abbrev pub finish_chain :
    List ResolvedStep
    → Option ℕ
    → Option ResolvedStep
    → List ChainFault
    → Result (List ChainFault) (Option FailureChain × List ChainRemark)
finish_chain resolved timeout_ms (some last) [] = ok (
  some (record { steps = resolved; timeout_ms = timeout_ms }),
  record { attempts = length resolved; deadline = timeout_ms; last = last } ∷ [],
)
finish_chain resolved timeout_ms last problems = err problems

-- A declared chain.
unfoldable pub resolve_declared :
    RouteTargets
    → List ChainFault
    → List FailureStep
    → Option ℕ
    → Result (List ChainFault) (Option FailureChain × List ChainRemark)
resolve_declared t conflicts steps timeout_ms =
    let (resolved, problems) = resolve_steps t steps 0 conflicts in
    finish_chain resolved timeout_ms (last_of resolved)
      (check_deadline timeout_ms (check_terminal (ends_terminal resolved (length steps)) problems))

-- A deadline needs a chain.
abbrev pub refuse_deadline_without_chain :
    Option ℕ → Result (List ChainFault) (Option FailureChain × List ChainRemark)
refuse_deadline_without_chain none = ok (none, [])
refuse_deadline_without_chain (some ms) = err (deadline_without_chain ∷ [])

abbrev pub resolve_policy :
    NodeDescription
    → RouteTargets
    → Option ExecutionPolicy
    → Result (List ChainFault) (Option FailureChain × List ChainRemark)
resolve_policy node t none = ok (none, [])
resolve_policy node t (some policy) = elim policy.on_failure [
  | none ↦ refuse_deadline_without_chain policy.timeout_ms
  | some steps ↦ resolve_declared t (field_conflicts_of node) steps policy.timeout_ms
]

unfoldable pub resolve_failure_chain :
    NodeDescription
    → NodeTypeShape
    → ℕ
    → Option ℕ
    → List ℕ
    → Result (List ChainFault) (Option FailureChain × List ChainRemark)
resolve_failure_chain node shape output_count error_output_index connected_outputs =
    resolve_policy node
      (record {
        shape = shape;
        output_count = output_count;
        error_output_index = error_output_index;
        connected_outputs = connected_outputs;
      })
      node.execution_policy
