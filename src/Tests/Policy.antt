-- ===== src/Tests/Policy.antt =====
-- Policies at concrete values: a retry and a route to the error output, and what a parse refuses.
use n8n_libpetri.Prelude.{refl, none, some, List, [], ◌∷◌, map, false, nat_eq, string_eq, arith}
use n8n_libpetri.Prelude.Json.{nat, Json, num, str, arr, obj, nil, cons, end, field}
use n8n_libpetri.Prelude.Predicates.{OptionAll}
use n8n_libpetri.Compiler.Types.{
  NodeTypeShape, NodeDescription, ExecutionPolicy, FailureStep, retry, route, named, FailureChain,
  continue_error_output,
}
use n8n_libpetri.Compiler.Policy.Values.{positive_int, non_negative_int, failure_action}
use n8n_libpetri.Compiler.Policy.OnFailure.{
  parse_route_step, parse_output, parse_action, parse_step, through_first_terminal, parse_steps,
  judge_steps, parse_items, parse_on_failure,
}
use n8n_libpetri.Compiler.Policy.Admission.{parse_concurrency, parse_rate}
use n8n_libpetri.Compiler.Policy.Parse.{
  empty_log, parse_execution_policy, parse_policy_object, parse_policy_fields, finish_policy,
  keep_declared, merge_policies,
}
use n8n_libpetri.Compiler.Policy.Chains.{
  IsChain, Reports, parse_on_failure-IsChain, parse_on_failure-Reports,
}
use n8n_libpetri.Compiler.Policy.Validity.{IsValidPolicy, parse_execution_policy-IsValid}
use n8n_libpetri.Compiler.Policy.Merging.{key_of, IsLastDeclared, merge_policies-IsLastDeclared}

abbrev raw_chain : Json
raw_chain = arr (
    cons (obj (field "action" (str "retry") (field "waitMs" (num (nat 500)) end)))
      (cons (obj (field "action" (str "route") (field "output" (str "error") end))) nil))

abbrev chain : List FailureStep
chain = retry (some 500) ∷ route (named "error") ∷ []

abbrev raw_policy : Json
raw_policy =
    obj (
      field "v" (num (nat 1))
        (field "timeoutMs" (num (nat 2000)) (field "onFailure" raw_chain end)))

abbrev policy : ExecutionPolicy
policy = record {
  timeout_ms = some 2000;
  on_failure = some chain;
  concurrency = none;
  rate = none;
  max_runs = none;
  max_tool_calls = none;
  max_rounds = none;
}

abbrev node : NodeDescription
node = record {
  id = "h";
  name = "HTTP";
  on_error = some continue_error_output;
  retry_on_fail = false;
  max_tries = none;
  wait_between_tries = none;
  execution_policy = some policy;
}

abbrev shape : NodeTypeShape
shape = record {
  input_count = 1;
  output_count = 1;
  required_inputs = none;
  loop_node = false;
  output_names = none;
}

abbrev resolved : FailureChain
resolved = record { steps = retry 1 500 2 ∷ route 2 1 ∷ []; timeout_ms = some 2000 }

policy-IsValid : IsValidPolicy policy
policy-IsValid = record {
  timeout = omega arith;
  chain = (refl, refl);
  admitted = tt;
  rated = tt;
  runs = tt;
  tool_calls = tt;
  rounds = tt;
}

parse_on_failure-IsChain_example : IsChain chain
unfolding parse_on_failure parse_items judge_steps parse_steps through_first_terminal parse_step
    parse_action parse_output parse_route_step non_negative_int failure_action
parse_on_failure-IsChain_example =
    parse_on_failure-IsChain (some raw_chain) "policy" empty_log chain refl

parse_on_failure-Reports_example :
    Reports empty_log (parse_on_failure (some (str "retry")) "policy" empty_log)
parse_on_failure-Reports_example = parse_on_failure-Reports (str "retry") "policy" empty_log

parse_execution_policy-IsValid_example : OptionAll IsValidPolicy (some policy)
unfolding parse_execution_policy parse_policy_object parse_policy_fields finish_policy keep_declared
    parse_on_failure parse_items judge_steps parse_steps through_first_terminal parse_step
    parse_action parse_output parse_route_step non_negative_int failure_action positive_int
    parse_concurrency parse_rate
parse_execution_policy-IsValid_example =
    parse_execution_policy-IsValid (some raw_policy) "policy"
      (record { policy = some policy; diagnostics = [] }) refl

merge_policies-IsLastDeclared_example :
    IsLastDeclared
      (map (key_of (λ p. p.timeout_ms)) (some policy ∷ none ∷ []))
      (key_of (λ p. p.timeout_ms) (merge_policies (some policy ∷ none ∷ [])))
    × IsLastDeclared
        (map (key_of (λ p. p.on_failure)) (some policy ∷ none ∷ []))
        (key_of (λ p. p.on_failure) (merge_policies (some policy ∷ none ∷ [])))
    × IsLastDeclared
        (map (key_of (λ p. p.concurrency)) (some policy ∷ none ∷ []))
        (key_of (λ p. p.concurrency) (merge_policies (some policy ∷ none ∷ [])))
    × IsLastDeclared
        (map (key_of (λ p. p.rate)) (some policy ∷ none ∷ []))
        (key_of (λ p. p.rate) (merge_policies (some policy ∷ none ∷ [])))
    × IsLastDeclared
        (map (key_of (λ p. p.max_runs)) (some policy ∷ none ∷ []))
        (key_of (λ p. p.max_runs) (merge_policies (some policy ∷ none ∷ [])))
    × IsLastDeclared
        (map (key_of (λ p. p.max_tool_calls)) (some policy ∷ none ∷ []))
        (key_of (λ p. p.max_tool_calls) (merge_policies (some policy ∷ none ∷ [])))
    × IsLastDeclared
        (map (key_of (λ p. p.max_rounds)) (some policy ∷ none ∷ []))
        (key_of (λ p. p.max_rounds) (merge_policies (some policy ∷ none ∷ [])))
merge_policies-IsLastDeclared_example = merge_policies-IsLastDeclared (some policy ∷ none ∷ [])
