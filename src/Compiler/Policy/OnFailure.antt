-- ===== src/Compiler/Policy/OnFailure.antt =====
-- compiler/policy/on-failure.ts: `executionPolicy.onFailure`, each step checked on its own, then the
-- chain cut at its first terminal step.
use Prim.Native.String.{◌++◌}
use n8n_libpetri.Prelude.{
  ℕ, suc, ◌-◌, String, string_eq, nat_eq, ◌==◌, Bool, ◌||◌, Option, none, some, List, [], ◌∷◌,
  if◌then◌else◌, ltb, length, take,
}
use n8n_libpetri.Prelude.Json.{
  nat, Json, num, str, arr, obj, Fields, items, read_field, field_names,
}
use n8n_libpetri.Prelude.Texts.{print}
use n8n_libpetri.Compiler.Types.{FailureStep, named, at}
use n8n_libpetri.Compiler.Policy.Problems.{
  not_an_object, not_an_array, no_steps, not_an_action, output_required, bad_output_index,
  output_elsewhere, all_retry, unknown_key, wait_ignored, unreachable, Log, problem, diagnose,
}
use n8n_libpetri.Compiler.Policy.Values.{
  non_negative_int, FailureAction, retry, route, stop, continue, is_terminal_action, failure_action,
}

abbrev pub is_known_step_key : String → Bool
is_known_step_key k = k == "waitMs" || (k == "action" || k == "output")

-- A `route` step's target: an output name, or a non-negative integer index.
unfoldable pub parse_route_step : Option Json → String → Log → Option FailureStep × Log
parse_route_step (some (str s)) what log = (some (FailureStep.route (named s)), log)
parse_route_step (some (num (nat n))) what log = (some (FailureStep.route (at n)), log)
parse_route_step (some (num v)) what log = (none, problem log (what ++ ".output") bad_output_index)
parse_route_step output what log = (none, problem log (what ++ ".output") output_required)

-- `waitMs` beside an action that does not wait is diagnosed.
abbrev pub check_wait : FailureAction → Option ℕ → String → Log → Log
check_wait action none what log = log
check_wait action (some w) what log =
    if is_terminal_action action then diagnose log what wait_ignored else log

-- The `output` of a step that has passed the checks of its action and its `waitMs`.
unfoldable pub parse_output :
    FailureAction → Option ℕ → Option Json → String → Log → Option FailureStep × Log
parse_output route wait_ms output what log = parse_route_step output what log
parse_output retry wait_ms none what log = (some (FailureStep.retry wait_ms), log)
parse_output stop wait_ms none what log = (some FailureStep.stop, log)
parse_output continue wait_ms none what log = (some FailureStep.continue, log)
parse_output action wait_ms (some v) what log =
    (none, problem log (what ++ ".output") output_elsewhere)

-- The keys that no step has are diagnosed.
abbrev pub check_keys : String → Log → List String → Log
check_keys what log [] = log
check_keys what log (k ∷ ks) =
    check_keys what (if is_known_step_key k then log else diagnose log what (unknown_key k)) ks

-- A step by its action: the rest of the checks, in order.
unfoldable pub parse_action :
    Option FailureAction → Fields → String → Log → Option FailureStep × Log
parse_action none fs what log = (none, problem log (what ++ ".action") not_an_action)
parse_action (some action) fs what log =
    let (wait_ms, log') = non_negative_int (read_field "waitMs" fs) (what ++ ".waitMs") log in
    parse_output action wait_ms (read_field "output" fs) what (check_wait action wait_ms what log')

unfoldable pub parse_step : Json → String → Log → Option FailureStep × Log
parse_step (obj fs) what log =
    parse_action (failure_action (read_field "action" fs)) fs what
      (check_keys what log (field_names fs))
parse_step raw what log = (none, problem log what not_an_object)

abbrev pub action_of : FailureStep → FailureAction
action_of (FailureStep.retry w) = retry
action_of (FailureStep.route o) = route
action_of FailureStep.stop = stop
action_of FailureStep.continue = continue

abbrev pub is_terminal : FailureStep → Bool
is_terminal s = is_terminal_action (action_of s)

-- `steps.findIndex((step) => isTerminalAction(step.action))`.
abbrev pub first_terminal : List FailureStep → Option ℕ
first_terminal [] = none
first_terminal (s ∷ ss) =
    if is_terminal s
    then some 0
    else elim (first_terminal ss) [ none ↦ none | some k ↦ some (suc k) ]

-- The chain runs to its first terminal step.
unfoldable pub through_first_terminal :
    List FailureStep → String → Log → Option (List FailureStep) × Log
through_first_terminal steps what log = elim (first_terminal steps) [
  | none ↦ (none, problem log (what ++ ".onFailure") all_retry)
  | some terminal ↦ (
    some (take (suc terminal) steps),
    if ltb terminal (length steps - 1)
        then diagnose log (what ++ ".onFailure")
            (unreachable terminal (suc terminal) (length steps - 1))
        else log,
  )
]

-- `if (parsed !== undefined) steps.push(parsed)`, for the steps that stand behind it.
abbrev pub push_step : Option FailureStep → List FailureStep → List FailureStep
push_step none steps = steps
push_step (some step) steps = step ∷ steps

-- The loop over the raw steps: the steps that parsed, in order, and how many did not.
unfoldable pub parse_steps : List Json → ℕ → String → Log → List FailureStep × Log
parse_steps [] index what log = ([], log)
parse_steps (raw ∷ raws) index what log =
    let (parsed, log') = parse_step raw (what ++ (".onFailure[" ++ (print index ++ "]"))) log in
    let (steps, log'') = parse_steps raws (suc index) what log' in (push_step parsed steps, log'')

-- The chain is judged only once every step parsed.
unfoldable pub judge_steps : ℕ → List FailureStep × Log → String → Option (List FailureStep) × Log
judge_steps declared (steps, log) what =
    if length steps == declared then through_first_terminal steps what log else (none, log)

-- `raw.onFailure` that is an array.
unfoldable pub parse_items : List Json → String → Log → Option (List FailureStep) × Log
parse_items [] what log = (none, problem log (what ++ ".onFailure") no_steps)
parse_items (raw ∷ raws) what log =
    judge_steps (suc (length raws)) (parse_steps (raw ∷ raws) 0 what log) what

unfoldable pub parse_on_failure : Option Json → String → Log → Option (List FailureStep) × Log
parse_on_failure none what log = (none, log)
parse_on_failure (some (arr raws)) what log = parse_items (items raws) what log
parse_on_failure (some v) what log = (none, problem log (what ++ ".onFailure") not_an_array)
