-- ===== src/Compiler/Policy/Parse.antt =====
-- compiler/policy.ts: one layer-1 policy object into the layer-2 policy, and the merge of layers.
use Prim.Native.String.{◌++◌}
use n8n_libpetri.Prelude.{
  String, string_eq, ◌==◌, Bool, true, false, ◌||◌, Option, none, some, List, [], ◌∷◌,
  if◌then◌else◌, fold,
}
use n8n_libpetri.Prelude.Json.{nat, Json, null, num, obj, Fields, read_field, field_names}
use n8n_libpetri.Prelude.Results.{Result, ok, err}
use n8n_libpetri.Compiler.Types.{ExecutionPolicy, num_eq}
use n8n_libpetri.Compiler.Policy.Problems.{
  Fault, Remark, not_an_object, unknown_key, unknown_version, Log, diagnose,
}
use n8n_libpetri.Compiler.Policy.Values.{positive_int}
use n8n_libpetri.Compiler.Policy.OnFailure.{parse_on_failure}
use n8n_libpetri.Compiler.Policy.Admission.{parse_concurrency, parse_rate}

-- `PolicyParse`.
pub record PolicyParse : Type 0 where
  pub policy : Option ExecutionPolicy
  pub diagnostics : List (String × Remark)

abbrev pub is_known_key : String → Bool
is_known_key k =
    k == "v"
    || (k == "timeoutMs"
        || (k == "onFailure"
            || (k == "concurrency"
                || (k == "rate"
                    || (k == "maxRuns"
                        || (k == "maxToolCalls" || (k == "maxRounds" || k == "groups")))))))

abbrev pub check_policy_keys : String → Log → List String → Log
check_policy_keys what log [] = log
check_policy_keys what log (k ∷ ks) =
    check_policy_keys what (if is_known_key k then log else diagnose log what (unknown_key k)) ks

-- `v !== POLICY_SCHEMA_VERSION`.
abbrev pub is_known_version : Option Json → Bool
is_known_version (some (num v)) = v == nat 1
is_known_version _ = false

-- The fields of a policy at the known version, in the order in which they are read.
unfoldable pub parse_policy_fields : Fields → String → Log → ExecutionPolicy × Log
parse_policy_fields raw what log =
    let (timeout_ms, log1) = positive_int (read_field "timeoutMs" raw) (what ++ ".timeoutMs") log in
    let (max_runs, log2) = positive_int (read_field "maxRuns" raw) (what ++ ".maxRuns") log1 in
    let (max_tool_calls, log3) =
      positive_int (read_field "maxToolCalls" raw) (what ++ ".maxToolCalls") log2 in
    let (max_rounds, log4) =
      positive_int (read_field "maxRounds" raw) (what ++ ".maxRounds") log3 in
    let (on_failure, log5) = parse_on_failure (read_field "onFailure" raw) what log4 in
    let (concurrency, log6) = parse_concurrency (read_field "concurrency" raw) what log5 in
    let (rate, log7) = parse_rate (read_field "rate" raw) what log6 in
    (
      record {
        timeout_ms = timeout_ms;
        on_failure = on_failure;
        concurrency = concurrency;
        rate = rate;
        max_runs = max_runs;
        max_tool_calls = max_tool_calls;
        max_rounds = max_rounds;
      },
      log7,
    )

-- `Object.keys(policy).length === 0`.
abbrev pub is_empty_policy : ExecutionPolicy → Bool
is_empty_policy p = elim p.timeout_ms [
  | some _ ↦ false
  | none ↦ elim p.on_failure [
    | some _ ↦ false
    | none ↦ elim p.concurrency [
      | some _ ↦ false
      | none ↦ elim p.rate [
        | some _ ↦ false
        | none ↦ elim p.max_runs [
          | some _ ↦ false
          | none ↦ elim p.max_tool_calls [
            | some _ ↦ false
            | none ↦ elim p.max_rounds [ some _ ↦ false | none ↦ true ]
          ]
        ]
      ]
    ]
  ]
]

-- A policy that declares nothing is none.
unfoldable pub keep_declared : ExecutionPolicy → Option ExecutionPolicy
keep_declared p = if is_empty_policy p then none else some p

-- The throw of a `PolicyError` with the problems, or the parsed policy.
unfoldable pub finish_policy :
    ExecutionPolicy
    → List (String × Fault)
    → List (String × Remark)
    → Result (List (String × Fault)) PolicyParse
finish_policy p [] diagnostics = ok (record { policy = keep_declared p; diagnostics = diagnostics })
finish_policy p (x ∷ xs) diagnostics = err (x ∷ xs)

abbrev pub finish_parse : ExecutionPolicy × Log → Result (List (String × Fault)) PolicyParse
finish_parse (policy, log) = finish_policy policy log.problems log.diagnostics

abbrev pub empty_log : Log
empty_log = record { problems = []; diagnostics = [] }

-- A policy that is an object.
unfoldable pub parse_policy_object : Fields → String → Result (List (String × Fault)) PolicyParse
parse_policy_object raw what =
    if is_known_version (read_field "v" raw)
    then finish_parse
        (parse_policy_fields raw what (check_policy_keys what empty_log (field_names raw)))
    else ok (record { policy = none; diagnostics = (what, unknown_version) ∷ [] })

unfoldable pub parse_execution_policy :
    Option Json → String → Result (List (String × Fault)) PolicyParse
parse_execution_policy none what = ok (record { policy = none; diagnostics = [] })
parse_execution_policy (some null) what = ok (record { policy = none; diagnostics = [] })
parse_execution_policy (some (obj raw)) what = parse_policy_object raw what
parse_execution_policy (some v) what = err ((what, not_an_object) ∷ [])

-- `{ ...merged, ...layer }` on one key: the layer's value where it has the key. The layers are parsed
-- policies, which have a key only with a value.
abbrev pub override {ℓ} : {A : Type ℓ} → Option A → Option A → Option A
override merged none = merged
override merged (some v) = some v

abbrev pub override_all : ExecutionPolicy → ExecutionPolicy → ExecutionPolicy
override_all merged layer = record {
  timeout_ms = override merged.timeout_ms layer.timeout_ms;
  on_failure = override merged.on_failure layer.on_failure;
  concurrency = override merged.concurrency layer.concurrency;
  rate = override merged.rate layer.rate;
  max_runs = override merged.max_runs layer.max_runs;
  max_tool_calls = override merged.max_tool_calls layer.max_tool_calls;
  max_rounds = override merged.max_rounds layer.max_rounds;
}

-- One layer of the loop of `mergePolicies`.
unfoldable pub merge_layer :
    Option ExecutionPolicy → Option ExecutionPolicy → Option ExecutionPolicy
merge_layer merged none = merged
merge_layer none (some layer) = some layer
merge_layer (some merged) (some layer) = some (override_all merged layer)

-- Later layers win, per key.
unfoldable pub merge_policies : List (Option ExecutionPolicy) → Option ExecutionPolicy
unfolding merge_layer
merge_policies layers = fold merge_layer none layers
