-- ===== src/Compiler/Policy/Validity.antt =====
-- When a policy is well formed, and the parse of its fields.
use Prim.Native.String.{◌++◌}
use n8n_libpetri.Prelude.{
  ℕ, suc, ◌<◌, ◌≡◌, refl, subst, inl, inr, String, string_eq, Option, none, some, List, [], ◌∷◌,
  arith, Bool-cases,
}
use n8n_libpetri.Prelude.Json.{
  nat, Json, null, bool, num, str, arr, obj, Fields, read_field, field_names,
}
use n8n_libpetri.Prelude.Predicates.{OptionAll}
use n8n_libpetri.Prelude.Results.{ok}
use n8n_libpetri.Compiler.Types.{ExecutionPolicy, Concurrency, Rate}
use n8n_libpetri.Compiler.Policy.Problems.{Fault, Remark, Log}
use n8n_libpetri.Compiler.Policy.Values.{positive_int}
use n8n_libpetri.Compiler.Policy.OnFailure.{parse_on_failure}
use n8n_libpetri.Compiler.Policy.Admission.{
  parse_concurrency, parse_rate, concurrency_of, rate_of, parse_group_ref,
}
use n8n_libpetri.Compiler.Policy.Chains.{IsChain, parse_on_failure-IsChain}
use n8n_libpetri.Compiler.Policy.Parse.{
  PolicyParse, keep_declared, is_empty_policy, is_known_version, check_policy_keys, empty_log,
  finish_policy, parse_policy_fields, parse_policy_object, parse_execution_policy,
}

abbrev pub IsPositive : ℕ → Type 0
IsPositive n = 0 < n

abbrev pub IsValidConcurrency : Concurrency → Type 0
IsValidConcurrency c = 0 < c.limit

abbrev pub IsValidRate : Rate → Type 0
IsValidRate r = (0 < r.per_ms) × (0 < r.burst)

-- Counts are positive and the failure steps are a chain, where they are given.
pub record IsValidPolicy (p : ExecutionPolicy) : Type 0 where
  pub timeout : OptionAll IsPositive p.timeout_ms
  pub chain : OptionAll IsChain p.on_failure
  pub admitted : OptionAll IsValidConcurrency p.concurrency
  pub rated : OptionAll IsValidRate p.rate
  pub runs : OptionAll IsPositive p.max_runs
  pub tool_calls : OptionAll IsPositive p.max_tool_calls
  pub rounds : OptionAll IsPositive p.max_rounds

positive_int-IsPositive :
    (v : Option Json) (what : String) (log : Log) → OptionAll IsPositive (positive_int v what log).0
unfolding positive_int
positive_int-IsPositive none what log = tt
positive_int-IsPositive (some (num (nat (suc n)))) what log = omega arith
positive_int-IsPositive (some v) what log = tt

OptionAll_of_eq {ℓ κ} :
    {A : Type ℓ} (P : A → Type κ) (o : Option A) → ((a : A) → o ≡ some a → P a) → OptionAll P o
OptionAll_of_eq P none h = tt
OptionAll_of_eq P (some a) h = h a refl

concurrency_of-IsValid :
    (group : Option String) (limit : Option ℕ) (what : String) (log : Log)
    → OptionAll IsPositive limit
    → OptionAll IsValidConcurrency (concurrency_of group limit what log).0
unfolding concurrency_of
concurrency_of-IsValid group none what log h = tt
concurrency_of-IsValid group (some limit) what log h = h

parse_concurrency-IsValid :
    (v : Option Json) (what : String) (log : Log)
    → OptionAll IsValidConcurrency (parse_concurrency v what log).0
unfolding parse_concurrency
parse_concurrency-IsValid (some (obj fs)) what log =
    let at = what ++ ".concurrency" in
    let (limit, log') = positive_int (read_field "limit" fs) (at ++ ".limit") log in
    let (group, log'') = parse_group_ref fs at log' in
    concurrency_of-IsValid group limit at log''
      (positive_int-IsPositive (read_field "limit" fs) (at ++ ".limit") log)
parse_concurrency-IsValid (some v) what log = tt
parse_concurrency-IsValid none what log = tt

rate_of-IsValid :
    (group : Option String) (per_ms burst : Option ℕ) (what : String) (log : Log)
    → OptionAll IsPositive per_ms
    → OptionAll IsPositive burst
    → OptionAll IsValidRate (rate_of group per_ms burst what log).0
unfolding rate_of
rate_of-IsValid group none burst what log h k = tt
rate_of-IsValid group (some per_ms) none what log h k = tt
rate_of-IsValid group (some per_ms) (some burst) what log h k = (h, k)

parse_rate-IsValid :
    (v : Option Json) (what : String) (log : Log) → OptionAll IsValidRate (parse_rate v what log).0
unfolding parse_rate
parse_rate-IsValid (some (obj fs)) what log =
    let at = what ++ ".rate" in
    let (per_ms, log') = positive_int (read_field "perMs" fs) (at ++ ".perMs") log in
    let (burst, log'') = positive_int (read_field "burst" fs) (at ++ ".burst") log' in
    let (group, log''') = parse_group_ref fs at log'' in
    rate_of-IsValid group per_ms burst at log'''
      (positive_int-IsPositive (read_field "perMs" fs) (at ++ ".perMs") log)
      (positive_int-IsPositive (read_field "burst" fs) (at ++ ".burst") log')
parse_rate-IsValid (some v) what log = tt
parse_rate-IsValid none what log = tt

parse_policy_fields-IsValid :
    (raw : Fields) (what : String) (log : Log) → IsValidPolicy (parse_policy_fields raw what log).0
unfolding parse_policy_fields
parse_policy_fields-IsValid raw what log =
    let (timeout_ms, log1) = positive_int (read_field "timeoutMs" raw) (what ++ ".timeoutMs") log in
    let (max_runs, log2) = positive_int (read_field "maxRuns" raw) (what ++ ".maxRuns") log1 in
    let (max_tool_calls, log3) =
      positive_int (read_field "maxToolCalls" raw) (what ++ ".maxToolCalls") log2 in
    let (max_rounds, log4) =
      positive_int (read_field "maxRounds" raw) (what ++ ".maxRounds") log3 in
    let (on_failure, log5) = parse_on_failure (read_field "onFailure" raw) what log4 in
    let (concurrency, log6) = parse_concurrency (read_field "concurrency" raw) what log5 in
    record {
      timeout = positive_int-IsPositive (read_field "timeoutMs" raw) (what ++ ".timeoutMs") log;
      chain =
          OptionAll_of_eq IsChain on_failure
            (parse_on_failure-IsChain (read_field "onFailure" raw) what log4);
      admitted = parse_concurrency-IsValid (read_field "concurrency" raw) what log5;
      rated = parse_rate-IsValid (read_field "rate" raw) what log6;
      runs = positive_int-IsPositive (read_field "maxRuns" raw) (what ++ ".maxRuns") log1;
      tool_calls =
          positive_int-IsPositive (read_field "maxToolCalls" raw) (what ++ ".maxToolCalls") log2;
      rounds = positive_int-IsPositive (read_field "maxRounds" raw) (what ++ ".maxRounds") log3;
    }

keep_declared-IsValid :
    (p : ExecutionPolicy) → IsValidPolicy p → OptionAll IsValidPolicy (keep_declared p)
unfolding keep_declared
keep_declared-IsValid p h = elim (Bool-cases (is_empty_policy p)) [
  | inl e ↦ rw e tt
  | inr e ↦ rw e h
]

finish_policy-IsValid :
    (p : ExecutionPolicy) (problems : List (String × Fault)) (diagnostics : List (String × Remark))
    (r : PolicyParse)
    → IsValidPolicy p
    → finish_policy p problems diagnostics ≡ ok r
    → OptionAll IsValidPolicy r.policy
unfolding finish_policy
finish_policy-IsValid p [] diagnostics r h q =
    let same : keep_declared p ≡ r.policy = cc in
    subst (OptionAll IsValidPolicy) same (keep_declared-IsValid p h)
finish_policy-IsValid p (x ∷ xs) diagnostics r h q = cc

parse_policy_object-IsValid :
    (raw : Fields) (what : String) (r : PolicyParse)
    → parse_policy_object raw what ≡ ok r
    → OptionAll IsValidPolicy r.policy
unfolding parse_policy_object
parse_policy_object-IsValid raw what r q =
    let log = check_policy_keys what empty_log (field_names raw) in
    let (policy, log') = parse_policy_fields raw what log in
    elim (Bool-cases (is_known_version (read_field "v" raw))) [
      | inl known ↦
          finish_policy-IsValid policy log'.problems log'.diagnostics r
            (parse_policy_fields-IsValid raw what log) (rw (known) at q)
      | inr unknown ↦
          let same : none ≡ r.policy = ground arith in subst (OptionAll IsValidPolicy) same tt
    ]

-- Each count and limit of an accepted policy is positive, and its failure steps, where it has them,
-- are a chain.
pub parse_execution_policy-IsValid :
    (raw : Option Json) (what : String) (r : PolicyParse)
    → parse_execution_policy raw what ≡ ok r
    → OptionAll IsValidPolicy r.policy
unfolding parse_execution_policy
parse_execution_policy-IsValid none what r q =
    let same : none ≡ r.policy = cc in subst (OptionAll IsValidPolicy) same tt
parse_execution_policy-IsValid (some null) what r q =
    let same : none ≡ r.policy = cc in subst (OptionAll IsValidPolicy) same tt
parse_execution_policy-IsValid (some (obj raw)) what r q = parse_policy_object-IsValid raw what r q
parse_execution_policy-IsValid (some (bool b)) what r q = cc
parse_execution_policy-IsValid (some (num v)) what r q = cc
parse_execution_policy-IsValid (some (str s)) what r q = cc
parse_execution_policy-IsValid (some (arr raws)) what r q = cc
