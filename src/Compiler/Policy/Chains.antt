-- ===== src/Compiler/Policy/Chains.antt =====
-- What a parsed `onFailure` is, and when it is refused.
use Prim.Native.String.{◌++◌}
use mathlib.Core.List.{◌++◌ as concat}
use n8n_libpetri.Prelude.{
  ℕ, zero, suc, ◌+◌, ◌≤◌, ◌<◌, ◌≡◌, refl, ◌∙◌, ap, subst, inl, inr, String, string_eq, nat_eq, ◌==◌,
  true, false, Option, none, some, List, [], ◌∷◌, if◌then◌else◌, length, take, arith, Bool-cases,
  Option-cases, length-append,
}
use n8n_libpetri.Prelude.Json.{
  nat, Json, null, bool, num, str, arr, obj, Fields, items, read_field, field_names,
}
use n8n_libpetri.Prelude.Texts.{print}
use n8n_libpetri.Compiler.Types.{FailureStep}
use n8n_libpetri.Compiler.Policy.Problems.{
  Fault, not_an_object, not_an_array, no_steps, not_an_action, output_required, bad_output_index,
  output_elsewhere, all_retry, not_non_negative_int, unknown_key, Log, problem, diagnose,
}
use n8n_libpetri.Compiler.Policy.Values.{
  non_negative_int, FailureAction, retry, route, stop, continue, failure_action,
}
use n8n_libpetri.Compiler.Policy.Extends.{Extends-parse_on_failure}
use n8n_libpetri.Compiler.Policy.OnFailure.{
  parse_route_step, check_wait, parse_output, check_keys, parse_action, parse_step, is_terminal,
  is_known_step_key, first_terminal, through_first_terminal, parse_steps, judge_steps, parse_items,
  parse_on_failure,
}

-- Steps that go on, and one that ends the activation.
abbrev pub IsChain : List FailureStep → Type 0
IsChain [] = ⊥
IsChain (s ∷ []) = is_terminal s ≡ true
IsChain (s ∷ t ∷ ss) = (is_terminal s ≡ false) × IsChain (t ∷ ss)

take-IsChain :
    (steps : List FailureStep) (k : ℕ)
    → first_terminal steps ≡ some k
    → IsChain (take (suc k) steps)
take-IsChain [] k h = cc
take-IsChain (s ∷ ss) zero h = ground arith
take-IsChain (s ∷ []) (suc k) h = absurd (ground arith)
take-IsChain (s ∷ t ∷ ss) (suc k) h = (ground arith, take-IsChain (t ∷ ss) k (ground arith))

through_first_terminal-IsChain :
    (steps : List FailureStep) (what : String) (log : Log) (chain : List FailureStep)
    → (through_first_terminal steps what log).0 ≡ some chain
    → IsChain chain
unfolding through_first_terminal
through_first_terminal-IsChain steps what log chain h = elim (Option-cases (first_terminal steps)) [
  | inl never ↦ cc (rw (never, through_first_terminal) at h)
  | inr (k, found) ↦
      let same : some (take (suc k) steps) ≡ some chain = rw (found, through_first_terminal) at h in
      subst IsChain (cc) (take-IsChain steps k found)
]

parse_items-IsChain :
    (raws : List Json) (what : String) (log : Log) (chain : List FailureStep)
    → (parse_items raws what log).0 ≡ some chain
    → IsChain chain
unfolding parse_items judge_steps
parse_items-IsChain [] what log chain h = cc
parse_items-IsChain (raw ∷ raws) what log chain h =
    let (steps, log') = parse_steps (raw ∷ raws) 0 what log in
    elim (Bool-cases (length steps == suc (length raws))) [
      | inl every ↦ through_first_terminal-IsChain steps what log' chain (ground arith)
      | inr dropped ↦ absurd (ground arith)
    ]

-- A parsed `onFailure` is a chain: every step but the last is `retry`, and the last is not.
pub parse_on_failure-IsChain :
    (raw : Option Json) (what : String) (log : Log) (chain : List FailureStep)
    → (parse_on_failure raw what log).0 ≡ some chain
    → IsChain chain
unfolding parse_on_failure
parse_on_failure-IsChain none what log chain h = cc
parse_on_failure-IsChain (some null) what log chain h = cc
parse_on_failure-IsChain (some (bool b)) what log chain h = cc
parse_on_failure-IsChain (some (num v)) what log chain h = cc
parse_on_failure-IsChain (some (str s)) what log chain h = cc
parse_on_failure-IsChain (some (obj fs)) what log chain h = cc
parse_on_failure-IsChain (some (arr raws)) what log chain h =
    parse_items-IsChain (items raws) what log chain h

-- There are no fewer problems, and more where the result is missing.
abbrev Grows {ℓ} : {A : Type ℓ} → Log → Option A × Log → Type ℓ
Grows log r =
    (length log.problems ≤ length r.1.problems)
    × (r.0 ≡ none → length log.problems < length r.1.problems)

problem-grows :
    (log : Log) (what : String) (fault : Fault)
    → length (problem log what fault).problems ≡ suc (length log.problems)
problem-grows log what fault = omega (arith, length-append log.problems ((what, fault) ∷ []))

problems-check_keys :
    (what : String) (log : Log) (ks : List String)
    → (check_keys what log ks).problems ≡ log.problems
problems-check_keys what log [] = refl
problems-check_keys what log (k ∷ ks) =
    problems-check_keys what
      (if is_known_step_key k then log else diagnose log what (unknown_key k)) ks
    ∙ ground arith

problems-check_wait :
    (action : FailureAction) (wait_ms : Option ℕ) (what : String) (log : Log)
    → (check_wait action wait_ms what log).problems ≡ log.problems
problems-check_wait action none what log = refl
problems-check_wait action (some w) what log = ground arith

non_negative_int-grows :
    (v : Option Json) (what : String) (log : Log)
    → length log.problems ≤ length (non_negative_int v what log).1.problems
unfolding non_negative_int
non_negative_int-grows none what log = omega arith
non_negative_int-grows (some (num (nat n))) what log = omega arith
non_negative_int-grows (some v) what log =
    omega (arith, problem-grows log what not_non_negative_int)

parse_route_step-Grows :
    (output : Option Json) (what : String) (log : Log)
    → Grows log (parse_route_step output what log)
unfolding parse_route_step
parse_route_step-Grows (some (str s)) what log = (omega arith, λ e. cc)
parse_route_step-Grows (some (num (nat n))) what log = (omega arith, λ e. cc)
parse_route_step-Grows (some (num v)) what log =
    omega (arith, problem-grows log (what ++ ".output") bad_output_index)
parse_route_step-Grows output what log =
    omega (arith, problem-grows log (what ++ ".output") output_required)

parse_output-Grows :
    (action : FailureAction) (wait_ms : Option ℕ) (output : Option Json) (what : String) (log : Log)
    → Grows log (parse_output action wait_ms output what log)
unfolding parse_output
parse_output-Grows route wait_ms output what log = parse_route_step-Grows output what log
parse_output-Grows retry wait_ms none what log = (omega arith, λ e. cc)
parse_output-Grows stop wait_ms none what log = (omega arith, λ e. cc)
parse_output-Grows continue wait_ms none what log = (omega arith, λ e. cc)
parse_output-Grows action wait_ms (some v) what log =
    omega (arith, problem-grows log (what ++ ".output") output_elsewhere)

Grows-weaken {ℓ} :
    {A : Type ℓ} (log mid : Log) (r : Option A × Log)
    → length log.problems ≤ length mid.problems
    → Grows mid r
    → Grows log r
Grows-weaken log mid r h (grows, missing) = (omega arith, λ e. omega (arith, missing e))

parse_action-Grows :
    (action : Option FailureAction) (fs : Fields) (what : String) (log : Log)
    → Grows log (parse_action action fs what log)
unfolding parse_action
parse_action-Grows none fs what log =
    omega (arith, problem-grows log (what ++ ".action") not_an_action)
parse_action-Grows (some action) fs what log =
    let (wait_ms, log') = non_negative_int (read_field "waitMs" fs) (what ++ ".waitMs") log in
    let mid = check_wait action wait_ms what log' in
    Grows-weaken log mid (parse_output action wait_ms (read_field "output" fs) what mid)
      (omega (
        arith,
        non_negative_int-grows (read_field "waitMs" fs) (what ++ ".waitMs") log,
        ap length (problems-check_wait action wait_ms what log'),
      ))
      (parse_output-Grows action wait_ms (read_field "output" fs) what mid)

parse_step-Grows : (raw : Json) (what : String) (log : Log) → Grows log (parse_step raw what log)
unfolding parse_step
parse_step-Grows (obj fs) what log =
    let mid = check_keys what log (field_names fs) in
    let action = failure_action (read_field "action" fs) in
    Grows-weaken log mid (parse_action action fs what mid)
      (omega (arith, ap length (problems-check_keys what log (field_names fs))))
      (parse_action-Grows action fs what mid)
parse_step-Grows raw what log = omega (arith, problem-grows log what not_an_object)

-- The steps that did not parse each added a problem.
parse_steps-grows :
    (raws : List Json) (index : ℕ) (what : String) (log : Log)
    → (length (parse_steps raws index what log).0 ≤ length raws)
      × (length log.problems + length raws
          ≤ length (parse_steps raws index what log).1.problems
            + length (parse_steps raws index what log).0)
unfolding parse_steps
parse_steps-grows [] index what log = omega arith
parse_steps-grows (raw ∷ raws) index what log =
    let at = what ++ (".onFailure[" ++ (print index ++ "]")) in
    let here = parse_step-Grows raw at log in
    let later = parse_steps-grows raws (suc index) what (parse_step raw at log).1 in
    ground (arith, here, later)

through_first_terminal-Grows :
    (steps : List FailureStep) (what : String) (log : Log)
    → Grows log (through_first_terminal steps what log)
unfolding through_first_terminal
through_first_terminal-Grows steps what log = elim (Option-cases (first_terminal steps)) [
  | inl never ↦
      rw (never, through_first_terminal)
        (omega (arith, problem-grows log (what ++ ".onFailure") all_retry))
  | inr (k, found) ↦ rw (found, through_first_terminal) (ground arith, λ e. cc)
]

parse_items-Grows :
    (raws : List Json) (what : String) (log : Log) → Grows log (parse_items raws what log)
unfolding parse_items judge_steps
parse_items-Grows [] what log = omega (arith, problem-grows log (what ++ ".onFailure") no_steps)
parse_items-Grows (raw ∷ raws) what log =
    let grows = parse_steps-grows (raw ∷ raws) 0 what log in
    let (steps, log') = parse_steps (raw ∷ raws) 0 what log in
    elim (Bool-cases (length steps == suc (length raws))) [
      | inl every ↦ rw every (
          Grows-weaken log log' (through_first_terminal steps what log')
            (omega (arith, grows.0, grows.1)) (through_first_terminal-Grows steps what log'))
      | inr dropped ↦ rw dropped (ground (arith, grows))
    ]

parse_on_failure-Grows :
    (raw : Json) (what : String) (log : Log) → Grows log (parse_on_failure (some raw) what log)
unfolding parse_on_failure
parse_on_failure-Grows (arr raws) what log = parse_items-Grows (items raws) what log
parse_on_failure-Grows raw what log =
    omega (arith, problem-grows log (what ++ ".onFailure") not_an_array)

-- The problems are those of before and then some, at least one where the result is missing.
abbrev pub Reports {ℓ} : {A : Type ℓ} → Log → Option A × Log → Type ℓ
Reports log r =
    (added : List (String × Fault)) × (r.1.problems ≡ concat log.problems added)
    × (r.0 ≡ none → 0 < length added)

-- The parse of a declared `onFailure` keeps the problems that there are and adds its own behind them,
-- at least one where it gives no chain.
pub parse_on_failure-Reports :
    (raw : Json) (what : String) (log : Log) → Reports log (parse_on_failure (some raw) what log)
parse_on_failure-Reports raw what log =
    let (added, kept) = Extends-parse_on_failure raw what log in
    let (grows, missing) = parse_on_failure-Grows raw what log in
    (added, kept, λ e. omega (arith, missing e, ap length kept, length-append log.problems added))
