-- ===== src/Compiler/Policy/Extends.antt =====
-- The parse of an `onFailure` only adds to the end of the problems.
use Prim.Native.String.{◌++◌ as append}
use n8n_libpetri.Prelude.{
  ℕ, suc, ◌≡◌, refl, ◌∙◌, ap, inl, inr, String, string_eq, nat_eq, ◌==◌, Option, none, some, List,
  [], ◌∷◌, ◌++◌, if◌then◌else◌, length, Option-cases,
}
use n8n_libpetri.Prelude.Predicates.{if-keeps}
use n8n_libpetri.Prelude.Json.{
  nat, Json, num, str, arr, obj, Fields, items, read_field, field_names,
}
use n8n_libpetri.Prelude.Texts.{print}
use n8n_libpetri.Compiler.Types.{FailureStep}
use n8n_libpetri.Compiler.Policy.Problems.{
  Fault, not_an_object, not_an_array, no_steps, not_an_action, output_required, bad_output_index,
  output_elsewhere, all_retry, not_non_negative_int, unknown_key, Log, problem, diagnose,
}
use n8n_libpetri.Compiler.Policy.Values.{
  non_negative_int, FailureAction, retry, route, stop, continue, failure_action,
}
use n8n_libpetri.Compiler.Policy.OnFailure.{
  parse_route_step, check_wait, parse_output, check_keys, parse_action, parse_step,
  is_known_step_key, first_terminal, through_first_terminal, parse_steps, judge_steps, parse_items,
  parse_on_failure,
}

-- The problems of `later` are those of `log`, and then some.
abbrev pub Extends : Log → Log → Type 0
Extends log later = (added : List (String × Fault)) × (later.problems ≡ (log.problems ++ added))

append-nil {ℓ} : {A : Type ℓ} (xs : List A) → xs ≡ (xs ++ [])
append-nil [] = refl
append-nil (x ∷ xs) = ap (λ l. x ∷ l) (append-nil xs)

append_assoc {ℓ} : {A : Type ℓ} (xs ys zs : List A) → ((xs ++ ys) ++ zs) ≡ (xs ++ (ys ++ zs))
append_assoc [] ys zs = refl
append_assoc (x ∷ xs) ys zs = ap (λ l. x ∷ l) (append_assoc xs ys zs)

Extends-same : (log : Log) → Extends log log
Extends-same log = ([], append-nil log.problems)

Extends-trans : (a b c : Log) → Extends a b → Extends b c → Extends a c
Extends-trans a b c (xs, e) (ys, f) =
    (xs ++ ys, f ∙ ap (λ l. l ++ ys) e ∙ append_assoc a.problems xs ys)

Extends-problem : (log : Log) (what : String) (fault : Fault) → Extends log (problem log what fault)
Extends-problem log what fault = ((what, fault) ∷ [], refl)

Extends-check_keys :
    (what : String) (log : Log) (ks : List String) → Extends log (check_keys what log ks)
Extends-check_keys what log [] = Extends-same log
Extends-check_keys what log (k ∷ ks) =
    let next = if is_known_step_key k then log else diagnose log what (unknown_key k) in
    Extends-trans log next (check_keys what next ks)
      (if-keeps (Extends log) (is_known_step_key k) log (diagnose log what (unknown_key k))
        (Extends-same log) (Extends-same log))
      (Extends-check_keys what next ks)

Extends-check_wait :
    (action : FailureAction) (wait_ms : Option ℕ) (what : String) (log : Log)
    → Extends log (check_wait action wait_ms what log)
Extends-check_wait action none what log = Extends-same log
Extends-check_wait retry (some w) what log = Extends-same log
Extends-check_wait route (some w) what log = Extends-same log
Extends-check_wait stop (some w) what log = Extends-same log
Extends-check_wait continue (some w) what log = Extends-same log

Extends-non_negative_int :
    (v : Option Json) (what : String) (log : Log) → Extends log (non_negative_int v what log).1
unfolding non_negative_int
Extends-non_negative_int none what log = Extends-same log
Extends-non_negative_int (some (num (nat n))) what log = Extends-same log
Extends-non_negative_int (some v) what log = Extends-problem log what not_non_negative_int

Extends-parse_route_step :
    (output : Option Json) (what : String) (log : Log)
    → Extends log (parse_route_step output what log).1
unfolding parse_route_step
Extends-parse_route_step (some (str s)) what log = Extends-same log
Extends-parse_route_step (some (num (nat n))) what log = Extends-same log
Extends-parse_route_step (some (num v)) what log =
    Extends-problem log (append what ".output") bad_output_index
Extends-parse_route_step output what log =
    Extends-problem log (append what ".output") output_required

Extends-parse_output :
    (action : FailureAction) (wait_ms : Option ℕ) (output : Option Json) (what : String) (log : Log)
    → Extends log (parse_output action wait_ms output what log).1
unfolding parse_output
Extends-parse_output route wait_ms output what log = Extends-parse_route_step output what log
Extends-parse_output retry wait_ms none what log = Extends-same log
Extends-parse_output stop wait_ms none what log = Extends-same log
Extends-parse_output continue wait_ms none what log = Extends-same log
Extends-parse_output action wait_ms (some v) what log =
    Extends-problem log (append what ".output") output_elsewhere

Extends-parse_action :
    (action : Option FailureAction) (fs : Fields) (what : String) (log : Log)
    → Extends log (parse_action action fs what log).1
unfolding parse_action
Extends-parse_action none fs what log = Extends-problem log (append what ".action") not_an_action
Extends-parse_action (some action) fs what log =
    let read = non_negative_int (read_field "waitMs" fs) (append what ".waitMs") log in
    let mid = check_wait action read.0 what read.1 in
    Extends-trans log mid (parse_output action read.0 (read_field "output" fs) what mid).1
      (Extends-trans log read.1 mid
        (Extends-non_negative_int (read_field "waitMs" fs) (append what ".waitMs") log)
        (Extends-check_wait action read.0 what read.1))
      (Extends-parse_output action read.0 (read_field "output" fs) what mid)

Extends-parse_step :
    (raw : Json) (what : String) (log : Log) → Extends log (parse_step raw what log).1
unfolding parse_step
Extends-parse_step (obj fs) what log =
    let mid = check_keys what log (field_names fs) in
    let action = failure_action (read_field "action" fs) in
    Extends-trans log mid (parse_action action fs what mid).1
      (Extends-check_keys what log (field_names fs)) (Extends-parse_action action fs what mid)
Extends-parse_step raw what log = Extends-problem log what not_an_object

Extends-parse_steps :
    (raws : List Json) (index : ℕ) (what : String) (log : Log)
    → Extends log (parse_steps raws index what log).1
unfolding parse_steps
Extends-parse_steps [] index what log = Extends-same log
Extends-parse_steps (raw ∷ raws) index what log =
    let at = append what (append ".onFailure[" (append (print index) "]")) in
    let mid = (parse_step raw at log).1 in
    Extends-trans log mid (parse_steps raws (suc index) what mid).1 (Extends-parse_step raw at log)
      (Extends-parse_steps raws (suc index) what mid)

Extends-through_first_terminal :
    (steps : List FailureStep) (what : String) (log : Log)
    → Extends log (through_first_terminal steps what log).1
unfolding through_first_terminal
Extends-through_first_terminal steps what log = elim (Option-cases (first_terminal steps)) [
  | inl never ↦
      rw (never, through_first_terminal) (Extends-problem log (append what ".onFailure") all_retry)
  | inr (k, found) ↦
      rw (found, through_first_terminal)
        (if-keeps (Extends log) _ _ log (Extends-same log) (Extends-same log))
]

Extends-parse_items :
    (raws : List Json) (what : String) (log : Log) → Extends log (parse_items raws what log).1
unfolding parse_items judge_steps
Extends-parse_items [] what log = Extends-problem log (append what ".onFailure") no_steps
Extends-parse_items (raw ∷ raws) what log =
    let (steps, mid) = parse_steps (raw ∷ raws) 0 what log in
    let parsed = Extends-parse_steps (raw ∷ raws) 0 what log in
    let judged = through_first_terminal steps what mid in
    if-keeps (λ (r : Option (List FailureStep) × Log). Extends log r.1)
      (length steps == suc (length raws)) judged (none, mid)
      (Extends-trans log mid judged.1 parsed (Extends-through_first_terminal steps what mid)) parsed

pub Extends-parse_on_failure :
    (raw : Json) (what : String) (log : Log) → Extends log (parse_on_failure (some raw) what log).1
unfolding parse_on_failure
Extends-parse_on_failure (arr raws) what log = Extends-parse_items (items raws) what log
Extends-parse_on_failure raw what log = Extends-problem log (append what ".onFailure") not_an_array
