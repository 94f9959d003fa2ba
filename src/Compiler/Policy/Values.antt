-- ===== src/Compiler/Policy/Values.antt =====
-- compiler/policy/values.ts and failure-action.ts: the value checks of a policy's fields.
use n8n_libpetri.Prelude.{
  ℕ, suc, String, string_eq, ◌==◌, Bool, true, false, Option, none, some, if◌then◌else◌,
}
use n8n_libpetri.Prelude.Json.{nat, Json, num, str, obj, Fields}
use n8n_libpetri.Compiler.Policy.Problems.{not_positive_int, not_non_negative_int, Log, problem}

-- `isRecord`: the fields of a JSON object.
abbrev pub is_record : Json → Option Fields
is_record (obj fs) = some fs
is_record _ = none

-- A positive integer, or `none` with a problem; an absent value is no problem.
unfoldable pub positive_int : Option Json → String → Log → Option ℕ × Log
positive_int none what log = (none, log)
positive_int (some (num (nat (suc n)))) what log = (some (suc n), log)
positive_int (some v) what log = (none, problem log what not_positive_int)

-- A non-negative integer, or `none` with a problem; an absent value is no problem.
unfoldable pub non_negative_int : Option Json → String → Log → Option ℕ × Log
non_negative_int none what log = (none, log)
non_negative_int (some (num (nat n))) what log = (some n, log)
non_negative_int (some v) what log = (none, problem log what not_non_negative_int)

pub data FailureAction : Type 0 where
  retry route stop continue : FailureAction

-- `retry` continues the chain; everything else ends the activation.
abbrev pub is_terminal_action : FailureAction → Bool
is_terminal_action retry = false
is_terminal_action _ = true

-- `isFailureAction`: the action that a raw value names.
unfoldable pub failure_action : Option Json → Option FailureAction
failure_action (some (str s)) =
    if s == "retry"
    then some retry
    else if s == "route"
    then some route
    else if s == "stop"
    then some stop
    else if s == "continue"
    then some continue
    else none
failure_action _ = none
