-- ===== src/Compiler/Policy/Admission.antt =====
-- compiler/policy/admission.ts: the admission fields `concurrency` and `rate`.
use Prim.Native.String.{◌++◌}
use n8n_libpetri.Prelude.{ℕ, String, string_eq, ◌==◌, Option, none, some, if◌then◌else◌}
use n8n_libpetri.Prelude.Json.{Json, str, Fields, read_field}
use n8n_libpetri.Compiler.Types.{Concurrency, Rate}
use n8n_libpetri.Compiler.Policy.Problems.{not_an_object, required, not_a_name, Log, problem}
use n8n_libpetri.Compiler.Policy.Values.{is_record, positive_int}

unfoldable pub parse_group_ref : Fields → String → Log → Option String × Log
parse_group_ref raw what log = elim (read_field "group" raw) [
  | none ↦ (none, log)
  | some v ↦ elim v [
    | str s ↦ if s == "" then (none, problem log (what ++ ".group") not_a_name) else (some s, log)
    | _ ↦ (none, problem log (what ++ ".group") not_a_name)
  ]
]

unfoldable pub concurrency_of : Option String → Option ℕ → String → Log → Option Concurrency × Log
concurrency_of group none what log = (none, problem log (what ++ ".limit") required)
concurrency_of group (some limit) what log = (some (record { group = group; limit = limit }), log)

-- `raw.concurrency`: a required `limit`, and an optional `group`.
unfoldable pub parse_concurrency : Option Json → String → Log → Option Concurrency × Log
parse_concurrency none what log = (none, log)
parse_concurrency (some raw) what log = elim (is_record raw) [
  | none ↦ (none, problem log (what ++ ".concurrency") not_an_object)
  | some fs ↦
      let at = what ++ ".concurrency" in
      let (limit, log') = positive_int (read_field "limit" fs) (at ++ ".limit") log in
      let (group, log'') = parse_group_ref fs at log' in concurrency_of group limit at log''
]

unfoldable pub rate_of : Option String → Option ℕ → Option ℕ → String → Log → Option Rate × Log
rate_of group (some per_ms) (some burst) what log =
    (some (record { group = group; per_ms = per_ms; burst = burst }), log)
rate_of group none burst what log = (none, problem log what required)
rate_of group (some per_ms) none what log = (none, problem log what required)

-- `raw.rate`: both `perMs` and `burst`, and an optional `group`.
unfoldable pub parse_rate : Option Json → String → Log → Option Rate × Log
parse_rate none what log = (none, log)
parse_rate (some raw) what log = elim (is_record raw) [
  | none ↦ (none, problem log (what ++ ".rate") not_an_object)
  | some fs ↦
      let at = what ++ ".rate" in
      let (per_ms, log') = positive_int (read_field "perMs" fs) (at ++ ".perMs") log in
      let (burst, log'') = positive_int (read_field "burst" fs) (at ++ ".burst") log' in
      let (group, log''') = parse_group_ref fs at log'' in rate_of group per_ms burst at log'''
]
