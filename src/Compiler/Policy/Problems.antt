-- ===== src/Compiler/Policy/Problems.antt =====
-- The lists that a parse accumulates onto: problems, which refuse the policy, and diagnostics. A
-- message is its subject, in the source's words, and what is wrong with it.
use n8n_libpetri.Prelude.{ℕ, String, List, [], ◌∷◌, ◌++◌}

pub data Fault : Type 0 where
  not_positive_int not_non_negative_int not_an_object not_an_array no_steps not_an_action : Fault
  output_required bad_output_index output_elsewhere all_retry required not_a_name : Fault

pub data Remark : Type 0 where
  unknown_key : String → Remark
  wait_ignored unknown_version : Remark
  unreachable : (terminal first last : ℕ) → Remark

pub record Log : Type 0 where
  pub problems : List (String × Fault)
  pub diagnostics : List (String × Remark)

abbrev pub problem : Log → String → Fault → Log
problem log what fault = record log { problems = log.problems ++ ((what, fault) ∷ []) }

abbrev pub diagnose : Log → String → Remark → Log
diagnose log what remark = record log { diagnostics = log.diagnostics ++ ((what, remark) ∷ []) }
