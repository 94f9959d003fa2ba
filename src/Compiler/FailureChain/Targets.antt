-- ===== src/Compiler/FailureChain/Targets.antt =====
-- compiler/failure-chain/route-target.ts and field-conflicts.ts: the target of a `route` step, and
-- the fields that a chain cannot sit beside.
use n8n_libpetri.Prelude.{
  ℕ, suc, String, string_eq, nat_eq, ◌==◌, Bool, true, false, Option, none, some, List, [], ◌∷◌,
  ◌++◌, if◌then◌else◌, leb,
}
use n8n_libpetri.Prelude.Sets.{has}
use n8n_libpetri.Compiler.Types.{
  NodeTypeShape, NodeDescription, OnError, continue_regular_output, Output, named, at,
}

-- The problems of a chain; a step's problem has its index.
pub data ChainFault : Type 0 where
  chain_beside_retry chain_beside_on_error deadline_without_chain : ChainFault
  no_terminal bad_deadline : ChainFault
  no_output : ℕ → ChainFault
  unnamed_output : ℕ → String → ChainFault
  output_out_of_range unconnected_output : ℕ → ℕ → ChainFault

-- `RouteTargets`, without the list of problems, which is passed along.
pub record RouteTargets : Type 0 where
  pub shape : NodeTypeShape
  pub output_count : ℕ
  pub error_output_index : Option ℕ
  pub connected_outputs : List ℕ

-- `names.indexOf(name)`, counted from `i`.
abbrev pub index_of : String → ℕ → List String → Option ℕ
index_of name i [] = none
index_of name i (n ∷ ns) = if n == name then some i else index_of name (suc i) ns

abbrev pub error_target : Option ℕ → String → Option ℕ
error_target error_output_index name = if name == "error" then error_output_index else none

abbrev pub declared_target : Option (List String) → String → Option ℕ
declared_target none name = none
declared_target (some names) name = index_of name 0 names

abbrev pub named_target :
    Option ℕ → Option ℕ → String → ℕ → List ChainFault → Option ℕ × List ChainFault
named_target (some e) declared name i problems = (some e, problems)
named_target none (some n) name i problems = (some n, problems)
named_target none none name i problems = (none, problems ++ (unnamed_output i name ∷ []))

-- `outputIndexOf` for the step at index `i`.
abbrev pub output_index_of :
    RouteTargets → Output → ℕ → List ChainFault → Option ℕ × List ChainFault
output_index_of t (at n) i problems = (some n, problems)
output_index_of t (named name) i problems =
    named_target (error_target t.error_output_index name)
      (declared_target t.shape.output_names name) name i problems

abbrev pub check_target : RouteTargets → ℕ → Option ℕ × List ChainFault → Option ℕ × List ChainFault
check_target t i (none, problems) = (none, problems)
check_target t i (some n, problems) =
    if leb t.output_count n
    then (none, problems ++ (output_out_of_range i n ∷ []))
    else if has t.connected_outputs n
    then (some n, problems)
    else (none, problems ++ (unconnected_output i n ∷ []))

-- A connected output index; `none` has recorded a problem.
unfoldable pub route_target_of :
    RouteTargets → Output → ℕ → List ChainFault → Option ℕ × List ChainFault
route_target_of t raw i problems =
    if t.output_count == 0
    then (none, problems ++ (no_output i ∷ []))
    else check_target t i (output_index_of t raw i problems)

abbrev pub retry_conflict : Bool → List ChainFault
retry_conflict true = chain_beside_retry ∷ []
retry_conflict false = []

abbrev pub on_error_conflict : Option OnError → List ChainFault
on_error_conflict (some continue_regular_output) = chain_beside_on_error ∷ []
on_error_conflict _ = []

unfoldable pub field_conflicts_of : NodeDescription → List ChainFault
field_conflicts_of node = retry_conflict node.retry_on_fail ++ on_error_conflict node.on_error
