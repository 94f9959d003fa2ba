-- ===== src/Compiler/Types.antt =====
-- The vocabulary of the analysis: compiler/types/input.ts, analysis.ts and netmap.ts.
use n8n_libpetri.Prelude.{
  ℕ, String, ◌≡◌, ◌↔◌, Bool, true, false, Option, List, Eq, ◌==◌, nat_eq, string_eq, arith,
}
pub use n8n_libpetri.Prelude.Json.{Num, nat, negative, fractional}

-- A classified main connection: `tree` leaves its strongly connected component, `cycle` does not.
pub data EdgeKind : Type 0 where
  tree cycle : EdgeKind

pub record EdgeRef : Type 0 where
  pub from : String
  pub output_index : ℕ
  pub to : String
  pub input_index : ℕ
  pub id : ℕ
  pub kind : EdgeKind

pub record MainConnection : Type 0 where
  pub from : String
  pub output_index : Num
  pub to : String
  pub input_index : Num

pub record ToolConnection : Type 0 where
  pub agent : String
  pub tool : String

pub data JoinForm : Type 0 where
  direct or join choose_branch tool : JoinForm

pub data ReferenceKind : Type 0 where
  read seeded unguarded : ReferenceKind

pub record ResolvedReference : Type 0 where
  pub node : String
  pub kind : ReferenceKind

-- The declared `requiredInputs` of a node type: a count or a list of indexes.
pub data RequiredInputs : Type 0 where
  count : Num → RequiredInputs
  indexes : List Num → RequiredInputs

pub record NodeTypeShape : Type 0 where
  pub input_count : ℕ
  pub output_count : ℕ
  pub required_inputs : Option RequiredInputs
  pub loop_node : Bool
  pub output_names : Option (List String)

pub data OnError : Type 0 where
  stop_workflow continue_regular_output continue_error_output : OnError

-- The target of a `route` step: an output name or an index.
pub data Output : Type 0 where
  named : String → Output
  at : ℕ → Output

-- One step of a failure policy; its index is the attempt that it governs.
pub data FailureStep : Type 0 where
  retry : Option ℕ → FailureStep
  route : Output → FailureStep
  stop continue : FailureStep

pub record Concurrency : Type 0 where
  pub group : Option String
  pub limit : ℕ

pub record Rate : Type 0 where
  pub group : Option String
  pub per_ms : ℕ
  pub burst : ℕ

pub record ExecutionPolicy : Type 0 where
  pub timeout_ms : Option ℕ
  pub on_failure : Option (List FailureStep)
  pub concurrency : Option Concurrency
  pub rate : Option Rate
  pub max_runs : Option ℕ
  pub max_tool_calls : Option ℕ
  pub max_rounds : Option ℕ

-- The fields of a node that the analysis reads.
pub record NodeDescription : Type 0 where
  pub id : String
  pub name : String
  pub on_error : Option OnError
  pub retry_on_fail : Bool
  pub max_tries : Option Num
  pub wait_between_tries : Option Num
  pub execution_policy : Option ExecutionPolicy

pub record RetryParams : Type 0 where
  pub max_tries : ℕ
  pub wait_between_tries : ℕ

-- A resolved step, with the attempt that it answers (1-based).
pub data ResolvedStep : Type 0 where
  retry : (attempt wait_ms next_attempt : ℕ) → ResolvedStep
  route : (attempt output_index : ℕ) → ResolvedStep
  stop continue : (attempt : ℕ) → ResolvedStep

pub record FailureChain : Type 0 where
  pub steps : List ResolvedStep
  pub timeout_ms : Option ℕ

-- analysis/validate.ts `RawNode`.
pub record RawNode : Type 0 where
  pub node : NodeDescription
  pub shape : NodeTypeShape
  pub index : ℕ
  pub output_count : ℕ
  pub error_output_index : Option ℕ
  pub on_error : OnError
  pub retry : Option RetryParams
  pub raw_references : List String
  pub all_required : Bool
  pub required_inputs : Option (List ℕ)

-- The fields of `AnalysedNode` that the phases read.
pub record AnalysedNode : Type 0 where
  pub node : NodeDescription
  pub shape : NodeTypeShape
  pub index : ℕ
  pub dead_inputs : List ℕ
  pub required_inputs : Option (List ℕ)
  pub is_tool : Bool
  pub form : JoinForm

abbrev pub num_beq : Num → Num → Bool
num_beq (nat a) (nat b) = a == b
num_beq (negative a) (negative b) = a == b
num_beq (fractional s) (fractional t) = s == t
num_beq _ _ = false

pub num_beq_iff : (a b : Num) → (num_beq a b ≡ true) ↔ (a ≡ b)
num_beq_iff (nat a) (nat b) = ground (arith, nat_eq.beq_iff a b)
num_beq_iff (negative a) (negative b) = ground (arith, nat_eq.beq_iff a b)
num_beq_iff (fractional a) (fractional b) = ground (arith, string_eq.beq_iff a b)
num_beq_iff _ _ = ground arith

instance abbrev pub num_eq : Eq Num
num_eq = record { beq = num_beq; beq_iff = num_beq_iff }
