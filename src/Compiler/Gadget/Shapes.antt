-- ===== src/Compiler/Gadget/Shapes.antt =====
-- gadget/local-shapes.ts and facts.ts: the parts of a gadget over its local places, and the facts
-- of the node it is built from.
use n8n_libpetri.Prelude.{ℕ, String, Bool, Option, List}
use n8n_libpetri.Compiler.Types.{EdgeRef, ResolvedReference, JoinForm, RetryParams, FailureChain}
use n8n_libpetri.Compiler.Gadget.Net.{Place}

-- The errors of the gadget phase: `InternalCompilerError`, and the `CompileError` of ready-slot.ts.
pub data GadgetError : Type 0 where
  no_children no_empty_place no_host_slot no_synthetic_input wrong_input_count : GadgetError
  no_ready_place split_tool no_next_attempt no_agent_budget no_input_empty tool_skip : GadgetError
  no_variant : GadgetError

-- The host slot of an edge: whether the consumer owns an empty place for it.
pub record EdgeSlot : Type 0 where
  pub id : ℕ
  pub has_empty : Bool

pub record LocalEdge : Type 0 where
  pub edge : EdgeRef
  pub data_place : Place
  pub empty_place : Option Place

pub record InputCommon : Type 0 where
  pub index : ℕ
  pub edges : List LocalEdge
  pub wired : Bool
  pub required : Bool
  pub empty_capable : Bool
  pub seed_empty : Bool
  pub unreachable_edges : ℕ

pub record OrInput : Type 0 where
  pub common : InputCommon
  pub round_place : Place
  pub hasdata_place : Place
  pub ran_place : Place
  pub round : ℕ

-- The slot of a join input: one ready place, or one for each variant.
pub data ReadySlot : Type 0 where
  single : Place → ReadySlot
  split : Place → Option Place → ReadySlot

pub record JoinInput : Type 0 where
  pub common : InputCommon
  pub free_place : Place
  pub slot : ReadySlot

-- The inputs of a generic join all have a single ready place.
pub data InputSide : Type 0 where
  direct_side : Place → Option Place → InputSide
  or_side : OrInput → InputSide
  join_side : Place → List JoinInput → InputSide
  choose_branch_side : List JoinInput → InputSide
  tool_side : Place → InputSide

pub record LocalOutput : Type 0 where
  pub index : ℕ
  pub edges : List LocalEdge
  pub nil_place : Option Place

pub record SplitOutput : Type 0 where
  pub output : LocalOutput
  pub ok_place : Place
  pub routed_place : Place

pub data Routing : Type 0 where
  collapsed : Place → List LocalOutput → Routing
  split : List SplitOutput → Routing

pub data AttemptAction : Type 0 where
  retry_to : ℕ → Place → AttemptAction
  route_to : ℕ → AttemptAction
  stop continue : AttemptAction

pub record LocalAttempt : Type 0 where
  pub index : ℕ
  pub running_place : Place
  pub failed_place : Place
  pub timed_out_place : Option Place
  pub action : AttemptAction

pub record LocalRetry : Type 0 where
  pub retry_place : Place
  pub tries_place : Place
  pub max_tries : ℕ
  pub wait_between_tries : ℕ

pub record LocalAgent : Type 0 where
  pub routed_request_place : Place
  pub queue_place : Place
  pub calls_place : Place
  pub drained_place : Place
  pub outstanding_place : Place
  pub dispatched_place : Place
  pub rounds_place : Place
  pub response_place : Place
  pub running_failed_place : Place
  pub tools : List String
  pub max_rounds : ℕ
  pub max_tool_calls : ℕ

pub record SharedPorts : Type 0 where
  pub budget_place : Place
  pub halt_place : Place
  pub pause_place : Place

pub record Markers : Type 0 where
  pub idle_place : Place
  pub running_place : Place
  pub done_place : Place
  pub waiting_place : Place
  pub stopped_place : Place

pub record ReferencePorts : Type 0 where
  pub done_ports : List Place
  pub skipped_ports : List (String × Place)
  pub names : List String
  pub unguarded : List String

-- The facts of one node. `tools` and `agents` are empty where the source has `null`.
pub record GadgetContext : Type 0 where
  pub depth : ℕ
  pub cyclic : Bool
  pub reachable : Bool
  pub reachable_nodes : List String
  pub incoming : List EdgeRef
  pub outgoing : List EdgeRef
  pub form : JoinForm
  pub skip_forwards : Bool
  pub stop_workflow : Bool
  pub required : List ℕ
  pub dead_inputs : List ℕ
  pub output_count : ℕ
  pub edge_slots : List EdgeSlot
  pub synthetic_input : Bool
  pub references : List ResolvedReference
  pub retry : Option RetryParams
  pub failure : Option FailureChain
  pub tools : List String
  pub agents : List String
  pub max_rounds : Option ℕ
  pub max_tool_calls : Option ℕ
