-- ===== src/Compiler/Gadget/Net.antt =====
-- The vocabulary of libpetri that compiler/gadget/ builds a subnet from: the arcs, the output
-- specifications and the transitions, as data; and the places of a gadget.
-- A place is the family that names/places.ts and names/ports.ts name, with its indexes; two local
-- places of one gadget are the same when their names are.
use n8n_libpetri.Prelude.{ℕ, String, Option, none, some, List, [], ◌∷◌, ◌++◌, map}
use n8n_libpetri.Prelude.Json.{Num}
use n8n_libpetri.Compiler.Types.{EdgeRef}
use n8n_libpetri.Compiler.Names.{Variant, data_variant, empty_variant}
use n8n_libpetri.Compiler.Names.Places as Places
use n8n_libpetri.Compiler.Names.Ports as Ports

pub data Place : Type 0 where
  budget halt pause input input_empty in_tool idle running done waiting stopped skipped : Place
  hasdata routed retry tries : Place
  routed_request queue calls drained outstanding dispatched rounds response running_failed : Place
  -- Of an input: the slot of a join, and the round of the OR form.
  free ready ready_data ready_empty round_ready hasdata_at ran : ℕ → Place
  -- Of an output.
  nil ok_at routed_at : ℕ → Place
  -- Of an attempt of an `onFailure` chain.
  running_at failed timed_out : ℕ → Place
  -- Ports: of an edge, of a reference, of a tool and of an agent.
  edge_in edge_in_empty : ℕ → ℕ → Place
  edge_out edge_out_empty ref_done ref_skipped tool_in agent_response : ℕ → Place

unfoldable pub place_name : Place → String
place_name budget = "budget"
place_name halt = "halt"
place_name pause = "pause"
place_name input = "in"
place_name input_empty = Ports.empty_twin_of "in"
place_name in_tool = "in_tool"
place_name idle = "idle"
place_name running = "running"
place_name done = "done"
place_name waiting = "waiting"
place_name stopped = "stopped"
place_name skipped = "skipped"
place_name hasdata = "hasdata"
place_name routed = "routed"
place_name retry = "retry"
place_name tries = "tries"
place_name routed_request = "routed_req"
place_name queue = "queue"
place_name calls = "calls"
place_name drained = "drained"
place_name outstanding = "outstanding"
place_name dispatched = "dispatched"
place_name rounds = "rounds"
place_name response = "response"
place_name running_failed = "running_failed"
place_name (free i) = Places.free_of i
place_name (ready i) = Places.ready_of i
place_name (ready_data i) = Places.ready_variant_of i data_variant
place_name (ready_empty i) = Places.ready_variant_of i empty_variant
place_name (round_ready i) = Places.ready_of i
place_name (hasdata_at i) = Places.hasdata_of i
place_name (ran i) = Places.ran_of i
place_name (nil o) = Places.nil_of o
place_name (ok_at o) = Places.ok_of o
place_name (routed_at o) = Places.routed_of o
place_name (running_at k) = Places.running_of k
place_name (failed k) = Places.failed_of k
place_name (timed_out k) = Places.timed_out_of k
place_name (edge_in i e) = Ports.edge_in_port_of i e
place_name (edge_in_empty i e) = Ports.empty_twin_of (Ports.edge_in_port_of i e)
place_name (edge_out e) = Ports.edge_out_port_of e
place_name (edge_out_empty e) = Ports.empty_twin_of (Ports.edge_out_port_of e)
place_name (ref_done k) = Ports.ref_done_port_of k
place_name (ref_skipped k) = Ports.ref_skipped_port_of k
place_name (tool_in k) = Ports.tool_in_port_of k
place_name (agent_response k) = Ports.agent_response_port_of k

-- An input arc: one token, so many, or all there are (at least one).
pub data In : Type 0 where
  one all_of : Place → In
  exactly : ℕ → Place → In

-- `forward a b` is libpetri's `forwardInput`: the token taken from `a` lands on `b`.
mutual
  pub data Out : Type 0 where
    place : Place → Out
    forward : Place → Place → Out
    and xor : Outs → Out
    timeout : ℕ → Out → Out

  pub data Outs : Type 0 where
    end : Outs
    more : Out → Outs → Outs

-- compiler/types/netmap.ts: what a transition is for,
-- with the reference, attempt, port, edge or combination it serves.
pub data TransitionInfo : Type 0 where
  start run_failed done_request dispatch collect resume rounds_out calls_out : TransitionInfo
  finish retry_wait exhausted sink : TransitionInfo
  start_unmet : String → TransitionInfo
  run attempt deadline route clear : ℕ → TransitionInfo
  skip : List Variant → TransitionInfo
  arm : EdgeRef → Variant → TransitionInfo

pub record Transition : Type 0 where
  pub name : String
  pub role : TransitionInfo
  pub inputs : List In
  pub inhibitors : List Place
  pub reads : List Place
  pub outputs : Option Out
  pub priority : Num
  pub delay : Option ℕ

-- The outputs as the builder calls list them.
abbrev pub outs : List Out → Outs
outs [] = end
outs (o ∷ os) = more o (outs os)

-- What a firing may write: one list of places for each choice in the specification.
abbrev pub combine : List (List Place) → List (List Place) → List (List Place)
combine [] right = []
combine (b ∷ bs) right = map (λ c. b ++ c) right ++ combine bs right

abbrev mutual
  pub branches : Out → List (List Place)
  branches (place p) = (p ∷ []) ∷ []
  branches (forward p q) = (q ∷ []) ∷ []
  branches (and os) = every_branch os
  branches (xor os) = some_branch os
  branches (timeout ms o) = branches o

  pub every_branch : Outs → List (List Place)
  every_branch end = [] ∷ []
  every_branch (more o os) = combine (branches o) (every_branch os)

  pub some_branch : Outs → List (List Place)
  some_branch end = []
  some_branch (more o os) = branches o ++ some_branch os

-- A sink has no specification, and writes nothing.
abbrev pub writes : Option Out → List (List Place)
writes none = [] ∷ []
writes (some o) = branches o
