-- ===== src/Compiler/Compile/Compose.antt =====
-- compile/compose.ts `composeNet`, the v1 profile: the gadget of each node, and the host places that
-- its ports are bound to.
use n8n_libpetri.Prelude.{
  ℕ, suc, String, Bool, true, false, not, ◌||◌, Option, none, some, List, [], ◌∷◌, ◌++◌, nat_eq,
  string_eq, ◌==◌, if◌then◌else◌,
}
use n8n_libpetri.Prelude.Maps
use n8n_libpetri.Prelude.Results.{Result, ok, err, ◌>>=◌}
use n8n_libpetri.Compiler.Types.{EdgeRef}
use n8n_libpetri.Compiler.Gadget.Net.{
  Place, budget, halt, pause, in_tool, done, skipped, response, edge_out, edge_out_empty, ref_done,
  ref_skipped, tool_in, agent_response, Transition,
}
use n8n_libpetri.Compiler.Gadget.Shapes.{
  GadgetError, InputSide, tool_side, LocalRetry, LocalAgent, GadgetContext,
}
use n8n_libpetri.Compiler.Gadget.Declare.{declare_side, can_skip, is_some}
use n8n_libpetri.Compiler.Gadget.Failure.{declare_retry, declare_agent, declare_references}
use n8n_libpetri.Compiler.Gadget.Build.{build_gadget}
use n8n_libpetri.Compiler.Compile.{
  NetPlace, shared_budget, shared_halt, shared_pause, owned, place_eq,
}
use n8n_libpetri.Compiler.Compile.EdgePlaces.{
  NetNode, HostSlot, HostEdgePlaces, host_edge_places, gadget_slots,
}

abbrev pub Ports : Type 0
Ports = List (Place × NetPlace)

-- The errors of the composition: one of a gadget, or a port to a node that has no instance.
pub data ComposeError : Type 0 where
  gadget : String → GadgetError → ComposeError
  no_instance : String → ComposeError
  no_port : String → Place → ComposeError
  no_slot : ℕ → ComposeError

-- The gadget of a node: its parts, its transitions over its local places, and its ports.
pub record NodeBuild : Type 0 where
  pub node : NetNode
  pub context : GadgetContext
  pub side : InputSide
  pub retry_side : Option LocalRetry
  pub agent : Option LocalAgent
  pub transitions : List Transition
  pub ports : Ports

abbrev pub is_tool_side : InputSide → Bool
is_tool_side (tool_side p) = true
is_tool_side _ = false

-- `declareSharedPorts`.
abbrev pub shared_bindings : Ports
shared_bindings = (budget, shared_budget) ∷ (halt, shared_halt) ∷ (pause, shared_pause) ∷ []

abbrev pub find_host_slot : List (ℕ × HostSlot) → ℕ → Result ComposeError HostSlot
find_host_slot slots e = elim (Maps.get slots e) [ none ↦ err (no_slot e) | some s ↦ ok s ]

abbrev pub empty_binding : Place → Option NetPlace → Ports
empty_binding p none = []
empty_binding p (some q) = (p, q) ∷ []

-- The ports of the outgoing edges: the consumer's places.
abbrev pub output_bindings : List (ℕ × HostSlot) → Bool → List EdgeRef → Result ComposeError Ports
output_bindings slots writes_empty [] = ok []
output_bindings slots writes_empty (e ∷ es) = do
  slot ← find_host_slot slots e.id
  later ← output_bindings slots writes_empty es
  ok (
      ((edge_out e.id, slot.data_place)
        ∷ empty_binding (edge_out_empty e.id) (if writes_empty then slot.empty_place else none))
      ++ later)

-- `instanceOf`.
abbrev pub instance_of : List NodeBuild → String → Result ComposeError NodeBuild
instance_of [] name = err (no_instance name)
instance_of (b ∷ bs) name = if b.node.name == name then ok b else instance_of bs name

-- The ports that a node's instance has, or the place that the host declares in place of one.
abbrev pub has_done : NodeBuild → Bool
has_done b = true

abbrev pub has_skipped : NodeBuild → Bool
has_skipped b = can_skip b.side || b.node.is_referenced

abbrev pub has_in_tool : NodeBuild → Bool
has_in_tool b = is_tool_side b.side

abbrev pub has_response : NodeBuild → Bool
has_response b = is_some b.agent

-- `instance.port(marker)`, which throws where the node has no such port.
abbrev pub port_in :
    List NodeBuild → (NodeBuild → Bool) → Place → String → Result ComposeError NetPlace
port_in builds has_port target n = do
  b ← instance_of builds n
  if has_port b then ok (owned b.node.id target) else err (no_port n target)

-- Each numbered port is bound to a place of the named node.
abbrev pub named_bindings :
    List NodeBuild
    → (NodeBuild → Bool)
    → (ℕ → Place)
    → Place
    → ℕ
    → List String
    → Result ComposeError Ports
named_bindings builds has_port port target k [] = ok []
named_bindings builds has_port port target k (n ∷ ns) = do
  q ← port_in builds has_port target n
  later ← named_bindings builds has_port port target (suc k) ns
  ok ((port k, q) ∷ later)

-- `portsOf`: the host places of references and of agent tool dispatch. The skipped place that the
-- host declares for a node without a skip has the name of the node's own.
abbrev pub ports_of : List NodeBuild → NodeBuild → Result ComposeError Ports
ports_of builds b = do
  let refs = declare_references 0 b.context.references
  dones ← named_bindings builds has_done ref_done done 0 refs.names
  skips ← named_bindings builds has_skipped ref_skipped skipped 0 refs.names
  tools ← named_bindings builds has_in_tool tool_in in_tool 0 b.context.tools
  responses ← named_bindings builds has_response agent_response response 0 b.context.agents
  ok (b.ports ++ dones ++ skips ++ tools ++ responses)

abbrev pub in_gadget {ℓ} : {A : Type ℓ} → String → Result GadgetError A → Result ComposeError A
in_gadget name (ok a) = ok a
in_gadget name (err e) = err (gadget name e)

abbrev pub gadget_context : HostEdgePlaces → NetNode → GadgetContext
gadget_context host a = record (a.facts) {
  edge_slots = gadget_slots host;
  synthetic_input = is_some (Maps.get host.synthetic_in a.name);
}

unfoldable pub build_node : HostEdgePlaces → NetNode → Result ComposeError NodeBuild
build_node host a = do
  let ctx = gadget_context host a
  side ← in_gadget a.name (declare_side ctx)
  agent ← in_gadget a.name (declare_agent ctx.tools ctx.max_rounds ctx.max_tool_calls)
  ts ← in_gadget a.name (build_gadget ctx)
  edges ← output_bindings host.edge_slots (not ctx.cyclic || can_skip side) ctx.outgoing
  ok (record {
    node = a;
    context = ctx;
    side = side;
    retry_side = declare_retry ctx.retry;
    agent = agent;
    transitions = ts;
    ports = shared_bindings ++ edges;
  })

abbrev pub build_nodes : HostEdgePlaces → List NetNode → Result ComposeError (List NodeBuild)
build_nodes host [] = ok []
build_nodes host (a ∷ as') = do b ← build_node host a; bs ← build_nodes host as'; ok (b ∷ bs)

abbrev pub bind_nodes : List NodeBuild → List NodeBuild → Result ComposeError (List NodeBuild)
bind_nodes builds [] = ok []
bind_nodes builds (b ∷ bs) = do
  ports ← ports_of builds b
  bound ← bind_nodes builds bs
  ok (record b { ports = ports } ∷ bound)

unfoldable pub compose_net : List NetNode → Result ComposeError (List NodeBuild)
compose_net nodes = do builds ← build_nodes (host_edge_places nodes) nodes; bind_nodes builds builds

-- The place of the flat net that a local place stands for: the one its port is bound to, or its own
-- under the prefix of the instance.
unfoldable pub flat : NodeBuild → Place → NetPlace
flat b p = Maps.get_or b.ports p (owned b.node.id p)
