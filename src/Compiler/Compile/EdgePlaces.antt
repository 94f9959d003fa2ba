-- ===== src/Compiler/Compile/EdgePlaces.antt =====
-- compile/edge-places.ts: the host places of the edges, of which the consumer owns both.
use n8n_libpetri.Prelude.{
  ℕ, String, Bool, Option, none, some, List, [], ◌∷◌, map, nat_eq, string_eq, if◌then◌else◌,
}
use n8n_libpetri.Prelude.Maps
use n8n_libpetri.Compiler.Types.{EdgeRef, EdgeKind, tree, cycle, JoinForm, direct}
use n8n_libpetri.Compiler.Gadget.Net.{Place, input, input_empty, edge_in, edge_in_empty}
use n8n_libpetri.Compiler.Gadget.Shapes.{EdgeSlot, GadgetContext}
use n8n_libpetri.Compiler.Gadget.Declare.{is_some}
use n8n_libpetri.Compiler.Compile.{NetPlace, owned}

-- A node of the analysis with the facts of its gadget.
pub record NetNode : Type 0 where
  pub id : String
  pub name : String
  pub is_tool : Bool
  pub is_referenced : Bool
  pub facts : GadgetContext

pub record HostSlot : Type 0 where
  pub edge : EdgeRef
  pub data_place : NetPlace
  pub empty_place : Option NetPlace

abbrev pub is_direct : JoinForm → Bool
is_direct direct = Bool.true
is_direct _ = Bool.false

-- `consumerPortOf` and its empty twin, as places of the consumer.
abbrev pub consumer_place : Bool → EdgeRef → Place
consumer_place single e = if single then input else edge_in e.input_index e.id

abbrev pub consumer_empty_place : Bool → EdgeRef → Place
consumer_empty_place single e = if single then input_empty else edge_in_empty e.input_index e.id

abbrev pub is_tree : EdgeKind → Bool
is_tree tree = Bool.true
is_tree cycle = Bool.false

abbrev pub edge_slot_of : NetNode → EdgeRef → HostSlot
edge_slot_of a e = record {
  edge = e;
  data_place = owned a.id (consumer_place (is_direct a.facts.form) e);
  empty_place =
      if is_tree e.kind
      then some (owned a.id (consumer_empty_place (is_direct a.facts.form) e))
      else none;
}

pub record HostEdgePlaces : Type 0 where
  pub edge_slots : List (ℕ × HostSlot)
  pub synthetic_in : List (String × NetPlace)

abbrev pub set_slots : NetNode → List (ℕ × HostSlot) → List EdgeRef → List (ℕ × HostSlot)
set_slots a slots [] = slots
set_slots a slots (e ∷ es) = set_slots a (Maps.set slots e.id (edge_slot_of a e)) es

-- A node without producers has a synthetic `X/in`, and a tool has neither.
abbrev pub node_places : NetNode → HostEdgePlaces → List EdgeRef → HostEdgePlaces
node_places a host [] = record host {
  synthetic_in = Maps.set host.synthetic_in a.name (owned a.id input);
}
node_places a host (e ∷ es) = record host { edge_slots = set_slots a host.edge_slots (e ∷ es) }

abbrev pub collect_places : HostEdgePlaces → List NetNode → HostEdgePlaces
collect_places host [] = host
collect_places host (a ∷ as') =
    collect_places (if a.is_tool then host else node_places a host a.facts.incoming) as'

unfoldable pub host_edge_places : List NetNode → HostEdgePlaces
host_edge_places nodes = collect_places (record { edge_slots = []; synthetic_in = [] }) nodes

-- What a gadget reads of the slots: whether the consumer owns an empty place.
abbrev pub slot_of : ℕ × HostSlot → EdgeSlot
slot_of (e, slot) = record { id = e; has_empty = is_some slot.empty_place }

abbrev pub gadget_slots : HostEdgePlaces → List EdgeSlot
gadget_slots host = map slot_of host.edge_slots
