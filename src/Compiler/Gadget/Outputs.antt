-- ===== src/Compiler/Gadget/Outputs.antt =====
-- gadget/output-side.ts, outcome.ts and out-spec.ts: the connected outputs of a node, how they are
-- routed, and the alternatives of an outcome.
use n8n_libpetri.Prelude.{
  ℕ, suc, zero, ltb, Bool, true, false, not, ◌||◌, ◌&&◌, none, some, List, [], ◌∷◌, ◌++◌, map,
  nat_eq, ◌==◌, if◌then◌else◌, length, keep,
}
use n8n_libpetri.Prelude.Sets.{unique}
use n8n_libpetri.Prelude.Results.{Result, ok, err, ◌>>=◌}
use n8n_libpetri.Compiler.Types.{EdgeRef}
use n8n_libpetri.Compiler.Gadget.Net.{
  Place, routed, nil, ok_at, routed_at, edge_out, edge_out_empty, Out, place, and, xor, outs,
}
use n8n_libpetri.Compiler.Gadget.Shapes.{
  GadgetError, no_children, no_empty_place, split_tool, LocalEdge, split, InputSide, tool_side,
  LocalOutput, SplitOutput, Routing, collapsed, SharedPorts, Markers, GadgetContext,
}
use n8n_libpetri.Compiler.Gadget.Declare.{map_result, host_slot_of}

-- out-spec.ts: the combinators, which collapse to an only child and refuse none.
abbrev pub and_of : List Out → Result GadgetError Out
and_of [] = err no_children
and_of (o ∷ []) = ok o
and_of (o ∷ p ∷ os) = ok (and (outs (o ∷ p ∷ os)))

abbrev pub xor_of : List Out → Result GadgetError Out
xor_of [] = err no_children
xor_of (o ∷ []) = ok o
xor_of (o ∷ p ∷ os) = ok (xor (outs (o ∷ p ∷ os)))

-- `SPLIT_ROUTING_ABOVE`.
abbrev split_routing_above : ℕ
split_routing_above = 3

abbrev pub declare_output_edge : GadgetContext → Bool → EdgeRef → Result GadgetError LocalEdge
declare_output_edge ctx writes_empty e = do
  slot ← host_slot_of ctx e
  ok (record {
    edge = e;
    data_place = edge_out e.id;
    empty_place = if slot.has_empty && writes_empty then some (edge_out_empty e.id) else none;
  })

-- The outputs from `o` on, `n` of them; an unconnected output gets no places.
abbrev pub connected_output :
    GadgetContext → ℕ → List LocalEdge → List LocalOutput → List LocalOutput
connected_output ctx o [] later = later
connected_output ctx o (e ∷ es) later =
    record { index = o; edges = e ∷ es; nil_place = if ctx.cyclic then some (nil o) else none }
    ∷ later

abbrev pub declare_outputs : GadgetContext → Bool → ℕ → ℕ → Result GadgetError (List LocalOutput)
declare_outputs ctx writes_empty zero o = ok []
declare_outputs ctx writes_empty (suc n) o = do
  edges ←
      map_result (declare_output_edge ctx writes_empty)
        (keep (λ e. e.output_index == o) ctx.outgoing)
  later ← declare_outputs ctx writes_empty n (suc o)
  ok (connected_output ctx o edges later)

abbrev pub split_output : LocalOutput → SplitOutput
split_output out = record {
  output = out;
  ok_place = ok_at out.index;
  routed_place = routed_at out.index;
}

abbrev pub is_split : GadgetContext → Bool
is_split ctx = ltb split_routing_above (length (unique [] (map (λ e. e.output_index) ctx.outgoing)))

abbrev pub routing_shape : Bool → List LocalOutput → Routing
routing_shape true os = split (map split_output os)
routing_shape false os = collapsed routed os

unfoldable pub build_routing : GadgetContext → Bool → Result GadgetError Routing
build_routing ctx has_skip = do
  os ← declare_outputs ctx (not ctx.cyclic || has_skip) ctx.output_count 0
  ok (routing_shape (is_split ctx) os)

abbrev pub routing_outputs : Routing → List LocalOutput
routing_outputs (collapsed r os) = os
routing_outputs (split os) = map (λ o. o.output) os

-- The empties that a skip forwards, of the edges that have one.
abbrev pub edge_empties : List LocalEdge → List Out
edge_empties [] = []
edge_empties (e ∷ es) = elim e.empty_place [
  | none ↦ edge_empties es
  | some p ↦ place p ∷ edge_empties es
]

abbrev pub output_empties : List LocalOutput → List Out
output_empties [] = []
output_empties (o ∷ os) = edge_empties o.edges ++ output_empties os

abbrev pub skip_empties : GadgetContext → Routing → List Out
skip_empties ctx r = if ctx.skip_forwards then output_empties (routing_outputs r) else []

-- outcome.ts `routingOf`: the data of all edges, or their empties, or the `nil` of a cyclic node.
abbrev pub empty_out : LocalEdge → Result GadgetError Out
empty_out e = elim e.empty_place [ none ↦ err no_empty_place | some p ↦ ok (place p) ]

abbrev pub empties_of : List LocalEdge → Result GadgetError Out
empties_of edges = do es ← map_result empty_out edges; and_of es

abbrev pub nothing_of : LocalOutput → Result GadgetError Out
nothing_of out = elim out.nil_place [ none ↦ empties_of out.edges | some p ↦ ok (place p) ]

abbrev pub routing_of : LocalOutput → Result GadgetError Out
routing_of out = do
  full ← and_of (map (λ e. place e.data_place) out.edges)
  rest ← nothing_of out
  ok (xor (outs (full ∷ rest ∷ [])))

abbrev pub place_routing : List LocalOutput → Place → Result GadgetError Out
place_routing os r = do outs ← map_result routing_of os; and_of (outs ++ place r ∷ [])

-- outcome.ts `successBranch`: a tool writes the response of one of its agents.
abbrev pub tool_response : List Place → Routing → Result GadgetError Out
tool_response ports (split os) = err split_tool
tool_response ports (collapsed r os) = do
  answer ← xor_of (map place ports)
  ok (and (outs (answer ∷ place r ∷ [])))

abbrev pub node_success : Routing → Result GadgetError Out
node_success (split os) = and_of (map (λ o. place o.ok_place) os)
node_success (collapsed r os) = place_routing os r

unfoldable pub success_branch : InputSide → Routing → List Place → Result GadgetError Out
success_branch (tool_side p) r ports = tool_response ports r
success_branch _ r ports = node_success r

-- The halt, waiting and stopped branches of an outcome.
abbrev pub halt_branch : SharedPorts → Out
halt_branch shared = and (outs (place shared.halt_place ∷ place shared.budget_place ∷ []))

abbrev pub waiting_branch : SharedPorts → Markers → Out
waiting_branch shared markers =
    and (
      outs
        (place markers.waiting_place ∷ place shared.pause_place ∷ place shared.budget_place ∷ []))

abbrev pub stopped_branch : SharedPorts → Markers → Out
stopped_branch shared markers =
    and (
      outs
        (place markers.stopped_place ∷ place shared.pause_place ∷ place shared.budget_place ∷ []))

-- outcome.ts `OutcomeBranches`, with the halt branch where the node has one.
abbrev pub closing_branches : SharedPorts → Markers → Bool → List Out
closing_branches shared markers halts =
    (if halts then halt_branch shared ∷ [] else [])
    ++ waiting_branch shared markers ∷ stopped_branch shared markers ∷ []
