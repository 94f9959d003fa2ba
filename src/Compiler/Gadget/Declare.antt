-- ===== src/Compiler/Gadget/Declare.antt =====
-- gadget/input-edges.ts, input-direct.ts, input-or.ts, input-join.ts, input-choose-branch.ts,
-- input-tool.ts, input-side.ts and output-side.ts: the places of a node's inputs and outputs.
use n8n_libpetri.Prelude.{
  ℕ, ltb, Bool, true, false, not, ◌&&◌, Option, none, some, List, [], ◌∷◌, ◌++◌, map, nat_eq,
  string_eq, ◌==◌, if◌then◌else◌, leb, length, keep, any, all,
}
use n8n_libpetri.Prelude.Sets.{has, unique}
use n8n_libpetri.Prelude.Sort.{sort}
use n8n_libpetri.Prelude.Results.{Result, ok, err, ◌>>=◌}
use n8n_libpetri.Compiler.Types.{EdgeRef, JoinForm, direct, or, join, choose_branch, tool}
use n8n_libpetri.Compiler.Gadget.Net.{
  Place, input, input_empty, in_tool, hasdata, free, ready, ready_data, ready_empty, round_ready,
  hasdata_at, ran, edge_in, edge_in_empty, Out, place,
}
use n8n_libpetri.Compiler.Gadget.Shapes.{
  GadgetError, no_host_slot, no_synthetic_input, wrong_input_count, no_ready_place, EdgeSlot,
  LocalEdge, InputCommon, OrInput, ReadySlot, single, split, JoinInput, InputSide, direct_side,
  or_side, join_side, choose_branch_side, tool_side, GadgetContext,
}

-- `items.map(f)` for a function that throws.
abbrev pub map_result {ℓ κ} :
    {A : Type ℓ} {B : Type κ} → (A → Result GadgetError B) → List A → Result GadgetError (List B)
map_result f [] = ok []
map_result f (x ∷ xs) = do b ← f x; bs ← map_result f xs; ok (b ∷ bs)

abbrev pub is_some {ℓ} : {A : Type ℓ} → Option A → Bool
is_some none = false
is_some (some a) = true

-- facts.ts `hostSlotOf`.
abbrev find_slot : List EdgeSlot → ℕ → Result GadgetError EdgeSlot
find_slot [] e = err no_host_slot
find_slot (s ∷ ss) e = if s.id == e then ok s else find_slot ss e

abbrev pub host_slot_of : GadgetContext → EdgeRef → Result GadgetError EdgeSlot
host_slot_of ctx e = find_slot ctx.edge_slots e.id

-- input-edges.ts `declareInputEdge`.
abbrev pub declare_input_edge : GadgetContext → ℕ → EdgeRef → Result GadgetError LocalEdge
declare_input_edge ctx i e = do
  slot ← host_slot_of ctx e
  ok (record {
    edge = e;
    data_place = edge_in i e.id;
    empty_place = if slot.has_empty then some (edge_in_empty i e.id) else none;
  })

abbrev pub input_common : GadgetContext → ℕ → Result GadgetError InputCommon
input_common ctx i = do
  let producers = keep (λ e. e.input_index == i) ctx.incoming
  edges ← map_result (declare_input_edge ctx i) producers
  ok (record {
    index = i;
    edges = edges;
    wired = ltb 0 (length edges);
    required = has ctx.required i;
    empty_capable = any (λ e. is_some e.empty_place) edges;
    seed_empty =
        ctx.reachable
        && ltb 0 (length edges)
        && all (λ e. not (has ctx.reachable_nodes e.from)) producers;
    unreachable_edges =
        length
          (keep (λ e. is_some e.empty_place && not (has ctx.reachable_nodes e.edge.from)) edges);
  })

-- Connected inputs and dead required ones, ascending.
unfoldable pub input_indexes : GadgetContext → List ℕ
input_indexes ctx = sort leb (unique [] (map (λ e. e.input_index) ctx.incoming ++ ctx.dead_inputs))

-- input-direct.ts.
abbrev pub declare_direct_edges : GadgetContext → List EdgeRef → Result GadgetError InputSide
declare_direct_edges ctx [] =
    if ctx.synthetic_input then ok (direct_side input none) else err no_synthetic_input
declare_direct_edges ctx (e ∷ es) = do
  slot ← host_slot_of ctx e
  ok (direct_side input (if slot.has_empty then some input_empty else none))

abbrev pub declare_direct_side : GadgetContext → Result GadgetError InputSide
declare_direct_side ctx = declare_direct_edges ctx ctx.incoming

-- input-or.ts: exactly one input index.
abbrev pub declare_or_input : GadgetContext → List ℕ → Result GadgetError OrInput
declare_or_input ctx (i ∷ []) = do
  common ← input_common ctx i
  ok (record {
    common = common;
    round_place = round_ready i;
    hasdata_place = hasdata_at i;
    ran_place = ran i;
    round = length (keep (λ e. is_some e.empty_place) common.edges);
  })
declare_or_input ctx _ = err wrong_input_count

abbrev pub declare_or_side : GadgetContext → Result GadgetError InputSide
declare_or_side ctx = do i ← declare_or_input ctx (input_indexes ctx); ok (or_side i)

-- input-join.ts.
abbrev pub declare_ready_input : GadgetContext → ℕ → Result GadgetError JoinInput
declare_ready_input ctx i = do
  common ← input_common ctx i
  ok (record { common = common; free_place = free i; slot = single (ready i) })

abbrev pub declare_join_side : GadgetContext → Result GadgetError InputSide
declare_join_side ctx = do
  inputs ← map_result (declare_ready_input ctx) (input_indexes ctx)
  ok (join_side hasdata inputs)

-- input-choose-branch.ts `declareInput`: a required input has one place for each variant.
abbrev pub variant_slot : InputCommon → ℕ → ReadySlot
variant_slot common i =
    if common.required
    then split (ready_data i) (if common.empty_capable then some (ready_empty i) else none)
    else single (ready i)

abbrev pub declare_branch_input : GadgetContext → ℕ → Result GadgetError JoinInput
declare_branch_input ctx i = do
  common ← input_common ctx i
  ok (record { common = common; free_place = free i; slot = variant_slot common i })

abbrev pub declare_choose_branch_side : GadgetContext → Result GadgetError InputSide
declare_choose_branch_side ctx = do
  inputs ← map_result (declare_branch_input ctx) (input_indexes ctx)
  ok (choose_branch_side inputs)

-- input-tool.ts.
abbrev declare_tool_side : GadgetContext → InputSide
declare_tool_side ctx = tool_side in_tool

-- input-side.ts `declareSide`.
abbrev pub declare_form : GadgetContext → JoinForm → Result GadgetError InputSide
declare_form ctx tool = ok (declare_tool_side ctx)
declare_form ctx direct = declare_direct_side ctx
declare_form ctx or = declare_or_side ctx
declare_form ctx join = declare_join_side ctx
declare_form ctx choose_branch = declare_choose_branch_side ctx

unfoldable pub declare_side : GadgetContext → Result GadgetError InputSide
declare_side ctx = declare_form ctx ctx.form

abbrev pub join_inputs : InputSide → List JoinInput
join_inputs (join_side hasdata_place inputs) = inputs
join_inputs (choose_branch_side inputs) = inputs
join_inputs _ = []

-- input-side.ts `canSkip`: whether an empty token can arrive where it decides the activation.
unfoldable pub can_skip : InputSide → Bool
can_skip (tool_side p) = false
can_skip (direct_side p e) = is_some e
can_skip (or_side i) = true
can_skip (join_side h inputs) = any (λ i. i.common.empty_capable) inputs
can_skip (choose_branch_side inputs) = any (λ i. i.common.required && i.common.empty_capable) inputs

-- ready-slot.ts: the place where an arrival of the variant lands.
abbrev pub ready_slot : ReadySlot → Bool → Result GadgetError Place
ready_slot (single p) is_data = ok p
ready_slot (split d e) true = ok d
ready_slot (split d (some p)) false = ok p
ready_slot (split d none) false = err no_ready_place

-- The refund of the slots that every start and skip writes.
abbrev pub free_refunds : InputSide → List Out
free_refunds side = map (λ i. place i.free_place) (join_inputs side)
