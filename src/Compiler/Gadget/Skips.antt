-- ===== src/Compiler/Gadget/Skips.antt =====
-- gadget/skip.ts, arms.ts and the skips of the forms: the transitions that decide an activation
-- without a run, and those that move an edge's token onto its input.
use n8n_libpetri.Prelude.{
  ℕ, Bool, true, false, Option, none, some, List, [], ◌∷◌, ◌++◌, map, all, String, if◌then◌else◌,
}
use n8n_libpetri.Prelude.Json.{nat}
use n8n_libpetri.Prelude.Results.{Result, ok, err, ◌>>=◌}
use n8n_libpetri.Compiler.Names.{Variant, data_variant, empty_variant}
use n8n_libpetri.Compiler.Names.Transitions.{skip_combination_of, clear_of, arm_of}
use n8n_libpetri.Compiler.Gadget.Net.{
  Place, halt, idle, skipped, In, one, all_of, exactly, Out, place, and, skip, clear, arm,
  Transition, outs,
}
use n8n_libpetri.Compiler.Gadget.Shapes.{
  GadgetError, no_input_empty, tool_skip, no_variant, LocalEdge, OrInput, ReadySlot, single, split,
  JoinInput, InputSide, direct_side, or_side, join_side, choose_branch_side, tool_side,
}
use n8n_libpetri.Compiler.Gadget.Declare.{map_result, ready_slot, free_refunds}
use n8n_libpetri.Compiler.Gadget.Outputs.{and_of}

abbrev pub skip_transition :
    ℕ → String → List Variant → List In → List Place → List Place → Out → Transition
skip_transition depth name combination inputs inhibitors reads out = record {
  name = name;
  role = skip combination;
  inputs = inputs;
  inhibitors = inhibitors;
  reads = reads;
  outputs = some out;
  priority = nat depth;
  delay = none;
}

-- input-direct.ts `buildDirectSkip`.
abbrev pub direct_skip : ℕ → Option Place → Out → Result GadgetError (List Transition)
direct_skip depth none out = err no_input_empty
direct_skip depth (some p) out =
    ok (skip_transition depth "skip" [] (one p ∷ []) (halt ∷ []) [] out ∷ [])

-- input-or.ts `buildOrSkip`: the whole round arrived, without data and without a run.
abbrev pub or_skip : ℕ → OrInput → Out → Transition
or_skip depth i out =
    skip_transition depth "skip" [] (exactly i.round i.round_place ∷ [])
      (i.hasdata_place ∷ i.ran_place ∷ halt ∷ []) (idle ∷ []) out

abbrev pub join_skip : ℕ → Place → List Place → Out → Transition
join_skip depth h slots out = skip_transition depth "skip" [] (map one slots) (h ∷ halt ∷ []) [] out

-- input-choose-branch.ts `combinations`, data first.
abbrev pub extend : List Variant → List Variant → List (List Variant)
extend c [] = []
extend c (v ∷ vs) = (c ++ v ∷ []) ∷ extend c vs

abbrev pub extend_all : List (List Variant) → List Variant → List (List Variant)
extend_all [] vs = []
extend_all (c ∷ cs) vs = extend c vs ++ extend_all cs vs

abbrev pub combinations : List (List Variant) → List (List Variant) → List (List Variant)
combinations acc [] = acc
combinations acc (vs ∷ rest) = combinations (extend_all acc vs) rest

abbrev pub is_data : Variant → Bool
is_data data_variant = true
is_data empty_variant = false

abbrev pub choices : List JoinInput → List (List Variant)
choices [] = []
choices (i ∷ is) = elim i.slot [
  | single p ↦ choices is
  | split d e ↦
      (if i.common.empty_capable then data_variant ∷ empty_variant ∷ [] else data_variant ∷ [])
      ∷ choices is
]

-- The place of each input under a combination: its columns are the split inputs, in order.
abbrev pub column_slots :
    ReadySlot
    → List Variant
    → (List Variant → Result GadgetError (List Place))
    → Result GadgetError (List Place)
column_slots (single p) combo rest = do ps ← rest combo; ok (p ∷ ps)
column_slots (split d e) [] rest = err no_variant
column_slots (split d e) (v ∷ vs) rest = do
  p ← ready_slot (split d e) (is_data v)
  ps ← rest vs
  ok (p ∷ ps)

abbrev pub combination_slots : List JoinInput → List Variant → Result GadgetError (List Place)
combination_slots [] combo = ok []
combination_slots (i ∷ is) combo = column_slots i.slot combo (combination_slots is)

-- One skip for each combination but the all-data one, which is `X_start`.
abbrev pub combination_skips :
    ℕ → List JoinInput → Out → List (List Variant) → Result GadgetError (List Transition)
combination_skips depth inputs out [] = ok []
combination_skips depth inputs out (c ∷ cs) =
    let later = combination_skips depth inputs out cs in
    if all is_data c then later else do
      slots ← combination_slots inputs c
      ts ← later
      ok (skip_transition depth (skip_combination_of c) c (map one slots) (halt ∷ []) [] out ∷ ts)

abbrev pub single_slots : List JoinInput → Result GadgetError (List Place)
single_slots inputs = map_result (λ i. ready_slot i.slot true) inputs

abbrev pub skips_of : ℕ → InputSide → Out → Result GadgetError (List Transition)
skips_of depth (direct_side p e) out = direct_skip depth e out
skips_of depth (or_side i) out = ok (or_skip depth i out ∷ [])
skips_of depth (join_side h inputs) out = do
  slots ← single_slots inputs
  ok (join_skip depth h slots out ∷ [])
skips_of depth (choose_branch_side inputs) out =
    combination_skips depth inputs out (combinations ([] ∷ []) (choices inputs))
skips_of depth (tool_side p) out = err tool_skip

-- skip.ts: every skip writes the empties, the marker and the refunds.
unfoldable pub build_skips : ℕ → InputSide → Bool → List Out → Result GadgetError (List Transition)
build_skips depth side false empties = ok []
build_skips depth side true empties = do
  out ← and_of (empties ++ place skipped ∷ free_refunds side)
  skips_of depth side out

-- input-or.ts `buildClear`: a genuine sink.
unfoldable pub build_clear : ℕ → InputSide → List Transition
build_clear depth (or_side i) =
    record {
      name = clear_of i.common.index;
      role = clear i.common.index;
      inputs = exactly i.round i.round_place ∷ all_of i.ran_place ∷ [];
      inhibitors = i.hasdata_place ∷ halt ∷ [];
      reads = idle ∷ [];
      outputs = none;
      priority = nat depth;
      delay = none;
    }
    ∷ []
build_clear depth _ = []

-- arms.ts.
abbrev pub arm_transition : ℕ → LocalEdge → Variant → List In → Out → Transition
arm_transition depth e v inputs out = record {
  name = arm_of e.edge.id v;
  role = arm e.edge v;
  inputs = inputs;
  inhibitors = halt ∷ [];
  reads = [];
  outputs = some out;
  priority = nat depth;
  delay = none;
}

-- A tree edge counts towards the round, a cycle edge only triggers a run.
abbrev pub or_arm_output : OrInput → LocalEdge → Variant → Out
or_arm_output i e empty_variant = place i.round_place
or_arm_output i e data_variant = elim e.empty_place [
  | none ↦ place i.hasdata_place
  | some p ↦ and (outs (place i.round_place ∷ place i.hasdata_place ∷ []))
]

abbrev pub or_arm : ℕ → OrInput → LocalEdge → Variant → Place → Transition
or_arm depth i e v source = arm_transition depth e v (one source ∷ []) (or_arm_output i e v)

abbrev pub or_arms : ℕ → OrInput → List LocalEdge → List Transition
or_arms depth i [] = []
or_arms depth i (e ∷ es) = or_arm depth i e data_variant e.data_place ∷ elim e.empty_place [
  | none ↦ or_arms depth i es
  | some p ↦ or_arm depth i e empty_variant p ∷ or_arms depth i es
]

abbrev pub join_arm_output : Place → Option Place → Out
join_arm_output slot none = place slot
join_arm_output slot (some h) = and (outs (place slot ∷ place h ∷ []))

-- A data arm of the generic join also marks `X/hasdata`.
abbrev pub join_arm :
    ℕ → Option Place → JoinInput → LocalEdge → Variant → Place → Result GadgetError Transition
join_arm depth h i e v source = do
  slot ← ready_slot i.slot (is_data v)
  ok (
      arm_transition depth e v (one source ∷ one i.free_place ∷ [])
        (join_arm_output slot (if is_data v then h else none)))

abbrev pub empty_join_arm :
    ℕ → JoinInput → LocalEdge → Option Place → Result GadgetError (List Transition)
empty_join_arm depth i e none = ok []
empty_join_arm depth i e (some p) = do t ← join_arm depth none i e empty_variant p; ok (t ∷ [])

abbrev pub edge_arms :
    ℕ → Option Place → JoinInput → List LocalEdge → Result GadgetError (List Transition)
edge_arms depth h i [] = ok []
edge_arms depth h i (e ∷ es) = do
  full ← join_arm depth h i e data_variant e.data_place
  rest ← empty_join_arm depth i e e.empty_place
  later ← edge_arms depth h i es
  ok (full ∷ (rest ++ later))

abbrev pub join_arms : ℕ → Option Place → List JoinInput → Result GadgetError (List Transition)
join_arms depth h [] = ok []
join_arms depth h (i ∷ is) = do
  arms ← edge_arms depth h i i.common.edges
  later ← join_arms depth h is
  ok (arms ++ later)

unfoldable pub build_arms : ℕ → InputSide → Result GadgetError (List Transition)
build_arms depth (or_side i) = ok (or_arms depth i i.common.edges)
build_arms depth (join_side h inputs) = join_arms depth (some h) inputs
build_arms depth (choose_branch_side inputs) = join_arms depth none inputs
build_arms depth _ = ok []
