-- ===== src/Compiler/Compile/Marking.antt =====
-- compile/marking.ts: the initial marking of the v1 net.
use n8n_libpetri.Prelude.{
  ℕ, suc, zero, ltb, ◌-◌, ◌&&◌, String, Bool, true, false, Option, none, some, List, [], ◌∷◌,
  string_eq, ◌==◌, if◌then◌else◌,
}
use n8n_libpetri.Prelude.Maps
use n8n_libpetri.Prelude.Results.{Result, ok, err, ◌>>=◌}
use n8n_libpetri.Compiler.Gadget.Net.{Place, idle, skipped}
use n8n_libpetri.Compiler.Gadget.Shapes.{
  GadgetError, InputSide, direct_side, or_side, join_side, choose_branch_side, tool_side, OrInput,
  JoinInput, ReadySlot, single, split, LocalRetry, LocalAgent,
}
use n8n_libpetri.Compiler.Gadget.Declare.{ready_slot}
use n8n_libpetri.Compiler.Compile.{NetPlace, shared_budget, owned, net_place_eq}
use n8n_libpetri.Compiler.Compile.Compose.{NodeBuild, has_skipped, flat}

-- A token is a unit or carries the items of the trigger.
pub data Token : Type 0 where
  unit_token trigger_token : Token

abbrev pub Marking : Type 0
Marking = List (NetPlace × List Token)

pub data MarkingError : Type 0 where
  slot : String → GadgetError → MarkingError
  no_node no_skipped tool_start_node : String → MarkingError

abbrev pub units : ℕ → List Token
units zero = []
units (suc n) = unit_token ∷ units n

abbrev pub put : Marking → NetPlace → List Token → Marking
put m p [] = m
put m p (t ∷ ts) = Maps.set m p (t ∷ ts)

abbrev pub in_slot {ℓ} : {A : Type ℓ} → String → Result GadgetError A → Result MarkingError A
in_slot name (ok a) = ok a
in_slot name (err e) = err (slot name e)

abbrev pub seed_agent : Marking → NodeBuild → LocalAgent → Marking
seed_agent m b a =
    put (put m (flat b a.rounds_place) (units a.max_rounds)) (flat b a.calls_place)
      (units a.max_tool_calls)

-- The empties of the producers that are never reached.
abbrev pub seed_or_round : Marking → NodeBuild → OrInput → Marking
seed_or_round m b i =
    if b.context.reachable && ltb 0 i.common.unreachable_edges
    then put m (flat b i.round_place) (units i.common.unreachable_edges)
    else m

abbrev pub seed_slot : Marking → NodeBuild → JoinInput → Result MarkingError Marking
seed_slot m b i =
    if i.common.seed_empty
    then (do p ← in_slot b.node.name (ready_slot i.slot false); ok (put m (flat b p) (units 1)))
    else ok (put m (flat b i.free_place) (units 1))

abbrev pub seed_join_slots : Marking → NodeBuild → List JoinInput → Result MarkingError Marking
seed_join_slots m b [] = ok m
seed_join_slots m b (i ∷ is) = do m' ← seed_slot m b i; seed_join_slots m' b is

abbrev pub seed_side : Marking → NodeBuild → InputSide → Result MarkingError Marking
seed_side m b (or_side i) = ok (seed_or_round m b i)
seed_side m b (join_side h is) = seed_join_slots m b is
seed_side m b (choose_branch_side is) = seed_join_slots m b is
seed_side m b (direct_side p e) = ok m
seed_side m b (tool_side p) = ok m

abbrev pub seed_retry : Marking → NodeBuild → Option LocalRetry → Marking
seed_retry m b none = m
seed_retry m b (some r) = put m (flat b r.tries_place) (units (r.max_tries - 1))

abbrev pub seed_budgets : Marking → NodeBuild → Option LocalAgent → Marking
seed_budgets m b none = m
seed_budgets m b (some a) = seed_agent m b a

unfoldable pub seed_node : Marking → NodeBuild → Result MarkingError Marking
seed_node m b =
    seed_side (seed_budgets (seed_retry (put m (flat b idle) (units 1)) b b.retry_side) b b.agent) b
      b.side

abbrev pub seed_nodes : Marking → List NodeBuild → Result MarkingError Marking
seed_nodes m [] = ok m
seed_nodes m (b ∷ bs) = do m' ← seed_node m b; seed_nodes m' bs

-- The skipped place of a node: its own where it skips, the host's where it is referenced.
abbrev pub skipped_place : NodeBuild → Result MarkingError NetPlace
skipped_place b =
    if has_skipped b then ok (owned b.node.id skipped) else err (no_skipped b.node.name)

abbrev pub skipped_of : List NodeBuild → String → Result MarkingError NetPlace
skipped_of [] y = err (no_node y)
skipped_of (b ∷ bs) y = if b.node.name == y then skipped_place b else skipped_of bs y

abbrev pub seed_skipped : Marking → List NodeBuild → List String → Result MarkingError Marking
seed_skipped m bs [] = ok m
seed_skipped m bs (y ∷ ys) = do p ← skipped_of bs y; seed_skipped (put m p (units 1)) bs ys

unfoldable pub shared_marking_of : List NodeBuild → List String → ℕ → Result MarkingError Marking
shared_marking_of bs seeded_skipped effective_budget = do
  m ← seed_nodes (put [] shared_budget (units effective_budget)) bs
  seed_skipped m bs seeded_skipped

-- compile/derived-places.ts `readyPlacesOf`.
abbrev pub ready_places_of : ReadySlot → List Place
ready_places_of (single p) = p ∷ []
ready_places_of (split d none) = d ∷ []
ready_places_of (split d (some e)) = d ∷ e ∷ []

abbrev pub delete_all : Marking → NodeBuild → List Place → Marking
delete_all m b [] = m
delete_all m b (p ∷ ps) = delete_all (Maps.delete m (flat b p)) b ps

-- The marker of data of the generic join.
abbrev pub mark_data : Marking → NodeBuild → Option Place → Marking
mark_data m b none = m
mark_data m b (some h) = Maps.set m (flat b h) (units 1)

-- The first input takes the items of the trigger, the others a unit, each on its data slot.
abbrev pub start_tokens : Bool → List Token
start_tokens true = trigger_token ∷ []
start_tokens false = units 1

abbrev pub seed_start_slots :
    Marking → NodeBuild → Option Place → Bool → List JoinInput → Result MarkingError Marking
seed_start_slots m b h first [] = ok m
seed_start_slots m b h first (i ∷ is) = do
  p ← in_slot b.node.name (ready_slot i.slot true)
  let cleared = delete_all (Maps.delete m (flat b i.free_place)) b (ready_places_of i.slot)
  let filled = Maps.set cleared (flat b p) (start_tokens first)
  seed_start_slots (if first then mark_data filled b h else filled) b h false is

abbrev pub start_side : Marking → NodeBuild → InputSide → Result MarkingError Marking
start_side m b (tool_side p) = err (tool_start_node b.node.name)
start_side m b (direct_side p e) = ok (Maps.set m (flat b p) (trigger_token ∷ []))
start_side m b (or_side i) = ok (Maps.set m (flat b i.hasdata_place) (trigger_token ∷ []))
start_side m b (join_side h is) = seed_start_slots m b (some h) true is
start_side m b (choose_branch_side is) = seed_start_slots m b none true is

unfoldable pub initial_marking_of : Marking → NodeBuild → Result MarkingError Marking
initial_marking_of m b = start_side m b b.side
