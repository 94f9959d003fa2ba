-- ===== src/Compiler/Analysis/Reachability.antt =====
-- compiler/analysis/reachability.ts: the walk that both reachability questions share, and the
-- reachability of tools through the agents that dispatch them. A set is the list of its members.
pub mod Targets
pub mod Walks
pub mod Tools
use Targets.{targets, neighbours}
use n8n_libpetri.Prelude.{
  ℕ, zero, suc, Bool, true, false, not, ◌&&◌, Option, none, List, [], ◌∷◌, ◌++◌, map, String,
  string_eq, if◌then◌else◌, length, fold,
}
use n8n_libpetri.Prelude.Sets.{has}
use n8n_libpetri.Prelude.Maps
use n8n_libpetri.Compiler.Types.{EdgeRef, ToolConnection}
use n8n_libpetri.Compiler.Analysis.Worklist.{Search, offer_all, drain}

-- Every node reachable from any of `starts` over `next`, the starts included, never entering
-- `avoid`. The fuel bounds the nodes popped.
unfoldable pub walk : ℕ → List String → (String → List String) → Option String → List String
walk fuel starts next avoid =
    (drain avoid next fuel (offer_all avoid (record { seen = []; stack = [] }) starts)).seen

unfoldable pub reach_from : List String → List (String × List String) → Option String → List String
unfolding walk
reach_from starts succ avoid =
    walk (length (starts ++ targets succ)) starts (λ n. Maps.get_or succ n []) avoid

unfoldable pub reachable_from : List (String × List EdgeRef) → List String → List String
unfolding walk
reachable_from outgoing starts =
    walk (length (starts ++ targets (neighbours (λ e. e.to) outgoing))) starts
      (λ n. map (λ e. e.to) (Maps.get_or outgoing n [])) none

-- One round of the `for` loop over the tool connections: the set, and whether it changed.
unfoldable pub tool_step : List String × Bool → ToolConnection → List String × Bool
tool_step (reachable, changed) c =
    if has reachable c.agent && not (has reachable c.tool)
    then (c.tool ∷ reachable, true)
    else (reachable, changed)

-- `for (let changed = true; changed;)`, on fuel: one unit for each pass.
unfoldable pub tool_passes : ℕ → List ToolConnection → List String → List String
unfolding tool_step
tool_passes zero cs reachable = reachable
tool_passes (suc fuel) cs reachable =
    let (reachable', changed) = fold tool_step (reachable, false) cs in
    elim changed [ true ↦ tool_passes fuel cs reachable' | false ↦ reachable' ]

unfoldable pub reachable_from_starts :
    List String → List (String × List String) → List ToolConnection → List String
unfolding reach_from tool_passes
reachable_from_starts start_nodes succ cs =
    tool_passes (suc (length cs)) cs (reach_from start_nodes succ none)
