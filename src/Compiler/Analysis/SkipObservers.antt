-- ===== src/Compiler/Analysis/SkipObservers.antt =====
-- compiler/analysis/skip-observers.ts: which nodes must hear of an upstream skip.
pub mod Closure
use n8n_libpetri.Prelude.{
  ℕ, ◌+◌, Bool, true, false, not, ◌&&◌, ◌||◌, none, List, [], ◌∷◌, map, String, string_eq,
  if◌then◌else◌, length, fold,
}
use n8n_libpetri.Prelude.Sets.{has, add}
use n8n_libpetri.Prelude.Maps
use n8n_libpetri.Compiler.Types.{EdgeRef, AnalysedNode, JoinForm, direct, tool}
use n8n_libpetri.Compiler.Analysis.Worklist.{Search, drain}
use n8n_libpetri.Compiler.Analysis.Reachability.Targets.{targets, neighbours}

abbrev pub decides_by_empties : JoinForm → Bool
decides_by_empties direct = false
decides_by_empties tool = false
decides_by_empties _ = true

module _ (cyclic referenced : List String) where
  -- Whether `a` reads a skip itself.
  unfoldable pub observes : AnalysedNode → Bool
  observes a =
      decides_by_empties a.form
      || has referenced a.node.name
      || has cyclic a.node.name
      || a.shape.loop_node

  -- The first loop: the observers, into the set and onto the queue.
  unfoldable pub seed_observer : Search String → AnalysedNode → Search String
  unfolding observes
  seed_observer s a =
      if not (observes a)
      then s
      else record { seen = add s.seen a.node.name; stack = a.node.name ∷ s.stack }

  -- Every node that must hear of an upstream skip. The second loop is the walk of `Worklist` over
  -- the incoming edges, with nothing to avoid.
  unfoldable pub skip_observable_nodes :
      List AnalysedNode → List (String × List EdgeRef) → List String
  unfolding seed_observer
  skip_observable_nodes analysed incoming =
      (drain none (λ n. map (λ e. e.from) (Maps.get_or incoming n []))
        (length analysed + length (targets (neighbours (λ e. e.from) incoming)))
        (fold seed_observer (record { seen = []; stack = [] }) analysed)).seen
