-- ===== src/Compiler/Analysis/SkipObservers/Closure.antt =====
-- The set against the walks over the main edges that lead to an observer.
use n8n_libpetri.Prelude.{
  ◌+◌, ◌≤◌, ◌≡◌, refl, ◌↔◌, inl, true, false, ◌||◌, none, List, [], ◌∷◌, map, String, string_eq,
  arith, length, fold, if◌then◌else◌,
}
use n8n_libpetri.Prelude.Sets.{has, has-add, missing-le}
use n8n_libpetri.Prelude.Maps
use n8n_libpetri.Compiler.Types.{EdgeRef, AnalysedNode}
use n8n_libpetri.Compiler.Analysis.Worklist.{Search}
use n8n_libpetri.Compiler.Analysis.Worklist.Drained.{Reach, start, Inv, drain-Inv, seen_iff}
use n8n_libpetri.Compiler.Analysis.Reachability.Targets.{
  targets, neighbours, has-targets, get_or-neighbours,
}
use n8n_libpetri.Compiler.Analysis.SkipObservers.{observes, seed_observer, skip_observable_nodes}

module _ (cyclic referenced : List String) where
  -- The names of the nodes that read a skip themselves.
  abbrev pub observers : List AnalysedNode → List String
  observers [] = []
  observers (a ∷ ns) =
      if observes cyclic referenced a then a.node.name ∷ observers ns else observers ns

  seen-seed :
      (s : Search String) (ns : List AnalysedNode) (v : String)
      → has (fold (seed_observer cyclic referenced) s ns).seen v
        ≡ (has s.seen v || has (observers ns) v)
  unfolding seed_observer
  seen-seed s [] v = ground arith
  seen-seed s (a ∷ ns) v =
      ground
        (arith, has-add s.seen a.node.name v, seen-seed (seed_observer cyclic referenced s a) ns v)

  stack-seed :
      (s : Search String) (ns : List AnalysedNode) (v : String)
      → has (fold (seed_observer cyclic referenced) s ns).stack v
        ≡ (has s.stack v || has (observers ns) v)
  unfolding seed_observer
  stack-seed s [] v = ground arith
  stack-seed s (a ∷ ns) v = ground (arith, stack-seed (seed_observer cyclic referenced s a) ns v)

  length-stack-seed :
      (s : Search String) (ns : List AnalysedNode)
      → length (fold (seed_observer cyclic referenced) s ns).stack ≤ length s.stack + length ns
  unfolding seed_observer
  length-stack-seed s [] = omega arith
  length-stack-seed s (a ∷ ns) =
      ground (arith, length-stack-seed (seed_observer cyclic referenced s a) ns)

  module _ (analysed : List AnalysedNode) (incoming : List (String × List EdgeRef)) where
    abbrev pub producers : String → List String
    producers n = map (λ e. e.from) (Maps.get_or incoming n [])

    abbrev seeds : Search String
    seeds = fold (seed_observer cyclic referenced) (record { seen = []; stack = [] }) analysed

    Inv-seeds : Inv (observers analysed) producers none seeds
    Inv-seeds = record {
      stacked = λ v m. ground (arith, seen v, stack v);
      sound = λ v m. start (ground (arith, seen v)) refl;
      started = λ v m a. ground (arith, seen v);
      closed = λ u v m n a. inl (ground (arith, seen u, stack u));
    }
      where
        seen : (v : String) → has seeds.seen v ≡ (false || has (observers analysed) v)
        seen v = seen-seed (record { seen = []; stack = [] }) analysed v

        stack : (v : String) → has seeds.stack v ≡ (false || has (observers analysed) v)
        stack v = stack-seed (record { seen = []; stack = [] }) analysed v

    -- A node must hear of an upstream skip exactly when it reads one itself or some walk over the
    -- main edges leads from it to a node that does.
    pub skip_observable_nodes_iff :
        (v : String)
        → (has (skip_observable_nodes cyclic referenced analysed incoming) v ≡ true)
          ↔ Reach (observers analysed) producers none v
    unfolding skip_observable_nodes
    skip_observable_nodes_iff v =
        let us = targets (neighbours (λ e. e.from) incoming) in
        let (inv, done) =
          drain-Inv (observers analysed) producers none us
            (λ u w h.
              has-targets (neighbours (λ e. e.from) incoming) u w
                (rw (get_or-neighbours (λ e. e.from) incoming u) h))
            (length analysed + length us) seeds Inv-seeds
            (omega (
              arith,
              length-stack-seed (record { seen = []; stack = [] }) analysed,
              missing-le seeds.seen us,
            )) in
        seen_iff (observers analysed) producers none _ inv done v
