-- ===== src/Compiler/Analysis/Reachability/Walks.antt =====
-- The walks against the reachable nodes.
use n8n_libpetri.Prelude.{
  ◌≡◌, ◌↔◌, true, Option, none, List, [], ◌++◌, map, String, arith, length, string_eq,
}
use n8n_libpetri.Prelude.Sets.{has, has-append, missing-le}
use n8n_libpetri.Prelude.Maps
use n8n_libpetri.Compiler.Types.{EdgeRef}
use n8n_libpetri.Compiler.Analysis.Worklist.{Search, offer_all, work-offer_all}
use n8n_libpetri.Compiler.Analysis.Worklist.Drained.{Reach, Inv-start, drain-Inv, seen_iff}
use n8n_libpetri.Compiler.Analysis.Reachability.{walk, reach_from, reachable_from}
use n8n_libpetri.Compiler.Analysis.Reachability.Targets.{
  targets, neighbours, has-targets, get_or-neighbours,
}

-- With fuel for all the nodes that the walk may meet, `walk` returns the reachable ones.
walk_iff :
    (ts starts : List String) (next : String → List String) (avoid : Option String)
    → ((u v : String) → has (next u) v ≡ true → has ts v ≡ true)
    → (v : String)
    → (has (walk (length (starts ++ ts)) starts next avoid) v ≡ true) ↔ Reach starts next avoid v
unfolding walk
walk_iff ts starts next avoid sub =
    let us = starts ++ ts in
    let empty : Search String = record { seen = []; stack = [] } in
    let first = offer_all avoid empty starts in
    let within : (u v : String) → has (next u) v ≡ true → has us v ≡ true =
      λ u v h. ground (arith, has-append starts ts v, sub u v) in
    let (inv, done) =
      drain-Inv starts next avoid us within (length us) first (Inv-start starts next avoid) (
        omega (
          arith,
          work-offer_all avoid us empty starts (λ w h. ground (arith, has-append starts ts w)),
          missing-le {A = String} [] us,
        )) in
    seen_iff starts next avoid _ inv done

-- `reachFrom` returns exactly the nodes that some walk over `succ` reaches from a start without
-- entering `avoid`, the starts other than `avoid` included.
pub reach_from_iff :
    (starts : List String) (succ : List (String × List String)) (avoid : Option String) (v : String)
    → (has (reach_from starts succ avoid) v ≡ true)
      ↔ Reach starts (λ n. Maps.get_or succ n []) avoid v
unfolding reach_from
reach_from_iff starts succ avoid v =
    walk_iff (targets succ) starts (λ n. Maps.get_or succ n []) avoid (has-targets succ) v

-- `reachableFrom` returns exactly the nodes that some walk over the main edges reaches from a
-- start, a start that has no edges included.
pub reachable_from_iff :
    (outgoing : List (String × List EdgeRef)) (starts : List String) (v : String)
    → (has (reachable_from outgoing starts) v ≡ true)
      ↔ Reach starts (λ n. map (λ e. e.to) (Maps.get_or outgoing n [])) none v
unfolding reachable_from
reachable_from_iff outgoing starts v =
    walk_iff (targets (neighbours (λ e. e.to) outgoing)) starts
      (λ n. map (λ e. e.to) (Maps.get_or outgoing n [])) none
      (λ u w h.
        has-targets (neighbours (λ e. e.to) outgoing) u w
          (rw (get_or-neighbours (λ e. e.to) outgoing u) h))
      v
