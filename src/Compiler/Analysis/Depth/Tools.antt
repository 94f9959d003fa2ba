-- ===== src/Compiler/Analysis/Depth/Tools.antt =====
-- The depths that the loop over the tool connections of depth.ts leaves.
use n8n_libpetri.Prelude.{
  ℕ, zero, suc, ◌≤◌, ◌<◌, ◌≡◌, refl, Bool, true, false, List, [], ◌∷◌, String, string_eq, nat_eq,
  ltb, length, fold, if◌then◌else◌, arith, Bool-cases, inl, inr, ◌==◌, subst, sym,
}
use n8n_libpetri.Prelude.Maps
use n8n_libpetri.Prelude.Predicates.{All, if-keeps}
use n8n_libpetri.Compiler.Types.{EdgeRef, ToolConnection}
use n8n_libpetri.Compiler.Analysis.Depth.{
  DepthMap, scc_depths, start_depth, node_depth, sink_tool, tool_depths, deepest, depth_of,
}

-- The tool is deeper than the agent that dispatches it.
abbrev pub IsSunk : DepthMap → ToolConnection → Type 0
IsSunk m c = Maps.get_or m c.agent 0 < Maps.get_or m c.tool 0

abbrev sunk : DepthMap → ToolConnection → DepthMap
sunk m c = Maps.set m c.tool (suc (Maps.get_or m c.agent 0))

-- A pass that changes something says so to the end.
pass-changed : (cs : List ToolConnection) (m : DepthMap) → (fold sink_tool (m, true) cs).1 ≡ true
pass-changed [] m = refl
pass-changed (c ∷ cs) m =
    if-keeps (λ (s : DepthMap × Bool). (fold sink_tool s cs).1 ≡ true)
      (ltb (Maps.get_or m c.tool 0) (suc (Maps.get_or m c.agent 0))) (sunk m c, true) (m, true)
      (pass-changed cs (sunk m c)) (pass-changed cs m)

abbrev Unchanged : DepthMap → List ToolConnection → DepthMap × Bool → Type 0
Unchanged m cs p = p.1 ≡ false → (p.0 ≡ m) × All (IsSunk m) cs

-- A pass that changes nothing finds every tool deeper than its agent.
pass-Unchanged :
    (cs : List ToolConnection) (m : DepthMap) → Unchanged m cs (fold sink_tool (m, false) cs)
pass-Unchanged [] m h = (refl, tt)
pass-Unchanged (c ∷ cs) m h =
    by (ltb (Maps.get_or m c.tool 0) (suc (Maps.get_or m c.agent 0))) refl (pass-Unchanged cs m) h
  where
    by :
        (t : Bool)
        → ltb (Maps.get_or m c.tool 0) (suc (Maps.get_or m c.agent 0)) ≡ t
        → Unchanged m cs (fold sink_tool (m, false) cs)
        → Unchanged m (c ∷ cs) (fold sink_tool (if t then (sunk m c, true) else (m, false)) cs)
    by true e later h' = cc (pass-changed cs (sunk m c), h')
    by false e later h' = let (same, all) = later h' in (same, (ground (arith, e), all))

abbrev after_pass : ℕ → List ToolConnection → DepthMap × Bool → DepthMap × Bool
after_pass fuel cs p = elim p.1 [ true ↦ tool_depths fuel cs p.0 | false ↦ (p.0, false) ]

tool_depths-Sunk :
    (fuel : ℕ) (cs : List ToolConnection) (m : DepthMap)
    → (tool_depths fuel cs m).1 ≡ false
    → All (IsSunk (tool_depths fuel cs m).0) cs
tool_depths-Sunk zero cs m h = cc
tool_depths-Sunk (suc fuel) cs m h =
    by (fold sink_tool (m, false) cs) (pass-Unchanged cs m) (tool_depths-Sunk fuel cs) h
  where
    by :
        (p : DepthMap × Bool)
        → Unchanged m cs p
        → ((n : DepthMap)
            → (tool_depths fuel cs n).1 ≡ false
            → All (IsSunk (tool_depths fuel cs n).0) cs)
        → (after_pass fuel cs p).1 ≡ false
        → All (IsSunk (after_pass fuel cs p).0) cs
    by (n, true) u later h' = later n h'
    by (n, false) u later h' =
        let (same, all) = u refl in subst (λ x. All (IsSunk x) cs) (sym same) all

get_or-deepest : (m : DepthMap) (n : String) → Maps.get_or m n 0 ≤ deepest m
get_or-deepest [] n = omega arith
get_or-deepest ((k, d) ∷ m) n = elim (Bool-cases (k == n)) [
  | inl t ↦ rw t (omega arith)
  | inr f ↦ rw f (omega (arith, get_or-deepest m n))
]

-- No depth exceeds the deepest one, and where the passes over the tool connections come to an end
-- every tool is deeper than each agent that dispatches it.
pub depth_of_lem :
    (nodes start_nodes : List String) (sccs : List (List String)) (scc_of : List (String × ℕ))
    (outgoing : List (String × List EdgeRef)) (cs : List ToolConnection)
    → ((n : String)
        → Maps.get_or (depth_of nodes start_nodes sccs scc_of outgoing cs).depth n 0
          ≤ (depth_of nodes start_nodes sccs scc_of outgoing cs).max_depth)
      × ((depth_of nodes start_nodes sccs scc_of outgoing cs).is_truncated ≡ false
          → All (IsSunk (depth_of nodes start_nodes sccs scc_of outgoing cs).depth) cs)
unfolding depth_of
depth_of_lem nodes start_nodes sccs scc_of outgoing cs =
    let condensed = scc_depths scc_of outgoing 0 sccs (fold (start_depth scc_of) [] start_nodes) in
    let plain = fold (node_depth scc_of condensed) [] nodes in
    (
      get_or-deepest (tool_depths (suc (length cs)) cs plain).0,
      tool_depths-Sunk (suc (length cs)) cs plain,
    )
