-- ===== src/Compiler/Analysis/Depth.antt =====
-- compiler/analysis/depth.ts: the depth of each node. The strongly connected components are given in
-- the order that scc.ts emits them, and every node has one; a component that no start reaches has no
-- depth, which the source writes -1.
pub mod Tools
use n8n_libpetri.Prelude.{
  ℕ, zero, suc, Bool, true, false, Option, none, some, List, [], ◌∷◌, String, string_eq, nat_eq,
  ltb, length, fold, if◌then◌else◌, max,
}
use n8n_libpetri.Prelude.Maps
use n8n_libpetri.Compiler.Types.{EdgeRef, EdgeKind, tree, cycle, ToolConnection}

abbrev pub SccDepths : Type 0
SccDepths = List (ℕ × ℕ)

abbrev pub is_below : Option ℕ → ℕ → Bool
is_below none want = true
is_below (some d) want = ltb d want

abbrev pub raise_scc : SccDepths → ℕ → ℕ → SccDepths
raise_scc m t want = if is_below (Maps.get m t) want then Maps.set m t want else m

abbrev pub raise_edge : List (String × ℕ) → ℕ → SccDepths → EdgeRef → SccDepths
raise_edge scc_of d m e = elim e.kind [
  | tree ↦ raise_scc m (Maps.get_or scc_of e.to 0) (suc d)
  | cycle ↦ m
]

abbrev pub raise_node :
    List (String × ℕ) → List (String × List EdgeRef) → ℕ → SccDepths → String → SccDepths
raise_node scc_of outgoing d m n = fold (raise_edge scc_of d) m (Maps.get_or outgoing n [])

-- The loop over the components, the last one first; `s` is the index of the head.
abbrev pub scc_depths :
    List (String × ℕ)
    → List (String × List EdgeRef)
    → ℕ
    → List (List String)
    → SccDepths
    → SccDepths
scc_depths scc_of outgoing s [] m = m
scc_depths scc_of outgoing s (ns ∷ rest) m =
    let later = scc_depths scc_of outgoing (suc s) rest m in
    elim (Maps.get later s) [ none ↦ later | some d ↦ fold (raise_node scc_of outgoing d) later ns ]

abbrev pub start_depth : List (String × ℕ) → SccDepths → String → SccDepths
start_depth scc_of m s = Maps.set m (Maps.get_or scc_of s 0) 0

abbrev pub DepthMap : Type 0
DepthMap = List (String × ℕ)

abbrev pub node_depth : List (String × ℕ) → SccDepths → DepthMap → String → DepthMap
node_depth scc_of m depth n = Maps.set depth n (Maps.get_or m (Maps.get_or scc_of n 0) 0)

-- One tool connection of a pass: the depths, and whether some changed.
abbrev pub sink_tool : DepthMap × Bool → ToolConnection → DepthMap × Bool
sink_tool (depth, changed) c =
    let want = suc (Maps.get_or depth c.agent 0) in
    if ltb (Maps.get_or depth c.tool 0) want
    then (Maps.set depth c.tool want, true)
    else (depth, changed)

-- The passes over the tool connections, so many at most. The Boolean says that the last pass still
-- changed some depth, which the source diagnoses.
abbrev pub tool_depths : ℕ → List ToolConnection → DepthMap → DepthMap × Bool
tool_depths zero cs depth = (depth, true)
tool_depths (suc fuel) cs depth =
    let (sunk, changed) = fold sink_tool (depth, false) cs in
    elim changed [ true ↦ tool_depths fuel cs sunk | false ↦ (sunk, false) ]

abbrev pub deepest : DepthMap → ℕ
deepest [] = 0
deepest ((n, d) ∷ m) = max d (deepest m)

pub record Depths : Type 0 where
  pub depth : DepthMap
  pub max_depth : ℕ
  pub is_truncated : Bool

unfoldable pub depth_of :
    (nodes start_nodes : List String) (sccs : List (List String)) (scc_of : List (String × ℕ))
    (outgoing : List (String × List EdgeRef)) (cs : List ToolConnection)
    → Depths
depth_of nodes start_nodes sccs scc_of outgoing cs =
    let starts = fold (start_depth scc_of) [] start_nodes in
    let condensed = scc_depths scc_of outgoing 0 sccs starts in
    let plain = fold (node_depth scc_of condensed) [] nodes in
    let (depth, truncated) = tool_depths (suc (length cs)) cs plain in
    record { depth = depth; max_depth = deepest depth; is_truncated = truncated }
