-- ===== src/Compiler/Analysis/Tools/Wiring.antt =====
-- What the wiring of tools is.
use n8n_libpetri.Prelude.{
  ◌≡◌, ◌↔◌, refl, sym, ◌∙◌, ap, subst, inl, inr, true, false, not, ◌&&◌, ◌||◌, Bool, List, [], ◌∷◌,
  ◌++◌, map, String, string_eq, ◌==◌, arith, fold, keep, any, Bool-cases,
}
use mathlib.Core.List.{append_assoc, append-nil, Memᴰ}
use mathlib.Core.List.Memᴰ
use n8n_libpetri.Prelude.Sets.{has, has-keep, beq_refl}
use n8n_libpetri.Prelude.Maps
use n8n_libpetri.Prelude.Maps.{get_or-set, keys-set}
use n8n_libpetri.Prelude.Predicates.{All, All-mem, mem-keep, mem-keep_of_mem}
use n8n_libpetri.Prelude.Sort.{sort}
use n8n_libpetri.Prelude.Results.{ok, >>=-eq-ok}
use n8n_libpetri.Compiler.Types.{ToolConnection, RawNode}
use n8n_libpetri.Compiler.Analysis.Connections.{RawEdge}
use n8n_libpetri.Compiler.Analysis.Tools.{
  ToolWiring, push_to, tools_by_agent, agents_by_tool, tools_with_consumers, check_consumers,
  finish_wiring, wire_tools, collect_tools, plain_tool, tool_le,
}

module _ (key value : ToolConnection → String) where
  -- The values under one key, in the order of the connections.
  abbrev pub values_under : List ToolConnection → String → List String
  values_under cs k = map value (keep (λ c. key c == k) cs)

  get_or-fold :
      (cs : List ToolConnection) (m : List (String × List String)) (k : String)
      → Maps.get_or (fold (push_to key value) m cs) k [] ≡ Maps.get_or m k [] ++ values_under cs k
  get_or-fold [] m k = sym (append-nil (Maps.get_or m k []))
  get_or-fold (c ∷ cs) m k = elim (Bool-cases (key c == k)) [
    | inl same ↦
        let here : key c ≡ k = (string_eq.beq_iff (key c) k).0 same in
        let pushed : Maps.get_or (push_to key value m c) k []
            ≡ Maps.get_or m k [] ++ (value c ∷ []) =
          get_or-set m (key c) k (Maps.get_or m (key c) [] ++ (value c ∷ [])) []
          ∙ rw same (ap (λ j. Maps.get_or m j [] ++ (value c ∷ [])) here) in
        let under : values_under (c ∷ cs) k ≡ value c ∷ values_under cs k = rw (same, keep) refl in
        get_or-fold cs (push_to key value m c) k
        ∙ ap (λ vs. vs ++ values_under cs k) pushed
        ∙ append_assoc (Maps.get_or m k []) (value c ∷ []) (values_under cs k)
        ∙ ap (λ vs. Maps.get_or m k [] ++ vs) (sym under)
    | inr other ↦
        let kept : Maps.get_or (push_to key value m c) k [] ≡ Maps.get_or m k [] =
          get_or-set m (key c) k (Maps.get_or m (key c) [] ++ (value c ∷ [])) [] ∙ rw other refl in
        let under : values_under (c ∷ cs) k ≡ values_under cs k = rw (other, keep) refl in
        get_or-fold cs (push_to key value m c) k
        ∙ ap (λ vs. vs ++ values_under cs k) kept
        ∙ ap (λ vs. Maps.get_or m k [] ++ vs) (sym under)
  ]

  keys-fold :
      (cs : List ToolConnection) (m : List (String × List String)) (k : String)
      → has (Maps.keys (fold (push_to key value) m cs)) k
        ≡ (has (Maps.keys m) k || any (λ c. key c == k) cs)
  keys-fold [] m k = ground arith
  keys-fold (c ∷ cs) m k = ground (
    arith,
    keys-fold cs (push_to key value m c) k,
    keys-set m (key c) k (Maps.get_or m (key c) [] ++ (value c ∷ [])),
  )

any-mem {ℓ} :
    {A : Type ℓ} (p : A → Bool) (xs : List A) {x : A} → Memᴰ x xs → p x ≡ true → any p xs ≡ true
any-mem p [] m h = absurd (Memᴰ.not-nil m)
any-mem p (y ∷ ys) m h = elim (Memᴰ.cases_cons m) [
  | inl q ↦ rw (ap p (sym q) ∙ h) refl
  | inr later ↦ rw (any-mem p ys later h) (ground arith)
]

-- A node that some connection of the wiring names as a tool.
abbrev pub is_wired_tool : List ToolConnection → String → Bool
is_wired_tool cs n = any (λ c. c.tool == n) cs

has-tools_with_consumers :
    (raw : List RawEdge) (cs : List ToolConnection) (n : String)
    → has (tools_with_consumers raw cs) n ≡ (is_wired_tool cs n && any (λ e. e.from == n) raw)
unfolding tools_with_consumers agents_by_tool
has-tools_with_consumers raw cs n = ground (
  arith,
  has-keep (λ tool. any (λ e. e.from == tool) raw) (Maps.keys (agents_by_tool cs)) n,
  keys-fold (λ c. c.tool) (λ c. c.agent) cs [] n,
)

-- For an edge of the graph, to leave a tool with consumers is to leave a wired tool.
silent-edge :
    (raw : List RawEdge) (cs : List ToolConnection) {e : RawEdge}
    → Memᴰ e raw
    → has (tools_with_consumers raw cs) e.from ≡ is_wired_tool cs e.from
silent-edge raw cs {e} m = ground (
  arith,
  has-tools_with_consumers raw cs e.from,
  any-mem (λ (o : RawEdge). o.from == e.from) raw m (beq_refl e.from),
)

-- An edge of a workflow without its tools: its producer is no wired tool.
check_consumers-passes :
    (silent : List String) (raw es : List RawEdge)
    → check_consumers silent raw es ≡ ok tt
    → All
        (λ e. (has silent e.from && any (λ o. o.to == e.to && not (has silent o.from)) raw) ≡ false)
        es
unfolding check_consumers
check_consumers-passes silent raw [] h = tt
check_consumers-passes silent raw (e ∷ es) h =
    elim (Bool-cases
      (has silent e.from && any (λ o. o.to == e.to && not (has silent o.from)) raw)) [
        | inl mixed ↦ cc (rw mixed at h)
        | inr pure ↦ (pure, check_consumers-passes silent raw es (rw pure at h))
      ]

-- The wiring over the main edges `raw`.
pub record IsWiring (raw : List RawEdge) (w : ToolWiring) : Type 0 where
  -- The tools of an agent, and the agents of a tool, in the order of the connections.
  pub tools :
      (agent : String)
      → Maps.get_or w.tools_of agent []
        ≡ values_under (λ c. c.agent) (λ c. c.tool) w.tool_connections agent
  pub agents :
      (tool : String)
      → Maps.get_or w.agents_of tool []
        ≡ values_under (λ c. c.tool) (λ c. c.agent) w.tool_connections tool
  -- The edges that are left are those that leave no tool.
  pub edges :
      (e : RawEdge)
      → Memᴰ e w.main_edges ↔ (Memᴰ e raw × (is_wired_tool w.tool_connections e.from ≡ false))
  -- A node that a tool feeds is fed by tools alone.
  pub unmixed :
      (e o : RawEdge)
      → Memᴰ e raw
      → Memᴰ o raw
      → o.to ≡ e.to
      → is_wired_tool w.tool_connections e.from ≡ true
      → is_wired_tool w.tool_connections o.from ≡ true

finish_wiring-IsWiring :
    (raw : List RawEdge) (cs : List ToolConnection) (w : ToolWiring)
    → finish_wiring raw cs ≡ ok w
    → IsWiring raw w
unfolding finish_wiring tools_by_agent agents_by_tool
finish_wiring-IsWiring raw cs w h =
    let silent = tools_with_consumers raw cs in
    let stays : RawEdge → Bool = λ e. not (has silent e.from) in
    let made : ToolWiring = record {
      tool_connections = cs;
      tools_of = tools_by_agent cs;
      agents_of = agents_by_tool cs;
      main_edges = keep stays raw;
    } in
    let (done, passed, result) =
      >>=-eq-ok (check_consumers silent raw raw) (λ checked. ok made) h in
    let same : made ≡ w = cc in
    let pure = check_consumers-passes silent raw raw passed in
    subst (IsWiring raw) same (record {
      tools = λ agent. get_or-fold (λ c. c.agent) (λ c. c.tool) cs [] agent;
      agents = λ tool. get_or-fold (λ c. c.tool) (λ c. c.agent) cs [] tool;
      edges = λ e. (
        λ m.
            let (stay, there) = mem-keep stays raw m in
            (there, ground (arith, silent-edge raw cs there, stay)),
        λ (there, untooled).
            mem-keep_of_mem stays raw (ground (arith, silent-edge raw cs there, untooled)) there,
      );
      unmixed = λ e o m n q h. elim (Bool-cases (is_wired_tool cs o.from)) [
        | inl tooled ↦ tooled
        | inr untooled ↦
            let other : (o.to == e.to && not (has silent o.from)) ≡ true =
              ground (arith, silent-edge raw cs n, untooled, (string_eq.beq_iff o.to e.to).1 q) in
            let found =
              any-mem (λ (x : RawEdge). x.to == e.to && not (has silent x.from)) raw n other in
            absurd (ground (arith, All-mem _ raw pure m, silent-edge raw cs m, found))
      ];
    })

-- In the wiring that `wireTools` returns, each agent has its tools and each tool its agents, in the
-- order of the kept connections; the main edges are the given ones that leave no tool; and a node
-- that takes main input from a tool takes it from tools alone.
pub wire_tools-IsWiring :
    (cs : List ToolConnection) (nodes : List (String × RawNode)) (raw : List RawEdge)
    (w : ToolWiring)
    → wire_tools cs nodes raw ≡ ok w
    → IsWiring raw w
unfolding wire_tools
wire_tools-IsWiring cs nodes raw w h =
    let (tools, collected, finished) =
      >>=-eq-ok (collect_tools nodes raw [] cs)
        (λ tools. finish_wiring raw (map plain_tool (sort tool_le tools))) h in
    finish_wiring-IsWiring raw (map plain_tool (sort tool_le tools)) w finished
