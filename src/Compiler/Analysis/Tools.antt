-- ===== src/Compiler/Analysis/Tools.antt =====
-- compiler/analysis/tools.ts: which agent may dispatch which tool, and the main edges that are left.
-- The diagnostics are left out.
pub mod Wiring
pub mod Kept
use Prim.Native.String.{◌++◌ as append}
use n8n_libpetri.Prelude.{
  ℕ, true, false, not, ◌&&◌, ◌||◌, Bool, Option, none, some, List, [], ◌∷◌, ◌++◌, map, String,
  string_eq, ◌==◌, if◌then◌else◌, ltb, fold, keep, any,
}
use n8n_libpetri.Prelude.Sets.{has}
use n8n_libpetri.Prelude.Maps
use n8n_libpetri.Prelude.Sort.{sort}
use n8n_libpetri.Prelude.Results.{Result, ok, err, ◌>>=◌}
use n8n_libpetri.Compiler.Errors.{
  CompileErrorCode, unknown_tool_connection_node, tool_main_consumer,
}
use n8n_libpetri.Compiler.Types.{ToolConnection, RawNode}
use n8n_libpetri.Compiler.Analysis.Connections.{RawEdge}

pub record ToolWiring : Type 0 where
  pub tool_connections : List ToolConnection
  pub tools_of : List (String × List String)
  pub agents_of : List (String × List String)
  pub main_edges : List RawEdge

pub record KeyedTool : Type 0 where
  pub agent : String
  pub tool : String
  pub agent_index : ℕ
  pub tool_index : ℕ

abbrev pub tool_key : ToolConnection → String
tool_key c = append c.tool (append " -> " c.agent)

-- A node that the connection names, or the throw.
abbrev pub known_tool : Option RawNode → Result CompileErrorCode RawNode
known_tool none = err unknown_tool_connection_node
known_tool (some r) = ok r

-- `hasProducer.has(name)`.
abbrev pub has_producer : List RawEdge → String → Bool
has_producer raw name = any (λ e. e.to == name) raw

-- The three `continue`s: a node wired to itself, a key seen before, a tool with a main producer.
unfoldable pub is_dropped : List RawEdge → List String → ToolConnection → Bool
is_dropped raw seen c = c.agent == c.tool || (has seen (tool_key c) || has_producer raw c.tool)

abbrev pub keyed : ToolConnection → RawNode → RawNode → KeyedTool
keyed c agent tool = record {
  agent = c.agent;
  tool = c.tool;
  agent_index = agent.index;
  tool_index = tool.index;
}

-- The loop over the tool connections, with the keys seen so far.
unfoldable pub collect_tools :
    List (String × RawNode)
    → List RawEdge
    → List String
    → List ToolConnection
    → Result CompileErrorCode (List KeyedTool)
collect_tools raw_by_name raw seen [] = ok []
collect_tools raw_by_name raw seen (c ∷ cs) = do
  agent ← known_tool (Maps.get raw_by_name c.agent)
  tool ← known_tool (Maps.get raw_by_name c.tool)
  rest ←
      collect_tools raw_by_name raw (if is_dropped raw seen c then seen else tool_key c ∷ seen) cs
  ok (if is_dropped raw seen c then rest else keyed c agent tool ∷ rest)

-- Canonical order: agent canvas index, then tool.
abbrev pub tool_le : KeyedTool → KeyedTool → Bool
tool_le x y =
    if ltb x.agent_index y.agent_index
    then true
    else if ltb y.agent_index x.agent_index
    then false
    else if ltb y.tool_index x.tool_index
    then false
    else true

abbrev pub plain_tool : KeyedTool → ToolConnection
plain_tool k = record { agent = k.agent; tool = k.tool }

-- `let list = m.get(key); if (list === undefined) m.set(key, list = []); list.push(value)`.
abbrev pub push_to :
    (ToolConnection → String)
    → (ToolConnection → String)
    → List (String × List String)
    → ToolConnection
    → List (String × List String)
push_to key value m c = Maps.set m (key c) (Maps.get_or m (key c) [] ++ (value c ∷ []))

unfoldable pub tools_by_agent : List ToolConnection → List (String × List String)
tools_by_agent cs = fold (push_to (λ c. c.agent) (λ c. c.tool)) [] cs

unfoldable pub agents_by_tool : List ToolConnection → List (String × List String)
agents_by_tool cs = fold (push_to (λ c. c.tool) (λ c. c.agent)) [] cs

-- `toolsWithConsumers`.
unfoldable pub tools_with_consumers : List RawEdge → List ToolConnection → List String
tools_with_consumers raw cs =
    keep (λ tool. any (λ e. e.from == tool) raw) (Maps.keys (agents_by_tool cs))

-- The loop that refuses a node fed by a tool and by another node.
unfoldable pub check_consumers :
    List String → List RawEdge → List RawEdge → Result CompileErrorCode (Unit {0})
check_consumers silent raw [] = ok tt
check_consumers silent raw (e ∷ es) =
    let rest = check_consumers silent raw es in
    if has silent e.from && any (λ o. o.to == e.to && not (has silent o.from)) raw
    then err tool_main_consumer
    else rest

unfoldable pub finish_wiring :
    List RawEdge → List ToolConnection → Result CompileErrorCode ToolWiring
finish_wiring raw cs = do
  checked ← check_consumers (tools_with_consumers raw cs) raw raw
  ok (record {
    tool_connections = cs;
    tools_of = tools_by_agent cs;
    agents_of = agents_by_tool cs;
    main_edges = keep (λ e. not (has (tools_with_consumers raw cs) e.from)) raw;
  })

unfoldable pub wire_tools :
    List ToolConnection
    → List (String × RawNode)
    → List RawEdge
    → Result CompileErrorCode ToolWiring
wire_tools cs raw_by_name raw = do
  tools ← collect_tools raw_by_name raw [] cs
  finish_wiring raw (map plain_tool (sort tool_le tools))
