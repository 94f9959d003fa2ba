-- ===== src/Tests/Tools.antt =====
-- An agent with one tool, which is also wired to itself.
use n8n_libpetri.Prelude.{refl, List, [], ◌∷◌, String, string_eq}
use n8n_libpetri.Compiler.Types.{ToolConnection, RawNode}
use n8n_libpetri.Compiler.Analysis.Connections.{RawEdge}
use n8n_libpetri.Compiler.Analysis.Connections.Keys.{plain_edge}
use n8n_libpetri.Compiler.Analysis.Tools.{
  ToolWiring, is_dropped, collect_tools, tools_by_agent, agents_by_tool, tools_with_consumers,
  check_consumers, finish_wiring, wire_tools,
}
use n8n_libpetri.Compiler.Analysis.Tools.Wiring.{IsWiring, wire_tools-IsWiring}
use n8n_libpetri.Compiler.Analysis.Tools.Kept.{IsToolList, wire_tools-IsToolList}
use n8n_libpetri.Tests.Analysis.{merge_node}

abbrev nodes : List (String × RawNode)
nodes =
    ("agent", merge_node "agent" 0 [])
    ∷ ("search", merge_node "search" 1 [])
    ∷ ("end", merge_node "end" 2 [])
    ∷ []

abbrev main : List RawEdge
main = plain_edge "agent" "end" 0 0 2 ∷ plain_edge "search" "log" 0 1 3 ∷ []

abbrev wired : ToolConnection
wired = record { agent = "agent"; tool = "search" }

abbrev connections : List ToolConnection
connections = record { agent = "agent"; tool = "agent" } ∷ wired ∷ wired ∷ []

abbrev wiring : ToolWiring
wiring = record {
  tool_connections = wired ∷ [];
  tools_of = ("agent", "search" ∷ []) ∷ [];
  agents_of = ("search", "agent" ∷ []) ∷ [];
  main_edges = plain_edge "agent" "end" 0 0 2 ∷ [];
}

wire_tools-IsWiring_example : IsWiring main wiring
unfolding wire_tools finish_wiring collect_tools is_dropped check_consumers tools_by_agent
    agents_by_tool tools_with_consumers
wire_tools-IsWiring_example = wire_tools-IsWiring connections nodes main wiring refl

wire_tools-IsToolList_example : IsToolList main connections (wired ∷ [])
unfolding wire_tools finish_wiring collect_tools is_dropped check_consumers tools_by_agent
    agents_by_tool tools_with_consumers
wire_tools-IsToolList_example = wire_tools-IsToolList connections nodes main wiring refl
