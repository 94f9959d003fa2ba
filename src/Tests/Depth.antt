-- ===== src/Tests/Depth.antt =====
-- The depths of a trigger, an agent after it, and the tool of the agent.
use n8n_libpetri.Prelude.{ℕ, ◌≡◌, ◌≤◌, refl, false, List, [], ◌∷◌, String, string_eq}
use n8n_libpetri.Prelude.Maps
use n8n_libpetri.Prelude.Predicates.{All}
use n8n_libpetri.Compiler.Types.{EdgeRef, tree, ToolConnection}
use n8n_libpetri.Compiler.Analysis.Depth.{Depths, depth_of}
use n8n_libpetri.Compiler.Analysis.Depth.Tools.{IsSunk, depth_of_lem}

abbrev main_edges : List (String × List EdgeRef)
main_edges =
    (
      "start",
      record {
        from = "start";
        output_index = 0;
        to = "agent";
        input_index = 0;
        id = 0;
        kind = tree;
      }
          ∷ [],
    )
    ∷ []

abbrev tools : List ToolConnection
tools = record { agent = "agent"; tool = "tool" } ∷ []

abbrev nodes : List String
nodes = "start" ∷ "agent" ∷ "tool" ∷ []

abbrev components : List (List String)
components = ("agent" ∷ []) ∷ ("start" ∷ []) ∷ ("tool" ∷ []) ∷ []

abbrev component_of : List (String × ℕ)
component_of = ("agent", 0) ∷ ("start", 1) ∷ ("tool", 2) ∷ []

abbrev depths : Depths
depths = depth_of nodes ("start" ∷ []) components component_of main_edges tools

depths_run : depths.depth ≡ ("start", 0) ∷ ("agent", 1) ∷ ("tool", 2) ∷ []
unfolding depth_of
depths_run = refl

depth_of_lem_example :
    ((n : String) → Maps.get_or depths.depth n 0 ≤ depths.max_depth)
    × (depths.is_truncated ≡ false → All (IsSunk depths.depth) tools)
depth_of_lem_example = depth_of_lem nodes ("start" ∷ []) components component_of main_edges tools
