-- ===== src/Tests/Analysis.antt =====
-- The analysis at small workflows: three nodes in a line, an agent with a tool, a node that reads
-- another one's data.
use Prim.Native.String.{◌++◌ as append}
use mathlib.Core.List.{Memᴰ}
use mathlib.Core.List.Memᴰ
use n8n_libpetri.Prelude.{
  ℕ, ◌<◌, ◌≡◌, ◌≢◌, refl, ◌↔◌, true, false, not, ◌&&◌, none, some, List, [], ◌∷◌, map, String,
  string_eq, nat_eq, ◌==◌,
}
use n8n_libpetri.Prelude.Sets.{has}
use n8n_libpetri.Prelude.Maps
use n8n_libpetri.Prelude.Predicates.{All}
use n8n_libpetri.Prelude.Results.{ok}
use n8n_libpetri.Compiler.Types.{
  nat, negative, tree, EdgeRef, MainConnection, ToolConnection, JoinForm, direct, read, seeded,
  NodeTypeShape, NodeDescription, indexes, stop_workflow, RawNode, AnalysedNode,
}
use n8n_libpetri.Compiler.Analysis.Worklist.Drained.{Reach}
use n8n_libpetri.Compiler.Analysis.Reachability.{reach_from, reachable_from, reachable_from_starts}
use n8n_libpetri.Compiler.Analysis.Reachability.Walks.{reach_from_iff, reachable_from_iff}
use n8n_libpetri.Compiler.Analysis.Reachability.Tools.{Dispatched, reachable_from_starts_iff}
use n8n_libpetri.Compiler.Analysis.References.{kind_of, classify_references}
use n8n_libpetri.Compiler.Analysis.References.Kinds.{Live, Avoiding, kind_of_iff}
use n8n_libpetri.Compiler.Analysis.References.Sets.{
  has_arc, is_seeded, refers_any, classify_references_sets,
}
use n8n_libpetri.Compiler.Analysis.SkipObservers.{skip_observable_nodes}
use n8n_libpetri.Compiler.Analysis.SkipObservers.Closure.{
  observers, producers, skip_observable_nodes_iff,
}
use n8n_libpetri.Compiler.Analysis.DeadInputs.{dead_inputs_of, find_dead_inputs}
use n8n_libpetri.Compiler.Analysis.DeadInputs.Padded.{
  is_wired, is_wired_above, dead_inputs_of_iff, ListsDead, find_dead_inputs_lem,
}
use n8n_libpetri.Compiler.Analysis.Inputs.{required_inputs_of, join_form_of}
use n8n_libpetri.Compiler.Analysis.Inputs.Required.{
  IsListing, requires, required_inputs_of-IsListing,
}
use n8n_libpetri.Compiler.Analysis.Inputs.Forms.{Fits, join_form_of-Fits}
use n8n_libpetri.Compiler.Analysis.KSafety.{multi_producer_inputs_of}
use n8n_libpetri.Compiler.Analysis.KSafety.Producers.{producers_of, multi_producer_inputs_of_iff}
use n8n_libpetri.Compiler.Analysis.Connections.{
  RawEdge, edge_of, edge_key, collect_edges, canonicalise_connections,
}
use n8n_libpetri.Compiler.Analysis.Connections.Guards.{Verdict, canonicalise_connections_refuses}
use n8n_libpetri.Compiler.Analysis.Connections.Canonical.{
  IsCanonical, canonicalise_connections-IsCanonical, canonicalise_connections_keeps_first,
}
use n8n_libpetri.Compiler.Analysis.Connections.Keys.{plain_edge, edge_key_collides}

abbrev line : List (String × List String)
line = ("a", "b" ∷ []) ∷ ("b", "c" ∷ []) ∷ []

abbrev edge : String → ℕ → String → ℕ → EdgeRef
edge from output_index to input_index = record {
  from = from;
  output_index = output_index;
  to = to;
  input_index = input_index;
  id = 0;
  kind = tree;
}

abbrev line_outgoing : List (String × List EdgeRef)
line_outgoing = ("a", edge "a" 0 "b" 0 ∷ []) ∷ ("b", edge "b" 0 "c" 0 ∷ []) ∷ []

abbrev line_incoming : List (String × List EdgeRef)
line_incoming = ("b", edge "a" 0 "b" 0 ∷ []) ∷ ("c", edge "b" 0 "c" 0 ∷ []) ∷ []

abbrev tools : List ToolConnection
tools = record { agent = "c"; tool = "search" } ∷ []

abbrev pub merge_shape : NodeTypeShape
merge_shape = record {
  input_count = 3;
  output_count = 1;
  required_inputs = some (indexes (nat 1 ∷ nat 0 ∷ negative 2 ∷ []));
  loop_node = false;
  output_names = none;
}

abbrev pub described : String → NodeDescription
described name = record {
  id = name;
  name = name;
  on_error = none;
  retry_on_fail = false;
  max_tries = none;
  wait_between_tries = none;
  execution_policy = none;
}

-- A merge that requires its inputs 0 and 1 and names the nodes it reads.
abbrev pub merge_node : String → ℕ → List String → RawNode
merge_node name index raw_references = record {
  node = described name;
  shape = merge_shape;
  index = index;
  output_count = 1;
  error_output_index = none;
  on_error = stop_workflow;
  retry = none;
  raw_references = raw_references;
  all_required = false;
  required_inputs = some (0 ∷ 1 ∷ []);
}

abbrev analysed : String → JoinForm → AnalysedNode
analysed name form = record {
  node = described name;
  shape = merge_shape;
  index = 0;
  dead_inputs = [];
  required_inputs = none;
  is_tool = false;
  form = form;
}

abbrev connection : String → ℕ → String → ℕ → MainConnection
connection from output_index to input_index = record {
  from = from;
  output_index = nat output_index;
  to = to;
  input_index = nat input_index;
}

-- Four nodes whose names hold blanks and digits.
abbrev blanks : List (String × RawNode)
blanks =
    ("a", merge_node "a" 0 [])
    ∷ ("a 0", merge_node "a 0" 1 [])
    ∷ ("b", merge_node "b" 2 [])
    ∷ ("0 b", merge_node "0 b" 3 [])
    ∷ []

reach_from_iff_example :
    (has (reach_from ("a" ∷ []) line (some "b")) "c" ≡ true)
    ↔ Reach ("a" ∷ []) (λ n. Maps.get_or line n []) (some "b") "c"
reach_from_iff_example = reach_from_iff ("a" ∷ []) line (some "b") "c"

reachable_from_iff_example :
    (has (reachable_from line_outgoing ("a" ∷ [])) "c" ≡ true)
    ↔ Reach ("a" ∷ []) (λ n. map (λ e. e.to) (Maps.get_or line_outgoing n [])) none "c"
reachable_from_iff_example = reachable_from_iff line_outgoing ("a" ∷ []) "c"

reachable_from_starts_iff_example :
    (has (reachable_from_starts ("a" ∷ []) line tools) "search" ≡ true)
    ↔ Dispatched (Reach ("a" ∷ []) (λ n. Maps.get_or line n []) none) tools "search"
reachable_from_starts_iff_example = reachable_from_starts_iff ("a" ∷ []) line tools "search"

kind_of_iff_example :
    ((kind_of ("a" ∷ []) line (reachable_from_starts ("a" ∷ []) line tools) "c" "a" ≡ read) ↔ (
      (◌≢◌ {A = String} "a" "c")
      × Live ("a" ∷ []) line tools "a"
      × Avoiding ("a" ∷ []) line tools "c" "a"))
    × ((kind_of ("a" ∷ []) line (reachable_from_starts ("a" ∷ []) line tools) "c" "a" ≡ seeded)
        ↔ ((◌≢◌ {A = String} "a" "c") × (¬ Live ("a" ∷ []) line tools "a")))
kind_of_iff_example = kind_of_iff ("a" ∷ []) line tools "c" "a"

classify_references_sets_example :
    (has
        (classify_references
          ("a" ∷ [])
          line
          ("a" ∷ "b" ∷ "c" ∷ [])
          (merge_node "c" 0 ("a" ∷ "d" ∷ []) ∷ [])).referenced
        "d"
      ≡ refers_any
          ("a" ∷ [])
          line
          ("a" ∷ "b" ∷ "c" ∷ [])
          has_arc
          (merge_node "c" 0 ("a" ∷ "d" ∷ []) ∷ [])
          "d")
    × (has
          (classify_references
            ("a" ∷ [])
            line
            ("a" ∷ "b" ∷ "c" ∷ [])
            (merge_node "c" 0 ("a" ∷ "d" ∷ []) ∷ [])).seeded_skipped
          "d"
        ≡ refers_any
            ("a" ∷ [])
            line
            ("a" ∷ "b" ∷ "c" ∷ [])
            is_seeded
            (merge_node "c" 0 ("a" ∷ "d" ∷ []) ∷ [])
            "d")
classify_references_sets_example =
    classify_references_sets ("a" ∷ []) line ("a" ∷ "b" ∷ "c" ∷ [])
      (merge_node "c" 0 ("a" ∷ "d" ∷ []) ∷ []) "d"

skip_observable_nodes_iff_example :
    (has
        (skip_observable_nodes []
          ("c" ∷ [])
          (analysed "a" direct ∷ analysed "b" direct ∷ analysed "c" direct ∷ [])
          line_incoming)
        "a"
      ≡ true)
    ↔ Reach
        (observers []
          ("c" ∷ [])
          (analysed "a" direct ∷ analysed "b" direct ∷ analysed "c" direct ∷ []))
        (producers []
          ("c" ∷ [])
          (analysed "a" direct ∷ analysed "b" direct ∷ analysed "c" direct ∷ [])
          line_incoming)
        none
        "a"
skip_observable_nodes_iff_example =
    skip_observable_nodes_iff [] ("c" ∷ [])
      (analysed "a" direct ∷ analysed "b" direct ∷ analysed "c" direct ∷ []) line_incoming "a"

dead_inputs_of_iff_example :
    has (dead_inputs_of (some (0 ∷ 1 ∷ [])) (edge "a" 0 "m" 2 ∷ edge "a" 0 "m" 0 ∷ [])) 1 ≡ (
      has {A = ℕ} (0 ∷ 1 ∷ []) 1
      && (is_wired_above (edge "a" 0 "m" 2 ∷ edge "a" 0 "m" 0 ∷ []) 1
          && not (is_wired (edge "a" 0 "m" 2 ∷ edge "a" 0 "m" 0 ∷ []) 1)))
dead_inputs_of_iff_example =
    dead_inputs_of_iff (0 ∷ 1 ∷ []) (edge "a" 0 "m" 2 ∷ edge "a" 0 "m" 0 ∷ []) 1

abbrev merge_incoming : List (String × List EdgeRef)
merge_incoming = ("m", edge "a" 0 "m" 2 ∷ []) ∷ []

find_dead_inputs_lem_example :
    (deads : List (String × List ℕ)) × (find_dead_inputs (merge_node "m" 0 [] ∷ []) merge_incoming
      ≡ ok deads)
    × All (ListsDead merge_incoming deads) (merge_node "m" 0 [] ∷ [])
find_dead_inputs_lem_example =
    find_dead_inputs_lem merge_incoming (merge_node "m" 0 [] ∷ []) (refl, tt)
      ((edge "a" 0 "m" 2 ∷ [], refl), tt)

required_inputs_of-IsListing_example :
    IsListing 3 (requires merge_shape) (required_inputs_of merge_shape)
required_inputs_of-IsListing_example = required_inputs_of-IsListing merge_shape

join_form_of-Fits_example :
    Fits [] none
      (edge "a" 0 "m" 0 ∷ edge "b" 0 "m" 1 ∷ [])
      (join_form_of false [] none (edge "a" 0 "m" 0 ∷ edge "b" 0 "m" 1 ∷ []))
join_form_of-Fits_example = join_form_of-Fits [] none (edge "a" 0 "m" 0 ∷ edge "b" 0 "m" 1 ∷ [])

multi_producer_inputs_of_iff_example :
    Memᴰ
      (record { node = "m"; input_index = 0; producers = 2 })
      (multi_producer_inputs_of (edge "a" 0 "m" 0 ∷ edge "b" 0 "m" 0 ∷ []))
    ↔ ((1 < 2) × (2 ≡ producers_of (edge "a" 0 "m" 0 ∷ edge "b" 0 "m" 0 ∷ []) "m" 0))
multi_producer_inputs_of_iff_example =
    multi_producer_inputs_of_iff (edge "a" 0 "m" 0 ∷ edge "b" 0 "m" 0 ∷ [])
      (record { node = "m"; input_index = 0; producers = 2 })

canonicalise_connections-IsCanonical_example :
    IsCanonical blanks
      (connection "b" 0 "a" 0 ∷ connection "a" 0 "b" 0 ∷ [])
      (plain_edge "a" "b" 0 0 2 ∷ plain_edge "b" "a" 0 2 0 ∷ [])
unfolding canonicalise_connections collect_edges edge_of edge_key
canonicalise_connections-IsCanonical_example =
    canonicalise_connections-IsCanonical blanks
      (connection "b" 0 "a" 0 ∷ connection "a" 0 "b" 0 ∷ [])
      (plain_edge "a" "b" 0 0 2 ∷ plain_edge "b" "a" 0 2 0 ∷ []) refl

canonicalise_connections_refuses_example : Verdict blanks (connection "a" 7 "b" 0 ∷ [])
canonicalise_connections_refuses_example =
    canonicalise_connections_refuses blanks (connection "a" 7 "b" 0 ∷ [])

edge_key_collides_example :
    edge_key (plain_edge "a" (append "0 " "b") 0 0 3)
    ≡ edge_key (plain_edge (append "a" " 0") "b" 0 1 2)
edge_key_collides_example = edge_key_collides "a" "b" 0 0 3 1 2

-- Of two different connections with one key the second is left out.
abbrev colliding : List MainConnection
colliding = connection "a 0" 0 "b" 0 ∷ []

abbrev kept : RawEdge
kept = plain_edge "a" "0 b" 0 0 3

collides : canonicalise_connections blanks (connection "a" 0 "0 b" 0 ∷ colliding) ≡ ok (kept ∷ [])
unfolding canonicalise_connections collect_edges edge_of edge_key
collides = refl

kept_edge : edge_of blanks (connection "a" 0 "0 b" 0) ≡ ok kept
unfolding edge_of
kept_edge = refl

canonicalise_connections_keeps_first_example :
    (has (Maps.map_keys edge_key (kept ∷ [])) (edge_key kept) ≡ true)
    × All (λ f. (edge_key f == edge_key kept) ≡ true → f ≡ kept) (kept ∷ [])
canonicalise_connections_keeps_first_example =
    canonicalise_connections_keeps_first blanks [] colliding (connection "a" 0 "0 b" 0) kept
      (kept ∷ []) kept_edge (λ f h. absurd (Memᴰ.not-nil h.1)) collides
