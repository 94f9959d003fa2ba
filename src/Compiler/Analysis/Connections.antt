-- ===== src/Compiler/Analysis/Connections.antt =====
-- compiler/analysis/connections.ts: main connections validated against the nodes' port counts,
-- deduplicated, and sorted into the canonical order. The diagnostics, which are texts, are left out.
pub mod Guards
pub mod Canonical
pub mod Keys
use n8n_libpetri.Prelude.{
  ℕ, Bool, true, false, Option, some, none, List, [], ◌∷◌, String, string_eq, if◌then◌else◌, ltb,
  nat_beq,
}
use n8n_libpetri.Prelude.Sets.{has}
use n8n_libpetri.Prelude.Maps
use n8n_libpetri.Prelude.Sort.{sort}
use n8n_libpetri.Prelude.Results.{Result, ok, err, ◌>>=◌}
use n8n_libpetri.Prelude.Texts.{print}
use n8n_libpetri.Compiler.Errors.{
  CompileErrorCode, unknown_connection_node, output_index_out_of_range, input_index_out_of_range,
}
use n8n_libpetri.Compiler.Types.{Num, nat, negative, fractional, MainConnection, RawNode}
use Prim.Native.String.{◌++◌}

pub record RawEdge : Type 0 where
  pub from : String
  pub output_index : ℕ
  pub to : String
  pub input_index : ℕ
  pub from_index : ℕ
  pub to_index : ℕ

-- A node that the connection names, or the throw.
abbrev pub known : Option RawNode → Result CompileErrorCode RawNode
known none = err unknown_connection_node
known (some r) = ok r

-- `Number.isInteger(i) && i >= 0 && i < n`, or the throw.
abbrev pub index_below : Num → ℕ → CompileErrorCode → Result CompileErrorCode ℕ
index_below (nat i) n x = if ltb i n then ok i else err x
index_below (negative i) n x = err x
index_below (fractional s) n x = err x

-- The guards of the loop's body, and the edge that it pushes.
unfoldable pub edge_of : List (String × RawNode) → MainConnection → Result CompileErrorCode RawEdge
edge_of raw_by_name c = do
  from ← known (Maps.get raw_by_name c.from)
  to ← known (Maps.get raw_by_name c.to)
  output ← index_below c.output_index from.output_count output_index_out_of_range
  input ← index_below c.input_index to.shape.input_count input_index_out_of_range
  ok (record {
    from = c.from;
    output_index = output;
    to = c.to;
    input_index = input;
    from_index = from.index;
    to_index = to.index;
  })

-- The text by which the loop tells connections apart.
unfoldable pub edge_key : RawEdge → String
unfolding print
edge_key e =
    e.from ++ (" " ++ (print e.output_index ++ (" " ++ (e.to ++ (" " ++ print e.input_index)))))

-- The loop, with the keys seen so far. A connection whose key was seen is left out.
unfoldable pub collect_edges :
    List (String × RawNode)
    → List String
    → List MainConnection
    → Result CompileErrorCode (List RawEdge)
collect_edges raw_by_name seen [] = ok []
collect_edges raw_by_name seen (c ∷ cs) = do
  e ← edge_of raw_by_name c
  rest ← collect_edges raw_by_name (edge_key e ∷ seen) cs
  ok (if has seen (edge_key e) then rest else e ∷ rest)

-- Canonical order: producer canvas index, output, consumer canvas index, input.
abbrev pub edge_le : RawEdge → RawEdge → Bool
edge_le x y =
    if ltb x.from_index y.from_index
    then true
    else if ltb y.from_index x.from_index
    then false
    else if ltb x.output_index y.output_index
    then true
    else if ltb y.output_index x.output_index
    then false
    else if ltb x.to_index y.to_index
    then true
    else if ltb y.to_index x.to_index
    then false
    else if ltb y.input_index x.input_index
    then false
    else true

unfoldable pub canonicalise_connections :
    List (String × RawNode) → List MainConnection → Result CompileErrorCode (List RawEdge)
canonicalise_connections raw_by_name cs = do
  raw ← collect_edges raw_by_name [] cs
  ok (sort edge_le raw)
