-- ===== src/Compiler/Analysis/References.antt =====
-- compiler/analysis/references.ts: `$('Y')` references classified by reachability avoiding the
-- referencing node. The diagnostics, which are texts, are left out.
pub mod Kinds
pub mod Sets
use n8n_libpetri.Prelude.{
  Bool, true, false, not, Option, some, none, List, [], ◌∷◌, ◌++◌, String, string_eq, ◌==◌,
  if◌then◌else◌, fold,
}
use n8n_libpetri.Prelude.Sets.{has, add}
use n8n_libpetri.Prelude.Maps
use n8n_libpetri.Compiler.Types.{ReferenceKind, read, seeded, unguarded, ResolvedReference, RawNode}
use n8n_libpetri.Compiler.Analysis.Reachability.{reach_from}

pub record ClassifiedReferences : Type 0 where
  pub referenced : List String
  pub seeded_skipped : List String
  pub references_of : List (String × List ResolvedReference)

-- What that branch adds to the two sets.
unfoldable pub note_reference : ReferenceKind → ClassifiedReferences → String → ClassifiedReferences
note_reference read c y = record c { referenced = add c.referenced y }
note_reference seeded c y = record c {
  referenced = add c.referenced y;
  seeded_skipped = add c.seeded_skipped y;
}
note_reference unguarded c y = c

module _ (start_nodes : List String) (succ : List (String × List String))
    (reachable : List String) where
  -- The branch that one reference `y` of the node `x` takes.
  unfoldable pub kind_of : String → String → ReferenceKind
  unfolding reach_from
  kind_of x y =
      if y == x
      then unguarded
      else if not (has reachable y)
      then seeded
      else if has (reach_from start_nodes succ (some x)) y
      then read
      else unguarded

  -- The inner loop, over one node's references.
  unfoldable pub classify_node :
      String
      → List String
      → ClassifiedReferences × List ResolvedReference
      → ClassifiedReferences × List ResolvedReference
  unfolding kind_of note_reference
  classify_node x [] s = s
  classify_node x (y ∷ ys) (c, resolved) =
      classify_node x ys (
        note_reference (kind_of x y) c y,
        resolved ++ (record { node = y; kind = kind_of x y } ∷ []),
      )

  unfoldable pub classify_step : ClassifiedReferences → RawNode → ClassifiedReferences
  unfolding classify_node
  classify_step c r =
      let (c', resolved) = classify_node r.node.name r.raw_references (c, []) in
      record c' { references_of = Maps.set c'.references_of r.node.name resolved }

  unfoldable pub classify_references : List RawNode → ClassifiedReferences
  unfolding classify_step
  classify_references raws =
      fold classify_step (record { referenced = []; seeded_skipped = []; references_of = [] }) raws
