-- ===== src/Compiler/Analysis/References/Sets.antt =====
-- The two node sets that the classified references imply.
use n8n_libpetri.Prelude.{
  ◌≡◌, sym, map, Bool, true, false, ◌&&◌, ◌||◌, List, [], ◌∷◌, ◌++◌, String, string_eq, ◌==◌, arith,
  fold,
}
use mathlib.Core.List.{append-nil, append_assoc}
use n8n_libpetri.Prelude.Sets.{has, has-add}
use n8n_libpetri.Compiler.Types.{ReferenceKind, read, seeded, unguarded, ResolvedReference, RawNode}
use n8n_libpetri.Compiler.Analysis.References.{
  ClassifiedReferences, kind_of, note_reference, classify_node, classify_step, classify_references,
}

abbrev pub has_arc : ReferenceKind → Bool
has_arc unguarded = false
has_arc _ = true

abbrev pub is_seeded : ReferenceKind → Bool
is_seeded seeded = true
is_seeded _ = false

note_reference_lem :
    (k : ReferenceKind) (c : ClassifiedReferences) (y v : String)
    → (has (note_reference k c y).referenced v ≡ (has c.referenced v || (y == v && has_arc k)))
      × (has (note_reference k c y).seeded_skipped v
          ≡ (has c.seeded_skipped v || (y == v && is_seeded k)))
unfolding note_reference
note_reference_lem read c y v = ground (arith, has-add c.referenced y v)
note_reference_lem seeded c y v =
    ground (arith, has-add c.referenced y v, has-add c.seeded_skipped y v)
note_reference_lem unguarded c y v = ground arith

module _ (starts : List String) (succ : List (String × List String)) (reachable : List String) where
  -- Some reference of `ys`, from `x`, is to `v` and of a kind that `p` holds of.
  abbrev pub refers : (ReferenceKind → Bool) → String → List String → String → Bool
  refers p x [] v = false
  refers p x (y ∷ ys) v = (y == v && p (kind_of starts succ reachable x y)) || refers p x ys v

  abbrev pub refers_any : (ReferenceKind → Bool) → List RawNode → String → Bool
  refers_any p [] v = false
  refers_any p (r ∷ raws) v = refers p r.node.name r.raw_references v || refers_any p raws v

  abbrev pub resolve : String → String → ResolvedReference
  resolve x y = record { node = y; kind = kind_of starts succ reachable x y }

  referenced-classify_node :
      (x : String) (ys : List String) (c : ClassifiedReferences) (out : List ResolvedReference)
      (v : String)
      → (has (classify_node starts succ reachable x ys (c, out)).0.referenced v
          ≡ (has c.referenced v || refers has_arc x ys v))
        × (has (classify_node starts succ reachable x ys (c, out)).0.seeded_skipped v
            ≡ (has c.seeded_skipped v || refers is_seeded x ys v))
  unfolding classify_node
  referenced-classify_node x [] c out v = ground arith
  referenced-classify_node x (y ∷ ys) c out v = ground (
    arith,
    note_reference_lem (kind_of starts succ reachable x y) c y v,
    referenced-classify_node x ys (note_reference (kind_of starts succ reachable x y) c y)
        (out ++ (record { node = y; kind = kind_of starts succ reachable x y } ∷ [])) v,
  )

  sets-fold :
      (raws : List RawNode) (c : ClassifiedReferences) (v : String)
      → (has (fold (classify_step starts succ reachable) c raws).referenced v
          ≡ (has c.referenced v || refers_any has_arc raws v))
        × (has (fold (classify_step starts succ reachable) c raws).seeded_skipped v
            ≡ (has c.seeded_skipped v || refers_any is_seeded raws v))
  unfolding classify_step
  sets-fold [] c v = ground arith
  sets-fold (r ∷ raws) c v = ground (
    arith,
    referenced-classify_node r.node.name r.raw_references c [] v,
    sets-fold raws (classify_step starts succ reachable c r) v,
  )

  -- A node is in `referenced` exactly when some node's reference to it is `read` or `seeded`, and
  -- in `seededSkipped` exactly when some node's reference to it is `seeded`.
  pub classify_references_sets :
      (raws : List RawNode) (v : String)
      → (has (classify_references starts succ reachable raws).referenced v
          ≡ refers_any has_arc raws v)
        × (has (classify_references starts succ reachable raws).seeded_skipped v
            ≡ refers_any is_seeded raws v)
  unfolding classify_references
  classify_references_sets raws v =
      sets-fold raws (record { referenced = []; seeded_skipped = []; references_of = [] }) v

  resolved-classify_node :
      (x : String) (ys : List String) (c : ClassifiedReferences) (out : List ResolvedReference)
      → (classify_node starts succ reachable x ys (c, out)).1 ≡ out ++ map (resolve x) ys
  unfolding classify_node
  resolved-classify_node x [] c out = sym (append-nil out)
  resolved-classify_node x (y ∷ ys) c out =
      rw (resolved-classify_node x ys _ (out ++ (resolve x y ∷ [])))
        (append_assoc out (resolve x y ∷ []) (map (resolve x) ys))
