-- ===== src/Compiler/Analysis/Connections/Keys.antt =====
-- The keys of connections between nodes whose names hold blanks and digits.
use Prim.Native.String.{◌++◌}
use text.Mathlib.TextLemmas.{append_assoc}
use n8n_libpetri.Prelude.{ℕ, ◌≡◌, ap, sym, ◌∙◌, String, string_eq}
use n8n_libpetri.Prelude.Texts.{print}
use n8n_libpetri.Compiler.Analysis.Connections.{RawEdge, edge_key}

-- The edge from output 0 of `from` to input `i` of `to`.
abbrev pub plain_edge : String → String → ℕ → ℕ → ℕ → RawEdge
plain_edge from to i m n = record {
  from = from;
  output_index = 0;
  to = to;
  input_index = i;
  from_index = m;
  to_index = n;
}

-- For any names `x` and `y`, the edge from `x` to the node named "0 y" and the edge from the node
-- named "x 0" to `y` have one key.
pub edge_key_collides :
    (x y : String) (i m n k l : ℕ)
    → edge_key (plain_edge x ("0 " ++ y) i m n) ≡ edge_key (plain_edge (x ++ " 0") y i k l)
unfolding edge_key print
edge_key_collides x y i m n k l =
    ap (λ t. x ++ (" " ++ ("0" ++ (" " ++ t))))
      (append_assoc "0 " y (" " ++ print i) ∙ append_assoc "0" " " rest)
    ∙ ap (λ t. x ++ t) (sym (append_assoc " " "0" tail))
    ∙ sym (append_assoc x " 0" tail)
  where
    rest : String
    rest = y ++ (" " ++ print i)

    tail : String
    tail = " " ++ ("0" ++ (" " ++ rest))
