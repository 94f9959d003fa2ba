-- ===== src/Compiler/Analysis/Connections/Guards.antt =====
-- The guards of connections.ts: which connections the loop lets pass, and which error the others give.
use n8n_libpetri.Prelude.{
  ℕ, ◌≤◌, ◌<◌, ◌≡◌, refl, ap, ◌∙◌, ◌⊎◌, inl, inr, Bool-cases, Option-cases, none, some, List, [],
  ◌∷◌, ◌++◌, String, string_eq, ltb, if◌then◌else◌, arith,
}
use n8n_libpetri.Prelude.Sets.{has}
use n8n_libpetri.Prelude.Maps
use n8n_libpetri.Prelude.Predicates.{All}
use n8n_libpetri.Prelude.Sort.{sort}
use n8n_libpetri.Prelude.Results.{Result, ok, err, ◌>>=◌}
use n8n_libpetri.Compiler.Errors.{
  CompileErrorCode, unknown_connection_node, output_index_out_of_range, input_index_out_of_range,
}
use n8n_libpetri.Compiler.Types.{Num, nat, negative, fractional, MainConnection, RawNode}
use n8n_libpetri.Compiler.Analysis.Connections.{
  RawEdge, index_below, edge_of, edge_key, edge_le, collect_edges, canonicalise_connections,
}

module _ (nodes : List (String × RawNode)) where
  -- The ends of a connection are nodes.
  abbrev pub Joins : MainConnection → RawNode → RawNode → Type 0
  Joins c r s = (Maps.get nodes c.from ≡ some r) × (Maps.get nodes c.to ≡ some s)

  -- Both ends are nodes, and the indexes are natural numbers below the numbers of their ports.
  abbrev pub IsAdmissible : MainConnection → Type 0
  IsAdmissible c =
      (r s : RawNode) × (o i : ℕ) × Joins c r s
      × (c.output_index ≡ nat o)
      × (o < r.output_count)
      × (c.input_index ≡ nat i)
      × (i < s.shape.input_count)

  -- What is wrong with a connection that is refused with the code: first an end that is no node, then
  -- the output, then the input.
  abbrev pub HasFault : MainConnection → CompileErrorCode → Type 0
  HasFault c unknown_connection_node = (Maps.get nodes c.from ≡ none) ⊎ (Maps.get nodes c.to ≡ none)
  HasFault c output_index_out_of_range =
      (r s : RawNode) × Joins c r s × ((o : ℕ) → c.output_index ≡ nat o → r.output_count ≤ o)
  HasFault c input_index_out_of_range =
      (r s : RawNode) × (o : ℕ) × Joins c r s
      × (c.output_index ≡ nat o)
      × (o < r.output_count)
      × ((i : ℕ) → c.input_index ≡ nat i → s.shape.input_count ≤ i)
  HasFault c _ = ⊥

  index-judged :
      (v : Num) (n : ℕ) (x : CompileErrorCode)
      → ((o : ℕ) × (v ≡ nat o) × (o < n) × (index_below v n x ≡ ok o))
        ⊎ ((index_below v n x ≡ err x) × ((o : ℕ) → v ≡ nat o → n ≤ o))
  index-judged (nat i) n x = elim (Bool-cases (ltb i n)) [
    | inl t ↦ inl (i, refl, ground (arith, t), rw t refl)
    | inr f ↦ inr (rw f refl, λ o e. ground (arith, f, e))
  ]
  index-judged (negative i) n x = inr (refl, λ o e. cc e)
  index-judged (fractional s) n x = inr (refl, λ o e. cc e)

  edge_of-judged :
      (c : MainConnection)
      → (IsAdmissible c × (e : RawEdge) × (edge_of nodes c ≡ ok e))
        ⊎ ((x : CompileErrorCode) × (edge_of nodes c ≡ err x) × HasFault c x)
  unfolding edge_of
  edge_of-judged c = elim (Option-cases (Maps.get nodes c.from)) [
    | inl none_from ↦ inr (unknown_connection_node, rw none_from refl, inl none_from)
    | inr (r, from) ↦ elim (Option-cases (Maps.get nodes c.to)) [
      | inl none_to ↦ inr (unknown_connection_node, rw (from, none_to) refl, inr none_to)
      | inr (s, to) ↦ elim (index-judged c.output_index r.output_count output_index_out_of_range) [
        | inr (bad, far) ↦
            inr (output_index_out_of_range, rw (from, to, bad) refl, (r, s, (from, to), far))
        | inl (o, out, small, good) ↦
            elim (index-judged c.input_index s.shape.input_count input_index_out_of_range) [
              | inr (bad, far) ↦ inr (
                input_index_out_of_range,
                rw (from, to, good, bad) refl,
                (r, s, o, (from, to), out, small, far),
              )
              | inl (i, inp, below, fine) ↦ inl (
                (r, s, o, i, (from, to), out, small, inp, below),
                record {
                  from = c.from;
                  output_index = o;
                  to = c.to;
                  input_index = i;
                  from_index = r.index;
                  to_index = s.index;
                },
                rw (from, to, good, fine) refl,
              )
            ]
      ]
    ]
  ]

  -- The outcome of the loop: the error of the first connection that is refused, or edges.
  abbrev Judged : List String → List MainConnection → Type 0
  Judged seen cs =
      ((x : CompileErrorCode) × (before after : List MainConnection) × (c : MainConnection)
        × (collect_edges nodes seen cs ≡ err x)
        × (cs ≡ (before ++ c ∷ after))
        × All IsAdmissible before
        × HasFault c x)
      ⊎ ((es : List RawEdge) × (collect_edges nodes seen cs ≡ ok es) × All IsAdmissible cs)

  next_edges : List String → List MainConnection → RawEdge → Result CompileErrorCode (List RawEdge)
  next_edges seen cs e = do
    rest ← collect_edges nodes (edge_key e ∷ seen) cs
    ok (if has seen (edge_key e) then rest else e ∷ rest)

  collect-step :
      (seen : List String) (c : MainConnection) (cs : List MainConnection)
      → collect_edges nodes seen (c ∷ cs) ≡ (edge_of nodes c >>= next_edges seen cs)
  unfolding collect_edges next_edges
  collect-step seen c cs = refl

  collect-Judged : (cs : List MainConnection) (seen : List String) → Judged seen cs
  unfolding collect_edges next_edges
  collect-Judged [] seen = inr ([], refl, tt)
  collect-Judged (c ∷ cs) seen = elim (edge_of-judged c) [
    | inr (x, bad, fault) ↦
        inl (x, [], cs, c, ap (λ m. m >>= next_edges seen cs) bad, refl, tt, fault)
    | inl (fit, e, made) ↦
        let step = ap (λ m. m >>= next_edges seen cs) made in
        elim (collect-Judged cs (edge_key e ∷ seen)) [
          | inl (x, before, after, d, bad, split, fits, fault) ↦ inl (
            x,
            c ∷ before,
            after,
            d,
            step
                ∙ ap
                    (λ (m : Result CompileErrorCode (List RawEdge)).
                      m >>= λ rest. ok (if has seen (edge_key e) then rest else e ∷ rest))
                    bad,
            ap (λ l. c ∷ l) split,
            (fit, fits),
            fault,
          )
          | inr (rest, built, fits) ↦ inr (
            if has seen (edge_key e) then rest else e ∷ rest,
            step
                ∙ ap
                    (λ (m : Result CompileErrorCode (List RawEdge)).
                      m >>= λ later. ok (if has seen (edge_key e) then later else e ∷ later))
                    built,
            (fit, fits),
          )
        ]
  ]

  -- The error of the first connection that is refused, or edges of connections that all pass.
  abbrev pub Verdict : List MainConnection → Type 0
  Verdict cs =
      ((x : CompileErrorCode) × (before after : List MainConnection) × (c : MainConnection)
        × (canonicalise_connections nodes cs ≡ err x)
        × (cs ≡ (before ++ c ∷ after))
        × All IsAdmissible before
        × HasFault c x)
      ⊎ ((es : List RawEdge) × (canonicalise_connections nodes cs ≡ ok es) × All IsAdmissible cs)

  -- When both ends of every connection are nodes and its indexes are natural numbers below the
  -- numbers of their ports, `canonicaliseConnections` returns edges, and else the error of the
  -- first connection for which this fails: that an end is no node, else that the output index is
  -- not such a number, else that the input index is not.
  pub canonicalise_connections_refuses : (cs : List MainConnection) → Verdict cs
  unfolding canonicalise_connections
  canonicalise_connections_refuses cs = elim (collect-Judged cs []) [
    | inl (x, before, after, c, bad, split, fits, fault) ↦
        inl (
          x,
          before,
          after,
          c,
          ap (λ m. m >>= λ raw. ok (sort edge_le raw)) bad,
          split,
          fits,
          fault,
        )
    | inr (raw, built, fits) ↦
        inr (sort edge_le raw, ap (λ m. m >>= λ es. ok (sort edge_le es)) built, fits)
  ]
