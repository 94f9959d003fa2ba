-- ===== src/Compiler/Analysis/Connections/Canonical.antt =====
-- What the canonical edges are, and which connection of several with one key they keep.
use n8n_libpetri.Prelude.{
  ◌≡◌, refl, sym, ap, ◌∙◌, subst, ◌++◌, ◌==◌, inl, inr, true, false, ◌||◌, List, [], ◌∷◌, String,
  string_eq, if◌then◌else◌, arith, Bool-cases,
}
use n8n_libpetri.Prelude.Sets.{has, IsNodup}
use n8n_libpetri.Prelude.Maps.{map_keys}
use n8n_libpetri.Prelude.Predicates.{All, if-keeps}
use n8n_libpetri.Prelude.Sort.{
  sort, IsSorted, sort-IsSorted, All-sort, has-keys-sort, IsNodup-keys-sort,
}
use n8n_libpetri.Prelude.Results.{ok, ◌>>=◌, >>=-eq-ok, ok-injective}
use n8n_libpetri.Compiler.Types.{MainConnection, RawNode}
use n8n_libpetri.Compiler.Analysis.Connections.{
  RawEdge, edge_of, edge_key, edge_le, collect_edges, canonicalise_connections,
}
use mathlib.Core.List.{Memᴰ}
use mathlib.Core.List.Memᴰ

edge_le_total : (x y : RawEdge) → edge_le x y ≡ false → edge_le y x ≡ true
edge_le_total x y h = ground arith

edge_le_trans : (x y z : RawEdge) → edge_le x y ≡ true → edge_le y z ≡ true → edge_le x z ≡ true
edge_le_trans x y z h k = ground arith

module _ (nodes : List (String × RawNode)) where
  -- `e` is the edge of some connection of `cs`.
  abbrev pub Comes : List MainConnection → RawEdge → Type 0
  Comes cs e = (c : MainConnection) × Memᴰ c cs × (edge_of nodes c ≡ ok e)

  -- The parts of a loop that ends well.
  abbrev Parts : List String → MainConnection → List MainConnection → List RawEdge → Type 0
  Parts seen c cs es =
      (e : RawEdge) × (rest : List RawEdge) × (edge_of nodes c ≡ ok e)
      × (collect_edges nodes (edge_key e ∷ seen) cs ≡ ok rest)
      × ((if has seen (edge_key e) then rest else e ∷ rest) ≡ es)

  parts :
      (seen : List String) (c : MainConnection) (cs : List MainConnection) (es : List RawEdge)
      → collect_edges nodes seen (c ∷ cs) ≡ ok es
      → Parts seen c cs es
  unfolding collect_edges
  parts seen c cs es h =
      let (e, p, h') =
        >>=-eq-ok (edge_of nodes c)
          (λ e. collect_edges nodes (edge_key e ∷ seen) cs >>= λ rest.
            ok (if has seen (edge_key e) then rest else e ∷ rest))
          h in
      let (rest, q, h'') =
        >>=-eq-ok (collect_edges nodes (edge_key e ∷ seen) cs)
          (λ rest. ok (if has seen (edge_key e) then rest else e ∷ rest)) h' in
      (e, rest, p, q, ground arith)

  collect-nil :
      (seen : List String) (es : List RawEdge) → collect_edges nodes seen [] ≡ ok es → [] ≡ es
  unfolding collect_edges
  collect-nil seen es h = cc

  All-weaken :
      (c : MainConnection) (cs : List MainConnection) (es : List RawEdge)
      → All (Comes cs) es
      → All (Comes (c ∷ cs)) es
  All-weaken c cs [] a = tt
  All-weaken c cs (e ∷ es) ((d, m, p), a) = ((d, Memᴰ.tail m, p), All-weaken c cs es a)

  collect_sound :
      (cs : List MainConnection) (seen : List String) (es : List RawEdge)
      → collect_edges nodes seen cs ≡ ok es
      → All (Comes cs) es
  collect_sound [] seen es h = subst (All (Comes [])) (collect-nil seen es h) tt
  collect_sound (c ∷ cs) seen es h =
      let (e, rest, p, q, r) = parts seen c cs es h in
      let later = All-weaken c cs rest (collect_sound cs (edge_key e ∷ seen) rest q) in
      elim (Bool-cases (has seen (edge_key e))) [
        | inl old ↦ subst (All (Comes (c ∷ cs))) (rw old at r) later
        | inr new ↦ subst (All (Comes (c ∷ cs))) (rw new at r) ((c, Memᴰ.head refl, p), later)
      ]

  -- The keys are distinct, and none was seen before.
  collect-keys :
      (cs : List MainConnection) (seen : List String) (es : List RawEdge)
      → collect_edges nodes seen cs ≡ ok es
      → IsNodup (map_keys edge_key es)
        × ((k : String) → has seen k ≡ true → has (map_keys edge_key es) k ≡ false)
  collect-keys [] seen es h =
      subst
        (λ l.
          IsNodup (map_keys edge_key l)
          × ((k : String) → has seen k ≡ true → has (map_keys edge_key l) k ≡ false))
        (collect-nil seen es h) (tt, λ k m. refl)
  collect-keys (c ∷ cs) seen es h =
      let (e, rest, p, q, r) = parts seen c cs es h in
      let (u, fresh) = collect-keys cs (edge_key e ∷ seen) rest q in
      let Holds : List RawEdge → Type 0 = λ l.
        IsNodup (map_keys edge_key l)
        × ((k : String) → has seen k ≡ true → has (map_keys edge_key l) k ≡ false) in
      elim (Bool-cases (has seen (edge_key e))) [
        | inl old ↦ subst Holds (rw old at r) (u, λ k m. fresh k (ground arith))
        | inr new ↦ subst Holds (rw new at r) (
          (fresh (edge_key e) (ground (arith, string_eq.beq_iff (edge_key e) (edge_key e))), u),
          λ k m. ground (arith, fresh k (ground arith), string_eq.beq_iff (edge_key e) k, new, m),
        )
      ]

  collect_complete :
      (cs : List MainConnection) (seen : List String) (es : List RawEdge)
      → collect_edges nodes seen cs ≡ ok es
      → (e : RawEdge) → Comes cs e
      → (has seen (edge_key e) || has (map_keys edge_key es) (edge_key e)) ≡ true
  collect_complete [] seen es h e (c, m, p) = absurd (Memᴰ.not-nil m)
  collect_complete (c ∷ cs) seen es h e (d, m, p) =
      let (e', rest, p', q, r) = parts seen c cs es h in
      elim (Memᴰ.cases_cons m) [
        | inl same ↦
            let same_edge : e' ≡ e = cc (p, p', same) in
            ground (arith, r, same_edge, string_eq.beq_iff (edge_key e') (edge_key e))
        | inr later ↦ ground (
          arith,
          r,
          string_eq.beq_iff (edge_key e') (edge_key e),
          collect_complete cs (edge_key e' ∷ seen) rest q e (d, later, p),
        )
      ]

  -- A key that was not seen goes with the edge of the first connection that has it.
  collect-first :
      (before after : List MainConnection) (c : MainConnection) (seen : List String) (e : RawEdge)
      (es : List RawEdge)
      → edge_of nodes c ≡ ok e
      → has seen (edge_key e) ≡ false
      → ((f : RawEdge) → Comes before f → (edge_key f == edge_key e) ≡ false)
      → collect_edges nodes seen (before ++ c ∷ after) ≡ ok es
      → (has (map_keys edge_key es) (edge_key e) ≡ true)
        × All (λ f. (edge_key f == edge_key e) ≡ true → f ≡ e) es
  collect-first [] after c seen e es made new others h =
      let (e', rest, p, q, r) = parts seen c after es h in
      let same : e' ≡ e = ok-injective (sym p ∙ made) in
      let (u, fresh) = collect-keys after (edge_key e' ∷ seen) rest q in
      let key : edge_key e' ≡ edge_key e = ap edge_key same in
      let gone =
        fresh (edge_key e) (ground (arith, (string_eq.beq_iff (edge_key e') (edge_key e)).1 key)) in
      let kept = rw (ap (has seen) key ∙ new) at r in
      subst
        (λ l.
          (has (map_keys edge_key l) (edge_key e) ≡ true)
          × All (λ f. (edge_key f == edge_key e) ≡ true → f ≡ e) l)
        kept
        (
          ground (arith, (string_eq.beq_iff (edge_key e') (edge_key e)).1 key),
          ((λ t. same), absent rest gone),
        )
    where
      absent :
          (fs : List RawEdge)
          → has (map_keys edge_key fs) (edge_key e) ≡ false
          → All (λ f. (edge_key f == edge_key e) ≡ true → f ≡ e) fs
      absent [] n = tt
      absent (f ∷ fs) n = ((λ t. absurd (ground (arith, n, t))), absent fs (ground (arith, n)))
  collect-first (b ∷ before) after c seen e es made new others h =
      let (e', rest, p, q, r) = parts seen b (before ++ c ∷ after) es h in
      let apart = others e' (b, Memᴰ.head refl, p) in
      let (there, only) =
        collect-first before after c (edge_key e' ∷ seen) e rest made (ground (arith, apart, new))
          (λ f (d, m, s). others f (d, Memᴰ.tail m, s)) q in
      subst
        (λ l.
          (has (map_keys edge_key l) (edge_key e) ≡ true)
          × All (λ f. (edge_key f == edge_key e) ≡ true → f ≡ e) l)
        r
        (if-keeps
          (λ (l : List RawEdge).
            (has (map_keys edge_key l) (edge_key e) ≡ true)
            × All (λ f. (edge_key f == edge_key e) ≡ true → f ≡ e) l)
          (has seen (edge_key e')) rest (e' ∷ rest) (there, only)
          (ground (arith, apart, there), ((λ t. absurd (ground (arith, apart, t))), only)))

  -- What the canonical edges of `cs` are.
  pub record IsCanonical (cs : List MainConnection) (es : List RawEdge) : Type 0 where
    -- Each is the edge of a connection that passed the guards.
    pub sound : All (Comes cs) es
    -- They stand in canonical order.
    pub sorted : IsSorted edge_le es
    -- Their keys are distinct.
    pub distinct : IsNodup (map_keys edge_key es)
    -- Each connection's key is there.
    pub complete : (e : RawEdge) → Comes cs e → has (map_keys edge_key es) (edge_key e) ≡ true

  -- The edges that `canonicaliseConnections` returns are edges of the given connections, in
  -- canonical order, with distinct keys, and hold one for the key of each connection.
  pub canonicalise_connections-IsCanonical :
      (cs : List MainConnection) (es : List RawEdge)
      → canonicalise_connections nodes cs ≡ ok es
      → IsCanonical cs es
  unfolding canonicalise_connections
  canonicalise_connections-IsCanonical cs es h =
      let (raw, p, q) = >>=-eq-ok (collect_edges nodes [] cs) (λ raw. ok (sort edge_le raw)) h in
      let made : sort edge_le raw ≡ es = ground arith in
      subst (IsCanonical cs) made (record {
        sound = All-sort edge_le (Comes cs) raw (collect_sound cs [] raw p);
        sorted = sort-IsSorted edge_le edge_le_total edge_le_trans raw;
        distinct = IsNodup-keys-sort edge_le edge_key raw (collect-keys cs [] raw p).0;
        complete = λ e m.
            has-keys-sort edge_le edge_key raw (edge_key e) ∙ collect_complete cs [] raw p e m;
      })

  -- Of the connections with one key, the edge of the first one is among the edges that
  -- `canonicaliseConnections` returns, and no other edge with this key is.
  pub canonicalise_connections_keeps_first :
      (before after : List MainConnection) (c : MainConnection) (e : RawEdge) (es : List RawEdge)
      → edge_of nodes c ≡ ok e
      → ((f : RawEdge) → Comes before f → (edge_key f == edge_key e) ≡ false)
      → canonicalise_connections nodes (before ++ c ∷ after) ≡ ok es
      → (has (map_keys edge_key es) (edge_key e) ≡ true)
        × All (λ f. (edge_key f == edge_key e) ≡ true → f ≡ e) es
  unfolding canonicalise_connections
  canonicalise_connections_keeps_first before after c e es made others h =
      let (raw, p, q) =
        >>=-eq-ok (collect_edges nodes [] (before ++ c ∷ after)) (λ raw. ok (sort edge_le raw)) h in
      let (there, only) = collect-first before after c [] e raw made refl others p in
      let Holds : List RawEdge → Type 0 = λ l.
        (has (map_keys edge_key l) (edge_key e) ≡ true)
        × All (λ f. (edge_key f == edge_key e) ≡ true → f ≡ e) l in
      subst Holds (ok-injective q) (
        has-keys-sort edge_le edge_key raw (edge_key e) ∙ there,
        All-sort edge_le (λ f. (edge_key f == edge_key e) ≡ true → f ≡ e) raw only,
      )
