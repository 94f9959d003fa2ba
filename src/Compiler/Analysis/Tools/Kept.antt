-- ===== src/Compiler/Analysis/Tools/Kept.antt =====
-- Which tool connections are kept.
use n8n_libpetri.Prelude.{
  ◌≡◌, refl, sym, ◌∙◌, ap, subst, ◌⊎◌, inl, inr, true, false, ◌||◌, List, [], ◌∷◌, map, String,
  string_eq, ◌==◌, if◌then◌else◌, arith, Bool-cases,
}
use mathlib.Core.List.{Memᴰ}
use mathlib.Core.List.Memᴰ
use n8n_libpetri.Prelude.Sets.{has, IsNodup}
use n8n_libpetri.Prelude.Maps
use n8n_libpetri.Prelude.Maps.{map_keys}
use n8n_libpetri.Prelude.Predicates.{All}
use n8n_libpetri.Prelude.Sort.{sort, All-sort, IsNodup-keys-sort, has-keys-sort}
use n8n_libpetri.Prelude.Results.{ok, >>=-eq-ok}
use n8n_libpetri.Compiler.Types.{ToolConnection, RawNode}
use n8n_libpetri.Compiler.Analysis.Connections.{RawEdge}
use n8n_libpetri.Compiler.Analysis.Tools.{
  ToolWiring, KeyedTool, tool_key, known_tool, has_producer, is_dropped, keyed, collect_tools,
  plain_tool, tool_le, check_consumers, tools_with_consumers, finish_wiring, wire_tools,
}

-- The key of a connection with its indexes.
abbrev key_of : KeyedTool → String
key_of k = tool_key (plain_tool k)

module _ (nodes : List (String × RawNode)) (raw : List RawEdge) where
  -- One turn of the loop: a connection that is dropped, or one that is kept.
  turn :
      (seen : List String) (c : ToolConnection) (cs : List ToolConnection) (ks : List KeyedTool)
      → collect_tools nodes raw seen (c ∷ cs) ≡ ok ks
      → ((is_dropped raw seen c ≡ true) × (collect_tools nodes raw seen cs ≡ ok ks))
        ⊎ ((is_dropped raw seen c ≡ false)
            × (agent : RawNode) × (tool : RawNode) × (rest : List KeyedTool) × (collect_tools nodes
                  raw
                  (tool_key c ∷ seen)
                  cs
                ≡ ok rest)
            × (keyed c agent tool ∷ rest ≡ ks))
  unfolding collect_tools
  turn seen c cs ks h =
      let (agent, p, after_agent) = >>=-eq-ok (known_tool (Maps.get nodes c.agent)) _ h in
      let (tool, q, after_tool) = >>=-eq-ok (known_tool (Maps.get nodes c.tool)) _ after_agent in
      let (rest, r, last) =
        >>=-eq-ok
          (collect_tools nodes raw (if is_dropped raw seen c then seen else tool_key c ∷ seen) cs) _
          after_tool in
      elim (Bool-cases (is_dropped raw seen c)) [
        | inl dropped ↦
            let same : rest ≡ ks = ground (arith, dropped, last) in
            inl
              (dropped, subst (λ x. collect_tools nodes raw seen cs ≡ ok x) same (rw dropped at r))
        | inr kept ↦ inr (kept, agent, tool, rest, rw kept at r, ground (arith, kept, last))
      ]

  -- A kept connection is a given one, wires no node to itself, and its tool has no main producer.
  abbrev pub IsKept : List ToolConnection → ToolConnection → Type 0
  IsKept cs c = Memᴰ c cs × ((c.agent == c.tool) ≡ false) × (has_producer raw c.tool ≡ false)

  later-IsKept :
      (c : ToolConnection) (cs : List ToolConnection) (ks : List KeyedTool)
      → All (λ k. IsKept cs (plain_tool k)) ks
      → All (λ k. IsKept (c ∷ cs) (plain_tool k)) ks
  later-IsKept c cs [] h = tt
  later-IsKept c cs (k ∷ ks) ((m, other, fed), hs) =
      ((Memᴰ.tail m, other, fed), later-IsKept c cs ks hs)

  collect_tools-IsKept :
      (cs : List ToolConnection) (seen : List String) (ks : List KeyedTool)
      → collect_tools nodes raw seen cs ≡ ok ks
      → All (λ k. IsKept cs (plain_tool k)) ks
  unfolding collect_tools is_dropped
  collect_tools-IsKept [] seen ks h =
      let same : [] ≡ ks = cc in subst (All (λ k. IsKept [] (plain_tool k))) same tt
  collect_tools-IsKept (c ∷ cs) seen ks h = elim (turn seen c cs ks h) [
    | inl (dropped, later) ↦ later-IsKept c cs ks (collect_tools-IsKept cs seen ks later)
    | inr (kept, agent, tool, rest, later, same) ↦
        subst (All (λ k. IsKept (c ∷ cs) (plain_tool k))) same (
          (Memᴰ.head refl, ground (arith, kept), ground (arith, kept)),
          later-IsKept c cs rest (collect_tools-IsKept cs (tool_key c ∷ seen) rest later),
        )
  ]

  -- The keys are new and distinct.
  collect_tools-distinct :
      (cs : List ToolConnection) (seen : List String) (ks : List KeyedTool)
      → collect_tools nodes raw seen cs ≡ ok ks
      → IsNodup (map_keys key_of ks)
        × ((j : String) → has seen j ≡ true → has (map_keys key_of ks) j ≡ false)
  unfolding collect_tools is_dropped
  collect_tools-distinct [] seen ks h =
      let same : [] ≡ ks = cc in
      subst
        (λ xs.
          IsNodup (map_keys key_of xs)
          × ((j : String) → has seen j ≡ true → has (map_keys key_of xs) j ≡ false))
        same (tt, λ j m. refl)
  collect_tools-distinct (c ∷ cs) seen ks h = elim (turn seen c cs ks h) [
    | inl (dropped, later) ↦ collect_tools-distinct cs seen ks later
    | inr (kept, agent, tool, rest, later, same) ↦
        let (distinct, fresh) = collect_tools-distinct cs (tool_key c ∷ seen) rest later in
        subst
          (λ xs.
            IsNodup (map_keys key_of xs)
            × ((j : String) → has seen j ≡ true → has (map_keys key_of xs) j ≡ false))
          same
          (
            (
              fresh (tool_key c) (ground (arith, string_eq.beq_iff (tool_key c) (tool_key c))),
              distinct,
            ),
            λ j m. ground (
              arith,
              kept,
              m,
              fresh j (ground (arith, m)),
              string_eq.beq_iff (tool_key c) j,
              ap (has seen),
            ),
          )
  ]

  -- Every connection that is wired to another node without a main producer has its key there.
  collect_tools_complete :
      (cs : List ToolConnection) (seen : List String) (ks : List KeyedTool)
      → collect_tools nodes raw seen cs ≡ ok ks
      → {c : ToolConnection} → IsKept cs c
      → (has seen (tool_key c) || has (map_keys key_of ks) (tool_key c)) ≡ true
  unfolding collect_tools is_dropped
  collect_tools_complete [] seen ks h (m, other, fed) = absurd (Memᴰ.not-nil m)
  collect_tools_complete (d ∷ cs) seen ks h {c} (m, other, fed) = elim (turn seen d cs ks h) [
    | inl (dropped, later) ↦ elim (Memᴰ.cases_cons m) [
      | inl q ↦
          subst
            (λ x.
              (x.agent == x.tool) ≡ false
              → has_producer raw x.tool ≡ false
              → (has seen (tool_key x) || has (map_keys key_of ks) (tool_key x)) ≡ true)
            (sym q) (λ o f. ground (arith, dropped, o, f)) other fed
      | inr n ↦ collect_tools_complete cs seen ks later (n, other, fed)
    ]
    | inr (kept, agent, tool, rest, later, same) ↦
        subst (λ xs. (has seen (tool_key c) || has (map_keys key_of xs) (tool_key c)) ≡ true) same
          (elim (Memᴰ.cases_cons m) [
            | inl q ↦ ground (arith, ap tool_key q, string_eq.beq_iff (tool_key d) (tool_key c))
            | inr n ↦
                ground
                  (arith, collect_tools_complete cs (tool_key d ∷ seen) rest later (n, other, fed))
          ])
  ]

-- The tool connections that are kept, in canonical order.
pub record IsToolList (raw : List RawEdge) (cs kept : List ToolConnection) : Type 0 where
  -- Each is a given one between two nodes, and its tool has no main producer.
  pub sound :
      All (λ c. Memᴰ c cs × ((c.agent == c.tool) ≡ false) × (has_producer raw c.tool ≡ false)) kept
  -- Their keys are distinct.
  pub distinct : IsNodup (map_keys tool_key kept)
  -- The key of each such connection is there.
  pub complete :
      (c : ToolConnection)
      → Memᴰ c cs
      → (c.agent == c.tool) ≡ false
      → has_producer raw c.tool ≡ false
      → has (map_keys tool_key kept) (tool_key c) ≡ true

All-map_plain :
    (P : ToolConnection → Type 0) (ks : List KeyedTool)
    → All (λ k. P (plain_tool k)) ks
    → All P (map plain_tool ks)
All-map_plain P [] h = tt
All-map_plain P (k ∷ ks) h = (h.0, All-map_plain P ks h.1)

keys_of-map : (ks : List KeyedTool) → map_keys key_of ks ≡ map_keys tool_key (map plain_tool ks)
keys_of-map [] = refl
keys_of-map (k ∷ ks) = ap (λ xs. key_of k ∷ xs) (keys_of-map ks)

collect_tools-IsToolList :
    (cs : List ToolConnection) (nodes : List (String × RawNode)) (raw : List RawEdge)
    (ks : List KeyedTool)
    → collect_tools nodes raw [] cs ≡ ok ks
    → IsToolList raw cs (map plain_tool (sort tool_le ks))
collect_tools-IsToolList cs nodes raw ks h =
    let sorted = sort tool_le ks in
    record {
      sound = All-map_plain (IsKept nodes raw cs) sorted (
          All-sort tool_le (λ k. IsKept nodes raw cs (plain_tool k)) ks
            (collect_tools-IsKept nodes raw cs [] ks h));
      distinct =
          subst IsNodup (keys_of-map sorted)
            (IsNodup-keys-sort tool_le key_of ks (collect_tools-distinct nodes raw cs [] ks h).0);
      complete = λ c m other fed.
          subst (λ xs. has xs (tool_key c) ≡ true) (keys_of-map sorted)
            (has-keys-sort tool_le key_of ks (tool_key c)
              ∙ collect_tools_complete nodes raw cs [] ks h (m, other, fed));
    }

finish_wiring-keeps :
    (raw : List RawEdge) (cs : List ToolConnection) (w : ToolWiring)
    → finish_wiring raw cs ≡ ok w
    → cs ≡ w.tool_connections
unfolding finish_wiring
finish_wiring-keeps raw cs w h =
    let (done, passed, result) =
      >>=-eq-ok (check_consumers (tools_with_consumers raw cs) raw raw) _ h in
    cc

-- The tool connections of the wiring that `wireTools` returns are given ones between two nodes whose
-- tool has no main producer, with distinct keys, and they hold one for the key of each such
-- connection.
pub wire_tools-IsToolList :
    (cs : List ToolConnection) (nodes : List (String × RawNode)) (raw : List RawEdge)
    (w : ToolWiring)
    → wire_tools cs nodes raw ≡ ok w
    → IsToolList raw cs w.tool_connections
unfolding wire_tools
wire_tools-IsToolList cs nodes raw w h =
    let (tools, collected, finished) =
      >>=-eq-ok (collect_tools nodes raw [] cs)
        (λ tools. finish_wiring raw (map plain_tool (sort tool_le tools))) h in
    subst (IsToolList raw cs)
      (finish_wiring-keeps raw (map plain_tool (sort tool_le tools)) w finished)
      (collect_tools-IsToolList cs nodes raw tools collected)
