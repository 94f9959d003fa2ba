-- ===== src/Compiler/Compile/Occupancy.antt =====
-- How many nodes of the composed net are under way at once: the tokens of the gadgets that stand for
-- one budget unit, and the output markers of gadget/outputs.ts, which share one unit per node.
use n8n_libpetri.Prelude.{
  keep, ℕ, suc, ◌+◌, ◌*◌, ◌≤◌, ◌≡◌, refl, sym, ap, ◌∙◌, Bool, true, false, ◌&&◌, List, [], ◌∷◌,
  length, String, string_eq, ◌==◌, Bool-cases, inl, inr, arith,
}
use Prim.Native.Nat.{◌/◌}
use native.Mathlib.Nat.{le_of_mul-le-mul_right, div-mul-le_self, mul-le-mul_right, mul_assoc}
use mathlib.Core.List.{Memᴰ}
use n8n_libpetri.Prelude.Sets.{has, IsNodup}
use n8n_libpetri.Prelude.Predicates.{All}
use n8n_libpetri.Prelude.Results.{ok}
use n8n_libpetri.Compiler.Gadget.Net.{Place, ok_at, routed_at}
use n8n_libpetri.Compiler.Gadget.Weights.{weight}
use n8n_libpetri.Compiler.Compile.{NetPlace, owned}
use n8n_libpetri.Compiler.Compile.EdgePlaces.{NetNode}
use n8n_libpetri.Compiler.Compile.Compose.{NodeBuild, compose_net}
use n8n_libpetri.Compiler.Compile.Marking.{Marking, shared_marking_of, initial_marking_of}
use n8n_libpetri.Compiler.Compile.Game.{TokenGame, Run, tokens_of}
use n8n_libpetri.Compiler.Compile.Kept.{NetWeights, net_weight, net_total}
use n8n_libpetri.Compiler.Compile.Budget.{
  budget_weights, holds_budget, is_under_way, is_under_way-weight, compose_net-Budget,
}
use n8n_libpetri.Compiler.Compile.Shares.{
  InRange, node_ids, outlets, unit_of, unit_of-pos, share_of, share_of-unit, shared_out-AllFair,
}

-- The marker of one output under the routing per output: its outcome waits, or is delivered.
abbrev pub is_marker : Place → Bool
is_marker (ok_at o) = true
is_marker (routed_at o) = true
is_marker _ = false

abbrev pub is_marker_of : String → NetPlace → Bool
is_marker_of id (owned j p) = is_marker p && j == id
is_marker_of id _ = false

abbrev pub markers_of : List NetPlace → String → ℕ
markers_of ps id = length (keep (is_marker_of id) ps)

-- The outcomes that nodes route per output: a node writes a marker for each output that an edge
-- leaves, so each complete set of them is one outcome.
abbrev pub split_outcomes : List NetPlace → List NetNode → ℕ
split_outcomes ps [] = 0
split_outcomes ps (a ∷ as') = markers_of ps a.id / outlets a + split_outcomes ps as'

module _ (share : String → ℕ) where
  -- What the markers of these nodes weigh.
  abbrev marked : List NetNode → List NetPlace → ℕ
  marked [] ps = 0
  marked (a ∷ as') ps = markers_of ps a.id * share a.id + marked as' ps

  absent-marked :
      (as' : List NetNode) (j : String) (q : Place) (ps : List NetPlace)
      → has (node_ids as') j ≡ false
      → marked as' (owned j q ∷ ps) ≡ marked as' ps
  absent-marked [] j q ps h = refl
  absent-marked (a ∷ as') j q ps h = elim (Bool-cases (is_marker q && j == a.id)) [
    | inl t ↦ ground (arith, h, t, string_eq.beq_iff j a.id, string_eq.beq_iff a.id j)
    | inr f ↦ rw f (
        ap (λ n. markers_of ps a.id * share a.id + n)
          (absent-marked as' j q ps (ground (arith, h))))
  ]

  unmarked :
      (as' : List NetNode) (p : NetPlace) (ps : List NetPlace)
      → ((id : String) → is_marker_of id p ≡ false)
      → marked as' (p ∷ ps) ≡ marked as' ps
  unmarked [] p ps h = refl
  unmarked (a ∷ as') p ps h =
      rw (h a.id) (ap (λ n. markers_of ps a.id * share a.id + n) (unmarked as' p ps h))

  nothing-marked : (as' : List NetNode) → marked as' [] ≡ 0
  nothing-marked [] = refl
  nothing-marked (a ∷ as') = omega (arith, nothing-marked as')

  -- One marker weighs at most the share of its node, since ids are distinct.
  marker-marked :
      (as' : List NetNode) (j : String) (q : Place) (ps : List NetPlace)
      → IsNodup (node_ids as')
      → marked as' (owned j q ∷ ps) ≤ share j + marked as' ps
  marker-marked [] j q ps u = omega arith
  marker-marked (a ∷ as') j q ps u = elim (Bool-cases (is_marker q && j == a.id)) [
    | inl t ↦
        let differ = absent-marked as' j q ps (ground (arith, u.0, t, string_eq.beq_iff j a.id)) in
        let same : share j ≡ share a.id =
          ap share ((string_eq.beq_iff j a.id).0 (ground (arith, t))) in
        rw t (grind (arith, differ, same))
    | inr f ↦ rw f (omega (arith, marker-marked as' j q ps u.1))
  ]

  -- The nodes under way and the markers of the split nodes weigh no more than the whole marking.
  module _ (unit : ℕ) (as' : List NetNode) where
    abbrev weights : NetWeights
    weights = budget_weights unit share

    marker-weight :
        (j : String) (q : Place) → is_marker q ≡ true → net_weight weights (owned j q) ≡ share j
    unfolding net_weight weight
    marker-weight j (ok_at o) h = refl
    marker-weight j (routed_at o) h = refl
    marker-weight j _ h = cc

    marker-unfunded : (q : Place) → is_marker q ≡ true → holds_budget q ≡ false
    marker-unfunded (ok_at o) h = refl
    marker-unfunded (routed_at o) h = refl
    marker-unfunded _ h = cc

    occupied-marker :
        (j : String) (q : Place) (ps : List NetPlace)
        → IsNodup (node_ids as')
        → is_marker q ≡ true
        → length (keep is_under_way ps) * unit + marked as' ps ≤ net_total weights ps
        → length (keep is_under_way (owned j q ∷ ps)) * unit + marked as' (owned j q ∷ ps)
          ≤ net_total weights (owned j q ∷ ps)
    occupied-marker j q ps u t h =
        rw (marker-unfunded q t) (omega (arith, marker-marked as' j q ps u, marker-weight j q t, h))

    occupied-other :
        (p : NetPlace) (ps : List NetPlace)
        → ((id : String) → is_marker_of id p ≡ false)
        → length (keep is_under_way ps) * unit + marked as' ps ≤ net_total weights ps
        → length (keep is_under_way (p ∷ ps)) * unit + marked as' (p ∷ ps)
          ≤ net_total weights (p ∷ ps)
    occupied-other p ps n h = elim (Bool-cases (is_under_way p)) [
      | inl t ↦
          let heavy : net_weight weights p ≡ unit = is_under_way-weight unit share p t in
          rw t (by (length (keep is_under_way ps)) heavy (unmarked as' p ps n) h)
      | inr f ↦ rw f (omega (arith, unmarked as' p ps n, h))
    ]
      where
        by :
            (n : ℕ) {v m m' r : ℕ}
            → v ≡ unit
            → m' ≡ m
            → n * unit + m ≤ r
            → suc n * unit + m' ≤ v + r
        by n e f h = grind (arith, e, f, h)

    occupied-total :
        (ps : List NetPlace)
        → IsNodup (node_ids as')
        → length (keep is_under_way ps) * unit + marked as' ps ≤ net_total weights ps
    occupied-total [] u = omega (arith, nothing-marked as')
    occupied-total (owned j q ∷ ps) u = elim (Bool-cases (is_marker q)) [
      | inl t ↦ occupied-marker j q ps u t (occupied-total ps u)
      | inr f ↦ occupied-other (owned j q) ps (λ id. ground (arith, f)) (occupied-total ps u)
    ]
    occupied-total (p ∷ ps) u = occupied-other p ps (λ id. refl) (occupied-total ps u)

-- Each complete set of markers weighs a unit.
split_outcomes-weight :
    (share : String → ℕ) (unit : ℕ) (ps : List NetPlace) (as' : List NetNode)
    → All (λ a. unit ≡ outlets a * share a.id) as'
    → split_outcomes ps as' * unit ≤ marked share as' ps
split_outcomes-weight share unit ps [] h = omega arith
split_outcomes-weight share unit ps (a ∷ as') h =
    by (markers_of ps a.id / outlets a) (outlets a) (share a.id) (split_outcomes ps as')
      (div-mul-le_self (markers_of ps a.id) (outlets a)) h.0
      (split_outcomes-weight share unit ps as' h.1)
  where
    by :
        (q c s n : ℕ) {m r : ℕ}
        → q * c ≤ m
        → unit ≡ c * s
        → n * unit ≤ r
        → (q + n) * unit ≤ m * s + r
    by q c s n l e h' =
        let exact = ap (λ x. q * x) e ∙ sym (mul_assoc q c s) in
        grind (arith, mul-le-mul_right s l, exact, h')

-- In every marking that a run of the composed net reaches from its initial marking, the tokens at the
-- places running, retry, failed, timed-out, routed and routed-request of the nodes, and for each node
-- the complete sets of markers of the outputs that an edge leaves, waiting or delivered, are together
-- no more than the effective budget, where the ids of the nodes are distinct and each edge leaves an
-- output that its node has.
pub compose_net-Concurrency :
    (game : TokenGame) (nodes : List NetNode) (bs : List NodeBuild) (seeded : List String) (k : ℕ)
    (b : NodeBuild) (shared start : Marking) (after : List NetPlace)
    → IsNodup (node_ids nodes)
    → All InRange nodes
    → compose_net nodes ≡ ok bs
    → Memᴰ b bs
    → shared_marking_of bs seeded k ≡ ok shared
    → initial_marking_of shared b ≡ ok start
    → Run game bs (tokens_of start) after
    → length (keep is_under_way after) + split_outcomes after nodes ≤ k
compose_net-Concurrency game nodes bs seeded k b shared start after u r h m e₁ e₂ run =
    let unit = unit_of nodes in
    let share = share_of nodes in
    let whole =
      compose_net-Budget unit share game nodes bs seeded k b shared start after h
        (shared_out-AllFair nodes u r) m e₁ e₂ run in
    let sets = split_outcomes-weight share unit after nodes (share_of-unit nodes u) in
    let all = occupied-total share unit nodes after u in
    le_of_mul-le-mul_right
      (weighed unit (length (keep is_under_way after)) (split_outcomes after nodes) sets all whole)
      (unit_of-pos nodes)
  where
    weighed :
        (unit n o : ℕ) {c w v : ℕ} → o * unit ≤ c → n * unit + c ≤ w → w ≡ v → (n + o) * unit ≤ v
    weighed unit n o h h' e = grind (arith, h, h', e)
