-- ===== src/Compiler/Compile/Shares.antt =====
-- Weights for the budget of the composed net: where the ids of the nodes are distinct and each edge
-- leaves an output that its node has, as analysis/validate.ts and analysis/connections.ts see to, one
-- unit can be shared evenly by the outputs of every node at once.
use n8n_libpetri.Prelude.{
  ℕ, zero, suc, ◌+◌, ◌*◌, ◌≤◌, ◌<◌, ◌≡◌, refl, sym, ap, ◌∙◌, true, false, List, [], ◌∷◌, map, any,
  String, string_eq, nat_eq, ◌==◌, Bool-cases, inl, inr, if◌then◌else◌, arith, max,
}
use native.Mathlib.Nat.{mul_left_comm, mul-pos}
use n8n_libpetri.Prelude.Sets.{has, IsNodup}
use n8n_libpetri.Prelude.Predicates.{All}
use n8n_libpetri.Compiler.Types.{EdgeRef}
use n8n_libpetri.Compiler.Gadget.Shapes.{GadgetContext}
use n8n_libpetri.Compiler.Gadget.Outputs.{is_split}
use n8n_libpetri.Compiler.Gadget.Outlets.{connected_count}
use n8n_libpetri.Compiler.Compile.EdgePlaces.{NetNode}
use n8n_libpetri.Compiler.Compile.Kept.{NetWeights}
use n8n_libpetri.Compiler.Compile.Built.{AllFair}
use n8n_libpetri.Compiler.Compile.Budget.{budget_weights}

-- Each edge leaves an output that the node has.
abbrev pub InRange : NetNode → Type 0
InRange a = All (λ e. e.output_index < a.facts.output_count) a.facts.outgoing

abbrev pub node_ids : List NetNode → List String
node_ids nodes = map (λ a. a.id) nodes

-- The outputs that share a budget unit: those that an edge leaves.
abbrev pub outlets : NetNode → ℕ
outlets a = max 1 (connected_count a.facts.outgoing a.facts.output_count 0)

abbrev pub unit_of : List NetNode → ℕ
unit_of [] = 1
unit_of (a ∷ as') = outlets a * unit_of as'

abbrev pub share_of : List NetNode → String → ℕ
share_of [] id = 1
share_of (a ∷ as') id = if a.id == id then unit_of as' else outlets a * share_of as' id

outlets-pos : (a : NetNode) → 0 < outlets a
outlets-pos a = omega arith

pub unit_of-pos : (nodes : List NetNode) → 0 < unit_of nodes
unit_of-pos [] = omega arith
unit_of-pos (a ∷ as') = mul-pos (outlets-pos a) (unit_of-pos as')

connected_count-pos :
    (es : List EdgeRef) (n o i : ℕ)
    → any (λ e. e.output_index == i) es ≡ true
    → o ≤ i
    → i < o + n
    → 0 < connected_count es n o
connected_count-pos es zero o i h l u = absurd (omega (arith, l, u))
connected_count-pos es (suc n) o i h l u = elim (Bool-cases (i == o)) [
  | inl same ↦
      let found =
        ap (λ j. any (λ e. e.output_index == j) es) (sym ((nat_eq.beq_iff i o).0 same)) ∙ h in
      rw found (omega arith)
  | inr other ↦
      omega
        (arith, connected_count-pos es n (suc o) i h (ground (arith, other, l)) (omega (arith, u)))
]

split-outlets :
    (ctx : GadgetContext) (es : List EdgeRef)
    → All (λ e. e.output_index < ctx.output_count) es
    → is_split (record ctx { outgoing = es }) ≡ true
    → 0 < connected_count es ctx.output_count 0
split-outlets ctx [] r h = cc h
split-outlets ctx (e ∷ es) r h =
    connected_count-pos (e ∷ es) ctx.output_count 0 e.output_index
      (ground (arith, (nat_eq.beq_iff e.output_index e.output_index).1 refl)) (omega arith)
      (omega (arith, r.0))

differs : (x y : String) (ids : List String) → has (y ∷ ids) x ≡ false → (x == y) ≡ false
differs x y ids h = ground (arith, h, string_eq.beq_iff x y, string_eq.beq_iff y x)

-- Each node of distinct ids has a share that its outlets use up.
pub share_of-unit :
    (nodes : List NetNode)
    → IsNodup (node_ids nodes)
    → All (λ a. unit_of nodes ≡ outlets a * share_of nodes a.id) nodes
share_of-unit [] u = tt
share_of-unit (a ∷ as') u =
    (rw ((string_eq.beq_iff a.id a.id).1 refl) refl, later as' u.0 (share_of-unit as' u.1))
  where
    later :
        (bs : List NetNode)
        → has (node_ids bs) a.id ≡ false
        → All (λ b. unit_of as' ≡ outlets b * share_of as' b.id) bs
        → All (λ b. unit_of (a ∷ as') ≡ outlets b * share_of (a ∷ as') b.id) bs
    later [] n k = tt
    later (b ∷ bs) n k = (
      rw (differs a.id b.id (node_ids bs) n)
          (ap (λ m. outlets a * m) k.0 ∙ mul_left_comm (outlets a) (outlets b) (share_of as' b.id)),
      later bs (ground (arith, n)) k.1,
    )

abbrev pub shared_out : List NetNode → NetWeights
shared_out nodes = budget_weights (unit_of nodes) (share_of nodes)

pub shared_out-AllFair :
    (nodes : List NetNode)
    → IsNodup (node_ids nodes)
    → All InRange nodes
    → AllFair (shared_out nodes) nodes
shared_out-AllFair nodes u r = fair nodes r (share_of-unit nodes u)
  where
    fair :
        (bs : List NetNode)
        → All InRange bs
        → All (λ b. unit_of nodes ≡ outlets b * share_of nodes b.id) bs
        → AllFair (shared_out nodes) bs
    fair [] r k = tt
    fair (b ∷ bs) r k = (
      (λ s.
          let some_outlet = split-outlets b.facts b.facts.outgoing r.0 s in
          let exact : outlets b ≡ connected_count b.facts.outgoing b.facts.output_count 0 =
            omega (arith, some_outlet) in
          k.0 ∙ ap (λ m. m * share_of nodes b.id) exact),
      fair bs r.1 k.1,
    )
