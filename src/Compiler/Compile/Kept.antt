-- ===== src/Compiler/Compile/Kept.antt =====
-- The weights of the composed net: a port is bound to a place that weighs what the local place does,
-- so a firing keeps the total weight of the tokens.
use mathlib.Core.List.{Permᴰ}
use n8n_libpetri.Prelude.{
  ℕ, suc, zero, ◌+◌, ◌*◌, ◌≡◌, refl, ap, ◌∙◌, List, [], ◌∷◌, ◌++◌, map, String, string_eq, nat_eq,
  ◌==◌, arith, Bool-cases, inl, inr,
}
use n8n_libpetri.Prelude.Maps
use n8n_libpetri.Prelude.Predicates.{All, All-mem}
use n8n_libpetri.Compiler.Gadget.Net.{Place, In, one, all_of, exactly, Transition, writes}
use n8n_libpetri.Compiler.Gadget.Weights
use n8n_libpetri.Compiler.Gadget.Weights.{
  Coefficients, weight, total, total_cost, IsDrained, AllWeigh, IsBalanced,
}
use n8n_libpetri.Compiler.Compile.{
  NetPlace, shared_budget, shared_halt, shared_pause, owned, place_eq,
}
use n8n_libpetri.Compiler.Compile.Compose.{Ports, NodeBuild, flat}
use n8n_libpetri.Compiler.Compile.Game.{replicate, Takes, Firing, TokenGame, Run, here, next}

-- The weights of the flat net: those of each node's places, by its id, and one budget unit.
pub record NetWeights : Type 0 where
  pub unit : ℕ
  pub of : String → Coefficients
  pub shared_unit : (id : String) → (of id).unit ≡ unit

module _ (w : NetWeights) where
  unfoldable pub net_weight : NetPlace → ℕ
  unfolding weight
  net_weight shared_budget = w.unit
  net_weight shared_halt = 0
  net_weight shared_pause = 0
  net_weight (owned id p) = weight (w.of id) p

  abbrev pub net_total : List NetPlace → ℕ
  net_total [] = 0
  net_total (p ∷ ps) = net_weight p + net_total ps

  pub net_total-append :
      (ps qs : List NetPlace) → net_total (ps ++ qs) ≡ net_total ps + net_total qs
  net_total-append [] qs = omega arith
  net_total-append (p ∷ ps) qs = omega (arith, net_total-append ps qs)

  net_total-perm : {ps qs : List NetPlace} → Permᴰ ps qs → net_total ps ≡ net_total qs
  net_total-perm Permᴰ.nil = refl
  net_total-perm (Permᴰ.cons e h) = omega (arith, ap net_weight e, net_total-perm h)
  net_total-perm (Permᴰ.swap e f) = omega (arith, ap net_weight e, ap net_weight f)
  net_total-perm (Permᴰ.trans h k) = net_total-perm h ∙ net_total-perm k

  -- A port is bound to a place of the same weight.
  abbrev pub PortsWeigh : Coefficients → Ports → Type 0
  PortsWeigh c ports = All (λ e. net_weight e.1 ≡ weight c e.0) ports

  get_or-weight :
      (c : Coefficients) (ports : Ports) (p : Place) (q : NetPlace)
      → PortsWeigh c ports
      → net_weight q ≡ weight c p
      → net_weight (Maps.get_or ports p q) ≡ weight c p
  get_or-weight c [] p q h e = e
  get_or-weight c ((r, s) ∷ ports) p q h e = elim (Bool-cases (r == p)) [
    | inl t ↦ rw t (h.0 ∙ ap (weight c) ((place_eq.beq_iff r p).0 t))
    | inr f ↦ rw f (get_or-weight c ports p q h.1 e)
  ]

  pub flat-weight :
      (b : NodeBuild) (p : Place)
      → PortsWeigh (w.of b.node.id) b.ports
      → net_weight (flat b p) ≡ weight (w.of b.node.id) p
  unfolding flat net_weight
  flat-weight b p h = get_or-weight (w.of b.node.id) b.ports p (owned b.node.id p) h refl

  flat-total :
      (b : NodeBuild) (ps : List Place)
      → PortsWeigh (w.of b.node.id) b.ports
      → net_total (map (flat b) ps) ≡ total (w.of b.node.id) ps
  flat-total b [] h = refl
  flat-total b (p ∷ ps) h = omega (arith, flat-weight b p h, flat-total b ps h)

  module _ (c : Coefficients) where
    -- What the arcs take weighs what they cost.
    replicate-drained : (n : ℕ) (p : Place) → weight c p ≡ 0 → total c (replicate n p) ≡ 0
    replicate-drained zero p e = refl
    replicate-drained (suc n) p e = omega (arith, e, replicate-drained n p e)

    replicate-total : (n : ℕ) (p : Place) → total c (replicate n p) ≡ n * weight c p
    replicate-total zero p = omega arith
    replicate-total (suc n) p = grind (arith, replicate-total n p)

    Takes-total :
        (is : List In) (ps : List Place)
        → Takes is ps
        → All (IsDrained c) is
        → total c ps ≡ total_cost c is
    Takes-total [] ps h d = ap (total c) h
    Takes-total (one p ∷ is) ps (rest, e, h) d =
        ap (total c) e ∙ omega (arith, Takes-total is rest h d.1)
    Takes-total (exactly n p ∷ is) ps (rest, e, h) d =
        ap (total c) e
        ∙ omega (
          arith,
          Weights.total-append c (replicate n p) rest,
          replicate-total n p,
          Takes-total is rest h d.1,
        )
    Takes-total (all_of p ∷ is) ps (n, rest, e, h) d =
        ap (total c) e
        ∙ omega (
          arith,
          Weights.total-append c (replicate (suc n) p) rest,
          replicate-drained n p d.0,
          d.0,
          Takes-total is rest h d.1,
        )

  -- A firing of a balanced transition keeps the total weight.
  Firing-total :
      (b : NodeBuild) (t : Transition) (before after : List NetPlace)
      → Firing b t before after
      → PortsWeigh (w.of b.node.id) b.ports
      → IsBalanced (w.of b.node.id) t
      → net_total after ≡ net_total before
  Firing-total b t before after f l (drained, balanced) = omega (
    arith,
    net_total-perm f.takes,
    net_total-perm f.leaves,
    net_total-append (map (flat b) f.taken) f.others,
    net_total-append (map (flat b) f.written) f.others,
    flat-total b f.taken l,
    flat-total b f.written l,
    Takes-total (w.of b.node.id) t.inputs f.taken f.fits drained,
    All-mem (λ x. total (w.of b.node.id) x ≡ total_cost (w.of b.node.id) t.inputs)
        (writes t.outputs) balanced.each f.branch,
  )

  -- The builds whose ports and transitions keep the weights.
  pub record KeepsWeight (b : NodeBuild) : Type 0 where
    pub ports : PortsWeigh (w.of b.node.id) b.ports
    pub transitions : All (IsBalanced (w.of b.node.id)) b.transitions

  pub Run-total :
      (game : TokenGame) (bs : List NodeBuild) (start after : List NetPlace)
      → All KeepsWeight bs
      → Run game bs start after
      → net_total after ≡ net_total start
  Run-total game bs start after k run = by run
    where
      by : {m : List NetPlace} → Run game bs start m → net_total m ≡ net_total start
      by here = refl
      by (next {before = m} {after = n} b t earlier member emitted fires) =
          let keeps = All-mem KeepsWeight bs k member in
          Firing-total b t m n (game.fires_lem b t m n fires) keeps.ports
            (All-mem (IsBalanced (w.of b.node.id)) b.transitions keeps.transitions emitted)
          ∙ by earlier
