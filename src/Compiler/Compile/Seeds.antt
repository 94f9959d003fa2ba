-- ===== src/Compiler/Compile/Seeds.antt =====
-- marking.ts: a property of markings that the seeds keep, when it is kept where a place without
-- weight is set or deleted and where `X/idle` is seeded.
use n8n_libpetri.Prelude.{
  ℕ, ltb, ◌-◌, ◌≡◌, refl, subst, ◌∙◌, ◌&&◌, Bool, true, false, Option, none, some, List, [], ◌∷◌,
  String, string_eq, if◌then◌else◌,
}
use n8n_libpetri.Prelude.Maps
use n8n_libpetri.Prelude.Predicates.{All, OptionAll, if-keeps}
use n8n_libpetri.Prelude.Results.{Result, ok, err, ◌>>=◌, >>=-eq-ok, ok-injective}
use n8n_libpetri.Compiler.Gadget.Net.{Place, idle}
use n8n_libpetri.Compiler.Gadget.Shapes.{
  GadgetError, InputSide, direct_side, or_side, join_side, choose_branch_side, tool_side, JoinInput,
  LocalRetry, LocalAgent,
}
use n8n_libpetri.Compiler.Gadget.Declare.{ready_slot}
use n8n_libpetri.Compiler.Gadget.Weights.{weight}
use n8n_libpetri.Compiler.Gadget.Parts.{JoinWeighs, SideWeighs}
use n8n_libpetri.Compiler.Gadget.Balance.Places.{RetryWeighs, AgentWeighs}
use n8n_libpetri.Compiler.Gadget.Balance.Starts.{ready_slot-Weighs}
use n8n_libpetri.Compiler.Compile.{NetPlace, net_place_eq}
use n8n_libpetri.Compiler.Compile.Compose.{NodeBuild, flat}
use n8n_libpetri.Compiler.Compile.Kept.{NetWeights, net_weight, flat-weight}
use n8n_libpetri.Compiler.Compile.Built.{Built}
use n8n_libpetri.Compiler.Compile.Marking.{
  Token, Marking, units, put, in_slot, seed_slot, seed_join_slots, seed_side, seed_retry,
  seed_budgets, seed_node,
}

pub in_slot-eq-ok {ℓ} :
    {A : Type ℓ} (name : String) (r : Result GadgetError A) {a : A}
    → in_slot name r ≡ ok a
    → r ≡ ok a
in_slot-eq-ok name (ok a) h = cc
in_slot-eq-ok name (err e) h = cc

-- What a property of markings has to keep.
pub record Seedable (w : NetWeights) (P : Marking → Type 0) : Type 0 where
  pub slot_lem : (id : String) (i : ℕ) → (w.of id).slot i ≡ 0
  pub set_lem :
      (m : Marking) (p : NetPlace) (ts : List Token)
      → net_weight w p ≡ 0
      → P m
      → P (Maps.set m p ts)
  pub delete_lem : (m : Marking) (p : NetPlace) → net_weight w p ≡ 0 → P m → P (Maps.delete m p)
  pub idle_lem :
      (m : Marking) (b : NodeBuild) → Built w b → P m → P (Maps.set m (flat b idle) (units 1))

module _ (w : NetWeights) (P : Marking → Type 0) (s : Seedable w P) where
  pub put_lem :
      (m : Marking) (p : NetPlace) (ts : List Token) → net_weight w p ≡ 0 → P m → P (put m p ts)
  put_lem m p [] e h = h
  put_lem m p (t ∷ ts) e h = s.set_lem m p (t ∷ ts) e h

  module _ (b : NodeBuild) (k : Built w b) where
    pub light :
        (p : Place) {n : ℕ} → weight (w.of b.node.id) p ≡ n → n ≡ 0 → net_weight w (flat b p) ≡ 0
    light p e z = flat-weight w b p k.keeps.ports ∙ e ∙ z

    free_slot : (i : ℕ) → (w.of b.node.id).slot i ≡ 0
    free_slot i = s.slot_lem b.node.id i

    seed_retry_lem :
        (m : Marking) (r : Option LocalRetry)
        → OptionAll (RetryWeighs (w.of b.node.id)) r
        → P m
        → P (seed_retry m b r)
    seed_retry_lem m none e h = h
    seed_retry_lem m (some r) e h =
        put_lem m (flat b r.tries_place) (units (r.max_tries - 1)) (light r.tries_place e.1 refl) h

    seed_budgets_lem :
        (m : Marking) (a : Option LocalAgent)
        → OptionAll (AgentWeighs (w.of b.node.id)) a
        → P m
        → P (seed_budgets m b a)
    seed_budgets_lem m none e h = h
    seed_budgets_lem m (some a) e h =
        put_lem (put m (flat b a.rounds_place) (units a.max_rounds)) (flat b a.calls_place)
          (units a.max_tool_calls) (light a.calls_place e.calls refl)
          (put_lem m (flat b a.rounds_place) (units a.max_rounds)
            (light a.rounds_place e.rounds refl) h)

    seed_slot_lem :
        (m m' : Marking) (i : JoinInput)
        → seed_slot m b i ≡ ok m'
        → JoinWeighs (w.of b.node.id) i
        → P m
        → P m'
    seed_slot_lem m m' i h e p = by i.common.seed_empty h
      where
        by :
            (t : Bool)
            → (if t
                then (do
                  q ← in_slot b.node.name (ready_slot i.slot false)
                  ok (put m (flat b q) (units 1)))
                else ok (put m (flat b i.free_place) (units 1)))
              ≡ ok m'
            → P m'
        by true h' =
            let (q, found, built) =
              >>=-eq-ok (in_slot b.node.name (ready_slot i.slot false)) _ h' in
            let slot = in_slot-eq-ok b.node.name (ready_slot i.slot false) found in
            subst P (ok-injective built) (
              put_lem m (flat b q) (units 1)
                (light q (ready_slot-Weighs (w.of b.node.id) i.slot false q _ slot e.1)
                  (free_slot i.common.index))
                p)
        by false h' = subst P (ok-injective h') (
            put_lem m (flat b i.free_place) (units 1)
              (light i.free_place e.0 (free_slot i.common.index)) p)

    seed_join_slots_lem :
        (m m' : Marking) (is : List JoinInput)
        → seed_join_slots m b is ≡ ok m'
        → All (JoinWeighs (w.of b.node.id)) is
        → P m
        → P m'
    seed_join_slots_lem m m' [] h e p = subst P (ok-injective h) p
    seed_join_slots_lem m m' (i ∷ is) h e p =
        let (m₁, first, run) = >>=-eq-ok (seed_slot m b i) _ h in
        seed_join_slots_lem m₁ m' is run e.1 (seed_slot_lem m m₁ i first e.0 p)

    seed_side_lem :
        (m m' : Marking) (side : InputSide)
        → seed_side m b side ≡ ok m'
        → SideWeighs (w.of b.node.id) side
        → P m
        → P m'
    seed_side_lem m m' (or_side i) h e p = subst P (ok-injective h) (
        if-keeps P (b.context.reachable && ltb 0 i.common.unreachable_edges)
          (put m (flat b i.round_place) (units i.common.unreachable_edges)) m
          (put_lem m (flat b i.round_place) (units i.common.unreachable_edges)
            (light i.round_place e.0 refl) p)
          p)
    seed_side_lem m m' (join_side q is) h e p = seed_join_slots_lem m m' is h e.1 p
    seed_side_lem m m' (choose_branch_side is) h e p = seed_join_slots_lem m m' is h e p
    seed_side_lem m m' (direct_side q o) h e p = subst P (ok-injective h) p
    seed_side_lem m m' (tool_side q) h e p = subst P (ok-injective h) p

    pub seed_node_lem : (m m' : Marking) → seed_node m b ≡ ok m' → P m → P m'
    unfolding seed_node
    seed_node_lem m m' h p =
        let m₁ = put m (flat b idle) (units 1) in
        let m₂ = seed_retry m₁ b b.retry_side in
        seed_side_lem (seed_budgets m₂ b b.agent) m' b.side h k.inputs_side (
          seed_budgets_lem m₂ b.agent k.round
            (seed_retry_lem m₁ b.retry_side k.retries (s.idle_lem m b k p)))
