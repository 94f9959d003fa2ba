-- ===== src/Compiler/Gadget/Balance/Skips.antt =====
-- The balance of the transitions of gadget/skip.ts, arms.ts and input-or.ts: those that decide an
-- activation without a run.
use n8n_libpetri.Prelude.{
  ℕ, ◌+◌, ◌*◌, ◌≡◌, sym, ap, subst, Bool, true, false, Option, none, some, List, [], ◌∷◌, ◌++◌, map,
  all, String, arith, Bool-cases, inl, inr,
}
use n8n_libpetri.Prelude.Predicates.{All, All-append, OptionAll}
use n8n_libpetri.Prelude.Results.{Result, ok, >>=-eq-ok, ok-injective}
use n8n_libpetri.Compiler.Names.{Variant}
use n8n_libpetri.Compiler.Names.Transitions.{skip_combination_of}
use n8n_libpetri.Compiler.Gadget.Net.{Place, halt, skipped, one, Out, place, Transition}
use n8n_libpetri.Compiler.Gadget.Shapes.{
  GadgetError, LocalEdge, ReadySlot, single, split, JoinInput, InputSide, direct_side, or_side,
  join_side, choose_branch_side, tool_side, LocalOutput, SplitOutput, Routing, collapsed,
  GadgetContext,
}
use n8n_libpetri.Compiler.Gadget.Declare.{ready_slot, free_refunds, join_inputs}
use n8n_libpetri.Compiler.Gadget.Outputs.{
  and_of, edge_empties, output_empties, skip_empties, routing_outputs,
}
use n8n_libpetri.Compiler.Gadget.Skips.{
  skip_transition, direct_skip, is_data, choices, column_slots, combination_slots,
  combination_skips, combinations, single_slots, skips_of, build_skips, build_clear,
}
use n8n_libpetri.Compiler.Gadget.Weights
use n8n_libpetri.Compiler.Gadget.Weights.{
  Coefficients, weight, total, total_cost, IsDrained, Weighs, Sums, IsBalanced,
}
use n8n_libpetri.Compiler.Gadget.Parts.{IsLight, LightEdge, SlotWeighs, JoinWeighs, SideWeighs}
use n8n_libpetri.Compiler.Gadget.Routed.{
  All-map, All-imp, Light-Weighs, Sums-zero, LightOutput, SplitWeighs, RoutingWeighs,
}
use n8n_libpetri.Compiler.Gadget.Balance.Starts.{ready_slot-Weighs, frees, slots-total, refunds-Sum}

module _ (c : Coefficients) where
  -- The empties that a skip forwards have no weight.
  edge_empties-Weigh :
      (es : List LocalEdge) → All (LightEdge c) es → All (Weighs c 0) (edge_empties es)
  edge_empties-Weigh [] h = tt
  edge_empties-Weigh (e ∷ es) h = by e.empty_place h.0.1 (edge_empties-Weigh es h.1)
    where
      by :
          (p : Option Place)
          → OptionAll (IsLight c) p
          → All (Weighs c 0) (edge_empties es)
          → All
              (Weighs c 0)
              (elim p [ none ↦ edge_empties es | some q ↦ place q ∷ edge_empties es ])
      by none l later = later
      by (some p) l later = (Light-Weighs c p 0 l, later)

  output_empties-Weigh :
      (os : List LocalOutput) → All (LightOutput c) os → All (Weighs c 0) (output_empties os)
  output_empties-Weigh [] h = tt
  output_empties-Weigh (o ∷ os) h =
      All-append (Weighs c 0) (edge_empties o.edges) (output_empties os)
        (edge_empties-Weigh o.edges h.0.0) (output_empties-Weigh os h.1)

  pub routing_outputs-Light :
      (r : Routing) → RoutingWeighs c r → All (LightOutput c) (routing_outputs r)
  routing_outputs-Light (collapsed r os) w = w.1
  routing_outputs-Light (split os) w =
      All-map (LightOutput c) (λ (s : SplitOutput). s.output) os
        (All-imp (SplitWeighs c) (λ s. LightOutput c s.output) (λ s v. v.0) os w.0)

  pub skip_empties-Weigh :
      (ctx : GadgetContext) (r : Routing)
      → RoutingWeighs c r
      → All (Weighs c 0) (skip_empties ctx r)
  skip_empties-Weigh ctx r w = elim (Bool-cases ctx.skip_forwards) [
    | inl s ↦ rw s (output_empties-Weigh (routing_outputs r) (routing_outputs-Light r w))
    | inr s ↦ rw s tt
  ]

  column_slots-total :
      (slot : ReadySlot) (combo : List Variant)
      (rest : List Variant → Result GadgetError (List Place)) (n m : ℕ) (ps : List Place)
      → column_slots slot combo rest ≡ ok ps
      → SlotWeighs c n slot
      → ((vs : List Variant) (qs : List Place) → rest vs ≡ ok qs → total c qs ≡ m)
      → total c ps ≡ n + m
  column_slots-total (single p) combo rest n m ps h w k =
      let (qs, later, built) = >>=-eq-ok (rest combo) _ h in
      omega (arith, ap (total c) (ok-injective built), w, k combo qs later)
  column_slots-total (split d e) [] rest n m ps h w k = cc
  column_slots-total (split d e) (v ∷ vs) rest n m ps h w k =
      let (p, first, run) = >>=-eq-ok (ready_slot (split d e) (is_data v)) _ h in
      let (qs, later, built) = >>=-eq-ok (rest vs) _ run in
      omega (
        arith,
        ap (total c) (ok-injective built),
        ready_slot-Weighs c (split d e) (is_data v) p n first w,
        k vs qs later,
      )

  combination_slots-total :
      (is : List JoinInput) (combo : List Variant) (ps : List Place)
      → combination_slots is combo ≡ ok ps
      → All (JoinWeighs c) is
      → total c ps ≡ total c (frees c is)
  combination_slots-total [] combo ps h w = ap (total c) (sym (ok-injective h))
  combination_slots-total (i ∷ is) combo ps h w = omega (
    arith,
    column_slots-total i.slot combo (combination_slots is) _ (total c (frees c is)) ps h w.0.1
        (λ vs qs k. combination_slots-total is vs qs k w.1),
    w.0.0,
  )

  -- A skip that takes the slots of all inputs writes their refunds.
  slots_skip-Balanced :
      (depth : ℕ) (name : String) (combination : List Variant) (ps inhibitors reads : List Place)
      (out : Out)
      → Weighs c (total c ps) out
      → IsBalanced c (skip_transition depth name combination (map one ps) inhibitors reads out)
  slots_skip-Balanced depth name combination ps inhibitors reads out h =
      (Weights.IsDrained-one c ps, Weights.AllWeigh-eq c _ h (sym (Weights.total_cost-one c ps)))

  combination_skips-Balanced :
      (depth : ℕ) (is : List JoinInput) (out : Out) (cs : List (List Variant))
      (ts : List Transition)
      → combination_skips depth is out cs ≡ ok ts
      → All (JoinWeighs c) is
      → Weighs c (total c (frees c is)) out
      → All (IsBalanced c) ts
  combination_skips-Balanced depth is out [] ts h w o =
      subst (All (IsBalanced c)) (ok-injective h) tt
  combination_skips-Balanced depth is out (combo ∷ cs) ts h w o =
      elim (Bool-cases (all is_data combo)) [
        | inl t ↦ combination_skips-Balanced depth is out cs ts (rw t at h) w o
        | inr f ↦
            let (ps, slots, run) = >>=-eq-ok (combination_slots is combo) _ (rw f at h) in
            let (later, rest, built) = >>=-eq-ok (combination_skips depth is out cs) _ run in
            subst (All (IsBalanced c)) (ok-injective built) (
              slots_skip-Balanced depth (skip_combination_of combo) combo ps (halt ∷ []) [] out
                  (Weights.AllWeigh-eq c _ o (sym (combination_slots-total is combo ps slots w))),
              combination_skips-Balanced depth is out cs later rest w o,
            )
      ]

  direct_skip-Balanced :
      (depth : ℕ) (e : Option Place) (out : Out) (ts : List Transition)
      → direct_skip depth e out ≡ ok ts
      → OptionAll (IsLight c) e
      → Weighs c 0 out
      → All (IsBalanced c) ts
  direct_skip-Balanced depth none out ts h w o = cc
  direct_skip-Balanced depth (some p) out ts h w o =
      subst (All (IsBalanced c)) (ok-injective h)
        (((tt, tt), Weights.AllWeigh-eq c _ o (omega (arith, w))), tt)

  skips_of-Balanced :
      (depth : ℕ) (side : InputSide) (out : Out) (ts : List Transition)
      → skips_of depth side out ≡ ok ts
      → SideWeighs c side
      → Weighs c (total c (frees c (join_inputs side))) out
      → All (IsBalanced c) ts
  skips_of-Balanced depth (direct_side p e) out ts h w o =
      direct_skip-Balanced depth e out ts h w.1 o
  skips_of-Balanced depth (or_side i) out ts h w o =
      subst (All (IsBalanced c)) (ok-injective h)
        (((tt, tt), Weights.AllWeigh-eq c _ o (omega (arith, ap (λ (t : ℕ). i.round * t) w.0))), tt)
  skips_of-Balanced depth (join_side p is) out ts h w o =
      let (ps, slots, built) = >>=-eq-ok (single_slots is) _ h in
      subst (All (IsBalanced c)) (ok-injective built) (
        slots_skip-Balanced depth "skip" [] ps (p ∷ halt ∷ []) [] out
            (Weights.AllWeigh-eq c _ o (sym (slots-total c is ps slots w.1))),
        tt,
      )
  skips_of-Balanced depth (choose_branch_side is) out ts h w o =
      combination_skips-Balanced depth is out (combinations ([] ∷ []) (choices is)) ts h w o
  skips_of-Balanced depth (tool_side p) out ts h w o = cc

  skip_out-Weighs :
      (side : InputSide) (empties : List Out) (out : Out)
      → and_of (empties ++ place skipped ∷ free_refunds side) ≡ ok out
      → All (Weighs c 0) empties
      → Weighs c (total c (frees c (join_inputs side))) out
  unfolding weight
  skip_out-Weighs side empties out h e =
      Weights.and_of-Weighs c (empties ++ place skipped ∷ free_refunds side)
        (Weights.Sums-eq c _
          (Weights.Sums-append c empties (place skipped ∷ free_refunds side) (Sums-zero c empties e)
            (Weights.Sums-place c skipped _ (refunds-Sum c (join_inputs side))))
          (omega arith))
        h

  pub build_skips-Balanced :
      (depth : ℕ) (side : InputSide) (has_skip : Bool) (empties : List Out) (ts : List Transition)
      → build_skips depth side has_skip empties ≡ ok ts
      → SideWeighs c side
      → All (Weighs c 0) empties
      → All (IsBalanced c) ts
  unfolding build_skips
  build_skips-Balanced depth side false empties ts h w e =
      subst (All (IsBalanced c)) (ok-injective h) tt
  build_skips-Balanced depth side true empties ts h w e =
      let (out, made, run) =
        >>=-eq-ok (and_of (empties ++ place skipped ∷ free_refunds side)) _ h in
      skips_of-Balanced depth side out ts run w (skip_out-Weighs side empties out made e)

  pub build_clear-Balanced :
      (depth : ℕ) (side : InputSide)
      → SideWeighs c side
      → All (IsBalanced c) (build_clear depth side)
  unfolding build_clear
  build_clear-Balanced depth (or_side i) w = (
    ((tt, (w.2, tt)), record { each = (omega (arith, ap (λ (t : ℕ). i.round * t) w.0, w.2), tt) }),
    tt,
  )
  build_clear-Balanced depth side w = tt
