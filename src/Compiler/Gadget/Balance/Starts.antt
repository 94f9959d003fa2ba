-- ===== src/Compiler/Gadget/Balance/Starts.antt =====
-- The balance of the transitions of gadget/start.ts.
use n8n_libpetri.Prelude.{
  ℕ, suc, ◌+◌, ◌≡◌, sym, ap, subst, ◌∙◌, Bool, true, false, none, some, List, [], ◌∷◌, ◌++◌, map,
  String, arith,
}
use n8n_libpetri.Prelude.Json.{Num, nat}
use n8n_libpetri.Prelude.Predicates.{All, All-append}
use n8n_libpetri.Prelude.Results.{ok, >>=-eq-ok, ok-injective}
use n8n_libpetri.Compiler.Gadget.Net.{
  Place, budget, idle, running, In, one, all_of, Out, place, and, outs, more, TransitionInfo, start,
  start_unmet, Transition,
}
use n8n_libpetri.Compiler.Gadget.Shapes.{
  ReadySlot, single, split, JoinInput, InputSide, direct_side, or_side, join_side,
  choose_branch_side, tool_side, ReferencePorts, GadgetContext,
}
use n8n_libpetri.Compiler.Gadget.Declare.{map_result, ready_slot}
use n8n_libpetri.Compiler.Gadget.Runs.{
  below, single_ready, activation_inputs, start_output, start_transition, start_twins, build_start,
}
use n8n_libpetri.Compiler.Names.Transitions.{start_unmet_of}
use n8n_libpetri.Compiler.Gadget.Weights
use n8n_libpetri.Compiler.Gadget.Weights.{
  Coefficients, weight, total, total_cost, IsDrained, Weighs, Sums, IsBalanced,
}
use n8n_libpetri.Compiler.Gadget.Parts.{SlotWeighs, JoinWeighs, SideWeighs}

module _ (c : Coefficients) where
  pub ready_slot-Weighs :
      (slot : ReadySlot) (is_data : Bool) (p : Place) (n : ℕ)
      → ready_slot slot is_data ≡ ok p
      → SlotWeighs c n slot
      → weight c p ≡ n
  ready_slot-Weighs (single q) is_data p n h w = ap (weight c) (sym (ok-injective h)) ∙ w
  ready_slot-Weighs (split d e) true p n h w = ap (weight c) (sym (ok-injective h)) ∙ w.0
  ready_slot-Weighs (split d (some q)) false p n h w = ap (weight c) (sym (ok-injective h)) ∙ w.1
  ready_slot-Weighs (split d none) false p n h w = cc

  -- The free places of the inputs weigh what their slots do.
  abbrev pub frees : List JoinInput → List Place
  frees is = map (λ (i : JoinInput). i.free_place) is

  pub slots-total :
      (is : List JoinInput) (ps : List Place)
      → map_result single_ready is ≡ ok ps
      → All (JoinWeighs c) is
      → total c ps ≡ total c (frees is)
  slots-total [] ps h w = ap (total c) (sym (ok-injective h))
  slots-total (i ∷ is) ps h w =
      let (p, first, run) = >>=-eq-ok (single_ready i) _ h in
      let (later, rest, built) = >>=-eq-ok (map_result single_ready is) _ run in
      omega (
        arith,
        ap (total c) (ok-injective built),
        w.0.0,
        ready_slot-Weighs i.slot true p _ first w.0.1,
        slots-total is later rest w.1,
      )

  pub refunds-Sum :
      (is : List JoinInput)
      → Sums c (map (λ (i : JoinInput). place i.free_place) is) (total c (frees is))
  refunds-Sum [] = Weights.Sums-nil c
  refunds-Sum (i ∷ is) = Weights.Sums-place c i.free_place _ (refunds-Sum is)

  -- What an activation takes is what the start writes beside the running token.
  record Starts (is : List In) (o : Out) : Type 0 where
    drained : All (IsDrained c) is
    written : Weighs c (total_cost c is + (c.unit + c.turn)) o

  join_start-Starts :
      (is : List JoinInput) (ps : List Place) (ins : List In)
      → All (IsDrained c) ins
      → total_cost c ins ≡ total c ps
      → map_result single_ready is ≡ ok ps
      → All (JoinWeighs c) is
      → Starts ins
          (and (more (place running) (outs (map (λ (i : JoinInput). place i.free_place) is))))
  unfolding weight
  join_start-Starts is ps ins d e h w = record {
    drained = d;
    written =
        Weights.and-Weighs c (place running ∷ map (λ (i : JoinInput). place i.free_place) is) (
          Weights.Sums-eq c _ (Weights.Sums-place c running _ (refunds-Sum is))
            (omega (arith, e, slots-total is ps h w)));
  }

  activation_inputs-Starts :
      (side : InputSide) (is : List In)
      → activation_inputs side ≡ ok is
      → SideWeighs c side
      → Starts is (start_output side)
  unfolding weight
  activation_inputs-Starts (tool_side p) is h w =
      subst (λ k. Starts k (place running)) (ok-injective h)
        (record {
          drained = (tt, tt);
          written = Weights.AllWeigh-eq c _ (Weights.place-Weighs c running) (omega (arith, w));
        })
  activation_inputs-Starts (direct_side p e) is h w =
      subst (λ k. Starts k (place running)) (ok-injective h)
        (record {
          drained = (tt, tt);
          written = Weights.AllWeigh-eq c _ (Weights.place-Weighs c running) (omega (arith, w.0));
        })
  activation_inputs-Starts (or_side i) is h w =
      subst (λ k. Starts k (start_output (or_side i))) (ok-injective h)
        (record {
          drained = (tt, tt);
          written = Weights.and-Weighs c (place running ∷ place i.ran_place ∷ []) (
              Weights.Sums-eq c _
                (Weights.Sums-place c running _
                  (Weights.Sums-place c i.ran_place [] (Weights.Sums-nil c)))
                (omega (arith, w.1, w.2)));
        })
  activation_inputs-Starts (join_side p js) is h w =
      let (ps, slots, built) = >>=-eq-ok (map_result single_ready js) _ h in
      subst (λ k. Starts k (start_output (join_side p js))) (ok-injective built)
        (join_start-Starts js ps (map one ps ++ all_of p ∷ [])
          (All-append (IsDrained c) (map one ps) _ (Weights.IsDrained-one c ps) (w.0, tt))
          (omega (
            arith,
            w.0,
            Weights.total_cost-append c (map one ps) (all_of p ∷ []),
            Weights.total_cost-one c ps,
          ))
          slots w.1)
  activation_inputs-Starts (choose_branch_side js) is h w =
      let (ps, slots, built) = >>=-eq-ok (map_result single_ready js) _ h in
      subst (λ k. Starts k (start_output (choose_branch_side js))) (ok-injective built)
        (join_start-Starts js ps (map one ps) (Weights.IsDrained-one c ps)
          (Weights.total_cost-one c ps) slots w)

  start_transition-Balanced :
      (side : InputSide) (is : List In) (role : TransitionInfo) (name : String) (reads : List Place)
      (priority : Num)
      → Starts is (start_output side)
      → IsBalanced c (start_transition side is role name reads priority)
  unfolding weight
  start_transition-Balanced side is role name reads priority s = (
    All-append (IsDrained c) is _ s.drained (tt, (tt, tt)),
    Weights.AllWeigh-eq c _ s.written
        (omega (arith, Weights.total_cost-append c is (one budget ∷ one idle ∷ []))),
  )

  start_twins-Balanced :
      (depth : ℕ) (side : InputSide) (is : List In) (k : ℕ) (ps : List (String × Place))
      → Starts is (start_output side)
      → All (IsBalanced c) (start_twins depth side is k ps)
  start_twins-Balanced depth side is k [] s = tt
  start_twins-Balanced depth side is k ((node, p) ∷ ps) s = (
    start_transition-Balanced side is (start_unmet node) (start_unmet_of k) (p ∷ []) (below depth)
        s,
    start_twins-Balanced depth side is (suc k) ps s,
  )

  pub build_start-Balanced :
      (ctx : GadgetContext) (side : InputSide) (refs : ReferencePorts) (ts : List Transition)
      → build_start ctx side refs ≡ ok ts
      → SideWeighs c side
      → All (IsBalanced c) ts
  build_start-Balanced ctx side refs ts h w =
      let (is, activated, built) = >>=-eq-ok (activation_inputs side) _ h in
      let s = activation_inputs-Starts side is activated w in
      subst (All (IsBalanced c)) (ok-injective built) (
        start_transition-Balanced side is start "start" refs.done_ports (nat ctx.depth) s,
        start_twins-Balanced ctx.depth side is 0 refs.skipped_ports s,
      )
