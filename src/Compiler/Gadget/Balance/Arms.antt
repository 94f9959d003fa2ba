-- ===== src/Compiler/Gadget/Balance/Arms.antt =====
-- The balance of the arms of gadget/arms.ts.
use n8n_libpetri.Prelude.{
  ℕ, ◌≡◌, subst, Bool, true, false, Option, none, some, List, [], ◌∷◌, arith, if◌then◌else◌,
}
use n8n_libpetri.Prelude.Predicates.{All, All-append, OptionAll}
use n8n_libpetri.Prelude.Results.{ok, >>=-eq-ok, ok-injective}
use n8n_libpetri.Compiler.Names.{Variant, data_variant, empty_variant}
use n8n_libpetri.Compiler.Gadget.Net.{Place, place, and, outs, Transition}
use n8n_libpetri.Compiler.Gadget.Shapes.{
  LocalEdge, OrInput, JoinInput, InputSide, or_side, join_side, choose_branch_side,
}
use n8n_libpetri.Compiler.Gadget.Declare.{ready_slot}
use n8n_libpetri.Compiler.Gadget.Skips.{
  is_data, or_arm_output, or_arm, or_arms, join_arm_output, join_arm, empty_join_arm, edge_arms,
  join_arms, build_arms,
}
use n8n_libpetri.Compiler.Gadget.Weights
use n8n_libpetri.Compiler.Gadget.Weights.{Coefficients, weight, Weighs, IsBalanced}
use n8n_libpetri.Compiler.Gadget.Parts.{IsLight, LightEdge, JoinWeighs, SideWeighs}
use n8n_libpetri.Compiler.Gadget.Routed.{Light-Weighs}
use n8n_libpetri.Compiler.Gadget.Balance.Starts.{ready_slot-Weighs}

module _ (c : Coefficients) where
  two-Weigh :
      (p q : Place) (n : ℕ)
      → weight c p ≡ n
      → weight c q ≡ 0
      → Weighs c n (and (outs (place p ∷ place q ∷ [])))
  two-Weigh p q n e f = Weights.and-Weighs c (place p ∷ place q ∷ []) (
      Weights.Sums-eq c _
        (Weights.Sums-place c p _ (Weights.Sums-place c q [] (Weights.Sums-nil c))) (omega arith))

  or_arm_output-Weighs :
      (i : OrInput) (e : LocalEdge) (v : Variant)
      → IsLight c i.round_place
      → IsLight c i.hasdata_place
      → Weighs c 0 (or_arm_output i e v)
  or_arm_output-Weighs i e empty_variant r h = Light-Weighs c i.round_place 0 r
  or_arm_output-Weighs i e data_variant r h = by e.empty_place
    where
      by :
          (p : Option Place)
          → Weighs c 0 (elim p [
            | none ↦ place i.hasdata_place
            | some q ↦ and (outs (place i.round_place ∷ place i.hasdata_place ∷ []))
          ])
      by none = Light-Weighs c i.hasdata_place 0 h
      by (some q) = two-Weigh i.round_place i.hasdata_place 0 r h

  or_arm-Balanced :
      (depth : ℕ) (i : OrInput) (e : LocalEdge) (v : Variant) (source : Place)
      → IsLight c i.round_place
      → IsLight c i.hasdata_place
      → IsLight c source
      → IsBalanced c (or_arm depth i e v source)
  or_arm-Balanced depth i e v source r h s =
      ((tt, tt), Weights.AllWeigh-eq c _ (or_arm_output-Weighs i e v r h) (omega (arith, s)))

  or_arms-Balanced :
      (depth : ℕ) (i : OrInput) (es : List LocalEdge)
      → IsLight c i.round_place
      → IsLight c i.hasdata_place
      → All (LightEdge c) es
      → All (IsBalanced c) (or_arms depth i es)
  or_arms-Balanced depth i [] r h w = tt
  or_arms-Balanced depth i (e ∷ es) r h w = (
    or_arm-Balanced depth i e data_variant e.data_place r h w.0.0,
    by e.empty_place w.0.1 (or_arms-Balanced depth i es r h w.1),
  )
    where
      by :
          (p : Option Place)
          → OptionAll (IsLight c) p
          → All (IsBalanced c) (or_arms depth i es)
          → All (IsBalanced c) (elim p [
            | none ↦ or_arms depth i es
            | some q ↦ or_arm depth i e empty_variant q ∷ or_arms depth i es
          ])
      by none l later = later
      by (some q) l later = (or_arm-Balanced depth i e empty_variant q r h l, later)

  join_arm_output-Weighs :
      (slot : Place) (h : Option Place) (n : ℕ)
      → weight c slot ≡ n
      → OptionAll (IsLight c) h
      → Weighs c n (join_arm_output slot h)
  join_arm_output-Weighs slot none n e l = Light-Weighs c slot n e
  join_arm_output-Weighs slot (some h) n e l = two-Weigh slot h n e l

  data_mark :
      (b : Bool) (h : Option Place)
      → OptionAll (IsLight c) h
      → OptionAll (IsLight c) (if b then h else none)
  data_mark true h l = l
  data_mark false h l = tt

  join_arm-Balanced :
      (depth : ℕ) (h : Option Place) (i : JoinInput) (e : LocalEdge) (v : Variant) (source : Place)
      (t : Transition)
      → join_arm depth h i e v source ≡ ok t
      → OptionAll (IsLight c) h
      → JoinWeighs c i
      → IsLight c source
      → IsBalanced c t
  join_arm-Balanced depth h i e v source t made l w s =
      let (slot, found, built) = >>=-eq-ok (ready_slot i.slot (is_data v)) _ made in
      subst (IsBalanced c) (ok-injective built) (
        (tt, (tt, tt)),
        Weights.AllWeigh-eq c _
            (join_arm_output-Weighs slot (if is_data v then h else none) _
              (ready_slot-Weighs c i.slot (is_data v) slot _ found w.1) (data_mark (is_data v) h l))
            (omega (arith, s, w.0)),
      )

  empty_join_arm-Balanced :
      (depth : ℕ) (i : JoinInput) (e : LocalEdge) (p : Option Place) (ts : List Transition)
      → empty_join_arm depth i e p ≡ ok ts
      → JoinWeighs c i
      → OptionAll (IsLight c) p
      → All (IsBalanced c) ts
  empty_join_arm-Balanced depth i e none ts h w l = subst (All (IsBalanced c)) (ok-injective h) tt
  empty_join_arm-Balanced depth i e (some p) ts h w l =
      let (t, made, built) = >>=-eq-ok (join_arm depth none i e empty_variant p) _ h in
      subst (All (IsBalanced c)) (ok-injective built)
        (join_arm-Balanced depth none i e empty_variant p t made tt w l, tt)

  edge_arms-Balanced :
      (depth : ℕ) (h : Option Place) (i : JoinInput) (es : List LocalEdge) (ts : List Transition)
      → edge_arms depth h i es ≡ ok ts
      → OptionAll (IsLight c) h
      → JoinWeighs c i
      → All (LightEdge c) es
      → All (IsBalanced c) ts
  edge_arms-Balanced depth h i [] ts made l w light =
      subst (All (IsBalanced c)) (ok-injective made) tt
  edge_arms-Balanced depth h i (e ∷ es) ts made l w light =
      let (full, first, run) = >>=-eq-ok (join_arm depth h i e data_variant e.data_place) _ made in
      let (rest, second, run') = >>=-eq-ok (empty_join_arm depth i e e.empty_place) _ run in
      let (later, third, built) = >>=-eq-ok (edge_arms depth h i es) _ run' in
      subst (All (IsBalanced c)) (ok-injective built) (
        join_arm-Balanced depth h i e data_variant e.data_place full first l w light.0.0,
        All-append (IsBalanced c) rest later
            (empty_join_arm-Balanced depth i e e.empty_place rest second w light.0.1)
            (edge_arms-Balanced depth h i es later third l w light.1),
      )

  join_arms-Balanced :
      (depth : ℕ) (h : Option Place) (is : List JoinInput) (ts : List Transition)
      → join_arms depth h is ≡ ok ts
      → OptionAll (IsLight c) h
      → All (JoinWeighs c) is
      → All (IsBalanced c) ts
  join_arms-Balanced depth h [] ts made l w = subst (All (IsBalanced c)) (ok-injective made) tt
  join_arms-Balanced depth h (i ∷ is) ts made l w =
      let (arms, first, run) = >>=-eq-ok (edge_arms depth h i i.common.edges) _ made in
      let (later, rest, built) = >>=-eq-ok (join_arms depth h is) _ run in
      subst (All (IsBalanced c)) (ok-injective built) (
        All-append (IsBalanced c) arms later
          (edge_arms-Balanced depth h i i.common.edges arms first l w.0 w.0.2)
          (join_arms-Balanced depth h is later rest l w.1))

  pub build_arms-Balanced :
      (depth : ℕ) (side : InputSide) (ts : List Transition)
      → build_arms depth side ≡ ok ts
      → SideWeighs c side
      → All (IsBalanced c) ts
  unfolding build_arms
  build_arms-Balanced depth (or_side i) ts h w =
      subst (All (IsBalanced c)) (ok-injective h)
        (or_arms-Balanced depth i i.common.edges w.0 w.1 w.3)
  build_arms-Balanced depth (join_side p is) ts h w =
      join_arms-Balanced depth (some p) is ts h w.0 w.1
  build_arms-Balanced depth (choose_branch_side is) ts h w =
      join_arms-Balanced depth none is ts h tt w
  build_arms-Balanced depth side ts h w = subst (All (IsBalanced c)) (ok-injective h) tt
