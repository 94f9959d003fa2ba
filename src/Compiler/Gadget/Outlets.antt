-- ===== src/Compiler/Gadget/Outlets.antt =====
-- The routing that gadget/output-side.ts declares: its outputs, their number and their weights.
use n8n_libpetri.Prelude.{
  ℕ, suc, zero, ◌+◌, ◌*◌, ◌≤◌, ◌⊎◌, ◌≡◌, refl, sym, ap, subst, ◌∙◌, Bool, true, false, List, [],
  ◌∷◌, map, arith, Bool-cases, inl, inr, if◌then◌else◌, length, length-map, keep, any, nat_eq, ◌==◌,
  not, ◌||◌, ◌&&◌,
}
use n8n_libpetri.Prelude.Predicates.{All}
use n8n_libpetri.Prelude.Results.{Result, ok, >>=-eq-ok, ok-injective}
use n8n_libpetri.Compiler.Types.{EdgeRef}
use n8n_libpetri.Compiler.Gadget.Shapes.{
  GadgetError, LocalEdge, LocalOutput, Routing, GadgetContext,
}
use n8n_libpetri.Compiler.Gadget.Declare.{map_result, host_slot_of}
use n8n_libpetri.Compiler.Gadget.Outputs.{
  declare_output_edge, connected_output, declare_outputs, split_output, is_split, routing_shape,
  build_routing,
}
use n8n_libpetri.Compiler.Gadget.Weights.{Coefficients, weight}
use n8n_libpetri.Compiler.Gadget.Parts.{map_result-All, if-OptionAll, IsLight, LightEdge}
use n8n_libpetri.Compiler.Gadget.Routed.{LightOutput, SplitWeighs, RoutingWeighs}

-- The outputs from `o` on, `n` of them, that an edge leaves.
abbrev pub connected_count : List EdgeRef → ℕ → ℕ → ℕ
connected_count es zero o = 0
connected_count es (suc n) o =
    (if any (λ e. e.output_index == o) es then 1 else 0) + connected_count es n (suc o)

-- The outputs of a node that routes per output share the unit of the budget evenly.
abbrev pub IsFair : Coefficients → GadgetContext → Type 0
IsFair c ctx =
    is_split ctx ≡ true → c.unit ≡ connected_count ctx.outgoing ctx.output_count 0 * c.part

map_result-length {ℓ κ} :
    {A : Type ℓ} {B : Type κ} (f : A → Result GadgetError B) (xs : List A) (bs : List B)
    → map_result f xs ≡ ok bs
    → length bs ≡ length xs
map_result-length f [] bs h = ap length (sym (ok-injective h))
map_result-length f (x ∷ xs) bs h =
    let (b, fx, run) = >>=-eq-ok (f x) _ h in
    let (later, fxs, done) = >>=-eq-ok (map_result f xs) _ run in
    ap length (sym (ok-injective done)) ∙ ap suc (map_result-length f xs later fxs)

any-keep {ℓ} :
    {A : Type ℓ} (p : A → Bool) (xs : List A) (n : ℕ)
    → length (keep p xs) ≡ n
    → (any p xs ≡ true) × (1 ≤ n) ⊎ (any p xs ≡ false) × (n ≡ 0)
any-keep p [] n h = inr (refl, sym h)
any-keep p (x ∷ xs) n h = elim (Bool-cases (p x)) [
  | inl t ↦ inl (rw t refl, ground arith)
  | inr f ↦ rw f (any-keep p xs n (rw f at h))
]

module _ (c : Coefficients) where
  declare_output_edge-Light :
      (ctx : GadgetContext) (writes_empty : Bool) (e : EdgeRef) (l : LocalEdge)
      → declare_output_edge ctx writes_empty e ≡ ok l
      → LightEdge c l
  unfolding weight
  declare_output_edge-Light ctx writes_empty e l h =
      let (slot, found, built) = >>=-eq-ok (host_slot_of ctx e) _ h in
      subst (LightEdge c) (ok-injective built)
        (refl, if-OptionAll (IsLight c) (slot.has_empty && writes_empty) _ refl)

  connected_output-Light :
      (ctx : GadgetContext) (o : ℕ) (es : List LocalEdge) (later : List LocalOutput)
      → All (LightEdge c) es
      → All (LightOutput c) later
      → All (LightOutput c) (connected_output ctx o es later)
  unfolding weight
  connected_output-Light ctx o [] later h k = k
  connected_output-Light ctx o (e ∷ es) later h k =
      ((h, if-OptionAll (IsLight c) ctx.cyclic _ refl), k)

  declare_outputs-Light :
      (ctx : GadgetContext) (writes_empty : Bool) (n o : ℕ) (os : List LocalOutput)
      → declare_outputs ctx writes_empty n o ≡ ok os
      → All (LightOutput c) os
  declare_outputs-Light ctx writes_empty zero o os h =
      subst (All (LightOutput c)) (ok-injective h) tt
  declare_outputs-Light ctx writes_empty (suc n) o os h =
      let es = keep (λ (e : EdgeRef). e.output_index == o) ctx.outgoing in
      let (edges, declared, run) =
        >>=-eq-ok (map_result (declare_output_edge ctx writes_empty) es) _ h in
      let (later, rest, built) = >>=-eq-ok (declare_outputs ctx writes_empty n (suc o)) _ run in
      subst (All (LightOutput c)) (ok-injective built) (
        connected_output-Light ctx o edges later
          (map_result-All (LightEdge c) _ (declare_output_edge-Light ctx writes_empty) es edges
            declared)
          (declare_outputs-Light ctx writes_empty n (suc o) later rest))

  split_outputs-Weigh :
      (os : List LocalOutput) → All (LightOutput c) os → All (SplitWeighs c) (map split_output os)
  unfolding weight
  split_outputs-Weigh [] h = tt
  split_outputs-Weigh (o ∷ os) h = ((h.0, refl, refl), split_outputs-Weigh os h.1)

connected_output-length :
    (ctx : GadgetContext) (o : ℕ) (es : List EdgeRef) (edges : List LocalEdge)
    (later : List LocalOutput)
    → length edges ≡ length (keep (λ e. e.output_index == o) es)
    → length (connected_output ctx o edges later)
      ≡ (if any (λ e. e.output_index == o) es then 1 else 0) + length later
connected_output-length ctx o es [] later h =
    elim (any-keep (λ (e : EdgeRef). e.output_index == o) es _ (sym h)) [
      | inl (t, n) ↦ absurd (omega arith)
      | inr (f, n) ↦ rw f (omega arith)
    ]
connected_output-length ctx o es (e ∷ edges) later h =
    elim (any-keep (λ (e : EdgeRef). e.output_index == o) es _ (sym h)) [
      | inl (t, n) ↦ rw t (omega arith)
      | inr (f, n) ↦ absurd (omega arith)
    ]

-- One output is declared for each index that an edge leaves.
declare_outputs-length :
    (ctx : GadgetContext) (writes_empty : Bool) (n o : ℕ) (os : List LocalOutput)
    → declare_outputs ctx writes_empty n o ≡ ok os
    → length os ≡ connected_count ctx.outgoing n o
declare_outputs-length ctx writes_empty zero o os h = ap length (sym (ok-injective h))
declare_outputs-length ctx writes_empty (suc n) o os h =
    let es = keep (λ (e : EdgeRef). e.output_index == o) ctx.outgoing in
    let (edges, declared, run) =
      >>=-eq-ok (map_result (declare_output_edge ctx writes_empty) es) _ h in
    let (later, rest, built) = >>=-eq-ok (declare_outputs ctx writes_empty n (suc o)) _ run in
    omega (
      arith,
      ap length (ok-injective built),
      connected_output-length ctx o ctx.outgoing edges later
          (map_result-length _ es edges declared),
      declare_outputs-length ctx writes_empty n (suc o) later rest,
    )

pub build_routing-Weighs :
    (c : Coefficients) (ctx : GadgetContext) (has_skip : Bool) (r : Routing)
    → build_routing ctx has_skip ≡ ok r
    → IsFair c ctx
    → RoutingWeighs c r
unfolding build_routing weight
build_routing-Weighs c ctx has_skip r h fair =
    let (os, declared, built) =
      >>=-eq-ok (declare_outputs ctx (not ctx.cyclic || has_skip) ctx.output_count 0) _ h in
    let light = declare_outputs-Light c ctx _ _ _ os declared in
    elim (Bool-cases (is_split ctx)) [
      | inl s ↦
          subst (RoutingWeighs c) (ap (λ b. routing_shape b os) (sym s) ∙ ok-injective built) (
            split_outputs-Weigh c os light,
            fair s
                ∙ ap (λ (n : ℕ). n * c.part)
                    (sym
                      (length-map split_output os ∙ declare_outputs-length ctx _ _ _ os declared)),
          )
      | inr s ↦
          subst (RoutingWeighs c) (ap (λ b. routing_shape b os) (sym s) ∙ ok-injective built)
            (refl, light)
    ]
