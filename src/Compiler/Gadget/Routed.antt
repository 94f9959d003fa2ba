-- ===== src/Compiler/Gadget/Routed.antt =====
-- The weight of the outcomes of gadget/outcome.ts: what the routing and the closing branches of a
-- run write.
use n8n_libpetri.Prelude.{
  ℕ, ◌*◌, ◌≡◌, refl, ap, subst, Bool, true, false, Option, none, some, List, [], ◌∷◌, ◌++◌, map,
  arith, Option-cases, inl, inr, length, length-map, nat_eq,
}
use n8n_libpetri.Prelude.Predicates.{All, OptionAll}
use n8n_libpetri.Prelude.Results.{Result, ok, err, >>=-eq-ok, ok-injective}
use n8n_libpetri.Compiler.Gadget.Net.{
  Place, budget, halt, pause, waiting, stopped, Out, place, and, outs,
}
use n8n_libpetri.Compiler.Gadget.Shapes.{
  GadgetError, no_empty_place, LocalEdge, InputSide, tool_side, LocalOutput, SplitOutput, Routing,
  collapsed, split,
}
use n8n_libpetri.Compiler.Gadget.Declare.{map_result}
use n8n_libpetri.Compiler.Gadget.Outputs.{
  and_of, xor_of, empty_out, empties_of, nothing_of, routing_of, tool_response, node_success,
  success_branch, closing_branches,
}
use n8n_libpetri.Compiler.Gadget.Failure.{shared_ports, markers_of_node}
use n8n_libpetri.Compiler.Gadget.Weights
use n8n_libpetri.Compiler.Gadget.Weights.{Coefficients, weight, Weighs, Sums, Agree}
use n8n_libpetri.Compiler.Gadget.Parts.{IsLight, LightEdge}

pub All-map {ℓ κ μ} :
    {A : Type ℓ} {B : Type κ} (P : B → Type μ) (f : A → B) (xs : List A)
    → All (λ x. P (f x)) xs
    → All P (map f xs)
All-map P f [] h = tt
All-map P f (x ∷ xs) h = (h.0, All-map P f xs h.1)

pub All-imp {ℓ κ μ} :
    {A : Type ℓ} (P : A → Type κ) (Q : A → Type μ)
    → ((x : A) → P x → Q x)
    → (xs : List A) → All P xs
    → All Q xs
All-imp P Q imp [] h = tt
All-imp P Q imp (x ∷ xs) h = (imp x h.0, All-imp P Q imp xs h.1)

module _ (c : Coefficients) where
  pub places-Weigh :
      (n : ℕ) (ps : List Place) → All (λ p. weight c p ≡ n) ps → All (Weighs c n) (map place ps)
  places-Weigh n ps h = All-map (Weighs c n) place ps (
      All-imp _ (λ p. Weighs c n (place p))
        (λ p e. subst (λ k. Weighs c k (place p)) e (Weights.place-Weighs c p)) ps h)

  pub Sums-same : (n : ℕ) (os : List Out) → All (Weighs c n) os → Sums c os (length os * n)
  Sums-same n [] h = Weights.Sums-eq c [] (Weights.Sums-nil c) (omega arith)
  Sums-same n (o ∷ os) h =
      Weights.Sums-eq c (o ∷ os) (Weights.Sums-cons c o os h.0 (Sums-same n os h.1)) (omega arith)

  pub Sums-zero : (os : List Out) → All (Weighs c 0) os → Sums c os 0
  Sums-zero os h = Weights.Sums-eq c os (Sums-same 0 os h) (omega arith)

  pub Agree-of : (n : ℕ) (os : List Out) → All (Weighs c n) os → Agree c os n
  Agree-of n os h = record { each = h }

  pub Light-Weighs : (p : Place) (n : ℕ) → weight c p ≡ n → Weighs c n (place p)
  Light-Weighs p n e = subst (λ k. Weighs c k (place p)) e (Weights.place-Weighs c p)

  abbrev pub LightOutput : LocalOutput → Type 0
  LightOutput o = All (LightEdge c) o.edges × OptionAll (IsLight c) o.nil_place

  abbrev pub SplitWeighs : SplitOutput → Type 0
  SplitWeighs s =
      LightOutput s.output × (weight c s.ok_place ≡ c.part) × (weight c s.routed_place ≡ c.part)

  abbrev pub RoutingWeighs : Routing → Type 0
  RoutingWeighs (collapsed r os) = (weight c r ≡ c.unit) × All LightOutput os
  RoutingWeighs (split os) = All SplitWeighs os × (c.unit ≡ length os * c.part)

  -- What `X_route` or the run delivers has no weight.
  data_places-Weigh :
      (es : List LocalEdge)
      → All (LightEdge c) es
      → All (Weighs c 0) (map (λ e. place e.data_place) es)
  data_places-Weigh [] h = tt
  data_places-Weigh (e ∷ es) h = (Light-Weighs e.data_place 0 h.0.0, data_places-Weigh es h.1)

  empties-Weigh :
      (es : List LocalEdge) (os : List Out)
      → map_result empty_out es ≡ ok os
      → All (LightEdge c) es
      → All (Weighs c 0) os
  empties-Weigh [] os h light = subst (All (Weighs c 0)) (ok-injective h) tt
  empties-Weigh (e ∷ es) os h light =
      let (o, first, run) = >>=-eq-ok (empty_out e) _ h in
      let (later, rest, done) = >>=-eq-ok (map_result empty_out es) _ run in
      subst (All (Weighs c 0)) (ok-injective done)
        (empty_one e.empty_place o first light.0.1, empties-Weigh es later rest light.1)
    where
      empty_one :
          (p : Option Place) (o : Out)
          → ◌≡◌ {A = Result GadgetError Out}
              (elim p [ none ↦ err no_empty_place | some p ↦ ok (place p) ])
              (ok o)
          → OptionAll (IsLight c) p
          → Weighs c 0 o
      empty_one none o h l = cc
      empty_one (some p) o h l = subst (Weighs c 0) (ok-injective h) (Light-Weighs p 0 l)

  empties_of-Weighs :
      (es : List LocalEdge) (o : Out) → empties_of es ≡ ok o → All (LightEdge c) es → Weighs c 0 o
  empties_of-Weighs es o h light =
      let (os, made, built) = >>=-eq-ok (map_result empty_out es) _ h in
      Weights.and_of-Weighs c os (Sums-zero os (empties-Weigh es os made light)) built

  nothing_of-Weighs :
      (out : LocalOutput) (o : Out) → nothing_of out ≡ ok o → LightOutput out → Weighs c 0 o
  nothing_of-Weighs out o h light = elim (Option-cases out.nil_place) [
    | inl e ↦ empties_of-Weighs out.edges o (rw (e, nothing_of) at h) light.0
    | inr (p, e) ↦
        subst (Weighs c 0) (ok-injective (rw (e, nothing_of) at h))
          (Light-Weighs p 0 (subst (OptionAll (IsLight c)) e light.1))
  ]

  pub routing_of-Weighs :
      (out : LocalOutput) (o : Out) → routing_of out ≡ ok o → LightOutput out → Weighs c 0 o
  routing_of-Weighs out o h light =
      let (full, made, run) =
        >>=-eq-ok (and_of (map (λ (e : LocalEdge). place e.data_place) out.edges)) _ h in
      let (rest, nothing, built) = >>=-eq-ok (nothing_of out) _ run in
      subst (Weighs c 0) (ok-injective built) (
        Weights.xor-Weighs c (full ∷ rest ∷ []) (
          Agree-of 0 (full ∷ rest ∷ []) (
            Weights.and_of-Weighs c _ (Sums-zero _ (data_places-Weigh out.edges light.0)) made,
            (nothing_of-Weighs out rest nothing light, tt),
          )))

  routings-Weigh :
      (os : List LocalOutput) (ws : List Out)
      → map_result routing_of os ≡ ok ws
      → All LightOutput os
      → All (Weighs c 0) ws
  routings-Weigh [] ws h light = subst (All (Weighs c 0)) (ok-injective h) tt
  routings-Weigh (o ∷ os) ws h light =
      let (w, first, run) = >>=-eq-ok (routing_of o) _ h in
      let (later, rest, done) = >>=-eq-ok (map_result routing_of os) _ run in
      subst (All (Weighs c 0)) (ok-injective done)
        (routing_of-Weighs o w first light.0, routings-Weigh os later rest light.1)

  -- The success outcome of a node, and that of a tool, weigh one unit.
  node_success-Weighs :
      (r : Routing) (o : Out) → node_success r ≡ ok o → RoutingWeighs r → Weighs c c.unit o
  node_success-Weighs (collapsed r os) o h (done, light) =
      let (ws, made, built) = >>=-eq-ok (map_result routing_of os) _ h in
      Weights.and_of-Weighs c _
        (Weights.Sums-eq c (ws ++ place r ∷ [])
          (Weights.Sums-append c ws (place r ∷ []) (Sums-zero ws (routings-Weigh os ws made light))
            (Weights.Sums-place c r [] (Weights.Sums-nil c)))
          (omega arith))
        built
  node_success-Weighs (split os) o h (each, fair) =
      Weights.and_of-Weighs c _
        (Weights.Sums-eq c (map (λ (s : SplitOutput). place s.ok_place) os)
          (Sums-same c.part _ (
            All-map (Weighs c c.part) (λ (s : SplitOutput). place s.ok_place) os
              (All-imp SplitWeighs (λ s. Weighs c c.part (place s.ok_place))
                (λ s w. Light-Weighs s.ok_place c.part w.1) os each)))
          (omega (
            arith,
            length-map (λ (s : SplitOutput). place s.ok_place) os,
            ap (λ (n : ℕ). n * c.part) (length-map (λ (s : SplitOutput). place s.ok_place) os),
          )))
        h

  tool_response-Weighs :
      (ports : List Place) (r : Routing) (o : Out)
      → tool_response ports r ≡ ok o
      → All (IsLight c) ports
      → RoutingWeighs r
      → Weighs c c.unit o
  tool_response-Weighs ports (split os) o h light w = cc
  tool_response-Weighs ports (collapsed r os) o h light (done, rest) =
      let (answer, made, built) = >>=-eq-ok (xor_of (map place ports)) _ h in
      subst (Weighs c c.unit) (ok-injective built) (
        Weights.and-Weighs c (answer ∷ place r ∷ []) (
          Weights.Sums-eq c _
            (Weights.Sums-cons c answer (place r ∷ [])
              (Weights.xor_of-Weighs c _ (Agree-of 0 _ (places-Weigh 0 ports light)) made)
              (Weights.Sums-place c r [] (Weights.Sums-nil c)))
            (omega arith)))

  pub success_branch-Weighs :
      (side : InputSide) (r : Routing) (ports : List Place) (o : Out)
      → success_branch side r ports ≡ ok o
      → All (IsLight c) ports
      → RoutingWeighs r
      → Weighs c c.unit o
  unfolding success_branch
  success_branch-Weighs (tool_side p) r ports o h light w = tool_response-Weighs ports r o h light w
  success_branch-Weighs side r ports o h light w = node_success-Weighs r o h w

  refund-Weighs :
      (p q : Place)
      → weight c p ≡ 0
      → weight c q ≡ c.unit
      → Weighs c c.unit (and (outs (place p ∷ place q ∷ [])))
  refund-Weighs p q e f = Weights.and-Weighs c (place p ∷ place q ∷ []) (
      Weights.Sums-eq c _
        (Weights.Sums-place c p _ (Weights.Sums-place c q [] (Weights.Sums-nil c))) (omega arith))

  pause-Weighs :
      (p q r : Place)
      → weight c p ≡ 0
      → weight c q ≡ 0
      → weight c r ≡ c.unit
      → Weighs c c.unit (and (outs (place p ∷ place q ∷ place r ∷ [])))
  pause-Weighs p q r e f g = Weights.and-Weighs c (place p ∷ place q ∷ place r ∷ []) (
      Weights.Sums-eq c _
        (Weights.Sums-place c p _
          (Weights.Sums-place c q _ (Weights.Sums-place c r [] (Weights.Sums-nil c))))
        (omega arith))

  -- The halt, waiting and stopped branches give the budget back.
  pub closing_branches-Weigh :
      (halts : Bool) → All (Weighs c c.unit) (closing_branches shared_ports markers_of_node halts)
  unfolding weight
  closing_branches-Weigh true = (
    refund-Weighs halt budget refl refl,
    (
      pause-Weighs waiting pause budget refl refl refl,
      (pause-Weighs stopped pause budget refl refl refl, tt),
    ),
  )
  closing_branches-Weigh false = (
    pause-Weighs waiting pause budget refl refl refl,
    (pause-Weighs stopped pause budget refl refl refl, tt),
  )
