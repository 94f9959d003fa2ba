-- ===== src/Compiler/Compile/Budget.antt =====
-- The budget of the composed net: marking.ts seeds it with the effective budget, the transitions of
-- gadget.ts pass it on.
use n8n_libpetri.Prelude.{
  ℕ, suc, zero, ◌+◌, ◌*◌, ◌≡◌, refl, sym, ap, ◌∙◌, Bool, true, false, List, [], ◌∷◌, length, String,
  string_eq, ◌==◌, Bool-cases, inl, inr, arith,
}
use mathlib.Core.List.{Memᴰ}
use n8n_libpetri.Prelude.Maps
use n8n_libpetri.Prelude.Predicates.{All, All-mem, All-map}
use n8n_libpetri.Prelude.Results.{ok, >>=-eq-ok}
use n8n_libpetri.Compiler.Gadget.Net.{
  Place, idle, running, running_at, running_failed, retry, routed, routed_request, failed,
  timed_out,
}
use n8n_libpetri.Compiler.Gadget.Weights.{weight}
use n8n_libpetri.Compiler.Compile.{NetPlace, shared_budget, owned, net_place_eq}
use n8n_libpetri.Compiler.Compile.EdgePlaces.{NetNode}
use n8n_libpetri.Compiler.Compile.Compose.{NodeBuild, flat, compose_net}
use n8n_libpetri.Compiler.Compile.Marking.{
  Token, Marking, units, put, seed_nodes, shared_marking_of, initial_marking_of,
}
use n8n_libpetri.Compiler.Compile.Game.{replicate, TokenGame, Run, tokens_of}
use n8n_libpetri.Compiler.Compile.Kept.{
  NetWeights, net_weight, net_total, net_total-append, flat-weight, KeepsWeight, Run-total,
}
use n8n_libpetri.Compiler.Compile.Built.{AllFair, Built, compose_net-Built}
use n8n_libpetri.Compiler.Compile.Seeds.{Seedable}
use n8n_libpetri.Compiler.Compile.Starts.{seed_nodes_lem, seed_skipped_lem, initial_marking_of_lem}

module _ (w : NetWeights) where
  pub net_total-replicate :
      (n : ℕ) (p : NetPlace) → net_total w (replicate n p) ≡ n * net_weight w p
  net_total-replicate zero p = omega arith
  net_total-replicate (suc n) p = grind (arith, net_total-replicate n p)

  pub tokens_of-cons :
      (p : NetPlace) (ts : List Token) (m : Marking)
      → net_total w (tokens_of ((p, ts) ∷ m))
        ≡ length ts * net_weight w p + net_total w (tokens_of m)
  tokens_of-cons p ts m =
      net_total-append w (replicate (length ts) p) (tokens_of m)
      ∙ ap (λ n. n + net_total w (tokens_of m)) (net_total-replicate (length ts) p)

  pub light_entry :
      (p : NetPlace) (ts : List Token) (m : Marking)
      → net_weight w p ≡ 0
      → net_total w (tokens_of ((p, ts) ∷ m)) ≡ net_total w (tokens_of m)
  light_entry p ts m e = tokens_of-cons p ts m ∙ grind (arith, e)

  same_tail :
      (p : NetPlace) (ts : List Token) (m n : Marking)
      → net_total w (tokens_of m) ≡ net_total w (tokens_of n)
      → net_total w (tokens_of ((p, ts) ∷ m)) ≡ net_total w (tokens_of ((p, ts) ∷ n))
  same_tail p ts m n e = omega (arith, tokens_of-cons p ts m, tokens_of-cons p ts n, e)

  pub set-total :
      (m : Marking) (p : NetPlace) (ts : List Token)
      → net_weight w p ≡ 0
      → net_total w (tokens_of (Maps.set m p ts)) ≡ net_total w (tokens_of m)
  set-total [] p ts e = light_entry p ts [] e
  set-total ((q, us) ∷ m) p ts e = elim (Bool-cases (q == p)) [
    | inl t ↦
        let z = ap (net_weight w) ((net_place_eq.beq_iff q p).0 t) ∙ e in
        rw t (light_entry q ts m z ∙ sym (light_entry q us m z))
    | inr f ↦ rw f (same_tail q us (Maps.set m p ts) m (set-total m p ts e))
  ]

  pub delete-total :
      (m : Marking) (p : NetPlace)
      → net_weight w p ≡ 0
      → net_total w (tokens_of (Maps.delete m p)) ≡ net_total w (tokens_of m)
  delete-total [] p e = refl
  delete-total ((q, us) ∷ m) p e = elim (Bool-cases (q == p)) [
    | inl t ↦
        rw t (sym (light_entry q us m (ap (net_weight w) ((net_place_eq.beq_iff q p).0 t) ∙ e)))
    | inr f ↦ rw f (same_tail q us (Maps.delete m p) m (delete-total m p e))
  ]

length-units : (n : ℕ) → length (units n) ≡ n
length-units zero = refl
length-units (suc n) = omega (arith, length-units n)

-- A unit for each budget token, and for each node a share of it for the markers of its outputs.
abbrev pub budget_weights : ℕ → (String → ℕ) → NetWeights
budget_weights unit share = record {
  unit = unit;
  of = λ id. record { unit = unit; turn = 0; part = share id; slot = λ i. 0 };
  shared_unit = λ id. refl;
}

-- A place of the flat net that holds a token of the budget while a node is under way.
abbrev pub holds_budget : Place → Bool
holds_budget running = true
holds_budget (running_at k) = true
holds_budget running_failed = true
holds_budget retry = true
holds_budget routed = true
holds_budget routed_request = true
holds_budget (failed k) = true
holds_budget (timed_out k) = true
holds_budget _ = false

abbrev pub is_under_way : NetPlace → Bool
is_under_way (owned id p) = holds_budget p
is_under_way _ = false

module _ (unit : ℕ) (share : String → ℕ) where
  abbrev weights : NetWeights
  weights = budget_weights unit share

  -- The seeds leave the budget that the marking has.
  abbrev Holds : ℕ → Marking → Type 0
  Holds n m = net_total weights (tokens_of m) ≡ n

  idle_place-Light : (b : NodeBuild) → Built weights b → net_weight weights (flat b idle) ≡ 0
  unfolding weight
  idle_place-Light b k = flat-weight weights b idle k.keeps.ports

  Holds-Seedable : (n : ℕ) → Seedable weights (Holds n)
  Holds-Seedable n = record {
    slot_lem = λ id i. refl;
    set_lem = λ m p ts e h. set-total weights m p ts e ∙ h;
    delete_lem = λ m p e h. delete-total weights m p e ∙ h;
    idle_lem = λ m b k h. set-total weights m (flat b idle) (units 1) (idle_place-Light b k) ∙ h;
  }

  put_budget-total : (k : ℕ) → Holds (k * unit) (put [] shared_budget (units k))
  unfolding net_weight
  put_budget-total zero = omega arith
  put_budget-total (suc k) =
      tokens_of-cons weights shared_budget (units (suc k)) [] ∙ grind (arith, length-units (suc k))

  shared_marking_of-total :
      (bs : List NodeBuild) (seeded : List String) (k : ℕ) (m : Marking)
      → shared_marking_of bs seeded k ≡ ok m
      → All (Built weights) bs
      → Holds (k * unit) m
  unfolding shared_marking_of
  shared_marking_of-total bs seeded k m h built =
      let keeps = Holds-Seedable (k * unit) in
      let start = put [] shared_budget (units k) in
      let (m₁, nodes, run) = >>=-eq-ok (seed_nodes start bs) _ h in
      seed_skipped_lem weights (Holds (k * unit)) keeps m₁ m bs seeded run (
        seed_nodes_lem weights (Holds (k * unit)) keeps start m₁ bs nodes built
          (put_budget-total k))

  -- Every marking that a run of the composed net reaches from its initial marking has the total
  -- weight of the effective budget, where a budget token and the token of a node under way weigh one
  -- unit each, and the markers of the outputs of a node that routes per output share one unit evenly.
  pub compose_net-Budget :
      (game : TokenGame) (nodes : List NetNode) (bs : List NodeBuild) (seeded : List String) (k : ℕ)
      (b : NodeBuild) (shared start : Marking) (after : List NetPlace)
      → compose_net nodes ≡ ok bs
      → AllFair weights nodes
      → Memᴰ b bs
      → shared_marking_of bs seeded k ≡ ok shared
      → initial_marking_of shared b ≡ ok start
      → Run game bs (tokens_of start) after
      → net_total weights after ≡ k * unit
  compose_net-Budget game nodes bs seeded k b shared start after h fair m e₁ e₂ run =
      let built = compose_net-Built weights nodes bs h fair in
      Run-total weights game bs (tokens_of start) after
        (All-map (Built weights) (KeepsWeight weights) (λ x y. y.keeps) bs built) run
      ∙ initial_marking_of_lem weights (Holds (k * unit)) (Holds-Seedable (k * unit)) b
          (All-mem (Built weights) bs built m) shared start e₂
          (shared_marking_of-total bs seeded k shared e₁ built)

  holds_budget-weight :
      (id : String) (p : Place) → holds_budget p ≡ true → net_weight weights (owned id p) ≡ unit
  unfolding net_weight weight
  holds_budget-weight id running h = omega arith
  holds_budget-weight id (running_at k) h = omega arith
  holds_budget-weight id running_failed h = omega arith
  holds_budget-weight id retry h = refl
  holds_budget-weight id routed h = refl
  holds_budget-weight id routed_request h = refl
  holds_budget-weight id (failed k) h = refl
  holds_budget-weight id (timed_out k) h = refl
  holds_budget-weight id _ h = cc

  pub is_under_way-weight : (p : NetPlace) → is_under_way p ≡ true → net_weight weights p ≡ unit
  is_under_way-weight (owned id p) h = holds_budget-weight id p h
  is_under_way-weight _ h = cc
