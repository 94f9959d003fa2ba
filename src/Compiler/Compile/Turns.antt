-- ===== src/Compiler/Compile/Turns.antt =====
-- The turn of a node in the composed net: marking.ts puts one token on `X/idle`, the start takes it
-- and the end of the run gives it back.
use n8n_libpetri.Prelude.{
  ℕ, ◌≤◌, ◌≡◌, refl, sym, ap, subst, ◌∙◌, Bool, true, false, ◌&&◌, List, [], ◌∷◌, length, keep,
  String, string_eq, ◌==◌, Bool-cases, inl, inr, if◌then◌else◌, arith,
}
use mathlib.Core.Logic.{◌⊎◌}
use mathlib.Core.List.{Memᴰ}
use n8n_libpetri.Prelude.Maps
use n8n_libpetri.Prelude.Predicates.{All, All-mem, All-map}
use n8n_libpetri.Prelude.Results.{ok, >>=-eq-ok}
use n8n_libpetri.Compiler.Gadget.Net.{Place, idle, running, running_at, running_failed}
use n8n_libpetri.Compiler.Gadget.Weights.{weight}
use n8n_libpetri.Compiler.Compile.{NetPlace, shared_budget, owned, net_place_eq}
use n8n_libpetri.Compiler.Compile.EdgePlaces.{NetNode}
use n8n_libpetri.Compiler.Compile.Compose.{NodeBuild, flat, compose_net}
use n8n_libpetri.Compiler.Compile.Marking.{
  Token, Marking, units, put, seed_nodes, shared_marking_of, initial_marking_of,
}
use n8n_libpetri.Compiler.Compile.Game.{TokenGame, Run, tokens_of}
use n8n_libpetri.Compiler.Compile.Kept.{
  NetWeights, net_weight, net_total, flat-weight, KeepsWeight, Run-total,
}
use n8n_libpetri.Compiler.Compile.Interface.{flat-owned}
use n8n_libpetri.Compiler.Compile.Built.{AllFair, Built, compose_net-Built}
use n8n_libpetri.Compiler.Compile.Seeds.{Seedable, put_lem}
use n8n_libpetri.Compiler.Compile.Starts.{seed_nodes_lem, seed_skipped_lem, initial_marking_of_lem}
use n8n_libpetri.Compiler.Compile.Budget.{tokens_of-cons, light_entry, set-total, delete-total}

-- One unit for the turn of the node `x`, and nothing for the others.
abbrev pub turn_weights : String → NetWeights
turn_weights x = record {
  unit = 0;
  of = λ id. record { unit = 0; turn = if id == x then 1 else 0; part = 0; slot = λ i. 0 };
  shared_unit = λ id. refl;
}

-- The places that hold the turn of a node.
abbrev pub holds_turn : Place → Bool
holds_turn idle = true
holds_turn running = true
holds_turn (running_at k) = true
holds_turn running_failed = true
holds_turn _ = false

abbrev pub is_turn_of : String → NetPlace → Bool
is_turn_of x (owned id p) = id == x && holds_turn p
is_turn_of x _ = false

module _ (x : String) where
  abbrev weights : NetWeights
  weights = turn_weights x

  abbrev key : NetPlace
  key = owned x idle

  key-weight : net_weight weights key ≡ 1
  unfolding net_weight weight
  key-weight = ground (arith, string_eq.beq_iff x x)

  -- At most one entry of the marking has weight: that of `x/idle`, with one token.
  abbrev Turn : Marking → Type 0
  Turn [] = Unit
  Turn ((p, ts) ∷ m) =
      ((net_weight weights p ≡ 0) × Turn m)
      ⊎ ((p ≡ key) × (length ts ≡ 1) × (net_total weights (tokens_of m) ≡ 0))

  not_key : (p q : NetPlace) → net_weight weights p ≡ 0 → q ≡ key → (q == p) ≡ false
  not_key p q e k = elim (Bool-cases (q == p)) [
    | inl t ↦
        let same = ap (net_weight weights) (sym k ∙ (net_place_eq.beq_iff q p).0 t) in
        absurd (omega (arith, key-weight, same, e))
    | inr f ↦ f
  ]

  Turn-set :
      (m : Marking) (p : NetPlace) (ts : List Token)
      → net_weight weights p ≡ 0
      → Turn m
      → Turn (Maps.set m p ts)
  Turn-set [] p ts e h = inl (e, tt)
  Turn-set ((q, us) ∷ m) p ts e (inl (z, h)) = elim (Bool-cases (q == p)) [
    | inl t ↦ rw t (inl (z, h))
    | inr f ↦ rw f (inl (z, Turn-set m p ts e h))
  ]
  Turn-set ((q, us) ∷ m) p ts e (inr (k, l, z)) =
      rw (not_key p q e k) (inr (k, l, set-total weights m p ts e ∙ z))

  Turn-delete :
      (m : Marking) (p : NetPlace) → net_weight weights p ≡ 0 → Turn m → Turn (Maps.delete m p)
  Turn-delete [] p e h = tt
  Turn-delete ((q, us) ∷ m) p e (inl (z, h)) = elim (Bool-cases (q == p)) [
    | inl t ↦ rw t h
    | inr f ↦ rw f (inl (z, Turn-delete m p e h))
  ]
  Turn-delete ((q, us) ∷ m) p e (inr (k, l, z)) =
      rw (not_key p q e k) (inr (k, l, delete-total weights m p e ∙ z))

  Turn-set_key : (m : Marking) → Turn m → Turn (Maps.set m key (units 1))
  Turn-set_key [] h = inr (refl, refl, refl)
  Turn-set_key ((q, us) ∷ m) (inl (z, h)) = elim (Bool-cases (q == key)) [
    | inl t ↦
        absurd
          (omega (arith, key-weight, ap (net_weight weights) ((net_place_eq.beq_iff q key).0 t), z))
    | inr f ↦ rw f (inl (z, Turn-set_key m h))
  ]
  Turn-set_key ((q, us) ∷ m) (inr (k, l, z)) =
      rw ((net_place_eq.beq_iff q key).1 k) (inr (k, refl, z))

  Turn-total : (m : Marking) → Turn m → net_total weights (tokens_of m) ≤ 1
  Turn-total [] h = omega arith
  Turn-total ((p, ts) ∷ m) (inl (z, h)) =
      omega (arith, light_entry weights p ts m z, Turn-total m h)
  Turn-total ((p, ts) ∷ m) (inr (k, l, z)) =
      grind (arith, tokens_of-cons weights p ts m, ap (net_weight weights) k, key-weight, l, z)

  Turn-idle :
      (m : Marking) (b : NodeBuild)
      → Built weights b
      → Turn m
      → Turn (Maps.set m (flat b idle) (units 1))
  unfolding net_weight weight
  Turn-idle m b k h = elim (Bool-cases (b.node.id == x)) [
    | inl t ↦
        let own = flat-owned b idle k.binds refl in
        let mine = ap (λ id. owned id idle) ((string_eq.beq_iff b.node.id x).0 t) in
        subst (λ p. Turn (Maps.set m p (units 1))) (sym (own ∙ mine)) (Turn-set_key m h)
    | inr f ↦
        Turn-set m (flat b idle) (units 1)
          (flat-weight weights b idle k.keeps.ports ∙ ap (λ t. if t then 1 else 0) f) h
  ]

  Turn-Seedable : Seedable weights Turn
  Turn-Seedable = record {
    slot_lem = λ id i. refl;
    set_lem = Turn-set;
    delete_lem = Turn-delete;
    idle_lem = Turn-idle;
  }

  shared_marking_of-Turn :
      (bs : List NodeBuild) (seeded : List String) (k : ℕ) (m : Marking)
      → shared_marking_of bs seeded k ≡ ok m
      → All (Built weights) bs
      → Turn m
  unfolding shared_marking_of net_weight
  shared_marking_of-Turn bs seeded k m h built =
      let start = put [] shared_budget (units k) in
      let (m₁, nodes, run) = >>=-eq-ok (seed_nodes start bs) _ h in
      seed_skipped_lem weights Turn Turn-Seedable m₁ m bs seeded run (
        seed_nodes_lem weights Turn Turn-Seedable start m₁ bs nodes built
          (put_lem weights Turn Turn-Seedable [] shared_budget (units k) refl tt))

  AllFair-turn : (nodes : List NetNode) → AllFair weights nodes
  AllFair-turn [] = tt
  AllFair-turn (a ∷ as') = ((λ s. omega arith), AllFair-turn as')

  holds_turn-weight : (p : NetPlace) → is_turn_of x p ≡ true → net_weight weights p ≡ 1
  unfolding net_weight weight
  holds_turn-weight (owned id idle) h = ground (arith, h)
  holds_turn-weight (owned id running) h = ground (arith, h)
  holds_turn-weight (owned id (running_at k)) h = ground (arith, h)
  holds_turn-weight (owned id running_failed) h = ground (arith, h)
  holds_turn-weight _ h = ground (arith, h)

  turn-total : (ps : List NetPlace) → length (keep (is_turn_of x) ps) ≤ net_total weights ps
  turn-total [] = omega arith
  turn-total (p ∷ ps) = elim (Bool-cases (is_turn_of x p)) [
    | inl t ↦ rw t (omega (arith, holds_turn-weight p t, turn-total ps))
    | inr f ↦ rw f (omega (arith, turn-total ps))
  ]

  -- In every marking that a run of the composed net reaches from its initial marking, the node `x` has
  -- at most one token on its idle and running places together: it does not run twice at once, and is
  -- not idle while it runs.
  pub compose_net-Turns :
      (game : TokenGame) (nodes : List NetNode) (bs : List NodeBuild) (seeded : List String) (k : ℕ)
      (b : NodeBuild) (shared start : Marking) (after : List NetPlace)
      → compose_net nodes ≡ ok bs
      → Memᴰ b bs
      → shared_marking_of bs seeded k ≡ ok shared
      → initial_marking_of shared b ≡ ok start
      → Run game bs (tokens_of start) after
      → length (keep (is_turn_of x) after) ≤ 1
  compose_net-Turns game nodes bs seeded k b shared start after h m e₁ e₂ run =
      let built = compose_net-Built weights nodes bs h (AllFair-turn nodes) in
      let keeps = All-map (Built weights) (KeepsWeight weights) (λ y z. z.keeps) bs built in
      let turn =
        initial_marking_of_lem weights Turn Turn-Seedable b (All-mem (Built weights) bs built m)
          shared start e₂ (shared_marking_of-Turn bs seeded k shared e₁ built) in
      omega (
        arith,
        turn-total after,
        Run-total weights game bs (tokens_of start) after keeps run,
        Turn-total start turn,
      )
