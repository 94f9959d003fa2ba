-- ===== src/Compiler/Compile/Starts.antt =====
-- marking.ts `sharedMarkingOf` and `initialMarkingOf`: what the seeds keep, the markings of a start
-- keep as well.
use n8n_libpetri.Prelude.{
  ℕ, ◌≡◌, refl, subst, ◌∙◌, Bool, true, false, Option, none, some, List, [], ◌∷◌, String, string_eq,
  ◌==◌, if◌then◌else◌,
}
use n8n_libpetri.Prelude.Maps
use n8n_libpetri.Prelude.Predicates.{All, OptionAll, if-keeps}
use n8n_libpetri.Prelude.Results.{ok, err, >>=-eq-ok, ok-injective}
use n8n_libpetri.Compiler.Gadget.Net.{Place, skipped}
use n8n_libpetri.Compiler.Gadget.Shapes.{
  InputSide, direct_side, or_side, join_side, choose_branch_side, tool_side, JoinInput, ReadySlot,
  single, split,
}
use n8n_libpetri.Compiler.Gadget.Declare.{ready_slot}
use n8n_libpetri.Compiler.Gadget.Weights.{weight}
use n8n_libpetri.Compiler.Gadget.Parts.{JoinWeighs, SlotWeighs, SideWeighs}
use n8n_libpetri.Compiler.Gadget.Balance.Starts.{ready_slot-Weighs}
use n8n_libpetri.Compiler.Compile.{NetPlace, owned, net_place_eq}
use n8n_libpetri.Compiler.Compile.Compose.{NodeBuild, has_skipped, flat}
use n8n_libpetri.Compiler.Compile.Kept.{NetWeights, net_weight}
use n8n_libpetri.Compiler.Compile.Built.{Built}
use n8n_libpetri.Compiler.Compile.Seeds
use n8n_libpetri.Compiler.Compile.Seeds.{Seedable, in_slot-eq-ok}
use n8n_libpetri.Compiler.Compile.Marking.{
  trigger_token, Marking, units, in_slot, seed_node, seed_nodes, skipped_of, seed_skipped,
  ready_places_of, delete_all, mark_data, start_tokens, no_skipped, skipped_place, seed_start_slots,
  start_side, initial_marking_of,
}

module _ (w : NetWeights) (P : Marking → Type 0) (s : Seedable w P) where
  pub seed_nodes_lem :
      (m m' : Marking) (bs : List NodeBuild)
      → seed_nodes m bs ≡ ok m'
      → All (Built w) bs
      → P m
      → P m'
  seed_nodes_lem m m' [] h k p = subst P (ok-injective h) p
  seed_nodes_lem m m' (b ∷ bs) h k p =
      let (m₁, first, run) = >>=-eq-ok (seed_node m b) _ h in
      seed_nodes_lem m₁ m' bs run k.1 (Seeds.seed_node_lem w P s b k.0 m m₁ first p)

  skipped_place_lem : (b : NodeBuild) (p : NetPlace) → skipped_place b ≡ ok p → net_weight w p ≡ 0
  unfolding net_weight weight
  skipped_place_lem b p h = by (has_skipped b) h
    where
      by :
          (t : Bool)
          → (if t then ok (owned b.node.id skipped) else err (no_skipped b.node.name)) ≡ ok p
          → net_weight w p ≡ 0
      by true h' = subst (λ q. net_weight w q ≡ 0) (ok-injective h') refl
      by false h' = cc

  skipped_of_lem :
      (bs : List NodeBuild) (y : String) (p : NetPlace)
      → skipped_of bs y ≡ ok p
      → net_weight w p ≡ 0
  skipped_of_lem [] y p h = cc
  skipped_of_lem (b ∷ bs) y p h = by (b.node.name == y) (skipped_of_lem bs y p) h
    where
      by :
          (t : Bool)
          → (skipped_of bs y ≡ ok p → net_weight w p ≡ 0)
          → (if t then skipped_place b else skipped_of bs y) ≡ ok p
          → net_weight w p ≡ 0
      by true later h' = skipped_place_lem b p h'
      by false later h' = later h'

  pub seed_skipped_lem :
      (m m' : Marking) (bs : List NodeBuild) (ys : List String)
      → seed_skipped m bs ys ≡ ok m'
      → P m
      → P m'
  seed_skipped_lem m m' bs [] h p = subst P (ok-injective h) p
  seed_skipped_lem m m' bs (y ∷ ys) h p =
      let (q, found, run) = >>=-eq-ok (skipped_of bs y) _ h in
      seed_skipped_lem (Maps.set m q (units 1)) m' bs ys run
        (s.set_lem m q (units 1) (skipped_of_lem bs y q found) p)

  module _ (b : NodeBuild) (k : Built w b) where
    light :
        (p : Place) {n : ℕ} → weight (w.of b.node.id) p ≡ n → n ≡ 0 → net_weight w (flat b p) ≡ 0
    light = Seeds.light w P s b k

    delete_all_lem :
        (m : Marking) (ps : List Place)
        → All (λ p. weight (w.of b.node.id) p ≡ 0) ps
        → P m
        → P (delete_all m b ps)
    delete_all_lem m [] e h = h
    delete_all_lem m (p ∷ ps) e h =
        delete_all_lem (Maps.delete m (flat b p)) ps e.1
          (s.delete_lem m (flat b p) (light p e.0 refl) h)

    ready_places-Light :
        (slot : ReadySlot) (n : ℕ)
        → SlotWeighs (w.of b.node.id) n slot
        → n ≡ 0
        → All (λ p. weight (w.of b.node.id) p ≡ 0) (ready_places_of slot)
    ready_places-Light (single p) n e z = (e ∙ z, tt)
    ready_places-Light (split d none) n e z = (e.0 ∙ z, tt)
    ready_places-Light (split d (some q)) n e z = (e.0 ∙ z, (e.1 ∙ z, tt))

    mark_data_lem :
        (m : Marking) (h : Option Place)
        → OptionAll (λ p. weight (w.of b.node.id) p ≡ 0) h
        → P m
        → P (mark_data m b h)
    mark_data_lem m none e p = p
    mark_data_lem m (some q) e p = s.set_lem m (flat b q) (units 1) (light q e refl) p

    seed_start_slots_lem :
        (m m' : Marking) (h : Option Place) (first : Bool) (is : List JoinInput)
        → seed_start_slots m b h first is ≡ ok m'
        → OptionAll (λ p. weight (w.of b.node.id) p ≡ 0) h
        → All (JoinWeighs (w.of b.node.id)) is
        → P m
        → P m'
    seed_start_slots_lem m m' h first [] run e k p = subst P (ok-injective run) p
    seed_start_slots_lem m m' h first (i ∷ is) run e k p =
        let c = w.of b.node.id in
        let none_free = s.slot_lem b.node.id i.common.index in
        let (q, found, later) = >>=-eq-ok (in_slot b.node.name (ready_slot i.slot true)) _ run in
        let slot = in_slot-eq-ok b.node.name (ready_slot i.slot true) found in
        let emptied = Maps.delete m (flat b i.free_place) in
        let cleared = delete_all emptied b (ready_places_of i.slot) in
        let filled = Maps.set cleared (flat b q) (start_tokens first) in
        let kept =
          s.set_lem cleared (flat b q) (start_tokens first)
            (light q (ready_slot-Weighs c i.slot true q _ slot k.0.1) none_free)
            (delete_all_lem emptied (ready_places_of i.slot)
              (ready_places-Light i.slot (c.slot i.common.index) k.0.1 none_free)
              (s.delete_lem m (flat b i.free_place) (light i.free_place k.0.0 none_free) p)) in
        seed_start_slots_lem (if first then mark_data filled b h else filled) m' h false is later e
          k.1 (if-keeps P first (mark_data filled b h) filled (mark_data_lem filled h e kept) kept)

    start_side_lem :
        (m m' : Marking) (side : InputSide)
        → start_side m b side ≡ ok m'
        → SideWeighs (w.of b.node.id) side
        → P m
        → P m'
    start_side_lem m m' (tool_side q) h e p = cc
    start_side_lem m m' (direct_side q o) h e p =
        subst P (ok-injective h) (s.set_lem m (flat b q) (trigger_token ∷ []) (light q e.0 refl) p)
    start_side_lem m m' (or_side i) h e p = subst P (ok-injective h) (
        s.set_lem m (flat b i.hasdata_place) (trigger_token ∷ []) (light i.hasdata_place e.1 refl)
          p)
    start_side_lem m m' (join_side q is) h e p =
        seed_start_slots_lem m m' (some q) true is h e.0 e.1 p
    start_side_lem m m' (choose_branch_side is) h e p =
        seed_start_slots_lem m m' none true is h tt e p

    pub initial_marking_of_lem : (m m' : Marking) → initial_marking_of m b ≡ ok m' → P m → P m'
    unfolding initial_marking_of
    initial_marking_of_lem m m' h p = start_side_lem m m' b.side h k.inputs_side p
