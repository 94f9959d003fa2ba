-- ===== src/Compiler/Compile/Bindings.antt =====
-- The ports that compose.ts binds, and the places of the edges that edge-places.ts declares: each is
-- bound to a place of the weight of the local one.
use n8n_libpetri.Prelude.{
  ℕ, suc, ◌≡◌, refl, sym, subst, ◌∙◌, Bool, true, false, Option, none, some, List, [], ◌∷◌, ◌++◌,
  ap, String, string_eq, nat_eq, ◌==◌, Bool-cases, inl, inr, if◌then◌else◌,
}
use n8n_libpetri.Prelude.Maps
use n8n_libpetri.Prelude.Predicates.{All, All-append, OptionAll, if-keeps}
use n8n_libpetri.Prelude.Results.{ok, err, ◌>>=◌, >>=-eq-ok, ok-injective}
use n8n_libpetri.Compiler.Types.{EdgeRef}
use n8n_libpetri.Compiler.Gadget.Net.{
  Place, input_empty, in_tool, done, skipped, response, edge_out_empty, ref_done, ref_skipped,
  tool_in, agent_response,
}
use n8n_libpetri.Compiler.Gadget.Weights.{Coefficients, weight}
use n8n_libpetri.Compiler.Compile.{NetPlace, owned, place_eq}
use n8n_libpetri.Compiler.Compile.EdgePlaces.{
  NetNode, HostSlot, HostEdgePlaces, is_direct, is_tree, edge_slot_of, set_slots, node_places,
  collect_places, host_edge_places,
}
use n8n_libpetri.Compiler.Compile.Compose.{
  Ports, NodeBuild, shared_bindings, find_host_slot, empty_binding, output_bindings, instance_of,
  port_in, has_done, has_skipped, has_in_tool, has_response, named_bindings, ports_of, no_port,
}
use n8n_libpetri.Compiler.Gadget.Failure.{declare_references}
use n8n_libpetri.Compiler.Compile.Kept.{NetWeights, net_weight, PortsWeigh}

pub port_in-owned :
    (builds : List NodeBuild) (has_port : NodeBuild → Bool) (target : Place) (n : String)
    (q : NetPlace)
    → port_in builds has_port target n ≡ ok q
    → (id : String) × (owned id target ≡ q)
port_in-owned builds has_port target n q h =
    let (b, found, run) = >>=-eq-ok (instance_of builds n) _ h in by b (has_port b) run
  where
    by :
        (b : NodeBuild) (t : Bool)
        → (if t then ok (owned b.node.id target) else err (no_port n target)) ≡ ok q
        → (id : String) × (owned id target ≡ q)
    by b true h' = (b.node.id, ok-injective h')
    by b false h' = cc

module _ (w : NetWeights) where
  -- The ports that composition binds.
  abbrev IsLightPlace : NetPlace → Type 0
  IsLightPlace q = net_weight w q ≡ 0

  abbrev LightSlot : HostSlot → Type 0
  LightSlot s = IsLightPlace s.data_place × OptionAll IsLightPlace s.empty_place

  edge_slot_of-Light : (a : NetNode) (e : EdgeRef) → LightSlot (edge_slot_of a e)
  unfolding net_weight
  edge_slot_of-Light a e = elim (Bool-cases (is_direct a.facts.form)) [
    | inl d ↦ rw d (refl, by (is_tree e.kind) (owned a.id input_empty) refl)
    | inr d ↦
        rw d (refl, by (is_tree e.kind) (owned a.id (Place.edge_in_empty e.input_index e.id)) refl)
  ]
    where
      by :
          (b : Bool) (q : NetPlace)
          → IsLightPlace q
          → OptionAll IsLightPlace (if b then some q else none)
      by true q h = h
      by false q h = tt

  All-set :
      (slots : List (ℕ × HostSlot)) (k : ℕ) (s : HostSlot)
      → All (λ e. LightSlot e.1) slots
      → LightSlot s
      → All (λ e. LightSlot e.1) (Maps.set slots k s)
  All-set [] k s h l = (l, tt)
  All-set ((j, t) ∷ slots) k s h l = elim (Bool-cases (j == k)) [
    | inl e ↦ rw e (l, h.1)
    | inr e ↦ rw e (h.0, All-set slots k s h.1 l)
  ]

  set_slots-Light :
      (a : NetNode) (slots : List (ℕ × HostSlot)) (es : List EdgeRef)
      → All (λ e. LightSlot e.1) slots
      → All (λ e. LightSlot e.1) (set_slots a slots es)
  set_slots-Light a slots [] h = h
  set_slots-Light a slots (e ∷ es) h =
      set_slots-Light a (Maps.set slots e.id (edge_slot_of a e)) es
        (All-set slots e.id (edge_slot_of a e) h (edge_slot_of-Light a e))

  abbrev pub LightHost : HostEdgePlaces → Type 0
  LightHost host = All (λ e. LightSlot e.1) host.edge_slots

  node_places-Light :
      (a : NetNode) (host : HostEdgePlaces) (es : List EdgeRef)
      → LightHost host
      → LightHost (node_places a host es)
  node_places-Light a host [] h = h
  node_places-Light a host (e ∷ es) h = set_slots-Light a host.edge_slots (e ∷ es) h

  collect_places-Light :
      (host : HostEdgePlaces) (as' : List NetNode)
      → LightHost host
      → LightHost (collect_places host as')
  collect_places-Light host [] h = h
  collect_places-Light host (a ∷ as') h =
      let later = node_places a host a.facts.incoming in
      collect_places-Light (if a.is_tool then host else later) as'
        (if-keeps LightHost a.is_tool host later h (node_places-Light a host a.facts.incoming h))

  pub host_edge_places-Light : (nodes : List NetNode) → LightHost (host_edge_places nodes)
  unfolding host_edge_places
  host_edge_places-Light nodes =
      collect_places-Light (record { edge_slots = []; synthetic_in = [] }) nodes tt

  find_host_slot-Light :
      (slots : List (ℕ × HostSlot)) (e : ℕ) (s : HostSlot)
      → find_host_slot slots e ≡ ok s
      → All (λ x. LightSlot x.1) slots
      → LightSlot s
  find_host_slot-Light [] e s h l = cc
  find_host_slot-Light ((j, t) ∷ slots) e s h l = elim (Bool-cases (j == e)) [
    | inl same ↦ subst LightSlot (ok-injective (rw (same, find_host_slot) at h)) l.0
    | inr other ↦ find_host_slot-Light slots e s (rw (other, find_host_slot) at h) l.1
  ]

  module _ (c : Coefficients) where
    empty_binding-Weighs :
        (p : Place) (b : Bool) (o : Option NetPlace)
        → weight c p ≡ 0
        → OptionAll IsLightPlace o
        → PortsWeigh w c (empty_binding p (if b then o else none))
    empty_binding-Weighs p true none e l = tt
    empty_binding-Weighs p true (some q) e l = (l ∙ sym e, tt)
    empty_binding-Weighs p false o e l = tt

    pub output_bindings-Weigh :
        (slots : List (ℕ × HostSlot)) (writes_empty : Bool) (es : List EdgeRef) (ports : Ports)
        → output_bindings slots writes_empty es ≡ ok ports
        → All (λ x. LightSlot x.1) slots
        → PortsWeigh w c ports
    unfolding weight
    output_bindings-Weigh slots writes_empty [] ports h l =
        subst (PortsWeigh w c) (ok-injective h) tt
    output_bindings-Weigh slots writes_empty (e ∷ es) ports h l =
        let (slot, found, run) = >>=-eq-ok (find_host_slot slots e.id) _ h in
        let (later, rest, built) = >>=-eq-ok (output_bindings slots writes_empty es) _ run in
        let light = find_host_slot-Light slots e.id slot found l in
        subst (PortsWeigh w c) (ok-injective built) (
          light.0,
          All-append _
              (empty_binding (edge_out_empty e.id)
                (if writes_empty then slot.empty_place else none))
              later
              (empty_binding-Weighs (edge_out_empty e.id) writes_empty slot.empty_place refl
                light.1)
              (output_bindings-Weigh slots writes_empty es later rest l),
        )

    named_bindings-Weigh :
        (builds : List NodeBuild) (has_port : NodeBuild → Bool) (port : ℕ → Place) (target : Place)
        (k : ℕ) (ns : List String) (ports : Ports)
        → named_bindings builds has_port port target k ns ≡ ok ports
        → ((j : ℕ) → weight c (port j) ≡ 0)
        → ((id : String) → net_weight w (owned id target) ≡ 0)
        → PortsWeigh w c ports
    named_bindings-Weigh builds has_port port target k [] ports h e f =
        subst (PortsWeigh w c) (ok-injective h) tt
    named_bindings-Weigh builds has_port port target k (n ∷ ns) ports h e f =
        let (q, found, run) = >>=-eq-ok (port_in builds has_port target n) _ h in
        let (later, rest, built) =
          >>=-eq-ok (named_bindings builds has_port port target (suc k) ns) _ run in
        let (id, own) = port_in-owned builds has_port target n q found in
        subst (PortsWeigh w c) (ok-injective built) (
          ap (net_weight w) (sym own) ∙ f id ∙ sym (e k),
          named_bindings-Weigh builds has_port port target (suc k) ns later rest e f,
        )

    pub shared_bindings-Weigh : c.unit ≡ w.unit → PortsWeigh w c shared_bindings
    unfolding weight net_weight
    shared_bindings-Weigh e = (sym e, (refl, (refl, tt)))

    pub ports_of-Weigh :
        (builds : List NodeBuild) (b : NodeBuild) (ports : Ports)
        → ports_of builds b ≡ ok ports
        → PortsWeigh w c b.ports
        → PortsWeigh w c ports
    unfolding weight net_weight
    ports_of-Weigh builds b ports h l =
        let names = (declare_references 0 b.context.references).names in
        let bind = named_bindings builds in
        let weigh = named_bindings-Weigh builds in
        let all = All-append (λ (x : Place × NetPlace). net_weight w x.1 ≡ weight c x.0) in
        let last = λ (ds ss ts : Ports) (rs : Ports). ok (b.ports ++ ds ++ ss ++ ts ++ rs) in
        let third = λ (ds ss ts : Ports).
          bind has_response agent_response response 0 b.context.agents >>= last ds ss ts in
        let second =
          λ (ds ss : Ports). bind has_in_tool tool_in in_tool 0 b.context.tools >>= third ds ss in
        let first = λ (ds : Ports). bind has_skipped ref_skipped skipped 0 names >>= second ds in
        let (dones, e₁, h₁) = >>=-eq-ok (bind has_done ref_done done 0 names) first h in
        let (skips, e₂, h₂) =
          >>=-eq-ok (bind has_skipped ref_skipped skipped 0 names) (second dones) h₁ in
        let (tools, e₃, h₃) =
          >>=-eq-ok (bind has_in_tool tool_in in_tool 0 b.context.tools) (third dones skips) h₂ in
        let (responses, e₄, built) =
          >>=-eq-ok (bind has_response agent_response response 0 b.context.agents)
            (last dones skips tools) h₃ in
        subst (PortsWeigh w c) (ok-injective built) (
          all (b.ports ++ dones ++ skips ++ tools) responses
            (all (b.ports ++ dones ++ skips) tools
              (all (b.ports ++ dones) skips
                (all b.ports dones l
                  (weigh has_done ref_done done 0 names dones e₁ (λ j. refl) (λ id. refl)))
                (weigh has_skipped ref_skipped skipped 0 names skips e₂ (λ j. refl) (λ id. refl)))
              (weigh has_in_tool tool_in in_tool 0 b.context.tools tools e₃ (λ j. refl)
                (λ id. refl)))
            (weigh has_response agent_response response 0 b.context.agents responses e₄ (λ j. refl)
              (λ id. refl)))
