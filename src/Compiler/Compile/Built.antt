-- ===== src/Compiler/Compile/Built.antt =====
-- The builds of compose.ts `composeNet`: the ports and the transitions of each keep the weights of
-- the net, and so do the places that its parts name.
use n8n_libpetri.Prelude.{◌≡◌, subst, not, ◌||◌, List, [], ◌∷◌, String, string_eq}
use n8n_libpetri.Prelude.Predicates.{All, All-append, OptionAll}
use n8n_libpetri.Prelude.Results.{Result, ok, err, >>=-eq-ok, ok-injective}
use n8n_libpetri.Compiler.Gadget.Shapes.{GadgetError}
use n8n_libpetri.Compiler.Gadget.Declare.{declare_side, can_skip}
use n8n_libpetri.Compiler.Gadget.Failure.{declare_agent}
use n8n_libpetri.Compiler.Gadget.Build.{build_gadget}
use n8n_libpetri.Compiler.Gadget.Parts.{SideWeighs, declare_form-Weighs}
use n8n_libpetri.Compiler.Gadget.Outlets.{IsFair}
use n8n_libpetri.Compiler.Gadget.Balance.Places.{
  RetryWeighs, AgentWeighs, declare_retry-Weighs, declare_agent-Weighs,
}
use n8n_libpetri.Compiler.Gadget.Invariant.{build_gadget-Balanced}
use n8n_libpetri.Compiler.Compile.EdgePlaces.{NetNode, HostEdgePlaces, host_edge_places}
use n8n_libpetri.Compiler.Compile.Compose.{
  NodeBuild, shared_bindings, output_bindings, in_gadget, gadget_context, build_node, build_nodes,
  ports_of, bind_nodes, compose_net,
}
use n8n_libpetri.Compiler.Compile.Kept.{NetWeights, KeepsWeight}
use n8n_libpetri.Compiler.Compile.Bindings.{
  LightHost, host_edge_places-Light, output_bindings-Weigh, shared_bindings-Weigh, ports_of-Weigh,
}
use n8n_libpetri.Compiler.Compile.Interface.{
  BindsPorts, append, shared_bindings-BindsPorts, output_bindings-BindsPorts, ports_of-BindsPorts,
}

in_gadget-eq-ok {ℓ} :
    {A : Type ℓ} (name : String) (r : Result GadgetError A) {a : A}
    → in_gadget name r ≡ ok a
    → r ≡ ok a
in_gadget-eq-ok name (ok a) h = cc
in_gadget-eq-ok name (err e) h = cc

module _ (w : NetWeights) where
  -- The nodes that route per output share the unit evenly.
  abbrev pub AllFair : List NetNode → Type 0
  AllFair nodes = All (λ a. IsFair (w.of a.id) a.facts) nodes

  pub record Built (b : NodeBuild) : Type 0 where
    pub keeps : KeepsWeight w b
    pub binds : BindsPorts b.ports
    pub inputs_side : SideWeighs (w.of b.node.id) b.side
    pub retries : OptionAll (RetryWeighs (w.of b.node.id)) b.retry_side
    pub round : OptionAll (AgentWeighs (w.of b.node.id)) b.agent

  build_node-Built :
      (host : HostEdgePlaces) (a : NetNode) (b : NodeBuild)
      → build_node host a ≡ ok b
      → LightHost w host
      → IsFair (w.of a.id) (gadget_context host a)
      → Built b
  unfolding build_node declare_side
  build_node-Built host a b h light fair =
      let c = w.of a.id in
      let ctx = gadget_context host a in
      let (side, e₁, h₁) = >>=-eq-ok (in_gadget a.name (declare_side ctx)) _ h in
      let (agent, e₂, h₂) =
        >>=-eq-ok (in_gadget a.name (declare_agent ctx.tools ctx.max_rounds ctx.max_tool_calls)) _
          h₁ in
      let (ts, e₃, h₃) = >>=-eq-ok (in_gadget a.name (build_gadget ctx)) _ h₂ in
      let (edges, e₄, built) =
        >>=-eq-ok (output_bindings host.edge_slots (not ctx.cyclic || can_skip side) ctx.outgoing) _
          h₃ in
      subst Built (ok-injective built) (record {
        keeps = record {
          ports =
              All-append _ shared_bindings edges (shared_bindings-Weigh w c (w.shared_unit a.id)) (
                output_bindings-Weigh w c host.edge_slots (not ctx.cyclic || can_skip side)
                  ctx.outgoing edges e₄ light);
          transitions =
              build_gadget-Balanced c ctx ts fair (in_gadget-eq-ok a.name (build_gadget ctx) e₃);
        };
        binds = append shared_bindings edges shared_bindings-BindsPorts (
            output_bindings-BindsPorts host.edge_slots (not ctx.cyclic || can_skip side)
              ctx.outgoing edges e₄);
        inputs_side =
            declare_form-Weighs c ctx ctx.form side (in_gadget-eq-ok a.name (declare_side ctx) e₁);
        retries = declare_retry-Weighs c ctx.retry;
        round =
            declare_agent-Weighs c ctx.tools ctx.max_rounds ctx.max_tool_calls agent (
              in_gadget-eq-ok a.name (declare_agent ctx.tools ctx.max_rounds ctx.max_tool_calls)
                e₂);
      })

  build_nodes-Built :
      (host : HostEdgePlaces) (nodes : List NetNode) (bs : List NodeBuild)
      → build_nodes host nodes ≡ ok bs
      → LightHost w host
      → AllFair nodes
      → All Built bs
  build_nodes-Built host [] bs h light fair = subst (All Built) (ok-injective h) tt
  build_nodes-Built host (a ∷ as') bs h light fair =
      let (b, e₁, run) = >>=-eq-ok (build_node host a) _ h in
      let (later, e₂, built) = >>=-eq-ok (build_nodes host as') _ run in
      subst (All Built) (ok-injective built) (
        build_node-Built host a b e₁ light fair.0,
        build_nodes-Built host as' later e₂ light fair.1,
      )

  bind_nodes-Built :
      (builds bs cs : List NodeBuild) → bind_nodes builds bs ≡ ok cs → All Built bs → All Built cs
  bind_nodes-Built builds [] cs h k = subst (All Built) (ok-injective h) tt
  bind_nodes-Built builds (b ∷ bs) cs h k =
      let (ports, e₁, run) = >>=-eq-ok (ports_of builds b) _ h in
      let (later, e₂, built) = >>=-eq-ok (bind_nodes builds bs) _ run in
      let node = k.0 in
      subst (All Built) (ok-injective built) (
        record {
          keeps = record {
            ports = ports_of-Weigh w (w.of b.node.id) builds b ports e₁ node.keeps.ports;
            transitions = node.keeps.transitions;
          };
          binds = ports_of-BindsPorts builds b ports e₁ node.binds;
          inputs_side = node.inputs_side;
          retries = node.retries;
          round = node.round;
        },
        bind_nodes-Built builds bs later e₂ k.1,
      )

  pub compose_net-Built :
      (nodes : List NetNode) (bs : List NodeBuild)
      → compose_net nodes ≡ ok bs
      → AllFair nodes
      → All Built bs
  unfolding compose_net
  compose_net-Built nodes bs h fair =
      let (builds, e, run) = >>=-eq-ok (build_nodes (host_edge_places nodes) nodes) _ h in
      bind_nodes-Built builds builds bs run (
        build_nodes-Built (host_edge_places nodes) nodes builds e (host_edge_places-Light w nodes)
          fair)
