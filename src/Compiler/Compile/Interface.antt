-- ===== src/Compiler/Compile/Interface.antt =====
-- The ports that compose.ts binds are the interface of a gadget: every other place of the gadget is
-- its own in the flat net.
use n8n_libpetri.Prelude.{
  ℕ, suc, ◌≡◌, refl, ap, subst, Bool, true, false, Option, none, some, List, [], ◌∷◌, ◌++◌, String,
  string_eq, nat_eq, ◌==◌, Bool-cases, inl, inr, if◌then◌else◌,
}
use n8n_libpetri.Prelude.Maps
use n8n_libpetri.Prelude.Predicates.{All, All-append}
use n8n_libpetri.Prelude.Results.{ok, ◌>>=◌, >>=-eq-ok, ok-injective}
use n8n_libpetri.Compiler.Types.{EdgeRef}
use n8n_libpetri.Compiler.Gadget.Net.{
  Place, budget, halt, pause, in_tool, done, skipped, response, edge_out, edge_out_empty, ref_done,
  ref_skipped, tool_in, agent_response,
}
use n8n_libpetri.Compiler.Gadget.Failure.{declare_references}
use n8n_libpetri.Compiler.Compile.{NetPlace, owned, place_eq}
use n8n_libpetri.Compiler.Compile.EdgePlaces.{HostSlot}
use n8n_libpetri.Compiler.Compile.Compose.{
  has_done, has_skipped, has_in_tool, has_response, port_in, Ports, NodeBuild, shared_bindings,
  find_host_slot, empty_binding, output_bindings, named_bindings, ports_of, flat,
}

abbrev pub is_port : Place → Bool
is_port budget = true
is_port halt = true
is_port pause = true
is_port (edge_out e) = true
is_port (edge_out_empty e) = true
is_port (ref_done k) = true
is_port (ref_skipped k) = true
is_port (tool_in k) = true
is_port (agent_response k) = true
is_port _ = false

abbrev pub BindsPorts : Ports → Type 0
BindsPorts ports = All (λ e. is_port e.0 ≡ true) ports

pub shared_bindings-BindsPorts : BindsPorts shared_bindings
shared_bindings-BindsPorts = (refl, (refl, (refl, tt)))

pub append : (xs ys : Ports) → BindsPorts xs → BindsPorts ys → BindsPorts (xs ++ ys)
append = All-append (λ (e : Place × NetPlace). is_port e.0 ≡ true)

get_or-BindsPorts :
    (ports : Ports) (p : Place) (q : NetPlace)
    → BindsPorts ports
    → is_port p ≡ false
    → Maps.get_or ports p q ≡ q
get_or-BindsPorts [] p q h f = refl
get_or-BindsPorts ((r, s) ∷ ports) p q h f = elim (Bool-cases (r == p)) [
  | inl t ↦ cc (h.0, f, ap is_port ((place_eq.beq_iff r p).0 t))
  | inr n ↦ rw n (get_or-BindsPorts ports p q h.1 f)
]

-- A place that is no port is the node's own in the flat net.
pub flat-owned :
    (b : NodeBuild) (p : Place)
    → BindsPorts b.ports
    → is_port p ≡ false
    → flat b p ≡ owned b.node.id p
unfolding flat
flat-owned b p h f = get_or-BindsPorts b.ports p (owned b.node.id p) h f

empty_binding-BindsPorts :
    (p : Place) (o : Option NetPlace) → is_port p ≡ true → BindsPorts (empty_binding p o)
empty_binding-BindsPorts p none e = tt
empty_binding-BindsPorts p (some q) e = (e, tt)

pub output_bindings-BindsPorts :
    (slots : List (ℕ × HostSlot)) (writes_empty : Bool) (es : List EdgeRef) (ports : Ports)
    → output_bindings slots writes_empty es ≡ ok ports
    → BindsPorts ports
output_bindings-BindsPorts slots t [] ports h = subst BindsPorts (ok-injective h) tt
output_bindings-BindsPorts slots t (e ∷ es) ports h =
    let (slot, found, run) = >>=-eq-ok (find_host_slot slots e.id) _ h in
    let (later, rest, built) = >>=-eq-ok (output_bindings slots t es) _ run in
    let empties = if t then slot.empty_place else none in
    subst BindsPorts (ok-injective built) (
      refl,
      append (empty_binding (edge_out_empty e.id) empties) later
          (empty_binding-BindsPorts (edge_out_empty e.id) empties refl)
          (output_bindings-BindsPorts slots t es later rest),
    )

named_bindings-BindsPorts :
    (builds : List NodeBuild) (has_port : NodeBuild → Bool) (port : ℕ → Place) (target : Place)
    (k : ℕ) (ns : List String) (ports : Ports)
    → named_bindings builds has_port port target k ns ≡ ok ports
    → ((j : ℕ) → is_port (port j) ≡ true)
    → BindsPorts ports
named_bindings-BindsPorts builds has_port port target k [] ports h e =
    subst BindsPorts (ok-injective h) tt
named_bindings-BindsPorts builds has_port port target k (n ∷ ns) ports h e =
    let (q, found, run) = >>=-eq-ok (port_in builds has_port target n) _ h in
    let (later, rest, built) =
      >>=-eq-ok (named_bindings builds has_port port target (suc k) ns) _ run in
    subst BindsPorts (ok-injective built)
      (e k, named_bindings-BindsPorts builds has_port port target (suc k) ns later rest e)

pub ports_of-BindsPorts :
    (builds : List NodeBuild) (b : NodeBuild) (ports : Ports)
    → ports_of builds b ≡ ok ports
    → BindsPorts b.ports
    → BindsPorts ports
ports_of-BindsPorts builds b ports h l =
    let names = (declare_references 0 b.context.references).names in
    let bind = named_bindings builds in
    let binds = named_bindings-BindsPorts builds in
    let last = λ (ds ss ts : Ports) (rs : Ports). ok (b.ports ++ ds ++ ss ++ ts ++ rs) in
    let third = λ (ds ss ts : Ports).
      bind has_response agent_response response 0 b.context.agents >>= last ds ss ts in
    let second =
      λ (ds ss : Ports). bind has_in_tool tool_in in_tool 0 b.context.tools >>= third ds ss in
    let first = λ (ds : Ports). bind has_skipped ref_skipped skipped 0 names >>= second ds in
    let (dones, e₁, h₁) = >>=-eq-ok (bind has_done ref_done done 0 names) first h in
    let (skips, e₂, h₂) =
      >>=-eq-ok (bind has_skipped ref_skipped skipped 0 names) (second dones) h₁ in
    let (tools, e₃, h₃) =
      >>=-eq-ok (bind has_in_tool tool_in in_tool 0 b.context.tools) (third dones skips) h₂ in
    let (responses, e₄, built) =
      >>=-eq-ok (bind has_response agent_response response 0 b.context.agents)
        (last dones skips tools) h₃ in
    subst BindsPorts (ok-injective built) (
      append (b.ports ++ dones ++ skips ++ tools) responses
        (append (b.ports ++ dones ++ skips) tools
          (append (b.ports ++ dones) skips
            (append b.ports dones l (binds has_done ref_done done 0 names dones e₁ (λ j. refl)))
            (binds has_skipped ref_skipped skipped 0 names skips e₂ (λ j. refl)))
          (binds has_in_tool tool_in in_tool 0 b.context.tools tools e₃ (λ j. refl)))
        (binds has_response agent_response response 0 b.context.agents responses e₄ (λ j. refl)))
