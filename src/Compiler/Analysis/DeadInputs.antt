-- ===== src/Compiler/Analysis/DeadInputs.antt =====
-- compiler/analysis/dead-inputs.ts: required inputs with no producer below the highest wired index.
-- The diagnostics, which are texts, are left out.
pub mod Padded
use n8n_libpetri.Prelude.{
  ℕ, suc, Bool, true, false, not, ◌&&◌, Option, some, none, List, [], ◌∷◌, String, string_eq,
  nat_eq, if◌then◌else◌, ltb, leb, fold, keep, max,
}
use n8n_libpetri.Prelude.Sets.{has, add}
use n8n_libpetri.Prelude.Maps
use n8n_libpetri.Prelude.Results.{Result, ok, err, ◌>>=◌}
use n8n_libpetri.Compiler.Types.{EdgeRef, RawNode}

-- `wired`, and `maxWired + 1`, which is 0 where the source starts with -1.
pub record Wired : Type 0 where
  pub wired : List ℕ
  pub top : ℕ

unfoldable pub wire : Wired → EdgeRef → Wired
wire w e = record {
  wired = add w.wired e.input_index;
  top = if leb w.top e.input_index then suc e.input_index else w.top;
}

unfoldable pub dead_inputs_of : Option (List ℕ) → List EdgeRef → List ℕ
unfolding wire
dead_inputs_of none es = []
dead_inputs_of (some required) es =
    let w = fold wire (record { wired = []; top = 0 }) es in
    if leb 2 w.top then keep (λ i. ltb (suc i) w.top && not (has w.wired i)) required else []

-- The throw of the loop over `incoming.get(name)!` where the map has no entry.
pub data DeadInputsError : Type 0 where
  no_incoming : String → DeadInputsError

abbrev pub incoming_of :
    List (String × List EdgeRef) → String → Result DeadInputsError (List EdgeRef)
incoming_of incoming n = elim (Maps.get incoming n) [ none ↦ err (no_incoming n) | some es ↦ ok es ]

abbrev pub collect_dead_inputs :
    List (String × List EdgeRef)
    → List (String × List ℕ)
    → List RawNode
    → Result DeadInputsError (List (String × List ℕ))
collect_dead_inputs incoming m [] = ok m
collect_dead_inputs incoming m (r ∷ rs) = do
  es ← incoming_of incoming r.node.name
  collect_dead_inputs incoming (Maps.set m r.node.name (dead_inputs_of r.required_inputs es)) rs

-- Every node's dead required inputs.
unfoldable pub find_dead_inputs :
    List RawNode → List (String × List EdgeRef) → Result DeadInputsError (List (String × List ℕ))
find_dead_inputs raws incoming = collect_dead_inputs incoming [] raws
