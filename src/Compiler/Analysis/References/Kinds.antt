-- ===== src/Compiler/Analysis/References/Kinds.antt =====
-- What the kind of a reference says of the graph.
use n8n_libpetri.Prelude.{◌≡◌, ◌≢◌, ◌↔◌, none, some, List, [], String, string_eq, arith}
use n8n_libpetri.Prelude.Maps
use n8n_libpetri.Compiler.Types.{ToolConnection, read, seeded}
use n8n_libpetri.Compiler.Analysis.Worklist.Drained.{Reach}
use n8n_libpetri.Compiler.Analysis.Reachability.{reachable_from_starts}
use n8n_libpetri.Compiler.Analysis.Reachability.Walks.{reach_from_iff}
use n8n_libpetri.Compiler.Analysis.Reachability.Tools.{Dispatched, reachable_from_starts_iff}
use n8n_libpetri.Compiler.Analysis.References.{kind_of}

module _ (starts : List String) (succ : List (String × List String))
    (cs : List ToolConnection) where
  -- Reachable from the start nodes, tools through their agents.
  abbrev pub Live : String → Type 0
  Live = Dispatched (Reach starts (λ n. Maps.get_or succ n []) none) cs

  -- Reachable from the start nodes without entering `x`.
  abbrev pub Avoiding : String → String → Type 0
  Avoiding x = Reach starts (λ n. Maps.get_or succ n []) (some x)

  -- A reference from `x` to `y` is `read` exactly when `y` is another node, reachable, and
  -- reachable from the start nodes on a path avoiding `x`; it is `seeded` exactly when `y` is
  -- another node that is not reachable.
  pub kind_of_iff :
      (x y : String)
      → ((kind_of starts succ (reachable_from_starts starts succ cs) x y ≡ read)
          ↔ ((y ≢ x) × Live y × Avoiding x y))
        × ((kind_of starts succ (reachable_from_starts starts succ cs) x y ≡ seeded)
            ↔ ((y ≢ x) × (¬ Live y)))
  unfolding kind_of
  kind_of_iff x y =
      let live = reachable_from_starts_iff starts succ cs y in
      let avoiding = reach_from_iff starts succ (some x) y in
      ground (arith, live, avoiding, string_eq.beq_iff y x)
