-- ===== src/Compiler/Analysis/Reachability/Targets.antt =====
-- The nodes that a successor map names.
use n8n_libpetri.Prelude.{
  ◌≡◌, refl, true, List, [], ◌∷◌, ◌++◌, map, String, arith, ◌==◌, string_eq, Bool-cases, inl, inr,
}
use n8n_libpetri.Prelude.Sets.{has, has-append}
use n8n_libpetri.Prelude.Maps
use n8n_libpetri.Compiler.Types.{EdgeRef}

abbrev pub targets : List (String × List String) → List String
targets [] = []
targets ((n, ms) ∷ succ) = ms ++ targets succ

-- The map of a map's edges to the nodes at one end of them.
abbrev pub neighbours :
    (EdgeRef → String) → List (String × List EdgeRef) → List (String × List String)
neighbours f [] = []
neighbours f ((n, es) ∷ m) = (n, map f es) ∷ neighbours f m

pub has-targets :
    (succ : List (String × List String)) (u v : String)
    → has (Maps.get_or succ u []) v ≡ true
    → has (targets succ) v ≡ true
has-targets [] u v h = cc
has-targets ((n, ms) ∷ succ) u v h =
    ground (arith, has-append ms (targets succ) v, has-targets succ u v)

pub get_or-neighbours :
    (f : EdgeRef → String) (m : List (String × List EdgeRef)) (u : String)
    → Maps.get_or (neighbours f m) u [] ≡ map f (Maps.get_or m u [])
get_or-neighbours f [] u = refl
get_or-neighbours f ((n, es) ∷ m) u = elim (Bool-cases (n == u)) [
  | inl hit ↦ rw hit
  | inr miss ↦ rw miss (get_or-neighbours f m u)
]
