-- ===== src/Compiler/Compile/Game.antt =====
-- What the flat net asks of libpetri, which runs it: a firing takes tokens as the input arcs of the
-- transition say and writes one branch of its output, over the places that the ports are bound to.
use mathlib.Core.List.{Memᴰ, Permᴰ}
use n8n_libpetri.Prelude.{ℕ, suc, zero, ◌≡◌, List, [], ◌∷◌, ◌++◌, map, length}
use n8n_libpetri.Compiler.Gadget.Net.{Place, In, one, all_of, exactly, Transition, writes}
use n8n_libpetri.Compiler.Compile.{NetPlace}
use n8n_libpetri.Compiler.Compile.Compose.{NodeBuild, flat}
use n8n_libpetri.Compiler.Compile.Marking.{Marking}

abbrev pub replicate {ℓ} : {A : Type ℓ} → ℕ → A → List A
replicate zero a = []
replicate (suc n) a = a ∷ replicate n a

-- The tokens that input arcs may take: one, so many, or at least one.
abbrev pub Takes : List In → List Place → Type 0
Takes [] ps = ps ≡ []
Takes (one p ∷ is) ps = (rest : List Place) × (ps ≡ p ∷ rest) × Takes is rest
Takes (exactly n p ∷ is) ps = (rest : List Place) × (ps ≡ (replicate n p ++ rest)) × Takes is rest
Takes (all_of p ∷ is) ps =
    (n : ℕ) × (rest : List Place) × (ps ≡ (replicate (suc n) p ++ rest)) × Takes is rest

-- A token of the flat net is the place where it lies. A firing leaves the other tokens alone.
pub record Firing (b : NodeBuild) (t : Transition) (before after : List NetPlace) : Type 0 where
  pub taken : List Place
  pub written : List Place
  pub others : List NetPlace
  pub fits : Takes t.inputs taken
  pub branch : Memᴰ written (writes t.outputs)
  pub takes : Permᴰ before (map (flat b) taken ++ others)
  pub leaves : Permᴰ after (map (flat b) written ++ others)

pub record TokenGame : Type 1 where
  pub Fires : NodeBuild → Transition → List NetPlace → List NetPlace → Type 0
  pub fires_lem :
      (b : NodeBuild) (t : Transition) (before after : List NetPlace)
      → Fires b t before after
      → Firing b t before after

-- A run of the composed net: firings of the transitions of its gadgets, in any order.
pub data Run (game : TokenGame) (bs : List NodeBuild) (start : List NetPlace)
    : List NetPlace → Type 0 where
  here : Run game bs start start
  next :
      {before after : List NetPlace} (b : NodeBuild) (t : Transition)
      → Run game bs start before
      → Memᴰ b bs
      → Memᴰ t b.transitions
      → game.Fires b t before after
      → Run game bs start after

-- The tokens of a marking.
abbrev pub tokens_of : Marking → List NetPlace
tokens_of [] = []
tokens_of ((p, ts) ∷ m) = replicate (length ts) p ++ tokens_of m
