-- ===== src/Compiler/Compile.antt =====
-- compiler/compile/: the composition of the gadgets into the flat net, and its initial marking.
-- A place of the flat net is named by the id of its owner and the local name, or it is one of the
-- three shared places; two places are the same when these agree.
pub mod EdgePlaces
pub mod Compose
pub mod Marking
pub mod Game
pub mod Kept
pub mod Bindings
pub mod Interface
pub mod Built
pub mod Seeds
pub mod Starts
pub mod Budget
pub mod Turns
pub mod Shares
pub mod Occupancy
use mathlib.Core.Bool.{decide, decide_iff}
use native.Mathlib.Decide.{ℕ_discrete}
use n8n_libpetri.Prelude.{◌≡◌, ◌↔◌, Bool, true, false, ◌&&◌, Eq, ◌==◌, string_eq, String, arith}
use n8n_libpetri.Compiler.Gadget.Net.{Place}

unfoldable pub Place-discrete : Discrete Place
Place-discrete = hlevel ℕ_discrete

unfoldable pub place_beq : Place → Place → Bool
unfolding Place-discrete decide
place_beq p q = decide (Place-discrete p q)

pub place_beq_iff : (p q : Place) → (place_beq p q ≡ true) ↔ (p ≡ q)
unfolding place_beq
place_beq_iff p q = decide_iff (Place-discrete p q)

instance abbrev pub place_eq : Eq Place
place_eq = record { beq = place_beq; beq_iff = place_beq_iff }

-- names/places.ts `SHARED_PLACE` and names/qualified.ts.
pub data NetPlace : Type 0 where
  shared_budget shared_halt shared_pause : NetPlace
  owned : String → Place → NetPlace

abbrev net_place_beq : NetPlace → NetPlace → Bool
net_place_beq shared_budget shared_budget = true
net_place_beq shared_halt shared_halt = true
net_place_beq shared_pause shared_pause = true
net_place_beq (owned i p) (owned j q) = i == j && p == q
net_place_beq _ _ = false

pub net_place_beq_iff : (p q : NetPlace) → (net_place_beq p q ≡ true) ↔ (p ≡ q)
net_place_beq_iff (owned i p) (owned j q) =
    ground (arith, string_eq.beq_iff i j, place_eq.beq_iff p q)
net_place_beq_iff shared_budget shared_budget = ground arith
net_place_beq_iff _ _ = ground arith

instance abbrev pub net_place_eq : Eq NetPlace
net_place_eq = record { beq = net_place_beq; beq_iff = net_place_beq_iff }
