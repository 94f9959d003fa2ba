-- ===== src/Compiler/Analysis/KSafety.antt =====
-- compiler/analysis/k-safety.ts: inputs fed by more than one producer edge. The map's key, the
-- text `${e.to} ${e.inputIndex}`, is the pair of the two: an index is digits, so the text's last
-- blank tells where the name ends.
pub mod Producers
use n8n_libpetri.Prelude.{
  ℕ, suc, Bool, Option, some, none, List, [], ◌∷◌, String, string_eq, nat_eq, pair_eq, ◌==◌,
  if◌then◌else◌, ltb, fold, keep,
}
use n8n_libpetri.Prelude.Maps
use n8n_libpetri.Compiler.Types.{EdgeRef}

pub record MultiProducerInput : Type 0 where
  pub node : String
  pub input_index : ℕ
  pub producers : ℕ

-- The value that one edge writes over what the map had for its input.
abbrev pub counted : EdgeRef → Option MultiProducerInput → MultiProducerInput
counted e none = record { node = e.to; input_index = e.input_index; producers = 1 }
counted e (some prev) = record prev { producers = suc prev.producers }

unfoldable pub count_producer :
    List ((String × ℕ) × MultiProducerInput) → EdgeRef → List ((String × ℕ) × MultiProducerInput)
count_producer producers e =
    Maps.set producers (e.to, e.input_index) (counted e (Maps.get producers (e.to, e.input_index)))

-- Every input with more than one producer edge.
unfoldable pub multi_producer_inputs_of : List EdgeRef → List MultiProducerInput
unfolding count_producer
multi_producer_inputs_of edges =
    keep (λ p. ltb 1 p.producers) (Maps.values (fold count_producer [] edges))
