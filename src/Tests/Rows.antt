-- ===== src/Tests/Rows.antt =====
-- A keyed read of two rows.
use n8n_libpetri.Prelude.{
  ℕ, ◌≡◌, refl, false, true, List, [], ◌∷◌, some, nat_eq, string_eq, pair_eq,
}
use n8n_libpetri.Prelude.Sets.{has}
use n8n_libpetri.Compiler.Types.{nat}
use n8n_libpetri.Settlement.Scope.{StepKey, StepRow, failed, cancelled}
use n8n_libpetri.Settlement.Rows.{
  V2StepSummary, check_found, read_by_keys, scoped_passes, probe_pass, failure, named_race,
}
use n8n_libpetri.Settlement.Rows.Answers.{IsAnswer, read_by_keys-IsAnswer}
use n8n_libpetri.Settlement.Rows.Passes.{is_near, scoped_passes_lem}

abbrev stored : List V2StepSummary
stored =
    record { node_id = "a"; iteration = nat 0; status = cancelled; filled_output_slots = true ∷ [] }
    ∷ record { node_id = "b"; iteration = nat 3; status = failed; filled_output_slots = [] }
    ∷ []

abbrev load : List StepKey → List V2StepSummary
load keys = stored

abbrev rows : List StepRow
rows =
    record { key = ("a", 0); status = cancelled; filled_output_slots = true ∷ [] }
    ∷ record { key = ("b", 3); status = failed; filled_output_slots = [] }
    ∷ []

-- A failure goes before a cancel.
names_failure : named_race rows ≡ some failure
unfolding named_race
names_failure = refl

read_by_keys-IsAnswer_example : IsAnswer (("b", 3) ∷ ("a", 0) ∷ ("c", 0) ∷ []) [] stored rows
unfolding read_by_keys check_found
read_by_keys-IsAnswer_example =
    read_by_keys-IsAnswer load (("b", 3) ∷ ("a", 0) ∷ ("c", 0) ∷ []) rows refl

scoped_passes_lem_example :
    ((i : ℕ) → has (scoped_passes (some 7)) i ≡ is_near (some 7) i)
    × (has (scoped_passes (some 7)) (probe_pass (some 7)) ≡ false)
scoped_passes_lem_example = scoped_passes_lem (some 7)
