-- ===== src/Settlement/Rows.antt =====
-- settlement/rows.ts: the keyed read of the step rows, its check against the question, and the
-- passes that the scoped read asks. The store's reader is a parameter.
pub mod Answers
pub mod Passes
use n8n_libpetri.Prelude.{
  ℕ, suc, ◌+◌, ◌-◌, Bool, true, false, Option, none, some, List, [], ◌∷◌, String, string_eq, nat_eq,
  pair_eq, ◌==◌, if◌then◌else◌, leb, any,
}
use n8n_libpetri.Prelude.Sets.{has}
use n8n_libpetri.Prelude.Results.{Result, ok, err, ◌>>=◌}
use n8n_libpetri.Compiler.Types.{Num, nat}
use n8n_libpetri.Compiler.Analysis.Inputs.{range_from}
use n8n_libpetri.Settlement.Scope.{StepKey, StepStatus, failed, cancelled, StepRow, is_failed}

-- What the store holds of a step.
pub record V2StepSummary : Type 0 where
  pub node_id : String
  pub iteration : Num
  pub status : StepStatus
  pub filled_output_slots : List Bool

-- The two throws that a row can meet. A row whose iteration is no natural number is not asked for.
pub data SettlementSnapshotError : Type 0 where
  not_asked_for returned_twice : SettlementSnapshotError

-- The key of a row, where its iteration can be one that was asked.
abbrev pub asked_key : Num → String → Result SettlementSnapshotError StepKey
asked_key (nat n) node_id = ok (node_id, n)
asked_key _ node_id = err not_asked_for

-- `if (!wanted.has(id)) throw …; if (seen.has(id)) throw …`.
abbrev pub check_asked :
    List StepKey → List StepKey → StepKey → Result SettlementSnapshotError StepKey
check_asked wanted seen k =
    if has wanted k then (if has seen k then err returned_twice else ok k) else err not_asked_for

abbrev pub row_of : V2StepSummary → StepKey → StepRow
row_of s k = record { key = k; status = s.status; filled_output_slots = s.filled_output_slots }

-- The loop over the store's answer, with the keys seen so far.
unfoldable pub check_found :
    List StepKey → List StepKey → List V2StepSummary → Result SettlementSnapshotError (List StepRow)
check_found wanted seen [] = ok []
check_found wanted seen (s ∷ ss) = do
  named ← asked_key s.iteration s.node_id
  k ← check_asked wanted seen named
  rest ← check_found wanted (k ∷ seen) ss
  ok (row_of s k ∷ rest)

-- `readByKeys` over the store's keyed query, which is not called for no keys.
unfoldable pub read_by_keys :
    (List StepKey → List V2StepSummary)
    → List StepKey
    → Result SettlementSnapshotError (List StepRow)
read_by_keys load [] = ok []
read_by_keys load (k ∷ ks) = check_found (k ∷ ks) [] (load (k ∷ ks))

-- The passes asked of a loop's members when the batch node was at pass `last`; -1 is `none`.
unfoldable pub scoped_passes : Option ℕ → List ℕ
scoped_passes none = 0 ∷ []
scoped_passes (some last) =
    if leb last 2 then range_from 0 (last + 2) else 0 ∷ (last - 1) ∷ last ∷ (last + 1) ∷ []

abbrev pub probe_pass : Option ℕ → ℕ
probe_pass none = 1
probe_pass (some last) = last + 2

pub data Race : Type 0 where
  failure cancel : Race

abbrev pub is_cancelled : StepStatus → Bool
is_cancelled cancelled = true
is_cancelled _ = false

unfoldable pub named_race : List StepRow → Option Race
named_race rows =
    if any (λ r. is_failed r.status) rows
    then some failure
    else if any (λ r. is_cancelled r.status) rows
    then some cancel
    else none
