-- ===== src/Settlement/Policy.antt =====
-- settlement/policy.ts: the two decisions of a settlement as functions of the rows. What the net
-- plans at the rows, or the error of their decoding, is a parameter.
pub mod Decided
pub mod Shortcut
pub mod Finished
use n8n_libpetri.Prelude.{
  Bool, true, false, Option, none, some, List, [], ◌∷◌, ◌++◌, map, String, string_eq, nat_eq,
  pair_eq, if◌then◌else◌,
}
use n8n_libpetri.Prelude.Sets.{has}
use n8n_libpetri.Prelude.Results.{Result, ok, err, ◌>>=◌}
use n8n_libpetri.Settlement.Scope.{
  StepKey, StepStatus, queued, skipped, StepRow, StepPlan, Scope, candidate_keys, scope_plan,
  is_empty_list, is_finished,
}
use n8n_libpetri.Settlement.Rows.{Race, failure, cancel, named_race}

abbrev pub nothing : StepPlan
nothing = record { to_queue = []; to_skip = [] }

abbrev pub is_cancel : Option Race → Bool
is_cancel (some cancel) = true
is_cancel _ = false

abbrev pub step_keys : List StepRow → List StepKey
step_keys rows = map (λ r. r.key) rows

-- `have` and `out` of `withDecided`.
pub record Added : Type 0 where
  pub have : List StepKey
  pub out : List StepRow

abbrev pub add_row : StepStatus → Added → StepKey → Added
add_row status a k = record {
  have = k ∷ a.have;
  out = a.out ++ record { key = k; status = status; filled_output_slots = [] } ∷ [];
}

abbrev pub add_key : StepStatus → Added → StepKey → Added
add_key status a k = if has a.have k then a else add_row status a k

abbrev pub add_keys : StepStatus → Added → List StepKey → Added
add_keys status a [] = a
add_keys status a (k ∷ ks) = add_keys status (add_key status a k) ks

unfoldable pub with_decided : List StepRow → StepPlan → List StepRow
with_decided rows decided =
    (add_keys skipped
      (add_keys queued (record { have = step_keys rows; out = rows }) decided.to_queue)
      decided.to_skip).out

module _ {ℓ} {E : Type ℓ} (plan_at : List StepRow → Result E StepPlan) where
  unfoldable pub decide_from_rows : Scope → StepKey → List StepRow → Result E StepPlan
  decide_from_rows scope settled rows =
      if is_cancel (named_race rows)
      then ok nothing
      else (do plan ← plan_at rows; ok (scope_plan plan (candidate_keys scope settled rows)))

  unfoldable pub finished_from_rows : List StepRow → Result E Bool
  finished_from_rows rows =
      if is_cancel (named_race rows)
      then ok false
      else (do plan ← plan_at rows; ok (is_finished rows plan))

  unfoldable pub finished_after_decision : List StepRow → StepPlan → Result E Bool
  finished_after_decision rows decided =
      if is_empty_list decided.to_queue
      then (finished_from_rows
          (if is_empty_list decided.to_skip then rows else with_decided rows decided))
      else ok false
