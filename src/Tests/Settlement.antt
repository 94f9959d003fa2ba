-- ===== src/Tests/Settlement.antt =====
-- A batch node `b` with a loop body `w` and a follower `after`, at the end of its first pass.
use n8n_libpetri.Prelude.{
  ◌≡◌, refl, ◌↔◌, ◌&&◌, ◌||◌, true, false, List, [], ◌∷◌, String, string_eq, nat_eq, pair_eq,
}
use n8n_libpetri.Prelude.Sets.{has, IsNodup}
use n8n_libpetri.Prelude.Maps
use n8n_libpetri.Settlement.Scope.{
  StepKey, StepRow, StepPlan, completed, intra, exit, V2Edge, Scope, note_latest, exists_row,
  collect_candidates, candidate_keys, scope_plan, is_finished,
}
use n8n_libpetri.Prelude.Results.{Result, ok}
use n8n_libpetri.Settlement.Rows.{named_race}
use n8n_libpetri.Settlement.Policy.{
  nothing, step_keys, with_decided, decide_from_rows, finished_from_rows, finished_after_decision,
}
use n8n_libpetri.Settlement.Policy.Decided.{with_decided_lem}
use n8n_libpetri.Settlement.Policy.Finished.{IsDone, finished_from_rows_iff}
use n8n_libpetri.Prelude.Predicates.{All}
use n8n_libpetri.Settlement.Policy.Shortcut.{
  IsNew, decide_from_rows-New, finished_after_decision-Agrees,
}
use n8n_libpetri.Settlement.Scope.Finished.{scope_plan_lem}

abbrev edge_to : String → V2Edge
edge_to to = record { from = "b"; to = to; is_back_edge = false }

abbrev scope : Scope
scope = record {
  batch_nodes = "b" ∷ [];
  outgoing =
      (
        "b",
        record { edge = edge_to "w"; edge_class = intra }
            ∷ record { edge = edge_to "after"; edge_class = exit }
            ∷ [],
      )
      ∷ [];
}

abbrev rows : List StepRow
rows = record { key = ("b", 1); status = completed; filled_output_slots = true ∷ false ∷ [] } ∷ []

abbrev plan : StepPlan
plan = record { to_queue = ("after", 0) ∷ []; to_skip = ("other", 0) ∷ [] }

-- The terminal row decides what follows the loop.
decides_exit : candidate_keys scope ("b", 1) rows ≡ ("after", 0) ∷ []
unfolding candidate_keys collect_candidates exists_row note_latest
decides_exit = refl

scope_plan_lem_example :
    (has (scope_plan plan (("after", 0) ∷ [])).to_queue ("after", 0)
      ≡ (has {A = StepKey} (("after", 0) ∷ []) ("after", 0) && has plan.to_queue ("after", 0)))
    × (has (scope_plan plan (("after", 0) ∷ [])).to_skip ("after", 0)
        ≡ (has {A = StepKey} (("after", 0) ∷ []) ("after", 0) && has plan.to_skip ("after", 0)))
scope_plan_lem_example = scope_plan_lem plan (("after", 0) ∷ []) ("after", 0)

-- A planner that queues what follows the loop.
abbrev plan_after : List StepRow → Result String StepPlan
plan_after _ = ok plan

abbrev decision : StepPlan
decision = record { to_queue = ("after", 0) ∷ []; to_skip = [] }

decides : decide_from_rows plan_after scope ("b", 1) rows ≡ ok decision
unfolding decide_from_rows named_race candidate_keys collect_candidates exists_row note_latest
    scope_plan
decides = refl

still_open : finished_from_rows plan_after (with_decided rows decision) ≡ ok false
unfolding finished_from_rows named_race with_decided is_finished
still_open = refl

decide_from_rows-New_example : IsNew rows decision
decide_from_rows-New_example = decide_from_rows-New plan_after scope ("b", 1) rows decision decides

finished_after_decision-Agrees_example : finished_after_decision plan_after rows decision ≡ ok false
finished_after_decision-Agrees_example =
    finished_after_decision-Agrees plan_after scope ("b", 1) rows decision false decides still_open

with_decided_lem_example :
    IsNodup (step_keys (with_decided rows decision))
    × ((k : StepKey)
        → has (step_keys (with_decided rows decision)) k
          ≡ (has (step_keys rows) k || (has decision.to_queue k || has decision.to_skip k)))
with_decided_lem_example = with_decided_lem rows decision (refl, tt)

-- A planner that has nothing left.
abbrev plan_nothing : List StepRow → Result String StepPlan
plan_nothing _ = ok nothing

finished_from_rows_iff_example :
    (finished_from_rows plan_nothing rows ≡ ok true)
    ↔ (All IsDone rows × (plan_nothing rows ≡ ok nothing))
finished_from_rows_iff_example = finished_from_rows_iff plan_nothing rows
