-- ===== src/Settlement/Scope.antt =====
-- settlement/scope.ts: the keys that one settled step may decide, and the plan restricted to them.
-- The loops and classified edges of a graph are given; iterations are natural numbers.
pub mod Candidates
pub mod Finished
use n8n_libpetri.Prelude.{
  ℕ, suc, ◌||◌, ◌&&◌, not, Bool, true, false, Option, none, some, List, [], ◌∷◌, String, string_eq,
  nat_eq, pair_eq, ◌==◌, if◌then◌else◌, ltb, leb, get_elem?, fold, keep, any, all,
}
use n8n_libpetri.Prelude.Sets.{has}
use n8n_libpetri.Prelude.Maps

-- A row's key: the node's id and the iteration. The source prints the pair as one text, with a
-- separator that no iteration holds.
abbrev pub StepKey : Type 0
StepKey = String × ℕ

-- A status the store may hold that is none of these is `foreign`.
pub data StepStatus : Type 0 where
  queued running waiting completed failed skipped cancelled : StepStatus
  foreign : String → StepStatus

pub record StepRow : Type 0 where
  pub key : StepKey
  pub status : StepStatus
  pub filled_output_slots : List Bool

pub record StepPlan : Type 0 where
  pub to_queue : List StepKey
  pub to_skip : List StepKey

pub data ScopeEdgeClass : Type 0 where
  plain entry intra back exit : ScopeEdgeClass

pub record ScopeLoop : Type 0 where
  pub batch_node_id : String
  pub member_ids : List String

pub record V2Edge : Type 0 where
  pub from : String
  pub to : String
  pub is_back_edge : Bool

pub record ClassifiedEdge : Type 0 where
  pub edge : V2Edge
  pub edge_class : ScopeEdgeClass

pub record Scope : Type 0 where
  pub batch_nodes : List String
  pub outgoing : List (String × List ClassifiedEdge)

-- `loops.find((l) => l.memberIds.has(node))`, by its position.
abbrev pub loop_of : List ScopeLoop → String → ℕ → Option ℕ
loop_of [] node i = none
loop_of (l ∷ ls) node i = if has l.member_ids node then some i else loop_of ls node (suc i)

abbrev pub class_between : Option ℕ → Option ℕ → ScopeEdgeClass
class_between (some s) (some t) = if s == t then intra else exit
class_between (some s) none = exit
class_between none (some t) = entry
class_between none none = plain

unfoldable pub classify_scope_edge : V2Edge → List ScopeLoop → ScopeEdgeClass
classify_scope_edge edge loops =
    if edge.is_back_edge
    then back
    else class_between (loop_of loops edge.from 0) (loop_of loops edge.to 0)

-- The row that an edge reaches from the settled row.
abbrev pub target_key : V2Edge → ScopeEdgeClass → StepKey → StepKey
target_key edge back source = (edge.to, suc source.1)
target_key edge exit source = (edge.to, 0)
target_key edge entry source = (edge.to, 0)
target_key edge plain source = (edge.to, source.1)
target_key edge intra source = (edge.to, source.1)

abbrev pub is_settled : StepStatus → Bool
is_settled completed = true
is_settled failed = true
is_settled skipped = true
is_settled cancelled = true
is_settled _ = false

-- `!row.filledOutputSlots[LOOP_SLOT]`, where LOOP_SLOT is 1.
abbrev pub is_unfilled : Option Bool → Bool
is_unfilled (some true) = false
is_unfilled _ = true

abbrev pub is_terminal_row : StepRow → Bool
is_terminal_row row = is_settled row.status && is_unfilled (get_elem? row.filled_output_slots 1)

abbrev pub is_exit : ScopeEdgeClass → Bool
is_exit exit = true
is_exit _ = false

abbrev pub batch_step_decides : ScopeEdgeClass → StepRow → Bool
batch_step_decides edge_class batch_row =
    if is_terminal_row batch_row then is_exit edge_class else not (is_exit edge_class)

-- `batchRow !== undefined && !batchStepDecides(…)` does not hold.
abbrev pub is_decided_by : Option StepRow → ScopeEdgeClass → Bool
is_decided_by none edge_class = true
is_decided_by (some row) edge_class = batch_step_decides edge_class row

abbrev pub later : Option ℕ → ℕ → ℕ
later none i = i
later (some n) i = if ltb n i then i else n

-- The loop that finds each node's latest iteration.
unfoldable pub note_latest : List (String × ℕ) → StepRow → List (String × ℕ)
note_latest latest r = Maps.set latest r.key.0 (later (Maps.get latest r.key.0) r.key.1)

abbrev pub reaches : Option ℕ → ℕ → Bool
reaches none i = false
reaches (some n) i = leb i n

-- Whether the key has a row: iterations are contiguous, so the latest row of its node says so.
unfoldable pub exists_row : List StepRow → StepKey → Bool
unfolding note_latest
exists_row rows k = reaches (Maps.get (fold note_latest [] rows) k.0) k.1

abbrev pub find_row : StepKey → List StepRow → Option StepRow
find_row k [] = none
find_row k (r ∷ rs) = if r.key == k then some r else find_row k rs

-- The loop over the out-edges, with the keys that an earlier edge named.
unfoldable pub collect_candidates :
    Option StepRow → StepKey → List StepRow → List StepKey → List ClassifiedEdge → List StepKey
collect_candidates batch_row settled rows decided [] = []
collect_candidates batch_row settled rows decided (c ∷ cs) =
    let target = target_key c.edge c.edge_class settled in
    let is_passed =
      not (is_decided_by batch_row c.edge_class)
      || (exists_row rows target || has decided target) in
    let rest =
      collect_candidates batch_row settled rows (if is_passed then decided else target ∷ decided)
        cs in
    if is_passed then rest else target ∷ rest

-- The settled row, where its node is a batch node.
abbrev pub batch_row_of : Scope → StepKey → List StepRow → Option StepRow
batch_row_of scope settled rows =
    if has scope.batch_nodes settled.0 then find_row settled rows else none

unfoldable pub candidate_keys : Scope → StepKey → List StepRow → List StepKey
candidate_keys scope settled rows =
    collect_candidates (batch_row_of scope settled rows) settled rows []
      (Maps.get_or scope.outgoing settled.0 [])

-- The plan restricted to the candidates, in their order.
unfoldable pub scope_plan : StepPlan → List StepKey → StepPlan
scope_plan plan [] = record { to_queue = []; to_skip = [] }
scope_plan plan (k ∷ ks) =
    let rest = scope_plan plan ks in
    record {
      to_queue = if has plan.to_queue k then k ∷ rest.to_queue else rest.to_queue;
      to_skip = if has plan.to_skip k then k ∷ rest.to_skip else rest.to_skip;
    }

abbrev pub is_failed : StepStatus → Bool
is_failed failed = true
is_failed _ = false

abbrev pub is_empty_list {ℓ} : {A : Type ℓ} → List A → Bool
is_empty_list [] = true
is_empty_list (x ∷ xs) = false

unfoldable pub is_finished : List StepRow → StepPlan → Bool
is_finished rows plan =
    if any (λ r. is_failed r.status) rows
    then false
    else all (λ r. is_settled r.status) rows
      && (is_empty_list plan.to_queue && is_empty_list plan.to_skip)
