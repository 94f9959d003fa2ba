-- ===== src/Settlement/Policy/Finished.antt =====
-- When settlement/policy.ts takes an execution to be finished.
use n8n_libpetri.Prelude.{
  ◌≡◌, ◌⊎◌, refl, ap, ◌∙◌, sym, ◌↔◌, ◌&&◌, not, Bool, true, false, none, some, List, [], ◌∷◌, any,
  all, arith, inl, inr, if◌then◌else◌,
}
use n8n_libpetri.Prelude.Predicates.{All}
use n8n_libpetri.Prelude.Results.{Result, ok, err, ◌>>=◌, ok-injective}
use n8n_libpetri.Settlement.Scope.{
  StepKey, StepStatus, completed, skipped, StepRow, StepPlan, is_settled, is_failed, is_empty_list,
  is_finished,
}
use n8n_libpetri.Settlement.Rows.{failure, cancel, named_race, is_cancelled}
use n8n_libpetri.Settlement.Policy.{nothing, is_cancel, finished_from_rows}

-- The step has run or was skipped.
abbrev pub IsDone : StepRow → Type 0
IsDone r = (r.status ≡ completed) ⊎ (r.status ≡ skipped)

abbrev is_done : StepStatus → Bool
is_done completed = true
is_done skipped = true
is_done _ = false

is_done_lem :
    (s : StepStatus) → is_done s ≡ (is_settled s && (not (is_failed s) && not (is_cancelled s)))
is_done_lem s = ground arith

all_done : List StepRow → Bool
all_done rows = all (λ r. is_done r.status) rows

all_done_lem :
    (rows : List StepRow)
    → all_done rows ≡ (
        all (λ r. is_settled r.status) rows
        && (not (any (λ r. is_failed r.status) rows)
            && not (any (λ r. is_cancelled r.status) rows)))
unfolding all_done
all_done_lem [] = refl
all_done_lem (r ∷ rs) = ground (arith, is_done_lem r.status, all_done_lem rs)

is_done-IsDone : (s : StepStatus) → is_done s ≡ true → (s ≡ completed) ⊎ (s ≡ skipped)
is_done-IsDone completed h = inl refl
is_done-IsDone skipped h = inr refl
is_done-IsDone _ h = cc

all_done-All : (rows : List StepRow) → all_done rows ≡ true → All IsDone rows
unfolding all_done
all_done-All [] h = tt
all_done-All (r ∷ rs) h =
    (is_done-IsDone r.status (ground (arith, h)), all_done-All rs (ground (arith, h)))

All-all_done : (rows : List StepRow) → All IsDone rows → all_done rows ≡ true
unfolding all_done
All-all_done [] h = refl
All-all_done (r ∷ rs) (inl e, k) = rw e (All-all_done rs k)
All-all_done (r ∷ rs) (inr e, k) = rw e (All-all_done rs k)

nothing-of :
    (plan : StepPlan)
    → (is_empty_list plan.to_queue && is_empty_list plan.to_skip) ≡ true
    → plan ≡ nothing
nothing-of plan h = by plan.to_queue plan.to_skip h
  where
    by :
        (qs ss : List StepKey)
        → (is_empty_list qs && is_empty_list ss) ≡ true
        → record { to_queue = qs; to_skip = ss } ≡ nothing
    by [] [] h' = refl
    by [] (k ∷ ks) h' = cc
    by (k ∷ ks) ss h' = cc

module _ {ℓ} {E : Type ℓ} (plan_at : List StepRow → Result E StepPlan) where
  -- The answer by what the rows hold: a failed, a cancelled one, and only settled ones.
  abbrev answer : Bool → Bool → Bool → Result E StepPlan → Result E Bool
  answer fails cancels settles m =
      if is_cancel (if fails then some failure else if cancels then some cancel else none)
      then ok false
      else (do
        plan ← m
        ok (
            if fails
            then false
            else settles && (is_empty_list plan.to_queue && is_empty_list plan.to_skip)))

  answer-forth :
      (fails cancels settles : Bool) (m : Result E StepPlan)
      → answer fails cancels settles m ≡ ok true
      → ((settles && (not fails && not cancels)) ≡ true) × (m ≡ ok nothing)
  answer-forth true cancels settles (ok plan) h = cc (ok-injective h)
  answer-forth true cancels settles (err e) h = cc
  answer-forth false true settles m h = cc (ok-injective h)
  answer-forth false false false (ok plan) h = cc (ok-injective h)
  answer-forth false false settles (err e) h = cc
  answer-forth false false true (ok plan) h =
      (refl, ap (λ p. ok p) (nothing-of plan (ok-injective h)))

  answer-back :
      (fails cancels settles : Bool)
      → (settles && (not fails && not cancels)) ≡ true
      → answer fails cancels settles (ok nothing) ≡ ok true
  answer-back false false true h = refl
  answer-back true cancels true h = cc
  answer-back false true true h = cc
  answer-back fails cancels false h = cc

  finished_from_rows-answer :
      (rows : List StepRow)
      → finished_from_rows plan_at rows
        ≡ answer
            (any (λ r. is_failed r.status) rows)
            (any (λ r. is_cancelled r.status) rows)
            (all (λ r. is_settled r.status) rows)
            (plan_at rows)
  unfolding finished_from_rows is_finished named_race
  finished_from_rows-answer rows = refl

  -- An execution is taken to be finished exactly when every row is completed or skipped, and the net
  -- plans nothing at the rows.
  pub finished_from_rows_iff :
      (rows : List StepRow)
      → (finished_from_rows plan_at rows ≡ ok true)
        ↔ (All IsDone rows × (plan_at rows ≡ ok nothing))
  finished_from_rows_iff rows = (
    λ h.
        let (done, planned) =
          answer-forth (any (λ r. is_failed r.status) rows) (any (λ r. is_cancelled r.status) rows)
            (all (λ r. is_settled r.status) rows) (plan_at rows)
            (sym (finished_from_rows-answer rows) ∙ h) in
        (all_done-All rows (all_done_lem rows ∙ done), planned),
    λ (done, planned).
        finished_from_rows-answer rows
        ∙ ap
            (answer (any (λ r. is_failed r.status) rows) (any (λ r. is_cancelled r.status) rows)
              (all (λ r. is_settled r.status) rows))
            planned
        ∙ answer-back (any (λ r. is_failed r.status) rows) (any (λ r. is_cancelled r.status) rows)
            (all (λ r. is_settled r.status) rows)
            (sym (all_done_lem rows) ∙ All-all_done rows done),
  )
