-- ===== src/Settlement/Policy/Shortcut.antt =====
-- What the decisions of settlement/policy.ts have to do with each other in one settlement.
use n8n_libpetri.Prelude.{
  ℕ, ◌≡◌, refl, sym, ap, ◌∙◌, subst, Bool, true, false, List, [], ◌∷◌, ◌++◌, string_eq, nat_eq,
  pair_eq, ◌==◌, leb, arith, inl, inr, Bool-cases, if◌then◌else◌,
}
use n8n_libpetri.Prelude.Sets.{has, has-head}
use n8n_libpetri.Prelude.Results.{Result, ok, ◌>>=◌, >>=-eq-ok, ok-injective}
use n8n_libpetri.Settlement.Scope.{
  StepKey, queued, skipped, StepRow, StepPlan, Scope, candidate_keys, scope_plan, is_finished,
}
use n8n_libpetri.Settlement.Scope.Candidates.{is_reached, candidate_keys_lem}
use n8n_libpetri.Settlement.Scope.Finished.{scope_plan_lem}
use n8n_libpetri.Settlement.Rows.{named_race}
use n8n_libpetri.Settlement.Policy.{
  nothing, is_cancel, step_keys, Added, add_row, add_keys, with_decided, decide_from_rows,
  finished_from_rows, finished_after_decision,
}
use n8n_libpetri.Settlement.Policy.Decided.{all_settled, add_keys-unsettled}

leb_self : (n : ℕ) → leb n n ≡ true
leb_self n = ground arith

has-is_reached :
    (rows : List StepRow) (k : StepKey) → has (step_keys rows) k ≡ true → is_reached rows k ≡ true
has-is_reached [] k h = cc
has-is_reached (r ∷ rs) k h = elim (Bool-cases (r.key == k)) [
  | inl same ↦
      let here : r.key ≡ k = (pair_eq.beq_iff r.key k).0 same in
      ground (
        arith,
        (string_eq.beq_iff r.key.0 k.0).1 (ap (λ (x : StepKey). x.0) here),
        leb_self k.1,
        ap (λ (x : StepKey). leb k.1 x.1) here,
      )
  | inr other ↦ ground (arith, other, h, has-is_reached rs k)
]

candidates-New :
    (scope : Scope) (settled : StepKey) (rows : List StepRow) (k : StepKey)
    → has (candidate_keys scope settled rows) k ≡ true
    → has (step_keys rows) k ≡ false
candidates-New scope settled rows k h =
    ground (arith, h, (candidate_keys_lem scope settled rows).1 k, has-is_reached rows k)

-- The decided keys have no row.
abbrev pub IsNew : List StepRow → StepPlan → Type 0
IsNew rows d =
    (k : StepKey)
    → (has d.to_queue k ≡ true → has (step_keys rows) k ≡ false)
      × (has d.to_skip k ≡ true → has (step_keys rows) k ≡ false)

queued-unsettled :
    (rows : List StepRow) (k : StepKey)
    → all_settled (rows ++ record { key = k; status = queued; filled_output_slots = [] } ∷ [])
      ≡ false
queued-unsettled [] k = refl
queued-unsettled (r ∷ rs) k = ground (arith, queued-unsettled rs k)

with_decided-unsettled :
    (rows : List StepRow) (k : StepKey) (ks skips : List StepKey)
    → has (step_keys rows) k ≡ false
    → all_settled (with_decided rows (record { to_queue = k ∷ ks; to_skip = skips })) ≡ false
unfolding with_decided
with_decided-unsettled rows k ks skips new =
    let start : Added = record { have = step_keys rows; out = rows } in
    let first = if has start.have k then start else add_row queued start k in
    add_keys-unsettled skipped (add_keys queued first ks) skips (
      add_keys-unsettled queued first ks (
        subst (λ t. all_settled (if t then start else add_row queued start k).out ≡ false) (sym new)
          (queued-unsettled rows k)))

module _ {ℓ} {E : Type ℓ} (plan_at : List StepRow → Result E StepPlan) where
  -- Whatever the net plans, a settlement that decides queues and skips no key that has a row.
  pub decide_from_rows-New :
      (scope : Scope) (settled : StepKey) (rows : List StepRow) (d : StepPlan)
      → decide_from_rows plan_at scope settled rows ≡ ok d
      → IsNew rows d
  unfolding decide_from_rows
  decide_from_rows-New scope settled rows d h = by (is_cancel (named_race rows)) h
    where
      by :
          (t : Bool)
          → (if t then ok nothing else (do
            plan ← plan_at rows
            ok (scope_plan plan (candidate_keys scope settled rows))))
            ≡ ok d
          → IsNew rows d
      by true h' = subst (IsNew rows) (ok-injective h') (λ k. ((λ e. cc e), (λ e. cc e)))
      by false h' =
          let (plan, planned, built) = >>=-eq-ok (plan_at rows) _ h' in
          let cs = candidate_keys scope settled rows in
          subst (IsNew rows) (ok-injective built) (λ k.
            let (queues, skips) = scope_plan_lem plan cs k in
            (
              λ e. candidates-New scope settled rows k (ground (arith, queues, e)),
              λ e. candidates-New scope settled rows k (ground (arith, skips, e)),
            ))

  unsettled-unfinished :
      (rows : List StepRow) (b : Bool)
      → finished_from_rows plan_at rows ≡ ok b
      → all_settled rows ≡ false
      → b ≡ false
  unfolding finished_from_rows is_finished
  unsettled-unfinished rows b h u = by (is_cancel (named_race rows)) h
    where
      by :
          (t : Bool)
          → (if t then ok false else (do plan ← plan_at rows; ok (is_finished rows plan))) ≡ ok b
          → b ≡ false
      by true h' = sym (ok-injective h')
      by false h' =
          let (plan, planned, built) = >>=-eq-ok (plan_at rows) _ h' in
          sym (ok-injective built) ∙ ground (arith, u)

  -- Whatever the net plans: where a settlement decided from some rows, the test for the end that
  -- reuses these rows and the decision answers what the test on the rows with the decision added
  -- answers, whenever that one answers.
  pub finished_after_decision-Agrees :
      (scope : Scope) (settled : StepKey) (rows : List StepRow) (d : StepPlan) (b : Bool)
      → decide_from_rows plan_at scope settled rows ≡ ok d
      → finished_from_rows plan_at (with_decided rows d) ≡ ok b
      → finished_after_decision plan_at rows d ≡ ok b
  unfolding finished_after_decision with_decided
  finished_after_decision-Agrees scope settled rows d b decided h =
      by d.to_queue d.to_skip (decide_from_rows-New scope settled rows d decided) h
    where
      by :
          (qs ss : List StepKey)
          → IsNew rows (record { to_queue = qs; to_skip = ss })
          → finished_from_rows plan_at (with_decided rows (record { to_queue = qs; to_skip = ss }))
            ≡ ok b
          → finished_after_decision plan_at rows (record { to_queue = qs; to_skip = ss }) ≡ ok b
      by [] [] new h' = h'
      by [] (k ∷ ks) new h' = h'
      by (k ∷ ks) ss new h' = ap ok (
          sym (
            unsettled-unfinished (with_decided rows (record { to_queue = k ∷ ks; to_skip = ss })) b
              h' (with_decided-unsettled rows k ks ss ((new k).0 (has-head k ks)))))
