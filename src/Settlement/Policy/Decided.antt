-- ===== src/Settlement/Policy/Decided.antt =====
-- The rows after a decision of settlement/policy.ts.
use n8n_libpetri.Prelude.{
  ◌≡◌, refl, sym, ap, ◌∙◌, subst, ◌||◌, Bool, true, false, List, [], ◌∷◌, ◌++◌, string_eq, nat_eq,
  pair_eq, ◌==◌, all, arith, inl, inr, Bool-cases, if◌then◌else◌,
}
use n8n_libpetri.Prelude.Sets.{has, IsNodup, IsNodup-snoc, has-append}
use n8n_libpetri.Prelude.Predicates.{if-keeps}
use n8n_libpetri.Settlement.Scope.{
  StepKey, StepStatus, queued, skipped, StepRow, StepPlan, is_settled,
}
use n8n_libpetri.Settlement.Policy.{step_keys, Added, add_row, add_key, add_keys, with_decided}

step_keys-append : (xs ys : List StepRow) → step_keys (xs ++ ys) ≡ step_keys xs ++ step_keys ys
step_keys-append [] ys = refl
step_keys-append (x ∷ xs) ys = ap (λ ks. x.key ∷ ks) (step_keys-append xs ys)

-- The set of the keys and the rows agree, and no two rows have one key.
abbrev pub IsTracked : Added → Type 0
IsTracked a = ((k : StepKey) → has (step_keys a.out) k ≡ has a.have k) × IsNodup (step_keys a.out)

abbrev pub all_settled : List StepRow → Bool
all_settled rows = all (λ r. is_settled r.status) rows

all-append_false :
    (rows more : List StepRow) → all_settled rows ≡ false → all_settled (rows ++ more) ≡ false
all-append_false [] more e = cc
all-append_false (r ∷ rs) more e = ground (arith, e, all-append_false rs more)

module _ (status : StepStatus) where
  abbrev row : StepKey → StepRow
  row k = record { key = k; status = status; filled_output_slots = [] }

  add_row-IsTracked :
      (a : Added) (k : StepKey)
      → IsTracked a
      → has a.have k ≡ false
      → IsTracked (add_row status a k)
  add_row-IsTracked a k t n =
      let keys = step_keys-append a.out (row k ∷ []) in
      (
        λ j.
            ap (λ ks. has ks j) keys
            ∙ ground (arith, has-append (step_keys a.out) (k ∷ []) j, t.0 j),
        subst IsNodup (sym keys) (IsNodup-snoc (step_keys a.out) k t.1 (t.0 k ∙ n)),
      )

  has_same : (ks : List StepKey) (k j : StepKey) → has ks k ≡ true → has ks j ≡ (has ks j || k == j)
  has_same ks k j h = elim (Bool-cases (k == j)) [
    | inl same ↦ ground (arith, same, h, ap (has ks) ((pair_eq.beq_iff k j).0 same))
    | inr other ↦ ground (arith, other)
  ]

  add_key-IsTracked :
      (a : Added) (k : StepKey)
      → IsTracked a
      → IsTracked (add_key status a k)
        × ((j : StepKey) → has (add_key status a k).have j ≡ (has a.have j || k == j))
  add_key-IsTracked a k t = by (has a.have k) refl
    where
      by :
          (b : Bool)
          → has a.have k ≡ b
          → IsTracked (if b then a else add_row status a k)
            × ((j : StepKey)
                → has (if b then a else add_row status a k).have j ≡ (has a.have j || k == j))
      by true old = (t, λ j. has_same a.have k j old)
      by false new = (add_row-IsTracked a k t new, λ j. ground arith)

  pub add_keys-IsTracked :
      (a : Added) (ks : List StepKey)
      → IsTracked a
      → IsTracked (add_keys status a ks)
        × ((j : StepKey) → has (add_keys status a ks).have j ≡ (has a.have j || has ks j))
  add_keys-IsTracked a [] t = (t, λ j. ground arith)
  add_keys-IsTracked a (k ∷ ks) t =
      let (first, named) = add_key-IsTracked a k t in
      let (kept, keys) = add_keys-IsTracked (add_key status a k) ks first in
      (kept, λ j. keys j ∙ ground (arith, named j))

  -- A row that is not settled stays.
  add_key-unsettled :
      (a : Added) (k : StepKey)
      → all_settled a.out ≡ false
      → all_settled (add_key status a k).out ≡ false
  add_key-unsettled a k h =
      if-keeps (λ (x : Added). all_settled x.out ≡ false) (has a.have k) a (add_row status a k) h
        (all-append_false a.out (row k ∷ []) h)

  pub add_keys-unsettled :
      (a : Added) (ks : List StepKey)
      → all_settled a.out ≡ false
      → all_settled (add_keys status a ks).out ≡ false
  add_keys-unsettled a [] h = h
  add_keys-unsettled a (k ∷ ks) h =
      add_keys-unsettled (add_key status a k) ks (add_key-unsettled a k h)

-- Where the rows have distinct keys, the rows with a decision added have distinct keys too: exactly
-- those of the rows and the decided ones.
pub with_decided_lem :
    (rows : List StepRow) (decided : StepPlan)
    → IsNodup (step_keys rows)
    → IsNodup (step_keys (with_decided rows decided))
      × ((k : StepKey)
          → has (step_keys (with_decided rows decided)) k
            ≡ (has (step_keys rows) k || (has decided.to_queue k || has decided.to_skip k)))
unfolding with_decided
with_decided_lem rows decided h =
    let start : Added = record { have = step_keys rows; out = rows } in
    let (kept, keys) = add_keys-IsTracked queued start decided.to_queue ((λ k. refl), h) in
    let (all_kept, all_keys) =
      add_keys-IsTracked skipped (add_keys queued start decided.to_queue) decided.to_skip kept in
    (all_kept.1, λ k. all_kept.0 k ∙ all_keys k ∙ ground (arith, keys k))
