-- ===== src/Settlement/Rows/Answers.antt =====
-- What a keyed read gives.
use n8n_libpetri.Prelude.{
  ◌≡◌, refl, sym, ◌∙◌, ap, subst, true, false, List, [], ◌∷◌, String, string_eq, nat_eq, pair_eq,
  ◌==◌, arith, inl, inr, Bool-cases,
}
use n8n_libpetri.Prelude.Sets.{has, IsNodup, beq_refl}
use n8n_libpetri.Prelude.Maps.{map_keys}
use n8n_libpetri.Prelude.Predicates.{All}
use n8n_libpetri.Prelude.Results.{ok, >>=-eq-ok}
use n8n_libpetri.Compiler.Types.{Num, nat, negative, fractional}
use n8n_libpetri.Settlement.Scope.{StepKey, StepRow}
use n8n_libpetri.Settlement.Rows.{
  V2StepSummary, asked_key, check_asked, row_of, check_found, read_by_keys,
}

-- The rows are the stored ones, in their order.
abbrev pub Matches : List V2StepSummary → List StepRow → Type 0
Matches [] [] = Unit
Matches [] (r ∷ rs) = ⊥
Matches (s ∷ ss) [] = ⊥
Matches (s ∷ ss) (r ∷ rs) =
    ((s.iteration ≡ nat r.key.1)
      × (s.node_id ≡ r.key.0)
      × (s.status ≡ r.status)
      × (s.filled_output_slots ≡ r.filled_output_slots))
    × Matches ss rs

asked_key-eq-ok :
    (i : Num) (node_id : String) (k : StepKey)
    → asked_key i node_id ≡ ok k
    → (i ≡ nat k.1) × (node_id ≡ k.0)
asked_key-eq-ok (nat n) node_id k h =
    let same : (node_id, n) ≡ k = cc in (ap (λ p. nat p.1) same, ap (λ p. p.0) same)
asked_key-eq-ok (negative n) node_id k h = cc
asked_key-eq-ok (fractional s) node_id k h = cc

check_asked-eq-ok :
    (wanted seen : List StepKey) (named k : StepKey)
    → check_asked wanted seen named ≡ ok k
    → (named ≡ k) × (has wanted k ≡ true) × (has seen k ≡ false)
check_asked-eq-ok wanted seen named k h = elim (Bool-cases (has wanted named)) [
  | inr stray ↦ cc (rw stray at h)
  | inl asked ↦ elim (Bool-cases (has seen named)) [
    | inl twice ↦ cc (rw (asked, twice) at h)
    | inr once ↦
        let result : ok named ≡ ok k = rw (asked, once) at h in
        let same : named ≡ k = cc in
        (same, ap (has wanted) (sym same) ∙ asked, ap (has seen) (sym same) ∙ once)
  ]
]

-- The rows that answer a question.
pub record IsAnswer (wanted seen : List StepKey) (found : List V2StepSummary) (rows : List StepRow)
    : Type 0 where
  pub asked : All (λ r. has wanted r.key ≡ true) rows
  pub distinct : IsNodup (map_keys (λ (r : StepRow). r.key) rows)
  pub fresh : All (λ r. has seen r.key ≡ false) rows
  pub stored : Matches found rows

fresh-keys :
    (k : StepKey) (seen : List StepKey) (rows : List StepRow)
    → All (λ r. has (k ∷ seen) r.key ≡ false) rows
    → (has (map_keys (λ (r : StepRow). r.key) rows) k ≡ false)
      × All (λ r. has seen r.key ≡ false) rows
fresh-keys k seen [] h = (refl, tt)
fresh-keys k seen (r ∷ rs) (first, rest) =
    let (apart, later) = fresh-keys k seen rs rest in
    elim (Bool-cases (r.key == k)) [
      | inl same ↦
          let here : r.key ≡ k = (pair_eq.beq_iff r.key k).0 same in
          let itself : (k == k) ≡ true = beq_refl k in
          let first' : has (k ∷ seen) k ≡ false = ap (has (k ∷ seen)) (sym here) ∙ first in
          absurd (ground (arith, itself, first'))
      | inr other ↦ (ground (arith, other, apart), (ground (arith, first), later))
    ]

check_found-IsAnswer :
    (wanted seen : List StepKey) (found : List V2StepSummary) (rows : List StepRow)
    → check_found wanted seen found ≡ ok rows
    → IsAnswer wanted seen found rows
unfolding check_found
check_found-IsAnswer wanted seen [] rows h =
    let same : [] ≡ rows = cc in
    subst (IsAnswer wanted seen []) same
      (record { asked = tt; distinct = tt; fresh = tt; stored = tt })
check_found-IsAnswer wanted seen (s ∷ ss) rows h =
    let (named, p, after_named) = >>=-eq-ok (asked_key s.iteration s.node_id) _ h in
    let (k, q, after_key) = >>=-eq-ok (check_asked wanted seen named) _ after_named in
    let (rest, r, last) = >>=-eq-ok (check_found wanted (k ∷ seen) ss) _ after_key in
    let same : row_of s k ∷ rest ≡ rows = cc in
    let (iteration, node_id) = asked_key-eq-ok s.iteration s.node_id named p in
    let (key, asked, unseen) = check_asked-eq-ok wanted seen named k q in
    let later = check_found-IsAnswer wanted (k ∷ seen) ss rest r in
    let (apart, fresh) = fresh-keys k seen rest later.fresh in
    subst (IsAnswer wanted seen (s ∷ ss)) same (record {
      asked = (asked, later.asked);
      distinct = (apart, later.distinct);
      fresh = (unseen, fresh);
      stored = (
        (iteration ∙ ap (λ j. nat j.1) key, node_id ∙ ap (λ j. j.0) key, refl, refl),
        later.stored,
      );
    })

-- What the store answers to the question: nothing when no key is asked.
abbrev pub answer_of : (List StepKey → List V2StepSummary) → List StepKey → List V2StepSummary
answer_of load [] = []
answer_of load (k ∷ ks) = load (k ∷ ks)

-- Whatever the store answers, the rows that a keyed read accepts are the stored ones in their order,
-- each under a key that was asked, and no key twice.
pub read_by_keys-IsAnswer :
    (load : List StepKey → List V2StepSummary) (keys : List StepKey) (rows : List StepRow)
    → read_by_keys load keys ≡ ok rows
    → IsAnswer keys [] (answer_of load keys) rows
unfolding read_by_keys
read_by_keys-IsAnswer load [] rows h =
    let same : [] ≡ rows = cc in
    subst (IsAnswer [] [] []) same (record { asked = tt; distinct = tt; fresh = tt; stored = tt })
read_by_keys-IsAnswer load (k ∷ ks) rows h = check_found-IsAnswer (k ∷ ks) [] (load (k ∷ ks)) rows h
