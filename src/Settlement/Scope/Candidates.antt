-- ===== src/Settlement/Scope/Candidates.antt =====
-- Which keys a settled step may decide.
use n8n_libpetri.Prelude.{
  ℕ, ◌≡◌, refl, ap, ◌∙◌, inl, inr, ◌||◌, ◌&&◌, not, Bool, true, Option, none, some, List, [], ◌∷◌,
  String, string_eq, nat_eq, pair_eq, ◌==◌, leb, fold, any, arith, Bool-cases,
}
use n8n_libpetri.Prelude.Sets.{has, IsNodup, beq_refl}
use n8n_libpetri.Prelude.Maps
use n8n_libpetri.Prelude.Maps.{get-set}
use n8n_libpetri.Settlement.Scope.{
  StepKey, StepRow, ClassifiedEdge, Scope, target_key, is_decided_by, later, note_latest, reaches,
  exists_row, collect_candidates, batch_row_of, candidate_keys,
}

-- Some row of the key's node is at its iteration or a later one.
abbrev pub is_reached : List StepRow → StepKey → Bool
is_reached rows k = any (λ r. r.key.0 == k.0 && leb k.1 r.key.1) rows

reaches-later : (o : Option ℕ) (n i : ℕ) → reaches (some (later o n)) i ≡ (reaches o i || leb i n)
reaches-later none n i = ground arith
reaches-later (some m) n i = ground arith

reaches-fold :
    (rows : List StepRow) (m : List (String × ℕ)) (k : StepKey)
    → reaches (Maps.get (fold note_latest m rows) k.0) k.1
      ≡ (reaches (Maps.get m k.0) k.1 || is_reached rows k)
unfolding note_latest
reaches-fold [] m k = ground arith
reaches-fold (r ∷ rs) m k = elim (Bool-cases (r.key.0 == k.0)) [
  | inl same ↦
      let here : r.key.0 ≡ k.0 = (string_eq.beq_iff r.key.0 k.0).0 same in
      let now : Maps.get (note_latest m r) k.0 ≡ some (later (Maps.get m k.0) r.key.1) =
        get-set m r.key.0 k.0 (later (Maps.get m r.key.0) r.key.1)
        ∙ rw same (ap (λ j. some (later (Maps.get m j) r.key.1)) here) in
      ground (
        arith,
        same,
        reaches-fold rs (note_latest m r) k,
        ap (λ o. reaches o k.1) now,
        reaches-later (Maps.get m k.0) r.key.1 k.1,
      )
  | inr other ↦
      let now : Maps.get (note_latest m r) k.0 ≡ Maps.get m k.0 =
        get-set m r.key.0 k.0 (later (Maps.get m r.key.0) r.key.1) ∙ rw other refl in
      ground (arith, other, reaches-fold rs (note_latest m r) k, ap (λ o. reaches o k.1) now)
]

exists_row_lem : (rows : List StepRow) (k : StepKey) → exists_row rows k ≡ is_reached rows k
unfolding exists_row
exists_row_lem rows k = ground (arith, reaches-fold rows [] k)

module _ (batch_row : Option StepRow) (settled : StepKey) (rows : List StepRow) where
  -- Some edge that the batch row does not rule out leads to the key.
  abbrev pub leads_to : List ClassifiedEdge → StepKey → Bool
  leads_to cs k =
      any (λ c. is_decided_by batch_row c.edge_class && target_key c.edge c.edge_class settled == k)
        cs

  collect_candidates_lem :
      (cs : List ClassifiedEdge) (decided : List StepKey) (k : StepKey)
      → has (collect_candidates batch_row settled rows decided cs) k
        ≡ (leads_to cs k && (not (exists_row rows k) && not (has decided k)))
  unfolding collect_candidates
  collect_candidates_lem [] decided k = refl
  collect_candidates_lem (c ∷ cs) decided k =
      let target = target_key c.edge c.edge_class settled in
      elim (Bool-cases (target == k)) [
        | inl same ↦
            let here : target ≡ k = (pair_eq.beq_iff target k).0 same in
            ground (
              arith,
              same,
              ap (exists_row rows) here,
              ap (has decided) here,
              collect_candidates_lem cs decided k,
              collect_candidates_lem cs (target ∷ decided) k,
            )
        | inr other ↦ ground (
          arith,
          other,
          collect_candidates_lem cs decided k,
          collect_candidates_lem cs (target ∷ decided) k,
        )
      ]

  IsNodup-collect_candidates :
      (cs : List ClassifiedEdge) (decided : List StepKey)
      → IsNodup (collect_candidates batch_row settled rows decided cs)
  unfolding collect_candidates
  IsNodup-collect_candidates [] decided = tt
  IsNodup-collect_candidates (c ∷ cs) decided =
      let target = target_key c.edge c.edge_class settled in
      let itself : (target == target) ≡ true = beq_refl target in
      ground (
        arith,
        itself,
        IsNodup-collect_candidates cs decided,
        IsNodup-collect_candidates cs (target ∷ decided),
        collect_candidates_lem cs (target ∷ decided) target,
      )

pub candidate_keys_lem :
    (scope : Scope) (settled : StepKey) (rows : List StepRow)
    → IsNodup (candidate_keys scope settled rows)
      × ((k : StepKey)
          → has (candidate_keys scope settled rows) k ≡ (
              leads_to
                (batch_row_of scope settled rows)
                settled
                rows
                (Maps.get_or scope.outgoing settled.0 [])
                k
              && not (is_reached rows k)))
unfolding candidate_keys
candidate_keys_lem scope settled rows =
    let cs = Maps.get_or scope.outgoing settled.0 [] in
    let row = batch_row_of scope settled rows in
    (
      IsNodup-collect_candidates row settled rows cs [],
      λ k. collect_candidates_lem row settled rows cs [] k ∙ ground (arith, exists_row_lem rows k),
    )
