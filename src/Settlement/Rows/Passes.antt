-- ===== src/Settlement/Rows/Passes.antt =====
-- Which passes are asked.
use n8n_libpetri.Prelude.{
  ℕ, ◌≡◌, refl, ◌+◌, ◌&&◌, ◌||◌, Bool, false, Option, none, some, nat_eq, leb, nat_beq, arith, inl,
  inr, Bool-cases,
}
use n8n_libpetri.Prelude.Sets.{has}
use n8n_libpetri.Compiler.Analysis.Inputs.Required.{has-range_from}
use n8n_libpetri.Settlement.Rows.{scoped_passes, probe_pass}

-- The passes around the batch node's: the first, and those from one before it to one after it.
abbrev pub is_near : Option ℕ → ℕ → Bool
is_near none i = nat_beq i 0
is_near (some last) i = leb i (last + 1) && (nat_beq i 0 || leb last (i + 1))

-- The scoped read asks exactly the first pass and the passes from one before the batch node's to one
-- after it, and its probe is a pass that it does not ask of the members.
pub scoped_passes_lem :
    (last : Option ℕ)
    → ((i : ℕ) → has (scoped_passes last) i ≡ is_near last i)
      × (has (scoped_passes last) (probe_pass last) ≡ false)
unfolding scoped_passes
scoped_passes_lem none = (λ i. ground arith, refl)
scoped_passes_lem (some last) = elim (Bool-cases (leb last 2)) [
  | inl early ↦ (
    λ i. rw early (ground (arith, early, has-range_from (last + 2) 0 i)),
    rw early (ground (arith, early, has-range_from (last + 2) 0 (last + 2))),
  )
  | inr late ↦ (λ i. rw late (ground (arith, late)), rw late (ground (arith, late)))
]
