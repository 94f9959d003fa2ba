-- ===== src/Compiler/Analysis/Worklist.antt =====
-- The depth-first loop that compiler/analysis/reachability.ts (`walk`) and
-- compiler/analysis/skip-observers.ts share the shape of: a `seen` set and a stack, popped until it
-- is empty. The stack's top is the head of the list.
pub mod Drained
use n8n_libpetri.Prelude.{
  ℕ, zero, suc, ◌+◌, ◌≤◌, ◌≡◌, Bool, true, false, not, ◌&&◌, ◌||◌, Option, none, some, List, [],
  ◌∷◌, arith, Eq, ◌==◌, if◌then◌else◌, length,
}
use n8n_libpetri.Prelude.Sets.{has, missing, missing-cons}

pub record Search {ℓ} (K : Type ℓ) : Type ℓ where
  pub seen : List K
  pub stack : List K

module _ {ℓ} {K : Type ℓ} ⦃e : Eq K⦄ where
  -- `m === avoid`, where `avoid` may be null.
  abbrev pub is_avoided : Option K → K → Bool
  is_avoided none m = false
  is_avoided (some a) m = m == a

  -- The loop's body on one node: `if (m === avoid || seen.has(m)) continue; seen.add(m); push(m)`.
  unfoldable pub offer : Option K → Search K → K → Search K
  offer avoid s m =
      if is_avoided avoid m || has s.seen m
      then s
      else record { seen = m ∷ s.seen; stack = m ∷ s.stack }

  unfoldable pub offer_all : Option K → Search K → List K → Search K
  offer_all avoid s [] = s
  offer_all avoid s (m ∷ ms) = offer_all avoid (offer avoid s m) ms

module _ {ℓ} {K : Type ℓ} ⦃e : Eq K⦄ (avoid : Option K) (next : K → List K) where
  -- The `while` loop, on fuel: one unit for each node popped.
  unfoldable pub drain : ℕ → Search K → Search K
  drain zero s = s
  drain (suc fuel) s = elim s.stack [
    | [] ↦ s
    | n ∷ rest ↦ drain fuel (offer_all avoid (record s { stack = rest }) (next n))
  ]

module _ {ℓ} {K : Type ℓ} ⦃e : Eq K⦄ (avoid : Option K) where
  pub seen-offer_all :
      (s : Search K) (ms : List K) (w : K)
      → has (offer_all avoid s ms).seen w ≡ (has s.seen w || (has ms w && not (is_avoided avoid w)))
  unfolding offer_all offer
  seen-offer_all s [] w = ground arith
  seen-offer_all s (m ∷ ms) w = ground (arith, e.beq_iff m w, seen-offer_all (offer avoid s m) ms w)

  pub stack-offer_all :
      (s : Search K) (ms : List K) (w : K)
      → has (offer_all avoid s ms).stack w
        ≡ (has s.stack w || (has ms w && (not (is_avoided avoid w) && not (has s.seen w))))
  unfolding offer_all offer
  stack-offer_all s [] w = ground arith
  stack-offer_all s (m ∷ ms) w =
      ground (arith, e.beq_iff m w, stack-offer_all (offer avoid s m) ms w)

  -- What is pushed was missing from the set, so this measure does not grow.
  pub work-offer_all :
      (us : List K) (s : Search K) (ms : List K)
      → ((w : K) → has ms w ≡ true → has us w ≡ true)
      → missing (offer_all avoid s ms).seen us + length (offer_all avoid s ms).stack
        ≤ missing s.seen us + length s.stack
  unfolding offer_all offer
  work-offer_all us s [] sub = omega arith
  work-offer_all us s (m ∷ ms) sub = ground (
    arith,
    e.beq_iff m m,
    sub m,
    missing-cons s.seen us m,
    work-offer_all us (offer avoid s m) ms (λ w h. sub w (ground arith)),
  )
