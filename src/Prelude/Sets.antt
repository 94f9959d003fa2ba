-- ===== src/Prelude/Sets.antt =====
-- A JavaScript `Set` as the list of its members, newest first, and array membership.
use Prim.Native.Nat.{ℕ, suc, ◌≤◌}
use mathlib.Core.Path.{◌≡◌, refl}
use mathlib.Core.Bool.{Bool, true, false, not, ◌&&◌, ◌||◌}
use mathlib.Core.List.{List, [], ◌∷◌, ◌++◌}
use native.Mathlib.Omega.{arith}
use n8n_libpetri.Prelude.Tests.{Eq, ◌==◌, if◌then◌else◌}
use n8n_libpetri.Prelude.Lists.{length, keep}

module _ {ℓ} {A : Type ℓ} ⦃e : Eq A⦄ where
  -- `Array.includes` and `Set.has`.
  abbrev pub has : List A → A → Bool
  has [] a = false
  has (x ∷ xs) a = x == a || has xs a

  -- `Set.add`.
  abbrev pub add : List A → A → List A
  add xs a = if has xs a then xs else a ∷ xs

  -- Each member stands once.
  abbrev pub IsNodup : List A → Type 0
  IsNodup [] = Unit
  IsNodup (x ∷ xs) = (has xs x ≡ false) × IsNodup xs

  pub beq_refl : (a : A) → (a == a) ≡ true
  beq_refl a = (e.beq_iff a a).1 refl

  pub has-head : (x : A) (xs : List A) → has (x ∷ xs) x ≡ true
  has-head x xs = ground (arith, beq_refl x)

  pub has-append : (xs ys : List A) (a : A) → has (xs ++ ys) a ≡ (has xs a || has ys a)
  has-append [] ys a = refl
  has-append (x ∷ xs) ys a = ground (arith, has-append xs ys a)

  pub IsNodup-snoc : (xs : List A) (a : A) → IsNodup xs → has xs a ≡ false → IsNodup (xs ++ a ∷ [])
  IsNodup-snoc [] a h n = (refl, tt)
  IsNodup-snoc (x ∷ xs) a h n = (
    ground (arith, h.0, n, has-append xs (a ∷ []) x, e.beq_iff x a, e.beq_iff a x),
    IsNodup-snoc xs a h.1 (ground (arith, n)),
  )

  pub has-add : (xs : List A) (a b : A) → has (add xs a) b ≡ (has xs b || a == b)
  has-add xs a b = ground (arith, e.beq_iff a b)

  pub has-keep : (p : A → Bool) (xs : List A) (a : A) → has (keep p xs) a ≡ (has xs a && p a)
  has-keep p [] a = refl
  has-keep p (x ∷ xs) a = ground (arith, e.beq_iff x a, has-keep p xs a)

  -- The members of `us` that `xs` lacks, with repetitions.
  abbrev pub missing : List A → List A → ℕ
  missing xs [] = 0
  missing xs (u ∷ us) = if has xs u then missing xs us else suc (missing xs us)

  pub missing-le : (xs us : List A) → missing xs us ≤ length us
  missing-le xs [] = omega arith
  missing-le xs (u ∷ us) = ground (arith, missing-le xs us)

  missing-cons-le : (xs us : List A) (a : A) → missing (a ∷ xs) us ≤ missing xs us
  missing-cons-le xs [] a = omega arith
  missing-cons-le xs (u ∷ us) a = ground (arith, missing-cons-le xs us a)

  -- A new member of `us` leaves fewer of them missing.
  pub missing-cons :
      (xs us : List A) (a : A)
      → has us a ≡ true
      → has xs a ≡ false
      → suc (missing (a ∷ xs) us) ≤ missing xs us
  missing-cons xs [] a h n = cc
  missing-cons xs (u ∷ us) a h n =
      ground (arith, e.beq_iff u a, e.beq_iff a u, missing-cons-le xs us a, missing-cons xs us a)

  -- `[...new Set(xs)]`: the first occurrence of each element. The set so far is `seen`.
  abbrev pub unique : List A → List A → List A
  unique seen [] = []
  unique seen (x ∷ xs) = let rest = unique (x ∷ seen) xs in if has seen x then rest else x ∷ rest

  pub has-unique :
      (seen xs : List A) (a : A) → has (unique seen xs) a ≡ (has xs a && not (has seen a))
  has-unique seen [] a = refl
  has-unique seen (x ∷ xs) a = ground (arith, e.beq_iff x a, has-unique (x ∷ seen) xs a)
