-- ===== src/Prelude/Sort.antt =====
-- `Array.sort` with a comparator: stable insertion, which gives what any stable sort gives.
use mathlib.Core.Path.{◌≡◌, refl, ◌∙◌}
use mathlib.Core.Logic.{inl, inr}
use mathlib.Core.Bool.{Bool, true, false, ◌||◌}
use mathlib.Core.List.{List, [], ◌∷◌}
use native.Mathlib.Omega.{arith}
use Prim.Native.Nat.{suc}
use n8n_libpetri.Prelude.Tests.{Eq, ◌==◌, if◌then◌else◌, Bool-cases}
use n8n_libpetri.Prelude.Lists.{length}
use n8n_libpetri.Prelude.Sets.{has, IsNodup}
use n8n_libpetri.Prelude.Maps.{map_keys}
use n8n_libpetri.Prelude.Predicates.{All}

module _ {ℓ} {A : Type ℓ} (le : A → A → Bool) where
  abbrev pub insert : A → List A → List A
  insert x [] = x ∷ []
  insert x (y ∷ ys) = if le x y then x ∷ y ∷ ys else y ∷ insert x ys

  abbrev pub sort : List A → List A
  sort [] = []
  sort (x ∷ xs) = insert x (sort xs)

  -- Each element is at most those behind it.
  abbrev pub IsSorted : List A → Type ℓ
  IsSorted [] = Unit
  IsSorted (x ∷ xs) = All (λ y. le x y ≡ true) xs × IsSorted xs

  All-insert {κ} : (P : A → Type κ) (x : A) (ys : List A) → P x → All P ys → All P (insert x ys)
  All-insert P x [] p h = (p, tt)
  All-insert P x (y ∷ ys) p h = elim (Bool-cases (le x y)) [
    | inl t ↦ rw t (p, h)
    | inr f ↦ rw f (h.0, All-insert P x ys p h.1)
  ]

  pub All-sort {κ} : (P : A → Type κ) (xs : List A) → All P xs → All P (sort xs)
  All-sort P [] h = tt
  All-sort P (x ∷ xs) h = All-insert P x (sort xs) h.0 (All-sort P xs h.1)

  pub length-insert : (x : A) (ys : List A) → length (insert x ys) ≡ suc (length ys)
  length-insert x [] = refl
  length-insert x (y ∷ ys) = ground (arith, length-insert x ys)

  pub length-sort : (xs : List A) → length (sort xs) ≡ length xs
  length-sort [] = refl
  length-sort (x ∷ xs) = omega (arith, length-insert x (sort xs), length-sort xs)

  module _ (total : (x y : A) → le x y ≡ false → le y x ≡ true)
      (trans : (x y z : A) → le x y ≡ true → le y z ≡ true → le x z ≡ true) where
    All-below :
        (x y : A) (ys : List A)
        → le x y ≡ true
        → All (λ z. le y z ≡ true) ys
        → All (λ z. le x z ≡ true) ys
    All-below x y [] h a = tt
    All-below x y (z ∷ zs) h a = (trans x y z h a.0, All-below x y zs h a.1)

    insert-IsSorted : (x : A) (ys : List A) → IsSorted ys → IsSorted (insert x ys)
    insert-IsSorted x [] h = (tt, tt)
    insert-IsSorted x (y ∷ ys) h = elim (Bool-cases (le x y)) [
      | inl t ↦ rw t ((t, All-below x y ys t h.0), h)
      | inr f ↦
          rw f (All-insert (λ z. le y z ≡ true) x ys (total x y f) h.0, insert-IsSorted x ys h.1)
    ]

    pub sort-IsSorted : (xs : List A) → IsSorted (sort xs)
    sort-IsSorted [] = tt
    sort-IsSorted (x ∷ xs) = insert-IsSorted x (sort xs) (sort-IsSorted xs)

module _ {ℓ} {A : Type ℓ} ⦃e : Eq A⦄ (le : A → A → Bool) where
  has-insert : (x : A) (ys : List A) (a : A) → has (insert le x ys) a ≡ (x == a || has ys a)
  has-insert x [] a = refl
  has-insert x (y ∷ ys) a = ground (arith, has-insert x ys a)

  pub has-sort : (xs : List A) (a : A) → has (sort le xs) a ≡ has xs a
  has-sort [] a = refl
  has-sort (x ∷ xs) a = ground (arith, has-insert x (sort le xs) a, has-sort xs a)

module _ {ℓ κ} {A : Type ℓ} {K : Type κ} ⦃e : Eq K⦄ (le : A → A → Bool) (key : A → K) where
  has-keys_insert :
      (x : A) (ys : List A) (k : K)
      → has (map_keys key (insert le x ys)) k ≡ (key x == k || has (map_keys key ys) k)
  has-keys_insert x [] k = refl
  has-keys_insert x (y ∷ ys) k = ground (arith, has-keys_insert x ys k)

  pub has-keys-sort :
      (xs : List A) (k : K) → has (map_keys key (sort le xs)) k ≡ has (map_keys key xs) k
  has-keys-sort [] k = refl
  has-keys-sort (x ∷ xs) k = ground (arith, has-keys_insert x (sort le xs) k, has-keys-sort xs k)

  IsNodup-keys_insert :
      (x : A) (ys : List A)
      → has (map_keys key ys) (key x) ≡ false
      → IsNodup (map_keys key ys)
      → IsNodup (map_keys key (insert le x ys))
  IsNodup-keys_insert x [] h u = (h, tt)
  IsNodup-keys_insert x (y ∷ ys) h u = ground (
    arith,
    has-keys_insert x ys (key y),
    e.beq_iff (key y) (key x),
    e.beq_iff (key x) (key y),
    IsNodup-keys_insert x ys,
  )

  pub IsNodup-keys-sort :
      (xs : List A) → IsNodup (map_keys key xs) → IsNodup (map_keys key (sort le xs))
  IsNodup-keys-sort [] u = tt
  IsNodup-keys-sort (x ∷ xs) u =
      IsNodup-keys_insert x (sort le xs) (has-keys-sort xs (key x) ∙ u.0) (IsNodup-keys-sort xs u.1)
