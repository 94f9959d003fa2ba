-- ===== src/Prelude/Maps.antt =====
-- A JavaScript `Map` as an association list in insertion order: `set` on a key that is there keeps
-- its place, `delete` and `set` move it to the end.
use mathlib.Core.Path.{◌≡◌, refl}
use mathlib.Core.Logic.{inl, inr}
use mathlib.Core.Bool.{true, false, ◌||◌}
use mathlib.Core.List.{List, [], ◌∷◌, Memᴰ}
use mathlib.Core.List.Memᴰ
use mathlib.Core.Option.{Option, none, some}
use native.Mathlib.Omega.{arith}
use n8n_libpetri.Prelude.Tests.{Eq, ◌==◌, if◌then◌else◌, Bool-cases}
use n8n_libpetri.Prelude.Lists.{fold}
use n8n_libpetri.Prelude.Sets.{has, IsNodup}

module _ {ℓ κ} {K : Type ℓ} {V : Type κ} ⦃e : Eq K⦄ where
  abbrev pub get : List (K × V) → K → Option V
  get [] k = none
  get ((j, v) ∷ m) k = if j == k then some v else get m k

  abbrev pub get_or : List (K × V) → K → V → V
  get_or [] k d = d
  get_or ((j, v) ∷ m) k d = if j == k then v else get_or m k d

  abbrev pub set : List (K × V) → K → V → List (K × V)
  set [] k v = (k, v) ∷ []
  set ((j, w) ∷ m) k v = if j == k then (j, v) ∷ m else (j, w) ∷ set m k v

  abbrev pub delete : List (K × V) → K → List (K × V)
  delete [] k = []
  delete ((j, w) ∷ m) k = if j == k then m else (j, w) ∷ delete m k

  abbrev pub keys : List (K × V) → List K
  keys [] = []
  keys ((j, w) ∷ m) = j ∷ keys m

  pub get-set :
      (m : List (K × V)) (k j : K) (v : V)
      → get (set m k v) j ≡ (if k == j then some v else get m j)
  get-set [] k j v = refl
  get-set ((i, w) ∷ m) k j v =
      ground (arith, e.beq_iff i k, e.beq_iff i j, e.beq_iff k j, get-set m k j v)

  pub get_or-set :
      (m : List (K × V)) (k j : K) (v d : V)
      → get_or (set m k v) j d ≡ (if k == j then v else get_or m j d)
  get_or-set [] k j v d = refl
  get_or-set ((i, w) ∷ m) k j v d =
      ground (arith, e.beq_iff i k, e.beq_iff i j, e.beq_iff k j, get_or-set m k j v d)

abbrev pub map_keys {ℓ κ} : {A : Type ℓ} {K : Type κ} → (A → K) → List A → List K
map_keys key [] = []
map_keys key (x ∷ xs) = key x ∷ map_keys key xs

module _ {ℓ κ μ} {K : Type ℓ} {V : Type κ} {A : Type μ} ⦃e : Eq K⦄ (key : A → K) (val : A → V) where
  -- The loop `for (const x of xs) m.set(key(x), val(x))`.
  get-fold-set_other :
      (xs : List A) (m : List (K × V)) (k : K)
      → has (map_keys key xs) k ≡ false
      → get (fold (λ n x. set n (key x) (val x)) m xs) k ≡ get m k
  get-fold-set_other [] m k h = refl
  get-fold-set_other (x ∷ xs) m k h =
      ground (arith, get-set m (key x) k (val x), get-fold-set_other xs (set m (key x) (val x)) k)

  pub get-fold-set :
      (xs : List A) (m : List (K × V)) {x : A}
      → IsNodup (map_keys key xs)
      → Memᴰ x xs
      → get (fold (λ n y. set n (key y) (val y)) m xs) (key x) ≡ some (val x)
  get-fold-set [] m u h = absurd (Memᴰ.not-nil h)
  get-fold-set (y ∷ xs) m {x} u h = elim (Memᴰ.cases_cons h) [
    | inl q ↦ rw q (
        ground (
          arith,
          get-set m (key y) (key y) (val y),
          e.beq_iff (key y) (key y),
          get-fold-set_other xs (set m (key y) (val y)) (key y),
        ))
    | inr later ↦ get-fold-set xs (set m (key y) (val y)) u.1 later
  ]

-- `[...m.values()]`.
abbrev pub values {ℓ κ} : {K : Type ℓ} {V : Type κ} → List (K × V) → List V
values [] = []
values ((k, v) ∷ m) = v ∷ values m

module _ {ℓ κ} {K : Type ℓ} {V : Type κ} ⦃e : Eq K⦄ where
  pub keys-set :
      (m : List (K × V)) (k j : K) (v : V) → has (keys (set m k v)) j ≡ (has (keys m) j || k == j)
  keys-set [] k j v = ground arith
  keys-set ((i, w) ∷ m) k j v =
      ground (arith, e.beq_iff i k, e.beq_iff i j, e.beq_iff k j, keys-set m k j v)

  pub IsNodup-keys-set :
      (m : List (K × V)) (k : K) (v : V) → IsNodup (keys m) → IsNodup (keys (set m k v))
  IsNodup-keys-set [] k v u = (refl, tt)
  IsNodup-keys-set ((i, w) ∷ m) k v u =
      ground (arith, e.beq_iff i k, e.beq_iff k i, keys-set m k i v, IsNodup-keys-set m k v)

  pub mem_of_get : (m : List (K × V)) (k : K) {v : V} → get m k ≡ some v → Memᴰ v (values m)
  mem_of_get [] k h = cc
  mem_of_get ((i, w) ∷ m) k h = elim (Bool-cases (i == k)) [
    | inl hit ↦ Memᴰ.head (ground arith)
    | inr miss ↦ Memᴰ.tail (mem_of_get m k (ground arith))
  ]

  has-keys_of_get : (m : List (K × V)) (k : K) (v : V) → get m k ≡ some v → has (keys m) k ≡ true
  has-keys_of_get [] k v h = cc
  has-keys_of_get ((i, w) ∷ m) k v h = ground (arith, has-keys_of_get m k v)

  pub get_of_mem :
      (m : List (K × V)) {v : V}
      → IsNodup (keys m)
      → Memᴰ v (values m)
      → (k : K) × (get m k ≡ some v)
  get_of_mem [] u h = absurd (Memᴰ.not-nil h)
  get_of_mem ((i, w) ∷ m) {v} u h = elim (Memᴰ.cases_cons h) [
    | inl q ↦ (i, ground (arith, e.beq_iff i i, q))
    | inr later ↦
        let (k, found) = get_of_mem m u.1 later in
        (k, ground (arith, e.beq_iff i k, has-keys_of_get m k v, found, u.0))
  ]
