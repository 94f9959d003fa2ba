-- ===== src/Prelude/Predicates.antt =====
-- Predicates on lists by recursion, which compute to tuples.
use mathlib.Core.Path.{◌≡◌, refl, sym, ap, ◌∙◌, subst}
use mathlib.Core.Bool.{Bool, true, false}
use mathlib.Core.Option.{Option, none, some}
use n8n_libpetri.Prelude.Tests.{Bool-cases, if◌then◌else◌}
use n8n_libpetri.Prelude.Lists.{keep}
use mathlib.Core.Logic.{inl, inr}
use mathlib.Core.List.{List, [], ◌∷◌, ◌++◌, Memᴰ}
use mathlib.Core.List.Memᴰ

abbrev pub All {ℓ κ} : {A : Type ℓ} → (A → Type κ) → List A → Type κ
All P [] = Unit
All P (x ∷ xs) = P x × All P xs

pub All-append {ℓ κ} :
    {A : Type ℓ} (P : A → Type κ) (xs ys : List A) → All P xs → All P ys → All P (xs ++ ys)
All-append P [] ys hx hy = hy
All-append P (x ∷ xs) ys hx hy = (hx.0, All-append P xs ys hx.1 hy)

module _ {ℓ κ} {A : Type ℓ} (P : A → Type κ) where
  -- From each member to the list, and back.
  pub All-of_mem : (xs : List A) → ((x : A) → Memᴰ x xs → P x) → All P xs
  All-of_mem [] h = tt
  All-of_mem (x ∷ xs) h = (h x (Memᴰ.head refl), All-of_mem xs (λ y m. h y (Memᴰ.tail m)))

  pub All-mem : (xs : List A) {x : A} → All P xs → Memᴰ x xs → P x
  All-mem [] h m = absurd (Memᴰ.not-nil m)
  All-mem (y ∷ xs) h m = elim (Memᴰ.cases_cons m) [
    | inl e ↦ subst P (sym e) h.0
    | inr later ↦ All-mem xs h.1 later
  ]

module _ {ℓ} {A : Type ℓ} (p : A → Bool) where
  pub mem-keep : (xs : List A) {x : A} → Memᴰ x (keep p xs) → (p x ≡ true) × Memᴰ x xs
  mem-keep [] m = absurd (Memᴰ.not-nil m)
  mem-keep (y ∷ ys) {x} m = elim (Bool-cases (p y)) [
    | inl t ↦ elim (Memᴰ.cases_cons (rw (t, keep) at m)) [
      | inl q ↦ (rw q t, Memᴰ.head q)
      | inr later ↦ let (h, n) = mem-keep ys later in (h, Memᴰ.tail n)
    ]
    | inr f ↦ let (h, n) = mem-keep ys (rw (f, keep) at m) in (h, Memᴰ.tail n)
  ]

  pub mem-keep_of_mem : (xs : List A) {x : A} → p x ≡ true → Memᴰ x xs → Memᴰ x (keep p xs)
  mem-keep_of_mem [] h m = absurd (Memᴰ.not-nil m)
  mem-keep_of_mem (y ∷ ys) {x} h m = elim (Memᴰ.cases_cons m) [
    | inl q ↦ rw (ap p (sym q) ∙ h, keep) (Memᴰ.head q)
    | inr later ↦ elim (Bool-cases (p y)) [
      | inl t ↦ rw (t, keep) (Memᴰ.tail (mem-keep_of_mem ys h later))
      | inr f ↦ rw (f, keep) (mem-keep_of_mem ys h later)
    ]
  ]

-- A predicate on the value, where there is one.
abbrev pub OptionAll {ℓ κ} : {A : Type ℓ} → (A → Type κ) → Option A → Type κ
OptionAll P none = Unit
OptionAll P (some a) = P a

pub if-keeps {ℓ κ} :
    {A : Type ℓ} (P : A → Type κ) (b : Bool) (x y : A) → P x → P y → P (if b then x else y)
if-keeps P true x y h k = h
if-keeps P false x y h k = k

pub All-map {ℓ κ μ} :
    {A : Type ℓ} (P : A → Type κ) (Q : A → Type μ)
    → ((x : A) → P x → Q x)
    → (xs : List A) → All P xs
    → All Q xs
All-map P Q f [] h = tt
All-map P Q f (x ∷ xs) h = (f x h.0, All-map P Q f xs h.1)
