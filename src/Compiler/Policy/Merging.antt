-- ===== src/Compiler/Policy/Merging.antt =====
-- The merge of the layers of a policy, key by key.
use n8n_libpetri.Prelude.{
  ◌≡◌, ◌≢◌, refl, sym, ap, subst, ◌⊎◌, inl, inr, ◌++◌, Option, none, some, List, [], ◌∷◌, fold, map,
}
use n8n_libpetri.Prelude.Predicates.{All}
use n8n_libpetri.Compiler.Types.{ExecutionPolicy}
use n8n_libpetri.Compiler.Policy.Parse.{override, override_all, merge_layer, merge_policies}

-- `r` is the last value that the list declares: nothing is declared after it, or at all.
abbrev pub IsLastDeclared {ℓ} : {A : Type ℓ} → List (Option A) → Option A → Type ℓ
IsLastDeclared os none = All (λ o. o ≡ none) os
IsLastDeclared {A = A} os (some v) =
    (before after : List (Option A)) × (os ≡ (before ++ some v ∷ after)) × All (λ o. o ≡ none) after

-- A key of a policy that may be absent.
abbrev pub key_of {ℓ} :
    {A : Type ℓ} → (ExecutionPolicy → Option A) → Option ExecutionPolicy → Option A
key_of key none = none
key_of key (some p) = key p

-- What a list with a value in front of it declares last.
abbrev IsLastFrom {ℓ} : {A : Type ℓ} → Option A → List (Option A) → Option A → Type ℓ
IsLastFrom v os r = All (λ o. o ≡ none) os × (r ≡ v) ⊎ (IsLastDeclared os r × (r ≢ none))

module _ {ℓ} {A : Type ℓ} where
  Last-cons :
      (o : Option A) (os : List (Option A)) (r : Option A)
      → IsLastDeclared os r
      → r ≢ none
      → IsLastDeclared (o ∷ os) r
  Last-cons o os none h n = absurd (n refl)
  Last-cons o os (some v) (before, after, e, h) n = (o ∷ before, after, ap (λ l. o ∷ l) e, h)

  Last-of :
      (v : Option A) (os : List (Option A)) → All (λ o. o ≡ none) os → IsLastDeclared (v ∷ os) v
  Last-of none os h = (refl, h)
  Last-of (some v) os h = ([], os, refl, h)

  -- The next value of the list overrides the one in front.
  Last-step :
      (v o : Option A) (os : List (Option A)) (r : Option A)
      → IsLastFrom (override v o) os r
      → IsLastFrom v (o ∷ os) r
  Last-step v none os r (inl (h, e)) = inl ((refl, h), e)
  Last-step v (some x) os r (inl (h, e)) =
      inr (subst (IsLastDeclared (some x ∷ os)) (sym e) (Last-of (some x) os h), λ q. cc (e, q))
  Last-step v o os r (inr (h, n)) = inr (Last-cons o os r h n, n)

  Last-declared : (os : List (Option A)) (r : Option A) → IsLastFrom none os r → IsLastDeclared os r
  Last-declared os r (inl (h, e)) = subst (IsLastDeclared os) (sym e) h
  Last-declared os r (inr (h, n)) = h

module _ {ℓ} {A : Type ℓ} (key : ExecutionPolicy → Option A)
    (agrees : (merged layer : ExecutionPolicy)
      → key (override_all merged layer) ≡ override (key merged) (key layer)) where
  override-none : (v : Option A) → v ≡ override none v
  override-none none = refl
  override-none (some v) = refl

  key_of-merge_layer :
      (merged layer : Option ExecutionPolicy)
      → key_of key (merge_layer merged layer) ≡ override (key_of key merged) (key_of key layer)
  unfolding merge_layer
  key_of-merge_layer merged none = refl
  key_of-merge_layer none (some layer) = override-none (key layer)
  key_of-merge_layer (some merged) (some layer) = agrees merged layer

  key_of-fold :
      (layers : List (Option ExecutionPolicy)) (merged : Option ExecutionPolicy)
      → IsLastFrom
          (key_of key merged)
          (map (key_of key) layers)
          (key_of key (fold merge_layer merged layers))
  key_of-fold [] merged = inl (tt, refl)
  key_of-fold (layer ∷ layers) merged =
      Last-step (key_of key merged) (key_of key layer) (map (key_of key) layers)
        (key_of key (fold merge_layer (merge_layer merged layer) layers))
        (subst
          (λ v.
            IsLastFrom v (map (key_of key) layers)
              (key_of key (fold merge_layer (merge_layer merged layer) layers)))
          (key_of-merge_layer merged layer) (key_of-fold layers (merge_layer merged layer)))

  key_of-merge_policies :
      (layers : List (Option ExecutionPolicy))
      → IsLastDeclared (map (key_of key) layers) (key_of key (merge_policies layers))
  unfolding merge_policies
  key_of-merge_policies layers =
      Last-declared (map (key_of key) layers) (key_of key (fold merge_layer none layers))
        (key_of-fold layers none)

-- In the merge, each of the seven keys has the value of the last layer that declares it, and is
-- absent where no layer does.
pub merge_policies-IsLastDeclared :
    (layers : List (Option ExecutionPolicy))
    → IsLastDeclared
        (map (key_of (λ p. p.timeout_ms)) layers)
        (key_of (λ p. p.timeout_ms) (merge_policies layers))
      × IsLastDeclared
          (map (key_of (λ p. p.on_failure)) layers)
          (key_of (λ p. p.on_failure) (merge_policies layers))
      × IsLastDeclared
          (map (key_of (λ p. p.concurrency)) layers)
          (key_of (λ p. p.concurrency) (merge_policies layers))
      × IsLastDeclared
          (map (key_of (λ p. p.rate)) layers)
          (key_of (λ p. p.rate) (merge_policies layers))
      × IsLastDeclared
          (map (key_of (λ p. p.max_runs)) layers)
          (key_of (λ p. p.max_runs) (merge_policies layers))
      × IsLastDeclared
          (map (key_of (λ p. p.max_tool_calls)) layers)
          (key_of (λ p. p.max_tool_calls) (merge_policies layers))
      × IsLastDeclared
          (map (key_of (λ p. p.max_rounds)) layers)
          (key_of (λ p. p.max_rounds) (merge_policies layers))
merge_policies-IsLastDeclared layers = (
  key_of-merge_policies (λ p. p.timeout_ms) (λ m l. refl) layers,
  key_of-merge_policies (λ p. p.on_failure) (λ m l. refl) layers,
  key_of-merge_policies (λ p. p.concurrency) (λ m l. refl) layers,
  key_of-merge_policies (λ p. p.rate) (λ m l. refl) layers,
  key_of-merge_policies (λ p. p.max_runs) (λ m l. refl) layers,
  key_of-merge_policies (λ p. p.max_tool_calls) (λ m l. refl) layers,
  key_of-merge_policies (λ p. p.max_rounds) (λ m l. refl) layers,
)
