-- ===== src/Compiler/FailureChain/Steps.antt =====
-- The steps of a chain against what they resolve to, where no problem is recorded.
use n8n_libpetri.Prelude.{
  ℕ, suc, ◌<◌, ◌≡◌, refl, ap, subst, ◌⊎◌, inl, inr, String, string_eq, nat_eq, ◌==◌, true, Option,
  none, some, List, [], ◌∷◌, ◌++◌, leb, arith, Bool-cases,
}
use n8n_libpetri.Prelude.Sets.{has}
use n8n_libpetri.Compiler.Types.{
  Output, named, at, FailureStep, retry, route, stop, continue, ResolvedStep,
}
use n8n_libpetri.Compiler.FailureChain.Targets.{
  ChainFault, RouteTargets, error_target, declared_target, named_target, output_index_of,
  check_target, route_target_of,
}
use n8n_libpetri.Compiler.FailureChain.Resolve.{wait_of, routed, resolve_step, resolve_steps}

-- The index that a target names: an index itself, the error output, or a declared name.
abbrev pub Names : RouteTargets → Output → ℕ → Type 0
Names t (at k) n = n ≡ k
Names t (named name) n =
    (error_target t.error_output_index name ≡ some n)
    ⊎ ((error_target t.error_output_index name ≡ none)
        × (declared_target t.shape.output_names name ≡ some n))

-- A step resolved for an attempt: a retry goes to the next attempt, and a route to an output that
-- it names, that the node has and that is connected.
abbrev pub Resolves : RouteTargets → ℕ → FailureStep → ResolvedStep → Type 0
Resolves t i (retry wait_ms) r = r ≡ retry (suc i) (wait_of wait_ms) (suc (suc i))
Resolves t i (route output) r =
    (n : ℕ) × (r ≡ route (suc i) n)
    × Names t output n
    × (n < t.output_count)
    × (has t.connected_outputs n ≡ true)
Resolves t i stop r = r ≡ stop (suc i)
Resolves t i continue r = r ≡ continue (suc i)

-- The steps of a chain, from index `i`, each resolved in its place.
abbrev pub AllResolve : RouteTargets → ℕ → List FailureStep → List ResolvedStep → Type 0
AllResolve t i [] [] = Unit
AllResolve t i [] (r ∷ rs) = ⊥
AllResolve t i (s ∷ ss) [] = ⊥
AllResolve t i (s ∷ ss) (r ∷ rs) = Resolves t i s r × AllResolve t (suc i) ss rs

pub append-not-nil {ℓ} : {A : Type ℓ} (xs : List A) (x : A) → ¬ ((xs ++ (x ∷ [])) ≡ [])
append-not-nil [] x e = cc
append-not-nil (y ∷ ys) x e = cc

named_target-Names :
    (t : RouteTargets) (name : String) (i : ℕ) (problems : List ChainFault)
    → (named_target
        (error_target t.error_output_index name)
        (declared_target t.shape.output_names name)
        name
        i
        problems).1
      ≡ []
    → (n : ℕ) × (named_target
          (error_target t.error_output_index name)
          (declared_target t.shape.output_names name)
          name
          i
          problems
        ≡ (some n, []))
      × (problems ≡ [])
      × Names t (named name) n
named_target-Names t name i problems =
    named_by (error_target t.error_output_index name) (declared_target t.shape.output_names name)
  where
    named_by :
        (e d : Option ℕ)
        → (named_target e d name i problems).1 ≡ []
        → (n : ℕ) × (named_target e d name i problems ≡ (some n, []))
          × (problems ≡ [])
          × ((e ≡ some n) ⊎ ((e ≡ none) × (d ≡ some n)))
    named_by (some n) d h = (n, ap (λ p. (some n, p)) h, h, inl refl)
    named_by none (some n) h = (n, ap (λ p. (some n, p)) h, h, inr (refl, refl))
    named_by none none h = absurd (append-not-nil problems _ h)

output_index_of-Names :
    (t : RouteTargets) (raw : Output) (i : ℕ) (problems : List ChainFault)
    → (output_index_of t raw i problems).1 ≡ []
    → (n : ℕ) × (output_index_of t raw i problems ≡ (some n, [])) × (problems ≡ []) × Names t raw n
output_index_of-Names t (at n) i problems h = (n, ap (λ p. (some n, p)) h, h, refl)
output_index_of-Names t (named name) i problems h = named_target-Names t name i problems h

check_target-connected :
    (t : RouteTargets) (i k : ℕ) (problems : List ChainFault)
    → (check_target t i (some k, problems)).1 ≡ []
    → (problems ≡ [])
      × (check_target t i (some k, problems) ≡ (some k, []))
      × (k < t.output_count)
      × (has t.connected_outputs k ≡ true)
check_target-connected t i k problems h = elim (Bool-cases (leb t.output_count k)) [
  | inl outside ↦ absurd (append-not-nil problems _ (rw outside at h))
  | inr inside ↦ elim (Bool-cases (has t.connected_outputs k)) [
    | inr loose ↦ absurd (append-not-nil problems _ (rw (inside, loose) at h))
    | inl wired ↦
        let here : problems ≡ [] = rw (inside, wired) at h in
        (here, rw (inside, wired) (ap (λ p. (some k, p)) here), ground arith, wired)
  ]
]

routed-problems : (i : ℕ) (r : Option ℕ × List ChainFault) → (routed i r).1 ≡ [] → r.1 ≡ []
routed-problems i (none, problems) h = h
routed-problems i (some n, problems) h = h

check_target-none :
    (t : RouteTargets) (i : ℕ) (r : Option ℕ × List ChainFault)
    → (check_target t i r).1 ≡ []
    → r.1 ≡ []
check_target-none t i (none, problems) h = h
check_target-none t i (some k, problems) h = (check_target-connected t i k problems h).0

route_target_of-connected :
    (t : RouteTargets) (raw : Output) (i : ℕ) (problems : List ChainFault)
    → (route_target_of t raw i problems).1 ≡ []
    → (n : ℕ) × (route_target_of t raw i problems ≡ (some n, []))
      × (problems ≡ [])
      × Names t raw n
      × (n < t.output_count)
      × (has t.connected_outputs n ≡ true)
unfolding route_target_of
route_target_of-connected t raw i problems h = elim (Bool-cases (t.output_count == 0)) [
  | inl closed ↦ absurd (append-not-nil problems _ (rw closed at h))
  | inr some_output ↦
      let checked : (check_target t i (output_index_of t raw i problems)).1 ≡ [] =
        rw some_output at h in
      let (n, found, here, named_by) =
        output_index_of-Names t raw i problems
          (check_target-none t i (output_index_of t raw i problems) checked) in
      let (empty, same, inside, wired) = check_target-connected t i n [] (rw found at checked) in
      (n, rw (some_output, found) same, here, named_by, inside, wired)
]

resolve_step-Resolves :
    (t : RouteTargets) (s : FailureStep) (i : ℕ) (problems : List ChainFault)
    → (resolve_step t s i problems).1 ≡ []
    → (r : ResolvedStep) × (resolve_step t s i problems ≡ (some r, []))
      × (problems ≡ [])
      × Resolves t i s r
unfolding resolve_step
resolve_step-Resolves t (retry w) i problems h =
    let r : ResolvedStep = retry (suc i) (wait_of w) (suc (suc i)) in
    (r, ap (λ p. (some r, p)) h, h, refl)
resolve_step-Resolves t stop i problems h =
    let r : ResolvedStep = stop (suc i) in (r, ap (λ p. (some r, p)) h, h, refl)
resolve_step-Resolves t continue i problems h =
    let r : ResolvedStep = continue (suc i) in (r, ap (λ p. (some r, p)) h, h, refl)
resolve_step-Resolves t (route output) i problems h =
    let (n, found, here, named_by, inside, wired) =
      route_target_of-connected t output i problems
        (routed-problems i (route_target_of t output i problems) h) in
    (route (suc i) n, ap (routed i) found, here, (n, refl, named_by, inside, wired))

pub resolve_steps-AllResolve :
    (t : RouteTargets) (ss : List FailureStep) (i : ℕ) (problems : List ChainFault)
    → (resolve_steps t ss i problems).1 ≡ []
    → (problems ≡ []) × AllResolve t i ss (resolve_steps t ss i problems).0
unfolding resolve_steps
resolve_steps-AllResolve t [] i problems h = (h, tt)
resolve_steps-AllResolve t (s ∷ ss) i problems h =
    let (mid, rest) = resolve_steps-AllResolve t ss (suc i) (resolve_step t s i problems).1 h in
    let (r, found, here, step) = resolve_step-Resolves t s i problems mid in
    let later = subst (λ p. AllResolve t (suc i) ss (resolve_steps t ss (suc i) p).0) mid rest in
    (here, rw found (step, later))
