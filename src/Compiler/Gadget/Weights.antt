-- ===== src/Compiler/Gadget/Weights.antt =====
-- Weights on the places of a gadget (gadget/run.ts, agent-round.ts), and what an output
-- specification weighs on each of its branches.

use n8n_libpetri.Prelude.{ℕ, ◌+◌, ◌*◌, ◌≡◌, refl, sym, subst, List, [], ◌∷◌, ◌++◌, map, arith}
use n8n_libpetri.Prelude.Predicates.{All, All-append}
use n8n_libpetri.Prelude.Results.{ok}
use n8n_libpetri.Compiler.Gadget.Net.{
  Place, budget, idle, running, routed, retry, routed_request, running_failed, free, ready,
  ready_data, ready_empty, ok_at, routed_at, running_at, failed, timed_out, In, one, all_of,
  exactly, Out, place, forward, and, xor, Transition, outs, combine, branches, every_branch,
  some_branch, writes,
}
use n8n_libpetri.Compiler.Gadget.Outputs.{and_of, xor_of}

-- `unit` is the weight of a budget token, `turn` that of `X/idle`, `part` that of the marker of
-- one output under the split routing, and `slot i` that of the join slot of input `i`.
pub record Coefficients : Type 0 where
  pub unit : ℕ
  pub turn : ℕ
  pub part : ℕ
  pub slot : ℕ → ℕ

unfoldable pub weight : Coefficients → Place → ℕ
weight c budget = c.unit
weight c idle = c.turn
weight c running = c.unit + c.turn
weight c (running_at k) = c.unit + c.turn
weight c running_failed = c.unit + c.turn
weight c retry = c.unit
weight c routed = c.unit
weight c routed_request = c.unit
weight c (failed k) = c.unit
weight c (timed_out k) = c.unit
weight c (ok_at o) = c.part
weight c (routed_at o) = c.part
weight c (free i) = c.slot i
weight c (ready i) = c.slot i
weight c (ready_data i) = c.slot i
weight c (ready_empty i) = c.slot i
weight c _ = 0

abbrev pub total : Coefficients → List Place → ℕ
total c [] = 0
total c (p ∷ ps) = weight c p + total c ps

pub total-append :
    (c : Coefficients) (ps qs : List Place) → total c (ps ++ qs) ≡ total c ps + total c qs
total-append c [] qs = omega arith
total-append c (p ∷ ps) qs = omega (arith, total-append c ps qs)

abbrev pub cost : Coefficients → In → ℕ
cost c (one p) = weight c p
cost c (exactly n p) = n * weight c p
cost c (all_of p) = weight c p

abbrev pub total_cost : Coefficients → List In → ℕ
total_cost c [] = 0
total_cost c (i ∷ is) = cost c i + total_cost c is

pub total_cost-append :
    (c : Coefficients) (is js : List In)
    → total_cost c (is ++ js) ≡ total_cost c is + total_cost c js
total_cost-append c [] js = omega arith
total_cost-append c (i ∷ is) js = omega (arith, total_cost-append c is js)

pub total_cost-one : (c : Coefficients) (ps : List Place) → total_cost c (map one ps) ≡ total c ps
total_cost-one c [] = refl
total_cost-one c (p ∷ ps) = omega (arith, total_cost-one c ps)

-- An arc that takes all tokens takes them from a place without weight.
abbrev pub IsDrained : Coefficients → In → Type 0
IsDrained c (all_of p) = weight c p ≡ 0
IsDrained c _ = Unit

pub IsDrained-one : (c : Coefficients) (ps : List Place) → All (IsDrained c) (map one ps)
IsDrained-one c [] = tt
IsDrained-one c (p ∷ ps) = (tt, IsDrained-one c ps)

-- Every branch weighs `n`.
pub record AllWeigh (c : Coefficients) (n : ℕ) (bs : List (List Place)) : Type 0 where
  pub each : All (λ b. total c b ≡ n) bs

abbrev pub Weighs : Coefficients → ℕ → Out → Type 0
Weighs c n o = AllWeigh c n (branches o)

-- Taking the inputs and writing any branch leaves the total weight as it is.
abbrev pub IsBalanced : Coefficients → Transition → Type 0
IsBalanced c t = All (IsDrained c) t.inputs × AllWeigh c (total_cost c t.inputs) (writes t.outputs)

module _ (c : Coefficients) where
  pub AllWeigh-eq : {m n : ℕ} (bs : List (List Place)) → AllWeigh c m bs → m ≡ n → AllWeigh c n bs
  AllWeigh-eq bs h e = subst (λ k. AllWeigh c k bs) e h

  AllWeigh-prefix :
      (b : List Place) (bs : List (List Place)) {m n : ℕ}
      → total c b ≡ m
      → AllWeigh c n bs
      → AllWeigh c (m + n) (map (λ x. b ++ x) bs)
  AllWeigh-prefix b [] e h = record { each = tt }
  AllWeigh-prefix b (x ∷ bs) e h =
      let later = AllWeigh-prefix b bs e (record { each = h.each.1 }) in
      record { each = (omega (arith, total-append c b x, h.each.0), later.each) }

  pub AllWeigh-append :
      (bs ds : List (List Place)) {n : ℕ}
      → AllWeigh c n bs
      → AllWeigh c n ds
      → AllWeigh c n (bs ++ ds)
  AllWeigh-append bs ds h k = record { each = All-append _ bs ds h.each k.each }

  AllWeigh-cons :
      (b : List Place) (bs : List (List Place)) {n : ℕ}
      → total c b ≡ n
      → AllWeigh c n bs
      → AllWeigh c n (b ∷ bs)
  AllWeigh-cons b bs e h = record { each = (e, h.each) }

  AllWeigh-uncons :
      (b : List Place) (bs : List (List Place)) {n : ℕ}
      → AllWeigh c n (b ∷ bs)
      → (total c b ≡ n) × AllWeigh c n bs
  AllWeigh-uncons b bs h = (h.each.0, record { each = h.each.1 })

  pub AllWeigh-nil : (n : ℕ) → AllWeigh c n []
  AllWeigh-nil n = record { each = tt }

  AllWeigh-combine :
      (bs ds : List (List Place)) {m n : ℕ}
      → AllWeigh c m bs
      → AllWeigh c n ds
      → AllWeigh c (m + n) (combine bs ds)
  AllWeigh-combine [] ds h k = AllWeigh-nil _
  AllWeigh-combine (b ∷ bs) ds h k =
      let (e, later) = AllWeigh-uncons b bs h in
      AllWeigh-append _ _ (AllWeigh-prefix b ds e k) (AllWeigh-combine bs ds later k)

  pub place-Weighs : (p : Place) → Weighs c (weight c p) (place p)
  place-Weighs p = AllWeigh-cons (p ∷ []) [] (omega arith) (AllWeigh-nil _)

  pub forward-Weighs : (p q : Place) → Weighs c (weight c q) (forward p q)
  forward-Weighs p q = AllWeigh-cons (q ∷ []) [] (omega arith) (AllWeigh-nil _)

  -- The parts of an `and` add up, those of an `xor` agree.
  abbrev SumParts : List Out → ℕ → Type 0
  SumParts [] n = n ≡ 0
  SumParts (o ∷ os) n = (m : ℕ) × (r : ℕ) × Weighs c m o × SumParts os r × (n ≡ m + r)

  pub record Sums (os : List Out) (n : ℕ) : Type 0 where
    pub parts : SumParts os n

  pub record Agree (os : List Out) (n : ℕ) : Type 0 where
    pub each : All (λ o. Weighs c n o) os

  every_branch-AllWeigh :
      (os : List Out) {n : ℕ} → Sums os n → AllWeigh c n (every_branch (outs os))
  every_branch-AllWeigh [] h = AllWeigh-cons [] [] (sym h.parts) (AllWeigh-nil _)
  every_branch-AllWeigh (o ∷ os) s =
      let (m, r, h, k, e) = s.parts in
      AllWeigh-eq _
        (AllWeigh-combine (branches o) _ h (every_branch-AllWeigh os (record { parts = k })))
        (sym e)

  some_branch-AllWeigh : (os : List Out) {n : ℕ} → Agree os n → AllWeigh c n (some_branch (outs os))
  some_branch-AllWeigh [] h = AllWeigh-nil _
  some_branch-AllWeigh (o ∷ os) h =
      AllWeigh-append _ _ h.each.0 (some_branch-AllWeigh os (record { each = h.each.1 }))

  pub and-Weighs : (os : List Out) {n : ℕ} → Sums os n → Weighs c n (and (outs os))
  and-Weighs os h = every_branch-AllWeigh os h

  pub xor-Weighs : (os : List Out) {n : ℕ} → Agree os n → Weighs c n (xor (outs os))
  xor-Weighs os h = some_branch-AllWeigh os h

  pub Sums-nil : Sums [] 0
  Sums-nil = record { parts = refl }

  pub Sums-cons :
      (o : Out) (os : List Out) {m r : ℕ} → Weighs c m o → Sums os r → Sums (o ∷ os) (m + r)
  Sums-cons o os h k = record { parts = (_, _, h, k.parts, refl) }

  pub Sums-place :
      (p : Place) (os : List Out) {r : ℕ} → Sums os r → Sums (place p ∷ os) (weight c p + r)
  Sums-place p os k = Sums-cons (place p) os (place-Weighs p) k

  pub Sums-eq : (os : List Out) {m n : ℕ} → Sums os m → m ≡ n → Sums os n
  Sums-eq os h e = subst (λ k. Sums os k) e h

  pub Sums-append : (os ps : List Out) {m n : ℕ} → Sums os m → Sums ps n → Sums (os ++ ps) (m + n)
  Sums-append [] ps s k = Sums-eq ps k (omega (arith, s.parts))
  Sums-append (o ∷ os) ps s k =
      let (m, r, h, later, e) = s.parts in
      let both = Sums-append os ps (record { parts = later }) k in
      record { parts = (m, _, h, both.parts, omega (arith, e)) }

  pub Agree-nil : (n : ℕ) → Agree [] n
  Agree-nil n = record { each = tt }

  pub Agree-cons : (o : Out) (os : List Out) {n : ℕ} → Weighs c n o → Agree os n → Agree (o ∷ os) n
  Agree-cons o os h k = record { each = (h, k.each) }

  pub Agree-append : (os ps : List Out) {n : ℕ} → Agree os n → Agree ps n → Agree (os ++ ps) n
  Agree-append [] ps h k = k
  Agree-append (o ∷ os) ps h k =
      let later = Agree-append os ps (record { each = h.each.1 }) k in
      record { each = (h.each.0, later.each) }

  pub and_of-Weighs :
      (os : List Out) {n : ℕ}
      → Sums os n
      → {written : Out} → and_of os ≡ ok written
      → Weighs c n written
  and_of-Weighs [] h e = cc e
  and_of-Weighs (o ∷ []) {n} s {written} built =
      let (m, r, h, k, e) = s.parts in
      let same : o ≡ written = cc built in
      subst (λ x. Weighs c n x) same (AllWeigh-eq _ h (omega (arith, e, k)))
  and_of-Weighs (o ∷ p ∷ os) {n} h {written} built =
      let same : and (outs (o ∷ p ∷ os)) ≡ written = cc built in
      subst (λ x. Weighs c n x) same (and-Weighs (o ∷ p ∷ os) h)

  pub xor_of-Weighs :
      (os : List Out) {n : ℕ}
      → Agree os n
      → {written : Out} → xor_of os ≡ ok written
      → Weighs c n written
  xor_of-Weighs [] h e = cc e
  xor_of-Weighs (o ∷ []) {n} h {written} built =
      let same : o ≡ written = cc built in subst (λ x. Weighs c n x) same h.each.0
  xor_of-Weighs (o ∷ p ∷ os) {n} h {written} built =
      let same : xor (outs (o ∷ p ∷ os)) ≡ written = cc built in
      subst (λ x. Weighs c n x) same (xor-Weighs (o ∷ p ∷ os) h)
