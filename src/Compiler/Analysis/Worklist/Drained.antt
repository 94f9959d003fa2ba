-- ===== src/Compiler/Analysis/Worklist/Drained.antt =====
-- What the loop has seen when its stack is empty: the nodes reachable from those it began with.
use n8n_libpetri.Prelude.{
  ℕ, zero, suc, ◌+◌, ◌≤◌, ◌≡◌, ap, ◌⊎◌, inl, inr, ◌↔◌, true, false, not, ◌&&◌, ◌||◌, Option, List,
  [], ◌∷◌, arith, Eq, ◌==◌, length, List-cases, Bool-cases,
}
use n8n_libpetri.Prelude.Sets.{has, missing}
use n8n_libpetri.Compiler.Analysis.Worklist.{
  Search, is_avoided, offer_all, drain, seen-offer_all, stack-offer_all, work-offer_all,
}

-- A walk over `next` that never enters `avoid`.
pub data Reach {ℓ} {K : Type ℓ} ⦃e : Eq K⦄ (starts : List K) (next : K → List K) (avoid : Option K)
    : K → Type ℓ where
  start : {v : K} → has starts v ≡ true → is_avoided avoid v ≡ false → Reach starts next avoid v
  step :
      {u v : K}
      → Reach starts next avoid u
      → has (next u) v ≡ true
      → is_avoided avoid v ≡ false
      → Reach starts next avoid v

module _ {ℓ} {K : Type ℓ} ⦃e : Eq K⦄ (starts : List K) (next : K → List K) (avoid : Option K) where
  pub record Inv (s : Search K) : Type ℓ where
    pub stacked : (v : K) → has s.stack v ≡ true → has s.seen v ≡ true
    pub sound : (v : K) → has s.seen v ≡ true → Reach starts next avoid v
    pub started : (v : K) → has starts v ≡ true → is_avoided avoid v ≡ false → has s.seen v ≡ true
    pub closed :
        (u v : K)
        → has s.seen u ≡ true
        → has (next u) v ≡ true
        → is_avoided avoid v ≡ false
        → (has s.stack u ≡ true) ⊎ (has s.seen v ≡ true)

  pub Inv-start : Inv (offer_all avoid (record { seen = []; stack = [] }) starts)
  Inv-start = record {
    stacked = λ v h. ground (arith, seen v, stack v);
    sound = λ v h. start (ground (arith, seen v)) (ground (arith, seen v));
    started = λ v h a. ground (arith, seen v);
    closed = λ u v m n a. inl (ground (arith, seen u, stack u));
  }
    where
      empty : Search K
      empty = record { seen = []; stack = [] }

      seen :
          (v : K)
          → has (offer_all avoid empty starts).seen v
            ≡ (has {A = K} [] v || (has starts v && not (is_avoided avoid v)))
      seen v = seen-offer_all avoid empty starts v

      stack :
          (v : K)
          → has (offer_all avoid empty starts).stack v ≡ (
              has {A = K} [] v
              || (has starts v && (not (is_avoided avoid v) && not (has {A = K} [] v))))
      stack v = stack-offer_all avoid empty starts v

  pub Inv-step :
      (s : Search K) (n : K) (rest : List K)
      → s.stack ≡ n ∷ rest
      → Inv s
      → Inv (offer_all avoid (record s { stack = rest }) (next n))
  Inv-step s n rest q h = record {
    stacked = λ v m. ground (arith, seen v, stack v, top v, h.stacked v);
    sound = λ v m. elim (Bool-cases (has s.seen v)) [
      | inl old ↦ h.sound v old
      | inr fresh ↦ step (h.sound n popped) (ground (arith, seen v)) (ground (arith, seen v))
    ];
    started = λ v m a. ground (arith, seen v, h.started v);
    closed =
        λ u v m nx a. ground (arith, seen u, seen v, stack u, top u, e.beq_iff n u, h.closed u v);
  }
    where
      s' : Search K
      s' = record s { stack = rest }

      seen :
          (v : K)
          → has (offer_all avoid s' (next n)).seen v
            ≡ (has s.seen v || (has (next n) v && not (is_avoided avoid v)))
      seen v = seen-offer_all avoid s' (next n) v

      stack :
          (v : K)
          → has (offer_all avoid s' (next n)).stack v
            ≡ (has rest v || (has (next n) v && (not (is_avoided avoid v) && not (has s.seen v))))
      stack v = stack-offer_all avoid s' (next n) v

      top : (v : K) → has s.stack v ≡ (n == v || has rest v)
      top v = ap (λ l. has l v) q

      popped : has s.seen n ≡ true
      popped = h.stacked n (ground (arith, top n, e.beq_iff n n))

  module _ (us : List K) (sub : (u v : K) → has (next u) v ≡ true → has us v ≡ true) where
    -- Enough fuel empties the stack, and the invariant holds.
    pub drain-Inv :
        (fuel : ℕ) (s : Search K)
        → Inv s
        → missing s.seen us + length s.stack ≤ fuel
        → Inv (drain avoid next fuel s) × ((drain avoid next fuel s).stack ≡ [])
    unfolding drain
    drain-Inv zero s h f = (h, ground arith)
    drain-Inv (suc fuel) s h f = elim (List-cases s.stack) [
      | inl empty ↦ rw (empty, drain) (h, empty)
      | inr (n, rest, q) ↦
          rw (q, drain)
            (drain-Inv fuel (offer_all avoid (record s { stack = rest }) (next n))
              (Inv-step s n rest q h)
              (omega (
                arith,
                ap length q,
                work-offer_all avoid us (record s { stack = rest }) (next n) (sub n),
              )))
    ]

  -- With an empty stack the set is closed, so it holds whatever can be reached.
  complete :
      (s : Search K)
      → Inv s
      → s.stack ≡ []
      → {v : K} → Reach starts next avoid v
      → has s.seen v ≡ true
  complete s h q (start m a) = h.started _ m a
  complete s h q (step {u} {v} r m a) = elim (h.closed u v (complete s h q r) m a) [
    | inl waiting ↦ cc (ap (λ l. has l u) q)
    | inr seen ↦ seen
  ]

  pub seen_iff :
      (s : Search K)
      → Inv s
      → s.stack ≡ []
      → (v : K) → (has s.seen v ≡ true) ↔ Reach starts next avoid v
  seen_iff s h q v = (h.sound v, complete s h q)
