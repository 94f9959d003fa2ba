-- ===== src/Scheduler/Cache/Recency.antt =====
-- The order of the entries, and which one is evicted.
use n8n_libpetri.Prelude.{
  ℕ, zero, suc, ◌≤◌, ◌<◌, ◌≡◌, refl, ◌∙◌, ap, subst, inl, inr, true, false, String, string_eq, ◌==◌,
  some, List, [], ◌∷◌, ◌++◌, if◌then◌else◌, ltb, length, length-append, arith, Bool-cases,
}
use n8n_libpetri.Prelude.Sets.{has, IsNodup}
use n8n_libpetri.Prelude.Maps
use n8n_libpetri.Prelude.Maps.{IsNodup-keys-set, get-set}
use n8n_libpetri.Scheduler.Cache.{Cache, evict, set}

module _ {ℓ} {V : Type ℓ} where
  -- What a cache keeps: one entry for a key, at most `capacity` of them, and room for one.
  pub record IsCache (c : Cache V) : Type 0 where
    pub distinct : IsNodup (Maps.keys c.entries)
    pub bounded : length c.entries ≤ c.capacity
    pub roomy : 1 ≤ c.capacity

  has-delete :
      (es : List (String × V)) (k j : String)
      → has (Maps.keys es) j ≡ false
      → has (Maps.keys (Maps.delete es k)) j ≡ false
  has-delete [] k j h = refl
  has-delete ((i, v) ∷ es) k j h = ground (arith, has-delete es k j)

  pub missing-delete :
      (es : List (String × V)) (k : String)
      → IsNodup (Maps.keys es)
      → has (Maps.keys (Maps.delete es k)) k ≡ false
  missing-delete [] k u = refl
  missing-delete ((i, v) ∷ es) k u = elim (Bool-cases (i == k)) [
    | inl same ↦
        let here : i ≡ k = (string_eq.beq_iff i k).0 same in
        rw (same, Maps.delete) (subst (λ x. has (Maps.keys es) x ≡ false) here u.0)
    | inr other ↦ ground (arith, missing-delete es k u.1)
  ]

  pub IsNodup-delete :
      (es : List (String × V)) (k : String)
      → IsNodup (Maps.keys es)
      → IsNodup (Maps.keys (Maps.delete es k))
  IsNodup-delete [] k u = tt
  IsNodup-delete ((i, v) ∷ es) k u = elim (Bool-cases (i == k)) [
    | inl same ↦ rw (same, Maps.delete) u.1
    | inr other ↦ rw (other, Maps.delete) (has-delete es k i u.0, IsNodup-delete es k u.1)
  ]

  pub length-delete-le :
      (es : List (String × V)) (k : String) → length (Maps.delete es k) ≤ length es
  length-delete-le [] k = omega arith
  length-delete-le ((i, v) ∷ es) k = ground (arith, length-delete-le es k)

  pub length-delete-lt :
      (es : List (String × V)) (k : String) (v : V)
      → Maps.get es k ≡ some v
      → length (Maps.delete es k) < length es
  length-delete-lt [] k v h = cc
  length-delete-lt ((i, w) ∷ es) k v h = ground (arith, length-delete-lt es k v)

  -- `set` on a key that is not there appends it.
  pub set-missing :
      (es : List (String × V)) (k : String) (v : V)
      → has (Maps.keys es) k ≡ false
      → Maps.set es k v ≡ es ++ ((k, v) ∷ [])
  set-missing [] k v h = refl
  set-missing ((i, w) ∷ es) k v h = ground (arith, set-missing es k v)

  -- Without its oldest entry, when the cache is full.
  abbrev pub make_room : ℕ → List (String × V) → List (String × V)
  make_room capacity [] = []
  make_room capacity ((k, v) ∷ es) = if ltb (suc (length es)) capacity then (k, v) ∷ es else es

  delete-head : (k : String) (v : V) (es : List (String × V)) → Maps.delete ((k, v) ∷ es) k ≡ es
  delete-head k v es = ground (arith, string_eq.beq_iff k k)

  evict-fits :
      (fuel capacity : ℕ) (es : List (String × V))
      → length es ≤ capacity
      → evict fuel capacity es ≡ es
  unfolding evict
  evict-fits zero capacity es h = refl
  evict-fits (suc fuel) capacity [] h = refl
  evict-fits (suc fuel) capacity ((k, v) ∷ es) h = ground (arith, h)

  -- One entry too many: the oldest goes.
  evict-one :
      (fuel capacity : ℕ) (k : String) (v : V) (es : List (String × V))
      → length es ≡ capacity
      → evict (suc fuel) capacity ((k, v) ∷ es) ≡ es
  unfolding evict
  evict-one fuel capacity k v es h =
      let over : ltb capacity (suc (length es)) ≡ true = ground arith in
      rw over (
        ap (evict fuel capacity) (delete-head k v es)
        ∙ evict-fits fuel capacity es (omega (arith, h)))

  -- The eviction after an append.
  evict-append :
      (capacity : ℕ) (es : List (String × V)) (x : String × V)
      → length es ≤ capacity
      → 1 ≤ capacity
      → evict (length (es ++ (x ∷ []))) capacity (es ++ (x ∷ []))
        ≡ make_room capacity es ++ (x ∷ [])
  evict-append capacity [] x h k = evict-fits 1 capacity (x ∷ []) k
  evict-append capacity ((i, v) ∷ es) x h k = elim (Bool-cases (ltb (suc (length es)) capacity)) [
    | inl room ↦ rw room (
        evict-fits _ capacity ((i, v) ∷ (es ++ (x ∷ [])))
          (ground (arith, length-append es (x ∷ []))))
    | inr full ↦ rw full (
        evict-one (length (es ++ (x ∷ []))) capacity i v (es ++ (x ∷ []))
          (ground (arith, length-append es (x ∷ []))))
  ]

  -- In a cache within its bounds, `set` leaves the other entries in their order, without the oldest when there is no room, and
  -- puts its own entry last, as the most recent one.
  pub entries-set :
      (c : Cache V) (key : String) (value : V)
      → IsCache c
      → (set key value c).entries
        ≡ make_room c.capacity (Maps.delete c.entries key) ++ ((key, value) ∷ [])
  unfolding set
  entries-set c key value h =
      let rest = Maps.delete c.entries key in
      let appended = set-missing rest key value (missing-delete c.entries key h.distinct) in
      ap (λ es. evict (length es) c.capacity es) appended
      ∙ evict-append c.capacity rest (key, value)
          (omega (arith, length-delete-le c.entries key, h.bounded)) h.roomy
