-- ===== src/Scheduler/Cache/Bounds.antt =====
-- The bounds of the cache under its calls, and what it gives back.
use n8n_libpetri.Prelude.{
  ℕ, zero, suc, ◌≤◌, ◌<◌, ◌≡◌, refl, sym, ◌∙◌, ap, subst, inl, inr, false, String, string_eq, some,
  List, [], ◌∷◌, ◌++◌, ltb, length, length-append, arith, Bool-cases, Option-cases, fold,
}
use n8n_libpetri.Prelude.Sets.{has, IsNodup}
use n8n_libpetri.Prelude.Maps
use n8n_libpetri.Prelude.Maps.{IsNodup-keys-set}
use n8n_libpetri.Scheduler.Cache.{Cache, new, get, set}
use n8n_libpetri.Scheduler.Cache.Recency.{
  IsCache, missing-delete, IsNodup-delete, length-delete-le, length-delete-lt, set-missing,
  make_room, entries-set,
}

-- A call of the cache.
pub data Call {ℓ} (V : Type ℓ) : Type ℓ where
  get_call : String → Call V
  set_call : String → V → Call V

module _ {ℓ} {V : Type ℓ} where
  has-make_room :
      (capacity : ℕ) (es : List (String × V)) (j : String)
      → has (Maps.keys es) j ≡ false
      → has (Maps.keys (make_room capacity es)) j ≡ false
  has-make_room capacity [] j h = refl
  has-make_room capacity ((i, v) ∷ es) j h = ground arith

  IsNodup-make_room :
      (capacity : ℕ) (es : List (String × V))
      → IsNodup (Maps.keys es)
      → IsNodup (Maps.keys (make_room capacity es))
  IsNodup-make_room capacity [] u = tt
  IsNodup-make_room capacity ((i, v) ∷ es) u = elim (Bool-cases (ltb (suc (length es)) capacity)) [
    | inl room ↦ rw room u
    | inr full ↦ rw full u.1
  ]

  length-make_room :
      (capacity : ℕ) (es : List (String × V))
      → length es ≤ capacity
      → 1 ≤ capacity
      → length (make_room capacity es) < capacity
  length-make_room capacity [] h k = omega (arith, k)
  length-make_room capacity ((i, v) ∷ es) h k = ground (arith, h)

  IsCache-set : (c : Cache V) (key : String) (value : V) → IsCache c → IsCache (set key value c)
  unfolding set
  IsCache-set c key value h =
      let rest = Maps.delete c.entries key in
      let room = make_room c.capacity rest in
      let fits : length rest ≤ c.capacity =
        omega (arith, length-delete-le c.entries key, h.bounded) in
      let fresh = has-make_room c.capacity rest key (missing-delete c.entries key h.distinct) in
      let now = entries-set c key value h in
      record {
        distinct =
            subst (λ es. IsNodup (Maps.keys es)) (set-missing room key value fresh ∙ sym now)
              (IsNodup-keys-set room key value
                (IsNodup-make_room c.capacity rest (IsNodup-delete c.entries key h.distinct)));
        bounded = omega (
          arith,
          ap length now,
          length-append room ((key, value) ∷ []),
          length-make_room c.capacity rest fits h.roomy,
        );
        roomy = h.roomy;
      }

  IsCache-get : (c : Cache V) (key : String) → IsCache c → IsCache (get key c).1
  unfolding get
  IsCache-get c key h = elim (Option-cases (Maps.get c.entries key)) [
    | inl miss ↦ rw miss (record { distinct = h.distinct; bounded = h.bounded; roomy = h.roomy })
    | inr (hit, found) ↦
        let rest = Maps.delete c.entries key in
        rw found (record {
          distinct = IsNodup-keys-set rest key hit (IsNodup-delete c.entries key h.distinct);
          bounded = omega (
            arith,
            h.bounded,
            length-delete-lt c.entries key hit found,
            ap length (set-missing rest key hit (missing-delete c.entries key h.distinct)),
            length-append rest ((key, hit) ∷ []),
          );
          roomy = h.roomy;
        })
  ]

  abbrev pub run : Cache V → Call V → Cache V
  run c (get_call key) = (get key c).1
  run c (set_call key value) = set key value c

  run-IsCache : (c : Cache V) (calls : List (Call V)) → IsCache c → IsCache (fold run c calls)
  run-IsCache c [] h = h
  run-IsCache c (get_call key ∷ calls) h = run-IsCache (get key c).1 calls (IsCache-get c key h)
  run-IsCache c (set_call key value ∷ calls) h =
      run-IsCache (set key value c) calls (IsCache-set c key value h)

  -- After any calls on a new cache there is one entry for each key, and there are at most
  -- `capacity` entries.
  pub reachable-IsCache :
      (capacity : ℕ) (c : Cache V) (calls : List (Call V))
      → new capacity ≡ some c
      → IsCache (fold run c calls)
  unfolding new
  reachable-IsCache zero c calls h = cc
  reachable-IsCache (suc n) c calls h =
      let made : some (record { capacity = suc n; entries = []; hit_count = 0; miss_count = 0 })
          ≡ some c =
        h in
      let same : record { capacity = suc n; entries = []; hit_count = 0; miss_count = 0 } ≡ c =
        cc in
      run-IsCache c calls
        (subst IsCache same (record { distinct = tt; bounded = omega arith; roomy = omega arith }))

  get-append :
      (es : List (String × V)) (key : String) (value : V)
      → has (Maps.keys es) key ≡ false
      → Maps.get (es ++ ((key, value) ∷ [])) key ≡ some value
  get-append [] key value h = ground (arith, string_eq.beq_iff key key)
  get-append ((i, w) ∷ es) key value h = ground (arith, get-append es key value)

  counts-set :
      (c : Cache V) (key : String) (value : V)
      → ((set key value c).hit_count ≡ c.hit_count) × ((set key value c).miss_count ≡ c.miss_count)
  unfolding set
  counts-set c key value = (refl, refl)

  -- In a cache within its bounds, `get` returns what `set` stored, and counts a hit.
  pub get-set_lem :
      (c : Cache V) (key : String) (value : V)
      → IsCache c
      → ((get key (set key value c)).0 ≡ some value)
        × ((get key (set key value c)).1.hit_count ≡ suc c.hit_count)
        × ((get key (set key value c)).1.miss_count ≡ c.miss_count)
  unfolding get
  get-set_lem c key value h =
      let rest = Maps.delete c.entries key in
      let found : Maps.get (set key value c).entries key ≡ some value =
        ap (λ es. Maps.get es key) (entries-set c key value h)
        ∙ get-append (make_room c.capacity rest) key value
            (has-make_room c.capacity rest key (missing-delete c.entries key h.distinct)) in
      rw found (refl, ap suc (counts-set c key value).0, (counts-set c key value).1)
