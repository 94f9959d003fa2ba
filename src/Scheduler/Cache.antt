-- ===== src/Scheduler/Cache.antt =====
-- scheduler/cache.ts: `CompiledWorkflowCache`, a least-recently-used map. A JavaScript `Map` iterates
-- its entries in the order of insertion; the list holds them in that order, the oldest first.
pub mod Recency
pub mod Bounds
use n8n_libpetri.Prelude.{
  ℕ, zero, suc, String, string_eq, Option, none, some, List, [], ◌∷◌, if◌then◌else◌, ltb, length,
}
use n8n_libpetri.Prelude.Maps

-- `V` is the compiled workflow, which the cache only hands out.
pub record Cache {ℓ} (V : Type ℓ) : Type ℓ where
  pub capacity : ℕ
  pub entries : List (String × V)
  pub hit_count : ℕ
  pub miss_count : ℕ

module _ {ℓ} {V : Type ℓ} where
  -- The constructor, which throws on a capacity below 1.
  unfoldable pub new : ℕ → Option (Cache V)
  new zero = none
  new (suc n) = some (record { capacity = suc n; entries = []; hit_count = 0; miss_count = 0 })

  -- The body of `get`, after it has read `this.entries.get(key)`.
  abbrev pub touch : String → Cache V → Option V → Option V × Cache V
  touch key c none = (none, record c { miss_count = suc c.miss_count })
  touch key c (some hit) = (
    some hit,
    record c {
      entries = Maps.set (Maps.delete c.entries key) key hit;
      hit_count = suc c.hit_count;
    },
  )

  unfoldable pub get : String → Cache V → Option V × Cache V
  get key c = touch key c (Maps.get c.entries key)

  -- The loop that deletes the oldest entry while there are too many, on fuel: one unit for each.
  unfoldable pub evict : ℕ → ℕ → List (String × V) → List (String × V)
  evict zero capacity es = es
  evict (suc fuel) capacity [] = []
  evict (suc fuel) capacity ((k, v) ∷ es) =
      let rest = evict fuel capacity (Maps.delete ((k, v) ∷ es) k) in
      if ltb capacity (suc (length es)) then rest else (k, v) ∷ es

  unfoldable pub set : String → V → Cache V → Cache V
  set key value c =
      let es = Maps.set (Maps.delete c.entries key) key value in
      record c { entries = evict (length es) c.capacity es }
