-- ===== src/Tests/Scheduler.antt =====
-- A cache of two entries.
use n8n_libpetri.Prelude.{ℕ, suc, ◌≡◌, refl, string_eq, some, List, [], ◌∷◌, ◌++◌, fold, arith}
use n8n_libpetri.Prelude.Maps
use n8n_libpetri.Scheduler.Cache.{Cache, new, get, evict, set}
use n8n_libpetri.Scheduler.Cache.Recency.{IsCache, make_room, entries-set}
use n8n_libpetri.Scheduler.Cache.Bounds.{
  Call, get_call, set_call, run, reachable-IsCache, get-set_lem,
}

abbrev empty : Cache ℕ
empty = record { capacity = 2; entries = []; hit_count = 0; miss_count = 0 }

abbrev full : Cache ℕ
full = record { capacity = 2; entries = ("a", 1) ∷ ("b", 2) ∷ []; hit_count = 0; miss_count = 0 }

full-IsCache : IsCache full
full-IsCache = record { distinct = (refl, (refl, tt)); bounded = omega arith; roomy = omega arith }

abbrev calls : List (Call ℕ)
calls = set_call "a" 1 ∷ set_call "b" 2 ∷ get_call "a" ∷ set_call "c" 3 ∷ []

-- The least recently used entry went.
keeps_recent : (fold run empty calls).entries ≡ ("a", 1) ∷ ("c", 3) ∷ []
unfolding get set evict
keeps_recent = refl

reachable-IsCache_example : IsCache (fold run empty calls)
unfolding new
reachable-IsCache_example = reachable-IsCache 2 empty calls refl

entries-set_example :
    (set "c" 3 full).entries ≡ make_room 2 (Maps.delete full.entries "c") ++ (("c", 3) ∷ [])
entries-set_example = entries-set full "c" 3 full-IsCache

get-set_lem_example :
    ((get "c" (set "c" 3 full)).0 ≡ some 3)
    × ((get "c" (set "c" 3 full)).1.hit_count ≡ suc full.hit_count)
    × ((get "c" (set "c" 3 full)).1.miss_count ≡ full.miss_count)
get-set_lem_example = get-set_lem full "c" 3 full-IsCache
