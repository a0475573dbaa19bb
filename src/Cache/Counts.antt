-- ===== src/Cache/Counts.antt =====
-- The statistics of the cache of memory/cache.c.
use my_operating_system_open.Prelude.{
  ℕ, refl, inl, inr, Bool, Option, List, [], arith, ◌+◌, ◌^◌, ◌<◌, ◌≡◌, ◌⊎◌, ◌∷◌, Bool-cases,
  length, add64,
}
use my_operating_system_open.Cache.{Cache, cache_reset, cache_init, cache_access}
use my_operating_system_open.Cache.Lines.{resident}
use my_operating_system_open.Cache.Bytes.{Access, run}

cache_access-counts :
    (c : Cache) (a : ℕ) (byte : Option ℕ) (w : Bool)
    → let c' = (cache_access c a byte w).2 in
      (c'.accesses ≡ add64 c.accesses 1)
      × ((c'.hits ≡ add64 c.hits 1) × (c'.misses ≡ c.misses)
          ⊎ (c'.hits ≡ c.hits) × (c'.misses ≡ add64 c.misses 1))
unfolding cache_access
cache_access-counts c a byte w = elim (Bool-cases (resident c a)) [
  | inl e ↦ rw e (refl, inl (refl, refl))
  | inr e ↦ rw e (refl, inr (refl, refl))
]

run-counts :
    (xs : List Access) (c : Cache)
    → c.accesses + length xs < 2 ^ 64
    → c.hits + c.misses ≡ c.accesses
    → ((run c xs).accesses ≡ c.accesses + length xs)
      × ((run c xs).hits + (run c xs).misses ≡ c.accesses + length xs)
run-counts [] c hb h = (omega arith, omega arith)
run-counts (x ∷ xs) c hb h =
    let (n, parts) = cache_access-counts c x.address x.byte x.is_write in
    let c' = (cache_access c x.address x.byte x.is_write).2 in
    let balance : c'.hits + c'.misses ≡ c'.accesses = elim parts [
      | inl (p, q) ↦ omega arith
      | inr (p, q) ↦ omega arith
    ] in
    let (l, r) = run-counts xs c' (omega arith) balance in (omega arith, omega arith)

-- After a reset and any sequence of fewer than 2^64 accesses, each one was counted once, as a hit or
-- as a miss.
pub run-balance :
    (xs : List Access)
    → length xs < 2 ^ 64
    → ((run cache_reset xs).accesses ≡ length xs)
      × ((run cache_reset xs).hits + (run cache_reset xs).misses ≡ length xs)
unfolding cache_reset cache_init
run-balance xs h =
    let (l, r) = run-counts xs cache_reset (omega arith) refl in (omega arith, omega arith)
