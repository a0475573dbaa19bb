-- ===== src/Cache/Tests.antt =====
-- Runs of the cache of memory/cache.c, and its theorems at inputs that meet their hypotheses.
use my_operating_system_open.Prelude.{
  refl, inl, inr, true, false, some, List, [], arith, ◌+◌, ◌≡◌, ◌∷◌,
}
use my_operating_system_open.Cache.{
  Cache, cache_reset, cache_init, cache_parse_address, cache_access,
}
use my_operating_system_open.Cache.Lines.{resident, byte_at, read-miss-stale}
use my_operating_system_open.Cache.Blocks.{holds_block, cache_access-holds_block}
use my_operating_system_open.Cache.Bytes.{Access, run, Spares, nothing, spares, write-read}
use my_operating_system_open.Cache.Counts.{run-balance}

-- A write in another line, a write next to the byte at 0x2041, and a read of that byte.
abbrev accesses : List Access
accesses =
    record { address = 0x3060; byte = some 7; is_write = true }
    ∷ record { address = 0x2042; byte = some 8; is_write = true }
    ∷ record { address = 0x2041; byte = some 0; is_write = false }
    ∷ []

-- The byte at 0x41 was written in a fresh cache.
abbrev one_written : Cache
one_written = (cache_access cache_reset 0x41 (some 5) true).2

cache_access-holds_block_example :
    let (hit, _, c') = cache_access one_written 0x2041 (some 9) true in
    (hit ≡ holds_block one_written 0x102) × (holds_block c' 2 ≡ false)
unfolding cache_access
cache_access-holds_block_example = cache_access-holds_block one_written 0x2041 (some 9) true 0x41

accesses-Spares : Spares 0x2041 accesses
unfolding cache_parse_address
accesses-Spares =
    spares (inl (omega arith))
      (spares (inr (refl, λ e. absurd (omega arith))) (spares (inr (refl, λ _. refl)) nothing))

write-read_example :
    let (hit, byte, _) =
      cache_access
        (run (cache_access cache_reset 0x2041 (some 5) true).2 accesses)
        0x2041
        (some 0)
        false in
    (hit ≡ true) × (byte ≡ some 5)
write-read_example = write-read accesses cache_reset 0x2041 5 0 accesses-Spares

run-balance_example :
    ((run cache_reset accesses).accesses ≡ 3)
    × ((run cache_reset accesses).hits + (run cache_reset accesses).misses ≡ 3)
run-balance_example = run-balance accesses (omega arith)

evicted : resident one_written 0x2041 ≡ false
unfolding cache_access cache_parse_address cache_reset cache_init
evicted = refl

read-miss-stale_example :
    let (hit, byte, c') = cache_access one_written 0x2041 (some 1) false in
    let (hit', byte', _) = cache_access c' 0x2041 (some 1) false in
    (hit ≡ false) × (byte ≡ some 0) × (hit' ≡ true) × (byte' ≡ some (byte_at one_written 0x2041))
read-miss-stale_example = read-miss-stale one_written 0x2041 1 evicted
