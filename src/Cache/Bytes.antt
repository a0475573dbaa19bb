-- ===== src/Cache/Bytes.antt =====
-- The cache of memory/cache.c over a sequence of accesses: which bytes can be read back.
use my_operating_system_open.Prelude.{
  ℕ, Bool, true, false, Option, some, List, [], ◌≡◌, ◌≢◌, ◌⊎◌, ◌∷◌,
}
use my_operating_system_open.Cache.{Cache, cache_access}
use my_operating_system_open.Cache.Lines.{
  index_of, tag_of, Holds, write-Holds, access-Holds, read-Holds,
}

-- One call of `cache_access`.
pub record Access : Type 0 where
  pub address : ℕ
  pub byte : Option ℕ
  pub is_write : Bool

-- The calls one after the other.
abbrev pub run : Cache → List Access → Cache
run c [] = c
run c (x ∷ xs) = run (cache_access c x.address x.byte x.is_write).2 xs

-- No access of the list evicts the block of `a` or writes to `a`.
pub data Spares (a : ℕ) : List Access → Type 0 where
  nothing : Spares a []
  spares :
      {x : Access} {xs : List Access}
      → (index_of a ≢ index_of x.address)
        ⊎ ((tag_of a ≡ tag_of x.address) × (a ≡ x.address → x.is_write ≡ false))
      → Spares a xs
      → Spares a (x ∷ xs)

run-Holds :
    (xs : List Access) (c : Cache) (a v : ℕ) → Spares a xs → Holds c a v → Holds (run c xs) a v
run-Holds [] c a v nothing h = h
run-Holds (x ∷ xs) c a v (spares s safe) h =
    run-Holds xs _ a v safe (access-Holds c a v x.address x.byte x.is_write s h)

-- A byte that was written is read back, in a hit, as long as no access in between goes to another
-- block of the same line or writes to the same address.
pub write-read :
    (xs : List Access) (c : Cache) (a v old : ℕ)
    → Spares a xs
    → let (hit, byte, _) =
        cache_access (run (cache_access c a (some v) true).2 xs) a (some old) false in
      (hit ≡ true) × (byte ≡ some v)
write-read xs c a v old safe = read-Holds _ a v old (run-Holds xs _ a v safe (write-Holds c a v))
