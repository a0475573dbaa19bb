-- ===== src/Cache.antt =====
-- memory/cache.c and memory/cache.h: a direct-mapped cache of 256 lines of 32 bytes. A pointer to a
-- byte is the byte, or `none` for NULL. The hit and miss rates, which are doubles, are left out.
pub mod Lines
pub mod Blocks
pub mod Bytes
pub mod Counts
mod Tests
use my_operating_system_open.Prelude.{
  ℕ, Bool, true, false, Option, some, ◌/◌, ◌%◌, ◌^◌, ◌&&◌, ◌==◌, if◌then◌else◌, update, add64,
}

abbrev pub cache_num_lines : ℕ
cache_num_lines = 256

-- `CacheLine`; `bytes` is its array `data`.
pub record CacheLine : Type 0 where
  pub valid : Bool
  pub tag : ℕ
  pub bytes : ℕ → ℕ

-- `Cache`
pub record Cache : Type 0 where
  pub lines : ℕ → CacheLine
  pub hits : ℕ
  pub misses : ℕ
  pub accesses : ℕ

-- `cache_init`
unfoldable pub cache_init : Cache
cache_init = record {
  lines = λ _. record { valid = false; tag = 0; bytes = λ _. 0 };
  hits = 0;
  misses = 0;
  accesses = 0;
}

-- `cache_reset`
unfoldable pub cache_reset : Cache
cache_reset = cache_init

-- `cache_parse_address`: the tag, the index and the offset
unfoldable pub cache_parse_address : ℕ → ℕ × ℕ × ℕ
cache_parse_address address = (address / 2 ^ 13, address / 2 ^ 5 % 2 ^ 8, address % 2 ^ 5)

-- The line after the access: a write changes its byte.
written : CacheLine → ℕ → Option ℕ → Bool → CacheLine
written line offset (some byte) true = record line { bytes = update line.bytes offset byte }
written line offset _ _ = line

-- The caller's byte after the access: a read changes it.
fetched : Option ℕ → Bool → ℕ → Option ℕ
fetched (some _) false value = some value
fetched byte _ value = byte

-- `cache_access`: whether it hit, the caller's byte, and the cache
unfoldable pub cache_access : Cache → ℕ → Option ℕ → Bool → Bool × Option ℕ × Cache
unfolding cache_parse_address written fetched
cache_access cache address byte is_write =
    let (tag, index, offset) = cache_parse_address address in
    let line = cache.lines index in
    if line.valid && line.tag == tag
    then (
      true,
      fetched byte is_write (line.bytes offset),
      record {
        lines = update cache.lines index (written line offset byte is_write);
        hits = add64 cache.hits 1;
        misses = cache.misses;
        accesses = add64 cache.accesses 1;
      },
    )
    else (
      false,
      fetched byte is_write 0,
      record {
        lines =
            update cache.lines index
              (written (record line { valid = true; tag = tag }) offset byte is_write);
        hits = cache.hits;
        misses = add64 cache.misses 1;
        accesses = add64 cache.accesses 1;
      },
    )
