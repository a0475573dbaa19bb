-- ===== src/Pmm/Init.antt =====
-- Which pages are used after `pmm_init` of memory/pmm.c.
use my_operating_system_open.Prelude.{
  ℕ, zero, suc, min, refl, inl, inr, Bool, true, false, not, Option, none, some, List, [], arith,
  ◌+◌, ◌-◌, ◌*◌, ◌/◌, ◌^◌, ◌≤◌, ◌<◌, ◌≡◌, ◌&&◌, ◌||◌, ◌∷◌, ◌==◌, ltb, leb, Bool-cases, if_true,
  if_false, add32, mul32, u32, add64,
}
use my_operating_system_open.Pmm.{
  Pmm, MmapEntry, BootInfo, page_size, bitmap_size, low_memory, bitmap_set, bitmap_clear,
  bitmap_test, reserve_loop, reserve_range, clear_loop, free_regions, reserve_and_count, all_used,
  init_basic, init_mmap, highest, init_from, pmm_init,
}
use my_operating_system_open.Pmm.Bits.{
  IsBytes, bitmap_test-bitmap_set, bitmap_set-IsBytes, bitmap_test-bitmap_clear,
  bitmap_clear-IsBytes, bitmap_test_full,
}
use my_operating_system_open.Pmm.Alloc.{IsPmm, is_used}

-- Whether a page lies in `first`, ..., `last - 1`.
abbrev pub within : ℕ → ℕ → ℕ → Bool
within first last q = leb first q && ltb q last

-- What a loop over pages leaves: a byte array in which page `q` is used as `spec q` says.
record Leaves (m : ℕ → ℕ) (spec : ℕ → Bool) : Type 0 where
  bytes : IsBytes m
  tests : (q : ℕ) → bitmap_test m q ≡ spec q

reserve_loop-Leaves :
    (k page : ℕ) (m : ℕ → ℕ)
    → IsBytes m
    → k ≤ bitmap_size * 8 - page
    → Leaves (reserve_loop k page m) (λ q. bitmap_test m q || within page (page + k) q)
unfolding reserve_loop
reserve_loop-Leaves zero page m v h = record { bytes = v; tests = λ q. ground arith }
reserve_loop-Leaves (suc k) page m v h = elim (Bool-cases (bitmap_test m page)) [
  | inl e ↦
      let rest = reserve_loop-Leaves k (page + 1) m v (omega arith) in
      rw (if_true e) (record { bytes = rest.bytes; tests = λ q. ground (arith, rest.tests q, e) })
  | inr e ↦
      let rest =
        reserve_loop-Leaves k (page + 1) (bitmap_set m page) (bitmap_set-IsBytes m v page)
          (omega arith) in
      rw (if_false e) (record {
        bytes = rest.bytes;
        tests = λ q. ground (arith, rest.tests q, bitmap_test-bitmap_set m v page q);
      })
]

clear_loop-Leaves :
    (k page : ℕ) (m : ℕ → ℕ)
    → IsBytes m
    → k ≤ bitmap_size * 8 - page
    → Leaves (clear_loop k page m) (λ q. bitmap_test m q && not (within page (page + k) q))
unfolding clear_loop
clear_loop-Leaves zero page m v h = record { bytes = v; tests = λ q. ground arith }
clear_loop-Leaves (suc k) page m v h =
    let rest =
      clear_loop-Leaves k (page + 1) (bitmap_clear m page) (bitmap_clear-IsBytes m v page)
        (omega arith) in
    record {
      bytes = rest.bytes;
      tests = λ q. ground (arith, rest.tests q, bitmap_test-bitmap_clear m v page q);
    }

all_used-Leaves : Leaves all_used (λ q. true)
unfolding all_used
all_used-Leaves = record { bytes = λ i. omega arith; tests = λ q. bitmap_test_full all_used q refl }

-- Whether a page is touched by the addresses `start`, ..., `stop - 1`.
abbrev pub touches : ℕ → ℕ → ℕ → Bool
touches start stop q =
    ltb start stop && within (start / page_size) ((stop + page_size - 1) / page_size) q

-- What the reservation of a range leaves, among the pages below `total`.
record Reserved (total : ℕ) (m : ℕ → ℕ) (spec : ℕ → Bool) : Type 0 where
  bytes : IsBytes m
  tests : (q : ℕ) → q < total → bitmap_test m q ≡ spec q

reserve_range-Reserved :
    (total : ℕ) (m : ℕ → ℕ) (start stop : ℕ)
    → IsBytes m
    → total ≤ bitmap_size * 8
    → start < 2 ^ 32
    → stop < 2 ^ 32
    → Reserved total
        (reserve_range total m start stop)
        (λ q. bitmap_test m q || touches start stop q)
unfolding reserve_range
reserve_range-Reserved total m start stop v ht hs he = elim (Bool-cases (leb stop start)) [
  | inl e ↦ rw (if_true e) (record { bytes = v; tests = λ q h. ground arith })
  | inr e ↦
      let first = u32 (start / page_size) in
      let last = u32 (add64 stop (page_size - 1) / page_size) in
      let r = reserve_loop-Leaves (min last total - first) first m v (omega arith) in
      rw (if_false e) (record { bytes = r.bytes; tests = λ q h. ground (arith, r.tests q) })
]

-- The kernel image as the linker places it: 32-bit addresses.
pub record IsLoaded (b : BootInfo) : Type 0 where
  pub start_in : b.kernel_start < 2 ^ 32
  pub end_in : b.kernel_end < 2 ^ 32

-- The pages that stay used whatever the memory map says.
abbrev pub reserved : BootInfo → ℕ → Bool
reserved b q = q == 0 || touches b.kernel_start b.kernel_end q

reserve_and_count-Reserved :
    (b : BootInfo) (total top : ℕ) (m : ℕ → ℕ)
    → IsLoaded b
    → IsBytes m
    → total ≤ bitmap_size * 8
    → IsPmm (reserve_and_count b total top m)
      × ((q : ℕ)
          → q < total
          → is_used (reserve_and_count b total top m) q ≡ (bitmap_test m q || reserved b q))
unfolding reserve_and_count
reserve_and_count-Reserved b total top m k v ht =
    let low = reserve_range-Reserved total m 0 page_size v ht (omega arith) (omega arith) in
    let image =
      reserve_range-Reserved total (reserve_range total m 0 page_size) b.kernel_start b.kernel_end
        low.bytes ht k.start_in k.end_in in
    (
      record { bytes = image.bytes; covered = ht; counted = refl },
      λ q h. ground (arith, image.tests q, low.tests q),
    )

-- Whether an entry of the memory map offers a page: an available region from 1 MB on, from the page
-- of its first byte up to its last whole page.
abbrev pub offers : MmapEntry → ℕ → Bool
offers e q =
    (e.available && leb low_memory e.addr)
    && within (u32 (e.addr / page_size)) (u32 (add64 e.addr e.len / page_size)) q

abbrev pub some_offers : List MmapEntry → ℕ → Bool
some_offers [] q = false
some_offers (e ∷ es) q = offers e q || some_offers es q

free_regions-Reserved :
    (total : ℕ) (es : List MmapEntry) (m : ℕ → ℕ)
    → IsBytes m
    → total ≤ bitmap_size * 8
    → Reserved total (free_regions total m es) (λ q. bitmap_test m q && not (some_offers es q))
unfolding free_regions
free_regions-Reserved total [] m v ht = record { bytes = v; tests = λ q h. ground arith }
free_regions-Reserved total (e ∷ es) m v ht =
    elim (Bool-cases (e.available && leb low_memory e.addr)) [
      | inl yes_region ↦
          let first = u32 (e.addr / page_size) in
          let last = u32 (add64 e.addr e.len / page_size) in
          let c = clear_loop-Leaves (min last total - first) first m v (omega arith) in
          let rest =
            free_regions-Reserved total es (clear_loop (min last total - first) first m) c.bytes
              ht in
          rw (if_true yes_region) (record {
            bytes = rest.bytes;
            tests = λ q h. ground (arith, rest.tests q h, c.tests q, yes_region);
          })
      | inr no_region ↦
          let rest = free_regions-Reserved total es m v ht in
          rw (if_false no_region) (record {
            bytes = rest.bytes;
            tests = λ q h. ground (arith, rest.tests q h, no_region);
          })
    ]

-- Whether the boot information offers a page.
abbrev pub offered : Option (List MmapEntry) → ℕ → Bool
offered none q = leb (low_memory / page_size) q
offered (some es) q = some_offers es q

init_basic-used :
    (b : BootInfo)
    → IsLoaded b
    → IsPmm (init_basic b)
      × ((q : ℕ)
          → q < (init_basic b).total_pages
          → is_used (init_basic b) q ≡ (not (leb (low_memory / page_size) q) || reserved b q))
unfolding init_basic reserve_and_count
init_basic-used b k =
    let total = mul32 (add32 b.mem_lower b.mem_upper) 1024 / page_size in
    let first = low_memory / page_size in
    let c = clear_loop-Leaves (total - first) first all_used all_used-Leaves.bytes (omega arith) in
    let r =
      reserve_and_count-Reserved b total (mul32 (add32 b.mem_lower b.mem_upper) 1024)
        (clear_loop (total - first) first all_used) k c.bytes (omega arith) in
    (r.0, λ q h. ground (arith, r.1 q h, c.tests q, all_used-Leaves.tests q))

init_mmap-used :
    (top : ℕ) (b : BootInfo) (es : List MmapEntry)
    → IsLoaded b
    → IsPmm (init_mmap top b es)
      × ((q : ℕ)
          → q < (init_mmap top b es).total_pages
          → is_used (init_mmap top b es) q ≡ (not (some_offers es q) || reserved b q))
unfolding init_mmap reserve_and_count
init_mmap-used top b es k =
    let total = min (u32 (highest top es / page_size)) (bitmap_size * 8) in
    let f = free_regions-Reserved total es all_used all_used-Leaves.bytes (omega arith) in
    let r =
      reserve_and_count-Reserved b total (highest top es) (free_regions total all_used es) k f.bytes
        (omega arith) in
    (r.0, λ q h. ground (arith, r.1 q h, f.tests q h, all_used-Leaves.tests q))

init_from-used :
    (o : Option (List MmapEntry)) (top : ℕ) (b : BootInfo)
    → IsLoaded b
    → IsPmm (init_from o top b)
      × ((q : ℕ)
          → q < (init_from o top b).total_pages
          → is_used (init_from o top b) q ≡ (not (offered o q) || reserved b q))
unfolding init_from
init_from-used none top b k = init_basic-used b k
init_from-used (some es) top b k = init_mmap-used top b es k

-- `pmm_init` establishes the invariant of the allocator, and then the used pages are exactly those
-- that the boot information does not offer (with a memory map: the available regions from 1 MB on;
-- without: the pages from 1 MB on), page 0, and the pages that the kernel image touches.
pub pmm_init-used :
    (s : Pmm) (b : BootInfo)
    → IsLoaded b
    → IsPmm (pmm_init s b)
      × ((q : ℕ)
          → q < (pmm_init s b).total_pages
          → is_used (pmm_init s b) q ≡ (not (offered b.mmap q) || reserved b q))
unfolding pmm_init
pmm_init-used s b k = init_from-used b.mmap s.max_physical_address b k
