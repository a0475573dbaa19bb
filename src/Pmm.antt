-- ===== src/Pmm.antt =====
-- memory/pmm.c: the page frame allocator. The bitmap is a byte array with one bit for each page.
-- The multiboot information is what the boot loader hands over; the memory map is the list of the
-- entries that the walk by `size` visits.
pub mod Alloc
pub mod Bits
pub mod Count
pub mod Init
mod Tests
use Prim.Native.Nat.{bit_and, bit_or}
use my_operating_system_open.Prelude.{
  ℕ, zero, suc, min, Bool, true, false, not, Option, none, some, List, [], ◌+◌, ◌-◌, ◌*◌, ◌/◌, ◌%◌,
  ◌^◌, ◌&&◌, ◌∷◌, ◌==◌, if◌then◌else◌, ltb, leb, update, add32, sub32, mul32, u32, add64,
  first_index,
}

abbrev pub page_size : ℕ
page_size = 4096

abbrev pub bitmap_size : ℕ
bitmap_size = 1024 * 1024

abbrev pub low_memory : ℕ
low_memory = 0x100000

-- The static variables of pmm.c.
pub record Pmm : Type 0 where
  pub bitmap : ℕ → ℕ
  pub total_pages : ℕ
  pub used_pages : ℕ
  pub max_physical_address : ℕ

-- An entry of the memory map; `available` is `type == MULTIBOOT_MEMORY_AVAILABLE`.
pub record MmapEntry : Type 0 where
  pub addr : ℕ
  pub len : ℕ
  pub available : Bool

-- What `pmm_init` reads: `mmap` is `none` where bit 6 of the flags is clear.
pub record BootInfo : Type 0 where
  pub mem_lower : ℕ
  pub mem_upper : ℕ
  pub mmap : Option (List MmapEntry)
  pub kernel_start : ℕ
  pub kernel_end : ℕ

-- `b |= 1 << i`, `b &= ~(1 << i)` and `(b & (1 << i)) != 0` on a byte
unfoldable pub set_bit : ℕ → ℕ → ℕ
set_bit b i = bit_or b (2 ^ i)

clear_bit : ℕ → ℕ → ℕ
clear_bit b i = bit_and b (255 - 2 ^ i)

unfoldable pub test_bit : ℕ → ℕ → Bool
test_bit b i = not (bit_and b (2 ^ i) == 0)

-- `bitmap_set`
unfoldable pub bitmap_set : (ℕ → ℕ) → ℕ → ℕ → ℕ
bitmap_set m page =
    if ltb (page / 8) bitmap_size
    then update m (page / 8) (set_bit (m (page / 8)) (page % 8))
    else m

-- `bitmap_clear`
pub bitmap_clear : (ℕ → ℕ) → ℕ → ℕ → ℕ
bitmap_clear m page =
    if ltb (page / 8) bitmap_size
    then update m (page / 8) (clear_bit (m (page / 8)) (page % 8))
    else m

-- `bitmap_test`
unfoldable pub bitmap_test : (ℕ → ℕ) → ℕ → Bool
bitmap_test m page = if ltb (page / 8) bitmap_size then test_bit (m (page / 8)) (page % 8) else true

-- `for (page = first; page < last && page < total; page++)` marking a page used that is free; the
-- first argument counts the rounds.
reserve_loop : ℕ → ℕ → (ℕ → ℕ) → ℕ → ℕ
reserve_loop zero page m = m
reserve_loop (suc k) page m =
    reserve_loop k (page + 1) (if bitmap_test m page then m else bitmap_set m page)

-- `reserve_range`; the addresses are 64 bits wide.
pub reserve_range : ℕ → (ℕ → ℕ) → ℕ → ℕ → ℕ → ℕ
unfolding reserve_loop
reserve_range total m start stop =
    if leb stop start
    then m
    else (let first = u32 (start / page_size) in
        let last = u32 (add64 stop (page_size - 1) / page_size) in
        reserve_loop (min last total - first) first m)

-- `for (page = first; …; page++) bitmap_clear(page);`
clear_loop : ℕ → ℕ → (ℕ → ℕ) → ℕ → ℕ
clear_loop zero page m = m
clear_loop (suc k) page m = clear_loop k (page + 1) (bitmap_clear m page)

-- `for (i = page; …; i++) if (bitmap_test(i)) used_pages++;`
unfoldable pub count_used : ℕ → ℕ → (ℕ → ℕ) → ℕ
count_used zero page m = 0
count_used (suc k) page m = (if bitmap_test m page then 1 else 0) + count_used k (page + 1) m

-- The first pass over the memory map: the highest end of an available region.
highest : ℕ → List MmapEntry → ℕ
highest acc [] = acc
highest acc (e ∷ es) =
    highest (if e.available && ltb acc (add64 e.addr e.len) then add64 e.addr e.len else acc) es

-- The second pass: the pages of each available region from 1 MB on become free.
free_regions : ℕ → (ℕ → ℕ) → List MmapEntry → ℕ → ℕ
free_regions total m [] = m
free_regions total m (e ∷ es) =
    free_regions total (if e.available && leb low_memory e.addr then freed else m) es
  where
    first : ℕ
    first = u32 (e.addr / page_size)

    last : ℕ
    last = u32 (add64 e.addr e.len / page_size)

    freed : ℕ → ℕ
    freed = clear_loop (min last total - first) first m

-- The end of both branches of `pmm_init`: page 0 and the kernel image are reserved, and the used
-- pages counted.
reserve_and_count : BootInfo → ℕ → ℕ → (ℕ → ℕ) → Pmm
reserve_and_count b total top m = record {
  bitmap = kept;
  total_pages = total;
  used_pages = count_used total 0 kept;
  max_physical_address = top;
}
  where
    kept : ℕ → ℕ
    kept = reserve_range total (reserve_range total m 0 page_size) b.kernel_start b.kernel_end

-- All pages used.
all_used : ℕ → ℕ
all_used i = 0xff

-- The branch of `pmm_init` with no memory map.
init_basic : BootInfo → Pmm
init_basic b = reserve_and_count b total (mul32 mem_kb 1024) freed
  where
    mem_kb : ℕ
    mem_kb = add32 b.mem_lower b.mem_upper

    total : ℕ
    total = mul32 mem_kb 1024 / page_size

    freed : ℕ → ℕ
    freed = clear_loop (total - low_memory / page_size) (low_memory / page_size) all_used

-- The branch with a memory map; `top` is `max_physical_address` before the call.
init_mmap : ℕ → BootInfo → List MmapEntry → Pmm
init_mmap top b es = reserve_and_count b total (highest top es) (free_regions total all_used es)
  where
    total : ℕ
    total = min (u32 (highest top es / page_size)) (bitmap_size * 8)

init_from : Option (List MmapEntry) → ℕ → BootInfo → Pmm
init_from none top b = init_basic b
init_from (some es) top b = init_mmap top b es

-- `pmm_init`
pub pmm_init : Pmm → BootInfo → Pmm
unfolding init_from init_basic init_mmap reserve_and_count free_regions highest clear_loop all_used
pmm_init s b = init_from b.mmap s.max_physical_address b

-- `pmm_alloc_page`: the address (32 bits), or 0 for NULL
unfoldable pub pmm_alloc_page : Pmm → ℕ × Pmm
pmm_alloc_page s = elim (first_index s.total_pages 0 (λ page. not (bitmap_test s.bitmap page))) [
  | none ↦ (0, s)
  | some page ↦ (
    mul32 page page_size,
    record s { bitmap = bitmap_set s.bitmap page; used_pages = add32 s.used_pages 1 },
  )
]

-- `pmm_free_page`
pub pmm_free_page : Pmm → ℕ → Pmm
pmm_free_page s page =
    let n = page / page_size in
    if ltb n s.total_pages && bitmap_test s.bitmap n
    then record s { bitmap = bitmap_clear s.bitmap n; used_pages = sub32 s.used_pages 1 }
    else s

-- `pmm_mark_used`
pub pmm_mark_used : Pmm → ℕ → Pmm
pmm_mark_used s page =
    let n = page / page_size in
    if ltb n s.total_pages && not (bitmap_test s.bitmap n)
    then record s { bitmap = bitmap_set s.bitmap n; used_pages = add32 s.used_pages 1 }
    else s

-- `pmm_is_page_free`
unfoldable pub pmm_is_page_free : Pmm → ℕ → Bool
pmm_is_page_free s page =
    let n = page / page_size in if leb s.total_pages n then false else not (bitmap_test s.bitmap n)

-- `struct pmm_stats`
pub record Stats : Type 0 where
  pub total_pages : ℕ
  pub used_pages : ℕ
  pub free_pages : ℕ
  pub total_memory_kb : ℕ
  pub used_memory_kb : ℕ
  pub free_memory_kb : ℕ

-- `pmm_get_stats`
pub pmm_get_stats : Pmm → Stats
pmm_get_stats s = record {
  total_pages = s.total_pages;
  used_pages = s.used_pages;
  free_pages = sub32 s.total_pages s.used_pages;
  total_memory_kb = mul32 s.total_pages page_size / 1024;
  used_memory_kb = mul32 s.used_pages page_size / 1024;
  free_memory_kb =
      sub32 (mul32 s.total_pages page_size / 1024) (mul32 s.used_pages page_size / 1024);
}

-- `pmm_get_max_address`
unfoldable pub pmm_get_max_address : Pmm → ℕ
pmm_get_max_address s =
    let max_bytes = s.total_pages * page_size in
    if ltb s.max_physical_address max_bytes then u32 s.max_physical_address else u32 max_bytes

-- `pmm_mark_free`
unfoldable pub pmm_mark_free : Pmm → ℕ → Pmm
pmm_mark_free s page = pmm_free_page s page

-- `pmm_get_total_pages`
unfoldable pub pmm_get_total_pages : Pmm → ℕ
pmm_get_total_pages s = s.total_pages
