-- ===== src/Pmm/Tests.antt =====
-- Runs of memory/pmm.c on small memories, and the theorems at inputs that meet their hypotheses.
use my_operating_system_open.Prelude.{
  ℕ, refl, sym, ap, true, false, not, some, [], arith, ◌+◌, ◌^◌, ◌≤◌, ◌<◌, ◌≡◌, ◌∙◌, ◌⊎◌, ◌&&◌,
  ◌||◌, ◌∷◌, ◌==◌, update, mul32, first_index,
}
use my_operating_system_open.Pmm.{
  Pmm, BootInfo, page_size, bitmap_test, count_used, pmm_alloc_page, pmm_free_page, pmm_init,
  bitmap_set, bitmap_clear, test_bit, set_bit, clear_bit, reserve_range,
}
use my_operating_system_open.Pmm.Bits.{
  bitmap_test_full, bitmap_test-bitmap_clear, bitmap_clear-IsBytes,
}
use my_operating_system_open.Pmm.Count.{count_used_mark, count_used_full}
use my_operating_system_open.Pmm.Alloc.{
  IsPmm, is_used, Marked, Freed, pmm_alloc_page-lowest, pmm_free_page-Freed,
  pmm_free_page-pmm_alloc_page,
}
use my_operating_system_open.Pmm.Init.{offered, reserved, pmm_init-used}

-- Sixteen pages, of which the first five are used.
abbrev small : Pmm
small = record {
  bitmap = update (λ _. 0) 0 0b11111;
  total_pages = 16;
  used_pages = 5;
  max_physical_address = 65536;
}

small-IsPmm : IsPmm small
unfolding count_used bitmap_test test_bit
small-IsPmm = record { bytes = λ i. ground arith; covered = omega arith; counted = refl }

-- Two megabytes, the kernel at 1 MB in one page and a half.
abbrev boot : BootInfo
boot = record {
  mem_lower = 640;
  mem_upper = 1024;
  mmap = some (
      record { addr = 0; len = 0x9fc00; available = true }
      ∷ record { addr = 0x100000; len = 0x100000; available = true }
      ∷ []);
  kernel_start = 0x100000;
  kernel_end = 0x101800;
}

-- Before `pmm_init`.
abbrev blank : Pmm
blank = record { bitmap = λ _. 0; total_pages = 0; used_pages = 0; max_physical_address = 0 }

-- The first allocation after boot takes the page behind the kernel image.
first_allocation : (pmm_alloc_page (pmm_init blank boot)).0 ≡ 0x102000
unfolding pmm_alloc_page pmm_init first_index bitmap_test bitmap_set reserve_range test_bit
    count_used bitmap_clear clear_bit set_bit
first_allocation = refl

-- All pages used but the one with number 2 ^ 20.
abbrev full_bitmap : ℕ → ℕ
full_bitmap i = 255

full_used : (q : ℕ) → bitmap_test full_bitmap q ≡ true
full_used q = bitmap_test_full full_bitmap q refl

abbrev large : Pmm
large = record {
  bitmap = bitmap_clear full_bitmap (2 ^ 20);
  total_pages = 2 ^ 20 + 1;
  used_pages = 2 ^ 20;
  max_physical_address = 2 ^ 32 + 4096;
}

large_tests :
    (q : ℕ) → bitmap_test (bitmap_clear full_bitmap (2 ^ 20)) q ≡ (not ((2 ^ 20) == q) && true)
large_tests q =
    bitmap_test-bitmap_clear full_bitmap (λ i. omega arith) (2 ^ 20) q (omega arith)
    ∙ ap (λ b. not ((2 ^ 20) == q) && b) (full_used q)

large_count : (total : ℕ) → total ≡ 2 ^ 20 + 1 → count_used total 0 large.bitmap ≡ 2 ^ 20
large_count total e = omega (
  arith,
  count_used_full total 0 full_bitmap (λ q lo hi. full_used q),
  count_used_mark total 0 large.bitmap full_bitmap (2 ^ 20) (omega arith) (omega arith)
      (large_tests (2 ^ 20)) (full_used (2 ^ 20))
      (λ q ne. ground (arith, large_tests q, full_used q)),
)

large-IsPmm : IsPmm large
large-IsPmm = record {
  bytes = bitmap_clear-IsBytes full_bitmap (λ i. omega arith) (2 ^ 20);
  covered = omega arith;
  counted = sym (large_count (2 ^ 20 + 1) refl);
}

pmm_alloc_page-lowest_example :
    let (addr, t) = pmm_alloc_page small in
    ((page : ℕ) × (addr ≡ mul32 page page_size)
      × Marked small page t
      × ((q : ℕ) → q < page → is_used small q ≡ true))
    ⊎ ((addr ≡ 0) × (t ≡ small) × ((q : ℕ) → q < 16 → is_used small q ≡ true))
pmm_alloc_page-lowest_example = pmm_alloc_page-lowest small small-IsPmm

pmm_free_page-Freed_example :
    ((1 < 16) × (is_used small 1 ≡ true) × Freed small 1 (pmm_free_page small 0x1234))
    ⊎ ((16 ≤ 1) ⊎ (is_used small 1 ≡ false)) × (pmm_free_page small 0x1234 ≡ small)
pmm_free_page-Freed_example = pmm_free_page-Freed small 0x1234 small-IsPmm

small_free : is_used small 9 ≡ false
unfolding bitmap_test test_bit
small_free = refl

pmm_free_page-pmm_alloc_page_example :
    let (addr, t) = pmm_alloc_page small in
    let u = pmm_free_page t addr in
    ((q : ℕ) → is_used u q ≡ is_used small q) × (u.used_pages ≡ 5) × IsPmm u
pmm_free_page-pmm_alloc_page_example =
    pmm_free_page-pmm_alloc_page small 9 small-IsPmm (omega arith) (omega arith) small_free

pmm_init-used_example :
    IsPmm (pmm_init blank boot)
    × ((q : ℕ)
        → q < (pmm_init blank boot).total_pages
        → is_used (pmm_init blank boot) q ≡ (not (offered boot.mmap q) || reserved boot q))
pmm_init-used_example = pmm_init-used blank boot (omega arith)
