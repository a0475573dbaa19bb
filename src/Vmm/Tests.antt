-- ===== src/Vmm/Tests.antt =====
-- Runs of memory/vmm.c on sixteen pages of memory, and the theorems at inputs that meet their hypotheses.
use my_operating_system_open.Prelude.{
  ℕ, refl, ap, Bool, true, false, arith, ◌+◌, ◌/◌, ◌≡◌, ◌∙◌, ◌≢◌, ◌⊎◌, ◌==◌, ==→eq, update,
  first_index,
}
use my_operating_system_open.Pmm.{
  Pmm, bitmap_test, bitmap_set, test_bit, set_bit, count_used, pmm_alloc_page,
}
use my_operating_system_open.Pmm.Alloc.{IsPmm, is_used}
use my_operating_system_open.Vmm.{
  Vmm, no_directory, alloc_pages, vmm_map_page, vmm_unmap_page, vmm_map_region,
  vmm_create_directory, vmm_destroy_directory, vmm_init, or_current,
}
use my_operating_system_open.Vmm.Tables.{IsVmm, Full}
use my_operating_system_open.Vmm.Map.{
  PageMapped, PageUnmapped, vmm_map_page-PageMapped, vmm_unmap_page-PageUnmapped,
}
use my_operating_system_open.Vmm.Region.{RegionMapped, vmm_map_region-RegionMapped}
use my_operating_system_open.Vmm.Lifetime.{
  Created, NotCreated, vmm_create_directory-Created, vmm_destroy_directory-vmm_create_directory,
}
use my_operating_system_open.Vmm.Adjacent.{NoPair}
use my_operating_system_open.Vmm.Boot.{Paging, vmm_init-Paging}

-- Sixteen pages, of which the first five are used.
abbrev pages : Pmm
pages = record {
  bitmap = update (λ _. 0) 0 0b11111;
  total_pages = 16;
  used_pages = 5;
  max_physical_address = 65536;
}

pages-IsPmm : IsPmm pages
unfolding count_used bitmap_test test_bit
pages-IsPmm = record { bytes = λ i. ground arith; covered = omega arith; counted = refl }

-- A directory with no tables stands at 0x2000.
abbrev start : Vmm
start = record {
  pmm = pages;
  current_directory = 0x2000;
  kernel_directory = 0x2000;
  cr3 = 0x2000;
  directories = λ _. no_directory;
  page_tables = λ _. λ _. 0;
}

abbrev one : ℕ → Bool
one d = d == 0x2000

null_used : is_used pages 0 ≡ true
unfolding bitmap_test test_bit
null_used = refl

directory_used : is_used pages 2 ≡ true
unfolding bitmap_test test_bit
directory_used = refl

start-IsVmm : IsVmm start one
start-IsVmm = record {
  pages = pages-IsPmm;
  small = omega arith;
  null_used = null_used;
  placed = λ d is. ap (λ z. is_used pages (z / 4096)) (==→eq d 0x2000 is) ∙ directory_used;
  aligned = λ d i is. refl;
  in_use = λ d i is. null_used;
  distinct = λ d i e j is is' some_table same. absurd (some_table refl);
}

-- Before `vmm_init` there is no directory.
none-IsVmm : IsVmm start (λ _. false)
none-IsVmm = record {
  pages = pages-IsPmm;
  small = omega arith;
  null_used = null_used;
  placed = λ d is. absurd (ground arith);
  aligned = λ d i is. refl;
  in_use = λ d i is. null_used;
  distinct = λ d i e j is is' some_table same. absurd (some_table refl);
}

current_is_one : one (or_current start 0) ≡ true
unfolding or_current
current_is_one = refl

vmm_map_page-PageMapped_example :
    let (r, t) = vmm_map_page start 0 0x400000 0x9000 3 in
    ((r ≡ 1) × PageMapped start one 0 0x400000 0x9000 3 t)
    ⊎ (Full pages × ((start.directories (or_current start 0)).tables 1 ≡ 0) × (r ≡ 0) × (t ≡ start))
vmm_map_page-PageMapped_example =
    vmm_map_page-PageMapped start one 0 0x400000 0x9000 3 start-IsVmm current_is_one (omega arith)

vmm_unmap_page-PageUnmapped_example :
    PageUnmapped start one 0 0x400123 (vmm_unmap_page start 0 0x400123)
vmm_unmap_page-PageUnmapped_example =
    vmm_unmap_page-PageUnmapped start one 0 0x400123 start-IsVmm current_is_one (omega arith)

vmm_map_region-RegionMapped_example :
    RegionMapped start one 0 0x3ff000 0x8000 0x2000 7
      (vmm_map_region start 0 0x3ff000 0x8000 0x2000 7)
vmm_map_region-RegionMapped_example =
    vmm_map_region-RegionMapped start one 0 0x3ff000 0x8000 0x2000 7 start-IsVmm current_is_one
      (omega arith) (omega arith)

vmm_create_directory-Created_example :
    let (dir, t) = vmm_create_directory start in
    ((dir ≢ 0) × Created start one dir t) ⊎ ((dir ≡ 0) × NotCreated start one t)
vmm_create_directory-Created_example =
    vmm_create_directory-Created start one start-IsVmm (omega arith)

created_at : (vmm_create_directory start).0 ≡ 0x5000
unfolding vmm_create_directory alloc_pages pmm_alloc_page bitmap_test bitmap_set test_bit set_bit
    first_index
created_at = refl

vmm_destroy_directory-vmm_create_directory_example :
    let (dir, t) = vmm_create_directory start in
    let u = vmm_destroy_directory t dir in
    (u.pmm.used_pages ≡ 6)
    × (is_used u.pmm (dir / 4096) ≡ false)
    × (is_used pages (dir / 4096 + 1) ≡ false)
    × (is_used u.pmm (dir / 4096 + 1) ≡ true)
vmm_destroy_directory-vmm_create_directory_example =
    vmm_destroy_directory-vmm_create_directory start one start-IsVmm (omega arith)
      (λ z. absurd (omega (arith, created_at, z)))

vmm_init-Paging_example :
    let t = vmm_init start in
    ((dir : ℕ) × Paging start t dir)
    ⊎ (NoPair pages × (t.current_directory ≡ 0x2000) × (t.cr3 ≡ 0x2000))
vmm_init-Paging_example = vmm_init-Paging start none-IsVmm (omega arith)
