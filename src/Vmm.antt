-- ===== src/Vmm.antt =====
-- memory/vmm.c: page directories and page tables. Pointers are addresses and 0 is NULL. A page table stands
-- in memory at its address, and so does a page directory: memory is mapped to itself, as the code relies
-- on, and the pages that memory/pmm.c hands out are different ones, so neither overlaps another. A word
-- has 32 bits: `x & 0xFFFFF000` is `page_align x`, `x & 0xFFF` is `x % 4096`, and `|` of these two is their sum.
-- The flush of a translation in the processor is left out.
pub mod Tables
pub mod Create
pub mod Entries
pub mod Map
pub mod Fill
pub mod Region
pub mod Pages
pub mod Adjacent
pub mod Lifetime
pub mod Boot
mod Tests
use my_operating_system_open.Prelude.{
  ℕ, zero, suc, min, max, Bool, true, false, ◌+◌, ◌-◌, ◌*◌, ◌/◌, ◌%◌, ◌^◌, ◌==◌, if◌then◌else◌, ltb,
  update, add32, u32,
}
use my_operating_system_open.Pmm.{
  Pmm, page_size, pmm_alloc_page, pmm_free_page, pmm_get_max_address,
}

abbrev pub entries_per_table : ℕ
entries_per_table = 1024

-- `PTE_PRESENT | PTE_WRITABLE | PTE_USER`
abbrev pub user_flags : ℕ
user_flags = 7

-- `struct page_directory`
pub record Directory : Type 0 where
  pub entries : ℕ → ℕ
  pub tables : ℕ → ℕ

-- The static variables of vmm.c, the register CR3, the directories and the page tables in memory.
pub record Vmm : Type 0 where
  pub pmm : Pmm
  pub current_directory : ℕ
  pub kernel_directory : ℕ
  pub cr3 : ℕ
  pub directories : ℕ → Directory
  pub page_tables : ℕ → ℕ → ℕ

-- `PD_INDEX`, `PT_INDEX` and `PAGE_ALIGN`
abbrev pub pd_index : ℕ → ℕ
pd_index addr = addr / 2 ^ 22 % 1024

abbrev pub pt_index : ℕ → ℕ
pt_index addr = addr / 2 ^ 12 % 1024

abbrev pub page_align : ℕ → ℕ
page_align addr = addr / 4096 * 4096

-- `get_page_table` where the table is created
unfoldable pub create_table : Vmm → ℕ → ℕ → ℕ × Vmm
create_table s dir virt =
    let (phys, m) = pmm_alloc_page s.pmm in
    let d = s.directories dir in
    if phys == 0 then (0, record s { pmm = m }) else (
      phys,
      record s {
        pmm = m;
        page_tables = update s.page_tables phys (λ _. 0);
        directories = update s.directories dir (record {
          entries = update d.entries (pd_index virt) (page_align phys + user_flags);
          tables = update d.tables (pd_index virt) phys;
        });
      },
    )

-- `get_page_table`
unfoldable pub get_page_table : Vmm → ℕ → ℕ → Bool → ℕ × Vmm
get_page_table s dir virt create =
    let pt = (s.directories dir).tables (pd_index virt) in
    if pt == 0 then (if create then create_table s dir virt else (0, s)) else (pt, s)

-- `if (dir == NULL) dir = current_directory;`
unfoldable pub or_current : Vmm → ℕ → ℕ
or_current s dir = if dir == 0 then s.current_directory else dir

-- `pt->entries[i] = e;`
abbrev pub put_entry : Vmm → ℕ → ℕ → ℕ → Vmm
put_entry s pt i e = record s {
  page_tables = update s.page_tables pt (update (s.page_tables pt) i e);
}

-- `vmm_map_page`
unfoldable pub vmm_map_page : Vmm → ℕ → ℕ → ℕ → ℕ → ℕ × Vmm
vmm_map_page s dir virt phys flags =
    let (pt, s1) = get_page_table s (or_current s dir) virt true in
    if pt == 0
    then (0, s1)
    else (1, put_entry s1 pt (pt_index virt) (page_align phys + flags % 4096))

-- `vmm_unmap_page`
unfoldable pub vmm_unmap_page : Vmm → ℕ → ℕ → Vmm
vmm_unmap_page s dir virt =
    let (pt, s1) = get_page_table s (or_current s dir) virt false in
    if pt == 0 then s1 else put_entry s1 pt (pt_index virt) 0

-- `vmm_get_physical`
unfoldable pub vmm_get_physical : Vmm → ℕ → ℕ → ℕ
vmm_get_physical s dir virt =
    let (pt, s1) = get_page_table s (or_current s dir) virt false in
    let pte = s1.page_tables pt (pt_index virt) in
    if pt == 0 then 0 else (if pte % 2 == 0 then 0 else page_align pte + virt % 4096)

-- The loop over the pages of a region, on fuel.
unfoldable pub map_pages : ℕ → Vmm → ℕ → ℕ → ℕ → ℕ → ℕ → Vmm
map_pages zero s dir virt phys stop flags = s
map_pages (suc f) s dir virt phys stop flags =
    let s1 = (vmm_map_page s dir virt phys flags).1 in
    let rest = map_pages f s1 dir (add32 virt page_size) (add32 phys page_size) stop flags in
    if ltb virt stop then rest else s

-- `((uint32_t)start + size + PAGE_SIZE - 1) & 0xFFFFF000`
abbrev pub region_end : ℕ → ℕ → ℕ
region_end start size = page_align (u32 (start + size + page_size - 1))

-- The fuel of the loop: a round for each page, and one for the last test.
abbrev pub rounds : ℕ → ℕ → ℕ
rounds virt stop = (stop - virt) / page_size + 1

-- `vmm_map_region`
unfoldable pub vmm_map_region : Vmm → ℕ → ℕ → ℕ → ℕ → ℕ → Vmm
vmm_map_region s dir virt phys size flags =
    let stop = region_end virt size in
    map_pages (rounds (page_align virt) stop) s (or_current s dir) (page_align virt)
      (page_align phys) stop flags

-- `vmm_identity_map_region`, whose loop maps each page to itself
unfoldable pub vmm_identity_map_region : Vmm → ℕ → ℕ → ℕ → ℕ → Vmm
vmm_identity_map_region s dir start size flags =
    let stop = region_end start size in
    map_pages (rounds (page_align start) stop) s (or_current s dir) (page_align start)
      (page_align start) stop flags

-- `vmm_switch_directory`
unfoldable pub vmm_switch_directory : Vmm → ℕ → Vmm
vmm_switch_directory s dir = if dir == 0 then s else record s { current_directory = dir; cr3 = dir }

-- The two pages of a directory: the second one must follow the first.
unfoldable pub alloc_pages : Vmm → ℕ × Vmm
alloc_pages s =
    let (dir, m) = pmm_alloc_page s.pmm in
    let (p, n) = pmm_alloc_page m in
    if dir == 0
    then (0, record s { pmm = m })
    else (if p == add32 dir page_size
        then (dir, record s { pmm = n })
        else (0, record s { pmm = n }))

-- A directory that was cleared.
abbrev pub no_directory : Directory
no_directory = record { entries = λ _. 0; tables = λ _. 0 }

-- `vmm_create_directory`. A directory takes 8192 bytes, and only these are cleared.
unfoldable pub vmm_create_directory : Vmm → ℕ × Vmm
vmm_create_directory s =
    let (dir, s1) = alloc_pages s in
    if dir == 0
    then (0, s1)
    else (dir, record s1 { directories = update s1.directories dir no_directory })

-- The loop of `vmm_destroy_directory` over the last `k` entries.
unfoldable pub free_tables : ℕ → Pmm → (ℕ → ℕ) → Pmm
free_tables zero m tables = m
free_tables (suc k) m tables =
    let i = entries_per_table - suc k in
    free_tables k (if tables i == 0 then m else pmm_free_page m (tables i)) tables

-- `vmm_destroy_directory`
unfoldable pub vmm_destroy_directory : Vmm → ℕ → Vmm
vmm_destroy_directory s dir =
    let m = free_tables entries_per_table s.pmm (s.directories dir).tables in
    if dir == 0 then s else record s { pmm = pmm_free_page m dir }

-- `vmm_init`: memory is mapped to itself up to its end, from 4 MB to 64 MB of it.
unfoldable pub vmm_init : Vmm → Vmm
vmm_init s =
    let (dir, s1) = alloc_pages s in
    let s2 = record s1 {
      kernel_directory = dir;
      directories = update s1.directories dir no_directory;
    } in
    let top = pmm_get_max_address s2.pmm in
    let ram_end = min (max top 0x400000) 0x4000000 in
    let s3 = vmm_identity_map_region s2 dir 0 ram_end user_flags in
    if dir == 0 then s1 else vmm_switch_directory (record s3 { current_directory = dir }) dir
