-- ===== src/Vmm/Tables.antt =====
-- Lookups in the page tables of memory/vmm.c, and the page tables that are created for them.
use my_operating_system_open.Prelude.{
  ℕ, refl, ap, inl, inr, Bool, true, false, arith, ◌+◌, ◌*◌, ◌/◌, ◌%◌, ◌^◌, ◌≤◌, ◌<◌, ◌≡◌, ◌∙◌, ◌≢◌,
  ◌⊎◌, ◌==◌, if◌then◌else◌, ==→eq, Bool-cases, if_true, if_false,
}
use my_operating_system_open.Pmm.{Pmm, pmm_alloc_page}
use my_operating_system_open.Pmm.Alloc.{IsPmm, Marked, is_used, pmm_alloc_page-lowest}
use my_operating_system_open.Vmm.{
  Vmm, pd_index, pt_index, page_align, get_page_table, or_current, vmm_get_physical,
}

-- Entry `j` of the page table at `pt`; 0 where no table is.
abbrev pub entry_in : (ℕ → ℕ → ℕ) → ℕ → ℕ → ℕ
entry_in tables pt j = if pt == 0 then 0 else tables pt j

-- The entry for an address in a directory.
abbrev pub lookup : Vmm → ℕ → ℕ → ℕ
lookup s dir virt =
    entry_in s.page_tables ((s.directories dir).tables (pd_index virt)) (pt_index virt)

pub entry_in_zero : (tables : ℕ → ℕ → ℕ) (pt j : ℕ) → tables pt j ≡ 0 → entry_in tables pt j ≡ 0
entry_in_zero tables pt j e = elim (Bool-cases (pt == 0)) [
  | inl z ↦ if_true z _ _
  | inr z ↦ if_false z _ _ ∙ e
]

pub entry_in_frame :
    (tables tables' : ℕ → ℕ → ℕ) (pt j : ℕ)
    → tables' pt j ≡ tables pt j
    → entry_in tables' pt j ≡ entry_in tables pt j
entry_in_frame tables tables' pt j e = ap (λ z. if pt == 0 then 0 else z) e

-- What an entry says about an address: 0, or the address in the page it points to.
abbrev pub translate : ℕ → ℕ → ℕ
translate pte virt = if pte % 2 == 0 then 0 else page_align pte + virt % 4096

-- The directories `ds` and their page tables stand in used pages, and no page is the table of two entries.
-- Page 0 is never free, and memory ends at 4 GB.
pub record IsVmm (s : Vmm) (ds : ℕ → Bool) : Type 0 where
  pub pages : IsPmm s.pmm
  pub small : s.pmm.total_pages ≤ 2 ^ 20
  pub null_used : is_used s.pmm 0 ≡ true
  pub placed : (d : ℕ) → ds d ≡ true → is_used s.pmm (d / 4096) ≡ true
  pub aligned : (d i : ℕ) → ds d ≡ true → (s.directories d).tables i % 4096 ≡ 0
  pub in_use : (d i : ℕ) → ds d ≡ true → is_used s.pmm ((s.directories d).tables i / 4096) ≡ true
  pub distinct :
      (d i e j : ℕ)
      → ds d ≡ true
      → ds e ≡ true
      → (s.directories d).tables i ≢ 0
      → (s.directories d).tables i ≡ (s.directories e).tables j
      → (d ≡ e) × (i ≡ j)

-- Looking for a table changes nothing.
pub get_page_table_look :
    (s : Vmm) (dir virt : ℕ)
    → get_page_table s dir virt false ≡ ((s.directories dir).tables (pd_index virt), s)
unfolding get_page_table
get_page_table_look s dir virt =
    elim (Bool-cases ((s.directories dir).tables (pd_index virt) == 0)) [
      | inl e ↦ rw (if_true e, ==→eq _ _ e) refl
      | inr e ↦ rw (if_false e) refl
    ]

-- `vmm_get_physical` is what the entry says.
pub vmm_get_physical-translate :
    (s : Vmm) (dir virt : ℕ)
    → vmm_get_physical s dir virt ≡ translate (lookup s (or_current s dir) virt) virt
unfolding vmm_get_physical
vmm_get_physical-translate s dir virt =
    rw (get_page_table_look s (or_current s dir) virt)
      (elim (Bool-cases ((s.directories (or_current s dir)).tables (pd_index virt) == 0)) [
        | inl e ↦ rw (if_true e, if_true e) refl
        | inr e ↦ rw (if_false e, if_false e) refl
      ])

-- An allocation of a page: NULL and nothing changes if there is none, or the address of a page that was free.
pub record Fresh (m : Pmm) (addr : ℕ) (n : Pmm) : Type 0 where
  pub aligned : addr % 4096 ≡ 0
  pub non_null : addr ≢ 0
  pub marked : Marked m (addr / 4096) n

abbrev pub Full : Pmm → Type 0
Full m = (q : ℕ) → q < m.total_pages → is_used m q ≡ true

pub alloc-Fresh :
    (m : Pmm)
    → IsPmm m
    → m.total_pages ≤ 2 ^ 20
    → is_used m 0 ≡ true
    → let (addr, n) = pmm_alloc_page m in Fresh m addr n ⊎ ((addr ≡ 0) × (n ≡ m) × Full m)
alloc-Fresh m v small null = elim (pmm_alloc_page-lowest m v) [
  | inr (e, same, full) ↦ inr (e, same, full)
  | inl (page, e, marked, lower) ↦
      let n : page ≢ 0 = λ z. cc (null, marked.was_free, z) in
      let addr : (pmm_alloc_page m).0 ≡ page * 4096 = omega (arith, e, marked.in_range) in
      let q : (pmm_alloc_page m).0 / 4096 ≡ page = omega (arith, addr) in
      inl (record {
        aligned = omega (arith, addr);
        non_null = λ z. absurd (omega (arith, addr, n));
        marked = rw (q) marked;
      })
]
