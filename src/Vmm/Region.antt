-- ===== src/Vmm/Region.antt =====
-- The regions that memory/vmm.c maps page by page.
use my_operating_system_open.Prelude.{
  ℕ, refl, sym, ap, inl, inr, Bool, true, arith, ◌+◌, ◌-◌, ◌*◌, ◌/◌, ◌%◌, ◌^◌, ◌≤◌, ◌<◌, ◌≡◌, ◌∙◌,
  ◌⊎◌, ◌==◌, if◌then◌else◌,
}
use my_operating_system_open.Vmm.{
  Vmm, pd_index, page_align, or_current, map_pages, rounds, region_end, vmm_map_region,
  vmm_identity_map_region, vmm_get_physical,
}
use my_operating_system_open.Vmm.Tables.{translate, IsVmm, Full}
use my_operating_system_open.Vmm.Entries.{physical}
use my_operating_system_open.Vmm.Fill.{entry_at, map_pages-Filled}

-- What a call that maps a region does to the translations.
pub record RegionMapped (s : Vmm) (ds : ℕ → Bool) (dir virt phys size flags : ℕ) (t : Vmm)
    : Type 0 where
  pub valid : IsVmm t ds
  pub inside :
      (a : ℕ)
      → virt / 4096 ≤ a / 4096
      → a / 4096 * 4096 < virt + size
      → (vmm_get_physical t dir a ≡ (
          if flags % 2 == 0 then 0 else (phys / 4096 + (a / 4096 - virt / 4096)) * 4096 + a % 4096))
        ⊎ Full t.pmm × ((t.directories (or_current s dir)).tables (pd_index a) ≡ 0)
  pub outside :
      (d a : ℕ)
      → ds (or_current s d) ≡ true
      → a < 2 ^ 32
      → ((or_current s d ≡ or_current s dir)
            × (virt / 4096 ≤ a / 4096)
            × (a / 4096 * 4096 < virt + size)
          → ⊥)
      → vmm_get_physical t d a ≡ vmm_get_physical s d a
  pub current : t.current_directory ≡ s.current_directory
  pub kernel : t.kernel_directory ≡ s.kernel_directory

translate_at :
    (virt phys flags a : ℕ)
    → phys % 4096 ≡ 0
    → virt % 4096 ≡ 0
    → virt ≤ a
    → translate (entry_at virt phys flags a) a ≡ (if flags % 2 == 0 then 0 else phys + (a - virt))
translate_at virt phys flags a h k l = ground arith

-- The current directory stands for itself.
or_current_twice : (s : Vmm) (dir : ℕ) → or_current s (or_current s dir) ≡ or_current s dir
unfolding or_current
or_current_twice s dir = ground arith

map_pages-RegionMapped :
    (s : Vmm) (ds : ℕ → Bool) (dir virt phys size flags : ℕ)
    → IsVmm s ds
    → ds (or_current s dir) ≡ true
    → virt + size + 4096 ≤ 2 ^ 32
    → phys + size + 8192 ≤ 2 ^ 32
    → let stop = region_end virt size in
      RegionMapped s ds dir virt phys size flags (
        map_pages
          (rounds (page_align virt) stop)
          s
          (or_current s dir)
          (page_align virt)
          (page_align phys)
          stop
          flags)
map_pages-RegionMapped s ds dir virt phys size flags v is small room =
    let stop = region_end virt size in
    let r =
      map_pages-Filled (rounds (page_align virt) stop) s ds (or_current s dir) (page_align virt)
        (page_align phys) stop flags v is (or_current_twice s dir) (omega arith) (omega arith)
        (omega arith) (omega arith) (omega arith) (omega arith) in
    let t =
      map_pages (rounds (page_align virt) stop) s (or_current s dir) (page_align virt)
        (page_align phys) stop flags in
    record {
      valid = r.valid;
      inside = λ a l h. elim (r.inside a (omega arith) (omega arith)) [
        | inl e ↦ inl (
            physical s t dir a r.current
            ∙ ap (λ z. translate z a) e
            ∙ translate_at (page_align virt) (page_align phys) flags a (omega arith) (omega arith)
                (omega arith)
            ∙ ap (λ z. if flags % 2 == 0 then 0 else z) (omega arith))
        | inr e ↦ inr e
      ];
      outside = λ d a id ia ne.
          physical s t d a r.current
          ∙ ap (λ z. translate z a)
              (r.outside (or_current s d) a id ia
                (λ (same, l, h). ne (same, omega arith, omega arith)))
          ∙ sym (physical s s d a refl);
      current = r.current;
      kernel = r.kernel;
    }

-- `vmm_map_region` maps every page from the one of `virt` on that begins before `virt + size` to a frame,
-- consecutive ones from the frame of `phys` on, as long as memory for page tables lasts: an address in these pages
-- is mapped to the same place in its frame (to nothing unless the flags say present), or it has no page table
-- and no page is free. Nothing else is mapped differently, in this or another directory. The region ends 4 kilobytes before the end
-- of the address space, and the frames 8 kilobytes.
pub vmm_map_region-RegionMapped :
    (s : Vmm) (ds : ℕ → Bool) (dir virt phys size flags : ℕ)
    → IsVmm s ds
    → ds (or_current s dir) ≡ true
    → virt + size + 4096 ≤ 2 ^ 32
    → phys + size + 8192 ≤ 2 ^ 32
    → RegionMapped s ds dir virt phys size flags (vmm_map_region s dir virt phys size flags)
unfolding vmm_map_region
vmm_map_region-RegionMapped s ds dir virt phys size flags v is small room =
    map_pages-RegionMapped s ds dir virt phys size flags v is small room

-- `vmm_identity_map_region` is `vmm_map_region` to the same addresses.
pub vmm_identity_map_region-vmm_map_region :
    (s : Vmm) (dir start size flags : ℕ)
    → vmm_identity_map_region s dir start size flags ≡ vmm_map_region s dir start start size flags
unfolding vmm_identity_map_region vmm_map_region
vmm_identity_map_region-vmm_map_region s dir start size flags = refl
