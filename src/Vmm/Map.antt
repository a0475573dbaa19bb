-- ===== src/Vmm/Map.antt =====
-- `vmm_map_page` and `vmm_unmap_page` of memory/vmm.c change what one page is mapped to.
use my_operating_system_open.Prelude.{
  ℕ, refl, ap, inl, inr, Bool, true, false, arith, ◌+◌, ◌/◌, ◌%◌, ◌^◌, ◌<◌, ◌≡◌, ◌∙◌, ◌⊎◌, ◌==◌,
  if◌then◌else◌, Bool-cases, if_true, if_false,
}
use my_operating_system_open.Vmm.{
  Vmm, pd_index, page_align, get_page_table, or_current, vmm_map_page, vmm_unmap_page,
  vmm_get_physical,
}
use my_operating_system_open.Vmm.Tables.{
  translate, IsVmm, Full, get_page_table_look, vmm_get_physical-translate,
}
use my_operating_system_open.Vmm.Create.{get_page_table-Table}
use my_operating_system_open.Vmm.Entries.{
  Entered, put-Entered, same_page, Entered-others, Entered-here, translate_new, Table-Entered,
}

-- What a call that maps the page of `virt` to the frame of `phys` does to the translations.
pub record PageMapped (s : Vmm) (ds : ℕ → Bool) (dir virt phys flags : ℕ) (t : Vmm) : Type 0 where
  pub valid : IsVmm t ds
  pub here :
      (a : ℕ)
      → a < 2 ^ 32
      → a / 4096 ≡ virt / 4096
      → vmm_get_physical t dir a ≡ (if flags % 2 == 0 then 0 else page_align phys + a % 4096)
  pub others :
      (d a : ℕ)
      → ds (or_current s d) ≡ true
      → a < 2 ^ 32
      → ((or_current s d ≡ or_current s dir) × (a / 4096 ≡ virt / 4096) → ⊥)
      → vmm_get_physical t d a ≡ vmm_get_physical s d a

-- The entry that `vmm_map_page` writes, or that memory is full.
pub vmm_map_page-Entered :
    (s : Vmm) (ds : ℕ → Bool) (dir virt phys flags : ℕ)
    → IsVmm s ds
    → ds (or_current s dir) ≡ true
    → virt < 2 ^ 32
    → let (r, t) = vmm_map_page s dir virt phys flags in
      ((r ≡ 1) × Entered s ds (or_current s dir) virt (page_align phys + flags % 4096) t)
      ⊎ (Full s.pmm
          × ((s.directories (or_current s dir)).tables (pd_index virt) ≡ 0)
          × (r ≡ 0)
          × (t ≡ s))
unfolding vmm_map_page
vmm_map_page-Entered s ds dir virt phys flags v is small =
    elim (get_page_table-Table s ds (or_current s dir) virt v is) [
      | inl w ↦
          let no : ((get_page_table s (or_current s dir) virt true).0 == 0) ≡ false =
            ground (arith, w.non_null) in
          rw (if_false no) (
            inl (
              refl,
              Table-Entered s _ ds (or_current s dir) virt _ (page_align phys + flags % 4096) is
                  small w,
            ))
      | inr w ↦ rw (w.null) (inr (w.full, w.missing, refl, w.unchanged))
    ]

-- `vmm_map_page` maps every address of the page to the same offset in the frame, if the flags say that
-- it is present, and to nothing otherwise; what any other page of this or of another directory is mapped to does
-- not change. It fails, and changes nothing, only if no page is free for the page table that is missing.
-- The tables of all directories stay distinct used pages.
pub vmm_map_page-PageMapped :
    (s : Vmm) (ds : ℕ → Bool) (dir virt phys flags : ℕ)
    → IsVmm s ds
    → ds (or_current s dir) ≡ true
    → virt < 2 ^ 32
    → let (r, t) = vmm_map_page s dir virt phys flags in
      ((r ≡ 1) × PageMapped s ds dir virt phys flags t)
      ⊎ (Full s.pmm
          × ((s.directories (or_current s dir)).tables (pd_index virt) ≡ 0)
          × (r ≡ 0)
          × (t ≡ s))
vmm_map_page-PageMapped s ds dir virt phys flags v is small =
    elim (vmm_map_page-Entered s ds dir virt phys flags v is small) [
      | inr w ↦ inr w
      | inl (r, w) ↦ inl (
        r,
        record {
          valid = w.valid;
          here = λ a ia e. Entered-here s _ ds dir virt _ w a e ∙ translate_new phys flags a;
          others = Entered-others s _ ds dir virt _ w;
        },
      )
    ]

-- What a call that unmaps the page of `virt` does.
pub record PageUnmapped (s : Vmm) (ds : ℕ → Bool) (dir virt : ℕ) (t : Vmm) : Type 0 where
  pub valid : IsVmm t ds
  pub here : (a : ℕ) → a / 4096 ≡ virt / 4096 → vmm_get_physical t dir a ≡ 0
  pub others :
      (d a : ℕ)
      → ds (or_current s d) ≡ true
      → a < 2 ^ 32
      → ((or_current s d ≡ or_current s dir) × (a / 4096 ≡ virt / 4096) → ⊥)
      → vmm_get_physical t d a ≡ vmm_get_physical s d a

-- After `vmm_unmap_page` no address of the page is mapped, whether it was before or not, and what any other page
-- of this or of another directory is mapped to does not change.
pub vmm_unmap_page-PageUnmapped :
    (s : Vmm) (ds : ℕ → Bool) (dir virt : ℕ)
    → IsVmm s ds
    → ds (or_current s dir) ≡ true
    → virt < 2 ^ 32
    → PageUnmapped s ds dir virt (vmm_unmap_page s dir virt)
unfolding vmm_unmap_page
vmm_unmap_page-PageUnmapped s ds dir virt v is small =
    let d = or_current s dir in
    let pt = (s.directories d).tables (pd_index virt) in
    rw (get_page_table_look s d virt) (elim (Bool-cases (pt == 0)) [
      | inl e ↦ rw (if_true e) (record {
        valid = v;
        here = λ a ia.
            vmm_get_physical-translate s dir a
            ∙ ap (λ z. translate z a) (same_page s d a virt ia ∙ if_true e _ _);
        others = λ d a id ia ne. refl;
      })
      | inr e ↦
          let w = put-Entered s ds v d virt is small pt refl (ground (arith, e)) 0 in
          rw (if_false e) (record {
            valid = w.valid;
            here = λ a ia. Entered-here s _ ds dir virt 0 w a ia;
            others = Entered-others s _ ds dir virt 0 w;
          })
    ])
