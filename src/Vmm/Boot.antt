-- ===== src/Vmm/Boot.antt =====
-- `vmm_init` of memory/vmm.c maps memory to itself.
use mathlib.Core.Path.{subst}
use my_operating_system_open.Prelude.{
  ℕ, min, max, refl, sym, ap, inl, inr, false, arith, ◌+◌, ◌/◌, ◌^◌, ◌<◌, ◌≡◌, ◌∙◌, ◌≢◌, ◌⊎◌, ◌==◌,
  Bool-cases, if_true, if_false, update, add32,
}
use my_operating_system_open.Pmm.Alloc.{is_used, pmm_alloc_page_top}
use my_operating_system_open.Pmm.{pmm_alloc_page, pmm_get_max_address}
use my_operating_system_open.Vmm.{
  Vmm, no_directory, user_flags, pd_index, or_current, alloc_pages, vmm_identity_map_region,
  vmm_get_physical, vmm_switch_directory, vmm_init,
}
use my_operating_system_open.Vmm.Tables.{lookup, translate, vmm_get_physical-translate, IsVmm, Full}
use my_operating_system_open.Vmm.Region.{
  RegionMapped, vmm_map_region-RegionMapped, vmm_identity_map_region-vmm_map_region,
}
use my_operating_system_open.Vmm.Adjacent.{NoPair, alloc_pages-NoPair}
use my_operating_system_open.Vmm.Pages.{alloc_pages-Pair, Pair}
use my_operating_system_open.Vmm.Lifetime.{with_directory, made-IsVmm}

-- The end of what is mapped.
abbrev pub ram_end : Vmm → ℕ
ram_end s = min (max (pmm_get_max_address s.pmm) 0x400000) 0x4000000

-- Paging is set up.
pub record Paging (s t : Vmm) (dir : ℕ) : Type 0 where
  pub valid : IsVmm t (with_directory (λ _. false) dir)
  pub non_null : dir ≢ 0
  pub was_free : (is_used s.pmm (dir / 4096) ≡ false) × (is_used s.pmm (dir / 4096 + 1) ≡ false)
  pub kernel : t.kernel_directory ≡ dir
  pub current : t.current_directory ≡ dir
  pub loaded : t.cr3 ≡ dir
  pub identity :
      (a : ℕ)
      → a < ram_end s
      → (vmm_get_physical t 0 a ≡ a) ⊎ Full t.pmm × ((t.directories dir).tables (pd_index a) ≡ 0)

alloc_pages-max :
    (s : Vmm) → (alloc_pages s).1.pmm.max_physical_address ≡ s.pmm.max_physical_address
unfolding alloc_pages
alloc_pages-max s =
    let (dir, m) = pmm_alloc_page s.pmm in
    let (p, n) = pmm_alloc_page m in
    let both = pmm_alloc_page_top m ∙ pmm_alloc_page_top s.pmm in
    elim (Bool-cases (dir == 0)) [
      | inl e ↦ rw (if_true e) (pmm_alloc_page_top s.pmm)
      | inr e ↦ rw (if_false e) (elim (Bool-cases (p == add32 dir 4096)) [
        | inl f ↦ rw (if_true f) both
        | inr f ↦ rw (if_false f) both
      ])
    ]

ram_end_same :
    (s t : Vmm)
    → t.pmm.total_pages ≡ s.pmm.total_pages
    → t.pmm.max_physical_address ≡ s.pmm.max_physical_address
    → ram_end t ≡ ram_end s
unfolding pmm_get_max_address
ram_end_same s t e f = rw (e, f) refl

module _ (s : Vmm) (v : IsVmm s (λ _. false)) (small : s.pmm.total_pages < 2 ^ 20) (dir : ℕ)
    (s1 : Vmm) (e : s1 ≡ record s { pmm = s1.pmm }) (w : Pair s dir s1.pmm)
    (top : s1.pmm.max_physical_address ≡ s.pmm.max_physical_address) where
  abbrev s2 : Vmm
  s2 = record s1 { kernel_directory = dir; directories = update s1.directories dir no_directory }

  s2-IsVmm : IsVmm s2 (with_directory (λ _. false) dir)
  s2-IsVmm =
      subst
        (λ (k : Vmm).
          IsVmm
            (record k {
              kernel_directory = dir;
              directories = update k.directories dir no_directory;
            })
            (with_directory (λ _. false) dir))
        (sym e)
        (let u = made-IsVmm s (λ _. false) v dir s1.pmm w small in
          record {
            pages = u.pages;
            small = u.small;
            null_used = u.null_used;
            placed = u.placed;
            aligned = u.aligned;
            in_use = u.in_use;
            distinct = u.distinct;
          })

  abbrev s3 : Vmm
  s3 = vmm_identity_map_region s2 dir 0 (ram_end s2) user_flags

  dir_itself : (k : Vmm) → or_current k dir ≡ dir
  unfolding or_current
  dir_itself k = if_false {b = dir == 0} (ground (arith, w.non_null)) _ _

  mapped : RegionMapped s2 (with_directory (λ _. false) dir) dir 0 0 (ram_end s2) user_flags s3
  mapped = rw (vmm_identity_map_region-vmm_map_region s2 dir 0 (ram_end s2) user_flags) (
      vmm_map_region-RegionMapped s2 (with_directory (λ _. false) dir) dir 0 0 (ram_end s2)
        user_flags s2-IsVmm (rw (dir_itself s2) (ground arith)) (omega arith) (omega arith))

  abbrev t : Vmm
  t = record s3 { current_directory = dir; cr3 = dir }

  started : Paging s t dir
  unfolding or_current
  started = record {
    valid = record {
      pages = mapped.valid.pages;
      small = mapped.valid.small;
      null_used = mapped.valid.null_used;
      placed = mapped.valid.placed;
      aligned = mapped.valid.aligned;
      in_use = mapped.valid.in_use;
      distinct = mapped.valid.distinct;
    };
    non_null = w.non_null;
    was_free = (w.first_free, w.second_free);
    kernel = mapped.kernel;
    current = refl;
    loaded = refl;
    identity = λ a l.
        let same : ram_end s2 ≡ ram_end s = ram_end_same s s2 w.grown.total top in
        elim (mapped.inside a (omega arith) (omega (arith, same))) [
          | inr (full, no_table) ↦ inr (
            full,
            subst (λ d. (s3.directories d).tables (pd_index a) ≡ 0) (dir_itself s2) no_table,
          )
          | inl q ↦ inl (
              vmm_get_physical-translate t 0 a
              ∙ sym (
                  vmm_get_physical-translate s3 dir a
                  ∙ ap (λ d. translate (lookup s3 d a) a) (dir_itself s3))
              ∙ q
              ∙ omega arith)
        ];
  }

-- Below 4 GB of memory, `vmm_init` makes a directory current, in two pages that were free, in which every address below the end of memory, of
-- the first 4 MB at least and of the first 64 MB at most, is mapped to itself, or has no page table and no page is
-- free. Or no page is free, or the page behind the lowest free one is used or not there: then the current directory and CR3
-- stay.
pub vmm_init-Paging :
    (s : Vmm)
    → IsVmm s (λ _. false)
    → s.pmm.total_pages < 2 ^ 20
    → let t = vmm_init s in
      ((dir : ℕ) × Paging s t dir)
      ⊎ (NoPair s.pmm × (t.current_directory ≡ s.current_directory) × (t.cr3 ≡ s.cr3))
unfolding vmm_init vmm_switch_directory
vmm_init-Paging s v small =
    let (e, r) = alloc_pages-Pair s (λ _. false) v small in
    let dir = (alloc_pages s).0 in
    elim r [
      | inr (null, lost) ↦ rw (null) (
          inr (
            alloc_pages-NoPair s v.pages small v.null_used null,
            ap (λ (k : Vmm). k.current_directory) e,
            ap (λ (k : Vmm). k.cr3) e,
          ))
      | inl w ↦
          let no_null : (dir == 0) ≡ false = ground (arith, w.non_null) in
          rw (if_false no_null, if_false no_null)
            (inl (dir, started s v small dir _ e w (alloc_pages-max s)))
    ]
