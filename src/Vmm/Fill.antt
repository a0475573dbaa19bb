-- ===== src/Vmm/Fill.antt =====
-- The loop of memory/vmm.c over the pages of a region.
use mathlib.Core.Path.{subst}
use my_operating_system_open.Prelude.{
  ℕ, zero, suc, refl, sym, ap, inl, inr, Bool, true, arith, ◌+◌, ◌-◌, ◌*◌, ◌/◌, ◌%◌, ◌^◌, ◌≤◌, ◌<◌,
  ◌≡◌, ◌∙◌, ◌⊎◌, ltb, Bool-cases, if_true, if_false, add32,
}
use my_operating_system_open.Vmm.{
  Vmm, Directory, pd_index, page_align, page_size, or_current, vmm_map_page, map_pages,
}
use my_operating_system_open.Vmm.Tables.{lookup, IsVmm, Full}
use my_operating_system_open.Vmm.Map.{vmm_map_page-Entered}
use my_operating_system_open.Vmm.Entries.{Entered, or_current_same, same_page}

-- The entry of `a` where the pages from `virt` on are mapped to the frames from `phys` on.
abbrev pub entry_at : ℕ → ℕ → ℕ → ℕ → ℕ
entry_at virt phys flags a = page_align (phys + (a / 4096 * 4096 - virt)) + flags % 4096

-- The pages from `virt` to `stop` were entered, as far as memory for page tables lasted.
pub record Filled (s : Vmm) (ds : ℕ → Bool) (dir virt phys stop flags : ℕ) (t : Vmm) : Type 0 where
  pub valid : IsVmm t ds
  pub inside :
      (a : ℕ)
      → virt ≤ a
      → a < stop
      → (lookup t dir a ≡ entry_at virt phys flags a)
        ⊎ Full t.pmm × ((t.directories dir).tables (pd_index a) ≡ 0)
  pub outside :
      (d a : ℕ)
      → ds d ≡ true
      → a < 2 ^ 32
      → ((d ≡ dir) × (virt ≤ a) × (a < stop) → ⊥)
      → lookup t d a ≡ lookup s d a
  pub current : t.current_directory ≡ s.current_directory
  pub kernel : t.kernel_directory ≡ s.kernel_directory
  pub full : Full s.pmm → (t.pmm ≡ s.pmm) × (t.directories ≡ s.directories)

-- The first page, and the pages behind it.
add_page :
    (s s1 t : Vmm) (ds : ℕ → Bool) (dir virt phys stop flags : ℕ)
    → ds dir ≡ true
    → virt % 4096 ≡ 0
    → phys % 4096 ≡ 0
    → stop % 4096 ≡ 0
    → virt < stop
    → stop < 2 ^ 32
    → Entered s ds dir virt (page_align phys + flags % 4096) s1
    → Filled s1 ds dir (virt + 4096) (phys + 4096) stop flags t
    → Filled s ds dir virt phys stop flags t
add_page s s1 t ds dir virt phys stop flags is a1 a2 a3 lt small w r = record {
  valid = r.valid;
  inside = λ a l h. elim (Bool-cases (ltb a (virt + 4096))) [
    | inl e ↦
        let page : a / 4096 ≡ virt / 4096 = ground (arith, e) in
        let at : entry_at virt phys flags a ≡ page_align phys + flags % 4096 =
          omega (arith, page) in
        inl (
          r.outside dir a is (omega arith) (λ z. absurd (ground (arith, e, z.1)))
          ∙ same_page s1 dir a virt page
          ∙ w.here
          ∙ sym at)
    | inr e ↦
        let at : entry_at (virt + 4096) (phys + 4096) flags a ≡ entry_at virt phys flags a =
          ground (arith, e) in
        elim (r.inside a (ground (arith, e)) h) [ inl q ↦ inl (q ∙ at) | inr q ↦ inr q ]
  ];
  outside = λ d a id ia ne.
      r.outside d a id ia (λ z. ne (z.0, omega (arith, z.1), z.2))
      ∙ w.others d a id ia (λ z. ne (z.0, omega (arith, z.1), omega (arith, z.1)));
  current = r.current ∙ w.current;
  kernel = r.kernel ∙ w.kernel;
  full = λ f.
      let w' = w.full f in let r' = r.full (subst Full (sym w'.0) f) in (r'.0 ∙ w'.0, r'.1 ∙ w'.1);
}

-- The first page has no table.
skip_page :
    (s t : Vmm) (ds : ℕ → Bool) (dir virt phys stop flags : ℕ)
    → virt % 4096 ≡ 0
    → virt < stop
    → stop < 2 ^ 32
    → Full s.pmm
    → (s.directories dir).tables (pd_index virt) ≡ 0
    → Filled s ds dir (virt + 4096) (phys + 4096) stop flags t
    → Filled s ds dir virt phys stop flags t
skip_page s t ds dir virt phys stop flags a1 lt small full missing r = record {
  valid = r.valid;
  inside = λ a l h. elim (Bool-cases (ltb a (virt + 4096))) [
    | inl e ↦
        let page : pd_index a ≡ pd_index virt = ground (arith, e) in
        let r' = r.full full in
        inr (
          subst Full (sym r'.0) full,
          ap (λ (x : ℕ → Directory). (x dir).tables (pd_index a)) r'.1
              ∙ ap (s.directories dir).tables page
              ∙ missing,
        )
    | inr e ↦
        let at : entry_at (virt + 4096) (phys + 4096) flags a ≡ entry_at virt phys flags a =
          ground (arith, e) in
        elim (r.inside a (ground (arith, e)) h) [ inl q ↦ inl (q ∙ at) | inr q ↦ inr q ]
  ];
  outside = λ d a id ia ne. r.outside d a id ia (λ z. ne (z.0, omega (arith, z.1), z.2));
  current = r.current;
  kernel = r.kernel;
  full = r.full;
}

pub map_pages-Filled :
    (f : ℕ) (s : Vmm) (ds : ℕ → Bool) (dir virt phys stop flags : ℕ)
    → IsVmm s ds
    → ds dir ≡ true
    → or_current s dir ≡ dir
    → virt % 4096 ≡ 0
    → phys % 4096 ≡ 0
    → stop % 4096 ≡ 0
    → stop < 2 ^ 32
    → phys + (stop - virt) < 2 ^ 32
    → (stop - virt) / 4096 < f
    → Filled s ds dir virt phys stop flags (map_pages f s dir virt phys stop flags)
unfolding map_pages
map_pages-Filled zero s ds dir virt phys stop flags v is cur a1 a2 a3 small room fuel =
    absurd (omega arith)
map_pages-Filled (suc f) s ds dir virt phys stop flags v is cur a1 a2 a3 small room fuel =
    elim (Bool-cases (ltb virt stop)) [
      | inr e ↦ rw (if_false e) (record {
        valid = v;
        inside = λ a l h. absurd (ground (arith, e));
        outside = λ d a id ia ne. refl;
        current = refl;
        kernel = refl;
        full = λ z. (refl, refl);
      })
      | inl e ↦
          let lt : virt < stop = ground (arith, e) in
          let s1 = (vmm_map_page s dir virt phys flags).1 in
          let n1 : add32 virt page_size ≡ virt + 4096 = omega arith in
          let n2 : add32 phys page_size ≡ phys + 4096 = omega arith in
          rw (if_true e, n1, n2)
            (elim (vmm_map_page-Entered s ds dir virt phys flags v (rw cur is) (omega arith)) [
              | inl (q, w0) ↦
                  let w =
                    subst (λ d. Entered s ds d virt (page_align phys + flags % 4096) s1) cur w0 in
                  add_page s s1 _ ds dir virt phys stop flags is a1 a2 a3 lt small w (
                    map_pages-Filled f s1 ds dir (virt + 4096) (phys + 4096) stop flags w.valid is
                      (or_current_same s s1 dir w.current ∙ cur) (omega arith) (omega arith) a3
                      small (omega arith) (omega arith))
              | inr (full, missing, q, same) ↦
                  let r =
                    map_pages-Filled f s ds dir (virt + 4096) (phys + 4096) stop flags v is cur
                      (omega arith) (omega arith) a3 small (omega arith) (omega arith) in
                  rw same (
                    skip_page s _ ds dir virt phys stop flags a1 lt small full
                      (subst (λ d. (s.directories d).tables (pd_index virt) ≡ 0) cur missing) r)
            ])
    ]
