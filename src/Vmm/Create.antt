-- ===== src/Vmm/Create.antt =====
-- A page table that memory/vmm.c creates changes no lookup.
use my_operating_system_open.Prelude.{
  ℕ, refl, sym, ap, inl, inr, Bool, true, false, arith, ◌+◌, ◌/◌, ◌≡◌, ◌∙◌, ◌≢◌, ◌⊎◌, ◌==◌, ==→eq,
  Bool-cases, if_true, if_false, update, update_self, update_ne,
}
use my_operating_system_open.Pmm.{Pmm, pmm_alloc_page}
use my_operating_system_open.Vmm.{
  Vmm, Directory, pd_index, pt_index, page_align, user_flags, create_table, get_page_table,
}
use my_operating_system_open.Vmm.Tables.{
  entry_in, entry_in_zero, entry_in_frame, lookup, IsVmm, Fresh, Full, alloc-Fresh,
}

-- The table of an address was there or was created, in a page that was free.
pub record Table (s : Vmm) (ds : ℕ → Bool) (dir virt pt : ℕ) (t : Vmm) : Type 0 where
  pub valid : IsVmm t ds
  pub here : (t.directories dir).tables (pd_index virt) ≡ pt
  pub non_null : pt ≢ 0
  pub same : (d v : ℕ) → ds d ≡ true → lookup t d v ≡ lookup s d v
  pub current : t.current_directory ≡ s.current_directory
  pub kernel : t.kernel_directory ≡ s.kernel_directory
  pub full : Full s.pmm → (t.pmm ≡ s.pmm) × (t.directories ≡ s.directories)

module _ (s : Vmm) (ds : ℕ → Bool) (v : IsVmm s ds) (dir virt : ℕ) (is_dir : ds dir ≡ true)
    (missing : (s.directories dir).tables (pd_index virt) ≡ 0) (addr : ℕ) (m : Pmm)
    (new : Fresh s.pmm addr m) where
  abbrev created : Vmm
  created =
      let d = s.directories dir in
      record s {
        pmm = m;
        page_tables = update s.page_tables addr (λ _. 0);
        directories = update s.directories dir (record {
          entries = update d.entries (pd_index virt) (page_align addr + user_flags);
          tables = update d.tables (pd_index virt) addr;
        });
      }

  -- The tables: the new one and the ones before.
  tables_after :
      (d i : ℕ)
      → ((d ≡ dir) × (i ≡ pd_index virt) × ((created.directories d).tables i ≡ addr))
        ⊎ ((created.directories d).tables i ≡ (s.directories d).tables i)
  tables_after d i = elim (Bool-cases (d == dir)) [
    | inr e ↦ inr (rw (if_false e) refl)
    | inl e ↦ elim (Bool-cases (i == pd_index virt)) [
      | inr f ↦
          inr
            (rw (if_true e, if_false f) (ap (λ z. (s.directories z).tables i) (sym (==→eq _ _ e))))
      | inl f ↦ inl (==→eq _ _ e, ==→eq _ _ f, rw (if_true e, if_true f) refl)
    ]
  ]

  -- A table that was there is not the new one.
  apart : (d i : ℕ) → ds d ≡ true → (s.directories d).tables i ≢ addr
  apart d i is z = cc (v.in_use d i is, new.marked.was_free, z)

  created-IsVmm : IsVmm created ds
  created-IsVmm = record {
    pages = new.marked.valid;
    small = omega (arith, v.small, new.marked.same_total);
    null_used = new.marked.others 0 (λ z. cc (v.null_used, new.marked.was_free, z)) ∙ v.null_used;
    placed = λ d is.
        new.marked.others (d / 4096) (λ z. cc (v.placed d is, new.marked.was_free, z))
        ∙ v.placed d is;
    aligned = λ d i is. elim (tables_after d i) [
      | inl (_, _, e) ↦ rw e new.aligned
      | inr e ↦ rw e (v.aligned d i is)
    ];
    in_use = λ d i is. elim (tables_after d i) [
      | inl (_, _, e) ↦ rw e new.marked.is_set
      | inr e ↦ rw e (
          new.marked.others ((s.directories d).tables i / 4096)
            (λ z. cc (v.in_use d i is, new.marked.was_free, z))
          ∙ v.in_use d i is)
    ];
    distinct = λ d i e j is is' some_table same. elim (tables_after d i) [
      | inl (d1, i1, w) ↦ elim (tables_after e j) [
        | inl (d2, i2, w') ↦ (d1 ∙ sym d2, i1 ∙ sym i2)
        | inr w' ↦ absurd (apart e j is' (sym w' ∙ sym same ∙ w))
      ]
      | inr w ↦ elim (tables_after e j) [
        | inl (d2, i2, w') ↦ absurd (apart d i is (sym w ∙ same ∙ w'))
        | inr w' ↦ v.distinct d i e j is is' (λ z. some_table (w ∙ z)) (sym w ∙ same ∙ w')
      ]
    ];
  }

  created-lookup : (d a : ℕ) → ds d ≡ true → lookup created d a ≡ lookup s d a
  created-lookup d a is = elim (tables_after d (pd_index a)) [
    | inl (e, f, w) ↦
        let old : (s.directories d).tables (pd_index a) ≡ 0 =
          ap (λ x. (s.directories x).tables (pd_index a)) e
          ∙ ap (s.directories dir).tables f
          ∙ missing in
        ap (λ z. entry_in created.page_tables z (pt_index a)) w
        ∙ entry_in_zero created.page_tables addr (pt_index a)
            (ap (λ (g : ℕ → ℕ). g (pt_index a)) (update_self s.page_tables addr (λ _. 0)))
        ∙ sym (ap (λ z. entry_in s.page_tables z (pt_index a)) old)
    | inr w ↦
        let pt = (s.directories d).tables (pd_index a) in
        ap (λ z. entry_in created.page_tables z (pt_index a)) w
        ∙ entry_in_frame s.page_tables created.page_tables pt (pt_index a) (
            ap (λ (g : ℕ → ℕ). g (pt_index a))
              (update_ne s.page_tables addr (λ _. 0) pt (apart d (pd_index a) is)))
  ]

  created-Table : Table s ds dir virt addr created
  created-Table = record {
    valid = created-IsVmm;
    here =
        ap (λ (x : Directory). x.tables (pd_index virt)) (update_self s.directories dir _)
        ∙ update_self (s.directories dir).tables (pd_index virt) addr;
    non_null = new.non_null;
    same = created-lookup;
    current = refl;
    kernel = refl;
    full = λ f. cc (f (addr / 4096) new.marked.in_range, new.marked.was_free);
  }

-- Memory is full, and an address has no table.
pub record NoTable (s : Vmm) (dir virt pt : ℕ) (t : Vmm) : Type 0 where
  pub null : pt ≡ 0
  pub unchanged : t ≡ s
  pub full : Full s.pmm
  pub missing : (s.directories dir).tables (pd_index virt) ≡ 0

pub get_page_table-Table :
    (s : Vmm) (ds : ℕ → Bool) (dir virt : ℕ)
    → IsVmm s ds
    → ds dir ≡ true
    → let (pt, t) = get_page_table s dir virt true in
      Table s ds dir virt pt t ⊎ NoTable s dir virt pt t
unfolding get_page_table create_table
get_page_table-Table s ds dir virt v is =
    let pt = (s.directories dir).tables (pd_index virt) in
    elim (Bool-cases (pt == 0)) [
      | inr e ↦ rw (if_false e) (
          inl (record {
            valid = v;
            here = refl;
            non_null = ground (arith, e);
            same = λ d a z. refl;
            current = refl;
            kernel = refl;
            full = λ f. (refl, refl);
          }))
      | inl e ↦ rw (if_true e) (elim (alloc-Fresh s.pmm v.pages v.small v.null_used) [
        | inr (null, same, full) ↦ rw (null) (
            inr (record {
              null = refl;
              unchanged = ap (λ (m : Pmm). record s { pmm = m }) same;
              full = full;
              missing = ==→eq _ _ e;
            }))
        | inl new ↦
            let no : ((pmm_alloc_page s.pmm).0 == 0) ≡ false = ground (arith, new.non_null) in
            rw (if_false no) (
              inl (
                created-Table s ds v dir virt is (==→eq _ _ e) (pmm_alloc_page s.pmm).0
                  (pmm_alloc_page s.pmm).1 new))
      ])
    ]
