-- ===== src/Vmm/Lifetime.antt =====
-- The page directories of memory/vmm.c are made from two pages, and one of them is given back.
use mathlib.Core.Path.{subst}
use my_operating_system_open.Prelude.{
  ℕ, zero, suc, refl, sym, ap, inl, inr, Bool, true, false, arith, ◌+◌, ◌/◌, ◌%◌, ◌^◌, ◌≤◌, ◌<◌,
  ◌≡◌, ◌∙◌, ◌≢◌, ◌⊎◌, ◌||◌, ◌==◌, ==→eq, Bool-cases, if_true, if_false, update, update_self,
  update_ne,
}
use my_operating_system_open.Pmm.{Pmm, pmm_free_page}
use my_operating_system_open.Pmm.Alloc.{is_used, pmm_free_page-Freed}
use my_operating_system_open.Vmm.{
  Vmm, Directory, no_directory, pd_index, pt_index, entries_per_table, alloc_pages,
  vmm_create_directory, free_tables, vmm_destroy_directory,
}
use my_operating_system_open.Vmm.Tables.{entry_in, lookup, IsVmm}
use my_operating_system_open.Vmm.Pages.{Pair, Lost, alloc_pages-Pair}

-- A directory more.
abbrev pub with_directory : (ℕ → Bool) → ℕ → ℕ → Bool
with_directory ds dir d = (d == dir) || ds d

-- What `vmm_create_directory` makes of the memory.
pub record Created (s : Vmm) (ds : ℕ → Bool) (dir : ℕ) (t : Vmm) : Type 0 where
  pub valid : IsVmm t (with_directory ds dir)
  pub empty : (a : ℕ) → lookup t dir a ≡ 0
  pub same : (d a : ℕ) → ds d ≡ true → lookup t d a ≡ lookup s d a
  pub aligned : dir % 4096 ≡ 0
  pub first_free : is_used s.pmm (dir / 4096) ≡ false
  pub second_free : is_used s.pmm (dir / 4096 + 1) ≡ false
  pub cleared : t.directories dir ≡ no_directory
  pub first : is_used t.pmm (dir / 4096) ≡ true
  pub second : is_used t.pmm (dir / 4096 + 1) ≡ true
  pub in_range : dir / 4096 < t.pmm.total_pages
  pub two_more : t.pmm.used_pages ≡ s.pmm.used_pages + 2

-- Freeing the tables of a directory with none.
free_tables_none : (k : ℕ) (m : Pmm) → free_tables k m no_directory.tables ≡ m
unfolding free_tables
free_tables_none zero m = refl
free_tables_none (suc k) m = free_tables_none k m

module _ (s : Vmm) (ds : ℕ → Bool) (v : IsVmm s ds) (dir : ℕ) (n : Pmm) (w : Pair s dir n) where
  abbrev made : Vmm
  made = record s { pmm = n; directories = update s.directories dir no_directory }

  -- A directory that was there is another one.
  other : (d : ℕ) → ds d ≡ true → d ≢ dir
  other d is z = cc (v.placed d is, w.first_free, z)

  -- The tables of a directory: none in the new one.
  tables_of :
      (d i : ℕ)
      → with_directory ds dir d ≡ true
      → ((d ≡ dir) × ((made.directories d).tables i ≡ 0))
        ⊎ ((ds d ≡ true) × ((made.directories d).tables i ≡ (s.directories d).tables i))
  tables_of d i is = elim (Bool-cases (d == dir)) [
    | inl e ↦ inl (==→eq _ _ e, rw (if_true e) refl)
    | inr e ↦ inr (ground (arith, is, e), rw (if_false e) refl)
  ]

  pub made-IsVmm : s.pmm.total_pages < 2 ^ 20 → IsVmm made (with_directory ds dir)
  made-IsVmm small = record {
    pages = w.grown.valid;
    small = omega (arith, w.grown.total);
    null_used = w.grown.more 0 v.null_used;
    placed = λ d is. elim (tables_of d 0 is) [
      | inl (e, _) ↦ ap (λ z. is_used n (z / 4096)) e ∙ w.first
      | inr (is', _) ↦ w.grown.more (d / 4096) (v.placed d is')
    ];
    aligned = λ d i is. elim (tables_of d i is) [
      | inl (_, e) ↦ ap (λ z. z % 4096) e
      | inr (is', e) ↦ ap (λ z. z % 4096) e ∙ v.aligned d i is'
    ];
    in_use = λ d i is. elim (tables_of d i is) [
      | inl (_, e) ↦ ap (λ z. is_used n (z / 4096)) e ∙ w.grown.more 0 v.null_used
      | inr (is', e) ↦ ap (λ z. is_used n (z / 4096)) e ∙ w.grown.more _ (v.in_use d i is')
    ];
    distinct = λ d i e j is is' some_table same. elim (tables_of d i is) [
      | inl (_, x) ↦ absurd (some_table x)
      | inr (is1, x) ↦ elim (tables_of e j is') [
        | inl (_, y) ↦ absurd (some_table (same ∙ y))
        | inr (is2, y) ↦ v.distinct d i e j is1 is2 (λ z. some_table (x ∙ z)) (sym x ∙ same ∙ y)
      ]
    ];
  }

  made-Created : s.pmm.total_pages < 2 ^ 20 → Created s ds dir made
  made-Created small = record {
    valid = made-IsVmm small;
    empty = λ a.
        ap (λ (x : Directory). entry_in s.page_tables (x.tables (pd_index a)) (pt_index a))
          (update_self s.directories dir no_directory);
    same = λ d a is.
        ap (λ (x : Directory). entry_in s.page_tables (x.tables (pd_index a)) (pt_index a))
          (update_ne s.directories dir no_directory d (other d is));
    aligned = w.aligned;
    first_free = w.first_free;
    second_free = w.second_free;
    cleared = update_self s.directories dir no_directory;
    first = w.first;
    second = w.second;
    in_range = w.in_range;
    two_more = w.grown.count;
  }

-- No directory was made, and at most two pages are lost.
pub record NotCreated (s : Vmm) (ds : ℕ → Bool) (t : Vmm) : Type 0 where
  pub valid : IsVmm t ds
  pub same : (d a : ℕ) → lookup t d a ≡ lookup s d a
  pub lost : t.pmm.used_pages ≤ s.pmm.used_pages + 2

Lost-NotCreated :
    (s : Vmm) (ds : ℕ → Bool) (n : Pmm)
    → IsVmm s ds
    → Lost s n
    → NotCreated s ds (record s { pmm = n })
Lost-NotCreated s ds n v w = record {
  valid = record {
    pages = w.grown.valid;
    small = omega (arith, w.grown.total, v.small);
    null_used = w.grown.more 0 v.null_used;
    placed = λ d is. w.grown.more _ (v.placed d is);
    aligned = v.aligned;
    in_use = λ d i is. w.grown.more _ (v.in_use d i is);
    distinct = v.distinct;
  };
  same = λ d a. refl;
  lost = omega (arith, w.grown.count, w.at_most);
}

-- Below 4 GB of memory, `vmm_create_directory` returns a new directory, in two pages that were free, which maps
-- nothing, and what the other directories map does not change; or it returns NULL, having taken two pages
-- at most, and no directory changes.
pub vmm_create_directory-Created :
    (s : Vmm) (ds : ℕ → Bool)
    → IsVmm s ds
    → s.pmm.total_pages < 2 ^ 20
    → let (dir, t) = vmm_create_directory s in
      ((dir ≢ 0) × Created s ds dir t) ⊎ ((dir ≡ 0) × NotCreated s ds t)
unfolding vmm_create_directory
vmm_create_directory-Created s ds v small =
    let (e, r) = alloc_pages-Pair s ds v small in
    let dir = (alloc_pages s).0 in
    elim r [
      | inr (null, lost) ↦
          rw (null)
            (inr (refl, subst (λ k. NotCreated s ds k) (sym e) (Lost-NotCreated s ds _ v lost)))
      | inl w ↦
          let some_page : (dir == 0) ≡ false = ground (arith, w.non_null) in
          rw (if_false some_page) (
            inl (
              w.non_null,
              subst
                  (λ k.
                    Created s ds dir
                      (record k { directories = update k.directories dir no_directory }))
                  (sym e) (made-Created s ds v dir _ w small),
            ))
    ]

-- Destroying a directory with no tables only gives back its first page.
destroy_empty :
    (t : Vmm) (dir : ℕ)
    → dir ≢ 0
    → (t.directories dir) ≡ no_directory
    → (vmm_destroy_directory t dir).pmm ≡ pmm_free_page t.pmm dir
unfolding vmm_destroy_directory
destroy_empty t dir some_page e =
    let no_null : (dir == 0) ≡ false = ground (arith, some_page) in
    rw (if_false no_null, e, free_tables_none entries_per_table t.pmm) refl

-- A directory takes two pages, and `vmm_destroy_directory` frees one of them: a directory that is created and
-- destroyed leaves the number of used pages larger by one, since its second page stays in use.
pub vmm_destroy_directory-vmm_create_directory :
    (s : Vmm) (ds : ℕ → Bool)
    → IsVmm s ds
    → s.pmm.total_pages < 2 ^ 20
    → (vmm_create_directory s).0 ≢ 0
    → let (dir, t) = vmm_create_directory s in
      let u = vmm_destroy_directory t dir in
      (u.pmm.used_pages ≡ s.pmm.used_pages + 1)
      × (is_used u.pmm (dir / 4096) ≡ false)
      × (is_used s.pmm (dir / 4096 + 1) ≡ false)
      × (is_used u.pmm (dir / 4096 + 1) ≡ true)
vmm_destroy_directory-vmm_create_directory s ds v small some_dir =
    let (dir, t) = vmm_create_directory s in
    elim (vmm_create_directory-Created s ds v small) [
      | inr (null, _) ↦ absurd (some_dir null)
      | inl (_, w) ↦
          rw (destroy_empty t dir some_dir w.cleared)
            (elim (pmm_free_page-Freed t.pmm dir w.valid.pages) [
              | inr (inl out, _) ↦ absurd (omega (arith, w.in_range))
              | inr (inr off, _) ↦ cc (off, w.first)
              | inl (_, _, f) ↦ (
                omega (arith, f.one_less, w.two_more),
                f.is_clear,
                w.second_free,
                f.others (dir / 4096 + 1) (λ z. absurd (omega arith)) ∙ w.second,
              )
            ])
    ]
