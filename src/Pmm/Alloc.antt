-- ===== src/Pmm/Alloc.antt =====
-- The invariant of the page allocator of memory/pmm.c, and what its operations do to the set of
-- used pages.
use mathlib.Core.Path.{subst}
use my_operating_system_open.Prelude.{
  ℕ, refl, sym, ap, inl, inr, Bool, true, false, not, arith, ◌+◌, ◌*◌, ◌/◌, ◌^◌, ◌≤◌, ◌<◌, ◌≡◌, ◌∙◌,
  ◌≢◌, ◌⊎◌, ◌&&◌, ◌==◌, ltb, ==→eq, Bool-cases, Option-cases, if_true, if_false, add32, sub32,
  mul32, first_index, first_index-IsFirst, first_index-none,
}
use my_operating_system_open.Pmm.{
  Pmm, page_size, bitmap_size, bitmap_set, bitmap_clear, bitmap_test, count_used, pmm_alloc_page,
  pmm_free_page, pmm_mark_used, pmm_get_stats,
}
use my_operating_system_open.Pmm.Bits.{
  IsBytes, bitmap_test-bitmap_set, bitmap_set-IsBytes, bitmap_test-bitmap_clear,
  bitmap_clear-IsBytes,
}
use my_operating_system_open.Pmm.Count.{count_used_mark, count_used-le}

-- The bitmap covers every page, and the counter is the number of used pages.
pub record IsPmm (s : Pmm) : Type 0 where
  pub bytes : IsBytes s.bitmap
  pub covered : s.total_pages ≤ bitmap_size * 8
  pub counted : s.used_pages ≡ count_used s.total_pages 0 s.bitmap

-- Whether the page frame with number `page` is used.
abbrev pub is_used : Pmm → ℕ → Bool
is_used s page = bitmap_test s.bitmap page

-- One free page became used, and nothing else changed.
pub record Marked (s : Pmm) (page : ℕ) (t : Pmm) : Type 0 where
  pub in_range : page < s.total_pages
  pub was_free : is_used s page ≡ false
  pub is_set : is_used t page ≡ true
  pub others : (q : ℕ) → q ≢ page → is_used t q ≡ is_used s q
  pub one_more : t.used_pages ≡ s.used_pages + 1
  pub same_total : t.total_pages ≡ s.total_pages
  pub valid : IsPmm t

module _ (s : Pmm) (v : IsPmm s) (page : ℕ) (h : page < s.total_pages) where
  set_page :
      is_used s page ≡ false
      → Marked s page
          (record s { bitmap = bitmap_set s.bitmap page; used_pages = add32 s.used_pages 1 })
  set_page off =
      let same =
        λ (q : ℕ). bitmap_test-bitmap_set s.bitmap v.bytes page q (omega (arith, v.covered)) in
      let on : bitmap_test (bitmap_set s.bitmap page) page ≡ true = ground (arith, same page) in
      let others : (q : ℕ)
          → q ≢ page
          → bitmap_test (bitmap_set s.bitmap page) q ≡ bitmap_test s.bitmap q =
        λ q ne. ground (arith, same q) in
      let more =
        count_used_mark s.total_pages 0 s.bitmap (bitmap_set s.bitmap page) page (omega arith)
          (omega arith) off on (λ q ne. sym (others q ne)) in
      let few = count_used-le s.total_pages 0 s.bitmap in
      record {
        in_range = h;
        was_free = off;
        is_set = on;
        others = others;
        one_more = omega (arith, v.counted, v.covered, few);
        same_total = refl;
        valid = record {
          bytes = bitmap_set-IsBytes s.bitmap v.bytes page;
          covered = v.covered;
          counted = omega (arith, v.counted, v.covered, few, more);
        };
      }

-- `pmm_alloc_page` takes the lowest free page: it returns the low 32 bits of its address (0 for the page at 4 GB), and it
-- becomes the one page more that is used. Or every page is used, and it returns NULL and changes nothing.
pub pmm_alloc_page-lowest :
    (s : Pmm)
    → IsPmm s
    → let (addr, t) = pmm_alloc_page s in
      ((page : ℕ) × (addr ≡ mul32 page page_size)
        × Marked s page t
        × ((q : ℕ) → q < page → is_used s q ≡ true))
      ⊎ ((addr ≡ 0) × (t ≡ s) × ((q : ℕ) → q < s.total_pages → is_used s q ≡ true))
unfolding pmm_alloc_page
pmm_alloc_page-lowest s v =
    elim (Option-cases (first_index s.total_pages 0 (λ page. not (bitmap_test s.bitmap page)))) [
      | inl e ↦
          rw (e, pmm_alloc_page)
            (inr (refl, refl, λ q h. ground (arith, first_index-none s.total_pages 0 _ e q)))
      | inr (page, e) ↦
          let f = first_index-IsFirst s.total_pages 0 _ e in
          rw (e, pmm_alloc_page)
            (inl (
              page,
              refl,
              set_page s v page (omega (arith, f.below)) (ground (arith, f.passes)),
              λ q h. ground (arith, f.before q),
            ))
    ]

-- One used page became free, and nothing else changed.
pub record Freed (s : Pmm) (page : ℕ) (t : Pmm) : Type 0 where
  pub is_clear : is_used t page ≡ false
  pub others : (q : ℕ) → q ≢ page → is_used t q ≡ is_used s q
  pub one_less : t.used_pages + 1 ≡ s.used_pages
  pub same_total : t.total_pages ≡ s.total_pages
  pub valid : IsPmm t

clear_page :
    (s : Pmm)
    → IsPmm s
    → (page : ℕ) → page < s.total_pages
    → is_used s page ≡ true
    → Freed s page
        (record s { bitmap = bitmap_clear s.bitmap page; used_pages = sub32 s.used_pages 1 })
clear_page s v page h on =
    let m = bitmap_clear s.bitmap page in
    let same =
      λ (q : ℕ). bitmap_test-bitmap_clear s.bitmap v.bytes page q (omega (arith, v.covered)) in
    let off : bitmap_test m page ≡ false = ground (arith, same page) in
    let others : (q : ℕ) → q ≢ page → bitmap_test m q ≡ bitmap_test s.bitmap q =
      λ q ne. ground (arith, same q) in
    let less =
      count_used_mark s.total_pages 0 m s.bitmap page (omega arith) (omega arith) off on others in
    let few = count_used-le s.total_pages 0 s.bitmap in
    record {
      is_clear = off;
      others = others;
      one_less = omega (arith, v.counted, v.covered, few, less);
      same_total = refl;
      valid = record {
        bytes = bitmap_clear-IsBytes s.bitmap v.bytes page;
        covered = v.covered;
        counted = omega (arith, v.counted, v.covered, few, less);
      };
    }

-- `pmm_free_page` of an address in a used page of the range makes that page free and changes
-- nothing else; of any other address it changes nothing, so a second call does nothing.
pub pmm_free_page-Freed :
    (s : Pmm) (addr : ℕ)
    → IsPmm s
    → let page = addr / page_size in
      ((page < s.total_pages) × (is_used s page ≡ true) × Freed s page (pmm_free_page s addr))
      ⊎ ((s.total_pages ≤ page) ⊎ (is_used s page ≡ false)) × (pmm_free_page s addr ≡ s)
unfolding pmm_free_page
pmm_free_page-Freed s addr v =
    let page = addr / page_size in
    elim (Bool-cases (ltb page s.total_pages && bitmap_test s.bitmap page)) [
      | inl e ↦
          let h : page < s.total_pages = ground arith in
          let on : bitmap_test s.bitmap page ≡ true = ground arith in
          rw (if_true e) (inl (h, on, clear_page s v page h on))
      | inr e ↦ rw (if_false e) (inr (ground arith, refl))
    ]

-- `pmm_mark_used` of an address in a free page of the range makes that page used and changes
-- nothing else; of any other address it changes nothing.
pub pmm_mark_used-Marked :
    (s : Pmm) (addr : ℕ)
    → IsPmm s
    → let page = addr / page_size in
      Marked s page (pmm_mark_used s addr)
      ⊎ ((s.total_pages ≤ page) ⊎ (is_used s page ≡ true)) × (pmm_mark_used s addr ≡ s)
unfolding pmm_mark_used
pmm_mark_used-Marked s addr v =
    let page = addr / page_size in
    elim (Bool-cases (ltb page s.total_pages && not (bitmap_test s.bitmap page))) [
      | inl e ↦ rw (if_true e) (inl (set_page s v page (ground arith) (ground arith)))
      | inr e ↦ rw (if_false e) (inr (ground arith, refl))
    ]

-- Freeing the page that was marked undoes the marking.
free-Marked :
    (s t : Pmm) (page addr : ℕ)
    → Marked s page t
    → page ≡ addr / page_size
    → let u = pmm_free_page t addr in
      ((q : ℕ) → is_used u q ≡ is_used s q) × (u.used_pages ≡ s.used_pages) × IsPmm u
free-Marked s t page addr marked e = elim (pmm_free_page-Freed t addr marked.valid) [
  | inl (lt, on, freed) ↦ (
    λ q. elim (Bool-cases (q == page)) [
      | inl here ↦
          let same : q ≡ page = ==→eq q page here in
          ap (is_used (pmm_free_page t addr)) (same ∙ e)
          ∙ freed.is_clear
          ∙ sym marked.was_free
          ∙ ap (is_used s) (sym same)
      | inr away ↦
          let ne : q ≢ page = ground arith in
          freed.others q (λ k. ne (k ∙ sym e)) ∙ marked.others q ne
    ],
    omega (arith, freed.one_less, marked.one_more),
    freed.valid,
  )
  | inr (inl out, _) ↦ absurd (omega (arith, marked.in_range, marked.same_total))
  | inr (inr off, _) ↦ cc (marked.is_set, off, e)
]

-- In at most 4 GB of memory with a free page, freeing the page that was allocated restores the set
-- of used pages and their number.
pub pmm_free_page-pmm_alloc_page :
    (s : Pmm) (spare : ℕ)
    → IsPmm s
    → s.total_pages ≤ 2 ^ 20
    → spare < s.total_pages
    → is_used s spare ≡ false
    → let (addr, t) = pmm_alloc_page s in
      let u = pmm_free_page t addr in
      ((q : ℕ) → is_used u q ≡ is_used s q) × (u.used_pages ≡ s.used_pages) × IsPmm u
pmm_free_page-pmm_alloc_page s spare v small h free = elim (pmm_alloc_page-lowest s v) [
  | inl (page, e, marked, lower) ↦
      free-Marked s (pmm_alloc_page s).1 page (pmm_alloc_page s).0 marked
        (omega (arith, e, marked.in_range))
  | inr (e, same, full) ↦ absurd (ground (arith, full spare))
]

-- Beyond 4 GB the 32-bit address wraps: once the pages below are used, the page with number 2 ^ 20
-- is marked used, and what is returned is 0, which callers take for NULL.
pub pmm_alloc_page_wraps :
    (s : Pmm)
    → IsPmm s
    → 2 ^ 20 < s.total_pages
    → ((q : ℕ) → q < 2 ^ 20 → is_used s q ≡ true)
    → is_used s (2 ^ 20) ≡ false
    → let (addr, t) = pmm_alloc_page s in (addr ≡ 0) × Marked s (2 ^ 20) t
pmm_alloc_page_wraps s v big low free = elim (pmm_alloc_page-lowest s v) [
  | inl (page, e, marked, lower) ↦
      let at_least : 2 ^ 20 ≤ page = ground (arith, low page) in
      let at_most : page ≤ 2 ^ 20 = ground (arith, lower (2 ^ 20)) in
      let here : page ≡ 2 ^ 20 = omega arith in
      (omega (arith, e), subst (λ p. Marked s p (pmm_alloc_page s).1) here marked)
  | inr (e, same, full) ↦ cc (full (2 ^ 20) big)
]

-- Below 4 GB the statistics are exact: used and free pages make up the total, and each page counts
-- four kilobytes.
pub pmm_get_stats_exact :
    (s : Pmm)
    → IsPmm s
    → s.total_pages < 2 ^ 20
    → let st = pmm_get_stats s in
      (st.used_pages + st.free_pages ≡ st.total_pages)
      × (st.total_memory_kb ≡ 4 * st.total_pages)
      × (st.used_memory_kb ≡ 4 * st.used_pages)
      × (st.free_memory_kb ≡ 4 * st.free_pages)
unfolding pmm_get_stats
pmm_get_stats_exact s v small =
    let few = count_used-le s.total_pages 0 s.bitmap in omega (arith, v.counted, few)

-- From 4 GB on, up to 8 GB, the statistics lose exactly 4 GB of the total memory.
pub pmm_get_stats_wraps :
    (s : Pmm)
    → 2 ^ 20 ≤ s.total_pages
    → s.total_pages < 2 ^ 21
    → (pmm_get_stats s).total_memory_kb + 4 * 2 ^ 20 ≡ 4 * s.total_pages
unfolding pmm_get_stats
pmm_get_stats_wraps s lo hi = omega arith

-- Allocation does not move the end of memory.
pub pmm_alloc_page_top :
    (m : Pmm) → (pmm_alloc_page m).1.max_physical_address ≡ m.max_physical_address
unfolding pmm_alloc_page
pmm_alloc_page_top m =
    elim (Option-cases (first_index m.total_pages 0 (λ page. not (bitmap_test m.bitmap page)))) [
      | inl e ↦ rw (e, pmm_alloc_page) refl
      | inr (page, e) ↦ rw (e, pmm_alloc_page) refl
    ]
