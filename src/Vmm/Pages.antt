-- ===== src/Vmm/Pages.antt =====
-- The pages that memory/vmm.c takes for a directory.
use my_operating_system_open.Prelude.{
  ℕ, refl, sym, ap, inl, inr, Bool, true, false, arith, ◌+◌, ◌/◌, ◌%◌, ◌^◌, ◌≤◌, ◌<◌, ◌≡◌, ◌∙◌, ◌≢◌,
  ◌⊎◌, ◌==◌, Bool-cases, if_true, if_false, add32,
}
use my_operating_system_open.Pmm.{Pmm, page_size, pmm_alloc_page}
use my_operating_system_open.Pmm.Alloc.{IsPmm, Marked, is_used}
use my_operating_system_open.Vmm.{Vmm, alloc_pages}
use my_operating_system_open.Vmm.Tables.{IsVmm, Fresh, alloc-Fresh}

-- One page or two became used.
pub record Grown (m n : Pmm) (pages : ℕ) : Type 0 where
  pub valid : IsPmm n
  pub more : (q : ℕ) → is_used m q ≡ true → is_used n q ≡ true
  pub count : n.used_pages ≡ m.used_pages + pages
  pub total : n.total_pages ≡ m.total_pages

Marked-Grown : (m n : Pmm) (page : ℕ) → Marked m page n → Grown m n 1
Marked-Grown m n page w = record {
  valid = w.valid;
  more = λ q u. w.others q (λ z. cc (u, w.was_free, z)) ∙ u;
  count = w.one_more;
  total = w.same_total;
}

Grown-trans : (m n k : Pmm) (a b : ℕ) → Grown m n a → Grown n k b → Grown m k (a + b)
Grown-trans m n k a b v w = record {
  valid = w.valid;
  more = λ q u. w.more q (v.more q u);
  count = omega (arith, v.count, w.count);
  total = w.total ∙ v.total;
}

-- The pages of a directory were allocated, or not both of them: then those that were are lost.
pub record Pair (s : Vmm) (dir : ℕ) (n : Pmm) : Type 0 where
  pub aligned : dir % 4096 ≡ 0
  pub non_null : dir ≢ 0
  pub grown : Grown s.pmm n 2
  pub first_free : is_used s.pmm (dir / 4096) ≡ false
  pub second_free : is_used s.pmm (dir / 4096 + 1) ≡ false
  pub first : is_used n (dir / 4096) ≡ true
  pub second : is_used n (dir / 4096 + 1) ≡ true
  pub in_range : dir / 4096 < n.total_pages

pub record Lost (s : Vmm) (n : Pmm) : Type 0 where
  pub pages : ℕ
  pub at_most : pages ≤ 2
  pub grown : Grown s.pmm n pages

pair :
    {s : Vmm} {dir p : ℕ} {m n : Pmm}
    → Fresh s.pmm dir m
    → Fresh m p n
    → Grown s.pmm n 2
    → p / 4096 ≡ dir / 4096 + 1
    → Pair s dir n
pair {s = s} {dir = dir} {n = n} a b h e = record {
  aligned = a.aligned;
  non_null = a.non_null;
  grown = h;
  first_free = a.marked.was_free;
  second_free =
      sym (a.marked.others (dir / 4096 + 1) (λ z. absurd (omega arith)))
      ∙ rw (sym e) b.marked.was_free;
  first = b.marked.others (dir / 4096) (λ z. absurd (omega arith)) ∙ a.marked.is_set;
  second = ap (is_used n) (sym e) ∙ b.marked.is_set;
  in_range = omega (arith, a.marked.in_range, h.total);
}

-- Where memory has no page the allocator does not change.
not_Grown : (m n : Pmm) → IsPmm m → n ≡ m → Grown m n 0
not_Grown m n v e = rw e (record { valid = v; more = λ q u. u; count = omega arith; total = refl })

pub alloc_pages-Pair :
    (s : Vmm) (ds : ℕ → Bool)
    → IsVmm s ds
    → s.pmm.total_pages < 2 ^ 20
    → let (dir, t) = alloc_pages s in
      (t ≡ record s { pmm = t.pmm }) × (Pair s dir t.pmm ⊎ (dir ≡ 0) × Lost s t.pmm)
unfolding alloc_pages
alloc_pages-Pair s ds v small = elim (alloc-Fresh s.pmm v.pages v.small v.null_used) [
  | inr (null, same, full) ↦ rw null (
    refl,
    inr (refl, record { pages = 0; at_most = omega arith; grown = not_Grown s.pmm _ v.pages same }),
  )
  | inl a ↦
      let dir = (pmm_alloc_page s.pmm).0 in
      let m = (pmm_alloc_page s.pmm).1 in
      let some_page : (dir == 0) ≡ false = ground (arith, a.non_null) in
      let g = Marked-Grown s.pmm m (dir / 4096) a.marked in
      rw (if_false some_page)
        (elim (alloc-Fresh m a.marked.valid (omega (arith, g.total)) (g.more 0 v.null_used)) [
          | inr (null, same, full) ↦
              let wrong : ((pmm_alloc_page m).0 == add32 dir page_size) ≡ false =
                ground (arith, null, a.marked.in_range, a.aligned) in
              rw (if_false wrong) (
                refl,
                inr (
                  refl,
                  record {
                    pages = 1;
                    at_most = omega arith;
                    grown = Grown-trans s.pmm m _ 1 0 g (not_Grown m _ a.marked.valid same);
                  },
                ),
              )
          | inl b ↦
              let p = (pmm_alloc_page m).0 in
              let n = (pmm_alloc_page m).1 in
              let h = Grown-trans s.pmm m n 1 1 g (Marked-Grown m n (p / 4096) b.marked) in
              elim (Bool-cases (p == add32 dir page_size)) [
                | inr e ↦
                    rw (if_false e)
                      (refl, inr (refl, record { pages = 2; at_most = omega arith; grown = h }))
                | inl e ↦
                    rw (if_true e)
                      (refl, inl (pair a b h (ground (arith, e, a.marked.in_range, a.aligned))))
              ]
        ])
]
