-- ===== src/Vmm/Adjacent.antt =====
-- When memory/vmm.c finds no two pages for a directory.
use my_operating_system_open.Prelude.{
  ℕ, refl, sym, inl, inr, true, false, arith, ◌+◌, ◌*◌, ◌^◌, ◌≤◌, ◌<◌, ◌≡◌, ◌∙◌, ◌≢◌, ◌⊎◌, ◌==◌,
  ltb, leb, ltb→lt, eq→==, Bool-cases, if_true, if_false, add32, mul32,
}
use my_operating_system_open.Pmm.{Pmm, page_size, pmm_alloc_page}
use my_operating_system_open.Pmm.Alloc.{IsPmm, Marked, is_used, pmm_alloc_page-lowest}
use my_operating_system_open.Vmm.{Vmm, alloc_pages}
use my_operating_system_open.Vmm.Tables.{Full}

-- Every page is used, or the page behind the lowest free one is used or is not there.
abbrev pub NoPair : Pmm → Type 0
NoPair m =
    Full m
    ⊎ ((p : ℕ) × (p < m.total_pages)
        × (is_used m p ≡ false)
        × ((q : ℕ) → q < p → is_used m q ≡ true)
        × ((is_used m (p + 1) ≡ true) ⊎ (m.total_pages ≤ p + 1)))

-- The page that is taken second, if it is not the one behind the first one.
not_behind :
    (m n : Pmm) (p : ℕ)
    → Marked m p n
    → ((q : ℕ) → q < p → is_used m q ≡ true)
    → (r : ℕ) → r ≢ p + 1
    → is_used n r ≡ false
    → ((q : ℕ) → q < r → is_used n q ≡ true)
    → is_used m (p + 1) ≡ true
not_behind m n p w lower r ne free below =
    let apart : r ≢ p = λ e. cc (w.is_set, free, e) in
    let unused : is_used m r ≡ false = sym (w.others r apart) ∙ free in
    let after : p + 1 < r = elim (Bool-cases (ltb r p)) [
      | inl e ↦ absurd (cc (lower r (ltb→lt r p e), unused))
      | inr e ↦ ground (arith, e, apart, ne)
    ] in
    sym (w.others (p + 1) (λ z. absurd (omega arith))) ∙ below (p + 1) after

-- Two pages one behind the other are taken for a directory.
found_pair :
    (s : Vmm) (p r : ℕ)
    → let (a, m) = pmm_alloc_page s.pmm in
      a ≡ mul32 p page_size
      → (pmm_alloc_page m).0 ≡ mul32 r page_size
      → p < s.pmm.total_pages
      → s.pmm.total_pages < 2 ^ 20
      → p ≢ 0
      → r ≡ p + 1
      → ((alloc_pages s).0 ≡ a) × (a ≢ 0)
unfolding alloc_pages
found_pair s p r e f range small positive behind =
    let m = (pmm_alloc_page s.pmm).1 in
    let first : (pmm_alloc_page s.pmm).0 ≡ p * 4096 = omega (arith, e) in
    let some_page : ((pmm_alloc_page s.pmm).0 == 0) ≡ false = ground (arith, first, positive) in
    let second : ((pmm_alloc_page m).0 == add32 (pmm_alloc_page s.pmm).0 page_size) ≡ true =
      eq→== _ _ (omega (arith, f, first, behind)) in
    (rw (if_false some_page, if_true second) refl, λ z. absurd (omega (arith, z, first, positive)))

pub alloc_pages-NoPair :
    (s : Vmm)
    → IsPmm s.pmm
    → s.pmm.total_pages < 2 ^ 20
    → is_used s.pmm 0 ≡ true
    → (alloc_pages s).0 ≡ 0
    → NoPair s.pmm
alloc_pages-NoPair s v small null_used none_found = elim (pmm_alloc_page-lowest s.pmm v) [
  | inr (e, same, full) ↦ inl full
  | inl (p, e, w, lower) ↦
      let m = (pmm_alloc_page s.pmm).1 in
      let range = w.in_range in
      inr (
        p,
        range,
        w.was_free,
        lower,
        elim (pmm_alloc_page-lowest m w.valid) [
          | inr (e', same, full) ↦ elim (Bool-cases (leb s.pmm.total_pages (p + 1))) [
            | inl out ↦ inr (ground (arith, out))
            | inr there ↦ inl (
                sym (w.others (p + 1) (λ z. absurd (omega arith)))
                ∙ full (p + 1) (ground (arith, there, w.same_total)))
          ]
          | inl (r, e', w', lower') ↦ inl (
              not_behind s.pmm m p w lower r
                (λ z.
                  (let (is_it, positive) =
                      found_pair s p r e e' range small (λ i. cc (null_used, w.was_free, i)) z in
                    absurd (positive (sym is_it ∙ none_found))))
                w'.was_free lower')
        ],
      )
]
