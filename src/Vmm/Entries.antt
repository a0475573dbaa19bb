-- ===== src/Vmm/Entries.antt =====
-- The entries that memory/vmm.c writes, and what they say of addresses.
use my_operating_system_open.Prelude.{
  ℕ, refl, sym, ap, inl, inr, Bool, true, arith, ◌+◌, ◌/◌, ◌%◌, ◌^◌, ◌<◌, ◌≡◌, ◌∙◌, ◌≢◌, ◌==◌,
  if◌then◌else◌, ==→eq, Bool-cases, if_false, update_self, update_ne,
}
use my_operating_system_open.Vmm.{
  Vmm, pd_index, pt_index, page_align, put_entry, or_current, vmm_get_physical,
}
use my_operating_system_open.Vmm.Tables.{
  entry_in, entry_in_frame, lookup, translate, IsVmm, Full, vmm_get_physical-translate,
}
use my_operating_system_open.Vmm.Create.{Table}

-- The entry of one page of the directory `dir` became `pte`, and every other entry stayed.
pub record Entered (s : Vmm) (ds : ℕ → Bool) (dir virt pte : ℕ) (t : Vmm) : Type 0 where
  pub valid : IsVmm t ds
  pub here : lookup t dir virt ≡ pte
  pub others :
      (d a : ℕ)
      → ds d ≡ true
      → a < 2 ^ 32
      → ((d ≡ dir) × (a / 4096 ≡ virt / 4096) → ⊥)
      → lookup t d a ≡ lookup s d a
  pub current : t.current_directory ≡ s.current_directory
  pub kernel : t.kernel_directory ≡ s.kernel_directory
  pub full : Full s.pmm → (t.pmm ≡ s.pmm) × (t.directories ≡ s.directories)

module _ (s : Vmm) (ds : ℕ → Bool) (v : IsVmm s ds) (dir virt : ℕ) (is_dir : ds dir ≡ true)
    (small : virt < 2 ^ 32) (pt : ℕ) (at : (s.directories dir).tables (pd_index virt) ≡ pt)
    (non_null : pt ≢ 0) (pte : ℕ) where
  abbrev t : Vmm
  t = put_entry s pt (pt_index virt) pte

  put_here : lookup t dir virt ≡ pte
  put_here =
      ap (λ z. entry_in t.page_tables z (pt_index virt)) at
      ∙ if_false {b = pt == 0} (ground (arith, non_null)) _ _
      ∙ ap (λ (g : ℕ → ℕ). g (pt_index virt)) (update_self s.page_tables pt _)
      ∙ update_self (s.page_tables pt) (pt_index virt) pte

  put_others :
      (d a : ℕ)
      → ds d ≡ true
      → a < 2 ^ 32
      → ((d ≡ dir) × (a / 4096 ≡ virt / 4096) → ⊥)
      → lookup t d a ≡ lookup s d a
  put_others d a is a_small ne =
      let qt = (s.directories d).tables (pd_index a) in
      entry_in_frame s.page_tables t.page_tables qt (pt_index a) (elim (Bool-cases (qt == pt)) [
        | inr e ↦
            ap (λ (g : ℕ → ℕ). g (pt_index a)) (update_ne s.page_tables pt _ qt (ground (arith, e)))
        | inl e ↦
            let same : qt ≡ pt = ==→eq _ _ e in
            let w =
              v.distinct d (pd_index a) dir (pd_index virt) is is_dir (λ z. non_null (sym same ∙ z))
                (same ∙ sym at) in
            let apart : pt_index a ≢ pt_index virt = λ z. ne (w.0, omega (arith, w.1, z)) in
            ap (λ z. t.page_tables z (pt_index a)) same
            ∙ ap (λ (g : ℕ → ℕ). g (pt_index a)) (update_self s.page_tables pt _)
            ∙ update_ne (s.page_tables pt) (pt_index virt) pte (pt_index a) apart
            ∙ ap (λ z. s.page_tables z (pt_index a)) (sym same)
      ])

  pub put-Entered : Entered s ds dir virt pte t
  put-Entered = record {
    valid = record {
      pages = v.pages;
      small = v.small;
      null_used = v.null_used;
      placed = v.placed;
      aligned = v.aligned;
      in_use = v.in_use;
      distinct = v.distinct;
    };
    here = put_here;
    others = put_others;
    current = refl;
    kernel = refl;
    full = λ f. (refl, refl);
  }

-- The entries decide.
pub or_current_same :
    (s t : Vmm) (d : ℕ)
    → t.current_directory ≡ s.current_directory
    → or_current t d ≡ or_current s d
unfolding or_current
or_current_same s t d e = ap (λ z. if d == 0 then z else d) e

pub physical :
    (s t : Vmm) (d a : ℕ)
    → t.current_directory ≡ s.current_directory
    → vmm_get_physical t d a ≡ translate (lookup t (or_current s d) a) a
physical s t d a e =
    vmm_get_physical-translate t d a
    ∙ ap (λ z. translate (lookup t z a) a) (or_current_same s t d e)

pub same_page : (s : Vmm) (d a b : ℕ) → a / 4096 ≡ b / 4096 → lookup s d a ≡ lookup s d b
same_page s d a b e =
    let p : pd_index a ≡ pd_index b = omega arith in
    let q : pt_index a ≡ pt_index b = omega arith in
    ap (λ i. entry_in s.page_tables ((s.directories d).tables i) (pt_index a)) p
    ∙ ap (λ j. entry_in s.page_tables ((s.directories d).tables (pd_index b)) j) q

pub Entered-others :
    (s t : Vmm) (ds : ℕ → Bool) (dir virt pte : ℕ)
    → Entered s ds (or_current s dir) virt pte t
    → (d a : ℕ) → ds (or_current s d) ≡ true
    → a < 2 ^ 32
    → ((or_current s d ≡ or_current s dir) × (a / 4096 ≡ virt / 4096) → ⊥)
    → vmm_get_physical t d a ≡ vmm_get_physical s d a
Entered-others s t ds dir virt pte w d a is small ne =
    physical s t d a w.current
    ∙ ap (λ z. translate z a) (w.others (or_current s d) a is small ne)
    ∙ sym (physical s s d a refl)

pub Entered-here :
    (s t : Vmm) (ds : ℕ → Bool) (dir virt pte : ℕ)
    → Entered s ds (or_current s dir) virt pte t
    → (a : ℕ) → a / 4096 ≡ virt / 4096
    → vmm_get_physical t dir a ≡ translate pte a
Entered-here s t ds dir virt pte w a e =
    physical s t dir a w.current
    ∙ ap (λ z. translate z a) (same_page t (or_current s dir) a virt e ∙ w.here)

pub translate_new :
    (phys flags a : ℕ)
    → translate (page_align phys + flags % 4096) a
      ≡ (if flags % 2 == 0 then 0 else page_align phys + a % 4096)
translate_new phys flags a = ground arith

-- Entering an entry after a table was found or created.
pub Table-Entered :
    (s t : Vmm) (ds : ℕ → Bool) (dir virt pt pte : ℕ)
    → ds dir ≡ true
    → virt < 2 ^ 32
    → Table s ds dir virt pt t
    → Entered s ds dir virt pte (put_entry t pt (pt_index virt) pte)
Table-Entered s t ds dir virt pt pte is small w =
    let u = put-Entered t ds w.valid dir virt is small pt w.here w.non_null pte in
    record {
      valid = u.valid;
      here = u.here;
      others = λ d a id ia ne. u.others d a id ia ne ∙ w.same d a id;
      current = u.current ∙ w.current;
      kernel = u.kernel ∙ w.kernel;
      full = w.full;
    }
