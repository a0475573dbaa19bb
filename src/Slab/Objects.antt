-- ===== src/Slab/Objects.antt =====
-- The free list of memory/slab.c.
use mathlib.Core.Path.{subst}
use my_operating_system_open.Prelude.{
  ℕ, refl, sym, ap, Bool, false, List, [], arith, ◌≡◌, ◌∙◌, ◌≢◌, ◌||◌, ◌∷◌, ◌==◌, if_false, update,
  update_self, update_ne,
}
use my_operating_system_open.Slab.{SlabCache, Slabs, slab_alloc, slab_free}

abbrev pub held : ℕ → List ℕ → Bool
held x [] = false
held x (y ∷ ys) = x == y || held x ys

-- The objects of a free list: distinct, and linked through their first words.
abbrev pub FreeList : (ℕ → ℕ) → ℕ → List ℕ → Type 0
FreeList words p [] = p ≡ 0
FreeList words p (x ∷ xs) = (p ≡ x) × (x ≢ 0) × (held x xs ≡ false) × FreeList words (words x) xs

-- Storing in an object outside the list keeps it.
FreeList-update :
    (words : ℕ → ℕ) (p a v : ℕ) (xs : List ℕ)
    → held a xs ≡ false
    → FreeList words p xs
    → FreeList (update words a v) p xs
FreeList-update words p a v [] h w = w
FreeList-update words p a v (x ∷ xs) h w =
    let same = update_ne words a v x (λ z. absurd (ground (arith, h, z))) in
    (w.0, w.1, w.2, rw same (FreeList-update words (words x) a v xs (ground (arith, h)) w.3))

-- `slab_free` puts an object that is not in the free list at its front.
pub slab_free-FreeList :
    (k : Slabs) (s ptr : ℕ) (xs : List ℕ)
    → s ≢ 0
    → ptr ≢ 0
    → held ptr xs ≡ false
    → FreeList k.words (k.caches s).free_list xs
    → let t = slab_free k s ptr in
      FreeList t.words (t.caches s).free_list (ptr ∷ xs) × (t.heap ≡ k.heap)
unfolding slab_free
slab_free-FreeList k s ptr xs some_cache some_ptr out w =
    let c = k.caches s in
    let new : SlabCache = record c { free_list = ptr } in
    let t : Slabs = record k {
      words = update k.words ptr c.free_list;
      caches = update k.caches s new;
    } in
    let same : slab_free k s ptr ≡ t = if_false {b = s == 0 || ptr == 0} (ground arith) _ _ in
    let front : (t.caches s).free_list ≡ ptr =
      ap (λ (z : SlabCache). z.free_list) (update_self k.caches s new) in
    let next : t.words ptr ≡ c.free_list = update_self k.words ptr c.free_list in
    subst (λ (u : Slabs). FreeList u.words (u.caches s).free_list (ptr ∷ xs) × (u.heap ≡ k.heap))
      (sym same)
      (
        (
          front,
          some_ptr,
          out,
          subst (λ z. FreeList t.words z xs) (sym next)
              (FreeList-update k.words c.free_list ptr c.free_list xs out w),
        ),
        refl,
      )

-- `slab_alloc` takes the object at the front, without the heap; the others stay in the list.
pub slab_alloc-FreeList :
    (k : Slabs) (s x : ℕ) (xs : List ℕ)
    → s ≢ 0
    → FreeList k.words (k.caches s).free_list (x ∷ xs)
    → let (r, t) = slab_alloc k s in
      (r ≡ x) × FreeList t.words (t.caches s).free_list xs × (t.heap ≡ k.heap)
unfolding slab_alloc
slab_alloc-FreeList k s x xs some_cache w =
    let c = k.caches s in
    let go : (s == 0) ≡ false = ground arith in
    let more : (c.free_list == 0) ≡ false = ground (arith, w.0, w.1) in
    let new : SlabCache = record c { free_list = k.words c.free_list } in
    let rest : (update k.caches s new s).free_list ≡ k.words x =
      ap (λ (z : SlabCache). z.free_list) (update_self k.caches s new) ∙ ap k.words w.0 in
    rw (if_false go, if_false more) (w.0, subst (λ z. FreeList k.words z xs) (sym rest) w.3, refl)
