-- ===== src/Heap/RoundTrip.antt =====
-- An allocation in memory/heap.c and the free of what it returned leave the blocks as they were.
use mathlib.Core.Path.{subst}
use my_operating_system_open.Prelude.{
  ℕ, refl, sym, ap, inl, inr, true, false, some, List, [], arith, ◌+◌, ◌-◌, ◌*◌, ◌/◌, ◌^◌, ◌≤◌, ◌<◌,
  ◌≡◌, ◌∙◌, ◌&&◌, ◌∷◌, ◌++◌, ltb, leb, Bool-cases, if_true, if_false,
}
use my_operating_system_open.Heap.{Heap, header_size, min_payload, kmalloc, kfree}
use my_operating_system_open.Heap.Blocks.{Block, Separate, IsHeap, after}
use my_operating_system_open.Heap.Separate.{carve, first_fit, joined, freed, Separate-tail}
use my_operating_system_open.Heap.Alloc.{kmalloc-Allocated}
use my_operating_system_open.Heap.Free.{kfree-Freed}

-- Where the first fit stands among the blocks, and what freeing it gives.
record Found (want a : ℕ) (bs : List Block) (r : ℕ) : Type 0 where
  xs : List Block
  c : Block
  ys : List Block
  split : (first_fit want a bs).1 ≡ xs ++ c ∷ ys
  here : r ≡ after a xs + header_size
  undone : freed xs c.size ys ≡ bs
  front : (d : Block) → Separate (d ∷ bs) → freed (d ∷ xs) c.size ys ≡ d ∷ bs

-- A free block keeps its size if a used one follows.
joined_apart :
    (b : Block) (bs : List Block) → b.free ≡ true → Separate (b ∷ bs) → joined b.size bs ≡ b ∷ bs
joined_apart b [] f s = ap (λ z. (record { size = b.size; free = z }) ∷ []) (sym f)
joined_apart b (c ∷ bs) f s =
    let g : c.free ≡ false = ground (arith, f, s.0) in
    rw (if_false g) (ap (λ z. (record { size = b.size; free = z }) ∷ c ∷ bs) (sym f))

-- A block at the front that becomes free again, where the first block was free.
front_Found :
    (want a : ℕ) (b : Block) (bs : List Block) (c : Block) (ys : List Block)
    → b.free ≡ true
    → (first_fit want a (b ∷ bs)).1 ≡ c ∷ ys
    → joined c.size ys ≡ b ∷ bs
    → Found want a (b ∷ bs) (a + header_size)
front_Found want a b bs c ys f split undone = record {
  xs = [];
  c = c;
  ys = ys;
  split = split;
  here = refl;
  undone = undone;
  front = λ d s. rw (if_false {b = d.free} (ground (arith, f, s.0))) (ap (λ k. d ∷ k) undone);
}

-- Some block was carved.
carve-Found :
    (want a : ℕ) (b : Block) (bs : List Block)
    → b.free ≡ true
    → want ≤ b.size
    → Separate (b ∷ bs)
    → (first_fit want a (b ∷ bs)).1 ≡ carve b want bs
    → Found want a (b ∷ bs) (a + header_size)
carve-Found want a b bs f fits s first =
    elim (Bool-cases (ltb b.size (want + header_size + min_payload))) [
      | inl little ↦
          front_Found want a b bs (record b { free = false }) bs f (first ∙ if_true little _ _)
            (joined_apart b bs f s)
      | inr large ↦
          let n : want + header_size + (b.size - want - header_size) ≡ b.size =
            ground (arith, large) in
          front_Found want a b bs (record { size = want; free = false })
            (record { size = b.size - want - header_size; free = true } ∷ bs) f
            (first ∙ if_false large _ _)
            (rw n (ap (λ z. (record { size = b.size; free = z }) ∷ bs) (sym f)))
    ]

-- The first fit, if there is one, stands among the blocks, and freeing it undoes the allocation.
first_fit-Found :
    (want a : ℕ) (bs : List Block) (r : ℕ)
    → Separate bs
    → (first_fit want a bs).0 ≡ some r
    → Found want a bs r
first_fit-Found want a [] r s e = absurd (ground arith)
first_fit-Found want a (b ∷ bs) r s e = elim (Bool-cases (b.free && leb want b.size)) [
  | inl t ↦
      let e1 : some (a + header_size) ≡ some r = rw (if_true t) at e in
      let w =
        carve-Found want a b bs (ground (arith, t)) (ground (arith, t)) s (rw (if_true t) refl) in
      subst (λ k. Found want a (b ∷ bs) k) (ground (arith, e1)) w
  | inr t ↦
      let e1 : (first_fit want (a + header_size + b.size) bs).0 ≡ some r = rw (if_false t) at e in
      let w = first_fit-Found want (a + header_size + b.size) bs r (Separate-tail b bs s) e1 in
      record {
        xs = b ∷ w.xs;
        c = w.c;
        ys = w.ys;
        split = rw (if_false t) (ap (λ z. b ∷ z) w.split);
        here = w.here;
        undone = w.front b s;
        front = λ d z. ap (λ k. d ∷ k) (w.front b s);
      }
]

-- A block that `kmalloc` returns can be freed at once, and then the heap has the blocks it had before:
-- the allocation of `size` bytes returns the payload at `r`, `kfree` of that leaves a heap with the same blocks.
pub kfree-kmalloc :
    (s : Heap) (bs : List Block) (size r : ℕ)
    → IsHeap s bs
    → 0 < size
    → size + 7 < 2 ^ 32
    → (kmalloc s size).0 ≡ some r
    → IsHeap (kfree (kmalloc s size).1 (some r)) bs
kfree-kmalloc s bs size r v pos small e =
    let t = (kmalloc s size).1 in
    let n = (size + 7) / 8 * 8 in
    let w = kmalloc-Allocated s bs size v pos small in
    let u = first_fit-Found n s.base bs r v.separate (sym w.returned ∙ e) in
    let z = kfree-Freed t u.xs u.c u.ys (subst (λ k. IsHeap t k) u.split w.valid) in
    let p : r ≡ after t.base u.xs + header_size =
      u.here ∙ ap (λ k. after k u.xs + header_size) (sym w.arena.0) in
    rw p (subst (λ k. IsHeap (kfree t (some (after t.base u.xs + header_size))) k) u.undone z.valid)
