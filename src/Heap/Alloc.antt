-- ===== src/Heap/Alloc.antt =====
-- Allocation in memory/heap.c takes the first block that is large enough.
use mathlib.Core.Path.{subst}
use my_operating_system_open.Prelude.{
  ℕ, zero, suc, refl, sym, ap, inl, inr, true, false, Option, none, some, List, [], arith, ◌+◌, ◌-◌,
  ◌*◌, ◌/◌, ◌^◌, ◌≤◌, ◌<◌, ◌≡◌, ◌∙◌, ◌&&◌, ◌∷◌, ◌==◌, ltb, leb, Bool-cases, if_true, if_false,
  length, update, update_self, update_ne, add32, sub32,
}
use my_operating_system_open.Heap.{
  Header, Heap, header_size, min_payload, put_header, set_prev, block_split, take_block, find_block,
  kmalloc, kmalloc_aligned, built, heap_align, heap_build_freelist,
}
use my_operating_system_open.Heap.Blocks.{
  Block, Describes, Blocks, Blocks-frame, Blocks-le, set_prev-Blocks, set_prev_below, set_prev_rest,
  IsHeap, Describes-same, Changed, IsHeap-Changed,
}
use my_operating_system_open.Heap.Separate.{carve, first_fit, first_fit-Separate}

module _ (s : Heap) (a want : ℕ) (b : Block) (bs : List Block) (prev : Option ℕ) (e : ℕ)
    (v : Blocks s.headers prev (some a) a (b ∷ bs) e) (small : e + 32 ≤ 2 ^ 32)
    (fits : want ≤ b.size) where
  abbrev h : Header
  h = s.headers a

  top : a + header_size + b.size ≤ e
  top =
      omega
        (arith, Blocks-le s.headers bs (some a) (s.headers a).next (a + header_size + b.size) e v.2)

  -- The last step of both cases: the header at `a` is written.
  mark :
      (t : Heap) (new : Header) (c : Block) (cs : List Block)
      → Describes (update t.headers a new) prev a c
      → Blocks t.headers (some a) new.next (a + header_size + c.size) cs e
      → ((j : ℕ) → j < a → t.headers j ≡ s.headers j)
      → t ≡ record s { headers = t.headers }
      → Changed s (put_header t a new) prev (some a) a (c ∷ cs) e
  mark t new c cs d w below rest =
      let here = update_self t.headers a new in
      record {
        blocks = (
          refl,
          d,
          rw (ap (λ (x : Header). x.next) here) (
              Blocks-frame t.headers (update t.headers a new) cs (some a) new.next
                (a + header_size + c.size) e
                (λ j l. update_ne t.headers a new j (λ z. absurd (omega arith))) w),
        );
        below = λ j l. update_ne t.headers a new j (λ z. absurd (omega arith)) ∙ below j l;
        rest = ap (λ (k : Heap). put_header k a new) rest;
      }

  -- What the header says once it is written.
  written :
      (t : Heap) (new : Header) (c : Block)
      → new.size ≡ c.size
      → new.free ≡ c.free
      → new.prev ≡ prev
      → Describes (update t.headers a new) prev a c
  written t new c n f p =
      let here = update_self t.headers a new in
      record {
        size = ap (λ (x : Header). x.size) here ∙ n;
        free = ap (λ (x : Header). x.free) here ∙ f;
        back = ap (λ (x : Header). x.prev) here ∙ p;
      }

  whole_block :
      ltb b.size (want + header_size + min_payload) ≡ true
      → Changed s (take_block s a want) prev (some a) a (record b { free = false } ∷ bs) e
  unfolding take_block block_split
  whole_block little =
      let same : ltb h.size (add32 (add32 want header_size) min_payload) ≡ true =
        ground (arith, v.1.size, top) in
      rw (if_true same) (
        mark s (record h { free = false }) (record b { free = false }) bs
          (written s (record h { free = false }) (record b { free = false }) v.1.size refl v.1.back)
          v.2 (λ j l. refl) refl)

  -- The address of the rest, and its header.
  abbrev r : ℕ
  r = a + header_size + want

  abbrev left : Header
  left = record { size = b.size - want - header_size; free = true; next = h.next; prev = some a }

  abbrev rest_list : List Block
  rest_list = record { size = b.size - want - header_size; free = true } ∷ bs

  abbrev s1 : Heap
  s1 = put_header s r left

  abbrev s2 : Heap
  s2 = set_prev s1 h.next (some r)

  module _ (large : ltb b.size (want + header_size + min_payload) ≡ false) where
    room : r + 32 ≤ a + header_size + b.size
    room = ground (arith, large)

    tail1 : Blocks s1.headers (some a) h.next (a + header_size + b.size) bs e
    tail1 =
        Blocks-frame s.headers s1.headers bs (some a) h.next (a + header_size + b.size) e
          (λ j l. update_ne s.headers r left j (λ z. absurd (omega (arith, room)))) v.2

    tail2 : Blocks s2.headers (some r) h.next (a + header_size + b.size) bs e
    tail2 = set_prev-Blocks s1 bs (some a) h.next (some r) (a + header_size + b.size) e tail1

    low2 : (j : ℕ) → j < a + header_size + b.size → s2.headers j ≡ s1.headers j
    low2 = set_prev_below s1 bs (some a) h.next (some r) (a + header_size + b.size) e tail1

    at_rest : s2.headers r ≡ left
    at_rest = low2 r (omega (arith, room)) ∙ update_self s.headers r left

    at_front : s2.headers a ≡ h
    at_front = low2 a (omega arith) ∙ update_ne s.headers r left a (λ z. absurd (omega arith))

    rest-Blocks :
        Blocks s2.headers
          (some a)
          (some r)
          (a + header_size + want)
          (record { size = b.size - want - header_size; free = true } ∷ bs)
          e
    rest-Blocks =
        let next : (s2.headers r).next ≡ h.next = ap (λ (x : Header). x.next) at_rest in
        let end : r + header_size + (b.size - want - header_size) ≡ a + header_size + b.size =
          omega (arith, room) in
        (
          refl,
          record {
            size = ap (λ (x : Header). x.size) at_rest;
            free = ap (λ (x : Header). x.free) at_rest;
            back = ap (λ (x : Header). x.prev) at_rest;
          },
          rw (next, end) tail2,
        )

    split_block :
        Changed s
          (take_block s a want)
          prev
          (some a)
          a
          (record { size = want; free = false }
            ∷ record { size = b.size - want - header_size; free = true }
            ∷ bs)
          e
    unfolding take_block block_split
    split_block =
        let front = record (s2.headers a) { size = want; next = some r } in
        let t = put_header s2 a front in
        let here = update_self s2.headers a front in
        let new = record (t.headers a) { free = false } in
        let no : ltb h.size (add32 (add32 want header_size) min_payload) ≡ false =
          ground (arith, v.1.size, top, room) in
        let at : add32 (add32 a header_size) want ≡ r = omega (arith, top, room) in
        let size : sub32 (sub32 h.size want) header_size ≡ b.size - want - header_size =
          omega (arith, v.1.size, top, room) in
        rw (if_false no, at, size)
          (mark t new (record { size = want; free = false })
            (record { size = b.size - want - header_size; free = true } ∷ bs)
            (written t new (record { size = want; free = false }) (ap (λ (x : Header). x.size) here)
              refl
              (ap (λ (x : Header). x.prev) here ∙ ap (λ (x : Header). x.prev) at_front ∙ v.1.back))
            (subst (λ p. Blocks t.headers (some a) p (a + header_size + want) rest_list e)
              (sym (ap (λ (x : Header). x.next) here))
              (Blocks-frame s2.headers t.headers rest_list (some a) (some r)
                (a + header_size + want) e
                (λ j l. update_ne s2.headers a front j (λ z. absurd (omega arith))) rest-Blocks))
            (λ j l.
              update_ne s2.headers a front j (λ z. absurd (omega arith))
              ∙ low2 j (omega arith)
              ∙ update_ne s.headers r left j (λ z. absurd (omega arith)))
            (ap (λ (k : Heap). put_header k a front) (set_prev_rest s1 h.next (some r))))

  take_block-Changed : Changed s (take_block s a want) prev (some a) a (carve b want bs) e
  take_block-Changed = elim (Bool-cases (ltb b.size (want + header_size + min_payload))) [
    | inl little ↦ rw (if_true little) (whole_block little)
    | inr large ↦ rw (if_false large) (split_block large)
  ]

-- The loop finds the first fit.
find_block-Changed :
    (bs : List Block) (f : ℕ) (s : Heap) (want : ℕ) (prev p : Option ℕ) (a e : ℕ)
    → Blocks s.headers prev p a bs e
    → e + 32 ≤ 2 ^ 32
    → length bs < f
    → let (r, t) = find_block f s want p in
      (r ≡ (first_fit want a bs).0) × Changed s t prev p a (first_fit want a bs).1 e
unfolding find_block
find_block-Changed bs zero s want prev p a e v small h = absurd (omega arith)
find_block-Changed [] (suc f) s want prev p a e v small h =
    rw (v.0, find_block) (refl, record { blocks = (refl, v.1); below = λ j l. refl; rest = refl })
find_block-Changed (b ∷ bs) (suc f) s want prev p a e v small h =
    subst
      (λ z.
        let (r, t) = find_block (suc f) s want z in
        (r ≡ (first_fit want a (b ∷ bs)).0) × Changed s t prev z a (first_fit want a (b ∷ bs)).1 e)
      (sym v.0)
      (elim (Bool-cases (b.free && leb want b.size)) [
        | inl e1 ↦
            let same : ((s.headers a).free && leb want (s.headers a).size) ≡ true =
              rw (v.1.size, v.1.free) e1 in
            let top =
              Blocks-le s.headers bs (some a) (s.headers a).next (a + header_size + b.size) e v.2 in
            let addr : add32 a header_size ≡ a + header_size = omega (arith, top) in
            rw (if_true same, if_true e1, addr)
              (
                refl,
                take_block-Changed s a want b bs prev e (refl, v.1, v.2) small (ground (arith, e1)),
              )
        | inr e1 ↦
            let same : ((s.headers a).free && leb want (s.headers a).size) ≡ false =
              rw (v.1.size, v.1.free) e1 in
            let (q, w) =
              find_block-Changed bs f s want (some a) (s.headers a).next (a + header_size + b.size)
                e v.2 small (omega arith) in
            let here = w.below a (omega arith) in
            rw (if_false same, if_false e1)
              (
                q,
                record {
                  blocks = (
                    refl,
                    Describes-same s.headers _ prev a b here v.1,
                    rw (ap (λ (x : Header). x.next) here) w.blocks,
                  );
                  below = λ j l. w.below j (omega arith);
                  rest = w.rest;
                },
              )
      ])

-- What an allocation of `want` bytes makes of a heap with the blocks `bs`.
pub record Allocated (s : Heap) (bs : List Block) (want : ℕ) (r : Option ℕ) (t : Heap)
    : Type 0 where
  pub returned : r ≡ (first_fit want s.base bs).0
  pub valid : IsHeap t (first_fit want s.base bs).1
  pub arena : (t.base ≡ s.base) × (t.size ≡ s.size)

-- A heap with blocks was built.
pub built_same : (s : Heap) (bs : List Block) → IsHeap s bs → built s ≡ s
unfolding built
built_same s [] v = absurd (omega (arith, v.tiled.1, v.some_arena))
built_same s (b ∷ bs) v =
    ap {A = Option ℕ} (λ p. elim p [ none ↦ heap_build_freelist s | some _ ↦ s ]) v.tiled.0

-- `kmalloc` of `size` bytes, where `size` is not 0 and `size + 7` is below 2^32: the payload of the first free block that holds the size rounded up to a
-- multiple of 8, which is split if the rest is large enough for a block; NULL and no change if there
-- is none. The blocks still tile the arena, and no two free ones are next to each other.
pub kmalloc-Allocated :
    (s : Heap) (bs : List Block) (size : ℕ)
    → IsHeap s bs
    → 0 < size
    → size + 7 < 2 ^ 32
    → let (r, t) = kmalloc s size in Allocated s bs ((size + 7) / 8 * 8) r t
unfolding kmalloc kmalloc_aligned
kmalloc-Allocated s bs size v pos small =
    let n = (size + 7) / 8 * 8 in
    let zero : (size == 0) ≡ false = ground arith in
    let want : heap_align size 8 ≡ n = omega arith in
    let few : length bs < s.size + 1 =
      omega (arith, Blocks-le s.headers bs none s.head s.base (s.base + s.size) v.tiled) in
    let (q, w) =
      find_block-Changed bs (s.size + 1) s n none s.head s.base (s.base + s.size) v.tiled v.small
        few in
    rw (built_same s bs v, if_false zero, want)
      (record {
        returned = q;
        valid = IsHeap-Changed s _ bs _ v w (first_fit-Separate n s.base bs v.separate);
        arena = (ap (λ (k : Heap). k.base) w.rest, ap (λ (k : Heap). k.size) w.rest);
      })
