-- ===== src/Heap/Stats.antt =====
-- The first block list and the walk of `heap_get_stats` in memory/heap.c.
use my_operating_system_open.Prelude.{
  ℕ, zero, suc, refl, ap, inl, inr, true, Option, none, some, List, [], arith, ◌+◌, ◌-◌, ◌*◌, ◌^◌,
  ◌≤◌, ◌<◌, ◌≡◌, ◌∙◌, ◌∷◌, if◌then◌else◌, leb, Bool-cases, if_true, if_false, length, update_self,
  add32, sub32,
}
use my_operating_system_open.Heap.{
  Header, Heap, HeapStats, header_size, min_payload, default_heap_size, heap_build_freelist,
  heap_init, add_stats, heap_get_stats,
}
use my_operating_system_open.Heap.Blocks.{Block, Blocks, IsHeap}

-- The list that is built is one free block.
built-IsHeap :
    (s : Heap)
    → 16 ≤ s.size
    → s.base + s.size + 32 ≤ 2 ^ 32
    → IsHeap (heap_build_freelist s) (record { size = s.size - 16; free = true } ∷ [])
unfolding heap_build_freelist
built-IsHeap s big small =
    let new : Header = record {
      size = sub32 s.size header_size;
      free = true;
      next = none;
      prev = none;
    } in
    let here = update_self s.headers s.base new in
    let size : sub32 s.size header_size ≡ s.size - 16 = omega (arith, small) in
    record {
      tiled = (
        refl,
        record {
          size = ap (λ (h : Header). h.size) here ∙ size;
          free = ap (λ (h : Header). h.free) here;
          back = ap (λ (h : Header). h.prev) here;
        },
        (ap (λ (h : Header). h.next) here, omega arith),
      );
      small = small;
      separate = tt;
      some_arena = omega arith;
    }

-- The arena that `heap_init` is given, or the static one where it is given none or one that is too small.
abbrev pub arena : ℕ → Option ℕ → ℕ → ℕ × ℕ
arena default_heap none size = (default_heap, default_heap_size)
arena default_heap (some start) size =
    if leb size (header_size + min_payload)
    then (default_heap, default_heap_size)
    else (start, size)

-- `heap_init` leaves one free block that fills the arena, if that ends 32 bytes before the end of the
-- address space.
pub heap_init-IsHeap :
    (default_heap : ℕ) (s : Heap) (start : Option ℕ) (size : ℕ)
    → let (b, n) = arena default_heap start size in
      b + n + 32 ≤ 2 ^ 32
      → IsHeap
          (heap_init default_heap s start size)
          (record { size = (arena default_heap start size).1 - 16; free = true } ∷ [])
unfolding heap_init
heap_init-IsHeap d s none size small =
    built-IsHeap (record s { base = d; size = default_heap_size }) (omega arith) small
heap_init-IsHeap d s (some start) size small =
    elim (Bool-cases (leb size (header_size + min_payload))) [
      | inl e ↦
          rw (if_true e, if_true e)
            (built-IsHeap (record s { base = d; size = default_heap_size }) (omega arith)
              (rw (if_true e) at small))
      | inr e ↦
          rw (if_false e, if_false e)
            (built-IsHeap (record s { base = start; size = size }) (ground (arith, e))
              (rw (if_false e) at small))
    ]

-- The payload bytes of the blocks.
abbrev pub payload : List Block → ℕ
payload [] = 0
payload (b ∷ bs) = b.size + payload bs

-- The payload bytes of the used blocks.
abbrev pub used : List Block → ℕ
used [] = 0
used (b ∷ bs) = (if b.free then 0 else b.size) + used bs

-- The payload bytes of the free blocks.
abbrev pub unused : List Block → ℕ
unused [] = 0
unused (b ∷ bs) = (if b.free then b.size else 0) + unused bs

-- Every byte of the arena is payload or header.
tiled-payload :
    (h : ℕ → Header) (bs : List Block) (prev p : Option ℕ) (a e : ℕ)
    → Blocks h prev p a bs e
    → a + header_size * length bs + payload bs ≡ e
tiled-payload h [] prev p a e v = omega (arith, v.1)
tiled-payload h (b ∷ bs) prev p a e v =
    omega (arith, tiled-payload h bs (some a) (h a).next (a + header_size + b.size) e v.2)

used_unused : (bs : List Block) → used bs + unused bs ≡ payload bs
used_unused [] = refl
used_unused (b ∷ bs) = ground (arith, used_unused bs)

-- What the walk adds to the totals it starts with.
record Counted (acc : HeapStats) (bs : List Block) (t : HeapStats) : Type 0 where
  total : t.total_payload ≡ acc.total_payload + payload bs
  in_use : t.used_payload ≡ acc.used_payload + used bs
  left : t.free_payload ≡ acc.free_payload + unused bs
  blocks : t.block_count ≡ acc.block_count + length bs

add_stats-Counted :
    (bs : List Block) (f : ℕ) (s : Heap) (prev p : Option ℕ) (a e : ℕ) (acc : HeapStats)
    → Blocks s.headers prev p a bs e
    → length bs < f
    → acc.total_payload + payload bs < 2 ^ 32
    → acc.used_payload + used bs < 2 ^ 32
    → acc.free_payload + unused bs < 2 ^ 32
    → acc.block_count + length bs < 2 ^ 32
    → Counted acc bs (add_stats f s p acc)
unfolding add_stats
add_stats-Counted bs zero s prev p a e acc v f t u n c = absurd (omega arith)
add_stats-Counted [] (suc f) s prev p a e acc v h t u n c =
    rw (v.0, add_stats)
      (record {
        total = omega arith;
        in_use = omega arith;
        left = omega arith;
        blocks = omega arith;
      })
add_stats-Counted (b ∷ bs) (suc f) s prev p a e acc v h t u n c =
    let acc' : HeapStats = record {
      total_payload = add32 acc.total_payload (s.headers a).size;
      used_payload =
          if (s.headers a).free
          then acc.used_payload
          else add32 acc.used_payload (s.headers a).size;
      free_payload =
          if (s.headers a).free
          then add32 acc.free_payload (s.headers a).size
          else acc.free_payload;
      block_count = add32 acc.block_count 1;
    } in
    let e1 : acc'.total_payload ≡ acc.total_payload + b.size = omega (arith, v.1.size) in
    let e2 : acc'.used_payload ≡ acc.used_payload + (if b.free then 0 else b.size) =
      rw (v.1.size, v.1.free) (ground arith) in
    let e3 : acc'.free_payload ≡ acc.free_payload + (if b.free then b.size else 0) =
      rw (v.1.size, v.1.free) (ground arith) in
    let e4 : acc'.block_count ≡ acc.block_count + 1 = omega arith in
    let w =
      add_stats-Counted bs f s (some a) (s.headers a).next (a + header_size + b.size) e acc' v.2
        (omega arith) (omega (arith, e1)) (omega (arith, e2)) (omega (arith, e3))
        (omega (arith, e4)) in
    rw (v.0, add_stats)
      (record {
        total = omega (arith, w.total, e1);
        in_use = omega (arith, w.in_use, e2);
        left = omega (arith, w.left, e3);
        blocks = omega (arith, w.blocks, e4);
      })

-- What `heap_get_stats` reports of a heap with the blocks `bs`.
pub record Reported (s : Heap) (bs : List Block) (t : HeapStats) : Type 0 where
  pub total : t.total_payload ≡ payload bs
  pub in_use : t.used_payload ≡ used bs
  pub left : t.free_payload ≡ unused bs
  pub blocks : t.block_count ≡ length bs
  pub every_byte : t.used_payload + t.free_payload + header_size * t.block_count ≡ s.size

-- `heap_get_stats` reports the payload of all blocks, of the used ones and of the free ones and the number
-- of blocks, none of which overflows; with the headers they account for every byte of the arena.
pub heap_get_stats-Reported :
    (s : Heap) (bs : List Block) → IsHeap s bs → Reported s bs (heap_get_stats s)
unfolding heap_get_stats
heap_get_stats-Reported s bs v =
    let sum = tiled-payload s.headers bs none s.head s.base (s.base + s.size) v.tiled in
    let parts = used_unused bs in
    let small = v.small in
    let w =
      add_stats-Counted bs (s.size + 1) s none s.head s.base (s.base + s.size)
        (record { total_payload = 0; used_payload = 0; free_payload = 0; block_count = 0 }) v.tiled
        (omega arith) (omega arith) (omega arith) (omega arith) (omega arith) in
    record {
      total = omega (arith, w.total);
      in_use = omega (arith, w.in_use);
      left = omega (arith, w.left);
      blocks = omega (arith, w.blocks);
      every_byte = omega (arith, w.in_use, w.left, w.blocks);
    }
