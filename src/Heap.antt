-- ===== src/Heap.antt =====
-- memory/heap.c: the kernel's allocator, a list of blocks in address order. A block header stands in
-- memory as one record at its address; it takes 16 bytes. A pointer is an address, or `none` for NULL.
pub mod Blocks
pub mod Separate
pub mod Alloc
pub mod Free
mod RoundTrip
mod Stats
mod Tests
use my_operating_system_open.Prelude.{
  ℕ, zero, suc, Bool, true, false, Option, none, some, ◌+◌, ◌-◌, ◌*◌, ◌/◌, ◌&&◌, ◌==◌,
  if◌then◌else◌, ltb, leb, update, add32, sub32,
}

abbrev pub header_size : ℕ
header_size = 16

abbrev pub min_payload : ℕ
min_payload = 16

abbrev pub default_heap_size : ℕ
default_heap_size = 65536

-- `block_header_t`
pub record Header : Type 0 where
  pub size : ℕ
  pub free : Bool
  pub next : Option ℕ
  pub prev : Option ℕ

-- The static variables of heap.c, and the headers in memory.
pub record Heap : Type 0 where
  pub base : ℕ
  pub size : ℕ
  pub head : Option ℕ
  pub headers : ℕ → Header

-- `*p = header`
abbrev pub put_header : Heap → ℕ → Header → Heap
put_header s a h = record s { headers = update s.headers a h }

-- `heap_build_freelist`
unfoldable pub heap_build_freelist : Heap → Heap
heap_build_freelist s = record s {
  head = some s.base;
  headers =
      update s.headers s.base
        (record { size = sub32 s.size header_size; free = true; next = none; prev = none });
}

-- `heap_init`, given the address of the static array `default_heap`
unfoldable pub heap_init : ℕ → Heap → Option ℕ → ℕ → Heap
heap_init default_heap s none size =
    heap_build_freelist (record s { base = default_heap; size = default_heap_size })
heap_init default_heap s (some start) size =
    if leb size (header_size + min_payload)
    then heap_build_freelist (record s { base = default_heap; size = default_heap_size })
    else heap_build_freelist (record s { base = start; size = size })

-- `if (p) p->prev = q;`
unfoldable pub set_prev : Heap → Option ℕ → Option ℕ → Heap
set_prev s none q = s
set_prev s (some p) q = put_header s p (record (s.headers p) { prev = q })

-- `block_split`
unfoldable pub block_split : Heap → ℕ → ℕ → Heap
block_split s a want =
    let h = s.headers a in
    let r = add32 (add32 a header_size) want in
    let s1 = put_header s r (record {
      size = sub32 (sub32 h.size want) header_size;
      free = true;
      next = h.next;
      prev = some a;
    }) in
    let s2 = set_prev s1 h.next (some r) in
    if ltb h.size (add32 (add32 want header_size) min_payload)
    then s
    else put_header s2 a (record (s2.headers a) { size = want; next = some r })

-- The block that was found is split and marked as used.
unfoldable pub take_block : Heap → ℕ → ℕ → Heap
take_block s a want =
    let s' = block_split s a want in put_header s' a (record (s'.headers a) { free = false })

-- The loop over the blocks, on fuel.
unfoldable pub find_block : ℕ → Heap → ℕ → Option ℕ → Option ℕ × Heap
find_block zero s want it = (none, s)
find_block (suc f) s want none = (none, s)
find_block (suc f) s want (some a) =
    let rest = find_block f s want (s.headers a).next in
    if (s.headers a).free && leb want (s.headers a).size
    then (some (add32 a header_size), take_block s a want)
    else rest

-- The list is built on first use.
unfoldable pub built : Heap → Heap
built s = elim s.head [ none ↦ heap_build_freelist s | some _ ↦ s ]

-- `HEAP_ALIGN`, for an alignment that is a power of two
abbrev pub heap_align : ℕ → ℕ → ℕ
heap_align n a = add32 n (a - 1) / a * a

-- `kmalloc_aligned`. A block takes at least 16 bytes, so there are fewer blocks than bytes.
unfoldable pub kmalloc_aligned : Heap → ℕ → ℕ → Option ℕ × Heap
kmalloc_aligned s size alignment =
    let s' = built s in
    let a = if ltb alignment 8 then 8 else alignment in
    if size == 0 then (none, s') else find_block (s'.size + 1) s' (heap_align size a) s'.head

-- `kmalloc`
unfoldable pub kmalloc : Heap → ℕ → Option ℕ × Heap
kmalloc s size = kmalloc_aligned s size 8

-- `block_coalesce` with a next block
unfoldable pub merge_next : Heap → ℕ → ℕ → Heap
merge_next s a x =
    if (s.headers x).free
    then set_prev
        (put_header s a (record (s.headers a) {
          size = add32 (s.headers a).size (add32 header_size (s.headers x).size);
          next = (s.headers x).next;
        }))
        (s.headers x).next (some a)
    else s

-- `block_coalesce`
unfoldable pub block_coalesce : Heap → ℕ → Heap
block_coalesce s a = elim (s.headers a).next [ none ↦ s | some x ↦ merge_next s a x ]

-- The end of `kfree`: the block before is coalesced if it is free.
unfoldable pub coalesce_back : Heap → Option ℕ → Heap
coalesce_back s none = s
coalesce_back s (some p) = if (s.headers p).free then block_coalesce s p else s

-- `kfree`
unfoldable pub kfree : Heap → Option ℕ → Heap
kfree s none = s
kfree s (some ptr) =
    let a = sub32 ptr header_size in
    let s1 = put_header s a (record (s.headers a) { free = true }) in
    let s2 = block_coalesce s1 a in coalesce_back s2 (s2.headers a).prev

-- What `heap_get_stats` reports.
pub record HeapStats : Type 0 where
  pub total_payload : ℕ
  pub used_payload : ℕ
  pub free_payload : ℕ
  pub block_count : ℕ

-- The walk of `heap_get_stats`, on fuel.
unfoldable pub add_stats : ℕ → Heap → Option ℕ → HeapStats → HeapStats
add_stats zero s it acc = acc
add_stats (suc f) s none acc = acc
add_stats (suc f) s (some a) acc = add_stats f s (s.headers a).next (record {
  total_payload = add32 acc.total_payload (s.headers a).size;
  used_payload =
      if (s.headers a).free then acc.used_payload else add32 acc.used_payload (s.headers a).size;
  free_payload =
      if (s.headers a).free then add32 acc.free_payload (s.headers a).size else acc.free_payload;
  block_count = add32 acc.block_count 1;
})

-- `heap_get_stats`
unfoldable pub heap_get_stats : Heap → HeapStats
heap_get_stats s =
    add_stats (s.size + 1) s s.head
      (record { total_payload = 0; used_payload = 0; free_payload = 0; block_count = 0 })
