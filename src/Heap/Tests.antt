-- ===== src/Heap/Tests.antt =====
-- A run of the allocator of memory/heap.c in an arena of 256 bytes.
use my_operating_system_open.Prelude.{refl, true, false, none, some, List, [], arith, ◌+◌, ◌≡◌, ◌∷◌}
use my_operating_system_open.Heap.{
  Heap, kmalloc_aligned, find_block, built, heap_build_freelist, heap_init, kmalloc, kfree,
  heap_get_stats,
}
use my_operating_system_open.Heap.Blocks.{Block, IsHeap}
use my_operating_system_open.Heap.Alloc.{Allocated, kmalloc-Allocated}
use my_operating_system_open.Heap.Free.{Freed, kfree-Freed}
use my_operating_system_open.Heap.RoundTrip.{kfree-kmalloc}
use my_operating_system_open.Heap.Stats.{Reported, heap_init-IsHeap, heap_get_stats-Reported}

abbrev blank : Heap
blank = record {
  base = 0;
  size = 0;
  head = none;
  headers = λ _. record { size = 0; free = false; next = none; prev = none };
}

abbrev fresh : Heap
fresh = heap_init 0x200000 blank (some 0x100000) 256

abbrev whole : List Block
whole = record { size = 240; free = true } ∷ []

fresh-IsHeap : IsHeap fresh whole
fresh-IsHeap = heap_init-IsHeap 0x200000 blank (some 0x100000) 256 (omega arith)

kmalloc-Allocated_example : Allocated fresh whole 24 (kmalloc fresh 20).0 (kmalloc fresh 20).1
kmalloc-Allocated_example =
    kmalloc-Allocated fresh whole 20 fresh-IsHeap (omega arith) (omega arith)

kmalloc_runs : (kmalloc fresh 20).0 ≡ some 0x100010
unfolding kmalloc kmalloc_aligned find_block built heap_init heap_build_freelist
kmalloc_runs = refl

abbrev taken : Heap
taken = (kmalloc fresh 20).1

abbrev in_use : Block
in_use = record { size = 24; free = false }

abbrev left : List Block
left = record { size = 200; free = true } ∷ []

taken-IsHeap : IsHeap taken (in_use ∷ left)
unfolding heap_init heap_build_freelist
taken-IsHeap = (kmalloc-Allocated fresh whole 20 fresh-IsHeap (omega arith) (omega arith)).valid

kfree-Freed_example : Freed taken [] in_use left (kfree taken (some (taken.base + 16)))
kfree-Freed_example = kfree-Freed taken [] in_use left taken-IsHeap

kfree-kmalloc_example : IsHeap (kfree (kmalloc fresh 20).1 (some 0x100010)) whole
kfree-kmalloc_example =
    kfree-kmalloc fresh whole 20 0x100010 fresh-IsHeap (omega arith) (omega arith) kmalloc_runs

heap_get_stats-Reported_example : Reported fresh whole (heap_get_stats fresh)
heap_get_stats-Reported_example = heap_get_stats-Reported fresh whole fresh-IsHeap
