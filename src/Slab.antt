-- ===== src/Slab.antt =====
-- memory/slab.c: caches of objects of one size over the kernel heap. The pointer that stands in an object of a free
-- list is a word of the record Slabs, by address.
pub mod Objects
use my_operating_system_open.Prelude.{ℕ, Option, none, some, ◌||◌, ◌==◌, if◌then◌else◌, ltb, update}
use my_operating_system_open.Heap.{Heap, kmalloc}

-- `slab_t`; a pointer is an address, 0 being NULL.
pub record SlabCache : Type 0 where
  pub free_list : ℕ
  pub obj_size : ℕ

-- The heap, the caches by address, and the words of the objects
pub record Slabs : Type 0 where
  pub heap : Heap
  pub caches : ℕ → SlabCache
  pub words : ℕ → ℕ

-- A pointer that kmalloc returns
abbrev pub address : Option ℕ → ℕ
address none = 0
address (some a) = a

-- `slab_create`; a slab_t has 8 bytes, and a pointer 4.
unfoldable pub slab_create : Slabs → ℕ → ℕ × Slabs
slab_create k obj_size =
    let (p, heap) = kmalloc k.heap 8 in
    let s = address p in
    if s == 0 then (0, record k { heap = heap }) else (
      s,
      record k {
        heap = heap;
        caches =
            update k.caches s
              (record { free_list = 0; obj_size = if ltb obj_size 4 then 4 else obj_size });
      },
    )

-- `slab_alloc`
unfoldable pub slab_alloc : Slabs → ℕ → ℕ × Slabs
slab_alloc k s =
    let c = k.caches s in
    let (p, heap) = kmalloc k.heap c.obj_size in
    if s == 0 then (0, k) else if c.free_list == 0 then (address p, record k { heap = heap }) else (
      c.free_list,
      record k { caches = update k.caches s (record c { free_list = k.words c.free_list }) },
    )

-- `slab_free`
unfoldable pub slab_free : Slabs → ℕ → ℕ → Slabs
slab_free k s ptr =
    let c = k.caches s in
    if s == 0 || ptr == 0 then k else record k {
      words = update k.words ptr c.free_list;
      caches = update k.caches s (record c { free_list = ptr });
    }
