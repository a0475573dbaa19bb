-- ===== src/Heap/Separate.antt =====
-- The blocks of memory/heap.c that allocation and freeing leave; free ones stay apart.
use my_operating_system_open.Prelude.{
  ℕ, refl, inl, inr, true, false, Option, none, some, List, [], arith, ◌+◌, ◌-◌, ◌≡◌, ◌&&◌, ◌∷◌,
  ◌++◌, if◌then◌else◌, ltb, leb, Bool-cases, if_true, if_false,
}
use my_operating_system_open.Heap.{header_size, min_payload}
use my_operating_system_open.Heap.Blocks.{Block, Separate}

-- A used block of `want` bytes at the front of block `b`, whose rest becomes a free block if it is
-- large enough for one.
abbrev pub carve : Block → ℕ → List Block → List Block
carve b want bs =
    if ltb b.size (want + header_size + min_payload)
    then record b { free = false } ∷ bs
    else record { size = want; free = false }
      ∷ record { size = b.size - want - header_size; free = true }
      ∷ bs

-- The first fit among blocks from address `a` on: the address of the payload, and the blocks.
abbrev pub first_fit : ℕ → ℕ → List Block → Option ℕ × List Block
first_fit want a [] = (none, [])
first_fit want a (b ∷ bs) =
    let rest = first_fit want (a + header_size + b.size) bs in
    if b.free && leb want b.size
    then (some (a + header_size), carve b want bs)
    else (rest.0, b ∷ rest.1)

-- A free block of `n` bytes in front of blocks, merged with the first one if that is free.
abbrev pub joined : ℕ → List Block → List Block
joined n [] = record { size = n; free = true } ∷ []
joined n (c ∷ bs) =
    if c.free
    then record { size = n + header_size + c.size; free = true } ∷ bs
    else record { size = n; free = true } ∷ c ∷ bs

-- The blocks `xs`, a block of `n` bytes and the blocks `ys`, once the one between is free and coalesced.
abbrev pub freed : List Block → ℕ → List Block → List Block
freed [] n ys = joined n ys
freed (d ∷ []) n ys = if d.free then joined d.size (joined n ys) else d ∷ joined n ys
freed (x ∷ y ∷ xs) n ys = x ∷ freed (y ∷ xs) n ys

-- Carving keeps free blocks apart, and so does the first fit.
pub Separate-tail : (b : Block) (bs : List Block) → Separate (b ∷ bs) → Separate bs
Separate-tail b [] s = tt
Separate-tail b (c ∷ bs) s = s.1

-- A used block may stand in front of anything.
Separate-used :
    (n : ℕ) (bs : List Block) → Separate bs → Separate (record { size = n; free = false } ∷ bs)
Separate-used n [] s = tt
Separate-used n (c ∷ bs) s = (refl, s)

-- Blocks that are apart stay apart when the first one becomes used or changes its size.
Separate-first :
    (b c : Block) (bs : List Block)
    → (c.free ≡ true → b.free ≡ true)
    → Separate (b ∷ bs)
    → Separate (c ∷ bs)
Separate-first b c [] h s = tt
Separate-first b c (d ∷ bs) h s = (ground (arith, h, s.0), s.1)

carve-Separate :
    (b : Block) (want : ℕ) (bs : List Block)
    → b.free ≡ true
    → Separate (b ∷ bs)
    → Separate (carve b want bs)
carve-Separate b want bs f s = elim (Bool-cases (ltb b.size (want + header_size + min_payload))) [
  | inl little ↦ rw (if_true little) (Separate-first b (record b { free = false }) bs (λ z. f) s)
  | inr large ↦ rw (if_false large) (
    refl,
    Separate-first b (record { size = b.size - want - header_size; free = true }) bs (λ z. f) s,
  )
]

-- Anything may stand in front of a block that was carved.
Separate-carve :
    (b c : Block) (want : ℕ) (cs : List Block)
    → Separate (carve c want cs)
    → Separate (b ∷ carve c want cs)
Separate-carve b c want cs s = elim (Bool-cases (ltb c.size (want + header_size + min_payload))) [
  | inl e ↦ rw (if_true e) (ground arith, rw (if_true e) at s)
  | inr e ↦ rw (if_false e) (ground arith, rw (if_false e) at s)
]

-- A block before the first fit keeps its distance: the front of the rest is free only if it was.
pub first_fit-Separate :
    (want a : ℕ) (bs : List Block) → Separate bs → Separate (first_fit want a bs).1
first_fit-Separate want a [] s = tt
first_fit-Separate want a (b ∷ bs) s = elim (Bool-cases (b.free && leb want b.size)) [
  | inl e ↦ rw (if_true e) (carve-Separate b want bs (ground (arith, e)) s)
  | inr e ↦
      rw (if_false e)
        (go bs s (first_fit-Separate want (a + header_size + b.size) bs (Separate-tail b bs s)))
]
  where
    go :
        (cs : List Block)
        → Separate (b ∷ cs)
        → Separate (first_fit want (a + header_size + b.size) cs).1
        → Separate (b ∷ (first_fit want (a + header_size + b.size) cs).1)
    go [] s t = tt
    go (c ∷ cs) s t = elim (Bool-cases (c.free && leb want c.size)) [
      | inl e ↦ rw (if_true e) (Separate-carve b c want cs (rw (if_true e) at t))
      | inr e ↦ rw (if_false e) (s.0, rw (if_false e) at t)
    ]

joined-Separate : (n : ℕ) (ys : List Block) → Separate ys → Separate (joined n ys)
joined-Separate n [] s = tt
joined-Separate n (c ∷ bs) s = elim (Bool-cases c.free) [
  | inl f ↦
      rw (if_true f)
        (Separate-first c (record { size = n + header_size + c.size; free = true }) bs (λ z. f) s)
  | inr f ↦ rw (if_false f) (f, s)
]

-- A used block may stand in front of blocks that were joined.
Separate-before : (b : Block) (bs : List Block) → b.free ≡ false → Separate bs → Separate (b ∷ bs)
Separate-before b [] f s = tt
Separate-before b (c ∷ bs) f s = (ground (arith, f), s)

-- Freeing a block keeps free blocks apart, whatever the block was.
pub freed-Separate :
    (xs : List Block) (c : Block) (ys : List Block)
    → Separate (xs ++ c ∷ ys)
    → Separate (freed xs c.size ys)
freed-Separate [] c ys s = joined-Separate c.size ys (Separate-tail c ys s)
freed-Separate (d ∷ []) c ys s =
    let j = joined-Separate c.size ys (Separate-tail c ys s.1) in
    elim (Bool-cases d.free) [
      | inl f ↦ rw (if_true f) (joined-Separate d.size (joined c.size ys) j)
      | inr f ↦ rw (if_false f) (Separate-before d (joined c.size ys) f j)
    ]
freed-Separate (x ∷ y ∷ xs) c ys s = elim (Bool-cases x.free) [
  | inr f ↦ Separate-before x (freed (y ∷ xs) c.size ys) f (freed-Separate (y ∷ xs) c ys s.1)
  | inl f ↦ go xs (ground (arith, s.0, f)) (freed-Separate (y ∷ xs) c ys s.1)
]
  where
    go :
        (zs : List Block)
        → y.free ≡ false
        → Separate (freed (y ∷ zs) c.size ys)
        → Separate (x ∷ freed (y ∷ zs) c.size ys)
    go [] g t = rw (if_false g) (ground (arith, g), rw (if_false g) at t)
    go (z ∷ zs) g t = (ground (arith, g), t)
