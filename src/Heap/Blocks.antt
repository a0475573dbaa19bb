-- ===== src/Heap/Blocks.antt =====
-- The heap of memory/heap.c as a list of blocks that tile the arena.
use mathlib.Core.Path.{subst}
use my_operating_system_open.Prelude.{
  ℕ, refl, sym, ap, Bool, false, Option, none, some, List, [], arith, ◌+◌, ◌*◌, ◌^◌, ◌≤◌, ◌<◌, ◌≡◌,
  ◌∙◌, ◌&&◌, ◌∷◌, ◌++◌, length, update, update_self, update_ne,
}
use my_operating_system_open.Heap.{Header, Heap, header_size, set_prev}

-- A block: the size of its payload, and whether it is free.
pub record Block : Type 0 where
  pub size : ℕ
  pub free : Bool

-- The header at `a` describes the block `b`.
pub record Describes (h : ℕ → Header) (prev : Option ℕ) (a : ℕ) (b : Block) : Type 0 where
  pub size : (h a).size ≡ b.size
  pub free : (h a).free ≡ b.free
  pub back : (h a).prev ≡ prev

-- From the pointer `p` on, the headers describe the blocks `bs`, which tile the addresses from `a` to `e`.
abbrev pub Blocks : (ℕ → Header) → Option ℕ → Option ℕ → ℕ → List Block → ℕ → Type 0
Blocks h prev p a [] e = (p ≡ none) × (a ≡ e)
Blocks h prev p a (b ∷ bs) e =
    (p ≡ some a)
    × Describes h prev a b
    × Blocks h (some a) (h a).next (a + header_size + b.size) bs e

pub Describes-same :
    (h h' : ℕ → Header) (prev : Option ℕ) (a : ℕ) (b : Block)
    → h' a ≡ h a
    → Describes h prev a b
    → Describes h' prev a b
Describes-same h h' prev a b e d = record {
  size = ap (λ (x : Header). x.size) e ∙ d.size;
  free = ap (λ (x : Header). x.free) e ∙ d.free;
  back = ap (λ (x : Header). x.prev) e ∙ d.back;
}

-- Blocks depend on no header below them.
pub Blocks-frame :
    (h h' : ℕ → Header) (bs : List Block) (prev p : Option ℕ) (a e : ℕ)
    → ((j : ℕ) → a ≤ j → h' j ≡ h j)
    → Blocks h prev p a bs e
    → Blocks h' prev p a bs e
Blocks-frame h h' [] prev p a e same v = v
Blocks-frame h h' (b ∷ bs) prev p a e same v =
    let here = same a (omega arith) in
    (
      v.0,
      Describes-same h h' prev a b here v.1,
      rw (ap (λ (x : Header). x.next) here) (
          Blocks-frame h h' bs (some a) (h a).next (a + header_size + b.size) e
            (λ j l. same j (omega arith)) v.2),
    )

-- The tiling never leaves the arena.
pub Blocks-le :
    (h : ℕ → Header) (bs : List Block) (prev p : Option ℕ) (a e : ℕ)
    → Blocks h prev p a bs e
    → a + header_size * length bs ≤ e
Blocks-le h [] prev p a e v = omega (arith, v.1)
Blocks-le h (b ∷ bs) prev p a e v =
    omega (arith, Blocks-le h bs (some a) (h a).next (a + header_size + b.size) e v.2)

-- The address behind some blocks.
abbrev pub after : ℕ → List Block → ℕ
after a [] = a
after a (b ∷ bs) = after (a + header_size + b.size) bs

pub after-ge : (a : ℕ) (bs : List Block) → a ≤ after a bs
after-ge a [] = omega arith
after-ge a (b ∷ bs) = omega (arith, after-ge (a + header_size + b.size) bs)

-- What holds of a tail can be replaced, if nothing before the tail changes.
pub Blocks-tail :
    (h h' : ℕ → Header) (xs zs zs' : List Block) (prev p : Option ℕ) (a e : ℕ)
    → ((j : ℕ) → j < after a xs → h' j ≡ h j)
    → ((pr q : Option ℕ) → Blocks h pr q (after a xs) zs e → Blocks h' pr q (after a xs) zs' e)
    → Blocks h prev p a (xs ++ zs) e
    → Blocks h' prev p a (xs ++ zs') e
Blocks-tail h h' [] zs zs' prev p a e same f v = f prev p v
Blocks-tail h h' (b ∷ xs) zs zs' prev p a e same f v =
    let here = same a (omega (arith, after-ge (a + header_size + b.size) xs)) in
    (
      v.0,
      Describes-same h h' prev a b here v.1,
      rw (ap (λ (x : Header). x.next) here)
          (Blocks-tail h h' xs zs zs' (some a) (h a).next (a + header_size + b.size) e same f v.2),
    )

-- Setting the back pointer of the first block, if there is one.
pub set_prev-Blocks :
    (s : Heap) (bs : List Block) (prev p q : Option ℕ) (a e : ℕ)
    → Blocks s.headers prev p a bs e
    → Blocks (set_prev s p q).headers q p a bs e
unfolding set_prev
set_prev-Blocks s [] prev p q a e v = rw v.0 (refl, v.1)
set_prev-Blocks s (b ∷ bs) prev p q a e v =
    let new = record (s.headers a) { prev = q } in
    let here = update_self s.headers a new in
    subst (λ z. Blocks (set_prev s z q).headers q z a (b ∷ bs) e) (sym v.0)
      (
        refl,
        record {
          size = ap (λ (x : Header). x.size) here ∙ v.1.size;
          free = ap (λ (x : Header). x.free) here ∙ v.1.free;
          back = ap (λ (x : Header). x.prev) here;
        },
        rw (ap (λ (x : Header). x.next) here) (
            Blocks-frame s.headers (update s.headers a new) bs (some a) (s.headers a).next
              (a + header_size + b.size) e
              (λ j l. update_ne s.headers a new j (λ z. absurd (omega arith))) v.2),
      )

-- It changes no header below that block.
pub set_prev_below :
    (s : Heap) (bs : List Block) (prev p q : Option ℕ) (a e : ℕ)
    → Blocks s.headers prev p a bs e
    → (j : ℕ) → j < a
    → (set_prev s p q).headers j ≡ s.headers j
unfolding set_prev
set_prev_below s [] prev p q a e v j l = rw v.0 refl
set_prev_below s (b ∷ bs) prev p q a e v j l =
    rw v.0 (update_ne s.headers a (record (s.headers a) { prev = q }) j (λ z. absurd (omega arith)))

-- Nothing but headers changes.
pub set_prev_rest :
    (s : Heap) (p q : Option ℕ) → set_prev s p q ≡ record s { headers = (set_prev s p q).headers }
unfolding set_prev
set_prev_rest s none q = refl
set_prev_rest s (some p) q = refl

-- No two free blocks stand next to each other.
abbrev pub Separate : List Block → Type 0
Separate [] = Unit
Separate (b ∷ []) = Unit
Separate (b ∷ c ∷ bs) = ((b.free && c.free) ≡ false) × Separate (c ∷ bs)

-- The arena is tiled by the blocks `bs`.
pub record IsHeap (s : Heap) (bs : List Block) : Type 0 where
  pub tiled : Blocks s.headers none s.head s.base bs (s.base + s.size)
  pub small : s.base + s.size + 32 ≤ 2 ^ 32
  pub separate : Separate bs
  pub some_arena : 0 < s.size

-- The outcome of an operation on the blocks from `a` to `e`.
pub record Changed (s t : Heap) (prev p : Option ℕ) (a : ℕ) (bs : List Block) (e : ℕ) : Type 0 where
  pub blocks : Blocks t.headers prev p a bs e
  pub below : (j : ℕ) → j < a → t.headers j ≡ s.headers j
  pub rest : t ≡ record s { headers = t.headers }

pub IsHeap-Changed :
    (s t : Heap) (bs cs : List Block)
    → IsHeap s bs
    → Changed s t none s.head s.base cs (s.base + s.size)
    → Separate cs
    → IsHeap t cs
IsHeap-Changed s t bs cs v w apart =
    subst (λ k. IsHeap k cs) (sym w.rest)
      (record { tiled = w.blocks; small = v.small; separate = apart; some_arena = v.some_arena })
