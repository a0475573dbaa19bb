-- ===== src/Heap/Free.antt =====
-- `kfree` of memory/heap.c returns a block and coalesces it with its free neighbours.
use mathlib.Core.Path.{subst}
use my_operating_system_open.Prelude.{
  ℕ, refl, sym, ap, inl, inr, true, false, Option, none, some, List, [], arith, ◌+◌, ◌^◌, ◌≤◌, ◌≡◌,
  ◌∙◌, ◌∷◌, ◌++◌, Bool-cases, if_true, if_false, length, update_self, update_ne, add32, sub32,
}
use my_operating_system_open.Heap.{
  Header, Heap, header_size, put_header, set_prev, merge_next, block_coalesce, coalesce_back, kfree,
}
use my_operating_system_open.Heap.Blocks.{
  Block, Blocks, Blocks-frame, Blocks-le, set_prev-Blocks, set_prev_below, set_prev_rest, IsHeap,
  Describes-same, after, Changed, IsHeap-Changed,
}
use my_operating_system_open.Heap.Separate.{joined, freed, freed-Separate}

block_coalesce-none : (s : Heap) (a : ℕ) → (s.headers a).next ≡ none → block_coalesce s a ≡ s
unfolding block_coalesce
block_coalesce-none s a h =
    ap {A = Option ℕ} (λ p. elim p [ none ↦ s | some x ↦ merge_next s a x ]) h

block_coalesce-some :
    (s : Heap) (a x : ℕ) → (s.headers a).next ≡ some x → block_coalesce s a ≡ merge_next s a x
unfolding block_coalesce
block_coalesce-some s a x h =
    ap {A = Option ℕ} (λ p. elim p [ none ↦ s | some x ↦ merge_next s a x ]) h

module _ (s : Heap) (a n : ℕ) (prev : Option ℕ) (e : ℕ) (small : e + 32 ≤ 2 ^ 32) where
  abbrev b : Block
  b = record { size = n; free = true }

  abbrev x : ℕ
  x = a + header_size + n

  apart :
      (c : Block) (bs : List Block)
      → Blocks s.headers prev (some a) a (b ∷ c ∷ bs) e
      → c.free ≡ false
      → Changed s (merge_next s a x) prev (some a) a (b ∷ c ∷ bs) e
  unfolding merge_next
  apart c bs v f =
      let same : (s.headers x).free ≡ false = v.2.1.free ∙ f in
      rw (if_false same) (record { blocks = v; below = λ j l. refl; rest = refl })

  merged :
      (c : Block) (bs : List Block)
      → Blocks s.headers prev (some a) a (b ∷ c ∷ bs) e
      → c.free ≡ true
      → Changed s
          (merge_next s a x)
          prev
          (some a)
          a
          (record { size = n + header_size + c.size; free = true } ∷ bs)
          e
  unfolding merge_next
  merged c bs v f =
      let same : (s.headers x).free ≡ true = v.2.1.free ∙ f in
      let next = (s.headers x).next in
      let y = x + header_size + c.size in
      let top = Blocks-le s.headers bs (some x) next y e v.2.2 in
      let size : add32 (s.headers a).size (add32 header_size (s.headers x).size)
          ≡ n + header_size + c.size =
        omega (arith, v.1.size, v.2.1.size, top) in
      let new = record (s.headers a) { size = n + header_size + c.size; next = next } in
      let s1 = put_header s a new in
      let tail1 =
        Blocks-frame s.headers s1.headers bs (some x) next y e
          (λ j l. update_ne s.headers a new j (λ z. absurd (omega arith))) v.2.2 in
      let t = set_prev s1 next (some a) in
      let low = set_prev_below s1 bs (some x) next (some a) y e tail1 in
      let here : t.headers a ≡ new = low a (omega arith) ∙ update_self s.headers a new in
      let end : a + header_size + (n + header_size + c.size) ≡ y = omega arith in
      rw (if_true same, size)
        (record {
          blocks = (
            refl,
            record {
              size = ap (λ (h : Header). h.size) here;
              free = ap (λ (h : Header). h.free) here ∙ v.1.free;
              back = ap (λ (h : Header). h.prev) here ∙ v.1.back;
            },
            rw (ap (λ (h : Header). h.next) here, end)
                (set_prev-Blocks s1 bs (some x) next (some a) y e tail1),
          );
          below =
              λ j l. low j (omega arith) ∙ update_ne s.headers a new j (λ z. absurd (omega arith));
          rest = set_prev_rest s1 next (some a);
        })

  -- `block_coalesce` of a free block.
  block_coalesce-Joined :
      (bs : List Block)
      → Blocks s.headers prev (some a) a (b ∷ bs) e
      → Changed s (block_coalesce s a) prev (some a) a (joined n bs) e
  block_coalesce-Joined [] v =
      rw (block_coalesce-none s a v.2.0) (record { blocks = v; below = λ j l. refl; rest = refl })
  block_coalesce-Joined (c ∷ bs) v =
      rw (block_coalesce-some s a (a + header_size + n) v.2.0) (elim (Bool-cases c.free) [
        | inr f ↦ rw (if_false f) (apart c bs v f)
        | inl f ↦ rw (if_true f) (merged c bs v f)
      ])

-- The block at `a` becomes free and is coalesced with the next one.
unfoldable freed_at : Heap → ℕ → Heap
freed_at s a = block_coalesce (put_header s a (record (s.headers a) { free = true })) a

freed_at-Joined :
    (s : Heap) (a : ℕ) (c : Block) (bs : List Block) (prev p : Option ℕ) (e : ℕ)
    → e + 32 ≤ 2 ^ 32
    → Blocks s.headers prev p a (c ∷ bs) e
    → Changed s (freed_at s a) prev (some a) a (joined c.size bs) e
unfolding freed_at
freed_at-Joined s a c bs prev p e small v =
    let new = record (s.headers a) { free = true } in
    let s1 = put_header s a new in
    let here = update_self s.headers a new in
    let w = block_coalesce-Joined s1 a c.size prev e small bs (
      refl,
      record {
        size = ap (λ (h : Header). h.size) here ∙ v.1.size;
        free = ap (λ (h : Header). h.free) here;
        back = ap (λ (h : Header). h.prev) here ∙ v.1.back;
      },
      rw (ap (λ (h : Header). h.next) here) (
          Blocks-frame s.headers s1.headers bs (some a) (s.headers a).next
            (a + header_size + c.size) e
            (λ j l. update_ne s.headers a new j (λ z. absurd (omega arith))) v.2),
    ) in
    record {
      blocks = w.blocks;
      below = λ j l. w.below j l ∙ update_ne s.headers a new j (λ z. absurd (omega arith));
      rest = w.rest;
    }

pub after-le :
    (h : ℕ → Header) (xs zs : List Block) (prev p : Option ℕ) (a e : ℕ)
    → Blocks h prev p a (xs ++ zs) e
    → after a xs ≤ e
after-le h [] zs prev p a e v = omega (arith, Blocks-le h zs prev p a e v)
after-le h (x ∷ xs) zs prev p a e v =
    after-le h xs zs (some a) (h a).next (a + header_size + x.size) e v.2

-- The first header of blocks that were joined points back.
joined_back :
    (h : ℕ → Header) (n : ℕ) (ys : List Block) (prev p : Option ℕ) (a e : ℕ)
    → Blocks h prev p a (joined n ys) e
    → (h a).prev ≡ prev
joined_back h n [] prev p a e v = v.1.back
joined_back h n (c ∷ bs) prev p a e v = elim (Bool-cases c.free) [
  | inl f ↦ let w = rw (if_true f) at v in w.1.back
  | inr f ↦ let w = rw (if_false f) at v in w.1.back
]

-- What `kfree` does to the block at `a`.
unfoldable coalesced : Heap → ℕ → Heap
coalesced s a = coalesce_back (freed_at s a) ((freed_at s a).headers a).prev

-- The block between `d` and `ys` is freed.
behind :
    (s : Heap) (a : ℕ) (d c : Block) (ys : List Block) (prev : Option ℕ) (e : ℕ)
    → e + 32 ≤ 2 ^ 32
    → Blocks s.headers prev (some a) a (d ∷ c ∷ ys) e
    → Changed s
        (coalesced s (a + header_size + d.size))
        prev
        (some a)
        a
        (freed (d ∷ []) c.size ys)
        e
unfolding coalesced coalesce_back
behind s a d c ys prev e small v =
    let x = a + header_size + d.size in
    let w = freed_at-Joined s x c ys (some a) (s.headers a).next e small v.2 in
    let t = freed_at s x in
    let here : t.headers a ≡ s.headers a = w.below a (omega arith) in
    let next : (t.headers a).next ≡ some x = ap (λ (h : Header). h.next) here ∙ v.2.0 in
    let back = joined_back t.headers c.size ys (some a) (some x) x e w.blocks in
    let front = Describes-same s.headers t.headers prev a d here v.1 in
    elim (Bool-cases d.free) [
      | inr f ↦
          let no : (t.headers a).free ≡ false = front.free ∙ f in
          rw (back, if_false no, if_false f)
            (record {
              blocks = (refl, front, rw next w.blocks);
              below = λ j l. w.below j (omega arith);
              rest = w.rest;
            })
      | inl f ↦
          let yes : (t.headers a).free ≡ true = front.free ∙ f in
          let u =
            block_coalesce-Joined t a d.size prev e small (joined c.size ys) (
              refl,
              record { size = front.size; free = yes; back = front.back },
              rw next w.blocks,
            ) in
          rw (back, if_true yes, if_true f)
            (record {
              blocks = u.blocks;
              below = λ j l. u.below j l ∙ w.below j (omega arith);
              rest =
                  u.rest
                  ∙ ap (λ (k : Heap). record k { headers = (block_coalesce t a).headers }) w.rest;
            })
    ]

coalesced-Changed :
    (xs : List Block) (s : Heap) (c : Block) (ys : List Block) (prev p : Option ℕ) (a e : ℕ)
    → e + 32 ≤ 2 ^ 32
    → (length xs ≡ 0 → prev ≡ none)
    → Blocks s.headers prev p a (xs ++ c ∷ ys) e
    → Changed s (coalesced s (after a xs)) prev p a (freed xs c.size ys) e
unfolding coalesced coalesce_back
coalesced-Changed [] s c ys prev p a e small first v =
    let w = freed_at-Joined s a c ys prev p e small v in
    let back =
      joined_back (freed_at s a).headers c.size ys prev (some a) a e w.blocks ∙ first refl in
    subst (λ z. Changed s (coalesced s a) prev z a (joined c.size ys) e) (sym v.0)
      (rw (back, coalesce_back) w)
coalesced-Changed (d ∷ []) s c ys prev p a e small first v =
    subst (λ z. Changed s (coalesced s (after a (d ∷ []))) prev z a (freed (d ∷ []) c.size ys) e)
      (sym v.0) (behind s a d c ys prev e small (refl, v.1, v.2))
coalesced-Changed (x ∷ y ∷ xs) s c ys prev p a e small first v =
    let w =
      coalesced-Changed (y ∷ xs) s c ys (some a) (s.headers a).next (a + header_size + x.size) e
        small (λ z. absurd (omega arith)) v.2 in
    let here = w.below a (omega arith) in
    record {
      blocks = (
        v.0,
        Describes-same s.headers _ prev a x here v.1,
        rw (ap (λ (h : Header). h.next) here) w.blocks,
      );
      below = λ j l. w.below j (omega arith);
      rest = w.rest;
    }

-- What freeing the block behind `xs` makes of a heap with the blocks `xs`, `c` and `ys`.
pub record Freed (s : Heap) (xs : List Block) (c : Block) (ys : List Block) (t : Heap)
    : Type 0 where
  pub valid : IsHeap t (freed xs c.size ys)
  pub arena : (t.base ≡ s.base) × (t.size ≡ s.size)

-- `kfree` of the payload of a block: it becomes free and is merged with the next block and with the
-- one before it, where they are free. The blocks still tile the arena, and no two free ones are next to
-- each other; nothing else of the heap changes. Freeing a block that is free already changes no block.
pub kfree-Freed :
    (s : Heap) (xs : List Block) (c : Block) (ys : List Block)
    → IsHeap s (xs ++ c ∷ ys)
    → Freed s xs c ys (kfree s (some (after s.base xs + header_size)))
unfolding kfree coalesced freed_at
kfree-Freed s xs c ys v =
    let e = s.base + s.size in
    let top = after-le s.headers xs (c ∷ ys) none s.head s.base e v.tiled in
    let a : sub32 (after s.base xs + header_size) header_size ≡ after s.base xs =
      omega (arith, top, v.small) in
    let w = coalesced-Changed xs s c ys none s.head s.base e v.small (λ z. refl) v.tiled in
    rw a (record {
      valid = IsHeap-Changed s _ _ _ v w (freed-Separate xs c ys v.separate);
      arena = (ap (λ (k : Heap). k.base) w.rest, ap (λ (k : Heap). k.size) w.rest);
    })
