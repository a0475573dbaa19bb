-- ===== src/Cache/Blocks.antt =====
-- The blocks of memory that the cache of memory/cache.c holds.
use my_operating_system_open.Prelude.{
  ℕ, sym, ap, inl, inr, Bool, true, Option, arith, ◌+◌, ◌*◌, ◌/◌, ◌%◌, ◌≡◌, ◌∙◌, ◌&&◌, ◌==◌,
  if◌then◌else◌, Bool-cases, if_true, if_false,
}
use my_operating_system_open.Cache.{Cache, cache_parse_address, cache_access}
use my_operating_system_open.Cache.Lines.{tag_of, index_of, resident, cache_access-looked_up}

-- The block of 32 bytes that an address is in
abbrev pub block_of : ℕ → ℕ
block_of a = a / 32

-- Whether the one line in which a block can be holds it: the tag and the line make up the block.
abbrev pub holds_block : Cache → ℕ → Bool
holds_block c block =
    let line = c.lines (block % 256) in line.valid && line.tag * 256 + block % 256 == block

holds_block-resident : (c : Cache) (a : ℕ) → holds_block c (block_of a) ≡ resident c a
unfolding cache_parse_address
holds_block-resident c a =
    let same : ((c.lines (a / 32 % 256)).tag * 256 + a / 32 % 256 == a / 32)
        ≡ ((c.lines (a / 32 % 256)).tag == a / 8192) =
      ground arith in
    ap (λ z. (c.lines (a / 32 % 256)).valid && z) same

blocks_of_line :
    (a b : ℕ)
    → (index_of b == index_of a) ≡ true
    → (tag_of b == tag_of a) ≡ (block_of b == block_of a)
unfolding cache_parse_address
blocks_of_line a b h = ground (arith, h)

-- An access hits if the block of its address is in the one line of the cache in which it can be. Afterwards that line
-- holds this block and no other one, and the other 255 lines hold the blocks that they held.
pub cache_access-holds_block :
    (c : Cache) (a : ℕ) (byte : Option ℕ) (w : Bool) (b : ℕ)
    → let (hit, _, c') = cache_access c a byte w in
      (hit ≡ holds_block c (block_of a))
      × (holds_block c' (block_of b) ≡ (
          if block_of b % 256 == block_of a % 256
          then block_of b == block_of a
          else holds_block c (block_of b)))
unfolding cache_parse_address
cache_access-holds_block c a byte w b =
    let (hit, after) = cache_access-looked_up c a byte w b in
    let c' = (cache_access c a byte w).2 in
    (
      hit ∙ sym (holds_block-resident c a),
      holds_block-resident c' b ∙ after ∙ elim (Bool-cases (index_of b == index_of a)) [
        | inl e ↦ rw (if_true e, if_true e) (blocks_of_line a b e)
        | inr e ↦ rw (if_false e, if_false e) (sym (holds_block-resident c b))
      ],
    )
