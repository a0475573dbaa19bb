-- ===== src/Vfs/Files.antt =====
-- Reading and writing the files of fs/vfs.c.
use my_operating_system_open.Prelude.{
  ℕ, zero, suc, min, max, refl, ap, inl, inr, false, not, some, arith, ◌+◌, ◌-◌, ◌^◌, ◌≤◌, ◌<◌, ◌≡◌,
  ◌∙◌, ◌≢◌, ◌⊎◌, ◌&&◌, ◌==◌, if◌then◌else◌, ltb, leb, eq→==, ==→eq, Bool-cases, if_true, if_false,
  update, update_self, update_ne, add32,
}
use my_operating_system_open.Vfs.{
  Node, Vfs, file, is_file, copy_in, copy_out, read_size, write_size, ramfs_read, ramfs_write,
  vfs_read, vfs_write,
}

-- The loop of ramfs_write changes nothing else.
copy_in-outside :
    (n i : ℕ) (content : ℕ → ℕ) (offset : ℕ) (buffer : ℕ → ℕ) (j : ℕ)
    → ((k : ℕ) → i ≤ k → k < i + n → j ≢ add32 offset k)
    → copy_in n i content offset buffer j ≡ content j
unfolding copy_in
copy_in-outside zero i content offset buffer j h = refl
copy_in-outside (suc n) i content offset buffer j h =
    copy_in-outside n (i + 1) (update content (add32 offset i) (buffer i)) offset buffer j
      (λ k lo hi. h k (omega arith) (omega arith))
    ∙ update_ne content (add32 offset i) (buffer i) j (h i (omega arith) (omega arith))

-- The bytes of the loop of ramfs_write, wherever 32-bit addition leads.
copy_in-inside :
    (n i : ℕ) (content : ℕ → ℕ) (offset : ℕ) (buffer : ℕ → ℕ) (k : ℕ)
    → i ≤ k
    → k < i + n
    → i + n ≤ 2 ^ 32
    → copy_in n i content offset buffer (add32 offset k) ≡ buffer k
unfolding copy_in
copy_in-inside zero i content offset buffer k lo hi small = absurd (omega arith)
copy_in-inside (suc n) i content offset buffer k lo hi small = elim (Bool-cases (i == k)) [
  | inl e ↦
      let same : i ≡ k = ==→eq i k e in
      rw (← same) (
        copy_in-outside n (i + 1) (update content (add32 offset i) (buffer i)) offset buffer
          (add32 offset i) (λ m l h eq. absurd (omega arith))
        ∙ update_self content (add32 offset i) (buffer i))
  | inr e ↦
      copy_in-inside n (i + 1) (update content (add32 offset i) (buffer i)) offset buffer k
        (ground (arith, e)) (omega arith) (omega arith)
]

-- The bytes of the loop of ramfs_read.
copy_out-at :
    (n i : ℕ) (content : ℕ → ℕ) (offset : ℕ) (buffer : ℕ → ℕ) (j : ℕ)
    → copy_out n i content offset buffer j
      ≡ (if leb i j && ltb j (i + n) then content (add32 offset j) else buffer j)
unfolding copy_out
copy_out-at zero i content offset buffer j = ground arith
copy_out-at (suc n) i content offset buffer j =
    copy_out-at n (i + 1) content offset (update buffer i (content (add32 offset i))) j
    ∙ ground arith

-- What a write leaves of a file.
pub record WrittenFile (before after : Node) (offset size : ℕ) (buffer : ℕ → ℕ) : Type 0 where
  pub inside : (k : ℕ) → k < size → after.content (offset + k) ≡ buffer k
  pub outside : (j : ℕ) → j < offset ⊎ offset + size ≤ j → after.content j ≡ before.content j
  pub length : after.length ≡ max before.length (offset + size)

-- The node that `ramfs_write` makes when `size` bytes fit.
extended :
    (b : Node) (offset size : ℕ) (buffer : ℕ → ℕ)
    → offset + size ≤ 4096
    → WrittenFile b
        (record b {
          content = copy_in size 0 b.content offset buffer;
          length = if ltb b.length (add32 offset size) then add32 offset size else b.length;
        })
        offset
        size
        buffer
extended b offset size buffer h = record {
  inside = λ k hk.
      (let same : offset + k ≡ add32 offset k = omega arith in
        rw same (
          copy_in-inside size 0 b.content offset buffer k (omega arith) (omega arith)
            (omega arith)));
  outside =
      λ j hj. copy_in-outside size 0 b.content offset buffer j (λ k lo hi eq. ground (arith, hj));
  length = ground arith;
}

-- A write to a file from an offset within the 4096 bytes of its array, up to an end below 2^32: it takes as many bytes as fit
-- behind the offset, and returns how many; they stand in the file, no other byte (in the array or
-- behind it) is changed, and the length covers them.
pub vfs_write-WrittenFile :
    (s : Vfs) (i offset size : ℕ) (buffer : ℕ → ℕ)
    → (s.pool i).kind ≡ file
    → offset ≤ 4096
    → offset + size < 2 ^ 32
    → let (r, s') = vfs_write s (some i) offset size buffer in
      let n = min size (4096 - offset) in
      (r ≡ n) × WrittenFile (s.pool i) (s'.pool i) offset n buffer
unfolding vfs_write ramfs_write write_size
vfs_write-WrittenFile s i offset size buffer hk ho hs =
    let b = s.pool i in
    let go : not (is_file b.kind) ≡ false = rw hk refl in
    let cut : write_size offset size ≡ min size (4096 - offset) = ground arith in
    rw (if_false go, cut, eq→== i i refl)
      (refl, extended b offset (min size (4096 - offset)) buffer (omega arith))

ramfs_read-all :
    (n : Node) (offset size : ℕ) (buffer : ℕ → ℕ)
    → not (is_file n.kind) ≡ false
    → offset + size ≤ 4096
    → 0 < size
    → offset + size ≤ n.length
    → ramfs_read n offset size buffer ≡ (size, copy_out size 0 n.content offset buffer)
unfolding ramfs_read read_size
ramfs_read-all n offset size buffer go hs hp hl =
    let more : leb n.length offset ≡ false = ground arith in
    let fits : ltb n.length (add32 offset size) ≡ false = ground arith in
    rw (if_false go, if_false more, fits) refl

-- After a write of bytes that fit into a file, a read of the same range returns all of them.
pub vfs_write-vfs_read :
    (s : Vfs) (i offset size : ℕ) (buffer old : ℕ → ℕ)
    → (s.pool i).kind ≡ file
    → offset + size ≤ 4096
    → 0 < size
    → let (_, s') = vfs_write s (some i) offset size buffer in
      let (r, out) = vfs_read s' (some i) offset size old in
      (r ≡ size) × ((k : ℕ) → k < size → out k ≡ buffer k) × ((k : ℕ) → size ≤ k → out k ≡ old k)
unfolding vfs_read vfs_write ramfs_write write_size
vfs_write-vfs_read s i offset size buffer old hk hs hp =
    let b = s.pool i in
    let go : not (is_file b.kind) ≡ false = rw hk refl in
    let cut : write_size offset size ≡ size = ground arith in
    let w = extended b offset size buffer hs in
    let n = record b {
      content = copy_in size 0 b.content offset buffer;
      length = if ltb b.length (add32 offset size) then add32 offset size else b.length;
    } in
    let out = copy_out-at size 0 n.content offset old in
    rw
      (
        if_false go,
        cut,
        eq→== i i refl,
        ramfs_read-all n offset size old go hs hp (omega (arith, w.length)),
      )
      (
        refl,
        (λ k h.
            out k
            ∙ if_true {b = leb 0 k && ltb k (0 + size)} (ground arith) _ _
            ∙ copy_in-inside size 0 b.content offset buffer k (omega arith) (omega arith)
                (omega arith)),
        (λ k h. out k ∙ if_false {b = leb 0 k && ltb k (0 + size)} (ground arith) _ _),
      )

-- A write to a file from an offset behind its array of 4096 bytes, up to an end below 2^32, is not refused: the first
-- byte is stored at `offset` itself, behind the array, and the result is the 32 bits of 4096 - offset.
pub vfs_write-overruns :
    (s : Vfs) (i offset size : ℕ) (buffer : ℕ → ℕ)
    → (s.pool i).kind ≡ file
    → 4096 < offset
    → offset + size < 2 ^ 32
    → let (r, s') = vfs_write s (some i) offset size buffer in
      (r + (offset - 4096) ≡ 2 ^ 32) × ((s'.pool i).content offset ≡ buffer 0)
unfolding vfs_write ramfs_write write_size
vfs_write-overruns s i offset size buffer hk ho hs =
    let b = s.pool i in
    let n = 2 ^ 32 + 4096 - offset in
    let go : not (is_file b.kind) ≡ false = rw hk refl in
    let cut : write_size offset size ≡ n = ground arith in
    let here : offset ≡ add32 offset 0 = omega arith in
    rw (if_false go, cut, eq→== i i refl)
      (
        omega arith,
        ap (copy_in n 0 b.content offset buffer) here
            ∙ copy_in-inside n 0 b.content offset buffer 0 (omega arith) (omega arith)
                (omega arith),
      )
