-- ===== src/Ipc/Pipes.antt =====
-- The pipes of kernel/ipc.c against a bounded queue of bytes.
use my_operating_system_open.Prelude.{
  ℕ, zero, suc, min, refl, sym, ap, inl, inr, Bool, true, false, Option, some, List, [], append-nil,
  append_assoc, arith, ◌+◌, ◌-◌, ◌%◌, ◌≤◌, ◌<◌, ◌≡◌, ◌∙◌, ◌≢◌, ◌⊎◌, ◌&&◌, ◌∷◌, ◌++◌, ltb, if_true,
  update, slice, update_self, update_ne,
}
use mathlib.Core.Path.{ap₂}
use native.Mathlib.Numerals.{add-one}
use my_operating_system_open.Ring.{window, window-push, window-pop}
use my_operating_system_open.Ipc.{
  Pipe, Ipc, pipe_buf_size, put_byte, drop_byte, write_loop, read_loop, pipe_write, pipe_read,
}

-- The positions lie in the buffer, and the write position is `count` cells ahead of the read one.
pub record IsPipe (p : Pipe) : Type 0 where
  pub read_in : p.read_pos < pipe_buf_size
  pub count_in : p.count ≤ pipe_buf_size
  pub ahead : p.write_pos ≡ (p.read_pos + p.count) % pipe_buf_size

-- The bytes in a pipe, oldest first.
abbrev pub contents : Pipe → List ℕ
contents p = window p.buffer pipe_buf_size p.read_pos p.count

put_byte-IsPipe : (p : Pipe) (b : ℕ) → IsPipe p → p.count < pipe_buf_size → IsPipe (put_byte p b)
unfolding put_byte
put_byte-IsPipe p b v h = omega arith

contents-put_byte :
    (p : Pipe) (b : ℕ)
    → IsPipe p
    → p.count < pipe_buf_size
    → contents (put_byte p b) ≡ contents p ++ (b ∷ [])
unfolding put_byte
contents-put_byte p b v h =
    rw (add-one p.count)
      (window-push p.buffer pipe_buf_size p.read_pos p.count p.write_pos b v.read_in h v.ahead)

-- What the loop of `pipe_write` has done when it stops, if there are `n` bytes that fit.
record Wrote (src : ℕ → ℕ) (written n : ℕ) (p : Pipe) (out : ℕ × Pipe) : Type 0 where
  valid : IsPipe out.1
  total : out.0 ≡ written + n
  bytes : contents out.1 ≡ contents p ++ slice src written n
  still_open : out.1.is_open ≡ p.is_open

write_loop-Wrote :
    (k : ℕ) (src : ℕ → ℕ) (written size n : ℕ) (p : Pipe)
    → IsPipe p
    → size ≤ written + k
    → n ≡ min (size - written) (pipe_buf_size - p.count)
    → Wrote src written n p (write_loop k src written size p)
unfolding write_loop
write_loop-Wrote zero src written size zero p v h e = record {
  valid = v;
  total = omega arith;
  bytes = sym (append-nil (contents p));
  still_open = refl;
}
write_loop-Wrote zero src written size (suc n) p v h e = absurd (omega arith)
write_loop-Wrote (suc k) src written size zero p v h e =
    let stop : (ltb written size && ltb p.count pipe_buf_size) ≡ false = ground arith in
    rw stop (record {
      valid = v;
      total = omega arith;
      bytes = sym (append-nil (contents p));
      still_open = refl;
    })
write_loop-Wrote (suc k) src written size (suc n) p v h e =
    let go : (ltb written size && ltb p.count pipe_buf_size) ≡ true = ground arith in
    let p' = put_byte p (src written) in
    let room : p.count < pipe_buf_size = omega arith in
    let rest : Wrote src (written + 1) n p' (write_loop k src (written + 1) size p') =
      write_loop-Wrote k src (written + 1) size n p' (put_byte-IsPipe p (src written) v room)
        (omega arith) (unfold put_byte in omega arith) in
    rw go (record {
      valid = rest.valid;
      total = omega (arith, rest.total);
      bytes =
          rest.bytes
          ∙ ap (λ w. w ++ slice src (written + 1) n) (contents-put_byte p (src written) v room)
          ∙ append_assoc (contents p) (src written ∷ []) (slice src (written + 1) n)
          ∙ ap (λ k. contents p ++ (src written ∷ slice src k n)) (add-one written);
      still_open = rest.still_open ∙ unfold put_byte in refl;
    })

-- What `pipe_write` reports and leaves behind: as many bytes as fit are appended in order.
pub record Written (s : Ipc) (i : ℕ) (src : ℕ → ℕ) (size : ℕ) (r : Option ℕ) (t : Ipc)
    : Type 0 where
  pub count : r ≡ some (min size (pipe_buf_size - (s.pipes i).count))
  pub bytes :
      contents (t.pipes i)
      ≡ contents (s.pipes i) ++ slice src 0 (min size (pipe_buf_size - (s.pipes i).count))
  pub valid : IsPipe (t.pipes i)
  pub still_open : (t.pipes i).is_open ≡ true
  pub others : (j : ℕ) → j ≢ i → t.pipes j ≡ s.pipes j

-- On an open, well-formed pipe, `pipe_write` writes as many of the `size` bytes as the buffer has
-- room for, reports their number, appends exactly these bytes in order, keeps the pipe
-- well-formed and open, and changes no other pipe.
pub pipe_write-Written :
    (s : Ipc) (i : ℕ) (src : ℕ → ℕ) (size : ℕ)
    → IsPipe (s.pipes i)
    → (s.pipes i).is_open ≡ true
    → let (r, t) = pipe_write s (some i) (some src) size in Written s i src size r t
unfolding pipe_write
pipe_write-Written s i src size v o =
    let n = min size (pipe_buf_size - (s.pipes i).count) in
    let w = write_loop-Wrote size src 0 size n (s.pipes i) v (omega arith) (omega arith) in
    rw (if_true o) (record {
      count = ap some (omega (arith, w.total));
      bytes = ap contents (update_self s.pipes i _) ∙ w.bytes;
      valid = rw (update_self s.pipes i) w.valid;
      still_open = ap is_open (update_self s.pipes i _) ∙ w.still_open ∙ o;
      others = λ j ne. update_ne s.pipes i _ j ne;
    })
  where
    is_open : Pipe → Bool
    is_open p = p.is_open

drop_byte-IsPipe : (p : Pipe) → IsPipe p → 0 < p.count → IsPipe (drop_byte p)
unfolding drop_byte
drop_byte-IsPipe p v h = omega arith

contents-drop_byte :
    (p : Pipe) → 0 < p.count → contents p ≡ p.buffer p.read_pos ∷ contents (drop_byte p)
unfolding drop_byte
contents-drop_byte p h = window-pop p.buffer pipe_buf_size p.read_pos p.count h

-- What the loop of `pipe_read` has done when it stops, if there are `n` bytes to take.
record Taken (dst : ℕ → ℕ) (got n : ℕ) (p : Pipe) (out : ℕ × (ℕ → ℕ) × Pipe) : Type 0 where
  valid : IsPipe out.2
  total : out.0 ≡ got + n
  bytes : contents p ≡ slice out.1 got n ++ contents out.2
  outside : (j : ℕ) → (j < got) ⊎ (got + n ≤ j) → out.1 j ≡ dst j
  still_open : out.2.is_open ≡ p.is_open

read_loop-Taken :
    (k : ℕ) (dst : ℕ → ℕ) (got size n : ℕ) (p : Pipe)
    → IsPipe p
    → size ≤ got + k
    → n ≡ min (size - got) p.count
    → Taken dst got n p (read_loop k dst got size p)
unfolding read_loop
read_loop-Taken zero dst got size zero p v h e = record {
  valid = v;
  total = omega arith;
  bytes = refl;
  outside = λ j o. refl;
  still_open = refl;
}
read_loop-Taken zero dst got size (suc n) p v h e = absurd (omega arith)
read_loop-Taken (suc k) dst got size zero p v h e =
    let stop : (ltb got size && ltb 0 p.count) ≡ false = ground arith in
    rw stop (record {
      valid = v;
      total = omega arith;
      bytes = refl;
      outside = λ j o. refl;
      still_open = refl;
    })
read_loop-Taken (suc k) dst got size (suc n) p v h e =
    let go : (ltb got size && ltb 0 p.count) ≡ true = ground arith in
    let some_left : 0 < p.count = omega arith in
    let dst' = update dst got (p.buffer p.read_pos) in
    let p' = drop_byte p in
    let rest : Taken dst' (got + 1) n p' (read_loop k dst' (got + 1) size p') =
      read_loop-Taken k dst' (got + 1) size n p' (drop_byte-IsPipe p v some_left) (omega arith)
        (unfold drop_byte in omega arith) in
    let out = read_loop k dst' (got + 1) size p' in
    let first : out.1 got ≡ p.buffer p.read_pos =
      rest.outside got (inl (omega arith)) ∙ update_self dst got (p.buffer p.read_pos) in
    rw go (record {
      valid = rest.valid;
      total = omega (arith, rest.total);
      bytes =
          contents-drop_byte p some_left
          ∙ ap₂ ◌∷◌ (sym first)
              (rest.bytes ∙ ap (λ k. slice out.1 k n ++ contents out.2) (add-one got));
      outside = λ j o. ground (arith, rest.outside j);
      still_open = rest.still_open ∙ unfold drop_byte in refl;
    })

-- What `pipe_read` reports and leaves behind: the oldest bytes, moved to the front of the buffer.
pub record Read (s : Ipc) (i : ℕ) (dst : ℕ → ℕ) (size : ℕ) (r : Option ℕ) (buf : Option (ℕ → ℕ))
    (t : Ipc) : Type 0 where
  pub count : r ≡ some (min size (s.pipes i).count)
  pub out : ℕ → ℕ
  pub returned : buf ≡ some out
  pub bytes :
      contents (s.pipes i) ≡ slice out 0 (min size (s.pipes i).count) ++ contents (t.pipes i)
  pub outside : (j : ℕ) → min size (s.pipes i).count ≤ j → out j ≡ dst j
  pub valid : IsPipe (t.pipes i)
  pub still_open : (t.pipes i).is_open ≡ true
  pub others : (j : ℕ) → j ≢ i → t.pipes j ≡ s.pipes j

-- On an open, well-formed pipe, `pipe_read` moves as many of the oldest bytes as are asked for and
-- there, in order, to the front of the caller's buffer, reports their number, leaves the rest of
-- that buffer and of the pipe as they were, keeps the pipe well-formed and open, and changes no
-- other pipe.
pub pipe_read-Read :
    (s : Ipc) (i : ℕ) (dst : ℕ → ℕ) (size : ℕ)
    → IsPipe (s.pipes i)
    → (s.pipes i).is_open ≡ true
    → let (r, buf, t) = pipe_read s (some i) (some dst) size in Read s i dst size r buf t
unfolding pipe_read
pipe_read-Read s i dst size v o =
    let n = min size (s.pipes i).count in
    let w = read_loop-Taken size dst 0 size n (s.pipes i) v (omega arith) (omega arith) in
    rw (if_true o) (record {
      count = ap some (omega (arith, w.total));
      out = (read_loop size dst 0 size (s.pipes i)).1;
      returned = refl;
      bytes =
          w.bytes
          ∙ ap (λ p. slice (read_loop size dst 0 size (s.pipes i)).1 0 n ++ contents p)
              (sym (update_self s.pipes i _));
      outside = λ j h. w.outside j (inr (omega arith));
      valid = rw (update_self s.pipes i) w.valid;
      still_open = ap is_open (update_self s.pipes i _) ∙ w.still_open ∙ o;
      others = λ j ne. update_ne s.pipes i _ j ne;
    })
  where
    is_open : Pipe → Bool
    is_open p = p.is_open
