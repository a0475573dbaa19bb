-- ===== src/Ipc/Fifo.antt =====
-- A pipe of kernel/ipc.c as its users see it: a bounded FIFO of bytes.
use my_operating_system_open.Prelude.{
  ℕ, min, refl, ap, true, Option, none, some, List, [], arith, ◌-◌, ◌≡◌, ◌∙◌, ◌∷◌, ◌++◌, length,
  take, drop, slice, length-slice, take-append, drop-append,
}
use mathlib.Core.Path.{ap₂}
use my_operating_system_open.Ring.{length-window}
use my_operating_system_open.Ipc.{Ipc, pipe_buf_size, pipe_write, pipe_read}
use my_operating_system_open.Ipc.Pipes.{IsPipe, contents, pipe_write-Written, pipe_read-Read}

-- What a user does: writes `size` bytes of a buffer, or reads up to `size` bytes.
pub data Op : Type 0 where
  put : (ℕ → ℕ) → ℕ → Op
  get : ℕ → Op

-- What a user sees: how many bytes were written, and which bytes were read.
pub data Reply : Type 0 where
  wrote : Option ℕ → Reply
  got : Option (List ℕ) → Reply

-- The bytes that a read of `n` bytes left in the buffer.
delivered : Option ℕ → Option (ℕ → ℕ) → Option (List ℕ)
delivered (some n) (some buf) = some (slice buf 0 n)
delivered _ _ = none

-- The calls of a user of the pipe with index `i`, one after the other.
unfoldable pub run : Ipc → ℕ → List Op → List Reply
unfolding delivered
run s i [] = []
run s i (put src size ∷ ops) =
    let (r, t) = pipe_write s (some i) (some src) size in wrote r ∷ run t i ops
run s i (get size ∷ ops) =
    let (r, buf, t) = pipe_read s (some i) (some (λ _. 0)) size in
    got (delivered r buf) ∷ run t i ops

-- The same calls on a queue of at most `pipe_buf_size` bytes.
pub fifo : List ℕ → List Op → List Reply
fifo q [] = []
fifo q (put src size ∷ ops) =
    let n = min size (pipe_buf_size - length q) in wrote (some n) ∷ fifo (q ++ slice src 0 n) ops
fifo q (get size ∷ ops) = let n = min size (length q) in got (some (take n q)) ∷ fifo (drop n q) ops

-- No sequence of writes and reads tells an open, well-formed pipe from the bounded queue of the
-- bytes in it.
pub run-fifo :
    (ops : List Op) (s : Ipc) (i : ℕ)
    → IsPipe (s.pipes i)
    → (s.pipes i).is_open ≡ true
    → run s i ops ≡ fifo (contents (s.pipes i)) ops
unfolding run fifo delivered
run-fifo [] s i v o = refl
run-fifo (put src size ∷ ops) s i v o =
    let w = pipe_write-Written s i src size v o in
    rw (length-window (s.pipes i).buffer pipe_buf_size (s.pipes i).read_pos (s.pipes i).count) (
      ap₂ (λ r rest. wrote r ∷ rest) w.count
        (run-fifo ops _ i w.valid w.still_open ∙ ap (λ q. fifo q ops) w.bytes))
run-fifo (get size ∷ ops) s i v o =
    let w = pipe_read-Read s i (λ _. 0) size v o in
    let n = min size (s.pipes i).count in
    let taken : n ≡ length (slice w.out 0 n) = omega (arith, length-slice w.out 0 n) in
    rw
      (
        length-window (s.pipes i).buffer pipe_buf_size (s.pipes i).read_pos (s.pipes i).count,
        w.count,
        w.returned,
        w.bytes,
        take-append n (slice w.out 0 n) (contents _) taken,
        drop-append n (slice w.out 0 n) (contents _) taken,
      )
      (ap (λ rest. got (some (slice w.out 0 n)) ∷ rest) (run-fifo ops _ i w.valid w.still_open))
