-- ===== src/Ipc/Tables.antt =====
-- The tables of kernel/ipc.c: initialization, and the life of an entry.
use my_operating_system_open.Prelude.{
  ℕ, refl, ap, inl, inr, true, false, not, none, some, [], arith, ◌<◌, ◌≡◌, ◌≢◌, ◌⊎◌, lt→ltb,
  Option-cases, if_true, if_false, update_self, update_ne, first_index, first_index-IsFirst,
  first_index-none,
}
use my_operating_system_open.Ipc.{
  Pipe, MsgQueue, Ipc, max_pipes, max_msg_queues, ipc_init, open_pipe, pipe_create,
}
use my_operating_system_open.Ipc.Pipes
use my_operating_system_open.Ipc.Pipes.{IsPipe}
use my_operating_system_open.Ipc.Queues.{IsQueue}

-- Every entry of both tables is well-formed.
pub record IsIpc (s : Ipc) : Type 0 where
  pub pipes : (i : ℕ) → i < max_pipes → IsPipe (s.pipes i)
  pub queues : (i : ℕ) → i < max_msg_queues → IsQueue (s.msg_queues i)

-- The first call of `ipc_init` makes every entry well-formed and closed, whatever was there.
pub ipc_init-IsIpc :
    (s : Ipc)
    → s.initialized ≡ false
    → IsIpc (ipc_init s)
      × ((i : ℕ) → i < max_pipes → ((ipc_init s).pipes i).is_open ≡ false)
      × ((i : ℕ) → i < max_msg_queues → ((ipc_init s).msg_queues i).is_open ≡ false)
      × (ipc_init (ipc_init s) ≡ ipc_init s)
unfolding ipc_init
ipc_init-IsIpc s fresh = rw (if_false fresh) (
  record {
    pipes = λ i h. rw (if_true (lt→ltb i max_pipes h)) (omega arith);
    queues = λ i h. rw (if_true (lt→ltb i max_msg_queues h)) (omega arith);
  },
  λ i h. ap (λ (p : Pipe). p.is_open) (if_true (lt→ltb i max_pipes h) _ _),
  λ i h. ap (λ (q : MsgQueue). q.is_open) (if_true (lt→ltb i max_msg_queues h) _ _),
  refl,
)

-- What opening a pipe does.
pub record Opened (s : Ipc) (reader writer i : ℕ) (t : Ipc) : Type 0 where
  pub in_table : i < max_pipes
  pub was_closed : (s.pipes i).is_open ≡ false
  pub lower_open : (j : ℕ) → j < i → (s.pipes j).is_open ≡ true
  pub is_open : (t.pipes i).is_open ≡ true
  pub reader_set : (t.pipes i).reader_pid ≡ reader
  pub writer_set : (t.pipes i).writer_pid ≡ writer
  pub valid : IsPipe (t.pipes i)
  pub empty : Pipes.contents (t.pipes i) ≡ []
  pub others : (j : ℕ) → j ≢ i → t.pipes j ≡ s.pipes j

-- `pipe_create` opens the first closed entry of the table as an empty pipe between the two
-- processes and leaves the other entries alone, or fails and changes nothing if all are open.
pub pipe_create-Opened :
    (s : Ipc) (reader writer : ℕ)
    → let (r, t) = pipe_create s reader writer in
      ((i : ℕ) × (r ≡ some i) × Opened s reader writer i t)
      ⊎ ((r ≡ none) × (t ≡ s) × ((i : ℕ) → i < max_pipes → (s.pipes i).is_open ≡ true))
unfolding pipe_create
pipe_create-Opened s reader writer =
    elim (Option-cases (first_index max_pipes 0 (λ i. not (s.pipes i).is_open))) [
      | inl e ↦
          rw (e, pipe_create)
            (inr (refl, refl, λ i h. ground (arith, first_index-none max_pipes 0 _ e i)))
      | inr (i, e) ↦
          let f = first_index-IsFirst max_pipes 0 _ e in
          rw (e, pipe_create)
            (inl (
              i,
              refl,
              unfold open_pipe in
                  record {
                    in_table = omega (arith, f.below);
                    was_closed = ground (arith, f.passes);
                    lower_open = λ j h. ground (arith, f.before j);
                    is_open = ap (λ (p : Pipe). p.is_open) (update_self s.pipes i _);
                    reader_set = ap (λ (p : Pipe). p.reader_pid) (update_self s.pipes i _);
                    writer_set = ap (λ (p : Pipe). p.writer_pid) (update_self s.pipes i _);
                    valid = rw (update_self s.pipes i) (omega arith);
                    empty = ap Pipes.contents (update_self s.pipes i _);
                    others = λ j ne. update_ne s.pipes i _ j ne;
                  },
            ))
    ]
