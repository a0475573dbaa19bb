-- ===== src/Ipc.antt =====
-- kernel/ipc.c and include/ipc.h: pipes (byte rings) and message queues (rings of messages) in two
-- static tables. A pointer into a table is the index of its entry, or `none` for NULL; -1 is the
-- `none` of a result. An array is a function of its index.
pub mod Pipes
pub mod Fifo
pub mod Queues
pub mod Tables
mod Tests
use my_operating_system_open.Prelude.{
  ℕ, zero, suc, Bool, true, false, not, Option, none, some, ◌+◌, ◌-◌, ◌%◌, ◌&&◌, ◌||◌, ◌==◌,
  if◌then◌else◌, ltb, leb, update, first_index,
}

abbrev pub pipe_buf_size : ℕ
pipe_buf_size = 4096

abbrev pub msg_queue_size : ℕ
msg_queue_size = 16

abbrev pub msg_max_size : ℕ
msg_max_size = 256

abbrev pub max_pipes : ℕ
max_pipes = 32

abbrev pub max_msg_queues : ℕ
max_msg_queues = 32

-- `pipe_t`
pub record Pipe : Type 0 where
  pub buffer : ℕ → ℕ
  pub read_pos : ℕ
  pub write_pos : ℕ
  pub count : ℕ
  pub reader_pid : ℕ
  pub writer_pid : ℕ
  pub is_open : Bool

-- `message_t`; `kind` is its field `type`, and `bytes` its array `data`.
pub record Message : Type 0 where
  pub sender_pid : ℕ
  pub kind : ℕ
  pub size : ℕ
  pub bytes : ℕ → ℕ

-- `msg_queue_t`
pub record MsgQueue : Type 0 where
  pub messages : ℕ → Message
  pub head : ℕ
  pub tail : ℕ
  pub count : ℕ
  pub owner_pid : ℕ
  pub is_open : Bool

-- The static storage of ipc.c.
pub record Ipc : Type 0 where
  pub pipes : ℕ → Pipe
  pub msg_queues : ℕ → MsgQueue
  pub initialized : Bool

-- `ipc_init`
pub ipc_init : Ipc → Ipc
ipc_init s = if s.initialized then s else record s {
  pipes = λ i.
      if ltb i max_pipes
      then record (s.pipes i) { is_open = false; read_pos = 0; write_pos = 0; count = 0 }
      else s.pipes i;
  msg_queues = λ i.
      if ltb i max_msg_queues
      then record (s.msg_queues i) { is_open = false; head = 0; tail = 0; count = 0 }
      else s.msg_queues i;
  initialized = true;
}

-- The entry that `pipe_create` fills in.
unfoldable open_pipe : Pipe → ℕ → ℕ → Pipe
open_pipe p reader writer = record p {
  is_open = true;
  reader_pid = reader;
  writer_pid = writer;
  read_pos = 0;
  write_pos = 0;
  count = 0;
}

-- `pipe_create`: the first closed entry
pub pipe_create : Ipc → ℕ → ℕ → Option ℕ × Ipc
pipe_create s reader writer = elim (first_index max_pipes 0 (λ i. not (s.pipes i).is_open)) [
  | none ↦ (none, s)
  | some i ↦ (some i, record s { pipes = update s.pipes i (open_pipe (s.pipes i) reader writer) })
]

-- One round of the loop of `pipe_write`.
put_byte : Pipe → ℕ → Pipe
put_byte p byte = record p {
  buffer = update p.buffer p.write_pos byte;
  write_pos = (p.write_pos + 1) % pipe_buf_size;
  count = p.count + 1;
}

-- `while (written < size && pipe->count < PIPE_BUF_SIZE)`, on fuel
write_loop : ℕ → (ℕ → ℕ) → ℕ → ℕ → Pipe → ℕ × Pipe
write_loop zero src written size p = (written, p)
write_loop (suc k) src written size p =
    let rest = write_loop k src (written + 1) size (put_byte p (src written)) in
    if ltb written size && ltb p.count pipe_buf_size then rest else (written, p)

-- `pipe_write`: the bytes are `src[0]`, `src[1]`, …; `size` rounds are enough.
pub pipe_write : Ipc → Option ℕ → Option (ℕ → ℕ) → ℕ → Option ℕ × Ipc
unfolding write_loop put_byte
pipe_write s none src size = (none, s)
pipe_write s (some i) none size = (none, s)
pipe_write s (some i) (some src) size =
    if (s.pipes i).is_open
    then (let (n, p) = write_loop size src 0 size (s.pipes i) in
        (some n, record s { pipes = update s.pipes i p }))
    else (none, s)

-- One round of the loop of `pipe_read`, but for the byte that it hands out.
drop_byte : Pipe → Pipe
drop_byte p = record p { read_pos = (p.read_pos + 1) % pipe_buf_size; count = p.count - 1 }

-- `while (read < size && pipe->count > 0)`, on fuel; the middle component is the caller's buffer.
read_loop : ℕ → (ℕ → ℕ) → ℕ → ℕ → Pipe → ℕ × (ℕ → ℕ) × Pipe
read_loop zero dst got size p = (got, dst, p)
read_loop (suc k) dst got size p =
    let rest = read_loop k (update dst got (p.buffer p.read_pos)) (got + 1) size (drop_byte p) in
    if ltb got size && ltb 0 p.count then rest else (got, dst, p)

-- `pipe_read`: the buffer comes back as it is left; `size` rounds are enough.
pub pipe_read : Ipc → Option ℕ → Option (ℕ → ℕ) → ℕ → Option ℕ × Option (ℕ → ℕ) × Ipc
unfolding read_loop drop_byte
pipe_read s none dst size = (none, dst, s)
pipe_read s (some i) none size = (none, none, s)
pipe_read s (some i) (some dst) size =
    if (s.pipes i).is_open
    then (let (n, dst', p) = read_loop size dst 0 size (s.pipes i) in
        (some n, some dst', record s { pipes = update s.pipes i p }))
    else (none, some dst, s)

-- `pipe_close`
unfoldable pub pipe_close : Ipc → Option ℕ → Ipc
pipe_close s none = s
pipe_close s (some i) = record s {
  pipes = update s.pipes i (record (s.pipes i) { is_open = false });
}

-- The entry that `msgqueue_create` fills in.
open_queue : MsgQueue → ℕ → MsgQueue
open_queue q owner = record q { is_open = true; owner_pid = owner; head = 0; tail = 0; count = 0 }

-- `msgqueue_create`
unfoldable pub msgqueue_create : Ipc → ℕ → Option ℕ × Ipc
unfolding open_queue
msgqueue_create s owner = elim (first_index max_msg_queues 0 (λ i. not (s.msg_queues i).is_open)) [
  | none ↦ (none, s)
  | some i ↦
      (some i, record s { msg_queues = update s.msg_queues i (open_queue (s.msg_queues i) owner) })
]

-- `memcpy(dst, src, n)` between byte arrays that do not overlap
abbrev copy_bytes : (ℕ → ℕ) → (ℕ → ℕ) → ℕ → ℕ → ℕ
copy_bytes dst src n i = if ltb i n then src i else dst i

-- The slot after `msgqueue_send` filled it in: without data the old bytes stay.
fill_message : Message → ℕ → ℕ → Option (ℕ → ℕ) → ℕ → Message
fill_message m sender kind none size = record m { sender_pid = sender; kind = kind; size = size }
fill_message m sender kind (some src) size = record m {
  sender_pid = sender;
  kind = kind;
  size = size;
  bytes = copy_bytes m.bytes src size;
}

-- `msgqueue_send`: true is 0, false is -1.
pub msgqueue_send : Ipc → Option ℕ → ℕ → ℕ → Option (ℕ → ℕ) → ℕ → Bool × Ipc
msgqueue_send s none sender kind src size = (false, s)
msgqueue_send s (some i) sender kind src size =
    if not q.is_open || ltb msg_max_size size
    then (false, s)
    else if leb msg_queue_size q.count
    then (false, s)
    else (
      true,
      record s {
        msg_queues = update s.msg_queues i (record q {
          messages =
              update q.messages q.tail (fill_message (q.messages q.tail) sender kind src size);
          tail = (q.tail + 1) % msg_queue_size;
          count = q.count + 1;
        });
      },
    )
  where
    q : MsgQueue
    q = s.msg_queues i

-- `msgqueue_receive` into a buffer that is there (`true`) or NULL; a message is 0, `none` is -1.
pub msgqueue_receive : Ipc → Option ℕ → Bool → Option Message × Ipc
msgqueue_receive s none buffer = (none, s)
msgqueue_receive s (some i) buffer =
    if not q.is_open || not buffer then (none, s) else if q.count == 0 then (none, s) else (
      some (q.messages q.head),
      record s {
        msg_queues =
            update s.msg_queues i
              (record q { head = (q.head + 1) % msg_queue_size; count = q.count - 1 });
      },
    )
  where
    q : MsgQueue
    q = s.msg_queues i

-- `msgqueue_close`
unfoldable pub msgqueue_close : Ipc → Option ℕ → Ipc
msgqueue_close s none = s
msgqueue_close s (some i) = record s {
  msg_queues = update s.msg_queues i (record (s.msg_queues i) { is_open = false });
}
