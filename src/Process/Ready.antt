-- ===== src/Process/Ready.antt =====
-- The ready queues of process/scheduler.c: three lists, linked through the `next` fields of the
-- process table, with a head and a tail pointer each.
pub mod Queues
pub mod Enqueue
pub mod Pick
pub mod Dequeue
use my_operating_system_open.Prelude.{
  ℕ, zero, suc, Bool, true, false, Option, none, some, ◌+◌, ◌-◌, ◌==◌, if◌then◌else◌, leb, update,
}
use my_operating_system_open.Process.Table.{Process, Kernel, process_max, priority_levels, put}

-- `p->next = v`
unfoldable pub set_next : (ℕ → Process) → ℕ → Option ℕ → ℕ → Process
set_next table i v = update table i (record (table i) { next = v })

-- The queue that a priority stands for.
unfoldable pub level : ℕ → ℕ
level priority = if leb priority_levels priority then priority_levels - 1 else priority

-- What `scheduler_enqueue` links, once the slot is reset.
link_last : Kernel → ℕ → ℕ → Option ℕ → Kernel
link_last k p q none = record k {
  queue_head = update k.queue_head q (some p);
  queue_tail = update k.queue_tail q (some p);
}
link_last k p q (some t) = record k {
  table = set_next k.table t (some p);
  queue_tail = update k.queue_tail q (some p);
}

-- `scheduler_enqueue`
unfoldable pub scheduler_enqueue : Kernel → ℕ → Kernel
unfolding link_last level set_next
scheduler_enqueue k p =
    let q = level (k.table p).priority in
    let k' = put k p (record (k.table p) { next = none; wait_ticks = 0 }) in
    if (k.table p).pid == 0 then k else link_last k' p q (k.queue_tail q)

-- Whether a pointer is `p`.
abbrev points_at : Option ℕ → ℕ → Bool
points_at none p = false
points_at (some t) p = t == p

-- What `scheduler_dequeue` does when it has found the slot `p` behind `prev` in queue `q`.
unlink : Kernel → ℕ → ℕ → Option ℕ → Kernel
unlink k p q prev = record k {
  table =
      set_next (elim prev [ none ↦ k.table | some r ↦ set_next k.table r (k.table p).next ]) p none;
  queue_head = elim prev [ none ↦ update k.queue_head q (k.table p).next | some r ↦ k.queue_head ];
  queue_tail = if points_at (k.queue_tail q) p then update k.queue_tail q prev else k.queue_tail;
}

-- The walk along one queue, on fuel: whether `p` was found, and the state.
dequeue_walk : ℕ → Kernel → ℕ → ℕ → Option ℕ → Option ℕ → Bool × Kernel
dequeue_walk zero k p q prev it = (false, k)
dequeue_walk (suc f) k p q prev none = (false, k)
dequeue_walk (suc f) k p q prev (some i) =
    let rest = dequeue_walk f k p q (some i) (k.table i).next in
    if i == p then (true, unlink k p q prev) else rest

-- The loop over the queues.
dequeue_levels : ℕ → ℕ → Kernel → ℕ → Kernel
dequeue_levels zero q k p = k
dequeue_levels (suc r) q k p =
    let (found, k') = dequeue_walk (process_max + 1) k p q none (k.queue_head q) in
    let rest = dequeue_levels r (q + 1) k p in if found then k' else rest

-- `scheduler_dequeue`; a queue has at most 64 processes, so 65 steps reach its end.
unfoldable pub scheduler_dequeue : Kernel → ℕ → Kernel
unfolding dequeue_levels dequeue_walk unlink set_next
scheduler_dequeue k p = dequeue_levels priority_levels 0 k p

-- `if (!queue_head[q]) queue_tail[q] = 0;`, given the new head
tails_after : (ℕ → Option ℕ) → ℕ → Option ℕ → ℕ → Option ℕ
tails_after tails q none = update tails q none
tails_after tails q (some _) = tails

-- The head `p` of queue `q` is taken off.
take_head : Kernel → ℕ → ℕ → Kernel
take_head k p q = record k {
  table = set_next k.table p none;
  queue_head = update k.queue_head q (k.table p).next;
  queue_tail = tails_after k.queue_tail q (k.table p).next;
}

pick_levels : ℕ → ℕ → Kernel → Option ℕ × Kernel
pick_levels zero q k = (none, k)
pick_levels (suc r) q k =
    let rest = pick_levels r (q + 1) k in
    elim (k.queue_head q) [ none ↦ rest | some p ↦ (some p, take_head k p q) ]

-- `pick_next`
unfoldable pub pick_next : Kernel → Option ℕ × Kernel
unfolding pick_levels take_head tails_after set_next
pick_next k = pick_levels priority_levels 0 k
