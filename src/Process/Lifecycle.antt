-- ===== src/Process/Lifecycle.antt =====
-- The life of a process in process/process.c: creation, exit, kill, wait and sleep. The pointer that
-- kmalloc returns (0 for NULL) is an argument; what goes to kfree is recorded in `freed`. Addresses
-- of functions are numbers, 0 being NULL.
use my_operating_system_open.Prelude.{
  ℕ, Bool, true, false, not, Option, none, some, List, [], ◌-◌, ◌*◌, ◌/◌, ◌^◌, ◌&&◌, ◌||◌, ◌∷◌,
  ◌==◌, if◌then◌else◌, leb, update, add32, sub32, add64, first_index,
}
use my_operating_system_open.Process.Table.{
  unused, ready, blocked, sleeping, zombie, ◌=s◌, Process, Kernel, process_max, kstack_size,
  ustack_size, priority_levels, sched_quantum_ticks, put, copy_name, alloc_pcb, process_by_pid,
  process_release,
}
use my_operating_system_open.Process.Ready.{scheduler_enqueue, scheduler_dequeue}
use my_operating_system_open.Process.Schedule.{
  Switch, schedule, scheduler_yield, scheduler_block_current, scheduler_unblock,
}

-- `*(--sp) = v` for each of the words, in the order given
unfoldable pub push_words : (ℕ → ℕ) → ℕ → List ℕ → (ℕ → ℕ) × ℕ
push_words memory sp [] = (memory, sp)
push_words memory sp (v ∷ vs) = push_words (update memory (sub32 sp 4) v) (sub32 sp 4) vs

-- The words of a new kernel stack: argument, return address, entry, EFLAGS, and four registers.
initial_frame : ℕ → ℕ → ℕ → List ℕ
initial_frame arg thread_exit entry = arg ∷ thread_exit ∷ entry ∷ 0x202 ∷ 0 ∷ 0 ∷ 0 ∷ 0 ∷ []

-- The slot of a new kernel thread, with the stack pointer behind the initial frame.
new_thread : Process → List ℕ → ℕ → ℕ → ℕ → ℕ → Process
new_thread p name ppid priority stack esp = record (copy_name p name) {
  ppid = ppid;
  priority = priority;
  base_priority = priority;
  quantum_left = sched_quantum_ticks;
  kstack = stack;
  kstack_top = add32 stack kstack_size;
  is_user = false;
  esp = esp;
  state = ready;
}

-- The part of `process_create` after the stack was allocated; `thread_exit` is the address of
-- `process_thread_exit`.
create_on : ℕ → Kernel → List ℕ → ℕ → ℕ → ℕ → ℕ → Option ℕ × Kernel
create_on thread_exit k name entry arg priority stack =
    let (slot, k') = alloc_pcb k in
    elim slot [
      | none ↦ (none, record k' { freed = stack ∷ k'.freed })
      | some i ↦
          let ppid = (k'.table k'.current).pid in
          let (memory, esp) =
            push_words k'.memory (add32 stack kstack_size) (initial_frame arg thread_exit entry) in
          (
            some i,
            scheduler_enqueue
                (record k' {
                  table = update k'.table i (new_thread (k'.table i) name ppid priority stack esp);
                  memory = memory;
                })
                i,
          )
    ]

-- `process_create`; `stack` is what kmalloc returns for the kernel stack.
unfoldable pub process_create : ℕ → Kernel → List ℕ → ℕ → ℕ → ℕ → ℕ → Option ℕ × Kernel
unfolding create_on new_thread push_words initial_frame
process_create thread_exit k name entry arg priority stack =
    if entry == 0 || leb priority_levels priority
    then (none, k)
    else if stack == 0
    then (none, k)
    else create_on thread_exit k name entry arg priority stack

-- `process_create_user`: `ustack` and `stack` are what kmalloc returns for the two stacks, and
-- `trampoline` is the address of `user_process_trampoline`.
unfoldable pub process_create_user : ℕ → ℕ → Kernel → List ℕ → ℕ → ℕ → ℕ → ℕ → Option ℕ × Kernel
process_create_user thread_exit trampoline k name entry priority ustack stack =
    let (slot, k') = process_create thread_exit k name trampoline 0 priority stack in
    if ustack == 0 then (none, k) else elim slot [
      | none ↦ (none, record k' { freed = ustack ∷ k'.freed })
      | some i ↦ (
        some i,
        put k' i (record (k'.table i) {
          is_user = true;
          ustack = ustack;
          ustack_top = sub32 (add32 ustack ustack_size / 16 * 16) 16;
          user_entry = entry;
        }),
      )
    ]

-- The slot of a process that ended: a zombie with its exit code and without its user stack.
ended : Process → ℕ → Process
ended p code = record p { exit_code = code; state = zombie; ustack = 0 }

-- A zombie is made of slot `i`, and its user stack is freed.
end_process : Kernel → ℕ → ℕ → Kernel
end_process k i code = record k {
  table = update k.table i (ended (k.table i) code);
  freed = if (k.table i).ustack == 0 then k.freed else (k.table i).ustack ∷ k.freed;
}

-- A parent that is blocked in `process_wait` is woken.
wake_parent : Kernel → ℕ → Kernel
wake_parent k ppid = elim (process_by_pid k ppid) [
  | none ↦ k
  | some r ↦
      if (k.table r).parent_waiting && (k.table r).state =s blocked
      then scheduler_unblock k r
      else k
]

-- `process_exit`: it never returns to its caller.
unfoldable pub process_exit : Kernel → ℕ → Switch × Kernel
unfolding end_process ended wake_parent
process_exit k code = schedule (wake_parent (end_process k k.current code) (k.table k.current).ppid)

-- What `process_kill` comes to: a result, or the exit of the caller.
pub data Killed : Type 0 where
  failed : Killed
  done : Kernel → Killed
  exits : Switch × Kernel → Killed

-- The bit pattern of the int -1.
abbrev pub minus_one : ℕ
minus_one = 2 ^ 32 - 1

kill_slot : Kernel → ℕ → Killed
kill_slot k i =
    if (k.table i).state =s unused || (k.table i).state =s zombie
    then failed
    else if i == k.current
    then exits (process_exit k minus_one)
    else done (
        wake_parent (end_process (scheduler_dequeue k i) i minus_one)
          ((scheduler_dequeue k i).table i).ppid)

-- `process_kill`
unfoldable pub process_kill : Kernel → ℕ → Killed
unfolding kill_slot end_process ended wake_parent
process_kill k pid =
    if pid == 0
    then failed
    else elim (process_by_pid k pid) [ none ↦ failed | some i ↦ kill_slot k i ]

-- Whether slot `i` is a child of the current process.
is_child : Kernel → ℕ → Bool
is_child k i =
    not ((k.table i).state =s unused)
    && (k.table i).ppid == (k.table k.current).pid
    && not (i == k.current)

-- What one round of `process_wait` comes to: a child's pid and exit code, -1, or the switch away.
pub data Waited : Type 0 where
  reaped : ℕ → ℕ → Kernel → Waited
  no_children : Waited
  waits : Switch × Kernel → Waited

-- The current process is marked and blocked.
block_waiting : Kernel → Switch × Kernel
block_waiting k =
    scheduler_block_current
      (put k k.current (record (k.table k.current) { parent_waiting = true; state = blocked }))

-- `process_wait`, one round of its loop
unfoldable pub process_wait : Kernel → Waited
unfolding is_child block_waiting
process_wait k =
    elim (first_index process_max 0 (λ i. is_child k i && (k.table i).state =s zombie)) [
      | some i ↦ reaped (k.table i).pid (k.table i).exit_code (process_release k i)
      | none ↦ elim (first_index process_max 0 (is_child k)) [
        | none ↦ no_children
        | some _ ↦ waits (block_waiting k)
      ]
    ]

-- The end of a round of `process_wait`, when the process runs again.
unfoldable pub process_wait_resume : Kernel → Kernel
process_wait_resume k = put k k.current (record (k.table k.current) { parent_waiting = false })

-- `process_sleep`
unfoldable pub process_sleep : Kernel → ℕ → Switch × Kernel
process_sleep k ms =
    if ms == 0
    then scheduler_yield k
    else scheduler_block_current (
        put k k.current (record (k.table k.current) {
          sleep_until = add64 k.ticks (add32 ms 9 / 10);
          state = sleeping;
        }))
