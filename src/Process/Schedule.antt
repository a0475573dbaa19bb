-- ===== src/Process/Schedule.antt =====
-- The scheduler of process/scheduler.c. `schedule` is entered with interrupts off; the switch of
-- stacks itself (arch/x86/context.S) is the value `Switch` that it returns.
pub mod Reap
pub mod Wake
pub mod Requeue
pub mod Choice
use my_operating_system_open.Prelude.{
  ℕ, zero, suc, Bool, true, false, not, Option, none, some, ◌+◌, ◌-◌, ◌&&◌, ◌||◌, ◌==◌,
  if◌then◌else◌, ltb, leb, update, add32, add64,
}
use my_operating_system_open.Process.Table.{
  unused, ready, running, blocked, sleeping, zombie, ◌=s◌, Process, Kernel, process_max,
  priority_levels, sched_quantum_ticks, put, process_by_pid, process_release,
}
use my_operating_system_open.Process.Ready.{scheduler_enqueue, scheduler_dequeue, pick_next}

abbrev pub aging_threshold : ℕ
aging_threshold = 200

-- Whether control goes on where it is, or `context_switch` hands it from one process to another.
pub data Switch : Type 0 where
  stay : Switch
  switch : ℕ → ℕ → Switch

-- Whether nobody will collect the exit code of slot `i`.
is_orphan : Kernel → ℕ → Bool
is_orphan k i = elim (process_by_pid k (k.table i).ppid) [
  | none ↦ true
  | some r ↦ (k.table r).state =s unused || (k.table r).state =s zombie || (k.table r).pid == 0
]

-- One round of `reap_orphans`.
reap_slot : Kernel → ℕ → Kernel
reap_slot k i =
    if (k.table i).state =s zombie && not (i == k.current) && is_orphan k i
    then process_release k i
    else k

reap_from : ℕ → ℕ → Kernel → Kernel
reap_from zero i k = k
reap_from (suc r) i k = reap_from r (i + 1) (reap_slot k i)

-- `reap_orphans`
unfoldable pub reap_orphans : Kernel → Kernel
unfolding reap_from reap_slot is_orphan
reap_orphans k = reap_from process_max 0 k

-- One more tick of waiting for slot `i` of queue `q`, and the boost when it waited too long.
age_slot : Kernel → ℕ → ℕ → Kernel
age_slot k q i =
    let waited = add32 (k.table i).wait_ticks 1 in
    let k1 = put k i (record (k.table i) { wait_ticks = waited }) in
    if ltb aging_threshold waited
    then (let k2 = scheduler_dequeue k1 i in
        scheduler_enqueue (put k2 i (record (k2.table i) { priority = q - 1 })) i)
    else k1

-- The walk along queue `q`, on fuel: the link is read before the slot is moved.
age_walk : ℕ → Kernel → ℕ → Option ℕ → Kernel
age_walk zero k q it = k
age_walk (suc f) k q none = k
age_walk (suc f) k q (some i) = age_walk f (age_slot k q i) q (k.table i).next

-- `apply_aging`: the queues 1 and 2
unfoldable pub apply_aging : Kernel → Kernel
unfolding age_walk age_slot
apply_aging k =
    let k1 = age_walk (process_max + 1) k 1 (k.queue_head 1) in
    age_walk (process_max + 1) k1 2 (k1.queue_head 2)

-- One round of `wake_sleepers`.
wake_slot : Kernel → ℕ → ℕ → Kernel
wake_slot k now i =
    if (k.table i).state =s sleeping && leb (k.table i).sleep_until now
    then scheduler_enqueue (put k i (record (k.table i) { state = ready })) i
    else k

wake_from : ℕ → ℕ → Kernel → ℕ → Kernel
wake_from zero i k now = k
wake_from (suc r) i k now = wake_from r (i + 1) (wake_slot k now i) now

-- `wake_sleepers`
unfoldable pub wake_sleepers : Kernel → ℕ → Kernel
unfolding wake_from wake_slot
wake_sleepers k now = wake_from process_max 0 k now

-- `scheduler_start`
unfoldable pub scheduler_start : Kernel → Kernel
scheduler_start k = record k { started = true }

-- The outgoing process `prev` goes back to its queue if it is still running.
pub requeue : Kernel → ℕ → Kernel
requeue k prev =
    if (k.table prev).state =s running
    then scheduler_enqueue
        (put k prev
          (record (k.table prev) { state = ready; priority = (k.table prev).base_priority }))
        prev
    else k

-- The incoming process `next` becomes the current one.
dispatch : Kernel → ℕ → Kernel
dispatch k next = record k {
  table = update k.table next (record (k.table next) {
    state = running;
    priority = (k.table next).base_priority;
    quantum_left = sched_quantum_ticks;
  });
  current = next;
  context_switches = add64 k.context_switches 1;
  esp0 = (k.table next).kstack_top;
}

-- From the choice of the next process on.
hand_over : Kernel → ℕ → ℕ → Switch × Kernel
hand_over k prev next =
    (if prev == next then stay else switch prev next, dispatch (requeue k prev) next)

-- With no process ready: go on, or fall back to the idle process.
fall_back : Kernel → ℕ → Switch × Kernel
fall_back k prev =
    if (k.table prev).state =s running
    then (stay, put k prev (record (k.table prev) { quantum_left = sched_quantum_ticks }))
    else elim (process_by_pid k 0) [
      | none ↦ (stay, k)
      | some idle ↦ (if idle == prev then (stay, k) else hand_over k prev idle)
    ]

-- `schedule` after the reaping.
choose : Kernel → Switch × Kernel
choose k =
    let (next, k') = pick_next k in
    elim next [ none ↦ fall_back k' k.current | some p ↦ hand_over k' k.current p ]

-- `schedule`
unfoldable pub schedule : Kernel → Switch × Kernel
unfolding choose fall_back hand_over dispatch requeue
schedule k = if k.started then choose (reap_orphans k) else (stay, k)

-- `for (q = from; rounds are left; q++) if (queue_head[q]) …`
any_head : ℕ → ℕ → Kernel → Bool
any_head zero q k = false
any_head (suc r) q k =
    (elim (k.queue_head q) [ none ↦ false | some _ ↦ true ]) || any_head r (q + 1) k

-- Whether the current process should make way: something of a higher priority is ready, or it is
-- the idle process and anything is.
higher_ready : Kernel → Bool
higher_ready k =
    any_head (k.table k.current).priority 0 k
    || ((k.table k.current).pid == 0 && any_head priority_levels 0 k)

-- The end of `scheduler_tick`: the quantum is counted down, and the process may be preempted.
preempt : Kernel → Switch × Kernel
preempt k =
    let p = k.table k.current in
    let left = p.quantum_left - 1 in
    let k' = put k k.current (record p { quantum_left = left }) in
    if higher_ready k || left == 0 then schedule k' else (stay, k')

-- `scheduler_tick`
unfoldable pub scheduler_tick : Kernel → Switch × Kernel
unfolding preempt higher_ready any_head
scheduler_tick k =
    let p = k.table k.current in
    let k1 = put k k.current (record p { cpu_ticks = add64 p.cpu_ticks 1 }) in
    if k.started then preempt (apply_aging (wake_sleepers k1 k1.ticks)) else (stay, k)

-- `timer_handler` of drivers/timer.c, but for the end-of-interrupt signal
unfoldable pub timer_handler : Kernel → Switch × Kernel
timer_handler k = scheduler_tick (record k { ticks = add64 k.ticks 1 })

-- `scheduler_yield`
unfoldable pub scheduler_yield : Kernel → Switch × Kernel
scheduler_yield k =
    if k.started
    then schedule (put k k.current (record (k.table k.current) { quantum_left = 0 }))
    else (stay, k)

-- `scheduler_block_current`
unfoldable pub scheduler_block_current : Kernel → Switch × Kernel
scheduler_block_current k = schedule k

-- `scheduler_unblock`
unfoldable pub scheduler_unblock : Kernel → ℕ → Kernel
scheduler_unblock k p =
    if (k.table p).state =s blocked || (k.table p).state =s sleeping
    then scheduler_enqueue (put k p (record (k.table p) { state = ready })) p
    else k

-- `sched_stats_t`
pub record SchedStats : Type 0 where
  pub context_switches : ℕ
  pub ticks : ℕ
  pub ready_count : ℕ → ℕ

-- The length of a queue, on fuel.
queue_length : ℕ → (ℕ → Process) → Option ℕ → ℕ
queue_length zero table it = 0
queue_length (suc f) table none = 0
queue_length (suc f) table (some i) = suc (queue_length f table (table i).next)

-- `scheduler_get_stats`
unfoldable pub scheduler_get_stats : Kernel → SchedStats
unfolding queue_length
scheduler_get_stats k = record {
  context_switches = k.context_switches;
  ticks = k.ticks;
  ready_count = λ q. queue_length (process_max + 1) k.table (k.queue_head q);
}
