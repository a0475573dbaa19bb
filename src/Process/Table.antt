-- ===== src/Process/Table.antt =====
-- The process table of process/process.c (the structures are those of process/process.h). A pointer
-- to a process is the index of its slot, or `none` for NULL.
use my_operating_system_open.Prelude.{
  ℕ, zero, suc, Bool, true, false, not, Option, none, some, List, [], ◌+◌, ◌-◌, ◌&&◌, ◌∷◌, ◌==◌,
  if◌then◌else◌, ltb, take, update, add32, first_index,
}

abbrev pub process_max : ℕ
process_max = 64

abbrev pub kstack_size : ℕ
kstack_size = 16384

abbrev pub ustack_size : ℕ
ustack_size = 16384

abbrev pub priority_low : ℕ
priority_low = 2

abbrev pub priority_levels : ℕ
priority_levels = 3

abbrev pub sched_quantum_ticks : ℕ
sched_quantum_ticks = 5

abbrev pub process_name_len : ℕ
process_name_len = 32

-- `process_state_t`
pub data State : Type 0 where
  unused ready running blocked sleeping zombie : State

infix 50 ◌=s◌
-- Equality of states.
unfoldable pub ◌=s◌ : State → State → Bool
unused =s unused = true
ready =s ready = true
running =s running = true
blocked =s blocked = true
sleeping =s sleeping = true
zombie =s zombie = true
_ =s _ = false

-- `process_t`. Addresses are 32-bit numbers, 0 being NULL; `exit_code` is the bit pattern of an int.
pub record Process : Type 0 where
  pub pid : ℕ
  pub ppid : ℕ
  pub name : List ℕ
  pub state : State
  pub priority : ℕ
  pub base_priority : ℕ
  pub quantum_left : ℕ
  pub wait_ticks : ℕ
  pub cpu_ticks : ℕ
  pub next : Option ℕ
  pub kstack : ℕ
  pub kstack_top : ℕ
  pub esp : ℕ
  pub is_user : Bool
  pub ustack : ℕ
  pub ustack_top : ℕ
  pub user_entry : ℕ
  pub sleep_until : ℕ
  pub exit_code : ℕ
  pub parent_waiting : Bool

-- A slot filled with zeros.
abbrev pub zeroed : Process
zeroed = record {
  pid = 0;
  ppid = 0;
  name = [];
  state = unused;
  priority = 0;
  base_priority = 0;
  quantum_left = 0;
  wait_ticks = 0;
  cpu_ticks = 0;
  next = none;
  kstack = 0;
  kstack_top = 0;
  esp = 0;
  is_user = false;
  ustack = 0;
  ustack_top = 0;
  user_entry = 0;
  sleep_until = 0;
  exit_code = 0;
  parent_waiting = false;
}

-- The static variables of process.c and scheduler.c, the tick counter of drivers/timer.c, the words
-- of memory by address, `esp0` of the task state segment, and what was passed to kfree, newest first.
pub record Kernel : Type 0 where
  pub table : ℕ → Process
  pub next_pid : ℕ
  pub current : ℕ
  pub queue_head : ℕ → Option ℕ
  pub queue_tail : ℕ → Option ℕ
  pub started : Bool
  pub context_switches : ℕ
  pub ticks : ℕ
  pub memory : ℕ → ℕ
  pub esp0 : ℕ
  pub freed : List ℕ

-- A slot given anew.
abbrev pub put : Kernel → ℕ → Process → Kernel
put k i p = record k { table = update k.table i p }

-- `copy_name`: at most 31 characters
unfoldable pub copy_name : Process → List ℕ → Process
copy_name p name = record p { name = take (process_name_len - 1) name }

-- `alloc_pcb`
unfoldable pub alloc_pcb : Kernel → Option ℕ × Kernel
alloc_pcb k = elim (first_index process_max 0 (λ i. (k.table i).state =s unused)) [
  | none ↦ (none, k)
  | some i ↦ (
    some i,
    record k {
      table = update k.table i (record zeroed { pid = k.next_pid });
      next_pid = add32 k.next_pid 1;
    },
  )
]

-- `process_by_pid`
unfoldable pub process_by_pid : Kernel → ℕ → Option ℕ
process_by_pid k pid =
    first_index process_max 0 (λ i. not ((k.table i).state =s unused) && (k.table i).pid == pid)

-- `process_getpid` and `process_getppid`; `current_process` is never NULL after `process_init`.
unfoldable pub process_getpid : Kernel → ℕ
process_getpid k = (k.table k.current).pid

unfoldable pub process_getppid : Kernel → ℕ
process_getppid k = (k.table k.current).ppid

-- `process_table_entry`
unfoldable pub process_table_entry : ℕ → Option ℕ
process_table_entry i = if ltb i process_max then some i else none

count_from : ℕ → ℕ → (ℕ → Process) → ℕ
count_from zero i table = 0
count_from (suc r) i table =
    (if (table i).state =s unused then 0 else 1) + count_from r (i + 1) table

-- `process_count`
unfoldable pub process_count : Kernel → ℕ
unfolding count_from
process_count k = count_from process_max 0 k.table

-- `kfree(a); a = 0;` under `if (a)`: what was freed
unfoldable pub free_if : ℕ → List ℕ → List ℕ
free_if a freed = if a == 0 then freed else a ∷ freed

-- `process_release` of a slot
unfoldable pub process_release : Kernel → ℕ → Kernel
unfolding free_if
process_release k i = if i == k.current then k else record k {
  table = update k.table i (record (k.table i) { kstack = 0; ustack = 0; state = unused; pid = 0 });
  freed = free_if (k.table i).ustack (free_if (k.table i).kstack k.freed);
}

-- `process_init`
unfoldable pub process_init : Kernel → Kernel
unfolding copy_name
process_init k = record k {
  table =
      update (λ i. if ltb i process_max then record (k.table i) { state = unused } else k.table i) 0
        (copy_name
          (record zeroed {
            state = running;
            priority = priority_low;
            base_priority = priority_low;
            quantum_left = sched_quantum_ticks;
          })
          (105 ∷ 100 ∷ 108 ∷ 101 ∷ []));
  current = 0;
}
