-- ===== src/Syscall.antt =====
-- kernel/syscall.c: what a process asks of the kernel. The pointers that kmalloc returns and the bytes
-- of the user's memory are arguments; words of memory are those of the record Kernel. The two stacks of a
-- process begin at multiples of 4, so the bytes of a stack are copied word by word.
pub mod Pid
pub mod Stack
pub mod Fork
mod Tests
use my_operating_system_open.Prelude.{
  ℕ, zero, suc, max, Bool, true, false, not, none, some, List, [], ◌+◌, ◌/◌, ◌%◌, ◌&&◌, ◌||◌, ◌∷◌,
  ◌==◌, if◌then◌else◌, leb, length, update, add32, sub32, first_index,
}
use my_operating_system_open.Process.Table.{
  unused, ready, ◌=s◌, Process, Kernel, process_max, kstack_size, ustack_size, put, process_getpid,
  process_getppid,
}
use my_operating_system_open.Process.Ready.{scheduler_enqueue}
use my_operating_system_open.Process.Schedule.{Switch, scheduler_yield}
use my_operating_system_open.Process.Lifecycle.{
  push_words, minus_one, process_exit, process_sleep, process_wait, reaped, no_children, waits,
}

-- `regs_t`
pub record Regs : Type 0 where
  pub gs : ℕ
  pub fs : ℕ
  pub es : ℕ
  pub ds : ℕ
  pub edi : ℕ
  pub esi : ℕ
  pub ebp : ℕ
  pub esp_dummy : ℕ
  pub ebx : ℕ
  pub edx : ℕ
  pub ecx : ℕ
  pub eax : ℕ
  pub eip : ℕ
  pub cs : ℕ
  pub eflags : ℕ
  pub useresp : ℕ
  pub ss : ℕ

-- The words of a register frame, by address
abbrev pub frame_words : Regs → List ℕ
frame_words r =
    r.gs ∷ r.fs ∷ r.es ∷ r.ds ∷ r.edi ∷ r.esi ∷ r.ebp ∷ r.esp_dummy ∷ r.ebx ∷ r.edx ∷ r.ecx ∷ r.eax
    ∷ r.eip ∷ r.cs ∷ r.eflags ∷ r.useresp ∷ r.ss ∷ []

-- The loop of `sys_write`: the characters that are put on the console
unfoldable pub write_chars : ℕ → (ℕ → ℕ) → ℕ → List ℕ
write_chars zero byte p = []
write_chars (suc n) byte p =
    let rest = write_chars n byte (add32 p 1) in if byte p == 0 then [] else byte p ∷ rest

-- `sys_write`: the result and what is put on the console
unfoldable pub sys_write : (ℕ → ℕ) → ℕ → ℕ × List ℕ
sys_write byte str =
    let out = write_chars 4096 byte str in if str == 0 then (minus_one, []) else (length out, out)

-- Whether a slot other than `child` is in use with this pid
unfoldable pub taken : ℕ → Kernel → ℕ → ℕ → Bool
taken zero k child pid = false
taken (suc n) k child pid =
    let rest = taken n k child pid in
    if not (n == child) && not ((k.table n).state =s unused) && (k.table n).pid == pid
    then true
    else rest

-- The largest pid in the table: the scan ends behind it.
unfoldable pub max_pid : ℕ → Kernel → ℕ
max_pid zero k = 0
max_pid (suc n) k = max (k.table n).pid (max_pid n k)

-- The scan for a pid
unfoldable pub scan_pid : ℕ → Kernel → ℕ → ℕ → ℕ
scan_pid zero k child pid = pid
scan_pid (suc n) k child pid =
    let rest = scan_pid n k child (add32 pid 1) in
    if taken process_max k child pid then rest else pid

unfoldable pub new_pid : Kernel → ℕ → ℕ
new_pid k child = scan_pid (max_pid process_max k + 1) k child 1

-- The copy of the user stack
unfoldable pub copy_words : ℕ → (ℕ → ℕ) → ℕ → ℕ → (ℕ → ℕ)
copy_words zero memory to from = memory
copy_words (suc n) memory to from =
    copy_words n (update memory to (memory from)) (add32 to 4) (add32 from 4)

-- The walk along the saved frame pointers in the copy, of at most `n` links
unfoldable pub relocate : ℕ → (ℕ → ℕ) → ℕ → ℕ → ℕ → ℕ → (ℕ → ℕ)
relocate zero memory lo hi delta ebp = memory
relocate (suc n) memory lo hi delta ebp =
    let slot = add32 ebp delta in
    let next = memory slot in
    let moved =
      if leb lo next && leb next hi then update memory slot (add32 next delta) else memory in
    let rest = relocate n moved lo hi delta next in
    if leb lo ebp && leb ebp (sub32 hi 4) && ebp % 4 == 0
    then (if leb next ebp then moved else rest)
    else memory

-- The register frame of the child
abbrev pub child_regs : Regs → ℕ → ℕ → ℕ → Regs
child_regs r lo hi delta = record r {
  eax = 0;
  useresp = add32 r.useresp delta;
  ebp = if leb lo r.ebp && leb r.ebp hi then add32 r.ebp delta else r.ebp;
}

-- A structure is stored from an address on.
unfoldable pub store_words : (ℕ → ℕ) → ℕ → List ℕ → (ℕ → ℕ)
store_words memory a [] = memory
store_words memory a (v ∷ vs) = store_words (update memory a v) (add32 a 4) vs

-- The slot of the child before its stacks are filled
abbrev pub child_slot : Process → ℕ → ℕ → ℕ → Process
child_slot parent pid kstack ustack = record parent {
  next = none;
  parent_waiting = false;
  cpu_ticks = 0;
  wait_ticks = 0;
  pid = pid;
  ppid = parent.pid;
  kstack = kstack;
  kstack_top = add32 kstack kstack_size;
  ustack = ustack;
  ustack_top =
      sub32 (add32 ustack ustack_size) (sub32 (add32 parent.ustack ustack_size) parent.ustack_top);
}

-- The words that `context_switch` takes from the child's stack, the first one pushed first
abbrev pub switch_frame : ℕ → List ℕ
switch_frame fork_child_return = fork_child_return ∷ 2 ∷ 0 ∷ 0 ∷ 0 ∷ 0 ∷ []

-- The memory once the child's stacks are filled, and its stack pointer
unfoldable pub child_stacks : ℕ → (ℕ → ℕ) → Process → Process → Regs → (ℕ → ℕ) × ℕ
child_stacks fork_child_return memory parent child r =
    let lo = parent.ustack in
    let hi = add32 lo ustack_size in
    let delta = sub32 child.ustack lo in
    let copied = copy_words (ustack_size / 4) memory child.ustack lo in
    let moved = relocate 64 copied lo hi delta r.ebp in
    let sp = sub32 child.kstack_top 68 in
    push_words (store_words moved sp (frame_words (child_regs r lo hi delta))) sp
      (switch_frame fork_child_return)

-- `sys_fork` with a slot for the child
unfoldable pub fork_into : ℕ → Kernel → Regs → ℕ → ℕ → ℕ → ℕ × Kernel
fork_into fork_child_return k r kstack ustack i =
    let parent = k.table k.current in
    let child = child_slot parent (new_pid k i) kstack ustack in
    let (memory, esp) = child_stacks fork_child_return k.memory parent child r in
    (
      child.pid,
      scheduler_enqueue
          (record (put k i (record child { esp = esp; state = ready })) { memory = memory }) i,
    )

-- `sys_fork`, given the address of `fork_child_return` and what kmalloc returns for the two stacks
unfoldable pub sys_fork : ℕ → ℕ → ℕ → Kernel → Regs → ℕ × Kernel
sys_fork fork_child_return kstack ustack k r =
    if not (k.table k.current).is_user || (k.table k.current).ustack == 0
    then (minus_one, k)
    else if kstack == 0
    then (minus_one, k)
    else if ustack == 0
    then (minus_one, record k { freed = kstack ∷ k.freed })
    else elim (first_index process_max 0 (λ i. (k.table i).state =s unused)) [
      | none ↦ (minus_one, record k { freed = ustack ∷ kstack ∷ k.freed })
      | some i ↦ fork_into fork_child_return k r kstack ustack i
    ]

-- What a system call comes to: it returns, with what was put on the console; it returns once the process runs
-- again; or the process ends, or waits in a round of `process_wait`.
pub data Outcome : Type 0 where
  returns : Regs → Kernel → List ℕ → Outcome
  resumes : Regs → Switch × Kernel → Outcome
  exits : Switch × Kernel → Outcome
  waiting : Switch × Kernel → Outcome

-- `syscall_dispatch`
unfoldable pub syscall_dispatch : ℕ → ℕ → ℕ → (ℕ → ℕ) → Kernel → Regs → Outcome
syscall_dispatch fork_child_return kstack ustack byte k r =
    if r.eax == 0
    then exits (process_exit k r.ebx)
    else if r.eax == 1
    then (let (n, out) = sys_write byte r.ebx in returns (record r { eax = n }) k out)
    else if r.eax == 2
    then returns (record r { eax = process_getpid k }) k []
    else if r.eax == 3
    then (let (pid, k') = sys_fork fork_child_return kstack ustack k r in
        returns (record r { eax = pid }) k' [])
    else if r.eax == 4
    then resumes (record r { eax = 0 }) (scheduler_yield k)
    else if r.eax == 5
    then resumes (record r { eax = 0 }) (process_sleep k r.ebx)
    else if r.eax == 6
    then returns (record r { eax = process_getppid k }) k []
    else if r.eax == 7
    then elim (process_wait k) [
      | waits w ↦ waiting w
      | no_children ↦
          returns (record r { eax = minus_one })
            (if r.ebx == 0 then k else record k { memory = update k.memory r.ebx 0 }) []
      | reaped pid status k' ↦
          returns (record r { eax = pid })
            (if r.ebx == 0 then k' else record k' { memory = update k'.memory r.ebx status }) []
    ]
    else returns (record r { eax = minus_one }) k []
