-- ===== src/Syscall/Fork.antt =====
-- `sys_fork` of kernel/syscall.c: the child, its pid and its stack.
use mathlib.Core.Path.{subst}
use my_operating_system_open.Prelude.{
  ℕ, refl, ap, inl, inr, true, false, not, List, [], arith, ◌+◌, ◌-◌, ◌%◌, ◌^◌, ◌<◌, ◌≡◌, ◌∙◌, ◌≢◌,
  ◌⊎◌, ◌&&◌, ◌||◌, ◌∷◌, ◌==◌, if◌then◌else◌, leb, ==→eq, Bool-cases, Option-cases, if_true,
  if_false, update_self, update_ne, add32, sub32, first_index, first_index-IsFirst,
  first_index-none,
}
use my_operating_system_open.Process.Table.{
  unused, ready, ◌=s◌, Process, Kernel, process_max, kstack_size, ustack_size, put,
}
use my_operating_system_open.Process.Ready.{scheduler_enqueue}
use my_operating_system_open.Process.Ready.Queues.{SameProcess}
use my_operating_system_open.Process.Ready.Enqueue.{
  scheduler_enqueue_slots, scheduler_enqueue_memory,
}
use my_operating_system_open.Process.Lifecycle.{minus_one}
use my_operating_system_open.Syscall.{
  Regs, frame_words, child_regs, child_slot, child_stacks, new_pid, max_pid, fork_into, sys_fork,
}
use my_operating_system_open.Syscall.Pid.{new_pid-free}
use my_operating_system_open.Syscall.Stack.{read_words, child_stacks-read_words}

-- A pointer into the stack from `lo` on, moved to the stack from `ustack` on
abbrev pub moved_pointer : ℕ → ℕ → ℕ → ℕ
moved_pointer lo ustack pointer = (pointer + (ustack + 2 ^ 32 - lo)) % 2 ^ 32

-- The kernel stack of a child from its stack pointer on: what `context_switch` takes, and the registers of
-- the caller with 0 for EAX, the user's stack pointer moved, and EBP moved if it points into the 16
-- kilobytes of the caller's stack or to their end.
abbrev pub child_words : ℕ → Regs → ℕ → ℕ → List ℕ
child_words stub r lo ustack =
    let ebp =
      if leb lo r.ebp && leb r.ebp ((lo + 0x4000) % 2 ^ 32)
      then moved_pointer lo ustack r.ebp
      else r.ebp in
    0
    ∷ 0
    ∷ 0
    ∷ 0
    ∷ 2
    ∷ stub
    ∷ r.gs
    ∷ r.fs
    ∷ r.es
    ∷ r.ds
    ∷ r.edi
    ∷ r.esi
    ∷ ebp
    ∷ r.esp_dummy
    ∷ r.ebx
    ∷ r.edx
    ∷ r.ecx
    ∷ 0
    ∷ r.eip
    ∷ r.cs
    ∷ r.eflags
    ∷ moved_pointer lo ustack r.useresp
    ∷ r.ss
    ∷ []

-- A child was made.
pub record Forked (stub : ℕ) (k : Kernel) (r : Regs) (ustack pid : ℕ) (t : Kernel) : Type 0 where
  pub child : ℕ
  pub in_range : child < process_max
  pub was_unused : ((k.table child).state =s unused) ≡ true
  pub own_pid : (t.table child).pid ≡ pid
  pub parent_pid : (t.table child).ppid ≡ (k.table k.current).pid
  pub runnable : (t.table child).state ≡ ready
  pub fresh :
      (j : ℕ)
      → j < process_max
      → j ≢ child
      → ((k.table j).state =s unused) ≡ false
      → (k.table j).pid ≢ pid
  pub others : (j : ℕ) → j ≢ child → SameProcess (k.table j) (t.table j)
  pub stack :
      let lo = (k.table k.current).ustack in
      read_words t.memory (t.table child).esp 23 ≡ child_words stub r lo ustack

-- The words of the registers as they are written out above.
child_frame :
    (stub : ℕ) (r : Regs) (lo ustack : ℕ)
    → 0
        ∷ 0
        ∷ 0
        ∷ 0
        ∷ 2
        ∷ stub
        ∷ frame_words (child_regs r lo (add32 lo ustack_size) (sub32 ustack lo))
      ≡ child_words stub r lo ustack
child_frame stub r lo ustack =
    let moved : (x : ℕ) → add32 x (sub32 ustack lo) ≡ moved_pointer lo ustack x =
      λ x. omega arith in
    rw (moved r.useresp, moved r.ebp) refl

fork_into-Forked :
    (stub : ℕ) (k : Kernel) (r : Regs) (kstack ustack i : ℕ)
    → i < process_max
    → ((k.table i).state =s unused) ≡ true
    → max_pid process_max k + 1 < 2 ^ 32
    → kstack + kstack_size < 2 ^ 32
    → let (pid, t) = fork_into stub k r kstack ustack i in Forked stub k r ustack pid t
unfolding fork_into
fork_into-Forked stub k r kstack ustack i lt free pids room =
    let parent = k.table k.current in
    let child = child_slot parent (new_pid k i) kstack ustack in
    let (memory, esp) = child_stacks stub k.memory parent child r in
    let slot = record child { esp = esp; state = ready } in
    let k1 = record (put k i slot) { memory = memory } in
    let at : k1.table i ≡ slot = update_self k.table i slot in
    let same = scheduler_enqueue_slots k1 i i in
    let top : child.kstack_top ≡ kstack + kstack_size = omega arith in
    record {
      child = i;
      in_range = lt;
      was_unused = free;
      own_pid = ap (λ (p : Process). p.pid) same ∙ ap (λ (p : Process). p.pid) at;
      parent_pid = ap (λ (p : Process). p.ppid) same ∙ ap (λ (p : Process). p.ppid) at;
      runnable = ap (λ (p : Process). p.state) same ∙ ap (λ (p : Process). p.state) at;
      fresh = new_pid-free k i pids;
      others = λ j ne.
          subst (λ z. SameProcess z ((scheduler_enqueue k1 i).table j))
            (update_ne k.table i slot j ne) (scheduler_enqueue_slots k1 i j);
      stack =
          ap (λ m. read_words m ((scheduler_enqueue k1 i).table i).esp 23)
            (scheduler_enqueue_memory k1 i)
          ∙ ap (λ a. read_words memory a 23)
              (ap (λ (p : Process). p.esp) same ∙ ap (λ (p : Process). p.esp) at)
          ∙ child_stacks-read_words stub k.memory parent child r (omega arith) (omega arith)
          ∙ child_frame stub r parent.ustack ustack;
    }

-- Why `sys_fork` fails, and what it frees then.
pub data ForkFailed (k : Kernel) (kstack ustack : ℕ) : Kernel → Type 0 where
  not_user : (k.table k.current).is_user ≡ false → ForkFailed k kstack ustack k
  no_stack : (k.table k.current).ustack ≡ 0 → ForkFailed k kstack ustack k
  no_kstack : kstack ≡ 0 → ForkFailed k kstack ustack k
  no_ustack : ustack ≡ 0 → ForkFailed k kstack ustack (record k { freed = kstack ∷ k.freed })
  no_slot :
      ((i : ℕ) → i < process_max → ((k.table i).state =s unused) ≡ false)
      → ForkFailed k kstack ustack (record k { freed = ustack ∷ kstack ∷ k.freed })

-- `sys_fork` makes a child in an unused slot: its pid, which is returned, is the pid of no other process, its parent
-- is the caller, it is ready, and its kernel stack holds what `context_switch` takes, the address of
-- `fork_child_return` and the caller's registers with 0 for the result and the pointers into the user
-- stack moved to the copy; the other slots change in links and waiting times at most. Or it returns -1, for want of a
-- user stack, of memory or of a slot, and frees what it had allocated. No pid is the largest
-- 32-bit number, and the new kernel stack ends below 4 GB.
pub sys_fork-Forked :
    (stub kstack ustack : ℕ) (k : Kernel) (r : Regs)
    → max_pid process_max k + 1 < 2 ^ 32
    → kstack + kstack_size < 2 ^ 32
    → let (pid, t) = sys_fork stub kstack ustack k r in
      Forked stub k r ustack pid t ⊎ ((pid ≡ minus_one) × ForkFailed k kstack ustack t)
unfolding sys_fork
sys_fork-Forked stub kstack ustack k r pids room =
    let p = k.table k.current in
    elim (Bool-cases (not p.is_user || p.ustack == 0)) [
      | inl e ↦ rw (if_true e) (
          inr (
            refl,
            elim (Bool-cases p.is_user) [
              | inr u ↦ not_user u
              | inl u ↦ no_stack (ground (arith, e, u))
            ],
          ))
      | inr e ↦ elim (Bool-cases (kstack == 0)) [
        | inl a ↦ rw (if_false e, if_true a) (inr (refl, no_kstack (==→eq _ _ a)))
        | inr a ↦ elim (Bool-cases (ustack == 0)) [
          | inl b ↦ rw (if_false e, if_false a, if_true b) (inr (refl, no_ustack (==→eq _ _ b)))
          | inr b ↦
              rw (if_false e, if_false a, if_false b)
                (elim (Option-cases
                  (first_index process_max 0 (λ i. (k.table i).state =s unused))) [
                    | inl f ↦ rw (f) (
                        inr (
                          refl,
                          no_slot (λ i lt.
                              first_index-none process_max 0 _ f i (omega arith) (omega arith)),
                        ))
                    | inr (i, f) ↦
                        let w = first_index-IsFirst process_max 0 _ f in
                        rw (f) (
                          inl (
                            fork_into-Forked stub k r kstack ustack i (omega (arith, w.below))
                              w.passes pids room))
                  ])
        ]
      ]
    ]
