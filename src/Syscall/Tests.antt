-- ===== src/Syscall/Tests.antt =====
-- A fork of kernel/syscall.c in a table with one user process.
use my_operating_system_open.Prelude.{refl, true, none, [], arith, ◌≡◌, ◌⊎◌, update}
use my_operating_system_open.Process.Table.{Process, Kernel, running, zeroed, process_max}
use my_operating_system_open.Process.Lifecycle.{minus_one}
use my_operating_system_open.Syscall.{Regs, max_pid, sys_fork}
use my_operating_system_open.Syscall.Fork.{Forked, ForkFailed, sys_fork-Forked}

abbrev parent : Process
parent = record zeroed {
  pid = 1;
  state = running;
  is_user = true;
  kstack = 0x200000;
  kstack_top = 0x204000;
  ustack = 0x300000;
  ustack_top = 0x303ff0;
}

abbrev kernel : Kernel
kernel = record {
  table = update (update (λ _. zeroed) 0 (record zeroed { state = running })) 1 parent;
  next_pid = 2;
  current = 1;
  queue_head = λ _. none;
  queue_tail = λ _. none;
  started = true;
  context_switches = 0;
  ticks = 0;
  memory = λ _. 0;
  esp0 = 0;
  freed = [];
}

abbrev regs : Regs
regs = record {
  gs = 0x23;
  fs = 0x23;
  es = 0x23;
  ds = 0x23;
  edi = 0;
  esi = 0;
  ebp = 0x303fd0;
  esp_dummy = 0;
  ebx = 0;
  edx = 0;
  ecx = 0;
  eax = 3;
  eip = 0x100123;
  cs = 0x1b;
  eflags = 0x202;
  useresp = 0x303fc0;
  ss = 0x23;
}

small_pids : max_pid process_max kernel ≡ 1
unfolding max_pid
small_pids = refl

sys_fork-Forked_example :
    let (pid, t) = sys_fork 0x100400 0x210000 0x310000 kernel regs in
    Forked 0x100400 kernel regs 0x310000 pid t
    ⊎ ((pid ≡ minus_one) × ForkFailed kernel 0x210000 0x310000 t)
sys_fork-Forked_example =
    sys_fork-Forked 0x100400 0x210000 0x310000 kernel regs (omega (arith, small_pids)) (omega arith)
