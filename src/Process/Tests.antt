-- ===== src/Process/Tests.antt =====
-- The theorems on the ready queues of process/scheduler.c, on a table with a few processes.
use my_operating_system_open.Prelude.{
  ℕ, refl, true, none, List, [], arith, ◌≡◌, ◌==◌, if◌then◌else◌, update,
}
use my_operating_system_open.Process.Table.{Kernel, ready, running, sleeping, zeroed}
use my_operating_system_open.Process.Ready.{scheduler_enqueue, scheduler_dequeue, pick_next, level}
use my_operating_system_open.Process.Ready.Queues.{
  IsQueues, Relinked, IsAbsent, SameProcess, appended,
}
use my_operating_system_open.Process.Ready.Enqueue.{scheduler_enqueue-appended}
use my_operating_system_open.Process.Ready.Pick.{PickOutcome, pick_next-outcome}
use my_operating_system_open.Process.Ready.Dequeue.{InTable, scheduler_dequeue-removed}
use my_operating_system_open.Process.Chains.{remove}
use my_operating_system_open.Process.Schedule.{schedule, wake_sleepers}
use my_operating_system_open.Process.Schedule.Wake.{roused, wake_sleepers-SameProcess}
use my_operating_system_open.Process.Schedule.Choice.{Outcome, schedule-Outcome}

-- The idle process runs, every other slot is ready with priority 1, and nothing is queued.
abbrev idle : Kernel
idle = record {
  table = λ i.
      if i == 0
      then record zeroed { state = running; priority = 2; base_priority = 2; quantum_left = 5 }
      else record zeroed { pid = i; state = ready; priority = 1; base_priority = 1 };
  next_pid = 9;
  current = 0;
  queue_head = λ _. none;
  queue_tail = λ _. none;
  started = true;
  context_switches = 0;
  ticks = 0;
  memory = λ _. 0;
  esp0 = 0;
  freed = [];
}

abbrev nobody : ℕ → List ℕ
nobody _ = []

abbrev one_queued : ℕ → List ℕ
one_queued = appended nobody 1 7

idle-IsQueues : IsQueues idle nobody
idle-IsQueues = record {
  chain = λ q h. refl;
  tail = λ q h. refl;
  distinct = λ q h. tt;
  apart = λ q r x hq hr i j. absurd (cc);
}

queued-IsQueues : IsQueues (scheduler_enqueue idle 7) one_queued
queued-IsQueues =
    (scheduler_enqueue-appended idle nobody idle-IsQueues 7 1 (omega arith) (λ q h. refl)
      (omega arith) refl).0

pick_next-outcome_example :
    PickOutcome (scheduler_enqueue idle 7) one_queued (pick_next (scheduler_enqueue idle 7))
pick_next-outcome_example = pick_next-outcome (scheduler_enqueue idle 7) one_queued queued-IsQueues

queued-InTable : InTable one_queued
queued-InTable q x h i = ground arith

scheduler_dequeue-removed_example :
    let k = scheduler_enqueue idle 7 in
    IsQueues (scheduler_dequeue k 7) (update one_queued 1 (remove 7 (one_queued 1)))
    × Relinked k (scheduler_dequeue k 7)
scheduler_dequeue-removed_example =
    scheduler_dequeue-removed (scheduler_enqueue idle 7) one_queued queued-IsQueues queued-InTable 7
      1 (omega arith) refl

-- Slot 7 waits while the idle process runs.
abbrev waiting : Kernel
waiting = scheduler_enqueue idle 7

waiting-idle :
    (waiting.started ≡ true)
    × ((waiting.table waiting.current).state ≡ running)
    × (waiting.current ≡ 0)
unfolding scheduler_enqueue level
waiting-idle = (refl, refl, refl)

idle-IsAbsent : IsAbsent one_queued waiting.current
unfolding scheduler_enqueue level
idle-IsAbsent q h = ground arith

schedule-Outcome_example :
    Outcome (waiting.table waiting.current) one_queued waiting.current (schedule waiting)
schedule-Outcome_example =
    schedule-Outcome waiting one_queued waiting-idle.0 queued-IsQueues idle-IsAbsent waiting-idle.1

-- Slot 3 sleeps until tick 8.
abbrev asleep : Kernel
asleep = record idle {
  table = update idle.table 3 (record (idle.table 3) { state = sleeping; sleep_until = 8 });
}

wake_sleepers-SameProcess_example :
    SameProcess (roused 9 (asleep.table 3)) ((wake_sleepers asleep 9).table 3)
wake_sleepers-SameProcess_example = wake_sleepers-SameProcess asleep 9 3 (omega arith)
