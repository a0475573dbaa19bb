-- ===== src/Process/Schedule/Requeue.antt =====
-- How the outgoing process goes back to its queue in `schedule` of process/scheduler.c.
use my_operating_system_open.Prelude.{
  ℕ, refl, sym, ap, inl, inr, true, false, List, arith, ◌<◌, ◌≡◌, ◌∙◌, ◌==◌, if◌then◌else◌, eq→==,
  ==→eq, Bool-cases, if_true, if_false, update_self,
}
use my_operating_system_open.Process.Table.{
  Process, Kernel, ready, running, zombie, ◌=s◌, put, priority_levels,
}
use my_operating_system_open.Process.Ready.{level, scheduler_enqueue}
use my_operating_system_open.Process.Schedule.{requeue}
use my_operating_system_open.Process.Ready.Queues.{IsQueues, IsAbsent, appended}
use my_operating_system_open.Process.Ready.Enqueue.{scheduler_enqueue-level}
use my_operating_system_open.Process.Schedule.Reap.{IsQueues-same, update-next}

-- The queues after process `prev` went back to the end of the queue of its base priority; the idle
-- process never queues.
abbrev pub requeued : Process → (ℕ → List ℕ) → ℕ → ℕ → List ℕ
requeued before qs prev =
    if before.pid == 0 then qs else appended qs (level before.base_priority) prev

level-lt : (n : ℕ) → level n < priority_levels
unfolding level
level-lt n = ground arith

pub running_self : (running =s running) ≡ true
unfolding ◌=s◌
running_self = refl

pub running_alive : (running =s zombie) ≡ false
unfolding ◌=s◌
running_alive = refl

enqueue_idle : (k : Kernel) (p : ℕ) → (k.table p).pid ≡ 0 → scheduler_enqueue k p ≡ k
unfolding scheduler_enqueue
enqueue_idle k p h = if_true (eq→== _ 0 h) _ _

pub requeue-IsQueues :
    (k : Kernel) (qs : ℕ → List ℕ) (prev : ℕ)
    → IsQueues k qs
    → IsAbsent qs prev
    → (k.table prev).state ≡ running
    → IsQueues (requeue k prev) (requeued (k.table prev) qs prev)
unfolding requeue
requeue-IsQueues k qs prev v out h =
    let runs : ((k.table prev).state =s running) ≡ true = ap (λ s. s =s running) h ∙ running_self in
    let p = record (k.table prev) { state = ready; priority = (k.table prev).base_priority } in
    let m = put k prev p in
    let w =
      IsQueues-same k m qs (λ q. refl) (λ q. refl) (λ i. update-next k.table prev p i refl) v in
    let here : m.table prev ≡ p = update_self k.table prev p in
    rw (if_true runs) (elim (Bool-cases ((k.table prev).pid == 0)) [
      | inl e ↦
          rw (if_true e, enqueue_idle m prev (ap (λ (x : Process). x.pid) here ∙ ==→eq _ 0 e)) w
      | inr e ↦
          rw (if_false e)
            (scheduler_enqueue-level m qs w prev (level (k.table prev).base_priority) (level-lt _)
              out
              (λ z.
                (let y : (k.table prev).pid ≡ 0 = sym (ap (λ (x : Process). x.pid) here) ∙ z in
                  ground (arith, y, e)))
              (ap (λ (x : Process). level x.priority) (sym here))).0
    ])
