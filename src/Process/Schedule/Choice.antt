-- ===== src/Process/Schedule/Choice.antt =====
-- What `schedule` of process/scheduler.c decides when the current process could go on.
use mathlib.Core.Path.{subst}
use my_operating_system_open.Prelude.{
  ℕ, refl, sym, ap, inl, inr, true, false, Option, none, some, List, [], arith, ◌<◌, ◌≡◌, ◌∙◌, ◌⊎◌,
  ◌||◌, ◌∷◌, ◌==◌, Bool-cases, if_true, if_false, update, update_self,
}
use my_operating_system_open.Process.Table.{
  Process, Kernel, running, zombie, ◌=s◌, priority_levels, sched_quantum_ticks,
}
use my_operating_system_open.Process.Ready.{pick_next}
use my_operating_system_open.Process.Schedule.{
  Switch, stay, switch, requeue, dispatch, hand_over, fall_back, choose, schedule, reap_orphans,
}
use my_operating_system_open.Process.Ready.Queues.{IsQueues, IsAbsent}
use my_operating_system_open.Process.Ready.Pick.{Picked, pick_next-outcome}
use my_operating_system_open.Process.Schedule.Reap.{IsQueues-same, update-next, reap_orphans-Reaped}
use my_operating_system_open.Process.Chains.{has}
use my_operating_system_open.Process.Schedule.Requeue.{
  requeued, running_self, running_alive, requeue-IsQueues,
}

-- The process that runs next.
pub record Runs (t : Kernel) (p : ℕ) : Type 0 where
  pub current : t.current ≡ p
  pub running : (t.table p).state ≡ running
  pub priority : (t.table p).priority ≡ (t.table p).base_priority
  pub quantum : (t.table p).quantum_left ≡ sched_quantum_ticks
  pub kernel_stack : t.esp0 ≡ (t.table p).kstack_top

dispatch-Runs : (k : Kernel) (p : ℕ) → Runs (dispatch k p) p
unfolding dispatch
dispatch-Runs k p =
    let here = update_self k.table p (record (k.table p) {
      state = running;
      priority = (k.table p).base_priority;
      quantum_left = sched_quantum_ticks;
    }) in
    record {
      current = refl;
      running = ap (λ (x : Process). x.state) here;
      priority =
          ap (λ (x : Process). x.priority) here ∙ sym (ap (λ (x : Process). x.base_priority) here);
      quantum = ap (λ (x : Process). x.quantum_left) here;
      kernel_stack = sym (ap (λ (x : Process). x.kstack_top) here);
    }

dispatch-IsQueues :
    (k : Kernel) (qs : ℕ → List ℕ) (p : ℕ) → IsQueues k qs → IsQueues (dispatch k p) qs
unfolding dispatch
dispatch-IsQueues k qs p v =
    IsQueues-same k _ qs (λ q. refl) (λ q. refl) (λ i. update-next k.table p _ i refl) v

-- The next process takes over from the current one, which goes back to its queue.
pub record TakesOver (before : Process) (qs : ℕ → List ℕ) (prev : ℕ) (r : Switch × Kernel) (q p : ℕ)
    (xs : List ℕ) : Type 0 where
  pub in_range : q < priority_levels
  pub first : qs q ≡ p ∷ xs
  pub higher_empty : (l : ℕ) → l < q → qs l ≡ []
  pub switched : r.0 ≡ switch prev p
  pub runs : Runs r.1 p
  pub valid : IsQueues r.1 (requeued before (update qs q xs) prev)

-- The current process goes on with a new quantum.
pub record GoesOn (qs : ℕ → List ℕ) (prev : ℕ) (r : Switch × Kernel) : Type 0 where
  pub all_empty : (q : ℕ) → q < priority_levels → qs q ≡ []
  pub stayed : r.0 ≡ stay
  pub current : r.1.current ≡ prev
  pub running : (r.1.table prev).state ≡ running
  pub quantum : (r.1.table prev).quantum_left ≡ sched_quantum_ticks
  pub valid : IsQueues r.1 qs

choose-some :
    (k : Kernel) (p : ℕ)
    → (pick_next k).0 ≡ some p
    → choose k ≡ hand_over (pick_next k).1 k.current p
unfolding choose
choose-some k p e =
    ap {A = Option ℕ}
      (λ o. elim o [
        | none ↦ fall_back (pick_next k).1 k.current
        | some n ↦ hand_over (pick_next k).1 k.current n
      ])
      e

choose-none :
    (k : Kernel) → (pick_next k).0 ≡ none → (pick_next k).1 ≡ k → choose k ≡ fall_back k k.current
unfolding choose
choose-none k e same =
    ap {A = Option ℕ}
      (λ o. elim o [
        | none ↦ fall_back (pick_next k).1 k.current
        | some n ↦ hand_over (pick_next k).1 k.current n
      ])
      e
    ∙ ap (λ t. fall_back t k.current) same

fall_back-GoesOn :
    (k : Kernel) (qs : ℕ → List ℕ)
    → IsQueues k qs
    → ((q : ℕ) → q < priority_levels → qs q ≡ [])
    → (k.table k.current).state ≡ running
    → GoesOn qs k.current (fall_back k k.current)
unfolding fall_back
fall_back-GoesOn k qs v empty h =
    let runs : ((k.table k.current).state =s running) ≡ true =
      ap (λ s. s =s running) h ∙ running_self in
    let p = record (k.table k.current) { quantum_left = sched_quantum_ticks } in
    let here = update_self k.table k.current p in
    rw (if_true runs) (record {
      all_empty = empty;
      stayed = refl;
      current = refl;
      running = ap (λ (x : Process). x.state) here ∙ h;
      quantum = ap (λ (x : Process). x.quantum_left) here;
      valid =
          IsQueues-same k _ qs (λ q. refl) (λ q. refl) (λ i. update-next k.table k.current p i refl)
            v;
    })

IsAbsent-rest :
    (qs : ℕ → List ℕ) (q p : ℕ) (xs : List ℕ) (c : ℕ)
    → qs q ≡ p ∷ xs
    → q < priority_levels
    → IsAbsent qs c
    → IsAbsent (update qs q xs) c × ((c == p) ≡ false)
IsAbsent-rest qs q p xs c e hq out =
    let there : (c == p || has c xs) ≡ false = sym (ap (has c) e) ∙ out q hq in
    (
      λ l hl. elim (Bool-cases (l == q)) [
        | inl s ↦ rw (if_true s) (ground (arith, there))
        | inr s ↦ rw (if_false s) (out l hl)
      ],
      ground (arith, there),
    )

hand_over-TakesOver :
    (k : Kernel) (qs : ℕ → List ℕ) (q p : ℕ) (xs : List ℕ) (t : Kernel)
    → Picked k qs q p xs t
    → IsAbsent qs k.current
    → (k.table k.current).state ≡ running
    → TakesOver (k.table k.current) qs k.current (hand_over t k.current p) q p xs
unfolding hand_over
hand_over-TakesOver k qs q p xs t w out h =
    let c = k.current in
    let (rest, ne) = IsAbsent-rest qs q p xs c w.first w.in_range out in
    let slot = w.relinked.slots c in
    let runs : (t.table c).state ≡ running = ap (λ (x : Process). x.state) slot ∙ h in
    record {
      in_range = w.in_range;
      first = w.first;
      higher_empty = w.higher_empty;
      switched = if_false ne _ _;
      runs = dispatch-Runs (requeue t c) p;
      valid = dispatch-IsQueues (requeue t c) _ p (
          subst (IsQueues (requeue t c)) (ap (λ (x : Process). requeued x (update qs q xs) c) slot)
            (requeue-IsQueues t (update qs q xs) c w.valid rest runs));
    }

-- What the choice comes to, for the slot `before` of the process `prev` that ran so far.
abbrev pub Outcome : Process → (ℕ → List ℕ) → ℕ → Switch × Kernel → Type 0
Outcome before qs prev r =
    ((q : ℕ) × (p : ℕ) × (xs : List ℕ) × TakesOver before qs prev r q p xs) ⊎ GoesOn qs prev r

choose-Outcome :
    (k : Kernel) (qs : ℕ → List ℕ)
    → IsQueues k qs
    → IsAbsent qs k.current
    → (k.table k.current).state ≡ running
    → Outcome (k.table k.current) qs k.current (choose k)
choose-Outcome k qs v out h = elim (pick_next-outcome k qs v) [
  | inl (q, p, xs, e, w) ↦
      rw (choose-some k p e)
        (inl (q, p, xs, hand_over-TakesOver k qs q p xs (pick_next k).1 w out h))
  | inr (e, same, empty) ↦ rw (choose-none k e same) (inr (fall_back-GoesOn k qs v empty h))
]

-- `schedule`, called while the current process could go on (its quantum is over, it yields, or it is
-- preempted) and is in no queue: the first process of the highest non-empty queue takes over, with its
-- base priority and a new quantum, and the current process goes to the end of the queue of its base
-- priority (the idle process to none). If all queues are empty, the current process goes on with a
-- new quantum.
pub schedule-Outcome :
    (k : Kernel) (qs : ℕ → List ℕ)
    → k.started ≡ true
    → IsQueues k qs
    → IsAbsent qs k.current
    → (k.table k.current).state ≡ running
    → Outcome (k.table k.current) qs k.current (schedule k)
unfolding schedule
schedule-Outcome k qs on v out h =
    let t = reap_orphans k in
    let w = reap_orphans-Reaped k in
    let c : t.current ≡ k.current = ap (λ (m : Kernel). m.current) w.rest in
    let alive : ((k.table k.current).state =s zombie) ≡ false =
      ap (λ s. s =s zombie) h ∙ running_alive in
    let b : t.table t.current ≡ k.table k.current = ap t.table c ∙ w.living k.current alive in
    let vt =
      IsQueues-same k t qs (λ q. ap (λ (m : Kernel). m.queue_head q) w.rest)
        (λ q. ap (λ (m : Kernel). m.queue_tail q) w.rest) w.same_links v in
    let r =
      choose-Outcome t qs vt (subst (IsAbsent qs) (sym c) out)
        (ap (λ (x : Process). x.state) b ∙ h) in
    rw (if_true on) (
      subst (λ n. Outcome (k.table k.current) qs n (choose t)) c
        (subst (λ x. Outcome x qs t.current (choose t)) b r))
