-- ===== src/Process/Ready/Enqueue.antt =====
-- `scheduler_enqueue` of process/scheduler.c appends to a queue.
use mathlib.Core.Path.{subst}
use my_operating_system_open.Prelude.{
  ℕ, min, refl, sym, ap, inl, inr, true, false, Option, none, some, List, [], arith, ◌<◌, ◌≡◌, ◌∙◌,
  ◌≢◌, ◌∷◌, ◌++◌, ◌==◌, if◌then◌else◌, eq→==, ==→eq, Bool-cases, if_true, if_false, update,
  update_self, update_ne,
}
use my_operating_system_open.Process.Table.{Process, Kernel, priority_levels, put}
use my_operating_system_open.Process.Ready.{set_next, level, link_last, scheduler_enqueue}
use my_operating_system_open.Process.Ready.Queues.{
  IsQueues, Relinked, IsAbsent, links, set_next-next, SameProcess, SameProcess-trans,
  SameProcess-update, set_next-Same, appended, appended-apart,
}
use my_operating_system_open.Process.Chains.{
  has, Distinct, Chain, last_of, tail_of, Distinct-append_one, has-last_of, tail_of-append_one,
  Chain-frame, Chain-append_one,
}

module _ (k : Kernel) (qs : ℕ → List ℕ) (v : IsQueues k qs) (p q : ℕ) (hq : q < priority_levels)
    (out : IsAbsent qs p) where
  -- The slot that is linked: its own link and waiting time are reset.
  abbrev reset : Kernel
  reset = put k p (record (k.table p) { next = none; wait_ticks = 0 })

  reset_Same : (i : ℕ) → SameProcess (k.table i) (reset.table i)
  reset_Same =
      SameProcess-update k.table p (record (k.table p) { next = none; wait_ticks = 0 }) refl

  reset-links : (i : ℕ) → i ≢ p → links reset i ≡ links k i
  reset-links i ne = ground arith

  -- The queues other than `q` are as before.
  other-Chain :
      (t : Kernel)
      → ((i : ℕ) → i ≢ p → has i (qs q) ≡ false → links t i ≡ links k i)
      → ((r : ℕ) → r ≢ q → t.queue_head r ≡ k.queue_head r)
      → (r : ℕ) → r < priority_levels
      → r ≢ q
      → Chain (links t) (t.queue_head r) (qs r)
  other-Chain t same heads r hr ne = rw (heads r ne) (
      Chain-frame (links k) (links t) (qs r) (k.queue_head r)
        (λ x i. same x (λ e. cc (out r hr, i, e)) (ground (arith, v.apart r q x, ne)))
        (v.chain r hr))

  -- The new state, whichever way the slot was linked.
  build :
      (t : Kernel)
      → Chain (links t) (t.queue_head q) (qs q ++ (p ∷ []))
      → ((i : ℕ) → i ≢ p → has i (qs q) ≡ false → links t i ≡ links k i)
      → ((r : ℕ) → r ≢ q → t.queue_head r ≡ k.queue_head r)
      → t.queue_tail ≡ update k.queue_tail q (some p)
      → IsQueues t (appended qs q p)
  build t c same heads tails = record {
    chain = λ r hr. elim (Bool-cases (r == q)) [
      | inl e ↦
          rw (if_true e)
            (subst (λ z. Chain (links t) (t.queue_head z) (qs q ++ (p ∷ []))) (sym (==→eq r q e)) c)
      | inr e ↦ rw (if_false e) (other-Chain t same heads r hr (ground arith))
    ];
    tail = λ r hr. elim (Bool-cases (r == q)) [
      | inl e ↦ rw (tails, if_true e, if_true e) (sym (tail_of-append_one p (qs q)))
      | inr e ↦ rw (tails, if_false e, if_false e) (v.tail r hr)
    ];
    distinct = λ r hr. elim (Bool-cases (r == q)) [
      | inl e ↦ rw (if_true e) (Distinct-append_one p (qs q) (v.distinct q hq) (out q hq))
      | inr e ↦ rw (if_false e) (v.distinct r hr)
    ];
    apart = appended-apart qs q p hq v.apart out;
  }

  -- An empty queue: head and tail become `p`.
  link_empty : qs q ≡ [] → IsQueues (link_last reset p q none) (appended qs q p)
  unfolding link_last
  link_empty e =
      build (link_last reset p q none)
        (rw (e, update_self k.queue_head q)
          (refl, ap (λ (x : Process). x.next) (update_self k.table p _)))
        (λ i ne h. reset-links i ne) (λ r ne. update_ne k.queue_head q (some p) r ne) refl

  -- A queue with the last slot `last_of x xs`: that one is linked to `p`.
  link_behind :
      (x : ℕ) (xs : List ℕ)
      → qs q ≡ x ∷ xs
      → IsQueues (link_last reset p q (some (last_of x xs))) (appended qs q p)
  unfolding link_last
  link_behind x xs e =
      build t (rw e (Chain-append_one (links k) (links t) p x xs (k.queue_head q) d np nl same c))
        (λ i ne h. linked i ∙ if_false (away i h) _ _ ∙ reset-links i ne) (λ r ne. refl) refl
    where
      t : Kernel
      t = link_last reset p q (some (last_of x xs))

      linked : (i : ℕ) → links t i ≡ (if i == last_of x xs then some p else links reset i)
      linked i = set_next-next reset.table (last_of x xs) (some p) i

      away : (i : ℕ) → has i (qs q) ≡ false → (i == last_of x xs) ≡ false
      away i h = ground (arith, has-last_of x xs, e, h)

      c : Chain (links k) (k.queue_head q) (x ∷ xs)
      c = subst (Chain (links k) (k.queue_head q)) e (v.chain q hq)

      d : Distinct (x ∷ xs)
      d = subst Distinct e (v.distinct q hq)

      np : links t p ≡ none
      np =
          linked p
          ∙ if_false (away p (out q hq)) _ _
          ∙ ap (λ (y : Process). y.next) (update_self k.table p _)

      nl : links t (last_of x xs) ≡ some p
      nl = linked (last_of x xs) ∙ if_true (eq→== (last_of x xs) (last_of x xs) refl) _ _

      same : (y : ℕ) → has y (x ∷ xs) ≡ true → y ≢ last_of x xs → links t y ≡ links k y
      same y i ne =
          let off : (y == last_of x xs) ≡ false = ground arith in
          linked y ∙ if_false off _ _ ∙ reset-links y (λ s. cc (out q hq, ap (has y) e, i, s))

  -- Both ways of linking.
  link_last-IsQueues :
      (tail : Option ℕ)
      → tail ≡ tail_of (qs q)
      → IsQueues (link_last reset p q tail) (appended qs q p)
  link_last-IsQueues tail e = go (qs q) refl
    where
      go : (xs : List ℕ) → qs q ≡ xs → IsQueues (link_last reset p q tail) (appended qs q p)
      go [] f = rw (e ∙ ap tail_of f) (link_empty f)
      go (x ∷ xs) f = rw (e ∙ ap tail_of f) (link_behind x xs f)

  -- Nothing but links, waiting times and queue pointers changes.
  link_last-Relinked : (tail : Option ℕ) → Relinked k (link_last reset p q tail)
  unfolding link_last
  link_last-Relinked none = record { rest = refl; slots = reset_Same }
  link_last-Relinked (some t) = record {
    rest = refl;
    slots = λ i.
        SameProcess-trans (k.table i) (reset.table i) (set_next reset.table t (some p) i)
          (reset_Same i) (set_next-Same reset.table t (some p) i);
  }

  pub scheduler_enqueue-level :
      (k.table p).pid ≢ 0
      → q ≡ level (k.table p).priority
      → IsQueues (scheduler_enqueue k p) (appended qs q p) × Relinked k (scheduler_enqueue k p)
  unfolding scheduler_enqueue
  scheduler_enqueue-level user e =
      let idle : ((k.table p).pid == 0) ≡ false = ground arith in
      rw (if_false idle, ← e)
        (link_last-IsQueues (k.queue_tail q) (v.tail q hq), link_last-Relinked (k.queue_tail q))

  level-min : (priority : ℕ) → level priority ≡ min priority 2
  unfolding level
  level-min priority = ground arith

  pub scheduler_enqueue-appended :
      (k.table p).pid ≢ 0
      → q ≡ min (k.table p).priority 2
      → IsQueues (scheduler_enqueue k p) (appended qs q p) × Relinked k (scheduler_enqueue k p)
  scheduler_enqueue-appended user e =
      scheduler_enqueue-level user (e ∙ sym (level-min (k.table p).priority))

-- Whatever the queues are, linking changes links and waiting times only.
link_last_slots :
    (k : Kernel) (p q : ℕ) (tail : Option ℕ) (i : ℕ)
    → SameProcess (k.table i) ((link_last k p q tail).table i)
unfolding link_last
link_last_slots k p q none i = refl
link_last_slots k p q (some t) i = set_next-Same k.table t (some p) i

pub scheduler_enqueue_slots :
    (k : Kernel) (p i : ℕ) → SameProcess (k.table i) ((scheduler_enqueue k p).table i)
unfolding scheduler_enqueue
scheduler_enqueue_slots k p i = elim (Bool-cases ((k.table p).pid == 0)) [
  | inl e ↦ rw (if_true e) refl
  | inr e ↦
      let cleared = record (k.table p) { next = none; wait_ticks = 0 } in
      let m = put k p cleared in
      let q = level (k.table p).priority in
      rw (if_false e) (
        SameProcess-trans (k.table i) (m.table i) ((link_last m p q (k.queue_tail q)).table i)
          (SameProcess-update k.table p cleared refl i) (link_last_slots m p q (k.queue_tail q) i))
]

-- Linking leaves the memory.
link_last_memory :
    (k : Kernel) (p q : ℕ) (tail : Option ℕ) → (link_last k p q tail).memory ≡ k.memory
unfolding link_last
link_last_memory k p q none = refl
link_last_memory k p q (some t) = refl

pub scheduler_enqueue_memory : (k : Kernel) (p : ℕ) → (scheduler_enqueue k p).memory ≡ k.memory
unfolding scheduler_enqueue
scheduler_enqueue_memory k p = elim (Bool-cases ((k.table p).pid == 0)) [
  | inl e ↦ rw (if_true e) refl
  | inr e ↦
      let m = put k p (record (k.table p) { next = none; wait_ticks = 0 }) in
      let q = level (k.table p).priority in
      rw (if_false e) (link_last_memory m p q (k.queue_tail q))
]
