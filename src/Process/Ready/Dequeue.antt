-- ===== src/Process/Ready/Dequeue.antt =====
-- `scheduler_dequeue` of process/scheduler.c takes a process out of the queue that holds it.
use mathlib.Core.Path.{subst}
use my_operating_system_open.Prelude.{
  ℕ, zero, suc, refl, sym, ap, inl, inr, true, false, Option, none, some, List, [], arith, ◌+◌, ◌≤◌,
  ◌<◌, ◌≡◌, ◌∙◌, ◌≢◌, ◌∷◌, ◌==◌, if◌then◌else◌, ==→eq, Bool-cases, if_true, if_false, length,
  update, update_self, update_ne,
}
use my_operating_system_open.Process.Table.{Kernel, process_max, priority_levels}
use my_operating_system_open.Process.Ready.{
  set_next, points_at, unlink, dequeue_walk, dequeue_levels, scheduler_dequeue,
}
use my_operating_system_open.Process.Ready.Queues.{
  IsQueues, Relinked, IsAbsent, links, set_next-next, set_next-Same, SameProcess-trans,
  shrink-IsQueues,
}
use my_operating_system_open.Process.Chains.{
  has, Distinct, Chain, last_of, tail_of, remove, pred_of, Unlinked, Chain-remove, tail_of-remove,
  has-remove, Distinct-remove, has-pred_of, length-Distinct,
}

module _ (k : Kernel) (p q : ℕ) where
  -- The walk along a queue that holds `p` finds it behind its predecessor.
  walk_found :
      (f : ℕ) (ys : List ℕ) (prev it : Option ℕ)
      → Chain (links k) it ys
      → length ys < f
      → has p ys ≡ true
      → dequeue_walk f k p q prev it ≡ (true, unlink k p q (pred_of p prev ys))
  unfolding dequeue_walk
  walk_found f [] prev it c h i = absurd (cc)
  walk_found zero (y ∷ ys) prev it c h i = absurd (omega arith)
  walk_found (suc f) (y ∷ ys) prev it c h i = elim (Bool-cases (y == p)) [
    | inl e ↦ rw (c.0, dequeue_walk, if_true e, if_true e)
    | inr e ↦
        rw (c.0, dequeue_walk, if_false e, if_false e)
          (walk_found f ys (some y) (links k y) c.1 (omega arith) (ground arith))
  ]

  -- The walk along a queue without `p` changes nothing.
  walk_missing :
      (f : ℕ) (ys : List ℕ) (prev it : Option ℕ)
      → Chain (links k) it ys
      → length ys < f
      → has p ys ≡ false
      → dequeue_walk f k p q prev it ≡ (false, k)
  unfolding dequeue_walk
  walk_missing zero ys prev it c h i = refl
  walk_missing (suc f) [] prev it c h i = rw (c, dequeue_walk)
  walk_missing (suc f) (y ∷ ys) prev it c h i =
      let e : (y == p) ≡ false = ground arith in
      rw (c.0, dequeue_walk, if_false e)
        (walk_missing f ys (some y) (links k y) c.1 (omega arith) (ground arith))

unlink-links :
    (k : Kernel) (p q : ℕ) (prev : Option ℕ) → Unlinked (links k) (links (unlink k p q prev)) p prev
unfolding unlink
unlink-links k p q none = record {
  round = λ r e ne. absurd (cc);
  same = λ y away ne.
      let off : (y == p) ≡ false = ground arith in
      set_next-next k.table p none y ∙ if_false off _ _;
}
unlink-links k p q (some r) = record {
  round = λ s e ne.
      let off : (s == p) ≡ false = ground arith in
      let on : (s == r) ≡ true = ground (arith, e) in
      set_next-next (set_next k.table r (links k p)) p none s
      ∙ if_false off _ _
      ∙ set_next-next k.table r (links k p) s
      ∙ if_true on _ _;
  same = λ y away ne.
      let off : (y == p) ≡ false = ground arith in
      let far : (y == r) ≡ false = ground (arith, away) in
      set_next-next (set_next k.table r (links k p)) p none y
      ∙ if_false off _ _
      ∙ set_next-next k.table r (links k p) y
      ∙ if_false far _ _;
}

unlink-Relinked : (k : Kernel) (p q : ℕ) (prev : Option ℕ) → Relinked k (unlink k p q prev)
unfolding unlink
unlink-Relinked k p q none = record { rest = refl; slots = set_next-Same k.table p none }
unlink-Relinked k p q (some r) = record {
  rest = refl;
  slots = λ i.
      SameProcess-trans (k.table i) (set_next k.table r (links k p) i)
        (set_next (set_next k.table r (links k p)) p none i) (set_next-Same k.table r (links k p) i)
        (set_next-Same (set_next k.table r (links k p)) p none i);
}

module _ (k : Kernel) (qs : ℕ → List ℕ) (v : IsQueues k qs) (q p x : ℕ) (xs : List ℕ)
    (hq : q < priority_levels) (e : qs q ≡ x ∷ xs) (i : has p (x ∷ xs) ≡ true) where
  abbrev before : Option ℕ
  before = pred_of p none (x ∷ xs)

  d : Distinct (x ∷ xs)
  d = subst Distinct e (v.distinct q hq)

  new_head :
      (prev : Option ℕ)
      → (unlink k p q prev).queue_head q
        ≡ (elim prev [ none ↦ links k p | some _ ↦ k.queue_head q ])
  unfolding unlink
  new_head none = update_self k.queue_head q (links k p)
  new_head (some r) = refl

  tail_after :
      (tails : ℕ → Option ℕ) (l : ℕ) (b : Option ℕ)
      → tails q ≡ some l
      → (if points_at (tails q) p then update tails q b else tails) q
        ≡ (if l == p then b else some l)
  tail_after tails l b at_l = elim (Bool-cases (l == p)) [
    | inl h ↦ rw (at_l, if_true h, if_true h) (update_self tails q b)
    | inr h ↦ rw (at_l, if_false h, if_false h) at_l
  ]

  new_tail : (unlink k p q before).queue_tail q ≡ tail_of (remove p (x ∷ xs))
  unfolding unlink
  new_tail =
      tail_after k.queue_tail (last_of x xs) before (v.tail q hq ∙ ap tail_of e)
      ∙ sym (tail_of-remove p x xs d i)

  -- The predecessor is in the queue.
  before_in : (j : ℕ) → has j (x ∷ xs) ≡ false → before ≢ some j
  before_in j out at_j = elim (Bool-cases (x == p)) [
    | inl here ↦ cc (sym (if_true here none (pred_of p (some x) xs)) ∙ at_j)
    | inr there ↦
        let found = sym (if_false there none (pred_of p (some x) xs)) ∙ at_j in
        cc (has-pred_of p x xs j (ground arith) found, out)
  ]

  other_heads :
      (prev : Option ℕ) (r : ℕ) → r ≢ q → (unlink k p q prev).queue_head r ≡ k.queue_head r
  unfolding unlink
  other_heads none r ne = update_ne k.queue_head q (links k p) r ne
  other_heads (some s) r ne = refl

  other_tails :
      (prev : Option ℕ) (r : ℕ) → r ≢ q → (unlink k p q prev).queue_tail r ≡ k.queue_tail r
  unfolding unlink
  other_tails prev r ne = elim (Bool-cases (points_at (k.queue_tail q) p)) [
    | inl t ↦ rw (if_true t) (update_ne k.queue_tail q prev r ne)
    | inr t ↦ rw (if_false t)
  ]

  unlink-IsQueues : IsQueues (unlink k p q before) (update qs q (remove p (x ∷ xs)))
  unlink-IsQueues =
      shrink-IsQueues k qs v q hq (unlink k p q before) (remove p (x ∷ xs))
        (rw (new_head before) (
          Chain-remove (links k) (links (unlink k p q before)) p (x ∷ xs) (k.queue_head q) d i
            (unlink-links k p q before)
            (subst (Chain (links k) (k.queue_head q)) e (v.chain q hq))))
        new_tail (Distinct-remove p (x ∷ xs) d)
        (λ y j. ap (has y) e ∙ ground (arith, has-remove y p (x ∷ xs) d))
        (λ j out.
          let away = before_in j (sym (ap (has j) e) ∙ out) in
          (unlink-links k p q before).same j away
            (λ s. cc (ap (has j) e, out, i, ap (λ z. has z (x ∷ xs)) s)))
        (other_heads before) (other_tails before)

-- The queues hold slots of the table.
abbrev pub InTable : (ℕ → List ℕ) → Type 0
InTable qs = (q x : ℕ) → q < priority_levels → has x (qs q) ≡ true → x < process_max

module _ (k : Kernel) (qs : ℕ → List ℕ) (v : IsQueues k qs) (slots : InTable qs) (p : ℕ) where
  short : (q : ℕ) → q < priority_levels → length (qs q) < process_max + 1
  short q hq =
      omega (arith, length-Distinct process_max (qs q) (v.distinct q hq) (λ x i. slots q x hq i))

  level_found :
      (q : ℕ)
      → q < priority_levels
      → has p (qs q) ≡ true
      → let r = dequeue_walk (process_max + 1) k p q none (k.queue_head q) in
        (r.0 ≡ true) × IsQueues r.1 (update qs q (remove p (qs q))) × Relinked k r.1
  level_found q hq i = go (qs q) refl i
    where
      go :
          (xs : List ℕ)
          → qs q ≡ xs
          → has p xs ≡ true
          → let r = dequeue_walk (process_max + 1) k p q none (k.queue_head q) in
            (r.0 ≡ true) × IsQueues r.1 (update qs q (remove p (qs q))) × Relinked k r.1
      go [] e j = absurd (cc)
      go (x ∷ xs) e j =
          rw
            (
              walk_found k p q (process_max + 1) (qs q) none (k.queue_head q) (v.chain q hq)
                  (short q hq) i,
              e,
            )
            (
              refl,
              unlink-IsQueues k qs v q p x xs hq e j,
              unlink-Relinked k p q (pred_of p none (x ∷ xs)),
            )

  levels_found :
      (r from q : ℕ)
      → from + r ≡ priority_levels
      → from ≤ q
      → q < priority_levels
      → has p (qs q) ≡ true
      → let t = dequeue_levels r from k p in
        IsQueues t (update qs q (remove p (qs q))) × Relinked k t
  unfolding dequeue_levels
  levels_found zero from q e lo hq i = absurd (omega arith)
  levels_found (suc r) from q e lo hq i = elim (Bool-cases (from == q)) [
    | inl here ↦
        let same : q ≡ from = sym (==→eq from q here) in
        let hf : from < priority_levels = omega arith in
        let found = level_found from hf (ap (λ z. has p (qs z)) (sym same) ∙ i) in
        rw (if_true found.0, same) (found.1, found.2)
    | inr there ↦
        let ne : from ≢ q = ground arith in
        let hf : from < priority_levels = omega arith in
        let out : has p (qs from) ≡ false = ground (arith, v.apart from q p hf hq) in
        rw
          (walk_missing k p from (process_max + 1) (qs from) none (k.queue_head from)
            (v.chain from hf) (short from hf) out)
          (levels_found r (from + 1) q (omega arith) (omega arith) hq i)
  ]

  -- `scheduler_dequeue` of a process that is in a queue takes it out of that queue, keeps the order
  -- of all others and changes nothing else.
  pub scheduler_dequeue-removed :
      (q : ℕ)
      → q < priority_levels
      → has p (qs q) ≡ true
      → IsQueues (scheduler_dequeue k p) (update qs q (remove p (qs q)))
        × Relinked k (scheduler_dequeue k p)
  unfolding scheduler_dequeue
  scheduler_dequeue-removed q hq i = levels_found priority_levels 0 q refl (omega arith) hq i

  levels_missing :
      (r from : ℕ) → from + r ≡ priority_levels → IsAbsent qs p → dequeue_levels r from k p ≡ k
  unfolding dequeue_levels
  levels_missing zero from e out = refl
  levels_missing (suc r) from e out =
      let hf : from < priority_levels = omega arith in
      rw
        (walk_missing k p from (process_max + 1) (qs from) none (k.queue_head from)
          (v.chain from hf) (short from hf) (out from hf))
        (levels_missing r (from + 1) (omega arith) out)

  -- Of a process that is in no queue it changes nothing.
  pub scheduler_dequeue_absent : IsAbsent qs p → scheduler_dequeue k p ≡ k
  unfolding scheduler_dequeue
  scheduler_dequeue_absent out = levels_missing priority_levels 0 refl out
