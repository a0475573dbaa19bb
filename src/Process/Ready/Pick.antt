-- ===== src/Process/Ready/Pick.antt =====
-- `pick_next` of process/scheduler.c takes the first process of the highest non-empty queue.
use mathlib.Core.Path.{subst}
use my_operating_system_open.Prelude.{
  ℕ, zero, suc, refl, ap, inl, inr, false, Option, none, some, List, [], arith, ◌+◌, ◌<◌, ◌≡◌, ◌∙◌,
  ◌≢◌, ◌⊎◌, ◌∷◌, ◌==◌, eq→==, ==→eq, Bool-cases, if_false, update, update_self, update_ne,
}
use my_operating_system_open.Process.Table.{Kernel, priority_levels}
use my_operating_system_open.Process.Ready.{tails_after, take_head, pick_levels, pick_next}
use my_operating_system_open.Process.Ready.Queues.{
  IsQueues, Relinked, links, set_next-next, set_next-Same, shrink-IsQueues,
}
use my_operating_system_open.Process.Chains.{has, Distinct, Chain, last_of, tail_of, Chain-frame}

module _ (k : Kernel) (qs : ℕ → List ℕ) (v : IsQueues k qs) (q p : ℕ) (xs : List ℕ)
    (hq : q < priority_levels) (e : qs q ≡ p ∷ xs) where
  at_q : Chain (links k) (k.queue_head q) (p ∷ xs)
  at_q = subst (Chain (links k) (k.queue_head q)) e (v.chain q hq)

  distinct_q : Distinct (p ∷ xs)
  distinct_q = subst Distinct e (v.distinct q hq)

  taken_links : (i : ℕ) → i ≢ p → links (take_head k p q) i ≡ links k i
  unfolding take_head
  taken_links i ne =
      let off : (i == p) ≡ false = ground arith in set_next-next k.table p none i ∙ if_false off _ _

  new_tail : tails_after k.queue_tail q (links k p) q ≡ tail_of xs
  unfolding tails_after
  new_tail = go xs at_q.1 (v.tail q hq ∙ ap tail_of e)
    where
      go :
          (ys : List ℕ)
          → Chain (links k) (links k p) ys
          → k.queue_tail q ≡ some (last_of p ys)
          → tails_after k.queue_tail q (links k p) q ≡ tail_of ys
      go [] c t = rw c (update_self k.queue_tail q none)
      go (y ∷ ys) c t = rw c.0 t

  other_tails : (h : Option ℕ) (r : ℕ) → r ≢ q → tails_after k.queue_tail q h r ≡ k.queue_tail r
  unfolding tails_after
  other_tails none r ne = update_ne k.queue_tail q none r ne
  other_tails (some x) r ne = refl

  take_head-IsQueues : IsQueues (take_head k p q) (update qs q xs)
  unfolding take_head
  take_head-IsQueues =
      shrink-IsQueues k qs v q hq (take_head k p q) xs
        (rw (update_self k.queue_head q) (
          Chain-frame (links k) (links (take_head k p q)) xs (links k p)
            (λ x i. taken_links x (λ s. cc (distinct_q.0, i, s))) at_q.1))
        new_tail distinct_q.1 (λ x i. ap (has x) e ∙ ground arith)
        (λ i out. taken_links i (λ s. cc (ap (has i) e, out, eq→== i p s)))
        (λ r ne. update_ne k.queue_head q (links k p) r ne) (λ r ne. other_tails (links k p) r ne)

  take_head-Relinked : Relinked k (take_head k p q)
  unfolding take_head
  take_head-Relinked = record { rest = refl; slots = set_next-Same k.table p none }

-- What `pick_next` does: it takes the first process `p` of queue `q`, where the higher queues are
-- empty, and changes nothing else.
pub record Picked (k : Kernel) (qs : ℕ → List ℕ) (q p : ℕ) (xs : List ℕ) (t : Kernel) : Type 0 where
  pub in_range : q < priority_levels
  pub first : qs q ≡ p ∷ xs
  pub higher_empty : (r : ℕ) → r < q → qs r ≡ []
  pub valid : IsQueues t (update qs q xs)
  pub relinked : Relinked k t

-- Either something is picked, or all queues are empty and nothing changes.
abbrev pub PickOutcome : Kernel → (ℕ → List ℕ) → Option ℕ × Kernel → Type 0
PickOutcome k qs (r, t) =
    ((q : ℕ) × (p : ℕ) × (xs : List ℕ) × (r ≡ some p) × Picked k qs q p xs t)
    ⊎ ((r ≡ none) × (t ≡ k) × ((q : ℕ) → q < priority_levels → qs q ≡ []))

module _ (k : Kernel) (qs : ℕ → List ℕ) (v : IsQueues k qs) where
  pick_levels-outcome :
      (r q : ℕ)
      → q + r ≡ priority_levels
      → ((l : ℕ) → l < q → qs l ≡ [])
      → PickOutcome k qs (pick_levels r q k)
  unfolding pick_levels
  pick_levels-outcome zero q e empty = inr (refl, refl, λ l h. empty l (omega arith))
  pick_levels-outcome (suc r) q e empty = go (qs q) refl (pick_levels-outcome r (q + 1))
    where
      hq : q < priority_levels
      hq = omega arith

      go :
          (xs : List ℕ)
          → qs q ≡ xs
          → (q + 1 + r ≡ priority_levels
              → ((l : ℕ) → l < q + 1 → qs l ≡ [])
              → PickOutcome k qs (pick_levels r (q + 1) k))
          → PickOutcome k qs (pick_levels (suc r) q k)
      go [] f rest =
          let low : (l : ℕ) → l < q + 1 → qs l ≡ [] = λ l h. elim (Bool-cases (l == q)) [
            | inl here ↦ ap qs (==→eq l q here) ∙ f
            | inr below ↦ empty l (ground arith)
          ] in
          rw (subst (Chain (links k) (k.queue_head q)) f (v.chain q hq), pick_levels)
            (rest (omega arith) low)
      go (p ∷ xs) f rest =
          rw ((at_q k qs v q p xs hq f).0, pick_levels)
            (inl (
              q,
              p,
              xs,
              refl,
              record {
                in_range = hq;
                first = f;
                higher_empty = empty;
                valid = take_head-IsQueues k qs v q p xs hq f;
                relinked = take_head-Relinked k qs v q p xs hq f;
              },
            ))

  -- `pick_next` takes the first process of the highest queue that is not empty, leaves all other
  -- processes queued in order and changes nothing else; if all queues are empty it returns NULL and
  -- changes nothing.
  pub pick_next-outcome : PickOutcome k qs (pick_next k)
  unfolding pick_next
  pick_next-outcome = pick_levels-outcome priority_levels 0 refl (λ l h. absurd (omega arith))
