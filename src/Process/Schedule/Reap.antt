-- ===== src/Process/Schedule/Reap.antt =====
-- `reap_orphans` of process/scheduler.c leaves the ready queues and the living processes alone.
use mathlib.Core.Path.{subst}
use my_operating_system_open.Prelude.{
  ℕ, zero, suc, refl, sym, ap, inl, inr, true, false, not, List, arith, ◌+◌, ◌≡◌, ◌∙◌, ◌&&◌, ◌==◌,
  ==→eq, Bool-cases, if_true, if_false, update, update_ne,
}
use my_operating_system_open.Process.Table.{
  Process, Kernel, zombie, ◌=s◌, process_max, process_release,
}
use my_operating_system_open.Process.Schedule.{is_orphan, reap_slot, reap_from, reap_orphans}
use my_operating_system_open.Process.Ready.Queues.{IsQueues, links}
use my_operating_system_open.Process.Chains.{Chain, Chain-frame}

-- Queues that keep their head and tail pointers and their links.
pub IsQueues-same :
    (k t : Kernel) (qs : ℕ → List ℕ)
    → ((q : ℕ) → t.queue_head q ≡ k.queue_head q)
    → ((q : ℕ) → t.queue_tail q ≡ k.queue_tail q)
    → ((i : ℕ) → links t i ≡ links k i)
    → IsQueues k qs
    → IsQueues t qs
IsQueues-same k t qs heads tails same v = record {
  chain = λ q h.
      subst (λ hd. Chain (links t) hd (qs q)) (sym (heads q))
        (Chain-frame (links k) (links t) (qs q) (k.queue_head q) (λ x i. same x) (v.chain q h));
  tail = λ q h. tails q ∙ v.tail q h;
  distinct = v.distinct;
  apart = v.apart;
}

-- A slot that is given anew with the same link keeps all links.
pub update-next :
    (table : ℕ → Process) (i : ℕ) (p : Process) (j : ℕ)
    → p.next ≡ (table i).next
    → (update table i p j).next ≡ (table j).next
update-next table i p j h = elim (Bool-cases (j == i)) [
  | inl e ↦ rw (if_true e) (h ∙ ap (λ n. (table n).next) (sym (==→eq j i e)))
  | inr e ↦ rw (if_false e) refl
]

-- What the reaping may change.
pub record Reaped (k t : Kernel) : Type 0 where
  pub rest : t ≡ record k { table = t.table; freed = t.freed }
  pub same_links : (i : ℕ) → links t i ≡ links k i
  pub living : (i : ℕ) → ((k.table i).state =s zombie) ≡ false → t.table i ≡ k.table i

Reaped-refl : (k : Kernel) → Reaped k k
Reaped-refl k = record { rest = refl; same_links = λ i. refl; living = λ i h. refl }

reap_slot-Reaped : (k : Kernel) (i : ℕ) → Reaped k (reap_slot k i)
unfolding reap_slot process_release
reap_slot-Reaped k i =
    elim (Bool-cases ((k.table i).state =s zombie && not (i == k.current) && is_orphan k i)) [
      | inr e ↦ rw (if_false e) (Reaped-refl k)
      | inl e ↦ rw (if_true e) (elim (Bool-cases (i == k.current)) [
        | inl c ↦ rw (if_true c) (Reaped-refl k)
        | inr c ↦ rw (if_false c) (record {
          rest = refl;
          same_links = λ j. update-next k.table i _ j refl;
          living = λ j h. update_ne k.table i _ j (λ s.
              (let z : ((k.table i).state =s zombie) ≡ true = ground (arith, e) in
                cc (h, z, ap (λ n. (k.table n).state =s zombie) s)));
        })
      ])
    ]

Reaped-trans : (k t u : Kernel) → Reaped k t → Reaped t u → Reaped k u
Reaped-trans k t u a b = record {
  rest = b.rest ∙ ap (λ (m : Kernel). record m { table = u.table; freed = u.freed }) a.rest;
  same_links = λ i. b.same_links i ∙ a.same_links i;
  living =
      λ i h. b.living i (ap (λ (p : Process). p.state =s zombie) (a.living i h) ∙ h) ∙ a.living i h;
}

reap_from-Reaped : (r i : ℕ) (k : Kernel) → Reaped k (reap_from r i k)
unfolding reap_from
reap_from-Reaped zero i k = Reaped-refl k
reap_from-Reaped (suc r) i k =
    Reaped-trans k (reap_slot k i) _ (reap_slot-Reaped k i)
      (reap_from-Reaped r (i + 1) (reap_slot k i))

-- `reap_orphans` changes nothing but the slots of zombies and what was freed, and keeps all links.
pub reap_orphans-Reaped : (k : Kernel) → Reaped k (reap_orphans k)
unfolding reap_orphans
reap_orphans-Reaped k = reap_from-Reaped process_max 0 k
