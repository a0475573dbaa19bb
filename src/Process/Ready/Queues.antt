-- ===== src/Process/Ready/Queues.antt =====
-- The ready queues of process/scheduler.c as three FIFO lists of slots.
use mathlib.Core.Path.{subst}
use my_operating_system_open.Prelude.{
  ℕ, refl, sym, ap, inl, inr, true, false, Option, List, [], arith, ◌<◌, ◌≡◌, ◌∙◌, ◌≢◌, ◌∷◌, ◌++◌,
  ◌==◌, if◌then◌else◌, ==→eq, Bool-cases, if_true, if_false, update,
}
use my_operating_system_open.Process.Table.{Process, Kernel, priority_levels}
use my_operating_system_open.Process.Ready.{set_next}
use my_operating_system_open.Process.Chains.{
  has, Distinct, Chain, tail_of, has-append_one, Chain-frame,
}

abbrev pub links : Kernel → ℕ → Option ℕ
links k i = (k.table i).next

-- The three queues are the lists `qs 0`, `qs 1` and `qs 2`, which share no slot.
pub record IsQueues (k : Kernel) (qs : ℕ → List ℕ) : Type 0 where
  pub chain : (q : ℕ) → q < priority_levels → Chain (links k) (k.queue_head q) (qs q)
  pub tail : (q : ℕ) → q < priority_levels → k.queue_tail q ≡ tail_of (qs q)
  pub distinct : (q : ℕ) → q < priority_levels → Distinct (qs q)
  pub apart :
      (q r x : ℕ)
      → q < priority_levels
      → r < priority_levels
      → has x (qs q) ≡ true
      → has x (qs r) ≡ true
      → q ≡ r

pub set_next-next :
    (table : ℕ → Process) (i : ℕ) (v : Option ℕ) (j : ℕ)
    → (set_next table i v j).next ≡ (if j == i then v else (table j).next)
unfolding set_next
set_next-next table i v j = elim (Bool-cases (j == i)) [
  | inl e ↦ rw (if_true e, if_true e)
  | inr e ↦ rw (if_false e, if_false e)
]

-- Two slots that differ at most in the link and the waiting time.
abbrev pub SameProcess : Process → Process → Type 0
SameProcess a b = b ≡ record a { next = b.next; wait_ticks = b.wait_ticks }

pub SameProcess-trans : (a b c : Process) → SameProcess a b → SameProcess b c → SameProcess a c
SameProcess-trans a b c p q =
    q ∙ ap (λ (z : Process). record z { next = c.next; wait_ticks = c.wait_ticks }) p

pub SameProcess-update :
    (table : ℕ → Process) (j : ℕ) (b : Process)
    → SameProcess (table j) b
    → (i : ℕ) → SameProcess (table i) (update table j b i)
SameProcess-update table j b h i = elim (Bool-cases (i == j)) [
  | inl e ↦
      subst (SameProcess (table i)) (sym (if_true e b (table i)))
        (subst (λ z. SameProcess (table z) b) (sym (==→eq i j e)) h)
  | inr e ↦ subst (SameProcess (table i)) (sym (if_false e b (table i))) refl
]

-- The state after an operation that changes nothing but the queues: the links and waiting times of
-- the slots, and the head and tail pointers.
pub record Relinked (k t : Kernel) : Type 0 where
  pub rest : t ≡ record k { table = t.table; queue_head = t.queue_head; queue_tail = t.queue_tail }
  pub slots : (i : ℕ) → SameProcess (k.table i) (t.table i)

pub set_next-Same :
    (table : ℕ → Process) (j : ℕ) (n : Option ℕ) (i : ℕ)
    → SameProcess (table i) (set_next table j n i)
unfolding set_next
set_next-Same table j n = SameProcess-update table j (record (table j) { next = n }) refl

-- In no queue.
abbrev pub IsAbsent : (ℕ → List ℕ) → ℕ → Type 0
IsAbsent qs p = (q : ℕ) → q < priority_levels → has p (qs q) ≡ false

-- The lists after `p` was appended to list `q`.
abbrev pub appended : (ℕ → List ℕ) → ℕ → ℕ → ℕ → List ℕ
appended qs q p = update qs q (qs q ++ (p ∷ []))

-- The lists stay distinct and apart.
pub appended-apart :
    (qs : ℕ → List ℕ) (q p : ℕ)
    → q < priority_levels
    → ((a b x : ℕ)
        → a < priority_levels
        → b < priority_levels
        → has x (qs a) ≡ true
        → has x (qs b) ≡ true
        → a ≡ b)
    → IsAbsent qs p
    → (a b x : ℕ) → a < priority_levels
    → b < priority_levels
    → has x (appended qs q p a) ≡ true
    → has x (appended qs q p b) ≡ true
    → a ≡ b
appended-apart qs q p hq apart out a b x ha hb ia ib =
    ground (arith, has-append_one x p (qs q), apart a b x, apart a q x, apart q b x, out a, out b)

-- Replacing queue `q` by a list of some of its slots, where no other queue is touched.
module _ (k : Kernel) (qs : ℕ → List ℕ) (v : IsQueues k qs) (q : ℕ) (hq : q < priority_levels)
    (t : Kernel) (ys : List ℕ) where
  pub shrink-IsQueues :
      Chain (links t) (t.queue_head q) ys
      → t.queue_tail q ≡ tail_of ys
      → Distinct ys
      → ((x : ℕ) → has x ys ≡ true → has x (qs q) ≡ true)
      → ((i : ℕ) → has i (qs q) ≡ false → links t i ≡ links k i)
      → ((r : ℕ) → r ≢ q → t.queue_head r ≡ k.queue_head r)
      → ((r : ℕ) → r ≢ q → t.queue_tail r ≡ k.queue_tail r)
      → IsQueues t (update qs q ys)
  shrink-IsQueues c tq d sub same heads tails = record {
    chain = λ r hr. elim (Bool-cases (r == q)) [
      | inl e ↦
          rw (if_true e) (subst (λ z. Chain (links t) (t.queue_head z) ys) (sym (==→eq r q e)) c)
      | inr e ↦
          let ne : r ≢ q = ground arith in
          rw (if_false e, heads r ne)
            (Chain-frame (links k) (links t) (qs r) (k.queue_head r)
              (λ x i. same x (ground (arith, v.apart r q x, ne))) (v.chain r hr))
    ];
    tail = λ r hr. elim (Bool-cases (r == q)) [
      | inl e ↦ rw (if_true e) (ap t.queue_tail (==→eq r q e) ∙ tq)
      | inr e ↦ rw (if_false e) (tails r (ground arith) ∙ v.tail r hr)
    ];
    distinct = λ r hr. elim (Bool-cases (r == q)) [
      | inl e ↦ rw (if_true e) d
      | inr e ↦ rw (if_false e) (v.distinct r hr)
    ];
    apart = λ a b x ha hb ia ib. ground (arith, sub x, v.apart a b x, v.apart a q x, v.apart q b x);
  }
