-- ===== src/Process/Schedule/Wake.antt =====
-- Which processes `wake_sleepers` of process/scheduler.c wakes.
use mathlib.Core.Path.{subst}
use my_operating_system_open.Prelude.{
  ℕ, zero, suc, refl, sym, ap, inl, inr, true, false, arith, ◌+◌, ◌<◌, ◌≡◌, ◌∙◌, ◌&&◌, ◌==◌,
  if◌then◌else◌, ltb, leb, ==→eq, Bool-cases, if_true, if_false,
}
use my_operating_system_open.Process.Table.{
  Process, Kernel, ready, sleeping, ◌=s◌, process_max, put,
}
use my_operating_system_open.Process.Ready.{scheduler_enqueue}
use my_operating_system_open.Process.Ready.Enqueue.{scheduler_enqueue_slots}
use my_operating_system_open.Process.Schedule.{wake_slot, wake_from, wake_sleepers}
use my_operating_system_open.Process.Ready.Queues.{SameProcess, SameProcess-trans}

-- A slot after its deadline was looked at.
abbrev pub roused : ℕ → Process → Process
roused now p =
    if p.state =s sleeping && leb p.sleep_until now then record p { state = ready } else p

roused-SameProcess :
    (now : ℕ) (a b : Process) → SameProcess a b → SameProcess (roused now a) (roused now b)
roused-SameProcess now a b h = elim (Bool-cases (a.state =s sleeping && leb a.sleep_until now)) [
  | inl e ↦
      let f : (b.state =s sleeping && leb b.sleep_until now) ≡ true =
        ap (λ (x : Process). x.state =s sleeping && leb x.sleep_until now) h ∙ e in
      rw (if_true e, if_true f) (ap (λ (x : Process). record x { state = ready }) h)
  | inr e ↦
      let f : (b.state =s sleeping && leb b.sleep_until now) ≡ false =
        ap (λ (x : Process). x.state =s sleeping && leb x.sleep_until now) h ∙ e in
      rw (if_false e, if_false f) h
]

wake_slot-SameProcess :
    (k : Kernel) (now i j : ℕ)
    → SameProcess
        (if j == i then roused now (k.table j) else k.table j)
        ((wake_slot k now i).table j)
unfolding wake_slot
wake_slot-SameProcess k now i j =
    elim (Bool-cases ((k.table i).state =s sleeping && leb (k.table i).sleep_until now)) [
      | inl e ↦
          let m = put k i (record (k.table i) { state = ready }) in
          let t = scheduler_enqueue m i in
          let same : m.table j ≡ (if j == i then roused now (k.table j) else k.table j) =
            elim (Bool-cases (j == i)) [
              | inl s ↦
                  let z : j ≡ i = ==→eq j i s in
                  if_true s _ _
                  ∙ sym (if_true s _ _ ∙ ap (λ n. roused now (k.table n)) z ∙ if_true e _ _)
              | inr s ↦ if_false s _ _ ∙ sym (if_false s _ _)
            ] in
          rw (if_true e)
            (subst (λ p. SameProcess p (t.table j)) same (scheduler_enqueue_slots m i j))
      | inr e ↦
          let same : k.table j ≡ (if j == i then roused now (k.table j) else k.table j) =
            elim (Bool-cases (j == i)) [
              | inl s ↦
                  let z : i ≡ j = sym (==→eq j i s) in
                  sym (
                    if_true s _ _
                    ∙ if_false
                        (ap (λ n. (k.table n).state =s sleeping && leb (k.table n).sleep_until now)
                            (sym z)
                          ∙ e)
                        _ _)
              | inr s ↦ sym (if_false s _ _)
            ] in
          rw (if_false e) (subst (λ p. SameProcess p (k.table j)) same refl)
    ]

wake_from-SameProcess :
    (r i : ℕ) (k : Kernel) (now j : ℕ)
    → SameProcess
        (if leb i j && ltb j (i + r) then roused now (k.table j) else k.table j)
        ((wake_from r i k now).table j)
unfolding wake_from
wake_from-SameProcess zero i k now j =
    let out : (leb i j && ltb j (i + 0)) ≡ false = ground arith in rw (if_false out) refl
wake_from-SameProcess (suc r) i k now j =
    let t = wake_slot k now i in
    let first = wake_slot-SameProcess k now i j in
    let u = wake_from r (i + 1) t now in
    let rest = wake_from-SameProcess r (i + 1) t now j in
    elim (Bool-cases (j == i)) [
      | inl s ↦
          let here : (leb i j && ltb j (i + suc r)) ≡ true = ground (arith, s) in
          let later : (leb (i + 1) j && ltb j (i + 1 + r)) ≡ false = ground (arith, s) in
          subst (λ p. SameProcess p (u.table j)) (sym (if_true here _ _))
            (SameProcess-trans (roused now (k.table j)) (t.table j) (u.table j)
              (subst (λ p. SameProcess p (t.table j)) (if_true s _ _) first)
              (subst (λ p. SameProcess p (u.table j)) (if_false later _ _) rest))
      | inr s ↦
          let kept = subst (λ p. SameProcess p (t.table j)) (if_false s _ _) first in
          elim (Bool-cases (leb i j && ltb j (i + suc r))) [
            | inl b ↦
                let later : (leb (i + 1) j && ltb j (i + 1 + r)) ≡ true = ground (arith, s, b) in
                subst (λ p. SameProcess p (u.table j)) (sym (if_true b _ _))
                  (SameProcess-trans (roused now (k.table j)) (roused now (t.table j)) (u.table j)
                    (roused-SameProcess now (k.table j) (t.table j) kept)
                    (subst (λ p. SameProcess p (u.table j)) (if_true later _ _) rest))
            | inr b ↦
                let later : (leb (i + 1) j && ltb j (i + 1 + r)) ≡ false = ground (arith, s, b) in
                subst (λ p. SameProcess p (u.table j)) (sym (if_false b _ _))
                  (SameProcess-trans (k.table j) (t.table j) (u.table j) kept
                    (subst (λ p. SameProcess p (u.table j)) (if_false later _ _) rest))
          ]
    ]

-- `wake_sleepers` makes exactly the sleeping processes ready whose deadline has passed; of all other
-- processes, and apart from that, it changes nothing but their links and waiting times.
pub wake_sleepers-SameProcess :
    (k : Kernel) (now j : ℕ)
    → j < process_max
    → SameProcess (roused now (k.table j)) ((wake_sleepers k now).table j)
unfolding wake_sleepers
wake_sleepers-SameProcess k now j h =
    let inside : (leb 0 j && ltb j (0 + process_max)) ≡ true = ground arith in
    subst (λ p. SameProcess p ((wake_sleepers k now).table j)) (if_true inside _ _)
      (wake_from-SameProcess process_max 0 k now j)
