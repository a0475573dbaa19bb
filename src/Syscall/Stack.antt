-- ===== src/Syscall/Stack.antt =====
-- The kernel stack that `sys_fork` of kernel/syscall.c builds for a child.
use my_operating_system_open.Prelude.{
  ℕ, zero, suc, refl, ap, List, [], arith, ◌+◌, ◌-◌, ◌*◌, ◌/◌, ◌^◌, ◌≤◌, ◌<◌, ◌≡◌, ◌∙◌, ◌∷◌, length,
  update, update_self, update_ne, add32, sub32,
}
use my_operating_system_open.Process.Table.{Process, ustack_size}
use my_operating_system_open.Process.Lifecycle.{push_words}
use my_operating_system_open.Syscall.{
  Regs, frame_words, child_regs, switch_frame, store_words, child_stacks, relocate, copy_words,
}

-- The `n` words from address `a` on
abbrev pub read_words : (ℕ → ℕ) → ℕ → ℕ → List ℕ
read_words memory a zero = []
read_words memory a (suc n) = memory a ∷ read_words memory (a + 4) n

-- Words that agree are read alike.
read_words_same :
    (m m' : ℕ → ℕ) (n a : ℕ) → ((x : ℕ) → a ≤ x → m' x ≡ m x) → read_words m' a n ≡ read_words m a n
read_words_same m m' zero a h = refl
read_words_same m m' (suc n) a h =
    rw (h a (omega arith), read_words_same m m' n (a + 4) (λ x l. h x (omega arith))) refl

-- One word is stored, or pushed.
store_step :
    (m : ℕ → ℕ) (a v : ℕ) (vs : List ℕ)
    → a + 4 < 2 ^ 32
    → store_words m a (v ∷ vs) ≡ store_words (update m a v) (a + 4) vs
unfolding store_words
store_step m a v vs h =
    let e : add32 a 4 ≡ a + 4 = omega arith in ap (λ z. store_words (update m a v) z vs) e

push_step :
    (m : ℕ → ℕ) (sp v : ℕ) (vs : List ℕ)
    → 4 ≤ sp
    → sp < 2 ^ 32
    → push_words m sp (v ∷ vs) ≡ push_words (update m (sp - 4) v) (sp - 4) vs
unfolding push_words
push_step m sp v vs h small =
    let e : sub32 sp 4 ≡ sp - 4 = omega arith in ap (λ z. push_words (update m z v) z vs) e

-- Storing changes nothing below, and is read back.
store_words_below :
    (vs : List ℕ) (m : ℕ → ℕ) (a x : ℕ)
    → a + 4 * length vs < 2 ^ 32
    → x < a
    → store_words m a vs x ≡ m x
unfolding store_words
store_words_below [] m a x h l = refl
store_words_below (v ∷ vs) m a x h l =
    rw (store_step m a v vs (omega arith))
      (store_words_below vs (update m a v) (a + 4) x (omega arith) (omega arith))
    ∙ update_ne m a v x (λ z. absurd (omega arith))

read_words-store_words :
    (vs : List ℕ) (m : ℕ → ℕ) (a : ℕ)
    → a + 4 * length vs < 2 ^ 32
    → read_words (store_words m a vs) a (length vs) ≡ vs
unfolding store_words
read_words-store_words [] m a h = refl
read_words-store_words (v ∷ vs) m a h =
    ap (λ z. read_words z a (length (v ∷ vs))) (store_step m a v vs (omega arith))
    ∙ rw
        (
          store_words_below vs (update m a v) (a + 4) a (omega arith) (omega arith),
          update_self m a v,
          read_words-store_words vs (update m a v) (a + 4) (omega arith),
        )
        refl

-- Pushing: where the stack pointer ends, and what it leaves above.
push_words_down :
    (vs : List ℕ) (m : ℕ → ℕ) (sp : ℕ)
    → 4 * length vs ≤ sp
    → sp < 2 ^ 32
    → (push_words m sp vs).1 + 4 * length vs ≡ sp
unfolding push_words
push_words_down [] m sp h small = omega arith
push_words_down (v ∷ vs) m sp h small =
    rw (push_step m sp v vs (omega arith) small)
      (omega (arith, push_words_down vs (update m (sp - 4) v) (sp - 4) (omega arith) (omega arith)))

push_words_above :
    (vs : List ℕ) (m : ℕ → ℕ) (sp x : ℕ)
    → 4 * length vs ≤ sp
    → sp < 2 ^ 32
    → sp ≤ x
    → (push_words m sp vs).0 x ≡ m x
unfolding push_words
push_words_above [] m sp x h small l = refl
push_words_above (v ∷ vs) m sp x h small l =
    rw (push_step m sp v vs (omega arith) small) (
      push_words_above vs (update m (sp - 4) v) (sp - 4) x (omega arith) (omega arith)
        (omega arith))
    ∙ update_ne m (sp - 4) v x (λ z. absurd (omega arith))

-- The words on the stack, the last one that was pushed first, before those that were there
abbrev onto : List ℕ → List ℕ → List ℕ
onto [] ws = ws
onto (v ∷ vs) ws = onto vs (v ∷ ws)

read_words-push_words :
    (vs : List ℕ) (m : ℕ → ℕ) (sp n : ℕ)
    → 4 * length vs ≤ sp
    → sp < 2 ^ 32
    → read_words (push_words m sp vs).0 (push_words m sp vs).1 (length vs + n)
      ≡ onto vs (read_words m sp n)
unfolding push_words
read_words-push_words [] m sp n h small = let e : 0 + n ≡ n = omega arith in rw e refl
read_words-push_words (v ∷ vs) m sp n h small =
    let q : suc (length vs) + n ≡ length vs + suc n = omega arith in
    let back : sp - 4 + 4 ≡ sp = omega arith in
    rw (push_step m sp v vs (omega arith) small, q)
      (read_words-push_words vs (update m (sp - 4) v) (sp - 4) (suc n) (omega arith) (omega arith)
        ∙ ap (onto vs) (
            rw
              (
                back,
                update_self m (sp - 4) v,
                read_words_same m (update m (sp - 4) v) n sp
                    (λ x l. update_ne m (sp - 4) v x (λ z. absurd (omega arith))),
              )
              refl))

-- The child's kernel stack: the words that `context_switch` takes, with the address of `fork_child_return`
-- to return to, and above them the register frame of the child.
pub child_stacks-read_words :
    (stub : ℕ) (m : ℕ → ℕ) (parent child : Process) (r : Regs)
    → 92 ≤ child.kstack_top
    → child.kstack_top < 2 ^ 32
    → let lo = parent.ustack in
      let (memory, esp) = child_stacks stub m parent child r in
      read_words memory esp 23
      ≡ 0
        ∷ 0
        ∷ 0
        ∷ 0
        ∷ 2
        ∷ stub
        ∷ frame_words (child_regs r lo (add32 lo ustack_size) (sub32 child.ustack lo))
unfolding child_stacks
child_stacks-read_words stub m parent child r low small =
    let lo = parent.ustack in
    let hi = add32 lo ustack_size in
    let delta = sub32 child.ustack lo in
    let moved = relocate 64 (copy_words (ustack_size / 4) m child.ustack lo) lo hi delta r.ebp in
    let words = frame_words (child_regs r lo hi delta) in
    let sp : sub32 child.kstack_top 68 ≡ child.kstack_top - 68 = omega arith in
    rw sp (
      read_words-push_words (switch_frame stub) (store_words moved (child.kstack_top - 68) words)
        (child.kstack_top - 68) 17 (omega arith) (omega arith)
      ∙ ap (onto (switch_frame stub))
          (read_words-store_words words moved (child.kstack_top - 68) (omega arith)))
