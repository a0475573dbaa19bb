-- ===== src/Cpu/SingleCycle/Isa.antt =====
-- What the single-cycle simulator of kernel/cpu/single_cycle.c computes, against a description of the instructions.
use mathlib.Core.Path.{fun_ext, ap₂}
use my_operating_system_open.Prelude.{
  ℕ, zero, suc, min, refl, ap, inl, inr, true, false, not, arith, ◌+◌, ◌/◌, ◌%◌, ◌^◌, ◌≤◌, ◌<◌, ◌≡◌,
  ◌∙◌, ◌&&◌, ◌==◌, if◌then◌else◌, ltb, leb, ltb→lt, Bool-cases, if_true, if_false,
}
use my_operating_system_open.Cpu.SingleCycle.{
  SingleCycleCpu, single_cycle_init, single_cycle_reset, single_cycle_execute_one,
  single_cycle_execute, write_back, memory_after, result_of, word_of,
}
use my_operating_system_open.Cpu.SingleCycle.Run.{
  Executed, one-Executed, end-Executed, stopped-stays, started, single_cycle_execute-counts,
}

-- The registers and the memory
pub record State : Type 0 where
  pub registers : ℕ → ℕ
  pub memory : ℕ → ℕ

-- What an instruction makes of register `r`: 51 is an addition of registers, 19 one of a constant, 3 a load of a
-- word in the memory; any other instruction but a store, which is 35, and a load from elsewhere put 0 into
-- the destination. Register 0 stays.
abbrev pub register_after : ℕ → State → ℕ → ℕ → ℕ
register_after mem_size s raw r =
    let a = s.registers (raw / 32768 % 32) in
    let b = s.registers (raw / 1048576 % 32) in
    let constant = raw / 1048576 in
    let word = (a + constant) % 2 ^ 32 / 4 in
    let value =
      if raw % 128 == 51
      then (a + b) % 2 ^ 32
      else if raw % 128 == 19
      then (a + constant) % 2 ^ 32
      else if raw % 128 == 3 && ltb word mem_size
      then s.memory word
      else 0 in
    if r == raw / 128 % 32 && not (r == 0) && not (raw % 128 == 35) then value else s.registers r

-- What an instruction makes of word `j` of the memory.
abbrev pub word_after : ℕ → State → ℕ → ℕ → ℕ
word_after mem_size s raw j =
    let word = (s.registers (raw / 32768 % 32) + raw / 1048576) % 2 ^ 32 / 4 in
    if raw % 128 == 35 && j == word && ltb word mem_size
    then s.registers (raw / 1048576 % 32)
    else s.memory j

-- At most `n` instructions, from the one in word `c` on, to the end of the memory
abbrev pub program_run : ℕ → ℕ → ℕ → State → State
program_run zero c mem_size s = s
program_run (suc n) c mem_size s =
    let t : State = record {
      registers = register_after mem_size s (s.memory c);
      memory = word_after mem_size s (s.memory c);
    } in
    let rest = program_run n (suc c) mem_size t in if ltb c mem_size then rest else s

-- What the simulator's variables say.
abbrev pub state_of : SingleCycleCpu × (ℕ → ℕ) → State
state_of (cpu, memory) = record { registers = cpu.registers; memory = memory }

abbrev the_state : (ℕ → ℕ) → (ℕ → ℕ) → State
the_state r m = record { registers = r; memory = m }

write_back-register_after :
    (cpu : SingleCycleCpu) (memory : ℕ → ℕ) (mem_size raw r : ℕ)
    → write_back cpu raw (result_of cpu memory mem_size raw) r
      ≡ register_after mem_size (state_of (cpu, memory)) raw r
unfolding write_back result_of word_of
write_back-register_after cpu memory mem_size raw r = ground arith

memory_after-word_after :
    (cpu : SingleCycleCpu) (memory : ℕ → ℕ) (mem_size raw j : ℕ)
    → memory_after cpu memory mem_size raw j ≡ word_after mem_size (state_of (cpu, memory)) raw j
unfolding memory_after word_of
memory_after-word_after cpu memory mem_size raw j = ground arith

one-state :
    (cpu : SingleCycleCpu) (memory : ℕ → ℕ) (mem_size c : ℕ)
    → mem_size < 2 ^ 30
    → c < mem_size
    → Executed cpu c true
    → state_of (single_cycle_execute_one cpu memory mem_size) ≡ (record {
      registers = register_after mem_size (state_of (cpu, memory)) (memory c);
      memory = word_after mem_size (state_of (cpu, memory)) (memory c);
    })
unfolding single_cycle_execute_one
one-state cpu memory mem_size c hm hc e =
    let go : (not cpu.running) ≡ false = rw e.running refl in
    let inside : leb mem_size (cpu.pc / 4) ≡ false = ground (arith, e.pc) in
    let here : cpu.pc / 4 ≡ c = omega (arith, e.pc) in
    rw (if_false go, if_false inside, here)
      (ap₂ (λ (r m : ℕ → ℕ). the_state r m)
        (fun_ext (write_back-register_after cpu memory mem_size (memory c)))
        (fun_ext (memory_after-word_after cpu memory mem_size (memory c))))

-- The run of at most `n` more instructions.
run-state :
    (n : ℕ) (cpu : SingleCycleCpu) (memory : ℕ → ℕ) (mem_size c : ℕ)
    → mem_size < 2 ^ 30
    → c ≤ mem_size
    → Executed cpu c true
    → state_of (single_cycle_execute cpu memory mem_size n)
      ≡ program_run n c mem_size (state_of (cpu, memory))
unfolding single_cycle_execute
run-state zero cpu memory mem_size c hm hc e = refl
run-state (suc n) cpu memory mem_size c hm hc e = elim (Bool-cases (ltb c mem_size)) [
  | inl lt ↦
      let inside : c < mem_size = ltb→lt _ _ lt in
      let next = one-Executed cpu memory mem_size c hm inside e in
      let (cpu', memory') = single_cycle_execute_one cpu memory mem_size in
      rw (if_true e.running, if_true lt)
        (run-state n cpu' memory' mem_size (suc c) hm (omega arith) next
          ∙ ap (program_run n (suc c) mem_size) (one-state cpu memory mem_size c hm inside e))
  | inr ge ↦
      let same : c ≡ mem_size = ground (arith, ge) in
      let ends = end-Executed cpu memory mem_size (rw same at e) in
      rw
        (
          if_true e.running,
          if_false ge,
          ends,
          stopped-stays n (record cpu { running = false }) memory mem_size refl,
        )
        refl
]

-- A run of `n` instructions from a reset, on a memory of fewer than 2^30 words: it executes the first `n` instructions,
-- the one in word 0 first, in one cycle each, or stops by itself after all `mem_size` of them. The registers, which are
-- 0 at first, and the memory are what these instructions make of them.
pub single_cycle_execute-program_run :
    (n : ℕ) (memory : ℕ → ℕ) (mem_size : ℕ)
    → mem_size < 2 ^ 30
    → let out = single_cycle_execute single_cycle_reset memory mem_size n in
      Executed out.0 (min n mem_size) (leb n mem_size)
      × (state_of out ≡ program_run n 0 mem_size (record { registers = λ _. 0; memory = memory }))
unfolding single_cycle_reset single_cycle_init
single_cycle_execute-program_run n memory mem_size hm = (
  elim (Bool-cases (leb n mem_size)) [
    | inl e ↦
        let few : min n mem_size ≡ n = ground (arith, e) in
        rw (e, few) ((single_cycle_execute-counts n memory mem_size hm).0 (ground (arith, e)))
    | inr e ↦
        let all : min n mem_size ≡ mem_size = ground (arith, e) in
        rw (e, all) ((single_cycle_execute-counts n memory mem_size hm).1 (ground (arith, e)))
  ],
  run-state n single_cycle_reset memory mem_size 0 hm (omega arith) started,
)
