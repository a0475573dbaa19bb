-- ===== src/Cpu/SingleCycle/Run.antt =====
-- What a run of the single-cycle simulator of kernel/cpu/single_cycle.c comes to.
use my_operating_system_open.Prelude.{
  ℕ, zero, suc, refl, inl, inr, Bool, true, false, not, arith, ◌+◌, ◌*◌, ◌/◌, ◌^◌, ◌≤◌, ◌<◌, ◌≡◌,
  ◌∙◌, ltb, leb, Bool-cases, if_true, if_false,
}
use my_operating_system_open.Cpu.SingleCycle.{
  SingleCycleCpu, single_cycle_init, single_cycle_reset, single_cycle_execute_one,
  single_cycle_execute, write_back, memory_after, result_of,
}

-- After `c` instructions of a program of fewer than 2^30 words that holds `mem_size` of them.
pub record Executed (cpu : SingleCycleCpu) (c : ℕ) (still : Bool) : Type 0 where
  pub pc : cpu.pc ≡ 4 * c
  pub instructions : cpu.instruction_count ≡ c
  pub cycles : cpu.cycle_count ≡ c
  pub zero_register : cpu.registers 0 ≡ 0
  pub running : cpu.running ≡ still

write_back-zero :
    (cpu : SingleCycleCpu) (raw v : ℕ) → cpu.registers 0 ≡ 0 → write_back cpu raw v 0 ≡ 0
unfolding write_back
write_back-zero cpu raw v h = ground (arith, h)

memory_after-outside :
    (cpu : SingleCycleCpu) (memory : ℕ → ℕ) (mem_size raw j : ℕ)
    → mem_size ≤ j
    → memory_after cpu memory mem_size raw j ≡ memory j
unfolding memory_after
memory_after-outside cpu memory mem_size raw j h = ground arith

pub one-Executed :
    (cpu : SingleCycleCpu) (memory : ℕ → ℕ) (mem_size c : ℕ)
    → mem_size < 2 ^ 30
    → c < mem_size
    → Executed cpu c true
    → Executed (single_cycle_execute_one cpu memory mem_size).0 (suc c) true
unfolding single_cycle_execute_one
one-Executed cpu memory mem_size c hm hc e =
    let go : (not cpu.running) ≡ false = rw e.running refl in
    let inside : leb mem_size (cpu.pc / 4) ≡ false = ground (arith, e.pc) in
    rw (if_false go, if_false inside)
      (record {
        pc = omega (arith, e.pc);
        instructions = omega (arith, e.instructions);
        cycles = omega (arith, e.cycles);
        zero_register =
            write_back-zero cpu (memory (cpu.pc / 4))
              (result_of cpu memory mem_size (memory (cpu.pc / 4))) e.zero_register;
        running = e.running;
      })

-- The run of `n` more instructions that are all in the program.
run-within :
    (n : ℕ) (cpu : SingleCycleCpu) (memory : ℕ → ℕ) (mem_size c d : ℕ)
    → mem_size < 2 ^ 30
    → d ≡ c + n
    → d ≤ mem_size
    → Executed cpu c true
    → Executed (single_cycle_execute cpu memory mem_size n).0 d true
unfolding single_cycle_execute
run-within zero cpu memory mem_size c d hm hd hc e = let same : c ≡ d = omega arith in rw same at e
run-within (suc n) cpu memory mem_size c d hm hd hc e =
    let next = one-Executed cpu memory mem_size c hm (omega arith) e in
    rw (if_true e.running) (
      run-within n _ (single_cycle_execute_one cpu memory mem_size).1 mem_size (suc c) d hm
        (omega arith) hc next)

-- A processor that has stopped stays as it is.
pub stopped-stays :
    (n : ℕ) (cpu : SingleCycleCpu) (memory : ℕ → ℕ) (mem_size : ℕ)
    → cpu.running ≡ false
    → single_cycle_execute cpu memory mem_size n ≡ (cpu, memory)
unfolding single_cycle_execute
stopped-stays zero cpu memory mem_size h = refl
stopped-stays (suc n) cpu memory mem_size h = if_false h _ _

pub end-Executed :
    (cpu : SingleCycleCpu) (memory : ℕ → ℕ) (mem_size : ℕ)
    → Executed cpu mem_size true
    → single_cycle_execute_one cpu memory mem_size ≡ (record cpu { running = false }, memory)
unfolding single_cycle_execute_one
end-Executed cpu memory mem_size e =
    let go : (not cpu.running) ≡ false = rw e.running refl in
    let outside : leb mem_size (cpu.pc / 4) ≡ true = ground (arith, e.pc) in
    if_false go _ _ ∙ if_true outside _ _

-- The run that reaches the end of the program.
run-beyond :
    (n : ℕ) (cpu : SingleCycleCpu) (memory : ℕ → ℕ) (mem_size c : ℕ)
    → mem_size < 2 ^ 30
    → c ≤ mem_size
    → mem_size < c + n
    → Executed cpu c true
    → Executed (single_cycle_execute cpu memory mem_size n).0 mem_size false
unfolding single_cycle_execute
run-beyond zero cpu memory mem_size c hm hc h e = absurd (omega arith)
run-beyond (suc n) cpu memory mem_size c hm hc h e = elim (Bool-cases (ltb c mem_size)) [
  | inl lt ↦
      let next = one-Executed cpu memory mem_size c hm (ground (arith, lt)) e in
      rw (if_true e.running) (
        run-beyond n _ (single_cycle_execute_one cpu memory mem_size).1 mem_size (suc c) hm
          (ground (arith, lt)) (omega arith) next)
  | inr ge ↦
      let same : c ≡ mem_size = ground (arith, ge) in
      let ends = end-Executed cpu memory mem_size (rw same at e) in
      rw
        (
          if_true e.running,
          ends,
          stopped-stays n (record cpu { running = false }) memory mem_size refl,
        )
        (record {
          pc = omega (arith, e.pc, same);
          instructions = e.instructions ∙ same;
          cycles = e.cycles ∙ same;
          zero_register = e.zero_register;
          running = refl;
        })
]

pub started : Executed single_cycle_reset 0 true
unfolding single_cycle_reset single_cycle_init
started = record {
  pc = refl;
  instructions = refl;
  cycles = refl;
  zero_register = refl;
  running = refl;
}

-- The counters after a run of `n` instructions from a reset.
pub single_cycle_execute-counts :
    (n : ℕ) (memory : ℕ → ℕ) (mem_size : ℕ)
    → mem_size < 2 ^ 30
    → (n ≤ mem_size → Executed (single_cycle_execute single_cycle_reset memory mem_size n).0 n true)
      × (mem_size < n
          → Executed (single_cycle_execute single_cycle_reset memory mem_size n).0 mem_size false)
unfolding single_cycle_reset single_cycle_init
single_cycle_execute-counts n memory mem_size hm = (
  λ h. run-within n single_cycle_reset memory mem_size 0 n hm (omega arith) h started,
  λ h. run-beyond n single_cycle_reset memory mem_size 0 hm (omega arith) (omega arith) started,
)

-- Words outside the memory are never written.
pub single_cycle_execute-outside :
    (n : ℕ) (cpu : SingleCycleCpu) (memory : ℕ → ℕ) (mem_size j : ℕ)
    → mem_size ≤ j
    → (single_cycle_execute cpu memory mem_size n).1 j ≡ memory j
unfolding single_cycle_execute single_cycle_execute_one
single_cycle_execute-outside zero cpu memory mem_size j h = refl
single_cycle_execute-outside (suc n) cpu memory mem_size j h = ground (
  arith,
  single_cycle_execute-outside n (single_cycle_execute_one cpu memory mem_size).0
      (single_cycle_execute_one cpu memory mem_size).1 mem_size j h,
  memory_after-outside cpu memory mem_size (memory (cpu.pc / 4)) j h,
)
