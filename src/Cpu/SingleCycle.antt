-- ===== src/Cpu/SingleCycle.antt =====
-- kernel/cpu/single_cycle.c and single_cycle.h: one instruction per cycle. Memory is an array of
-- words, a function of the index. The division of two doubles in single_cycle_get_cpi is left out.
use my_operating_system_open.Prelude.{
  ℕ, zero, suc, Bool, true, false, not, ◌/◌, ◌&&◌, ◌==◌, if◌then◌else◌, ltb, leb, update, add32,
  add64,
}
use my_operating_system_open.Cpu.{opcode_of, rd_of, rs1_of, rs2_of, immediate_of, store}
pub mod Run
pub mod Isa

-- `SingleCycleCPU`
pub record SingleCycleCpu : Type 0 where
  pub pc : ℕ
  pub registers : ℕ → ℕ
  pub cycle_count : ℕ
  pub instruction_count : ℕ
  pub running : Bool

-- `single_cycle_init`
unfoldable pub single_cycle_init : SingleCycleCpu
single_cycle_init = record {
  pc = 0;
  registers = λ _. 0;
  cycle_count = 0;
  instruction_count = 0;
  running = true;
}

-- `single_cycle_reset`
unfoldable pub single_cycle_reset : SingleCycleCpu
single_cycle_reset = single_cycle_init

-- The word that a load or a store is about.
word_of : SingleCycleCpu → ℕ → ℕ
word_of cpu raw = add32 (cpu.registers (rs1_of raw)) (immediate_of raw) / 4

-- `result` after the switch over the opcodes
result_of : SingleCycleCpu → (ℕ → ℕ) → ℕ → ℕ → ℕ
result_of cpu memory mem_size raw =
    if opcode_of raw == 0x33
    then add32 (cpu.registers (rs1_of raw)) (cpu.registers (rs2_of raw))
    else if opcode_of raw == 0x13
    then add32 (cpu.registers (rs1_of raw)) (immediate_of raw)
    else if opcode_of raw == 0x03 && ltb (word_of cpu raw) mem_size
    then memory (word_of cpu raw)
    else 0

-- The memory after the switch over the opcodes
memory_after : SingleCycleCpu → (ℕ → ℕ) → ℕ → ℕ → ℕ → ℕ
memory_after cpu memory mem_size raw =
    if opcode_of raw == store && ltb (word_of cpu raw) mem_size
    then update memory (word_of cpu raw) (cpu.registers (rs2_of raw))
    else memory

-- The registers after the write back
write_back : SingleCycleCpu → ℕ → ℕ → ℕ → ℕ
write_back cpu raw result =
    if not (rd_of raw == 0) && not (opcode_of raw == store)
    then update cpu.registers (rd_of raw) result
    else cpu.registers

-- `single_cycle_execute_one`
unfoldable pub single_cycle_execute_one : SingleCycleCpu → (ℕ → ℕ) → ℕ → SingleCycleCpu × (ℕ → ℕ)
unfolding word_of result_of memory_after write_back
single_cycle_execute_one cpu memory mem_size =
    if not cpu.running
    then (cpu, memory)
    else if leb mem_size (cpu.pc / 4)
    then (record cpu { running = false }, memory)
    else let raw = memory (cpu.pc / 4) in
      (
        record {
          pc = add32 cpu.pc 4;
          registers = write_back cpu raw (result_of cpu memory mem_size raw);
          cycle_count = add64 cpu.cycle_count 1;
          instruction_count = add64 cpu.instruction_count 1;
          running = cpu.running;
        },
        memory_after cpu memory mem_size raw,
      )

-- `single_cycle_execute`, by recursion on the instructions left
unfoldable pub single_cycle_execute : SingleCycleCpu → (ℕ → ℕ) → ℕ → ℕ → SingleCycleCpu × (ℕ → ℕ)
single_cycle_execute cpu memory mem_size zero = (cpu, memory)
single_cycle_execute cpu memory mem_size (suc n) =
    let (cpu', memory') = single_cycle_execute_one cpu memory mem_size in
    let rest = single_cycle_execute cpu' memory' mem_size n in
    if cpu.running then rest else (cpu, memory)
