-- ===== src/Cpu/Pipeline.antt =====
-- kernel/cpu/pipeline.c and pipeline.h: five stages, of which the first (IF) never holds an
-- instruction between cycles and the flags `stalled` are never read, so both are left out. The
-- division of two doubles in pipeline_get_cpi is left out too.
use my_operating_system_open.Prelude.{
  ℕ, zero, suc, Bool, true, false, not, Option, none, some, ◌*◌, ◌/◌, ◌%◌, ◌^◌, ◌&&◌, ◌||◌, ◌==◌,
  if◌then◌else◌, ltb, leb, update, add32, add64,
}
use my_operating_system_open.Cpu.{opcode_of, rd_of, rs1_of, rs2_of, immediate_of, store}
pub mod Flow
pub mod Results
pub mod Execute

-- `Instruction`
pub record Instruction : Type 0 where
  pub opcode : ℕ
  pub rd : ℕ
  pub rs1 : ℕ
  pub rs2 : ℕ
  pub immediate : ℕ
  pub pc : ℕ
  pub valid : Bool

-- A stage without an instruction. The code leaves its other fields undefined and does not read them.
abbrev pub bubble : Instruction
bubble = record { opcode = 0; rd = 0; rs1 = 0; rs2 = 0; immediate = 0; pc = 0; valid = false }

-- `PipelineCPU`, with the stages ID, EX, MEM and WB.
pub record PipelineCpu : Type 0 where
  pub stage_id : Instruction
  pub stage_ex : Instruction
  pub stage_mem : Instruction
  pub stage_wb : Instruction
  pub pc : ℕ
  pub registers : ℕ → ℕ
  pub cycle_count : ℕ
  pub instruction_count : ℕ
  pub stall_count : ℕ
  pub running : Bool

-- `pipeline_init`
unfoldable pub pipeline_init : PipelineCpu
pipeline_init = record {
  stage_id = bubble;
  stage_ex = bubble;
  stage_mem = bubble;
  stage_wb = bubble;
  pc = 0;
  registers = λ _. 0;
  cycle_count = 0;
  instruction_count = 0;
  stall_count = 0;
  running = true;
}

-- `pipeline_reset`
unfoldable pub pipeline_reset : PipelineCpu
pipeline_reset = pipeline_init

-- `fetch_instruction`
unfoldable pub fetch_instruction : (ℕ → ℕ) → ℕ → ℕ → Instruction
fetch_instruction memory mem_size pc =
    if leb mem_size (pc / 4)
    then bubble
    else let raw = memory (pc / 4) in
      record {
        opcode = opcode_of raw;
        rd = rd_of raw;
        rs1 = rs1_of raw;
        rs2 = rs2_of raw;
        immediate = immediate_of raw;
        pc = pc;
        valid = true;
      }

-- `pipeline_detect_hazard`
unfoldable pub pipeline_detect_hazard : PipelineCpu → Bool
pipeline_detect_hazard cpu =
    cpu.stage_id.valid
    && cpu.stage_ex.valid
    && not (cpu.stage_ex.rd == 0)
    && not (cpu.stage_ex.opcode == store)
    && (cpu.stage_id.rs1 == cpu.stage_ex.rd || cpu.stage_id.rs2 == cpu.stage_ex.rd)

-- The registers after the WB stage.
write_back : PipelineCpu → ℕ → ℕ
write_back cpu =
    if cpu.stage_wb.valid && not (cpu.stage_wb.rd == 0) && not (cpu.stage_wb.opcode == store)
    then update cpu.registers cpu.stage_wb.rd cpu.stage_wb.immediate
    else cpu.registers

-- `if (valid) next_stages[...].instr = instr`, where the next stage was cleared.
advance : Instruction → Instruction
advance instr = if instr.valid then instr else bubble

-- Whether the stages ID to WB are all empty.
is_empty : PipelineCpu → Bool
is_empty cpu =
    not cpu.stage_id.valid
    && not cpu.stage_ex.valid
    && not cpu.stage_mem.valid
    && not cpu.stage_wb.valid

-- A cycle in which the instruction in ID waits for the one in EX.
stalled_cycle : PipelineCpu → ℕ → PipelineCpu
stalled_cycle cpu mem_size = record {
  stage_id = advance cpu.stage_id;
  stage_ex = bubble;
  stage_mem = advance cpu.stage_ex;
  stage_wb = advance cpu.stage_mem;
  pc = cpu.pc;
  registers = write_back cpu;
  cycle_count = add64 cpu.cycle_count 1;
  instruction_count = add64 cpu.instruction_count (if cpu.stage_wb.valid then 1 else 0);
  stall_count = add64 cpu.stall_count (if cpu.stage_id.valid then 1 else 0);
  running = if leb mem_size (cpu.pc / 4) && is_empty cpu then false else cpu.running;
}

-- A cycle in which every instruction moves on, and the next one is fetched if there is one.
moving_cycle : PipelineCpu → (ℕ → ℕ) → ℕ → PipelineCpu
moving_cycle cpu memory mem_size =
    let fetched = fetch_instruction memory mem_size cpu.pc in
    record {
      stage_id = advance fetched;
      stage_ex = advance cpu.stage_id;
      stage_mem = advance cpu.stage_ex;
      stage_wb = advance cpu.stage_mem;
      pc = if fetched.valid then add32 cpu.pc 4 else cpu.pc;
      registers = write_back cpu;
      cycle_count = add64 cpu.cycle_count 1;
      instruction_count = add64 cpu.instruction_count (if cpu.stage_wb.valid then 1 else 0);
      stall_count = cpu.stall_count;
      running = if leb mem_size (cpu.pc / 4) && is_empty cpu then false else cpu.running;
    }

-- `pipeline_cycle`. `fetch_instruction` tests `pc / 4 >= mem_size` like the caller, so both branches
-- of the IF stage are in `moving_cycle`.
unfoldable pub pipeline_cycle : PipelineCpu → (ℕ → ℕ) → ℕ → PipelineCpu
unfolding write_back advance is_empty stalled_cycle moving_cycle
pipeline_cycle cpu memory mem_size =
    if not cpu.running
    then cpu
    else if pipeline_detect_hazard cpu
    then stalled_cycle cpu mem_size
    else moving_cycle cpu memory mem_size

-- The loop of `pipeline_execute`, on fuel.
execute_loop : ℕ → PipelineCpu → (ℕ → ℕ) → ℕ → ℕ → Option PipelineCpu
execute_loop zero cpu memory mem_size target = none
execute_loop (suc f) cpu memory mem_size target =
    let cpu' = pipeline_cycle cpu memory mem_size in
    let rest = execute_loop f cpu' memory mem_size target in
    if cpu.running && ltb cpu.instruction_count target
    then if ltb (target * 10 % 2 ^ 64) cpu'.cycle_count then some cpu' else rest
    else some cpu

-- `pipeline_execute`; the loop ends when the cycles exceed ten times the target.
unfoldable pub pipeline_execute : ℕ → PipelineCpu → (ℕ → ℕ) → ℕ → ℕ → Option PipelineCpu
unfolding execute_loop
pipeline_execute fuel cpu memory mem_size n =
    execute_loop fuel cpu memory mem_size (add64 cpu.instruction_count n)

-- The calls of `pipeline_cycle` one after the other.
unfoldable pub cycles : ℕ → PipelineCpu → (ℕ → ℕ) → ℕ → PipelineCpu
cycles zero cpu memory mem_size = cpu
cycles (suc n) cpu memory mem_size = pipeline_cycle (cycles n cpu memory mem_size) memory mem_size
