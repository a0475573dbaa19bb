-- ===== src/Cpu/Pipeline/Flow.antt =====
-- How instructions flow through the pipeline of kernel/cpu/pipeline.c.
use my_operating_system_open.Prelude.{
  ℕ, zero, suc, refl, inl, inr, Bool, true, false, not, arith, ◌+◌, ◌*◌, ◌/◌, ◌^◌, ◌≤◌, ◌<◌, ◌≡◌,
  ◌⊎◌, ◌||◌, if◌then◌else◌, ltb, Bool-cases, if_true, if_false,
}
use my_operating_system_open.Cpu.Pipeline.{
  Instruction, PipelineCpu, pipeline_init, pipeline_reset, pipeline_detect_hazard,
  fetch_instruction, pipeline_cycle, cycles, write_back, advance, is_empty, stalled_cycle,
  moving_cycle,
}

-- 1 for a stage with an instruction.
abbrev pub one : Bool → ℕ
one b = if b then 1 else 0

-- How many instructions are in flight.
abbrev pub in_flight : PipelineCpu → ℕ
in_flight cpu =
    one cpu.stage_id.valid
    + one cpu.stage_ex.valid
    + one cpu.stage_mem.valid
    + one cpu.stage_wb.valid

-- How many instructions were fetched and completed or are in flight.
abbrev pub entered : PipelineCpu → ℕ
entered cpu = cpu.instruction_count + in_flight cpu

-- How many cycles without a stall empty the stages.
abbrev pub rank : PipelineCpu → ℕ
rank cpu =
    if cpu.stage_id.valid
    then 4
    else if cpu.stage_ex.valid
    then 3
    else if cpu.stage_mem.valid
    then 2
    else one cpu.stage_wb.valid

-- A pipeline that still runs, `n` cycles after its reset.
pub record Flows (cpu : PipelineCpu) (mem_size n : ℕ) : Type 0 where
  pub fetched : cpu.pc ≡ 4 * entered cpu
  pub in_program : entered cpu ≤ mem_size
  pub stalls : cpu.stall_count + one cpu.stage_id.valid + one cpu.stage_ex.valid ≤ entered cpu
  pub cycles : cpu.cycle_count ≡ n
  pub filling : entered cpu < mem_size → n ≤ entered cpu + cpu.stall_count
  pub draining : n + rank cpu ≤ entered cpu + cpu.stall_count + 4
  pub zero_register : cpu.registers 0 ≡ 0
  pub running : cpu.running ≡ true

-- A pipeline that has completed every instruction of its program.
pub record Completed (cpu : PipelineCpu) (mem_size : ℕ) : Type 0 where
  pub instructions : cpu.instruction_count ≡ mem_size
  pub stalls : cpu.stall_count ≤ mem_size
  pub cycles : cpu.cycle_count ≤ cpu.instruction_count + cpu.stall_count + 5
  pub empty : in_flight cpu ≡ 0
  pub zero_register : cpu.registers 0 ≡ 0
  pub stopped : cpu.running ≡ false

advance-valid : (i : Instruction) → (advance i).valid ≡ i.valid
unfolding advance
advance-valid i = ground arith

write_back-zero : (cpu : PipelineCpu) → cpu.registers 0 ≡ 0 → write_back cpu 0 ≡ 0
unfolding write_back
write_back-zero cpu h = ground (arith, h)

hazard-valid :
    (cpu : PipelineCpu)
    → pipeline_detect_hazard cpu ≡ true
    → (cpu.stage_id.valid ≡ true) × (cpu.stage_ex.valid ≡ true)
unfolding pipeline_detect_hazard
hazard-valid cpu h = ground (arith, h)

-- A stall keeps the flow.
stalled-Flows :
    (cpu : PipelineCpu) (mem_size n : ℕ)
    → mem_size < 2 ^ 30
    → Flows cpu mem_size n
    → cpu.stage_id.valid ≡ true
    → cpu.stage_ex.valid ≡ true
    → Flows (stalled_cycle cpu mem_size) mem_size (suc n)
unfolding stalled_cycle is_empty
stalled-Flows cpu mem_size n hm w d x =
    let i = advance-valid cpu.stage_id in
    let e = advance-valid cpu.stage_ex in
    let m = advance-valid cpu.stage_mem in
    let fetched = w.fetched in
    let in_program = w.in_program in
    let stalls = w.stalls in
    let filling = w.filling in
    let draining = w.draining in
    record {
      fetched = ground arith;
      in_program = ground arith;
      stalls = ground arith;
      cycles = ground (arith, w.cycles);
      filling = ground arith;
      draining = ground arith;
      zero_register = write_back-zero cpu w.zero_register;
      running = ground (arith, w.running);
    }

fetch-valid :
    (memory : ℕ → ℕ) (mem_size pc : ℕ)
    → (fetch_instruction memory mem_size pc).valid ≡ ltb (pc / 4) mem_size
unfolding fetch_instruction
fetch-valid memory mem_size pc = ground arith

-- While there is something to fetch or to complete, a cycle without a stall keeps the flow.
moving-Flows :
    (cpu : PipelineCpu) (memory : ℕ → ℕ) (mem_size n : ℕ)
    → mem_size < 2 ^ 30
    → Flows cpu mem_size n
    → (ltb (cpu.pc / 4) mem_size || not (is_empty cpu)) ≡ true
    → Flows (moving_cycle cpu memory mem_size) mem_size (suc n)
unfolding moving_cycle is_empty
moving-Flows cpu memory mem_size n hm w more =
    let f = advance-valid (fetch_instruction memory mem_size cpu.pc) in
    let g = fetch-valid memory mem_size cpu.pc in
    let i = advance-valid cpu.stage_id in
    let e = advance-valid cpu.stage_ex in
    let m = advance-valid cpu.stage_mem in
    let fetched = w.fetched in
    let in_program = w.in_program in
    let stalls = w.stalls in
    let filling = w.filling in
    let draining = w.draining in
    record {
      fetched = ground arith;
      in_program = ground arith;
      stalls = ground arith;
      cycles = ground (arith, w.cycles);
      filling = ground arith;
      draining = ground arith;
      zero_register = write_back-zero cpu w.zero_register;
      running = ground (arith, w.running);
    }

-- With nothing left, the pipeline stops.
ending-Completed :
    (cpu : PipelineCpu) (memory : ℕ → ℕ) (mem_size n : ℕ)
    → mem_size < 2 ^ 30
    → Flows cpu mem_size n
    → (ltb (cpu.pc / 4) mem_size || not (is_empty cpu)) ≡ false
    → Completed (moving_cycle cpu memory mem_size) mem_size
unfolding moving_cycle is_empty
ending-Completed cpu memory mem_size n hm w more =
    let f = advance-valid (fetch_instruction memory mem_size cpu.pc) in
    let g = fetch-valid memory mem_size cpu.pc in
    let i = advance-valid cpu.stage_id in
    let e = advance-valid cpu.stage_ex in
    let m = advance-valid cpu.stage_mem in
    let fetched = w.fetched in
    let in_program = w.in_program in
    let stalls = w.stalls in
    let draining = w.draining in
    let cycles = w.cycles in
    record {
      instructions = ground arith;
      stalls = ground arith;
      cycles = ground arith;
      empty = ground arith;
      zero_register = write_back-zero cpu w.zero_register;
      stopped = ground arith;
    }

-- One cycle of a running pipeline.
pub pipeline_cycle-Flows :
    (cpu : PipelineCpu) (memory : ℕ → ℕ) (mem_size n : ℕ)
    → mem_size < 2 ^ 30
    → Flows cpu mem_size n
    → Flows (pipeline_cycle cpu memory mem_size) mem_size (suc n)
      ⊎ Completed (pipeline_cycle cpu memory mem_size) mem_size
unfolding pipeline_cycle
pipeline_cycle-Flows cpu memory mem_size n hm w =
    let go : (not cpu.running) ≡ false = rw w.running refl in
    rw (if_false go) (elim (Bool-cases (pipeline_detect_hazard cpu)) [
      | inl e ↦
          let (d, x) = hazard-valid cpu e in
          rw (if_true e) (inl (stalled-Flows cpu mem_size n hm w d x))
      | inr e ↦
          rw (if_false e) (elim (Bool-cases (ltb (cpu.pc / 4) mem_size || not (is_empty cpu))) [
            | inl more ↦ inl (moving-Flows cpu memory mem_size n hm w more)
            | inr done ↦ inr (ending-Completed cpu memory mem_size n hm w done)
          ])
    ])

-- A cycle completes at most one instruction.
pub pipeline_cycle-completes :
    (cpu : PipelineCpu) (memory : ℕ → ℕ) (mem_size : ℕ)
    → (pipeline_cycle cpu memory mem_size).instruction_count ≤ suc cpu.instruction_count
unfolding pipeline_cycle stalled_cycle moving_cycle
pipeline_cycle-completes cpu memory mem_size = ground arith

pub stopped-stays :
    (cpu : PipelineCpu) (memory : ℕ → ℕ) (mem_size : ℕ)
    → cpu.running ≡ false
    → pipeline_cycle cpu memory mem_size ≡ cpu
unfolding pipeline_cycle
stopped-stays cpu memory mem_size h =
    let off : (not cpu.running) ≡ true = rw h refl in if_true off _ _

pub start : (mem_size : ℕ) → Flows pipeline_reset mem_size 0
unfolding pipeline_reset pipeline_init
start mem_size = record {
  fetched = refl;
  in_program = omega arith;
  stalls = omega arith;
  cycles = refl;
  filling = λ _. omega arith;
  draining = omega arith;
  zero_register = refl;
  running = refl;
}

-- Any number of cycles after the reset.
pub cycles-Flows :
    (n : ℕ) (memory : ℕ → ℕ) (mem_size : ℕ)
    → mem_size < 2 ^ 30
    → Flows (cycles n pipeline_reset memory mem_size) mem_size n
      ⊎ Completed (cycles n pipeline_reset memory mem_size) mem_size
unfolding cycles
cycles-Flows zero memory mem_size hm = inl (start mem_size)
cycles-Flows (suc n) memory mem_size hm = elim (cycles-Flows n memory mem_size hm) [
  | inl w ↦ pipeline_cycle-Flows _ memory mem_size n hm w
  | inr c ↦
      inr (rw (stopped-stays (cycles n pipeline_reset memory mem_size) memory mem_size c.stopped) c)
]

-- On a memory of fewer than 2^30 words, a reset pipeline has stopped by itself after 2 * mem_size + 5
-- cycles at the latest, with `mem_size` instructions completed, at most `mem_size` stalls, and register 0 still 0.
pub cycles-Completed :
    (n : ℕ) (memory : ℕ → ℕ) (mem_size : ℕ)
    → mem_size < 2 ^ 30
    → 2 * mem_size + 5 ≤ n
    → Completed (cycles n pipeline_reset memory mem_size) mem_size
cycles-Completed n memory mem_size hm hn = elim (cycles-Flows n memory mem_size hm) [
  | inl w ↦ absurd (omega (arith, w.draining, w.stalls, w.in_program))
  | inr c ↦ c
]
