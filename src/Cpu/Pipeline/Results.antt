-- ===== src/Cpu/Pipeline/Results.antt =====
-- What the pipeline of kernel/cpu/pipeline.c writes into the registers.
use my_operating_system_open.Prelude.{
  ℕ, zero, suc, refl, sym, ap, inl, inr, true, false, not, arith, ◌+◌, ◌*◌, ◌/◌, ◌%◌, ◌^◌, ◌≤◌, ◌<◌,
  ◌≡◌, ◌∙◌, ◌&&◌, ◌==◌, if◌then◌else◌, leb, Bool-cases, if_true, if_false, add64,
}
use my_operating_system_open.Cpu.Pipeline.{
  Instruction, PipelineCpu, pipeline_init, pipeline_reset, pipeline_detect_hazard,
  fetch_instruction, pipeline_cycle, cycles, write_back, advance, stalled_cycle, moving_cycle,
}
use my_operating_system_open.Cpu.Pipeline.Flow.{
  one, entered, Flows, Completed, stopped-stays, cycles-Flows, cycles-Completed,
}

-- The registers once the instructions in the first `k` words are completed: each register but 0 has the constant, the
-- upper 12 bits, of the last of them that names it as its destination and is no store, whose opcode is 35.
abbrev pub results : (ℕ → ℕ) → ℕ → ℕ → ℕ
results memory zero r = 0
results memory (suc k) r =
    let raw = memory k in
    if r == raw / 128 % 32 && not (r == 0) && not (raw % 128 == 35)
    then raw / 1048576
    else results memory k r

-- An instruction that was fetched from a word, as far as it is written back
pub record IsWord (i : Instruction) (raw : ℕ) : Type 0 where
  opcode : i.opcode ≡ raw % 128
  rd : i.rd ≡ raw / 128 % 32
  immediate : i.immediate ≡ raw / 1048576

-- The stages hold the instructions behind those that are completed, in the order of the program.
pub record Contents (cpu : PipelineCpu) (memory : ℕ → ℕ) : Type 0 where
  pub registers : (r : ℕ) → cpu.registers r ≡ results memory cpu.instruction_count r
  pub wb : cpu.stage_wb.valid ≡ true → IsWord cpu.stage_wb (memory cpu.instruction_count)
  pub mem :
      cpu.stage_mem.valid ≡ true
      → IsWord cpu.stage_mem (memory (cpu.instruction_count + one cpu.stage_wb.valid))
  pub ex :
      cpu.stage_ex.valid ≡ true
      → IsWord cpu.stage_ex
          (memory (cpu.instruction_count + one cpu.stage_wb.valid + one cpu.stage_mem.valid))
  pub id :
      cpu.stage_id.valid ≡ true
      → IsWord cpu.stage_id (
          memory (
            cpu.instruction_count
            + one cpu.stage_wb.valid
            + one cpu.stage_mem.valid
            + one cpu.stage_ex.valid))

advance-same : (i : Instruction) → (advance i).valid ≡ i.valid
unfolding advance
advance-same i = ground arith

-- An instruction moves on to the next stage.
moved :
    (i : Instruction) (memory : ℕ → ℕ) (a b : ℕ)
    → a ≡ b
    → (i.valid ≡ true → IsWord i (memory a))
    → (advance i).valid ≡ true
    → IsWord (advance i) (memory b)
unfolding advance
moved i memory a b e w v = elim (Bool-cases i.valid) [
  | inl t ↦ rw (if_true t, ← e) (w t)
  | inr f ↦ absurd (ground (arith, v, f))
]

fetched-IsWord :
    (memory : ℕ → ℕ) (mem_size pc : ℕ)
    → (fetch_instruction memory mem_size pc).valid ≡ true
    → IsWord (fetch_instruction memory mem_size pc) (memory (pc / 4))
unfolding fetch_instruction
fetched-IsWord memory mem_size pc v = elim (Bool-cases (leb mem_size (pc / 4))) [
  | inl e ↦ absurd (ground (arith, v, e))
  | inr e ↦ rw (if_false e) (record { opcode = refl; rd = refl; immediate = refl })
]

write_back-results :
    (cpu : PipelineCpu) (memory : ℕ → ℕ)
    → Contents cpu memory
    → (r : ℕ) → write_back cpu r ≡ results memory (cpu.instruction_count + one cpu.stage_wb.valid) r
unfolding write_back
write_back-results cpu memory w r = elim (Bool-cases cpu.stage_wb.valid) [
  | inl v ↦
      let i = w.wb v in
      let next : cpu.instruction_count + 1 ≡ suc cpu.instruction_count = omega arith in
      rw (v, next) (ground (arith, i.opcode, i.rd, i.immediate, w.registers r))
  | inr v ↦
      let same : cpu.instruction_count + 0 ≡ cpu.instruction_count = omega arith in
      rw (v, same) (w.registers r)
]

stalled-Contents :
    (cpu : PipelineCpu) (memory : ℕ → ℕ) (mem_size : ℕ)
    → cpu.instruction_count < 2 ^ 32
    → Contents cpu memory
    → Contents (stalled_cycle cpu mem_size) memory
unfolding stalled_cycle
stalled-Contents cpu memory mem_size small w =
    let count : add64 cpu.instruction_count (one cpu.stage_wb.valid)
        ≡ cpu.instruction_count + one cpu.stage_wb.valid =
      ground arith in
    let m = advance-same cpu.stage_mem in
    let e = advance-same cpu.stage_ex in
    record {
      registers = λ r. rw (count) (write_back-results cpu memory w r);
      wb = moved cpu.stage_mem memory _ _ (sym count) w.mem;
      mem = moved cpu.stage_ex memory _ _ (rw (count, m) refl) w.ex;
      ex = λ v. absurd (cc (v));
      id = moved cpu.stage_id memory _ _ (rw (count, m, e) (omega arith)) w.id;
    }

moving-Contents :
    (cpu : PipelineCpu) (memory : ℕ → ℕ) (mem_size : ℕ)
    → cpu.instruction_count < 2 ^ 32
    → cpu.pc ≡ 4 * entered cpu
    → Contents cpu memory
    → Contents (moving_cycle cpu memory mem_size) memory
unfolding moving_cycle
moving-Contents cpu memory mem_size small at w =
    let count : add64 cpu.instruction_count (one cpu.stage_wb.valid)
        ≡ cpu.instruction_count + one cpu.stage_wb.valid =
      ground arith in
    let m = advance-same cpu.stage_mem in
    let e = advance-same cpu.stage_ex in
    let i = advance-same cpu.stage_id in
    record {
      registers = λ r. rw (count) (write_back-results cpu memory w r);
      wb = moved cpu.stage_mem memory _ _ (sym count) w.mem;
      mem = moved cpu.stage_ex memory _ _ (rw (count, m) refl) w.ex;
      ex = moved cpu.stage_id memory _ _ (rw (count, m, e) refl) w.id;
      id =
          moved (fetch_instruction memory mem_size cpu.pc) memory (cpu.pc / 4) _
            (rw (count, m, e, i) (omega (arith, at))) (fetched-IsWord memory mem_size cpu.pc);
    }

-- One cycle of a running pipeline.
pub pipeline_cycle-Contents :
    (cpu : PipelineCpu) (memory : ℕ → ℕ) (mem_size n : ℕ)
    → mem_size < 2 ^ 30
    → Flows cpu mem_size n
    → Contents cpu memory
    → Contents (pipeline_cycle cpu memory mem_size) memory
unfolding pipeline_cycle
pipeline_cycle-Contents cpu memory mem_size n hm f w =
    let go : (not cpu.running) ≡ false = rw f.running refl in
    let small : cpu.instruction_count < 2 ^ 32 = omega (arith, f.in_program) in
    rw (if_false go) (elim (Bool-cases (pipeline_detect_hazard cpu)) [
      | inl e ↦ rw (if_true e) (stalled-Contents cpu memory mem_size small w)
      | inr e ↦ rw (if_false e) (moving-Contents cpu memory mem_size small f.fetched w)
    ])

pub start-Contents : (memory : ℕ → ℕ) → Contents pipeline_reset memory
unfolding pipeline_reset pipeline_init
start-Contents memory = record {
  registers = λ r. refl;
  wb = λ v. absurd (cc (v));
  mem = λ v. absurd (cc (v));
  ex = λ v. absurd (cc (v));
  id = λ v. absurd (cc (v));
}

-- Any number of cycles after the reset.
cycles-Contents :
    (n : ℕ) (memory : ℕ → ℕ) (mem_size : ℕ)
    → mem_size < 2 ^ 30
    → Contents (cycles n pipeline_reset memory mem_size) memory
unfolding cycles
cycles-Contents zero memory mem_size hm = start-Contents memory
cycles-Contents (suc n) memory mem_size hm =
    let cpu = cycles n pipeline_reset memory mem_size in
    let w = cycles-Contents n memory mem_size hm in
    elim (cycles-Flows n memory mem_size hm) [
      | inl f ↦ pipeline_cycle-Contents cpu memory mem_size n hm f w
      | inr c ↦ rw (stopped-stays cpu memory mem_size c.stopped) w
    ]

-- On a memory of fewer than 2^30 words, a reset pipeline has stopped by itself after 2 * mem_size + 5
-- cycles at the latest, with `mem_size` instructions completed and at most `mem_size` stalls. Each register but 0, which
-- is 0, then has the constant of the last word of the memory that names it as its destination and is no store, and 0 if there is none.
pub cycles-results :
    (n : ℕ) (memory : ℕ → ℕ) (mem_size : ℕ)
    → mem_size < 2 ^ 30
    → 2 * mem_size + 5 ≤ n
    → let cpu = cycles n pipeline_reset memory mem_size in
      Completed cpu mem_size × ((r : ℕ) → cpu.registers r ≡ results memory mem_size r)
cycles-results n memory mem_size hm hn =
    let c = cycles-Completed n memory mem_size hm hn in
    let w = cycles-Contents n memory mem_size hm in
    (c, λ r. w.registers r ∙ ap (λ k. results memory k r) c.instructions)
