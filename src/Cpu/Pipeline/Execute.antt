-- ===== src/Cpu/Pipeline/Execute.antt =====
-- The loop of `pipeline_execute` in kernel/cpu/pipeline.c: its safety check never cuts a run short.
use my_operating_system_open.Prelude.{
  ℕ, zero, suc, min, refl, ap, inl, inr, true, false, Option, some, arith, ◌+◌, ◌*◌, ◌%◌, ◌^◌, ◌≤◌,
  ◌<◌, ◌≡◌, ◌∙◌, ◌&&◌, ltb, ltb→lt, ltb→le, Bool-cases, if_true, if_false, add64,
}
use my_operating_system_open.Cpu.Pipeline.{
  PipelineCpu, pipeline_init, pipeline_reset, pipeline_cycle, execute_loop, pipeline_execute,
}
use my_operating_system_open.Cpu.Pipeline.Results.{
  results, Contents, pipeline_cycle-Contents, start-Contents,
}
use my_operating_system_open.Cpu.Pipeline.Flow.{
  Flows, start, pipeline_cycle-Flows, pipeline_cycle-completes,
}

-- The result of a run of `n` instructions.
pub record Ran (out : Option PipelineCpu) (memory : ℕ → ℕ) (mem_size n : ℕ) : Type 0 where
  pub cpu : PipelineCpu
  pub returned : out ≡ some cpu
  pub instructions : cpu.instruction_count ≡ min n mem_size
  pub in_time : cpu.cycle_count ≤ 10 * n
  pub registers : (r : ℕ) → cpu.registers r ≡ results memory (min n mem_size) r

-- A pipeline that has not completed `n` instructions yet is far below the limit of the safety check.
early :
    (cpu : PipelineCpu) (mem_size n k : ℕ)
    → Flows cpu mem_size k
    → cpu.instruction_count < n
    → k < 10 * n
early cpu mem_size n k w h = let stalls = w.stalls in let draining = w.draining in ground arith

stopped-returns :
    (f : ℕ) (cpu : PipelineCpu) (memory : ℕ → ℕ) (mem_size n : ℕ)
    → 0 < f
    → cpu.running ≡ false
    → execute_loop f cpu memory mem_size n ≡ some cpu
unfolding execute_loop
stopped-returns zero cpu memory mem_size n h off = absurd (omega arith)
stopped-returns (suc f) cpu memory mem_size n h off =
    let stop : (cpu.running && ltb cpu.instruction_count n) ≡ false = rw off refl in
    if_false stop _ _

loop-Ran :
    (f : ℕ) (cpu : PipelineCpu) (memory : ℕ → ℕ) (mem_size n k : ℕ)
    → mem_size < 2 ^ 30
    → n < 2 ^ 32
    → 2 * mem_size + 6 ≤ k + f
    → k ≤ 10 * n
    → cpu.instruction_count ≤ n
    → Flows cpu mem_size k
    → Contents cpu memory
    → Ran (execute_loop f cpu memory mem_size n) memory mem_size n
unfolding execute_loop
loop-Ran zero cpu memory mem_size n k hm hn hf hk hi w contents =
    absurd (omega (arith, w.draining, w.stalls, w.in_program))
loop-Ran (suc f) cpu memory mem_size n k hm hn hf hk hi w contents =
    elim (Bool-cases (ltb cpu.instruction_count n)) [
      | inl e ↦
          let more : (cpu.running && ltb cpu.instruction_count n) ≡ true = rw (w.running, e) refl in
          let soon = early cpu mem_size n k w (ltb→lt _ _ e) in
          let cpu' = pipeline_cycle cpu memory mem_size in
          let one_more = pipeline_cycle-completes cpu memory mem_size in
          let contents' = pipeline_cycle-Contents cpu memory mem_size k hm w contents in
          rw (if_true more) (elim (pipeline_cycle-Flows cpu memory mem_size k hm w) [
            | inl w' ↦
                let within : ltb (n * 10 % 2 ^ 64) cpu'.cycle_count ≡ false =
                  ground (arith, w'.cycles) in
                rw (if_false within) (
                  loop-Ran f cpu' memory mem_size n (suc k) hm hn (omega arith) (omega arith)
                    (ground (arith, e)) w' contents')
            | inr c ↦
                let within : ltb (n * 10 % 2 ^ 64) cpu'.cycle_count ≡ false =
                  ground (arith, c.cycles, c.stalls, c.instructions, one_more, e) in
                let all : cpu'.instruction_count ≡ min n mem_size =
                  ground (arith, c.instructions, one_more, e) in
                let left : 0 < f = omega (arith, w.draining, w.stalls, w.in_program) in
                rw (if_false within, stopped-returns f cpu' memory mem_size n left c.stopped)
                  (record {
                    cpu = cpu';
                    returned = refl;
                    instructions = all;
                    in_time = ground (arith, c.cycles, c.stalls, c.instructions, one_more, e);
                    registers = λ r. contents'.registers r ∙ ap (λ z. results memory z r) all;
                  })
          ])
      | inr e ↦
          let done : (cpu.running && ltb cpu.instruction_count n) ≡ false =
            rw (w.running, e) refl in
          let reached = ltb→le _ _ e in
          let all : cpu.instruction_count ≡ min n mem_size = omega (arith, w.in_program) in
          rw (if_false done) (record {
            cpu = cpu;
            returned = refl;
            instructions = all;
            in_time = omega (arith, w.cycles);
            registers = λ r. contents.registers r ∙ ap (λ z. results memory z r) all;
          })
    ]

-- After a reset, on a memory of fewer than 2^30 words and for `n` below 2^32, `pipeline_execute` with 2 * mem_size + 6 rounds
-- of its loop returns, with `n` instructions completed (`mem_size`, if there are no more) in at most `10 * n` cycles, so
-- that the safety check never cuts the run short. Each register but 0, which is 0, has the constant of the last of the
-- first that many words that names it as its destination and is no store, and 0 if there is none.
pub pipeline_execute-Ran :
    (memory : ℕ → ℕ) (mem_size n : ℕ)
    → mem_size < 2 ^ 30
    → n < 2 ^ 32
    → Ran (pipeline_execute (2 * mem_size + 6) pipeline_reset memory mem_size n) memory mem_size n
unfolding pipeline_execute pipeline_reset pipeline_init
pipeline_execute-Ran memory mem_size n hm hn =
    let target : add64 pipeline_reset.instruction_count n ≡ n = omega arith in
    rw target (
      loop-Ran (2 * mem_size + 6) pipeline_reset memory mem_size n 0 hm hn (omega arith)
        (omega arith) (omega arith) (start mem_size) (start-Contents memory))
