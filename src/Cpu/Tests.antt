-- ===== src/Cpu/Tests.antt =====
-- Runs of the simulators of kernel/cpu/ on a program of three words, and their theorems on it.
use my_operating_system_open.Prelude.{ℕ, refl, true, arith, ◌≡◌, ◌==◌, if◌then◌else◌}
use my_operating_system_open.Cpu.SingleCycle.{
  single_cycle_init, single_cycle_reset, single_cycle_execute_one, single_cycle_execute,
}
use my_operating_system_open.Cpu.SingleCycle.Run.{Executed}
use my_operating_system_open.Cpu.SingleCycle.Isa.{
  program_run, state_of, single_cycle_execute-program_run,
}
use my_operating_system_open.Cpu.Pipeline.{
  pipeline_init, pipeline_detect_hazard, fetch_instruction, pipeline_cycle, pipeline_reset,
  pipeline_execute, cycles,
}
use my_operating_system_open.Cpu.Pipeline.Flow.{Completed}
use my_operating_system_open.Cpu.Pipeline.Results.{results, cycles-results}
use my_operating_system_open.Cpu.Pipeline.Execute.{Ran, pipeline_execute-Ran}

-- addi x1, x0, 5; add x2, x1, x1; sw x2, 0(x1), of which the second waits for the first.
abbrev program : ℕ → ℕ
program i = if i == 0 then 0x00500093 else if i == 1 then 0x00108133 else 0x00202023

single_cycle_execute-sum : (single_cycle_execute single_cycle_reset program 3 2).0.registers 2 ≡ 10
unfolding single_cycle_execute single_cycle_execute_one single_cycle_reset single_cycle_init
single_cycle_execute-sum = refl

pipeline_execute-stalls : (cycles 11 pipeline_reset program 3).stall_count ≡ 2
unfolding cycles pipeline_cycle pipeline_reset pipeline_init pipeline_detect_hazard
    fetch_instruction
pipeline_execute-stalls = refl

single_cycle_execute-program_run_example :
    let out = single_cycle_execute single_cycle_reset program 3 2 in
    Executed out.0 2 true
    × (state_of out ≡ program_run 2 0 3 (record { registers = λ _. 0; memory = program }))
single_cycle_execute-program_run_example =
    single_cycle_execute-program_run 2 program 3 (omega arith)

cycles-results_example :
    let cpu = cycles 11 pipeline_reset program 3 in
    Completed cpu 3 × ((r : ℕ) → cpu.registers r ≡ results program 3 r)
cycles-results_example = cycles-results 11 program 3 (omega arith) (omega arith)

pipeline_execute-Ran_example : Ran (pipeline_execute 12 pipeline_reset program 3 2) program 3 2
pipeline_execute-Ran_example = pipeline_execute-Ran program 3 2 (omega arith) (omega arith)
