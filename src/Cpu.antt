-- ===== src/Cpu.antt =====
-- The processor simulators of kernel/cpu/: the instruction fields that both decode.
pub mod SingleCycle
pub mod Pipeline
mod Tests
use my_operating_system_open.Prelude.{ℕ, ◌/◌, ◌%◌, ◌^◌}

-- `raw & 0x7F`, `(raw >> 7) & 0x1F`, `(raw >> 15) & 0x1F`, `(raw >> 20) & 0x1F` and `raw >> 20`
abbrev pub opcode_of : ℕ → ℕ
opcode_of raw = raw % 2 ^ 7

abbrev pub rd_of : ℕ → ℕ
rd_of raw = raw / 2 ^ 7 % 2 ^ 5

abbrev pub rs1_of : ℕ → ℕ
rs1_of raw = raw / 2 ^ 15 % 2 ^ 5

abbrev pub rs2_of : ℕ → ℕ
rs2_of raw = raw / 2 ^ 20 % 2 ^ 5

abbrev pub immediate_of : ℕ → ℕ
immediate_of raw = raw / 2 ^ 20

-- The opcode of a store, whose field `rd` is no destination.
abbrev pub store : ℕ
store = 0x23
