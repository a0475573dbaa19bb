-- ===== src/Smp.antt =====
-- kernel/smp.c: the table of processors. What CPUID says is an argument: whether it is available, and the
-- register EDX of its leaf 1. The message on the console is left out.
pub mod Table
use my_operating_system_open.Prelude.{
  ℕ, Bool, true, false, Option, none, some, ◌/◌, ◌%◌, ◌^◌, ◌&&◌, ◌||◌, ◌==◌, if◌then◌else◌, ltb,
  leb, update,
}

abbrev pub max_cpus : ℕ
max_cpus = 16

-- `cpu_state_t`
pub data CpuState : Type 0 where
  offline online halted : CpuState

-- `cpu_info_t`
pub record CpuInfo : Type 0 where
  pub cpu_id : ℕ
  pub state : CpuState
  pub apic_id : ℕ
  pub flags : ℕ
  pub tsc_freq : ℕ

-- `smp_info_t`, with the flag `smp_initialized`
pub record SmpInfo : Type 0 where
  pub cpu_count : ℕ
  pub bsp_id : ℕ
  pub cpus : ℕ → CpuInfo
  pub initialized : Bool

-- `detect_cpu_count`
unfoldable pub detect_cpu_count : Bool → ℕ → ℕ
detect_cpu_count available edx =
    let logical = edx / 2 ^ 16 % 256 in
    if available && edx / 2 ^ 28 % 2 == 1 && ltb 1 logical then logical else 1

-- A processor before it is started
abbrev pub cpu_off : ℕ → CpuInfo
cpu_off i = record { cpu_id = i; state = offline; apic_id = i; flags = 0; tsc_freq = 0 }

-- `smp_init`
unfoldable pub smp_init : Bool → ℕ → SmpInfo → SmpInfo
smp_init available edx s = if s.initialized then s else record {
  cpu_count = detect_cpu_count available edx;
  bsp_id = 0;
  cpus =
      update (λ i. if ltb i max_cpus then cpu_off i else s.cpus i) 0
        (record (cpu_off 0) { state = online });
  initialized = true;
}

-- `smp_get_cpu_count`, `smp_get_current_cpu` and `smp_get_cpu_info`
unfoldable pub smp_get_cpu_count : SmpInfo → ℕ
smp_get_cpu_count s = s.cpu_count

unfoldable pub smp_get_current_cpu : ℕ
smp_get_current_cpu = 0

unfoldable pub smp_get_cpu_info : ℕ → Option ℕ
smp_get_cpu_info cpu_id = if leb max_cpus cpu_id then none else some cpu_id

-- `smp_system.cpus[i].state = …`; an index from 16 on is outside the array.
abbrev pub set_state : SmpInfo → ℕ → CpuState → SmpInfo
set_state s i x = record s { cpus = update s.cpus i (record (s.cpus i) { state = x }) }

-- `smp_boot_ap`: whether it succeeds
unfoldable pub smp_boot_ap : SmpInfo → ℕ → Bool × SmpInfo
smp_boot_ap s cpu_id =
    if leb s.cpu_count cpu_id || cpu_id == 0 then (false, s) else (true, set_state s cpu_id online)

-- `smp_halt_cpu`; the processor that halts itself stops.
unfoldable pub smp_halt_cpu : SmpInfo → ℕ → SmpInfo
smp_halt_cpu s cpu_id = if leb max_cpus cpu_id then s else set_state s cpu_id halted
