-- ===== src/Smp/Table.antt =====
-- The bounds of the table of kernel/smp.c.
use my_operating_system_open.Prelude.{
  ℕ, refl, inl, inr, Bool, false, arith, ◌≤◌, ◌<◌, ◌≡◌, ◌||◌, ◌==◌, leb, Bool-cases, if_true,
  if_false, update_ne,
}
use my_operating_system_open.Smp.{SmpInfo, online, max_cpus, detect_cpu_count, smp_boot_ap}

-- Up to 255 processors are counted.
pub detect_cpu_count_bounds :
    (available : Bool) (edx : ℕ)
    → (1 ≤ detect_cpu_count available edx) × (detect_cpu_count available edx ≤ 255)
unfolding detect_cpu_count
detect_cpu_count_bounds available edx = ground arith

-- With at most 16 processors `smp_boot_ap` and `smp_halt_cpu` write inside the table.
pub smp_boot_ap-inside :
    (s : SmpInfo) (cpu_id i : ℕ)
    → s.cpu_count ≤ max_cpus
    → max_cpus ≤ i
    → (smp_boot_ap s cpu_id).1.cpus i ≡ s.cpus i
unfolding smp_boot_ap
smp_boot_ap-inside s cpu_id i few out = elim (Bool-cases (leb s.cpu_count cpu_id || cpu_id == 0)) [
  | inl e ↦ rw (if_true e) refl
  | inr e ↦ rw (if_false e) (update_ne s.cpus cpu_id _ i (ground (arith, e)))
]

-- With more processors `smp_boot_ap` of the processor with number 16 writes behind the table.
pub smp_boot_ap_overruns :
    (s : SmpInfo)
    → max_cpus < s.cpu_count
    → ((smp_boot_ap s max_cpus).1.cpus max_cpus).state ≡ online
unfolding smp_boot_ap
smp_boot_ap_overruns s many =
    let go : (leb s.cpu_count max_cpus || max_cpus == 0) ≡ false = ground arith in
    rw (if_false go) refl
