-- ===== src/Syscall/Pid.antt =====
-- The pid that `sys_fork` of kernel/syscall.c finds for a child.
use my_operating_system_open.Prelude.{
  ℕ, zero, suc, sym, ap, inl, inr, true, false, not, arith, ◌+◌, ◌^◌, ◌≤◌, ◌<◌, ◌≡◌, ◌∙◌, ◌≢◌, ◌&&◌,
  ◌==◌, ==→eq, Bool-cases, if_true, if_false, add32,
}
use my_operating_system_open.Process.Table.{unused, ◌=s◌, Kernel, process_max}
use my_operating_system_open.Syscall.{taken, max_pid, scan_pid, new_pid}

-- A pid that is taken is at most the largest one.
taken-max_pid :
    (n : ℕ) (k : Kernel) (child pid : ℕ) → taken n k child pid ≡ true → pid ≤ max_pid n k
unfolding taken max_pid
taken-max_pid zero k child pid h = absurd (ground arith)
taken-max_pid (suc n) k child pid h =
    elim (Bool-cases
      (not (n == child) && not ((k.table n).state =s unused) && (k.table n).pid == pid)) [
        | inl e ↦ ground (arith, e)
        | inr e ↦ ground (arith, taken-max_pid n k child pid (rw (if_false e) at h))
      ]

-- The scan ends with a pid that is not taken.
scan_pid-taken :
    (n : ℕ) (k : Kernel) (child pid : ℕ)
    → max_pid process_max k < pid + n
    → max_pid process_max k + 1 < 2 ^ 32
    → taken process_max k child (scan_pid n k child pid) ≡ false
unfolding scan_pid
scan_pid-taken zero k child pid h small = elim (Bool-cases (taken process_max k child pid)) [
  | inl e ↦ absurd (omega (arith, taken-max_pid process_max k child pid e))
  | inr e ↦ e
]
scan_pid-taken (suc n) k child pid h small = elim (Bool-cases (taken process_max k child pid)) [
  | inl e ↦
      let low = taken-max_pid process_max k child pid e in
      let next : add32 pid 1 ≡ pid + 1 = omega arith in
      rw (if_true e, next) (scan_pid-taken n k child (pid + 1) (omega arith) small)
  | inr e ↦ rw (if_false e) e
]

-- A pid that is not taken is the pid of no other slot in use.
free_pid :
    (n : ℕ) (k : Kernel) (child pid : ℕ)
    → taken n k child pid ≡ false
    → (j : ℕ) → j < n
    → j ≢ child
    → ((k.table j).state =s unused) ≡ false
    → (k.table j).pid ≢ pid
unfolding taken
free_pid zero k child pid h j lt ne used same = absurd (omega arith)
free_pid (suc n) k child pid h j lt ne used same =
    elim (Bool-cases
      (not (n == child) && not ((k.table n).state =s unused) && (k.table n).pid == pid)) [
        | inl e ↦ let x : true ≡ false = rw (if_true e) at h in ground (arith, x)
        | inr e ↦ elim (Bool-cases (j == n)) [
          | inl f ↦
              let q : n ≡ j = sym (==→eq j n f) in
              let no : (not (j == child)
                    && not ((k.table j).state =s unused)
                    && (k.table j).pid == pid)
                  ≡ false =
                ap
                  (λ z.
                    not (z == child) && not ((k.table z).state =s unused) && (k.table z).pid == pid)
                  (sym q)
                ∙ e in
              ground (arith, no, used)
          | inr f ↦ free_pid n k child pid (rw (if_false e) at h) j (ground (arith, f)) ne used same
        ]
      ]

-- The new pid is the pid of no other slot in use, if no pid is the largest number of 32 bits.
pub new_pid-free :
    (k : Kernel) (child : ℕ)
    → max_pid process_max k + 1 < 2 ^ 32
    → (j : ℕ) → j < process_max
    → j ≢ child
    → ((k.table j).state =s unused) ≡ false
    → (k.table j).pid ≢ new_pid k child
unfolding new_pid
new_pid-free k child small =
    free_pid process_max k child (new_pid k child)
      (scan_pid-taken (max_pid process_max k + 1) k child 1 (omega arith) small)
