-- ===== src/Prelude/Words.antt =====
-- Unsigned machine arithmetic on native numbers: every operation wraps at its width.
use Prim.Native.Nat.{ℕ, ◌+◌, ◌-◌, ◌*◌, ◌%◌, ◌^◌}

-- `uint32_t` (also `size_t` and a pointer on i386): a + b, a - b and a * b.
abbrev pub add32 : ℕ → ℕ → ℕ
add32 a b = (a + b) % 2 ^ 32

abbrev pub sub32 : ℕ → ℕ → ℕ
sub32 a b = (a + 2 ^ 32 - b) % 2 ^ 32

abbrev pub mul32 : ℕ → ℕ → ℕ
mul32 a b = a * b % 2 ^ 32

-- The conversion `(uint32_t)x`.
abbrev pub u32 : ℕ → ℕ
u32 x = x % 2 ^ 32

-- `uint64_t` addition.
abbrev pub add64 : ℕ → ℕ → ℕ
add64 a b = (a + b) % 2 ^ 64
