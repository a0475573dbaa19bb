-- ===== src/Text/Numbers.antt =====
-- The digits that `itoa` of kernel/string.c writes.
use my_operating_system_open.Prelude.{
  ℕ, zero, suc, List, [], ◌+◌, ◌-◌, ◌*◌, ◌/◌, ◌%◌, ◌<◌, ◌≡◌, ◌∷◌, if◌then◌else◌, ltb,
}
use my_operating_system_open.Text.{ℤ, divide, times, minus, magnitude, is_negative}

-- The value of a digit
abbrev pub digit_value : ℕ → ℕ
digit_value c = if ltb c 58 then c - 48 else c - 87

-- The number that digits stand for, the first digit first
abbrev pub read_number : ℕ → ℕ → List ℕ → ℕ
read_number base acc [] = acc
read_number base acc (c ∷ cs) = read_number base (acc * base + digit_value c) cs

-- The number that digits stand for, the last digit first
abbrev value : ℕ → List ℕ → ℕ
value base [] = 0
value base (c ∷ cs) = value base cs * base + digit_value c

-- The numbers with at most `f` binary digits are below this.
abbrev limit : ℕ → ℕ
limit zero = 1
limit (suc f) = limit f * 2

-- One round of the loop: the value is divided in its absolute value, the digit is the remainder, and the sign stays
-- until the value is 0.
record Divided (v : ℤ) (base : ℕ) : Type 0 where
  quotient : magnitude (divide v base) ≡ magnitude v / base
  remainder : magnitude (minus v (times (divide v base) base)) ≡ magnitude v % base
  sign : 0 < magnitude (divide v base) → is_negative (divide v base) ≡ is_negative v

-- The digits of the loop stand for the absolute value, and the last value has the sign of the first.
record Digits (v : ℤ) (base : ℕ) (out : List ℕ × ℤ) : Type 0 where
  digits : value base out.0 ≡ magnitude v
  sign : is_negative out.1 ≡ is_negative v
