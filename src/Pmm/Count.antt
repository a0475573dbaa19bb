-- ===== src/Pmm/Count.antt =====
-- The number of used pages in a range of the bitmap of memory/pmm.c.
use my_operating_system_open.Prelude.{
  ℕ, zero, suc, refl, inl, inr, true, false, arith, ◌+◌, ◌≤◌, ◌<◌, ◌≡◌, ◌≢◌, ◌==◌, ==→eq,
  Bool-cases,
}
use my_operating_system_open.Pmm.{bitmap_test, count_used}

-- The count depends on the tests of the range alone.
pub count_used_same :
    (k from : ℕ) (m n : ℕ → ℕ)
    → ((q : ℕ) → from ≤ q → q < from + k → bitmap_test m q ≡ bitmap_test n q)
    → count_used k from m ≡ count_used k from n
unfolding count_used
count_used_same zero from m n h = refl
count_used_same (suc k) from m n h =
    let rest = count_used_same k (from + 1) m n (λ q lo hi. h q (omega arith) (omega arith)) in
    let here : bitmap_test m from ≡ bitmap_test n from = h from (omega arith) (omega arith) in
    ground (arith, rest, here)

-- Where one free page of the range becomes used, the count grows by one.
pub count_used_mark :
    (k from : ℕ) (m n : ℕ → ℕ) (p : ℕ)
    → from ≤ p
    → p < from + k
    → bitmap_test m p ≡ false
    → bitmap_test n p ≡ true
    → ((q : ℕ) → q ≢ p → bitmap_test m q ≡ bitmap_test n q)
    → count_used k from n ≡ count_used k from m + 1
unfolding count_used
count_used_mark zero from m n p lo hi off on h = absurd (omega arith)
count_used_mark (suc k) from m n p lo hi off on h = elim (Bool-cases (from == p)) [
  | inl e ↦
      let same = count_used_same k (from + 1) m n (λ q lo' hi'. h q (ground arith)) in
      ground (arith, same, ==→eq from p e)
  | inr e ↦
      let rest = count_used_mark k (from + 1) m n p (ground arith) (omega arith) off on h in
      ground (arith, rest, h from)
]

pub count_used-le : (k from : ℕ) (m : ℕ → ℕ) → count_used k from m ≤ k
unfolding count_used
count_used-le zero from m = omega arith
count_used-le (suc k) from m = ground (arith, count_used-le k (from + 1) m)

-- A range with no free page counts whole.
pub count_used_full :
    (k from : ℕ) (m : ℕ → ℕ)
    → ((q : ℕ) → from ≤ q → q < from + k → bitmap_test m q ≡ true)
    → count_used k from m ≡ k
unfolding count_used
count_used_full zero from m h = refl
count_used_full (suc k) from m h =
    let rest = count_used_full k (from + 1) m (λ q lo hi. h q (omega arith) (omega arith)) in
    ground (arith, rest, h from (omega arith) (omega arith))
