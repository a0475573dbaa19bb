-- ===== src/Prelude/Scan.antt =====
-- The loop that looks for the first index at which a test passes, which the tables of the kernel
-- (pipes, queues, sockets, nodes, processes, page frames) share.
use Prim.Native.Nat.{ℕ, zero, suc, ◌+◌, ◌≤◌, ◌<◌}
use mathlib.Core.Path.{◌≡◌}
use mathlib.Core.Bool.{Bool, true, false}
use mathlib.Core.Option.{Option, none, some}
use mathlib.Core.Logic.{inl, inr}
use native.Mathlib.Omega.{arith}
use my_operating_system_open.Prelude.Tests.{if◌then◌else◌, Bool-cases, Option-cases}

-- `for (i = from; rounds are left; i++) if (test(i)) return i;`
unfoldable pub first_index : ℕ → ℕ → (ℕ → Bool) → Option ℕ
first_index zero i test = none
first_index (suc k) i test =
    let rest = first_index k (suc i) test in if test i then some i else rest

-- The index found is in the range and passes the test, and no index of the range before it does.
pub record IsFirst (k from : ℕ) (test : ℕ → Bool) (j : ℕ) : Type 0 where
  pub at_least : from ≤ j
  pub below : j < from + k
  pub passes : test j ≡ true
  pub before : (i : ℕ) → from ≤ i → i < j → test i ≡ false

pub first_index-IsFirst :
    (k from : ℕ) (test : ℕ → Bool) {j : ℕ}
    → first_index k from test ≡ some j
    → IsFirst k from test j
unfolding first_index
first_index-IsFirst zero from test h = absurd (cc)
first_index-IsFirst (suc k) from test {j} h = elim (Bool-cases (test from)) [
  | inl e ↦
      let same : from ≡ j = ground (arith, h, e) in
      record {
        at_least = omega arith;
        below = omega arith;
        passes = rw (← same) e;
        before = λ i lo hi. absurd (omega arith);
      }
  | inr e ↦
      let rest : IsFirst k (suc from) test j = first_index-IsFirst k (suc from) test (rw e at h) in
      record {
        at_least = omega (arith, rest.at_least);
        below = omega (arith, rest.below);
        passes = rest.passes;
        before = λ i lo hi. ground (arith, e, rest.before i);
      }
]

pub first_index-none :
    (k from : ℕ) (test : ℕ → Bool)
    → first_index k from test ≡ none
    → (i : ℕ) → from ≤ i
    → i < from + k
    → test i ≡ false
unfolding first_index
first_index-none zero from test h i lo hi = absurd (omega arith)
first_index-none (suc k) from test h i lo hi = elim (Bool-cases (test from)) [
  | inl e ↦ absurd (ground (arith, h, e))
  | inr e ↦ ground (arith, e, h, first_index-none k (suc from) test (rw e at h) i)
]

-- A test that passes somewhere in the range is found.
pub first_index-ne-none :
    (k from : ℕ) (test : ℕ → Bool) (i : ℕ)
    → from ≤ i
    → i < from + k
    → test i ≡ true
    → (j : ℕ) × (first_index k from test ≡ some j)
first_index-ne-none k from test i lo hi h = elim (Option-cases (first_index k from test)) [
  | inl e ↦ absurd (ground (arith, h, first_index-none k from test e i))
  | inr r ↦ r
]
