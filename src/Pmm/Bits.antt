-- ===== src/Pmm/Bits.antt =====
-- The bitmap of memory/pmm.c as a set of pages: what setting and clearing the bit of one page does
-- to the tests of all pages.
use my_operating_system_open.Prelude.{
  ℕ, zero, suc, refl, inl, inr, Bool, true, false, not, arith, ◌+◌, ◌*◌, ◌/◌, ◌%◌, ◌≤◌, ◌<◌, ◌≡◌,
  ◌≢◌, ◌&&◌, ◌||◌, ◌==◌, ltb, ==→eq, Bool-cases,
}
use my_operating_system_open.Pmm.{
  bitmap_size, set_bit, clear_bit, test_bit, bitmap_set, bitmap_clear, bitmap_test,
}

-- Whether a test passes at each of the `k` numbers from `from` on.
passes_from : ℕ → ℕ → (ℕ → Bool) → Bool
passes_from zero from test = true
passes_from (suc k) from test = passes_from k (from + 1) test && test from

passes_at :
    (k from : ℕ) (test : ℕ → Bool)
    → passes_from k from test ≡ true
    → (x : ℕ) → from ≤ x
    → x < from + k
    → test x ≡ true
unfolding passes_from
passes_at zero from test h x lo hi = absurd (omega arith)
passes_at (suc k) from test h x lo hi = elim (Bool-cases (from == x)) [
  | inl e ↦ let here : from ≡ x = ==→eq from x e in rw (← here) (ground (arith, h))
  | inr e ↦ passes_at k (from + 1) test (ground (arith, h)) x (ground (arith, e)) (omega arith)
]

same : Bool → Bool → Bool
same true b = b
same false b = not b

same-eq : (a b : Bool) → same a b ≡ true → a ≡ b
unfolding same
same-eq true true h = refl
same-eq true false h = cc
same-eq false true h = cc
same-eq false false h = refl

-- What is checked of a byte and two bit numbers.
set_agrees : ℕ → ℕ → ℕ → Bool
set_agrees b i j =
    same (test_bit (set_bit b i) j) ((i == j) || test_bit b j) && ltb (set_bit b i) 256

clear_agrees : ℕ → ℕ → ℕ → Bool
clear_agrees b i j =
    same (test_bit (clear_bit b i) j) (not (i == j) && test_bit b j) && ltb (clear_bit b i) 256

all_bytes : (ℕ → ℕ → ℕ → Bool) → Bool
all_bytes p = passes_from 256 0 (λ b. passes_from 8 0 (λ i. passes_from 8 0 (λ j. p b i j)))

all_bytes_sound :
    (p : ℕ → ℕ → ℕ → Bool) (b i j : ℕ)
    → all_bytes p ≡ true
    → b < 256
    → i < 8
    → j < 8
    → p b i j ≡ true
unfolding all_bytes
all_bytes_sound p b i j h hb hi hj =
    passes_at 8 0 _ (passes_at 8 0 _ (passes_at 256 0 _ h b (omega arith) hb) i (omega arith) hi) j
      (omega arith) hj

set_table : all_bytes set_agrees ≡ true
unfolding all_bytes passes_from set_agrees same set_bit test_bit
set_table = refl

clear_table : all_bytes clear_agrees ≡ true
unfolding all_bytes passes_from clear_agrees same clear_bit test_bit
clear_table = refl

abbrev pub IsBytes : (ℕ → ℕ) → Type 0
IsBytes m = (i : ℕ) → m i < 256

module _ (b i j : ℕ) (hb : b < 256) (hi : i < 8) (hj : j < 8) where
  test_bit-set_bit : test_bit (set_bit b i) j ≡ ((i == j) || test_bit b j)
  unfolding set_agrees
  test_bit-set_bit =
      same-eq _ _ (ground (arith, all_bytes_sound set_agrees b i j set_table hb hi hj))

  set_bit-lt : set_bit b i < 256
  unfolding set_agrees
  set_bit-lt = ground (arith, all_bytes_sound set_agrees b i j set_table hb hi hj)

  test_bit-clear_bit : test_bit (clear_bit b i) j ≡ (not (i == j) && test_bit b j)
  unfolding clear_agrees
  test_bit-clear_bit =
      same-eq _ _ (ground (arith, all_bytes_sound clear_agrees b i j clear_table hb hi hj))

  clear_bit-lt : clear_bit b i < 256
  unfolding clear_agrees
  clear_bit-lt = ground (arith, all_bytes_sound clear_agrees b i j clear_table hb hi hj)

-- A page is its byte and its bit.
same_page : (p q : ℕ) → p / 8 ≡ q / 8 → ((p % 8) == (q % 8)) ≡ (p == q)
same_page p q h = ground arith

other_page : (p q : ℕ) → p / 8 ≢ q / 8 → (p == q) ≡ false
other_page p q h = ground arith

module _ (m : ℕ → ℕ) (v : IsBytes m) where
  -- Setting the bit of a page that the bitmap covers makes that page used, and no other test changes.
  pub bitmap_test-bitmap_set :
      (p q : ℕ)
      → p < bitmap_size * 8
      → bitmap_test (bitmap_set m p) q ≡ ((p == q) || bitmap_test m q)
  unfolding bitmap_set bitmap_test
  bitmap_test-bitmap_set p q h = ground (
    arith,
    v (p / 8),
    v (q / 8),
    test_bit-set_bit (m (q / 8)) (p % 8) (q % 8),
    same_page p q,
    other_page p q,
  )

  pub bitmap_set-IsBytes : (p : ℕ) → IsBytes (bitmap_set m p)
  unfolding bitmap_set
  bitmap_set-IsBytes p i = ground (arith, v i, v (p / 8), set_bit-lt (m (p / 8)) (p % 8) 0)

  pub bitmap_test-bitmap_clear :
      (p q : ℕ)
      → p < bitmap_size * 8
      → bitmap_test (bitmap_clear m p) q ≡ (not (p == q) && bitmap_test m q)
  unfolding bitmap_clear bitmap_test
  bitmap_test-bitmap_clear p q h = ground (
    arith,
    v (p / 8),
    v (q / 8),
    test_bit-clear_bit (m (q / 8)) (p % 8) (q % 8),
    same_page p q,
    other_page p q,
  )

  pub bitmap_clear-IsBytes : (p : ℕ) → IsBytes (bitmap_clear m p)
  unfolding bitmap_clear
  bitmap_clear-IsBytes p i = ground (arith, v i, v (p / 8), clear_bit-lt (m (p / 8)) (p % 8) 0)

-- Every bit of 0xff is set.
full_table : passes_from 8 0 (test_bit 255) ≡ true
unfolding passes_from test_bit
full_table = refl

pub bitmap_test_full : (m : ℕ → ℕ) (q : ℕ) → m (q / 8) ≡ 255 → bitmap_test m q ≡ true
unfolding bitmap_test
bitmap_test_full m q h =
    ground (arith, h, passes_at 8 0 (test_bit 255) full_table (q % 8) (omega arith) (omega arith))
