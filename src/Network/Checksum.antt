-- ===== src/Network/Checksum.antt =====
-- The checksum of kernel/network.c is a one's complement sum.
use my_operating_system_open.Prelude.{
  ℕ, refl, inl, inr, true, List, [], arith, ◌+◌, ◌-◌, ◌*◌, ◌/◌, ◌%◌, ◌^◌, ◌<◌, ◌≡◌, ◌∷◌, ◌++◌, ◌==◌,
  Bool-cases, if_true, if_false, length, add32,
}
use my_operating_system_open.Network.{sum_words, fold_sum, net_checksum}

-- The sum of the words, in numbers that do not overflow
abbrev pub total : List ℕ → ℕ
total [] = 0
total (b ∷ []) = b
total (b ∷ c ∷ bs) = b + 256 * c + total bs

sum_words-total :
    (bs : List ℕ) (sum : ℕ) → sum + total bs < 2 ^ 32 → sum_words bs sum ≡ sum + total bs
unfolding sum_words
sum_words-total [] sum h = omega arith
sum_words-total (b ∷ []) sum h = omega arith
sum_words-total (b ∷ c ∷ bs) sum h =
    let e : add32 sum (b + 256 * c) ≡ sum + (b + 256 * c) = omega arith in
    rw e (omega (arith, sum_words-total bs (sum + (b + 256 * c)) (omega arith)))

-- What folding leaves: 16 bits that differ from the sum by a multiple of 65535, and are 0 for 0 only.
record Folded (sum r : ℕ) : Type 0 where
  q : ℕ
  same : sum ≡ r + 65535 * q
  small : r < 2 ^ 16
  positive : 0 < sum → 0 < r

fold_sum-Folded : (sum : ℕ) → sum < 2 ^ 32 → Folded sum (fold_sum 3 sum)
unfolding fold_sum
fold_sum-Folded sum h =
    let s1 = add32 (sum % 2 ^ 16) (sum / 2 ^ 16) in
    let s2 = add32 (s1 % 2 ^ 16) (s1 / 2 ^ 16) in
    elim (Bool-cases (sum / 2 ^ 16 == 0)) [
      | inl e ↦
          rw (if_true e)
            (record { q = 0; same = omega arith; small = ground (arith, e); positive = λ z. z })
      | inr e ↦ elim (Bool-cases (s1 / 2 ^ 16 == 0)) [
        | inl f ↦
            rw (if_false e, if_true f)
              (record {
                q = sum / 2 ^ 16;
                same = omega arith;
                small = ground (arith, f);
                positive = λ z. ground (arith, e);
              })
        | inr f ↦
            let third : (s2 / 2 ^ 16 == 0) ≡ true = ground (arith, f) in
            rw (if_false e, if_false f, if_true third)
              (record {
                q = sum / 2 ^ 16 + s1 / 2 ^ 16;
                same = omega arith;
                small = omega arith;
                positive = λ z. ground (arith, f);
              })
      ]
    ]

-- The words of data of even length, and two bytes more
total-append :
    (bs : List ℕ) (b c : ℕ)
    → length bs % 2 ≡ 0
    → total (bs ++ b ∷ c ∷ []) ≡ total bs + (b + 256 * c)
total-append [] b c h = omega arith
total-append (x ∷ []) b c h = absurd (omega arith)
total-append (x ∷ y ∷ bs) b c h = omega (arith, total-append bs b c (omega arith))

-- Data of odd length is padded with a zero.
abbrev pub padded : List ℕ → List ℕ
padded [] = []
padded (b ∷ []) = b ∷ 0 ∷ []
padded (b ∷ c ∷ bs) = b ∷ c ∷ padded bs

padded-total : (bs : List ℕ) → (total (padded bs) ≡ total bs) × (length (padded bs) % 2 ≡ 0)
padded-total [] = (refl, omega arith)
padded-total (b ∷ []) = (omega arith, omega arith)
padded-total (b ∷ c ∷ bs) = let (e, f) = padded-total bs in (omega (arith, e), omega (arith, f))

-- The one's complement sum of the data and the checksum is zero: they add up to a multiple of 65535. A receiver
-- that computes the checksum of the data, padded with a zero to an even length, with the checksum behind it, low
-- byte first, gets 0. The words, a last byte of odd data being one, add up to less than 2 ^ 32 - 2 ^ 16, as those
-- of less than 128 kilobytes do.
pub net_checksum-verifies :
    (bytes : List ℕ)
    → total bytes + 2 ^ 16 < 2 ^ 32
    → let sum = net_checksum bytes in
      (sum < 2 ^ 16)
      × ((total bytes + sum) % 65535 ≡ 0)
      × (net_checksum (padded bytes ++ sum % 256 ∷ sum / 256 ∷ []) ≡ 0)
unfolding net_checksum
net_checksum-verifies bytes small =
    let s = sum_words-total bytes 0 (omega arith) in
    let w = fold_sum-Folded (sum_words bytes 0) (omega (arith, s)) in
    let sum = net_checksum bytes in
    let here : sum ≡ 65535 - fold_sum 3 (sum_words bytes 0) = omega (arith, w.small) in
    let (pad, even) = padded-total bytes in
    let sent = padded bytes ++ sum % 256 ∷ sum / 256 ∷ [] in
    let more = total-append (padded bytes) (sum % 256) (sum / 256) even in
    let s' = sum_words-total sent 0 (omega (arith, more, here, pad)) in
    let w' = fold_sum-Folded (sum_words sent 0) (omega (arith, s', more, here, pad)) in
    let folded : fold_sum 3 (sum_words sent 0) ≡ 65535 =
      omega (arith, s, w.same, w.small, s', more, here, pad, w'.same, w'.small, w'.positive) in
    (omega (arith, here), omega (arith, here, s, w.same, w.small), omega (arith, folded))
