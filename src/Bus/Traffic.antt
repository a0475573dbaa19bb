-- ===== src/Bus/Traffic.antt =====
-- The traffic on the bus of memory/bus.c over a sequence of requests and cycles.
use my_operating_system_open.Prelude.{
  ℕ, suc, refl, sym, ap, Bool, true, false, not, List, [], arith, ◌+◌, ◌^◌, ◌<◌, ◌≡◌, ◌∷◌, if_true,
  if_false, add64,
}
use my_operating_system_open.Bus.{
  BusTransactionType, bus_read, bus_write, MemoryBus, bus_init, bus_reset, bus_request, bus_cycle,
  count_transaction,
}

-- A request of some bytes at an address, or a clock cycle.
pub data Step : Type 0 where
  request : BusTransactionType → ℕ → ℕ → Step
  cycle : Step

-- The answers to the requests of a sequence of calls, in order, and the bus after it
unfoldable pub run : MemoryBus → List Step → List Bool × MemoryBus
run b [] = ([], b)
run b (request kind address size ∷ xs) =
    let (granted, b1) = bus_request b kind address size in
    let (answers, b2) = run b1 xs in (granted ∷ answers, b2)
run b (cycle ∷ xs) = run (bus_cycle b) xs

-- The answers of a bus that takes one request per cycle: a request is refused if there was another
-- one since the last cycle.
abbrev pub one_per_cycle : Bool → List Step → List Bool
one_per_cycle busy [] = []
one_per_cycle busy (request kind address size ∷ xs) = not busy ∷ one_per_cycle true xs
one_per_cycle busy (cycle ∷ xs) = one_per_cycle false xs

-- The requests that were answered with true, and their bytes
abbrev pub granted : List Bool → List Step → ℕ × ℕ
granted (true ∷ answers) (request kind address size ∷ xs) =
    let more = granted answers xs in (suc more.0, size + more.1)
granted (false ∷ answers) (request kind address size ∷ xs) = granted answers xs
granted answers (cycle ∷ xs) = granted answers xs
granted [] xs = (0, 0)
granted answers [] = (0, 0)

request_busy :
    (b : MemoryBus) (kind : BusTransactionType) (a n : ℕ)
    → b.busy ≡ true
    → bus_request b kind a n ≡ (false, b)
unfolding bus_request
request_busy b kind a n h = if_true h (false, b) _

-- A granted request.
record Granted (b t : MemoryBus) (n : ℕ) : Type 0 where
  busy : t.busy ≡ true
  bytes : t.total_bytes ≡ add64 b.total_bytes n
  count :
      b.read_transactions + b.write_transactions + 1 < 2 ^ 64
      → t.read_transactions + t.write_transactions ≡ b.read_transactions + b.write_transactions + 1

request-Granted :
    (b : MemoryBus) (kind : BusTransactionType) (a n : ℕ)
    → b.busy ≡ false
    → ((bus_request b kind a n).0 ≡ true) × Granted b (bus_request b kind a n).1 n
unfolding bus_request count_transaction
request-Granted b bus_read a n h =
    rw (if_false h) (refl, record { busy = refl; bytes = refl; count = λ s. omega arith })
request-Granted b bus_write a n h =
    rw (if_false h) (refl, record { busy = refl; bytes = refl; count = λ s. omega arith })

run-answers :
    (xs : List Step) (b : MemoryBus) (busy : Bool)
    → b.busy ≡ busy
    → (run b xs).0 ≡ one_per_cycle busy xs
unfolding run bus_cycle
run-answers [] b busy e = refl
run-answers (cycle ∷ xs) b busy e = run-answers xs (bus_cycle b) false refl
run-answers (request kind a n ∷ xs) b true e =
    rw (request_busy b kind a n e) (ap (λ z. false ∷ z) (run-answers xs b true e))
run-answers (request kind a n ∷ xs) b false e =
    let (said, g) = request-Granted b kind a n e in
    rw (said) (ap (λ z. true ∷ z) (run-answers xs (bus_request b kind a n).1 true g.busy))

granted_cycle :
    (answers : List Bool) (xs : List Step) → granted answers (cycle ∷ xs) ≡ granted answers xs
granted_cycle [] xs = refl
granted_cycle (true ∷ answers) xs = refl
granted_cycle (false ∷ answers) xs = refl

run-counts :
    (xs : List Step) (b : MemoryBus) (busy : Bool)
    → b.busy ≡ busy
    → let (count, bytes) = granted (one_per_cycle busy xs) xs in
      b.read_transactions + b.write_transactions + count < 2 ^ 64
      → b.total_bytes + bytes < 2 ^ 64
      → ((run b xs).1.read_transactions + (run b xs).1.write_transactions
          ≡ b.read_transactions + b.write_transactions + count)
        × ((run b xs).1.total_bytes ≡ b.total_bytes + bytes)
unfolding run bus_cycle
run-counts [] b busy e hn hb = (omega arith, omega arith)
run-counts (cycle ∷ xs) b busy e hn hb =
    let w = granted_cycle (one_per_cycle false xs) xs in
    rw (w) (run-counts xs (bus_cycle b) false refl (rw (w) at hn) (rw (w) at hb))
run-counts (request kind a n ∷ xs) b true e hn hb =
    rw (request_busy b kind a n e) (run-counts xs b true e hn hb)
run-counts (request kind a n ∷ xs) b false e hn hb =
    let (said, g) = request-Granted b kind a n e in
    let c = g.count (omega arith) in
    let m = g.bytes in
    let (l, r) =
      run-counts xs (bus_request b kind a n).1 true g.busy (omega (arith, c)) (omega (arith, m)) in
    (omega (arith, c, l), omega (arith, m, r))

-- After a reset, over any sequence of requests and cycles, `bus_request` answers true to those that are the first
-- since the reset or the last cycle, and false to the others. At the end the transactions counted are those that were
-- answered true, and the bytes counted are theirs, as long as neither count reaches 2^64.
pub run-granted :
    (xs : List Step)
    → let (answers, b) = run bus_reset xs in
      let (count, bytes) = granted answers xs in
      count < 2 ^ 64
      → bytes < 2 ^ 64
      → (answers ≡ one_per_cycle false xs)
        × (b.read_transactions + b.write_transactions ≡ count)
        × (b.total_bytes ≡ bytes)
unfolding bus_reset bus_init
run-granted xs hn hb =
    let e = run-answers xs bus_reset false refl in
    let (l, r) =
      run-counts xs bus_reset false refl (rw (sym e) (omega arith)) (rw (sym e) (omega arith)) in
    (e, rw e (omega (arith, l)), rw e (omega (arith, r)))
