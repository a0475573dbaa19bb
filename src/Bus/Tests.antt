-- ===== src/Bus/Tests.antt =====
-- The theorem on the bus of memory/bus.c, at a short sequence of calls.
use my_operating_system_open.Prelude.{false, List, [], arith, ◌+◌, ◌≡◌, ◌∷◌}
use my_operating_system_open.Bus.{
  bus_read, bus_write, bus_reset, bus_init, bus_request, bus_cycle, count_transaction,
}
use my_operating_system_open.Bus.Traffic.{
  Step, request, cycle, run, one_per_cycle, granted, run-granted,
}

-- The second request is refused.
abbrev calls : List Step
calls = request bus_read 16 8 ∷ request bus_write 24 4 ∷ cycle ∷ request bus_write 24 4 ∷ []

run-granted_example :
    let (answers, b) = run bus_reset calls in
    let (count, bytes) = granted answers calls in
    (answers ≡ one_per_cycle false calls)
    × (b.read_transactions + b.write_transactions ≡ count)
    × (b.total_bytes ≡ bytes)
unfolding run bus_request bus_cycle bus_reset bus_init count_transaction
run-granted_example = run-granted calls (omega arith) (omega arith)
