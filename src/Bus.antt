-- ===== src/Bus.antt =====
-- memory/bus.c and memory/bus.h: the memory bus simulator. The metrics in doubles are left out.
pub mod Traffic
mod Tests
use my_operating_system_open.Prelude.{ℕ, Bool, true, false, ◌*◌, ◌/◌, if◌then◌else◌, add64}

-- `BusTransactionType`
pub data BusTransactionType : Type 0 where
  bus_read bus_write : BusTransactionType

abbrev pub memory_access_ns : ℕ
memory_access_ns = 30

abbrev pub bus_frequency_mhz : ℕ
bus_frequency_mhz = 800

-- `MemoryBus`
pub record MemoryBus : Type 0 where
  pub cycle_count : ℕ
  pub read_transactions : ℕ
  pub write_transactions : ℕ
  pub total_bytes : ℕ
  pub busy : Bool

-- `bus_init`
unfoldable pub bus_init : MemoryBus
bus_init = record {
  cycle_count = 0;
  read_transactions = 0;
  write_transactions = 0;
  total_bytes = 0;
  busy = false;
}

-- `bus_reset`
unfoldable pub bus_reset : MemoryBus
bus_reset = bus_init

-- The transaction is counted.
count_transaction : MemoryBus → BusTransactionType → MemoryBus
count_transaction b bus_read = record b { read_transactions = add64 b.read_transactions 1 }
count_transaction b bus_write = record b { write_transactions = add64 b.write_transactions 1 }

-- `bus_request`: whether the transaction was started; the address is not used.
unfoldable pub bus_request : MemoryBus → BusTransactionType → ℕ → ℕ → Bool × MemoryBus
unfolding count_transaction
bus_request b kind address size = if b.busy then (false, b) else (
  true,
  count_transaction (record b { busy = true; total_bytes = add64 b.total_bytes size }) kind,
)

-- `bus_cycle`
unfoldable pub bus_cycle : MemoryBus → MemoryBus
bus_cycle b = record b { cycle_count = add64 b.cycle_count 1; busy = false }

-- `bus_get_memory_latency_cycles`
unfoldable pub bus_get_memory_latency_cycles : ℕ
bus_get_memory_latency_cycles = memory_access_ns * bus_frequency_mhz / 1000
