-- ===== src/Network/Tests.antt =====
-- Sockets and a checksum of kernel/network.c.
use my_operating_system_open.Prelude.{
  ℕ, false, List, [], arith, ◌+◌, ◌/◌, ◌%◌, ◌^◌, ◌<◌, ◌≡◌, ◌∷◌, ◌++◌,
}
use my_operating_system_open.Network.{Net, net_checksum}
use my_operating_system_open.Network.Checksum.{total, padded, net_checksum-verifies}

abbrev off : Net
off = record {
  net_dev = record { name = []; mac = []; ip = []; is_up = false };
  net_initialized = false;
  sockets = λ _. record {
    id = 0;
    local_port = 0;
    remote_port = 0;
    remote_ip = [];
    protocol = 0;
    is_open = false;
  };
}

abbrev bytes : List ℕ
bytes = 0x45 ∷ 0x00 ∷ 0xff ∷ 0xff ∷ 0x12 ∷ 0x34 ∷ 0x56 ∷ []

net_checksum-verifies_example :
    let sum = net_checksum bytes in
    (sum < 2 ^ 16)
    × ((total bytes + sum) % 65535 ≡ 0)
    × (net_checksum (padded bytes ++ sum % 256 ∷ sum / 256 ∷ []) ≡ 0)
net_checksum-verifies_example = net_checksum-verifies bytes (omega arith)
