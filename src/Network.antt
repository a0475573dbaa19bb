-- ===== src/Network.antt =====
-- kernel/network.c: the network device, the table of sockets and the checksum. A pointer to a socket is its
-- index in the table, or `none` for NULL; an address or a name is the list of its bytes.
pub mod Sockets
pub mod Checksum
mod Tests
use my_operating_system_open.Prelude.{
  ℕ, zero, suc, Bool, true, false, not, Option, none, some, List, [], ◌+◌, ◌-◌, ◌*◌, ◌/◌, ◌%◌, ◌^◌,
  ◌&&◌, ◌∷◌, ◌==◌, if◌then◌else◌, ltb, update, add32, first_index,
}

abbrev pub max_sockets : ℕ
max_sockets = 32

-- `socket_t`
pub record Socket : Type 0 where
  pub id : ℕ
  pub local_port : ℕ
  pub remote_port : ℕ
  pub remote_ip : List ℕ
  pub protocol : ℕ
  pub is_open : Bool

-- `net_device_t`
pub record NetDevice : Type 0 where
  pub name : List ℕ
  pub mac : List ℕ
  pub ip : List ℕ
  pub is_up : Bool

-- The static variables of network.c
pub record Net : Type 0 where
  pub net_dev : NetDevice
  pub net_initialized : Bool
  pub sockets : ℕ → Socket

-- `net_init`
unfoldable pub net_init : Net → Net
net_init n = if n.net_initialized then n else record {
  net_dev = record {
    name = 101 ∷ 116 ∷ 104 ∷ 48 ∷ [];
    mac = 0x00 ∷ 0x11 ∷ 0x22 ∷ 0x33 ∷ 0x44 ∷ 0x55 ∷ [];
    ip = 192 ∷ 168 ∷ 1 ∷ 100 ∷ [];
    is_up = true;
  };
  net_initialized = true;
  sockets =
      λ i. if ltb i max_sockets then record (n.sockets i) { is_open = false } else n.sockets i;
}

-- `net_set_ip` and `net_set_mac`
unfoldable pub net_set_ip : Net → Option (List ℕ) → Net
net_set_ip n none = n
net_set_ip n (some ip) = record n { net_dev = record n.net_dev { ip = ip } }

unfoldable pub net_set_mac : Net → Option (List ℕ) → Net
net_set_mac n none = n
net_set_mac n (some mac) = record n { net_dev = record n.net_dev { mac = mac } }

-- The int -1
abbrev pub failed : ℕ
failed = 2 ^ 32 - 1

-- `net_send_packet`, given the length of the packet, and `net_receive_packet`
unfoldable pub net_send_packet : Net → Option ℕ → ℕ
net_send_packet n none = failed
net_send_packet n (some len) = if n.net_dev.is_up then len else failed

unfoldable pub net_receive_packet : Net → Option ℕ → ℕ
net_receive_packet n none = failed
net_receive_packet n (some len) = if n.net_dev.is_up then 0 else failed

-- `sockets[i] = …`
abbrev pub put_socket : Net → ℕ → Socket → Net
put_socket n i s = record n { sockets = update n.sockets i s }

-- `net_socket_create`
unfoldable pub net_socket_create : Net → ℕ → Option ℕ × Net
net_socket_create n protocol = elim (first_index max_sockets 0 (λ i. not (n.sockets i).is_open)) [
  | none ↦ (none, n)
  | some i ↦ (
    some i,
    put_socket n i (record (n.sockets i) {
      id = i;
      protocol = protocol;
      local_port = 0;
      remote_port = 0;
      is_open = true;
    }),
  )
]

-- `net_socket_bind`
unfoldable pub net_socket_bind : Net → Option ℕ → ℕ → ℕ × Net
net_socket_bind n none port = (failed, n)
net_socket_bind n (some i) port =
    if (n.sockets i).is_open
    then (0, put_socket n i (record (n.sockets i) { local_port = port }))
    else (failed, n)

-- `net_socket_connect`
unfoldable pub net_socket_connect : Net → Option ℕ → Option (List ℕ) → ℕ → ℕ × Net
net_socket_connect n none ip port = (failed, n)
net_socket_connect n (some i) none port = (failed, n)
net_socket_connect n (some i) (some ip) port =
    if (n.sockets i).is_open
    then (0, put_socket n i (record (n.sockets i) { remote_ip = ip; remote_port = port }))
    else (failed, n)

-- `net_socket_send` and `net_socket_recv`, given whether there is a buffer
unfoldable pub net_socket_send : Net → Option ℕ → Bool → ℕ → ℕ
net_socket_send n none given size = failed
net_socket_send n (some i) given size = if (n.sockets i).is_open && given then size else failed

unfoldable pub net_socket_recv : Net → Option ℕ → Bool → ℕ → ℕ
net_socket_recv n none buffer size = failed
net_socket_recv n (some i) buffer size = if (n.sockets i).is_open && buffer then 0 else failed

-- `net_socket_close`
unfoldable pub net_socket_close : Net → Option ℕ → Net
net_socket_close n none = n
net_socket_close n (some i) = put_socket n i (record (n.sockets i) { is_open = false })

-- The sum of the 16-bit words of the data, a word with its low byte first, and the last byte of odd data
unfoldable pub sum_words : List ℕ → ℕ → ℕ
sum_words [] sum = sum
sum_words (b ∷ []) sum = add32 sum b
sum_words (b ∷ c ∷ bs) sum = sum_words bs (add32 sum (b + 256 * c))

-- `while (sum >> 16)`, on fuel
unfoldable pub fold_sum : ℕ → ℕ → ℕ
fold_sum zero sum = sum
fold_sum (suc n) sum =
    let rest = fold_sum n (add32 (sum % 2 ^ 16) (sum / 2 ^ 16)) in
    if sum / 2 ^ 16 == 0 then sum else rest

-- `net_checksum`: `~sum` in 16 bits. A sum of 32 bits is folded twice at most.
unfoldable pub net_checksum : List ℕ → ℕ
net_checksum bytes = 2 ^ 16 - 1 - fold_sum 3 (sum_words bytes 0) % 2 ^ 16
