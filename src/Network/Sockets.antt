-- ===== src/Network/Sockets.antt =====
-- The sockets of kernel/network.c.
use my_operating_system_open.Prelude.{
  ℕ, refl, sym, ap, inl, inr, true, false, not, none, some, arith, ◌<◌, ◌≡◌, ◌∙◌, ◌≢◌, ◌⊎◌, ◌==◌,
  ==→eq, Bool-cases, Option-cases, if_true, if_false, update_self, update_ne, first_index,
  first_index-IsFirst, first_index-none,
}
use my_operating_system_open.Network.{Net, Socket, max_sockets, net_socket_create, net_socket_close}

-- A socket was opened: the lowest one that was closed; closing it again leaves the same sockets open.
pub record Opened (n : Net) (protocol i : ℕ) (t : Net) : Type 0 where
  pub in_range : i < max_sockets
  pub was_closed : (n.sockets i).is_open ≡ false
  pub lowest : (j : ℕ) → j < i → (n.sockets j).is_open ≡ true
  pub socket : t.sockets i ≡ record {
    id = i;
    protocol = protocol;
    local_port = 0;
    remote_port = 0;
    remote_ip = (n.sockets i).remote_ip;
    is_open = true;
  }
  pub others : (j : ℕ) → j ≢ i → t.sockets j ≡ n.sockets j
  pub device : t.net_dev ≡ n.net_dev
  pub undone : (j : ℕ) → ((net_socket_close t (some i)).sockets j).is_open ≡ (n.sockets j).is_open

-- `net_socket_create` opens the lowest closed socket, with no ports and the address it had, and changes no other one,
-- so that `net_socket_close` undoes it; it returns NULL and changes nothing only if all 32 are open.
pub net_socket_create-Opened :
    (n : Net) (protocol : ℕ)
    → let (r, t) = net_socket_create n protocol in
      ((i : ℕ) × (r ≡ some i) × Opened n protocol i t)
      ⊎ ((r ≡ none) × (t ≡ n) × ((j : ℕ) → j < max_sockets → (n.sockets j).is_open ≡ true))
unfolding net_socket_create net_socket_close
net_socket_create-Opened n protocol =
    elim (Option-cases (first_index max_sockets 0 (λ i. not (n.sockets i).is_open))) [
      | inl e ↦
          rw (e, net_socket_create)
            (inr (refl, refl, λ j lt. ground (arith, first_index-none max_sockets 0 _ e j)))
      | inr (i, e) ↦
          let f = first_index-IsFirst max_sockets 0 _ e in
          let new : Socket = record {
            id = i;
            protocol = protocol;
            local_port = 0;
            remote_port = 0;
            remote_ip = (n.sockets i).remote_ip;
            is_open = true;
          } in
          let closed : (n.sockets i).is_open ≡ false = ground (arith, f.passes) in
          rw (e, net_socket_create)
            (inl (
              i,
              refl,
              record {
                in_range = omega (arith, f.below);
                was_closed = closed;
                lowest = λ j lt. ground (arith, f.before j);
                socket = update_self n.sockets i new;
                others = λ j ne. update_ne n.sockets i new j ne;
                device = refl;
                undone = λ j.
                    let shut : Socket = record new { is_open = false } in
                    elim (Bool-cases (j == i)) [
                      | inl g ↦
                          rw (if_true g)
                            (sym (ap (λ z. (n.sockets z).is_open) (==→eq j i g) ∙ closed))
                      | inr g ↦ rw (if_false g, if_false g) refl
                    ];
              },
            ))
    ]
