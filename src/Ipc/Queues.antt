-- ===== src/Ipc/Queues.antt =====
-- The message queues of kernel/ipc.c against a bounded queue of messages.
use native.Mathlib.Numerals.{add-one}
use my_operating_system_open.Prelude.{
  ℕ, refl, sym, ap, inl, inr, Bool, true, false, not, Option, none, some, List, [], arith, ◌+◌, ◌%◌,
  ◌≤◌, ◌<◌, ◌≡◌, ◌∙◌, ◌≢◌, ◌⊎◌, ◌||◌, ◌∷◌, ◌++◌, ◌==◌, if◌then◌else◌, ltb, leb, ==→eq, Bool-cases,
  if_true, if_false, update_self, update_ne,
}
use my_operating_system_open.Ring.{window, window-push, window-pop}
use my_operating_system_open.Ipc.{
  Message, MsgQueue, Ipc, msg_queue_size, msg_max_size, fill_message, msgqueue_send,
  msgqueue_receive,
}

pub record IsQueue (q : MsgQueue) : Type 0 where
  pub head_in : q.head < msg_queue_size
  pub count_in : q.count ≤ msg_queue_size
  pub ahead : q.tail ≡ (q.head + q.count) % msg_queue_size

-- The messages in a queue, oldest first.
abbrev pub contents : MsgQueue → List Message
contents q = window q.messages msg_queue_size q.head q.count

-- A message as `msgqueue_send` was given it.
pub record IsSent (sender kind size : ℕ) (src : Option (ℕ → ℕ)) (m : Message) : Type 0 where
  pub sender_kept : m.sender_pid ≡ sender
  pub kind_kept : m.kind ≡ kind
  pub size_kept : m.size ≡ size
  pub bytes_kept : (f : ℕ → ℕ) → src ≡ some f → (j : ℕ) → j < size → m.bytes j ≡ f j

fill_message-IsSent :
    (m : Message) (sender kind : ℕ) (src : Option (ℕ → ℕ)) (size : ℕ)
    → IsSent sender kind size src (fill_message m sender kind src size)
unfolding fill_message
fill_message-IsSent m sender kind none size = record {
  sender_kept = refl;
  kind_kept = refl;
  size_kept = refl;
  bytes_kept = λ f e j h. cc;
}
fill_message-IsSent m sender kind (some g) size = record {
  sender_kept = refl;
  kind_kept = refl;
  size_kept = refl;
  bytes_kept = λ f e j h. ground (arith, e);
}

-- The three conditions under which a message is accepted.
abbrev pub accepts : MsgQueue → ℕ → Bool
accepts q size =
    if not q.is_open || ltb msg_max_size size then false else not (leb msg_queue_size q.count)

-- What an accepted message does: it comes last, and nothing else changes.
pub record Sent (s : Ipc) (i sender kind : ℕ) (src : Option (ℕ → ℕ)) (size : ℕ) (t : Ipc)
    : Type 0 where
  pub message : Message
  pub is_sent : IsSent sender kind size src message
  pub appended : contents (t.msg_queues i) ≡ contents (s.msg_queues i) ++ (message ∷ [])
  pub valid : IsQueue (t.msg_queues i)
  pub others : (j : ℕ) → j ≢ i → t.msg_queues j ≡ s.msg_queues j

-- What taking a message does: it was the first, and nothing else changes.
pub record Received (s : Ipc) (i : ℕ) (m : Message) (t : Ipc) : Type 0 where
  pub first : contents (s.msg_queues i) ≡ m ∷ contents (t.msg_queues i)
  pub valid : IsQueue (t.msg_queues i)
  pub others : (j : ℕ) → j ≢ i → t.msg_queues j ≡ s.msg_queues j

module _ (s : Ipc) (i : ℕ) (v : IsQueue (s.msg_queues i)) where
  -- On a well-formed queue, a message that is accepted (the queue is open and not full, and the
  -- size is at most MSG_MAX_SIZE) reports success and is appended with its sender, its type, its
  -- size and its bytes, and the queue stays well-formed.
  pub msgqueue_send-Sent :
      (sender kind : ℕ) (src : Option (ℕ → ℕ)) (size : ℕ)
      → accepts (s.msg_queues i) size ≡ true
      → let (r, t) = msgqueue_send s (some i) sender kind src size in
        (r ≡ true) × Sent s i sender kind src size t
  unfolding msgqueue_send
  msgqueue_send-Sent sender kind src size a =
      let q = s.msg_queues i in
      let shut : (not q.is_open || ltb msg_max_size size) ≡ false = ground arith in
      let full : leb msg_queue_size q.count ≡ false = ground arith in
      let room : q.count < msg_queue_size = ground arith in
      rw (if_false shut, if_false full)
        (
          refl,
          record {
            message = fill_message (q.messages q.tail) sender kind src size;
            is_sent = fill_message-IsSent (q.messages q.tail) sender kind src size;
            appended =
                ap contents (update_self s.msg_queues i _)
                ∙ rw (add-one q.count) (
                    window-push q.messages msg_queue_size q.head q.count q.tail
                      (fill_message (q.messages q.tail) sender kind src size) v.head_in room
                      v.ahead);
            valid = rw (update_self s.msg_queues i) (ground arith);
            others = λ j ne. update_ne s.msg_queues i _ j ne;
          },
        )

  -- A message that is not accepted reports failure and changes nothing.
  pub msgqueue_send-rejected :
      (sender kind : ℕ) (src : Option (ℕ → ℕ)) (size : ℕ)
      → accepts (s.msg_queues i) size ≡ false
      → msgqueue_send s (some i) sender kind src size ≡ (false, s)
  unfolding msgqueue_send
  msgqueue_send-rejected sender kind src size a = ground arith

  -- On a well-formed open queue, `msgqueue_receive` into a buffer hands out the oldest message,
  -- leaves the others in order, keeps the queue well-formed and changes no other queue; if there is
  -- no message, it fails and changes nothing.
  pub msgqueue_receive-oldest :
      (s.msg_queues i).is_open ≡ true
      → let (r, t) = msgqueue_receive s (some i) true in
        ((contents (s.msg_queues i) ≡ []) × (r ≡ none) × (t ≡ s))
        ⊎ ((m : Message) × (r ≡ some m) × Received s i m t)
  unfolding msgqueue_receive
  msgqueue_receive-oldest o =
      let q = s.msg_queues i in
      let shut : (not q.is_open || not true) ≡ false = ground arith in
      elim (Bool-cases (q.count == 0)) [
        | inl e ↦
            rw (if_false shut, if_true e)
              (inl (ap (window q.messages msg_queue_size q.head) (==→eq q.count 0 e), refl, refl))
        | inr e ↦
            rw (if_false shut, if_false e)
              (inr (
                q.messages q.head,
                refl,
                record {
                  first =
                      window-pop q.messages msg_queue_size q.head q.count (ground arith)
                      ∙ ap (λ r. q.messages q.head ∷ contents r)
                          (sym (update_self s.msg_queues i _));
                  valid = rw (update_self s.msg_queues i) (ground arith);
                  others = λ j ne. update_ne s.msg_queues i _ j ne;
                },
              ))
      ]
