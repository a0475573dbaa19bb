-- ===== src/Ipc/Tests.antt =====
-- Runs of kernel/ipc.c on small inputs, and the theorems at inputs that meet their hypotheses.
use my_operating_system_open.Prelude.{
  ℕ, refl, true, false, none, some, List, [], arith, ◌+◌, ◌≡◌, ◌⊎◌, ◌∷◌, update,
}
use my_operating_system_open.Ipc.{
  Pipe, Message, MsgQueue, Ipc, pipe_write, pipe_read, msgqueue_send, msgqueue_receive,
}
use my_operating_system_open.Ipc.Pipes.{IsPipe}
use my_operating_system_open.Ipc.Fifo.{Op, put, get, wrote, got, run, fifo, run-fifo}
use my_operating_system_open.Ipc.Queues.{IsQueue, Sent, msgqueue_send-Sent}
use my_operating_system_open.Ipc.Queues

-- An open pipe whose three bytes 8, 9, 7 go round the end of the buffer.
abbrev wrapped : Pipe
wrapped = record {
  buffer = update (update (update (λ _. 0) 4095 8) 0 9) 1 7;
  read_pos = 4095;
  write_pos = 2;
  count = 3;
  reader_pid = 1;
  writer_pid = 2;
  is_open = true;
}

abbrev hello : Message
hello = record { sender_pid = 3; kind = 1; size = 0; bytes = λ _. 0 }

-- A queue with one message in its last slot.
abbrev mailbox : MsgQueue
mailbox = record {
  messages = λ _. hello;
  head = 15;
  tail = 0;
  count = 1;
  owner_pid = 4;
  is_open = true;
}

abbrev system : Ipc
system = record { pipes = λ _. wrapped; msg_queues = λ _. mailbox; initialized = false }

abbrev letters : ℕ → ℕ
letters i = 97 + i

abbrev script : List Op
script = put letters 2 ∷ get 4 ∷ get 9 ∷ []

wrapped-IsPipe : IsPipe wrapped
wrapped-IsPipe = omega arith

mailbox-IsQueue : IsQueue mailbox
mailbox-IsQueue = omega arith

run-script :
    run system 5 script
    ≡ wrote (some 2) ∷ got (some (8 ∷ 9 ∷ 7 ∷ 97 ∷ [])) ∷ got (some (98 ∷ [])) ∷ []
unfolding run pipe_write pipe_read
run-script = refl

run-fifo_example : run system 5 script ≡ fifo (8 ∷ 9 ∷ 7 ∷ []) script
run-fifo_example = run-fifo script system 5 wrapped-IsPipe refl

msgqueue_send-Sent_example :
    let (r, t) = msgqueue_send system (some 0) 7 2 (some letters) 3 in
    (r ≡ true) × Sent system 0 7 2 (some letters) 3 t
msgqueue_send-Sent_example = msgqueue_send-Sent system 0 mailbox-IsQueue 7 2 (some letters) 3 refl

msgqueue_receive-oldest_example :
    let (r, t) = msgqueue_receive system (some 0) true in
    ((Queues.contents mailbox ≡ []) × (r ≡ none) × (t ≡ system))
    ⊎ ((m : Message) × (r ≡ some m) × Queues.Received system 0 m t)
msgqueue_receive-oldest_example = Queues.msgqueue_receive-oldest system 0 mailbox-IsQueue refl
