-- ===== src/MsgQueue/Tests.antt =====
-- Runs of module/new/msg_queue.c on small queues.
use android_binder_ipc.Common.{
  ℕ, ◌+◌, true, false, none, some, List, [], ◌∷◌, ◌≡◌, ◌≢◌, refl, inr, arith, length,
}
use android_binder_ipc.MsgQueue.{
  Queue, Queues, freed, create_msg_queue, put_msg_queue, rb_queue_exist, write_round, read_round,
  next_id, take_entry, split_last,
}
use android_binder_ipc.MsgQueue.Registry.{put_last}
use android_binder_ipc.MsgQueue.Fresh.{create_total}
use android_binder_ipc.MsgQueue.Rounds.{IsValid}
use android_binder_ipc.MsgQueue.Fifo.{
  sends, receives, enters, leaves, Replays, serve, one_call, after_write, after_read, fifo_order,
}
use android_binder_ipc.MsgQueue.Wait.{Wake, write_queue, read_queue}
use android_binder_ipc.MsgQueue.Wait.Signals.{Returns, write-Returns, read-Returns}
use android_binder_ipc.MsgQueue.Tree.{Node, leaf, node, descend, descend-eq-exist}

abbrev Q : Type 0
Q = Queue ℕ ℕ

-- A queue of at most two messages that holds one.
abbrev half_full : Q
half_full = record {
  id = 5;
  active = true;
  num_msgs = 1;
  max_msgs = 2;
  msgs = 70 ∷ [];
  rd_wait = 0;
  wr_wait = 0;
  usage = 1;
  release = some 9;
}

abbrev other : Q
other = record half_full { id = 8; num_msgs = 2; msgs = 1 ∷ 2 ∷ [] }

abbrev new : Q
new = record {
  id = 6;
  active = true;
  num_msgs = 0;
  max_msgs = 100;
  msgs = [];
  rd_wait = 0;
  wr_wait = 0;
  usage = 1;
  release = none;
}

abbrev full : Q
full = record half_full { num_msgs = 2; msgs = 69 ∷ 70 ∷ [] }

abbrev two : Queues ℕ ℕ
two = record { seq = 4; all = half_full ∷ other ∷ [] }

half_full-IsValid : IsValid half_full
half_full-IsValid = omega arith

-- The numbers 5 and then 6 are tried: 5 is taken.
second_try : next_id 3 4 two.all ≡ some 6
unfolding next_id rb_queue_exist
second_try = refl

fifo_order_example :
    let t =
      serve half_full (sends 71 false false ∷ receives true false ∷ sends 72 true false ∷ []) in
    Replays t.events (70 ∷ []) t.queue.msgs × IsValid t.queue
fifo_order_example =
    fifo_order half_full (sends 71 false false ∷ receives true false ∷ sends 72 true false ∷ [])
      half_full-IsValid

-- The full queue refuses 73 to a writer with a signal; 71 leaves at the tail, 72 is next in line.
fifo_run :
    let t = serve half_full (
      sends 71 false false ∷ sends 73 true true ∷ receives true false ∷ sends 72 true false ∷ []) in
    (t.events ≡ enters 71 false ∷ leaves 71 true ∷ enters 72 true ∷ [])
    × (t.queue.msgs ≡ 72 ∷ 70 ∷ [])
unfolding serve one_call after_write after_read write_round read_round take_entry split_last
fifo_run = (refl, refl)

put_last_example :
    (r' : Queues ℕ ℕ) × (put_msg_queue 5 two ≡ some (freed (record half_full { usage = 0 }) r'))
    × (rb_queue_exist 5 r'.all ≡ none)
    × ((j : ℕ) → 5 ≢ j → rb_queue_exist j r'.all ≡ rb_queue_exist j two.all)
unfolding rb_queue_exist
put_last_example = put_last 5 two half_full (omega arith) refl refl refl refl

create_total_example :
    (id : ℕ) × (r' : Queues ℕ ℕ) × (create_msg_queue (length two.all + 1) true 7 none two
      ≡ some (id, r'))
create_total_example = create_total 7 none two (omega arith)

-- Nobody touches the queues, and the third wake-up comes with a signal.
abbrev signalled : List (Wake ℕ ℕ)
signalled =
    record { others = λ qs. qs; signal = false } ∷ record { others = λ qs. qs; signal = true } ∷ []

write-Returns_example : Returns (write_queue 8 3 false signalled false two.all)
unfolding rb_queue_exist
write-Returns_example =
    write-Returns 8 signalled false two.all (other, refl, omega arith) (inr (inr refl))
      (λ qs p. p, (λ qs p. p, tt)) 3 false

read-Returns_example :
    Returns
      (read_queue 7 true signalled false (record other { id = 7; num_msgs = 0; msgs = [] } ∷ []))
unfolding rb_queue_exist
read-Returns_example =
    read-Returns 7 signalled false (record other { id = 7; num_msgs = 0; msgs = [] } ∷ [])
      (record other { id = 7; num_msgs = 0; msgs = [] }, refl, omega arith) (inr (inr refl))
      (λ qs p. p, (λ qs p. p, tt)) true

abbrev tree : Node ℕ ℕ
tree = node (node leaf half_full leaf) other leaf

descend-eq-exist_example : descend 5 tree ≡ some half_full
unfolding rb_queue_exist
descend-eq-exist_example = descend-eq-exist 5 tree (omega arith)
