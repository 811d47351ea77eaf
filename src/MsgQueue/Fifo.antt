-- ===== src/MsgQueue/Fifo.antt =====
-- The messages of a queue of module/new/msg_queue.c: none is lost or doubled, and each comes out of
-- the end that the reader asked for.
use android_binder_ipc.Common.{
  Bool, List, [], ◌∷◌, ◌++◌, ◌≡◌, refl, subst, ok, err, arith, some, inl, inr, Option-cases,
  if◌then◌else◌,
}
use android_binder_ipc.MsgQueue.{
  Queue, Round, exits, sleeps, faults, take_entry, write_round, read_round,
}
use android_binder_ipc.MsgQueue.Rounds.{
  IsValid, append-split_last, write_round-IsValid, read_round-IsValid,
}

-- Threads write and read at either end, in any order: `sends m head signal` is one round of
-- write_msg_queue_head or write_msg_queue, `receives tail signal` one of read_msg_queue_tail or
-- read_msg_queue.
pub data Op (M : Type 0) : Type 0 where
  sends : M → Bool → Bool → Op M
  receives : Bool → Bool → Op M

-- What came of a call: a message went in at the head or the tail, or came out there.
pub data Event (M : Type 0) : Type 0 where
  enters : M → Bool → Event M
  leaves : M → Bool → Event M

-- The events in their order, with the queue behind them.
pub record Traffic (M H : Type 0) : Type 0 where
  pub events : List (Event M)
  pub queue : Queue M H

-- A double-ended queue goes through the events from `ms` to `ms'`. What leaves it is what stands at
-- that end.
unfoldable pub Replays : {M : Type 0} → List (Event M) → List M → List M → Type 0
Replays [] ms ms' = ms ≡ ms'
Replays (enters m head ∷ events) ms ms' = Replays events (if head then m ∷ ms else ms ++ m ∷ []) ms'
Replays {M} (leaves m tail ∷ events) ms ms' =
    (rest : List M) × (ms ≡ (if tail then rest ++ m ∷ [] else m ∷ rest)) × Replays events rest ms'

module _ {M : Type 0} where
  take_entry-append :
      (tail : Bool) (m : M) (ms rest : List M)
      → take_entry tail ms ≡ some (m, rest)
      → ms ≡ (if tail then rest ++ m ∷ [] else m ∷ rest)
  unfolding take_entry
  take_entry-append tail m [] rest e = ground arith
  take_entry-append tail m (x ∷ ms) rest e = ground (arith, append-split_last x ms)

module _ {M H : Type 0} where
  unfoldable pub after_write : M → Bool → Queue M H → Round M H (Unit {0}) → Traffic M H
  after_write m head q (exits (ok u) q') = record { events = enters m head ∷ []; queue = q' }
  after_write m head q (exits (err e) q') = record { events = []; queue = q' }
  after_write m head q sleeps = record { events = []; queue = q }
  after_write m head q faults = record { events = []; queue = q }

  unfoldable pub after_read : Bool → Queue M H → Round M H M → Traffic M H
  after_read tail q (exits (ok m) q') = record { events = leaves m tail ∷ []; queue = q' }
  after_read tail q (exits (err e) q') = record { events = []; queue = q' }
  after_read tail q sleeps = record { events = []; queue = q }
  after_read tail q faults = record { events = []; queue = q }

  unfoldable pub one_call : Queue M H → Op M → Traffic M H
  one_call q (sends m head signal) = after_write m head q (write_round m head signal q)
  one_call q (receives tail signal) = after_read tail q (read_round tail signal q)

  unfoldable pub serve : Queue M H → List (Op M) → Traffic M H
  serve q [] = record { events = []; queue = q }
  serve q (op ∷ ops) =
      let now = one_call q op in
      let later = serve now.queue ops in
      record { events = now.events ++ later.events; queue = later.queue }

  -- Going on behind one call.
  record Follows (q : Queue M H) (t : Traffic M H) : Type 0 where
    valid : IsValid t.queue
    replays :
        (events : List (Event M)) (ms : List M)
        → Replays events t.queue.msgs ms
        → Replays (t.events ++ events) q.msgs ms

  same-Follows :
      (q q' : Queue M H) → IsValid q → q' ≡ q → Follows q (record { events = []; queue = q' })
  same-Follows q q' v e = record {
    valid = rw e v;
    replays = λ events ms r. subst (λ x. Replays events x.msgs ms) e r;
  }

  after_write-Follows :
      (m : M) (head signal : Bool) (q : Queue M H) (o : Round M H (Unit {0}))
      → IsValid q
      → write_round m head signal q ≡ o
      → Follows q (after_write m head q o)
  unfolding after_write write_round Replays
  after_write-Follows m head signal q (exits (ok u) q') v e =
      let added : q'.msgs ≡ (if head then m ∷ q.msgs else q.msgs ++ m ∷ []) = ground arith in
      record {
        valid = write_round-IsValid m head signal q q' (ok u) v e;
        replays = λ events ms r. subst (λ x. Replays events x ms) added r;
      }
  after_write-Follows m head signal q (exits (err x) q') v e = same-Follows q q' v (ground arith)
  after_write-Follows m head signal q sleeps v e = same-Follows q q v refl
  after_write-Follows m head signal q faults v e = same-Follows q q v refl

  after_read-Follows :
      (tail signal : Bool) (q : Queue M H) (o : Round M H M)
      → IsValid q
      → read_round tail signal q ≡ o
      → Follows q (after_read tail q o)
  unfolding after_read read_round Replays
  after_read-Follows tail signal q (exits (ok m) q') v e = record {
    valid = read_round-IsValid tail signal q q' (ok m) v e;
    replays = λ events ms r. elim (Option-cases (take_entry tail q.msgs)) [
      | inl empty ↦ ground arith
      | inr ((x, rest), taken) ↦
          (q'.msgs, take_entry-append tail m q.msgs q'.msgs (ground arith), r)
    ];
  }
  after_read-Follows tail signal q (exits (err x) q') v e = same-Follows q q' v (ground arith)
  after_read-Follows tail signal q sleeps v e = same-Follows q q v refl
  after_read-Follows tail signal q faults v e = same-Follows q q v refl

  one_call-Follows : (q : Queue M H) (op : Op M) → IsValid q → Follows q (one_call q op)
  unfolding one_call
  one_call-Follows q (sends m head signal) v = after_write-Follows m head signal q _ v refl
  one_call-Follows q (receives tail signal) v = after_read-Follows tail signal q _ v refl

  -- Whatever rounds of write_msg_queue, write_msg_queue_head, read_msg_queue and
  -- read_msg_queue_tail a valid queue goes through, in whatever order, with a signal pending or
  -- not: the messages that were written, each at its end, and those that were read, each from its
  -- end, take a double-ended queue from the messages at first to the messages at last; and the
  -- count and the limit of the queue hold.
  pub fifo_order :
      (q : Queue M H) (ops : List (Op M))
      → IsValid q
      → let t = serve q ops in Replays t.events q.msgs t.queue.msgs × IsValid t.queue
  unfolding serve Replays
  fifo_order q [] v = (refl, v)
  fifo_order q (op ∷ ops) v =
      let now = one_call-Follows q op v in
      let later = fifo_order (one_call q op).queue ops now.valid in
      (now.replays _ _ later.0, later.1)
