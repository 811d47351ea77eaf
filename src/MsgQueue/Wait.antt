-- ===== src/MsgQueue/Wait.antt =====
-- The waiting loops of `_write_msg_queue` and `_read_msg_queue` in module/new/msg_queue.c. While a
-- thread sleeps in schedule() the others run: each wake-up says what they did to all queues, and
-- whether a signal is then pending.
pub mod Signals
use android_binder_ipc.Common.{
  ℕ, ◌+◌, ◌-◌, Bool, true, false, Option, none, some, List, [], ◌∷◌, ◌≡◌, ◌≢◌, refl, arith, Result,
  ok, err, Errno, Option-cases, inl, inr, ◌⊎◌,
}
use android_binder_ipc.MsgQueue.{
  Queue, Queues, Round, exits, sleeps, faults, rb_queue_exist, modify, write_round, read_round,
}

pub record Wake (M H : Type 0) : Type 0 where
  pub others : List (Queue M H) → List (Queue M H)
  pub signal : Bool

-- What a waiting loop comes to. `asleep` is a thread that nothing wakes again, with the queues at
-- that time; `dangling` is a queue that is gone while it is used.
pub data Outcome (M H A : Type 0) : Type 0 where
  returns : Result A → List (Queue M H) → List (Wake M H) → Bool → Outcome M H A
  asleep : List (Queue M H) → Outcome M H A
  dangling : Outcome M H A

module _ {M H A : Type 0} (id : ℕ) (round : Bool → Queue M H → Round M H A) where
  -- The do-while loop that both functions share.
  pub wait_loop : List (Wake M H) → Bool → List (Queue M H) → Outcome M H A
  wait_loop [] signal qs = elim (rb_queue_exist id qs) [
    | none ↦ dangling
    | some q ↦ elim (round signal q) [
      | exits r q' ↦ returns r (modify id (λ _. q') qs) [] signal
      | sleeps ↦ asleep qs
      | faults ↦ dangling
    ]
  ]
  wait_loop (w ∷ ws) signal qs = elim (rb_queue_exist id qs) [
    | none ↦ dangling
    | some q ↦ elim (round signal q) [
      | exits r q' ↦ returns r (modify id (λ _. q') qs) (w ∷ ws) signal
      | sleeps ↦ wait_loop ws w.signal (w.others qs)
      | faults ↦ dangling
    ]
  ]

module _ {M H : Type 0} where
  -- add_wait_queue and remove_wait_queue around a loop
  on_queues : {A : Type 0} → (List (Queue M H) → List (Queue M H)) → Outcome M H A → Outcome M H A
  on_queues f (returns r qs ws signal) = returns r (f qs) ws signal
  on_queues f (asleep qs) = asleep qs
  on_queues f dangling = dangling

  add_writer : ℕ → List (Queue M H) → List (Queue M H)
  add_writer id = modify id (λ q. record q { wr_wait = q.wr_wait + 1 })

  remove_writer : ℕ → List (Queue M H) → List (Queue M H)
  remove_writer id = modify id (λ q. record q { wr_wait = q.wr_wait - 1 })

  add_reader : ℕ → List (Queue M H) → List (Queue M H)
  add_reader id = modify id (λ q. record q { rd_wait = q.rd_wait + 1 })

  remove_reader : ℕ → List (Queue M H) → List (Queue M H)
  remove_reader id = modify id (λ q. record q { rd_wait = q.rd_wait - 1 })

  pub write_queue :
      ℕ → M → Bool → List (Wake M H) → Bool → List (Queue M H) → Outcome M H (Unit {0})
  unfolding wait_loop on_queues add_writer remove_writer
  write_queue id msg head ws signal qs =
      on_queues (remove_writer id)
        (wait_loop id (write_round msg head) ws signal (add_writer id qs))

  -- The message is what `*pmsg` is set to.
  pub read_queue : ℕ → Bool → List (Wake M H) → Bool → List (Queue M H) → Outcome M H M
  unfolding wait_loop on_queues add_reader remove_reader
  read_queue id tail ws signal qs =
      on_queues (remove_reader id) (wait_loop id (read_round tail) ws signal (add_reader id qs))

  pub write_msg_queue : ℕ → M → List (Wake M H) → Bool → List (Queue M H) → Outcome M H (Unit {0})
  write_msg_queue id msg = write_queue id msg false

  pub write_msg_queue_head :
      ℕ → M → List (Wake M H) → Bool → List (Queue M H) → Outcome M H (Unit {0})
  write_msg_queue_head id msg = write_queue id msg true

  pub read_msg_queue : ℕ → List (Wake M H) → Bool → List (Queue M H) → Outcome M H M
  read_msg_queue id = read_queue id false

  pub read_msg_queue_tail : ℕ → List (Wake M H) → Bool → List (Queue M H) → Outcome M H M
  read_msg_queue_tail id = read_queue id true
