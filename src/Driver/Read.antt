-- ===== src/Driver/Read.antt =====
-- `binder_thread_read` of module/new/binder.c: what a thread gets to read, message after message,
-- until one of them has an answer for the user.
pub mod Balance
pub mod Complete
use android_binder_ipc.Common.{
  ℕ, zero, suc, ◌+◌, ◌-◌, Bool, true, false, not, ◌&&◌, ◌||◌, Option, none, some, List, [], ◌∷◌,
  Result, ok, err, Errno, enospc, if◌then◌else◌, ltb, ◌==◌,
}
use android_binder_ipc.Common.Int.{ℤ, pos, inc, dec, ltb_ℤ}
use android_binder_ipc.MsgQueue.{Queue, rb_queue_exist, msg_queue_empty}
use android_binder_ipc.Driver.World.{
  World, M, Exit, back, stuck, pure, fail, ◌>>=◌, ◌>>◌, attempt, get, update_proc, result, Msg,
  MsgType, Proc, Thread, Handler,
}
use android_binder_ipc.Driver.Messages.{own_read_msg, own_write_msg_head}
use android_binder_ipc.Driver.Looper.{ready, bcmd_spawn_on_busy}
use android_binder_ipc.Driver.Handlers.{
  bcmd_read_notifier, bcmd_read_transaction_complete, bcmd_read_dead_binder, bcmd_read_dead_reply,
  bcmd_read_acquire,
}
use android_binder_ipc.Driver.Buffers.{bcmd_read_transaction}

-- The number of messages of a queue that the caller holds.
unfoldable pub queue_length : ℕ → M ℕ
queue_length id w = elim (rb_queue_exist id w.queues.all) [
  | none ↦ stuck
  | some q ↦ back (ok q.num_msgs) w
]

-- The switch over the messages.
unfoldable pub dispatch : (ℕ → Option ℕ) → Msg → ℕ → M ℕ
dispatch unused_fd msg size = elim msg.type [
  | MsgType.bc_transaction ↦ bcmd_read_transaction unused_fd msg size
  | MsgType.bc_reply ↦ bcmd_read_transaction unused_fd msg size
  | MsgType.br_transaction_complete ↦ bcmd_read_transaction_complete msg size
  | MsgType.bc_acquire ↦ bcmd_read_acquire msg size
  | MsgType.bc_release ↦ bcmd_read_acquire msg size
  | MsgType.br_acquire ↦ bcmd_read_acquire msg size
  | MsgType.br_release ↦ bcmd_read_acquire msg size
  | MsgType.bc_request_death_notification ↦ bcmd_read_notifier msg size
  | MsgType.bc_clear_death_notification ↦ bcmd_read_notifier msg size
  | MsgType.br_clear_death_notification_done ↦ bcmd_read_notifier msg size
  | MsgType.br_dead_binder ↦ bcmd_read_dead_binder msg size
  | MsgType.br_dead_reply ↦ bcmd_read_dead_reply msg size
  | MsgType.br_failed_reply ↦ bcmd_read_dead_reply msg size
]

-- force_return, where a handler has returned `n`
unfoldable pub forces : MsgType → ℕ → Bool
forces t n = elim t [
  | MsgType.bc_acquire ↦ ltb 0 n
  | MsgType.bc_release ↦ ltb 0 n
  | MsgType.br_acquire ↦ ltb 0 n
  | MsgType.br_release ↦ ltb 0 n
  | MsgType.bc_request_death_notification ↦ ltb 0 n
  | MsgType.bc_clear_death_notification ↦ ltb 0 n
  | MsgType.br_clear_death_notification_done ↦ ltb 0 n
  | _ ↦ true
]

-- The thread counts itself among the loopers of its process, or no longer.
unfoldable pub count_looper : Bool → (ℤ → ℤ) → M (Unit {0})
count_looper proc_looper f w =
    if proc_looper
    then back (ok tt) (record w { proc = record w.proc { proc_loopers = f w.proc.proc_loopers } })
    else back (ok tt) w

-- Whether the thread reads from the queue of its process: it waits for no reply, and nothing is there
-- for it.
unfoldable pub turn : M Bool
unfolding queue_length
turn = do
  w ← get
  own ← queue_length w.thread.queue
  pure (not (ltb_ℤ (pos 0) w.thread.pending_replies) && ltb own 1)

-- What a round leaves for the loop: another round, or what the function returns at its end.
pub data Round : Type 0 where
  again : Round
  leave : Result ℕ → Round

-- A message that has no room goes back to the head of its queue; any other error ends the loop.
unfoldable pub give_back : ℕ → Msg → Errno → M Round
give_back q msg Errno.enospc = do
  r ← attempt (own_write_msg_head q msg)
  elim r [ ok u ↦ pure (Round.leave (ok 0)) | err e ↦ pure (Round.leave (err e)) ]
give_back q msg e = pure (Round.leave (err e))

-- A message that has been read, from that queue, with so much room in the buffer.
unfoldable pub handle : (ℕ → Option ℕ) → ℕ → Msg → ℕ → M Round
unfolding dispatch give_back
handle unused_fd q msg size = do
  r ← attempt (dispatch unused_fd msg size)
  elim r [
    | ok n ↦ pure (if forces msg.type n then Round.leave (ok n) else Round.again)
    | err e ↦ give_back q msg e
  ]

-- The read of a round and what follows it. A looper of the process stops counting as one when it has
-- a message, or when the round fails.
unfoldable pub take_message : (ℕ → Option ℕ) → Bool → ℕ → ℕ → M Round
unfolding count_looper handle
take_message unused_fd proc_looper q size = do
  r ← attempt (own_read_msg q)
  count_looper proc_looper dec
  elim r [ ok msg ↦ handle unused_fd q msg size | err e ↦ pure (Round.leave (err e)) ]

-- One round. `last` is the value of n that the function returns if there is nothing to wait for.
unfoldable pub read_one : (ℕ → Option ℕ) → ℕ → Result ℕ → M Round
unfolding turn count_looper queue_length take_message
read_one unused_fd size last = do
  w ← get
  proc_looper ← turn
  let q = if proc_looper then w.proc.queue else w.thread.queue
  count_looper proc_looper inc
  n ← queue_length q
  elim (ltb n 1 && w.thread.non_block) [
    | true ↦ do count_looper proc_looper dec; pure (Round.leave last)
    | false ↦ take_message unused_fd proc_looper q size
  ]

-- The loop. No round but the last one writes to the user's buffer, so that its room stays the same,
-- and n is 0 behind every other.
unfoldable pub read_loop : ℕ → (ℕ → Option ℕ) → ℕ → Result ℕ → M ℕ
unfolding read_one
read_loop zero unused_fd size last = λ w. stuck
read_loop (suc fuel) unused_fd size last = elim (ltb size 4) [
  | true ↦ result last
  | false ↦ do
    r ← read_one unused_fd size last
    elim r [ Round.again ↦ read_loop fuel unused_fd size (ok 0) | Round.leave n ↦ result n ]
]

-- What is returned while nothing has been read.
abbrev pub nothing_read : Result ℕ → Result ℕ
nothing_read (ok n) = ok 0
nothing_read (err e) = err e

-- `n0` is what stands in n, which the source does not set unless the thread is ready.
unfoldable pub binder_thread_read : ℕ → (ℕ → Option ℕ) → Result ℕ → ℕ → M ℕ
unfolding queue_length read_loop
binder_thread_read fuel unused_fd n0 size = do
  w ← get
  elim (ready w.thread) [
    | false ↦ read_loop fuel unused_fd size (nothing_read n0)
    | true ↦ do
      busy ← queue_length w.proc.queue
      n ← bcmd_spawn_on_busy (pos busy) size
      elim (n == 0) [ true ↦ read_loop fuel unused_fd size (ok 0) | false ↦ pure n ]
  ]
