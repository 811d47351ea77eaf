-- ===== src/Driver/Messages.antt =====
-- Messages of module/new/binder.c: how large they are, and how they get into and out of queues.
use android_binder_ipc.Common.{
  ℕ, ◌+◌, ◌*◌, ◌/◌, ◌%◌, ◌^◌, Option, none, some, [], ◌∷◌, ok, err, enodev, enomem, if◌then◌else◌,
  leb, ◌==◌,
}
use android_binder_ipc.MsgQueue.{kept, freed, bug, get_msg_queue, put_msg_queue}
use android_binder_ipc.MsgQueue.Wait.{
  Outcome, returns, asleep, dangling, write_msg_queue, write_msg_queue_head, read_msg_queue,
}
use android_binder_ipc.Driver.World.{
  M, back, stuck, pure, fail, ◌>>=◌, ◌>>◌, attempt, kmalloc, Msg, MsgType, Handler, result,
}

-- sizeof(struct bcmd_msg), sizeof(struct bcmd_msg_buf), sizeof(size_t), sizeof(msg_queue_id)
abbrev pub msg_struct : ℕ
msg_struct = 80

abbrev pub buf_struct : ℕ
buf_struct = 20

abbrev pub word_size : ℕ
word_size = 4

-- MSG_BUF_ALIGN
unfoldable pub msg_buf_align : ℕ → ℕ
msg_buf_align n = if n % word_size == 0 then n else (n + 3) % 2 ^ 32 / word_size * word_size

-- The size of a message with its two headers and the owners of its objects.
unfoldable pub msg_size : ℕ → ℕ
msg_size offsets_size =
    (msg_struct + (buf_struct + offsets_size / word_size * word_size) % 2 ^ 32) % 2 ^ 32

-- What binder_alloc_msg asks kmalloc for, as the 32-bit sum that it computes.
unfoldable pub buf_bytes : ℕ → ℕ → ℕ
unfolding msg_buf_align msg_size
buf_bytes data_size offsets_size =
    (msg_size offsets_size + msg_buf_align data_size + msg_buf_align offsets_size) % 2 ^ 32

-- The fields that the source leaves as kmalloc returned them are zero here.
unfoldable pub blank : ℕ → ℕ → Msg
unfolding buf_bytes
blank data_size offsets_size = record {
  binder = 0;
  cookie = 0;
  type = MsgType.bc_transaction;
  code = 0;
  flags = 0;
  buf = record {
    data_bytes = [];
    offsets = [];
    data_size = data_size;
    offsets_size = offsets_size;
    buf_size = buf_bytes data_size offsets_size;
    owners = [];
  };
  sender_pid = 0;
  sender_euid = 0;
  reply_to = 0;
  traces = [];
}

-- `none` is NULL.
unfoldable pub binder_alloc_msg : ℕ → ℕ → M (Option Msg)
unfolding blank kmalloc
binder_alloc_msg data_size offsets_size = do
  there ← kmalloc
  pure (if there then some (blank data_size offsets_size) else none)

-- A message that is large enough is used again, with its old size; any other is freed.
unfoldable pub binder_realloc_msg : Msg → ℕ → ℕ → M (Option Msg)
unfolding buf_bytes binder_alloc_msg
binder_realloc_msg msg data_size offsets_size =
    if leb (buf_bytes data_size offsets_size) msg.buf.buf_size
    then pure (
        some (record msg {
          buf = record msg.buf { data_size = data_size; offsets_size = offsets_size };
          traces = [];
        }))
    else binder_alloc_msg data_size offsets_size

-- A waiting loop of msg_queue.c, run by the calling thread.
abbrev pub wait_for : {A : Type 0} → Outcome Msg Handler A → M A
wait_for (returns r qs ws s) w =
    back r (record w { queues = record w.queues { all = qs }; wakes = ws; signal = s })
wait_for (asleep qs) w = stuck
wait_for dangling w = stuck

-- used by the queue owner
unfoldable pub own_read_msg : ℕ → M Msg
own_read_msg q w = wait_for (read_msg_queue q w.wakes w.signal w.queues.all) w

unfoldable pub own_write_msg : ℕ → Msg → M (Unit {0})
own_write_msg q msg w = wait_for (write_msg_queue q msg w.wakes w.signal w.queues.all) w

unfoldable pub own_write_msg_head : ℕ → Msg → M (Unit {0})
own_write_msg_head q msg w = wait_for (write_msg_queue_head q msg w.wakes w.signal w.queues.all) w

-- get_msg_queue, or -ENODEV
unfoldable pub get_queue : ℕ → M (Unit {0})
get_queue id w = elim (get_msg_queue id w.queues) [
  | none ↦ back (err enodev) w
  | some r ↦ back (ok tt) (record w { queues = r })
]

-- put_msg_queue, whose result the callers here ignore; a queue that is freed goes to its handler.
unfoldable pub put_queue : ℕ → M (Unit {0})
put_queue id w = elim (put_msg_queue id w.queues) [
  | none ↦ stuck
  | some p ↦ elim p [
    | kept r ↦ back (ok tt) (record w { queues = r })
    | freed q r ↦ back (ok tt) (record w { queues = r; released = q ∷ w.released })
    | bug ↦ stuck
  ]
]

-- used by any process
unfoldable pub bcmd_read_msg : ℕ → M Msg
unfolding get_queue own_read_msg put_queue
bcmd_read_msg id = do get_queue id; r ← attempt (own_read_msg id); put_queue id; result r

unfoldable pub bcmd_write_msg : ℕ → Msg → M (Unit {0})
unfolding get_queue own_write_msg put_queue
bcmd_write_msg id msg = do get_queue id; r ← attempt (own_write_msg id msg); put_queue id; result r

unfoldable pub bcmd_write_msg_head : ℕ → Msg → M (Unit {0})
unfolding get_queue own_write_msg_head put_queue
bcmd_write_msg_head id msg = do
  get_queue id
  r ← attempt (own_write_msg_head id msg)
  put_queue id
  result r

abbrev pub command : ℕ → ℕ → MsgType → Msg → Msg
command binder cookie cmd msg = record msg { type = cmd; binder = binder; cookie = cookie }

-- `_binder_write_cmd` and `binder_write_cmd`: kfree of a message that was not taken leaves nothing
-- to model.
unfoldable pub own_write_cmd : ℕ → ℕ → ℕ → MsgType → M (Unit {0})
unfolding binder_alloc_msg own_write_msg
own_write_cmd q binder cookie cmd = do
  m ← binder_alloc_msg 0 0
  elim m [ none ↦ fail enomem | some msg ↦ own_write_msg q (command binder cookie cmd msg) ]

unfoldable pub binder_write_cmd : ℕ → ℕ → ℕ → MsgType → M (Unit {0})
unfolding binder_alloc_msg bcmd_write_msg
binder_write_cmd q binder cookie cmd = do
  m ← binder_alloc_msg 0 0
  elim m [ none ↦ fail enomem | some msg ↦ bcmd_write_msg q (command binder cookie cmd msg) ]
