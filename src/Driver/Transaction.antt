-- ===== src/Driver/Transaction.antt =====
-- `bcmd_write_transaction` of module/new/binder.c: a transaction or a reply on its way out.
use android_binder_ipc.Common.{
  ℕ, ◌%◌, Bool, not, ◌&&◌, Option, none, some, List, [], ◌∷◌, ok, err, if◌then◌else◌, ltb, ◌==◌,
}
use android_binder_ipc.Common.Int.{inc}
use android_binder_ipc.Driver.World.{
  World, M, back, pure, ◌>>=◌, ◌>>◌, attempt, get, update_thread, Msg, MsgBuf, MsgType, Obj,
}
use android_binder_ipc.Driver.Messages.{
  binder_alloc_msg, binder_realloc_msg, own_write_cmd, bcmd_write_msg,
}
use android_binder_ipc.Driver.Objects.{find, keyed, binder_find_obj_by_ref}
use android_binder_ipc.Driver.Transfer.{bcmd_write_msg_buf, clear_msg_buf}
use android_binder_ipc.Driver.Traces.{bcmd_fill_traces, bcmd_lookup_caller}

-- `struct binder_transaction_data`, as far as the driver reads it.
pub record Tdata : Type 0 where
  pub target : ℕ
  pub code : ℕ
  pub flags : ℕ
  pub data_size : ℕ
  pub offsets_size : ℕ
  pub buffer : ℕ
  pub offsets : ℕ

-- flags & TF_ONE_WAY
abbrev pub one_way : ℕ → Bool
one_way flags = flags % 2 == 1

-- A message with its destination and what it says of the target.
pub record Draft : Type 0 where
  pub msg : Msg
  pub to_id : ℕ
  pub binder : ℕ
  pub cookie : ℕ

-- context_mgr_obj, as it stands now
unfoldable pub context_mgr : World → Option Obj
unfolding find
context_mgr w = elim w.context_mgr_obj [
  | none ↦ none
  | some p ↦ find (keyed p.table p.owner p.binder) w.objs
]

-- The object that a handle names; handle 0 is the context manager.
unfoldable pub target_obj : ℕ → World → Option Obj
unfolding context_mgr binder_find_obj_by_ref
target_obj handle w = if handle == 0 then context_mgr w else binder_find_obj_by_ref handle w

-- The traces and the destination of a call that waits for its reply.
unfoldable pub route : Tdata → Obj → Msg → World → Option Draft
unfolding bcmd_fill_traces bcmd_lookup_caller
route tdata obj msg w =
    let (traces, full) = bcmd_fill_traces w.proc w.thread in
    if one_way tdata.flags
    then some (record { msg = msg; to_id = obj.owner; binder = obj.binder; cookie = obj.cookie })
    else if full
    then none
    else some (record {
      msg = record msg { traces = traces };
      to_id = bcmd_lookup_caller w.thread obj.owner;
      binder = obj.binder;
      cookie = obj.cookie;
    })

-- The first half for BC_TRANSACTION; `none` is `goto failed_reply` or `failed_msg`.
unfoldable pub draft_call : Tdata → M (Option Draft)
unfolding target_obj binder_alloc_msg route
draft_call tdata = do
  w ← get
  elim (target_obj tdata.target w) [
    | none ↦ pure none
    | some obj ↦ do
      m ← binder_alloc_msg tdata.data_size tdata.offsets_size
      elim m [ none ↦ pure none | some msg ↦ λ w'. back (ok (route tdata obj msg w')) w' ]
  ]

-- The newest of these incoming transactions is answered, in its own message.
unfoldable pub answer : Tdata → List Msg → M (Option Draft)
unfolding binder_realloc_msg
answer tdata [] = pure none
answer tdata (first ∷ others) = do
  update_thread (λ t. record t { incoming_transactions = others })
  m ← binder_realloc_msg first tdata.data_size tdata.offsets_size
  elim m [
    | none ↦ pure none
    | some msg ↦ pure (some (record { msg = msg; to_id = first.reply_to; binder = 0; cookie = 0 }))
  ]

-- The first half for BC_REPLY.
unfoldable pub draft_reply : Tdata → M (Option Draft)
unfolding answer
draft_reply tdata = do w ← get; answer tdata w.thread.incoming_transactions

unfoldable pub failed_reply : M (Unit {0})
unfolding own_write_cmd
failed_reply = do w ← get; own_write_cmd w.thread.queue 0 0 MsgType.br_failed_reply

unfoldable pub failed_write : MsgBuf → M (Unit {0})
unfolding clear_msg_buf failed_reply
failed_write buf = do r ← attempt (clear_msg_buf buf); failed_reply

-- The header of the message, by the calling thread.
abbrev pub filled : Tdata → Bool → Draft → World → Msg
filled tdata reply d w = record d.msg {
  type = if reply then MsgType.bc_reply else MsgType.bc_transaction;
  binder = d.binder;
  cookie = d.cookie;
  code = tdata.code;
  flags = tdata.flags;
  sender_pid = w.proc.pid;
  sender_euid = w.euid;
  reply_to = w.thread.queue;
}

-- The data is copied in, with its objects.
unfoldable pub load : (ℕ → ℕ) → Tdata → Msg → M MsgBuf
unfolding bcmd_write_msg_buf
load fget tdata msg =
    if ltb 0 tdata.data_size
    then bcmd_write_msg_buf fget msg.buf tdata.buffer tdata.offsets
    else pure msg.buf

-- The second half: BR_TRANSACTION_COMPLETE to the caller, then the message to its destination.
unfoldable pub deliver : Tdata → Bool → ℕ → Msg → M (Unit {0})
unfolding own_write_cmd bcmd_write_msg failed_write
deliver tdata reply to_id msg = do
  w ← get
  told ←
      attempt (own_write_cmd w.thread.queue msg.binder msg.cookie MsgType.br_transaction_complete)
  elim told [
    | err e ↦ failed_write msg.buf
    | ok u ↦ do
      sent ← attempt (bcmd_write_msg to_id msg)
      elim sent [
        | err e ↦ failed_write msg.buf
        | ok v ↦
            if not reply && not (one_way tdata.flags)
            then update_thread (λ t. record t { pending_replies = inc t.pending_replies })
            else pure tt
      ]
  ]

unfoldable pub bcmd_write_transaction : (ℕ → ℕ) → Tdata → Bool → M (Unit {0})
unfolding draft_call draft_reply load deliver failed_reply
bcmd_write_transaction fget tdata reply = do
  draft ← if reply then draft_reply tdata else draft_call tdata
  elim draft [
    | none ↦ failed_reply
    | some d ↦ do
      w ← get
      let msg = filled tdata reply d w
      loaded ← attempt (load fget tdata msg)
      elim loaded [
        | err e ↦ failed_reply
        | ok buf ↦ deliver tdata reply d.to_id (record msg { buf = buf })
      ]
  ]
