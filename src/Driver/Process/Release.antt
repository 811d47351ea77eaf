-- ===== src/Driver/Process/Release.antt =====
-- What becomes of the messages and objects behind a queue that is released: `clear_msg_queue`,
-- `thread_queue_release` and `proc_queue_release` of module/new/binder.c. The process of the state is
-- the one that the handler is given.
use android_binder_ipc.Common.{ℕ, none, some, List, [], ◌∷◌, ok, if◌then◌else◌, ◌==◌}
use android_binder_ipc.MsgQueue.{Queue}
use android_binder_ipc.Driver.World.{
  M, back, pure, ◌>>=◌, ◌>>◌, attempt, get, update_proc, Msg, MsgType, Obj, Handler, Thread,
}
use android_binder_ipc.Driver.Messages.{bcmd_write_msg, put_queue}
use android_binder_ipc.Driver.Objects.{at, erase, find, binder_find_my_obj, bury_obj}
use android_binder_ipc.Driver.Transfer.{clear_msg_buf}
use android_binder_ipc.Driver.Transaction.{one_way}
use android_binder_ipc.Driver.Handlers.{set_notifiers, del_cookie}

-- The caller who waits for an answer gets BR_DEAD_REPLY; a message that is not taken is freed.
unfoldable pub dead_reply : Msg → M (Unit {0})
unfolding bcmd_write_msg
dead_reply msg = do
  sent ← attempt (bcmd_write_msg msg.reply_to (record msg { type = MsgType.br_dead_reply }))
  pure tt

unfoldable pub clear_msg : Msg → M (Unit {0})
unfolding clear_msg_buf dead_reply set_notifiers del_cookie
clear_msg msg = elim msg.type [
  | MsgType.bc_transaction ↦ do
    r ← attempt (clear_msg_buf msg.buf)
    if one_way msg.flags then pure tt else dead_reply msg
  | MsgType.bc_reply ↦ do r ← attempt (clear_msg_buf msg.buf); pure tt
  | MsgType.bc_clear_death_notification ↦ do
    w ← get
    elim (binder_find_my_obj msg.binder w) [
      | none ↦ pure tt
      | some o ↦ set_notifiers o (del_cookie msg.cookie)
    ]
  | _ ↦ pure tt
]

unfoldable pub clear_msgs : List Msg → M (Unit {0})
unfolding clear_msg
clear_msgs [] = pure tt
clear_msgs (m ∷ ms) = do clear_msg m; clear_msgs ms

-- The queue is gone from the tree, so that nothing enters it while it is emptied.
unfoldable pub clear_msg_queue : Queue Msg Handler → M (Unit {0})
unfolding clear_msgs
clear_msg_queue q = clear_msgs q.msgs

unfoldable pub dead_replies : List Msg → M (Unit {0})
unfolding dead_reply
dead_replies [] = pure tt
dead_replies (m ∷ ms) = do dead_reply m; dead_replies ms

-- The thread leaves its process, which loses the reference on its queue.
unfoldable pub unlink_thread : ℕ → List Thread → List Thread
unlink_thread pid [] = []
unlink_thread pid (t ∷ ts) =
    let rest = unlink_thread pid ts in if t.pid == pid then ts else t ∷ rest

unfoldable pub thread_queue_release : Queue Msg Handler → Thread → List Thread → M (List Thread)
unfolding clear_msg_queue dead_replies unlink_thread put_queue
thread_queue_release q t ts = do
  clear_msg_queue q
  dead_replies t.incoming_transactions
  w ← get
  put_queue w.proc.queue
  pure (unlink_thread t.pid ts)

-- The loop over the objects of the process, those that stand in the list, each as it then is.
unfoldable pub free_objs : List Obj → M (Unit {0})
unfolding erase bury_obj find
free_objs [] = pure tt
free_objs (o ∷ os) = do
  w ← get
  elim (find (at o) w.objs) [
    | none ↦ pure tt
    | some x ↦ do
      λ v. back (ok tt) (record v { objs = erase (at o) v.objs })
      r ← attempt (bury_obj x)
      pure tt
  ]
  free_objs os

abbrev pub objs_of : ℕ → List Obj → List Obj
objs_of table [] = []
objs_of table (o ∷ os) = if o.table == table then o ∷ objs_of table os else objs_of table os

unfoldable pub proc_queue_release : Queue Msg Handler → M (Unit {0})
unfolding clear_msg_queue free_objs
proc_queue_release q = do
  clear_msg_queue q
  w ← get
  free_objs (objs_of w.proc.queue w.objs)
  update_proc (λ p. record p { slob = none })
