-- ===== src/Driver/Keeps/Switch.antt =====
-- `bcmd_read_notifier` of module/new/binder.c and the switch over the messages that a thread reads keep
-- what `Quiet` names.
use android_binder_ipc.Common.{
  ℕ, Option, none, some, List, [], ◌∷◌, enospc, efault, if◌then◌else◌, ltb,
}
use android_binder_ipc.Driver.World.{
  World, M, pure, fail, ◌>>=◌, ◌>>◌, get, put_user, Msg, MsgType, Obj, Notifier,
}
use android_binder_ipc.Driver.Keeps.{
  Keeps, pure-Keeps, fail-Keeps, get-Keeps, attempt-Keeps, bool-Keeps, if-Keeps, option-Keeps,
  bind-Keeps, then-Keeps,
}
use android_binder_ipc.Driver.Keeps.Quiet.{
  IsQuiet, kmalloc-IsQuiet, put_user-IsQuiet, bcmd_write_msg-IsQuiet,
}
use android_binder_ipc.Driver.Keeps.Reading.{
  bcmd_read_transaction-IsQuiet, bcmd_read_transaction_complete-IsQuiet,
  bcmd_read_dead_binder-IsQuiet, bcmd_read_dead_reply-IsQuiet, bcmd_read_acquire-IsQuiet,
}
use android_binder_ipc.Driver.Objects.{binder_find_my_obj}
use android_binder_ipc.Driver.Handlers.{
  code_of, set_notifiers, has_cookie, del_cookie, request_notifier, clear_notifier,
  change_notifiers, bcmd_read_notifier, bcmd_read_transaction_complete, bcmd_read_dead_binder,
  bcmd_read_dead_reply, bcmd_read_acquire,
}
use android_binder_ipc.Driver.Buffers.{bcmd_read_transaction}
use android_binder_ipc.Driver.Read.{dispatch}

module _ (v : World) where
  set_notifiers-IsQuiet :
      (o : Obj) (f : List Notifier → List Notifier) → Keeps (IsQuiet v) (set_notifiers o f)
  unfolding set_notifiers IsQuiet
  set_notifiers-IsQuiet o f = record { at = λ w h. h }

  request_notifier-IsQuiet : (m : Msg) (o : Obj) → Keeps (IsQuiet v) (request_notifier m o)
  request_notifier-IsQuiet m o =
      bind-Keeps (kmalloc-IsQuiet v)
        (λ there. bool-Keeps there fail-Keeps (then-Keeps (set_notifiers-IsQuiet o _) pure-Keeps))

  clear_notifier-IsQuiet : (m : Msg) (o : Obj) → Keeps (IsQuiet v) (clear_notifier m o)
  clear_notifier-IsQuiet m o = then-Keeps (set_notifiers-IsQuiet o (del_cookie m.cookie)) (
      bool-Keeps (has_cookie m.cookie o.notifiers) pure-Keeps
        (bind-Keeps (attempt-Keeps (bcmd_write_msg-IsQuiet v m.reply_to _)) (λ sent. pure-Keeps)))

  change_notifiers-IsQuiet : (m : Msg) (o : Obj) → Keeps (IsQuiet v) (change_notifiers m o)
  unfolding change_notifiers
  change_notifiers-IsQuiet m o = go m.type
    where
      go :
          (t : MsgType)
          → Keeps (IsQuiet v) (elim t as (λ x. M ℕ) [
            | MsgType.bc_request_death_notification ↦ request_notifier m o
            | _ ↦ clear_notifier m o
          ])
      go MsgType.bc_request_death_notification = request_notifier-IsQuiet m o
      go _ = clear_notifier-IsQuiet m o

  at_owner-IsQuiet :
      (m : Msg)
      → Keeps (IsQuiet v) (
          get >>= (λ w. elim (binder_find_my_obj m.binder w) as (λ x. M ℕ) [
            | none ↦ fail efault
            | some o ↦ change_notifiers m o
          ]))
  at_owner-IsQuiet m = bind-Keeps get-Keeps (λ w.
      option-Keeps (binder_find_my_obj m.binder w) fail-Keeps (λ o. change_notifiers-IsQuiet m o))

  abbrev cleared : Msg → ℕ → M ℕ
  cleared m size = if ltb size 8 then fail enospc else do
    put_user (code_of MsgType.br_clear_death_notification_done ∷ [])
    put_user (m.cookie ∷ [])
    pure 8

  bcmd_read_notifier-IsQuiet : (m : Msg) (size : ℕ) → Keeps (IsQuiet v) (bcmd_read_notifier m size)
  unfolding bcmd_read_notifier
  bcmd_read_notifier-IsQuiet m size = go m.type
    where
      go :
          (t : MsgType)
          → Keeps (IsQuiet v) (elim t as (λ x. M ℕ) [
            | MsgType.br_clear_death_notification_done ↦ cleared m size
            | _ ↦ get >>= (λ w. elim (binder_find_my_obj m.binder w) as (λ x. M ℕ) [
              | none ↦ fail efault
              | some o ↦ change_notifiers m o
            ])
          ])
      go MsgType.br_clear_death_notification_done =
          if-Keeps (ltb size 8) fail-Keeps
            (then-Keeps (put_user-IsQuiet v _) (then-Keeps (put_user-IsQuiet v _) pure-Keeps))
      go _ = at_owner-IsQuiet m

  pub dispatch-IsQuiet :
      (fds : ℕ → Option ℕ) (m : Msg) (size : ℕ) → Keeps (IsQuiet v) (dispatch fds m size)
  unfolding dispatch
  dispatch-IsQuiet fds m size = go m.type
    where
      go :
          (t : MsgType)
          → Keeps (IsQuiet v) (elim t as (λ x. M ℕ) [
            | MsgType.bc_transaction ↦ bcmd_read_transaction fds m size
            | MsgType.bc_reply ↦ bcmd_read_transaction fds m size
            | MsgType.br_transaction_complete ↦ bcmd_read_transaction_complete m size
            | MsgType.bc_acquire ↦ bcmd_read_acquire m size
            | MsgType.bc_release ↦ bcmd_read_acquire m size
            | MsgType.br_acquire ↦ bcmd_read_acquire m size
            | MsgType.br_release ↦ bcmd_read_acquire m size
            | MsgType.bc_request_death_notification ↦ bcmd_read_notifier m size
            | MsgType.bc_clear_death_notification ↦ bcmd_read_notifier m size
            | MsgType.br_clear_death_notification_done ↦ bcmd_read_notifier m size
            | MsgType.br_dead_binder ↦ bcmd_read_dead_binder m size
            | MsgType.br_dead_reply ↦ bcmd_read_dead_reply m size
            | MsgType.br_failed_reply ↦ bcmd_read_dead_reply m size
          ])
      go MsgType.bc_transaction = bcmd_read_transaction-IsQuiet v fds m size
      go MsgType.bc_reply = bcmd_read_transaction-IsQuiet v fds m size
      go MsgType.br_transaction_complete = bcmd_read_transaction_complete-IsQuiet v m size
      go MsgType.bc_acquire = bcmd_read_acquire-IsQuiet v m size
      go MsgType.bc_release = bcmd_read_acquire-IsQuiet v m size
      go MsgType.br_acquire = bcmd_read_acquire-IsQuiet v m size
      go MsgType.br_release = bcmd_read_acquire-IsQuiet v m size
      go MsgType.bc_request_death_notification = bcmd_read_notifier-IsQuiet m size
      go MsgType.bc_clear_death_notification = bcmd_read_notifier-IsQuiet m size
      go MsgType.br_clear_death_notification_done = bcmd_read_notifier-IsQuiet m size
      go MsgType.br_dead_binder = bcmd_read_dead_binder-IsQuiet v m size
      go MsgType.br_dead_reply = bcmd_read_dead_reply-IsQuiet v m size
      go MsgType.br_failed_reply = bcmd_read_dead_reply-IsQuiet v m size
