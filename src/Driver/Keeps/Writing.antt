-- ===== src/Driver/Keeps/Writing.antt =====
-- `bcmd_write_transaction` of module/new/binder.c keeps what `Quiet` names.
use android_binder_ipc.Common.{
  ℕ, Bool, not, ◌&&◌, List, [], ◌∷◌, Errno, if◌then◌else◌, ltb, leb, ◌==◌, refl, get_or,
}
use android_binder_ipc.Common.Int.{ℤ, pos, negsuc}
use android_binder_ipc.Driver.World.{World, M, pure, fail, Msg, MsgBuf, MsgType}
use android_binder_ipc.Driver.Keeps.{
  Keeps, pure-Keeps, fail-Keeps, get-Keeps, attempt-Keeps, bool-Keeps, if-Keeps, option-Keeps,
  sum-Keeps, bind-Keeps, then-Keeps,
}
use android_binder_ipc.Driver.Keeps.Quiet.{IsQuiet, copy_from_user-IsQuiet, bcmd_write_msg-IsQuiet}
use android_binder_ipc.Driver.Keeps.Objects.{
  binder_alloc_msg-IsQuiet, own_write_cmd-IsQuiet, binder_write_cmd-IsQuiet,
  binder_inform_owner-IsQuiet, binder_acquire_obj-IsQuiet, binder_new_obj-IsQuiet,
}
use android_binder_ipc.Driver.Keeps.Reading.{thread-IsQuiet}
use android_binder_ipc.Driver.Bytes.{FlatObj, get_flat, words}
use android_binder_ipc.Driver.Messages.{buf_bytes, binder_realloc_msg}
use android_binder_ipc.Driver.Objects.{binder_find_my_obj, binder_find_obj_by_ref}
use android_binder_ipc.Driver.Transfer.{
  Kind, kind, checked, write_local, write_remote, bcmd_write_flat_obj, outside, write_objs, rounds,
  bcmd_write_msg_buf, undo_strong, undo_object, next_owners, clear_objs, clear_msg_buf,
}
use android_binder_ipc.Driver.Transaction.{
  Tdata, one_way, target_obj, draft_call, answer, draft_reply, failed_reply, failed_write, filled,
  load, deliver, bcmd_write_transaction,
}

module _ (v : World) where
  checked-IsQuiet : (n : ℤ) → Keeps (IsQuiet v) (checked n)
  checked-IsQuiet (pos n) = pure-Keeps
  checked-IsQuiet (negsuc n) = fail-Keeps

  write_local-IsQuiet : (strong : Bool) (bp : FlatObj) → Keeps (IsQuiet v) (write_local strong bp)
  unfolding write_local
  write_local-IsQuiet strong bp = bind-Keeps get-Keeps (λ w.
      bind-Keeps
        (option-Keeps (binder_find_my_obj bp.binder w)
          (bind-Keeps (binder_new_obj-IsQuiet v bp.binder bp.cookie)
            (λ made. option-Keeps made fail-Keeps (λ o. pure-Keeps)))
          (λ o. if-Keeps (bp.cookie == o.cookie) pure-Keeps fail-Keeps))
        (λ o.
          then-Keeps
            (bool-Keeps strong pure-Keeps
              (bind-Keeps (binder_acquire_obj-IsQuiet v o) (λ n. checked-IsQuiet n)))
            pure-Keeps))

  write_remote-IsQuiet : (strong : Bool) (bp : FlatObj) → Keeps (IsQuiet v) (write_remote strong bp)
  unfolding write_remote
  write_remote-IsQuiet strong bp = bind-Keeps get-Keeps (λ w.
      option-Keeps (binder_find_obj_by_ref bp.binder w) fail-Keeps (λ o.
        then-Keeps
          (bool-Keeps strong pure-Keeps (binder_inform_owner-IsQuiet v o MsgType.bc_acquire))
          pure-Keeps))

  bcmd_write_flat_obj-IsQuiet :
      (fget : ℕ → ℕ) (bp : FlatObj) → Keeps (IsQuiet v) (bcmd_write_flat_obj fget bp)
  unfolding bcmd_write_flat_obj
  bcmd_write_flat_obj-IsQuiet fget bp = go (kind bp.type)
    where
      go :
          (k : Kind)
          → Keeps (IsQuiet v) (elim k as (λ x. M (FlatObj × ℕ)) [
            | Kind.local_obj strong ↦ write_local strong bp
            | Kind.remote_obj strong ↦ write_remote strong bp
            | Kind.file ↦
                if fget bp.binder == 0
                then fail Errno.einval
                else pure (record bp { binder = fget bp.binder }, 0)
            | Kind.unknown ↦ fail Errno.einval
          ])
      go (Kind.local_obj strong) = write_local-IsQuiet strong bp
      go (Kind.remote_obj strong) = write_remote-IsQuiet strong bp
      go Kind.file = if-Keeps (fget bp.binder == 0) fail-Keeps pure-Keeps
      go Kind.unknown = fail-Keeps

  write_objs-IsQuiet :
      (fget : ℕ → ℕ) (offs : List ℕ) (b : MsgBuf) → Keeps (IsQuiet v) (write_objs fget offs b)
  unfolding write_objs
  write_objs-IsQuiet fget [] b = pure-Keeps
  write_objs-IsQuiet fget (off ∷ offs) b =
      bool-Keeps (outside off b.data_size)
        (bind-Keeps (bcmd_write_flat_obj-IsQuiet fget (get_flat b.data_bytes off))
          (λ r. write_objs-IsQuiet fget offs _))
        fail-Keeps

  bcmd_write_msg_buf-IsQuiet :
      (fget : ℕ → ℕ) (b : MsgBuf) (buffer offsets : ℕ)
      → Keeps (IsQuiet v) (bcmd_write_msg_buf fget b buffer offsets)
  unfolding bcmd_write_msg_buf
  bcmd_write_msg_buf-IsQuiet fget b buffer offsets =
      bind-Keeps (copy_from_user-IsQuiet v buffer b.data_size) (λ bytes.
        bool-Keeps (b.offsets_size == 0)
          (bind-Keeps (copy_from_user-IsQuiet v offsets b.offsets_size) (λ offs.
            let list = words (rounds b.offsets_size) offs 0 in
            write_objs-IsQuiet fget list
              (record b { data_bytes = bytes; offsets = list; owners = [] })))
          (pure-Keeps {a = record b { data_bytes = bytes; offsets = []; owners = [] }}))

  undo_strong-IsQuiet :
      (w : World) (strong : Bool) (bp : FlatObj) (owner : ℕ)
      → Keeps (IsQuiet v) (undo_strong w strong bp owner)
  undo_strong-IsQuiet w strong bp owner =
      if-Keeps (strong && not (owner == w.proc.queue))
        (bind-Keeps
          (attempt-Keeps (binder_write_cmd-IsQuiet v owner bp.binder bp.cookie MsgType.bc_release))
          (λ r. pure-Keeps))
        pure-Keeps

  undo_object-IsQuiet :
      (w : World) (bp : FlatObj) (owner : ℕ) → Keeps (IsQuiet v) (undo_object w bp owner)
  unfolding undo_object
  undo_object-IsQuiet w bp owner = go (kind bp.type)
    where
      go :
          (k : Kind)
          → Keeps (IsQuiet v) (elim k as (λ x. M (Unit {0})) [
            | Kind.local_obj strong ↦ undo_strong w strong bp owner
            | Kind.remote_obj strong ↦ undo_strong w strong bp owner
            | Kind.file ↦ pure tt
            | Kind.unknown ↦ pure tt
          ])
      go (Kind.local_obj strong) = undo_strong-IsQuiet w strong bp owner
      go (Kind.remote_obj strong) = undo_strong-IsQuiet w strong bp owner
      go Kind.file = pure-Keeps
      go Kind.unknown = pure-Keeps

  clear_objs-IsQuiet :
      (offs owners : List ℕ) (b : MsgBuf) → Keeps (IsQuiet v) (clear_objs offs owners b)
  unfolding clear_objs
  clear_objs-IsQuiet [] owners b = pure-Keeps
  clear_objs-IsQuiet (off ∷ offs) owners b =
      bool-Keeps (outside off b.data_size)
        (bind-Keeps get-Keeps (λ w.
          then-Keeps (undo_object-IsQuiet w (get_flat b.data_bytes off) (get_or owners 0 0))
            (clear_objs-IsQuiet offs (next_owners owners) b)))
        fail-Keeps

  failed_reply-IsQuiet : Keeps (IsQuiet v) failed_reply
  unfolding failed_reply
  failed_reply-IsQuiet =
      bind-Keeps get-Keeps (λ w. own_write_cmd-IsQuiet v w.thread.queue 0 0 MsgType.br_failed_reply)

  failed_write-IsQuiet : (b : MsgBuf) → Keeps (IsQuiet v) (failed_write b)
  unfolding failed_write clear_msg_buf
  failed_write-IsQuiet b =
      bind-Keeps (attempt-Keeps (clear_objs-IsQuiet b.offsets b.owners b))
        (λ r. failed_reply-IsQuiet)

  draft_call-IsQuiet : (t : Tdata) → Keeps (IsQuiet v) (draft_call t)
  unfolding draft_call
  draft_call-IsQuiet t = bind-Keeps get-Keeps (λ w.
      option-Keeps (target_obj t.target w) pure-Keeps (λ o.
        bind-Keeps (binder_alloc_msg-IsQuiet v t.data_size t.offsets_size)
          (λ m. option-Keeps m pure-Keeps (λ msg. record { at = λ w h. h }))))

  binder_realloc_msg-IsQuiet : (m : Msg) (d o : ℕ) → Keeps (IsQuiet v) (binder_realloc_msg m d o)
  unfolding binder_realloc_msg
  binder_realloc_msg-IsQuiet m d o =
      if-Keeps (leb (buf_bytes d o) m.buf.buf_size) pure-Keeps (binder_alloc_msg-IsQuiet v d o)

  answer-IsQuiet : (t : Tdata) (ms : List Msg) → Keeps (IsQuiet v) (answer t ms)
  unfolding answer
  answer-IsQuiet t [] = pure-Keeps
  answer-IsQuiet t (first ∷ others) = then-Keeps (thread-IsQuiet v _ (λ t. refl)) (
      bind-Keeps (binder_realloc_msg-IsQuiet first t.data_size t.offsets_size)
        (λ m. option-Keeps m pure-Keeps (λ msg. pure-Keeps)))

  draft_reply-IsQuiet : (t : Tdata) → Keeps (IsQuiet v) (draft_reply t)
  unfolding draft_reply
  draft_reply-IsQuiet t =
      bind-Keeps get-Keeps (λ w. answer-IsQuiet t w.thread.incoming_transactions)

  load-IsQuiet : (fget : ℕ → ℕ) (t : Tdata) (m : Msg) → Keeps (IsQuiet v) (load fget t m)
  unfolding load
  load-IsQuiet fget t m =
      if-Keeps (ltb 0 t.data_size) (bcmd_write_msg_buf-IsQuiet fget m.buf t.buffer t.offsets)
        pure-Keeps

  deliver-IsQuiet :
      (t : Tdata) (is_reply : Bool) (to_id : ℕ) (m : Msg)
      → Keeps (IsQuiet v) (deliver t is_reply to_id m)
  unfolding deliver
  deliver-IsQuiet t is_reply to_id m = bind-Keeps get-Keeps (λ w.
      bind-Keeps
        (attempt-Keeps (
          own_write_cmd-IsQuiet v w.thread.queue m.binder m.cookie MsgType.br_transaction_complete))
        (λ told.
          sum-Keeps told
            (λ u. bind-Keeps (attempt-Keeps (bcmd_write_msg-IsQuiet v to_id m)) (λ sent.
              sum-Keeps sent
                (λ u.
                  if-Keeps (not is_reply && not (one_way t.flags)) (thread-IsQuiet v _ (λ t. refl))
                    pure-Keeps)
                (λ e. failed_write-IsQuiet m.buf)))
            (λ e. failed_write-IsQuiet m.buf)))

  pub bcmd_write_transaction-IsQuiet :
      (fget : ℕ → ℕ) (t : Tdata) (is_reply : Bool)
      → Keeps (IsQuiet v) (bcmd_write_transaction fget t is_reply)
  unfolding bcmd_write_transaction
  bcmd_write_transaction-IsQuiet fget t is_reply =
      bind-Keeps (if-Keeps is_reply (draft_reply-IsQuiet t) (draft_call-IsQuiet t)) (λ draft.
        option-Keeps draft failed_reply-IsQuiet (λ d. bind-Keeps get-Keeps (λ w.
          bind-Keeps (attempt-Keeps (load-IsQuiet fget t (filled t is_reply d w))) (λ loaded.
            sum-Keeps loaded (λ b. deliver-IsQuiet t is_reply d.to_id _)
              (λ e. failed_reply-IsQuiet)))))
