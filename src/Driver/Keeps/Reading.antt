-- ===== src/Driver/Keeps/Reading.antt =====
-- The handlers of transactions and of changed counts that a thread of module/new/binder.c reads keep what `Quiet` names.
use android_binder_ipc.Common.{
  ℕ, zero, suc, ◌+◌, Bool, true, false, not, ◌&&◌, Option, none, some, List, [], ◌∷◌, enomem, ltb,
  ◌==◌, ◌≡◌, refl, ◌∙◌, efault,
}
use android_binder_ipc.Common.Int.{pos, inc, dec, is, ltb_ℤ}
use android_binder_ipc.Slob.{Slob, fast_slob_alloc}
use android_binder_ipc.Driver.World.{
  World, M, Exit, pure, fail, update_thread, Msg, MsgBuf, MsgType, Obj, Thread,
}
use android_binder_ipc.Driver.Keeps.{
  Keeps, Behind, keeps_rules, pure-Keeps, fail-Keeps, stuck-Keeps, get-Keeps, attempt-Keeps,
  if-Keeps, bool-Keeps, option-Keeps, bind-Keeps, then-Keeps, if-Behind, option-Behind,
}
use android_binder_ipc.Driver.Keeps.Quiet.{IsQuiet, put_user-IsQuiet}
use android_binder_ipc.Driver.Keeps.Objects.{
  refs_of-IsQuiet, set_refs-IsQuiet, binder_inform_owner-IsQuiet, binder_free_obj-IsQuiet,
  new_obj-IsQuiet,
}
use android_binder_ipc.Driver.Bytes.{FlatObj, get_flat, set_flat}
use android_binder_ipc.Driver.Messages.{msg_buf_align}
use android_binder_ipc.Driver.Objects.{binder_find_obj, binder_find_my_obj}
use android_binder_ipc.Driver.Transfer.{Kind, kind, keep_reference, read_obj, bcmd_read_flat_obj}
use android_binder_ipc.Driver.Transaction.{one_way}
use android_binder_ipc.Driver.Handlers.{
  is_dead_reply, bcmd_read_transaction_complete, bcmd_read_dead_binder, bcmd_read_dead_reply,
  count_ref, tell_user, from_afar, bcmd_read_acquire,
}
use android_binder_ipc.Driver.Buffers.{
  header, read_objs, take_buf, set_mem, place_data, is_call, note_read, bcmd_read_transaction,
}

module _ (v : World) where
  -- The caller's thread changes in anything but its queue.
  pub thread-IsQuiet :
      (f : Thread → Thread)
      → ((t : Thread) → (f t).queue ≡ t.queue)
      → Keeps (IsQuiet v) (update_thread f)
  unfolding IsQuiet
  thread-IsQuiet f e = record { at = λ w (a, b, c, d, u). (a, b, c, e w.thread ∙ d, u) }

  keep_reference-IsQuiet : (o : Obj) → Keeps (IsQuiet v) (keep_reference o)
  unfolding keep_reference
  keep_reference-IsQuiet o = bind-Keeps (refs_of-IsQuiet v o) (λ n.
      then-Keeps (set_refs-IsQuiet v o (inc n)) (
        if-Keeps (ltb_ℤ (pos 1) (inc n)) (binder_inform_owner-IsQuiet v o MsgType.bc_release)
          pure-Keeps))

  read_obj-IsQuiet :
      (strong : Bool) (bp : FlatObj) (owner : ℕ) → Keeps (IsQuiet v) (read_obj strong bp owner)
  unfolding read_obj
  read_obj-IsQuiet strong bp owner = bind-Keeps get-Keeps (λ w.
      bind-Keeps
        (option-Keeps (binder_find_obj owner bp.binder w)
          (bind-Keeps (new_obj-IsQuiet v owner false bp.binder bp.cookie)
            (λ made. option-Keeps made fail-Keeps (λ o. pure-Keeps)))
          (λ o. pure-Keeps))
        (λ o.
          then-Keeps
            (bool-Keeps (not o.owner_queue && strong) pure-Keeps (keep_reference-IsQuiet o))
            pure-Keeps))

  bcmd_read_flat_obj-IsQuiet :
      (fd : Option ℕ) (bp : FlatObj) (owner : ℕ)
      → Keeps (IsQuiet v) (bcmd_read_flat_obj fd bp owner)
  unfolding bcmd_read_flat_obj
  bcmd_read_flat_obj-IsQuiet fd bp owner = go (kind bp.type)
    where
      go :
          (k : Kind)
          → Keeps (IsQuiet v) (elim k as (λ x. M FlatObj) [
            | Kind.local_obj strong ↦ read_obj strong bp owner
            | Kind.remote_obj strong ↦ read_obj strong bp owner
            | Kind.file ↦ elim fd [ none ↦ fail enomem | some n ↦ pure (record bp { binder = n }) ]
            | Kind.unknown ↦ fail efault
          ])
      go (Kind.local_obj strong) = read_obj-IsQuiet strong bp owner
      go (Kind.remote_obj strong) = read_obj-IsQuiet strong bp owner
      go Kind.file = option-Keeps fd fail-Keeps (λ n. pure-Keeps)
      go Kind.unknown = fail-Keeps

  read_objs-IsQuiet :
      (fds : ℕ → Option ℕ) (n : ℕ) (offs owners bytes : List ℕ)
      → Keeps (IsQuiet v) (read_objs fds n offs owners bytes)
  unfolding read_objs
  read_objs-IsQuiet fds zero offs owners bytes = pure-Keeps
  read_objs-IsQuiet fds (suc n) [] owners bytes = stuck-Keeps
  read_objs-IsQuiet fds (suc n) (off ∷ offs) [] bytes = stuck-Keeps
  read_objs-IsQuiet fds (suc n) (off ∷ offs) (owner ∷ owners) bytes =
      bind-Keeps (bcmd_read_flat_obj-IsQuiet (fds n) (get_flat bytes off) owner)
        (λ bp. read_objs-IsQuiet fds n offs owners (set_flat bytes off bp))

  take_buf-IsQuiet : (size : ℕ) → Keeps (IsQuiet v) (take_buf size)
  unfolding take_buf IsQuiet
  take_buf-IsQuiet size = record {
    at = λ w h. option-Behind (IsQuiet v) w.proc.slob _ _ h (λ s.
        if-Behind (IsQuiet v) (w.proc.ustart == 0) _ _ h
          (option-Behind (IsQuiet v) (fast_slob_alloc s (header + size)) _ _ h (λ r. h)));
  }

  set_mem-IsQuiet : (s : Slob) (mem : ℕ → ℕ) → Keeps (IsQuiet v) (set_mem s mem)
  unfolding set_mem IsQuiet
  set_mem-IsQuiet s mem = record { at = λ w h. h }

  place_data-IsQuiet : (fds : ℕ → Option ℕ) (b : MsgBuf) → Keeps (IsQuiet v) (place_data fds b)
  unfolding place_data IsQuiet
  place_data-IsQuiet fds b =
      search (keeps_rules, take_buf-IsQuiet, set_mem-IsQuiet, read_objs-IsQuiet)

  note_read-IsQuiet : (m : Msg) (b : MsgBuf) → Keeps (IsQuiet v) (note_read m b)
  unfolding note_read
  note_read-IsQuiet m b =
      bool-Keeps (is_call m.type) (thread-IsQuiet _ (λ t. refl))
        (if-Keeps (one_way m.flags) pure-Keeps (thread-IsQuiet _ (λ t. refl)))

  pub bcmd_read_transaction-IsQuiet :
      (fds : ℕ → Option ℕ) (m : Msg) (size : ℕ)
      → Keeps (IsQuiet v) (bcmd_read_transaction fds m size)
  unfolding bcmd_read_transaction
  bcmd_read_transaction-IsQuiet fds m size =
      bool-Keeps (ltb size 44)
        (bind-Keeps
          (if-Keeps (ltb 0 (msg_buf_align m.buf.data_size + msg_buf_align m.buf.offsets_size))
            (place_data-IsQuiet fds m.buf) pure-Keeps)
          (λ r.
            then-Keeps (put_user-IsQuiet v _)
              (then-Keeps (put_user-IsQuiet v _) (then-Keeps (note_read-IsQuiet m _) pure-Keeps))))
        fail-Keeps

  pub bcmd_read_transaction_complete-IsQuiet :
      (m : Msg) (size : ℕ) → Keeps (IsQuiet v) (bcmd_read_transaction_complete m size)
  unfolding bcmd_read_transaction_complete
  bcmd_read_transaction_complete-IsQuiet m size =
      bool-Keeps (ltb size 4) (then-Keeps (put_user-IsQuiet v _) pure-Keeps) fail-Keeps

  pub bcmd_read_dead_binder-IsQuiet :
      (m : Msg) (size : ℕ) → Keeps (IsQuiet v) (bcmd_read_dead_binder m size)
  unfolding bcmd_read_dead_binder
  bcmd_read_dead_binder-IsQuiet m size =
      bool-Keeps (ltb size 8)
        (bind-Keeps get-Keeps (λ w.
          option-Keeps (binder_find_obj m.reply_to m.binder w) pure-Keeps (λ o.
            bind-Keeps (attempt-Keeps (binder_free_obj-IsQuiet v o true)) (λ r.
              then-Keeps (put_user-IsQuiet v _) (then-Keeps (put_user-IsQuiet v _) pure-Keeps)))))
        fail-Keeps

  pub bcmd_read_dead_reply-IsQuiet :
      (m : Msg) (size : ℕ) → Keeps (IsQuiet v) (bcmd_read_dead_reply m size)
  unfolding bcmd_read_dead_reply
  bcmd_read_dead_reply-IsQuiet m size =
      bool-Keeps (ltb size 4)
        (bind-Keeps get-Keeps (λ w.
          then-Keeps
            (bool-Keeps (is_dead_reply m.type && ltb_ℤ (pos 0) w.thread.pending_replies) pure-Keeps
              (thread-IsQuiet _ (λ t. refl)))
            (then-Keeps (put_user-IsQuiet v _) pure-Keeps)))
        fail-Keeps

  count_ref-IsQuiet : (acquire : Bool) (o : Obj) → Keeps (IsQuiet v) (count_ref acquire o)
  unfolding count_ref
  count_ref-IsQuiet true o =
      bind-Keeps (refs_of-IsQuiet v o) (λ n. then-Keeps (set_refs-IsQuiet v o (inc n)) pure-Keeps)
  count_ref-IsQuiet false o = bind-Keeps (refs_of-IsQuiet v o) (λ n.
      then-Keeps (set_refs-IsQuiet v o (dec n)) (
        bool-Keeps (is (dec n) 0) pure-Keeps
          (bind-Keeps (attempt-Keeps (binder_free_obj-IsQuiet v o false)) (λ r. pure-Keeps))))

  tell_user-IsQuiet : (m : Msg) (c : Option MsgType) → Keeps (IsQuiet v) (tell_user m c)
  unfolding tell_user
  tell_user-IsQuiet m none = pure-Keeps
  tell_user-IsQuiet m (some c) = then-Keeps (put_user-IsQuiet v _) pure-Keeps

  from_afar-IsQuiet :
      (acquire : Bool) (m : Msg) (o : Option Obj) → Keeps (IsQuiet v) (from_afar acquire m o)
  unfolding from_afar
  from_afar-IsQuiet acquire m none = pure-Keeps
  from_afar-IsQuiet acquire m (some o) = record {
    at = λ w h. (bind-Keeps (count_ref-IsQuiet acquire o) (λ c. tell_user-IsQuiet m c)).at w h;
  }

  pub bcmd_read_acquire-IsQuiet :
      (m : Msg) (size : ℕ) → Keeps (IsQuiet v) (bcmd_read_acquire m size)
  unfolding bcmd_read_acquire
  bcmd_read_acquire-IsQuiet m size = record {
    at = λ w h. if-Behind (IsQuiet v) (ltb size 12) _ _ h (go w h m.type);
  }
    where
      go :
          (w : World)
          → IsQuiet v w
          → (t : MsgType)
          → Behind {0} (IsQuiet v) (elim t as (λ x. Exit ℕ) [
            | MsgType.br_acquire ↦ tell_user m (some MsgType.br_acquire) w
            | MsgType.br_release ↦ tell_user m (some MsgType.br_release) w
            | MsgType.bc_acquire ↦ from_afar true m (binder_find_my_obj m.binder w) w
            | _ ↦ from_afar false m (binder_find_my_obj m.binder w) w
          ])
      go w h MsgType.br_acquire = (tell_user-IsQuiet m (some MsgType.br_acquire)).at w h
      go w h MsgType.br_release = (tell_user-IsQuiet m (some MsgType.br_release)).at w h
      go w h MsgType.bc_acquire = (from_afar-IsQuiet true m (binder_find_my_obj m.binder w)).at w h
      go w h _ = (from_afar-IsQuiet false m (binder_find_my_obj m.binder w)).at w h
