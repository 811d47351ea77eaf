-- ===== src/Driver/Keeps/Commands.antt =====
-- The commands of a user of module/new/binder.c keep what `Quiet` names.
use android_binder_ipc.Common.{
  ℕ, zero, suc, ◌+◌, ◌-◌, ◌%◌, ◌^◌, Bool, true, false, Option, none, some, List, raw, if◌then◌else◌,
  ltb, ◌==◌,
}
use android_binder_ipc.Common.Int.{ℤ, pos, negsuc}
use android_binder_ipc.Slob.{Slob}
use android_binder_ipc.Driver.World.{World, M, pure, fail, ◌>>=◌, ◌>>◌, attempt, Obj}
use android_binder_ipc.Driver.Keeps.{
  Keeps, pure-Keeps, fail-Keeps, get-Keeps, attempt-Keeps, bool-Keeps, if-Keeps, option-Keeps,
  bind-Keeps, then-Keeps, if-Behind,
}
use android_binder_ipc.Driver.Keeps.Quiet.{IsQuiet, copy_from_user-IsQuiet, bcmd_write_msg-IsQuiet}
use android_binder_ipc.Driver.Keeps.Objects.{
  binder_alloc_msg-IsQuiet, binder_acquire_obj-IsQuiet, binder_release_obj-IsQuiet,
}
use android_binder_ipc.Driver.Keeps.Writing.{bcmd_write_transaction-IsQuiet}
use android_binder_ipc.Driver.Bytes.{get_word}
use android_binder_ipc.Driver.Objects.{binder_find_obj_by_ref, binder_release_obj}
use android_binder_ipc.Driver.Transfer.{rounds}
use android_binder_ipc.Driver.Transaction.{Tdata, context_mgr}
use android_binder_ipc.Driver.Looper.{LooperCmd, ready, bcmd_write_looper}
use android_binder_ipc.Driver.Handlers.{bcmd_write_acquire, bcmd_write_notifier}
use android_binder_ipc.Driver.Buffers.{
  header, release_objs, buf_of, give_buf, free_taken, bcmd_write_free_buffer,
}
use android_binder_ipc.Driver.Write.{
  Bcmd, fetch, tdata_of, too_small, write_tdata, write_free, tolerate, write_case,
}

module _ (v : World) where
  bcmd_write_acquire-IsQuiet :
      (ref : ℕ) (acquire : Bool) → Keeps (IsQuiet v) (bcmd_write_acquire ref acquire)
  unfolding bcmd_write_acquire
  bcmd_write_acquire-IsQuiet ref acquire = bind-Keeps get-Keeps (λ w.
      option-Keeps (if ref == 0 then context_mgr w else binder_find_obj_by_ref ref w) fail-Keeps
        (λ o.
          bind-Keeps
            (bool-Keeps acquire (binder_release_obj-IsQuiet v o) (binder_acquire_obj-IsQuiet v o))
            counted_refs))
    where
      counted_refs :
          (n : ℤ)
          → Keeps
              (IsQuiet v)
              (elim n as (λ x. M (Unit {0})) [ pos n ↦ pure tt | negsuc n ↦ fail (raw (n + 1)) ])
      counted_refs (pos n) = pure-Keeps
      counted_refs (negsuc n) = fail-Keeps

  bcmd_write_notifier-IsQuiet :
      (handle cookie : ℕ) (request : Bool)
      → Keeps (IsQuiet v) (bcmd_write_notifier handle cookie request)
  unfolding bcmd_write_notifier
  bcmd_write_notifier-IsQuiet handle cookie request = bind-Keeps get-Keeps (λ w.
      option-Keeps (binder_find_obj_by_ref handle w) fail-Keeps (λ o.
        bind-Keeps (binder_alloc_msg-IsQuiet v 0 0)
          (λ m. option-Keeps m fail-Keeps (λ msg. bcmd_write_msg-IsQuiet v o.owner _))))

  bcmd_write_looper-IsQuiet : (c : LooperCmd) → Keeps (IsQuiet v) (bcmd_write_looper c)
  unfolding bcmd_write_looper IsQuiet
  bcmd_write_looper-IsQuiet LooperCmd.bc_enter_looper = record {
    at = λ w h. if-Behind (IsQuiet v) (ready w.thread) _ _ h h;
  }
  bcmd_write_looper-IsQuiet LooperCmd.bc_exit_looper = record {
    at = λ w h. if-Behind (IsQuiet v) w.thread.state.entered _ _ h h;
  }
  bcmd_write_looper-IsQuiet LooperCmd.bc_register_looper = record {
    at = λ w h. if-Behind (IsQuiet v) (ready w.thread) _ _ h h;
  }

  release_obj-IsQuiet :
      (found : Option Obj)
      → Keeps (IsQuiet v) (elim found as (λ x. M (Unit {0})) [
        | none ↦ pure tt
        | some o ↦ attempt (binder_release_obj o) >>= (λ _. pure tt)
      ])
  release_obj-IsQuiet found =
      option-Keeps found pure-Keeps
        (λ o. bind-Keeps (attempt-Keeps (binder_release_obj-IsQuiet v o)) (λ r. pure-Keeps))

  release_objs-IsQuiet :
      (n : ℕ) (mem : ℕ → ℕ) (base at : ℕ) → Keeps (IsQuiet v) (release_objs n mem base at)
  unfolding release_objs
  release_objs-IsQuiet zero mem base at = pure-Keeps
  release_objs-IsQuiet (suc n) mem base at =
      bind-Keeps get-Keeps
        (λ w. then-Keeps (release_obj-IsQuiet _) (release_objs-IsQuiet n mem base (at + 4)))

  give_buf-IsQuiet : (s : Slob) (idx p : ℕ) → Keeps (IsQuiet v) (give_buf s idx p)
  unfolding give_buf IsQuiet
  give_buf-IsQuiet s idx p = record { at = λ w h. h }

  free_taken-IsQuiet : (s : Slob) (p idx : ℕ) → Keeps (IsQuiet v) (free_taken s p idx)
  unfolding free_taken
  free_taken-IsQuiet s p idx =
      let offsets = (s.mem (p + 4) + 2 ^ 32 - s.mem p) % 2 ^ 32 in
      then-Keeps
        (release_objs-IsQuiet (rounds (s.mem (p + 12))) s.mem (p + header) (p + header + offsets))
        (give_buf-IsQuiet s idx p)

  bcmd_write_free_buffer-IsQuiet : (uaddr : ℕ) → Keeps (IsQuiet v) (bcmd_write_free_buffer uaddr)
  unfolding bcmd_write_free_buffer
  bcmd_write_free_buffer-IsQuiet uaddr =
      bind-Keeps get-Keeps
        (λ w. option-Keeps (buf_of uaddr w) fail-Keeps (λ r. free_taken-IsQuiet r.0 r.1 r.2))

  fetch-IsQuiet : (p n end : ℕ) → Keeps (IsQuiet v) (fetch p n end)
  unfolding fetch
  fetch-IsQuiet p n end = if-Keeps (ltb end (p + n)) fail-Keeps (copy_from_user-IsQuiet v p n)

  tolerate-IsQuiet : {m : M (Unit {0})} → Keeps (IsQuiet v) m → Keeps (IsQuiet v) (tolerate m)
  tolerate-IsQuiet k = bind-Keeps (attempt-Keeps k) (λ r. pure-Keeps)

  write_tdata-IsQuiet :
      (fget : ℕ → ℕ) (is_reply : Bool) (t : Tdata) → Keeps (IsQuiet v) (write_tdata fget is_reply t)
  unfolding write_tdata
  write_tdata-IsQuiet fget is_reply t =
      bool-Keeps (too_small t) (bcmd_write_transaction-IsQuiet v fget t is_reply) fail-Keeps

  write_free-IsQuiet : (b : ℕ) → Keeps (IsQuiet v) (write_free b)
  unfolding write_free
  write_free-IsQuiet b = bool-Keeps (b == 0) (bcmd_write_free_buffer-IsQuiet b) pure-Keeps

  -- A command with the bytes that follow it.
  argument :
      (p n end : ℕ) {f : List ℕ → M (Unit {0})}
      → ((bs : List ℕ) → Keeps (IsQuiet v) (f bs))
      → Keeps (IsQuiet v) (fetch p n end >>= (λ bs. f bs >> pure (p + n)))
  argument p n end k = bind-Keeps (fetch-IsQuiet p n end) (λ bs. then-Keeps (k bs) pure-Keeps)

  pub write_case-IsQuiet :
      (fget : ℕ → ℕ) (c : Bcmd) (p end : ℕ) → Keeps (IsQuiet v) (write_case fget c p end)
  unfolding write_case
  write_case-IsQuiet fget Bcmd.transaction p end =
      argument p 40 end (λ bs. write_tdata-IsQuiet fget false (tdata_of bs))
  write_case-IsQuiet fget Bcmd.reply p end =
      argument p 40 end (λ bs. write_tdata-IsQuiet fget true (tdata_of bs))
  write_case-IsQuiet fget Bcmd.free_buffer p end =
      argument p 4 end (λ bs. write_free-IsQuiet (get_word bs 0))
  write_case-IsQuiet fget Bcmd.acquire p end =
      argument p 4 end (λ bs. tolerate-IsQuiet (bcmd_write_acquire-IsQuiet (get_word bs 0) true))
  write_case-IsQuiet fget Bcmd.release p end =
      argument p 4 end (λ bs. tolerate-IsQuiet (bcmd_write_acquire-IsQuiet (get_word bs 0) false))
  write_case-IsQuiet fget Bcmd.increfs p end = bind-Keeps (fetch-IsQuiet p 4 end) (λ bs. pure-Keeps)
  write_case-IsQuiet fget Bcmd.decrefs p end = bind-Keeps (fetch-IsQuiet p 4 end) (λ bs. pure-Keeps)
  write_case-IsQuiet fget Bcmd.request_death p end =
      argument p 8 end
        (λ bs. tolerate-IsQuiet (bcmd_write_notifier-IsQuiet (get_word bs 0) (get_word bs 4) true))
  write_case-IsQuiet fget Bcmd.clear_death p end =
      argument p 8 end
        (λ bs. tolerate-IsQuiet (bcmd_write_notifier-IsQuiet (get_word bs 0) (get_word bs 4) false))
  write_case-IsQuiet fget Bcmd.enter p end =
      then-Keeps (bcmd_write_looper-IsQuiet LooperCmd.bc_enter_looper) pure-Keeps
  write_case-IsQuiet fget Bcmd.exit p end =
      then-Keeps (bcmd_write_looper-IsQuiet LooperCmd.bc_exit_looper) pure-Keeps
  write_case-IsQuiet fget Bcmd.register p end =
      then-Keeps (bcmd_write_looper-IsQuiet LooperCmd.bc_register_looper) pure-Keeps
  write_case-IsQuiet fget Bcmd.dead_binder_done p end =
      if-Keeps (ltb end (p + 4)) fail-Keeps pure-Keeps
  write_case-IsQuiet fget Bcmd.increfs_done p end = if-Keeps (ltb end (p + 8)) fail-Keeps pure-Keeps
  write_case-IsQuiet fget Bcmd.acquire_done p end = if-Keeps (ltb end (p + 8)) fail-Keeps pure-Keeps
