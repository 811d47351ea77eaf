-- ===== src/Driver/Keeps/Objects.antt =====
-- The calls of module/new/binder.c on objects keep what `Quiet` names.
use android_binder_ipc.Common.{
  ℕ, Bool, true, false, Option, none, some, List, [], ◌∷◌, Result, ok, err, Errno, if◌then◌else◌,
}
use android_binder_ipc.Common.Int.{ℤ, pos, inc, dec, is, ltb_ℤ}
use android_binder_ipc.Driver.World.{World, back, Msg, MsgType, Obj, Notifier}
use android_binder_ipc.Driver.Keeps.{
  Keeps, Behind, pure-Keeps, fail-Keeps, result-Keeps, get-Keeps, attempt-Keeps, if-Keeps,
  bool-Keeps, here-Keeps, option-Keeps, sum-Keeps, bind-Keeps, then-Keeps, option-Behind, if-Behind,
}
use android_binder_ipc.Driver.Keeps.Quiet.{
  IsQuiet, kmalloc-IsQuiet, own_write_msg-IsQuiet, bcmd_write_msg-IsQuiet,
}
use android_binder_ipc.Driver.Messages.{binder_alloc_msg, own_write_cmd, binder_write_cmd, command}
use android_binder_ipc.Driver.Objects.{
  find, at, erase, free_now, link_obj, refs_of, set_refs, binder_find_obj, new_obj, binder_new_obj,
  binder_inform_owner, binder_reclaim_obj, dead_binder, notify, bury_obj, binder_free_obj, tell,
  binder_acquire_obj, binder_release_obj,
}

module _ (v : World) where
  pub binder_alloc_msg-IsQuiet : (d o : ℕ) → Keeps (IsQuiet v) (binder_alloc_msg d o)
  unfolding binder_alloc_msg
  binder_alloc_msg-IsQuiet d o = bind-Keeps (kmalloc-IsQuiet v) (λ b. pure-Keeps)

  pub own_write_cmd-IsQuiet : (q b c : ℕ) (t : MsgType) → Keeps (IsQuiet v) (own_write_cmd q b c t)
  unfolding own_write_cmd
  own_write_cmd-IsQuiet q b c t =
      bind-Keeps (binder_alloc_msg-IsQuiet 0 0)
        (λ m. option-Keeps _ fail-Keeps (λ x. own_write_msg-IsQuiet v q _))

  pub binder_write_cmd-IsQuiet :
      (q b c : ℕ) (t : MsgType) → Keeps (IsQuiet v) (binder_write_cmd q b c t)
  unfolding binder_write_cmd
  binder_write_cmd-IsQuiet q b c t =
      bind-Keeps (binder_alloc_msg-IsQuiet 0 0)
        (λ m. option-Keeps _ fail-Keeps (λ x. bcmd_write_msg-IsQuiet v q _))

  pub refs_of-IsQuiet : (o : Obj) → Keeps (IsQuiet v) (refs_of o)
  unfolding refs_of
  refs_of-IsQuiet o = record {
    at = λ w h. option-Behind (IsQuiet v) (find (at o) w.objs) _ _ tt (λ x. h);
  }

  pub set_refs-IsQuiet : (o : Obj) (n : ℤ) → Keeps (IsQuiet v) (set_refs o n)
  unfolding set_refs IsQuiet
  set_refs-IsQuiet o n = record { at = λ w h. h }

  pub binder_inform_owner-IsQuiet :
      (o : Obj) (t : MsgType) → Keeps (IsQuiet v) (binder_inform_owner o t)
  unfolding binder_inform_owner
  binder_inform_owner-IsQuiet o t = binder_write_cmd-IsQuiet o.owner o.binder o.cookie t

  pub binder_reclaim_obj-IsQuiet : (o : Obj) → Keeps (IsQuiet v) (binder_reclaim_obj o)
  unfolding binder_reclaim_obj IsQuiet
  binder_reclaim_obj-IsQuiet o = record { at = λ w h. go w h (ltb_ℤ (pos 1) w.proc.busy_threads) }
    where
      go :
          (w : World)
          → IsQuiet v w
          → (b : Bool)
          → Behind {0} (IsQuiet v) (
              if b
              then back
                  (ok tt)
                  (record w { proc = record w.proc { reclaim_list = o ∷ w.proc.reclaim_list } })
              else back (ok tt) w)
      go w h true = h
      go w h false = h

  pub notify-IsQuiet :
      (o : Obj) (ns : List Notifier) (spare : Option Msg) (r : Result (Unit {0}))
      → Keeps (IsQuiet v) (notify o ns spare r)
  unfolding notify
  notify-IsQuiet o [] spare r = result-Keeps
  notify-IsQuiet o (n ∷ ns) spare r =
      bind-Keeps (option-Keeps spare (binder_alloc_msg-IsQuiet 0 0) (λ m. pure-Keeps {a = some m}))
        (λ allocated. option-Keeps allocated (notify-IsQuiet o ns none (err Errno.enomem)) (λ m.
          bind-Keeps (attempt-Keeps (bcmd_write_msg-IsQuiet v n.to_notify (dead_binder o n m)))
            (λ sent.
              sum-Keeps sent (λ u. notify-IsQuiet o ns none r)
                (λ e. notify-IsQuiet o ns (some (dead_binder o n m)) r))))

  pub bury_obj-IsQuiet : (o : Obj) → Keeps (IsQuiet v) (bury_obj o)
  unfolding bury_obj
  bury_obj-IsQuiet o =
      bind-Keeps
        (attempt-Keeps (
          if-Keeps _ (notify-IsQuiet o o.notifiers none (ok tt)) (
            if-Keeps _
              (bind-Keeps (attempt-Keeps (binder_inform_owner-IsQuiet o MsgType.bc_release))
                (λ _. pure-Keeps))
              pure-Keeps)))
        (λ r. bind-Keeps (binder_reclaim_obj-IsQuiet o) (λ _. result-Keeps))

  -- An object leaves its tree.
  erased : (o : Obj) (w : World) → IsQuiet v w → IsQuiet v (record w { objs = erase (at o) w.objs })
  unfolding IsQuiet
  erased o w h = h

  pub binder_free_obj-IsQuiet :
      (o : Obj) (force : Bool) → Keeps (IsQuiet v) (binder_free_obj o force)
  unfolding binder_free_obj
  binder_free_obj-IsQuiet o true = record {
    at = λ w h. (binder_reclaim_obj-IsQuiet o).at _ (erased o w h);
  }
  binder_free_obj-IsQuiet o false = record { at = λ w h. (bury_obj-IsQuiet o).at _ (erased o w h) }

  tell-IsQuiet : (o : Obj) (a b : MsgType) (m : Msg) → Keeps (IsQuiet v) (tell o a b m)
  tell-IsQuiet o a b m = record {
    at = λ w h.
        if-Behind (IsQuiet v) o.owner_queue _ _
          ((own_write_msg-IsQuiet v w.thread.queue (command o.binder o.cookie a m)).at w h)
          ((bcmd_write_msg-IsQuiet v o.owner (command o.binder o.cookie b m)).at w h);
  }

  pub binder_acquire_obj-IsQuiet : (o : Obj) → Keeps (IsQuiet v) (binder_acquire_obj o)
  unfolding binder_acquire_obj
  binder_acquire_obj-IsQuiet o = bind-Keeps (refs_of-IsQuiet o) (λ before.
      then-Keeps (set_refs-IsQuiet o (inc before)) (
        bool-Keeps (is (inc before) 1) pure-Keeps (
          bind-Keeps (binder_alloc_msg-IsQuiet 0 0) (λ m. option-Keeps m fail-Keeps (λ msg.
            then-Keeps (tell-IsQuiet o MsgType.br_acquire MsgType.bc_acquire msg) pure-Keeps)))))

  free_now-IsQuiet : (o : Obj) → Keeps (IsQuiet v) (free_now o)
  unfolding free_now
  free_now-IsQuiet o = record {
    at = λ w h.
        option-Behind (IsQuiet v) (find (at o) w.objs) _ _ tt
          (λ x. (binder_free_obj-IsQuiet x false).at w h);
  }

  pub binder_release_obj-IsQuiet : (o : Obj) → Keeps (IsQuiet v) (binder_release_obj o)
  unfolding binder_release_obj
  binder_release_obj-IsQuiet o = bind-Keeps (refs_of-IsQuiet o) (λ before.
      then-Keeps (set_refs-IsQuiet o (dec before)) (
        bool-Keeps (is (dec before) 0) pure-Keeps (
          bind-Keeps (binder_alloc_msg-IsQuiet 0 0) (λ m. option-Keeps m fail-Keeps (λ msg.
            then-Keeps (tell-IsQuiet o MsgType.br_release MsgType.bc_release msg)
              (then-Keeps (free_now-IsQuiet o) pure-Keeps))))))

  link_obj-IsQuiet : (o : Obj) → Keeps (IsQuiet v) (link_obj o)
  unfolding link_obj IsQuiet
  link_obj-IsQuiet o = record { at = λ w h. h }

  pub new_obj-IsQuiet : (owner : ℕ) (q : Bool) (b c : ℕ) → Keeps (IsQuiet v) (new_obj owner q b c)
  unfolding new_obj
  new_obj-IsQuiet owner q b c = bind-Keeps (kmalloc-IsQuiet v) (λ there. bind-Keeps get-Keeps (λ w.
      bool-Keeps _ pure-Keeps
        (option-Keeps (binder_find_obj owner b w) (link_obj-IsQuiet _) (λ o. pure-Keeps))))

  pub binder_new_obj-IsQuiet : (b c : ℕ) → Keeps (IsQuiet v) (binder_new_obj b c)
  unfolding binder_new_obj
  binder_new_obj-IsQuiet b c = here-Keeps (λ w. new_obj-IsQuiet w.proc.queue true b c)
