-- ===== src/Driver/Keeps/Quiet.antt =====
-- What no message and no command of module/new/binder.c changes: the counts of waiting and busy
-- threads, the two queues of the caller, and what the rest of the call reads of the user's memory.
use android_binder_ipc.Common.{
  ℕ, Bool, true, false, Option, none, some, List, [], ◌∷◌, ◌≡◌, ok, err, Errno,
}
use android_binder_ipc.MsgQueue.{Put, kept, freed, bug, get_msg_queue, put_msg_queue}
use android_binder_ipc.MsgQueue.Wait.{
  Outcome, returns, asleep, dangling, read_msg_queue, write_msg_queue, write_msg_queue_head,
}
use android_binder_ipc.Driver.World.{
  World, Exit, back, stuck, kmalloc, put_user, copy_from_user, Msg, Handler,
}
use android_binder_ipc.Driver.Keeps.{Keeps, Behind, keeps_rules}
use android_binder_ipc.Driver.Messages.{
  wait_for, own_read_msg, own_write_msg, own_write_msg_head, get_queue, put_queue, bcmd_write_msg,
}

-- The second state is as the first in all this.
unfoldable pub IsQuiet : World → World → Type 0
IsQuiet v w =
    (w.proc.proc_loopers ≡ v.proc.proc_loopers)
    × (w.proc.busy_threads ≡ v.proc.busy_threads)
    × (w.proc.queue ≡ v.proc.queue)
    × (w.thread.queue ≡ v.thread.queue)
    × (w.user ≡ v.user)

-- The counts of waiting and busy threads are the same, and the numbers of the two queues.
pub record SameCounts (v w : World) : Type 0 where
  pub waiting : w.proc.proc_loopers ≡ v.proc.proc_loopers
  pub busy : w.proc.busy_threads ≡ v.proc.busy_threads
  pub proc_queue : w.proc.queue ≡ v.proc.queue
  pub thread_queue : w.thread.queue ≡ v.thread.queue

pub IsQuiet-SameCounts : (v w : World) → IsQuiet v w → SameCounts v w
unfolding IsQuiet
IsQuiet-SameCounts v w (l, b, q, t, u) = record {
  waiting = l;
  busy = b;
  proc_queue = q;
  thread_queue = t;
}

module _ (v : World) where
  pub kmalloc-IsQuiet : Keeps (IsQuiet v) kmalloc
  unfolding kmalloc IsQuiet
  kmalloc-IsQuiet = record { at = λ w h. go w h w.memory }
    where
      go :
          (w : World)
          → IsQuiet v w
          → (ms : List Bool) → Behind (IsQuiet v) (kmalloc (record w { memory = ms }))
      go w h [] = h
      go w h (m ∷ ms) = h

  pub put_user-IsQuiet : (words : List ℕ) → Keeps (IsQuiet v) (put_user words)
  unfolding put_user IsQuiet
  put_user-IsQuiet words = record { at = λ w h. go w h w.writable }
    where
      go :
          (w : World)
          → IsQuiet v w
          → (ms : List Bool) → Behind (IsQuiet v) (put_user words (record w { writable = ms }))
      go w h [] = h
      go w h (true ∷ ms) = h
      go w h (false ∷ ms) = h

  pub copy_from_user-IsQuiet : (at n : ℕ) → Keeps (IsQuiet v) (copy_from_user at n)
  unfolding copy_from_user IsQuiet
  copy_from_user-IsQuiet at n = record { at = λ w h. go w h (w.user at n) }
    where
      go :
          (w : World)
          → IsQuiet v w
          → (o : Option (List ℕ))
          → Behind
              (IsQuiet v)
              (elim o [ none ↦ back (err Errno.efault) w | some bs ↦ back (ok bs) w ])
      go w h none = h
      go w h (some bs) = h

  pub wait_for-IsQuiet :
      {A : Type 0} (w : World)
      → IsQuiet v w
      → (x : Outcome Msg Handler A) → Behind (IsQuiet v) (wait_for x w)
  unfolding IsQuiet
  wait_for-IsQuiet w h (returns r qs ws s) = h
  wait_for-IsQuiet w h (asleep qs) = tt
  wait_for-IsQuiet w h dangling = tt

  pub own_read_msg-IsQuiet : (q : ℕ) → Keeps (IsQuiet v) (own_read_msg q)
  unfolding own_read_msg
  own_read_msg-IsQuiet q = record {
    at = λ w h. wait_for-IsQuiet w h (read_msg_queue q w.wakes w.signal w.queues.all);
  }

  pub own_write_msg-IsQuiet : (q : ℕ) (m : Msg) → Keeps (IsQuiet v) (own_write_msg q m)
  unfolding own_write_msg
  own_write_msg-IsQuiet q m = record {
    at = λ w h. wait_for-IsQuiet w h (write_msg_queue q m w.wakes w.signal w.queues.all);
  }

  pub own_write_msg_head-IsQuiet : (q : ℕ) (m : Msg) → Keeps (IsQuiet v) (own_write_msg_head q m)
  unfolding own_write_msg_head
  own_write_msg_head-IsQuiet q m = record {
    at = λ w h. wait_for-IsQuiet w h (write_msg_queue_head q m w.wakes w.signal w.queues.all);
  }

  pub get_queue-IsQuiet : (q : ℕ) → Keeps (IsQuiet v) (get_queue q)
  unfolding get_queue IsQuiet
  get_queue-IsQuiet q = record {
    at = λ w h.
        elim (get_msg_queue q w.queues)
          as (λ o. Behind (IsQuiet v) (elim o [
            | none ↦ back (err Errno.enodev) w
            | some r ↦ back (ok tt) (record w { queues = r })
          ])) [ none ↦ h | some r ↦ h ];
  }

  pub put_queue-IsQuiet : (q : ℕ) → Keeps (IsQuiet v) (put_queue q)
  unfolding put_queue IsQuiet
  put_queue-IsQuiet q = record { at = λ w h. go w h (put_msg_queue q w.queues) }
    where
      go :
          (w : World)
          → IsQuiet v w
          → (o : Option (Put Msg Handler))
          → Behind (IsQuiet v) (elim o as (λ x. Exit (Unit {0})) [
            | none ↦ stuck
            | some p ↦ elim p as (λ x. Exit (Unit {0})) [
              | kept r ↦ back (ok tt) (record w { queues = r })
              | freed q r ↦ back (ok tt) (record w { queues = r; released = q ∷ w.released })
              | bug ↦ stuck
            ]
          ])
      go w h none = tt
      go w h (some (kept r)) = h
      go w h (some (freed q r)) = h
      go w h (some bug) = tt

  pub bcmd_write_msg-IsQuiet : (q : ℕ) (m : Msg) → Keeps (IsQuiet v) (bcmd_write_msg q m)
  unfolding bcmd_write_msg
  bcmd_write_msg-IsQuiet q m =
      search (keeps_rules, get_queue-IsQuiet, put_queue-IsQuiet, own_write_msg-IsQuiet)
