-- ===== src/Driver/Read/Balance.antt =====
-- `binder_thread_read` of module/new/binder.c counts the thread among the loopers of its process while
-- it waits, and no longer.
use android_binder_ipc.Common.{
  ℕ, zero, suc, Bool, true, false, ◌&&◌, Option, none, some, [], ◌∷◌, refl, Result, ok, err, Errno,
  if◌then◌else◌, ltb, ◌==◌, ◌∙◌, ap,
}
use android_binder_ipc.Common.Int.{ℤ, pos, inc, dec, dec-inc}
use android_binder_ipc.MsgQueue.{Queue, rb_queue_exist}
use android_binder_ipc.Driver.World.{
  World, M, Exit, back, stuck, pure, ◌>>=◌, ◌>>◌, attempt, result, update_proc, Msg, Handler,
}
use android_binder_ipc.Driver.Keeps.{
  Keeps, Behind, Behind-imp, stuck-Keeps, if-Behind, pure-Keeps, result-Keeps, get-Keeps,
  attempt-Keeps, bool-Keeps, sum-Keeps, bind-Keeps, then-Keeps,
}
use android_binder_ipc.Driver.Keeps.Quiet.{
  IsQuiet, SameCounts, IsQuiet-SameCounts, own_read_msg-IsQuiet, own_write_msg_head-IsQuiet,
  put_user-IsQuiet,
}
use android_binder_ipc.Driver.Keeps.Switch.{dispatch-IsQuiet}
use android_binder_ipc.Driver.Messages.{own_read_msg}
use android_binder_ipc.Driver.Looper.{
  ready, may_spawn, br_spawn_looper, request_looper, bcmd_spawn_on_busy,
}
use android_binder_ipc.Driver.Read.{
  queue_length, count_looper, turn, Round, give_back, handle, take_message, read_one, read_loop,
  nothing_read, binder_thread_read,
}

-- The state with another count of waiting loopers, if the flag is set.
abbrev shift : Bool → (ℤ → ℤ) → World → World
shift b f v = record v {
  proc = record v.proc { proc_loopers = if b then f v.proc.proc_loopers else v.proc.proc_loopers };
}

module _ (v : World) where
  queue_length-IsQuiet : (q : ℕ) → Keeps (IsQuiet v) (queue_length q)
  unfolding queue_length
  queue_length-IsQuiet q = record { at = λ w h. go w h (rb_queue_exist q w.queues.all) }
    where
      go :
          (w : World)
          → IsQuiet v w
          → (o : Option (Queue Msg Handler))
          → Behind
              (IsQuiet v)
              (elim o as (λ x. Exit ℕ) [ none ↦ stuck | some q ↦ back (ok q.num_msgs) w ])
      go w h none = tt
      go w h (some q) = h

  turn-IsQuiet : Keeps (IsQuiet v) turn
  unfolding turn
  turn-IsQuiet =
      bind-Keeps get-Keeps
        (λ w. bind-Keeps (queue_length-IsQuiet w.thread.queue) (λ own. pure-Keeps))

  give_back-IsQuiet : (q : ℕ) (m : Msg) (e : Errno) → Keeps (IsQuiet v) (give_back q m e)
  unfolding give_back
  give_back-IsQuiet q m Errno.enospc =
      bind-Keeps (attempt-Keeps (own_write_msg_head-IsQuiet v q m))
        (λ r. sum-Keeps r (λ u. pure-Keeps) (λ e. pure-Keeps))
  give_back-IsQuiet q m _ = pure-Keeps

  handle-IsQuiet :
      (fds : ℕ → Option ℕ) (q : ℕ) (m : Msg) (size : ℕ) → Keeps (IsQuiet v) (handle fds q m size)
  unfolding handle
  handle-IsQuiet fds q m size =
      bind-Keeps (attempt-Keeps (dispatch-IsQuiet v fds m size))
        (λ r. sum-Keeps r (λ n. pure-Keeps) (λ e. give_back-IsQuiet q m e))

-- The count goes up and down again.
shift-shift : (b : Bool) (v w : World) → IsQuiet (shift b dec (shift b inc v)) w → IsQuiet v w
unfolding IsQuiet
shift-shift true v w (l, b, q, t, u) = (l ∙ dec-inc v.proc.proc_loopers, b, q, t, u)
shift-shift false v w h = h

-- Behind a change of the count.
counted :
    {A : Type 0} (P : World → Type 0) (b : Bool) (f : ℤ → ℤ) (v : World) (k : M A)
    → ((w : World) → IsQuiet (shift b f v) w → Behind P (k w))
    → (w : World) → IsQuiet v w
    → Behind P ((count_looper b f >> k) w)
unfolding count_looper IsQuiet
counted P true f v k hk w (l, b, q, t, u) = hk _ (ap f l, b, q, t, u)
counted P false f v k hk w h = hk _ h

-- Behind a look at a queue.
measured :
    {A : Type 0} (P : World → Type 0) (v : World) (q : ℕ) (k : ℕ → M A)
    → ((n : ℕ) (w : World) → IsQuiet v w → Behind P (k n w))
    → (w : World) → IsQuiet v w
    → Behind P ((queue_length q >>= k) w)
unfolding queue_length
measured {A} P v q k hk w h = go (rb_queue_exist q w.queues.all)
  where
    go :
        (o : Option (Queue Msg Handler))
        → Behind P
            (elim (elim o as (λ x. Exit ℕ) [ none ↦ stuck | some q ↦ back (ok q.num_msgs) w ])
              as (λ y. Exit A) [
                | back r w' ↦ elim r [ ok a ↦ k a w' | err e ↦ back (err e) w' ]
                | stuck ↦ stuck
              ])
    go none = tt
    go (some q) = hk q.num_msgs w h

-- Behind an error that the caller looks at.
tried :
    {A B : Type 0} (P : World → Type 0) (v : World) (m : M B) (k : Result B → M A)
    → Keeps (IsQuiet v) m
    → ((r : Result B) (w : World) → IsQuiet v w → Behind P (k r w))
    → (w : World) → IsQuiet v w
    → Behind P ((attempt m >>= k) w)
tried {A} {B} P v m k km hk w h = go (m w) (km.at w h)
  where
    go :
        (x : Exit B)
        → Behind (IsQuiet v) x
        → Behind P
            (elim (elim x as (λ y. Exit (Result B)) [ back r w' ↦ back (ok r) w' | stuck ↦ stuck ])
              as (λ y. Exit A) [
                | back r w' ↦ elim r [ ok a ↦ k a w' | err e ↦ back (err e) w' ]
                | stuck ↦ stuck
              ])
    go (back r w') h' = hk r w' h'
    go stuck h' = tt

module _ (v : World) (fds : ℕ → Option ℕ) where
  -- The read of a round takes back the count.
  take_message-IsQuiet :
      (b : Bool) (q size : ℕ) (w : World)
      → IsQuiet (shift b inc v) w
      → Behind (IsQuiet v) (take_message fds b q size w)
  unfolding take_message
  take_message-IsQuiet b q size =
      tried (IsQuiet v) (shift b inc v) (own_read_msg q) _ (own_read_msg-IsQuiet (shift b inc v) q)
        (λ r. counted (IsQuiet v) b dec (shift b inc v) _ (λ w h.
          (sum-Keeps r (λ m. handle-IsQuiet v fds q m size) (λ e. pure-Keeps)).at w
            (shift-shift b v w h)))

  read_one-IsQuiet : (size : ℕ) (last : Result ℕ) → Keeps (IsQuiet v) (read_one fds size last)
  unfolding read_one
  read_one-IsQuiet size last = bind-Keeps get-Keeps (λ w. bind-Keeps (turn-IsQuiet v) (λ b. record {
    at = counted (IsQuiet v) b inc v _ (
        measured (IsQuiet v) (shift b inc v) _ _ (λ n.
          round b (ltb n 1 && w.thread.non_block) (if b then w.proc.queue else w.thread.queue)));
  }))
    where
      round :
          (b idle : Bool) (q : ℕ) (w : World)
          → IsQuiet (shift b inc v) w
          → Behind (IsQuiet v) (
              (elim idle as (λ x. M Round) [
                | true ↦ count_looper b dec >> pure (Round.leave last)
                | false ↦ take_message fds b q size
              ])
                w)
      round b true q = counted (IsQuiet v) b dec (shift b inc v) _ (shift-shift b v)
      round b false q = take_message-IsQuiet b q size

  read_loop-IsQuiet :
      (fuel size : ℕ) (last : Result ℕ) → Keeps (IsQuiet v) (read_loop fuel fds size last)
  unfolding read_loop
  read_loop-IsQuiet zero size last = stuck-Keeps
  read_loop-IsQuiet (suc fuel) size last =
      bool-Keeps (ltb size 4)
        (bind-Keeps (read_one-IsQuiet size last) (go (read_loop-IsQuiet fuel size (ok 0))))
        result-Keeps
    where
      go :
          {m : M ℕ}
          → Keeps (IsQuiet v) m
          → (r : Round)
          → Keeps (IsQuiet v) (elim r as (λ x. M ℕ) [ Round.again ↦ m | Round.leave n ↦ result n ])
      go k Round.again = k
      go k (Round.leave n) = result-Keeps

  count_request-IsQuiet :
      Keeps
        (IsQuiet v)
        (update_proc (λ p. record p { requested_loopers = inc p.requested_loopers }))
  unfolding IsQuiet
  count_request-IsQuiet = record { at = λ w h. h }

  request_looper-IsQuiet : Keeps (IsQuiet v) request_looper
  unfolding request_looper
  request_looper-IsQuiet =
      then-Keeps (put_user-IsQuiet v (br_spawn_looper ∷ []))
        (then-Keeps count_request-IsQuiet pure-Keeps)

  bcmd_spawn_on_busy-IsQuiet :
      (busy : ℤ) (size : ℕ) → Keeps (IsQuiet v) (bcmd_spawn_on_busy busy size)
  unfolding bcmd_spawn_on_busy
  bcmd_spawn_on_busy-IsQuiet busy size = record {
    at = λ w h. if-Behind (IsQuiet v) (ltb size 4) _ _ h (go w h (may_spawn busy w.proc));
  }
    where
      go :
          (w : World)
          → IsQuiet v w
          → (b : Bool)
          → Behind
              (IsQuiet v)
              (elim b as (λ x. Exit ℕ) [ false ↦ back (ok 0) w | true ↦ request_looper w ])
      go w h false = h
      go w h true = request_looper-IsQuiet.at w h

pub reads-IsQuiet :
    (fuel : ℕ) (fds : ℕ → Option ℕ) (n0 : Result ℕ) (size : ℕ) (w : World)
    → Behind (IsQuiet w) (binder_thread_read fuel fds n0 size w)
unfolding binder_thread_read IsQuiet
reads-IsQuiet fuel fds n0 size w =
    (bool-Keeps (ready w.thread) (read_loop-IsQuiet w fds fuel size (nothing_read n0)) (
        bind-Keeps (queue_length-IsQuiet w w.proc.queue) (λ busy.
          bind-Keeps (bcmd_spawn_on_busy-IsQuiet w fds (pos busy) size)
            (λ n. bool-Keeps (n == 0) pure-Keeps (read_loop-IsQuiet w fds fuel size (ok 0)))))).at
      w (refl, refl, refl, refl, refl)

-- Whether it returns bytes or an error, a read leaves the counts of the threads that wait on the queue
-- of the process and of those that are busy in it, and the numbers of the two queues, as they were.
pub reads_balance :
    (fuel : ℕ) (fds : ℕ → Option ℕ) (n0 : Result ℕ) (size : ℕ) (w : World)
    → Behind (SameCounts w) (binder_thread_read fuel fds n0 size w)
reads_balance fuel fds n0 size w =
    Behind-imp (IsQuiet-SameCounts w) (binder_thread_read fuel fds n0 size w)
      (reads-IsQuiet fuel fds n0 size w)
