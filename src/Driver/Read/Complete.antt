-- ===== src/Driver/Read/Complete.antt =====
-- A thread of module/new/binder.c whose call has been taken reads BR_TRANSACTION_COMPLETE.
use android_binder_ipc.Common.{
  ℕ, suc, ◌-◌, ◌<◌, ◌≤◌, Bool, true, false, not, ◌&&◌, Option, none, some, List, [], ◌∷◌, ◌++◌, ◌≡◌,
  refl, ap, ◌∙◌, arith, Result, ok, err, enospc, ltb, ◌==◌,
}
use android_binder_ipc.Common.Int.{pos, dec, ltb_ℤ}
use android_binder_ipc.MsgQueue.{Queue, rb_queue_exist, modify}
use android_binder_ipc.MsgQueue.Wait.Signals.{read_now}
use android_binder_ipc.Driver.World.{
  World, M, Exit, back, stuck, pure, fail, attempt, result, put_user, ◌>>=◌, ◌>>◌, Msg, MsgType,
  Handler,
}
use android_binder_ipc.Driver.Messages.{own_read_msg, wait_for}
use android_binder_ipc.Driver.Looper.{ready, bcmd_spawn_on_busy}
use android_binder_ipc.Driver.Handlers.Counts.{put_known}
use android_binder_ipc.Driver.Handlers.{code_of, bcmd_read_transaction_complete}
use android_binder_ipc.Driver.Read.{
  queue_length, dispatch, forces, count_looper, turn, Round, handle, take_message, read_one,
  read_loop, nothing_read, binder_thread_read,
}

step :
    {A B : Type 0} (m : M A) (f : A → M B) (w w' : World) (a : A)
    → m w ≡ back (ok a) w'
    → (m >>= f) w ≡ f a w'
step {A} {B} m f w w' a e =
    ap
      (λ x. elim x as (λ y. Exit B) [
        | back r v ↦ elim r [ ok a ↦ f a v | err e ↦ back (err e) v ]
        | stuck ↦ stuck
      ])
      e

tried :
    {A : Type 0} (m : M A) (w w' : World) (r : Result A)
    → m w ≡ back r w'
    → attempt m w ≡ back (ok r) w'
tried {A} m w w' r e =
    ap (λ x. elim x as (λ y. Exit (Result A)) [ back r v ↦ back (ok r) v | stuck ↦ stuck ]) e

and_false : (a : Bool) → (a && false) ≡ false
and_false true = refl
and_false false = refl

-- What tells the caller that its call has been taken.
abbrev pub told : Msg → Msg
told m = record m { type = MsgType.br_transaction_complete }

-- A message has been taken from the thread's queue.
abbrev took : World → List Msg → World
took w ms = record w {
  queues = record w.queues {
    all =
        modify w.thread.queue (λ x. record x { msgs = ms; num_msgs = x.num_msgs - 1 }) w.queues.all;
  };
}

-- The word for the user has been written, too.
abbrev pub completed : World → List Msg → World
completed w ms = record (took w ms) { out = w.out ++ 0x7206 ∷ [] }

module _ (w : World) (q : Queue Msg Handler) (m : Msg) (ms : List Msg) (fds : ℕ → Option ℕ)
    (size : ℕ) (room : 4 ≤ size) (writable : w.writable ≡ [])
    (there : rb_queue_exist w.thread.queue w.queues.all ≡ some q) (active : q.active ≡ true)
    (some_msgs : 0 < q.num_msgs) (first : q.msgs ≡ told m ∷ ms) where
  own_length : queue_length w.thread.queue w ≡ back (ok q.num_msgs) w
  unfolding queue_length
  own_length =
      ap (λ o. elim o as (λ x. Exit ℕ) [ none ↦ stuck | some x ↦ back (ok x.num_msgs) w ]) there

  not_empty : ltb q.num_msgs 1 ≡ false
  not_empty = grind arith

  own_turn : turn w ≡ back (ok false) w
  unfolding turn
  own_turn =
      step (queue_length w.thread.queue) _ w w q.num_msgs own_length
      ∙ ap (λ b. back (ok (not (ltb_ℤ (pos 0) w.thread.pending_replies) && b)) w) not_empty
      ∙ ap (λ b. back (ok b) w) (and_false (not (ltb_ℤ (pos 0) w.thread.pending_replies)))

  own_read : own_read_msg w.thread.queue w ≡ back (ok (told m)) (took w ms)
  unfolding own_read_msg
  own_read =
      ap (λ x. wait_for x w)
        (read_now w.thread.queue (told m) ms w.wakes w.signal w.queues.all q there active some_msgs
          first)

  roomy : ltb size 4 ≡ false
  roomy = grind arith

  dispatched : dispatch fds (told m) size (took w ms) ≡ back (ok 4) (completed w ms)
  unfolding dispatch bcmd_read_transaction_complete code_of
  dispatched =
      ap
        (λ b.
          (elim b as (λ x. M ℕ) [ true ↦ fail enospc | false ↦ put_user (0x7206 ∷ []) >> pure 4 ])
            (took w ms))
        roomy
      ∙ step (put_user (0x7206 ∷ [])) (λ u. pure 4) (took w ms) (completed w ms) tt
          (put_known (0x7206 ∷ []) (took w ms) writable)

  handled :
      handle fds w.thread.queue (told m) size (took w ms)
      ≡ back (ok (Round.leave (ok 4))) (completed w ms)
  unfolding handle forces
  handled =
      step (attempt (dispatch fds (told m) size)) _ (took w ms) (completed w ms) (ok 4)
        (tried (dispatch fds (told m) size) (took w ms) (completed w ms) (ok 4) dispatched)

  taken :
      take_message fds false w.thread.queue size w ≡ back (ok (Round.leave (ok 4))) (completed w ms)
  unfolding take_message count_looper
  taken =
      step (attempt (own_read_msg w.thread.queue)) _ w (took w ms) (ok (told m))
        (tried (own_read_msg w.thread.queue) w (took w ms) (ok (told m)) own_read)
      ∙ handled

  one_round :
      (last : Result ℕ) → read_one fds size last w ≡ back (ok (Round.leave (ok 4))) (completed w ms)
  unfolding read_one count_looper
  one_round last =
      step turn _ w w false own_turn
      ∙ step (queue_length w.thread.queue) _ w w q.num_msgs own_length
      ∙ ap
          (λ b.
            (elim (b && w.thread.non_block) as (λ x. M Round) [
              | true ↦ count_looper false dec >> pure (Round.leave last)
              | false ↦ take_message fds false w.thread.queue size
            ])
              w)
          not_empty
      ∙ taken

-- A thread that is no looper, with room for the word in its buffer, which can be written, and whose own
-- queue is active, counts at least one message and has BR_TRANSACTION_COMPLETE first, does not wait,
-- whatever messages stand behind it and whatever the queue of the process holds: in one round it takes
-- this message only, writes the word for it, and returns its four bytes.
pub read_complete :
    (w : World) (q : Queue Msg Handler) (m : Msg) (ms : List Msg) (fds : ℕ → Option ℕ)
    (n0 : Result ℕ) (fuel size : ℕ)
    → ready w.thread ≡ false
    → 4 ≤ size
    → w.writable ≡ []
    → rb_queue_exist w.thread.queue w.queues.all ≡ some q
    → q.active ≡ true
    → 0 < q.num_msgs
    → q.msgs ≡ told m ∷ ms
    → binder_thread_read (suc fuel) fds n0 size w ≡ back (ok 4) (completed w ms)
unfolding binder_thread_read read_loop
read_complete w q m ms fds n0 fuel size idle room writable there active some_msgs first =
    ap
      (λ b.
        (elim b as (λ x. M ℕ) [
          | false ↦ read_loop (suc fuel) fds size (nothing_read n0)
          | true ↦ queue_length w.proc.queue >>= (λ busy.
              bcmd_spawn_on_busy (pos busy) size >>= (λ n. elim (n == 0) as (λ x. M ℕ) [
                | true ↦ read_loop (suc fuel) fds size (ok 0)
                | false ↦ pure n
              ]))
        ])
          w)
      idle
    ∙ ap
        (λ b.
          (elim b as (λ x. M ℕ) [
            | true ↦ result (nothing_read n0)
            | false ↦ read_one fds size (nothing_read n0) >>= (λ r. elim r as (λ x. M ℕ) [
              | Round.again ↦ read_loop fuel fds size (ok 0)
              | Round.leave n ↦ result n
            ])
          ])
            w)
        (roomy w q m ms fds size room writable there active some_msgs first)
    ∙ step (read_one fds size (nothing_read n0)) _ w (completed w ms) (Round.leave (ok 4))
        (one_round w q m ms fds size room writable there active some_msgs first (nothing_read n0))
