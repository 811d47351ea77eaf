-- ===== src/Driver/Looper.antt =====
-- `bcmd_write_looper` and `bcmd_spawn_on_busy` of module/new/binder.c: the loopers of a process.
use android_binder_ipc.Common.{
  ℕ, ◌+◌, ◌≤◌, Bool, true, false, ◌&&◌, ◌||◌, List, [], ◌∷◌, ◌≡◌, refl, arith, ok, einval,
  if◌then◌else◌, ltb,
}
use android_binder_ipc.Common.Int.{ℤ, pos, negsuc, inc, dec, is, ltb_ℤ}
use android_binder_ipc.Common.{Bool-cases, inl, inr}
use android_binder_ipc.Driver.World.{put_user}
use android_binder_ipc.Driver.World.{
  World, M, Exit, back, stuck, pure, fail, ◌>>◌, update_proc, update_thread, Proc, Thread,
}

pub data LooperCmd : Type 0 where
  bc_enter_looper bc_exit_looper bc_register_looper : LooperCmd

-- state & BINDER_LOOPER_STATE_READY
abbrev pub ready : Thread → Bool
ready t = t.state.registered || t.state.entered

unfoldable pub bcmd_write_looper : LooperCmd → M (Unit {0})
bcmd_write_looper bc_enter_looper w =
    if ready w.thread
    then fail einval w
    else update_thread (λ t. record t { state = record t.state { entered = true } }) w
bcmd_write_looper bc_exit_looper w =
    if w.thread.state.entered
    then update_thread (λ t. record t { state = record { registered = false; entered = false } }) w
    else fail einval w
bcmd_write_looper bc_register_looper w =
    if ready w.thread
    then fail einval w
    else update_proc
        (λ p. record p {
          registered_loopers = inc p.registered_loopers;
          requested_loopers = dec p.requested_loopers;
        })
        w

-- BR_SPAWN_LOOPER
abbrev pub br_spawn_looper : ℕ
br_spawn_looper = 0x720d

-- `busy` is msg_queue_size of the process's queue.
abbrev pub may_spawn : ℤ → Proc → Bool
may_spawn busy p =
    ltb_ℤ p.proc_loopers busy
    && ltb_ℤ p.registered_loopers p.max_threads
    && is p.requested_loopers 0

-- The thread writes BR_SPAWN_LOOPER and counts the request.
unfoldable pub request_looper : M ℕ
unfolding put_user
request_looper = do
  put_user (br_spawn_looper ∷ [])
  update_proc (λ p. record p { requested_loopers = inc p.requested_loopers })
  pure 4

-- Asks user space for another thread: the bytes written. The function runs here as one step. The
-- source takes no lock between the test of the count and `atomic_inc`: two threads that are both in
-- between ask twice (`both_request` of Driver/Tests.antt).
unfoldable pub bcmd_spawn_on_busy : ℤ → ℕ → M ℕ
unfolding request_looper
bcmd_spawn_on_busy busy size w =
    if ltb size 4
    then back (ok 0) w
    else elim (may_spawn busy w.proc) [ false ↦ back (ok 0) w | true ↦ request_looper w ]

-- Registered loopers, requests under way and the most of them: one request at a time, and no more
-- loopers in all than the process wants.
unfoldable pub Bounded : ℤ → ℤ → ℤ → Type 0
Bounded (pos registered) (pos requested) (pos most) =
    (requested ≤ 1) × (registered + requested ≤ most)
Bounded (pos registered) (pos requested) (negsuc most) = ⊥
Bounded (pos registered) (negsuc requested) most = ⊥
Bounded (negsuc registered) requested most = ⊥

unfoldable pub IsBounded : World → Type 0
unfolding Bounded
IsBounded w = Bounded w.proc.registered_loopers w.proc.requested_loopers w.proc.max_threads

-- The state behind a call.
unfoldable pub state_of {ℓ} : {A : Type ℓ} → Exit A → World → World
state_of (back r w) before = w
state_of stuck before = before

-- The calls that a process makes on its loopers, by any of its threads, one after the other, with the loopers that wait
-- counted anew. A thread registers only where one was requested.
pub data Step : World → World → Type 0 where
  spawn : (w : World) (busy : ℤ) (size : ℕ) → Step w (state_of (bcmd_spawn_on_busy busy size w) w)
  looper :
      (w : World) (cmd : LooperCmd)
      → (cmd ≡ LooperCmd.bc_register_looper → is w.proc.requested_loopers 1 ≡ true)
      → Step w (state_of (bcmd_write_looper cmd w) w)
  other_thread :
      (w : World) (t : Thread) (waiting : ℤ)
      → Step w (record w { thread = t; proc = record w.proc { proc_loopers = waiting } })

pub data Steps : World → World → Type 0 where
  done : (w : World) → Steps w w
  more : (w v u : World) → Step w v → Steps v u → Steps w u

Bounded-request :
    (r q m : ℤ) → Bounded r q m → ltb_ℤ r m ≡ true → is q 0 ≡ true → Bounded r (inc q) m
unfolding Bounded
Bounded-request (pos r) (pos q) (pos m) h lt e = (grind arith, grind arith)
Bounded-request (pos r) (pos q) (negsuc m) h lt e = h
Bounded-request (pos r) (negsuc q) m h lt e = absurd h
Bounded-request (negsuc r) q m h lt e = h

Bounded-register : (r q m : ℤ) → Bounded r q m → is q 1 ≡ true → Bounded (inc r) (dec q) m
unfolding Bounded
Bounded-register (pos r) (pos q) (pos m) h e =
    let one : q ≡ 1 = grind arith in rw one (omega arith, grind arith)
Bounded-register (pos r) (pos q) (negsuc m) h e = absurd h
Bounded-register (pos r) (negsuc q) m h e = absurd h
Bounded-register (negsuc r) q m h e = absurd h

request-IsBounded :
    (w : World)
    → IsBounded w
    → Bounded w.proc.registered_loopers (inc w.proc.requested_loopers) w.proc.max_threads
    → IsBounded (state_of (request_looper w) w)
unfolding request_looper put_user IsBounded state_of
request-IsBounded w h asked = go w.writable
  where
    go :
        (answers : List Bool)
        → IsBounded (
            state_of
              (request_looper (record w { writable = answers }))
              (record w { writable = answers }))
    go [] = asked
    go (true ∷ rest) = asked
    go (false ∷ rest) = h

-- Each call on the loopers keeps the bounds.
Step-IsBounded : (w w' : World) → Step w w' → IsBounded w → IsBounded w'
unfolding bcmd_spawn_on_busy bcmd_write_looper IsBounded state_of
Step-IsBounded w w' (spawn v busy size) h = elim (Bool-cases (ltb size 4)) [
  | inl e ↦ rw e h
  | inr e ↦ elim (Bool-cases (may_spawn busy w.proc)) [
    | inl g ↦
        rw (e, g)
          (request-IsBounded w h (
            Bounded-request w.proc.registered_loopers w.proc.requested_loopers w.proc.max_threads h
              (grind arith) (grind arith)))
    | inr g ↦ rw (e, g) h
  ]
]
Step-IsBounded w w' (looper v LooperCmd.bc_enter_looper asked) h =
    elim (Bool-cases (ready w.thread)) [ inl e ↦ rw e h | inr e ↦ rw e h ]
Step-IsBounded w w' (looper v LooperCmd.bc_exit_looper asked) h =
    elim (Bool-cases w.thread.state.entered) [ inl e ↦ rw e h | inr e ↦ rw e h ]
Step-IsBounded w w' (looper v LooperCmd.bc_register_looper asked) h =
    elim (Bool-cases (ready w.thread)) [
      | inl e ↦ rw e h
      | inr e ↦ rw e (
          Bounded-register w.proc.registered_loopers w.proc.requested_loopers w.proc.max_threads h
            (asked refl))
    ]
Step-IsBounded w w' (other_thread v t waiting) h = h

-- From a state with at most one request under way, and registered loopers and request together at
-- most max_threads, both stay so through any calls of the process's threads on its loopers one after
-- the other, no two threads inside `bcmd_spawn_on_busy` at once, however many threads wait, as long
-- as a thread registers only where BR_SPAWN_LOOPER has asked for one and max_threads stays.
pub loopers-IsBounded : (w w' : World) → Steps w w' → IsBounded w → IsBounded w'
loopers-IsBounded w w' (done v) h = h
loopers-IsBounded w w' (more x v u s rest) h = loopers-IsBounded v w' rest (Step-IsBounded w v s h)

-- While the count of requests is not 0, no thread is asked for, however busy the process is.
pub no_spawn :
    (w : World) (busy : ℤ) (size : ℕ)
    → is w.proc.requested_loopers 0 ≡ false
    → bcmd_spawn_on_busy busy size w ≡ back (ok 0) w
unfolding bcmd_spawn_on_busy
no_spawn w busy size e =
    let no : may_spawn busy w.proc ≡ false = grind arith in
    elim (Bool-cases (ltb size 4)) [ inl s ↦ rw s refl | inr s ↦ rw (s, no) refl ]
