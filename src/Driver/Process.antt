-- ===== src/Driver/Process.antt =====
-- The processes and threads of module/new/binder.c: `binder_new_proc`, `binder_new_thread`,
-- `binder_get_thread`, and the ends of both up to the release of their queues. The thread tree of a
-- process is the list of its threads.
pub mod Threads
pub mod Release
use android_binder_ipc.Common.{
  ℕ, zero, suc, ◌-◌, Bool, true, false, Option, none, some, List, [], ◌∷◌, Result, ok, err, enomem,
  if◌then◌else◌, ltb, ◌==◌, length,
}
use android_binder_ipc.Common.Int.{pos}
use android_binder_ipc.MsgQueue.{
  Put, kept, freed, bug, rb_queue_exist, create_msg_queue, disable_msg_queue, free_msg_queue,
}
use android_binder_ipc.Driver.World.{
  World, M, Exit, back, stuck, pure, fail, ◌>>=◌, ◌>>◌, attempt, get, kmalloc, Handler, Obj, ObjPtr,
  Proc, Thread,
}
use android_binder_ipc.Driver.Messages.{get_queue}

-- create_msg_queue(0, release, data): the number of the queue, or NULL.
unfoldable pub create_queue : Handler → M (Option ℕ)
create_queue release = do
  there ← kmalloc
  λ w. elim (create_msg_queue (suc (length w.queues.all)) there 0 (some release) w.queues) [
    | none ↦ back (ok none) w
    | some (id, qs) ↦ back (ok (some id)) (record w { queues = qs })
  ]

abbrev pub new_thread : ℕ → ℕ → Bool → Thread
new_thread pid queue non_block = record {
  pid = pid;
  queue = queue;
  state = record { registered = false; entered = false };
  non_block = non_block;
  pending_replies = pos 0;
  incoming_transactions = [];
}

-- The thread before it is linked; it holds its process's queue. The queue of a thread that cannot get
-- that one stays behind.
unfoldable pub binder_new_thread : ℕ → Bool → M (Option Thread)
unfolding create_queue get_queue
binder_new_thread pid non_block = do
  there ← kmalloc
  elim there [
    | false ↦ pure none
    | true ↦ do
      queue ← create_queue (Handler.thread_queue_release pid)
      elim queue [
        | none ↦ pure none
        | some id ↦ do
          w ← get
          held ← attempt (get_queue w.proc.queue)
          elim held [ err e ↦ pure none | ok u ↦ pure (some (new_thread pid id non_block)) ]
      ]
  ]

unfoldable pub find_thread : ℕ → List Thread → Option Thread
find_thread pid [] = none
find_thread pid (t ∷ ts) = if t.pid == pid then some t else find_thread pid ts

-- The thread of the caller and the threads of its process: found, or made and linked.
unfoldable pub binder_get_thread : List Thread → ℕ → Bool → M (Option Thread × List Thread)
unfolding find_thread binder_new_thread
binder_get_thread ts pid non_block = elim (find_thread pid ts) [
  | some t ↦ pure (some t, ts)
  | none ↦ do
    made ← binder_new_thread pid non_block
    elim made [ none ↦ pure (none, ts) | some t ↦ pure (some t, t ∷ ts) ]
]

unfoldable pub binder_new_proc : ℕ → M (Option Proc)
unfolding create_queue
binder_new_proc pid = do
  there ← kmalloc
  elim there [
    | false ↦ pure none
    | true ↦ do
      queue ← create_queue (Handler.proc_queue_release pid)
      elim queue [
        | none ↦ pure none
        | some id ↦ pure (
            some (record {
              queue = id;
              obj_seq = 1;
              slob = none;
              slob_uses = pos 0;
              ustart = 0;
              pid = pid;
              busy_threads = pos 0;
              proc_loopers = pos 0;
              requested_loopers = pos 0;
              registered_loopers = pos 0;
              max_threads = pos 0;
              reclaim_list = [];
            }))
      ]
  ]

unfoldable pub binder_open : ℕ → M Proc
unfolding binder_new_proc
binder_open pid = do made ← binder_new_proc pid; elim made [ none ↦ fail enomem | some p ↦ pure p ]

-- free_msg_queue: a queue whose last reference goes is to be released.
unfoldable pub free_queue : ℕ → M (Unit {0})
free_queue id w = elim (free_msg_queue id w.queues) [
  | none ↦ stuck
  | some p ↦ elim p [
    | kept r ↦ back (ok tt) (record w { queues = r })
    | freed q r ↦ back (ok tt) (record w { queues = r; released = q ∷ w.released })
    | bug ↦ stuck
  ]
]

unfoldable pub binder_free_thread : Thread → M (Unit {0})
unfolding free_queue
binder_free_thread t = free_queue t.queue

-- The rounds of the loop in `binder_free_proc` for one thread: it stays in the tree until its queue is
-- released, whoever holds the references that are dropped.
unfoldable pub drop_thread : ℕ → Thread → M (Unit {0})
unfolding binder_free_thread
drop_thread zero t = λ w. stuck
drop_thread (suc fuel) t = do
  w ← get
  binder_free_thread t
  elim (rb_queue_exist t.queue w.queues.all) [
    | none ↦ pure tt
    | some q ↦ if ltb 1 q.usage then drop_thread fuel t else pure tt
  ]

-- As many rounds as the queue has references.
abbrev pub usage_of : Thread → World → ℕ
usage_of t w = elim (rb_queue_exist t.queue w.queues.all) [ none ↦ 0 | some q ↦ q.usage ]

unfoldable pub free_threads : List Thread → M (Unit {0})
unfolding drop_thread
free_threads [] = pure tt
free_threads (t ∷ ts) = do w ← get; drop_thread (suc (usage_of t w)) t; free_threads ts

unfoldable pub binder_free_proc : List Thread → M (Unit {0})
unfolding free_threads free_queue
binder_free_proc ts = do
  w ← get
  λ v. back (ok tt) (record v { queues = disable_msg_queue w.proc.queue v.queues })
  free_threads ts
  free_queue w.proc.queue

-- The context manager goes with its process.
abbrev pub forget_manager : M (Unit {0})
forget_manager w = elim w.context_mgr_obj [
  | none ↦ back (ok tt) w
  | some p ↦
      if p.table == w.proc.queue
      then back (ok tt) (record w { context_mgr_obj = none })
      else back (ok tt) w
]

unfoldable pub binder_release : List Thread → M (Unit {0})
unfolding binder_free_proc
binder_release ts = do forget_manager; binder_free_proc ts
