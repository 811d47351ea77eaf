-- ===== src/MsgQueue.antt =====
-- module/new/msg_queue.h and msg_queue.c: message queues, known to all processes by a number.
-- A queue is generic in its messages `M` and in what its release handler is given, `H`. The global
-- tree is read here as the list of its queues (`Tree` has the descents of the source); `kmalloc` and
-- the scheduler are arguments. A spinlock is held only within what is one step here.
pub mod Wait
pub mod Registry
pub mod Fresh
pub mod Rounds
pub mod Fifo
pub mod Tree
mod Tests
use android_binder_ipc.Common.{
  ℕ, zero, suc, ◌+◌, ◌-◌, ◌%◌, ◌^◌, Bool, true, false, not, ◌&&◌, ◌||◌, Option, none, some, List,
  [], ◌∷◌, ◌++◌, ltb, leb, ◌==◌, if◌then◌else◌, Result, ok, err, Errno, eio, erestartsys,
}

abbrev pub default_max : ℕ
default_max = 100

-- `struct msg_queue`; `rd_wait` and `wr_wait` count the threads on the two wait queues, and
-- `release` is the handler with its private data.
pub record Queue (M H : Type 0) : Type 0 where
  pub id : ℕ
  pub active : Bool
  pub num_msgs : ℕ
  pub max_msgs : ℕ
  pub msgs : List M
  pub rd_wait : ℕ
  pub wr_wait : ℕ
  pub usage : ℕ
  pub release : Option H

-- g_queue_seq and the queues of g_queue_tree.
pub record Queues (M H : Type 0) : Type 0 where
  pub seq : ℕ
  pub all : List (Queue M H)

-- What a reader or writer does at one round of its loop: it leaves, or it calls schedule().
-- `faults` is an access through a list that does not hold what `num_msgs` promises.
pub data Round (M H A : Type 0) : Type 0 where
  exits : Result A → Queue M H → Round M H A
  sleeps : Round M H A
  faults : Round M H A

module _ {M H : Type 0} where
  unfoldable pub rb_queue_exist : ℕ → List (Queue M H) → Option (Queue M H)
  rb_queue_exist id [] = none
  rb_queue_exist id (q ∷ qs) = if q.id == id then some q else rb_queue_exist id qs

  -- the queue of that number, replaced by `f` of it
  pub modify : ℕ → (Queue M H → Queue M H) → List (Queue M H) → List (Queue M H)
  modify id f [] = []
  modify id f (q ∷ qs) = if q.id == id then f q ∷ qs else q ∷ modify id f qs

  pub rb_erase : ℕ → List (Queue M H) → List (Queue M H)
  rb_erase id [] = []
  rb_erase id (q ∷ qs) = if q.id == id then qs else q ∷ rb_erase id qs

  -- `rb_insert_queue`: the retry loop for a number that no queue has, and the insertion in order.
  pub next_id : ℕ → ℕ → List (Queue M H) → Option ℕ
  unfolding rb_queue_exist
  next_id zero seq qs = none
  next_id (suc fuel) seq qs =
      let id = (seq + 1) % 2 ^ 32 in
      elim (rb_queue_exist id qs) [ none ↦ some id | some q ↦ next_id fuel id qs ]

  pub insert : Queue M H → List (Queue M H) → List (Queue M H)
  insert new [] = new ∷ []
  insert new (q ∷ qs) = if ltb new.id q.id then new ∷ q ∷ qs else q ∷ insert new qs

  new_queue : ℕ → ℕ → Option H → Queue M H
  new_queue id max_msgs release = record {
    id = id;
    active = true;
    num_msgs = 0;
    max_msgs = if ltb 0 max_msgs then max_msgs else default_max;
    msgs = [];
    rd_wait = 0;
    wr_wait = 0;
    usage = 1;
    release = release;
  }

  -- `kmalloc` says whether there is memory; the result is the number of the new queue.
  pub create_msg_queue : ℕ → Bool → ℕ → Option H → Queues M H → Option (ℕ × Queues M H)
  unfolding next_id insert new_queue
  create_msg_queue fuel kmalloc max_msgs release r =
      if not kmalloc then none else elim (next_id fuel r.seq r.all) [
        | none ↦ none
        | some id ↦
            some (id, record { seq = id; all = insert (new_queue id max_msgs release) r.all })
      ]

  -- The queue with one more reference, or NULL.
  pub get_msg_queue : ℕ → Queues M H → Option (Queues M H)
  unfolding rb_queue_exist modify
  get_msg_queue id r = elim (rb_queue_exist id r.all) [
    | none ↦ none
    | some q ↦ some (record r { all = modify id (λ q. record q { usage = q.usage + 1 }) r.all })
  ]

module _ {M : Type 0} where
  -- The last message of the list, and those before it.
  pub split_last : M → List M → List M × M
  split_last m [] = ([], m)
  split_last m (n ∷ ms) = let (rest, last) = split_last n ms in (m ∷ rest, last)

  -- The entry that `_read_msg_queue` takes, and what it leaves.
  pub take_entry : Bool → List M → Option (M × List M)
  unfolding split_last
  take_entry tail [] = none
  take_entry tail (m ∷ ms) =
      let (rest, last) = split_last m ms in some (if tail then (last, rest) else (m, ms))

-- What `put_msg_queue` did: a reference was left, or the queue is gone and its release handler is
-- to be called, or threads still waited (BUG_ON).
pub data Put (M H : Type 0) : Type 0 where
  kept : Queues M H → Put M H
  freed : Queue M H → Queues M H → Put M H
  bug : Put M H

module _ {M H : Type 0} where
  -- The pointer of the source is to a queue of the tree; `none` is any other pointer.
  pub put_msg_queue : ℕ → Queues M H → Option (Put M H)
  unfolding rb_queue_exist modify rb_erase
  put_msg_queue id r = elim (rb_queue_exist id r.all) [
    | none ↦ none
    | some q ↦
        if ltb 0 (q.usage - 1)
        then some
            (kept (record r { all = modify id (λ q. record q { usage = q.usage - 1 }) r.all }))
        else if ltb 0 q.rd_wait || ltb 0 q.wr_wait
        then some bug
        else some (freed (record q { usage = q.usage - 1 }) (record r { all = rb_erase id r.all }))
  ]

  pub disable_msg_queue : ℕ → Queues M H → Queues M H
  unfolding modify
  disable_msg_queue id r = record r { all = modify id (λ q. record q { active = false }) r.all }

  pub free_msg_queue : ℕ → Queues M H → Option (Put M H)
  unfolding disable_msg_queue put_msg_queue
  free_msg_queue id r = put_msg_queue id (disable_msg_queue id r)

  pub msg_queue_empty : Queue M H → Bool
  msg_queue_empty q = ltb q.num_msgs 1

  pub msg_queue_pop : Queue M H → Option (M × Queue M H)
  msg_queue_pop q = elim q.msgs [ [] ↦ none | m ∷ ms ↦ some (m, record q { msgs = ms }) ]

  -- One round of `_write_msg_queue`; `signal` is signal_pending(current).
  pub write_round : M → Bool → Bool → Queue M H → Round M H (Unit {0})
  write_round msg head signal q =
      if not q.active
      then exits (err eio) q
      else if ltb q.num_msgs q.max_msgs
      then exits (ok tt) (record q {
        msgs = if head then msg ∷ q.msgs else q.msgs ++ msg ∷ [];
        num_msgs = q.num_msgs + 1;
      })
      else if signal
      then exits (err erestartsys) q
      else sleeps

  pub read_round : Bool → Bool → Queue M H → Round M H M
  unfolding take_entry
  read_round tail signal q =
      if not q.active
      then exits (err eio) q
      else if ltb 0 q.num_msgs
      then elim (take_entry tail q.msgs) [
        | none ↦ faults
        | some (entry, rest) ↦
            exits (ok entry) (record q { msgs = rest; num_msgs = q.num_msgs - 1 })
      ]
      else if signal
      then exits (err erestartsys) q
      else sleeps
