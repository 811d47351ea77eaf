-- ===== src/MsgQueue/Rounds.antt =====
-- What one round of a reader or a writer of module/new/msg_queue.c does to its queue.
use android_binder_ipc.Common.{
  ◌+◌, ◌≤◌, Bool, true, false, none, some, List, [], ◌∷◌, ◌++◌, ◌≡◌, ◌≢◌, refl, ap, arith, length,
  length-append, inl, inr, Result, ok, Option-cases,
}
use android_binder_ipc.MsgQueue.{
  Queue, exits, faults, split_last, take_entry, write_round, read_round,
}

module _ {M : Type 0} where
  length-split_last : (m : M) (ms : List M) → length (split_last m ms).0 ≡ length ms
  unfolding split_last
  length-split_last m [] = refl
  length-split_last m (n ∷ ms) = omega (arith, length-split_last n ms)

  pub append-split_last :
      (m : M) (ms : List M) → (split_last m ms).0 ++ (split_last m ms).1 ∷ [] ≡ m ∷ ms
  unfolding split_last
  append-split_last m [] = refl
  append-split_last m (n ∷ ms) = ap (◌∷◌ m) (append-split_last n ms)

  -- The entry that a reader takes leaves one message less, and in a valid queue there is one
  -- whenever `num_msgs` is not 0.
  take_entry-length :
      (tail : Bool) (ms : List M) (m : M) (rest : List M)
      → take_entry tail ms ≡ some (m, rest)
      → length ms ≡ length rest + 1
  unfolding take_entry
  take_entry-length tail [] m rest e = ground arith
  take_entry-length tail (x ∷ ms) m rest e = ground (arith, length-split_last x ms)

  take_entry-none : (tail : Bool) (ms : List M) → take_entry tail ms ≡ none → length ms ≡ 0
  unfolding take_entry
  take_entry-none tail [] e = refl
  take_entry-none tail (x ∷ ms) e = ground arith

module _ {M H : Type 0} where
  -- `num_msgs` counts the list, and stays within the limit.
  pub record IsValid (q : Queue M H) : Type 0 where
    pub counted : q.num_msgs ≡ length q.msgs
    pub within : q.num_msgs ≤ q.max_msgs

  -- Whatever a writer's round does, the queue stays valid.
  pub write_round-IsValid :
      (m : M) (head signal : Bool) (q q' : Queue M H) (r : Result (Unit {0}))
      → IsValid q
      → write_round m head signal q ≡ exits r q'
      → IsValid q'
  unfolding write_round
  write_round-IsValid m head signal q q' r v e = ground (arith, length-append q.msgs (m ∷ []))

  pub read_round-IsValid :
      (tail signal : Bool) (q q' : Queue M H) (r : Result M)
      → IsValid q
      → read_round tail signal q ≡ exits r q'
      → IsValid q'
  unfolding read_round
  read_round-IsValid tail signal q q' r v e = elim (Option-cases (take_entry tail q.msgs)) [
    | inl empty ↦ ground (arith, take_entry-none tail q.msgs empty)
    | inr ((m, rest), taken) ↦ ground (arith, take_entry-length tail q.msgs m rest taken)
  ]

  -- A reader never runs off the list of a valid queue.
  pub read_round-ne-faults :
      (tail signal : Bool) (q : Queue M H) → IsValid q → read_round tail signal q ≢ faults
  unfolding read_round
  read_round-ne-faults tail signal q v e = ground (arith, take_entry-none tail q.msgs)

  -- A message written at the head is the next one read, and the queue is then as it was: what a
  -- reader puts back is not lost.
  pub read-write_head :
      (m : M) (s s' : Bool) (q q' : Queue M H)
      → write_round m true s q ≡ exits (ok tt) q'
      → read_round false s' q' ≡ exits (ok m) q
  unfolding write_round read_round take_entry
  read-write_head m s s' q q' e = ground arith
