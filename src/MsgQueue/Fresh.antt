-- ===== src/MsgQueue/Fresh.antt =====
-- The retry loop of `rb_insert_queue` in module/new/msg_queue.c ends: with fewer than 2 ^ 32 queues
-- it meets a free number after at most one try more than there are queues.
use android_binder_ipc.Common.{
  ℕ, zero, suc, ◌+◌, ◌%◌, ◌^◌, ◌<◌, ◌≤◌, true, Option, none, some, List, [], ◌∷◌, ◌≡◌, ◌≢◌, refl,
  sym, ◌∙◌, arith, length, Option-cases, inl, inr,
}
use android_binder_ipc.MsgQueue.{
  Queue, rb_queue_exist, rb_erase, next_id, Queues, create_msg_queue, insert, new_queue,
}
use android_binder_ipc.MsgQueue.Registry.{exist-erase_ne}

-- The `k`-th number tried after `seq`.
abbrev try : ℕ → ℕ → ℕ
try seq k = (seq + suc k) % 2 ^ 32

module _ {M H : Type 0} where
  length-erase :
      (id : ℕ) (qs : List (Queue M H)) (q : Queue M H)
      → rb_queue_exist id qs ≡ some q
      → length qs ≡ suc (length (rb_erase id qs))
  unfolding rb_queue_exist rb_erase
  length-erase id [] q e = ground arith
  length-erase id (x ∷ qs) q e = ground (arith, length-erase id qs q)

  -- Distinct numbers that are all taken need as many queues.
  taken-le :
      (n seq : ℕ) (qs : List (Queue M H))
      → n ≤ 2 ^ 32
      → ((k : ℕ) → k < n → rb_queue_exist (try seq k) qs ≢ none)
      → n ≤ length qs
  taken-le zero seq qs h t = omega arith
  taken-le (suc n) seq qs h t = elim (Option-cases (rb_queue_exist (try seq n) qs)) [
    | inl free ↦ absurd (t n (omega arith) free)
    | inr (q, there) ↦
        let rest = taken-le n seq (rb_erase (try seq n) qs) (omega arith) (λ k lt free.
          let apart : try seq n ≢ try seq k = omega arith in
          t k (omega arith) (sym (exist-erase_ne (try seq n) (try seq k) qs apart) ∙ free)) in
        omega (arith, rest, length-erase (try seq n) qs q there)
  ]

  next_id-taken :
      (fuel seq : ℕ) (qs : List (Queue M H))
      → next_id fuel seq qs ≡ none
      → (k : ℕ) → k < fuel
      → rb_queue_exist (try seq k) qs ≢ none
  unfolding next_id
  next_id-taken zero seq qs e k h free = absurd (omega arith)
  next_id-taken (suc fuel) seq qs e zero h free =
      let same : try seq 0 ≡ (seq + 1) % 2 ^ 32 = omega arith in
      let now : rb_queue_exist ((seq + 1) % 2 ^ 32) qs ≡ none = rw (← same) free in ground arith
  next_id-taken (suc fuel) seq qs e (suc k) h free =
      elim (Option-cases (rb_queue_exist ((seq + 1) % 2 ^ 32) qs)) [
        | inl now ↦ ground arith
        | inr (q, there) ↦
            let same : try seq (suc k) ≡ try ((seq + 1) % 2 ^ 32) k = omega arith in
            next_id-taken fuel ((seq + 1) % 2 ^ 32) qs (ground arith) k (omega arith)
              (rw (← same) free)
      ]

  next_id-total :
      (seq : ℕ) (qs : List (Queue M H))
      → length qs < 2 ^ 32
      → (id : ℕ) × (next_id (length qs + 1) seq qs ≡ some id)
  next_id-total seq qs h = elim (Option-cases (next_id (length qs + 1) seq qs)) [
    | inl fails ↦ absurd (
        omega (
          arith,
          taken-le (length qs + 1) seq qs (omega arith)
              (next_id-taken (length qs + 1) seq qs fails),
        ))
    | inr found ↦ found
  ]

  -- With memory for the descriptor and fewer than 2 ^ 32 queues, `create_msg_queue` makes a queue:
  -- one try more than there are queues is enough.
  pub create_total :
      (max_msgs : ℕ) (release : Option H) (r : Queues M H)
      → length r.all < 2 ^ 32
      → (id : ℕ) × (r' : Queues M H) × (create_msg_queue (length r.all + 1) true max_msgs release r
          ≡ some (id, r'))
  unfolding create_msg_queue
  create_total max_msgs release r h =
      let (id, found) = next_id-total r.seq r.all h in
      (
        id,
        record { seq = id; all = insert (new_queue id max_msgs release) r.all },
        rw (found, create_msg_queue) refl,
      )
