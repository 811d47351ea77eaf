-- ===== src/MsgQueue/Registry.antt =====
-- Laws of the queue tree of module/new/msg_queue.c, read as a list, and of its references.
use android_binder_ipc.Common.{
  ℕ, ◌+◌, ◌-◌, ◌<◌, Bool, true, Option, none, some, List, [], ◌∷◌, ◌≡◌, ◌≢◌, refl, ap, arith,
  Option-cases, ◌∙◌, Bool-cases, subst, zero, suc, ◌%◌, ◌^◌, inl, inr, ◌==◌, All,
}
use android_binder_ipc.MsgQueue.{
  Queue, Queues, kept, freed, rb_queue_exist, modify, rb_erase, get_msg_queue, put_msg_queue,
  insert, next_id, create_msg_queue, new_queue,
}

module _ {M H : Type 0} where
  -- A change that leaves the number alone.
  abbrev pub KeepsId : (Queue M H → Queue M H) → Type 0
  KeepsId f = (q : Queue M H) → (f q).id ≡ q.id

  pub exist-id :
      (id : ℕ) (qs : List (Queue M H)) (q : Queue M H) → rb_queue_exist id qs ≡ some q → q.id ≡ id
  unfolding rb_queue_exist
  exist-id id [] q e = ground arith
  exist-id id (x ∷ qs) q e = ground (arith, exist-id id qs q)

  pub exist-modify_self :
      (id : ℕ) (f : Queue M H → Queue M H) (qs : List (Queue M H)) (q : Queue M H)
      → KeepsId f
      → rb_queue_exist id qs ≡ some q
      → rb_queue_exist id (modify id f qs) ≡ some (f q)
  unfolding rb_queue_exist modify
  exist-modify_self id f [] q k e = ground arith
  exist-modify_self id f (x ∷ qs) q k e = ground (arith, k x, exist-modify_self id f qs q k)

  pub exist-modify_ne :
      (id j : ℕ) (f : Queue M H → Queue M H) (qs : List (Queue M H))
      → KeepsId f
      → id ≢ j
      → rb_queue_exist j (modify id f qs) ≡ rb_queue_exist j qs
  unfolding rb_queue_exist modify
  exist-modify_ne id j f [] k n = refl
  exist-modify_ne id j f (x ∷ qs) k n = ground (arith, k x, exist-modify_ne id j f qs k n)

  pub modify-modify :
      (id : ℕ) (f g : Queue M H → Queue M H) (qs : List (Queue M H))
      → KeepsId f
      → modify id g (modify id f qs) ≡ modify id (λ q. g (f q)) qs
  unfolding modify
  modify-modify id f g [] k = refl
  modify-modify id f g (x ∷ qs) k = ground (arith, k x, modify-modify id f g qs k)

  -- Only the queue itself decides what the change does.
  pub modify_at :
      (id : ℕ) (f g : Queue M H → Queue M H) (qs : List (Queue M H)) (q : Queue M H)
      → rb_queue_exist id qs ≡ some q
      → f q ≡ g q
      → modify id f qs ≡ modify id g qs
  unfolding rb_queue_exist modify
  modify_at id f g [] q e h = refl
  modify_at id f g (x ∷ qs) q e h = elim (Bool-cases (x.id == id)) [
    | inl hit ↦
        let same : x ≡ q = ground arith in
        let both : f x ≡ g x = rw same h in rw (hit, modify) (ap (λ y. y ∷ qs) both)
    | inr miss ↦
        let rest = modify_at id f g qs q (ground arith) h in rw (miss, modify) (ap (◌∷◌ x) rest)
  ]

  pub modify_same :
      (id : ℕ) (f : Queue M H → Queue M H) (qs : List (Queue M H)) (q : Queue M H)
      → rb_queue_exist id qs ≡ some q
      → f q ≡ q
      → modify id f qs ≡ qs
  unfolding rb_queue_exist modify
  modify_same id f [] q e h = refl
  modify_same id f (x ∷ qs) q e h = elim (Bool-cases (x.id == id)) [
    | inl hit ↦
        let same : x ≡ q = ground arith in
        let both : f x ≡ x = rw same h in rw (hit, modify) (ap (λ y. y ∷ qs) both)
    | inr miss ↦
        let rest = modify_same id f qs q (ground arith) h in rw (miss, modify) (ap (◌∷◌ x) rest)
  ]

  -- One more reference, and one less.
  abbrev up : Queue M H → Queue M H
  up q = record q { usage = q.usage + 1 }

  abbrev down : Queue M H → Queue M H
  down q = record q { usage = q.usage - 1 }

  put-up :
      (id : ℕ) (r : Queues M H) (q : Queue M H)
      → rb_queue_exist id r.all ≡ some q
      → 0 < q.usage
      → put_msg_queue id (record r { all = modify id up r.all }) ≡ some (kept r)
  unfolding put_msg_queue
  put-up id r q e h =
      let found = exist-modify_self id up r.all q (λ x. refl) e in
      let back : modify id down (modify id up r.all) ≡ r.all =
        modify-modify id up down r.all (λ x. refl)
        ∙ modify_same id (λ x. down (up x)) r.all q e (ground arith) in
      rw (found, put_msg_queue, back) (ground arith)

  -- A reference taken by `get_msg_queue` and given back by `put_msg_queue` leaves all queues as
  -- they were, if the queue had a reference before.
  pub put-get :
      (id : ℕ) (r r' : Queues M H) (q : Queue M H)
      → rb_queue_exist id r.all ≡ some q
      → 0 < q.usage
      → get_msg_queue id r ≡ some r'
      → put_msg_queue id r' ≡ some (kept r)
  unfolding get_msg_queue
  put-get id r r' q e h g =
      let got : r' ≡ record r { all = modify id up r.all } = ground arith in
      ap (put_msg_queue id) got ∙ put-up id r q e h

  abbrev pub Sorted : List (Queue M H) → Type 0
  Sorted [] = Unit
  Sorted (q ∷ qs) = All (λ x. q.id < x.id) qs × Sorted qs

  exist_above :
      (id : ℕ) (qs : List (Queue M H)) → All (λ x. id < x.id) qs → rb_queue_exist id qs ≡ none
  unfolding rb_queue_exist
  exist_above id [] h = refl
  exist_above id (x ∷ qs) h = ground (arith, exist_above id qs h.1)

  exist-erase_self :
      (id : ℕ) (qs : List (Queue M H)) → Sorted qs → rb_queue_exist id (rb_erase id qs) ≡ none
  unfolding rb_queue_exist rb_erase
  exist-erase_self id [] s = refl
  exist-erase_self id (x ∷ qs) s = elim (Bool-cases (x.id == id)) [
    | inl hit ↦
        let same : x.id ≡ id = ground arith in
        rw (hit, rb_erase) (exist_above id qs (subst (λ k. All (λ y. k < y.id) qs) same s.0))
    | inr miss ↦ rw (miss, rb_erase) (ground (arith, exist-erase_self id qs s.1))
  ]

  pub exist-erase_ne :
      (id j : ℕ) (qs : List (Queue M H))
      → id ≢ j
      → rb_queue_exist j (rb_erase id qs) ≡ rb_queue_exist j qs
  unfolding rb_queue_exist rb_erase
  exist-erase_ne id j [] n = refl
  exist-erase_ne id j (x ∷ qs) n = ground (arith, exist-erase_ne id j qs n)

  -- Giving back the last reference of a queue (its usage is 1) that nobody waits on, where the
  -- queues stand in order of their numbers, frees it: it is in the tree no more, and every other
  -- queue is found as it was.
  pub put_last :
      (id : ℕ) (r : Queues M H) (q : Queue M H)
      → Sorted r.all
      → rb_queue_exist id r.all ≡ some q
      → q.usage ≡ 1
      → q.rd_wait ≡ 0
      → q.wr_wait ≡ 0
      → (r' : Queues M H) × (put_msg_queue id r ≡ some (freed (record q { usage = 0 }) r'))
        × (rb_queue_exist id r'.all ≡ none)
        × ((j : ℕ) → id ≢ j → rb_queue_exist j r'.all ≡ rb_queue_exist j r.all)
  unfolding put_msg_queue
  put_last id r q s e one rd wr = (
    record r { all = rb_erase id r.all },
    rw (e, put_msg_queue) (ground arith),
    exist-erase_self id r.all s,
    λ j n. exist-erase_ne id j r.all n,
  )

  exist-insert_self :
      (new : Queue M H) (qs : List (Queue M H))
      → rb_queue_exist new.id qs ≡ none
      → rb_queue_exist new.id (insert new qs) ≡ some new
  unfolding rb_queue_exist insert
  exist-insert_self new [] h = ground arith
  exist-insert_self new (x ∷ qs) h = ground (arith, exist-insert_self new qs)

  exist-insert_ne :
      (new : Queue M H) (j : ℕ) (qs : List (Queue M H))
      → new.id ≢ j
      → rb_queue_exist j (insert new qs) ≡ rb_queue_exist j qs
  unfolding rb_queue_exist insert
  exist-insert_ne new j [] n = ground arith
  exist-insert_ne new j (x ∷ qs) n = ground (arith, exist-insert_ne new j qs n)

  pub next_id-free :
      (fuel seq id : ℕ) (qs : List (Queue M H))
      → next_id fuel seq qs ≡ some id
      → rb_queue_exist id qs ≡ none
  unfolding next_id
  next_id-free zero seq id qs e = ground arith
  next_id-free (suc fuel) seq id qs e =
      elim (Option-cases (rb_queue_exist ((seq + 1) % 2 ^ 32) qs)) [
        | inl free ↦ let same : (seq + 1) % 2 ^ 32 ≡ id = ground arith in rw (← same) free
        | inr (q, taken) ↦ next_id-free fuel ((seq + 1) % 2 ^ 32) id qs (ground arith)
      ]

  create_inversion :
      (fuel : ℕ) (kmalloc : Bool) (max_msgs : ℕ) (release : Option H) (r r' : Queues M H) (id : ℕ)
      → create_msg_queue fuel kmalloc max_msgs release r ≡ some (id, r')
      → (next_id fuel r.seq r.all ≡ some id)
        × (r' ≡ record { seq = id; all = insert (new_queue id max_msgs release) r.all })
  unfolding create_msg_queue
  create_inversion fuel kmalloc max_msgs release r r' id e = ground arith

  -- A queue that `create_msg_queue` has made has a number that no queue had, is found under it, and
  -- is empty, active and referenced once; every other queue is found as before.
  pub create_lem :
      (fuel : ℕ) (kmalloc : Bool) (max_msgs : ℕ) (release : Option H) (r r' : Queues M H) (id : ℕ)
      → create_msg_queue fuel kmalloc max_msgs release r ≡ some (id, r')
      → (rb_queue_exist id r.all ≡ none)
        × ((q : Queue M H) × (rb_queue_exist id r'.all ≡ some q)
            × (q.msgs ≡ [])
            × (q.num_msgs ≡ 0)
            × (q.active ≡ true)
            × (q.usage ≡ 1)
            × (0 < q.max_msgs))
        × ((j : ℕ) → id ≢ j → rb_queue_exist j r'.all ≡ rb_queue_exist j r.all)
  unfolding create_msg_queue
  create_lem fuel kmalloc max_msgs release r r' id e =
      let (fresh, made) = create_inversion fuel kmalloc max_msgs release r r' id e in
      let free = next_id-free fuel r.seq id r.all fresh in
      let new : Queue M H = new_queue id max_msgs release in
      rw made (
        free,
        (new, exist-insert_self new r.all free, refl, refl, refl, refl, ground arith),
        λ j n. exist-insert_ne new j r.all n,
      )
