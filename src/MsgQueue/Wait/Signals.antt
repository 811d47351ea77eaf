-- ===== src/MsgQueue/Wait/Signals.antt =====
-- When the waiting loops of module/new/msg_queue.c return: at once where they need not wait, and
-- after a signal in any case.
use android_binder_ipc.Common.{ltb}
use android_binder_ipc.Common.{
  ℕ, ◌+◌, ◌-◌, ◌<◌, Bool, true, false, some, List, [], ◌∷◌, ◌++◌, ◌≡◌, ◌≢◌, refl, ap, ◌∙◌, arith,
  Result, ok, inl, inr, ◌⊎◌, All, if◌then◌else◌,
}
use android_binder_ipc.MsgQueue.{
  Queue, Round, exits, sleeps, faults, rb_queue_exist, modify, write_round, read_round, take_entry,
}
use android_binder_ipc.MsgQueue.Registry.{exist-modify_self, modify-modify, modify_at}
use android_binder_ipc.MsgQueue.Rounds.{IsValid, read_round-ne-faults}
use android_binder_ipc.MsgQueue.Wait.{
  Wake, Outcome, returns, asleep, dangling, wait_loop, on_queues, write_queue, read_queue,
  read_msg_queue, add_writer, remove_writer, add_reader, remove_reader,
}

module _ {M H : Type 0} where
  -- The queue is there, and sound.
  abbrev pub Present : ℕ → List (Queue M H) → Type 0
  Present id qs = (q : Queue M H) × (rb_queue_exist id qs ≡ some q) × IsValid q

  -- The others leave it there, and sound.
  abbrev pub Spares : ℕ → Wake M H → Type 0
  Spares id w = (qs : List (Queue M H)) → Present id qs → Present id (w.others qs)

  -- A signal is pending now, or at some wake-up.
  abbrev pub Signalled : Bool → List (Wake M H) → Type 0
  Signalled s [] = s ≡ true
  Signalled s (w ∷ ws) = (s ≡ true) ⊎ Signalled w.signal ws

  abbrev pub Returns : {A : Type 0} → Outcome M H A → Type 0
  Returns (returns r qs ws s) = Unit
  Returns (asleep qs) = ⊥
  Returns dangling = ⊥

  -- A writer with a signal pending leaves its loop, and no writer faults.
  write_leaves :
      (m : M) (head : Bool) (q : Queue M H)
      → (write_round m head true q ≢ sleeps)
        × (write_round m head true q ≢ faults)
        × (write_round m head false q ≢ faults)
  unfolding write_round
  write_leaves m head q = (ground arith, ground arith, ground arith)

  read_leaves :
      (tail : Bool) (q : Queue M H)
      → IsValid q
      → (read_round tail true q ≢ sleeps)
        × (read_round tail true q ≢ faults)
        × (read_round tail false q ≢ faults)
  unfolding read_round
  read_leaves tail q v =
      (ground arith, read_round-ne-faults tail true q v, read_round-ne-faults tail false q v)

module _ {M H A : Type 0} (id : ℕ) (round : Bool → Queue M H → Round M H A)
    (leaves : (q : Queue M H)
      → IsValid q
      → (round true q ≢ sleeps) × (round true q ≢ faults) × (round false q ≢ faults)) where
  no_fault : (s : Bool) (q : Queue M H) → IsValid q → round s q ≢ faults
  no_fault true q v = (leaves q v).1
  no_fault false q v = (leaves q v).2

  no_sleep : (s : Bool) (q : Queue M H) → IsValid q → s ≡ true → round s q ≢ sleeps
  no_sleep true q v e = (leaves q v).0
  no_sleep false q v e = cc

  loop_Returns :
      (ws : List (Wake M H)) (s : Bool) (qs : List (Queue M H))
      → Present id qs
      → Signalled s ws
      → All (Spares id) ws
      → Returns (wait_loop id round ws s qs)
  unfolding wait_loop
  loop_Returns [] s qs (q, e, v) sig sp = rw (e, wait_loop) (go (round s q) refl)
    where
      go :
          (o : Round M H A)
          → round s q ≡ o
          → Returns (elim o [
            | exits r q' ↦ returns r (modify id (λ _. q') qs) [] s
            | sleeps ↦ asleep qs
            | faults ↦ dangling
          ])
      go (exits r q') h = tt
      go sleeps h = no_sleep s q v sig h
      go faults h = no_fault s q v h
  loop_Returns (w ∷ ws) s qs (q, e, v) sig sp =
      rw (e, wait_loop)
        (go (round s q) refl
          (λ later. loop_Returns ws w.signal (w.others qs) (sp.0 qs (q, e, v)) later sp.1))
    where
      go :
          (o : Round M H A)
          → round s q ≡ o
          → (Signalled w.signal ws → Returns (wait_loop id round ws w.signal (w.others qs)))
          → Returns (elim o [
            | exits r q' ↦ returns r (modify id (λ _. q') qs) (w ∷ ws) s
            | sleeps ↦ wait_loop id round ws w.signal (w.others qs)
            | faults ↦ dangling
          ])
      go (exits r q') h ih = tt
      go sleeps h ih = elim sig [ inl now ↦ absurd (no_sleep s q v now h) | inr later ↦ ih later ]
      go faults h ih = no_fault s q v h

on_queues-Returns :
    {M H A : Type 0} (f : List (Queue M H) → List (Queue M H)) (o : Outcome M H A)
    → Returns o
    → Returns (on_queues f o)
unfolding on_queues
on_queues-Returns f (returns r qs ws s) h = tt
on_queues-Returns f (asleep qs) h = h
on_queues-Returns f dangling h = h

module _ {M H : Type 0} (id : ℕ) (ws : List (Wake M H)) (s : Bool) (qs : List (Queue M H))
    (there : Present id qs) (signalled : Signalled s ws) (spared : All (Spares id) ws) where
  -- A writer that gets a signal while it waits returns, if the other threads leave the queue there
  -- and sound.
  pub write-Returns : (m : M) (head : Bool) → Returns (write_queue id m head ws s qs)
  unfolding write_queue
  write-Returns m head =
      let (q, e, v) = there in
      on_queues-Returns (remove_writer id) _ (
        loop_Returns id (write_round m head) (λ x _. write_leaves m head x) ws s (add_writer id qs)
          (
            _,
            exist-modify_self id _ qs q (λ x. refl) e,
            record { counted = v.counted; within = v.within },
          )
          signalled spared)

  -- A reader that gets a signal while it waits returns, if the other threads leave the queue there and
  -- sound.
  pub read-Returns : (tail : Bool) → Returns (read_queue id tail ws s qs)
  unfolding read_queue
  read-Returns tail =
      let (q, e, v) = there in
      on_queues-Returns (remove_reader id) _ (
        loop_Returns id (read_round tail) (read_leaves tail) ws s (add_reader id qs)
          (
            _,
            exist-modify_self id _ qs q (λ x. refl) e,
            record { counted = v.counted; within = v.within },
          )
          signalled spared)

wait_now :
    {M H A : Type 0} (id : ℕ) (round : Bool → Queue M H → Round M H A) (ws : List (Wake M H))
    (s : Bool) (qs : List (Queue M H)) (q q' : Queue M H) (r : Result A)
    → rb_queue_exist id qs ≡ some q
    → round s q ≡ exits r q'
    → wait_loop id round ws s qs ≡ returns r (modify id (λ _. q') qs) ws s
unfolding wait_loop
wait_now id round [] s qs q q' r e h = rw (e, wait_loop) (rw h refl)
wait_now id round (w ∷ ws) s qs q q' r e h = rw (e, wait_loop) (rw h refl)

-- A write to an active queue with room does not wait: it adds the message at the chosen end, and
-- leaves all else, the wait queue included, as it was.
pub write_now :
    {M H : Type 0} (id : ℕ) (m : M) (head : Bool) (ws : List (Wake M H)) (s : Bool)
    (qs : List (Queue M H)) (q : Queue M H)
    → rb_queue_exist id qs ≡ some q
    → q.active ≡ true
    → q.num_msgs < q.max_msgs
    → write_queue id m head ws s qs
      ≡ returns
          (ok tt)
          (modify id
            (λ x. record x {
              msgs = if head then m ∷ x.msgs else x.msgs ++ m ∷ [];
              num_msgs = x.num_msgs + 1;
            })
            qs)
          ws
          s
unfolding write_queue write_round on_queues add_writer remove_writer
write_now {M} {H} id m head ws s qs q e a h =
    let up : Queue M H → Queue M H = λ x. record x { wr_wait = x.wr_wait + 1 } in
    let down : Queue M H → Queue M H = λ x. record x { wr_wait = x.wr_wait - 1 } in
    let add : Queue M H → Queue M H = λ x. record x {
      msgs = if head then m ∷ x.msgs else x.msgs ++ m ∷ [];
      num_msgs = x.num_msgs + 1;
    } in
    let found = exist-modify_self id up qs q (λ x. refl) e in
    let there : modify id down (modify id (λ _. add (up q)) (modify id up qs)) ≡ modify id add qs =
      ap (modify id down) (
        modify_at id (λ _. add (up q)) add (modify id up qs) (up q) found refl
        ∙ modify-modify id up add qs (λ x. refl))
      ∙ modify-modify id (λ x. add (up x)) down qs (λ x. refl)
      ∙ modify_at id (λ x. down (add (up x))) add qs q e (ground arith) in
    ap (on_queues (remove_writer id)) (
      wait_now id (write_round m head) ws s (modify id up qs) (up q) (add (up q)) (ok tt) found
        (ground arith))
    ∙ ap (λ l. returns (ok tt) l ws s) there

-- A read of an active queue with messages does not wait: it takes the first of them, and leaves all
-- else, the wait queue included, as it was.
pub read_now :
    {M H : Type 0} (id : ℕ) (m : M) (ms : List M) (ws : List (Wake M H)) (s : Bool)
    (qs : List (Queue M H)) (q : Queue M H)
    → rb_queue_exist id qs ≡ some q
    → q.active ≡ true
    → 0 < q.num_msgs
    → q.msgs ≡ m ∷ ms
    → read_msg_queue id ws s qs
      ≡ returns (ok m) (modify id (λ x. record x { msgs = ms; num_msgs = x.num_msgs - 1 }) qs) ws s
unfolding read_msg_queue read_queue read_round take_entry on_queues add_reader remove_reader
read_now {M} {H} id m ms ws s qs q e a h c =
    let up : Queue M H → Queue M H = λ x. record x { rd_wait = x.rd_wait + 1 } in
    let down : Queue M H → Queue M H = λ x. record x { rd_wait = x.rd_wait - 1 } in
    let cut : Queue M H → Queue M H = λ x. record x { msgs = ms; num_msgs = x.num_msgs - 1 } in
    let found = exist-modify_self id up qs q (λ x. refl) e in
    let there : modify id down (modify id (λ _. cut (up q)) (modify id up qs)) ≡ modify id cut qs =
      ap (modify id down) (
        modify_at id (λ _. cut (up q)) cut (modify id up qs) (up q) found refl
        ∙ modify-modify id up cut qs (λ x. refl))
      ∙ modify-modify id (λ x. cut (up x)) down qs (λ x. refl)
      ∙ modify_at id (λ x. down (cut (up x))) cut qs q e (ground arith) in
    let positive : ltb 0 q.num_msgs ≡ true = grind arith in
    ap (on_queues (remove_reader id)) (
      wait_now id (read_round false) ws s (modify id up qs) (up q) (cut (up q)) (ok m) found
        (simp (a, positive, c)))
    ∙ ap (λ l. returns (ok m) l ws s) there
