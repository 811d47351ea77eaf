-- ===== src/Driver/Process/Threads.antt =====
-- `binder_get_thread` of module/new/binder.c: one thread for each caller.
use android_binder_ipc.Common.{
  ℕ, Bool, true, false, Option, none, some, List, [], ◌∷◌, ◌≡◌, refl, ok, err, Result, ◌==◌,
  ==-self,
}
use android_binder_ipc.Driver.World.{
  World, M, Exit, back, stuck, pure, ◌>>=◌, get, attempt, kmalloc, Handler, Thread,
}
use android_binder_ipc.Driver.Messages.{get_queue}
use android_binder_ipc.Driver.Process.{
  create_queue, new_thread, binder_new_thread, find_thread, binder_get_thread,
}
use android_binder_ipc.Common.{Bool-cases, inl, inr, ==_iff, subst}
use android_binder_ipc.Driver.Keeps.{Returns, bind-Returns}

-- A new thread is the caller's.
Of : ℕ → Option Thread → Type 0
Of pid none = Unit
Of pid (some t) = t.pid ≡ pid

find_thread-Of : (pid : ℕ) (ts : List Thread) → Of pid (find_thread pid ts)
unfolding find_thread Of
find_thread-Of pid [] = tt
find_thread-Of pid (t ∷ ts) = elim (Bool-cases (t.pid == pid)) [
  | inl e ↦ rw e ((==_iff t.pid pid).0 e)
  | inr e ↦ rw e (find_thread-Of pid ts)
]

new_thread-Of :
    (pid : ℕ) (non_block : Bool) (w : World) → Returns (Of pid) (binder_new_thread pid non_block w)
unfolding binder_new_thread Of
new_thread-Of pid non_block w = bind-Returns (Of pid) kmalloc _ (λ there. made there) w
  where
    held :
        (id : ℕ) (r : Result (Unit {0})) (w : World)
        → Returns (Of pid) (
            (elim r as (λ x. M (Option Thread)) [
              | err e ↦ pure none
              | ok u ↦ pure (some (new_thread pid id non_block))
            ])
              w)
    held id (ok u) w = refl
    held id (err e) w = tt

    queued :
        (o : Option ℕ) (w : World)
        → Returns (Of pid) (
            (elim o as (λ x. M (Option Thread)) [
              | none ↦ pure none
              | some id ↦ get >>= (λ w. attempt (get_queue w.proc.queue) >>= (λ r.
                  elim r as (λ x. M (Option Thread)) [
                    | err e ↦ pure none
                    | ok u ↦ pure (some (new_thread pid id non_block))
                  ]))
            ])
              w)
    queued none w = tt
    queued (some id) w =
        bind-Returns (Of pid) get _
          (λ v. bind-Returns (Of pid) (attempt (get_queue v.proc.queue)) _ (held id)) w

    made :
        (there : Bool) (w : World)
        → Returns (Of pid) (
            (elim there as (λ x. M (Option Thread)) [
              | false ↦ pure none
              | true ↦ create_queue (Handler.thread_queue_release pid) >>= (λ queue.
                  elim queue as (λ x. M (Option Thread)) [
                    | none ↦ pure none
                    | some id ↦ get >>= (λ w. attempt (get_queue w.proc.queue) >>= (λ r.
                        elim r as (λ x. M (Option Thread)) [
                          | err e ↦ pure none
                          | ok u ↦ pure (some (new_thread pid id non_block))
                        ]))
                  ])
            ])
              w)
    made false w = tt
    made true w = bind-Returns (Of pid) (create_queue (Handler.thread_queue_release pid)) _ queued w

-- The thread is the caller's and stands in its process.
Known : ℕ → Option Thread × List Thread → Type 0
Known pid (none, ts) = Unit
Known pid (some t, ts) = (t.pid ≡ pid) × (find_thread pid ts ≡ some t)

get_thread-Known :
    (ts : List Thread) (pid : ℕ) (non_block : Bool) (w : World)
    → Returns (Known pid) (binder_get_thread ts pid non_block w)
unfolding binder_get_thread Known Of find_thread
get_thread-Known ts pid non_block w = go (find_thread pid ts) refl (find_thread-Of pid ts)
  where
    linked :
        (x : Exit (Option Thread))
        → Returns (Of pid) x
        → Returns (Known pid) (elim x as (λ y. Exit (Option Thread × List Thread)) [
          | back r w' ↦ elim r [
            | ok made ↦
                (elim made as (λ y. M (Option Thread × List Thread)) [
                  | none ↦ pure (none, ts)
                  | some t ↦ pure (some t, t ∷ ts)
                ])
                  w'
            | err e ↦ back (err e) w'
          ]
          | stuck ↦ stuck
        ])
    linked (back (ok none) w') h = tt
    linked (back (ok (some t)) w') h = (h, rw (h, ==-self pid) refl)
    linked (back (err e) w') h = tt
    linked stuck h = tt

    go :
        (o : Option Thread)
        → find_thread pid ts ≡ o
        → Of pid o
        → Returns (Known pid) (
            (elim o as (λ x. M (Option Thread × List Thread)) [
              | some t ↦ pure (some t, ts)
              | none ↦ binder_new_thread pid non_block >>= (λ made.
                  elim made as (λ y. M (Option Thread × List Thread)) [
                    | none ↦ pure (none, ts)
                    | some t ↦ pure (some t, t ∷ ts)
                  ])
            ])
              w)
    go none e h = linked (binder_new_thread pid non_block w) (new_thread-Of pid non_block w)
    go (some t) e h = (h, e)

-- A caller for which a thread was found or made is that thread as long as the process has the threads
-- that this call has left (a thread leaves them by BINDER_THREAD_EXIT): another call for it, in any
-- state of the rest, returns the same thread and changes nothing.
pub same_thread :
    (ts : List Thread) (pid : ℕ) (non_block again : Bool) (w w' v : World) (t : Thread)
    (ts' : List Thread)
    → binder_get_thread ts pid non_block w ≡ back (ok (some t, ts')) w'
    → (t.pid ≡ pid) × (binder_get_thread ts' pid again v ≡ back (ok (some t, ts')) v)
unfolding Known binder_get_thread
same_thread ts pid non_block again w w' v t ts' e =
    let (own, found) = subst (Returns (Known pid)) e (get_thread-Known ts pid non_block w) in
    (own, rw (found, binder_get_thread) refl)
