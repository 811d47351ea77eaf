-- ===== src/Driver/Ioctl/Balance.antt =====
-- What a BINDER_WRITE_READ of module/new/binder.c leaves behind: the counts of the process's threads,
-- and the objects that wait to be freed.
use android_binder_ipc.Common.{
  ℕ, Bool, true, false, not, ◌&&◌, Option, none, some, List, [], ◌∷◌, ◌≡◌, refl, sym, ap, ◌∙◌,
  subst, Result, ok, err, if◌then◌else◌, efault, arith,
}
use android_binder_ipc.Common.Int.{ℤ, pos, inc, dec, is, dec-inc}
use android_binder_ipc.Driver.World.{
  World, Exit, back, stuck, pure, ◌>>=◌, ◌>>◌, put_user, copy_from_user, result, Obj,
}
use android_binder_ipc.Driver.Keeps.{Keeps, Behind, Behind-imp, result-Keeps, then-Keeps}
use android_binder_ipc.Driver.Keeps.Quiet.{
  IsQuiet, SameCounts, IsQuiet-SameCounts, put_user-IsQuiet,
}
use android_binder_ipc.Driver.Objects.{binder_reclaim_objs}
use android_binder_ipc.Driver.Ioctl.{
  Bwr, Env, bwr_of, bwr_words, cmd_write_read, is_empty, leave_proc, write_read,
}
use android_binder_ipc.Driver.Ioctl.Parts.{after, cmd_write_read-Lands}

abbrev entered : World → World
entered v = record v { proc = record v.proc { busy_threads = inc v.proc.busy_threads } }

-- The state behind `leave_proc`.
abbrev left : World → World
left w = record w {
  proc = record w.proc {
    busy_threads = dec w.proc.busy_threads;
    reclaim_list =
        if is (dec w.proc.busy_threads) 0 && not (is_empty w.proc.reclaim_list)
        then []
        else w.proc.reclaim_list;
  };
}

leave_proc_lem : (w : World) → leave_proc w ≡ back (ok tt) (left w)
unfolding leave_proc binder_reclaim_objs
leave_proc_lem w = go (is (dec w.proc.busy_threads) 0 && not (is_empty w.proc.reclaim_list))
  where
    out : World
    out = record w { proc = record w.proc { busy_threads = dec w.proc.busy_threads } }

    go :
        (b : Bool)
        → (if b then binder_reclaim_objs else pure tt) out
          ≡ back (ok tt) (record w {
            proc = record w.proc {
              busy_threads = dec w.proc.busy_threads;
              reclaim_list = if b then [] else w.proc.reclaim_list;
            };
          })
    go true = refl
    go false = refl

module _ (Q : World → Type 0) (v : World) (leave : (w : World) → IsQuiet (entered v) w → Q (left w))
    (keep : (words : List ℕ) → Keeps Q (put_user words)) where
  write_read-Behind :
      (env : Env) (ubuf : ℕ) → (v.user ubuf 24 ≡ none → Q v) → Behind Q (write_read env ubuf v)
  unfolding write_read copy_from_user IsQuiet
  write_read-Behind env ubuf fault = go (v.user ubuf 24) refl
    where
      tail :
          (x : Bwr × Result (Unit {0})) (w : World)
          → IsQuiet (entered v) w
          → Behind Q ((leave_proc >> (put_user (bwr_words x.0) >> result x.1)) w)
      tail x w h =
          subst
            (λ e. Behind Q (elim e as (λ y. Exit (Unit {0})) [
              | back r w' ↦ elim r [
                | ok a ↦ (put_user (bwr_words x.0) >> result x.1) w'
                | err e ↦ back (err e) w'
              ]
              | stuck ↦ stuck
            ]))
            (sym (leave_proc_lem w))
            ((then-Keeps (keep (bwr_words x.0)) (result-Keeps {r = x.1})).at (left w) (leave w h))

      go :
          (o : Option (List ℕ))
          → v.user ubuf 24 ≡ o
          → Behind Q
              (elim (elim o as (λ y. Exit (List ℕ)) [
                | none ↦ back (err efault) v
                | some bs ↦ back (ok bs) v
              ])
                as (λ y. Exit (Unit {0})) [
                  | back r w' ↦ elim r [
                    | ok bs ↦
                        (cmd_write_read env (bwr_of bs)
                            >>= (λ x. leave_proc >> (put_user (bwr_words x.0) >> result x.1)))
                          (entered w')
                    | err e ↦ back (err e) w'
                  ]
                  | stuck ↦ stuck
                ])
      go none e = fault e
      go (some bs) e =
          after (IsQuiet (entered v)) Q (cmd_write_read env (bwr_of bs)) _ (entered v)
            (cmd_write_read-Lands (entered v) env (bwr_of bs) (entered v)
              (refl, refl, refl, refl, refl))
            tail

-- A BINDER_WRITE_READ that comes back, with or without an error, leaves the counts of the threads that
-- are busy in the process and of those that wait on its queue as they were, and the numbers of the two
-- queues.
pub write_read_balance :
    (env : Env) (ubuf : ℕ) (w : World) → Behind (SameCounts w) (write_read env ubuf w)
unfolding IsQuiet
write_read_balance env ubuf w = Behind-imp (IsQuiet-SameCounts w) (write_read env ubuf w) (
    write_read-Behind (IsQuiet w) w
      (λ x (l, b, q, t, u). (l, ap dec b ∙ dec-inc w.proc.busy_threads, q, t, u))
      (put_user-IsQuiet w) env ubuf (λ e. (refl, refl, refl, refl, refl)))

-- No object waits for reclaim
NoReclaims : World → Type 0
NoReclaims w = w.proc.reclaim_list ≡ []

put_user-NoReclaims : (words : List ℕ) → Keeps NoReclaims (put_user words)
unfolding put_user NoReclaims
put_user-NoReclaims words = record { at = λ w h. go w h w.writable }
  where
    go :
        (w : World)
        → NoReclaims w
        → (ms : List Bool) → Behind NoReclaims (put_user words (record w { writable = ms }))
    go w h [] = h
    go w h (true ∷ ms) = h
    go w h (false ∷ ms) = h

last_leaves :
    (b : ℤ) (os : List Obj) → b ≡ pos 0 → (if is b 0 && not (is_empty os) then [] else os) ≡ []
last_leaves b [] e = rw e refl
last_leaves b (o ∷ os) e = rw e refl

-- Where no other thread is busy in the process and the structure of a BINDER_WRITE_READ can be read:
-- behind a call that comes back, with or without an error, no object waits to be freed, neither one
-- that waited before nor one that the call itself has taken from the tree.
pub write_read_reclaims :
    (env : Env) (ubuf : ℕ) (w : World) (bs : List ℕ)
    → w.proc.busy_threads ≡ pos 0
    → w.user ubuf 24 ≡ some bs
    → Behind (λ x. x.proc.reclaim_list ≡ []) (write_read env ubuf w)
unfolding NoReclaims IsQuiet
write_read_reclaims env ubuf w bs idle readable =
    write_read-Behind NoReclaims w
      (λ x (l, b, q, t, u).
        last_leaves _ x.proc.reclaim_list (ap dec b ∙ dec-inc w.proc.busy_threads ∙ idle))
      put_user-NoReclaims env ubuf (λ e. absurd (ground arith))
