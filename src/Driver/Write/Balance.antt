-- ===== src/Driver/Write/Balance.antt =====
-- What holds behind every call of `binder_thread_write` of module/new/binder.c.
use android_binder_ipc.Common.{
  ℕ, zero, suc, ◌+◌, ◌-◌, ◌≤◌, Bool, true, false, Option, none, some, ◌≡◌, refl, arith, ok, err,
  einval, ltb,
}
use android_binder_ipc.Driver.World.{World, M, Exit, back, stuck, pure, fail, ◌>>=◌, copy_from_user}
use android_binder_ipc.Driver.Keeps.{
  Keeps, Behind, pure-Keeps, fail-Keeps, stuck-Keeps, bool-Keeps, bind-Keeps, option-Keeps,
}
use android_binder_ipc.Driver.Keeps.Quiet.{IsQuiet, copy_from_user-IsQuiet}
use android_binder_ipc.Driver.Keeps.Commands.{write_case-IsQuiet}
use android_binder_ipc.Driver.Bytes.{get_word}
use android_binder_ipc.Driver.Write.{
  Bcmd, bcmd_of, write_case, write_one, write_loop, binder_thread_write,
}
use android_binder_ipc.Driver.Write.Program.{Reads, write_case-Reads}
use android_binder_ipc.Driver.Keeps.{Returns, bind-Returns}

module _ (v : World) (fget : ℕ → ℕ) where
  write_one-IsQuiet : (p end : ℕ) → Keeps (IsQuiet v) (write_one fget p end)
  unfolding write_one
  write_one-IsQuiet p end = bind-Keeps (copy_from_user-IsQuiet v p 4) (λ bs.
      option-Keeps (bcmd_of (get_word bs 0)) fail-Keeps
        (λ c. write_case-IsQuiet v fget c (p + 4) end))

  write_loop-IsQuiet : (fuel p end : ℕ) → Keeps (IsQuiet v) (write_loop fget fuel p end)
  unfolding write_loop
  write_loop-IsQuiet zero p end = stuck-Keeps
  write_loop-IsQuiet (suc fuel) p end =
      bool-Keeps (ltb end (p + 4))
        (bind-Keeps (write_one-IsQuiet p end) (λ a. write_loop-IsQuiet fuel a end)) pure-Keeps

-- Whatever it returns, a write leaves what the driver counts of its process's waiting and busy threads,
-- the numbers of the two queues and what the rest of the call reads of the user as they were.
pub writes_balance :
    (fget : ℕ → ℕ) (buf end : ℕ) (w : World)
    → Behind (IsQuiet w) (binder_thread_write fget buf end w)
unfolding binder_thread_write IsQuiet
writes_balance fget buf end w =
    (bind-Keeps (write_loop-IsQuiet w fget (suc (end - buf)) buf end) (λ p. pure-Keeps)).at w
      (refl, refl, refl, refl, refl)

-- Two calls, of which the first returns a place in the buffer.
after :
    (Q : ℕ → Type 0) (end : ℕ) (x : Exit ℕ) (f : ℕ → M ℕ)
    → Returns (λ a. a ≤ end) x
    → ((a : ℕ) (w : World) → a ≤ end → Returns Q (f a w))
    → Returns Q (elim x as (λ y. Exit ℕ) [
      | back r w' ↦ elim r [ ok a ↦ f a w' | err e ↦ back (err e) w' ]
      | stuck ↦ stuck
    ])
after Q end (back (ok a) w) f h k = k a w h
after Q end (back (err e) w) f h k = tt
after Q end stuck f h k = tt

module _ (fget : ℕ → ℕ) (end : ℕ) where
  case-Returns :
      (c : Option Bcmd) (p : ℕ) (w : World)
      → p ≤ end
      → Returns
          (λ a. a ≤ end)
          ((elim c as (λ x. M ℕ) [ none ↦ fail einval | some c ↦ write_case fget c p end ]) w)
  unfolding Reads
  case-Returns none p w h = tt
  case-Returns (some c) p w h = go (write_case fget c p end w) (write_case-Reads fget c p end w h)
    where
      go : (x : Exit ℕ) → Returns (Reads c p end) x → Returns (λ a. a ≤ end) x
      go (back (ok a) w') (e, i) = i
      go (back (err e) w') h = tt
      go stuck h = tt

  write_one-Returns :
      (p : ℕ) (w : World) → p + 4 ≤ end → Returns (λ a. a ≤ end) (write_one fget p end w)
  unfolding write_one
  write_one-Returns p w h =
      bind-Returns (λ a. a ≤ end) (copy_from_user p 4) _
        (λ bs w'. case-Returns (bcmd_of (get_word bs 0)) (p + 4) w' h) w

  write_loop-Returns :
      (fuel p : ℕ) (w : World) → p ≤ end → Returns (λ a. a ≤ end) (write_loop fget fuel p end w)
  unfolding write_loop
  write_loop-Returns zero p w h = tt
  write_loop-Returns (suc fuel) p w h =
      go (ltb end (p + 4)) refl (λ a w' i. write_loop-Returns fuel a w' i)
    where
      go :
          (b : Bool)
          → ltb end (p + 4) ≡ b
          → ((a : ℕ) (w' : World)
              → a ≤ end
              → Returns (λ a. a ≤ end) (write_loop fget fuel a end w'))
          → Returns
              (λ a. a ≤ end)
              ((elim b as (λ x. M ℕ) [
                | true ↦ pure p
                | false ↦ write_one fget p end >>= (λ p'. write_loop fget fuel p' end)
              ])
                w)
      go true e ih = h
      go false e ih =
          after (λ a. a ≤ end) end (write_one fget p end w) (λ a. write_loop fget fuel a end)
            (write_one-Returns p w (grind arith)) ih

-- A write reports no more bytes as read than the buffer has.
pub write_consumed :
    (fget : ℕ → ℕ) (buf end : ℕ) (w : World)
    → buf ≤ end
    → Returns (λ n. n ≤ end - buf) (binder_thread_write fget buf end w)
unfolding binder_thread_write
write_consumed fget buf end w h =
    after (λ n. n ≤ end - buf) end (write_loop fget (suc (end - buf)) buf end w)
      (λ p. pure (p - buf)) (write_loop-Returns fget end (suc (end - buf)) buf w h)
      (λ a w' i. omega arith)
