-- ===== src/Driver/Write.antt =====
-- `binder_thread_write` of module/new/binder.c: the commands of a thread, one after the other, from
-- its user's buffer. The addresses of the buffer do not wrap around.
pub mod Program
pub mod Plan
pub mod Balance
use android_binder_ipc.Common.{
  ℕ, zero, suc, ◌+◌, ◌-◌, ◌*◌, ◌/◌, ◌%◌, ◌^◌, Bool, true, false, not, ◌&&◌, ◌||◌, Option, none,
  some, List, [], ◌∷◌, Result, ok, err, Errno, einval, efault, if◌then◌else◌, ltb, leb, ◌==◌,
}
use android_binder_ipc.Driver.World.{
  World, M, Exit, back, stuck, pure, fail, ◌>>=◌, ◌>>◌, attempt, get, copy_from_user,
}
use android_binder_ipc.Driver.Bytes.{get_word}
use android_binder_ipc.Driver.Transaction.{Tdata, bcmd_write_transaction}
use android_binder_ipc.Driver.Buffers.{bcmd_write_free_buffer}
use android_binder_ipc.Driver.Looper.{LooperCmd, bcmd_write_looper}
use android_binder_ipc.Driver.Handlers.{bcmd_write_acquire, bcmd_write_notifier}

-- The commands of a user that the switch knows.
pub data Bcmd : Type 0 where
  transaction reply free_buffer acquire release increfs decrefs : Bcmd
  request_death clear_death enter exit register : Bcmd
  dead_binder_done increfs_done acquire_done : Bcmd

unfoldable pub number : Bcmd → ℕ
number Bcmd.transaction = 0x40286300
number Bcmd.reply = 0x40286301
number Bcmd.free_buffer = 0x40046303
number Bcmd.increfs = 0x40046304
number Bcmd.acquire = 0x40046305
number Bcmd.release = 0x40046306
number Bcmd.decrefs = 0x40046307
number Bcmd.increfs_done = 0x40086308
number Bcmd.acquire_done = 0x40086309
number Bcmd.register = 0x630b
number Bcmd.enter = 0x630c
number Bcmd.exit = 0x630d
number Bcmd.request_death = 0x4008630e
number Bcmd.clear_death = 0x4008630f
number Bcmd.dead_binder_done = 0x40046310

-- The first of these commands that has the number.
unfoldable pub among : List Bcmd → ℕ → Option Bcmd
unfolding number
among [] n = none
among (c ∷ cs) n = let rest = among cs n in if number c == n then some c else rest

abbrev pub bcmds : List Bcmd
bcmds =
    Bcmd.transaction ∷ Bcmd.reply ∷ Bcmd.free_buffer ∷ Bcmd.increfs ∷ Bcmd.acquire ∷ Bcmd.release
    ∷ Bcmd.decrefs ∷ Bcmd.increfs_done ∷ Bcmd.acquire_done ∷ Bcmd.register ∷ Bcmd.enter ∷ Bcmd.exit
    ∷ Bcmd.request_death ∷ Bcmd.clear_death ∷ Bcmd.dead_binder_done ∷ []

-- The switch of binder_thread_write; `none` is its default.
unfoldable pub bcmd_of : ℕ → Option Bcmd
unfolding among
bcmd_of = among bcmds

-- So many bytes at `p`, where they end in the buffer.
unfoldable pub fetch : ℕ → ℕ → ℕ → M (List ℕ)
fetch p n end = if ltb end (p + n) then fail efault else copy_from_user p n

unfoldable pub tdata_of : List ℕ → Tdata
unfolding get_word
tdata_of bs = record {
  target = get_word bs 0;
  code = get_word bs 8;
  flags = get_word bs 12;
  data_size = get_word bs 24;
  offsets_size = get_word bs 28;
  buffer = get_word bs 32;
  offsets = get_word bs 36;
}

-- There is data, but less than its objects need.
abbrev pub too_small : Tdata → Bool
too_small t = ltb 0 t.data_size && ltb t.data_size (t.offsets_size / 4 * 16 % 2 ^ 32)

unfoldable pub write_tdata : (ℕ → ℕ) → Bool → Tdata → M (Unit {0})
write_tdata fget is_reply t = elim (too_small t) [
  | true ↦ fail einval
  | false ↦ bcmd_write_transaction fget t is_reply
]

-- NULL is the buffer of a transaction without data.
unfoldable pub write_free : ℕ → M (Unit {0})
write_free buffer = elim (buffer == 0) [ true ↦ pure tt | false ↦ bcmd_write_free_buffer buffer ]

-- A target that is gone is no error.
abbrev pub tolerate : M (Unit {0}) → M (Unit {0})
tolerate m = attempt m >>= (λ _. pure tt)

-- The case of the command behind which `p` stands: what it does, and how far it has read.
unfoldable pub write_case : (ℕ → ℕ) → Bcmd → ℕ → ℕ → M ℕ
write_case fget Bcmd.transaction p end = do
  bs ← fetch p 40 end
  write_tdata fget false (tdata_of bs)
  pure (p + 40)
write_case fget Bcmd.reply p end = do
  bs ← fetch p 40 end
  write_tdata fget true (tdata_of bs)
  pure (p + 40)
write_case fget Bcmd.free_buffer p end = do
  bs ← fetch p 4 end
  write_free (get_word bs 0)
  pure (p + 4)
write_case fget Bcmd.acquire p end = do
  bs ← fetch p 4 end
  tolerate (bcmd_write_acquire (get_word bs 0) true)
  pure (p + 4)
write_case fget Bcmd.release p end = do
  bs ← fetch p 4 end
  tolerate (bcmd_write_acquire (get_word bs 0) false)
  pure (p + 4)
write_case fget Bcmd.increfs p end = do bs ← fetch p 4 end; pure (p + 4)
write_case fget Bcmd.decrefs p end = do bs ← fetch p 4 end; pure (p + 4)
write_case fget Bcmd.request_death p end = do
  bs ← fetch p 8 end
  tolerate (bcmd_write_notifier (get_word bs 0) (get_word bs 4) true)
  pure (p + 8)
write_case fget Bcmd.clear_death p end = do
  bs ← fetch p 8 end
  tolerate (bcmd_write_notifier (get_word bs 0) (get_word bs 4) false)
  pure (p + 8)
write_case fget Bcmd.enter p end = do bcmd_write_looper LooperCmd.bc_enter_looper; pure p
write_case fget Bcmd.exit p end = do bcmd_write_looper LooperCmd.bc_exit_looper; pure p
write_case fget Bcmd.register p end = do bcmd_write_looper LooperCmd.bc_register_looper; pure p
write_case fget Bcmd.dead_binder_done p end = if ltb end (p + 4) then fail efault else pure (p + 4)
write_case fget Bcmd.increfs_done p end = if ltb end (p + 8) then fail efault else pure (p + 8)
write_case fget Bcmd.acquire_done p end = if ltb end (p + 8) then fail efault else pure (p + 8)

-- One round of the loop: a command and its case.
unfoldable pub write_one : (ℕ → ℕ) → ℕ → ℕ → M ℕ
write_one fget p end = do
  bs ← copy_from_user p 4
  elim (bcmd_of (get_word bs 0)) [ none ↦ fail einval | some c ↦ write_case fget c (p + 4) end ]

-- The loop; it returns where it has read to.
unfoldable pub write_loop : (ℕ → ℕ) → ℕ → ℕ → ℕ → M ℕ
write_loop fget zero p end = λ w. stuck
write_loop fget (suc fuel) p end = elim (ltb end (p + 4)) [
  | true ↦ pure p
  | false ↦ do p' ← write_one fget p end; write_loop fget fuel p' end
]

-- Every round reads four bytes, so that many rounds are enough; the bytes read are returned.
unfoldable pub binder_thread_write : (ℕ → ℕ) → ℕ → ℕ → M ℕ
binder_thread_write fget buf end = do p ← write_loop fget (suc (end - buf)) buf end; pure (p - buf)
