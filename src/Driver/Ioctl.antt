-- ===== src/Driver/Ioctl.antt =====
-- `binder_ioctl` of module/new/binder.c and the functions that it calls, and `binder_poll`.
pub mod Parts
pub mod Balance
pub mod Manager
use android_binder_ipc.Common.{
  ℕ, ◌+◌, ◌-◌, ◌*◌, ◌/◌, ◌%◌, ◌^◌, Bool, true, false, not, ◌&&◌, ◌||◌, Option, none, some, List, [],
  ◌∷◌, Result, ok, err, Errno, enomem, einval, ebusy, eperm, if◌then◌else◌, ltb, ◌==◌,
}
use android_binder_ipc.Common.Int.{ℤ, pos, negsuc, inc, dec, is, ltb_ℤ}
use android_binder_ipc.Slob.{Slob, fast_slob_create}
use android_binder_ipc.Driver.World.{
  World, M, Exit, back, pure, fail, ◌>>=◌, ◌>>◌, attempt, get, result, put_user, copy_from_user,
  update_proc, Obj, ObjPtr, Proc, Thread,
}
use android_binder_ipc.Driver.Process.{binder_get_thread}
use android_binder_ipc.Driver.Bytes.{get_word}
use android_binder_ipc.Driver.Objects.{binder_new_obj, binder_reclaim_objs, set_refs}
use android_binder_ipc.Driver.Write.{binder_thread_write}
use android_binder_ipc.Driver.Read.{queue_length, binder_thread_read}

-- `struct binder_write_read`; its sizes are signed.
pub record Bwr : Type 0 where
  pub write_size : ℤ
  pub write_consumed : ℤ
  pub write_buffer : ℕ
  pub read_size : ℤ
  pub read_consumed : ℤ
  pub read_buffer : ℕ

-- A word as a signed one, and back.
unfoldable pub signed : ℕ → ℤ
signed v = if ltb v (2 ^ 31) then pos v else negsuc (2 ^ 32 - 1 - v)

unfoldable pub unsigned : ℤ → ℕ
unsigned (pos n) = n % 2 ^ 32
unsigned (negsuc n) = 2 ^ 32 - 1 - n % 2 ^ 32

unfoldable pub bwr_of : List ℕ → Bwr
unfolding get_word signed
bwr_of bs = record {
  write_size = signed (get_word bs 0);
  write_consumed = signed (get_word bs 4);
  write_buffer = get_word bs 8;
  read_size = signed (get_word bs 12);
  read_consumed = signed (get_word bs 16);
  read_buffer = get_word bs 20;
}

unfoldable pub bwr_words : Bwr → List ℕ
unfolding unsigned
bwr_words b =
    unsigned b.write_size
    ∷ unsigned b.write_consumed
    ∷ b.write_buffer
    ∷ unsigned b.read_size
    ∷ unsigned b.read_consumed
    ∷ b.read_buffer
    ∷ []

-- n += r
unfoldable pub advance : ℤ → ℕ → ℤ
advance (pos n) r = pos (n + r)
advance (negsuc n) r = if ltb n r then pos (r - (n + 1)) else negsuc (n - r)

-- buffer + n
unfoldable pub place : ℕ → ℤ → ℕ
unfolding unsigned
place buffer n = (buffer + unsigned n) % 2 ^ 32

-- What the kernel gives a call: the file of a descriptor, the n-th unused descriptor, and what stands
-- in a variable that is not set; and the rounds that its read may take.
pub record Env : Type 0 where
  pub fget : ℕ → ℕ
  pub unused_fd : ℕ → Option ℕ
  pub n0 : Result ℕ
  pub rounds : ℕ

unfoldable pub write_part : Env → Bwr → M Bwr
unfolding place advance
write_part env b = elim (ltb_ℤ (pos 0) b.write_size && ltb_ℤ b.write_consumed b.write_size) [
  | false ↦ pure b
  | true ↦ do
    r ←
        binder_thread_write env.fget (place b.write_buffer b.write_consumed)
          (place b.write_buffer b.write_size)
    pure (record b { write_consumed = advance b.write_consumed r })
]

unfoldable pub read_part : Env → Bwr → M Bwr
unfolding place advance
read_part env b = elim (ltb_ℤ (pos 0) b.read_size && ltb_ℤ b.read_consumed b.read_size) [
  | false ↦ pure b
  | true ↦ do
    r ←
        binder_thread_read env.rounds env.unused_fd env.n0
          (place b.read_buffer b.read_size - place b.read_buffer b.read_consumed)
    pure (record b { read_consumed = advance b.read_consumed r })
]

-- The structure as it is left, and what is returned; an error leaves the part that failed as it was.
unfoldable pub cmd_write_read : Env → Bwr → M (Bwr × Result (Unit {0}))
unfolding write_part read_part
cmd_write_read env b = do
  written ← attempt (write_part env b)
  elim written [
    | err e ↦ pure (b, err e)
    | ok b' ↦ do
      read ← attempt (read_part env b')
      elim read [ err e ↦ pure (b', err e) | ok b'' ↦ pure (b'', ok tt) ]
  ]

abbrev pub is_empty : List Obj → Bool
is_empty [] = true
is_empty (o ∷ os) = false

-- atomic_inc and atomic_dec_return of busy_threads; the last thread frees the objects that wait for
-- that.
abbrev pub enter_proc : M (Unit {0})
enter_proc = update_proc (λ p. record p { busy_threads = inc p.busy_threads })

unfoldable pub leave_proc : M (Unit {0})
unfolding binder_reclaim_objs
leave_proc = do
  update_proc (λ p. record p { busy_threads = dec p.busy_threads })
  w ← get
  if is w.proc.busy_threads 0 && not (is_empty w.proc.reclaim_list)
      then binder_reclaim_objs
      else pure tt

-- BINDER_WRITE_READ: the structure goes back to the user whatever the result.
unfoldable pub write_read : Env → ℕ → M (Unit {0})
unfolding bwr_of bwr_words cmd_write_read leave_proc
write_read env ubuf = do
  bs ← copy_from_user ubuf 24
  enter_proc
  (b, r) ← cmd_write_read env (bwr_of bs)
  leave_proc
  put_user (bwr_words b)
  result r

unfoldable pub cmd_set_max_threads : ℤ → M (Unit {0})
cmd_set_max_threads n = update_proc (λ p. record p { max_threads = n })

-- Whether the caller may become the context manager; the first user who asks is the only one from
-- then on.
unfoldable pub claim_uid : M (Unit {0})
claim_uid w = elim w.context_mgr_uid [
  | none ↦ back (ok tt) (record w { context_mgr_uid = some w.euid })
  | some u ↦ if u == w.euid then back (ok tt) w else back (err eperm) w
]

abbrev pub set_manager : Obj → M (Unit {0})
set_manager o w = back (ok tt) (record w {
  context_mgr_obj = some (record { table = o.table; owner = o.owner; binder = o.binder });
})

-- The object at 0, whether it is made here or was there, with a count that never goes to 0.
unfoldable pub make_manager : M (Unit {0})
unfolding binder_new_obj set_refs
make_manager = do
  made ← binder_new_obj 0 0
  elim made [ none ↦ fail enomem | some o ↦ do set_refs o (pos 100000); set_manager o ]

unfoldable pub cmd_set_context_mgr : M (Unit {0})
unfolding claim_uid make_manager
cmd_set_context_mgr w = elim w.context_mgr_obj [
  | some p ↦ back (err ebusy) w
  | none ↦ (claim_uid >> make_manager) w
]

-- _IOC_SIZE
abbrev pub ioc_size : ℕ → ℕ
ioc_size cmd = cmd / 2 ^ 16 % 2 ^ 14

abbrev pub binder_write_read_cmd : ℕ
binder_write_read_cmd = 0xc0186201

abbrev pub binder_set_max_threads : ℕ
binder_set_max_threads = 0x40046205

abbrev pub binder_set_context_mgr : ℕ
binder_set_context_mgr = 0x40046207

abbrev pub binder_thread_exit : ℕ
binder_thread_exit = 0x40046208

abbrev pub binder_version : ℕ
binder_version = 0xc0046209

-- The cases that have a size to check.
sized : ℕ → ℕ → M (Unit {0}) → M (Unit {0})
sized cmd n m = elim (ioc_size cmd == n) [ true ↦ m | false ↦ fail einval ]

-- The switch of `binder_ioctl`, for the thread that has been found. `thread_exit` is cmd_thread_exit.
unfoldable pub run_cmd : Env → M (Unit {0}) → ℕ → ℕ → M (Unit {0})
unfolding write_read cmd_set_max_threads cmd_set_context_mgr get_word signed sized
run_cmd env thread_exit cmd arg =
    if cmd == binder_write_read_cmd
    then sized cmd 24 (write_read env arg)
    else if cmd == binder_thread_exit
    then thread_exit
    else if cmd == binder_set_max_threads
    then sized cmd 4 (copy_from_user arg 4 >>= (λ bs. cmd_set_max_threads (signed (get_word bs 0))))
    else if cmd == binder_version
    then sized cmd 4 (put_user (7 ∷ []))
    else if cmd == binder_set_context_mgr
    then cmd_set_context_mgr
    else fail einval

abbrev pub use_thread : Thread → M (Unit {0})
use_thread t w = back (ok tt) (record w { thread = t })

-- For the caller `pid`, whose process has the threads `ts`: what is returned, and the threads as
-- `binder_get_thread` leaves them. (A thread that exits leaves the tree by `thread_queue_release`.)
unfoldable pub binder_ioctl :
    Env → M (Unit {0}) → List Thread → ℕ → Bool → ℕ → ℕ → M (Result (Unit {0}) × List Thread)
unfolding binder_get_thread run_cmd
binder_ioctl env thread_exit ts pid non_block cmd arg = do
  (found, ts') ← binder_get_thread ts pid non_block
  elim found [
    | none ↦ pure (err enomem, ts')
    | some t ↦ do use_thread t; r ← attempt (run_cmd env thread_exit cmd arg); pure (r, ts')
  ]

-- Whether there is something to read (POLLIN | POLLRDNORM).
unfoldable pub binder_poll : M Bool
unfolding queue_length
binder_poll = do
  w ← get
  own ← queue_length w.thread.queue
  shared ← queue_length w.proc.queue
  pure (not (own == 0) || ltb 0 shared)
