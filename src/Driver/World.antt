-- ===== src/Driver/World.antt =====
-- The data of module/new/binder.c and the state that a call of the driver works on: the calling
-- process and thread, the objects of all processes, the queues, and what the kernel answers.
-- `void *`, `long` and `size_t` have 32 bits; a pointer is its address, 0 is NULL.
use android_binder_ipc.Common.{
  ℕ, Bool, true, Option, none, some, List, [], ◌∷◌, ◌++◌, efault, if◌then◌else◌, Result, ok, err,
  Errno,
}
use android_binder_ipc.Common.Int.{ℤ}
use android_binder_ipc.Slob.{Slob}
use android_binder_ipc.MsgQueue.{Queue, Queues}
use android_binder_ipc.MsgQueue.Wait.{Wake}

-- The commands that stand as `type` in a message.
pub data MsgType : Type 0 where
  bc_transaction bc_reply bc_acquire bc_release : MsgType
  bc_request_death_notification bc_clear_death_notification : MsgType
  br_transaction_complete br_acquire br_release br_failed_reply br_dead_reply br_dead_binder :
      MsgType
  br_clear_death_notification_done : MsgType

-- `struct bcmd_msg_buf`; `owners` are the owners of the objects in it.
pub record MsgBuf : Type 0 where
  pub data_bytes : List ℕ
  pub offsets : List ℕ
  pub data_size : ℕ
  pub offsets_size : ℕ
  pub buf_size : ℕ
  pub owners : List ℕ

pub record Trace : Type 0 where
  pub caller_proc : ℕ
  pub caller_thread : ℕ

-- `struct bcmd_msg`; `trace_depth` is the length of `traces`.
pub record Msg : Type 0 where
  pub binder : ℕ
  pub cookie : ℕ
  pub type : MsgType
  pub code : ℕ
  pub flags : ℕ
  pub buf : MsgBuf
  pub sender_pid : ℕ
  pub sender_euid : ℕ
  pub reply_to : ℕ
  pub traces : List Trace

-- `struct binder_notifier`; its event is always BINDER_EVT_OBJ_DEAD.
pub record Notifier : Type 0 where
  pub cookie : ℕ
  pub to_notify : ℕ

-- `struct binder_obj`, with the queue number of the process in whose tree it stands. An object is
-- local there (OBJ_IS_BINDER) if it has an owner queue.
pub record Obj : Type 0 where
  pub table : ℕ
  pub owner : ℕ
  pub owner_queue : Bool
  pub binder : ℕ
  pub cookie : ℕ
  pub ref : ℕ
  pub refs : ℤ
  pub notifiers : List Notifier

-- A pointer to an object: its tree and its key there.
pub record ObjPtr : Type 0 where
  pub table : ℕ
  pub owner : ℕ
  pub binder : ℕ

-- `struct binder_proc`; `queue` is the number of its queue.
pub record Proc : Type 0 where
  pub queue : ℕ
  pub obj_seq : ℕ
  pub slob : Option Slob
  pub slob_uses : ℤ
  pub ustart : ℕ
  pub pid : ℕ
  pub busy_threads : ℤ
  pub proc_loopers : ℤ
  pub requested_loopers : ℤ
  pub registered_loopers : ℤ
  pub max_threads : ℤ
  pub reclaim_list : List Obj

-- The bits of `state`: BINDER_LOOPER_STATE_REGISTERED and _ENTERED. _READY is both.
pub record Looper : Type 0 where
  pub registered : Bool
  pub entered : Bool

pub record Thread : Type 0 where
  pub pid : ℕ
  pub queue : ℕ
  pub state : Looper
  pub non_block : Bool
  pub pending_replies : ℤ
  pub incoming_transactions : List Msg

-- The handlers that release queues, with the thread or process that they are given.
pub data Handler : Type 0 where
  thread_queue_release : ℕ → Handler
  proc_queue_release : ℕ → Handler

-- `memory` is what the next calls of kmalloc answer (all succeed behind its end), `user` what
-- copy_from_user reads at an address (`none` is a fault) within one call of the driver, which reads
-- nothing of the user behind its first write there: the write part comes before the read part, and
-- the structure of BINDER_WRITE_READ is copied back last, `writable` whether the next copies to the
-- user succeed (all do behind its end), `out` the words written there in their order. `released` are
-- the queues whose last reference has gone, with their handlers to be called.
pub record World : Type 0 where
  pub proc : Proc
  pub thread : Thread
  pub objs : List Obj
  pub context_mgr_obj : Option ObjPtr
  pub context_mgr_uid : Option ℕ
  pub euid : ℕ
  pub queues : Queues Msg Handler
  pub wakes : List (Wake Msg Handler)
  pub signal : Bool
  pub memory : List Bool
  pub user : ℕ → ℕ → Option (List ℕ)
  pub writable : List Bool
  pub out : List ℕ
  pub released : List (Queue Msg Handler)

-- A call comes back with its result and the state, or the thread sleeps for ever (or follows a
-- pointer to a queue that is gone).
pub data Exit {ℓ} (A : Type ℓ) : Type ℓ where
  back : Result A → World → Exit A
  stuck : Exit A

abbrev pub M {ℓ} : Type ℓ → Type ℓ
M A = World → Exit A

abbrev pub pure {ℓ} : {A : Type ℓ} → A → M A
pure a w = back (ok a) w

abbrev pub fail {ℓ} : {A : Type ℓ} → Errno → M A
fail e w = back (err e) w

-- An error returns early.
infixl 5 ◌>>=◌ ◌>>◌
abbrev pub ◌>>=◌ {ℓ κ} : {A : Type ℓ} {B : Type κ} → M A → (A → M B) → M B
◌>>=◌ m f w = elim (m w) [
  | back r w' ↦ elim r [ ok a ↦ f a w' | err e ↦ back (err e) w' ]
  | stuck ↦ stuck
]

abbrev pub ◌>>◌ {ℓ} : {B : Type ℓ} → M (Unit {0}) → M B → M B
m >> k = m >>= λ _. k

-- The result of a call whose error the caller looks at.
abbrev pub attempt {ℓ} : {A : Type ℓ} → M A → M (Result A)
attempt m w = elim (m w) [ back r w' ↦ back (ok r) w' | stuck ↦ stuck ]

abbrev pub get : M World
get w = back (ok w) w

abbrev pub put : World → M (Unit {0})
put w' w = back (ok tt) w'

abbrev pub update_proc : (Proc → Proc) → M (Unit {0})
update_proc f w = back (ok tt) (record w { proc = f w.proc })

abbrev pub update_thread : (Thread → Thread) → M (Unit {0})
update_thread f w = back (ok tt) (record w { thread = f w.thread })

abbrev pub result {ℓ} : {A : Type ℓ} → Result A → M A
result r w = back r w

-- kmalloc: whether it found memory.
unfoldable pub kmalloc : M Bool
kmalloc w = elim w.memory [
  | [] ↦ back (ok true) w
  | answer ∷ rest ↦ back (ok answer) (record w { memory = rest })
]

-- put_user and copy_to_user to the read buffer, behind what has been written there.
unfoldable pub put_user : List ℕ → M (Unit {0})
put_user words w = elim w.writable [
  | [] ↦ back (ok tt) (record w { out = w.out ++ words })
  | answer ∷ rest ↦
      if answer
      then back (ok tt) (record w { out = w.out ++ words; writable = rest })
      else back (err efault) (record w { writable = rest })
]

unfoldable pub copy_from_user : ℕ → ℕ → M (List ℕ)
copy_from_user at n w = elim (w.user at n) [ none ↦ back (err efault) w | some bs ↦ back (ok bs) w ]
