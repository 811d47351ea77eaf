-- ===== src/Driver/Handlers.antt =====
-- What a thread does with the commands of its user (`bcmd_write_acquire`, `bcmd_write_notifier`) and
-- with the messages that it reads (`bcmd_read_notifier`, `bcmd_read_transaction_complete`,
-- `bcmd_read_dead_binder`, `bcmd_read_dead_reply`, `bcmd_read_acquire`) in module/new/binder.c.
pub mod Counts
use android_binder_ipc.Common.{
  ℕ, ◌+◌, ◌*◌, Bool, true, false, not, ◌&&◌, ◌||◌, Option, none, some, List, [], ◌∷◌, ◌++◌, Result,
  ok, err, Errno, enomem, einval, efault, enospc, raw, if◌then◌else◌, ltb, ◌==◌,
}
use android_binder_ipc.Common.Int.{ℤ, pos, negsuc, inc, dec, is, ltb_ℤ}
use android_binder_ipc.Driver.World.{
  World, M, Exit, back, stuck, pure, fail, ◌>>=◌, ◌>>◌, attempt, get, kmalloc, put_user,
  update_thread, Msg, MsgType, Obj, Notifier,
}
use android_binder_ipc.Driver.Messages.{binder_alloc_msg, bcmd_write_msg, command}
use android_binder_ipc.Driver.Objects.{
  at, modify, binder_find_obj, binder_find_my_obj, binder_find_obj_by_ref, binder_acquire_obj,
  binder_release_obj, binder_free_obj, refs_of, set_refs,
}
use android_binder_ipc.Driver.Transaction.{context_mgr}

-- The commands as numbers (_IO, _IOR and _IOW).
unfoldable pub code_of : MsgType → ℕ
code_of MsgType.bc_transaction = 0x40286300
code_of MsgType.bc_reply = 0x40286301
code_of MsgType.bc_acquire = 0x40046305
code_of MsgType.bc_release = 0x40046306
code_of MsgType.bc_request_death_notification = 0x4008630e
code_of MsgType.bc_clear_death_notification = 0x4008630f
code_of MsgType.br_transaction_complete = 0x7206
code_of MsgType.br_acquire = 0x80087208
code_of MsgType.br_release = 0x80087209
code_of MsgType.br_failed_reply = 0x7211
code_of MsgType.br_dead_reply = 0x7205
code_of MsgType.br_dead_binder = 0x8004720f
code_of MsgType.br_clear_death_notification_done = 0x80047210

-- The command is BC_ACQUIRE (`true`) or BC_RELEASE; any other is no call of this function.
unfoldable pub bcmd_write_acquire : ℕ → Bool → M (Unit {0})
bcmd_write_acquire ref acquire = do
  w ← get
  elim (if ref == 0 then context_mgr w else binder_find_obj_by_ref ref w) [
    | none ↦ fail einval
    | some o ↦ do
      refs ← elim acquire [ true ↦ binder_acquire_obj o | false ↦ binder_release_obj o ]
      elim refs [ pos n ↦ pure tt | negsuc n ↦ fail (raw (n + 1)) ]
  ]

-- `struct bcmd_notifier_data`, with BC_REQUEST_DEATH_NOTIFICATION (`true`) or
-- BC_CLEAR_DEATH_NOTIFICATION.
unfoldable pub bcmd_write_notifier : ℕ → ℕ → Bool → M (Unit {0})
bcmd_write_notifier handle cookie request = do
  w ← get
  elim (binder_find_obj_by_ref handle w) [
    | none ↦ fail einval
    | some o ↦ do
      m ← binder_alloc_msg 0 0
      elim m [
        | none ↦ fail enomem
        | some msg ↦ bcmd_write_msg o.owner (record msg {
          type =
              if request
              then MsgType.bc_request_death_notification
              else MsgType.bc_clear_death_notification;
          binder = o.binder;
          cookie = cookie;
          reply_to = if request then w.proc.queue else w.thread.queue;
        })
      ]
  ]

-- The notifiers of an object change.
unfoldable pub set_notifiers : Obj → (List Notifier → List Notifier) → M (Unit {0})
set_notifiers o f w =
    back (ok tt)
      (record w { objs = modify (at o) (λ x. record x { notifiers = f x.notifiers }) w.objs })

unfoldable pub has_cookie : ℕ → List Notifier → Bool
has_cookie cookie [] = false
has_cookie cookie (n ∷ ns) = n.cookie == cookie || has_cookie cookie ns

-- The first notifier with that cookie leaves the list.
unfoldable pub del_cookie : ℕ → List Notifier → List Notifier
del_cookie cookie [] = []
del_cookie cookie (n ∷ ns) =
    let rest = del_cookie cookie ns in if n.cookie == cookie then ns else n ∷ rest

-- The second half of bcmd_read_notifier, at the owner of the object: a new notifier.
abbrev pub request_notifier : Msg → Obj → M ℕ
request_notifier msg o = do
  there ← kmalloc
  elim there [
    | false ↦ fail enomem
    | true ↦ do
      set_notifiers o (λ ns. ns ++ record { cookie = msg.cookie; to_notify = msg.reply_to } ∷ [])
      pure 0
  ]

-- A notifier goes, and who asked for that is told.
abbrev pub clear_notifier : Msg → Obj → M ℕ
clear_notifier msg o = do
  set_notifiers o (del_cookie msg.cookie)
  elim (has_cookie msg.cookie o.notifiers) [
    | false ↦ pure 0
    | true ↦ do
      sent ← attempt (
          bcmd_write_msg msg.reply_to
            (record msg { type = MsgType.br_clear_death_notification_done }))
      pure 0
  ]

unfoldable pub change_notifiers : Msg → Obj → M ℕ
unfolding set_notifiers has_cookie del_cookie
change_notifiers msg o = elim msg.type [
  | MsgType.bc_request_death_notification ↦ request_notifier msg o
  | _ ↦ clear_notifier msg o
]

unfoldable pub bcmd_read_notifier : Msg → ℕ → M ℕ
unfolding change_notifiers
bcmd_read_notifier msg size = elim msg.type [
  | MsgType.br_clear_death_notification_done ↦ if ltb size 8 then fail enospc else do
    put_user (code_of MsgType.br_clear_death_notification_done ∷ [])
    put_user (msg.cookie ∷ [])
    pure 8
  | _ ↦ do
    w ← get
    elim (binder_find_my_obj msg.binder w) [ none ↦ fail efault | some o ↦ change_notifiers msg o ]
]

unfoldable pub bcmd_read_transaction_complete : Msg → ℕ → M ℕ
bcmd_read_transaction_complete msg size = elim (ltb size 4) [
  | true ↦ fail enospc
  | false ↦ do put_user (code_of msg.type ∷ []); pure 4
]

-- The reference to the dead object goes first; nothing is written without one, yet 8 is returned.
unfoldable pub bcmd_read_dead_binder : Msg → ℕ → M ℕ
bcmd_read_dead_binder msg size = elim (ltb size 8) [
  | true ↦ fail enospc
  | false ↦ do
    w ← get
    elim (binder_find_obj msg.reply_to msg.binder w) [
      | none ↦ pure 8
      | some o ↦ do
        freed ← attempt (binder_free_obj o true)
        put_user (code_of msg.type ∷ [])
        put_user (msg.cookie ∷ [])
        pure 8
    ]
]

abbrev pub is_dead_reply : MsgType → Bool
is_dead_reply t = code_of t == 0x7205

unfoldable pub bcmd_read_dead_reply : Msg → ℕ → M ℕ
bcmd_read_dead_reply msg size = elim (ltb size 4) [
  | true ↦ fail enospc
  | false ↦ do
    w ← get
    elim (is_dead_reply msg.type && ltb_ℤ (pos 0) w.thread.pending_replies) [
      | true ↦ update_thread (λ t. record t { pending_replies = dec t.pending_replies })
      | false ↦ pure tt
    ]
    put_user (code_of msg.type ∷ [])
    pure 4
]

-- The count of the reader's object changes by a command from afar: the command for user space, if
-- there is one.
unfoldable pub count_ref : Bool → Obj → M (Option MsgType)
unfolding refs_of set_refs
count_ref true o = do
  before ← refs_of o
  set_refs o (inc before)
  pure (if is (inc before) 1 then some MsgType.br_acquire else none)
count_ref false o = do
  before ← refs_of o
  set_refs o (dec before)
  elim (is (dec before) 0) [
    | false ↦ pure none
    | true ↦ do freed ← attempt (binder_free_obj o false); pure (some MsgType.br_release)
  ]

-- `struct bcmd_ref_return` for user space, or nothing.
unfoldable pub tell_user : Msg → Option MsgType → M ℕ
tell_user msg none = pure 0
tell_user msg (some cmd) = do put_user (code_of cmd ∷ msg.binder ∷ msg.cookie ∷ []); pure 12

-- A command from another process, about an object that should be the reader's.
unfoldable pub from_afar : Bool → Msg → Option Obj → M ℕ
unfolding count_ref tell_user
from_afar acquire msg none w = back (ok 0) w
from_afar acquire msg (some o) w = (do cmd ← count_ref acquire o; tell_user msg cmd) w

unfoldable pub bcmd_read_acquire : Msg → ℕ → M ℕ
unfolding from_afar tell_user
bcmd_read_acquire msg size w = if ltb size 12 then back (err enospc) w else elim msg.type [
  | MsgType.br_acquire ↦ tell_user msg (some MsgType.br_acquire) w
  | MsgType.br_release ↦ tell_user msg (some MsgType.br_release) w
  | MsgType.bc_acquire ↦ from_afar true msg (binder_find_my_obj msg.binder w) w
  | _ ↦ from_afar false msg (binder_find_my_obj msg.binder w) w
]
