-- ===== src/Driver/Objects.antt =====
-- The objects of a process in module/new/binder.c: its tree and its hash of references, read as a
-- list with the newest first, and their reference counts. The searches here go by equal keys. `Tree`
-- has the descent through the tree by `binder_cmp`, and when it finds the same; `Link` the same of an
-- object that is linked in; `Order` the comparison, which is no order on all keys.
pub mod Order
pub mod Table
pub mod Tree
pub mod Link
use android_binder_ipc.Common.{
  ℕ, ◌+◌, ◌-◌, ◌*◌, ◌/◌, ◌%◌, ◌^◌, Bool, true, false, not, ◌&&◌, ◌||◌, Option, none, some, List, [],
  ◌∷◌, ◌++◌, Result, ok, err, Errno, enomem, einval, if◌then◌else◌, ltb, leb, ◌==◌,
}
use android_binder_ipc.Common.Int.{ℤ, pos, negsuc, inc, dec, is, ltb_ℤ}
use android_binder_ipc.Driver.World.{
  World, M, Exit, back, stuck, pure, fail, ◌>>=◌, ◌>>◌, attempt, get, kmalloc, Msg, MsgType, Obj,
  ObjPtr, Notifier, Proc, update_proc, result,
}
use android_binder_ipc.Driver.Messages.{
  binder_alloc_msg, own_write_msg, bcmd_write_msg, binder_write_cmd, command,
}

-- The difference of two words as a signed number: its sign.
unfoldable pub sign : ℕ → ℕ → ℤ
sign a b =
    let d = (a + 2 ^ 32 - b) % 2 ^ 32 in
    if d == 0 then pos 0 else if ltb d (2 ^ 31) then pos 1 else negsuc 0

unfoldable pub binder_cmp : ℕ → ℕ → ℕ → ℕ → ℤ
unfolding sign
binder_cmp owner0 binder0 owner1 binder1 =
    if is (sign owner0 owner1) 0 then sign binder0 binder1 else sign owner0 owner1

-- The object stands in that tree under that key.
abbrev pub keyed : ℕ → ℕ → ℕ → Obj → Bool
keyed table owner binder o = o.table == table && o.owner == owner && o.binder == binder

unfoldable pub find : (Obj → Bool) → List Obj → Option Obj
find test [] = none
find test (o ∷ os) = if test o then some o else find test os

unfoldable pub modify : (Obj → Bool) → (Obj → Obj) → List Obj → List Obj
modify test f [] = []
modify test f (o ∷ os) = if test o then f o ∷ os else o ∷ modify test f os

unfoldable pub erase : (Obj → Bool) → List Obj → List Obj
erase test [] = []
erase test (o ∷ os) = if test o then os else o ∷ erase test os

-- What stands among the objects under that key, which is what the descent through the tree finds if
-- binder_cmp orders the keys in it (`Tree.descend-eq-find`).
unfoldable pub binder_find_obj : ℕ → ℕ → World → Option Obj
unfolding find
binder_find_obj owner binder w = find (keyed w.proc.queue owner binder) w.objs

unfoldable pub binder_find_my_obj : ℕ → World → Option Obj
unfolding binder_find_obj
binder_find_my_obj binder w = binder_find_obj w.proc.queue binder w

abbrev pub referenced : ℕ → ℕ → Obj → Bool
referenced table ref o = o.table == table && o.ref == ref

unfoldable pub binder_find_obj_by_ref : ℕ → World → Option Obj
unfolding find
binder_find_obj_by_ref ref w = find (referenced w.proc.queue ref) w.objs

unfoldable pub fresh_obj : World → ℕ → Bool → ℕ → ℕ → Obj
fresh_obj w owner owner_queue binder cookie = record {
  table = w.proc.queue;
  owner = owner;
  owner_queue = owner_queue;
  binder = binder;
  cookie = cookie;
  ref = w.proc.obj_seq;
  refs = pos 0;
  notifiers = [];
}

-- The object enters the tree and the hash, and the next one gets the next reference.
unfoldable pub link_obj : Obj → M (Option Obj)
link_obj o w = back (ok (some o)) (record w {
  objs = o ∷ w.objs;
  proc = record w.proc { obj_seq = (w.proc.obj_seq + 1) % 2 ^ 32 };
})

-- `_binder_new_obj`; the object that another thread has made meanwhile is returned in its place.
unfoldable pub new_obj : ℕ → Bool → ℕ → ℕ → M (Option Obj)
unfolding kmalloc binder_find_obj fresh_obj link_obj
new_obj owner owner_queue binder cookie = do
  there ← kmalloc
  w ← get
  elim there [
    | false ↦ pure none
    | true ↦ elim (binder_find_obj owner binder w) [
      | some o ↦ pure (some o)
      | none ↦ link_obj (fresh_obj w owner owner_queue binder cookie)
    ]
  ]

unfoldable pub binder_new_obj : ℕ → ℕ → M (Option Obj)
unfolding new_obj
binder_new_obj binder cookie w = new_obj w.proc.queue true binder cookie w

-- The same object in the state of now: a pointer to it was kept.
abbrev pub at : Obj → Obj → Bool
at o = keyed o.table o.owner o.binder

unfoldable pub set_refs : Obj → ℤ → M (Unit {0})
unfolding modify
set_refs o n w =
    back (ok tt) (record w { objs = modify (at o) (λ x. record x { refs = n }) w.objs })

-- obj->refs, of an object that is in a tree
unfoldable pub refs_of : Obj → M ℤ
refs_of o w = elim (find (at o) w.objs) [ none ↦ stuck | some x ↦ back (ok x.refs) w ]

unfoldable pub binder_inform_owner : Obj → MsgType → M (Unit {0})
unfolding binder_write_cmd
binder_inform_owner o cmd = binder_write_cmd o.owner o.binder o.cookie cmd

-- kfree waits until no other thread of the process can use the object.
unfoldable pub binder_reclaim_obj : Obj → M (Unit {0})
binder_reclaim_obj o w =
    if ltb_ℤ (pos 1) w.proc.busy_threads
    then back (ok tt) (record w { proc = record w.proc { reclaim_list = o ∷ w.proc.reclaim_list } })
    else back (ok tt) w

unfoldable pub binder_reclaim_objs : M (Unit {0})
binder_reclaim_objs = update_proc (λ p. record p { reclaim_list = [] })

abbrev pub dead_binder : Obj → Notifier → Msg → Msg
dead_binder o n m = record (command o.binder n.cookie MsgType.br_dead_binder m) {
  reply_to = o.owner;
}

-- The loop of `_binder_free_obj` over the notifiers. `spare` is the message that an earlier round
-- could not send; `status` is what the function will return.
unfoldable pub notify : Obj → List Notifier → Option Msg → Result (Unit {0}) → M (Unit {0})
unfolding binder_alloc_msg bcmd_write_msg
notify o [] spare status = result status
notify o (n ∷ ns) spare status = do
  allocated ← elim spare [ some m ↦ pure (some m) | none ↦ binder_alloc_msg 0 0 ]
  elim allocated [
    | none ↦ notify o ns none (err enomem)
    | some m ↦ do
      let msg = dead_binder o n m
      sent ← attempt (bcmd_write_msg n.to_notify msg)
      elim sent [ ok u ↦ notify o ns none status | err e ↦ notify o ns (some msg) status ]
  ]

-- `_binder_free_obj`
unfoldable pub bury_obj : Obj → M (Unit {0})
unfolding notify binder_inform_owner binder_reclaim_obj
bury_obj o = do
  r ← attempt (
      if o.owner_queue
      then notify o o.notifiers none (ok tt)
      else if ltb_ℤ (pos 0) o.refs
      then attempt (binder_inform_owner o MsgType.bc_release) >>= (λ _. pure tt)
      else pure tt)
  binder_reclaim_obj o
  result r

-- The object leaves the tree and the hash first.
unfoldable pub binder_free_obj : Obj → Bool → M (Unit {0})
unfolding erase bury_obj binder_reclaim_obj
binder_free_obj o force w =
    let w' = record w { objs = erase (at o) w.objs } in
    if force then binder_reclaim_obj o w' else bury_obj o w'

-- The command that a change of the count to or from 0 sends, and to whom: the thread that acts, of
-- an object of its own process; the owner, of a reference.
abbrev pub tell : Obj → MsgType → MsgType → Msg → M (Unit {0})
tell o own_cmd owner_cmd msg w =
    if o.owner_queue
    then own_write_msg w.thread.queue (command o.binder o.cookie own_cmd msg) w
    else bcmd_write_msg o.owner (command o.binder o.cookie owner_cmd msg) w

unfoldable pub binder_acquire_obj : Obj → M ℤ
unfolding refs_of set_refs binder_alloc_msg own_write_msg bcmd_write_msg
binder_acquire_obj o = do
  before ← refs_of o
  set_refs o (inc before)
  elim (is (inc before) 1) [
    | false ↦ pure (inc before)
    | true ↦ do
      m ← binder_alloc_msg 0 0
      elim m [
        | none ↦ fail enomem
        | some msg ↦ do tell o MsgType.br_acquire MsgType.bc_acquire msg; pure (inc before)
      ]
  ]

-- The object of the key is freed as it then stands.
unfoldable pub free_now : Obj → M (Unit {0})
unfolding binder_free_obj find
free_now o w = elim (find (at o) w.objs) [ none ↦ stuck | some x ↦ binder_free_obj x false w ]

unfoldable pub binder_release_obj : Obj → M ℤ
unfolding refs_of set_refs binder_alloc_msg own_write_msg bcmd_write_msg free_now
binder_release_obj o = do
  before ← refs_of o
  set_refs o (dec before)
  elim (is (dec before) 0) [
    | false ↦ pure (dec before)
    | true ↦ do
      m ← binder_alloc_msg 0 0
      elim m [
        | none ↦ fail enomem
        | some msg ↦ do
          tell o MsgType.br_release MsgType.bc_release msg
          free_now o
          pure (dec before)
      ]
  ]
