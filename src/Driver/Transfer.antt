-- ===== src/Driver/Transfer.antt =====
-- Objects that travel in a transaction: `bcmd_write_flat_obj`, `bcmd_write_msg_buf`,
-- `clear_msg_buf` and `bcmd_read_flat_obj` of module/new/binder.c.
use android_binder_ipc.Common.{
  ℕ, ◌+◌, ◌/◌, ◌%◌, ◌^◌, Bool, true, false, not, ◌&&◌, Option, none, some, List, [], ◌∷◌, ◌++◌,
  enomem, einval, efault, raw, if◌then◌else◌, ltb, ◌==◌, get_or,
}
use android_binder_ipc.Common.Int.{ℤ, pos, negsuc, inc, ltb_ℤ}
use android_binder_ipc.Driver.World.{
  World, M, pure, fail, ◌>>=◌, ◌>>◌, attempt, get, copy_from_user, MsgBuf, MsgType, Obj,
}
use android_binder_ipc.Driver.Bytes.{
  FlatObj, flat_size, get_flat, set_flat, words, type_binder, type_weak_binder, type_handle,
  type_weak_handle, type_fd,
}
use android_binder_ipc.Driver.Messages.{binder_write_cmd}
use android_binder_ipc.Driver.Objects.{
  binder_find_obj, binder_find_my_obj, binder_find_obj_by_ref, new_obj, binder_new_obj,
  binder_acquire_obj, binder_inform_owner, refs_of, set_refs,
}

-- What kind of object the type of a flat object announces.
pub data Kind : Type 0 where
  local_obj remote_obj : Bool → Kind
  file : Kind
  unknown : Kind

-- The flag says whether the reference is strong.
unfoldable pub kind : ℕ → Kind
kind t =
    if t == type_binder
    then Kind.local_obj true
    else if t == type_weak_binder
    then Kind.local_obj false
    else if t == type_handle
    then Kind.remote_obj true
    else if t == type_weak_handle
    then Kind.remote_obj false
    else if t == type_fd
    then Kind.file
    else Kind.unknown

-- A negative count is an error to the caller of binder_acquire_obj.
abbrev pub checked : ℤ → M (Unit {0})
checked (pos n) = pure tt
checked (negsuc n) = fail (raw (n + 1))

-- An object of the writer's own process.
unfoldable pub write_local : Bool → FlatObj → M (FlatObj × ℕ)
unfolding binder_find_my_obj binder_new_obj binder_acquire_obj
write_local strong bp = do
  w ← get
  obj ← elim (binder_find_my_obj bp.binder w) [
    | some o ↦ if bp.cookie == o.cookie then pure o else fail einval
    | none ↦ do
      made ← binder_new_obj bp.binder bp.cookie
      elim made [ none ↦ fail enomem | some o ↦ pure o ]
  ]
  elim strong [ false ↦ pure tt | true ↦ do refs ← binder_acquire_obj obj; checked refs ]
  pure (bp, obj.owner)

-- An object that the writer knows by a reference: the message names it as its owner does.
unfoldable pub write_remote : Bool → FlatObj → M (FlatObj × ℕ)
unfolding binder_find_obj_by_ref binder_inform_owner
write_remote strong bp = do
  w ← get
  elim (binder_find_obj_by_ref bp.binder w) [
    | none ↦ fail einval
    | some o ↦ do
      elim strong [ false ↦ pure tt | true ↦ binder_inform_owner o MsgType.bc_acquire ]
      pure (record bp { binder = o.binder; cookie = o.cookie }, o.owner)
  ]

-- `fget` gives the file of a descriptor of the calling process, 0 (NULL) if there is none.
unfoldable pub bcmd_write_flat_obj : (ℕ → ℕ) → FlatObj → M (FlatObj × ℕ)
unfolding kind write_local write_remote
bcmd_write_flat_obj fget bp = elim (kind bp.type) [
  | local_obj strong ↦ write_local strong bp
  | remote_obj strong ↦ write_remote strong bp
  | file ↦
      if fget bp.binder == 0 then fail einval else pure (record bp { binder = fget bp.binder }, 0)
  | unknown ↦ fail einval
]

-- off + sizeof(*bp) > data_size, as a 32-bit sum
abbrev pub outside : ℕ → ℕ → Bool
outside off data_size = ltb data_size ((off + flat_size) % 2 ^ 32)

-- The loop of bcmd_write_msg_buf over the offsets.
unfoldable pub write_objs : (ℕ → ℕ) → List ℕ → MsgBuf → M MsgBuf
unfolding bcmd_write_flat_obj get_flat set_flat
write_objs fget [] mbuf = pure mbuf
write_objs fget (off ∷ offs) mbuf = elim (outside off mbuf.data_size) [
  | true ↦ fail einval
  | false ↦ do
    (bp, owner) ← bcmd_write_flat_obj fget (get_flat mbuf.data_bytes off)
    write_objs fget offs (record mbuf {
      data_bytes = set_flat mbuf.data_bytes off bp;
      owners = mbuf.owners ++ owner ∷ [];
    })
]

-- The rounds of `while (p < ep)`: a last, incomplete word counts.
abbrev pub rounds : ℕ → ℕ
rounds offsets_size = (offsets_size + 3) / 4

unfoldable pub bcmd_write_msg_buf : (ℕ → ℕ) → MsgBuf → ℕ → ℕ → M MsgBuf
unfolding copy_from_user write_objs words
bcmd_write_msg_buf fget mbuf buffer offsets = do
  bytes ← copy_from_user buffer mbuf.data_size
  elim (mbuf.offsets_size == 0) [
    | true ↦ pure (record mbuf { data_bytes = bytes; offsets = []; owners = [] })
    | false ↦ do
      offs ← copy_from_user offsets mbuf.offsets_size
      let list = words (rounds mbuf.offsets_size) offs 0
      write_objs fget list (record mbuf { data_bytes = bytes; offsets = list; owners = [] })
  ]

-- A strong reference in a message that is not sent goes back to its owner, another process.
abbrev pub undo_strong : World → Bool → FlatObj → ℕ → M (Unit {0})
undo_strong w strong bp owner =
    if strong && not (owner == w.proc.queue)
    then attempt (binder_write_cmd owner bp.binder bp.cookie MsgType.bc_release) >>= (λ _. pure tt)
    else pure tt

unfoldable pub undo_object : World → FlatObj → ℕ → M (Unit {0})
unfolding binder_write_cmd
undo_object w bp owner = elim (kind bp.type) [
  | local_obj strong ↦ undo_strong w strong bp owner
  | remote_obj strong ↦ undo_strong w strong bp owner
  | file ↦ pure tt
  | unknown ↦ pure tt
]

abbrev pub next_owners : List ℕ → List ℕ
next_owners [] = []
next_owners (x ∷ xs) = xs

-- The loop of clear_msg_buf; `fput` of a file changes nothing that is modelled.
unfoldable pub clear_objs : List ℕ → List ℕ → MsgBuf → M (Unit {0})
unfolding kind get_flat undo_object
clear_objs [] owners mbuf = pure tt
clear_objs (off ∷ offs) owners mbuf =
    let rest : M (Unit {0}) = clear_objs offs (next_owners owners) mbuf in
    elim (outside off mbuf.data_size) [
      | true ↦ fail einval
      | false ↦ do w ← get; undo_object w (get_flat mbuf.data_bytes off) (get_or owners 0 0); rest
    ]

unfoldable pub clear_msg_buf : MsgBuf → M (Unit {0})
unfolding clear_objs
clear_msg_buf mbuf = clear_objs mbuf.offsets mbuf.owners mbuf

-- The type under which the reader sees the object: its own by pointer, any other by reference.
unfoldable pub read_type : Bool → Bool → ℕ
read_type true strong = if strong then type_binder else type_weak_binder
read_type false strong = if strong then type_handle else type_weak_handle

-- A strong reference came with the message: it is the reader's first, or it goes back.
unfoldable pub keep_reference : Obj → M (Unit {0})
unfolding refs_of set_refs binder_inform_owner
keep_reference o = do
  before ← refs_of o
  set_refs o (inc before)
  if ltb_ℤ (pos 1) (inc before) then binder_inform_owner o MsgType.bc_release else pure tt

unfoldable pub read_obj : Bool → FlatObj → ℕ → M FlatObj
unfolding binder_find_obj new_obj keep_reference read_type
read_obj strong bp owner = do
  w ← get
  obj ← elim (binder_find_obj owner bp.binder w) [
    | some o ↦ pure o
    | none ↦ do
      made ← new_obj owner false bp.binder bp.cookie
      elim made [ none ↦ fail enomem | some o ↦ pure o ]
  ]
  elim (not obj.owner_queue && strong) [ false ↦ pure tt | true ↦ keep_reference obj ]
  pure (record bp {
    type = read_type obj.owner_queue strong;
    binder = obj.ref;
    cookie = if obj.owner_queue then obj.cookie else bp.cookie;
  })

-- `fd` is what get_unused_fd returns (`none` is an error).
unfoldable pub bcmd_read_flat_obj : Option ℕ → FlatObj → ℕ → M FlatObj
unfolding kind read_obj
bcmd_read_flat_obj fd bp owner = elim (kind bp.type) [
  | local_obj strong ↦ read_obj strong bp owner
  | remote_obj strong ↦ read_obj strong bp owner
  | file ↦ elim fd [ none ↦ fail enomem | some n ↦ pure (record bp { binder = n }) ]
  | unknown ↦ fail efault
]
