-- ===== src/Driver/Buffers.antt =====
-- The buffers that a process maps, in module/new/binder.c: `bcmd_read_transaction` fills one,
-- `bcmd_write_free_buffer` takes it back. Each address of the region is a cell: the four fields of
-- `struct slob_buf` and the link of a free buffer are words in the cells of their first bytes, the
-- data behind them is bytes.
pub mod Free
use android_binder_ipc.Common.{
  ℕ, zero, suc, ◌+◌, ◌-◌, ◌/◌, ◌%◌, ◌^◌, Bool, true, false, ◌||◌, Option, none, some, List, [], ◌∷◌,
  ◌++◌, ok, err, enomem, einval, enospc, if◌then◌else◌, ltb, ◌==◌,
}
use android_binder_ipc.Common.Int.{pos, dec, ltb_ℤ}
use android_binder_ipc.Slob.{Slob, update, fast_slob_alloc, fast_slob_bucket, free_to}
use android_binder_ipc.Driver.World.{
  World, M, back, stuck, pure, fail, ◌>>=◌, ◌>>◌, attempt, get, put_user, update_proc,
  update_thread, Msg, MsgBuf, MsgType,
}
use android_binder_ipc.Driver.Bytes.{get_word, get_flat, set_flat, type_binder, type_handle}
use android_binder_ipc.Driver.Messages.{msg_buf_align}
use android_binder_ipc.Driver.Objects.{
  binder_find_my_obj, binder_find_obj_by_ref, binder_release_obj,
}
use android_binder_ipc.Driver.Transfer.{bcmd_read_flat_obj, rounds}
use android_binder_ipc.Driver.Transaction.{one_way}

-- sizeof(struct slob_buf), the distance of its `data`
abbrev pub header : ℕ
header = 16

-- memcpy into the region
unfoldable pub copy_cells : (ℕ → ℕ) → ℕ → List ℕ → ℕ → ℕ
copy_cells mem at [] = mem
copy_cells mem at (x ∷ xs) = copy_cells (update mem at x) (at + 1) xs

unfoldable pub read_cells : (ℕ → ℕ) → ℕ → ℕ → List ℕ
read_cells mem at zero = []
read_cells mem at (suc n) = mem at ∷ read_cells mem (at + 1) n

unfoldable pub word_bytes : ℕ → List ℕ
word_bytes v = v % 256 ∷ v / 256 % 256 ∷ v / 65536 % 256 ∷ v / 16777216 % 256 ∷ []

unfoldable pub words_bytes : List ℕ → List ℕ
unfolding word_bytes
words_bytes [] = []
words_bytes (v ∷ vs) = word_bytes v ++ words_bytes vs

unfoldable pub zeros : ℕ → List ℕ
zeros zero = []
zeros (suc n) = 0 ∷ zeros n

-- The data of a message and its offsets behind it, as they stand in one piece; what kmalloc left
-- between them is zero here.
unfoldable pub payload : MsgBuf → List ℕ
unfolding words_bytes zeros msg_buf_align
payload b = b.data_bytes ++ zeros (msg_buf_align b.data_size - b.data_size) ++ words_bytes b.offsets

-- The fields of a buffer but for the place of its offsets.
abbrev fill_sizes : (ℕ → ℕ) → ℕ → ℕ → MsgBuf → ℕ → ℕ
fill_sizes mem p uaddr b =
    update (update (update mem (p + 8) b.data_size) (p + 12) b.offsets_size) p uaddr

-- The place of its offsets, and its data.
abbrev fill_data : (ℕ → ℕ) → ℕ → ℕ → MsgBuf → ℕ → ℕ
fill_data mem p offsets b = copy_cells (update mem (p + 4) offsets) (p + header) (payload b)

-- The loop over the offsets: every object is made the reader's. The n-th file gets the descriptor
-- `unused_fd n`. An offset or owner that was never written is a read of what kmalloc left.
unfoldable pub read_objs : (ℕ → Option ℕ) → ℕ → List ℕ → List ℕ → List ℕ → M (List ℕ)
unfolding bcmd_read_flat_obj get_flat set_flat
read_objs unused_fd zero offs owners bytes = pure bytes
read_objs unused_fd (suc n) [] owners bytes = λ w. stuck
read_objs unused_fd (suc n) (off ∷ offs) [] bytes = λ w. stuck
read_objs unused_fd (suc n) (off ∷ offs) (owner ∷ owners) bytes = do
  bp ← bcmd_read_flat_obj (unused_fd n) (get_flat bytes off) owner
  read_objs unused_fd n offs owners (set_flat bytes off bp)

-- A buffer of the region for so much data, if the process has mapped one.
unfoldable pub take_buf : ℕ → M (Slob × ℕ)
take_buf size w = elim w.proc.slob [
  | none ↦ back (err enomem) w
  | some s ↦
      if w.proc.ustart == 0 then back (err enomem) w else elim (fast_slob_alloc s (header + size)) [
        | none ↦ back (err enomem) w
        | some (p, s') ↦ back (ok (s', p)) (record w { proc = record w.proc { slob = some s' } })
      ]
]

unfoldable pub set_mem : Slob → (ℕ → ℕ) → M (Unit {0})
set_mem s mem = update_proc (λ p. record p { slob = some (record s { mem = mem }) })

-- The addresses of the data and of the offsets for the user, and the message as it was read. A
-- failure leaves the buffer taken.
unfoldable pub place_data : (ℕ → Option ℕ) → MsgBuf → M (ℕ × ℕ × MsgBuf)
unfolding take_buf read_objs copy_cells payload msg_buf_align set_mem
place_data unused_fd b = do
  (s, p) ← take_buf (msg_buf_align b.data_size + msg_buf_align b.offsets_size)
  w ← get
  let uaddr = (w.proc.ustart + (p + header - s.start)) % 2 ^ 32
  let offsets = if ltb 0 b.offsets_size then (uaddr + msg_buf_align b.data_size) % 2 ^ 32 else 0
  let mem = fill_sizes s.mem p uaddr b
  set_mem s mem
  bytes ← read_objs unused_fd (rounds b.offsets_size) b.offsets b.owners b.data_bytes
  let b' = record b { data_bytes = bytes }
  set_mem s (fill_data mem p offsets b')
  pure (uaddr, offsets, b')

abbrev pub br_transaction : ℕ
br_transaction = 0x80287202

abbrev pub br_reply : ℕ
br_reply = 0x80287203

abbrev pub is_call : MsgType → Bool
is_call MsgType.bc_transaction = true
is_call _ = false

-- `struct bcmd_transaction_data` for the user
abbrev pub tdata_words : Msg → ℕ → ℕ → List ℕ
tdata_words m buffer offsets =
    m.binder ∷ m.cookie ∷ m.code ∷ m.flags ∷ m.sender_pid ∷ m.sender_euid ∷ m.buf.data_size
    ∷ m.buf.offsets_size ∷ buffer ∷ offsets ∷ []

-- What stays of a message that the user has got: a call waits to be answered, a reply has been
-- waited for.
unfoldable pub note_read : Msg → MsgBuf → M (Unit {0})
note_read msg b = elim (is_call msg.type) [
  | true ↦
      if one_way msg.flags
      then pure tt
      else update_thread (λ t. record t {
        incoming_transactions = record msg { buf = b } ∷ t.incoming_transactions;
      })
  | false ↦ update_thread (λ t. record t {
    pending_replies =
        if ltb_ℤ (pos 0) t.pending_replies then dec t.pending_replies else t.pending_replies;
  })
]

unfoldable pub bcmd_read_transaction : (ℕ → Option ℕ) → Msg → ℕ → M ℕ
unfolding place_data note_read msg_buf_align
bcmd_read_transaction unused_fd msg size = elim (ltb size 44) [
  | true ↦ fail enospc
  | false ↦ do
    let data_size = msg_buf_align msg.buf.data_size + msg_buf_align msg.buf.offsets_size
    (buffer, offsets, b) ←
        if ltb 0 data_size then place_data unused_fd msg.buf else pure (0, 0, msg.buf)
    put_user ((if is_call msg.type then br_transaction else br_reply) ∷ [])
    put_user (tdata_words msg buffer offsets)
    note_read msg b
    pure 44
]

-- The objects of a buffer lose the reference that came with it; what that returns is ignored. `at`
-- is the place of the next offset, `base` that of the data.
unfoldable pub release_objs : ℕ → (ℕ → ℕ) → ℕ → ℕ → M (Unit {0})
unfolding read_cells get_word get_flat
release_objs zero mem base at = pure tt
release_objs (suc n) mem base at = do
  let bp = get_flat (read_cells mem (base + get_word (read_cells mem at 4) 0) 16) 0
  w ← get
  let obj =
      if bp.type == type_binder
      then binder_find_my_obj bp.binder w
      else if bp.type == type_handle
      then binder_find_obj_by_ref bp.binder w
      else none
  elim obj [ none ↦ pure tt | some o ↦ attempt (binder_release_obj o) >>= (λ _. pure tt) ]
  release_objs n mem base (at + 4)

-- The place in the kernel's region of the buffer at a user's address.
abbrev pub kernel_place : Slob → ℕ → ℕ → ℕ
kernel_place s ustart uaddr = (s.start + (uaddr + 2 ^ 32 - ustart + 2 ^ 32 - header)) % 2 ^ 32

-- The buffer that the user's address names, its place and its bucket.
unfoldable pub buf_at : Slob → ℕ → ℕ → Option (Slob × ℕ × ℕ)
buf_at s ustart uaddr =
    let p = kernel_place s ustart uaddr in
    if ustart == 0 || ltb uaddr ustart then none else elim (fast_slob_bucket s p) [
      | none ↦ none
      | some idx ↦ if s.mem p == uaddr then some (s, p, idx) else none
    ]

unfoldable pub buf_of : ℕ → World → Option (Slob × ℕ × ℕ)
unfolding buf_at
buf_of uaddr w = elim w.proc.slob [ none ↦ none | some s ↦ buf_at s w.proc.ustart uaddr ]

unfoldable pub give_buf : Slob → ℕ → ℕ → M (Unit {0})
give_buf s idx p = update_proc (λ q. record q { slob = some (free_to s idx p) })

-- The objects of a buffer go, then the buffer.
unfoldable pub free_taken : Slob → ℕ → ℕ → M (Unit {0})
unfolding release_objs give_buf
free_taken s p idx = do
  let offsets = (s.mem (p + 4) + 2 ^ 32 - s.mem p) % 2 ^ 32
  release_objs (rounds (s.mem (p + 12))) s.mem (p + header) (p + header + offsets)
  give_buf s idx p

unfoldable pub bcmd_write_free_buffer : ℕ → M (Unit {0})
unfolding buf_of free_taken
bcmd_write_free_buffer uaddr = do
  w ← get
  elim (buf_of uaddr w) [ none ↦ fail einval | some (s, p, idx) ↦ free_taken s p idx ]
