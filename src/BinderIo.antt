-- ===== src/BinderIo.antt =====
-- The buffers of messages of servicemanager/binder.c: `struct binder_io` and the bio_ functions.
-- `bytes` is what stands from data0 on, `at` is data - data0, `offs` are the offsets from offs0 on
-- (those that the message has, or those written so far). A pointer into the buffer is its distance
-- from data0, and `none` is NULL.
pub mod Inside
pub mod Layout
pub mod Items
pub mod Put
pub mod PutObjects
pub mod Get
pub mod PutItems
pub mod GetItems
pub mod RoundTrip
pub mod Tests
use android_binder_ipc.Common.{
  ℕ, zero, suc, ◌+◌, ◌-◌, ◌*◌, ◌/◌, ◌%◌, ◌^◌, Bool, true, false, ◌&&◌, ◌||◌, Option, none, some,
  List, [], ◌∷◌, ◌++◌, if◌then◌else◌, ltb, leb, ◌==◌, length, drop, set,
}
use android_binder_ipc.Driver.Bytes.{get_word, set_word, type_binder, type_handle}

pub record BinderIo : Type 0 where
  pub bytes : List ℕ
  pub offs : List ℕ
  pub at : ℕ
  pub data_avail : ℕ
  pub offs_avail : ℕ
  pub shared : Bool
  pub overflow : Bool

unfoldable pub zeros : ℕ → List ℕ
zeros zero = []
zeros (suc n) = 0 ∷ zeros n

-- The message of a transaction.
unfoldable pub bio_init_from_txn : List ℕ → List ℕ → ℕ → ℕ → BinderIo
bio_init_from_txn bytes offs data_size offs_size = record {
  bytes = bytes;
  offs = offs;
  at = 0;
  data_avail = data_size;
  offs_avail = offs_size / 4;
  shared = true;
  overflow = false;
}

-- A buffer to write in, whose memory is zero here.
unfoldable pub bio_init : ℕ → ℕ → BinderIo
unfolding zeros
bio_init maxdata maxoffs =
    let n = maxoffs * 4 % 2 ^ 32 in
    let avail = if ltb maxdata n then 0 else maxdata - n in
    record {
      bytes = zeros avail;
      offs = [];
      at = 0;
      data_avail = avail;
      offs_avail = if ltb maxdata n then 0 else maxoffs;
      shared = false;
      overflow = ltb maxdata n;
    }

-- (size + 3) & ~3
unfoldable pub round_up : ℕ → ℕ
round_up size = (size + 3) % 2 ^ 32 / 4 * 4

abbrev pub advance : ℕ → BinderIo → BinderIo
advance size b = record b { at = b.at + size; data_avail = b.data_avail - size }

unfoldable pub bio_alloc : ℕ → BinderIo → Option ℕ × BinderIo
unfolding round_up
bio_alloc size b =
    if ltb b.data_avail (round_up size)
    then (none, record b { overflow = true })
    else (some b.at, advance (round_up size) b)

-- sizeof(struct binder_object)
abbrev pub object_size : ℕ
object_size = 16

unfoldable pub bio_alloc_obj : BinderIo → Option ℕ × BinderIo
unfolding bio_alloc
bio_alloc_obj b =
    let (p, b') = bio_alloc object_size b in
    elim p [
      | none ↦ (none, record b' { overflow = true })
      | some at ↦
          if b'.offs_avail == 0
          then (none, record b' { overflow = true })
          else (some at, record b' { offs_avail = b'.offs_avail - 1; offs = b'.offs ++ at ∷ [] })
    ]

unfoldable pub bio_put_uint32 : ℕ → BinderIo → BinderIo
unfolding bio_alloc set_word
bio_put_uint32 n b =
    let (p, b') = bio_alloc 4 b in
    elim p [ none ↦ b' | some at ↦ record b' { bytes = set_word b'.bytes at n } ]

-- type, flags, pointer and cookie; the flags are 0x7f | FLAT_BINDER_FLAG_ACCEPTS_FDS.
abbrev pub put_object : ℕ → ℕ → ℕ → BinderIo → BinderIo
put_object type ptr at b = record b {
  bytes =
      set_word (set_word (set_word (set_word b.bytes (at + 4) 0x17f) at type) (at + 8) ptr)
        (at + 12) 0;
}

unfoldable pub bio_put_obj : ℕ → BinderIo → BinderIo
unfolding bio_alloc_obj set_word
bio_put_obj ptr b =
    let (p, b') = bio_alloc_obj b in
    elim p [ none ↦ b' | some at ↦ put_object type_binder ptr at b' ]

-- A NULL reference takes its place without an offset.
unfoldable pub bio_put_ref : ℕ → BinderIo → BinderIo
unfolding bio_alloc_obj bio_alloc set_word
bio_put_ref ptr b =
    let (p, b') = if ptr == 0 then bio_alloc object_size b else bio_alloc_obj b in
    elim p [ none ↦ b' | some at ↦ put_object type_handle ptr at b' ]

unfoldable pub bio_get : ℕ → BinderIo → Option ℕ × BinderIo
unfolding round_up
bio_get size b =
    if ltb b.data_avail (round_up size)
    then (none, record b { data_avail = 0; overflow = true })
    else (some b.at, advance (round_up size) b)

unfoldable pub bio_get_uint32 : BinderIo → ℕ × BinderIo
unfolding bio_get get_word
bio_get_uint32 b =
    let (p, b') = bio_get 4 b in elim p [ none ↦ (0, b') | some at ↦ (get_word b'.bytes at, b') ]

-- The 16-bit units of these bytes.
unfoldable pub units : List ℕ → List ℕ
units [] = []
units (x ∷ []) = []
units (x ∷ y ∷ rest) = (x + 256 * y) ∷ units rest

-- The string (its units from the pointer to the end of the buffer), the length that the message
-- announces, and the buffer behind it.
unfoldable pub bio_get_string16 : BinderIo → Option (List ℕ) × ℕ × BinderIo
unfolding bio_get_uint32 bio_get units
bio_get_string16 b =
    let (len, b') = bio_get_uint32 b in
    let (p, b'') = bio_get ((len + 1) % 2 ^ 32 * 2 % 2 ^ 32) b' in
    elim p [ none ↦ (none, len, b'') | some at ↦ (some (units (drop at b''.bytes)), len, b'') ]

-- The place is one of the first offsets.
unfoldable pub is_offset : ℕ → ℕ → List ℕ → Bool
is_offset zero at offs = false
is_offset (suc n) at [] = false
is_offset (suc n) at (off ∷ offs) = off == at || is_offset n at offs

-- `_bio_get_obj`
unfoldable pub bio_get_obj : BinderIo → Option ℕ × BinderIo
unfolding is_offset bio_get
bio_get_obj b =
    if is_offset b.offs_avail b.at b.offs
    then bio_get object_size b
    else (none, record b { data_avail = 0; overflow = true })

-- 0 is NULL.
unfoldable pub bio_get_ref : BinderIo → ℕ × BinderIo
unfolding bio_get_obj get_word
bio_get_ref b =
    let (p, b') = bio_get_obj b in
    elim p [
      | none ↦ (0, b')
      | some at ↦
          (if get_word b'.bytes at == type_handle then get_word b'.bytes (at + 8) else 0, b')
    ]

-- The units of a string up to its NUL, as bytes with a NUL behind them.
unfoldable pub string_bytes : List ℕ → List ℕ
string_bytes [] = 0 ∷ 0 ∷ []
string_bytes (u ∷ us) =
    let rest = string_bytes us in if u == 0 then 0 ∷ 0 ∷ [] else u % 256 ∷ u / 256 ∷ rest

unfoldable pub until_nul : List ℕ → ℕ
until_nul [] = 0
until_nul (u ∷ us) = let rest = until_nul us in if u == 0 then 0 else suc rest

-- memcpy of these bytes to a place of the buffer
unfoldable pub copy_to : List ℕ → ℕ → List ℕ → List ℕ
copy_to [] at bytes = bytes
copy_to (x ∷ xs) at bytes = copy_to xs (at + 1) (set bytes at x)

-- MAX_BIO_SIZE is 1 << 30; `none` is NULL.
unfoldable pub bio_put_string16 : Option (List ℕ) → BinderIo → BinderIo
unfolding bio_put_uint32 bio_alloc string_bytes until_nul copy_to
bio_put_string16 none b = bio_put_uint32 0xffffffff b
bio_put_string16 (some str) b =
    let len = until_nul str in
    if leb (2 ^ 29) len
    then bio_put_uint32 0xffffffff b
    else (let (p, b') = bio_alloc ((len + 1) * 2) (bio_put_uint32 len b) in
        elim p [
          | none ↦ b'
          | some at ↦ record b' { bytes = copy_to (string_bytes str) at b'.bytes }
        ])

-- The same for a string of bytes, each of which becomes a unit.
unfoldable pub bio_put_string16_x : Option (List ℕ) → BinderIo → BinderIo
unfolding bio_put_uint32 bio_alloc string_bytes until_nul copy_to
bio_put_string16_x none b = bio_put_uint32 0xffffffff b
bio_put_string16_x (some str) b =
    let len = until_nul str in
    if leb (2 ^ 29) len
    then bio_put_uint32 0xffffffff b
    else (let (p, b') = bio_alloc ((len + 1) * 2) (bio_put_uint32 len b) in
        elim p [
          | none ↦ b'
          | some at ↦ record b' { bytes = copy_to (string_bytes str) at b'.bytes }
        ])
