-- ===== src/BinderIo/Inside.antt =====
-- The places that `bio_get` and `bio_alloc` of servicemanager/binder.c give, for sizes that do not wrap
-- when they are rounded up.
use android_binder_ipc.Common.{
  ℕ, ◌+◌, ◌*◌, ◌/◌, ◌%◌, ◌^◌, ◌<◌, ◌≤◌, Option, none, some, arith, ltb, length, Bool-cases, inl,
  inr,
}
use android_binder_ipc.BinderIo.{BinderIo, round_up, bio_alloc, bio_get}

-- What is left to read or to write is in the buffer.
unfoldable pub IsInside : BinderIo → Type 0
IsInside b = b.at + b.data_avail ≤ length b.bytes

-- The place of so many bytes is in the buffer, if there is one.
unfoldable pub Holds : BinderIo → ℕ → Option ℕ → Type 0
Holds b size none = Unit
Holds b size (some p) = p + size ≤ length b.bytes

-- What bio_get returns, for any size that does not wrap when it is rounded up, is NULL or a place
-- with that many bytes of the buffer behind it; what is left stays in the buffer.
pub get-IsInside :
    (size : ℕ) (b : BinderIo)
    → IsInside b
    → size + 3 < 2 ^ 32
    → Holds b size (bio_get size b).0 × IsInside (bio_get size b).1
unfolding bio_get IsInside Holds round_up
get-IsInside size b h lt = elim (Bool-cases (ltb b.data_avail ((size + 3) % 2 ^ 32 / 4 * 4))) [
  | inl e ↦ rw e (tt, omega arith)
  | inr e ↦ rw e (grind arith, grind arith)
]

-- What bio_alloc returns, for any size that does not wrap when it is rounded up, is NULL or a place
-- with that many bytes of the buffer behind it; what is left stays in the buffer.
pub alloc-IsInside :
    (size : ℕ) (b : BinderIo)
    → IsInside b
    → size + 3 < 2 ^ 32
    → Holds b size (bio_alloc size b).0 × IsInside (bio_alloc size b).1
unfolding bio_alloc IsInside Holds round_up
alloc-IsInside size b h lt = elim (Bool-cases (ltb b.data_avail ((size + 3) % 2 ^ 32 / 4 * 4))) [
  | inl e ↦ rw e (tt, h)
  | inr e ↦ rw e (grind arith, grind arith)
]
