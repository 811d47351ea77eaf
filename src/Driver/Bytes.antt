-- ===== src/Driver/Bytes.antt =====
-- Words in byte buffers (little-endian, 32 bits), and `struct flat_binder_object` of
-- module/new/binder.h as it stands in the data of a transaction.
use android_binder_ipc.Common.{
  ℕ, zero, suc, ◌+◌, ◌*◌, ◌/◌, ◌%◌, ◌^◌, ◌<◌, ◌≡◌, List, [], ◌∷◌, get_or, set, length, length-set,
  arith,
}

unfoldable pub get_word : List ℕ → ℕ → ℕ
get_word bs at =
    get_or bs at 0
    + 256 * get_or bs (at + 1) 0
    + 65536 * get_or bs (at + 2) 0
    + 16777216 * get_or bs (at + 3) 0

unfoldable pub set_word : List ℕ → ℕ → ℕ → List ℕ
set_word bs at v =
    set (set (set (set bs at (v % 256)) (at + 1) (v / 256 % 256)) (at + 2) (v / 65536 % 256))
      (at + 3) (v / 16777216 % 256)

pub record FlatObj : Type 0 where
  pub type : ℕ
  pub flags : ℕ
  pub binder : ℕ
  pub cookie : ℕ

-- sizeof(struct flat_binder_object)
abbrev pub flat_size : ℕ
flat_size = 16

unfoldable pub get_flat : List ℕ → ℕ → FlatObj
unfolding get_word
get_flat bs at = record {
  type = get_word bs at;
  flags = get_word bs (at + 4);
  binder = get_word bs (at + 8);
  cookie = get_word bs (at + 12);
}

unfoldable pub set_flat : List ℕ → ℕ → FlatObj → List ℕ
unfolding set_word
set_flat bs at o =
    set_word (set_word (set_word (set_word bs at o.type) (at + 4) o.flags) (at + 8) o.binder)
      (at + 12) o.cookie

-- The words of an array that begins with these bytes, `n` of them.
unfoldable pub words : ℕ → List ℕ → ℕ → List ℕ
unfolding get_word
words zero bs at = []
words (suc n) bs at = get_word bs at ∷ words n bs (at + 4)

abbrev pub type_code : ℕ → ℕ → ℕ
type_code a b = a * 2 ^ 24 + b * 2 ^ 16 + b'*' * 2 ^ 8 + 0x85

-- BINDER_TYPE_BINDER, _WEAK_BINDER, _HANDLE, _WEAK_HANDLE, _FD
abbrev pub type_binder : ℕ
type_binder = type_code b's' b'b'

abbrev pub type_weak_binder : ℕ
type_weak_binder = type_code b'w' b'b'

abbrev pub type_handle : ℕ
type_handle = type_code b's' b'h'

abbrev pub type_weak_handle : ℕ
type_weak_handle = type_code b'w' b'h'

abbrev pub type_fd : ℕ
type_fd = type_code b'f' b'd'

pub length-set_word : (bs : List ℕ) (at v : ℕ) → length (set_word bs at v) ≡ length bs
unfolding set_word
length-set_word bs at v = omega (
  arith,
  length-set bs at (v % 256),
  length-set (set bs at (v % 256)) (at + 1) (v / 256 % 256),
  length-set (set (set bs at (v % 256)) (at + 1) (v / 256 % 256)) (at + 2) (v / 65536 % 256),
  length-set (set (set (set bs at (v % 256)) (at + 1) (v / 256 % 256)) (at + 2) (v / 65536 % 256))
      (at + 3) (v / 16777216 % 256),
)

-- The bytes of words in memory.
unfoldable pub bytes_of : List ℕ → List ℕ
bytes_of [] = []
bytes_of (w ∷ ws) = w % 256 ∷ w / 256 % 256 ∷ w / 65536 % 256 ∷ w / 16777216 % 256 ∷ bytes_of ws

abbrev pub IsWord : ℕ → Type 0
IsWord w = w < 2 ^ 32

pub word_lem :
    (w : ℕ)
    → IsWord w
    → w % 256 + 256 * (w / 256 % 256) + 65536 * (w / 65536 % 256) + 16777216 * (w / 16777216 % 256)
      ≡ w
word_lem w h = omega arith
