-- ===== src/BinderLoop.antt =====
-- The command loop of servicemanager/binder.c: what a process writes to the driver. The driver, the
-- memory that it maps and the functions behind the process's pointers are an interface, `Process`;
-- `S` is the state of all of them. A buffer on the stack that the driver gets a pointer to goes along
-- with the words as `payload`.
pub mod Parse
pub mod Loops
pub mod Stream
pub mod Total
pub mod Talk
pub mod Memory
pub mod Reply
pub mod Receive
pub mod Device
pub mod Tests
use android_binder_ipc.Common.{
  ℕ, zero, suc, ◌+◌, ◌*◌, ◌/◌, Bool, true, false, Option, none, some, List, [], ◌∷◌, if◌then◌else◌,
  ◌==◌, length, take,
}
use android_binder_ipc.Driver.Bytes.{set_word, words}
use android_binder_ipc.Driver.Write.{Bcmd, number}
use android_binder_ipc.BinderIo.{BinderIo, bio_init_from_txn}

-- What a function comes to: a result, a use of memory that is not its own, or a loop that goes on
-- behind the rounds it was given.
pub data Outcome {ℓ} (A : Type ℓ) : Type ℓ where
  done : A → Outcome A
  fault running : Outcome A

abbrev pub Call : Type 0 → Type 0 → Type 0
Call S A = S → Outcome (A × S)

module _ {S A : Type 0} where
  abbrev pub pure : A → Call S A
  pure a s = done (a, s)

  abbrev pub faults : Call S A
  faults s = fault

  abbrev pub spent : Call S A
  spent s = running

abbrev pub get : {S : Type 0} → Call S S
get s = done (s, s)

module _ {S A B : Type 0} where
  infixl 5 ◌>>=◌ ◌>>◌
  abbrev pub ◌>>=◌ : Call S A → (A → Call S B) → Call S B
  ◌>>=◌ m f s = elim (m s) [ done r ↦ f r.0 r.1 | fault ↦ fault | running ↦ running ]

  abbrev pub ◌>>◌ : Call S A → Call S B → Call S B
  m >> k = m >>= λ _. k

-- `struct binder_txn`
pub record Txn : Type 0 where
  pub target : ℕ
  pub cookie : ℕ
  pub code : ℕ
  pub flags : ℕ
  pub sender_pid : ℕ
  pub sender_euid : ℕ
  pub data_size : ℕ
  pub offs_size : ℕ
  pub buffer : ℕ
  pub offs : ℕ

-- sizeof(struct binder_txn) / sizeof(uint32_t)
abbrev pub txn_len : ℕ
txn_len = 10

unfoldable pub txn_words : Txn → List ℕ
txn_words t =
    t.target ∷ t.cookie ∷ t.code ∷ t.flags ∷ t.sender_pid ∷ t.sender_euid ∷ t.data_size
    ∷ t.offs_size ∷ t.buffer ∷ t.offs ∷ []

-- The words at a pointer as a transaction; `none` where the memory ends before.
unfoldable pub txn_at : List ℕ → Option Txn
txn_at (t ∷ k ∷ c ∷ f ∷ p ∷ e ∷ n ∷ m ∷ d ∷ o ∷ rest) = some (record {
  target = t;
  cookie = k;
  code = c;
  flags = f;
  sender_pid = p;
  sender_euid = e;
  data_size = n;
  offs_size = m;
  buffer = d;
  offs = o;
})
txn_at _ = none

-- A `struct binder_io` with the addresses of its buffers.
pub record Bio : Type 0 where
  pub data0 : ℕ
  pub offs0 : ℕ
  pub io : BinderIo

-- The bytes and the offsets that a transaction points to.
pub record Payload : Type 0 where
  pub bytes : List ℕ
  pub offs : List ℕ

-- `struct binder_write_read` with what its buffers hold.
pub record Request : Type 0 where
  pub write_buffer : List ℕ
  pub payload : Option Payload
  pub write_consumed : ℕ
  pub read_size : ℕ

-- What BINDER_WRITE_READ leaves in it: read_consumed is four times the number of words.
pub record Answer : Type 0 where
  pub read_buffer : List ℕ
  pub write_consumed : ℕ

-- The addresses of the locals `rdata` and `status`, and what stands on the stack where a function
-- leaves a field or a buffer as it is.
pub record Frame : Type 0 where
  pub rdata : ℕ
  pub status : ℕ
  pub cookie : ℕ
  pub sender_pid : ℕ
  pub sender_euid : ℕ
  pub readbuf : List ℕ

-- `ioctl` has no answer where it returns a negative number. `death` calls the function that the
-- record of a death points to.
pub record Process (S : Type 0) : Type 0 where
  pub ioctl : Request → S → Option Answer × S
  pub memory : S → ℕ → ℕ
  pub death : ℕ → Call S (Unit {0})
  pub frame : Frame

unfoldable pub bytes_at : (ℕ → ℕ) → ℕ → ℕ → List ℕ
bytes_at mem p zero = []
bytes_at mem p (suc n) = mem p ∷ bytes_at mem (p + 1) n

-- bio_init_from_txn, with the memory that the transaction points to.
unfoldable pub bio_of_txn : (ℕ → ℕ) → Txn → Bio
unfolding bytes_at bio_init_from_txn words
bio_of_txn mem t = record {
  data0 = t.buffer;
  offs0 = t.offs;
  io =
      bio_init_from_txn (bytes_at mem t.buffer t.data_size)
        (words (t.offs_size / 4) (bytes_at mem t.offs (t.offs_size / 4 * 4)) 0) t.data_size
        t.offs_size;
}

-- The offsets written so far, offs - offs0; reading does not advance offs.
unfoldable pub offs_written : BinderIo → List ℕ
offs_written b = if b.shared then [] else b.offs

module _ {S : Type 0} (p : Process S) where
  abbrev pub ioctl : Request → Call S (Option Answer)
  ioctl bwr s = done (p.ioctl bwr s)

  -- Whether the ioctl did not fail.
  unfoldable pub binder_write : List ℕ → Option Payload → Call S Bool
  binder_write buffer payload = do
    answer ←
        ioctl
          (record { write_buffer = buffer; payload = payload; write_consumed = 0; read_size = 0 })
    pure (elim answer [ none ↦ false | some _ ↦ true ])

  unfoldable pub binder_acquire : ℕ → Call S Bool
  unfolding binder_write number
  binder_acquire ptr = binder_write (number Bcmd.acquire ∷ ptr ∷ []) none

  unfoldable pub binder_release : ℕ → Call S Bool
  unfolding binder_write number
  binder_release ptr = binder_write (number Bcmd.release ∷ ptr ∷ []) none

  unfoldable pub binder_link_to_death : ℕ → ℕ → Call S Bool
  unfolding binder_write number
  binder_link_to_death ptr death = binder_write (number Bcmd.request_death ∷ ptr ∷ death ∷ []) none

  -- TF_STATUS_CODE with the status, or the reply as it was written.
  unfoldable pub reply_txn : Bio → ℕ → Txn
  unfolding offs_written
  reply_txn b status =
      if status == 0
      then record {
        target = 0;
        cookie = 0;
        code = 0;
        flags = 0;
        sender_pid = p.frame.sender_pid;
        sender_euid = p.frame.sender_euid;
        data_size = b.io.at;
        offs_size = length (offs_written b.io) * 4;
        buffer = b.data0;
        offs = b.offs0;
      }
      else record {
        target = 0;
        cookie = 0;
        code = 0;
        flags = 0x08;
        sender_pid = p.frame.sender_pid;
        sender_euid = p.frame.sender_euid;
        data_size = 4;
        offs_size = 0;
        buffer = p.frame.status;
        offs = 0;
      }

  -- What the pointers of that transaction lead to.
  unfoldable pub reply_payload : Bio → ℕ → Payload
  unfolding offs_written set_word
  reply_payload b status =
      if status == 0
      then record { bytes = take b.io.at b.io.bytes; offs = offs_written b.io }
      else record { bytes = set_word (0 ∷ 0 ∷ 0 ∷ 0 ∷ []) 0 status; offs = [] }

  unfoldable pub reply_words : Bio → ℕ → ℕ → List ℕ
  unfolding reply_txn number txn_words
  reply_words b buffer_to_free status =
      number Bcmd.free_buffer ∷ buffer_to_free ∷ number Bcmd.reply ∷ txn_words (reply_txn b status)

  -- What the write returns is ignored.
  unfoldable pub binder_send_reply : Bio → ℕ → ℕ → Call S (Unit {0})
  unfolding binder_write reply_words reply_payload
  binder_send_reply b buffer_to_free status = do
    binder_write (reply_words b buffer_to_free status) (some (reply_payload b status))
    pure tt

  -- A reply that the driver has mapped is given back; `none` is a reply that a failed call has
  -- cleared.
  unfoldable pub binder_done : Option Bio → Call S (Option Bio)
  unfolding binder_write number
  binder_done none = pure none
  binder_done (some b) = elim b.io.shared [
    | true ↦ do
      binder_write (number Bcmd.free_buffer ∷ b.data0 ∷ []) none
      pure (some (record b { io = record b.io { shared = false; overflow = false } }))
    | false ↦ pure (some b)
  ]
