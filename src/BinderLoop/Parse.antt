-- ===== src/BinderLoop/Parse.antt =====
-- `binder_parse` of servicemanager/binder.c: what the driver has to say.
use android_binder_ipc.Common.{
  ℕ, zero, suc, ◌+◌, ◌-◌, ◌/◌, Bool, false, Option, none, some, List, [], ◌∷◌, if◌then◌else◌, ltb,
  ◌==◌, drop,
}
use android_binder_ipc.Common.Int.{ℤ, pos, negsuc}
use android_binder_ipc.BinderIo.{BinderIo, bio_init}
use android_binder_ipc.BinderLoop.{
  Call, get, pure, faults, spent, ◌>>=◌, ◌>>◌, Txn, txn_at, txn_len, Bio, bio_of_txn, Process,
  binder_send_reply,
}

-- The numbers that the switch knows.
pub data Br : Type 0 where
  noop transaction_complete increfs acquire release decrefs : Br
  transaction reply dead_binder failed_reply dead_reply : Br

unfoldable pub br_number : Br → ℕ
br_number Br.noop = 0x720c
br_number Br.transaction_complete = 0x7206
br_number Br.increfs = 0x80087207
br_number Br.acquire = 0x80087208
br_number Br.release = 0x80087209
br_number Br.decrefs = 0x8008720a
br_number Br.transaction = 0x80287202
br_number Br.reply = 0x80287203
br_number Br.dead_binder = 0x8004720f
br_number Br.failed_reply = 0x7211
br_number Br.dead_reply = 0x7205

-- The first of these commands that has the number.
unfoldable pub br_among : List Br → ℕ → Option Br
unfolding br_number
br_among [] n = none
br_among (c ∷ cs) n = let rest = br_among cs n in if br_number c == n then some c else rest

-- The switch; `none` is its default.
unfoldable pub br_of : ℕ → Option Br
unfolding br_among
br_of = br_among (
    Br.noop ∷ Br.transaction_complete ∷ Br.increfs ∷ Br.acquire ∷ Br.release ∷ Br.decrefs
    ∷ Br.transaction ∷ Br.reply ∷ Br.dead_binder ∷ Br.failed_reply ∷ Br.dead_reply ∷ [])

-- What a handler of transactions gets: the transaction, its message and the reply to write. It
-- returns an int, as a word.
abbrev pub Handler : Type 0 → Type 0
Handler S = Txn → BinderIo → BinderIo → Call S (ℕ × BinderIo)

-- `wants` is whether `bio` is not NULL, `filled` what it has been set to, `r` what is returned at
-- the end.
pub record Parse : Type 0 where
  pub wants : Bool
  pub filled : Option Bio
  pub r : ℤ

-- `next` goes on behind so many words; `quit` is `return -1`.
pub data Step : Type 0 where
  next : ℕ → Parse → Step
  quit : Step

module _ {S : Type 0} (p : Process S) where
  -- bio_init(&reply, rdata, sizeof(rdata), 4): the offsets stand before the data.
  unfoldable pub reply_bio : BinderIo → Bio
  reply_bio io = record { data0 = p.frame.rdata + 16; offs0 = p.frame.rdata; io = io }

  -- BR_TRANSACTION, for a process that serves or one that does not.
  unfoldable pub serve_txn : Option (Handler S) → Txn → Call S (Unit {0})
  unfolding bio_init bio_of_txn binder_send_reply reply_bio
  serve_txn none txn = pure tt
  serve_txn (some func) txn = do
    s ← get
    (res, io) ← func txn (bio_of_txn (p.memory s) txn).io (bio_init 256 4)
    binder_send_reply p (reply_bio io) txn.buffer res

  -- BR_REPLY; only the first one is kept.
  unfoldable pub take_reply : Txn → Parse → Call S Parse
  unfolding bio_of_txn
  take_reply txn st = do
    s ← get
    let filled = if st.wants then some (bio_of_txn (p.memory s) txn) else st.filled
    pure (record { wants = false; filled = filled; r = pos 0 })

  -- A case of the switch. `n` words are left before `end`, and `rest` is what stands there and
  -- behind.
  unfoldable pub parse_case : Option (Handler S) → Br → Parse → ℕ → List ℕ → Call S Step
  unfolding serve_txn take_reply txn_at
  parse_case func Br.noop st n rest = pure (Step.next 0 st)
  parse_case func Br.transaction_complete st n rest = pure (Step.next 0 st)
  parse_case func Br.increfs st n rest = pure (Step.next 2 st)
  parse_case func Br.acquire st n rest = pure (Step.next 2 st)
  parse_case func Br.release st n rest = pure (Step.next 2 st)
  parse_case func Br.decrefs st n rest = pure (Step.next 2 st)
  parse_case func Br.transaction st n rest =
      if ltb n txn_len then pure Step.quit else elim (txn_at rest) as (λ o. Call S Step) [
        | none ↦ faults
        | some txn ↦ do serve_txn func txn; pure (Step.next txn_len st)
      ]
  parse_case func Br.reply st n rest =
      if ltb n txn_len then pure Step.quit else elim (txn_at rest) as (λ o. Call S Step) [
        | none ↦ faults
        | some txn ↦ do st' ← take_reply txn st; pure (Step.next txn_len st')
      ]
  parse_case func Br.dead_binder st n [] = faults
  parse_case func Br.dead_binder st n (death ∷ rest) = do p.death death; pure (Step.next 1 st)
  parse_case func Br.failed_reply st n rest = pure (Step.next 0 (record st { r = negsuc 0 }))
  parse_case func Br.dead_reply st n rest = pure (Step.next 0 (record st { r = negsuc 0 }))

  unfoldable pub parse_one : Option (Handler S) → ℕ → Parse → ℕ → List ℕ → Call S Step
  unfolding br_of parse_case
  parse_one func cmd st n rest = elim (br_of cmd) [
    | none ↦ pure Step.quit
    | some c ↦ parse_case func c st n rest
  ]

  -- The while loop: `n` words are left before `end`.
  unfoldable pub parse_loop : Option (Handler S) → ℕ → Parse → ℕ → List ℕ → Call S Parse
  unfolding parse_one
  parse_loop func rounds st zero buf = pure st
  parse_loop func zero st (suc n) buf = spent
  parse_loop func (suc rounds) st (suc n) [] = faults
  parse_loop func (suc rounds) st (suc n) (cmd ∷ rest) = do
    step ← parse_one func cmd st n rest
    elim step [
      | quit ↦ pure (record st { r = negsuc 0 })
      | next k st' ↦ parse_loop func rounds st' (n - k) (drop k rest)
    ]

  -- `ptr` is the buffer, of which `size` bytes are to be read. Each round reads a word at least.
  unfoldable pub binder_parse : Bool → List ℕ → ℕ → Option (Handler S) → Call S Parse
  unfolding parse_loop
  binder_parse wants ptr size func =
      parse_loop func (size / 4) (record { wants = wants; filled = none; r = pos 1 }) (size / 4) ptr
