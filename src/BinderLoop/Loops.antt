-- ===== src/BinderLoop/Loops.antt =====
-- `binder_call` and `binder_loop` of servicemanager/binder.c, on so many rounds of their loops, and
-- `binder_open`.
use android_binder_ipc.Common.{
  ℕ, zero, suc, ◌*◌, Bool, true, false, Option, none, some, List, [], ◌∷◌, ◌++◌, if◌then◌else◌,
  ◌||◌, drop, length, take,
}
use android_binder_ipc.Common.Int.{pos, is, ltb_ℤ}
use android_binder_ipc.Driver.Write.{Bcmd, number}
use android_binder_ipc.BinderLoop.{
  Call, pure, spent, ◌>>=◌, ◌>>◌, Txn, txn_words, Bio, Process, Request, Answer, binder_write,
  ioctl, offs_written,
}
use android_binder_ipc.BinderLoop.Parse.{Handler, Parse, binder_parse}

-- What an answer leaves in the buffer that it is read into.
unfoldable pub read_into : List ℕ → List ℕ → List ℕ
read_into words buf = words ++ drop (length words) buf

-- sizeof(readbuf)
abbrev pub read_size : ℕ
read_size = 128

module _ {S : Type 0} (p : Process S) where
  -- BC_TRANSACTION for the message, which the function writes to.
  unfoldable pub call_txn : Bio → ℕ → ℕ → Txn
  unfolding offs_written
  call_txn msg target code = record {
    target = target;
    cookie = p.frame.cookie;
    code = code;
    flags = 0;
    sender_pid = p.frame.sender_pid;
    sender_euid = p.frame.sender_euid;
    data_size = msg.io.at;
    offs_size = length (offs_written msg.io) * 4;
    buffer = msg.data0;
    offs = msg.offs0;
  }

  -- What a call returns: whether that is 0, with the reply; `none` is a reply that is cleared but
  -- for BIO_F_IOERROR.
  abbrev pub Returned : Type 0
  Returned = Bool × Option Bio

  -- The end of a round of binder_call.
  unfoldable pub call_verdict : Option Bio → Parse → Call S Returned → Call S Returned
  call_verdict reply st again =
      if is st.r 0
      then pure (true, reply)
      else if ltb_ℤ st.r (pos 0)
      then pure (false, none)
      else again

  -- What a round of binder_call does with the answer; `again` is the next round.
  unfoldable pub call_answer :
      (Request → List ℕ → Option Bio → Call S Returned)
      → Request
      → List ℕ
      → Option Bio
      → Option Answer
      → Call S Returned
  unfolding call_verdict binder_parse read_into
  call_answer again bwr readbuf reply none = pure (false, none)
  call_answer again bwr readbuf reply (some a) = do
    let buf = read_into a.read_buffer readbuf
    st ← binder_parse p true buf (length a.read_buffer * 4) none
    let reply' = elim st.filled as (λ o. Option Bio) [ none ↦ reply | some b ↦ some b ]
    call_verdict reply' st (again (record bwr { write_consumed = a.write_consumed }) buf reply')

  -- The loop of binder_call; the same request is made in each round, but for what the driver has
  -- noted as read of it.
  unfoldable pub call_loop : ℕ → Request → List ℕ → Option Bio → Call S Returned
  unfolding call_answer
  call_loop zero bwr readbuf reply = spent
  call_loop (suc rounds) bwr readbuf reply = do
    answer ← ioctl p bwr
    call_answer (call_loop rounds) bwr readbuf reply answer

  -- What a call writes, with room for what it reads.
  unfoldable pub call_request : Bio → ℕ → ℕ → Request
  unfolding call_txn txn_words number offs_written
  call_request msg target code = record {
    write_buffer = number Bcmd.transaction ∷ txn_words (call_txn msg target code);
    payload = some (record { bytes = take msg.io.at msg.io.bytes; offs = offs_written msg.io });
    write_consumed = 0;
    read_size = read_size;
  }

  unfoldable pub binder_call : ℕ → Bio → Option Bio → ℕ → ℕ → Call S Returned
  unfolding call_loop call_request
  binder_call rounds msg reply target code =
      if msg.io.overflow
      then pure (false, none)
      else call_loop rounds (call_request msg target code) p.frame.readbuf reply

  -- What a round of binder_loop does with the answer: the loop ends on an error and on a reply,
  -- which nobody waits for.
  unfoldable pub serve_answer :
      (ℕ → List ℕ → Call S (Unit {0})) → Handler S → List ℕ → Option Answer → Call S (Unit {0})
  unfolding binder_parse read_into
  serve_answer again func readbuf none = pure tt
  serve_answer again func readbuf (some a) = do
    let buf = read_into a.read_buffer readbuf
    st ← binder_parse p false buf (length a.read_buffer * 4) (some func)
    elim (is st.r 0 || ltb_ℤ st.r (pos 0)) [ true ↦ pure tt | false ↦ again a.write_consumed buf ]

  unfoldable pub serve_loop : ℕ → Handler S → ℕ → List ℕ → Call S (Unit {0})
  unfolding serve_answer
  serve_loop zero func consumed readbuf = spent
  serve_loop (suc rounds) func consumed readbuf = do
    answer ← ioctl p (record {
      write_buffer = [];
      payload = none;
      write_consumed = consumed;
      read_size = read_size;
    })
    serve_answer (serve_loop rounds func) func readbuf answer

  unfoldable pub binder_loop : ℕ → Handler S → Call S (Unit {0})
  unfolding serve_loop binder_write number
  binder_loop rounds func = do
    binder_write p (number Bcmd.enter ∷ []) none
    serve_loop rounds func 0 (number Bcmd.enter ∷ drop 1 p.frame.readbuf)
