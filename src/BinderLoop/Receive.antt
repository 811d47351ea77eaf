-- ===== src/BinderLoop/Receive.antt =====
-- What `bcmd_read_transaction` of module/new/binder.c writes to its user, as `binder_parse` of
-- servicemanager/binder.c reads it.
use android_binder_ipc.Common.{ℕ, ◌≡◌, refl, ◌∙◌, Bool, Option, none, List, [], ◌∷◌, ◌++◌}
use android_binder_ipc.Common.Int.{pos}
use android_binder_ipc.Driver.World.{Msg}
use android_binder_ipc.Driver.Buffers.{tdata_words, br_transaction, br_reply}
use android_binder_ipc.BinderLoop.{
  Outcome, done, fault, running, pure, ◌>>◌, Txn, txn_words, Process,
}
use android_binder_ipc.BinderLoop.Parse.{
  Parse, Handler, serve_txn, take_reply, binder_parse, br_number,
}
use android_binder_ipc.BinderLoop.Stream.{
  Incoming, stream, command_words, act_all, act, parse-stream,
}

-- The transaction that a message becomes, with the places of its data and its offsets.
abbrev pub txn_of : Msg → ℕ → ℕ → Txn
txn_of m buffer offsets = record {
  target = m.binder;
  cookie = m.cookie;
  code = m.code;
  flags = m.flags;
  sender_pid = m.sender_pid;
  sender_euid = m.sender_euid;
  data_size = m.buf.data_size;
  offs_size = m.buf.offsets_size;
  buffer = buffer;
  offs = offsets;
}

module _ {S : Type 0} (p : Process S) (func : Option (Handler S)) (wants : Bool) where
  abbrev start : Parse
  start = record { wants = wants; filled = none; r = pos 1 }

  -- The 44 bytes that the driver writes for a call make a process serve it, and those for a reply
  -- make it take that reply, with the target, the cookie, the code, the flags, the sender, the sizes
  -- and the places that the driver has written; what stands behind them is not read.
  pub parse-tdata_words :
      (m : Msg) (buffer offsets : ℕ) (stale : List ℕ) (s : S)
      → (binder_parse p wants (br_transaction ∷ tdata_words m buffer offsets ++ stale) 44 func s
          ≡ (serve_txn p func (txn_of m buffer offsets) >> pure start) s)
        × (binder_parse p wants (br_reply ∷ tdata_words m buffer offsets ++ stale) 44 func s
            ≡ take_reply p (txn_of m buffer offsets) start s)
  parse-tdata_words m buffer offsets stale s =
      let t = txn_of m buffer offsets in
      (
        unfold stream command_words act_all act br_number txn_words in
            parse-stream p func (Incoming.transaction t ∷ []) stale wants s
            ∙ last (serve_txn p func t s),
        unfold stream command_words act_all act br_number txn_words take_reply in
            parse-stream p func (Incoming.reply t ∷ []) stale wants s,
      )
    where
      last :
          (x : Outcome (Unit {0} × S))
          → elim (elim x as (λ y. Outcome (Parse × S)) [
            | done r ↦ done (start, r.1)
            | fault ↦ fault
            | running ↦ running
          ])
              as (λ y. Outcome (Parse × S)) [ done r ↦ done r | fault ↦ fault | running ↦ running ]
            ≡ elim x as (λ y. Outcome (Parse × S)) [
              | done r ↦ done (start, r.1)
              | fault ↦ fault
              | running ↦ running
            ]
      last (done r) = refl
      last fault = refl
      last running = refl
