-- ===== src/BinderLoop/Tests.antt =====
-- Runs of the command loop against a driver whose answers are listed.
pub mod Written
use android_binder_ipc.Common.{
  ℕ, zero, suc, ◌+◌, ◌*◌, ◌/◌, ◌%◌, ◌<◌, ◌≡◌, refl, arith, Bool, true, false, Option, none, some,
  List, [], ◌∷◌, ◌++◌, take, drop, All, length, ◌-◌, ap, sym, ◌∙◌,
}
use android_binder_ipc.Common.Int.{pos, negsuc}
use android_binder_ipc.BinderIo.{BinderIo, bio_init}
use android_binder_ipc.BinderLoop.{
  Outcome, done, fault, running, Call, pure, ◌>>=◌, ◌>>◌, Txn, Bio, bio_of_txn, Process, Frame,
  Request, Answer, reply_words, reply_txn, txn_words, binder_write,
}
use android_binder_ipc.BinderLoop.Parse.{
  Parse, Handler, serve_txn, take_reply, binder_parse, br_number, Br,
}
use android_binder_ipc.BinderLoop.Stream.{
  Incoming, stream, command_words, act_all, act, parse-stream,
}
use android_binder_ipc.BinderLoop.Total.{Finishes, pure-Finishes, Serves, parse-Finishes}
use android_binder_ipc.BinderLoop.Talk.{
  Ending, Talk, ends, waits, result_of, call_ends, idle, ending_command,
}
use android_binder_ipc.Driver.Tests.{message}
use android_binder_ipc.Driver.Buffers.{tdata_words, br_transaction, br_reply}
use android_binder_ipc.BinderLoop.Receive.{txn_of, parse-tdata_words}
use android_binder_ipc.BinderLoop.Loops.{call_request, binder_call}

-- The answers to come, and the requests so far, the newest first.
record Script : Type 0 where
  answers : List Answer
  requests : List Request

abbrev take_answer : Request → Script → Option Answer × Script
take_answer bwr k = elim k.answers [
  | [] ↦ (none, record k { requests = bwr ∷ k.requests })
  | a ∷ rest ↦ (some a, record k { answers = rest; requests = bwr ∷ k.requests })
]

abbrev script : Process Script
script = record {
  ioctl = take_answer;
  memory = λ k at. at % 256;
  death = λ id. pure tt;
  frame = record {
    rdata = 0x1000;
    status = 0x2000;
    cookie = 0;
    sender_pid = 0;
    sender_euid = 0;
    readbuf = 0 ∷ 0 ∷ 0 ∷ 0 ∷ [];
  };
}

abbrev txn : Txn
txn = record {
  target = 0;
  cookie = 0;
  code = 1;
  flags = 0;
  sender_pid = 7;
  sender_euid = 0;
  data_size = 4;
  offs_size = 0;
  buffer = 0x500;
  offs = 0x504;
}

abbrev greet : Handler Script
greet t msg io = pure (0, io)

-- The handler is called, and its reply is written with the buffer given back.
a_transaction :
    binder_parse script false
      (stream (Incoming.noop ∷ Incoming.transaction txn ∷ []))
      48
      (some greet)
      (record { answers = []; requests = [] })
    ≡ done (
      record { wants = false; filled = none; r = pos 1 },
      record {
        answers = [];
        requests =
            record {
              write_buffer =
                  0x40046303 ∷ 0x500 ∷ 0x40286301 ∷ 0 ∷ 0 ∷ 0 ∷ 0 ∷ 0 ∷ 0 ∷ 0 ∷ 0 ∷ 0x1010 ∷ 0x1000
                  ∷ [];
              payload = some (record { bytes = []; offs = [] });
              write_consumed = 0;
              read_size = 0;
            }
            ∷ [];
      },
    )
unfolding binder_parse stream command_words txn_words br_number
a_transaction = refl

-- The word behind BR_DEAD_BINDER is read although the buffer ends before it.
death_behind_the_end :
    binder_parse script false
      (br_number Br.dead_binder ∷ [])
      4
      none
      (record { answers = []; requests = [] })
    ≡ fault
unfolding binder_parse br_number
death_behind_the_end = refl

parse-stream_example :
    binder_parse script true
      (stream (Incoming.reply txn ∷ Incoming.failed_reply ∷ []) ++ 9 ∷ [])
      (length (stream (Incoming.reply txn ∷ Incoming.failed_reply ∷ [])) * 4)
      none
      (record { answers = []; requests = [] })
    ≡ act_all script none
        (Incoming.reply txn ∷ Incoming.failed_reply ∷ [])
        (record { wants = true; filled = none; r = pos 1 })
        (record { answers = []; requests = [] })
parse-stream_example =
    parse-stream script none (Incoming.reply txn ∷ Incoming.failed_reply ∷ []) (9 ∷ []) true
      (record { answers = []; requests = [] })

greet-Serves : Serves (some greet)
unfolding Serves
greet-Serves t msg io = pure-Finishes (0, io)

parse-Finishes_example :
    Finishes (binder_parse script false (br_number Br.dead_binder ∷ 5 ∷ []) 4 (some greet))
parse-Finishes_example =
    parse-Finishes script (some greet) greet-Serves (λ d. pure-Finishes tt) false
      (br_number Br.dead_binder ∷ 5 ∷ []) 4 (omega arith)

abbrev greeting : Bio
greeting = record {
  data0 = 0x3010;
  offs0 = 0x3000;
  io = record {
    bytes = 0 ∷ 0 ∷ 0 ∷ 0 ∷ [];
    offs = [];
    at = 4;
    data_avail = 0;
    offs_avail = 0;
    shared = false;
    overflow = false;
  };
}

-- A driver that first says that the transaction is complete, and then has the reply.
abbrev two_answers : List Answer
two_answers =
    record {
      read_buffer = stream (Incoming.noop ∷ Incoming.transaction_complete ∷ []);
      write_consumed = 44;
    }
    ∷ record { read_buffer = stream ([] ++ Incoming.reply txn ∷ []); write_consumed = 44 }
    ∷ []

abbrev asked : Request
asked = call_request script greeting 0 1

abbrev asked_again : Request
asked_again = record asked { write_consumed = 44 }

talk :
    Talk script 2 asked
      (record { answers = two_answers; requests = [] })
      (Ending.answered txn)
      (record { answers = []; requests = asked_again ∷ asked ∷ [] })
unfolding idle ending_command
talk =
    waits 1 asked _ _ _ 44 (Incoming.noop ∷ Incoming.transaction_complete ∷ [])
      (Ending.answered txn) (refl, (refl, tt)) refl
      (ends asked_again _ _ 44 [] (Ending.answered txn) tt refl)

call_ends_example :
    binder_call script 5 greeting none 0 1 (record { answers = two_answers; requests = [] })
    ≡ done (
      result_of script
          (Ending.answered txn)
          (record { answers = []; requests = asked_again ∷ asked ∷ [] }),
      record { answers = []; requests = asked_again ∷ asked ∷ [] },
    )
call_ends_example =
    call_ends script 2 5 greeting none 0 1 _ _ (Ending.answered txn) refl talk (omega arith)

parse-tdata_words_example :
    (binder_parse script false
        (br_transaction ∷ tdata_words message 0x500 0x504 ++ 9 ∷ [])
        44
        (some greet)
        (record { answers = []; requests = [] })
      ≡ (serve_txn script (some greet) (txn_of message 0x500 0x504)
            >> pure (record { wants = false; filled = none; r = pos 1 }))
          (record { answers = []; requests = [] }))
    × (binder_parse script false
          (br_reply ∷ tdata_words message 0x500 0x504 ++ 9 ∷ [])
          44
          (some greet)
          (record { answers = []; requests = [] })
        ≡ take_reply script
            (txn_of message 0x500 0x504)
            (record { wants = false; filled = none; r = pos 1 })
            (record { answers = []; requests = [] }))
parse-tdata_words_example =
    parse-tdata_words script (some greet) false message 0x500 0x504 (9 ∷ [])
      (record { answers = []; requests = [] })
