-- ===== src/Driver/Tests/Calls.antt =====
-- Runs of `binder_thread_write` and `binder_thread_read` of module/new/binder.c.
use android_binder_ipc.Common.{
  ℕ, true, Option, none, some, List, [], ◌∷◌, ◌-◌, ◌≤◌, ◌≡◌, refl, ok, arith, if◌then◌else◌, ◌==◌,
}
use android_binder_ipc.Common.Int.{pos}
use android_binder_ipc.MsgQueue.{Queue, rb_queue_exist}
use android_binder_ipc.Driver.World.{back, World, Msg, MsgType, Handler, pure, ◌>>=◌}
use android_binder_ipc.Driver.Tests.{world, message, proc, remote}
use android_binder_ipc.Driver.Keeps.{Behind}
use android_binder_ipc.Driver.Keeps.Quiet.{SameCounts}
use android_binder_ipc.Driver.Bytes.{get_word}
use android_binder_ipc.Driver.Write.{Bcmd, bcmd_of, binder_thread_write}
use android_binder_ipc.Driver.Keeps.{Returns}
use android_binder_ipc.Driver.Write.Plan.{Plan, plan, run, binder_thread_write_lem}
use android_binder_ipc.Driver.Write.Balance.{write_consumed}
use android_binder_ipc.Driver.Read.{binder_thread_read}
use android_binder_ipc.Driver.Read.Balance.{reads_balance}
use android_binder_ipc.Driver.Read.Complete.{told, completed, read_complete}
use android_binder_ipc.Driver.Ioctl.{Env, write_read}
use android_binder_ipc.Driver.Ioctl.Balance.{write_read_balance, write_read_reclaims}

-- BC_ENTER_LOOPER and BC_FREE_BUFFER of no buffer at 100.
abbrev spoken : ℕ → ℕ → Option (List ℕ)
spoken at n =
    if at == 100
    then some (0x0c ∷ 0x63 ∷ 0 ∷ 0 ∷ [])
    else if at == 104
    then some (0x03 ∷ 0x63 ∷ 0x04 ∷ 0x40 ∷ [])
    else some (0 ∷ 0 ∷ 0 ∷ 0 ∷ [])

abbrev speaking : World
speaking = record world { user = spoken }

planned :
    plan spoken 12 100 112
    ≡ Plan.next Bcmd.enter 104 (Plan.next Bcmd.free_buffer 108 (Plan.stop (ok 112)))
unfolding plan bcmd_of get_word
planned = refl

binder_thread_write_lem_example :
    binder_thread_write (λ fd. 0) 100 112 speaking
    ≡ (run (λ fd. 0) 112 (plan spoken 12 100 112) >>= (λ p. pure (p - 100))) speaking
binder_thread_write_lem_example = binder_thread_write_lem (λ fd. 0) 100 112 speaking (omega arith)

write_consumed_example : Returns (λ n. n ≤ 12) (binder_thread_write (λ fd. 0) 100 112 speaking)
write_consumed_example = write_consumed (λ fd. 0) 100 112 speaking (omega arith)

abbrev queue : ℕ → List Msg → ℕ → Queue Msg Handler
queue id msgs n = record {
  id = id;
  max_msgs = 16;
  num_msgs = n;
  msgs = msgs;
  usage = 1;
  active = true;
  release = some (Handler.thread_queue_release 101);
  rd_wait = 0;
  wr_wait = 0;
}

-- BR_TRANSACTION_COMPLETE waits for the thread.
abbrev waited : World
waited = record world {
  queues = record {
    seq = 20;
    all =
        queue 3 [] 0
        ∷ queue 4 (record message { type = MsgType.br_transaction_complete } ∷ []) 1
        ∷ [];
  };
}

reads_balance_example :
    Behind (SameCounts waited) (binder_thread_read 2 (λ n. none) (ok 0) 256 waited)
reads_balance_example = reads_balance 2 (λ n. none) (ok 0) 256 waited

-- At 4, 12 bytes to write from 100, and 256 bytes to read.
abbrev asked : ℕ → ℕ → Option (List ℕ)
asked at n =
    if at == 4
    then some (
        12 ∷ 0 ∷ 0 ∷ 0 ∷ 0 ∷ 0 ∷ 0 ∷ 0 ∷ 100 ∷ 0 ∷ 0 ∷ 0 ∷ 0 ∷ 1 ∷ 0 ∷ 0 ∷ 0 ∷ 0 ∷ 0 ∷ 0 ∷ 0 ∷ 16
        ∷ 0 ∷ 0 ∷ [])
    else spoken at n

abbrev calling : World
calling = record waited { user = asked; proc = record proc { busy_threads = pos 0 } }

abbrev env : Env
env = record { fget = λ fd. 0; unused_fd = λ n. none; n0 = ok 0; rounds = 2 }

write_read_balance_example : Behind (SameCounts calling) (write_read env 4 calling)
write_read_balance_example = write_read_balance env 4 calling

-- An object waits to be freed.
abbrev cluttered : World
cluttered = record calling {
  proc = record proc { busy_threads = pos 0; reclaim_list = remote ∷ [] };
}

write_read_reclaims_example : Behind (λ x. x.proc.reclaim_list ≡ []) (write_read env 4 cluttered)
write_read_reclaims_example = write_read_reclaims env 4 cluttered _ refl refl

read_complete_example :
    binder_thread_read 2 (λ n. none) (ok 0) 256 waited ≡ back (ok 4) (completed waited [])
unfolding rb_queue_exist
read_complete_example =
    read_complete waited (queue 4 (told message ∷ []) 1) message [] (λ n. none) (ok 0) 1 256 refl
      (omega arith) refl refl refl (omega arith) refl
