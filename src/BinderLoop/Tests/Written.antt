-- ===== src/BinderLoop/Tests/Written.antt =====
-- A reply of the command loop, written to the driver.
use android_binder_ipc.Common.{ℕ, ◌+◌, ◌-◌, ◌≡◌, ap, ◌∙◌, arith, true, some, List, take, drop}
use android_binder_ipc.Driver.World.{World, ◌>>=◌, ◌>>◌, pure}
use android_binder_ipc.Driver.Write.{write_free, write_tdata, binder_thread_write}
use android_binder_ipc.Driver.Tests.{world}
use android_binder_ipc.BinderLoop.{reply_txn, reply_words, txn_words, offs_written}
use android_binder_ipc.BinderLoop.Memory.{Stands, tdata_of_txn}
use android_binder_ipc.Driver.Bytes.{bytes_of}
use android_binder_ipc.BinderLoop.Reply.{write-reply_words}
use android_binder_ipc.BinderLoop.Tests.{script, greeting}

-- The reply to a call with four bytes of data, in the memory that the driver copies from.
abbrev written : List ℕ
written = reply_words script greeting 0x500 0

abbrev replying : World
replying = record world { user = λ at n. some (take n (drop (at - 256) (bytes_of written))) }

replying-Stands : Stands replying.user 256 written
unfolding Stands
replying-Stands q i n e h =
    ap (λ k. some (take n (drop k (bytes_of written)))) (ap (λ k. k - 256) e ∙ back_to i)
  where
    back_to : (k : ℕ) → 256 + k - 256 ≡ k
    back_to k = omega arith

write-reply_words_example :
    binder_thread_write (λ fd. 0) 256 (256 + 52) replying
    ≡ (write_free 0x500
          >> (write_tdata (λ fd. 0) true (tdata_of_txn (reply_txn script greeting 0))
              >>= (λ _. pure 52)))
        replying
write-reply_words_example =
    write-reply_words script (λ fd. 0) 256 0x500 0 greeting replying
      (unfold reply_txn txn_words offs_written in
        (
          omega arith,
          (
            omega arith,
            (
              omega arith,
              (
                omega arith,
                (
                  omega arith,
                  (
                    omega arith,
                    (omega arith, (omega arith, (omega arith, (omega arith, (omega arith, tt))))),
                  ),
                ),
              ),
            ),
          ),
        ))
      replying-Stands
