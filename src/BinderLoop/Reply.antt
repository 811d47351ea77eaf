-- ===== src/BinderLoop/Reply.antt =====
-- What the command loop of servicemanager/binder.c writes, as `binder_thread_write` of
-- module/new/binder.c reads it.
use android_binder_ipc.Common.{
  ℕ, ◌+◌, ◌-◌, ◌/◌, ◌%◌, ◌≡◌, refl, ap, ◌∙◌, arith, true, some, [], ◌∷◌, All, take, err, ok,
}
use android_binder_ipc.Driver.World.{World, Exit, back, stuck, ◌>>=◌, ◌>>◌, pure}
use android_binder_ipc.Driver.Bytes.{get_word}
use android_binder_ipc.Driver.Write.{
  Bcmd, number, bcmd_of, write_free, write_tdata, write_case, binder_thread_write,
}
use android_binder_ipc.Driver.Keeps.{Behind}
use android_binder_ipc.Driver.Keeps.Quiet.{IsQuiet}
use android_binder_ipc.Driver.Keeps.Commands.{write_case-IsQuiet}
use android_binder_ipc.Driver.Write.Program.{operands}
use android_binder_ipc.Driver.Write.Plan.{Plan, plan, run, binder_thread_write_lem}
use android_binder_ipc.BinderLoop.{Bio, Process, Txn, txn_words, reply_txn, reply_words}
use android_binder_ipc.BinderLoop.Memory.{
  Stands, plan_next, plan_end, fetch_lem, tdata_of_txn, tdata_of-txn_words,
}
use android_binder_ipc.Driver.Bytes.{bytes_of, IsWord, word_lem}

module _ (fget : ℕ → ℕ) (buf to_free : ℕ) (t : Txn) (w : World)
    (words : IsWord to_free × All IsWord (txn_words t))
    (stands : Stands w.user buf
      (number Bcmd.free_buffer ∷ to_free ∷ number Bcmd.reply ∷ txn_words t)) where
  reply_plan :
      plan w.user 52 buf (buf + 52)
      ≡ Plan.next Bcmd.free_buffer
          (buf + 4)
          (Plan.next Bcmd.reply (buf + 4 + 4 + 4) (Plan.stop (ok (buf + 4 + 4 + 4 + 40))))
  unfolding Stands bytes_of number operands
  reply_plan =
      plan_next w.user (buf + 52) 51 buf _ Bcmd.free_buffer (omega arith)
        (stands buf 0 4 (omega arith) (unfold txn_words in omega arith))
        (unfold bcmd_of get_word in refl)
      ∙ ap (Plan.next Bcmd.free_buffer (buf + 4)) (
          plan_next w.user (buf + 52) 50 (buf + 4 + 4) _ Bcmd.reply (omega arith)
            (stands (buf + 4 + 4) 8 4 (omega arith) (unfold txn_words in omega arith))
            (unfold bcmd_of get_word in refl)
          ∙ ap (Plan.next Bcmd.reply (buf + 4 + 4 + 4))
              (plan_end w.user (buf + 52) 49 (buf + 4 + 4 + 4 + 40) (omega arith)))

  free_bytes :
      w.user (buf + 4) 4
      ≡ some (
          to_free % 256
          ∷ to_free / 256 % 256
          ∷ to_free / 65536 % 256
          ∷ to_free / 16777216 % 256
          ∷ [])
  unfolding Stands bytes_of txn_words
  free_bytes = stands (buf + 4) 4 4 refl (omega arith)

  reply_bytes : w.user (buf + 4 + 4 + 4) 40 ≡ some (take 40 (bytes_of (txn_words t)))
  unfolding Stands bytes_of txn_words
  reply_bytes = stands (buf + 4 + 4 + 4) 12 40 (omega arith) (omega arith)

  -- The case of BC_FREE_BUFFER reads the buffer that is written behind it.
  free_case :
      write_case fget Bcmd.free_buffer (buf + 4) (buf + 52) w
      ≡ (write_free to_free >>= (λ _. pure (buf + 4 + 4))) w
  unfolding write_case get_word
  free_case =
      fetch_lem (buf + 4) 4 (buf + 52) _ _ w (omega arith) free_bytes
      ∙ ap (λ b. (write_free b >>= (λ _. pure (buf + 4 + 4))) w) (word_lem to_free words.0)

  -- The case of BC_REPLY reads the transaction behind it.
  reply_case :
      (v : World)
      → v.user ≡ w.user
      → write_case fget Bcmd.reply (buf + 4 + 4 + 4) (buf + 52) v
        ≡ (write_tdata fget true (tdata_of_txn t) >>= (λ _. pure (buf + 4 + 4 + 4 + 40))) v
  unfolding write_case
  reply_case v e =
      fetch_lem (buf + 4 + 4 + 4) 40 (buf + 52) _ _ v (omega arith)
        (ap (λ u. u (buf + 4 + 4 + 4) 40) e ∙ reply_bytes)
      ∙ ap (λ d. (write_tdata fget true d >>= (λ _. pure (buf + 4 + 4 + 4 + 40))) v)
          (tdata_of-txn_words t words.1)

  abbrev answer_then : Exit ℕ → Exit ℕ
  answer_then x = elim x [
    | back r v ↦ elim r [
      | ok a ↦ (write_tdata fget true (tdata_of_txn t) >>= (λ _. pure 52)) v
      | err e ↦ back (err e) v
    ]
    | stuck ↦ stuck
  ]

  -- What is returned is how far the buffer was read.
  abbrev counts : Exit ℕ → Exit ℕ
  counts x =
      elim (elim x as (λ y. Exit ℕ) [
        | back r v ↦ elim r [ ok a ↦ back (ok (buf + 4 + 4 + 4 + 40)) v | err e ↦ back (err e) v ]
        | stuck ↦ stuck
      ])
        as (λ y. Exit ℕ) [
          | back r v ↦ elim r [ ok p ↦ pure (p - buf) v | err e ↦ back (err e) v ]
          | stuck ↦ stuck
        ]

  counted :
      (x : Exit (Unit {0}))
      → counts (elim x as (λ y. Exit ℕ) [
        | back r v ↦ elim r [ ok a ↦ back (ok (buf + 4 + 4 + 4 + 40)) v | err e ↦ back (err e) v ]
        | stuck ↦ stuck
      ])
        ≡ elim x as (λ y. Exit ℕ) [
          | back r v ↦ elim r [ ok a ↦ back (ok 52) v | err e ↦ back (err e) v ]
          | stuck ↦ stuck
        ]
  counted (back (ok a) v) = ap (λ k. back (ok k) v) (omega arith)
  counted (back (err e) v) = refl
  counted stuck = refl

  -- Behind the buffer that is given back, the reply is sent.
  then_reply :
      (x : Exit ℕ)
      → Behind (IsQuiet w) x
      → elim (elim x as (λ y. Exit ℕ) [
        | back r v ↦ elim r [
          | ok a ↦
              run fget
                (buf + 52)
                (Plan.next Bcmd.reply (buf + 4 + 4 + 4) (Plan.stop (ok (buf + 4 + 4 + 4 + 40))))
                v
          | err e ↦ back (err e) v
        ]
        | stuck ↦ stuck
      ])
          as (λ y. Exit ℕ) [
            | back r v ↦ elim r [ ok p ↦ pure (p - buf) v | err e ↦ back (err e) v ]
            | stuck ↦ stuck
          ]
        ≡ answer_then x
  unfolding run IsQuiet
  then_reply (back (ok a) v) (l, b, q, r, u) =
      ap counts (reply_case v u) ∙ counted (write_tdata fget true (tdata_of_txn t) v)
  then_reply (back (err e) v) h = refl
  then_reply stuck h = refl

  regroup :
      (x : Exit (Unit {0}))
      → answer_then (elim x as (λ y. Exit ℕ) [
        | back r v ↦ elim r [ ok a ↦ back (ok (buf + 4 + 4)) v | err e ↦ back (err e) v ]
        | stuck ↦ stuck
      ])
        ≡ elim x as (λ y. Exit ℕ) [
          | back r v ↦ elim r [
            | ok a ↦ (write_tdata fget true (tdata_of_txn t) >>= (λ _. pure 52)) v
            | err e ↦ back (err e) v
          ]
          | stuck ↦ stuck
        ]
  regroup (back (ok a) v) = refl
  regroup (back (err e) v) = refl
  regroup stuck = refl

  abbrev run_plan : Plan → Exit ℕ
  run_plan q = (run fget (buf + 52) q >>= (λ p. pure (p - buf))) w

  write_reply :
      binder_thread_write fget buf (buf + 52) w
      ≡ (write_free to_free >> (write_tdata fget true (tdata_of_txn t) >>= (λ _. pure 52))) w
  unfolding IsQuiet
  write_reply =
      binder_thread_write_lem fget buf (buf + 52) w (omega arith)
      ∙ ap (λ n. run_plan (plan w.user n buf (buf + 52))) (all_of buf)
      ∙ ap run_plan reply_plan
      ∙ unfold run in
        then_reply (write_case fget Bcmd.free_buffer (buf + 4) (buf + 52) w) (
          (write_case-IsQuiet w fget Bcmd.free_buffer (buf + 4) (buf + 52)).at w
            (refl, refl, refl, refl, refl))
        ∙ ap answer_then free_case
        ∙ regroup (write_free to_free w)
    where
      all_of : (n : ℕ) → n + 52 - n ≡ 52
      all_of n = omega arith

-- What binder_send_reply writes for a transaction makes the driver do two things, in this order: it
-- takes back the buffer of the transaction, and then, if that has not failed, it writes the
-- transaction that the reply is, with its data and offsets or with the status; the whole buffer is
-- read. The words of the reply have 32 bits.
pub write-reply_words :
    {S : Type 0} (p : Process S) (fget : ℕ → ℕ) (buf to_free status : ℕ) (b : Bio) (w : World)
    → IsWord to_free × All IsWord (txn_words (reply_txn p b status))
    → Stands w.user buf (reply_words p b to_free status)
    → binder_thread_write fget buf (buf + 52) w
      ≡ (write_free to_free
            >> (write_tdata fget true (tdata_of_txn (reply_txn p b status)) >>= (λ _. pure 52)))
          w
unfolding reply_words
write-reply_words p fget buf to_free status b w h st =
    write_reply fget buf to_free (reply_txn p b status) w h st
