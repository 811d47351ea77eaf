-- ===== src/BinderLoop/Memory.antt =====
-- Words as bytes in the memory of a user, lowest byte first, and how `binder_thread_write` of
-- module/new/binder.c reads them.
use android_binder_ipc.Common.{
  ℕ, suc, ◌+◌, ◌*◌, ◌≤◌, ◌≡◌, refl, ap, ◌∙◌, arith, true, false, Option, none, some, List, All,
  length, take, err, efault, drop, ok, ltb, if◌then◌else◌,
}
use android_binder_ipc.Driver.World.{World, M, Exit, back, stuck, copy_from_user, fail, ◌>>=◌}
use android_binder_ipc.Driver.Bytes.{get_word, bytes_of, IsWord, word_lem}
use android_binder_ipc.Driver.Transaction.{Tdata}
use android_binder_ipc.Driver.Write.{Bcmd, bcmd_of, tdata_of, fetch}
use android_binder_ipc.Driver.Write.Program.{operands}
use android_binder_ipc.Driver.Write.Plan.{Plan, plan}
use android_binder_ipc.BinderLoop.{Txn, txn_words}

-- These words stand at `buf` in the memory of a user.
unfoldable pub Stands : (ℕ → ℕ → Option (List ℕ)) → ℕ → List ℕ → Type 0
unfolding bytes_of
Stands user buf ws =
    (q i n : ℕ)
    → q ≡ buf + i
    → i + n ≤ length ws * 4
    → user q n ≡ some (take n (drop i (bytes_of ws)))

module _ (user : ℕ → ℕ → Option (List ℕ)) (end : ℕ) where
  pub plan_next :
      (fuel q : ℕ) (bs : List ℕ) (c : Bcmd)
      → q + 4 ≤ end
      → user q 4 ≡ some bs
      → bcmd_of (get_word bs 0) ≡ some c
      → plan user (suc fuel) q end ≡ Plan.next c (q + 4) (plan user fuel (q + 4 + operands c) end)
  unfolding plan
  plan_next fuel q bs c h e d = rw (plan, no_end q h, e, d) refl
    where
      no_end : (q : ℕ) → q + 4 ≤ end → ltb end (q + 4) ≡ false
      no_end q h = ground arith

  pub plan_end : (fuel q : ℕ) → end ≡ q → plan user (suc fuel) q end ≡ Plan.stop (ok q)
  unfolding plan
  plan_end fuel q h = rw (plan, at_end q h) refl
    where
      at_end : (q : ℕ) → end ≡ q → ltb end (q + 4) ≡ true
      at_end q h = ground arith

-- Bytes that are there are fetched.
pub fetch_lem :
    (q n end : ℕ) (f : List ℕ → M ℕ) (bs : List ℕ) (v : World)
    → q + n ≤ end
    → v.user q n ≡ some bs
    → (fetch q n end >>= f) v ≡ f bs v
unfolding fetch copy_from_user
fetch_lem q n end f bs v h e =
    ap (λ c. ((if c then fail efault else copy_from_user q n) >>= f) v) (fits q n end h)
    ∙ ap
        (λ o.
          elim (elim o as (λ y. Exit (List ℕ)) [
            | none ↦ back (err efault) v
            | some x ↦ back (ok x) v
          ])
            as (λ y. Exit ℕ) [
              | back r v' ↦ elim r [ ok x ↦ f x v' | err a ↦ back (err a) v' ]
              | stuck ↦ stuck
            ])
        e
  where
    fits : (q n end : ℕ) → q + n ≤ end → ltb end (q + n) ≡ false
    fits q n end h = ground arith

abbrev pub tdata_of_txn : Txn → Tdata
tdata_of_txn t = record {
  target = t.target;
  code = t.code;
  flags = t.flags;
  data_size = t.data_size;
  offsets_size = t.offs_size;
  buffer = t.buffer;
  offsets = t.offs;
}

pub tdata_of-txn_words :
    (t : Txn)
    → All IsWord (txn_words t)
    → tdata_of (take 40 (bytes_of (txn_words t))) ≡ tdata_of_txn t
unfolding tdata_of bytes_of txn_words get_word
tdata_of-txn_words t (h0, (h1, (h2, (h3, (h4, (h5, (h6, (h7, (h8, (h9, u)))))))))) =
    rw
      (
        word_lem t.target h0,
        word_lem t.code h2,
        word_lem t.flags h3,
        word_lem t.data_size h6,
        word_lem t.offs_size h7,
        word_lem t.buffer h8,
        word_lem t.offs h9,
      )
      refl
