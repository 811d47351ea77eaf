-- ===== src/BinderLoop/Stream.antt =====
-- `binder_parse` of servicemanager/binder.c on what a driver may send: commands with the words that
-- belong to them.
use android_binder_ipc.Common.{
  ℕ, zero, suc, ◌+◌, ◌-◌, ◌*◌, ◌≤◌, ◌≡◌, refl, arith, Bool, false, Option, none, List, [], ◌∷◌,
  ◌++◌, ap, length, ltb, subst, sym,
}
use mathlib.Core.List.{append_assoc}
use android_binder_ipc.Common.Int.{pos, negsuc}
use android_binder_ipc.BinderLoop.{
  Outcome, done, fault, running, Call, pure, ◌>>=◌, ◌>>◌, Txn, txn_words, txn_len, Process,
}
use android_binder_ipc.BinderLoop.Parse.{
  Br, br_number, Handler, Parse, Step, serve_txn, take_reply, parse_loop, binder_parse,
}

-- A command of the driver with its operands.
pub data Incoming : Type 0 where
  noop transaction_complete failed_reply dead_reply : Incoming
  increfs acquire release decrefs : (ptr cookie : ℕ) → Incoming
  transaction reply : Txn → Incoming
  dead_binder : (death : ℕ) → Incoming

-- The words of one command.
unfoldable pub command_words : Incoming → List ℕ
unfolding br_number txn_words
command_words Incoming.noop = br_number Br.noop ∷ []
command_words Incoming.transaction_complete = br_number Br.transaction_complete ∷ []
command_words Incoming.failed_reply = br_number Br.failed_reply ∷ []
command_words Incoming.dead_reply = br_number Br.dead_reply ∷ []
command_words (Incoming.increfs ptr cookie) = br_number Br.increfs ∷ ptr ∷ cookie ∷ []
command_words (Incoming.acquire ptr cookie) = br_number Br.acquire ∷ ptr ∷ cookie ∷ []
command_words (Incoming.release ptr cookie) = br_number Br.release ∷ ptr ∷ cookie ∷ []
command_words (Incoming.decrefs ptr cookie) = br_number Br.decrefs ∷ ptr ∷ cookie ∷ []
command_words (Incoming.transaction t) = br_number Br.transaction ∷ txn_words t
command_words (Incoming.reply t) = br_number Br.reply ∷ txn_words t
command_words (Incoming.dead_binder death) = br_number Br.dead_binder ∷ death ∷ []

unfoldable pub stream : List Incoming → List ℕ
unfolding command_words
stream [] = []
stream (c ∷ cs) = command_words c ++ stream cs

abbrev pub failed : Parse → Parse
failed st = record st { r = negsuc 0 }

module _ {S : Type 0} (p : Process S) (func : Option (Handler S)) where
  -- What a command means to the process.
  unfoldable pub act : Incoming → Parse → Call S Parse
  unfolding serve_txn take_reply
  act Incoming.noop st = pure st
  act Incoming.transaction_complete st = pure st
  act Incoming.failed_reply st = pure (failed st)
  act Incoming.dead_reply st = pure (failed st)
  act (Incoming.increfs ptr cookie) st = pure st
  act (Incoming.acquire ptr cookie) st = pure st
  act (Incoming.release ptr cookie) st = pure st
  act (Incoming.decrefs ptr cookie) st = pure st
  act (Incoming.transaction t) st = do serve_txn p func t; pure st
  act (Incoming.reply t) st = take_reply p t st
  act (Incoming.dead_binder death) st = do p.death death; pure st

  unfoldable pub act_all : List Incoming → Parse → Call S Parse
  unfolding act
  act_all [] st = pure st
  act_all (c ∷ cs) st = do st' ← act c st; act_all cs st'

  -- What comes behind a call whose result is not used.
  behind :
      {A B C D : Type 0} (m : Call S A) (b : B) (c : C) (k : B → Call S D) (l : C → Call S D)
      (s : S)
      → ((s' : S) → k b s' ≡ l c s')
      → ((m >> pure b) >>= k) s ≡ ((m >> pure c) >>= l) s
  behind {A = A} {B = B} {C = C} {D = D} m b c k l s h = go (m s)
    where
      ends : {E : Type 0} → E → (E → Call S D) → Outcome (A × S) → Outcome (D × S)
      ends {E = E} e f x =
          elim (elim x as (λ y. Outcome (E × S)) [
            | done r ↦ done (e, r.1)
            | fault ↦ fault
            | running ↦ running
          ])
            as (λ y. Outcome (D × S)) [ done r ↦ f r.0 r.1 | fault ↦ fault | running ↦ running ]

      go : (x : Outcome (A × S)) → ends b k x ≡ ends c l x
      go (done r) = h r.1
      go fault = refl
      go running = refl

  -- So many words before the next command, of which there are `n`.
  abbrev before : List ℕ → ℕ → ℕ
  before [] n = n
  before (w ∷ ws) n = suc (before ws n)

  before_lem : (ws xs : List ℕ) → before ws (length xs) ≡ length (ws ++ xs)
  before_lem [] xs = refl
  before_lem (w ∷ ws) xs = ap suc (before_lem ws xs)

  room : (n : ℕ) → ltb (suc (suc (suc (suc (suc (suc (suc (suc (suc (suc n)))))))))) txn_len ≡ false
  room n = ground arith

  -- One command, whatever stands behind it.
  command_lem :
      (c : Incoming) (rest : List ℕ) (rounds n : ℕ) (st : Parse) (k : Parse → Call S Parse) (s : S)
      → ((m : ℕ) (st' : Parse) (s' : S) → m ≡ n → parse_loop p func rounds st' m rest s' ≡ k st' s')
      → parse_loop p func (suc rounds) st (before (command_words c) n) (command_words c ++ rest) s
        ≡ (act c st >>= k) s
  unfolding parse_loop act command_words
  command_lem Incoming.noop rest rounds n st k s h = h (n - 0) st s (omega arith)
  command_lem Incoming.transaction_complete rest rounds n st k s h = h (n - 0) st s (omega arith)
  command_lem Incoming.failed_reply rest rounds n st k s h = h (n - 0) (failed st) s (omega arith)
  command_lem Incoming.dead_reply rest rounds n st k s h = h (n - 0) (failed st) s (omega arith)
  command_lem (Incoming.increfs ptr cookie) rest rounds n st k s h =
      h (suc (suc n) - 2) st s (omega arith)
  command_lem (Incoming.acquire ptr cookie) rest rounds n st k s h =
      h (suc (suc n) - 2) st s (omega arith)
  command_lem (Incoming.release ptr cookie) rest rounds n st k s h =
      h (suc (suc n) - 2) st s (omega arith)
  command_lem (Incoming.decrefs ptr cookie) rest rounds n st k s h =
      h (suc (suc n) - 2) st s (omega arith)
  command_lem (Incoming.transaction t) rest rounds n st k s h = rw (room n) (
      behind (serve_txn p func t) (Step.next 10 st) st _ k s
        (λ s'. h (before (txn_words t) n - 10) st s' (unfold txn_words in omega arith)))
  command_lem (Incoming.reply t) rest rounds n st k s h =
      rw (room n)
        (unfold take_reply in h (before (txn_words t) n - 10) _ s (unfold txn_words in omega arith))
  command_lem (Incoming.dead_binder death) rest rounds n st k s h =
      behind (p.death death) (Step.next 1 st) st _ k s (λ s'. h (suc n - 1) st s' (omega arith))

  command-pos : (c : Incoming) (xs : List ℕ) → 1 + length xs ≤ length (command_words c ++ xs)
  unfolding command_words txn_words
  command-pos Incoming.noop xs = omega arith
  command-pos Incoming.transaction_complete xs = omega arith
  command-pos Incoming.failed_reply xs = omega arith
  command-pos Incoming.dead_reply xs = omega arith
  command-pos (Incoming.increfs ptr cookie) xs = omega arith
  command-pos (Incoming.acquire ptr cookie) xs = omega arith
  command-pos (Incoming.release ptr cookie) xs = omega arith
  command-pos (Incoming.decrefs ptr cookie) xs = omega arith
  command-pos (Incoming.transaction t) xs = omega arith
  command-pos (Incoming.reply t) xs = omega arith
  command-pos (Incoming.dead_binder death) xs = omega arith

  loop-stream :
      (cs : List Incoming) (stale : List ℕ) (rounds : ℕ) (st : Parse) (s : S)
      → length (stream cs) ≤ rounds
      → parse_loop p func rounds st (length (stream cs)) (stream cs ++ stale) s ≡ act_all cs st s
  unfolding stream act_all
  loop-stream [] stale rounds st s h = unfold parse_loop in refl
  loop-stream (c ∷ cs) stale zero st s h = absurd (omega (arith, command-pos c (stream cs)))
  loop-stream (c ∷ cs) stale (suc rounds) st s h =
      rw (sym (before_lem (command_words c) (stream cs)), append_assoc)
        (command_lem c (stream cs ++ stale) rounds (length (stream cs)) st (act_all cs) s
          (λ m st' s' e.
            subst (λ k. parse_loop p func rounds st' k (stream cs ++ stale) s' ≡ act_all cs st' s')
              (sym e)
              (loop-stream cs stale rounds st' s' (omega (arith, command-pos c (stream cs))))))

  -- A stream of commands from the driver, with whatever else stands in the buffer behind it, is read
  -- as these commands: each takes effect in its order, with its own operands, up to the end of the
  -- stream and no further, within the rounds that the loop is given.
  pub parse-stream :
      (cs : List Incoming) (stale : List ℕ) (wants : Bool) (s : S)
      → binder_parse p wants (stream cs ++ stale) (length (stream cs) * 4) func s
        ≡ act_all cs (record { wants = wants; filled = none; r = pos 1 }) s
  unfolding binder_parse
  parse-stream cs stale wants s =
      subst
        (λ n.
          parse_loop p func n (record { wants = wants; filled = none; r = pos 1 }) n
            (stream cs ++ stale) s
          ≡ act_all cs (record { wants = wants; filled = none; r = pos 1 }) s)
        (omega arith)
        (loop-stream cs stale (length (stream cs))
          (record { wants = wants; filled = none; r = pos 1 }) s (omega arith))
