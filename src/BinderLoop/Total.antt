-- ===== src/BinderLoop/Total.antt =====
-- `binder_parse` of servicemanager/binder.c on any words: how far it reads, and that it ends.
use android_binder_ipc.Common.{
  ℕ, zero, suc, ◌-◌, ◌/◌, ◌≤◌, ◌<◌, ◌≡◌, refl, ◌∙◌, arith, Bool, true, false, if◌then◌else◌, Option,
  none, some, List, [], ◌∷◌, length, drop, ltb, ap,
}
use android_binder_ipc.Common.Int.{negsuc}
use android_binder_ipc.BinderIo.{BinderIo, bio_init}
use android_binder_ipc.BinderLoop.{
  Outcome, done, fault, running, Call, pure, get, ◌>>=◌, Txn, txn_at, txn_len, Process, Bio,
  binder_send_reply, binder_write, bio_of_txn,
}
use android_binder_ipc.BinderLoop.Parse.{
  Br, br_of, Handler, Parse, Step, serve_txn, take_reply, parse_case, parse_one, parse_loop,
  binder_parse, reply_bio,
}

-- The call comes to a result, whatever the state.
pub record Finishes {S A : Type 0} (m : Call S A) : Type 0 where
  pub at : (s : S) → (r : A × S) × (m s ≡ done r)

module _ {S : Type 0} where
  pub pure-Finishes : {A : Type 0} (a : A) → Finishes (pure {S = S} a)
  pure-Finishes a = record { at = λ s. ((a, s), refl) }

  pub bind-Finishes :
      {A B : Type 0} (m : Call S A) (f : A → Call S B)
      → Finishes m
      → ((a : A) → Finishes (f a))
      → Finishes (m >>= f)
  bind-Finishes {B = B} m f h k = record {
    at = λ s.
        let (r, e) = h.at s in
        let (r', e') = (k r.0).at r.1 in
        (
          r',
          ap
                (λ x. elim x as (λ y. Outcome (B × S)) [
                  | done q ↦ f q.0 q.1
                  | fault ↦ fault
                  | running ↦ running
                ])
                e
              ∙ e',
        );
  }

  pub get-Finishes : Finishes (get {S = S})
  get-Finishes = record { at = λ s. ((s, s), refl) }

  if-Finishes :
      {A : Type 0} (b : Bool) (m k : Call S A)
      → Finishes m
      → (b ≡ false → Finishes k)
      → Finishes (if b then m else k)
  if-Finishes true m k hm hk = hm
  if-Finishes false m k hm hk = hk refl

  -- Every call of the handler comes to a result.
  unfoldable pub Serves : Option (Handler S) → Type 0
  Serves none = Unit
  Serves (some func) = (t : Txn) (msg answer : BinderIo) → Finishes (func t msg answer)

length-drop : (k : ℕ) (xs : List ℕ) → length (drop k xs) ≡ length xs - k
length-drop zero xs = omega arith
length-drop (suc k) [] = omega arith
length-drop (suc k) (x ∷ xs) = omega (arith, length-drop k xs)

-- A transaction is there where the memory has words for it.
txn_at-some : (ws : List ℕ) → txn_len ≤ length ws → (t : Txn) × (txn_at ws ≡ some t)
unfolding txn_at
txn_at-some (t ∷ k ∷ c ∷ f ∷ p ∷ e ∷ n ∷ m ∷ d ∷ o ∷ rest) h = (_, refl)
txn_at-some _ h = absurd (omega arith)

module _ {S : Type 0} (p : Process S) where
  send-Finishes : (b : Bio) (buffer status : ℕ) → Finishes (binder_send_reply p b buffer status)
  unfolding binder_send_reply binder_write
  send-Finishes b buffer status = record { at = λ s. (_, refl) }

  serve_txn-Finishes :
      (func : Option (Handler S)) → Serves func → (t : Txn) → Finishes (serve_txn p func t)
  unfolding serve_txn Serves
  serve_txn-Finishes none h t = pure-Finishes tt
  serve_txn-Finishes (some func) h t = bind-Finishes get _ get-Finishes (λ s.
      bind-Finishes (func t (bio_of_txn (p.memory s) t).io (bio_init 256 4)) _
        (h t (bio_of_txn (p.memory s) t).io (bio_init 256 4))
        (λ a. send-Finishes (reply_bio p a.1) t.buffer a.0))

  take_reply-Finishes : (t : Txn) (st : Parse) → Finishes (take_reply p t st)
  unfolding take_reply
  take_reply-Finishes t st = record { at = λ s. (_, refl) }

  module _ (func : Option (Handler S)) (serves : Serves func)
      (dies : (d : ℕ) → Finishes (p.death d)) where
    case-Finishes :
        (c : Br) (st : Parse) (n : ℕ) (rest : List ℕ)
        → n < length rest
        → Finishes (parse_case p func c st n rest)
    unfolding parse_case
    case-Finishes Br.noop st n rest h = pure-Finishes _
    case-Finishes Br.transaction_complete st n rest h = pure-Finishes _
    case-Finishes Br.increfs st n rest h = pure-Finishes _
    case-Finishes Br.acquire st n rest h = pure-Finishes _
    case-Finishes Br.release st n rest h = pure-Finishes _
    case-Finishes Br.decrefs st n rest h = pure-Finishes _
    case-Finishes Br.failed_reply st n rest h = pure-Finishes _
    case-Finishes Br.dead_reply st n rest h = pure-Finishes _
    case-Finishes Br.transaction st n rest h =
        if-Finishes (ltb n txn_len) _ _ (pure-Finishes Step.quit) (λ e.
          let (t, q) = txn_at-some rest (grind arith) in
          rw q (
            bind-Finishes (serve_txn p func t) _ (serve_txn-Finishes func serves t)
              (λ u. pure-Finishes _)))
    case-Finishes Br.reply st n rest h =
        if-Finishes (ltb n txn_len) _ _ (pure-Finishes Step.quit) (λ e.
          let (t, q) = txn_at-some rest (grind arith) in
          rw q (
            bind-Finishes (take_reply p t st) _ (take_reply-Finishes t st)
              (λ st'. pure-Finishes (Step.next txn_len st'))))
    case-Finishes Br.dead_binder st n [] h = absurd (omega arith)
    case-Finishes Br.dead_binder st n (d ∷ rest) h =
        bind-Finishes (p.death d) _ (dies d) (λ u. pure-Finishes _)

    one-Finishes :
        (cmd : ℕ) (st : Parse) (n : ℕ) (rest : List ℕ)
        → n < length rest
        → Finishes (parse_one p func cmd st n rest)
    unfolding parse_one
    one-Finishes cmd st n rest h =
        elim (br_of cmd)
          as (λ o. Finishes (elim o as (λ x. Call S Step) [
            | none ↦ pure Step.quit
            | some c ↦ parse_case p func c st n rest
          ])) [ none ↦ pure-Finishes Step.quit | some c ↦ case-Finishes c st n rest h ]

    loop-Finishes :
        (rounds n : ℕ) (buf : List ℕ) (st : Parse)
        → n ≤ rounds
        → (0 < n → n < length buf)
        → Finishes (parse_loop p func rounds st n buf)
    unfolding parse_loop
    loop-Finishes rounds zero buf st h r = pure-Finishes st
    loop-Finishes zero (suc n) buf st h r = absurd (omega arith)
    loop-Finishes (suc rounds) (suc n) [] st h r = absurd (omega (arith, r))
    loop-Finishes (suc rounds) (suc n) (cmd ∷ rest) st h r =
        bind-Finishes (parse_one p func cmd st n rest) _
          (one-Finishes cmd st n rest (omega (arith, r (omega arith))))
          (λ step. go step (λ k st'.
            loop-Finishes rounds (n - k) (drop k rest) st' (omega arith)
              (λ lt. omega (arith, length-drop k rest, r (omega arith)))))
      where
        go :
            (step : Step)
            → ((k : ℕ) (st' : Parse)
                → Finishes (parse_loop p func rounds st' (n - k) (drop k rest)))
            → Finishes (elim step as (λ x. Call S Parse) [
              | Step.quit ↦ pure (record st { r = negsuc 0 })
              | Step.next k st' ↦ parse_loop p func rounds st' (n - k) (drop k rest)
            ])
        go Step.quit ih = pure-Finishes _
        go (Step.next k st') ih = ih k st'

    -- Whatever the words are, reading them ends within the rounds of the loop and touches no memory
    -- behind the buffer, if one more word stands behind those to be read, and if the handler and the
    -- functions that are called on a death come to an end.
    pub parse-Finishes :
        (wants : Bool) (buf : List ℕ) (size : ℕ)
        → size / 4 < length buf
        → Finishes (binder_parse p wants buf size func)
    unfolding binder_parse
    parse-Finishes wants buf size h =
        loop-Finishes (size / 4) (size / 4) buf _ (omega arith) (λ lt. h)
