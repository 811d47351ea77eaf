-- ===== src/BinderLoop/Talk.antt =====
-- `binder_call` of servicemanager/binder.c against a driver that answers in the end.
use android_binder_ipc.Common.{
  ℕ, zero, suc, ◌≤◌, ◌≡◌, refl, ap, subst, ◌∙◌, arith, Bool, true, false, Option, none, some, List,
  [], ◌∷◌, ◌++◌, All, length, drop,
}
use mathlib.Core.List.{append-nil}
use android_binder_ipc.Common.Int.{pos}
use android_binder_ipc.BinderLoop.{
  Outcome, done, fault, running, Call, ◌>>=◌, Txn, Bio, bio_of_txn, Process, Request,
}
use android_binder_ipc.BinderLoop.Parse.{Parse, take_reply}
use android_binder_ipc.BinderLoop.Stream.{Incoming, stream, act, act_all, parse-stream}
use android_binder_ipc.BinderLoop.Loops.{
  Returned, call_verdict, call_loop, call_answer, call_request, binder_call, read_into,
}

-- A command that leaves a call waiting.
unfoldable pub idle : Incoming → Bool
idle Incoming.noop = true
idle Incoming.transaction_complete = true
idle (Incoming.increfs ptr cookie) = true
idle (Incoming.acquire ptr cookie) = true
idle (Incoming.release ptr cookie) = true
idle (Incoming.decrefs ptr cookie) = true
idle _ = false

-- How a call ends: with a reply, or without one.
pub data Ending : Type 0 where
  answered : Txn → Ending
  refused target_died : Ending

unfoldable pub ending_command : Ending → Incoming
ending_command (Ending.answered t) = Incoming.reply t
ending_command Ending.refused = Incoming.failed_reply
ending_command Ending.target_died = Incoming.dead_reply

module _ {S : Type 0} (p : Process S) where
  -- The driver's answers to a request, round after round, from one state to another.
  pub data Talk : ℕ → Request → S → Ending → S → Type 0 where
    ends :
        (bwr : Request) (s s' : S) (consumed : ℕ) (cs : List Incoming) (e : Ending)
        → All (λ c. idle c ≡ true) cs
        → p.ioctl bwr s ≡ (
          some (record {
            read_buffer = stream (cs ++ ending_command e ∷ []);
            write_consumed = consumed;
          }),
          s',
        )
        → Talk 1 bwr s e s'
    waits :
        (n : ℕ) (bwr : Request) (s s₁ s' : S) (consumed : ℕ) (cs : List Incoming) (e : Ending)
        → All (λ c. idle c ≡ true) cs
        → p.ioctl bwr s ≡ (some (record { read_buffer = stream cs; write_consumed = consumed }), s₁)
        → Talk n (record bwr { write_consumed = consumed }) s₁ e s'
        → Talk (suc n) bwr s e s'

  -- What the caller gets.
  unfoldable pub result_of : Ending → S → Returned p
  unfolding bio_of_txn
  result_of (Ending.answered t) s = (true, some (bio_of_txn (p.memory s) t))
  result_of Ending.refused s = (false, none)
  result_of Ending.target_died s = (false, none)

  act-idle : (c : Incoming) (st : Parse) (s : S) → idle c ≡ true → act p none c st s ≡ done (st, s)
  unfolding act idle
  act-idle Incoming.noop st s h = refl
  act-idle Incoming.transaction_complete st s h = refl
  act-idle (Incoming.increfs ptr cookie) st s h = refl
  act-idle (Incoming.acquire ptr cookie) st s h = refl
  act-idle (Incoming.release ptr cookie) st s h = refl
  act-idle (Incoming.decrefs ptr cookie) st s h = refl
  act-idle Incoming.failed_reply st s h = absurd (grind arith)
  act-idle Incoming.dead_reply st s h = absurd (grind arith)
  act-idle (Incoming.transaction t) st s h = absurd (grind arith)
  act-idle (Incoming.reply t) st s h = absurd (grind arith)
  act-idle (Incoming.dead_binder d) st s h = absurd (grind arith)

  act_all-idle :
      (cs ds : List Incoming) (st : Parse) (s : S)
      → All (λ c. idle c ≡ true) cs
      → act_all p none (cs ++ ds) st s ≡ act_all p none ds st s
  unfolding act_all
  act_all-idle [] ds st s h = refl
  act_all-idle (c ∷ cs) ds st s h =
      ap
        (λ x. elim x as (λ y. Outcome (Parse × S)) [
          | done r ↦ act_all p none (cs ++ ds) r.0 r.1
          | fault ↦ fault
          | running ↦ running
        ])
        (act-idle c st s h.0)
      ∙ act_all-idle cs ds st s h.1

  abbrev waiting : Parse
  waiting = record { wants = true; filled = none; r = pos 1 }

  act_ending :
      (e : Ending) (s : S) (r : Option Bio) (again : Option Bio → Call S (Returned p))
      → (act_all p none (ending_command e ∷ []) waiting >>= (λ st.
            let reply' = elim st.filled as (λ o. Option Bio) [ none ↦ r | some b ↦ some b ] in
            call_verdict p reply' st (again reply')))
          s
        ≡ done (result_of e s, s)
  unfolding act_all act ending_command take_reply call_verdict result_of
  act_ending (Ending.answered t) s r again = refl
  act_ending Ending.refused s r again = refl
  act_ending Ending.target_died s r again = refl

  -- A round whose answer is a stream of commands.
  module _ (again : Request → List ℕ → Option Bio → Call S (Returned p)) (bwr : Request)
      (readbuf : List ℕ) (r : Option Bio) where
    abbrev next_round : ℕ → List ℕ → Option Bio → Call S (Returned p)
    next_round consumed ws = again (record bwr { write_consumed = consumed }) (read_into ws readbuf)

    abbrev judge : ℕ → List ℕ → Outcome (Parse × S) → Outcome (Returned p × S)
    judge consumed ws x = elim x as (λ y. Outcome (Returned p × S)) [
      | done q ↦
          let reply' = elim q.0.filled as (λ o. Option Bio) [ none ↦ r | some b ↦ some b ] in
          call_verdict p reply' q.0 (next_round consumed ws reply') q.1
      | fault ↦ fault
      | running ↦ running
    ]

    answer_lem :
        (cs ds : List Incoming) (consumed : ℕ) (s : S)
        → All (λ c. idle c ≡ true) cs
        → call_answer p again bwr readbuf r
            (some (record { read_buffer = stream (cs ++ ds); write_consumed = consumed }))
            s
          ≡ judge consumed (stream (cs ++ ds)) (act_all p none ds waiting s)
    unfolding call_answer read_into
    answer_lem cs ds consumed s h = ap (judge consumed (stream (cs ++ ds))) (
        parse-stream p none (cs ++ ds) (drop (length (stream (cs ++ ds))) readbuf) true s
        ∙ act_all-idle cs ds waiting s h)

    wait_lem :
        (cs : List Incoming) (consumed : ℕ) (s : S)
        → All (λ c. idle c ≡ true) cs
        → call_answer p again bwr readbuf r
            (some (record { read_buffer = stream cs; write_consumed = consumed }))
            s
          ≡ next_round consumed (stream cs) r s
    wait_lem cs consumed s h =
        subst
          (λ xs.
            call_answer p again bwr readbuf r
              (some (record { read_buffer = stream xs; write_consumed = consumed })) s
            ≡ next_round consumed (stream xs) r s)
          (append-nil cs) (unfold act_all call_verdict in answer_lem cs [] consumed s h)

  talk_lem :
      (n rounds : ℕ) (bwr : Request) (s s' : S) (e : Ending) (readbuf : List ℕ) (r : Option Bio)
      → Talk n bwr s e s'
      → n ≤ rounds
      → call_loop p rounds bwr readbuf r s ≡ done (result_of e s', s')
  unfolding call_loop
  talk_lem n zero bwr s s' e readbuf r (Talk.ends _ _ _ _ _ _ _ _) h = absurd (omega arith)
  talk_lem n zero bwr s s' e readbuf r (Talk.waits _ _ _ _ _ _ _ _ _ _ _) h = absurd (omega arith)
  talk_lem n (suc rounds) bwr s s' e readbuf r (Talk.ends _ _ _ consumed cs _ i a) h =
      ap (λ q. call_answer p (call_loop p rounds) bwr readbuf r q.0 q.1) a
      ∙ answer_lem (call_loop p rounds) bwr readbuf r cs (ending_command e ∷ []) consumed s' i
      ∙ act_ending e s' r (
          next_round (call_loop p rounds) bwr readbuf r consumed
            (stream (cs ++ ending_command e ∷ [])))
  talk_lem n (suc rounds) bwr s s' e readbuf r (Talk.waits k _ _ s₁ _ consumed cs _ i a t) h =
      ap (λ q. call_answer p (call_loop p rounds) bwr readbuf r q.0 q.1) a
      ∙ wait_lem (call_loop p rounds) bwr readbuf r cs consumed s₁ i
      ∙ talk_lem k rounds (record bwr { write_consumed = consumed }) s₁ s' e
          (read_into (stream cs) readbuf) r t (omega arith)

  -- A call whose message is whole ends with the driver's answer, after any number of rounds of
  -- commands that leave it waiting: with the reply that the driver names, its data and offsets as
  -- they are mapped then, or with an error if the driver refuses the call or its target has died.
  pub call_ends :
      (n rounds : ℕ) (msg : Bio) (r : Option Bio) (target code : ℕ) (s s' : S) (e : Ending)
      → msg.io.overflow ≡ false
      → Talk n (call_request p msg target code) s e s'
      → n ≤ rounds
      → binder_call p rounds msg r target code s ≡ done (result_of e s', s')
  unfolding binder_call
  call_ends n rounds msg r target code s s' e f t h =
      rw f (talk_lem n rounds (call_request p msg target code) s s' e p.frame.readbuf r t h)
