-- ===== src/Driver/Traces.antt =====
-- Call traces of module/new/binder.c: `bcmd_fill_traces` and `bcmd_lookup_caller`. A trace names a
-- process and the thread of it that waits in the chain of calls which led to the calling thread.
use android_binder_ipc.Common.{
  ℕ, zero, suc, ◌<◌, ◌≤◌, ◌≢◌, Bool, true, false, Option, none, some, List, [], ◌∷◌, ◌++◌, ◌≡◌, inl,
  inr, refl, sym, ap, ◌∙◌, arith, if◌then◌else◌, leb, ◌==◌, length, length-append, Bool-cases, take,
  ap₂, subst, ==-self,
}
use android_binder_ipc.Driver.World.{Msg, Trace, Thread, Proc}

-- MAX_TRACE_DEPTH
abbrev pub max_depth : ℕ
max_depth = 4

-- The inner loop over the traces of one message: the traces so far, and whether the limit was met.
unfoldable pub add_traces : List Trace → List Trace → List Trace × Bool
add_traces acc [] = (acc, false)
add_traces acc (t ∷ ts) =
    let acc' = acc ++ t ∷ [] in
    let rest = add_traces acc' ts in if leb max_depth (length acc') then (acc', true) else rest

-- The outer loop over the incoming transactions.
unfoldable pub add_messages : List Trace → List Msg → List Trace × Bool
unfolding add_traces
add_messages acc [] = (acc, false)
add_messages acc (m ∷ ms) =
    let (acc', full) = add_traces acc m.traces in
    let rest = add_messages acc' ms in if full then (acc', true) else rest

-- The traces of a new message, and whether the function returned -1.
unfoldable pub bcmd_fill_traces : Proc → Thread → List Trace × Bool
unfolding add_messages
bcmd_fill_traces p t =
    add_messages (record { caller_proc = p.queue; caller_thread = t.queue } ∷ [])
      t.incoming_transactions

unfoldable pub find_caller : ℕ → List Trace → Option ℕ
find_caller proc [] = none
find_caller proc (t ∷ ts) =
    if t.caller_proc == proc then some t.caller_thread else find_caller proc ts

unfoldable pub find_in_messages : ℕ → List Msg → Option ℕ
unfolding find_caller
find_in_messages proc [] = none
find_in_messages proc (m ∷ ms) = elim (find_caller proc m.traces) [
  | some thread ↦ some thread
  | none ↦ find_in_messages proc ms
]

-- Where a message to process `dest` goes: the thread that waits for this call in its chain, if one
-- does, and the process's queue otherwise.
unfoldable pub bcmd_lookup_caller : Thread → ℕ → ℕ
unfolding find_in_messages
bcmd_lookup_caller t dest = elim (find_in_messages dest t.incoming_transactions) [
  | some thread ↦ thread
  | none ↦ dest
]

-- All traces of the calls that a thread serves, newest first.
unfoldable pub chain : List Msg → List Trace
chain [] = []
chain (m ∷ ms) = m.traces ++ chain ms

take-append {ℓ} : {A : Type ℓ} (xs ys : List A) → take (length xs) (xs ++ ys) ≡ xs
take-append [] ys = refl
take-append (x ∷ xs) ys = ap (λ l. x ∷ l) (take-append xs ys)

take-all {ℓ} : {A : Type ℓ} (n : ℕ) (xs : List A) → length xs ≤ n → take n xs ≡ xs
take-all zero [] h = refl
take-all zero (x ∷ xs) h = absurd (omega arith)
take-all (suc n) [] h = refl
take-all (suc n) (x ∷ xs) h = ap (λ l. x ∷ l) (take-all n xs (omega arith))

append_snoc {ℓ} :
    {A : Type ℓ} (xs : List A) (y : A) (ys : List A) → xs ++ y ∷ [] ++ ys ≡ xs ++ (y ∷ ys)
append_snoc [] y ys = refl
append_snoc (x ∷ xs) y ys = ap (λ l. x ∷ l) (append_snoc xs y ys)

append_nil {ℓ} : {A : Type ℓ} (xs : List A) → xs ++ [] ≡ xs
append_nil [] = refl
append_nil (x ∷ xs) = ap (λ l. x ∷ l) (append_nil xs)

append_assoc {ℓ} : {A : Type ℓ} (xs ys zs : List A) → xs ++ ys ++ zs ≡ xs ++ (ys ++ zs)
append_assoc [] ys zs = refl
append_assoc (x ∷ xs) ys zs = ap (λ l. x ∷ l) (append_assoc xs ys zs)

-- The first traces of a list, as many as a message holds, and whether it is then full.
cut : List Trace → List Trace × Bool
cut ts = (take max_depth ts, leb max_depth (length ts))

cut_short : (ts : List Trace) → length ts < max_depth → cut ts ≡ (ts, false)
unfolding cut
cut_short ts h = ap₂ (λ a b. (a, b)) (take-all 4 ts (omega arith)) (grind arith)

cut_full : (ts us : List Trace) → length ts ≡ max_depth → cut (ts ++ us) ≡ (ts, true)
unfolding cut
cut_full ts us e =
    ap₂ (λ a b. (a, b)) (subst (λ n. take n (ts ++ us) ≡ ts) e (take-append ts us))
      (let h = length-append ts us in grind arith)

add_traces-cut :
    (acc ts : List Trace) → length acc < max_depth → add_traces acc ts ≡ cut (acc ++ ts)
unfolding add_traces
add_traces-cut acc [] h = sym (ap cut (append_nil acc) ∙ cut_short acc h)
add_traces-cut acc (t ∷ ts) h =
    let n = length-append acc (t ∷ []) in
    let back = ap cut (append_snoc acc t ts) in
    elim (Bool-cases (leb max_depth (length (acc ++ t ∷ [])))) [
      | inl e ↦ rw e (sym (cut_full (acc ++ t ∷ []) ts (grind arith)) ∙ back)
      | inr e ↦ rw e (add_traces-cut (acc ++ t ∷ []) ts (grind arith) ∙ back)
    ]

-- Once the traces of one message are short, all of them are there.
cut_more : (ts us : List Trace) → leb max_depth (length ts) ≡ true → cut (ts ++ us) ≡ cut ts
unfolding cut
cut_more ts us h =
    ap₂ (λ a b. (a, b)) (take_more max_depth ts us (grind arith))
      (let n = length-append ts us in grind arith)
  where
    take_more : (n : ℕ) (xs ys : List Trace) → n ≤ length xs → take n (xs ++ ys) ≡ take n xs
    take_more zero xs ys h = refl
    take_more (suc n) [] ys h = absurd (omega arith)
    take_more (suc n) (x ∷ xs) ys h = ap (λ l. x ∷ l) (take_more n xs ys (omega arith))

cut_over : (ts : List Trace) → leb max_depth (length ts) ≡ true → cut ts ≡ (take max_depth ts, true)
unfolding cut
cut_over ts e = ap (λ b. (take max_depth ts, b)) e

-- One round of the outer loop, of what the traces so far and those of the message come to.
add_messages-cut :
    (acc : List Trace) (ms : List Msg)
    → length acc < max_depth
    → add_messages acc ms ≡ cut (acc ++ chain ms)
unfolding add_messages chain
add_messages-cut acc [] h = sym (ap cut (append_nil acc) ∙ cut_short acc h)
add_messages-cut acc (m ∷ ms) h =
    let step = add_traces-cut acc m.traces h in
    let assoc = append_assoc acc m.traces (chain ms) in
    elim (Bool-cases (leb max_depth (length (acc ++ m.traces)))) [
      | inl e ↦
          let c = cut_over (acc ++ m.traces) e in
          rw (step, c) (sym c ∙ sym (cut_more (acc ++ m.traces) (chain ms) e) ∙ ap cut assoc)
      | inr e ↦
          let short = add_messages-cut (acc ++ m.traces) ms (grind arith) in
          rw (step, cut_short (acc ++ m.traces) (grind arith)) (short ∙ ap cut assoc)
    ]

-- A call carries the caller, followed by the traces of all calls that its thread serves, newest
-- first, cut behind the fourth trace; the function reports that the limit is met exactly when there
-- are four or more.
pub fill_traces :
    (p : Proc) (t : Thread)
    → let all =
        record { caller_proc = p.queue; caller_thread = t.queue } ∷ chain t.incoming_transactions in
      bcmd_fill_traces p t ≡ (take max_depth all, leb max_depth (length all))
unfolding bcmd_fill_traces cut
fill_traces p t =
    add_messages-cut (record { caller_proc = p.queue; caller_thread = t.queue } ∷ [])
      t.incoming_transactions (omega arith)

find_caller-append :
    (proc : ℕ) (xs ys : List Trace)
    → find_caller proc (xs ++ ys)
      ≡ elim (find_caller proc xs) [ some q ↦ some q | none ↦ find_caller proc ys ]
unfolding find_caller
find_caller-append proc [] ys = refl
find_caller-append proc (x ∷ xs) ys =
    let rest = find_caller-append proc xs ys in
    elim (Bool-cases (x.caller_proc == proc)) [ inl e ↦ rw e refl | inr e ↦ rw e rest ]

lookup-find_caller :
    (t : Thread) (dest : ℕ)
    → bcmd_lookup_caller t dest
      ≡ elim (find_caller dest (chain t.incoming_transactions)) [ some q ↦ q | none ↦ dest ]
unfolding bcmd_lookup_caller find_in_messages chain
lookup-find_caller t dest =
    ap (λ o. elim o [ some q ↦ q | none ↦ dest ]) (in_chain t.incoming_transactions)
  where
    in_chain : (ms : List Msg) → find_in_messages dest ms ≡ find_caller dest (chain ms)
    in_chain [] = refl
    in_chain (m ∷ ms) =
        ap (λ o. elim (find_caller dest m.traces) [ some q ↦ some q | none ↦ o ]) (in_chain ms)
        ∙ sym (find_caller-append dest m.traces (chain ms))

-- Where a message to process `dest` has to go, from the traces, newest first: to the thread of the
-- first trace that names this process, behind traces of other processes only; to the process's own
-- queue, if they all name others.
pub data Nearest (dest : ℕ) : List Trace → ℕ → Type 0 where
  waits :
      (c : Trace) (others : List Trace)
      → c.caller_proc ≡ dest
      → Nearest dest (c ∷ others) c.caller_thread
  passes :
      {others : List Trace} {to : ℕ} (c : Trace)
      → c.caller_proc ≢ dest
      → Nearest dest others to
      → Nearest dest (c ∷ others) to
  nobody : Nearest dest [] dest

find_caller-Nearest :
    (dest : ℕ) (ts : List Trace)
    → Nearest dest ts (elim (find_caller dest ts) [ some q ↦ q | none ↦ dest ])
unfolding find_caller
find_caller-Nearest dest [] = nobody
find_caller-Nearest dest (c ∷ others) = elim (Bool-cases (c.caller_proc == dest)) [
  | inl e ↦ rw e (waits c others (grind arith))
  | inr e ↦ rw e (passes c (grind arith) (find_caller-Nearest dest others))
]

-- What `bcmd_lookup_caller` returns for a process, among the traces of all calls that the thread
-- serves, those of the newest call first: the thread of the first trace that names the process, and
-- the process's queue only if no trace names it.
pub lookup_newest :
    (t : Thread) (dest : ℕ)
    → Nearest dest (chain t.incoming_transactions) (bcmd_lookup_caller t dest)
lookup_newest t dest =
    subst (Nearest dest (chain t.incoming_transactions)) (sym (lookup-find_caller t dest))
      (find_caller-Nearest dest (chain t.incoming_transactions))

-- While a thread serves a call whose traces `bcmd_fill_traces` has made for its caller, a call back
-- to the caller's process goes to the thread that waits for this one.
pub call_back :
    (p : Proc) (t server : Thread) (m : Msg) (others : List Msg)
    → m.traces ≡ (bcmd_fill_traces p t).0
    → server.incoming_transactions ≡ m ∷ others
    → bcmd_lookup_caller server p.queue ≡ t.queue
unfolding find_caller chain
call_back p t server m others hm hs =
    let to : List Trace → ℕ = λ ts. elim (find_caller p.queue ts) [ some q ↦ q | none ↦ p.queue ] in
    let made = hm ∙ ap (λ r. r.0) (fill_traces p t) in
    lookup-find_caller server p.queue
    ∙ ap to (ap chain hs ∙ ap (λ ts. ts ++ chain others) made)
    ∙ rw (==-self p.queue) refl
