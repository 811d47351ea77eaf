-- ===== src/Driver/Write/Plan.antt =====
-- What a user's buffer says to `binder_thread_write` of module/new/binder.c: a program of commands,
-- read to its end before any of them is run.
use android_binder_ipc.Common.{
  ℕ, zero, suc, ◌+◌, ◌-◌, ◌≤◌, ◌<◌, Bool, true, false, Option, none, some, List, ◌≡◌, refl, sym, ap,
  ◌∙◌, arith, Result, ok, err, efault, einval, ltb, subst,
}
use android_binder_ipc.Driver.World.{
  World, M, Exit, back, stuck, pure, fail, ◌>>=◌, result, copy_from_user,
}
use android_binder_ipc.Driver.Keeps.{Behind}
use android_binder_ipc.Driver.Keeps.Quiet.{IsQuiet}
use android_binder_ipc.Driver.Keeps.Commands.{write_case-IsQuiet}
use android_binder_ipc.Driver.Bytes.{get_word}
use android_binder_ipc.Driver.Write.{
  Bcmd, bcmd_of, write_case, write_one, write_loop, binder_thread_write,
}
use android_binder_ipc.Driver.Write.Program.{operands, Reads, write_case-Reads}
use android_binder_ipc.Driver.Keeps.{Returns}

-- The commands in their order, each with the place of its operands, and what is returned behind the
-- last of them: a place in the buffer, or the error of what stands there.
pub data Plan : Type 0 where
  stop : Result ℕ → Plan
  next : Bcmd → ℕ → Plan → Plan

-- The plan that the user's memory holds from `p` to `end`. A round more than there are bytes is enough.
unfoldable pub plan : (ℕ → ℕ → Option (List ℕ)) → ℕ → ℕ → ℕ → Plan
unfolding operands
plan user zero p end = Plan.stop (ok p)
plan user (suc fuel) p end = elim (ltb end (p + 4)) [
  | true ↦ Plan.stop (ok p)
  | false ↦ elim (user p 4) [
    | none ↦ Plan.stop (err efault)
    | some bs ↦ elim (bcmd_of (get_word bs 0)) [
      | none ↦ Plan.stop (err einval)
      | some c ↦ Plan.next c (p + 4) (plan user fuel (p + 4 + operands c) end)
    ]
  ]
]

-- The commands, one after the other, until one of them fails.
unfoldable pub run : (ℕ → ℕ) → ℕ → Plan → M ℕ
run fget end (Plan.stop r) = result r
run fget end (Plan.next c p rest) = write_case fget c p end >>= (λ _. run fget end rest)

ltb-true : (a b : ℕ) → a < b + 0 → ltb a b ≡ true
ltb-true a b h = grind arith

module _ (fget : ℕ → ℕ) (end : ℕ) where
  -- Behind a command, the loop and the plan continue in the same state.
  follow :
      (x : Exit ℕ) (v : World) (c : Bcmd) (p : ℕ) (loop : ℕ → M ℕ) (rest : M ℕ)
      → Behind (IsQuiet v) x
      → Returns (Reads c p end) x
      → ((a : ℕ) (w : World) → a ≡ p + operands c → a ≤ end → w.user ≡ v.user → loop a w ≡ rest w)
      → elim x as (λ y. Exit ℕ) [
        | back r w' ↦ elim r [ ok a ↦ loop a w' | err e ↦ back (err e) w' ]
        | stuck ↦ stuck
      ]
        ≡ elim x as (λ y. Exit ℕ) [
          | back r w' ↦ elim r [ ok a ↦ rest w' | err e ↦ back (err e) w' ]
          | stuck ↦ stuck
        ]
  unfolding IsQuiet Reads
  follow (back (ok a) w') v c p loop rest (l, b, q, t, m) (e, i) h = h a w' e i m
  follow (back (err e) w') v c p loop rest q r h = refl
  follow stuck v c p loop rest q r h = refl

  -- The rounds behind a command, of the loop and of the plan.
  Agree : ℕ → ℕ → World → Type 0
  Agree fuel p v =
      (a : ℕ) (w : World)
      → p ≤ a
      → a ≤ end
      → w.user ≡ v.user
      → write_loop fget (suc fuel) a end w ≡ run fget end (plan v.user fuel a end) w

  abbrev then_loop : ℕ → Exit ℕ → Exit ℕ
  then_loop fuel x = elim x [
    | back r w ↦ elim r [ ok a ↦ write_loop fget (suc fuel) a end w | err e ↦ back (err e) w ]
    | stuck ↦ stuck
  ]

  abbrev plan_at : (ℕ → ℕ → Option (List ℕ)) → ℕ → ℕ → Option Bcmd → Plan
  plan_at user fuel p none = Plan.stop (err einval)
  plan_at user fuel p (some c) = Plan.next c (p + 4) (plan user fuel (p + 4 + operands c) end)

  abbrev case_at : ℕ → Option Bcmd → M ℕ
  case_at p none = fail einval
  case_at p (some c) = write_case fget c (p + 4) end

  -- A round, by the command that stands at `p`.
  command_lem :
      (fuel p : ℕ) (w : World)
      → p + 4 ≤ end
      → Agree fuel (p + 4) w
      → (c : Option Bcmd)
      → then_loop fuel (case_at p c w) ≡ run fget end (plan_at w.user fuel p c) w
  unfolding run Agree IsQuiet
  command_lem fuel p w h ih none = refl
  command_lem fuel p w h ih (some c) =
      follow (write_case fget c (p + 4) end w) w c (p + 4) (λ a. write_loop fget (suc fuel) a end)
        (run fget end (plan w.user fuel (p + 4 + operands c) end))
        ((write_case-IsQuiet w fget c (p + 4) end).at w (refl, refl, refl, refl, refl))
        (write_case-Reads fget c (p + 4) end w h)
        (λ a w' e i u.
          ih a w' (omega arith) i u ∙ ap (λ k. run fget end (plan w.user fuel k end) w') e)

  loop_lem :
      (fuel p : ℕ) (w : World)
      → end < p + 4 + fuel
      → p ≤ end
      → write_loop fget (suc fuel) p end w ≡ run fget end (plan w.user fuel p end) w
  unfolding write_loop plan run write_one copy_from_user Agree
  loop_lem zero p w h i =
      subst
        (λ b.
          (elim b as (λ x. M ℕ) [
            | true ↦ pure p
            | false ↦ write_one fget p end >>= (λ p'. write_loop fget zero p' end)
          ])
            w
          ≡ back (ok p) w)
        (sym (ltb-true end (p + 4) h)) refl
  loop_lem (suc fuel) p w h i = go (ltb end (p + 4)) refl (λ a w' j k u.
      loop_lem fuel a w' (omega arith) k ∙ ap (λ f. run fget end (plan f fuel a end) w') u)
    where
      read :
          p + 4 ≤ end
          → Agree fuel (p + 4) w
          → (o : Option (List ℕ))
          → then_loop fuel
              (elim (elim o as (λ x. Exit (List ℕ)) [
                | none ↦ back (err efault) w
                | some bs ↦ back (ok bs) w
              ])
                as (λ x. Exit ℕ) [
                  | back r w' ↦ elim r [
                    | ok bs ↦
                        (elim (bcmd_of (get_word bs 0)) as (λ x. M ℕ) [
                          | none ↦ fail einval
                          | some c ↦ write_case fget c (p + 4) end
                        ])
                          w'
                    | err e ↦ back (err e) w'
                  ]
                  | stuck ↦ stuck
                ])
            ≡ run fget end
                (elim o as (λ x. Plan) [
                  | none ↦ Plan.stop (err efault)
                  | some bs ↦ elim (bcmd_of (get_word bs 0)) [
                    | none ↦ Plan.stop (err einval)
                    | some c ↦ Plan.next c (p + 4) (plan w.user fuel (p + 4 + operands c) end)
                  ]
                ])
                w
      read j ih none = refl
      read j ih (some bs) = command_lem fuel p w j ih (bcmd_of (get_word bs 0))

      go :
          (b : Bool)
          → ltb end (p + 4) ≡ b
          → Agree fuel (p + 4) w
          → (elim b as (λ x. M ℕ) [
            | true ↦ pure p
            | false ↦ write_one fget p end >>= (λ p'. write_loop fget (suc fuel) p' end)
          ])
              w
            ≡ run fget end
                (elim b as (λ x. Plan) [
                  | true ↦ Plan.stop (ok p)
                  | false ↦ elim (w.user p 4) [
                    | none ↦ Plan.stop (err efault)
                    | some bs ↦ elim (bcmd_of (get_word bs 0)) [
                      | none ↦ Plan.stop (err einval)
                      | some c ↦ Plan.next c (p + 4) (plan w.user fuel (p + 4 + operands c) end)
                    ]
                  ]
                ])
                w
      go true e ih = refl
      go false e ih = read (grind arith) ih (w.user p 4)

-- A write runs the program that the buffer holds when it starts, command after command up to the first
-- error, and returns how much of the buffer it has read: no command changes what is read behind it, and
-- the loop ends within its rounds.
pub binder_thread_write_lem :
    (fget : ℕ → ℕ) (buf end : ℕ) (w : World)
    → buf ≤ end
    → binder_thread_write fget buf end w
      ≡ (run fget end (plan w.user (end - buf) buf end) >>= (λ p. pure (p - buf))) w
unfolding binder_thread_write
binder_thread_write_lem fget buf end w h =
    ap
      (λ x. elim x as (λ y. Exit ℕ) [
        | back r w' ↦ elim r [ ok p ↦ pure (p - buf) w' | err e ↦ back (err e) w' ]
        | stuck ↦ stuck
      ])
      (loop_lem fget end (end - buf) buf w (omega arith) h)
