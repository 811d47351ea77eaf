-- ===== src/Driver/Write/Program.antt =====
-- How far a command of `binder_thread_write` of module/new/binder.c reads.
use android_binder_ipc.Common.{
  ℕ, ◌+◌, ◌≤◌, some, List, [], ◌∷◌, ◌≡◌, ◌↔◌, refl, ap, arith, efault, if◌then◌else◌, ltb, ◌==◌,
  Bool-cases, inl, inr, subst,
}
use android_binder_ipc.Driver.World.{World, M, pure, fail, ◌>>=◌, ◌>>◌, copy_from_user}
use android_binder_ipc.Driver.Keeps.{Returns, bind-Returns}
use android_binder_ipc.Driver.Looper.{LooperCmd, bcmd_write_looper}
use android_binder_ipc.Driver.Write.{Bcmd, number, among, bcmds, bcmd_of, fetch, write_case}

-- The bytes that stand behind a command.
unfoldable pub operands : Bcmd → ℕ
operands Bcmd.transaction = 40
operands Bcmd.reply = 40
operands Bcmd.free_buffer = 4
operands Bcmd.increfs = 4
operands Bcmd.acquire = 4
operands Bcmd.release = 4
operands Bcmd.decrefs = 4
operands Bcmd.increfs_done = 8
operands Bcmd.acquire_done = 8
operands Bcmd.register = 0
operands Bcmd.enter = 0
operands Bcmd.exit = 0
operands Bcmd.request_death = 8
operands Bcmd.clear_death = 8
operands Bcmd.dead_binder_done = 4

among-number : (cs : List Bcmd) (n : ℕ) (c : Bcmd) → among cs n ≡ some c → number c ≡ n
unfolding among
among-number [] n c h = absurd (grind arith)
among-number (d ∷ ds) n c h = elim (Bool-cases (number d == n)) [
  | inl e ↦ grind arith
  | inr e ↦ among-number ds n c (grind arith)
]

bcmd_of_self : (c : Bcmd) → bcmd_of (number c) ≡ some c
unfolding bcmd_of among number
bcmd_of_self Bcmd.transaction = refl
bcmd_of_self Bcmd.reply = refl
bcmd_of_self Bcmd.free_buffer = refl
bcmd_of_self Bcmd.increfs = refl
bcmd_of_self Bcmd.acquire = refl
bcmd_of_self Bcmd.release = refl
bcmd_of_self Bcmd.decrefs = refl
bcmd_of_self Bcmd.increfs_done = refl
bcmd_of_self Bcmd.acquire_done = refl
bcmd_of_self Bcmd.register = refl
bcmd_of_self Bcmd.enter = refl
bcmd_of_self Bcmd.exit = refl
bcmd_of_self Bcmd.request_death = refl
bcmd_of_self Bcmd.clear_death = refl
bcmd_of_self Bcmd.dead_binder_done = refl

-- The switch takes a number for a command exactly when it is the number of that command, for all
-- fifteen of them.
pub bcmd_of-number : (n : ℕ) (c : Bcmd) → (bcmd_of n ≡ some c) ↔ (number c ≡ n)
unfolding bcmd_of
bcmd_of-number n c =
    (among-number bcmds n c, λ e. subst (λ k. bcmd_of k ≡ some c) e (bcmd_of_self c))

module _ (Q : ℕ → Type 0) where
  -- The guard of the bytes behind a command.
  pub guarded :
      (p n end : ℕ) (m : M ℕ)
      → (p + n ≤ end → (w : World) → Returns Q (m w))
      → (w : World) → Returns Q ((if ltb end (p + n) then fail efault else m) w)
  guarded p n end m h w = elim (Bool-cases (ltb end (p + n))) [
    | inl e ↦ rw e tt
    | inr e ↦ rw e (h (grind arith) w)
  ]

  pub fetch-Returns :
      (p n end : ℕ) (f : List ℕ → M ℕ)
      → (p + n ≤ end → (bs : List ℕ) (w : World) → Returns Q (f bs w))
      → (w : World) → Returns Q ((fetch p n end >>= f) w)
  unfolding fetch
  fetch-Returns p n end f h w = elim (Bool-cases (ltb end (p + n))) [
    | inl e ↦ rw e tt
    | inr e ↦ rw e (bind-Returns Q (copy_from_user p n) f (h (grind arith)) w)
  ]

-- Behind its operands, and no further than the buffer.
unfoldable pub Reads : Bcmd → ℕ → ℕ → ℕ → Type 0
unfolding operands
Reads c p end a = (a ≡ p + operands c) × (a ≤ end)

-- A command with operands that are read, and what it does with them.
argument :
    (c : Bcmd) (p n end : ℕ) (f : List ℕ → M (Unit {0}))
    → n ≡ operands c
    → (w : World) → Returns (Reads c p end) ((fetch p n end >>= (λ bs. f bs >> pure (p + n))) w)
unfolding Reads
argument c p n end f e =
    fetch-Returns (Reads c p end) p n end (λ bs. f bs >> pure (p + n))
      (λ r bs.
        bind-Returns (Reads c p end) (f bs) (λ u. pure (p + n)) (λ u w. (ap (λ k. p + k) e, r)))

-- A command without operands.
simple :
    (c : Bcmd) (l : LooperCmd) (p end : ℕ)
    → 0 ≡ operands c
    → p ≤ end
    → (w : World) → Returns (Reads c p end) ((bcmd_write_looper l >> pure p) w)
unfolding Reads
simple c l p end e h =
    bind-Returns (Reads c p end) (bcmd_write_looper l) (λ u. pure p) (λ u w. (omega arith, h))

pub write_case-Reads :
    (fget : ℕ → ℕ) (c : Bcmd) (p end : ℕ) (w : World)
    → p ≤ end
    → Returns (Reads c p end) (write_case fget c p end w)
unfolding write_case Reads operands
write_case-Reads fget Bcmd.transaction p end w h = argument Bcmd.transaction p 40 end _ refl w
write_case-Reads fget Bcmd.reply p end w h = argument Bcmd.reply p 40 end _ refl w
write_case-Reads fget Bcmd.free_buffer p end w h = argument Bcmd.free_buffer p 4 end _ refl w
write_case-Reads fget Bcmd.acquire p end w h = argument Bcmd.acquire p 4 end _ refl w
write_case-Reads fget Bcmd.release p end w h = argument Bcmd.release p 4 end _ refl w
write_case-Reads fget Bcmd.increfs p end w h =
    fetch-Returns (Reads Bcmd.increfs p end) p 4 end (λ bs. pure (p + 4)) (λ r bs w. (refl, r)) w
write_case-Reads fget Bcmd.decrefs p end w h =
    fetch-Returns (Reads Bcmd.decrefs p end) p 4 end (λ bs. pure (p + 4)) (λ r bs w. (refl, r)) w
write_case-Reads fget Bcmd.request_death p end w h = argument Bcmd.request_death p 8 end _ refl w
write_case-Reads fget Bcmd.clear_death p end w h = argument Bcmd.clear_death p 8 end _ refl w
write_case-Reads fget Bcmd.enter p end w h =
    simple Bcmd.enter LooperCmd.bc_enter_looper p end refl h w
write_case-Reads fget Bcmd.exit p end w h = simple Bcmd.exit LooperCmd.bc_exit_looper p end refl h w
write_case-Reads fget Bcmd.register p end w h =
    simple Bcmd.register LooperCmd.bc_register_looper p end refl h w
write_case-Reads fget Bcmd.dead_binder_done p end w h =
    guarded (Reads Bcmd.dead_binder_done p end) p 4 end (pure (p + 4)) (λ r w. (refl, r)) w
write_case-Reads fget Bcmd.increfs_done p end w h =
    guarded (Reads Bcmd.increfs_done p end) p 8 end (pure (p + 8)) (λ r w. (refl, r)) w
write_case-Reads fget Bcmd.acquire_done p end w h =
    guarded (Reads Bcmd.acquire_done p end) p 8 end (pure (p + 8)) (λ r w. (refl, r)) w
