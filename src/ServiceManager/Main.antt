-- ===== src/ServiceManager/Main.antt =====
-- `main` of servicemanager/service_manager.c: the handler of the service manager in the command loop
-- of servicemanager/binder.c.
use android_binder_ipc.Common.{ℕ, ◌-◌, ◌*◌, ◌^◌, Bool, true, false, List, [], ◌∷◌, if◌then◌else◌}
use android_binder_ipc.BinderLoop.{
  done, fault, running, Call, pure, ◌>>=◌, ◌>>◌, Process, binder_acquire, binder_release,
  binder_link_to_death,
}
use android_binder_ipc.BinderLoop.Parse.{Handler}
use android_binder_ipc.BinderLoop.Loops.{binder_loop}
use android_binder_ipc.BinderLoop.Device.{Device, binder_open, binder_become_context_manager}
use android_binder_ipc.ServiceManager.{Manager, Command, Run, svcinfo_death}
use android_binder_ipc.ServiceManager.Handler.{svcmgr_handler}

module _ {S : Type 0} (p : Process S) where
  -- What one of the commands of a handler writes.
  unfoldable pub send : Command → Call S Bool
  unfolding binder_acquire binder_release binder_link_to_death
  send (Command.bc_acquire ptr) = binder_acquire p ptr
  send (Command.bc_release ptr) = binder_release p ptr
  send (Command.bc_request_death_notification ptr death) = binder_link_to_death p ptr death

  -- The list has the newest command first.
  unfoldable pub send_all : List Command → Call S (Unit {0})
  unfolding send
  send_all [] = pure tt
  send_all (c ∷ cs) = do send_all cs; send c; pure tt

-- The manager beside the driver: what a call of the driver does leaves the manager as it is.
abbrev pub beside : {S A : Type 0} → Manager → Call S A → Call (Manager × S) A
beside m call (_, s) = elim (call s) [
  | done r ↦ done (r.0, (m, r.1))
  | fault ↦ fault
  | running ↦ running
]

-- Nothing is waiting to be sent.
abbrev pub quiet : Manager → Manager
quiet m = record m { sent = [] }

module _ {S : Type 0} (p : Process S) where
  -- svcinfo_death, which the record of a death points to.
  unfoldable pub on_death : ℕ → Call (Manager × S) (Unit {0})
  unfolding svcinfo_death send_all
  on_death id (m, s) =
      let m' = svcinfo_death id (quiet m) in beside (quiet m') (send_all p m'.sent) (m, s)

  -- svcmgr_handler as the loop calls it; -1 is a word.
  unfoldable pub on_transaction : ℕ → Handler (Manager × S)
  unfolding svcmgr_handler send_all
  on_transaction handle txn msg answer (m, s) =
      elim (svcmgr_handler handle txn.target txn.code txn.sender_euid msg answer (quiet m)) [
        | Run.fault ↦ fault
        | Run.done (ok, io, m') ↦
            beside (quiet m') (do send_all p m'.sent; pure (if ok then 0 else 2 ^ 32 - 1, io))
              (m, s)
      ]

  -- The process that the loop runs in.
  abbrev pub manager_process : Process (Manager × S)
  manager_process = record {
    ioctl = λ bwr (m, s). let (a, s') = p.ioctl bwr s in (a, (m, s'));
    memory = λ (m, s). p.memory s;
    death = on_death;
    frame = p.frame;
  }

  -- BINDER_SERVICE_MANAGER is 0. `none` stands for the exit code -1.
  unfoldable pub main : Device (Manager × S) → ℕ → Call (Manager × S) Bool
  unfolding binder_open binder_become_context_manager binder_loop on_transaction
  main dev rounds = do
    bs ← binder_open dev (128 * 1024)
    manages ← binder_become_context_manager dev bs
    elim manages [
      | false ↦ pure false
      | true ↦ do binder_loop manager_process rounds (on_transaction 0); pure true
    ]
