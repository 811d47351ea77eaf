-- ===== src/ServiceManager/Tests.antt =====
-- Runs of servicemanager/service_manager.c.
pub mod Requests
use android_binder_ipc.Common.{ℕ, ◌+◌, true, false, none, some, List, [], ◌∷◌, ◌≡◌, refl, arith}
use android_binder_ipc.ServiceManager.{
  Svcinfo, Manager, done, fault, Command, svc_can_register, same_units, find_svc, update, by_id,
  give_up, svcinfo_death, do_find_service, malloc, replace_svc, register_svc, do_add_service,
}
use android_binder_ipc.ServiceManager.Registry.{Numbered, can_register}
use android_binder_ipc.ServiceManager.Lookup.{add-find, late_death}
use android_binder_ipc.ServiceManager.References.{acquired, released, held}
use android_binder_ipc.ServiceManager.History.{Steps, Step, boot, references_balance}

-- "nfc", as a message carries it
abbrev nfc : List ℕ
nfc = b'n' ∷ b'f' ∷ b'c' ∷ 0 ∷ []

abbrev service : Svcinfo
service = record { id = 0; ptr = 21; name = b'n' ∷ b'f' ∷ b'c' ∷ []; len = 3 }

-- The service has registered.
abbrev pub one : Manager
one = record {
  svclist = service ∷ [];
  memory = [];
  sent = Command.bc_request_death_notification 21 0 ∷ Command.bc_acquire 21 ∷ [];
}

-- Another service has taken its name.
abbrev two : Manager
two = record {
  svclist = record service { ptr = 34 } ∷ [];
  memory = [];
  sent =
      Command.bc_request_death_notification 34 0
      ∷ Command.bc_acquire 34
      ∷ Command.bc_release 21
      ∷ one.sent;
}

one-Numbered : Numbered one.svclist
unfolding Numbered
one-Numbered = (refl, tt)

first_add : do_add_service (some nfc) 3 21 1 (boot []) ≡ done (true, one)
unfolding do_add_service svc_can_register find_svc register_svc malloc
first_add = refl

second_add : do_add_service (some nfc) 3 34 0 one ≡ done (true, two)
unfolding do_add_service svc_can_register find_svc same_units replace_svc svcinfo_death by_id update
    give_up
second_add = refl

-- A name that is NULL, where another name has the announced length, ends the program.
null_name : do_add_service none 3 34 0 one ≡ fault
unfolding do_add_service svc_can_register find_svc
null_name = refl

can_register_example : svc_can_register 1002 (some nfc) ≡ false
can_register_example = can_register 1002 (some nfc)

add-find_example : (do_find_service (some nfc) 3 two ≡ done 34) × Numbered two.svclist
add-find_example = add-find nfc 3 34 0 one two one-Numbered (omega arith) second_add

found_first : find_svc (some nfc) 3 one.svclist ≡ done (some service)
unfolding find_svc same_units
found_first = refl

late_death_example :
    (do_find_service (some nfc) 3 (svcinfo_death 0 two) ≡ done 0)
    × ((svcinfo_death 0 two).sent ≡ Command.bc_release 34 ∷ two.sent)
late_death_example = late_death nfc 3 34 0 service one two one-Numbered found_first second_add

both : Steps (boot []) two
both =
    Steps.then_step (boot []) one two
      (Steps.then_step (boot []) (boot []) one (Steps.start (boot []))
        (Step.add nfc 3 21 1 true (boot []) one first_add))
      (Step.add nfc 3 34 0 true one two second_add)

references_balance_example : acquired 34 two.sent ≡ released 34 two.sent + held 34 two.svclist
references_balance_example = references_balance [] two 34 both (omega arith)
