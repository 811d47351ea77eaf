-- ===== src/ServiceManager/History.antt =====
-- The references that servicemanager/service_manager.c holds, over its whole run.
use android_binder_ipc.Common.{
  ℕ, ◌+◌, ◌<◌, Bool, true, false, ◌||◌, some, List, [], ltb, ◌==◌, ◌≡◌, refl, sym, ap, ◌∙◌,
  Bool-cases, inl, inr, subst,
}
use android_binder_ipc.ServiceManager.{
  Manager, Run, done, fault, svc_can_register, svcinfo_death, replace_svc, do_add_service,
}
use android_binder_ipc.ServiceManager.Lookup.{find-cases}
use android_binder_ipc.ServiceManager.Registry.{Numbered, find-by_id}
use android_binder_ipc.ServiceManager.References.{
  acquired, released, held, IsBalanced, death-IsBalanced, replace-IsBalanced, register-IsBalanced,
}

-- Whatever do_add_service returns, the balance stays.
pub add-IsBalanced :
    (units : List ℕ) (len p uid : ℕ) (b : Bool) (m m' : Manager)
    → IsBalanced m
    → do_add_service (some units) len p uid m ≡ done (b, m')
    → IsBalanced m'
unfolding do_add_service IsBalanced
add-IsBalanced units len p uid b m m' h e = elim (Bool-cases (p == 0 || len == 0 || ltb 127 len)) [
  | inl t ↦ returned false m h (sym (rw t refl) ∙ e)
  | inr t ↦ elim (Bool-cases (svc_can_register uid (some units))) [
    | inl c ↦ elim (find-cases units len m.svclist) [
      | inl f ↦ register-IsBalanced (some units) len p b m m' h (sym (rw (t, c, f) refl) ∙ e)
      | inr f ↦
          returned true (replace_svc p f.0 m)
            (replace-IsBalanced p f.0 m h (find-by_id units len m.svclist f.0 h.0 f.1).0)
            (sym (rw (t, c, f.1) refl) ∙ e)
    ]
    | inr c ↦ returned false m h (sym (rw (t, c) refl) ∙ e)
  ]
]
  where
    out : Run (Bool × Manager) → Manager
    out (done r) = r.1
    out fault = m'

    returned :
        (a : Bool) (v : Manager)
        → IsBalanced v
        → ◌≡◌ {A = Run (Bool × Manager)} (done (a, v)) (done (b, m'))
        → IsBalanced m'
    returned a v h e = subst IsBalanced (ap out e) h

-- What changes the services: calls of do_add_service, and deaths.
pub data Step : Manager → Manager → Type 0 where
  add :
      (units : List ℕ) (len p uid : ℕ) (b : Bool) (m m' : Manager)
      → do_add_service (some units) len p uid m ≡ done (b, m')
      → Step m m'
  death : (id : ℕ) (m : Manager) → Step m (svcinfo_death id m)

pub data Steps : Manager → Manager → Type 0 where
  start : (m : Manager) → Steps m m
  then_step : (m v u : Manager) → Steps m v → Step v u → Steps m u

-- The program starts without services.
abbrev pub boot : List Bool → Manager
boot memory = record { svclist = []; memory = memory; sent = [] }

Step-IsBalanced : (m m' : Manager) → Step m m' → IsBalanced m → IsBalanced m'
Step-IsBalanced m m' (add units len p uid b v u e) h = add-IsBalanced units len p uid b m m' h e
Step-IsBalanced m m' (death id v) h = death-IsBalanced id m h

Steps-IsBalanced : (memory : List Bool) (m : Manager) → Steps (boot memory) m → IsBalanced m
unfolding IsBalanced Numbered acquired released held
Steps-IsBalanced memory m (start v) = (tt, λ q lt. refl)
Steps-IsBalanced memory m (then_step v u w before s) =
    Step-IsBalanced u m s (Steps-IsBalanced memory u before)

-- After any calls of do_add_service, for names that stand in the message, and any deaths, in any
-- order and with any failures of malloc, the service manager has acquired each handle (other than 0)
-- exactly as often as it has released it and names stand for it.
pub references_balance :
    (memory : List Bool) (m : Manager) (p : ℕ)
    → Steps (boot memory) m
    → 0 < p
    → acquired p m.sent ≡ released p m.sent + held p m.svclist
unfolding IsBalanced
references_balance memory m p steps lt = (Steps-IsBalanced memory m steps).1 p lt
