-- ===== src/ServiceManager/Lookup.antt =====
-- What a name finds behind `do_add_service` and `svcinfo_death` of
-- servicemanager/service_manager.c.
use android_binder_ipc.Common.{
  ℕ, ◌≤◌, Bool, true, false, ◌&&◌, ◌||◌, Option, none, some, List, [], ◌∷◌, ltb, ◌==◌, length, ◌≡◌,
  refl, sym, ap, ◌∙◌, arith, Bool-cases, inl, inr, ==-self, ◌⊎◌, subst,
}
use android_binder_ipc.ServiceManager.{
  Svcinfo, Manager, Run, done, fault, Command, svc_can_register, same_units, find_svc, by_id,
  with_ptr, give_up, svcinfo_death, do_find_service, malloc, replace_svc, register_svc,
  do_add_service, new_svc, hold,
}
use android_binder_ipc.ServiceManager.Registry.{
  Numbered, same_units-take, find-update, find-by_id, update-Numbered,
}

-- What find_svc returns for a string in the message: no fault.
pub find-cases :
    (units : List ℕ) (len : ℕ) (l : List Svcinfo)
    → (find_svc (some units) len l ≡ done none)
      ⊎ ((si : Svcinfo) × (find_svc (some units) len l ≡ done (some si)))
unfolding find_svc
find-cases units len [] = inl refl
find-cases units len (x ∷ xs) = elim (Bool-cases (len == x.len && same_units len units x.name)) [
  | inl t ↦ inr (x, rw t refl)
  | inr t ↦ rw t (find-cases units len xs)
]

-- The death of a service that is there.
death_lem :
    (si : Svcinfo) (m : Manager)
    → by_id si.id m.svclist ≡ some si
    → svcinfo_death si.id m ≡ give_up si.id (some si) m
unfolding svcinfo_death
death_lem si m e = ap (λ o. give_up si.id o m) e

-- The name still belongs to the service at that address.
death-find :
    (units : List ℕ) (len : ℕ) (si : Svcinfo) (m : Manager)
    → Numbered m.svclist
    → find_svc (some units) len m.svclist ≡ done (some si)
    → (find_svc (some units) len (svcinfo_death si.id m).svclist ≡ done (some (with_ptr 0 si)))
      × Numbered (svcinfo_death si.id m).svclist
unfolding give_up
death-find units len si m h e =
    rw (death_lem si m (find-by_id units len m.svclist si h e).0) (go (Bool-cases (si.ptr == 0)))
  where
    found : Svcinfo → Run (Option Svcinfo)
    found x = done (some x)

    go :
        (si.ptr == 0 ≡ true) ⊎ (si.ptr == 0 ≡ false)
        → (find_svc (some units) len (give_up si.id (some si) m).svclist
            ≡ done (some (with_ptr 0 si)))
          × Numbered (give_up si.id (some si) m).svclist
    go (inl z) =
        let nil : si.ptr ≡ 0 = grind arith in rw z (e ∙ ap (λ q. found (with_ptr q si)) nil, h)
    go (inr z) = rw z (find-update units len 0 m.svclist si e, update-Numbered si.id 0 m.svclist h)

-- What do_add_service has done when it returns 0: the name belongs to the service.
unfoldable pub Registered : List ℕ → ℕ → ℕ → Manager → Type 0
unfolding Numbered
Registered units len p m =
    (si : Svcinfo) × (find_svc (some units) len m.svclist ≡ done (some si))
    × (si.ptr ≡ p)
    × Numbered m.svclist

-- The state behind a call that has come back.
abbrev out : Manager → Run (Bool × Manager) → Manager
out other (done r) = r.1
out other fault = other

not_refused :
    {m m' : Manager} → ◌≡◌ {A = Run (Bool × Manager)} (done (false, m)) (done (true, m')) → ⊥
not_refused e = grind arith

-- The service that replaces another stands at its address.
replace-find :
    (units : List ℕ) (len p : ℕ) (si : Svcinfo) (m : Manager)
    → Numbered m.svclist
    → find_svc (some units) len m.svclist ≡ done (some si)
    → (find_svc (some units) len (replace_svc p si m).svclist ≡ done (some (with_ptr p si)))
      × Numbered (replace_svc p si m).svclist
unfolding replace_svc
replace-find units len p si m h e =
    let (found, numbered) = death-find units len si m h e in
    (
      find-update units len p (svcinfo_death si.id m).svclist (with_ptr 0 si) found,
      update-Numbered si.id p (svcinfo_death si.id m).svclist numbered,
    )

-- A call for a name that is taken replaces its service, if it returns 0 at all.
add-replaces :
    (units : List ℕ) (len p uid : ℕ) (si : Svcinfo) (m m' : Manager)
    → find_svc (some units) len m.svclist ≡ done (some si)
    → do_add_service (some units) len p uid m ≡ done (true, m')
    → (replace_svc p si m ≡ m') × (p == 0 ≡ false)
unfolding do_add_service
add-replaces units len p uid si m m' f e = elim (Bool-cases (p == 0 || len == 0 || ltb 127 len)) [
  | inl t ↦ absurd (not_refused {m = m} {m' = m'} (sym (rw t refl) ∙ e))
  | inr t ↦ elim (Bool-cases (svc_can_register uid (some units))) [
    | inl c ↦
        let made : ◌≡◌ {A = Run (Bool × Manager)} (done (true, replace_svc p si m))
            (done (true, m')) =
          sym (rw (t, c, f) refl) ∙ e in
        (ap (out m') made, grind arith)
    | inr c ↦ absurd (not_refused {m = m} {m' = m'} (sym (rw (t, c) refl) ∙ e))
  ]
]

register-Registered :
    (units : List ℕ) (len p : ℕ) (m m' : Manager)
    → Numbered m.svclist
    → len ≤ length units
    → register_svc p (some units) len m ≡ done (true, m')
    → Registered units len p m'
unfolding register_svc Registered malloc find_svc Numbered
register-Registered units len p m m' h lt e = go m.memory e
  where
    entered : Manager → Manager
    entered v =
        let si = new_svc p units len v in hold p si.id (record v { svclist = si ∷ v.svclist })

    stands : (v : Manager) → v.svclist ≡ m.svclist → Registered units len p (entered v)
    stands v same =
        let mine = same_units-take len units lt in
        (
          new_svc p units len v,
          rw (==-self len, mine) refl,
          refl,
          (refl, subst Numbered (sym same) h),
        )

    go :
        (ms : List Bool)
        → register_svc p (some units) len (record m { memory = ms }) ≡ done (true, m')
        → Registered units len p m'
    go [] e =
        subst (Registered units len p) (ap (out m') e) (stands (record m { memory = [] }) refl)
    go (true ∷ ms) e =
        subst (Registered units len p) (ap (out m') e) (stands (record m { memory = ms }) refl)
    go (false ∷ ms) e = absurd (grind arith)

add-Registered :
    (units : List ℕ) (len p uid : ℕ) (m m' : Manager)
    → Numbered m.svclist
    → len ≤ length units
    → do_add_service (some units) len p uid m ≡ done (true, m')
    → Registered units len p m'
unfolding do_add_service Registered
add-Registered units len p uid m m' h lt e = elim (Bool-cases (p == 0 || len == 0 || ltb 127 len)) [
  | inl t ↦ absurd (not_refused {m = m} {m' = m'} (sym (rw t refl) ∙ e))
  | inr t ↦ elim (Bool-cases (svc_can_register uid (some units))) [
    | inl c ↦ elim (find-cases units len m.svclist) [
      | inl f ↦ register-Registered units len p m m' h lt (sym (rw (t, c, f) refl) ∙ e)
      | inr f ↦ replaced f
    ]
    | inr c ↦ absurd (not_refused {m = m} {m' = m'} (sym (rw (t, c) refl) ∙ e))
  ]
]
  where
    replaced :
        (si : Svcinfo) × (find_svc (some units) len m.svclist ≡ done (some si))
        → Registered units len p m'
    replaced (si, f) =
        let (made, positive) = add-replaces units len p uid si m m' f e in
        let (found, numbered) = replace-find units len p si m h f in
        subst (Registered units len p) made (with_ptr p si, found, refl, numbered)

-- When do_add_service returns 0 for a name that stands in the message, with the services at different
-- addresses, the name belongs to the new service: do_find_service returns its handle, also if the
-- name was taken before.
pub add-find :
    (units : List ℕ) (len p uid : ℕ) (m m' : Manager)
    → Numbered m.svclist
    → len ≤ length units
    → do_add_service (some units) len p uid m ≡ done (true, m')
    → (do_find_service (some units) len m' ≡ done p) × Numbered m'.svclist
unfolding do_find_service Registered
add-find units len p uid m m' h lt e =
    let (si, found, own, numbered) = added in
    (rw (found, do_find_service) (ap handle own), numbered)
  where
    handle : ℕ → Run ℕ
    handle x = done x

    added : Registered units len p m'
    added = add-Registered units len p uid m m' h lt e

-- When a service replaces another under its name, the death notification of the old one, which names
-- the same address, gives up the new one: its reference is released, and the name finds no service.
pub late_death :
    (units : List ℕ) (len p uid : ℕ) (si : Svcinfo) (m m' : Manager)
    → Numbered m.svclist
    → find_svc (some units) len m.svclist ≡ done (some si)
    → do_add_service (some units) len p uid m ≡ done (true, m')
    → (do_find_service (some units) len (svcinfo_death si.id m') ≡ done 0)
      × ((svcinfo_death si.id m').sent ≡ Command.bc_release p ∷ m'.sent)
unfolding do_find_service give_up
late_death units len p uid si m m' h f e =
    let (made, positive) = add-replaces units len p uid si m m' f e in
    let (found, numbered) = replace-find units len p si m h f in
    subst
      (λ v.
        (do_find_service (some units) len (svcinfo_death si.id v) ≡ done 0)
        × ((svcinfo_death si.id v).sent ≡ Command.bc_release p ∷ v.sent))
      made (dies (replace_svc p si m) found numbered positive)
  where
    dies :
        (v : Manager)
        → find_svc (some units) len v.svclist ≡ done (some (with_ptr p si))
        → Numbered v.svclist
        → p == 0 ≡ false
        → (do_find_service (some units) len (svcinfo_death si.id v) ≡ done 0)
          × ((svcinfo_death si.id v).sent ≡ Command.bc_release p ∷ v.sent)
    dies v found numbered positive =
        let (gone, same) = death-find units len (with_ptr p si) v numbered found in
        let there = (find-by_id units len v.svclist (with_ptr p si) numbered found).0 in
        (
          rw (gone, do_find_service) refl,
          ap (λ x. x.sent) (death_lem (with_ptr p si) v there) ∙ rw positive refl,
        )
