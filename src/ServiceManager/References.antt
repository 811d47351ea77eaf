-- ===== src/ServiceManager/References.antt =====
-- The references that servicemanager/service_manager.c holds on the services.
use android_binder_ipc.Common.{
  ℕ, ◌+◌, ◌<◌, ◌≤◌, Bool, true, false, Option, none, some, List, [], ◌∷◌, if◌then◌else◌, ◌==◌,
  length, ◌≡◌, refl, sym, ap, ◌∙◌, arith, Bool-cases, inl, inr, ◌⊎◌, subst,
}
use android_binder_ipc.ServiceManager.{
  Svcinfo, Manager, Run, done, fault, Command, update, by_id, with_ptr, give_up, svcinfo_death,
  malloc, replace_svc, register_svc, hold,
}
use android_binder_ipc.ServiceManager.Registry.{Numbered, update-Numbered}

-- One for a yes.
abbrev unit_of : Bool → ℕ
unit_of b = if b then 1 else 0

-- How often a handle was acquired and released, and how many names it has.
unfoldable pub acquired : ℕ → List Command → ℕ
acquired p [] = 0
acquired p (Command.bc_acquire q ∷ rest) = unit_of (q == p) + acquired p rest
acquired p (Command.bc_release q ∷ rest) = acquired p rest
acquired p (Command.bc_request_death_notification q d ∷ rest) = acquired p rest

unfoldable pub released : ℕ → List Command → ℕ
released p [] = 0
released p (Command.bc_acquire q ∷ rest) = released p rest
released p (Command.bc_release q ∷ rest) = unit_of (q == p) + released p rest
released p (Command.bc_request_death_notification q d ∷ rest) = released p rest

unfoldable pub held : ℕ → List Svcinfo → ℕ
held p [] = 0
held p (si ∷ rest) = unit_of (si.ptr == p) + held p rest

-- The addresses differ, and each name holds one reference on its service.
unfoldable pub IsBalanced : Manager → Type 0
unfolding acquired released held Numbered
IsBalanced m =
    Numbered m.svclist
    × ((p : ℕ) → 0 < p → acquired p m.sent ≡ released p m.sent + held p m.svclist)

some_inj : {x y : Svcinfo} → some x ≡ some y → x ≡ y
some_inj {x = x} e = ap (λ o. elim o [ some z ↦ z | none ↦ x ]) e

-- No service stands at an address that is not in use.
update-absent :
    (id p : ℕ) (l : List Svcinfo) → Numbered l → length l ≤ id → update id (with_ptr p) l ≡ l
unfolding update Numbered
update-absent id p [] h lt = refl
update-absent id p (x ∷ xs) h lt =
    let a = h.0 in
    let other : x.id == id ≡ false = grind arith in
    rw other (ap (λ l. x ∷ l) (update-absent id p xs h.1 (omega arith)))

-- A service that gets another pointer: no other is changed.
held-update :
    (q p id : ℕ) (si : Svcinfo) (l : List Svcinfo)
    → Numbered l
    → by_id id l ≡ some si
    → held q (update id (with_ptr p) l) + unit_of (si.ptr == q) ≡ held q l + unit_of (p == q)
unfolding held update by_id Numbered
held-update q p id si [] h e = absurd (grind arith)
held-update q p id si (x ∷ xs) h e = elim (Bool-cases (x.id == id)) [
  | inl i ↦
      let whole : x ≡ si = some_inj (sym (rw i refl) ∙ e) in
      let same : x.ptr ≡ si.ptr = ap (λ y. y.ptr) whole in
      let gone = update-absent id p xs h.1 (grind arith) in
      rw (i, gone) (omega (arith, ap (λ v. unit_of (v == q)) same))
  | inr i ↦
      rw i (let rest = held-update q p id si xs h.1 (sym (rw i refl) ∙ e) in omega (arith, rest))
]

given :
    (id : ℕ) (si : Svcinfo) (m : Manager)
    → IsBalanced m
    → by_id id m.svclist ≡ some si
    → IsBalanced (give_up id (some si) m)
unfolding give_up IsBalanced acquired released
given id si m h e = elim (Bool-cases (si.ptr == 0)) [
  | inl z ↦ rw z h
  | inr z ↦ rw z (
    update-Numbered id 0 m.svclist h.0,
    λ q lt.
        let a = h.1 q lt in
        let b = held-update q 0 id si m.svclist h.0 e in
        let c : unit_of (0 == q) ≡ 0 = grind arith in omega (arith, a, b, c),
  )
]

-- The death of any service keeps the balance.
pub death-IsBalanced : (id : ℕ) (m : Manager) → IsBalanced m → IsBalanced (svcinfo_death id m)
unfolding svcinfo_death
death-IsBalanced id m h = go (by_id id m.svclist) refl
  where
    go : (o : Option Svcinfo) → by_id id m.svclist ≡ o → IsBalanced (give_up id o m)
    go none e = h
    go (some si) e = given id si m h e

-- The service at an address that has none gets a pointer, with a reference of its own.
abbrev renew : ℕ → ℕ → Manager → Manager
renew p id m = hold p id (record m { svclist = update id (with_ptr p) m.svclist })

renew-IsBalanced :
    (p id : ℕ) (si : Svcinfo) (m : Manager)
    → IsBalanced m
    → by_id id m.svclist ≡ some si
    → si.ptr ≡ 0
    → IsBalanced (renew p id m)
unfolding IsBalanced acquired released
renew-IsBalanced p id si m h e z = (
  update-Numbered id p m.svclist h.0,
  λ q lt.
      let a = h.1 q lt in
      let b = held-update q p id si m.svclist h.0 e in
      let c : unit_of (si.ptr == q) ≡ 0 = grind arith in omega (arith, a, b, c),
)

by_id-update :
    (id p : ℕ) (si : Svcinfo) (l : List Svcinfo)
    → by_id id l ≡ some si
    → by_id id (update id (with_ptr p) l) ≡ some (with_ptr p si)
unfolding by_id update
by_id-update id p si [] e = absurd (grind arith)
by_id-update id p si (x ∷ xs) e = elim (Bool-cases (x.id == id)) [
  | inl i ↦
      let same : x ≡ si = some_inj (sym (rw i refl) ∙ e) in
      rw (i, i) (ap (λ y. some (with_ptr p y)) same)
  | inr i ↦ rw (i, i) (by_id-update id p si xs (sym (rw i refl) ∙ e))
]

-- A new pointer of a service that has none, with a reference of its own.
pub replace-IsBalanced :
    (p : ℕ) (si : Svcinfo) (m : Manager)
    → IsBalanced m
    → by_id si.id m.svclist ≡ some si
    → IsBalanced (replace_svc p si m)
unfolding replace_svc svcinfo_death
replace-IsBalanced p si m h e = rw e (again (Bool-cases (si.ptr == 0)))
  where
    gone : Manager
    gone = record m {
      svclist = update si.id (with_ptr 0) m.svclist;
      sent = Command.bc_release si.ptr ∷ m.sent;
    }

    again :
        (si.ptr == 0 ≡ true) ⊎ (si.ptr == 0 ≡ false)
        → IsBalanced (renew p si.id (give_up si.id (some si) m))
    again (inl z) = rw z (renew-IsBalanced p si.id si m h e (grind arith))
    again (inr z) =
        let left : give_up si.id (some si) m ≡ gone = rw z refl in
        rw z (
          renew-IsBalanced p si.id (with_ptr 0 si) gone
            (subst IsBalanced left (given si.id si m h e)) (by_id-update si.id 0 si m.svclist e)
            refl)

pub register-IsBalanced :
    (s : Option (List ℕ)) (len p : ℕ) (b : Bool) (m m' : Manager)
    → IsBalanced m
    → register_svc p s len m ≡ done (b, m')
    → IsBalanced m'
unfolding register_svc malloc IsBalanced acquired released held Numbered
register-IsBalanced s len p b m m' h e = go m.memory s e
  where
    out : Run (Bool × Manager) → Manager
    out (done r) = r.1
    out fault = m'

    more :
        (q k : ℕ)
        → 0 < q
        → acquired q m.sent ≡ released q m.sent + held q m.svclist
        → k + acquired q m.sent ≡ released q m.sent + (k + held q m.svclist)
    more q k lt a = omega (arith, a)

    go :
        (ms : List Bool) (s : Option (List ℕ))
        → register_svc p s len (record m { memory = ms }) ≡ done (b, m')
        → IsBalanced m'
    go [] none e = absurd (grind arith)
    go [] (some units) e =
        subst IsBalanced (ap out e) ((refl, h.0), λ q lt. more q (unit_of (p == q)) lt (h.1 q lt))
    go (true ∷ ms) none e = absurd (grind arith)
    go (true ∷ ms) (some units) e =
        subst IsBalanced (ap out e) ((refl, h.0), λ q lt. more q (unit_of (p == q)) lt (h.1 q lt))
    go (false ∷ ms) s e = subst IsBalanced (ap out e) h
