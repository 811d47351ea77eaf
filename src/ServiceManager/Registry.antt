-- ===== src/ServiceManager/Registry.antt =====
-- Names and services: what `do_find_service` of servicemanager/service_manager.c finds behind
-- `do_add_service` and `svcinfo_death`.
use android_binder_ipc.Common.{
  ℕ, zero, suc, ◌<◌, ◌≤◌, true, false, ◌&&◌, ◌||◌, Option, none, some, List, [], ◌∷◌, leb, ◌==◌,
  length, take, ◌≡◌, refl, sym, ap, ◌∙◌, arith, Bool-cases, inl, inr, ==-self, subst,
}
use android_binder_ipc.ServiceManager.{
  Svcinfo, Run, done, fault, aid_system, in_allowed, allowed, svc_can_register, same_units,
  find_svc, update, by_id, with_ptr,
}

no_row : (uid : ℕ) (name : List ℕ) → uid == aid_system ≡ false → in_allowed uid name allowed ≡ false
unfolding in_allowed
no_row uid name e = rw e refl

-- A name may be registered exactly by the users 0 and AID_SYSTEM, whatever the name is: the table of
-- names decides nothing.
pub can_register : (uid : ℕ) (s : Option (List ℕ)) → svc_can_register uid s ≡ leb uid 1
unfolding svc_can_register
can_register uid s = elim (Bool-cases (uid == 0 || uid == aid_system)) [
  | inl t ↦ rw t (grind arith)
  | inr t ↦ rw t (table (grind arith) s ∙ grind arith)
]
  where
    table :
        uid == aid_system ≡ false
        → (s : Option (List ℕ))
        → elim s [ none ↦ false | some name ↦ in_allowed uid name allowed ] ≡ false
    table e none = refl
    table e (some name) = no_row uid name e

pub same_units-take : (n : ℕ) (xs : List ℕ) → n ≤ length xs → same_units n xs (take n xs) ≡ true
unfolding same_units
same_units-take zero xs h = refl
same_units-take (suc n) [] h = absurd (omega arith)
same_units-take (suc n) (x ∷ xs) h =
    let rest = same_units-take n xs (omega arith) in let here = ==-self x in grind arith

pub found_inj :
    {x y : Svcinfo} → ◌≡◌ {A = Run (Option Svcinfo)} (done (some x)) (done (some y)) → x ≡ y
found_inj {x = x} e = ap (λ r. elim r [ done o ↦ elim o [ some z ↦ z | none ↦ x ] | fault ↦ x ]) e

-- What is found stays found, with its pointer changed.
pub find-update :
    (units : List ℕ) (len p : ℕ) (l : List Svcinfo) (si : Svcinfo)
    → find_svc (some units) len l ≡ done (some si)
    → find_svc (some units) len (update si.id (with_ptr p) l) ≡ done (some (with_ptr p si))
unfolding find_svc update
find-update units len p [] si e = absurd (grind arith)
find-update units len p (x ∷ xs) si e =
    elim (Bool-cases (len == x.len && same_units len units x.name)) [
      | inl t ↦
          let same : x ≡ si = found_inj (sym (rw t refl) ∙ e) in
          subst
            (λ y.
              find_svc (some units) len (update y.id (with_ptr p) (x ∷ xs))
              ≡ done (some (with_ptr p y)))
            same (rw (==-self x.id, t) refl)
      | inr t ↦ elim (Bool-cases (x.id == si.id)) [
        | inl i ↦ rw (i, t) (find-update units len p xs si (sym (rw t refl) ∙ e))
        | inr i ↦ rw (i, t) (find-update units len p xs si (sym (rw t refl) ∙ e))
      ]
    ]

-- The addresses of the services are all different.
unfoldable pub Numbered : List Svcinfo → Type 0
Numbered [] = Unit
Numbered (si ∷ rest) = (si.id ≡ length rest) × Numbered rest

length-update : (id : ℕ) (p : ℕ) (l : List Svcinfo) → length (update id (with_ptr p) l) ≡ length l
unfolding update
length-update id p [] = refl
length-update id p (x ∷ xs) = elim (Bool-cases (x.id == id)) [
  | inl i ↦ rw i (ap suc (length-update id p xs))
  | inr i ↦ rw i (ap suc (length-update id p xs))
]

pub update-Numbered :
    (id : ℕ) (p : ℕ) (l : List Svcinfo) → Numbered l → Numbered (update id (with_ptr p) l)
unfolding update Numbered
update-Numbered id p [] h = tt
update-Numbered id p (x ∷ xs) h = elim (Bool-cases (x.id == id)) [
  | inl i ↦ rw i (h.0 ∙ sym (length-update id p xs), update-Numbered id p xs h.1)
  | inr i ↦ rw i (h.0 ∙ sym (length-update id p xs), update-Numbered id p xs h.1)
]

-- The service that a name finds is the one at its address.
pub find-by_id :
    (units : List ℕ) (len : ℕ) (l : List Svcinfo) (si : Svcinfo)
    → Numbered l
    → find_svc (some units) len l ≡ done (some si)
    → (by_id si.id l ≡ some si) × (si.id < length l)
unfolding find_svc by_id Numbered
find-by_id units len [] si h e = absurd (grind arith)
find-by_id units len (x ∷ xs) si h e =
    elim (Bool-cases (len == x.len && same_units len units x.name)) [
      | inl t ↦
          let same : x ≡ si = found_inj (sym (rw t refl) ∙ e) in
          subst (λ y. (by_id y.id (x ∷ xs) ≡ some y) × (y.id < length (x ∷ xs))) same
            (rw (==-self x.id) refl, omega (arith, h.0))
      | inr t ↦
          let rest = find-by_id units len xs si h.1 (sym (rw t refl) ∙ e) in
          let other : x.id == si.id ≡ false = let lt = rest.1 in let a = h.0 in grind arith in
          (rw other rest.0, omega (arith, rest.1))
    ]
