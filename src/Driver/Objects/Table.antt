-- ===== src/Driver/Objects/Table.antt =====
-- The keys and references of a process's objects in module/new/binder.c: `_binder_new_obj` with
-- `binder_find_obj` and `binder_find_obj_by_ref`.
use android_binder_ipc.Common.{
  ℕ, ◌+◌, ◌%◌, ◌^◌, ◌<◌, Bool, true, false, Option, none, some, List, [], ◌∷◌, ◌≡◌, inl, inr, refl,
  sym, ap, ◌∙◌, arith, if◌then◌else◌, ◌==◌, ==-self, Bool-cases, Option-cases, All, All-imp, subst,
  ap₂,
}
use android_binder_ipc.Driver.World.{World, M, back, Obj, kmalloc}
use android_binder_ipc.Driver.Objects.{
  keyed, referenced, find, binder_find_obj, binder_find_obj_by_ref, new_obj, fresh_obj, link_obj,
}
use android_binder_ipc.Common.{ok}

-- No two objects of a process have the same key or the same reference.
unfoldable pub Apart : Obj → Obj → Type 0
Apart o x = (keyed o.table o.owner o.binder x ≡ false) × (referenced o.table o.ref x ≡ false)

unfoldable pub Distinct : List Obj → Type 0
unfolding Apart
Distinct [] = Unit
Distinct (o ∷ os) = All (Apart o) os × Distinct os

-- The references of the process's objects are less than the next one, and no two objects clash.
unfoldable pub IsTable : World → Type 0
unfolding Distinct
IsTable w = All (λ o. o.table ≡ w.proc.queue → o.ref < w.proc.obj_seq) w.objs × Distinct w.objs

find-none-All :
    (test : Obj → Bool) (os : List Obj) → find test os ≡ none → All (λ x. test x ≡ false) os
unfolding find
find-none-All test [] e = tt
find-none-All test (o ∷ os) e = elim (Bool-cases (test o)) [
  | inl t ↦ absurd (grind arith)
  | inr f ↦ (f, find-none-All test os (sym (rw f refl) ∙ e))
]

pub some_inj {ℓ} : {A : Type ℓ} {x y : A} → some x ≡ some y → x ≡ y
some_inj {x = x} e = ap (λ o. elim o [ some z ↦ z | none ↦ x ]) e

-- What is found has passed the test, and what holds of all members holds of it.
find-some-All :
    (P : Obj → Type 0) (test : Obj → Bool) (os : List Obj) (o : Obj)
    → find test os ≡ some o
    → All P os
    → P o × (test o ≡ true)
unfolding find
find-some-All P test [] o e h = absurd (grind arith)
find-some-All P test (x ∷ xs) o e h = elim (Bool-cases (test x)) [
  | inl t ↦
      let same : x ≡ o = some_inj (sym (rw t refl) ∙ e) in
      (subst P same h.0, subst (λ y. test y ≡ true) same t)
  | inr f ↦ find-some-All P test xs o (sym (rw f refl) ∙ e) h.1
]

keyed-table :
    (table owner binder : ℕ) (o : Obj) → keyed table owner binder o ≡ true → o.table ≡ table
keyed-table table owner binder o e = grind arith

referenced_self : (table : ℕ) (o : Obj) → o.table ≡ table → referenced table o.ref o ≡ true
referenced_self table o e = let a = ==-self o.ref in grind arith

-- An object that is found by its key is found by its reference.
find-by_ref :
    (table owner binder : ℕ) (os : List Obj) (o : Obj)
    → Distinct os
    → find (keyed table owner binder) os ≡ some o
    → find (referenced table o.ref) os ≡ some o
unfolding find Distinct Apart
find-by_ref table owner binder [] o d e = absurd (grind arith)
find-by_ref table owner binder (x ∷ xs) o d e = elim (Bool-cases (keyed table owner binder x)) [
  | inl t ↦
      let same : x ≡ o = some_inj (sym (rw t refl) ∙ e) in
      let own = keyed-table table owner binder x t in
      subst
        (λ y.
          (if referenced table y.ref x then some x else find (referenced table y.ref) xs) ≡ some y)
        same (rw (referenced_self table x own) refl)
  | inr f ↦
      let rest = sym (rw f refl) ∙ e in
      let found = find-some-All (Apart x) (keyed table owner binder) xs o rest d.0 in
      let other : referenced table o.ref x ≡ false =
        let a = found.0.1 in let b = keyed-table table owner binder o found.1 in grind arith in
      rw other (find-by_ref table owner binder xs o d.1 rest)
]

pub keyed_self : (table : ℕ) (o : Obj) → o.table ≡ table → keyed table o.owner o.binder o ≡ true
keyed_self table o e = let a = ==-self o.owner in let b = ==-self o.binder in grind arith

-- The object stands in a valid table, where its key and its reference find it.
unfoldable pub Stands : Obj → World → Type 0
unfolding IsTable binder_find_obj binder_find_obj_by_ref
Stands o w =
    IsTable w
    × (o.table ≡ w.proc.queue)
    × (binder_find_obj o.owner o.binder w ≡ some o)
    × (binder_find_obj_by_ref o.ref w ≡ some o)

Apart-All :
    (o : Obj) (os : List Obj)
    → All (λ x. keyed o.table o.owner o.binder x ≡ false) os
    → All (λ x. x.table ≡ o.table → x.ref < o.ref) os
    → All (Apart o) os
unfolding Apart
Apart-All o [] hk hr = tt
Apart-All o (x ∷ xs) hk hr = ((hk.0, other), Apart-All o xs hk.1 hr.1)
  where
    other : referenced o.table o.ref x ≡ false
    other = elim (Bool-cases (x.table == o.table)) [
      | inl e ↦ let lt = hr.0 (grind arith) in grind arith
      | inr e ↦ grind arith
    ]

link-Stands :
    (w : World) (owner : ℕ) (owner_queue : Bool) (binder cookie : ℕ)
    → IsTable w
    → w.proc.obj_seq + 1 < 2 ^ 32
    → binder_find_obj owner binder w ≡ none
    → (o : Obj) × (w' : World) × (link_obj (fresh_obj w owner owner_queue binder cookie) w
        ≡ back (ok (some o)) w')
      × Stands o w'
      × (o.owner ≡ owner)
      × (o.binder ≡ binder)
unfolding Stands link_obj fresh_obj IsTable Distinct binder_find_obj binder_find_obj_by_ref find
link-Stands w owner owner_queue binder cookie h lt e =
    let o = fresh_obj w owner owner_queue binder cookie in
    let less =
      All-imp (λ x. x.table ≡ w.proc.queue → x.ref < w.proc.obj_seq)
        (λ x. x.table ≡ w.proc.queue → x.ref < (w.proc.obj_seq + 1) % 2 ^ 32) w.objs
        (λ x f t. let b = f t in omega arith) h.0 in
    let apart = Apart-All o w.objs (find-none-All (keyed w.proc.queue owner binder) w.objs e) h.0 in
    (
      o,
      _,
      refl,
      (
        (((λ t. omega arith), less), (apart, h.1)),
        refl,
        rw (keyed_self w.proc.queue o refl) refl,
        rw (referenced_self w.proc.queue o refl) refl,
      ),
      refl,
      refl,
    )

pub found-Stands :
    (w : World) (owner binder : ℕ) (o : Obj)
    → IsTable w
    → binder_find_obj owner binder w ≡ some o
    → Stands o w × (o.owner ≡ owner) × (o.binder ≡ binder)
unfolding Stands IsTable binder_find_obj binder_find_obj_by_ref
found-Stands w owner binder o h e =
    let P : Obj → Type 0 = λ x. x.table ≡ w.proc.queue → x.ref < w.proc.obj_seq in
    let t = (find-some-All P (keyed w.proc.queue owner binder) w.objs o e h.0).1 in
    let own : o.owner ≡ owner = grind arith in
    let key : o.binder ≡ binder = grind arith in
    let again = find-by_ref w.proc.queue owner binder w.objs o h.1 e in
    (
      (
        h,
        keyed-table w.proc.queue owner binder o t,
        ap₂ (λ a b. binder_find_obj a b w) own key ∙ e,
        again,
      ),
      own,
      key,
    )

-- What `_binder_new_obj` returns: NULL only without memory, else the object of the key.
unfoldable pub Made : World → ℕ → ℕ → Option Obj → World → Type 0
unfolding Stands
Made w owner binder none w' = (ms : List Bool) × (w.memory ≡ false ∷ ms) × IsTable w'
Made w owner binder (some o) w' = Stands o w' × (o.owner ≡ owner) × (o.binder ≡ binder)

-- In a valid table, before the last reference is used up, `_binder_new_obj` always comes back: with
-- NULL only if kmalloc has failed, else with an object of that owner and binder, whether made or
-- already there, which its key and its reference find from then on. The table stays valid.
pub new_obj_lem :
    (w : World) (owner : ℕ) (owner_queue : Bool) (binder cookie : ℕ)
    → IsTable w
    → w.proc.obj_seq + 1 < 2 ^ 32
    → (r : Option Obj) × (w' : World) × (new_obj owner owner_queue binder cookie w ≡ back (ok r) w')
      × Made w owner binder r w'
unfolding new_obj Made IsTable binder_find_obj kmalloc
new_obj_lem w owner owner_queue binder cookie h lt = go w.memory
  where
    Result_of : List Bool → List Bool → Type 0
    Result_of before after =
        (r : Option Obj) × (w' : World) × ((elim (binder_find_obj owner binder w)
              as (λ x. M (Option Obj)) [
                | some o ↦ λ v. back (ok (some o)) v
                | none ↦
                    link_obj
                      (fresh_obj (record w { memory = after }) owner owner_queue binder cookie)
              ])
            (record w { memory = after })
          ≡ back (ok r) w')
        × Made (record w { memory = before }) owner binder r w'

    there : (before after : List Bool) → Result_of before after
    there before after =
        let v = record w { memory = after } in
        elim (Option-cases (binder_find_obj owner binder w)) [
          | inl e ↦
              let (o, w', step, s, own, key) =
                link-Stands v owner owner_queue binder cookie h lt e in
              (some o, w', rw e step, (s, own, key))
          | inr (o, e) ↦ (some o, v, rw e refl, found-Stands v owner binder o h e)
        ]

    go :
        (ms : List Bool)
        → (r : Option Obj) × (w' : World) × (new_obj owner owner_queue binder cookie
              (record w { memory = ms })
            ≡ back (ok r) w')
          × Made (record w { memory = ms }) owner binder r w'
    go [] = there [] []
    go (true ∷ ms) = there (true ∷ ms) ms
    go (false ∷ ms) = (none, record w { memory = ms }, refl, (ms, refl, h))
