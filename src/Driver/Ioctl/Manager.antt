-- ===== src/Driver/Ioctl/Manager.antt =====
-- BINDER_SET_CONTEXT_MGR of module/new/binder.c: who becomes the context manager, and for how long.
use android_binder_ipc.Common.{
  ℕ, ◌+◌, ◌^◌, ◌<◌, Bool, true, false, Option, none, some, List, [], ◌∷◌, ◌≡◌, ◌⊎◌, inl, inr, refl,
  sym, ap, ◌∙◌, subst, arith, ok, err, ebusy, eperm, enomem, if◌then◌else◌, ◌==◌, ==-self,
  Bool-cases,
}
use android_binder_ipc.Common.Int.{pos}
use android_binder_ipc.Driver.World.{World, M, Exit, back, stuck, fail, ◌>>◌, Obj, Proc}
use android_binder_ipc.Driver.Objects.{
  at, keyed, find, modify, binder_find_obj, set_refs, binder_new_obj,
}
use android_binder_ipc.Driver.Objects.Table.{
  IsTable, Stands, Made, some_inj, keyed_self, new_obj_lem,
}
use android_binder_ipc.Driver.Transaction.{context_mgr, target_obj}
use android_binder_ipc.Driver.Ioctl.{claim_uid, set_manager, make_manager, cmd_set_context_mgr}

-- What is found is found as it is after the change, if it then still passes the test.
find-modify :
    (test : Obj → Bool) (f : Obj → Obj) (os : List Obj) (o : Obj)
    → find test os ≡ some o
    → test (f o) ≡ true
    → find test (modify test f os) ≡ some (f o)
unfolding find modify
find-modify test f [] o e t = absurd (grind arith)
find-modify test f (x ∷ xs) o e t = elim (Bool-cases (test x)) [
  | inl h ↦ let same : x ≡ o = some_inj (sym (rw h refl) ∙ e) in rw (h, same, t) refl
  | inr h ↦ rw (h, h) (find-modify test f xs o (sym (rw h refl) ∙ e) t)
]

abbrev claimed : World → World
claimed w = record w { context_mgr_uid = some w.euid }

claim :
    (w : World)
    → (w.context_mgr_uid ≡ none) ⊎ (w.context_mgr_uid ≡ some w.euid)
    → claim_uid w ≡ back (ok tt) (claimed w)
unfolding claim_uid
claim w (inl e) =
    ap
      (λ o. elim o as (λ x. Exit (Unit {0})) [
        | none ↦ back (ok tt) (claimed w)
        | some u ↦ if u == w.euid then back (ok tt) w else back (err eperm) w
      ])
      e
claim w (inr e) =
    ap
      (λ o. elim o as (λ x. Exit (Unit {0})) [
        | none ↦ back (ok tt) (claimed w)
        | some u ↦ if u == w.euid then back (ok tt) w else back (err eperm) w
      ])
      e
    ∙ rw (==-self w.euid) (ap (λ o. back (ok tt) (record w { context_mgr_uid = o })) e)

-- The state behind the new manager, an object that `binder_new_obj` has returned.
abbrev managed : World → Obj → World
managed w o = record w {
  objs = modify (at o) (λ x. record x { refs = pos 100000 }) w.objs;
  context_mgr_obj = some (record { table = o.table; owner = o.owner; binder = o.binder });
}

managed-find :
    (w : World) (o : Obj)
    → Stands o w
    → target_obj 0 (managed w o) ≡ some (record o { refs = pos 100000 })
unfolding target_obj context_mgr Stands binder_find_obj
managed-find w o s =
    find-modify (at o) (λ x. record x { refs = pos 100000 }) w.objs o
      (subst (λ t. find (keyed t o.owner o.binder) w.objs ≡ some o) (sym s.1) s.2)
      (keyed_self o.table o refl)

cmd_lem :
    (w : World) (o : Obj) (w1 : World)
    → w.context_mgr_obj ≡ none
    → (w.context_mgr_uid ≡ none) ⊎ (w.context_mgr_uid ≡ some w.euid)
    → binder_new_obj 0 0 (claimed w) ≡ back (ok (some o)) w1
    → cmd_set_context_mgr w ≡ back (ok tt) (managed w1 o)
unfolding cmd_set_context_mgr make_manager set_refs
cmd_lem w o w1 free who step =
    ap
      (λ m. elim m as (λ x. Exit (Unit {0})) [
        | some p ↦ back (err ebusy) w
        | none ↦ (claim_uid >> make_manager) w
      ])
      free
    ∙ ap
        (λ x. elim x as (λ y. Exit (Unit {0})) [
          | back r w' ↦ elim r [ ok a ↦ make_manager w' | err e ↦ back (err e) w' ]
          | stuck ↦ stuck
        ])
        (claim w who)
    ∙ ap
        (λ x. elim x as (λ y. Exit (Unit {0})) [
          | back r w' ↦ elim r [
            | ok made ↦
                (elim made as (λ y. M (Unit {0})) [
                  | none ↦ fail enomem
                  | some o ↦ set_refs o (pos 100000) >> set_manager o
                ])
                  w'
            | err e ↦ back (err e) w'
          ]
          | stuck ↦ stuck
        ])
        step

-- Where there is no context manager and the user is the first who asks or the one who asked first,
-- in a valid table of objects, with memory and references left, the caller's object at 0 is made the
-- manager: in the state behind the call handle 0 leads to it, with 100000 references, and the same
-- call of any process and user is refused (-EBUSY). (The manager is forgotten when its process
-- releases the driver.)
pub become_manager :
    (w : World) (other : Proc) (euid : ℕ)
    → IsTable w
    → w.proc.obj_seq + 1 < 2 ^ 32
    → w.memory ≡ []
    → w.context_mgr_obj ≡ none
    → (w.context_mgr_uid ≡ none) ⊎ (w.context_mgr_uid ≡ some w.euid)
    → (o : Obj) × (w' : World) × (cmd_set_context_mgr w ≡ back (ok tt) w')
      × (target_obj 0 w' ≡ some o)
      × (o.owner ≡ w.proc.queue)
      × (o.binder ≡ 0)
      × (o.refs ≡ pos 100000)
      × (cmd_set_context_mgr (record w' { proc = other; euid = euid })
          ≡ back (err ebusy) (record w' { proc = other; euid = euid }))
unfolding cmd_set_context_mgr binder_new_obj IsTable Made
become_manager w other euid h lt mem free who =
    let v = claimed w in
    let (r, w1, step, made) = new_obj_lem v w.proc.queue true 0 0 h lt in go r w1 step made
  where
    go :
        (r : Option Obj) (w1 : World)
        → binder_new_obj 0 0 (claimed w) ≡ back (ok r) w1
        → Made (claimed w) w.proc.queue 0 r w1
        → (o : Obj) × (w' : World) × (cmd_set_context_mgr w ≡ back (ok tt) w')
          × (target_obj 0 w' ≡ some o)
          × (o.owner ≡ w.proc.queue)
          × (o.binder ≡ 0)
          × (o.refs ≡ pos 100000)
          × (cmd_set_context_mgr (record w' { proc = other; euid = euid })
              ≡ back (err ebusy) (record w' { proc = other; euid = euid }))
    go none w1 step (ms, full, t) = absurd (let e : false ∷ ms ≡ [] = sym full ∙ mem in grind arith)
    go (some o) w1 step (s, own, key) = (
      record o { refs = pos 100000 },
      managed w1 o,
      cmd_lem w o w1 free who step,
      managed-find w1 o s,
      own,
      key,
      refl,
      refl,
    )
