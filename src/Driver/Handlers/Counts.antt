-- ===== src/Driver/Handlers/Counts.antt =====
-- The reference counts of a process's own objects in `bcmd_read_acquire` of module/new/binder.c.
use android_binder_ipc.Common.{
  ℕ, true, false, none, some, List, [], ◌∷◌, ◌++◌, ◌≡◌, refl, sym, ap, ◌∙◌, subst, ok,
  if◌then◌else◌, ltb, Bool-cases, inl, inr, ◌⊎◌,
}
use android_binder_ipc.Common.Int.{ℤ, inc, is}
use android_binder_ipc.Driver.World.{
  World, Exit, pure, ◌>>=◌, ◌>>◌, back, Msg, MsgType, Obj, put_user,
}
use android_binder_ipc.Driver.Objects.{
  at, keyed, find, modify, binder_find_obj, binder_find_my_obj, refs_of, set_refs,
}
use android_binder_ipc.Driver.Objects.Table.{IsTable, Stands, found-Stands}
use android_binder_ipc.Driver.Handlers.{code_of, from_afar, count_ref, tell_user, bcmd_read_acquire}

-- An object that its process finds is found where a pointer to it leads.
my_obj-at :
    (w : World) (binder : ℕ) (o : Obj)
    → IsTable w
    → binder_find_my_obj binder w ≡ some o
    → find (at o) w.objs ≡ some o
unfolding binder_find_my_obj binder_find_obj Stands
my_obj-at w binder o h e =
    let (s, own, key) = found-Stands w w.proc.queue binder o h e in
    subst (λ t. find (keyed t o.owner o.binder) w.objs ≡ some o) (sym s.1) s.2

-- What BC_ACQUIRE makes of the state, where the user's buffer can be written.
unfoldable pub counted_up : World → Msg → Obj → World
counted_up w msg o =
    let objs = modify (at o) (λ x. record x { refs = inc o.refs }) w.objs in
    let told = w.out ++ code_of MsgType.br_acquire ∷ msg.binder ∷ msg.cookie ∷ [] in
    record w { objs = objs; out = if is (inc o.refs) 1 then told else w.out }

pub put_known :
    (words : List ℕ) (v : World)
    → v.writable ≡ []
    → put_user words v ≡ back (ok tt) (record v { out = v.out ++ words })
unfolding put_user
put_known words v e =
    ap (λ ms. put_user words (record v { writable = ms })) e
    ∙ ap (λ ms. back (ok tt) (record v { out = v.out ++ words; writable = ms })) (sym e)

count :
    (w : World) (msg : Msg) (o : Obj)
    → find (at o) w.objs ≡ some o
    → w.writable ≡ []
    → from_afar true msg (some o) w
      ≡ back (ok (if is (inc o.refs) 1 then 12 else 0)) (counted_up w msg o)
unfolding from_afar count_ref tell_user counted_up refs_of set_refs put_user
count w msg o there hw = ap after known ∙ told (Bool-cases (is (inc o.refs) 1))
  where
    counted : World
    counted = record w { objs = modify (at o) (λ x. record x { refs = inc o.refs }) w.objs }

    words : List ℕ
    words = code_of MsgType.br_acquire ∷ msg.binder ∷ msg.cookie ∷ []

    known : refs_of o w ≡ back (ok o.refs) w
    known = rw (there, refs_of) refl

    after : Exit ℤ → Exit ℕ
    after x =
        ((λ _. x)
            >>= (λ before.
                set_refs o (inc before)
                >> pure (if is (inc before) 1 then some MsgType.br_acquire else none))
            >>= (λ cmd. tell_user msg cmd))
          w

    told :
        (is (inc o.refs) 1 ≡ true) ⊎ (is (inc o.refs) 1 ≡ false)
        → after (back (ok o.refs) w)
          ≡ back (ok (if is (inc o.refs) 1 then 12 else 0)) (counted_up w msg o)
    told (inl i) = rw i (ap (λ x. ((λ _. x) >> pure 12) counted) (put_known words counted hw))
    told (inr i) = rw i refl

-- BC_ACQUIRE from another process counts the owner's object up, and tells the owner's user
-- (BR_ACQUIRE with the pointer and the cookie of the message, 12 bytes) exactly when the count
-- becomes 1; nothing else changes. The table is valid, the object is there, and there is room for
-- the answer in a buffer that can be written.
pub read_acquire :
    (w : World) (msg : Msg) (size : ℕ) (o : Obj)
    → IsTable w
    → msg.type ≡ MsgType.bc_acquire
    → ltb size 12 ≡ false
    → w.writable ≡ []
    → binder_find_my_obj msg.binder w ≡ some o
    → bcmd_read_acquire msg size w
      ≡ back (ok (if is (inc o.refs) 1 then 12 else 0)) (counted_up w msg o)
unfolding bcmd_read_acquire counted_up
read_acquire w msg size o h ht hs hw e =
    rw (hs, bcmd_read_acquire, ht)
      (ap (λ x. from_afar true msg x w) e ∙ count w msg o (my_obj-at w msg.binder o h e) hw)
