-- ===== src/Driver/Objects/Link.antt =====
-- `_binder_new_obj` of module/new/binder.c on the process's tree: the object that it links in is
-- found by the descent of `binder_find_obj`.
use android_binder_ipc.Common.{
  ℕ, ◌+◌, ◌<◌, ◌^◌, Bool, true, false, Option, none, some, List, [], ◌∷◌, ◌≡◌, refl, sym, ◌∙◌,
  arith, inl, inr, subst, ap₂, Option-cases, Bool-cases, ok,
}
use android_binder_ipc.Common.Int.{pos, ltb_ℤ}
use android_binder_ipc.Driver.World.{World, Obj, M, back, pure, kmalloc}
use android_binder_ipc.Driver.Objects.{find, keyed, binder_find_obj, new_obj, link_obj, fresh_obj}
use android_binder_ipc.Driver.Objects.Tree.{
  Node, leaf, node, compare, descend, link, IsKey, Keyed, same_key, self_zero, keyed-key,
}
use android_binder_ipc.Driver.Objects.Table.{IsTable, Made, keyed_self, new_obj_lem}

-- The object that is linked in is what its key finds, unless an object of that key was there.
descend-link_same :
    (o : Obj) (t : Node)
    → Keyed o
    → descend o.owner o.binder t ≡ none
    → descend o.owner o.binder (link o t) ≡ some o
unfolding descend link
descend-link_same o leaf h e = rw (self_zero o h) refl
descend-link_same o (node l q r) h e =
    elim (Bool-cases (ltb_ℤ (compare o.owner o.binder q) (pos 0))) [
      | inl lo ↦ rw (lo, lo) (descend-link_same o l h (sym (rw lo refl) ∙ e))
      | inr nlo ↦ elim (Bool-cases (ltb_ℤ (pos 0) (compare o.owner o.binder q))) [
        | inl hi ↦ rw (nlo, hi, nlo, hi) (descend-link_same o r h (sym (rw (nlo, hi) refl) ∙ e))
        | inr nhi ↦ absurd (ground arith)
      ]
    ]

-- Any other key finds what it has found.
descend-link_other :
    (table owner binder : ℕ) (o : Obj) (t : Node)
    → IsKey owner binder
    → Keyed o
    → o.table ≡ table
    → keyed table owner binder o ≡ false
    → descend owner binder (link o t) ≡ descend owner binder t
unfolding descend link
descend-link_other table owner binder o leaf k h own e =
    elim (Bool-cases (ltb_ℤ (compare owner binder o) (pos 0))) [
      | inl lo ↦ rw lo refl
      | inr nlo ↦ elim (Bool-cases (ltb_ℤ (pos 0) (compare owner binder o))) [
        | inl hi ↦ rw (nlo, hi) refl
        | inr nhi ↦
            let (a, b) = same_key owner binder o k h nlo nhi in
            let same : keyed table owner binder o ≡ true =
              subst (λ n. keyed table n binder o ≡ true) (sym a)
                (subst (λ n. keyed table o.owner n o ≡ true) (sym b) (keyed_self table o own)) in
            absurd (grind arith)
      ]
    ]
descend-link_other table owner binder o (node l q r) k h own e =
    let left = descend-link_other table owner binder o l k h own e in
    let right = descend-link_other table owner binder o r k h own e in
    elim (Bool-cases (ltb_ℤ (compare o.owner o.binder q) (pos 0))) [
      | inl lo ↦ rw lo (rw left refl)
      | inr nlo ↦ elim (Bool-cases (ltb_ℤ (pos 0) (compare o.owner o.binder q))) [
        | inl hi ↦ rw (nlo, hi) (rw right refl)
        | inr nhi ↦ rw (nlo, nhi) refl
      ]
    ]

-- The descent finds for every key of two words what the search of the process's objects finds.
pub record Reads (t : Node) (w : World) : Type 0 where
  pub agree :
      (owner binder : ℕ)
      → IsKey owner binder
      → descend owner binder t ≡ binder_find_obj owner binder w

-- The objects behind `_binder_new_obj`, and its tree: as before, or with the new object linked in.
pub data Grown (w w' : World) (t : Node) : Option Obj → Node → Type 0 where
  kept : (r : Option Obj) → w'.objs ≡ w.objs → w'.proc.queue ≡ w.proc.queue → Grown w w' t r t
  added :
      (o : Obj)
      → w'.objs ≡ o ∷ w.objs
      → w'.proc.queue ≡ w.proc.queue
      → o.table ≡ w.proc.queue
      → binder_find_obj o.owner o.binder w ≡ none
      → Grown w w' t (some o) (link o t)

new_obj-Grown :
    (w w' : World) (owner : ℕ) (owner_queue : Bool) (binder cookie : ℕ) (r : Option Obj) (t : Node)
    → new_obj owner owner_queue binder cookie w ≡ back (ok r) w'
    → (t' : Node) × Grown w w' t r t'
unfolding new_obj kmalloc link_obj fresh_obj
new_obj-Grown w w' owner owner_queue binder cookie r t e = go w.memory refl
  where
    there :
        (ms : List Bool)
        → (elim (binder_find_obj owner binder w) as (λ x. M (Option Obj)) [
          | some o ↦ pure (some o)
          | none ↦ link_obj (fresh_obj (record w { memory = ms }) owner owner_queue binder cookie)
        ])
            (record w { memory = ms })
          ≡ back (ok r) w'
        → (t' : Node) × Grown w w' t r t'
    there ms e' = elim (Option-cases (binder_find_obj owner binder w)) [
      | inl free ↦
          let o = fresh_obj (record w { memory = ms }) owner owner_queue binder cookie in
          let e2 : link_obj o (record w { memory = ms }) ≡ back (ok r) w' = rw free at e' in
          let made : r ≡ some o = ground arith in
          (
            link o t,
            subst (λ x. Grown w w' t x (link o t)) (sym made)
                (added o (ground arith) (ground arith) refl free),
          )
      | inr (o, found) ↦ (t, kept r (ground arith) (ground arith))
    ]

    go : (ms : List Bool) → w.memory ≡ ms → (t' : Node) × Grown w w' t r t'
    go [] m = there [] (rw m at e)
    go (true ∷ ms) m = there ms (rw m at e)
    go (false ∷ ms) m = (t, kept r (ground arith) (ground arith))

Reads-Grown :
    (w w' : World) (t t' : Node) (owner binder : ℕ) (r : Option Obj)
    → IsKey owner binder
    → Made w owner binder r w'
    → Reads t w
    → Grown w w' t r t'
    → Reads t' w'
unfolding binder_find_obj find Made
Reads-Grown w w' t t' owner binder r key m v (kept x objs queue) = record {
  agree = λ a b k. v.agree a b k ∙ ap₂ (λ q os. find (keyed q a b) os) (sym queue) (sym objs);
}
Reads-Grown w w' tree t' owner binder r key m v (added o objs queue own free) = record {
  agree = λ a b k.
      let h : Keyed o = record {
        owner_bound = rw (m.1) (key.owner_bound);
        binder_bound = rw (m.2) (key.binder_bound);
      } in
      let found = descend-link_same o tree h (v.agree o.owner o.binder h ∙ free) in
      let step : descend a b (link o tree) ≡ find (keyed w.proc.queue a b) (o ∷ w.objs) =
        elim (Bool-cases (keyed w.proc.queue a b o)) [
          | inl e ↦
              let (x, y) = keyed-key w.proc.queue a b o e in
              rw e (
                subst (λ n. descend n b (link o tree) ≡ some o) x
                  (subst (λ n. descend o.owner n (link o tree) ≡ some o) y found))
          | inr e ↦ rw e (descend-link_other w.proc.queue a b o tree k h own e ∙ v.agree a b k)
        ] in
      step ∙ ap₂ (λ q os. find (keyed q a b) os) (sym queue) (sym objs);
}

-- In a valid table, before the last reference is used up, for a key of two words, and while the
-- descent through the process's tree finds what stands among its objects (descend-eq-find says when):
-- `_binder_new_obj` always comes back, with NULL only if kmalloc has failed, else with an object of
-- that owner and binder, whether linked in at the leaf that the descent ends at or already there,
-- which its key and its reference find in the state behind it. The table stays valid, and the
-- descent through the tree with the new node, before it is rebalanced, finds what stands among the
-- objects, so also the new one.
pub new_obj_found :
    (w : World) (owner : ℕ) (owner_queue : Bool) (binder cookie : ℕ) (t : Node)
    → IsTable w
    → w.proc.obj_seq + 1 < 2 ^ 32
    → IsKey owner binder
    → Reads t w
    → (r : Option Obj) × (w' : World) × (t' : Node) × (new_obj owner owner_queue binder cookie w
        ≡ back (ok r) w')
      × Made w owner binder r w'
      × Grown w w' t r t'
      × Reads t' w'
new_obj_found w owner owner_queue binder cookie t h lt key v =
    let (r, w', step, made) = new_obj_lem w owner owner_queue binder cookie h lt in
    let (t', grown) = new_obj-Grown w w' owner owner_queue binder cookie r t step in
    (r, w', t', step, made, grown, Reads-Grown w w' t t' owner binder r key made v grown)
