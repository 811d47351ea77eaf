-- ===== src/MsgQueue/Tree.antt =====
-- The descents of `rb_queue_exist` and `rb_insert_queue` in module/new/msg_queue.c through the
-- kernel's red-black tree, against the list of the queues in order. Rebalancing (rb_insert_color)
-- is the kernel's: a parameter that keeps the order of the nodes.
use android_binder_ipc.Common.{
  ℕ, ◌<◌, Option, none, some, List, [], ◌∷◌, ◌++◌, ◌≡◌, refl, ap, ◌∙◌, arith, All, All-imp,
  if◌then◌else◌, ltb, Option-cases, inl, inr, dec_lt,
}
use android_binder_ipc.MsgQueue.{Queue, rb_queue_exist, insert}
use android_binder_ipc.MsgQueue.Registry.{Sorted}

pub data Node (M H : Type 0) : Type 0 where
  leaf : Node M H
  node : Node M H → Queue M H → Node M H → Node M H

module _ {M H : Type 0} where
  -- What rb_first and rb_next walk through.
  abbrev pub in_order : Node M H → List (Queue M H)
  in_order leaf = []
  in_order (node l q r) = in_order l ++ q ∷ in_order r

  pub descend : ℕ → Node M H → Option (Queue M H)
  descend id leaf = none
  descend id (node l q r) =
      if ltb id q.id then descend id l else if ltb q.id id then descend id r else some q

  -- The new node takes the place of the leaf that the descent ends at; `none` is `goto retry`.
  pub link : Queue M H → Node M H → Option (Node M H)
  link new leaf = some (node leaf new leaf)
  link new (node l q r) =
      if ltb new.id q.id
      then elim (link new l) [ none ↦ none | some l' ↦ some (node l' q r) ]
      else if ltb q.id new.id
      then elim (link new r) [ none ↦ none | some r' ↦ some (node l q r') ]
      else none

  abbrev Below : ℕ → List (Queue M H) → Type 0
  Below id = All (λ q. q.id < id)

  abbrev Above : ℕ → List (Queue M H) → Type 0
  Above id = All (λ q. id < q.id)

  -- What the order of a node's list says of the lists of its children.
  record Splits (xs : List (Queue M H)) (q : Queue M H) (ys : List (Queue M H)) : Type 0 where
    left : Sorted xs
    below : Below q.id xs
    above : Above q.id ys
    right : Sorted ys

  Above-append :
      (id : ℕ) (xs : List (Queue M H)) (q : Queue M H) (ys : List (Queue M H))
      → Above id (xs ++ q ∷ ys)
      → Above id xs × (id < q.id)
  Above-append id [] q ys h = (tt, h.0)
  Above-append id (x ∷ xs) q ys h =
      let rest = Above-append id xs q ys h.1 in ((h.0, rest.0), rest.1)

  Sorted-Splits :
      (xs : List (Queue M H)) (q : Queue M H) (ys : List (Queue M H))
      → Sorted (xs ++ q ∷ ys)
      → Splits xs q ys
  unfolding Sorted
  Sorted-Splits [] q ys s = record { left = tt; below = tt; above = s.0; right = s.1 }
  Sorted-Splits (x ∷ xs) q ys s =
      let rest = Sorted-Splits xs q ys s.1 in
      let head = Above-append x.id xs q ys s.0 in
      record {
        left = (head.0, rest.left);
        below = (head.1, rest.below);
        above = rest.above;
        right = rest.right;
      }

  exist-Below :
      (id : ℕ) (xs ys : List (Queue M H))
      → Below id xs
      → rb_queue_exist id (xs ++ ys) ≡ rb_queue_exist id ys
  unfolding rb_queue_exist
  exist-Below id [] ys h = refl
  exist-Below id (x ∷ xs) ys h = ground (arith, exist-Below id xs ys h.1)

  exist-Above : (id : ℕ) (ys : List (Queue M H)) → Above id ys → rb_queue_exist id ys ≡ none
  unfolding rb_queue_exist
  exist-Above id [] h = refl
  exist-Above id (y ∷ ys) h = ground (arith, exist-Above id ys h.1)

  exist-left :
      (id : ℕ) (xs ys : List (Queue M H))
      → Above id ys
      → rb_queue_exist id (xs ++ ys) ≡ rb_queue_exist id xs
  unfolding rb_queue_exist
  exist-left id [] ys h = exist-Above id ys h
  exist-left id (x ∷ xs) ys h = ground (arith, exist-left id xs ys h)

  Below-trans : (i j : ℕ) (xs : List (Queue M H)) → i < j → Below i xs → Below j xs
  Below-trans i j xs h = All-imp (λ q. q.id < i) (λ q. q.id < j) xs (λ q p. omega arith)

  Above-trans : (i j : ℕ) (xs : List (Queue M H)) → i < j → Above j xs → Above i xs
  Above-trans i j xs h = All-imp (λ q. j < q.id) (λ q. i < q.id) xs (λ q p. omega arith)

  -- The descent finds in a search tree exactly what stands in its list.
  pub descend-eq-exist :
      (id : ℕ) (t : Node M H) → Sorted (in_order t) → descend id t ≡ rb_queue_exist id (in_order t)
  unfolding descend rb_queue_exist
  descend-eq-exist id leaf s = refl
  descend-eq-exist id (node l q r) s =
      let p = Sorted-Splits (in_order l) q (in_order r) s in
      elim (dec_lt id q.id) [
        | yes lo ↦ ground (
          arith,
          descend-eq-exist id l p.left,
          exist-left id (in_order l) (q ∷ in_order r)
              (lo, Above-trans id q.id (in_order r) lo p.above),
        )
        | no nlo ↦ elim (dec_lt q.id id) [
          | yes hi ↦ ground (
            arith,
            descend-eq-exist id r p.right,
            exist-Below id (in_order l) (q ∷ in_order r)
                (Below-trans q.id id (in_order l) hi p.below),
          )
          | no nhi ↦
              let same : id ≡ q.id = omega arith in
              ground (arith, exist-Below id (in_order l) (q ∷ in_order r) (rw same p.below))
        ]
      ]

  insert-left :
      (new q : Queue M H) (xs ys : List (Queue M H))
      → new.id < q.id
      → insert new (xs ++ q ∷ ys) ≡ insert new xs ++ q ∷ ys
  unfolding insert
  insert-left new q [] ys h = ground arith
  insert-left new q (x ∷ xs) ys h = ground (arith, insert-left new q xs ys h)

  insert-right :
      (new : Queue M H) (xs ys : List (Queue M H))
      → Below new.id xs
      → insert new (xs ++ ys) ≡ xs ++ insert new ys
  unfolding insert
  insert-right new [] ys h = refl
  insert-right new (x ∷ xs) ys h = ground (arith, insert-right new xs ys h.1)

  link-insert :
      (new : Queue M H) (t t' : Node M H)
      → Sorted (in_order t)
      → link new t ≡ some t'
      → in_order t' ≡ insert new (in_order t)
  unfolding link insert
  link-insert new leaf t' s e = ground arith
  link-insert new (node l q r) t' s e =
      let p = Sorted-Splits (in_order l) q (in_order r) s in
      elim (dec_lt new.id q.id) [
        | yes lo ↦ elim (Option-cases (link new l)) [
          | inl fails ↦ ground arith
          | inr (l', linked) ↦
              let same : t' ≡ node l' q r = ground arith in
              rw (same, insert-left new q (in_order l) (in_order r) lo)
                (ap (λ xs. xs ++ (q ∷ in_order r)) (link-insert new l l' p.left linked))
        ]
        | no nlo ↦ elim (Option-cases (link new r)) [
          | inl fails ↦ ground arith
          | inr (r', linked) ↦ elim (dec_lt q.id new.id) [
            | yes hi ↦
                let same : t' ≡ node l q r' = ground arith in
                rw
                  (
                    same,
                    insert-right new (in_order l) (q ∷ in_order r)
                        (Below-trans q.id new.id (in_order l) hi p.below),
                  )
                  (ground (arith, link-insert new r r' p.right linked))
            | no nhi ↦ ground arith
          ]
        ]
      ]

  link-some :
      (new : Queue M H) (t : Node M H)
      → descend new.id t ≡ none
      → (t' : Node M H) × (link new t ≡ some t')
  unfolding link descend
  link-some new leaf e = (node leaf new leaf, refl)
  link-some new (node l q r) e = elim (dec_lt new.id q.id) [
    | yes lo ↦ let (l', linked) = link-some new l (ground arith) in (node l' q r, ground arith)
    | no nlo ↦ elim (dec_lt q.id new.id) [
      | yes hi ↦ let (r', linked) = link-some new r (ground arith) in (node l q r', ground arith)
      | no nhi ↦ absurd (ground arith)
    ]
  ]

  -- In a search tree without the new number, linking in the new node and rebalancing give a tree
  -- whose list is the old one with the queue at its place.
  pub link-color :
      (rb_insert_color : Node M H → Node M H)
      → ((t : Node M H) → in_order (rb_insert_color t) ≡ in_order t)
      → (new : Queue M H) (t : Node M H) → Sorted (in_order t)
      → rb_queue_exist new.id (in_order t) ≡ none
      → (t' : Node M H) × (link new t ≡ some t')
        × (in_order (rb_insert_color t') ≡ insert new (in_order t))
  link-color rb_insert_color keeps new t s free =
      let (t', linked) = link-some new t (descend-eq-exist new.id t s ∙ free) in
      (t', linked, keeps t' ∙ link-insert new t t' s linked)
