-- ===== src/Driver/Objects/Tree.antt =====
-- The descents of `binder_find_obj` and `_binder_new_obj` in module/new/binder.c through a process's
-- red-black tree by `binder_cmp`, against the search of the list of its objects. Rebalancing
-- (rb_insert_color) is the kernel's.
use android_binder_ipc.Common.{
  ℕ, ◌<◌, ◌^◌, Bool, true, false, Option, none, some, List, [], ◌∷◌, ◌++◌, ◌≡◌, refl, sym, ◌∙◌,
  arith, All, if◌then◌else◌, inl, inr, subst, Bool-cases,
}
use android_binder_ipc.Common.Int.{ℤ, pos, ltb_ℤ}
use android_binder_ipc.Driver.World.{Obj}
use android_binder_ipc.Driver.Objects.{binder_cmp, find, keyed}
use android_binder_ipc.Driver.Objects.Order.{cmp_zero}
use android_binder_ipc.Driver.Objects.Table.{keyed_self}

pub data Node : Type 0 where
  leaf : Node
  node : Node → Obj → Node → Node

abbrev pub in_order : Node → List Obj
in_order leaf = []
in_order (node l q r) = in_order l ++ q ∷ in_order r

abbrev pub compare : ℕ → ℕ → Obj → ℤ
compare owner binder q = binder_cmp owner binder q.owner q.binder

unfoldable pub descend : ℕ → ℕ → Node → Option Obj
descend owner binder leaf = none
descend owner binder (node l q r) =
    let r0 = compare owner binder q in
    if ltb_ℤ r0 (pos 0)
    then descend owner binder l
    else if ltb_ℤ (pos 0) r0
    then descend owner binder r
    else some q

-- The new node takes the place of the leaf that the descent ends at; an object of that key that is
-- there already leaves the tree as it is.
unfoldable pub link : Obj → Node → Node
link o leaf = node leaf o leaf
link o (node l q r) =
    let r0 = compare o.owner o.binder q in
    if ltb_ℤ r0 (pos 0)
    then node (link o l) q r
    else if ltb_ℤ (pos 0) r0
    then node l q (link o r)
    else node l q r

-- A key of two 32-bit words.
pub record IsKey (owner binder : ℕ) : Type 0 where
  pub owner_bound : owner < 2 ^ 32
  pub binder_bound : binder < 2 ^ 32

abbrev pub Keyed : Obj → Type 0
Keyed o = IsKey o.owner o.binder

-- Of two objects of a tree the left one is less, whichever way they are compared.
pub record Precedes (o x : Obj) : Type 0 where
  pub less : ltb_ℤ (compare o.owner o.binder x) (pos 0) ≡ true
  pub more : ltb_ℤ (pos 0) (compare x.owner x.binder o) ≡ true

-- The objects of a list of one table are keyed by words and stand in order, each pair of them.
unfoldable pub Sorted : ℕ → List Obj → Type 0
Sorted table [] = Unit
Sorted table (o ∷ os) = Keyed o × (o.table ≡ table) × All (Precedes o) os × Sorted table os

not_zero : (a : ℤ) → ltb_ℤ a (pos 0) ≡ false → ltb_ℤ (pos 0) a ≡ false → a ≡ pos 0
not_zero a l g = ground arith

-- A comparison that is 0 means the same key.
pub same_key :
    (owner binder : ℕ) (q : Obj)
    → IsKey owner binder
    → Keyed q
    → ltb_ℤ (compare owner binder q) (pos 0) ≡ false
    → ltb_ℤ (pos 0) (compare owner binder q) ≡ false
    → (owner ≡ q.owner) × (binder ≡ q.binder)
same_key owner binder q k h l g =
    (cmp_zero owner binder q.owner q.binder k.owner_bound k.binder_bound h.owner_bound
        h.binder_bound).0
      (not_zero _ l g)

pub self_zero : (o : Obj) → Keyed o → compare o.owner o.binder o ≡ pos 0
self_zero o h =
    (cmp_zero o.owner o.binder o.owner o.binder h.owner_bound h.binder_bound h.owner_bound
        h.binder_bound).1
      (refl, refl)

pub keyed-key :
    (table owner binder : ℕ) (o : Obj)
    → keyed table owner binder o ≡ true
    → (o.owner ≡ owner) × (o.binder ≡ binder)
keyed-key table owner binder o e = (grind arith, grind arith)

-- An object that is found behind one by the comparison is none of its key.
less-other :
    (table owner binder : ℕ) (q : Obj)
    → IsKey owner binder
    → ltb_ℤ (compare owner binder q) (pos 0) ≡ true
    → keyed table owner binder q ≡ false
less-other table owner binder q k e = elim (Bool-cases (keyed table owner binder q)) [
  | inr f ↦ f
  | inl t ↦
      let (a, b) = keyed-key table owner binder q t in
      let z : compare owner binder q ≡ pos 0 =
        (cmp_zero owner binder q.owner q.binder k.owner_bound k.binder_bound (rw a k.owner_bound)
            (rw b k.binder_bound)).1
          (sym a, sym b) in
      absurd (grind arith)
]

more-other :
    (table owner binder : ℕ) (q : Obj)
    → IsKey owner binder
    → ltb_ℤ (pos 0) (compare owner binder q) ≡ true
    → keyed table owner binder q ≡ false
more-other table owner binder q k e = elim (Bool-cases (keyed table owner binder q)) [
  | inr f ↦ f
  | inl t ↦
      let (a, b) = keyed-key table owner binder q t in
      let z : compare owner binder q ≡ pos 0 =
        (cmp_zero owner binder q.owner q.binder k.owner_bound k.binder_bound (rw a k.owner_bound)
            (rw b k.binder_bound)).1
          (sym a, sym b) in
      absurd (grind arith)
]

-- What the order of a node's list says of the lists of its children.
record Splits (table : ℕ) (xs : List Obj) (q : Obj) (ys : List Obj) : Type 0 where
  left : Sorted table xs
  before : All (λ x. Precedes x q) xs
  middle : Keyed q × (q.table ≡ table)
  behind : All (Precedes q) ys
  right : Sorted table ys

All-middle :
    (P : Obj → Type 0) (xs : List Obj) (q : Obj) (ys : List Obj)
    → All P (xs ++ q ∷ ys)
    → All P xs × P q
All-middle P [] q ys h = (tt, h.0)
All-middle P (x ∷ xs) q ys h = let rest = All-middle P xs q ys h.1 in ((h.0, rest.0), rest.1)

Sorted-Splits :
    (table : ℕ) (xs : List Obj) (q : Obj) (ys : List Obj)
    → Sorted table (xs ++ q ∷ ys)
    → Splits table xs q ys
unfolding Sorted
Sorted-Splits table [] q ys s = record {
  left = tt;
  before = tt;
  middle = (s.0, s.1);
  behind = s.2;
  right = s.3;
}
Sorted-Splits table (x ∷ xs) q ys s =
    let rest = Sorted-Splits table xs q ys s.3 in
    let head = All-middle (Precedes x) xs q ys s.2 in
    record {
      left = (s.0, s.1, head.0, rest.left);
      before = (head.1, rest.before);
      middle = rest.middle;
      behind = rest.behind;
      right = rest.right;
    }

find-append_none :
    (test : Obj → Bool) (xs ys : List Obj)
    → All (λ x. test x ≡ false) xs
    → find test (xs ++ ys) ≡ find test ys
unfolding find
find-append_none test [] ys h = refl
find-append_none test (x ∷ xs) ys h = rw (h.0) (find-append_none test xs ys h.1)

find-none : (test : Obj → Bool) (ys : List Obj) → All (λ x. test x ≡ false) ys → find test ys ≡ none
unfolding find
find-none test [] h = refl
find-none test (y ∷ ys) h = rw (h.0) (find-none test ys h.1)

find-append_left :
    (test : Obj → Bool) (xs ys : List Obj)
    → All (λ x. test x ≡ false) ys
    → find test (xs ++ ys) ≡ find test xs
unfolding find
find-append_left test [] ys h = find-none test ys h
find-append_left test (x ∷ xs) ys h = elim (Bool-cases (test x)) [
  | inl t ↦ rw t refl
  | inr f ↦ rw f (find-append_left test xs ys h)
]

-- Nothing on the other side of a node has a key on this side.
before-other :
    (table owner binder : ℕ) (q : Obj) (xs : List Obj)
    → ltb_ℤ (compare owner binder q) (pos 0) ≡ false
    → All (λ x. Precedes x q) xs
    → All (λ x. keyed table owner binder x ≡ false) xs
before-other table owner binder q [] e h = tt
before-other table owner binder q (x ∷ xs) e h = (
  elim (Bool-cases (keyed table owner binder x)) [
    | inr f ↦ f
    | inl t ↦
        let (a, b) = keyed-key table owner binder x t in
        let l : ltb_ℤ (compare owner binder q) (pos 0) ≡ true =
          subst (λ n. ltb_ℤ (compare n binder q) (pos 0) ≡ true) a
            (subst (λ n. ltb_ℤ (compare x.owner n q) (pos 0) ≡ true) b h.0.less) in
        absurd (grind arith)
  ],
  before-other table owner binder q xs e h.1,
)

behind-other :
    (table owner binder : ℕ) (q : Obj) (xs : List Obj)
    → ltb_ℤ (pos 0) (compare owner binder q) ≡ false
    → All (Precedes q) xs
    → All (λ x. keyed table owner binder x ≡ false) xs
behind-other table owner binder q [] e h = tt
behind-other table owner binder q (x ∷ xs) e h = (
  elim (Bool-cases (keyed table owner binder x)) [
    | inr f ↦ f
    | inl t ↦
        let (a, b) = keyed-key table owner binder x t in
        let l : ltb_ℤ (pos 0) (compare owner binder q) ≡ true =
          subst (λ n. ltb_ℤ (pos 0) (compare n binder q) ≡ true) a
            (subst (λ n. ltb_ℤ (pos 0) (compare x.owner n q) ≡ true) b h.0.more) in
        absurd (grind arith)
  ],
  behind-other table owner binder q xs e h.1,
)

-- In a tree whose objects stand in the order of binder_cmp, each pair of them, the descent of
-- binder_find_obj finds for every key of two words what the search of the list of its objects
-- finds, also nothing.
pub descend-eq-find :
    (table owner binder : ℕ) (t : Node)
    → IsKey owner binder
    → Sorted table (in_order t)
    → descend owner binder t ≡ find (keyed table owner binder) (in_order t)
unfolding descend find
descend-eq-find table owner binder leaf k s = refl
descend-eq-find table owner binder (node l q r) k s =
    let p = Sorted-Splits table (in_order l) q (in_order r) s in
    elim (Bool-cases (ltb_ℤ (compare owner binder q) (pos 0))) [
      | inl lo ↦
          let g : ltb_ℤ (pos 0) (compare owner binder q) ≡ false = ground arith in
          rw lo (
            descend-eq-find table owner binder l k p.left
            ∙ sym (
                find-append_left (keyed table owner binder) (in_order l) (q ∷ in_order r) (
                  less-other table owner binder q k lo,
                  behind-other table owner binder q (in_order r) g p.behind,
                )))
      | inr nlo ↦
          let skip =
            find-append_none (keyed table owner binder) (in_order l) (q ∷ in_order r)
              (before-other table owner binder q (in_order l) nlo p.before) in
          elim (Bool-cases (ltb_ℤ (pos 0) (compare owner binder q))) [
            | inl hi ↦
                rw (nlo, hi, skip, more-other table owner binder q k hi)
                  (descend-eq-find table owner binder r k p.right)
            | inr nhi ↦
                let (a, b) = same_key owner binder q k p.middle.0 nlo nhi in
                let same : keyed table owner binder q ≡ true =
                  subst (λ n. keyed table n binder q ≡ true) (sym a)
                    (subst (λ n. keyed table q.owner n q ≡ true) (sym b)
                      (keyed_self table q p.middle.1)) in
                rw (nlo, nhi, skip, same) refl
          ]
    ]
