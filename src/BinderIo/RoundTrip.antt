-- ===== src/BinderIo/RoundTrip.antt =====
-- Messages that are put together with the bio_put_ functions of servicemanager/binder.c, sent, and
-- read with the bio_get_ functions.
use android_binder_ipc.Common.{
  ℕ, zero, suc, ◌+◌, ◌*◌, ◌/◌, ◌≡◌, refl, sym, ap, subst, ◌∙◌, arith, true, false, List, [], ◌∷◌,
  ◌++◌, All, length, length-append, take, map, ==-self,
}
use mathlib.Core.List.{append_assoc}
use android_binder_ipc.BinderIo.{BinderIo, zeros, bio_init, bio_init_from_txn, is_offset}
use android_binder_ipc.BinderIo.Items.{
  Item, IsItem, put_items, item_bytes, item_offs, items_bytes, items_offs,
}
use android_binder_ipc.BinderIo.Put.{Wrote}
use android_binder_ipc.BinderIo.PutItems.{items-Wrote}
use android_binder_ipc.BinderIo.GetItems.{kind, get_items, Ready, Marked, Marked-stays, item-Reads}

-- A message whose data and offsets are those that were put into the buffer. In between, the driver
-- rewrites the references of a message (`Driver.Transaction`): that is not in it.
abbrev pub as_message : BinderIo → BinderIo
as_message b = bio_init_from_txn (take b.at b.bytes) b.offs b.at (length b.offs * 4)

All-front : {A : Type 0} (P : A → Type 0) (xs ys : List A) → All P (xs ++ ys) → All P xs × All P ys
All-front P [] ys h = (tt, h)
All-front P (x ∷ xs) ys h = let (a, b) = All-front P xs ys h.1 in ((h.0, a), b)

items_lem :
    (is : List Item) (b : BinderIo) (pre : List ℕ)
    → All IsItem is
    → Ready pre (items_bytes is) b
    → Marked (items_offs (length pre) is) b
    → get_items (map kind is) b ≡ is
unfolding get_items items_bytes items_offs
items_lem [] b pre v r m = refl
items_lem (i ∷ is) b pre v r m =
    let (here, others) =
      All-front (λ o. is_offset b.offs_avail o b.offs ≡ true) (item_offs (length pre) i)
        (items_offs (length pre + length (item_bytes i)) is) (unfold Marked in m) in
    let (b', e, ready, same, count) =
      item-Reads i b pre (items_bytes is) v.0 r (unfold Marked in here) in
    ap (λ q. q.0 ∷ get_items (map kind is) q.1) e
    ∙ ap (λ l. i ∷ l)
        (items_lem is b' (pre ++ item_bytes i) v.1 ready (
          subst (λ n. Marked (items_offs n is) b') (sym (length-append pre (item_bytes i)))
            (Marked-stays (items_offs (length pre + length (item_bytes i)) is) b b' same count
              (unfold Marked in others))))

offset-middle :
    (xs : List ℕ) (y : ℕ) (ys : List ℕ) → is_offset (length (xs ++ y ∷ ys)) y (xs ++ y ∷ ys) ≡ true
unfolding is_offset
offset-middle [] y ys = let own = ==-self y in grind arith
offset-middle (x ∷ xs) y ys = let later = offset-middle xs y ys in grind arith

offsets_lem : (xs ys : List ℕ) → All (λ o. is_offset (length (xs ++ ys)) o (xs ++ ys) ≡ true) ys
offsets_lem xs [] = tt
offsets_lem xs (y ∷ ys) = (
  offset-middle xs y ys,
  subst (λ zs. All (λ o. is_offset (length zs) o zs ≡ true) ys) (append_assoc xs (y ∷ []) ys)
      (offsets_lem (xs ++ y ∷ []) ys),
)

take-append : (xs ys : List ℕ) (n : ℕ) → n ≡ length xs → take n (xs ++ ys) ≡ xs
take-append [] ys zero e = refl
take-append [] ys (suc n) e = absurd (omega arith)
take-append (x ∷ xs) ys zero e = absurd (omega arith)
take-append (x ∷ xs) ys (suc n) e = ap (λ l. x ∷ l) (take-append xs ys n (omega arith))

pub as_message_lem :
    (is : List Item) (b : BinderIo)
    → Wrote (items_bytes is) (items_offs 0 is) b
    → Ready [] (items_bytes is) (as_message b) × Marked (items_offs 0 is) (as_message b)
unfolding Wrote Ready Marked bio_init_from_txn
as_message_lem is b (wb, wa, wo) = (
  (ap (take b.at) wb ∙ take-append (items_bytes is) (zeros b.data_avail) b.at wa, refl, wa),
  subst (λ os. All (λ o. is_offset (length os * 4 / 4) o os ≡ true) (items_offs 0 is)) (sym wo)
      (subst (λ n. All (λ o. is_offset n o (items_offs 0 is) ≡ true) (items_offs 0 is))
        (four (length (items_offs 0 is))) (offsets_lem [] (items_offs 0 is))),
)
  where
    four : (n : ℕ) → n ≡ n * 4 / 4
    four n = omega arith

pub init-Wrote : (maxdata maxoffs : ℕ) → Wrote [] [] (bio_init maxdata maxoffs)
unfolding Wrote bio_init
init-Wrote maxdata maxoffs = (refl, refl, refl)

-- Numbers, references that are not NULL and strings that are put into a new buffer by the bio_put_
-- functions, in any number and order, are read by the bio_get_ functions from a message of the same
-- bytes and offsets, in this order and unchanged, if the buffer has had room for all of them; a string
-- may have any units but 0. What the driver changes in the references of a message on its way is not
-- part of it.
pub get_items-put_items :
    (is : List Item) (maxdata maxoffs : ℕ)
    → All IsItem is
    → (put_items is (bio_init maxdata maxoffs)).overflow ≡ false
    → get_items (map kind is) (as_message (put_items is (bio_init maxdata maxoffs))) ≡ is
get_items-put_items is maxdata maxoffs v h =
    let whole = items-Wrote is (bio_init maxdata maxoffs) [] [] v (init-Wrote maxdata maxoffs) h in
    let (ready, marked) = as_message_lem is (put_items is (bio_init maxdata maxoffs)) whole in
    items_lem is (as_message (put_items is (bio_init maxdata maxoffs))) [] v ready marked
