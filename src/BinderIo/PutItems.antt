-- ===== src/BinderIo/PutItems.antt =====
-- Messages of several values that the bio_put_ functions of servicemanager/binder.c put together.
use android_binder_ipc.Common.{
  ℕ, ◌+◌, ◌≡◌, sym, ap, subst, ◌∙◌, false, List, [], ◌∷◌, ◌++◌, All, length, length-append,
}
use mathlib.Core.List.{append_assoc, append-nil}
use android_binder_ipc.Driver.Bytes.{bytes_of}
use android_binder_ipc.BinderIo.{BinderIo}
use android_binder_ipc.BinderIo.Items.{
  Item, IsItem, put_item, put_items, text_bytes, item_bytes, item_offs, items_bytes, items_offs,
}
use android_binder_ipc.BinderIo.Put.{Wrote, put_uint32_lem, put_uint32-Wrote}
use android_binder_ipc.BinderIo.PutObjects.{
  put_ref_lem, put_string16_fits, put_ref-Wrote, put_string16-Wrote,
}

item-Wrote :
    (i : Item) (b : BinderIo) (e os : List ℕ)
    → IsItem i
    → Wrote e os b
    → (put_item i b).overflow ≡ false
    → Wrote (e ++ item_bytes i) (os ++ item_offs (length e) i) (put_item i b)
unfolding IsItem put_item item_bytes item_offs
item-Wrote (Item.number n) b e os v w h =
    subst (λ x. Wrote (e ++ bytes_of (n ∷ [])) x (put_item (Item.number n) b)) (sym (append-nil os))
      (put_uint32-Wrote n b e os w h).1
item-Wrote (Item.handle p) b e os v w h = (put_ref-Wrote b p v.1 e os w h).1
item-Wrote (Item.text us) b e os v w h =
    subst
      (λ x. Wrote (e ++ (bytes_of (length us ∷ []) ++ text_bytes us)) x (put_item (Item.text us) b))
      (sym (append-nil os)) (put_string16-Wrote us b v.0 v.1 e os w h).1

item_fits :
    (i : Item) (b : BinderIo) → IsItem i → (put_item i b).overflow ≡ false → b.overflow ≡ false
unfolding IsItem put_item
item_fits (Item.number n) b v h = (put_uint32_lem n b h).1
item_fits (Item.handle p) b v h = (put_ref_lem b p v.1 h).1
item_fits (Item.text us) b v h = put_string16_fits us b v.0 v.1 h

items_fit :
    (is : List Item) (b : BinderIo)
    → All IsItem is
    → (put_items is b).overflow ≡ false
    → b.overflow ≡ false
unfolding put_items
items_fit [] b v h = h
items_fit (i ∷ is) b v h = item_fits i b v.0 (items_fit is (put_item i b) v.1 h)

-- A buffer that holds some values gets others behind them.
pub items-Wrote :
    (is : List Item) (b : BinderIo) (e os : List ℕ)
    → All IsItem is
    → Wrote e os b
    → (put_items is b).overflow ≡ false
    → Wrote (e ++ items_bytes is) (os ++ items_offs (length e) is) (put_items is b)
unfolding put_items items_bytes items_offs
items-Wrote [] b e os v w h =
    subst (λ x. Wrote x (os ++ []) b) (sym (append-nil e))
      (subst (λ x. Wrote e x b) (sym (append-nil os)) w)
items-Wrote (i ∷ is) b e os v w h =
    let first = item-Wrote i b e os v.0 w (items_fit is (put_item i b) v.1 h) in
    let rest =
      items-Wrote is (put_item i b) (e ++ item_bytes i) (os ++ item_offs (length e) i) v.1 first
        h in
    subst
      (λ x.
        Wrote x (os ++ (item_offs (length e) i ++ items_offs (length e + length (item_bytes i)) is))
          (put_items is (put_item i b)))
      (append_assoc e (item_bytes i) (items_bytes is))
      (subst (λ x. Wrote ((e ++ item_bytes i) ++ items_bytes is) x (put_items is (put_item i b)))
        (append_assoc os (item_offs (length e) i) (items_offs (length (e ++ item_bytes i)) is)
          ∙ ap (λ n. os ++ (item_offs (length e) i ++ items_offs n is))
              (length-append e (item_bytes i)))
        rest)
