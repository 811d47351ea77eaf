-- ===== src/BinderIo/GetItems.antt =====
-- Values of a message that the bio_get_ functions of servicemanager/binder.c read one after the other.
use android_binder_ipc.Common.{
  ℕ, ◌+◌, ◌-◌, ◌*◌, ◌^◌, ◌≤◌, ◌<◌, ◌≡◌, refl, sym, ap, subst, ◌∙◌, arith, true, none, some, List,
  [], ◌∷◌, ◌++◌, All, length, length-append, take,
}
use mathlib.Core.List.{append_assoc}
use android_binder_ipc.Driver.Bytes.{bytes_of, type_handle}
use android_binder_ipc.BinderIo.{
  BinderIo, zeros, advance, bio_get_uint32, bio_get_string16, bio_get_ref, is_offset, units,
  string_bytes,
}
use android_binder_ipc.BinderIo.Items.{
  Item, IsItem, IsUnit, text_bytes, text_room, item_bytes, item_offs,
}
use android_binder_ipc.BinderIo.PutObjects.{length-text_bytes}
use android_binder_ipc.BinderIo.Get.{
  get_uint32_lem, get_ref_lem, get_string16_lem, units-string_bytes,
}

-- What kind of value is read next.
pub data Kind : Type 0 where
  a_number a_handle a_text : Kind

unfoldable pub kind : Item → Kind
kind (Item.number n) = Kind.a_number
kind (Item.handle p) = Kind.a_handle
kind (Item.text us) = Kind.a_text

-- A string ends with the units that the message counts.
unfoldable pub get_item : Kind → BinderIo → Item × BinderIo
get_item Kind.a_number b = let (n, b') = bio_get_uint32 b in (Item.number n, b')
get_item Kind.a_handle b = let (p, b') = bio_get_ref b in (Item.handle p, b')
get_item Kind.a_text b =
    let (s, len, b') = bio_get_string16 b in
    (Item.text (elim s as (λ o. List ℕ) [ none ↦ [] | some us ↦ take len us ]), b')

unfoldable pub get_items : List Kind → BinderIo → List Item
unfolding get_item
get_items [] b = []
get_items (k ∷ ks) b = let (i, b') = get_item k b in i ∷ get_items ks b'

-- So much of the message has been read, and the rest is to come.
unfoldable pub Ready : List ℕ → List ℕ → BinderIo → Type 0
Ready pre post b = (b.bytes ≡ pre ++ post) × (b.at ≡ length pre) × (b.data_avail ≡ length post)

-- The message has these offsets.
unfoldable pub Marked : List ℕ → BinderIo → Type 0
Marked os b = All (λ o. is_offset b.offs_avail o b.offs ≡ true) os

-- A part of the message has been read.
Ready-advance :
    (n : ℕ) (pre part post : List ℕ) (b : BinderIo)
    → n ≡ length part
    → Ready pre (part ++ post) b
    → Ready (pre ++ part) post (advance n b)
unfolding Ready
Ready-advance n pre part post b e (rb, ra, rd) = (
  rb ∙ sym (append_assoc pre part post),
  omega (arith, length-append pre part),
  omega (arith, length-append part post),
)

-- The next value is read, and nothing else.
abbrev pub Reads : Item → List ℕ → List ℕ → BinderIo → Type 0
Reads i pre post b =
    (b' : BinderIo) × (get_item (kind i) b ≡ (i, b'))
    × Ready (pre ++ item_bytes i) post b'
    × (b'.offs ≡ b.offs)
    × (b'.offs_avail ≡ b.offs_avail)

text_regroup :
    (us pre post : List ℕ) (k : ℕ)
    → pre ++ ((bytes_of (length us ∷ []) ++ (string_bytes us ++ zeros k)) ++ post)
      ≡ pre ++ (bytes_of (length us ∷ []) ++ (string_bytes us ++ (zeros k ++ post)))
text_regroup us pre post k =
    ap (λ z. pre ++ z)
      (append_assoc (bytes_of (length us ∷ [])) (string_bytes us ++ zeros k) post
        ∙ ap (λ z. bytes_of (length us ∷ []) ++ z) (append_assoc (string_bytes us) (zeros k) post))

text-Ready :
    (us : List ℕ) (b : BinderIo) (pre post : List ℕ)
    → All IsUnit us
    → length us < 2 ^ 29
    → Ready pre ((bytes_of (length us ∷ []) ++ text_bytes us) ++ post) b
    → Ready
        (pre ++ (bytes_of (length us ∷ []) ++ text_bytes us))
        post
        (advance (text_room us) (advance 4 b))
text-Ready us b pre post hu hl r =
    let four = bytes_of (length us ∷ []) in
    subst (λ x. Ready x post (advance (text_room us) (advance 4 b)))
      (append_assoc pre four (text_bytes us))
      (Ready-advance (text_room us) (pre ++ four) (text_bytes us) post (advance 4 b)
        (sym (length-text_bytes us hu hl))
        (Ready-advance 4 pre four (text_bytes us ++ post) b (unfold bytes_of in refl)
          (subst (λ x. Ready pre x b) (append_assoc four (text_bytes us) post) r)))

-- What bio_get_string16 finds: the units of the string, and others behind them.
abbrev pub Found : List ℕ → List ℕ → List ℕ → BinderIo → Type 0
Found us pre post b =
    (xs : List ℕ) × (b' : BinderIo) × (bio_get_string16 b ≡ (some xs, length us, b'))
    × (take (length us) xs ≡ us)
    × (length us ≤ length xs)
    × Ready (pre ++ (bytes_of (length us ∷ []) ++ text_bytes us)) post b'
    × (b'.offs ≡ b.offs)
    × (b'.offs_avail ≡ b.offs_avail)

pub text-Found :
    (us : List ℕ) (b : BinderIo) (pre post : List ℕ)
    → All IsUnit us
    → length us < 2 ^ 29
    → Ready pre ((bytes_of (length us ∷ []) ++ text_bytes us) ++ post) b
    → Found us pre post b
unfolding Ready text_bytes
text-Found us b pre post hu hl r =
    let k = text_room us - (length us + 1) * 2 in
    let long = length-text_bytes us hu hl in
    let (same, enough) = units-string_bytes us (zeros k ++ post) hu in
    (
      units (string_bytes us ++ (zeros k ++ post)),
      advance (text_room us) (advance 4 b),
      get_string16_lem b pre (zeros k ++ post) r.1 us hu hl
          (unfold bytes_of in
            omega
              (arith, r.2, long, length-append (bytes_of (length us ∷ []) ++ text_bytes us) post))
          (r.0 ∙ text_regroup us pre post k),
      same,
      enough,
      text-Ready us b pre post hu hl r,
      refl,
      refl,
    )

text-Reads :
    (us : List ℕ) (b : BinderIo) (pre post : List ℕ)
    → All IsUnit us
    → length us < 2 ^ 29
    → Ready pre ((bytes_of (length us ∷ []) ++ text_bytes us) ++ post) b
    → Reads (Item.text us) pre post b
unfolding item_bytes get_item kind
text-Reads us b pre post hu hl r =
    let (xs, b', e, same, enough, ready, o, n) = text-Found us b pre post hu hl r in
    (
      b',
      ap (λ q. (Item.text (elim q.0 as (λ o. List ℕ) [ none ↦ [] | some ys ↦ take q.1 ys ]), q.2)) e
          ∙ ap (λ z. (Item.text z, b')) same,
      ready,
      o,
      n,
    )

pub number-Reads :
    (n : ℕ) (b : BinderIo) (pre post : List ℕ)
    → IsItem (Item.number n)
    → Ready pre (bytes_of (n ∷ []) ++ post) b
    → Reads (Item.number n) pre post b
unfolding IsItem item_bytes get_item kind Ready bytes_of
number-Reads n b pre post v r = (
  advance 4 b,
  ap (λ q. (Item.number q.0, q.1)) (get_uint32_lem b pre post r.1 n v (omega (arith, r.2)) r.0),
  Ready-advance 4 pre (bytes_of (n ∷ [])) post b refl r,
  refl,
  refl,
)

pub handle-Reads :
    (p : ℕ) (b : BinderIo) (pre post : List ℕ)
    → IsItem (Item.handle p)
    → Ready pre (bytes_of (type_handle ∷ 0x17f ∷ p ∷ 0 ∷ []) ++ post) b
    → is_offset b.offs_avail (length pre) b.offs ≡ true
    → Reads (Item.handle p) pre post b
unfolding IsItem item_bytes get_item kind Ready bytes_of
handle-Reads p b pre post v r m = (
  advance 16 b,
  ap (λ q. (Item.handle q.0, q.1))
      (get_ref_lem b pre post r.1 0x17f p 0 v.0 (omega (arith, r.2))
        (subst (λ a. is_offset b.offs_avail a b.offs ≡ true) (sym r.1) m) r.0),
  Ready-advance 16 pre (bytes_of (type_handle ∷ 0x17f ∷ p ∷ 0 ∷ [])) post b refl r,
  refl,
  refl,
)

pub item-Reads :
    (i : Item) (b : BinderIo) (pre post : List ℕ)
    → IsItem i
    → Ready pre (item_bytes i ++ post) b
    → Marked (item_offs (length pre) i) b
    → Reads i pre post b
unfolding item_bytes item_offs Marked
item-Reads (Item.number n) b pre post v r m = number-Reads n b pre post v r
item-Reads (Item.handle p) b pre post v r m = handle-Reads p b pre post v r m.0
item-Reads (Item.text us) b pre post v r m = unfold IsItem in text-Reads us b pre post v.0 v.1 r

-- The offsets of a message stay as they are while it is read.
pub Marked-stays :
    (os : List ℕ) (b b' : BinderIo)
    → b'.offs ≡ b.offs
    → b'.offs_avail ≡ b.offs_avail
    → Marked os b
    → Marked os b'
unfolding Marked
Marked-stays os b b' e f m =
    subst (λ o. All (λ x. is_offset b'.offs_avail x o ≡ true) os) (sym e)
      (subst (λ a. All (λ x. is_offset a x b.offs ≡ true) os) (sym f) m)
