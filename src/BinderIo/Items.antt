-- ===== src/BinderIo/Items.antt =====
-- Messages of several values, as a client of servicemanager/binder.c puts them together, and the bytes
-- that these come to.
use android_binder_ipc.Common.{
  ℕ, ◌+◌, ◌-◌, ◌*◌, ◌^◌, ◌<◌, ◌≡◌, ◌≢◌, refl, arith, List, [], ◌∷◌, ◌++◌, All, length, some,
}
use android_binder_ipc.Driver.Bytes.{bytes_of, IsWord, type_handle}
use android_binder_ipc.BinderIo.{
  BinderIo, zeros, round_up, string_bytes, until_nul, bio_put_uint32, bio_put_ref, bio_put_string16,
}

pub data Item : Type 0 where
  number handle : ℕ → Item
  text : List ℕ → Item

-- A unit of a string before its NUL.
abbrev pub IsUnit : ℕ → Type 0
IsUnit u = (u ≢ 0) × (u < 2 ^ 16)

-- A handle is not NULL, and a string is not longer than a message may be.
unfoldable pub IsItem : Item → Type 0
IsItem (Item.number n) = IsWord n
IsItem (Item.handle p) = IsWord p × (p ≢ 0)
IsItem (Item.text us) = All IsUnit us × (length us < 2 ^ 29)

unfoldable pub put_item : Item → BinderIo → BinderIo
put_item (Item.number n) = bio_put_uint32 n
put_item (Item.handle p) = bio_put_ref p
put_item (Item.text us) = bio_put_string16 (some us)

unfoldable pub put_items : List Item → BinderIo → BinderIo
unfolding put_item
put_items [] b = b
put_items (i ∷ is) b = put_items is (put_item i b)

-- The bytes that a string takes, with its NUL.
abbrev pub text_room : List ℕ → ℕ
text_room us = round_up ((length us + 1) * 2)

-- A string and what rounds its place up.
unfoldable pub text_bytes : List ℕ → List ℕ
unfolding string_bytes round_up zeros
text_bytes us = string_bytes us ++ zeros (text_room us - (length us + 1) * 2)

unfoldable pub item_bytes : Item → List ℕ
unfolding bytes_of text_bytes
item_bytes (Item.number n) = bytes_of (n ∷ [])
item_bytes (Item.handle p) = bytes_of (type_handle ∷ 0x17f ∷ p ∷ 0 ∷ [])
item_bytes (Item.text us) = bytes_of (length us ∷ []) ++ text_bytes us

-- The offset that a value needs, if it stands at this place.
unfoldable pub item_offs : ℕ → Item → List ℕ
item_offs at (Item.number n) = []
item_offs at (Item.handle p) = at ∷ []
item_offs at (Item.text us) = []

unfoldable pub items_bytes : List Item → List ℕ
unfolding item_bytes
items_bytes [] = []
items_bytes (i ∷ is) = item_bytes i ++ items_bytes is

unfoldable pub items_offs : ℕ → List Item → List ℕ
unfolding item_offs item_bytes
items_offs at [] = []
items_offs at (i ∷ is) = item_offs at i ++ items_offs (at + length (item_bytes i)) is

pub length-string_bytes :
    (us : List ℕ) → All IsUnit us → length (string_bytes us) ≡ (length us + 1) * 2
unfolding string_bytes
length-string_bytes [] h = refl
length-string_bytes (u ∷ us) h = ground (arith, length-string_bytes us h.1)

pub until_nul-units : (us : List ℕ) → All IsUnit us → until_nul us ≡ length us
unfolding until_nul
until_nul-units [] h = refl
until_nul-units (u ∷ us) h = ground (arith, until_nul-units us h.1)
