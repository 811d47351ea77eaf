-- ===== src/BinderIo/Put.antt =====
-- What the bio_put_ functions of servicemanager/binder.c leave in a buffer that has room.
use android_binder_ipc.Common.{
  ℕ, ◌+◌, ◌-◌, ◌≤◌, ◌≡◌, ◌⊎◌, refl, sym, ap, subst, ◌∙◌, arith, true, false, Option, none, some,
  List, [], ◌∷◌, ◌++◌, length, length-append, ltb, Bool-cases, inl, inr,
}
use mathlib.Core.List.{append_assoc}
use android_binder_ipc.Driver.Bytes.{set_word, bytes_of, type_handle}
use android_binder_ipc.BinderIo.{BinderIo, zeros, round_up, advance, bio_alloc, bio_put_uint32}
use android_binder_ipc.BinderIo.Layout.{set_word-append, zeros-split}

-- The buffer holds these bytes and these offsets, and nothing else.
unfoldable pub Wrote : List ℕ → List ℕ → BinderIo → Type 0
unfolding zeros
Wrote e os b = (b.bytes ≡ e ++ zeros b.data_avail) × (b.at ≡ length e) × (b.offs ≡ os)

word_into :
    (e : List ℕ) (at n v : ℕ)
    → at ≡ length e
    → 4 ≤ n
    → set_word (e ++ zeros n) at v ≡ (e ++ bytes_of (v ∷ [])) ++ zeros (n - 4)
word_into e at n v h l =
    set_word-append e (zeros n) at 0 v (omega arith)
    ∙ ap (λ z. e ++ set_word z 0 v) (zeros-split 4 n l)
    ∙ unfold set_word zeros bytes_of in sym (append_assoc e (bytes_of (v ∷ [])) (zeros (n - 4)))

-- There was room, or the buffer has overflown.
pub alloc_cases :
    (size : ℕ) (b : BinderIo)
    → (bio_alloc size b ≡ (none, record b { overflow = true }))
      ⊎ ((round_up size ≤ b.data_avail)
          × (bio_alloc size b ≡ (some b.at, advance (round_up size) b)))
unfolding bio_alloc
alloc_cases size b = elim (Bool-cases (ltb b.data_avail (round_up size))) [
  | inl e ↦ inl (rw e refl)
  | inr e ↦ inr (grind arith, rw e refl)
]

pub no_room : {A : Type 0} → true ≡ false → A
no_room e = absurd (grind arith)

module _ (n : ℕ) (b : BinderIo) where
  abbrev put_at : Option ℕ × BinderIo → BinderIo
  put_at q = elim q.0 [ none ↦ q.1 | some at ↦ record q.1 { bytes = set_word q.1.bytes at n } ]

  pub put_uint32_lem :
      (bio_put_uint32 n b).overflow ≡ false
      → (4 ≤ b.data_avail)
        × (b.overflow ≡ false)
        × (bio_put_uint32 n b ≡ record (advance 4 b) { bytes = set_word b.bytes b.at n })
  unfolding bio_put_uint32 round_up
  put_uint32_lem h = elim (alloc_cases 4 b) [
    | inl e ↦ no_room (sym (ap (λ q. (put_at q).overflow) e) ∙ h)
    | inr (l, e) ↦ (l, sym (ap (λ q. (put_at q).overflow) e) ∙ h, ap put_at e)
  ]

  pub put_uint32-Wrote :
      (e os : List ℕ)
      → Wrote e os b
      → (bio_put_uint32 n b).overflow ≡ false
      → (b.overflow ≡ false) × Wrote (e ++ bytes_of (n ∷ [])) os (bio_put_uint32 n b)
  unfolding Wrote
  put_uint32-Wrote e os (wb, wa, wo) h =
      let (l, f, q) = put_uint32_lem h in
      (
        f,
        subst (Wrote (e ++ bytes_of (n ∷ [])) os) (sym q) (
          ap (λ z. set_word z b.at n) wb ∙ word_into e b.at b.data_avail n wa l,
          unfold bytes_of in omega (arith, length-append e (bytes_of (n ∷ []))),
          wo,
        ),
      )

-- Four words in a row.
pub object_into :
    (e : List ℕ) (at n ptr : ℕ)
    → at ≡ length e
    → 16 ≤ n
    → set_word
        (set_word (set_word (set_word (e ++ zeros n) (at + 4) 0x17f) at type_handle) (at + 8) ptr)
        (at + 12)
        0
      ≡ (e ++ bytes_of (type_handle ∷ 0x17f ∷ ptr ∷ 0 ∷ [])) ++ zeros (n - 16)
object_into e at n ptr h l =
    ap (λ z. set_word (set_word (set_word z at type_handle) (at + 8) ptr) (at + 12) 0)
      (set_word-append e (zeros n) (at + 4) 4 0x17f (omega arith))
    ∙ ap (λ z. set_word (set_word z (at + 8) ptr) (at + 12) 0)
        (set_word-append e (set_word (zeros n) 4 0x17f) at 0 type_handle (omega arith))
    ∙ ap (λ z. set_word z (at + 12) 0)
        (set_word-append e (set_word (set_word (zeros n) 4 0x17f) 0 type_handle) (at + 8) 8 ptr
          (omega arith))
    ∙ set_word-append e (set_word (set_word (set_word (zeros n) 4 0x17f) 0 type_handle) 8 ptr)
        (at + 12) 12 0 (omega arith)
    ∙ ap (λ z. e ++ set_word (set_word (set_word (set_word z 4 0x17f) 0 type_handle) 8 ptr) 12 0)
        (zeros-split 16 n l)
    ∙ unfold set_word zeros bytes_of in
      sym (append_assoc e (bytes_of (type_handle ∷ 0x17f ∷ ptr ∷ 0 ∷ [])) (zeros (n - 16)))
