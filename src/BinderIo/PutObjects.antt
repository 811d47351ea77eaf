-- ===== src/BinderIo/PutObjects.antt =====
-- References and strings that `bio_put_ref` and `bio_put_string16` of servicemanager/binder.c leave in
-- a buffer that has room.
use android_binder_ipc.Common.{
  ℕ, ◌+◌, ◌-◌, ◌*◌, ◌^◌, ◌≤◌, ◌<◌, ◌≡◌, ◌≢◌, ◌⊎◌, refl, sym, ap, subst, ◌∙◌, arith, Bool, true,
  false, Option, none, some, List, [], ◌∷◌, ◌++◌, All, length, length-append, leb, ◌==◌,
  if◌then◌else◌, Bool-cases, inl, inr,
}
use mathlib.Core.List.{append_assoc}
use android_binder_ipc.Driver.Bytes.{set_word, bytes_of, type_handle}
use android_binder_ipc.BinderIo.{
  BinderIo, zeros, round_up, advance, bio_alloc, bio_alloc_obj, bio_put_uint32, bio_put_ref,
  bio_put_string16, put_object, copy_to, string_bytes, object_size,
}
use android_binder_ipc.BinderIo.Layout.{length-zeros, zeros-split, copy_to-append}
use android_binder_ipc.BinderIo.Items.{
  IsUnit, text_room, text_bytes, length-string_bytes, until_nul-units,
}
use android_binder_ipc.BinderIo.Put.{
  Wrote, alloc_cases, no_room, put_uint32_lem, put_uint32-Wrote, object_into,
}

module _ (b : BinderIo) where
  -- The buffer behind an object that found room and an offset.
  abbrev with_object : BinderIo
  with_object = record (advance 16 b) { offs_avail = b.offs_avail - 1; offs = b.offs ++ b.at ∷ [] }

  abbrev obj_at : Option ℕ × BinderIo → Option ℕ × BinderIo
  obj_at q = elim q.0 as (λ o. Option ℕ × BinderIo) [
    | none ↦ (none, record q.1 { overflow = true })
    | some at ↦
        if q.1.offs_avail == 0
        then (none, record q.1 { overflow = true })
        else (some at, record q.1 { offs_avail = q.1.offs_avail - 1; offs = q.1.offs ++ at ∷ [] })
  ]

  alloc_obj_cases :
      ((b' : BinderIo) × (bio_alloc_obj b ≡ (none, record b' { overflow = true })))
      ⊎ ((16 ≤ b.data_avail) × (bio_alloc_obj b ≡ (some b.at, with_object)))
  unfolding bio_alloc_obj round_up
  alloc_obj_cases = elim (alloc_cases 16 b) [
    | inl e ↦ inl (b, ap obj_at e)
    | inr (l, e) ↦ elim (Bool-cases (b.offs_avail == 0)) [
      | inl z ↦ inl (advance 16 b, ap obj_at e ∙ rw z refl)
      | inr z ↦ inr (l, ap obj_at e ∙ rw z refl)
    ]
  ]

  module _ (ptr : ℕ) (named : ptr ≢ 0) where
    abbrev ref_at : Option ℕ × BinderIo → BinderIo
    ref_at q = elim q.0 as (λ o. BinderIo) [
      | none ↦ q.1
      | some at ↦ put_object type_handle ptr at q.1
    ]

    pub put_ref_lem :
        (bio_put_ref ptr b).overflow ≡ false
        → (16 ≤ b.data_avail)
          × (b.overflow ≡ false)
          × (bio_put_ref ptr b ≡ put_object type_handle ptr b.at with_object)
    unfolding bio_put_ref
    put_ref_lem h = go (ptr == 0) refl h
      where
        go :
            (c : Bool)
            → (ptr == 0) ≡ c
            → (ref_at (if c then bio_alloc object_size b else bio_alloc_obj b)).overflow ≡ false
            → (16 ≤ b.data_avail)
              × (b.overflow ≡ false)
              × (ref_at (if c then bio_alloc object_size b else bio_alloc_obj b)
                  ≡ put_object type_handle ptr b.at with_object)
        go true e h' = absurd (named (grind arith))
        go false e h' = elim alloc_obj_cases [
          | inl (b', q) ↦ no_room (sym (ap (λ x. (ref_at x).overflow) q) ∙ h')
          | inr (l, q) ↦ (l, sym (ap (λ x. (ref_at x).overflow) q) ∙ h', ap ref_at q)
        ]

    pub put_ref-Wrote :
        (e os : List ℕ)
        → Wrote e os b
        → (bio_put_ref ptr b).overflow ≡ false
        → (b.overflow ≡ false)
          × Wrote
              (e ++ bytes_of (type_handle ∷ 0x17f ∷ ptr ∷ 0 ∷ []))
              (os ++ length e ∷ [])
              (bio_put_ref ptr b)
    unfolding Wrote
    put_ref-Wrote e os (wb, wa, wo) h =
        let (l, f, q) = put_ref_lem h in
        (
          f,
          subst (Wrote (e ++ bytes_of (type_handle ∷ 0x17f ∷ ptr ∷ 0 ∷ [])) (os ++ length e ∷ []))
              (sym q)
              (
                ap
                      (λ z.
                        set_word
                          (set_word (set_word (set_word z (b.at + 4) 0x17f) b.at type_handle)
                            (b.at + 8) ptr)
                          (b.at + 12) 0)
                      wb
                    ∙ object_into e b.at b.data_avail ptr wa l,
                unfold bytes_of in
                    omega (arith, length-append e (bytes_of (type_handle ∷ 0x17f ∷ ptr ∷ 0 ∷ []))),
                ap (λ x. x ++ b.at ∷ []) wo ∙ ap (λ a. os ++ a ∷ []) wa,
              ),
        )

-- A string and its padding in the place of as many zeros.
text_into :
    (us e : List ℕ) (at n : ℕ)
    → All IsUnit us
    → length us < 2 ^ 29
    → at ≡ length e
    → text_room us ≤ n
    → copy_to (string_bytes us) at (e ++ zeros n) ≡ (e ++ text_bytes us) ++ zeros (n - text_room us)
unfolding text_bytes round_up
text_into us e at n hu hl ha hn =
    let long = length-string_bytes us hu in
    let k = (length us + 1) * 2 in
    ap (λ z. copy_to (string_bytes us) at (e ++ z)) (zeros-split k n (omega arith))
    ∙ copy_to-append (string_bytes us) e (zeros k) (zeros (n - k)) at ha (length-zeros k ∙ sym long)
    ∙ ap (λ z. e ++ (string_bytes us ++ z))
        (zeros-split (text_room us - k) (n - k) (omega arith)
          ∙ ap (λ m. zeros (text_room us - k) ++ zeros m) (omega arith))
    ∙ ap (λ z. e ++ z)
        (sym (append_assoc (string_bytes us) (zeros (text_room us - k)) (zeros (n - text_room us))))
    ∙ sym (append_assoc e (string_bytes us ++ zeros (text_room us - k)) (zeros (n - text_room us)))

pub length-text_bytes :
    (us : List ℕ) → All IsUnit us → length us < 2 ^ 29 → length (text_bytes us) ≡ text_room us
unfolding text_bytes round_up
length-text_bytes us hu hl =
    let k = (length us + 1) * 2 in
    omega (
      arith,
      length-string_bytes us hu,
      length-append (string_bytes us) (zeros (text_room us - k)),
      length-zeros (text_room us - k),
    )

module _ (us : List ℕ) (b : BinderIo) (hu : All IsUnit us) (hl : length us < 2 ^ 29) where
  abbrev text_at : Option ℕ × BinderIo → BinderIo
  text_at q = elim q.0 as (λ o. BinderIo) [
    | none ↦ q.1
    | some at ↦ record q.1 { bytes = copy_to (string_bytes us) at q.1.bytes }
  ]

  put_string16_lem :
      bio_put_string16 (some us) b
      ≡ text_at (bio_alloc ((length us + 1) * 2) (bio_put_uint32 (length us) b))
  unfolding bio_put_string16
  put_string16_lem =
      ap
        (λ n.
          if leb (2 ^ 29) n
          then bio_put_uint32 0xffffffff b
          else text_at (bio_alloc ((n + 1) * 2) (bio_put_uint32 n b)))
        (until_nul-units us hu)
      ∙ ap
          (λ c.
            if c
            then bio_put_uint32 0xffffffff b
            else text_at (bio_alloc ((length us + 1) * 2) (bio_put_uint32 (length us) b)))
          (short (length us) hl)
    where
      short : (n : ℕ) → n < 2 ^ 29 → leb (2 ^ 29) n ≡ false
      short n h = ground arith

  there :
      (e os : List ℕ) (c : BinderIo)
      → text_room us ≤ c.data_avail
      → Wrote (e ++ bytes_of (length us ∷ [])) os c
      → Wrote
          (e ++ (bytes_of (length us ∷ []) ++ text_bytes us))
          os
          (text_at (some c.at, advance (text_room us) c))
  unfolding Wrote
  there e os c l (wb, wa, wo) = (
    ap (copy_to (string_bytes us) c.at) wb
        ∙ text_into us (e ++ bytes_of (length us ∷ [])) c.at c.data_avail hu hl wa l
        ∙ ap (λ z. z ++ zeros (c.data_avail - text_room us))
            (append_assoc e (bytes_of (length us ∷ [])) (text_bytes us)),
    omega (
      arith,
      length-text_bytes us hu hl,
      length-append (e ++ bytes_of (length us ∷ [])) (text_bytes us),
      ap length (append_assoc e (bytes_of (length us ∷ [])) (text_bytes us)),
    ),
    wo,
  )

  pub put_string16_fits : (bio_put_string16 (some us) b).overflow ≡ false → b.overflow ≡ false
  put_string16_fits h = elim (alloc_cases ((length us + 1) * 2) (bio_put_uint32 (length us) b)) [
    | inl q ↦ no_room (sym (ap (λ x. x.overflow) (put_string16_lem ∙ ap text_at q)) ∙ h)
    | inr (l, q) ↦
        let made = put_string16_lem ∙ ap text_at q in
        let r = put_uint32_lem (length us) b (sym (ap (λ x. x.overflow) made) ∙ h) in r.1
  ]

  pub put_string16-Wrote :
      (e os : List ℕ)
      → Wrote e os b
      → (bio_put_string16 (some us) b).overflow ≡ false
      → (b.overflow ≡ false)
        × Wrote
            (e ++ (bytes_of (length us ∷ []) ++ text_bytes us))
            os
            (bio_put_string16 (some us) b)
  put_string16-Wrote e os w h =
      elim (alloc_cases ((length us + 1) * 2) (bio_put_uint32 (length us) b)) [
        | inl q ↦ no_room (sym (ap (λ x. x.overflow) (put_string16_lem ∙ ap text_at q)) ∙ h)
        | inr (l, q) ↦
            let made = put_string16_lem ∙ ap text_at q in
            let (f, w') =
              put_uint32-Wrote (length us) b e os w (sym (ap (λ x. x.overflow) made) ∙ h) in
            (
              f,
              subst (Wrote (e ++ (bytes_of (length us ∷ []) ++ text_bytes us)) os) (sym made)
                  (there e os (bio_put_uint32 (length us) b) l w'),
            )
      ]
