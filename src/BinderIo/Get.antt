-- ===== src/BinderIo/Get.antt =====
-- What the bio_get_ functions of servicemanager/binder.c read where a value stands.
use android_binder_ipc.Common.{
  ℕ, suc, ◌+◌, ◌*◌, ◌/◌, ◌%◌, ◌^◌, ◌≤◌, ◌<◌, ◌≡◌, ◌≢◌, refl, sym, ap, ap₂, subst, ◌∙◌, arith, true,
  false, Option, none, some, List, [], ◌∷◌, ◌++◌, All, length, length-append, ltb, take, drop, ◌==◌,
  if◌then◌else◌,
}
use mathlib.Core.List.{append_assoc}
use android_binder_ipc.Driver.Bytes.{get_word, bytes_of, IsWord, word_lem, type_handle}
use android_binder_ipc.BinderIo.{
  BinderIo, round_up, advance, bio_get, bio_get_uint32, bio_get_string16, bio_get_obj, bio_get_ref,
  is_offset, units, string_bytes, object_size,
}
use android_binder_ipc.BinderIo.Layout.{get_word-append, get_word-bytes_of, drop-append}
use android_binder_ipc.BinderIo.Items.{IsUnit, text_room}

get_lem :
    (size : ℕ) (b : BinderIo)
    → round_up size ≤ b.data_avail
    → bio_get size b ≡ (some b.at, advance (round_up size) b)
unfolding bio_get
get_lem size b h = rw (room (round_up size) b.data_avail h) refl
  where
    room : (r n : ℕ) → r ≤ n → ltb n r ≡ false
    room r n h = ground arith

module _ (b : BinderIo) (pre rest : List ℕ) (h : b.at ≡ length pre) where
  pub get_uint32_lem :
      (n : ℕ)
      → IsWord n
      → 4 ≤ b.data_avail
      → b.bytes ≡ pre ++ (bytes_of (n ∷ []) ++ rest)
      → bio_get_uint32 b ≡ (n, advance 4 b)
  unfolding bio_get_uint32 round_up
  get_uint32_lem n w l e =
      ap
        (λ q. elim q.0 as (λ o. ℕ × BinderIo) [
          | none ↦ (0, q.1)
          | some at ↦ (get_word q.1.bytes at, q.1)
        ])
        (get_lem 4 b l)
      ∙ ap (λ k. (k, advance 4 b))
          (ap (λ z. get_word z b.at) e
            ∙ get_word-append pre (bytes_of (n ∷ []) ++ rest) b.at 0 (omega arith)
            ∙ get_word-bytes_of n [] rest w)

  pub get_ref_lem :
      (f p c : ℕ)
      → IsWord p
      → 16 ≤ b.data_avail
      → is_offset b.offs_avail b.at b.offs ≡ true
      → b.bytes ≡ pre ++ (bytes_of (type_handle ∷ f ∷ p ∷ c ∷ []) ++ rest)
      → bio_get_ref b ≡ (p, advance 16 b)
  unfolding bio_get_ref bio_get_obj round_up
  get_ref_lem f p c w l o e =
      ap
        (λ d. look (
          if d
          then bio_get object_size b
          else (none, record b { data_avail = 0; overflow = true })))
        o
      ∙ ap look (get_lem 16 b l)
      ∙ ap (λ t. (if t == type_handle then get_word b.bytes (b.at + 8) else 0, advance 16 b)) typed
      ∙ ap (λ k. (k, advance 16 b)) pointed
    where
      look : Option ℕ × BinderIo → ℕ × BinderIo
      look q = elim q.0 as (λ o. ℕ × BinderIo) [
        | none ↦ (0, q.1)
        | some at ↦
            (if get_word q.1.bytes at == type_handle then get_word q.1.bytes (at + 8) else 0, q.1)
      ]

      words : List ℕ
      words = bytes_of (type_handle ∷ f ∷ p ∷ c ∷ []) ++ rest

      typed : get_word b.bytes b.at ≡ type_handle
      typed =
          ap (λ z. get_word z b.at) e
          ∙ get_word-append pre words b.at 0 (omega arith)
          ∙ get_word-bytes_of type_handle (f ∷ p ∷ c ∷ []) rest (omega arith)

      pointed : get_word b.bytes (b.at + 8) ≡ p
      pointed =
          ap (λ z. get_word z (b.at + 8)) e
          ∙ get_word-append pre words (b.at + 8) 8 (omega arith)
          ∙ unfold bytes_of get_word in word_lem p w

-- The units in front of the NUL are those of the string.
pub units-string_bytes :
    (us rest : List ℕ)
    → All IsUnit us
    → (take (length us) (units (string_bytes us ++ rest)) ≡ us)
      × (length us ≤ length (units (string_bytes us ++ rest)))
unfolding units string_bytes
units-string_bytes [] rest h = (refl, omega arith)
units-string_bytes (u ∷ us) rest h =
    let (found, long) = units-string_bytes us rest h.1 in
    subst
      (λ z.
        (take (suc (length us)) (units (z ++ rest)) ≡ u ∷ us)
        × (suc (length us) ≤ length (units (z ++ rest))))
      (sym (counted u h.0.0)) (ap₂ (λ v vs. v ∷ vs) (whole u) found, omega (arith, long))
  where
    counted :
        (v : ℕ)
        → v ≢ 0
        → (if v == 0 then 0 ∷ 0 ∷ [] else v % 256 ∷ v / 256 ∷ string_bytes us)
          ≡ v % 256 ∷ v / 256 ∷ string_bytes us
    counted v n = ground arith

    whole : (v : ℕ) → v % 256 + 256 * (v / 256) ≡ v
    whole v = omega arith

module _ (b : BinderIo) (pre rest : List ℕ) (h : b.at ≡ length pre) where
  pub get_string16_lem :
      (us : List ℕ)
      → All IsUnit us
      → length us < 2 ^ 29
      → 4 + text_room us ≤ b.data_avail
      → b.bytes ≡ pre ++ (bytes_of (length us ∷ []) ++ (string_bytes us ++ rest))
      → bio_get_string16 b
        ≡ (some (units (string_bytes us ++ rest)), length us, advance (text_room us) (advance 4 b))
  unfolding bio_get_string16
  get_string16_lem us hu hl l e =
      ap next
        (get_uint32_lem b pre (string_bytes us ++ rest) h (length us) (omega arith) (omega arith) e)
      ∙ ap (λ k. ends (bio_get k (advance 4 b))) (wraps (length us) hl)
      ∙ ap ends (get_lem ((length us + 1) * 2) (advance 4 b) (omega arith))
      ∙ ap (λ z. (some (units z), length us, advance (text_room us) (advance 4 b))) behind
    where
      wraps : (n : ℕ) → n < 2 ^ 29 → (n + 1) % 2 ^ 32 * 2 % 2 ^ 32 ≡ (n + 1) * 2
      wraps n lt = omega arith

      next : ℕ × BinderIo → Option (List ℕ) × ℕ × BinderIo
      next q =
          let r = bio_get ((q.0 + 1) % 2 ^ 32 * 2 % 2 ^ 32) q.1 in
          elim r.0 as (λ o. Option (List ℕ) × ℕ × BinderIo) [
            | none ↦ (none, q.0, r.1)
            | some at ↦ (some (units (drop at r.1.bytes)), q.0, r.1)
          ]

      ends : Option ℕ × BinderIo → Option (List ℕ) × ℕ × BinderIo
      ends r = elim r.0 as (λ o. Option (List ℕ) × ℕ × BinderIo) [
        | none ↦ (none, length us, r.1)
        | some at ↦ (some (units (drop at r.1.bytes)), length us, r.1)
      ]

      behind : drop (b.at + 4) b.bytes ≡ string_bytes us ++ rest
      behind =
          ap (drop (b.at + 4))
            (e ∙ sym (append_assoc pre (bytes_of (length us ∷ [])) (string_bytes us ++ rest)))
          ∙ drop-append (pre ++ bytes_of (length us ∷ [])) (string_bytes us ++ rest) (b.at + 4)
              (unfold bytes_of in omega (arith, length-append pre (bytes_of (length us ∷ []))))
