-- ===== src/BinderIo/Layout.antt =====
-- What stands behind a prefix of a buffer of servicemanager/binder.c, read and written.
use android_binder_ipc.Common.{
  ℕ, zero, suc, ◌+◌, ◌-◌, ◌/◌, ◌%◌, ◌≤◌, ◌≡◌, refl, sym, ap, ◌∙◌, arith, List, [], ◌∷◌, ◌++◌,
  length, length-append, drop, set, get_or,
}
use mathlib.Core.List.{append_assoc}
use android_binder_ipc.Driver.Bytes.{get_word, set_word, bytes_of, IsWord, word_lem}
use android_binder_ipc.BinderIo.{zeros, copy_to}

pub set-append :
    (e xs : List ℕ) (at i v : ℕ) → at ≡ length e + i → set (e ++ xs) at v ≡ e ++ set xs i v
set-append [] xs at i v h = ap (λ k. set xs k v) (omega arith)
set-append (x ∷ e) xs zero i v h = absurd (omega arith)
set-append (x ∷ e) xs (suc at) i v h = ap (λ l. x ∷ l) (set-append e xs at i v (omega arith))

pub get_or-append :
    (e xs : List ℕ) (at i d : ℕ) → at ≡ length e + i → get_or (e ++ xs) at d ≡ get_or xs i d
get_or-append [] xs at i d h = ap (λ k. get_or xs k d) (omega arith)
get_or-append (x ∷ e) xs zero i d h = absurd (omega arith)
get_or-append (x ∷ e) xs (suc at) i d h = get_or-append e xs at i d (omega arith)

pub drop-append : (e xs : List ℕ) (at : ℕ) → at ≡ length e → drop at (e ++ xs) ≡ xs
drop-append [] xs zero h = refl
drop-append [] xs (suc at) h = absurd (omega arith)
drop-append (x ∷ e) xs zero h = absurd (omega arith)
drop-append (x ∷ e) xs (suc at) h = drop-append e xs at (omega arith)

pub get_word-append :
    (e xs : List ℕ) (at i : ℕ) → at ≡ length e + i → get_word (e ++ xs) at ≡ get_word xs i
unfolding get_word
get_word-append e xs at i h = omega (
  arith,
  get_or-append e xs at i 0 h,
  get_or-append e xs (at + 1) (i + 1) 0 (omega arith),
  get_or-append e xs (at + 2) (i + 2) 0 (omega arith),
  get_or-append e xs (at + 3) (i + 3) 0 (omega arith),
)

pub set_word-append :
    (e xs : List ℕ) (at i v : ℕ)
    → at ≡ length e + i
    → set_word (e ++ xs) at v ≡ e ++ set_word xs i v
unfolding set_word
set_word-append e xs at i v h =
    rw
      (
        set-append e xs at i (v % 256) h,
        set-append e (set xs i (v % 256)) (at + 1) (i + 1) (v / 256 % 256) (omega arith),
        set-append e (set (set xs i (v % 256)) (i + 1) (v / 256 % 256)) (at + 2) (i + 2)
            (v / 65536 % 256) (omega arith),
        set-append e
            (set (set (set xs i (v % 256)) (i + 1) (v / 256 % 256)) (i + 2) (v / 65536 % 256))
            (at + 3) (i + 3) (v / 16777216 % 256) (omega arith),
      )
      refl

-- The first word is what was written there.
pub get_word-bytes_of :
    (w : ℕ) (ws xs : List ℕ) → IsWord w → get_word (bytes_of (w ∷ ws) ++ xs) 0 ≡ w
unfolding get_word bytes_of
get_word-bytes_of w ws xs h = word_lem w h

pub length-zeros : (n : ℕ) → length (zeros n) ≡ n
unfolding zeros
length-zeros zero = refl
length-zeros (suc n) = ap suc (length-zeros n)

pub zeros-split : (k n : ℕ) → k ≤ n → zeros n ≡ zeros k ++ zeros (n - k)
unfolding zeros
zeros-split zero n h = ap zeros (omega arith)
zeros-split (suc k) zero h = absurd (omega arith)
zeros-split (suc k) (suc n) h =
    ap (λ l. 0 ∷ l) (zeros-split k n (omega arith) ∙ ap (λ m. zeros k ++ zeros m) (omega arith))

-- Bytes that are copied take the place of as many others.
pub copy_to-append :
    (ys e zs rest : List ℕ) (at : ℕ)
    → at ≡ length e
    → length zs ≡ length ys
    → copy_to ys at (e ++ (zs ++ rest)) ≡ e ++ (ys ++ rest)
unfolding copy_to
copy_to-append [] e [] rest at h l = refl
copy_to-append [] e (z ∷ zs) rest at h l = absurd (omega arith)
copy_to-append (y ∷ ys) e [] rest at h l = absurd (omega arith)
copy_to-append (y ∷ ys) e (z ∷ zs) rest at h l =
    ap (copy_to ys (at + 1)) (
      set-append e (z ∷ (zs ++ rest)) at 0 y (omega arith)
      ∙ sym (append_assoc e (y ∷ []) (zs ++ rest)))
    ∙ copy_to-append ys (e ++ y ∷ []) zs rest (at + 1) (omega (arith, length-append e (y ∷ [])))
        (omega arith)
    ∙ append_assoc e (y ∷ []) (ys ++ rest)
