-- ===== src/Driver/Objects/Order.antt =====
-- The order in which `binder_cmp` of module/new/binder.c keeps the objects of a process in its tree.
use android_binder_ipc.Common.{
  ℕ, ◌+◌, ◌-◌, ◌%◌, ◌^◌, ◌<◌, ◌≤◌, true, false, ◌&&◌, ◌||◌, ◌≡◌, ◌⊎◌, inl, inr, sym, ap, ◌∙◌, arith,
  ltb, ◌==◌, Bool-cases, ◌↔◌, subst,
}
use android_binder_ipc.Common.Int.{pos, negsuc, is, ltb_ℤ}
use android_binder_ipc.Driver.Objects.{sign, binder_cmp}

sign_self : (a : ℕ) → a < 2 ^ 32 → sign a a ≡ pos 0
unfolding sign
sign_self a h = grind arith

sign_zero : (a b : ℕ) → a < 2 ^ 32 → b < 2 ^ 32 → is (sign a b) 0 ≡ true → a ≡ b
unfolding sign
sign_zero a b ha hb e = grind arith

-- Within half of the number range the sign says which word is less.
sign_less :
    (base a b : ℕ)
    → base ≤ a × a < base + 2 ^ 31
    → base ≤ b × b < base + 2 ^ 31
    → ltb_ℤ (sign a b) (pos 0) ≡ ltb a b
unfolding sign
sign_less base a b ha hb = grind arith

-- A word is less than another that stands ahead of it by less than half of the number range.
step :
    (a b : ℕ)
    → a < 2 ^ 32
    → b < 2 ^ 32
    → (b + 2 ^ 32 - a) % 2 ^ 32 ≡ 0x60000000 ⊎ (b + 2 ^ 32 - a) % 2 ^ 32 ≡ 0x40000000
    → sign a b ≡ negsuc 0
unfolding sign
step a b ha hb h = elim h [ inl e ↦ grind arith | inr e ↦ grind arith ]

-- The comparison of two keys of 32-bit words is 0 exactly if both words are the same.
pub cmp_zero :
    (o0 b0 o1 b1 : ℕ)
    → o0 < 2 ^ 32
    → b0 < 2 ^ 32
    → o1 < 2 ^ 32
    → b1 < 2 ^ 32
    → binder_cmp o0 b0 o1 b1 ≡ pos 0 ↔ (o0 ≡ o1) × (b0 ≡ b1)
unfolding binder_cmp
cmp_zero o0 b0 o1 b1 ho0 hb0 ho1 hb1 = (
  λ e. elim (Bool-cases (is (sign o0 o1) 0)) [
    | inl t ↦ (sign_zero o0 o1 ho0 ho1 t, sign_zero b0 b1 hb0 hb1 (grind arith))
    | inr f ↦ absurd (grind arith)
  ],
  λ e. rw (sym e.0, sym e.1, sign_self o0 ho0) (sign_self b0 hb0),
)

-- Keys whose words lie in one half of the number range, each kind in its own, are compared as pairs
-- of numbers: by the owner first.
pub cmp_less :
    (ownerbase binderbase o0 b0 o1 b1 : ℕ)
    → ownerbase ≤ o0 × o0 < ownerbase + 2 ^ 31
    → ownerbase ≤ o1 × o1 < ownerbase + 2 ^ 31
    → binderbase ≤ b0 × b0 < binderbase + 2 ^ 31
    → binderbase ≤ b1 × b1 < binderbase + 2 ^ 31
    → o0 < 2 ^ 32 × o1 < 2 ^ 32
    → ltb_ℤ (binder_cmp o0 b0 o1 b1) (pos 0) ≡ (ltb o0 o1 || o0 == o1 && ltb b0 b1)
unfolding binder_cmp
cmp_less c d o0 b0 o1 b1 ho0 ho1 hb0 hb1 w = elim (Bool-cases (is (sign o0 o1) 0)) [
  | inl t ↦
      let e = sign_zero o0 o1 w.0 w.1 t in
      let s = sign_less d b0 b1 hb0 hb1 in rw t (s ∙ grind arith)
  | inr f ↦ let s = sign_less c o0 o1 ho0 ho1 in rw f (s ∙ differ f)
]
  where
    differ : is (sign o0 o1) 0 ≡ false → ltb o0 o1 ≡ (ltb o0 o1 || o0 == o1 && ltb b0 b1)
    differ f = elim (Bool-cases (o0 == o1)) [
      | inl e ↦ absurd (
          same (ap (λ x. is x 0) (subst (λ x. sign o0 x ≡ pos 0) (grind arith) (sign_self o0 w.0))))
      | inr e ↦ grind arith
    ]
      where
        same : is (sign o0 o1) 0 ≡ true → ⊥
        same t = grind arith

-- Of any pointer of 32 bits, the one 0x60000000 behind it and the one 0xC0000000 behind it (around the
-- end of the number range), with one owner, each is less than the next and the last less than the
-- first: the comparison is no order on them.
pub cmp_cycle :
    (owner b : ℕ)
    → owner < 2 ^ 32
    → b < 2 ^ 32
    → let b1 = (b + 0x60000000) % 2 ^ 32 in
      let b2 = (b + 0xC0000000) % 2 ^ 32 in
      (binder_cmp owner b owner b1 ≡ negsuc 0)
      × (binder_cmp owner b1 owner b2 ≡ negsuc 0)
      × (binder_cmp owner b2 owner b ≡ negsuc 0)
unfolding binder_cmp
cmp_cycle owner b ho hb =
    let b1 = (b + 0x60000000) % 2 ^ 32 in
    let b2 = (b + 0xC0000000) % 2 ^ 32 in
    let h1 : b1 < 2 ^ 32 = omega arith in
    let h2 : b2 < 2 ^ 32 = omega arith in
    let same = sign_self owner ho in
    rw same
      (step b b1 hb h1 (grind arith), step b1 b2 h1 h2 (grind arith), step b2 b h2 hb (grind arith))
