-- ===== src/Slob/Alloc.antt =====
-- `fast_slob_alloc` of module/new/fast_slob.h against the free lists of the buckets.
use Prim.Native.Nat.add
use Prim.Native.Nat.mul
use native.Mathlib.Nat.{pow-suc, pow-zero}
use android_binder_ipc.Common.{
  ℕ, zero, suc, ◌+◌, ◌*◌, ◌^◌, ◌≤◌, ◌≡◌, refl, ap, List, [], ◌∷◌, none, some, arith, get_elem?, set,
  ◌∙◌, sym, Bool-cases, inl, inr, leb, not, ◌==◌, ◌&&◌, ◌≢◌, Option-cases,
}
use android_binder_ipc.Slob.{Slob, take_first, fast_slob_alloc}
use android_binder_ipc.Slob.Chain.{Chain, Chains}

-- The size that the loop has reached at bucket `i`.
abbrev pub class : ℕ → ℕ → ℕ → ℕ
class size shift zero = size
class size shift (suc i) = class (size * 2 ^ shift) shift i

pub pow-add : (a b : ℕ) → 2 ^ (a + b) ≡ 2 ^ a * 2 ^ b
pow-add zero b = simp (add.zero, pow-zero) (omega arith)
pow-add (suc a) b = simp (add.suc, pow-suc) (omega (arith, ap (λ (t : ℕ). t * 2) (pow-add a b)))

pub class_lem : (size shift i : ℕ) → class size shift i ≡ size * 2 ^ (i * shift)
class_lem size shift zero = simp (mul.zero, pow-zero) (omega arith)
class_lem size shift (suc i) =
    class_lem (size * 2 ^ shift) shift i ∙ (rw (mul.suc, pow-add) (omega arith))

-- What a successful search has taken: the first free buffer of a bucket whose class fits.
record Takes (mem : ℕ → ℕ) (fs : List (List ℕ)) (shift size alloc_size p : ℕ) (bs' : List ℕ)
    : Type 0 where
  bucket : ℕ
  rest : List ℕ
  fits : size ≤ class alloc_size shift bucket
  headed : get_elem? fs bucket ≡ some (p ∷ rest)
  chained : Chains mem bs' (set fs bucket rest)

-- The search goes on behind bucket `b`.
Takes-later :
    (mem : ℕ → ℕ) (shift size alloc_size b q p : ℕ) (qs bs' : List ℕ) (f : List ℕ)
    (fs : List (List ℕ))
    → Chain mem b f
    → Takes mem fs shift size (alloc_size * 2 ^ shift) q qs
    → q ≡ p
    → b ∷ qs ≡ bs'
    → Takes mem (f ∷ fs) shift size alloc_size p bs'
Takes-later mem shift size a b q p qs bs' f fs c t e e' = record {
  bucket = suc t.bucket;
  rest = t.rest;
  fits = t.fits;
  headed = rw (← e) t.headed;
  chained = rw (← e') (c, t.chained);
}

-- A bucket that fits and is not empty gives its first buffer.
Takes-first :
    (mem : ℕ → ℕ) (shift size alloc_size b p : ℕ) (bs bs' : List ℕ) (f : List ℕ)
    (fs : List (List ℕ))
    → Chains mem (b ∷ bs) (f ∷ fs)
    → size ≤ alloc_size
    → b ≢ 0
    → b ≡ p
    → mem b ∷ bs ≡ bs'
    → Takes mem (f ∷ fs) shift size alloc_size p bs'
Takes-first mem shift size a b p bs bs' [] fs c h n e e' = absurd (n c.0)
Takes-first mem shift size a b p bs bs' (x ∷ xs) fs c h n e e' = record {
  bucket = 0;
  rest = xs;
  fits = h;
  headed = ap (λ y. some (y ∷ xs)) (sym c.0.0 ∙ e);
  chained = rw (← e') (rw c.0.0 c.0.2, c.1);
}

take_first-Takes :
    (mem : ℕ → ℕ) (shift size alloc_size : ℕ) (bs : List ℕ) (fs : List (List ℕ)) (p : ℕ)
    (bs' : List ℕ)
    → Chains mem bs fs
    → take_first mem shift size alloc_size bs ≡ some (p, bs')
    → Takes mem fs shift size alloc_size p bs'
unfolding take_first
take_first-Takes mem shift size a [] fs p bs' c e = cc
take_first-Takes mem shift size a (b ∷ bs) [] p bs' c e = absurd c
take_first-Takes mem shift size a (b ∷ bs) (f ∷ fs) p bs' c e =
    elim (Bool-cases (leb size a && not (b == 0))) [
      | inl hit ↦
          Takes-first mem shift size a b p bs bs' f fs c (ground arith) (ground arith)
            (ground arith) (ground arith)
      | inr miss ↦ elim (Option-cases (take_first mem shift size (a * 2 ^ shift) bs)) [
        | inl fails ↦ ground arith
        | inr ((q, qs), found) ↦
            Takes-later mem shift size a b q p qs bs' f fs c.0
              (take_first-Takes mem shift size (a * 2 ^ shift) bs fs q qs c.1 found) (ground arith)
              (ground arith)
      ]
    ]

take_first-none :
    (mem : ℕ → ℕ) (shift size alloc_size : ℕ) (bs : List ℕ) (fs : List (List ℕ)) (i : ℕ)
    (f : List ℕ)
    → Chains mem bs fs
    → take_first mem shift size alloc_size bs ≡ none
    → get_elem? fs i ≡ some f
    → size ≤ class alloc_size shift i
    → f ≡ []
unfolding take_first
take_first-none mem shift size a bs [] i f c e g h = ground arith
take_first-none mem shift size a [] (f' ∷ fs) i f c e g h = absurd c
take_first-none mem shift size a (b ∷ bs) ([] ∷ fs) zero f c e g h = ground arith
take_first-none mem shift size a (b ∷ bs) ((x ∷ xs) ∷ fs) zero f c e g h = ground arith
take_first-none mem shift size a (b ∷ bs) (f' ∷ fs) (suc i) f c e g h =
    take_first-none mem shift size (a * 2 ^ shift) bs fs i f c.1 (ground arith) g h

alloc_inversion :
    (s s' : Slob) (size p : ℕ)
    → fast_slob_alloc s size ≡ some (p, s')
    → (bs : List ℕ) × (take_first s.mem s.alloc_size_shift size s.min_alloc_size s.buckets
        ≡ some (p, bs))
      × (s' ≡ record s { buckets = bs })
unfolding fast_slob_alloc
alloc_inversion s s' size p e =
    elim (Option-cases (take_first s.mem s.alloc_size_shift size s.min_alloc_size s.buckets)) [
      | inl fails ↦ ground arith
      | inr ((q, bs), found) ↦ (bs, ground arith, ground arith)
    ]

-- A successful `fast_slob_alloc` takes the first free buffer `p` of some bucket `i` whose buffers
-- have at least the size asked for; the rest of that free list is what the bucket then holds, the
-- other free lists, the memory and the geometry stay.
pub alloc_takes :
    (s s' : Slob) (fs : List (List ℕ)) (size p : ℕ)
    → Chains s.mem s.buckets fs
    → fast_slob_alloc s size ≡ some (p, s')
    → (i : ℕ) × (rest : List ℕ) × (size ≤ s.min_alloc_size * 2 ^ (i * s.alloc_size_shift))
      × (get_elem? fs i ≡ some (p ∷ rest))
      × Chains s.mem s'.buckets (set fs i rest)
      × (s' ≡ record s { buckets = s'.buckets })
alloc_takes s s' fs size p c e =
    let (bs, found, e') = alloc_inversion s s' size p e in
    let t : Takes s.mem fs s.alloc_size_shift size s.min_alloc_size p bs =
      take_first-Takes s.mem s.alloc_size_shift size s.min_alloc_size s.buckets fs p bs c found in
    (
      t.bucket,
      t.rest,
      rw (← class_lem s.min_alloc_size s.alloc_size_shift t.bucket) t.fits,
      t.headed,
      rw e' t.chained,
      rw e' refl,
    )

-- `fast_slob_alloc` fails only when every bucket whose buffers are large enough has none left.
pub alloc_fails :
    (s : Slob) (fs : List (List ℕ)) (size i : ℕ) (f : List ℕ)
    → Chains s.mem s.buckets fs
    → fast_slob_alloc s size ≡ none
    → get_elem? fs i ≡ some f
    → size ≤ s.min_alloc_size * 2 ^ (i * s.alloc_size_shift)
    → f ≡ []
unfolding fast_slob_alloc
alloc_fails s fs size i f c e g h =
    take_first-none s.mem s.alloc_size_shift size s.min_alloc_size s.buckets fs i f c (ground arith)
      g (rw (class_lem s.min_alloc_size s.alloc_size_shift i) h)
