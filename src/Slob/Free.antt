-- ===== src/Slob/Free.antt =====
-- `fast_slob_bucket` and `fast_slob_free` of module/new/fast_slob.h.
use native.Mathlib.Nat.{mul-mod_left}
use android_binder_ipc.Common.{
  ℕ, zero, suc, ◌+◌, ◌-◌, ◌*◌, ◌/◌, ◌<◌, ◌≤◌, ◌≡◌, ◌≢◌, refl, List, [], ◌∷◌, some, arith, get_elem?,
  get_or, set, All, ◌⊎◌, ==-self,
}
use android_binder_ipc.Slob.{
  Slob, Geometry, update, chunk, free_to, fast_slob_bucket, fast_slob_free,
}
use android_binder_ipc.Slob.Chain.{Chains, Avoids, Chain-update, Chains-update}

-- `p` is the address of the `k`-th buffer of bucket `i`.
pub record IsSlot (g : Geometry) (i k p : ℕ) : Type 0 where
  pub address : p ≡ g.start + i * g.bucket_size + k * chunk g i
  pub bucket : i < g.num_buckets
  pub inside : k * chunk g i < g.bucket_size
  pub region : g.start + g.num_buckets * g.bucket_size ≤ g.end

-- `fast_slob_bucket` finds the bucket of every buffer that `fast_slob_create` has made.
pub bucket-IsSlot : (s : Slob) (i k p : ℕ) → IsSlot s.geometry i k p → fast_slob_bucket s p ≡ some i
unfolding fast_slob_bucket
bucket-IsSlot s i k p v =
    let c = chunk s.geometry i in
    let e : p - s.start ≡ i * s.bucket_size + k * c = omega arith in
    let at : (i * s.bucket_size + k * c) / s.bucket_size ≡ i = grind arith in
    let room : p < s.end = grind arith in
    let back : i * s.bucket_size + k * c - i * s.bucket_size ≡ k * c = omega arith in
    rw (e, at, back) (ground (arith, mul-mod_left k c))

pub free_slot :
    (s : Slob) (i k p : ℕ) → IsSlot s.geometry i k p → fast_slob_free s p ≡ free_to s i p
unfolding fast_slob_free
free_slot s i k p v = rw (bucket-IsSlot s i k p v, fast_slob_free) refl

-- It refuses a pointer outside the region, and then `fast_slob_free` changes nothing.
pub free_outside : (s : Slob) (p : ℕ) → (p < s.start) ⊎ (s.end ≤ p) → fast_slob_free s p ≡ s
unfolding fast_slob_free fast_slob_bucket
free_outside s p h = ground arith

Chains-set :
    (mem : ℕ → ℕ) (p i : ℕ) (bs : List ℕ) (fs : List (List ℕ)) (f : List ℕ)
    → p ≢ 0
    → All (Avoids p) fs
    → Chains mem bs fs
    → get_elem? fs i ≡ some f
    → Chains (update mem p (get_or bs i 0)) (set bs i p) (set fs i (p ∷ f))
Chains-set mem p i [] [] f n a c e = ground arith
Chains-set mem p i [] (g ∷ fs) f n a c e = absurd c
Chains-set mem p i (b ∷ bs) [] f n a c e = absurd c
Chains-set mem p zero (b ∷ bs) (g ∷ fs) f n a c e =
    let same : g ≡ f = cc in
    (
      (refl, n, rw (==-self p) (rw (← same) (Chain-update mem p b b g a.0 c.0))),
      Chains-update mem p b bs fs a.1 c.1,
    )
Chains-set mem p (suc i) (b ∷ bs) (g ∷ fs) f n a c e =
    (Chain-update mem p _ b g a.0 c.0, Chains-set mem p i bs fs f n a.1 c.1 e)

pub free_to-Chains :
    (s : Slob) (fs : List (List ℕ)) (i p : ℕ) (f : List ℕ)
    → p ≢ 0
    → All (Avoids p) fs
    → Chains s.mem s.buckets fs
    → get_elem? fs i ≡ some f
    → let s' = free_to s i p in Chains s'.mem s'.buckets (set fs i (p ∷ f))
unfolding free_to
free_to-Chains s fs i p f n a c e = Chains-set s.mem p i s.buckets fs f n a c e

-- `fast_slob_free` puts a buffer that is in no free list in front of its bucket's list.
pub free-Chains :
    (s : Slob) (fs : List (List ℕ)) (i k p : ℕ) (f : List ℕ)
    → IsSlot s.geometry i k p
    → p ≢ 0
    → All (Avoids p) fs
    → Chains s.mem s.buckets fs
    → get_elem? fs i ≡ some f
    → let s' = fast_slob_free s p in Chains s'.mem s'.buckets (set fs i (p ∷ f))
free-Chains s fs i k p f v n a c e = rw (free_slot s i k p v) (free_to-Chains s fs i p f n a c e)
