-- ===== src/Slob/Disjoint.antt =====
-- Where the buffers of fast_slob.h lie if each bucket is a whole number of buffers long.
use native.Mathlib.Nat.{mul-le-mul_right}
use android_binder_ipc.Common.{ℕ, ◌+◌, ◌*◌, ◌<◌, ◌≤◌, ◌≡◌, ◌≢◌, ◌⊎◌, inl, inr, arith, dec_lt}
use android_binder_ipc.Slob.{Geometry, chunk}
use android_binder_ipc.Slob.Free.{IsSlot}

-- Each bucket holds a whole number of its buffers.
abbrev pub Fits : Geometry → Type 0
Fits g = (i : ℕ) → i < g.num_buckets → (m : ℕ) × (g.bucket_size ≡ m * chunk g i)

slot_end :
    (g : Geometry) (i k p : ℕ) → Fits g → IsSlot g i k p → k * chunk g i + chunk g i ≤ g.bucket_size
slot_end g i k p f v =
    let (m, e) = f i v.bucket in
    let below : k < m = grind (arith, v.inside) in
    omega (arith, e, mul-le-mul_right (chunk g i) below)

-- In one bucket, the lower buffer ends before the upper one begins.
same_bucket : (k l c base : ℕ) → base + k * c < base + l * c → k * c + c ≤ l * c
same_bucket k l c base h = elim (dec_lt k l) [
  | yes lower ↦ grind (arith, mul-le-mul_right c lower)
  | no upper ↦ let back : l ≤ k = omega arith in absurd (omega (arith, h, mul-le-mul_right c back))
]

lower_first :
    (g : Geometry) (i k p j l q : ℕ)
    → Fits g
    → IsSlot g i k p
    → IsSlot g j l q
    → p < q
    → p + chunk g i ≤ q
lower_first g i k p j l q f v w h = elim (dec_lt i j) [
  | yes before ↦ omega (arith, slot_end g i k p f v, mul-le-mul_right g.bucket_size before)
  | no after ↦ elim (dec_lt j i) [
    | yes before ↦
        absurd (omega (arith, slot_end g j l q f w, mul-le-mul_right g.bucket_size before))
    | no same ↦
        let e : j ≡ i = omega arith in
        let at : q ≡ g.start + i * g.bucket_size + l * chunk g i = rw (← e) w.address in
        omega (
          arith,
          v.address,
          at,
          same_bucket k l (chunk g i) (g.start + i * g.bucket_size) (omega (arith, v.address, at)),
        )
  ]
]

-- Where every bucket is a whole number of its buffers long, two different buffers never share a byte,
-- and every buffer lies inside the region.
pub slots_disjoint :
    (g : Geometry) (i k p j l q : ℕ)
    → Fits g
    → IsSlot g i k p
    → IsSlot g j l q
    → p ≢ q
    → ((p + chunk g i ≤ q) ⊎ (q + chunk g j ≤ p)) × (g.start ≤ p) × (p + chunk g i ≤ g.end)
slots_disjoint g i k p j l q f v w n = (
  elim (dec_lt p q) [
    | yes lower ↦ inl (lower_first g i k p j l q f v w lower)
    | no upper ↦ inr (lower_first g j l q i k p f w v (omega arith))
  ],
  omega arith,
  omega (arith, slot_end g i k p f v, mul-le-mul_right g.bucket_size v.bucket),
)
