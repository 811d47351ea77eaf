-- ===== src/Slob/Create.antt =====
-- `fast_slob_create` of module/new/fast_slob.h: the free lists that it builds.
use native.Mathlib.Nat.{one-le-pow, div-mul-le_self, mul-le-mul_right}
use android_binder_ipc.Common.{
  ℕ, zero, suc, ◌+◌, ◌-◌, ◌*◌, ◌/◌, ◌^◌, ◌<◌, ◌≤◌, ◌≡◌, refl, List, [], ◌∷◌, some, Bool, true,
  false, arith, All, All-imp, ◌⊎◌, inl, inr, sym, ◌∙◌, ltb, if◌then◌else◌, Bool-cases, ==-self,
  subst, dec_lt,
}
use android_binder_ipc.Slob.{
  Slob, update, align, min_size, carve, carve_buckets, bucket_bytes, fast_slob_create,
}
use android_binder_ipc.Slob.Chain.{Chain, Chains}

-- The buffers of a bucket: every `chunk` bytes from `p` on, as long as they begin before `end`.
unfoldable pub buffers : ℕ → ℕ → ℕ → ℕ → List ℕ
buffers zero p end chunk = []
buffers (suc fuel) p end chunk = elim (ltb p end) [
  | true ↦ p ∷ buffers fuel (p + chunk) end chunk
  | false ↦ []
]

-- The buffers of `n` buckets, the first of them at `first`.
unfoldable pub bucket_buffers : ℕ → ℕ → ℕ → ℕ → ℕ → List (List ℕ)
bucket_buffers zero first bucket_size alloc_size shift = []
bucket_buffers (suc n) first bucket_size alloc_size shift =
    buffers bucket_size first (first + bucket_size) (align alloc_size min_size)
    ∷ bucket_buffers n (first + bucket_size) bucket_size (alloc_size * 2 ^ shift) shift

pub buffers-nil : (fuel p end chunk : ℕ) → end ≤ p → buffers fuel p end chunk ≡ []
unfolding buffers
buffers-nil zero p end chunk h = refl
buffers-nil (suc fuel) p end chunk h = ground arith

-- The loop writes only between its start and its end.
carve_outside :
    (fuel : ℕ) (mem : ℕ → ℕ) (p end chunk q : ℕ)
    → (q < p) ⊎ (end ≤ q)
    → carve fuel mem p end chunk q ≡ mem q
unfolding carve
carve_outside zero mem p end chunk q h = refl
carve_outside (suc fuel) mem p end chunk q h = ground (
  arith,
  carve_outside fuel (update mem p (if ltb (p + chunk) end then p + chunk else 0)) (p + chunk) end
      chunk q,
)

-- The address that the loop writes into the buffer at `p`.
abbrev link : ℕ → ℕ → ℕ → ℕ
link p end chunk = if ltb (p + chunk) end then p + chunk else 0

carve-suc :
    (fuel : ℕ) (mem : ℕ → ℕ) (p end chunk : ℕ)
    → p < end
    → carve (suc fuel) mem p end chunk
      ≡ carve fuel (update mem p (link p end chunk)) (p + chunk) end chunk
unfolding carve
carve-suc fuel mem p end chunk h = ground arith

pub buffers-suc :
    (fuel p end chunk : ℕ)
    → p < end
    → buffers (suc fuel) p end chunk ≡ p ∷ buffers fuel (p + chunk) end chunk
unfolding buffers
buffers-suc fuel p end chunk h = ground arith

carve_first :
    (fuel : ℕ) (mem : ℕ → ℕ) (p end chunk : ℕ)
    → 0 < chunk
    → carve fuel (update mem p (link p end chunk)) (p + chunk) end chunk p ≡ link p end chunk
carve_first fuel mem p end chunk h =
    carve_outside fuel (update mem p (link p end chunk)) (p + chunk) end chunk p (inl (omega arith))
    ∙ rw (==-self p) refl

carve-Chain :
    (fuel : ℕ) (mem : ℕ → ℕ) (p end chunk : ℕ)
    → 0 < p
    → p < end
    → 0 < chunk
    → end ≤ p + fuel
    → Chain (carve fuel mem p end chunk) p (buffers fuel p end chunk)
carve-Chain zero mem p end chunk h lt hc hf = absurd (omega arith)
carve-Chain (suc fuel) mem p end chunk h lt hc hf =
    rw (carve-suc fuel mem p end chunk lt, buffers-suc fuel p end chunk lt)
      (
        refl,
        omega arith,
        rw (carve_first fuel mem p end chunk hc) (elim (dec_lt (p + chunk) end) [
          | yes more ↦
              let e : link p end chunk ≡ p + chunk = ground arith in
              subst
                (λ w.
                  Chain (carve fuel (update mem p (link p end chunk)) (p + chunk) end chunk) w
                    (buffers fuel (p + chunk) end chunk))
                (sym e)
                (carve-Chain fuel (update mem p (link p end chunk)) (p + chunk) end chunk
                  (omega arith) more hc (omega arith))
          | no done ↦ rw (buffers-nil fuel (p + chunk) end chunk (omega arith)) (ground arith)
        ]),
      )

Chain-agree :
    (mem mem' : ℕ → ℕ) (head : ℕ) (xs : List ℕ)
    → All (λ x. mem' x ≡ mem x) xs
    → Chain mem head xs
    → Chain mem' head xs
Chain-agree mem mem' head [] a c = c
Chain-agree mem mem' head (x ∷ xs) a c =
    (c.0, c.1, rw a.0 (Chain-agree mem mem' (mem x) xs a.1 c.2))

-- Every buffer begins at a whole number of chunks behind `first`, and before `end`.
abbrev pub Within : ℕ → ℕ → ℕ → ℕ → Type 0
Within first end chunk p = (k : ℕ) × (p ≡ first + k * chunk) × (p < end)

pub buffers-Within :
    (fuel first end chunk p j : ℕ)
    → p ≡ first + j * chunk
    → All (Within first end chunk) (buffers fuel p end chunk)
unfolding buffers
buffers-Within zero first end chunk p j e = tt
buffers-Within (suc fuel) first end chunk p j e = elim (dec_lt p end) [
  | yes more ↦
      rw (buffers-suc fuel p end chunk more)
        ((j, e, more), buffers-Within fuel first end chunk (p + chunk) (suc j) (grind arith))
  | no done ↦ rw (buffers-nil (suc fuel) p end chunk (omega arith)) tt
]

pub pow_pos : (a shift : ℕ) → 0 < a → 0 < a * 2 ^ shift
pow_pos a shift h = grind (arith, one-le-pow shift 2 (omega arith))

carve_buckets_outside :
    (n : ℕ) (mem : ℕ → ℕ) (first bucket_size alloc_size shift q : ℕ)
    → q < first
    → (carve_buckets n mem first bucket_size alloc_size shift).1 q ≡ mem q
unfolding carve_buckets
carve_buckets_outside zero mem first b a shift q h = refl
carve_buckets_outside (suc n) mem first b a shift q h =
    carve_buckets_outside n (carve b mem first (first + b) (align a min_size)) (first + b) b
      (a * 2 ^ shift) shift q (omega arith)
    ∙ carve_outside b mem first (first + b) (align a min_size) q (inl h)

carve_buckets-Chains :
    (n : ℕ) (mem : ℕ → ℕ) (first bucket_size alloc_size shift : ℕ)
    → 0 < first
    → 0 < bucket_size
    → 0 < alloc_size
    → let made = carve_buckets n mem first bucket_size alloc_size shift in
      Chains made.1 made.0 (bucket_buffers n first bucket_size alloc_size shift)
unfolding carve_buckets bucket_buffers
carve_buckets-Chains zero mem first b a shift hf hb ha = tt
carve_buckets-Chains (suc n) mem first b a shift hf hb ha = (
  Chain-agree (carve b mem first (first + b) (align a min_size)) _ first
      (buffers b first (first + b) (align a min_size))
      (All-imp (Within first (first + b) (align a min_size)) _
        (buffers b first (first + b) (align a min_size))
        (λ x w. carve_buckets_outside n _ (first + b) b (a * 2 ^ shift) shift x w.2)
        (buffers-Within b first (first + b) (align a min_size) first 0 (omega arith)))
      (carve-Chain b mem first (first + b) (align a min_size) hf (omega arith) (omega arith)
        (omega arith)),
  carve_buckets-Chains n _ (first + b) b (a * 2 ^ shift) shift (omega arith) hb
      (pow_pos a shift ha),
)

-- The buckets fit into the region, however they were rounded.
pub bucket_bytes-le : (cache_line size n : ℕ) → n * bucket_bytes cache_line size n ≤ size
unfolding bucket_bytes
bucket_bytes-le l size n = elim (Bool-cases (ltb size (align (size / n) l * n))) [
  | inl much ↦
      rw much
        (grind (arith, mul-le-mul_right n (div-mul-le_self (size / n) l), div-mul-le_self size n))
  | inr fits ↦ rw fits (ground (arith))
]

-- What `fast_slob_create` has made: the arguments it kept, and sizes that its tests let through.
pub record Created (start size max_alloc_size shift n : ℕ) (s : Slob) : Type 0 where
  pub at : s.start ≡ start
  pub end_at : s.end ≡ start + size
  pub count : s.num_buckets ≡ n
  pub shifts : s.alloc_size_shift ≡ shift
  pub largest : s.max_alloc_size ≡ max_alloc_size
  pub not_null : 0 < start
  pub some_bucket : 0 < n
  pub room : max_alloc_size ≤ s.bucket_size
  pub word : min_size ≤ s.min_alloc_size
  pub word_max : min_size ≤ max_alloc_size
  pub fits : n * s.bucket_size ≤ size

module _ (cache_line : ℕ) (kmalloc : Bool) (start : ℕ) (mem : ℕ → ℕ)
    (size max_alloc_size shift n : ℕ) (s : Slob)
    (made : fast_slob_create cache_line kmalloc start mem size max_alloc_size shift n
      ≡ some s) where
  pub create-Created : Created start size max_alloc_size shift n s
  unfolding fast_slob_create
  create-Created = ground (arith, bucket_bytes-le cache_line size n)

  -- After `fast_slob_create` every bucket heads the chain of all its buffers, in address order.
  pub create-Chains :
      Chains s.mem s.buckets
        (bucket_buffers s.num_buckets s.start s.bucket_size s.min_alloc_size s.alloc_size_shift)
  unfolding fast_slob_create
  create-Chains =
      let bucket_size = bucket_bytes cache_line size n in
      let min_alloc = max_alloc_size / 2 ^ (shift * (n - 1)) in
      let carved = carve_buckets n mem start bucket_size min_alloc shift in
      let c = create-Created in
      let e1 : s.mem ≡ carved.1 = ground arith in
      let e2 : s.buckets ≡ carved.0 = ground arith in
      let e3 : s.bucket_size ≡ bucket_size = ground arith in
      let e4 : s.min_alloc_size ≡ min_alloc = ground arith in
      rw (c.at, c.count, c.shifts, e1, e2, e3, e4)
        (carve_buckets-Chains n mem start bucket_size min_alloc shift c.not_null (omega arith)
          (omega arith))
