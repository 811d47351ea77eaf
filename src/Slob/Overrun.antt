-- ===== src/Slob/Overrun.antt =====
-- The last buffer that `fast_slob_create` of module/new/fast_slob.h links in a bucket which is not a
-- whole number of its buffers long.
use native.Mathlib.Nat.{pow-zero, mul-le-mul_right}
use Prim.Native.Nat.mul
use android_binder_ipc.Common.{
  ℕ, zero, suc, ◌+◌, ◌*◌, ◌/◌, ◌%◌, ◌^◌, ◌<◌, ◌≡◌, ◌≢◌, refl, ◌∙◌, ap, List, [], ◌∷◌, some, arith,
  Bool, get_elem?, subst,
}
use android_binder_ipc.Slob.{Slob, align, min_size, chunk, fast_slob_create}
use android_binder_ipc.Slob.Alloc.{pow-add}
use android_binder_ipc.Slob.Chain.{Chain, Chains}
use android_binder_ipc.Slob.Create.{
  buffers, bucket_buffers, buffers-suc, pow_pos, create-Created, create-Chains,
}

Chains-get :
    (mem : ℕ → ℕ) (bs : List ℕ) (fs : List (List ℕ)) (i : ℕ) (f : List ℕ)
    → Chains mem bs fs
    → get_elem? fs i ≡ some f
    → (head : ℕ) × (get_elem? bs i ≡ some head) × Chain mem head f
Chains-get mem [] [] i f c e = absurd (ground arith)
Chains-get mem (b ∷ bs) (x ∷ fs) zero f c e =
    let same : x ≡ f = cc in (b, refl, subst (Chain mem b) same c.0)
Chains-get mem (b ∷ bs) (x ∷ fs) (suc i) f c e = Chains-get mem bs fs i f c.1 e
Chains-get mem [] (x ∷ fs) i f c e = absurd c
Chains-get mem (b ∷ bs) [] i f c e = absurd c

-- As many buffers as begin before the end.
get-buffers :
    (k fuel p end c : ℕ)
    → 0 < c
    → p + k * c < end
    → k < fuel
    → get_elem? (buffers fuel p end c) k ≡ some (p + k * c)
get-buffers k zero p end c h lt f = absurd (omega arith)
get-buffers zero (suc fuel) p end c h lt f =
    rw (buffers-suc fuel p end c (omega arith)) (ap some (omega arith))
get-buffers (suc k) (suc fuel) p end c h lt f =
    let split : suc k * c ≡ k * c + c = omega arith in
    rw (buffers-suc fuel p end c (omega arith))
      (get-buffers k fuel (p + c) end c h (omega arith) (omega arith) ∙ ap some (omega arith))

-- The list of bucket `m`, among those from bucket `j` on.
get-bucket_buffers :
    (n j i m start first b small alloc shift : ℕ)
    → i < n
    → m ≡ j + i
    → first ≡ start + j * b
    → alloc ≡ small * 2 ^ (j * shift)
    → get_elem? (bucket_buffers n first b alloc shift) i
      ≡ some
          (buffers b (start + m * b) (start + m * b + b) (align (small * 2 ^ (m * shift)) min_size))
unfolding bucket_buffers
get-bucket_buffers zero j i m start first b small alloc shift lt e f a = absurd (omega arith)
get-bucket_buffers (suc n) j zero m start first b small alloc shift lt e f a =
    let same : m ≡ j = omega arith in rw (same, f, a) refl
get-bucket_buffers (suc n) j (suc i) m start first b small alloc shift lt e f a =
    get-bucket_buffers n (suc j) i m start (first + b) b small (alloc * 2 ^ shift) shift
      (omega arith) (omega arith) (omega (arith, f)) (rw (a, mul.suc, pow-add) (omega arith))

-- After `fast_slob_create`, in a bucket that is not a whole number of its buffers long: the free list
-- that the bucket heads has a buffer that reaches over the bucket's end, into the next bucket or out
-- of the buckets.
pub create_overruns :
    (cache_line : ℕ) (kmalloc : Bool) (start : ℕ) (mem : ℕ → ℕ) (size max_alloc_size shift n : ℕ)
    (s : Slob) (i : ℕ)
    → fast_slob_create cache_line kmalloc start mem size max_alloc_size shift n ≡ some s
    → i < n
    → s.bucket_size % chunk s.geometry i ≢ 0
    → (head : ℕ) × (ps : List ℕ) × (k : ℕ) × (p : ℕ) × (get_elem? s.buckets i ≡ some head)
      × Chain s.mem head ps
      × (get_elem? ps k ≡ some p)
      × (start + suc i * s.bucket_size < p + chunk s.geometry i)
create_overruns cache_line kmalloc start mem size max_alloc_size shift n s i made lt part =
    let made_lem = create-Created cache_line kmalloc start mem size max_alloc_size shift n s made in
    let chains = create-Chains cache_line kmalloc start mem size max_alloc_size shift n s made in
    let c = chunk s.geometry i in
    let b = s.bucket_size in
    let k = b / c in
    let first = s.start + i * b in
    let ps = buffers b first (first + b) c in
    let word : 0 < c =
      omega
        (arith, pow_pos s.min_alloc_size (i * s.alloc_size_shift) (omega (arith, made_lem.word))) in
    let split : b ≡ k * c + b % c = omega arith in
    let short : b % c < c = omega arith in
    let few : k < b = omega (arith, split, part, mul-le-mul_right k word) in
    let listed =
      get-bucket_buffers s.num_buckets 0 i i s.start s.start b s.min_alloc_size s.min_alloc_size
        s.alloc_size_shift (omega (arith, lt, made_lem.count)) (omega arith) (omega arith)
        (rw (mul.zero, pow-zero) (omega arith)) in
    let (head, heads, chain) = Chains-get s.mem s.buckets _ i ps chains listed in
    (
      head,
      ps,
      k,
      first + k * c,
      heads,
      chain,
      get-buffers k b first (first + b) c word (omega (arith, split, part)) few,
      omega (arith, made_lem.at, split, short),
    )
