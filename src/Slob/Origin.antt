-- ===== src/Slob/Origin.antt =====
-- The allocator of fast_slob.h from `fast_slob_create` on: no buffer is handed out twice.
use Prim.Native.Nat.mul
use native.Mathlib.Nat.{pow-zero}
use android_binder_ipc.Common.{
  ℕ, zero, suc, ◌+◌, ◌*◌, ◌^◌, ◌≤◌, ◌≡◌, refl, List, [], ◌∷◌, some, arith, All, All-imp, All-middle,
  Bool, ap, length, ◌++◌, ◌≢◌, ◌⊎◌, subst,
}
use android_binder_ipc.Slob.{
  Geometry, Slob, align, min_size, chunk, fast_slob_create, fast_slob_alloc,
}
use android_binder_ipc.Slob.Chain.{Avoids}
use android_binder_ipc.Slob.Alloc.{alloc_takes, pow-add}
use android_binder_ipc.Slob.Free.{IsSlot}
use android_binder_ipc.Slob.Create.{
  bucket_buffers, Within, buffers-Within, create-Created, create-Chains,
}
use android_binder_ipc.Slob.Disjoint.{Fits, slots_disjoint}
use android_binder_ipc.Slob.Once.{Avoids-of_count, Slots, Slots-get, counts-bucket_buffers}
use android_binder_ipc.Slob.History.{Reach, Owned, takes-Owned, Reach-Owned}

length-bucket_buffers :
    (n first b alloc shift : ℕ) → length (bucket_buffers n first b alloc shift) ≡ n
unfolding bucket_buffers
length-bucket_buffers zero first b alloc shift = refl
length-bucket_buffers (suc n) first b alloc shift =
    ap suc (length-bucket_buffers n (first + b) b (alloc * 2 ^ shift) shift)

-- The lists that `fast_slob_create` builds hold buffers of the right buckets.
bucket_buffers-Slots :
    (g : Geometry) (n i first alloc : ℕ)
    → n + i ≡ g.num_buckets
    → first ≡ g.start + i * g.bucket_size
    → alloc ≡ g.min_alloc_size * 2 ^ (i * g.alloc_size_shift)
    → g.start + g.num_buckets * g.bucket_size ≤ g.end
    → Slots g i (bucket_buffers n first g.bucket_size alloc g.alloc_size_shift)
unfolding bucket_buffers
bucket_buffers-Slots g zero i first alloc c f a r = tt
bucket_buffers-Slots g (suc n) i first alloc c f a r = (
  All-imp (Within first (first + g.bucket_size) (align alloc min_size))
      (λ p. (k : ℕ) × IsSlot g i k p) _
      (λ p (k, e, lt).
        let e' : p ≡ first + k * chunk g i = rw (← a) e in
        (
          k,
          record {
            address = omega (arith, e', f);
            bucket = omega arith;
            inside = omega (arith, e', lt);
            region = r;
          },
        ))
      (buffers-Within g.bucket_size first (first + g.bucket_size) (align alloc min_size) first 0
        (omega arith)),
  bucket_buffers-Slots g n (suc i) (first + g.bucket_size) (alloc * 2 ^ g.alloc_size_shift)
      (omega arith) (omega (arith, f)) (rw (a, mul.suc, pow-add) (omega arith)) r,
)

module _ (cache_line : ℕ) (kmalloc : Bool) (start : ℕ) (mem : ℕ → ℕ)
    (size max_alloc_size shift n : ℕ) (s : Slob)
    (made : fast_slob_create cache_line kmalloc start mem size max_alloc_size shift n ≡ some s)
    (whole : Fits s.geometry) where
  create-Owned : Owned s []
  create-Owned =
      let c = create-Created cache_line kmalloc start mem size max_alloc_size shift n s made in
      let chains = create-Chains cache_line kmalloc start mem size max_alloc_size shift n s made in
      let fits : s.start + s.num_buckets * s.bucket_size ≤ s.end =
        rw (c.count) (omega (arith, c.at, c.end_at, c.fits)) in
      record {
        free =
            bucket_buffers s.num_buckets s.start s.bucket_size s.min_alloc_size s.alloc_size_shift;
        chained = chains;
        slots =
            bucket_buffers-Slots s.geometry s.num_buckets 0 s.start s.min_alloc_size (omega arith)
              (omega arith) (rw (mul.zero, pow-zero) (omega arith)) fits;
        out_slots = tt;
        once = λ a. omega (
          arith,
          counts-bucket_buffers s.num_buckets s.start s.bucket_size s.min_alloc_size
              s.alloc_size_shift a (omega (arith, c.word)),
        );
        whole = whole;
        not_null = omega (arith, c.at, c.not_null);
        word = omega (arith, c.word);
        listed =
            length-bucket_buffers s.num_buckets s.start s.bucket_size s.min_alloc_size
              s.alloc_size_shift;
      }

  -- From `fast_slob_create` on, where every bucket is a whole number of its buffers long (so not for
  -- the region that the framework maps), through any takings, givings-back and writes of the owners
  -- into their buffers: a buffer that `fast_slob_alloc` hands out is none of those that are out, it is a
  -- buffer of some bucket inside the region, and has at least the size asked for.
  pub never_twice :
      (t : Slob) (out : List ℕ) (wanted p : ℕ) (t' : Slob)
      → Reach s [] t out
      → fast_slob_alloc t wanted ≡ some (p, t')
      → Avoids p out
        × (i : ℕ) × (k : ℕ) × IsSlot t.geometry i k p
        × (wanted ≤ t.min_alloc_size * 2 ^ (i * t.alloc_size_shift))
  never_twice t out wanted p t' r e =
      let o = Reach-Owned create-Owned r in
      let o' = takes-Owned t out wanted p t' e o in
      let (i, rest, fits, headed, chains, same) = alloc_takes t t' o.free wanted p o.chained e in
      let slot = Slots-get t.geometry 0 i i o.free (p ∷ rest) (omega arith) o.slots headed in
      (Avoids-of_count p out (ground (arith, o'.once p)), i, slot.0.0, slot.0.1, fits)

  -- The same way from `fast_slob_create` on, where every bucket is a whole number of its buffers
  -- long: two different buffers that are out never share a byte, each with the length of the
  -- buffers of its bucket, and both lie inside the region.
  pub out_disjoint :
      (t : Slob) (out xs ys us vs : List ℕ) (p q : ℕ)
      → Reach s [] t out
      → out ≡ xs ++ p ∷ ys
      → out ≡ us ++ q ∷ vs
      → p ≢ q
      → (i : ℕ) × (k : ℕ) × (j : ℕ) × (l : ℕ) × IsSlot t.geometry i k p
        × IsSlot t.geometry j l q
        × ((p + chunk t.geometry i ≤ q) ⊎ (q + chunk t.geometry j ≤ p))
        × (t.start ≤ p × p + chunk t.geometry i ≤ t.end)
        × (t.start ≤ q × q + chunk t.geometry j ≤ t.end)
  out_disjoint t out xs ys us vs p q r ep eq n =
      let o = Reach-Owned create-Owned r in
      let P : ℕ → Type 0 = λ x. (i : ℕ) × (k : ℕ) × IsSlot t.geometry i k x in
      let ((i, k, v), others_p) = All-middle P xs p ys (subst (All P) ep o.out_slots) in
      let ((j, l, w), others_q) = All-middle P us q vs (subst (All P) eq o.out_slots) in
      let there = slots_disjoint t.geometry i k p j l q o.whole v w n in
      let back = slots_disjoint t.geometry j l q i k p o.whole w v (omega arith) in
      (i, k, j, l, v, w, there.0, (there.1, there.2), (back.1, back.2))
