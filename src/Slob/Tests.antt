-- ===== src/Slob/Tests.antt =====
-- Runs of fast_slob.h at small regions and at the sizes that `binder_mmap` asks for.
use android_binder_ipc.Common.{
  ℕ, zero, suc, ◌+◌, ◌*◌, ◌^◌, ◌<◌, ◌≤◌, ◌≡◌, ◌⊎◌, refl, List, [], ◌∷◌, some, none, true, arith,
  get_elem?,
}
use android_binder_ipc.Slob.{
  Geometry, Slob, chunk, carve_buckets, fast_slob_create, fast_slob_alloc, fast_slob_free,
  take_first,
}
use android_binder_ipc.Slob.Chain.{Chain, Chains, Avoids}
use android_binder_ipc.Slob.Alloc.{alloc_fails}
use android_binder_ipc.Slob.Free.{IsSlot, free-Chains}
use android_binder_ipc.Slob.Disjoint.{Fits}
use android_binder_ipc.Slob.Overrun.{create_overruns}
use android_binder_ipc.Slob.History.{takes, here, next}
use android_binder_ipc.Slob.Origin.{never_twice, out_disjoint}

-- Two buckets of 128 bytes: four buffers of 32, two of 64.
abbrev small_geometry : Geometry
small_geometry = record {
  bucket_size = 128;
  min_alloc_size = 32;
  max_alloc_size = 64;
  alloc_size_shift = 1;
  num_buckets = 2;
  start = 4096;
  end = 4352;
}

small : Slob
unfolding carve_buckets
small = record {
  geometry = small_geometry;
  buckets = 4096 ∷ 4224 ∷ [];
  mem = (carve_buckets 2 (λ _. 0) 4096 128 32 1).1;
}

small_made : fast_slob_create 64 true 4096 (λ _. 0) 256 64 1 2 ≡ some small
unfolding fast_slob_create small
small_made = refl

small-Fits : Fits small_geometry
small-Fits zero h = (4, refl)
small-Fits (suc zero) h = (2, refl)
small-Fits (suc (suc i)) h = absurd (omega arith)

taken : fast_slob_alloc small 20 ≡ some (4096, record small { buckets = 4128 ∷ 4224 ∷ [] })
unfolding fast_slob_alloc take_first small
taken = refl

too_large : fast_slob_alloc small 65 ≡ none
unfolding fast_slob_alloc take_first small
too_large = refl

small-Chains :
    Chains small.mem small.buckets ((4096 ∷ 4128 ∷ 4160 ∷ 4192 ∷ []) ∷ (4224 ∷ 4288 ∷ []) ∷ [])
unfolding small
small-Chains = omega arith

-- The framework maps (1024 - 8) KB: four buckets of 260096 bytes, the last with buffers of 131072.
abbrev framework_geometry : Geometry
framework_geometry = record {
  bucket_size = 260096;
  min_alloc_size = 256;
  max_alloc_size = 131072;
  alloc_size_shift = 3;
  num_buckets = 4;
  start = 4096;
  end = 1044480;
}

framework : Slob
unfolding carve_buckets
framework = record {
  geometry = framework_geometry;
  buckets = 4096 ∷ 264192 ∷ 524288 ∷ 784384 ∷ [];
  mem = (carve_buckets 4 (λ _. 0) 4096 260096 256 3).1;
}

framework_made : fast_slob_create 64 true 4096 (λ _. 0) 1040384 131072 3 4 ≡ some framework
unfolding fast_slob_create framework
framework_made = refl

never_twice_example :
    Avoids 4128 (4096 ∷ [])
    × (i : ℕ) × (k : ℕ) × IsSlot small_geometry i k 4128
    × (20 ≤ 32 * 2 ^ (i * 1))
unfolding small fast_slob_alloc take_first
never_twice_example =
    never_twice 64 true 4096 (λ _. 0) 256 64 1 2 small small_made small-Fits
      (record small { buckets = 4128 ∷ 4224 ∷ [] }) (4096 ∷ []) 20 4128
      (record small { buckets = 4160 ∷ 4224 ∷ [] }) (next here (takes 20 4096 taken)) refl

second_taken :
    fast_slob_alloc (record small { buckets = 4128 ∷ 4224 ∷ [] }) 20
    ≡ some (4128, record small { buckets = 4160 ∷ 4224 ∷ [] })
unfolding small fast_slob_alloc take_first
second_taken = refl

out_disjoint_example :
    (i : ℕ) × (k : ℕ) × (j : ℕ) × (l : ℕ) × IsSlot small_geometry i k 4128
    × IsSlot small_geometry j l 4096
    × ((4128 + chunk small_geometry i ≤ 4096) ⊎ (4096 + chunk small_geometry j ≤ 4128))
    × (4096 ≤ 4128 × 4128 + chunk small_geometry i ≤ 4352)
    × (4096 ≤ 4096 × 4096 + chunk small_geometry j ≤ 4352)
unfolding small
out_disjoint_example =
    out_disjoint 64 true 4096 (λ _. 0) 256 64 1 2 small small_made small-Fits
      (record small { buckets = 4160 ∷ 4224 ∷ [] }) (4128 ∷ 4096 ∷ []) [] (4096 ∷ []) (4128 ∷ []) []
      4128 4096 (next (next here (takes 20 4096 taken)) (takes 20 4128 second_taken)) refl refl
      (omega arith)

-- The second buffer of 128 KB ends 2 KB behind the last bucket.
create_overruns_example :
    (head : ℕ) × (ps : List ℕ) × (k : ℕ) × (p : ℕ) × (get_elem? framework.buckets 3 ≡ some head)
    × Chain framework.mem head ps
    × (get_elem? ps k ≡ some p)
    × (4096 + 4 * 260096 < p + chunk framework_geometry 3)
unfolding framework
create_overruns_example =
    create_overruns 64 true 4096 (λ _. 0) 1040384 131072 3 4 framework 3 framework_made
      (omega arith) (omega arith)

alloc_fails_example : ◌≡◌ {A = List ℕ} [] []
unfolding small fast_slob_alloc take_first
alloc_fails_example =
    alloc_fails (record small { buckets = 0 ∷ 0 ∷ [] }) ([] ∷ [] ∷ []) 40 1 [] (omega arith) refl
      refl (omega arith)

-- 4096 is out; it comes back in front of the free list of its bucket.
free-Chains_example :
    let s' = fast_slob_free (record small { buckets = 4128 ∷ 4224 ∷ [] }) 4096 in
    Chains s'.mem s'.buckets ((4096 ∷ 4128 ∷ 4160 ∷ 4192 ∷ []) ∷ (4224 ∷ 4288 ∷ []) ∷ [])
unfolding small
free-Chains_example =
    free-Chains (record small { buckets = 4128 ∷ 4224 ∷ [] })
      ((4128 ∷ 4160 ∷ 4192 ∷ []) ∷ (4224 ∷ 4288 ∷ []) ∷ []) 0 0 4096 (4128 ∷ 4160 ∷ 4192 ∷ [])
      (omega arith) (omega arith) (omega arith) (omega arith) refl
