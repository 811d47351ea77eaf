-- ===== src/Slob.antt =====
-- module/new/fast_slob.h: the allocator of the buffers that the driver shares with a process.
-- The free buffers of a bucket form a list through their own first words, so the model keeps the
-- words of the region as a memory, `mem`, and a bucket as the address of its first free buffer
-- (0 is NULL). Sizes stay far below 2 ^ 32 (`binder_mmap` allows 4 MB), so nothing wraps.
pub mod Chain
pub mod Alloc
pub mod Free
pub mod Create
pub mod Disjoint
pub mod Once
pub mod History
pub mod Origin
pub mod Overrun
mod Tests
use android_binder_ipc.Common.{
  ℕ, zero, suc, ◌+◌, ◌-◌, ◌*◌, ◌/◌, ◌%◌, ◌^◌, Bool, true, false, not, ◌&&◌, ◌||◌, Option, none,
  some, List, [], ◌∷◌, ltb, leb, ◌==◌, if◌then◌else◌, get_or, set,
}

-- MIN_ALLOC_SIZE, sizeof(char *) on the 32-bit targets of the driver
abbrev pub min_size : ℕ
min_size = 4

-- the kernel's ALIGN for a power of two `a`
abbrev pub align : ℕ → ℕ → ℕ
align x a = (x + a - 1) / a * a

abbrev pub update : (ℕ → ℕ) → ℕ → ℕ → ℕ → ℕ
update mem p v q = if p == q then v else mem q

-- The fields of `struct fast_slob` that stay as `fast_slob_create` sets them.
pub record Geometry : Type 0 where
  pub bucket_size : ℕ
  pub min_alloc_size : ℕ
  pub max_alloc_size : ℕ
  pub alloc_size_shift : ℕ
  pub num_buckets : ℕ
  pub start : ℕ
  pub end : ℕ

-- `struct fast_slob`, with the memory of its region. The lock is held for the whole of each
-- operation, which is one step here.
pub record Slob : Type 0 where
  pub geometry : Geometry
  pub open geometry use *
  pub buckets : List ℕ
  pub mem : ℕ → ℕ

-- The inner loop of `fast_slob_create`: links the buffers of one bucket, from `p` to `end`.
pub carve : ℕ → (ℕ → ℕ) → ℕ → ℕ → ℕ → ℕ → ℕ
carve zero mem p end chunk = mem
carve (suc fuel) mem p end chunk = elim (ltb p end) [
  | true ↦
      let next = p + chunk in
      carve fuel (update mem p (if ltb next end then next else 0)) next end chunk
  | false ↦ mem
]

-- Its outer loop, with `n` buckets left and `first` the start of the next one.
pub carve_buckets : ℕ → (ℕ → ℕ) → ℕ → ℕ → ℕ → ℕ → List ℕ × (ℕ → ℕ)
unfolding carve
carve_buckets zero mem first bucket_size alloc_size shift = ([], mem)
carve_buckets (suc n) mem first bucket_size alloc_size shift =
    let last = first + bucket_size in
    let mem' = carve bucket_size mem first last (align alloc_size min_size) in
    let (heads, mem'') = carve_buckets n mem' last bucket_size (alloc_size * 2 ^ shift) shift in
    (first ∷ heads, mem'')

-- L1_CACHE_ALIGN rounds a bucket up to whole cache lines, or down where that is too much.
pub bucket_bytes : ℕ → ℕ → ℕ → ℕ
bucket_bytes cache_line size n =
    let rounded = align (size / n) cache_line in
    if ltb size (rounded * n) then size / n / cache_line * cache_line else rounded

-- `kmalloc` says whether there was memory for the descriptor, `start` is what vmalloc_user
-- returned, and `mem` is what stood there.
pub fast_slob_create : ℕ → Bool → ℕ → (ℕ → ℕ) → ℕ → ℕ → ℕ → ℕ → Option Slob
unfolding bucket_bytes carve_buckets
fast_slob_create cache_line kmalloc start mem size max_alloc_size shift n =
    let bucket_size = bucket_bytes cache_line size n in
    let min_alloc = max_alloc_size / 2 ^ (shift * (n - 1)) in
    let made = carve_buckets n mem start bucket_size min_alloc shift in
    if ltb max_alloc_size min_size || ltb shift 1 || ltb n 1
    then none
    else if ltb bucket_size max_alloc_size
    then none
    else if ltb min_alloc min_size
    then none
    else if not kmalloc || start == 0
    then none
    else some (record {
      geometry = record {
        bucket_size = bucket_size;
        min_alloc_size = min_alloc;
        max_alloc_size = max_alloc_size;
        alloc_size_shift = shift;
        num_buckets = n;
        start = start;
        end = start + size;
      };
      buckets = made.0;
      mem = made.1;
    })

-- The loop of `fast_slob_alloc` over the buckets from the one of `alloc_size` on: the buffer taken
-- and the buckets left.
pub take_first : (ℕ → ℕ) → ℕ → ℕ → ℕ → List ℕ → Option (ℕ × List ℕ)
take_first mem shift size alloc_size [] = none
take_first mem shift size alloc_size (b ∷ bs) =
    if leb size alloc_size && not (b == 0)
    then some (b, mem b ∷ bs)
    else elim (take_first mem shift size (alloc_size * 2 ^ shift) bs) [
      | none ↦ none
      | some (p, bs') ↦ some (p, b ∷ bs')
    ]

pub fast_slob_alloc : Slob → ℕ → Option (ℕ × Slob)
fast_slob_alloc s size =
    elim (take_first s.mem s.alloc_size_shift size s.min_alloc_size s.buckets) [
      | none ↦ none
      | some (p, bs) ↦ some (p, record s { buckets = bs })
    ]

-- the distance between the buffers of bucket `idx`
abbrev pub chunk : Geometry → ℕ → ℕ
chunk g idx = align (g.min_alloc_size * 2 ^ (idx * g.alloc_size_shift)) min_size

-- `none` is -1.
unfoldable pub fast_slob_bucket : Slob → ℕ → Option ℕ
fast_slob_bucket s p =
    let off = p - s.start in
    let idx = off / s.bucket_size in
    if ltb p s.start || leb s.end p
    then none
    else if ((off - idx * s.bucket_size) % chunk s.geometry idx) == 0
    then some idx
    else none

-- The source reads and writes buckets[idx] for any idx. An index past the buckets (a pointer into the
-- bytes that the rounding of bucket_size leaves behind the last bucket) would reach memory behind the
-- array there; here it reads NULL and writes no bucket.
unfoldable pub free_to : Slob → ℕ → ℕ → Slob
free_to s idx p = record s {
  mem = update s.mem p (get_or s.buckets idx 0);
  buckets = set s.buckets idx p;
}

-- A pointer that is no buffer of the region is reported and ignored.
pub fast_slob_free : Slob → ℕ → Slob
unfolding fast_slob_bucket free_to
fast_slob_free s p = elim (fast_slob_bucket s p) [ none ↦ s | some idx ↦ free_to s idx p ]
