-- ===== src/Slob/Once.antt =====
-- How often an address stands among the free buffers of fast_slob.h.
use android_binder_ipc.Common.{
  ℕ, zero, suc, ◌+◌, ◌*◌, ◌^◌, ◌<◌, ◌≤◌, ◌≡◌, refl, List, [], ◌∷◌, ◌++◌, some, arith, All,
  get_elem?, set, if◌then◌else◌, ◌==◌, dec_lt,
}
use android_binder_ipc.Slob.{Geometry, align, min_size}
use android_binder_ipc.Slob.Chain.{Avoids}
use android_binder_ipc.Slob.Free.{IsSlot}
use android_binder_ipc.Slob.Create.{buffers, bucket_buffers, pow_pos}

abbrev pub count : ℕ → List ℕ → ℕ
count a [] = 0
count a (x ∷ xs) = (if a == x then 1 else 0) + count a xs

abbrev pub counts : ℕ → List (List ℕ) → ℕ
counts a [] = 0
counts a (f ∷ fs) = count a f + counts a fs

pub counts-set :
    (a i : ℕ) (fs : List (List ℕ)) (f g : List ℕ)
    → get_elem? fs i ≡ some f
    → counts a (set fs i g) + count a f ≡ counts a fs + count a g
counts-set a i [] f g e = ground arith
counts-set a zero (h ∷ fs) f g e = let same : h ≡ f = cc in rw same (omega arith)
counts-set a (suc i) (h ∷ fs) f g e = omega (arith, counts-set a i fs f g e)

pub count-middle :
    (a p : ℕ) (xs ys : List ℕ)
    → count a (xs ++ p ∷ ys) ≡ (if a == p then 1 else 0) + count a (xs ++ ys)
count-middle a p [] ys = refl
count-middle a p (x ∷ xs) ys = ground (arith, count-middle a p xs ys)

Avoids-count : (p : ℕ) (xs : List ℕ) → count p xs ≡ 0 → Avoids p xs
Avoids-count p [] h = tt
Avoids-count p (x ∷ xs) h = (ground arith, Avoids-count p xs (ground arith))

pub Avoids-counts : (p : ℕ) (fs : List (List ℕ)) → counts p fs ≡ 0 → All (Avoids p) fs
Avoids-counts p [] h = tt
Avoids-counts p (f ∷ fs) h = (Avoids-count p f (omega arith), Avoids-counts p fs (omega arith))

pub count-Avoids : (p : ℕ) (xs : List ℕ) → Avoids p xs → count p xs ≡ 0
count-Avoids p [] h = refl
count-Avoids p (x ∷ xs) h = ground (arith, count-Avoids p xs h.1)

pub Avoids-of_count : (p : ℕ) (xs : List ℕ) → count p xs ≡ 0 → Avoids p xs
Avoids-of_count = Avoids-count

-- The buffers of the bucket at place `i` of the list are buffers of bucket `b + i`.
abbrev pub Slots : Geometry → ℕ → List (List ℕ) → Type 0
Slots g b [] = Unit
Slots g b (f ∷ fs) = All (λ p. (k : ℕ) × IsSlot g b k p) f × Slots g (suc b) fs

pub Slots-set :
    (g : Geometry) (b i n : ℕ) (fs : List (List ℕ)) (f : List ℕ)
    → n ≡ b + i
    → Slots g b fs
    → All (λ p. (k : ℕ) × IsSlot g n k p) f
    → Slots g b (set fs i f)
Slots-set g b i n [] f e v h = tt
Slots-set g b zero n (x ∷ fs) f e v h = let same : n ≡ b = omega arith in (rw (← same) h, v.1)
Slots-set g b (suc i) n (x ∷ fs) f e v h = (v.0, Slots-set g (suc b) i n fs f (omega arith) v.1 h)

pub Slots-get :
    (g : Geometry) (b i n : ℕ) (fs : List (List ℕ)) (f : List ℕ)
    → n ≡ b + i
    → Slots g b fs
    → get_elem? fs i ≡ some f
    → All (λ p. (k : ℕ) × IsSlot g n k p) f
Slots-get g b i n [] f e v h = absurd (ground arith)
Slots-get g b zero n (x ∷ fs) f e v h =
    let same : n ≡ b = omega arith in let here : x ≡ f = cc in rw (← here, same) v.0
Slots-get g b (suc i) n (x ∷ fs) f e v h = Slots-get g (suc b) i n fs f (omega arith) v.1 h

count-buffers_below : (fuel p end c a : ℕ) → a < p → count a (buffers fuel p end c) ≡ 0
unfolding buffers
count-buffers_below zero p end c a h = refl
count-buffers_below (suc fuel) p end c a h =
    ground (arith, count-buffers_below fuel (p + c) end c a)

count-buffers_above : (fuel p end c a : ℕ) → end ≤ a → count a (buffers fuel p end c) ≡ 0
unfolding buffers
count-buffers_above zero p end c a h = refl
count-buffers_above (suc fuel) p end c a h =
    ground (arith, count-buffers_above fuel (p + c) end c a)

count-buffers : (fuel p end c a : ℕ) → 0 < c → count a (buffers fuel p end c) ≤ 1
unfolding buffers
count-buffers zero p end c a h = omega arith
count-buffers (suc fuel) p end c a h =
    ground (arith, count-buffers fuel (p + c) end c a h, count-buffers_below fuel (p + c) end c a)

counts_below :
    (n first b alloc shift a : ℕ) → a < first → counts a (bucket_buffers n first b alloc shift) ≡ 0
unfolding bucket_buffers
counts_below zero first b alloc shift a h = refl
counts_below (suc n) first b alloc shift a h = omega (
  arith,
  count-buffers_below b first (first + b) (align alloc min_size) a h,
  counts_below n (first + b) b (alloc * 2 ^ shift) shift a (omega arith),
)

-- `fast_slob_create` puts no address into the free lists twice.
pub counts-bucket_buffers :
    (n first b alloc shift a : ℕ) → 0 < alloc → counts a (bucket_buffers n first b alloc shift) ≤ 1
unfolding bucket_buffers
counts-bucket_buffers zero first b alloc shift a h = omega arith
counts-bucket_buffers (suc n) first b alloc shift a h = elim (dec_lt a (first + b)) [
  | yes low ↦ omega (
    arith,
    count-buffers b first (first + b) (align alloc min_size) a (omega arith),
    counts_below n (first + b) b (alloc * 2 ^ shift) shift a low,
  )
  | no high ↦ omega (
    arith,
    count-buffers_above b first (first + b) (align alloc min_size) a (omega arith),
    counts-bucket_buffers n (first + b) b (alloc * 2 ^ shift) shift a (pow_pos alloc shift h),
  )
]
