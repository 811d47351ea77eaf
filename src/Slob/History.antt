-- ===== src/Slob/History.antt =====
-- Any history of the allocator of fast_slob.h, with the owners writing into the buffers they hold.
use android_binder_ipc.Common.{
  ℕ, suc, ◌+◌, ◌*◌, ◌<◌, ◌≤◌, ◌≡◌, List, [], ◌∷◌, ◌++◌, some, arith, All, set, length, length-set,
  All-middle, get_elem?_of_lt,
}
use android_binder_ipc.Slob.{
  Geometry, Slob, update, chunk, fast_slob_alloc, fast_slob_free, free_to,
}
use android_binder_ipc.Slob.Chain.{Chains, Avoids, Chains-update}
use android_binder_ipc.Slob.Alloc.{alloc_takes}
use android_binder_ipc.Slob.Free.{IsSlot, free_slot, free_to-Chains}
use android_binder_ipc.Slob.Create.{pow_pos}
use android_binder_ipc.Slob.Disjoint.{Fits, slots_disjoint}
use android_binder_ipc.Slob.Once.{
  count, counts, counts-set, count-middle, Avoids-counts, Slots, Slots-set, Slots-get,
}

-- What the driver and the processes do: take a buffer, give back one that is out, write into one
-- that is out. The second index lists the buffers that are out.
pub data Step (s : Slob) (out : List ℕ) : Slob → List ℕ → Type 0 where
  takes : (size p : ℕ) {s' : Slob} → fast_slob_alloc s size ≡ some (p, s') → Step s out s' (p ∷ out)
  gives : (p : ℕ) (xs ys : List ℕ) → out ≡ xs ++ p ∷ ys → Step s out (fast_slob_free s p) (xs ++ ys)
  writes :
      (i k p : ℕ) (xs ys : List ℕ) (a v : ℕ)
      → out ≡ xs ++ p ∷ ys
      → IsSlot s.geometry i k p
      → p ≤ a
      → a < p + chunk s.geometry i
      → Step s out (record s { mem = update s.mem a v }) out

pub data Reach (s : Slob) (out : List ℕ) : Slob → List ℕ → Type 0 where
  here : Reach s out s out
  next : {t u : Slob} {ts us : List ℕ} → Reach s out t ts → Step t ts u us → Reach s out u us

-- The free lists are sound chains of buffers, and each buffer is free or out, and once at most.
pub record Owned (s : Slob) (out : List ℕ) : Type 0 where
  pub free : List (List ℕ)
  pub chained : Chains s.mem s.buckets free
  pub slots : Slots s.geometry 0 free
  pub out_slots : All (λ p. (i : ℕ) × (k : ℕ) × IsSlot s.geometry i k p) out
  pub once : (a : ℕ) → counts a free + count a out ≤ 1
  pub whole : Fits s.geometry
  pub not_null : 0 < s.start
  pub word : 0 < s.min_alloc_size
  pub listed : length free ≡ s.num_buckets

pub takes-Owned :
    (s : Slob) (out : List ℕ) (size p : ℕ) (s' : Slob)
    → fast_slob_alloc s size ≡ some (p, s')
    → Owned s out
    → Owned s' (p ∷ out)
takes-Owned s out size p s' e v =
    let (i, rest, fits, headed, chains, same) = alloc_takes s s' v.free size p v.chained e in
    let here : All (λ q. (k : ℕ) × IsSlot s.geometry i k q) (p ∷ rest) =
      Slots-get s.geometry 0 i i v.free (p ∷ rest) (omega arith) v.slots headed in
    rw same (record {
      free = set v.free i rest;
      chained = chains;
      slots = Slots-set s.geometry 0 i i v.free rest (omega arith) v.slots here.1;
      out_slots = ((i, here.0.0, here.0.1), v.out_slots);
      once = λ a. omega (arith, v.once a, counts-set a i v.free (p ∷ rest) rest headed);
      whole = v.whole;
      not_null = v.not_null;
      word = v.word;
      listed = omega (arith, v.listed, length-set v.free i rest);
    })

-- A buffer that is out is in no free list.
out-Avoids :
    (s : Slob) (xs ys : List ℕ) (p : ℕ) (v : Owned s (xs ++ p ∷ ys)) → All (Avoids p) v.free
out-Avoids s xs ys p v = Avoids-counts p v.free (ground (arith, v.once p, count-middle p p xs ys))

gives-Owned :
    (s : Slob) (xs ys : List ℕ) (p : ℕ)
    → Owned s (xs ++ p ∷ ys)
    → Owned (fast_slob_free s p) (xs ++ ys)
unfolding free_to
gives-Owned s xs ys p v =
    let ((i, k, slot), others) =
      All-middle (λ q. (i : ℕ) × (k : ℕ) × IsSlot s.geometry i k q) xs p ys v.out_slots in
    let (f, e) = get_elem?_of_lt v.free i (omega (arith, v.listed, slot.bucket)) in
    let old : All (λ q. (k : ℕ) × IsSlot s.geometry i k q) f =
      Slots-get s.geometry 0 i i v.free f (omega arith) v.slots e in
    rw (free_slot s i k p slot) (record {
      free = set v.free i (p ∷ f);
      chained =
          free_to-Chains s v.free i p f (omega (arith, slot.address, v.not_null))
            (out-Avoids s xs ys p v) v.chained e;
      slots = Slots-set s.geometry 0 i i v.free (p ∷ f) (omega arith) v.slots ((k, slot), old);
      out_slots = others;
      once =
          λ a. omega (arith, v.once a, counts-set a i v.free f (p ∷ f) e, count-middle a p xs ys);
      whole = v.whole;
      not_null = v.not_null;
      word = v.word;
      listed = omega (arith, v.listed, length-set v.free i (p ∷ f));
    })

-- A word written into one buffer is not the first word of another.
Avoids-inside :
    (g : Geometry) (i k p a j : ℕ) (f : List ℕ)
    → Fits g
    → 0 < g.min_alloc_size
    → IsSlot g i k p
    → p ≤ a
    → a < p + chunk g i
    → Avoids p f
    → All (λ q. (l : ℕ) × IsSlot g j l q) f
    → Avoids a f
Avoids-inside g i k p a j [] h m v lo hi n w = tt
Avoids-inside g i k p a j (q ∷ f) h m v lo hi n ((l, x), w) = (
  λ e.
      let room : 0 < chunk g j =
        omega (arith, pow_pos g.min_alloc_size (j * g.alloc_size_shift) m) in
      absurd (omega (arith, e, slots_disjoint g i k p j l q h v x n.0)),
  Avoids-inside g i k p a j f h m v lo hi n.1 w,
)

Avoids-All_inside :
    (g : Geometry) (i k p a b : ℕ) (fs : List (List ℕ))
    → Fits g
    → 0 < g.min_alloc_size
    → IsSlot g i k p
    → p ≤ a
    → a < p + chunk g i
    → All (Avoids p) fs
    → Slots g b fs
    → All (Avoids a) fs
Avoids-All_inside g i k p a b [] h m v lo hi n w = tt
Avoids-All_inside g i k p a b (f ∷ fs) h m v lo hi n w = (
  Avoids-inside g i k p a b f h m v lo hi n.0 w.0,
  Avoids-All_inside g i k p a (suc b) fs h m v lo hi n.1 w.1,
)

writes-Owned :
    (s : Slob) (xs ys : List ℕ) (i k p a v : ℕ)
    → IsSlot s.geometry i k p
    → p ≤ a
    → a < p + chunk s.geometry i
    → Owned s (xs ++ p ∷ ys)
    → Owned (record s { mem = update s.mem a v }) (xs ++ p ∷ ys)
writes-Owned s xs ys i k p a v slot lo hi o = record {
  free = o.free;
  chained =
      Chains-update s.mem a v s.buckets o.free
        (Avoids-All_inside s.geometry i k p a 0 o.free o.whole o.word slot lo hi
          (out-Avoids s xs ys p o) o.slots)
        o.chained;
  slots = o.slots;
  out_slots = o.out_slots;
  once = o.once;
  whole = o.whole;
  not_null = o.not_null;
  word = o.word;
  listed = o.listed;
}

-- Taking, giving back and writing keep the free lists sound and the buffers owned once.
pub Step-Owned : {s t : Slob} {out ts : List ℕ} → Step s out t ts → Owned s out → Owned t ts
Step-Owned {s} {t} {out} (takes size p e) v = takes-Owned s out size p t e v
Step-Owned {s} {t} {out} (gives p xs ys e) v = gives-Owned s xs ys p (rw e at v)
Step-Owned {s} {t} {out} (writes i k p xs ys a w e slot lo hi) v =
    rw e (writes-Owned s xs ys i k p a w slot lo hi (rw e at v))

pub Reach-Owned :
    {s : Slob} {out : List ℕ} {t : Slob} {ts : List ℕ} → Owned s out → Reach s out t ts → Owned t ts
Reach-Owned v here = v
Reach-Owned v (next r st) = Step-Owned st (Reach-Owned v r)
