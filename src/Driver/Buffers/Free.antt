-- ===== src/Driver/Buffers/Free.antt =====
-- `bcmd_write_free_buffer` of module/new/binder.c, called twice.
use android_binder_ipc.Common.{
  ℕ, ◌+◌, ◌-◌, ◌%◌, ◌^◌, Bool, true, false, ◌||◌, Option, none, some, ◌≡◌, ◌≢◌, refl, sym, ap, ◌∙◌,
  subst, ok, err, einval, if◌then◌else◌, ltb, ◌==◌, get_or, Bool-cases, inl, inr, ==-self, ==_iff,
}
use android_binder_ipc.Slob.{Slob, fast_slob_bucket, free_to}
use android_binder_ipc.Driver.World.{World, M, back, fail, ◌>>◌}
use android_binder_ipc.Driver.Transfer.{rounds}
use android_binder_ipc.Driver.Buffers.{
  header, kernel_place, buf_at, buf_of, release_objs, give_buf, free_taken, bcmd_write_free_buffer,
}

-- The cell at `p` links the buffer to the next free one.
link_lem : (s : Slob) (idx p : ℕ) → (free_to s idx p).mem p ≡ get_or s.buckets idx 0
unfolding free_to
link_lem s idx p = rw (==-self p) refl

-- The buffer that has been freed is none of its user's any more.
freed_lem :
    (s : Slob) (idx ustart uaddr : ℕ)
    → get_or s.buckets idx 0 ≢ uaddr
    → buf_at (free_to s idx (kernel_place s ustart uaddr)) ustart uaddr ≡ none
unfolding buf_at free_to
freed_lem s idx ustart uaddr h = go (ustart == 0 || ltb uaddr ustart) (fast_slob_bucket s' p)
  where
    p : ℕ
    p = kernel_place s ustart uaddr

    s' : Slob
    s' = free_to s idx (kernel_place s ustart uaddr)

    differ : (s'.mem p == uaddr) ≡ false
    differ = elim (Bool-cases (s'.mem p == uaddr)) [
      | inl e ↦ absurd (h (sym (link_lem s idx p) ∙ (==_iff (s'.mem p) uaddr).0 e))
      | inr e ↦ e
    ]

    go :
        (b : Bool) (o : Option ℕ)
        → (if b then none else elim o as (λ x. Option (Slob × ℕ × ℕ)) [
          | none ↦ none
          | some i ↦ if s'.mem p == uaddr then some (s', p, i) else none
        ])
          ≡ none
    go true o = refl
    go false none = refl
    go false (some i) = rw differ refl

-- What `buf_of` finds is in the region of the process, at the place that the address names.
Found : World → ℕ → Option (Slob × ℕ × ℕ) → Type 0
Found w uaddr none = Unit
Found w uaddr (some (s, p, idx)) = (w.proc.slob ≡ some s) × (p ≡ kernel_place s w.proc.ustart uaddr)

buf_of-Found : (w : World) (uaddr : ℕ) → Found w uaddr (buf_of uaddr w)
unfolding buf_of buf_at Found
buf_of-Found w uaddr = go w.proc.slob refl
  where
    at :
        (s : Slob)
        → w.proc.slob ≡ some s
        → (b : Bool) (o : Option ℕ) (t : Bool)
        → Found w uaddr (
            if b then none else elim o as (λ x. Option (Slob × ℕ × ℕ)) [
              | none ↦ none
              | some idx ↦ if t then some (s, kernel_place s w.proc.ustart uaddr, idx) else none
            ])
    at s e true o t = tt
    at s e false none t = tt
    at s e false (some idx) true = (e, refl)
    at s e false (some idx) false = tt

    go :
        (o : Option Slob)
        → w.proc.slob ≡ o
        → Found w uaddr (elim o as (λ x. Option (Slob × ℕ × ℕ)) [
          | none ↦ none
          | some s ↦ buf_at s w.proc.ustart uaddr
        ])
    go none e = tt
    go (some s) e =
        at s e (w.proc.ustart == 0 || ltb uaddr w.proc.ustart)
          (fast_slob_bucket s (kernel_place s w.proc.ustart uaddr))
          (s.mem (kernel_place s w.proc.ustart uaddr) == uaddr)

-- The state behind the release of a buffer.
abbrev pub given : World → Slob → ℕ → ℕ → World
given w s p idx = record w { proc = record w.proc { slob = some (free_to s idx p) } }

free_lem :
    (w : World) (uaddr : ℕ) (s : Slob) (p idx : ℕ)
    → buf_of uaddr w ≡ some (s, p, idx)
    → s.mem (p + 12) ≡ 0
    → bcmd_write_free_buffer uaddr w ≡ back (ok tt) (given w s p idx)
unfolding bcmd_write_free_buffer free_taken release_objs give_buf
free_lem w uaddr s p idx e h =
    ap
      (λ o.
        (elim o as (λ x. M (Unit {0})) [ none ↦ fail einval | some x ↦ free_taken x.0 x.1 x.2 ]) w)
      e
    ∙ ap
        (λ n.
          (release_objs n s.mem (p + header)
                (p + header + (s.mem (p + 4) + 2 ^ 32 - s.mem p) % 2 ^ 32)
              >> give_buf s idx p)
            w)
        (ap rounds h)

-- A buffer without objects is freed once: the first call gives it back to the allocator, and a second
-- one is refused with -EINVAL and changes nothing. The head of the bucket's free list, an address of the
-- kernel, is not the user's address.
pub free_once :
    (w : World) (uaddr : ℕ) (s : Slob) (p idx : ℕ)
    → buf_of uaddr w ≡ some (s, p, idx)
    → s.mem (p + 12) ≡ 0
    → get_or s.buckets idx 0 ≢ uaddr
    → (bcmd_write_free_buffer uaddr w ≡ back (ok tt) (given w s p idx))
      × (bcmd_write_free_buffer uaddr (given w s p idx) ≡ back (err einval) (given w s p idx))
unfolding bcmd_write_free_buffer buf_of Found
free_once w uaddr s p idx e h d =
    let (there, here) = subst (Found w uaddr) e (buf_of-Found w uaddr) in
    (
      free_lem w uaddr s p idx e h,
      ap
          (λ o.
            (elim o as (λ x. M (Unit {0})) [ none ↦ fail einval | some x ↦ free_taken x.0 x.1 x.2 ])
              (given w s p idx))
          (ap (λ q. buf_at (free_to s idx q) w.proc.ustart uaddr) here
            ∙ freed_lem s idx w.proc.ustart uaddr d),
    )
