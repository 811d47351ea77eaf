-- ===== src/Driver/Mapping.antt =====
-- The mapping of a process's buffers in module/new/binder.c: `binder_mmap`, and what the kernel calls
-- when a mapping is copied or goes.
use android_binder_ipc.Common.{
  ℕ, ◌-◌, ◌*◌, Bool, true, false, not, ◌||◌, Option, none, some, Result, ok, err, enomem, ebusy,
  eperm, if◌then◌else◌, ltb, ◌==◌,
}
use android_binder_ipc.Common.Int.{pos, inc, dec, ltb_ℤ}
use android_binder_ipc.Slob.{Slob, fast_slob_create}
use android_binder_ipc.Driver.World.{M, back, update_proc}

unfoldable pub binder_vm_open : M (Unit {0})
binder_vm_open = update_proc (λ p. record p { slob_uses = inc p.slob_uses })

-- The last mapping that goes takes the address of the region with it.
unfoldable pub binder_vm_close : M (Unit {0})
binder_vm_close = update_proc (λ p. record p {
  slob_uses = dec p.slob_uses;
  ustart = if ltb_ℤ (pos 0) (dec p.slob_uses) then p.ustart else 0;
})

-- What the kernel gives to a mapping: the line of its cache, where its memory is and what stands there,
-- and whether remap_vmalloc_range succeeds.
pub record MmapEnv : Type 0 where
  pub cache_line : ℕ
  pub there : Bool
  pub start : ℕ
  pub mem : ℕ → ℕ
  pub remapped : Result (Unit {0})

abbrev pub min_nat : ℕ → ℕ → ℕ
min_nat a b = if ltb b a then b else a

-- The region of a mapping: at most 4 MB; 16 KB is the largest buffer of a small one.
unfoldable pub map_slob : MmapEnv → ℕ → Option Slob
map_slob env size =
    let n = min_nat size (4096 * 1024) in
    if ltb n (512 * 1024)
    then fast_slob_create env.cache_line env.there env.start env.mem n (16 * 1024) 4 2
    else fast_slob_create env.cache_line env.there env.start env.mem n (128 * 1024) 3 4

unfoldable pub binder_mmap : MmapEnv → ℕ → ℕ → Bool → M (Unit {0})
unfolding map_slob
binder_mmap env vm_start vm_end writable w =
    if writable
    then back (err eperm) w
    else if not (w.proc.ustart == 0) || has_slob w.proc.slob
    then back (err ebusy) w
    else elim (map_slob env (vm_end - vm_start)) [
      | none ↦ back (err enomem) w
      | some s ↦ elim env.remapped [
        | err e ↦ back (err e) w
        | ok u ↦ back (ok tt) (record w {
          proc = record w.proc { slob = some s; ustart = vm_start; slob_uses = pos 1 };
        })
      ]
    ]
  where
    has_slob : Option Slob → Bool
    has_slob none = false
    has_slob (some s) = true
