-- ===== src/BinderLoop/Device.antt =====
-- `binder_open`, `binder_close` and `binder_become_context_manager` of servicemanager/binder.c. What
-- the kernel and malloc do is an interface; the state of all of them is `S`.
use android_binder_ipc.Common.{ℕ, Bool, true, false, Option, none, some}
use android_binder_ipc.BinderLoop.{fault, Call, pure, ◌>>=◌, ◌>>◌}

-- Whether a call succeeds. `map_file` is told the size and the descriptor.
pub record Device (S : Type 0) : Type 0 where
  pub malloc : Call S Bool
  pub open_file : Call S (Option ℕ)
  pub map_file : ℕ → ℕ → Call S (Option ℕ)
  pub unmap : ℕ → ℕ → Call S (Unit {0})
  pub close : ℕ → Call S (Unit {0})
  pub free : Call S (Unit {0})
  pub set_context_mgr : ℕ → Call S Bool

-- `struct binder_state`
pub record BinderState : Type 0 where
  pub fd : ℕ
  pub mapped : ℕ
  pub mapsize : ℕ

module _ {S : Type 0} (dev : Device S) where
  -- `none` is NULL; what has been taken so far is given back.
  unfoldable pub binder_open : ℕ → Call S (Option BinderState)
  binder_open mapsize = do
    there ← dev.malloc
    elim there [
      | false ↦ pure none
      | true ↦ do
        opened ← dev.open_file
        elim opened as (λ o. Call S (Option BinderState)) [
          | none ↦ do dev.free; pure none
          | some fd ↦ do
            mapped ← dev.map_file mapsize fd
            elim mapped as (λ o. Call S (Option BinderState)) [
              | none ↦ do dev.close fd; dev.free; pure none
              | some at ↦ pure (some (record { fd = fd; mapped = at; mapsize = mapsize }))
            ]
        ]
    ]

  unfoldable pub binder_close : BinderState → Call S (Unit {0})
  binder_close bs = do dev.unmap bs.mapped bs.mapsize; dev.close bs.fd; dev.free

  -- The file is read through the pointer that binder_open has returned.
  unfoldable pub binder_become_context_manager : Option BinderState → Call S Bool
  binder_become_context_manager none = λ s. fault
  binder_become_context_manager (some bs) = dev.set_context_mgr bs.fd
