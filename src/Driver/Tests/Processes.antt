-- ===== src/Driver/Tests/Processes.antt =====
-- Runs of the ioctls of module/new/binder.c on a process: its context manager, its threads and the
-- buffers that it has mapped.
use android_binder_ipc.Common.{
  true, false, some, [], ◌∷◌, ◌≡◌, refl, ok, err, einval, ebusy, arith, inl, if◌then◌else◌, ◌==◌,
}
use android_binder_ipc.Common.Int.{pos}
use android_binder_ipc.Slob.{Slob, fast_slob_bucket}
use android_binder_ipc.Driver.World.{World, Obj, back}
use android_binder_ipc.Driver.Tests.{world, proc, thread, world-IsTable}
use android_binder_ipc.Driver.Transaction.{target_obj}
use android_binder_ipc.Driver.Ioctl.{cmd_set_context_mgr}
use android_binder_ipc.Driver.Ioctl.Manager.{become_manager}
use android_binder_ipc.Driver.Buffers.{buf_of, buf_at, bcmd_write_free_buffer}
use android_binder_ipc.Driver.Buffers.Free.{given, free_once}
use android_binder_ipc.Driver.Process.{find_thread, binder_get_thread}
use android_binder_ipc.Driver.Process.Threads.{same_thread}

become_manager_example :
    (o : Obj) × (w' : World) × (cmd_set_context_mgr world ≡ back (ok tt) w')
    × (target_obj 0 w' ≡ some o)
    × (o.owner ≡ 3)
    × (o.binder ≡ 0)
    × (o.refs ≡ pos 100000)
    × (cmd_set_context_mgr (record w' { proc = proc; euid = 7 })
        ≡ back (err ebusy) (record w' { proc = proc; euid = 7 }))
become_manager_example =
    become_manager world proc 7 world-IsTable (omega arith) refl refl (inl refl)

-- A region of 1024 bytes at 4096, seen at 70000 by the user; its second buffer is taken.
abbrev region : Slob
region = record {
  geometry = record {
    bucket_size = 1024;
    min_alloc_size = 64;
    max_alloc_size = 64;
    alloc_size_shift = 1;
    num_buckets = 1;
    start = 4096;
    end = 5120;
  };
  buckets = 4224 ∷ [];
  mem = λ p. if p == 4160 then 70080 else 0;
}

abbrev mapped : World
mapped = record world {
  proc = record proc { slob = some region; ustart = 70000; slob_uses = pos 1 };
}

taken : buf_of 70080 mapped ≡ some (region, 4160, 0)
unfolding buf_of buf_at fast_slob_bucket
taken = refl

free_once_example :
    (bcmd_write_free_buffer 70080 mapped ≡ back (ok tt) (given mapped region 4160 0))
    × (bcmd_write_free_buffer 70080 (given mapped region 4160 0)
        ≡ back (err einval) (given mapped region 4160 0))
free_once_example = free_once mapped 70080 region 4160 0 taken refl (λ e. omega arith)

got : binder_get_thread (thread ∷ []) 101 false world ≡ back (ok (some thread, thread ∷ [])) world
unfolding binder_get_thread find_thread
got = refl

same_thread_example :
    (thread.pid ≡ 101)
    × (binder_get_thread (thread ∷ []) 101 true mapped
        ≡ back (ok (some thread, thread ∷ [])) mapped)
same_thread_example =
    same_thread (thread ∷ []) 101 false true world world mapped thread (thread ∷ []) got
