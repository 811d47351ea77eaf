-- ===== src/Driver/Tests.antt =====
-- Runs of module/new/binder.c in a process with two objects and a thread that serves a call.
pub mod Calls
pub mod Processes
use android_binder_ipc.Common.{
  true, false, Option, none, some, [], ◌∷◌, ◌≡◌, ◌↔◌, refl, sym, ap, arith, ok, err, einval,
}
use android_binder_ipc.Common.Int.{pos, negsuc, ltb_ℤ}
use android_binder_ipc.Driver.World.{World, back, put_user, Msg, MsgType, Obj, Proc, Thread}
use android_binder_ipc.Driver.Objects.{
  binder_cmp, sign, find, binder_find_obj, binder_find_my_obj, new_obj,
}
use android_binder_ipc.Driver.Objects.Order.{cmp_zero, cmp_less, cmp_cycle}
use android_binder_ipc.Driver.Objects.Table.{Apart, Distinct, IsTable, Made}
use android_binder_ipc.Driver.Objects.Tree.{
  Node, leaf, node, in_order, descend, Sorted, IsKey, descend-eq-find,
}
use android_binder_ipc.Driver.Objects.Link.{Reads, Grown, new_obj_found}
use android_binder_ipc.Driver.Traces.{
  bcmd_fill_traces, bcmd_lookup_caller, find_caller, chain, find_in_messages, Nearest, fill_traces,
  lookup_newest, call_back,
}
use android_binder_ipc.Driver.Looper.{
  LooperCmd, bcmd_write_looper, bcmd_spawn_on_busy, request_looper, Bounded, IsBounded, state_of,
  Step, Steps, loopers-IsBounded, may_spawn, no_spawn,
}
use android_binder_ipc.Driver.Handlers.{bcmd_read_acquire}
use android_binder_ipc.Driver.Handlers.Counts.{counted_up, read_acquire}

-- An object of process 3, and one of process 9 that process 3 knows as reference 2.
abbrev mine : Obj
mine = record {
  table = 3;
  owner = 3;
  owner_queue = true;
  binder = 4096;
  cookie = 77;
  ref = 1;
  refs = pos 0;
  notifiers = [];
}

abbrev pub remote : Obj
remote = record mine { owner = 9; owner_queue = false; binder = 8192; ref = 2; refs = pos 1 }

abbrev proc : Proc
proc = record {
  queue = 3;
  obj_seq = 3;
  slob = none;
  slob_uses = pos 0;
  ustart = 0;
  pid = 100;
  busy_threads = pos 1;
  proc_loopers = pos 0;
  requested_loopers = pos 0;
  registered_loopers = pos 1;
  max_threads = pos 3;
  reclaim_list = [];
}

abbrev pub message : Msg
message = record {
  binder = 4096;
  cookie = 77;
  type = MsgType.bc_acquire;
  code = 0;
  flags = 0;
  buf = record {
    data_bytes = [];
    offsets = [];
    data_size = 0;
    offsets_size = 0;
    buf_size = 100;
    owners = [];
  };
  sender_pid = 0;
  sender_euid = 0;
  reply_to = 0;
  traces =
      record { caller_proc = 9; caller_thread = 12 }
      ∷ record { caller_proc = 7; caller_thread = 8 }
      ∷ [];
}

abbrev thread : Thread
thread = record {
  pid = 101;
  queue = 4;
  state = record { registered = false; entered = false };
  non_block = false;
  pending_replies = pos 0;
  incoming_transactions = message ∷ [];
}

abbrev pub world : World
world = record {
  proc = proc;
  thread = thread;
  objs = remote ∷ mine ∷ [];
  context_mgr_obj = none;
  context_mgr_uid = none;
  euid = 0;
  queues = record { seq = 20; all = [] };
  wakes = [];
  signal = false;
  memory = [];
  user = λ at n. none;
  writable = [];
  out = [];
  released = [];
}

world-IsTable : IsTable world
unfolding IsTable Distinct Apart
world-IsTable = (((λ e. omega arith), ((λ e. omega arith), tt)), (((refl, refl), tt), (tt, tt)))

cmp_less_example : ltb_ℤ (binder_cmp 3 4096 9 8192) (pos 0) ≡ true
cmp_less_example =
    cmp_less 0 0 3 4096 9 8192 (omega arith, omega arith) (omega arith, omega arith)
      (omega arith, omega arith) (omega arith, omega arith) (omega arith, omega arith)

cmp_cycle_example :
    (binder_cmp 3 0 3 0x60000000 ≡ negsuc 0)
    × (binder_cmp 3 0x60000000 3 0xC0000000 ≡ negsuc 0)
    × (binder_cmp 3 0xC0000000 3 0 ≡ negsuc 0)
cmp_cycle_example = cmp_cycle 3 0 (omega arith) (omega arith)

-- The two objects with the newest last, as the tree has them.
abbrev pair : World
pair = record world { objs = mine ∷ remote ∷ [] }

abbrev tree : Node
tree = node (node leaf mine leaf) remote leaf

pair-IsTable : IsTable pair
unfolding IsTable Distinct Apart
pair-IsTable = (((λ e. omega arith), ((λ e. omega arith), tt)), (((refl, refl), tt), (tt, tt)))

tree-Sorted : Sorted 3 (in_order tree)
unfolding Sorted binder_cmp sign
tree-Sorted = (
  record { owner_bound = omega arith; binder_bound = omega arith },
  refl,
  (record { less = refl; more = refl }, tt),
  (record { owner_bound = omega arith; binder_bound = omega arith }, refl, tt, tt),
)

remote-IsKey : IsKey 9 8192
remote-IsKey = record { owner_bound = omega arith; binder_bound = omega arith }

new-IsKey : IsKey 9 12288
new-IsKey = record { owner_bound = omega arith; binder_bound = omega arith }

tree-Reads : Reads tree pair
unfolding binder_find_obj
tree-Reads = record { agree = λ a b k. descend-eq-find 3 a b tree k tree-Sorted }

descend-eq-find_example : descend 9 8192 tree ≡ some remote
unfolding find
descend-eq-find_example = descend-eq-find 3 9 8192 tree remote-IsKey tree-Sorted

new_obj_found_example :
    (r : Option Obj) × (w' : World) × (t' : Node) × (new_obj 9 false 12288 5 pair ≡ back (ok r) w')
    × Made pair 9 12288 r w'
    × Grown pair w' tree r t'
    × Reads t' w'
new_obj_found_example =
    new_obj_found pair 9 false 12288 5 tree pair-IsTable (omega arith) new-IsKey tree-Reads

fill_traces_example :
    bcmd_fill_traces proc thread
    ≡ (record { caller_proc = 3; caller_thread = 4 } ∷ message.traces, false)
unfolding chain
fill_traces_example = fill_traces proc thread

lookup_newest_example : Nearest 7 message.traces (bcmd_lookup_caller thread 7)
unfolding chain
lookup_newest_example = lookup_newest thread 7

called_back : bcmd_lookup_caller thread 7 ≡ 8
unfolding bcmd_lookup_caller find_in_messages find_caller
called_back = refl

-- The thread of another process that serves a call from the thread above.
abbrev server : Thread
server = record thread {
  incoming_transactions =
      record message { traces = record { caller_proc = 3; caller_thread = 4 } ∷ message.traces }
      ∷ [];
}

call_back_example : bcmd_lookup_caller server 3 ≡ 4
unfolding chain
call_back_example =
    call_back proc thread server
      (record message { traces = record { caller_proc = 3; caller_thread = 4 } ∷ message.traces })
      [] (sym (ap (λ r. r.0) (fill_traces proc thread))) refl

spawned : World
unfolding state_of bcmd_spawn_on_busy request_looper
spawned = state_of (bcmd_spawn_on_busy (pos 5) 256 world) world

loopers-IsBounded_example : IsBounded spawned
unfolding IsBounded Bounded spawned
loopers-IsBounded_example =
    loopers-IsBounded world spawned
      (Steps.more world spawned spawned (Step.spawn world (pos 5) 256) (Steps.done spawned))
      (omega arith, omega arith)

-- A thread that registers is counted, and is no looper afterwards: it may not leave.
registered :
    (w : World) × (bcmd_write_looper LooperCmd.bc_register_looper world ≡ back (ok tt) w)
    × (bcmd_write_looper LooperCmd.bc_exit_looper w ≡ back (err einval) w)
unfolding bcmd_write_looper
registered = (_, refl, refl)

-- Two threads that both pass the test before either has counted its request.
both_request :
    (may_spawn (pos 2) world.proc ≡ true)
    × ((state_of
          (request_looper (state_of (request_looper world) world))
          world).proc.requested_loopers
        ≡ pos 2)
unfolding state_of request_looper put_user
both_request = (refl, refl)

read_acquire_example :
    bcmd_read_acquire message 256 world ≡ back (ok 12) (counted_up world message mine)
unfolding binder_find_my_obj binder_find_obj find
read_acquire_example = read_acquire world message 256 mine world-IsTable refl refl refl refl
