-- ===== src/Lib.antt =====
-- A driver that passes messages between processes, and the program that keeps the names of
-- services.
--
-- The parts, from the bottom up:
-- - Slob: module/new/fast_slob.h, the allocator of the buffers that a process maps. A region is cut
--   into buckets of buffers of one size each (`fast_slob_create`), whose free buffers are linked
--   through their first words. Memory is a function from addresses to words; addresses are natural
--   numbers. Slob/Create, Alloc, Free, Disjoint, Once, History and Origin prove what it promises, Overrun
--   what it does where a bucket is no whole number of buffers long.
-- - MsgQueue: module/new/msg_queue.c and msg_queue.h, the queues of all processes by number. One
--   round of a waiting loop is `write_round` or `read_round`; MsgQueue/Wait runs the loop against a
--   list of what other threads do to the queues while the caller sleeps, one round for each. The
--   tree of queues is read as a list in the order of its numbers; MsgQueue/Tree relates the search
--   in the tree to it.
-- - Driver: module/new/binder.c. Driver/World has its data and the state of a call, Messages the
--   messages and how they get into queues, Objects the objects of a process
--   as a list (Objects/Tree and Link relate the tree that the driver searches to it, as long as the
--   comparison orders its keys), Transfer the objects in a transaction, Transaction `bcmd_write_transaction`, Buffers the mapped buffers that
--   `bcmd_read_transaction` fills and `bcmd_write_free_buffer` takes back, Traces the chains of
--   calls, Looper the threads that serve calls, Handlers the commands and the messages that concern
--   objects. Write is `binder_thread_write`, Read `binder_thread_read`, Ioctl `binder_ioctl` with
--   the commands below it and poll, Mapping the mapping of a process, Process the creation and the
--   end of processes and threads, with what releases their queues in Process/Release. An error
--   returns early from a do block, as the source does; `stuck` is a thread that sleeps for ever.
--   Driver/Keeps has the rules for what all of these leave as it is.
-- - BinderIo: the bio_ functions of servicemanager/binder.c, which read and write messages. Items,
--   Put, PutObjects, PutItems, Get, GetItems and RoundTrip, on the ground of Layout, are about whole
--   messages of several values.
-- - BinderLoop: the other half of servicemanager/binder.c. BinderLoop itself has what a process
--   writes to the driver (`binder_write`, `binder_send_reply`, `binder_done`), Parse `binder_parse`,
--   Loops `binder_call` and `binder_loop`, Device the opening and closing of the device. The driver,
--   the memory that it maps and the function behind a death are an interface, `Process`. Stream,
--   Total and Talk are about the parser and a call; Reply and Receive, on the ground of Memory,
--   put the loop and the Driver modules together.
-- - ServiceManager: servicemanager/service_manager.c, services by name, in
--   ServiceManager/Handler the handler of a transaction, and in ServiceManager/Main `main`, which
--   runs the handler in the command loop; Messages and Publish are about the handler and the messages
--   of its clients.
-- - Common: the names and lemmas that these share.
-- A function of the source keeps its name. `_f` beside `f` is `own_f` where it works on the
-- caller's own queue; `_binder_new_obj` is `new_obj` and `_binder_free_obj` is `bury_obj`.
--
-- Bounds and fuel: a word has 32 bits and its sums are written with their wrap-around; reference
-- counts and `int` counters are unbounded integers. The loop that links the buffers of a bucket
-- runs on as many rounds as the bucket has bytes, which are more than it has buffers. The search
-- for a free queue number runs on one round more than there are queues, which is enough. A write
-- runs one round more than its buffer has bytes, of which every round reads four; a read runs on
-- the rounds that its caller gives, since other threads may send it messages that have no answer
-- for as long as they like. The end of a process frees a thread on as many rounds as its queue has
-- references, and one more. `binder_parse` runs as many rounds as there are words to read, of which
-- every round reads one; `binder_call` and `binder_loop` run on the rounds that they are given, since a
-- driver may keep them waiting.
--
-- Not modelled: locks (each operation is one step, also those that the source leaves unlocked), the balance of the kernel's trees, printing,
-- debugfs, the set-up of the module, the call of a release handler when the last reference on a
-- queue goes (the queue is noted as released, and the handlers are functions of their own), and the
-- tracing of servicemanager/binder.c. The answers of kmalloc, malloc and of copies from and to
-- user space are part of the state, and what a call of the driver reads of the user is fixed, since
-- it reads nothing there behind its first write to it; the files of a
-- process, its free descriptors and what the kernel does for a mapping are parameters.
-- module/binder.c is the original driver of Android, kept beside the new one; libs is a copy of
-- Android's libraries.
pub mod Common
pub mod Slob
pub mod MsgQueue
pub mod Driver
pub mod BinderIo
pub mod BinderLoop
pub mod ServiceManager
