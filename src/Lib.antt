-- ===== src/Lib.antt =====
-- Verification library of racoon, a small micro-kernel for x86 with symmetric multiprocessing.
--
-- The kernel's own logic is a set of C files under kernel/: a physical page allocator over a bitmap
-- (kernel/mm/physmem.c), queues that the IPC and the IRQ code use (kernel/ds), one scheduler for each
-- CPU with a run queue, a queue of timed sleepers and a fast queue (kernel/scheduler/scheduler.c), and
-- on top of these threads, processes, ports, messages and shared memory. The page allocator is called
-- by the kernel heap and by process creation; the scheduler is called by the state changes of threads
-- and by the timer; the integer queue stores the ids of threads and events.
--
-- Files and sources:
--   Base          shared words: Boolean tests, lists as C arrays, 32- and 64-bit arithmetic, bits of a
--                 word, `Outcome` (a value, a failed assertion, an access outside an array), and the
--                 loops over an array that search, close a gap and open one.
--   Mm.PhysMem    kernel/mm/physmem.c. The static variables are a record; init_physmem, memory_alloc,
--                 memory_multiple_alloc, memory_free and memory_set are functions of the same name.
--   Ds.Iqueue     kernel/ds/iqueue.c. `create`, `add`, `next` and `count_of` are iqueue_create,
--                 iqueue_add, iqueue_next and iqueue_count.
--   Ds.Aqueue     kernel/ds/aqueue.c. `create`, `add`, `next` and `count_of` are aqueue_create,
--                 aqueue_add, aqueue_next and aqueue_count.
--   Ds.Rwlock     kernel/ds/rwlock.c as steps of any number of threads.
--   Ds.Htable     kernel/ds/htable.c, with the functions of the same name. The key, the comparison and
--                 `room`, whether `kmalloc` gives a number of bytes, are parameters.
--   Ds.Links      kernel/ds/list.h, with the functions of the same name, on a memory of structures by
--                 address.
--   Ds.Family     kernel/ds/family.h, in the same way; `relative` is what its four macros read.
--   Mm.ObjectCache  kernel/mm/kmem_cache.c, with the functions of the same name: the sizes and addresses
--                 of objects, and in Mm.ObjectCache.Slabs the operations on a cache and its slabs.
--   Mm.Vmem       kernel/mm/vmem.c, with the functions of the same name: the lists of tags and spans, the
--                 search in Mm.Vmem.Search, vmem_alloc and vmem_free in Mm.Vmem.Alloc, and
--                 vmem_create, vmem_add and vmem_destroy in Mm.Vmem.Create.
--   Ualloc        kernel/ualloc.c and kernel/ioperms.c, with the functions of the same name; user_ensure is
--                 in Ualloc.Ensure.
--   Processes     kernel/processes/process.c: the table, the list and the tree of processes, with the
--                 functions of the same name.
--   Text          libsmk/strings.c, with the functions of the same name, on buffers of bytes.
--   Dmesg         kernel/dmesg.c: sdmesg, dmesg, get_dmesg and the functions that print one argument.
--   Env           kernel/env.c, with the functions of the same name.
--   Irq           kernel/irq.c: request_irq, release_irq, irq_ack, irq_complete and irq_handler on the
--                 hook of one interrupt.
--   Shmem         kernel/shmem.c: Shmem.Region has shmem_grant, shmem_revoke, shmem_request and
--                 shmem_release on a region that was found in the table, Shmem.Create has shmem_create
--                 and shmem_create_direct over Ds.Htable, and Shmem.Table the operations by id or name,
--                 shmem_delete and shmem_clean.
--   Ipc           kernel/ipc: Ipc.Ports has ports.c, Ipc.Pulses has pulse.c and Ipc.Messages has
--                 messages.c, with the functions of the same name, over Ds.Aqueue.
--   Gc            kernel/gc.c: load_gc, gc_queue, gc_has_work, gc_peek and gc_next on the queue of one CPU.
--   Sched         kernel/scheduler/scheduler.c. Sched.State has struct scheduler_info, struct thread as
--                 far as the scheduler uses it, load_scheduler and the lock; Sched.RunQueue has
--                 sub_queue, sub_dequeue, remove_last and the choice of scheduler; Sched.Timers has
--                 remove_timers and what pause and restart do under the lock; Sched.FastQueue has
--                 fast_queue, fast_dequeue and get_fast. Sched.Threads has queue, dequeue and restart over
--                 the schedulers of all CPUs, and set_thread_state of kernel/processes/threads.c.
--
-- State is passed explicitly. A pointer is a number, and 0 is NULL. `kmalloc` is an argument of
-- the functions that call it: it answers no memory, or what the new memory holds; that an array
-- has the size asked for is a named hypothesis. In Mm.ObjectCache, Mm.Vmem and Ualloc the results
-- of the allocators and of the page functions are lists, taken in turn, and the calls of what lies
-- outside the file (kfree, a cache's constructor, the release of pages) are listed in their order.
-- Outside Ds.Rwlock each function runs under a lock in the source, so it is one step here; a
-- failed assertion is the outcome `halt`, and a read or write outside an array is `fault`.
--
-- Bounds and fuel: the search of memory_multiple_alloc runs on fuel, one more than the number of
-- pages, which is enough, since each round moves its index forward. An area has at most 2^20
-- pages, all that 32-bit addresses can name. An integer queue has less than 2^30 ints, all that
-- fit in the address space. A call of htable_insert within htable_insert is bounded by a depth, of
-- which 2 is enough for tables that allow 50 percent or more and have less than 2^29 slots, and
-- whose keys leave room in an int for the probes, and the search for a free id of shared memory by
-- rounds, of which one more than there are regions is enough. The loops of release_port that drop
-- what a port held, and shmem_clean, run on fuel as well, and are a `fault` when it is used up. A
-- call of kmem_cache_alloc within itself is bounded by a depth, of which 2 is enough.
-- user_release_all runs one round more than there are regions, family_adopt one more than there
-- are children, user_ensure a round for each page, the loops of Processes one more than there are
-- processes or pids to pass, and the scan for the highest bit 32 rounds. The other loops are
-- structural recursion with the number of rounds that the source's test leaves.
--
-- Not modelled: hardware access, assembly and boot code, interrupt flags, the spinning of locks
-- and the wait of a scheduler's lock for another CPU to stop, the third-party heap
-- kernel/mm/liballoc.c, paging (kernel/paging.c), and the creation and release of processes and
-- threads. Calls of these are parameters, or are listed. What the constructor, the destructor and
-- the reclaim function of an object cache change is left to their owner; kmem_cache_display only
-- prints. user_ensure takes which pages are present as an argument. Of `pause` the insertion into
-- the timer queue is modelled.
pub mod Base
pub mod Dmesg
pub mod Ds
pub mod Env
pub mod Gc
pub mod Ipc
pub mod Irq
pub mod Mm
pub mod Processes
pub mod Sched
pub mod Shmem
pub mod Text
pub mod Ualloc
