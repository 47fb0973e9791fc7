-- ===== src/Lib.antt =====
-- elos, a small operating system kernel for i386: its allocators, buffers, descriptor table, user
-- memory access, locks, timers, wait queues, run queues, signals, processes, pipes and calendar.
-- The parts, the files that model them and the code they stand for:
--
-- Cbuf is src/kernel/lib/cbuf.c and src/kernel/include/lib/cbuf.h, the circular byte buffer.
-- Storage is a list and a pointer into it an offset. Cbuf/Window and Cbuf/Writes describe the bytes
-- in order, Cbuf/Refine relates reading and writing to a queue. The copy loops run on fuel: one
-- round more than there are bytes, since each round copies at least one.
-- Ringbuf is src/kernel/lib/ringbuf.c, readers and writers on a Cbuf that sleep. The other threads
-- and the results of kern_wait are a schedule of wake-ups, of which each sleep takes one.
-- Resman is src/kernel/lib/resman.c, the manager of address ranges, with 64-bit addresses that
-- wrap. Resman/Alloc has what is handed out, Resman/Lookup the round trips, Resman/Mask the rounding of
-- addresses by masks, Resman/Faults ranges at which its header and the code differ.
-- Phys is src/kernel/vm/phys.c with src/kernel/include/vm/page.h and src/kernel/vm/pressure.c, the
-- buddy allocator. A page is its segment and index; the loops count down the orders, of which there
-- are 11. Phys/Blocks counts the free blocks that cover a frame, Phys/Inv has the invariant,
-- Phys/Split and Phys/Alloc the allocation, Phys/Pairs and Phys/Merge the freeing.
-- Fd is src/kernel/vfs/proc.c with src/kernel/vfs/file.c, src/kernel/include/vfs/file.h and the
-- calls dup, dup2 and fcntl of src/kernel/vfs/sys.c. An entry of the table is the address of a file
-- with the close-on-exec flag as its lowest bit. Fd/Refs relates entries and reference counts.
-- Time is src/kernel/kern/time.c and src/kernel/include/kern/time.h, calendar times and timespecs.
-- Time/Reference has the reference calendar, Time/Calendar and Time/Dates compare with it.
-- Timer is src/kernel/kern/timer.c, the timer queue of a processor. Timer/Lists has the order of
-- the queue, Timer/Rounds and Timer/Interrupt the interrupt, Timer/Steps any order of calls,
-- Timer/Remote a stop from another processor. The loop of the interrupt runs on fuel: one test more
-- than there are due timers.
-- Wait is src/kernel/kern/wait.c, the wait queues, with the part of src/kernel/kern/sched.c that
-- puts a thread to sleep and wakes it. Wait/Inv says how waiter, thread and queue fit together,
-- Wait/Steps and Wait/Threads what each step of a thread keeps of it, Wait/Reach every order of
-- them, Wait/Sleep what sleepers can rely on.
-- Sched is the rest of src/kernel/kern/sched.c that is modelled, the run queues. Sched/Queues adds
-- a thread, Sched/Choose takes the next.
-- Sync is src/kernel/kern/sync.c, the mutex, with the wait and the wake-up of
-- src/kernel/kern/futex.c that it uses, as steps of interleaved threads. Sync/Inv and Sync/Steps
-- relate the lock to the threads, Sync/Moves has the steps that take or leave it, Sync/Mutex what
-- holds in every state that is reached.
-- Pipe is src/kernel/kern/pipe.c, on the files of Fd and the buffer of Ringbuf. Pipe/Ends has the
-- two ends, Pipe/Calls what closing them does, Pipe/Open and Pipe/Paths the calls of sys_pipe2,
-- Pipe/Success the pipe that it opens.
-- Signal is src/kernel/kern/signal.c with src/kernel/include/kern/signal.h, on the sets of Sigset.
-- Signal sends signals and changes masks, Signal/Intr takes and handles them, Signal/Calls has the
-- system calls. What the file calls elsewhere is the list that an operation returns. Signal/Inv
-- relates the pending sets to their counters, Signal/Branches has the branches of kern_signal,
-- Signal/Steps and Signal/Handle keep what Signal/Inv says, Signal/Reach has every order of
-- operations, Signal/Next the signal that is taken, Signal/Send what is sent, Signal/Nest nested
-- handlers, Signal/Faults what goes wrong. The counters have 32 bits and may only grow, which is
-- why fewer than 2^32 operations are looked at.
-- Proc is src/kernel/kern/proc.c, the tree of processes, their end and wait4; a process is its
-- number. Proc/Tree moves children, Proc/Steps, Proc/Fork and Proc/Reach keep the tree in order,
-- Proc/Scan is the scan of wait4, Proc/Runs any order of operations, Proc/Waits wait4 against a
-- search. A sleep in wait4 takes the next wake-up of a schedule.
-- Str is the string routines of src/kernel/lib (strlen.c, strcmp.c, memcmp.c, memchr.c, strchr.c,
-- strcpy.c, strcat.c). Str/Copy and Str/Compare are about the strings that the buffers hold.
-- Bset is src/kernel/lib/bitset.c, sets of bits. Bset/Alloc is about the bit that is taken.
-- Ext2 is src/kernel/drivers/fs/ext2/alloc.c, the allocation of blocks and inodes. The failures of
-- the device are a parameter.
-- User is src/kernel/kern/user.c, the copies between kernel and user memory, with their faults.
-- Uio is src/kernel/vfs/uio.c, vectors of user buffers, on the memory of User. Uio/Stream has the
-- bytes of the buffers, Uio/Rounds and Uio/Move the move of a part of them, Uio/Sizes the sizes
-- that are accepted. The loop runs on fuel: one round more than two for each buffer, since a round
-- empties a buffer or skips it.
-- Rwlock is src/kernel/kern/rwlock.c and src/kernel/include/kern/rwlock.h, the lock of many readers
-- or one writer, as steps of interleaved threads: each stretch under its spin lock is one step.
-- Base is what the files share: the native numbers, Boolean tests, lists and the error numbers.
--
-- Ringbuf stands on Cbuf, Uio on User, Pipe on Fd and Ringbuf, Signal on Sigset; the other parts do
-- not call each other, and share Base and the sums of Phys/Sum. A loop of the source is structural
-- recursion on the rounds that are left.
--
-- Not modelled: the locks of the other parts, which each operation holds from its first look at the
-- data to its last change; process groups and sessions, threads as such, terminals, sockets,
-- futexes at user addresses, virtual memory, the block cache, vnodes and the file systems beyond
-- ext2's allocation; device drivers and the processor, which are I/O. Of what is modelled, these
-- are simplified: an exit of a process is one step although proc_exit gives locks back on the way;
-- the size of a block of pages, which wraps at 32 bits for orders from 20 on only, and the block
-- numbers of ext2 do not wrap; the assertions on THREAD_INTERRUPTABLE, and the state that
-- scheduler_add_thread looks at and sets, are left out.
pub mod Base
pub mod Cbuf
pub mod Ringbuf
pub mod Resman
pub mod Phys
pub mod Fd
pub mod Time
pub mod Timer
pub mod Wait
pub mod Sched
pub mod Sync
pub mod Str
pub mod Bset
pub mod Ext2
pub mod User
pub mod Uio
pub mod Rwlock
pub mod Sigset
pub mod Signal
pub mod Pipe
pub mod Proc
