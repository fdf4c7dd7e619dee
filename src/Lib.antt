-- ===== src/Lib.antt =====
-- The kernel of lab8, a port of ucore to the K210: its list primitive, its page allocator, the areas
-- of an address space, its processes with the stride scheduler, timers and semaphores, the open
-- files of a process with the simple file system, and the device that hands pictures to the KPU.
--
-- Dlist.antt     lab8/libs/list.h: the circular doubly linked list at the level of its pointers
--                (`Links`), and the sequence of entries that a list holds (`IsList`).
-- Pmm.antt       lab8/kern/mm/default_pmm.c: page descriptors, the free list and first fit. Address 0
--                is the list head `free_list`; a descriptor is its address in units of `struct Page`.
-- Kmalloc.antt   lab8/kern/mm/kmalloc.c: the SLOB lists by address, in units of 16 bytes. The page
--                allocator below is an argument.
-- SkewHeap.antt  lab8/libs/skew_heap.h: the heap below an entry as a tree of entry addresses.
-- Sched.antt     lab8/kern/schedule/default_sched_stride.c and the core of lab8/kern/schedule/sched.c:
--                `wakeup_proc`, `schedule` and the functions of `default_sched_class`.
-- Timer.antt     the timer list of lab8/kern/schedule/sched.c; `run_timer_list` wakes processes
--                through Sched.antt.
-- Memory.antt    lab8/libs/string.c: memset, memmove, memcpy and memcmp on a store of bytes.
-- Strings.antt   lab8/libs/string.c: strlen to strfind, over the same store.
-- Format.antt    lab8/libs/printfmt.c: `printnum`; lab8/libs/string.c: `strtol`; lab8/libs/rand.c.
--                A text is the list of its characters.
-- Iobuf.antt     lab8/kern/fs/iobuf.c: the buffer of a read or write; it copies by Memory.antt.
-- Files.antt     lab8/kern/fs/file.c: the table of open files. Descriptors are ℤ; the inode operations,
--                which C calls through pointers, are the interface `Vfs`, and its buffers are those of
--                Iobuf.antt.
-- Sysfile.antt   lab8/kern/fs/sysfile.c: `sysfile_read` and `sysfile_write` over Files.antt. The test of
--                user memory is an argument; the copies made are a result (`log`).
-- VfsLayer.antt  lab8/kern/fs/vfs: the counts of inodes, with the assertions in front of each inode
--                operation, the device list and what is mounted (VfsLayer/Devices, VfsLayer/Mounts),
--                the lookup of a path (VfsLayer/Lookup) and `vfs_open` (VfsLayer/Opening). The
--                operations of a file system are the interface `Ops`, and what is asked of them is
--                `Counting` and `Lasting`.
-- Swap.antt      lab8/kern/mm/swap.c and swap_fifo.c: `swap_out` over the queue of pages, which is a
--                list of Dlist.antt.
-- Vmm.antt       lab8/kern/mm/vmm.c: the sorted areas of an address space, with the cache of `find_vma`.
-- Process.antt   lab8/kern/process/proc.c: identifiers, and the relations of processes with what exit,
--                wait and kill do to them, over the scheduler of Sched.antt.
-- Fork.antt      lab8/kern/process/proc.c: `do_fork`, over the relations of Process.antt, with the
--                tables of files of lab8/kern/fs/fs.c. What memory there is, is an argument.
-- Kpu.antt       lab8/kern/fs/devs/dev_kpuio.c and kpu_spooling.c: `dev_kpuio_taskinit` puts a buffer
--                together from blocks (Kpu/Device), and `ctrl_round` (Kpu/Spool) is a round of the
--                controller thread. Processes are those of Process.antt.
-- Sem.antt       lab8/kern/sync/wait.c and sem.c: a wait queue and the semaphore on it, over the
--                processes of Sched.antt.
-- Monitor.antt   lab8/kern/sync/monitor.c: monitors and condition variables. Any number of threads
--                (Monitor/Threads) call the functions in any order; each goes on to its next `down`.
-- Philosophers.antt  lab8/kern/sync/check_sync.c: the five philosophers with semaphores, any of which
--                makes the next step. A semaphore is its value here and in Monitor.antt.
-- Bitmap.antt    lab8/kern/fs/sfs/bitmap.c: the free blocks of a disk, in words of 32 bits.
-- Sfs.antt       lab8/kern/fs/sfs/sfs_inode.c and sfs_io.c: the disk as blocks of bytes, the block map of
--                one file, and `sfs_io`; free blocks are those of Bitmap.antt.
-- Base.antt      Boolean tests, lists, stores and assertions that the others share.
--
-- The C functions keep their names; the loops and branches of a function that need a name of their
-- own have one, as `insert_walk` for the loop of `default_free_pages`. State is passed explicitly. A
-- failed `assert` is `none`. Unsigned ints wrap (`u32`); signed counters that cannot overflow in a
-- bounded run (`runs`) are plain numbers. Interrupts are off inside each modelled function, so that
-- each is one step.
-- `down` is two steps, around the switch to another process.
--
-- A walk of the free list takes fuel: one round for each entry that it visits, and the theorems ask
-- for more fuel than the list has entries (`length xs < fuel`, or `length xs + 2 < fuel` where the
-- loop adds the new entry twice). With that much the walk is proved to end.
--
-- A scan of a string takes one round for each byte of it and one more (`n < fuel`).
--
-- `printnum` goes one level deeper for each digit; a depth above the number is enough.
--
-- `get_pid` takes two rounds for each identifier at most (`2 * max_pid`), and `user_mem_check` a round
-- for each area and one more. The loops of `sysfile_read` and `sysfile_write` take a round for each
-- block.
--
-- Not modelled: the page tables and page faults (lab8/kern/mm/pmm.c), which depend on physical memory,
-- and the disk below `swap_out`, whose code is not in the repository; `vprintfmt`, which works on a
-- va_list; the philosophers that use a monitor; loading of programs; drivers (lab8/kern/driver), the
-- KPU demonstration code (lab8/kern/kpu_test), traps, boot code and assembly, debugging aids, host
-- tools (lab8/tools) and user programs (lab8/user). The context switch inside `proc_run` is only the change of `current`. The
-- device below the simple file system answers every request, and the device of the KPU always has
-- memory.
pub mod Base
pub mod Dlist
pub mod Memory
pub mod Strings
pub mod Format
pub mod Iobuf
pub mod Files
pub mod VfsLayer
pub mod Sysfile
pub mod Bitmap
pub mod Sfs
pub mod Pmm
pub mod Kmalloc
pub mod SkewHeap
pub mod Sched
pub mod Timer
pub mod Sem
pub mod Monitor
pub mod Philosophers
pub mod Kpu
pub mod Swap
pub mod Vmm
pub mod Process
pub mod Fork
