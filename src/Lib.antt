-- ===== src/Lib.antt =====
-- Verification library of Liam OS, a small i386 kernel in C.
--
-- The kernel boots on a Multiboot memory map. The page allocator takes one region of it and hands
-- out pages; the virtual memory manager takes its page tables from the allocator. Programs are
-- processes in a fixed table. They open files of a static tree through a table of descriptors,
-- which asks the virtual file system; both use the kernel's string routines. The kernel's heap grows
-- by pages that the allocator hands out and the memory manager maps; the scheduler takes the stacks of
-- kernel tasks from the heap.
--
-- The files, and the code that each models:
--   Base      core/kernel/core/status.h, and what all parts share: Boolean tests, arrays as lists,
--             32-bit words, rule sets for the tactics.
--   Pmm       core/kernel/memory/pmm.c. The record Pmm is pmm_stats with the free stack; the
--             functions are named as in the code, without the prefix pmm_.
--   Vmm       core/kernel/memory/vmm.c. The record Vmm is vmm_stats with the physical memory, the
--             directory's address, the allocator, and a trace of the pages that
--             paging_invalidate_page was told of; Vmm.Audit has vmm_audit and vmm_audit_info.
--   Heap      core/kernel/memory/heap.c. The record Heap is the chain of blocks from heap_head, as a
--             list, heap_stats, and the memory manager; Heap.Audit has heap_audit and its snapshot.
--             Clients are taken to write only into payloads, so that headers change in heap.c alone.
--   Str       core/kernel/core/string.c. Text is a list of bytes; a 0 byte or the list's end ends it.
--   Vfs       core/kernel/fs/vfs.c. A node holds the list of its children, null children included.
--   Fd        core/kernel/core/fd_table.c. The record World is the table's counters, the file system
--             and the files of the current process.
--   Process   core/kernel/core/process.c. The record Table is the table of 16 slots, the next pid,
--             the current process, the count and process_info. A process_t* is a slot's index.
--   Elf       core/kernel/loader/elf32.c. A file is its node in the file system; headers are read from
--             its bytes. ring3_load_user_image is a parameter.
--   Exec      core/kernel/core/exec.c and core/kernel/core/user_image.c: the registered programs and
--             exec_create_with_args. The record ExecState is the process table, the file system and
--             the two records of counters. Exec.Resolve is the loading of a registered program.
--   Flat      core/kernel/loader/flat_binary.c, with ring3_load_user_image as a parameter.
--   Syscall   core/kernel/core/syscall.c. The record Kernel is what a system call reaches: the parts
--             above, memory as a function of the address, syscall_copy_buffer, the text printed and
--             the timer's ticks. Syscall.Dispatch has the calls. Only these copies write to memory:
--             the kernel's own objects are the other fields.
--   Scheduler core/kernel/core/scheduler.c. The record Scheduler is the table of 16 tasks, the
--             statistics, the ready queue, the heap that stacks come from, and the timer's count;
--             Scheduler.Lock has the lock, and Scheduler.Audit the audit and the repair. A result
--             `none` of an operation there: an assertion has stopped the kernel. What a task's function
--             does is a parameter, without a hypothesis.
--
-- State is passed explicitly: an operation takes the state and returns its result and the new state.
-- A pointer that may be null is an Option. Each static variable is a field of its module's record.
-- Words are natural numbers below 2 ^ 32, and every wrap of the code is written out (add32, inc32).
--
-- Loops over a counter recurse on it. These run on fuel: kmalloc, which calls itself after the heap
-- has grown, and is proved to return with more fuel than the heap has pages left (4097 is enough for
-- any heap); the loop of heap_audit over the pages, for which 4096 rounds, the pages of the heap's
-- range, are enough; the loop of syscall_write, for which 9 rounds are enough, since 4096 bytes are 8
-- chunks; the scan of the memory map
-- (Pmm.scan), which gets an amount from its caller and is proved to end within the map's length; and
-- the walk along a path (Vfs.walk), which gets one more than the path's length and is proved to end
-- with it. So vfs_lookup's model always answers.
--
-- A program that process_run starts may change the process table by system calls before it comes
-- back. ring3_run_user_image is a parameter with the hypothesis that it does no more than that: the
-- relation Process.Calls.Calls has a constructor for each system call that reaches the table (exit,
-- exec, and the calls on files); Syscall.Traced is about that relation and syscall_dispatch. It assumes
-- that pids do not run out, since next_pid wraps.
-- user_image_resolve, which reads no process and is modelled in Exec.Resolve, is a parameter there
-- without a hypothesis.
--
-- Not modelled: interrupts, port I/O and assembly; logging; the statistics that are only printed;
-- and the components that the file list does not name, the x86_64 port among them.
pub mod Base
pub mod Pmm
pub mod Vmm
pub mod Heap
pub mod Scheduler
pub mod Exec
pub mod Syscall
pub mod Str
pub mod Vfs
pub mod Fd
pub mod Process
pub mod Elf
pub mod Flat
