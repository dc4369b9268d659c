-- ===== src/Lib.antt =====
-- FelineOS, a small kernel for i386 and ARM with its own libc, in C++. This library models the parts of it
-- that keep state by rules of their own, for i386 and, of its memory management, for ARM, and proves what they
-- promise to each other.
--
-- How the parts interact: the libc's and the scheduler's memory comes from `get_mem` and `free_mem`
-- (system/kernel/kernel/mem.cpp), which take an area from the physical memory manager
-- (system/kernel/kernel/phys_mem.cpp) and map it by the virtual one
-- (system/kernel/arch/i386/virt_mem/paging.cpp). Each of the two managers and the scheduler
-- (system/kernel/kernel/scheduler.cpp) keeps its state under a `Spinlock`
-- (system/libFeline/src/locking/spinlock.cpp). The timer's interrupt calls `scheduler_handle_tick`.
--
-- Files, and the code they model:
-- - Base, Run: shared names; commands over a state, with `std::abort` and calls that never return as results.
--   Run/Ends is on what holds of the results of a command.
-- - Spinlock: system/libFeline/src/locking/spinlock.cpp, over a parameter for `std::atomic_flag`. Its
--   clients take the record `LockOps`, which `spinlock_ops` fills.
-- - Scheduler: scheduler.cpp and task.cpp. The state is the list of tasks, the current task, the
--   registers of the processor and the lock. Pick is about the choice of the next task, Switch and
--   Progress about switches, Cleanup about finished tasks.
-- - Page: system/kernel/kernel/page.cpp and `bytes_to_pages` of system/kernel/include/kernel/mem.h.
-- - PhysMem: phys_mem.cpp. A header is a record at an index, 0 being the null pointer, and a chunk of
--   headers is a run of indices. Headers and Area have the functions. Regions is the abstract view, a
--   list of regions; Alloc and Release are the refinements. Chain, Walk, Split, Spare, Invariant and
--   Carve are on the way to the first, Merge, Stored and Join to the second. Start has
--   `start_phys_mem_manager`; Space, Trim, Slots and Fill are the theorems on it.
-- - Paging: paging.cpp. Page table entries are 32-bit numbers, by page number, and
--   `page_tables_searchable` is a function. Find, Range and Setup have the functions; Entry, Search,
--   Mapping, Service and Boot the theorems.
-- - Arm: system/kernel/arch/arm/virt_mem/paging.cpp, on the state of Paging, with its search. Range has the
--   functions on ranges and `setup_paging`; Tables and Mapping are the theorems. Bootstrap is
--   system/kernel/arch/arm/mem/phys_mem.cpp, from the device tree to the regions for
--   `start_phys_mem_manager`; Regions and Boot are about it.
-- - DeviceTree: system/kernel/arch/arm/devicetree/devicetree.cpp. Entry has the steps over one entry, Layout the
--   tree that memory holds and the calls that are due, Walk the walk. Run/Sequence is on lists of commands.
-- - Bootstrap: system/kernel/arch/i386/mem/phys_mem.cpp, from the boot loader's memory map to the regions
--   for `start_phys_mem_manager`; Copy is about its two loops.
-- - Memory: mem.cpp, over the record `MemOps`, which `paging_ops` fills with the functions of Paging.
-- - Strings: system/libc/string, over memory as a function from addresses to bytes.
-- - Logger: system/libFeline/src/logging/logger.cpp, over the outputs that the settings name. Copy, Digits and
--   Lines are about `kout`; Debug has `strDebug`, and Printable is about
--   what it gives.
-- - Malloc: system/libc/stdlib/malloc_free.cpp, over a parameter for `get_mem` and `free_mem`; Free has
--   `free`; Split is about `split_header`, Fit and Large about `malloc`, Reject about the tests of `free`.
-- - Numbers: system/libFeline/src/string/itostr.cpp and three character classes of system/libc/ctype;
--   Count and Value are about the digits. Strtoul is system/libc/stdlib/strto.cpp, and Refuse is about it.
-- - Printf: system/libc/stdio/printf.cpp, over a list of arguments, and the templates of
--   system/libFeline/include/feline/str.h that write to a buffer. Convert has the conversions, Loop the
--   loop over the format, Text and Output the theorems.
-- - KVector: system/libFeline/include/feline/kvector.h; Items, Storage and Laws
--   compare it with lists.
-- - Vga: system/kernel/drivers/vga/vga.cpp. Framebuffer: system/kernel/drivers/framebuffer/framebuffer.cpp,
--   with Drawing about its functions.
-- - Feline: the arithmetic headers of system/libFeline/include/feline.
-- - Tests: the theorems at concrete inputs.
--
-- Words are natural numbers below 2 ^ 32, with `wrap32` where the code wraps. Loops that end by their
-- data have fuel: `length ids + 1` is enough for a walk along the headers `ids`, 2 ^ 20 for a walk over
-- the pages of the address space, one more than the length of a string for `strlen`, one
-- more than the unavailable regions for `find_space_in_area`, one more than the length of the format for
-- `vprintf`, the entries of a device tree and its longest string for the walk over it, 34 rounds for `strtoul`,
-- and two rounds for the loop of `acquire_lock`. Without enough fuel a command is `stuck`, and other functions give `none`.
-- Commands run one at a time: what another processor does in between is not modelled.
--
-- Not modelled: the memory behind the strings of the kernel (`KString`), which are lists here; device
-- registers, interrupt tables, assembly and output have no state of the kernel's own.
pub mod Base
pub mod Spinlock
pub mod Scheduler
pub mod Feline
pub mod Page
pub mod Run
pub mod PhysMem
pub mod Paging
pub mod Arm
pub mod Bootstrap
pub mod Memory
pub mod Strings
pub mod Logger
pub mod Malloc
pub mod Numbers
pub mod Vga
pub mod Printf
pub mod KVector
pub mod Framebuffer
pub mod DeviceTree
pub mod Tests
