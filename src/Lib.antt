-- ===== src/Lib.antt =====
-- ClosureOS, a kernel for x86-64: its memory manager, the library under it, and its boot stage.
--
-- The boot stage is a console (src/arch/x86/boot/boot_tty.c), a page allocator that goes through the
-- memory map of the boot loader, and the page tables and the page database that it makes with it
-- (src/arch/x86/boot/boot_mm.cpp). The kernel's memory manager
-- takes over behind it: a buddy allocator of pages, caches of objects on top of it, and a heap that
-- sends each request to one of the two. All lists are intrusive rings, all locks spin locks.
--
-- Files, and the code they model:
-- - ListHead: src/kernel/lib/list/list_main.cppm. The heap of links is a function from nodes to the
--   two pointers of the node; ListHead/Ring says which lists stand in it.
-- - Atomic: src/kernel/lib/atomic/atomic_main.cppm and lock.cpp. An atomic operation is one step on a
--   cell; Atomic/Exclusion interleaves the steps of any number of processors.
-- - Layout: src/kernel/mm/types.cppm and virt_layout.cppm, the address space.
-- - Kernel: the memory that the allocators share, that is the links, the page database, the locks of
--   the pools, the caches and the words behind virtual addresses; and commands over it, which end with
--   a value, with a use of a pointer that leads to no object of its type, or in a lock that is held.
-- - Page: `struct Page` and the functions on pages of src/kernel/mm/page_mm.cppm. A page pointer is the
--   index of the page in the page database.
-- - Pool: `class PagePool` of the same file: AllocPages is `alloc_pages`, __free_pages `free_pages`.
--   Its page database has no end; in Pool/Mapped it has one, and __free_pages is `free_pages_in`, where
--   reading the descriptor of a buddy behind the end is a page fault. The pool starts on the latter.
-- - Cache: `class KMemCache` of src/kernel/mm/heap_mm.cppm.
-- - HeapPool: `class KHeapPool` of the same file.
-- - MmMain: src/kernel/mm/mm_main.cppm. MmMain/Pages is the pool behind pages_pool_init, MmMain/Heap
--   what mm_core_init leaves, MmMain/Malloc the first KHeapPool::Malloc behind it, and MmMain/Memory
--   the way from the memory map of the boot stage to that pool.
-- - Tty: src/arch/x86/boot/boot_tty.c. Tty/Init is boot_tty_init; Tty/Frame, Tty/Pixels and Tty/Screen
--   say where it draws, Tty/Wait is the wait for the serial port; Com is the port of asm/com.h.
-- - Multiboot: the tags of src/include/boot/multiboot2.h as bytes, and the loops of boot_tty.c and
--   boot_mm.cpp over them. Tty and BootStart take the list of these tags.
-- - BootMem: the page allocator of src/arch/x86/boot/boot_mm.cpp; BootMem/Database is
--   boot_mm_page_database_init, less the reset of the page locks, which nothing takes.
-- - PageTable: boot_mm_pgtable_map of the same file, on the words of physical memory; `lookup` is the
--   walk of the processor. PageTable/Tree says which pages are tables, PageTable/Init is
--   boot_mm_pgtable_init, with a function for each of its loops, and PageTable/Length the length that
--   it gives the page database.
-- - BootMain: boot_pgtable_init of src/arch/x86/boot/boot_main.cpp. BootStart: boot_mm_init of
--   boot_mm.cpp, from the tags of the boot loader to the page table and the page database;
--   BootStart/Handover goes on to mm_core_init on what it leaves, and BootStart/Main defines boot_main,
--   up to its call of main.
-- - Runtime: src/kernel/cxx_base_abi.cpp and src/kernel/main.cpp. Objects of dtor_info are kept apart
--   from the words of the heap; the code of destructors and constructors is a parameter.
-- - Base and Bits: shared names, tests, lists, and laws of masks and toggled bits.
-- - Examples: concrete inputs of the theorems.
--
-- Numbers are natural numbers; words keep their wrap-around written out. Loops over a counter recurse
-- on the rounds that are left. Fuel stands for: the jumps back to redo in `internal_obj_alloc`; the
-- bits of a size in `order_loop`, where 64 are enough for a 64-bit word; the digits of a number in
-- `num_loop` and `hex_loop`, where the 29 places of the buffer are more than a 64-bit word has digits;
-- the rounds of `boot_mm_page_alloc`, where the pages below 2 ^ 52 are enough; the rounds of the loops
-- of `boot_mm_pgtable_init`, one more than the pages; the nodes that `finalize_loop` looks at, one more
-- than the list has; and the pages of an entry in `init_entry`, where one more than these is enough.
--
-- The loops over the tags have fuel for one more round than there are tags. The counter of the loop of
-- pages_pool_init is an int in the source; the model stands for databases below 2 ^ 31 pages.
--
-- The commands run one processor at a time: a lock that is found taken is never released. The strings
-- that the console prints for boot_mm_init and boot_main go to a port that is ready. Not modelled: the
-- messages of the error branches of boot_mm_init and boot_main, what the machine does when
-- boot_mm_init writes page descriptors through a pointer that is not set (there the run ends in an
-- outcome of its own), and the assembly of the start.
pub mod Atomic
pub mod Base
pub mod Bits
pub mod BootMain
pub mod BootMem
pub mod BootStart
pub mod Cache
pub mod Com
pub mod Examples
pub mod HeapPool
pub mod Kernel
pub mod Layout
pub mod ListHead
pub mod MmMain
pub mod Multiboot
pub mod Page
pub mod PageTable
pub mod Pool
pub mod Runtime
pub mod Tty
