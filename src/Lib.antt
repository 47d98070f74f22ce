-- ===== src/Lib.antt =====
-- Verification of the retux kernel: functional models of parts of its C++ code and what they do.
--
-- The parts, by the file that models each and the source it follows:
--   Pmm       src/mem/pmm.cpp, the bitmap of page frames: init from the boot loader's memory map,
--             alloc_frame and free_frame.
--   Tty       src/tty/tty.cpp, the four text consoles, the screen and the cursor.
--   Keyboard  src/io/keyboard.cpp, the interrupt handler, its scancode table and the ring of typed
--             characters that getchar empties.
--   Stdin     sys_read_stdin of src/cpu/syscall.cpp, which takes its characters from getchar and
--             echoes them to the consoles.
--   Fds       the table of open files in src/cpu/syscall.cpp: open, close and seek.
--   Dirents   sys_getdents64 of src/cpu/syscall.cpp, over what a driver of Vfs lists.
--   UserMem   brk, mmap, munmap and mprotect of src/cpu/syscall.cpp, over the tables of Vmm and the
--             frames of Pmm. The bytes of memory are a function of the physical address, beside the
--             tables.
--   Sched     src/task/sched.cpp and task::create of src/task/task.cpp: the ring of tasks, the
--             choice of the next, time slices, exit and wait4.
--   Strings   src/lib/string.cpp and src/lib/hex.hpp.
--   Tarfs     src/fs/tarfs.cpp, the archive that is mounted first: headers, the scan that counts
--             them, reads of files and of directories.
--   Heap      src/mem/heap.cpp, kmalloc and kfree over blocks with a header and a footer and a list
--             of the free ones; it grows through Pmm's alloc_frame
--             and Vmm's map.
--   Vmm       src/mem/vmm.cpp, map, unmap, protect and virt_to_phys over four levels of tables, which
--             take their frames from Pmm. A theorem names the level of each table by a function of
--             its address. Several entries may lead to one table, as the identity map and the
--             physmap of src/boot/boot.asm share their directories: what is written there shows at
--             each address whose walk reads the entry.
--   Elf       src/task/elf.cpp, the checks of an ELF file and the loading of its segments, through
--             Pmm's alloc_frame and Vmm's map, over the state of UserMem.
--   Vfs       src/fs/vfs.cpp, mounts, the look-up of paths, open and reads of whole files. What a
--             driver answers stands in the inode; Tarfs and Procfs are two drivers.
--   Procfs    src/fs/procfs.cpp, the files uptime, meminfo and cpuinfo.
--   Ext2      src/fs/ext2.cpp, mount, inodes, the tree of block pointers, reads and directories over a
--             device that reads sectors.
--   Partitions  src/fs/partition.cpp, the scan of a disk for its MBR and GPT partitions.
-- Prelude holds what these share: tests on numbers, lists and arrays, integers, bits of a byte.
--
-- Definitions carry the names of the functions, types and variables that they model. A global
-- variable or a field is a field of the component's state, and an operation returns the new state. A
-- halt, a write outside a buffer and -1 are results. A pointer is a number, null is 0; an array is the
-- function of its index, with its bound written out where the code relies on it; machine integers are
-- natural numbers with the wrap written out.
--
-- Loops whose rounds the code counts are recursion on that count. The walks of the ring, of the
-- siblings of a directory and of the archive run on fuel: more fuel than the ring has tasks besides
-- the current one, as much as the directory has children, and one more than the archive has blocks
-- of 512 bytes are enough, and the theorems give results under these bounds. A call that waits for a
-- key is over the list of what getchar returns, and is still waiting when the list ends first. The
-- loops over pages have the rounds that their bounds give, none when the end has wrapped.
--
-- The free list of the heap is walked on more fuel than it has blocks, a path with more fuel than it
-- has names, a directory with more than it has entries, and a file with more than it has bytes.
--
-- Left out: the switch of stacks itself and the registers of the interrupt and device hardware (boot,
-- cpu, dev, io/pit, io/hpet, io/serial), which are effects outside the state that is modelled; the
-- address spaces of processes in src/mem/vmm.cpp, the remaining system calls, the reading of a
-- program's file, the initial stack and fork; in Tarfs the building of the tree of nodes, in Sched
-- the start, and in Strings strcpy.
pub mod Prelude
pub mod Pmm
pub mod Heap
pub mod Procfs
pub mod UserMem
pub mod Vmm
pub mod Vfs
pub mod Tty
pub mod Keyboard
pub mod Sched
pub mod Strings
pub mod Tarfs
pub mod Stdin
pub mod Dirents
pub mod Elf
pub mod Ext2
pub mod Fds
pub mod Partitions
