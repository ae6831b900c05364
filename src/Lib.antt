-- ===== src/Lib.antt =====
-- mCertiKOS (lab 2), a small teaching kernel: its boot loader, the boot memory map, physical
-- memory management with container quotas, the devices of the console, the kernel's library and
-- monitor, and the library of the user programs.
--
-- How they interact: the boot loader reads the kernel from the disk and hands the memory map over
-- (Boot, Dev/Mboot); the allocation table is filled from that map, and pages go to containers
-- from it (Pmm); the interrupts of keyboard and serial port fill the console's ring, from which
-- the monitor gets its lines (Dev, KernLib/Monitor); the user's `printf` goes through `sys_puts`
-- to the kernel's `dprintf` and the console (UserLib/Printf, KernLib/Dprintf). To start a
-- process, a container is split off for it, its program is loaded into its pages, and the
-- processor enters it (KernLib/Start, KernLib/Elf); what it misses comes with page faults
-- (Dev/Intr, KernLib/Trap).
--
-- Prelude holds the shared names: tests on native numbers, lists, 32-bit words, tables as
-- functions with sums over a range.
--
-- Dev/Mboot models kern/dev/mboot.c: `pmmap_init` copies the boot loader's entries
-- (`copy_entries`), inserts each region in order (`pmmap_insert`), merges (`pmmap_merge`) and
-- counts; the getters `get_size`, `get_mms`, `get_mml` and `is_usable` read it by index. A list
-- of records stands for the linked slots. Its children: Insert and Merge (lists of regions), Init
-- (the copying loop without fuel), Finish, Map (the result), Getters, Fit (bounds).
--
-- Dev/Console models kern/dev/console.c: the ring that the interrupt handlers fill (`cons_intr`)
-- and `cons_getc` reads (Ring: it is a queue), and `readline` (Line: it edits a line).
--
-- Dev/Video models kern/dev/video.c (Bounds, Text), Dev/Serial kern/dev/serial.c (Output: a text
-- on both devices) and Dev/Keyboard kern/dev/keyboard.c: its tables, the shift state and the
-- characters that it brings to the ring (Keys, Typing, Special). What a port answers is an
-- argument of the model.
--
-- Boot models boot/boot1: Boot/Print the numbers and strings of boot1lib.c (Reverse, Itox),
-- Boot/Disk its reading of sectors (Section), and Boot/Main the steps of boot1main.c: the
-- partition, the memory map that it hands to Dev/Mboot (Map) and the kernel's segments (Load).
--
-- Pmm models kern/pmm, a child for each layer. Pmm/MatIntro is the allocation table of
-- kern/pmm/MATIntro/MATIntro.c; Pmm/MatInit is `pmem_init` of kern/pmm/MATInit/MATInit.c over the
-- memory map; Pmm/MatOp is `palloc` and `pfree` of kern/pmm/MATOp/MATOp.c; Pmm/Container is
-- kern/pmm/MContainer/MContainer.c, the quotas of processes, over all of them: its record `Kern`
-- holds the state of every layer. Pmm/Container/Reach lets any sequence of guarded calls follow
-- the boot.
--
-- KernLib models parts of kern/lib: KernLib/Str is string.c (Memory for what it does with memory,
-- Compare for strings), KernLib/Printfmt is printfmt.c (`printnum`; Format the cases of the
-- switch of `vprintfmt`, Vprintfmt its loops), KernLib/Dprintf is dprintf.c, and KernLib/Pmap is
-- pmap.c, the kernel's access to user memory, over the record Paging, which stands for the page
-- tables of kern/vmm (Pages its loop, Copy the three functions), and KernLib/Monitor is the
-- command line of monitor.c (Split its two loops, Args the arguments, Run the command, Typed a
-- line from the console's readline, Backtrace). KernLib/Elf is `elf_load` of elf.c: its children
-- go from what a process sees (View, with the laws that `alloc_page` is to have) over a page
-- (Page, Fresh), the pages of a segment (Segment, Load) and the headers (Table, Headers) to the
-- whole executable (Program). KernLib/Start is `mon_start_user` of monitor.c, which brings the
-- containers and the loader together (First the first start; Backed an `alloc_page` for it that
-- takes its pages from container_alloc and keeps the laws of View); KernLib/Trap is trap.c
-- (Fault), KernLib/Seg the descriptors of seg.h and the tables of seg.c (Fields), and
-- KernLib/Debug the trace of debug.c (Trace). Dev/Intr is the table of gates of kern/dev/intr.c
-- (Entries the numbers of the processor and the lines, Gates the gates). UserLib models parts of
-- user/lib: UserLib/Str is string.c (Copy for the copying functions), UserLib/Numbers is `strtol`
-- and `atoi` (RoundTrip reads back what `printnum` prints), UserLib/Printfmt is printfmt.c, and
-- UserLib/Printf is printf.c with sys_puts of fake_syscall.c (Buffer, Gets), over the kernel's
-- dprintf. UserLib/Dummy is the program of user/proc/dummy/dummy.c, a step for each key
-- (Session). A string is the list of the bytes up to the end of its object, memory a function
-- from addresses; a read behind the end gives `none`, and so do a field width that overflows its
-- `int` and a digit of `printnum` behind its string, in a base above 17.
--
-- Words: `unsigned int` arithmetic is taken mod 2 ^ 32. The `int` fields of a container are kept
-- as 32-bit patterns. A table is a function from the index; an index outside the C array is
-- undefined there, and an entry like the others here.
--
-- Fuel: `printnum` has fuel for its digits, 64 for 64 bits; the loop of `palloc` has fuel for one
-- walk round the user pages and the last test; that of `pmmap_init` has fuel for every entry that
-- fits in the length. `none` would mean that it ran out. The loop over a segment's pages has fuel
-- for a round for each page below its end. The loop of pmap.c has fuel for a round for each byte,
-- parsing a command line a round for each of `maxargs` arguments; `readsection` has rounds for
-- more sectors than 32 bits of address hold, and `parse_e820` as many as it is given, which its
-- theorem relates to the map. Loops whose rounds are known beforehand recur on the rounds left.
--
-- A failed assertion and KERN_PANIC halt the machine: the model returns `none` (inside `some`,
-- where fuel is involved). Not modelled: debug output; paging (kern/vmm), whose functions are
-- stubs in this tree, so that their clients take it as the record Paging and its laws as the
-- record IsAllocator, which KernLib/Start/Backed fills with an `alloc_page` that does as its
-- comment says, with pages from container_alloc; the tests of the layers; assembly, and with it
-- the loading of the descriptor tables. The wait for the disk and the delays of the serial port
-- are left out.
pub mod Prelude
pub mod KernLib
pub mod UserLib
pub mod Dev
pub mod Pmm
pub mod Boot
