-- ===== src/Lib.antt =====
-- A model of the boot loader in bootloader/cboot, and theorems on it.
--
-- The boot loader runs on the bare machine: cboot_main sets up the exceptions and the serial line,
-- reads the memory map of the BIOS, finds a partition, maps physical memory, loads the kernel from
-- a ustar archive on the partition, maps it and jumps to it. The files model these parts:
--
--   Base        numbers, casts, tests and lists that the other files share
--   Mem         memset and memcpy of bootloader/cboot/src/mem.c, over a memory of bytes. Mem/Words
--               has the reads and writes of words, Mem/Fill and Mem/Set are about memset,
--               Mem/Transfer and Mem/Copy about memcpy
--   Str         memcmp, strncmp and strncpy of the same file, over the bytes behind a pointer
--   Paging      bootloader/cboot/src/paging.c and bootloader/cboot/include/paging.h. Its state is a
--               record of the memory, the static `it` of new_page_table, the register cr3 and the
--               console of Print; its commands use Mem. Paging/Walk is the translation of addresses by the processor,
--               written without the code, and Paging/Invariant what tables satisfy between calls.
--               next_table is the block that map_4kb_page and map_2mb_page repeat for each level.
--               Paging/Physical is setup_physical_map and Paging/Listing is print_pagetable, which
--               uses Print
--   Ports       the instructions of bootloader/cboot/src/ports.c, as operations on any machine
--   Ata         bootloader/cboot/src/ata.c, over Ports. Ata/Drive is what the standard says of a
--               drive that is read
--   Serial      bootloader/cboot/src/serial.c, over Ports. Serial/Uart is what the data sheet says
--               of the chip
--   Ustar       bootloader/cboot/src/ustar.c, over the sectors of a drive, with the effect of a
--               read of sectors that Ata/Read is about. It uses Str. Ustar/Archive describes
--               archives without the code. The `buf` of 512 bytes is the sector last read.
--               Ustar/Listing is ustar_list_files, which uses Print
--   Vga         bootloader/cboot/src/vga.c: the cells and the globals as a record. Vga/Colours has
--               the colours of bootloader/cboot/include/vga.h
--   Print       bootloader/cboot/src/print.c, over a console of the screen of Vga and the bytes
--               that serial_write_char sends. Print/Printer is about functions that print, and
--               Print/Query about those that return a value too
--   Interrupts  bootloader/cboot/src/interrupts.c, and the handlers of
--               bootloader/cboot/src/exceptions.c, over Print; the two that print the page tables
--               are in Interrupts/Faults
--   Gpt         find_partition_by_name of bootloader/cboot/src/main.c, over the drive of Ustar, the
--               comparisons of Str, and Print
--   Elf         bootloader/cboot/include/elf64.h, and what map_kernel prints of an executable
--   Loader      map_kernel of bootloader/cboot/src/main.c, over the memory and the tables of
--               Paging. Loader/Layout describes an executable without the loop of the code
--   Bios        scan_bios_memmap (Bios/Regions) and allocate_space_for_kernel (Bios/Space) of
--               bootloader/cboot/src/main.c
--   Boot        cboot_main and halt of bootloader/cboot/src/main.c, over all of these. The state of
--               Paging gets the table of interrupts and the machine behind the ports. The function
--               is written as the parts boot, find_kernel, load_kernel, read_kernel and
--               start_kernel, each the rest of it from a call on. Boot/Prepare is about the way to
--               the loads, Boot/Backed and Boot/Room about the space for the kernel, Boot/Load,
--               Boot/Loaded and Boot/Start about the loads, Boot/Sent about the serial line, and
--               Boot/Main, Boot/Running and Boot/Space about the whole
--
-- Numbers are natural numbers; a cast or a wrap-around of the source is written as a remainder by a
-- power of 2. Bit fields are written with division and remainder, and GET_PTE_ADDRESS as arithmetic
-- on 64 bits. A pointer is a number where code computes with it (Mem, Paging, Loader, Bios) and a
-- function of offsets where it is only read or written through (Str, Ustar, Print).
--
-- A `for` loop with a count is a recursion on what is left of it. A `while` loop runs on fuel, and
-- `none` says that the fuel is gone before the loop ends. The loops of mem.c get size + 1 rounds,
-- as each round moves by a byte at least. The loops of ustar.c need one round more than the archive
-- has entries, that of find_partition_by_name one more than there are partitions, those over the
-- memory map one more than there are regions, that over the program headers as many as there are,
-- puts one more than the text has characters: 20 and 32 are the sizes of the buffers of print.c,
-- and putd_loop gets 21, as a number of 64 bits has 20 digits at most.
--
-- A wait for a drive or a chip needs more fuel than the readings of the status that can still show
-- it busy.
--
-- The memory of Boot is flat too: the space for the kernel is at its addresses in the upper half,
-- and the page tables are at their physical addresses. The code and the stack are not in this memory.
-- So load_kernel asks first whether the tables map all of the space, above the first megabyte and
-- above the page tables; if not, the end `astray` says that a store faults, or hits the code, the
-- stack or the tables, and nothing behind it is modelled. The copies of map_kernel are not asked
-- again: Boot/Kernel has them in the space as a condition. An `hlt` is an end.
--
-- The bytes that putc sends are kept in the console, and the chip of the serial line gets them by
-- serial_write_char, in their order, at the end of cboot_main: nothing else touches the chip after
-- init_serial, and a run in which a wait for it does not end has no result. The drive is not behind
-- these ports: a read of sectors has the effect that Ata/Read is about.
--
-- Not modelled: md5.c, a copy of other code which is not called; the assembly, and the kernel.
mod Base
pub mod Ata
pub mod Bios
pub mod Boot
pub mod Elf
pub mod Gpt
pub mod Interrupts
pub mod Loader
pub mod Mem
pub mod Paging
pub mod Ports
pub mod Print
pub mod Serial
pub mod Str
pub mod Ustar
pub mod Vga
