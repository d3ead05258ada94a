-- ===== src/Lib.antt =====
-- A verification library for the MS0515 emulator (a PDP-11 compatible machine of 1989), in two parts.
--
-- The core, src/core, is the machine: the processor runs on the board, which sends each access to the
-- memory or to a device, and ticks the devices. Seven of its parts are modelled, each whole:
--
--   Core/Cpu       src/core/src/cpu.c,      the processor, a copy of the T-11: get_word_addr and the
--                  src/core/src/cpu_ops.c   other helpers in Cpu and Cpu/Address, the handlers op_* in
--                                           Cpu/Single*, Shift*, Double*, Special, Branch and Control,
--                                           the dispatch table in Cpu/Table, cpu_check_interrupts in
--                                           Cpu/Interrupts, cpu_step and cpu_execute in Cpu/Step. The
--                                           handbook's arithmetic is in Cpu/Handbook
--   Core/Memory    src/core/src/memory.c    mem_translate maps an address to a part of RAM, VRAM, ROM
--                                           or I/O; mem_read_*, mem_write_* go through it
--   Core/Floppy    src/core/src/floppy.c    the state in Floppy/State, the sectors in Floppy/Device,
--                                           fdc_attach, fdc_select and fdc_reset in Floppy/Mount,
--                                           fdc_write and fdc_read in Floppy/Commands, fdc_tick in
--                                           Floppy/Phases
--   Core/Timer     src/core/src/timer.c     three channels of an 8253; timer_tick, timer_write,
--                                           timer_read, timer_set_gate
--   Core/Ramdisk   src/core/src/ramdisk.c   512 KB behind three ports, ramdisk_read, ramdisk_write
--   Core/Hd        src/core/src/hd.c        a disk that moves words between an image (or a backend of
--                                           the host) and the memory, hd_write_word, hd_read_word
--   Core/Keyboard  src/core/src/keyboard.c  a serial interface with a queue of 16 bytes, kbd_write,
--                                           kbd_read, kbd_push_scancode, kbd_tick
--
-- The disk library, src/disk, reads and builds disk images outside the machine:
--
--   Disk/Layout    src/disk/src/Layout.cpp        where a logical block lies, lbnToByte, lbnFromPhys
--   Disk/Sparse    src/disk/src/SparseVolume.cpp  a volume that keeps the blocks in use, and its serial
--                                                 form, parse, serialize, fromLinear, toLinear
--   Disk/Image     src/disk/src/Image.cpp         the two sides of an image, splitDoubleSided, mergeSides
--   Disk/Names     src/disk/src/Internal.hpp,     RAD50 names, encodeRad50, splitName, decodeRad50Name
--                  src/disk/src/Directory.cpp
--   Disk/Directory src/disk/src/Directory.cpp     parseSegment, parseDirectory and what is looked up
--   Disk/Build     src/disk/src/Build.cpp         the directory segment of a new volume, initVolume
--   Disk/Dates     src/disk/src/Build.cpp         the date word of an entry, encodeDate, decodeDate
--
-- Each of these files has the state as a record and one function for each function of the source (for
-- the hard disk they are in Core/Hd/Device and Core/Hd/Controller); its children hold the lemmas, and
-- Tests the runs that can be followed by hand. Base holds what they share.
--
-- How the code is written here. A fixed array is a function from the index, and a vector or a span a
-- list of bytes, or for a whole image its size and the function from the offset. `std::map` is a list
-- of pairs in rising order (Base/Maps). Unsigned words are natural numbers with their casts written as
-- remainders, and the bit operators as arithmetic (Base/Words); `int` where it may be
-- negative is ℤ (Base/Int). A failed assert, an access that it guards and a NULL pointer are `none`.
-- A callback is a function over the state of what stands behind it, and `malloc`
-- a function that says whether an allocation is granted: both are arguments.
--
-- A handler of the processor is an action on its state, which holds the board behind the pointer; the
-- board is an interface (`Bus`) of reads, writes and the brackets of a read-modify-write cycle, whose
-- reads return 16 and 8 bits, and whose writes may change the processor's request lines, as a write
-- of the dispatcher does. The two hooks of the host are arguments of a step.
--
-- The floppy controller's time is signed, as it falls below zero within a tick. The loop of fdc_tick
-- takes fuel, one round more than cycles that are overdue, which is enough as every round adds a byte
-- time or a step of the head, or ends the command. The files that fopen finds are a map from paths to
-- bytes and a size; a write to an open file succeeds, and no file is removed.
--
-- The loop of cpu_execute takes fuel, as many rounds as cycles that are asked for, which is enough as a
-- step that takes no cycle ends it. Every other loop of the source is recursion on the number of its
-- rounds. parseSegment
-- reads while an entry fits below byte 1024, which is (1024 - 10) / size entries; the chain of segments
-- has the source's own guard of 31 rounds.
--
-- Not modelled: the board and the keyboard itself in
-- src/core; in src/disk the functions that put and remove files, the volumes over folders of the host,
-- and the composition of disks. The rest of the repository is front ends, terminal and sound output,
-- and tools over the two libraries.
pub mod Base
pub mod Core
pub mod Disk
