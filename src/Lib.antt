-- ===== src/Lib.antt =====
-- A verification library for the kernel of efi-os, a small x86-64 operating system in C.
--
-- The parts, and the files that model them:
--
--   Memory          kernel/src/typedef.c: memset, memcpy, memmove, memcmp, wmemset, intset, crc32b
--                   (Memory/Checksum). Memory is a function from addresses to bytes, a routine returns
--                   the new one.
--   Heap            kernel/src/memory.c: the segments of the kernel heap, SPLIT_HEAP_SEGMENT,
--                   JOIN_HEAP_NEXT_SEGMENT, EXPAND_HEAP, INIT_HEAP, kmalloc and free. The headers are a
--                   function from addresses; the globals are the fields of the record Heap. Heap/Chain has
--                   the abstract view, a list of segments, and the invariant.
--   CircularBuffer  kernel/src/circular_buffer.c: the ring under pipes and the list of ready threads,
--                   with its lock. CircularBuffer/Inv has the abstract view, a bounded queue.
--   Frames          kernel/src/paging.c, the page frames: REQUEST_PAGE, LOCK_PAGE, FREE_PAGE, RESERVE_PAGE,
--                   UNRESERVE_PAGE and their loops over ranges, and the start of INIT_PAGING with
--                   getMemorySize of kernel/src/efimemory.c (Frames/Setup). Frames/Count has the invariant.
--   PageTable       kernel/src/paging.c, the page tables: the entries, navigate_to_PL1, map_mem, unmap_mem
--                   and the loops over them. PageTable/Levels has the invariant, PageTable/Map the
--                   processor's own translation.
--   Fat             kernel/src/fat.c: the geometry, the 12-bit entries, the search for a free cluster,
--                   loading and writing a chain of clusters. The disk is a function from sectors; Fat/Chain
--                   has the abstract view, a list of clusters. Fat/Directory has the directories and the
--                   cluster of a path, Fat/Offset read_cluster_chain_from_offset,
--                   Fat/File write_file.
--   SortedList      kernel/src/sorted_list.c: the binary search, insertion, removal and look-up. The callback
--                   is an argument; SortedList/Order says when it is an order.
--   Strings         kernel/src/string.c: strlen, strchr, strrchr, strcmp, strcasecmp and strcpy, on memory.
--                   Strings/Text has the abstract view, a list of bytes. Strings/Split has strncpy, strstr,
--                   strrstr and split_string_by_char.
--   Clock           kernel/src/time.c: SYSTEM_TIME_INCREMENT, the conversion in INIT_RTC, dayofweek.
--                   Clock/Tick has the calendar.
--   Mouse           kernel/src/mouse.c: HANDLE_PS2_MOUSE, a byte at a time, with what it draws as a list.
--   Numbers         kernel/src/stdlib.c: atoi, atol, itoa, ltoa; kernel/src/stdio.c: format_number.
--   Printf          kernel/src/stdio.c: kvsprintf and format_double. A va_list is a list of words, what the
--                   machine does with a double is a parameter. Printf/Expand has the abstract view, the text
--                   that a format and its words describe.
--   Screen          kernel/src/graphics.c and kernel/src/bitmap-font.c: the frame buffer, in memory, the
--                   glyphs, the pointer, the exchange of buffers, load_font. Screen/Console has the text
--                   console with its cursor.
--   Terminal        kernel/src/tty.c: tty_write, the characters and the escape sequences, on a console.
--   Vfs             kernel/src/vfs.c: the nodes, the walk along a path, folders, pipes, opening, closing,
--                   reading and writing (Vfs/Cache), the tree as a whole (Vfs/Tree), the nodes of a
--                   volume, with fat_populate_vfs_directory of kernel/src/fat.c (Vfs/Populate); kernel/src/file_table.c,
--                   the descriptors (Vfs/Files), and the calls of kernel/src/filesystem.c (Vfs/Files/Calls).
--                   Nodes and entries are functions from addresses, the caches lie in memory.
--   Keyboard        kernel/src/keyboard.c: handle_key, a byte at a time, with what it prints or calls back as a
--                   list. Keyboard/Held has the abstract view, the keys that are held.
--   Scheduler       kernel/src/thread.c and kernel/src/scheduler.c: threads, and get_next_thread, a step of
--                   the scheduler on its pool of ready threads, a CircularBuffer.
--   DynArray        kernel/src/dynarray.c: the growing array of pointers.
--   Process         kernel/src/process.c: new_process, the copy of the segments of a program, whose format is
--                   in kernel/src/elf.h, and its thread.
--   Prelude         shared names, lists over native numbers, machine words, bits of numbers.
--
-- The heap takes its pages from paging through one call, a parameter of the model: it requests a
-- frame and maps it at an address.
--
-- Machine integers are natural numbers with the wrap written out where a value can leave the range;
-- a pointer is a plain number where the invariant keeps it inside the 64-bit address space.
--
-- Loops that follow pointers take a number of rounds. A walk of the heap needs a round for each
-- segment, a string function one more than the string has bytes, the binary search one for each
-- element and one more, a walk of a chain one for each cluster and one more, the search for a free
-- cluster one for each entry, a directory one for each of its entries and one more, the program headers one
-- for each and one more, kmalloc a call for each expansion and one more, the spin loop of the buffer's lock two
-- attempts.
--
-- The offsets `i*4096` of the loops over frames and pages wrap as an int does (Frames, PageTable, Heap),
-- and so do the numbers of open files (Vfs/Files). The index of strcmp and strcasecmp, an int, is not
-- wrapped: a string has less than 2^31 bytes. The walk that makes tables needs three free frames.
--
-- Not modelled: the code whose effect is input and output on ports, the console port,
-- the assembly files, the vendored gnu-efi and the boot loader; the descriptors of
-- segments and interrupts, kcalloc, and the shell.
pub mod Prelude
pub mod Memory
pub mod Heap
pub mod CircularBuffer
pub mod Fat
pub mod Strings
pub mod SortedList
pub mod Clock
pub mod Mouse
pub mod Numbers
pub mod Printf
pub mod Screen
pub mod Terminal
pub mod Vfs
pub mod Scheduler
pub mod Keyboard
pub mod DynArray
pub mod Process
pub mod Frames
pub mod PageTable
