-- ===== src/Lib.antt =====
-- A model of the Eterna kernel (64-bit x86, loaded by a UEFI boot loader), with the theorems that make its
-- parts correct.
--
-- The parts and how they interact. The boot loader puts the kernel's segments into memory and enters it. The
-- boot stage programs the interrupt controllers and fills the interrupt descriptor table, starts the serial port, and
-- sets up memory. The physical memory manager keeps one bit for each page in a bitmap, which it builds from UEFI's memory
-- map, and gives out pages. The virtual memory manager takes pages for its tables, whose entries Paging models, and the
-- kernel heap maps pages behind its end and cuts them into segments for `malloc`, on which strings and lists stand.
-- The handlers of exceptions report through a panic, which writes to the serial port and draws on the screen.
--
-- - Bitmap.antt: the class `Bitmap` of kernel/bitmap.cc and include/bitmap.hpp. The buffer is a list
--   of bytes in the state; `get`, `set`, `init` and `length` are the methods.
-- - Pmm.antt: kernel/memory/physical_memory_manager.cc. `Pmm` holds the globals of the namespace;
--   `lock_page`, `lock_pages`, `free_page`, `free_pages`, `request_page` and `request_pages` have the
--   source's names, `lock_loop`, `free_loop`, `request_loop`, `scan_run` and `search` are its loops. A
--   loop with a bound is recursion on the rounds that are left. The call of `panic`, which returns,
--   is the outcome `panicked`.
-- - Heap.antt: kernel/memory/heap.cpp and include/memory/heap.hpp. `Heap` holds the three globals, the
--   memory as a function from addresses to headers, and the pages that were mapped. A header is
--   packed: 25 bytes. `find` is the loop of `malloc` on a number of rounds, and the calls that
--   `malloc` makes of itself, also through `heap_print_debug`, are counted by attempts. In a `Build`
--   without `DEBUG_HEAP` three are enough, and as many rounds as the heap has bytes; Debug is about the build
--   with it, as the source defines it. A build also has the number of pages that may be mapped. Chain, Combine,
--   Split, Find, Expand, Malloc and Free relate the pointers to a list of segments, Blocks and Coalesce speak of that list, and Live of what a client sees. In Reach
--   a client calls `malloc` and `free` in any order, as a step relation.
-- - Physical.antt: `init_physical` of the same file, from the memory map to the final bitmap, `init_virtual` of
--   kernel/memory/virtual_memory_manager.cc, and the sums of kernel/memory/efi_memory.cc. What the link script defines is a
--   parameter, and a loop over the map is recursion on its list. The bytes of the bitmap are in its buffer; `under_bitmap`
--   puts them over the tables that lie there.
-- - Paging.antt: include/memory/paging.hpp, an entry as its `Value` and the indices of an address. Fields gives
--   the methods as arithmetic, with the laws of masks in Bits.antt and Masks.antt.
-- - Vmm.antt: kernel/memory/virtual_memory_manager.cc. A table is a function from indices to values at its
--   address; `level` is one of the three upper levels of `map`, which the source repeats. `translate`
--   is the processor's walk with its large pages, an independent description.
-- - Mem.antt: kernel/memory/memory.cc, on memory as a function from addresses to bytes.
-- - Cstr.antt: kernel/cstr.cc. A buffer is a function from indices to characters; twenty rounds are enough for
--   the digits of 64 bits. A write behind the buffer of twenty characters is `none`. Decimal,
--   Signed and Hex are the three ways to write a number.
-- - String.antt: the class `String` of include/string.hpp, its buffers in memory; the buffers that `new` gives are arguments.
-- - Descriptors.antt: kernel/interrupts/idt.cc, include/interrupts/idt.hpp and include/arch/x86_64/gdt.hpp.
-- - Interrupts.antt: kernel/interrupts/interrupts.cc. Reading a port is a parameter, since the instruction
--   is assembly; what is written is a list. Interrupts/Pic.antt has `remap_pic` and, as an independent description, the two 8259
--   chips.
-- - Stage1.antt: `prepare_interrupts` of kernel/kstage1.cc. The addresses of the handlers and of the table are
--   parameters; the result has the processor's register.
-- - Uart.antt: kernel/uart.cc and include/uart.hpp. What the device answers to each read is a parameter. The loops that wait
--   for the chip have its bound, 16960 polls; the loop over a string has as many rounds as characters.
--   Text follows that loop, and Reader describes the text without its colour codes.
-- - Debug.antt: kernel/debug.cc, the loop over a format, whose arguments are 64-bit slots; what it prints are messages,
--   one for each call of another output function. As many rounds as the format has characters are enough.
-- - Panic.antt: kernel/panic/panic.cc and the handlers of kernel/interrupts/interrupts.cc. `Console` is the serial port and the
--   renderer's two framebuffers; Report is what is sent.
-- - Bootloader.antt: gnu-efi/bootloader/main.c. UEFI's services, the constants of elf.h and how its two headers lie in bytes are
--   parameters, and Documented says what UEFI documents of two services.
-- - Renderer.antt: kernel/renderer/renderer.cc, on pixels as a function from indices behind the target's address.
--   Renderer/Screen.antt has the functions between the two framebuffers, and Renderer/BitImage.antt reads a bitmap bit by
--   bit.
-- - LinkedList.antt: include/linked_list.hpp, nodes in memory; the node that `new` gives is a parameter.
--
-- Numbers are natural numbers; `add64`, `sub64` and `mul64` of Base/Word.antt wrap around at 2 ^ 64 where the
-- source's `uint64_t` does. Pointers are their addresses, and a null pointer is 0.
--
-- Not modelled: assembly and the link scripts; the vendored gnu-efi library (lib, inc, gnuefi) and font renderer
-- (include/ssfn.h), which are other projects'; the builds with VBOX and COM1_INPUT_DEBUG; numbers with a fraction; the printing of
-- the memory maps, the heap and the allocator; `dbgrainbow`; `clone_active_page_map`; and what kstage1 and kmain draw.
pub mod Base
pub mod Bitmap
pub mod Bits
pub mod Bootloader
pub mod Cstr
pub mod Debug
pub mod Descriptors
pub mod Heap
pub mod Interrupts
pub mod LinkedList
pub mod Masks
pub mod Mem
pub mod Paging
pub mod Panic
pub mod Physical
pub mod Pmm
pub mod Renderer
pub mod Stage1
pub mod String
pub mod Uart
pub mod Vmm
