-- ===== src/Lib.antt =====
-- Verification library of the RedX kernel and its loader: the parts of kernel/src and of
-- gnu-efi/bootloader that keep state or compute, over a memory that is a function from addresses to
-- bytes.
--
-- The loader reads the kernel and a font from a file system, asks the firmware for memory and enters the
-- kernel. The kernel takes over with the firmware's memory map. The page allocator turns the
-- map into a bitmap of locked pages and gives pages out; the page tables map them; the interrupt
-- table leads to the keyboard, which writes characters into the terminal's buffer, and to the mouse,
-- whose packets move a cursor; the renderer draws into the frame buffer, and prints at a cursor what
-- the string functions leave in their buffers.
--
--   Common      Boolean tests, casts to machine words, bits, lists, memory, counted loops
--   Doubles     the double of C++, IEEE 754's binary64, in which the kernel computes lines and roots
--   Math        kernel/src/libs/math.h and math.cpp: sqrt, rand and roundd, over Doubles
--   Bitmap      kernel/src/libs/math.h and math.cpp: the class bitmap (operator[], set)
--   Allocator   kernel/src/memory/memory.h and memory.cpp: pageAllocator with the file's globals
--               (lock, locks, free, frees, reserve, reserves, release, releases, getPage, readMap,
--               bitmapInit, getMemorySize), over Bitmap
--   Paging      kernel/src/memory/paging.h and paging.cpp: dirEntry, pMapIndexer, pTableMan;
--               Paging/Walk is the processor's walk through the tables, Paging/Tree the invariant,
--               Paging/Console what the warning of `map` writes when it is printed
--   Strings     kernel/src/libs/string.h and string.cpp: toString of whole numbers and
--               of doubles, toHString, and cat
--   Cursor      kernel/src/basicRenderer.h and basicRenderer.cpp: the struct cursor
--   Renderer    the same files, kernel/src/screen.h and psf.h: basicRenderer and the frame buffer
--   Keyboard    kernel/src/hid/keyboard.h and keyboard.cpp: lookup and handleKeyboard
--   Mouse       kernel/src/hid/mouse.h and mouse.cpp: handleMouse and processMPacket, over Cursor
--   Gdt         kernel/src/gdt/gdt.h and gdt.cpp: the segment table
--   Idt         kernel/src/interrupts/interrupts.h and interrupts.cpp: IDTEntry and setGate
--   Ports       kernel/src/hid/io.h and io.cpp: an interface for what answers at the ports
--   Pic         kernel/src/interrupts/interrupts.cpp: remapPIC, endMaster, endSlave and
--               keyboardHandler, over Ports and Keyboard; Pic/Chips is the data sheet's side
--   Ps2         kernel/src/hid/mouse.cpp: ps2MouseInit and its waits, over Ports; Ps2/Controller is
--               the documented side of the controller
--   Terminal    kernel/src/terminal/terminal.h and terminal.cpp, kernel/src/libs/io.cpp and the flag
--               of kernel/src/scheduler: Terminal::handler and print
--   Screen      kernel/src/screen.cpp, kernel/src/terminal/renderer.h and renderer.cpp: Screen::pixel
--               and TerminalRenderer
--   Loader      gnu-efi/bootloader/main.c: memcmp, loadFile, loadPSFFont, GOPInit and efi_main, over an
--               interface for the firmware; Loader/Documented is the specification's side
--   Kernel      kernel/src/kernelFunc.h, kernelFunc.cpp, main.cpp, pTableMan::getPool and
--               Terminal::init: the parts over one memory, and how they are set up;
--               Kernel/Machine is the running kernel, with interrupts between the rounds of its loop
--
-- A component's state is a record with the fields of the class and the globals that go with it; an
-- operation takes the arguments in the source's order and then the state. Functions keep their names
-- in snake case, handlers of overloaded names get their type (to_string_signed, print_char_at).
-- Machine integers are natural numbers, and each wrap-around that the source can reach is written out
-- (u8, u32, u64, add64, sub64); a signed number stands as its two's complement pattern. Buffers and
-- structs that the code reaches through pointers stand in memory, little-endian.
--
-- A double is a whole number of units of 2 ^ -1074 with its sign, or infinite, or not a number; sums,
-- products and quotients are rounded to the nearest of 53 bits, to the even one of two. Where C++ leaves a
-- conversion to a whole number open, the result is that of the processor's instruction.
--
-- Bounds: a `for` loop is a recursion on the number of its rounds (for_range). The loops of toString
-- are given twenty rounds, as many as a 64-bit number has digits, which the theorems on them prove
-- to be enough. The loop that looks for the end of the text in the keyboard's buffer has one round
-- for each place, after which the source's own test ends it. The waits for the PS/2 controller have the
-- source's 100000 rounds. The loops of the terminal and of cat that have no bound of their own have one
-- round for each address; the theorems on them have room in the buffers, so that they end earlier.
--
-- The loop of sqrt has the source's 10000 rounds, and that of drawLine, whose counter is a double, one for
-- each `unsigned int`, which the theorem on it shows to be enough.
--
-- The loop over the program headers has e_phnum rounds, which a theorem shows to be enough. A loop of
-- memoryInit that maps the pages up to a limit has one round for each page below the limit, which the
-- theorem on it uses; the source's loop does not end if the limit is in the last page of 64 bits.
--
-- The firmware's services (and the gnu-efi library's Print and InitializeLib) act on a state of their
-- own and on memory. A service that fails leaves the variable that its result goes to as it was; the
-- interface gives what the variable holds afterwards. The loader's own variables are values: no service
-- is taken to write over them, but for the buffers that it is given. The kernel's parameters are
-- records that stand apart from memory, since what the kernel allocates and maps is not theirs.
--
-- The warning of `map` for a page that is not locked is printed with the kernel's renderer: into the
-- frame buffer, the buffer of toHString and the place of its argument. The theorems on `map` say which
-- of these they take to stand apart. The memory of a pool stands at the addresses at which the kernel
-- sees it. A call through a null pointer is the end of what is modelled of the loader.
--
-- Not modelled: the routine that loads the segment table, the text
-- of the panic in getPage (a panic is a result after which nothing runs), the BIOS boot sector, and the
-- gnu-efi library, which is another project's.
pub mod Common
pub mod Doubles
pub mod Math
pub mod Bitmap
pub mod Allocator
pub mod Paging
pub mod Strings
pub mod Cursor
pub mod Mouse
pub mod Keyboard
pub mod Gdt
pub mod Idt
pub mod Ports
pub mod Pic
pub mod Ps2
pub mod Terminal
pub mod Renderer
pub mod Screen
pub mod Loader
pub mod Kernel
