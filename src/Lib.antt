-- ===== src/Lib.antt =====
-- A verification of the kernel in student-distrib/: a small x86 operating system with a read-only file
-- system, paging, three text terminals, a few devices and system calls for up to six processes.
--
-- The state of each part is a record, and each C function is a function on it, called by the others as
-- in the source. The parts, with the files of the repository that they model:
--
--   Memory    the machine's memory, a byte at each address, with `memcpy`, `memset` and `memmove`
--             (student-distrib/lib.c)
--   Strings   `strlen`, `strncmp`, `strcpy` and `strncpy` (student-distrib/lib.c)
--   Print     `strrev`, `itoa`, `puts` and `printf` (student-distrib/lib.c)
--   Console   the text screen: `putc`, `clear`, `scrollDown` (student-distrib/lib.c) and `setCursor`
--             (student-distrib/devices/terminal.c)
--   Fs        the file system image and its operations (student-distrib/fileSystem/fileSystem.c)
--   Ports     writes to I/O ports, as values in a list (student-distrib/lib.h)
--   Rtc       the real-time clock (student-distrib/devices/rtc.c)
--   Pic       the two interrupt controllers (student-distrib/i8259.c)
--   Pit       the timer (student-distrib/scheduling/scheduling.c)
--   Idt       the interrupt descriptor table (student-distrib/interrupts-exceptions/idt.c) and its test
--             `idt_test` (student-distrib/tests.c)
--   Segments  the descriptors of the LDT and the TSS (student-distrib/x86_desc.h and kernel.c)
--   Paging    the page directory and the page tables (student-distrib/paging/paging.c), and their test
--             `paging_init_test` (student-distrib/tests.c)
--   Keyboard  the keys, their locks and the line buffer (student-distrib/devices/keyboard.c)
--   Terminal  reading a line, writing, and the switch of the screen
--             (student-distrib/devices/terminal.c)
--   Process   process control blocks and the tables of processes (student-distrib/systemCalls/pcb.c)
--   Kernel    the variables of all parts together, and what a system call finds around it
--   Files     `open`, `read`, `write` and `close` (student-distrib/systemCalls/systemCalls.c), and
--             `fs_read` (student-distrib/fileSystem/fileSystem.c)
--   Run       `execute` and `halt` (student-distrib/systemCalls/systemCalls.c)
--   Args      `getargs`, `vidmap`, `set_handler`, `sigreturn`
--             (student-distrib/systemCalls/systemCalls.c)
--   Switching `switchTerminal` (student-distrib/devices/terminal.c), the tick of the timer
--             (student-distrib/scheduling/scheduling.c), the interrupt handlers `IRQ0` and `IRQ2`
--             (student-distrib/interrupts-exceptions/interruptHandlers.c), and that of the keyboard,
--             `keyboardHandler` (student-distrib/devices/keyboard.c), whose keys switch terminals
--   Exceptions  the exception handlers (student-distrib/interrupts-exceptions/exceptionHandlers.c)
--   Syscalls  the entry of the system calls (student-distrib/linkages/syscall_wrapper.S)
--   Boot      `entry` (student-distrib/kernel.c)
--   User      the programs: the wrappers of the system calls (syscalls/ece391syscall.S), the library
--             (syscalls/ece391support.c), cat, counter, grep, hello, ls, pingpong, shell and testprint,
--             and the tests of wrong calls (syscalls/ece391syserr.c)
--   Prelude   tests, lists, C integers, tables that are checked value by value, and bit operations
--   Tests     concrete states, on which the theorems are applied
--
-- The system calls go through the descriptors of the current process to the operations of Fs, Rtc and
-- Terminal; Terminal and Keyboard share the line buffer and the console; `execute` reads the program
-- through Fs, and maps its page through Paging. `entry` calls the initialisers of all parts, and the first
-- ticks of the timer start the shells. A program runs on any system that answers its calls, of which the
-- kernel is one.
--
-- Numbers. A `uint32_t` is a natural number, reduced modulo 2 ^ 32 where the source can wrap around. A
-- signed integer is an element of ℤ. Addresses are natural numbers without wrap-around, since an object
-- in C does not cross the end of the address space. A pointer to a user's buffer is the address that
-- it has after translation.
--
-- Loops. A `for` loop with a bound is a recursion on the rounds that are left. A loop that ends at a
-- terminator has as many rounds as its index has values (2 ^ 32 or 2 ^ 31), and `none` where there is
-- no terminator; `strncpy` is `none` for a limit that overflows its index. 33 rounds count the bits
-- of a word, and 32 rounds print one in a radix of at least 2. A busy wait is a recursion on the
-- interrupts that come in; `none` is a wait that goes on, as it does when a key switches to another
-- terminal.
--
-- Outside of the code: the answers of the devices' ports, the interrupts, the addresses of local
-- variables and of string literals, and what an uninitialised variable holds, are parameters.
--
-- The loops of the programs that go on for as long as there is input take a number of rounds, and `none`
-- is a loop that goes on; pingpong, whose loop has no end, takes the rounds after which its state is
-- given.
--
-- Not modelled: the assembly of boot.S, x86_desc.S and isr_wrapper.S; the other tests in tests.c; the
-- program sigtest; fish/ and ece391emulate.c, which stand on assembly and on Linux; and
-- createfs and elfconvert, which have no source. The jump to a program or to another stack is an
-- outcome, with the values that the registers get. The control registers, the flush of the TLB, the
-- interrupt flag and the direction flag are left out: an address is translated by the tables as they
-- stand.
pub mod Prelude
pub mod Memory
pub mod Strings
pub mod Console
pub mod Print
pub mod Fs
pub mod Ports
pub mod Rtc
pub mod Pic
pub mod Pit
pub mod Idt
pub mod Segments
pub mod Paging
pub mod Keyboard
pub mod Terminal
pub mod Process
pub mod Kernel
pub mod Files
pub mod Run
pub mod Args
pub mod Switching
pub mod Exceptions
pub mod Syscalls
pub mod Boot
pub mod User
pub mod Tests
