-- ===== src/Lib.antt =====
-- Verification of the kernel of Snoop-Diggity-dOS, a small operating system for x86 in C
-- (student-distrib/), and of some programs of its disk image (syscalls/).
--
-- The parts and how they interact. The boot code sets up the interrupt controllers
-- (devices/i8259.c), the clock (devices/rtc.c), the keyboard with its tables (devices/keyboard.c,
-- devices/scancodes.c), paging (paging.c) and the read-only file system (filesystem.c). Programs
-- run in one of six processes (scheduling.c, syscalls.c), each with a block of 4 MB of memory and
-- eight file descriptors, through which they reach the clock, the terminal and the files. The
-- console (lib.c) shows what the terminals print. There are three terminals, of which one is shown;
-- each has a shell and the programs that it starts. The timer goes round the terminals that are
-- launched, the keyboard edits the line of the one that is shown and switches between them, and a
-- program is started by execute and ended by halt.
--
-- The files, with paths from student-distrib/:
-- - Prelude: Boolean tests, arrays, 32-bit integers and bit facts for all the others.
-- - Strings: strlen, strncmp, strcpy and strncpy of lib.c. An array is a list of bytes, and an
--   access past its end gives none.
-- - Screen: the cursor and the video memory of lib.c, with putc, putc_screen, putc_kbd, put_t, puts,
--   scrolling and clearing. The video memory is a function on offsets.
-- - Fs: the disk image of filesystem.c and filesystem.h, with lookups, read_data and the pointers to
--   inodes. The inode area and the data area are functions on words and bytes.
-- - Descriptors: the fd_array of a process: open, close, getargs and the checks of read and write of
--   syscalls.c, read_file and read_directory of filesystem.c. The call through a jump table is
--   reported as the table that is used; open is named sys_open.
-- - Pids: the word of used pids and the process blocks of scheduling.c.
-- - Paging: the page directories and tables of paging.c as functions on indices. Paging.Isolation
--   has the processor's walk of the tables, against which they are judged.
-- - Pic: devices/i8259.c; Rtc: devices/rtc.c. What `inb` reads is an argument, and the writes to
--   ports are lists in the order of the code. Pic.Controller has what a controller makes of them.
-- - Scancodes: devices/scancodes.c and the tests of scancodes.h, assignment by assignment.
-- - Keyboard: the modifier keys, the line editor and read_terminal of devices/keyboard.c, on one
--   terminal and one screen.
-- - Terminals: the rest of devices/keyboard.c, over the state of all three terminals, the video memory
--   with its backing pages, and the page tables of the processes: change_terminal_state,
--   write_terminal, and in Terminals.Keys the whole of process_sent_scancode. The page directory that
--   is in force is an argument or that of the process of the shown terminal. A shell that is to be
--   started is a result, as internal_execute does not return there; the save_process_context before it
--   is left out, since the contexts of the processes are in Scheduler only.
-- - Scheduler: round_robin_scheduler, the switch of contexts and init_scheduling of scheduling.c.
--   Jumps store the instruction pointer of a record of registers, which has those that the code names:
--   eip, esp, ebp, eflags, the page directory and esp0. The general registers are not in it.
-- - Interrupts: the handlers of interrupt_handler.c for the timer, the clock and the lines that only
--   print a message, with the interrupts that come before and behind a handler's work as trees, and
--   in_hardware_int of scheduling.c. The messages are listed by their lines. Interrupts.Exceptions has
--   the handlers of exceptions, with their texts on the terminals and halt_excep.
-- - Execute: internal_execute of syscalls.c, and in Execute.Leave its halt and halt_excep. A process control block is found by
--   its address. The iret to the program is a result; what a call of internal_execute keeps on its
--   stack until halt jumps back is a frame, found by the frame pointer. The terminals are there only with
--   their pids, and the descriptors are those of Descriptors.
--   In Execute.Nested, programs that run programs are data types of steps: a process works in its own
--   memory, runs a program or has execute refused. They are the processes of one terminal, while those
--   of the others wait.
-- - Idt, Segments, Multiboot, Boot: kernel.c with x86_desc.h and multiboot.h. Idt is init_idt, with the
--   processor's reading of a gate in Idt.Gates; Segments has the descriptors of the LDT and the TSS;
--   Multiboot is what entry reads and prints of the boot loader's information; Boot is entry, which
--   calls the models of the other parts in the order of the source. Its messages are listed and not
--   drawn. The image from which execute reads is a function of the address that init_filesystem is
--   given, and not read through its pointers. The loop over the memory map has fuel; one more than the length of the map is enough.
-- - Format: itoa and strrev of lib.c, and in Format.Printf the functions printf and printf_t, as the
--   pieces that a format and its arguments ask for and the two ways to show them.
-- - User: with paths from syscalls/, the programs of ece391cat.c, ece391ls.c, ece391shell.c,
--   ece391counter.c, ece391hello.c and ece391testprint.c over a record of the calls of the kernel.
--   User.Kernel fills it: open, read, write and getargs go through Descriptors to read_file,
--   read_directory and write_terminal, of which it keeps the characters that are shown. The clock, the
--   keyboard and execute wait for interrupts and for other programs, and are a record of drivers. The
--   loops of cat, ls and the shell have fuel. User.Shell.Session has the calls of a session at the
--   keyboard, in which each read gives a line.
-- - Tests: runs on concrete data.
--
-- Bounds and fuel. A loop with a counter is recursion on the rounds that are left. The loop of
-- write_rtc that halves its counter runs on 17 units of fuel; from a counter of at most 16384 it
-- takes 15, and that it always ends is part of Rtc.Rate.write_rtc_lem. read_rtc waits
-- for an interrupt, and gives none on a list of events that holds none. itoa has 32 rounds for the
-- digits, and that they are enough for 32 bits is part of Format.Digits.itoa-IsNumeral; strrev has as
-- many rounds as there are characters. Words of 32 bits and bytes
-- keep their wrap-around. The counters of read_data are numbers, as they stay within the file.
--
-- Not modelled: the other programs and the files of the disk image (fish/, fsdir/ and the rest of
-- syscalls/); the keyboard's handler around process_sent_scancode; memset and memmove, which are
-- assembly, as are the remaining assembly files; and the PS/2 mouse, which only talks to hardware. What printf and printf_t return, the length of the
-- format, is left out.
pub mod Prelude
pub mod Strings
pub mod Format
pub mod Screen
pub mod Fs
pub mod Descriptors
pub mod Pids
pub mod Paging
pub mod Pic
pub mod Rtc
pub mod Scancodes
pub mod Keyboard
pub mod Scheduler
pub mod Terminals
pub mod User
pub mod Interrupts
pub mod Execute
pub mod Idt
pub mod Segments
pub mod Multiboot
pub mod Boot
pub mod Tests
