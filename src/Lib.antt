-- ===== src/Lib.antt =====
-- Verification of the kernel in student-distrib: a small x86 kernel with a text terminal, a
-- read-only file system, paging and a handful of system calls.
--
-- The parts. The keyboard's interrupt handler edits a line and echoes it on the screen; ENTER makes
-- the line readable. A program reads it, reads files and the clock, and prints, through descriptors
-- in its control block. `execute` finds a program in the file system, sets up a page directory for
-- it, loads it and enters it; `halt` goes back to the process that started it.
--
-- Which file models what:
--   Base         native numbers with Boolean tests, options as chains of calls that may not end,
--                32-bit integers, memory as a function to bytes, lists of its values
--   Str          student-distrib/lib.c: strlen, strncmp, strcpy, strncpy, strrev, itoa
--   Screen       student-distrib/lib.c: putc, puts, back_space, clear, clear_screen,
--                terminal_scroll_down, update_terminal_cursor. `Screen` holds the bytes from
--                0xB8000 on, screen_x and screen_y
--   Printf       student-distrib/lib.c: printf, its conversions one by one
--   FileSystem   student-distrib/files.c: filesystem_init, read_dentry_by_name,
--                read_dentry_by_index, read_data, file_* and directory_*. `FileSystem` holds the
--                global variables and the memory that the boot module lies in
--   Pic          student-distrib/i8259.c: the masks, and each call's port writes
--   Rtc          student-distrib/rtc.c: the flag that a read waits on, and the rate
--   Keyboard     student-distrib/keyboard.c: tables, the two buffers, the handler key by key,
--                terminal_read, terminal_write
--   BlockMemory  student-distrib/lib.c: memset, memset_word, memset_dword, memcpy, memmove, by
--                the loops of their assembly. `Store` holds memory and the direction flag
--   Idt          student-distrib/idt.c: IDT_init, and in Exceptions the exception handlers
--   Paging       student-distrib/mypaging.c and the entries of student-distrib/x86_desc.h
--   SystemCall   student-distrib/systemcall.c: Files has read, write, open and close, Process has
--                execute, halt, getargs and check_executable, Vidmap has vidmap, set_handler and
--                sigreturn, Dispatch has asm_linkage of student-distrib/handler.S. `Kernel` holds
--                the variables, the control blocks by address, and the parts above
--   Boot         student-distrib/kernel.c: the messages of `entry` over the structures of
--                student-distrib/multiboot.h; Segments has the two descriptors, Entry the whole
--                function, Ready the machine that it sets up. `Machine` holds the kernel, the
--                descriptors and the interrupt flag
--   User         syscalls: Support is ece391support.c; Small, Cat, Grep, Shell and Pingpong are the
--                programs and Syserr is ece391syserr.c, over `System`, the calls they make;
--                OnKernel fills it by the kernel
--   Fish         fish/fish.c: `add_frames`, main and the allocator, over `System`
--   Tests        runs of the models on a small image and a small kernel
-- The child modules of a part hold what is shown of it.
--
-- State is passed on explicitly; a call returns the new state, its result and what it stores for
-- the caller. Bytes sent to ports are lists of (port, byte) in order; bytes read from a port are
-- arguments. Interrupts that come while `rtc_read` spins are a list of events.
--
-- Loops. A loop with a known bound counts its rounds down. The string functions have 2 ^ 32 rounds
-- of fuel, the whole address space, and give `none` if there is no NUL in it; each NUL-terminated
-- string of less than 2 ^ 32 characters ends within it. `itoa` has 32 rounds, enough for 32 bits in
-- every radix from 2 on. The screen coordinates and the counters of the keyboard never fall below
-- 0, so they are natural numbers; positions and addresses wrap at 2 ^ 32 where the source's do.
--
-- The loop over the memory map that `entry` prints has 2 ^ 32 rounds of fuel, one for each address.
--
-- The assembly that switches contexts is not modelled instruction by instruction: `execute` and
-- `halt` say where control goes and with which stack and frame pointers. A local variable or buffer
-- that the source reads before it is written is an argument.
--
-- Buffers of 1024 bytes, those of the arguments and of the line, are functions of an index; a call
-- that would write past their end, as `execute` does for longer arguments and `terminal_write` for
-- more bytes, has no outcome but `none` or `overruns`. The NUL that `execute` writes behind a name
-- of 32 characters goes one byte past the name's array; it is taken to hit nothing that is used. A
-- program's memory is apart from the kernel's variables: a buffer that a program places in the
-- kernel's memory, which the calls do not refuse, would change them and is not covered. Neither are
-- files and names of 2 ^ 31 bytes and more, whose lengths are negative for the source's signed
-- counters.
--
-- Programs of syscalls that run until their input ends have fuel, and end as `endless` without it;
-- what is shown of them says how much is enough. A program that starts another one stands still in
-- its `execute`; no other interrupt comes while a program runs than those in the lists of events.
--
-- Not modelled: the boot assembly (boot.S, x86_desc.S), the stubs of handler.S around the handlers,
-- the device tests (test.c), the signal tests (ece391sigtest.c), the emulation of the calls on
-- another system (ece391emulate.c), the assembly of the fish demonstration, the disk images and
-- tools. They are set-up code, manual tests, or programs on other systems.
pub mod Base
pub mod BlockMemory
pub mod Idt
pub mod Str
pub mod Screen
pub mod Printf
pub mod FileSystem
pub mod Pic
pub mod Keyboard
pub mod Rtc
pub mod Paging
pub mod SystemCall
pub mod Boot
pub mod User
pub mod Fish
pub mod Tests
