-- ===== src/Lib.antt =====
-- Maplesyrup reads the system registers of ARM processors and shows their bitfields. This library models
-- its code in C: the command line, the library that searches tables of bitfields and takes values apart,
-- the reading of registers in user mode, and the kernel module that reads them on each processor.
--
-- The parts, from the command line to the hardware, with the files that model them:
-- - Frontend: frontend/entrypoint.c. `take_options` is the loop over the options, `run_args` what
--   follows it in `main`, and a `Line` is what one printf writes, without its layout.
-- - Api: lib/src/maplesyrup.c, and `start_test` and `stop_test` around a search in Api/Find. Session has
--   these two once more with the signal handlers of lib/src/cmd_handler.c, on the state `Process`.
-- - Breakout: lib/src/parse_breakout.c. Tables has `read_tables_to_memory` and `erase_tables`; Lookup
--   `breakout_get_index` and the functions on it; Parts the names; Add the functions `breakout_add_…`;
--   Search `breakout_search_table`; Ioctls `breakout_sort_ioctls` and the calls for values; Results the
--   functions from values to bitfields; Listing `get_groups`, `get_registers` and `get_bitfields`; Find
--   `find_bitfields`, which composes them. Mscode has the codes that name a bitfield (`mscode`, and the
--   macros MSCODE_… of common/parse.h), Mask `power`, `get_mask`, `breakout_applymask` and
--   `value_to_long`.
-- - Bitfields: the tables of lib/src/bitfields for ARMv7-A, ARMv8-A and the interrupt controller, row by
--   row, and the functions that return their sizes. Registers: the constants of registers of
--   common/parse.h.
-- - Usermode: the reads in user mode of lib/src/cmd_handler.c. Driver: lib/src/raw_results.c.
-- - Kernel: the kernel module. Cpus has the loops over the processors and Read the reading of one
--   register (module/cmd_handler.c), Gic the interrupt controller (module/gic.c), Tree the device tree
--   (module/device_tree.c), Ioctl what answers a request, and Device the loading, opening, closing and
--   unloading (module/entrypoint.c, module/undef_hook.c).
-- - Jumptable: common/jumptable.c, the table of the functions that read a register.
-- - Structs: the structures and constants of common/parse.h, common/ms_error.h,
--   lib/include/maplesyrup.h and lib/src/parse_breakout.h.
-- - Support: the linked list of lib/src/support.c, on a heap of addresses. In the other modules a list of
--   the program is a list of records; the theorems of Support are what allows that.
-- - Env: how the code in user mode runs. A function takes an environment and returns a value and the
--   environment that is left, or faults, which is undefined behaviour of C: an access through NULL,
--   outside an array or through a list head that was not set up. Allocations, answers of the driver and
--   register reads are streams of the environment. `Yields` says what a run returns while memory does
--   not run out, and thereby that there is no fault.
--
-- A call of the driver is an answer of the environment; Kernel/Ioctl/Device and Kernel/Ioctl/Search take
-- for it the answer that the model of the module computes, where the copies from and to user space
-- succeed. The module's own functions take a `Machine`, which says what the kernel and the hardware
-- answer, and return an Option, where `none` is undefined behaviour of C.
--
-- A function with an out parameter returns what that is set to; a pointer that may be NULL is an Option.
-- The globals `g_bitfield_table_heap` and `g_bitfield_table_size` are passed along as `Globals`, and
-- `g_illsig` as a number. A C string is the bytes before its zero, and strncpy writes into a buffer of
-- zeros. Numbers wrap where C's do. Loops are `for_loop` and `walk`, which recurse on the rounds that are
-- left and on the list. `power` has one call more than its exponent, and halves or decrements that in
-- each; `free_loop` has one round more than the list has elements, and does not run out on a list that is
-- in order. The bytes of the tables are summed in 32 bits, with the size that a bitfield_info_heap has where
-- pointers have 64; while they do not wrap, the memory that is allocated is shown to be enough. A register
-- name of 31 bytes or more, which strncpy leaves without a zero in it, is taken for a fault.
--
-- Not modelled: the tables of the four Cortex processors (lib/src/bitfields), which have the form of the
-- modelled ones; functions that use the tables, or that of common/jumptable.c, take them as arguments.
-- Further the assembly instructions of the functions that read registers (common, module/kernel_return.S),
-- whose outcomes are given by the environment and the `Machine`, the text of the usage and the ornaments
-- of what is printed (frontend), and tracing.
pub mod Base
pub mod Structs
pub mod Env
pub mod Support
pub mod Mscode
pub mod Mask
pub mod Breakout
pub mod Usermode
pub mod Driver
pub mod Session
pub mod Api
pub mod Frontend
pub mod Kernel
pub mod Jumptable
pub mod Registers
pub mod Bitfields
