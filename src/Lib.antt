-- ===== src/Lib.antt =====
-- LibDASICS: bounds for untrusted code on RISC-V with the DASICS extension.
--
-- A process runs trusted code and untrusted libraries. The trusted part tells the hardware, by
-- bounds in control registers, which memory a library may read and write and where it may jump; an
-- access outside raises a fault, which the trusted part answers. This library models the C code of
-- the trusted part.
--
-- Files, and the code that they are about (paths from the repository's root):
--   Udasics    src/udasics/udasics.c: the library bounds. A bound has a handle in a table without
--              limit and may stand in one of 16 registers. State: the registers, the table, the
--              next handle and the map from registers to handles (`Udasics.State.Dasics`).
--              `Udasics.Libcfg` has register_udasics, dasics_libcfg_alloc, _free, _free_all, _get and
--              dasics_ldst_checker; `Udasics.Handler` has dasics_ufault_handler. The other children
--              prove what they do: Invariant (what a valid state is), Alloc, Free, FreeAll, Fault,
--              Register, Retry. Spec is the map from handles to bounds without registers, and Runs is
--              about sequences of calls. Checker has dasics_bound_checker and
--              dasics_oldest_victim.
--   Jumpcfg    the same file: the four jump regions, dasics_jumpcfg_alloc and _free.
--   Original   lib/tools/original.c: the bounds without handles.
--   Utrap      src/utrap/fetch.c, src/utrap/ldst.c and src/start/fault.c: the default handlers.
--   Syscall    src/udasics/usyscall.c and src/utrap/ecall.c: the checks of system calls.
--              Registered is about the handler after checks were registered.
--   Dmalloc    src/memory/dmalloc.c: the chunk allocator.
--   Ring       include/list.h: the lists without end, as writes to the fields of nodes, and the list
--              of nodes that they stand for.
--   Funcmem    src/memory/ufuncmem.c: the blocks that library functions hold, each with a bound;
--              FuncMan has the list of a module's functions, set_global_func_man.
--   Elf, Chain include/dynamic.h: the modules of the process and their chain, as a list and by its
--              pointers. The other parts use the list; Chain has the loops over the pointers.
--   Reloc      src/dynamic/relocation.c: where calls between the modules are sent. Strings has the
--              comparison of include/dasics_string.h.
--   Plt, Segments, Names  src/dynamic/dynamic.c: init_elf_plt, the areas of _fill_module_map, and
--              _fill_module_name and _find_copy_lib.
--   Loader     the same file: Got has _fill_local_got, Targets has _fill_target_elf, and Records and
--              Build have create_umain_elf_chain, whose children prove what it does: Trust outside
--              the copy stage, CopyStage in it.
--   Stages     src/start/stage1.c, stage2.c and stage3.c: the set-up of the process, and open_memory
--              and get_main_link of src/dynamic/dynamic.c. Boot is about the first two stages
--              together, Third about the last.
--   Auxv       include/dasics_start.h: the auxiliary vector on the initial stack.
--   Cross      src/maincall/cross.c and src/maincall/umaincall.c: calls between modules. A call opens a
--              jump region and three library bounds and pushes a record on a stack; the return
--              takes them down again, with the bounds of the blocks that the module recorded (Blocks).
--              Dynamic is about the two entry points from assembly.
--   Base, Word shared names, lists, results that may stop the process; words, fields and alignment.
--   Tests      runs on small inputs, and each theorem with hypotheses at such an input.
--
-- Machine integers are natural numbers with their wrap-around written out; an int is its bit
-- pattern, so -1 is 2 ^ 32 - 1. A control register holds what was last written to it. A function
-- that may stop the process returns a `Result`; loops are recursion on the number of rounds left,
-- which is the loop's own bound, so none runs out; the loops over linked nodes (Ring, Chain, FuncMan)
-- take the number of rounds as an argument, and as many as there are nodes, or one more, are enough.
-- A loop that does not end (`while(1)`) is `none` or `Stop.hung`. rand(), malloc, realloc, mmap and
-- system calls are arguments; the hash table of uthash is a parameter with the laws that its
-- documentation gives (`Udasics.Table.HashTable`), qsort one that sorts (`Udasics.Checker.Qsort`), and
-- _dl_fixup of the dynamic linker one that resolves a function and writes the GOT
-- (`Loader.Got.Fixup`). What the code reads of a module in memory comes with its link map.
--
-- Not modelled: what is printed; assembly, whose effect is the frame that a handler gets; memory
-- that the code copies as a whole, which is a record here; memory protection; uthash; _get_lib_name,
-- which reads the symbol table.
pub mod Base
pub mod Word
pub mod Udasics
pub mod Jumpcfg
pub mod Tests
pub mod Dmalloc
pub mod Original
pub mod Syscall
pub mod Utrap
pub mod Funcmem
pub mod Elf
pub mod Cross
pub mod Strings
pub mod Reloc
pub mod Plt
pub mod Ring
pub mod Chain
pub mod Stages
pub mod Loader
pub mod Names
pub mod Segments
pub mod Auxv
