-- ===== src/Loader.antt =====
-- The loading of modules, of src/dynamic/dynamic.c: from the link maps that the dynamic linker keeps,
-- `create_umain_elf_chain` makes the record of each module (Build), fills its tables (Got) and finds
-- the module of each function that it imports (Targets).
pub mod Got
pub mod Targets
pub mod Records
pub mod Build
