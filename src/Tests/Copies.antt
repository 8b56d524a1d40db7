-- ===== src/Tests/Copies.antt =====
-- The copy stage, on a program with a trusted library, whose untrusted copy is loaded.
use lib_dasics.Base.{ℕ, some, List, [], ◌∷◌, ◌==◌, if◌then◌else◌}
use lib_dasics.Udasics.Table.{Entry}
use lib_dasics.Loader.Records.{LinkMap, Setup, Loaded}
use lib_dasics.Stages.{Start}
use lib_dasics.Tests.Machine.{module_at}
use lib_dasics.Tests.Loading.{program_map, library_map, setup}
use lib_dasics.Tests.Stages.{started}

-- The program is record 1, the trusted library record 2.
abbrev two_modules : Loaded
two_modules = record {
  elfs = λ p. if p == 1 then module_at 0 1 else module_at 0x8000 1;
  l_name = λ p. if p == 2 then 47 ∷ 99 ∷ [] else 112 ∷ [];
  real_name = λ p. 99 ∷ [];
  chain = 1 ∷ 2 ∷ [];
  main_elf = some 1;
}

abbrev copying : Setup
copying = record setup { stage = 2; handler = 0x50; handler_lib = 0x50 }

-- The linker of the copies has the program and the library once more.
abbrev copy_maps : List (ℕ × LinkMap)
copy_maps = (9, program_map) ∷ (3, library_map) ∷ []

abbrev mapped : Start (List Entry)
mapped = record started { dasics_stage = 2; dll_fixup_handler = 0x50; loaded = two_modules }
