-- ===== src/Stages/Third.antt =====
-- What the third stage leaves, once the linker has mapped the untrusted copies of the libraries.
use lib_dasics.Base.{ℕ}
use lib_dasics.Loader.Records.{Setup}
use lib_dasics.Stages.{Entries, Start, at_dasics}

module _ {T : Type 0} (at : Entries) (s : Start T) where
  -- The arguments of `create_umain_elf_chain` in the third stage.
  abbrev pub third_setup : Setup → ℕ → ℕ → Setup
  third_setup env fixup dasics = record env {
    stage = s.dasics_stage;
    at_dasics = dasics;
    handler = s.dll_fixup_handler;
    handler_lib = fixup;
  }
