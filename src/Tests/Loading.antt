-- ===== src/Tests/Loading.antt =====
-- The loading of a program and a library.
use lib_dasics.Base.{
  ℕ, ◌+◌, ◌≡◌, inl, inr, refl, arith, true, ◌&&◌, none, List, [], ◌∷◌, ltb, leb, ◌==◌,
  if◌then◌else◌,
}
use lib_dasics.Base.Result.{ok}
use lib_dasics.Strings.{Str}
use lib_dasics.Names.{after_slash, copy_name, fill_module_name}
use lib_dasics.Loader.Got.{
  Fixup, reloc_offset, OneCell, resolved, fill_local_got, fill_local_got_lem,
}
use lib_dasics.Loader.Targets.{fill_target_elf}
use lib_dasics.Loader.Targets.Entries.{IsFilled, fill_target_elf-IsKept, fill_target_elf_lem}
use lib_dasics.Loader.Records.{LinkMap, Setup, Loaded, fill_dynamic_section}
use lib_dasics.Loader.Build.{create_umain_elf_chain}
use lib_dasics.Loader.Build.Trust.{AllLoadable, IsLoaded, create_umain_elf_chain_lem}
use lib_dasics.Tests.Machine.{module_at, modules}

-- The function behind offset `o` lies at 0x2000 + o, and the cell that belongs to it is written.
abbrev fixup : Fixup
fixup = record {
  address = λ handler link o. 0x2000 + o;
  writes =
      λ handler link o cells j. if leb 2 j && (reloc_offset j == o) then 0x2000 + o else cells j;
}

fixup-OneCell : OneCell fixup
unfolding OneCell
fixup-OneCell handler link o cells j h = ground (arith, h)

fill_local_got_lem_example :
    let r = fill_local_got fixup 0x10000 true 0x40 1 (module_at 0 1) in
    let f = resolved fixup fixup-OneCell 0x10000 (module_at 0 1) 3 in
    (r.local_got_table 3 ≡ f)
    × (r.got 3 ≡ (if ltb f 0x10000 then f else 0x1000))
    × (r.got 0 ≡ 0x40)
    × (r.got 1 ≡ 1)
    × (r.plt_begin ≡ 0x1000)
fill_local_got_lem_example =
    fill_local_got_lem fixup fixup-OneCell 0x10000 0x40 1 (module_at 0 1) 3 (omega arith)
      (omega arith) (omega arith)

abbrev lib_name : ℕ → ℕ → Str
lib_name p i = p ∷ i ∷ []

four : (fill_target_elf lib_name (1 ∷ 2 ∷ []) modules 2).got_num ≡ 4
four = (fill_target_elf-IsKept lib_name (1 ∷ 2 ∷ []) modules).got_num 2

fill_target_elf_lem_example :
    let filled = fill_target_elf lib_name (1 ∷ 2 ∷ []) modules in
    IsFilled lib_name (1 ∷ 2 ∷ []) filled 2 3 filled
fill_target_elf_lem_example =
    fill_target_elf_lem lib_name (1 ∷ 2 ∷ []) modules 2 3 (inr (inl refl)) (omega (arith, four))

-- A program without a GOT at address 0, and a library with two imported functions.
abbrev pub program_map : LinkMap
program_map = record {
  map = 0x700;
  l_addr = 0;
  l_name = [];
  l_ld = (5, 0x400) ∷ (0, 0) ∷ [];
  got = λ i. 0;
  ident = λ i. 0;
  phdrs = [];
}

abbrev pub library_map : LinkMap
library_map = record {
  map = 0x800;
  l_addr = 0x20000;
  l_name = 47 ∷ 99 ∷ [];
  l_ld = (3, 0x3000) ∷ (2, 48) ∷ (0, 0) ∷ [];
  got = λ i. 0x21000;
  ident = λ i. 0;
  phdrs = [];
}

abbrev pub setup : Setup
setup = record {
  program = 112 ∷ [];
  start = 0x10000;
  interp_start = 108 ∷ [];
  stage = 0;
  at_dasics = 1;
  maincall = 0x40;
  handler = 0x50;
  handler_lib = 0x60;
  fixup = fixup;
  dt_num = 38;
  lib_name = lib_name;
}

abbrev pub nothing_loaded : Loaded
nothing_loaded = record {
  elfs = λ p. module_at 0 1;
  l_name = λ p. [];
  real_name = λ p. [];
  chain = [];
  main_elf = none;
}

abbrev pub link_maps : List (ℕ × LinkMap)
link_maps = (1, program_map) ∷ (2, library_map) ∷ []

-- Both can be loaded in every stage.
pub maps-AllLoadable :
    (stage at_dasics handler handler_lib : ℕ)
    → AllLoadable
        (record setup {
          stage = stage;
          at_dasics = at_dasics;
          handler = handler;
          handler_lib = handler_lib;
        })
        link_maps
unfolding fill_dynamic_section fill_module_name copy_name after_slash
maps-AllLoadable stage at_dasics handler handler_lib = (
  record {
    nonzero = λ e. omega arith;
    info = _;
    dynamic = refl;
    size = 0;
    sized = inl refl;
    l_name = _;
    real_name = _;
    named = refl;
  },
  (
    record {
      nonzero = λ e. omega arith;
      info = _;
      dynamic = refl;
      size = 48;
      sized = inr refl;
      l_name = _;
      real_name = _;
      named = refl;
    },
    tt,
  ),
)

create_umain_elf_chain_lem_example :
    (t : Loaded) × (create_umain_elf_chain setup link_maps nothing_loaded ≡ ok t)
    × IsLoaded setup nothing_loaded link_maps t
create_umain_elf_chain_lem_example =
    create_umain_elf_chain_lem setup (λ e. omega arith) 1 program_map ((2, library_map) ∷ [])
      nothing_loaded (maps-AllLoadable 0 1 0x50 0x60) tt
