-- ===== src/Loader/Records.antt =====
-- What `create_umain_elf_chain` of src/dynamic/dynamic.c works on, and the parts of a module's record that
-- come from its link map alone.
use lib_dasics.Base.{
  ℕ, ◌+◌, ◌-◌, ◌/◌, ◌%◌, ◌^◌, Bool, false, ◌&&◌, ◌||◌, not, Option, none, some, List, [], ◌∷◌,
  update, bit_or, ltb, leb, ◌==◌, if◌then◌else◌,
}
use lib_dasics.Base.Result.{Result, ok, err, Stop}
use lib_dasics.Elf.{Elf}
use lib_dasics.Strings.{Str, strcmp}
use lib_dasics.Segments.{Phdr, Areas, fill_module_map}
use lib_dasics.Loader.Got.{Fixup}

-- `struct link_map` of the dynamic linker at the address `map`, and what is read of the module that
-- it describes: its dynamic section, the cells of its GOT, its first bytes and its program headers.
pub record LinkMap : Type 0 where
  pub map : ℕ
  pub l_addr : ℕ
  pub l_name : Str
  pub l_ld : List (ℕ × ℕ)
  pub got : ℕ → ℕ
  pub ident : ℕ → ℕ
  pub phdrs : List Phdr

-- What stays the same: the first argument of the process, `_start`, `_interp_start`,
-- `dasics_stage`, whether the auxiliary vector has `AT_DASICS`, the address of `dasics_umaincall`, the two
-- fixup handlers with what they do, `DT_NUM`, and the names of functions.
pub record Setup : Type 0 where
  pub program : Str
  pub start : ℕ
  pub interp_start : Str
  pub stage : ℕ
  pub at_dasics : ℕ
  pub maincall : ℕ
  pub handler : ℕ
  pub handler_lib : ℕ
  pub fixup : Fixup
  pub dt_num : ℕ
  pub lib_name : ℕ → ℕ → Str

-- The modules, their names, their chain and `dasics_main_elf`.
pub record Loaded : Type 0 where
  pub elfs : ℕ → Elf
  pub l_name : ℕ → Str
  pub real_name : ℕ → Str
  pub chain : List ℕ
  pub main_elf : Option ℕ

-- `DASICS_COPY_LIB`
abbrev pub copy_lib : ℕ
copy_lib = 2

-- `_fill_dynamic_section`: the entries that are left up to `DT_NULL`; tags are signed.
unfoldable pub fill_dynamic_section : ℕ → List (ℕ × ℕ) → (ℕ → Option ℕ) → Result (ℕ → Option ℕ)
fill_dynamic_section dt_num [] info = err Stop.out_of_bounds
fill_dynamic_section dt_num ((tag, val) ∷ ds) info =
    let rest =
      fill_dynamic_section dt_num ds
        (if ltb tag dt_num then update info tag (some val) else info) in
    if tag == 0 then ok info else if leb (2 ^ 63) tag then err Stop.out_of_bounds else rest

-- `is_elf_format` of include/dynamic.h
pub is_elf_format : (ℕ → ℕ) → Bool
is_elf_format ident = ident 0 == 0x7f && (ident 1 == 0x45 && (ident 2 == 0x4c && ident 3 == 0x46))

-- The fields of a new module, cleared by `memset`, and those that are set before its flags.
unfoldable pub new_elf : Setup → LinkMap → Elf
new_elf env m = record {
  l_addr = m.l_addr;
  copy_lib_elf = none;
  plt_begin = 0;
  got_num = 0;
  map_link = m.map;
  fixup_handler = if env.stage == copy_lib then env.handler_lib else env.handler;
  got = λ i. 0;
  local_got_table = λ i. 0;
  target_elf = λ i. none;
  target_func_name = λ i. none;
  target_is_main = λ i. 0;
  redirect_switch = λ i. 0;
  namespace_func = none;
  flags = if ltb m.l_addr env.start then 1 else 2;
  text_start = 0;
  text_end = 0;
  plt_start = 0;
  plt_end = 0;
  r_start = 0;
  r_end = 0;
  w_start = 0;
  w_end = 0;
}

-- `ELF_AREA` and `LINK_AREA`
unfoldable pub more_flags : Setup → LinkMap → ℕ → ℕ
more_flags env m flags =
    let main = if m.l_addr == 0 then bit_or flags 8 else flags in
    if not (m.l_addr == 0) && (not (env.at_dasics == 0) && strcmp m.l_name env.interp_start == 0)
    then bit_or main 4
    else main

-- `_fill_module_map`: a module at another address than 0 must have the magic number of ELF.
abbrev no_areas : Areas
no_areas = record {
  map_start = 0;
  map_end = 0;
  text_start = 0;
  text_end = 0;
  r_start = 0;
  r_end = 0;
  w_start = 0;
  w_end = 0;
  relro_addr = 0;
  relro_size = 0;
  set_r = false;
  set_w = false;
  set_x = false;
  set_map = false;
}

unfoldable pub module_map : LinkMap → Elf → Elf
module_map m e =
    let a = fill_module_map m.l_addr m.phdrs no_areas in
    if m.l_addr == 0 || is_elf_format m.ident
    then record e {
      text_start = a.text_start;
      text_end = a.text_end;
      r_start = a.r_start;
      r_end = a.r_end;
      w_start = a.w_start;
      w_end = a.w_end;
    }
    else e

-- `int rela_got_num`, widened to 64 bits.
pub rela_got_num : ℕ → ℕ
rela_got_num size = let n = size / 24 % 2 ^ 32 in if leb (2 ^ 31) n then n + 2 ^ 64 - 2 ^ 32 else n
