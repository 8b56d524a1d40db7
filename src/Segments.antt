-- ===== src/Segments.antt =====
-- `_fill_module_map` of src/dynamic/dynamic.c: the areas of a module, from its program headers.
pub mod Laws
use lib_dasics.Base.{
  ℕ, zero, suc, ◌+◌, ◌-◌, ◌%◌, ◌^◌, ◌<◌, Bool, true, false, ◌&&◌, not, List, [], ◌∷◌, bit_and, ltb,
  leb, ◌==◌, if◌then◌else◌,
}
use lib_dasics.Word.{add64}
use lib_dasics.Word.Align.{round}

-- `Elf64_Phdr`: the fields that are read.
pub record Phdr : Type 0 where
  pub p_type : ℕ
  pub p_flags : ℕ
  pub p_vaddr : ℕ
  pub p_memsz : ℕ

-- `PT_LOAD`, `PT_GNU_RELRO`, `PF_X`, `PF_W` and `PF_R`.
abbrev pub pt_load : ℕ
pt_load = 1

abbrev pt_gnu_relro : ℕ
pt_gnu_relro = 0x6474e552

abbrev pub has : Phdr → ℕ → Bool
has h flag = not (bit_and h.p_flags flag == 0)

-- The fields of the module that are filled, and the four variables of the loop.
pub record Areas : Type 0 where
  pub map_start : ℕ
  pub map_end : ℕ
  pub text_start : ℕ
  pub text_end : ℕ
  pub r_start : ℕ
  pub r_end : ℕ
  pub w_start : ℕ
  pub w_end : ℕ
  pub relro_addr : ℕ
  pub relro_size : ℕ
  pub set_r : Bool
  pub set_w : Bool
  pub set_x : Bool
  pub set_map : Bool

-- `ADD_TWO` and `ADD_THREE` of the code, at the load address.
abbrev pub start_of : ℕ → Phdr → ℕ
start_of l_addr h = add64 h.p_vaddr l_addr

abbrev pub end_of : ℕ → Phdr → ℕ
end_of l_addr h = add64 (add64 h.p_vaddr h.p_memsz) l_addr

-- The steps of the case `PT_LOAD`, in their order. `_set_map` is tested and never set.
pub load_map : ℕ → Phdr → Areas → Areas
load_map l_addr h a =
    let b =
      if a.set_map
      then a
      else record a { map_start = start_of l_addr h; map_end = start_of l_addr h } in
    if b.set_map then record b { map_end = round (end_of l_addr h) 0x1000 } else b

pub load_text : ℕ → Phdr → Areas → Areas
load_text l_addr h a =
    let b =
      if not a.set_x && has h 1
      then record a { set_x = true; text_start = start_of l_addr h }
      else a in
    if has h 1 then record b { text_end = end_of l_addr h } else b

pub load_read : ℕ → Phdr → Areas → Areas
load_read l_addr h a =
    let b =
      if not a.set_r && (has h 4 && not (has h 2))
      then record a { set_r = true; r_start = start_of l_addr h }
      else a in
    if has h 4 && not (has h 2) then record b { r_end = end_of l_addr h } else b

pub load_write : ℕ → Phdr → Areas → Areas
load_write l_addr h a =
    let b =
      if not a.set_w && (has h 4 && has h 2)
      then record a { set_w = true; w_start = start_of l_addr h }
      else a in
    if has h 4 && has h 2 then record b { w_end = end_of l_addr h } else b

pub scan_one : ℕ → Phdr → Areas → Areas
scan_one l_addr h a =
    if h.p_type == pt_load
    then load_write l_addr h (load_read l_addr h (load_text l_addr h (load_map l_addr h a)))
    else if h.p_type == pt_gnu_relro
    then record a { relro_addr = add64 h.p_vaddr l_addr; relro_size = h.p_memsz }
    else a

-- The loop over the headers that are left.
pub scan : ℕ → List Phdr → Areas → Areas
scan l_addr [] a = a
scan l_addr (h ∷ hs) a = scan l_addr hs (scan_one l_addr h a)

-- What is set before the loop.
pub cleared : Areas → Areas
cleared a = record a {
  r_start = 0;
  r_end = 0;
  w_start = 0;
  w_end = 0;
  set_r = false;
  set_w = false;
  set_x = false;
  set_map = false;
}

-- `_fill_module_map`, from the headers that it finds on.
pub fill_module_map : ℕ → List Phdr → Areas → Areas
fill_module_map l_addr hs a = scan l_addr hs (cleared a)
