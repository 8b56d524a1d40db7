-- ===== src/Elf.antt =====
-- include/dynamic.h: the modules of the process (`umain_elf_t`), their chain, and the functions
-- that find a module by an address or a place in its PLT. A pointer to a module is a number.
pub mod Laws
use lib_dasics.Base.{
  ℕ, ◌+◌, ◌-◌, ◌*◌, ◌/◌, ◌%◌, ◌^◌, ◌<◌, Bool, ◌&&◌, not, Option, none, some, List, [], ◌∷◌, bit_and,
  ltb, ◌==◌, if◌then◌else◌,
}
use lib_dasics.Udasics.State.{minus_one}

-- `MAIN_AREA` of include/dasics_start.h.
abbrev main_area : ℕ
main_area = 1

-- `umain_elf_t`: the fields that are used; the arrays that the module owns are functions, as are the
-- cells of its GOT from `got_begin` on.
pub record Elf : Type 0 where
  pub l_addr : ℕ
  pub copy_lib_elf : Option ℕ
  pub plt_begin : ℕ
  pub got_num : ℕ
  pub map_link : ℕ
  pub fixup_handler : ℕ
  pub got : ℕ → ℕ
  pub local_got_table : ℕ → ℕ
  pub target_elf : ℕ → Option ℕ
  pub target_func_name : ℕ → Option (List ℕ)
  pub target_is_main : ℕ → ℕ
  pub redirect_switch : ℕ → ℕ
  pub namespace_func : Option ℕ
  pub flags : ℕ
  pub text_start : ℕ
  pub text_end : ℕ
  pub plt_start : ℕ
  pub plt_end : ℕ
  pub r_start : ℕ
  pub r_end : ℕ
  pub w_start : ℕ
  pub w_end : ℕ

-- `_flags & MAIN_AREA`
unfoldable pub is_main : Elf → Bool
is_main e = not (bit_and e.flags main_area == 0)

-- `RANGE`: both ends are left out.
unfoldable pub in_range : ℕ → ℕ → ℕ → Bool
in_range x lo hi = ltb lo x && ltb x hi

-- `_get_area` on the chain from `_umain_elf_table` on.
unfoldable pub get_area : (ℕ → Elf) → List ℕ → ℕ → Option ℕ
get_area elfs [] pc = none
get_area elfs (p ∷ ps) pc =
    if in_range pc (elfs p).text_start (elfs p).text_end then some p else get_area elfs ps pc

-- `_is_plt_area`, as the bit pattern of an `int`.
pub is_plt_area : ℕ → Elf → ℕ
is_plt_area uepc e =
    if in_range uepc e.plt_start e.plt_end
    then ((uepc - e.plt_start) / 0x10) % 2 ^ 32
    else minus_one
