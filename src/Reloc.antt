-- ===== src/Reloc.antt =====
-- src/dynamic/relocation.c: where a call from one module to an address in another is sent. Most
-- libraries are there twice, as a trusted and as an untrusted copy; `_copy_lib_elf` leads from one
-- to the other.
pub mod Laws
use lib_dasics.Base.{
  ℕ, zero, suc, ◌+◌, ◌-◌, ◌^◌, Bool, true, false, ◌&&◌, not, Option, none, some, List, [], ◌∷◌,
  update, ◌==◌, if◌then◌else◌,
}
use lib_dasics.Base.Result.{Result, ok, err, Stop}
use lib_dasics.Word.{add64, sub64}
use lib_dasics.Udasics.State.{minus_one}
use lib_dasics.Elf.{Elf, is_main, get_area}
use lib_dasics.Strings.{Str, strcmp}

-- The modules, their chain from `_umain_elf_table` on (empty if that is null), and the switch.
pub record Links : Type 0 where
  pub elfs : ℕ → Elf
  pub chain : List ℕ
  pub redirect_switch : Bool

-- `(target - from->l_addr) + to->l_addr`
unfoldable pub moved : Elf → Elf → ℕ → ℕ
moved from to target = add64 (sub64 target from.l_addr) to.l_addr

-- `_call_reloc`, once the module of the target is looked for.
unfoldable pub reloc_found : Elf → ℕ → Links → Option ℕ → Result ℕ
reloc_found elf target s none = err Stop.exited
reloc_found elf target s (some g) =
    let to_copy : ℕ = elim (s.elfs g).copy_lib_elf [
      | none ↦ target
      | some c ↦ moved (s.elfs g) (s.elfs c) target
    ] in
    if is_main elf && is_main (s.elfs g)
    then ok target
    else if is_main elf && not (is_main (s.elfs g))
    then ok to_copy
    else if not (is_main elf) && is_main (s.elfs g)
    then ok to_copy
    else ok target

unfoldable pub call_reloc : Elf → ℕ → Links → Result ℕ
call_reloc elf target s = elim s.chain [
  | [] ↦ ok 0
  | p ∷ ps ↦ reloc_found elf target s (get_area s.elfs (p ∷ ps) target)
]

-- `_find_idx_by_name`, with `left` rounds left; `lib_name` reads the names that the symbol table of
-- the module gives its PLT entries.
pub find_name : (ℕ → Str) → Str → ℕ → ℕ → ℕ
find_name lib_name name zero i = minus_one
find_name lib_name name (suc left) i =
    let rest = find_name lib_name name left (i + 1) in
    if strcmp (lib_name i) name == 0 then i else rest

pub find_idx_by_name : (ℕ → Str) → Elf → Str → ℕ
find_idx_by_name lib_name target name = find_name lib_name name (sub64 target.got_num 2) 0

-- The switch of one PLT entry of the first module is set.
pub set_switch : ℕ → ℕ → ℕ → Links → Links
set_switch p idx x s = record s {
  elfs =
      update s.elfs p
        (record (s.elfs p) { redirect_switch = update (s.elfs p).redirect_switch (idx + 2) x });
}

-- `add_redirect_item`; `start_main` is "__libc_start_main".
pub add_redirect_item : Str → (ℕ → Str) → Str → Links → Links
add_redirect_item start_main lib_name name s = elim s.chain [
  | [] ↦ s
  | p ∷ ps ↦
      let idx = find_idx_by_name lib_name (s.elfs p) name in
      if strcmp name start_main == 0
      then s
      else if idx == minus_one
      then s
      else set_switch p idx 1 s
]

-- `delete_redirect_item`
pub delete_redirect_item : (ℕ → Str) → Str → Links → Links
delete_redirect_item lib_name name s = elim s.chain [
  | [] ↦ s
  | p ∷ ps ↦
      let idx = find_idx_by_name lib_name (s.elfs p) name in
      if idx == minus_one then s else set_switch p idx 0 s
]

-- `force_redirect` of module `entry`, once the module of the target is looked for.
redirect_found : ℕ → ℕ → ℕ → Links → Option ℕ → Result (ℕ × Links)
redirect_found entry idx target s none = err Stop.exited
redirect_found entry idx target s (some g) =
    let e = s.elfs entry in
    if is_main e && is_main (s.elfs g)
    then elim (s.elfs g).copy_lib_elf [
      | none ↦ ok (target, s)
      | some c ↦ ok (
        moved (s.elfs g) (s.elfs c) target,
        record s {
          elfs =
              update s.elfs entry
                (record e { target_elf = update e.target_elf (idx + 2) (some c) });
        },
      )
    ]
    else ok (target, s)

-- It answers the address.
force_redirect : ℕ → ℕ → ℕ → Links → Result (ℕ × Links)
force_redirect entry idx target s = elim s.chain [
  | [] ↦ ok (0, s)
  | p ∷ ps ↦
      if not s.redirect_switch
      then ok (target, s)
      else if idx == minus_one
      then ok (target, s)
      else if (s.elfs entry).redirect_switch (idx + 2) == 0
      then ok (target, s)
      else redirect_found entry idx target s (get_area s.elfs (p ∷ ps) target)
]

-- `open_redirect` and `close_redirect`
open_redirect : Links → Links
open_redirect s = elim s.chain [ [] ↦ s | p ∷ ps ↦ record s { redirect_switch = true } ]

close_redirect : Links → Links
close_redirect s = elim s.chain [ [] ↦ s | p ∷ ps ↦ record s { redirect_switch = false } ]
