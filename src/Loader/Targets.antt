-- ===== src/Loader/Targets.antt =====
-- `_fill_target_elf` of src/dynamic/dynamic.c: for each function that a module imports, the module
-- whose text has it.
pub mod Entries
use lib_dasics.Base.{
  ℕ, zero, suc, ◌+◌, ◌≡◌, refl, arith, Option, none, some, List, [], ◌∷◌, update, ◌∙◌, sym,
  if◌then◌else◌,
}
use lib_dasics.Elf.{Elf, is_main, get_area, in_range}
use lib_dasics.Strings.{Str}

-- `target_is_main` of an entry, unless there is no such module.
abbrev pub main_flag : (ℕ → Elf) → Option ℕ → ℕ → (ℕ → ℕ) → ℕ → ℕ
main_flag elfs none i flags = flags
main_flag elfs (some g) i flags = update flags i (if is_main (elfs g) then 1 else 0)

module _ (lib_name : ℕ → ℕ → Str) (chain : List ℕ) where
  -- One round of the inner loop, on the module at `p`; `lib_name` is `_get_lib_name`.
  pub fill_target : ℕ → ℕ → (ℕ → Elf) → ℕ → Elf
  fill_target p i elfs =
      let e = elfs p in
      let target = get_area elfs chain (e.local_got_table (i + 2)) in
      update elfs p (record e {
        target_elf = update e.target_elf (i + 2) target;
        target_func_name = update e.target_func_name (i + 2) (some (lib_name p i));
        target_is_main = main_flag elfs target (i + 2) e.target_is_main;
      })

  -- The inner loop, with `left` rounds left.
  pub fill_targets : ℕ → ℕ → ℕ → (ℕ → Elf) → ℕ → Elf
  fill_targets p zero i elfs = elfs
  fill_targets p (suc left) i elfs = fill_targets p left (i + 1) (fill_target p i elfs)

  -- The outer loop, over the modules that are left.
  pub fill_modules : List ℕ → (ℕ → Elf) → ℕ → Elf
  fill_modules [] elfs = elfs
  fill_modules (p ∷ ps) elfs = fill_modules ps (fill_targets p (elfs p).got_num 0 elfs)

  -- `_fill_target_elf`, on a chain that is not empty.
  pub fill_target_elf : (ℕ → Elf) → ℕ → Elf
  fill_target_elf elfs = fill_modules chain elfs

  -- What the loops leave as it was.
  pub record IsKept (elfs elfs' : ℕ → Elf) : Type 0 where
    pub text_start : (q : ℕ) → (elfs' q).text_start ≡ (elfs q).text_start
    pub text_end : (q : ℕ) → (elfs' q).text_end ≡ (elfs q).text_end
    pub flags : (q : ℕ) → (elfs' q).flags ≡ (elfs q).flags
    pub l_addr : (q : ℕ) → (elfs' q).l_addr ≡ (elfs q).l_addr
    pub copy_lib_elf : (q : ℕ) → (elfs' q).copy_lib_elf ≡ (elfs q).copy_lib_elf
    pub got_num : (q : ℕ) → (elfs' q).got_num ≡ (elfs q).got_num
    pub table : (q j : ℕ) → (elfs' q).local_got_table j ≡ (elfs q).local_got_table j

  pub IsKept-refl : (elfs : ℕ → Elf) → IsKept elfs elfs
  IsKept-refl elfs = record {
    text_start = λ q. refl;
    text_end = λ q. refl;
    flags = λ q. refl;
    l_addr = λ q. refl;
    copy_lib_elf = λ q. refl;
    got_num = λ q. refl;
    table = λ q j. refl;
  }

  pub IsKept-trans : (a b c : ℕ → Elf) → IsKept a b → IsKept b c → IsKept a c
  IsKept-trans a b c k l = record {
    text_start = λ q. l.text_start q ∙ k.text_start q;
    text_end = λ q. l.text_end q ∙ k.text_end q;
    flags = λ q. l.flags q ∙ k.flags q;
    l_addr = λ q. l.l_addr q ∙ k.l_addr q;
    copy_lib_elf = λ q. l.copy_lib_elf q ∙ k.copy_lib_elf q;
    got_num = λ q. l.got_num q ∙ k.got_num q;
    table = λ q j. l.table q j ∙ k.table q j;
  }

  pub IsKept-sym : (a b : ℕ → Elf) → IsKept a b → IsKept b a
  IsKept-sym a b k = record {
    text_start = λ q. sym (k.text_start q);
    text_end = λ q. sym (k.text_end q);
    flags = λ q. sym (k.flags q);
    l_addr = λ q. sym (k.l_addr q);
    copy_lib_elf = λ q. sym (k.copy_lib_elf q);
    got_num = λ q. sym (k.got_num q);
    table = λ q j. sym (k.table q j);
  }

  pub fill_target-IsKept : (p i : ℕ) (elfs : ℕ → Elf) → IsKept elfs (fill_target p i elfs)
  unfolding fill_target
  fill_target-IsKept p i elfs = record {
    text_start = λ q. ground arith;
    text_end = λ q. ground arith;
    flags = λ q. ground arith;
    l_addr = λ q. ground arith;
    copy_lib_elf = λ q. ground arith;
    got_num = λ q. ground arith;
    table = λ q j. ground arith;
  }

  pub get_area-IsKept :
      (elfs elfs' : ℕ → Elf) (ps : List ℕ) (pc : ℕ)
      → IsKept elfs elfs'
      → get_area elfs' ps pc ≡ get_area elfs ps pc
  unfolding get_area in_range
  get_area-IsKept elfs elfs' [] pc k = refl
  get_area-IsKept elfs elfs' (p ∷ ps) pc k =
      rw (k.text_start p, k.text_end p, get_area-IsKept elfs elfs' ps pc k) refl
