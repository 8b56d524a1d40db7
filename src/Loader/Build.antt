-- ===== src/Loader/Build.antt =====
-- `create_umain_elf_chain` of src/dynamic/dynamic.c, the loop over the modules that the dynamic
-- linker has loaded. The answers of the allocators are the addresses of the new records. The tables of
-- a module are taken to be allocated, which the code does not test.
pub mod Steady
pub mod Trust
pub mod Copies
pub mod Linked
pub mod Grows
pub mod CopyStage
use lib_dasics.Base.{
  ℕ, ◌+◌, Bool, false, ◌&&◌, not, Option, none, some, List, [], ◌∷◌, ◌++◌, update, ltb, ◌==◌,
  if◌then◌else◌,
}
use lib_dasics.Base.Result.{Result, ok, err, Stop, ◌>>=◌}
use lib_dasics.Strings.{strcmp}
use lib_dasics.Names.{fill_module_name, find_copy_lib}
use lib_dasics.Loader.Got.{fill_local_got}
use lib_dasics.Loader.Targets.{fill_target_elf}
use lib_dasics.Loader.Records.{
  LinkMap, Setup, Loaded, copy_lib, fill_dynamic_section, new_elf, more_flags, module_map,
  rela_got_num,
}

-- "Find copy lib": in the copy stage, for a module that is not trusted.
pub find_copy : Setup → ℕ → LinkMap → Loaded → Result Loaded
find_copy env block m s =
    if not (ltb m.l_addr env.start) && env.stage == copy_lib
    then (do
      links ←
          find_copy_lib s.l_name block
            (record { elfs = s.elfs; chain = s.chain; redirect_switch = false })
      ok (record s { elfs = links.elfs }))
    else ok s

-- `elf == dasics_main_elf`
pub is_main_elf : ℕ → Option ℕ → Bool
is_main_elf p none = false
is_main_elf p (some q) = p == q

pub local_got : Setup → ℕ → Loaded → Loaded
local_got env p s = record s {
  elfs =
      update s.elfs p
        (fill_local_got env.fixup env.start (is_main_elf p s.main_elf) env.maincall p (s.elfs p));
}

-- The tables of a module with `count` imported functions, up to the label `no_pltgot`.
pub fill_tables : Setup → ℕ → LinkMap → ℕ → Loaded → Loaded
fill_tables env block m count s =
    let e = module_map m (record (s.elfs block) { got_num = count }) in
    let main : Option ℕ = elim s.chain [ [] ↦ some block | p ∷ ps ↦ s.main_elf ] in
    let t = record s { elfs = update s.elfs block e; main_elf = main } in
    if strcmp (t.l_name block) env.interp_start == 0 then t else local_got env block t

pub with_got : Setup → ℕ → LinkMap → (ℕ → Option ℕ) → Loaded → Result Loaded
with_got env block m info s = elim (info 3) [
  | none ↦ ok s
  | some pltgot ↦
      let t = record s { elfs = update s.elfs block (record (s.elfs block) { got = m.got }) } in
      elim (info 2) [
        | none ↦ err Stop.null_pointer
        | some size ↦
            if rela_got_num size == 0
            then ok t
            else ok (fill_tables env block m (rela_got_num size) t)
      ]
]

-- One round for a new module: `memset` clears the block before it is compared with null.
pub load_module : Setup → ℕ → LinkMap → Loaded → Result Loaded
load_module env block m s = if block == 0 then err Stop.null_pointer else (do
  info ← fill_dynamic_section env.dt_num m.l_ld (λ i. none)
  (l_name, real_name) ← fill_module_name env.program m.l_name
  let named = record s {
    elfs = update s.elfs block (new_elf env m);
    l_name = update s.l_name block l_name;
    real_name = update s.real_name block real_name;
  }
  t ← find_copy env block m named
  let e = t.elfs block
  let flagged = record t {
    elfs = update t.elfs block (record e { flags = more_flags env m e.flags });
  }
  u ← with_got env block m info flagged
  ok (record u { chain = u.chain ++ block ∷ [] }))

-- "Correct the main": in the copy stage the main module is not loaded again.
correct_main : Setup → Loaded → Result Loaded
correct_main env s = elim s.chain [ [] ↦ err Stop.null_pointer | p ∷ ps ↦ ok (local_got env p s) ]

pub load_link : Setup → ℕ → LinkMap → Loaded → Result Loaded
load_link env block m s =
    if env.stage == copy_lib && m.l_addr == 0 then correct_main env s else load_module env block m s

-- The loop, with the address that the allocator gives for each module.
pub load_links : Setup → List (ℕ × LinkMap) → Loaded → Result Loaded
load_links env [] s = ok s
load_links env ((block, m) ∷ ms) s = do t ← load_link env block m s; load_links env ms t

-- The call of `_fill_target_elf`, which with an empty chain reads through null.
pub fill_all_targets : Setup → Loaded → List ℕ → Result Loaded
fill_all_targets env t [] = err Stop.null_pointer
fill_all_targets env t (p ∷ ps) =
    ok (record t { elfs = fill_target_elf env.lib_name t.chain t.elfs })

-- `create_umain_elf_chain`
pub create_umain_elf_chain : Setup → List (ℕ × LinkMap) → Loaded → Result Loaded
create_umain_elf_chain env ms s = do t ← load_links env ms s; fill_all_targets env t t.chain
