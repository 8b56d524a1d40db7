-- ===== src/Stages.antt =====
-- src/start/stage1.c, stage2.c and stage3.c: how the process is set up before the program runs. A
-- stage returns, or leaves for a dynamic linker (`RESET_ENTRY`), which enters the next stage. The
-- build is the one for Linux (`DASICS_LINUX`); whether it is with copies of the libraries
-- (`DASICS_COPY`) is an argument.
pub mod Laws
pub mod Boot
pub mod Third
use lib_dasics.Base.{
  ℕ, ◌+◌, ◌-◌, Bool, true, false, Option, none, some, List, [], ◌∷◌, ◌++◌, update, ◌==◌,
  if◌then◌else◌,
}
use lib_dasics.Base.Result.{Result, ok, err, Stop, ◌>>=◌}
use lib_dasics.Word.{add64, sub64}
use lib_dasics.Word.Align.{round, round_down}
use lib_dasics.Auxv.{get_auxv_entry, set_auxv_entry}
use lib_dasics.Udasics.State.{Csrs}
use lib_dasics.Original.{
  original_libcfg_alloc, original_libcfg_free_all, original_jumpcfg_alloc,
  original_jumpcfg_free_all,
}
use lib_dasics.Segments.{Phdr, has, pt_load}
use lib_dasics.Loader.Records.{LinkMap, Setup, Loaded}
use lib_dasics.Loader.Build.{create_umain_elf_chain}
use lib_dasics.Syscall.{Table, init_syscall_check}
use lib_dasics.Cross.{CrossStack, init_cross_stack}

-- `AT_ENTRY` of the system, and the types of include/dasics_start.h.
abbrev pub at_entry : ℕ
at_entry = 9

abbrev pub at_linker : ℕ
at_linker = 55

abbrev pub at_fixup : ℕ
at_fixup = 56

abbrev pub at_dasics : ℕ
at_dasics = 57

abbrev pub at_linker_copy : ℕ
at_linker_copy = 58

abbrev pub task_size : ℕ
task_size = 0x4000000000

-- The addresses of the entry points, and the number of system calls.
pub record Entries : Type 0 where
  pub setup_mainlib_entry : ℕ
  pub setup_copy_lib_entry : ℕ
  pub setup_fault : ℕ
  pub ufault_entry : ℕ
  pub maincall : ℕ
  pub maincall_helper : ℕ
  pub print_exit : ℕ
  pub sys_max : ℕ

-- What the stages work on: the initial stack, the registers, `dasics_stage`, the checks of system
-- calls, the two fixup handlers, `umaincall_helper`, the modules, the stack of calls, the functions given to
-- `atexit`, and `calculate` of the first module.
pub record Start (T : Type 0) : Type 0 where
  pub stack : List ℕ
  pub csr : Csrs
  pub dasics_stage : ℕ
  pub syscall_check : Table T
  pub dll_fixup_handler : ℕ
  pub dll_fixup_handler_lib : ℕ
  pub umaincall_helper : ℕ
  pub loaded : Loaded
  pub cross : CrossStack
  pub exits : List ℕ
  pub calculate : Bool

pub data Leave (T : Type 0) : Type 0 where
  returns : Start T → Leave T
  jumps : ℕ → Start T → Leave T

-- To run off the initial stack is to read outside it.
abbrev on_stack {ℓ} : {A : Type ℓ} → Option A → Result A
on_stack none = err Stop.out_of_bounds
on_stack (some a) = ok a

-- `if (fini) atexit(fini);`
abbrev at_exit : ℕ → List ℕ → List ℕ
at_exit fini exits = if fini == 0 then exits else exits ++ fini ∷ []

-- `open_memory`: the calls of `_dasics_mprotect`, each a start and a length, that make pages
-- writable.
open_memory : List Phdr → List (ℕ × ℕ)
open_memory [] = []
open_memory (h ∷ hs) =
    let start = round_down h.p_vaddr 0x1000 in
    let range : ℕ × ℕ = (start, sub64 (round (add64 h.p_vaddr h.p_memsz) 0x1000) start) in
    let rest = open_memory hs in
    if h.p_type == pt_load then (if has h 2 then range ∷ rest else rest) else rest

-- `get_main_link`: `dynamic` is whether `DYNAMIC` is defined, `entries` are those of `_DYNAMIC`
-- before `DT_NULL`, and `r_map` reads the link map of a debug record.
last_debug : List (ℕ × ℕ) → ℕ → ℕ
last_debug [] found = found
last_debug ((tag, ptr) ∷ ds) found = last_debug ds (if tag == 21 then ptr else found)

get_main_link : Bool → List (ℕ × ℕ) → (ℕ → ℕ) → (ℕ → ℕ) → ℕ
get_main_link dynamic entries r_map got_start =
    let debug = if dynamic then last_debug entries 0 else 0 in
    if debug == 0 then got_start 1 else r_map debug

-- "Clear all lib bounds", and the handler of faults.
pub clear_bounds : ℕ → Csrs → Csrs
clear_bounds ufault_entry csr =
    let a = update (update csr 0x880 0) 0x8c8 0 in
    let b = (original_libcfg_free_all a).0 in
    let c = (original_jumpcfg_free_all b).0 in update c 0x005 ufault_entry

module _ {T : Type 0} (at : Entries) where
  -- The branch of the first stage that leaves for the dynamic linker.
  pub link_first : ℕ → Start T → Result (Leave T)
  link_first dll_linker s = do
    a ← on_stack (set_auxv_entry at_entry at.setup_mainlib_entry s.stack)
    b ← on_stack (set_auxv_entry at_dasics 1 a)
    let lib = (original_libcfg_alloc 0xb 0 task_size s.csr).0
    let jump = (original_jumpcfg_alloc 0 task_size lib).0
    ok (
        jumps dll_linker
          (record s { stack = b; dasics_stage = 1; csr = update jump 0x005 at.setup_fault }))

  -- `_dasics_entry_stage1`
  pub entry_stage1 : ℕ → Start T → Result (Leave T)
  entry_stage1 fini s = do
    dll_linker ← on_stack (get_auxv_entry at_linker s.stack)
    let t = record s { syscall_check = init_syscall_check at.sys_max s.syscall_check }
    if dll_linker == 0 then ok (returns t) else (do
      dasics ← on_stack (get_auxv_entry at_dasics s.stack)
      if dasics == 0
          then ok (returns (record t { exits = at_exit fini t.exits }))
          else link_first dll_linker t)

  -- `_open_maincall`
  pub open_maincall : Start T → Start T
  open_maincall s = record s {
    umaincall_helper = at.maincall_helper;
    csr = update s.csr 0x8b0 at.maincall;
  }

  -- The chain of the modules, with what the stack and the stage say; `ms` are those that
  -- `get_main_link` leads to, with the addresses for their records.
  pub make_chain : Setup → List (ℕ × LinkMap) → Start T → Result (Start T)
  make_chain env ms s = do
    dasics ← on_stack (get_auxv_entry at_dasics s.stack)
    loaded ←
        create_umain_elf_chain
          (record env {
            stage = s.dasics_stage;
            at_dasics = dasics;
            handler = s.dll_fixup_handler;
            handler_lib = s.dll_fixup_handler_lib;
          })
          ms s.loaded
    ok (record s { loaded = loaded })

  -- The part of the second stage for copies of the libraries, if there is a linker for them.
  pub link_copies : ℕ → ℕ → Start T → Result (Leave T)
  link_copies fini copy_linker_dll s = if copy_linker_dll == 0 then ok (returns s) else (do
    a ← on_stack (set_auxv_entry at_dasics 2 s.stack)
    b ← on_stack (set_auxv_entry at_entry at.setup_copy_lib_entry a)
    ok (
        jumps copy_linker_dll (record s {
          stack = b;
          dasics_stage = 2;
          csr = update s.csr 0x005 at.setup_fault;
          exits = at_exit fini s.exits;
        })))

  -- `_dasics_entry_stage2`; `block` is the answer of `malloc` for the stack of calls.
  pub entry_stage2 : Bool → Setup → List (ℕ × LinkMap) → ℕ → ℕ → Start T → Result (Leave T)
  entry_stage2 dasics_copy env ms block fini s = do
    fixup ← on_stack (get_auxv_entry at_fixup s.stack)
    t ← make_chain env ms (record s { dll_fixup_handler = fixup })
    let u = open_maincall t
    let v = record u { cross = init_cross_stack block u.cross }
    let copied = do
      copy_linker_dll ← on_stack (get_auxv_entry at_linker_copy v.stack)
      link_copies fini copy_linker_dll v
    let cleared = returns (record v {
      csr = clear_bounds at.ufault_entry v.csr;
      exits = v.exits ++ at.print_exit ∷ [];
      calculate = true;
    })
    if dasics_copy then copied else ok cleared

  -- `print_exit_func_num`, without what it prints.
  print_exit_func_num : Start T → Start T
  print_exit_func_num s = record s { calculate = false }

  -- `_dasics_entry_stage3`
  pub entry_stage3 : Setup → List (ℕ × LinkMap) → Start T → Result (Leave T)
  entry_stage3 env ms s = do
    fixup ← on_stack (get_auxv_entry at_fixup s.stack)
    t ← make_chain env ms (record s { dll_fixup_handler_lib = fixup })
    let u = open_maincall t
    ok (returns (record u { csr = clear_bounds at.ufault_entry u.csr }))
