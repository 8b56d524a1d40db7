-- ===== src/Tests/Stages.antt =====
-- The stages, on a process with a program and a library.
use lib_dasics.Base.{
  All, ℕ, ◌≡◌, ◌≢◌, ◌<◌, inl, inr, refl, arith, true, false, none, some, List, [], ◌∷◌, update,
}
use lib_dasics.Base.Result.{ok}
use lib_dasics.Udasics.Table.{Entry}
use lib_dasics.Auxv.{get_auxv, past_zero, find_entry, get_auxv_entry}
use lib_dasics.Auxv.Ended.{HasVector}
use lib_dasics.Original.{original_libcfg_get}
use lib_dasics.Udasics.State.{csr_bound_lo, csr_bound_hi}
use lib_dasics.Jumpcfg.Laws.{region}
use lib_dasics.Cross.{CrossStack}
use lib_dasics.Loader.Build.Trust.{IsLoaded}
use lib_dasics.Stages.{
  Entries, Start, returns, jumps, entry_stage1, entry_stage2, at_entry, at_linker, at_fixup,
  at_dasics, at_linker_copy,
}
use lib_dasics.Stages.Boot.{entry_stage2-entry_stage1}
use lib_dasics.Loader.Build.Steady.{Fits}
use lib_dasics.Stages.Laws.{IsClosed, second_setup, entry_stage2-IsClosed, entry_stage2-copy_open}
use lib_dasics.Tests.Calls.{nowhere}
use lib_dasics.Tests.Loading.{
  program_map, library_map, setup, nothing_loaded, link_maps, maps-AllLoadable,
}

abbrev pub at : Entries
at = record {
  setup_mainlib_entry = 0x1100;
  setup_copy_lib_entry = 0x1200;
  setup_fault = 0x1300;
  ufault_entry = 0x1400;
  maincall = 0x40;
  maincall_helper = 0x1500;
  print_exit = 0x1600;
  sys_max = 100;
}

-- One argument and no variable; the vector has a linker at 0x9000, and none for copies.
abbrev stack : List ℕ
stack = 1 ∷ 0x700 ∷ 0 ∷ 0 ∷ 9 ∷ 0x1000 ∷ 55 ∷ 0x9000 ∷ 56 ∷ 0x50 ∷ 57 ∷ 1 ∷ 58 ∷ 0 ∷ 0 ∷ 0 ∷ []

abbrev no_calls : CrossStack
no_calls = record { base = 0; top = 0; cells = λ i. nowhere }

abbrev pub started : Start (List Entry)
started = record {
  stack = stack;
  csr = λ n. 0;
  dasics_stage = 0;
  syscall_check = λ k. record { check = none; handle_error = none };
  dll_fixup_handler = 0;
  dll_fixup_handler_lib = 0x60;
  umaincall_helper = 0;
  loaded = nothing_loaded;
  cross = no_calls;
  exits = [];
  calculate = false;
}

-- What is read from the vector.
pub reads :
    (get_auxv_entry at_entry stack ≡ some 0x1000)
    × (get_auxv_entry at_linker stack ≡ some 0x9000)
    × (get_auxv_entry at_fixup stack ≡ some 0x50)
    × (get_auxv_entry at_dasics stack ≡ some 1)
    × (get_auxv_entry at_linker_copy stack ≡ some 0)
unfolding get_auxv_entry get_auxv past_zero find_entry
reads = (refl, refl, refl, refl, refl)

stack-HasVector : HasVector stack
unfolding get_auxv past_zero
stack-HasVector = record {
  vector = 9 ∷ 0x1000 ∷ 55 ∷ 0x9000 ∷ 56 ∷ 0x50 ∷ 57 ∷ 1 ∷ 58 ∷ 0 ∷ 0 ∷ 0 ∷ [];
  found = refl;
  ended = inr (inr (inr (inr (inr (inl refl)))));
}

entry_stage2-entry_stage1_example :
    (t : Start (List Entry)) × (u : Start (List Entry)) × (entry_stage1 at 0 started
      ≡ ok (jumps 0x9000 t))
    × (entry_stage2 at false setup link_maps 0x70000 0 t ≡ ok (returns u))
    × IsClosed u.csr
    × (u.csr 0x005 ≡ 0x1400)
    × (u.loaded.chain ≡ 1 ∷ 2 ∷ [])
    × All (Fits setup u.loaded.elfs) u.loaded.chain
entry_stage2-entry_stage1_example =
    entry_stage2-entry_stage1 at started stack-HasVector setup 1 program_map ((2, library_map) ∷ [])
      0x70000 0 0 0x9000 1 0x1000 0x50 reads.1 (λ e. omega arith) reads.3 (λ e. omega arith) reads.0
      (λ e. omega arith) reads.2 refl (maps-AllLoadable 0 1 0x50 0x60)

entry_stage2-IsClosed_example :
    (t : Start (List Entry)) × (entry_stage2 at false setup link_maps 0x70000 0 started
      ≡ ok (returns t))
    × IsClosed t.csr
    × (t.csr 0x005 ≡ 0x1400)
    × (t.umaincall_helper ≡ 0x1500)
    × IsLoaded (second_setup at started setup 0x50 1) nothing_loaded link_maps t.loaded
entry_stage2-IsClosed_example =
    entry_stage2-IsClosed at started setup 1 program_map ((2, library_map) ∷ []) 0x70000 0 0x50 1
      reads.2 reads.3 (λ e. omega arith) (maps-AllLoadable 0 1 0x50 0x60) tt

-- Library bound 0 is open.
abbrev with_bound : Start (List Entry)
with_bound = record started { csr = update (λ n. 0) 0x880 0xb }

entry_stage2-copy_open_example :
    (t : Start (List Entry)) × (entry_stage2 at true setup link_maps 0x70000 0 with_bound
      ≡ ok (returns t))
    × ((n : ℕ) → n ≢ 0x8b0 → t.csr n ≡ with_bound.csr n)
    × (t.csr 0x8b0 ≡ at.maincall)
    × ((i : ℕ)
        → i < 16
        → (original_libcfg_get i t.csr ≡ original_libcfg_get i with_bound.csr)
          × (t.csr (csr_bound_lo i) ≡ with_bound.csr (csr_bound_lo i))
          × (t.csr (csr_bound_hi i) ≡ with_bound.csr (csr_bound_hi i)))
    × ((i : ℕ) → i < 4 → region t.csr i ≡ region with_bound.csr i)
    × (t.csr 0x005 ≡ with_bound.csr 0x005)
entry_stage2-copy_open_example =
    entry_stage2-copy_open at with_bound setup 1 program_map ((2, library_map) ∷ []) 0x70000 0 0x50
      1 reads.2 reads.3 reads.4 (λ e. omega arith) (maps-AllLoadable 0 1 0x50 0x60) tt
