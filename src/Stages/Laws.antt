-- ===== src/Stages/Laws.antt =====
-- What the first two stages leave: the stack, the bounds and the modules.
use lib_dasics.Base.{
  ℕ, ◌<◌, ◌≡◌, ◌≢◌, refl, arith, true, false, some, List, [], ◌∷◌, ◌++◌, All, bit_and, update, ◌==◌,
  ◌∙◌,
}
use lib_dasics.Base.Result.{ok}
use lib_dasics.Auxv.{get_auxv_entry, get_auxv_entry-set_auxv_entry}
use lib_dasics.Auxv.Ended.{HasVector, has_entry_of-get_auxv_entry, set_auxv_entry-HasVector}
use lib_dasics.Udasics.State.{Csrs, csr_libcfg, csr_bound_lo, csr_bound_hi, cfg_v}
use lib_dasics.Jumpcfg.Laws.{region}
use lib_dasics.Original.{
  original_libcfg_alloc, original_libcfg_get, original_libcfg_free_all, original_jumpcfg_alloc,
  original_jumpcfg_free_all, original_libcfg_free_all_lem, original_libcfg_get-eq,
  original_jumpcfg_free_all_lem,
}
use lib_dasics.Syscall.{init_syscall_check}
use lib_dasics.Cross.{init_cross_stack}
use lib_dasics.Loader.Records.{LinkMap, Setup, copy_lib}
use lib_dasics.Loader.Build.Steady.{Fits}
use lib_dasics.Loader.Build.Trust.{AllLoadable, IsLoaded, create_umain_elf_chain_lem}
use lib_dasics.Stages.{
  entry_stage2, make_chain, open_maincall, at_fixup, at_linker_copy, Entries, Start, returns, jumps,
  at_entry, at_linker, at_dasics, task_size, clear_bounds, link_first, entry_stage1, link_copies,
}

-- No library bound and no jump region is in force.
pub IsClosed : Csrs → Type 0
IsClosed csr =
    ((i : ℕ) → i < 16 → bit_and (original_libcfg_get i csr) cfg_v ≡ 0)
    × ((i : ℕ) → i < 4 → (region csr i).v_bit ≡ 0)

pub clear_bounds-IsClosed :
    (ufault_entry : ℕ) (csr : Csrs)
    → IsClosed (clear_bounds ufault_entry csr)
      × (clear_bounds ufault_entry csr 0x005 ≡ ufault_entry)
unfolding clear_bounds IsClosed region
clear_bounds-IsClosed ufault_entry csr =
    let a = update (update csr 0x880 0) 0x8c8 0 in
    let b = (original_libcfg_free_all a).0 in
    let c = (original_jumpcfg_free_all b).0 in
    let (closed, others) = original_jumpcfg_free_all_lem b in
    let libs : c csr_libcfg ≡ b csr_libcfg = others csr_libcfg (λ e. omega arith) in
    (
      (
        (λ i hi.
            rw (original_libcfg_get-eq b (update c 0x005 ufault_entry) i libs)
              (original_libcfg_free_all_lem a i hi)),
        λ i hi. unfold region in closed i hi,
      ),
      refl,
    )

module _ {T : Type 0} (at : Entries) (s : Start T) (h : HasVector s.stack) where
  -- If the stack has a vector with an end and with a linker, the DASICS entry and an entry
  -- address that are not 0, the first stage leaves for the linker: in stage 1, with the start-up
  -- fault handler, without a new module, and with the vector's entry address and DASICS entry
  -- rewritten and all its other entries kept.
  pub entry_stage1-links :
      (fini dll d e : ℕ)
      → get_auxv_entry at_linker s.stack ≡ some dll
      → dll ≢ 0
      → get_auxv_entry at_dasics s.stack ≡ some d
      → d ≢ 0
      → get_auxv_entry at_entry s.stack ≡ some e
      → e ≢ 0
      → (t : Start T) × (entry_stage1 at fini s ≡ ok (jumps dll t))
        × (t.dasics_stage ≡ 1)
        × (t.csr 0x005 ≡ at.setup_fault)
        × (get_auxv_entry at_entry t.stack ≡ some at.setup_mainlib_entry)
        × (get_auxv_entry at_dasics t.stack ≡ some 1)
        × ((k : ℕ)
            → k ≢ at_entry
            → k ≢ at_dasics
            → get_auxv_entry k t.stack ≡ get_auxv_entry k s.stack)
        × (t.loaded ≡ s.loaded)
  unfolding entry_stage1 link_first
  entry_stage1-links fini dll d e linker nz dasics nz' entry nz'' =
      let (a, first, ha) = set_auxv_entry-HasVector at_entry at.setup_mainlib_entry s.stack h in
      let (b, second, hb) = set_auxv_entry-HasVector at_dasics 1 a ha in
      let (ws, found, get_a) =
        get_auxv_entry-set_auxv_entry at_entry at.setup_mainlib_entry s.stack a first in
      let (ws', found', get_b) = get_auxv_entry-set_auxv_entry at_dasics 1 a b second in
      let has_e = has_entry_of-get_auxv_entry at_entry e s.stack ws entry nz'' found in
      let dasics_a : get_auxv_entry at_dasics a ≡ some d = get_a at_dasics ∙ dasics in
      let has_d = has_entry_of-get_auxv_entry at_dasics d a ws' dasics_a nz' found' in
      let lib = (original_libcfg_alloc 0xb 0 task_size s.csr).0 in
      let t = record s {
        stack = b;
        dasics_stage = 1;
        csr = update (original_jumpcfg_alloc 0 task_size lib).0 0x005 at.setup_fault;
        syscall_check = init_syscall_check at.sys_max s.syscall_check;
      } in
      let linked : (dll == 0) ≡ false = ground (arith, nz) in
      let trusted : (d == 0) ≡ false = ground (arith, nz') in
      (
        t,
        rw (linker, linked, dasics, trusted, first, second) refl,
        refl,
        refl,
        get_b at_entry ∙ get_a at_entry ∙ rw has_e refl,
        get_b at_dasics ∙ rw has_d refl,
        (λ k ne ne'. ground (arith, get_b k, get_a k, ne, ne')),
        refl,
      )

module _ {T : Type 0} (at : Entries) (s : Start T) where
  -- The arguments of `create_umain_elf_chain` in the second stage.
  abbrev pub second_setup : Setup → ℕ → ℕ → Setup
  second_setup env fixup dasics = record env {
    stage = s.dasics_stage;
    at_dasics = dasics;
    handler = fixup;
    handler_lib = s.dll_fixup_handler_lib;
  }

  -- In a build without copies, outside the copy stage, with the vector's entries on the stack and
  -- link maps that can be loaded, the second stage returns: no library bound and no jump region is
  -- in force, faults go to `dasics_ufault_entry`, calls have their helper, and the modules are
  -- loaded, trusted exactly if they lie below `_start`.
  pub entry_stage2-IsClosed :
      (env : Setup) (block : ℕ) (m : LinkMap) (ms : List (ℕ × LinkMap))
      (stack_block fini fixup dasics : ℕ)
      → get_auxv_entry at_fixup s.stack ≡ some fixup
      → get_auxv_entry at_dasics s.stack ≡ some dasics
      → s.dasics_stage ≢ copy_lib
      → AllLoadable (second_setup env fixup dasics) ((block, m) ∷ ms)
      → All (Fits (second_setup env fixup dasics) s.loaded.elfs) s.loaded.chain
      → (t : Start T) × (entry_stage2 at false env ((block, m) ∷ ms) stack_block fini s
          ≡ ok (returns t))
        × IsClosed t.csr
        × (t.csr 0x005 ≡ at.ufault_entry)
        × (t.umaincall_helper ≡ at.maincall_helper)
        × IsLoaded (second_setup env fixup dasics) s.loaded ((block, m) ∷ ms) t.loaded
  unfolding entry_stage2 make_chain open_maincall
  entry_stage2-IsClosed env block m ms stack_block fini fixup dasics got_fixup got_dasics main l
        all =
      let env' = second_setup env fixup dasics in
      let (loaded, done, is) = create_umain_elf_chain_lem env' main block m ms s.loaded l all in
      let csr = update s.csr 0x8b0 at.maincall in
      let (closed, vector) = clear_bounds-IsClosed at.ufault_entry csr in
      let t = record s {
        dll_fixup_handler = fixup;
        loaded = loaded;
        umaincall_helper = at.maincall_helper;
        cross = init_cross_stack stack_block s.cross;
        csr = clear_bounds at.ufault_entry csr;
        exits = s.exits ++ at.print_exit ∷ [];
        calculate = true;
      } in
      (t, rw (got_fixup, got_dasics, done) refl, closed, vector, refl, is)

  -- In a build with copies, under the same conditions, but with no linker for the copies, the
  -- second stage returns before it clears the bounds: it writes no control register but the entry
  -- for calls, so every library bound, its configuration and its limits, and every jump region
  -- stays as it was, and so does the handler of faults.
  pub entry_stage2-copy_open :
      (env : Setup) (block : ℕ) (m : LinkMap) (ms : List (ℕ × LinkMap))
      (stack_block fini fixup dasics : ℕ)
      → get_auxv_entry at_fixup s.stack ≡ some fixup
      → get_auxv_entry at_dasics s.stack ≡ some dasics
      → get_auxv_entry at_linker_copy s.stack ≡ some 0
      → s.dasics_stage ≢ copy_lib
      → AllLoadable (second_setup env fixup dasics) ((block, m) ∷ ms)
      → All (Fits (second_setup env fixup dasics) s.loaded.elfs) s.loaded.chain
      → (t : Start T) × (entry_stage2 at true env ((block, m) ∷ ms) stack_block fini s
          ≡ ok (returns t))
        × ((n : ℕ) → n ≢ 0x8b0 → t.csr n ≡ s.csr n)
        × (t.csr 0x8b0 ≡ at.maincall)
        × ((i : ℕ)
            → i < 16
            → (original_libcfg_get i t.csr ≡ original_libcfg_get i s.csr)
              × (t.csr (csr_bound_lo i) ≡ s.csr (csr_bound_lo i))
              × (t.csr (csr_bound_hi i) ≡ s.csr (csr_bound_hi i)))
        × ((i : ℕ) → i < 4 → region t.csr i ≡ region s.csr i)
        × (t.csr 0x005 ≡ s.csr 0x005)
  unfolding entry_stage2 make_chain open_maincall link_copies
  entry_stage2-copy_open env block m ms stack_block fini fixup dasics got_fixup got_dasics no_copy
        main l all =
      let env' = second_setup env fixup dasics in
      let (loaded, done, is) = create_umain_elf_chain_lem env' main block m ms s.loaded l all in
      let csr = update s.csr 0x8b0 at.maincall in
      let t = record s {
        dll_fixup_handler = fixup;
        loaded = loaded;
        umaincall_helper = at.maincall_helper;
        cross = init_cross_stack stack_block s.cross;
        csr = csr;
      } in
      (
        t,
        rw (got_fixup, got_dasics, done, no_copy) refl,
        (λ n ne. ground arith),
        refl,
        (λ i hi. (original_libcfg_get-eq s.csr csr i refl, ground arith, ground arith)),
        (λ i hi. unfold region in ground arith),
        refl,
      )
