-- ===== src/Stages/Boot.antt =====
-- The first stage and the second one after it: the linker of the first stage enters the second.
use lib_dasics.Base.{ℕ, ◌≡◌, ◌≢◌, arith, false, some, List, [], ◌∷◌, All, ◌∙◌}
use lib_dasics.Base.Result.{ok}
use lib_dasics.Auxv.{get_auxv_entry}
use lib_dasics.Auxv.Ended.{HasVector}
use lib_dasics.Loader.Records.{LinkMap, Setup}
use lib_dasics.Loader.Build.Steady.{Fits}
use lib_dasics.Loader.Build.Trust.{AllLoadable, blocks_of}
use lib_dasics.Stages.{
  Entries, Start, returns, jumps, at_entry, at_linker, at_fixup, at_dasics, entry_stage1,
  entry_stage2,
}
use lib_dasics.Stages.Laws.{IsClosed, second_setup, entry_stage1-links, entry_stage2-IsClosed}

module _ {T : Type 0} (at : Entries) where
  -- Whether modules can be loaded does not depend on the stage.
  second_setup-AllLoadable :
      (t : Start T) (env : Setup) (fixup dasics : ℕ) (ms : List (ℕ × LinkMap))
      → AllLoadable env ms
      → AllLoadable (second_setup at t env fixup dasics) ms
  second_setup-AllLoadable t env fixup dasics [] l = tt
  second_setup-AllLoadable t env fixup dasics ((block, m) ∷ ms) (first, l) = (
    record {
      nonzero = first.nonzero;
      info = first.info;
      dynamic = first.dynamic;
      size = first.size;
      sized = first.sized;
      l_name = first.l_name;
      real_name = first.real_name;
      named = first.named;
    },
    second_setup-AllLoadable t env fixup dasics ms l,
  )

  -- If the stack has a vector with an end, with a linker, the DASICS entry and an entry address
  -- that are not 0 and the fixup handler, no module is loaded yet, and the link maps can be
  -- loaded, then the first stage leaves for the linker, and in a build without copies the second
  -- stage, entered with the state that the first one left, returns: no library bound and no jump
  -- region is in force, faults go to `dasics_ufault_entry`, and the chain has the modules in the
  -- order of the link maps, each trusted exactly if it lies below `_start`.
  pub entry_stage2-entry_stage1 :
      (s : Start T)
      → HasVector s.stack
      → (env : Setup) (block : ℕ) (m : LinkMap) (ms : List (ℕ × LinkMap))
        (stack_block fini fini' dll d e fixup : ℕ)
      → get_auxv_entry at_linker s.stack ≡ some dll
      → dll ≢ 0
      → get_auxv_entry at_dasics s.stack ≡ some d
      → d ≢ 0
      → get_auxv_entry at_entry s.stack ≡ some e
      → e ≢ 0
      → get_auxv_entry at_fixup s.stack ≡ some fixup
      → s.loaded.chain ≡ []
      → AllLoadable env ((block, m) ∷ ms)
      → (t : Start T) × (u : Start T) × (entry_stage1 at fini s ≡ ok (jumps dll t))
        × (entry_stage2 at false env ((block, m) ∷ ms) stack_block fini' t ≡ ok (returns u))
        × IsClosed u.csr
        × (u.csr 0x005 ≡ at.ufault_entry)
        × (u.loaded.chain ≡ blocks_of ((block, m) ∷ ms))
        × All (Fits env u.loaded.elfs) u.loaded.chain
  entry_stage2-entry_stage1 s h env block m ms stack_block fini fini' dll d e fixup linker nz dasics
        nz' entry nz'' fixups empty l =
      let (t, left, stage, handler, entry_t, dasics_t, others, loaded) =
        entry_stage1-links at s h fini dll d e linker nz dasics nz' entry nz'' in
      let fixup_t = others at_fixup (λ z. omega arith) (λ z. omega arith) ∙ fixups in
      let none_there : t.loaded.chain ≡ [] = rw loaded empty in
      let old : All (Fits (second_setup at t env fixup 1) t.loaded.elfs) t.loaded.chain =
        rw none_there tt in
      let (u, returned, closed, vector, helper, is_loaded) =
        entry_stage2-IsClosed at t env block m ms stack_block fini' fixup 1 fixup_t dasics_t
          (λ z. omega (arith, stage)) (second_setup-AllLoadable t env fixup 1 ((block, m) ∷ ms) l)
          old in
      (t, u, left, returned, closed, vector, rw none_there at is_loaded.0, is_loaded.1)
