-- ===== src/Loader/Build/CopyStage.antt =====
-- The loop of `create_umain_elf_chain` in the copy stage.
use lib_dasics.Base.{ℕ, ◌≡◌, ◌≢◌, ◌⊎◌, List, [], ◌∷◌, ◌==◌, if◌then◌else◌}
use lib_dasics.Ring.Paths.{NotIn}
use lib_dasics.Loader.Records.{LinkMap, Setup, Loaded}
use lib_dasics.Loader.Build.Trust.{blocks_of}
use lib_dasics.Loader.Build.Copies.{IsCopyable}
use lib_dasics.Loader.Build.Linked.{IsLinked}
use lib_dasics.Loader.Build.Grows.{Grows}

-- The records that are made: none for the main module, which is there already.
abbrev pub loaded_blocks : List (ℕ × LinkMap) → List ℕ
loaded_blocks [] = []
loaded_blocks ((block, m) ∷ ms) =
    let rest = loaded_blocks ms in if m.l_addr == 0 then rest else block ∷ rest

-- Each link map is that of the main module or can be loaded, with a record of its own.
abbrev pub AllCopyable : Setup → Loaded → List (ℕ × LinkMap) → Type 0
AllCopyable env s [] = Unit
AllCopyable env s ((block, m) ∷ ms) =
    ((m.l_addr ≡ 0) ⊎ ((m.l_addr ≢ 0) × IsCopyable env s block m × NotIn block (blocks_of ms)))
    × AllCopyable env s ms

abbrev pub AllLinked : Setup → Loaded → List (ℕ × LinkMap) → Type 0
AllLinked env t [] = Unit
AllLinked env t ((block, m) ∷ ms) = ((m.l_addr ≡ 0) ⊎ IsLinked env t block) × AllLinked env t ms
