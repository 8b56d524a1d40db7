-- ===== src/Loader/Build/Trust.antt =====
-- `create_umain_elf_chain` outside the copy stage: what it returns, its chain, and
-- the trust in the modules.
use lib_dasics.Base.{
  ℕ, ◌≡◌, ◌≢◌, ◌⊎◌, inl, inr, refl, arith, Bool, Bool-cases, true, false, ◌&&◌, not, Option, none,
  some, List, [], ◌∷◌, ◌++◌, append_assoc, append-nil, All, update, bit_or, bit_and, ltb, ◌==◌,
  ==_iff, ◌∙◌, ap, sym, if◌then◌else◌,
}
use lib_dasics.Base.Result.{ok}
use lib_dasics.Elf.{Elf, is_main}
use lib_dasics.Ring.Paths.{All-map}
use lib_dasics.Strings.{Str, strcmp}
use lib_dasics.Names.{fill_module_name}
use lib_dasics.Loader.Targets.{fill_target_elf}
use lib_dasics.Loader.Targets.Entries.{fill_target_elf-IsKept}
use lib_dasics.Loader.Records.{
  LinkMap, Setup, Loaded, copy_lib, fill_dynamic_section, new_elf, more_flags,
}
use lib_dasics.Loader.Build.{
  find_copy, load_module, load_link, load_links, fill_all_targets, create_umain_elf_chain,
}
use lib_dasics.Loader.Build.Steady.{Same, Fits, Fits-Same, with_got-Steady}

-- A module that can be loaded to the address `block`: its dynamic section ends and gives the size of
-- its relocations if it has a GOT, and its name fits.
pub record IsLoadable (env : Setup) (block : ℕ) (m : LinkMap) : Type 0 where
  pub nonzero : block ≢ 0
  pub info : ℕ → Option ℕ
  pub dynamic : fill_dynamic_section env.dt_num m.l_ld (λ i. none) ≡ ok info
  pub size : ℕ
  pub sized : (info 3 ≡ none) ⊎ (info 2 ≡ some size)
  pub l_name : Str
  pub real_name : Str
  pub named : fill_module_name env.program m.l_name ≡ ok (l_name, real_name)

-- The first flag is set exactly for what lies below `_start`, whatever the other two are.
flag_bits :
    (below zero linker : Bool)
    → let flags : ℕ = if below then 1 else 2 in
      let main : ℕ = if zero then bit_or flags 8 else flags in
      not (bit_and (if linker then bit_or main 4 else main) 1 == 0) ≡ below
flag_bits true true true = refl
flag_bits true true false = refl
flag_bits true false true = refl
flag_bits true false false = refl
flag_bits false true true = refl
flag_bits false true false = refl
flag_bits false false true = refl
flag_bits false false false = refl

pub more_flags-main :
    (env : Setup) (m : LinkMap) (e : Elf)
    → e.flags ≡ (if ltb m.l_addr env.start then 1 else 2)
    → is_main (record e { flags = more_flags env m e.flags }) ≡ ltb m.l_addr env.start
unfolding more_flags is_main
more_flags-main env m e h = rw h (
    flag_bits (ltb m.l_addr env.start) (m.l_addr == 0)
      (not (m.l_addr == 0) && (not (env.at_dasics == 0) && strcmp m.l_name env.interp_start == 0)))

find_copy-skipped :
    (env : Setup) (block : ℕ) (m : LinkMap) (s : Loaded)
    → env.stage ≢ copy_lib
    → find_copy env block m s ≡ ok s
unfolding find_copy
find_copy-skipped env block m s ne = elim (Bool-cases (ltb m.l_addr env.start)) [
  | inl y ↦ rw y refl
  | inr n ↦ let other : (env.stage == copy_lib) ≡ false = ground arith in rw (n, other) refl
]

-- One module is loaded: it comes last in the chain, and the flags of the others stay.
module _ (env : Setup) (main_stage : env.stage ≢ copy_lib) (block : ℕ) (m : LinkMap) where
  load_module_lem :
      (s : Loaded)
      → IsLoadable env block m
      → (t : Loaded) × (load_module env block m s ≡ ok t)
        × (t.chain ≡ s.chain ++ block ∷ [])
        × Fits env t.elfs block
        × ((q : ℕ) → q ≢ block → Same (s.elfs q) (t.elfs q))
  unfolding load_module new_elf
  load_module_lem s l =
      let named = record s {
        elfs = update s.elfs block (new_elf env m);
        l_name = update s.l_name block l.l_name;
        real_name = update s.real_name block l.real_name;
      } in
      let e = named.elfs block in
      let flagged = record named {
        elfs = update named.elfs block (record e { flags = more_flags env m e.flags });
      } in
      let (u, done, steady) = with_got-Steady env block m l.info l.size flagged l.sized in
      let self = (==_iff block block).1 refl in
      let fits : Fits env flagged.elfs block =
        rw self (more_flags-main env m (new_elf env m) refl) in
      let nz : (block == 0) ≡ false = ground (arith, l.nonzero) in
      (
        record u { chain = u.chain ++ block ∷ [] },
        rw (nz, l.dynamic, l.named, find_copy-skipped env block m named main_stage, done) refl,
        ap (λ c. c ++ block ∷ []) steady.0,
        Fits-Same env flagged.elfs u.elfs block (steady.2 block) fits,
        λ q ne.
            let apart : (block == q) ≡ false = ground (arith, ne) in
            let before : Same (s.elfs q) (flagged.elfs q) = rw apart (refl, refl, refl) in
            ((steady.2 q).0 ∙ before.0, (steady.2 q).1 ∙ before.1, (steady.2 q).2 ∙ before.2),
      )

pub fill_all_targets-append :
    (env : Setup) (t : Loaded) (chain xs : List ℕ) (y : ℕ) (ys : List ℕ)
    → chain ≡ xs ++ y ∷ ys
    → fill_all_targets env t chain
      ≡ ok (record t { elfs = fill_target_elf env.lib_name t.chain t.elfs })
unfolding fill_all_targets
fill_all_targets-append env t [] [] y ys e = cc
fill_all_targets-append env t [] (x ∷ xs) y ys e = cc
fill_all_targets-append env t (p ∷ ps) xs y ys e = refl

All-append : (P : ℕ → Type 0) (xs ys : List ℕ) → All P xs → All P ys → All P (xs ++ ys)
All-append P [] ys h k = k
All-append P (x ∷ xs) ys h k = (h.0, All-append P xs ys h.1 k)

abbrev pub AllLoadable : Setup → List (ℕ × LinkMap) → Type 0
AllLoadable env [] = Unit
AllLoadable env ((block, m) ∷ ms) = IsLoadable env block m × AllLoadable env ms

abbrev pub blocks_of : List (ℕ × LinkMap) → List ℕ
blocks_of [] = []
blocks_of ((block, m) ∷ ms) = block ∷ blocks_of ms

-- The chain is that of `s` with the new modules after it, and all of it is trusted where it lies below
-- `_start`.
abbrev pub IsLoaded : Setup → Loaded → List (ℕ × LinkMap) → Loaded → Type 0
IsLoaded env s ms t = (t.chain ≡ s.chain ++ blocks_of ms) × All (Fits env t.elfs) t.chain

module _ (env : Setup) (main_stage : env.stage ≢ copy_lib) where
  load_link-Fits :
      (block : ℕ) (m : LinkMap) (s t : Loaded)
      → All (Fits env s.elfs) s.chain
      → t.chain ≡ s.chain ++ block ∷ []
      → Fits env t.elfs block
      → ((q : ℕ) → q ≢ block → Same (s.elfs q) (t.elfs q))
      → All (Fits env t.elfs) t.chain
  load_link-Fits block m s t all chain fits same =
      let old : All (Fits env t.elfs) s.chain =
        All-map (Fits env s.elfs) (Fits env t.elfs) s.chain
          (λ q f. elim (Bool-cases (q == block)) [
            | inl y ↦ let eq : q ≡ block = (==_iff q block).0 y in rw eq fits
            | inr n ↦ Fits-Same env s.elfs t.elfs q (same q (ground arith)) f
          ])
          all in
      rw chain (All-append (Fits env t.elfs) s.chain (block ∷ []) old (fits, tt))

  load_links_lem :
      (ms : List (ℕ × LinkMap)) (s : Loaded)
      → AllLoadable env ms
      → All (Fits env s.elfs) s.chain
      → (t : Loaded) × (load_links env ms s ≡ ok t) × IsLoaded env s ms t
  unfolding load_links load_link
  load_links_lem [] s l all = (s, refl, (sym (append-nil s.chain), all))
  load_links_lem ((block, m) ∷ ms) s l all =
      let other : (env.stage == copy_lib) ≡ false = ground arith in
      let (t, done, chain, fits, same) = load_module_lem env main_stage block m s l.0 in
      let (u, rest, loaded) =
        load_links_lem ms t l.1 (load_link-Fits block m s t all chain fits same) in
      (
        u,
        rw (other, done) rest,
        (
          loaded.0
              ∙ ap (λ c. c ++ blocks_of ms) chain
              ∙ append_assoc s.chain (block ∷ []) (blocks_of ms),
          loaded.1,
        ),
      )

  -- Outside the copy stage, if each link map can be loaded (its block is not null, its dynamic
  -- section ends and gives the size of the relocations if it has a GOT, its name fits), and the
  -- modules that are there are trusted exactly if they lie below `_start`, then
  -- `create_umain_elf_chain` returns; its chain has the old modules, then the new ones in the
  -- order of the link maps, and every module of it is trusted exactly if it lies below `_start`.
  pub create_umain_elf_chain_lem :
      (block : ℕ) (m : LinkMap) (ms : List (ℕ × LinkMap)) (s : Loaded)
      → AllLoadable env ((block, m) ∷ ms)
      → All (Fits env s.elfs) s.chain
      → (t : Loaded) × (create_umain_elf_chain env ((block, m) ∷ ms) s ≡ ok t)
        × IsLoaded env s ((block, m) ∷ ms) t
  unfolding create_umain_elf_chain
  create_umain_elf_chain_lem block m ms s l all =
      let (t, done, loaded) = load_links_lem ((block, m) ∷ ms) s l all in
      let kept = fill_target_elf-IsKept env.lib_name t.chain t.elfs in
      let filled = fill_target_elf env.lib_name t.chain t.elfs in
      (
        record t { elfs = filled },
        rw done (fill_all_targets-append env t t.chain s.chain block (blocks_of ms) loaded.0),
        (
          loaded.0,
          All-map (Fits env t.elfs) (Fits env filled) t.chain
              (λ q f.
                Fits-Same env t.elfs filled q (kept.flags q, kept.l_addr q, kept.copy_lib_elf q) f)
              loaded.1,
        ),
      )
