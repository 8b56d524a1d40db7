-- ===== src/Loader/Build/Linked.antt =====
-- A module that is loaded in the copy stage, and its trusted copy.
use lib_dasics.Base.{
  ℕ, ◌≡◌, ◌⊎◌, inl, inr, refl, arith, true, false, [], ◌∷◌, ◌++◌, update, ◌==◌, ==_iff, ◌∙◌, ap,
}
use lib_dasics.Base.Result.{ok}
use lib_dasics.Elf.{is_main}
use lib_dasics.Elf.Laws.{IsIn}
use lib_dasics.Loader.Records.{LinkMap, Setup, Loaded, copy_lib, more_flags}
use lib_dasics.Loader.Build.{load_module}
use lib_dasics.Loader.Build.Steady.{Same, Fits, Fits-Same, with_got-Steady}
use lib_dasics.Loader.Build.Trust.{more_flags-main}
use lib_dasics.Loader.Build.Copies.{
  HasCopy, IsCopyable, Keeps, IsIn-append, IsFound, find_copy-IsFound,
}

-- Trusted exactly if it lies below `_start`, and if it is not, then with a copy.
abbrev pub IsLinked : Setup → Loaded → ℕ → Type 0
IsLinked env t p = Fits env t.elfs p × ((is_main (t.elfs p) ≡ true) ⊎ HasCopy t p)

-- The flags are completed.
abbrev flagged : Setup → ℕ → LinkMap → Loaded → Loaded
flagged env block m found = record found {
  elfs =
      update found.elfs block
        (record (found.elfs block) { flags = more_flags env m (found.elfs block).flags });
}

flagged-IsLinked :
    (env : Setup) (block : ℕ) (m : LinkMap) (s found : Loaded)
    → IsFound env block m s found
    → IsLinked env (flagged env block m found) block × Keeps block s (flagged env block m found)
unfolding is_main
flagged-IsLinked env block m s found f =
    let self : (block == block) ≡ true = (==_iff block block).1 refl in
    let main = more_flags-main env m (found.elfs block) f.flags in
    let fits : Fits env (flagged env block m found).elfs block = rw (self, f.l_addr) main in
    (
      (
        fits,
        elim f.linked [
          | inl below ↦ inl (fits ∙ rw (self, f.l_addr) below)
          | inr (tmp, ne, i, copy, trusted, same) ↦
              let apart : (block == tmp) ≡ false = ground (arith, ne) in
              inr (tmp, rw f.chain i, rw self copy, rw apart trusted, same)
        ],
      ),
      record {
        flags = λ q ne. ground (arith, ne, f.others.flags q);
        l_addr = λ q ne. ground (arith, ne, f.others.l_addr q);
        l_name = f.others.l_name;
        copy = λ q ne lib. ground (arith, ne, f.others.copy q ne lib);
      },
    )

-- What is steady keeps links.
pub steady-IsLinked :
    (env : Setup) (t u : Loaded) (p : ℕ)
    → ((q : ℕ) → Same (t.elfs q) (u.elfs q))
    → u.l_name ≡ t.l_name
    → ((q : ℕ) → IsIn q t.chain → IsIn q u.chain)
    → IsLinked env t p
    → IsLinked env u p
unfolding is_main
steady-IsLinked env t u p same names grown (fits, linked) = (
  Fits-Same env t.elfs u.elfs p (same p) fits,
  elim linked [
    | inl main ↦ inl (rw (same p).0 main)
    | inr (tmp, i, copy, main, name) ↦
        inr (tmp, grown tmp i, (same p).2 ∙ copy, rw (same tmp).0 main, rw names name)
  ],
)

steady-Keeps :
    (block : ℕ) (s t u : Loaded)
    → ((q : ℕ) → Same (t.elfs q) (u.elfs q))
    → u.l_name ≡ t.l_name
    → Keeps block s t
    → Keeps block s u
steady-Keeps block s t u same names k = record {
  flags = λ q ne. (same q).0 ∙ k.flags q ne;
  l_addr = λ q ne. (same q).1 ∙ k.l_addr q ne;
  l_name = λ q ne. rw names (k.l_name q ne);
  copy = λ q ne lib. (same q).2 ∙ k.copy q ne lib;
}

pub load_module-IsLinked :
    (env : Setup)
    → env.stage ≡ copy_lib
    → (block : ℕ) (m : LinkMap) (s : Loaded) → IsCopyable env s block m
    → (t : Loaded) × (load_module env block m s ≡ ok t)
      × (t.chain ≡ s.chain ++ block ∷ [])
      × IsLinked env t block
      × Keeps block s t
unfolding load_module
load_module-IsLinked env copying block m s c =
    let l = c.loadable in
    let (found, searched, f) = find_copy-IsFound env copying block m s c in
    let (linked, keeps) = flagged-IsLinked env block m s found f in
    let t = flagged env block m found in
    let (u, done, steady) = with_got-Steady env block m l.info l.size t l.sized in
    let nz : (block == 0) ≡ false = ground (arith, l.nonzero) in
    (
      record u { chain = u.chain ++ block ∷ [] },
      rw (nz, l.dynamic, l.named, searched, done) refl,
      ap (λ c. c ++ block ∷ []) (steady.0 ∙ f.chain),
      steady-IsLinked env t (record u { chain = u.chain ++ block ∷ [] }) block steady.2 steady.1
          (λ q i. IsIn-append q u.chain (block ∷ []) (rw steady.0 i)) linked,
      steady-Keeps block s t (record u { chain = u.chain ++ block ∷ [] }) steady.2 steady.1 keeps,
    )
