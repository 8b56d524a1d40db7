-- ===== src/Loader/Build/Grows.antt =====
-- A chain that grows in the copy stage, and the links of its modules.
use lib_dasics.Base.{
  ℕ, ◌≡◌, inl, inr, refl, Bool-cases, false, List, ◌++◌, append_assoc, ltb, ◌∙◌, ap, sym,
}
use lib_dasics.Elf.{is_main}
use lib_dasics.Elf.Laws.{IsIn}
use lib_dasics.Ring.Paths.{NotIn, NotIn-append}
use lib_dasics.Loader.Records.{LinkMap, Setup, Loaded}
use lib_dasics.Loader.Build.Copies.{IsCopyable, IsIn-append}
use lib_dasics.Loader.Build.Linked.{IsLinked}

-- The chain has grown, and what it had stays.
pub record Grows (s t : Loaded) (blocks : List ℕ) : Type 0 where
  pub chain : t.chain ≡ s.chain ++ blocks
  pub flags : (q : ℕ) → IsIn q s.chain → (t.elfs q).flags ≡ (s.elfs q).flags
  pub l_addr : (q : ℕ) → IsIn q s.chain → (t.elfs q).l_addr ≡ (s.elfs q).l_addr
  pub l_name : (q : ℕ) → IsIn q s.chain → t.l_name q ≡ s.l_name q
  pub copy :
      (q : ℕ)
      → IsIn q s.chain
      → is_main (s.elfs q) ≡ false
      → (t.elfs q).copy_lib_elf ≡ (s.elfs q).copy_lib_elf

main_same :
    (s t : Loaded) (q : ℕ)
    → (t.elfs q).flags ≡ (s.elfs q).flags
    → is_main (t.elfs q) ≡ is_main (s.elfs q)
unfolding is_main
main_same s t q e = rw e refl

IsIn-Grows : (s t : Loaded) (bs : List ℕ) (q : ℕ) → Grows s t bs → IsIn q s.chain → IsIn q t.chain
IsIn-Grows s t bs q g i = rw g.chain (IsIn-append q s.chain bs i)

pub Grows-trans :
    (s t u : Loaded) (bs cs : List ℕ) → Grows s t bs → Grows t u cs → Grows s u (bs ++ cs)
Grows-trans s t u bs cs g h = record {
  chain = h.chain ∙ ap (λ c. c ++ cs) g.chain ∙ append_assoc s.chain bs cs;
  flags = λ q i. h.flags q (IsIn-Grows s t bs q g i) ∙ g.flags q i;
  l_addr = λ q i. h.l_addr q (IsIn-Grows s t bs q g i) ∙ g.l_addr q i;
  l_name = λ q i. h.l_name q (IsIn-Grows s t bs q g i) ∙ g.l_name q i;
  copy = λ q i lib.
      h.copy q (IsIn-Grows s t bs q g i) (main_same s t q (g.flags q i) ∙ lib) ∙ g.copy q i lib;
}

pub IsLinked-Grows :
    (env : Setup) (s t : Loaded) (bs : List ℕ) (p : ℕ)
    → Grows s t bs
    → IsIn p s.chain
    → IsLinked env s p
    → IsLinked env t p
IsLinked-Grows env s t bs p g i (fits, linked) =
    let same = main_same s t p (g.flags p i) in
    (
      same ∙ fits ∙ ap (λ a. ltb a env.start) (sym (g.l_addr p i)),
      elim (Bool-cases (is_main (s.elfs p))) [
        | inl main ↦ inl (same ∙ main)
        | inr lib ↦ elim linked [
          | inl main ↦ inl (same ∙ main)
          | inr (tmp, j, copy, main, name) ↦ inr (
            tmp,
            IsIn-Grows s t bs tmp g j,
            g.copy p i lib ∙ copy,
            main_same s t tmp (g.flags tmp j) ∙ main,
            g.l_name tmp j ∙ name ∙ sym (g.l_name p i),
          )
        ]
      ],
    )

pub IsCopyable-Grows :
    (env : Setup) (s t : Loaded) (bs : List ℕ) (block : ℕ) (m : LinkMap)
    → Grows s t bs
    → NotIn block bs
    → IsCopyable env s block m
    → IsCopyable env t block m
IsCopyable-Grows env s t bs block m g apart c = record {
  loadable = c.loadable;
  new = rw g.chain (NotIn-append block s.chain bs c.new apart);
  matched = elim c.matched [
    | inl below ↦ inl below
    | inr (tmp, i, main, name) ↦ inr (
      tmp,
      IsIn-Grows s t bs tmp g i,
      main_same s t tmp (g.flags tmp i) ∙ main,
      g.l_name tmp i ∙ name,
    )
  ];
}
