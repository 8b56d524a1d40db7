-- ===== src/Loader/Build/Copies.antt =====
-- `create_umain_elf_chain` in the copy stage: the search for the trusted copy of a library.
use lib_dasics.Base.{
  ℕ, ◌≡◌, ◌≢◌, ◌⊎◌, inl, inr, refl, arith, Bool-cases, true, false, some, List, [], ◌∷◌, ◌++◌, All,
  update, ltb, ◌==◌, ==_iff, ◌∙◌, sym, if◌then◌else◌,
}
use lib_dasics.Base.Result.{ok}
use lib_dasics.Elf.{is_main}
use lib_dasics.Elf.Laws.{IsIn}
use lib_dasics.Ring.Paths.{NotIn}
use lib_dasics.Strings.{Str}
use lib_dasics.Reloc.{Links}
use lib_dasics.Names.{Matches, link_copies, find_copy_lib_lem}
use lib_dasics.Loader.Records.{LinkMap, Setup, Loaded, copy_lib, new_elf}
use lib_dasics.Loader.Build.{find_copy}
use lib_dasics.Loader.Build.Trust.{IsLoadable}

-- The module at `p` has a trusted copy of its name.
abbrev pub HasCopy : Loaded → ℕ → Type 0
HasCopy t p =
    (tmp : ℕ) × IsIn tmp t.chain
    × ((t.elfs p).copy_lib_elf ≡ some tmp)
    × (is_main (t.elfs tmp) ≡ true)
    × (t.l_name tmp ≡ t.l_name p)

-- The record is new, and if the module is not trusted, a trusted one of its name is in the chain.
pub record IsCopyable (env : Setup) (s : Loaded) (block : ℕ) (m : LinkMap) : Type 0 where
  pub loadable : IsLoadable env block m
  pub new : NotIn block s.chain
  pub matched :
      (ltb m.l_addr env.start ≡ true)
      ⊎ ((tmp : ℕ) × IsIn tmp s.chain
          × (is_main (s.elfs tmp) ≡ true)
          × (s.l_name tmp ≡ loadable.l_name))

-- What a step that makes the record at `block` leaves of the other modules.
pub record Keeps (block : ℕ) (s t : Loaded) : Type 0 where
  pub flags : (q : ℕ) → q ≢ block → (t.elfs q).flags ≡ (s.elfs q).flags
  pub l_addr : (q : ℕ) → q ≢ block → (t.elfs q).l_addr ≡ (s.elfs q).l_addr
  pub l_name : (q : ℕ) → q ≢ block → t.l_name q ≡ s.l_name q
  pub copy :
      (q : ℕ)
      → q ≢ block
      → is_main (s.elfs q) ≡ false
      → (t.elfs q).copy_lib_elf ≡ (s.elfs q).copy_lib_elf

pub NotIn-IsIn : (a b : ℕ) (xs : List ℕ) → NotIn a xs → IsIn b xs → b ≢ a
NotIn-IsIn a b [] n i = absurd i
NotIn-IsIn a b (x ∷ xs) n (inl e) = λ z. n.0 (sym z ∙ e)
NotIn-IsIn a b (x ∷ xs) n (inr i) = NotIn-IsIn a b xs n.1 i

pub IsIn-append : (b : ℕ) (xs ys : List ℕ) → IsIn b xs → IsIn b (xs ++ ys)
IsIn-append b [] ys i = absurd i
IsIn-append b (x ∷ xs) ys (inl e) = inl e
IsIn-append b (x ∷ xs) ys (inr i) = inr (IsIn-append b xs ys i)

pub IsIn-middle : (b : ℕ) (xs ys : List ℕ) → IsIn b (xs ++ b ∷ ys)
IsIn-middle b [] ys = inl refl
IsIn-middle b (x ∷ xs) ys = inr (IsIn-middle b xs ys)

All-IsIn : (P : ℕ → Type 0) (b : ℕ) (xs : List ℕ) → All P xs → IsIn b xs → P b
All-IsIn P b [] h i = absurd i
All-IsIn P b (x ∷ xs) h (inl e) = rw e h.0
All-IsIn P b (x ∷ xs) h (inr i) = All-IsIn P b xs h.1 i

-- The state once the copy was looked for.
pub record IsFound (env : Setup) (block : ℕ) (m : LinkMap) (s found : Loaded) : Type 0 where
  pub chain : found.chain ≡ s.chain
  pub flags : (found.elfs block).flags ≡ (if ltb m.l_addr env.start then 1 else 2)
  pub l_addr : (found.elfs block).l_addr ≡ m.l_addr
  pub others : Keeps block s found
  pub linked :
      (ltb m.l_addr env.start ≡ true)
      ⊎ ((tmp : ℕ) × (tmp ≢ block)
          × IsIn tmp s.chain
          × ((found.elfs block).copy_lib_elf ≡ some tmp)
          × (is_main (found.elfs tmp) ≡ true)
          × (found.l_name tmp ≡ found.l_name block))

-- The new module before its copy is looked for.
abbrev named : Setup → ℕ → LinkMap → Str → Str → Loaded → Loaded
named env block m l_name real_name s = record s {
  elfs = update s.elfs block (new_elf env m);
  l_name = update s.l_name block l_name;
  real_name = update s.real_name block real_name;
}

named-IsFound :
    (env : Setup) (block : ℕ) (m : LinkMap) (l_name real_name : Str) (s : Loaded)
    → ltb m.l_addr env.start ≡ true
    → IsFound env block m s (named env block m l_name real_name s)
unfolding new_elf
named-IsFound env block m l_name real_name s below = record {
  chain = refl;
  flags = ground arith;
  l_addr = ground arith;
  others = record {
    flags = λ q ne. ground (arith, ne);
    l_addr = λ q ne. ground (arith, ne);
    l_name = λ q ne. ground (arith, ne);
    copy = λ q ne lib. ground (arith, ne);
  };
  linked = inl below;
}

module _ (env : Setup) (copying : env.stage ≡ copy_lib) (block : ℕ) (m : LinkMap) (s : Loaded)
    (c : IsCopyable env s block m) where
  abbrev start_of : Loaded
  start_of = named env block m c.loadable.l_name c.loadable.real_name s

  abbrev links_of : Links
  links_of = record { elfs = start_of.elfs; chain = s.chain; redirect_switch = false }

  abbrev with_link : ℕ → Loaded
  with_link tmp = record start_of { elfs = (link_copies tmp block links_of).elfs }

  with_link-IsFound :
      (tmp : ℕ)
      → ltb m.l_addr env.start ≡ false
      → tmp ≢ block
      → IsIn tmp s.chain
      → is_main (start_of.elfs tmp) ≡ true
      → start_of.l_name tmp ≡ start_of.l_name block
      → IsFound env block m s (with_link tmp)
  unfolding new_elf link_copies is_main
  with_link-IsFound tmp above ne i main same = record {
    chain = refl;
    flags = ground (arith, ne);
    l_addr = ground (arith, ne);
    others = record {
      flags = λ q apart. ground (arith, ne, apart);
      l_addr = λ q apart. ground (arith, ne, apart);
      l_name = λ q apart. ground (arith, apart);
      copy = λ q apart lib. ground (arith, ne, apart, lib, main);
    };
    linked = inr (tmp, ne, i, ground arith, ground (arith, ne, main), same);
  }

  -- The trusted module that must be there is still there once the new record is made.
  there :
      (tmp : ℕ)
      → IsIn tmp s.chain
      → is_main (s.elfs tmp) ≡ true
      → s.l_name tmp ≡ c.loadable.l_name
      → Matches start_of.l_name block links_of tmp
  unfolding Matches
  there tmp i main same =
      let ne : tmp ≢ block = NotIn-IsIn block tmp s.chain c.new i in
      let apart : (block == tmp) ≡ false = ground (arith, ne) in
      let self : (block == block) ≡ true = (==_iff block block).1 refl in
      rw (apart, self) (main, same)

  matches_parts :
      (tmp : ℕ)
      → Matches start_of.l_name block links_of tmp
      → (is_main (start_of.elfs tmp) ≡ true) × (start_of.l_name tmp ≡ start_of.l_name block)
  unfolding Matches
  matches_parts tmp match = match

  untrusted : ltb m.l_addr env.start ≡ false → is_main (start_of.elfs block) ≡ false
  unfolding new_elf is_main
  untrusted above = rw ((==_iff block block).1 refl, above) refl

  pub find_copy-IsFound :
      (found : Loaded) × (find_copy env block m start_of ≡ ok found) × IsFound env block m s found
  unfolding find_copy
  find_copy-IsFound =
      let stage : (env.stage == copy_lib) ≡ true = ground (arith, copying) in
      elim (Bool-cases (ltb m.l_addr env.start)) [
        | inl below ↦ (
          start_of,
          rw below refl,
          named-IsFound env block m c.loadable.l_name c.loadable.real_name s below,
        )
        | inr above ↦ elim c.matched [
          | inl below ↦ absurd (cc (below, above))
          | inr (tmp, i, main, same) ↦
              let lib = untrusted above in
              elim (find_copy_lib_lem start_of.l_name block links_of lib) [
                | inl (none_there, hung) ↦ absurd (
                    All-IsIn (λ p. ¬ Matches start_of.l_name block links_of p) tmp s.chain
                      none_there i (there tmp i main same))
                | inr (before, after, tmp', split, nos, match, linked, both) ↦
                    let i' : IsIn tmp' s.chain = rw split (IsIn-middle tmp' before after) in
                    let ne : tmp' ≢ block = NotIn-IsIn block tmp' s.chain c.new i' in
                    let (main', same') = matches_parts tmp' match in
                    (
                      with_link tmp',
                      rw (above, stage, linked) refl,
                      with_link-IsFound tmp' above ne i' main' same',
                    )
              ]
        ]
      ]
