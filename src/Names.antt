-- ===== src/Names.antt =====
-- `_fill_module_name` and `_find_copy_lib` of src/dynamic/dynamic.c: the name of a module, and the link
-- between the trusted and the untrusted copy of one library.
use lib_dasics.Base.{
  ℕ, ◌<◌, ◌≡◌, ◌≢◌, ◌⊎◌, inl, inr, refl, arith, Bool, true, false, ◌&&◌, some, List, [], ◌∷◌, ◌++◌,
  length, All, update, ◌==◌, ltb, ◌∙◌, if◌then◌else◌, Bool-cases, ap,
}
use lib_dasics.Base.Result.{Result, ok, err, Stop}
use lib_dasics.Elf.{is_main}
use lib_dasics.Strings.{Str, strcmp, strcmp_iff}
use lib_dasics.Reloc.{Links}

-- The loop of `_fill_module_name`, on the characters that are left: what follows each '/'.
unfoldable pub after_slash : Str → Str → Str
after_slash [] real_name = real_name
after_slash (x ∷ xs) real_name = after_slash xs (if x == 47 then xs else real_name)

-- `elf->l_name`, an array of 256, and `elf->real_name`, which points into it.
unfoldable pub copy_name : Str → Result (Str × Str)
copy_name name =
    if ltb (length name) 256 then ok (name, after_slash name name) else err Stop.out_of_bounds

-- `_fill_module_name`; `program` is the first argument of the process.
unfoldable pub fill_module_name : Str → Str → Result (Str × Str)
fill_module_name program [] = copy_name program
fill_module_name program (x ∷ xs) = copy_name (x ∷ xs)

-- `tmp->_copy_lib_elf = elf; elf->_copy_lib_elf = tmp`
unfoldable pub link_copies : ℕ → ℕ → Links → Links
link_copies tmp elf s =
    let elfs = update s.elfs tmp (record (s.elfs tmp) { copy_lib_elf = some elf }) in
    record s { elfs = update elfs elf (record (elfs elf) { copy_lib_elf = some tmp }) }

-- The test of the loop.
is_copy : (ℕ → Str) → ℕ → Links → ℕ → Bool
is_copy l_name elf s tmp = is_main (s.elfs tmp) && (strcmp (l_name tmp) (l_name elf) == 0)

-- The loop of `_find_copy_lib`, on the modules that are left; a search that finds none ends in a loop
-- without end.
find_copy : (ℕ → Str) → ℕ → Links → List ℕ → Result Links
find_copy l_name elf s [] = err Stop.hung
find_copy l_name elf s (tmp ∷ rest) =
    let later = find_copy l_name elf s rest in
    if is_copy l_name elf s tmp then ok (link_copies tmp elf s) else later

-- `_find_copy_lib`
pub find_copy_lib : (ℕ → Str) → ℕ → Links → Result Links
find_copy_lib l_name elf s = find_copy l_name elf s s.chain

-- Module `tmp` is trusted and has the name of `elf`.
unfoldable pub Matches : (ℕ → Str) → ℕ → Links → ℕ → Type 0
Matches l_name elf s tmp = (is_main (s.elfs tmp) ≡ true) × (l_name tmp ≡ l_name elf)

module _ (l_name : ℕ → Str) (elf : ℕ) (s : Links) where
  is_copy-Matches : (tmp : ℕ) → is_copy l_name elf s tmp ≡ true → Matches l_name elf s tmp
  unfolding is_copy Matches
  is_copy-Matches tmp e = ground (arith, (strcmp_iff (l_name tmp) (l_name elf)).0)

  no_copy-Matches : (tmp : ℕ) → is_copy l_name elf s tmp ≡ false → ¬ Matches l_name elf s tmp
  unfolding is_copy Matches
  no_copy-Matches tmp e m = ground (arith, (strcmp_iff (l_name tmp) (l_name elf)).1 m.1, m.0)

  -- The search from here on: it ends at the first match, or without end if there is none.
  Searched : List ℕ → Type 0
  Searched chain =
      (All (λ p. ¬ Matches l_name elf s p) chain × (find_copy l_name elf s chain ≡ err Stop.hung))
      ⊎ ((before after : List ℕ) × (tmp : ℕ) × (chain ≡ before ++ tmp ∷ after)
          × All (λ p. ¬ Matches l_name elf s p) before
          × Matches l_name elf s tmp
          × (find_copy l_name elf s chain ≡ ok (link_copies tmp elf s)))

  find_copy-Searched : (chain : List ℕ) → Searched chain
  unfolding find_copy Searched
  find_copy-Searched [] = inl (tt, refl)
  find_copy-Searched (p ∷ ps) = elim (Bool-cases (is_copy l_name elf s p)) [
    | inl found ↦ inr ([], ps, p, refl, tt, is_copy-Matches p found, rw found refl)
    | inr missed ↦ elim (find_copy-Searched ps) [
      | inl (nos, hung) ↦ inl ((no_copy-Matches p missed, nos), rw missed hung)
      | inr (before, after, tmp, split, nos, match, linked) ↦ inr (
        p ∷ before,
        after,
        tmp,
        ap (λ l. p ∷ l) split,
        (no_copy-Matches p missed, nos),
        match,
        rw missed linked,
      )
    ]
  ]

-- The two copies lead to each other.
pub AreLinked : ℕ → ℕ → Links → Type 0
AreLinked tmp elf s =
    ((s.elfs elf).copy_lib_elf ≡ some tmp) × ((s.elfs tmp).copy_lib_elf ≡ some elf)

link_copies-AreLinked :
    (tmp elf : ℕ) (s : Links) → tmp ≢ elf → AreLinked tmp elf (link_copies tmp elf s)
unfolding link_copies AreLinked
link_copies-AreLinked tmp elf s ne = (ground arith, ground (arith, ne))

-- For a module that is not trusted: either no module of the chain is trusted and has its name,
-- and `_find_copy_lib` ends in its loop without end; or it stops at the first such module of the
-- chain, and then each of the two leads to the other.
pub find_copy_lib_lem :
    (l_name : ℕ → Str) (elf : ℕ) (s : Links)
    → is_main (s.elfs elf) ≡ false
    → (All (λ p. ¬ Matches l_name elf s p) s.chain × (find_copy_lib l_name elf s ≡ err Stop.hung))
      ⊎ ((before after : List ℕ) × (tmp : ℕ) × (s.chain ≡ before ++ tmp ∷ after)
          × All (λ p. ¬ Matches l_name elf s p) before
          × Matches l_name elf s tmp
          × (find_copy_lib l_name elf s ≡ ok (link_copies tmp elf s))
          × AreLinked tmp elf (link_copies tmp elf s))
unfolding find_copy_lib Searched Matches
find_copy_lib_lem l_name elf s lib = elim (find_copy-Searched l_name elf s s.chain) [
  | inl hung ↦ inl hung
  | inr (before, after, tmp, split, nos, match, linked) ↦ inr (
    before,
    after,
    tmp,
    split,
    nos,
    match,
    linked,
    link_copies-AreLinked tmp elf s (λ e. ground (arith, match.0, lib, e)),
  )
]

after_slash-none :
    (base real_name : Str) → All (λ c. c ≢ 47) base → after_slash base real_name ≡ real_name
unfolding after_slash
after_slash-none [] real_name ne = refl
after_slash-none (x ∷ xs) real_name (ne, nes) =
    after_slash-none xs (if x == 47 then xs else real_name) nes ∙ ground (arith, ne)

after_slash-path :
    (dir base real_name : Str)
    → All (λ c. c ≢ 47) base
    → after_slash (dir ++ 47 ∷ base) real_name ≡ base
unfolding after_slash
after_slash-path [] base real_name ne = after_slash-none base base ne
after_slash-path (x ∷ xs) base real_name ne =
    after_slash-path xs base (if x == 47 then xs ++ 47 ∷ base else real_name) ne

copy_name-fits :
    (name : Str) → length name < 256 → copy_name name ≡ ok (name, after_slash name name)
unfolding copy_name
copy_name-fits name h = ground (arith, h)

fill_module_name-copy :
    (program dir base : Str)
    → fill_module_name program (dir ++ 47 ∷ base) ≡ copy_name (dir ++ 47 ∷ base)
unfolding fill_module_name
fill_module_name-copy program [] base = refl
fill_module_name-copy program (x ∷ xs) base = refl

-- For a path of fewer than 256 characters whose last part has no '/', `_fill_module_name` keeps
-- the path as the name and its last part as the real name.
fill_module_name-path :
    (program dir base : Str)
    → All (λ c. c ≢ 47) base
    → length (dir ++ 47 ∷ base) < 256
    → fill_module_name program (dir ++ 47 ∷ base) ≡ ok (dir ++ 47 ∷ base, base)
fill_module_name-path program dir base ne h =
    let name = dir ++ 47 ∷ base in
    fill_module_name-copy program dir base
    ∙ copy_name-fits name h
    ∙ ap (λ r. ok (name, r)) (after_slash-path dir base name ne)
