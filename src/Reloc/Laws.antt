-- ===== src/Reloc/Laws.antt =====
-- Where calls are sent, and what the redirection of a function changes.
use lib_dasics.Base.{
  ℕ, zero, suc, ◌+◌, ◌-◌, ◌^◌, ◌<◌, ◌≤◌, ◌≡◌, ◌≢◌, ◌⊎◌, inl, inr, refl, arith, Bool, true, false,
  not, some, List, [], ◌∷◌, ◌==◌, ◌∙◌, ap, sym, Bool-cases,
}
use lib_dasics.Base.Result.{ok}
use lib_dasics.Word.{sub64}
use lib_dasics.Udasics.State.{minus_one}
use lib_dasics.Elf.{Elf, is_main, get_area}
use lib_dasics.Elf.Laws.{HasText, get_area_lem}
use lib_dasics.Strings.{Str, strcmp, strcmp_iff}
use lib_dasics.Reloc.{
  Links, moved, reloc_found, call_reloc, find_name, find_idx_by_name, set_switch, add_redirect_item,
  delete_redirect_item,
}

-- Module `c` is the copy of module `g` for the other side: the same text, moved by the difference
-- of the two load addresses, within 64 bits.
pub record IsCopy (elfs : ℕ → Elf) (g c : ℕ) : Type 0 where
  pub linked : (elfs g).copy_lib_elf ≡ some c
  pub other_side : is_main (elfs c) ≡ not (is_main (elfs g))
  pub start : (elfs c).text_start + (elfs g).l_addr ≡ (elfs g).text_start + (elfs c).l_addr
  pub end : (elfs c).text_end + (elfs g).l_addr ≡ (elfs g).text_end + (elfs c).l_addr
  pub above : (elfs g).l_addr ≤ (elfs g).text_start
  pub words : ((elfs g).text_end < 2 ^ 64) × ((elfs c).text_end < 2 ^ 64)

moved-HasText :
    (elfs : ℕ → Elf) (g c pc : ℕ)
    → IsCopy elfs g c
    → HasText elfs pc g
    → HasText elfs (moved (elfs g) (elfs c) pc) c
unfolding moved
moved-HasText elfs g c pc v (lo, hi) =
    let below : (elfs c).l_addr < 2 ^ 64 = omega (arith, v.start, v.end, v.above, v.words) in
    (
      omega (arith, v.start, v.end, v.above, v.words),
      omega (arith, v.start, v.end, v.above, v.words),
    )

module _ (elfs : ℕ → Elf) (switch : Bool) (elf : Elf) (g target : ℕ) where
  links : List ℕ → Links
  links chain = record { elfs = elfs; chain = chain; redirect_switch = switch }

  reloc_found-same :
      (chain : List ℕ)
      → is_main elf ≡ is_main (elfs g)
      → reloc_found elf target (links chain) (some g) ≡ ok target
  unfolding reloc_found links moved
  reloc_found-same chain same = elim (Bool-cases (is_main (elfs g))) [
    | inl y ↦ rw (same, y) refl
    | inr n ↦ rw (same, n) refl
  ]

  reloc_found-other :
      (chain : List ℕ) (c : ℕ)
      → (elfs g).copy_lib_elf ≡ some c
      → is_main elf ≡ not (is_main (elfs g))
      → reloc_found elf target (links chain) (some g) ≡ ok (moved (elfs g) (elfs c) target)
  unfolding reloc_found links moved
  reloc_found-other chain c copy other = elim (Bool-cases (is_main (elfs g))) [
    | inl y ↦ rw (other, y, copy) refl
    | inr n ↦ rw (other, n, copy) refl
  ]

  call_reloc-found :
      (chain : List ℕ)
      → get_area elfs chain target ≡ some g
      → call_reloc elf target (links chain) ≡ reloc_found elf target (links chain) (some g)
  unfolding call_reloc links get_area
  call_reloc-found [] found = cc
  call_reloc-found (p ∷ ps) found = ap (reloc_found elf target (links (p ∷ ps))) found

side_cases : (a b : Bool) → (a ≡ b) ⊎ (a ≡ not b)
side_cases true true = inl refl
side_cases true false = inr refl
side_cases false true = inr refl
side_cases false false = inl refl

-- A call to an address in a module that has a copy for the other side is sent to an address
-- inside the text of a module of the caller's side: trusted code stays in trusted code and
-- untrusted code in untrusted code.
pub call_reloc_lem :
    (elf : Elf) (g c target : ℕ) (s : Links)
    → get_area s.elfs s.chain target ≡ some g
    → IsCopy s.elfs g c
    → (m : ℕ) × (a : ℕ) × (call_reloc elf target s ≡ ok a)
      × HasText s.elfs a m
      × (is_main (s.elfs m) ≡ is_main elf)
call_reloc_lem elf g c target s found v =
    let inside = ((get_area_lem s.elfs s.chain target).0 g found).1 in
    let called : call_reloc elf target s ≡ reloc_found elf target s (some g) =
      (unfold links in call_reloc-found s.elfs s.redirect_switch elf g target s.chain found) in
    elim (side_cases (is_main elf) (is_main (s.elfs g))) [
      | inl same ↦ (
        g,
        target,
        unfold links in
            called ∙ reloc_found-same s.elfs s.redirect_switch elf g target s.chain same,
        inside,
        sym same,
      )
      | inr other ↦ (
        c,
        moved (s.elfs g) (s.elfs c) target,
        unfold links in
            called
            ∙ reloc_found-other s.elfs s.redirect_switch elf g target s.chain c v.linked other,
        moved-HasText s.elfs g c target v inside,
        v.other_side ∙ sym other,
      )
    ]

-- Looked for from `i` on, a name is at the index that is found; -1 is found only
-- if it is not there.
find_name_lem :
    (lib_name : ℕ → Str) (name : Str) (left i : ℕ)
    → i + left < 2 ^ 32
    → let k = find_name lib_name name left i in
      ((k ≡ minus_one) × ((j : ℕ) → i ≤ j → j < i + left → lib_name j ≢ name))
      ⊎ ((i ≤ k) × (k < i + left) × (lib_name k ≡ name))
unfolding find_name
find_name_lem lib_name name zero i small = inl (refl, λ j a b e. omega arith)
find_name_lem lib_name name (suc left) i small =
    let (eq, same) = strcmp_iff (lib_name i) name in
    elim (Bool-cases (strcmp (lib_name i) name == 0)) [
      | inl y ↦ rw y (inr (omega arith, omega arith, eq (ground arith)))
      | inr n ↦ rw n (elim (find_name_lem lib_name name left (i + 1) (omega arith)) [
        | inl miss ↦ inl (
          miss.0,
          λ j a b e. elim (Bool-cases (i == j)) [
            | inl y ↦ let q : i ≡ j = ground arith in ground (arith, same (rw q e))
            | inr f ↦ miss.1 j (ground arith) (omega arith) e
          ],
        )
        | inr hit ↦ inr (omega (arith, hit.0), omega (arith, hit.1), hit.2)
      ])
    ]

module _ (lib_name : ℕ → Str) (name : Str) (p : ℕ) (ps : List ℕ) (elfs : ℕ → Elf)
    (switch : Bool) where
  abbrev loaded : Links
  loaded = record { elfs = elfs; chain = p ∷ ps; redirect_switch = switch }

  -- Does `s` differ from the start in the switch of PLT entry `k` of the first module alone, which
  -- is `x`?
  abbrev pub IsSwitched : ℕ → ℕ → Links → Type 0
  IsSwitched k x s =
      ((s.elfs p).redirect_switch (k + 2) ≡ x)
      × ((j : ℕ) → j ≢ k + 2 → (s.elfs p).redirect_switch j ≡ (elfs p).redirect_switch j)
      × ((q : ℕ) → q ≢ p → s.elfs q ≡ elfs q)

  -- For a function other than `__libc_start_main` and a first module with at least 2 and fewer
  -- than 2 ^ 32 PLT entries: either the name stands at no entry before the last two, and adding
  -- and deleting it change nothing, or it is found at such an entry, adding it sets the switch of
  -- that entry, deleting it clears it, and no other switch and no other module changes.
  pub redirect_item_lem :
      (start_main : Str)
      → 2 ≤ (elfs p).got_num
      → (elfs p).got_num < 2 ^ 32
      → name ≢ start_main
      → let s = loaded in
        ((add_redirect_item start_main lib_name name s ≡ s)
          × (delete_redirect_item lib_name name s ≡ s)
          × ((k : ℕ) → k + 2 < (elfs p).got_num → lib_name k ≢ name))
        ⊎ ((k : ℕ) × (k + 2 < (elfs p).got_num)
            × (lib_name k ≡ name)
            × IsSwitched k 1 (add_redirect_item start_main lib_name name s)
            × IsSwitched k 0 (delete_redirect_item lib_name name s))
  unfolding add_redirect_item delete_redirect_item find_idx_by_name set_switch
  redirect_item_lem start_main two small other =
      let n = (elfs p).got_num in
      let left : sub64 n 2 ≡ n - 2 = omega arith in
      let not_main : (strcmp name start_main == 0) ≡ false =
        ground (arith, (strcmp_iff name start_main).0) in
      elim (find_name_lem lib_name name (n - 2) 0 (omega arith)) [
        | inl miss ↦ inl (
          rw (left, not_main, miss.0) refl,
          rw (left, miss.0) refl,
          λ k lt. miss.1 k (omega arith) (omega arith),
        )
        | inr hit ↦
            let k = find_name lib_name name (n - 2) 0 in
            let there : (k == minus_one) ≡ false = ground (arith, hit.1) in
            inr (
              k,
              omega (arith, hit.1),
              hit.2,
              rw (left, not_main, there)
                  (ground arith, (λ j ne. ground arith), λ q ne. ground arith),
              rw (left, there) (ground arith, (λ j ne. ground arith), λ q ne. ground arith),
            )
      ]
