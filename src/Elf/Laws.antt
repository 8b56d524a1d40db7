-- ===== src/Elf/Laws.antt =====
-- What `_get_area` and `_is_plt_area` find.
use lib_dasics.Base.{
  ℕ, ◌+◌, ◌*◌, ◌^◌, ◌<◌, ◌≤◌, ◌≡◌, ◌⊎◌, arith, none, some, List, [], ◌∷◌, inl, inr, Bool-cases, All,
}
use lib_dasics.Udasics.State.{minus_one}
use lib_dasics.Elf.{Elf, in_range, get_area, is_plt_area}

-- The address lies strictly inside the text of the module.
abbrev pub HasText : (ℕ → Elf) → ℕ → ℕ → Type 0
HasText elfs pc p = ((elfs p).text_start < pc) × (pc < (elfs p).text_end)

abbrev pub IsIn : ℕ → List ℕ → Type 0
IsIn p [] = ⊥
IsIn p (q ∷ qs) = (p ≡ q) ⊎ IsIn p qs

-- A module that `_get_area` finds is in the chain and has the address strictly inside its text;
-- if it finds none, no module of the chain has.
pub get_area_lem :
    (elfs : ℕ → Elf) (chain : List ℕ) (pc : ℕ)
    → ((p : ℕ) → get_area elfs chain pc ≡ some p → IsIn p chain × HasText elfs pc p)
      × (get_area elfs chain pc ≡ none → All (λ p. ¬ HasText elfs pc p) chain)
unfolding get_area in_range
get_area_lem elfs [] pc = ((λ p e. cc), λ e. tt)
get_area_lem elfs (q ∷ qs) pc =
    let (found, missed) = get_area_lem elfs qs pc in
    elim (Bool-cases (in_range pc (elfs q).text_start (elfs q).text_end)) [
      | inl y ↦ ((λ p e. (inl (ground arith), ground arith)), λ e. ground arith)
      | inr n ↦ (
        (λ p e. let (later, inside) = found p (ground arith) in (inr later, inside)),
        λ e. ((λ h. ground arith), missed (ground arith)),
      )
    ]

-- An address `offset` bytes into entry `i` of the PLT, other than its very first, is found to be
-- in entry `i` where it lies below the end of the PLT, and gives -1 from there on; for entries of
-- 16 bytes and fewer than 2 ^ 31 of them.
is_plt_area_lem :
    (e : Elf) (i offset : ℕ)
    → offset < 0x10
    → i < 2 ^ 31
    → 0 < i * 0x10 + offset
    → (e.plt_start + i * 0x10 + offset < e.plt_end
        → is_plt_area (e.plt_start + i * 0x10 + offset) e ≡ i)
      × (e.plt_end ≤ e.plt_start + i * 0x10 + offset
          → is_plt_area (e.plt_start + i * 0x10 + offset) e ≡ minus_one)
unfolding is_plt_area in_range
is_plt_area_lem e i offset h hi pos = ((λ p. ground arith), λ p. ground arith)
