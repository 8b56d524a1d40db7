-- ===== src/Chain.antt =====
-- The chain of the modules by its pointers: `umain_elf_next` and `umain_elf_prev` of
-- include/dynamic.h, the insertion at the end of `create_umain_elf_chain` (src/dynamic/dynamic.c)
-- and the loops over it.
pub mod Laws
use lib_dasics.Base.{
  ℕ, zero, suc, ◌≡◌, Bool, Option, none, some, List, [], ◌∷◌, ◌==◌, if◌then◌else◌,
}
use lib_dasics.Elf.{Elf, in_range}
use lib_dasics.Strings.{Str, strcmp}
use lib_dasics.Ring.{Nodes, set_next, set_prev}
use lib_dasics.Ring.Paths.{IsRing}

-- `_umain_elf_table`, and the two pointers of each module.
pub record Table : Type 0 where
  pub umain_elf_table : Option ℕ
  pub links : Nodes

-- The four writes that put `elf` before the first module.
pub insert_last : ℕ → ℕ → Nodes → Nodes
unfolding set_next set_prev
insert_last elf table s =
    let a = set_next elf table s in
    let b = set_prev elf (a.prev table) a in
    let c = set_next (b.prev table) elf b in set_prev table elf c

-- "Add into chain"
pub add_module : ℕ → Table → Table
unfolding insert_last set_next set_prev
add_module elf t = elim t.umain_elf_table [
  | none ↦ record {
    umain_elf_table = some elf;
    links = set_next elf elf (set_prev elf elf t.links);
  }
  | some table ↦ record t { links = insert_last elf table t.links }
]

-- `do { if (test) return _elf; _elf = _elf->umain_elf_next; } while (_elf != _umain_elf_table);`
-- The outer `none` is more than `fuel` rounds, the inner one is null.
pub find_from : (ℕ → Bool) → ℕ → ℕ → ℕ → Nodes → Option (Option ℕ)
find_from test zero table elf s = none
find_from test (suc fuel) table elf s =
    let later = find_from test fuel table (s.next elf) s in
    if test elf then some (some elf) else if s.next elf == table then some none else later

-- What `_get_area` and `_get_area_by_name` share.
pub find_module : (ℕ → Bool) → ℕ → Table → Option (Option ℕ)
find_module test fuel t = elim t.umain_elf_table [
  | none ↦ some none
  | some table ↦ find_from test fuel table table t.links
]

-- `_get_area`
pub get_area_loop : (ℕ → Elf) → ℕ → ℕ → Table → Option (Option ℕ)
get_area_loop elfs pc fuel t =
    find_module (λ p. in_range pc (elfs p).text_start (elfs p).text_end) fuel t

-- `_get_area_by_name`; `real_name` is the field of each module.
get_area_by_name : (ℕ → Str) → Str → ℕ → Table → Option (Option ℕ)
get_area_by_name real_name name fuel t = find_module (λ p. strcmp (real_name p) name == 0) fuel t

-- `do { body; _elf = _elf->umain_elf_next; } while (_elf != _umain_elf_table);` on other data.
pub each_from {ℓ} : {S : Type ℓ} → (ℕ → S → S) → ℕ → ℕ → ℕ → Nodes → S → Option S
each_from body zero table elf s x = none
each_from body (suc fuel) table elf s x =
    let later = each_from body fuel table (s.next elf) s (body elf x) in
    if s.next elf == table then some (body elf x) else later

-- The same over a list of modules.
pub each {ℓ} : {S : Type ℓ} → (ℕ → S → S) → List ℕ → S → S
each body [] x = x
each body (p ∷ ps) x = each body ps (body p x)

-- The pointers stand for the modules of the list, in its order.
unfoldable pub IsChain : Table → List ℕ → Type 0
IsChain t [] = t.umain_elf_table ≡ none
IsChain t (p ∷ ps) = (t.umain_elf_table ≡ some p) × IsRing t.links p ps
