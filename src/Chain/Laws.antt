-- ===== src/Chain/Laws.antt =====
-- The insertion into the chain and the loops over it, on the list that the pointers stand for.
use lib_dasics.Base.{
  ℕ, zero, suc, ◌<◌, ◌≤◌, ◌≡◌, ◌≢◌, refl, arith, Bool, false, Option, none, some, List, [], ◌∷◌,
  ◌++◌, length, fun_ext, ◌==◌, ==_iff, if◌then◌else◌, update,
}
use lib_dasics.Elf.{Elf, get_area, in_range}
use lib_dasics.Ring.{Nodes, list_add_tail, init_list}
use lib_dasics.Ring.Paths.{NotIn, Leads}
use lib_dasics.Ring.Laws.{list_add_tail-IsRing, init_list-IsRing}
use lib_dasics.Chain.{
  Table, insert_last, add_module, find_from, find_module, get_area_loop, each_from, each, IsChain,
}

-- The writes of `list_add_tail`, in another order.
insert_last-eq : (elf p : ℕ) (s : Nodes) → elf ≢ p → insert_last elf p s ≡ list_add_tail elf p s
unfolding insert_last list_add_tail
insert_last-eq elf p s ne =
    let apart : (elf == p) ≡ false = ground arith in
    let order : update (update s.prev elf (s.prev p)) p elf
        ≡ update (update s.prev p elf) elf (s.prev p) =
      fun_ext (λ q. ground (arith, ne)) in
    rw (apart, order) refl

-- If the pointers stand for a chain of modules, and `elf` is neither null nor in it, then after
-- the insertion of `create_umain_elf_chain` they stand for the chain with `elf` at its end; the
-- first module makes a chain of one.
pub add_module-IsChain :
    (elf : ℕ) (t : Table) (chain : List ℕ)
    → IsChain t chain
    → NotIn elf chain
    → elf ≢ 0
    → IsChain (add_module elf t) (chain ++ elf ∷ [])
unfolding add_module IsChain init_list
add_module-IsChain elf t [] c new nz = rw c (refl, init_list-IsRing elf t.links nz)
add_module-IsChain elf t (p ∷ ps) c new nz =
    rw c.0 (refl, rw (insert_last-eq elf p t.links new.0) (list_add_tail-IsRing c.1 elf new nz))

-- The first of the modules that passes the test.
first_of : (ℕ → Bool) → List ℕ → Option ℕ
first_of test [] = none
first_of test (p ∷ ps) = if test p then some p else first_of test ps

module _ (s : Nodes) (table : ℕ) where
  find_from-Leads :
      (test : ℕ → Bool) (fuel p : ℕ) (ps : List ℕ)
      → Leads s p (ps ++ table ∷ [])
      → NotIn table ps
      → length ps < fuel
      → find_from test fuel table p s ≡ some (first_of test (p ∷ ps))
  unfolding find_from first_of
  find_from-Leads test zero p ps l n h = absurd (omega arith)
  find_from-Leads test (suc fuel) p [] l n h = rw l.0 (ground arith)
  find_from-Leads test (suc fuel) p (q ∷ qs) l n h =
      rw (l.0, find_from-Leads test fuel q qs l.2 n.1 (omega arith)) (ground (arith, n.0))

  each_from-Leads {ℓ} :
      {S : Type ℓ} (body : ℕ → S → S) (fuel p : ℕ) (ps : List ℕ) (x : S)
      → Leads s p (ps ++ table ∷ [])
      → NotIn table ps
      → length ps < fuel
      → each_from body fuel table p s x ≡ some (each body (p ∷ ps) x)
  unfolding each_from each
  each_from-Leads body zero p ps x l n h = absurd (omega arith)
  each_from-Leads body (suc fuel) p [] x l n h = rw (l.0, (==_iff table table).1 refl) refl
  each_from-Leads body (suc fuel) p (q ∷ qs) x l n h =
      let apart : (q == table) ≡ false = ground (arith, n.0) in
      rw (l.0, apart) (each_from-Leads body fuel q qs (body p x) l.2 n.1 (omega arith))

find_module-first :
    (test : ℕ → Bool) (fuel : ℕ) (t : Table) (chain : List ℕ)
    → IsChain t chain
    → length chain ≤ fuel
    → find_module test fuel t ≡ some (first_of test chain)
unfolding find_module IsChain first_of
find_module-first test fuel t [] c h = rw c refl
find_module-first test fuel t (p ∷ ps) c h =
    rw (c.0, find_from-Leads t.links p test fuel p ps c.1.leads c.1.distinct.0 (omega arith)) refl

get_area-first :
    (elfs : ℕ → Elf) (pc : ℕ) (chain : List ℕ)
    → first_of (λ p. in_range pc (elfs p).text_start (elfs p).text_end) chain
      ≡ get_area elfs chain pc
unfolding first_of get_area
get_area-first elfs pc [] = refl
get_area-first elfs pc (p ∷ ps) = rw (get_area-first elfs pc ps) refl

-- If the pointers stand for a chain of modules, the loop of `_get_area` over them ends within as
-- many rounds as there are modules, and returns what the search of the list `get_area` returns.
pub get_area_loop-get_area :
    (elfs : ℕ → Elf) (pc fuel : ℕ) (t : Table) (chain : List ℕ)
    → IsChain t chain
    → length chain ≤ fuel
    → get_area_loop elfs pc fuel t ≡ some (get_area elfs chain pc)
unfolding get_area_loop
get_area_loop-get_area elfs pc fuel t chain c h =
    rw (find_module-first _ fuel t chain c h, get_area-first elfs pc chain) refl
