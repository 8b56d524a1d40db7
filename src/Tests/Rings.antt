-- ===== src/Tests/Rings.antt =====
-- The lists without end, on a list of two nodes, and the functions of a module in such a list.
use lib_dasics.Base.{◌≡◌, refl, arith, [], ◌∷◌, some, none, ◌==◌, if◌then◌else◌}
use lib_dasics.Base.Result.{ok, err, Stop}
use lib_dasics.Ring.{Nodes, init_list, list_add_tail, list_del, for_each_entry, list_empty}
use lib_dasics.Ring.Paths.{IsRing}
use lib_dasics.Ring.Laws.{init_list-IsRing, list_add_tail-IsRing}
use lib_dasics.Ring.Remove.{list_del-IsRing}
use lib_dasics.Ring.Walk.{for_each_entry_lem}
use lib_dasics.Chain.{Table, IsChain, add_module, get_area_loop}
use lib_dasics.Chain.Laws.{add_module-IsChain, get_area_loop-get_area}
use lib_dasics.Elf.{get_area}
use lib_dasics.Funcmem.{init_func_mem}
use lib_dasics.Funcmem.FuncMan.{
  FuncMan, set_global_func_man, added_again, set_global_func_man-new, set_global_func_man-again,
}
use lib_dasics.Tests.Machine.{modules}

abbrev blank : Nodes
blank = record { next = λ p. 0; prev = λ p. 0 }

-- The head is node 9.
abbrev one : Nodes
one = list_add_tail 1 9 (init_list 9 blank)

abbrev two : Nodes
two = list_add_tail 2 9 one

one-IsRing : IsRing one 9 (1 ∷ [])
one-IsRing =
    list_add_tail-IsRing (init_list-IsRing 9 blank (λ e. omega arith)) 1 ((λ e. omega arith), tt)
      (λ e. omega arith)

two-IsRing : IsRing two 9 (1 ∷ 2 ∷ [])
two-IsRing =
    list_add_tail-IsRing one-IsRing 2 ((λ e. omega arith), ((λ e. omega arith), tt))
      (λ e. omega arith)

list_del-IsRing_example : IsRing (list_del 1 two) 9 (2 ∷ [])
list_del-IsRing_example = list_del-IsRing two 1 9 [] (2 ∷ []) two-IsRing

for_each_entry_lem_example :
    (for_each_entry 3 9 two ≡ some (1 ∷ 2 ∷ [])) × (list_empty 9 two ≡ (2 == 0))
for_each_entry_lem_example = for_each_entry_lem two 9 3 (1 ∷ 2 ∷ []) two-IsRing (omega arith)

-- The chain of the modules 1 and 2.
abbrev no_table : Table
no_table = record { umain_elf_table = none; links = blank }

abbrev one_module : Table
one_module = add_module 1 no_table

one_module-IsChain : IsChain one_module (1 ∷ [])
one_module-IsChain = add_module-IsChain 1 no_table [] (unfold IsChain in refl) tt (λ e. omega arith)

add_module-IsChain_example : IsChain (add_module 2 one_module) (1 ∷ 2 ∷ [])
add_module-IsChain_example =
    add_module-IsChain 2 one_module (1 ∷ []) one_module-IsChain ((λ e. omega arith), tt)
      (λ e. omega arith)

two_modules-IsChain : IsChain (add_module 2 one_module) (1 ∷ 2 ∷ [])
two_modules-IsChain =
    add_module-IsChain 2 one_module (1 ∷ []) one_module-IsChain ((λ e. omega arith), tt)
      (λ e. omega arith)

get_area_loop-get_area_example :
    get_area_loop modules 0x21234 2 (add_module 2 one_module)
    ≡ some (get_area modules (1 ∷ 2 ∷ []) 0x21234)
get_area_loop-get_area_example =
    get_area_loop-get_area modules 0x21234 2 (add_module 2 one_module) (1 ∷ 2 ∷ [])
      two_modules-IsChain (omega arith)

-- Node 1 is of the function 0x100.
abbrev man : FuncMan
man = record {
  nodes = one;
  mems = λ p. init_func_mem (if p == 1 then 0x100 else 0);
  namespace_func = none;
}

set_global_func_man-new_example :
    (t : FuncMan) × (set_global_func_man 2 5 7 0x200 9 man ≡ ok t)
    × IsRing t.nodes 9 (1 ∷ 5 ∷ [])
    × (t.mems 5 ≡ init_func_mem 0x200)
    × (t.namespace_func ≡ some 5)
unfolding init_func_mem
set_global_func_man-new_example =
    set_global_func_man-new man 9 2 5 7 0x200 (1 ∷ []) one-IsRing ((λ e. omega arith), tt)
      (omega arith) ((λ e. omega arith), ((λ e. omega arith), tt)) (λ e. omega arith)
      (λ e. omega arith)

set_global_func_man-again_example :
    (set_global_func_man 1 5 7 0x100 9 man ≡ ok (added_again 1 9 man))
    × (set_global_func_man 1000 6 8 0x200 9 (added_again 1 9 man) ≡ err Stop.hung)
unfolding init_func_mem
set_global_func_man-again_example =
    set_global_func_man-again man 9 1 5 7 0x100 1 [] 1000 6 8 0x200 one-IsRing tt refl (omega arith)
      ((λ e. omega arith), tt)
