-- ===== src/Ring.antt =====
-- include/list.h: doubly linked lists without end, through a node `head` that holds no entry. A
-- pointer is a number, 0 is `NULL`, and the fields of the nodes are functions of the pointer.
pub mod Paths
pub mod Laws
pub mod Remove
pub mod Walk
use lib_dasics.Base.{
  ℕ, zero, suc, Bool, ◌&&◌, not, Option, none, some, List, [], ◌∷◌, update, ◌==◌, if◌then◌else◌,
}

-- `list_node_t`, at every pointer.
pub record Nodes : Type 0 where
  pub next : ℕ → ℕ
  pub prev : ℕ → ℕ

-- `p->next = q` and `p->prev = q`
unfoldable pub set_next : ℕ → ℕ → Nodes → Nodes
set_next p q s = record s { next = update s.next p q }

unfoldable pub set_prev : ℕ → ℕ → Nodes → Nodes
set_prev p q s = record s { prev = update s.prev p q }

-- `init_list`
unfoldable pub init_list : ℕ → Nodes → Nodes
unfolding set_next set_prev
init_list list s = set_prev list list (set_next list list s)

-- `_list_add`
pub insert_between : ℕ → ℕ → ℕ → Nodes → Nodes
unfolding set_next set_prev
insert_between node prev next s =
    set_next prev node (set_prev node prev (set_next node next (set_prev next node s)))

-- `_list_del`
pub link : ℕ → ℕ → Nodes → Nodes
unfolding set_next set_prev
link prev next s = set_next prev next (set_prev next prev s)

-- `list_del`
pub list_del : ℕ → Nodes → Nodes
unfolding link set_next set_prev
list_del entry s =
    if not (s.prev entry == 0) && not (s.next entry == 0)
    then set_next entry 0 (set_prev entry 0 (link (s.prev entry) (s.next entry) s))
    else s

-- `list_add`, `list_add_tail` and `list_move`
pub list_add : ℕ → ℕ → Nodes → Nodes
unfolding insert_between
list_add node head s = insert_between node head (s.next head) s

unfoldable pub list_add_tail : ℕ → ℕ → Nodes → Nodes
unfolding insert_between
list_add_tail node head s = insert_between node (s.prev head) head s

pub list_move : ℕ → ℕ → Nodes → Nodes
list_move node head s = list_add node head (list_del node s)

-- `list_empty`
pub list_empty : ℕ → Nodes → Bool
list_empty head s = s.next head == head

-- `list_for_each_entry`: the nodes from `pos` on that are visited, in order; `none` is more than
-- `fuel` rounds.
pub visit : ℕ → ℕ → ℕ → Nodes → Option (List ℕ)
visit zero pos head s = none
visit (suc fuel) pos head s =
    let rest : Option (List ℕ) = elim (visit fuel (s.next pos) head s) [
      | none ↦ none
      | some ps ↦ some (pos ∷ ps)
    ] in
    if pos == head then some [] else rest

pub for_each_entry : ℕ → ℕ → Nodes → Option (List ℕ)
for_each_entry fuel head s = visit fuel (s.next head) head s
