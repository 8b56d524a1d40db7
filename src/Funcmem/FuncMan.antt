-- ===== src/Funcmem/FuncMan.antt =====
-- `set_global_func_man` of src/memory/ufuncmem.c: the functions of a module whose blocks are
-- recorded stand in a list of include/list.h, through the node `func_man` of the module.
use lib_dasics.Base.{
  ℕ, zero, suc, ◌<◌, ◌≡◌, ◌≢◌, refl, arith, Option, none, some, List, [], ◌∷◌, ◌++◌, length, All,
  update, ◌==◌, not, if◌then◌else◌, sym,
}
use lib_dasics.Base.Result.{Result, ok, err, Stop, ◌>>=◌, ◌>>◌, assert}
use lib_dasics.Funcmem.{FuncMem, init_func_mem}
use lib_dasics.Ring.{Nodes, init_list, list_add_tail}
use lib_dasics.Ring.Paths.{
  NotIn, IsRing, Follows, Follows-of_Leads, Follows-of_append, Follows-update, NotSource,
  NotSource-snoc, NotIn-of_append, last-snoc,
}
use lib_dasics.Ring.Remove.{fresh}
use lib_dasics.Ring.Laws.{list_add_tail-IsRing, init_list-keeps, prev-last}

-- The nodes, the record of the function of each, and the node that `namespace_func` of the module points to.
pub record FuncMan : Type 0 where
  pub nodes : Nodes
  pub mems : ℕ → FuncMem
  pub namespace_func : Option ℕ

-- The search for a function from `find` on: the node found or null; a search of more than `fuel`
-- rounds does not end.
find_func : ℕ → ℕ → ℕ → ℕ → FuncMan → Result (Option ℕ)
find_func zero func find head s = err Stop.hung
find_func (suc fuel) func find head s =
    let later = find_func fuel func (s.nodes.next find) head s in
    if find == head then ok none else if (s.mems find).func == func then ok (some find) else later

-- `init_func_mem`; `block` and `cells` are the answers of `malloc` and `calloc`.
init_func : ℕ → ℕ → ℕ → FuncMan → Result (ℕ × FuncMan)
init_func block cells func s = do
  assert (not (block == 0))
  assert (not (cells == 0))
  ok (
    block,
    record s { nodes = init_list block s.nodes; mems = update s.mems block (init_func_mem func) },
  )

-- `if (result == NULL) result = init_func_mem(func);`
found_or_new : ℕ → ℕ → ℕ → FuncMan → Option ℕ → Result (ℕ × FuncMan)
found_or_new block cells func s none = init_func block cells func s
found_or_new block cells func s (some result) = ok (result, s)

-- `set_global_func_man`; `head` is the node `func_man` of the module.
pub set_global_func_man : ℕ → ℕ → ℕ → ℕ → ℕ → FuncMan → Result FuncMan
set_global_func_man fuel block cells func head s = do
  found ← find_func fuel func (s.nodes.next head) head s
  (result, t) ← found_or_new block cells func s found
  ok (record t { nodes = list_add_tail result head t.nodes; namespace_func = some result })

-- The search passes over nodes of other functions, up to the node where the rest starts.
module _ (func head : ℕ) (s : FuncMan) where
  find_func-none :
      (fuel p : ℕ) (xs : List ℕ)
      → Follows s.nodes.next p (xs ++ head ∷ [])
      → NotIn head xs
      → All (λ x. (s.mems x).func ≢ func) xs
      → length xs < fuel
      → find_func fuel func (s.nodes.next p) head s ≡ ok none
  unfolding find_func
  find_func-none zero p xs l n a h = absurd (omega arith)
  find_func-none (suc fuel) p [] l n a h = rw l.0 (ground arith)
  find_func-none (suc fuel) p (x ∷ xs) l n a h =
      let later = find_func-none fuel x xs l.1 n.1 a.1 (omega arith) in
      rw l.0 (ground (arith, n.0, a.0, later))

  find_func-some :
      (x fuel p : ℕ) (xs : List ℕ)
      → Follows s.nodes.next p (xs ++ x ∷ [])
      → NotIn head (x ∷ xs)
      → All (λ y. (s.mems y).func ≢ func) xs
      → (s.mems x).func ≡ func
      → length xs < fuel
      → find_func fuel func (s.nodes.next p) head s ≡ ok (some x)
  unfolding find_func
  find_func-some x zero p xs l n a e h = absurd (omega arith)
  find_func-some x (suc fuel) p [] l n a e h = rw l.0 (ground (arith, n.0))
  find_func-some x (suc fuel) p (y ∷ ys) l n a e h =
      let later = find_func-some x fuel y ys l.1 (n.0, n.1.1) a.1 e (omega arith) in
      rw l.0 (ground (arith, n.1.0, a.0, later))

  -- A node of another function that follows itself keeps the search for ever.
  find_func-loop :
      (x fuel : ℕ)
      → s.nodes.next x ≡ x
      → head ≢ x
      → (s.mems x).func ≢ func
      → find_func fuel func x head s ≡ err Stop.hung
  unfolding find_func
  find_func-loop x zero l n a = refl
  find_func-loop x (suc fuel) l n a =
      rw l (ground (arith, find_func-loop x fuel l n a, λ (e : x ≡ head). n (sym e)))

  find_func-hung :
      (x fuel p : ℕ) (xs : List ℕ)
      → s.nodes.next x ≡ x
      → Follows s.nodes.next p (xs ++ x ∷ [])
      → NotIn head (x ∷ xs)
      → All (λ y. (s.mems y).func ≢ func) (x ∷ xs)
      → find_func fuel func (s.nodes.next p) head s ≡ err Stop.hung
  unfolding find_func
  find_func-hung x zero p xs self l n a = refl
  find_func-hung x (suc fuel) p [] self l n a = rw l.0 (find_func-loop x (suc fuel) self n.0 a.0)
  find_func-hung x (suc fuel) p (y ∷ ys) self l n a =
      let later = find_func-hung x fuel y ys self l.1 (n.0, n.1.1) (a.0, a.1.1) in
      rw l.0 (ground (arith, n.1.0, a.1.0, later))

-- If the list of the module has no node of the function, the allocator gives a block that is
-- neither null nor a node of the list, and there is memory for the cells, then
-- `set_global_func_man` returns, given more rounds than there are nodes: the list has the block at
-- its end, the block is the record of the function without blocks, and `namespace_func` points to
-- it.
pub set_global_func_man-new :
    (s : FuncMan) (head fuel block cells func : ℕ) (xs : List ℕ)
    → IsRing s.nodes head xs
    → All (λ x. (s.mems x).func ≢ func) xs
    → length xs < fuel
    → NotIn block (head ∷ xs)
    → block ≢ 0
    → cells ≢ 0
    → (t : FuncMan) × (set_global_func_man fuel block cells func head s ≡ ok t)
      × IsRing t.nodes head (xs ++ block ∷ [])
      × (t.mems block ≡ init_func_mem func)
      × (t.namespace_func ≡ some block)
unfolding set_global_func_man found_or_new init_func
set_global_func_man-new s head fuel block cells func xs r a h new nz nz' =
    let t : FuncMan = record {
      nodes = list_add_tail block head (init_list block s.nodes);
      mems = update s.mems block (init_func_mem func);
      namespace_func = some block;
    } in
    let searched =
      find_func-none func head s fuel head xs (Follows-of_Leads s.nodes head _ r.leads) r.distinct.0
        a h in
    (
      t,
      rw searched (ground arith),
      list_add_tail-IsRing (init_list-keeps r block new) block new nz,
      ground arith,
      refl,
    )

-- The node that is there already, put at the end once more.
abbrev pub added_again : ℕ → ℕ → FuncMan → FuncMan
added_again x head s = record s { nodes = list_add_tail x head s.nodes; namespace_func = some x }

module _ (s : FuncMan) (head x : ℕ) (xs : List ℕ) (r : IsRing s.nodes head (xs ++ x ∷ [])) where
  not_head : NotIn head (x ∷ xs)
  not_head = let n = NotIn-of_append head xs (x ∷ []) r.distinct.0 in (n.1.0, n.0)

  forward : Follows s.nodes.next head (xs ++ x ∷ [])
  forward =
      Follows-of_append s.nodes.next head (xs ++ x ∷ []) (head ∷ [])
        (Follows-of_Leads s.nodes head _ r.leads)

  not_again : NotSource x head (xs ++ x ∷ [])
  not_again = let f = fresh x xs [] r in NotSource-snoc x head x xs f.0 f.1

  again-forward : Follows (added_again x head s).nodes.next head (xs ++ x ∷ [])
  unfolding list_add_tail
  again-forward =
      rw (prev-last r, last-snoc head x xs)
        (Follows-update (update s.nodes.next x head) x x head (xs ++ x ∷ []) not_again
          (Follows-update s.nodes.next x head head (xs ++ x ∷ []) not_again forward))

  again_self : (added_again x head s).nodes.next x ≡ x
  unfolding list_add_tail
  again_self = rw (prev-last r, last-snoc head x xs) (ground arith)

-- If the node of the function is the last of the module's list, and no node before it is of that
-- function, `set_global_func_man` finds it and adds it a second time. From then on the same call
-- for any function that has no node does not end, however many rounds it has: the node that was
-- added twice follows itself.
pub set_global_func_man-again :
    (s : FuncMan) (head fuel block cells func x : ℕ) (xs : List ℕ) (fuel' block' cells' other : ℕ)
    → IsRing s.nodes head (xs ++ x ∷ [])
    → All (λ y. (s.mems y).func ≢ func) xs
    → (s.mems x).func ≡ func
    → length xs < fuel
    → All (λ y. (s.mems y).func ≢ other) (x ∷ xs)
    → (set_global_func_man fuel block cells func head s ≡ ok (added_again x head s))
      × (set_global_func_man fuel' block' cells' other head (added_again x head s) ≡ err Stop.hung)
unfolding set_global_func_man found_or_new
set_global_func_man-again s head fuel block cells func x xs fuel' block' cells' other r a e h o =
    let n = not_head s head x xs r in
    let found = find_func-some func head s x fuel head xs (forward s head x xs r) n a e h in
    let lost =
      find_func-hung other head (added_again x head s) x fuel' head xs (again_self s head x xs r)
        (again-forward s head x xs r) n o in
    (rw found refl, rw lost refl)
