-- ===== src/Ring/Laws.antt =====
-- What the operations of include/list.h do to the list that the nodes stand for.
use lib_dasics.Base.{ℕ, ◌≡◌, ◌≢◌, arith, List, [], ◌∷◌, ◌++◌, append_assoc, subst, sym}
use lib_dasics.Ring.{Nodes, init_list, insert_between, list_add, list_add_tail}
use lib_dasics.Ring.Paths.{
  NotIn, Distinct, last, NotSource, Leads, IsRing, NotIn-append, NotSource-of_NotIn, last-NotSource,
  last-ne, Leads-append, Leads-of_append, Leads-set_next, Leads-set_prev, NotSource-snoc,
}

pub init_list-IsRing : (head : ℕ) (s : Nodes) → head ≢ 0 → IsRing (init_list head s) head []
unfolding init_list
init_list-IsRing head s nz = record {
  leads = (ground arith, ground arith, tt);
  distinct = (tt, tt);
  no_null = ((λ e. nz (sym e)), tt);
}

-- A node that is not in the list may be initialised.
pub init_list-keeps :
    {s : Nodes} {head : ℕ} {xs : List ℕ}
    → IsRing s head xs
    → (node : ℕ) → NotIn node (head ∷ xs)
    → IsRing (init_list node s) head xs
unfolding init_list
init_list-keeps {s} {head} {xs} r node new = record {
  leads =
      Leads-set_prev _ node node head (xs ++ head ∷ [])
        (NotIn-append node xs (head ∷ []) new.1 (new.0, tt))
        (Leads-set_next s node node head (xs ++ head ∷ [])
          (NotSource-snoc node head head xs new.0 new.1) r.leads);
  distinct = r.distinct;
  no_null = r.no_null;
}

-- The links that `_list_add` leaves alone.
Leads-insert :
    (s : Nodes) (node prev next p : ℕ) (xs : List ℕ)
    → NotSource node p xs
    → NotSource prev p xs
    → NotIn next xs
    → NotIn node xs
    → Leads s p xs
    → Leads (insert_between node prev next s) p xs
unfolding insert_between
Leads-insert s node prev next p xs a b c d l = Leads-set_next _ prev node p xs b (
    Leads-set_prev _ node prev p xs d
      (Leads-set_next _ node next p xs a (Leads-set_prev s next node p xs c l)))

insert-links :
    (s : Nodes) (node prev next : ℕ)
    → node ≢ prev
    → node ≢ next
    → Leads (insert_between node prev next s) prev (node ∷ next ∷ [])
unfolding insert_between
insert-links s node prev next p q = (ground arith, ground arith, (ground arith, ground arith, tt))

Distinct-snoc : (x : ℕ) (xs : List ℕ) → Distinct xs → NotIn x xs → Distinct (xs ++ x ∷ [])
Distinct-snoc x [] d n = (tt, tt)
Distinct-snoc x (y ∷ ys) d n =
    (NotIn-append y ys (x ∷ []) d.0 ((λ e. n.0 (sym e)), tt), Distinct-snoc x ys d.1 n.1)

-- The node before `head` is the last one.
pub prev-last : {s : Nodes} {head : ℕ} {xs : List ℕ} → IsRing s head xs → s.prev head ≡ last head xs
prev-last {s} {head} {xs} r = (Leads-of_append s head xs (head ∷ []) r.leads).1.1

module _ {s : Nodes} {head : ℕ} {xs : List ℕ} (r : IsRing s head xs) (node : ℕ)
    (new : NotIn node (head ∷ xs)) (nz : node ≢ 0) where
  insert_last-Leads :
      Leads (insert_between node (last head xs) head s) head (xs ++ node ∷ head ∷ [])
  insert_last-Leads =
      let end = last head xs in
      let kept =
        Leads-insert s node end head head xs (NotSource-of_NotIn node head xs new.0 new.1)
          (last-NotSource head xs r.distinct) r.distinct.0 new.1
          (Leads-of_append s head xs (head ∷ []) r.leads).0 in
      Leads-append _ head xs (node ∷ head ∷ []) kept
        (insert-links s node end head (last-ne node head xs new.0 new.1) new.0)

  IsRing-insert_last : IsRing (insert_between node (last head xs) head s) head (xs ++ node ∷ [])
  IsRing-insert_last = record {
    leads = rw (append_assoc xs (node ∷ []) (head ∷ [])) insert_last-Leads;
    distinct = Distinct-snoc node (head ∷ xs) r.distinct new;
    no_null = (r.no_null.0, NotIn-append 0 xs (node ∷ []) r.no_null.1 ((λ e. nz (sym e)), tt));
  }

  -- If the nodes after `head` are `xs` in a list without end, and `node` is neither null nor one
  -- of the list's nodes, then after `list_add_tail` they are `xs` and `node` at the end.
  pub list_add_tail-IsRing : IsRing (list_add_tail node head s) head (xs ++ node ∷ [])
  unfolding list_add_tail
  list_add_tail-IsRing = rw (prev-last r) IsRing-insert_last

  Distinct-front : Distinct (head ∷ node ∷ xs)
  Distinct-front = (((λ e. new.0 (sym e)), r.distinct.0), (new.1, r.distinct.1))

  null_front : NotIn 0 (head ∷ node ∷ xs)
  null_front = (r.no_null.0, ((λ e. nz (sym e)), r.no_null.1))

insert_first-Leads :
    (s : Nodes) (head node : ℕ) (xs : List ℕ)
    → IsRing s head xs
    → NotIn node (head ∷ xs)
    → Leads (insert_between node head (s.next head) s) head (node ∷ (xs ++ head ∷ []))
insert_first-Leads s head node [] r new = rw r.leads.0 (insert-links s node head head new.0 new.0)
insert_first-Leads s head node (x ∷ xs) r new =
    let ne : head ≢ x = r.distinct.0.0 in
    let from_node = NotSource-snoc node x head xs new.1.0 new.1.1 in
    let from_head = NotSource-snoc head x head xs ne r.distinct.0.1 in
    let to_first = NotIn-append x xs (head ∷ []) r.distinct.1.0 ((λ e. ne (sym e)), tt) in
    let to_node = NotIn-append node xs (head ∷ []) new.1.1 (new.0, tt) in
    let rest =
      Leads-insert s node head x x (xs ++ head ∷ []) from_node from_head to_first to_node
        r.leads.2 in
    let links = insert-links s node head x new.0 new.1.0 in
    let out : Leads (insert_between node head x s) head (node ∷ (x ∷ (xs ++ head ∷ []))) =
      (links.0, links.1, (links.2.0, links.2.1, rest)) in
    subst (λ (f : ℕ). Leads (insert_between node head f s) head (node ∷ (x ∷ (xs ++ head ∷ []))))
      (sym r.leads.0) out

-- If `node` is neither null nor one of the list's nodes, `list_add` puts it first.
pub list_add-IsRing :
    {s : Nodes} {head : ℕ} {xs : List ℕ}
    → IsRing s head xs
    → (node : ℕ) → NotIn node (head ∷ xs)
    → node ≢ 0
    → IsRing (list_add node head s) head (node ∷ xs)
unfolding list_add
list_add-IsRing {s} {head} {xs} r node new nz = record {
  leads = insert_first-Leads s head node xs r new;
  distinct = Distinct-front r node new nz;
  no_null = null_front r node new nz;
}
