-- ===== src/Ring/Remove.antt =====
-- `list_del` and `list_move` of include/list.h on the list that the nodes stand for.
use lib_dasics.Base.{ℕ, ◌≡◌, ◌≢◌, arith, List, [], ◌∷◌, ◌++◌, append_assoc, subst, All, sym}
use lib_dasics.Ring.{Nodes, set_next, set_prev, link, list_del, list_move}
use lib_dasics.Ring.Laws.{list_add-IsRing}
use lib_dasics.Ring.Paths.{
  NotIn, Distinct, last, NotSource, Leads, IsRing, NotIn-append, NotSource-of_NotIn, last-NotSource,
  last-ne, Leads-append, Leads-of_append, NotIn-of_append, Leads-set_next, Leads-set_prev,
  NotSource-snoc, Distinct-of_append, Distinct-append, All-last, All-map, NotIn-of_All,
}

-- `list_del` where both neighbours are known.
abbrev removed : ℕ → ℕ → ℕ → Nodes → Nodes
removed x a b s = set_next x 0 (set_prev x 0 (link a b s))

list_del-removed :
    (s : Nodes) (x a b : ℕ)
    → s.prev x ≡ a
    → s.next x ≡ b
    → a ≢ 0
    → b ≢ 0
    → list_del x s ≡ removed x a b s
unfolding list_del
list_del-removed s x a b p q nz mz = rw (p, q) (ground arith)

Leads-removed :
    (s : Nodes) (x a b p : ℕ) (xs : List ℕ)
    → NotSource a p xs
    → NotSource x p xs
    → NotIn b xs
    → NotIn x xs
    → Leads s p xs
    → Leads (removed x a b s) p xs
unfolding link
Leads-removed s x a b p xs na nx mb mx l =
    Leads-set_next _ x 0 p xs nx
      (Leads-set_prev _ x 0 p xs mx (Leads-set_next _ a b p xs na (Leads-set_prev s b a p xs mb l)))

-- The way over the gap: the nodes `xs` before it, and `b` and the nodes after it.
removed-bridge :
    (s : Nodes) (x b head : ℕ) (xs rest : List ℕ)
    → last head xs ≢ x
    → b ≢ x
    → Leads (removed x (last head xs) b s) head xs
    → Leads (removed x (last head xs) b s) b rest
    → Leads (removed x (last head xs) b s) head (xs ++ b ∷ rest)
unfolding link
removed-bridge s x b head xs rest ne nb before after =
    Leads-append _ head xs (b ∷ rest) before (ground arith, ground arith, after)

module _ {s : Nodes} {head : ℕ} (x : ℕ) (xs ys : List ℕ) (r : IsRing s head (xs ++ x ∷ ys)) where
  parts : Distinct (head ∷ xs) × Distinct (x ∷ ys) × All (λ z. NotIn z (x ∷ ys)) (head ∷ xs)
  parts = Distinct-of_append (head ∷ xs) (x ∷ ys) r.distinct

  -- `x` is none of the nodes before it, and the last of those is none of the nodes from `x` on.
  pub fresh : NotIn x (head ∷ xs)
  fresh = NotIn-of_All x (head ∷ xs) (All-map _ (λ z. z ≢ x) (head ∷ xs) (λ z h. h.0) parts.2)

  before-apart : NotIn (last head xs) (x ∷ ys)
  before-apart = All-last (λ z. NotIn z (x ∷ ys)) head xs parts.2.0 parts.2.1

  links : Leads s head xs × Leads s (last head xs) (x ∷ (ys ++ head ∷ []))
  links =
      Leads-of_append s head xs (x ∷ (ys ++ head ∷ []))
        (subst (λ l. Leads s head l) (append_assoc xs (x ∷ ys) (head ∷ [])) r.leads)

  Distinct-left : Distinct (head ∷ (xs ++ ys))
  Distinct-left =
      Distinct-append (head ∷ xs) ys parts.0 parts.1.1
        (All-map _ (λ z. NotIn z ys) (head ∷ xs) (λ z h. h.1) parts.2)

  null_left : NotIn 0 (head ∷ (xs ++ ys))
  null_left =
      let n = NotIn-of_append 0 xs (x ∷ ys) r.no_null.1 in
      (r.no_null.0, NotIn-append 0 xs ys n.0 n.1.1)

  before-nonzero : last head xs ≢ 0
  before-nonzero =
      let n = NotIn-of_append 0 xs (x ∷ ys) r.no_null.1 in
      λ e. last-ne 0 head xs r.no_null.0 n.0 (sym e)

-- What is left of the way, for the node `b` after `x` and the nodes `rest` after that.
list_del-Leads :
    (s : Nodes) (x head : ℕ) (xs ys : List ℕ)
    → IsRing s head (xs ++ x ∷ ys)
    → Leads (list_del x s) head (xs ++ (ys ++ head ∷ []))
list_del-Leads s x head xs [] r =
    let l = links x xs [] r in
    let a = last head xs in
    let ap = before-apart x xs [] r in
    let fr = fresh x xs [] r in
    let d = (parts x xs [] r).0 in
    let kept =
      Leads-removed s x a head head xs (last-NotSource head xs d)
        (NotSource-of_NotIn x head xs fr.0 fr.1) d.0 fr.1 l.0 in
    let out = removed-bridge s x head head xs [] ap.0 (λ e. fr.0 (sym e)) kept tt in
    rw
      (list_del-removed s x a head l.1.1 l.1.2.0 (before-nonzero x xs [] r)
        (λ e. r.no_null.0 (sym e)))
      out
list_del-Leads s x head xs (y ∷ ys) r =
    let l = links x xs (y ∷ ys) r in
    let a = last head xs in
    let ap = before-apart x xs (y ∷ ys) r in
    let fr = fresh x xs (y ∷ ys) r in
    let p = parts x xs (y ∷ ys) r in
    let no_y : NotIn y (head ∷ xs) =
      NotIn-of_All y (head ∷ xs) (All-map _ (λ z. z ≢ y) (head ∷ xs) (λ z h. h.1.0) p.2) in
    let before =
      Leads-removed s x a y head xs (last-NotSource head xs p.0)
        (NotSource-of_NotIn x head xs fr.0 fr.1) no_y.1 fr.1 l.0 in
    let after =
      Leads-removed s x a y y (ys ++ head ∷ []) (NotSource-snoc a y head ys ap.1.0 ap.1.1)
        (NotSource-snoc x y head ys p.1.0.0 p.1.0.1)
        (NotIn-append y ys (head ∷ []) p.1.1.0 (no_y.0, tt))
        (NotIn-append x ys (head ∷ []) p.1.0.1 (fr.0, tt)) l.1.2.2 in
    let out =
      removed-bridge s x y head xs (ys ++ head ∷ []) ap.0 (λ e. p.1.0.0 (sym e)) before after in
    let nz : y ≢ 0 = λ e. (NotIn-of_append 0 xs (x ∷ (y ∷ ys)) r.no_null.1).1.1.0 (sym e) in
    rw (list_del-removed s x a y l.1.1 l.1.2.0 (before-nonzero x xs (y ∷ ys) r) nz) out

-- If the nodes after `head` are `xs`, `x` and `ys` in a list without end, then after `list_del` of
-- `x` they are `xs` and `ys`, still linked both ways, without repetition and without null.
pub list_del-IsRing :
    (s : Nodes) (x head : ℕ) (xs ys : List ℕ)
    → IsRing s head (xs ++ x ∷ ys)
    → IsRing (list_del x s) head (xs ++ ys)
list_del-IsRing s x head xs ys r = record {
  leads = rw (append_assoc xs ys (head ∷ [])) (list_del-Leads s x head xs ys r);
  distinct = Distinct-left x xs ys r;
  no_null = null_left x xs ys r;
}

-- After `list_move` of one of its nodes the list has that node first, and the others in their
-- order.
list_move-IsRing :
    (s : Nodes) (x head : ℕ) (xs ys : List ℕ)
    → IsRing s head (xs ++ x ∷ ys)
    → IsRing (list_move x head s) head (x ∷ (xs ++ ys))
unfolding list_move
list_move-IsRing s x head xs ys r =
    let fr = fresh x xs ys r in
    let new : NotIn x (xs ++ ys) = NotIn-append x xs ys fr.1 (parts x xs ys r).1.0 in
    list_add-IsRing (list_del-IsRing s x head xs ys r) x (fr.0, new)
      (λ e. (NotIn-of_append 0 xs (x ∷ ys) r.no_null.1).1.0 (sym e))
