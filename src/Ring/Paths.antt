-- ===== src/Ring/Paths.antt =====
-- Ways along the links of the nodes, and what leaves them as they are.
use lib_dasics.Base.{ℕ, ◌≡◌, ◌≢◌, refl, arith, List, [], ◌∷◌, ◌++◌, All, update, sym}
use lib_dasics.Ring.{Nodes}

-- `a` is none of the nodes.
abbrev pub NotIn : ℕ → List ℕ → Type 0
NotIn a [] = Unit
NotIn a (x ∷ xs) = (a ≢ x) × NotIn a xs

abbrev pub Distinct : List ℕ → Type 0
Distinct [] = Unit
Distinct (x ∷ xs) = NotIn x xs × Distinct xs

-- The last of `p` and the nodes after it.
abbrev pub last : ℕ → List ℕ → ℕ
last p [] = p
last p (x ∷ xs) = last x xs

-- `a` is `p` or a node after it, but the last.
abbrev pub NotSource : ℕ → ℕ → List ℕ → Type 0
NotSource a p [] = Unit
NotSource a p (x ∷ xs) = (a ≢ p) × NotSource a x xs

-- From `p` the links lead through the nodes, and back.
abbrev pub Leads : Nodes → ℕ → List ℕ → Type 0
Leads s p [] = Unit
Leads s p (x ∷ xs) = (s.next p ≡ x) × (s.prev x ≡ p) × Leads s x xs

-- The nodes after `head` in a list without end.
pub record IsRing (s : Nodes) (head : ℕ) (xs : List ℕ) : Type 0 where
  pub leads : Leads s head (xs ++ head ∷ [])
  pub distinct : Distinct (head ∷ xs)
  pub no_null : NotIn 0 (head ∷ xs)

pub NotIn-append : (a : ℕ) (xs ys : List ℕ) → NotIn a xs → NotIn a ys → NotIn a (xs ++ ys)
NotIn-append a [] ys h k = k
NotIn-append a (x ∷ xs) ys h k = (h.0, NotIn-append a xs ys h.1 k)

pub NotIn-of_append : (a : ℕ) (xs ys : List ℕ) → NotIn a (xs ++ ys) → NotIn a xs × NotIn a ys
NotIn-of_append a [] ys h = (tt, h)
NotIn-of_append a (x ∷ xs) ys h = let r = NotIn-of_append a xs ys h.1 in ((h.0, r.0), r.1)

-- A node after those that are not `a` is not `a` either.
pub NotSource-of_NotIn : (a p : ℕ) (xs : List ℕ) → a ≢ p → NotIn a xs → NotSource a p xs
NotSource-of_NotIn a p [] h k = tt
NotSource-of_NotIn a p (x ∷ xs) h k = (h, NotSource-of_NotIn a x xs k.0 k.1)

pub last-ne : (a p : ℕ) (xs : List ℕ) → a ≢ p → NotIn a xs → a ≢ last p xs
last-ne a p [] h k = h
last-ne a p (x ∷ xs) h k = last-ne a x xs k.0 k.1

-- With no node twice, the last one is no source.
pub last-NotSource : (p : ℕ) (xs : List ℕ) → Distinct (p ∷ xs) → NotSource (last p xs) p xs
last-NotSource p [] d = tt
last-NotSource p (x ∷ xs) d = ((λ e. last-ne p x xs d.0.0 d.0.1 (sym e)), last-NotSource x xs d.1)

pub Leads-append :
    (s : Nodes) (p : ℕ) (xs ys : List ℕ)
    → Leads s p xs
    → Leads s (last p xs) ys
    → Leads s p (xs ++ ys)
Leads-append s p [] ys h k = k
Leads-append s p (x ∷ xs) ys h k = (h.0, h.1, Leads-append s x xs ys h.2 k)

pub Leads-of_append :
    (s : Nodes) (p : ℕ) (xs ys : List ℕ)
    → Leads s p (xs ++ ys)
    → Leads s p xs × Leads s (last p xs) ys
Leads-of_append s p [] ys h = (tt, h)
Leads-of_append s p (x ∷ xs) ys h = let r = Leads-of_append s x xs ys h.2 in ((h.0, h.1, r.0), r.1)

-- Writes to a `next` that is no source and to a `prev` that is not reached change nothing.
pub Leads-set_next :
    (s : Nodes) (a v p : ℕ) (xs : List ℕ)
    → NotSource a p xs
    → Leads s p xs
    → Leads (record s { next = update s.next a v }) p xs
Leads-set_next s a v p [] h k = tt
Leads-set_next s a v p (x ∷ xs) h k =
    (ground (arith, h.0, k.0), k.1, Leads-set_next s a v x xs h.1 k.2)

pub Leads-set_prev :
    (s : Nodes) (a v p : ℕ) (xs : List ℕ)
    → NotIn a xs
    → Leads s p xs
    → Leads (record s { prev = update s.prev a v }) p xs
Leads-set_prev s a v p [] h k = tt
Leads-set_prev s a v p (x ∷ xs) h k =
    (k.0, ground (arith, h.0, k.1), Leads-set_prev s a v x xs h.1 k.2)

pub NotSource-snoc : (a p y : ℕ) (xs : List ℕ) → a ≢ p → NotIn a xs → NotSource a p (xs ++ y ∷ [])
NotSource-snoc a p y [] h k = (h, tt)
NotSource-snoc a p y (x ∷ xs) h k = (h, NotSource-snoc a x y xs k.0 k.1)

-- A list without repetition has none in its parts, and no node in both.
pub Distinct-of_append :
    (xs ys : List ℕ) → Distinct (xs ++ ys) → Distinct xs × Distinct ys × All (λ x. NotIn x ys) xs
Distinct-of_append [] ys d = (tt, d, tt)
Distinct-of_append (x ∷ xs) ys d =
    let parts = NotIn-of_append x xs ys d.0 in
    let rest = Distinct-of_append xs ys d.1 in ((parts.0, rest.0), rest.1, (parts.1, rest.2))

pub Distinct-append :
    (xs ys : List ℕ) → Distinct xs → Distinct ys → All (λ x. NotIn x ys) xs → Distinct (xs ++ ys)
Distinct-append [] ys d e a = e
Distinct-append (x ∷ xs) ys d e a = (NotIn-append x xs ys d.0 a.0, Distinct-append xs ys d.1 e a.1)

-- What holds of the nodes holds of the last.
pub All-last : (P : ℕ → Type 0) (p : ℕ) (xs : List ℕ) → P p → All P xs → P (last p xs)
All-last P p [] h k = h
All-last P p (x ∷ xs) h k = All-last P x xs k.0 k.1

-- Apart is the same from the other side.
pub NotIn-of_All : (y : ℕ) (xs : List ℕ) → All (λ x. x ≢ y) xs → NotIn y xs
NotIn-of_All y [] h = tt
NotIn-of_All y (x ∷ xs) h = ((λ e. h.0 (sym e)), NotIn-of_All y xs h.1)

pub All-map : (P Q : ℕ → Type 0) (xs : List ℕ) → ((x : ℕ) → P x → Q x) → All P xs → All Q xs
All-map P Q [] f h = tt
All-map P Q (x ∷ xs) f h = (f x h.0, All-map P Q xs f h.1)

-- The way forward alone.
abbrev pub Follows : (ℕ → ℕ) → ℕ → List ℕ → Type 0
Follows next p [] = Unit
Follows next p (x ∷ xs) = (next p ≡ x) × Follows next x xs

pub Follows-of_Leads : (s : Nodes) (p : ℕ) (xs : List ℕ) → Leads s p xs → Follows s.next p xs
Follows-of_Leads s p [] l = tt
Follows-of_Leads s p (x ∷ xs) l = (l.0, Follows-of_Leads s x xs l.2)

pub Follows-of_append :
    (next : ℕ → ℕ) (p : ℕ) (xs ys : List ℕ) → Follows next p (xs ++ ys) → Follows next p xs
Follows-of_append next p [] ys h = tt
Follows-of_append next p (x ∷ xs) ys h = (h.0, Follows-of_append next x xs ys h.1)

pub Follows-update :
    (next : ℕ → ℕ) (a v p : ℕ) (xs : List ℕ)
    → NotSource a p xs
    → Follows next p xs
    → Follows (update next a v) p xs
Follows-update next a v p [] h k = tt
Follows-update next a v p (x ∷ xs) h k =
    (ground (arith, h.0, k.0), Follows-update next a v x xs h.1 k.1)

pub last-snoc : (p x : ℕ) (xs : List ℕ) → last p (xs ++ x ∷ []) ≡ x
last-snoc p x [] = refl
last-snoc p x (y ∷ ys) = last-snoc y x ys
