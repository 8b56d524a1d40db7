-- ===== src/Ring/Walk.antt =====
-- The walks over a list without end.
use lib_dasics.Base.{ℕ, zero, suc, ◌<◌, ◌≡◌, arith, some, List, [], ◌∷◌, ◌++◌, length, ◌==◌}
use lib_dasics.Ring.{Nodes, visit, for_each_entry, list_empty}
use lib_dasics.Ring.Paths.{NotIn, Leads, IsRing}

-- From the node before them, the rounds visit the nodes that are left and stop at `head`.
visit-Leads :
    (s : Nodes) (head fuel p : ℕ) (xs : List ℕ)
    → Leads s p (xs ++ head ∷ [])
    → NotIn head xs
    → length xs < fuel
    → visit fuel (s.next p) head s ≡ some xs
unfolding visit
visit-Leads s head zero p xs l n h = absurd (omega arith)
visit-Leads s head (suc fuel) p [] l n h = rw l.0 (ground arith)
visit-Leads s head (suc fuel) p (x ∷ xs) l n h =
    rw (l.0, visit-Leads s head fuel x xs l.2 n.1 (omega arith)) (ground (arith, n.0))

-- On a list without end that has the nodes `xs`, `list_for_each_entry` ends: with more rounds left
-- than there are nodes it visits exactly `xs`, in order; and `list_empty` is true exactly if there
-- is no node.
pub for_each_entry_lem :
    (s : Nodes) (head fuel : ℕ) (xs : List ℕ)
    → IsRing s head xs
    → length xs < fuel
    → (for_each_entry fuel head s ≡ some xs) × (list_empty head s ≡ (length xs == 0))
unfolding for_each_entry list_empty
for_each_entry_lem s head fuel [] r h =
    (visit-Leads s head fuel head [] r.leads r.distinct.0 h, rw r.leads.0 (ground arith))
for_each_entry_lem s head fuel (x ∷ xs) r h = (
  visit-Leads s head fuel head (x ∷ xs) r.leads r.distinct.0 h,
  rw r.leads.0 (ground (arith, r.distinct.0.0)),
)
