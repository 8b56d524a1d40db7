-- ===== src/Tests/Coverage.antt =====
-- The search for coverage, with a sort by insertion.
use lib_dasics.Base.{
  ℕ, ◌≤◌, ◌≡◌, ◌⊎◌, inl, inr, ◌↔◌, refl, arith, Bool-cases, true, leb, List, [], ◌∷◌, All,
  if◌then◌else◌,
}
use lib_dasics.Udasics.Table.{list_table}
use lib_dasics.Udasics.Libcfg.{libcfg_get}
use lib_dasics.Udasics.Checker.{
  Range, IsIn, IsSorted, Qsort, is_matched, matched, coverage, bound_checker,
}
use lib_dasics.Tests.Samples.{program, two}

insert : Range → List Range → List Range
insert b [] = b ∷ []
insert b (c ∷ cs) = let rest = insert b cs in if leb b.lo c.lo then b ∷ c ∷ cs else c ∷ rest

insertion_sort : List Range → List Range
insertion_sort [] = []
insertion_sort (b ∷ bs) = insert b (insertion_sort bs)

All-insert :
    (P : Range → Type 0) (b : Range) (cs : List Range) → P b → All P cs → All P (insert b cs)
unfolding insert
All-insert P b [] h k = (h, tt)
All-insert P b (c ∷ cs) h k = elim (Bool-cases (leb b.lo c.lo)) [
  | inl y ↦ rw y (h, k)
  | inr n ↦ rw n (k.0, All-insert P b cs h k.1)
]

All-weaken : (n m : ℕ) (cs : List Range) → n ≤ m → All (λ c. m ≤ c.lo) cs → All (λ c. n ≤ c.lo) cs
All-weaken n m [] h k = tt
All-weaken n m (c ∷ cs) h k = (omega (arith, k.0), All-weaken n m cs h k.1)

insert-IsSorted : (b : Range) (cs : List Range) → IsSorted cs → IsSorted (insert b cs)
unfolding insert
insert-IsSorted b [] s = (tt, tt)
insert-IsSorted b (c ∷ cs) s = elim (Bool-cases (leb b.lo c.lo)) [
  | inl y ↦
      let first : b.lo ≤ c.lo = ground arith in rw y ((first, All-weaken b.lo c.lo cs first s.0), s)
  | inr n ↦
      let later : c.lo ≤ b.lo = ground arith in
      rw n (All-insert (λ d. c.lo ≤ d.lo) b cs later s.0, insert-IsSorted b cs s.1)
]

insertion_sort-IsSorted : (bs : List Range) → IsSorted (insertion_sort bs)
unfolding insertion_sort
insertion_sort-IsSorted [] = tt
insertion_sort-IsSorted (b ∷ bs) =
    insert-IsSorted b (insertion_sort bs) (insertion_sort-IsSorted bs)

insert-IsIn : (a b : Range) (cs : List Range) → ((a ≡ b) ⊎ IsIn a cs) → IsIn a (insert b cs)
unfolding insert
insert-IsIn a b [] h = h
insert-IsIn a b (c ∷ cs) h = elim (Bool-cases (leb b.lo c.lo)) [
  | inl y ↦ rw y h
  | inr n ↦ rw n (elim h [
    | inl e ↦ inr (insert-IsIn a b cs (inl e))
    | inr (inl e) ↦ inl e
    | inr (inr i) ↦ inr (insert-IsIn a b cs (inr i))
  ])
]

IsIn-of_insert : (a b : Range) (cs : List Range) → IsIn a (insert b cs) → (a ≡ b) ⊎ IsIn a cs
unfolding insert
IsIn-of_insert a b [] h = h
IsIn-of_insert a b (c ∷ cs) h = elim (Bool-cases (leb b.lo c.lo)) [
  | inl y ↦ rw y at h
  | inr n ↦
      let there : (a ≡ c) ⊎ IsIn a (insert b cs) = (rw n at h) in
      elim there [
        | inl e ↦ inr (inl e)
        | inr i ↦ elim (IsIn-of_insert a b cs i) [ inl e ↦ inl e | inr j ↦ inr (inr j) ]
      ]
]

insertion_sort-IsIn : (bs : List Range) (a : Range) → IsIn a bs ↔ IsIn a (insertion_sort bs)
unfolding insertion_sort
insertion_sort-IsIn [] a = ((λ i. i), λ i. i)
insertion_sort-IsIn (b ∷ bs) a =
    let rest = insertion_sort-IsIn bs a in
    (
      (λ i.
          insert-IsIn a b (insertion_sort bs) (elim i [ inl e ↦ inl e | inr j ↦ inr (rest.0 j) ])),
      λ i. elim (IsIn-of_insert a b (insertion_sort bs) i) [
        | inl e ↦ inl e
        | inr j ↦ inr (rest.1 j)
      ],
    )

abbrev by_insertion : Qsort
by_insertion = record {
  sort = insertion_sort;
  sorted = insertion_sort-IsSorted;
  same = insertion_sort-IsIn;
}

covered : bound_checker list_table by_insertion 0x1800 0x2000 2 two ≡ true
unfolding program bound_checker matched is_matched coverage insert insertion_sort libcfg_get
covered = refl
