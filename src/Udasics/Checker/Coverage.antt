-- ===== src/Udasics/Checker/Coverage.antt =====
-- When `dasics_bound_checker` takes a range for covered.
use lib_dasics.Base.{
  ℕ, ◌^◌, ◌<◌, ◌≤◌, ◌≡◌, inl, inr, refl, arith, Bool-cases, true, ◌&&◌, List, [], ◌∷◌, All, ltb,
  leb,
}
use lib_dasics.Word.{add64}
use lib_dasics.Udasics.Table.{HashTable}
use lib_dasics.Udasics.State.{Dasics, libcfg_width}
use lib_dasics.Udasics.Libcfg.{libcfg_get}
use lib_dasics.Udasics.Checker.{
  Range, matched, coverage, IsIn, IsCovered, IsNearly, IsSorted, Qsort, bound_checker,
}

-- What the greedy loop passes over is nearly covered.
coverage-IsNearly :
    (bs : List Range) (lo hi x : ℕ) → hi ≤ coverage bs lo → lo ≤ x → x < hi → IsNearly x bs
unfolding coverage
coverage-IsNearly [] lo hi x h p q = absurd (omega arith)
coverage-IsNearly (b ∷ bs) lo hi x h p q =
    elim (Bool-cases (leb b.lo (add64 lo 1) && leb lo b.hi)) [
      | inl y ↦ elim (Bool-cases (ltb x b.hi)) [
        | inl inside ↦ (b, inl refl, ground arith, ground arith)
        | inr beyond ↦
            let (c, i, from, to) = coverage-IsNearly bs b.hi hi x (rw y at h) (ground arith) q in
            (c, inr i, from, to)
      ]
      | inr n ↦ elim (Bool-cases (ltb b.hi lo)) [
        | inl y ↦
            let (c, i, from, to) = coverage-IsNearly bs lo hi x (rw (n, y) at h) p q in
            (c, inr i, from, to)
        | inr m ↦ let stop : hi ≤ lo = (rw (n, m) at h) in absurd (omega arith)
      ]
    ]

All-of_IsIn :
    (lo : ℕ) (b : Range) (bs : List Range) → All (λ c. lo ≤ c.lo) bs → IsIn b bs → lo ≤ b.lo
All-of_IsIn lo b [] h i = absurd i
All-of_IsIn lo b (c ∷ cs) h (inl e) = rw e h.0
All-of_IsIn lo b (c ∷ cs) h (inr i) = All-of_IsIn lo b cs h.1 i

lower :
    (b : Range) (bs : List Range)
    → All (λ c. b.lo ≤ c.lo) bs
    → (c : Range) (x : ℕ) → IsIn c (b ∷ bs)
    → c.lo ≤ x
    → b.lo ≤ x
lower b bs s c x (inl e) h = rw e at h
lower b bs s c x (inr i) h = omega (arith, All-of_IsIn b.lo c bs s i)

IsCovered-tail :
    (x : ℕ) (b : Range) (bs : List Range)
    → (x < b.hi → x < b.lo)
    → IsCovered x (b ∷ bs)
    → IsCovered x bs
IsCovered-tail x b bs out (c, inl e, (lo, hi)) =
    let lo' : b.lo ≤ x = rw e at lo in
    let hi' : x < b.hi = rw e at hi in absurd (omega (arith, out hi'))
IsCovered-tail x b bs out (c, inr i, at) = (c, i, at)

-- A covered range is passed over, if the ranges come by their lower ends.
coverage_complete :
    (bs : List Range) (lo hi : ℕ)
    → IsSorted bs
    → hi < 2 ^ 64
    → ((x : ℕ) → lo ≤ x → x < hi → IsCovered x bs)
    → hi ≤ coverage bs lo
unfolding coverage
coverage_complete [] lo hi s w all = elim (Bool-cases (ltb lo hi)) [
  | inl y ↦ absurd (all lo (omega arith) (ground arith)).1
  | inr n ↦ ground arith
]
coverage_complete (b ∷ bs) lo hi s w all =
    elim (Bool-cases (leb b.lo (add64 lo 1) && leb lo b.hi)) [
      | inl y ↦
          let far : lo ≤ b.hi = ground arith in
          rw y (
            coverage_complete bs b.hi hi s.1 w
              λ x p q. IsCovered-tail x b bs (λ h. absurd (omega arith)) (all x (omega arith) q))
      | inr n ↦ elim (Bool-cases (ltb b.hi lo)) [
        | inl y ↦
            let near : b.hi < lo = ground arith in
            rw (n, y)
              (coverage_complete bs lo hi s.1 w
                λ x p q. IsCovered-tail x b bs (λ h. absurd (omega arith)) (all x p q))
        | inr m ↦
            rw (n, m)
              (elim (Bool-cases (ltb lo hi)) [
                | inr done ↦ ground arith
                | inl more ↦
                    let (c, i, (from, to)) = all lo (omega arith) (ground arith) in
                    let before : b.lo ≤ lo = lower b bs s.0 c lo i from in absurd (ground arith)
              ])
      ]
    ]

module _ (H : HashTable) (q : Qsort) (lo hi perm : ℕ) (s : Dasics H.T) where
  abbrev ranges : List Range
  ranges = matched (λ idx. libcfg_get H idx s) s.csr perm libcfg_width 0

  -- If `dasics_bound_checker` takes a range for covered, every address of it stands in one of the
  -- matched register ranges, or is the one just before it: the greedy loop tolerates gaps of one
  -- byte. `qsort` sorts and keeps the ranges.
  bound_checker-IsNearly :
      (x : ℕ) → bound_checker H q lo hi perm s ≡ true → lo ≤ x → x < hi → IsNearly x ranges
  unfolding bound_checker
  bound_checker-IsNearly x e p r =
      let (b, i, from, to) = coverage-IsNearly (q.sort ranges) lo hi x (ground arith) p r in
      (b, (q.same ranges b).1 i, from, to)

  -- If every address of a range below 2 ^ 64 stands in one of the matched register ranges,
  -- `dasics_bound_checker` takes the range for covered. `qsort` sorts and keeps the ranges.
  bound_checker_complete :
      hi < 2 ^ 64
      → ((x : ℕ) → lo ≤ x → x < hi → IsCovered x ranges)
      → bound_checker H q lo hi perm s ≡ true
  unfolding bound_checker
  bound_checker_complete w all =
      let far =
        coverage_complete (q.sort ranges) lo hi (q.sorted ranges) w
          λ x p r. let (b, i, inside) = all x p r in (b, (q.same ranges b).0 i, inside) in
      ground arith
