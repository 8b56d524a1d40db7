-- ===== src/Udasics/Checker.antt =====
-- `dasics_bound_checker` and `dasics_oldest_victim` of src/udasics/udasics.c: is a range covered by the
-- bounds, and which register was not used for longest. `qsort` is a parameter.
pub mod Coverage
pub mod Oldest
use lib_dasics.Base.{
  ℕ, zero, suc, ◌+◌, ◌-◌, ◌*◌, ◌/◌, ◌%◌, ◌^◌, ◌<◌, ◌≤◌, ◌≡◌, ◌⊎◌, ◌↔◌, Bool, not, ◌&&◌, List, [],
  ◌∷◌, All, bit_and, bit_or, ltb, leb, ◌==◌, if◌then◌else◌,
}
use lib_dasics.Word.{add64}
use lib_dasics.Udasics.Table.{HashTable}
use lib_dasics.Udasics.State.{Dasics, csr_bound_lo, csr_bound_hi, libcfg_width, cfg_v}
use lib_dasics.Udasics.Libcfg.{libcfg_get}

-- `bound_t`
pub record Range : Type 0 where
  pub lo : ℕ
  pub hi : ℕ

-- The test of the filling loop: the permissions of the handle, and any bit besides V that is asked.
unfoldable pub is_matched : ℕ → ℕ → Bool
is_matched cfg perm = not (bit_and cfg cfg_v == 0) && not (bit_and cfg (bit_or perm cfg_v) == cfg_v)

-- The filling loop, with `left` rounds left; `cfg` is `dasics_libcfg_get`.
unfoldable pub matched : (ℕ → ℕ) → (ℕ → ℕ) → ℕ → ℕ → ℕ → List Range
matched cfg csr perm zero idx = []
matched cfg csr perm (suc left) idx =
    let rest = matched cfg csr perm left (idx + 1) in
    if is_matched (cfg idx) perm
    then record { lo = csr (csr_bound_lo idx); hi = csr (csr_bound_hi idx) } ∷ rest
    else rest

-- The greedy loop: how far the range is covered.
unfoldable pub coverage : List Range → ℕ → ℕ
coverage [] lo = lo
coverage (b ∷ bs) lo =
    let later = coverage bs lo in
    let further = coverage bs b.hi in
    if leb b.lo (add64 lo 1) && leb lo b.hi then further else if ltb b.hi lo then later else lo

abbrev Covers : Range → ℕ → Type 0
Covers b x = (b.lo ≤ x) × (x < b.hi)

abbrev pub IsIn : Range → List Range → Type 0
IsIn b [] = ⊥
IsIn b (c ∷ cs) = (b ≡ c) ⊎ IsIn b cs

-- Some range of the list has the address; or has it or the next one.
abbrev pub IsCovered : ℕ → List Range → Type 0
IsCovered x bs = (b : Range) × IsIn b bs × Covers b x

abbrev pub IsNearly : ℕ → List Range → Type 0
IsNearly x bs = (b : Range) × IsIn b bs × (b.lo ≤ x + 1) × (x < b.hi)

abbrev pub IsSorted : List Range → Type 0
IsSorted [] = Unit
IsSorted (b ∷ bs) = All (λ c. b.lo ≤ c.lo) bs × IsSorted bs

-- `qsort` with `bound_coverage_cmp`: the same ranges, by their lower ends.
pub record Qsort : Type 0 where
  pub sort : List Range → List Range
  pub sorted : (bs : List Range) → IsSorted (sort bs)
  pub same : (bs : List Range) (b : Range) → IsIn b bs ↔ IsIn b (sort bs)

module _ (H : HashTable) (q : Qsort) where
  -- `dasics_bound_checker`
  unfoldable pub bound_checker : ℕ → ℕ → ℕ → Dasics H.T → Bool
  bound_checker lo hi perm s =
      let bounds = matched (λ idx. libcfg_get H idx s) s.csr perm libcfg_width 0 in
      leb hi (coverage (q.sort bounds) lo)

-- `aging_val`: the byte of the register in one of the two words.
pub aging_val : ℕ → ℕ → ℕ → ℕ
aging_val dlaging0 dlaging1 i =
    if ltb i 8 then dlaging0 / 2 ^ (i * 8) % 256 else dlaging1 / 2 ^ ((i - 8) * 8) % 256

-- The loop of `dasics_oldest_victim`.
pub oldest_from : (ℕ → ℕ) → ℕ → ℕ → ℕ → ℕ → ℕ
oldest_from aging zero i victim oldest = victim
oldest_from aging (suc left) i victim oldest =
    oldest_from aging left (i + 1) (if leb (aging i) oldest then i else victim)
      (if leb (aging i) oldest then aging i else oldest)

pub oldest_victim : {T : Type 0} → Dasics T → ℕ
oldest_victim s = oldest_from (aging_val (s.csr 0x881) (s.csr 0x882)) libcfg_width 0 0 0xff
