-- ===== src/Jumpcfg/Bounds.antt =====
-- The jump bounds and the library bounds do not disturb each other.
use lib_dasics.Base.{ℕ, ◌^◌, ◌<◌, ◌≤◌, ◌≡◌, refl, arith, Bool-cases, inl, inr, ltb, leb, ◌||◌}
use lib_dasics.Udasics.Table.{HashTable}
use lib_dasics.Udasics.State.{Dasics, Csrs}
use lib_dasics.Udasics.Invariant.{IsValid, write_csr-IsValid}
use lib_dasics.Jumpcfg.{
  csr_jumpcfg, csr_jump_lo, csr_jump_hi, jumpcfg_alloc, jumpcfg_free, open_jump, first_idle,
  jumpcfg_v,
}
use lib_dasics.Jumpcfg.Laws.{region}

-- The regions are those of any registers that differ in the library bounds alone.
pub region-csr :
    (csr csr' : Csrs) (i : ℕ)
    → i < 4
    → ((n : ℕ) → 0x8b0 ≤ n → csr' n ≡ csr n)
    → region csr' i ≡ region csr i
unfolding region
region-csr csr csr' i hi same =
    rw
      (
        same csr_jumpcfg (omega arith),
        same (csr_jump_lo i) (omega arith),
        same (csr_jump_hi i) (omega arith),
      )
      refl

module _ (H : HashTable) (s : Dasics H.T) (v : IsValid H s) where
  pub jumpcfg_free-IsValid : (j : ℕ) → IsValid H (record s { csr = (jumpcfg_free j s.csr).0 })
  unfolding jumpcfg_free
  jumpcfg_free-IsValid j = elim (Bool-cases (leb (2 ^ 31) j || leb 4 j)) [
    | inl y ↦ rw y v
    | inr n ↦ rw n (write_csr-IsValid H v csr_jumpcfg _ (omega arith) (inr (omega arith)))
  ]

  pub jumpcfg_alloc-IsValid :
      (lo hi : ℕ) → IsValid H (record s { csr = (jumpcfg_alloc lo hi s.csr).0 })
  unfolding jumpcfg_alloc open_jump
  jumpcfg_alloc-IsValid lo hi =
      let idx = first_idle 16 jumpcfg_v 4 0 (s.csr csr_jumpcfg) in
      elim (Bool-cases (ltb idx 4)) [
        | inl y ↦
            let v1 = write_csr-IsValid H v (csr_jump_lo idx) lo (omega arith) (inr (omega arith)) in
            let v2 =
              write_csr-IsValid H v1 (csr_jump_hi idx) hi (omega arith) (inr (omega arith)) in
            rw y (write_csr-IsValid H v2 csr_jumpcfg _ (omega arith) (inr (omega arith)))
        | inr n ↦ rw n v
      ]
