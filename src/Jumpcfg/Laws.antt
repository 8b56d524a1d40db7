-- ===== src/Jumpcfg/Laws.antt =====
-- What the jump-bound operations do to the four regions.
use lib_dasics.Base.{
  ℕ, zero, suc, ◌+◌, ◌-◌, ◌%◌, ◌^◌, ◌≤◌, ◌<◌, ◌≡◌, ◌≢◌, ◌⊎◌, refl, arith, bit_and, ltb, ◌==◌,
  if◌then◌else◌, Bool-cases, inl, inr, ◌∙◌,
}
use lib_dasics.Word.Bits.{bit_and_mask, bit_and-mod, bit_and-zero}
use lib_dasics.Word.Fields.{field, field-put_field, field-mask_field}
use lib_dasics.Udasics.State.{Csrs, minus_one}
use lib_dasics.Jumpcfg.{
  csr_jumpcfg, jumpcfg_v, csr_jump_lo, csr_jump_hi, first_idle, open_jump, jumpcfg_alloc,
  jumpcfg_free,
}

-- A region as the hardware sees it: whether it is in force, and its bounds.
pub record Region : Type 0 where
  pub v_bit : ℕ
  pub lo : ℕ
  pub hi : ℕ

unfoldable pub region : Csrs → ℕ → Region
region csr i = record {
  v_bit = bit_and (field 16 (csr csr_jumpcfg) i) jumpcfg_v;
  lo = csr (csr_jump_lo i);
  hi = csr (csr_jump_hi i);
}

abbrev pub IsOpen : Csrs → ℕ → Type 0
IsOpen csr i = (region csr i).v_bit ≢ 0

pub first_idle_lem :
    (k v left idx r : ℕ)
    → let i = first_idle k v left idx r in
      (idx ≤ i)
      × (i ≤ idx + left)
      × (i < idx + left → bit_and (field k r i) v ≡ 0)
      × ((j : ℕ) → idx ≤ j → j < i → bit_and (field k r j) v ≢ 0)
unfolding first_idle
first_idle_lem k v zero idx r =
    (omega arith, omega arith, λ h. absurd (omega arith), λ j p q. absurd (omega arith))
first_idle_lem k v (suc left) idx r =
    let (lo, hi, idle, busy) = first_idle_lem k v left (idx + 1) r in
    elim (Bool-cases (bit_and (field k r idx) v == 0)) [
      | inl e ↦ rw e (omega arith, omega arith, λ h. ground arith, λ j p q. absurd (omega arith))
      | inr e ↦
          rw e
            (omega arith, omega arith, λ h. idle (omega arith), λ j p q z. ground (arith, busy j))
    ]

v-masked : (f : ℕ) → bit_and (bit_and f (2 ^ 16 - 1 - jumpcfg_v)) jumpcfg_v ≡ 0
v-masked f = rw (bit_and_mask 1 (bit_and f 0xfffe), bit_and-mod 1 f 0xfffe) (bit_and-zero (f % 2))

module _ (csr : Csrs) where
  region-open_jump :
      (lo hi i j : ℕ)
      → i < 4
      → j < 4
      → region (open_jump lo hi i csr) j
        ≡ (if i == j then record { v_bit = 1; lo = lo; hi = hi } else region csr j)
  unfolding region open_jump
  region-open_jump lo hi i j p q = ground (
    arith,
    field-put_field 16 (csr csr_jumpcfg) i j jumpcfg_v (omega arith) (omega arith) (omega arith),
  )

  -- The bounds go to the first region that is not in force, and the other regions stay as they
  -- are; with all four in force the answer is -1 and nothing changes.
  pub jumpcfg_alloc_lem :
      (lo hi : ℕ)
      → let r = jumpcfg_alloc lo hi csr in
        ((r ≡ (csr, minus_one)) × ((i : ℕ) → i < 4 → IsOpen csr i))
        ⊎ ((r.1 < 4)
            × (region r.0 r.1 ≡ record { v_bit = 1; lo = lo; hi = hi })
            × ¬ IsOpen csr r.1
            × ((i : ℕ) → i < r.1 → IsOpen csr i)
            × ((i : ℕ) → i < 4 → i ≢ r.1 → region r.0 i ≡ region csr i))
  unfolding jumpcfg_alloc region
  jumpcfg_alloc_lem lo hi =
      let r = csr csr_jumpcfg in
      let (a, b, idle, busy) = first_idle_lem 16 jumpcfg_v 4 0 r in
      let idx = first_idle 16 jumpcfg_v 4 0 r in
      elim (Bool-cases (ltb idx 4)) [
        | inl y ↦
            let lt : idx < 4 = ground arith in
            inr (
              rw y (
                lt,
                region-open_jump lo hi idx idx lt lt ∙ ground arith,
                (λ o. o (idle lt)),
                (λ i h. busy i (omega arith) h),
                λ i h ne. region-open_jump lo hi idx i lt h ∙ ground arith,
              ))
        | inr n ↦ inl (rw n (refl, λ i hi'. busy i (omega arith) (ground arith)))
      ]

  -- To free a region closes it and leaves its bounds and the other three regions as they are; an
  -- index out of range, or negative, is refused with -1 and nothing changes.
  pub jumpcfg_free_lem :
      (idx : ℕ)
      → let r = jumpcfg_free idx csr in
        (4 ≤ idx → r ≡ (csr, minus_one))
        × (idx < 4
            → (r.1 ≡ 0)
              × (region r.0 idx ≡ record (region csr idx) { v_bit = 0 })
              × ((i : ℕ) → i < 4 → i ≢ idx → region r.0 i ≡ region csr i))
  unfolding jumpcfg_free region
  jumpcfg_free_lem idx = (
    (λ h. ground arith),
    λ h. (
      ground arith,
      ground (
        arith,
        field-mask_field 16 (csr csr_jumpcfg) idx idx jumpcfg_v (omega arith) (omega arith)
            (omega arith),
        v-masked (field 16 (csr csr_jumpcfg) idx),
      ),
      λ i hi ne. ground (
        arith,
        field-mask_field 16 (csr csr_jumpcfg) idx i jumpcfg_v (omega arith) (omega arith)
            (omega arith),
      ),
    ),
  )

  pub jumpcfg_free-other : (idx n : ℕ) → n ≢ csr_jumpcfg → (jumpcfg_free idx csr).0 n ≡ csr n
  unfolding jumpcfg_free
  jumpcfg_free-other idx n ne = ground arith
