-- ===== src/Word/Fields.antt =====
-- A register that is an array of `k`-bit fields: read, replace and mask field `i`, as in
-- `(r >> (i * step)) & MASK`, `r &= ~(MASK << (i * step)); r |= p << (i * step)` and
-- `r &= ~(m << (i * step))`.
use native.Mathlib.Nat.{mod-lt, mod-eq_of_lt, mul-le-mul_right}
use lib_dasics.Base.{
  ℕ, ◌+◌, ◌-◌, ◌*◌, ◌^◌, ◌≤◌, ◌<◌, bit_and, bit_or, ◌≡◌, ◌≢◌, ◌⊎◌, arith, ◌∙◌, ◌==◌, if◌then◌else◌,
  Bool-cases, inl, inr,
}
use lib_dasics.Word.Pow.{pow_pos}
use lib_dasics.Word.Bits.{
  bit_and_mask, bit_and-zero, bit_or-zero, zero-bit_or, bit_and-lt, bit_or-lt,
}
use lib_dasics.Word.Ops.{shl64, shr64, not64}
use lib_dasics.Word.Slice.{
  slice, slice-bit_and, slice-bit_or, slice-not64, slice-shl64_self, slice-shl64_below,
  slice-shl64_above,
}

module _ (k : ℕ) where
  unfoldable pub field : ℕ → ℕ → ℕ
  field r i = bit_and (shr64 r (i * k)) (2 ^ k - 1)

  unfoldable pub put_field : ℕ → ℕ → ℕ → ℕ
  put_field r i p = bit_or (bit_and r (not64 (shl64 (2 ^ k - 1) (i * k)))) (shl64 p (i * k))

  unfoldable pub mask_field : ℕ → ℕ → ℕ → ℕ
  mask_field r i m = bit_and r (not64 (shl64 m (i * k)))

  field-slice : (r i : ℕ) → field r i ≡ slice k (i * k) r
  unfolding field
  field-slice r i = bit_and_mask k (shr64 r (i * k))

  pub field-lt : (r i : ℕ) → field r i < 2 ^ k
  field-lt r i = rw field-slice (mod-lt _ (pow_pos k))

  apart : (i j : ℕ) → i ≢ j → (i * k + k ≤ j * k) ⊎ (j * k + k ≤ i * k)
  apart i j ne =
      grind (arith, mul-le-mul_right {m = i + 1} {n = j} k, mul-le-mul_right {m = j + 1} {n = i} k)

  -- A shifted field value, read at any place.
  slice-shl64 :
      (i j m : ℕ)
      → m < 2 ^ k
      → i * k + k ≤ 64
      → slice k (j * k) (shl64 m (i * k)) ≡ (if i == j then m else 0)
  slice-shl64 i j m small fits = ground (
    arith,
    apart i j,
    slice-shl64_self k (i * k) m small fits,
    slice-shl64_below k (i * k) m small fits (j * k),
    slice-shl64_above k (i * k) m small fits (j * k),
  )

  bit_and-ones : (r j : ℕ) → bit_and (field r j) (2 ^ k - 1 - 0) ≡ field r j
  bit_and-ones r j =
      let e : 2 ^ k - 1 - 0 ≡ 2 ^ k - 1 = omega arith in
      rw e (bit_and_mask k (field r j) ∙ mod-eq_of_lt (field-lt r j))

  slice-mask :
      (r i j m : ℕ)
      → m < 2 ^ k
      → i * k + k ≤ 64
      → j * k + k ≤ 64
      → slice k (j * k) (bit_and r (not64 (shl64 m (i * k))))
        ≡ bit_and (field r j) (2 ^ k - 1 - (if i == j then m else 0))
  slice-mask r i j m small fi fj = rw (
    slice-bit_and,
    slice-not64 k (j * k) (shl64 m (i * k)) fj (mod-lt _ (pow_pos 64)),
    slice-shl64 i j m small fi,
    field-slice,
  )

  pub field-mask_field :
      (r i j m : ℕ)
      → m < 2 ^ k
      → i * k + k ≤ 64
      → j * k + k ≤ 64
      → field (mask_field r i m) j
        ≡ (if i == j then bit_and (field r j) (2 ^ k - 1 - m) else field r j)
  unfolding mask_field
  field-mask_field r i j m small fi fj =
      rw (field-slice (bit_and r (not64 (shl64 m (i * k)))) j, slice-mask r i j m small fi fj)
        (elim (Bool-cases (i == j)) [ inl e ↦ rw e | inr e ↦ rw e (bit_and-ones r j) ])

  put_same : (r j p : ℕ) → bit_or (bit_and (field r j) (2 ^ k - 1 - (2 ^ k - 1))) p ≡ p
  put_same r j p =
      let e : 2 ^ k - 1 - (2 ^ k - 1) ≡ 0 = omega arith in rw (e, bit_and-zero) (zero-bit_or p)

  pub field-put_field :
      (r i j p : ℕ)
      → p < 2 ^ k
      → i * k + k ≤ 64
      → j * k + k ≤ 64
      → field (put_field r i p) j ≡ (if i == j then p else field r j)
  unfolding put_field
  field-put_field r i j p small fi fj =
      rw
        (
          field-slice (bit_or (bit_and r (not64 (shl64 (2 ^ k - 1) (i * k)))) (shl64 p (i * k))) j,
          slice-bit_or,
          slice-mask r i j (2 ^ k - 1) (omega (arith, pow_pos k)) fi fj,
          slice-shl64 i j p small fi,
        )
        (elim (Bool-cases (i == j)) [
          | inl e ↦ rw e (put_same r j p)
          | inr e ↦ rw e (bit_or-zero _ ∙ bit_and-ones r j)
        ])

  pub mask_field-lt : (r i m : ℕ) → r < 2 ^ 64 → mask_field r i m < 2 ^ 64
  unfolding mask_field
  mask_field-lt r i m h = bit_and-lt 64 r _ h

  pub put_field-lt : (r i p : ℕ) → r < 2 ^ 64 → put_field r i p < 2 ^ 64
  unfolding put_field
  put_field-lt r i p h = bit_or-lt 64 _ _ (bit_and-lt 64 r _ h) (mod-lt _ (pow_pos 64))
