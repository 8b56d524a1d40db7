-- ===== src/Word/Step.antt =====
-- One binary digit of `&` and `|`.
use Prim.Native.Nat.{min, max, digits, bitwise, bit_and-bitwise, bit_or-bitwise}
use native.Mathlib.Nat.{le_refl}
use lib_dasics.Base.{ℕ, zero, suc, ◌+◌, ◌*◌, ◌/◌, ◌%◌, ◌≤◌, bit_and, bit_or, ◌≡◌, refl, arith}

-- The recursion on digits takes fuel; any fuel that is not below the first number will do.
module _ (rest : ℕ → ℕ) (f : ℕ → ℕ → ℕ) where
  digits-fuel :
      (x y small large : ℕ)
      → x ≤ small
      → x ≤ large
      → digits rest f small x y ≡ digits rest f large x y
  digits-fuel zero y zero zero s l = refl
  digits-fuel zero y zero (suc large) s l = refl
  digits-fuel zero y (suc small) zero s l = refl
  digits-fuel zero y (suc small) (suc large) s l = refl
  digits-fuel (suc x) y (suc small) (suc large) s l =
      rw (digits-fuel (suc x / 2) (y / 2) small large (omega arith) (omega arith))
  digits-fuel (suc x) y zero large s l = absurd (omega arith)
  digits-fuel (suc x) y (suc small) zero s l = absurd (omega arith)

  bitwise_digit :
      (a b : ℕ)
      → bitwise rest f (suc a) b ≡ bitwise rest f (suc a / 2) (b / 2) * 2 + f (suc a % 2) (b % 2)
  bitwise_digit a b =
      omega (arith, digits-fuel (suc a / 2) (b / 2) a (suc a / 2) (omega arith) (le_refl _))

pub bit_or_digit : (a b : ℕ) → bit_or a b ≡ bit_or (a / 2) (b / 2) * 2 + max (a % 2) (b % 2)
bit_or_digit zero b = simp bit_or-bitwise (omega arith)
bit_or_digit (suc a) b = simp bit_or-bitwise (bitwise_digit (λ y. y) max a b)

pub bit_and_digit : (a b : ℕ) → bit_and a b ≡ bit_and (a / 2) (b / 2) * 2 + min (a % 2) (b % 2)
bit_and_digit zero b = simp bit_and-bitwise (omega arith)
bit_and_digit (suc a) b = simp bit_and-bitwise (bitwise_digit (λ y. 0) min a b)
