-- ===== src/Word/Align.antt =====
-- `align8up`, `align8down` of include/udasics.h and `ROUND`, `ROUNDDOWN` of
-- include/dasics_string.h.
use native.Mathlib.Nat.{
  mul-mod_right, mul-div_cancel_left, div-add-mod, mod-eq_of_lt, div-lt_iff_lt-mul,
}
use lib_dasics.Base.{ℕ, ◌+◌, ◌-◌, ◌*◌, ◌/◌, ◌%◌, ◌^◌, ◌≤◌, ◌<◌, bit_and, ◌≡◌, arith, ap, ◌∙◌}
use lib_dasics.Word.Pow.{pow-add, pow_pos}
use lib_dasics.Word.Bits.{bit_and-div, bit_and-mod, bit_and_mask, bit_and-zero}
use lib_dasics.Word.Ops.{not64, add64, sub64}

unfoldable pub align8down : ℕ → ℕ
align8down addr = bit_and addr (not64 7)

unfoldable pub align8up : ℕ → ℕ
align8up addr = bit_and (add64 addr 7) (not64 7)

unfoldable pub round : ℕ → ℕ → ℕ
round a n = bit_and (sub64 (add64 a n) 1) (not64 (sub64 n 1))

pub round_down : ℕ → ℕ → ℕ
round_down a n = bit_and a (not64 (sub64 n 1))

-- Masking off the low bits.
module _ (k : ℕ) (fits : k ≤ 64) where
  high-eq : not64 (2 ^ k - 1) ≡ 2 ^ k * (2 ^ (64 - k) - 1)
  high-eq =
      let e : 64 ≡ k + (64 - k) = omega arith in
      let w : 2 ^ 64 ≡ 2 ^ k * 2 ^ (64 - k) = ap (λ (n : ℕ). 2 ^ n) e ∙ pow-add k (64 - k) in
      let q = 2 ^ (64 - k) - 1 in
      let s : 2 ^ (64 - k) ≡ q + 1 = omega (arith, pow_pos (64 - k)) in
      omega (arith, w, ap (λ (n : ℕ). 2 ^ k * n) s, pow_pos k)

  bit_and-high : (x : ℕ) → x < 2 ^ 64 → bit_and x (not64 (2 ^ k - 1)) ≡ x - x % 2 ^ k
  bit_and-high x h =
      let m = 2 ^ k in
      let y = bit_and x (not64 (m - 1)) in
      let r : y % m ≡ 0 =
        bit_and-mod k x (not64 (m - 1))
        ∙ (ap (λ (t : ℕ). bit_and (x % m) (t % m)) high-eq
            ∙ rw mul-mod_right (bit_and-zero (x % m))) in
      let w : 2 ^ 64 ≡ 2 ^ (64 - k) * m =
        (let e : 64 ≡ 64 - k + k = omega arith in ap (λ (n : ℕ). 2 ^ n) e ∙ pow-add (64 - k) k) in
      let small : x / m < 2 ^ (64 - k) = (div-lt_iff_lt-mul (pow_pos k)).1 (omega (arith, w)) in
      let q : y / m ≡ x / m =
        bit_and-div k x (not64 (m - 1))
        ∙ (ap (λ (t : ℕ). bit_and (x / m) (t / m)) high-eq
            ∙ (rw (mul-div_cancel_left (2 ^ (64 - k) - 1) (pow_pos k))
                (bit_and_mask (64 - k) (x / m) ∙ mod-eq_of_lt small))) in
      omega (arith, div-add-mod y m, div-add-mod x m, r, ap (λ (t : ℕ). m * t) q)

-- Down to a multiple of 8.
align8down-eq : (a : ℕ) → a < 2 ^ 64 → align8down a ≡ a - a % 8
unfolding align8down
align8down-eq a h = bit_and-high 3 (omega arith) a h

-- Up to a multiple of 8, where that does not wrap.
align8up-eq : (a : ℕ) → a + 7 < 2 ^ 64 → align8up a ≡ a + 7 - (a + 7) % 8
unfolding align8up
align8up-eq a h =
    let e : add64 a 7 ≡ a + 7 = omega arith in rw e (bit_and-high 3 (omega arith) (a + 7) h)

align8up-lt : (a : ℕ) → align8up a < 2 ^ 64
unfolding align8up
align8up-lt a = omega (arith, bit_and-high 3 (omega arith) (add64 a 7) (omega arith))
