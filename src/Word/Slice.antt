-- ===== src/Word/Slice.antt =====
-- The `k` bits of a word from bit `s` on, under the operators.
use native.Mathlib.Nat.{
  div-add-mod, mod-lt, div-eq_of_lt, mod-eq_of_lt, mul-div_cancel, mul-mod_left,
  mul-lt-mul_of_pos_right, zero-mod, div-lt_iff_lt-mul, pow-le-pow_right,
}
use lib_dasics.Base.{
  ℕ, ◌+◌, ◌-◌, ◌*◌, ◌/◌, ◌%◌, ◌^◌, ◌≤◌, ◌<◌, bit_and, bit_or, ◌≡◌, arith, ap, ◌∙◌,
}
use lib_dasics.Word.Pow.{pow-add, pow_pos, div_unique, mod_unique}
use lib_dasics.Word.Bits.{bit_and-div, bit_or-div, bit_and-mod, bit_or-mod}
use lib_dasics.Word.Ops.{shl64, not64}

abbrev pub slice : ℕ → ℕ → ℕ → ℕ
slice k s x = x / 2 ^ s % 2 ^ k

pub slice-bit_and : (k s a b : ℕ) → slice k s (bit_and a b) ≡ bit_and (slice k s a) (slice k s b)
slice-bit_and k s a b = rw (bit_and-div, bit_and-mod)

pub slice-bit_or : (k s a b : ℕ) → slice k s (bit_or a b) ≡ bit_or (slice k s a) (slice k s b)
slice-bit_or k s a b = rw (bit_or-div, bit_or-mod)

-- The complement of a number below a product, in its two digits.
module _ (m y x : ℕ) (pos : 0 < m) (h : x < m * y) where
  quotient-lt : x / m < y
  quotient-lt = (div-lt_iff_lt-mul pos).1 (omega arith)

  complement-eq : m * y - 1 - x ≡ m * (y - 1 - x / m) + (m - 1 - x % m)
  complement-eq =
      let d = y - 1 - x / m in
      let e : y ≡ x / m + 1 + d = omega (arith, quotient-lt) in
      omega (arith, div-add-mod x m, mod-lt x pos, quotient-lt, ap (λ (t : ℕ). m * t) e)

  complement-div : (m * y - 1 - x) / m ≡ y - 1 - x / m
  complement-div =
      ap (λ (t : ℕ). t / m) complement-eq
      ∙ div_unique m (y - 1 - x / m) (m - 1 - x % m) (omega (arith, mod-lt x pos))

  complement-mod : (m * y - 1 - x) % m ≡ m - 1 - x % m
  complement-mod =
      ap (λ (t : ℕ). t % m) complement-eq
      ∙ mod_unique m (y - 1 - x / m) (m - 1 - x % m) (omega (arith, mod-lt x pos))

word_split : (k s : ℕ) → s + k ≤ 64 → 2 ^ 64 ≡ 2 ^ s * (2 ^ k * 2 ^ (64 - (s + k)))
word_split k s fits =
    let e : 64 ≡ s + (k + (64 - (s + k))) = omega arith in
    ap (λ (n : ℕ). 2 ^ n) e
    ∙ (pow-add s (k + (64 - (s + k))) ∙ ap (λ (n : ℕ). 2 ^ s * n) (pow-add k (64 - (s + k))))

pub slice-not64 :
    (k s x : ℕ) → s + k ≤ 64 → x < 2 ^ 64 → slice k s (not64 x) ≡ 2 ^ k - 1 - slice k s x
slice-not64 k s x fits h =
    let y = 2 ^ k * 2 ^ (64 - (s + k)) in
    let e : 2 ^ 64 ≡ 2 ^ s * y = word_split k s fits in
    let below : x < 2 ^ s * y = omega (arith, e) in
    ap (λ (w : ℕ). (w - 1 - x) / 2 ^ s % 2 ^ k) e
    ∙ (ap (λ (w : ℕ). w % 2 ^ k) (complement-div (2 ^ s) y x (pow_pos s) below)
        ∙ complement-mod (2 ^ k) (2 ^ (64 - (s + k))) (x / 2 ^ s) (pow_pos k)
            (quotient-lt (2 ^ s) y x (pow_pos s) below))

module _ (k s m : ℕ) (small : m < 2 ^ k) (fits : s + k ≤ 64) where
  shifted-lt : m * 2 ^ s < 2 ^ (s + k)
  shifted-lt = rw pow-add (omega (arith, mul-lt-mul_of_pos_right small (pow_pos s)))

  shl64-eq : shl64 m s ≡ m * 2 ^ s
  shl64-eq =
      let le : 2 ^ (s + k) ≤ 2 ^ 64 = pow-le-pow_right {n = 2} (omega arith) fits in
      mod-eq_of_lt (omega (arith, shifted-lt, le))

  pub slice-shl64_self : slice k s (shl64 m s) ≡ m
  slice-shl64_self = rw (shl64-eq, mul-div_cancel m (pow_pos s)) (mod-eq_of_lt small)

  pub slice-shl64_below : (t : ℕ) → t + k ≤ s → slice k t (shl64 m s) ≡ 0
  slice-shl64_below t h =
      let r = s - (t + k) in
      let e : 2 ^ s ≡ 2 ^ r * 2 ^ k * 2 ^ t =
        (let p : s ≡ r + k + t = omega arith in
          ap (λ (n : ℕ). 2 ^ n) p
          ∙ (pow-add (r + k) t ∙ ap (λ (n : ℕ). n * 2 ^ t) (pow-add r k))) in
      let q : m * 2 ^ s ≡ m * 2 ^ r * 2 ^ k * 2 ^ t = omega (arith, ap (λ (n : ℕ). m * n) e) in
      rw (shl64-eq, q, mul-div_cancel (m * 2 ^ r * 2 ^ k) (pow_pos t))
        (mul-mod_left (m * 2 ^ r) (2 ^ k))

  pub slice-shl64_above : (t : ℕ) → s + k ≤ t → slice k t (shl64 m s) ≡ 0
  slice-shl64_above t h =
      let le : 2 ^ (s + k) ≤ 2 ^ t = pow-le-pow_right {n = 2} (omega arith) h in
      let lt : m * 2 ^ s < 2 ^ t = omega (arith, shifted-lt, le) in
      rw (shl64-eq, div-eq_of_lt lt) (zero-mod (2 ^ k))
