-- ===== src/Word/Pow.antt =====
-- Powers of two, and quotients and remainders by a product.
use native.Mathlib.Nat.{
  pow-suc, one-le-pow, div-div-eq-div-mul, mul-add-div, div-eq_of_lt, mod-lt, div-add-mod,
}
use lib_dasics.Base.{ℕ, zero, suc, ◌+◌, ◌*◌, ◌/◌, ◌%◌, ◌^◌, ◌<◌, ◌≡◌, arith, ap, ◌∙◌}

pub pow-add : (m n : ℕ) → 2 ^ (m + n) ≡ 2 ^ m * 2 ^ n
pow-add zero n = ground arith
pow-add (suc m) n =
    let e : suc m + n ≡ suc (m + n) = omega arith in
    rw (e, pow-suc, pow-add m n, pow-suc) (grind arith)

pub pow_pos : (n : ℕ) → 0 < 2 ^ n
pow_pos n = one-le-pow n 2 (omega arith)

pub div-pow-suc : (x n : ℕ) → x / 2 ^ suc n ≡ x / 2 / 2 ^ n
div-pow-suc x n = rw (div-div-eq-div-mul, pow-suc) (ap (λ (t : ℕ). x / t) (omega arith))

div-pow-add : (x m n : ℕ) → x / 2 ^ (m + n) ≡ x / 2 ^ m / 2 ^ n
div-pow-add x m n = rw (div-div-eq-div-mul, pow-add)

-- A quotient and a remainder are known by the number that they make up.
module _ (m q t : ℕ) (h : t < m) where
  pub div_unique : (m * q + t) / m ≡ q
  div_unique =
      let pos : 0 < m = omega arith in rw (mul-add-div pos q t) (omega (arith, div-eq_of_lt h))

  pub mod_unique : (m * q + t) % m ≡ t
  mod_unique = grind arith

pub mod-pow-suc : (x n : ℕ) → x % 2 ^ suc n ≡ x / 2 % 2 ^ n * 2 + x % 2
mod-pow-suc x n =
    let m = 2 ^ n in
    let q = x / 2 / m in
    let t = x / 2 % m in
    let parts : m * q + t ≡ x / 2 = div-add-mod (x / 2) m in
    let whole : x ≡ 2 ^ suc n * q + (t * 2 + x % 2) = rw pow-suc (grind arith) in
    let small : t * 2 + x % 2 < 2 ^ suc n =
      rw pow-suc (omega (arith, mod-lt (x / 2) (pow_pos n))) in
    ap (λ (y : ℕ). y % 2 ^ suc n) whole ∙ mod_unique (2 ^ suc n) q (t * 2 + x % 2) small
