-- ===== src/Word/Bits.antt =====
-- `&` and `|` part by part: of a shifted word, and of a word's low bits.
use Prim.Native.Nat.{bit_or-bitwise, bit_and-bitwise}
use lib_dasics.Base.{
  ℕ, zero, suc, ◌+◌, ◌-◌, ◌*◌, ◌/◌, ◌%◌, ◌^◌, ◌≤◌, ◌<◌, bit_and, bit_or, ◌≡◌, refl, arith, ap, ◌∙◌,
}
use native.Mathlib.Nat.{pow-suc, div-eq_of_lt, div-add-mod, mod-lt, div_self, mod_self}
use lib_dasics.Word.Step.{bit_and_digit, bit_or_digit}
use lib_dasics.Word.Pow.{div-pow-suc, mod-pow-suc, pow_pos}

pub bit_and-div : (n a b : ℕ) → bit_and a b / 2 ^ n ≡ bit_and (a / 2 ^ n) (b / 2 ^ n)
bit_and-div zero a b = ground arith
bit_and-div (suc n) a b =
    let half : bit_and a b / 2 ≡ bit_and (a / 2) (b / 2) = omega (arith, bit_and_digit a b) in
    rw (div-pow-suc, half, bit_and-div n (a / 2) (b / 2), div-pow-suc, div-pow-suc)

pub bit_or-div : (n a b : ℕ) → bit_or a b / 2 ^ n ≡ bit_or (a / 2 ^ n) (b / 2 ^ n)
bit_or-div zero a b = ground arith
bit_or-div (suc n) a b =
    let half : bit_or a b / 2 ≡ bit_or (a / 2) (b / 2) = omega (arith, bit_or_digit a b) in
    rw (div-pow-suc, half, bit_or-div n (a / 2) (b / 2), div-pow-suc, div-pow-suc)

pub bit_and-mod : (n a b : ℕ) → bit_and a b % 2 ^ n ≡ bit_and (a % 2 ^ n) (b % 2 ^ n)
bit_and-mod zero a b = ground arith
bit_and-mod (suc n) a b =
    let ea : a % 2 ^ suc n / 2 ≡ a / 2 % 2 ^ n = omega (arith, mod-pow-suc a n) in
    let eb : b % 2 ^ suc n / 2 ≡ b / 2 % 2 ^ n = omega (arith, mod-pow-suc b n) in
    let half : bit_and a b / 2 ≡ bit_and (a / 2) (b / 2) = omega (arith, bit_and_digit a b) in
    rw (mod-pow-suc (bit_and a b) n, bit_and_digit (a % 2 ^ suc n) (b % 2 ^ suc n), ea, eb, half)
      (omega
        (arith, bit_and-mod n (a / 2) (b / 2), bit_and_digit a b, mod-pow-suc a n, mod-pow-suc b n))

pub bit_or-mod : (n a b : ℕ) → bit_or a b % 2 ^ n ≡ bit_or (a % 2 ^ n) (b % 2 ^ n)
bit_or-mod zero a b = ground arith
bit_or-mod (suc n) a b =
    let ea : a % 2 ^ suc n / 2 ≡ a / 2 % 2 ^ n = omega (arith, mod-pow-suc a n) in
    let eb : b % 2 ^ suc n / 2 ≡ b / 2 % 2 ^ n = omega (arith, mod-pow-suc b n) in
    let half : bit_or a b / 2 ≡ bit_or (a / 2) (b / 2) = omega (arith, bit_or_digit a b) in
    rw (mod-pow-suc (bit_or a b) n, bit_or_digit (a % 2 ^ suc n) (b % 2 ^ suc n), ea, eb, half)
      (omega
        (arith, bit_or-mod n (a / 2) (b / 2), bit_or_digit a b, mod-pow-suc a n, mod-pow-suc b n))

-- Both laws of 0 at once, on numbers up to a bound.
zero_laws : (bound x : ℕ) → x ≤ bound → (bit_and x 0 ≡ 0) × (bit_or x 0 ≡ x)
zero_laws bound zero small = (refl, refl)
zero_laws zero (suc x) small = absurd (omega arith)
zero_laws (suc bound) (suc x) small =
    let (conj, disj) = zero_laws bound (suc x / 2) (omega arith) in
    (omega (arith, bit_and_digit (suc x) 0, conj), omega (arith, bit_or_digit (suc x) 0, disj))

pub bit_and-zero : (a : ℕ) → bit_and a 0 ≡ 0
bit_and-zero a = (zero_laws a a (omega arith)).0

pub bit_or-zero : (a : ℕ) → bit_or a 0 ≡ a
bit_or-zero a = (zero_laws a a (omega arith)).1

pub zero-bit_or : (a : ℕ) → bit_or 0 a ≡ a
zero-bit_or a = bit_or-bitwise 0 a

-- A mask of ones is a remainder.
pub bit_and_mask : (k a : ℕ) → bit_and a (2 ^ k - 1) ≡ a % 2 ^ k
bit_and_mask zero a = ground (arith, bit_and-zero a)
bit_and_mask (suc k) a =
    let half : (2 ^ suc k - 1) / 2 ≡ 2 ^ k - 1 = omega (arith, pow-suc 2 k, pow_pos k) in
    rw (bit_and_digit a (2 ^ suc k - 1), half, bit_and_mask k (a / 2))
      (omega (arith, mod-pow-suc a k, pow-suc 2 k, pow_pos k))

zero-bit_and : (a : ℕ) → bit_and 0 a ≡ 0
zero-bit_and a = bit_and-bitwise 0 a

-- One bit.
pub bit_and_bit : (k a : ℕ) → bit_and a (2 ^ k) ≡ a / 2 ^ k % 2 * 2 ^ k
bit_and_bit k a =
    let y = bit_and a (2 ^ k) in
    let q : y / 2 ^ k ≡ a / 2 ^ k % 2 =
      bit_and-div k a (2 ^ k) ∙ (rw (div_self (pow_pos k)) (bit_and_mask 1 (a / 2 ^ k))) in
    let r : y % 2 ^ k ≡ 0 = bit_and-mod k a (2 ^ k) ∙ (rw mod_self (bit_and-zero (a % 2 ^ k))) in
    omega (arith, div-add-mod y (2 ^ k), r, ap (λ (t : ℕ). 2 ^ k * t) q)

lt_of_div : (x n : ℕ) → x / 2 ^ n ≡ 0 → x < 2 ^ n
lt_of_div x n e =
    omega (arith, div-add-mod x (2 ^ n), mod-lt x (pow_pos n), ap (λ (t : ℕ). 2 ^ n * t) e)

-- Neither operation leaves the width of its arguments.
pub bit_and-lt : (n a b : ℕ) → a < 2 ^ n → bit_and a b < 2 ^ n
bit_and-lt n a b h =
    lt_of_div (bit_and a b) n (bit_and-div n a b ∙ (rw (div-eq_of_lt h) (zero-bit_and (b / 2 ^ n))))

pub bit_or-lt : (n a b : ℕ) → a < 2 ^ n → b < 2 ^ n → bit_or a b < 2 ^ n
bit_or-lt n a b h k =
    lt_of_div (bit_or a b) n (bit_or-div n a b ∙ (rw (div-eq_of_lt h, div-eq_of_lt k)))

complement-half : (n m : ℕ) → (2 ^ suc n - 1 - m) / 2 ≡ 2 ^ n - 1 - m / 2
complement-half n m = omega (arith, pow-suc 2 n, pow_pos n)

-- What a mask keeps and what its complement keeps make up the number.
pub bit_and-complement :
    (n y m : ℕ) → y < 2 ^ n → m < 2 ^ n → bit_and y (2 ^ n - 1 - m) + bit_and y m ≡ y
bit_and-complement zero y m hy hm =
    let e : y ≡ 0 = omega arith in rw (e, zero-bit_and, zero-bit_and) refl
bit_and-complement (suc n) y m hy hm =
    let w = 2 ^ suc n - 1 - m in
    let p : 2 ^ suc n ≡ 2 ^ n * 2 = pow-suc 2 n in
    let ih = bit_and-complement n (y / 2) (m / 2) (omega arith) (omega arith) in
    let half : bit_and (y / 2) (w / 2) ≡ bit_and (y / 2) (2 ^ n - 1 - m / 2) =
      ap (λ (t : ℕ). bit_and (y / 2) t) (complement-half n m) in
    omega (arith, bit_and_digit y w, bit_and_digit y m, ih, half)

pub bit_and-le_right : (n y m : ℕ) → m ≤ n → bit_and y m ≤ m
bit_and-le_right zero y m h = let e : m ≡ 0 = omega arith in rw e (omega (arith, bit_and-zero y))
bit_and-le_right (suc n) y zero h = omega (arith, bit_and-zero y)
bit_and-le_right (suc n) y (suc m) h =
    omega (arith, bit_and_digit y (suc m), bit_and-le_right n (y / 2) (suc m / 2) (omega arith))
