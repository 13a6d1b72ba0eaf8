-- ===== src/Base/Masks.antt =====
-- Masks of low bits, and the test of the highest bit.
use Prim.Native.Nat.{
  ℕ, zero, suc, ◌+◌, ◌-◌, ◌*◌, ◌/◌, ◌%◌, ◌^◌, ◌≤◌, ◌<◌, min, max, bit_and, bit_or, digits,
  bit_and-bitwise, bit_or-bitwise,
}
use mathlib.Core.Path.{◌≡◌, refl, sym, ap, ◌∙◌}
use native.Mathlib.Omega.{arith}
use native.Mathlib.Nat.{
  mod-eq_of_lt, mod-lt, zero-mod, div-add-mod, mul_assoc, add-mul-mod_self_left,
}

pub pow-positive : (k : ℕ) → 0 < 2 ^ k
pow-positive zero = omega arith
pow-positive (suc k) = omega (arith, pow-positive k)

-- a remainder by `2 * m` from the one by `m` of the half
mod_double : (m a : ℕ) → 0 < m → a % (2 * m) ≡ 2 * (a / 2 % m) + a % 2
mod_double m a h =
    let half = a / 2 in
    let rest = half % m in
    let small : 2 * rest + a % 2 < 2 * m = omega (arith, mod-lt half h) in
    let split : a ≡ 2 * rest + a % 2 + 2 * m * (half / m) =
      omega (arith, div-add-mod half m, mul_assoc 2 m (half / m)) in
    ap (λ x. x % (2 * m)) split
    ∙ add-mul-mod_self_left (2 * rest + a % 2) (2 * m) (half / m)
    ∙ mod-eq_of_lt small

digits-mask : (n a k : ℕ) → a ≤ n → digits (λ b. zero) min n a (2 ^ k - 1) ≡ a % 2 ^ k
digits-mask zero a k h = let none : a ≡ 0 = omega arith in rw none (sym (zero-mod (2 ^ k)))
digits-mask (suc n) zero k h = sym (zero-mod (2 ^ k))
digits-mask (suc n) (suc a) zero h = omega (arith, digits-mask n (suc a / 2) 0 (omega arith))
digits-mask (suc n) (suc a) (suc k) h =
    let positive = pow-positive k in
    let low : (2 ^ suc k - 1) / 2 ≡ 2 ^ k - 1 = omega arith in
    let odd : (2 ^ suc k - 1) % 2 ≡ 1 = omega arith in
    let double : 2 ^ suc k ≡ 2 * 2 ^ k = omega arith in
    let rest = digits-mask n (suc a / 2) k (omega arith) in
    let whole = mod_double (2 ^ k) (suc a) positive in
    rw (low, odd, double, whole, rest) (omega arith)

-- masking with `k` ones takes the remainder by `2 ^ k`
pub bit_and_mask : (a k : ℕ) → bit_and a (2 ^ k - 1) ≡ a % 2 ^ k
bit_and_mask a k = bit_and-bitwise a (2 ^ k - 1) ∙ digits-mask a a k (omega arith)

digits-above :
    (n a k : ℕ) → a ≤ n → 2 ^ k ≤ a → a < 2 ^ suc k → digits (λ b. zero) min n a (2 ^ k) ≡ 2 ^ k
digits-above zero a k h l u = absurd (omega (arith, pow-positive k))
digits-above (suc n) zero k h l u = absurd (omega (arith, pow-positive k))
digits-above (suc n) (suc a) zero h l u = omega (arith, digits-mask n (suc a / 2) 0 (omega arith))
digits-above (suc n) (suc a) (suc k) h l u =
    let low : 2 ^ suc k / 2 ≡ 2 ^ k = omega arith in
    let even : 2 ^ suc k % 2 ≡ 0 = omega arith in
    rw (low, even, digits-above n (suc a / 2) k (omega arith) (omega arith) (omega arith))
      (omega arith)

digits-below : (n a k : ℕ) → a ≤ n → a < 2 ^ k → digits (λ b. zero) min n a (2 ^ k) ≡ 0
digits-below zero a k h u = refl
digits-below (suc n) zero k h u = refl
digits-below (suc n) (suc a) zero h u = absurd (omega arith)
digits-below (suc n) (suc a) (suc k) h u =
    let low : 2 ^ suc k / 2 ≡ 2 ^ k = omega arith in
    let even : 2 ^ suc k % 2 ≡ 0 = omega arith in
    rw (low, even, digits-below n (suc a / 2) k (omega arith) (omega arith)) (omega arith)

-- the test of the bit `2 ^ k`, when no bit above it is set
pub bit_and-above : (a k : ℕ) → 2 ^ k ≤ a → a < 2 ^ suc k → bit_and a (2 ^ k) ≡ 2 ^ k
bit_and-above a k l u = bit_and-bitwise a (2 ^ k) ∙ digits-above a a k (omega arith) l u

pub bit_and-below : (a k : ℕ) → a < 2 ^ k → bit_and a (2 ^ k) ≡ 0
bit_and-below a k u = bit_and-bitwise a (2 ^ k) ∙ digits-below a a k (omega arith) u

digits-none : (n b : ℕ) → digits (λ b. b) max n 0 b ≡ b
digits-none zero b = refl
digits-none (suc n) b = refl

digits-ones : (n a k : ℕ) → a ≤ n → a ≡ 2 ^ k → digits (λ b. b) max n a (2 ^ k - 1) ≡ 2 ^ suc k - 1
digits-ones zero a k h e = absurd (omega (arith, pow-positive k))
digits-ones (suc n) zero k h e = absurd (omega (arith, pow-positive k))
digits-ones (suc n) (suc a) zero h e =
    let half : suc a / 2 ≡ 0 = omega arith in rw (half, digits-none n 0) (omega arith)
digits-ones (suc n) (suc a) (suc k) h e =
    let positive = pow-positive k in
    let low : (2 ^ suc k - 1) / 2 ≡ 2 ^ k - 1 = omega arith in
    let odd : (2 ^ suc k - 1) % 2 ≡ 1 = omega arith in
    let even : suc a % 2 ≡ 0 = omega arith in
    rw (low, odd, even, digits-ones n (suc a / 2) k (omega arith) (omega arith)) (omega arith)

-- a bit and the ones below it
pub bit_or-ones : (k : ℕ) → bit_or (2 ^ k) (2 ^ k - 1) ≡ 2 ^ suc k - 1
bit_or-ones k =
    bit_or-bitwise (2 ^ k) (2 ^ k - 1) ∙ digits-ones (2 ^ k) (2 ^ k) k (omega arith) refl
