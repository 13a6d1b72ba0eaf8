-- ===== src/RingPool/FindBit.antt =====
-- The search for the highest bit.
use Prim.Native.Nat.{bit_and}
use native.Mathlib.Nat.{mod-eq_of_lt, pow-le-pow_right, mul_left_comm}
use crs.Base.{
  ℕ, zero, suc, ◌+◌, ◌-◌, ◌*◌, ◌^◌, ◌≤◌, ◌<◌, ◌≡◌, ◌∙◌, true, false, Option, none, some, arith, ltb,
  leb, ◌==◌, size_mod, sub_size, pow-positive, bit_or-ones, bit_and-above, bit_and-below,
  Bool-cases, inl, inr, ltb→le, ltb→lt,
}
use crs.RingPool.{shift_left, ones_to, find_bit}

pub pow-bound : (k n : ℕ) → k ≤ n → 2 ^ k ≤ 2 ^ n
pow-bound k n h = pow-le-pow_right (omega arith) h

pub shift_left-one : (k : ℕ) → k < 64 → shift_left 1 k ≡ 2 ^ k
unfolding shift_left
shift_left-one k h =
    let bound = pow-bound k 63 (omega arith) in
    let small : 1 * 2 ^ k < size_mod = omega arith in mod-eq_of_lt small ∙ omega arith

pub ones_to_lem : (k : ℕ) → k < 64 → ones_to (suc k) ≡ 2 ^ suc k - 1
unfolding ones_to
ones_to_lem k h =
    let last : suc k - 1 ≡ k = omega arith in
    let bound = pow-bound k 63 (omega arith) in
    let positive = pow-positive k in
    let below : sub_size (2 ^ k) 1 ≡ 2 ^ k - 1 = omega arith in
    rw (last, shift_left-one k h, below, bit_or-ones k)

-- the number of a bit lies in the range of the loop
abbrev pub InRange : ℕ → ℕ → Option ℕ → Type 0
InRange n least none = Unit
InRange n least (some b) = (least ≤ b) × (b ≤ n)

InRange-next :
    (n least : ℕ) (found : Option ℕ) → InRange n least found → InRange (suc n) least found
InRange-next n least none h = tt
InRange-next n least (some b) h = (h.0, omega arith)

pub find_bit-InRange : (n least desired : ℕ) → InRange n least (find_bit n least desired)
unfolding find_bit
find_bit-InRange zero least desired = tt
find_bit-InRange (suc n) least desired = elim (Bool-cases (leb least (suc n))) [
  | inr q ↦ rw q tt
  | inl q ↦ elim (Bool-cases (bit_and desired (shift_left 1 n) == shift_left 1 n)) [
    | inl t ↦ rw (q, t) (ground arith, omega arith)
    | inr t ↦
        rw (q, t)
          (InRange-next n least (find_bit n least desired) (find_bit-InRange n least desired))
  ]
]

-- the bit is the highest one that is set, or none from `least` on is
abbrev pub IsHighest : ℕ → ℕ → Option ℕ → Type 0
IsHighest least desired none = 2 * desired < 2 ^ least
IsHighest least desired (some b) = (2 ^ b ≤ 2 * desired) × (desired < 2 ^ b)

bit-set :
    (n desired : ℕ)
    → n < 64
    → desired < 2 ^ suc n
    → bit_and desired (shift_left 1 n) == shift_left 1 n ≡ true
    → 2 ^ n ≤ desired
bit-set n desired h d t = elim (Bool-cases (ltb desired (2 ^ n))) [
  | inr q ↦ ltb→le _ _ q
  | inl q ↦
      let none = bit_and-below desired n (ltb→lt _ _ q) in
      let positive = pow-positive n in
      let clear : 0 == 2 ^ n ≡ true = rw (shift_left-one n h, none) at t in absurd (ground arith)
]

bit-clear :
    (n desired : ℕ)
    → n < 64
    → desired < 2 ^ suc n
    → bit_and desired (shift_left 1 n) == shift_left 1 n ≡ false
    → desired < 2 ^ n
bit-clear n desired h d t = elim (Bool-cases (ltb desired (2 ^ n))) [
  | inl q ↦ ltb→lt _ _ q
  | inr q ↦
      let all = bit_and-above desired n (ltb→le _ _ q) d in
      let set : 2 ^ n == 2 ^ n ≡ false = rw (shift_left-one n h, all) at t in absurd (ground arith)
]

pub find_bit-IsHighest :
    (n least desired : ℕ)
    → 0 < least
    → n ≤ 64
    → least ≤ suc n
    → desired < 2 ^ n
    → IsHighest least desired (find_bit n least desired)
unfolding find_bit
find_bit-IsHighest zero least desired p h l d =
    let one : least ≡ 1 = omega arith in rw one (omega arith)
find_bit-IsHighest (suc n) least desired p h l d = elim (Bool-cases (leb least (suc n))) [
  | inr q ↦ let last : least ≡ suc (suc n) = ground arith in rw (q, last) (omega arith)
  | inl q ↦ elim (Bool-cases (bit_and desired (shift_left 1 n) == shift_left 1 n)) [
    | inl t ↦ let set = bit-set n desired (omega arith) d t in rw (q, t) (omega arith, d)
    | inr t ↦
        let small = bit-clear n desired (omega arith) d t in
        rw (q, t) (find_bit-IsHighest n least desired p (omega arith) (ground arith) small)
  ]
]

pub pow_add : (a b : ℕ) → 2 ^ (a + b) ≡ 2 ^ a * 2 ^ b
pow_add a zero = let same : a + 0 ≡ a = omega arith in rw same (omega arith)
pow_add a (suc b) =
    let next : a + suc b ≡ suc (a + b) = omega arith in
    let rest = pow_add a b in
    let double : 2 ^ suc (a + b) ≡ 2 * 2 ^ (a + b) = omega arith in
    let double' : 2 ^ suc b ≡ 2 * 2 ^ b = omega arith in
    let across : 2 ^ a * (2 * 2 ^ b) ≡ 2 * (2 ^ a * 2 ^ b) =
      omega (arith, mul_left_comm (2 ^ a) 2 (2 ^ b)) in
    rw (next, double, double', across, rest)

pub ones_to-InRange : (b : ℕ) → 0 < b → b ≤ 64 → ones_to b ≡ 2 ^ b - 1
ones_to-InRange zero p h = absurd (omega arith)
ones_to-InRange (suc b) p h = ones_to_lem b (omega arith)
