-- ===== src/RingPool/Metrics.antt =====
-- The masks of a ring.
use native.Mathlib.Nat.{mod-eq_of_lt, mul_comm}
use crs.Base.{
  ℕ, zero, suc, ◌+◌, ◌-◌, ◌*◌, ◌%◌, ◌^◌, ◌≤◌, ◌<◌, ◌≡◌, refl, Option, none, some, arith, ltb, ◌==◌,
  ◌⊎◌, size_mod, add_size, pow-positive, Bool-cases, inl, inr,
}
use crs.RingPool.{
  char_digits, shift_left, ones_to, find_bit, Metrix, pool_bits, root_mask_of, root_bits,
  bit_mask_calculator,
}
use crs.RingPool.FindBit.{
  pow-bound, pow_add, InRange, find_bit-InRange, IsHighest, find_bit-IsHighest, ones_to-InRange,
}

-- The masks are runs of ones: a page has `2 ^ root_mask_shift` records and the root
-- `2 ^ root_digits` pages, which together fit into the bits of `size_t`.
pub record IsMetrix (m : Metrix) : Type 0 where
  pub root_digits : ℕ
  pub shift_least : 8 ≤ m.root_mask_shift
  pub fits : m.root_mask_shift + root_digits ≤ 64
  pub pool_ones : m.pool_mask ≡ 2 ^ m.root_mask_shift - 1
  pub root_ones : m.root_mask ≡ 2 ^ root_digits - 1
  pub used_ones : m.used_bits ≡ 2 ^ (m.root_mask_shift + root_digits) - 1
  pub pages : m.n_root_size ≡ 2 ^ root_digits

-- the mask of the pages and its number of ones
pool_bits_lem :
    (desired : ℕ)
    → let (mask, shift) = pool_bits desired in (mask ≡ 2 ^ shift - 1) × (8 ≤ shift) × (shift ≤ 64)
unfolding pool_bits
pool_bits_lem desired = pool_found (find_bit 64 8 desired) (find_bit-InRange 64 8 desired)
  where
    pool_found :
        (found : Option ℕ)
        → InRange 64 8 found
        → let (mask, shift) = elim found as (λ _. ℕ × ℕ) [
          | some bit_no ↦ (ones_to bit_no, bit_no)
          | none ↦ (ones_to char_digits, char_digits)
        ] in
          (mask ≡ 2 ^ shift - 1) × (8 ≤ shift) × (shift ≤ 64)
    pool_found none h = (ones_to-InRange 8 (omega arith) (omega arith), omega arith, omega arith)
    pool_found (some b) h = (ones_to-InRange b (omega arith) (omega arith), h.0, h.1)

root_mask_of_lem :
    (root_digits desired : ℕ)
    → root_digits < 64
    → (r : ℕ) × (r ≤ root_digits + 1) × (root_mask_of root_digits desired ≡ 2 ^ r - 1)
unfolding root_mask_of
root_mask_of_lem root_digits desired h =
    elim (Bool-cases (ltb desired (ones_to (root_digits + 1)))) [
      | inr q ↦ rw q most
      | inl q ↦
          rw q (chosen (find_bit root_digits 1 desired) (find_bit-InRange root_digits 1 desired))
    ]
  where
    most : (r : ℕ) × (r ≤ root_digits + 1) × (ones_to (root_digits + 1) ≡ 2 ^ r - 1)
    most = (
      root_digits + 1,
      omega arith,
      ones_to-InRange (root_digits + 1) (omega arith) (omega arith),
    )

    chosen :
        (found : Option ℕ)
        → InRange root_digits 1 found
        → (r : ℕ) × (r ≤ root_digits + 1)
          × ((elim found as (λ _. ℕ) [
            | some bit_no ↦ ones_to bit_no
            | none ↦ ones_to (root_digits + 1)
          ])
              ≡ 2 ^ r - 1)
    chosen none k = most
    chosen (some b) k = (b, omega arith, ones_to-InRange b (omega arith) (omega arith))

root_bits_lem :
    (desired shift : ℕ)
    → 8 ≤ shift
    → shift ≤ 64
    → (r : ℕ) × (shift + r ≤ 64)
      × ((root_bits desired shift).0 ≡ 2 ^ r - 1)
      × ((root_bits desired shift).1 ≡ 2 ^ r)
unfolding root_bits
root_bits_lem desired shift l u = elim (Bool-cases (64 == shift)) [
  | inl q ↦ rw q (0, omega arith, refl, refl)
  | inr q ↦
      let (r, bound, mask) = root_mask_of_lem (64 - shift - 1) desired (omega arith) in
      let room : shift + r ≤ 64 = ground arith in
      let small = pow-bound r 56 (omega arith) in
      let positive = pow-positive r in rw (q, mask) (r, room, refl, omega arith)
]

pub product : (p q : ℕ) → 0 < q → (q - 1) * p + p ≡ p * q
product p zero h = absurd (omega arith)
product p (suc q) h =
    let last : suc q - 1 ≡ q = omega arith in rw last (omega (arith, mul_comm p q))

used_ones :
    (s r : ℕ) → s + r ≤ 64 → add_size (2 ^ s - 1) (shift_left (2 ^ r - 1) s) ≡ 2 ^ (s + r) - 1
unfolding shift_left
used_ones s r h =
    let whole = pow_add s r in
    let bound = pow-bound (s + r) 64 h in
    let last = product (2 ^ s) (2 ^ r) (pow-positive r) in
    let positive = pow-positive s in
    let positive' = pow-positive (s + r) in
    let high : (2 ^ r - 1) * 2 ^ s % size_mod ≡ (2 ^ r - 1) * 2 ^ s = mod-eq_of_lt (omega arith) in
    rw high (omega arith)

-- Whatever sizes are asked for, the masks that the constructor of `bit_mask_calculator` makes are runs
-- of ones: for the records of a page, at least 256, for the pages, and for the positions, which fit
-- into 64 bits together.
pub bit_mask_calculator-IsMetrix :
    (desired_pool_size desired_root_size : ℕ)
    → IsMetrix (bit_mask_calculator desired_pool_size desired_root_size)
unfolding bit_mask_calculator
bit_mask_calculator-IsMetrix desired_pool_size desired_root_size =
    let (mask, shift) = pool_bits desired_pool_size in
    let (pool_ones, least, most) = pool_bits_lem desired_pool_size in
    let (r, fits, root_ones, pages) = root_bits_lem desired_root_size shift least most in
    record {
      root_digits = r;
      shift_least = least;
      fits = fits;
      pool_ones = pool_ones;
      root_ones = root_ones;
      used_ones = rw (pool_ones, root_ones) (used_ones shift r fits);
      pages = pages;
    }

-- A page has room for more records than asked for, and for no more than twice as many, but for the
-- least number of 256.
pub bit_mask_calculator-pool_size :
    (desired_pool_size desired_root_size : ℕ)
    → desired_pool_size < size_mod
    → let shift = (bit_mask_calculator desired_pool_size desired_root_size).root_mask_shift in
      (desired_pool_size < 2 ^ shift) × ((shift ≡ 8) ⊎ (2 ^ shift ≤ 2 * desired_pool_size))
unfolding bit_mask_calculator pool_bits
bit_mask_calculator-pool_size desired_pool_size desired_root_size h =
    bound (find_bit 64 8 desired_pool_size)
      (find_bit-IsHighest 64 8 desired_pool_size (omega arith) (omega arith) (omega arith) h)
  where
    bound :
        (found : Option ℕ)
        → IsHighest 8 desired_pool_size found
        → let shift =
            (elim found as (λ _. ℕ × ℕ) [
              | some bit_no ↦ (ones_to bit_no, bit_no)
              | none ↦ (ones_to char_digits, char_digits)
            ]).1 in
          (desired_pool_size < 2 ^ shift) × ((shift ≡ 8) ⊎ (2 ^ shift ≤ 2 * desired_pool_size))
    bound none k = (omega arith, inl refl)
    bound (some b) k = (k.1, inr k.0)
