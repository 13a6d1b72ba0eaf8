-- ===== src/RingPool/Positions.antt =====
-- Positions on the ring: their order, the size, and the iterators that are reset.
use Prim.Native.Nat.{◌∣◌}
use native.Mathlib.Nat.{
  mod-eq_of_lt, mod-mod_of_dvd, div-add-mod, mod-lt, add-mul-mod_self_left, mul_comm, mul-add,
}
use crs.Base.{
  ℕ, zero, suc, ◌+◌, ◌-◌, ◌*◌, ◌/◌, ◌%◌, ◌^◌, ◌≤◌, ◌<◌, ◌≡◌, sym, ap, ◌∙◌, ◌⊎◌, inl, inr, Bool,
  true, false, arith, ltb, leb, ◌==◌, ◌||◌, ◌&&◌, if◌then◌else◌, size_mod, add_size, sub_size,
  pow-positive, bit_and_mask, Bool-cases, ltb→lt, ltb→le, ==_iff,
}
use crs.RingPool.{
  Metrix, Ring, full_idx, from_begin, size, empty, less, equal, difference, validate,
}
use crs.RingPool.FindBit.{pow-bound, pow_add}
use crs.RingPool.Metrics.{IsMetrix, product}

-- the number of positions
abbrev pub positions : (m : Metrix) → IsMetrix m → ℕ
positions m h = 2 ^ (m.root_mask_shift + h.root_digits)

pub positions-whole :
    (m : Metrix) (h : IsMetrix m)
    → size_mod ≡ positions m h * 2 ^ (64 - (m.root_mask_shift + h.root_digits))
positions-whole m h =
    let left = 64 - (m.root_mask_shift + h.root_digits) in
    let fits = h.fits in
    let all : m.root_mask_shift + h.root_digits + left ≡ 64 = omega arith in
    ap (λ k. 2 ^ k) (sym all) ∙ pow_add (m.root_mask_shift + h.root_digits) left

pub full_idx_lem : (m : Metrix) (h : IsMetrix m) (i : ℕ) → full_idx m i ≡ i % positions m h
unfolding full_idx
full_idx_lem m h i = rw h.used_ones (bit_and_mask i (m.root_mask_shift + h.root_digits))

pub full_idx-add_size :
    (m : Metrix) (h : IsMetrix m) (a b : ℕ) → full_idx m (add_size a b) ≡ (a + b) % positions m h
full_idx-add_size m h a b =
    full_idx_lem m h (add_size a b)
    ∙ mod-mod_of_dvd (positions m h) (a + b) (∣ (_, positions-whole m h) ∣₁)

abbrev Wrapped : ℕ → ℕ → Type 0
Wrapped n a = ((a < n) × (a % n ≡ a)) ⊎ ((n ≤ a) × (a % n ≡ a - n))

-- a sum of two positions, modulo the number of positions
wrap : (n a : ℕ) → a < n + n → Wrapped n a
wrap n a h = elim (Bool-cases (ltb a n)) [
  | inl q ↦ inl (ltb→lt _ _ q, mod-eq_of_lt (ltb→lt _ _ q))
  | inr q ↦
      let above = ltb→le _ _ q in
      let split : a ≡ a - n + n * 1 = omega (arith, mul_comm n 1) in
      let small : a - n < n = omega arith in
      inr (above, ap (λ x. x % n) split ∙ add-mul-mod_self_left (a - n) n 1 ∙ mod-eq_of_lt small)
]

add_distance : (n b i : ℕ) → b < n → i < n → ((b + i) % n + (n - b)) % n ≡ i
add_distance n b i h k = elim (wrap n (b + i) (omega arith)) [
  | inl p ↦ rw p.1 (elim (wrap n (b + i + (n - b)) (omega arith)) [
    | inl q ↦ absurd (omega arith)
    | inr q ↦ q.1 ∙ omega arith
  ])
  | inr p ↦ rw p.1 (elim (wrap n (b + i - n + (n - b)) (omega arith)) [
    | inl q ↦ q.1 ∙ omega arith
    | inr q ↦ absurd (omega arith)
  ])
]

equal_mod : (n b i j : ℕ) → b < n → i < n → j < n → (b + i) % n == (b + j) % n ≡ (i == j)
equal_mod n b i j h k l =
    let one = add_distance n b i h k in
    let two = add_distance n b j h l in
    elim (Bool-cases ((b + i) % n == (b + j) % n)) [
      | inl q ↦
          let same = (==_iff _ _).0 q in
          let equal : i ≡ j = sym one ∙ ap (λ x. (x + (n - b)) % n) same ∙ two in ground arith
      | inr q ↦ elim (Bool-cases (i == j)) [
        | inl e ↦
            let equal = (==_iff _ _).0 e in
            let same : (b + i) % n ≡ (b + j) % n = ap (λ x. (b + x) % n) equal in ground arith
        | inr e ↦ q ∙ sym e
      ]
    ]

module _ (n c : ℕ) (whole : size_mod ≡ n * c) (some : 0 < n) where
  c_positive : (c : ℕ) → size_mod ≡ n * c → 0 < c
  c_positive zero w = absurd (omega arith)
  c_positive (suc c) w = omega arith

  -- a difference of positions, modulo `n`
  sub_mod : (x e : ℕ) → e < n → x < size_mod → sub_size x e % n ≡ (x % n + (n - e)) % n
  sub_mod x e h k =
      let divides : n ∣ size_mod = ∣ (c, whole) ∣₁ in
      let least : 0 < c = c_positive c whole in
      let last = product n c least in
      let turn = mul_comm n (c - 1) in
      let sum = mul-add n (x / n) (c - 1) in
      let own = div-add-mod x n in
      let split : x + size_mod - e ≡ x % n + (n - e) + n * (x / n + (c - 1)) = omega arith in
      mod-mod_of_dvd n (x + size_mod - e) divides
      ∙ ap (λ y. y % n) split
      ∙ add-mul-mod_self_left (x % n + (n - e)) n (x / n + (c - 1))

-- `validate` with all distances in terms of the positions
reset_cases :
    (n b e y index : ℕ)
    → b < n
    → e < n
    → y < n
    → ◌≡◌ {A = Bool × ℕ}
        (if b == e
          then (false, index)
          else if ltb 0 ((y + (n - e)) % n) && ltb ((y + (n - e)) % n) ((b + (n - e)) % n)
          then (true, b)
          else (false, index))
        (if (b == e) || leb ((y + (n - b)) % n) ((e + (n - b)) % n)
          then (false, index)
          else (true, b))
reset_cases n b e y index h k l =
    let y_end = wrap n (y + (n - e)) (omega arith) in
    let b_end = wrap n (b + (n - e)) (omega arith) in
    let y_begin = wrap n (y + (n - b)) (omega arith) in
    let e_begin = wrap n (e + (n - b)) (omega arith) in ground arith

-- the ring's own positions are masked
pub record IsPositioned {ℓ} {R : Type ℓ} (s : Ring R) : Type ℓ where
  pub masks : IsMetrix s.metrix
  pub begin_in : s.begin_pos < positions s.metrix masks
  pub end_in : s.end_pos < positions s.metrix masks

module _ {ℓ} {R : Type ℓ} (s : Ring R) (h : IsPositioned s) where
  abbrev n : ℕ
  n = positions s.metrix h.masks

  begin_below : s.begin_pos < n
  begin_below = h.begin_in

  end_below : s.end_pos < n
  end_below = h.end_in

  n_positive : 0 < n
  n_positive = pow-positive (s.metrix.root_mask_shift + h.masks.root_digits)

  n_bound : n ≤ size_mod
  n_bound = pow-bound (s.metrix.root_mask_shift + h.masks.root_digits) 64 h.masks.fits

  -- a difference of positions on the ring
  distance :
      (x e : ℕ) → e < n → x < size_mod → full_idx s.metrix (sub_size x e) ≡ (x % n + (n - e)) % n
  distance x e l u =
      full_idx_lem s.metrix h.masks (sub_size x e)
      ∙ sub_mod n _ (positions-whole s.metrix h.masks) n_positive x e l u

  -- the position of the `i`-th record from the beginning
  from_begin-add : (i : ℕ) → i < n → from_begin s (add_size s.begin_pos i) ≡ i
  unfolding from_begin
  from_begin-add i l =
      distance (add_size s.begin_pos i) s.begin_pos begin_below
        (mod-lt (s.begin_pos + i) (omega arith))
      ∙ ap (λ x. (x + (n - s.begin_pos)) % n)
          (sym (full_idx_lem s.metrix h.masks (add_size s.begin_pos i))
            ∙ full_idx-add_size s.metrix h.masks s.begin_pos i)
      ∙ add_distance n s.begin_pos i begin_below l

  equal-add :
      (i j : ℕ)
      → i < n
      → j < n
      → equal s (add_size s.begin_pos i) (add_size s.begin_pos j) ≡ (i == j)
  unfolding equal
  equal-add i j k l =
      rw
        (
          full_idx-add_size s.metrix h.masks s.begin_pos i,
          full_idx-add_size s.metrix h.masks s.begin_pos j,
        )
        (equal_mod n s.begin_pos i j begin_below k l)

  -- Iterators to the `i`-th and the `j`-th record from the beginning of the ring compare as `i` and `j` do, and
  -- their difference is that of `i` and `j`, wherever on the ring the records stand.
  pub iterators_lem :
      (i j : ℕ)
      → i < n
      → j < n
      → let p = add_size s.begin_pos i in
        let q = add_size s.begin_pos j in
        (less s p q ≡ ltb i j)
        × (equal s p q ≡ (i == j))
        × (difference s p q ≡ sub_size i j % 2 ^ 32)
  unfolding less difference
  iterators_lem i j k l = (
    rw (from_begin-add i k, from_begin-add j l),
    equal-add i j k l,
    rw (from_begin-add i k, from_begin-add j l),
  )

  -- `validate` leaves an iterator to a record of the ring, or behind the last one, as it is and moves every
  -- other one to the beginning; on an empty ring it leaves all as they are.
  pub validate_lem :
      (index : ℕ)
      → index < size_mod
      → validate s index ≡ (
          if empty s || leb (from_begin s index) (size s)
          then (false, index)
          else (true, s.begin_pos))
  unfolding validate empty from_begin size
  validate_lem index k =
      let b = begin_below in
      let e = end_below in
      let bound = n_bound in
      let place = mod-lt index n_positive in
      let from = distance index s.begin_pos b k in
      let own = mod-eq_of_lt e in
      let all =
        distance s.end_pos s.begin_pos b (omega arith)
        ∙ ap (λ x. (x + (n - s.begin_pos)) % n) own in
      let own' = mod-eq_of_lt b in
      let bpos =
        distance s.begin_pos s.end_pos e (omega arith) ∙ ap (λ x. (x + (n - s.end_pos)) % n) own' in
      let ipos = distance index s.end_pos e k in
      rw (from, all, bpos, ipos) (reset_cases n s.begin_pos s.end_pos (index % n) index b e place)
