-- ===== src/RingPool.antt =====
-- crs/msdc/ring_pool.h, crs/msdc/ring_pool.cpp and crs/msdc/pools.cpp: a ring of memory pages, of
-- which the older ones are moved to files.
pub mod FindBit
pub mod Metrics
pub mod Positions
pub mod Pages
pub mod Writable
pub mod Swapped
mod Tests
use Prim.Native.Nat.{bit_and, bit_or}
use crs.Base.{
  ℕ, zero, suc, ◌+◌, ◌-◌, ◌*◌, ◌/◌, ◌%◌, ◌^◌, Bool, true, false, not, List, [], ◌∷◌, ◌++◌, Option,
  none, some, ltb, leb, ◌==◌, ◌&&◌, if◌then◌else◌, ◌>>=◌, length, get_elem?, set, swap, replicate,
  size_mod, add_size, sub_size,
}

-- `std::numeric_limits<size_t>::digits` and `std::numeric_limits<unsigned char>::digits`
abbrev pub size_digits : ℕ
size_digits = 64

abbrev pub char_digits : ℕ
char_digits = 8

-- `a << n` on `size_t`
unfoldable pub shift_left : ℕ → ℕ → ℕ
shift_left a n = a * 2 ^ n % size_mod

-- `bit | (bit - 1)` for the bit with the number `bit_no`, counted from one
unfoldable pub ones_to : ℕ → ℕ
ones_to bit_no = let bit = shift_left 1 (bit_no - 1) in bit_or bit (sub_size bit 1)

-- the loops over the bits from `bit_no` down to `least`: the number of the first one that is set
unfoldable pub find_bit : ℕ → ℕ → ℕ → Option ℕ
find_bit zero least desired = none
find_bit (suc bit_no) least desired =
    let bit = shift_left 1 bit_no in
    let rest = find_bit bit_no least desired in
    if leb least (suc bit_no)
    then if bit_and desired bit == bit then some (suc bit_no) else rest
    else none

pub record Metrix : Type 0 where
  pub n_pool_size : ℕ
  pub pool_mask : ℕ
  pub n_root_size : ℕ
  pub root_mask : ℕ
  pub used_bits : ℕ
  pub root_mask_shift : ℕ

-- `poolMask` and `rootMaskShift`
unfoldable pub pool_bits : ℕ → ℕ × ℕ
pool_bits desired_pool_size = elim (find_bit size_digits char_digits desired_pool_size) [
  | some bit_no ↦ (ones_to bit_no, bit_no)
  | none ↦ (ones_to char_digits, char_digits)
]

-- `rootMask`, when the pages leave `root_digits + 1` bits
unfoldable pub root_mask_of : ℕ → ℕ → ℕ
root_mask_of root_digits desired_root_size =
    let most = ones_to (root_digits + 1) in
    if ltb desired_root_size most
    then elim (find_bit root_digits 1 desired_root_size) [
      | some bit_no ↦ ones_to bit_no
      | none ↦ most
    ]
    else most

-- `rootMask` and `nRootSize`
unfoldable pub root_bits : ℕ → ℕ → ℕ × ℕ
root_bits desired_root_size root_mask_shift =
    let mask = root_mask_of (size_digits - root_mask_shift - 1) desired_root_size in
    if size_digits == root_mask_shift then (0, 1) else (mask, add_size mask 1)

-- the constructor of `bit_mask_calculator`
unfoldable pub bit_mask_calculator : ℕ → ℕ → Metrix
bit_mask_calculator desired_pool_size desired_root_size =
    let (pool_mask, root_mask_shift) = pool_bits desired_pool_size in
    let (root_mask, n_root_size) = root_bits desired_root_size root_mask_shift in
    record {
      n_pool_size = add_size pool_mask 1;
      pool_mask = pool_mask;
      n_root_size = n_root_size;
      root_mask = root_mask;
      used_bits = add_size pool_mask (shift_left root_mask root_mask_shift);
      root_mask_shift = root_mask_shift;
    }

unfoldable pub root_idx : Metrix → ℕ → ℕ
root_idx m idx = bit_and (idx / 2 ^ m.root_mask_shift) m.root_mask

unfoldable pub pool_idx : Metrix → ℕ → ℕ
pool_idx m idx = bit_and idx m.pool_mask

unfoldable pub full_idx : Metrix → ℕ → ℕ
full_idx m idx = bit_and idx m.used_bits

-- `mem_pool` and `file_pool`: the records, `nFullSize` of them
pub record Pool {ℓ} (R : Type ℓ) : Type ℓ where
  pub is_file : Bool
  pub container : List R
  pub n_count : ℕ

-- the members of a `ring_pool`; `called_back` counts the calls of `_callBack`
pub record Ring {ℓ} (R : Type ℓ) : Type ℓ where
  pub metrix : Metrix
  pub root : List (Pool R)
  pub current_pool : ℕ
  pub n_pool2swap : ℕ
  pub n_pool2swap2 : ℕ
  pub begin_pos : ℕ
  pub end_pos : ℕ
  pub called_back : ℕ

module _ {ℓ} {R : Type ℓ} where
  -- `basic_pool::clear`
  unfoldable pub clear : Pool R → Pool R
  clear p = record p { n_count = 0 }

  -- `push` of a page that is not full: whether it is full now
  unfoldable pub pool_push : Pool R → R → Option (Bool × Pool R)
  pool_push p r =
      if ltb p.n_count (length p.container)
      then some (
        p.n_count + 1 == length p.container,
        record p { container = set p.container p.n_count r; n_count = p.n_count + 1 },
      )
      else none

  unfoldable pub pool_get : Pool R → ℕ → Option R
  pool_get p i = get_elem? p.container i

  -- `file_pool::assign`
  unfoldable pub pool_assign : Pool R → Pool R → Pool R
  pool_assign fp mp = record fp { container = mp.container; n_count = mp.n_count }

  -- the pages that the constructor makes, from page `i` on: those before `n_memory` are in memory
  unfoldable pub new_pools : ℕ → ℕ → ℕ → ℕ → R → List (Pool R)
  new_pools zero i n_memory n_pool_size blank = []
  new_pools (suc n) i n_memory n_pool_size blank =
      record {
        is_file = not (ltb i n_memory);
        container = replicate n_pool_size blank;
        n_count = 0;
      }
      ∷ new_pools n (i + 1) n_memory n_pool_size blank

  unfoldable pub new_ring : ℕ → ℕ → ℕ → R → Ring R
  new_ring n_mem_pools n_pool_size n_root_size blank =
      let m = bit_mask_calculator n_pool_size n_root_size in
      let least = if ltb m.n_root_size n_mem_pools then m.n_root_size else n_mem_pools in
      let n_memory = if ltb least 2 then 2 else least in
      record {
        metrix = m;
        root = new_pools m.n_root_size 0 n_memory m.n_pool_size blank;
        current_pool = 0;
        n_pool2swap = 0;
        n_pool2swap2 = n_memory;
        begin_pos = 0;
        end_pos = 0;
        called_back = 0;
      }

  -- `idx`: the record at a position
  unfoldable pub idx : Ring R → ℕ → Option R
  idx s i = get_elem? s.root (root_idx s.metrix i) >>= λ p. pool_get p (pool_idx s.metrix i)

  -- `push`: the ring, and whether it waits for the semaphore and wakes the swap thread
  unfoldable pub push : Ring R → R → Option (Bool × Ring R)
  push s point =
      let page = bit_and s.current_pool s.metrix.root_mask in
      get_elem? s.root page >>= λ p. pool_push p point >>= λ pushed.
      let (full, q) = pushed in
      let current =
        if full then bit_and (s.current_pool + 1) s.metrix.root_mask else s.current_pool in
      some (
        full,
        record s {
          root = set s.root page q;
          current_pool = current;
          end_pos = bit_and (add_size s.end_pos 1) s.metrix.used_bits;
        },
      )

  unfoldable pub increment_begin_iter : Ring R → Bool × Ring R
  increment_begin_iter s =
      let next =
        shift_left (bit_and (s.n_pool2swap2 + 1) s.metrix.root_mask) s.metrix.root_mask_shift in
      if s.n_pool2swap2 == root_idx s.metrix s.begin_pos
      then (true, record s { begin_pos = next })
      else (false, s)

  -- `_swap`, without the hooks `_release` and `_fixLink`, which are empty. A page of the wrong kind is a
  -- null pointer of the cast.
  unfoldable pub swap_pools : Ring R → Option (Ring R)
  swap_pools s =
      let (moved, s') = increment_begin_iter s in
      let m = s.metrix in
      get_elem? s.root (bit_and s.n_pool2swap m.root_mask) >>= λ mp.
      get_elem? s.root (bit_and s.n_pool2swap2 m.root_mask) >>= λ fp.
      let assigned = set s.root s.n_pool2swap2 (pool_assign fp mp) in
      if not mp.is_file && fp.is_file
      then (swap assigned s.n_pool2swap s.n_pool2swap2 >>= λ swapped.
          get_elem? swapped s.n_pool2swap2 >>= λ freed. some (record s' {
            root = set swapped s.n_pool2swap2 (clear freed);
            n_pool2swap = bit_and (s.n_pool2swap + 1) m.root_mask;
            n_pool2swap2 = bit_and (s.n_pool2swap2 + 1) m.root_mask;
            called_back = if moved then s.called_back + 1 else s.called_back;
          }))
      else none

  unfoldable pub size : Ring R → ℕ
  size s = full_idx s.metrix (sub_size s.end_pos s.begin_pos)

  unfoldable pub empty : Ring R → Bool
  empty s = s.begin_pos == s.end_pos

  -- the position of an iterator counted from the beginning
  unfoldable pub from_begin : Ring R → ℕ → ℕ
  from_begin s index = full_idx s.metrix (sub_size index s.begin_pos)

  -- `iterator::operator <`, `==` and `-`, the last as the 32 bits of the `int`
  unfoldable pub less : Ring R → ℕ → ℕ → Bool
  less s i j = ltb (from_begin s i) (from_begin s j)

  unfoldable pub equal : Ring R → ℕ → ℕ → Bool
  equal s i j = full_idx s.metrix i == full_idx s.metrix j

  unfoldable pub difference : Ring R → ℕ → ℕ → ℕ
  difference s i j = sub_size (from_begin s i) (from_begin s j) % 2 ^ 32

  -- `recent`: the index of the iterator
  unfoldable pub recent : Ring R → ℕ
  recent s = if empty s then s.end_pos else sub_size s.end_pos 1

  -- `validate`: whether the iterator was reset, and its index
  unfoldable pub validate : Ring R → ℕ → Bool × ℕ
  validate s index =
      let bpos = full_idx s.metrix (sub_size s.begin_pos s.end_pos) in
      let ipos = full_idx s.metrix (sub_size index s.end_pos) in
      if empty s
      then (false, index)
      else if ltb 0 ipos && ltb ipos bpos
      then (true, s.begin_pos)
      else (false, index)
