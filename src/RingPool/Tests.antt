-- ===== src/RingPool/Tests.antt =====
-- A ring of four pages of 256 records, two of the pages in memory.
use crs.Base.{
  ℕ, ◌+◌, ◌*◌, ◌%◌, ◌^◌, ◌<◌, ◌≤◌, ◌≡◌, refl, ◌⊎◌, Bool, true, false, [], ◌∷◌, some, arith, length,
  replicate, ltb, leb, ◌==◌, ◌||◌, if◌then◌else◌, add_size, sub_size,
}
use crs.RingPool.{
  Metrix, bit_mask_calculator, pool_bits, root_bits, root_mask_of, find_bit, ones_to, shift_left,
  full_idx, root_idx, Pool, Ring, new_pools, new_ring, idx, push, swap_pools, from_begin, size,
  empty, less, equal, difference, validate, recent,
}
use crs.RingPool.Metrics.{IsMetrix, bit_mask_calculator-IsMetrix, bit_mask_calculator-pool_size}
use crs.RingPool.Positions.{IsPositioned, positions, iterators_lem, validate_lem}
use crs.RingPool.Pages.{position, IsWritable, push_lem}
use crs.RingPool.Writable.{push-IsWritable}
use crs.RingPool.Swapped.{IsSwappable, swap_pools_lem}

abbrev small : Metrix
small = record {
  n_pool_size = 256;
  pool_mask = 255;
  n_root_size = 4;
  root_mask = 3;
  used_bits = 1023;
  root_mask_shift = 8;
}

small-made : bit_mask_calculator 255 2 ≡ small
unfolding bit_mask_calculator pool_bits root_bits root_mask_of find_bit ones_to shift_left
small-made = refl

abbrev small-IsMetrix : IsMetrix small
small-IsMetrix = record {
  root_digits = 2;
  shift_least = omega arith;
  fits = omega arith;
  pool_ones = refl;
  root_ones = refl;
  used_ones = refl;
  pages = refl;
}

abbrev memory : ℕ → Pool ℕ
memory n_count = record { is_file = false; container = replicate 256 0; n_count = n_count }

abbrev file : Pool ℕ
file = record { is_file = true; container = replicate 256 0; n_count = 0 }

-- 254 records are missing on the first page
abbrev started : Ring ℕ
started = record {
  metrix = small;
  root = memory 2 ∷ memory 0 ∷ file ∷ file ∷ [];
  current_pool = 0;
  n_pool2swap = 0;
  n_pool2swap2 = 2;
  begin_pos = 0;
  end_pos = 2;
  called_back = 0;
}

-- the same with the first page full
abbrev one_full : Ring ℕ
one_full = record started {
  root = memory 256 ∷ memory 0 ∷ file ∷ file ∷ [];
  current_pool = 1;
  end_pos = 256;
}

made :
    new_ring 2 255 2 0
    ≡ record started { root = memory 0 ∷ memory 0 ∷ file ∷ file ∷ []; end_pos = 0 }
unfolding new_ring new_pools bit_mask_calculator pool_bits root_bits root_mask_of find_bit ones_to
    shift_left
made = refl

abbrev started-IsWritable : IsWritable started (memory 2)
started-IsWritable = record {
  masks = small-IsMetrix;
  current_in = omega arith;
  page = refl;
  room = refl;
  free = omega arith;
  stands = refl;
}

push_lem_example :
    (t : Ring ℕ) × (push started 7 ≡ some (2 + 1 == length (memory 2).container, t))
    × (idx t (position small 0 2)
        ≡ (if position small 0 2 == 2 then some 7 else idx started (position small 0 2)))
push_lem_example = push_lem started (memory 2) 7 started-IsWritable 0 2 (omega arith) (omega arith)

push-IsWritable_example :
    (t : Ring ℕ) × (q : Pool ℕ) × (full : Bool) × (push started 7 ≡ some (full, t))
    × IsWritable t q
    × (t.end_pos ≡ (2 + 1) % positions small small-IsMetrix)
push-IsWritable_example =
    push-IsWritable started (memory 2) (memory 0) 7 started-IsWritable (omega arith) refl refl refl

abbrev one_full-IsSwappable : IsSwappable one_full (memory 256) file
one_full-IsSwappable = record {
  masks = small-IsMetrix;
  swap_in = omega arith;
  swap2_in = omega arith;
  different = refl;
  memory = refl;
  file = refl;
  kinds = refl;
}

swap_pools_lem_example :
    (t : Ring ℕ) × (swap_pools one_full ≡ some t)
    × (idx t (position small 0 5) ≡ idx one_full (position small 0 5))
    × (one_full.n_pool2swap2 == root_idx t.metrix t.begin_pos ≡ false)
swap_pools_lem_example =
    swap_pools_lem one_full (memory 256) file one_full-IsSwappable 0 5 (omega arith) (omega arith)
      refl

-- the ring has gone round: records from the position 1000 up to the position 10
abbrev gone_round : Ring ℕ
gone_round = record started { begin_pos = 1000; end_pos = 10 }

abbrev gone_round-IsPositioned : IsPositioned gone_round
gone_round-IsPositioned = record {
  masks = small-IsMetrix;
  begin_in = omega arith;
  end_in = omega arith;
}

gone_round-size : size gone_round ≡ 34
unfolding size full_idx
gone_round-size = refl

iterators_lem_example :
    (less gone_round (add_size 1000 3) (add_size 1000 30) ≡ ltb 3 30)
    × (equal gone_round (add_size 1000 3) (add_size 1000 30) ≡ (3 == 30))
    × (difference gone_round (add_size 1000 3) (add_size 1000 30) ≡ sub_size 3 30 % 2 ^ 32)
iterators_lem_example =
    iterators_lem gone_round gone_round-IsPositioned 3 30 (omega arith) (omega arith)

validate_lem_run : validate gone_round 500 ≡ (
    if empty gone_round || leb (from_begin gone_round 500) (size gone_round)
    then (false, 500)
    else (true, 1000))
validate_lem_run = validate_lem gone_round gone_round-IsPositioned 500 (omega arith)

reset_one : (validate gone_round 500 ≡ (true, 1000)) × (recent gone_round ≡ 9)
unfolding validate empty full_idx recent
reset_one = (refl, refl)

bit_mask_calculator-IsMetrix_example : IsMetrix (bit_mask_calculator 65535 63)
bit_mask_calculator-IsMetrix_example = bit_mask_calculator-IsMetrix 65535 63

bit_mask_calculator-pool_size_run :
    let shift = (bit_mask_calculator 65535 63).root_mask_shift in
    (65535 < 2 ^ shift) × ((shift ≡ 8) ⊎ (2 ^ shift ≤ 2 * 65535))
bit_mask_calculator-pool_size_run = bit_mask_calculator-pool_size 65535 63 (omega arith)
