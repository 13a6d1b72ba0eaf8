-- ===== src/RingPool/Swapped.antt =====
-- What stands at the positions of the ring after `_swap`.
use Prim.Native.Nat.{bit_and}
use native.Mathlib.Nat.{mod-eq_of_lt, mod-lt, mul_comm, mul-lt-mul_of_pos_left}
use crs.Base.{
  ℕ, ◌+◌, ◌*◌, ◌%◌, ◌^◌, ◌<◌, ◌≡◌, refl, sym, ap, ◌∙◌, inl, inr, true, false, arith, ◌==◌, ◌&&◌,
  not, if◌then◌else◌, some, ◌>>=◌, List, length, set, length-set, get_elem?, get_elem?-set,
  get_elem?-bound, swap, bit_and_mask, Bool-cases, pow-positive, size_mod, ltb, ltb→lt, ltb→le,
  ==_iff, ==_refl,
}
use crs.RingPool.{
  shift_left, Metrix, Pool, Ring, root_idx, idx, pool_get, pool_assign, clear, increment_begin_iter,
  swap_pools,
}
use crs.RingPool.FindBit.{pow-bound, pow_add}
use crs.RingPool.Metrics.{IsMetrix}
use crs.RingPool.Writable.{another_page}
use crs.RingPool.Pages.{position, root_idx-position, idx-position}

-- the start of a page
page_start :
    (m : Metrix) (h : IsMetrix m) (page : ℕ)
    → page < 2 ^ h.root_digits
    → root_idx m (shift_left page m.root_mask_shift) ≡ page
unfolding shift_left
page_start m h page k =
    let bound = pow-bound (m.root_mask_shift + h.root_digits) 64 h.fits in
    let size = pow_add m.root_mask_shift h.root_digits in
    let below = mul-lt-mul_of_pos_left k (pow-positive m.root_mask_shift) in
    let turn = mul_comm page (2 ^ m.root_mask_shift) in
    let small : page * 2 ^ m.root_mask_shift < size_mod = omega arith in
    let place : page * 2 ^ m.root_mask_shift % size_mod ≡ position m page 0 =
      mod-eq_of_lt small ∙ omega arith in
    rw place (root_idx-position m h page 0 (pow-positive m.root_mask_shift) k)

module _ {ℓ} {R : Type ℓ} where
  -- the page to be written to the file, and the file's page
  pub record IsSwappable (s : Ring R) (mp fp : Pool R) : Type ℓ where
    pub masks : IsMetrix s.metrix
    pub swap_in : s.n_pool2swap < 2 ^ masks.root_digits
    pub swap2_in : s.n_pool2swap2 < 2 ^ masks.root_digits
    pub different : s.n_pool2swap2 == s.n_pool2swap ≡ false
    pub memory : get_elem? s.root s.n_pool2swap ≡ some mp
    pub file : get_elem? s.root s.n_pool2swap2 ≡ some fp
    pub kinds : not mp.is_file && fp.is_file ≡ true

  -- the pages after a swap
  abbrev swapped_root : Ring R → Pool R → Pool R → List (Pool R)
  swapped_root s mp fp =
      let assigned = set s.root s.n_pool2swap2 (pool_assign fp mp) in
      set (set (set assigned s.n_pool2swap (pool_assign fp mp)) s.n_pool2swap2 mp) s.n_pool2swap2
        (clear mp)

  abbrev after_swap : Ring R → Pool R → Pool R → Ring R
  after_swap s mp fp =
      let (moved, s') = increment_begin_iter s in
      record s' {
        root = swapped_root s mp fp;
        n_pool2swap = bit_and (s.n_pool2swap + 1) s.metrix.root_mask;
        n_pool2swap2 = bit_and (s.n_pool2swap2 + 1) s.metrix.root_mask;
        called_back = if moved then s.called_back + 1 else s.called_back;
      }

  swap_pools-after_swap :
      (s : Ring R) (mp fp : Pool R) → IsSwappable s mp fp → swap_pools s ≡ some (after_swap s mp fp)
  unfolding swap_pools swap
  swap_pools-after_swap s mp fp h =
      let here : bit_and s.n_pool2swap s.metrix.root_mask ≡ s.n_pool2swap =
        ap (bit_and s.n_pool2swap) h.masks.root_ones
        ∙ bit_and_mask s.n_pool2swap h.masks.root_digits
        ∙ mod-eq_of_lt h.swap_in in
      let there : bit_and s.n_pool2swap2 s.metrix.root_mask ≡ s.n_pool2swap2 =
        ap (bit_and s.n_pool2swap2) h.masks.root_ones
        ∙ bit_and_mask s.n_pool2swap2 h.masks.root_digits
        ∙ mod-eq_of_lt h.swap2_in in
      let bound = get_elem?-bound s.root s.n_pool2swap2 fp h.file in
      let bound' = get_elem?-bound s.root s.n_pool2swap mp h.memory in
      let mp_at : get_elem? (set s.root s.n_pool2swap2 (pool_assign fp mp)) s.n_pool2swap
          ≡ some mp =
        rw
          (get_elem?-set s.root s.n_pool2swap2 s.n_pool2swap (pool_assign fp mp) bound, h.different)
          h.memory in
      let fp_at : get_elem? (set s.root s.n_pool2swap2 (pool_assign fp mp)) s.n_pool2swap2
          ≡ some (pool_assign fp mp) =
        rw (
          get_elem?-set s.root s.n_pool2swap2 s.n_pool2swap2 (pool_assign fp mp) bound,
          ==_refl s.n_pool2swap2,
        ) in
      let assigned = set s.root s.n_pool2swap2 (pool_assign fp mp) in
      let size : s.n_pool2swap2 < length (set assigned s.n_pool2swap (pool_assign fp mp)) =
        rw (length-set assigned, length-set s.root) bound in
      let freed : get_elem? (set (set assigned s.n_pool2swap (pool_assign fp mp)) s.n_pool2swap2 mp)
            s.n_pool2swap2
          ≡ some mp =
        rw (
          get_elem?-set (set assigned s.n_pool2swap (pool_assign fp mp)) s.n_pool2swap2
              s.n_pool2swap2 mp size,
          ==_refl s.n_pool2swap2,
        ) in
      rw (here, there, h.memory, h.file, h.kinds, mp_at, fp_at, freed)

  increment-metrix : (s : Ring R) → (increment_begin_iter s).1.metrix ≡ s.metrix
  unfolding increment_begin_iter
  increment-metrix s = elim (Bool-cases (s.n_pool2swap2 == root_idx s.metrix s.begin_pos)) [
    | inl q ↦ rw q refl
    | inr q ↦ rw q refl
  ]

  -- the pages after a swap, but for the one that is freed
  swapped_root-get :
      (s : Ring R) (mp fp : Pool R) (h : IsSwappable s mp fp) (page slot : ℕ)
      → s.n_pool2swap2 == page ≡ false
      → (get_elem? (swapped_root s mp fp) page >>= λ p. pool_get p slot)
        ≡ (get_elem? s.root page >>= λ p. pool_get p slot)
  unfolding pool_assign pool_get
  swapped_root-get s mp fp h page slot d =
      let bound = get_elem?-bound s.root s.n_pool2swap2 fp h.file in
      let bound' = get_elem?-bound s.root s.n_pool2swap mp h.memory in
      let assigned = set s.root s.n_pool2swap2 (pool_assign fp mp) in
      let moved = set assigned s.n_pool2swap (pool_assign fp mp) in
      let size : s.n_pool2swap < length assigned = rw (length-set s.root) bound' in
      let size' : s.n_pool2swap2 < length moved =
        rw (length-set assigned, length-set s.root) bound in
      let size'' : s.n_pool2swap2 < length (set moved s.n_pool2swap2 mp) =
        rw (length-set moved) size' in
      let one = get_elem?-set (set moved s.n_pool2swap2 mp) s.n_pool2swap2 page (clear mp) size'' in
      let two = get_elem?-set moved s.n_pool2swap2 page mp size' in
      let three = get_elem?-set assigned s.n_pool2swap page (pool_assign fp mp) size in
      let four = get_elem?-set s.root s.n_pool2swap2 page (pool_assign fp mp) bound in
      rw (one, d, two, d, three, four, d)
        (elim (Bool-cases (s.n_pool2swap == page)) [
          | inr q ↦ rw q refl
          | inl q ↦
              let same = (==_iff _ _).0 q in
              let found : get_elem? s.root page ≡ some mp =
                ap (get_elem? s.root) (sym same) ∙ h.memory in
              rw (q, found) refl
        ])

  several_pages : (s : Ring R) (mp fp : Pool R) (h : IsSwappable s mp fp) → 0 < h.masks.root_digits
  several_pages s mp fp h = elim (Bool-cases (ltb 0 h.masks.root_digits)) [
    | inl q ↦ ltb→lt _ _ q
    | inr q ↦
        let none : h.masks.root_digits ≡ 0 = omega (arith, ltb→le _ _ q) in
        let one : 2 ^ h.masks.root_digits ≡ 1 = ap (λ k. 2 ^ k) none in
        let first : s.n_pool2swap ≡ 0 = omega (arith, h.swap_in) in
        let first' : s.n_pool2swap2 ≡ 0 = omega (arith, h.swap2_in) in
        let different = h.different in absurd (ground arith)
  ]

  begin-after_swap :
      (s : Ring R) (mp fp : Pool R)
      → IsSwappable s mp fp
      → let t = (increment_begin_iter s).1 in
        s.n_pool2swap2 == root_idx t.metrix t.begin_pos ≡ false
  unfolding increment_begin_iter
  begin-after_swap s mp fp h = elim (Bool-cases (s.n_pool2swap2 == root_idx s.metrix s.begin_pos)) [
    | inr q ↦ rw q q
    | inl q ↦
        let next : bit_and (s.n_pool2swap2 + 1) s.metrix.root_mask
            ≡ (s.n_pool2swap2 + 1) % 2 ^ h.masks.root_digits =
          ap (bit_and (s.n_pool2swap2 + 1)) h.masks.root_ones
          ∙ bit_and_mask (s.n_pool2swap2 + 1) h.masks.root_digits in
        let start =
          page_start s.metrix h.masks ((s.n_pool2swap2 + 1) % 2 ^ h.masks.root_digits)
            (mod-lt (s.n_pool2swap2 + 1) (pow-positive h.masks.root_digits)) in
        rw (q, next, start)
          (another_page s.n_pool2swap2 h.masks.root_digits (several_pages s mp fp h))
  ]

  -- `_swap` moves the oldest page in memory to a file: the records at all positions stay what they are, but for
  -- those of the page that is freed, and the beginning of the ring is not on that page afterwards.
  pub swap_pools_lem :
      (s : Ring R) (mp fp : Pool R) (h : IsSwappable s mp fp) (page slot : ℕ)
      → page < 2 ^ h.masks.root_digits
      → slot < 2 ^ s.metrix.root_mask_shift
      → s.n_pool2swap2 == page ≡ false
      → (t : Ring R) × (swap_pools s ≡ some t)
        × (idx t (position s.metrix page slot) ≡ idx s (position s.metrix page slot))
        × (s.n_pool2swap2 == root_idx t.metrix t.begin_pos ≡ false)
  swap_pools_lem s mp fp h page slot k l d =
      let new =
        idx-position s.metrix h.masks page slot (after_swap s mp fp) (increment-metrix s) l k in
      let old = idx-position s.metrix h.masks page slot s refl l k in
      (
        after_swap s mp fp,
        swap_pools-after_swap s mp fp h,
        new ∙ swapped_root-get s mp fp h page slot d ∙ sym old,
        begin-after_swap s mp fp h,
      )
