-- ===== src/RingPool/Writable.antt =====
-- A ring that can be written stays so.
use Prim.Native.Nat.{bit_and}
use native.Mathlib.Nat.{mod-eq_of_lt, mod_self, mod-lt, mul-le-mul_left, mul-add, mod-mod_of_dvd}
use crs.Base.{
  ℕ, zero, suc, ◌+◌, ◌*◌, ◌%◌, ◌^◌, ◌≤◌, ◌<◌, ◌≡◌, refl, ap, ◌∙◌, inl, inr, Bool, true, false,
  arith, ltb, ◌==◌, some, length, length-set, get_elem?, get_elem?-set, get_elem?-bound,
  pow-positive, bit_and_mask, Bool-cases, ltb→lt, ltb→le, ==_iff, ==_refl,
}
use crs.RingPool.{full_idx, Pool, Ring, push}
use crs.RingPool.FindBit.{pow_add}
use crs.RingPool.Positions.{positions, full_idx-add_size}
use crs.RingPool.Pages.{IsWritable, written, after_push, push-after_push}

-- the end moves on by one, from the last page to the first
module _ (p r c k : ℕ) (h : c < p) (l : k < r) where
  end_within : c + 1 < p → (c + p * k + 1) % (p * r) ≡ c + 1 + p * k
  end_within u =
      let page : p * (k + 1) ≤ p * r = mul-le-mul_left p (omega arith) in
      let sum = mul-add p k 1 in
      let next : c + p * k + 1 ≡ c + 1 + p * k = omega arith in
      ap (λ x. x % (p * r)) next ∙ mod-eq_of_lt (omega arith)

  end_over : c + 1 ≡ p → (c + p * k + 1) % (p * r) ≡ 0 + p * ((k + 1) % r)
  end_over u = elim (Bool-cases (ltb (k + 1) r)) [
    | inl q ↦
        let below = ltb→lt _ _ q in
        let page : p * (k + 2) ≤ p * r = mul-le-mul_left p (omega arith) in
        let sum = mul-add p k 1 in
        let sum' = mul-add p k 2 in
        let next : c + p * k + 1 ≡ p * (k + 1) = omega arith in
        rw (mod-eq_of_lt below)
          (ap (λ x. x % (p * r)) next ∙ mod-eq_of_lt (omega arith) ∙ omega arith)
    | inr q ↦
        let last : k + 1 ≡ r = omega (arith, ltb→le _ _ q) in
        let sum = mul-add p k 1 in
        let next : c + p * k + 1 ≡ p * (k + 1) = omega arith in
        let first : (k + 1) % r ≡ 0 = ap (λ x. x % r) last ∙ mod_self r in
        let whole : c + p * k + 1 ≡ p * r = next ∙ ap (λ x. p * x) last in
        rw (first, whole) (mod_self (p * r) ∙ omega arith)
  ]

pub another_page : (k r : ℕ) → 0 < r → k == (k + 1) % 2 ^ r ≡ false
another_page k zero h = absurd (omega arith)
another_page k (suc r) h =
    let double : 2 ^ suc r ≡ 2 * 2 ^ r = omega arith in
    let parity : (k + 1) % (2 * 2 ^ r) % 2 ≡ (k + 1) % 2 =
      mod-mod_of_dvd 2 (k + 1) (∣ (2 ^ r, refl) ∣₁) in
    rw double (ground arith)

module _ {ℓ} {R : Type ℓ} where
  -- the end of the ring after a push
  end-after_push :
      (s : Ring R) (p : Pool R) (point : R) (h : IsWritable s p)
      → (after_push s p point).end_pos ≡ (s.end_pos + 1) % positions s.metrix h.masks
  unfolding full_idx
  end-after_push s p point h = full_idx-add_size s.metrix h.masks s.end_pos 1

  written-IsWritable :
      (s : Ring R) (p : Pool R) (point : R) (h : IsWritable s p)
      → p.n_count + 1 == length p.container ≡ false
      → IsWritable (after_push s p point) (written p point)
  written-IsWritable s p point h q =
      let bound = get_elem?-bound s.root s.current_pool p h.page in
      let free = h.free in
      let room = h.room in
      let end = end-after_push s p point h in
      let left : p.n_count + 1 < length p.container = ground arith in
      let within =
        end_within (2 ^ s.metrix.root_mask_shift) (2 ^ h.masks.root_digits) p.n_count s.current_pool
          (omega arith) h.current_in (omega arith) in
      let size = pow_add s.metrix.root_mask_shift h.masks.root_digits in
      record {
        masks = h.masks;
        current_in = rw q h.current_in;
        page = rw (
          q,
          get_elem?-set s.root s.current_pool s.current_pool (written p point) bound,
          ==_refl s.current_pool,
        );
        room = rw length-set h.room;
        free = rw length-set left;
        stands = rw q (end ∙ rw (h.stands, size) within);
      }

  next-IsWritable :
      (s : Ring R) (p next : Pool R) (point : R) (h : IsWritable s p)
      → p.n_count + 1 == length p.container ≡ true
      → 0 < h.masks.root_digits
      → get_elem? s.root ((s.current_pool + 1) % 2 ^ h.masks.root_digits) ≡ some next
      → next.n_count ≡ 0
      → length next.container ≡ 2 ^ s.metrix.root_mask_shift
      → IsWritable (after_push s p point) next
  next-IsWritable s p next point h q several found cleared full_size =
      let bound = get_elem?-bound s.root s.current_pool p h.page in
      let room = h.room in
      let end = end-after_push s p point h in
      let positive = pow-positive s.metrix.root_mask_shift in
      let last : p.n_count + 1 ≡ 2 ^ s.metrix.root_mask_shift = (==_iff _ _).0 q ∙ room in
      let over =
        end_over (2 ^ s.metrix.root_mask_shift) (2 ^ h.masks.root_digits) p.n_count s.current_pool
          (omega arith) h.current_in last in
      let size = pow_add s.metrix.root_mask_shift h.masks.root_digits in
      let moved : bit_and (s.current_pool + 1) s.metrix.root_mask
          ≡ (s.current_pool + 1) % 2 ^ h.masks.root_digits =
        ap (bit_and (s.current_pool + 1)) h.masks.root_ones
        ∙ bit_and_mask (s.current_pool + 1) h.masks.root_digits in
      let other = another_page s.current_pool h.masks.root_digits several in
      record {
        masks = h.masks;
        current_in = rw (q, moved) (mod-lt (s.current_pool + 1) (pow-positive h.masks.root_digits));
        page =
            rw
              (
                q,
                moved,
                get_elem?-set s.root s.current_pool ((s.current_pool + 1) % 2 ^ h.masks.root_digits)
                    (written p point) bound,
                other,
              )
              found;
        room = full_size;
        free = omega arith;
        stands = rw (q, moved, cleared) (end ∙ rw (h.stands, size) over);
      }

  -- While the page is not full, or when the next page has been emptied, the ring can be written after a push.
  pub push-IsWritable :
      (s : Ring R) (p next : Pool R) (point : R) (h : IsWritable s p)
      → 0 < h.masks.root_digits
      → get_elem? s.root ((s.current_pool + 1) % 2 ^ h.masks.root_digits) ≡ some next
      → next.n_count ≡ 0
      → length next.container ≡ 2 ^ s.metrix.root_mask_shift
      → (t : Ring R) × (q : Pool R) × (full : Bool) × (push s point ≡ some (full, t))
        × IsWritable t q
        × (t.end_pos ≡ (s.end_pos + 1) % positions s.metrix h.masks)
  push-IsWritable s p next point h several found cleared room =
      elim (Bool-cases (p.n_count + 1 == length p.container)) [
        | inr q ↦ (
          after_push s p point,
          written p point,
          _,
          push-after_push s p point h,
          written-IsWritable s p point h q,
          end-after_push s p point h,
        )
        | inl q ↦ (
          after_push s p point,
          next,
          _,
          push-after_push s p point h,
          next-IsWritable s p next point h q several found cleared room,
          end-after_push s p point h,
        )
      ]
