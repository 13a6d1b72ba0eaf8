-- ===== src/RingPool/Pages.antt =====
-- What stands at the positions of the ring after `push` and `_swap`.
use Prim.Native.Nat.{bit_and}
use native.Mathlib.Nat.{mod-eq_of_lt, add-mul-div_left, div-eq_of_lt, add-mul-mod_self_left}
use crs.Base.{
  ℕ, ◌+◌, ◌*◌, ◌/◌, ◌%◌, ◌^◌, ◌<◌, ◌≡◌, refl, sym, ap, ap₂, ◌∙◌, inl, inr, arith, ◌==◌, ◌&&◌,
  if◌then◌else◌, some, ◌>>=◌, length, set, get_elem?, get_elem?-set, get_elem?-bound, add_size,
  pow-positive, bit_and_mask, Bool-cases, lt→ltb, ==_iff,
}
use crs.RingPool.{Metrix, Pool, Ring, root_idx, pool_idx, idx, push, pool_push, pool_get}
use crs.RingPool.Metrics.{IsMetrix}

-- the position of the record with the number `slot` on a page
abbrev pub position : Metrix → ℕ → ℕ → ℕ
position m page slot = slot + 2 ^ m.root_mask_shift * page

module _ (m : Metrix) where
  page_of :
      (page slot : ℕ)
      → slot < 2 ^ m.root_mask_shift
      → position m page slot / 2 ^ m.root_mask_shift ≡ page
  page_of page slot h =
      let none = div-eq_of_lt h in
      add-mul-div_left slot page (pow-positive m.root_mask_shift) ∙ omega arith

  slot_of :
      (page slot : ℕ)
      → slot < 2 ^ m.root_mask_shift
      → position m page slot % 2 ^ m.root_mask_shift ≡ slot
  slot_of page slot h = add-mul-mod_self_left slot (2 ^ m.root_mask_shift) page ∙ mod-eq_of_lt h

  -- two positions are the same when the pages and the slots are
  position_inj :
      (page page' slot slot' : ℕ)
      → slot < 2 ^ m.root_mask_shift
      → slot' < 2 ^ m.root_mask_shift
      → position m page slot ≡ position m page' slot'
      → (page ≡ page') × (slot ≡ slot')
  position_inj page page' slot slot' h k e = (
    sym (page_of page slot h) ∙ ap (λ i. i / 2 ^ m.root_mask_shift) e ∙ page_of page' slot' k,
    sym (slot_of page slot h) ∙ ap (λ i. i % 2 ^ m.root_mask_shift) e ∙ slot_of page' slot' k,
  )

  -- whether a position is that of a record on another page
  at_end :
      (page page' slot slot' : ℕ)
      → slot < 2 ^ m.root_mask_shift
      → slot' < 2 ^ m.root_mask_shift
      → position m page slot == position m page' slot' ≡ (page' == page) && (slot' == slot)
  at_end page page' slot slot' h k =
      elim (Bool-cases (position m page slot == position m page' slot')) [
        | inl q ↦
            let (one, two) = position_inj page page' slot slot' h k ((==_iff _ _).0 q) in
            ground arith
        | inr q ↦ elim (Bool-cases (page' == page)) [
          | inr e ↦ rw e q
          | inl e ↦ elim (Bool-cases (slot' == slot)) [
            | inr f ↦ rw (e, f) q
            | inl f ↦
                let same : position m page slot ≡ position m page' slot' =
                  ap₂ (position m) (sym ((==_iff _ _).0 e)) (sym ((==_iff _ _).0 f)) in
                absurd (ground arith)
          ]
        ]
      ]

  module _ (masks : IsMetrix m) (page slot : ℕ) where
    pub root_idx-position :
        slot < 2 ^ m.root_mask_shift
        → page < 2 ^ masks.root_digits
        → root_idx m (position m page slot) ≡ page
    unfolding root_idx
    root_idx-position h k =
        rw (page_of page slot h, masks.root_ones)
          (bit_and_mask page masks.root_digits ∙ mod-eq_of_lt k)

    pool_idx-position : slot < 2 ^ m.root_mask_shift → pool_idx m (position m page slot) ≡ slot
    unfolding pool_idx
    pool_idx-position h =
        rw masks.pool_ones
          (bit_and_mask (position m page slot) m.root_mask_shift ∙ slot_of page slot h)

    pub idx-position {ℓ} :
        {R : Type ℓ} (s : Ring R)
        → s.metrix ≡ m
        → slot < 2 ^ m.root_mask_shift
        → page < 2 ^ masks.root_digits
        → idx s (position m page slot) ≡ get_elem? s.root page >>= λ p. pool_get p slot
    unfolding idx
    idx-position s e h k = rw (e, root_idx-position h k, pool_idx-position h)

module _ {ℓ} {R : Type ℓ} where
  -- The ring has all its pages, each with room for all its records; the page that is written has
  -- room for one more, and the end of the ring stands there.
  pub record IsWritable (s : Ring R) (p : Pool R) : Type ℓ where
    pub masks : IsMetrix s.metrix
    pub current_in : s.current_pool < 2 ^ masks.root_digits
    pub page : get_elem? s.root s.current_pool ≡ some p
    pub room : length p.container ≡ 2 ^ s.metrix.root_mask_shift
    pub free : p.n_count < length p.container
    pub stands : s.end_pos ≡ position s.metrix s.current_pool p.n_count

  -- the page and the ring after a push
  abbrev pub written : Pool R → R → Pool R
  written p point = record p {
    container = set p.container p.n_count point;
    n_count = p.n_count + 1;
  }

  abbrev pub after_push : Ring R → Pool R → R → Ring R
  after_push s p point =
      let full = p.n_count + 1 == length p.container in
      record s {
        root = set s.root s.current_pool (written p point);
        current_pool =
            if full then bit_and (s.current_pool + 1) s.metrix.root_mask else s.current_pool;
        end_pos = bit_and (add_size s.end_pos 1) s.metrix.used_bits;
      }

  pub push-after_push :
      (s : Ring R) (p : Pool R) (point : R)
      → IsWritable s p
      → push s point ≡ some (p.n_count + 1 == length p.container, after_push s p point)
  unfolding push pool_push
  push-after_push s p point h =
      let here : bit_and s.current_pool s.metrix.root_mask ≡ s.current_pool =
        ap (bit_and s.current_pool) h.masks.root_ones
        ∙ bit_and_mask s.current_pool h.masks.root_digits
        ∙ mod-eq_of_lt h.current_in in
      rw (here, h.page, lt→ltb _ _ h.free)

  -- reading a position of the ring after a push
  idx-after_push :
      (s : Ring R) (p : Pool R) (point : R) (h : IsWritable s p) (page slot : ℕ)
      → page < 2 ^ h.masks.root_digits
      → slot < 2 ^ s.metrix.root_mask_shift
      → idx (after_push s p point) (position s.metrix page slot) ≡ (
          if position s.metrix page slot == s.end_pos
          then some point
          else idx s (position s.metrix page slot))
  unfolding pool_get
  idx-after_push s p point h page slot k l =
      let new = idx-position s.metrix h.masks page slot (after_push s p point) refl l k in
      let old = idx-position s.metrix h.masks page slot s refl l k in
      let bound = get_elem?-bound s.root s.current_pool p h.page in
      let there =
        at_end s.metrix page s.current_pool slot p.n_count l (omega (arith, h.free, h.room)) in
      rw
        (
          new,
          old,
          get_elem?-set s.root s.current_pool page (written p point) bound,
          h.stands,
          there,
        )
        (elim (Bool-cases (s.current_pool == page)) [
          | inr q ↦ rw q
          | inl q ↦
              let same = (==_iff s.current_pool page).0 q in
              let found : get_elem? s.root page ≡ some p =
                ap (get_elem? s.root) (sym same) ∙ h.page in
              rw (q, found, get_elem?-set p.container p.n_count slot point h.free)
        ])

  -- `push` of a ring that can be written takes the record to the end position, and leaves the records at all
  -- other positions; it says whether the page is full.
  pub push_lem :
      (s : Ring R) (p : Pool R) (point : R) (h : IsWritable s p) (page slot : ℕ)
      → page < 2 ^ h.masks.root_digits
      → slot < 2 ^ s.metrix.root_mask_shift
      → (t : Ring R) × (push s point ≡ some (p.n_count + 1 == length p.container, t))
        × (idx t (position s.metrix page slot) ≡ (
            if position s.metrix page slot == s.end_pos
            then some point
            else idx s (position s.metrix page slot)))
  push_lem s p point h page slot k l =
      (after_push s p point, push-after_push s p point h, idx-after_push s p point h page slot k l)
